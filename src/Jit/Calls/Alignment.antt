-- ===== src/Jit/Calls/Alignment.antt =====
-- The stack around a call: the code of `encode_call`, with how far rsp stands below its first place.
use mathlib.Core.Bool.{true≢false}
use mathlib.Core.List.{reverse_aux, reverse}
use tiny_compile.Prelude.{
  ℕ, ◌+◌, ◌*◌, ◌%◌, ◌^◌, ◌<◌, ◌≡◌, ◌≢◌, ◌-◌, ◌∙◌, refl, sym, subst, Bool, true, false, Bool-cases,
  Option-cases, inl, inr, List, [], ◌∷◌, arith, length, leb, ltb, ◌||◌, if◌then◌else◌, length-drop,
  length-take, drop, take,
}
use tiny_compile.Ir.{IrInstruction}
use tiny_compile.Jit.Registers.{
  X86Reg, reg_rax, ext_sub, ext_add, is_allocatable_register, sys_v_max_reg_args, arg_registers,
}
use tiny_compile.Jit.Buffer.{Cursor, emit_bytes, emit_u32, emit_u64, bytes_u32}
use tiny_compile.Jit.Emit.{modrm, emit_push, emit_pop}
use tiny_compile.Jit.Context.{
  Location, loc_reg, Allocation, Addresses, is_none, allocate, free_register, get_location,
}
use tiny_compile.Jit.Context.Locations.{IsAllocated, get_location-Located}
use tiny_compile.Jit.Operands.{load_location_to_reg, store_reg_to_location}
use tiny_compile.Jit.Calls.{
  push_stack_args, push_location, push_reg_args, pop_args, adjust_rsp, needs_alignment,
  cleanup_size, stack_args, pad_stack, unpad_stack, encode_arguments, encode_call,
}

-- the prefix of an instruction on one of the registers r8 to r15
abbrev pub prefix : X86Reg → List ℕ
prefix reg = if leb 8 reg then 0x41 ∷ [] else []

-- Code that has been emitted from one cursor to another, instruction by instruction, and the number of
-- bytes by which rsp is lowered before it and after it. The bytes of the instructions that move rsp are
-- those of the processor's manual; loads go to rax, and stores go to another place than rsp.
pub data Emits : Cursor → ℕ → Cursor → ℕ → Type 0 where
  nothing : {c : Cursor} {d : ℕ} → Emits c d c d
  then :
      {c c' c'' : Cursor} {d d' d'' : ℕ} → Emits c d c' d' → Emits c' d' c'' d'' → Emits c d c'' d''
  push :
      {c : Cursor} {d : ℕ}
      → (reg : X86Reg)
      → Emits c d (emit_bytes ((0x50 + reg % 8) ∷ []) (emit_bytes (prefix reg) c)) (d + 8)
  pop :
      {c : Cursor} {d : ℕ}
      → (reg : X86Reg)
      → Emits c (d + 8) (emit_bytes ((0x58 + reg % 8) ∷ []) (emit_bytes (prefix reg) c)) d
  sub_rsp :
      {c : Cursor} {d : ℕ}
      → (n : ℕ) → n < 2 ^ 31
      → Emits c d (emit_bytes (bytes_u32 n) (emit_bytes (0x48 ∷ 0x81 ∷ 0xec ∷ []) c)) (d + n)
  add_rsp :
      {c : Cursor} {d : ℕ}
      → (n : ℕ) → n < 2 ^ 31
      → Emits c (d + n) (emit_bytes (bytes_u32 n) (emit_bytes (0x48 ∷ 0x81 ∷ 0xc4 ∷ []) c)) d
  load : {c : Cursor} {d : ℕ} → (loc : Location) → Emits c d (load_location_to_reg reg_rax loc c) d
  store :
      {c : Cursor} {d : ℕ}
      → (loc : Location) → loc ≢ loc_reg 4
      → Emits c d (store_reg_to_location loc reg_rax c) d
  address :
      {c : Cursor} {d : ℕ} → (n : ℕ) → Emits c d (emit_u64 n (emit_bytes (0x48 ∷ 0xb8 ∷ []) c)) d

emit_push-Emits : (reg : X86Reg) (c : Cursor) (d : ℕ) → Emits c d (emit_push reg c) (d + 8)
unfolding emit_push
emit_push-Emits reg c d = Emits.push reg

emit_pop-Emits : (reg : X86Reg) (c : Cursor) (d : ℕ) → Emits c (d + 8) (emit_pop reg c) d
unfolding emit_pop
emit_pop-Emits reg c d = Emits.pop reg

push_stack_args-Emits :
    (vregs : List ℕ) (a : Allocation) (c : Cursor) (d : ℕ)
    → Emits c d (push_stack_args vregs a c).1 (d + 8 * length vregs)
unfolding push_stack_args
push_stack_args-Emits [] a c d = subst (λ n. Emits c d c n) (omega arith) Emits.nothing
push_stack_args-Emits (vreg ∷ vregs) a c d =
    let (loc, a₁) = get_location a vreg in
    let loaded = load_location_to_reg reg_rax loc c in
    let next = emit_push reg_rax loaded in
    subst (λ n. Emits c d (push_stack_args vregs a₁ next).1 n) (omega arith)
      (Emits.then (Emits.load loc) (
        Emits.then (emit_push-Emits reg_rax loaded d)
          (push_stack_args-Emits vregs a₁ next (d + 8))))

push_location-Emits :
    (loc : Location) (c : Cursor) (d : ℕ) → Emits c d (push_location loc c) (d + 8)
push_location-Emits (loc_reg reg) c d = emit_push-Emits reg c d
push_location-Emits loc c d =
    Emits.then (Emits.load loc) (emit_push-Emits reg_rax (load_location_to_reg reg_rax loc c) d)

push_reg_args-Emits :
    (vregs : List ℕ) (a : Allocation) (c : Cursor) (d : ℕ)
    → Emits c d (push_reg_args vregs a c).1 (d + 8 * length vregs)
unfolding push_reg_args
push_reg_args-Emits [] a c d = subst (λ n. Emits c d c n) (omega arith) Emits.nothing
push_reg_args-Emits (vreg ∷ vregs) a c d =
    let (loc, a₁) = get_location a vreg in
    let next = push_location loc c in
    subst (λ n. Emits c d (push_reg_args vregs a₁ next).1 n) (omega arith)
      (Emits.then (push_location-Emits loc c d) (push_reg_args-Emits vregs a₁ next (d + 8)))

pop_args-Emits :
    (regs : List X86Reg) (c : Cursor) (d : ℕ) → Emits c (d + 8 * length regs) (pop_args regs c) d
unfolding pop_args
pop_args-Emits [] c d = subst (λ n. Emits c n c d) (omega arith) Emits.nothing
pop_args-Emits (reg ∷ regs) c d =
    subst (λ n. Emits c n (pop_args regs (emit_pop reg c)) d) (omega arith)
      (Emits.then (emit_pop-Emits reg c (d + 8 * length regs))
        (pop_args-Emits regs (emit_pop reg c) d))

pad_Emits :
    (b : Bool) (c : Cursor)
    → Emits c 0 (if b then adjust_rsp ext_sub 8 c else c) (if b then 8 else 0)
unfolding adjust_rsp modrm emit_u32
pad_Emits true c = Emits.sub_rsp 8 (omega arith)
pad_Emits false c = Emits.nothing

-- The removal of `n` bytes, where nothing is emitted if there are none.
unpad_Emits :
    (b : Bool) (n : ℕ) (c : Cursor)
    → n < 2 ^ 31
    → (b ≡ false → n ≡ 0)
    → Emits c n (if b then adjust_rsp ext_add n c else c) 0
unfolding adjust_rsp modrm emit_u32
unpad_Emits true n c h none =
    subst (λ m. Emits c m (adjust_rsp ext_add n c) 0) (omega arith) (Emits.add_rsp n h)
unpad_Emits false n c h none = subst (λ m. Emits c m c 0) (sym (none refl)) Emits.nothing

length-reverse_aux : (xs ys : List ℕ) → length (reverse_aux xs ys) ≡ length xs + length ys
length-reverse_aux [] ys = omega arith
length-reverse_aux (x ∷ xs) ys = omega (arith, length-reverse_aux xs (x ∷ ys))

stack_length : (xs : List ℕ) → length (reverse (drop sys_v_max_reg_args xs)) ≡ length xs - 6
stack_length xs =
    omega
      (arith, length-reverse_aux (drop sys_v_max_reg_args xs) [], length-drop sys_v_max_reg_args xs)

-- As many arguments are popped as have been pushed for the registers.
pop_length :
    (xs : List ℕ)
    → length (take (length (take sys_v_max_reg_args xs)) arg_registers)
      ≡ length (reverse (take sys_v_max_reg_args xs))
pop_length xs = omega (
  arith,
  length-take (length (take sys_v_max_reg_args xs)) arg_registers,
  length-take sys_v_max_reg_args xs,
  length-reverse_aux (take sys_v_max_reg_args xs) [],
)

get_location-pending_call :
    (a : Allocation) (v : ℕ) → (get_location a v).1.pending_call ≡ a.pending_call
unfolding get_location allocate
get_location-pending_call a v = elim (Bool-cases (is_none (a.vreg_map v))) [
  | inr q ↦ rw q refl
  | inl q ↦ rw q (elim (Option-cases (free_register a.phys_regs 16 0)) [
    | inl f ↦ rw f refl
    | inr (r, f) ↦ rw f refl
  ])
]

-- The register of a place that is given is not rsp.
not_rsp : (a : Allocation) (v : ℕ) → IsAllocated a → (get_location a v).0 ≢ loc_reg 4
unfolding is_allocatable_register
not_rsp a v k e =
    let at = get_location-Located a v k in true≢false (sym (at.valid.allowed v 4 (at.recorded ∙ e)))

-- Before the address of the callee rsp is lowered by the pad and the arguments on the stack.
encode_arguments-Emits :
    (a : Allocation) (c : Cursor)
    → (before : Cursor) × ((encode_arguments a c).1 ≡ emit_bytes (0x48 ∷ 0xb8 ∷ []) before)
      × Emits c 0 before (cleanup_size a.pending_call)
unfolding encode_arguments
encode_arguments-Emits a c =
    let pending = a.pending_call in
    let padded = pad_stack pending c in
    let stack = reverse (drop sys_v_max_reg_args pending) in
    let (a₁, c₁) = push_stack_args stack a padded in
    let regs = reverse (take sys_v_max_reg_args pending) in
    let c₂ = (push_reg_args regs a₁ c₁).1 in
    let targets = take (length (take sys_v_max_reg_args pending)) arg_registers in
    let n : ℕ = if needs_alignment pending then 8 else 0 in
    let size : n + 8 * length stack ≡ cleanup_size pending = ground (arith, stack_length pending) in
    let pushed : Emits c 0 c₁ (n + 8 * length stack) =
      Emits.then (pad_Emits (needs_alignment pending) c) (push_stack_args-Emits stack a padded n) in
    let popped : Emits c₂ (n + 8 * length stack + 8 * length regs) (pop_args targets c₂)
        (n + 8 * length stack) =
      subst
        (λ m. Emits c₂ (n + 8 * length stack + 8 * m) (pop_args targets c₂) (n + 8 * length stack))
        (pop_length pending) (pop_args-Emits targets c₂ (n + 8 * length stack)) in
    (
      pop_args targets c₂,
      refl,
      subst (λ m. Emits c 0 (pop_args targets c₂) m) size
          (Emits.then pushed
            (Emits.then (push_reg_args-Emits regs a₁ c₁ (n + 8 * length stack)) popped)),
    )

cleanup_aligned : (pending : List ℕ) → cleanup_size pending % 16 ≡ 0
cleanup_aligned pending = ground arith

-- With fewer than 2 ^ 27 pending arguments and a valid allocation, `encode_call` emits code that brings
-- rsp to a multiple of 16 bytes below its first place, then `call rax` (FF D0), then code that brings
-- rsp back to its first place, where the pushes, pops, additions and subtractions on rsp count by their
-- bytes and loads into rax and the store of the result leave rsp as it is. So the callee finds the stack
-- aligned if the caller has it aligned, and what comes off the stack is what the pad and the arguments
-- have put on it.
pub encode_call-Emits :
    (inst : IrInstruction) (a : Allocation) (ad : Addresses) (c : Cursor)
    → IsAllocated a
    → length a.pending_call < 2 ^ 27
    → (before : Cursor) × (lowered : ℕ) × Emits c 0 before lowered
      × (lowered % 16 ≡ 0)
      × Emits (emit_bytes (0xff ∷ 0xd0 ∷ []) before) lowered (encode_call inst a ad c).2 0
unfolding encode_call modrm
encode_call-Emits inst a ad c k few =
    let (dest, a₁) = get_location a inst.dest in
    let pending = a₁.pending_call in
    let same = get_location-pending_call a inst.dest in
    let (bare, result, lowers) = encode_arguments-Emits a₁ c in
    let before = emit_u64 0xdeadbeefdeadbeef (emit_bytes (0x48 ∷ 0xb8 ∷ []) bare) in
    let called = emit_bytes (0xff ∷ 0xd0 ∷ []) before in
    let short : length pending < 2 ^ 27 = rw same few in
    let raised : Emits called (cleanup_size pending) (unpad_stack pending called) 0 =
      unpad_Emits (ltb 0 (stack_args pending) || needs_alignment pending) (cleanup_size pending)
        called (ground arith) (λ q. ground arith) in
    (
      before,
      cleanup_size pending,
      Emits.then lowers (Emits.address 0xdeadbeefdeadbeef),
      cleanup_aligned pending,
      rw result (Emits.then raised (Emits.store dest (not_rsp a inst.dest k))),
    )
