-- ===== src/Jit/Calls.antt =====
-- The encoders of srcs/jit/encoders.c that use addresses: jumps, branches, labels and calls.
pub mod Alignment
pub mod Jumps
use mathlib.Core.List.{reverse}
use tiny_compile.Prelude.{
  ℕ, zero, suc, ◌+◌, ◌*◌, ◌-◌, ◌/◌, ◌%◌, ◌^◌, Bool, true, false, not, ◌&&◌, ◌||◌, Option, none,
  some, List, [], ◌∷◌, ◌++◌, ◌==◌, ltb, leb, if◌then◌else◌, bit_or, update, length, take, drop,
}
use tiny_compile.Ir.{IrInstruction, IrOpcode}
use tiny_compile.Jit.Registers.{
  X86Reg, reg_rax, reg_rsp, rex_w, cc_e, cc_ne, alu_imm, mov_imm_r, op_jmp_rel32, op_prefix_0f,
  op_call_ind, mod_reg, ext_sub, ext_add, ext_call, stack_alignment, sys_v_max_reg_args,
  arg_registers, max_labels, max_call_sites,
}
use tiny_compile.Jit.Buffer.{Cursor, emit_bytes, emit_u32, emit_u64, write_bytes, bytes_u32}
use tiny_compile.Jit.Emit.{modrm, emit_test, emit_push, emit_pop}
use tiny_compile.Jit.Context.{
  Location, loc_none, loc_reg, loc_stack, loc_const, Patch, CallSite, Allocation, Addresses,
  get_location,
}
use tiny_compile.Jit.Operands.{Encoded, load_location_to_reg, store_reg_to_location}
use tiny_compile.Jit.Encoders.{cmp_rax_zero}

-- the difference of two pointers, as the `int32_t` that is stored
unfoldable pub relative : ℕ → ℕ → ℕ
relative target next = (target + 2 ^ 64 - next) % 2 ^ 32

-- `patch_jump_offset`
unfoldable pub patch_jump_offset : ℕ → ℕ → (ℕ → ℕ) → ℕ → ℕ
unfolding relative
patch_jump_offset loc target mem = write_bytes loc (bytes_u32 (relative target (loc + 4))) mem

abbrev pub jump_opcode : ℕ → List ℕ
jump_opcode opcode =
    if opcode == op_jmp_rel32 then op_jmp_rel32 ∷ [] else op_prefix_0f ∷ opcode ∷ []

abbrev pub is_defined : Addresses → ℕ → Bool
is_defined ad label_id = ltb label_id max_labels && ad.label_defined label_id

-- the rest of `emit_jump` behind the opcode, by the write pointer: without a buffer only the size,
-- else the offset of a label that is known, or a placeholder and a patch
abbrev pub emit_target : ℕ → Option ℕ → Addresses → Cursor → Addresses × Cursor
emit_target label_id none ad c = (ad, record c { size = c.size + 4 })
emit_target label_id (some p) ad c =
    if is_defined ad label_id
    then (ad, emit_u32 (relative (ad.label_offset label_id) (p + 4)) c)
    else (
      record ad { patches = record { label_id = label_id; loc = p } ∷ ad.patches },
      emit_u32 0 c,
    )

unfoldable pub emit_jump : ℕ → ℕ → Addresses → Cursor → Addresses × Cursor
unfolding relative
emit_jump label_id opcode ad c =
    let c₁ = emit_bytes (jump_opcode opcode) c in emit_target label_id c₁.buf ad c₁

unfoldable pub encode_jmp : IrInstruction → Addresses → Cursor → Addresses × Cursor
encode_jmp inst ad c = emit_jump inst.label_id op_jmp_rel32 ad c

-- the test of a condition that `emit_jz_jnz` emits
abbrev pub test_location : Location → Cursor → Cursor
test_location (loc_reg reg) c = emit_test reg reg c
test_location loc c = emit_bytes cmp_rax_zero (load_location_to_reg reg_rax loc c)

abbrev pub branch_opcode : IrOpcode → ℕ
branch_opcode IrOpcode.jz = bit_or 0x80 cc_e
branch_opcode _ = bit_or 0x80 cc_ne

unfoldable pub encode_branch :
    IrInstruction → Allocation → Addresses → Cursor → Allocation × Addresses × Cursor
encode_branch inst a ad c =
    let (src, a₁) = get_location a inst.src_1 in
    let (ad₁, c₁) = emit_jump inst.label_id (branch_opcode inst.opcode) ad (test_location src c) in
    (a₁, ad₁, c₁)

-- The walk along the patches: those of the label are applied and unlinked.
unfoldable pub resolve : ℕ → ℕ → List Patch → (ℕ → ℕ) → List Patch × (ℕ → ℕ)
resolve id target [] mem = ([], mem)
resolve id target (p ∷ ps) mem =
    let here = resolve id target ps (patch_jump_offset p.loc target mem) in
    let (kept, mem') = resolve id target ps mem in
    if p.label_id == id then here else (p ∷ kept, mem')

-- The label stands at the write pointer; nothing is emitted.
abbrev pub define_label : ℕ → Option ℕ → Addresses → Cursor → Addresses × Cursor
define_label id none ad c = (ad, c)
define_label id (some p) ad c =
    let (patches, mem) = resolve id p ad.patches c.mem in
    (
      record ad {
        label_defined = update ad.label_defined id true;
        label_offset = update ad.label_offset id p;
        patches = patches;
      },
      record c { mem = mem },
    )

unfoldable pub encode_label : IrInstruction → Addresses → Cursor → Addresses × Cursor
encode_label inst ad c =
    if leb max_labels inst.label_id then (ad, c) else define_label inst.label_id c.buf ad c

-- the loop over the arguments on the stack, in the order in which they are pushed
unfoldable pub push_stack_args : List ℕ → Allocation → Cursor → Encoded
push_stack_args [] a c = (a, c)
push_stack_args (vreg ∷ vregs) a c =
    let (loc, a₁) = get_location a vreg in
    push_stack_args vregs a₁ (emit_push reg_rax (load_location_to_reg reg_rax loc c))

abbrev pub push_location : Location → Cursor → Cursor
push_location (loc_reg reg) c = emit_push reg c
push_location loc c = emit_push reg_rax (load_location_to_reg reg_rax loc c)

unfoldable pub push_reg_args : List ℕ → Allocation → Cursor → Encoded
push_reg_args [] a c = (a, c)
push_reg_args (vreg ∷ vregs) a c =
    let (loc, a₁) = get_location a vreg in push_reg_args vregs a₁ (push_location loc c)

unfoldable pub pop_args : List X86Reg → Cursor → Cursor
pop_args [] c = c
pop_args (reg ∷ regs) c = pop_args regs (emit_pop reg c)

-- `sub rsp, n` and `add rsp, n`, by the extension
unfoldable pub adjust_rsp : ℕ → ℕ → Cursor → Cursor
adjust_rsp extension n c =
    emit_u32 n (emit_bytes (rex_w ∷ alu_imm ∷ modrm mod_reg extension reg_rsp ∷ []) c)

-- how many arguments go to the stack, and whether a pad of 8 bytes is needed under them
abbrev pub stack_args : List ℕ → ℕ
stack_args pending = length pending - sys_v_max_reg_args

abbrev pub needs_alignment : List ℕ → Bool
needs_alignment pending = not (stack_args pending % 2 == 0)

abbrev pub cleanup_size : List ℕ → ℕ
cleanup_size pending =
    stack_args pending * (stack_alignment / 2)
    + (if needs_alignment pending then stack_alignment / 2 else 0)

-- A site beyond the capacity of the list is left out, without a diagnostic.
abbrev pub record_site : Option ℕ → IrInstruction → Addresses → Addresses
record_site none inst ad = ad
record_site (some p) inst ad =
    if ltb (length ad.call_sites) max_call_sites
    then record ad {
      call_sites =
          ad.call_sites ++ record { patch_location = p; target_name = inst.func_name } ∷ [];
    }
    else ad

abbrev pub pad_stack : List ℕ → Cursor → Cursor
pad_stack pending c =
    if needs_alignment pending then adjust_rsp ext_sub (stack_alignment / 2) c else c

abbrev pub unpad_stack : List ℕ → Cursor → Cursor
unpad_stack pending c =
    if ltb 0 (stack_args pending) || needs_alignment pending
    then adjust_rsp ext_add (cleanup_size pending) c
    else c

-- everything before the address of the callee: pad, arguments, and `mov rax, imm64`
unfoldable pub encode_arguments : Allocation → Cursor → Encoded
unfolding pop_args
encode_arguments a c =
    let pending = a.pending_call in
    let (a₁, c₁) =
      push_stack_args (reverse (drop sys_v_max_reg_args pending)) a (pad_stack pending c) in
    let (a₂, c₂) = push_reg_args (reverse (take sys_v_max_reg_args pending)) a₁ c₁ in
    (
      a₂,
      emit_bytes (rex_w ∷ (mov_imm_r + reg_rax) ∷ [])
          (pop_args (take (length (take sys_v_max_reg_args pending)) arg_registers) c₂),
    )

unfoldable pub encode_call :
    IrInstruction → Allocation → Addresses → Cursor → Allocation × Addresses × Cursor
unfolding adjust_rsp
encode_call inst a ad c =
    let (dest, a₁) = get_location a inst.dest in
    let pending = a₁.pending_call in
    let (a₂, c₁) = encode_arguments a₁ c in
    (
      record a₂ { pending_call = [] },
      record_site c₁.buf inst ad,
      store_reg_to_location dest reg_rax (
          unpad_stack pending (
            emit_bytes (op_call_ind ∷ modrm mod_reg ext_call reg_rax ∷ [])
              (emit_u64 0xdeadbeefdeadbeef c₁))),
    )
