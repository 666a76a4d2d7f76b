-- ===== src/Jit/Function.antt =====
-- srcs/jit/jit.c: the prologue, the frame, the two passes over a function, and `jit_ctx_init`.
pub mod Frame
pub mod Passes
pub mod Compile
use tiny_compile.Prelude.{
  ℕ, zero, suc, ◌+◌, ◌-◌, ◌*◌, ◌%◌, ◌^◌, Bool, false, not, Option, none, some, List, [], ◌∷◌, ◌++◌,
  ltb, leb, ◌==◌, if◌then◌else◌, length, get_or, Run, ok, stop, aborted, ◌>>=◌,
}
use tiny_compile.Prelude.Int.{pos}
use tiny_compile.Ast.{FunctionHeader}
use tiny_compile.Ir.{IrInstruction, IrFunction}
use tiny_compile.Ir.Chunks.{code}
use tiny_compile.Jit.Registers.{
  X86Reg, reg_rax, reg_rbx, reg_rsp, reg_rbp, reg_r12, reg_r13, reg_r14, reg_r15, rex_w, alu_imm,
  mod_reg, ext_sub, word_size, stack_alignment, callee_saved_count, arg_registers, max_labels,
  max_function_count,
}
use tiny_compile.Jit.Buffer.{Cursor, emit_bytes, emit_u32}
use tiny_compile.Jit.Emit.{modrm, emit_push, emit_mov_reg_reg, emit_store_local, emit_load_param}
use tiny_compile.Jit.Context.{
  Location, loc_none, loc_reg, loc_stack, loc_const, CompiledFunction, Allocation, Addresses,
  JitContext, get_location,
}
use tiny_compile.Jit.Operands.{Encoded}
use tiny_compile.Jit.Dispatch.{Encoding, encode_inst, cursor_at, encoding}

-- the first steps of `encode_prologue`, which save the registers of the caller
abbrev pub save_registers : Cursor → Cursor
save_registers c = emit_push reg_r15 (
    emit_push reg_r14 (
      emit_push reg_r13 (
        emit_push reg_r12
          (emit_push reg_rbx (emit_mov_reg_reg reg_rbp reg_rsp (emit_push reg_rbp c))))))

abbrev pub allocate_stack : ℕ → Cursor → Cursor
allocate_stack stack_size c =
    if ltb 0 stack_size
    then emit_u32 (stack_size % 2 ^ 32)
        (emit_bytes (rex_w ∷ alu_imm ∷ modrm mod_reg ext_sub reg_rsp ∷ []) c)
    else c

-- a parameter that comes in a register
abbrev pub move_param : X86Reg → Location → Cursor → Cursor
move_param src (loc_reg reg) c = if reg == src then c else emit_mov_reg_reg reg src c
move_param src (loc_stack offset) c = emit_store_local src offset c
move_param src loc_none c = c
move_param src (loc_const imm) c = c

-- a parameter that the caller has pushed; `get_location` gives no other form
abbrev pub load_stack_param : ℕ → Location → Cursor → Cursor
load_stack_param offset (loc_reg reg) c = emit_load_param reg (pos offset) c
load_stack_param offset (loc_stack own) c =
    emit_store_local reg_rax own (emit_load_param reg_rax (pos offset) c)
load_stack_param offset loc_none c = emit_load_param reg_rax (pos offset) c
load_stack_param offset (loc_const imm) c = emit_load_param reg_rax (pos offset) c

abbrev pub place_param : ℕ → Location → Cursor → Cursor
place_param i loc c =
    if ltb i 6
    then move_param (get_or arg_registers i 0) loc c
    else load_stack_param (2 * word_size + (i - 6) * word_size) loc c

-- the loop over the parameters, with `n` of them left
unfoldable pub place_params : ℕ → ℕ → Allocation → Cursor → Encoded
place_params zero i a c = (a, c)
place_params (suc n) i a c =
    let (loc, a₁) = get_location a (i + 1) in place_params n (i + 1) a₁ (place_param i loc c)

unfoldable pub encode_prologue : ℕ → ℕ → Allocation → Cursor → Encoded
unfolding place_params
encode_prologue stack_size param_count a c =
    place_params param_count 0 a (allocate_stack stack_size (save_registers c))

-- `memset` of the map and of the registers
abbrev pub reset_alloc : ℕ → Allocation
reset_alloc stack_base = record {
  vreg_map = λ v. loc_none;
  phys_regs = λ r. false;
  stack_base = stack_base;
  pending_call = [];
}

abbrev pub reset_addresses : Addresses → Addresses
reset_addresses ad = record ad { label_offset = λ l. 0; label_defined = λ l. false; patches = [] }

unfoldable pub reset_state : JitContext → JitContext
reset_state ctx = record ctx {
  alloc = reset_alloc ctx.alloc.stack_base;
  addresses = reset_addresses ctx.addresses;
}

-- `memory` is what the code arena holds.
unfoldable pub jit_ctx_init : (ℕ → ℕ) → JitContext
jit_ctx_init memory = record {
  alloc = reset_alloc 0;
  addresses = record {
    label_offset = λ l. 0;
    label_defined = λ l. false;
    patches = [];
    call_sites = [];
    memory = memory;
  };
  registry = [];
}

unfoldable pub calculate_aligned_stack_size : IrFunction → ℕ
calculate_aligned_stack_size f =
    let raw_locals_size = (f.stack_count + f.vreg_count) * word_size in
    let bytes_pushed = word_size * 2 + callee_saved_count * word_size in
    let remainder = (bytes_pushed + raw_locals_size) % stack_alignment in
    raw_locals_size + (if remainder == 0 then 0 else stack_alignment - remainder)

-- the prologue at a write pointer
abbrev pub prologue_at : Option ℕ → ℕ → ℕ → Allocation → Addresses → Encoding
prologue_at buf stack_bytes param_count a ad =
    let (a₁, c) = encode_prologue stack_bytes param_count a (cursor_at buf ad) in
    encoding (a₁, ad, c)

-- a step that starts with `size` bytes already counted
abbrev pub advance : ℕ → Encoding → Encoding
advance size e = record e { size = size + e.size }

-- pass 1 from a size on: the sum of the sizes, and what is left in the context
unfoldable pub measure : List IrInstruction → Encoding → Encoding
unfolding encode_inst
measure [] e = e
measure (inst ∷ insts) e =
    measure insts (advance e.size (encode_inst none inst e.alloc e.addresses))

-- pass 2: `size` is how far the write pointer is behind `base`
unfoldable pub emit_all : ℕ → ℕ → List IrInstruction → Encoding → Run Encoding
unfolding encode_inst
emit_all base predicted [] e = ok e
emit_all base predicted (inst ∷ insts) e =
    let e₁ = advance e.size (encode_inst (some (base + e.size)) inst e.alloc e.addresses) in
    let rest = emit_all base predicted insts e₁ in
    if ltb predicted e₁.size then stop aborted else rest

-- `JITResult`; a null code pointer is `none`
pub record JitResult : Type 0 where
  pub code : Option ℕ
  pub size : ℕ

abbrev pub no_result : JitResult
no_result = record { code = none; size = 0 }

abbrev pub register_function : FunctionHeader → ℕ → ℕ → JitContext → JitResult × JitContext
register_function func base size ctx =
    if leb max_function_count (length ctx.registry) then (no_result, ctx) else (
      record { code = some base; size = size },
      record ctx {
        registry =
            ctx.registry ++ record { name = func.name; code_addr = base; code_size = size } ∷ [];
      },
    )

-- the check after pass 2, and what follows it
abbrev pub finish_function :
    FunctionHeader → ℕ → ℕ → JitContext → Encoding → Run (JitResult × JitContext)
finish_function func base predicted ctx e =
    if e.size == predicted
    then ok (
        register_function func base e.size
          (record ctx { alloc = e.alloc; addresses = e.addresses }))
    else stop aborted

-- the state of the context in which each of the passes starts
abbrev pub pass_alloc : IrFunction → Allocation
pass_alloc f = reset_alloc f.stack_count

-- the result of pass 1
abbrev pub pass_1 : FunctionHeader → IrFunction → Addresses → Encoding
pass_1 func f ad = measure (code f) (
    prologue_at none (calculate_aligned_stack_size f) (length func.params) (pass_alloc f)
      (reset_addresses ad))

abbrev pub pass_2 : ℕ → ℕ → FunctionHeader → IrFunction → Addresses → Run Encoding
pass_2 base predicted func f ad = emit_all base predicted (code f) (
    prologue_at (some base) (calculate_aligned_stack_size f) (length func.params) (pass_alloc f)
      (reset_addresses ad))

-- `arena_at` gives the address of an aligned block of the code arena, by its size; the allocation
-- is taken to succeed. The failed assertion is an abort.
unfoldable pub jit_compile_function :
    (ℕ → ℕ) → JitContext → IrFunction → FunctionHeader → Run (JitResult × JitContext)
unfolding measure emit_all encode_prologue calculate_aligned_stack_size
jit_compile_function arena_at ctx f func =
    let measured = pass_1 func f ctx.addresses in
    let base = arena_at measured.size in
    let compiled =
      pass_2 base measured.size func f measured.addresses
      >>= finish_function func base measured.size ctx in
    if leb max_labels f.label_count
    then ok (no_result, reset_state ctx)
    else if length (code f) == f.total_count
    then compiled
    else stop aborted
