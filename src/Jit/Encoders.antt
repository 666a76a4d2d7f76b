-- ===== src/Jit/Encoders.antt =====
-- The encoders of srcs/jit/encoders.c that only compute: moves, arithmetic, loads, stores and the
-- return. `modrm mode extension reg` is `mode | (extension << 3) | reg`.
use tiny_compile.Prelude.{
  ℕ, ◌+◌, ◌*◌, ◌-◌, ◌%◌, Bool, false, List, [], ◌∷◌, ◌++◌, ◌==◌, if◌then◌else◌,
}
use tiny_compile.Prelude.Int.{ℤ, neg}
use tiny_compile.Ast.Types.{type_size}
use tiny_compile.Ir.{IrInstruction, IrOpcode}
use tiny_compile.Jit.Registers.{
  reg_rax, reg_rcx, reg_rbx, reg_rsp, reg_rbp, reg_r12, reg_r13, reg_r14, reg_r15, rex_w, cc_e,
  cc_ne, cc_l, cc_ge, cc_le, cc_g, alu_imm8, op_cqo, op_idiv, op_grp3, op_lea, op_ret, mod_reg,
  mod_mem_disp8, ext_idiv, ext_neg, ext_not, ext_cmp, callee_saved_size, word_size,
}
use tiny_compile.Jit.Buffer.{Cursor, emit_bytes}
use tiny_compile.Jit.Emit.{
  with_bit, modrm, emit_mov_imm, emit_imul_r64, emit_setcc, emit_movzx, emit_pop, emit_store_sized,
  emit_load_signext,
}
use tiny_compile.Jit.Context.{Location, loc_reg, Allocation, get_location}
use tiny_compile.Jit.Operands.{
  Encoded, load_location_to_reg, store_reg_to_location, right_register, load_binary_operands,
  three_locations, emit_comparison_op,
}

-- Locals are below rbp, the callee-saved registers and a pad of 8 bytes.
unfoldable pub get_local_offset : ℕ → ℤ
get_local_offset idx = neg (callee_saved_size + word_size + (idx + 1) * word_size)

-- `dest.type == LOC_REG && src.type == LOC_REG && dest.reg == src.reg`
abbrev pub same_register : Location → Location → Bool
same_register (loc_reg a) (loc_reg b) = a == b
same_register (loc_reg a) _ = false
same_register _ _ = false

unfoldable pub encode_mov : IrInstruction → Allocation → Cursor → Encoded
encode_mov inst a c =
    let (dest, a₁) = get_location a inst.dest in
    let (src, a₂) = get_location a₁ inst.src_1 in
    (
      a₂,
      if same_register dest src
          then c
          else store_reg_to_location dest reg_rax (load_location_to_reg reg_rax src c),
    )

abbrev pub condition_of : IrOpcode → ℕ
condition_of IrOpcode.eq = cc_e
condition_of IrOpcode.neq = cc_ne
condition_of IrOpcode.lt = cc_l
condition_of IrOpcode.le = cc_le
condition_of IrOpcode.gt = cc_g
condition_of IrOpcode.ge = cc_ge
condition_of _ = cc_e

unfoldable pub encode_cmp : IrInstruction → Allocation → Cursor → Encoded
encode_cmp inst a c = emit_comparison_op (condition_of inst.opcode) inst a c

unfoldable pub encode_const : IrInstruction → Allocation → Cursor → Encoded
encode_const inst a c =
    let (dest, a₁) = get_location a inst.dest in
    (a₁, store_reg_to_location dest reg_rax (emit_mov_imm reg_rax inst.imm c))

unfoldable pub encode_mul : IrInstruction → Allocation → Cursor → Encoded
encode_mul inst a c =
    let (dest, src_1, src_2, a') = three_locations inst a in
    (
      a',
      store_reg_to_location dest reg_rax (
          emit_imul_r64 reg_rax (right_register reg_rcx src_2)
            (load_binary_operands reg_rax reg_rcx src_1 src_2 c)),
    )

-- the load of a divisor that is in no register
abbrev pub load_divisor : Location → Cursor → Cursor
load_divisor (loc_reg reg) c = c
load_divisor loc c = load_location_to_reg reg_rcx loc c

unfoldable pub encode_div : IrInstruction → Allocation → Cursor → Encoded
encode_div inst a c =
    let (dest, src_1, src_2, a') = three_locations inst a in
    let divisor = right_register reg_rcx src_2 in
    (
      a',
      store_reg_to_location dest reg_rax (
          emit_bytes
            (with_bit divisor 0x01 rex_w ∷ op_idiv ∷ modrm mod_reg ext_idiv (divisor % 8) ∷ [])
            (load_divisor src_2
              (emit_bytes (rex_w ∷ op_cqo ∷ []) (load_location_to_reg reg_rax src_1 c)))),
    )

-- the shape of the three unary encoders: load into rax, some bytes, store
abbrev pub unary_op : List ℕ → IrInstruction → Allocation → Cursor → Encoded
unary_op bytes inst a c =
    let (dest, a₁) = get_location a inst.dest in
    let (src, a₂) = get_location a₁ inst.src_1 in
    (a₂, store_reg_to_location dest reg_rax (emit_bytes bytes (load_location_to_reg reg_rax src c)))

unfoldable pub encode_neg : IrInstruction → Allocation → Cursor → Encoded
encode_neg inst a c = unary_op (rex_w ∷ op_idiv ∷ modrm mod_reg ext_neg reg_rax ∷ []) inst a c

unfoldable pub encode_not_bitwise : IrInstruction → Allocation → Cursor → Encoded
encode_not_bitwise inst a c =
    unary_op (rex_w ∷ op_grp3 ∷ modrm mod_reg ext_not reg_rax ∷ []) inst a c

-- cmp rax, 0
abbrev pub cmp_rax_zero : List ℕ
cmp_rax_zero = rex_w ∷ alu_imm8 ∷ modrm mod_reg ext_cmp reg_rax ∷ 0x00 ∷ []

unfoldable pub encode_not : IrInstruction → Allocation → Cursor → Encoded
encode_not inst a c =
    let (dest, a₁) = get_location a inst.dest in
    let (src, a₂) = get_location a₁ inst.src_1 in
    (
      a₂,
      store_reg_to_location dest reg_rax (
          emit_movzx reg_rax reg_rax (
            emit_setcc cc_e reg_rax
              (emit_bytes cmp_rax_zero (load_location_to_reg reg_rax src c)))),
    )

-- `arg_vregs[count++]`; the parser lets a call have no more arguments than the array has places
unfoldable pub encode_arg : IrInstruction → Allocation → Cursor → Encoded
encode_arg inst a c = (record a { pending_call = a.pending_call ++ inst.src_1 ∷ [] }, c)

unfoldable pub encode_ret : IrInstruction → Allocation → Cursor → Encoded
encode_ret inst a c =
    let (src, a₁) = get_location a inst.src_1 in
    (
      a₁,
      emit_bytes (op_ret ∷ []) (
          emit_pop reg_rbp (
            emit_pop reg_rbx (
              emit_pop reg_r12 (
                emit_pop reg_r13 (
                  emit_pop reg_r14 (
                    emit_pop reg_r15 (
                      emit_bytes
                        (rex_w
                          ∷ op_lea
                          ∷ modrm mod_mem_disp8 reg_rsp reg_rbp
                          ∷ (256 - callee_saved_size)
                          ∷ [])
                        (load_location_to_reg reg_rax src c)))))))),
    )

abbrev pub store_source : Location → ℤ → ℕ → Cursor → Cursor
store_source (loc_reg reg) offset size c = emit_store_sized reg reg_rbp offset size c
store_source loc offset size c =
    emit_store_sized reg_rax reg_rbp offset size (load_location_to_reg reg_rax loc c)

unfoldable pub encode_store : IrInstruction → Allocation → Cursor → Encoded
encode_store inst a c =
    let (src, a₁) = get_location a inst.src_1 in
    (a₁, store_source src (get_local_offset inst.dest) (type_size inst.type) c)

abbrev pub load_target : Location → ℤ → ℕ → Cursor → Cursor
load_target (loc_reg reg) offset size c = emit_load_signext reg reg_rbp offset size c
load_target loc offset size c =
    store_reg_to_location loc reg_rax (emit_load_signext reg_rax reg_rbp offset size c)

unfoldable pub encode_load : IrInstruction → Allocation → Cursor → Encoded
encode_load inst a c =
    let (dest, a₁) = get_location a inst.dest in
    (a₁, load_target dest (get_local_offset inst.src_1) (type_size inst.type) c)
