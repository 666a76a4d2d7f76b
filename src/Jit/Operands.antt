-- ===== src/Jit/Operands.antt =====
-- srcs/jit/helpers.c: moves between registers and locations, and the shapes that several encoders
-- share. (The warnings on `LOC_NONE`, which `get_location` never gives, are not modelled.)
use tiny_compile.Prelude.{ℕ, [], ◌∷◌, ◌==◌, if◌then◌else◌}
use tiny_compile.Ir.{IrInstruction}
use tiny_compile.Jit.Registers.{X86Reg, reg_rax, reg_rcx, reg_rdx, rex_w, op_shift_cl, mod_reg}
use tiny_compile.Jit.Buffer.{Cursor, emit_bytes}
use tiny_compile.Jit.Emit.{
  modrm, emit_mov_reg_reg, emit_load_param, emit_store_local, emit_mov_imm, emit_alu, emit_cmp,
  emit_setcc, emit_movzx,
}
use tiny_compile.Jit.Context.{
  Location, loc_none, loc_reg, loc_stack, loc_const, Allocation, get_location,
}

-- the moved allocation and the moved cursor
abbrev pub Encoded : Type 0
Encoded = Allocation × Cursor

unfoldable pub load_location_to_reg : X86Reg → Location → Cursor → Cursor
load_location_to_reg dst (loc_reg reg) c = if reg == dst then c else emit_mov_reg_reg dst reg c
load_location_to_reg dst (loc_stack offset) c = emit_load_param dst offset c
load_location_to_reg dst (loc_const imm) c = emit_mov_imm dst imm c
load_location_to_reg dst loc_none c = c

unfoldable pub store_reg_to_location : Location → X86Reg → Cursor → Cursor
store_reg_to_location (loc_reg reg) src c = if reg == src then c else emit_mov_reg_reg reg src c
store_reg_to_location (loc_stack offset) src c = emit_store_local src offset c
store_reg_to_location (loc_const imm) src c = c
store_reg_to_location loc_none src c = c

-- `*out_right_reg` of `load_binary_operands`
unfoldable pub right_register : X86Reg → Location → X86Reg
right_register tmp (loc_reg reg) = reg
right_register tmp loc = tmp

unfoldable pub load_right : X86Reg → Location → Cursor → Cursor
load_right tmp (loc_reg reg) c = c
load_right tmp loc c = load_location_to_reg tmp loc c

unfoldable pub load_binary_operands : X86Reg → X86Reg → Location → Location → Cursor → Cursor
unfolding load_right
load_binary_operands dst tmp left right c = load_right tmp right (load_location_to_reg dst left c)

-- the locations of an instruction's three registers, in the order in which they are asked for
abbrev pub three_locations :
    IrInstruction → Allocation → Location × Location × Location × Allocation
three_locations inst a =
    let (dest, a₁) = get_location a inst.dest in
    let (src_1, a₂) = get_location a₁ inst.src_1 in
    let (src_2, a₃) = get_location a₂ inst.src_2 in (dest, src_1, src_2, a₃)

unfoldable pub emit_standard_binary_op : ℕ → IrInstruction → Allocation → Cursor → Encoded
emit_standard_binary_op opcode inst a c =
    let (dest, src_1, src_2, a') = three_locations inst a in
    (
      a',
      store_reg_to_location dest reg_rax (
          emit_alu opcode reg_rax (right_register reg_rdx src_2)
            (load_binary_operands reg_rax reg_rdx src_1 src_2 c)),
    )

unfoldable pub emit_comparison_op : ℕ → IrInstruction → Allocation → Cursor → Encoded
emit_comparison_op condition inst a c =
    let (dest, src_1, src_2, a') = three_locations inst a in
    (
      a',
      store_reg_to_location dest reg_rax (
          emit_movzx reg_rax reg_rax (
            emit_setcc condition reg_rax (
              emit_cmp reg_rax (right_register reg_rcx src_2)
                (load_binary_operands reg_rax reg_rcx src_1 src_2 c)))),
    )

unfoldable pub emit_shift_op : ℕ → IrInstruction → Allocation → Cursor → Encoded
emit_shift_op extension inst a c =
    let (dest, src_1, src_2, a') = three_locations inst a in
    (
      a',
      store_reg_to_location dest reg_rax (
          emit_bytes (rex_w ∷ op_shift_cl ∷ modrm mod_reg extension reg_rax ∷ [])
            (load_location_to_reg reg_rcx src_2 (load_location_to_reg reg_rax src_1 c))),
    )
