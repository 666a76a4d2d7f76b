-- ===== src/IrGen/Expressions.antt =====
-- The expression half of srcs/ir/ir_gen.c. A generator returns the register of the result, 0 for a
-- failure, and the function with what it appended. `atoll` of the C library is a parameter; memory
-- for the copy that it reads, and for the chunks, is taken to be there.
use tiny_compile.Prelude.{
  ℕ, zero, suc, ◌+◌, Option, none, some, Bool, true, false, List, [], ◌∷◌, if◌then◌else◌,
}
use tiny_compile.StringView.{StringView}
use tiny_compile.ErrorHandler.{ErrorCategory, ErrorLevel, error_add}
use tiny_compile.Ast.Types.{DataType, type_is_unsigned}
use tiny_compile.Ast.{
  BinaryOp, UnaryOp, NodeInfo, Node, null, number, identifier, binary, unary, if_stmt, while_stmt,
  return_stmt, var_decl, assignment, block, function, translation_unit, call, Nodes, nil, cons,
  value_type,
}
use tiny_compile.Ir.{IrOpcode, IrInstruction, instruction, IrFunction, emit, ir_alloc_vreg}
use tiny_compile.SymbolTable.{SymbolTable, symbol_table_lookup}
use Prim.Native.String.{String}

-- a register of the result, 0 for a failure, and the function
abbrev pub Generated : Type 0
Generated = ℕ × IrFunction

-- `if (!ir_alloc_vreg(f, &reg)) return (0);`
abbrev pub with_vreg : Option ℕ × IrFunction → (ℕ → IrFunction → Generated) → Generated
with_vreg (none, f) k = (0, f)
with_vreg (some reg, f) k = k reg f

-- `if (reg == 0) return (0);`
abbrev pub unless_zero : Generated → (ℕ → IrFunction → Generated) → Generated
unless_zero (zero, f) k = (0, f)
unless_zero (suc reg, f) k = k (suc reg) f

abbrev pub codegen_error : NodeInfo → String → IrFunction → IrFunction
codegen_error i message f = record f {
  errors =
      error_add ErrorCategory.codegen ErrorLevel.error f.filename i.line i.column message f.errors;
}

abbrev pub binary_opcode : BinaryOp → DataType → IrOpcode
binary_opcode BinaryOp.add _ = IrOpcode.add
binary_opcode BinaryOp.sub _ = IrOpcode.sub
binary_opcode BinaryOp.mul _ = IrOpcode.mul
binary_opcode BinaryOp.div _ = IrOpcode.div
binary_opcode BinaryOp.equal _ = IrOpcode.eq
binary_opcode BinaryOp.not_equal _ = IrOpcode.neq
binary_opcode BinaryOp.less _ = IrOpcode.lt
binary_opcode BinaryOp.less_equal _ = IrOpcode.le
binary_opcode BinaryOp.greater _ = IrOpcode.gt
binary_opcode BinaryOp.greater_equal _ = IrOpcode.ge
binary_opcode BinaryOp.lshift _ = IrOpcode.lshift
binary_opcode BinaryOp.rshift left_type =
    if type_is_unsigned left_type then IrOpcode.urshift else IrOpcode.rshift
binary_opcode BinaryOp.bit_and _ = IrOpcode.band
binary_opcode BinaryOp.bit_or _ = IrOpcode.bor
binary_opcode BinaryOp.bit_xor _ = IrOpcode.bxor

abbrev pub unary_opcode : UnaryOp → IrOpcode
unary_opcode UnaryOp.negate = IrOpcode.neg
unary_opcode UnaryOp.not = IrOpcode.not
unary_opcode UnaryOp.bit_not = IrOpcode.bnot

-- the instructions that the generators emit, by the fields that their initialisers name
abbrev pub arg_instruction : DataType → ℕ → ℕ → IrInstruction
arg_instruction type reg i = record (instruction IrOpcode.arg type) { src_1 = reg; imm = i }

abbrev pub call_instruction : DataType → ℕ → StringView → IrInstruction
call_instruction type reg name = record (instruction IrOpcode.call type) {
  dest = reg;
  func_name = name;
}

abbrev pub const_instruction : DataType → ℕ → ℕ → IrInstruction
const_instruction type reg val = record (instruction IrOpcode.const type) { dest = reg; imm = val }

abbrev pub load_instruction : DataType → ℕ → ℕ → IrInstruction
load_instruction type reg slot = record (instruction IrOpcode.load type) {
  dest = reg;
  src_1 = slot;
}

abbrev pub unary_instruction : IrOpcode → DataType → ℕ → ℕ → IrInstruction
unary_instruction op type dest operand = record (instruction op type) {
  dest = dest;
  src_1 = operand;
}

abbrev pub binary_instruction : IrOpcode → DataType → ℕ → ℕ → ℕ → IrInstruction
binary_instruction op type dest left right = record (instruction op type) {
  dest = dest;
  src_1 = left;
  src_2 = right;
}

-- the second loop of `gen_call`, from the argument `i` on
unfoldable pub emit_args : Nodes → List ℕ → ℕ → IrFunction → IrFunction
emit_args (cons x xs) (reg ∷ regs) i f =
    emit_args xs regs (i + 1) (emit (arg_instruction (value_type x) reg i) f)
emit_args _ _ i f = f

abbrev pub add_arg : ℕ → Option (List ℕ) × IrFunction → Option (List ℕ) × IrFunction
add_arg reg (none, f) = (none, f)
add_arg reg (some regs, f) = (some (reg ∷ regs), f)

-- `none` is the early return of `gen_call` from its first loop.
abbrev pub next_args :
    Generated → (IrFunction → Option (List ℕ) × IrFunction) → Option (List ℕ) × IrFunction
next_args (zero, f) k = (none, f)
next_args (suc reg, f) k = add_arg (suc reg) (k f)

-- `gen_call` after its first loop
abbrev pub finish_call : NodeInfo → StringView → Nodes → Option (List ℕ) × IrFunction → Generated
finish_call i name args (none, f) = (0, f)
finish_call i name args (some regs, f) =
    with_vreg (ir_alloc_vreg (emit_args args regs 0 f))
      λ result f'. (result, emit (call_instruction i.value_type result name) f')

module _ (atoll : StringView → ℕ) where
  -- the copy and the reset of the arena leave the value of `atoll`
  abbrev pub sv_to_int64 : StringView → ℕ
  sv_to_int64 sv = atoll sv

  unfoldable pub gen_number : NodeInfo → StringView → IrFunction → Generated
  gen_number i text f =
      with_vreg (ir_alloc_vreg f)
        λ reg f'. (reg, emit (const_instruction i.value_type reg (sv_to_int64 text)) f')

-- `if (sym->is_stack)`, with the flag and the index of the entry
abbrev pub read_symbol : NodeInfo → Bool → ℕ → IrFunction → Generated
read_symbol i true index f =
    with_vreg (ir_alloc_vreg f)
      λ temp f'. (temp, emit (load_instruction i.value_type temp index) f')
read_symbol i false index f = (index, f)

-- `gen_identifier` after its lookup
abbrev pub finish_identifier : SymbolTable → NodeInfo → IrFunction → Option ℕ → Generated
finish_identifier st i f none = (0, codegen_error i "undefined variable '%.*s'" f)
finish_identifier st i f (some sym) =
    read_symbol i (st.entries sym).is_stack (st.entries sym).index f

unfoldable pub gen_identifier : SymbolTable → NodeInfo → StringView → IrFunction → Generated
gen_identifier st i name f = finish_identifier st i f (symbol_table_lookup st name)

module _ (atoll : StringView → ℕ) (st : SymbolTable) where
  unfoldable mutual
    pub gen_expression : Node → IrFunction → Generated
    gen_expression null f = (0, f)
    gen_expression (number i text) f = gen_number atoll i text f
    gen_expression (identifier i name) f = gen_identifier st i name f
    gen_expression (call i name args) f = finish_call i name args (gen_args args f)
    gen_expression (unary op i operand) f = unless_zero (gen_expression operand f) λ reg f₁.
        with_vreg (ir_alloc_vreg f₁)
          λ dest f₂. (dest, emit (unary_instruction (unary_opcode op) i.value_type dest reg) f₂)
    gen_expression (binary op i l r) f = unless_zero (gen_expression l f) λ left f₁.
        unless_zero (gen_expression r f₁) λ right f₂. with_vreg (ir_alloc_vreg f₂) λ dest f₃. (
          dest,
          emit (binary_instruction (binary_opcode op (value_type l)) i.value_type dest left right)
              f₃,
        )
    gen_expression (var_decl i _ _ _) f =
        (0, codegen_error i "statement node in expression context" f)
    gen_expression (assignment i _ _) f =
        (0, codegen_error i "statement node in expression context" f)
    gen_expression (return_stmt i _) f =
        (0, codegen_error i "statement node in expression context" f)
    gen_expression (if_stmt i _ _ _) f =
        (0, codegen_error i "statement node in expression context" f)
    gen_expression (while_stmt i _ _) f =
        (0, codegen_error i "statement node in expression context" f)
    gen_expression (block i _) f = (0, codegen_error i "statement node in expression context" f)
    gen_expression (function i _ _) f =
        (0, codegen_error i "statement node in expression context" f)
    gen_expression (translation_unit i _) f =
        (0, codegen_error i "statement node in expression context" f)

    -- the first loop of `gen_call`
    pub gen_args : Nodes → IrFunction → Option (List ℕ) × IrFunction
    gen_args nil f = (some [], f)
    gen_args (cons x xs) f = next_args (gen_expression x f) (gen_args xs)
