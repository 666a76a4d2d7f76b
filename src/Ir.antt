-- ===== src/Ir.antt =====
-- incs/ir.h and incs/ir_ops.def: the linear intermediate representation, and `emit` of
-- srcs/ir/ir_gen.c, which appends to its list of chunks.
pub mod Chunks
pub mod Machine
use Prim.Native.String.{String}
use tiny_compile.Prelude.{
  ℕ, ◌+◌, Bool, Option, none, some, List, [], ◌∷◌, ◌++◌, leb, if◌then◌else◌, length,
}
use tiny_compile.StringView.{StringView}
use tiny_compile.Ast.Types.{DataType}
use tiny_compile.ErrorHandler.{ErrorCategory, ErrorLevel, ErrorContext, error_add}

abbrev pub ir_chunk_size : ℕ
ir_chunk_size = 64

abbrev pub max_vregs_per_function : ℕ
max_vregs_per_function = 65536

abbrev pub max_ir_instructions_per_function : ℕ
max_ir_instructions_per_function = 65536

pub data IrOpcode : Type 0 where
  add sub mul div eq neq lt le gt ge : IrOpcode
  lshift rshift urshift band bor bxor bnot neg not mov : IrOpcode
  load store const arg label jmp jz jnz call ret : IrOpcode

-- `imm` is the bit pattern of the `int64_t`.
pub record IrInstruction : Type 0 where
  pub opcode : IrOpcode
  pub type : DataType
  pub dest : ℕ
  pub src_1 : ℕ
  pub src_2 : ℕ
  pub imm : ℕ
  pub func_name : StringView
  pub label_id : ℕ

-- A designated initialiser gives zero to the fields that it does not name.
abbrev pub instruction : IrOpcode → DataType → IrInstruction
instruction opcode type = record {
  opcode = opcode;
  type = type;
  dest = 0;
  src_1 = 0;
  src_2 = 0;
  imm = 0;
  func_name = [];
  label_id = 0;
}

-- The chunks of a function, the tail of the linked list first.
pub record IrFunction : Type 0 where
  pub chunks : List (List IrInstruction)
  pub total_count : ℕ
  pub vreg_count : ℕ
  pub stack_count : ℕ
  pub label_count : ℕ
  pub name : StringView
  pub errors : ErrorContext
  pub filename : Option String

unfoldable pub append_chunk : IrInstruction → List (List IrInstruction) → List (List IrInstruction)
append_chunk inst [] = (inst ∷ []) ∷ []
append_chunk inst (tail ∷ rest) =
    if leb ir_chunk_size (length tail)
    then (inst ∷ []) ∷ tail ∷ rest
    else (tail ++ inst ∷ []) ∷ rest

unfoldable pub emit : IrInstruction → IrFunction → IrFunction
emit inst f =
    if leb max_ir_instructions_per_function f.total_count
    then f
    else record f { chunks = append_chunk inst f.chunks; total_count = f.total_count + 1 }

-- the register, and the function with its counter moved; `none` is the return value `false`
unfoldable pub ir_alloc_vreg : IrFunction → Option ℕ × IrFunction
ir_alloc_vreg f =
    if leb max_vregs_per_function f.vreg_count
    then (
      none,
      record f {
        errors =
            error_add ErrorCategory.codegen ErrorLevel.error f.filename 0 0
              "function '%.*s' exceeds virtual register limit (%d)" f.errors;
      },
    )
    else (some f.vreg_count, record f { vreg_count = f.vreg_count + 1 })
