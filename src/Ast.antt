-- ===== src/Ast.antt =====
-- incs/ast.h, incs/types.def and srcs/parser/type_helpers.c: the data types of the language and the
-- syntax tree. A null pointer to a node is `null`; an array of nodes with its count is a `Nodes`.
pub mod Types
pub mod Meaning
use tiny_compile.Prelude.{ℕ, List, Bool, Run, ok, stop, null_dereference}
use tiny_compile.StringView.{StringView}
use tiny_compile.Ast.Types.{DataType}

-- the node types that share `binary`, and those that share `unary`
pub data BinaryOp : Type 0 where
  add sub mul div equal not_equal less less_equal greater greater_equal : BinaryOp
  bit_and bit_or bit_xor lshift rshift : BinaryOp

pub data UnaryOp : Type 0 where
  negate not bit_not : UnaryOp

pub record Parameter : Type 0 where
  pub name : StringView
  pub type : DataType

-- the fields that every node has beside its union
pub record NodeInfo : Type 0 where
  pub value_type : DataType
  pub line : ℕ
  pub column : ℕ

pub record FunctionHeader : Type 0 where
  pub name : StringView
  pub return_type : DataType
  pub params : List Parameter
  pub is_prototype : Bool

mutual
  pub data Node : Type 0 where
    null : Node
    number : NodeInfo → StringView → Node
    identifier : NodeInfo → StringView → Node
    binary : BinaryOp → NodeInfo → Node → Node → Node
    unary : UnaryOp → NodeInfo → Node → Node
    if_stmt : NodeInfo → Node → Node → Node → Node
    while_stmt : NodeInfo → Node → Node → Node
    return_stmt : NodeInfo → Node → Node
    var_decl : NodeInfo → StringView → DataType → Node → Node
    assignment : NodeInfo → StringView → Node → Node
    block : NodeInfo → Nodes → Node
    function : NodeInfo → FunctionHeader → Node → Node
    translation_unit : NodeInfo → Nodes → Node
    call : NodeInfo → StringView → Nodes → Node

  pub data Nodes : Type 0 where
    nil : Nodes
    cons : Node → Nodes → Nodes

-- the fields of the node behind a pointer
unfoldable pub info : Node → Run NodeInfo
info null = stop null_dereference
info (number i _) = ok i
info (identifier i _) = ok i
info (binary _ i _ _) = ok i
info (unary _ i _) = ok i
info (if_stmt i _ _ _) = ok i
info (while_stmt i _ _) = ok i
info (return_stmt i _) = ok i
info (var_decl i _ _ _) = ok i
info (assignment i _ _) = ok i
info (block i _) = ok i
info (function i _ _) = ok i
info (translation_unit i _) = ok i
info (call i _ _) = ok i

-- `node->value_type` where the node is known to be there
unfoldable pub value_type : Node → DataType
value_type null = DataType.void
value_type (number i _) = i.value_type
value_type (identifier i _) = i.value_type
value_type (binary _ i _ _) = i.value_type
value_type (unary _ i _) = i.value_type
value_type (if_stmt i _ _ _) = i.value_type
value_type (while_stmt i _ _) = i.value_type
value_type (return_stmt i _) = i.value_type
value_type (var_decl i _ _ _) = i.value_type
value_type (assignment i _ _) = i.value_type
value_type (block i _) = i.value_type
value_type (function i _ _) = i.value_type
value_type (translation_unit i _) = i.value_type
value_type (call i _ _) = i.value_type
