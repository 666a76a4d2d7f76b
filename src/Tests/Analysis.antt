-- ===== src/Tests/Analysis.antt =====
-- The theorems on the semantic analysis at concrete programs.
use tiny_compile.Prelude.{ℕ, ◌≤◌, ◌≡◌, refl, Bool, true, false, none, some, [], ◌∷◌, arith, length}
use tiny_compile.StringView.{StringView}
use tiny_compile.ErrorHandler.{ErrorContext, error_context_init}
use tiny_compile.Ast.Types.{DataType}
use tiny_compile.Ast.{
  BinaryOp, NodeInfo, FunctionHeader, Node, null, number, identifier, binary, var_decl, block,
  function, return_stmt, Nodes, nil, cons,
}
use tiny_compile.Ir.{IrFunction}
use tiny_compile.HashTable.{target_slot, add_loop, hash_sv}
use tiny_compile.SymbolTable.{SymbolTable, empty_table, write_entry}
use tiny_compile.Semantic.{Scope, FunctionInfo, SemanticAnalyzer}
use tiny_compile.Semantic.Scopes.{empty_scope, write_scope, new_entry, semantic_scope_declare}
use tiny_compile.Semantic.Scopes.Laws.{
  empty_scope-IsComplete, Declares, semantic_scope_declare-Declares,
}
use tiny_compile.Semantic.Functions.{
  semantic_global_lookup_function, declare_header, semantic_global_declare_function,
}
use tiny_compile.Semantic.Functions.Laws.{
  Outcome, semantic_global_declare_function-Outcome, semantic_global_declare_function-redefinition,
}
use tiny_compile.Semantic.Expressions.{Analyzed}
use tiny_compile.Semantic.Expressions.Reports.{Reports}
use tiny_compile.Semantic.Statements.{Checked, CheckedList}
use tiny_compile.Semantic.Statements.Scoped.{Scoped}
use tiny_compile.IrGen.Statements.{new_function}
use tiny_compile.IrGen.Correct.Compiled.{Compiled}
use tiny_compile.Compile.{CompilationUnit, Analysis}

abbrev at_line_1 : NodeInfo
at_line_1 = record { value_type = DataType.int64; line = 1; column = 1 }

abbrev int_node : NodeInfo
int_node = record { value_type = DataType.int; line = 1; column = 1 }

abbrev name_x : StringView
name_x = 120 ∷ []

-- the value of a text of one digit
abbrev digit : StringView → ℕ
digit (c ∷ []) = c
digit _ = 0

no_errors : ErrorContext
no_errors = error_context_init

-- a scope that declares `x`
abbrev scope_x : Scope
scope_x = write_scope empty_scope 7 (new_entry name_x DataType.int64 1)

abbrev sa_x : SemanticAnalyzer
sa_x = record {
  current = scope_x ∷ [];
  filename = none;
  global = [];
  current_return_type = DataType.int64;
  visible_funcs = [];
}

accepts_x :
    (semantic_scope_declare none (empty_scope ∷ []) name_x DataType.int64 1 no_errors).accepted
    ≡ true
unfolding semantic_scope_declare target_slot add_loop hash_sv
accepts_x = refl

semantic_scope_declare-Declares_example :
    Declares empty_scope [] name_x DataType.int64 1 no_errors
      (semantic_scope_declare none (empty_scope ∷ []) name_x DataType.int64 1 no_errors)
semantic_scope_declare-Declares_example =
    semantic_scope_declare-Declares none empty_scope [] name_x DataType.int64 1 no_errors
      empty_scope-IsComplete accepts_x

-- `x + 7`, and the same with the types that the analysis writes
abbrev x_plus_7 : Node
x_plus_7 = binary BinaryOp.add int_node (identifier int_node name_x) (number int_node (55 ∷ []))

abbrev typed_x_plus_7 : Node
typed_x_plus_7 =
    binary BinaryOp.add at_line_1 (identifier at_line_1 name_x) (number int_node (55 ∷ []))

abbrev analyzed : Analyzed
analyzed = record { accepted = true; node = typed_x_plus_7; errors = no_errors }

abbrev table_x : SymbolTable
table_x = write_entry empty_table 135 name_x 1

two : IrFunction
two = record (new_function 0 name_x error_context_init none) { vreg_count = 2 }

-- `int64 x = 7;` in an empty scope
abbrev declaration : Node
declaration = var_decl int_node name_x DataType.int64 (number int_node (55 ∷ []))

abbrev checked : Checked
checked = record { accepted = true; node = declaration; current = scope_x ∷ []; errors = no_errors }

-- `int64 f() { int64 x = 7; return x; }`, in full and as a prototype
abbrev header : Bool → FunctionHeader
header is_prototype = record {
  name = 102 ∷ [];
  return_type = DataType.int64;
  params = [];
  is_prototype = is_prototype;
}

abbrev body : Node
body =
    block int_node (cons declaration (cons (return_stmt int_node (identifier int_node name_x)) nil))

abbrev unit : Nodes
unit = cons (function int_node (header false) body) nil

abbrev checked_unit : CheckedList
checked_unit = record {
  accepted = true;
  nodes =
      cons
        (function int_node (header false) (
          block int_node
            (cons declaration (cons (return_stmt at_line_1 (identifier at_line_1 name_x)) nil))))
        nil;
  current = [];
  errors = no_errors;
}

semantic_global_declare_function-Outcome_example :
    Outcome [] no_errors 1 none
      (header true)
      (semantic_global_declare_function [] no_errors (function int_node (header true) null) none)
    × (length
          (semantic_global_declare_function [] no_errors
            (function int_node (header true) null)
            none).global
        ≤ 256)
semantic_global_declare_function-Outcome_example =
    semantic_global_declare_function-Outcome [] no_errors int_node (header true) null none
      (omega arith)

declares_f :
    (semantic_global_declare_function [] no_errors
      (function int_node (header false) body)
      none).accepted
    ≡ true
unfolding semantic_global_declare_function declare_header semantic_global_lookup_function
declares_f = refl

semantic_global_declare_function-redefinition_example :
    (semantic_global_declare_function
      (semantic_global_declare_function [] no_errors
        (function int_node (header false) body)
        none).global
      (semantic_global_declare_function [] no_errors
        (function int_node (header false) body)
        none).errors
      (function at_line_1 (header false) null)
      none).accepted
    ≡ false
semantic_global_declare_function-redefinition_example =
    semantic_global_declare_function-redefinition [] no_errors int_node at_line_1 (header false)
      (header false) body null none none refl refl refl declares_f

-- one file with the unit above
abbrev file_unit : CompilationUnit
file_unit = record { name = none; ast = some unit; parsed_ok = true }

abbrev f_info : FunctionInfo
f_info = record {
  name = 102 ∷ [];
  return_type = DataType.int64;
  params = [];
  line = 1;
  filename = none;
  is_prototype = false;
}

abbrev analysis : Analysis
analysis = record {
  accepted = true;
  units = record file_unit { ast = some checked_unit.nodes } ∷ [];
  global = f_info ∷ [];
  errors = no_errors;
}
