-- ===== src/Semantic.antt =====
-- srcs/semantic/semantic.c and incs/semantic.h: names and types are resolved before code is generated.
-- The chain of scopes is a list, the innermost one first; the empty list is the null pointer. The
-- context of errors is threaded beside the analyzer, which holds a pointer to it.
pub mod Scopes
pub mod Functions
pub mod Constants
pub mod Expressions
pub mod Statements
pub mod Units
use Prim.Native.String.{String}
use tiny_compile.Prelude.{ℕ, Bool, false, Option, List, []}
use tiny_compile.StringView.{StringView}
use tiny_compile.ErrorHandler.{ErrorContext, ErrorCategory, ErrorLevel, error_add}
use tiny_compile.Ast.Types.{DataType}
use tiny_compile.Ast.{Parameter}

abbrev pub scope_hash_size : ℕ
scope_hash_size = 128

abbrev pub max_params_per_function : ℕ
max_params_per_function = 32

abbrev pub max_function_count : ℕ
max_function_count = 256

pub record VarInfo : Type 0 where
  pub name : StringView
  pub type : DataType
  pub initialized : Bool
  pub line : ℕ

pub record ScopeEntry : Type 0 where
  pub info : VarInfo
  pub occupied : Bool

pub record Scope : Type 0 where
  pub entries : ℕ → ScopeEntry
  pub var_count : ℕ

-- `param_count` is the length of the list.
pub record FunctionInfo : Type 0 where
  pub name : StringView
  pub return_type : DataType
  pub params : List Parameter
  pub line : ℕ
  pub filename : Option String
  pub is_prototype : Bool

-- the first `function_count` functions
abbrev pub GlobalScope : Type 0
GlobalScope = List FunctionInfo

pub record SemanticAnalyzer : Type 0 where
  pub current : List Scope
  pub filename : Option String
  pub global : GlobalScope
  pub current_return_type : DataType
  pub visible_funcs : List StringView

-- the bytes that `memset` clears
abbrev pub no_entry : ScopeEntry
no_entry = record {
  info = record { name = []; type = DataType.void; initialized = false; line = 0 };
  occupied = false;
}

abbrev pub error_semantic : Option String → ℕ → ℕ → String → ErrorContext → ErrorContext
error_semantic filename line column message errors =
    error_add ErrorCategory.semantic ErrorLevel.error filename line column message errors
