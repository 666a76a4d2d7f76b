-- ===== src/Semantic/Functions.antt =====
-- The global functions of srcs/semantic/semantic.c: lookup and declaration.
pub mod Writes
pub mod Bounds
pub mod Laws
use tiny_compile.Prelude.{
  ℕ, ◌+◌, Bool, true, false, not, Option, none, some, List, [], ◌∷◌, ◌++◌, leb, ltb, ◌==◌, length,
  if◌then◌else◌,
}
use Prim.Native.String.{String}
use tiny_compile.StringView.{StringView, sv_eq}
use tiny_compile.ErrorHandler.{ErrorContext}
use tiny_compile.Ast.Types.{type_eq}
use tiny_compile.Ast.{FunctionHeader, NodeInfo, Node, function}
use tiny_compile.Semantic.{
  FunctionInfo, GlobalScope, max_params_per_function, max_function_count, error_semantic,
}

unfoldable pub semantic_global_lookup_function : GlobalScope → StringView → Option FunctionInfo
semantic_global_lookup_function [] name = none
semantic_global_lookup_function (func ∷ funcs) name =
    let rest = semantic_global_lookup_function funcs name in
    if sv_eq func.name name then some func else rest

-- the result of a declaration, the functions and the errors
pub record DeclaredFunction : Type 0 where
  pub accepted : Bool
  pub global : GlobalScope
  pub errors : ErrorContext

abbrev pub function_info : FunctionHeader → ℕ → Option String → FunctionInfo
function_info header line filename = record {
  name = header.name;
  return_type = header.return_type;
  params = header.params;
  line = line;
  filename = filename;
  is_prototype = header.is_prototype;
}

-- a definition after its prototype
abbrev pub complete_function : FunctionHeader → ℕ → Option String → FunctionInfo → FunctionInfo
complete_function header line filename existing = record existing {
  is_prototype = false;
  line = line;
  filename = filename;
  params = header.params;
}

-- a write through the pointer that the lookup returned
unfoldable pub update_function :
    (FunctionInfo → FunctionInfo) → GlobalScope → StringView → GlobalScope
update_function change [] name = []
update_function change (func ∷ funcs) name =
    let rest = update_function change funcs name in
    if sv_eq func.name name then change func ∷ funcs else func ∷ rest

module _ (global : GlobalScope) (errors : ErrorContext) (line : ℕ) (filename : Option String) where
  abbrev pub reject_function : String → DeclaredFunction
  reject_function message = record {
    accepted = false;
    global = global;
    errors = error_semantic filename line 0 message errors;
  }

  abbrev pub accept_function : GlobalScope → DeclaredFunction
  accept_function functions = record { accepted = true; global = functions; errors = errors }

  -- the branches on a name that is there
  abbrev pub redeclare_function : FunctionHeader → FunctionInfo → DeclaredFunction
  redeclare_function header existing =
      if not (type_eq existing.return_type header.return_type)
      then reject_function "conflicting return types for function '%.*s' (previous: %s, now: %s)"
      else if not (length existing.params == length header.params)
      then reject_function
          "conflicting types for function '%.*s' (previous declaration at %s:%d had %zu parameters)"
      else if existing.is_prototype
      then (if not header.is_prototype
          then accept_function
              (update_function (complete_function header line filename) global header.name)
          else accept_function global)
      else if not header.is_prototype
      then reject_function "redefinition of function '%.*s' (previous definition at %s:%d)"
      else accept_function global

  -- `none`: the name is new.
  abbrev pub declare_function_at : FunctionHeader → Option FunctionInfo → DeclaredFunction
  declare_function_at header (some existing) = redeclare_function header existing
  declare_function_at header none =
      if leb max_function_count (length global)
      then reject_function "too many functions (max %d)"
      else accept_function (global ++ function_info header line filename ∷ [])

  unfoldable pub declare_header : FunctionHeader → DeclaredFunction
  declare_header header =
      if ltb max_params_per_function (length header.params)
      then reject_function "too many parameters (max %d)"
      else declare_function_at header (semantic_global_lookup_function global header.name)

unfoldable pub semantic_global_declare_function :
    GlobalScope → ErrorContext → Node → Option String → DeclaredFunction
semantic_global_declare_function global errors (function i header body) filename =
    declare_header global errors i.line filename header
semantic_global_declare_function global errors func_node filename = record {
  accepted = false;
  global = global;
  errors = errors;
}
