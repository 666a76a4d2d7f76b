-- ===== src/Compile.antt =====
-- srcs/compile/compile.c and incs/compile.h: the passes over all files. The units are a list in the order
-- of the command line; `ast` is `none` where the parser gave the null pointer. Loading the files is input
-- of the model, and the lines that print are left out.
pub mod Analyzed
use Prim.Native.String.{String}
use tiny_compile.Prelude.{
  ℕ, Bool, true, false, not, ◌&&◌, Option, none, some, List, [], ◌∷◌, if◌then◌else◌, Run, ok, stop,
  null_dereference, ◌>>=◌,
}
use tiny_compile.StringView.{StringView, sv_eq_cstr}
use tiny_compile.ErrorHandler.{ErrorContext, ErrorCategory, ErrorLevel, error_add}
use tiny_compile.Ast.{Node, null, function, Nodes, nil, cons}
use tiny_compile.Semantic.{GlobalScope}
use tiny_compile.Semantic.Functions.{semantic_global_declare_function, DeclaredFunction}
use tiny_compile.Semantic.Statements.{CheckedList}
use tiny_compile.Semantic.Units.{semantic_analyze}

pub record CompilationUnit : Type 0 where
  pub name : Option String
  pub ast : Option Nodes
  pub parsed_ok : Bool

-- the result of a pass, the units, the registry and the errors
pub record Analysis : Type 0 where
  pub accepted : Bool
  pub units : List CompilationUnit
  pub global : GlobalScope
  pub errors : ErrorContext

-- The first loop of `compile_analyze_all` over the declarations of a unit.
unfoldable pub declare_all :
    Option String → Nodes → GlobalScope → ErrorContext → Run DeclaredFunction
declare_all filename nil global errors =
    ok (record { accepted = true; global = global; errors = errors })
declare_all filename (cons null ns) global errors = stop null_dereference
declare_all filename (cons (function i header body) ns) global errors =
    let first = semantic_global_declare_function global errors (function i header body) filename in
    declare_all filename ns first.global first.errors >>= λ rest. ok (record {
      accepted = first.accepted && rest.accepted;
      global = rest.global;
      errors = rest.errors;
    })
declare_all filename (cons _ ns) global errors = declare_all filename ns global errors

-- A unit that is `parsed_ok` is read through its tree.
unfoldable pub declare_tree :
    Option String → Option Nodes → GlobalScope → ErrorContext → Run DeclaredFunction
declare_tree filename none global errors = stop null_dereference
declare_tree filename (some ns) global errors = declare_all filename ns global errors

unfoldable pub declare_units :
    List CompilationUnit → GlobalScope → ErrorContext → Run DeclaredFunction
declare_units [] global errors = ok (record { accepted = true; global = global; errors = errors })
declare_units (unit ∷ units) global errors =
    let skip = declare_units units global errors in
    if not unit.parsed_ok
    then skip
    else (declare_tree unit.name unit.ast global errors >>= λ first.
        declare_units units first.global first.errors >>= λ rest. ok (record {
          accepted = first.accepted && rest.accepted;
          global = rest.global;
          errors = rest.errors;
        }))

-- the units after their analysis
pub record CheckedUnits : Type 0 where
  pub accepted : Bool
  pub units : List CompilationUnit
  pub errors : ErrorContext

abbrev pub after_unit : CompilationUnit → CheckedList → CheckedUnits → CheckedUnits
after_unit unit first rest = record {
  accepted = first.accepted && rest.accepted;
  units = record unit { ast = some first.nodes } ∷ rest.units;
  errors = rest.errors;
}

abbrev pub skip_unit : CompilationUnit → CheckedUnits → CheckedUnits
skip_unit unit rest = record rest { units = unit ∷ rest.units }

module _ (atoll : StringView → ℕ) (global : GlobalScope) where
  -- one unit, and the units after it
  abbrev pub analyze_unit :
      CompilationUnit
      → Bool
      → Option Nodes
      → (ErrorContext → Run CheckedUnits)
      → ErrorContext
      → Run CheckedUnits
  analyze_unit unit true (some ns) rest errors =
      semantic_analyze atoll unit.name ns errors global >>= λ first.
      rest first.errors >>= λ others. ok (after_unit unit first others)
  analyze_unit unit _ _ rest errors = rest errors >>= λ others. ok (skip_unit unit others)

  -- the second loop of `compile_analyze_all`
  unfoldable pub analyze_units : List CompilationUnit → ErrorContext → Run CheckedUnits
  analyze_units [] errors = ok (record { accepted = true; units = []; errors = errors })
  analyze_units (unit ∷ units) errors =
      analyze_unit unit unit.parsed_ok unit.ast (analyze_units units) errors

unfoldable pub compile_analyze_all :
    (StringView → ℕ) → List CompilationUnit → GlobalScope → ErrorContext → Run Analysis
compile_analyze_all atoll units global errors = declare_units units global errors >>= λ d.
    if not d.accepted
    then ok (record { accepted = false; units = units; global = d.global; errors = d.errors })
    else (analyze_units atoll d.global units d.errors >>= λ r.
        ok
          (record { accepted = r.accepted; units = r.units; global = d.global; errors = r.errors }))

-- the first `main` of a unit
unfoldable pub find_main : Nodes → Option Node
find_main nil = none
find_main (cons (function i header body) ns) =
    let rest = find_main ns in
    if sv_eq_cstr header.name "main" then some (function i header body) else rest
find_main (cons _ ns) = find_main ns

abbrev pub or_main : Option Node → Option Node → Option Node
or_main none rest = rest
or_main (some f) rest = some f

abbrev pub main_of : Bool → Option Nodes → Option Node → Option Node
main_of true (some ns) rest = or_main (find_main ns) rest
main_of _ _ rest = rest

unfoldable pub find_entry : List CompilationUnit → Option Node
find_entry [] = none
find_entry (unit ∷ units) = main_of unit.parsed_ok unit.ast (find_entry units)

abbrev pub or_no_main : Option Node → ErrorContext → Option Node × ErrorContext
or_no_main (some f) errors = (some f, errors)
or_no_main none errors = (
  none,
  error_add ErrorCategory.system ErrorLevel.fatal none 0 0 "no main() function found" errors,
)

-- (The declarations have been read by the passes before, so none is a null pointer.)
unfoldable pub compile_get_entry_point :
    List CompilationUnit → ErrorContext → Option Node × ErrorContext
compile_get_entry_point units errors = or_no_main (find_entry units) errors
