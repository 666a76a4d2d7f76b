-- ===== src/Semantic/Units.antt =====
-- `analyze_node` and `semantic_analyze` of srcs/semantic/semantic.c: the functions of a compilation unit.
pub mod Accepted
use tiny_compile.Prelude.{
  ℕ, Bool, true, false, not, ◌&&◌, Option, none, some, List, [], ◌∷◌, ◌++◌, leb, length,
  if◌then◌else◌, Run, ok, stop, null_dereference, ◌>>=◌,
}
use Prim.Native.String.{String}
use tiny_compile.StringView.{StringView}
use tiny_compile.ErrorHandler.{ErrorContext}
use tiny_compile.Ast.Types.{DataType}
use tiny_compile.Ast.{
  Parameter, NodeInfo, FunctionHeader, Node, null, block, function, Nodes, nil, cons,
}
use tiny_compile.Semantic.{Scope, GlobalScope, SemanticAnalyzer, max_function_count, error_semantic}
use tiny_compile.Semantic.Scopes.{
  semantic_scope_enter, semantic_scope_exit, semantic_scope_declare, Declared,
}
use tiny_compile.Semantic.Expressions.{contains}
use tiny_compile.Semantic.Statements.{Checked, CheckedList, analyze_statements}

-- the loop over the parameters
unfoldable pub declare_params :
    Option String → List Parameter → ℕ → List Scope → ErrorContext → Declared
declare_params filename [] line scopes errors = record {
  accepted = true;
  current = scopes;
  errors = errors;
}
declare_params filename (param ∷ params) line scopes errors =
    let first = semantic_scope_declare filename scopes param.name param.type line errors in
    let rest = declare_params filename params line first.current first.errors in
    record {
      accepted = first.accepted && rest.accepted;
      current = rest.current;
      errors = rest.errors;
    }

-- `sa->current_return_type = type`
abbrev pub returning : SemanticAnalyzer → DataType → SemanticAnalyzer
returning sa type = record sa { current_return_type = type }

-- the result, the node, the analyzer and the errors
pub record AnalyzedNode : Type 0 where
  pub accepted : Bool
  pub node : Node
  pub sa : SemanticAnalyzer
  pub errors : ErrorContext

module _ (atoll : StringView → ℕ) where
  -- A body that is not a block is left alone.
  unfoldable pub analyze_body : SemanticAnalyzer → Node → List Scope → ErrorContext → Run Checked
  analyze_body sa (block i list) scopes errors =
      analyze_statements atoll sa list scopes errors >>= λ inner. ok (record {
        accepted = inner.accepted;
        node = block i inner.nodes;
        current = inner.current;
        errors = inner.errors;
      })
  analyze_body sa body scopes errors =
      ok (record { accepted = true; node = body; current = scopes; errors = errors })

  unfoldable pub analyze_function :
      SemanticAnalyzer → NodeInfo → FunctionHeader → Node → ErrorContext → Run AnalyzedNode
  analyze_function sa i header body errors =
      let params =
        declare_params sa.filename header.params i.line (semantic_scope_enter sa.current) errors in
      analyze_body (returning sa header.return_type) body params.current params.errors >>= λ b.
      ok (record {
        accepted = params.accepted && b.accepted;
        node = function i header b.node;
        sa = record sa {
          current = semantic_scope_exit b.current;
          current_return_type = header.return_type;
        };
        errors = b.errors;
      })

  unfoldable pub analyze_node : SemanticAnalyzer → Node → ErrorContext → Run AnalyzedNode
  analyze_node sa null errors = stop null_dereference
  analyze_node sa (function i header body) errors =
      if header.is_prototype
      then ok (record { accepted = true; node = function i header body; sa = sa; errors = errors })
      else analyze_function sa i header body errors
  analyze_node sa node errors =
      ok (record { accepted = false; node = node; sa = sa; errors = errors })

  -- the second loop of `semantic_analyze`
  unfoldable pub analyze_nodes : SemanticAnalyzer → Nodes → ErrorContext → Run CheckedList
  analyze_nodes sa nil errors =
      ok (record { accepted = true; nodes = nil; current = sa.current; errors = errors })
  analyze_nodes sa (cons n ns) errors = analyze_node sa n errors >>= λ first.
      analyze_nodes first.sa ns first.errors >>= λ rest. ok (record {
        accepted = first.accepted && rest.accepted;
        nodes = cons first.node rest.nodes;
        current = rest.current;
        errors = rest.errors;
      })

-- the names that calls may use, or the line of the function that is one too many
pub data Visible : Type 0 where
  too_many : ℕ → Visible
  visible : List StringView → Visible

-- The first loop of `semantic_analyze`, from the names seen so far.
unfoldable pub visible_names : Nodes → List StringView → Run Visible
visible_names nil names = ok (Visible.visible names)
visible_names (cons null ns) names = stop null_dereference
visible_names (cons (function i header body) ns) names =
    let rest = visible_names ns (names ++ header.name ∷ []) in
    if contains names header.name
    then visible_names ns names
    else if leb max_function_count (length names)
    then ok (Visible.too_many i.line)
    else rest
visible_names (cons _ ns) names = visible_names ns names

abbrev pub analyzer : Option String → GlobalScope → List StringView → SemanticAnalyzer
analyzer filename global names = record {
  current = [];
  filename = filename;
  global = global;
  current_return_type = DataType.int64;
  visible_funcs = names;
}

-- `semantic_analyze` after its first loop
abbrev pub analyze_visible :
    (StringView → ℕ)
    → Option String
    → Nodes
    → ErrorContext
    → GlobalScope
    → Visible
    → Run CheckedList
analyze_visible atoll filename declarations errors global (Visible.too_many line) = ok (record {
  accepted = false;
  nodes = declarations;
  current = [];
  errors = error_semantic filename line 0 "too many functions" errors;
})
analyze_visible atoll filename declarations errors global (Visible.visible names) =
    analyze_nodes atoll (analyzer filename global names) declarations errors

unfoldable pub semantic_analyze :
    (StringView → ℕ) → Option String → Nodes → ErrorContext → GlobalScope → Run CheckedList
semantic_analyze atoll filename declarations errors global =
    visible_names declarations [] >>= analyze_visible atoll filename declarations errors global
