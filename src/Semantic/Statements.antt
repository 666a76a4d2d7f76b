-- ===== src/Semantic/Statements.antt =====
-- `analyze_statement` of srcs/semantic/semantic.c.
pub mod Scoped
pub mod Verdict
use tiny_compile.Prelude.{
  ℕ, Bool, true, false, not, ◌&&◌, Option, none, some, List, [], ◌∷◌, if◌then◌else◌, Run, ok, stop,
  ◌>>=◌,
}
use tiny_compile.StringView.{StringView}
use tiny_compile.ErrorHandler.{ErrorContext}
use tiny_compile.Ast.Types.{DataType, type_eq}
use tiny_compile.Ast.{
  NodeInfo, Node, null, if_stmt, while_stmt, return_stmt, var_decl, assignment, block, Nodes, nil,
  cons, info,
}
use tiny_compile.Semantic.{VarInfo, Scope, SemanticAnalyzer, error_semantic}
use tiny_compile.Semantic.Scopes.{
  semantic_scope_enter, semantic_scope_exit, semantic_scope_lookup, semantic_scope_declare,
}
use tiny_compile.Semantic.Constants.{check_type_compatibility}
use tiny_compile.Semantic.Expressions.{Analyzed, analyze_expression, with_type}

-- the result, the node, the scopes and the errors
pub record Checked : Type 0 where
  pub accepted : Bool
  pub node : Node
  pub current : List Scope
  pub errors : ErrorContext

pub record CheckedList : Type 0 where
  pub accepted : Bool
  pub nodes : Nodes
  pub current : List Scope
  pub errors : ErrorContext

-- the analyzer while the scopes are these
abbrev pub at_scopes : SemanticAnalyzer → List Scope → SemanticAnalyzer
at_scopes sa scopes = record sa { current = scopes }

abbrev pub is_null : Node → Bool
is_null null = true
is_null _ = false

module _ (atoll : StringView → ℕ) (sa : SemanticAnalyzer) where
  -- `analyze_expression` on a value, and, if that is accepted, the check of its type
  abbrev pub check_value : DataType → Analyzed → Run Analyzed
  check_value dest value =
      if value.accepted
      then (info value.node >>= λ i.
          check_type_compatibility atoll sa.filename dest i.value_type value.node value.errors
          >>= λ check. ok (record { accepted = check.0; node = value.node; errors = check.1 }))
      else ok value

  unfoldable pub analyze_value : List Scope → DataType → Node → ErrorContext → Run Analyzed
  analyze_value scopes dest value errors =
      analyze_expression atoll (at_scopes sa scopes) value errors >>= check_value dest

  -- an initializer, which may be missing
  unfoldable pub analyze_initializer : List Scope → DataType → Node → ErrorContext → Run Analyzed
  analyze_initializer scopes type null errors =
      ok (record { accepted = true; node = null; errors = errors })
  analyze_initializer scopes type init errors = analyze_value scopes type init errors

  unfoldable pub analyze_var_decl :
      NodeInfo → StringView → DataType → Node → List Scope → ErrorContext → Run Checked
  analyze_var_decl i name type init scopes errors =
      analyze_initializer scopes type init errors >>= λ value.
      let decl = semantic_scope_declare sa.filename scopes name type i.line value.errors in
      ok (record {
        accepted = value.accepted && decl.accepted;
        node = var_decl i name type value.node;
        current = decl.current;
        errors = decl.errors;
      })

  -- an assignment after the lookup of its variable
  abbrev pub assign_to :
      NodeInfo → StringView → Node → List Scope → ErrorContext → Option VarInfo → Run Checked
  assign_to i name value scopes errors none = ok (record {
    accepted = false;
    node = assignment i name value;
    current = scopes;
    errors =
        error_semantic sa.filename i.line i.column "assignment to undeclared variable '%.*s'"
          errors;
  })
  assign_to i name value scopes errors (some var) =
      analyze_value scopes var.type value errors >>= λ v. ok (record {
        accepted = v.accepted;
        node = assignment (with_type i var.type) name v.node;
        current = scopes;
        errors = v.errors;
      })

  abbrev pub reject_return : NodeInfo → Node → List Scope → ErrorContext → Run Checked
  reject_return i value scopes errors =
      ok
        (record { accepted = false; node = return_stmt i value; current = scopes; errors = errors })

  unfoldable pub analyze_return : NodeInfo → Node → List Scope → ErrorContext → Run Checked
  analyze_return i value scopes errors =
      let void_function = type_eq sa.current_return_type DataType.void in
      if is_null value
      then (if not void_function
          then reject_return i value scopes (
              error_semantic sa.filename i.line i.column "non-void function must return a value"
                errors)
          else ok (record {
            accepted = true;
            node = return_stmt i value;
            current = scopes;
            errors = errors;
          }))
      else if void_function
      then reject_return i value scopes (
          error_semantic sa.filename i.line i.column "void function should not return a value"
            errors)
      else (analyze_value scopes sa.current_return_type value errors >>= λ v. ok (record {
        accepted = v.accepted;
        node = return_stmt (with_type i sa.current_return_type) v.node;
        current = scopes;
        errors = v.errors;
      }))

  -- an expression that stands as a statement
  unfoldable pub analyze_effect : Node → List Scope → ErrorContext → Run Checked
  analyze_effect node scopes errors =
      analyze_expression atoll (at_scopes sa scopes) node errors >>= λ v.
      ok (record { accepted = v.accepted; node = v.node; current = scopes; errors = v.errors })

  unfoldable mutual
    pub analyze_statement : Node → List Scope → ErrorContext → Run Checked
    analyze_statement null scopes errors =
        ok (record { accepted = true; node = null; current = scopes; errors = errors })
    analyze_statement (var_decl i name type init) scopes errors =
        analyze_var_decl i name type init scopes errors
    analyze_statement (assignment i name value) scopes errors =
        assign_to i name value scopes errors (semantic_scope_lookup scopes name)
    analyze_statement (return_stmt i value) scopes errors = analyze_return i value scopes errors
    analyze_statement (if_stmt i c t e) scopes errors =
        analyze_expression atoll (at_scopes sa scopes) c errors >>= λ cond.
        analyze_statement t scopes cond.errors >>= λ then_branch.
        analyze_statement e then_branch.current then_branch.errors >>= λ else_branch. ok (record {
          accepted = cond.accepted && then_branch.accepted && else_branch.accepted;
          node = if_stmt i cond.node then_branch.node else_branch.node;
          current = else_branch.current;
          errors = else_branch.errors;
        })
    analyze_statement (while_stmt i c b) scopes errors =
        analyze_expression atoll (at_scopes sa scopes) c errors >>= λ cond.
        analyze_statement b scopes cond.errors >>= λ body. ok (record {
          accepted = cond.accepted && body.accepted;
          node = while_stmt i cond.node body.node;
          current = body.current;
          errors = body.errors;
        })
    analyze_statement (block i list) scopes errors =
        analyze_statements list (semantic_scope_enter scopes) errors >>= λ inner. ok (record {
          accepted = inner.accepted;
          node = block i inner.nodes;
          current = semantic_scope_exit inner.current;
          errors = inner.errors;
        })
    analyze_statement node scopes errors = analyze_effect node scopes errors

    -- the loop over a block
    pub analyze_statements : Nodes → List Scope → ErrorContext → Run CheckedList
    analyze_statements nil scopes errors =
        ok (record { accepted = true; nodes = nil; current = scopes; errors = errors })
    analyze_statements (cons s ss) scopes errors = analyze_statement s scopes errors >>= λ first.
        analyze_statements ss first.current first.errors >>= λ rest. ok (record {
          accepted = first.accepted && rest.accepted;
          nodes = cons first.node rest.nodes;
          current = rest.current;
          errors = rest.errors;
        })
