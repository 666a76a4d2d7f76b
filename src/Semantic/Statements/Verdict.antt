-- ===== src/Semantic/Statements/Verdict.antt =====
-- The verdict of the analysis of a statement, and the scopes after it.
use Prim.Native.String.{String}
use tiny_compile.Prelude.{
  ℕ, ◌≡◌, refl, Bool, true, false, not, Option, none, some, List, ◌∷◌, Bool-cases, inl, inr, ok,
  IfRuns, IfRuns-bind, IfRuns-any, IfRuns-if, IfRuns-ok,
}
use tiny_compile.StringView.{StringView}
use tiny_compile.ErrorHandler.{ErrorContext}
use tiny_compile.Ast.Types.{DataType, type_eq}
use tiny_compile.Ast.{
  NodeInfo, Node, null, if_stmt, while_stmt, return_stmt, var_decl, assignment, block, Nodes, nil,
  cons, info,
}
use tiny_compile.Semantic.{VarInfo, Scope, SemanticAnalyzer, error_semantic}
use tiny_compile.Semantic.Scopes.{
  semantic_scope_lookup, semantic_scope_enter, semantic_scope_exit, empty_scope,
}
use tiny_compile.Semantic.Scopes.Laws.{IsComplete, empty_scope-IsComplete}
use tiny_compile.Semantic.Constants.{check_type_compatibility}
use tiny_compile.Semantic.Expressions.{Analyzed, analyze_expression}
use tiny_compile.Semantic.Expressions.Reports.{
  Reports-refl, Reports-error, Reports-and, AnalyzedReports, CheckReports, expression-Reports,
  check_type_compatibility-Reports,
}
use tiny_compile.Semantic.Statements.{
  Checked, at_scopes, is_null, check_value, analyze_value, analyze_initializer, analyze_var_decl,
  assign_to, analyze_return, analyze_effect, analyze_statement, analyze_statements,
}
use tiny_compile.Semantic.Statements.Scoped.{
  Scoped, Scoped-same, Scoped-and, Scoped-after, Scoped-after-and, declare-Scoped, ScopedFrom,
  ListScopedFrom,
}

module _ (atoll : StringView → ℕ) (sa : SemanticAnalyzer) where
  check_value-Reports :
      (dest : DataType) (e : ErrorContext) (r : Analyzed)
      → AnalyzedReports e r
      → IfRuns (AnalyzedReports e) (check_value atoll sa dest r)
  check_value-Reports dest e r h = elim (Bool-cases r.accepted) [
    | inr a ↦ rw a (rw a at h)
    | inl a ↦ rw a (
        IfRuns-any _ (info r.node) _ λ i.
          IfRuns-bind (CheckReports r.errors) (AnalyzedReports e)
            (check_type_compatibility atoll sa.filename dest i.value_type r.node r.errors) _
            (check_type_compatibility-Reports atoll sa.filename dest i.value_type r.node r.errors)
            λ check k. Reports-and true check.0 (rw a at h) k)
  ]

  analyze_value-Reports :
      (scopes : List Scope) (dest : DataType) (value : Node) (e : ErrorContext)
      → IfRuns (AnalyzedReports e) (analyze_value atoll sa scopes dest value e)
  unfolding analyze_value
  analyze_value-Reports scopes dest value e =
      IfRuns-bind (AnalyzedReports e) (AnalyzedReports e)
        (analyze_expression atoll (at_scopes sa scopes) value e) _
        (expression-Reports atoll (at_scopes sa scopes) value e) (check_value-Reports dest e)

  analyze_initializer-Reports :
      (scopes : List Scope) (type : DataType) (init : Node) (e : ErrorContext)
      → IfRuns (AnalyzedReports e) (analyze_initializer atoll sa scopes type init e)
  unfolding analyze_initializer
  analyze_initializer-Reports scopes type null e = Reports-refl e
  analyze_initializer-Reports scopes type init e = analyze_value-Reports scopes type init e

  module _ (s : Scope) (ss : List Scope) (scopes : List Scope) (at : scopes ≡ s ∷ ss)
      (all : IsComplete s) where
    var_decl-Scoped :
        (i : NodeInfo) (name : StringView) (type : DataType) (init : Node) (e : ErrorContext)
        → IfRuns (ScopedFrom s ss e) (analyze_var_decl atoll sa i name type init scopes e)
    unfolding analyze_var_decl
    var_decl-Scoped i name type init e =
        IfRuns-bind (AnalyzedReports e) (ScopedFrom s ss e)
          (analyze_initializer atoll sa scopes type init e) _
          (analyze_initializer-Reports scopes type init e)
          λ value h.
            Scoped-after value.accepted _ h
              (declare-Scoped sa.filename s ss name type i.line value.errors scopes at all)

    assign_to-Scoped :
        (i : NodeInfo) (name : StringView) (value : Node) (e : ErrorContext) (o : Option VarInfo)
        → IfRuns (ScopedFrom s ss e) (assign_to atoll sa i name value scopes e o)
    assign_to-Scoped i name value e none =
        Scoped-same s ss at all (Reports-error sa.filename i.line i.column _ e)
    assign_to-Scoped i name value e (some var) =
        IfRuns-bind (AnalyzedReports e) (ScopedFrom s ss e)
          (analyze_value atoll sa scopes var.type value e) _
          (analyze_value-Reports scopes var.type value e) λ v h. Scoped-same s ss at all h

    return-Scoped :
        (i : NodeInfo) (value : Node) (e : ErrorContext)
        → IfRuns (ScopedFrom s ss e) (analyze_return atoll sa i value scopes e)
    unfolding analyze_return
    return-Scoped i value e =
        let wrong : (message : String)
            → Scoped s ss e false scopes (error_semantic sa.filename i.line i.column message e) =
          λ message.
            Scoped-same s ss at all (Reports-error sa.filename i.line i.column message e) in
        let void_function = type_eq sa.current_return_type DataType.void in
        IfRuns-if (is_null value) (ScopedFrom s ss e) _ _
          (IfRuns-if (not void_function) (ScopedFrom s ss e) _ _ (wrong _)
            (Scoped-same s ss at all (Reports-refl e)))
          (IfRuns-if void_function (ScopedFrom s ss e) _ _ (wrong _) (
            IfRuns-bind (AnalyzedReports e) (ScopedFrom s ss e)
              (analyze_value atoll sa scopes sa.current_return_type value e) _
              (analyze_value-Reports scopes sa.current_return_type value e)
              λ v h. Scoped-same s ss at all h))

    effect-Scoped :
        (node : Node) (e : ErrorContext)
        → IfRuns (ScopedFrom s ss e) (analyze_effect atoll sa node scopes e)
    unfolding analyze_effect
    effect-Scoped node e =
        IfRuns-bind (AnalyzedReports e) (ScopedFrom s ss e)
          (analyze_expression atoll (at_scopes sa scopes) node e) _
          (expression-Reports atoll (at_scopes sa scopes) node e) λ v h. Scoped-same s ss at all h

  -- A block has a scope of its own, and closes it.
  block-Scoped :
      (s : Scope) (ss : List Scope) (scopes : List Scope) (e f : ErrorContext) (a : Bool)
      (current : List Scope)
      → scopes ≡ s ∷ ss
      → IsComplete s
      → Scoped empty_scope scopes e a current f
      → Scoped s ss e a (semantic_scope_exit current) f
  unfolding semantic_scope_exit
  block-Scoped s ss scopes e f a current at all r = Scoped-same s ss (rw r.stacked at) all r.verdict

  mutual
    unfolding analyze_statement semantic_scope_enter

    statement-Scoped :
        (node : Node) (s : Scope) (ss : List Scope) (scopes : List Scope) (e : ErrorContext)
        → scopes ≡ s ∷ ss
        → IsComplete s
        → IfRuns (ScopedFrom s ss e) (analyze_statement atoll sa node scopes e)
    statement-Scoped null s ss scopes e at all = Scoped-same s ss at all (Reports-refl e)
    statement-Scoped (var_decl i name type init) s ss scopes e at all =
        var_decl-Scoped s ss scopes at all i name type init e
    statement-Scoped (assignment i name value) s ss scopes e at all =
        assign_to-Scoped s ss scopes at all i name value e (semantic_scope_lookup scopes name)
    statement-Scoped (return_stmt i value) s ss scopes e at all =
        return-Scoped s ss scopes at all i value e
    statement-Scoped (if_stmt i c t f) s ss scopes e at all =
        IfRuns-bind (AnalyzedReports e) (ScopedFrom s ss e)
          (analyze_expression atoll (at_scopes sa scopes) c e) _
          (expression-Reports atoll (at_scopes sa scopes) c e)
          (λ cond h.
            IfRuns-bind (ScopedFrom s ss cond.errors) (ScopedFrom s ss e)
              (analyze_statement atoll sa t scopes cond.errors) _
              (statement-Scoped t s ss scopes cond.errors at all)
              (λ first y.
                IfRuns-bind (ScopedFrom y.top ss first.errors) (ScopedFrom s ss e)
                  (analyze_statement atoll sa f first.current first.errors) _
                  (statement-Scoped f y.top ss first.current first.errors y.stacked y.complete)
                  (λ second n.
                    Scoped-after-and cond.accepted first.accepted second.accepted h y n)))
    statement-Scoped (while_stmt i c b) s ss scopes e at all =
        IfRuns-bind (AnalyzedReports e) (ScopedFrom s ss e)
          (analyze_expression atoll (at_scopes sa scopes) c e) _
          (expression-Reports atoll (at_scopes sa scopes) c e)
          (λ cond h.
            IfRuns-bind (ScopedFrom s ss cond.errors) (ScopedFrom s ss e)
              (analyze_statement atoll sa b scopes cond.errors) _
              (statement-Scoped b s ss scopes cond.errors at all)
              (λ body y. Scoped-after cond.accepted body.accepted h y))
    statement-Scoped (block i list) s ss scopes e at all =
        IfRuns-bind (ListScopedFrom empty_scope scopes e) (ScopedFrom s ss e)
          (analyze_statements atoll sa list (empty_scope ∷ scopes) e) _
          (statements-Scoped list empty_scope scopes (empty_scope ∷ scopes) e refl
            empty_scope-IsComplete)
          (λ inner h. block-Scoped s ss scopes e inner.errors inner.accepted inner.current at all h)
    statement-Scoped node s ss scopes e at all = effect-Scoped s ss scopes at all node e

    pub statements-Scoped :
        (list : Nodes) (s : Scope) (ss : List Scope) (scopes : List Scope) (e : ErrorContext)
        → scopes ≡ s ∷ ss
        → IsComplete s
        → IfRuns (ListScopedFrom s ss e) (analyze_statements atoll sa list scopes e)
    statements-Scoped nil s ss scopes e at all = Scoped-same s ss at all (Reports-refl e)
    statements-Scoped (cons x xs) s ss scopes e at all =
        IfRuns-bind (ScopedFrom s ss e) (ListScopedFrom s ss e)
          (analyze_statement atoll sa x scopes e) _ (statement-Scoped x s ss scopes e at all)
          (λ first h.
            IfRuns-bind (ListScopedFrom h.top ss first.errors) (ListScopedFrom s ss e)
              (analyze_statements atoll sa xs first.current first.errors) _
              (statements-Scoped xs h.top ss first.current first.errors h.stacked h.complete)
              (λ rest t. Scoped-and first.accepted rest.accepted h t))

  -- A block: when `analyze_statement` returns, the scopes are exactly those before the block.
  pub analyze_statement-block :
      (i : NodeInfo) (list : Nodes) (s : Scope) (ss : List Scope) (e : ErrorContext) (r : Checked)
      → analyze_statement atoll sa (block i list) (s ∷ ss) e ≡ ok r
      → r.current ≡ s ∷ ss
  unfolding analyze_statement semantic_scope_enter semantic_scope_exit
  analyze_statement-block i list s ss e r h =
      IfRuns-ok (λ (r : Checked). r.current ≡ s ∷ ss)
        (analyze_statement atoll sa (block i list) (s ∷ ss) e) r
        (IfRuns-bind (ListScopedFrom empty_scope (s ∷ ss) e) _
          (analyze_statements atoll sa list (empty_scope ∷ s ∷ ss) e) _
          (statements-Scoped list empty_scope (s ∷ ss) (empty_scope ∷ s ∷ ss) e refl
            empty_scope-IsComplete)
          (λ inner q. rw q.stacked refl))
        h
