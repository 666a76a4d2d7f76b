-- ===== src/Semantic/Expressions/Typing.antt =====
-- `analyze_expression` of srcs/semantic/semantic.c against the type rules.
use mathlib.Core.Bool.{false≢true}
use tiny_compile.Prelude.{
  ℕ, ◌≡◌, refl, ◌∙◌, ap, ◌==◌, ==_iff, true, ◌&&◌, Option, none, some, List, [], ◌∷◌, arith,
  Bool-cases, inl, inr, Run, ok, IfRuns, IfRuns-bind, IfRuns-ok, length,
}
use tiny_compile.StringView.{StringView}
use tiny_compile.ErrorHandler.{ErrorContext}
use tiny_compile.Ast.{
  BinaryOp, UnaryOp, NodeInfo, Parameter, Node, null, number, identifier, binary, unary, if_stmt,
  while_stmt, return_stmt, var_decl, assignment, block, function, translation_unit, call, Nodes,
  nil, cons, info, value_type,
}
use tiny_compile.Semantic.{VarInfo, FunctionInfo, SemanticAnalyzer}
use tiny_compile.Semantic.Scopes.{semantic_scope_lookup}
use tiny_compile.Semantic.Functions.{semantic_global_lookup_function}
use tiny_compile.Semantic.Constants.{check_type_compatibility}
use tiny_compile.Semantic.Expressions.{
  Analyzed, AnalyzedArgs, is_comparison, is_arithmetic, contains, finish_binary, finish_unary,
  analyze_identifier, analyze_call, Callee, check_count, resolve_call, count, analyze_expression,
  analyze_args,
}
use tiny_compile.Semantic.Expressions.Rules.{
  IsExpression, AreExpressions, binary_type, unary_type, IsTyped, AreTyped, &&-left, &&-right,
  info-value_type, ConvertsIf, check_type_compatibility-Converts,
}

module _ (atoll : StringView → ℕ) (sa : SemanticAnalyzer) where
  abbrev TypedIf : Analyzed → Type 0
  TypedIf r = r.accepted ≡ true → IsTyped atoll sa r.node

  abbrev ArgsTypedIf : List Parameter → AnalyzedArgs → Type 0
  ArgsTypedIf params r = r.accepted ≡ true → AreTyped atoll sa r.nodes params

  finish_binary-IsTyped :
      (op : BinaryOp) (i : NodeInfo) (l r : Analyzed)
      → TypedIf l
      → TypedIf r
      → IfRuns TypedIf (finish_binary op i l r)
  unfolding IsTyped binary_type
  finish_binary-IsTyped op i l r h k = elim (Bool-cases (is_comparison op)) [
    | inl c ↦ rw c (λ q.
        (h (&&-left l.accepted r.accepted q), k (&&-right l.accepted r.accepted q), rw c refl))
    | inr c ↦ rw c (elim (Bool-cases (l.accepted && r.accepted)) [
      | inr b ↦ rw b (λ q. cc)
      | inl b ↦ rw b (elim (Bool-cases (is_arithmetic op)) [
        | inl a ↦ rw a (
            IfRuns-bind (λ (x : NodeInfo). x.value_type ≡ value_type l.node) _ (info l.node) _
              (info-value_type l.node)
              λ x p.
                IfRuns-bind (λ (y : NodeInfo). y.value_type ≡ value_type r.node) _ (info r.node) _
                  (info-value_type r.node)
                  λ y q. λ _. (
                    h (&&-left l.accepted r.accepted b),
                    k (&&-right l.accepted r.accepted b),
                    rw (c, a, p, q) refl,
                  ))
        | inr a ↦ rw a (
            IfRuns-bind (λ (x : NodeInfo). x.value_type ≡ value_type l.node) _ (info l.node) _
              (info-value_type l.node)
              λ x p. λ _. (
                h (&&-left l.accepted r.accepted b),
                k (&&-right l.accepted r.accepted b),
                rw (c, a, p) refl,
              ))
      ])
    ])
  ]

  finish_unary-IsTyped :
      (op : UnaryOp) (i : NodeInfo) (x : Analyzed)
      → TypedIf x
      → IfRuns TypedIf (finish_unary op i x)
  unfolding IsTyped unary_type
  finish_unary-IsTyped UnaryOp.not i x h = λ q. (h q, refl)
  finish_unary-IsTyped UnaryOp.negate i x h = elim (Bool-cases x.accepted) [
    | inl a ↦ rw a (
        IfRuns-bind (λ (o : NodeInfo). o.value_type ≡ value_type x.node) _ (info x.node) _
          (info-value_type x.node) λ o p. λ _. (h a, p))
    | inr a ↦ rw a (λ q. absurd (false≢true q))
  ]
  finish_unary-IsTyped UnaryOp.bit_not i x h = elim (Bool-cases x.accepted) [
    | inl a ↦ rw a (
        IfRuns-bind (λ (o : NodeInfo). o.value_type ≡ value_type x.node) _ (info x.node) _
          (info-value_type x.node) λ o p. λ _. (h a, p))
    | inr a ↦ rw a (λ q. absurd (false≢true q))
  ]

  analyze_identifier-IsTyped :
      (i : NodeInfo) (name : StringView) (e : ErrorContext) (o : Option VarInfo)
      → semantic_scope_lookup sa.current name ≡ o
      → TypedIf (analyze_identifier sa.filename i name e o)
  unfolding IsTyped
  analyze_identifier-IsTyped i name e none at = λ q. absurd (false≢true q)
  analyze_identifier-IsTyped i name e (some var) at = λ _. (var, at, refl)

  -- what the checks before the arguments of a call have found
  Called : StringView → ℕ → FunctionInfo → Type 0
  Called name n func =
      (contains sa.visible_funcs name ≡ true)
      × (semantic_global_lookup_function sa.global name ≡ some func)
      × (n ≡ length func.params)

  check_count-Called :
      (name : StringView) (n : ℕ) (func : FunctionInfo) (o : Option FunctionInfo)
      → contains sa.visible_funcs name ≡ true
      → semantic_global_lookup_function sa.global name ≡ o
      → check_count n o ≡ Callee.resolved func
      → Called name n func
  unfolding Called
  check_count-Called name n func none v at h = cc
  check_count-Called name n func (some f) v at h = elim (Bool-cases (n == length f.params)) [
    | inl c ↦
        let same : f ≡ func = cc (rw c at h) in
        (v, at ∙ ap some same, rw (← same) ((==_iff n (length f.params)).0 c))
    | inr c ↦ cc (rw c at h)
  ]

  resolve_call-Called :
      (name : StringView) (n : ℕ) (func : FunctionInfo)
      → resolve_call sa name n ≡ Callee.resolved func
      → Called name n func
  unfolding resolve_call
  resolve_call-Called name n func h = elim (Bool-cases (contains sa.visible_funcs name)) [
    | inl v ↦ check_count-Called name n func _ v refl (rw v at h)
    | inr v ↦ cc (rw v at h)
  ]

  analyze_call-IsTyped :
      (i : NodeInfo) (name : StringView) (args : Nodes) (e : ErrorContext)
      (loop : List Parameter → Run AnalyzedArgs) (callee : Callee)
      → resolve_call sa name (count args) ≡ callee
      → ((params : List Parameter)
          → count args ≡ length params
          → IfRuns (ArgsTypedIf params) (loop params))
      → IfRuns TypedIf (analyze_call sa.filename i name args e loop callee)
  unfolding IsTyped Called
  analyze_call-IsTyped i name args e loop (Callee.rejected message) at next =
      λ q. absurd (false≢true q)
  analyze_call-IsTyped i name args e loop (Callee.resolved func) at next =
      let (v, f, n) = resolve_call-Called name (count args) func at in
      IfRuns-bind (ArgsTypedIf func.params) TypedIf (loop func.params) _ (next func.params n)
        (λ rest h. λ q. (func, v, f, refl, h q))

  mutual
    unfolding analyze_expression IsTyped IsExpression count

    expression-IsTyped :
        (node : Node) (e : ErrorContext)
        → IsExpression node
        → IfRuns TypedIf (analyze_expression atoll sa node e)
    expression-IsTyped (number i text) e x = λ _. refl
    expression-IsTyped (identifier i name) e x =
        analyze_identifier-IsTyped i name e (semantic_scope_lookup sa.current name) refl
    expression-IsTyped (call i name args) e x =
        analyze_call-IsTyped i name args e (λ params. analyze_args atoll sa args params e)
          (resolve_call sa name (count args)) refl (λ params n. args-AreTyped args params e x n)
    expression-IsTyped (binary op i l r) e (x, y) =
        IfRuns-bind TypedIf TypedIf (analyze_expression atoll sa l e) _ (expression-IsTyped l e x)
          (λ left h.
            IfRuns-bind TypedIf TypedIf (analyze_expression atoll sa r left.errors) _
              (expression-IsTyped r left.errors y)
              (λ right k. finish_binary-IsTyped op i left right h k))
    expression-IsTyped (unary op i operand) e x =
        IfRuns-bind TypedIf TypedIf (analyze_expression atoll sa operand e) _
          (expression-IsTyped operand e x) (λ o h. finish_unary-IsTyped op i o h)
    expression-IsTyped null e x = elim x [ ]
    expression-IsTyped (if_stmt i c t f) e x = elim x [ ]
    expression-IsTyped (while_stmt i c b) e x = elim x [ ]
    expression-IsTyped (return_stmt i v) e x = elim x [ ]
    expression-IsTyped (var_decl i n t v) e x = elim x [ ]
    expression-IsTyped (assignment i n v) e x = elim x [ ]
    expression-IsTyped (block i l) e x = elim x [ ]
    expression-IsTyped (function i h b) e x = elim x [ ]
    expression-IsTyped (translation_unit i l) e x = elim x [ ]

    args-AreTyped :
        (list : Nodes) (params : List Parameter) (e : ErrorContext)
        → AreExpressions list
        → count list ≡ length params
        → IfRuns (ArgsTypedIf params) (analyze_args atoll sa list params e)
    args-AreTyped nil [] e x n = λ _. tt
    args-AreTyped nil (param ∷ params) e x n = absurd (omega arith)
    args-AreTyped (cons x xs) [] e (p, ps) n = tt
    args-AreTyped (cons x xs) (param ∷ params) e (form, forms) n =
        IfRuns-bind TypedIf (ArgsTypedIf (param ∷ params)) (analyze_expression atoll sa x e) _
          (expression-IsTyped x e form)
          (λ arg h.
            IfRuns-bind (λ (i : NodeInfo). i.value_type ≡ value_type arg.node) _ (info arg.node) _
              (info-value_type arg.node)
              (λ i p.
                IfRuns-bind (ConvertsIf param.type i.value_type) _
                  (check_type_compatibility atoll sa.filename param.type i.value_type arg.node
                    arg.errors)
                  _
                  (check_type_compatibility-Converts atoll sa.filename param.type i.value_type
                    arg.node arg.errors)
                  (λ check k.
                    IfRuns-bind (ArgsTypedIf params) _ (analyze_args atoll sa xs params check.1) _
                      (args-AreTyped xs params check.1 forms (omega arith))
                      (λ rest t. λ q.
                        let both = &&-left (arg.accepted && check.0) rest.accepted q in
                        (
                          h (&&-left arg.accepted check.0 both),
                          rw (← p) (k (&&-right arg.accepted check.0 both)),
                          t (&&-right (arg.accepted && check.0) rest.accepted q),
                        )))))

  pub analyze_expression-IsTyped :
      (node : Node) (e : ErrorContext) (r : Analyzed)
      → IsExpression node
      → analyze_expression atoll sa node e ≡ ok r
      → r.accepted ≡ true
      → IsTyped atoll sa r.node
  analyze_expression-IsTyped node e r x h =
      IfRuns-ok TypedIf (analyze_expression atoll sa node e) r (expression-IsTyped node e x) h
