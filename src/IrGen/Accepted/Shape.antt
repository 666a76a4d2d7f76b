-- ===== src/IrGen/Accepted/Shape.antt =====
-- The tree before and after `analyze_expression` of srcs/semantic/semantic.c.
use tiny_compile.Prelude.{
  ℕ, ◌≡◌, refl, not, ◌&&◌, Option, none, some, List, [], ◌∷◌, arith, Run, ok, IfRuns, IfRuns-bind,
  IfRuns-any, IfRuns-if, IfRuns-ok,
}
use tiny_compile.StringView.{StringView}
use tiny_compile.ErrorHandler.{ErrorContext}
use tiny_compile.Ast.{
  BinaryOp, UnaryOp, NodeInfo, Parameter, Node, null, number, identifier, binary, unary, if_stmt,
  while_stmt, return_stmt, var_decl, assignment, block, function, translation_unit, call, Nodes,
  nil, cons, info,
}
use tiny_compile.Semantic.{VarInfo, SemanticAnalyzer}
use tiny_compile.Semantic.Scopes.{semantic_scope_lookup}
use tiny_compile.Semantic.Constants.{check_type_compatibility}
use tiny_compile.Semantic.Expressions.{
  Analyzed, AnalyzedArgs, is_comparison, is_arithmetic, finish_binary, finish_unary,
  analyze_identifier, analyze_call, Callee, resolve_call, count, analyze_expression, analyze_args,
}
use tiny_compile.Semantic.Expressions.Rules.{IsExpression, AreExpressions}
use tiny_compile.IrGen.Accepted.{vregs_needed, args_needed}

-- An expression stays one, and needs the same registers.
pub record SameShape (node node' : Node) : Type 0 where
  pub expression : IsExpression node → IsExpression node'
  pub needs : vregs_needed node' ≡ vregs_needed node

record SameShapes (list list' : Nodes) : Type 0 where
  expressions : AreExpressions list → AreExpressions list'
  needs : args_needed list' ≡ args_needed list

SameShape-refl : (node : Node) → SameShape node node
SameShape-refl node = record { expression = λ x. x; needs = refl }

abbrev KeepsShape : Node → Analyzed → Type 0
KeepsShape node r = SameShape node r.node

abbrev KeepsShapes : Nodes → AnalyzedArgs → Type 0
KeepsShapes list r = SameShapes list r.nodes

retyped_binary :
    (op : BinaryOp) (i j : NodeInfo) (l r l' r' : Node)
    → SameShape l l'
    → SameShape r r'
    → SameShape (binary op i l r) (binary op j l' r')
unfolding IsExpression vregs_needed
retyped_binary op i j l r l' r' a b = record {
  expression = λ x. (a.expression x.0, b.expression x.1);
  needs = omega (arith, a.needs, b.needs);
}

retyped_unary :
    (op : UnaryOp) (i j : NodeInfo) (x x' : Node)
    → SameShape x x'
    → SameShape (unary op i x) (unary op j x')
unfolding IsExpression vregs_needed
retyped_unary op i j x x' a = record {
  expression = λ h. a.expression h;
  needs = omega (arith, a.needs);
}

retyped_call :
    (i j : NodeInfo) (name : StringView) (list list' : Nodes)
    → SameShapes list list'
    → SameShape (call i name list) (call j name list')
unfolding IsExpression vregs_needed
retyped_call i j name list list' a = record {
  expression = λ h. a.expressions h;
  needs = omega (arith, a.needs);
}

finish_binary-KeepsShape :
    (op : BinaryOp) (i : NodeInfo) (l r : Node) (left right : Analyzed)
    → KeepsShape l left
    → KeepsShape r right
    → IfRuns (KeepsShape (binary op i l r)) (finish_binary op i left right)
finish_binary-KeepsShape op i l r left right a b =
    let same : (j : NodeInfo) → SameShape (binary op i l r) (binary op j left.node right.node) =
      λ j. retyped_binary op i j l r left.node right.node a b in
    IfRuns-if (is_comparison op) (KeepsShape (binary op i l r)) _ _ (same _) (
      IfRuns-if (not (left.accepted && right.accepted)) (KeepsShape (binary op i l r)) _ _ (same _)
        (IfRuns-if (is_arithmetic op) (KeepsShape (binary op i l r)) _ _
          (IfRuns-any _ (info left.node) _ λ x. IfRuns-any _ (info right.node) _ λ y. same _)
          (IfRuns-any _ (info left.node) _ λ x. same _)))

finish_unary-KeepsShape :
    (op : UnaryOp) (i : NodeInfo) (x : Node) (operand : Analyzed)
    → KeepsShape x operand
    → IfRuns (KeepsShape (unary op i x)) (finish_unary op i operand)
finish_unary-KeepsShape UnaryOp.not i x operand a = retyped_unary _ i _ x operand.node a
finish_unary-KeepsShape UnaryOp.negate i x operand a =
    IfRuns-if operand.accepted (KeepsShape (unary UnaryOp.negate i x)) _ _
      (IfRuns-any _ (info operand.node) _ λ o. retyped_unary _ i _ x operand.node a)
      (retyped_unary _ i _ x operand.node a)
finish_unary-KeepsShape UnaryOp.bit_not i x operand a =
    IfRuns-if operand.accepted (KeepsShape (unary UnaryOp.bit_not i x)) _ _
      (IfRuns-any _ (info operand.node) _ λ o. retyped_unary _ i _ x operand.node a)
      (retyped_unary _ i _ x operand.node a)

analyze_identifier-KeepsShape :
    (sa : SemanticAnalyzer) (i : NodeInfo) (name : StringView) (e : ErrorContext)
    (o : Option VarInfo)
    → KeepsShape (identifier i name) (analyze_identifier sa.filename i name e o)
unfolding IsExpression vregs_needed
analyze_identifier-KeepsShape sa i name e none = SameShape-refl (identifier i name)
analyze_identifier-KeepsShape sa i name e (some var) = record { expression = λ x. x; needs = refl }

analyze_call-KeepsShape :
    (sa : SemanticAnalyzer) (i : NodeInfo) (name : StringView) (list : Nodes) (e : ErrorContext)
    (loop : List Parameter → Run AnalyzedArgs) (callee : Callee)
    → ((params : List Parameter) → IfRuns (KeepsShapes list) (loop params))
    → IfRuns (KeepsShape (call i name list)) (analyze_call sa.filename i name list e loop callee)
analyze_call-KeepsShape sa i name list e loop (Callee.rejected message) next =
    SameShape-refl (call i name list)
analyze_call-KeepsShape sa i name list e loop (Callee.resolved func) next =
    IfRuns-bind (KeepsShapes list) (KeepsShape (call i name list)) (loop func.params) _
      (next func.params) (λ rest h. retyped_call i _ name list rest.nodes h)

module _ (atoll : StringView → ℕ) (sa : SemanticAnalyzer) where
  mutual
    unfolding analyze_expression IsExpression vregs_needed

    keeps_shape :
        (node : Node) (e : ErrorContext)
        → IfRuns (KeepsShape node) (analyze_expression atoll sa node e)
    keeps_shape (number i text) e = record { expression = λ x. x; needs = refl }
    keeps_shape (identifier i name) e =
        analyze_identifier-KeepsShape sa i name e (semantic_scope_lookup sa.current name)
    keeps_shape (call i name args) e =
        analyze_call-KeepsShape sa i name args e (λ params. analyze_args atoll sa args params e)
          (resolve_call sa name (count args)) (λ params. keep_shapes args params e)
    keeps_shape (binary op i l r) e =
        IfRuns-bind (KeepsShape l) (KeepsShape (binary op i l r)) (analyze_expression atoll sa l e)
          _ (keeps_shape l e)
          (λ left h.
            IfRuns-bind (KeepsShape r) (KeepsShape (binary op i l r))
              (analyze_expression atoll sa r left.errors) _ (keeps_shape r left.errors)
              (λ right k. finish_binary-KeepsShape op i l r left right h k))
    keeps_shape (unary op i x) e =
        IfRuns-bind (KeepsShape x) (KeepsShape (unary op i x)) (analyze_expression atoll sa x e) _
          (keeps_shape x e) (λ operand h. finish_unary-KeepsShape op i x operand h)
    keeps_shape null e = SameShape-refl null
    keeps_shape (if_stmt i c t f) e = SameShape-refl (if_stmt i c t f)
    keeps_shape (while_stmt i c b) e = SameShape-refl (while_stmt i c b)
    keeps_shape (return_stmt i v) e = SameShape-refl (return_stmt i v)
    keeps_shape (var_decl i n t v) e = SameShape-refl (var_decl i n t v)
    keeps_shape (assignment i n v) e = SameShape-refl (assignment i n v)
    keeps_shape (block i l) e = SameShape-refl (block i l)
    keeps_shape (function i h b) e = SameShape-refl (function i h b)
    keeps_shape (translation_unit i l) e = SameShape-refl (translation_unit i l)

    keep_shapes :
        (list : Nodes) (params : List Parameter) (e : ErrorContext)
        → IfRuns (KeepsShapes list) (analyze_args atoll sa list params e)
    keep_shapes nil params e = record { expressions = λ x. x; needs = refl }
    keep_shapes (cons x xs) [] e = tt
    keep_shapes (cons x xs) (param ∷ params) e =
        IfRuns-bind (KeepsShape x) (KeepsShapes (cons x xs)) (analyze_expression atoll sa x e) _
          (keeps_shape x e)
          (λ arg h. IfRuns-any _ (info arg.node) _ (λ i.
            IfRuns-any _
              (check_type_compatibility atoll sa.filename param.type i.value_type arg.node
                arg.errors)
              _
              (λ check.
                IfRuns-bind (KeepsShapes xs) (KeepsShapes (cons x xs))
                  (analyze_args atoll sa xs params check.1) _ (keep_shapes xs params check.1)
                  (λ rest t. record {
                    expressions = λ q. (h.expression q.0, t.expressions q.1);
                    needs = omega (arith, h.needs, t.needs);
                  }))))

  pub analyze_expression-SameShape :
      (node : Node) (e : ErrorContext) (r : Analyzed)
      → analyze_expression atoll sa node e ≡ ok r
      → SameShape node r.node
  analyze_expression-SameShape node e r h =
      IfRuns-ok (KeepsShape node) (analyze_expression atoll sa node e) r (keeps_shape node e) h
