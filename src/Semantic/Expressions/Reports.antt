-- ===== src/Semantic/Expressions/Reports.antt =====
-- The verdicts of the analysis of expressions against the count of errors.
use Prim.Native.String.{String}
use tiny_compile.Prelude.{
  ℕ, ◌≤◌, ◌<◌, ◌≡◌, refl, Bool, true, false, not, ◌&&◌, ◌||◌, Option, none, some, List, [], ◌∷◌,
  arith, Bool-cases, inl, inr, if◌then◌else◌, Run, ok, IfRuns, IfRuns-bind, IfRuns-any, IfRuns-if,
  IfRuns-ok, ltb,
}
use tiny_compile.StringView.{StringView}
use tiny_compile.ErrorHandler.{ErrorContext, ErrorCategory, ErrorLevel, error_add}
use tiny_compile.Ast.Types.{DataType, type_eq, type_size, type_is_integer}
use tiny_compile.Ast.{
  BinaryOp, UnaryOp, NodeInfo, Parameter, Node, null, number, identifier, binary, unary, if_stmt,
  while_stmt, return_stmt, var_decl, assignment, block, function, translation_unit, call, Nodes,
  nil, cons, info,
}
use tiny_compile.Semantic.{VarInfo, SemanticAnalyzer, error_semantic}
use tiny_compile.Semantic.Scopes.{semantic_scope_lookup}
use tiny_compile.Semantic.Constants.{
  safe_conversion, evaluate_const_expression, warn_unless, check_type_compatibility,
}
use tiny_compile.Semantic.Expressions.{
  Analyzed, AnalyzedArgs, is_comparison, is_arithmetic, finish_binary, finish_unary,
  analyze_identifier, analyze_call, Callee, resolve_call, count, analyze_expression, analyze_args,
}

-- The verdict is positive exactly when no error was added.
pub record Reports (accepted : Bool) (before after : ErrorContext) : Type 0 where
  pub grows : before.error_count ≤ after.error_count
  pub silent : accepted ≡ true → after.error_count ≡ before.error_count
  pub loud : accepted ≡ false → before.error_count < after.error_count

pub Reports-refl : (e : ErrorContext) → Reports true e e
Reports-refl e = record { grows = omega arith; silent = λ _. refl; loud = λ h. cc }

pub Reports-error :
    (filename : Option String) (line column : ℕ) (message : String) (e : ErrorContext)
    → Reports false e (error_semantic filename line column message e)
unfolding error_add
Reports-error filename line column message e = record {
  grows = omega arith;
  silent = λ h. cc;
  loud = λ _. omega arith;
}

Reports-warning :
    (filename : Option String) (line column : ℕ) (message : String) (e : ErrorContext)
    → Reports true e
        (error_add ErrorCategory.semantic ErrorLevel.warning filename line column message e)
unfolding error_add
Reports-warning filename line column message e = record {
  grows = omega arith;
  silent = λ _. refl;
  loud = λ h. cc;
}

pub Reports-and :
    (a b : Bool) {e f g : ErrorContext} → Reports a e f → Reports b f g → Reports (a && b) e g
Reports-and true b r s = record {
  grows = omega (arith, r.grows, s.grows);
  silent = λ h. omega (arith, r.silent refl, s.silent h);
  loud = λ h. omega (arith, r.grows, s.loud h);
}
Reports-and false b r s = record {
  grows = omega (arith, r.grows, s.grows);
  silent = λ h. cc;
  loud = λ h. omega (arith, r.loud refl, s.grows);
}

abbrev pub AnalyzedReports : ErrorContext → Analyzed → Type 0
AnalyzedReports e r = Reports r.accepted e r.errors

abbrev pub CheckReports : ErrorContext → Bool × ErrorContext → Type 0
CheckReports e r = Reports r.0 e r.1

abbrev ArgsReport : ErrorContext → AnalyzedArgs → Type 0
ArgsReport e r = Reports r.accepted e r.errors

analyze_identifier-Reports :
    (filename : Option String) (i : NodeInfo) (name : StringView) (e : ErrorContext)
    (o : Option VarInfo)
    → AnalyzedReports e (analyze_identifier filename i name e o)
analyze_identifier-Reports filename i name e none = Reports-error filename i.line i.column _ e
analyze_identifier-Reports filename i name e (some var) = Reports-refl e

-- the last test of a binary operator that is no comparison
both_case :
    (b arithmetic : Bool) (m n : Run Analyzed) (done : Analyzed) (e : ErrorContext)
    → (b ≡ false → AnalyzedReports e done)
    → (b ≡ true → IfRuns (AnalyzedReports e) m)
    → (b ≡ true → IfRuns (AnalyzedReports e) n)
    → IfRuns (AnalyzedReports e) (if not b then ok done else if arithmetic then m else n)
both_case false arithmetic m n done e p q r = p refl
both_case true true m n done e p q r = q refl
both_case true false m n done e p q r = r refl

finish_binary-Reports :
    (op : BinaryOp) (i : NodeInfo) (l r : Analyzed) (e : ErrorContext)
    → Reports (l.accepted && r.accepted) e r.errors
    → IfRuns (AnalyzedReports e) (finish_binary op i l r)
finish_binary-Reports op i l r e h = elim (Bool-cases (is_comparison op)) [
  | inl c ↦ rw c h
  | inr c ↦ rw c (
      both_case (l.accepted && r.accepted) (is_arithmetic op) _ _ _ e (λ b. rw b at h)
        (λ b. IfRuns-any _ (info l.node) _ λ x. IfRuns-any _ (info r.node) _ λ y. rw b at h)
        (λ b. IfRuns-any _ (info l.node) _ λ x. rw b at h))
]

module _ (atoll : StringView → ℕ) where
  warn_unless-Reports :
      (filename : Option String) (i : NodeInfo) (e : ErrorContext) (size : ℕ) (o : Option ℕ)
      → Reports true e (warn_unless atoll filename i e size o)
  warn_unless-Reports filename i e size none = Reports-warning filename i.line i.column _ e
  warn_unless-Reports filename i e size (some val) = elim (Bool-cases (safe_conversion size val)) [
    | inl h ↦ rw h (Reports-refl e)
    | inr h ↦ rw h (Reports-warning filename i.line i.column _ e)
  ]

  pub check_type_compatibility-Reports :
      (filename : Option String) (dest src : DataType) (node : Node) (e : ErrorContext)
      → IfRuns (CheckReports e) (check_type_compatibility atoll filename dest src node e)
  unfolding check_type_compatibility
  check_type_compatibility-Reports filename dest src node e =
      IfRuns-if (type_eq dest src) (CheckReports e) _ _ (Reports-refl e) (
        IfRuns-if (type_eq src DataType.void || type_eq dest DataType.void) (CheckReports e) _ _
          (IfRuns-any _ (info node) _ λ i. Reports-error filename i.line i.column _ e)
          (IfRuns-if (type_is_integer dest && type_is_integer src) (CheckReports e) _ _
            (IfRuns-if (ltb (type_size dest) (type_size src)) (CheckReports e) _ _
              (IfRuns-any _ (evaluate_const_expression atoll node) _ λ val.
                IfRuns-any _ (info node) _
                  λ i. warn_unless-Reports filename i e (type_size dest) val)
              (Reports-refl e))
            (IfRuns-any _ (info node) _ λ i. Reports-error filename i.line i.column _ e)))

finish_unary-Reports :
    (op : UnaryOp) (i : NodeInfo) (x : Analyzed) (e : ErrorContext)
    → AnalyzedReports e x
    → IfRuns (AnalyzedReports e) (finish_unary op i x)
finish_unary-Reports UnaryOp.not i x e h = h
finish_unary-Reports UnaryOp.negate i x e h = elim (Bool-cases x.accepted) [
  | inl a ↦ rw a (IfRuns-any _ (info x.node) _ λ o. rw a at h)
  | inr a ↦ rw a (rw a at h)
]
finish_unary-Reports UnaryOp.bit_not i x e h = elim (Bool-cases x.accepted) [
  | inl a ↦ rw a (IfRuns-any _ (info x.node) _ λ o. rw a at h)
  | inr a ↦ rw a (rw a at h)
]

analyze_call-Reports :
    (filename : Option String) (i : NodeInfo) (name : StringView) (args : Nodes) (e : ErrorContext)
    (loop : List Parameter → Run AnalyzedArgs) (callee : Callee)
    → ((params : List Parameter) → IfRuns (ArgsReport e) (loop params))
    → IfRuns (AnalyzedReports e) (analyze_call filename i name args e loop callee)
analyze_call-Reports filename i name args e loop (Callee.rejected message) next =
    Reports-error filename i.line i.column message e
analyze_call-Reports filename i name args e loop (Callee.resolved func) next =
    IfRuns-bind (ArgsReport e) _ (loop func.params) _ (next func.params) (λ rest h. h)

module _ (atoll : StringView → ℕ) (sa : SemanticAnalyzer) where
  mutual
    unfolding analyze_expression

    pub expression-Reports :
        (node : Node) (e : ErrorContext)
        → IfRuns (AnalyzedReports e) (analyze_expression atoll sa node e)
    expression-Reports (number i text) e = Reports-refl e
    expression-Reports (identifier i name) e =
        analyze_identifier-Reports sa.filename i name e (semantic_scope_lookup sa.current name)
    expression-Reports (call i name args) e =
        analyze_call-Reports sa.filename i name args e
          (λ params. analyze_args atoll sa args params e) (resolve_call sa name (count args))
          (λ params. args-Report args params e)
    expression-Reports (binary op i l r) e =
        IfRuns-bind (AnalyzedReports e) _ (analyze_expression atoll sa l e) _
          (expression-Reports l e)
          (λ left h.
            IfRuns-bind (AnalyzedReports left.errors) _ (analyze_expression atoll sa r left.errors)
              _ (expression-Reports r left.errors)
              (λ right k.
                finish_binary-Reports op i left right e
                  (Reports-and left.accepted right.accepted h k)))
    expression-Reports (unary op i operand) e =
        IfRuns-bind (AnalyzedReports e) _ (analyze_expression atoll sa operand e) _
          (expression-Reports operand e) (λ x h. finish_unary-Reports op i x e h)
    expression-Reports null e = Reports-refl e
    expression-Reports (if_stmt i c t f) e = Reports-refl e
    expression-Reports (while_stmt i c b) e = Reports-refl e
    expression-Reports (return_stmt i v) e = Reports-refl e
    expression-Reports (var_decl i n t v) e = Reports-refl e
    expression-Reports (assignment i n v) e = Reports-refl e
    expression-Reports (block i l) e = Reports-refl e
    expression-Reports (function i h b) e = Reports-refl e
    expression-Reports (translation_unit i l) e = Reports-refl e

    args-Report :
        (list : Nodes) (params : List Parameter) (e : ErrorContext)
        → IfRuns (ArgsReport e) (analyze_args atoll sa list params e)
    args-Report nil params e = Reports-refl e
    args-Report (cons x xs) [] e = tt
    args-Report (cons x xs) (param ∷ params) e =
        IfRuns-bind (AnalyzedReports e) _ (analyze_expression atoll sa x e) _
          (expression-Reports x e)
          (λ arg h. IfRuns-any _ (info arg.node) _ (λ i.
            IfRuns-bind (CheckReports arg.errors) _
              (check_type_compatibility atoll sa.filename param.type i.value_type arg.node
                arg.errors)
              _
              (check_type_compatibility-Reports atoll sa.filename param.type i.value_type arg.node
                arg.errors)
              (λ check k.
                IfRuns-bind (ArgsReport check.1) _ (analyze_args atoll sa xs params check.1) _
                  (args-Report xs params check.1)
                  (λ rest q.
                    Reports-and (arg.accepted && check.0) rest.accepted
                      (Reports-and arg.accepted check.0 h k) q))))

  -- Whatever the expression is, when `analyze_expression` returns, it accepts exactly when it has
  -- added no error; its warnings do not count.
  pub analyze_expression-Reports :
      (node : Node) (e : ErrorContext) (r : Analyzed)
      → analyze_expression atoll sa node e ≡ ok r
      → Reports r.accepted e r.errors
  analyze_expression-Reports node e r h =
      IfRuns-ok (AnalyzedReports e) (analyze_expression atoll sa node e) r
        (expression-Reports node e) h
