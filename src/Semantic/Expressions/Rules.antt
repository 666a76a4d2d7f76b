-- ===== src/Semantic/Expressions/Rules.antt =====
-- The type rules of the language, and which conversions the analysis lets pass.
use Prim.Native.String.{String}
use mathlib.Core.Bool.{false≢true}
use tiny_compile.Prelude.{
  sym, ℕ, ◌≡◌, refl, ◌≢◌, ◌⊎◌, Bool, true, false, ◌&&◌, ◌||◌, Option, some, List, [], ◌∷◌,
  Bool-cases, inl, inr, if◌then◌else◌, IfRuns, IfRuns-any, IfRuns-if, ltb,
}
use tiny_compile.StringView.{StringView}
use tiny_compile.ErrorHandler.{ErrorContext}
use tiny_compile.Ast.Types.{DataType, type_eq, type_eq-eq, type_size, type_is_integer}
use tiny_compile.Ast.{
  BinaryOp, UnaryOp, NodeInfo, Parameter, Node, null, number, identifier, binary, unary, if_stmt,
  while_stmt, return_stmt, var_decl, assignment, block, function, translation_unit, call, Nodes,
  nil, cons, info, value_type,
}
use tiny_compile.Semantic.{VarInfo, FunctionInfo, SemanticAnalyzer}
use tiny_compile.Semantic.Scopes.{semantic_scope_lookup}
use tiny_compile.Semantic.Functions.{semantic_global_lookup_function}
use tiny_compile.Semantic.Constants.{evaluate_const_expression, check_type_compatibility}
use tiny_compile.Semantic.Expressions.{
  is_comparison, is_arithmetic, larger_type, at_least_int, number_type, contains,
}

-- the type of the result of an operator
unfoldable pub binary_type : BinaryOp → DataType → DataType → DataType
binary_type op left right =
    if is_comparison op
    then DataType.int64
    else if is_arithmetic op
    then larger_type left right
    else at_least_int left

unfoldable pub unary_type : UnaryOp → DataType → DataType
unary_type UnaryOp.not type = DataType.int64
unary_type UnaryOp.negate type = type
unary_type UnaryOp.bit_not type = type

-- A value of one type may stand where another is wanted: the types are the same, or neither is void.
unfoldable pub Converts : DataType → DataType → Type 0
Converts dest src = (dest ≡ src) ⊎ ((src ≢ DataType.void) × (dest ≢ DataType.void))

-- Trees of numbers, identifiers, operators and calls: without statements, without assignments, which
-- `analyze_expression` lets pass unseen, and without missing operands.
unfoldable mutual
  pub IsExpression : Node → Type 0
  IsExpression (number i text) = Unit
  IsExpression (identifier i name) = Unit
  IsExpression (binary op i l r) = IsExpression l × IsExpression r
  IsExpression (unary op i operand) = IsExpression operand
  IsExpression (call i name args) = AreExpressions args
  IsExpression node = ⊥

  pub AreExpressions : Nodes → Type 0
  AreExpressions nil = Unit
  AreExpressions (cons x xs) = IsExpression x × AreExpressions xs

module _ (atoll : StringView → ℕ) (sa : SemanticAnalyzer) where
  -- A tree of numbers, identifiers, operators and calls in which every name is declared, every call is to a visible function with the arguments that it wants,
  -- and every node has the type that the rules give it.
  unfoldable mutual
    pub IsTyped : Node → Type 0
    IsTyped (number i text) = i.value_type ≡ number_type (atoll text)
    IsTyped (identifier i name) =
        (var : VarInfo) × (semantic_scope_lookup sa.current name ≡ some var)
        × (i.value_type ≡ var.type)
    IsTyped (binary op i l r) =
        IsTyped l × IsTyped r × (i.value_type ≡ binary_type op (value_type l) (value_type r))
    IsTyped (unary op i operand) =
        IsTyped operand × (i.value_type ≡ unary_type op (value_type operand))
    IsTyped (call i name args) =
        (func : FunctionInfo) × (contains sa.visible_funcs name ≡ true)
        × (semantic_global_lookup_function sa.global name ≡ some func)
        × (i.value_type ≡ func.return_type)
        × AreTyped args func.params
    IsTyped node = ⊥

    pub AreTyped : Nodes → List Parameter → Type 0
    AreTyped nil [] = Unit
    AreTyped nil (param ∷ params) = ⊥
    AreTyped (cons x xs) [] = ⊥
    AreTyped (cons x xs) (param ∷ params) =
        IsTyped x × Converts param.type (value_type x) × AreTyped xs params

pub &&-left : (a b : Bool) → (a && b) ≡ true → a ≡ true
&&-left true b h = refl
&&-left false b h = h

pub &&-right : (a b : Bool) → (a && b) ≡ true → b ≡ true
&&-right true b h = h
&&-right false b h = cc

-- the type behind a pointer that is read
pub info-value_type : (n : Node) → IfRuns (λ (i : NodeInfo). i.value_type ≡ value_type n) (info n)
unfolding info value_type
info-value_type null = tt
info-value_type (number i _) = refl
info-value_type (identifier i _) = refl
info-value_type (binary _ i _ _) = refl
info-value_type (unary _ i _) = refl
info-value_type (if_stmt i _ _ _) = refl
info-value_type (while_stmt i _ _) = refl
info-value_type (return_stmt i _) = refl
info-value_type (var_decl i _ _ _) = refl
info-value_type (assignment i _ _) = refl
info-value_type (block i _) = refl
info-value_type (function i _ _) = refl
info-value_type (translation_unit i _) = refl
info-value_type (call i _ _) = refl

abbrev pub ConvertsIf : DataType → DataType → Bool × ErrorContext → Type 0
ConvertsIf dest src r = r.0 ≡ true → Converts dest src

neither : (a b : Bool) → (a || b) ≡ false → (a ≡ false) × (b ≡ false)
neither true b h = cc
neither false b h = (refl, h)

differs : (a : DataType) → type_eq a DataType.void ≡ false → a ≢ DataType.void
unfolding type_eq
differs a h q = false≢true (sym (rw q at h))

not_void :
    (src dest : DataType)
    → (type_eq src DataType.void || type_eq dest DataType.void) ≡ false
    → (src ≢ DataType.void) × (dest ≢ DataType.void)
not_void src dest h =
    let (s, d) = neither (type_eq src DataType.void) (type_eq dest DataType.void) h in
    (differs src s, differs dest d)

module _ (atoll : StringView → ℕ) where
  pub check_type_compatibility-Converts :
      (filename : Option String) (dest src : DataType) (node : Node) (e : ErrorContext)
      → IfRuns (ConvertsIf dest src) (check_type_compatibility atoll filename dest src node e)
  unfolding check_type_compatibility Converts
  check_type_compatibility-Converts filename dest src node e =
      elim (Bool-cases (type_eq dest src)) [
        | inl h ↦ rw h (λ _. inl (type_eq-eq dest src h))
        | inr h ↦
            rw h (elim (Bool-cases (type_eq src DataType.void || type_eq dest DataType.void)) [
              | inl k ↦ rw k (IfRuns-any _ (info node) _ λ i. λ q. cc)
              | inr k ↦ rw k (
                  IfRuns-if (type_is_integer dest && type_is_integer src) _ _ _
                    (IfRuns-if (ltb (type_size dest) (type_size src)) _ _ _
                      (IfRuns-any _ (evaluate_const_expression atoll node) _
                        λ val. IfRuns-any _ (info node) _ λ i. λ _. inr (not_void src dest k))
                      (λ _. inr (not_void src dest k)))
                    (IfRuns-any _ (info node) _ λ i. λ q. cc))
            ])
      ]
