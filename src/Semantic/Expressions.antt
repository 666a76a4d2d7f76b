-- ===== src/Semantic/Expressions.antt =====
-- `analyze_expression` of srcs/semantic/semantic.c. The analysis gives back the tree with the types that
-- it has written into the nodes.
pub mod Rules
pub mod Typing
pub mod Reports
use tiny_compile.Prelude.{
  ℕ, zero, suc, ◌-◌, ◌^◌, Bool, true, false, not, ◌&&◌, ◌||◌, Option, none, some, List, [], ◌∷◌,
  ltb, leb, ◌==◌, if◌then◌else◌, length, Run, ok, stop, aborted, ◌>>=◌,
}
use Prim.Native.String.{String}
use tiny_compile.StringView.{StringView, sv_eq}
use tiny_compile.ErrorHandler.{ErrorContext}
use tiny_compile.Ast.Types.{DataType, type_size}
use tiny_compile.Ast.{
  BinaryOp, UnaryOp, NodeInfo, Parameter, Node, null, number, identifier, binary, unary, call,
  Nodes, nil, cons, info,
}
use tiny_compile.Word.{word_lt, word_mod}
use tiny_compile.Semantic.{VarInfo, FunctionInfo, SemanticAnalyzer, error_semantic}
use tiny_compile.Semantic.Scopes.{semantic_scope_lookup}
use tiny_compile.Semantic.Functions.{semantic_global_lookup_function}
use tiny_compile.Semantic.Constants.{check_type_compatibility, fits_signed}
use tiny_compile.IrGen.Expressions.{sv_to_int64}

-- the result, the node and the errors
pub record Analyzed : Type 0 where
  pub accepted : Bool
  pub node : Node
  pub errors : ErrorContext

pub record AnalyzedArgs : Type 0 where
  pub accepted : Bool
  pub nodes : Nodes
  pub errors : ErrorContext

-- `node->value_type = type`
abbrev pub with_type : NodeInfo → DataType → NodeInfo
with_type i type = record i { value_type = type }

-- `val >= INT_MIN && val <= INT_MAX`
abbrev pub number_type : ℕ → DataType
number_type val = if fits_signed 4 val then DataType.int else DataType.int64

-- the groups of the binary operators
abbrev pub is_arithmetic : BinaryOp → Bool
is_arithmetic BinaryOp.add = true
is_arithmetic BinaryOp.sub = true
is_arithmetic BinaryOp.mul = true
is_arithmetic BinaryOp.div = true
is_arithmetic _ = false

abbrev pub is_comparison : BinaryOp → Bool
is_comparison BinaryOp.equal = true
is_comparison BinaryOp.not_equal = true
is_comparison BinaryOp.less = true
is_comparison BinaryOp.less_equal = true
is_comparison BinaryOp.greater = true
is_comparison BinaryOp.greater_equal = true
is_comparison _ = false

abbrev pub larger_type : DataType → DataType → DataType
larger_type left right = if leb (type_size right) (type_size left) then left else right

abbrev pub at_least_int : DataType → DataType
at_least_int type = if ltb (type_size type) (type_size DataType.int) then DataType.int else type

-- the cases of a binary operator after both operands
abbrev pub finish_binary : BinaryOp → NodeInfo → Analyzed → Analyzed → Run Analyzed
finish_binary op i left right =
    let both = left.accepted && right.accepted in
    let done : Bool → DataType → Analyzed = λ accepted type. record {
      accepted = accepted;
      node = binary op (with_type i type) left.node right.node;
      errors = right.errors;
    } in
    if is_comparison op
    then ok (done both DataType.int64)
    else if not both
    then ok (done false i.value_type)
    else if is_arithmetic op
    then (info left.node >>= λ l.
        info right.node >>= λ r. ok (done true (larger_type l.value_type r.value_type)))
    else (info left.node >>= λ l. ok (done true (at_least_int l.value_type)))

-- the cases of a unary operator after the operand
abbrev pub finish_unary : UnaryOp → NodeInfo → Analyzed → Run Analyzed
finish_unary op i operand =
    let done : DataType → Analyzed = λ type. record {
      accepted = operand.accepted;
      node = unary op (with_type i type) operand.node;
      errors = operand.errors;
    } in
    elim op [
      | UnaryOp.not ↦ ok (done DataType.int64)
      | _ ↦
          if operand.accepted
          then (info operand.node >>= λ o. ok (done o.value_type))
          else ok (done i.value_type)
    ]

unfoldable pub count : Nodes → ℕ
count nil = 0
count (cons x xs) = suc (count xs)

-- whether a name is in an array
unfoldable pub contains : List StringView → StringView → Bool
contains [] name = false
contains (n ∷ names) name = if sv_eq n name then true else contains names name

-- The function that a call is to, or the message of the check that fails.
pub data Callee : Type 0 where
  rejected : String → Callee
  resolved : FunctionInfo → Callee

abbrev pub check_count : ℕ → Option FunctionInfo → Callee
check_count arg_count none = Callee.rejected "call to undefined function '%.*s'"
check_count arg_count (some func) =
    if not (arg_count == length func.params)
    then Callee.rejected "function '%.*s' expects %zu arguments, got %zu"
    else Callee.resolved func

unfoldable pub resolve_call : SemanticAnalyzer → StringView → ℕ → Callee
resolve_call sa name arg_count =
    if not (contains sa.visible_funcs name)
    then Callee.rejected "implicit declaration of function '%.*s' is invalid in tinyCompile"
    else check_count arg_count (semantic_global_lookup_function sa.global name)

-- an identifier after its lookup
abbrev pub analyze_identifier :
    Option String → NodeInfo → StringView → ErrorContext → Option VarInfo → Analyzed
analyze_identifier filename i name errors none = record {
  accepted = false;
  node = identifier i name;
  errors = error_semantic filename i.line i.column "use of undeclared identifier '%.*s'" errors;
}
analyze_identifier filename i name errors (some var) = record {
  accepted = true;
  node = identifier (with_type i var.type) name;
  errors = errors;
}

-- an argument, the check of its type, and the arguments after it
abbrev pub finish_arg : Analyzed → Bool × ErrorContext → AnalyzedArgs → AnalyzedArgs
finish_arg arg check rest = record {
  accepted = arg.accepted && check.0 && rest.accepted;
  nodes = cons arg.node rest.nodes;
  errors = rest.errors;
}

-- a call after its checks, with the loop over the arguments
abbrev pub analyze_call :
    Option String
    → NodeInfo
    → StringView
    → Nodes
    → ErrorContext
    → (List Parameter → Run AnalyzedArgs)
    → Callee
    → Run Analyzed
analyze_call filename i name args errors loop (Callee.rejected message) = ok (record {
  accepted = false;
  node = call i name args;
  errors = error_semantic filename i.line i.column message errors;
})
analyze_call filename i name args errors loop (Callee.resolved func) = loop func.params >>= λ rest.
    ok (record {
      accepted = rest.accepted;
      node = call (with_type i func.return_type) name rest.nodes;
      errors = rest.errors;
    })

module _ (atoll : StringView → ℕ) (sa : SemanticAnalyzer) where
  unfoldable mutual
    pub analyze_expression : Node → ErrorContext → Run Analyzed
    analyze_expression (number i text) errors = ok (record {
      accepted = true;
      node = number (with_type i (number_type (sv_to_int64 atoll text))) text;
      errors = errors;
    })
    analyze_expression (identifier i name) errors =
        ok (analyze_identifier sa.filename i name errors (semantic_scope_lookup sa.current name))
    analyze_expression (call i name args) errors =
        analyze_call sa.filename i name args errors (λ params. analyze_args args params errors)
          (resolve_call sa name (count args))
    analyze_expression (binary op i l r) errors = analyze_expression l errors >>= λ left.
        analyze_expression r left.errors >>= λ right. finish_binary op i left right
    analyze_expression (unary op i operand) errors =
        analyze_expression operand errors >>= finish_unary op i
    analyze_expression node errors = ok (record { accepted = true; node = node; errors = errors })

    -- The loop over the arguments and the parameters. (The numbers are equal: the last case, a read
    -- past the array of parameters, is not reached.)
    pub analyze_args : Nodes → List Parameter → ErrorContext → Run AnalyzedArgs
    analyze_args nil params errors = ok (record { accepted = true; nodes = nil; errors = errors })
    analyze_args (cons x xs) (param ∷ params) errors = analyze_expression x errors >>= λ arg.
        info arg.node >>= λ i.
        check_type_compatibility atoll sa.filename param.type i.value_type arg.node arg.errors
        >>= λ check. analyze_args xs params check.1 >>= λ rest. ok (finish_arg arg check rest)
    analyze_args (cons x xs) [] errors = stop aborted
