-- ===== src/IrGen/Accepted/Composed.antt =====
-- Analysis, generation and meaning of an expression, one after the other.
use tiny_compile.Prelude.{ℕ, ◌+◌, ◌≤◌, ◌<◌, ◌≡◌, subst, true, Option, List, ok, arith}
use tiny_compile.StringView.{StringView}
use tiny_compile.ErrorHandler.{ErrorContext}
use tiny_compile.Ast.{Node}
use tiny_compile.Ir.{IrFunction, max_vregs_per_function}
use tiny_compile.SymbolTable.{SymbolTable}
use tiny_compile.Semantic.{SemanticAnalyzer}
use tiny_compile.Semantic.Expressions.{Analyzed, analyze_expression}
use tiny_compile.Semantic.Expressions.Typing.{analyze_expression-IsTyped}
use tiny_compile.Semantic.Expressions.Rules.{IsExpression}
use tiny_compile.IrGen.Expressions.{gen_expression}
use tiny_compile.IrGen.Correct.Compiled.{Compiled}
use tiny_compile.IrGen.Accepted.{vregs_needed, Yields}
use tiny_compile.IrGen.Accepted.Expression.{Covers, yields}
use tiny_compile.IrGen.Accepted.Shape.{analyze_expression-SameShape}

module _ (atoll : StringView → ℕ) (callee : StringView → List ℕ → Option ℕ) (sa : SemanticAnalyzer)
    (st : SymbolTable) where
  -- A tree of numbers, identifiers, operators and calls that `analyze_expression` accepts, in a generator
  -- that knows the declared variables and has a register for every node: `gen_expression` gives a register and not a failure.
  pub analyze_expression-gen_expression :
      (node : Node) (e : ErrorContext) (r : Analyzed) (f : IrFunction)
      → analyze_expression atoll sa node e ≡ ok r
      → r.accepted ≡ true
      → IsExpression node
      → Covers sa st
      → 0 < f.vreg_count
      → f.vreg_count + vregs_needed node ≤ max_vregs_per_function
      → Yields f (vregs_needed node) (gen_expression atoll st r.node f)
  analyze_expression-gen_expression node e r f h accepted x covers pos room =
      let same = analyze_expression-SameShape atoll sa node e r h in
      subst (λ n. Yields f n (gen_expression atoll st r.node f)) same.needs
        (yields atoll sa st covers r.node f (same.expression x)
          (analyze_expression-IsTyped atoll sa node e r x h accepted) pos
          (omega (arith, same.needs)))
