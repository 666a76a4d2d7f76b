-- ===== src/Semantic/Units/Accepted.antt =====
-- The verdict of the analysis of a compilation unit.
use Prim.Native.String.{String}
use tiny_compile.Prelude.{ℕ, ◌≡◌, List}
use tiny_compile.StringView.{StringView}
use tiny_compile.ErrorHandler.{ErrorContext}
use tiny_compile.Ast.{NodeInfo, FunctionHeader, Node, function, Nodes, nil, cons}
use tiny_compile.Semantic.{Scope, SemanticAnalyzer}
use tiny_compile.Semantic.Expressions.Reports.{Reports}
use tiny_compile.Semantic.Statements.{CheckedList}
use tiny_compile.Semantic.Statements.Scoped.{Scoped}
use tiny_compile.Semantic.Units.{AnalyzedNode}

-- All declarations of a unit are functions.
pub data AreFunctions : Nodes → Type 0 where
  none_left : AreFunctions nil
  next :
      {ns : Nodes} (i : NodeInfo) (header : FunctionHeader) (body : Node)
      → AreFunctions ns
      → AreFunctions (cons (function i header body) ns)

module _ (atoll : StringView → ℕ) where
  -- the verdict on a node, and the scopes after it
  abbrev NodeReports : SemanticAnalyzer → ErrorContext → AnalyzedNode → Type 0
  NodeReports sa e r = Reports r.accepted e r.errors × (r.sa.current ≡ sa.current)

  abbrev UnitReports : List Scope → ErrorContext → CheckedList → Type 0
  UnitReports scopes e r = Reports r.accepted e r.errors × (r.current ≡ scopes)
