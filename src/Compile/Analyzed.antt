-- ===== src/Compile/Analyzed.antt =====
-- The verdict of the analysis of all units.
use Prim.Native.String.{String}
use tiny_compile.Prelude.{Bool, true, Option, some, List, [], ◌∷◌}
use tiny_compile.StringView.{StringView}
use tiny_compile.ErrorHandler.{ErrorContext}
use tiny_compile.Ast.{Nodes}
use tiny_compile.Semantic.Expressions.Reports.{Reports}
use tiny_compile.Semantic.Functions.{DeclaredFunction}
use tiny_compile.Semantic.Units.Accepted.{AreFunctions}
use tiny_compile.Compile.{CompilationUnit, Analysis, CheckedUnits}

abbrev FunctionsIf : Bool → Option Nodes → Type 0
FunctionsIf true (some ns) = AreFunctions ns
FunctionsIf _ _ = Unit

-- All declarations of the parsed units are functions.
unfoldable pub HaveFunctions : List CompilationUnit → Type 0
HaveFunctions [] = Unit
HaveFunctions (unit ∷ units) = FunctionsIf unit.parsed_ok unit.ast × HaveFunctions units

abbrev DeclaresWith : ErrorContext → DeclaredFunction → Type 0
DeclaresWith e d = Reports d.accepted e d.errors

abbrev ChecksWith : ErrorContext → CheckedUnits → Type 0
ChecksWith e r = Reports r.accepted e r.errors

abbrev AnalysisReports : ErrorContext → Analysis → Type 0
AnalysisReports e r = Reports r.accepted e r.errors
