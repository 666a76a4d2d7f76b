-- ===== src/ErrorHandler.antt =====
-- incs/error_handler.h and srcs/error_handler/error_handler.c: the list of diagnostics and its
-- counters. A message is the format string of the call; printing is not modelled.
pub mod Counts
use Prim.Native.String.{String}
use tiny_compile.Prelude.{ℕ, ◌+◌, Bool, true, false, Option, List, [], ◌∷◌, ◌++◌, ltb}

pub data ErrorCategory : Type 0 where
  lexer parser semantic codegen system : ErrorCategory

pub data ErrorLevel : Type 0 where
  warning error fatal : ErrorLevel

pub record ErrorNode : Type 0 where
  pub category : ErrorCategory
  pub level : ErrorLevel
  pub message : String
  pub filename : Option String
  pub line : ℕ
  pub column : ℕ

pub record ErrorContext : Type 0 where
  pub nodes : List ErrorNode
  pub error_count : ℕ
  pub warning_count : ℕ

unfoldable pub error_context_init : ErrorContext
error_context_init = record { nodes = []; error_count = 0; warning_count = 0 }

-- `if (level == ERROR_LEVEL_WARNING) ctx->warning_count++; else ctx->error_count++;`
count_level : ErrorLevel → ErrorContext → ErrorContext
count_level warning ctx = record ctx { warning_count = ctx.warning_count + 1 }
count_level _ ctx = record ctx { error_count = ctx.error_count + 1 }

-- The node goes to the tail of the list.
unfoldable pub error_add :
    ErrorCategory → ErrorLevel → Option String → ℕ → ℕ → String → ErrorContext → ErrorContext
unfolding count_level
error_add category level filename line column message ctx =
    let node : ErrorNode = record {
      category = category;
      level = level;
      message = message;
      filename = filename;
      line = line;
      column = column;
    } in
    count_level level (record ctx { nodes = ctx.nodes ++ node ∷ [] })

unfoldable pub error_has_warnings : ErrorContext → Bool
error_has_warnings ctx = ltb 0 ctx.warning_count

unfoldable pub error_has_errors : ErrorContext → Bool
error_has_errors ctx = ltb 0 ctx.error_count

is_fatal : ErrorLevel → Bool
is_fatal fatal = true
is_fatal _ = false

has_fatal_from : List ErrorNode → Bool
unfolding is_fatal
has_fatal_from [] = false
has_fatal_from (curr ∷ next) = elim (is_fatal curr.level) [
  | true ↦ true
  | false ↦ has_fatal_from next
]

unfoldable pub error_has_fatal : ErrorContext → Bool
unfolding has_fatal_from
error_has_fatal ctx = has_fatal_from ctx.nodes
