-- ===== src/ErrorHandler/Counts.antt =====
-- The counters of the error context against the list of its nodes.
use Prim.Native.String.{String}
use tiny_compile.Prelude.{ℕ, ◌+◌, ◌≡◌, refl, true, Option, List, [], ◌∷◌, ◌++◌, arith, ◌<◌}
use tiny_compile.ErrorHandler.{
  ErrorCategory, ErrorLevel, warning, error, fatal, ErrorNode, ErrorContext, error_context_init,
  error_add, error_has_errors, has_fatal_from, error_has_fatal,
}

-- how many nodes are warnings, and how many are not
pub warnings : List ErrorNode → ℕ
warnings [] = 0
warnings (n ∷ ns) = elim n.level [ warning ↦ warnings ns + 1 | _ ↦ warnings ns ]

pub failures : List ErrorNode → ℕ
failures [] = 0
failures (n ∷ ns) = elim n.level [ warning ↦ failures ns | _ ↦ failures ns + 1 ]

pub record IsCounted (ctx : ErrorContext) : Type 0 where
  pub errors : ctx.error_count ≡ failures ctx.nodes
  pub warned : ctx.warning_count ≡ warnings ctx.nodes

warnings-append : (xs ys : List ErrorNode) → warnings (xs ++ ys) ≡ warnings xs + warnings ys
unfolding warnings
warnings-append [] ys = omega arith
warnings-append (n ∷ xs) ys = ground (arith, warnings-append xs ys)

failures-append : (xs ys : List ErrorNode) → failures (xs ++ ys) ≡ failures xs + failures ys
unfolding failures
failures-append [] ys = omega arith
failures-append (n ∷ xs) ys = ground (arith, failures-append xs ys)

pub init-IsCounted : IsCounted error_context_init
unfolding error_context_init warnings failures
init-IsCounted = record { errors = refl; warned = refl }

-- Every diagnostic is counted once, under its level.
pub error_add-IsCounted :
    (category : ErrorCategory) (level : ErrorLevel) (filename : Option String) (line column : ℕ)
    (message : String) (ctx : ErrorContext)
    → IsCounted ctx
    → IsCounted (error_add category level filename line column message ctx)
unfolding error_add warnings failures
error_add-IsCounted category warning filename line column message ctx v = record {
  errors = rw failures-append (ground arith);
  warned = rw warnings-append (ground arith);
}
error_add-IsCounted category error filename line column message ctx v = record {
  errors = rw failures-append (ground arith);
  warned = rw warnings-append (ground arith);
}
error_add-IsCounted category fatal filename line column message ctx v = record {
  errors = rw failures-append (ground arith);
  warned = rw warnings-append (ground arith);
}

fatal-failures : (ns : List ErrorNode) → has_fatal_from ns ≡ true → 0 < failures ns
unfolding has_fatal_from failures
fatal-failures [] h = cc
fatal-failures (n ∷ ns) h = ground (arith, fatal-failures ns)

-- In a counted context a fatal diagnostic is also reported by `error_has_errors`.
pub fatal-errors :
    (ctx : ErrorContext) → IsCounted ctx → error_has_fatal ctx ≡ true → error_has_errors ctx ≡ true
unfolding error_has_fatal error_has_errors
fatal-errors ctx v h = ground (arith, fatal-failures ctx.nodes)
