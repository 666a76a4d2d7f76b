-- ===== src/Semantic/Functions/Laws.antt =====
-- The registry of functions as a map from names: what a declaration does to it, on every branch.
use mathlib.Core.Bool.{false≢true}
use Prim.Native.String.{String}
use tiny_compile.Prelude.{
  ℕ, ◌≤◌, ◌≡◌, refl, sym, ◌∙◌, ◌≢◌, ◌⊎◌, Bool, true, false, not, Option, none, some, [], ◌∷◌, ◌++◌,
  arith, Bool-cases, inl, inr, ltb, leb, ◌==◌, ==_iff, length, if◌then◌else◌,
}
use tiny_compile.StringView.{StringView, sv_eq_ne, sv_eq_refl}
use tiny_compile.ErrorHandler.{ErrorContext}
use tiny_compile.Ast.Types.{type_eq, type_eq-eq}
use tiny_compile.Ast.{FunctionHeader, NodeInfo, Node, function}
use tiny_compile.Semantic.{
  FunctionInfo, GlobalScope, max_params_per_function, max_function_count, error_semantic,
}
use tiny_compile.Semantic.Functions.{
  semantic_global_lookup_function, DeclaredFunction, function_info, complete_function,
  update_function, redeclare_function, declare_function_at, declare_header,
  semantic_global_declare_function,
}
use tiny_compile.Semantic.Expressions.Reports.{Reports, Reports-refl, Reports-error}
use tiny_compile.Semantic.Functions.Writes.{
  or_else-none, lookup-append, lookup-update_self, lookup-update_other,
}
use tiny_compile.Semantic.Functions.Bounds.{FitsIn, header-FitsIn}

-- What an accepted declaration leaves: the name is bound to a function of the declared type and number
-- of parameters, which is a prototype only if the declaration is one and it was not defined before;
-- every other name is bound as before.
pub record Registers (g : GlobalScope) (header : FunctionHeader) (errors : ErrorContext)
    (d : DeclaredFunction) : Type 0 where
  pub func : FunctionInfo
  pub bound : semantic_global_lookup_function d.global header.name ≡ some func
  pub typed : func.return_type ≡ header.return_type
  pub arity : length func.params ≡ length header.params
  pub defined : header.is_prototype ≡ false → func.is_prototype ≡ false
  pub others :
      (m : StringView)
      → header.name ≢ m
      → semantic_global_lookup_function d.global m ≡ semantic_global_lookup_function g m
  pub silent : d.errors ≡ errors

module _ (g : GlobalScope) (e : ErrorContext) (line : ℕ) (filename : Option String) where
  -- A declaration is registered, or it is refused with an error and the functions stay.
  pub Outcome : FunctionHeader → DeclaredFunction → Type 0
  Outcome header d =
      ((d.accepted ≡ true) × Registers g header e d)
      ⊎ ((d.accepted ≡ false) × (d.global ≡ g) × Reports false e d.errors)

  refused :
      (header : FunctionHeader) (message : String)
      → Outcome header (record {
        accepted = false;
        global = g;
        errors = error_semantic filename line 0 message e;
      })
  unfolding Outcome
  refused header message = inr (refl, refl, Reports-error filename line 0 message e)

  module _ (header : FunctionHeader) (x : FunctionInfo)
      (at : semantic_global_lookup_function g header.name ≡ some x)
      (t : x.return_type ≡ header.return_type) (n : length x.params ≡ length header.params) where
    -- The declaration adds nothing new.
    kept :
        (header.is_prototype ≡ false → x.is_prototype ≡ false)
        → Registers g header e (record { accepted = true; global = g; errors = e })
    kept d = record {
      func = x;
      bound = at;
      typed = t;
      arity = n;
      defined = d;
      others = λ m ne. refl;
      silent = refl;
    }

    -- The definition of a prototype.
    completed : Registers g header e (record {
      accepted = true;
      global = update_function (complete_function header line filename) g header.name;
      errors = e;
    })
    completed = record {
      func = complete_function header line filename x;
      bound =
          lookup-update_self (complete_function header line filename) g header.name x (λ y. refl)
            at;
      typed = t;
      arity = refl;
      defined = λ _. refl;
      others = λ m ne.
          lookup-update_other (complete_function header line filename) g header.name m (λ y. refl)
            ne;
      silent = refl;
    }

    prototypes :
        (p d : Bool) (message : String)
        → x.is_prototype ≡ p
        → header.is_prototype ≡ d
        → Outcome header (
            if p
            then (if not d
                then (record {
                  accepted = true;
                  global = update_function (complete_function header line filename) g header.name;
                  errors = e;
                })
                else (record { accepted = true; global = g; errors = e }))
            else if not d
            then (record {
              accepted = false;
              global = g;
              errors = error_semantic filename line 0 message e;
            })
            else (record { accepted = true; global = g; errors = e }))
    unfolding Outcome
    prototypes true false message p d = inl (refl, completed)
    prototypes true true message p d = inl (refl, kept (λ q. cc))
    prototypes false false message p d = refused header message
    prototypes false true message p d = inl (refl, kept (λ q. p))

  redeclare-Outcome :
      (header : FunctionHeader) (x : FunctionInfo)
      → semantic_global_lookup_function g header.name ≡ some x
      → Outcome header (redeclare_function g e line filename header x)
  redeclare-Outcome header x at = elim (Bool-cases (type_eq x.return_type header.return_type)) [
    | inr t ↦ rw t (refused header _)
    | inl t ↦ rw t (elim (Bool-cases (length x.params == length header.params)) [
      | inr n ↦ rw n (refused header _)
      | inl n ↦ rw n (
          prototypes header x at (type_eq-eq _ _ t) ((==_iff _ _).0 n) x.is_prototype
            header.is_prototype _ refl refl)
    ])
  ]

  abbrev with_new : FunctionHeader → GlobalScope
  with_new header = g ++ function_info header line filename ∷ []

  -- A name that is not there.
  appended :
      (header : FunctionHeader)
      → semantic_global_lookup_function g header.name ≡ none
      → Registers g header e (record { accepted = true; global = with_new header; errors = e })
  appended header at = record {
    func = function_info header line filename;
    bound = lookup-append g _ header.name ∙ rw (at, sv_eq_refl header.name) refl;
    typed = refl;
    arity = refl;
    defined = λ d. d;
    others = λ m ne. lookup-append g _ m ∙ rw (sv_eq_ne header.name m ne) (or_else-none _);
    silent = refl;
  }

  declare_at-Outcome :
      (header : FunctionHeader) (o : Option FunctionInfo)
      → semantic_global_lookup_function g header.name ≡ o
      → Outcome header (declare_function_at g e line filename header o)
  unfolding Outcome
  declare_at-Outcome header (some x) at = redeclare-Outcome header x at
  declare_at-Outcome header none at = elim (Bool-cases (leb max_function_count (length g))) [
    | inl full ↦ rw full (refused header _)
    | inr room ↦ rw room (inl (refl, appended header at))
  ]

  header-Outcome :
      (header : FunctionHeader) → Outcome header (declare_header g e line filename header)
  unfolding declare_header
  header-Outcome header = elim (Bool-cases (ltb max_params_per_function (length header.params))) [
    | inl many ↦ rw many (refused header _)
    | inr few ↦ rw few (declare_at-Outcome header _ refl)
  ]

-- On a function and a registry within its array, `semantic_global_declare_function` either accepts the
-- function, reports nothing, and the name is then bound to a function of that return type and number
-- of parameters, defined if this is a definition, while every other name is bound as before; or it
-- refuses the function, reports an error, and the registry is unchanged. It stays within its array.
pub semantic_global_declare_function-Outcome :
    (g : GlobalScope) (e : ErrorContext) (i : NodeInfo) (header : FunctionHeader) (body : Node)
    (filename : Option String)
    → length g ≤ max_function_count
    → Outcome g e i.line filename header
        (semantic_global_declare_function g e (function i header body) filename)
      × (length (semantic_global_declare_function g e (function i header body) filename).global
          ≤ max_function_count)
unfolding semantic_global_declare_function FitsIn
semantic_global_declare_function-Outcome g e i header body filename h =
    (header-Outcome g e i.line filename header, header-FitsIn g e i.line filename header h)

redefined :
    (g : GlobalScope) (e : ErrorContext) (line : ℕ) (filename : Option String)
    (header : FunctionHeader) (x : FunctionInfo)
    → semantic_global_lookup_function g header.name ≡ some x
    → x.is_prototype ≡ false
    → header.is_prototype ≡ false
    → (declare_header g e line filename header).accepted ≡ false
unfolding declare_header
redefined g e line filename header x at p d = ground arith

-- Once a definition of a function has been accepted, a second definition of the same name is refused,
-- in this file or in another, whatever its type is.
pub semantic_global_declare_function-redefinition :
    (g : GlobalScope) (e : ErrorContext) (i j : NodeInfo) (header again : FunctionHeader)
    (body other : Node) (filename other_file : Option String)
    → header.is_prototype ≡ false
    → again.is_prototype ≡ false
    → again.name ≡ header.name
    → (semantic_global_declare_function g e (function i header body) filename).accepted ≡ true
    → (semantic_global_declare_function
        (semantic_global_declare_function g e (function i header body) filename).global
        (semantic_global_declare_function g e (function i header body) filename).errors
        (function j again other)
        other_file).accepted
      ≡ false
unfolding semantic_global_declare_function Outcome
semantic_global_declare_function-redefinition g e i j header again body other filename other_file d
      d' same ok =
    elim (header-Outcome g e i.line filename header) [
      | inr (refused_first, _, _) ↦ absurd (false≢true (sym refused_first ∙ ok))
      | inl (_, r) ↦ redefined _ _ j.line other_file again r.func (rw same r.bound) (r.defined d) d'
    ]

pub semantic_global_declare_function-Reports :
    (g : GlobalScope) (e : ErrorContext) (i : NodeInfo) (header : FunctionHeader) (body : Node)
    (filename : Option String)
    → Reports
        (semantic_global_declare_function g e (function i header body) filename).accepted
        e
        (semantic_global_declare_function g e (function i header body) filename).errors
unfolding semantic_global_declare_function Outcome
semantic_global_declare_function-Reports g e i header body filename =
    elim (header-Outcome g e i.line filename header) [
      | inl (h, r) ↦ rw h (rw r.silent (Reports-refl e))
      | inr (h, _, r) ↦ rw h r
    ]
