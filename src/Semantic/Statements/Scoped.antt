-- ===== src/Semantic/Statements/Scoped.antt =====
-- What a part of the analysis does to the errors and to the chain of scopes.
use mathlib.Core.Bool.{false≢true}
use Prim.Native.String.{String}
use tiny_compile.Prelude.{
  ℕ, ◌≡◌, refl, sym, ◌∙◌, Bool, false, ◌&&◌, Option, none, some, List, [], ◌∷◌, Bool-cases, inl,
  inr, if◌then◌else◌,
}
use tiny_compile.StringView.{StringView, sv_eq, sv_eq_iff}
use tiny_compile.ErrorHandler.{ErrorContext}
use tiny_compile.Ast.Types.{DataType}
use tiny_compile.Semantic.{VarInfo, Scope}
use tiny_compile.Semantic.Scopes.{
  semantic_scope_lookup, semantic_scope_declare, declare_at, scope_slot,
}
use tiny_compile.Semantic.Scopes.Laws.{IsComplete, semantic_scope_declare-Declares}
use tiny_compile.Semantic.Expressions.Reports.{Reports, Reports-refl, Reports-error, Reports-and}
use tiny_compile.Semantic.Statements.{Checked, CheckedList}

-- From the scope `s` on top of `ss`, with the errors `e`: the verdict is positive exactly when no error
-- was added, the outer scopes are the same, all variables of the innermost one are found, and those
-- that were there before are what they were.
pub record Scoped (s : Scope) (ss : List Scope) (e : ErrorContext) (accepted : Bool)
    (current : List Scope) (errors : ErrorContext) : Type 0 where
  pub top : Scope
  pub verdict : Reports accepted e errors
  pub stacked : current ≡ top ∷ ss
  pub complete : IsComplete top
  pub kept :
      (m : StringView) (v : VarInfo)
      → semantic_scope_lookup (s ∷ []) m ≡ some v
      → semantic_scope_lookup (top ∷ []) m ≡ some v

-- The scopes are left alone.
pub Scoped-same :
    (s : Scope) (ss : List Scope) {scopes : List Scope} {e : ErrorContext} {a : Bool}
    {f : ErrorContext}
    → scopes ≡ s ∷ ss
    → IsComplete s
    → Reports a e f
    → Scoped s ss e a scopes f
Scoped-same s ss at all r = record {
  top = s;
  verdict = r;
  stacked = at;
  complete = all;
  kept = λ m v h. h;
}

pub Scoped-and :
    {s : Scope} {ss : List Scope} {e f g : ErrorContext} (a b : Bool) {c d : List Scope}
    (r : Scoped s ss e a c f)
    → Scoped r.top ss f b d g
    → Scoped s ss e (a && b) d g
Scoped-and a b r t = record {
  top = t.top;
  verdict = Reports-and a b r.verdict t.verdict;
  stacked = t.stacked;
  complete = t.complete;
  kept = λ m v h. t.kept m v (r.kept m v h);
}

-- A report before the scopes are touched.
pub Scoped-after :
    {s : Scope} {ss : List Scope} {e f g : ErrorContext} (a b : Bool) {d : List Scope}
    → Reports a e f
    → Scoped s ss f b d g
    → Scoped s ss e (a && b) d g
Scoped-after a b r t = record {
  top = t.top;
  verdict = Reports-and a b r t.verdict;
  stacked = t.stacked;
  complete = t.complete;
  kept = t.kept;
}

-- The condition and the two branches of an `if`.
pub Scoped-after-and :
    {s : Scope} {ss : List Scope} {d e f g : ErrorContext} (a b c : Bool) {x y : List Scope}
    → Reports a d e
    → (r : Scoped s ss e b x f) → Scoped r.top ss f c y g
    → Scoped s ss d (a && b && c) y g
Scoped-after-and a b c h r t = record {
  top = t.top;
  verdict = Reports-and (a && b) c (Reports-and a b h r.verdict) t.verdict;
  stacked = t.stacked;
  complete = t.complete;
  kept = λ m v q. t.kept m v (r.kept m v q);
}

declared_kept :
    (s : Scope) (n : StringView) (x v : VarInfo) (m : StringView) (look : Option VarInfo)
    → scope_slot s n ≡ none
    → look ≡ (if sv_eq n m then some x else semantic_scope_lookup (s ∷ []) m)
    → semantic_scope_lookup (s ∷ []) m ≡ some v
    → look ≡ some v
unfolding semantic_scope_lookup
declared_kept s n x v m look new q h = elim (Bool-cases (sv_eq n m)) [
  | inr other ↦ rw other at q ∙ h
  | inl same ↦ cc ((sv_eq_iff n m).0 same)
]

-- A rejected declaration leaves the scopes alone and reports.
rejected_at :
    (filename : Option String) (s : Scope) (ss : List Scope) (n : StringView) (t : DataType) (l : ℕ)
    (e : ErrorContext) (o : Option ℕ)
    → (declare_at filename s ss n t l e o).accepted ≡ false
    → ((declare_at filename s ss n t l e o).current ≡ s ∷ ss)
      × Reports false e (declare_at filename s ss n t l e o).errors
rejected_at filename s ss n t l e none h = (refl, Reports-error filename l 0 _ e)
rejected_at filename s ss n t l e (some c) h = elim (Bool-cases (s.entries c).occupied) [
  | inl taken ↦ rw taken (refl, Reports-error filename l 0 _ e)
  | inr free ↦ absurd (false≢true (sym (rw free at h)))
]

pub declare-Scoped :
    (filename : Option String) (s : Scope) (ss : List Scope) (n : StringView) (t : DataType) (l : ℕ)
    (e : ErrorContext) (scopes : List Scope)
    → scopes ≡ s ∷ ss
    → IsComplete s
    → Scoped s ss e
        (semantic_scope_declare filename scopes n t l e).accepted
        (semantic_scope_declare filename scopes n t l e).current
        (semantic_scope_declare filename scopes n t l e).errors
unfolding semantic_scope_declare
declare-Scoped filename s ss n t l e scopes at all =
    rw at (elim (Bool-cases (semantic_scope_declare filename (s ∷ ss) n t l e).accepted) [
      | inl h ↦
          let d = semantic_scope_declare-Declares filename s ss n t l e all h in
          rw h (record {
            top = d.scope';
            verdict = rw d.silent (Reports-refl e);
            stacked = d.stacked;
            complete = d.complete;
            kept = λ m v. declared_kept s n _ v m _ d.new (d.looks_up [] m);
          })
      | inr h ↦
          let (same, r) = rejected_at filename s ss n t l e _ h in
          rw h (Scoped-same s ss same all r)
    ])

abbrev pub ScopedFrom : Scope → List Scope → ErrorContext → Checked → Type 0
ScopedFrom s ss e r = Scoped s ss e r.accepted r.current r.errors

abbrev pub ListScopedFrom : Scope → List Scope → ErrorContext → CheckedList → Type 0
ListScopedFrom s ss e r = Scoped s ss e r.accepted r.current r.errors
