-- ===== src/Semantic/Functions/Writes.antt =====
-- Lookups after the writes to the registry of functions.
use tiny_compile.Prelude.{
  ◌≡◌, refl, sym, ap, ◌∙◌, ◌≢◌, Bool, Option, none, some, [], ◌∷◌, ◌++◌, arith, Bool-cases, inl,
  inr, length, if◌then◌else◌,
}
use tiny_compile.StringView.{StringView, sv_eq, sv_eq_iff, sv_eq_ne}
use tiny_compile.Semantic.{FunctionInfo, GlobalScope}
use tiny_compile.Semantic.Functions.{semantic_global_lookup_function, update_function}

abbrev pub or_else : Option FunctionInfo → Option FunctionInfo → Option FunctionInfo
or_else none o = o
or_else (some f) o = some f

abbrev pub found_if : Bool → FunctionInfo → Option FunctionInfo
found_if b f = if b then some f else none

pub or_else-none : (o : Option FunctionInfo) → or_else o none ≡ o
or_else-none none = refl
or_else-none (some f) = refl

pub lookup-append :
    (g : GlobalScope) (f : FunctionInfo) (m : StringView)
    → semantic_global_lookup_function (g ++ f ∷ []) m
      ≡ or_else (semantic_global_lookup_function g m) (found_if (sv_eq f.name m) f)
unfolding semantic_global_lookup_function
lookup-append [] f m = refl
lookup-append (x ∷ g) f m = elim (Bool-cases (sv_eq x.name m)) [
  | inl h ↦ rw h refl
  | inr h ↦ rw h (lookup-append g f m)
]

pub length-update :
    (change : FunctionInfo → FunctionInfo) (g : GlobalScope) (n : StringView)
    → length (update_function change g n) ≡ length g
unfolding update_function
length-update change [] n = refl
length-update change (x ∷ g) n = elim (Bool-cases (sv_eq x.name n)) [
  | inl h ↦ rw h refl
  | inr h ↦ rw h (omega (arith, length-update change g n))
]

-- A lookup after a write through the pointer that a lookup gave.
pub lookup-update_self :
    (change : FunctionInfo → FunctionInfo) (g : GlobalScope) (n : StringView) (f : FunctionInfo)
    → ((x : FunctionInfo) → (change x).name ≡ x.name)
    → semantic_global_lookup_function g n ≡ some f
    → semantic_global_lookup_function (update_function change g n) n ≡ some (change f)
unfolding semantic_global_lookup_function update_function
lookup-update_self change [] n f same h = cc
lookup-update_self change (x ∷ g) n f same h = elim (Bool-cases (sv_eq x.name n)) [
  | inl q ↦
      let e : x ≡ f = cc (rw q at h) in
      rw q (rw (ap (λ z. sv_eq z n) (same x) ∙ q) (ap (λ y. some (change y)) e))
  | inr q ↦ rw q (rw q (lookup-update_self change g n f same (rw q at h)))
]

pub lookup-update_other :
    (change : FunctionInfo → FunctionInfo) (g : GlobalScope) (n m : StringView)
    → ((x : FunctionInfo) → (change x).name ≡ x.name)
    → n ≢ m
    → semantic_global_lookup_function (update_function change g n) m
      ≡ semantic_global_lookup_function g m
unfolding semantic_global_lookup_function update_function
lookup-update_other change [] n m same ne = refl
lookup-update_other change (x ∷ g) n m same ne = elim (Bool-cases (sv_eq x.name n)) [
  | inl q ↦
      let other = sv_eq_ne x.name m (λ e. ne (sym ((sv_eq_iff x.name n).0 q) ∙ e)) in
      rw q (rw (other, ap (λ z. sv_eq z m) (same x) ∙ other) refl)
  | inr q ↦
      rw q
        (ap (λ o. if sv_eq x.name m then some x else o) (lookup-update_other change g n m same ne))
]
