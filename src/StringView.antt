-- ===== src/StringView.antt =====
-- incs/string_view.h: a view of a text is the list of its bytes.
use Prim.Native.Char.{code}
use Prim.Native.String.{String}
use tiny_compile.Prelude.{
  ℕ, ◌≡◌, ◌≢◌, refl, ◌↔◌, inl, inr, Bool-cases, Bool, true, false, ◌&&◌, List, [], ◌∷◌, arith, ◌==◌,
  if◌then◌else◌, length,
}

abbrev pub StringView : Type 0
StringView = List ℕ

-- `memcmp(a, b, n) == 0` for two buffers of the same length
memcmp_eq : StringView → StringView → Bool
memcmp_eq [] _ = true
memcmp_eq (x ∷ xs) [] = false
memcmp_eq (x ∷ xs) (y ∷ ys) = x == y && memcmp_eq xs ys

unfoldable pub sv_eq : StringView → StringView → Bool
unfolding memcmp_eq
sv_eq a b = if length a == length b then memcmp_eq a b else false

-- the bytes of a C string
abbrev pub codes : String → StringView
codes String.[] = []
codes (String.◌∷◌ c s) = code c ∷ codes s

unfoldable pub sv_eq_cstr : StringView → String → Bool
unfolding memcmp_eq
sv_eq_cstr sv str = if length (codes str) == length sv then memcmp_eq sv (codes str) else false

memcmp_eq_refl : (a : StringView) → memcmp_eq a a ≡ true
unfolding memcmp_eq
memcmp_eq_refl [] = refl
memcmp_eq_refl (x ∷ a) = ground (arith, memcmp_eq_refl a)

memcmp_eq-eq : (a b : StringView) → length a ≡ length b → memcmp_eq a b ≡ true → a ≡ b
unfolding memcmp_eq
memcmp_eq-eq [] [] h e = refl
memcmp_eq-eq [] (y ∷ b) h e = absurd (omega arith)
memcmp_eq-eq (x ∷ a) [] h e = absurd (omega arith)
memcmp_eq-eq (x ∷ a) (y ∷ b) h e = ground (arith, memcmp_eq-eq a b)

pub sv_eq_refl : (a : StringView) → sv_eq a a ≡ true
unfolding sv_eq
sv_eq_refl a = ground (arith, memcmp_eq_refl a)

-- Two views are equal exactly when they hold the same bytes.
pub sv_eq_iff : (a b : StringView) → (sv_eq a b ≡ true) ↔ (a ≡ b)
sv_eq_iff a b =
    (unfold sv_eq in (λ h. ground (arith, memcmp_eq-eq a b)), λ e. ground (arith, sv_eq_refl a))

pub sv_eq_ne : (a b : StringView) → a ≢ b → sv_eq a b ≡ false
sv_eq_ne a b ne = elim (Bool-cases (sv_eq a b)) [
  | inl h ↦ absurd (ne ((sv_eq_iff a b).0 h))
  | inr h ↦ h
]

-- ... and a view is equal to a C string when it holds the bytes of the string.
pub sv_eq_cstr_iff :
    (sv : StringView) (str : String) → (sv_eq_cstr sv str ≡ true) ↔ (sv ≡ codes str)
unfolding sv_eq_cstr
sv_eq_cstr_iff sv str =
    (λ h. ground (arith, memcmp_eq-eq sv (codes str)), λ e. ground (arith, memcmp_eq_refl sv))
