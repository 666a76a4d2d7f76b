-- ===== src/Lexer/Lexemes/Scanned.antt =====
-- The loops of `lexer_next` over the characters of a class.
use tiny_compile.Prelude.{
  ℕ, ◌+◌, ◌≡◌, refl, ap, Bool, true, false, List, [], ◌∷◌, ◌++◌, Bool-cases, inl, inr,
}
use tiny_compile.Lexer.{peek}
use tiny_compile.Lexer.Next.{scan}
use tiny_compile.Lexer.Lexemes.{AllIn}

pub scan-split :
    (class : ℕ → Bool) (cs : List ℕ) (line column : ℕ)
    → cs ≡ (scan class cs line column).0 ++ (scan class cs line column).1.rest
unfolding scan
scan-split class [] line column = refl
scan-split class (c ∷ cs) line column = elim (Bool-cases (class c)) [
  | inr q ↦ rw q refl
  | inl q ↦ rw q (ap (λ xs. c ∷ xs) (scan-split class cs line (column + 1)))
]

pub scan-AllIn :
    (class : ℕ → Bool) (cs : List ℕ) (line column : ℕ) → AllIn class (scan class cs line column).0
unfolding scan AllIn
scan-AllIn class [] line column = tt
scan-AllIn class (c ∷ cs) line column = elim (Bool-cases (class c)) [
  | inl q ↦ rw q (q, scan-AllIn class cs line (column + 1))
  | inr q ↦ rw q tt
]

-- The loop stops in front of a character that is not in the class.
pub scan-stops :
    (class : ℕ → Bool) (cs : List ℕ) (line column : ℕ)
    → class 0 ≡ false
    → class (peek (scan class cs line column).1.rest) ≡ false
unfolding scan
scan-stops class [] line column z = z
scan-stops class (c ∷ cs) line column z = elim (Bool-cases (class c)) [
  | inl q ↦ rw q (scan-stops class cs line (column + 1) z)
  | inr q ↦ rw q q
]

pub scan-first :
    (class : ℕ → Bool) (c : ℕ) (cs : List ℕ) (line column : ℕ)
    → class c ≡ true
    → peek (scan class (c ∷ cs) line column).0 ≡ c
unfolding scan
scan-first class c cs line column q = rw q refl
