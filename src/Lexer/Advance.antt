-- ===== src/Lexer/Advance.antt =====
-- Where the lexer stands: what has been read, and the line.
use tiny_compile.Prelude.{
  ℕ, ◌+◌, ◌≤◌, ◌<◌, ◌≡◌, refl, sym, ap, ◌∙◌, Bool, true, false, ◌&&◌, List, [], ◌∷◌, ◌++◌, ◌==◌,
  if◌then◌else◌, length, length-append, arith, Bool-cases, inl, inr,
}
use tiny_compile.Lexer.{Lexer, peek, lexer_advance}
use tiny_compile.Lexer.Scan.{newline, skip_line, skip_block}
use mathlib.Core.List.{append_assoc}

pub newlines : List ℕ → ℕ
newlines [] = 0
newlines (c ∷ cs) = let rest = newlines cs in if c == newline then rest + 1 else rest

abbrev pub lexer : List ℕ → ℕ → ℕ → Lexer
lexer rest line column = record { rest = rest; line = line; column = column }

-- The lexer has moved over some characters, and counted their newlines.
pub record Advances (l l' : Lexer) : Type 0 where
  pub consumed : List ℕ
  pub split : l.rest ≡ consumed ++ l'.rest
  pub lines : l'.line ≡ l.line + newlines consumed

-- ... over one character at least.
pub record Reads (l l' : Lexer) : Type 0 where
  pub advances : Advances l l'
  pub shorter : length l'.rest < length l.rest

newlines-append : (xs ys : List ℕ) → newlines (xs ++ ys) ≡ newlines xs + newlines ys
unfolding newlines
newlines-append [] ys = omega arith
newlines-append (x ∷ xs) ys = ground (arith, newlines-append xs ys)

pub Advances-refl : (l : Lexer) → Advances l l
unfolding newlines
Advances-refl l = record { consumed = []; split = refl; lines = omega arith }

pub Advances-trans : {l m n : Lexer} → Advances l m → Advances m n → Advances l n
Advances-trans a b = record {
  consumed = a.consumed ++ b.consumed;
  split = a.split ∙ rw b.split (sym (append_assoc a.consumed b.consumed _));
  lines = omega (arith, a.lines, b.lines, newlines-append a.consumed b.consumed);
}

pub Advances-length : {l l' : Lexer} → Advances l l' → length l'.rest ≤ length l.rest
Advances-length {l} {l'} a = omega (arith, ap length a.split, length-append a.consumed l'.rest)

-- One character, and what comes after it.
pub Reads-char :
    (c : ℕ) (cs : List ℕ) (line column column' : ℕ) (l' : Lexer)
    → (c == newline) ≡ false
    → Advances (lexer cs line column') l'
    → Reads (lexer (c ∷ cs) line column) l'
unfolding newlines
Reads-char c cs line column column' l' ne a = record {
  advances = record {
    consumed = c ∷ a.consumed;
    split = ap (λ xs. c ∷ xs) a.split;
    lines = rw ne a.lines;
  };
  shorter = omega (arith, Advances-length a);
}

pub Reads-newline :
    (c : ℕ) (cs : List ℕ) (line column column' : ℕ) (l' : Lexer)
    → (c == newline) ≡ true
    → Advances (lexer cs (line + 1) column') l'
    → Reads (lexer (c ∷ cs) line column) l'
unfolding newlines
Reads-newline c cs line column column' l' eq a = record {
  advances = record {
    consumed = c ∷ a.consumed;
    split = ap (λ xs. c ∷ xs) a.split;
    lines = rw eq (omega (arith, a.lines));
  };
  shorter = omega (arith, Advances-length a);
}

pub skip_line-Advances :
    (cs : List ℕ) (line column : ℕ) → Advances (lexer cs line column) (skip_line cs line column)
unfolding skip_line
skip_line-Advances [] line column = Advances-refl _
skip_line-Advances (c ∷ cs) line column = elim (Bool-cases (c == newline)) [
  | inl q ↦ rw q (Advances-refl _)
  | inr q ↦ rw q (
      (Reads-char c cs line column (column + 1) _ q
        (skip_line-Advances cs line (column + 1))).advances)
]

-- two characters that are not newlines
pub Reads-two :
    (c d : ℕ) (cs : List ℕ) (line column column' : ℕ) (l' : Lexer)
    → (c == newline) ≡ false
    → (d == newline) ≡ false
    → Advances (lexer cs line column') l'
    → Reads (lexer (c ∷ d ∷ cs) line column) l'
Reads-two c d cs line column column' l' p q a =
    Reads-char c (d ∷ cs) line column (column + 1) l' p
      (Reads-char d cs line (column + 1) column' l' q a).advances

pub differs : (c d : ℕ) → (c == d) ≡ true → (d == newline) ≡ false → (c == newline) ≡ false
differs c d h k = ground arith

block_end :
    (c : ℕ) (cs : List ℕ) (line column : ℕ)
    → (c == 42) ≡ true
    → (peek cs == 47) ≡ true
    → Advances
        (lexer (c ∷ cs) line column)
        (lexer_advance (lexer_advance (lexer (c ∷ cs) line column)))
unfolding lexer_advance
block_end c [] line column h k = cc
block_end c (d ∷ cs) line column h k =
    (Reads-two c d cs line column (column + 1 + 1) _ (differs c 42 h refl) (differs d 47 k refl)
      (Advances-refl _)).advances

both : (a b : Bool) → (a && b) ≡ true → (a ≡ true) × (b ≡ true)
both true b h = (refl, h)
both false b h = cc

pub skip_block-Advances :
    (cs : List ℕ) (line column : ℕ) → Advances (lexer cs line column) (skip_block cs line column)
unfolding skip_block
skip_block-Advances [] line column = Advances-refl _
skip_block-Advances (c ∷ cs) line column = elim (Bool-cases ((c == 42) && (peek cs == 47))) [
  | inl e ↦ rw e (let (h, k) = both (c == 42) (peek cs == 47) e in block_end c cs line column h k)
  | inr e ↦ rw e (elim (Bool-cases (c == newline)) [
    | inl q ↦
        rw q ((Reads-newline c cs line column 2 _ q (skip_block-Advances cs (line + 1) 2)).advances)
    | inr q ↦ rw q (
        (Reads-char c cs line column (column + 1) _ q
          (skip_block-Advances cs line (column + 1))).advances)
  ])
]
