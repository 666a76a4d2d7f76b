-- ===== src/Lexer/Settled.antt =====
-- `lexer_skip_whitespace` of srcs/lexer/helpers.c: its rounds and its loop.
use tiny_compile.Prelude.{
  ℕ, zero, suc, ◌+◌, ◌≤◌, ◌≡◌, refl, Bool, true, false, ◌||◌, Option, none, some, List, [], ◌∷◌,
  ◌==◌, ==_iff, if◌then◌else◌, length, arith, Bool-cases, Option-cases, inl, inr,
}
use tiny_compile.Lexer.{Lexer, lexer_peek_next, lexer_advance}
use tiny_compile.Lexer.Scan.{
  newline, skip_line, is_comment, skip_char, skip_at, skip_round, skip_loop, lexer_skip_whitespace,
}
use tiny_compile.Lexer.Advance.{
  lexer, Advances, Reads, Advances-refl, Advances-trans, Reads-char, Reads-newline, Reads-two,
  skip_line-Advances, skip_block-Advances, differs,
}

-- a round that goes on reads something
abbrev ReadsIf : Lexer → Option Lexer → Type 0
ReadsIf l none = Unit
ReadsIf l (some l') = Reads l l'

ReadsIf-if :
    (b : Bool) (l : Lexer) (x y : Option Lexer)
    → (b ≡ true → ReadsIf l x)
    → (b ≡ false → ReadsIf l y)
    → ReadsIf l (if b then x else y)
ReadsIf-if true l x y p q = p refl
ReadsIf-if false l x y p q = q refl

is_comment-Reads :
    (cs : List ℕ) (line column : ℕ)
    → ReadsIf (lexer (47 ∷ cs) line column) (is_comment (lexer (47 ∷ cs) line column))
unfolding is_comment lexer_advance lexer_peek_next skip_line
is_comment-Reads [] line column = tt
is_comment-Reads (d ∷ cs) line column =
    ReadsIf-if (d == 47) _ _ _
      (λ h.
        Reads-char 47 (d ∷ cs) line column (column + 1) _ refl
          (skip_line-Advances (d ∷ cs) line (column + 1)))
      (λ _.
        ReadsIf-if (d == 42) _ _ _
          (λ h.
            Reads-two 47 d cs line column (column + 1 + 1) _ refl (differs d 42 h refl)
              (skip_block-Advances cs line (column + 1 + 1)))
          (λ _. tt))

blank_differs : (c : ℕ) → ((c == 32) || (c == 13) || (c == 9)) ≡ true → (c == newline) ≡ false
blank_differs c h = ground arith

skip_char-Reads :
    (c : ℕ) (cs : List ℕ) (line column : ℕ)
    → ReadsIf (lexer (c ∷ cs) line column) (skip_char c (lexer (c ∷ cs) line column))
unfolding lexer_advance skip_line
skip_char-Reads c cs line column =
    ReadsIf-if ((c == 32) || (c == 13) || (c == 9)) _ _ _
      (λ h. Reads-char c cs line column (column + 1) _ (blank_differs c h) (Advances-refl _))
      (λ _.
        ReadsIf-if (c == newline) _ _ _
          (λ h. Reads-newline c cs line column 2 _ h (Advances-refl _))
          (λ other.
            ReadsIf-if (c == 47) _ _ _
              (λ h. rw ((==_iff c 47).0 h) (is_comment-Reads cs line column))
              (λ _.
                ReadsIf-if (c == 35) _ _ _
                  (λ h. rw other (
                    Reads-char c cs line column (column + 1) _ other
                      (skip_line-Advances cs line (column + 1))))
                  (λ _. tt))))

skip_at-Reads :
    (cs : List ℕ) (line column : ℕ)
    → ReadsIf (lexer cs line column) (skip_at cs (lexer cs line column))
skip_at-Reads [] line column = tt
skip_at-Reads (c ∷ cs) line column = skip_char-Reads c cs line column

skip_round-Reads : (l : Lexer) → ReadsIf l (skip_round l)
unfolding skip_round
skip_round-Reads l = skip_at-Reads l.rest l.line l.column

empty_settled :
    (cs : List ℕ) (line column : ℕ) → length cs ≤ 0 → skip_round (lexer cs line column) ≡ none
unfolding skip_round
empty_settled [] line column h = refl
empty_settled (c ∷ cs) line column h = absurd (omega arith)

-- The loop comes to a round that returns.
skip_loop-settled : (n : ℕ) (l : Lexer) → length l.rest ≤ n → skip_round (skip_loop n l) ≡ none
unfolding skip_loop
skip_loop-settled zero l h = empty_settled l.rest l.line l.column h
skip_loop-settled (suc n) l h = elim (Option-cases (skip_round l)) [
  | inl e ↦ rw e e
  | inr (l', e) ↦
      let r : Reads l l' = rw e at (skip_round-Reads l) in
      rw e (skip_loop-settled n l' (omega (arith, r.shorter)))
]

skip_loop-Advances : (n : ℕ) (l : Lexer) → Advances l (skip_loop n l)
unfolding skip_loop
skip_loop-Advances zero l = Advances-refl l
skip_loop-Advances (suc n) l = elim (Option-cases (skip_round l)) [
  | inl e ↦ rw e (Advances-refl l)
  | inr (l', e) ↦
      let r : Reads l l' = rw e at (skip_round-Reads l) in
      rw e (Advances-trans r.advances (skip_loop-Advances n l'))
]

-- `lexer_skip_whitespace` stops where one more round of its loop would return, at the end of the file or
-- at a character that starts a token, and has counted the newlines of what it has read.
pub lexer_skip_whitespace-settled :
    (l : Lexer)
    → (skip_round (lexer_skip_whitespace l) ≡ none) × Advances l (lexer_skip_whitespace l)
unfolding lexer_skip_whitespace
lexer_skip_whitespace-settled l =
    (skip_loop-settled (length l.rest) l (omega arith), skip_loop-Advances (length l.rest) l)

-- A settled lexer is at no newline.
pub settled-newline :
    (c : ℕ) (cs : List ℕ) (line column : ℕ)
    → skip_round (lexer (c ∷ cs) line column) ≡ none
    → (c == newline) ≡ false
unfolding skip_round
settled-newline c cs line column h = elim (Bool-cases (c == newline)) [
  | inr q ↦ q
  | inl q ↦ cc (rw ((==_iff c newline).0 q) at h)
]
