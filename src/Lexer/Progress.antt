-- ===== src/Lexer/Progress.antt =====
-- The sequence of calls of `lexer_next` on a file.
use tiny_compile.Prelude.{
  ℕ, zero, suc, ◌+◌, ◌≤◌, ◌≡◌, refl, ap, ◌⊎◌, true, false, List, [], ◌∷◌, ◌++◌, length, arith, inl,
  inr,
}
use tiny_compile.Lexer.{Token, Lexer, lexer_init}
use tiny_compile.Lexer.Scan.{lexer_skip_whitespace}
use tiny_compile.Lexer.Next.{next_at, lexer_next}
use tiny_compile.Lexer.Advance.{
  newlines, lexer, Advances, Reads, Advances-refl, Advances-trans, Advances-length,
}
use tiny_compile.Lexer.Settled.{lexer_skip_whitespace-settled}
use tiny_compile.Lexer.Tokens.{is_eof, next_settled}

-- The end of the file, with nothing left, or another token, with at least one character read.
unfoldable pub Progress : Lexer → Token × Lexer → Type 0
Progress l (token, l') =
    ((is_eof token.type ≡ true) × (l'.rest ≡ []) × Advances l l')
    ⊎ ((is_eof token.type ≡ false) × Reads l l')

Reads-after : {l m n : Lexer} → Advances l m → Reads m n → Reads l n
Reads-after a r = record {
  advances = Advances-trans a r.advances;
  shorter = omega (arith, Advances-length a, r.shorter);
}

next_at-rest :
    (cs : List ℕ) (line column : ℕ)
    → cs ≡ []
    → Advances (lexer cs line column) (next_at cs (lexer cs line column)).1
      × ((next_at cs (lexer cs line column)).1.rest ≡ [])
next_at-rest [] line column e = (Advances-refl _, refl)
next_at-rest (c ∷ cs) line column e = absurd (omega (arith, ap length e))

-- A call of `lexer_next` gives the end of the file, after reading all that was left, or another token,
-- and then it has read at least one character; in both cases the line has grown by the number of
-- newlines among the characters that it has read.
pub lexer_next-Progress : (l : Lexer) → Progress l (lexer_next l)
unfolding lexer_next Progress
lexer_next-Progress l =
    let m = lexer_skip_whitespace l in
    let (settled, skipped) = lexer_skip_whitespace-settled l in
    elim (next_settled m.rest m.line m.column settled) [
      | inl (e, t) ↦
          let (a, empty) = next_at-rest m.rest m.line m.column e in
          inl (t, empty, Advances-trans skipped a)
      | inr r ↦ inr (r.token, Reads-after skipped r.reads)
    ]

-- the lexer after some calls
pub lexer_after : ℕ → Lexer → Lexer
lexer_after zero l = l
lexer_after (suc n) l = lexer_after n (lexer_next l).1

eof_at_end : (l : Lexer) → length l.rest ≤ 0 → is_eof (lexer_next l).0.type ≡ true
unfolding Progress
eof_at_end l h = elim (lexer_next-Progress l) [
  | inl (e, _, _) ↦ e
  | inr (_, r) ↦ absurd (omega (arith, r.shorter))
]

left : (l : Lexer) (n : ℕ) → length l.rest ≤ suc n → length (lexer_next l).1.rest ≤ n
unfolding Progress
left l n h = elim (lexer_next-Progress l) [
  | inl (_, e, _) ↦ omega (arith, ap length e)
  | inr (_, r) ↦ omega (arith, r.shorter)
]

-- From any lexer, after as many calls as there are characters left, and after any larger number, the
-- next token is the end of the file: a loop that calls `lexer_next` until then comes to an end.
pub lexer_after-eof :
    (n : ℕ) (l : Lexer) → length l.rest ≤ n → is_eof (lexer_next (lexer_after n l)).0.type ≡ true
unfolding lexer_after
lexer_after-eof zero l h = eof_at_end l h
lexer_after-eof (suc n) l h = lexer_after-eof n (lexer_next l).1 (left l n h)

next-Advances : (l : Lexer) → Advances l (lexer_next l).1
unfolding Progress
next-Advances l = elim (lexer_next-Progress l) [ inl (_, _, a) ↦ a | inr (_, r) ↦ r.advances ]

after-Advances : (n : ℕ) (l : Lexer) → Advances l (lexer_after n l)
unfolding lexer_after
after-Advances zero l = Advances-refl l
after-Advances (suc n) l = Advances-trans (next-Advances l) (after-Advances n (lexer_next l).1)

-- After any number of calls on a file, what has been read is a prefix of the file, what is left is the
-- rest of it, and the line is one more than the number of newlines in the prefix.
pub lexer_after-line :
    (bytes : List ℕ) (n : ℕ)
    → (prefix : List ℕ) × (bytes ≡ prefix ++ (lexer_after n (lexer_init bytes)).rest)
      × ((lexer_after n (lexer_init bytes)).line ≡ 1 + newlines prefix)
unfolding lexer_init
lexer_after-line bytes n =
    let a = after-Advances n (lexer_init bytes) in (a.consumed, a.split, a.lines)
