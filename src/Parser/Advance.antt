-- ===== src/Parser/Advance.antt =====
-- Progress of the parser through the tokens.
use tiny_compile.Prelude.{
  ℕ, zero, suc, ◌≤◌, ◌<◌, ◌≡◌, refl, ◌⊎◌, inl, inr, true, false, length, arith, Bool-cases,
}
use tiny_compile.Lexer.{TokenType, Token, Lexer}
use tiny_compile.Lexer.Next.{lexer_next}
use tiny_compile.Lexer.Tokens.{is_eof}
use tiny_compile.Lexer.Progress.{Progress, lexer_next-Progress}
use tiny_compile.Parser.{
  Parser, is_error, next_valid, parser_advance, is_synchronized, synchronize_loop,
  parser_synchronize,
}

eof_valid : (t : TokenType) → is_eof t ≡ true → is_error t ≡ false
eof_valid TokenType.eof h = refl
eof_valid TokenType.error h = cc
eof_valid t h = refl

-- The end of the file, or fewer characters left than before.
abbrev Shorter : Lexer → Token × Lexer → Type 0
Shorter l (token, l') = (is_eof token.type ≡ true) ⊎ (length l'.rest < length l.rest)

lexer_next-Shorter : (l : Lexer) → Shorter l (lexer_next l)
unfolding Progress
lexer_next-Shorter l = elim (lexer_next-Progress l) [
  | inl (e, _, _) ↦ inl e
  | inr (_, r) ↦ inr r.shorter
]

at_end : (l : Lexer) → length l.rest ≤ 0 → is_eof (lexer_next l).0.type ≡ true
at_end l h = elim (lexer_next-Shorter l) [ inl e ↦ e | inr s ↦ absurd (omega (arith, s)) ]

-- An error token is no end of the file, so it has read something.
error_shorter :
    (l : Lexer)
    → is_error (lexer_next l).0.type ≡ true
    → length (lexer_next l).1.rest < length l.rest
error_shorter l h = elim (lexer_next-Shorter l) [
  | inl e ↦ cc (eof_valid (lexer_next l).0.type e)
  | inr s ↦ s
]

further :
    (l m : Lexer) (o : Token × Lexer) → length m.rest < length l.rest → Shorter m o → Shorter l o
further l m o h (inl e) = inl e
further l m o h (inr s) = inr (omega arith)

next_valid-Shorter :
    (n : ℕ) (l : Lexer)
    → length l.rest ≤ n
    → (is_error (next_valid n l).0.type ≡ false) × Shorter l (next_valid n l)
unfolding next_valid
next_valid-Shorter zero l h = (eof_valid _ (at_end l h), lexer_next-Shorter l)
next_valid-Shorter (suc n) l h = elim (Bool-cases (is_error (lexer_next l).0.type)) [
  | inr q ↦ rw q (q, lexer_next-Shorter l)
  | inl q ↦
      let s = error_shorter l q in
      let (v, t) = next_valid-Shorter n (lexer_next l).1 (omega (arith, s)) in
      rw q (v, further l (lexer_next l).1 (next_valid n (lexer_next l).1) s t)
]

-- `parser_advance` makes the next token the current one; the new next token is never an error token, and
-- is the end of the file unless fewer characters are left than before.
pub parser_advance-next :
    (p : Parser)
    → ((parser_advance p).current ≡ p.next)
      × (is_error (parser_advance p).next.type ≡ false)
      × ((is_eof (parser_advance p).next.type ≡ true)
          ⊎ (length (parser_advance p).lexer.rest < length p.lexer.rest))
unfolding parser_advance
parser_advance-next p =
    let (v, s) = next_valid-Shorter (length p.lexer.rest) p.lexer (omega arith) in (refl, v, s)

synchronized_eof : (p : Parser) → is_eof p.next.type ≡ true → is_synchronized p ≡ true
unfolding is_synchronized
synchronized_eof p h = rw h refl

settle :
    (n : ℕ) (p : Parser) → is_synchronized p ≡ true → is_synchronized (synchronize_loop n p) ≡ true
unfolding synchronize_loop
settle zero p h = h
settle (suc n) p h = rw h h

loop-synchronized :
    (n : ℕ) (p : Parser) → length p.lexer.rest < n → is_synchronized (synchronize_loop n p) ≡ true
unfolding synchronize_loop
loop-synchronized zero p h = absurd (omega arith)
loop-synchronized (suc n) p h = elim (Bool-cases (is_synchronized p)) [
  | inl q ↦ rw q q
  | inr q ↦ rw q (elim (parser_advance-next p).2 [
    | inl e ↦ settle n (parser_advance p) (synchronized_eof (parser_advance p) e)
    | inr s ↦ loop-synchronized n (parser_advance p) (omega (arith, s))
  ])
]

-- After an error `parser_synchronize` comes to rest, whatever tokens follow: at the end of the file, behind a
-- semicolon, or before `if`, `while`, `return`, `int` or an opening brace.
pub parser_synchronize-synchronized : (p : Parser) → is_synchronized (parser_synchronize p) ≡ true
unfolding parser_synchronize
parser_synchronize-synchronized p =
    loop-synchronized (suc (length p.lexer.rest)) (record p { panic_mode = false }) (omega arith)
