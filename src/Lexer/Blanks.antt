-- ===== src/Lexer/Blanks.antt =====
-- What `lexer_skip_whitespace` of srcs/lexer/helpers.c skips, against the grammar of blanks and comments.
use tiny_compile.Prelude.{
  ℕ, zero, suc, ◌+◌, ◌≡◌, ◌≢◌, refl, sym, subst, ◌⊎◌, Bool, true, false, ◌&&◌, ◌||◌, Option, none,
  some, List, [], ◌∷◌, ◌==◌, ==_iff, if◌then◌else◌, length, arith, Bool-cases, Option-cases, inl,
  inr,
}
use tiny_compile.Lexer.{Lexer, peek, tail, lexer_peek_next, lexer_advance}
use tiny_compile.Lexer.Scan.{
  newline, skip_line, skip_block, is_comment, skip_char, skip_at, skip_round, skip_loop,
  lexer_skip_whitespace,
}
use tiny_compile.Lexer.Advance.{lexer}
use tiny_compile.Lexer.Settled.{lexer_skip_whitespace-settled}

-- between the tokens, in a comment up to the end of the line, in a comment up to a star and a slash
pub data Place : Type 0 where
  outside : Place
  in_line : Place
  in_block : Place

abbrev pub IsSpace : ℕ → Type 0
IsSpace c = (c ≡ 32) ⊎ ((c ≡ 13) ⊎ ((c ≡ 9) ⊎ (c ≡ 10)))

-- The characters from one text to the one that is left are blanks and comments. A comment starts with
-- a hash (35), two slashes (47), or a slash and a star (42).
pub data Skips : Place → List ℕ → List ℕ → Type 0 where
  done : {cs : List ℕ} → Skips Place.outside cs cs
  space :
      {c : ℕ} {cs r : List ℕ}
      → IsSpace c
      → Skips Place.outside cs r
      → Skips Place.outside (c ∷ cs) r
  hash : {cs r : List ℕ} → Skips Place.in_line cs r → Skips Place.outside (35 ∷ cs) r
  slashes : {cs r : List ℕ} → Skips Place.in_line cs r → Skips Place.outside (47 ∷ 47 ∷ cs) r
  line_char :
      {c : ℕ} {cs r : List ℕ} → c ≢ 10 → Skips Place.in_line cs r → Skips Place.in_line (c ∷ cs) r
  line_end : {cs r : List ℕ} → Skips Place.outside (10 ∷ cs) r → Skips Place.in_line (10 ∷ cs) r
  line_eof : Skips Place.in_line [] []
  open_block : {cs r : List ℕ} → Skips Place.in_block cs r → Skips Place.outside (47 ∷ 42 ∷ cs) r
  block_char :
      {c : ℕ} {cs r : List ℕ}
      → ¬ ((c ≡ 42) × (peek cs ≡ 47))
      → Skips Place.in_block cs r
      → Skips Place.in_block (c ∷ cs) r
  close_block : {cs r : List ℕ} → Skips Place.outside cs r → Skips Place.in_block (42 ∷ 47 ∷ cs) r
  block_eof : Skips Place.in_block [] []

-- Nothing more is skipped here: there is no character, or one that is no blank and starts no comment.
abbrev pub Stops : List ℕ → Type 0
Stops [] = Unit
Stops (c ∷ cs) = (¬ IsSpace c) × (c ≢ 35) × ((c ≡ 47) → (peek cs ≢ 47) × (peek cs ≢ 42))

at_end : (r : List ℕ) → Skips Place.outside [] r → r ≡ []
at_end r Skips.done = refl

skip_line-Skips :
    (cs : List ℕ) (line column : ℕ) (r : List ℕ)
    → Skips Place.outside (skip_line cs line column).rest r
    → Skips Place.in_line cs r
unfolding skip_line
skip_line-Skips [] line column r h =
    subst (λ s. Skips Place.in_line [] s) (sym (at_end r h)) Skips.line_eof
skip_line-Skips (c ∷ cs) line column r h = elim (Bool-cases (c == newline)) [
  | inl q ↦
      let e : c ≡ 10 = (==_iff c newline).0 q in
      let h' : Skips Place.outside (c ∷ cs) r = rw q at h in rw e (Skips.line_end (rw e at h'))
  | inr q ↦ Skips.line_char (λ e. ground arith) (skip_line-Skips cs line (column + 1) r (rw q at h))
]

pub peek_is : (cs : List ℕ) (d : ℕ) → peek cs ≡ d → (d == 0) ≡ false → cs ≡ d ∷ tail cs
peek_is [] d e n = absurd (ground arith)
peek_is (c ∷ cs) d e n = rw e refl

skip_block-Skips :
    (cs : List ℕ) (line column : ℕ) (r : List ℕ)
    → Skips Place.outside (skip_block cs line column).rest r
    → Skips Place.in_block cs r
unfolding skip_block lexer_advance
skip_block-Skips [] line column r h =
    subst (λ s. Skips Place.in_block [] s) (sym (at_end r h)) Skips.block_eof
skip_block-Skips (c ∷ cs) line column r h = elim (Bool-cases ((c == 42) && (peek cs == 47))) [
  | inl q ↦
      let e : c ≡ 42 = ground arith in
      let next : cs ≡ 47 ∷ tail cs = peek_is cs 47 (ground arith) refl in
      let h' : Skips Place.outside (tail cs) r = rw q at h in rw (e, next) (Skips.close_block h')
  | inr q ↦
      let inside : Skips Place.in_block cs r = elim (Bool-cases (c == newline)) [
        | inl n ↦ skip_block-Skips cs (line + 1) 2 r (rw (q, n) at h)
        | inr n ↦ skip_block-Skips cs line (column + 1) r (rw (q, n) at h)
      ] in
      Skips.block_char (λ e. ground arith) inside
]

-- What one round of the loop reads is skipped.
abbrev SkipsIf : List ℕ → Option Lexer → Type 0
SkipsIf cs none = Unit
SkipsIf cs (some l') = (r : List ℕ) → Skips Place.outside l'.rest r → Skips Place.outside cs r

SkipsIf-if :
    (b : Bool) (cs : List ℕ) (x y : Option Lexer)
    → (b ≡ true → SkipsIf cs x)
    → (b ≡ false → SkipsIf cs y)
    → SkipsIf cs (if b then x else y)
SkipsIf-if true cs x y p q = p refl
SkipsIf-if false cs x y p q = q refl

is_comment-Skips :
    (cs : List ℕ) (line column : ℕ) → SkipsIf (47 ∷ cs) (is_comment (lexer (47 ∷ cs) line column))
unfolding is_comment lexer_advance lexer_peek_next skip_line
is_comment-Skips [] line column = tt
is_comment-Skips (d ∷ cs) line column =
    SkipsIf-if (d == 47) _ _ _
      (λ h r s.
        let e : d ≡ 47 = (==_iff d 47).0 h in
        rw e (Skips.slashes (skip_line-Skips cs line (column + 1 + 1) r (rw e at s))))
      (λ _.
        SkipsIf-if (d == 42) _ _ _
          (λ h r s.
            let e : d ≡ 42 = (==_iff d 42).0 h in
            rw e (Skips.open_block (skip_block-Skips cs line (column + 1 + 1) r s)))
          (λ _. tt))

is_space : (c : ℕ) → ((c == 32) || (c == 13) || (c == 9)) ≡ true → IsSpace c
is_space c h = ground arith

skip_char-Skips :
    (c : ℕ) (cs : List ℕ) (line column : ℕ)
    → SkipsIf (c ∷ cs) (skip_char c (lexer (c ∷ cs) line column))
unfolding lexer_advance skip_line
skip_char-Skips c cs line column =
    SkipsIf-if ((c == 32) || (c == 13) || (c == 9)) _ _ _ (λ h r s. Skips.space (is_space c h) s)
      (λ _.
        SkipsIf-if (c == newline) _ _ _
          (λ h r s. Skips.space (inr (inr (inr ((==_iff c newline).0 h)))) s)
          (λ other.
            SkipsIf-if (c == 47) _ _ _
              (λ h. rw ((==_iff c 47).0 h) (is_comment-Skips cs line column))
              (λ _.
                SkipsIf-if (c == 35) _ _ _
                  (λ h r s.
                    rw ((==_iff c 35).0 h)
                      (Skips.hash (skip_line-Skips cs line (column + 1) r (rw other at s))))
                  (λ _. tt))))

skip_at-Skips : (cs : List ℕ) (line column : ℕ) → SkipsIf cs (skip_at cs (lexer cs line column))
skip_at-Skips [] line column = tt
skip_at-Skips (c ∷ cs) line column = skip_char-Skips c cs line column

skip_round-Skips : (l : Lexer) → SkipsIf l.rest (skip_round l)
unfolding skip_round
skip_round-Skips l = skip_at-Skips l.rest l.line l.column

skip_loop-Skips : (n : ℕ) (l : Lexer) → Skips Place.outside l.rest (skip_loop n l).rest
unfolding skip_loop
skip_loop-Skips zero l = Skips.done
skip_loop-Skips (suc n) l = elim (Option-cases (skip_round l)) [
  | inl e ↦ rw e Skips.done
  | inr (l', e) ↦
      let round : (r : List ℕ) → Skips Place.outside l'.rest r → Skips Place.outside l.rest r =
        rw e at (skip_round-Skips l) in
      rw e (round (skip_loop n l').rest (skip_loop-Skips n l'))
]

-- A lexer whose next round returns is at a place where nothing more is skipped.
settled-Stops :
    (cs : List ℕ) (line column : ℕ) → skip_round (lexer cs line column) ≡ none → Stops cs
unfolding skip_round is_comment lexer_peek_next
settled-Stops [] line column h = tt
settled-Stops (c ∷ cs) line column h = ground arith

pub lexer_skip_whitespace-Skips :
    (l : Lexer)
    → Skips Place.outside l.rest (lexer_skip_whitespace l).rest
      × Stops (lexer_skip_whitespace l).rest
unfolding lexer_skip_whitespace
lexer_skip_whitespace-Skips l =
    let m = lexer_skip_whitespace l in
    (
      skip_loop-Skips (length l.rest) l,
      settled-Stops m.rest m.line m.column (lexer_skip_whitespace-settled l).0,
    )
