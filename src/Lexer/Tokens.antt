-- ===== src/Lexer/Tokens.antt =====
-- The tokens of `lexer_next`, by the character at which they start.
use mathlib.Core.Bool.{false≢true}
use tiny_compile.Prelude.{
  ℕ, ◌+◌, ◌≡◌, refl, sym, ap, ◌∙◌, ◌⊎◌, Bool, true, false, ◌||◌, List, [], ◌∷◌, ◌==◌, ==_iff,
  if◌then◌else◌, arith, Bool-cases, inl, inr, none,
}
use tiny_compile.StringView.{StringView, sv_eq_cstr}
use tiny_compile.Lexer.{
  TokenType, Token, Lexer, peek, lexer_peek, lexer_advance, lexer_make_token,
  lexer_make_token_no_sv, tail, isdigit, isalpha, first_keyword, check_keyword,
}
use tiny_compile.Lexer.Scan.{newline, skip_round}
use tiny_compile.Lexer.Next.{scan, is_name, textual, textless, longer, operator, next_at}
use tiny_compile.Lexer.Advance.{
  lexer, Advances, Reads, Advances-refl, Reads-char, Reads-two, differs,
}
use tiny_compile.Lexer.Settled.{settled-newline}

abbrev pub is_eof : TokenType → Bool
is_eof TokenType.eof = true
is_eof _ = false

-- A token that is not the end of the file, and what has been read for it.
pub record IsRead (l : Lexer) (o : Token × Lexer) : Type 0 where
  pub token : is_eof o.0.type ≡ false
  pub reads : Reads l o.1

if-IsRead :
    (b : Bool) (l : Lexer) (x y : Token × Lexer)
    → (b ≡ true → IsRead l x)
    → IsRead l y
    → IsRead l (if b then x else y)
if-IsRead true l x y p q = p refl
if-IsRead false l x y p q = q

class_differs :
    (class : ℕ → Bool) (c : ℕ) → class newline ≡ false → class c ≡ true → (c == newline) ≡ false
class_differs class c h q = elim (Bool-cases (c == newline)) [
  | inr e ↦ e
  | inl e ↦ absurd (false≢true (sym h ∙ ap class (sym ((==_iff c newline).0 e)) ∙ q))
]

-- a class without the newline
scan-Advances :
    (class : ℕ → Bool) (cs : List ℕ) (line column : ℕ)
    → class newline ≡ false
    → Advances (lexer cs line column) (scan class cs line column).1
unfolding scan
scan-Advances class [] line column h = Advances-refl _
scan-Advances class (c ∷ cs) line column h = elim (Bool-cases (class c)) [
  | inr q ↦ rw q (Advances-refl _)
  | inl q ↦ rw q (
      (Reads-char c cs line column (column + 1) _ (class_differs class c h q)
        (scan-Advances class cs line (column + 1) h)).advances)
]

-- ... that has the first character
scan-Reads :
    (class : ℕ → Bool) (c : ℕ) (cs : List ℕ) (line column : ℕ)
    → class newline ≡ false
    → class c ≡ true
    → Reads (lexer (c ∷ cs) line column) (scan class (c ∷ cs) line column).1
unfolding scan
scan-Reads class c cs line column h q = rw q (
    Reads-char c cs line column (column + 1) _ (class_differs class c h q)
      (scan-Advances class cs line (column + 1) h))

if-token :
    (b : Bool) (x y : TokenType)
    → is_eof x ≡ false
    → is_eof y ≡ false
    → is_eof (if b then x else y) ≡ false
if-token true x y p q = p
if-token false x y p q = q

check_keyword-token : (text : StringView) → is_eof (check_keyword text) ≡ false
unfolding check_keyword first_keyword
check_keyword-token text = if-token (sv_eq_cstr text "int") _ _ refl (
    if-token (sv_eq_cstr text "char") _ _ refl (
      if-token (sv_eq_cstr text "void") _ _ refl (
        if-token (sv_eq_cstr text "if") _ _ refl (
          if-token (sv_eq_cstr text "else") _ _ refl (
            if-token (sv_eq_cstr text "while") _ _ refl
              (if-token (sv_eq_cstr text "return") _ _ refl refl))))))

two :
    (c : ℕ) (cs : List ℕ) (second line column : ℕ)
    → (c == newline) ≡ false
    → (peek cs == second) ≡ true
    → (second == newline) ≡ false
    → (second == 0) ≡ false
    → Reads (lexer (c ∷ cs) line column) (lexer (tail cs) line (column + 1 + 1))
two c [] second line column p e n z = absurd (ground arith)
two c (d ∷ cs) second line column p e n z =
    Reads-two c d cs line column (column + 1 + 1) _ p (differs d second e n) (Advances-refl _)

starts_name : (c : ℕ) → (isalpha c || (c == 95)) ≡ true → is_name c ≡ true
starts_name c h = ground arith

module _ (c : ℕ) (cs : List ℕ) (line column : ℕ) (line_goes_on : (c == newline) ≡ false) where
  abbrev here : Lexer
  here = lexer (c ∷ cs) line column

  single :
      (type : TokenType)
      → is_eof type ≡ false
      → IsRead here (textual type (c ∷ []) (lexer_advance here))
  unfolding lexer_advance lexer_make_token
  single type h = record {
    token = h;
    reads = Reads-char c cs line column (column + 1) _ line_goes_on (Advances-refl _);
  }

  plain :
      (type : TokenType) → is_eof type ≡ false → IsRead here (textless type (lexer_advance here))
  unfolding lexer_advance lexer_make_token_no_sv
  plain type h = record {
    token = h;
    reads = Reads-char c cs line column (column + 1) _ line_goes_on (Advances-refl _);
  }

  double :
      (second : ℕ) (type : TokenType) (other : Token × Lexer)
      → (second == newline) ≡ false
      → (second == 0) ≡ false
      → is_eof type ≡ false
      → IsRead here other
      → IsRead here (longer second type other (lexer_advance here))
  unfolding lexer_advance lexer_peek lexer_make_token_no_sv
  double second type other n z h r =
      if-IsRead (peek cs == second) here (textless type (lexer_advance (lexer_advance here))) other
        (λ e. record { token = h; reads = two c cs second line column line_goes_on e n z }) r

  operator-IsRead : IsRead here (operator c (lexer_advance here))
  unfolding operator
  operator-IsRead =
      if-IsRead (c == 43) here _ _ (λ _. single TokenType.plus refl)
        (if-IsRead (c == 45) here _ _ (λ _. single TokenType.minus refl)
          (if-IsRead (c == 42) here _ _ (λ _. single TokenType.star refl)
            (if-IsRead (c == 47) here _ _ (λ _. single TokenType.slash refl)
              (if-IsRead (c == 40) here _ _ (λ _. single TokenType.lparen refl)
                (if-IsRead (c == 41) here _ _ (λ _. single TokenType.rparen refl)
                  (if-IsRead (c == 123) here _ _ (λ _. single TokenType.lbrace refl)
                    (if-IsRead (c == 125) here _ _ (λ _. single TokenType.rbrace refl)
                      (if-IsRead (c == 59) here _ _ (λ _. single TokenType.semicolon refl)
                        (if-IsRead (c == 44) here _ _ (λ _. single TokenType.comma refl)
                          (if-IsRead (c == 33) here _ _
                            (λ _.
                              double 61 TokenType.bang_equal _ refl refl refl
                                (plain TokenType.bang refl))
                            (if-IsRead (c == 61) here _ _
                              (λ _.
                                double 61 TokenType.equal_equal _ refl refl refl
                                  (plain TokenType.equal refl))
                              (if-IsRead (c == 62) here _ _
                                (λ _. double 61 TokenType.greater_equal _ refl refl refl (
                                  double 62 TokenType.rshift _ refl refl refl
                                    (plain TokenType.greater refl)))
                                (if-IsRead (c == 60) here _ _
                                  (λ _. double 61 TokenType.less_equal _ refl refl refl (
                                    double 60 TokenType.lshift _ refl refl refl
                                      (plain TokenType.less refl)))
                                  (if-IsRead (c == 38) here _ _ (λ _. single TokenType.bit_and refl)
                                    (if-IsRead (c == 124) here _ _
                                      (λ _. single TokenType.bit_or refl)
                                      (if-IsRead (c == 94) here _ _
                                        (λ _. single TokenType.bit_xor refl)
                                        (if-IsRead (c == 126) here _ _
                                          (λ _. single TokenType.bit_not refl)
                                          (plain TokenType.error refl))))))))))))))))))

  next_at-IsRead : IsRead here (next_at (c ∷ cs) here)
  unfolding lexer_make_token
  next_at-IsRead =
      if-IsRead (isdigit c) here _ _
        (λ h. record { token = refl; reads = scan-Reads isdigit c cs line column refl h })
        (if-IsRead (isalpha c || (c == 95)) here _ _
          (λ h. record {
            token = check_keyword-token (scan is_name (c ∷ cs) line column).0;
            reads = scan-Reads is_name c cs line column refl (starts_name c h);
          })
          operator-IsRead)

-- A call at a settled lexer: the end of the file and nothing read, or a token.
pub next_settled :
    (cs : List ℕ) (line column : ℕ)
    → skip_round (lexer cs line column) ≡ none
    → ((cs ≡ []) × (is_eof (next_at cs (lexer cs line column)).0.type ≡ true))
      ⊎ IsRead (lexer cs line column) (next_at cs (lexer cs line column))
unfolding lexer_make_token_no_sv
next_settled [] line column h = inl (refl, refl)
next_settled (c ∷ cs) line column h =
    inr (next_at-IsRead c cs line column (settled-newline c cs line column h))
