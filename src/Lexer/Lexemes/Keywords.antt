-- ===== src/Lexer/Lexemes/Keywords.antt =====
-- `check_keyword` of srcs/lexer/lexer.c against the spelling of the keywords.
use Prim.Native.String.{String}
use mathlib.Core.Bool.{true≢false}
use tiny_compile.Prelude.{◌≡◌, ◌≢◌, refl, sym, ◌∙◌, Bool-cases, inl, inr, [], if◌then◌else◌}
use tiny_compile.StringView.{StringView, codes, sv_eq_cstr, sv_eq_cstr_iff}
use tiny_compile.Lexer.{TokenType, first_keyword, check_keyword}
use tiny_compile.Lexer.Lexemes.{keyword_spelling, IsWord}

-- A row of the table: the word is spelled so, or it is not and the rest decides.
row :
    (text : StringView) (str : String) (type : TokenType) (rest : TokenType)
    (P : TokenType → Type 0)
    → (text ≡ codes str → P type)
    → (text ≢ codes str → P rest)
    → P (if sv_eq_cstr text str then type else rest)
row text str type rest P p q = elim (Bool-cases (sv_eq_cstr text str)) [
  | inl h ↦ rw h (p ((sv_eq_cstr_iff text str).0 h))
  | inr h ↦ rw h (q (λ e. true≢false (sym ((sv_eq_cstr_iff text str).1 e) ∙ h)))
]

no_keyword :
    (text : StringView)
    → text ≢ codes "int"
    → text ≢ codes "char"
    → text ≢ codes "void"
    → text ≢ codes "if"
    → text ≢ codes "else"
    → text ≢ codes "while"
    → text ≢ codes "return"
    → (keyword : TokenType) → text ≡ keyword_spelling keyword
    → text ≡ []
unfolding keyword_spelling
no_keyword text a b c d f g h TokenType.int e = absurd (a e)
no_keyword text a b c d f g h TokenType.char e = absurd (b e)
no_keyword text a b c d f g h TokenType.void e = absurd (c e)
no_keyword text a b c d f g h TokenType.if_ e = absurd (d e)
no_keyword text a b c d f g h TokenType.else_ e = absurd (f e)
no_keyword text a b c d f g h TokenType.while_ e = absurd (g e)
no_keyword text a b c d f g h TokenType.return e = absurd (h e)
no_keyword text a b c d f g h _ e = e

pub check_keyword-IsWord : (text : StringView) → IsWord text (check_keyword text)
unfolding check_keyword first_keyword IsWord keyword_spelling
check_keyword-IsWord text =
    let P : TokenType → Type 0 = IsWord text in
    row text "int" _ _ P (λ e. inl (e, λ n. cc))
      (λ a.
        row text "char" _ _ P (λ e. inl (e, λ n. cc))
          (λ b.
            row text "void" _ _ P (λ e. inl (e, λ n. cc))
              (λ c.
                row text "if" _ _ P (λ e. inl (e, λ n. cc))
                  (λ d.
                    row text "else" _ _ P (λ e. inl (e, λ n. cc))
                      (λ f.
                        row text "while" _ _ P (λ e. inl (e, λ n. cc))
                          (λ g.
                            row text "return" _ _ P (λ e. inl (e, λ n. cc))
                              (λ h. inr (refl, no_keyword text a b c d f g h))))))))
