-- ===== src/Lexer/Lexemes.antt =====
-- The tokens of `lexer_next` of srcs/lexer/lexer.c: the grammar that they are held against.
pub mod Scanned
pub mod Keywords
pub mod Read
use tiny_compile.Prelude.{
  ℕ, ◌≡◌, ◌≢◌, ◌⊎◌, Bool, true, false, ◌||◌, List, [], ◌∷◌, ◌++◌, ◌==◌, if◌then◌else◌,
}
use tiny_compile.StringView.{StringView}
use tiny_compile.Lexer.{TokenType, Token, Lexer, peek, isdigit, isalpha}
use tiny_compile.Lexer.Next.{is_name}

-- the characters of the tokens that are always spelled in the same way
unfoldable pub spelling : TokenType → List ℕ
spelling TokenType.plus = 43 ∷ []
spelling TokenType.minus = 45 ∷ []
spelling TokenType.star = 42 ∷ []
spelling TokenType.slash = 47 ∷ []
spelling TokenType.lparen = 40 ∷ []
spelling TokenType.rparen = 41 ∷ []
spelling TokenType.lbrace = 123 ∷ []
spelling TokenType.rbrace = 125 ∷ []
spelling TokenType.semicolon = 59 ∷ []
spelling TokenType.comma = 44 ∷ []
spelling TokenType.bit_and = 38 ∷ []
spelling TokenType.bit_or = 124 ∷ []
spelling TokenType.bit_xor = 94 ∷ []
spelling TokenType.bit_not = 126 ∷ []
spelling TokenType.bang = 33 ∷ []
spelling TokenType.bang_equal = 33 ∷ 61 ∷ []
spelling TokenType.equal = 61 ∷ []
spelling TokenType.equal_equal = 61 ∷ 61 ∷ []
spelling TokenType.greater = 62 ∷ []
spelling TokenType.greater_equal = 62 ∷ 61 ∷ []
spelling TokenType.rshift = 62 ∷ 62 ∷ []
spelling TokenType.less = 60 ∷ []
spelling TokenType.less_equal = 60 ∷ 61 ∷ []
spelling TokenType.lshift = 60 ∷ 60 ∷ []
spelling _ = []

-- The operators of comparison, of assignment and of shifts, and the logical `not`, carry no text.
unfoldable pub carries_text : TokenType → Bool
carries_text TokenType.bang = false
carries_text TokenType.bang_equal = false
carries_text TokenType.equal = false
carries_text TokenType.equal_equal = false
carries_text TokenType.greater = false
carries_text TokenType.greater_equal = false
carries_text TokenType.rshift = false
carries_text TokenType.less = false
carries_text TokenType.less_equal = false
carries_text TokenType.lshift = false
carries_text _ = true

-- No longer operator starts here.
unfoldable pub IsLongest : TokenType → ℕ → Type 0
IsLongest TokenType.bang next = next ≢ 61
IsLongest TokenType.equal next = next ≢ 61
IsLongest TokenType.greater next = (next ≢ 61) × (next ≢ 62)
IsLongest TokenType.less next = (next ≢ 61) × (next ≢ 60)
IsLongest _ next = Unit

-- the characters at which an operator or a delimiter starts
unfoldable pub starts_operator : ℕ → Bool
starts_operator c =
    (c == 43)
    || (c == 45)
    || (c == 42)
    || (c == 47)
    || (c == 40)
    || (c == 41)
    || (c == 123)
    || (c == 125)
    || (c == 59)
    || (c == 44)
    || (c == 33)
    || (c == 61)
    || (c == 62)
    || (c == 60)
    || (c == 38)
    || (c == 124)
    || (c == 94)
    || (c == 126)

unfoldable pub AllIn : (ℕ → Bool) → List ℕ → Type 0
AllIn class [] = Unit
AllIn class (c ∷ cs) = (class c ≡ true) × AllIn class cs

-- the characters of the keywords `int`, `char`, `void`, `if`, `else`, `while` and `return`
unfoldable pub keyword_spelling : TokenType → List ℕ
keyword_spelling TokenType.int = 105 ∷ 110 ∷ 116 ∷ []
keyword_spelling TokenType.char = 99 ∷ 104 ∷ 97 ∷ 114 ∷ []
keyword_spelling TokenType.void = 118 ∷ 111 ∷ 105 ∷ 100 ∷ []
keyword_spelling TokenType.if_ = 105 ∷ 102 ∷ []
keyword_spelling TokenType.else_ = 101 ∷ 108 ∷ 115 ∷ 101 ∷ []
keyword_spelling TokenType.while_ = 119 ∷ 104 ∷ 105 ∷ 108 ∷ 101 ∷ []
keyword_spelling TokenType.return = 114 ∷ 101 ∷ 116 ∷ 117 ∷ 114 ∷ 110 ∷ []
keyword_spelling _ = []

-- A word is a keyword of its spelling, or an identifier, and then no keyword is spelled so.
unfoldable pub IsWord : StringView → TokenType → Type 0
IsWord text type =
    ((text ≡ keyword_spelling type) × (text ≢ []))
    ⊎ ((type ≡ TokenType.identifier)
        × ((keyword : TokenType) → text ≡ keyword_spelling keyword → text ≡ []))

-- The token at the start of a text, and what it leaves of the text: a number or a word has all of its
-- characters as its text and goes on as long as it can; an operator or a delimiter has its spelling.
pub data Lexeme (cs : List ℕ) (token : Token) (rest : List ℕ) : Type 0 where
  end_of_file :
      cs ≡ [] → rest ≡ [] → token.type ≡ TokenType.eof → token.text ≡ [] → Lexeme cs token rest
  digits :
      token.type ≡ TokenType.number
      → cs ≡ token.text ++ rest
      → isdigit (peek token.text) ≡ true
      → AllIn isdigit token.text
      → isdigit (peek rest) ≡ false
      → Lexeme cs token rest
  word :
      IsWord token.text token.type
      → cs ≡ token.text ++ rest
      → (isalpha (peek token.text) || (peek token.text == 95)) ≡ true
      → AllIn is_name token.text
      → is_name (peek rest) ≡ false
      → Lexeme cs token rest
  sign :
      cs ≡ spelling token.type ++ rest
      → spelling token.type ≢ []
      → token.text ≡ (if carries_text token.type then spelling token.type else [])
      → IsLongest token.type (peek rest)
      → Lexeme cs token rest
  unknown :
      token.type ≡ TokenType.error
      → token.text ≡ []
      → (c : ℕ) → cs ≡ c ∷ rest
      → starts_operator c ≡ false
      → Lexeme cs token rest

abbrev pub IsLexeme : List ℕ → Token × Lexer → Type 0
IsLexeme cs o = Lexeme cs o.0 o.1.rest
