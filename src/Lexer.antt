-- ===== src/Lexer.antt =====
-- srcs/lexer/lexer.c, srcs/lexer/helpers.c, incs/lexer.h and incs/lexer_tokens.def: from the bytes of a
-- file to tokens, one at a time. The bytes from `curr` to `end` are a list.
pub mod Scan
pub mod Next
pub mod Blanks
pub mod Lexemes
pub mod Advance
pub mod Settled
pub mod Tokens
pub mod Progress
use tiny_compile.Prelude.{
  ℕ, ◌+◌, Bool, true, false, ◌&&◌, ◌||◌, Option, none, some, List, [], ◌∷◌, leb, ◌==◌,
  if◌then◌else◌,
}
use Prim.Native.String.{String}
use tiny_compile.StringView.{StringView, sv_eq_cstr}

-- the names of the token table, in its order
pub data TokenType : Type 0 where
  int char void if_ else_ while_ return : TokenType
  number identifier : TokenType
  plus minus star slash bang lshift rshift : TokenType
  bit_and bit_xor bit_or bit_not : TokenType
  equal_equal bang_equal less less_equal greater greater_equal equal : TokenType
  lparen rparen semicolon lbrace rbrace comma eof error : TokenType

-- `text` is empty where the initialiser does not name it.
pub record Token : Type 0 where
  pub type : TokenType
  pub text : StringView
  pub line : ℕ
  pub column : ℕ

pub record Lexer : Type 0 where
  pub rest : List ℕ
  pub line : ℕ
  pub column : ℕ

unfoldable pub lexer_init : List ℕ → Lexer
lexer_init bytes = record { rest = bytes; line = 1; column = 1 }

-- the character at `curr`, and the one after it; 0 past the end
abbrev pub peek : List ℕ → ℕ
peek [] = 0
peek (c ∷ _) = c

abbrev pub peek_next : List ℕ → ℕ
peek_next [] = 0
peek_next (_ ∷ cs) = peek cs

unfoldable pub lexer_peek : Lexer → ℕ
lexer_peek l = peek l.rest

unfoldable pub lexer_peek_next : Lexer → ℕ
lexer_peek_next l = peek_next l.rest

abbrev pub tail : List ℕ → List ℕ
tail [] = []
tail (_ ∷ cs) = cs

unfoldable pub lexer_advance : Lexer → Lexer
lexer_advance l = record l { rest = tail l.rest; column = l.column + 1 }

unfoldable pub lexer_make_token : Lexer → TokenType → StringView → Token
lexer_make_token l type text = record { type = type; text = text; line = l.line; column = l.column }

unfoldable pub lexer_make_token_no_sv : Lexer → TokenType → Token
lexer_make_token_no_sv l type = record { type = type; text = []; line = l.line; column = l.column }

-- the classes of <ctype.h> in the "C" locale
abbrev pub isdigit : ℕ → Bool
isdigit c = leb 48 c && leb c 57

abbrev pub isalpha : ℕ → Bool
isalpha c = (leb 65 c && leb c 90) || (leb 97 c && leb c 122)

abbrev pub isalnum : ℕ → Bool
isalnum c = isalpha c || isdigit c

-- the rows of the table that are keywords
abbrev pub keywords : List (TokenType × String)
keywords =
    (TokenType.int, "int")
    ∷ (TokenType.char, "char")
    ∷ (TokenType.void, "void")
    ∷ (TokenType.if_, "if")
    ∷ (TokenType.else_, "else")
    ∷ (TokenType.while_, "while")
    ∷ (TokenType.return, "return")
    ∷ []

-- The macro makes a chain of `if`s.
unfoldable pub first_keyword : StringView → List (TokenType × String) → TokenType
first_keyword text [] = TokenType.identifier
first_keyword text (row ∷ rows) = if sv_eq_cstr text row.1 then row.0 else first_keyword text rows

unfoldable pub check_keyword : StringView → TokenType
check_keyword text = first_keyword text keywords
