-- ===== src/Lexer/Next.antt =====
-- `lexer_next` of srcs/lexer/lexer.c. Characters are written as their codes.
use tiny_compile.Prelude.{ℕ, ◌+◌, Bool, ◌||◌, List, [], ◌∷◌, ◌==◌, if◌then◌else◌}
use tiny_compile.StringView.{StringView}
use tiny_compile.Lexer.{
  TokenType, Token, Lexer, lexer_peek, lexer_advance, lexer_make_token, lexer_make_token_no_sv,
  isdigit, isalpha, isalnum, check_keyword,
}
use tiny_compile.Lexer.Scan.{lexer_skip_whitespace}

-- A loop that advances over the characters of a class: the text, and the lexer after it.
unfoldable pub scan : (ℕ → Bool) → List ℕ → ℕ → ℕ → StringView × Lexer
scan class [] line column = ([], record { rest = []; line = line; column = column })
scan class (c ∷ cs) line column =
    let next = scan class cs line (column + 1) in
    if class c
    then (c ∷ next.0, next.1)
    else ([], record { rest = c ∷ cs; line = line; column = column })

abbrev pub is_name : ℕ → Bool
is_name c = isalnum c || (c == 95)

abbrev pub textual : TokenType → StringView → Lexer → Token × Lexer
textual type text l = (lexer_make_token l type text, l)

abbrev pub textless : TokenType → Lexer → Token × Lexer
textless type l = (lexer_make_token_no_sv l type, l)

-- an operator that a second character makes longer
abbrev pub longer : ℕ → TokenType → Token × Lexer → Lexer → Token × Lexer
longer second type other l =
    if lexer_peek l == second then textless type (lexer_advance l) else other

-- the `switch`, with the lexer after the character
unfoldable pub operator : ℕ → Lexer → Token × Lexer
operator c l =
    let text = c ∷ [] in
    if c == 43
    then textual TokenType.plus text l
    else if c == 45
    then textual TokenType.minus text l
    else if c == 42
    then textual TokenType.star text l
    else if c == 47
    then textual TokenType.slash text l
    else if c == 40
    then textual TokenType.lparen text l
    else if c == 41
    then textual TokenType.rparen text l
    else if c == 123
    then textual TokenType.lbrace text l
    else if c == 125
    then textual TokenType.rbrace text l
    else if c == 59
    then textual TokenType.semicolon text l
    else if c == 44
    then textual TokenType.comma text l
    else if c == 33
    then longer 61 TokenType.bang_equal (textless TokenType.bang l) l
    else if c == 61
    then longer 61 TokenType.equal_equal (textless TokenType.equal l) l
    else if c == 62
    then longer 61 TokenType.greater_equal
        (longer 62 TokenType.rshift (textless TokenType.greater l) l) l
    else if c == 60
    then longer 61 TokenType.less_equal (longer 60 TokenType.lshift (textless TokenType.less l) l) l
    else if c == 38
    then textual TokenType.bit_and text l
    else if c == 124
    then textual TokenType.bit_or text l
    else if c == 94
    then textual TokenType.bit_xor text l
    else if c == 126
    then textual TokenType.bit_not text l
    else textless TokenType.error l

abbrev pub number_token : StringView × Lexer → Token × Lexer
number_token (text, l) = textual TokenType.number text l

abbrev pub name_token : StringView × Lexer → Token × Lexer
name_token (text, l) = textual (check_keyword text) text l

-- `lexer_next` after the white space
abbrev pub next_at : List ℕ → Lexer → Token × Lexer
next_at [] l = textless TokenType.eof l
next_at (c ∷ cs) l =
    if isdigit c
    then number_token (scan isdigit (c ∷ cs) l.line l.column)
    else if isalpha c || (c == 95)
    then name_token (scan is_name (c ∷ cs) l.line l.column)
    else operator c (lexer_advance l)

abbrev pub next_from : Lexer → Token × Lexer
next_from l = next_at l.rest l

unfoldable pub lexer_next : Lexer → Token × Lexer
lexer_next l = next_from (lexer_skip_whitespace l)
