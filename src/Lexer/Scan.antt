-- ===== src/Lexer/Scan.antt =====
-- The loops of srcs/lexer/helpers.c: white space and comments.
use tiny_compile.Prelude.{
  ℕ, zero, suc, ◌+◌, ◌&&◌, ◌||◌, Option, none, some, List, [], ◌∷◌, ◌==◌, if◌then◌else◌, length,
}
use tiny_compile.Lexer.{Lexer, peek, lexer_peek_next, lexer_advance}

abbrev pub newline : ℕ
newline = 10

-- `while (lexer_peek(l) != '\n' && l->curr < l->end) lexer_advance(l);`
unfoldable pub skip_line : List ℕ → ℕ → ℕ → Lexer
skip_line [] line column = record { rest = []; line = line; column = column }
skip_line (c ∷ cs) line column =
    let rest = skip_line cs line (column + 1) in
    if c == newline then (record { rest = c ∷ cs; line = line; column = column }) else rest

-- the loop of a block comment; the star of the end is 42, the slash 47
unfoldable pub skip_block : List ℕ → ℕ → ℕ → Lexer
skip_block [] line column = record { rest = []; line = line; column = column }
skip_block (c ∷ cs) line column =
    let after_newline = skip_block cs (line + 1) 2 in
    let rest = skip_block cs line (column + 1) in
    if (c == 42) && (peek cs == 47)
    then lexer_advance (lexer_advance (record { rest = c ∷ cs; line = line; column = column }))
    else if c == newline
    then after_newline
    else rest

-- The lexer after a comment; `none` is the result `false`.
unfoldable pub is_comment : Lexer → Option Lexer
is_comment l =
    if lexer_peek_next l == 47
    then some (skip_line l.rest l.line l.column)
    else if lexer_peek_next l == 42
    then (let inside = lexer_advance (lexer_advance l) in
        some (skip_block inside.rest inside.line inside.column))
    else none

-- One round of the loop of `lexer_skip_whitespace` on the character `c`: a space, a carriage return
-- or a tab; a newline; a slash; a hash. `none` is the `return`.
abbrev pub skip_char : ℕ → Lexer → Option Lexer
skip_char c l =
    if (c == 32) || (c == 13) || (c == 9)
    then some (lexer_advance l)
    else if c == newline
    then some (lexer_advance (record l { line = l.line + 1; column = 1 }))
    else if c == 47
    then is_comment l
    else if c == 35
    then some (skip_line l.rest l.line l.column)
    else none

abbrev pub skip_at : List ℕ → Lexer → Option Lexer
skip_at [] l = none
skip_at (c ∷ _) l = skip_char c l

unfoldable pub skip_round : Lexer → Option Lexer
skip_round l = skip_at l.rest l

abbrev pub again : (Lexer → Lexer) → Lexer → Option Lexer → Lexer
again loop l none = l
again loop l (some l') = loop l'

unfoldable pub skip_loop : ℕ → Lexer → Lexer
skip_loop zero l = l
skip_loop (suc n) l = again (skip_loop n) l (skip_round l)

-- A round reads at least one character, so there are at most as many rounds as characters.
unfoldable pub lexer_skip_whitespace : Lexer → Lexer
lexer_skip_whitespace l = skip_loop (length l.rest) l
