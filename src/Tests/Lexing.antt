-- ===== src/Tests/Lexing.antt =====
-- The theorems on the lexer at concrete files.
use tiny_compile.Prelude.{ℕ, ◌+◌, ◌≡◌, refl, true, List, [], ◌∷◌, ◌++◌, ◌⊎◌, length, arith}
use tiny_compile.Lexer.{lexer_init}
use tiny_compile.Lexer.Next.{lexer_next}
use tiny_compile.Lexer.Advance.{newlines}
use tiny_compile.Lexer.Tokens.{is_eof}
use tiny_compile.Lexer.Progress.{
  Progress, lexer_next-Progress, lexer_after, lexer_after-eof, lexer_after-line,
}
use tiny_compile.ErrorHandler.{error_context_init}
use tiny_compile.Lexer.{Token, TokenType}
use tiny_compile.Parser.{Parser, is_error, parser_advance, is_synchronized, parser_synchronize}
use tiny_compile.Parser.Advance.{parser_advance-next, parser_synchronize-synchronized}
use tiny_compile.Prelude.{none, false, ◌<◌}

-- a newline, a space, `x1`, `<=`, a line comment and a newline
abbrev file : List ℕ
file = 10 ∷ 32 ∷ 120 ∷ 49 ∷ 60 ∷ 61 ∷ 47 ∷ 47 ∷ 33 ∷ 10 ∷ []

lexer_next-Progress_example : Progress (lexer_init file) (lexer_next (lexer_init file))
lexer_next-Progress_example = lexer_next-Progress (lexer_init file)

ten : length (lexer_init file).rest ≡ 10
unfolding lexer_init
ten = refl

lexer_after-eof_example : is_eof (lexer_next (lexer_after 10 (lexer_init file))).0.type ≡ true
lexer_after-eof_example = lexer_after-eof 10 (lexer_init file) (omega (arith, ten))

lexer_after-line_example :
    (prefix : List ℕ) × (file ≡ prefix ++ (lexer_after 2 (lexer_init file)).rest)
    × ((lexer_after 2 (lexer_init file)).line ≡ 1 + newlines prefix)
lexer_after-line_example = lexer_after-line file 2

abbrev start_token : Token
start_token = record { type = TokenType.eof; text = []; line = 1; column = 1 }

-- a parser before the file
abbrev parser : Parser
parser = record {
  lexer = lexer_init file;
  filename = none;
  errors = error_context_init;
  current = start_token;
  next = start_token;
  panic_mode = false;
  expr_depth = 0;
}

parser_advance-next_example :
    ((parser_advance parser).current ≡ start_token)
    × (is_error (parser_advance parser).next.type ≡ false)
    × ((is_eof (parser_advance parser).next.type ≡ true)
        ⊎ (length (parser_advance parser).lexer.rest < length (lexer_init file).rest))
parser_advance-next_example = parser_advance-next parser

parser_synchronize-synchronized_example : is_synchronized (parser_synchronize parser) ≡ true
parser_synchronize-synchronized_example = parser_synchronize-synchronized parser
