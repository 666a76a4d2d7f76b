-- ===== src/Parser.antt =====
-- srcs/parser/parser_utils.c and the state of incs/parser.h: the tokens as the parser sees them. The
-- functions that build the tree are not modelled. The loops have the number of characters left as fuel.
pub mod Advance
use Prim.Native.String.{String}
use tiny_compile.Prelude.{
  ℕ, zero, suc, ◌+◌, Bool, true, false, ◌||◌, Option, List, [], ◌∷◌, if◌then◌else◌, length,
}
use tiny_compile.ErrorHandler.{ErrorContext, ErrorCategory, ErrorLevel, error_add}
use tiny_compile.Ast.Types.{DataType, is_type_keyword, type_from_sv}
use tiny_compile.Lexer.{TokenType, Token, Lexer}
use tiny_compile.Lexer.Next.{lexer_next}
use tiny_compile.Lexer.Tokens.{is_eof}

-- `filename` is the name of the lexer's file.
pub record Parser : Type 0 where
  pub lexer : Lexer
  pub filename : Option String
  pub errors : ErrorContext
  pub current : Token
  pub next : Token
  pub panic_mode : Bool
  pub expr_depth : ℕ

abbrev pub is_error : TokenType → Bool
is_error TokenType.error = true
is_error _ = false

-- the loop of `parser_advance`
unfoldable pub next_valid : ℕ → Lexer → Token × Lexer
next_valid zero l = lexer_next l
next_valid (suc n) l =
    let rest = next_valid n (lexer_next l).1 in
    if is_error (lexer_next l).0.type then rest else lexer_next l

abbrev pub with_next : Parser → Token × Lexer → Parser
with_next p (token, l) = record p { current = p.next; next = token; lexer = l }

unfoldable pub parser_advance : Parser → Parser
parser_advance p = with_next p (next_valid (length p.lexer.rest) p.lexer)

unfoldable pub parser_error : Parser → String → Parser
parser_error p message = if p.panic_mode then p else record p {
  panic_mode = true;
  errors =
      error_add ErrorCategory.parser ErrorLevel.error p.filename p.current.line p.current.column
        message p.errors;
}

-- where `parser_synchronize` stops: behind a semicolon, or before one of five tokens
abbrev pub is_semicolon : TokenType → Bool
is_semicolon TokenType.semicolon = true
is_semicolon _ = false

abbrev pub starts_statement : TokenType → Bool
starts_statement TokenType.if_ = true
starts_statement TokenType.while_ = true
starts_statement TokenType.return = true
starts_statement TokenType.int = true
starts_statement TokenType.lbrace = true
starts_statement _ = false

unfoldable pub is_synchronized : Parser → Bool
is_synchronized p =
    is_eof p.next.type || is_semicolon p.current.type || starts_statement p.next.type

unfoldable pub synchronize_loop : ℕ → Parser → Parser
synchronize_loop zero p = p
synchronize_loop (suc n) p =
    let rest = synchronize_loop n (parser_advance p) in if is_synchronized p then p else rest

unfoldable pub parser_synchronize : Parser → Parser
parser_synchronize p =
    synchronize_loop (suc (length p.lexer.rest)) (record p { panic_mode = false })

unfoldable pub parse_type : Parser → DataType × Parser
parse_type p =
    if is_type_keyword p.next.text
    then (type_from_sv p.next.text, parser_advance p)
    else (DataType.void, parser_error p "expected type specifier (e.g. 'int', 'char', 'void')")
