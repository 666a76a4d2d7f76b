-- ===== src/Lexer/Lexemes/Read.antt =====
-- What `lexer_next` reads is blanks and comments, and then a token of the grammar.
use tiny_compile.Prelude.{ℕ, List, ◌∷◌}
use tiny_compile.Lexer.{Lexer}
use tiny_compile.Lexer.Advance.{lexer}

module _ (c : ℕ) (cs : List ℕ) (line column : ℕ) where
  abbrev here : Lexer
  here = lexer (c ∷ cs) line column
