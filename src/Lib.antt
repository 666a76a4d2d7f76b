-- ===== src/Lib.antt =====
-- tinyCompile: a compiler from a small C-like language to x86-64 machine code in memory.
--
-- A source file is tokenised (srcs/lexer), parsed into a syntax tree (srcs/parser, incs/ast.h),
-- checked (srcs/semantic), translated function by function into a linear intermediate
-- representation (srcs/ir), encoded in two passes as machine code (srcs/jit), linked through a list
-- of call sites, and run. This library models the lexer, and the way from the syntax tree to the
-- linked code: the semantic analysis, the intermediate representation and the code generator. Of the
-- parser it has the moves through the tokens.
--
-- Prelude: the libraries' names, Boolean tests, lists, updates of arrays, computations that may stop
--   the process (Run), displacements (Int).
-- StringView: incs/string_view.h.
-- Word: 64-bit words, for the meaning of the language and of the intermediate representation.
-- HashTable: the open addressing that srcs/ir/ir_symboltable.c and srcs/semantic/semantic.c share, for
--   entries of any type. Probing and Laws are about the searches after a write.
-- ErrorHandler: srcs/error_handler/error_handler.c; Counts has its invariant.
-- Ast: incs/ast.h, incs/types.def and srcs/parser/type_helpers.c. A C pointer to a node is a Node,
--   null included. Meaning is the specification of expressions.
-- Ir: incs/ir.h and emit of srcs/ir/ir_gen.c. Chunks relates the list of chunks to the sequence of
--   instructions; Machine is what straight-line instructions do to registers, slots and arguments.
-- SymbolTable: srcs/ir/ir_symboltable.c. The table is a function from slots, the log of changes a
--   list. Laws is about lookups, Scopes about restoring.
-- Lexer: srcs/lexer and incs/lexer_tokens.def. The bytes from the current one on are a list; Scan is the
--   white space and the comments of helpers.c, Next is lexer_next. Advance, Settled, Tokens and
--   Progress are about what is read, the lines and the end of the file. Blanks and Lexemes hold the
--   grammar of what is skipped and of the tokens, and relate lexer_next to it.
-- Parser: the state of the parser and its moves through the tokens, of srcs/parser/parser_utils.c.
-- Semantic: srcs/semantic/semantic.c. Scopes, Functions (the registry of all files), Constants (constant
--   expressions and compatible types), Expressions, Statements and Units follow the functions of the
--   file; each has its laws below it. The nodes are given back with the types written into them.
-- Compile: the passes of srcs/compile/compile.c over the files: declarations, bodies, entry point.
-- IrGen: srcs/ir/ir_gen.c. Expressions and Statements translate gen_expression, gen_statement and
--   ir_gen: the function under construction and the symbol table are passed along, register 0 is the
--   failure of an expression, Run stops where the code reads through a null pointer or exits. Accepted
--   is about the expressions that the semantic analysis has accepted.
-- Jit: srcs/jit. Buffer and Emit are emit.c on a cursor (write pointer, count, memory), Operands is
--   helpers.c, Encoders and Calls are encoders.c, Context is JITContext with get_location, Dispatch
--   the table of encoders, Function the frame and the two passes, Link the linker (null is 0), Pass the loop of
--   jit.c over the functions of all files.
-- Tests: every theorem at concrete inputs.
--
-- Loops over arrays are structural recursion; the probing loops count the 4096 or 128 rounds of the
-- source. Only the loops over white space and over tokens have fuel, the number of characters left: a
-- round reads at least one. So no result depends on a bound that is not in the source. A pointer is
-- a number, memory is a function from numbers to bytes. Values of the compiled program, hashes and
-- displacements wrap around at their width; counts of registers, instructions, slots and bytes are
-- bounded by the limits of incs/defines.h and are not reduced.
--
-- Parameters: atoll of the C library (the value of a number's text), the address at which the code
-- arena has room for a block, what uninitialised memory held, and the result of a called function in
-- the meaning of expressions.
-- Allocations from arenas are taken to succeed; incs/memarena.h is another project's library.
-- Not modelled: the functions of the parser that build the tree, the driver, validation of input files,
-- and everything that only prints.
pub mod Prelude
pub mod StringView
pub mod Word
pub mod HashTable
pub mod ErrorHandler
pub mod Ast
pub mod Ir
pub mod SymbolTable
pub mod Lexer
pub mod Parser
pub mod Semantic
pub mod Compile
pub mod IrGen
pub mod Jit
pub mod Tests
