-- ===== src/IrGen.antt =====
-- srcs/ir/ir_gen.c: the lowering of the syntax tree to the intermediate representation.
pub mod Expressions
pub mod Statements
pub mod Accepted
pub mod Growth
pub mod Correct
pub mod Counted
