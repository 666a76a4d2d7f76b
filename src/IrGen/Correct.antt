-- ===== src/IrGen/Correct.antt =====
-- Correctness of the code that srcs/ir/ir_gen.c generates for expressions.
pub mod Computes
pub mod Inversion
pub mod Arguments
pub mod Compiled
pub mod Operators
pub mod Calls
pub mod Names
pub mod Expression
