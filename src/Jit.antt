-- ===== src/Jit.antt =====
-- srcs/jit and incs/jit.h: the generator of x86-64 code.
pub mod Registers
pub mod Buffer
pub mod Emit
pub mod Context
pub mod Operands
pub mod Encoders
pub mod Calls
pub mod Dispatch
pub mod Function
pub mod Link
pub mod Pass
