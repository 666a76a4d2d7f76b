-- ===== src/Jit/Function/Passes.antt =====
-- The pass that measures and the pass that writes, side by side.
pub mod Tracks
pub mod Encoders
pub mod Calls
pub mod Agree
