-- ===== src/Jit/Function/Frame.antt =====
-- The frame that `calculate_aligned_stack_size` makes, and the slots that `get_local_offset` and
-- `get_location` put into it.
use tiny_compile.Prelude.{ℕ, ◌+◌, ◌*◌, ◌%◌, ◌≤◌, ◌<◌, ◌≡◌, ◌↔◌, ◌⊎◌, arith}
use tiny_compile.Prelude.Int.{ℤ, depth, depth-neg}
use tiny_compile.Ir.{IrFunction}
use tiny_compile.Jit.Registers.{callee_saved_size, word_size, stack_alignment}
use tiny_compile.Jit.Context.{spill_offset}
use tiny_compile.Jit.Encoders.{get_local_offset}
use tiny_compile.Jit.Function.{calculate_aligned_stack_size}

-- A slot of 8 bytes at the displacement is between rsp and the saved registers.
abbrev pub InFrame : IrFunction → ℤ → Type 0
InFrame f offset =
    (callee_saved_size + word_size ≤ depth offset)
    × (depth offset ≤ callee_saved_size + calculate_aligned_stack_size f)

depth-get_local_offset : (i : ℕ) → depth (get_local_offset i) ≡ 48 + (i + 1) * 8
unfolding get_local_offset
depth-get_local_offset i = depth-neg (48 + (i + 1) * 8)

depth-spill_offset : (s v : ℕ) → depth (spill_offset s v) ≡ 48 + (s + v + 1) * 8
depth-spill_offset s v = depth-neg (48 + (s + v + 1) * 8)

-- The stack pointer is a multiple of 16 after the prologue: the return address, rbp, the five saved
-- registers and the frame together are one. The frame has room for all locals and registers, and is
-- less than 16 bytes larger.
pub calculate_aligned_stack_size-aligned :
    (f : IrFunction)
    → ((word_size * 2 + callee_saved_size + calculate_aligned_stack_size f) % stack_alignment ≡ 0)
      × ((f.stack_count + f.vreg_count) * word_size ≤ calculate_aligned_stack_size f)
      × (calculate_aligned_stack_size f
          < (f.stack_count + f.vreg_count) * word_size + stack_alignment)
unfolding calculate_aligned_stack_size
calculate_aligned_stack_size-aligned f = ground arith

-- In a function with a register (`ir_gen` starts the count at one), every local has its slot in the
-- frame.
pub local-InFrame :
    (f : IrFunction) (i : ℕ) → i < f.stack_count → 0 < f.vreg_count → InFrame f (get_local_offset i)
unfolding calculate_aligned_stack_size
local-InFrame f i h p = ground (arith, depth-get_local_offset i)

-- The spill slot of a register of the function is in the frame exactly when it is not the last
-- register, or the number of locals and registers is even: the pad of 8 bytes above the locals is
-- not part of the size.
pub spill-InFrame_iff :
    (f : IrFunction) (v : ℕ)
    → v < f.vreg_count
    → InFrame f (spill_offset f.stack_count v)
      ↔ ((v + 1 < f.vreg_count) ⊎ ((f.stack_count + f.vreg_count) % 2 ≡ 0))
unfolding calculate_aligned_stack_size
spill-InFrame_iff f v h = ground (arith, depth-spill_offset f.stack_count v)

-- No local shares its slot with a spilled register.
pub local-spill_disjoint :
    (f : IrFunction) (i v : ℕ)
    → i < f.stack_count
    → depth (get_local_offset i) + word_size ≤ depth (spill_offset f.stack_count v)
local-spill_disjoint f i v h =
    omega (arith, depth-get_local_offset i, depth-spill_offset f.stack_count v)
