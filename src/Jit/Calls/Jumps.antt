-- ===== src/Jit/Calls/Jumps.antt =====
-- The displacements of jumps.
use tiny_compile.Prelude.{
  ℕ, ◌+◌, ◌-◌, ◌*◌, ◌/◌, ◌%◌, ◌^◌, ◌<◌, ◌≤◌, ◌≡◌, ◌∙◌, ap, arith, ltb, if◌then◌else◌, update,
}
use tiny_compile.Jit.Buffer.{bytes_u32, write_bytes}
use tiny_compile.Jit.Calls.{relative, patch_jump_offset}

-- a displacement of 32 bits as the processor adds it to a 64-bit address
abbrev pub sign_extended : ℕ → ℕ
sign_extended d = if ltb d (2 ^ 31) then d else d + (2 ^ 64 - 2 ^ 32)

-- Between addresses less than 2 ^ 31 apart, the displacement that `emit_jump` and `patch_jump_offset`
-- store leads from the address behind the jump to the target.
relative-lands :
    (target next : ℕ)
    → target < 2 ^ 64
    → next < 2 ^ 64
    → target < next + 2 ^ 31
    → next ≤ target + 2 ^ 31
    → (next + sign_extended (relative target next)) % 2 ^ 64 ≡ target
unfolding relative
relative-lands target next t n ahead back = ground arith

-- the 32-bit number in memory, its low byte first
abbrev pub read_u32 : (ℕ → ℕ) → ℕ → ℕ
read_u32 mem p = mem p + 2 ^ 8 * mem (p + 1) + 2 ^ 16 * mem (p + 2) + 2 ^ 24 * mem (p + 3)

bytes_u32-sum :
    (v : ℕ)
    → v < 2 ^ 32
    → v % 256
        + 2 ^ 8 * (v / 2 ^ 8 % 256)
        + 2 ^ 16 * (v / 2 ^ 16 % 256)
        + 2 ^ 24 * (v / 2 ^ 24 % 256)
      ≡ v
bytes_u32-sum v h = omega arith

read_four :
    (mem : ℕ → ℕ) (p a b c d : ℕ)
    → read_u32
        (update (update (update (update mem p a) (p + 1) b) (p + 1 + 1) c) (p + 1 + 1 + 1) d)
        p
      ≡ a + 2 ^ 8 * b + 2 ^ 16 * c + 2 ^ 24 * d
read_four mem p a b c d = ground arith

read_u32-write_bytes :
    (p v : ℕ) (mem : ℕ → ℕ) → v < 2 ^ 32 → read_u32 (write_bytes p (bytes_u32 v) mem) p ≡ v
unfolding write_bytes
read_u32-write_bytes p v mem h = read_four mem p _ _ _ _ ∙ bytes_u32-sum v h

relative-bound : (target next : ℕ) → relative target next < 2 ^ 32
unfolding relative
relative-bound target next = omega arith

-- After `patch_jump_offset` at `loc`, with the target less than 2 ^ 31 away from the end of the jump,
-- the displacement that stands at `loc` leads from the end of the jump to the target.
pub patch_jump_offset-lands :
    (loc target : ℕ) (mem : ℕ → ℕ)
    → target < 2 ^ 64
    → loc + 4 < 2 ^ 64
    → target < loc + 4 + 2 ^ 31
    → loc + 4 ≤ target + 2 ^ 31
    → (loc + 4 + sign_extended (read_u32 (patch_jump_offset loc target mem) loc)) % 2 ^ 64 ≡ target
unfolding patch_jump_offset
patch_jump_offset-lands loc target mem t l ahead back =
    ap (λ d. (loc + 4 + sign_extended d) % 2 ^ 64)
      (read_u32-write_bytes loc (relative target (loc + 4)) mem (relative-bound target (loc + 4)))
    ∙ relative-lands target (loc + 4) t l ahead back
