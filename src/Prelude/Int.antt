-- ===== src/Prelude/Int.antt =====
-- Signed integers over the native numbers, as far as displacements need them.
use tiny_compile.Prelude.{ℕ, zero, suc, ◌-◌, ◌%◌, ◌^◌, ◌≡◌, refl}

-- `negsuc n` is -(n + 1).
pub data ℤ : Type 0 where
  pos : ℕ → ℤ
  negsuc : ℕ → ℤ

-- -n
abbrev pub neg : ℕ → ℤ
neg zero = pos 0
neg (suc n) = negsuc n

-- The conversion of a signed value to an unsigned 32-bit one.
unfoldable pub to_u32 : ℤ → ℕ
to_u32 (pos n) = n % 2 ^ 32
to_u32 (negsuc n) = 2 ^ 32 - 1 - n % 2 ^ 32

-- how far a displacement is below zero
abbrev pub depth : ℤ → ℕ
depth (pos n) = 0
depth (negsuc n) = suc n

pub depth-neg : (n : ℕ) → depth (neg n) ≡ n
depth-neg zero = refl
depth-neg (suc n) = refl
