-- ===== src/Word.antt =====
-- Values of 64 bits, as their bit patterns below 2 ^ 64: what an `int64_t` register holds, and the
-- operations that the instructions of the machine perform on it.
use tiny_compile.Prelude.{
  ℕ, ◌+◌, ◌-◌, ◌*◌, ◌/◌, ◌%◌, ◌^◌, Bool, true, false, Option, none, some, ltb, leb, ◌==◌,
  if◌then◌else◌, ◌&&◌,
}

abbrev pub word_mod : ℕ
word_mod = 2 ^ 64

abbrev pub sign_bit : ℕ
sign_bit = 2 ^ 63

pub is_negative : ℕ → Bool
is_negative a = leb sign_bit a

pub word_add : ℕ → ℕ → ℕ
word_add a b = (a + b) % word_mod

pub word_sub : ℕ → ℕ → ℕ
word_sub a b = (a + word_mod - b) % word_mod

pub word_mul : ℕ → ℕ → ℕ
word_mul a b = a * b % word_mod

unfoldable pub word_neg : ℕ → ℕ
word_neg a = (word_mod - a) % word_mod

pub word_not : ℕ → ℕ
word_not a = word_mod - 1 - a

-- the absolute value of the integer that the pattern stands for
magnitude : ℕ → ℕ
unfolding is_negative
magnitude a = if is_negative a then word_mod - a else a

-- The signed quotient, rounded towards zero; `none` is the trap on a zero divisor and on the one
-- quotient that does not fit.
pub word_div : ℕ → ℕ → Option ℕ
unfolding magnitude is_negative word_neg
word_div a b =
    if b == 0
    then none
    else if (a == sign_bit) && (b == word_mod - 1)
    then none
    else some (
        let q = magnitude a / magnitude b in
        if is_negative a
        then (if is_negative b then q else word_neg q)
        else if is_negative b
        then word_neg q
        else q)

-- signed order, by moving both patterns half way round
unfoldable pub word_lt : ℕ → ℕ → Bool
word_lt a b = ltb ((a + sign_bit) % word_mod) ((b + sign_bit) % word_mod)

pub flag : Bool → ℕ
flag true = 1
flag false = 0

-- A shift takes its count modulo 64.
pub word_shl : ℕ → ℕ → ℕ
word_shl a k = a * 2 ^ (k % 64) % word_mod

pub word_shr : ℕ → ℕ → ℕ
word_shr a k = a / 2 ^ (k % 64)

pub word_sar : ℕ → ℕ → ℕ
unfolding is_negative
word_sar a k =
    if is_negative a then word_mod - 1 - (word_mod - 1 - a) / 2 ^ (k % 64) else a / 2 ^ (k % 64)

-- Memory cells of 8 bytes: a load of 1 or 4 bytes extends the sign, a store of 1 or 4 bytes leaves
-- the rest of the cell; any other size moves the whole cell.
unfoldable pub load_sized : ℕ → ℕ → ℕ
load_sized size cell =
    if size == 1
    then (let b = cell % 2 ^ 8 in if ltb b (2 ^ 7) then b else b + (word_mod - 2 ^ 8))
    else if size == 4
    then (let b = cell % 2 ^ 32 in if ltb b (2 ^ 31) then b else b + (word_mod - 2 ^ 32))
    else cell

unfoldable pub store_sized : ℕ → ℕ → ℕ → ℕ
store_sized size cell v =
    if size == 1
    then cell - cell % 2 ^ 8 + v % 2 ^ 8
    else if size == 4
    then cell - cell % 2 ^ 32 + v % 2 ^ 32
    else v
