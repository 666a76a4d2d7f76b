-- ===== src/Jit/Buffer.antt =====
-- The output of the encoders: `emit_u8`, `emit_u32` and `emit_u64` of srcs/jit/emit.c. A cursor is the
-- write pointer, null in the pass that only measures, the byte count, and the memory.
use tiny_compile.Prelude.{
  ℕ, ◌+◌, ◌/◌, ◌%◌, ◌^◌, ◌≡◌, refl, Option, none, some, List, [], ◌∷◌, ◌++◌, arith, update, length,
}

pub record Cursor : Type 0 where
  pub buf : Option ℕ
  pub size : ℕ
  pub mem : ℕ → ℕ

-- a byte at the write pointer
abbrev pub emit_at : Option ℕ → ℕ → Cursor → Cursor
emit_at none byte c = record c { size = c.size + 1 }
emit_at (some p) byte c = record {
  buf = some (p + 1);
  size = c.size + 1;
  mem = update c.mem p byte;
}

unfoldable pub emit_u8 : ℕ → Cursor → Cursor
emit_u8 byte c = emit_at c.buf byte c

-- one `emit_u8` after the other
unfoldable pub emit_bytes : List ℕ → Cursor → Cursor
emit_bytes [] c = c
emit_bytes (b ∷ bs) c = emit_bytes bs (emit_u8 b c)

abbrev pub bytes_u32 : ℕ → List ℕ
bytes_u32 val = val % 256 ∷ val / 2 ^ 8 % 256 ∷ val / 2 ^ 16 % 256 ∷ val / 2 ^ 24 % 256 ∷ []

unfoldable pub emit_u32 : ℕ → Cursor → Cursor
emit_u32 val c = emit_bytes (bytes_u32 val) c

unfoldable pub emit_u64 : ℕ → Cursor → Cursor
unfolding emit_u32
emit_u64 val c = emit_u32 (val / 2 ^ 32 % 2 ^ 32) (emit_u32 (val % 2 ^ 32) c)

-- `memcpy(p, ...)`
unfoldable pub write_bytes : ℕ → List ℕ → (ℕ → ℕ) → ℕ → ℕ
write_bytes p [] mem = mem
write_bytes p (b ∷ bs) mem = write_bytes (p + 1) bs (update mem p b)

emit_at-size : (p : Option ℕ) (b : ℕ) (c : Cursor) → (emit_at p b c).size ≡ c.size + 1
emit_at-size none b c = refl
emit_at-size (some p) b c = refl

emit_u8-size : (b : ℕ) (c : Cursor) → (emit_u8 b c).size ≡ c.size + 1
unfolding emit_u8
emit_u8-size b c = emit_at-size c.buf b c

-- The count does not depend on whether there is a buffer.
pub emit_bytes-size : (bs : List ℕ) (c : Cursor) → (emit_bytes bs c).size ≡ c.size + length bs
unfolding emit_bytes
emit_bytes-size [] c = omega arith
emit_bytes-size (b ∷ bs) c = omega (arith, emit_bytes-size bs (emit_u8 b c), emit_u8-size b c)

pub emit_bytes-append :
    (xs ys : List ℕ) (c : Cursor) → emit_bytes (xs ++ ys) c ≡ emit_bytes ys (emit_bytes xs c)
unfolding emit_bytes
emit_bytes-append [] ys c = refl
emit_bytes-append (x ∷ xs) ys c = emit_bytes-append xs ys (emit_u8 x c)
