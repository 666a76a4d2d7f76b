-- ===== src/HashTable.antt =====
-- Open addressing as srcs/ir/ir_symboltable.c and the scopes of srcs/semantic/semantic.c do it: the hash
-- of a name and the two loops that probe an array of a size that is a power of two, from the hash on
-- and round the end. `& (size - 1)` is `%`. The loops count the rounds left.
pub mod Probing
pub mod Laws
use tiny_compile.Prelude.{
  ℕ, zero, suc, ◌+◌, ◌*◌, ◌%◌, ◌^◌, ◌-◌, bit_xor, Bool, true, false, not, ◌||◌, Option, none, some,
  List, [], ◌∷◌, ltb, if◌then◌else◌,
}
use tiny_compile.StringView.{StringView, sv_eq}

-- A `char` is signed, so a byte from 128 up is extended by ones.
extend_char : ℕ → ℕ
extend_char c = if ltb c 128 then c else c + (2 ^ 32 - 256)

hash_bytes : ℕ → StringView → ℕ
unfolding extend_char
hash_bytes hash [] = hash
hash_bytes hash (c ∷ sv) = hash_bytes (bit_xor hash (extend_char c) * 16777619 % 2 ^ 32) sv

unfoldable pub hash_sv : StringView → ℕ
unfolding hash_bytes
hash_sv sv = hash_bytes 2166136261 sv

-- an entry of either table: whether it is occupied, and its name
module _ {E : Type 0} (occupied : E → Bool) (name_of : E → StringView) (size : ℕ) where
  -- A search stops at a free entry, or at one of the name.
  unfoldable pub lookup_loop : (ℕ → E) → StringView → ℕ → ℕ → ℕ → Option ℕ
  lookup_loop entries name idx zero i = none
  lookup_loop entries name idx (suc n) i =
      let curr = (idx + i) % size in
      let rest = lookup_loop entries name idx n (i + 1) in
      if not (occupied (entries curr))
      then none
      else if sv_eq (name_of (entries curr)) name
      then some curr
      else rest

  -- the entry at which an insertion stops; `none` when the table is full
  unfoldable pub add_loop : (ℕ → E) → StringView → ℕ → ℕ → ℕ → Option ℕ
  add_loop entries name idx zero i = none
  add_loop entries name idx (suc n) i =
      let curr = (idx + i) % size in
      let rest = add_loop entries name idx n (i + 1) in
      if not (occupied (entries curr)) || sv_eq (name_of (entries curr)) name
      then some curr
      else rest

  unfoldable pub find_slot : (ℕ → E) → StringView → Option ℕ
  find_slot entries name = lookup_loop entries name (hash_sv name % size) size 0

  unfoldable pub target_slot : (ℕ → E) → StringView → Option ℕ
  target_slot entries name = add_loop entries name (hash_sv name % size) size 0
