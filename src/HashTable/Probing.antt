-- ===== src/HashTable/Probing.antt =====
-- The two probe loops, and what a write to one entry does to them.
use tiny_compile.Prelude.{ℕ, zero, suc, ◌+◌, ◌<◌, ◌≡◌, ◌⊎◌, Bool, true, false, some, arith, update}
use native.Mathlib.Nat.{mod-lt}
use tiny_compile.StringView.{StringView, sv_eq}
use tiny_compile.HashTable.{lookup_loop, add_loop}

module _ {E : Type 0} (occupied : E → Bool) (name_of : E → StringView) (size : ℕ) (pos : 0 < size)
    (e : ℕ → E) (m : StringView) (idx : ℕ) where
  -- What a lookup finds is an occupied slot of the array that holds the name.
  pub lookup_loop_found :
      (n i c : ℕ)
      → lookup_loop occupied name_of size e m idx n i ≡ some c
      → (occupied (e c) ≡ true) × (sv_eq (name_of (e c)) m ≡ true) × (c < size)
  unfolding lookup_loop
  lookup_loop_found zero i c h = cc
  lookup_loop_found (suc n) i c h =
      ground (arith, lookup_loop_found n (i + 1) c, mod-lt (idx + i) pos)

  -- The slot that is written is free or holds the name.
  pub add_loop_found :
      (n i c : ℕ)
      → add_loop occupied name_of size e m idx n i ≡ some c
      → ((occupied (e c) ≡ false) ⊎ (sv_eq (name_of (e c)) m ≡ true)) × (c < size)
  unfolding add_loop
  add_loop_found zero i c h = cc
  add_loop_found (suc n) i c h = ground (arith, add_loop_found n (i + 1) c, mod-lt (idx + i) pos)

  -- A lookup looks where an insertion would write.
  pub add_loop-lookup_loop :
      (n i c : ℕ)
      → lookup_loop occupied name_of size e m idx n i ≡ some c
      → add_loop occupied name_of size e m idx n i ≡ some c
  unfolding lookup_loop add_loop
  add_loop-lookup_loop zero i c h = cc
  add_loop-lookup_loop (suc n) i c h = ground (arith, add_loop-lookup_loop n (i + 1) c)

module _ {E : Type 0} (occupied : E → Bool) (name_of : E → StringView) (size : ℕ) (pos : 0 < size)
    (e : ℕ → E) (m : StringView) (idx c : ℕ) (s : E) (used : occupied s ≡ true) where
  -- After the write the name is found in its slot.
  pub lookup_loop-update_self :
      (n i : ℕ)
      → sv_eq (name_of s) m ≡ true
      → add_loop occupied name_of size e m idx n i ≡ some c
      → lookup_loop occupied name_of size (update e c s) m idx n i ≡ some c
  unfolding lookup_loop add_loop
  lookup_loop-update_self zero i same h = cc
  lookup_loop-update_self (suc n) i same h = ground (
    arith,
    lookup_loop-update_self n (i + 1) same,
    add_loop_found occupied name_of size pos e m idx n (i + 1) c,
  )

  -- A write to a slot that was free, or that held another name than `m`, hides no entry of `m`.
  pub lookup_loop-update-some :
      (n i d : ℕ)
      → sv_eq (name_of s) m ≡ false
      → (occupied (e c) ≡ false) ⊎ (sv_eq (name_of (e c)) m ≡ false)
      → lookup_loop occupied name_of size e m idx n i ≡ some d
      → lookup_loop occupied name_of size (update e c s) m idx n i ≡ some d
  unfolding lookup_loop
  lookup_loop-update-some zero i d other free h = cc
  lookup_loop-update-some (suc n) i d other free h =
      ground (arith, lookup_loop-update-some n (i + 1) d other free)
