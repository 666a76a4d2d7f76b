-- ===== src/HashTable/Laws.antt =====
-- A table as a finite map: what a write to the entry of an insertion does to all searches.
use mathlib.Core.Bool.{false≢true}
use native.Mathlib.Decide.{ℕ_discrete}
use tiny_compile.Prelude.{
  ℕ, ◌<◌, ◌≡◌, refl, ◌≢◌, ◌⊎◌, inl, inr, Bool, true, false, Option, none, some, arith, update,
  update_self, update_ne, Bool-cases, Option-cases, sym, ap, ◌∙◌, if◌then◌else◌,
}
use tiny_compile.StringView.{StringView, sv_eq, sv_eq_iff, sv_eq_refl}
use tiny_compile.HashTable.{find_slot, target_slot}
use tiny_compile.HashTable.Probing.{
  lookup_loop_found, add_loop_found, add_loop-lookup_loop, lookup_loop-update_self,
  lookup_loop-update-some,
}

module _ {E : Type 0} (occupied : E → Bool) (name_of : E → StringView) (size : ℕ) where
  -- Every entry is found under its name.
  abbrev pub AllFound : (ℕ → E) → Type 0
  AllFound e =
      (d : ℕ)
      → d < size
      → occupied (e d) ≡ true
      → find_slot occupied name_of size e (name_of (e d)) ≡ some d

  -- what a search for a name gives
  abbrev pub entry_at : (ℕ → E) → Option ℕ → Option E
  entry_at e none = none
  entry_at e (some d) = some (e d)

  abbrev pub entry_of : (ℕ → E) → StringView → Option E
  entry_of e m = entry_at e (find_slot occupied name_of size e m)

module _ {E : Type 0} (occupied : E → Bool) (name_of : E → StringView) (size : ℕ)
    (pos : 0 < size) where
  pub find_slot_found :
      (e : ℕ → E) (m : StringView) (d : ℕ)
      → find_slot occupied name_of size e m ≡ some d
      → (occupied (e d) ≡ true) × (sv_eq (name_of (e d)) m ≡ true) × (d < size)
  unfolding find_slot
  find_slot_found e m d h = lookup_loop_found occupied name_of size pos e m _ _ _ d h

  -- An insertion stops where a search succeeds.
  pub target_slot-find_slot :
      (e : ℕ → E) (m : StringView) (d : ℕ)
      → find_slot occupied name_of size e m ≡ some d
      → target_slot occupied name_of size e m ≡ some d
  unfolding find_slot target_slot
  target_slot-find_slot e m d h = add_loop-lookup_loop occupied name_of size pos e m _ _ _ d h

  pub target_slot_found :
      (e : ℕ → E) (m : StringView) (c : ℕ)
      → target_slot occupied name_of size e m ≡ some c
      → ((occupied (e c) ≡ false) ⊎ (sv_eq (name_of (e c)) m ≡ true)) × (c < size)
  unfolding target_slot
  target_slot_found e m c h = add_loop_found occupied name_of size pos e m _ _ _ c h

module _ {E : Type 0} (occupied : E → Bool) (name_of : E → StringView) (size : ℕ) (pos : 0 < size)
    (e : ℕ → E) (s : E) (used : occupied s ≡ true) (c : ℕ)
    (at : target_slot occupied name_of size e (name_of s) ≡ some c) where
  abbrev found : (ℕ → E) → StringView → Option ℕ
  found = find_slot occupied name_of size

  free_or_same : (occupied (e c) ≡ false) ⊎ (sv_eq (name_of (e c)) (name_of s) ≡ true)
  free_or_same = (target_slot_found occupied name_of size pos e (name_of s) c at).0

  pub find_slot-update_self : found (update e c s) (name_of s) ≡ some c
  unfolding find_slot target_slot
  find_slot-update_self =
      lookup_loop-update_self occupied name_of size pos e (name_of s) _ c s used _ _
        (sv_eq_refl (name_of s)) at

  -- A write under another name changes no search: neither one that finds its name ...
  found_after_write :
      (m : StringView) (d : ℕ)
      → name_of s ≢ m
      → found e m ≡ some d
      → found (update e c s) m ≡ some d
  unfolding find_slot
  found_after_write m d ne h =
      lookup_loop-update-some occupied name_of size pos e m _ c s used _ _ d
        (ground (arith, (sv_eq_iff (name_of s) m).0))
        (ground (
          arith,
          (sv_eq_iff (name_of s) m).0,
          (sv_eq_iff (name_of (e c)) (name_of s)).0,
          free_or_same,
        ))
        h

  found_after :
      (m : StringView) (d : ℕ)
      → name_of s ≢ m
      → found (update e c s) m ≡ some d
      → (occupied (e d) ≡ true) × (sv_eq (name_of (e d)) m ≡ true) × (d < size)
  found_after m d ne h = ground (
    arith,
    (sv_eq_iff (name_of s) m).0,
    find_slot_found occupied name_of size pos (update e c s) m d h,
  )

  -- ... nor one that does not.
  update_other :
      (m : StringView)
      → AllFound occupied name_of size e
      → name_of s ≢ m
      → found (update e c s) m ≡ found e m
  update_other m all ne = elim (Option-cases (found e m)) [
    | inr (d, h) ↦ rw h (found_after_write m d ne h)
    | inl h ↦ elim (Option-cases (found (update e c s) m)) [
      | inl k ↦ rw (h, k)
      | inr (d, k) ↦
          let (taken, same, lt) = found_after m d ne k in
          cc (all d lt taken, (sv_eq_iff (name_of (e d)) m).0 same)
    ]
  ]

  -- If the name was there, its entry is the one that is written.
  target_of_found : (d : ℕ) → found e (name_of s) ≡ some d → c ≡ d
  target_of_found d h = cc (target_slot-find_slot occupied name_of size pos e (name_of s) d h)

  kept_entry :
      AllFound occupied name_of size e
      → (d : ℕ) → c ≢ d
      → d < size
      → occupied (e d) ≡ true
      → found (update e c s) (name_of (e d)) ≡ some d
  kept_entry all d ne lt taken = elim (Bool-cases (sv_eq (name_of s) (name_of (e d)))) [
    | inl same ↦
        let q = (sv_eq_iff (name_of s) (name_of (e d))).0 same in
        absurd (ne (target_of_found d (ap (found e) q ∙ all d lt taken)))
    | inr other ↦
        found_after_write (name_of (e d)) d
          (λ q. absurd (false≢true (sym other ∙ (sv_eq_iff (name_of s) (name_of (e d))).1 q)))
          (all d lt taken)
  ]

  -- The write keeps every entry findable.
  pub update-AllFound :
      AllFound occupied name_of size e → AllFound occupied name_of size (update e c s)
  update-AllFound all d lt taken = elim (ℕ_discrete c d) [
    | yes q ↦ rw (← q) (rw (update_self e c) find_slot-update_self)
    | no ne ↦
        let q : update e c s d ≡ e d = update_ne e s ne in
        rw q (kept_entry all d ne lt (rw q at taken))
  ]

  kept_at :
      (m : StringView) (o : Option ℕ)
      → name_of s ≢ m
      → found e m ≡ o
      → entry_at occupied name_of size (update e c s) o ≡ entry_at occupied name_of size e o
  kept_at m none ne h = refl
  kept_at m (some d) ne h = elim (ℕ_discrete c d) [
    | no other ↦ ap some (update_ne e s other)
    | yes q ↦ absurd (
        ground (
          arith,
          find_slot_found occupied name_of size pos e m d h,
          free_or_same,
          (sv_eq_iff (name_of (e d)) m).0,
          (sv_eq_iff (name_of (e c)) (name_of s)).0,
        ))
  ]

  -- The searched entries after the write: the new one under its name, the old ones under any other.
  pub entry_of-update :
      (m : StringView)
      → AllFound occupied name_of size e
      → entry_of occupied name_of size (update e c s) m
        ≡ (if sv_eq (name_of s) m then some s else entry_of occupied name_of size e m)
  entry_of-update m all = elim (Bool-cases (sv_eq (name_of s) m)) [
    | inl same ↦
        let q = (sv_eq_iff (name_of s) m).0 same in
        rw (same, ← q) (rw find_slot-update_self (ap some (update_self e c s)))
    | inr other ↦
        let ne : name_of s ≢ m = λ q. false≢true (sym other ∙ (sv_eq_iff (name_of s) m).1 q) in
        rw other (rw (update_other m all ne) (kept_at m _ ne refl))
  ]
