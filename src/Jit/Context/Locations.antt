-- ===== src/Jit/Context/Locations.antt =====
-- What `get_location` keeps of the allocation.
use tiny_compile.Prelude.{
  ℕ, zero, suc, ◌+◌, ◌*◌, ◌≡◌, ◌≢◌, refl, sym, ap, ◌∙◌, Bool, true, false, Option, none, some,
  arith, update, update_self, update_ne, if◌then◌else◌,
}
use tiny_compile.Prelude.Int.{ℤ, depth, depth-neg}
use tiny_compile.Jit.Registers.{X86Reg, is_allocatable_register}
use tiny_compile.Jit.Context.{
  Location, loc_none, loc_reg, loc_stack, loc_const, Allocation, free_register, spill_offset,
  is_none, allocate_from, allocate, get_location,
}

-- A register is given out only if it may be, and is marked then; a spilled register has its own
-- slot; no two virtual registers share a register of the machine.
pub record IsAllocated (a : Allocation) : Type 0 where
  pub marked : (v : ℕ) (r : X86Reg) → a.vreg_map v ≡ loc_reg r → a.phys_regs r ≡ true
  pub allowed : (v : ℕ) (r : X86Reg) → a.vreg_map v ≡ loc_reg r → is_allocatable_register r ≡ true
  pub slot : (v : ℕ) (o : ℤ) → a.vreg_map v ≡ loc_stack o → o ≡ spill_offset a.stack_base v
  pub no_const : (v i : ℕ) → a.vreg_map v ≢ loc_const i
  pub unshared :
      (v w : ℕ) (r : X86Reg) → a.vreg_map v ≡ loc_reg r → a.vreg_map w ≡ loc_reg r → v ≡ w

free_register-free :
    (used : ℕ → Bool) (n i : ℕ) (r : X86Reg)
    → free_register used n i ≡ some r
    → (is_allocatable_register r ≡ true) × (used r ≡ false)
unfolding free_register
free_register-free used zero i r h = cc
free_register-free used (suc n) i r h = ground (arith, free_register-free used n (i + 1) r)

give_register :
    (a : Allocation) (v : ℕ) (r : X86Reg)
    → IsAllocated a
    → is_allocatable_register r ≡ true
    → a.phys_regs r ≡ false
    → IsAllocated (record a {
      vreg_map = update a.vreg_map v (loc_reg r);
      phys_regs = update a.phys_regs r true;
    })
give_register a v r k h free = record {
  marked = λ w q e. ground (arith, k.marked w q);
  allowed = λ w q e. ground (arith, k.allowed w q);
  slot = λ w o e. ground (arith, k.slot w o);
  no_const = λ w i e. ground (arith, k.no_const w i);
  unshared = λ w x q e e'. ground (arith, k.unshared w x q, k.marked w q, k.marked x q);
}

give_slot :
    (a : Allocation) (v : ℕ)
    → IsAllocated a
    → IsAllocated
        (record a { vreg_map = update a.vreg_map v (loc_stack (spill_offset a.stack_base v)) })
give_slot a v k = record {
  marked = λ w q e. ground (arith, k.marked w q);
  allowed = λ w q e. ground (arith, k.allowed w q);
  slot = λ w o e. ground (arith, k.slot w o);
  no_const = λ w i e. ground (arith, k.no_const w i);
  unshared = λ w x q e e'. ground (arith, k.unshared w x q);
}

-- The invariant survives a request, the answer is recorded for the register and is a place, and
-- nothing that was given before has moved.
pub record Located (a : Allocation) (v : ℕ) (loc : Location) (a' : Allocation) : Type 0 where
  pub valid : IsAllocated a'
  pub recorded : a'.vreg_map v ≡ loc
  pub placed : loc ≢ loc_none
  pub kept : (w : ℕ) → a.vreg_map w ≢ loc_none → a'.vreg_map w ≡ a.vreg_map w

is_none-false : (l : Location) → is_none l ≡ false → l ≢ loc_none
is_none-false loc_none h = λ e. cc
is_none-false (loc_reg r) h = λ e. cc
is_none-false (loc_stack o) h = λ e. cc
is_none-false (loc_const i) h = λ e. cc

is_none-true : (l : Location) → is_none l ≡ true → l ≡ loc_none
is_none-true loc_none h = refl
is_none-true (loc_reg r) h = cc
is_none-true (loc_stack o) h = cc
is_none-true (loc_const i) h = cc

allocate_from-Located :
    (a : Allocation) (v : ℕ) (r : Option X86Reg)
    → free_register a.phys_regs 16 0 ≡ r
    → IsAllocated a
    → a.vreg_map v ≡ loc_none
    → Located a v (allocate_from a v r).0 (allocate_from a v r).1
allocate_from-Located a v (some r) f k e =
    let (allowed, free) = free_register-free a.phys_regs 16 0 r f in
    record {
      valid = give_register a v r k allowed free;
      recorded = update_self a.vreg_map v (loc_reg r);
      placed = λ h. cc;
      kept = λ w h. update_ne a.vreg_map (loc_reg r) (λ q. h (ap a.vreg_map (sym q) ∙ e));
    }
allocate_from-Located a v none f k e = record {
  valid = give_slot a v k;
  recorded = update_self a.vreg_map v (loc_stack (spill_offset a.stack_base v));
  placed = λ h. cc;
  kept = λ w h.
      update_ne a.vreg_map (loc_stack (spill_offset a.stack_base v))
        (λ q. h (ap a.vreg_map (sym q) ∙ e));
}

if-Located :
    (a : Allocation) (v : ℕ) (b : Bool)
    → is_none (a.vreg_map v) ≡ b
    → IsAllocated a
    → Located a v
        (if b then allocate a v else (a.vreg_map v, a)).0
        (if b then allocate a v else (a.vreg_map v, a)).1
unfolding allocate
if-Located a v true t k =
    allocate_from-Located a v (free_register a.phys_regs 16 0) refl k
      (is_none-true (a.vreg_map v) t)
if-Located a v false t k = record {
  valid = k;
  recorded = refl;
  placed = is_none-false (a.vreg_map v) t;
  kept = λ w h. refl;
}

-- From a valid allocation `get_location` gives a place, leaves a valid allocation that has recorded
-- it, and moves no register that has a place already.
pub get_location-Located :
    (a : Allocation) (v : ℕ) → IsAllocated a → Located a v (get_location a v).0 (get_location a v).1
unfolding get_location
get_location-Located a v k = if-Located a v (is_none (a.vreg_map v)) refl k

spill_offset-injective : (s v w : ℕ) → spill_offset s v ≡ spill_offset s w → v ≡ w
spill_offset-injective s v w h =
    omega (arith, ap depth h, depth-neg (48 + (s + v + 1) * 8), depth-neg (48 + (s + w + 1) * 8))

same_place :
    (a : Allocation) (v w : ℕ) (l : Location)
    → IsAllocated a
    → l ≢ loc_none
    → a.vreg_map v ≡ l
    → a.vreg_map w ≡ l
    → v ≡ w
same_place a v w loc_none k p e e' = absurd (p refl)
same_place a v w (loc_reg r) k p e e' = k.unshared v w r e e'
same_place a v w (loc_stack o) k p e e' =
    spill_offset-injective a.stack_base v w (sym (k.slot v o e) ∙ k.slot w o e')
same_place a v w (loc_const i) k p e e' = absurd (k.no_const v i e)

-- Two virtual registers that have places in a valid allocation do not share one.
pub places_differ :
    (a : Allocation) (v w : ℕ)
    → IsAllocated a
    → a.vreg_map v ≢ loc_none
    → a.vreg_map v ≡ a.vreg_map w
    → v ≡ w
places_differ a v w k p e = same_place a v w (a.vreg_map v) k p refl (sym e)

-- In a valid allocation, two different virtual registers that are asked for one after the other get
-- different places.
pub get_location-differ :
    (a : Allocation) (v w : ℕ)
    → IsAllocated a
    → v ≢ w
    → (get_location a v).0 ≢ (get_location (get_location a v).1 w).0
get_location-differ a v w k h e =
    let first = get_location-Located a v k in
    let second = get_location-Located (get_location a v).1 w first.valid in
    let kept = second.kept v (λ q. first.placed (sym first.recorded ∙ q)) in
    let at_v = kept ∙ first.recorded in
    h (
      places_differ (get_location (get_location a v).1 w).1 v w second.valid
        (λ q. first.placed (sym at_v ∙ q)) (at_v ∙ e ∙ sym second.recorded))
