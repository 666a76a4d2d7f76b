-- ===== src/Jit/Link/Resolved.antt =====
-- `jit_link_all` against a description of linking that does not search the registry.
use mathlib.Core.Bool.{true≢false}
use tiny_compile.Prelude.{
  ℕ, ◌+◌, ◌/◌, ◌%◌, ◌^◌, ap, ◌≡◌, ◌≢◌, refl, sym, ◌∙◌, ◌↔◌, ◌⊎◌, ◌==◌, ==_iff, Bool-cases, inl, inr,
  true, false, List, [], ◌∷◌, arith, subst,
}
use tiny_compile.StringView.{StringView, sv_eq, sv_eq_iff, sv_eq_ne}
use tiny_compile.ErrorHandler.{ErrorContext, error_add}
use tiny_compile.Jit.Buffer.{write_bytes}
use tiny_compile.Jit.Context.{CompiledFunction, CallSite}
use tiny_compile.Jit.Link.{bytes_u64, find_function, Linked, link_site, link_loop, jit_link_all}

-- Some function of the registry has the name, and the first that has it has the address.
unfoldable pub IsFirst : StringView → List CompiledFunction → ℕ → Type 0
IsFirst name [] addr = ⊥
IsFirst name (f ∷ fs) addr =
    ((name ≡ f.name) × (f.code_addr ≡ addr)) ⊎ ((name ≢ f.name) × IsFirst name fs addr)

-- The call can be linked: the first function of its name has an address that is not null.
abbrev pub Resolves : List CompiledFunction → StringView → Type 0
Resolves registry name = (addr : ℕ) × IsFirst name registry addr × (addr ≢ 0)

unfoldable pub AllResolve : List CompiledFunction → List CallSite → Type 0
AllResolve registry [] = Unit
AllResolve registry (s ∷ ss) = Resolves registry s.target_name × AllResolve registry ss

-- a number of 64 bits in memory, its low byte first
abbrev pub eight_bytes : ℕ → List ℕ
eight_bytes n =
    n % 2 ^ 8
    ∷ n / 2 ^ 8 % 2 ^ 8
    ∷ n / 2 ^ 16 % 2 ^ 8
    ∷ n / 2 ^ 24 % 2 ^ 8
    ∷ n / 2 ^ 32 % 2 ^ 8
    ∷ n / 2 ^ 40 % 2 ^ 8
    ∷ n / 2 ^ 48 % 2 ^ 8
    ∷ n / 2 ^ 56 % 2 ^ 8
    ∷ []

-- From one memory to another, each call site in turn: at one that can be linked the eight bytes of the
-- address are written, and the others are counted.
pub data Links (registry : List CompiledFunction)
    : List CallSite → (ℕ → ℕ) → (ℕ → ℕ) → ℕ → Type 0 where
  done : {mem : ℕ → ℕ} → Links registry [] mem mem 0
  linked :
      {s : CallSite} {ss : List CallSite} {mem mem' : ℕ → ℕ} {n : ℕ}
      → (addr : ℕ) → IsFirst s.target_name registry addr
      → addr ≢ 0
      → Links registry ss (write_bytes s.patch_location (eight_bytes addr) mem) mem' n
      → Links registry (s ∷ ss) mem mem' n
  missing :
      {s : CallSite} {ss : List CallSite} {mem mem' : ℕ → ℕ} {n : ℕ}
      → ¬ Resolves registry s.target_name
      → Links registry ss mem mem' n
      → Links registry (s ∷ ss) mem mem' (n + 1)

find_function-IsFirst :
    (name : StringView) (fs : List CompiledFunction)
    → find_function name fs ≢ 0
    → IsFirst name fs (find_function name fs)
unfolding find_function IsFirst
find_function-IsFirst name [] h = h refl
find_function-IsFirst name (f ∷ fs) h = elim (Bool-cases (sv_eq name f.name)) [
  | inl q ↦ rw q (inl ((sv_eq_iff name f.name).0 q, refl))
  | inr q ↦ rw q (
      inr (
        λ e. true≢false (sym ((sv_eq_iff name f.name).1 e) ∙ q),
        find_function-IsFirst name fs (rw q at h),
      ))
]

IsFirst-find_function :
    (name : StringView) (fs : List CompiledFunction) (addr : ℕ)
    → IsFirst name fs addr
    → find_function name fs ≡ addr
unfolding find_function IsFirst
IsFirst-find_function name [] addr h = absurd h
IsFirst-find_function name (f ∷ fs) addr (inl (e, at)) = rw ((sv_eq_iff name f.name).1 e) at
IsFirst-find_function name (f ∷ fs) addr (inr (ne, h)) =
    rw (sv_eq_ne name f.name ne) (IsFirst-find_function name fs addr h)

-- A name without an address is not resolved.
find_function-missing :
    (name : StringView) (fs : List CompiledFunction)
    → find_function name fs ≡ 0
    → ¬ Resolves fs name
find_function-missing name fs z (addr, first, ne) =
    ne (sym (IsFirst-find_function name fs addr first) ∙ z)

bytes_u64-eight_bytes : (n : ℕ) → bytes_u64 n ≡ eight_bytes n
bytes_u64-eight_bytes n = ground arith

-- One call site: it is linked, or it is counted.
Outcome : List CompiledFunction → CallSite → Linked → Linked → Type 0
Outcome registry s l l' =
    ((addr : ℕ) × IsFirst s.target_name registry addr
      × (addr ≢ 0)
      × (l'.memory ≡ write_bytes s.patch_location (eight_bytes addr) l.memory)
      × (l'.errors.error_count ≡ l.errors.error_count)
      × (l'.success ≡ l.success))
    ⊎ ((¬ Resolves registry s.target_name)
        × (l'.memory ≡ l.memory)
        × (l'.errors.error_count ≡ l.errors.error_count + 1)
        × (l'.success ≡ false))

link_site-Outcome :
    (registry : List CompiledFunction) (s : CallSite) (l : Linked)
    → Outcome registry s l (link_site s (find_function s.target_name registry) l)
unfolding link_site Outcome error_add
link_site-Outcome registry s l = elim (Bool-cases (find_function s.target_name registry == 0)) [
  | inl z ↦ rw z (
      inr (
        find_function-missing s.target_name registry
            ((==_iff (find_function s.target_name registry) 0).0 z),
        refl,
        refl,
        refl,
      ))
  | inr z ↦
      let ne : find_function s.target_name registry ≢ 0 =
        λ e. true≢false (sym ((==_iff (find_function s.target_name registry) 0).1 e) ∙ z) in
      rw z (
        inl (
          find_function s.target_name registry,
          find_function-IsFirst s.target_name registry ne,
          ne,
          ap (λ bs. write_bytes s.patch_location bs l.memory)
              (bytes_u64-eight_bytes (find_function s.target_name registry)),
          refl,
          refl,
        ))
]

-- The loop goes through the sites and reports those that it counts.
link_loop-Links :
    (registry : List CompiledFunction) (sites : List CallSite) (l : Linked)
    → (n : ℕ) × Links registry sites l.memory (link_loop registry sites l).memory n
      × ((link_loop registry sites l).errors.error_count ≡ l.errors.error_count + n)
unfolding link_loop Outcome
link_loop-Links registry [] l = (0, Links.done, omega arith)
link_loop-Links registry (s ∷ ss) l =
    let l' = link_site s (find_function s.target_name registry) l in
    let (n, rest, count) = link_loop-Links registry ss l' in
    elim (link_site-Outcome registry s l) [
      | inl (addr, first, ne, memory, errors, _) ↦
          let r : Links registry ss (write_bytes s.patch_location (eight_bytes addr) l.memory)
              (link_loop registry ss l').memory n =
            subst (λ m. Links registry ss m (link_loop registry ss l').memory n) memory rest in
          (n, Links.linked addr first ne r, omega (arith, count, errors))
      | inr (not_found, memory, errors, _) ↦
          let r : Links registry ss l.memory (link_loop registry ss l').memory n =
            subst (λ m. Links registry ss m (link_loop registry ss l').memory n) memory rest in
          (n + 1, Links.missing not_found r, omega (arith, count, errors))
    ]

-- `jit_link_all` goes through the recorded call sites in order, where a site can be linked when the
-- first registered function of its name has an address that is not null: it writes the eight bytes of
-- that address at such a site, changes no other memory, and adds one error for each other site.
pub jit_link_all-errors :
    (registry : List CompiledFunction) (sites : List CallSite) (memory : ℕ → ℕ) (e : ErrorContext)
    → (n : ℕ) × Links registry sites memory (jit_link_all registry sites memory e).memory n
      × ((jit_link_all registry sites memory e).errors.error_count ≡ e.error_count + n)
unfolding jit_link_all
jit_link_all-errors registry sites memory e = link_loop-Links registry sites _

link_loop-success :
    (registry : List CompiledFunction) (sites : List CallSite) (l : Linked)
    → ((link_loop registry sites l).success ≡ true)
      ↔ ((l.success ≡ true) × AllResolve registry sites)
unfolding link_loop AllResolve Outcome
link_loop-success registry [] l = (λ h. (h, tt), λ h. h.0)
link_loop-success registry (s ∷ ss) l =
    let l' = link_site s (find_function s.target_name registry) l in
    let (to, from) = link_loop-success registry ss l' in
    elim (link_site-Outcome registry s l) [
      | inl (addr, first, ne, _, _, same) ↦ (
        λ h. let (before, rest) = to h in (sym same ∙ before, ((addr, first, ne), rest)),
        λ h. from (same ∙ h.0, h.1.1),
      )
      | inr (not_found, _, _, failed) ↦
          (λ h. absurd (true≢false (sym (to h).0 ∙ failed)), λ h. absurd (not_found h.1.0))
    ]

-- `jit_link_all` succeeds exactly when for each recorded call site some registered function has its
-- name, and the first that has it has an address that is not null.
pub jit_link_all-success_iff :
    (registry : List CompiledFunction) (sites : List CallSite) (memory : ℕ → ℕ) (e : ErrorContext)
    → ((jit_link_all registry sites memory e).success ≡ true) ↔ AllResolve registry sites
unfolding jit_link_all
jit_link_all-success_iff registry sites memory e =
    let both =
      link_loop-success registry sites (record { memory = memory; errors = e; success = true }) in
    (λ h. (both.0 h).1, λ h. both.1 (refl, h))
