-- ===== src/Jit/Context.antt =====
-- The state of the generator, `JITContext` of incs/jit.h, and `get_location` of srcs/jit/jit.c.
pub mod Locations
use tiny_compile.Prelude.{
  ℕ, zero, suc, ◌+◌, ◌*◌, ◌/◌, Bool, true, false, not, ◌&&◌, Option, none, some, List, [], update,
  if◌then◌else◌,
}
use tiny_compile.Prelude.Int.{ℤ, neg}
use tiny_compile.StringView.{StringView}
use tiny_compile.Jit.Registers.{X86Reg, is_allocatable_register, callee_saved_size, stack_alignment}

-- The constant form of a location is never made, so its encoder branch is all that reads it.
pub data Location : Type 0 where
  loc_none : Location
  loc_reg : X86Reg → Location
  loc_stack : ℤ → Location
  loc_const : ℕ → Location

pub record Patch : Type 0 where
  pub label_id : ℕ
  pub loc : ℕ

pub record CompiledFunction : Type 0 where
  pub name : StringView
  pub code_addr : ℕ
  pub code_size : ℕ

pub record CallSite : Type 0 where
  pub patch_location : ℕ
  pub target_name : StringView

-- the part of the context that decides where values live: `vreg_map`, `phys_regs`, `stack_base` and
-- the pending arguments (`arg_vregs` up to `count`)
pub record Allocation : Type 0 where
  pub vreg_map : ℕ → Location
  pub phys_regs : ℕ → Bool
  pub stack_base : ℕ
  pub pending_call : List ℕ

-- the part that knows addresses: `label_offset`, `label_defined`, `patches`, the call sites of all
-- functions, and the memory that the code is written to
pub record Addresses : Type 0 where
  pub label_offset : ℕ → ℕ
  pub label_defined : ℕ → Bool
  pub patches : List Patch
  pub call_sites : List CallSite
  pub memory : ℕ → ℕ

pub record JitContext : Type 0 where
  pub alloc : Allocation
  pub addresses : Addresses
  pub registry : List CompiledFunction

-- the loop over the 16 registers: the first that may be given out and is free
unfoldable pub free_register : (ℕ → Bool) → ℕ → ℕ → Option X86Reg
free_register used zero i = none
free_register used (suc n) i =
    let rest = free_register used n (i + 1) in
    if is_allocatable_register i && not (used i) then some i else rest

-- the displacement of the spill slot of a register
abbrev pub spill_offset : ℕ → ℕ → ℤ
spill_offset stack_base vreg =
    neg (callee_saved_size + stack_alignment / 2 + (stack_base + vreg + 1) * (stack_alignment / 2))

abbrev pub assign : Allocation → ℕ → Location → Location × Allocation
assign a vreg loc = (loc, record a { vreg_map = update a.vreg_map vreg loc })

-- the assignment, by the register that is free
abbrev pub allocate_from : Allocation → ℕ → Option X86Reg → Location × Allocation
allocate_from a vreg (some i) =
    assign (record a { phys_regs = update a.phys_regs i true }) vreg (loc_reg i)
allocate_from a vreg none = assign a vreg (loc_stack (spill_offset a.stack_base vreg))

unfoldable pub allocate : Allocation → ℕ → Location × Allocation
allocate a vreg = allocate_from a vreg (free_register a.phys_regs 16 0)

abbrev pub is_none : Location → Bool
is_none loc_none = true
is_none _ = false

unfoldable pub get_location : Allocation → ℕ → Location × Allocation
unfolding allocate
get_location a vreg = if is_none (a.vreg_map vreg) then allocate a vreg else (a.vreg_map vreg, a)
