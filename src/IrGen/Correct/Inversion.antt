-- ===== src/IrGen/Correct/Inversion.antt =====
-- What a successful generator has done.
use tiny_compile.Prelude.{
  ℕ, zero, suc, ◌+◌, ◌<◌, ◌≡◌, refl, ap, Option, none, some, List, [], ◌∷◌, ◌++◌, arith, Bool-cases,
  inl, inr, leb,
}
use tiny_compile.StringView.{StringView}
use tiny_compile.Ast.{NodeInfo, Nodes}
use tiny_compile.Ir.{
  IrInstruction, IrFunction, emit, ir_alloc_vreg, max_ir_instructions_per_function,
  max_vregs_per_function,
}
use tiny_compile.Ir.Chunks.{code, emit-code}
use tiny_compile.IrGen.Growth.{emit-Grows}
use tiny_compile.IrGen.Expressions.{
  Generated, with_vreg, unless_zero, add_arg, next_args, finish_call, emit_args, call_instruction,
}

pub unless_zero-eq :
    (o : Generated) (k : ℕ → IrFunction → Generated) {r : ℕ} {f : IrFunction}
    → unless_zero o k ≡ (suc r, f)
    → (s : ℕ) × (g : IrFunction) × (o ≡ (suc s, g)) × (k (suc s) g ≡ (suc r, f))
unless_zero-eq (zero, g) k e = absurd (omega (arith, ap (λ (p : Generated). p.0) e))
unless_zero-eq (suc s, g) k e = (s, g, refl, e)

pub next_args-eq :
    (o : Generated) (k : IrFunction → Option (List ℕ) × IrFunction) {regs : List ℕ} {f : IrFunction}
    → next_args o k ≡ (some regs, f)
    → (s : ℕ) × (g : IrFunction) × (rs : List ℕ) × (o ≡ (suc s, g))
      × (k g ≡ (some rs, f))
      × (regs ≡ suc s ∷ rs)
next_args-eq (zero, g) k {regs} {f} e = cc (ap (λ (p : Option (List ℕ) × IrFunction). p.0) e)
next_args-eq (suc s, g) k {regs} {f} e = go (k g) refl e
  where
    go :
        (o : Option (List ℕ) × IrFunction)
        → k g ≡ o
        → add_arg (suc s) o ≡ (some regs, f)
        → (s' : ℕ) × (g' : IrFunction) × (rs : List ℕ) × (◌≡◌ {A = Generated}
            (suc s, g)
            (suc s', g'))
          × (k g' ≡ (some rs, f))
          × (regs ≡ suc s' ∷ rs)
    go (none, h) e₁ e₂ = cc (ap (λ (p : Option (List ℕ) × IrFunction). p.0) e₂)
    go (some rs, h) e₁ e₂ = (s, g, rs, refl, cc, cc)

-- the last step of every generator: a new register, and the instruction that writes it
pub record Finished (f f' : IrFunction) (r : ℕ) (i : IrInstruction) : Type 0 where
  pub register : f.vreg_count ≡ r
  pub appended : code f' ≡ code f ++ i ∷ []
  pub below : r < f'.vreg_count
  pub before : f.total_count < max_ir_instructions_per_function

pub finished :
    (f : IrFunction) (i : ℕ → IrInstruction) {r : ℕ} {f' : IrFunction}
    → with_vreg (ir_alloc_vreg f) (λ reg g. (reg, emit (i reg) g)) ≡ (suc r, f')
    → f'.total_count < max_ir_instructions_per_function
    → Finished f f' (suc r) (i (suc r))
unfolding ir_alloc_vreg
finished f i {r} {f'} e short = elim (Bool-cases (leb max_vregs_per_function f.vreg_count)) [
  | inl full ↦ absurd (omega (arith, ap (λ (p : Generated). p.0) (rw full at e)))
  | inr room ↦
      let g : IrFunction = record f { vreg_count = f.vreg_count + 1 } in
      let e₀ : f.vreg_count ≡ suc r = ap (λ (p : Generated). p.0) (rw room at e) in
      let e₁ : emit (i f.vreg_count) g ≡ f' = ap (λ (p : Generated). p.1) (rw room at e) in
      let grows = emit-Grows (i f.vreg_count) g in
      record {
        register = e₀;
        before = omega (arith, grows.instructions, ap (λ (h : IrFunction). h.total_count) e₁);
        appended =
            rw (← e₁, ← e₀)
              (emit-code (i f.vreg_count) g
                (omega (arith, grows.instructions, ap (λ (h : IrFunction). h.total_count) e₁)));
        below = omega (arith, grows.vregs, ap (λ (h : IrFunction). h.vreg_count) e₁);
      }
]

-- what `finish_call` leaves to `finished`
pub finish_call-eq :
    (i : NodeInfo) (name : StringView) (args : Nodes) (o : Option (List ℕ) × IrFunction) {r : ℕ}
    {f : IrFunction}
    → finish_call i name args o ≡ (suc r, f)
    → (regs : List ℕ) × (g : IrFunction) × (o ≡ (some regs, g))
      × (with_vreg
            (ir_alloc_vreg (emit_args args regs 0 g))
            (λ result f'. (result, emit (call_instruction i.value_type result name) f'))
          ≡ (suc r, f))
finish_call-eq i name args (none, g) e = absurd (omega (arith, ap (λ (p : Generated). p.0) e))
finish_call-eq i name args (some regs, g) e = (regs, g, refl, e)
