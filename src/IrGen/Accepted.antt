-- ===== src/IrGen/Accepted.antt =====
-- The expressions that srcs/semantic/semantic.c accepts, in the generator of srcs/ir/ir_gen.c: their
-- form, and the registers that they need.
pub mod Expression
pub mod Shape
pub mod Composed
use tiny_compile.Prelude.{
  ℕ, zero, suc, ◌+◌, ◌-◌, ◌≤◌, ◌<◌, ◌≡◌, refl, ap, Bool, true, false, Option, none, some, List, [],
  ◌∷◌, arith, Bool-cases, inl, inr, leb,
}
use tiny_compile.StringView.{StringView}
use tiny_compile.Ast.{
  NodeInfo, Node, null, number, identifier, binary, unary, call, Nodes, nil, cons, value_type,
}
use tiny_compile.Ir.{IrInstruction, IrFunction, emit, ir_alloc_vreg, max_vregs_per_function}
use tiny_compile.IrGen.Expressions.{Generated, with_vreg, emit_args, arg_instruction}

-- the most registers that the code of an expression can take
unfoldable mutual
  pub vregs_needed : Node → ℕ
  vregs_needed (binary op i l r) = vregs_needed l + vregs_needed r + 1
  vregs_needed (unary op i operand) = vregs_needed operand + 1
  vregs_needed (call i name args) = args_needed args + 1
  vregs_needed node = 1

  pub args_needed : Nodes → ℕ
  args_needed nil = 0
  args_needed (cons x xs) = vregs_needed x + args_needed xs

-- A register is returned, with at most `n` new ones.
pub record Yields (f : IrFunction) (n : ℕ) (o : Generated) : Type 0 where
  pub reg : ℕ
  pub func : IrFunction
  pub result : o ≡ (suc reg, func)
  pub most : func.vreg_count ≤ f.vreg_count + n
  pub positive : 0 < func.vreg_count

pub record YieldsArgs (f : IrFunction) (n : ℕ) (list : Nodes) (o : Option (List ℕ) × IrFunction)
    : Type 0 where
  pub regs : List ℕ
  pub func : IrFunction
  pub result : o ≡ (some regs, func)
  pub most : func.vreg_count ≤ f.vreg_count + n
  pub positive : 0 < func.vreg_count

emit-vreg_count : (i : IrInstruction) (f : IrFunction) → (emit i f).vreg_count ≡ f.vreg_count
unfolding emit
emit-vreg_count i f = ground arith

pub emit_args-vreg_count :
    (list : Nodes) (regs : List ℕ) (k : ℕ) (f : IrFunction)
    → (emit_args list regs k f).vreg_count ≡ f.vreg_count
unfolding emit_args
emit_args-vreg_count nil regs k f = refl
emit_args-vreg_count (cons x xs) [] k f = refl
emit_args-vreg_count (cons x xs) (reg ∷ regs) k f =
    let first = arg_instruction (value_type x) reg k in
    omega (arith, emit_args-vreg_count xs regs (k + 1) (emit first f), emit-vreg_count first f)

-- A new register that the last instruction writes.
pub with_vreg-Yields :
    (f : IrFunction) (inst : ℕ → IrInstruction)
    → 0 < f.vreg_count
    → f.vreg_count < max_vregs_per_function
    → Yields f 1 (with_vreg (ir_alloc_vreg f) (λ reg f'. (reg, emit (inst reg) f')))
unfolding ir_alloc_vreg
with_vreg-Yields f inst pos room = elim (Bool-cases (leb max_vregs_per_function f.vreg_count)) [
  | inl full ↦ absurd (ground arith)
  | inr more ↦ rw more (
      let func = emit (inst f.vreg_count) (record f { vreg_count = f.vreg_count + 1 }) in
      let count =
        emit-vreg_count (inst f.vreg_count) (record f { vreg_count = f.vreg_count + 1 }) in
      let reg : f.vreg_count ≡ suc (f.vreg_count - 1) = omega arith in
      record {
        reg = f.vreg_count - 1;
        func = func;
        result = ap (λ r. (r, func)) reg;
        most = omega (arith, count);
        positive = omega (arith, count);
      })
]
