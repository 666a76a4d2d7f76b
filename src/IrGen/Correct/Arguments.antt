-- ===== src/IrGen/Correct/Arguments.antt =====
-- The arguments of a call: the registers that hold them, and the `arg` instructions.
use mathlib.Core.List.{append_assoc, append-nil}
use tiny_compile.Prelude.{
  ℕ, ◌+◌, ◌<◌, ◌≡◌, refl, sym, ap, Option, none, some, List, [], ◌∷◌, ◌++◌, arith, ◌∙◌,
}
use tiny_compile.StringView.{StringView}
use tiny_compile.Ast.{Nodes, nil, cons, value_type}
use tiny_compile.Ir.{IrInstruction, IrFunction, emit, max_ir_instructions_per_function}
use tiny_compile.Ir.Chunks.{code, emit-code}
use tiny_compile.Ir.Machine.{Machine, exec, step}
use tiny_compile.IrGen.Growth.{emit-Grows, emit_args-Grows}
use tiny_compile.IrGen.Expressions.{emit_args, arg_instruction}
use tiny_compile.IrGen.Correct.Computes.{Kept}

pub values : (ℕ → ℕ) → List ℕ → List ℕ
values v [] = []
values v (r ∷ rs) = v r ∷ values v rs

abbrev pub AllBelow : ℕ → List ℕ → Type 0
AllBelow n [] = Unit
AllBelow n (r ∷ rs) = (r < n) × AllBelow n rs

abbrev pub SameLength : Nodes → List ℕ → Type 0
SameLength nil [] = Unit
SameLength nil (r ∷ rs) = ⊥
SameLength (cons x xs) [] = ⊥
SameLength (cons x xs) (r ∷ rs) = SameLength xs rs

pub values-Kept :
    {n : ℕ} {m m' : Machine} (rs : List ℕ)
    → AllBelow n rs
    → Kept n m m'
    → values m'.vregs rs ≡ values m.vregs rs
unfolding values
values-Kept [] below k = refl
values-Kept (r ∷ rs) below k = rw (k.vregs r below.0, values-Kept rs below.1 k)

pub values_nil : (v : ℕ → ℕ) → values v [] ≡ []
unfolding values
values_nil v = refl

pub values_cons :
    (v : ℕ → ℕ) (r : ℕ) (rs : List ℕ) {x : ℕ} {xs : List ℕ}
    → v r ≡ x
    → values v rs ≡ xs
    → values v (r ∷ rs) ≡ x ∷ xs
unfolding values
values_cons v r rs p q = cc

-- the instructions of `emit_args`
pub arg_code : Nodes → List ℕ → ℕ → List IrInstruction
arg_code (cons x xs) (r ∷ rs) i = arg_instruction (value_type x) r i ∷ arg_code xs rs (i + 1)
arg_code _ _ i = []

pub emit_args-code :
    (args : Nodes) (regs : List ℕ) (i : ℕ) (f : IrFunction)
    → (emit_args args regs i f).total_count < max_ir_instructions_per_function
    → code (emit_args args regs i f) ≡ code f ++ arg_code args regs i
unfolding emit_args arg_code
emit_args-code nil regs i f h = sym (append-nil (code f))
emit_args-code (cons x xs) [] i f h = sym (append-nil (code f))
emit_args-code (cons x xs) (r ∷ rs) i f h =
    let j = arg_instruction (value_type x) r i in
    let later = emit_args-Grows xs rs (i + 1) (emit j f) in
    emit_args-code xs rs (i + 1) (emit j f) h
    ∙ rw (
      emit-code j f (omega (arith, (emit-Grows j f).instructions, later.instructions)),
      append_assoc (code f) (j ∷ []) (arg_code xs rs (i + 1)),
    )

-- what the `arg` instructions do
pub arg_code-exec :
    (callee : StringView → List ℕ → Option ℕ) (args : Nodes) (regs : List ℕ) (i : ℕ) (m : Machine)
    → SameLength args regs
    → exec callee (arg_code args regs i) m
      ≡ some (record m { pending = m.pending ++ values m.vregs regs })
unfolding arg_code values exec step
arg_code-exec callee nil [] i m h = rw append-nil
arg_code-exec callee nil (r ∷ rs) i m h = absurd h
arg_code-exec callee (cons x xs) [] i m h = absurd h
arg_code-exec callee (cons x xs) (r ∷ rs) i m h =
    arg_code-exec callee xs rs (i + 1) (record m { pending = m.pending ++ m.vregs r ∷ [] }) h
    ∙ rw (append_assoc m.pending (m.vregs r ∷ []) (values m.vregs rs))

pub arg_code-exec_first :
    (callee : StringView → List ℕ → Option ℕ) (args : Nodes) (regs : List ℕ) (m : Machine)
    → SameLength args regs
    → m.pending ≡ []
    → exec callee (arg_code args regs 0) m ≡ some (record m { pending = values m.vregs regs })
arg_code-exec_first callee args regs m h p =
    arg_code-exec callee args regs 0 m h
    ∙ ap (λ l. some (record m { pending = l ++ values m.vregs regs })) p

-- the registers hold the values of the arguments, or one of them traps
pub data ComputesArgs (n : ℕ) (regs : List ℕ) (m : Machine)
    : Option (List ℕ) → Option Machine → Type 0 where
  args :
      {vs : List ℕ} {m' : Machine}
      → values m'.vregs regs ≡ vs
      → Kept n m m'
      → ComputesArgs n regs m (some vs) (some m')
  args_trap : ComputesArgs n regs m none none
