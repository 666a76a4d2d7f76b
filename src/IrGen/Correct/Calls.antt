-- ===== src/IrGen/Correct/Calls.antt =====
-- Calls, from their arguments, and lists of arguments.
use mathlib.Core.List.{append_assoc, append-nil}
use tiny_compile.Prelude.{ℕ, ◌<◌, ◌≤◌, ◌≡◌, sym, ap, Option, some, List, [], ◌∷◌, ◌++◌, arith, ◌∙◌}
use tiny_compile.StringView.{StringView}
use tiny_compile.Ast.Meaning.{◌>>=◌, bind_assoc, eval, eval_args}
use tiny_compile.Ast.{NodeInfo, Node, call, Nodes, nil, cons}
use tiny_compile.Ir.{IrFunction, max_ir_instructions_per_function}
use tiny_compile.Ir.Chunks.{code}
use tiny_compile.Ir.Machine.{Machine, set_vreg, exec, exec-append, step}
use tiny_compile.SymbolTable.{SymbolTable}
use tiny_compile.IrGen.Expressions.{call_instruction, emit_args}
use tiny_compile.IrGen.Correct.Computes.{
  RegistersBelow, read_variable, read-Kept, Kept, Kept-trans, Computes, value, trap, Computes-set,
}
use tiny_compile.IrGen.Correct.Inversion.{Finished}
use tiny_compile.IrGen.Correct.Arguments.{
  values, SameLength, arg_code, values_nil, values_cons, emit_args-code, arg_code-exec_first,
  ComputesArgs, args, args_trap,
}
use tiny_compile.IrGen.Correct.Compiled.{Kept-refl, Compiled, CompiledArgs, finish}

module _ (atoll : StringView → ℕ) (callee : StringView → List ℕ → Option ℕ) (st : SymbolTable) where
  pub args_bind :
      {n r : ℕ} {regs : List ℕ} {m : Machine} {o : Option (List ℕ)} {om : Option Machine}
      (f : List ℕ → Option ℕ) (k : Machine → Option Machine)
      → ComputesArgs n regs m o om
      → ((m' : Machine) → Kept n m m' → Computes n r m (f (values m'.vregs regs)) (k m'))
      → Computes n r m (o >>= f) (om >>= k)
  args_bind f k (args {m' = m'} e kept) rest = rw (← e) (rest m' kept)
  args_bind f k args_trap rest = trap

  pub args-Kept :
      {n : ℕ} {m m' : Machine} (list : Nodes)
      → RegistersBelow st n
      → Kept n m m'
      → eval_args atoll callee (read_variable st m') list
        ≡ eval_args atoll callee (read_variable st m) list
  args-Kept list below k = ap (λ v. eval_args atoll callee v list) (read-Kept st below k)

  -- the `arg` instructions and the call, from a machine that holds the arguments
  pub call_step :
      (i : NodeInfo) (name : StringView) (list : Nodes) (regs : List ℕ) (n r : ℕ) (m m' : Machine)
      → SameLength list regs
      → n ≤ r
      → m.pending ≡ []
      → Kept n m m'
      → Computes n r m (callee name (values m'.vregs regs)) (
          exec callee (arg_code list regs 0) m'
          >>= exec callee (call_instruction i.value_type r name ∷ []))
  unfolding exec step
  call_step i name list regs n r m m' same le p k =
      rw
        (
          arg_code-exec_first callee list regs m' same (k.pending ∙ p),
          bind_assoc (callee name (values m'.vregs regs))
              (λ v. some (set_vreg (record m' { pending = [] }) r v)) some,
        )
        (Computes-set {m' = record m' { pending = [] }} r (callee name (values m'.vregs regs)) le
          (record { vregs = k.vregs; slots = k.slots; pending = sym p }))

  pub compile_call :
      (i : NodeInfo) (name : StringView) (list : Nodes) (f g f' : IrFunction) (regs : List ℕ)
      (r : ℕ)
      → CompiledArgs atoll callee st list f g regs
      → Finished (emit_args list regs 0 g) f' r (call_instruction i.value_type r name)
      → (emit_args list regs 0 g).total_count < max_ir_instructions_per_function
      → f.vreg_count ≤ (emit_args list regs 0 g).vreg_count
      → Compiled atoll callee st (call i name list) f f' r
  unfolding eval
  compile_call i name list f g f' regs r c last short le =
      finish atoll callee st f (emit_args list regs 0 g) f' r _ (c.new ++ arg_code list regs 0)
        (emit_args-code list regs 0 g short
          ∙ rw (c.appended, append_assoc (code f) c.new (arg_code list regs 0)))
        last
        (λ m p.
          rw (exec-append callee c.new (arg_code list regs 0) m, bind_assoc (exec callee c.new m))
            (args_bind _ _ (c.runs m p) (λ m' k.
              call_step i name list regs f.vreg_count r m m' c.matched
                (omega (arith, last.register)) p k)))

  pub compile_nil :
      (f f' : IrFunction) (regs : List ℕ)
      → ◌≡◌ {A = Option (List ℕ) × IrFunction} (some [], f) (some regs, f')
      → CompiledArgs atoll callee st nil f f' regs
  unfolding eval exec
  compile_nil f f' regs e =
      let e₀ : [] ≡ regs = cc (ap (λ (p : Option (List ℕ) × IrFunction). p.0) e) in
      let e₁ : f ≡ f' = ap (λ (p : Option (List ℕ) × IrFunction). p.1) e in
      rw (← e₀, ← e₁)
        (record {
          new = [];
          appended = sym (append-nil (code f));
          below = tt;
          matched = tt;
          runs = λ m p. args (values_nil m.vregs) (Kept-refl f.vreg_count m);
        })

  pub args_after :
      {n k s : ℕ} {v : ℕ} {regs : List ℕ} {m m' : Machine} {o : Option (List ℕ)}
      {om : Option Machine}
      → n ≤ k
      → s < k
      → m'.vregs s ≡ v
      → Kept n m m'
      → ComputesArgs k regs m' o om
      → ComputesArgs n (s ∷ regs) m (o >>= λ vs. some (v ∷ vs)) om
  args_after {regs = regs} le below e kept (args {m' = m₂} h k) =
      args (values_cons m₂.vregs _ regs (k.vregs _ below ∙ e) h) (Kept-trans le kept k)
  args_after le below e kept args_trap = args_trap

  pub args_cons :
      {n s : ℕ} {regs : List ℕ} {m : Machine} {o : Option ℕ} {om : Option Machine}
      (f : Option (List ℕ)) (k : Machine → Option Machine)
      → Computes n s m o om
      → ((v : ℕ) (m' : Machine)
          → m'.vregs s ≡ v
          → Kept n m m'
          → ComputesArgs n (s ∷ regs) m (f >>= λ vs. some (v ∷ vs)) (k m'))
      → ComputesArgs n (s ∷ regs) m (o >>= λ v. f >>= λ vs. some (v ∷ vs)) (om >>= k)
  args_cons f k (value {v = v} {m' = m'} e kept) rest = rest v m' e kept
  args_cons f k trap rest = args_trap

  pub compile_cons :
      (x : Node) (xs : Nodes) (f g f' : IrFunction) (s : ℕ) (regs : List ℕ)
      → RegistersBelow st f.vreg_count
      → Compiled atoll callee st x f g s
      → CompiledArgs atoll callee st xs g f' regs
      → f.vreg_count ≤ g.vreg_count
      → g.vreg_count ≤ f'.vreg_count
      → CompiledArgs atoll callee st (cons x xs) f f' (s ∷ regs)
  unfolding eval
  compile_cons x xs f g f' s regs below c d le₁ le₂ = record {
    new = c.new ++ d.new;
    appended = d.appended ∙ rw (c.appended, append_assoc (code f) c.new d.new);
    below = (omega (arith, c.below), d.below);
    matched = d.matched;
    runs = λ m p. rw (exec-append callee c.new d.new m) (
        args_cons _ _ (c.runs m p) (λ v m' e k.
          rw (← args-Kept xs below k) (args_after le₁ c.below e k (d.runs m' (k.pending ∙ p)))));
  }
