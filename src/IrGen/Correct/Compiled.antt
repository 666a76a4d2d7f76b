-- ===== src/IrGen/Correct/Compiled.antt =====
-- What it means that code was appended which computes a node, and its last instruction.
use mathlib.Core.List.{append_assoc, append-nil}
use tiny_compile.Prelude.{
  ℕ, ◌<◌, ◌≤◌, ◌≡◌, refl, sym, Option, some, List, [], ◌∷◌, ◌++◌, arith, ◌∙◌,
}
use tiny_compile.StringView.{StringView}
use tiny_compile.Ast.Meaning.{◌>>=◌, eval, eval_args}
use tiny_compile.Ast.{Node, Nodes}
use tiny_compile.Ir.{IrInstruction, IrFunction}
use tiny_compile.Ir.Chunks.{code}
use tiny_compile.Ir.Machine.{Machine, set_vreg, exec, exec-append}
use tiny_compile.SymbolTable.{SymbolTable}
use tiny_compile.IrGen.Correct.Computes.{
  RegistersBelow, read_variable, Kept, Computes, Computes-set,
}
use tiny_compile.IrGen.Correct.Inversion.{Finished}
use tiny_compile.IrGen.Correct.Arguments.{AllBelow, SameLength, ComputesArgs}

pub Kept-refl : (n : ℕ) (m : Machine) → Kept n m m
Kept-refl n m = record { vregs = λ k h. refl; slots = refl; pending = refl }

pub RegistersBelow-mono :
    {n k : ℕ} (st : SymbolTable) → RegistersBelow st n → n ≤ k → RegistersBelow st k
RegistersBelow-mono st below le = λ name s e on_stack. omega (arith, below name s e on_stack)

module _ (atoll : StringView → ℕ) (callee : StringView → List ℕ → Option ℕ) (st : SymbolTable) where
  abbrev pub meaning : Machine → Node → Option ℕ
  meaning m = eval atoll callee (read_variable st m)

  -- From `f` to `f'` code was appended that computes the node into register `r`.
  pub record Compiled (node : Node) (f f' : IrFunction) (r : ℕ) : Type 0 where
    pub new : List IrInstruction
    pub appended : code f' ≡ code f ++ new
    pub below : r < f'.vreg_count
    pub runs :
        (m : Machine)
        → m.pending ≡ []
        → Computes f.vreg_count r m (meaning m node) (exec callee new m)

  pub record CompiledArgs (list : Nodes) (f f' : IrFunction) (regs : List ℕ) : Type 0 where
    pub new : List IrInstruction
    pub appended : code f' ≡ code f ++ new
    pub below : AllBelow f'.vreg_count regs
    pub matched : SameLength list regs
    pub runs :
        (m : Machine)
        → m.pending ≡ []
        → ComputesArgs f.vreg_count regs m
            (eval_args atoll callee (read_variable st m) list)
            (exec callee new m)

  -- The last instruction, after the code of the operands.
  pub finish :
      {node : Node} (f g f' : IrFunction) (r : ℕ) (i : IrInstruction) (new : List IrInstruction)
      → code g ≡ code f ++ new
      → Finished g f' r i
      → ((m : Machine)
          → m.pending ≡ []
          → Computes f.vreg_count r m (meaning m node) (exec callee new m >>= exec callee (i ∷ [])))
      → Compiled node f f' r
  finish f g f' r i new e last runs = record {
    new = new ++ i ∷ [];
    appended = last.appended ∙ rw (e, append_assoc (code f) new (i ∷ []));
    below = last.below;
    runs = λ m p. rw (exec-append callee new (i ∷ []) m) (runs m p);
  }

  -- a single instruction that writes a value which is there
  pub finish_value :
      {node : Node} (f f' : IrFunction) (r : ℕ) (i : IrInstruction) (v : Machine → ℕ)
      → Finished f f' r i
      → ((m : Machine) → meaning m node ≡ some (v m))
      → ((m : Machine) → exec callee (i ∷ []) m ≡ some (set_vreg m r (v m)))
      → Compiled node f f' r
  unfolding exec
  finish_value f f' r i v last means does =
      finish f f f' r i [] (sym (append-nil (code f))) last (λ m p.
        rw (means m, does m)
          (Computes-set r (some (v m)) (omega (arith, last.register)) (Kept-refl f.vreg_count m)))
