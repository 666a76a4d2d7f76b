-- ===== src/IrGen/Correct/Operators.antt =====
-- Unary and binary operators, from their operands.
use mathlib.Core.List.{append_assoc}
use tiny_compile.Prelude.{
  ℕ, ◌<◌, ◌≤◌, ◌≡◌, refl, ap, Option, some, List, [], ◌∷◌, ◌++◌, arith, ◌∙◌, Bool-cases, inl, inr,
}
use tiny_compile.StringView.{StringView}
use tiny_compile.Word.{word_div}
use tiny_compile.Ast.Types.{DataType, type_is_unsigned}
use tiny_compile.Ast.Meaning.{◌>>=◌, bind_assoc, eval, binary_meaning, unary_meaning}
use tiny_compile.Ast.{BinaryOp, UnaryOp, NodeInfo, Node, binary, unary, value_type}
use tiny_compile.Ir.{IrFunction}
use tiny_compile.Ir.Chunks.{code}
use tiny_compile.Ir.Machine.{Machine, set_vreg, exec, exec-append, step, run_binary}
use tiny_compile.SymbolTable.{SymbolTable}
use tiny_compile.IrGen.Expressions.{
  unary_opcode, binary_opcode, unary_instruction, binary_instruction,
}
use tiny_compile.IrGen.Correct.Computes.{
  RegistersBelow, read-Kept, Kept, Computes, Computes-bind, Computes-set, Computes-after,
}
use tiny_compile.IrGen.Correct.Inversion.{Finished}
use tiny_compile.IrGen.Correct.Compiled.{meaning, Compiled, finish}

module _ (callee : StringView → List ℕ → Option ℕ) where
  pub unary_step :
      (op : UnaryOp) (t : DataType) (d s : ℕ) (m : Machine)
      → exec callee (unary_instruction (unary_opcode op) t d s ∷ []) m
        ≡ some (set_vreg m d (unary_meaning op (m.vregs s)))
  unfolding exec step unary_meaning
  unary_step UnaryOp.negate t d s m = refl
  unary_step UnaryOp.not t d s m = refl
  unary_step UnaryOp.bit_not t d s m = refl

  pub binary_step :
      (op : BinaryOp) (lt t : DataType) (d l r : ℕ) (m : Machine)
      → exec callee (binary_instruction (binary_opcode op lt) t d l r ∷ []) m
        ≡ (binary_meaning op lt (m.vregs l) (m.vregs r) >>= λ v. some (set_vreg m d v))
  unfolding exec step binary_meaning run_binary
  binary_step BinaryOp.div lt t d l r m =
      bind_assoc (word_div (m.vregs l) (m.vregs r)) (λ v. some (set_vreg m d v)) some
  binary_step BinaryOp.rshift lt t d l r m = elim (Bool-cases (type_is_unsigned lt)) [
    | inl e ↦ rw e
    | inr e ↦ rw e
  ]
  binary_step op lt t d l r m = refl

module _ (atoll : StringView → ℕ) (callee : StringView → List ℕ → Option ℕ) (st : SymbolTable) where
  pub compile_unary :
      (op : UnaryOp) (i : NodeInfo) (operand : Node) (f g f' : IrFunction) (s r : ℕ)
      → Compiled atoll callee st operand f g s
      → Finished g f' r (unary_instruction (unary_opcode op) i.value_type r s)
      → f.vreg_count ≤ g.vreg_count
      → Compiled atoll callee st (unary op i operand) f f' r
  unfolding eval
  compile_unary op i operand f g f' s r c last le =
      finish atoll callee st f g f' r _ c.new c.appended last (λ m p.
        Computes-bind _ _ (c.runs m p) (λ m' k.
          rw (unary_step callee op i.value_type r s m') (
            Computes-set r (some (unary_meaning op (m'.vregs s))) (omega (arith, last.register))
              k)))

  pub meaning-Kept :
      {n : ℕ} {m m' : Machine} (node : Node)
      → RegistersBelow st n
      → Kept n m m'
      → meaning atoll callee st m' node ≡ meaning atoll callee st m node
  meaning-Kept node below k = ap (λ v. eval atoll callee v node) (read-Kept st below k)

  pub second_operand :
      (op : BinaryOp) (i : NodeInfo) (lt : DataType) (right : Node) (g h : IrFunction) (s t r : ℕ)
      (m : Machine)
      → s < g.vreg_count
      → g.vreg_count ≤ r
      → m.pending ≡ []
      → (c : Compiled atoll callee st right g h t)
      → Computes g.vreg_count r m
          (meaning atoll callee st m right >>= binary_meaning op lt (m.vregs s))
          (exec callee c.new m
            >>= exec callee (binary_instruction (binary_opcode op lt) i.value_type r s t ∷ []))
  second_operand op i lt right g h s t r m below le p c = Computes-bind _ _ (c.runs m p) (λ m' k.
      rw (binary_step callee op lt i.value_type r s t m', ← k.vregs s below)
        (Computes-set r (binary_meaning op lt (m'.vregs s) (m'.vregs t)) le k))

  pub compile_binary :
      (op : BinaryOp) (i : NodeInfo) (left right : Node) (f g h f' : IrFunction) (s t r : ℕ)
      → RegistersBelow st f.vreg_count
      → Compiled atoll callee st left f g s
      → Compiled atoll callee st right g h t
      → Finished h f' r (binary_instruction (binary_opcode op (value_type left)) i.value_type r s t)
      → f.vreg_count ≤ g.vreg_count
      → g.vreg_count ≤ h.vreg_count
      → Compiled atoll callee st (binary op i left right) f f' r
  unfolding eval
  compile_binary op i left right f g h f' s t r below c d last le₁ le₂ =
      finish atoll callee st f h f' r _ (c.new ++ d.new)
        (d.appended ∙ rw (c.appended, append_assoc (code f) c.new d.new)) last
        (λ m p.
          rw (exec-append callee c.new d.new m, bind_assoc (exec callee c.new m))
            (Computes-bind _ _ (c.runs m p) (λ m' k. Computes-after le₁ k (
              rw (← meaning-Kept right below k) (
                second_operand op i (value_type left) right g h s t r m' c.below
                  (omega (arith, last.register)) (k.pending ∙ p) d)))))
