-- ===== src/IrGen/Correct/Expression.antt =====
-- The generated code of an expression computes what the expression means.
use tiny_compile.Prelude.{ℕ, suc, ◌<◌, ◌≡◌, refl, ap, subst, Option, some, List, ◌∷◌, arith}
use tiny_compile.StringView.{StringView}
use tiny_compile.Ast.Meaning.{eval}
use tiny_compile.Ast.{
  BinaryOp, UnaryOp, NodeInfo, Node, null, number, identifier, binary, unary, if_stmt, while_stmt,
  return_stmt, var_decl, assignment, block, function, translation_unit, call, Nodes, nil, cons,
  value_type,
}
use tiny_compile.Ir.{IrFunction, emit, ir_alloc_vreg, max_ir_instructions_per_function}
use tiny_compile.Ir.Machine.{exec, step}
use tiny_compile.SymbolTable.{SymbolTable, symbol_table_lookup}
use tiny_compile.IrGen.Growth.{Grows, gen_expression-Grows, gen_args-Grows, emit_args-Grows}
use tiny_compile.IrGen.Expressions.{
  Generated, with_vreg, unary_opcode, binary_opcode, unary_instruction, binary_instruction,
  call_instruction, const_instruction, gen_number, gen_identifier, gen_expression, gen_args,
  emit_args,
}
use tiny_compile.IrGen.Correct.Computes.{RegistersBelow}
use tiny_compile.IrGen.Correct.Inversion.{unless_zero-eq, next_args-eq, finished, finish_call-eq}
use tiny_compile.IrGen.Correct.Compiled.{RegistersBelow-mono, Compiled, CompiledArgs, finish_value}
use tiny_compile.IrGen.Correct.Operators.{compile_unary, compile_binary}
use tiny_compile.IrGen.Correct.Calls.{compile_call, compile_nil, compile_cons}
use tiny_compile.IrGen.Correct.Names.{compile_lookup}

module _ (atoll : StringView → ℕ) (callee : StringView → List ℕ → Option ℕ) (st : SymbolTable) where
  -- The failing result of a statement node is no register.
  no_register : {f f' : IrFunction} {r : ℕ} → ◌≡◌ {A = Generated} (0, f) (suc r, f') → ⊥
  no_register e = omega (arith, ap (λ (p : Generated). p.0) e)

  -- what `Grows` says of a generator whose result is known
  grown :
      (node : Node) (f g : IrFunction) (r : ℕ) → gen_expression atoll st node f ≡ (r, g) → Grows f g
  grown node f g r e =
      subst (λ (p : Generated). Grows f p.1) e (gen_expression-Grows atoll st node f)

  grown_args :
      (list : Nodes) (f g : IrFunction) (o : Option (List ℕ))
      → gen_args atoll st list f ≡ (o, g)
      → Grows f g
  grown_args list f g o e =
      subst (λ (p : Option (List ℕ) × IrFunction). Grows f p.1) e (gen_args-Grows atoll st list f)

  -- the cases of the induction, with the calls on the operands passed in
  abbrev Bound : IrFunction → Type 0
  Bound f = f.total_count < max_ir_instructions_per_function

  unary_case :
      (op : UnaryOp) (i : NodeInfo) (operand : Node) (f g f' : IrFunction) (s r : ℕ)
      → gen_expression atoll st operand f ≡ (suc s, g)
      → with_vreg
          (ir_alloc_vreg g)
          (λ dest h. (dest, emit (unary_instruction (unary_opcode op) i.value_type dest (suc s)) h))
        ≡ (suc r, f')
      → Bound f'
      → (Bound g → RegistersBelow st f.vreg_count → Compiled atoll callee st operand f g (suc s))
      → RegistersBelow st f.vreg_count
      → Compiled atoll callee st (unary op i operand) f f' (suc r)
  unary_case op i operand f g f' s r e₁ e₂ short c below =
      let last =
        finished g (λ d. unary_instruction (unary_opcode op) i.value_type d (suc s)) e₂ short in
      compile_unary atoll callee st op i operand f g f' (suc s) (suc r) (c last.before below) last
        (grown operand f g (suc s) e₁).vregs

  binary_case :
      (op : BinaryOp) (i : NodeInfo) (left right : Node) (f g h f' : IrFunction) (s t r : ℕ)
      → gen_expression atoll st left f ≡ (suc s, g)
      → gen_expression atoll st right g ≡ (suc t, h)
      → with_vreg (ir_alloc_vreg h) (λ dest k. (
        dest,
        emit
            (binary_instruction
              (binary_opcode op (value_type left))
              i.value_type
              dest
              (suc s)
              (suc t))
            k,
      ))
        ≡ (suc r, f')
      → Bound f'
      → (Bound g → RegistersBelow st f.vreg_count → Compiled atoll callee st left f g (suc s))
      → (Bound h → RegistersBelow st g.vreg_count → Compiled atoll callee st right g h (suc t))
      → RegistersBelow st f.vreg_count
      → Compiled atoll callee st (binary op i left right) f f' (suc r)
  binary_case op i left right f g h f' s t r e₁ e₂ e₃ short c d below =
      let last =
        finished h
          (λ dest.
            binary_instruction (binary_opcode op (value_type left)) i.value_type dest (suc s)
              (suc t))
          e₃ short in
      let left_grown = grown left f g (suc s) e₁ in
      let right_grown = grown right g h (suc t) e₂ in
      compile_binary atoll callee st op i left right f g h f' (suc s) (suc t) (suc r) below
        (c (omega (arith, last.before, right_grown.instructions)) below)
        (d last.before (RegistersBelow-mono st below left_grown.vregs)) last left_grown.vregs
        right_grown.vregs

  call_case :
      (i : NodeInfo) (name : StringView) (list : Nodes) (f g f' : IrFunction) (regs : List ℕ)
      (r : ℕ)
      → gen_args atoll st list f ≡ (some regs, g)
      → with_vreg
          (ir_alloc_vreg (emit_args list regs 0 g))
          (λ result k. (result, emit (call_instruction i.value_type result name) k))
        ≡ (suc r, f')
      → Bound f'
      → (Bound g → RegistersBelow st f.vreg_count → CompiledArgs atoll callee st list f g regs)
      → RegistersBelow st f.vreg_count
      → Compiled atoll callee st (call i name list) f f' (suc r)
  call_case i name list f g f' regs r e₁ e₂ short c below =
      let h = emit_args list regs 0 g in
      let last = finished h (λ d. call_instruction i.value_type d name) e₂ short in
      let more = emit_args-Grows list regs 0 g in
      compile_call atoll callee st i name list f g f' regs (suc r)
        (c (omega (arith, last.before, more.instructions)) below) last last.before
        (omega (arith, (grown_args list f g (some regs) e₁).vregs, more.vregs))

  cons_case :
      (x : Node) (xs : Nodes) (f g f' : IrFunction) (s : ℕ) (rs regs : List ℕ)
      → gen_expression atoll st x f ≡ (suc s, g)
      → gen_args atoll st xs g ≡ (some rs, f')
      → regs ≡ suc s ∷ rs
      → Bound f'
      → (Bound g → RegistersBelow st f.vreg_count → Compiled atoll callee st x f g (suc s))
      → (Bound f' → RegistersBelow st g.vreg_count → CompiledArgs atoll callee st xs g f' rs)
      → RegistersBelow st f.vreg_count
      → CompiledArgs atoll callee st (cons x xs) f f' regs
  cons_case x xs f g f' s rs regs e₁ e₂ e₃ short c d below =
      let first = grown x f g (suc s) e₁ in
      let others = grown_args xs g f' (some rs) e₂ in
      rw e₃ (
        compile_cons atoll callee st x xs f g f' (suc s) rs below
          (c (omega (arith, short, others.instructions)) below)
          (d short (RegistersBelow-mono st below first.vregs)) first.vregs others.vregs)

  mutual
    unfolding gen_expression gen_number gen_identifier eval exec step

    compile :
        (node : Node) (f : IrFunction) {r : ℕ} {f' : IrFunction}
        → gen_expression atoll st node f ≡ (suc r, f')
        → f'.total_count < max_ir_instructions_per_function
        → RegistersBelow st f.vreg_count
        → Compiled atoll callee st node f f' (suc r)
    compile null f e short below = absurd (no_register e)
    compile (number i text) f {r} {f'} e short below =
        finish_value atoll callee st f f' (suc r) _ (λ m. atoll text)
          (finished f (λ reg. const_instruction i.value_type reg (atoll text)) e short) (λ m. refl)
          (λ m. refl)
    compile (identifier i name) f {r} {f'} e short below =
        compile_lookup atoll callee st i name (symbol_table_lookup st name) f refl e short below
    compile (call i name list) f {r} {f'} e short below =
        let (regs, g, e₁, e₂) = finish_call-eq i name list (gen_args atoll st list f) e in
        call_case i name list f g f' regs r e₁ e₂ short (compile_args list f e₁) below
    compile (unary op i operand) f {r} {f'} e short below =
        let (s, g, e₁, e₂) = unless_zero-eq (gen_expression atoll st operand f) _ e in
        unary_case op i operand f g f' s r e₁ e₂ short (compile operand f e₁) below
    compile (binary op i left right) f {r} {f'} e short below =
        let (s, g, e₁, e₂) = unless_zero-eq (gen_expression atoll st left f) _ e in
        let (t, h, e₃, e₄) = unless_zero-eq (gen_expression atoll st right g) _ e₂ in
        binary_case op i left right f g h f' s t r e₁ e₃ e₄ short (compile left f e₁)
          (compile right g e₃) below
    compile (var_decl i _ _ _) f e short below = absurd (no_register e)
    compile (assignment i _ _) f e short below = absurd (no_register e)
    compile (return_stmt i _) f e short below = absurd (no_register e)
    compile (if_stmt i _ _ _) f e short below = absurd (no_register e)
    compile (while_stmt i _ _) f e short below = absurd (no_register e)
    compile (block i _) f e short below = absurd (no_register e)
    compile (function i _ _) f e short below = absurd (no_register e)
    compile (translation_unit i _) f e short below = absurd (no_register e)

    compile_args :
        (list : Nodes) (f : IrFunction) {regs : List ℕ} {f' : IrFunction}
        → gen_args atoll st list f ≡ (some regs, f')
        → f'.total_count < max_ir_instructions_per_function
        → RegistersBelow st f.vreg_count
        → CompiledArgs atoll callee st list f f' regs
    compile_args nil f {regs} {f'} e short below = compile_nil atoll callee st f f' regs e
    compile_args (cons x xs) f {regs} {f'} e short below =
        let (s, g, rs, e₁, e₂, e₃) = next_args-eq (gen_expression atoll st x f) _ e in
        cons_case x xs f g f' s rs regs e₁ e₂ e₃ short (compile x f e₁) (compile_args xs g e₂) below

  -- When `gen_expression` gives a register for a node, below the limit on instructions and with the
  -- names of the symbol table bound to registers that exist, it has only appended code, the register
  -- is one of the function's, and from every machine without pending arguments the new code ends
  -- with the value of the node in that register and all older registers and all slots unchanged, or
  -- traps when the value of the node does not exist.
  pub gen_expression-Compiled :
      (node : Node) (f : IrFunction) (r : ℕ) (f' : IrFunction)
      → gen_expression atoll st node f ≡ (suc r, f')
      → f'.total_count < max_ir_instructions_per_function
      → RegistersBelow st f.vreg_count
      → Compiled atoll callee st node f f' (suc r)
  gen_expression-Compiled node f r f' e short below = compile node f e short below
