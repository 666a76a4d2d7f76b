-- ===== src/IrGen/Accepted/Expression.antt =====
-- `gen_expression` of srcs/ir/ir_gen.c on typed expressions.
use tiny_compile.Prelude.{
  ℕ, zero, suc, ◌+◌, ◌≤◌, ◌<◌, ◌≡◌, refl, Bool, true, false, some, List, [], ◌∷◌, arith,
}
use tiny_compile.StringView.{StringView}
use tiny_compile.Ast.{
  NodeInfo, Parameter, Node, null, number, identifier, binary, unary, if_stmt, while_stmt,
  return_stmt, var_decl, assignment, block, function, translation_unit, call, Nodes, nil, cons,
  value_type,
}
use tiny_compile.Ir.{IrFunction, max_vregs_per_function}
use tiny_compile.SymbolTable.{SymbolTable, symbol_table_lookup}
use tiny_compile.Semantic.{VarInfo, SemanticAnalyzer}
use tiny_compile.Semantic.Scopes.{semantic_scope_lookup}
use tiny_compile.Semantic.Expressions.Rules.{IsExpression, AreExpressions, IsTyped, AreTyped}
use tiny_compile.IrGen.Expressions.{
  Generated, read_symbol, gen_number, gen_identifier, gen_expression, gen_args, emit_args,
  unary_instruction, unary_opcode, binary_instruction, binary_opcode, call_instruction,
  const_instruction, load_instruction,
}
use tiny_compile.IrGen.Accepted.{
  vregs_needed, args_needed, Yields, YieldsArgs, emit_args-vreg_count, with_vreg-Yields,
}

-- Every declared variable is known to the generator, in a slot or in a register, which is not 0.
unfoldable pub Covers : SemanticAnalyzer → SymbolTable → Type 0
Covers sa st =
    (name : StringView) (var : VarInfo)
    → semantic_scope_lookup sa.current name ≡ some var
    → (c : ℕ) × (symbol_table_lookup st name ≡ some c)
      × ((st.entries c).is_stack ≡ false → 0 < (st.entries c).index)

read_symbol-Yields :
    (i : NodeInfo) (on_stack : Bool) (index : ℕ) (f : IrFunction)
    → (on_stack ≡ false → 0 < index)
    → 0 < f.vreg_count
    → f.vreg_count < max_vregs_per_function
    → Yields f 1 (read_symbol i on_stack index f)
read_symbol-Yields i true index f h pos room =
    with_vreg-Yields f (λ temp. load_instruction i.value_type temp index) pos room
read_symbol-Yields i false zero f h pos room = absurd (omega (arith, h refl))
read_symbol-Yields i false (suc index) f h pos room = record {
  reg = index;
  func = f;
  result = refl;
  most = omega arith;
  positive = pos;
}

-- The operands come first, then the result's own register.
after :
    (f g : IrFunction) (n : ℕ) (o : Generated)
    → g.vreg_count ≤ f.vreg_count + n
    → Yields g 1 o
    → Yields f (n + 1) o
after f g n o more y = record {
  reg = y.reg;
  func = y.func;
  result = y.result;
  most = omega (arith, y.most);
  positive = y.positive;
}

module _ (atoll : StringView → ℕ) (sa : SemanticAnalyzer) (st : SymbolTable)
    (covers : Covers sa st) where
  identifier-Yields :
      (i : NodeInfo) (name : StringView) (f : IrFunction) (var : VarInfo)
      → semantic_scope_lookup sa.current name ≡ some var
      → 0 < f.vreg_count
      → f.vreg_count < max_vregs_per_function
      → Yields f 1 (gen_identifier st i name f)
  unfolding gen_identifier Covers
  identifier-Yields i name f var at pos room =
      let (c, found, reg) = covers name var at in
      rw found (read_symbol-Yields i (st.entries c).is_stack (st.entries c).index f reg pos room)

  mutual
    unfolding gen_expression gen_number IsExpression IsTyped vregs_needed

    pub yields :
        (node : Node) (f : IrFunction)
        → IsExpression node
        → IsTyped atoll sa node
        → 0 < f.vreg_count
        → f.vreg_count + vregs_needed node ≤ max_vregs_per_function
        → Yields f (vregs_needed node) (gen_expression atoll st node f)
    yields null f x t pos room = elim x [ ]
    yields (number i text) f x t pos room =
        with_vreg-Yields f (λ reg. const_instruction i.value_type reg (atoll text)) pos
          (omega arith)
    yields (identifier i name) f x (var, at, _) pos room =
        identifier-Yields i name f var at pos (omega arith)
    yields (unary op i operand) f x (t, _) pos room =
        let y = yields operand f x t pos (omega arith) in
        rw y.result (
          after f y.func (vregs_needed operand) _ y.most (
            with_vreg-Yields y.func
              (λ dest. unary_instruction (unary_opcode op) i.value_type dest (suc y.reg)) y.positive
              (omega (arith, y.most))))
    yields (binary op i l r) f (x, x') (t, t', _) pos room =
        let y = yields l f x t pos (omega arith) in
        let z = yields r y.func x' t' y.positive (omega (arith, y.most)) in
        rw y.result (
          rw z.result (
            after f z.func (vregs_needed l + vregs_needed r) _ (omega (arith, y.most, z.most)) (
              with_vreg-Yields z.func
                (λ dest.
                  binary_instruction (binary_opcode op (value_type l)) i.value_type dest (suc y.reg)
                    (suc z.reg))
                z.positive (omega (arith, y.most, z.most)))))
    yields (call i name args) f x (func, _, _, _, t) pos room =
        let y = yields_args args f func.params x t pos (omega arith) in
        let count = emit_args-vreg_count args y.regs 0 y.func in
        rw y.result (
          after f (emit_args args y.regs 0 y.func) (args_needed args) _
            (omega (arith, count, y.most))
            (with_vreg-Yields (emit_args args y.regs 0 y.func)
              (λ result. call_instruction i.value_type result name)
              (omega (arith, count, y.positive)) (omega (arith, count, y.most))))
    yields (var_decl i n t v) f x _ pos room = elim x [ ]
    yields (assignment i n v) f x _ pos room = elim x [ ]
    yields (return_stmt i v) f x _ pos room = elim x [ ]
    yields (if_stmt i c t e) f x _ pos room = elim x [ ]
    yields (while_stmt i c b) f x _ pos room = elim x [ ]
    yields (block i l) f x _ pos room = elim x [ ]
    yields (function i h b) f x _ pos room = elim x [ ]
    yields (translation_unit i l) f x _ pos room = elim x [ ]

    yields_args :
        (list : Nodes) (f : IrFunction) (params : List Parameter)
        → AreExpressions list
        → AreTyped atoll sa list params
        → 0 < f.vreg_count
        → f.vreg_count + args_needed list ≤ max_vregs_per_function
        → YieldsArgs f (args_needed list) list (gen_args atoll st list f)
    yields_args nil f params x t pos room = record {
      regs = [];
      func = f;
      result = refl;
      most = omega arith;
      positive = pos;
    }
    yields_args (cons n ns) f [] x t pos room = elim t [ ]
    yields_args (cons n ns) f (param ∷ params) (x, xs) (t, _, ts) pos room =
        let y = yields n f x t pos (omega arith) in
        let z = yields_args ns y.func params xs ts y.positive (omega (arith, y.most)) in
        rw y.result (
          rw z.result (record {
            regs = suc y.reg ∷ z.regs;
            func = z.func;
            result = refl;
            most = omega (arith, y.most, z.most);
            positive = z.positive;
          }))
