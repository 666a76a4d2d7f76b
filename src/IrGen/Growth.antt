-- ===== src/IrGen/Growth.antt =====
-- The generators of expressions only ever add: registers and instructions never go back, and slots
-- and labels are left alone, on the failing branches too.
use tiny_compile.Prelude.{
  ℕ, zero, suc, ◌+◌, ◌≤◌, ◌≡◌, refl, Option, none, some, Bool, true, false, List, [], ◌∷◌, arith,
}
use tiny_compile.StringView.{StringView}
use tiny_compile.Ast.{
  NodeInfo, Node, null, number, identifier, binary, unary, if_stmt, while_stmt, return_stmt,
  var_decl, assignment, block, function, translation_unit, call, Nodes, nil, cons, value_type,
}
use tiny_compile.Ir.{IrInstruction, IrFunction, emit, ir_alloc_vreg}
use tiny_compile.ErrorHandler.{ErrorContext}
use tiny_compile.Ir.Chunks.{IsChunked, emit-IsChunked}
use tiny_compile.SymbolTable.{SymbolTable, symbol_table_lookup}
use tiny_compile.IrGen.Expressions.{
  Generated, with_vreg, unless_zero, emit_args, arg_instruction, add_arg, next_args, finish_call,
  read_symbol, finish_identifier, gen_number, gen_identifier, gen_expression, gen_args,
}

pub record Grows (f f' : IrFunction) : Type 0 where
  pub instructions : f.total_count ≤ f'.total_count
  pub vregs : f.vreg_count ≤ f'.vreg_count
  pub slots : f.stack_count ≡ f'.stack_count
  pub labels : f.label_count ≡ f'.label_count
  pub chunked : IsChunked f → IsChunked f'

pub Grows-refl : (f : IrFunction) → Grows f f
Grows-refl f = record {
  instructions = omega arith;
  vregs = omega arith;
  slots = refl;
  labels = refl;
  chunked = λ h. h;
}

pub Grows-trans : {f g h : IrFunction} → Grows f g → Grows g h → Grows f h
Grows-trans a b = record {
  instructions = omega arith;
  vregs = omega arith;
  slots = omega arith;
  labels = omega arith;
  chunked = λ h. b.chunked (a.chunked h);
}

-- a diagnostic is added
pub report-Grows : (e : ErrorContext) (f : IrFunction) → Grows f (record f { errors = e })
report-Grows e f = record {
  instructions = omega arith;
  vregs = omega arith;
  slots = refl;
  labels = refl;
  chunked = λ h. record { fit = h.fit; counted = h.counted; bounded = h.bounded };
}

pub emit-Grows : (i : IrInstruction) (f : IrFunction) → Grows f (emit i f)
unfolding emit
emit-Grows i f = record {
  instructions = ground arith;
  vregs = ground arith;
  slots = ground arith;
  labels = ground arith;
  chunked = λ h. emit-IsChunked i f h;
}

alloc-IsChunked : (f : IrFunction) → IsChunked f → IsChunked (ir_alloc_vreg f).1
unfolding ir_alloc_vreg
alloc-IsChunked f h = ground (arith, h.fit, h.counted, h.bounded)

pub alloc-Grows : (f : IrFunction) → Grows f (ir_alloc_vreg f).1
unfolding ir_alloc_vreg
alloc-Grows f = record {
  instructions = ground arith;
  vregs = ground arith;
  slots = ground arith;
  labels = ground arith;
  chunked = λ h. alloc-IsChunked f h;
}

with_vreg-Grows :
    {f : IrFunction} (o : Option ℕ × IrFunction) (k : ℕ → IrFunction → Generated)
    → Grows f o.1
    → ((reg : ℕ) (g : IrFunction) → Grows g (k reg g).1)
    → Grows f (with_vreg o k).1
with_vreg-Grows (none, g) k h next = h
with_vreg-Grows (some reg, g) k h next = Grows-trans h (next reg g)

unless_zero-Grows :
    {f : IrFunction} (o : Generated) (k : ℕ → IrFunction → Generated)
    → Grows f o.1
    → ((reg : ℕ) (g : IrFunction) → Grows g (k reg g).1)
    → Grows f (unless_zero o k).1
unless_zero-Grows (zero, g) k h next = h
unless_zero-Grows (suc reg, g) k h next = Grows-trans h (next (suc reg) g)

add_arg-Grows :
    {f : IrFunction} (reg : ℕ) (o : Option (List ℕ) × IrFunction)
    → Grows f o.1
    → Grows f (add_arg reg o).1
add_arg-Grows reg (none, g) h = h
add_arg-Grows reg (some regs, g) h = h

next_args-Grows :
    {f : IrFunction} (o : Generated) (k : IrFunction → Option (List ℕ) × IrFunction)
    → Grows f o.1
    → ((g : IrFunction) → Grows g (k g).1)
    → Grows f (next_args o k).1
next_args-Grows (zero, g) k h next = h
next_args-Grows (suc reg, g) k h next = Grows-trans h (add_arg-Grows (suc reg) (k g) (next g))

pub emit_args-Grows :
    (args : Nodes) (regs : List ℕ) (i : ℕ) (f : IrFunction) → Grows f (emit_args args regs i f)
unfolding emit_args
emit_args-Grows nil regs i f = Grows-refl f
emit_args-Grows (cons x xs) [] i f = Grows-refl f
emit_args-Grows (cons x xs) (reg ∷ regs) i f =
    let j = arg_instruction (value_type x) reg i in
    Grows-trans (emit-Grows j f) (emit_args-Grows xs regs (i + 1) (emit j f))

finish_call-Grows :
    {f : IrFunction} (i : NodeInfo) (name : StringView) (args : Nodes)
    (o : Option (List ℕ) × IrFunction)
    → Grows f o.1
    → Grows f (finish_call i name args o).1
finish_call-Grows i name args (none, g) h = h
finish_call-Grows i name args (some regs, g) h =
    with_vreg-Grows (ir_alloc_vreg (emit_args args regs 0 g)) _
      (Grows-trans h
        (Grows-trans (emit_args-Grows args regs 0 g) (alloc-Grows (emit_args args regs 0 g))))
      (λ reg g'. emit-Grows _ g')

read_symbol-Grows :
    (i : NodeInfo) (on_stack : Bool) (index : ℕ) (f : IrFunction)
    → Grows f (read_symbol i on_stack index f).1
read_symbol-Grows i true index f =
    with_vreg-Grows (ir_alloc_vreg f) _ (alloc-Grows f) (λ reg g. emit-Grows _ g)
read_symbol-Grows i false index f = Grows-refl f

finish_identifier-Grows :
    (st : SymbolTable) (i : NodeInfo) (f : IrFunction) (o : Option ℕ)
    → Grows f (finish_identifier st i f o).1
finish_identifier-Grows st i f none = report-Grows _ f
finish_identifier-Grows st i f (some sym) =
    read_symbol-Grows i (st.entries sym).is_stack (st.entries sym).index f

module _ (atoll : StringView → ℕ) (st : SymbolTable) where
  mutual
    unfolding gen_expression gen_number gen_identifier

    expression-Grows : (node : Node) (f : IrFunction) → Grows f (gen_expression atoll st node f).1
    expression-Grows null f = Grows-refl f
    expression-Grows (number i text) f =
        with_vreg-Grows (ir_alloc_vreg f) _ (alloc-Grows f) (λ reg g. emit-Grows _ g)
    expression-Grows (identifier i name) f =
        finish_identifier-Grows st i f (symbol_table_lookup st name)
    expression-Grows (call i name args) f =
        finish_call-Grows i name args (gen_args atoll st args f) (args-Grows args f)
    expression-Grows (unary op i operand) f =
        unless_zero-Grows (gen_expression atoll st operand f) _ (expression-Grows operand f)
          (λ reg g.
            with_vreg-Grows (ir_alloc_vreg g) _ (alloc-Grows g) (λ dest g'. emit-Grows _ g'))
    expression-Grows (binary op i l r) f =
        unless_zero-Grows (gen_expression atoll st l f) _ (expression-Grows l f) (λ left g.
          unless_zero-Grows (gen_expression atoll st r g) _ (expression-Grows r g) (λ right h.
            with_vreg-Grows (ir_alloc_vreg h) _ (alloc-Grows h) (λ dest h'. emit-Grows _ h')))
    expression-Grows (var_decl i _ _ _) f = report-Grows _ f
    expression-Grows (assignment i _ _) f = report-Grows _ f
    expression-Grows (return_stmt i _) f = report-Grows _ f
    expression-Grows (if_stmt i _ _ _) f = report-Grows _ f
    expression-Grows (while_stmt i _ _) f = report-Grows _ f
    expression-Grows (block i _) f = report-Grows _ f
    expression-Grows (function i _ _) f = report-Grows _ f
    expression-Grows (translation_unit i _) f = report-Grows _ f

    args-Grows : (args : Nodes) (f : IrFunction) → Grows f (gen_args atoll st args f).1
    args-Grows nil f = Grows-refl f
    args-Grows (cons x xs) f =
        next_args-Grows (gen_expression atoll st x f) _ (expression-Grows x f) (args-Grows xs)

  -- Generating an expression, accepted or not, never lowers the counts of instructions and registers,
  -- leaves the counts of stack slots and labels alone, and keeps the counter
  -- of instructions exact.
  pub gen_expression-Grows :
      (node : Node) (f : IrFunction) → Grows f (gen_expression atoll st node f).1
  gen_expression-Grows = expression-Grows

  pub gen_args-Grows : (args : Nodes) (f : IrFunction) → Grows f (gen_args atoll st args f).1
  gen_args-Grows = args-Grows
