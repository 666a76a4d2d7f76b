-- ===== src/IrGen/Counted.antt =====
-- The statements and `ir_gen` of srcs/ir/ir_gen.c keep the list of instructions and its counter together.
use Prim.Native.String.{String}
use tiny_compile.Prelude.{
  ℕ, zero, suc, ◌+◌, ◌≡◌, refl, subst, Bool, true, false, Option, none, some, List, [], ◌∷◌, arith,
  length, Run, ok, stop, ◌>>=◌, if◌then◌else◌, leb,
}
use tiny_compile.StringView.{StringView}
use tiny_compile.ErrorHandler.{ErrorContext}
use tiny_compile.Ast.Types.{DataType}
use tiny_compile.Ast.{
  Parameter, NodeInfo, FunctionHeader, Node, null, if_stmt, while_stmt, return_stmt, var_decl,
  assignment, block, Nodes, nil, cons, info,
}
use tiny_compile.Ir.{IrInstruction, IrFunction, ir_alloc_vreg, max_ir_instructions_per_function}
use tiny_compile.Ir.Chunks.{IsChunked, emit-IsChunked}
use tiny_compile.SymbolTable.{
  SymbolTable, symbol_table_add, symbol_table_lookup, symbol_table_restore,
}
use tiny_compile.IrGen.Expressions.{Generated}
use tiny_compile.IrGen.Growth.{gen_expression-Grows, alloc-Grows, report-Grows}
use tiny_compile.IrGen.Statements.{
  GenState, with_func, emit_inst, new_label, or_exit, or_null, declare_local, store_init, gen_zero,
  expression, gen_initializer, gen_var_decl, finish_assignment, assign_found, gen_assignment,
  finish_return, gen_return, unless_no_condition, gen_statement, gen_statements, gen_params,
  add_param, start_state, checked, gen_body, label_instruction, jmp_instruction, check_length,
  body_statements, ir_gen,
}

-- If the process goes on, the function is counted.
abbrev pub Counts : Run GenState → Type 0
Counts (ok g) = IsChunked g.func
Counts (stop e) = Unit

Counts-bind :
    (m : Run GenState) (k : GenState → Run GenState)
    → Counts m
    → ((g : GenState) → IsChunked g.func → Counts (k g))
    → Counts (m >>= k)
Counts-bind (ok g) k h next = next g h
Counts-bind (stop e) k h next = tt

Counts-or_exit {ℓ} :
    {A : Type ℓ} (o : Option A) (k : A → Run GenState)
    → ((a : A) → Counts (k a))
    → Counts (or_exit o >>= k)
Counts-or_exit none k next = tt
Counts-or_exit (some a) k next = next a

Counts-or_null {ℓ} :
    {A : Type ℓ} (o : Option A) (k : A → Run GenState)
    → ((a : A) → Counts (k a))
    → Counts (or_null o >>= k)
Counts-or_null none k next = tt
Counts-or_null (some a) k next = next a

Counts-info {ℓ} :
    {A : Type ℓ} (m : Run A) (k : A → Run GenState) → ((a : A) → Counts (k a)) → Counts (m >>= k)
Counts-info (ok a) k next = next a
Counts-info (stop e) k next = tt

relabelled :
    (f : IrFunction) (s l : ℕ)
    → IsChunked f
    → IsChunked (record f { stack_count = s; label_count = l })
relabelled f s l h = record { fit = h.fit; counted = h.counted; bounded = h.bounded }

new_label-IsChunked : (f : IrFunction) → IsChunked f → IsChunked (new_label f)
new_label-IsChunked f h = relabelled f f.stack_count (f.label_count + 1) h

store_init-IsChunked :
    (t : DataType) (slot : ℕ) (g : GenState) (o : Generated)
    → IsChunked o.1
    → IsChunked (store_init t slot g o).func
store_init-IsChunked t slot g (zero, f) h = h
store_init-IsChunked t slot g (suc reg, f) h = emit-IsChunked _ f h

gen_zero-IsChunked :
    (t : DataType) (o : Option ℕ × IrFunction) (g : GenState) (slot : ℕ)
    → IsChunked o.1
    → IsChunked (gen_zero t o g slot).func
gen_zero-IsChunked t (none, f) g slot h = h
gen_zero-IsChunked t (some reg, f) g slot h = emit-IsChunked _ _ (emit-IsChunked _ f h)

finish_return-IsChunked :
    (atoll : StringView → ℕ) (i : NodeInfo) (g : GenState) (o : Generated)
    → IsChunked o.1
    → IsChunked (finish_return atoll i g o).func
finish_return-IsChunked atoll i g (zero, f) h = h
finish_return-IsChunked atoll i g (suc reg, f) h = emit-IsChunked _ f h

finish_assignment-IsChunked :
    (atoll : StringView → ℕ) (i : NodeInfo) (s : ℕ) (g : GenState) (o : Generated)
    → IsChunked o.1
    → IsChunked (finish_assignment atoll i s g o).func
finish_assignment-IsChunked atoll i s g (zero, f) h = h
finish_assignment-IsChunked atoll i s g (suc reg, f) h = emit-IsChunked _ f h

abbrev CountsSome : Run (Option GenState) → Type 0
CountsSome (ok (some g)) = IsChunked g.func
CountsSome (ok none) = Unit
CountsSome (stop e) = Unit

module _ (atoll : StringView → ℕ) where
  expression-IsChunked :
      (g : GenState) (n : Node) → IsChunked g.func → IsChunked (expression atoll g n).1
  expression-IsChunked g n h = (gen_expression-Grows atoll g.symbols n g.func).chunked h

  gen_initializer-IsChunked :
      (t : DataType) (slot : ℕ) (n : Node) (g : GenState)
      → IsChunked g.func
      → IsChunked (gen_initializer atoll t slot n g).func
  unfolding gen_initializer
  gen_initializer-IsChunked t slot null g h =
      gen_zero-IsChunked t (ir_alloc_vreg g.func) g slot ((alloc-Grows g.func).chunked h)
  gen_initializer-IsChunked t slot n g h =
      store_init-IsChunked t slot g (expression atoll g n) (expression-IsChunked g n h)

  var_decl-Counts :
      (name : StringView) (t : DataType) (init : Node) (g : GenState)
      → IsChunked g.func
      → (o : Option SymbolTable) → symbol_table_add g.symbols name g.func.stack_count ≡ o
      → Counts (gen_var_decl atoll name t init g)
  unfolding gen_var_decl declare_local
  var_decl-Counts name t init g h none e = rw e tt
  var_decl-Counts name t init g h (some st) e = rw e (
      gen_initializer-IsChunked t g.func.stack_count init _
        (relabelled g.func (g.func.stack_count + 1) g.func.label_count h))

  assign_found-IsChunked :
      (i : NodeInfo) (n : Node) (g : GenState) (o : Option ℕ)
      → IsChunked g.func
      → IsChunked (assign_found atoll i n g o).func
  assign_found-IsChunked i n g none h = (report-Grows _ g.func).chunked h
  assign_found-IsChunked i n g (some s) h =
      finish_assignment-IsChunked atoll i s g (expression atoll g n) (expression-IsChunked g n h)

  -- the continuation of a statement with a condition
  unless_no_condition-Counts :
      (reg : ℕ) (g : GenState) (k : GenState → Run GenState)
      → IsChunked g.func
      → ((g' : GenState) → IsChunked g'.func → Counts (k g'))
      → Counts (unless_no_condition atoll reg g k)
  unless_no_condition-Counts zero g k h next = h
  unless_no_condition-Counts (suc reg) g k h next = next g h

  then_emit-Counts :
      (run : GenState → Run GenState) (g : GenState) (l : IrInstruction)
      → IsChunked g.func
      → ((g' : GenState) → IsChunked g'.func → Counts (run g'))
      → Counts (run g >>= λ g'. ok (emit_inst l g'))
  then_emit-Counts run g l h next =
      Counts-bind (run g) _ (next g h) (λ g' h'. emit-IsChunked l g'.func h')

  mutual
    unfolding gen_statement gen_return gen_assignment

    statement-Counts :
        (n : Node) (g : GenState) → IsChunked g.func → Counts (gen_statement atoll n g)
    statement-Counts null g h = h
    statement-Counts (var_decl i name t init) g h = var_decl-Counts name t init g h _ refl
    statement-Counts (assignment i name value) g h =
        assign_found-IsChunked i value g (symbol_table_lookup g.symbols name) h
    statement-Counts (return_stmt i value) g h =
        finish_return-IsChunked atoll i g (expression atoll g value)
          (expression-IsChunked g value h)
    statement-Counts (block i list) g h =
        Counts-bind (gen_statements atoll list g) _ (statements-Counts list g h) (λ g₁ h₁.
          Counts-or_null (symbol_table_restore g₁.symbols (length g.symbols.changes)) _ (λ st. h₁))
    statement-Counts (if_stmt i c t null) g h = Counts-info (info c) _ (λ cond.
        unless_no_condition-Counts (expression atoll g c).0 _ _
          (new_label-IsChunked (expression atoll g c).1 (expression-IsChunked g c h))
          (λ g₁ h₁.
            Counts-bind (gen_statement atoll t _) _
              (statement-Counts t _ (emit-IsChunked _ g₁.func h₁))
              (λ g₂ h₂. emit-IsChunked _ g₂.func h₂)))
    statement-Counts (if_stmt i c t e) g h = Counts-info (info c) _ (λ cond.
        unless_no_condition-Counts (expression atoll g c).0 _ _
          (new_label-IsChunked _
            (new_label-IsChunked (expression atoll g c).1 (expression-IsChunked g c h)))
          (λ g₁ h₁.
            Counts-bind (gen_statement atoll t _) _
              (statement-Counts t _ (emit-IsChunked _ g₁.func h₁))
              (λ g₂ h₂.
                then_emit-Counts (gen_statement atoll e)
                  (emit_inst (label_instruction (expression atoll g c).1.label_count)
                    (emit_inst (jmp_instruction ((expression atoll g c).1.label_count + 1)) g₂))
                  (label_instruction ((expression atoll g c).1.label_count + 1))
                  (emit-IsChunked _ _ (emit-IsChunked _ g₂.func h₂)) (statement-Counts e))))
    statement-Counts (while_stmt i c b) g h =
        let g₁ = with_func g (new_label (new_label g.func)) in
        let g₂ = emit_inst (label_instruction g.func.label_count) g₁ in
        let h₂ =
          emit-IsChunked (label_instruction g.func.label_count) g₁.func
            (new_label-IsChunked (new_label g.func) (new_label-IsChunked g.func h)) in
        Counts-info (info c) _ (λ cond.
          unless_no_condition-Counts (expression atoll g₂ c).0
            (with_func g₂ (expression atoll g₂ c).1) _ (expression-IsChunked g₂ c h₂)
            (λ g₃ h₃.
              Counts-bind (gen_statement atoll b _) _
                (statement-Counts b _ (emit-IsChunked _ g₃.func h₃))
                (λ g₄ h₄. emit-IsChunked _ _ (emit-IsChunked _ g₄.func h₄))))
    statement-Counts n g h = expression-IsChunked g n h

    statements-Counts :
        (l : Nodes) (g : GenState) → IsChunked g.func → Counts (gen_statements atoll l g)
    statements-Counts nil g h = h
    statements-Counts (cons s ss) g h =
        Counts-bind (gen_statement atoll s g) _ (statement-Counts s g h) (statements-Counts ss)

  or_exit-CountsSome :
      (o : Option SymbolTable) (k : SymbolTable → Run (Option GenState))
      → ((st : SymbolTable) → CountsSome (k st))
      → CountsSome (or_exit o >>= k)
  or_exit-CountsSome none k next = tt
  or_exit-CountsSome (some st) k next = next st

  add_param-CountsSome :
      (p : Parameter) (g : GenState) (rest : GenState → Run (Option GenState))
      (o : Option ℕ × IrFunction)
      → IsChunked o.1
      → ((g' : GenState) → IsChunked g'.func → CountsSome (rest g'))
      → CountsSome (add_param p g rest o)
  add_param-CountsSome p g rest (none, f) h next = tt
  add_param-CountsSome p g rest (some v, f) h next =
      or_exit-CountsSome (symbol_table_add g.symbols p.name v) _ (λ st. next _ h)

  params-CountsSome :
      (ps : List Parameter) (g : GenState) → IsChunked g.func → CountsSome (gen_params ps g)
  unfolding gen_params
  params-CountsSome [] g h = h
  params-CountsSome (p ∷ ps) g h =
      add_param-CountsSome p g (gen_params ps) (ir_alloc_vreg g.func)
        ((alloc-Grows g.func).chunked h) (params-CountsSome ps)

  if-some :
      (b : Bool) (g f : IrFunction)
      → IsChunked g
      → ◌≡◌ {A = Option IrFunction} (if b then none else some g) (some f)
      → IsChunked f
  if-some true g f h e = cc
  if-some false g f h e = let same : g ≡ f = cc in subst IsChunked same h

  check_length-IsChunked : (g f : IrFunction) → IsChunked g → check_length g ≡ some f → IsChunked f
  check_length-IsChunked g f h e =
      if-some (leb max_ir_instructions_per_function g.total_count) g f h e

  body-IsChunked :
      (m : Run GenState) (f : IrFunction) → Counts m → (m >>= checked) ≡ ok (some f) → IsChunked f
  body-IsChunked (ok g) f h e = check_length-IsChunked g.func f h (cc)
  body-IsChunked (stop s) f h e = cc

  gen_body-IsChunked :
      (body : Node) (m : Run (Option GenState)) (f : IrFunction)
      → CountsSome m
      → (m >>= gen_body atoll body) ≡ ok (some f)
      → IsChunked f
  gen_body-IsChunked body (ok (some g)) f h e =
      body-IsChunked (gen_statements atoll (body_statements body) g) f
        (statements-Counts (body_statements body) g h) e
  gen_body-IsChunked body (ok none) f h e = cc
  gen_body-IsChunked body (stop s) f h e = cc

-- When `ir_gen` returns a function, its chunks are within their arrays and its counter of
-- instructions is exact, whatever the tree of the body is.
pub ir_gen-IsChunked :
    (atoll : StringView → ℕ) (old_memory : ℕ) (header : FunctionHeader) (body : Node)
    (errors : ErrorContext) (filename : Option String) (f : IrFunction)
    → ir_gen atoll old_memory header body errors filename ≡ ok (some f)
    → IsChunked f
unfolding ir_gen
ir_gen-IsChunked atoll old_memory header body errors filename f e =
    gen_body-IsChunked atoll body _ f
      (params-CountsSome atoll header.params (start_state old_memory header.name errors filename)
        (record { fit = tt; counted = refl; bounded = omega arith }))
      e
