-- ===== src/IrGen/Statements.antt =====
-- The statement half of srcs/ir/ir_gen.c, and `ir_gen`. The state is the function, the symbol table
-- and the register behind `last_reg`; a statement may read through a null pointer, or end the process.
use tiny_compile.Prelude.{
  ℕ, zero, suc, ◌+◌, Option, none, some, List, [], ◌∷◌, if◌then◌else◌, length, Run, ok, stop,
  null_dereference, exit_failure, ◌>>=◌, leb,
}
use Prim.Native.String.{String}
use tiny_compile.StringView.{StringView}
use tiny_compile.ErrorHandler.{ErrorContext}
use tiny_compile.Ast.Types.{DataType}
use tiny_compile.Ast.{
  NodeInfo, Parameter, FunctionHeader, Node, null, if_stmt, while_stmt, return_stmt, var_decl,
  assignment, block, Nodes, nil, cons, info,
}
use tiny_compile.Ir.{
  IrOpcode, IrInstruction, instruction, IrFunction, emit, ir_alloc_vreg,
  max_ir_instructions_per_function,
}
use tiny_compile.SymbolTable.{
  SymbolTable, empty_table, symbol_table_lookup, symbol_table_add, symbol_table_restore, mark_stack,
}
use tiny_compile.IrGen.Expressions.{Generated, codegen_error, const_instruction, gen_expression}

pub record GenState : Type 0 where
  pub func : IrFunction
  pub symbols : SymbolTable
  pub last_reg : ℕ

abbrev pub with_func : GenState → IrFunction → GenState
with_func g f = record g { func = f }

abbrev pub emit_inst : IrInstruction → GenState → GenState
emit_inst inst g = with_func g (emit inst g.func)

abbrev pub label_instruction : ℕ → IrInstruction
label_instruction id = record (instruction IrOpcode.label DataType.void) { label_id = id }

abbrev pub jmp_instruction : ℕ → IrInstruction
jmp_instruction id = record (instruction IrOpcode.jmp DataType.void) { label_id = id }

abbrev pub jz_instruction : DataType → ℕ → ℕ → IrInstruction
jz_instruction type reg id = record (instruction IrOpcode.jz type) { src_1 = reg; label_id = id }

abbrev pub store_instruction : DataType → ℕ → ℕ → IrInstruction
store_instruction type slot reg = record (instruction IrOpcode.store type) {
  dest = slot;
  src_1 = reg;
}

abbrev pub mov_instruction : DataType → ℕ → ℕ → IrInstruction
mov_instruction type dest reg = record (instruction IrOpcode.mov type) { dest = dest; src_1 = reg }

abbrev pub ret_instruction : DataType → ℕ → IrInstruction
ret_instruction type reg = record (instruction IrOpcode.ret type) { src_1 = reg }

-- `f->label_count++`
abbrev pub new_label : IrFunction → IrFunction
new_label f = record f { label_count = f.label_count + 1 }

-- `exit(1)` in `symbol_table_add`
abbrev pub or_exit {ℓ} : {A : Type ℓ} → Option A → Run A
or_exit none = stop exit_failure
or_exit (some a) = ok a

-- the walk along the log in `symbol_table_restore`
abbrev pub or_null {ℓ} : {A : Type ℓ} → Option A → Run A
or_null none = stop null_dereference
or_null (some a) = ok a

-- `if (sym) sym->is_stack = true;`
abbrev pub mark_found : SymbolTable → Option ℕ → SymbolTable
mark_found st none = st
mark_found st (some sym) = mark_stack st sym

-- the name of a new local variable, and its slot
unfoldable pub declare_local : StringView → GenState → Run (ℕ × GenState)
declare_local name g = do
  let slot = g.func.stack_count
  st ← or_exit (symbol_table_add g.symbols name slot)
  ok (
    slot,
    record g {
      func = record g.func { stack_count = slot + 1 };
      symbols = mark_found st (symbol_table_lookup st name);
    },
  )

-- the store at the end of `gen_var_decl`, unless the initializer failed
abbrev pub store_init : DataType → ℕ → GenState → Generated → GenState
store_init type slot g (zero, f) = with_func g f
store_init type slot g (suc reg, f) = record g {
  func = emit (store_instruction type slot (suc reg)) f;
  last_reg = suc reg;
}

-- the zero that initialises a variable without an initializer
abbrev pub gen_zero : DataType → Option ℕ × IrFunction → GenState → ℕ → GenState
gen_zero type (none, f) g slot = with_func g f
gen_zero type (some reg, f) g slot = record g {
  func = emit (store_instruction type slot reg) (emit (const_instruction type reg 0) f);
  last_reg = reg;
}

module _ (atoll : StringView → ℕ) where
  abbrev pub expression : GenState → Node → Generated
  expression g node = gen_expression atoll g.symbols node g.func

  unfoldable pub gen_initializer : DataType → ℕ → Node → GenState → GenState
  gen_initializer type slot null g = gen_zero type (ir_alloc_vreg g.func) g slot
  gen_initializer type slot node g = store_init type slot g (expression g node)

  unfoldable pub gen_var_decl : StringView → DataType → Node → GenState → Run GenState
  gen_var_decl name type init g = do
    (slot, g₁) ← declare_local name g
    ok (gen_initializer type slot init g₁)

  -- the tail of `gen_assignment`, with the entry that was looked up
  abbrev pub finish_assignment : NodeInfo → ℕ → GenState → Generated → GenState
  finish_assignment i sym g (zero, f) = with_func g f
  finish_assignment i sym g (suc reg, f) =
      let entry = g.symbols.entries sym in
      record g {
        func =
            emit
              (if entry.is_stack
                then store_instruction i.value_type entry.index (suc reg)
                else mov_instruction i.value_type entry.index (suc reg))
              f;
        last_reg = suc reg;
      }

  -- by the result of the lookup
  abbrev pub assign_found : NodeInfo → Node → GenState → Option ℕ → GenState
  assign_found i value g none =
      with_func g (codegen_error i "assignment to undefined variable '%.*s'" g.func)
  assign_found i value g (some sym) = finish_assignment i sym g (expression g value)

  unfoldable pub gen_assignment : NodeInfo → StringView → Node → GenState → GenState
  gen_assignment i name value g = assign_found i value g (symbol_table_lookup g.symbols name)

  abbrev pub finish_return : NodeInfo → GenState → Generated → GenState
  finish_return i g (zero, f) = with_func g f
  finish_return i g (suc reg, f) = with_func g (emit (ret_instruction i.value_type (suc reg)) f)

  unfoldable pub gen_return : NodeInfo → Node → GenState → GenState
  gen_return i value g = finish_return i g (expression g value)

  abbrev pub set_last : GenState → Generated → GenState
  set_last g (reg, f) = record g { func = f; last_reg = reg }

  -- `k` unless the register of the condition is 0
  abbrev pub unless_no_condition : ℕ → GenState → (GenState → Run GenState) → Run GenState
  unless_no_condition zero g k = ok g
  unless_no_condition (suc reg) g k = k g

  unfoldable mutual
    pub gen_statement : Node → GenState → Run GenState
    gen_statement null g = ok g
    gen_statement (var_decl i name type init) g = gen_var_decl name type init g
    gen_statement (assignment i name value) g = ok (gen_assignment i name value g)
    gen_statement (return_stmt i value) g = ok (gen_return i value g)
    gen_statement (block i statements) g = do
      let watermark = length g.symbols.changes
      g₁ ← gen_statements statements g
      st ← or_null (symbol_table_restore g₁.symbols watermark)
      ok (record g₁ { symbols = st })
    gen_statement (if_stmt i condition then_branch null) g = do
      let (cond_reg, f) = expression g condition
      cond ← info condition
      let label_end = f.label_count
      unless_no_condition cond_reg (with_func g (new_label f)) (λ g₁. do
        g₂ ←
            gen_statement then_branch
              (emit_inst (jz_instruction cond.value_type cond_reg label_end) g₁)
        ok (emit_inst (label_instruction label_end) g₂))
    gen_statement (if_stmt i condition then_branch else_branch) g = do
      let (cond_reg, f) = expression g condition
      cond ← info condition
      let label_else = f.label_count
      let label_end = label_else + 1
      unless_no_condition cond_reg (with_func g (new_label (new_label f))) (λ g₁. do
        g₂ ←
            gen_statement then_branch
              (emit_inst (jz_instruction cond.value_type cond_reg label_else) g₁)
        g₃ ←
            gen_statement else_branch
              (emit_inst (label_instruction label_else) (emit_inst (jmp_instruction label_end) g₂))
        ok (emit_inst (label_instruction label_end) g₃))
    gen_statement (while_stmt i condition body) g = do
      let label_start = g.func.label_count
      let label_end = label_start + 1
      let g₁ = with_func g (new_label (new_label g.func))
      cond ← info condition
      let g₂ = emit_inst (label_instruction label_start) g₁
      let (cond_reg, f) = expression g₂ condition
      unless_no_condition cond_reg (with_func g₂ f) (λ g₃. do
        g₄ ← gen_statement body (emit_inst (jz_instruction cond.value_type cond_reg label_end) g₃)
        ok (emit_inst (label_instruction label_end) (emit_inst (jmp_instruction label_start) g₄)))
    gen_statement node g = ok (set_last g (expression g node))

    -- the loops over the statements of a block
    pub gen_statements : Nodes → GenState → Run GenState
    gen_statements nil g = ok g
    gen_statements (cons s ss) g = gen_statement s g >>= gen_statements ss

-- one parameter, by the result of the allocation, and the rest of the loop
abbrev pub add_param :
    Parameter
    → GenState
    → (GenState → Run (Option GenState))
    → Option ℕ × IrFunction
    → Run (Option GenState)
add_param p g rest (none, f) = ok none
add_param p g rest (some vreg, f) = or_exit (symbol_table_add g.symbols p.name vreg) >>= λ st.
    rest (record g { func = f; symbols = st })

-- the loop over the parameters; `none` is the return value `NULL`
unfoldable pub gen_params : List Parameter → GenState → Run (Option GenState)
gen_params [] g = ok (some g)
gen_params (p ∷ ps) g = add_param p g (gen_params ps) (ir_alloc_vreg g.func)

-- The fields that `ir_gen` sets. `stack_count` is not one of them: its value is what the arena's
-- memory held, `old_memory` here.
abbrev pub new_function : ℕ → StringView → ErrorContext → Option String → IrFunction
new_function old_memory name errors filename = record {
  chunks = [];
  total_count = 0;
  vreg_count = 1;
  stack_count = old_memory;
  label_count = 0;
  name = name;
  errors = errors;
  filename = filename;
}

-- the check at the end of `ir_gen`
abbrev pub check_length : IrFunction → Option IrFunction
check_length f = if leb max_ir_instructions_per_function f.total_count then none else some f

-- the statements of the body, if it is a block
abbrev pub body_statements : Node → Nodes
body_statements (block i statements) = statements
body_statements _ = nil

-- the state of the generator before the first parameter
abbrev pub start_state : ℕ → StringView → ErrorContext → Option String → GenState
start_state old_memory name errors filename = record {
  func = new_function old_memory name errors filename;
  symbols = empty_table;
  last_reg = 0;
}

abbrev pub checked : GenState → Run (Option IrFunction)
checked g = ok (check_length g.func)

-- the body, unless the parameters were too many
abbrev pub gen_body : (StringView → ℕ) → Node → Option GenState → Run (Option IrFunction)
gen_body atoll body none = ok none
gen_body atoll body (some g) = gen_statements atoll (body_statements body) g >>= checked

-- `ir_gen` on a function node, the one kind of root that `jit_compile_pass` gives it; `none` is the
-- return value `NULL`.
unfoldable pub ir_gen :
    (StringView → ℕ)
    → ℕ
    → FunctionHeader
    → Node
    → ErrorContext
    → Option String
    → Run (Option IrFunction)
ir_gen atoll old_memory header body errors filename =
    gen_params header.params (start_state old_memory header.name errors filename)
    >>= gen_body atoll body
