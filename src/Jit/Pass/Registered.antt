-- ===== src/Jit/Pass/Registered.antt =====
-- The registry after `jit_compile_pass`.
use Prim.Native.String.{String}
use mathlib.Core.List.{append_assoc, append-nil, map-append}
use tiny_compile.Prelude.{
  ℕ, ◌≡◌, sym, ◌∙◌, Bool, true, false, not, Option, none, some, List, [], ◌∷◌, ◌++◌, map,
  if◌then◌else◌, Run, ok, stop, ◌>>=◌, IfRuns, IfRuns-bind, IfRuns-any, IfRuns-if, IfRuns-ok, leb,
  length, ◌==◌, Bool-cases, inl, inr, Option-cases,
}
use tiny_compile.StringView.{StringView}
use tiny_compile.ErrorHandler.{ErrorContext}
use tiny_compile.Ast.{
  NodeInfo, FunctionHeader, null, number, identifier, binary, unary, if_stmt, while_stmt,
  return_stmt, var_decl, assignment, block, function, translation_unit, call, Nodes, nil, cons,
}
use tiny_compile.Ir.{IrFunction}
use tiny_compile.Ir.Chunks.{code}
use tiny_compile.IrGen.Statements.{ir_gen}
use tiny_compile.Jit.Registers.{max_labels, max_function_count}
use tiny_compile.Jit.Context.{CompiledFunction, JitContext}
use tiny_compile.Jit.Function.{
  JitResult, register_function, finish_function, pass_1, pass_2, jit_compile_function,
}
use tiny_compile.Compile.{CompilationUnit}
use tiny_compile.Jit.Pass.{
  PassResult, continue, after_jit, after_ir, pass_function, pass_nodes, pass_tree, jit_compile_pass,
}

-- the names in the registry
abbrev pub names : JitContext → List StringView
names ctx = map (λ (f : CompiledFunction). f.name) ctx.registry

abbrev defined_if : FunctionHeader → List StringView → List StringView
defined_if header rest = if header.is_prototype then rest else header.name ∷ rest

-- the functions that have a body, in the order of the files
unfoldable pub defined : Nodes → List StringView
defined nil = []
defined (cons (function i header body) ns) = defined_if header (defined ns)
defined (cons _ ns) = defined ns

abbrev defined_in : Bool → Option Nodes → List StringView
defined_in true (some ns) = defined ns
defined_in _ _ = []

unfoldable pub all_defined : List CompilationUnit → List StringView
all_defined [] = []
all_defined (unit ∷ units) = defined_in unit.parsed_ok unit.ast ++ all_defined units

-- A result with code comes with an entry in the registry.
abbrev RegistersIf : JitContext → FunctionHeader → JitResult × JitContext → Type 0
RegistersIf ctx func (r, ctx') =
    (a : ℕ) → r.code ≡ some a → names ctx' ≡ names ctx ++ func.name ∷ []

register_function-RegistersIf :
    (func : FunctionHeader) (base size : ℕ) (ctx : JitContext)
    → RegistersIf ctx func (register_function func base size ctx)
register_function-RegistersIf func base size ctx =
    elim (Bool-cases (leb max_function_count (length ctx.registry))) [
      | inl full ↦ rw full (λ a h. cc)
      | inr room ↦ rw room (λ a h. map-append _ ctx.registry _)
    ]

jit_compile_function-RegistersIf :
    (arena_at : ℕ → ℕ) (ctx : JitContext) (f : IrFunction) (func : FunctionHeader)
    → IfRuns (RegistersIf ctx func) (jit_compile_function arena_at ctx f func)
unfolding jit_compile_function
jit_compile_function-RegistersIf arena_at ctx f func =
    let size = (pass_1 func f ctx.addresses).size in
    let base = arena_at size in
    IfRuns-if (leb max_labels f.label_count) (RegistersIf ctx func) _ _ (λ a h. cc)
      (IfRuns-if (length (code f) == f.total_count) (RegistersIf ctx func) _ _
        (IfRuns-any (RegistersIf ctx func)
          (pass_2 base size func f (pass_1 func f ctx.addresses).addresses)
          (finish_function func base size ctx)
          (λ e.
            IfRuns-if (e.size == size) (RegistersIf ctx func) _ _
              (register_function-RegistersIf func base e.size
                (record ctx { alloc = e.alloc; addresses = e.addresses }))
              tt))
        tt)

-- A pass that finishes has registered these names, in this order.
abbrev FinishesWith : JitContext → List StringView → PassResult → Type 0
FinishesWith ctx ns (PassResult.finished ctx' errors) = names ctx' ≡ names ctx ++ ns
FinishesWith ctx ns _ = Unit

after_jit-FinishesWith :
    (filename : Option String) (i : NodeInfo) (errors : ErrorContext) (ctx : JitContext)
    (header : FunctionHeader) (r : JitResult × JitContext)
    → RegistersIf ctx header r
    → IfRuns (FinishesWith ctx (header.name ∷ [])) (after_jit filename i errors r)
after_jit-FinishesWith filename i errors ctx header (r, ctx') h = elim (Option-cases r.code) [
  | inl e ↦ rw e tt
  | inr (a, e) ↦ rw e (h a e)
]

longer :
    (ctx ctx' : JitContext) (ns ms : List StringView)
    → names ctx' ≡ names ctx ++ ns
    → (m : Run PassResult) → IfRuns (FinishesWith ctx' ms) m
    → IfRuns (FinishesWith ctx (ns ++ ms)) m
longer ctx ctx' ns ms h (ok (PassResult.finished ctx'' e)) k =
    k ∙ rw h (append_assoc (names ctx) ns ms)
longer ctx ctx' ns ms h (ok (PassResult.ir_failed f l)) k = tt
longer ctx ctx' ns ms h (ok (PassResult.jit_failed f)) k = tt
longer ctx ctx' ns ms h (stop reason) k = tt

-- The rest of a loop after its first part.
continue-FinishesWith :
    (ctx : JitContext) (ns ms : List StringView) (r : PassResult)
    (rest : JitContext → ErrorContext → Run PassResult)
    → FinishesWith ctx ns r
    → ((ctx' : JitContext) (e : ErrorContext) → IfRuns (FinishesWith ctx' ms) (rest ctx' e))
    → IfRuns (FinishesWith ctx (ns ++ ms)) (continue rest r)
continue-FinishesWith ctx ns ms (PassResult.finished ctx' e) rest h next =
    longer ctx ctx' ns ms h (rest ctx' e) (next ctx' e)
continue-FinishesWith ctx ns ms (PassResult.ir_failed f l) rest h next = tt
continue-FinishesWith ctx ns ms (PassResult.jit_failed f) rest h next = tt

-- A prototype is passed by, a definition is compiled.
function_case :
    (prototype : Bool) (name : StringView) (ns : List StringView) (ctx : JitContext)
    (e : ErrorContext) (m : Run PassResult) (rest : JitContext → ErrorContext → Run PassResult)
    → IfRuns (FinishesWith ctx (name ∷ [])) m
    → ((ctx' : JitContext) (e' : ErrorContext) → IfRuns (FinishesWith ctx' ns) (rest ctx' e'))
    → IfRuns
        (FinishesWith ctx (if prototype then ns else name ∷ ns))
        ((if prototype then ok (PassResult.finished ctx e) else m) >>= continue rest)
function_case true name ns ctx e m rest h next = next ctx e
function_case false name ns ctx e m rest h next =
    IfRuns-bind (FinishesWith ctx (name ∷ [])) (FinishesWith ctx (name ∷ ns)) m _ h
      (λ r k. continue-FinishesWith ctx (name ∷ []) ns r rest k next)

module _ (atoll : StringView → ℕ) (arena_at : List CompiledFunction → ℕ → ℕ)
    (old_memory : StringView → ℕ) where
  after_ir-FinishesWith :
      (filename : Option String) (i : NodeInfo) (header : FunctionHeader) (ctx : JitContext)
      (o : Option IrFunction)
      → IfRuns
          (FinishesWith ctx (header.name ∷ []))
          (after_ir atoll arena_at old_memory filename i header ctx o)
  after_ir-FinishesWith filename i header ctx none = tt
  after_ir-FinishesWith filename i header ctx (some f) =
      IfRuns-bind (RegistersIf ctx header) (FinishesWith ctx (header.name ∷ []))
        (jit_compile_function (arena_at ctx.registry) ctx f header) _
        (jit_compile_function-RegistersIf (arena_at ctx.registry) ctx f header)
        (λ r h. after_jit-FinishesWith filename i f.errors ctx header r h)

  pass_nodes-FinishesWith :
      (filename : Option String) (ns : Nodes) (ctx : JitContext) (e : ErrorContext)
      → IfRuns
          (FinishesWith ctx (defined ns))
          (pass_nodes atoll arena_at old_memory filename ns ctx e)
  unfolding pass_nodes pass_function defined
  pass_nodes-FinishesWith filename nil ctx e = sym (append-nil (names ctx))
  pass_nodes-FinishesWith filename (cons (function i header body) ns) ctx e =
      function_case header.is_prototype header.name (defined ns) ctx e _ _
        (IfRuns-any (FinishesWith ctx (header.name ∷ []))
          (ir_gen atoll (old_memory header.name) header body e filename) _
          (after_ir-FinishesWith filename i header ctx))
        (pass_nodes-FinishesWith filename ns)
  pass_nodes-FinishesWith filename (cons null ns) ctx e = tt
  pass_nodes-FinishesWith filename (cons (number i t) ns) ctx e = tt
  pass_nodes-FinishesWith filename (cons (identifier i n) ns) ctx e = tt
  pass_nodes-FinishesWith filename (cons (binary o i l r) ns) ctx e = tt
  pass_nodes-FinishesWith filename (cons (unary o i x) ns) ctx e = tt
  pass_nodes-FinishesWith filename (cons (if_stmt i c t f) ns) ctx e = tt
  pass_nodes-FinishesWith filename (cons (while_stmt i c b) ns) ctx e = tt
  pass_nodes-FinishesWith filename (cons (return_stmt i v) ns) ctx e = tt
  pass_nodes-FinishesWith filename (cons (var_decl i n t v) ns) ctx e = tt
  pass_nodes-FinishesWith filename (cons (assignment i n v) ns) ctx e = tt
  pass_nodes-FinishesWith filename (cons (block i l) ns) ctx e = tt
  pass_nodes-FinishesWith filename (cons (translation_unit i l) ns) ctx e = tt
  pass_nodes-FinishesWith filename (cons (call i n a) ns) ctx e = tt

  unit_case :
      (unit : CompilationUnit) (units : List CompilationUnit) (parsed : Bool) (ast : Option Nodes)
      (ctx : JitContext) (e : ErrorContext)
      → ((ctx' : JitContext) (e' : ErrorContext)
          → IfRuns
              (FinishesWith ctx' (all_defined units))
              (jit_compile_pass atoll arena_at old_memory units ctx' e'))
      → IfRuns (FinishesWith ctx (defined_in parsed ast ++ all_defined units)) (
          if not parsed
          then jit_compile_pass atoll arena_at old_memory units ctx e
          else (pass_tree atoll arena_at old_memory unit.name ast ctx e
              >>= continue (jit_compile_pass atoll arena_at old_memory units)))
  unfolding pass_tree
  unit_case unit units false ast ctx e next = next ctx e
  unit_case unit units true none ctx e next = tt
  unit_case unit units true (some ns) ctx e next =
      IfRuns-bind (FinishesWith ctx (defined ns))
        (FinishesWith ctx (defined ns ++ all_defined units))
        (pass_nodes atoll arena_at old_memory unit.name ns ctx e) _
        (pass_nodes-FinishesWith unit.name ns ctx e)
        (λ r h. continue-FinishesWith ctx (defined ns) (all_defined units) r _ h next)

  pass-FinishesWith :
      (units : List CompilationUnit) (ctx : JitContext) (e : ErrorContext)
      → IfRuns
          (FinishesWith ctx (all_defined units))
          (jit_compile_pass atoll arena_at old_memory units ctx e)
  unfolding jit_compile_pass all_defined
  pass-FinishesWith [] ctx e = sym (append-nil (names ctx))
  pass-FinishesWith (unit ∷ units) ctx e =
      unit_case unit units unit.parsed_ok unit.ast ctx e (pass-FinishesWith units)

  -- When `jit_compile_pass` returns `true`, the registry has got one entry for every function with a body
  -- in the parsed units, in the order of the files, behind the entries that it had.
  pub jit_compile_pass-names :
      (units : List CompilationUnit) (ctx ctx' : JitContext) (e e' : ErrorContext)
      → jit_compile_pass atoll arena_at old_memory units ctx e ≡ ok (PassResult.finished ctx' e')
      → names ctx' ≡ names ctx ++ all_defined units
  jit_compile_pass-names units ctx ctx' e e' h =
      IfRuns-ok (FinishesWith ctx (all_defined units))
        (jit_compile_pass atoll arena_at old_memory units ctx e) (PassResult.finished ctx' e')
        (pass-FinishesWith units ctx e) h
