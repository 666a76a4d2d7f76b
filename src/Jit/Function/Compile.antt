-- ===== src/Jit/Function/Compile.antt =====
-- `jit_compile_function` of srcs/jit/jit.c as a whole: its two checks on sizes never fail.
use tiny_compile.Prelude.{
  ℕ, ◌<◌, ◌≡◌, refl, sym, ap, ◌∙◌, Bool, true, false, Option, some, [], ◌∷◌, ◌++◌, arith, leb, ◌==◌,
  if◌then◌else◌, length, Run, ok, ◌>>=◌, Bool-cases, inl, inr,
}
use Prim.Native.String.{String}
use tiny_compile.StringView.{StringView}
use tiny_compile.ErrorHandler.{ErrorContext}
use tiny_compile.IrGen.Statements.{ir_gen}
use tiny_compile.IrGen.Counted.{ir_gen-IsChunked}
use tiny_compile.Ast.{FunctionHeader, Node}
use tiny_compile.Ir.{IrFunction}
use tiny_compile.Ir.Chunks.{code, IsChunked}
use tiny_compile.Jit.Registers.{max_labels, max_function_count}
use tiny_compile.Jit.Context.{JitContext}
use tiny_compile.Jit.Dispatch.{Encoding}
use tiny_compile.Jit.Function.{
  calculate_aligned_stack_size, JitResult, no_result, register_function, finish_function,
  pass_alloc, reset_addresses, pass_1, pass_2, reset_state, jit_compile_function,
}
use tiny_compile.Jit.Function.Passes.Agree.{SameShape, prologue_at-SameShape, emit_all-measure}

pass_2-runs :
    (base : ℕ) (func : FunctionHeader) (f : IrFunction) (ctx : JitContext)
    → (r : Encoding) × (pass_2 base
          (pass_1 func f ctx.addresses).size
          func
          f
          (pass_1 func f ctx.addresses).addresses
        ≡ ok r)
      × SameShape (pass_1 func f ctx.addresses) r
pass_2-runs base func f ctx =
    emit_all-measure base (pass_1 func f ctx.addresses).size (code f) _ _
      (prologue_at-SameShape base (calculate_aligned_stack_size f) (length func.params)
        (pass_alloc f) (reset_addresses ctx.addresses)
        (reset_addresses (pass_1 func f ctx.addresses).addresses))
      (omega arith)

if_ok : (b : Bool) (x y : Run (JitResult × JitContext)) → b ≡ true → (if b then x else y) ≡ x
if_ok true x y h = refl
if_ok false x y h = cc

if_not {ℓ} : {A : Type ℓ} (b : Bool) (x y : A) → b ≡ false → (if b then x else y) ≡ y
if_not true x y h = cc
if_not false x y h = refl

equal : (m n : ℕ) → m ≡ n → (m == n) ≡ true
equal m n h = ground arith

below : (m n : ℕ) → n < m → leb m n ≡ false
below m n h = ground arith

-- Behind the check of the labels: the function is compiled at the address that the arena gives.
compiled :
    (arena_at : ℕ → ℕ) (ctx : JitContext) (f : IrFunction) (func : FunctionHeader)
    → IsChunked f
    → leb max_labels f.label_count ≡ false
    → (r : Encoding) × (jit_compile_function arena_at ctx f func
        ≡ ok (
            register_function func
              (arena_at (pass_1 func f ctx.addresses).size)
              (pass_1 func f ctx.addresses).size
              (record ctx { alloc = r.alloc; addresses = r.addresses })))
unfolding jit_compile_function
compiled arena_at ctx f func h few =
    let size = (pass_1 func f ctx.addresses).size in
    let base = arena_at size in
    let (r, runs, same) = pass_2-runs base func f ctx in
    let ctx' = record ctx { alloc = r.alloc; addresses = r.addresses } in
    (
      r,
      if_not _ _ _ few
          ∙ if_ok _ _ _ (equal (length (code f)) f.total_count (sym h.counted))
          ∙ ap (λ m. m >>= finish_function func base size ctx) runs
          ∙ if_ok _ _ _ (equal r.size size (sym same.size))
          ∙ ap (λ n. ok (register_function func base n ctx')) (sym same.size),
    )

-- On a function whose instructions are counted right, `jit_compile_function` returns: the assertion
-- on the count holds, the second pass never passes the end of the buffer that the first has measured,
-- and its size is the measured one.
pub jit_compile_function-total :
    (arena_at : ℕ → ℕ) (ctx : JitContext) (f : IrFunction) (func : FunctionHeader)
    → IsChunked f
    → (r : JitResult × JitContext) × (jit_compile_function arena_at ctx f func ≡ ok r)
unfolding jit_compile_function
jit_compile_function-total arena_at ctx f func h =
    elim (Bool-cases (leb max_labels f.label_count)) [
      | inl many ↦ ((no_result, reset_state ctx), if_ok _ _ _ many)
      | inr few ↦ (_, (compiled arena_at ctx f func h few).1)
    ]

-- Below the limits on labels and functions, the code is put where the arena has room for the measured
-- size, and the registry gets one more entry, with the function's name, that address and that size.
pub jit_compile_function-registers :
    (arena_at : ℕ → ℕ) (ctx : JitContext) (f : IrFunction) (func : FunctionHeader)
    → IsChunked f
    → f.label_count < max_labels
    → length ctx.registry < max_function_count
    → let size = (pass_1 func f ctx.addresses).size in
      (ctx' : JitContext) × (jit_compile_function arena_at ctx f func
        ≡ ok (record { code = some (arena_at size); size = size }, ctx'))
      × (ctx'.registry
          ≡ ctx.registry
            ++ record { name = func.name; code_addr = arena_at size; code_size = size } ∷ [])
jit_compile_function-registers arena_at ctx f func h few room =
    let (r, runs) = compiled arena_at ctx f func h (below max_labels f.label_count few) in
    (_, runs ∙ ap ok (if_not _ _ _ (below max_function_count (length ctx.registry) room)), refl)

-- Whatever function node `ir_gen` makes an intermediate function of, `jit_compile_function` returns on
-- it, in every state of the code generator: none of its aborts is reached.
pub jit_compile_function-ir_gen :
    (atoll : StringView → ℕ) (old_memory : ℕ) (func : FunctionHeader) (body : Node)
    (errors : ErrorContext) (filename : Option String) (f : IrFunction) (arena_at : ℕ → ℕ)
    (ctx : JitContext)
    → ir_gen atoll old_memory func body errors filename ≡ ok (some f)
    → (r : JitResult × JitContext) × (jit_compile_function arena_at ctx f func ≡ ok r)
jit_compile_function-ir_gen atoll old_memory func body errors filename f arena_at ctx e =
    jit_compile_function-total arena_at ctx f func
      (ir_gen-IsChunked atoll old_memory func body errors filename f e)
