-- ===== src/Tests/Passing.antt =====
-- The pass over all units at a concrete file.
use tiny_compile.Prelude.{ℕ, ◌≡◌, refl, true, none, some, List, [], ◌∷◌, ◌++◌, arith, ok}
use tiny_compile.ErrorHandler.{error_context_init}
use tiny_compile.Ast.{function, nil, cons, FunctionHeader}
use tiny_compile.IrGen.Counted.{ir_gen-IsChunked}
use tiny_compile.Compile.{CompilationUnit}
use tiny_compile.Jit.Context.{JitContext, CompiledFunction}
use tiny_compile.Jit.Function.Compile.{jit_compile_function-registers}
use tiny_compile.Jit.Pass.{PassResult, pass_function, pass_nodes, pass_tree, jit_compile_pass}
use tiny_compile.Jit.Pass.Registered.{names, all_defined, jit_compile_pass-names}
use tiny_compile.Tests.{
  word_type, digit, first_block, context, header, sum_body, sum_with_return, generates_body,
}

-- a file with a prototype of the function and the function
abbrev prototype : FunctionHeader
prototype = record header { is_prototype = true }

abbrev file : CompilationUnit
file = record {
  name = none;
  ast = some (
      cons (function word_type prototype sum_body) (cons (function word_type header sum_body) nil));
  parsed_ok = true;
}

abbrev blocks : List CompiledFunction → ℕ → ℕ
blocks _ = first_block

registered :
    (ctx' : JitContext) × (jit_compile_pass digit blocks
        (λ _. 0)
        (file ∷ [])
        context
        error_context_init
      ≡ ok (PassResult.finished ctx' sum_with_return.errors))
unfolding jit_compile_pass pass_tree pass_nodes pass_function
registered =
    let h =
      ir_gen-IsChunked digit 0 header sum_body error_context_init none sum_with_return
        generates_body in
    let (ctx', runs, _) =
      jit_compile_function-registers first_block context sum_with_return header h (omega arith)
        (omega arith) in
    (ctx', rw generates_body (rw runs refl))

jit_compile_pass-names_example : names registered.0 ≡ names context ++ all_defined (file ∷ [])
jit_compile_pass-names_example =
    jit_compile_pass-names digit blocks (λ _. 0) (file ∷ []) context registered.0 error_context_init
      sum_with_return.errors registered.1
