-- ===== src/Jit/Pass.antt =====
-- `jit_compile_pass` of srcs/jit/jit.c: every defined function of every unit is generated and compiled.
-- What the process prints is left out.
pub mod Registered
use Prim.Native.String.{String}
use tiny_compile.Prelude.{
  ℕ, Bool, true, false, not, Option, none, some, List, [], ◌∷◌, if◌then◌else◌, Run, ok, stop,
  null_dereference, aborted, ◌>>=◌,
}
use tiny_compile.StringView.{StringView}
use tiny_compile.ErrorHandler.{ErrorContext, ErrorCategory, ErrorLevel, error_add}
use tiny_compile.Ast.{NodeInfo, FunctionHeader, Node, null, function, Nodes, nil, cons}
use tiny_compile.Ir.{IrFunction}
use tiny_compile.IrGen.Statements.{ir_gen}
use tiny_compile.Jit.Context.{CompiledFunction, JitContext}
use tiny_compile.Jit.Function.{JitResult, jit_compile_function}
use tiny_compile.Compile.{CompilationUnit}

-- The return value `true` with the context and the errors; or the return value `false`, after a fatal
-- error of the generator at a line of a file (`ir_gen` of the model gives no errors with a null
-- pointer), or of the compiler of one function, with the errors.
pub data PassResult : Type 0 where
  finished : JitContext → ErrorContext → PassResult
  ir_failed : Option String → ℕ → PassResult
  jit_failed : ErrorContext → PassResult

-- the loop goes on only after a success
abbrev pub continue : (JitContext → ErrorContext → Run PassResult) → PassResult → Run PassResult
continue rest (PassResult.finished ctx errors) = rest ctx errors
continue rest failed = ok failed

abbrev pub after_jit :
    Option String → NodeInfo → ErrorContext → JitResult × JitContext → Run PassResult
after_jit filename i errors (r, ctx) = elim r.code [
  | none ↦ ok (
      PassResult.jit_failed (
        error_add ErrorCategory.system ErrorLevel.fatal filename i.line 0
          "JIT compilation failed for function '%.*s'" errors))
  | some code ↦ ok (PassResult.finished ctx errors)
]

-- `arena_at` gives the address of a block of the code arena after the functions that are registered,
-- `old_memory` what the memory of the function's record held before.
module _ (atoll : StringView → ℕ) (arena_at : List CompiledFunction → ℕ → ℕ)
    (old_memory : StringView → ℕ) where
  abbrev pub after_ir :
      Option String → NodeInfo → FunctionHeader → JitContext → Option IrFunction → Run PassResult
  after_ir filename i header ctx none = ok (PassResult.ir_failed filename i.line)
  after_ir filename i header ctx (some ir) =
      jit_compile_function (arena_at ctx.registry) ctx ir header >>= after_jit filename i ir.errors

  unfoldable pub pass_function :
      Option String → NodeInfo → FunctionHeader → Node → JitContext → ErrorContext → Run PassResult
  pass_function filename i header body ctx errors =
      if header.is_prototype
      then ok (PassResult.finished ctx errors)
      else (ir_gen atoll (old_memory header.name) header body errors filename
          >>= after_ir filename i header ctx)

  -- The loop over a unit. A node that is not a function would be read as one; the analysis has
  -- refused such a unit, and the model stops there.
  unfoldable pub pass_nodes : Option String → Nodes → JitContext → ErrorContext → Run PassResult
  pass_nodes filename nil ctx errors = ok (PassResult.finished ctx errors)
  pass_nodes filename (cons null ns) ctx errors = stop null_dereference
  pass_nodes filename (cons (function i header body) ns) ctx errors =
      pass_function filename i header body ctx errors >>= continue (pass_nodes filename ns)
  pass_nodes filename (cons _ ns) ctx errors = stop aborted

  unfoldable pub pass_tree :
      Option String → Option Nodes → JitContext → ErrorContext → Run PassResult
  pass_tree filename none ctx errors = stop null_dereference
  pass_tree filename (some ns) ctx errors = pass_nodes filename ns ctx errors

  unfoldable pub jit_compile_pass :
      List CompilationUnit → JitContext → ErrorContext → Run PassResult
  jit_compile_pass [] ctx errors = ok (PassResult.finished ctx errors)
  jit_compile_pass (unit ∷ units) ctx errors =
      let skip = jit_compile_pass units ctx errors in
      if not unit.parsed_ok
      then skip
      else (pass_tree unit.name unit.ast ctx errors >>= continue (jit_compile_pass units))
