-- ===== src/IrGen/Correct/Names.antt =====
-- Identifiers: a register that is at hand, or a load from a slot.
use mathlib.Core.List.{append-nil}
use tiny_compile.Prelude.{
  ℕ, suc, ◌<◌, ◌≡◌, refl, sym, ap, Option, none, some, List, [], Bool, true, false, arith,
}
use tiny_compile.StringView.{StringView}
use tiny_compile.Word.{load_sized}
use tiny_compile.Ast.Types.{type_size}
use tiny_compile.Ast.Meaning.{eval}
use tiny_compile.Ast.{NodeInfo, identifier}
use tiny_compile.Ir.{IrFunction, max_ir_instructions_per_function}
use tiny_compile.Ir.Chunks.{code}
use tiny_compile.Ir.Machine.{exec, step}
use tiny_compile.SymbolTable.{SymbolTable, symbol_table_lookup}
use tiny_compile.IrGen.Expressions.{Generated, load_instruction, read_symbol, finish_identifier}
use tiny_compile.IrGen.Correct.Computes.{RegistersBelow, read_variable, value}
use tiny_compile.IrGen.Correct.Inversion.{finished}
use tiny_compile.IrGen.Correct.Compiled.{Kept-refl, Compiled, finish_value}

module _ (atoll : StringView → ℕ) (callee : StringView → List ℕ → Option ℕ) (st : SymbolTable) where
  pub compile_symbol :
      (i : NodeInfo) (name : StringView) (on_stack : Bool) (entry : ℕ) (f : IrFunction) {r : ℕ}
      {f' : IrFunction}
      → symbol_table_lookup st name ≡ some entry
      → (st.entries entry).is_stack ≡ on_stack
      → read_symbol i on_stack (st.entries entry).index f ≡ (suc r, f')
      → f'.total_count < max_ir_instructions_per_function
      → RegistersBelow st f.vreg_count
      → Compiled atoll callee st (identifier i name) f f' (suc r)
  unfolding eval exec step read_variable
  compile_symbol i name true entry f {r} {f'} found b e short below =
      let index = (st.entries entry).index in
      finish_value atoll callee st f f' (suc r) _
        (λ m. load_sized (type_size i.value_type) (m.slots index))
        (finished f (λ reg. load_instruction i.value_type reg index) e short) (λ m. rw (found, b))
        (λ m. refl)
  compile_symbol i name false entry f {r} {f'} found b e short below =
      let e₀ : (st.entries entry).index ≡ suc r = ap (λ (p : Generated). p.0) e in
      let e₁ : f ≡ f' = ap (λ (p : Generated). p.1) e in
      record {
        new = [];
        appended = rw (← e₁) (sym (append-nil (code f)));
        below = rw (← e₁, ← e₀) (below name entry found b);
        runs = λ m p. rw (found, b, e₀) (value refl (Kept-refl f.vreg_count m));
      }

  pub compile_lookup :
      (i : NodeInfo) (name : StringView) (o : Option ℕ) (f : IrFunction) {r : ℕ} {f' : IrFunction}
      → symbol_table_lookup st name ≡ o
      → finish_identifier st i f o ≡ (suc r, f')
      → f'.total_count < max_ir_instructions_per_function
      → RegistersBelow st f.vreg_count
      → Compiled atoll callee st (identifier i name) f f' (suc r)
  compile_lookup i name none f found e short below =
      absurd (omega (arith, ap (λ (p : Generated). p.0) e))
  compile_lookup i name (some entry) f found e short below =
      compile_symbol i name (st.entries entry).is_stack entry f found refl e short below
