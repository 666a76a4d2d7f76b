-- ===== src/Ir/Machine.antt =====
-- What straight-line instructions do: the registers, the cells of the local variables, and the
-- arguments that wait for the next call.
use tiny_compile.Prelude.{
  ℕ, Option, none, some, List, [], ◌∷◌, ◌++◌, not, ◌==◌, update, bit_and, bit_or, bit_xor, ◌≡◌,
  refl,
}
use tiny_compile.StringView.{StringView}
use tiny_compile.Ast.Types.{type_size}
use tiny_compile.Ast.Meaning.{bind_assoc, ◌>>=◌}
use tiny_compile.Ir.{IrOpcode, IrInstruction}
use tiny_compile.Word.{
  word_add, word_sub, word_mul, word_div, word_neg, word_not, word_lt, flag, word_shl, word_shr,
  word_sar, load_sized, store_sized,
}

pub record Machine : Type 0 where
  pub vregs : ℕ → ℕ
  pub slots : ℕ → ℕ
  pub pending : List ℕ

abbrev pub set_vreg : Machine → ℕ → ℕ → Machine
set_vreg m r v = record m { vregs = update m.vregs r v }

-- the value of an opcode with two operands; `none` also for any other opcode
unfoldable pub run_binary : IrOpcode → ℕ → ℕ → Option ℕ
run_binary IrOpcode.add a b = some (word_add a b)
run_binary IrOpcode.sub a b = some (word_sub a b)
run_binary IrOpcode.mul a b = some (word_mul a b)
run_binary IrOpcode.div a b = word_div a b
run_binary IrOpcode.eq a b = some (flag (a == b))
run_binary IrOpcode.neq a b = some (flag (not (a == b)))
run_binary IrOpcode.lt a b = some (flag (word_lt a b))
run_binary IrOpcode.le a b = some (flag (not (word_lt b a)))
run_binary IrOpcode.gt a b = some (flag (word_lt b a))
run_binary IrOpcode.ge a b = some (flag (not (word_lt a b)))
run_binary IrOpcode.lshift a b = some (word_shl a b)
run_binary IrOpcode.rshift a b = some (word_sar a b)
run_binary IrOpcode.urshift a b = some (word_shr a b)
run_binary IrOpcode.band a b = some (bit_and a b)
run_binary IrOpcode.bor a b = some (bit_or a b)
run_binary IrOpcode.bxor a b = some (bit_xor a b)
run_binary _ a b = none

module _ (callee : StringView → List ℕ → Option ℕ) where
  -- one instruction; jumps, labels and `ret` are no straight-line code
  unfoldable pub step_opcode : IrOpcode → IrInstruction → Machine → Option Machine
  step_opcode IrOpcode.const i m = some (set_vreg m i.dest i.imm)
  step_opcode IrOpcode.mov i m = some (set_vreg m i.dest (m.vregs i.src_1))
  step_opcode IrOpcode.neg i m = some (set_vreg m i.dest (word_neg (m.vregs i.src_1)))
  step_opcode IrOpcode.not i m = some (set_vreg m i.dest (flag (m.vregs i.src_1 == 0)))
  step_opcode IrOpcode.bnot i m = some (set_vreg m i.dest (word_not (m.vregs i.src_1)))
  step_opcode IrOpcode.load i m =
      some (set_vreg m i.dest (load_sized (type_size i.type) (m.slots i.src_1)))
  step_opcode IrOpcode.store i m = some (record m {
    slots =
        update m.slots i.dest (store_sized (type_size i.type) (m.slots i.dest) (m.vregs i.src_1));
  })
  step_opcode IrOpcode.arg i m = some (record m { pending = m.pending ++ m.vregs i.src_1 ∷ [] })
  step_opcode IrOpcode.call i m =
      callee i.func_name m.pending >>= λ v. some (set_vreg (record m { pending = [] }) i.dest v)
  step_opcode IrOpcode.label i m = none
  step_opcode IrOpcode.jmp i m = none
  step_opcode IrOpcode.jz i m = none
  step_opcode IrOpcode.jnz i m = none
  step_opcode IrOpcode.ret i m = none
  step_opcode op i m =
      run_binary op (m.vregs i.src_1) (m.vregs i.src_2) >>= λ v. some (set_vreg m i.dest v)

  unfoldable pub step : IrInstruction → Machine → Option Machine
  unfolding step_opcode
  step i m = step_opcode i.opcode i m

  unfoldable pub exec : List IrInstruction → Machine → Option Machine
  exec [] m = some m
  exec (i ∷ is) m = step i m >>= exec is

  pub exec-append :
      (is js : List IrInstruction) (m : Machine) → exec (is ++ js) m ≡ (exec is m >>= exec js)
  unfolding exec
  exec-append [] js m = refl
  exec-append (i ∷ is) js m =
      rw (bind_assoc (step i m) (exec is) (exec js))
        (λ k. step i m >>= λ m'. exec-append is js m' k)
