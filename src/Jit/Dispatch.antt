-- ===== src/Jit/Dispatch.antt =====
-- The table `encoders` of srcs/jit/jit.c, which incs/ir_ops.def fills, and `encode_inst`.
use tiny_compile.Prelude.{ℕ, Option}
use tiny_compile.Ir.{IrInstruction, IrOpcode}
use tiny_compile.Jit.Registers.{
  alu_add, alu_sub, alu_and, alu_or, alu_xor, ext_shl, ext_sar, ext_shr,
}
use tiny_compile.Jit.Buffer.{Cursor}
use tiny_compile.Jit.Context.{Allocation, Addresses}
use tiny_compile.Jit.Operands.{emit_standard_binary_op, emit_shift_op}
use tiny_compile.Jit.Encoders.{
  encode_mov, encode_cmp, encode_const, encode_mul, encode_div, encode_neg, encode_not_bitwise,
  encode_not, encode_arg, encode_ret, encode_store, encode_load,
}
use tiny_compile.Jit.Calls.{encode_jmp, encode_branch, encode_label, encode_call}

-- what an encoder leaves behind
abbrev pub Step : Type 0
Step = Allocation × Addresses × Cursor

-- an encoder that does not look at addresses
abbrev pub computing : Addresses → Allocation × Cursor → Step
computing ad (a, c) = (a, ad, c)

-- an encoder that does not ask for locations
abbrev pub jumping : Allocation → Addresses × Cursor → Step
jumping a (ad, c) = (a, ad, c)

unfoldable pub encoders : IrOpcode → IrInstruction → Allocation → Addresses → Cursor → Step
encoders IrOpcode.add i a ad c = computing ad (emit_standard_binary_op alu_add i a c)
encoders IrOpcode.sub i a ad c = computing ad (emit_standard_binary_op alu_sub i a c)
encoders IrOpcode.mul i a ad c = computing ad (encode_mul i a c)
encoders IrOpcode.div i a ad c = computing ad (encode_div i a c)
encoders IrOpcode.eq i a ad c = computing ad (encode_cmp i a c)
encoders IrOpcode.neq i a ad c = computing ad (encode_cmp i a c)
encoders IrOpcode.lt i a ad c = computing ad (encode_cmp i a c)
encoders IrOpcode.le i a ad c = computing ad (encode_cmp i a c)
encoders IrOpcode.gt i a ad c = computing ad (encode_cmp i a c)
encoders IrOpcode.ge i a ad c = computing ad (encode_cmp i a c)
encoders IrOpcode.lshift i a ad c = computing ad (emit_shift_op ext_shl i a c)
encoders IrOpcode.rshift i a ad c = computing ad (emit_shift_op ext_sar i a c)
encoders IrOpcode.urshift i a ad c = computing ad (emit_shift_op ext_shr i a c)
encoders IrOpcode.band i a ad c = computing ad (emit_standard_binary_op alu_and i a c)
encoders IrOpcode.bor i a ad c = computing ad (emit_standard_binary_op alu_or i a c)
encoders IrOpcode.bxor i a ad c = computing ad (emit_standard_binary_op alu_xor i a c)
encoders IrOpcode.bnot i a ad c = computing ad (encode_not_bitwise i a c)
encoders IrOpcode.neg i a ad c = computing ad (encode_neg i a c)
encoders IrOpcode.not i a ad c = computing ad (encode_not i a c)
encoders IrOpcode.mov i a ad c = computing ad (encode_mov i a c)
encoders IrOpcode.load i a ad c = computing ad (encode_load i a c)
encoders IrOpcode.store i a ad c = computing ad (encode_store i a c)
encoders IrOpcode.const i a ad c = computing ad (encode_const i a c)
encoders IrOpcode.arg i a ad c = computing ad (encode_arg i a c)
encoders IrOpcode.label i a ad c = jumping a (encode_label i ad c)
encoders IrOpcode.jmp i a ad c = jumping a (encode_jmp i ad c)
encoders IrOpcode.jz i a ad c = encode_branch i a ad c
encoders IrOpcode.jnz i a ad c = encode_branch i a ad c
encoders IrOpcode.call i a ad c = encode_call i a ad c
encoders IrOpcode.ret i a ad c = computing ad (encode_ret i a c)

-- A call with a write pointer: the size that it returns, and the context and the memory after it.
pub record Encoding : Type 0 where
  pub size : ℕ
  pub alloc : Allocation
  pub addresses : Addresses

-- the cursor at a write pointer, and the result of a step that started there
abbrev pub cursor_at : Option ℕ → Addresses → Cursor
cursor_at buf ad = record { buf = buf; size = 0; mem = ad.memory }

abbrev pub encoding : Step → Encoding
encoding (a, ad, c) = record { size = c.size; alloc = a; addresses = record ad { memory = c.mem } }

unfoldable pub encode_inst : Option ℕ → IrInstruction → Allocation → Addresses → Encoding
unfolding encoders
encode_inst buf inst a ad = encoding (encoders inst.opcode inst a ad (cursor_at buf ad))
