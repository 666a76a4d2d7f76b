-- ===== src/Jit/Function/Passes/Encoders.antt =====
-- How two cursors go on together: the encoders that only compute.
use tiny_compile.Prelude.{ℕ, ◌≡◌, refl, ◌==◌}
use tiny_compile.Prelude.Int.{ℤ}
use tiny_compile.Ir.{IrInstruction}
use tiny_compile.Jit.Registers.{X86Reg, reg_rax, reg_rcx, reg_rdx, reg_rbp}
use tiny_compile.Jit.Buffer.{Cursor}
use tiny_compile.Jit.Context.{Location, loc_none, loc_reg, loc_stack, loc_const, Allocation}
use tiny_compile.Jit.Operands.{
  Encoded, load_location_to_reg, store_reg_to_location, load_right, load_binary_operands,
  emit_standard_binary_op, emit_comparison_op, emit_shift_op,
}
use tiny_compile.Jit.Encoders.{
  encode_mov, encode_cmp, encode_const, encode_mul, load_divisor, encode_div, encode_neg,
  encode_not_bitwise, encode_not, encode_arg, encode_ret, store_source, encode_store, load_target,
  encode_load,
}
use tiny_compile.Jit.Function.Passes.Tracks.{
  Tracks, emit_bytes-Tracks, emit_store_local-Tracks, emit_load_param-Tracks, emit_mov_imm-Tracks,
  emit_alu-Tracks, emit_imul_r64-Tracks, emit_mov_reg_reg-Tracks, emit_cmp-Tracks,
  emit_movzx-Tracks, emit_setcc-Tracks, emit_pop-Tracks, emit_load_signext-Tracks,
  emit_store_sized-Tracks, if-Tracks,
}

-- the same allocation, and cursors that go on together
abbrev pub Agree : ℕ → Encoded → Encoded → Type 0
Agree base x y = (x.0 ≡ y.0) × Tracks base x.1 y.1

module _ {base : ℕ} where
  pub load_location_to_reg-Tracks :
      (dst : X86Reg) (l : Location) {c d : Cursor}
      → Tracks base c d
      → Tracks base (load_location_to_reg dst l c) (load_location_to_reg dst l d)
  unfolding load_location_to_reg
  load_location_to_reg-Tracks dst (loc_reg r) t =
      if-Tracks (r == dst) t (emit_mov_reg_reg-Tracks dst r t)
  load_location_to_reg-Tracks dst (loc_stack o) t = emit_load_param-Tracks dst o t
  load_location_to_reg-Tracks dst (loc_const v) t = emit_mov_imm-Tracks dst v t
  load_location_to_reg-Tracks dst loc_none t = t

  pub store_reg_to_location-Tracks :
      (l : Location) (src : X86Reg) {c d : Cursor}
      → Tracks base c d
      → Tracks base (store_reg_to_location l src c) (store_reg_to_location l src d)
  unfolding store_reg_to_location
  store_reg_to_location-Tracks (loc_reg r) src t =
      if-Tracks (r == src) t (emit_mov_reg_reg-Tracks r src t)
  store_reg_to_location-Tracks (loc_stack o) src t = emit_store_local-Tracks src o t
  store_reg_to_location-Tracks (loc_const v) src t = t
  store_reg_to_location-Tracks loc_none src t = t

  pub load_right-Tracks :
      (tmp : X86Reg) (l : Location) {c d : Cursor}
      → Tracks base c d
      → Tracks base (load_right tmp l c) (load_right tmp l d)
  unfolding load_right
  load_right-Tracks tmp (loc_reg r) t = t
  load_right-Tracks tmp loc_none t = load_location_to_reg-Tracks tmp loc_none t
  load_right-Tracks tmp (loc_stack o) t = load_location_to_reg-Tracks tmp (loc_stack o) t
  load_right-Tracks tmp (loc_const v) t = load_location_to_reg-Tracks tmp (loc_const v) t

  pub load_binary_operands-Tracks :
      (dst tmp : X86Reg) (l m : Location) {c d : Cursor}
      → Tracks base c d
      → Tracks base (load_binary_operands dst tmp l m c) (load_binary_operands dst tmp l m d)
  unfolding load_binary_operands
  load_binary_operands-Tracks dst tmp l m t =
      load_right-Tracks tmp m (load_location_to_reg-Tracks dst l t)

  pub load_divisor-Tracks :
      (l : Location) {c d : Cursor}
      → Tracks base c d
      → Tracks base (load_divisor l c) (load_divisor l d)
  load_divisor-Tracks (loc_reg r) t = t
  load_divisor-Tracks loc_none t = load_location_to_reg-Tracks reg_rcx loc_none t
  load_divisor-Tracks (loc_stack o) t = load_location_to_reg-Tracks reg_rcx (loc_stack o) t
  load_divisor-Tracks (loc_const v) t = load_location_to_reg-Tracks reg_rcx (loc_const v) t

  pub store_source-Tracks :
      (l : Location) (o : ℤ) (n : ℕ) {c d : Cursor}
      → Tracks base c d
      → Tracks base (store_source l o n c) (store_source l o n d)
  store_source-Tracks (loc_reg r) o n t = emit_store_sized-Tracks r reg_rbp o n t
  store_source-Tracks loc_none o n t =
      emit_store_sized-Tracks reg_rax reg_rbp o n (load_location_to_reg-Tracks reg_rax loc_none t)
  store_source-Tracks (loc_stack p) o n t =
      emit_store_sized-Tracks reg_rax reg_rbp o n
        (load_location_to_reg-Tracks reg_rax (loc_stack p) t)
  store_source-Tracks (loc_const v) o n t =
      emit_store_sized-Tracks reg_rax reg_rbp o n
        (load_location_to_reg-Tracks reg_rax (loc_const v) t)

  pub load_target-Tracks :
      (l : Location) (o : ℤ) (n : ℕ) {c d : Cursor}
      → Tracks base c d
      → Tracks base (load_target l o n c) (load_target l o n d)
  load_target-Tracks (loc_reg r) o n t = emit_load_signext-Tracks r reg_rbp o n t
  load_target-Tracks loc_none o n t =
      store_reg_to_location-Tracks loc_none reg_rax (emit_load_signext-Tracks reg_rax reg_rbp o n t)
  load_target-Tracks (loc_stack p) o n t =
      store_reg_to_location-Tracks (loc_stack p) reg_rax
        (emit_load_signext-Tracks reg_rax reg_rbp o n t)
  load_target-Tracks (loc_const v) o n t =
      store_reg_to_location-Tracks (loc_const v) reg_rax
        (emit_load_signext-Tracks reg_rax reg_rbp o n t)

  pub emit_standard_binary_op-Agree :
      (op : ℕ) (i : IrInstruction) (a : Allocation) {c d : Cursor}
      → Tracks base c d
      → Agree base (emit_standard_binary_op op i a c) (emit_standard_binary_op op i a d)
  unfolding emit_standard_binary_op
  emit_standard_binary_op-Agree op i a t = (
    refl,
    store_reg_to_location-Tracks _ reg_rax
        (emit_alu-Tracks op reg_rax _ (load_binary_operands-Tracks reg_rax reg_rdx _ _ t)),
  )

  pub emit_comparison_op-Agree :
      (k : ℕ) (i : IrInstruction) (a : Allocation) {c d : Cursor}
      → Tracks base c d
      → Agree base (emit_comparison_op k i a c) (emit_comparison_op k i a d)
  unfolding emit_comparison_op
  emit_comparison_op-Agree k i a t = (
    refl,
    store_reg_to_location-Tracks _ reg_rax (
        emit_movzx-Tracks reg_rax reg_rax (
          emit_setcc-Tracks k reg_rax
            (emit_cmp-Tracks reg_rax _ (load_binary_operands-Tracks reg_rax reg_rcx _ _ t)))),
  )

  pub emit_shift_op-Agree :
      (k : ℕ) (i : IrInstruction) (a : Allocation) {c d : Cursor}
      → Tracks base c d
      → Agree base (emit_shift_op k i a c) (emit_shift_op k i a d)
  unfolding emit_shift_op
  emit_shift_op-Agree k i a t = (
    refl,
    store_reg_to_location-Tracks _ reg_rax (
        emit_bytes-Tracks _
          (load_location_to_reg-Tracks reg_rcx _ (load_location_to_reg-Tracks reg_rax _ t))),
  )

  pub encode_mov-Agree :
      (i : IrInstruction) (a : Allocation) {c d : Cursor}
      → Tracks base c d
      → Agree base (encode_mov i a c) (encode_mov i a d)
  unfolding encode_mov
  encode_mov-Agree i a t = (
    refl,
    if-Tracks _ t
        (store_reg_to_location-Tracks _ reg_rax (load_location_to_reg-Tracks reg_rax _ t)),
  )

  pub encode_cmp-Agree :
      (i : IrInstruction) (a : Allocation) {c d : Cursor}
      → Tracks base c d
      → Agree base (encode_cmp i a c) (encode_cmp i a d)
  unfolding encode_cmp
  encode_cmp-Agree i a t = emit_comparison_op-Agree _ i a t

  pub encode_const-Agree :
      (i : IrInstruction) (a : Allocation) {c d : Cursor}
      → Tracks base c d
      → Agree base (encode_const i a c) (encode_const i a d)
  unfolding encode_const
  encode_const-Agree i a t =
      (refl, store_reg_to_location-Tracks _ reg_rax (emit_mov_imm-Tracks reg_rax _ t))

  pub encode_mul-Agree :
      (i : IrInstruction) (a : Allocation) {c d : Cursor}
      → Tracks base c d
      → Agree base (encode_mul i a c) (encode_mul i a d)
  unfolding encode_mul
  encode_mul-Agree i a t = (
    refl,
    store_reg_to_location-Tracks _ reg_rax
        (emit_imul_r64-Tracks reg_rax _ (load_binary_operands-Tracks reg_rax reg_rcx _ _ t)),
  )

  pub encode_div-Agree :
      (i : IrInstruction) (a : Allocation) {c d : Cursor}
      → Tracks base c d
      → Agree base (encode_div i a c) (encode_div i a d)
  unfolding encode_div
  encode_div-Agree i a t = (
    refl,
    store_reg_to_location-Tracks _ reg_rax (
        emit_bytes-Tracks _
          (load_divisor-Tracks _ (emit_bytes-Tracks _ (load_location_to_reg-Tracks reg_rax _ t)))),
  )

  pub encode_neg-Agree :
      (i : IrInstruction) (a : Allocation) {c d : Cursor}
      → Tracks base c d
      → Agree base (encode_neg i a c) (encode_neg i a d)
  unfolding encode_neg
  encode_neg-Agree i a t = (
    refl,
    store_reg_to_location-Tracks _ reg_rax
        (emit_bytes-Tracks _ (load_location_to_reg-Tracks reg_rax _ t)),
  )

  pub encode_not_bitwise-Agree :
      (i : IrInstruction) (a : Allocation) {c d : Cursor}
      → Tracks base c d
      → Agree base (encode_not_bitwise i a c) (encode_not_bitwise i a d)
  unfolding encode_not_bitwise
  encode_not_bitwise-Agree i a t = (
    refl,
    store_reg_to_location-Tracks _ reg_rax
        (emit_bytes-Tracks _ (load_location_to_reg-Tracks reg_rax _ t)),
  )

  pub encode_not-Agree :
      (i : IrInstruction) (a : Allocation) {c d : Cursor}
      → Tracks base c d
      → Agree base (encode_not i a c) (encode_not i a d)
  unfolding encode_not
  encode_not-Agree i a t = (
    refl,
    store_reg_to_location-Tracks _ reg_rax (
        emit_movzx-Tracks reg_rax reg_rax (
          emit_setcc-Tracks _ reg_rax
            (emit_bytes-Tracks _ (load_location_to_reg-Tracks reg_rax _ t)))),
  )

  pub encode_arg-Agree :
      (i : IrInstruction) (a : Allocation) {c d : Cursor}
      → Tracks base c d
      → Agree base (encode_arg i a c) (encode_arg i a d)
  unfolding encode_arg
  encode_arg-Agree i a t = (refl, t)

  pub encode_ret-Agree :
      (i : IrInstruction) (a : Allocation) {c d : Cursor}
      → Tracks base c d
      → Agree base (encode_ret i a c) (encode_ret i a d)
  unfolding encode_ret
  encode_ret-Agree i a t = (
    refl,
    emit_bytes-Tracks _ (
        emit_pop-Tracks _ (
          emit_pop-Tracks _ (
            emit_pop-Tracks _ (
              emit_pop-Tracks _ (
                emit_pop-Tracks _ (
                  emit_pop-Tracks _
                    (emit_bytes-Tracks _ (load_location_to_reg-Tracks reg_rax _ t)))))))),
  )

  pub encode_store-Agree :
      (i : IrInstruction) (a : Allocation) {c d : Cursor}
      → Tracks base c d
      → Agree base (encode_store i a c) (encode_store i a d)
  unfolding encode_store
  encode_store-Agree i a t = (refl, store_source-Tracks _ _ _ t)

  pub encode_load-Agree :
      (i : IrInstruction) (a : Allocation) {c d : Cursor}
      → Tracks base c d
      → Agree base (encode_load i a c) (encode_load i a d)
  unfolding encode_load
  encode_load-Agree i a t = (refl, load_target-Tracks _ _ _ t)
