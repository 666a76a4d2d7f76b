-- ===== src/Jit/Function/Passes/Agree.antt =====
-- The two passes agree: calls, the dispatch, the prologue, and the loops over a function.
use mathlib.Core.List.{reverse}
use tiny_compile.Prelude.{
  ℕ, zero, suc, ◌+◌, ◌*◌, ◌-◌, ◌≤◌, ◌≡◌, refl, ap, subst, ◌∙◌, Bool, true, false, none, some, List,
  [], ◌∷◌, if◌then◌else◌, length, take, drop, ltb, ◌==◌, get_or, Run, ok, stop, aborted, arith,
}
use tiny_compile.Ir.{IrInstruction, IrOpcode}
use tiny_compile.Jit.Registers.{X86Reg, reg_rax, sys_v_max_reg_args, arg_registers, word_size}
use tiny_compile.Jit.Buffer.{Cursor}
use tiny_compile.Jit.Context.{
  Location, loc_none, loc_reg, loc_stack, loc_const, Allocation, Addresses, get_location,
}
use tiny_compile.Jit.Operands.{Encoded}
use tiny_compile.Jit.Calls.{
  push_reg_args, encode_jmp, needs_alignment, encode_arguments, encode_call,
}
use tiny_compile.Jit.Dispatch.{encoders, encode_inst, Encoding, cursor_at}
use tiny_compile.Jit.Function.{
  save_registers, move_param, load_stack_param, place_params, encode_prologue, prologue_at, advance,
  measure, emit_all,
}
use tiny_compile.Jit.Function.Passes.Tracks.{
  Tracks, emit_bytes-Tracks, emit_u32-Tracks, emit_u64-Tracks, emit_store_local-Tracks,
  emit_load_param-Tracks, emit_mov_reg_reg-Tracks, emit_push-Tracks, if-Tracks,
}
use tiny_compile.Jit.Function.Passes.Encoders.{
  Agree, store_reg_to_location-Tracks, emit_standard_binary_op-Agree, emit_shift_op-Agree,
  encode_mov-Agree, encode_cmp-Agree, encode_const-Agree, encode_mul-Agree, encode_div-Agree,
  encode_neg-Agree, encode_not_bitwise-Agree, encode_not-Agree, encode_arg-Agree, encode_ret-Agree,
  encode_store-Agree, encode_load-Agree,
}
use tiny_compile.Jit.Function.Passes.Calls.{
  StepsAgree, emit_jump-Tracks, encode_branch-Agree, encode_label-Tracks, push_stack_args-Agree,
  push_reg_args-Agree, pop_args-Tracks, adjust_rsp-Tracks,
}

module _ {base : ℕ} where
  Agree-bind :
      (f : Allocation → Cursor → Encoded) {x y : Encoded}
      → Agree base x y
      → ((a : Allocation) → Tracks base x.1 y.1 → Agree base (f a x.1) (f a y.1))
      → Agree base (f x.0 x.1) (f y.0 y.1)
  Agree-bind f {x} {y} h k = subst (λ a. Agree base (f x.0 x.1) (f a y.1)) h.0 (k x.0 h.1)

  encode_arguments-Agree :
      (a : Allocation) {c d : Cursor}
      → Tracks base c d
      → Agree base (encode_arguments a c) (encode_arguments a d)
  unfolding encode_arguments
  encode_arguments-Agree a {c} {d} t =
      let pending = a.pending_call in
      let pushed =
        push_stack_args-Agree (reverse (drop sys_v_max_reg_args pending)) a
          (if-Tracks (needs_alignment pending) (adjust_rsp-Tracks _ _ t) t) in
      let both =
        Agree-bind (push_reg_args (reverse (take sys_v_max_reg_args pending))) pushed
          (λ b u. push_reg_args-Agree (reverse (take sys_v_max_reg_args pending)) b u) in
      (
        both.0,
        emit_bytes-Tracks _ (
            pop_args-Tracks (take (length (take sys_v_max_reg_args pending)) arg_registers) both.1),
      )

  encode_call-Agree :
      (i : IrInstruction) (a : Allocation) (x y : Addresses) {c d : Cursor}
      → Tracks base c d
      → StepsAgree base (encode_call i a x c) (encode_call i a y d)
  unfolding encode_call
  encode_call-Agree i a x y t =
      let both = encode_arguments-Agree (get_location a i.dest).1 t in
      (
        ap (λ (b : Allocation). record b { pending_call = [] }) both.0,
        store_reg_to_location-Tracks _ reg_rax (
            if-Tracks _ (adjust_rsp-Tracks _ _ (emit_bytes-Tracks _ (emit_u64-Tracks _ both.1)))
              (emit_bytes-Tracks _ (emit_u64-Tracks _ both.1))),
      )

  encoders-Agree :
      (k : IrOpcode) (i : IrInstruction) (a : Allocation) (x y : Addresses) {c d : Cursor}
      → Tracks base c d
      → StepsAgree base (encoders k i a x c) (encoders k i a y d)
  unfolding encoders encode_jmp
  encoders-Agree IrOpcode.add i a x y t = emit_standard_binary_op-Agree _ i a t
  encoders-Agree IrOpcode.sub i a x y t = emit_standard_binary_op-Agree _ i a t
  encoders-Agree IrOpcode.mul i a x y t = encode_mul-Agree i a t
  encoders-Agree IrOpcode.div i a x y t = encode_div-Agree i a t
  encoders-Agree IrOpcode.eq i a x y t = encode_cmp-Agree i a t
  encoders-Agree IrOpcode.neq i a x y t = encode_cmp-Agree i a t
  encoders-Agree IrOpcode.lt i a x y t = encode_cmp-Agree i a t
  encoders-Agree IrOpcode.le i a x y t = encode_cmp-Agree i a t
  encoders-Agree IrOpcode.gt i a x y t = encode_cmp-Agree i a t
  encoders-Agree IrOpcode.ge i a x y t = encode_cmp-Agree i a t
  encoders-Agree IrOpcode.lshift i a x y t = emit_shift_op-Agree _ i a t
  encoders-Agree IrOpcode.rshift i a x y t = emit_shift_op-Agree _ i a t
  encoders-Agree IrOpcode.urshift i a x y t = emit_shift_op-Agree _ i a t
  encoders-Agree IrOpcode.band i a x y t = emit_standard_binary_op-Agree _ i a t
  encoders-Agree IrOpcode.bor i a x y t = emit_standard_binary_op-Agree _ i a t
  encoders-Agree IrOpcode.bxor i a x y t = emit_standard_binary_op-Agree _ i a t
  encoders-Agree IrOpcode.bnot i a x y t = encode_not_bitwise-Agree i a t
  encoders-Agree IrOpcode.neg i a x y t = encode_neg-Agree i a t
  encoders-Agree IrOpcode.not i a x y t = encode_not-Agree i a t
  encoders-Agree IrOpcode.mov i a x y t = encode_mov-Agree i a t
  encoders-Agree IrOpcode.load i a x y t = encode_load-Agree i a t
  encoders-Agree IrOpcode.store i a x y t = encode_store-Agree i a t
  encoders-Agree IrOpcode.const i a x y t = encode_const-Agree i a t
  encoders-Agree IrOpcode.arg i a x y t = encode_arg-Agree i a t
  encoders-Agree IrOpcode.label i a x y t = (refl, encode_label-Tracks i x y t)
  encoders-Agree IrOpcode.jmp i a x y t = (refl, emit_jump-Tracks _ _ x y t)
  encoders-Agree IrOpcode.jz i a x y t = encode_branch-Agree i a x y t
  encoders-Agree IrOpcode.jnz i a x y t = encode_branch-Agree i a x y t
  encoders-Agree IrOpcode.call i a x y t = encode_call-Agree i a x y t
  encoders-Agree IrOpcode.ret i a x y t = encode_ret-Agree i a t

  move_param-Tracks :
      (r : X86Reg) (l : Location) {c d : Cursor}
      → Tracks base c d
      → Tracks base (move_param r l c) (move_param r l d)
  move_param-Tracks r (loc_reg q) t = if-Tracks (q == r) t (emit_mov_reg_reg-Tracks q r t)
  move_param-Tracks r (loc_stack o) t = emit_store_local-Tracks r o t
  move_param-Tracks r loc_none t = t
  move_param-Tracks r (loc_const v) t = t

  load_stack_param-Tracks :
      (n : ℕ) (l : Location) {c d : Cursor}
      → Tracks base c d
      → Tracks base (load_stack_param n l c) (load_stack_param n l d)
  load_stack_param-Tracks n (loc_reg r) t = emit_load_param-Tracks r _ t
  load_stack_param-Tracks n (loc_stack o) t =
      emit_store_local-Tracks _ o (emit_load_param-Tracks _ _ t)
  load_stack_param-Tracks n loc_none t = emit_load_param-Tracks _ _ t
  load_stack_param-Tracks n (loc_const v) t = emit_load_param-Tracks _ _ t

  place_params-Agree :
      (n i : ℕ) (a : Allocation) {c d : Cursor}
      → Tracks base c d
      → Agree base (place_params n i a c) (place_params n i a d)
  unfolding place_params
  place_params-Agree zero i a t = (refl, t)
  place_params-Agree (suc n) i a t = place_params-Agree n (i + 1) _ (
      if-Tracks (ltb i 6)
        (move_param-Tracks (get_or arg_registers i 0) (get_location a (i + 1)).0 t)
        (load_stack_param-Tracks (2 * word_size + (i - 6) * word_size) (get_location a (i + 1)).0
          t))

  save_registers-Tracks :
      {c d : Cursor} → Tracks base c d → Tracks base (save_registers c) (save_registers d)
  save_registers-Tracks t = emit_push-Tracks _ (
      emit_push-Tracks _ (
        emit_push-Tracks _ (
          emit_push-Tracks _
            (emit_push-Tracks _ (emit_mov_reg_reg-Tracks _ _ (emit_push-Tracks _ t))))))

  encode_prologue-Agree :
      (s n : ℕ) (a : Allocation) {c d : Cursor}
      → Tracks base c d
      → Agree base (encode_prologue s n a c) (encode_prologue s n a d)
  unfolding encode_prologue
  encode_prologue-Agree s n a t =
      let saved = save_registers-Tracks t in
      place_params-Agree n 0 a
        (if-Tracks (ltb 0 s) (emit_u32-Tracks _ (emit_bytes-Tracks _ saved)) saved)

start-Tracks : (p : ℕ) (x y : Addresses) → Tracks p (cursor_at none x) (cursor_at (some p) y)
start-Tracks p x y = record { measuring = refl; same_size = refl; writing = ap some (omega arith) }

-- the encodings of the two passes: the same size, and the same places of values
pub record SameShape (e e' : Encoding) : Type 0 where
  pub size : e.size ≡ e'.size
  pub alloc : e.alloc ≡ e'.alloc

encode_inst-SameShape :
    (p : ℕ) (i : IrInstruction) (a : Allocation) (x y : Addresses)
    → SameShape (encode_inst none i a x) (encode_inst (some p) i a y)
unfolding encode_inst
encode_inst-SameShape p i a x y =
    let agree = encoders-Agree {base = p} i.opcode i a x y (start-Tracks p x y) in
    record { size = agree.1.same_size; alloc = agree.0 }

-- The prologue has the same size in both passes, and gives the parameters the same places.
pub prologue_at-SameShape :
    (p s n : ℕ) (a : Allocation) (x y : Addresses)
    → SameShape (prologue_at none s n a x) (prologue_at (some p) s n a y)
prologue_at-SameShape p s n a x y =
    let agree = encode_prologue-Agree {base = p} s n a (start-Tracks p x y) in
    record { size = agree.1.same_size; alloc = agree.0 }

advance-SameShape :
    (p : ℕ) (i : IrInstruction) {e e' : Encoding}
    → SameShape e e'
    → SameShape
        (advance e.size (encode_inst none i e.alloc e.addresses))
        (advance e'.size (encode_inst (some p) i e'.alloc e'.addresses))
advance-SameShape p i {e} {e'} h =
    let step = encode_inst-SameShape p i e.alloc e.addresses e'.addresses in
    subst
      (λ a.
        SameShape (advance e.size (encode_inst none i e.alloc e.addresses))
          (advance e'.size (encode_inst (some p) i a e'.addresses)))
      h.alloc (record { size = omega (arith, step.size, h.size); alloc = step.alloc })

measure-grows : (is : List IrInstruction) (e : Encoding) → e.size ≤ (measure is e).size
unfolding measure
measure-grows [] e = omega arith
measure-grows (i ∷ is) e =
    omega (arith, measure-grows is (advance e.size (encode_inst none i e.alloc e.addresses)))

not_over : (p n : ℕ) → n ≤ p → ltb p n ≡ false
not_over p n h = ground arith

unless_over : (b : Bool) (m : Run Encoding) → b ≡ false → (if b then stop aborted else m) ≡ m
unless_over true m h = cc
unless_over false m h = refl

-- If the first pass counts no more than `predicted`, the second never stops, and it ends with the
-- same count.
pub emit_all-measure :
    (base predicted : ℕ) (is : List IrInstruction) (e e' : Encoding)
    → SameShape e e'
    → (measure is e).size ≤ predicted
    → (r : Encoding) × (emit_all base predicted is e' ≡ ok r) × SameShape (measure is e) r
unfolding measure emit_all
emit_all-measure base predicted [] e e' h le = (e', refl, h)
emit_all-measure base predicted (i ∷ is) e e' h le =
    let e₁ = advance e.size (encode_inst none i e.alloc e.addresses) in
    let e₁' = advance e'.size (encode_inst (some (base + e'.size)) i e'.alloc e'.addresses) in
    let h₁ = advance-SameShape (base + e'.size) i h in
    let (r, runs, same) = emit_all-measure base predicted is e₁ e₁' h₁ le in
    let fits = not_over predicted e₁'.size (omega (arith, measure-grows is e₁, h₁.size)) in
    (r, unless_over _ (emit_all base predicted is e₁') fits ∙ runs, same)
