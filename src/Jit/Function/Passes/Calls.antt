-- ===== src/Jit/Function/Passes/Calls.antt =====
-- How two cursors go on together: jumps, labels and the parts of calls.
use tiny_compile.Prelude.{
  ℕ, ◌+◌, ◌≡◌, refl, sym, ◌∙◌, Bool, true, false, Option, none, some, List, [], ◌∷◌, if◌then◌else◌,
  leb,
}
use tiny_compile.Ir.{IrInstruction}
use tiny_compile.Jit.Registers.{X86Reg, reg_rax, max_labels}
use tiny_compile.Jit.Buffer.{Cursor, emit_u32, bytes_u32, emit_bytes-size}
use tiny_compile.Jit.Context.{
  Location, loc_none, loc_reg, loc_stack, loc_const, Allocation, Addresses,
}
use tiny_compile.Jit.Calls.{
  emit_target, emit_jump, test_location, encode_branch, define_label, encode_label, push_stack_args,
  push_location, push_reg_args, pop_args, adjust_rsp,
}
use tiny_compile.Jit.Dispatch.{Step}
use tiny_compile.Jit.Function.Passes.Tracks.{
  Tracks, emit_bytes-Tracks, emit_u32-Tracks, emit_test-Tracks, emit_push-Tracks, emit_pop-Tracks,
}
use tiny_compile.Jit.Function.Passes.Encoders.{Agree, load_location_to_reg-Tracks}

-- the same allocation, and cursors that go on together
abbrev pub StepsAgree : ℕ → Step → Step → Type 0
StepsAgree base x y = (x.0 ≡ y.0) × Tracks base x.2 y.2

-- the cursor of a jump
abbrev pub target_cursor : Addresses × Cursor → Cursor
target_cursor r = r.1

module _ {base : ℕ} where
  skip-Tracks :
      (v : ℕ) {c d : Cursor}
      → Tracks base c d
      → Tracks base (record c { size = c.size + 4 }) (emit_u32 v d)
  unfolding emit_u32
  skip-Tracks v {c} t =
      let both = emit_u32-Tracks v t in
      record {
        measuring = t.measuring;
        same_size = sym (emit_bytes-size (bytes_u32 v) c) ∙ both.same_size;
        writing = both.writing;
      }

  if-emitted :
      (b : Bool) (v : ℕ) (x y : Addresses) {c d : Cursor}
      → Tracks base c d
      → Tracks base
          (record c { size = c.size + 4 })
          (target_cursor (if b then (x, emit_u32 v d) else (y, emit_u32 0 d)))
  if-emitted true v x y t = skip-Tracks v t
  if-emitted false v x y t = skip-Tracks 0 t

  emit_target-Tracks :
      (l : ℕ) (p q : Option ℕ) (x y : Addresses) {c d : Cursor}
      → c.buf ≡ p
      → d.buf ≡ q
      → Tracks base c d
      → Tracks base (emit_target l p x c).1 (emit_target l q y d).1
  emit_target-Tracks l none (some q) x y e e' t = if-emitted _ _ _ _ t
  emit_target-Tracks l none none x y e e' t = cc
  emit_target-Tracks l (some p) q x y e e' t = cc

  pub emit_jump-Tracks :
      (l k : ℕ) (x y : Addresses) {c d : Cursor}
      → Tracks base c d
      → Tracks base (emit_jump l k x c).1 (emit_jump l k y d).1
  unfolding emit_jump
  emit_jump-Tracks l k x y t = emit_target-Tracks l _ _ x y refl refl (emit_bytes-Tracks _ t)

  test_location-Tracks :
      (l : Location) {c d : Cursor}
      → Tracks base c d
      → Tracks base (test_location l c) (test_location l d)
  test_location-Tracks (loc_reg r) t = emit_test-Tracks r r t
  test_location-Tracks loc_none t = emit_bytes-Tracks _ (load_location_to_reg-Tracks _ loc_none t)
  test_location-Tracks (loc_stack o) t =
      emit_bytes-Tracks _ (load_location_to_reg-Tracks _ (loc_stack o) t)
  test_location-Tracks (loc_const v) t =
      emit_bytes-Tracks _ (load_location_to_reg-Tracks _ (loc_const v) t)

  pub encode_branch-Agree :
      (i : IrInstruction) (a : Allocation) (x y : Addresses) {c d : Cursor}
      → Tracks base c d
      → StepsAgree base (encode_branch i a x c) (encode_branch i a y d)
  unfolding encode_branch
  encode_branch-Agree i a x y t = (refl, emit_jump-Tracks _ _ x y (test_location-Tracks _ t))

  define_label-Tracks :
      (l : ℕ) (p q : Option ℕ) (x y : Addresses) {c d : Cursor}
      → c.buf ≡ p
      → d.buf ≡ q
      → Tracks base c d
      → Tracks base (define_label l p x c).1 (define_label l q y d).1
  define_label-Tracks l none (some q) x y e e' t = record {
    measuring = t.measuring;
    same_size = t.same_size;
    writing = t.writing;
  }
  define_label-Tracks l none none x y e e' t = cc
  define_label-Tracks l (some p) q x y e e' t = cc

  if-both :
      (b : Bool) (x y x' y' : Addresses × Cursor)
      → Tracks base x.1 y.1
      → Tracks base x'.1 y'.1
      → Tracks base (target_cursor (if b then x else x')) (target_cursor (if b then y else y'))
  if-both true x y x' y' t t' = t
  if-both false x y x' y' t t' = t'

  pub encode_label-Tracks :
      (i : IrInstruction) (x y : Addresses) {c d : Cursor}
      → Tracks base c d
      → Tracks base (encode_label i x c).1 (encode_label i y d).1
  unfolding encode_label
  encode_label-Tracks i x y t =
      if-both (leb max_labels i.label_id) _ _ _ _ t
        (define_label-Tracks i.label_id _ _ x y refl refl t)

  pub push_stack_args-Agree :
      (vs : List ℕ) (a : Allocation) {c d : Cursor}
      → Tracks base c d
      → Agree base (push_stack_args vs a c) (push_stack_args vs a d)
  unfolding push_stack_args
  push_stack_args-Agree [] a t = (refl, t)
  push_stack_args-Agree (v ∷ vs) a t =
      push_stack_args-Agree vs _ (emit_push-Tracks reg_rax (load_location_to_reg-Tracks _ _ t))

  push_location-Tracks :
      (l : Location) {c d : Cursor}
      → Tracks base c d
      → Tracks base (push_location l c) (push_location l d)
  push_location-Tracks (loc_reg r) t = emit_push-Tracks r t
  push_location-Tracks loc_none t = emit_push-Tracks _ (load_location_to_reg-Tracks _ loc_none t)
  push_location-Tracks (loc_stack o) t =
      emit_push-Tracks _ (load_location_to_reg-Tracks _ (loc_stack o) t)
  push_location-Tracks (loc_const v) t =
      emit_push-Tracks _ (load_location_to_reg-Tracks _ (loc_const v) t)

  pub push_reg_args-Agree :
      (vs : List ℕ) (a : Allocation) {c d : Cursor}
      → Tracks base c d
      → Agree base (push_reg_args vs a c) (push_reg_args vs a d)
  unfolding push_reg_args
  push_reg_args-Agree [] a t = (refl, t)
  push_reg_args-Agree (v ∷ vs) a t = push_reg_args-Agree vs _ (push_location-Tracks _ t)

  pub pop_args-Tracks :
      (rs : List X86Reg) {c d : Cursor}
      → Tracks base c d
      → Tracks base (pop_args rs c) (pop_args rs d)
  unfolding pop_args
  pop_args-Tracks [] t = t
  pop_args-Tracks (r ∷ rs) t = pop_args-Tracks rs (emit_pop-Tracks r t)

  pub adjust_rsp-Tracks :
      (k n : ℕ) {c d : Cursor} → Tracks base c d → Tracks base (adjust_rsp k n c) (adjust_rsp k n d)
  unfolding adjust_rsp
  adjust_rsp-Tracks k n t = emit_u32-Tracks n (emit_bytes-Tracks _ t)
