-- ===== src/Jit/Function/Passes/Tracks.antt =====
-- How two cursors go on together when the first only measures and the second writes: the emitters of
-- srcs/jit/emit.c.
use tiny_compile.Prelude.{
  ℕ, ◌+◌, ◌/◌, ◌%◌, ◌^◌, ◌≡◌, refl, ap, Bool, true, false, Option, none, some, List, [], ◌∷◌, arith,
  ◌==◌, if◌then◌else◌,
}
use tiny_compile.Prelude.Int.{ℤ, to_u32}
use tiny_compile.Jit.Registers.{X86Reg}
use tiny_compile.Jit.Buffer.{Cursor, emit_at, emit_u8, emit_bytes, bytes_u32, emit_u32, emit_u64}
use tiny_compile.Jit.Emit.{
  emit_store_local, emit_load_param, emit_mov_imm, emit_alu, emit_imul_r64, emit_mov_reg_reg,
  emit_cmp, emit_setcc, emit_movzx, emit_test, emit_push, emit_pop, emit_load_signext,
  emit_store_sized,
}

-- The first cursor has no buffer, the counts are the same, and the second has moved its write
-- pointer by its count.
pub record Tracks (base : ℕ) (c d : Cursor) : Type 0 where
  pub measuring : c.buf ≡ none
  pub same_size : c.size ≡ d.size
  pub writing : d.buf ≡ some (base + d.size)

module _ {base : ℕ} where
  emit_at-Tracks :
      (x : ℕ) (c d : Cursor) (p : Option ℕ) (q : Option ℕ)
      → c.buf ≡ p
      → d.buf ≡ q
      → Tracks base c d
      → Tracks base (emit_at p x c) (emit_at q x d)
  emit_at-Tracks x c d none (some q) e e' t = record {
    measuring = t.measuring;
    same_size = ap (λ n. n + 1) t.same_size;
    writing = grind arith;
  }
  emit_at-Tracks x c d none none e e' t = cc
  emit_at-Tracks x c d (some p) q e e' t = cc

  emit_u8-Tracks :
      (x : ℕ) {c d : Cursor} → Tracks base c d → Tracks base (emit_u8 x c) (emit_u8 x d)
  unfolding emit_u8
  emit_u8-Tracks x {c} {d} t = emit_at-Tracks x c d c.buf d.buf refl refl t

  pub emit_bytes-Tracks :
      (bs : List ℕ) {c d : Cursor}
      → Tracks base c d
      → Tracks base (emit_bytes bs c) (emit_bytes bs d)
  unfolding emit_bytes
  emit_bytes-Tracks [] t = t
  emit_bytes-Tracks (b ∷ bs) t = emit_bytes-Tracks bs (emit_u8-Tracks b t)

  pub emit_u32-Tracks :
      (v : ℕ) {c d : Cursor} → Tracks base c d → Tracks base (emit_u32 v c) (emit_u32 v d)
  unfolding emit_u32
  emit_u32-Tracks v t = emit_bytes-Tracks (bytes_u32 v) t

  pub emit_u64-Tracks :
      (v : ℕ) {c d : Cursor} → Tracks base c d → Tracks base (emit_u64 v c) (emit_u64 v d)
  unfolding emit_u64
  emit_u64-Tracks v t = emit_u32-Tracks (v / 2 ^ 32 % 2 ^ 32) (emit_u32-Tracks (v % 2 ^ 32) t)

  pub emit_store_local-Tracks :
      (r : X86Reg) (o : ℤ) {c d : Cursor}
      → Tracks base c d
      → Tracks base (emit_store_local r o c) (emit_store_local r o d)
  unfolding emit_store_local
  emit_store_local-Tracks r o t = emit_u32-Tracks (to_u32 o) (emit_bytes-Tracks _ t)

  pub emit_load_param-Tracks :
      (r : X86Reg) (o : ℤ) {c d : Cursor}
      → Tracks base c d
      → Tracks base (emit_load_param r o c) (emit_load_param r o d)
  unfolding emit_load_param
  emit_load_param-Tracks r o t = emit_u32-Tracks (to_u32 o) (emit_bytes-Tracks _ t)

  pub emit_mov_imm-Tracks :
      (r : X86Reg) (v : ℕ) {c d : Cursor}
      → Tracks base c d
      → Tracks base (emit_mov_imm r v c) (emit_mov_imm r v d)
  unfolding emit_mov_imm
  emit_mov_imm-Tracks r v t = emit_u64-Tracks v (emit_bytes-Tracks _ t)

  pub emit_alu-Tracks :
      (op : ℕ) (r s : X86Reg) {c d : Cursor}
      → Tracks base c d
      → Tracks base (emit_alu op r s c) (emit_alu op r s d)
  unfolding emit_alu
  emit_alu-Tracks op r s t = emit_bytes-Tracks _ t

  pub emit_imul_r64-Tracks :
      (r s : X86Reg) {c d : Cursor}
      → Tracks base c d
      → Tracks base (emit_imul_r64 r s c) (emit_imul_r64 r s d)
  unfolding emit_imul_r64
  emit_imul_r64-Tracks r s t = emit_bytes-Tracks _ t

  pub emit_mov_reg_reg-Tracks :
      (r s : X86Reg) {c d : Cursor}
      → Tracks base c d
      → Tracks base (emit_mov_reg_reg r s c) (emit_mov_reg_reg r s d)
  unfolding emit_mov_reg_reg
  emit_mov_reg_reg-Tracks r s t = emit_bytes-Tracks _ t

  pub emit_cmp-Tracks :
      (r s : X86Reg) {c d : Cursor}
      → Tracks base c d
      → Tracks base (emit_cmp r s c) (emit_cmp r s d)
  unfolding emit_cmp
  emit_cmp-Tracks r s t = emit_bytes-Tracks _ t

  pub emit_movzx-Tracks :
      (r s : X86Reg) {c d : Cursor}
      → Tracks base c d
      → Tracks base (emit_movzx r s c) (emit_movzx r s d)
  unfolding emit_movzx
  emit_movzx-Tracks r s t = emit_bytes-Tracks _ t

  pub emit_test-Tracks :
      (r s : X86Reg) {c d : Cursor}
      → Tracks base c d
      → Tracks base (emit_test r s c) (emit_test r s d)
  unfolding emit_test
  emit_test-Tracks r s t = emit_bytes-Tracks _ t

  pub emit_setcc-Tracks :
      (condition : ℕ) (r : X86Reg) {c d : Cursor}
      → Tracks base c d
      → Tracks base (emit_setcc condition r c) (emit_setcc condition r d)
  unfolding emit_setcc
  emit_setcc-Tracks condition r t = emit_bytes-Tracks _ (emit_bytes-Tracks _ t)

  pub emit_push-Tracks :
      (r : X86Reg) {c d : Cursor} → Tracks base c d → Tracks base (emit_push r c) (emit_push r d)
  unfolding emit_push
  emit_push-Tracks r t = emit_bytes-Tracks _ (emit_bytes-Tracks _ t)

  pub emit_pop-Tracks :
      (r : X86Reg) {c d : Cursor} → Tracks base c d → Tracks base (emit_pop r c) (emit_pop r d)
  unfolding emit_pop
  emit_pop-Tracks r t = emit_bytes-Tracks _ (emit_bytes-Tracks _ t)

  pub if-Tracks :
      (b : Bool) {x x' y y' : Cursor}
      → Tracks base x x'
      → Tracks base y y'
      → Tracks base (if b then x else y) (if b then x' else y')
  if-Tracks true t t' = t
  if-Tracks false t t' = t'

  pub emit_load_signext-Tracks :
      (r b : X86Reg) (o : ℤ) (n : ℕ) {c d : Cursor}
      → Tracks base c d
      → Tracks base (emit_load_signext r b o n c) (emit_load_signext r b o n d)
  unfolding emit_load_signext
  emit_load_signext-Tracks r b o n t =
      if-Tracks _
        (emit_u32-Tracks (to_u32 o)
          (emit_bytes-Tracks _ (emit_bytes-Tracks _ (emit_bytes-Tracks _ t))))
        (emit_load_param-Tracks r o t)

  pub emit_store_sized-Tracks :
      (r b : X86Reg) (o : ℤ) (n : ℕ) {c d : Cursor}
      → Tracks base c d
      → Tracks base (emit_store_sized r b o n c) (emit_store_sized r b o n d)
  unfolding emit_store_sized
  emit_store_sized-Tracks r b o n t =
      if-Tracks (n == 1) (emit_u32-Tracks (to_u32 o) (emit_bytes-Tracks _ t)) (
        if-Tracks (n == 4)
          (emit_u32-Tracks (to_u32 o) (emit_bytes-Tracks _ (emit_bytes-Tracks _ t)))
          (emit_store_local-Tracks r o t))
