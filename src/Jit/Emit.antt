-- ===== src/Jit/Emit.antt =====
-- srcs/jit/emit.c: the encodings of single machine instructions.
use tiny_compile.Prelude.{
  ℕ, ◌+◌, ◌*◌, ◌%◌, ◌^◌, Bool, ◌||◌, List, [], ◌∷◌, leb, ◌==◌, if◌then◌else◌, bit_or,
}
use tiny_compile.Prelude.Int.{ℤ, to_u32}
use tiny_compile.Jit.Registers.{
  X86Reg, reg_rbp, rex, rex_b, rex_w, alu_cmp, alu_test, mov_rm_r, mov_rm_r8, mov_r_rm, mov_imm_r,
  op_push, op_pop, op_prefix_0f, op_movsxd, op_movsx_8, op_movzx, op_imul_1, op_imul_2,
  mod_mem_disp32, mod_reg,
}
use tiny_compile.Jit.Buffer.{Cursor, emit_bytes, emit_u32, emit_u64}

-- `reg >= 8`
abbrev pub is_extended : X86Reg → Bool
is_extended reg = leb 8 reg

-- `if (reg >= 8) rex |= bit;`
abbrev pub with_bit : X86Reg → ℕ → ℕ → ℕ
with_bit reg bit prefix = if is_extended reg then bit_or prefix bit else prefix

unfoldable pub get_rex : X86Reg → X86Reg → ℕ
get_rex dst src = with_bit dst 0x01 (with_bit src 0x04 rex_w)

-- `mode | ((reg & 7) << 3) | rm`
unfoldable pub modrm : ℕ → X86Reg → ℕ → ℕ
modrm mode reg rm = bit_or (bit_or mode (reg % 8 * 2 ^ 3)) rm

-- mov [rbp + disp], src
unfoldable pub emit_store_local : X86Reg → ℤ → Cursor → Cursor
unfolding get_rex modrm
emit_store_local src disp c =
    emit_u32 (to_u32 disp)
      (emit_bytes (get_rex 0 src ∷ mov_rm_r ∷ modrm mod_mem_disp32 src reg_rbp ∷ []) c)

-- mov dst, [rbp + disp]. The register goes through the source argument of `get_rex`.
unfoldable pub emit_load_param : X86Reg → ℤ → Cursor → Cursor
unfolding get_rex modrm
emit_load_param dst disp c =
    emit_u32 (to_u32 disp)
      (emit_bytes (get_rex 0 dst ∷ mov_r_rm ∷ modrm mod_mem_disp32 dst reg_rbp ∷ []) c)

unfoldable pub emit_mov_imm : X86Reg → ℕ → Cursor → Cursor
unfolding get_rex
emit_mov_imm dst imm c = emit_u64 imm (emit_bytes (get_rex dst 0 ∷ (mov_imm_r + dst % 8) ∷ []) c)

unfoldable pub emit_alu : ℕ → X86Reg → X86Reg → Cursor → Cursor
unfolding get_rex modrm
emit_alu op dst src c = emit_bytes (get_rex dst src ∷ op ∷ modrm mod_reg src (dst % 8) ∷ []) c

unfoldable pub emit_imul_r64 : X86Reg → X86Reg → Cursor → Cursor
unfolding get_rex modrm
emit_imul_r64 dst src c =
    emit_bytes (get_rex src dst ∷ op_imul_1 ∷ op_imul_2 ∷ modrm mod_reg dst (src % 8) ∷ []) c

unfoldable pub emit_mov_reg_reg : X86Reg → X86Reg → Cursor → Cursor
unfolding get_rex modrm
emit_mov_reg_reg dst src c =
    emit_bytes (get_rex dst src ∷ mov_rm_r ∷ modrm mod_reg src (dst % 8) ∷ []) c

unfoldable pub emit_cmp : X86Reg → X86Reg → Cursor → Cursor
unfolding get_rex modrm
emit_cmp dst src c = emit_bytes (get_rex dst src ∷ alu_cmp ∷ modrm mod_reg src (dst % 8) ∷ []) c

-- the prefix that `emit_setcc` needs for the byte registers from 4 up
abbrev pub setcc_prefix : X86Reg → List ℕ
setcc_prefix dst = if leb 4 dst then with_bit dst 0x01 0x40 ∷ [] else []

unfoldable pub emit_setcc : ℕ → X86Reg → Cursor → Cursor
unfolding modrm
emit_setcc cc dst c =
    emit_bytes (op_prefix_0f ∷ bit_or 0x90 cc ∷ modrm mod_reg 0 (dst % 8) ∷ [])
      (emit_bytes (setcc_prefix dst) c)

unfoldable pub emit_movzx : X86Reg → X86Reg → Cursor → Cursor
unfolding modrm
emit_movzx dst src c =
    emit_bytes
      (with_bit src 0x01 (with_bit dst 0x04 rex_w)
        ∷ op_prefix_0f
        ∷ op_movzx
        ∷ modrm mod_reg dst (src % 8)
        ∷ [])
      c

unfoldable pub emit_test : X86Reg → X86Reg → Cursor → Cursor
unfolding get_rex modrm
emit_test dst src c = emit_bytes (get_rex dst src ∷ alu_test ∷ modrm mod_reg src (dst % 8) ∷ []) c

-- `if (reg >= 8) emit_u8(buf, cnt, REX_B);`
abbrev pub prefix_b : X86Reg → List ℕ
prefix_b reg = if is_extended reg then rex_b ∷ [] else []

unfoldable pub emit_push : X86Reg → Cursor → Cursor
emit_push reg c = emit_bytes ((op_push + reg % 8) ∷ []) (emit_bytes (prefix_b reg) c)

unfoldable pub emit_pop : X86Reg → Cursor → Cursor
emit_pop reg c = emit_bytes ((op_pop + reg % 8) ∷ []) (emit_bytes (prefix_b reg) c)

unfoldable pub emit_load_signext : X86Reg → X86Reg → ℤ → ℕ → Cursor → Cursor
unfolding modrm
emit_load_signext dst base disp size c =
    if size == 1 || size == 4
    then emit_u32 (to_u32 disp) (
        emit_bytes (modrm mod_mem_disp32 dst (base % 8) ∷ []) (
          emit_bytes (if size == 1 then op_prefix_0f ∷ op_movsx_8 ∷ [] else op_movsxd ∷ [])
            (emit_bytes (with_bit base 1 (with_bit dst 4 rex_w) ∷ []) c)))
    else emit_load_param dst disp c

-- the prefix of the 32-bit store, which is left out where no bit is set
abbrev pub store_prefix : X86Reg → X86Reg → List ℕ
store_prefix src base =
    let bits = with_bit base 1 (with_bit src 4 0) in if bits == 0 then [] else bit_or 0x40 bits ∷ []

unfoldable pub emit_store_sized : X86Reg → X86Reg → ℤ → ℕ → Cursor → Cursor
unfolding modrm
emit_store_sized src base disp size c =
    if size == 1
    then emit_u32 (to_u32 disp) (
        emit_bytes
          (with_bit base 1 (with_bit src 4 rex)
            ∷ mov_rm_r8
            ∷ modrm mod_mem_disp32 src (base % 8)
            ∷ [])
          c)
    else if size == 4
    then emit_u32 (to_u32 disp) (
        emit_bytes (mov_rm_r ∷ modrm mod_mem_disp32 src (base % 8) ∷ [])
          (emit_bytes (store_prefix src base) c))
    else emit_store_local src disp c
