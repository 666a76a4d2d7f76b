-- ===== src/Jit/Registers.antt =====
-- The enumerations of incs/jit.h as the numbers that the code computes with.
use tiny_compile.Prelude.{ℕ, List, [], ◌∷◌, Bool, ◌||◌, ◌&&◌, ◌==◌, leb}

-- `X86Reg`; a register is its number in the instruction set
abbrev pub X86Reg : Type 0
X86Reg = ℕ

abbrev pub reg_rax : X86Reg
reg_rax = 0

abbrev pub reg_rcx : X86Reg
reg_rcx = 1

abbrev pub reg_rdx : X86Reg
reg_rdx = 2

abbrev pub reg_rbx : X86Reg
reg_rbx = 3

abbrev pub reg_rsp : X86Reg
reg_rsp = 4

abbrev pub reg_rbp : X86Reg
reg_rbp = 5

abbrev pub reg_rsi : X86Reg
reg_rsi = 6

abbrev pub reg_rdi : X86Reg
reg_rdi = 7

abbrev pub reg_r8 : X86Reg
reg_r8 = 8

abbrev pub reg_r9 : X86Reg
reg_r9 = 9

abbrev pub reg_r12 : X86Reg
reg_r12 = 12

abbrev pub reg_r13 : X86Reg
reg_r13 = 13

abbrev pub reg_r14 : X86Reg
reg_r14 = 14

abbrev pub reg_r15 : X86Reg
reg_r15 = 15

-- `X86Prefix`
abbrev pub rex : ℕ
rex = 0x40

abbrev pub rex_b : ℕ
rex_b = 0x41

abbrev pub rex_w : ℕ
rex_w = 0x48

-- `X86Condition`
abbrev pub cc_e : ℕ
cc_e = 0x4

abbrev pub cc_ne : ℕ
cc_ne = 0x5

abbrev pub cc_l : ℕ
cc_l = 0xc

abbrev pub cc_ge : ℕ
cc_ge = 0xd

abbrev pub cc_le : ℕ
cc_le = 0xe

abbrev pub cc_g : ℕ
cc_g = 0xf

-- `X86Opcode`
abbrev pub alu_add : ℕ
alu_add = 0x01

abbrev pub alu_or : ℕ
alu_or = 0x09

abbrev pub alu_and : ℕ
alu_and = 0x21

abbrev pub alu_sub : ℕ
alu_sub = 0x29

abbrev pub alu_xor : ℕ
alu_xor = 0x31

abbrev pub alu_cmp : ℕ
alu_cmp = 0x39

abbrev pub alu_imm : ℕ
alu_imm = 0x81

abbrev pub alu_imm8 : ℕ
alu_imm8 = 0x83

abbrev pub alu_test : ℕ
alu_test = 0x85

abbrev pub mov_rm_r : ℕ
mov_rm_r = 0x89

abbrev pub mov_rm_r8 : ℕ
mov_rm_r8 = 0x88

abbrev pub mov_r_rm : ℕ
mov_r_rm = 0x8b

abbrev pub mov_imm_r : ℕ
mov_imm_r = 0xb8

abbrev pub op_push : ℕ
op_push = 0x50

abbrev pub op_pop : ℕ
op_pop = 0x58

abbrev pub op_ret : ℕ
op_ret = 0xc3

abbrev pub op_call_ind : ℕ
op_call_ind = 0xff

abbrev pub op_jmp_rel32 : ℕ
op_jmp_rel32 = 0xe9

abbrev pub op_prefix_0f : ℕ
op_prefix_0f = 0x0f

abbrev pub op_movsxd : ℕ
op_movsxd = 0x63

abbrev pub op_movsx_8 : ℕ
op_movsx_8 = 0xbe

abbrev pub op_movzx : ℕ
op_movzx = 0xb6

abbrev pub op_lea : ℕ
op_lea = 0x8d

abbrev pub op_shift_cl : ℕ
op_shift_cl = 0xd3

abbrev pub op_cqo : ℕ
op_cqo = 0x99

abbrev pub op_idiv : ℕ
op_idiv = 0xf7

abbrev pub op_grp3 : ℕ
op_grp3 = 0xf7

abbrev pub op_imul_1 : ℕ
op_imul_1 = 0x0f

abbrev pub op_imul_2 : ℕ
op_imul_2 = 0xaf

-- `X86ModMode`
abbrev pub mod_mem_disp8 : ℕ
mod_mem_disp8 = 0x40

abbrev pub mod_mem_disp32 : ℕ
mod_mem_disp32 = 0x80

abbrev pub mod_reg : ℕ
mod_reg = 0xc0

-- `X86Extension`
abbrev pub ext_add : ℕ
ext_add = 0

abbrev pub ext_call : ℕ
ext_call = 2

abbrev pub ext_not : ℕ
ext_not = 2

abbrev pub ext_neg : ℕ
ext_neg = 3

abbrev pub ext_shl : ℕ
ext_shl = 4

abbrev pub ext_shr : ℕ
ext_shr = 5

abbrev pub ext_sub : ℕ
ext_sub = 5

abbrev pub ext_idiv : ℕ
ext_idiv = 7

abbrev pub ext_cmp : ℕ
ext_cmp = 7

abbrev pub ext_sar : ℕ
ext_sar = 7

-- incs/defines.h
abbrev pub stack_alignment : ℕ
stack_alignment = 16

abbrev pub word_size : ℕ
word_size = 8

abbrev pub sys_v_max_reg_args : ℕ
sys_v_max_reg_args = 6

abbrev pub callee_saved_count : ℕ
callee_saved_count = 5

abbrev pub callee_saved_size : ℕ
callee_saved_size = 40

abbrev pub max_labels : ℕ
max_labels = 512

abbrev pub max_call_sites : ℕ
max_call_sites = 1024

abbrev pub max_function_count : ℕ
max_function_count = 256

-- `arg_registers` of srcs/jit/jit.c, the six that its users read
abbrev pub arg_registers : List X86Reg
arg_registers =
    reg_rdi ∷ reg_rsi ∷ reg_rdx ∷ reg_rcx ∷ reg_r8 ∷ reg_r9 ∷ reg_r12 ∷ reg_r13 ∷ reg_r14 ∷ reg_r15
    ∷ []

-- Only registers that a callee saves are given out.
unfoldable pub is_allocatable_register : X86Reg → Bool
is_allocatable_register reg = reg == reg_rbx || (leb reg_r12 reg && leb reg reg_r15)
