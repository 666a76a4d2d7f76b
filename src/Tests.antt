-- ===== src/Tests.antt =====
-- The theorems at concrete inputs.
mod Analysis
mod Lexing
mod Passing
use tiny_compile.Prelude.{
  ℕ, ◌+◌, ◌*◌, ◌%◌, ◌^◌, ◌<◌, ◌≤◌, ◌≡◌, refl, ◌≢◌, true, false, Option, none, some, List, [], ◌∷◌,
  arith, ◌++◌, ◌↔◌, ◌⊎◌, if◌then◌else◌, drop, length, ok,
}
use tiny_compile.StringView.{StringView, sv_eq, sv_eq_iff}
use tiny_compile.ErrorHandler.{
  ErrorCategory, ErrorLevel, error_context_init, error_add, error_has_errors, error_has_fatal,
}
use tiny_compile.ErrorHandler.Counts.{IsCounted, init-IsCounted, error_add-IsCounted, fatal-errors}
use tiny_compile.Ast.Types.{DataType}
use tiny_compile.Ast.{BinaryOp, NodeInfo, FunctionHeader, Node, number, identifier, binary}
use tiny_compile.Ir.{
  IrOpcode, IrInstruction, IrFunction, instruction, emit, append_chunk, ir_alloc_vreg,
}
use tiny_compile.Ir.Chunks.{IsChunked, code, emit-code, emit-IsChunked}
use tiny_compile.SymbolTable.{
  SymbolTable, empty_table, write_entry, symbol_table_add, symbol_table_lookup,
}
use tiny_compile.IrGen.Correct.Computes.{RegistersBelow}
use tiny_compile.IrGen.Correct.Compiled.{Compiled}
use tiny_compile.IrGen.Correct.Expression.{gen_expression-Compiled}
use tiny_compile.IrGen.Growth.{Grows, gen_expression-Grows}
use tiny_compile.IrGen.Statements.{new_function}
use tiny_compile.IrGen.Expressions.{gen_expression, gen_number, gen_identifier}
use tiny_compile.SymbolTable.{symbol_table_restore, mark_stack}
use tiny_compile.SymbolTable.Laws.{
  IsComplete, view, empty_table-IsComplete, symbol_table_add-view, symbol_table_add-lookup,
}
use tiny_compile.SymbolTable.Scopes.{here, declared, restore-Extends}
use tiny_compile.Jit.Registers.{stack_alignment, word_size, callee_saved_size, sys_v_max_reg_args}
use tiny_compile.Jit.Context.{
  CompiledFunction, Allocation, CallSite, JitContext, spill_offset, get_location,
}
use tiny_compile.Jit.Context.Locations.{
  IsAllocated, Located, get_location-Located, get_location-differ,
}
use tiny_compile.Jit.Encoders.{get_local_offset}
use tiny_compile.Jit.Function.{
  calculate_aligned_stack_size, reset_alloc, JitResult, pass_1, jit_compile_function,
}
use tiny_compile.Jit.Function.Frame.{
  InFrame, calculate_aligned_stack_size-aligned, local-InFrame, spill-InFrame_iff,
  local-spill_disjoint,
}
use tiny_compile.Jit.Function.Compile.{
  jit_compile_function-ir_gen, jit_compile_function-total, jit_compile_function-registers,
}
use tiny_compile.Jit.Link.{jit_link_all}
use tiny_compile.Jit.Link.Resolved.{
  Links, AllResolve, jit_link_all-errors, jit_link_all-success_iff,
}
use tiny_compile.Prelude.Int.{depth}
use tiny_compile.IrGen.Statements.{gen_params, gen_return, gen_statement, ir_gen}
use tiny_compile.IrGen.Counted.{ir_gen-IsChunked}
use tiny_compile.Ast.{block, cons, nil, return_stmt}
use tiny_compile.Jit.Calls.{patch_jump_offset, encode_call}
use tiny_compile.Jit.Calls.Alignment.{Emits, encode_call-Emits}
use tiny_compile.Jit.Buffer.{Cursor, emit_bytes}
use tiny_compile.Jit.Calls.Jumps.{read_u32, sign_extended, patch_jump_offset-lands}
use tiny_compile.HashTable.{find_slot, target_slot, lookup_loop, add_loop, hash_sv}

abbrev word_type : NodeInfo
word_type = record { value_type = DataType.int64; line = 1; column = 1 }

abbrev name_x : StringView
name_x = 120 ∷ []

abbrev table_x : SymbolTable
table_x = write_entry empty_table 135 name_x 1

abbrev x_plus_7 : Node
x_plus_7 = binary BinaryOp.add word_type (identifier word_type name_x) (number word_type (55 ∷ []))

-- the value of a text of one digit
abbrev digit : StringView → ℕ
digit (c ∷ []) = c
digit _ = 0

abbrev fresh : IrFunction
fresh = new_function 0 name_x error_context_init none

abbrev two : IrFunction
two = record fresh { vreg_count = 2 }

registers_x : RegistersBelow table_x 2
registers_x name s e on_stack = ground arith

-- what the generator makes of `x + 7`
abbrev sum_code : List IrInstruction
sum_code =
    record (instruction IrOpcode.const DataType.int64) { dest = 2; imm = 55 }
    ∷ record (instruction IrOpcode.add DataType.int64) { dest = 3; src_1 = 1; src_2 = 2 }
    ∷ []

abbrev sum_function : IrFunction
sum_function = record two { chunks = sum_code ∷ []; total_count = 2; vreg_count = 4 }

generates_sum : gen_expression digit table_x x_plus_7 two ≡ (3, sum_function)
unfolding gen_expression gen_number gen_identifier symbol_table_lookup sv_eq find_slot target_slot
    lookup_loop add_loop hash_sv emit append_chunk ir_alloc_vreg
generates_sum = refl

no_callee : StringView → List ℕ → Option ℕ
no_callee name args = none

gen_expression-Compiled_example : Compiled digit no_callee table_x x_plus_7 two sum_function 3
gen_expression-Compiled_example =
    gen_expression-Compiled digit no_callee table_x x_plus_7 two 2 sum_function generates_sum
      (omega arith) registers_x

gen_expression-Grows_example : Grows two (gen_expression digit table_x x_plus_7 two).1
gen_expression-Grows_example = gen_expression-Grows digit table_x x_plus_7 two

sum_function-IsChunked : IsChunked sum_function
sum_function-IsChunked = record { fit = omega arith; counted = refl; bounded = omega arith }

abbrev add_instruction : IrInstruction
add_instruction = instruction IrOpcode.add DataType.int64

emit-code_example :
    code (emit add_instruction sum_function) ≡ code sum_function ++ add_instruction ∷ []
emit-code_example = emit-code add_instruction sum_function (omega arith)

emit-IsChunked_example : IsChunked (emit add_instruction sum_function)
emit-IsChunked_example = emit-IsChunked add_instruction sum_function sum_function-IsChunked

error_add-IsCounted_example :
    IsCounted (
      error_add ErrorCategory.system ErrorLevel.fatal none 1 2 "cannot open file"
        error_context_init)
error_add-IsCounted_example =
    error_add-IsCounted ErrorCategory.system ErrorLevel.fatal none 1 2 "cannot open file"
      error_context_init init-IsCounted

one_fatal :
    error_has_fatal (
      error_add ErrorCategory.system ErrorLevel.fatal none 1 2 "cannot open file"
        error_context_init)
    ≡ true
unfolding error_has_fatal error_add error_context_init
one_fatal = refl

fatal-errors_example :
    error_has_errors (
      error_add ErrorCategory.system ErrorLevel.fatal none 1 2 "cannot open file"
        error_context_init)
    ≡ true
fatal-errors_example =
    fatal-errors
      (error_add ErrorCategory.system ErrorLevel.fatal none 1 2 "cannot open file"
        error_context_init)
      error_add-IsCounted_example one_fatal

sv_eq_iff_example : (sv_eq name_x (121 ∷ []) ≡ true) ↔ ◌≡◌ {A = StringView} name_x (121 ∷ [])
sv_eq_iff_example = sv_eq_iff name_x (121 ∷ [])

adds_x : symbol_table_add empty_table name_x 1 ≡ some table_x
unfolding symbol_table_add find_slot target_slot lookup_loop add_loop hash_sv
adds_x = refl

finds_x : symbol_table_lookup table_x name_x ≡ some 135
unfolding symbol_table_lookup sv_eq find_slot target_slot lookup_loop add_loop hash_sv
finds_x = refl

symbol_table_add-view_example :
    IsComplete table_x
    × ((m : StringView)
        → view table_x m ≡ (if sv_eq name_x m then some (1, false) else view empty_table m))
symbol_table_add-view_example =
    symbol_table_add-view empty_table name_x 1 table_x empty_table-IsComplete adds_x

symbol_table_add-lookup_example :
    (c : ℕ) × (table_x ≡ write_entry empty_table c name_x 1)
    × (symbol_table_lookup table_x name_x ≡ some c)
symbol_table_add-lookup_example = symbol_table_add-lookup empty_table name_x 1 table_x adds_x

restore-Extends_example : symbol_table_restore (mark_stack table_x 135) 0 ≡ some empty_table
restore-Extends_example =
    restore-Extends empty_table (mark_stack table_x 135) (declared name_x 1 135 here adds_x finds_x)

abbrev start : Allocation
start = reset_alloc 3

start-IsAllocated : IsAllocated start
start-IsAllocated = record {
  marked = λ v r e. cc;
  allowed = λ v r e. cc;
  slot = λ v o e. cc;
  no_const = λ v i e. cc;
  unshared = λ v w r e e'. cc;
}

get_location-Located_example : Located start 1 (get_location start 1).0 (get_location start 1).1
get_location-Located_example = get_location-Located start 1 start-IsAllocated

get_location-differ_example : (get_location start 1).0 ≢ (get_location (get_location start 1).1 2).0
get_location-differ_example = get_location-differ start 1 2 start-IsAllocated (λ e. omega arith)

calculate_aligned_stack_size-aligned_example :
    ((word_size * 2 + callee_saved_size + calculate_aligned_stack_size sum_function)
        % stack_alignment
      ≡ 0)
    × ((sum_function.stack_count + sum_function.vreg_count) * word_size
        ≤ calculate_aligned_stack_size sum_function)
    × (calculate_aligned_stack_size sum_function
        < (sum_function.stack_count + sum_function.vreg_count) * word_size + stack_alignment)
calculate_aligned_stack_size-aligned_example = calculate_aligned_stack_size-aligned sum_function

abbrev with_local : IrFunction
with_local = record sum_function { stack_count = 1 }

local-InFrame_example : InFrame with_local (get_local_offset 0)
local-InFrame_example = local-InFrame with_local 0 (omega arith) (omega arith)

-- One local and four registers: the slot of the last register is outside the frame.
spill-InFrame_iff_example :
    InFrame with_local (spill_offset 1 3) ↔ ((3 + 1 < 4) ⊎ ((1 + 4) % 2 ≡ 0))
spill-InFrame_iff_example = spill-InFrame_iff with_local 3 (omega arith)

local-spill_disjoint_example : depth (get_local_offset 0) + word_size ≤ depth (spill_offset 1 3)
local-spill_disjoint_example = local-spill_disjoint with_local 0 3 (omega arith)

abbrev header : FunctionHeader
header = record {
  name = name_x;
  return_type = DataType.int64;
  params = record { name = name_x; type = DataType.int64 } ∷ [];
  is_prototype = false;
}

-- an arena that has its first block at 4096
first_block : ℕ → ℕ
first_block size = 4096

abbrev context : JitContext
context = record {
  alloc = reset_alloc 0;
  addresses = record {
    label_offset = λ l. 0;
    label_defined = λ l. false;
    patches = [];
    call_sites = [];
    memory = λ p. 0;
  };
  registry = [];
}

jit_compile_function-total_example :
    (r : JitResult × JitContext) × (jit_compile_function first_block context sum_function header
      ≡ ok r)
jit_compile_function-total_example =
    jit_compile_function-total first_block context sum_function header sum_function-IsChunked

jit_compile_function-registers_example :
    let size = (pass_1 header sum_function context.addresses).size in
    (ctx' : JitContext) × (jit_compile_function first_block context sum_function header
      ≡ ok (record { code = some (first_block size); size = size }, ctx'))
    × (ctx'.registry
        ≡ record { name = name_x; code_addr = first_block size; code_size = size } ∷ [])
jit_compile_function-registers_example =
    jit_compile_function-registers first_block context sum_function header sum_function-IsChunked
      (omega arith) (omega arith)

-- a call with seven arguments, one of them on the stack
abbrev seven_pending : Allocation
seven_pending = record start { pending_call = 1 ∷ 2 ∷ 3 ∷ 4 ∷ 5 ∷ 6 ∷ 7 ∷ [] }

seven_pending-IsAllocated : IsAllocated seven_pending
seven_pending-IsAllocated = record {
  marked = λ v r e. cc;
  allowed = λ v r e. cc;
  slot = λ v o e. cc;
  no_const = λ v i e. cc;
  unshared = λ v w r e e'. cc;
}

abbrev call_instruction : IrInstruction
call_instruction = instruction IrOpcode.call DataType.int64

abbrev measuring : Cursor
measuring = record { buf = none; size = 0; mem = λ p. 0 }

encode_call-Emits_example :
    let r = encode_call call_instruction seven_pending context.addresses measuring in
    (before : Cursor) × (lowered : ℕ) × Emits measuring 0 before lowered
    × (lowered % 16 ≡ 0)
    × Emits (emit_bytes (0xff ∷ 0xd0 ∷ []) before) lowered r.2 0
encode_call-Emits_example =
    encode_call-Emits call_instruction seven_pending context.addresses measuring
      seven_pending-IsAllocated (omega arith)

abbrev site_x : CallSite
site_x = record { patch_location = 16; target_name = name_x }

-- a function at an address, behind one of another name
abbrev registry_x : List CompiledFunction
registry_x =
    record { name = name_x ++ name_x; code_addr = 64; code_size = 8 }
    ∷ record { name = name_x; code_addr = 128; code_size = 8 }
    ∷ []

jit_link_all-errors_example :
    let r = jit_link_all registry_x (site_x ∷ []) (λ p. 0) error_context_init in
    (n : ℕ) × Links registry_x (site_x ∷ []) (λ p. 0) r.memory n
    × (r.errors.error_count ≡ error_context_init.error_count + n)
jit_link_all-errors_example =
    jit_link_all-errors registry_x (site_x ∷ []) (λ p. 0) error_context_init

jit_link_all-success_iff_example :
    ((jit_link_all registry_x (site_x ∷ []) (λ p. 0) error_context_init).success ≡ true)
    ↔ AllResolve registry_x (site_x ∷ [])
jit_link_all-success_iff_example =
    jit_link_all-success_iff registry_x (site_x ∷ []) (λ p. 0) error_context_init

-- the body `return x + 7;` behind the parameter `x`
abbrev sum_body : Node
sum_body = block word_type (cons (return_stmt word_type x_plus_7) nil)

abbrev sum_with_return : IrFunction
sum_with_return = record sum_function {
  chunks = (sum_code ++ record (instruction IrOpcode.ret DataType.int64) { src_1 = 3 } ∷ []) ∷ [];
  total_count = 3;
}

generates_body : ir_gen digit 0 header sum_body error_context_init none ≡ ok (some sum_with_return)
unfolding ir_gen gen_params gen_statement gen_return symbol_table_add gen_expression find_slot
    target_slot lookup_loop add_loop hash_sv gen_number gen_identifier symbol_table_lookup sv_eq
    emit append_chunk ir_alloc_vreg
generates_body = refl

ir_gen-IsChunked_example : IsChunked sum_with_return
ir_gen-IsChunked_example =
    ir_gen-IsChunked digit 0 header sum_body error_context_init none sum_with_return generates_body

jit_compile_function-ir_gen_example :
    (r : JitResult × JitContext) × (jit_compile_function first_block context sum_with_return header
      ≡ ok r)
jit_compile_function-ir_gen_example =
    jit_compile_function-ir_gen digit 0 header sum_body error_context_init none sum_with_return
      first_block context generates_body

-- a jump back
patch_jump_offset-lands_example :
    (4200 + 4 + sign_extended (read_u32 (patch_jump_offset 4200 4096 (λ p. 0)) 4200)) % 2 ^ 64
    ≡ 4096
patch_jump_offset-lands_example =
    patch_jump_offset-lands 4200 4096 (λ p. 0) (omega arith) (omega arith) (omega arith)
      (omega arith)
