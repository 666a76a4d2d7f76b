-- ===== src/Semantic/Constants.antt =====
-- Constant expressions and the compatibility of types, as srcs/semantic/semantic.c checks them. An
-- `int64_t` is a word, and its operations are those of the machine: they wrap round, a shift takes
-- its count modulo 64, and the quotient that does not fit traps.
use Prim.Native.String.{String}
use tiny_compile.Prelude.{
  ℕ, ◌-◌, ◌*◌, ◌^◌, Bool, true, false, not, ◌&&◌, ◌||◌, Option, none, some, ltb, ◌==◌,
  if◌then◌else◌, Run, ok, stop, arithmetic_trap, ◌>>=◌, bit_and, bit_or, bit_xor,
}
use tiny_compile.StringView.{StringView}
use tiny_compile.ErrorHandler.{ErrorContext, ErrorCategory, ErrorLevel, error_add}
use tiny_compile.Ast.Types.{DataType, type_size, type_is_integer, type_eq}
use tiny_compile.Ast.{BinaryOp, UnaryOp, NodeInfo, Node, number, binary, unary, info}
use tiny_compile.Word.{
  word_add, word_sub, word_mul, word_div, word_neg, word_not, word_lt, word_shl, word_sar, word_mod,
}
use tiny_compile.Semantic.{error_semantic}
use tiny_compile.IrGen.Expressions.{sv_to_int64}

-- a C function that returns whether it has a value
abbrev pub when_const : Run (Option ℕ) → (ℕ → Run (Option ℕ)) → Run (Option ℕ)
when_const (stop e) k = stop e
when_const (ok none) k = ok none
when_const (ok (some val)) k = k val

abbrev pub or_trap : Option ℕ → Run (Option ℕ)
or_trap none = stop arithmetic_trap
or_trap (some val) = ok (some val)

-- the inner `switch`; the operators that are not constant have no case in the outer one
abbrev pub const_binary : BinaryOp → ℕ → ℕ → Run (Option ℕ)
const_binary BinaryOp.add left right = ok (some (word_add left right))
const_binary BinaryOp.sub left right = ok (some (word_sub left right))
const_binary BinaryOp.mul left right = ok (some (word_mul left right))
const_binary BinaryOp.div left right = if right == 0 then ok none else or_trap (word_div left right)
const_binary BinaryOp.lshift left right = ok (some (word_shl left right))
const_binary BinaryOp.rshift left right = ok (some (word_sar left right))
const_binary BinaryOp.bit_and left right = ok (some (bit_and left right))
const_binary BinaryOp.bit_or left right = ok (some (bit_or left right))
const_binary BinaryOp.bit_xor left right = ok (some (bit_xor left right))
const_binary _ left right = ok none

-- the operators of the outer `switch`
abbrev pub is_const_op : BinaryOp → Bool
is_const_op BinaryOp.equal = false
is_const_op BinaryOp.not_equal = false
is_const_op BinaryOp.less = false
is_const_op BinaryOp.less_equal = false
is_const_op BinaryOp.greater = false
is_const_op BinaryOp.greater_equal = false
is_const_op _ = true

-- `lo <= val && val <= hi` for the range of a signed integer of `size` bytes
abbrev pub fits_signed : ℕ → ℕ → Bool
fits_signed size val =
    not (word_lt val (word_mod - 2 ^ (8 * size - 1))) && not (word_lt (2 ^ (8 * size - 1) - 1) val)

-- the `switch` on the size of the destination
abbrev pub safe_conversion : ℕ → ℕ → Bool
safe_conversion dest_size val =
    if dest_size == 1
    then fits_signed 1 val
    else if dest_size == 2
    then fits_signed 2 val
    else if dest_size == 4
    then fits_signed 4 val
    else false

module _ (atoll : StringView → ℕ) where
  unfoldable pub evaluate_const_expression : Node → Run (Option ℕ)
  evaluate_const_expression (number i text) = ok (some (sv_to_int64 atoll text))
  evaluate_const_expression (unary UnaryOp.negate i operand) =
      when_const (evaluate_const_expression operand) λ val. ok (some (word_neg val))
  evaluate_const_expression (unary UnaryOp.bit_not i operand) =
      when_const (evaluate_const_expression operand) λ val. ok (some (word_not val))
  evaluate_const_expression (binary op i l r) =
      let left = evaluate_const_expression l in
      let right = evaluate_const_expression r in
      if is_const_op op
      then (when_const left λ a. when_const right λ b. const_binary op a b)
      else ok none
  evaluate_const_expression node = ok none

  -- the warning of a narrowing conversion
  abbrev pub warn_unless : Option String → NodeInfo → ErrorContext → ℕ → Option ℕ → ErrorContext
  warn_unless filename i errors dest_size none =
      error_add ErrorCategory.semantic ErrorLevel.warning filename i.line i.column
        "implicit conversion from '%s' to '%s' may lose precision" errors
  warn_unless filename i errors dest_size (some val) =
      if safe_conversion dest_size val
      then errors
      else error_add ErrorCategory.semantic ErrorLevel.warning filename i.line i.column
          "implicit conversion from '%s' to '%s' may lose precision" errors

  unfoldable pub check_type_compatibility :
      Option String → DataType → DataType → Node → ErrorContext → Run (Bool × ErrorContext)
  check_type_compatibility filename dest src node errors =
      if type_eq dest src
      then ok (true, errors)
      else if type_eq src DataType.void || type_eq dest DataType.void
      then (info node >>= λ i.
          ok (
            false,
            error_semantic filename i.line i.column "invalid use of void expression" errors,
          ))
      else if type_is_integer dest && type_is_integer src
      then (if ltb (type_size dest) (type_size src)
          then (evaluate_const_expression node >>= λ val.
              info node >>= λ i. ok (true, warn_unless filename i errors (type_size dest) val))
          else ok (true, errors))
      else (info node >>= λ i. ok (
        false,
        error_semantic filename i.line i.column "incompatible types: cannot assign '%s' to '%s'"
            errors,
      ))
