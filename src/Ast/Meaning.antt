-- ===== src/Ast/Meaning.antt =====
-- What an expression of the language computes: the specification of its code. Values are words, a
-- variable is read by `var` at the type of its node, and `callee` gives the result of a call, `none`
-- where it traps. (There are no globals and no pointers, so a call changes no variable.)
use tiny_compile.Prelude.{
  ℕ, ◌≡◌, refl, Option, none, some, List, [], ◌∷◌, not, ◌==◌, if◌then◌else◌, bit_and, bit_or,
  bit_xor,
}
use tiny_compile.StringView.{StringView}
use tiny_compile.Ast.Types.{DataType, type_is_unsigned}
use tiny_compile.Ast.{
  BinaryOp, UnaryOp, Node, number, identifier, binary, unary, call, Nodes, nil, cons, value_type,
}
use tiny_compile.Word.{
  word_add, word_sub, word_mul, word_div, word_neg, word_not, word_lt, flag, word_shl, word_shr,
  word_sar,
}

infixl 5 ◌>>=◌
abbrev pub ◌>>=◌ {ℓ κ} : {A : Type ℓ} {B : Type κ} → Option A → (A → Option B) → Option B
none >>= f = none
some a >>= f = f a

pub bind_assoc {ℓ κ μ} :
    {A : Type ℓ} {B : Type κ} {C : Type μ} (m : Option A) (f : A → Option B) (g : B → Option C)
    → (m >>= f >>= g) ≡ (m >>= λ a. f a >>= g)
bind_assoc none f g = refl
bind_assoc (some a) f g = refl

-- the binary operators on words; a right shift of an unsigned left operand is logical, comparisons
-- and the division are those of signed words at every type
unfoldable pub binary_meaning : BinaryOp → DataType → ℕ → ℕ → Option ℕ
binary_meaning BinaryOp.add _ a b = some (word_add a b)
binary_meaning BinaryOp.sub _ a b = some (word_sub a b)
binary_meaning BinaryOp.mul _ a b = some (word_mul a b)
binary_meaning BinaryOp.div _ a b = word_div a b
binary_meaning BinaryOp.equal _ a b = some (flag (a == b))
binary_meaning BinaryOp.not_equal _ a b = some (flag (not (a == b)))
binary_meaning BinaryOp.less _ a b = some (flag (word_lt a b))
binary_meaning BinaryOp.less_equal _ a b = some (flag (not (word_lt b a)))
binary_meaning BinaryOp.greater _ a b = some (flag (word_lt b a))
binary_meaning BinaryOp.greater_equal _ a b = some (flag (not (word_lt a b)))
binary_meaning BinaryOp.bit_and _ a b = some (bit_and a b)
binary_meaning BinaryOp.bit_or _ a b = some (bit_or a b)
binary_meaning BinaryOp.bit_xor _ a b = some (bit_xor a b)
binary_meaning BinaryOp.lshift _ a b = some (word_shl a b)
binary_meaning BinaryOp.rshift t a b =
    if type_is_unsigned t then some (word_shr a b) else some (word_sar a b)

unfoldable pub unary_meaning : UnaryOp → ℕ → ℕ
unary_meaning UnaryOp.negate a = word_neg a
unary_meaning UnaryOp.not a = flag (a == 0)
unary_meaning UnaryOp.bit_not a = word_not a

module _ (atoll : StringView → ℕ) (callee : StringView → List ℕ → Option ℕ)
    (var : DataType → StringView → Option ℕ) where
  unfoldable mutual
    pub eval : Node → Option ℕ
    eval (number i text) = some (atoll text)
    eval (identifier i name) = var i.value_type name
    eval (unary op i operand) = eval operand >>= λ a. some (unary_meaning op a)
    eval (binary op i l r) = eval l >>= λ a. eval r >>= λ b. binary_meaning op (value_type l) a b
    eval (call i name args) = eval_args args >>= callee name
    eval node = none

    pub eval_args : Nodes → Option (List ℕ)
    eval_args nil = some []
    eval_args (cons x xs) = eval x >>= λ a. eval_args xs >>= λ vs. some (a ∷ vs)
