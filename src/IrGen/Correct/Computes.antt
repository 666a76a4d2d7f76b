-- ===== src/IrGen/Correct/Computes.antt =====
-- What it means that a piece of code computes the value of an expression into a register.
use mathlib.Core.Path.{fun_ext}
use tiny_compile.Prelude.{
  ℕ, ◌<◌, ◌≤◌, ◌≡◌, refl, ap, Option, none, some, Bool, true, false, arith, ◌∙◌,
}
use tiny_compile.StringView.{StringView}
use tiny_compile.Word.{load_sized}
use tiny_compile.Ast.Types.{DataType, type_size}
use tiny_compile.Ast.Meaning.{◌>>=◌}
use tiny_compile.Ir.Machine.{Machine, set_vreg}
use tiny_compile.SymbolTable.{SymbolTable, symbol_table_lookup}

-- the value of a variable: a register, or a slot read at the type of the node
abbrev pub entry_value : Machine → DataType → Bool → ℕ → ℕ
entry_value m type true index = load_sized (type_size type) (m.slots index)
entry_value m type false index = m.vregs index

abbrev pub found_value : SymbolTable → Machine → DataType → Option ℕ → Option ℕ
found_value st m type none = none
found_value st m type (some s) =
    some (entry_value m type (st.entries s).is_stack (st.entries s).index)

unfoldable pub read_variable : SymbolTable → Machine → DataType → StringView → Option ℕ
read_variable st m type name = found_value st m type (symbol_table_lookup st name)

-- The registers that names stand for are below `n`.
abbrev pub RegistersBelow : SymbolTable → ℕ → Type 0
RegistersBelow st n =
    (name : StringView) (s : ℕ)
    → symbol_table_lookup st name ≡ some s
    → (st.entries s).is_stack ≡ false
    → (st.entries s).index < n

-- `m'` agrees with `m` but for registers from `n` on.
pub record Kept (n : ℕ) (m m' : Machine) : Type 0 where
  pub vregs : (k : ℕ) → k < n → m'.vregs k ≡ m.vregs k
  pub slots : m'.slots ≡ m.slots
  pub pending : m'.pending ≡ m.pending

pub Kept-trans : {n k : ℕ} {a b c : Machine} → n ≤ k → Kept n a b → Kept k b c → Kept n a c
Kept-trans le p q = record {
  vregs = λ j h. q.vregs j (omega arith) ∙ p.vregs j h;
  slots = q.slots ∙ p.slots;
  pending = q.pending ∙ p.pending;
}

pub Kept-set : {n : ℕ} {m m' : Machine} (r v : ℕ) → n ≤ r → Kept n m m' → Kept n m (set_vreg m' r v)
Kept-set r v le p = record {
  vregs = λ j h. ground (arith, p.vregs j h);
  slots = p.slots;
  pending = p.pending;
}

entry-Kept :
    {n : ℕ} {m m' : Machine} (type : DataType) (on_stack : Bool) (index : ℕ)
    → (on_stack ≡ false → index < n)
    → Kept n m m'
    → entry_value m' type on_stack index ≡ entry_value m type on_stack index
entry-Kept type true index below k =
    ap (λ (c : ℕ → ℕ). load_sized (type_size type) (c index)) k.slots
entry-Kept type false index below k = k.vregs index (below refl)

found-Kept :
    {n : ℕ} {m m' : Machine} (st : SymbolTable) (type : DataType) (name : StringView) (o : Option ℕ)
    → symbol_table_lookup st name ≡ o
    → RegistersBelow st n
    → Kept n m m'
    → found_value st m' type o ≡ found_value st m type o
found-Kept st type name none e below k = refl
found-Kept st type name (some s) e below k =
    ap some (entry-Kept type (st.entries s).is_stack (st.entries s).index (below name s e) k)

pub read-Kept :
    {n : ℕ} {m m' : Machine} (st : SymbolTable)
    → RegistersBelow st n
    → Kept n m m'
    → read_variable st m' ≡ read_variable st m
unfolding read_variable
read-Kept st below k = fun_ext λ type. fun_ext λ name. found-Kept st type name _ refl below k

-- The code ends in a machine that holds the value in register `r` and agrees with `m` below `n`, or
-- traps exactly when the value does.
pub data Computes (n r : ℕ) (m : Machine) : Option ℕ → Option Machine → Type 0 where
  value : {v : ℕ} {m' : Machine} → m'.vregs r ≡ v → Kept n m m' → Computes n r m (some v) (some m')
  trap : Computes n r m none none

-- Code after code: the rest starts from a machine that holds the first value.
pub Computes-bind :
    {n r s : ℕ} {m : Machine} {o : Option ℕ} {om : Option Machine} (f : ℕ → Option ℕ)
    (k : Machine → Option Machine)
    → Computes n s m o om
    → ((m' : Machine) → Kept n m m' → Computes n r m (f (m'.vregs s)) (k m'))
    → Computes n r m (o >>= f) (om >>= k)
Computes-bind f k (value {m' = m'} e kept) rest = rw (← e) (rest m' kept)
Computes-bind f k trap rest = trap

pub Computes-set :
    {n : ℕ} {m m' : Machine} (r : ℕ) (o : Option ℕ)
    → n ≤ r
    → Kept n m m'
    → Computes n r m o (o >>= λ v. some (set_vreg m' r v))
Computes-set r none le k = trap
Computes-set r (some v) le k = value (ground arith) (Kept-set r v le k)

-- from a machine that is already changed
pub Computes-after :
    {n k r : ℕ} {m m' : Machine} {o : Option ℕ} {om : Option Machine}
    → n ≤ k
    → Kept n m m'
    → Computes k r m' o om
    → Computes n r m o om
Computes-after le kept (value e h) = value e (Kept-trans le kept h)
Computes-after le kept trap = trap
