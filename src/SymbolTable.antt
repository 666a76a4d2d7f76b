-- ===== src/SymbolTable.antt =====
-- srcs/ir/ir_symboltable.c and the types of incs/ir.h that it works on: an open-addressing hash
-- table from names to registers or stack slots, with a log of changes that closes a scope.
-- The array of entries is a function of the index, a pointer to an entry is its index, and a pointer
-- into the log is the number of changes from there on.
pub mod Laws
pub mod Scopes
use tiny_compile.Prelude.{
  ℕ, zero, suc, ◌+◌, ◌*◌, ◌%◌, ◌^◌, ◌-◌, bit_xor, Bool, true, false, not, ◌||◌, Option, none, some,
  List, [], ◌∷◌, ltb, ◌==◌, if◌then◌else◌, length, update,
}
use tiny_compile.StringView.{StringView}
use tiny_compile.HashTable.{find_slot, target_slot}

abbrev pub symbol_table_size : ℕ
symbol_table_size = 4096

pub record Symbol : Type 0 where
  pub name : StringView
  pub index : ℕ
  pub is_stack : Bool
  pub occupied : Bool

pub record ScopeChange : Type 0 where
  pub index : ℕ
  pub previous : Symbol

pub record SymbolTable : Type 0 where
  pub entries : ℕ → Symbol
  pub changes : List ScopeChange

abbrev pub no_symbol : Symbol
no_symbol = record { name = []; index = 0; is_stack = false; occupied = false }

-- `{ .arena = a, .changes = NULL }`
abbrev pub empty_table : SymbolTable
empty_table = record { entries = λ _. no_symbol; changes = [] }

abbrev pub symbol_occupied : Symbol → Bool
symbol_occupied s = s.occupied

abbrev pub symbol_name : Symbol → StringView
symbol_name s = s.name

-- the index of the entry that the returned pointer is to
unfoldable pub symbol_table_lookup : SymbolTable → StringView → Option ℕ
symbol_table_lookup st name =
    find_slot symbol_occupied symbol_name symbol_table_size st.entries name

-- the body of the `if` in the loop of `symbol_table_add`
abbrev pub write_entry : SymbolTable → ℕ → StringView → ℕ → SymbolTable
write_entry st curr name vreg = record {
  entries =
      update st.entries curr
        (record { name = name; index = vreg; is_stack = false; occupied = true });
  changes = record { index = curr; previous = st.entries curr } ∷ st.changes;
}

-- `none` is `exit(1)`: the table is full.
abbrev pub write_target : SymbolTable → StringView → ℕ → Option ℕ → Option SymbolTable
write_target st name vreg none = none
write_target st name vreg (some curr) = some (write_entry st curr name vreg)

unfoldable pub symbol_table_add : SymbolTable → StringView → ℕ → Option SymbolTable
symbol_table_add st name vreg =
    write_target st name vreg
      (target_slot symbol_occupied symbol_name symbol_table_size st.entries name)

-- `sym->is_stack = true`
abbrev pub mark_stack : SymbolTable → ℕ → SymbolTable
mark_stack st sym = record st {
  entries = update st.entries sym (record (st.entries sym) { is_stack = true });
}

-- `none` is a read through the null pointer at the end of the log.
unfoldable pub restore_loop : ℕ → (ℕ → Symbol) → List ScopeChange → Option SymbolTable
restore_loop target entries [] =
    if target == 0 then some (record { entries = entries; changes = [] }) else none
restore_loop target entries (top ∷ next) =
    let rest = restore_loop target (update entries top.index top.previous) next in
    if length (top ∷ next) == target
    then some (record { entries = entries; changes = top ∷ next })
    else rest

unfoldable pub symbol_table_restore : SymbolTable → ℕ → Option SymbolTable
symbol_table_restore st target = restore_loop target st.entries st.changes
