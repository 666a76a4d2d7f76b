-- ===== src/SymbolTable/Laws.antt =====
-- The symbol table as a map from names to registers and slots.
use tiny_compile.Prelude.{
  ℕ, ◌<◌, ◌≡◌, refl, Bool, true, false, Option, none, some, arith, inl, inr, Option-cases, sym,
  if◌then◌else◌, ◌∙◌, ap,
}
use tiny_compile.StringView.{StringView, sv_eq}
use tiny_compile.HashTable.{target_slot}
use tiny_compile.HashTable.Laws.{
  AllFound, entry_of, find_slot-update_self, update-AllFound, entry_of-update,
}
use tiny_compile.SymbolTable.{
  Symbol, SymbolTable, symbol_table_size, symbol_occupied, symbol_name, symbol_table_lookup,
  symbol_table_add, write_entry, empty_table,
}

has_room : 0 < symbol_table_size
has_room = omega arith

-- Every entry is found under its name.
abbrev pub IsComplete : SymbolTable → Type 0
IsComplete st = AllFound symbol_occupied symbol_name symbol_table_size st.entries

-- what an entry says of its name: a number and whether it is a stack slot
abbrev pub meaning_of : Option Symbol → Option (ℕ × Bool)
meaning_of none = none
meaning_of (some s) = some (s.index, s.is_stack)

-- what a name stands for
abbrev pub view : SymbolTable → StringView → Option (ℕ × Bool)
view st name = meaning_of (entry_of symbol_occupied symbol_name symbol_table_size st.entries name)

pub empty_table-IsComplete : IsComplete empty_table
empty_table-IsComplete d lt h = cc

meaning_of-if :
    (b : Bool) (s : Symbol) (o : Option Symbol)
    → meaning_of (if b then some s else o)
      ≡ (if b then some (s.index, s.is_stack) else meaning_of o)
meaning_of-if true s o = refl
meaning_of-if false s o = refl

-- the slot where an insertion of the name writes
abbrev target : SymbolTable → StringView → Option ℕ
target st name = target_slot symbol_occupied symbol_name symbol_table_size st.entries name

abbrev new_symbol : StringView → ℕ → Symbol
new_symbol n v = record { name = n; index = v; is_stack = false; occupied = true }

view-write :
    (st : SymbolTable) (n : StringView) (v c : ℕ)
    → target st n ≡ some c
    → IsComplete st
    → (m : StringView)
    → view (write_entry st c n v) m ≡ (if sv_eq n m then some (v, false) else view st m)
view-write st n v c at all m =
    ap meaning_of (
      entry_of-update symbol_occupied symbol_name symbol_table_size has_room st.entries
        (new_symbol n v) refl c at m all)
    ∙ meaning_of-if (sv_eq n m) (new_symbol n v)
        (entry_of symbol_occupied symbol_name symbol_table_size st.entries m)

-- `symbol_table_add` on a table in which every entry is found: when it does not exit, every entry
-- is still found, the name now stands for the new register, and every other name for what it did.
pub symbol_table_add-view :
    (st : SymbolTable) (n : StringView) (v : ℕ) (st' : SymbolTable)
    → IsComplete st
    → symbol_table_add st n v ≡ some st'
    → IsComplete st'
      × ((m : StringView) → view st' m ≡ (if sv_eq n m then some (v, false) else view st m))
unfolding symbol_table_add
symbol_table_add-view st n v st' all h = elim (Option-cases (target st n)) [
  | inl e ↦ cc (rw (e, symbol_table_add) at h)
  | inr (c, e) ↦
      let w : write_entry st c n v ≡ st' = cc (rw (e, symbol_table_add) at h) in
      rw (← w) (
        update-AllFound symbol_occupied symbol_name symbol_table_size has_room st.entries
            (new_symbol n v) refl c e all,
        view-write st n v c e all,
      )
]

-- A successful `symbol_table_add` writes one entry for the name, and a lookup of the name in the new
-- table finds that entry, as `gen_var_decl` expects of the lookup that follows.
pub symbol_table_add-lookup :
    (st : SymbolTable) (n : StringView) (v : ℕ) (st' : SymbolTable)
    → symbol_table_add st n v ≡ some st'
    → (c : ℕ) × (st' ≡ write_entry st c n v) × (symbol_table_lookup st' n ≡ some c)
unfolding symbol_table_add symbol_table_lookup
symbol_table_add-lookup st n v st' h = elim (Option-cases (target st n)) [
  | inl e ↦ cc (rw (e, symbol_table_add) at h)
  | inr (c, e) ↦
      let w : write_entry st c n v ≡ st' = cc (rw (e, symbol_table_add) at h) in
      (
        c,
        sym w,
        rw (← w) (
            find_slot-update_self symbol_occupied symbol_name symbol_table_size has_room st.entries
              (new_symbol n v) refl c e),
      )
]
