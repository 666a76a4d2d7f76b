-- ===== src/SymbolTable/Scopes.antt =====
-- Closing a scope: `symbol_table_restore` against the declarations made since the watermark.
use mathlib.Core.Path.{fun_ext}
use tiny_compile.Prelude.{
  ℕ, ◌≤◌, ◌≡◌, refl, true, false, List, [], ◌∷◌, some, arith, update, update-update_undo, length,
  ◌∙◌,
}
use tiny_compile.StringView.{StringView}
use tiny_compile.SymbolTable.{
  Symbol, ScopeChange, SymbolTable, symbol_table_lookup, symbol_table_add, mark_stack, restore_loop,
  symbol_table_restore,
}
use tiny_compile.SymbolTable.Laws.{symbol_table_add-lookup}

-- The tables that a scope can reach from `st`: a parameter is added, a local variable is added and
-- its new entry is marked as a stack slot.
pub data Extends (st : SymbolTable) : SymbolTable → Type 0 where
  here : Extends st st
  added :
      {t u : SymbolTable} (n : StringView) (v : ℕ)
      → Extends st t
      → symbol_table_add t n v ≡ some u
      → Extends st u
  declared :
      {t u : SymbolTable} (n : StringView) (v c : ℕ)
      → Extends st t
      → symbol_table_add t n v ≡ some u
      → symbol_table_lookup u n ≡ some c
      → Extends st (mark_stack u c)

restore_loop_stop :
    (e : ℕ → Symbol) (l : List ScopeChange)
    → restore_loop (length l) e l ≡ some (record { entries = e; changes = l })
unfolding restore_loop
restore_loop_stop e [] = refl
restore_loop_stop e (top ∷ l) = ground arith

restore_loop_undo :
    (k : ℕ) (t : SymbolTable) (c : ℕ) (s : Symbol)
    → k ≤ length t.changes
    → restore_loop k
        (update t.entries c s)
        (record { index = c; previous = t.entries c } ∷ t.changes)
      ≡ restore_loop k t.entries t.changes
unfolding restore_loop
restore_loop_undo k t c s h = rw (update-update_undo t.entries c s) (ground arith)

update_twice {ℓ} :
    {A : Type ℓ} (e : ℕ → A) (c : ℕ) (s s' : A) → update (update e c s) c s' ≡ update e c s'
update_twice e c s s' = fun_ext λ q. ground arith

restore_loop_undo_marked :
    (k : ℕ) (t : SymbolTable) (c : ℕ) (s s' : Symbol)
    → k ≤ length t.changes
    → restore_loop k
        (update (update t.entries c s) c s')
        (record { index = c; previous = t.entries c } ∷ t.changes)
      ≡ restore_loop k t.entries t.changes
restore_loop_undo_marked k t c s s' h =
    rw (update_twice t.entries c s s') (restore_loop_undo k t c s' h)

Extends-length : {st t : SymbolTable} → Extends st t → length st.changes ≤ length t.changes
Extends-length here = omega arith
Extends-length {st} (added {t = t} {u = u} n v r a) =
    let (c, e, _) = symbol_table_add-lookup t n v u a in rw e (omega (arith, Extends-length r))
Extends-length {st} (declared {t = t} {u = u} n v _ r a l) =
    let (c, e, _) = symbol_table_add-lookup t n v u a in rw e (omega (arith, Extends-length r))

-- Whatever a scope has declared, restoring the watermark that was taken when the scope was opened
-- gives the very table of that time, entries and log.
pub restore-Extends :
    (st t : SymbolTable) → Extends st t → symbol_table_restore t (length st.changes) ≡ some st
unfolding symbol_table_restore
restore-Extends st _ here = restore_loop_stop st.entries st.changes
restore-Extends st _ (added {t = t} {u = u} n v r a) =
    let (c, e, _) = symbol_table_add-lookup t n v u a in
    rw e (restore_loop_undo (length st.changes) t c _ (Extends-length r) ∙ restore-Extends st t r)
restore-Extends st _ (declared {t = t} {u = u} n v c r a l) =
    let (c', e, l') = symbol_table_add-lookup t n v u a in
    let same : c ≡ c' = cc in
    let s : Symbol = record { name = n; index = v; is_stack = false; occupied = true } in
    rw (e, same)
      (restore_loop_undo_marked (length st.changes) t c' s
          (record (update t.entries c' s c') { is_stack = true }) (Extends-length r)
        ∙ restore-Extends st t r)
