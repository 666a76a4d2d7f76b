-- ===== src/Semantic/Scopes/Laws.antt =====
-- A declaration in the innermost scope, as the update of a map from names to variables.
use Prim.Native.String.{String}
use mathlib.Core.Bool.{false≢true}
use tiny_compile.Prelude.{
  ℕ, ◌+◌, ◌<◌, ◌≡◌, refl, Bool, true, false, Option, none, some, List, ◌∷◌, arith, inl, inr,
  Bool-cases, sym, if◌then◌else◌, ◌∙◌, ap,
}
use tiny_compile.StringView.{StringView, sv_eq}
use tiny_compile.ErrorHandler.{ErrorContext}
use tiny_compile.Ast.Types.{DataType}
use tiny_compile.HashTable.{target_slot}
use tiny_compile.HashTable.Laws.{
  AllFound, entry_of, entry_at, target_slot-find_slot, find_slot_found, update-AllFound,
  entry_of-update,
}
use tiny_compile.Semantic.{VarInfo, ScopeEntry, Scope, scope_hash_size}
use tiny_compile.Semantic.Scopes.{
  empty_scope, entry_occupied, entry_name, scope_slot, found_or, semantic_scope_lookup, Declared,
  new_entry, write_scope, declare_at, semantic_scope_declare,
}

has_room : 0 < scope_hash_size
has_room = omega arith

-- Every variable of the scope is found under its name.
abbrev pub IsComplete : Scope → Type 0
IsComplete scope = AllFound entry_occupied entry_name scope_hash_size scope.entries

pub empty_scope-IsComplete : IsComplete empty_scope
empty_scope-IsComplete d lt h = cc

-- what the scope itself says of a name
abbrev own : Scope → StringView → Option ScopeEntry
own scope name = entry_of entry_occupied entry_name scope_hash_size scope.entries name

abbrev variable_or : Option VarInfo → Option ScopeEntry → Option VarInfo
variable_or rest none = rest
variable_or rest (some e) = some e.info

found_or-own :
    (rest : Option VarInfo) (scope : Scope) (o : Option ℕ)
    → found_or rest scope o
      ≡ variable_or rest (entry_at entry_occupied entry_name scope_hash_size scope.entries o)
found_or-own rest scope none = refl
found_or-own rest scope (some d) = refl

variable_or-if :
    (b : Bool) (rest : Option VarInfo) (e : ScopeEntry) (o : Option ScopeEntry)
    → variable_or rest (if b then some e else o) ≡ (if b then some e.info else variable_or rest o)
variable_or-if true rest e o = refl
variable_or-if false rest e o = refl

abbrev pub slot_for : Scope → StringView → Option ℕ
slot_for scope name = target_slot entry_occupied entry_name scope_hash_size scope.entries name

abbrev pub variable : StringView → DataType → ℕ → VarInfo
variable n t l = record { name = n; type = t; initialized = false; line = l }

pub lookup-write :
    (scope : Scope) (ss : List Scope) (n : StringView) (t : DataType) (l c : ℕ)
    → slot_for scope n ≡ some c
    → IsComplete scope
    → (m : StringView)
    → semantic_scope_lookup (write_scope scope c (new_entry n t l) ∷ ss) m
      ≡ (if sv_eq n m then some (variable n t l) else semantic_scope_lookup (scope ∷ ss) m)
unfolding semantic_scope_lookup
lookup-write scope ss n t l c at all m =
    let rest = semantic_scope_lookup ss m in
    let entry = new_entry n t l in
    let after = write_scope scope c entry in
    found_or-own rest after (scope_slot after m)
    ∙ ap (variable_or rest) (
        entry_of-update entry_occupied entry_name scope_hash_size has_room scope.entries entry refl
          c at m all)
    ∙ variable_or-if (sv_eq n m) rest entry (own scope m)
    ∙ ap (λ o. if sv_eq n m then some (variable n t l) else o)
        (sym (found_or-own rest scope (scope_slot scope m)))

-- What an accepted declaration does: the name was not in the scope, the outer scopes are kept, the
-- new scope is complete, and exactly the name now stands for the new variable.
pub record Declares (scope : Scope) (ss : List Scope) (n : StringView) (t : DataType) (l : ℕ)
    (errors : ErrorContext) (d : Declared) : Type 0 where
  pub scope' : Scope
  pub new : scope_slot scope n ≡ none
  pub stacked : d.current ≡ scope' ∷ ss
  pub counted : scope'.var_count ≡ scope.var_count + 1
  pub complete : IsComplete scope'
  pub silent : d.errors ≡ errors
  pub looks_up :
      (outer : List Scope) (m : StringView)
      → semantic_scope_lookup (scope' ∷ outer) m
        ≡ (if sv_eq n m then some (variable n t l) else semantic_scope_lookup (scope ∷ outer) m)

slot_free :
    (scope : Scope) (n : StringView) (c : ℕ)
    → IsComplete scope
    → slot_for scope n ≡ some c
    → (scope.entries c).occupied ≡ false
    → (o : Option ℕ) → scope_slot scope n ≡ o
    → scope_slot scope n ≡ none
slot_free scope n c all at free none e = e
slot_free scope n c all at free (some d) e = cc (
  target_slot-find_slot entry_occupied entry_name scope_hash_size has_room scope.entries n d e,
  (find_slot_found entry_occupied entry_name scope_hash_size has_room scope.entries n d e).0,
)

accepted_at :
    (filename : Option String) (scope : Scope) (ss : List Scope) (n : StringView) (t : DataType)
    (l : ℕ) (errors : ErrorContext)
    → IsComplete scope
    → (o : Option ℕ) → slot_for scope n ≡ o
    → (declare_at filename scope ss n t l errors o).accepted ≡ true
    → Declares scope ss n t l errors (declare_at filename scope ss n t l errors o)
accepted_at filename scope ss n t l errors all none at h = cc
accepted_at filename scope ss n t l errors all (some c) at h =
    elim (Bool-cases (scope.entries c).occupied) [
      | inl taken ↦ absurd (false≢true (rw taken at h))
      | inr free ↦ rw free (record {
        scope' = write_scope scope c (new_entry n t l);
        new = slot_free scope n c all at free _ refl;
        stacked = refl;
        counted = refl;
        complete =
            update-AllFound entry_occupied entry_name scope_hash_size has_room scope.entries
              (new_entry n t l) refl c at all;
        silent = refl;
        looks_up = λ outer. lookup-write scope outer n t l c at all;
      })
    ]

-- When `semantic_scope_declare` accepts a variable in a scope whose variables are all found, the
-- name was not declared in that scope, no error is reported, the outer scopes are kept, the scope
-- counts one more variable and all are found, and `semantic_scope_lookup` now gives the new variable
-- for the name and what it gave for every other name.
pub semantic_scope_declare-Declares :
    (filename : Option String) (scope : Scope) (ss : List Scope) (n : StringView) (t : DataType)
    (l : ℕ) (errors : ErrorContext)
    → IsComplete scope
    → (semantic_scope_declare filename (scope ∷ ss) n t l errors).accepted ≡ true
    → Declares scope ss n t l errors (semantic_scope_declare filename (scope ∷ ss) n t l errors)
unfolding semantic_scope_declare
semantic_scope_declare-Declares filename scope ss n t l errors all h =
    accepted_at filename scope ss n t l errors all (slot_for scope n) refl h
