-- ===== src/Semantic/Scopes.antt =====
-- The scopes of srcs/semantic/semantic.c: entering, leaving, lookup and declaration.
pub mod Laws
use tiny_compile.Prelude.{
  ℕ, ◌+◌, Bool, true, false, Option, none, some, List, [], ◌∷◌, update, if◌then◌else◌,
}
use Prim.Native.String.{String}
use tiny_compile.StringView.{StringView}
use tiny_compile.ErrorHandler.{ErrorContext}
use tiny_compile.Ast.Types.{DataType}
use tiny_compile.HashTable.{find_slot, target_slot}
use tiny_compile.Semantic.{VarInfo, ScopeEntry, Scope, no_entry, scope_hash_size, error_semantic}

abbrev pub empty_scope : Scope
empty_scope = record { entries = λ _. no_entry; var_count = 0 }

-- These two change only `sa->current`.
unfoldable pub semantic_scope_enter : List Scope → List Scope
semantic_scope_enter current = empty_scope ∷ current

unfoldable pub semantic_scope_exit : List Scope → List Scope
semantic_scope_exit [] = []
semantic_scope_exit (scope ∷ parent) = parent

abbrev pub entry_occupied : ScopeEntry → Bool
entry_occupied e = e.occupied

abbrev pub entry_name : ScopeEntry → StringView
entry_name e = e.info.name

-- the index at which the inner loop of a search returns
abbrev pub scope_slot : Scope → StringView → Option ℕ
scope_slot scope name = find_slot entry_occupied entry_name scope_hash_size scope.entries name

-- a search goes on in the parent
abbrev pub found_or : Option VarInfo → Scope → Option ℕ → Option VarInfo
found_or rest scope none = rest
found_or rest scope (some curr) = some (scope.entries curr).info

unfoldable pub semantic_scope_lookup : List Scope → StringView → Option VarInfo
semantic_scope_lookup [] name = none
semantic_scope_lookup (scope ∷ scopes) name =
    found_or (semantic_scope_lookup scopes name) scope (scope_slot scope name)

-- the result of a declaration, the scopes and the errors
pub record Declared : Type 0 where
  pub accepted : Bool
  pub current : List Scope
  pub errors : ErrorContext

-- the entry that a declaration writes
abbrev pub new_entry : StringView → DataType → ℕ → ScopeEntry
new_entry name type line = record {
  info = record { name = name; type = type; initialized = false; line = line };
  occupied = true;
}

abbrev pub write_scope : Scope → ℕ → ScopeEntry → Scope
write_scope scope curr entry = record {
  entries = update scope.entries curr entry;
  var_count = scope.var_count + 1;
}

-- the body of the loop at the index where it returns; `none` is the end of the loop
abbrev pub declare_at :
    Option String
    → Scope
    → List Scope
    → StringView
    → DataType
    → ℕ
    → ErrorContext
    → Option ℕ
    → Declared
declare_at filename scope scopes name type line errors none = record {
  accepted = false;
  current = scope ∷ scopes;
  errors = error_semantic filename line 0 "too many variables in scope (max %d)" errors;
}
declare_at filename scope scopes name type line errors (some curr) =
    if (scope.entries curr).occupied
    then (record {
      accepted = false;
      current = scope ∷ scopes;
      errors =
          error_semantic filename line 0
            "redeclaration of variable '%.*s' (first declared at line %d)" errors;
    })
    else (record {
      accepted = true;
      current = write_scope scope curr (new_entry name type line) ∷ scopes;
      errors = errors;
    })

unfoldable pub semantic_scope_declare :
    Option String → List Scope → StringView → DataType → ℕ → ErrorContext → Declared
semantic_scope_declare filename [] name type line errors = record {
  accepted = false;
  current = [];
  errors = errors;
}
semantic_scope_declare filename (scope ∷ scopes) name type line errors =
    declare_at filename scope scopes name type line errors
      (target_slot entry_occupied entry_name scope_hash_size scope.entries name)
