-- ===== src/Semantic/Functions/Bounds.antt =====
-- The size of the registry of functions of srcs/semantic/semantic.c.
use Prim.Native.String.{String}
use tiny_compile.Prelude.{
  ℕ, ◌≤◌, Bool, true, false, not, Option, none, some, [], ◌∷◌, arith, Bool-cases, inl, inr, ltb,
  leb, ◌==◌, length, length-append, if◌then◌else◌,
}
use tiny_compile.ErrorHandler.{ErrorContext}
use tiny_compile.Ast.Types.{type_eq}
use tiny_compile.Ast.{FunctionHeader}
use tiny_compile.Semantic.{FunctionInfo, GlobalScope, max_params_per_function, max_function_count}
use tiny_compile.Semantic.Functions.{
  DeclaredFunction, function_info, complete_function, declare_function_at, declare_header,
}
use tiny_compile.Semantic.Functions.Writes.{length-update}

module _ (g : GlobalScope) (e : ErrorContext) (line : ℕ) (filename : Option String) where
  unfoldable pub FitsIn : DeclaredFunction → Type 0
  FitsIn d = length d.global ≤ max_function_count

  if-FitsIn :
      (b : Bool) (d d' : DeclaredFunction) → FitsIn d → FitsIn d' → FitsIn (if b then d else d')
  if-FitsIn true d d' p q = p
  if-FitsIn false d d' p q = q

  declare_at-FitsIn :
      (header : FunctionHeader) (o : Option FunctionInfo)
      → length g ≤ max_function_count
      → FitsIn (declare_function_at g e line filename header o)
  unfolding FitsIn
  declare_at-FitsIn header none h = elim (Bool-cases (leb max_function_count (length g))) [
    | inl full ↦ rw full h
    | inr room ↦
        rw room (rw (length-append g (function_info header line filename ∷ [])) (ground arith))
  ]
  declare_at-FitsIn header (some x) h =
      if-FitsIn (not (type_eq x.return_type header.return_type)) _ _ h (
        if-FitsIn (not (length x.params == length header.params)) _ _ h (
          if-FitsIn x.is_prototype _ _
            (if-FitsIn (not header.is_prototype) _ _
              (rw (length-update (complete_function header line filename) g header.name) h) h)
            (if-FitsIn (not header.is_prototype) _ _ h h)))

  pub header-FitsIn :
      (header : FunctionHeader)
      → length g ≤ max_function_count
      → FitsIn (declare_header g e line filename header)
  unfolding declare_header FitsIn
  header-FitsIn header h =
      if-FitsIn (ltb max_params_per_function (length header.params)) _ _ h
        (declare_at-FitsIn header _ h)
