-- ===== src/Jit/Link.antt =====
-- `jit_link_all` of srcs/jit/jit.c: the calls get the addresses of the functions.
pub mod Resolved
use tiny_compile.Prelude.{
  ℕ, ◌/◌, ◌%◌, ◌^◌, Bool, true, false, none, List, [], ◌∷◌, ◌++◌, ◌==◌, if◌then◌else◌,
}
use tiny_compile.StringView.{StringView, sv_eq}
use tiny_compile.ErrorHandler.{ErrorCategory, ErrorLevel, ErrorContext, error_add}
use tiny_compile.Jit.Buffer.{bytes_u32, write_bytes}
use tiny_compile.Jit.Context.{CompiledFunction, CallSite}

-- the loop over the registry: the address of the first function of the name, else null
unfoldable pub find_function : StringView → List CompiledFunction → ℕ
find_function name [] = 0
find_function name (f ∷ fs) =
    let rest = find_function name fs in if sv_eq name f.name then f.code_addr else rest

-- the 8 bytes that `memcpy` writes
abbrev pub bytes_u64 : ℕ → List ℕ
bytes_u64 addr = bytes_u32 (addr % 2 ^ 32) ++ bytes_u32 (addr / 2 ^ 32 % 2 ^ 32)

-- the memory, the diagnostics, and the result so far
pub record Linked : Type 0 where
  pub memory : ℕ → ℕ
  pub errors : ErrorContext
  pub success : Bool

-- what the body of the loop does with `target_addr`
unfoldable pub link_site : CallSite → ℕ → Linked → Linked
link_site site target_addr l =
    if target_addr == 0
    then record l {
      errors =
          error_add ErrorCategory.codegen ErrorLevel.error none 0 0
            "undefined reference to function '%.*s'" l.errors;
      success = false;
    }
    else record l { memory = write_bytes site.patch_location (bytes_u64 target_addr) l.memory }

unfoldable pub link_loop : List CompiledFunction → List CallSite → Linked → Linked
unfolding find_function link_site
link_loop registry [] l = l
link_loop registry (site ∷ sites) l =
    link_loop registry sites (link_site site (find_function site.target_name registry) l)

unfoldable pub jit_link_all :
    List CompiledFunction → List CallSite → (ℕ → ℕ) → ErrorContext → Linked
unfolding link_loop
jit_link_all registry sites memory errors =
    link_loop registry sites (record { memory = memory; errors = errors; success = true })
