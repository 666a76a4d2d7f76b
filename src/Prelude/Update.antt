-- ===== src/Prelude/Update.antt =====
-- Arrays as functions of the index.
use mathlib.Core.Path.{fun_ext}
use tiny_compile.Prelude.Tests.{◌==◌, if◌then◌else◌}
use Prim.Native.Nat.{ℕ}
use mathlib.Core.Path.{◌≡◌}
use mathlib.Core.Logic.{◌≢◌}
use native.Mathlib.Omega.{arith}

module _ {ℓ} {A : Type ℓ} where
  abbrev pub update : (ℕ → A) → ℕ → A → ℕ → A
  update f p v q = if p == q then v else f q

  pub update_self : (f : ℕ → A) (p : ℕ) (v : A) → update f p v p ≡ v
  update_self f p v = ground arith

  pub update_ne : (f : ℕ → A) {p q : ℕ} (v : A) → p ≢ q → update f p v q ≡ f q
  update_ne f {p} {q} v h = ground arith

  pub update-update_undo : (f : ℕ → A) (p : ℕ) (v : A) → update (update f p v) p (f p) ≡ f
  update-update_undo f p v = fun_ext λ q. ground arith
