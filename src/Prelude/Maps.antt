-- ===== src/Prelude/Maps.antt =====
-- A table keyed by a number, as a function, and its update at one key.
use Prim.Native.Nat.{ℕ}
use mathlib.Core.Path.{◌≡◌}
use mathlib.Core.Logic.{◌≢◌}
use mathlib.Core.Option.{Option, some}
use native.Mathlib.Omega.{arith}
use ai_customer_support_plat.Prelude.Tests.{if◌then◌else◌, ◌==◌}

abbrev pub Table {ℓ} : Type ℓ → Type ℓ
Table A = ℕ → Option A

module _ {ℓ} {A : Type ℓ} where
  unfoldable pub put : ℕ → A → Table A → Table A
  put k v t j = if j == k then some v else t j

  pub put_self : (k : ℕ) (v : A) (t : Table A) → put k v t k ≡ some v
  unfolding put
  put_self k v t = ground arith

  pub put-ne : (k j : ℕ) (v : A) (t : Table A) → j ≢ k → put k v t j ≡ t j
  unfolding put
  put-ne k j v t h = ground arith
