-- ===== src/Common/Maps.antt =====
-- Maps from numbers, as functions.
use Prim.Native.Nat.{ℕ}
use mathlib.Core.Path.{◌≡◌, ap}
use mathlib.Core.Logic.{◌≢◌}
use mathlib.Core.Bool.{true, false}
use native.Mathlib.Omega.{arith}
use cloud_storge_system.Common.Tests.{◌==◌, if◌then◌else◌}

module _ {ℓ} {A : Type ℓ} where
  -- `m[k] = v`.
  abbrev pub set : ℕ → A → (ℕ → A) → ℕ → A
  set k v m i = if i == k then v else m i

  pub set-same : (k : ℕ) (v : A) (m : ℕ → A) → set k v m k ≡ v
  set-same k v m = let e : (k == k) ≡ true = ground arith in ap (λ b. if b then v else m k) e

  pub set-other : (k i : ℕ) (v : A) (m : ℕ → A) → i ≢ k → set k v m i ≡ m i
  set-other k i v m n =
      let e : (i == k) ≡ false = ground (arith, n) in ap (λ b. if b then v else m i) e
