-- ===== src/Common/Go/Map.antt =====
-- A Go map with integer keys that the code does not iterate over, as a function into `Option`.
use golive.Common.{ℕ, ◌≡◌, ◌≢◌, Option, some, arith, ◌==◌, if◌then◌else◌}

module _ {ℓ} {A : Type ℓ} where
  -- `m[k] = v`
  abbrev pub update : (ℕ → Option A) → ℕ → A → ℕ → Option A
  update m k v j = if k == j then some v else m j

  pub update_self : (m : ℕ → Option A) (k : ℕ) (v : A) → update m k v k ≡ some v
  update_self m k v = ground arith

  pub update_ne : (m : ℕ → Option A) (k j : ℕ) (v : A) → k ≢ j → update m k v j ≡ m j
  update_ne m k j v h = ground arith
