-- ===== src/Near/Amounts.antt =====
-- `near_sdk::NearToken` and `near_sdk::Gas`, parameters. A `NearToken` is its number of yoctoNEAR, a
-- `u128`, and a `Gas` its number of gas units, a `u64`, so that `from_yoctonear`, `as_yoctonear` and
-- `from_gas` are nothing.
use hos_treasury.Common.{ℕ, ◌*◌, ◌^◌, ◌≤◌, ◌≡◌, min, u64_max, u128_max, saturating_add}

pub record Units : Type 0 where
  pub token_saturating_add : ℕ → ℕ → ℕ
  pub gas_saturating_add : ℕ → ℕ → ℕ
  pub gas_saturating_mul : ℕ → ℕ → ℕ
  pub from_tgas : ℕ → ℕ
  pub from_ggas : ℕ → ℕ
  pub token_saturating_add_lem : (a b : ℕ) → token_saturating_add a b ≡ saturating_add u128_max a b
  pub gas_saturating_add_lem : (a b : ℕ) → gas_saturating_add a b ≡ saturating_add u64_max a b
  pub gas_saturating_mul_lem : (a b : ℕ) → gas_saturating_mul a b ≡ min (a * b) u64_max
  pub from_tgas_lem : (n : ℕ) → n * 10 ^ 12 ≤ u64_max → from_tgas n ≡ n * 10 ^ 12
  pub from_ggas_lem : (n : ℕ) → n * 10 ^ 9 ≤ u64_max → from_ggas n ≡ n * 10 ^ 9
