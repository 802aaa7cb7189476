-- ===== src/Spending/Transfer/Rollback.antt =====
-- A transfer whose payment fails leaves no trace in the whitelist.
use hos_treasury.Common.{ℕ, ◌+◌, ◌-◌, ◌≤◌, ◌≡◌, arith, String, none, some, min, u128_max}
use hos_treasury.Near.{Context, Promise, World, done, err}
use hos_treasury.Spending.Types.{WhitelistKey, Callback, Sdk}
use hos_treasury.Spending.Contract.{Contract}
use hos_treasury.Spending.Keys.{limit_of, with_limit, limit_of-with_limit}
use hos_treasury.Spending.Transfer.{transfer, transfer_ft, on_transfer, on_transfer_ft}
use hos_treasury.Spending.Transfer.Effects.{
  Allowed, restored, transfer_iff, transfer_ft_iff, callbacks_return,
}

module _ ⦃sdk : Sdk⦄ where
  restored-spent :
      (ctx : Context) (self : Contract) (key j : WhitelistKey) (amount limit : ℕ)
      → Allowed ctx self key amount limit
      → limit ≤ u128_max
      → limit_of (restored (with_limit self key (limit - amount)) key amount) j ≡ limit_of self j
  unfolding restored
  restored-spent ctx self key j amount limit a fits = ground (
    arith,
    limit_of-with_limit self key key (limit - amount),
    limit_of-with_limit self key j (limit - amount),
    limit_of-with_limit (with_limit self key (limit - amount)) key j
        (min (limit - amount + amount) u128_max),
  )

  module _ (ctx : Context) (receiver_id token_id reason : String) (amount : ℕ)
      (w w₁ w₂ w₃ : World Contract Callback) (p : Promise Callback)
      (fits : (key : WhitelistKey) (limit : ℕ)
        → limit_of w.state key ≡ some limit
        → limit ≤ u128_max)
      (meanwhile : w₂.state ≡ w₁.state) where
    -- With limits that fit a `u128`: if a NEAR transfer goes through, and its callback is told of a
    -- failure in the state that the transfer left, then every limit is what it was before.
    pub failed_transfer_restores :
        transfer ctx receiver_id amount w ≡ done (p, w₁)
        → on_transfer receiver_id amount (err reason) w₂ ≡ done (tt, w₃)
        → (key : WhitelistKey) → limit_of w₃.state key ≡ limit_of w.state key
    failed_transfer_restores paid failed key =
        let (limit, allowed, pays) = (transfer_iff ctx receiver_id amount w w₁ p).0 paid in
        let facts = callbacks_return receiver_id amount w₂ token_id reason in
        let back : w₃.state ≡ restored w₂.state (receiver_id, none) amount = ground arith in
        rw (back, meanwhile, pays.1)
          (restored-spent ctx w.state (receiver_id, none) key amount limit allowed
            (fits _ limit allowed.listed))

    -- The same of a token transfer.
    pub failed_transfer_ft_restores :
        transfer_ft ctx receiver_id token_id amount w ≡ done (p, w₁)
        → on_transfer_ft receiver_id token_id amount (err reason) w₂ ≡ done (tt, w₃)
        → (key : WhitelistKey) → limit_of w₃.state key ≡ limit_of w.state key
    failed_transfer_ft_restores paid failed key =
        let (limit, allowed, pays) =
          (transfer_ft_iff ctx receiver_id amount w w₁ p token_id).0 paid in
        let facts = callbacks_return receiver_id amount w₂ token_id reason in
        let back : w₃.state ≡ restored w₂.state (receiver_id, some token_id) amount =
          ground arith in
        rw (back, meanwhile, pays.1)
          (restored-spent ctx w.state (receiver_id, some token_id) key amount limit allowed
            (fits _ limit allowed.listed))
