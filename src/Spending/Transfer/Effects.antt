-- ===== src/Spending/Transfer/Effects.antt =====
-- What `transfer`, `transfer_ft` and their callbacks do on every branch.
use hos_treasury.Common.{
  ℕ, ◌-◌, ◌≤◌, ◌<◌, ◌≡◌, ◌↔◌, arith, String, none, some, min, str_eq_iff, u128_max, ◌+◌, [], ◌∷◌,
  ◌++◌,
}
use hos_treasury.Near.{Context, Promise, World, done, ok, err}
use hos_treasury.Spending.Types.{WhitelistKey, Callback, Sdk}
use hos_treasury.Spending.Contract.{Contract}
use hos_treasury.Spending.Keys.{limit_of, with_limit}
use hos_treasury.Spending.Events
use hos_treasury.Spending.Events.{event_line}
use hos_treasury.Spending.Transfer.{
  one_yocto, transfer, transfer_ft, on_transfer, on_transfer_ft, on_transfer_gas, ft_transfer_gas,
}

module _ ⦃sdk : Sdk⦄ where
  open sdk use {json}

  -- The world after a call that leaves the contract `after` and logs one event.
  abbrev pub after_event :
      World Contract Callback → Contract → String → json.Value → World Contract Callback
  after_event w after event payload = record w {
    state = after;
    logs = w.logs ++ event_line event payload ∷ [];
  }

  -- When a transfer may go through: the caller is the spender, and the amount is positive and
  -- within what is left for the key.
  pub record Allowed (ctx : Context) (self : Contract) (key : WhitelistKey) (amount limit : ℕ)
      : Type 0 where
    pub by_spender : ctx.predecessor_account_id ≡ self.spender_id
    pub positive : 0 < amount
    pub listed : limit_of self key ≡ some limit
    pub within : amount ≤ limit

  -- The promise of a NEAR transfer: the money, then the callback on this account.
  abbrev pub near_promise : Context → String → ℕ → Promise Callback
  near_promise ctx receiver_id amount =
      Promise.and_then (Promise.transfer (Promise.new receiver_id) amount) (
        Promise.ext ctx.current_account_id on_transfer_gas
          (Callback.on_transfer receiver_id amount))

  -- The promise of a token transfer: `ft_transfer` on the token, then the callback.
  abbrev pub token_promise : Context → String → String → ℕ → Promise Callback
  token_promise ctx receiver_id token_id amount =
      let args =
        json.object
          (("receiver_id", json.string receiver_id) ∷ ("amount", json.u128_text amount) ∷ []) in
      Promise.and_then
        (Promise.function_call_weight (Promise.new token_id) "ft_transfer"
          (json.into_bytes (json.to_string args)) one_yocto ft_transfer_gas 1)
        (Promise.ext ctx.current_account_id on_transfer_gas
          (Callback.on_transfer_ft receiver_id token_id amount))

  module _ (ctx : Context) (receiver_id : String) (amount : ℕ) (w w' : World Contract Callback)
      (p : Promise Callback) where
    -- the result of a NEAR transfer at a given limit
    abbrev pub PaysNear : ℕ → Type 0
    PaysNear limit =
        (p ≡ near_promise ctx receiver_id amount)
        × (w'
            ≡ after_event w (with_limit w.state (receiver_id, none) (limit - amount)) "transfer"
                (Events.transfer_payload receiver_id amount (limit - amount)))

    transfer_only :
        transfer ctx receiver_id amount w ≡ done (p, w')
        → (limit : ℕ) × Allowed ctx w.state (receiver_id, none) amount limit × PaysNear limit
    unfolding transfer Events.transfer
    transfer_only h = ground (arith, str_eq_iff ctx.predecessor_account_id w.state.spender_id)

    transfer_when :
        (limit : ℕ)
        → Allowed ctx w.state (receiver_id, none) amount limit
        → PaysNear limit
        → transfer ctx receiver_id amount w ≡ done (p, w')
    unfolding transfer Events.transfer
    transfer_when limit a h =
        ground (arith, str_eq_iff ctx.predecessor_account_id w.state.spender_id)

    -- A NEAR transfer goes through exactly when the spender asks for a positive amount within the
    -- recipient's limit; it then takes the amount off the limit, changes nothing else of the
    -- contract, logs the transfer, and asks for the payment with the callback behind it.
    pub transfer_iff :
        (transfer ctx receiver_id amount w ≡ done (p, w'))
        ↔ ((limit : ℕ) × Allowed ctx w.state (receiver_id, none) amount limit × PaysNear limit)
    transfer_iff = (transfer_only, λ (limit, a, h). transfer_when limit a h)

    module _ (token_id : String) where
      -- the result of a token transfer at a given limit
      abbrev pub PaysToken : ℕ → Type 0
      PaysToken limit =
          (p ≡ token_promise ctx receiver_id token_id amount)
          × (w'
              ≡ after_event w (with_limit w.state (receiver_id, some token_id) (limit - amount))
                  "ft_transfer"
                  (Events.ft_transfer_payload receiver_id token_id amount (limit - amount)))

      transfer_ft_only :
          transfer_ft ctx receiver_id token_id amount w ≡ done (p, w')
          → (limit : ℕ) × Allowed ctx w.state (receiver_id, some token_id) amount limit
            × PaysToken limit
      unfolding transfer_ft Events.ft_transfer
      transfer_ft_only h = ground (arith, str_eq_iff ctx.predecessor_account_id w.state.spender_id)

      transfer_ft_when :
          (limit : ℕ)
          → Allowed ctx w.state (receiver_id, some token_id) amount limit
          → PaysToken limit
          → transfer_ft ctx receiver_id token_id amount w ≡ done (p, w')
      unfolding transfer_ft Events.ft_transfer
      transfer_ft_when limit a h =
          ground (arith, str_eq_iff ctx.predecessor_account_id w.state.spender_id)

      -- A token transfer goes through exactly when the spender asks for a positive amount within
      -- the limit of the pair of recipient and token; it then takes the amount off that limit,
      -- changes nothing else of the contract, logs the transfer, and asks for `ft_transfer` on the
      -- token with the callback behind it.
      pub transfer_ft_iff : (transfer_ft ctx receiver_id token_id amount w ≡ done (p, w')) ↔ (
          (limit : ℕ) × Allowed ctx w.state (receiver_id, some token_id) amount limit
          × PaysToken limit)
      transfer_ft_iff = (transfer_ft_only, λ (limit, a, h). transfer_ft_when limit a h)

  -- The contract after the callback of a failed transfer: the amount is back, up to the largest
  -- `u128`, if the key is still listed.
  unfoldable pub restored : Contract → WhitelistKey → ℕ → Contract
  restored self key amount = elim (limit_of self key) [
    | none ↦ self
    | some limit ↦ with_limit self key (min (limit + amount) u128_max)
  ]

  module _ (receiver_id : String) (amount : ℕ) (w : World Contract Callback) where
    -- Neither callback panics, whatever has become of the whitelist since. After a success it
    -- changes nothing; after a failure it gives the amount back and logs the failure.
    pub callbacks_return :
        (token_id reason : String)
        → (on_transfer receiver_id amount (ok tt) w ≡ done (tt, w))
          × (on_transfer_ft receiver_id token_id amount (ok tt) w ≡ done (tt, w))
          × (on_transfer receiver_id amount (err reason) w
              ≡ done (
                tt,
                after_event w
                    (restored w.state (receiver_id, none) amount)
                    "transfer_failed"
                    (Events.transfer_failed_payload receiver_id amount),
              ))
          × (on_transfer_ft receiver_id token_id amount (err reason) w
              ≡ done (
                tt,
                after_event w
                    (restored w.state (receiver_id, some token_id) amount)
                    "ft_transfer_failed"
                    (Events.ft_transfer_failed_payload receiver_id token_id amount),
              ))
    unfolding on_transfer on_transfer_ft Events.transfer_failed Events.ft_transfer_failed restored
    callbacks_return token_id reason = (ground arith, ground arith, ground arith, ground arith)
