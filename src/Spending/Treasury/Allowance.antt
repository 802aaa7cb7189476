-- ===== src/Spending/Treasury/Allowance.antt =====
-- The spender can never pay more than the manager has granted.
use mathlib.Core.Option
use hos_treasury.Common.{◌+◌, ◌≤◌, ◌≡◌, arith, Option, []}
use hos_treasury.Near.{Promise, done, CallResult, ok, err}
use hos_treasury.Spending.Types.{WhitelistKey, Callback, Sdk}
use hos_treasury.Spending.Contract.{Contract}
use hos_treasury.Spending.Keys.{allowance}
use hos_treasury.Spending.Calls.{Role, resume}
use hos_treasury.Spending.Transfer.Effects.{restored, callbacks_return}
use hos_treasury.Spending.Whitelist.Rounds.{W}
use hos_treasury.Spending.Treasury.Money.{IsFunded}
use hos_treasury.Spending.Treasury.{
  Treasury, callback_key, callback_amount, charged, raised, awaited, note,
}

module _ ⦃sdk : Sdk⦄ where
  open sdk use {whitelist_map}

  -- The contract that a callback leaves.
  abbrev pub given_back : Callback → CallResult (Unit {0}) → Contract → Contract
  given_back cb (ok _) self = self
  given_back cb (err _) self = restored self (callback_key cb) (callback_amount cb)

  pub resume_state :
      (cb : Callback) (result : CallResult (Unit {0})) (w w' : W)
      → resume cb result w ≡ done (tt, w')
      → w'.state ≡ given_back cb result w.state
  unfolding resume
  resume_state (Callback.on_transfer r a) (ok u) w w' h =
      let facts = callbacks_return r a w r r in ground arith
  resume_state (Callback.on_transfer r a) (err e) w w' h =
      let facts = callbacks_return r a w r e in ground arith
  resume_state (Callback.on_transfer_ft r t a) (ok u) w w' h =
      let facts = callbacks_return r a w t t in ground arith
  resume_state (Callback.on_transfer_ft r t a) (err e) w w' h =
      let facts = callbacks_return r a w t e in ground arith

  module _ (key : WhitelistKey) where
    -- A call takes what its transfer is charged, and adds only what the manager grants.
    Covers : Role → Contract → Contract → Option (Promise Callback) → Type 0
    Covers r self after p =
        allowance after key + charged key (awaited p)
        ≤ allowance self key + raised key (note r (self, after) [])

    -- What is left for the key, what is under way and what has been paid is within the grants.
    abbrev pub IsWithin : Treasury → Type 0
    IsWithin t =
        allowance t.contract key + charged key t.in_flight + charged key t.paid
        ≤ raised key t.managed

    -- What is left and what is charged is within the grants, and the promises send what is charged.
    abbrev pub IsCovered : Treasury → Type 0
    IsCovered t = IsWithin t × IsFunded t
