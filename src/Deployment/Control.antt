-- ===== src/Deployment/Control.antt =====
-- The delay of the timelock binds the spending account: what is done to it, and what it pays, was
-- scheduled and executed.
use hos_treasury.Common.{◌+◌, ◌≤◌, ◌≡◌, String, List, sum_by, All}
use hos_treasury.Timelock
use hos_treasury.Timelock.Queue.{Timeline}
use hos_treasury.Timelock.Queue.Once.{IsOnce}
use hos_treasury.Timelock.Queue.Delay.{IsServed}
use hos_treasury.Spending
use hos_treasury.Spending.Types.{WhitelistKey}
use hos_treasury.Spending.Calls.{Call}
use hos_treasury.Spending.Treasury.{charged}
use hos_treasury.Spending.Treasury.Money.{IsFunded}
use hos_treasury.Deployment.{Decoder, System}
use hos_treasury.Deployment.Approvals.{Approval}
use hos_treasury.Deployment.Amounts.{departure_asks}

module _ ⦃lock_sdk : Timelock.Types.Sdk⦄ ⦃vault_sdk : Spending.Types.Sdk⦄ where
  module _ (decoder : Decoder) (lock_id vault_id vault_admin_id : String) where
    -- The call is in a request for the spending account that the DAO scheduled and that was executed
    -- when the delay of its scheduling was over.
    abbrev pub Confirmed : Timeline → Call → Type 0
    Confirmed t c = (a : Approval decoder vault_id t.departures c) × IsServed t.tickets a.departure

    pub record IsControlled (s : System) : Type 0 where
      pub confirmed : All (λ a. (a.caller ≡ lock_id) × Confirmed s.timeline a.call) s.vault.acts
      pub paid_as_asked :
          (key : WhitelistKey)
          → charged key s.vault.treasury.in_flight + charged key s.vault.treasury.paid
            ≤ sum_by (departure_asks decoder vault_id key) s.timeline.departures
      pub once : IsOnce s.timeline
      pub funded : IsFunded s.vault.treasury
