-- ===== src/Deployment.antt =====
-- The two contracts as they are deployed: a timelock that holds the spender and the manager role of
-- a spending account. The timelock's account has no access key, so all that it does elsewhere are the
-- receipts of its promises; these arrive in any order, late, or never.
mod Messages
mod Receipts
mod Histories
mod Approvals
mod Amounts
pub mod Control
pub mod Delivery
mod Tests
unfoldable pub use Messages.*
use mathlib.Core.List.{Memᴰ}
use hos_treasury.Common.{
  ℕ, ◌<◌, ◌≡◌, ◌≢◌, String, Option, none, some, List, [], ◌∷◌, ◌++◌, str_eq, ◌==◌, if◌then◌else◌,
  u128_max,
}
use hos_treasury.Near.{Context, Promise, CallResult, done}
use hos_treasury.Timelock
use hos_treasury.Timelock.Types.{FunctionCall}
use hos_treasury.Spending
use hos_treasury.Spending.Types.{WhitelistEntry, WhitelistEntryKey, LimitChange}
use hos_treasury.Spending.Calls.{Call}

-- A call of the spending account that went through.
pub record Act : Type 0 where
  pub caller : String
  pub call : Call

module _ ⦃lock_sdk : Timelock.Types.Sdk⦄ ⦃vault_sdk : Spending.Types.Sdk⦄ where
  -- The spending account with its history.
  pub record Vault : Type 0 where
    pub treasury : Spending.Treasury.Treasury
    pub acts : List Act

  pub record System : Type 0 where
    pub timeline : Timelock.Queue.Timeline
    pub receipts : List Batch
    pub vault : Vault

  -- The spending account after a call that went through.
  abbrev pub acted :
      Vault
      → Context
      → Call
      → Option (Promise Spending.Types.Callback)
      → Spending.Contract.Contract
      → Vault
  acted v ctx c p self = record {
    treasury = Spending.Treasury.after_call v.treasury c p self;
    acts = record { caller = ctx.predecessor_account_id; call = c } ∷ v.acts;
  }

  module _ (decoder : Decoder) (lock_id vault_id : String) where
    -- A call of the spending account that goes through.
    pub record Acts (v : Vault) (ctx : Context) (c : Call)
        (p : Option (Promise Spending.Types.Callback)) (w : Spending.Whitelist.Rounds.W)
        : Type 0 where
      pub here : ctx.current_account_id ≡ vault_id
      pub in_range : Spending.Calls.InRange c
      pub ran :
          Spending.Calls.invoke ctx c (Spending.Treasury.begin v.treasury.contract) ≡ done (p, w)

    -- The function calls of a receipt of the timelock run on the spending account, one after
    -- another: each is a call that goes through, or a view, which leaves the state alone. With any
    -- other function call (arguments that do not decode, a deposit, an unknown or a private method)
    -- the receipt fails as a whole, so there is no `Arrives` for it.
    pub data Arrives : List FunctionCall → Vault → Vault → Type 0 where
      over : {v : Vault} → Arrives [] v v
      view :
          {actions : List FunctionCall} {v u : Vault} (action : FunctionCall)
          → call_of decoder action ≡ none
          → Memᴰ action.method_name views
          → Arrives actions v u
          → Arrives (action ∷ actions) v u
      act :
          {actions : List FunctionCall} {v u : Vault} (action : FunctionCall) (ctx : Context)
          (c : Call) (p : Option (Promise Spending.Types.Callback))
          (w : Spending.Whitelist.Rounds.W)
          → call_of decoder action ≡ some c
          → ctx.predecessor_account_id ≡ lock_id
          → Acts v ctx c p w
          → Arrives actions (acted v ctx c p w.state) u
          → Arrives (action ∷ actions) v u

    pub data Move (s : System) : System → Type 0 where
      -- a call of the timelock that goes through, with the receipts that it sends
      lock_call :
          (ctx : Context) (c : Timelock.Calls.Call) (reply : Timelock.Calls.Reply)
          (w : Timelock.Scheduling.W)
          → ctx.current_account_id ≡ lock_id
          → ctx.attached_deposit < u128_max
          → Timelock.Calls.invoke ctx c (Timelock.Queue.begin s.timeline.contract) ≡ done (reply, w)
          → Move s (record s {
            timeline = Timelock.Queue.after_call ctx c reply w s.timeline;
            receipts = (receipts_of_reply reply ++ receipts_of_all w.promises) ++ s.receipts;
          })
      -- a receipt of the timelock that arrives at the spending account and goes through
      arrival :
          (before after : List Batch) (b : Batch) (v : Vault)
          → s.receipts ≡ before ++ b ∷ after
          → b.receiver_id ≡ vault_id
          → Arrives b.actions s.vault v
          → Move s (record s { receipts = before ++ after; vault = v })
      -- a receipt that fails, or that is for another account
      gone :
          (before after : List Batch) (b : Batch)
          → s.receipts ≡ before ++ b ∷ after
          → Move s (record s { receipts = before ++ after })
      -- a call of the spending account by somebody else
      vault_call :
          (ctx : Context) (c : Call) (p : Option (Promise Spending.Types.Callback))
          (w : Spending.Whitelist.Rounds.W)
          → ctx.predecessor_account_id ≢ lock_id
          → Acts s.vault ctx c p w
          → Move s (record s { vault = acted s.vault ctx c p w.state })
      -- the callback of a transfer
      vault_callback :
          (before after : List Spending.Types.Callback) (cb : Spending.Types.Callback)
          (result : CallResult (Unit {0})) (w : Spending.Whitelist.Rounds.W)
          → s.vault.treasury.in_flight ≡ before ++ cb ∷ after
          → Spending.Calls.resume cb result (Spending.Treasury.begin s.vault.treasury.contract)
            ≡ done (tt, w)
          → Move s (record s {
            vault = record s.vault {
              treasury = record {
                contract = w.state;
                in_flight = before ++ after;
                paid = Spending.Treasury.settle cb result s.vault.treasury.paid;
                failed = Spending.Treasury.settle_failed cb result s.vault.treasury.failed;
                sent = s.vault.treasury.sent;
                managed = s.vault.treasury.managed;
              };
            };
          })

    -- The timelock comes with any configuration; the spending account has it as spender and manager.
    pub data Reach (dao_id lock_admin_id : String) (guardians : List String) (delay_ns : ℕ)
        (vault_admin_id : String) : System → Type 0 where
      start :
          (self : Timelock.Contract.Contract)
          → Timelock.Contract.new dao_id lock_admin_id guardians delay_ns ≡ done self
          → Reach dao_id lock_admin_id guardians delay_ns vault_admin_id (record {
            timeline = Timelock.Queue.opened self;
            receipts = [];
            vault = record {
              treasury = Spending.Treasury.opened vault_admin_id lock_id lock_id;
              acts = [];
            };
          })
      next :
          {s u : System}
          → Reach dao_id lock_admin_id guardians delay_ns vault_admin_id s
          → Move s u
          → Reach dao_id lock_admin_id guardians delay_ns vault_admin_id u
