-- ===== src/Spending/Calls.antt =====
-- The methods of spending-account that change its state, as one data type of calls.
pub mod Authority
use hos_treasury.Common.{ℕ, String, Option, none, some, List, ◌≤◌, u128_max, All}
use hos_treasury.Near.{Context, Promise, CallResult, ◌>>=◌, ◌>>◌, return}
use hos_treasury.Spending.Types.{WhitelistEntry, WhitelistEntryKey, LimitChange, Callback, Sdk}
use hos_treasury.Spending.Contract.{Contract, Method}
use hos_treasury.Spending.Admin
use hos_treasury.Spending.Whitelist
use hos_treasury.Spending.Transfer

pub data Call : Type 0 where
  set_spender set_manager set_admin : String → Call
  add_to_whitelist : List WhitelistEntry → Call
  remove_from_whitelist : List WhitelistEntryKey → Call
  set_limit : List WhitelistEntry → Call
  increase_limit decrease_limit : List LimitChange → Call
  transfer : String → ℕ → Call
  transfer_ft : String → String → ℕ → Call

pub data Role : Type 0 where
  admin manager spender : Role

-- The role that a call is meant for.
abbrev pub role : Call → Role
role (Call.set_spender x) = admin
role (Call.set_manager x) = admin
role (Call.set_admin x) = admin
role (Call.add_to_whitelist es) = manager
role (Call.remove_from_whitelist ks) = manager
role (Call.set_limit es) = manager
role (Call.increase_limit cs) = manager
role (Call.decrease_limit cs) = manager
role (Call.transfer r a) = spender
role (Call.transfer_ft r t a) = spender

-- The limits of a batch are `u128` numbers.
abbrev pub LimitsFit : List WhitelistEntry → Type 0
LimitsFit = All (λ e. e.limit ≤ u128_max)

-- The numbers that a call writes as they are fit their type.
abbrev pub InRange : Call → Type 0
InRange (Call.add_to_whitelist es) = LimitsFit es
InRange (Call.set_limit es) = LimitsFit es
InRange _ = Unit

module _ ⦃sdk : Sdk⦄ where
  -- Who holds a role.
  abbrev pub holder : Role → Contract → String
  holder admin self = self.admin_id
  holder manager self = self.manager_id
  holder spender self = self.spender_id

  -- Runs a call; a transfer returns its promise.
  unfoldable pub invoke : Context → Call → Method (Option (Promise Callback))
  invoke ctx (Call.set_spender x) = Admin.set_spender ctx x >> return none
  invoke ctx (Call.set_manager x) = Admin.set_manager ctx x >> return none
  invoke ctx (Call.set_admin x) = Admin.set_admin ctx x >> return none
  invoke ctx (Call.add_to_whitelist es) = Whitelist.add_to_whitelist ctx es >> return none
  invoke ctx (Call.remove_from_whitelist ks) = Whitelist.remove_from_whitelist ctx ks >> return none
  invoke ctx (Call.set_limit es) = Whitelist.set_limit ctx es >> return none
  invoke ctx (Call.increase_limit cs) = Whitelist.increase_limit ctx cs >> return none
  invoke ctx (Call.decrease_limit cs) = Whitelist.decrease_limit ctx cs >> return none
  invoke ctx (Call.transfer r a) = Transfer.transfer ctx r a >>= λ p. return (some p)
  invoke ctx (Call.transfer_ft r t a) = Transfer.transfer_ft ctx r t a >>= λ p. return (some p)

  -- Runs a callback on the result of the payment before it.
  unfoldable pub resume : Callback → CallResult (Unit {0}) → Method (Unit {0})
  resume (Callback.on_transfer r a) result = Transfer.on_transfer r a result
  resume (Callback.on_transfer_ft r t a) result = Transfer.on_transfer_ft r t a result
