-- ===== src/Timelock/Execute.antt =====
-- `execute`, its callback `on_proposal_added`, and `cancel` of dao-timelock/src/lib.rs.
use hos_treasury.Common.{
  ℕ, String, not, Option, none, some, List, [], ◌∷◌, ◌==◌, leb, str_eq, if◌then◌else◌,
}
use hos_treasury.Near.{
  Context, Promise, CallResult, ok, err, ◌>>=◌, ◌>>◌, return, get_self, put_self, require, expect,
  drop_promise,
}
use hos_treasury.Timelock.Types.{FunctionCall, ProposalApproval, Request, Callback, Sdk}
use hos_treasury.Timelock.Requests.{gas_for_on_proposal_added, total_deposit}
use hos_treasury.Timelock.Contract.{Method}
use hos_treasury.Timelock.Events

-- The batch that `execute` builds: one function call after another on the receiver.
unfoldable pub batch : Promise Callback → List FunctionCall → Promise Callback
batch promise [] = promise
batch promise (action ∷ actions) =
    batch (Promise.function_call promise action.method_name action.args action.deposit action.gas)
      actions

module _ ⦃sdk : Sdk⦄ where
  open sdk use {json, units, guardian_set, request_map}

  unfoldable pub require_predecessor_gone : Option ℕ → Method (Unit {0})
  require_predecessor_gone none = return tt
  require_predecessor_gone (some predecessor_id) = do
    self ← get_self
    require (not (request_map.contains_key self.requests predecessor_id))
        "Predecessor request is still pending"

  -- The promise of an executed request: the batch, and for a proposal the callback behind it.
  unfoldable pub execution : Context → ℕ → Request → ℕ → Option ProposalApproval → Promise Callback
  unfolding batch
  execution ctx request_id request bond none =
      batch (Promise.new request.receiver_id) request.actions
  execution ctx request_id request bond (some approval) =
      Promise.and_then (batch (Promise.new request.receiver_id) request.actions) (
        Promise.ext ctx.current_account_id
          (units.gas_saturating_add gas_for_on_proposal_added approval.act_proposal_gas)
          (Callback.on_proposal_added request_id request.receiver_id request.funder_id bond
            approval.kind approval.act_proposal_gas))

  unfoldable pub execute : Context → ℕ → Method (Promise Callback)
  unfolding require_predecessor_gone execution
  execute ctx request_id = do
    self ← get_self
    let (requests, removed) = request_map.remove self.requests request_id
    put_self (record self { requests = requests })
    request ← expect removed "Request not found"
    require (leb request.execute_after ctx.block_timestamp) "The timelock delay has not passed yet"
    require_predecessor_gone request.predecessor_id
    Events.execute request_id request.receiver_id
    return (execution ctx request_id request (total_deposit request) request.approve)

  -- The arguments of `act_proposal`.
  unfoldable pub vote_args : ℕ → json.Value → json.Value
  vote_args proposal_id kind = json.object (
      ("id", json.number proposal_id)
      ∷ ("action", json.string "VoteApprove")
      ∷ ("proposal", kind)
      ∷ [])

  -- The check that `#[private]` makes: only the account itself makes the call.
  unfoldable pub assert_private : Context → Method (Unit {0})
  assert_private ctx =
      require (str_eq ctx.predecessor_account_id ctx.current_account_id)
        "Method on_proposal_added is private"

  -- The result is the promise, or `none` for `PromiseOrValue::Value(())`.
  unfoldable pub on_proposal_added :
      ℕ → String → String → ℕ → String → ℕ → CallResult ℕ → Method (Option (Promise Callback))
  unfolding vote_args
  on_proposal_added request_id dao_id funder_id bond kind act_proposal_gas (ok proposal_id) = do
    Events.approve_proposal request_id proposal_id
    kind_value ← expect (json.from_str kind) "Stored proposal kind is not valid JSON"
    args ←
        expect (json.to_vec (vote_args proposal_id kind_value))
          "Failed to serialize act_proposal args"
    return
        (some (Promise.function_call (Promise.new dao_id) "act_proposal" args 0 act_proposal_gas))
  on_proposal_added request_id dao_id funder_id bond kind act_proposal_gas (err _) = do
    Events.proposal_failed request_id funder_id bond
    return (if bond == 0 then none else some (Promise.transfer (Promise.new funder_id) bond))

  unfoldable pub refund : String → ℕ → Method (Unit {0})
  refund funder_id total =
      if total == 0
      then return tt
      else drop_promise (Promise.transfer (Promise.new funder_id) total)

  unfoldable pub cancel : Context → ℕ → Method (Unit {0})
  unfolding refund
  cancel ctx request_id = do
    self ← get_self
    require (guardian_set.contains self.guardians ctx.predecessor_account_id)
        "Only a guardian can cancel requests"
    let (requests, removed) = request_map.remove self.requests request_id
    put_self (record self { requests = requests })
    request ← expect removed "Request not found"
    Events.cancel request_id request.receiver_id ctx.predecessor_account_id
    refund request.funder_id (total_deposit request)
