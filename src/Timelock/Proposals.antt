-- ===== src/Timelock/Proposals.antt =====
-- A proposal from scheduling to the vote: `schedule_proposal`, `execute` and `on_proposal_added` in a
-- row, with any calls in between.
use hos_treasury.Common.{
  ℕ, ◌≤◌, ◌≡◌, arith, ap, sym, ◌∙◌, String, Option, none, some, u128_max, if◌then◌else◌, ◌==◌,
}
use hos_treasury.Near.{Context, Promise, CallResult, ok, err, done}
use hos_treasury.Timelock.Types.{Request, Callback, Sdk}
use hos_treasury.Timelock.Requests.{total_deposit, gas_for_on_proposal_added}
use hos_treasury.Timelock.Requests.Totals.{total_deposit_lem}
use hos_treasury.Timelock.Contract.{Contract, Method}
use hos_treasury.Timelock.Schedule.{schedule_proposal}
use hos_treasury.Timelock.Execute.{execute, on_proposal_added}
use hos_treasury.Timelock.Events
use hos_treasury.Timelock.Scheduling.{
  W, pending, after_event, new_proposal, proposal, schedule_proposal_iff,
}
use hos_treasury.Timelock.Leaving.{
  vote_bytes, promised, execution_of, execute_iff, on_proposal_added_returns,
}

module _ ⦃sdk : Sdk⦄ where
  open sdk use {json, units, request_map}

  -- The callback with the result of the batch before it.
  abbrev pub respond : Callback → CallResult ℕ → Method (Option (Promise Callback))
  respond (Callback.on_proposal_added id dao_id funder_id bond kind gas) result =
      on_proposal_added id dao_id funder_id bond kind gas result

  module _ (ctx : Context) (description : String) (kind : json.Value) (dao_id : String)
      (bond add_gas vote_gas : ℕ) (before : Option ℕ) (id : ℕ) where
    -- The callback of a scheduled proposal.
    abbrev pub voting : Callback
    voting =
        Callback.on_proposal_added id dao_id ctx.predecessor_account_id bond (json.to_string kind)
          vote_gas

    -- The promise of a scheduled proposal.
    abbrev pub proposing : Context → Promise Callback
    proposing later =
        Promise.and_then
          (Promise.function_call (Promise.new dao_id) "add_proposal"
            (json.into_bytes (json.to_string (new_proposal description kind))) bond add_gas)
          (Promise.ext later.current_account_id
            (units.gas_saturating_add gas_for_on_proposal_added vote_gas) voting)

    proposal-execution :
        (later : Context) (self : Contract)
        → bond ≤ u128_max
        → execution_of later id
            (proposal ctx description kind dao_id bond add_gas vote_gas before self)
          ≡ proposing later
    proposal-execution later self fits =
        let r = proposal ctx description kind dao_id bond add_gas vote_gas before self in
        let whole : total_deposit r ≡ bond = omega (arith, total_deposit_lem r) in
        ap (λ n. promised later id r n r.approve) whole

    -- A proposal that was scheduled, and is executed later while it is stored as it was, is added to
    -- the DAO with its description, kind, bond and gas; the callback behind it then votes for the new
    -- proposal with the very kind that was scheduled, and after a failure sends the bond, unless it
    -- is zero, to the account that scheduled it. The bond fits a `u128`, and the printed kind reads back
    -- as it was.
    pub proposal_voted :
        (later : Context) (w scheduled now executed at_end : W) (p : Promise Callback)
        (proposal_id : ℕ) (reason : String)
        → bond ≤ u128_max
        → json.from_str (json.to_string kind) ≡ some kind
        → schedule_proposal ctx description kind dao_id bond add_gas vote_gas before w
          ≡ done (id, scheduled)
        → pending now.state id ≡ pending scheduled.state id
        → execute later id now ≡ done (p, executed)
        → (p ≡ proposing later)
          × (respond voting (ok proposal_id) at_end
              ≡ done (
                some (
                    Promise.function_call
                      (Promise.new dao_id)
                      "act_proposal"
                      (vote_bytes proposal_id kind)
                      0
                      vote_gas),
                after_event at_end at_end.state "approve_proposal"
                    (Events.approve_proposal_payload id proposal_id),
              ))
          × (respond voting (err reason) at_end
              ≡ done (
                if bond == 0
                    then none
                    else some (Promise.transfer (Promise.new ctx.predecessor_account_id) bond),
                after_event at_end at_end.state "proposal_failed"
                    (Events.proposal_failed_payload id ctx.predecessor_account_id bond),
              ))
    proposal_voted later w scheduled now executed at_end p proposal_id reason fits reads h same
          run =
        let (can, paid, next_id, ew) =
          (schedule_proposal_iff ctx description kind dao_id bond add_gas vote_gas before w
              scheduled id).0
            h in
        let (r, facts) = (execute_iff later id now executed p).0 run in
        let (was, _, _, ep, _) = facts in
        let made = proposal ctx description kind dao_id bond add_gas vote_gas before w.state in
        let stored : pending scheduled.state id ≡ some made =
          ap (λ v. pending v.state id) ew
          ∙ ap (request_map.get _) next_id
          ∙ request_map.get-insert_self w.state.requests w.state.next_request_id made in
        let is_made : r ≡ made = some_same (sym was ∙ same ∙ stored) in
        let answers =
          on_proposal_added_returns id dao_id ctx.predecessor_account_id bond vote_gas kind at_end
            proposal_id reason reads in
        (
          ep ∙ ap (execution_of later id) is_made ∙ proposal-execution later w.state fits,
          answers.0,
          answers.1,
        )
      where
        some_same : {a b : Request} → some a ≡ some b → a ≡ b
        some_same e = cc
