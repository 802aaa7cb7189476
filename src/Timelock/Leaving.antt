-- ===== src/Timelock/Leaving.antt =====
-- What `execute`, `cancel` and the callback `on_proposal_added` do on every branch.
use hos_treasury.Common.{
  ℕ, ◌≤◌, ◌≡◌, ◌↔◌, refl, arith, foldl, String, Option, none, some, List, [], ◌∷◌, ◌++◌, true,
  if◌then◌else◌, ◌==◌, Option-cases, inl, inr,
}
use hos_treasury.Near.{Context, Promise, done, ok, err}
use hos_treasury.Timelock.Types.{FunctionCall, ProposalApproval, Request, Callback, Sdk}
use hos_treasury.Timelock.Requests.{total_deposit, gas_for_on_proposal_added}
use hos_treasury.Timelock.Contract.{Contract}
use hos_treasury.Timelock.Events
use hos_treasury.Timelock.Execute.{batch, execution, execute, on_proposal_added, cancel, vote_args}
use hos_treasury.Timelock.Scheduling.{W, pending, after_event}

-- Function calls added to a promise one after another.
abbrev pub calls_on : Promise Callback → List FunctionCall → Promise Callback
calls_on = foldl (λ p a. Promise.function_call p a.method_name a.args a.deposit a.gas)

batch-calls_on :
    (p : Promise Callback) (actions : List FunctionCall) → batch p actions ≡ calls_on p actions
unfolding batch
batch-calls_on p [] = refl
batch-calls_on p (a ∷ actions) =
    batch-calls_on (Promise.function_call p a.method_name a.args a.deposit a.gas) actions

module _ ⦃sdk : Sdk⦄ where
  open sdk use {json, units, guardian_set, request_map}

  -- The contract without a request.
  abbrev pub removed : Contract → ℕ → Contract
  removed self id = record self { requests = (request_map.remove self.requests id).0 }

  -- A predecessor, if one is named, is not pending.
  abbrev pub IsGone : Contract → Option ℕ → Type 0
  IsGone self none = Unit
  IsGone self (some id) = pending self id ≡ none

  -- The promise of a request: all its function calls on its receiver in their order, and for a
  -- proposal the callback on this account behind them.
  abbrev pub promised : Context → ℕ → Request → ℕ → Option ProposalApproval → Promise Callback
  promised ctx id r bond none = calls_on (Promise.new r.receiver_id) r.actions
  promised ctx id r bond (some approval) =
      Promise.and_then (calls_on (Promise.new r.receiver_id) r.actions) (
        Promise.ext ctx.current_account_id
          (units.gas_saturating_add gas_for_on_proposal_added approval.act_proposal_gas)
          (Callback.on_proposal_added id r.receiver_id r.funder_id bond approval.kind
            approval.act_proposal_gas))

  pub execution-promised :
      (ctx : Context) (id : ℕ) (r : Request) (bond : ℕ) (approve : Option ProposalApproval)
      → execution ctx id r bond approve ≡ promised ctx id r bond approve
  unfolding execution
  execution-promised ctx id r bond none = batch-calls_on (Promise.new r.receiver_id) r.actions
  execution-promised ctx id r bond (some approval) =
      rw (batch-calls_on (Promise.new r.receiver_id) r.actions) refl

  -- The promise of an executed request.
  abbrev pub execution_of : Context → ℕ → Request → Promise Callback
  execution_of ctx id r = promised ctx id r (total_deposit r) r.approve

  module _ (ctx : Context) (id : ℕ) (w w' : W) where
    -- the outcome of a call of `execute` that goes through with a request
    abbrev pub Executes : Promise Callback → Request → Type 0
    Executes p r =
        (pending w.state id ≡ some r)
        × (r.execute_after ≤ ctx.block_timestamp)
        × IsGone (removed w.state id) r.predecessor_id
        × (p ≡ execution_of ctx id r)
        × (w'
            ≡ after_event w (removed w.state id) "execute"
                (Events.execute_payload id r.receiver_id))

    execute_at :
        (p : Promise Callback) (before : Option ℕ) (r : Request)
        → r.predecessor_id ≡ before
        → pending w.state id ≡ some r
        → (execute ctx id w ≡ done (p, w')) ↔ Executes p r
    unfolding execute Events.execute
    execute_at p none r e h = ground (
      arith,
      request_map.remove-get w.state.requests id,
      execution-promised ctx id r (total_deposit r) r.approve,
    )
    execute_at p (some before) r e h = ground (
      arith,
      request_map.remove-get w.state.requests id,
      request_map.contains_key-get (request_map.remove w.state.requests id).0 before,
      execution-promised ctx id r (total_deposit r) r.approve,
    )

    execute_absent :
        (p : Promise Callback) → pending w.state id ≡ none → ¬ (execute ctx id w ≡ done (p, w'))
    unfolding execute
    execute_absent p e = ground (arith, request_map.remove-get w.state.requests id)

    -- `execute` goes through, for whoever calls it, exactly when the request is pending, its time has
    -- come and its predecessor, if it names one, is no longer pending. It then removes the request,
    -- changes nothing else, logs the event, and returns the batch of the request's actions in their
    -- order, with the callback behind it for a proposal.
    pub execute_iff :
        (p : Promise Callback) → (execute ctx id w ≡ done (p, w')) ↔ ((r : Request) × Executes p r)
    execute_iff p = elim (Option-cases (pending w.state id)) [
      | inl e ↦ (λ h. absurd (execute_absent p e h), λ (r, x). absurd (clash e x.0))
      | inr (r, e) ↦ (
        λ h. (r, (execute_at p r.predecessor_id r refl e).0 h),
        λ (q, x). (execute_at p q.predecessor_id q refl x.0).1 x,
      )
    ]
      where
        clash : {r : Request} → pending w.state id ≡ none → pending w.state id ≡ some r → ⊥
        clash e f = cc

    -- the outcome of a call of `cancel` that goes through with a request
    abbrev pub Cancels : Request → Type 0
    Cancels r =
        (guardian_set.contains w.state.guardians ctx.predecessor_account_id ≡ true)
        × (pending w.state id ≡ some r)
        × (w'
            ≡ record (after_event w (removed w.state id) "cancel"
                (Events.cancel_payload id r.receiver_id ctx.predecessor_account_id)) {
                  promises =
                      if total_deposit r == 0
                      then w.promises
                      else w.promises
                        ++ Promise.transfer (Promise.new r.funder_id) (total_deposit r) ∷ [];
                })

    cancel_at :
        (r : Request) → pending w.state id ≡ some r → (cancel ctx id w ≡ done (tt, w')) ↔ Cancels r
    unfolding cancel Events.cancel
    cancel_at r h = ground (arith, request_map.remove-get w.state.requests id)

    cancel_absent : pending w.state id ≡ none → ¬ (cancel ctx id w ≡ done (tt, w'))
    unfolding cancel
    cancel_absent e = ground (arith, request_map.remove-get w.state.requests id)

    -- `cancel` goes through exactly when a guardian asks and the request is pending. It then removes
    -- the request, changes nothing else, logs the event, and sends the total deposit, unless it is
    -- zero, back to the account that funded the request.
    pub cancel_iff : (cancel ctx id w ≡ done (tt, w')) ↔ ((r : Request) × Cancels r)
    cancel_iff = elim (Option-cases (pending w.state id)) [
      | inl e ↦ (λ h. absurd (cancel_absent e h), λ (r, x). absurd (clash e x.1))
      | inr (r, e) ↦ (λ h. (r, (cancel_at r e).0 h), λ (q, x). (cancel_at q x.1).1 x)
    ]
      where
        clash : {r : Request} → pending w.state id ≡ none → pending w.state id ≡ some r → ⊥
        clash e f = cc

  -- What `act_proposal` of a Sputnik DAO takes to approve a proposal: its id, the vote and the kind
  -- that is voted for.
  abbrev pub approval_of : ℕ → json.Value → json.Value
  approval_of proposal_id kind = json.object (
      ("id", json.number proposal_id)
      ∷ ("action", json.string "VoteApprove")
      ∷ ("proposal", kind)
      ∷ [])

  -- The bytes that the vote for a proposal is sent with.
  abbrev pub vote_bytes : ℕ → json.Value → List ℕ
  vote_bytes proposal_id kind = json.into_bytes (json.to_string (approval_of proposal_id kind))

  module _ (id : ℕ) (dao_id funder_id : String) (bond gas : ℕ) (kind : json.Value) (w : W) where
    -- The callback of a proposal never panics on a printed kind that reads back as it was, and never
    -- changes the contract. With the new proposal's id it votes for that proposal on the DAO, with
    -- the kind that was scheduled, and attaches no deposit; after a failure it sends the bond, unless
    -- it is zero, back to the funder. Each writes its log.
    pub on_proposal_added_returns :
        (proposal_id : ℕ) (reason : String)
        → json.from_str (json.to_string kind) ≡ some kind
        → (on_proposal_added id dao_id funder_id bond (json.to_string kind) gas (ok proposal_id) w
            ≡ done (
              some (
                  Promise.function_call
                    (Promise.new dao_id)
                    "act_proposal"
                    (vote_bytes proposal_id kind)
                    0
                    gas),
              after_event w w.state "approve_proposal"
                  (Events.approve_proposal_payload id proposal_id),
            ))
          × (on_proposal_added id dao_id funder_id bond (json.to_string kind) gas (err reason) w
              ≡ done (
                if bond == 0 then none else some (Promise.transfer (Promise.new funder_id) bond),
                after_event w w.state "proposal_failed"
                    (Events.proposal_failed_payload id funder_id bond),
              ))
    unfolding on_proposal_added vote_args Events.approve_proposal Events.proposal_failed
    on_proposal_added_returns proposal_id reason reads =
        (ground (arith, reads, json.to_vec-into_bytes (approval_of proposal_id kind)), ground arith)
