-- ===== src/Timelock/Scheduling.antt =====
-- What `schedule` and `schedule_proposal` do on every branch.
use hos_treasury.Common.{
  ℕ, ◌+◌, ◌*◌, ◌^◌, ◌≤◌, ◌≡◌, ◌≢◌, ◌↔◌, arith, String, Option, none, some, List, [], ◌∷◌, ◌++◌,
  str_eq_iff, u64_max, min, inl, inr,
}
use hos_treasury.Near.{Context, World, done}
use hos_treasury.Timelock.Types.{FunctionCall, Request, Callback, Sdk}
use hos_treasury.Timelock.Requests.{total_deposit}
use hos_treasury.Timelock.Requests.Totals.{exact_gas, gas_cases}
use hos_treasury.Timelock.Contract.{Contract, assert_dao, assert_predecessor, insert_request}
use hos_treasury.Timelock.Events
use hos_treasury.Timelock.Events.{event_line}
use hos_treasury.Timelock.Schedule.{
  plain_request, schedule, proposal_args, proposal_request, schedule_proposal,
}

module _ ⦃sdk : Sdk⦄ where
  open sdk use {json, request_map}

  abbrev pub W : Type 0
  W = World Contract Callback

  -- The pending request with an id.
  abbrev pub pending : Contract → ℕ → Option Request
  pending self id = request_map.get self.requests id

  -- The world after a call that leaves the contract `after` and logs one event.
  abbrev pub after_event : W → Contract → String → json.Value → W
  after_event w after event payload = record w {
    state = after;
    logs = w.logs ++ event_line event payload ∷ [];
  }

  -- The contract with one more request, under the next id.
  abbrev pub queued : Contract → Request → Contract
  queued self r = record self {
    next_request_id = self.next_request_id + 1;
    requests = request_map.insert self.requests self.next_request_id r;
  }

  -- A predecessor, if one is named, is pending.
  abbrev pub IsPending : Contract → Option ℕ → Type 0
  IsPending self none = Unit
  IsPending self (some id) = pending self id ≢ none

  -- When a request may join the queue: the DAO asks, its predecessor is pending, its exact cost is at
  -- most 280 TGas and there is an id for it.
  pub record CanQueue (ctx : Context) (self : Contract) (r : Request) : Type 0 where
    pub by_dao : ctx.predecessor_account_id ≡ self.dao_id
    pub after_pending : IsPending self r.predecessor_id
    pub affordable : exact_gas r ≤ 280 * 10 ^ 12
    pub next_fits : self.next_request_id + 1 ≤ u64_max

  -- The request of a call of `schedule` in a state.
  abbrev pub plain : Context → String → List FunctionCall → Option ℕ → Contract → Request
  plain ctx receiver_id actions predecessor_id self = record {
    receiver_id = receiver_id;
    actions = actions;
    funder_id = ctx.predecessor_account_id;
    execute_after = min (ctx.block_timestamp + self.delay_ns) u64_max;
    approve = none;
    predecessor_id = predecessor_id;
  }

  module _ (ctx : Context) (receiver_id : String) (actions : List FunctionCall)
      (predecessor_id : Option ℕ) (w w' : W) (id : ℕ) where
    -- the outcome of a call of `schedule` that goes through
    abbrev pub Schedules : Type 0
    Schedules =
        let r = plain ctx receiver_id actions predecessor_id w.state in
        CanQueue ctx w.state r
        × (actions ≢ [])
        × (ctx.attached_deposit ≡ total_deposit r)
        × (id ≡ w.state.next_request_id)
        × (w'
            ≡ after_event w (queued w.state r) "schedule"
                (Events.schedule_payload id r.execute_after predecessor_id))

  module _ (ctx : Context) (receiver_id : String) (actions : List FunctionCall) where
    -- `schedule` goes through exactly when the DAO asks for at least one action, the predecessor is
    -- pending if one is named, the attached deposit is the total deposit, the exact cost in gas is at
    -- most 280 TGas and there is a next id. It then returns that id, stores the request under it,
    -- counts on, logs the event, and changes nothing else and schedules no promise.
    pub schedule_iff :
        (predecessor_id : Option ℕ) (w w' : W) (id : ℕ)
        → (schedule ctx receiver_id actions predecessor_id w ≡ done (id, w'))
          ↔ Schedules ctx receiver_id actions predecessor_id w w' id
    unfolding schedule plain_request Events.schedule assert_dao assert_predecessor insert_request
    schedule_iff none w w' id = elim (gas_cases (plain ctx receiver_id actions none w.state)) [
      | inl (e, dear) ↦ ground (arith, str_eq_iff ctx.predecessor_account_id w.state.dao_id)
      | inr (g, e, cheap) ↦ ground (arith, str_eq_iff ctx.predecessor_account_id w.state.dao_id)
    ]
    schedule_iff (some before) w w' id =
        elim (gas_cases (plain ctx receiver_id actions (some before) w.state)) [
          | inl (e, dear) ↦ ground (
            arith,
            str_eq_iff ctx.predecessor_account_id w.state.dao_id,
            request_map.contains_key-get w.state.requests before,
          )
          | inr (g, e, cheap) ↦ ground (
            arith,
            str_eq_iff ctx.predecessor_account_id w.state.dao_id,
            request_map.contains_key-get w.state.requests before,
          )
        ]

  -- What `add_proposal` of a Sputnik DAO takes: one proposal with its description and its kind.
  abbrev pub new_proposal : String → json.Value → json.Value
  new_proposal description kind = json.object (
      ("proposal", json.object (("description", json.string description) ∷ ("kind", kind) ∷ []))
      ∷ [])

  module _ (ctx : Context) (description : String) (kind : json.Value) (dao_id : String)
      (proposal_bond add_proposal_gas act_proposal_gas : ℕ) where
    -- The request of a call of `schedule_proposal` in a state; its one action carries the printed
    -- description and kind, and its approval the printed kind.
    abbrev pub proposal : Option ℕ → Contract → Request
    proposal predecessor_id self = record {
      receiver_id = dao_id;
      actions =
          record {
            method_name = "add_proposal";
            args = json.into_bytes (json.to_string (new_proposal description kind));
            deposit = proposal_bond;
            gas = add_proposal_gas;
          }
          ∷ [];
      funder_id = ctx.predecessor_account_id;
      execute_after = min (ctx.block_timestamp + self.delay_ns) u64_max;
      approve = some (record { kind = json.to_string kind; act_proposal_gas = act_proposal_gas });
      predecessor_id = predecessor_id;
    }

    -- the outcome of a call of `schedule_proposal` that goes through
    abbrev pub Proposes : Option ℕ → W → W → ℕ → Type 0
    Proposes predecessor_id w w' id =
        let r = proposal predecessor_id w.state in
        CanQueue ctx w.state r
        × (ctx.attached_deposit ≡ proposal_bond)
        × (id ≡ w.state.next_request_id)
        × (w'
            ≡ after_event w (queued w.state r) "schedule_proposal"
                (Events.schedule_proposal_payload id dao_id r.execute_after predecessor_id))

    -- `schedule_proposal` goes through exactly when the DAO asks, the predecessor is pending if one
    -- is named, the attached deposit is the bond, the exact cost in gas, with the vote that follows,
    -- is at most 280 TGas and there is a next id. It then returns that id, stores the request under
    -- it, counts on, logs the event, and changes nothing else and schedules no promise.
    pub schedule_proposal_iff :
        (predecessor_id : Option ℕ) (w w' : W) (id : ℕ)
        → (schedule_proposal ctx description kind dao_id proposal_bond add_proposal_gas
              act_proposal_gas predecessor_id w
            ≡ done (id, w'))
          ↔ Proposes predecessor_id w w' id
    unfolding schedule_proposal proposal_request proposal_args Events.schedule_proposal assert_dao
        assert_predecessor insert_request
    schedule_proposal_iff none w w' id = elim (gas_cases (proposal none w.state)) [
      | inl (e, dear) ↦ ground (
        arith,
        str_eq_iff ctx.predecessor_account_id w.state.dao_id,
        json.to_vec-into_bytes (new_proposal description kind),
      )
      | inr (g, e, cheap) ↦ ground (
        arith,
        str_eq_iff ctx.predecessor_account_id w.state.dao_id,
        json.to_vec-into_bytes (new_proposal description kind),
      )
    ]
    schedule_proposal_iff (some before) w w' id =
        elim (gas_cases (proposal (some before) w.state)) [
          | inl (e, dear) ↦ ground (
            arith,
            str_eq_iff ctx.predecessor_account_id w.state.dao_id,
            json.to_vec-into_bytes (new_proposal description kind),
            request_map.contains_key-get w.state.requests before,
          )
          | inr (g, e, cheap) ↦ ground (
            arith,
            str_eq_iff ctx.predecessor_account_id w.state.dao_id,
            json.to_vec-into_bytes (new_proposal description kind),
            request_map.contains_key-get w.state.requests before,
          )
        ]
