-- ===== src/Timelock/Schedule.antt =====
-- `schedule` and `schedule_proposal` of dao-timelock/src/lib.rs.
use hos_treasury.Common.{
  ℕ, String, Bool, true, false, not, Option, none, some, List, [], ◌∷◌, ◌==◌, leb, u64_max,
  saturating_add,
}
use hos_treasury.Near.{Context, ◌>>=◌, ◌>>◌, return, get_self, require, expect}
use hos_treasury.Timelock.Types.{FunctionCall, Request, Sdk}
use hos_treasury.Timelock.Requests.{max_execution_gas, total_deposit, total_gas}
use hos_treasury.Timelock.Contract.{Method, assert_dao, assert_predecessor, insert_request}
use hos_treasury.Timelock.Events

abbrev pub is_empty {ℓ} : {A : Type ℓ} → List A → Bool
is_empty [] = true
is_empty (x ∷ xs) = false

module _ ⦃sdk : Sdk⦄ where
  open sdk use {json}

  -- The request that `schedule` builds.
  unfoldable pub plain_request : Context → ℕ → String → List FunctionCall → Option ℕ → Request
  plain_request ctx delay_ns receiver_id actions predecessor_id = record {
    receiver_id = receiver_id;
    actions = actions;
    funder_id = ctx.predecessor_account_id;
    execute_after = saturating_add u64_max ctx.block_timestamp delay_ns;
    approve = none;
    predecessor_id = predecessor_id;
  }

  unfoldable pub schedule : Context → String → List FunctionCall → Option ℕ → Method ℕ
  unfolding plain_request
  schedule ctx receiver_id actions predecessor_id = do
    assert_dao ctx
    require (not (is_empty actions)) "Request must contain at least one action"
    assert_predecessor predecessor_id
    self ← get_self
    let request = plain_request ctx self.delay_ns receiver_id actions predecessor_id
    require (ctx.attached_deposit == total_deposit request)
        "Attached deposit must equal the total deposit of all actions"
    gas ← expect (total_gas request) "Action count exceeds u64"
    require (leb gas max_execution_gas) "Total action gas exceeds the executable limit"
    let execute_after = request.execute_after
    request_id ← insert_request request
    Events.schedule request_id execute_after predecessor_id
    return request_id

  -- The arguments of `add_proposal`.
  unfoldable pub proposal_args : String → json.Value → json.Value
  proposal_args description kind = json.object (
      ("proposal", json.object (("description", json.string description) ∷ ("kind", kind) ∷ []))
      ∷ [])

  -- The request that `schedule_proposal` builds, with the printed `add_proposal` arguments.
  unfoldable pub proposal_request :
      Context → ℕ → json.Value → String → ℕ → ℕ → ℕ → Option ℕ → List ℕ → Request
  proposal_request ctx delay_ns kind dao_id proposal_bond add_proposal_gas act_proposal_gas
        predecessor_id args =
      record {
        receiver_id = dao_id;
        actions =
            record {
              method_name = "add_proposal";
              args = args;
              deposit = proposal_bond;
              gas = add_proposal_gas;
            }
            ∷ [];
        funder_id = ctx.predecessor_account_id;
        execute_after = saturating_add u64_max ctx.block_timestamp delay_ns;
        approve = some (record { kind = json.to_string kind; act_proposal_gas = act_proposal_gas });
        predecessor_id = predecessor_id;
      }

  unfoldable pub schedule_proposal :
      Context → String → json.Value → String → ℕ → ℕ → ℕ → Option ℕ → Method ℕ
  unfolding proposal_args proposal_request
  schedule_proposal ctx description kind dao_id proposal_bond add_proposal_gas act_proposal_gas
        predecessor_id =
      do
        assert_dao ctx
        assert_predecessor predecessor_id
        require (ctx.attached_deposit == proposal_bond)
            "Attached deposit must equal the proposal bond"
        self ← get_self
        args ←
            expect (json.to_vec (proposal_args description kind))
              "Failed to serialize add_proposal args"
        let request =
            proposal_request ctx self.delay_ns kind dao_id proposal_bond add_proposal_gas
              act_proposal_gas predecessor_id args
        gas ← expect (total_gas request) "Action count exceeds u64"
        require (leb gas max_execution_gas) "Total action gas exceeds the executable limit"
        let execute_after = request.execute_after
        request_id ← insert_request request
        Events.schedule_proposal request_id dao_id execute_after predecessor_id
        return request_id
