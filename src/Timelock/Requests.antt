-- ===== src/Timelock/Requests.antt =====
-- The gas constants of dao-timelock/src/lib.rs and the methods of dao-timelock/src/request.rs.
pub mod Totals
use hos_treasury.Common.{ℕ, ◌*◌, Option, none, some, foldl, length, try_from, u64_max}
use hos_treasury.Timelock.Types.{ProposalApproval, Request, RequestOutput, Sdk}

-- 30 days in nanoseconds.
abbrev pub max_delay_ns : ℕ
max_delay_ns = 30 * 24 * 60 * 60 * 1_000_000_000

module _ ⦃sdk : Sdk⦄ where
  open sdk use {units}

  abbrev pub gas_for_on_proposal_added : ℕ
  gas_for_on_proposal_added = units.from_tgas 10

  abbrev pub gas_per_action : ℕ
  gas_per_action = units.from_ggas 980

  abbrev pub gas_per_receipt : ℕ
  gas_per_receipt = units.from_ggas 217

  abbrev pub gas_for_execute_body : ℕ
  gas_for_execute_body = units.from_tgas 5

  abbrev pub max_execution_gas : ℕ
  max_execution_gas = units.from_tgas 280

  unfoldable pub total_deposit : Request → ℕ
  total_deposit self =
      foldl (λ acc action. units.token_saturating_add acc action.deposit) 0 self.actions

  -- The gas of the vote that follows, on top of `actions_gas`.
  unfoldable pub add_approval_gas : ℕ → Option ProposalApproval → ℕ
  add_approval_gas actions_gas none = actions_gas
  add_approval_gas actions_gas (some approval) =
      units.gas_saturating_add
        (units.gas_saturating_add
          (units.gas_saturating_add (units.gas_saturating_add actions_gas gas_per_receipt)
            gas_per_action)
          gas_for_on_proposal_added)
        approval.act_proposal_gas

  unfoldable pub actions_gas : Request → ℕ → ℕ
  actions_gas self num_actions =
      units.gas_saturating_add
        (units.gas_saturating_add
          (units.gas_saturating_add
            (foldl (λ acc action. units.gas_saturating_add acc action.gas) 0 self.actions)
            (units.gas_saturating_mul gas_per_action num_actions))
          gas_per_receipt)
        gas_for_execute_body

  -- `none` where the count of actions exceeds a `u64`.
  unfoldable pub total_gas : Request → Option ℕ
  unfolding add_approval_gas actions_gas
  total_gas self = elim (try_from u64_max (length self.actions)) [
    | none ↦ none
    | some num_actions ↦ some (add_approval_gas (actions_gas self num_actions) self.approve)
  ]

-- `RequestOutput::new`
unfoldable pub new_output : ℕ → Request → RequestOutput
new_output request_id request = record {
  request_id = request_id;
  receiver_id = request.receiver_id;
  actions = request.actions;
  funder_id = request.funder_id;
  execute_after = request.execute_after;
  approve = request.approve;
  predecessor_id = request.predecessor_id;
}
