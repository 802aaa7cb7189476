-- ===== src/Timelock/Types.antt =====
-- The data of dao-timelock/src/request.rs, and what the contract takes from the SDK.
use hos_treasury.Common.{ℕ, String, Option, List}
use hos_treasury.Near.{SerdeJson, Units, IterableMap, IterableSet}

pub record FunctionCall : Type 0 where
  pub method_name : String
  pub args : List ℕ
  pub deposit : ℕ
  pub gas : ℕ

pub record ProposalApproval : Type 0 where
  pub kind : String
  pub act_proposal_gas : ℕ

pub record Request : Type 0 where
  pub receiver_id : String
  pub actions : List FunctionCall
  pub funder_id : String
  pub execute_after : ℕ
  pub approve : Option ProposalApproval
  pub predecessor_id : Option ℕ

pub record RequestOutput : Type 0 where
  pub request_id : ℕ
  pub receiver_id : String
  pub actions : List FunctionCall
  pub funder_id : String
  pub execute_after : ℕ
  pub approve : Option ProposalApproval
  pub predecessor_id : Option ℕ

-- `on_proposal_added` as the contract calls it on itself: the request's id, the DAO, the funder,
-- the bond, the kind and the gas of the vote.
pub data Callback : Type 0 where
  on_proposal_added : ℕ → String → String → ℕ → String → ℕ → Callback

pub record Sdk : Type 1 where
  pub json : SerdeJson
  pub units : Units
  pub guardian_set : IterableSet String
  pub request_map : IterableMap ℕ Request
