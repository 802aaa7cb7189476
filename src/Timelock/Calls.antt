-- ===== src/Timelock/Calls.antt =====
-- The methods of dao-timelock that change its state, as one data type of calls.
pub mod Authority
use hos_treasury.Common.{ℕ, String, Bool, true, false, Option, none, some, List}
use hos_treasury.Near.{Context, Promise, CallResult, ◌>>=◌, ◌>>◌, return}
use hos_treasury.Timelock.Types.{FunctionCall, Callback, Sdk}
use hos_treasury.Timelock.Contract.{Method}
use hos_treasury.Timelock.Schedule
use hos_treasury.Timelock.Execute
use hos_treasury.Timelock.Admin

-- What a call returns.
pub data Reply : Type 0 where
  nothing : Reply
  request_id : ℕ → Reply
  promise : Promise Callback → Reply

abbrev pub optional_promise : Option (Promise Callback) → Reply
optional_promise none = nothing
optional_promise (some p) = promise p

module _ ⦃sdk : Sdk⦄ where
  open sdk use {json}

  pub data Call : Type 0 where
    schedule : String → List FunctionCall → Option ℕ → Call
    schedule_proposal : String → json.Value → String → ℕ → ℕ → ℕ → Option ℕ → Call
    execute : ℕ → Call
    cancel : ℕ → Call
    on_proposal_added : ℕ → String → String → ℕ → String → ℕ → CallResult ℕ → Call
    set_dao : String → Call
    set_admin : String → Call
    set_guardians : List String → Call
    set_delay : ℕ → Call

  unfoldable pub invoke : Context → Call → Method Reply
  invoke ctx (Call.schedule r actions p) =
      Schedule.schedule ctx r actions p >>= λ id. return (request_id id)
  invoke ctx (Call.schedule_proposal d k dao b g v p) =
      Schedule.schedule_proposal ctx d k dao b g v p >>= λ id. return (request_id id)
  invoke ctx (Call.execute id) = Execute.execute ctx id >>= λ p. return (promise p)
  invoke ctx (Call.cancel id) = Execute.cancel ctx id >> return nothing
  invoke ctx (Call.on_proposal_added id dao f b k g result) =
      Execute.assert_private ctx
      >> (Execute.on_proposal_added id dao f b k g result >>= λ p. return (optional_promise p))
  invoke ctx (Call.set_dao a) = Admin.set_dao ctx a >> return nothing
  invoke ctx (Call.set_admin a) = Admin.set_admin ctx a >> return nothing
  invoke ctx (Call.set_guardians gs) = Admin.set_guardians ctx gs >> return nothing
  invoke ctx (Call.set_delay d) = Admin.set_delay ctx d >> return nothing
