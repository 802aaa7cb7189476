-- ===== src/Timelock/Samples.antt =====
-- Contracts, calls and timelines of the timelock for tests and witnesses.
use native.Mathlib.Decide.{ℕ_discrete}
use hos_treasury.Common.{str_eq, ℕ, ◌^◌, String, none, some, List, [], ◌∷◌}
use hos_treasury.Near.{Context, Outcome, done, panic, IterableMap}
use hos_treasury.Near.Assoc.{assoc_map, list_set}
use hos_treasury.Near.Sample.{sample_json, sample_units}
use hos_treasury.Spending.Keys.{String-discrete}
use hos_treasury.Timelock.Types.{FunctionCall, Sdk}
use hos_treasury.Timelock.Requests.{total_deposit, total_gas}
use hos_treasury.Timelock.Contract.{
  Contract, new, insert_all, assert_dao, assert_predecessor, insert_request,
}
use hos_treasury.Timelock.Events
use hos_treasury.Timelock.Schedule
use hos_treasury.Timelock.Execute
use hos_treasury.Timelock.Admin
use hos_treasury.Timelock.Scheduling.{W}
use hos_treasury.Timelock.Calls.{Call, Reply, nothing, invoke}
use hos_treasury.Timelock.Queue.{Timeline, begin, opened, after_call}

instance abbrev pub sample : Sdk
sample = record {
  json = sample_json;
  units = sample_units;
  guardian_set = list_set String-discrete;
  request_map = assoc_map ℕ_discrete;
}

abbrev pub at : ℕ → String → ℕ → Context
at time caller deposit = record {
  predecessor_account_id = caller;
  current_account_id = "timelock.near";
  block_timestamp = time;
  attached_deposit = deposit;
}

unfoldable pub program : Unit {0}
unfolding new insert_all assert_dao assert_predecessor insert_request total_deposit total_gas
    Schedule.schedule Schedule.schedule_proposal Execute.execute Execute.cancel
    Execute.on_proposal_added Execute.assert_private Admin.set_dao Admin.set_admin
    Admin.set_guardians Admin.set_delay invoke Events.schedule Events.schedule_proposal
    Events.execute Events.cancel Events.approve_proposal Events.proposal_failed String-discrete
    ℕ_discrete str_eq
program = tt

abbrev pub fresh : Contract
fresh = record {
  dao_id = "dao.near";
  admin_id = "admin.near";
  guardians = "guardian.near" ∷ [];
  delay_ns = 100;
  next_request_id = 0;
  requests = IterableMap.new (assoc_map ℕ_discrete);
}

abbrev pub actions : List FunctionCall
actions =
    record { method_name = "transfer"; args = []; deposit = 3; gas = 10 ^ 12 }
    ∷ record { method_name = "transfer"; args = []; deposit = 4; gas = 10 ^ 12 }
    ∷ []

-- The world and the reply that a call ends with, for a call that does not panic.
abbrev pub world_of : {A : Type 0} → Outcome (A × W) → W
world_of (done r) = r.1
world_of (panic e) = begin fresh

abbrev pub reply_of : Outcome (Reply × W) → Reply
reply_of (done r) = r.0
reply_of (panic e) = nothing

abbrev pub then_call : Timeline → Context → Call → Timeline
then_call t ctx c =
    let o = invoke ctx c (begin t.contract) in after_call ctx c (reply_of o) (world_of o) t

-- A life of a timelock: two requests, the second behind the first; the first is executed, then the
-- second; a third is cancelled.
abbrev pub first_call : Call
first_call = Call.schedule "account.near" actions none

abbrev pub second_call : Call
second_call = Call.schedule "account.near" actions (some 0)

abbrev pub t0 : Timeline
t0 = opened fresh

abbrev pub t1 : Timeline
t1 = then_call t0 (at 10 "dao.near" 7) first_call

abbrev pub t2 : Timeline
t2 = then_call t1 (at 20 "dao.near" 7) second_call

abbrev pub t3 : Timeline
t3 = then_call t2 (at 110 "anyone.near" 0) (Call.execute 0)

abbrev pub t4 : Timeline
t4 = then_call t3 (at 120 "anyone.near" 0) (Call.execute 1)

abbrev pub t5 : Timeline
t5 = then_call t4 (at 130 "dao.near" 7) first_call

abbrev pub t6 : Timeline
t6 = then_call t5 (at 140 "guardian.near" 0) (Call.cancel 2)
