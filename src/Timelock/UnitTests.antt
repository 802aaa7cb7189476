-- ===== src/Timelock/UnitTests.antt =====
-- The unit tests of dao-timelock/src/lib.rs: what they set up. Each test is a run of the contract
-- and the outcome that it expects.
mod Scheduling
mod Leaving
mod Setters
use hos_treasury.Common.{ℕ, ◌*◌, ◌^◌, String, Option, none, some, List, [], ◌∷◌}
use hos_treasury.Near.{Context, Outcome, done, panic}
use hos_treasury.Timelock.Types.{FunctionCall}
use hos_treasury.Timelock.Contract.{Contract, Method, new}
use hos_treasury.Timelock.Schedule.{schedule, schedule_proposal}
use hos_treasury.Timelock.Samples.{sample}
use hos_treasury.Timelock.Queue.{begin}

abbrev pub one_day : ℕ
one_day = 24 * 60 * 60 * 1_000_000_000

abbrev pub start_ts : ℕ
start_ts = 1_000_000_000_000_000_000

abbrev pub dao : String
dao = "dao.near"

abbrev pub timelock : String
timelock = "timelock.near"

abbrev pub admin : String
admin = "admin.near"

abbrev pub guardian : String
guardian = "guardian.near"

abbrev pub context : String → Context
context predecessor = record {
  predecessor_account_id = predecessor;
  current_account_id = timelock;
  block_timestamp = start_ts;
  attached_deposit = 0;
}

abbrev pub new_contract : Outcome Contract
new_contract = new dao admin (guardian ∷ []) one_day

-- A test that runs on a contract.
abbrev pub on : {A : Type 0} → Outcome Contract → Method A → Outcome A
on (done self) m = elim (m (begin self)) [ done r ↦ done r.0 | panic e ↦ panic e ]
on (panic e) m = panic e

abbrev pub call_action : ℕ → FunctionCall
call_action deposit = record {
  method_name = "do_something";
  args = 123 ∷ 125 ∷ [];
  deposit = deposit;
  gas = 10 * 10 ^ 12;
}

abbrev pub schedule_after : ℕ → Option ℕ → Method ℕ
schedule_after deposit predecessor_id =
    schedule (record (context dao) { attached_deposit = deposit }) "target.near"
      (call_action deposit ∷ []) predecessor_id

abbrev pub schedule_one : ℕ → Method ℕ
schedule_one deposit = schedule_after deposit none

-- The sample's JSON values are texts.
abbrev pub policy_kind : String
policy_kind = "{\"ChangePolicy\":{\"policy\":{\"proposal_bond\":\"1\"}}}"

abbrev pub schedule_proposal_one : ℕ → Method ℕ
schedule_proposal_one bond =
    schedule_proposal (record (context dao) { attached_deposit = bond }) "change the policy"
      policy_kind dao bond (30 * 10 ^ 12) (100 * 10 ^ 12) none

-- The clock of a later call.
abbrev pub later : String → ℕ → Context
later predecessor time = record (context predecessor) { block_timestamp = time }
