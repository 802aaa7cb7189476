-- ===== src/Timelock/UnitTests/Scheduling.antt =====
-- The tests of `schedule` and `schedule_proposal`.
use hos_treasury.Common.{
  ℕ, ◌*◌, ◌+◌, ◌-◌, ◌^◌, ◌≡◌, refl, String, Option, none, some, [], ◌∷◌, length,
}
use mathlib.Core.Option
use hos_treasury.Near.Sample.{sample_json}
use hos_treasury.Near.{SerdeJson, Outcome, done, panic, ◌>>=◌, return, get_self}
use hos_treasury.Timelock.Types.{RequestOutput}
use hos_treasury.Timelock.Requests.{max_execution_gas}
use hos_treasury.Timelock.Schedule
use hos_treasury.Timelock.Schedule.{proposal_args}
use hos_treasury.Timelock.Views.{get_num_requests, get_next_request_id, get_request, get_requests}
use hos_treasury.Timelock.Samples.{sample, program}
use hos_treasury.Timelock.UnitTests.{
  one_day, start_ts, dao, guardian, context, new_contract, on, call_action, schedule_one,
  policy_kind, schedule_proposal_one,
}

abbrev test_schedule_by_dao : Outcome (ℕ × ℕ × ℕ × Option RequestOutput × ℕ)
test_schedule_by_dao = on new_contract (do
  request_id ← schedule_one 5
  self ← get_self
  requests ← get_requests none none
  return (
    request_id,
    get_num_requests self,
    get_next_request_id self,
    get_request self request_id,
    length requests,
  ))

test_schedule_by_dao_passes :
    test_schedule_by_dao
    ≡ done (
      0,
      1,
      1,
      some (record {
        request_id = 0;
        receiver_id = "target.near";
        actions = call_action 5 ∷ [];
        funder_id = dao;
        execute_after = start_ts + one_day;
        approve = none;
        predecessor_id = none;
      }),
      1,
    )
unfolding program get_requests get_num_requests get_next_request_id get_request
test_schedule_by_dao_passes = refl

abbrev test_schedule_by_other_fails : Outcome ℕ
test_schedule_by_other_fails =
    on new_contract (Schedule.schedule (context guardian) "target.near" (call_action 0 ∷ []) none)

test_schedule_by_other_fails_passes :
    test_schedule_by_other_fails ≡ panic "Only the DAO can schedule requests"
unfolding program
test_schedule_by_other_fails_passes = refl

abbrev test_schedule_wrong_deposit_fails : Outcome ℕ
test_schedule_wrong_deposit_fails = on new_contract (
    Schedule.schedule (record (context dao) { attached_deposit = 1 }) "target.near"
      (call_action 5 ∷ []) none)

test_schedule_wrong_deposit_fails_passes :
    test_schedule_wrong_deposit_fails
    ≡ panic "Attached deposit must equal the total deposit of all actions"
unfolding program
test_schedule_wrong_deposit_fails_passes = refl

abbrev test_schedule_empty_fails : Outcome ℕ
test_schedule_empty_fails = on new_contract (Schedule.schedule (context dao) "target.near" [] none)

test_schedule_empty_fails_passes :
    test_schedule_empty_fails ≡ panic "Request must contain at least one action"
unfolding program
test_schedule_empty_fails_passes = refl

abbrev test_schedule_excessive_gas_fails : Outcome ℕ
test_schedule_excessive_gas_fails = on new_contract (
    Schedule.schedule (context dao) "target.near"
      (record (call_action 0) { gas = max_execution_gas - 6 * 10 ^ 12 } ∷ []) none)

test_schedule_excessive_gas_fails_passes :
    test_schedule_excessive_gas_fails ≡ panic "Total action gas exceeds the executable limit"
unfolding program
test_schedule_excessive_gas_fails_passes = refl

abbrev test_schedule_proposal_by_dao : Outcome (ℕ × ℕ × Option RequestOutput)
test_schedule_proposal_by_dao = on new_contract (do
  request_id ← schedule_proposal_one 7
  self ← get_self
  return (request_id, get_next_request_id self, get_request self request_id))

test_schedule_proposal_by_dao_passes :
    test_schedule_proposal_by_dao
    ≡ done (
      0,
      1,
      some (record {
        request_id = 0;
        receiver_id = dao;
        actions =
            record {
              method_name = "add_proposal";
              args = SerdeJson.into_bytes sample_json (
                  SerdeJson.to_string sample_json (
                    SerdeJson.object sample_json (
                      (
                        "proposal",
                        SerdeJson.object sample_json (
                            ("description", SerdeJson.string sample_json "change the policy")
                            ∷ ("kind", policy_kind)
                            ∷ []),
                      )
                      ∷ [])));
              deposit = 7;
              gas = 30 * 10 ^ 12;
            }
            ∷ [];
        funder_id = dao;
        execute_after = start_ts + one_day;
        approve = some (record { kind = policy_kind; act_proposal_gas = 100 * 10 ^ 12 });
        predecessor_id = none;
      }),
    )
unfolding program get_num_requests get_request get_next_request_id get_requests
test_schedule_proposal_by_dao_passes = refl

abbrev test_schedule_proposal_for_other_dao : Outcome (Option String)
test_schedule_proposal_for_other_dao = on new_contract (do
  request_id ←
      Schedule.schedule_proposal (context dao) "change the signers" policy_kind "other-dao.near" 0
        (30 * 10 ^ 12) (100 * 10 ^ 12) none
  self ← get_self
  return (Option.map (λ request. request.receiver_id) (get_request self request_id)))

test_schedule_proposal_for_other_dao_passes :
    test_schedule_proposal_for_other_dao ≡ done (some "other-dao.near")
unfolding program get_num_requests get_request get_next_request_id get_requests
test_schedule_proposal_for_other_dao_passes = refl

abbrev test_schedule_proposal_by_other_fails : Outcome ℕ
test_schedule_proposal_by_other_fails = on new_contract (
    Schedule.schedule_proposal (context guardian) "change the policy" policy_kind dao 0
      (30 * 10 ^ 12) (100 * 10 ^ 12) none)

test_schedule_proposal_by_other_fails_passes :
    test_schedule_proposal_by_other_fails ≡ panic "Only the DAO can schedule requests"
unfolding program
test_schedule_proposal_by_other_fails_passes = refl

abbrev test_schedule_proposal_wrong_deposit_fails : Outcome ℕ
test_schedule_proposal_wrong_deposit_fails = on new_contract (
    Schedule.schedule_proposal (record (context dao) { attached_deposit = 1 }) "change the policy"
      policy_kind dao 7 (30 * 10 ^ 12) (100 * 10 ^ 12) none)

test_schedule_proposal_wrong_deposit_fails_passes :
    test_schedule_proposal_wrong_deposit_fails
    ≡ panic "Attached deposit must equal the proposal bond"
unfolding program
test_schedule_proposal_wrong_deposit_fails_passes = refl
