-- ===== src/Timelock/UnitTests/Leaving.antt =====
-- The tests of `execute`, of predecessors and of `cancel`.
use hos_treasury.Common.{ℕ, ◌*◌, ◌+◌, ◌-◌, ◌^◌, ◌≡◌, refl, Option, none, some}
use mathlib.Core.Option
use hos_treasury.Near.{Outcome, done, panic, ◌>>=◌, ◌>>◌, return, get_self}
use hos_treasury.Timelock.Types.{RequestOutput}
use hos_treasury.Timelock.Contract.{Contract}
use hos_treasury.Timelock.Schedule
use hos_treasury.Timelock.Schedule.{proposal_args}
use hos_treasury.Timelock.Execute
use hos_treasury.Timelock.Views.{get_num_requests, get_next_request_id, get_request, get_requests}
use hos_treasury.Timelock.Samples.{sample, program}
use hos_treasury.Timelock.UnitTests.{
  one_day, start_ts, dao, guardian, context, new_contract, on, schedule_after, schedule_one,
  policy_kind, schedule_proposal_one, later,
}

abbrev predecessor_of : Contract → ℕ → Option (Option ℕ)
predecessor_of self request_id =
    Option.map (λ request. request.predecessor_id) (get_request self request_id)

abbrev test_execute_too_early_fails : Outcome (Unit {0})
test_execute_too_early_fails = on new_contract (do
  request_id ← schedule_one 0
  promise ← Execute.execute (later dao (start_ts + one_day - 1)) request_id
  return tt)

test_execute_too_early_fails_passes :
    test_execute_too_early_fails ≡ panic "The timelock delay has not passed yet"
unfolding program
test_execute_too_early_fails_passes = refl

abbrev test_execute_after_delay : Outcome (ℕ × Option RequestOutput)
test_execute_after_delay = on new_contract (do
  request_id ← schedule_one 5
  promise ← Execute.execute (later "anyone.near" (start_ts + one_day)) request_id
  self ← get_self
  return (get_num_requests self, get_request self request_id))

test_execute_after_delay_passes : test_execute_after_delay ≡ done (0, none)
unfolding program get_num_requests get_request get_next_request_id get_requests
test_execute_after_delay_passes = refl

abbrev test_execute_twice_fails : Outcome (Unit {0})
test_execute_twice_fails = on new_contract (do
  request_id ← schedule_one 0
  promise ← Execute.execute (later dao (start_ts + one_day)) request_id
  promise ← Execute.execute (later dao (start_ts + one_day)) request_id
  return tt)

test_execute_twice_fails_passes : test_execute_twice_fails ≡ panic "Request not found"
unfolding program
test_execute_twice_fails_passes = refl

abbrev test_execute_proposal_too_early_fails : Outcome (Unit {0})
test_execute_proposal_too_early_fails = on new_contract (do
  request_id ← schedule_proposal_one 7
  promise ← Execute.execute (later dao (start_ts + one_day - 1)) request_id
  return tt)

test_execute_proposal_too_early_fails_passes :
    test_execute_proposal_too_early_fails ≡ panic "The timelock delay has not passed yet"
unfolding program
test_execute_proposal_too_early_fails_passes = refl

abbrev test_execute_proposal_after_delay : Outcome ℕ
test_execute_proposal_after_delay = on new_contract (do
  request_id ← schedule_proposal_one 7
  promise ← Execute.execute (later "anyone.near" (start_ts + one_day)) request_id
  self ← get_self
  return (get_num_requests self))

test_execute_proposal_after_delay_passes : test_execute_proposal_after_delay ≡ done 0
unfolding program get_num_requests get_request get_next_request_id get_requests
test_execute_proposal_after_delay_passes = refl

abbrev test_schedule_with_predecessor : Outcome (Option (Option ℕ) × Option (Option ℕ))
test_schedule_with_predecessor = on new_contract (do
  first_id ← schedule_one 0
  second_id ← schedule_after 0 (some first_id)
  self ← get_self
  return (predecessor_of self first_id, predecessor_of self second_id))

test_schedule_with_predecessor_passes :
    test_schedule_with_predecessor ≡ done (some none, some (some 0))
unfolding program get_num_requests get_request get_next_request_id get_requests
test_schedule_with_predecessor_passes = refl

abbrev test_schedule_unknown_predecessor_fails : Outcome ℕ
test_schedule_unknown_predecessor_fails = on new_contract (schedule_after 0 (some 42))

test_schedule_unknown_predecessor_fails_passes :
    test_schedule_unknown_predecessor_fails ≡ panic "Predecessor request not found"
unfolding program
test_schedule_unknown_predecessor_fails_passes = refl

abbrev test_schedule_executed_predecessor_fails : Outcome ℕ
test_schedule_executed_predecessor_fails = on new_contract (do
  first_id ← schedule_one 0
  promise ← Execute.execute (later dao (start_ts + one_day)) first_id
  schedule_after 0 (some first_id))

test_schedule_executed_predecessor_fails_passes :
    test_schedule_executed_predecessor_fails ≡ panic "Predecessor request not found"
unfolding program
test_schedule_executed_predecessor_fails_passes = refl

abbrev test_schedule_with_proposal_predecessor : Outcome (Option (Option ℕ))
test_schedule_with_proposal_predecessor = on new_contract (do
  proposal_id ← schedule_proposal_one 7
  request_id ← schedule_after 0 (some proposal_id)
  self ← get_self
  return (predecessor_of self request_id))

test_schedule_with_proposal_predecessor_passes :
    test_schedule_with_proposal_predecessor ≡ done (some (some 0))
unfolding program get_num_requests get_request get_next_request_id get_requests
test_schedule_with_proposal_predecessor_passes = refl

abbrev test_execute_blocked_by_pending_predecessor : Outcome (Unit {0})
test_execute_blocked_by_pending_predecessor = on new_contract (do
  first_id ← schedule_one 0
  second_id ← schedule_after 0 (some first_id)
  promise ← Execute.execute (later dao (start_ts + one_day)) second_id
  return tt)

test_execute_blocked_by_pending_predecessor_passes :
    test_execute_blocked_by_pending_predecessor ≡ panic "Predecessor request is still pending"
unfolding program
test_execute_blocked_by_pending_predecessor_passes = refl

abbrev test_execute_after_predecessor_executed : Outcome ℕ
test_execute_after_predecessor_executed = on new_contract (do
  first_id ← schedule_one 0
  second_id ← schedule_after 0 (some first_id)
  promise ← Execute.execute (later dao (start_ts + one_day)) first_id
  promise ← Execute.execute (later dao (start_ts + one_day)) second_id
  self ← get_self
  return (get_num_requests self))

test_execute_after_predecessor_executed_passes : test_execute_after_predecessor_executed ≡ done 0
unfolding program get_num_requests get_request get_next_request_id get_requests
test_execute_after_predecessor_executed_passes = refl

abbrev test_execute_after_predecessor_cancelled : Outcome ℕ
test_execute_after_predecessor_cancelled = on new_contract (do
  first_id ← schedule_one 0
  second_id ← schedule_after 0 (some first_id)
  Execute.cancel (context guardian) first_id
  promise ← Execute.execute (later dao (start_ts + one_day)) second_id
  self ← get_self
  return (get_num_requests self))

test_execute_after_predecessor_cancelled_passes : test_execute_after_predecessor_cancelled ≡ done 0
unfolding program get_num_requests get_request get_next_request_id get_requests
test_execute_after_predecessor_cancelled_passes = refl

abbrev test_schedule_proposal_with_predecessor : Outcome (Option (Option ℕ))
test_schedule_proposal_with_predecessor = on new_contract (do
  first_id ← schedule_one 0
  proposal_id ←
      Schedule.schedule_proposal (context dao) "change the policy" policy_kind dao 0 (30 * 10 ^ 12)
        (100 * 10 ^ 12) (some first_id)
  self ← get_self
  return (predecessor_of self proposal_id))

test_schedule_proposal_with_predecessor_passes :
    test_schedule_proposal_with_predecessor ≡ done (some (some 0))
unfolding program get_num_requests get_request get_next_request_id get_requests
test_schedule_proposal_with_predecessor_passes = refl

abbrev test_cancel_by_guardian : Outcome ℕ
test_cancel_by_guardian = on new_contract (do
  request_id ← schedule_one 5
  Execute.cancel (context guardian) request_id
  self ← get_self
  return (get_num_requests self))

test_cancel_by_guardian_passes : test_cancel_by_guardian ≡ done 0
unfolding program get_num_requests get_request get_next_request_id get_requests
test_cancel_by_guardian_passes = refl

abbrev test_cancel_by_other_fails : Outcome (Unit {0})
test_cancel_by_other_fails =
    on new_contract
      (do request_id ← schedule_one 0; Execute.cancel (context "anyone.near") request_id)

test_cancel_by_other_fails_passes :
    test_cancel_by_other_fails ≡ panic "Only a guardian can cancel requests"
unfolding program
test_cancel_by_other_fails_passes = refl

abbrev test_cancel_proposal_by_guardian : Outcome ℕ
test_cancel_proposal_by_guardian = on new_contract (do
  request_id ← schedule_proposal_one 7
  Execute.cancel (context guardian) request_id
  self ← get_self
  return (get_num_requests self))

test_cancel_proposal_by_guardian_passes : test_cancel_proposal_by_guardian ≡ done 0
unfolding program get_num_requests get_request get_next_request_id get_requests
test_cancel_proposal_by_guardian_passes = refl
