-- ===== src/Timelock/Tests.antt =====
-- The timelock at concrete inputs, and each property where its hypotheses hold.
use hos_treasury.Common.{◌≡◌, refl, arith, none, [], ◌∷◌}
use hos_treasury.Near.{panic}
use hos_treasury.Timelock.Schedule
use hos_treasury.Timelock.Execute
use hos_treasury.Timelock.Calls.{Call}
use hos_treasury.Timelock.Queue.{Timeline, Reach, start, next, call, begin}
use hos_treasury.Timelock.Queue.Once.{IsOnce, Reach-IsOnce}
use hos_treasury.Timelock.Queue.Delay.{IsPunctual, Reach-IsPunctual}
use hos_treasury.Timelock.Queue.Escrow.{IsEscrow, Reach-IsEscrow}
use hos_treasury.Timelock.Queue.Order.{IsOrdered, Reach-IsOrdered}
use hos_treasury.Timelock.Queue.Draining.{IsDue, Empties, queue_drains}
use hos_treasury.Timelock.Samples.{
  sample, program, fresh, at, actions, first_call, second_call, t1, t2, t3, t4, t5, t6,
}

both_scheduled : Reach t2
unfolding program
both_scheduled =
    let r1 : Reach t1 =
      next (start "dao.near" "admin.near" ("guardian.near" ∷ []) 100 fresh refl)
        (call (at 10 "dao.near" 7) first_call _ _ (omega arith) refl) in
    next r1 (call (at 20 "dao.near" 7) second_call _ _ (omega arith) refl)

life : Reach t6
unfolding program
life =
    let r3 : Reach t3 =
      next both_scheduled (call (at 110 "anyone.near" 0) (Call.execute 0) _ _ (omega arith) refl) in
    let r4 : Reach t4 =
      next r3 (call (at 120 "anyone.near" 0) (Call.execute 1) _ _ (omega arith) refl) in
    let r5 : Reach t5 = next r4 (call (at 130 "dao.near" 7) first_call _ _ (omega arith) refl) in
    next r5 (call (at 140 "guardian.near" 0) (Call.cancel 2) _ _ (omega arith) refl)

totals : (t6.received ≡ 21) × (t6.released ≡ 21) × (t6.contract.next_request_id ≡ 3)
unfolding program
totals = (refl, refl, refl)

too_early :
    Execute.execute (at 109 "anyone.near" 0) 0 (begin t2.contract)
    ≡ panic "The timelock delay has not passed yet"
unfolding program
too_early = refl

out_of_order :
    Execute.execute (at 200 "anyone.near" 0) 1 (begin t2.contract)
    ≡ panic "Predecessor request is still pending"
unfolding program
out_of_order = refl

no_guardian :
    Execute.cancel (at 20 "dao.near" 0) 0 (begin t1.contract)
    ≡ panic "Only a guardian can cancel requests"
unfolding program
no_guardian = refl

wrong_deposit :
    Schedule.schedule (at 10 "dao.near" 6) "account.near" actions none (begin fresh)
    ≡ panic "Attached deposit must equal the total deposit of all actions"
unfolding program
wrong_deposit = refl

Reach-IsOnce_example : IsOnce t6
Reach-IsOnce_example = Reach-IsOnce t6 life

Reach-IsPunctual_example : IsPunctual t6
Reach-IsPunctual_example = Reach-IsPunctual t6 life

Reach-IsEscrow_example : IsEscrow t6
Reach-IsEscrow_example = Reach-IsEscrow t6 life

Reach-IsOrdered_example : IsOrdered t6
Reach-IsOrdered_example = Reach-IsOrdered t6 life

all-IsDue : IsDue 200 t2.contract
unfolding program
all-IsDue id r h = ground arith

queue_drains_example : (u : Timeline) × Empties (at 200 "anyone.near" 0) t2 u
queue_drains_example = queue_drains (at 200 "anyone.near" 0) t2 both_scheduled refl all-IsDue
