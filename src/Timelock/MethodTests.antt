-- ===== src/Timelock/MethodTests.antt =====
-- The timelock's methods, each property of them at a concrete input.
use hos_treasury.Common.{ℕ, ◌-◌, ◌≡◌, ◌↔◌, ◌≤◌, ◌*◌, ◌^◌, refl, arith, none, some, [], ◌∷◌}
use mathlib.Core.List.{Memᴰ}
use hos_treasury.Common.{List, String, ◌++◌, ◌+◌, length, min}
use hos_treasury.Timelock.Types.{RequestOutput}
use hos_treasury.Timelock.Requests.{max_delay_ns}
use hos_treasury.Timelock.Contract.{Contract, new}
use hos_treasury.Timelock.Views.{get_requests, get_request, get_num_requests}
use hos_treasury.Timelock.Views.Pages.{requests_join, requests_complete}
use hos_treasury.Timelock.Admin.Guardians.{IsGuardian, new_iff, set_guardians_iff}
use hos_treasury.Near.{Context, Promise, done, ok, err}
use hos_treasury.Timelock.Types.{Request}
use hos_treasury.Timelock.Requests.{total_gas, max_execution_gas}
use hos_treasury.Timelock.Requests.Totals.{exact_gas, gas_check_iff}
use hos_treasury.Timelock.Schedule
use hos_treasury.Timelock.Execute
use hos_treasury.Timelock.Admin
use hos_treasury.Timelock.Events
use hos_treasury.Timelock.Scheduling.{
  W, plain, Schedules, Proposes, after_event, schedule_iff, schedule_proposal_iff,
}
use hos_treasury.Timelock.Leaving.{
  Executes, Cancels, execution_of, execute_iff, cancel_iff, vote_bytes, on_proposal_added_returns,
}
use hos_treasury.Timelock.Proposals.{proposing, voting, respond, proposal_voted}
use hos_treasury.Timelock.Calls.{Call, nothing}
use hos_treasury.Timelock.Calls.Authority.{IsPermitted, Confined, invoke-Permitted}
use hos_treasury.Timelock.Queue.{begin}
use hos_treasury.Timelock.Samples.{sample, program, fresh, at, actions, world_of}

abbrev admin_call : Context
admin_call = at 0 "admin.near" 0

abbrev slower : W
slower = world_of (Admin.set_delay admin_call 200 (begin fresh))

invoke-Permitted_example :
    IsPermitted admin_call fresh (Call.set_delay 200)
    × Confined (Call.set_delay 200) fresh slower.state
unfolding program
invoke-Permitted_example =
    invoke-Permitted admin_call (Call.set_delay 200) (begin fresh) slower nothing refl

abbrev scheduled : W
scheduled =
    world_of (Schedule.schedule (at 10 "dao.near" 7) "account.near" actions none (begin fresh))

schedule_iff_example :
    (Schedule.schedule (at 10 "dao.near" 7) "account.near" actions none (begin fresh)
      ≡ done (0, scheduled))
    ↔ Schedules (at 10 "dao.near" 7) "account.near" actions none (begin fresh) scheduled 0
schedule_iff_example =
    schedule_iff (at 10 "dao.near" 7) "account.near" actions none (begin fresh) scheduled 0

abbrev dao_call : Context
dao_call = at 10 "dao.near" 5

abbrev proposed : W
proposed =
    world_of (
      Schedule.schedule_proposal dao_call "pay" "kind" "sputnik.near" 5 1000 2000 none
        (begin fresh))

schedule_proposal_iff_example :
    (Schedule.schedule_proposal dao_call "pay" "kind" "sputnik.near" 5 1000 2000 none (begin fresh)
      ≡ done (0, proposed))
    ↔ Proposes dao_call "pay" "kind" "sputnik.near" 5 1000 2000 none (begin fresh) proposed 0
schedule_proposal_iff_example =
    schedule_proposal_iff dao_call "pay" "kind" "sputnik.near" 5 1000 2000 none (begin fresh)
      proposed 0

abbrev runner : Context
runner = at 110 "anyone.near" 0

abbrev account_request : Request
account_request = plain (at 10 "dao.near" 7) "account.near" actions none fresh

abbrev executed : W
executed = world_of (Execute.execute runner 0 scheduled)

execute_iff_example :
    (Execute.execute runner 0 scheduled ≡ done (execution_of runner 0 account_request, executed))
    ↔ ((r : Request) × Executes runner 0 scheduled executed
          (execution_of runner 0 account_request)
          r)
execute_iff_example =
    execute_iff runner 0 scheduled executed (execution_of runner 0 account_request)

abbrev guardian_call : Context
guardian_call = at 20 "guardian.near" 0

abbrev cancelled : W
cancelled = world_of (Execute.cancel guardian_call 0 scheduled)

cancel_iff_example :
    (Execute.cancel guardian_call 0 scheduled ≡ done (tt, cancelled))
    ↔ ((r : Request) × Cancels guardian_call 0 scheduled cancelled r)
cancel_iff_example = cancel_iff guardian_call 0 scheduled cancelled

on_proposal_added_returns_example :
    (Execute.on_proposal_added 0 "sputnik.near" "dao.near" 5 "kind" 2000 (ok 9) proposed
      ≡ done (
        some (
            Promise.function_call
              (Promise.new "sputnik.near")
              "act_proposal"
              (vote_bytes 9 "kind")
              0
              2000),
        after_event proposed proposed.state "approve_proposal"
            (Events.approve_proposal_payload 0 9),
      ))
    × (Execute.on_proposal_added 0 "sputnik.near" "dao.near" 5 "kind" 2000 (err "failed") proposed
        ≡ done (
          some (Promise.transfer (Promise.new "dao.near") 5),
          after_event proposed proposed.state "proposal_failed"
              (Events.proposal_failed_payload 0 "dao.near" 5),
        ))
on_proposal_added_returns_example =
    on_proposal_added_returns 0 "sputnik.near" "dao.near" 5 2000 "kind" proposed 9 "failed" refl

abbrev added : W
added = world_of (Execute.execute runner 0 proposed)

proposal_voted_example :
    (proposing dao_call "pay" "kind" "sputnik.near" 5 1000 2000 none 0 runner
      ≡ proposing dao_call "pay" "kind" "sputnik.near" 5 1000 2000 none 0 runner)
    × (respond (voting dao_call "pay" "kind" "sputnik.near" 5 1000 2000 none 0) (ok 9) added
        ≡ done (
          some (
              Promise.function_call
                (Promise.new "sputnik.near")
                "act_proposal"
                (vote_bytes 9 "kind")
                0
                2000),
          after_event added added.state "approve_proposal" (Events.approve_proposal_payload 0 9),
        ))
    × (respond (voting dao_call "pay" "kind" "sputnik.near" 5 1000 2000 none 0) (err "failed") added
        ≡ done (
          some (Promise.transfer (Promise.new "dao.near") 5),
          after_event added added.state "proposal_failed"
              (Events.proposal_failed_payload 0 "dao.near" 5),
        ))
unfolding program
proposal_voted_example =
    proposal_voted dao_call "pay" "kind" "sputnik.near" 5 1000 2000 none 0 runner (begin fresh)
      proposed proposed added added
      (proposing dao_call "pay" "kind" "sputnik.near" 5 1000 2000 none 0 runner) 9 "failed"
      (omega arith) refl refl refl refl

abbrev dear_request : Request
dear_request = record account_request {
  actions = record { method_name = "burn"; args = []; deposit = 0; gas = 274 * 10 ^ 12 } ∷ [];
}

gas_check_iff_example :
    ((g : ℕ) × (total_gas dear_request ≡ some g) × (g ≤ max_execution_gas))
    ↔ (exact_gas dear_request ≤ 280 * 10 ^ 12)
gas_check_iff_example = gas_check_iff dear_request

requests_join_example :
    (xs : List RequestOutput) × (ys : List RequestOutput) × (zs : List RequestOutput)
    × (get_requests (some 0) (some 1) scheduled ≡ done (xs, scheduled))
    × (get_requests (some (0 + 1)) (some 1) scheduled ≡ done (ys, scheduled))
    × (get_requests (some 0) (some (1 + 1)) scheduled ≡ done (zs, scheduled))
    × (xs ++ ys ≡ zs)
    × (length zs ≡ min (1 + 1) (get_num_requests scheduled.state - 0))
    × ((o : RequestOutput) → Memᴰ o zs → get_request scheduled.state o.request_id ≡ some o)
requests_join_example = requests_join 0 1 1 scheduled (omega arith) (omega arith)

requests_complete_example :
    (os : List RequestOutput) × (get_requests none none scheduled ≡ done (os, scheduled))
    × (length os ≡ get_num_requests scheduled.state)
    × ((o : RequestOutput) → Memᴰ o os ↔ (get_request scheduled.state o.request_id ≡ some o))
unfolding program get_num_requests
requests_complete_example = requests_complete scheduled (omega arith)

new_iff_example :
    ((100 ≤ max_delay_ns)
      ↔ ((self : Contract) × (new "dao.near" "admin.near" ("guardian.near" ∷ []) 100 ≡ done self)))
    × ((self : Contract)
        → new "dao.near" "admin.near" ("guardian.near" ∷ []) 100 ≡ done self
        → (self.dao_id ≡ "dao.near")
          × (self.admin_id ≡ "admin.near")
          × (self.delay_ns ≡ 100)
          × (self.next_request_id ≡ 0)
          × (self.requests ≡ fresh.requests)
          × ((j : String) → IsGuardian self j ↔ Memᴰ j ("guardian.near" ∷ [])))
new_iff_example = new_iff "dao.near" "admin.near" ("guardian.near" ∷ []) 100

set_guardians_iff_example :
    ((admin_call.predecessor_account_id ≡ fresh.admin_id) ↔ (
      (w' : W) × (Admin.set_guardians admin_call ("new.near" ∷ []) (begin fresh) ≡ done (tt, w'))))
    × ((w' : W)
        → Admin.set_guardians admin_call ("new.near" ∷ []) (begin fresh) ≡ done (tt, w')
        → (w' ≡ record (begin fresh) { state = record fresh { guardians = w'.state.guardians } })
          × ((j : String) → IsGuardian w'.state j ↔ Memᴰ j ("new.near" ∷ [])))
set_guardians_iff_example = set_guardians_iff admin_call ("new.near" ∷ []) (begin fresh)
