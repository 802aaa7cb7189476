-- ===== src/Timelock/UnitTests/Setters.antt =====
-- The tests of the constructor with the views, and of the setters.
use hos_treasury.Common.{ℕ, ◌*◌, ◌+◌, ◌≡◌, refl, String, Bool, true, false, List, [], ◌∷◌, length}
use hos_treasury.Near.Assoc.{has}
use hos_treasury.Spending.Keys.{String-discrete}
use hos_treasury.Near.{Outcome, done, panic, ◌>>=◌, ◌>>◌, return, get_self}
use hos_treasury.Timelock.Requests.{max_delay_ns}
use hos_treasury.Timelock.Contract.{new}
use hos_treasury.Timelock.Admin
use hos_treasury.Timelock.Views.{
  get_dao, get_guardians, get_delay, get_num_requests, get_next_request_id, get_request,
  get_requests,
}
use hos_treasury.Timelock.Views
use hos_treasury.Timelock.Samples.{sample, program}
use hos_treasury.Timelock.UnitTests.{
  one_day, dao, timelock, admin, guardian, context, new_contract, on,
}

abbrev test_init_and_views : Outcome (String × String × List String × ℕ × ℕ × ℕ)
test_init_and_views = on new_contract (do
  self ← get_self
  return (
    get_dao self,
    Views.get_admin self,
    get_guardians self,
    get_delay self,
    get_num_requests self,
    get_next_request_id self,
  ))

test_init_and_views_passes : test_init_and_views ≡ done (dao, admin, guardian ∷ [], one_day, 0, 0)
unfolding program get_dao get_guardians get_delay get_num_requests get_next_request_id
    Views.get_admin
test_init_and_views_passes = refl

abbrev test_set_dao_by_admin : Outcome String
test_set_dao_by_admin =
    on new_contract
      (do Admin.set_dao (context admin) "dao2.near"; self ← get_self; return (get_dao self))

test_set_dao_by_admin_passes : test_set_dao_by_admin ≡ done "dao2.near"
unfolding program get_dao get_guardians get_delay get_num_requests get_next_request_id
    Views.get_admin
test_set_dao_by_admin_passes = refl

abbrev test_set_admin_by_admin : Outcome String
test_set_admin_by_admin = on new_contract (do
  Admin.set_admin (context admin) "admin2.near"
  self ← get_self
  return (Views.get_admin self))

test_set_admin_by_admin_passes : test_set_admin_by_admin ≡ done "admin2.near"
unfolding program get_dao get_guardians get_delay get_num_requests get_next_request_id
    Views.get_admin
test_set_admin_by_admin_passes = refl

abbrev test_set_admin_by_old_admin_fails : Outcome (Unit {0})
test_set_admin_by_old_admin_fails =
    on new_contract
      (do Admin.set_admin (context admin) "admin2.near"; Admin.set_admin (context admin) admin)

test_set_admin_by_old_admin_fails_passes :
    test_set_admin_by_old_admin_fails ≡ panic "Only the admin can call this method"
unfolding program
test_set_admin_by_old_admin_fails_passes = refl

abbrev test_set_guardians_by_admin : Outcome (ℕ × Bool × Bool × Bool)
test_set_guardians_by_admin = on new_contract (do
  Admin.set_guardians (context admin) ("guardian2.near" ∷ "guardian3.near" ∷ [])
  self ← get_self
  return (
    length (get_guardians self),
    has String-discrete (get_guardians self) "guardian2.near",
    has String-discrete (get_guardians self) "guardian3.near",
    has String-discrete (get_guardians self) guardian,
  ))

test_set_guardians_by_admin_passes : test_set_guardians_by_admin ≡ done (2, true, true, false)
unfolding program get_dao get_guardians get_delay get_num_requests get_next_request_id
    Views.get_admin
test_set_guardians_by_admin_passes = refl

abbrev test_set_delay_by_admin : Outcome ℕ
test_set_delay_by_admin =
    on new_contract
      (do Admin.set_delay (context admin) (2 * one_day); self ← get_self; return (get_delay self))

test_set_delay_by_admin_passes : test_set_delay_by_admin ≡ done (2 * one_day)
unfolding program get_dao get_guardians get_delay get_num_requests get_next_request_id
    Views.get_admin
test_set_delay_by_admin_passes = refl

abbrev test_set_delay_by_dao_fails : Outcome (Unit {0})
test_set_delay_by_dao_fails = on new_contract (Admin.set_delay (context dao) (2 * one_day))

test_set_delay_by_dao_fails_passes :
    test_set_delay_by_dao_fails ≡ panic "Only the admin can call this method"
unfolding program
test_set_delay_by_dao_fails_passes = refl

abbrev test_set_dao_by_self_fails : Outcome (Unit {0})
test_set_dao_by_self_fails = on new_contract (Admin.set_dao (context timelock) "dao2.near")

test_set_dao_by_self_fails_passes :
    test_set_dao_by_self_fails ≡ panic "Only the admin can call this method"
unfolding program
test_set_dao_by_self_fails_passes = refl

abbrev test_setters_by_self_when_self_admin : Outcome ℕ
test_setters_by_self_when_self_admin =
    on (new dao timelock (guardian ∷ []) one_day) (do
      Admin.set_delay (context timelock) (2 * one_day)
      self ← get_self
      return (get_delay self))

test_setters_by_self_when_self_admin_passes :
    test_setters_by_self_when_self_admin ≡ done (2 * one_day)
unfolding program get_dao get_guardians get_delay get_num_requests get_next_request_id
    Views.get_admin
test_setters_by_self_when_self_admin_passes = refl

abbrev test_set_delay_too_large_fails : Outcome (Unit {0})
test_set_delay_too_large_fails =
    on new_contract (Admin.set_delay (context admin) (max_delay_ns + 1))

test_set_delay_too_large_fails_passes :
    test_set_delay_too_large_fails ≡ panic "Delay exceeds the maximum"
unfolding program
test_set_delay_too_large_fails_passes = refl
