-- ===== src/Spending/UnitTests/Roles.antt =====
-- The tests of the role setters.
use hos_treasury.Common.{◌≡◌, refl, String}
use hos_treasury.Near.{Outcome, done, panic, ◌>>=◌, ◌>>◌, return, get_self}
use hos_treasury.Spending.Contract.{get_spender, get_manager, get_admin}
use hos_treasury.Spending.Admin.{set_spender, set_manager, set_admin}
use hos_treasury.Spending.Samples.{sample, program}
use hos_treasury.Spending.UnitTests.{admin, manager, spender, context, on_new}

abbrev test_set_roles : Outcome (String × String × String)
test_set_roles = on_new (do
  set_spender (context admin) "spender2.near"
  set_manager (context admin) "manager2.near"
  set_admin (context admin) "admin2.near"
  self ← get_self
  return (get_spender self, get_manager self, get_admin self))

test_set_roles_passes : test_set_roles ≡ done ("spender2.near", "manager2.near", "admin2.near")
unfolding program get_spender get_manager get_admin set_spender set_manager set_admin
test_set_roles_passes = refl

abbrev test_old_admin_fails : Outcome (Unit {0})
test_old_admin_fails =
    on_new (do set_admin (context admin) "admin2.near"; set_spender (context admin) spender)

test_old_admin_fails_passes : test_old_admin_fails ≡ panic "Only the admin can call this method"
unfolding program get_spender get_manager get_admin set_spender set_manager set_admin
test_old_admin_fails_passes = refl

abbrev test_set_spender_by_spender_fails : Outcome (Unit {0})
test_set_spender_by_spender_fails = on_new (set_spender (context spender) spender)

test_set_spender_by_spender_fails_passes :
    test_set_spender_by_spender_fails ≡ panic "Only the admin can call this method"
unfolding program get_spender get_manager get_admin set_spender set_manager set_admin
test_set_spender_by_spender_fails_passes = refl

abbrev test_set_roles_by_manager_fails : Outcome (Unit {0})
test_set_roles_by_manager_fails = on_new (set_admin (context manager) manager)

test_set_roles_by_manager_fails_passes :
    test_set_roles_by_manager_fails ≡ panic "Only the admin can call this method"
unfolding program get_spender get_manager get_admin set_spender set_manager set_admin
test_set_roles_by_manager_fails_passes = refl
