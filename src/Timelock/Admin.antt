-- ===== src/Timelock/Admin.antt =====
-- The configuration setters of dao-timelock/src/admin.rs.
pub mod Guardians
use hos_treasury.Common.{ℕ, String, List, str_eq, leb}
use hos_treasury.Near.{Context, ◌>>=◌, ◌>>◌, get_self, put_self, require}
use hos_treasury.Timelock.Types.{Sdk}
use hos_treasury.Timelock.Requests.{max_delay_ns}
use hos_treasury.Timelock.Contract.{Method, insert_all}

module _ ⦃sdk : Sdk⦄ where
  open sdk use {guardian_set}

  unfoldable pub assert_admin : Context → Method (Unit {0})
  assert_admin ctx = do
    self ← get_self
    require (str_eq ctx.predecessor_account_id self.admin_id) "Only the admin can call this method"

  unfoldable pub set_dao : Context → String → Method (Unit {0})
  unfolding assert_admin
  set_dao ctx dao_id = do
    assert_admin ctx
    self ← get_self
    put_self (record self { dao_id = dao_id })

  unfoldable pub set_admin : Context → String → Method (Unit {0})
  unfolding assert_admin
  set_admin ctx admin_id = do
    assert_admin ctx
    self ← get_self
    put_self (record self { admin_id = admin_id })

  unfoldable pub set_guardians : Context → List String → Method (Unit {0})
  unfolding assert_admin
  set_guardians ctx guardians = do
    assert_admin ctx
    self ← get_self
    put_self (record self { guardians = insert_all (guardian_set.clear self.guardians) guardians })

  unfoldable pub set_delay : Context → ℕ → Method (Unit {0})
  unfolding assert_admin
  set_delay ctx delay_ns = do
    assert_admin ctx
    require (leb delay_ns max_delay_ns) "Delay exceeds the maximum"
    self ← get_self
    put_self (record self { delay_ns = delay_ns })
