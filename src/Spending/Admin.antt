-- ===== src/Spending/Admin.antt =====
-- The role setters of spending-account/src/admin.rs.
use hos_treasury.Common.{String}
use hos_treasury.Near.{Context, ◌>>=◌, ◌>>◌, get_self, put_self}
use hos_treasury.Spending.Types.{Sdk}
use hos_treasury.Spending.Contract.{Method, assert_admin}

module _ ⦃sdk : Sdk⦄ where
  unfoldable pub set_spender : Context → String → Method (Unit {0})
  unfolding assert_admin
  set_spender ctx spender_id = do
    assert_admin ctx
    self ← get_self
    put_self (record self { spender_id = spender_id })

  unfoldable pub set_manager : Context → String → Method (Unit {0})
  unfolding assert_admin
  set_manager ctx manager_id = do
    assert_admin ctx
    self ← get_self
    put_self (record self { manager_id = manager_id })

  unfoldable pub set_admin : Context → String → Method (Unit {0})
  unfolding assert_admin
  set_admin ctx admin_id = do
    assert_admin ctx
    self ← get_self
    put_self (record self { admin_id = admin_id })
