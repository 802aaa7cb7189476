-- ===== src/Spending/Contract.antt =====
-- The state of spending-account/src/lib.rs, its constructor and its views, and the two role checks
-- of spending-account/src/admin.rs.
use hos_treasury.Common.{String, str_eq}
use hos_treasury.Near.{Context, Action, ◌>>=◌, get_self, require}
use hos_treasury.Spending.Types.{Sdk, Callback}

module _ ⦃sdk : Sdk⦄ where
  pub record Contract : Type 0 where
    pub spender_id : String
    pub manager_id : String
    pub admin_id : String
    pub whitelist : sdk.whitelist_map.Map

  abbrev pub Method : Type 0 → Type 0
  Method A = Action Contract Callback A

  unfoldable pub new : String → String → String → Contract
  new admin_id manager_id spender_id = record {
    spender_id = spender_id;
    manager_id = manager_id;
    admin_id = admin_id;
    whitelist = sdk.whitelist_map.new;
  }

  unfoldable pub get_spender : Contract → String
  get_spender self = self.spender_id

  unfoldable pub get_manager : Contract → String
  get_manager self = self.manager_id

  unfoldable pub get_admin : Contract → String
  get_admin self = self.admin_id

  unfoldable pub assert_admin : Context → Method (Unit {0})
  assert_admin ctx = do
    self ← get_self
    require (str_eq ctx.predecessor_account_id self.admin_id) "Only the admin can call this method"

  unfoldable pub assert_manager : Context → Method (Unit {0})
  assert_manager ctx = do
    self ← get_self
    require (str_eq ctx.predecessor_account_id self.manager_id)
        "Only the manager can call this method"
