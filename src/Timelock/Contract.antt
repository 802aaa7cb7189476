-- ===== src/Timelock/Contract.antt =====
-- The state of dao-timelock/src/lib.rs, its constructor, its checks and the insertion of a request.
use hos_treasury.Common.{
  ℕ, String, Option, none, some, List, [], ◌∷◌, str_eq, leb, if◌then◌else◌, u64_max, checked_add,
}
use hos_treasury.Near.{
  Context, Outcome, done, panic, Action, ◌>>=◌, ◌>>◌, return, get_self, put_self, require, expect,
}
use hos_treasury.Timelock.Types.{Request, Callback, Sdk}
use hos_treasury.Timelock.Requests.{max_delay_ns}

module _ ⦃sdk : Sdk⦄ where
  open sdk use {guardian_set, request_map}

  pub record Contract : Type 0 where
    pub dao_id : String
    pub admin_id : String
    pub guardians : guardian_set.Set
    pub delay_ns : ℕ
    pub next_request_id : ℕ
    pub requests : request_map.Map

  abbrev pub Method : Type 0 → Type 0
  Method A = Action Contract Callback A

  -- `for guardian in guardians { set.insert(guardian) }`
  unfoldable pub insert_all : guardian_set.Set → List String → guardian_set.Set
  insert_all set [] = set
  insert_all set (guardian ∷ guardians) = insert_all (guardian_set.insert set guardian) guardians

  unfoldable pub new : String → String → List String → ℕ → Outcome Contract
  unfolding insert_all
  new dao_id admin_id guardians delay_ns =
      if leb delay_ns max_delay_ns
      then done (record {
        dao_id = dao_id;
        admin_id = admin_id;
        guardians = insert_all guardian_set.new guardians;
        delay_ns = delay_ns;
        next_request_id = 0;
        requests = request_map.new;
      })
      else panic "Delay exceeds the maximum"

  unfoldable pub assert_dao : Context → Method (Unit {0})
  assert_dao ctx = do
    self ← get_self
    require (str_eq ctx.predecessor_account_id self.dao_id) "Only the DAO can schedule requests"

  unfoldable pub assert_predecessor : Option ℕ → Method (Unit {0})
  assert_predecessor none = return tt
  assert_predecessor (some predecessor_id) = do
    self ← get_self
    require (request_map.contains_key self.requests predecessor_id) "Predecessor request not found"

  -- The release profile checks for overflow, so `next_request_id += 1` may panic.
  unfoldable pub insert_request : Request → Method ℕ
  insert_request request = do
    self ← get_self
    let request_id = self.next_request_id
    next ← expect (checked_add u64_max request_id 1) "attempt to add with overflow"
    put_self (record self {
      next_request_id = next;
      requests = request_map.insert self.requests request_id request;
    })
    return request_id
