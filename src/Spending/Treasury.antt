-- ===== src/Spending/Treasury.antt =====
-- The spending account over its life: calls and the callbacks of earlier transfers arrive in any
-- order, and the payments that they are behind succeed or fail in any way. A panic undoes its call,
-- so it is no step.
pub mod Allowance
pub mod Sound
pub mod Money
use mathlib.Core.Logic.{ite}
use hos_treasury.Common.{ℕ, ◌+◌, ◌-◌, ◌≡◌, String, Option, none, some, List, [], ◌∷◌, ◌++◌, sum_by}
use hos_treasury.Near.{Context, Promise, World, done, CallResult, ok, err}
use hos_treasury.Spending.Types.{WhitelistKey, Callback, Sdk}
use hos_treasury.Spending.Contract.{Contract, new}
use hos_treasury.Spending.Keys.{key_dec, allowance}
use hos_treasury.Spending.Calls.{Call, Role, admin, manager, spender, role, InRange, invoke, resume}
use hos_treasury.Spending.Whitelist.Rounds.{W}

-- The key and the amount of the transfer that a callback is behind.
abbrev pub callback_key : Callback → WhitelistKey
callback_key (Callback.on_transfer receiver_id amount) = (receiver_id, none)
callback_key (Callback.on_transfer_ft receiver_id token_id amount) = (receiver_id, some token_id)

abbrev pub callback_amount : Callback → ℕ
callback_amount (Callback.on_transfer receiver_id amount) = amount
callback_amount (Callback.on_transfer_ft receiver_id token_id amount) = amount

-- What a transfer takes from a key.
abbrev pub charge : WhitelistKey → Callback → ℕ
charge key cb = ite (key_dec key (callback_key cb)) (callback_amount cb) 0

-- What transfers take from a key, together.
abbrev pub charged : WhitelistKey → List Callback → ℕ
charged key = sum_by (charge key)

-- The callback that a returned promise ends in.
abbrev pub awaited : Option (Promise Callback) → List Callback
awaited (some (Promise.and_then p (Promise.ext account gas cb))) = cb ∷ []
awaited _ = []

-- The payments that succeeded, with this one if it did.
abbrev pub settle : Callback → CallResult (Unit {0}) → List Callback → List Callback
settle cb (ok _) paid = cb ∷ paid
settle cb (err _) paid = paid

-- The payments that failed, with this one if it did.
abbrev pub settle_failed : Callback → CallResult (Unit {0}) → List Callback → List Callback
settle_failed cb (ok _) failed = failed
settle_failed cb (err _) failed = cb ∷ failed

-- The promise of a call, if it returned one.
abbrev pub returned : Option (Promise Callback) → List (Promise Callback)
returned none = []
returned (some p) = p ∷ []

module _ ⦃sdk : Sdk⦄ where
  -- The contract with its history: the transfers under way, those paid and those failed, the
  -- promises that calls returned, and the contract before and after each of the manager's calls.
  pub record Treasury : Type 0 where
    pub contract : Contract
    pub in_flight : List Callback
    pub paid : List Callback
    pub failed : List Callback
    pub sent : List (Promise Callback)
    pub managed : List (Contract × Contract)

  -- A call begins with no log and no promise.
  abbrev pub begin : Contract → W
  begin self = record { state = self; logs = []; promises = [] }

  abbrev pub note :
      Role → Contract × Contract → List (Contract × Contract) → List (Contract × Contract)
  note admin change managed = managed
  note manager change managed = change ∷ managed
  note spender change managed = managed

  abbrev pub after_call : Treasury → Call → Option (Promise Callback) → Contract → Treasury
  after_call t c p self = record {
    contract = self;
    in_flight = awaited p ++ t.in_flight;
    paid = t.paid;
    failed = t.failed;
    sent = returned p ++ t.sent;
    managed = note (role c) (t.contract, self) t.managed;
  }

  pub data Step (account : String) (t : Treasury) : Treasury → Type 0 where
    -- a call that goes through
    call :
        (ctx : Context) (c : Call) (p : Option (Promise Callback)) (w : W)
        → ctx.current_account_id ≡ account
        → InRange c
        → invoke ctx c (begin t.contract) ≡ done (p, w)
        → Step account t (after_call t c p w.state)
    -- the callback of a transfer under way, which only the account itself may call
    callback :
        (before after : List Callback) (cb : Callback) (result : CallResult (Unit {0})) (w : W)
        → t.in_flight ≡ before ++ cb ∷ after
        → resume cb result (begin t.contract) ≡ done (tt, w)
        → Step account t (record {
          contract = w.state;
          in_flight = before ++ after;
          paid = settle cb result t.paid;
          failed = settle_failed cb result t.failed;
          sent = t.sent;
          managed = t.managed;
        })

  abbrev pub opened : String → String → String → Treasury
  opened admin_id manager_id spender_id = record {
    contract = new admin_id manager_id spender_id;
    in_flight = [];
    paid = [];
    failed = [];
    sent = [];
    managed = [];
  }

  -- The treasuries that an account may come to, from its constructor on.
  pub data Reach (account admin_id manager_id spender_id : String) : Treasury → Type 0 where
    start : Reach account admin_id manager_id spender_id (opened admin_id manager_id spender_id)
    next :
        {t u : Treasury}
        → Reach account admin_id manager_id spender_id t
        → Step account t u
        → Reach account admin_id manager_id spender_id u

  -- What the manager's calls raised the allowance of a key by, together.
  abbrev pub raised : WhitelistKey → List (Contract × Contract) → ℕ
  raised key = sum_by (λ change. allowance change.1 key - allowance change.0 key)
