-- ===== src/Spending/Ledger.antt =====
-- What the spending account promises, with no contract in sight: a ledger of limits, the transfers
-- under way and those paid. It knows no storage, no order of entries, no logs and no promises.
pub mod Batches
pub mod Calls
pub mod Permitted
pub mod Refinement
use mathlib.Core.Option
use mathlib.Core.Logic.{ite}
use hos_treasury.Common.{
  ℕ, ◌+◌, ◌-◌, ◌≤◌, ◌<◌, ◌≡◌, ◌≢◌, String, Option, Option-cases, none, some, List, [], ◌∷◌, ◌++◌,
  All, min, u128_max,
}
use hos_treasury.Near.{Context, CallResult, ok, err}
use hos_treasury.Spending.Types.{
  WhitelistKey, WhitelistEntry, WhitelistEntryKey, LimitChange, Callback,
}
use hos_treasury.Spending.Keys.{key_dec, entry_key, change_key, removed_key}
use hos_treasury.Spending.Calls.{Call, InRange}
use hos_treasury.Spending.Whitelist.Additions.{Unlisted, overlay}
use hos_treasury.Spending.Whitelist.Removals.{Kept, cut}
use hos_treasury.Spending.Whitelist.Changes.{amount_for}
use hos_treasury.Spending.Treasury.{callback_key, callback_amount, settle}

pub record Ledger : Type 0 where
  pub spender_id : String
  pub manager_id : String
  pub admin_id : String
  pub limit : WhitelistKey → Option ℕ

-- What may still be paid to a key.
abbrev pub left : Ledger → WhitelistKey → ℕ
left l key = Option.get_or (l.limit key) 0

abbrev pub DistinctEntries : List WhitelistEntry → Type 0
DistinctEntries [] = Unit
DistinctEntries (e ∷ es) = Unlisted (entry_key e) es × DistinctEntries es

abbrev pub DistinctKeys : List WhitelistEntryKey → Type 0
DistinctKeys [] = Unit
DistinctKeys (k ∷ ks) = Kept (removed_key k) ks × DistinctKeys ks

-- The limit of a key after the changes of a batch, in their order; a raise may list a key.
abbrev pub raise : List LimitChange → WhitelistKey → Option ℕ → Option ℕ
raise [] key old = old
raise (c ∷ cs) key old =
    raise cs key (ite (key_dec key (change_key c)) (some (Option.get_or old 0 + c.amount)) old)

abbrev pub lower : List LimitChange → WhitelistKey → Option ℕ → Option ℕ
lower [] key old = old
lower (c ∷ cs) key old =
    lower cs key (ite (key_dec key (change_key c)) (some (Option.get_or old 0 - c.amount)) old)

-- Who may ask for what.
abbrev pub Permits : Context → Ledger → Call → Type 0
Permits ctx l (Call.set_spender x) = ctx.predecessor_account_id ≡ l.admin_id
Permits ctx l (Call.set_manager x) = ctx.predecessor_account_id ≡ l.admin_id
Permits ctx l (Call.set_admin x) = ctx.predecessor_account_id ≡ l.admin_id
Permits ctx l (Call.add_to_whitelist es) =
    (ctx.predecessor_account_id ≡ l.manager_id)
    × (es ≢ [])
    × All (λ e. (e.account_id ≢ ctx.current_account_id) × (l.limit (entry_key e) ≡ none)) es
    × DistinctEntries es
Permits ctx l (Call.remove_from_whitelist ks) =
    (ctx.predecessor_account_id ≡ l.manager_id)
    × (ks ≢ [])
    × All (λ k. l.limit (removed_key k) ≢ none) ks
    × DistinctKeys ks
Permits ctx l (Call.set_limit es) =
    (ctx.predecessor_account_id ≡ l.manager_id)
    × (es ≢ [])
    × All (λ e. l.limit (entry_key e) ≢ none) es
Permits ctx l (Call.increase_limit cs) =
    (ctx.predecessor_account_id ≡ l.manager_id)
    × (cs ≢ [])
    × All (λ c. c.account_id ≢ ctx.current_account_id) cs
    × ((key : WhitelistKey) → left l key + amount_for cs key ≤ u128_max)
Permits ctx l (Call.decrease_limit cs) =
    (ctx.predecessor_account_id ≡ l.manager_id)
    × (cs ≢ [])
    × All (λ c. l.limit (change_key c) ≢ none) cs
Permits ctx l (Call.transfer r a) =
    (ctx.predecessor_account_id ≡ l.spender_id) × (0 < a) × (a ≤ left l (r, none))
Permits ctx l (Call.transfer_ft r t a) =
    (ctx.predecessor_account_id ≡ l.spender_id) × (0 < a) × (a ≤ left l (r, some t))

-- The ledger after an amount is taken off a key.
abbrev pub spend : Ledger → WhitelistKey → ℕ → Ledger
spend l k a = record l { limit = λ key. ite (key_dec key k) (some (left l k - a)) (l.limit key) }

-- The ledger after a call that is permitted.
abbrev pub perform : Ledger → Call → Ledger
perform l (Call.set_spender x) = record l { spender_id = x }
perform l (Call.set_manager x) = record l { manager_id = x }
perform l (Call.set_admin x) = record l { admin_id = x }
perform l (Call.add_to_whitelist es) = record l { limit = λ key. overlay es key (l.limit key) }
perform l (Call.remove_from_whitelist ks) = record l { limit = λ key. cut ks key (l.limit key) }
perform l (Call.set_limit es) = record l { limit = λ key. overlay es key (l.limit key) }
perform l (Call.increase_limit cs) = record l { limit = λ key. raise cs key (l.limit key) }
perform l (Call.decrease_limit cs) = record l { limit = λ key. lower cs key (l.limit key) }
perform l (Call.transfer r a) = spend l (r, none) a
perform l (Call.transfer_ft r t a) = spend l (r, some t) a

-- The transfers that a call starts.
abbrev pub starts : Call → List Callback
starts (Call.transfer r a) = Callback.on_transfer r a ∷ []
starts (Call.transfer_ft r t a) = Callback.on_transfer_ft r t a ∷ []
starts _ = []

-- An amount comes back to a key that is listed, up to the largest `u128`.
abbrev pub give_back : WhitelistKey → ℕ → Option ℕ → Option ℕ
give_back k a none = none
give_back k a (some limit) = some (min (limit + a) u128_max)

-- The ledger after a transfer under way has succeeded or failed.
abbrev pub conclude : Callback → CallResult (Unit {0}) → Ledger → Ledger
conclude cb (ok _) l = l
conclude cb (err _) l = record l {
  limit = λ key.
      ite (key_dec key (callback_key cb)) (give_back key (callback_amount cb) (l.limit key))
        (l.limit key);
}

pub record Books : Type 0 where
  pub ledger : Ledger
  pub in_flight : List Callback
  pub paid : List Callback

pub data Move (account : String) (b : Books) : Books → Type 0 where
  call :
      (ctx : Context) (c : Call)
      → ctx.current_account_id ≡ account
      → InRange c
      → Permits ctx b.ledger c
      → Move account b (record {
        ledger = perform b.ledger c;
        in_flight = starts c ++ b.in_flight;
        paid = b.paid;
      })
  outcome :
      (before after : List Callback) (cb : Callback) (result : CallResult (Unit {0}))
      → b.in_flight ≡ before ++ cb ∷ after
      → Move account b (record {
        ledger = conclude cb result b.ledger;
        in_flight = before ++ after;
        paid = settle cb result b.paid;
      })

abbrev pub blank : String → String → String → Books
blank admin_id manager_id spender_id = record {
  ledger = record {
    spender_id = spender_id;
    manager_id = manager_id;
    admin_id = admin_id;
    limit = λ key. none;
  };
  in_flight = [];
  paid = [];
}

-- The books that an account may come to.
pub data Comes (account admin_id manager_id spender_id : String) : Books → Type 0 where
  start : Comes account admin_id manager_id spender_id (blank admin_id manager_id spender_id)
  next :
      {b d : Books}
      → Comes account admin_id manager_id spender_id b
      → Move account b d
      → Comes account admin_id manager_id spender_id d
