-- ===== src/Near/Call.antt =====
-- A contract call: what it reads of `near_sdk::env`, and what it does. A `#[near]` method reads and
-- writes the contract's state, writes logs, schedules promises and may panic. A panic undoes all of
-- these, so it carries nothing but its message.
use hos_treasury.Common.{ℕ, String, Bool, true, false, Option, none, some, List, [], ◌∷◌, ◌++◌}

-- `env::predecessor_account_id()` and the others.
pub record Context : Type 0 where
  pub predecessor_account_id : String
  pub current_account_id : String
  pub block_timestamp : ℕ
  pub attached_deposit : ℕ

-- A `near_sdk::Promise`, as the builder calls that made it. `C` is the contract's callbacks:
-- `ext` is `Self::ext(account).with_static_gas(gas)` with the callback called on it.
pub data Promise (C : Type 0) : Type 0 where
  new : String → Promise C
  function_call : Promise C → String → List ℕ → ℕ → ℕ → Promise C
  function_call_weight : Promise C → String → List ℕ → ℕ → ℕ → ℕ → Promise C
  transfer : Promise C → ℕ → Promise C
  and_then : Promise C → Promise C → Promise C
  ext : String → ℕ → C → Promise C

-- The `Result` that a callback is handed. The contracts never read the `PromiseError`; it is a text.
pub data CallResult (A : Type 0) : Type 0 where
  ok : A → CallResult A
  err : String → CallResult A

-- `promises` holds the promises that were built and dropped, which the SDK schedules all the same;
-- a promise that a method returns is its result.
pub record World (S C : Type 0) : Type 0 where
  pub state : S
  pub logs : List String
  pub promises : List (Promise C)

-- How a call ends.
pub data Outcome (A : Type 0) : Type 0 where
  done : A → Outcome A
  panic : String → Outcome A

abbrev pub Action : Type 0 → Type 0 → Type 0 → Type 0
Action S C A = World S C → Outcome (A × World S C)

infixl 5 ◌>>=◌ ◌>>◌
abbrev pub ◌>>=◌ : {S C A B : Type 0} → Action S C A → (A → Action S C B) → Action S C B
◌>>=◌ m f w = elim (m w) [ done (a, w') ↦ f a w' | panic e ↦ panic e ]

abbrev pub ◌>>◌ : {S C B : Type 0} → Action S C (Unit {0}) → Action S C B → Action S C B
m >> k = m >>= λ _. k

module _ {S C : Type 0} where
  abbrev pub return : {A : Type 0} → A → Action S C A
  return a w = done (a, w)

  -- `require!(test, message)`
  abbrev pub require : Bool → String → Action S C (Unit {0})
  require true message w = done (tt, w)
  require false message w = panic message

  -- `Option::expect`
  abbrev pub expect : {A : Type 0} → Option A → String → Action S C A
  expect none message w = panic message
  expect (some a) message w = done (a, w)

  -- `self`
  abbrev pub get_self : Action S C S
  get_self w = done (w.state, w)

  abbrev pub put_self : S → Action S C (Unit {0})
  put_self s w = done (tt, record w { state = s })

  abbrev pub log_str : String → Action S C (Unit {0})
  log_str line w = done (tt, record w { logs = w.logs ++ line ∷ [] })

  -- A promise that the code drops.
  abbrev pub drop_promise : Promise C → Action S C (Unit {0})
  drop_promise p w = done (tt, record w { promises = w.promises ++ p ∷ [] })

-- `for x in xs { body(x) }`
module _ {S C A : Type 0} where
  unfoldable pub for_each : (A → Action S C (Unit {0})) → List A → Action S C (Unit {0})
  for_each body [] = return tt
  for_each body (x ∷ xs) = body x >>= λ _. for_each body xs
