-- ===== src/Deployment/Amounts.antt =====
-- How much the executed requests ask the spending account to pay, and how much it pays.
use hos_treasury.Common.{
  ℕ, ◌+◌, ◌≤◌, ◌≡◌, refl, ap, arith, String, Bool, Bool-cases, true, Option, none, some, List, [],
  ◌∷◌, ◌++◌, inl, inr, sum_by, sum_by-append, All, str_eq, if◌then◌else◌,
}
use hos_treasury.Near.{Context, CallResult, ok, err}
use hos_treasury.Timelock
use hos_treasury.Timelock.Types.{FunctionCall, Request}
use hos_treasury.Timelock.Queue.{Departure, departure_of, note_departure}
use hos_treasury.Spending
use hos_treasury.Spending.Types.{WhitelistKey, Callback}
use hos_treasury.Spending.Calls.{Call}
use hos_treasury.Spending.Treasury.{awaited, charge, charged, settle, begin}
use hos_treasury.Spending.Treasury.Sound.{Reach-IsSound}
use hos_treasury.Spending.Ledger.{starts}
use hos_treasury.Spending.Ledger.Calls.{invoke-Obeys}
use hos_treasury.Spending.Ledger.Refinement.{IsSound-Fits}
use hos_treasury.Deployment.{Decoder, call_of, Batch, Vault, Arrives, over, view, act}
use hos_treasury.Deployment.Receipts.{batch_of_request, IsHarmless, Source, harmless, executed}
use hos_treasury.Deployment.Histories.{VaultReach, acted-VaultReach}

module _ (decoder : Decoder) (vault_id : String) (key : WhitelistKey) where
  -- What a call asks to pay for a key.
  abbrev pub call_asks : Option Call → ℕ
  call_asks none = 0
  call_asks (some c) = charged key (starts c)

  abbrev pub actions_ask : List FunctionCall → ℕ
  actions_ask = sum_by (λ action. call_asks (call_of decoder action))

  abbrev pub batch_asks : Batch → ℕ
  batch_asks b = if str_eq b.receiver_id vault_id then actions_ask b.actions else 0

  abbrev pub request_asks : Bool → Option Request → ℕ
  request_asks true (some r) = batch_asks (batch_of_request r)
  request_asks _ _ = 0

  -- What a request that left asked to pay, which is nothing if it was cancelled.
  abbrev pub departure_asks : Departure → ℕ
  departure_asks d = request_asks d.executed d.request

  harmless_actions :
      (actions : List FunctionCall)
      → All (λ action. call_of decoder action ≡ none) actions
      → actions_ask actions ≡ 0
  harmless_actions [] h = refl
  harmless_actions (a ∷ actions) (first, rest) =
      omega (arith, ap call_asks first, harmless_actions actions rest)

  harmless_batch : (b : Batch) → IsHarmless decoder b → batch_asks b ≡ 0
  harmless_batch b h = elim (Bool-cases (str_eq b.receiver_id vault_id)) [
    | inl e ↦ ground (arith, harmless_actions b.actions h)
    | inr e ↦ ground (arith, harmless_actions b.actions h)
  ]

  harmless_batches : (bs : List Batch) → All (IsHarmless decoder) bs → sum_by batch_asks bs ≡ 0
  harmless_batches [] h = refl
  harmless_batches (b ∷ bs) (first, rest) =
      omega (arith, harmless_batch b first, harmless_batches bs rest)

  -- The callback of a transfer moves or drops what is under way.
  pub charged-callback :
      (before after paid : List Callback) (cb : Callback) (result : CallResult (Unit {0}))
      → charged key (before ++ after) + charged key (settle cb result paid)
        ≤ charged key (before ++ cb ∷ after) + charged key paid
  charged-callback before after paid cb (ok u) = omega (
    arith,
    sum_by-append (charge key) before after,
    sum_by-append (charge key) before (cb ∷ after),
  )
  charged-callback before after paid cb (err e) = omega (
    arith,
    sum_by-append (charge key) before after,
    sum_by-append (charge key) before (cb ∷ after),
  )

  module _ ⦃lock_sdk : Timelock.Types.Sdk⦄ where
    departures_grow :
        (ctx : Context) (c : Timelock.Calls.Call) (self : Timelock.Contract.Contract)
        (old : List Departure)
        → sum_by departure_asks old ≤ sum_by departure_asks (note_departure ctx c self old)
    departures_grow ctx (Timelock.Calls.execute id) self old = omega arith
    departures_grow ctx (Timelock.Calls.cancel id) self old = omega arith
    departures_grow ctx (Timelock.Calls.schedule r actions p) self old = omega arith
    departures_grow ctx (Timelock.Calls.schedule_proposal d k dao b g v p) self old = omega arith
    departures_grow ctx (Timelock.Calls.on_proposal_added id dao f b k g result) self old =
        omega arith
    departures_grow ctx (Timelock.Calls.set_dao a) self old = omega arith
    departures_grow ctx (Timelock.Calls.set_admin a) self old = omega arith
    departures_grow ctx (Timelock.Calls.set_guardians gs) self old = omega arith
    departures_grow ctx (Timelock.Calls.set_delay n) self old = omega arith

    -- A call sends what it executes, once.
    pub sent_asked :
        (ctx : Context) (c : Timelock.Calls.Call) (self : Timelock.Contract.Contract)
        (bs : List Batch) (old : List Departure)
        → Source decoder self c bs
        → sum_by batch_asks bs + sum_by departure_asks old
          ≤ sum_by departure_asks (note_departure ctx c self old)
    sent_asked ctx c self bs old (harmless h) =
        omega (arith, harmless_batches bs h, departures_grow ctx c self old)
    sent_asked ctx c self bs old (executed id r call was e) =
        let noted : note_departure ctx c self old ≡ departure_of ctx self id true ∷ old =
          ap (λ c. note_departure ctx c self old) call in
        omega (
          arith,
          ap (sum_by batch_asks) e,
          ap (sum_by departure_asks) noted,
          ap (request_asks true) was,
        )

    module _ ⦃vault_sdk : Spending.Types.Sdk⦄ (lock_id vault_admin_id : String) where
      abbrev pub vault_charged : Vault → ℕ
      vault_charged v = charged key v.treasury.in_flight + charged key v.treasury.paid

      -- A receipt starts at most the payments that it asks for.
      pub Arrives-charged :
          {actions : List FunctionCall} {v u : Vault}
          → VaultReach lock_id vault_id vault_admin_id v
          → Arrives decoder lock_id vault_id actions v u
          → vault_charged u ≤ vault_charged v + actions_ask actions
      Arrives-charged r over = omega arith
      Arrives-charged r (view action e m rest) =
          omega (arith, Arrives-charged r rest, ap call_asks e)
      Arrives-charged r (act {v} action ctx c p w e by_lock a rest) =
          let fits = IsSound-Fits vault_id v.treasury.contract (Reach-IsSound r) in
          let started = (invoke-Obeys ctx c (begin v.treasury.contract) w p fits a.ran).started in
          let step = acted-VaultReach lock_id vault_id vault_admin_id decoder v ctx c p w a r in
          omega (
            arith,
            Arrives-charged step rest,
            ap call_asks e,
            ap (charged key) started,
            sum_by-append (charge key) (awaited p) v.treasury.in_flight,
          )
