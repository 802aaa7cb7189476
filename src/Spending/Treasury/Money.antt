-- ===== src/Spending/Treasury/Money.antt =====
-- The money behind the callbacks: what the promises of calls really send.
use hos_treasury.Common.{
  ℕ, ◌+◌, ◌≡◌, ◌≢◌, refl, arith, ap, String, Option, none, some, List, [], ◌∷◌, ◌++◌, All,
  All-append, sum_by, sum_by-append,
}
use hos_treasury.Near.{Context, Promise, done, CallResult, ok, err}
use hos_treasury.Spending.Types.{Callback, Sdk}
use hos_treasury.Spending.Calls.{Call, spender, role, invoke}
use hos_treasury.Spending.Calls.Authority.{invoke-Confined, then_promise}
use hos_treasury.Spending.Transfer.{one_yocto, ft_transfer_gas}
use hos_treasury.Spending.Transfer.Effects.{transfer_iff, transfer_ft_iff}
use hos_treasury.Spending.Whitelist.Rounds.{W}
use hos_treasury.Spending.Treasury.{
  Treasury, Step, Reach, call, callback, start, next, awaited, returned, settle, settle_failed,
  begin,
}

-- The callbacks that promises end in.
abbrev pub awaited_all : List (Promise Callback) → List Callback
awaited_all [] = []
awaited_all (p ∷ ps) = awaited (some p) ++ awaited_all ps

module _ ⦃sdk : Sdk⦄ where
  open sdk use {json}

  -- What pays the recipient that a callback names the amount that it names, and no more: NEAR to the
  -- recipient, or `ft_transfer` of the token.
  abbrev pub money_of : Callback → Promise Callback
  money_of (Callback.on_transfer receiver_id amount) =
      Promise.transfer (Promise.new receiver_id) amount
  money_of (Callback.on_transfer_ft receiver_id token_id amount) =
      let args =
        json.object
          (("receiver_id", json.string receiver_id) ∷ ("amount", json.u128_text amount) ∷ []) in
      Promise.function_call_weight (Promise.new token_id) "ft_transfer"
        (json.into_bytes (json.to_string args)) one_yocto ft_transfer_gas 1

  -- The promise sends the money of its callback, with the callback behind it, and nothing else.
  abbrev pub IsExact : Promise Callback → Type 0
  IsExact p =
      (cb : Callback) × (account : String) × (gas : ℕ) × (p
        ≡ Promise.and_then (money_of cb) (Promise.ext account gas cb))

  -- Each promise that a call returned sends the money of its callback, and each is under way, paid or
  -- failed, once.
  pub record IsFunded (t : Treasury) : Type 0 where
    pub exact : All IsExact t.sent
    pub accounted :
        (f : Callback → ℕ)
        → sum_by f (awaited_all t.sent) ≡ sum_by f t.in_flight + sum_by f t.paid + sum_by f t.failed

  other-IsExact :
      (ctx : Context) (c : Call) (w w' : W) (p : Option (Promise Callback))
      → role c ≢ spender
      → invoke ctx c w ≡ done (p, w')
      → All IsExact (returned p)
  other-IsExact ctx c w w' p other h = rw ((invoke-Confined ctx c w w' p h).1.no_payment other) tt

  invoke-IsExact :
      (ctx : Context) (c : Call) (w w' : W) (p : Option (Promise Callback))
      → invoke ctx c w ≡ done (p, w')
      → All IsExact (returned p)
  unfolding invoke
  invoke-IsExact ctx (Call.transfer r a) w w' p h =
      let (q, ran, e) = then_promise _ h in
      let (limit, allowed, pays) = (transfer_iff ctx r a w w' q).0 ran in
      rw e ((Callback.on_transfer r a, ctx.current_account_id, _, pays.0), tt)
  invoke-IsExact ctx (Call.transfer_ft r t a) w w' p h =
      let (q, ran, e) = then_promise _ h in
      let (limit, allowed, pays) = (transfer_ft_iff ctx r a w w' q t).0 ran in
      rw e ((Callback.on_transfer_ft r t a, ctx.current_account_id, _, pays.0), tt)
  invoke-IsExact ctx c w w' p h = other-IsExact ctx c w w' p (λ e. cc) h

  awaited-returned :
      (f : Callback → ℕ) (p : Option (Promise Callback)) (sent : List (Promise Callback))
      → sum_by f (awaited_all (returned p ++ sent))
        ≡ sum_by f (awaited p) + sum_by f (awaited_all sent)
  awaited-returned f none sent = omega arith
  awaited-returned f (some p) sent = sum_by-append f (awaited (some p)) (awaited_all sent)

  settled :
      (f : Callback → ℕ) (cb : Callback) (result : CallResult (Unit {0}))
      (paid failed : List Callback)
      → sum_by f (settle cb result paid) + sum_by f (settle_failed cb result failed)
        ≡ f cb + sum_by f paid + sum_by f failed
  settled f cb (ok u) paid failed = omega arith
  settled f cb (err e) paid failed = omega arith

  Step-IsFunded : {account : String} {t u : Treasury} → Step account t u → IsFunded t → IsFunded u
  Step-IsFunded {t = t} (call ctx c p w here fits ran) o = record {
    exact =
        All-append IsExact (returned p) t.sent (invoke-IsExact ctx c (begin t.contract) w p ran)
          o.exact;
    accounted = λ f. omega (
      arith,
      o.accounted f,
      awaited-returned f p t.sent,
      sum_by-append f (awaited p) t.in_flight,
    );
  }
  Step-IsFunded {t = t} (callback before after cb result w flying ran) o = record {
    exact = o.exact;
    accounted = λ f. omega (
      arith,
      o.accounted f,
      settled f cb result t.paid t.failed,
      ap (sum_by f) flying,
      sum_by-append f before (cb ∷ after),
      sum_by-append f before after,
    );
  }

  pub Reach-IsFunded :
      {account admin_id manager_id spender_id : String} {t : Treasury}
      → Reach account admin_id manager_id spender_id t
      → IsFunded t
  Reach-IsFunded start = record { exact = tt; accounted = λ f. refl }
  Reach-IsFunded (next r s) = Step-IsFunded s (Reach-IsFunded r)
