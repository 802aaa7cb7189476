-- ===== src/Spending/Ledger/Refinement.antt =====
-- The spending account is the ledger: it comes to the same books, no more and no fewer.
use mathlib.Core.Path.{fun_ext}
use mathlib.Core.Logic.{ite}
use hos_treasury.Common.{
  ℕ, ◌+◌, ◌≡◌, ◌↔◌, refl, arith, ap, sym, subst, ◌∙◌, Option-cases, inl, inr, String, ◌++◌, min,
  u128_max,
}
use hos_treasury.Near.{done, CallResult, ok, err}
use hos_treasury.Spending.Types.{WhitelistKey, Callback, Sdk}
use hos_treasury.Spending.Contract.{Contract, new}
use hos_treasury.Spending.Keys.{key_dec, limit_of, limit_of-with_limit}
use hos_treasury.Spending.Calls.{resume}
use hos_treasury.Spending.Calls.Authority.{roles}
use hos_treasury.Spending.Whitelist.Rounds.{W}
use hos_treasury.Spending.Whitelist.Changes.{Fits}
use hos_treasury.Spending.Transfer.Effects.{callbacks_return, restored}
use hos_treasury.Spending.Treasury
use hos_treasury.Spending.Treasury.{
  Treasury, Step, Reach, callback_key, callback_amount, settle, begin, awaited, after_call, opened,
}
use hos_treasury.Spending.Treasury.Allowance.{given_back, resume_state}
use hos_treasury.Spending.Treasury.Sound.{IsSound, allowance_fits, Reach-IsSound}
use hos_treasury.Spending.Ledger
use hos_treasury.Spending.Ledger.{
  Ledger, Books, Move, Comes, Permits, perform, starts, give_back, conclude, blank,
}
use hos_treasury.Spending.Ledger.Batches.{ledger_of}
use hos_treasury.Spending.Ledger.Permitted.{invoke_when}
use hos_treasury.Spending.Ledger.Calls.{by_limits, invoke-Obeys}

module _ ⦃sdk : Sdk⦄ where
  open sdk use {whitelist_map}

  -- The books that a treasury stands for.
  abbrev pub books_of : Treasury → Books
  books_of t = record { ledger = ledger_of t.contract; in_flight = t.in_flight; paid = t.paid }

  limit_of-restored :
      (self : Contract) (k : WhitelistKey) (a : ℕ) (key : WhitelistKey)
      → limit_of (restored self k a) key
        ≡ ite (key_dec key k) (give_back k a (limit_of self key)) (limit_of self key)
  unfolding restored
  limit_of-restored self k a key = elim (Option-cases (limit_of self k)) [
    | inl e ↦ ground arith
    | inr (limit, e) ↦ ground (arith, limit_of-with_limit self k key (min (limit + a) u128_max))
  ]

  roles-restored :
      (self : Contract) (k : WhitelistKey) (a : ℕ) → roles (restored self k a) ≡ roles self
  unfolding restored
  roles-restored self k a = elim (Option-cases (limit_of self k)) [
    | inl e ↦ rw (e, restored)
    | inr (limit, e) ↦ rw (e, restored)
  ]

  -- A callback leaves the roles alone.
  pub roles-resume :
      (cb : Callback) (result : CallResult (Unit {0})) (w w' : W)
      → resume cb result w ≡ done (tt, w')
      → roles w'.state ≡ roles w.state
  roles-resume cb (ok u) w w' h = ap roles (resume_state cb (ok u) w w' h)
  roles-resume cb (err e) w w' h =
      ap roles (resume_state cb (err e) w w' h)
      ∙ roles-restored w.state (callback_key cb) (callback_amount cb)

  given_back-conclude :
      (cb : Callback) (result : CallResult (Unit {0})) (self : Contract)
      → ledger_of (given_back cb result self) ≡ conclude cb result (ledger_of self)
  given_back-conclude cb (ok u) self = refl
  given_back-conclude cb (err e) self =
      by_limits self _ (restored self (callback_key cb) (callback_amount cb)) _ refl
        (roles-restored self (callback_key cb) (callback_amount cb))
        (limit_of-restored self (callback_key cb) (callback_amount cb))

  resume_returns :
      (cb : Callback) (result : CallResult (Unit {0})) (w : W)
      → (w' : W) × (resume cb result w ≡ done (tt, w'))
  unfolding resume
  resume_returns (Callback.on_transfer r a) (ok tt) w = (_, (callbacks_return r a w r r).0)
  resume_returns (Callback.on_transfer r a) (err e) w = (_, (callbacks_return r a w r e).2)
  resume_returns (Callback.on_transfer_ft r t a) (ok tt) w = (_, (callbacks_return r a w t t).1)
  resume_returns (Callback.on_transfer_ft r t a) (err e) w = (_, (callbacks_return r a w t e).3)

  Books-eq :
      {b d : Books} → b.ledger ≡ d.ledger → b.in_flight ≡ d.in_flight → b.paid ≡ d.paid → b ≡ d
  Books-eq p q r = λ i. record { ledger = p i; in_flight = q i; paid = r i }

  pub IsSound-Fits : (account : String) (self : Contract) → IsSound account self → Fits self
  IsSound-Fits account self s key = allowance_fits account self key s

  -- Each step of a treasury is a move of its books.
  Step-Move :
      {account : String} {t u : Treasury}
      → Fits t.contract
      → Step account t u
      → (d : Books) × Move account (books_of t) d × (books_of u ≡ d)
  Step-Move {t = t} fits (Treasury.call ctx c p w here small ran) =
      let o = invoke-Obeys ctx c (begin t.contract) w p fits ran in
      (
        _,
        Ledger.call ctx c here small o.permitted,
        Books-eq o.performed (ap (λ l. l ++ t.in_flight) o.started) refl,
      )
  Step-Move {t = t} fits (Treasury.callback before after cb result w flying ran) = (
    _,
    Ledger.outcome before after cb result flying,
    Books-eq
        (ap ledger_of (resume_state cb result (begin t.contract) w ran)
          ∙ given_back-conclude cb result t.contract)
        refl refl,
  )

  Move-Step :
      {account : String} (t : Treasury) {d : Books}
      → Fits t.contract
      → Move account (books_of t) d
      → (u : Treasury) × Step account t u × (books_of u ≡ d)
  Move-Step t fits (Ledger.call ctx c here small permitted) =
      let (p, w, ran) = invoke_when ctx c (begin t.contract) fits permitted in
      let o = invoke-Obeys ctx c (begin t.contract) w p fits ran in
      (
        _,
        Treasury.call ctx c p w here small ran,
        Books-eq o.performed (ap (λ l. l ++ t.in_flight) o.started) refl,
      )
  Move-Step t fits (Ledger.outcome before after cb result flying) =
      let (w, ran) = resume_returns cb result (begin t.contract) in
      (
        _,
        Treasury.callback before after cb result w flying ran,
        Books-eq
            (ap ledger_of (resume_state cb result (begin t.contract) w ran)
              ∙ given_back-conclude cb result t.contract)
            refl refl,
      )

  opened-blank :
      (admin_id manager_id spender_id : String)
      → books_of (opened admin_id manager_id spender_id) ≡ blank admin_id manager_id spender_id
  unfolding new
  opened-blank admin_id manager_id spender_id =
      Books-eq
        (λ i. record {
          spender_id = spender_id;
          manager_id = manager_id;
          admin_id = admin_id;
          limit = fun_ext whitelist_map.get-new i;
        })
        refl refl

  module _ {account admin_id manager_id spender_id : String} where
    Reach-Comes :
        {t : Treasury}
        → Reach account admin_id manager_id spender_id t
        → Comes account admin_id manager_id spender_id (books_of t)
    Reach-Comes Treasury.start =
        subst (Comes account admin_id manager_id spender_id)
          (sym (opened-blank admin_id manager_id spender_id)) Ledger.start
    Reach-Comes (Treasury.next {t} r s) =
        let (d, move, e) = Step-Move (IsSound-Fits account t.contract (Reach-IsSound r)) s in
        subst (Comes account admin_id manager_id spender_id) (sym e)
          (Ledger.next (Reach-Comes r) move)

    Comes-Reach :
        {b : Books}
        → Comes account admin_id manager_id spender_id b
        → (t : Treasury) × Reach account admin_id manager_id spender_id t × (books_of t ≡ b)
    Comes-Reach Ledger.start = (_, Treasury.start, opened-blank admin_id manager_id spender_id)
    Comes-Reach (Ledger.next {b} {d} c move) =
        let (t, r, e) = Comes-Reach c in
        let (u, s, f) =
          Move-Step t (IsSound-Fits account t.contract (Reach-IsSound r))
            (subst (λ b. Move account b d) (sym e) move) in
        (u, Treasury.next r s, f)

    -- The spending account refines its ledger, and does all that the ledger may do: the books that
    -- the ledger comes to, by calls that it permits and by transfers that succeed or fail in any
    -- order, are exactly those of the treasuries that the constructor, calls that go through and
    -- callbacks lead to.
    pub treasury_refines :
        (b : Books)
        → Comes account admin_id manager_id spender_id b
          ↔ ((t : Treasury) × Reach account admin_id manager_id spender_id t × (books_of t ≡ b))
    treasury_refines b = (
      Comes-Reach,
      λ (t, r, e). subst (Comes account admin_id manager_id spender_id) e (Reach-Comes r),
    )
