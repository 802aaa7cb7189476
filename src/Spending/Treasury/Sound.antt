-- ===== src/Spending/Treasury/Sound.antt =====
-- What holds of the contract in every treasury that can be reached.
use hos_treasury.Common.{
  ℕ, ◌+◌, ◌-◌, ◌≤◌, ◌≡◌, ◌≢◌, refl, arith, subst, sym, Option-cases, inl, inr, String, Option, none,
  some, min, u128_max,
}
use hos_treasury.Near.{Context, Promise, done, CallResult, ok, err}
use hos_treasury.Near.Loops.{run_all_inv, All-any}
use hos_treasury.Spending.Types.{WhitelistKey, WhitelistEntryKey, Callback, Sdk}
use hos_treasury.Spending.Contract.{Contract, new}
use hos_treasury.Spending.Keys.{
  entry_key, change_key, removed_key, allowance, limit_of, with_limit, limit_of-with_limit,
  limit_of-without,
}
use hos_treasury.Spending.Calls.{Call, InRange, invoke}
use hos_treasury.Spending.Calls.Authority.{invoke-Confined, then_promise, then_nothing}
use hos_treasury.Spending.Transfer.Effects.{Allowed, transfer_iff, transfer_ft_iff, restored}
use hos_treasury.Spending.Whitelist.Rounds.{
  W, CanAdd, CanSet, CanRemove, CanIncrease, CanDecrease, write, erase, increase, decrease,
}
use hos_treasury.Spending.Whitelist.Additions.{
  add_to_whitelist_iff, set_limit_iff, Addable-AllHold, Settable-AllHold,
}
use hos_treasury.Spending.Whitelist.Removals.{remove_from_whitelist_iff, Removable-AllHold}
use hos_treasury.Spending.Whitelist.Changes.{
  increase_limit_run, decrease_limit_iff, Decreasable-AllHold,
}
use hos_treasury.Spending.Treasury.{
  Treasury, Step, Reach, call, callback, start, next, callback_key, callback_amount, begin,
}
use hos_treasury.Spending.Treasury.Allowance.{given_back, resume_state}

module _ ⦃sdk : Sdk⦄ where
  open sdk use {whitelist_map}

  -- Neither the account itself is listed, for NEAR or for a token, nor does a limit exceed a `u128`.
  pub record IsSound (account : String) (self : Contract) : Type 0 where
    pub not_own : (token : Option String) → limit_of self (account, token) ≡ none
    pub fits : (key : WhitelistKey) (limit : ℕ) → limit_of self key ≡ some limit → limit ≤ u128_max

  module _ (account : String) where
    -- A limit may be written for another account's key if it fits.
    with_limit-IsSound :
        (self : Contract) (key : WhitelistKey) (limit : ℕ)
        → key.0 ≢ account
        → limit ≤ u128_max
        → IsSound account self
        → IsSound account (with_limit self key limit)
    with_limit-IsSound self key limit other small s = record {
      not_own = λ token.
          ground (arith, limit_of-with_limit self key (account, token) limit, s.not_own token);
      fits = λ j l h. ground (arith, limit_of-with_limit self key j limit, s.fits j l);
    }

    -- What is listed is not the account's own.
    listed_other :
        (self : Contract) (key : WhitelistKey)
        → IsSound account self
        → limit_of self key ≢ none
        → key.0 ≢ account
    listed_other self key s listed e =
        listed (subst (λ a. limit_of self (a, key.1) ≡ none) (sym e) (s.not_own key.1))

    erase-IsSound :
        (self : Contract) (k : WhitelistEntryKey)
        → IsSound account self
        → IsSound account (erase self k)
    erase-IsSound self k s = record {
      not_own = λ token.
          ground (arith, limit_of-without self (removed_key k) (account, token), s.not_own token);
      fits = λ j l h. ground (arith, limit_of-without self (removed_key k) j, s.fits j l);
    }

    pub allowance_fits :
        (self : Contract) (key : WhitelistKey)
        → IsSound account self
        → allowance self key ≤ u128_max
    allowance_fits self key s = elim (Option-cases (limit_of self key)) [
      | inl e ↦ rw e (omega arith)
      | inr (limit, e) ↦ rw e (s.fits key limit e)
    ]

    restored-IsSound :
        (self : Contract) (key : WhitelistKey) (amount : ℕ)
        → IsSound account self
        → IsSound account (restored self key amount)
    unfolding restored
    restored-IsSound self key amount s = elim (Option-cases (limit_of self key)) [
      | inl e ↦ rw (e, restored) s
      | inr (limit, e) ↦
          rw (e, restored)
            (with_limit-IsSound self key (min (limit + amount) u128_max)
              (listed_other self key s (λ h. clash e h)) (omega arith) s)
    ]
      where
        clash : {limit : ℕ} → limit_of self key ≡ some limit → limit_of self key ≡ none → ⊥
        clash e h = cc

    -- The admin's calls leave the whitelist alone.
    same_whitelist :
        (self after : Contract)
        → after.whitelist ≡ self.whitelist
        → IsSound account self
        → IsSound account after
    same_whitelist self after e s = record {
      not_own = λ token. rw e (s.not_own token);
      fits = λ key limit h. s.fits key limit (rw e at h);
    }

    spend-IsSound :
        (ctx : Context) (self : Contract) (key : WhitelistKey) (amount limit : ℕ)
        → Allowed ctx self key amount limit
        → IsSound account self
        → IsSound account (with_limit self key (limit - amount))
    spend-IsSound ctx self key amount limit a s =
        let small = s.fits key limit a.listed in
        with_limit-IsSound self key (limit - amount)
          (listed_other self key s (λ h. clash a.listed h)) (omega arith) s
      where
        clash : limit_of self key ≡ some limit → limit_of self key ≡ none → ⊥
        clash e h = cc

  -- Every call that goes through, with numbers that fit their types, keeps the contract sound.
  pub invoke-IsSound :
      (ctx : Context) (c : Call) (w w' : W) (p : Option (Promise Callback))
      → InRange c
      → invoke ctx c w ≡ done (p, w')
      → IsSound ctx.current_account_id w.state
      → IsSound ctx.current_account_id w'.state
  unfolding invoke
  invoke-IsSound ctx (Call.add_to_whitelist es) w w' p fit h s =
      let me = ctx.current_account_id in
      let (ran, _) = then_nothing _ h in
      let (_, addable, e) = (add_to_whitelist_iff ctx es w w').0 ran in
      rw e (
        run_all_inv (CanAdd ctx) write _ (IsSound me)
          (λ self x can small. with_limit-IsSound me self (entry_key x) x.limit can.0 small) es
          w.state ((Addable-AllHold ctx es w.state).1 addable) fit s)
  invoke-IsSound ctx (Call.set_limit es) w w' p fit h s =
      let me = ctx.current_account_id in
      let (ran, _) = then_nothing _ h in
      let (_, settable, e) = (set_limit_iff ctx es w w').0 ran in
      rw e (
        run_all_inv CanSet write _ (IsSound me)
          (λ self x can small s.
            with_limit-IsSound me self (entry_key x) x.limit
              (listed_other me self (entry_key x) s can) small s)
          es w.state ((Settable-AllHold es w.state).1 settable) fit s)
  invoke-IsSound ctx (Call.remove_from_whitelist ks) w w' p fit h s =
      let me = ctx.current_account_id in
      let (ran, _) = then_nothing _ h in
      let (_, removable, e) = (remove_from_whitelist_iff ctx ks w w').0 ran in
      rw e (
        run_all_inv CanRemove erase _ (IsSound me) (λ self x can _. erase-IsSound me self x) ks
          w.state ((Removable-AllHold ks w.state).1 removable) (All-any ks) s)
  invoke-IsSound ctx (Call.increase_limit cs) w w' p fit h s =
      let me = ctx.current_account_id in
      let (ran, _) = then_nothing _ h in
      let (_, can, e) = increase_limit_run ctx cs w w' ran in
      rw e (
        run_all_inv (CanIncrease ctx) increase _ (IsSound me)
          (λ self x can _. with_limit-IsSound me self (change_key x) _ can.0 can.1) cs w.state can
          (All-any cs) s)
  invoke-IsSound ctx (Call.decrease_limit cs) w w' p fit h s =
      let me = ctx.current_account_id in
      let (ran, _) = then_nothing _ h in
      let (_, can, e) = (decrease_limit_iff ctx cs w w').0 ran in
      rw e (
        run_all_inv CanDecrease decrease _ (IsSound me)
          (λ self x can _ s.
            with_limit-IsSound me self (change_key x) _ (listed_other me self (change_key x) s can)
              (omega (arith, allowance_fits me self (change_key x) s)) s)
          cs w.state ((Decreasable-AllHold cs w.state).1 can) (All-any cs) s)
  invoke-IsSound ctx (Call.transfer r a) w w' p fit h s =
      let (q, ran, _) = then_promise _ h in
      let (limit, allowed, pays) = (transfer_iff ctx r a w w' q).0 ran in
      rw pays.1 (spend-IsSound ctx.current_account_id ctx w.state (r, none) a limit allowed s)
  invoke-IsSound ctx (Call.transfer_ft r t a) w w' p fit h s =
      let (q, ran, _) = then_promise _ h in
      let (limit, allowed, pays) = (transfer_ft_iff ctx r a w w' q t).0 ran in
      rw pays.1 (spend-IsSound ctx.current_account_id ctx w.state (r, some t) a limit allowed s)
  invoke-IsSound ctx c w w' p fit h s =
      same_whitelist ctx.current_account_id w.state w'.state
        ((invoke-Confined ctx c w w' p h).1.whitelist_kept refl) s

  given_back-IsSound :
      (account : String) (cb : Callback) (result : CallResult (Unit {0})) (self : Contract)
      → IsSound account self
      → IsSound account (given_back cb result self)
  given_back-IsSound account cb (ok _) self s = s
  given_back-IsSound account cb (err _) self s =
      restored-IsSound account self (callback_key cb) (callback_amount cb) s

  Step-IsSound :
      {account : String} {t u : Treasury}
      → Step account t u
      → IsSound account t.contract
      → IsSound account u.contract
  Step-IsSound {t = t} (call ctx c p w here fits ran) s =
      subst (λ a. IsSound a t.contract → IsSound a w.state) here
        (invoke-IsSound ctx c (begin t.contract) w p fits ran) s
  Step-IsSound {account} {t} (callback before after cb result w flying ran) s =
      rw (resume_state cb result (begin t.contract) w ran)
        (given_back-IsSound account cb result t.contract s)

  -- In every treasury that can be reached the account itself is not whitelisted, neither for NEAR
  -- nor for a token, and every limit fits a `u128`.
  pub Reach-IsSound :
      {account admin_id manager_id spender_id : String} {t : Treasury}
      → Reach account admin_id manager_id spender_id t
      → IsSound account t.contract
  unfolding new
  Reach-IsSound start = record {
    not_own = λ token. whitelist_map.get-new _;
    fits = λ key limit h. ground (arith, whitelist_map.get-new key);
  }
  Reach-IsSound (next r s) = Step-IsSound s (Reach-IsSound r)
