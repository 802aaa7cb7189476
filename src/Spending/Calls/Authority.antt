-- ===== src/Spending/Calls/Authority.antt =====
-- Which call may change what: the separation of the three roles.
use hos_treasury.Common.{◌≡◌, ◌≢◌, refl, arith, ap, ◌∙◌, String, Option, none, some, str_eq_iff}
use hos_treasury.Near.{Context, Promise, Outcome, done, panic}
use hos_treasury.Near.Loops.{run_all, run_all_keeps}
use hos_treasury.Spending.Types.{Callback, Sdk}
use hos_treasury.Spending.Contract.{Contract}
use hos_treasury.Spending.Admin.{set_spender, set_manager, set_admin}
use hos_treasury.Spending.Whitelist.Rounds.{W, write, erase, increase, decrease}
use hos_treasury.Spending.Whitelist.Additions.{add_to_whitelist_iff, set_limit_iff}
use hos_treasury.Spending.Whitelist.Removals.{remove_from_whitelist_iff}
use hos_treasury.Spending.Whitelist.Changes.{increase_limit_run, decrease_limit_iff}
use hos_treasury.Spending.Transfer.Effects.{transfer_iff, transfer_ft_iff}
use hos_treasury.Spending.Calls.{Call, Role, admin, manager, spender, role, holder, invoke}

module _ ⦃sdk : Sdk⦄ where
  abbrev pub roles : Contract → String × String × String
  roles self = (self.spender_id, self.manager_id, self.admin_id)

  -- What a call of a role leaves alone, and the promise that it returns.
  pub record Confined (r : Role) (w w' : W) (p : Option (Promise Callback)) : Type 0 where
    pub roles_kept : r ≢ admin → roles w'.state ≡ roles w.state
    pub whitelist_kept : r ≡ admin → w'.state.whitelist ≡ w.state.whitelist
    pub no_payment : r ≢ spender → p ≡ none
    pub nothing_dropped : w'.promises ≡ w.promises

  -- A call that runs and then returns nothing.
  pub then_nothing :
      (o : Outcome (Unit {0} × W)) {p : Option (Promise Callback)} {w' : W}
      → ◌≡◌ {A = Outcome (Option (Promise Callback) × W)}
          (elim o [ done r ↦ done (none, r.1) | panic e ↦ panic e ])
          (done (p, w'))
      → (o ≡ done (tt, w')) × (p ≡ none)
  then_nothing (done r) h = ground arith
  then_nothing (panic e) h = absurd (cc)

  manager-Confined :
      (w w' : W) (p : Option (Promise Callback)) (after : Contract)
      → p ≡ none
      → w' ≡ record w { state = after }
      → roles after ≡ roles w.state
      → Confined manager w w' p
  manager-Confined w w' p after nothing e kept = record {
    roles_kept = λ _. ap (λ v. roles v.state) e ∙ kept;
    whitelist_kept = λ r. absurd (cc);
    no_payment = λ _. nothing;
    nothing_dropped = ap (λ v. v.promises) e;
  }

  spender-Confined :
      (w w' : W) (p : Option (Promise Callback))
      → roles w'.state ≡ roles w.state
      → w'.promises ≡ w.promises
      → Confined spender w w' p
  spender-Confined w w' p kept same = record {
    roles_kept = λ _. kept;
    whitelist_kept = λ r. absurd (cc);
    no_payment = λ r. absurd (r refl);
    nothing_dropped = same;
  }

  -- A transfer that runs and then returns its promise.
  pub then_promise :
      (o : Outcome (Promise Callback × W)) {p : Option (Promise Callback)} {w' : W}
      → ◌≡◌ {A = Outcome (Option (Promise Callback) × W)}
          (elim o [ done r ↦ done (some r.0, r.1) | panic e ↦ panic e ])
          (done (p, w'))
      → (q : Promise Callback) × (o ≡ done (q, w')) × (p ≡ some q)
  then_promise (done r) h = ground arith
  then_promise (panic e) h = absurd (cc)

  -- A call goes through only for the account that holds its role. Only the admin's calls change the
  -- roles, and they leave the whitelist alone; only the spender's return a promise, which is the
  -- only way for money to leave.
  pub invoke-Confined :
      (ctx : Context) (c : Call) (w w' : W) (p : Option (Promise Callback))
      → invoke ctx c w ≡ done (p, w')
      → (ctx.predecessor_account_id ≡ holder (role c) w.state) × Confined (role c) w w' p
  unfolding invoke set_spender set_manager set_admin
  invoke-Confined ctx (Call.set_spender x) w w' p h =
      ground (arith, str_eq_iff ctx.predecessor_account_id w.state.admin_id)
  invoke-Confined ctx (Call.set_manager x) w w' p h =
      ground (arith, str_eq_iff ctx.predecessor_account_id w.state.admin_id)
  invoke-Confined ctx (Call.set_admin x) w w' p h =
      ground (arith, str_eq_iff ctx.predecessor_account_id w.state.admin_id)
  invoke-Confined ctx (Call.add_to_whitelist es) w w' p h =
      let (ran, nothing) = then_nothing _ h in
      let (batch, _, e) = (add_to_whitelist_iff ctx es w w').0 ran in
      (
        batch.0,
        manager-Confined w w' p (run_all write w.state es) nothing e
            (run_all_keeps roles write (λ s x. refl) es w.state),
      )
  invoke-Confined ctx (Call.remove_from_whitelist ks) w w' p h =
      let (ran, nothing) = then_nothing _ h in
      let (batch, _, e) = (remove_from_whitelist_iff ctx ks w w').0 ran in
      (
        batch.0,
        manager-Confined w w' p (run_all erase w.state ks) nothing e
            (run_all_keeps roles erase (λ s x. refl) ks w.state),
      )
  invoke-Confined ctx (Call.set_limit es) w w' p h =
      let (ran, nothing) = then_nothing _ h in
      let (batch, _, e) = (set_limit_iff ctx es w w').0 ran in
      (
        batch.0,
        manager-Confined w w' p (run_all write w.state es) nothing e
            (run_all_keeps roles write (λ s x. refl) es w.state),
      )
  invoke-Confined ctx (Call.increase_limit cs) w w' p h =
      let (ran, nothing) = then_nothing _ h in
      let (batch, _, e) = increase_limit_run ctx cs w w' ran in
      (
        batch.0,
        manager-Confined w w' p (run_all increase w.state cs) nothing e
            (run_all_keeps roles increase (λ s x. refl) cs w.state),
      )
  invoke-Confined ctx (Call.decrease_limit cs) w w' p h =
      let (ran, nothing) = then_nothing _ h in
      let (batch, _, e) = (decrease_limit_iff ctx cs w w').0 ran in
      (
        batch.0,
        manager-Confined w w' p (run_all decrease w.state cs) nothing e
            (run_all_keeps roles decrease (λ s x. refl) cs w.state),
      )
  invoke-Confined ctx (Call.transfer r a) w w' p h =
      let (q, ran, _) = then_promise _ h in
      let (limit, allowed, pays) = (transfer_iff ctx r a w w' q).0 ran in
      (
        allowed.by_spender,
        spender-Confined w w' p (ap (λ v. roles v.state) pays.1) (ap (λ v. v.promises) pays.1),
      )
  invoke-Confined ctx (Call.transfer_ft r t a) w w' p h =
      let (q, ran, _) = then_promise _ h in
      let (limit, allowed, pays) = (transfer_ft_iff ctx r a w w' q t).0 ran in
      (
        allowed.by_spender,
        spender-Confined w w' p (ap (λ v. roles v.state) pays.1) (ap (λ v. v.promises) pays.1),
      )
