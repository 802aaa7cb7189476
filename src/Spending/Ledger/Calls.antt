-- ===== src/Spending/Ledger/Calls.antt =====
-- Each call of the contract does what its ledger permits, and nothing else.
use mathlib.Core.Path.{fun_ext}
use mathlib.Core.Logic.{ite}
use hos_treasury.Common.{
  ℕ, ◌-◌, ◌≤◌, ◌<◌, ◌≡◌, ◌↔◌, refl, arith, ap, sym, ◌∙◌, Option-cases, inl, inr, String, Option,
  none, some, str_eq_iff,
}
use hos_treasury.Near.{Context, Promise, done}
use hos_treasury.Near.Loops.{run_all, run_all_keeps}
use hos_treasury.Spending.Types.{WhitelistKey, Callback, Sdk}
use hos_treasury.Spending.Contract.{Contract}
use hos_treasury.Spending.Keys.{key_dec, limit_of, with_limit, limit_of-with_limit}
use hos_treasury.Spending.Admin.{set_spender, set_manager, set_admin}
use hos_treasury.Spending.Calls.{Call, invoke}
use hos_treasury.Spending.Calls.Authority.{roles, then_nothing, then_promise}
use hos_treasury.Spending.Whitelist.Rounds.{W, write, erase, increase, decrease}
use hos_treasury.Spending.Whitelist.Additions.{
  add_to_whitelist_iff, limit_of-write_all, set_limit_iff,
}
use hos_treasury.Spending.Whitelist.Removals.{remove_from_whitelist_iff, limit_of-erase_all}
use hos_treasury.Spending.Whitelist.Changes.{Fits, increase_limit_iff, decrease_limit_iff}
use hos_treasury.Spending.Transfer.Effects.{Allowed, transfer_iff, transfer_ft_iff}
use hos_treasury.Spending.Treasury.{awaited}
use hos_treasury.Spending.Ledger.{left, Permits, perform, spend, starts}
use hos_treasury.Spending.Ledger.Batches.{
  ledger_of, is_empty_iff, Addable-iff, Settable-iff, Removable-iff, NotSelf-iff, Decreasable-iff,
  limit_of-increase_all, limit_of-decrease_all,
}

module _ ⦃sdk : Sdk⦄ where
  -- The ledger of a contract with the same roles and other limits.
  pub by_limits :
      (self after made : Contract) (limit : WhitelistKey → Option ℕ)
      → after ≡ made
      → roles made ≡ roles self
      → ((key : WhitelistKey) → limit_of made key ≡ limit key)
      → ledger_of after ≡ record (ledger_of self) { limit = limit }
  by_limits self after made limit e same limits = ap ledger_of e ∙ (λ i. record {
    spender_id = (same i).0;
    manager_id = (same i).1;
    admin_id = (same i).2;
    limit = fun_ext limits i;
  })

  -- What a call that goes through comes to.
  pub record Obeys (ctx : Context) (c : Call) (w w' : W) (p : Option (Promise Callback))
      : Type 0 where
    pub permitted : Permits ctx (ledger_of w.state) c
    pub performed : ledger_of w'.state ≡ perform (ledger_of w.state) c
    pub started : awaited p ≡ starts c

  module _ (ctx : Context) (x : String) (w w' : W) where
    pub set_spender_iff : (set_spender ctx x w ≡ done (tt, w')) ↔ (
        (ctx.predecessor_account_id ≡ w.state.admin_id)
        × (w' ≡ record w { state = record w.state { spender_id = x } }))
    unfolding set_spender
    set_spender_iff = ground (arith, str_eq_iff ctx.predecessor_account_id w.state.admin_id)

    pub set_manager_iff : (set_manager ctx x w ≡ done (tt, w')) ↔ (
        (ctx.predecessor_account_id ≡ w.state.admin_id)
        × (w' ≡ record w { state = record w.state { manager_id = x } }))
    unfolding set_manager
    set_manager_iff = ground (arith, str_eq_iff ctx.predecessor_account_id w.state.admin_id)

    pub set_admin_iff : (set_admin ctx x w ≡ done (tt, w')) ↔ (
        (ctx.predecessor_account_id ≡ w.state.admin_id)
        × (w' ≡ record w { state = record w.state { admin_id = x } }))
    unfolding set_admin
    set_admin_iff = ground (arith, str_eq_iff ctx.predecessor_account_id w.state.admin_id)

  -- The ledger's way to say that a payment is within the limit.
  pub within_iff :
      (ctx : Context) (self : Contract) (key : WhitelistKey) (a : ℕ)
      → ((limit : ℕ) × Allowed ctx self key a limit) ↔ (
          (ctx.predecessor_account_id ≡ self.spender_id)
          × (0 < a)
          × (a ≤ left (ledger_of self) key))
  within_iff ctx self key a = (
    λ (limit, h). ground arith,
    λ (caller, positive, small). elim (Option-cases (limit_of self key)) [
      | inl e ↦ absurd (ground arith)
      | inr (limit, e) ↦ (limit, ground arith)
    ],
  )

  limit_of-spend :
      (ctx : Context) (self : Contract) (k : WhitelistKey) (a limit : ℕ)
      → Allowed ctx self k a limit
      → (key : WhitelistKey)
      → limit_of (with_limit self k (limit - a)) key
        ≡ ite (key_dec key k) (some (left (ledger_of self) k - a)) (limit_of self key)
  limit_of-spend ctx self k a limit h key =
      limit_of-with_limit self k key (limit - a)
      ∙ ap (λ n. ite (key_dec key k) (some (n - a)) (limit_of self key)) (ground (arith, h.listed))

  -- A manager's call that leaves the roles alone.
  manager-Obeys :
      (ctx : Context) (c : Call) (w w' : W) (p : Option (Promise Callback)) (made : Contract)
      (limit : WhitelistKey → Option ℕ)
      → (awaited none ≡ starts c)
        × (perform (ledger_of w.state) c ≡ record (ledger_of w.state) { limit = limit })
      → p ≡ none
      → w' ≡ record w { state = made }
      → roles made ≡ roles w.state
      → ((key : WhitelistKey) → limit_of made key ≡ limit key)
      → Permits ctx (ledger_of w.state) c
      → Obeys ctx c w w' p
  manager-Obeys ctx c w w' p made limit shape nothing e same limits permitted = record {
    permitted = permitted;
    performed =
        by_limits w.state w'.state made limit (ap (λ v. v.state) e) same limits ∙ sym shape.1;
    started = ap awaited nothing ∙ shape.0;
  }

  spender-Obeys :
      (ctx : Context) (c : Call) (w w' : W) (p : Option (Promise Callback)) (k : WhitelistKey)
      (a limit : ℕ)
      → perform (ledger_of w.state) c ≡ spend (ledger_of w.state) k a
      → Allowed ctx w.state k a limit
      → w'.state ≡ with_limit w.state k (limit - a)
      → awaited p ≡ starts c
      → Permits ctx (ledger_of w.state) c
      → Obeys ctx c w w' p
  spender-Obeys ctx c w w' p k a limit shape h e started permitted = record {
    permitted = permitted;
    performed =
        by_limits w.state w'.state (with_limit w.state k (limit - a)) _ e refl
          (limit_of-spend ctx w.state k a limit h)
        ∙ sym shape;
    started = started;
  }

  -- A call that goes through is permitted, and does to the ledger what the ledger's operation does.
  pub invoke-Obeys :
      (ctx : Context) (c : Call) (w w' : W) (p : Option (Promise Callback))
      → Fits w.state
      → invoke ctx c w ≡ done (p, w')
      → Obeys ctx c w w' p
  unfolding invoke
  invoke-Obeys ctx (Call.set_spender x) w w' p fits h =
      let (ran, nothing) = then_nothing _ h in
      let (by_admin, e) = (set_spender_iff ctx x w w').0 ran in
      record {
        permitted = by_admin;
        performed = ap (λ v. ledger_of v.state) e;
        started = ap awaited nothing;
      }
  invoke-Obeys ctx (Call.set_manager x) w w' p fits h =
      let (ran, nothing) = then_nothing _ h in
      let (by_admin, e) = (set_manager_iff ctx x w w').0 ran in
      record {
        permitted = by_admin;
        performed = ap (λ v. ledger_of v.state) e;
        started = ap awaited nothing;
      }
  invoke-Obeys ctx (Call.set_admin x) w w' p fits h =
      let (ran, nothing) = then_nothing _ h in
      let (by_admin, e) = (set_admin_iff ctx x w w').0 ran in
      record {
        permitted = by_admin;
        performed = ap (λ v. ledger_of v.state) e;
        started = ap awaited nothing;
      }
  invoke-Obeys ctx (Call.add_to_whitelist es) w w' p fits h =
      let (ran, nothing) = then_nothing _ h in
      let (batch, addable, e) = (add_to_whitelist_iff ctx es w w').0 ran in
      let (all, distinct) = (Addable-iff ctx w.state es).0 addable in
      manager-Obeys ctx (Call.add_to_whitelist es) w w' p (run_all write w.state es) _ (refl, refl)
        nothing e (run_all_keeps roles write (λ s x. refl) es w.state)
        (limit_of-write_all es w.state) (batch.0, (is_empty_iff es).0 batch.1, all, distinct)
  invoke-Obeys ctx (Call.remove_from_whitelist ks) w w' p fits h =
      let (ran, nothing) = then_nothing _ h in
      let (batch, removable, e) = (remove_from_whitelist_iff ctx ks w w').0 ran in
      let (all, distinct) = (Removable-iff ctx w.state ks).0 removable in
      manager-Obeys ctx (Call.remove_from_whitelist ks) w w' p (run_all erase w.state ks) _
        (refl, refl) nothing e (run_all_keeps roles erase (λ s x. refl) ks w.state)
        (limit_of-erase_all ks w.state) (batch.0, (is_empty_iff ks).0 batch.1, all, distinct)
  invoke-Obeys ctx (Call.set_limit es) w w' p fits h =
      let (ran, nothing) = then_nothing _ h in
      let (batch, settable, e) = (set_limit_iff ctx es w w').0 ran in
      manager-Obeys ctx (Call.set_limit es) w w' p (run_all write w.state es) _ (refl, refl) nothing
        e (run_all_keeps roles write (λ s x. refl) es w.state) (limit_of-write_all es w.state)
        (batch.0, (is_empty_iff es).0 batch.1, (Settable-iff ctx w.state es).0 settable)
  invoke-Obeys ctx (Call.increase_limit cs) w w' p fits h =
      let (ran, nothing) = then_nothing _ h in
      let (batch, other, with, e) = (increase_limit_iff ctx cs w w' fits).0 ran in
      manager-Obeys ctx (Call.increase_limit cs) w w' p (run_all increase w.state cs) _ (refl, refl)
        nothing e (run_all_keeps roles increase (λ s x. refl) cs w.state)
        (limit_of-increase_all cs w.state)
        (batch.0, (is_empty_iff cs).0 batch.1, (NotSelf-iff ctx w.state cs).0 other, with)
  invoke-Obeys ctx (Call.decrease_limit cs) w w' p fits h =
      let (ran, nothing) = then_nothing _ h in
      let (batch, decreasable, e) = (decrease_limit_iff ctx cs w w').0 ran in
      manager-Obeys ctx (Call.decrease_limit cs) w w' p (run_all decrease w.state cs) _ (refl, refl)
        nothing e (run_all_keeps roles decrease (λ s x. refl) cs w.state)
        (limit_of-decrease_all cs w.state)
        (batch.0, (is_empty_iff cs).0 batch.1, (Decreasable-iff ctx w.state cs).0 decreasable)
  invoke-Obeys ctx (Call.transfer r a) w w' p fits h =
      let (q, ran, e) = then_promise _ h in
      let (limit, allowed, pays) = (transfer_iff ctx r a w w' q).0 ran in
      spender-Obeys ctx (Call.transfer r a) w w' p (r, none) a limit refl allowed
        (ap (λ v. v.state) pays.1) (ap awaited (e ∙ ap some pays.0))
        ((within_iff ctx w.state (r, none) a).0 (limit, allowed))
  invoke-Obeys ctx (Call.transfer_ft r t a) w w' p fits h =
      let (q, ran, e) = then_promise _ h in
      let (limit, allowed, pays) = (transfer_ft_iff ctx r a w w' q t).0 ran in
      spender-Obeys ctx (Call.transfer_ft r t a) w w' p (r, some t) a limit refl allowed
        (ap (λ v. v.state) pays.1) (ap awaited (e ∙ ap some pays.0))
        ((within_iff ctx w.state (r, some t) a).0 (limit, allowed))
