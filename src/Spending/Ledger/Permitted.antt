-- ===== src/Spending/Ledger/Permitted.antt =====
-- Each call that the ledger permits goes through.
use hos_treasury.Common.{◌≡◌, refl, Option, none, some}
use hos_treasury.Near.{Context, Promise, Outcome, done, panic}
use hos_treasury.Spending.Types.{Callback, Sdk}
use hos_treasury.Spending.Calls.{Call, invoke}
use hos_treasury.Spending.Whitelist.Rounds.{W, IsBatch}
use hos_treasury.Spending.Whitelist.Additions.{add_to_whitelist_iff, set_limit_iff}
use hos_treasury.Spending.Whitelist.Removals.{remove_from_whitelist_iff}
use hos_treasury.Spending.Whitelist.Changes.{Fits, increase_limit_iff, decrease_limit_iff}
use hos_treasury.Spending.Transfer.Effects.{
  near_promise, token_promise, transfer_iff, transfer_ft_iff,
}
use hos_treasury.Spending.Ledger.{Permits}
use hos_treasury.Spending.Ledger.Batches.{
  ledger_of, is_empty_iff, Addable-iff, Settable-iff, Removable-iff, NotSelf-iff, Decreasable-iff,
}
use hos_treasury.Spending.Ledger.Calls.{set_spender_iff, set_manager_iff, set_admin_iff, within_iff}

module _ ⦃sdk : Sdk⦄ where
  nothing_of_done :
      (o : Outcome (Unit {0} × W)) (w' : W)
      → o ≡ done (tt, w')
      → ◌≡◌ {A = Outcome (Option (Promise Callback) × W)}
          (elim o [ done r ↦ done (none, r.1) | panic e ↦ panic e ])
          (done (none, w'))
  nothing_of_done (done r) w' h = cc
  nothing_of_done (panic e) w' h = absurd (cc)

  promise_of_done :
      (o : Outcome (Promise Callback × W)) (p : Promise Callback) (w' : W)
      → o ≡ done (p, w')
      → ◌≡◌ {A = Outcome (Option (Promise Callback) × W)}
          (elim o [ done r ↦ done (some r.0, r.1) | panic e ↦ panic e ])
          (done (some p, w'))
  promise_of_done (done r) p w' h = cc
  promise_of_done (panic e) p w' h = absurd (cc)

  -- A call that is permitted goes through.
  pub invoke_when :
      (ctx : Context) (c : Call) (w : W)
      → Fits w.state
      → Permits ctx (ledger_of w.state) c
      → (p : Option (Promise Callback)) × (w' : W) × (invoke ctx c w ≡ done (p, w'))
  unfolding invoke
  invoke_when ctx (Call.set_spender x) w fits h =
      (none, _, nothing_of_done _ _ ((set_spender_iff ctx x w _).1 (h, refl)))
  invoke_when ctx (Call.set_manager x) w fits h =
      (none, _, nothing_of_done _ _ ((set_manager_iff ctx x w _).1 (h, refl)))
  invoke_when ctx (Call.set_admin x) w fits h =
      (none, _, nothing_of_done _ _ ((set_admin_iff ctx x w _).1 (h, refl)))
  invoke_when ctx (Call.add_to_whitelist es) w fits (by_manager, some_entry, all, distinct) =
      let batch : IsBatch ctx w.state es = (by_manager, (is_empty_iff es).1 some_entry) in
      (
        none,
        _,
        nothing_of_done _ _ (
            (add_to_whitelist_iff ctx es w _).1
              (batch, (Addable-iff ctx w.state es).1 (all, distinct), refl)),
      )
  invoke_when ctx (Call.remove_from_whitelist ks) w fits (by_manager, some_key, all, distinct) =
      let batch : IsBatch ctx w.state ks = (by_manager, (is_empty_iff ks).1 some_key) in
      (
        none,
        _,
        nothing_of_done _ _ (
            (remove_from_whitelist_iff ctx ks w _).1
              (batch, (Removable-iff ctx w.state ks).1 (all, distinct), refl)),
      )
  invoke_when ctx (Call.set_limit es) w fits (by_manager, some_entry, all) =
      let batch : IsBatch ctx w.state es = (by_manager, (is_empty_iff es).1 some_entry) in
      (
        none,
        _,
        nothing_of_done _ _
            ((set_limit_iff ctx es w _).1 (batch, (Settable-iff ctx w.state es).1 all, refl)),
      )
  invoke_when ctx (Call.increase_limit cs) w fits (by_manager, some_change, other, with) =
      let batch : IsBatch ctx w.state cs = (by_manager, (is_empty_iff cs).1 some_change) in
      (
        none,
        _,
        nothing_of_done _ _ (
            (increase_limit_iff ctx cs w _ fits).1
              (batch, (NotSelf-iff ctx w.state cs).1 other, with, refl)),
      )
  invoke_when ctx (Call.decrease_limit cs) w fits (by_manager, some_change, all) =
      let batch : IsBatch ctx w.state cs = (by_manager, (is_empty_iff cs).1 some_change) in
      (
        none,
        _,
        nothing_of_done _ _ (
            (decrease_limit_iff ctx cs w _).1
              (batch, (Decreasable-iff ctx w.state cs).1 all, refl)),
      )
  invoke_when ctx (Call.transfer r a) w fits h =
      let (limit, allowed) = (within_iff ctx w.state (r, none) a).1 h in
      (
        some (near_promise ctx r a),
        _,
        promise_of_done _ _ _ ((transfer_iff ctx r a w _ _).1 (limit, allowed, (refl, refl))),
      )
  invoke_when ctx (Call.transfer_ft r t a) w fits h =
      let (limit, allowed) = (within_iff ctx w.state (r, some t) a).1 h in
      (
        some (token_promise ctx r t a),
        _,
        promise_of_done _ _ _ ((transfer_ft_iff ctx r a w _ _ t).1 (limit, allowed, (refl, refl))),
      )
