-- ===== src/Timelock/Calls/Authority.antt =====
-- Which call may change what: the DAO, the guardians and the admin.
use hos_treasury.Common.{
  ℕ, ◌≤◌, ◌≡◌, arith, String, Bool, true, false, Option, str_eq, str_eq_iff, Bool-cases, inl, inr,
}
use hos_treasury.Near.{Context, Promise, Outcome, done, panic, CallResult, ok, err}
use hos_treasury.Timelock.Types.{Callback, Sdk}
use hos_treasury.Timelock.Requests.{max_delay_ns}
use hos_treasury.Timelock.Contract.{Contract}
use hos_treasury.Timelock.Admin.{set_dao, set_admin, set_guardians, set_delay}
use hos_treasury.Timelock.Execute
use hos_treasury.Timelock.Events
use hos_treasury.Timelock.Scheduling.{W, schedule_iff, schedule_proposal_iff}
use hos_treasury.Timelock.Leaving.{execute_iff, cancel_iff}
use hos_treasury.Timelock.Calls.{
  Call, Reply, nothing, request_id, promise, optional_promise, invoke,
}

-- The reply of a call that runs and then wraps its result.
pub then_reply :
    {A X : Type 0} (wrap : A → Reply) (o : Outcome (A × X)) {reply : Reply} {w' : X}
    → ◌≡◌ {A = Outcome (Reply × X)}
        (elim o [ done r ↦ done (wrap r.0, r.1) | panic e ↦ panic e ])
        (done (reply, w'))
    → (a : A) × (o ≡ done (a, w')) × (reply ≡ wrap a)
then_reply wrap (done r) h = (r.0, ground arith, ground arith)
then_reply wrap (panic e) h = absurd (cc)

module _ ⦃sdk : Sdk⦄ where
  open sdk use {guardian_set}

  abbrev pub is_setter : Call → Bool
  is_setter (Call.set_dao a) = true
  is_setter (Call.set_admin a) = true
  is_setter (Call.set_guardians gs) = true
  is_setter (Call.set_delay d) = true
  is_setter _ = false

  -- Who may make a call: the DAO schedules, a guardian cancels, the admin configures, the account
  -- itself makes its callback, anyone executes.
  abbrev pub IsPermitted : Context → Contract → Call → Type 0
  IsPermitted ctx self (Call.schedule r actions p) = ctx.predecessor_account_id ≡ self.dao_id
  IsPermitted ctx self (Call.schedule_proposal d k dao b g v p) =
      ctx.predecessor_account_id ≡ self.dao_id
  IsPermitted ctx self (Call.execute id) = Unit
  IsPermitted ctx self (Call.cancel id) =
      guardian_set.contains self.guardians ctx.predecessor_account_id ≡ true
  IsPermitted ctx self (Call.on_proposal_added id dao f b k g result) =
      ctx.predecessor_account_id ≡ ctx.current_account_id
  IsPermitted ctx self (Call.set_dao a) = ctx.predecessor_account_id ≡ self.admin_id
  IsPermitted ctx self (Call.set_admin a) = ctx.predecessor_account_id ≡ self.admin_id
  IsPermitted ctx self (Call.set_guardians gs) = ctx.predecessor_account_id ≡ self.admin_id
  IsPermitted ctx self (Call.set_delay d) = ctx.predecessor_account_id ≡ self.admin_id

  pub record Confined (c : Call) (self after : Contract) : Type 0 where
    pub dao_kept : is_setter c ≡ false → after.dao_id ≡ self.dao_id
    pub admin_kept : is_setter c ≡ false → after.admin_id ≡ self.admin_id
    pub guardians_kept : is_setter c ≡ false → after.guardians ≡ self.guardians
    pub delay_kept : is_setter c ≡ false → after.delay_ns ≡ self.delay_ns
    pub requests_kept : is_setter c ≡ true → after.requests ≡ self.requests
    pub ids_kept : is_setter c ≡ true → after.next_request_id ≡ self.next_request_id
    pub delay_capped : self.delay_ns ≤ max_delay_ns → after.delay_ns ≤ max_delay_ns

  -- A callback that goes through is made by the account itself.
  pub by_itself :
      (ctx : Context) (w w' : W) (id : ℕ) (dao funder : String) (bond : ℕ) (kind : String) (gas : ℕ)
      (result : CallResult ℕ) (reply : Reply)
      → invoke ctx (Call.on_proposal_added id dao funder bond kind gas result) w ≡ done (reply, w')
      → (ctx.predecessor_account_id ≡ ctx.current_account_id)
        × ((p : Option (Promise Callback)) × (Execute.on_proposal_added id dao funder bond kind gas
                result w
              ≡ done (p, w'))
            × (reply ≡ optional_promise p))
  unfolding invoke Execute.assert_private
  by_itself ctx w w' id dao funder bond kind gas result reply h =
      elim (Bool-cases (str_eq ctx.predecessor_account_id ctx.current_account_id)) [
        | inl e ↦ (
          (str_eq_iff ctx.predecessor_account_id ctx.current_account_id).0 e,
          then_reply optional_promise
              (Execute.on_proposal_added id dao funder bond kind gas result w) (ground (arith, e)),
        )
        | inr e ↦ absurd (ground (arith, e))
      ]

  pub callback_state :
      (w w' : W) (p : Option (Promise Callback)) (id : ℕ) (dao funder : String) (bond : ℕ)
      (kind : String) (gas : ℕ) (result : CallResult ℕ)
      → Execute.on_proposal_added id dao funder bond kind gas result w ≡ done (p, w')
      → (w'.state ≡ w.state) × (w'.promises ≡ w.promises)
  unfolding Execute.on_proposal_added Events.approve_proposal Events.proposal_failed
  callback_state w w' p id dao funder bond kind gas (ok n) h = ground arith
  callback_state w w' p id dao funder bond kind gas (err e) h = ground arith

  -- A call goes through only for who may make it, the callback only for the account itself. Only the admin's calls change the DAO, the admin,
  -- the guardians and the delay, and they leave the queue alone; no call takes the delay over 30
  -- days.
  pub invoke-Permitted :
      (ctx : Context) (c : Call) (w w' : W) (reply : Reply)
      → invoke ctx c w ≡ done (reply, w')
      → IsPermitted ctx w.state c × Confined c w.state w'.state
  unfolding invoke set_dao set_admin set_guardians set_delay
  invoke-Permitted ctx (Call.schedule r actions p) w w' reply h =
      let (id, ran, _) = then_reply request_id _ h in
      let facts = (schedule_iff ctx r actions p w w' id).0 ran in ground arith
  invoke-Permitted ctx (Call.schedule_proposal d k dao b g v p) w w' reply h =
      let (id, ran, _) = then_reply request_id _ h in
      let facts = (schedule_proposal_iff ctx d k dao b g v p w w' id).0 ran in ground arith
  invoke-Permitted ctx (Call.execute id) w w' reply h =
      let (p, ran, _) = then_reply promise _ h in
      let (r, facts) = (execute_iff ctx id w w' p).0 ran in let e = facts.4 in ground arith
  invoke-Permitted ctx (Call.cancel id) w w' reply h =
      let (u, ran, _) = then_reply (λ _. nothing) _ h in
      let (r, facts) = (cancel_iff ctx id w w').0 ran in
      let e = facts.2 in let g = facts.0 in ground arith
  invoke-Permitted ctx (Call.on_proposal_added id dao f b k g result) w w' reply h =
      let (itself, (p, ran, _)) = by_itself ctx w w' id dao f b k g result reply h in
      let facts = callback_state w w' p id dao f b k g result ran in ground (arith, itself)
  invoke-Permitted ctx (Call.set_dao a) w w' reply h =
      ground (arith, str_eq_iff ctx.predecessor_account_id w.state.admin_id)
  invoke-Permitted ctx (Call.set_admin a) w w' reply h =
      ground (arith, str_eq_iff ctx.predecessor_account_id w.state.admin_id)
  invoke-Permitted ctx (Call.set_guardians gs) w w' reply h =
      ground (arith, str_eq_iff ctx.predecessor_account_id w.state.admin_id)
  invoke-Permitted ctx (Call.set_delay d) w w' reply h =
      ground (arith, str_eq_iff ctx.predecessor_account_id w.state.admin_id)
