-- ===== src/Timelock/Queue/Steps.antt =====
-- Each step of a timelock has one of the effects.
use hos_treasury.Common.{
  ℕ, ◌+◌, ◌≤◌, ◌≡◌, refl, arith, ap, String, ◌∙◌, true, false, Option, none, some, List, [], ◌∷◌,
  sum_by, if◌then◌else◌, ◌==◌,
}
use hos_treasury.Near.{Context, Promise, done}
use hos_treasury.Timelock.Types.{FunctionCall, ProposalApproval, Request, Callback, Sdk}
use hos_treasury.Timelock.Requests.{total_deposit, max_delay_ns}
use hos_treasury.Timelock.Requests.Totals.{deposits, total_deposit_lem}
use hos_treasury.Timelock.Contract.{Contract, new}
use hos_treasury.Timelock.Scheduling.{W, schedule_iff, schedule_proposal_iff, plain, proposal}
use hos_treasury.Timelock.Leaving.{calls_on, promised, execute_iff, cancel_iff}
use hos_treasury.Timelock.Calls.{Call, Reply, nothing, request_id, promise, invoke}
use hos_treasury.Timelock.Calls.Authority.{
  then_reply, invoke-Permitted, by_itself, callback_state, is_setter,
}
use hos_treasury.Timelock.Queue.{
  carried, Timeline, begin, after_call, Step, call, note_ticket, note_departure, paid_in, sent_out,
  carried_by,
}
use hos_treasury.Timelock.Queue.Effects.{Effect, joins, leaves, joining, leaving, staying}

module _ ⦃sdk : Sdk⦄ where
  open sdk use {request_map}

  carried-calls_on :
      (actions : List FunctionCall) (p : Promise Callback)
      → carried (calls_on p actions) ≡ carried p + deposits actions
  carried-calls_on [] p = omega arith
  carried-calls_on (a ∷ actions) p = omega (
    arith,
    carried-calls_on actions (Promise.function_call p a.method_name a.args a.deposit a.gas),
  )

  carried-promised :
      (ctx : Context) (id : ℕ) (r : Request) (bond : ℕ) (approve : Option ProposalApproval)
      → carried (promised ctx id r bond approve) ≡ deposits r.actions
  carried-promised ctx id r bond none =
      omega (arith, carried-calls_on r.actions (Promise.new r.receiver_id))
  carried-promised ctx id r bond (some approval) =
      omega (arith, carried-calls_on r.actions (Promise.new r.receiver_id))

  configured :
      (t : Timeline) (ctx : Context) (c : Call) (w : W) (reply : Reply)
      → is_setter c ≡ true
      → invoke ctx c (begin t.contract) ≡ done (reply, w)
      → (note_ticket ctx c t.contract t.tickets ≡ t.tickets)
        × (note_departure ctx c t.contract t.departures ≡ t.departures)
        × (paid_in ctx c ≡ 0)
        × (sent_out c reply w.promises ≡ 0)
      → Effect t (after_call ctx c reply w t)
  configured t ctx c w reply s h notes =
      let confined = (invoke-Permitted ctx c (begin t.contract) w reply h).1 in
      staying t ctx c w reply (confined.requests_kept s) (confined.ids_kept s) notes

  -- The refund of a cancelled request carries its deposits.
  carried-refund :
      (r : Request) (n : ℕ)
      → n ≡ deposits r.actions
      → sum_by carried (if n == 0 then [] else Promise.transfer (Promise.new r.funder_id) n ∷ [])
        ≡ deposits r.actions
  carried-refund r n e = ground arith

  -- A new timelock has an empty queue.
  pub new-requests :
      (dao_id admin_id : String) (guardians : List String) (delay_ns : ℕ) (self : Contract)
      → new dao_id admin_id guardians delay_ns ≡ done self
      → (self.requests ≡ request_map.new)
        × (self.next_request_id ≡ 0)
        × (self.delay_ns ≤ max_delay_ns)
  unfolding new
  new-requests dao_id admin_id guardians delay_ns self h = ground arith

  pub Step-Effect : {t u : Timeline} → Step t u → Effect t u
  unfolding invoke
  Step-Effect {t} (call ctx (Call.schedule receiver actions p) reply w small h) =
      let (id, ran, e) = then_reply request_id _ h in
      let (can, some_action, paid, _, ew) =
        (schedule_iff ctx receiver actions p (begin t.contract) w id).0 ran in
      let r = plain ctx receiver actions p t.contract in
      let exact : ctx.attached_deposit ≡ deposits r.actions =
        omega (arith, total_deposit_lem r, paid, small) in
      joins ctx.block_timestamp r (
        joining t ctx (Call.schedule receiver actions p) r w reply can exact small refl
          (ap (λ v. v.state) ew) (refl, refl, refl, refl))
  Step-Effect {t} (call ctx (Call.schedule_proposal d k dao b g v p) reply w small h) =
      let (id, ran, e) = then_reply request_id _ h in
      let (can, paid, _, ew) =
        (schedule_proposal_iff ctx d k dao b g v p (begin t.contract) w id).0 ran in
      let r = proposal ctx d k dao b g v p t.contract in
      joins ctx.block_timestamp r (
        joining t ctx (Call.schedule_proposal d k dao b g v p) r w reply can (omega (arith, paid))
          small refl (ap (λ v. v.state) ew) (refl, refl, refl, refl))
  Step-Effect {t} (call ctx (Call.execute id) reply w small h) =
      let (p, ran, e) = then_reply promise _ h in
      let (r, facts) = (execute_iff ctx id (begin t.contract) w p).0 ran in
      let (was, due, gone, ep, ew) = facts in
      let sent : carried_by reply + sum_by carried w.promises ≡ deposits r.actions = omega (
        arith,
        ap carried_by (e ∙ ap promise ep),
        carried-promised ctx id r (total_deposit r) r.approve,
        ap (λ v. sum_by carried v.promises) ew,
      ) in
      leaves id ctx.block_timestamp true r (
        leaving t ctx (Call.execute id) id true r w reply was (ap (λ v. v.state) ew)
          (λ _. (due, gone)) (λ h. absurd (cc)) (λ _. sent) (refl, refl, refl))
  Step-Effect {t} (call ctx (Call.cancel id) reply w small h) =
      let (_, ran, e) = then_reply (λ _. nothing) _ h in
      let (r, facts) = (cancel_iff ctx id (begin t.contract) w).0 ran in
      let (guardian, was, ew) = facts in
      leaves id ctx.block_timestamp false r (
        leaving t ctx (Call.cancel id) id false r w reply was (ap (λ v. v.state) ew)
          (λ h. absurd (cc)) (λ _. guardian)
          (λ q. omega (
            arith,
            ap carried_by e,
            ap (λ v. sum_by carried v.promises) ew,
            carried-refund r (total_deposit r) (omega (arith, total_deposit_lem r, q)),
          ))
          (refl, refl, refl))
  Step-Effect {t} (call ctx (Call.on_proposal_added id dao f b k g result) reply w small h) =
      let (_, (p, ran, _)) = by_itself ctx (begin t.contract) w id dao f b k g result reply h in
      let kept = (callback_state (begin t.contract) w p id dao f b k g result ran).0 in
      staying t ctx (Call.on_proposal_added id dao f b k g result) w reply
        (ap (λ s. s.requests) kept) (ap (λ s. s.next_request_id) kept) (refl, refl, refl, refl)
  Step-Effect {t} (call ctx (Call.set_dao a) reply w small h) =
      configured t ctx (Call.set_dao a) w reply refl h (refl, refl, refl, refl)
  Step-Effect {t} (call ctx (Call.set_admin a) reply w small h) =
      configured t ctx (Call.set_admin a) w reply refl h (refl, refl, refl, refl)
  Step-Effect {t} (call ctx (Call.set_guardians gs) reply w small h) =
      configured t ctx (Call.set_guardians gs) w reply refl h (refl, refl, refl, refl)
  Step-Effect {t} (call ctx (Call.set_delay d) reply w small h) =
      configured t ctx (Call.set_delay d) w reply refl h (refl, refl, refl, refl)
