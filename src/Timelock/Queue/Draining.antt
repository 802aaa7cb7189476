-- ===== src/Timelock/Queue/Draining.antt =====
-- The queue never locks up: once the time of every pending request has come, anyone can empty it.
use mathlib.Core.List.{Memᴰ}
use native.Mathlib.Decide.{dec_lt, ℕ_discrete}
use hos_treasury.Common.{
  ℕ, zero, suc, ◌≤◌, ◌<◌, ◌≡◌, refl, arith, ap, sym, ◌∙◌, Option, Option-cases, none, some, List,
  [], ◌∷◌, inl, inr, true, sum_by,
}
use hos_treasury.Near.{Context, Promise, done}
use hos_treasury.Near.Lookup.{absent_after_remove}
use hos_treasury.Timelock.Types.{Request, Callback, Sdk}
use hos_treasury.Timelock.Contract.{Contract}
use hos_treasury.Timelock.Events
use hos_treasury.Timelock.Execute
use hos_treasury.Timelock.Scheduling.{W, pending, after_event}
use hos_treasury.Timelock.Leaving.{removed, IsGone, execution_of, execute_iff}
use hos_treasury.Timelock.Calls.{Call, Reply, promise, invoke}
use hos_treasury.Timelock.Queue.{Departure, Timeline, begin, after_call, Reach, next, call}
use hos_treasury.Timelock.Queue.Effects.{none-some}
use hos_treasury.Timelock.Queue.Once.{Reach-IsOnce}
use hos_treasury.Timelock.Queue.Order.{Reach-IsOrdered}
use hos_treasury.Timelock.Queue.Escrow.{entry_deposits, Reach-IsEscrow}

module _ ⦃sdk : Sdk⦄ where
  open sdk use {request_map}

  -- The time of every pending request has come.
  abbrev pub IsDue : ℕ → Contract → Type 0
  IsDue time self = (id : ℕ) (r : Request) → pending self id ≡ some r → r.execute_after ≤ time

  -- Calls of `execute`, one after another, that all go through.
  pub data Executions (ctx : Context) (t : Timeline) : Timeline → Type 0 where
    stop : Executions ctx t t
    execute :
        {u : Timeline} (id : ℕ) (reply : Reply) (w : W)
        → Executions ctx t u
        → invoke ctx (Call.execute id) (begin u.contract) ≡ done (reply, w)
        → Executions ctx t (after_call ctx (Call.execute id) reply w u)

  -- The request was executed.
  abbrev pub WasExecuted : ℕ → Request → List Departure → Type 0
  WasExecuted id r ds =
      (d : Departure) × Memᴰ d ds × (d.id ≡ id) × (d.executed ≡ true) × (d.request ≡ some r)

  Executions-Reach :
      (ctx : Context) {t u : Timeline}
      → ctx.attached_deposit ≡ 0
      → Reach t
      → Executions ctx t u
      → Reach u
  Executions-Reach ctx free r stop = r
  Executions-Reach ctx free r (execute id reply w before h) =
      next (Executions-Reach ctx free r before)
        (call ctx (Call.execute id) reply w (omega (arith, free)) h)

  invoke-execute :
      (ctx : Context) (id : ℕ) (p : Promise Callback) (w w' : W)
      → Execute.execute ctx id w ≡ done (p, w')
      → invoke ctx (Call.execute id) w ≡ done (promise p, w')
  unfolding invoke
  invoke-execute ctx id p w w' h = ground arith

  -- A request whose predecessor is not pending can be executed once its time has come.
  pub execute_runs :
      (ctx : Context) (self : Contract) (id : ℕ) (r : Request)
      → pending self id ≡ some r
      → r.execute_after ≤ ctx.block_timestamp
      → IsGone (removed self id) r.predecessor_id
      → (w : W) × (invoke ctx (Call.execute id) (begin self)
          ≡ done (promise (execution_of ctx id r), w))
        × (w.state ≡ removed self id)
        × (w.promises ≡ [])
  execute_runs ctx self id r was due gone =
      let w =
        after_event (begin self) (removed self id) "execute"
          (Events.execute_payload id r.receiver_id) in
      let run =
        (execute_iff ctx id (begin self) w (execution_of ctx id r)).1
          (r, (was, due, gone, refl, refl)) in
      (w, invoke-execute ctx id (execution_of ctx id r) (begin self) w run, refl, refl)

  -- The timelines after all requests below an id were executed.
  record IsDrained (ctx : Context) (t : Timeline) (k : ℕ) (u : Timeline) : Type 0 where
    run : Executions ctx t u
    below : (id : ℕ) → id < k → pending u.contract id ≡ none
    above : (id : ℕ) → k ≤ id → pending u.contract id ≡ pending t.contract id
    executed :
        (id : ℕ) (r : Request)
        → id < k
        → pending t.contract id ≡ some r
        → WasExecuted id r u.departures

  IsGone-below :
      (self : Contract) (k : ℕ) (before : Option ℕ)
      → ((id : ℕ) → id < k → pending self id ≡ none)
      → ((p : ℕ) → before ≡ some p → p < k)
      → IsGone (removed self k) before
  IsGone-below self k none below earlier = tt
  IsGone-below self k (some p) below earlier =
      absent_after_remove request_map self.requests k p (below p (earlier p refl))

  IsDrained-none :
      (ctx : Context) (t : Timeline) (k : ℕ) (u : Timeline)
      → pending u.contract k ≡ none
      → IsDrained ctx t k u
      → IsDrained ctx t (suc k) u
  IsDrained-none ctx t k u gone d = record {
    run = d.run;
    below = λ id small. elim (ℕ_discrete id k) [
      | yes p ↦ ap (pending u.contract) p ∙ gone
      | no p ↦ d.below id (omega (arith, p, small))
    ];
    above = λ id large. d.above id (omega arith);
    executed = λ id r small was. elim (ℕ_discrete id k) [
      | yes p ↦
          absurd
            (none-some (sym gone ∙ d.above k (omega arith) ∙ ap (pending t.contract) (sym p) ∙ was))
      | no p ↦ d.executed id r (omega (arith, p, small)) was
    ];
  }

  IsDrained-some :
      (ctx : Context) (t : Timeline) (k : ℕ) (u : Timeline) (r : Request) (w : W)
      → pending u.contract k ≡ some r
      → invoke ctx (Call.execute k) (begin u.contract) ≡ done (promise (execution_of ctx k r), w)
      → w.state ≡ removed u.contract k
      → IsDrained ctx t k u
      → IsDrained ctx t
          (suc k)
          (after_call ctx (Call.execute k) (promise (execution_of ctx k r)) w u)
  IsDrained-some ctx t k u r w was h e d = record {
    run = execute k (promise (execution_of ctx k r)) w d.run h;
    below = λ id small. ap (λ s. pending s id) e ∙ elim (ℕ_discrete id k) [
      | yes p ↦
          ap (pending (removed u.contract k)) p ∙ request_map.get-remove_self u.contract.requests k
      | no p ↦
          absent_after_remove request_map u.contract.requests k id
            (d.below id (omega (arith, p, small)))
    ];
    above = λ id large.
        ap (λ s. pending s id) e
        ∙ request_map.get-remove_ne u.contract.requests k id (λ p. omega (arith, p, large))
        ∙ d.above id (omega arith);
    executed = λ id x small there. elim (ℕ_discrete id k) [
      | yes p ↦ (
        _,
        Memᴰ.head refl,
        sym p,
        refl,
        d.above k (omega arith) ∙ ap (pending t.contract) (sym p) ∙ there,
      )
      | no p ↦ later (d.executed id x (omega (arith, p, small)) there)
    ];
  }
    where
      later :
          {id : ℕ} {x : Request} {o : Departure} {ds : List Departure}
          → WasExecuted id x ds
          → WasExecuted id x (o ∷ ds)
      later (o, m, same, run, there) = (o, Memᴰ.tail m, same, run, there)

  drained :
      (ctx : Context) (t : Timeline)
      → Reach t
      → ctx.attached_deposit ≡ 0
      → IsDue ctx.block_timestamp t.contract
      → (k : ℕ) → (u : Timeline) × IsDrained ctx t k u
  drained ctx t reach free due zero = (
    t,
    record {
      run = stop;
      below = λ id small. absurd (omega arith);
      above = λ id large. refl;
      executed = λ id r small was. absurd (omega arith);
    },
  )
  drained ctx t reach free due (suc k) =
      let (u, d) = drained ctx t reach free due k in
      elim (Option-cases (pending u.contract k)) [
        | inl gone ↦ (u, IsDrained-none ctx t k u gone d)
        | inr (r, was) ↦
            let ordered = Reach-IsOrdered u (Executions-Reach ctx free reach d.run) in
            let time = due k r (sym (d.above k (omega arith)) ∙ was) in
            let gone =
              IsGone-below u.contract k r.predecessor_id d.below
                (λ p e. ordered.earlier k p r was e) in
            let (w, run, e, _) = execute_runs ctx u.contract k r was time gone in
            (_, IsDrained-some ctx t k u r w was run e d)
      ]

  no_deposits :
      (l : List (ℕ × Request))
      → ((id : ℕ) (r : Request) → ¬ Memᴰ (id, r) l)
      → sum_by entry_deposits l ≡ 0
  no_deposits [] h = refl
  no_deposits (e ∷ l) h = absurd (h e.0 e.1 (Memᴰ.head refl))

  pub record Empties (ctx : Context) (t u : Timeline) : Type 0 where
    pub run : Executions ctx t u
    pub empty : (id : ℕ) → pending u.contract id ≡ none
    pub all_executed :
        (id : ℕ) (r : Request) → pending t.contract id ≡ some r → WasExecuted id r u.departures
    pub paid_out : u.released ≡ u.received

  -- No request is stuck: in every timelock that the constructor and then calls lead to, when the time
  -- of every pending request has come, calls of `execute`, by any account and with no deposit, go
  -- through one after another until no request is pending. Every request that was pending is then
  -- executed, and everything that scheduling was paid has been sent out.
  pub queue_drains :
      (ctx : Context) (t : Timeline)
      → Reach t
      → ctx.attached_deposit ≡ 0
      → IsDue ctx.block_timestamp t.contract
      → (u : Timeline) × Empties ctx t u
  queue_drains ctx t reach free due =
      let (u, d) = drained ctx t reach free due t.contract.next_request_id in
      let once = Reach-IsOnce t reach in
      let empty : (id : ℕ) → pending u.contract id ≡ none = λ id.
        elim (dec_lt id t.contract.next_request_id) [
          | yes small ↦ d.below id small
          | no large ↦ elim (Option-cases (pending t.contract id)) [
            | inl gone ↦ d.above id (omega arith) ∙ gone
            | inr (r, was) ↦ absurd (large (once.below id r was))
          ]
        ] in
      let none_left = no_deposits (request_map.iter u.contract.requests) (λ id r m.
        none-some (sym (empty id) ∙ (request_map.mem-iter u.contract.requests id r).0 m)) in
      (
        u,
        record {
          run = d.run;
          empty = empty;
          all_executed = λ id r was. d.executed id r (once.below id r was) was;
          paid_out = omega (
            arith,
            none_left,
            (Reach-IsEscrow u (Executions-Reach ctx free reach d.run)).balance,
          );
        },
      )
