-- ===== src/Timelock/Queue/Effects.antt =====
-- What a step does to the queue and to the history: nothing, one request more, or one less.
use hos_treasury.Common.{
  ℕ, ◌+◌, ◌≤◌, ◌<◌, ◌≡◌, arith, ap, ◌∙◌, Bool, true, false, String, Option, none, some, ◌∷◌, min,
  u64_max, u128_max,
}
use hos_treasury.Near.{Context}
use hos_treasury.Timelock.Types.{Request, Sdk}
use hos_treasury.Timelock.Requests.Totals.{deposits}
use hos_treasury.Timelock.Scheduling.{W, pending, queued, IsPending, CanQueue}
use hos_treasury.Timelock.Leaving.{removed, IsGone}
use hos_treasury.Timelock.Calls.{Call, Reply}
use hos_treasury.Timelock.Queue.{
  Ticket, Timeline, after_call, ticket_of, note_ticket, note_departure, departure_of, paid_in,
  sent_out,
}

pub none-some : {r : Request} → ¬ (◌≡◌ {A = Option Request} none (some r))
none-some e = cc

module _ ⦃sdk : Sdk⦄ where
  open sdk use {guardian_set, request_map}

  pub record Stays (t u : Timeline) : Type 0 where
    pub requests : u.contract.requests ≡ t.contract.requests
    pub next_id : u.contract.next_request_id ≡ t.contract.next_request_id
    pub tickets : u.tickets ≡ t.tickets
    pub departures : u.departures ≡ t.departures
    pub received : u.received ≡ t.received
    pub released : u.released ≡ t.released

  pub record Joins (t u : Timeline) (at : ℕ) (r : Request) : Type 0 where
    pub requests :
        u.contract.requests ≡ request_map.insert t.contract.requests t.contract.next_request_id r
    pub next_id : u.contract.next_request_id ≡ t.contract.next_request_id + 1
    pub tickets :
        u.tickets
        ≡ record {
          id = t.contract.next_request_id;
          scheduled_by = t.contract.dao_id;
          dao = t.contract.dao_id;
          at = at;
          delay = t.contract.delay_ns;
          request = some r;
        }
          ∷ t.tickets
    pub departures : u.departures ≡ t.departures
    pub received : u.received ≡ t.received + deposits r.actions
    pub released : u.released ≡ t.released
    pub due : r.execute_after ≡ min (at + t.contract.delay_ns) u64_max
    pub predecessor : IsPending t.contract r.predecessor_id
    pub small : deposits r.actions < u128_max

  pub record Leaves (t u : Timeline) (id at : ℕ) (executed : Bool) (r : Request) : Type 0 where
    pub guardian : Bool
    pub was : pending t.contract id ≡ some r
    pub requests : u.contract.requests ≡ (request_map.remove t.contract.requests id).0
    pub next_id : u.contract.next_request_id ≡ t.contract.next_request_id
    pub tickets : u.tickets ≡ t.tickets
    pub departures :
        u.departures
        ≡ record { id = id; at = at; by_guardian = guardian; executed = executed; request = some r }
          ∷ t.departures
    pub received : u.received ≡ t.received
    pub released : deposits r.actions < u128_max → u.released ≡ t.released + deposits r.actions
    pub vetoed : executed ≡ false → guardian ≡ true
    pub due : executed ≡ true → r.execute_after ≤ at
    pub predecessor : executed ≡ true → IsGone (removed t.contract id) r.predecessor_id

  pub data Effect (t u : Timeline) : Type 0 where
    stays : Stays t u → Effect t u
    joins : (at : ℕ) (r : Request) → Joins t u at r → Effect t u
    leaves : (id at : ℕ) (executed : Bool) (r : Request) → Leaves t u id at executed r → Effect t u

  -- A request that may join, with the deposit that comes along, does join.
  pub joining :
      (t : Timeline) (ctx : Context) (c : Call) (r : Request) (w : W) (reply : Reply)
      → CanQueue ctx t.contract r
      → ctx.attached_deposit ≡ deposits r.actions
      → ctx.attached_deposit < u128_max
      → r.execute_after ≡ min (ctx.block_timestamp + t.contract.delay_ns) u64_max
      → w.state ≡ queued t.contract r
      → (note_ticket ctx c t.contract t.tickets ≡ ticket_of ctx t.contract r ∷ t.tickets)
        × (note_departure ctx c t.contract t.departures ≡ t.departures)
        × (paid_in ctx c ≡ ctx.attached_deposit)
        × (sent_out c reply w.promises ≡ 0)
      → Joins t (after_call ctx c reply w t) ctx.block_timestamp r
  joining t ctx c r w reply can paid small due e (on_ticket, on_departure, on_paid, on_sent) =
      let ticket : String → Ticket = λ by. record {
        id = t.contract.next_request_id;
        scheduled_by = by;
        dao = t.contract.dao_id;
        at = ctx.block_timestamp;
        delay = t.contract.delay_ns;
        request = some r;
      } in
      record {
        requests = ap (λ s. s.requests) e;
        next_id = ap (λ s. s.next_request_id) e;
        tickets = on_ticket ∙ ap (λ by. ticket by ∷ t.tickets) can.by_dao;
        departures = on_departure;
        received = ap (λ n. t.received + n) (on_paid ∙ paid);
        released = omega (arith, on_sent);
        due = due;
        predecessor = can.after_pending;
        small = omega (arith, paid);
      }

  -- A request that has left, with its deposit sent out.
  pub leaving :
      (t : Timeline) (ctx : Context) (c : Call) (id : ℕ) (executed : Bool) (r : Request) (w : W)
      (reply : Reply)
      → pending t.contract id ≡ some r
      → w.state ≡ removed t.contract id
      → (executed ≡ true
          → (r.execute_after ≤ ctx.block_timestamp)
            × IsGone (removed t.contract id) r.predecessor_id)
      → (executed ≡ false
          → guardian_set.contains t.contract.guardians ctx.predecessor_account_id ≡ true)
      → (deposits r.actions < u128_max → sent_out c reply w.promises ≡ deposits r.actions)
      → (note_ticket ctx c t.contract t.tickets ≡ t.tickets)
        × (note_departure ctx c t.contract t.departures
            ≡ departure_of ctx t.contract id executed ∷ t.departures)
        × (paid_in ctx c ≡ 0)
      → Leaves t (after_call ctx c reply w t) id ctx.block_timestamp executed r
  leaving t ctx c id executed r w reply was e allowed veto sent (on_ticket, on_departure, on_paid) =
      record {
        guardian = guardian_set.contains t.contract.guardians ctx.predecessor_account_id;
        was = was;
        requests = ap (λ s. s.requests) e;
        next_id = ap (λ s. s.next_request_id) e;
        tickets = on_ticket;
        departures =
            on_departure
            ∙ ap
                (λ q.
                  record {
                    id = id;
                    at = ctx.block_timestamp;
                    by_guardian =
                        guardian_set.contains t.contract.guardians ctx.predecessor_account_id;
                    executed = executed;
                    request = q;
                  }
                  ∷ t.departures)
                was;
        received = omega (arith, on_paid);
        released = λ small. ap (λ n. t.released + n) (sent small);
        vetoed = veto;
        due = λ h. (allowed h).0;
        predecessor = λ h. (allowed h).1;
      }

  -- A call that neither schedules nor executes nor cancels leaves queue and history as they are.
  pub staying :
      (t : Timeline) (ctx : Context) (c : Call) (w : W) (reply : Reply)
      → w.state.requests ≡ t.contract.requests
      → w.state.next_request_id ≡ t.contract.next_request_id
      → (note_ticket ctx c t.contract t.tickets ≡ t.tickets)
        × (note_departure ctx c t.contract t.departures ≡ t.departures)
        × (paid_in ctx c ≡ 0)
        × (sent_out c reply w.promises ≡ 0)
      → Effect t (after_call ctx c reply w t)
  staying t ctx c w reply e f (on_ticket, on_departure, on_paid, on_sent) = stays (record {
    requests = e;
    next_id = f;
    tickets = on_ticket;
    departures = on_departure;
    received = omega (arith, on_paid);
    released = omega (arith, on_sent);
  })
