-- ===== src/Timelock/Queue/Delay.antt =====
-- No request leaves the queue before the delay that was set when it was scheduled is over.
use mathlib.Core.List.{Memᴰ}
use hos_treasury.Common.{
  ℕ, ◌+◌, ◌≤◌, ◌≡◌, refl, arith, ap, sym, subst, ◌∙◌, some, List, ◌∷◌, inl, inr, min, u64_max, true,
  false,
}
use hos_treasury.Near.Lookup.{found_after_insert, found_after_remove}
use hos_treasury.Timelock.Types.{Request, Sdk}
use hos_treasury.Timelock.Scheduling.{pending}
use hos_treasury.Timelock.Queue.{Ticket, Departure, Timeline, Reach, start, next}
use hos_treasury.Timelock.Queue.Effects.{Effect, stays, joins, leaves, none-some}
use hos_treasury.Timelock.Queue.Steps.{Step-Effect, new-requests}

-- The ticket of a request: the DAO scheduled it with this id, and it may run when the delay of that time is
-- over.
pub record IsTicketOf (id : ℕ) (r : Request) (τ : Ticket) : Type 0 where
  pub same_id : τ.id ≡ id
  pub by_dao : τ.scheduled_by ≡ τ.dao
  pub same_request : τ.request ≡ some r
  pub due : r.execute_after ≡ min (τ.at + τ.delay) u64_max

-- The request was scheduled as it is.
abbrev pub HasTicket : List Ticket → ℕ → Request → Type 0
HasTicket tickets id r = (τ : Ticket) × Memᴰ τ tickets × IsTicketOf id r τ

-- The request that left was scheduled as it is; if it was executed, its time had come, and if it was
-- cancelled, a guardian asked for it.
abbrev pub IsServed : List Ticket → Departure → Type 0
IsServed tickets d =
    (r : Request) × (d.request ≡ some r)
    × HasTicket tickets d.id r
    × (d.executed ≡ true → r.execute_after ≤ d.at)
    × (d.executed ≡ false → d.by_guardian ≡ true)

module _ ⦃sdk : Sdk⦄ where
  open sdk use {request_map}

  pub record IsPunctual (t : Timeline) : Type 0 where
    pub queue_served :
        (id : ℕ) (r : Request) → pending t.contract id ≡ some r → HasTicket t.tickets id r
    pub departures_served : (d : Departure) → Memᴰ d t.departures → IsServed t.tickets d

  later :
      {tickets : List Ticket} (τ : Ticket) (id : ℕ) (r : Request)
      → HasTicket tickets id r
      → HasTicket (τ ∷ tickets) id r
  later τ id r (σ, m, q) = (σ, Memᴰ.tail m, q)

  Effect-IsPunctual : (t u : Timeline) → Effect t u → IsPunctual t → IsPunctual u
  Effect-IsPunctual t u (stays s) o = record {
    queue_served = λ id r h.
        rw s.tickets (o.queue_served id r (ap (λ m. request_map.get m id) (sym s.requests) ∙ h));
    departures_served = rw (s.tickets, s.departures) o.departures_served;
  }
  Effect-IsPunctual t u (joins at r s) o = record {
    queue_served = λ id x h.
        rw s.tickets
          (elim (found_after_insert request_map t.contract.requests t.contract.next_request_id id r
            x (ap (λ m. request_map.get m id) (sym s.requests) ∙ h)) [
              | inl (e, same) ↦ (
                _,
                Memᴰ.head refl,
                record {
                  same_id = sym e;
                  by_dao = refl;
                  same_request = same;
                  due = ground (arith, s.due);
                },
              )
              | inr (_, e) ↦ later _ id x (o.queue_served id x e)
            ]);
    departures_served =
        rw (s.tickets, s.departures)
          (λ d m.
            let (x, e, ticket, due, vetoed) = o.departures_served d m in
            (x, e, later _ d.id x ticket, due, vetoed));
  }
  Effect-IsPunctual t u (leaves id at executed r s) o = record {
    queue_served = λ j x h.
        let (_, e) =
          found_after_remove request_map t.contract.requests id j x
            (ap (λ m. request_map.get m j) (sym s.requests) ∙ h) in
        rw s.tickets (o.queue_served j x e);
    departures_served = rw (s.tickets, s.departures) (λ d m. served d m);
  }
    where
      served :
          (d : Departure)
          → Memᴰ d (
              record {
                id = id;
                at = at;
                by_guardian = s.guardian;
                executed = executed;
                request = some r;
              }
              ∷ t.departures)
          → IsServed t.tickets d
      served d (Memᴰ.head e) =
          subst (IsServed t.tickets) (sym e) (r, refl, o.queue_served id r s.was, s.due, s.vetoed)
      served d (Memᴰ.tail m) = o.departures_served d m

  -- In every timelock that the constructor and then calls lead to, every pending request, and every
  -- request that was executed or cancelled, is stored as it was scheduled under its id by the DAO of
  -- that time, and its time is that of its scheduling plus the delay that was set then, or the largest
  -- `u64` where that is less. One that was executed was executed at that time or later, and one that
  -- was cancelled was cancelled by a guardian of that time.
  pub Reach-IsPunctual : (t : Timeline) → Reach t → IsPunctual t
  Reach-IsPunctual t (start dao admin guardians delay self h) = record {
    queue_served = λ id r e. absurd (
        none-some (
          sym (request_map.get-new id)
          ∙ ap (λ m. request_map.get m id) (sym (new-requests dao admin guardians delay self h).0)
          ∙ e));
    departures_served = λ d m. elim m [ ];
  }
  Reach-IsPunctual u (next {t} r s) = Effect-IsPunctual t u (Step-Effect s) (Reach-IsPunctual t r)
