-- ===== src/Timelock/Queue/Escrow.antt =====
-- The deposits that a timelock holds are those of its pending requests.
use hos_treasury.Common.{
  ℕ, ◌+◌, ◌<◌, ◌≡◌, arith, ap, sym, ◌∙◌, Option-cases, none, some, inl, inr, sum_by, sum_by-perm,
  u128_max,
}
use hos_treasury.Near.Lookup.{found_after_insert, found_after_remove}
use hos_treasury.Timelock.Types.{Request, Sdk}
use hos_treasury.Timelock.Requests.Totals.{deposits}
use hos_treasury.Timelock.Contract.{Contract}
use hos_treasury.Timelock.Scheduling.{pending}
use hos_treasury.Timelock.Queue.{Timeline, Reach, start, next}
use hos_treasury.Timelock.Queue.Effects.{Effect, stays, joins, leaves, none-some}
use hos_treasury.Timelock.Queue.Steps.{Step-Effect, new-requests}
use hos_treasury.Timelock.Queue.Once.{Reach-IsOnce}

abbrev pub entry_deposits : ℕ × Request → ℕ
entry_deposits e = deposits e.1.actions

module _ ⦃sdk : Sdk⦄ where
  open sdk use {request_map}

  -- The deposits of all pending requests, together.
  abbrev pub pending_deposits : Contract → ℕ
  pending_deposits self = sum_by entry_deposits (request_map.iter self.requests)

  pub record IsEscrow (t : Timeline) : Type 0 where
    pub small :
        (id : ℕ) (r : Request) → pending t.contract id ≡ some r → deposits r.actions < u128_max
    pub balance : t.received ≡ pending_deposits t.contract + t.released

  insert_deposits :
      (m : request_map.Map) (k : ℕ) (r : Request)
      → request_map.get m k ≡ none
      → sum_by entry_deposits (request_map.iter (request_map.insert m k r))
        ≡ deposits r.actions + sum_by entry_deposits (request_map.iter m)
  insert_deposits m k r h =
      sum_by-perm entry_deposits (request_map.iter-insert m k r)
      ∙ ap (λ n. deposits r.actions + n)
          (sum_by-perm entry_deposits (request_map.iter-remove_none m k h))

  remove_deposits :
      (m : request_map.Map) (k : ℕ) (r : Request)
      → request_map.get m k ≡ some r
      → sum_by entry_deposits (request_map.iter m)
        ≡ deposits r.actions + sum_by entry_deposits (request_map.iter (request_map.remove m k).0)
  remove_deposits m k r h = sum_by-perm entry_deposits (request_map.iter-remove_some m k r h)

  -- the deposits after a change of the map
  changed :
      (self : Contract) (m : request_map.Map)
      → self.requests ≡ m
      → pending_deposits self ≡ sum_by entry_deposits (request_map.iter m)
  changed self m e = ap (λ m. sum_by entry_deposits (request_map.iter m)) e

  -- The next id is not pending.
  next_free :
      (self : Contract)
      → ((id : ℕ) (r : Request) → pending self id ≡ some r → id < self.next_request_id)
      → pending self self.next_request_id ≡ none
  next_free self below = elim (Option-cases (pending self self.next_request_id)) [
    | inl e ↦ e
    | inr (r, e) ↦ absurd (omega (arith, below self.next_request_id r e))
  ]

  Effect-IsEscrow :
      (t u : Timeline)
      → pending t.contract t.contract.next_request_id ≡ none
      → Effect t u
      → IsEscrow t
      → IsEscrow u
  Effect-IsEscrow t u free (stays s) o = record {
    small = λ id r h. o.small id r (ap (λ m. request_map.get m id) (sym s.requests) ∙ h);
    balance = omega (
      arith,
      s.received,
      s.released,
      o.balance,
      changed u.contract t.contract.requests s.requests,
    );
  }
  Effect-IsEscrow t u free (joins at r s) o = record {
    small = λ id x h.
        elim (found_after_insert request_map t.contract.requests t.contract.next_request_id id r x
          (ap (λ m. request_map.get m id) (sym s.requests) ∙ h)) [
            | inl (_, same) ↦ ground (arith, s.small)
            | inr (_, e) ↦ o.small id x e
          ];
    balance = omega (
      arith,
      s.received,
      s.released,
      o.balance,
      changed u.contract (request_map.insert t.contract.requests t.contract.next_request_id r)
          s.requests,
      insert_deposits t.contract.requests t.contract.next_request_id r free,
    );
  }
  Effect-IsEscrow t u free (leaves id at executed r s) o = record {
    small = λ j x h.
        let (_, e) =
          found_after_remove request_map t.contract.requests id j x
            (ap (λ m. request_map.get m j) (sym s.requests) ∙ h) in
        o.small j x e;
    balance = omega (
      arith,
      s.received,
      s.released (o.small id r s.was),
      o.balance,
      changed u.contract (request_map.remove t.contract.requests id).0 s.requests,
      remove_deposits t.contract.requests id r s.was,
    );
  }

  -- In every timelock that the constructor and then calls lead to, what its scheduling calls were
  -- paid is exactly the deposits of the requests that are still pending and what executions and
  -- cancellations sent out.
  pub Reach-IsEscrow : (t : Timeline) → Reach t → IsEscrow t
  Reach-IsEscrow t (start dao admin guardians delay self h) =
      let empty = (new-requests dao admin guardians delay self h).0 in
      record {
        small = λ id r e. absurd (
            none-some
              (sym (request_map.get-new id) ∙ ap (λ m. request_map.get m id) (sym empty) ∙ e));
        balance = sym (
            omega (
              arith,
              changed self request_map.new empty,
              ap (sum_by entry_deposits) request_map.iter-new,
            ));
      }
  Reach-IsEscrow u (next {t} r s) =
      Effect-IsEscrow t u (next_free t.contract (Reach-IsOnce t r).below) (Step-Effect s)
        (Reach-IsEscrow t r)
