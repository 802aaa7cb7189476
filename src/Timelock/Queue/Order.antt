-- ===== src/Timelock/Queue/Order.antt =====
-- No request is executed while its predecessor waits.
use mathlib.Core.List.{Memᴰ}
use native.Mathlib.Decide.{ℕ_discrete}
use hos_treasury.Common.{
  ℕ, ◌<◌, ◌≡◌, ◌≢◌, refl, arith, ap, sym, ◌∙◌, Option, Option-cases, Bool, none, some, List, [],
  ◌∷◌, inl, inr, true,
}
use hos_treasury.Near.Lookup.{found_after_insert, found_after_remove}
use hos_treasury.Timelock.Types.{Request, Sdk}
use hos_treasury.Timelock.Contract.{Contract}
use hos_treasury.Timelock.Scheduling.{pending, IsPending}
use hos_treasury.Timelock.Leaving.{removed, IsGone}
use hos_treasury.Timelock.Queue.{Departure, Timeline, Reach, start, next}
use hos_treasury.Timelock.Queue.Effects.{Effect, Joins, Leaves, stays, joins, leaves, none-some}
use hos_treasury.Timelock.Queue.Steps.{Step-Effect, new-requests}
use hos_treasury.Timelock.Queue.Once.{IsOnce, Reach-IsOnce}

-- The request with this id has left.
abbrev pub IsAway : ℕ → List Departure → Type 0
IsAway id ds = (d : Departure) × Memᴰ d ds × (d.id ≡ id)

-- If the departure is an execution of a request with a predecessor, that one left before.
abbrev pub IsInOrder : Departure → List Departure → Type 0
IsInOrder d earlier =
    (r : Request) (p : ℕ)
    → d.request ≡ some r
    → d.executed ≡ true
    → r.predecessor_id ≡ some p
    → IsAway p earlier

abbrev pub AreInOrder : List Departure → Type 0
AreInOrder [] = Unit
AreInOrder (d ∷ ds) = IsInOrder d ds × AreInOrder ds

module _ ⦃sdk : Sdk⦄ where
  open sdk use {request_map}

  pub record IsOrdered (t : Timeline) : Type 0 where
    pub accounted :
        (id : ℕ)
        → id < t.contract.next_request_id
        → pending t.contract id ≡ none
        → IsAway id t.departures
    pub earlier :
        (id p : ℕ) (r : Request)
        → pending t.contract id ≡ some r
        → r.predecessor_id ≡ some p
        → p < id
    pub in_order : AreInOrder t.departures

  IsAway-tail : {ds : List Departure} (d : Departure) (id : ℕ) → IsAway id ds → IsAway id (d ∷ ds)
  IsAway-tail d id (e, m, same) = (e, Memᴰ.tail m, same)

  -- The predecessor of a request that joins is pending, so its id is smaller.
  joined_earlier :
      (self : Contract) (before : Option ℕ) (p : ℕ)
      → ((id : ℕ) (r : Request) → pending self id ≡ some r → id < self.next_request_id)
      → IsPending self before
      → before ≡ some p
      → p < self.next_request_id
  joined_earlier self none p below h e = absurd (cc)
  joined_earlier self (some q) p below h e = elim (Option-cases (pending self q)) [
    | inl gone ↦ absurd (h gone)
    | inr (r, there) ↦ ground (arith, below q r there)
  ]

  gone_at :
      (self : Contract) (before : Option ℕ) (p : ℕ)
      → IsGone self before
      → before ≡ some p
      → pending self p ≡ none
  gone_at self none p h e = absurd (cc)
  gone_at self (some q) p h e = ground (arith, h)

  module _ (t u : Timeline) (once : IsOnce t) (o : IsOrdered t) where
    Joins-IsOrdered : (at : ℕ) (r : Request) → Joins t u at r → IsOrdered u
    Joins-IsOrdered at r s = record {
      accounted = λ id small gone.
          rw s.departures (elim (ℕ_discrete id t.contract.next_request_id) [
            | yes p ↦ absurd (
                none-some (
                  sym gone
                  ∙ ap (λ m. request_map.get m id) s.requests
                  ∙ ap (request_map.get _) p
                  ∙ request_map.get-insert_self t.contract.requests t.contract.next_request_id r))
            | no p ↦ o.accounted id (omega (arith, small, s.next_id, p)) (
                sym
                  (request_map.get-insert_ne t.contract.requests t.contract.next_request_id id r p)
                ∙ ap (λ m. request_map.get m id) (sym s.requests)
                ∙ gone)
          ]);
      earlier = λ id p x h e.
          elim (found_after_insert request_map t.contract.requests t.contract.next_request_id id r x
            (ap (λ m. request_map.get m id) (sym s.requests) ∙ h)) [
              | inl (at_end, same) ↦
                  let here : r.predecessor_id ≡ some p = ground (arith, e) in
                  omega (
                    arith,
                    at_end,
                    joined_earlier t.contract r.predecessor_id p once.below s.predecessor here,
                  )
              | inr (_, there) ↦ o.earlier id p x there e
            ];
      in_order = rw s.departures o.in_order;
    }

    Leaves-IsOrdered :
        (id at : ℕ) (executed : Bool) (r : Request) → Leaves t u id at executed r → IsOrdered u
    Leaves-IsOrdered id at executed r s = record {
      accounted = λ j small gone. rw s.departures (elim (ℕ_discrete j id) [
        | yes p ↦ (_, Memᴰ.head refl, sym p)
        | no p ↦ IsAway-tail _ j (
            waits j p (omega (arith, small, s.next_id))
              (ap (λ m. request_map.get m j) (sym s.requests) ∙ gone))
      ]);
      earlier = λ j p x h e.
          let (_, there) =
            found_after_remove request_map t.contract.requests id j x
              (ap (λ m. request_map.get m j) (sym s.requests) ∙ h) in
          o.earlier j p x there e;
      in_order = rw s.departures (before, o.in_order);
    }
      where
        waits :
            (j : ℕ)
            → j ≢ id
            → j < t.contract.next_request_id
            → pending (removed t.contract id) j ≡ none
            → IsAway j t.departures
        waits j p small gone =
            o.accounted j small (sym (request_map.get-remove_ne t.contract.requests id j p) ∙ gone)

        before :
            (x : Request) (p : ℕ)
            → some r ≡ some x
            → executed ≡ true
            → x.predecessor_id ≡ some p
            → IsAway p t.departures
        before x p same run e =
            let here : r.predecessor_id ≡ some p = ground (arith, e) in
            let less = o.earlier id p r s.was here in
            waits p (λ h. omega (arith, h, less)) (omega (arith, less, once.below id r s.was))
              (gone_at (removed t.contract id) r.predecessor_id p (s.predecessor run) here)

    Effect-IsOrdered : Effect t u → IsOrdered u
    Effect-IsOrdered (stays s) = record {
      accounted = λ id small gone. rw s.departures (
          o.accounted id (omega (arith, small, s.next_id))
            (ap (λ m. request_map.get m id) (sym s.requests) ∙ gone));
      earlier = λ id p r h. o.earlier id p r (ap (λ m. request_map.get m id) (sym s.requests) ∙ h);
      in_order = rw s.departures o.in_order;
    }
    Effect-IsOrdered (joins at r s) = Joins-IsOrdered at r s
    Effect-IsOrdered (leaves id at executed r s) = Leaves-IsOrdered id at executed r s

  -- In every timelock that the constructor and then calls lead to, an id that was given out is
  -- either pending or of a request that left; a pending request's predecessor has a smaller id, so
  -- no requests wait for each other in a circle; and each request that was executed and named a
  -- predecessor was executed after that one was executed or cancelled.
  pub Reach-IsOrdered : (t : Timeline) → Reach t → IsOrdered t
  Reach-IsOrdered t (start dao admin guardians delay self h) =
      let (empty, none_given, _) = new-requests dao admin guardians delay self h in
      record {
        accounted = λ id small gone. absurd (omega (arith, none_given, small));
        earlier = λ id p r e f. absurd (
            none-some
              (sym (request_map.get-new id) ∙ ap (λ m. request_map.get m id) (sym empty) ∙ e));
        in_order = tt;
      }
  Reach-IsOrdered u (next {t} r s) =
      Effect-IsOrdered t u (Reach-IsOnce t r) (Reach-IsOrdered t r) (Step-Effect s)
