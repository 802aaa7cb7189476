-- ===== src/Timelock/Queue/Once.antt =====
-- No request leaves the queue twice.
use hos_treasury.Common.{
  ℕ, ◌+◌, ◌<◌, ◌≡◌, ◌≢◌, arith, ap, sym, ◌∙◌, none, some, List, [], ◌∷◌, inl, inr,
}
use hos_treasury.Near.Lookup.{found_after_insert, found_after_remove, absent_after_remove}
use hos_treasury.Timelock.Types.{Request, Sdk}
use hos_treasury.Timelock.Contract.{Contract}
use hos_treasury.Timelock.Scheduling.{pending}
use hos_treasury.Timelock.Queue.{Departure, Timeline, Reach, start, next}
use hos_treasury.Timelock.Queue.Effects.{Effect, stays, joins, leaves, none-some}
use hos_treasury.Timelock.Queue.Steps.{Step-Effect, new-requests}

-- None of the departures is of the request with this id.
abbrev pub IsAbsent : ℕ → List Departure → Type 0
IsAbsent id [] = Unit
IsAbsent id (d ∷ ds) = (d.id ≢ id) × IsAbsent id ds

module _ ⦃sdk : Sdk⦄ where
  open sdk use {request_map}

  -- Each departure is of an id that was given out, is not pending and has not left before.
  abbrev pub HasLeft : Contract → List Departure → Type 0
  HasLeft self [] = Unit
  HasLeft self (d ∷ ds) =
      (d.id < self.next_request_id)
      × (pending self d.id ≡ none)
      × IsAbsent d.id ds
      × HasLeft self ds

  pub record IsOnce (t : Timeline) : Type 0 where
    pub below :
        (id : ℕ) (r : Request) → pending t.contract id ≡ some r → id < t.contract.next_request_id
    pub left : HasLeft t.contract t.departures

  -- Only ids, queue and counter matter.
  HasLeft-kept :
      (self after : Contract) (ds : List Departure)
      → after.requests ≡ self.requests
      → after.next_request_id ≡ self.next_request_id
      → HasLeft self ds
      → HasLeft after ds
  HasLeft-kept self after [] e f h = tt
  HasLeft-kept self after (d ∷ ds) e f (small, gone, absent, rest) = (
    omega (arith, f, small),
    ap (λ m. request_map.get m d.id) e ∙ gone,
    absent,
    HasLeft-kept self after ds e f rest,
  )

  HasLeft-joined :
      (self after : Contract) (r : Request) (ds : List Departure)
      → after.requests ≡ request_map.insert self.requests self.next_request_id r
      → after.next_request_id ≡ self.next_request_id + 1
      → HasLeft self ds
      → HasLeft after ds
  HasLeft-joined self after r [] e f h = tt
  HasLeft-joined self after r (d ∷ ds) e f (small, gone, absent, rest) = (
    omega (arith, f, small),
    ap (λ m. request_map.get m d.id) e
        ∙ request_map.get-insert_ne self.requests self.next_request_id d.id r
            (λ h. omega (arith, h, small))
        ∙ gone,
    absent,
    HasLeft-joined self after r ds e f rest,
  )

  HasLeft-removed :
      (self after : Contract) (id : ℕ) (ds : List Departure)
      → after.requests ≡ (request_map.remove self.requests id).0
      → after.next_request_id ≡ self.next_request_id
      → HasLeft self ds
      → HasLeft after ds
  HasLeft-removed self after id [] e f h = tt
  HasLeft-removed self after id (d ∷ ds) e f (small, gone, absent, rest) = (
    omega (arith, f, small),
    ap (λ m. request_map.get m d.id) e ∙ absent_after_remove request_map self.requests id d.id gone,
    absent,
    HasLeft-removed self after id ds e f rest,
  )

  pending-IsAbsent :
      (self : Contract) (id : ℕ) (r : Request) (ds : List Departure)
      → pending self id ≡ some r
      → HasLeft self ds
      → IsAbsent id ds
  pending-IsAbsent self id r [] h l = tt
  pending-IsAbsent self id r (d ∷ ds) h (small, gone, absent, rest) =
      (λ e. none-some (sym gone ∙ ap (pending self) e ∙ h), pending-IsAbsent self id r ds h rest)

  Effect-IsOnce : (t u : Timeline) → Effect t u → IsOnce t → IsOnce u
  Effect-IsOnce t u (stays s) o = record {
    below = λ id r h.
        omega
          (arith, s.next_id, o.below id r (ap (λ m. request_map.get m id) (sym s.requests) ∙ h));
    left =
        rw s.departures
          (HasLeft-kept t.contract u.contract t.departures s.requests s.next_id o.left);
  }
  Effect-IsOnce t u (joins at r s) o = record {
    below = λ id x h.
        elim (found_after_insert request_map t.contract.requests t.contract.next_request_id id r x
          (ap (λ m. request_map.get m id) (sym s.requests) ∙ h)) [
            | inl (e, _) ↦ omega (arith, e, s.next_id)
            | inr (_, e) ↦ omega (arith, s.next_id, o.below id x e)
          ];
    left =
        rw s.departures
          (HasLeft-joined t.contract u.contract r t.departures s.requests s.next_id o.left);
  }
  Effect-IsOnce t u (leaves id at executed r s) o = record {
    below = λ j x h.
        let (_, e) =
          found_after_remove request_map t.contract.requests id j x
            (ap (λ m. request_map.get m j) (sym s.requests) ∙ h) in
        omega (arith, s.next_id, o.below j x e);
    left = rw s.departures (
      omega (arith, s.next_id, o.below id r s.was),
      ap (λ m. request_map.get m id) s.requests
          ∙ request_map.get-remove_self t.contract.requests id,
      pending-IsAbsent t.contract id r t.departures s.was o.left,
      HasLeft-removed t.contract u.contract id t.departures s.requests s.next_id o.left,
    );
  }

  -- In every timelock that the constructor and then calls lead to, every pending request has an id
  -- that was given out; and each request that was executed or cancelled had such an id too, is not
  -- pending any more, and had left neither way before.
  pub Reach-IsOnce : (t : Timeline) → Reach t → IsOnce t
  Reach-IsOnce t (start dao admin guardians delay self h) = record {
    below = λ id r e. absurd (
        none-some (
          sym (request_map.get-new id)
          ∙ ap (λ m. request_map.get m id) (sym (new-requests dao admin guardians delay self h).0)
          ∙ e));
    left = tt;
  }
  Reach-IsOnce u (next {t} r s) = Effect-IsOnce t u (Step-Effect s) (Reach-IsOnce t r)
