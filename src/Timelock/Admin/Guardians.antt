-- ===== src/Timelock/Admin/Guardians.antt =====
-- Who the guardians are after the constructor and after `set_guardians`.
use mathlib.Core.List.{Memᴰ}
use hos_treasury.Common.{
  ℕ, ◌≤◌, ◌≡◌, ◌↔◌, ◌⊎◌, inl, inr, sym, ap, subst, arith, refl, String, true, List, [], ◌∷◌,
  str_eq_iff, le→leb,
}
use hos_treasury.Near.{Context, done}
use hos_treasury.Timelock.Types.{Sdk}
use hos_treasury.Timelock.Requests.{max_delay_ns}
use hos_treasury.Timelock.Contract.{Contract, new, insert_all}
use hos_treasury.Timelock.Admin.{set_guardians}
use hos_treasury.Timelock.Scheduling.{W}

module _ ⦃sdk : Sdk⦄ where
  open sdk use {guardian_set, request_map}

  -- The account is a guardian.
  abbrev pub IsGuardian : Contract → String → Type 0
  IsGuardian self account = guardian_set.contains self.guardians account ≡ true

  insert_all_keeps :
      (s : guardian_set.Set) (gs : List String) (j : String)
      → guardian_set.contains s j ≡ true
      → guardian_set.contains (insert_all s gs) j ≡ true
  unfolding insert_all
  insert_all_keeps s [] j h = h
  insert_all_keeps s (g ∷ gs) j h =
      insert_all_keeps (guardian_set.insert s g) gs j
        ((guardian_set.contains-insert s g j).1 (inr h))

  insert_all_adds :
      (s : guardian_set.Set) (gs : List String) (j : String)
      → Memᴰ j gs
      → guardian_set.contains (insert_all s gs) j ≡ true
  unfolding insert_all
  insert_all_adds s [] j h = elim h [ ]
  insert_all_adds s (g ∷ gs) j (Memᴰ.head e) =
      insert_all_keeps (guardian_set.insert s g) gs j
        ((guardian_set.contains-insert s g j).1 (inl e))
  insert_all_adds s (g ∷ gs) j (Memᴰ.tail h) = insert_all_adds (guardian_set.insert s g) gs j h

  insert_all_from :
      (s : guardian_set.Set) (gs : List String) (j : String)
      → guardian_set.contains (insert_all s gs) j ≡ true
      → (guardian_set.contains s j ≡ true) ⊎ Memᴰ j gs
  unfolding insert_all
  insert_all_from s [] j h = inl h
  insert_all_from s (g ∷ gs) j h = elim (insert_all_from (guardian_set.insert s g) gs j h) [
    | inl there ↦ elim ((guardian_set.contains-insert s g j).0 there) [
      | inl e ↦ inr (Memᴰ.head e)
      | inr before ↦ inl before
    ]
    | inr m ↦ inr (Memᴰ.tail m)
  ]

  -- From a set with no members, exactly the listed accounts are inserted.
  insert_all_iff :
      (s : guardian_set.Set) (gs : List String) (j : String)
      → ¬ (guardian_set.contains s j ≡ true)
      → (guardian_set.contains (insert_all s gs) j ≡ true) ↔ Memᴰ j gs
  insert_all_iff s gs j empty = (
    λ h. elim (insert_all_from s gs j h) [ inl there ↦ absurd (empty there) | inr m ↦ m ],
    insert_all_adds s gs j,
  )

  abbrev pub created : String → String → List String → ℕ → Contract
  created dao_id admin_id gs delay_ns = record {
    dao_id = dao_id;
    admin_id = admin_id;
    guardians = insert_all guardian_set.new gs;
    delay_ns = delay_ns;
    next_request_id = 0;
    requests = request_map.new;
  }

  new_run :
      (dao_id admin_id : String) (gs : List String) (delay_ns : ℕ) (self : Contract)
      → (new dao_id admin_id gs delay_ns ≡ done self)
        ↔ ((delay_ns ≤ max_delay_ns) × (self ≡ created dao_id admin_id gs delay_ns))
  unfolding new
  new_run dao_id admin_id gs delay_ns self = ground (arith, le→leb delay_ns max_delay_ns)

  -- The constructor goes through exactly when the delay is at most 30 days. The timelock then has
  -- the DAO, the admin and the delay of the arguments, exactly the listed guardians, an empty queue
  -- and 0 as the next id.
  pub new_iff :
      (dao_id admin_id : String) (gs : List String) (delay_ns : ℕ)
      → ((delay_ns ≤ max_delay_ns)
          ↔ ((self : Contract) × (new dao_id admin_id gs delay_ns ≡ done self)))
        × ((self : Contract)
            → new dao_id admin_id gs delay_ns ≡ done self
            → (self.dao_id ≡ dao_id)
              × (self.admin_id ≡ admin_id)
              × (self.delay_ns ≡ delay_ns)
              × (self.next_request_id ≡ 0)
              × (self.requests ≡ request_map.new)
              × ((j : String) → IsGuardian self j ↔ Memᴰ j gs))
  new_iff dao_id admin_id gs delay_ns = (
    (
      λ small. (_, (new_run dao_id admin_id gs delay_ns _).1 (small, refl)),
      λ (self, h). ((new_run dao_id admin_id gs delay_ns self).0 h).0,
    ),
    λ self h.
        let made = ((new_run dao_id admin_id gs delay_ns self).0 h).1 in
        (
          ap (λ s. s.dao_id) made,
          ap (λ s. s.admin_id) made,
          ap (λ s. s.delay_ns) made,
          ap (λ s. s.next_request_id) made,
          ap (λ s. s.requests) made,
          λ j.
              subst (λ s. IsGuardian s j ↔ Memᴰ j gs) (sym made)
                (insert_all_iff guardian_set.new gs j (guardian_set.contains-new j)),
        ),
  )

  abbrev pub with_guardians : W → List String → W
  with_guardians w gs = record w {
    state = record w.state { guardians = insert_all (guardian_set.clear w.state.guardians) gs };
  }

  set_guardians_run :
      (ctx : Context) (gs : List String) (w w' : W)
      → (set_guardians ctx gs w ≡ done (tt, w'))
        ↔ ((ctx.predecessor_account_id ≡ w.state.admin_id) × (w' ≡ with_guardians w gs))
  unfolding set_guardians
  set_guardians_run ctx gs w w' =
      ground (arith, str_eq_iff ctx.predecessor_account_id w.state.admin_id)

  -- `set_guardians` goes through exactly when the admin asks. Exactly the listed accounts are then
  -- guardians, whoever was one before, and nothing else has changed.
  pub set_guardians_iff :
      (ctx : Context) (gs : List String) (w : W)
      → ((ctx.predecessor_account_id ≡ w.state.admin_id)
          ↔ ((w' : W) × (set_guardians ctx gs w ≡ done (tt, w'))))
        × ((w' : W)
            → set_guardians ctx gs w ≡ done (tt, w')
            → (w' ≡ record w { state = record w.state { guardians = w'.state.guardians } })
              × ((j : String) → IsGuardian w'.state j ↔ Memᴰ j gs))
  set_guardians_iff ctx gs w = (
    (
      λ by_admin. (with_guardians w gs, (set_guardians_run ctx gs w _).1 (by_admin, refl)),
      λ (w', h). ((set_guardians_run ctx gs w w').0 h).0,
    ),
    λ w' h.
        let made = ((set_guardians_run ctx gs w w').0 h).1 in
        let cleared = guardian_set.clear w.state.guardians in
        (
          cc,
          λ j.
              subst (λ v. IsGuardian v.state j ↔ Memᴰ j gs) (sym made)
                (insert_all_iff cleared gs j (guardian_set.contains-clear w.state.guardians j)),
        ),
  )
