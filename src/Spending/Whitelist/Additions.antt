-- ===== src/Spending/Whitelist/Additions.antt =====
-- `add_to_whitelist` and `set_limit` over a whole batch.
use mathlib.Core.Logic.{ite}
use hos_treasury.Common.{
  ℕ, ◌≡◌, ◌≢◌, ◌↔◌, refl, arith, Option, none, some, List, [], ◌∷◌, str_eq_iff,
}
use hos_treasury.Near.{Context, done, for_each}
use hos_treasury.Near.Loops.{AllHold, run_all, for_each_iff}
use hos_treasury.Spending.Types.{WhitelistKey, WhitelistEntry, Sdk}
use hos_treasury.Spending.Contract.{Contract, assert_manager}
use hos_treasury.Spending.Keys.{key_dec, entry_key, limit_of, limit_of-with_limit}
use hos_treasury.Spending.Whitelist.{add_entry, add_to_whitelist, set_entry, set_limit}
use hos_treasury.Spending.Whitelist.Rounds.{
  W, CanAdd, CanSet, write, IsBatch, add_entry_iff, set_entry_iff,
}

-- No entry of the batch has the key.
abbrev pub Unlisted : WhitelistKey → List WhitelistEntry → Type 0
Unlisted key [] = Unit
Unlisted key (e ∷ es) = (entry_key e ≢ key) × Unlisted key es

-- The limit of a key after the entries have been written over `old`; a later entry wins.
abbrev pub overlay : List WhitelistEntry → WhitelistKey → Option ℕ → Option ℕ
overlay [] key old = old
overlay (e ∷ es) key old = overlay es key (ite (key_dec key (entry_key e)) (some e.limit) old)

module _ ⦃sdk : Sdk⦄ where
  pub limit_of-write_all :
      (es : List WhitelistEntry) (self : Contract) (key : WhitelistKey)
      → limit_of (run_all write self es) key ≡ overlay es key (limit_of self key)
  limit_of-write_all [] self key = refl
  limit_of-write_all (e ∷ es) self key =
      rw (
        limit_of-write_all es (write self e) key,
        limit_of-with_limit self (entry_key e) key e.limit,
      )

  -- A batch that may be added: no entry is the contract's own, none is listed already, and no key
  -- comes twice.
  abbrev pub Addable : Context → Contract → List WhitelistEntry → Type 0
  Addable ctx self [] = Unit
  Addable ctx self (e ∷ es) = CanAdd ctx self e × Unlisted (entry_key e) es × Addable ctx self es

  -- Writing one entry leaves addable what has other keys.
  Addable-write :
      (ctx : Context) (self : Contract) (e : WhitelistEntry) (es : List WhitelistEntry)
      → Addable ctx (write self e) es ↔ (Unlisted (entry_key e) es × Addable ctx self es)
  Addable-write ctx self e [] = (λ h. (tt, tt), λ h. tt)
  Addable-write ctx self e (f ∷ es) = (
    λ h. grind (
      arith,
      limit_of-with_limit self (entry_key e) (entry_key f) e.limit,
      Addable-write ctx self e es,
    ),
    λ h. grind (
      arith,
      limit_of-with_limit self (entry_key e) (entry_key f) e.limit,
      Addable-write ctx self e es,
    ),
  )

  pub Addable-AllHold :
      (ctx : Context) (es : List WhitelistEntry) (self : Contract)
      → AllHold (CanAdd ctx) write self es ↔ Addable ctx self es
  Addable-AllHold ctx [] self = (λ h. h, λ h. h)
  Addable-AllHold ctx (e ∷ es) self = (
    λ (can, rest).
        let (other, addable) =
          (Addable-write ctx self e es).0 ((Addable-AllHold ctx es (write self e)).0 rest) in
        (can, other, addable),
    λ (can, other, rest). (
      can,
      (Addable-AllHold ctx es (write self e)).1 ((Addable-write ctx self e es).1 (other, rest)),
    ),
  )

  add_call :
      (ctx : Context) (es : List WhitelistEntry) (w w' : W)
      → (add_to_whitelist ctx es w ≡ done (tt, w'))
        ↔ (IsBatch ctx w.state es × (for_each (add_entry ctx) es w ≡ done (tt, w')))
  unfolding add_to_whitelist assert_manager
  add_call ctx es w w' = ground (arith, str_eq_iff ctx.predecessor_account_id w.state.manager_id)

  set_call :
      (ctx : Context) (es : List WhitelistEntry) (w w' : W)
      → (set_limit ctx es w ≡ done (tt, w'))
        ↔ (IsBatch ctx w.state es × (for_each set_entry es w ≡ done (tt, w')))
  unfolding set_limit assert_manager
  set_call ctx es w w' = ground (arith, str_eq_iff ctx.predecessor_account_id w.state.manager_id)

  module _ (ctx : Context) (es : List WhitelistEntry) (w w' : W) where
    -- `add_to_whitelist` goes through exactly when the manager passes a batch that is not empty
    -- and may be added; it then writes every entry, and no log and no promise.
    pub add_to_whitelist_iff : (add_to_whitelist ctx es w ≡ done (tt, w')) ↔ (
        IsBatch ctx w.state es
        × Addable ctx w.state es
        × (w' ≡ record w { state = run_all write w.state es }))
    add_to_whitelist_iff = (
      λ h.
          let (batch, loop) = (add_call ctx es w w').0 h in
          let (all, e) =
            (for_each_iff (CanAdd ctx) write (add_entry ctx) (add_entry_iff ctx) es w w').0 loop in
          (batch, (Addable-AllHold ctx es w.state).0 all, e),
      λ (batch, addable, e). (add_call ctx es w w').1 (
        batch,
        (for_each_iff (CanAdd ctx) write (add_entry ctx) (add_entry_iff ctx) es w w').1
            ((Addable-AllHold ctx es w.state).1 addable, e),
      ),
    )

    -- After `add_to_whitelist` the limit of every key is that of its entry, and of a key with no
    -- entry what it was.
    pub limit_of-add_to_whitelist :
        add_to_whitelist ctx es w ≡ done (tt, w')
        → (key : WhitelistKey) → limit_of w'.state key ≡ overlay es key (limit_of w.state key)
    limit_of-add_to_whitelist h key =
        rw (add_to_whitelist_iff.0 h).2 (limit_of-write_all es w.state key)

  -- A batch whose limits may be set: every key is listed.
  abbrev pub Settable : Contract → List WhitelistEntry → Type 0
  Settable self [] = Unit
  Settable self (e ∷ es) = CanSet self e × Settable self es

  listed-write :
      (self : Contract) (e : WhitelistEntry) (key : WhitelistKey)
      → CanSet self e
      → (limit_of (write self e) key ≢ none) ↔ (limit_of self key ≢ none)
  listed-write self e key can = ground (arith, limit_of-with_limit self (entry_key e) key e.limit)

  Settable-write :
      (self : Contract) (e : WhitelistEntry) (es : List WhitelistEntry)
      → CanSet self e
      → Settable (write self e) es ↔ Settable self es
  Settable-write self e [] can = (λ h. tt, λ h. tt)
  Settable-write self e (f ∷ es) can = (
    λ (first, rest).
        ((listed-write self e (entry_key f) can).0 first, (Settable-write self e es can).0 rest),
    λ (first, rest).
        ((listed-write self e (entry_key f) can).1 first, (Settable-write self e es can).1 rest),
  )

  pub Settable-AllHold :
      (es : List WhitelistEntry) (self : Contract) → AllHold CanSet write self es ↔ Settable self es
  Settable-AllHold [] self = (λ h. h, λ h. h)
  Settable-AllHold (e ∷ es) self = (
    λ (can, rest).
        (can, (Settable-write self e es can).0 ((Settable-AllHold es (write self e)).0 rest)),
    λ (can, rest).
        (can, (Settable-AllHold es (write self e)).1 ((Settable-write self e es can).1 rest)),
  )

  module _ (ctx : Context) (es : List WhitelistEntry) (w w' : W) where
    -- `set_limit` goes through exactly when the manager passes a batch that is not empty and whose
    -- keys are all listed; it then writes every entry, and no log and no promise.
    pub set_limit_iff : (set_limit ctx es w ≡ done (tt, w')) ↔ (
        IsBatch ctx w.state es
        × Settable w.state es
        × (w' ≡ record w { state = run_all write w.state es }))
    set_limit_iff = (
      λ h.
          let (batch, loop) = (set_call ctx es w w').0 h in
          let (all, e) = (for_each_iff CanSet write set_entry set_entry_iff es w w').0 loop in
          (batch, (Settable-AllHold es w.state).0 all, e),
      λ (batch, settable, e). (set_call ctx es w w').1 (
        batch,
        (for_each_iff CanSet write set_entry set_entry_iff es w w').1
            ((Settable-AllHold es w.state).1 settable, e),
      ),
    )

    -- After `set_limit` the limit of every key is that of its last entry, and of a key with no entry
    -- what it was.
    pub limit_of-set_limit :
        set_limit ctx es w ≡ done (tt, w')
        → (key : WhitelistKey) → limit_of w'.state key ≡ overlay es key (limit_of w.state key)
    limit_of-set_limit h key = rw (set_limit_iff.0 h).2 (limit_of-write_all es w.state key)
