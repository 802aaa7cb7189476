-- ===== src/Spending/Whitelist/Changes.antt =====
-- `increase_limit` and `decrease_limit` over a whole batch.
use mathlib.Core.Logic.{ite}
use hos_treasury.Common.{
  ℕ, ◌+◌, ◌-◌, ◌≤◌, ◌≡◌, ◌≢◌, ◌↔◌, arith, none, List, [], ◌∷◌, str_eq_iff, u128_max,
}
use hos_treasury.Near.{Context, done, for_each}
use hos_treasury.Near.Loops.{AllHold, run_all, for_each_iff}
use hos_treasury.Spending.Types.{WhitelistKey, LimitChange, Sdk}
use hos_treasury.Spending.Contract.{Contract, assert_manager}
use hos_treasury.Spending.Keys.{key_dec, change_key, limit_of, allowance, limit_of-with_limit}
use hos_treasury.Spending.Whitelist.{increase_entry, increase_limit, decrease_entry, decrease_limit}
use hos_treasury.Spending.Whitelist.Rounds.{
  W, CanIncrease, CanDecrease, increase, decrease, IsBatch, increase_entry_iff, decrease_entry_iff,
}

-- The amounts of a batch for one key, together.
abbrev pub amount_for : List LimitChange → WhitelistKey → ℕ
amount_for [] key = 0
amount_for (c ∷ cs) key = ite (key_dec key (change_key c)) c.amount 0 + amount_for cs key

-- No change is for the contract's own account.
abbrev pub NotSelf : Context → List LimitChange → Type 0
NotSelf ctx [] = Unit
NotSelf ctx (c ∷ cs) = (c.account_id ≢ ctx.current_account_id) × NotSelf ctx cs

module _ ⦃sdk : Sdk⦄ where
  -- No allowance exceeds a `u128`.
  abbrev pub Fits : Contract → Type 0
  Fits self = (key : WhitelistKey) → allowance self key ≤ u128_max

  -- The batch takes no allowance beyond a `u128`.
  abbrev pub FitsWith : Contract → List LimitChange → Type 0
  FitsWith self cs = (key : WhitelistKey) → allowance self key + amount_for cs key ≤ u128_max

  allowance-increase :
      (self : Contract) (c : LimitChange) (key : WhitelistKey)
      → allowance (increase self c) key
        ≡ allowance self key + ite (key_dec key (change_key c)) c.amount 0
  allowance-increase self c key = ground (
    arith,
    limit_of-with_limit self (change_key c) key (allowance self (change_key c) + c.amount),
  )

  allowance-decrease :
      (self : Contract) (c : LimitChange) (key : WhitelistKey)
      → allowance (decrease self c) key
        ≡ allowance self key - ite (key_dec key (change_key c)) c.amount 0
  allowance-decrease self c key = ground (
    arith,
    limit_of-with_limit self (change_key c) key (allowance self (change_key c) - c.amount),
  )

  allowance-increase_all :
      (cs : List LimitChange) (self : Contract) (key : WhitelistKey)
      → allowance (run_all increase self cs) key ≡ allowance self key + amount_for cs key
  allowance-increase_all [] self key = omega arith
  allowance-increase_all (c ∷ cs) self key =
      omega (arith, allowance-increase_all cs (increase self c) key, allowance-increase self c key)

  allowance-decrease_all :
      (cs : List LimitChange) (self : Contract) (key : WhitelistKey)
      → allowance (run_all decrease self cs) key ≡ allowance self key - amount_for cs key
  allowance-decrease_all [] self key = omega arith
  allowance-decrease_all (c ∷ cs) self key =
      omega (arith, allowance-decrease_all cs (decrease self c) key, allowance-decrease self c key)

  amount_for_self :
      (c : LimitChange) (cs : List LimitChange) → c.amount ≤ amount_for (c ∷ cs) (change_key c)
  amount_for_self c cs = ground arith

  increase_all_only :
      (ctx : Context) (cs : List LimitChange) (self : Contract)
      → Fits self
      → AllHold (CanIncrease ctx) increase self cs
      → NotSelf ctx cs × FitsWith self cs
  increase_all_only ctx [] self fits h = (tt, λ key. omega (arith, fits key))
  increase_all_only ctx (c ∷ cs) self fits (can, rest) =
      let fits' : Fits (increase self c) =
        λ key. ground (arith, fits key, allowance-increase self c key) in
      let (other, with) = increase_all_only ctx cs (increase self c) fits' rest in
      ((can.0, other), λ key. omega (arith, with key, allowance-increase self c key))

  increase_all_when :
      (ctx : Context) (cs : List LimitChange) (self : Contract)
      → NotSelf ctx cs
      → FitsWith self cs
      → AllHold (CanIncrease ctx) increase self cs
  increase_all_when ctx [] self other with = tt
  increase_all_when ctx (c ∷ cs) self other with = (
    (other.0, omega (arith, with (change_key c), amount_for_self c cs)),
    increase_all_when ctx cs (increase self c) other.1
        (λ key. omega (arith, with key, allowance-increase self c key)),
  )

  -- A batch whose limits may be lowered: every key is listed.
  abbrev pub Decreasable : Contract → List LimitChange → Type 0
  Decreasable self [] = Unit
  Decreasable self (c ∷ cs) = CanDecrease self c × Decreasable self cs

  listed-decrease :
      (self : Contract) (c : LimitChange) (key : WhitelistKey)
      → CanDecrease self c
      → (limit_of (decrease self c) key ≢ none) ↔ (limit_of self key ≢ none)
  listed-decrease self c key can = ground (
    arith,
    limit_of-with_limit self (change_key c) key (allowance self (change_key c) - c.amount),
  )

  Decreasable-decrease :
      (self : Contract) (c : LimitChange) (cs : List LimitChange)
      → CanDecrease self c
      → Decreasable (decrease self c) cs ↔ Decreasable self cs
  Decreasable-decrease self c [] can = (λ h. tt, λ h. tt)
  Decreasable-decrease self c (d ∷ cs) can = (
    λ (first, rest). (
      (listed-decrease self c (change_key d) can).0 first,
      (Decreasable-decrease self c cs can).0 rest,
    ),
    λ (first, rest). (
      (listed-decrease self c (change_key d) can).1 first,
      (Decreasable-decrease self c cs can).1 rest,
    ),
  )

  pub Decreasable-AllHold :
      (cs : List LimitChange) (self : Contract)
      → AllHold CanDecrease decrease self cs ↔ Decreasable self cs
  Decreasable-AllHold [] self = (λ h. h, λ h. h)
  Decreasable-AllHold (c ∷ cs) self = (
    λ (can, rest). (
      can,
      (Decreasable-decrease self c cs can).0 ((Decreasable-AllHold cs (decrease self c)).0 rest),
    ),
    λ (can, rest). (
      can,
      (Decreasable-AllHold cs (decrease self c)).1 ((Decreasable-decrease self c cs can).1 rest),
    ),
  )

  increase_call :
      (ctx : Context) (cs : List LimitChange) (w w' : W)
      → (increase_limit ctx cs w ≡ done (tt, w'))
        ↔ (IsBatch ctx w.state cs × (for_each (increase_entry ctx) cs w ≡ done (tt, w')))
  unfolding increase_limit assert_manager
  increase_call ctx cs w w' =
      ground (arith, str_eq_iff ctx.predecessor_account_id w.state.manager_id)

  decrease_call :
      (ctx : Context) (cs : List LimitChange) (w w' : W)
      → (decrease_limit ctx cs w ≡ done (tt, w'))
        ↔ (IsBatch ctx w.state cs × (for_each decrease_entry cs w ≡ done (tt, w')))
  unfolding decrease_limit assert_manager
  decrease_call ctx cs w w' =
      ground (arith, str_eq_iff ctx.predecessor_account_id w.state.manager_id)

  module _ (ctx : Context) (cs : List LimitChange) (w w' : W) where
    -- With allowances that fit a `u128`, `increase_limit` goes through exactly when the manager
    -- passes changes, at least one, none for the contract's own account, that together take no
    -- allowance beyond a `u128`; it then raises one limit after another, and writes no log and no
    -- promise.
    pub increase_limit_iff :
        Fits w.state
        → (increase_limit ctx cs w ≡ done (tt, w')) ↔ (
            IsBatch ctx w.state cs
            × NotSelf ctx cs
            × FitsWith w.state cs
            × (w' ≡ record w { state = run_all increase w.state cs }))
    increase_limit_iff fits = (
      λ h.
          let (batch, loop) = (increase_call ctx cs w w').0 h in
          let (all, e) =
            (for_each_iff (CanIncrease ctx) increase (increase_entry ctx) (increase_entry_iff ctx)
                cs w w').0
              loop in
          let (other, with) = increase_all_only ctx cs w.state fits all in (batch, other, with, e),
      λ (batch, other, with, e). (increase_call ctx cs w w').1 (
        batch,
        (for_each_iff (CanIncrease ctx) increase (increase_entry ctx) (increase_entry_iff ctx) cs w
              w').1
            (increase_all_when ctx cs w.state other with, e),
      ),
    )

    -- What a call of `increase_limit` that goes through comes to.
    pub increase_limit_run :
        increase_limit ctx cs w ≡ done (tt, w')
        → IsBatch ctx w.state cs
          × AllHold (CanIncrease ctx) increase w.state cs
          × (w' ≡ record w { state = run_all increase w.state cs })
    increase_limit_run h =
        let (batch, loop) = (increase_call ctx cs w w').0 h in
        let (all, e) =
          (for_each_iff (CanIncrease ctx) increase (increase_entry ctx) (increase_entry_iff ctx) cs
              w w').0
            loop in
        (batch, all, e)

    -- A call of `increase_limit` that goes through raises the allowance of every key by exactly the
    -- amounts of the batch for that key, together; a key that was not listed starts from 0.
    pub allowance-increase_limit :
        increase_limit ctx cs w ≡ done (tt, w')
        → (key : WhitelistKey) → allowance w'.state key ≡ allowance w.state key + amount_for cs key
    allowance-increase_limit h key =
        rw (increase_limit_run h).2 (allowance-increase_all cs w.state key)

    -- `decrease_limit` goes through exactly when the manager passes changes, at least one, whose
    -- keys are all listed; it then lowers one limit after another, and writes no log and no promise.
    pub decrease_limit_iff : (decrease_limit ctx cs w ≡ done (tt, w')) ↔ (
        IsBatch ctx w.state cs
        × Decreasable w.state cs
        × (w' ≡ record w { state = run_all decrease w.state cs }))
    decrease_limit_iff = (
      λ h.
          let (batch, loop) = (decrease_call ctx cs w w').0 h in
          let (all, e) =
            (for_each_iff CanDecrease decrease decrease_entry decrease_entry_iff cs w w').0 loop in
          (batch, (Decreasable-AllHold cs w.state).0 all, e),
      λ (batch, decreasable, e). (decrease_call ctx cs w w').1 (
        batch,
        (for_each_iff CanDecrease decrease decrease_entry decrease_entry_iff cs w w').1
            ((Decreasable-AllHold cs w.state).1 decreasable, e),
      ),
    )

    -- A call of `decrease_limit` that goes through lowers the allowance of every key by the amounts
    -- of the batch for that key, together, and to 0 where they exceed it.
    pub allowance-decrease_limit :
        decrease_limit ctx cs w ≡ done (tt, w')
        → (key : WhitelistKey) → allowance w'.state key ≡ allowance w.state key - amount_for cs key
    allowance-decrease_limit h key =
        rw (decrease_limit_iff.0 h).2 (allowance-decrease_all cs w.state key)
