-- ===== src/Spending/Ledger/Batches.antt =====
-- The conditions and effects of the manager's batches, on the contract and on its ledger.
use mathlib.Core.Option
use mathlib.Core.Logic.{ite, if_pos, if_neg}
use hos_treasury.Common.{◌+◌, ◌-◌, ◌≡◌, ◌≢◌, ◌↔◌, refl, false, none, some, List, [], ◌∷◌, All}
use hos_treasury.Near.{Context}
use hos_treasury.Near.Loops.{run_all}
use hos_treasury.Spending.Types.{WhitelistKey, WhitelistEntry, WhitelistEntryKey, LimitChange, Sdk}
use hos_treasury.Spending.Contract.{Contract}
use hos_treasury.Spending.Keys.{
  key_dec, entry_key, change_key, removed_key, limit_of, limit_of-with_limit, allowance,
}
use hos_treasury.Spending.Whitelist.{is_empty}
use hos_treasury.Spending.Whitelist.Rounds.{increase, decrease}
use hos_treasury.Spending.Whitelist.Additions.{Addable, Settable}
use hos_treasury.Spending.Whitelist.Removals.{Removable}
use hos_treasury.Spending.Whitelist.Changes.{NotSelf, Decreasable}
use hos_treasury.Spending.Ledger.{Ledger, DistinctEntries, DistinctKeys, raise, lower}

pub is_empty_iff {ℓ} : {A : Type ℓ} (xs : List A) → (is_empty xs ≡ false) ↔ (xs ≢ [])
is_empty_iff [] = (λ h. absurd (cc), λ h. absurd (h refl))
is_empty_iff (x ∷ xs) = (λ h e. cc, λ h. refl)

module _ ⦃sdk : Sdk⦄ where
  -- What the contract's storage stands for.
  abbrev pub ledger_of : Contract → Ledger
  ledger_of self = record {
    spender_id = self.spender_id;
    manager_id = self.manager_id;
    admin_id = self.admin_id;
    limit = limit_of self;
  }

  module _ (ctx : Context) (self : Contract) where
    pub Addable-iff :
        (es : List WhitelistEntry)
        → Addable ctx self es ↔ (
            All
              (λ e. (e.account_id ≢ ctx.current_account_id) × (limit_of self (entry_key e) ≡ none))
              es
            × DistinctEntries es)
    Addable-iff [] = (λ h. (tt, tt), λ h. tt)
    Addable-iff (e ∷ es) = (
      λ (can, other, rest).
          let (all, distinct) = (Addable-iff es).0 rest in ((can, all), (other, distinct)),
      λ ((can, all), (other, distinct)). (can, other, (Addable-iff es).1 (all, distinct)),
    )

    pub Settable-iff :
        (es : List WhitelistEntry)
        → Settable self es ↔ All (λ e. limit_of self (entry_key e) ≢ none) es
    Settable-iff [] = (λ h. h, λ h. h)
    Settable-iff (e ∷ es) = (
      λ (can, rest). (can, (Settable-iff es).0 rest),
      λ (can, rest). (can, (Settable-iff es).1 rest),
    )

    pub Removable-iff :
        (ks : List WhitelistEntryKey)
        → Removable self ks ↔ (All (λ k. limit_of self (removed_key k) ≢ none) ks × DistinctKeys ks)
    Removable-iff [] = (λ h. (tt, tt), λ h. tt)
    Removable-iff (k ∷ ks) = (
      λ (can, other, rest).
          let (all, distinct) = (Removable-iff ks).0 rest in ((can, all), (other, distinct)),
      λ ((can, all), (other, distinct)). (can, other, (Removable-iff ks).1 (all, distinct)),
    )

    pub NotSelf-iff :
        (cs : List LimitChange)
        → NotSelf ctx cs ↔ All (λ c. c.account_id ≢ ctx.current_account_id) cs
    NotSelf-iff [] = (λ h. h, λ h. h)
    NotSelf-iff (c ∷ cs) = (
      λ (other, rest). (other, (NotSelf-iff cs).0 rest),
      λ (other, rest). (other, (NotSelf-iff cs).1 rest),
    )

    pub Decreasable-iff :
        (cs : List LimitChange)
        → Decreasable self cs ↔ All (λ c. limit_of self (change_key c) ≢ none) cs
    Decreasable-iff [] = (λ h. h, λ h. h)
    Decreasable-iff (c ∷ cs) = (
      λ (can, rest). (can, (Decreasable-iff cs).0 rest),
      λ (can, rest). (can, (Decreasable-iff cs).1 rest),
    )

  limit_of-increase :
      (self : Contract) (c : LimitChange) (key : WhitelistKey)
      → limit_of (increase self c) key
        ≡ ite
            (key_dec key (change_key c))
            (some (Option.get_or (limit_of self key) 0 + c.amount))
            (limit_of self key)
  limit_of-increase self c key = elim (key_dec key (change_key c)) [
    | yes e ↦ rw (
      limit_of-with_limit self (change_key c) key (allowance self (change_key c) + c.amount),
      if_pos _ e,
      if_pos _ e,
      e,
    )
    | no d ↦ rw (
      limit_of-with_limit self (change_key c) key (allowance self (change_key c) + c.amount),
      if_neg _ d,
      if_neg _ d,
    )
  ]

  pub limit_of-increase_all :
      (cs : List LimitChange) (self : Contract) (key : WhitelistKey)
      → limit_of (run_all increase self cs) key ≡ raise cs key (limit_of self key)
  limit_of-increase_all [] self key = refl
  limit_of-increase_all (c ∷ cs) self key =
      rw (limit_of-increase_all cs (increase self c) key, limit_of-increase self c key)

  limit_of-decrease :
      (self : Contract) (c : LimitChange) (key : WhitelistKey)
      → limit_of (decrease self c) key
        ≡ ite
            (key_dec key (change_key c))
            (some (Option.get_or (limit_of self key) 0 - c.amount))
            (limit_of self key)
  limit_of-decrease self c key = elim (key_dec key (change_key c)) [
    | yes e ↦ rw (
      limit_of-with_limit self (change_key c) key (allowance self (change_key c) - c.amount),
      if_pos _ e,
      if_pos _ e,
      e,
    )
    | no d ↦ rw (
      limit_of-with_limit self (change_key c) key (allowance self (change_key c) - c.amount),
      if_neg _ d,
      if_neg _ d,
    )
  ]

  pub limit_of-decrease_all :
      (cs : List LimitChange) (self : Contract) (key : WhitelistKey)
      → limit_of (run_all decrease self cs) key ≡ lower cs key (limit_of self key)
  limit_of-decrease_all [] self key = refl
  limit_of-decrease_all (c ∷ cs) self key =
      rw (limit_of-decrease_all cs (decrease self c) key, limit_of-decrease self c key)
