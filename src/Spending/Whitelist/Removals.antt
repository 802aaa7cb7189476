-- ===== src/Spending/Whitelist/Removals.antt =====
-- `remove_from_whitelist` over a whole batch.
use mathlib.Core.Logic.{ite}
use hos_treasury.Common.{◌≡◌, ◌≢◌, ◌↔◌, refl, arith, Option, ℕ, none, List, [], ◌∷◌, str_eq_iff}
use hos_treasury.Near.{Context, done, for_each}
use hos_treasury.Near.Loops.{AllHold, run_all, for_each_iff}
use hos_treasury.Spending.Types.{WhitelistKey, WhitelistEntryKey, Sdk}
use hos_treasury.Spending.Contract.{Contract, assert_manager}
use hos_treasury.Spending.Keys.{key_dec, removed_key, limit_of, limit_of-without}
use hos_treasury.Spending.Whitelist.{remove_entry, remove_from_whitelist}
use hos_treasury.Spending.Whitelist.Rounds.{W, CanRemove, erase, IsBatch, remove_entry_iff}

-- The key is none of the keys to remove.
abbrev pub Kept : WhitelistKey → List WhitelistEntryKey → Type 0
Kept key [] = Unit
Kept key (k ∷ ks) = (removed_key k ≢ key) × Kept key ks

-- The limit of a key after the removals from `old`.
abbrev pub cut : List WhitelistEntryKey → WhitelistKey → Option ℕ → Option ℕ
cut [] key old = old
cut (k ∷ ks) key old = cut ks key (ite (key_dec key (removed_key k)) none old)

module _ ⦃sdk : Sdk⦄ where
  pub limit_of-erase_all :
      (ks : List WhitelistEntryKey) (self : Contract) (key : WhitelistKey)
      → limit_of (run_all erase self ks) key ≡ cut ks key (limit_of self key)
  limit_of-erase_all [] self key = refl
  limit_of-erase_all (k ∷ ks) self key =
      rw (limit_of-erase_all ks (erase self k) key, limit_of-without self (removed_key k) key)

  -- A batch that may be removed: every key is listed, and none comes twice.
  abbrev pub Removable : Contract → List WhitelistEntryKey → Type 0
  Removable self [] = Unit
  Removable self (k ∷ ks) = CanRemove self k × Kept (removed_key k) ks × Removable self ks

  listed-erase :
      (self : Contract) (k : WhitelistEntryKey) (key : WhitelistKey)
      → (limit_of (erase self k) key ≢ none) ↔ ((key ≢ removed_key k) × (limit_of self key ≢ none))
  listed-erase self k key = ground (arith, limit_of-without self (removed_key k) key)

  Removable-erase :
      (self : Contract) (k : WhitelistEntryKey) (ks : List WhitelistEntryKey)
      → Removable (erase self k) ks ↔ (Kept (removed_key k) ks × Removable self ks)
  Removable-erase self k [] = (λ h. (tt, tt), λ h. tt)
  Removable-erase self k (j ∷ ks) = (
    λ h. grind (arith, listed-erase self k (removed_key j), Removable-erase self k ks),
    λ h. grind (arith, listed-erase self k (removed_key j), Removable-erase self k ks),
  )

  pub Removable-AllHold :
      (ks : List WhitelistEntryKey) (self : Contract)
      → AllHold CanRemove erase self ks ↔ Removable self ks
  Removable-AllHold [] self = (λ h. h, λ h. h)
  Removable-AllHold (k ∷ ks) self = (
    λ (can, rest).
        let (kept, removable) =
          (Removable-erase self k ks).0 ((Removable-AllHold ks (erase self k)).0 rest) in
        (can, kept, removable),
    λ (can, kept, rest).
        (can, (Removable-AllHold ks (erase self k)).1 ((Removable-erase self k ks).1 (kept, rest))),
  )

  remove_call :
      (ctx : Context) (ks : List WhitelistEntryKey) (w w' : W)
      → (remove_from_whitelist ctx ks w ≡ done (tt, w'))
        ↔ (IsBatch ctx w.state ks × (for_each remove_entry ks w ≡ done (tt, w')))
  unfolding remove_from_whitelist assert_manager
  remove_call ctx ks w w' = ground (arith, str_eq_iff ctx.predecessor_account_id w.state.manager_id)

  module _ (ctx : Context) (ks : List WhitelistEntryKey) (w w' : W) where
    -- `remove_from_whitelist` goes through exactly when the manager passes keys, at least one, that
    -- are all listed and all different; it then removes them, and writes no log and no promise.
    pub remove_from_whitelist_iff : (remove_from_whitelist ctx ks w ≡ done (tt, w')) ↔ (
        IsBatch ctx w.state ks
        × Removable w.state ks
        × (w' ≡ record w { state = run_all erase w.state ks }))
    remove_from_whitelist_iff = (
      λ h.
          let (batch, loop) = (remove_call ctx ks w w').0 h in
          let (all, e) =
            (for_each_iff CanRemove erase remove_entry remove_entry_iff ks w w').0 loop in
          (batch, (Removable-AllHold ks w.state).0 all, e),
      λ (batch, removable, e). (remove_call ctx ks w w').1 (
        batch,
        (for_each_iff CanRemove erase remove_entry remove_entry_iff ks w w').1
            ((Removable-AllHold ks w.state).1 removable, e),
      ),
    )

    -- After `remove_from_whitelist` the keys of the batch have no limit, and every other key has the
    -- limit that it had.
    pub limit_of-remove_from_whitelist :
        remove_from_whitelist ctx ks w ≡ done (tt, w')
        → (key : WhitelistKey) → limit_of w'.state key ≡ cut ks key (limit_of w.state key)
    limit_of-remove_from_whitelist h key =
        rw (remove_from_whitelist_iff.0 h).2 (limit_of-erase_all ks w.state key)
