-- ===== src/Spending/Whitelist/Rounds.antt =====
-- One round of each of the manager's loops, and the call around a loop.
use hos_treasury.Common.{
  ◌+◌, ◌-◌, ◌≤◌, ◌≡◌, ◌≢◌, ◌↔◌, arith, false, none, List, str_eq_iff, u128_max,
}
use hos_treasury.Near.{Context, World, done}
use hos_treasury.Spending.Types.{WhitelistEntry, WhitelistEntryKey, LimitChange, Callback, Sdk}
use hos_treasury.Spending.Contract.{Contract}
use hos_treasury.Spending.Keys.{
  entry_key, change_key, removed_key, limit_of, allowance, with_limit, without,
}
use hos_treasury.Spending.Whitelist.{
  add_entry, remove_entry, set_entry, increase_entry, decrease_entry, is_empty,
}

module _ ⦃sdk : Sdk⦄ where
  open sdk use {whitelist_map}

  abbrev pub W : Type 0
  W = World Contract Callback

  -- What each round wants of the state that it finds.
  abbrev pub CanAdd : Context → Contract → WhitelistEntry → Type 0
  CanAdd ctx self e = (e.account_id ≢ ctx.current_account_id) × (limit_of self (entry_key e) ≡ none)

  abbrev pub CanSet : Contract → WhitelistEntry → Type 0
  CanSet self e = limit_of self (entry_key e) ≢ none

  abbrev pub CanRemove : Contract → WhitelistEntryKey → Type 0
  CanRemove self k = limit_of self (removed_key k) ≢ none

  abbrev pub CanIncrease : Context → Contract → LimitChange → Type 0
  CanIncrease ctx self c =
      (c.account_id ≢ ctx.current_account_id)
      × (allowance self (change_key c) + c.amount ≤ u128_max)

  abbrev pub CanDecrease : Contract → LimitChange → Type 0
  CanDecrease self c = limit_of self (change_key c) ≢ none

  -- What each round makes of the state.
  abbrev pub write : Contract → WhitelistEntry → Contract
  write self e = with_limit self (entry_key e) e.limit

  abbrev pub erase : Contract → WhitelistEntryKey → Contract
  erase self k = without self (removed_key k)

  abbrev pub increase : Contract → LimitChange → Contract
  increase self c = with_limit self (change_key c) (allowance self (change_key c) + c.amount)

  abbrev pub decrease : Contract → LimitChange → Contract
  decrease self c = with_limit self (change_key c) (allowance self (change_key c) - c.amount)

  pub add_entry_iff :
      (ctx : Context) (e : WhitelistEntry) (w w' : W)
      → (add_entry ctx e w ≡ done (tt, w'))
        ↔ (CanAdd ctx w.state e × (w' ≡ record w { state = write w.state e }))
  unfolding add_entry
  add_entry_iff ctx e w w' = ground (
    arith,
    str_eq_iff e.account_id ctx.current_account_id,
    whitelist_map.contains_key-get w.state.whitelist (entry_key e),
  )

  pub set_entry_iff :
      (e : WhitelistEntry) (w w' : W)
      → (set_entry e w ≡ done (tt, w'))
        ↔ (CanSet w.state e × (w' ≡ record w { state = write w.state e }))
  unfolding set_entry
  set_entry_iff e w w' =
      ground (arith, whitelist_map.contains_key-get w.state.whitelist (entry_key e))

  pub remove_entry_iff :
      (k : WhitelistEntryKey) (w w' : W)
      → (remove_entry k w ≡ done (tt, w'))
        ↔ (CanRemove w.state k × (w' ≡ record w { state = erase w.state k }))
  unfolding remove_entry
  remove_entry_iff k w w' =
      ground (arith, whitelist_map.remove-get w.state.whitelist (removed_key k))

  pub increase_entry_iff :
      (ctx : Context) (c : LimitChange) (w w' : W)
      → (increase_entry ctx c w ≡ done (tt, w'))
        ↔ (CanIncrease ctx w.state c × (w' ≡ record w { state = increase w.state c }))
  unfolding increase_entry
  increase_entry_iff ctx c w w' = ground (arith, str_eq_iff c.account_id ctx.current_account_id)

  pub decrease_entry_iff :
      (c : LimitChange) (w w' : W)
      → (decrease_entry c w ≡ done (tt, w'))
        ↔ (CanDecrease w.state c × (w' ≡ record w { state = decrease w.state c }))
  unfolding decrease_entry
  decrease_entry_iff c w w' = ground arith

  -- A batch goes through for the manager only, and is not empty.
  abbrev pub IsBatch {ℓ} : {A : Type ℓ} → Context → Contract → List A → Type 0
  IsBatch ctx self xs = (ctx.predecessor_account_id ≡ self.manager_id) × (is_empty xs ≡ false)
