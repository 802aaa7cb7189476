-- ===== src/Spending/Whitelist.antt =====
-- The whitelist methods of spending-account/src/whitelist.rs. Each loop body is a function.
pub mod Rounds
pub mod Additions
pub mod Removals
pub mod Changes
pub mod Pages
use mathlib.Core.Option
use hos_treasury.Common.{
  ℕ, String, Bool, true, false, not, Option, List, [], ◌∷◌, map, str_eq, take, drop, u32_max,
  u128_max, checked_add, is_some, saturating_sub, try_from,
}
use hos_treasury.Near.{Context, ◌>>=◌, ◌>>◌, return, get_self, put_self, require, expect, for_each}
use hos_treasury.Spending.Types.{WhitelistKey, WhitelistEntry, WhitelistEntryKey, LimitChange, Sdk}
use hos_treasury.Spending.Contract.{Contract, Method, assert_manager}

abbrev pub is_empty {ℓ} : {A : Type ℓ} → List A → Bool
is_empty [] = true
is_empty (x ∷ xs) = false

module _ ⦃sdk : Sdk⦄ where
  open sdk use {whitelist_map}

  unfoldable pub add_entry : Context → WhitelistEntry → Method (Unit {0})
  add_entry ctx entry = do
    require (not (str_eq entry.account_id ctx.current_account_id))
        "Cannot whitelist the contract itself"
    let key : WhitelistKey = (entry.account_id, entry.token_id)
    self ← get_self
    require (not (whitelist_map.contains_key self.whitelist key)) "Account is already whitelisted"
    put_self (record self { whitelist = whitelist_map.insert self.whitelist key entry.limit })

  unfoldable pub add_to_whitelist : Context → List WhitelistEntry → Method (Unit {0})
  add_to_whitelist ctx entries = do
    assert_manager ctx
    require (not (is_empty entries)) "No entries provided"
    for_each (add_entry ctx) entries

  unfoldable pub remove_entry : WhitelistEntryKey → Method (Unit {0})
  remove_entry key = do
    self ← get_self
    let (whitelist, removed) = whitelist_map.remove self.whitelist (key.account_id, key.token_id)
    put_self (record self { whitelist = whitelist })
    require (is_some removed) "Account is not whitelisted"

  unfoldable pub remove_from_whitelist : Context → List WhitelistEntryKey → Method (Unit {0})
  remove_from_whitelist ctx keys = do
    assert_manager ctx
    require (not (is_empty keys)) "No entries provided"
    for_each remove_entry keys

  unfoldable pub set_entry : WhitelistEntry → Method (Unit {0})
  set_entry entry = do
    let key : WhitelistKey = (entry.account_id, entry.token_id)
    self ← get_self
    require (whitelist_map.contains_key self.whitelist key) "Account is not whitelisted"
    put_self (record self { whitelist = whitelist_map.insert self.whitelist key entry.limit })

  unfoldable pub set_limit : Context → List WhitelistEntry → Method (Unit {0})
  set_limit ctx entries = do
    assert_manager ctx
    require (not (is_empty entries)) "No entries provided"
    for_each set_entry entries

  unfoldable pub increase_entry : Context → LimitChange → Method (Unit {0})
  increase_entry ctx change = do
    require (not (str_eq change.account_id ctx.current_account_id))
        "Cannot whitelist the contract itself"
    let key : WhitelistKey = (change.account_id, change.token_id)
    self ← get_self
    let limit = Option.get_or (whitelist_map.get self.whitelist key) 0
    raised ← expect (checked_add u128_max limit change.amount) "Limit overflow"
    put_self (record self { whitelist = whitelist_map.insert self.whitelist key raised })

  unfoldable pub increase_limit : Context → List LimitChange → Method (Unit {0})
  increase_limit ctx changes = do
    assert_manager ctx
    require (not (is_empty changes)) "No entries provided"
    for_each (increase_entry ctx) changes

  unfoldable pub decrease_entry : LimitChange → Method (Unit {0})
  decrease_entry change = do
    let key : WhitelistKey = (change.account_id, change.token_id)
    self ← get_self
    limit ← expect (whitelist_map.get self.whitelist key) "Account is not whitelisted"
    put_self (record self {
      whitelist = whitelist_map.insert self.whitelist key (saturating_sub limit change.amount);
    })

  unfoldable pub decrease_limit : Context → List LimitChange → Method (Unit {0})
  decrease_limit ctx changes = do
    assert_manager ctx
    require (not (is_empty changes)) "No entries provided"
    for_each decrease_entry changes

  unfoldable pub get_num_whitelisted : Contract → ℕ
  get_num_whitelisted self = whitelist_map.len self.whitelist

  unfoldable pub get_whitelist_entry : Contract → String → Option String → Option WhitelistEntry
  get_whitelist_entry self account_id token_id =
      Option.map (λ limit. record { account_id = account_id; token_id = token_id; limit = limit })
        (whitelist_map.get self.whitelist (account_id, token_id))

  abbrev pub to_entry : WhitelistKey × ℕ → WhitelistEntry
  to_entry ((account_id, token_id), limit) = record {
    account_id = account_id;
    token_id = token_id;
    limit = limit;
  }

  -- `usize` has 32 bits in the contract's WebAssembly.
  unfoldable pub get_whitelist_entries : Option ℕ → Option ℕ → Method (List WhitelistEntry)
  get_whitelist_entries from_index limit = do
    from ← expect (try_from u32_max (Option.get_or from_index 0)) "from_index exceeds usize"
    count ← expect (try_from u32_max (Option.get_or limit u32_max)) "limit exceeds usize"
    self ← get_self
    return (map to_entry (take count (drop from (whitelist_map.iter self.whitelist))))
