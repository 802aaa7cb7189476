-- ===== src/Spending/UnitTests/Entries.antt =====
-- The tests of the whitelist's single entries.
use hos_treasury.Common.{ℕ, ◌≡◌, refl, Option, none, some, length}
use hos_treasury.Near.{Outcome, done, panic, ◌>>=◌, ◌>>◌, return, get_self}
use hos_treasury.Spending.Types.{WhitelistEntry}
use hos_treasury.Spending.Whitelist.{
  add_to_whitelist, remove_from_whitelist, set_limit, get_num_whitelisted, get_whitelist_entry,
  get_whitelist_entries,
}
use hos_treasury.Spending.Transfer.{transfer_ft}
use hos_treasury.Spending.Samples.{sample, program}
use hos_treasury.Spending.UnitTests.{
  yocto, admin, manager, spender, treasury, alice, token, other_token, context, on_new, entries,
  keys, ft_limit, ft_contract_with_alice, ft_remaining,
}

abbrev test_add_to_whitelist : Outcome (ℕ × Option WhitelistEntry × ℕ)
test_add_to_whitelist = ft_contract_with_alice ft_limit (do
  self ← get_self
  listed ← get_whitelist_entries none none
  return (get_num_whitelisted self, get_whitelist_entry self alice (some token), length listed))

test_add_to_whitelist_passes :
    test_add_to_whitelist
    ≡ done (1, some (record { account_id = alice; token_id = some token; limit = ft_limit }), 1)
unfolding program get_whitelist_entry get_num_whitelisted get_whitelist_entries
test_add_to_whitelist_passes = refl

abbrev test_add_duplicate_fails : Outcome (Unit {0})
test_add_duplicate_fails =
    ft_contract_with_alice ft_limit
      (add_to_whitelist (context manager) (entries alice (some token) 1))

test_add_duplicate_fails_passes : test_add_duplicate_fails ≡ panic "Account is already whitelisted"
unfolding program get_whitelist_entry get_num_whitelisted get_whitelist_entries
test_add_duplicate_fails_passes = refl

abbrev test_add_self_fails : Outcome (Unit {0})
test_add_self_fails = on_new (add_to_whitelist (context manager) (entries treasury (some token) 1))

test_add_self_fails_passes : test_add_self_fails ≡ panic "Cannot whitelist the contract itself"
unfolding program get_whitelist_entry get_num_whitelisted get_whitelist_entries
test_add_self_fails_passes = refl

abbrev test_add_by_spender_fails : Outcome (Unit {0})
test_add_by_spender_fails =
    on_new (add_to_whitelist (context spender) (entries alice (some token) 1))

test_add_by_spender_fails_passes :
    test_add_by_spender_fails ≡ panic "Only the manager can call this method"
unfolding program get_whitelist_entry get_num_whitelisted get_whitelist_entries
test_add_by_spender_fails_passes = refl

abbrev test_add_by_admin_fails : Outcome (Unit {0})
test_add_by_admin_fails = on_new (add_to_whitelist (context admin) (entries alice (some token) 1))

test_add_by_admin_fails_passes :
    test_add_by_admin_fails ≡ panic "Only the manager can call this method"
unfolding program get_whitelist_entry get_num_whitelisted get_whitelist_entries
test_add_by_admin_fails_passes = refl

abbrev test_remove_from_whitelist : Outcome (Option WhitelistEntry × ℕ)
test_remove_from_whitelist = ft_contract_with_alice ft_limit (do
  remove_from_whitelist (context manager) (keys alice (some token))
  self ← get_self
  return (get_whitelist_entry self alice (some token), get_num_whitelisted self))

test_remove_from_whitelist_passes : test_remove_from_whitelist ≡ done (none, 0)
unfolding program get_whitelist_entry get_num_whitelisted get_whitelist_entries
test_remove_from_whitelist_passes = refl

abbrev test_remove_missing_fails : Outcome (Unit {0})
test_remove_missing_fails =
    on_new (remove_from_whitelist (context manager) (keys alice (some token)))

test_remove_missing_fails_passes : test_remove_missing_fails ≡ panic "Account is not whitelisted"
unfolding program get_whitelist_entry get_num_whitelisted get_whitelist_entries
test_remove_missing_fails_passes = refl

abbrev test_remove_by_other_fails : Outcome (Unit {0})
test_remove_by_other_fails =
    ft_contract_with_alice ft_limit
      (remove_from_whitelist (context alice) (keys alice (some token)))

test_remove_by_other_fails_passes :
    test_remove_by_other_fails ≡ panic "Only the manager can call this method"
unfolding program get_whitelist_entry get_num_whitelisted get_whitelist_entries
test_remove_by_other_fails_passes = refl

abbrev test_set_limit_overrides_remaining : Outcome (Option ℕ)
test_set_limit_overrides_remaining = ft_contract_with_alice ft_limit (do
  paid ← transfer_ft (context spender) alice token 30
  set_limit (context manager) (entries alice (some token) 40)
  ft_remaining)

test_set_limit_overrides_remaining_passes : test_set_limit_overrides_remaining ≡ done (some 40)
unfolding program get_whitelist_entry get_num_whitelisted get_whitelist_entries
test_set_limit_overrides_remaining_passes = refl

abbrev test_set_limit_missing_fails : Outcome (Unit {0})
test_set_limit_missing_fails = on_new (set_limit (context manager) (entries alice (some token) 1))

test_set_limit_missing_fails_passes :
    test_set_limit_missing_fails ≡ panic "Account is not whitelisted"
unfolding program get_whitelist_entry get_num_whitelisted get_whitelist_entries
test_set_limit_missing_fails_passes = refl

abbrev test_readd_restores_limit : Outcome (Option ℕ)
test_readd_restores_limit = ft_contract_with_alice ft_limit (do
  paid ← transfer_ft (context spender) alice token ft_limit
  remove_from_whitelist (context manager) (keys alice (some token))
  add_to_whitelist (context manager) (entries alice (some token) ft_limit)
  ft_remaining)

test_readd_restores_limit_passes : test_readd_restores_limit ≡ done (some ft_limit)
unfolding program get_whitelist_entry get_num_whitelisted get_whitelist_entries
test_readd_restores_limit_passes = refl

abbrev test_entry_does_not_grant_other_tokens :
    Outcome (Option WhitelistEntry × Option WhitelistEntry)
test_entry_does_not_grant_other_tokens = ft_contract_with_alice ft_limit (do
  self ← get_self
  return (get_whitelist_entry self alice (some other_token), get_whitelist_entry self alice none))

test_entry_does_not_grant_other_tokens_passes :
    test_entry_does_not_grant_other_tokens ≡ done (none, none)
unfolding program get_whitelist_entry get_num_whitelisted get_whitelist_entries
test_entry_does_not_grant_other_tokens_passes = refl

abbrev test_add_same_receiver_other_token : Outcome ℕ
test_add_same_receiver_other_token = ft_contract_with_alice ft_limit (do
  add_to_whitelist (context manager) (entries alice (some other_token) 1)
  add_to_whitelist (context manager) (entries alice none (yocto 1))
  self ← get_self
  return (get_num_whitelisted self))

test_add_same_receiver_other_token_passes : test_add_same_receiver_other_token ≡ done 3
unfolding program get_whitelist_entry get_num_whitelisted get_whitelist_entries
test_add_same_receiver_other_token_passes = refl

abbrev test_token_entry_does_not_grant_near_limit : Outcome (Unit {0})
test_token_entry_does_not_grant_near_limit =
    ft_contract_with_alice ft_limit (set_limit (context manager) (entries alice none 1))

test_token_entry_does_not_grant_near_limit_passes :
    test_token_entry_does_not_grant_near_limit ≡ panic "Account is not whitelisted"
unfolding program get_whitelist_entry get_num_whitelisted get_whitelist_entries
test_token_entry_does_not_grant_near_limit_passes = refl
