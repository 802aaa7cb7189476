-- ===== src/Spending/UnitTests/Limits.antt =====
-- The tests of limit changes and of batches.
use hos_treasury.Common.{ℕ, ◌*◌, ◌+◌, ◌-◌, ◌≡◌, refl, Option, none, some, [], u128_max, ◌++◌}
use hos_treasury.Near.{Outcome, done, panic, ◌>>=◌, ◌>>◌, return, get_self}
use hos_treasury.Spending.Whitelist.{
  add_to_whitelist, remove_from_whitelist, set_limit, increase_limit, decrease_limit,
  get_num_whitelisted, get_whitelist_entry, get_whitelist_entries,
}
use hos_treasury.Spending.Samples.{sample, program}
use hos_treasury.Spending.UnitTests.{
  yocto, manager, spender, treasury, alice, token, other_token, context, on_new, entries, keys,
  changes, ft_limit, ft_contract_with_alice, ft_remaining, near_remaining, remaining,
}

abbrev test_increase_limit : Outcome (Option ℕ)
test_increase_limit =
    ft_contract_with_alice ft_limit
      (do increase_limit (context manager) (changes alice (some token) 50); ft_remaining)

test_increase_limit_passes : test_increase_limit ≡ done (some (ft_limit + 50))
unfolding program get_whitelist_entry get_num_whitelisted get_whitelist_entries
test_increase_limit_passes = refl

abbrev test_increase_limit_overflow_fails : Outcome (Unit {0})
test_increase_limit_overflow_fails =
    ft_contract_with_alice ft_limit
      (increase_limit (context manager) (changes alice (some token) u128_max))

test_increase_limit_overflow_fails_passes :
    test_increase_limit_overflow_fails ≡ panic "Limit overflow"
unfolding program get_whitelist_entry get_num_whitelisted get_whitelist_entries
test_increase_limit_overflow_fails_passes = refl

abbrev test_decrease_limit_saturates_at_zero : Outcome (Option ℕ × Option ℕ)
test_decrease_limit_saturates_at_zero = ft_contract_with_alice ft_limit (do
  decrease_limit (context manager) (changes alice (some token) 30)
  first ← ft_remaining
  decrease_limit (context manager) (changes alice (some token) (ft_limit * 2))
  second ← ft_remaining
  return (first, second))

test_decrease_limit_saturates_at_zero_passes :
    test_decrease_limit_saturates_at_zero ≡ done (some (ft_limit - 30), some 0)
unfolding program get_whitelist_entry get_num_whitelisted get_whitelist_entries
test_decrease_limit_saturates_at_zero_passes = refl

abbrev test_increase_limit_creates_missing_entry : Outcome (Option ℕ)
test_increase_limit_creates_missing_entry =
    on_new (do increase_limit (context manager) (changes alice (some token) 1); ft_remaining)

test_increase_limit_creates_missing_entry_passes :
    test_increase_limit_creates_missing_entry ≡ done (some 1)
unfolding program get_whitelist_entry get_num_whitelisted get_whitelist_entries
test_increase_limit_creates_missing_entry_passes = refl

abbrev test_increase_limit_self_fails : Outcome (Unit {0})
test_increase_limit_self_fails =
    on_new (increase_limit (context manager) (changes treasury (some token) 1))

test_increase_limit_self_fails_passes :
    test_increase_limit_self_fails ≡ panic "Cannot whitelist the contract itself"
unfolding program get_whitelist_entry get_num_whitelisted get_whitelist_entries
test_increase_limit_self_fails_passes = refl

abbrev test_decrease_limit_missing_fails : Outcome (Unit {0})
test_decrease_limit_missing_fails =
    on_new (decrease_limit (context manager) (changes alice (some token) 1))

test_decrease_limit_missing_fails_passes :
    test_decrease_limit_missing_fails ≡ panic "Account is not whitelisted"
unfolding program get_whitelist_entry get_num_whitelisted get_whitelist_entries
test_decrease_limit_missing_fails_passes = refl

abbrev test_increase_limit_by_spender_fails : Outcome (Unit {0})
test_increase_limit_by_spender_fails =
    ft_contract_with_alice ft_limit
      (increase_limit (context spender) (changes alice (some token) 1))

test_increase_limit_by_spender_fails_passes :
    test_increase_limit_by_spender_fails ≡ panic "Only the manager can call this method"
unfolding program get_whitelist_entry get_num_whitelisted get_whitelist_entries
test_increase_limit_by_spender_fails_passes = refl

abbrev test_batch_add_and_set_limits : Outcome (ℕ × Option ℕ × Option ℕ)
test_batch_add_and_set_limits = ft_contract_with_alice ft_limit (do
  add_to_whitelist (context manager)
      (entries alice (some other_token) 1 ++ entries alice none (yocto 1))
  self ← get_self
  set_limit (context manager) (entries alice (some token) 40 ++ entries alice (some other_token) 2)
  mine ← ft_remaining
  other ← remaining (some other_token)
  return (get_num_whitelisted self, mine, other))

test_batch_add_and_set_limits_passes : test_batch_add_and_set_limits ≡ done (3, some 40, some 2)
unfolding program get_whitelist_entry get_num_whitelisted get_whitelist_entries
test_batch_add_and_set_limits_passes = refl

abbrev test_batch_change_limits_and_remove : Outcome (Option ℕ × Option ℕ × Option ℕ × ℕ)
test_batch_change_limits_and_remove = ft_contract_with_alice ft_limit (do
  add_to_whitelist (context manager) (entries alice none (yocto 1))
  increase_limit (context manager) (changes alice (some token) 50 ++ changes alice none (yocto 2))
  raised ← ft_remaining
  decrease_limit (context manager) (changes alice (some token) 50 ++ changes alice none (yocto 3))
  lowered ← ft_remaining
  near ← near_remaining
  remove_from_whitelist (context manager) (keys alice (some token) ++ keys alice none)
  self ← get_self
  return (raised, lowered, near, get_num_whitelisted self))

test_batch_change_limits_and_remove_passes :
    test_batch_change_limits_and_remove ≡ done (some (ft_limit + 50), some ft_limit, some 0, 0)
unfolding program get_whitelist_entry get_num_whitelisted get_whitelist_entries
test_batch_change_limits_and_remove_passes = refl

abbrev test_batch_with_duplicate_entries_fails : Outcome (Unit {0})
test_batch_with_duplicate_entries_fails = on_new (
    add_to_whitelist (context manager)
      (entries alice none (yocto 1) ++ entries alice none (yocto 1)))

test_batch_with_duplicate_entries_fails_passes :
    test_batch_with_duplicate_entries_fails ≡ panic "Account is already whitelisted"
unfolding program get_whitelist_entry get_num_whitelisted get_whitelist_entries
test_batch_with_duplicate_entries_fails_passes = refl

abbrev test_empty_batch_fails : Outcome (Unit {0})
test_empty_batch_fails = on_new (add_to_whitelist (context manager) [])

test_empty_batch_fails_passes : test_empty_batch_fails ≡ panic "No entries provided"
unfolding program get_whitelist_entry get_num_whitelisted get_whitelist_entries
test_empty_batch_fails_passes = refl
