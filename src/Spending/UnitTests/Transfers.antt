-- ===== src/Spending/UnitTests/Transfers.antt =====
-- The tests of NEAR transfers.
use hos_treasury.Common.{ℕ, ◌≡◌, refl, Option, none, some}
use hos_treasury.Spending.Types.{Callback}
use hos_treasury.Near.{Promise, Outcome, done, panic, ok, err, ◌>>=◌, ◌>>◌}
use hos_treasury.Spending.Whitelist.{
  get_whitelist_entry, add_to_whitelist, remove_from_whitelist, increase_limit,
}
use hos_treasury.Spending.Transfer.{transfer, on_transfer}
use hos_treasury.Spending.Samples.{sample, program}
use hos_treasury.Spending.UnitTests.{
  yocto, admin, manager, spender, alice, context, on_new, entries, keys, changes,
  near_contract_with_alice, near_remaining,
}

abbrev test_near_transfer_within_limit : Outcome (Option ℕ)
test_near_transfer_within_limit = near_contract_with_alice 100 (do
  paid ← transfer (context spender) alice (yocto 60)
  rest ← transfer (context spender) alice (yocto 40)
  near_remaining)

test_near_transfer_within_limit_passes : test_near_transfer_within_limit ≡ done (some 0)
unfolding program get_whitelist_entry
test_near_transfer_within_limit_passes = refl

abbrev test_near_transfer_over_limit_fails : Outcome (Promise Callback)
test_near_transfer_over_limit_fails =
    near_contract_with_alice 100 (do transfer (context spender) alice (yocto 101))

test_near_transfer_over_limit_fails_passes :
    test_near_transfer_over_limit_fails ≡ panic "Transfer exceeds the limit"
unfolding program get_whitelist_entry
test_near_transfer_over_limit_fails_passes = refl

abbrev test_near_transfer_cumulative_over_limit_fails : Outcome (Promise Callback)
test_near_transfer_cumulative_over_limit_fails = near_contract_with_alice 100 (do
  paid ← transfer (context spender) alice (yocto 60)
  transfer (context spender) alice (yocto 41))

test_near_transfer_cumulative_over_limit_fails_passes :
    test_near_transfer_cumulative_over_limit_fails ≡ panic "Transfer exceeds the limit"
unfolding program get_whitelist_entry
test_near_transfer_cumulative_over_limit_fails_passes = refl

abbrev test_near_transfer_by_admin_fails : Outcome (Promise Callback)
test_near_transfer_by_admin_fails =
    near_contract_with_alice 100 (do transfer (context admin) alice (yocto 1))

test_near_transfer_by_admin_fails_passes :
    test_near_transfer_by_admin_fails ≡ panic "Only the spender can transfer"
unfolding program get_whitelist_entry
test_near_transfer_by_admin_fails_passes = refl

abbrev test_near_transfer_by_manager_fails : Outcome (Promise Callback)
test_near_transfer_by_manager_fails =
    near_contract_with_alice 100 (do transfer (context manager) alice (yocto 1))

test_near_transfer_by_manager_fails_passes :
    test_near_transfer_by_manager_fails ≡ panic "Only the spender can transfer"
unfolding program get_whitelist_entry
test_near_transfer_by_manager_fails_passes = refl

abbrev test_near_transfer_to_non_whitelisted_fails : Outcome (Promise Callback)
test_near_transfer_to_non_whitelisted_fails = on_new (transfer (context spender) alice (yocto 1))

test_near_transfer_to_non_whitelisted_fails_passes :
    test_near_transfer_to_non_whitelisted_fails ≡ panic "Receiver is not whitelisted"
unfolding program get_whitelist_entry
test_near_transfer_to_non_whitelisted_fails_passes = refl

abbrev test_near_transfer_zero_fails : Outcome (Promise Callback)
test_near_transfer_zero_fails = near_contract_with_alice 100 (do transfer (context spender) alice 0)

test_near_transfer_zero_fails_passes :
    test_near_transfer_zero_fails ≡ panic "Amount must be positive"
unfolding program get_whitelist_entry
test_near_transfer_zero_fails_passes = refl

abbrev test_near_raised_limit_extends_allowance : Outcome (Option ℕ)
test_near_raised_limit_extends_allowance = near_contract_with_alice 100 (do
  paid ← transfer (context spender) alice (yocto 100)
  increase_limit (context manager) (changes alice none (yocto 50))
  rest ← transfer (context spender) alice (yocto 50)
  near_remaining)

test_near_raised_limit_extends_allowance_passes :
    test_near_raised_limit_extends_allowance ≡ done (some 0)
unfolding program get_whitelist_entry
test_near_raised_limit_extends_allowance_passes = refl

abbrev test_near_failed_transfer_restores_limit : Outcome (Option ℕ)
test_near_failed_transfer_restores_limit = near_contract_with_alice 100 (do
  paid ← transfer (context spender) alice (yocto 60)
  on_transfer alice (yocto 60) (err "Failed")
  near_remaining)

test_near_failed_transfer_restores_limit_passes :
    test_near_failed_transfer_restores_limit ≡ done (some (yocto 100))
unfolding program get_whitelist_entry
test_near_failed_transfer_restores_limit_passes = refl

abbrev test_near_successful_transfer_keeps_limit_consumed : Outcome (Option ℕ)
test_near_successful_transfer_keeps_limit_consumed = near_contract_with_alice 100 (do
  paid ← transfer (context spender) alice (yocto 60)
  on_transfer alice (yocto 60) (ok tt)
  near_remaining)

test_near_successful_transfer_keeps_limit_consumed_passes :
    test_near_successful_transfer_keeps_limit_consumed ≡ done (some (yocto 40))
unfolding program get_whitelist_entry
test_near_successful_transfer_keeps_limit_consumed_passes = refl

abbrev test_near_rollback_after_readd_tops_up_fresh_limit : Outcome (Option ℕ)
test_near_rollback_after_readd_tops_up_fresh_limit = near_contract_with_alice 100 (do
  paid ← transfer (context spender) alice (yocto 60)
  remove_from_whitelist (context manager) (keys alice none)
  add_to_whitelist (context manager) (entries alice none (yocto 100))
  on_transfer alice (yocto 60) (err "Failed")
  near_remaining)

test_near_rollback_after_readd_tops_up_fresh_limit_passes :
    test_near_rollback_after_readd_tops_up_fresh_limit ≡ done (some (yocto 160))
unfolding program get_whitelist_entry
test_near_rollback_after_readd_tops_up_fresh_limit_passes = refl

abbrev test_near_rollback_after_removal_does_not_panic : Outcome (Option ℕ)
test_near_rollback_after_removal_does_not_panic = near_contract_with_alice 100 (do
  paid ← transfer (context spender) alice (yocto 60)
  remove_from_whitelist (context manager) (keys alice none)
  on_transfer alice (yocto 60) (err "Failed")
  near_remaining)

test_near_rollback_after_removal_does_not_panic_passes :
    test_near_rollback_after_removal_does_not_panic ≡ done none
unfolding program get_whitelist_entry
test_near_rollback_after_removal_does_not_panic_passes = refl
