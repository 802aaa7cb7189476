-- ===== src/Spending/UnitTests/TokenTransfers.antt =====
-- The tests of token transfers.
use hos_treasury.Common.{ℕ, ◌+◌, ◌≡◌, refl, Option, none, some}
use hos_treasury.Spending.Types.{Callback}
use hos_treasury.Near.{Promise, Outcome, done, panic, ok, err, ◌>>=◌, ◌>>◌}
use hos_treasury.Spending.Whitelist.{
  get_whitelist_entry, add_to_whitelist, remove_from_whitelist, increase_limit,
}
use hos_treasury.Spending.Transfer.{transfer_ft, on_transfer_ft}
use hos_treasury.Spending.Samples.{sample, program}
use hos_treasury.Spending.UnitTests.{
  admin, manager, spender, alice, token, other_token, context, entries, keys, changes, ft_limit,
  near_contract_with_alice, ft_contract_with_alice, ft_remaining,
}

abbrev test_ft_transfer_within_limit : Outcome (Option ℕ)
test_ft_transfer_within_limit = ft_contract_with_alice ft_limit (do
  paid ← transfer_ft (context spender) alice token 60
  rest ← transfer_ft (context spender) alice token 40
  ft_remaining)

test_ft_transfer_within_limit_passes : test_ft_transfer_within_limit ≡ done (some 0)
unfolding program get_whitelist_entry
test_ft_transfer_within_limit_passes = refl

abbrev test_ft_transfer_over_limit_fails : Outcome (Promise Callback)
test_ft_transfer_over_limit_fails =
    ft_contract_with_alice ft_limit (do transfer_ft (context spender) alice token (ft_limit + 1))

test_ft_transfer_over_limit_fails_passes :
    test_ft_transfer_over_limit_fails ≡ panic "Transfer exceeds the limit"
unfolding program get_whitelist_entry
test_ft_transfer_over_limit_fails_passes = refl

abbrev test_ft_transfer_cumulative_over_limit_fails : Outcome (Promise Callback)
test_ft_transfer_cumulative_over_limit_fails = ft_contract_with_alice ft_limit (do
  paid ← transfer_ft (context spender) alice token 60
  transfer_ft (context spender) alice token 41)

test_ft_transfer_cumulative_over_limit_fails_passes :
    test_ft_transfer_cumulative_over_limit_fails ≡ panic "Transfer exceeds the limit"
unfolding program get_whitelist_entry
test_ft_transfer_cumulative_over_limit_fails_passes = refl

abbrev test_ft_transfer_by_admin_fails : Outcome (Promise Callback)
test_ft_transfer_by_admin_fails =
    ft_contract_with_alice ft_limit (do transfer_ft (context admin) alice token 1)

test_ft_transfer_by_admin_fails_passes :
    test_ft_transfer_by_admin_fails ≡ panic "Only the spender can transfer"
unfolding program get_whitelist_entry
test_ft_transfer_by_admin_fails_passes = refl

abbrev test_ft_transfer_other_token_fails : Outcome (Promise Callback)
test_ft_transfer_other_token_fails =
    ft_contract_with_alice ft_limit (transfer_ft (context spender) alice other_token 1)

test_ft_transfer_other_token_fails_passes :
    test_ft_transfer_other_token_fails ≡ panic "Receiver is not whitelisted for this token"
unfolding program get_whitelist_entry
test_ft_transfer_other_token_fails_passes = refl

abbrev test_ft_near_whitelist_does_not_grant_ft : Outcome (Promise Callback)
test_ft_near_whitelist_does_not_grant_ft =
    near_contract_with_alice 100 (transfer_ft (context spender) alice token 1)

test_ft_near_whitelist_does_not_grant_ft_passes :
    test_ft_near_whitelist_does_not_grant_ft ≡ panic "Receiver is not whitelisted for this token"
unfolding program get_whitelist_entry
test_ft_near_whitelist_does_not_grant_ft_passes = refl

abbrev test_ft_transfer_zero_fails : Outcome (Promise Callback)
test_ft_transfer_zero_fails =
    ft_contract_with_alice ft_limit (do transfer_ft (context spender) alice token 0)

test_ft_transfer_zero_fails_passes : test_ft_transfer_zero_fails ≡ panic "Amount must be positive"
unfolding program get_whitelist_entry
test_ft_transfer_zero_fails_passes = refl

abbrev test_ft_raised_limit_extends_allowance : Outcome (Option ℕ)
test_ft_raised_limit_extends_allowance = ft_contract_with_alice ft_limit (do
  paid ← transfer_ft (context spender) alice token 100
  increase_limit (context manager) (changes alice (some token) 50)
  rest ← transfer_ft (context spender) alice token 50
  ft_remaining)

test_ft_raised_limit_extends_allowance_passes :
    test_ft_raised_limit_extends_allowance ≡ done (some 0)
unfolding program get_whitelist_entry
test_ft_raised_limit_extends_allowance_passes = refl

abbrev test_ft_failed_transfer_restores_limit : Outcome (Option ℕ)
test_ft_failed_transfer_restores_limit = ft_contract_with_alice ft_limit (do
  paid ← transfer_ft (context spender) alice token 60
  on_transfer_ft alice token 60 (err "Failed")
  ft_remaining)

test_ft_failed_transfer_restores_limit_passes :
    test_ft_failed_transfer_restores_limit ≡ done (some 100)
unfolding program get_whitelist_entry
test_ft_failed_transfer_restores_limit_passes = refl

abbrev test_ft_successful_transfer_keeps_limit_consumed : Outcome (Option ℕ)
test_ft_successful_transfer_keeps_limit_consumed = ft_contract_with_alice ft_limit (do
  paid ← transfer_ft (context spender) alice token 60
  on_transfer_ft alice token 60 (ok tt)
  ft_remaining)

test_ft_successful_transfer_keeps_limit_consumed_passes :
    test_ft_successful_transfer_keeps_limit_consumed ≡ done (some 40)
unfolding program get_whitelist_entry
test_ft_successful_transfer_keeps_limit_consumed_passes = refl

abbrev test_ft_rollback_after_readd_tops_up_fresh_limit : Outcome (Option ℕ)
test_ft_rollback_after_readd_tops_up_fresh_limit = ft_contract_with_alice ft_limit (do
  paid ← transfer_ft (context spender) alice token 60
  remove_from_whitelist (context manager) (keys alice (some token))
  add_to_whitelist (context manager) (entries alice (some token) 100)
  on_transfer_ft alice token 60 (err "Failed")
  ft_remaining)

test_ft_rollback_after_readd_tops_up_fresh_limit_passes :
    test_ft_rollback_after_readd_tops_up_fresh_limit ≡ done (some 160)
unfolding program get_whitelist_entry
test_ft_rollback_after_readd_tops_up_fresh_limit_passes = refl

abbrev test_ft_rollback_after_removal_does_not_panic : Outcome (Option ℕ)
test_ft_rollback_after_removal_does_not_panic = ft_contract_with_alice ft_limit (do
  paid ← transfer_ft (context spender) alice token 60
  remove_from_whitelist (context manager) (keys alice (some token))
  on_transfer_ft alice token 60 (err "Failed")
  ft_remaining)

test_ft_rollback_after_removal_does_not_panic_passes :
    test_ft_rollback_after_removal_does_not_panic ≡ done none
unfolding program get_whitelist_entry
test_ft_rollback_after_removal_does_not_panic_passes = refl
