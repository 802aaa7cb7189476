-- ===== src/Spending/Tests.antt =====
-- The spending account at concrete inputs: its own unit tests, and each property where its
-- hypotheses hold.
use hos_treasury.Common.{◌↔◌, ℕ, ◌≡◌, refl, arith, none, some, [], ◌∷◌}
use hos_treasury.Near.{World, done, panic, ok, err}
use hos_treasury.Spending.Types.{Callback}
use hos_treasury.Spending.Contract.{Contract}
use hos_treasury.Spending.Keys.{limit_of}
use hos_treasury.Spending.Events
use hos_treasury.Spending.Whitelist.{add_to_whitelist}
use hos_treasury.Spending.Transfer.{transfer, transfer_ft, on_transfer, on_transfer_ft}
use hos_treasury.Spending.Calls.{Call, spender, holder}
use hos_treasury.Spending.Treasury.{
  Treasury, begin, opened, after_call, Reach, start, next, call, callback,
}
use hos_treasury.Spending.Treasury.Sound.{IsSound, Reach-IsSound}
use hos_treasury.Spending.Ledger.{Comes}
use hos_treasury.Spending.Ledger.Refinement.{books_of, treasury_refines}
use hos_treasury.Spending.Calls.Authority.{Confined, invoke-Confined}
use hos_treasury.Spending.Transfer.Effects.{
  near_promise, token_promise, Allowed, PaysNear, PaysToken, transfer_iff, transfer_ft_iff,
  after_event, restored, callbacks_return,
}
use hos_treasury.Spending.Transfer.Rollback.{failed_transfer_restores, failed_transfer_ft_restores}
use hos_treasury.Spending.Samples.{
  sample, program, fresh, alice, alice_token, entries, manager_call, spender_call, world_of, listed,
  near_paid, token_paid, small,
}

add_alice : (limit_of listed.state alice ≡ some 100) × (limit_of listed.state alice_token ≡ some 7)
unfolding program
add_alice = (refl, refl)

pay_alice :
    (limit_of near_paid.state alice ≡ some 40) × (limit_of token_paid.state alice_token ≡ some 0)
unfolding program
pay_alice = (refl, refl)

over_limit : transfer spender_call "alice.near" 101 listed ≡ panic "Transfer exceeds the limit"
unfolding program
over_limit = refl

add_self :
    add_to_whitelist manager_call
      (record { account_id = "treasury.near"; token_id = none; limit = 1 } ∷ [])
      (begin fresh)
    ≡ panic "Cannot whitelist the contract itself"
unfolding program
add_self = refl

abbrev opened_at : Treasury
opened_at = opened "admin.near" "manager.near" "spender.near"

-- A life of the account: the manager lists alice, the spender pays her 60, and the payment fails.
abbrev listed_at : Treasury
listed_at = after_call opened_at (Call.add_to_whitelist entries) none listed.state

abbrev paid_at : Treasury
paid_at =
    after_call listed_at (Call.transfer "alice.near" 60)
      (some (near_promise spender_call "alice.near" 60))
      (world_of (transfer spender_call "alice.near" 60 (begin listed.state))).state

abbrev failed : World Contract Callback
failed = world_of (on_transfer "alice.near" 60 (err "failed") (begin paid_at.contract))

abbrev failed_at : Treasury
failed_at = record paid_at {
  contract = failed.state;
  in_flight = [];
  failed = Callback.on_transfer "alice.near" 60 ∷ [];
}

life : Reach "treasury.near" "admin.near" "manager.near" "spender.near" failed_at
unfolding program
life =
    next
      (next
        (next start
          (call manager_call (Call.add_to_whitelist entries) none listed refl (omega arith) refl))
        (call spender_call (Call.transfer "alice.near" 60) _ _ refl tt refl))
      (callback [] [] (Callback.on_transfer "alice.near" 60) (err "failed") failed refl refl)

treasury_refines_example :
    Comes "treasury.near" "admin.near" "manager.near" "spender.near" (books_of failed_at) ↔ (
      (t : Treasury) × Reach "treasury.near" "admin.near" "manager.near" "spender.near" t
      × (books_of t ≡ books_of failed_at))
treasury_refines_example = treasury_refines (books_of failed_at)

Reach-IsSound_example : IsSound "treasury.near" failed_at.contract
Reach-IsSound_example = Reach-IsSound life

invoke-Confined_example :
    ("spender.near" ≡ holder spender listed.state)
    × Confined spender listed near_paid (some (near_promise spender_call "alice.near" 60))
unfolding program
invoke-Confined_example =
    invoke-Confined spender_call (Call.transfer "alice.near" 60) listed near_paid
      (some (near_promise spender_call "alice.near" 60)) refl

transfer_iff_example :
    (transfer spender_call "alice.near" 60 listed
      ≡ done (near_promise spender_call "alice.near" 60, near_paid))
    ↔ ((limit : ℕ) × Allowed spender_call listed.state alice 60 limit
        × PaysNear spender_call "alice.near" 60 listed near_paid
            (near_promise spender_call "alice.near" 60)
            limit)
transfer_iff_example =
    transfer_iff spender_call "alice.near" 60 listed near_paid
      (near_promise spender_call "alice.near" 60)

transfer_ft_iff_example :
    (transfer_ft spender_call "alice.near" "token.near" 7 listed
      ≡ done (token_promise spender_call "alice.near" "token.near" 7, token_paid))
    ↔ ((limit : ℕ) × Allowed spender_call listed.state alice_token 7 limit
        × PaysToken spender_call "alice.near" 7 listed token_paid
            (token_promise spender_call "alice.near" "token.near" 7)
            "token.near"
            limit)
transfer_ft_iff_example =
    transfer_ft_iff spender_call "alice.near" 7 listed token_paid
      (token_promise spender_call "alice.near" "token.near" 7) "token.near"

callbacks_return_example :
    (on_transfer "alice.near" 60 (ok tt) near_paid ≡ done (tt, near_paid))
    × (on_transfer_ft "alice.near" "token.near" 60 (ok tt) near_paid ≡ done (tt, near_paid))
    × (on_transfer "alice.near" 60 (err "failed") near_paid
        ≡ done (
          tt,
          after_event near_paid
              (restored near_paid.state alice 60)
              "transfer_failed"
              (Events.transfer_failed_payload "alice.near" 60),
        ))
    × (on_transfer_ft "alice.near" "token.near" 60 (err "failed") near_paid
        ≡ done (
          tt,
          after_event near_paid
              (restored near_paid.state alice_token 60)
              "ft_transfer_failed"
              (Events.ft_transfer_failed_payload "alice.near" "token.near" 60),
        ))
callbacks_return_example = callbacks_return "alice.near" 60 near_paid "token.near" "failed"

abbrev near_failed : World Contract Callback
near_failed = world_of (on_transfer "alice.near" 60 (err "failed") near_paid)

failed_transfer_restores_example : limit_of near_failed.state alice ≡ limit_of listed.state alice
unfolding program
failed_transfer_restores_example =
    failed_transfer_restores spender_call "alice.near" "token.near" "failed" 60 listed near_paid
      near_paid near_failed (near_promise spender_call "alice.near" 60) small refl refl refl alice

abbrev token_failed : World Contract Callback
token_failed = world_of (on_transfer_ft "alice.near" "token.near" 7 (err "failed") token_paid)

failed_transfer_ft_restores_example :
    limit_of token_failed.state alice_token ≡ limit_of listed.state alice_token
unfolding program
failed_transfer_ft_restores_example =
    failed_transfer_ft_restores spender_call "alice.near" "token.near" "failed" 7 listed token_paid
      token_paid token_failed (token_promise spender_call "alice.near" "token.near" 7) small refl
      refl refl alice_token
