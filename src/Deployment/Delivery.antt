-- ===== src/Deployment/Delivery.antt =====
-- A request reaches the spending account: what its function calls ask for is done there.
use hos_treasury.Common.{
  ℕ, ◌≤◌, ◌≡◌, refl, ap, sym, subst, ◌∙◌, arith, String, Option, Option-cases, none, some, List, [],
  ◌∷◌, ◌++◌, inl, inr,
}
use hos_treasury.Near.{Context}
use hos_treasury.Timelock
use hos_treasury.Timelock.Types.{FunctionCall, Request}
use hos_treasury.Timelock.Scheduling.{pending}
use hos_treasury.Timelock.Leaving.{removed, IsGone, execution_of}
use hos_treasury.Timelock.Requests.{total_deposit}
use hos_treasury.Timelock.Queue.Draining.{execute_runs}
use hos_treasury.Spending
use hos_treasury.Spending.Types.{Callback}
use hos_treasury.Spending.Calls.{Call, InRange}
use hos_treasury.Spending.Treasury.{begin}
use hos_treasury.Spending.Treasury.Sound.{Reach-IsSound}
use hos_treasury.Spending.Ledger.{Ledger, Permits, perform, starts}
use hos_treasury.Spending.Ledger.Batches.{ledger_of}
use hos_treasury.Spending.Ledger.Calls.{invoke-Obeys}
use hos_treasury.Spending.Ledger.Permitted.{invoke_when}
use hos_treasury.Spending.Ledger.Refinement.{IsSound-Fits}
use hos_treasury.Deployment.{
  Decoder, call_of, Vault, System, acted, Acts, Arrives, over, act, lock_call, arrival, Reach, next,
  receipts_of, receipts_of_all,
}
use hos_treasury.Deployment.Receipts.{batch_of_request, receipts_of-promised}
use hos_treasury.Deployment.Histories.{VaultReach, acted-VaultReach, Reach-treasury}

-- What a function call does to the ledger.
abbrev pub perform_call : Option Call → Ledger → Ledger
perform_call none l = l
perform_call (some c) l = perform l c

abbrev pub start_call : Option Call → List Callback
start_call none = []
start_call (some c) = starts c

-- The function call is a call of the account, and the ledger permits it.
abbrev pub PermitsCall : Context → Ledger → Option Call → Type 0
PermitsCall ctx l none = ⊥
PermitsCall ctx l (some c) = InRange c × Permits ctx l c

module _ (decoder : Decoder) where
  -- The function calls of a receipt, one after another.
  abbrev pub perform_all : List FunctionCall → Ledger → Ledger
  perform_all [] l = l
  perform_all (a ∷ actions) l = perform_all actions (perform_call (call_of decoder a) l)

  -- The transfers under way after the function calls.
  abbrev pub start_all : List FunctionCall → List Callback → List Callback
  start_all [] flying = flying
  start_all (a ∷ actions) flying = start_all actions (start_call (call_of decoder a) ++ flying)

  -- The ledger permits each function call where its turn comes.
  abbrev pub PermitsAll : Context → List FunctionCall → Ledger → Type 0
  PermitsAll ctx [] l = Unit
  PermitsAll ctx (a ∷ actions) l =
      PermitsCall ctx l (call_of decoder a)
      × PermitsAll ctx actions (perform_call (call_of decoder a) l)

  module _ ⦃lock_sdk : Timelock.Types.Sdk⦄ ⦃vault_sdk : Spending.Types.Sdk⦄ where
    module _ (lock_id vault_id vault_admin_id : String) where
      -- The account after function calls that its ledger permits.
      record Ran (actions : List FunctionCall) (v u : Vault) : Type 0 where
        arrives : Arrives decoder lock_id vault_id actions v u
        ledger : ledger_of u.treasury.contract ≡ perform_all actions (ledger_of v.treasury.contract)
        in_flight : u.treasury.in_flight ≡ start_all actions v.treasury.in_flight
        paid : u.treasury.paid ≡ v.treasury.paid

      batch_runs :
          (ctx : Context) (actions : List FunctionCall) (v : Vault)
          → ctx.predecessor_account_id ≡ lock_id
          → ctx.current_account_id ≡ vault_id
          → VaultReach lock_id vault_id vault_admin_id v
          → PermitsAll ctx actions (ledger_of v.treasury.contract)
          → (u : Vault) × Ran actions v u
      batch_runs ctx [] v by_lock here reach h =
          (v, record { arrives = over; ledger = refl; in_flight = refl; paid = refl })
      batch_runs ctx (a ∷ actions) v by_lock here reach (first, rest) =
          let l = ledger_of v.treasury.contract in
          elim (Option-cases (call_of decoder a)) [
            | inl e ↦ absurd (subst (PermitsCall ctx l) e first)
            | inr (c, e) ↦
                let (small, permitted) = subst (PermitsCall ctx l) e first in
                let fits = IsSound-Fits vault_id v.treasury.contract (Reach-IsSound reach) in
                let (p, w, ran) = invoke_when ctx c (begin v.treasury.contract) fits permitted in
                let o = invoke-Obeys ctx c (begin v.treasury.contract) w p fits ran in
                let acts : Acts decoder lock_id vault_id v ctx c p w = record {
                  here = here;
                  in_range = small;
                  ran = ran;
                } in
                let (u, r) =
                  batch_runs ctx actions (acted v ctx c p w.state) by_lock here
                    (acted-VaultReach lock_id vault_id vault_admin_id decoder v ctx c p w acts
                      reach)
                    (subst (PermitsAll ctx actions) (ap (λ c. perform_call c l) e ∙ sym o.performed)
                      rest) in
                (
                  u,
                  record {
                    arrives = act a ctx c p w e by_lock acts r.arrives;
                    ledger =
                        r.ledger
                        ∙ ap (perform_all actions)
                            (o.performed ∙ ap (λ c. perform_call c l) (sym e));
                    in_flight =
                        r.in_flight
                        ∙ ap (λ s. start_all actions (s ++ v.treasury.in_flight))
                            (o.started ∙ ap start_call (sym e));
                    paid = r.paid;
                  },
                )
          ]

      module _ (dao_id lock_admin_id : String) (guardians : List String) (delay_ns : ℕ) where
        -- The system after a request was executed and its batch arrived.
        pub record IsDelivered (s : System) (id : ℕ) (r : Request) (u : System) : Type 0 where
          pub reached :
              Reach decoder lock_id vault_id dao_id lock_admin_id guardians delay_ns vault_admin_id
                u
          pub contract : u.timeline.contract ≡ removed s.timeline.contract id
          pub ledger :
              ledger_of u.vault.treasury.contract
              ≡ perform_all r.actions (ledger_of s.vault.treasury.contract)
          pub in_flight :
              u.vault.treasury.in_flight ≡ start_all r.actions s.vault.treasury.in_flight
          pub paid : u.vault.treasury.paid ≡ s.vault.treasury.paid
          pub receipts : u.receipts ≡ s.receipts

        -- In every deployment that can be reached, a request for the spending account whose time has
        -- come and whose predecessor has left, and whose function calls are all calls of the account
        -- that its ledger permits, one after another, can be executed by anyone with no deposit, and
        -- its batch can arrive and go through. The request has then left the queue, the ledger is
        -- changed and transfers are started exactly as its function calls say, and the rest of the
        -- timelock, what was paid and the other receipts are as they were.
        pub request-IsDelivered :
            (s : System)
            → Reach decoder lock_id vault_id dao_id lock_admin_id guardians delay_ns vault_admin_id
                s
            → (lock_ctx vault_ctx : Context) (id : ℕ) (r : Request)
            → lock_ctx.current_account_id ≡ lock_id
            → lock_ctx.attached_deposit ≡ 0
            → pending s.timeline.contract id ≡ some r
            → r.execute_after ≤ lock_ctx.block_timestamp
            → IsGone (removed s.timeline.contract id) r.predecessor_id
            → r.receiver_id ≡ vault_id
            → vault_ctx.predecessor_account_id ≡ lock_id
            → vault_ctx.current_account_id ≡ vault_id
            → PermitsAll vault_ctx r.actions (ledger_of s.vault.treasury.contract)
            → (u : System) × IsDelivered s id r u
        request-IsDelivered s reach lock_ctx vault_ctx id r at_lock free was due gone receiver
              by_lock here permitted =
            let (w, run, after, dropped) =
              execute_runs lock_ctx s.timeline.contract id r was due gone in
            let sent : (receipts_of (execution_of lock_ctx id r) ++ receipts_of_all w.promises)
                  ++ s.receipts
                ≡ batch_of_request r ∷ s.receipts =
              ap
                (λ l. (receipts_of (execution_of lock_ctx id r) ++ receipts_of_all l) ++ s.receipts)
                dropped
              ∙ ap (λ l. (l ++ []) ++ s.receipts)
                  (receipts_of-promised lock_ctx id r (total_deposit r) r.approve) in
            let (v, ran) =
              batch_runs vault_ctx r.actions s.vault by_lock here
                (Reach-treasury lock_id vault_id vault_admin_id decoder reach) permitted in
            let executed = next reach (
              lock_call lock_ctx (Timelock.Calls.execute id) _ w at_lock (omega (arith, free))
                run) in
            (
              _,
              record {
                reached =
                    next executed
                      (arrival [] s.receipts (batch_of_request r) v sent receiver ran.arrives);
                contract = after;
                ledger = ran.ledger;
                in_flight = ran.in_flight;
                paid = ran.paid;
                receipts = refl;
              },
            )
