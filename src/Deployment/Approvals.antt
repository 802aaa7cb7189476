-- ===== src/Deployment/Approvals.antt =====
-- Where the calls of the spending account come from: from requests that the timelock executed.
use mathlib.Core.List.{Memᴰ}
use hos_treasury.Common.{
  ◌≡◌, ◌≢◌, refl, ap, sym, subst, ◌∙◌, String, Option, none, some, List, ◌∷◌, ◌++◌, ◌⊎◌, inl, inr,
  true, All, All-append, All-middle, All-mem, All-imp,
}
use hos_treasury.Near.{Context, Promise}
use hos_treasury.Timelock
use hos_treasury.Timelock.Types.{FunctionCall, Request}
use hos_treasury.Timelock.Queue.{Departure, note_departure}
use hos_treasury.Spending
use hos_treasury.Spending.Calls.{Call, Role, admin, manager, spender, role, holder}
use hos_treasury.Spending.Calls.Authority.{roles, invoke-Confined}
use hos_treasury.Deployment.{Decoder, call_of, Batch, Act, Vault, acted, Acts, Arrives}
use hos_treasury.Deployment.Receipts.{batch_of_request, IsHarmless, Source, harmless, executed}
use hos_treasury.Deployment.Histories.{arrives_keeps}

-- The receipt is the batch of a request that was executed.
abbrev pub IsExecuted : List Departure → Batch → Type 0
IsExecuted departures b =
    (d : Departure) × (r : Request) × Memᴰ d departures
    × (d.executed ≡ true)
    × (d.request ≡ some r)
    × (b ≡ batch_of_request r)

-- No call of the admin went through.
abbrev pub NoAdmin : List Act → Type 0
NoAdmin = All (λ a. role a.call ≢ admin)

module _ (decoder : Decoder) (vault_id : String) where
  -- The call is a function call of a request for the spending account that the timelock executed.
  pub record Approval (departures : List Departure) (c : Call) : Type 0 where
    pub departure : Departure
    pub request : Request
    pub action : FunctionCall
    pub left : Memᴰ departure departures
    pub was_executed : departure.executed ≡ true
    pub same : departure.request ≡ some request
    pub receiver : request.receiver_id ≡ vault_id
    pub listed : Memᴰ action request.actions
    pub decoded : call_of decoder action ≡ some c

  abbrev pub IsBacked : List Departure → Batch → Type 0
  IsBacked departures b = IsHarmless decoder b ⊎ IsExecuted departures b

  -- What is true of the departures is true when there are more.
  abbrev Grows : List Departure → List Departure → Type 0
  Grows old new = (d : Departure) → Memᴰ d old → Memᴰ d new

  Approval-Grows :
      (old new : List Departure) (c : Call) → Grows old new → Approval old c → Approval new c
  Approval-Grows old new c f a = record {
    departure = a.departure;
    request = a.request;
    action = a.action;
    left = f a.departure a.left;
    was_executed = a.was_executed;
    same = a.same;
    receiver = a.receiver;
    listed = a.listed;
    decoded = a.decoded;
  }

  IsBacked-Grows :
      (old new : List Departure) (b : Batch) → Grows old new → IsBacked old b → IsBacked new b
  IsBacked-Grows old new b f (inl h) = inl h
  IsBacked-Grows old new b f (inr (d, r, m, run, same, e)) = inr (d, r, f d m, run, same, e)

  -- The receipt backs each call that it makes of the spending account.
  receipt-Approval :
      (departures : List Departure) (b : Batch) (action : FunctionCall) (c : Call)
      → b.receiver_id ≡ vault_id
      → IsBacked departures b
      → Memᴰ action b.actions
      → call_of decoder action ≡ some c
      → Approval departures c
  receipt-Approval departures b action c here (inl h) m e =
      let none_here = All-mem (λ action. call_of decoder action ≡ none) b.actions action h m in
      absurd (cc)
  receipt-Approval departures b action c here (inr (d, r, m, run, same, e)) listed decoded =
      record {
        departure = d;
        request = r;
        action = action;
        left = m;
        was_executed = run;
        same = same;
        receiver = ap (λ b. b.receiver_id) (sym e) ∙ here;
        listed = subst (λ b. Memᴰ action b.actions) e listed;
        decoded = decoded;
      }

  module _ ⦃lock_sdk : Timelock.Types.Sdk⦄ where
    -- The receipts of a call are backed by the departures after it.
    sent-IsBacked :
        (ctx : Context) (c : Timelock.Calls.Call) (self : Timelock.Contract.Contract)
        (bs : List Batch) (old : List Departure)
        → Source decoder self c bs
        → All (IsBacked (note_departure ctx c self old)) bs
    sent-IsBacked ctx c self bs old (harmless h) =
        All-imp (IsHarmless decoder) (IsBacked (note_departure ctx c self old)) (λ b. inl) bs h
    sent-IsBacked ctx c self bs old (executed id r call was e) =
        rw (call, e) (inr (_, r, Memᴰ.head refl, refl, was, refl), tt)

    note_departure-Grows :
        (ctx : Context) (c : Timelock.Calls.Call) (self : Timelock.Contract.Contract)
        (old : List Departure)
        → Grows old (note_departure ctx c self old)
    note_departure-Grows ctx (Timelock.Calls.execute id) self old = λ d. Memᴰ.tail
    note_departure-Grows ctx (Timelock.Calls.cancel id) self old = λ d. Memᴰ.tail
    note_departure-Grows ctx (Timelock.Calls.schedule r actions p) self old = λ d m. m
    note_departure-Grows ctx (Timelock.Calls.schedule_proposal d k dao b g v p) self old = λ d m. m
    note_departure-Grows ctx (Timelock.Calls.on_proposal_added id dao f b k g result) self old =
        λ d m. m
    note_departure-Grows ctx (Timelock.Calls.set_dao a) self old = λ d m. m
    note_departure-Grows ctx (Timelock.Calls.set_admin a) self old = λ d m. m
    note_departure-Grows ctx (Timelock.Calls.set_guardians gs) self old = λ d m. m
    note_departure-Grows ctx (Timelock.Calls.set_delay n) self old = λ d m. m

    module _ ⦃vault_sdk : Spending.Types.Sdk⦄ (lock_id vault_admin_id : String) where
      -- All that the timelock did to the spending account, and may still do, was approved; and unless
      -- the admin acted, nobody else did anything.
      pub record IsApproved (departures : List Departure) (receipts : List Batch) (v : Vault)
          : Type 0 where
        pub receipts_backed : All (IsBacked departures) receipts
        pub acts_approved : All (λ a. a.caller ≡ lock_id → Approval departures a.call) v.acts
        pub roles_kept :
            NoAdmin v.acts → roles v.treasury.contract ≡ (lock_id, lock_id, vault_admin_id)
        pub only_lock : NoAdmin v.acts → All (λ a. a.caller ≡ lock_id) v.acts

      -- The timelock holds every role but the admin's.
      pub holder-lock :
          (r : Role) (self : Spending.Contract.Contract)
          → r ≢ admin
          → roles self ≡ (lock_id, lock_id, vault_admin_id)
          → holder r self ≡ lock_id
      holder-lock admin self h e = absurd (h refl)
      holder-lock manager self h e = ap (λ r. r.1) e
      holder-lock spender self h e = ap (λ r. r.0) e

      pub acted-IsApproved :
          (departures : List Departure) (receipts : List Batch) (v : Vault) (ctx : Context)
          (c : Call) (p : Option (Promise Spending.Types.Callback))
          (w : Spending.Whitelist.Rounds.W) (vault : String)
          → Acts decoder lock_id vault v ctx c p w
          → (ctx.predecessor_account_id ≡ lock_id → Approval departures c)
          → IsApproved departures receipts v
          → IsApproved departures receipts (acted v ctx c p w.state)
      acted-IsApproved departures receipts v ctx c p w vault a f o =
          let (by_holder, confined) = invoke-Confined ctx c _ w p a.ran in
          record {
            receipts_backed = o.receipts_backed;
            acts_approved = (f, o.acts_approved);
            roles_kept = λ (n, rest). confined.roles_kept n ∙ o.roles_kept rest;
            only_lock = λ (n, rest). (
              by_holder ∙ holder-lock (role c) v.treasury.contract n (o.roles_kept rest),
              o.only_lock rest,
            );
          }

      -- A call of the timelock.
      pub call-IsApproved :
          (ctx : Context) (c : Timelock.Calls.Call) (self : Timelock.Contract.Contract)
          (bs : List Batch) (departures : List Departure) (receipts : List Batch) (v : Vault)
          → Source decoder self c bs
          → IsApproved departures receipts v
          → IsApproved (note_departure ctx c self departures) (bs ++ receipts) v
      call-IsApproved ctx c self bs departures receipts v sent o =
          let new = note_departure ctx c self departures in
          let grows = note_departure-Grows ctx c self departures in
          record {
            receipts_backed =
                All-append (IsBacked new) bs receipts (sent-IsBacked ctx c self bs departures sent)
                  (All-imp (IsBacked departures) (IsBacked new)
                    (λ b. IsBacked-Grows departures new b grows) receipts o.receipts_backed);
            acts_approved =
                All-imp (λ a. a.caller ≡ lock_id → Approval departures a.call)
                  (λ a. a.caller ≡ lock_id → Approval new a.call)
                  (λ a f e. Approval-Grows departures new a.call grows (f e)) v.acts
                  o.acts_approved;
            roles_kept = o.roles_kept;
            only_lock = o.only_lock;
          }

      -- A receipt is no longer under way.
      pub gone-IsApproved :
          (departures : List Departure) (receipts before after : List Batch) (b : Batch) (v : Vault)
          → receipts ≡ before ++ b ∷ after
          → IsApproved departures receipts v
          → IsBacked departures b × IsApproved departures (before ++ after) v
      gone-IsApproved departures receipts before after b v e o =
          let (backed, rest) =
            All-middle (IsBacked departures) before b after
              (subst (All (IsBacked departures)) e o.receipts_backed) in
          (
            backed,
            record {
              receipts_backed = rest;
              acts_approved = o.acts_approved;
              roles_kept = o.roles_kept;
              only_lock = o.only_lock;
            },
          )

      -- A receipt arrives.
      pub arrival-IsApproved :
          (departures : List Departure) (receipts before after : List Batch) (b : Batch)
          (v u : Vault)
          → receipts ≡ before ++ b ∷ after
          → b.receiver_id ≡ vault_id
          → Arrives decoder lock_id vault_id b.actions v u
          → IsApproved departures receipts v
          → IsApproved departures (before ++ after) u
      arrival-IsApproved departures receipts before after b v u e here arrives o =
          let (backed, rest) = gone-IsApproved departures receipts before after b v e o in
          arrives_keeps lock_id vault_id vault_admin_id decoder
            (IsApproved departures (before ++ after))
            (λ action v ctx c p w m decoded by_lock a.
              acted-IsApproved departures (before ++ after) v ctx c p w vault_id a
                (λ _. receipt-Approval departures b action c here backed m decoded))
            arrives rest
