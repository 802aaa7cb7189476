-- ===== src/Deployment/Receipts.antt =====
-- What the timelock sends to other accounts: the batches of executed requests, votes and refunds.
use mathlib.Core.List.{append-nil, append_assoc}
use hos_treasury.Common.{
  ℕ, ◌≡◌, refl, arith, ap, sym, ◌∙◌, String, Option, Option-cases, none, some, List, [], ◌∷◌, ◌++◌,
  All, ◌⊎◌, inl, inr, ◌==◌, Bool-cases, if◌then◌else◌, str_eq, true,
}
use hos_treasury.Near.{Context, Promise, CallResult, ok, err, done}
use hos_treasury.Timelock.Types.{FunctionCall, ProposalApproval, Request, Callback, Sdk}
use hos_treasury.Timelock.Requests.{total_deposit}
use hos_treasury.Timelock.Contract.{Contract}
use hos_treasury.Timelock.Events
use hos_treasury.Timelock.Execute
use hos_treasury.Timelock.Admin.{set_dao, set_admin, set_guardians, set_delay}
use hos_treasury.Timelock.Execute.{batch, execution}
use hos_treasury.Timelock.Scheduling.{W, pending, schedule_iff, schedule_proposal_iff}
use hos_treasury.Timelock.Leaving.{calls_on, promised, execution_of, execute_iff, cancel_iff}
use hos_treasury.Timelock.Calls.{
  Call, Reply, nothing, request_id, promise, optional_promise, invoke,
}
use hos_treasury.Timelock.Calls.Authority.{then_reply, by_itself, callback_state, is_setter}
use hos_treasury.Timelock.Queue.{begin}
use hos_treasury.Deployment.{
  Decoder, call_of, Batch, batch_of, receipts_of, receipts_of_reply, receipts_of_all,
}

batch_of-calls_on :
    (actions : List FunctionCall) (p : Promise Callback)
    → batch_of (calls_on p actions)
      ≡ record (batch_of p) { actions = (batch_of p).actions ++ actions }
batch_of-calls_on [] p =
    ap (λ l. record (batch_of p) { actions = l }) (sym (append-nil (batch_of p).actions))
batch_of-calls_on (a ∷ actions) p =
    batch_of-calls_on actions (Promise.function_call p a.method_name a.args a.deposit a.gas)
    ∙ ap (λ l. record (batch_of p) { actions = l })
        (append_assoc (batch_of p).actions (a ∷ []) actions)

receipts_of-calls_on :
    (actions : List FunctionCall) (p : Promise Callback)
    → receipts_of p ≡ batch_of p ∷ []
    → receipts_of (calls_on p actions) ≡ batch_of (calls_on p actions) ∷ []
receipts_of-calls_on [] p h = h
receipts_of-calls_on (a ∷ actions) p h =
    receipts_of-calls_on actions (Promise.function_call p a.method_name a.args a.deposit a.gas) refl

-- The batch of a request.
abbrev pub batch_of_request : Request → Batch
batch_of_request r = record { receiver_id = r.receiver_id; actions = r.actions }

-- Nothing in the receipt is a call that changes the spending account.
abbrev pub IsHarmless : Decoder → Batch → Type 0
IsHarmless decoder b = All (λ action. call_of decoder action ≡ none) b.actions

module _ ⦃sdk : Sdk⦄ where
  open sdk use {json}

  receipts_of_request :
      (r : Request)
      → receipts_of (calls_on (Promise.new r.receiver_id) r.actions) ≡ batch_of_request r ∷ []
  receipts_of_request r =
      receipts_of-calls_on r.actions (Promise.new r.receiver_id) refl
      ∙ ap (λ b. b ∷ []) (batch_of-calls_on r.actions (Promise.new r.receiver_id))

  -- An executed request sends its batch, and nothing else to another account.
  pub receipts_of-promised :
      (ctx : Context) (id : ℕ) (r : Request) (bond : ℕ) (approve : Option ProposalApproval)
      → receipts_of (promised ctx id r bond approve) ≡ batch_of_request r ∷ []
  receipts_of-promised ctx id r bond none = receipts_of_request r
  receipts_of-promised ctx id r bond (some approval) = ap (λ l. l ++ []) (receipts_of_request r)

  module _ (decoder : Decoder) where
    -- What the receipts of a call are: the batch of the request that it executes, or nothing that
    -- concerns the spending account.
    pub data Source (self : Contract) (c : Call) (bs : List Batch) : Type 0 where
      harmless : All (IsHarmless decoder) bs → Source self c bs
      executed :
          (id : ℕ) (r : Request)
          → c ≡ Call.execute id
          → pending self id ≡ some r
          → bs ≡ batch_of_request r ∷ []
          → Source self c bs

    -- The SDK knows no method `act_proposal` of the spending account.
    vote-IsHarmless :
        (dao_id : String) (args : List ℕ) (gas : ℕ)
        → IsHarmless decoder (
            batch_of {C = Callback}
              (Promise.function_call (Promise.new dao_id) "act_proposal" args 0 gas))
    unfolding call_of str_eq
    vote-IsHarmless dao_id args gas = (refl, tt)

    abbrev Sent : Contract → Call → Reply → List (Promise Callback) → Type 0
    Sent self c reply dropped = Source self c (receipts_of_reply reply ++ receipts_of_all dropped)

    nothing-Sent :
        (self : Contract) (c : Call) (reply : Reply) (dropped : List (Promise Callback))
        → receipts_of_reply reply ≡ []
        → dropped ≡ []
        → Sent self c reply dropped
    nothing-Sent self c reply dropped e f = rw (e, f) (harmless tt)

    vote_of :
        (w w' : W) (p : Option (Promise Callback)) (id : ℕ) (dao funder : String) (bond : ℕ)
        (kind : String) (gas n : ℕ)
        → Execute.on_proposal_added id dao funder bond kind gas (ok n) w ≡ done (p, w')
        → (args : List ℕ) × (p
            ≡ some (Promise.function_call (Promise.new dao) "act_proposal" args 0 gas))
    unfolding Execute.on_proposal_added Events.approve_proposal
    vote_of w w' p id dao funder bond kind gas n h = elim (Option-cases (json.from_str kind)) [
      | inl e ↦ absurd (ground arith)
      | inr (v, e) ↦ elim (Option-cases (json.to_vec (Execute.vote_args n v))) [
        | inl f ↦ absurd (ground arith)
        | inr (args, f) ↦ (args, ground arith)
      ]
    ]

    refund_of :
        (w w' : W) (p : Option (Promise Callback)) (id : ℕ) (dao funder : String) (bond : ℕ)
        (kind : String) (gas : ℕ) (reason : String)
        → Execute.on_proposal_added id dao funder bond kind gas (err reason) w ≡ done (p, w')
        → (p ≡ none) ⊎ (p ≡ some (Promise.transfer (Promise.new funder) bond))
    unfolding Execute.on_proposal_added Events.proposal_failed
    refund_of w w' p id dao funder bond kind gas reason h = elim (Bool-cases (bond == 0)) [
      | inl zero_bond ↦ inl (ground arith)
      | inr more ↦ inr (ground arith)
    ]

    callback_sends :
        (w w' : W) (p : Option (Promise Callback)) (id : ℕ) (dao funder : String) (bond : ℕ)
        (kind : String) (gas : ℕ) (result : CallResult ℕ)
        → Execute.on_proposal_added id dao funder bond kind gas result w ≡ done (p, w')
        → All (IsHarmless decoder) (receipts_of_reply (optional_promise p))
    callback_sends w w' p id dao funder bond kind gas (ok n) h =
        let (args, e) = vote_of w w' p id dao funder bond kind gas n h in
        rw e (vote-IsHarmless dao args gas, tt)
    callback_sends w w' p id dao funder bond kind gas (err e) h =
        elim (refund_of w w' p id dao funder bond kind gas e h) [
          | inl e ↦ rw e tt
          | inr e ↦ rw e (tt, tt)
        ]

    -- A setter sends nothing.
    setter_promises :
        (ctx : Context) (c : Call) (w w' : W) (reply : Reply)
        → is_setter c ≡ true
        → invoke ctx c w ≡ done (reply, w')
        → (reply ≡ nothing) × (w'.promises ≡ w.promises)
    unfolding invoke set_dao set_admin set_guardians set_delay
    setter_promises ctx (Call.set_dao a) w w' reply s h = ground arith
    setter_promises ctx (Call.set_admin a) w w' reply s h = ground arith
    setter_promises ctx (Call.set_guardians gs) w w' reply s h = ground arith
    setter_promises ctx (Call.set_delay d) w w' reply s h = ground arith
    setter_promises ctx c w w' reply s h = absurd (cc)

    by_setter :
        (ctx : Context) (c : Call) (self : Contract) (w : W) (reply : Reply)
        → is_setter c ≡ true
        → invoke ctx c (begin self) ≡ done (reply, w)
        → Sent self c reply w.promises
    by_setter ctx c self w reply s h =
        let (e, f) = setter_promises ctx c (begin self) w reply s h in
        nothing-Sent self c reply w.promises (ap receipts_of_reply e) f

    refund-IsHarmless :
        (funder : String) (n : ℕ)
        → All (IsHarmless decoder) (
            receipts_of_all {C = Callback}
              (if n == 0 then [] else Promise.transfer (Promise.new funder) n ∷ []))
    refund-IsHarmless funder n = elim (Bool-cases (n == 0)) [
      | inl e ↦ rw e tt
      | inr e ↦ rw e (tt, tt)
    ]

    -- A call sends the batch of the request that it executes, or nothing that concerns the spending
    -- account.
    pub sources :
        (ctx : Context) (c : Call) (self : Contract) (w : W) (reply : Reply)
        → invoke ctx c (begin self) ≡ done (reply, w)
        → Sent self c reply w.promises
    unfolding invoke
    sources ctx (Call.schedule r actions p) self w reply h =
        let (id, ran, e) = then_reply request_id _ h in
        let (_, _, _, _, ew) = (schedule_iff ctx r actions p (begin self) w id).0 ran in
        nothing-Sent self _ reply w.promises (ap receipts_of_reply e) (ap (λ v. v.promises) ew)
    sources ctx (Call.schedule_proposal d k dao b g v p) self w reply h =
        let (id, ran, e) = then_reply request_id _ h in
        let (_, _, _, ew) = (schedule_proposal_iff ctx d k dao b g v p (begin self) w id).0 ran in
        nothing-Sent self _ reply w.promises (ap receipts_of_reply e) (ap (λ v. v.promises) ew)
    sources ctx (Call.execute id) self w reply h =
        let (p, ran, e) = then_reply promise _ h in
        let (r, facts) = (execute_iff ctx id (begin self) w p).0 ran in
        let (was, _, _, ep, ew) = facts in
        let sent : receipts_of_reply reply ++ receipts_of_all w.promises ≡ batch_of_request r ∷ [] =
          ap (λ o. receipts_of_reply o ++ receipts_of_all w.promises) (e ∙ ap promise ep)
          ∙ ap (λ v. receipts_of (execution_of ctx id r) ++ receipts_of_all v.promises) ew
          ∙ append-nil _
          ∙ receipts_of-promised ctx id r (total_deposit r) r.approve in
        rw sent (executed id r refl was refl)
    sources ctx (Call.cancel id) self w reply h =
        let (_, ran, e) = then_reply (λ _. nothing) _ h in
        let (r, facts) = (cancel_iff ctx id (begin self) w).0 ran in
        let (_, _, ew) = facts in
        let sent : receipts_of_reply reply ++ receipts_of_all w.promises
            ≡ receipts_of_all {C = Callback} (
                if total_deposit r == 0
                then []
                else Promise.transfer (Promise.new r.funder_id) (total_deposit r) ∷ []) =
          ap (λ o. receipts_of_reply o ++ receipts_of_all w.promises) e
          ∙ ap (λ v. receipts_of_all v.promises) ew in
        rw sent (harmless (refund-IsHarmless r.funder_id (total_deposit r)))
    sources ctx (Call.on_proposal_added id dao f b k g result) self w reply h =
        let (_, (p, ran, e)) = by_itself ctx (begin self) w id dao f b k g result reply h in
        let kept = (callback_state (begin self) w p id dao f b k g result ran).1 in
        let sent : receipts_of_reply reply ++ receipts_of_all w.promises
            ≡ receipts_of_reply (optional_promise p) =
          ap (λ o. receipts_of_reply o ++ receipts_of_all w.promises) e
          ∙ ap (λ l. receipts_of_reply (optional_promise p) ++ receipts_of_all l) kept
          ∙ append-nil _ in
        rw sent (harmless (callback_sends (begin self) w p id dao f b k g result ran))
    sources ctx (Call.set_dao a) self w reply h = by_setter ctx (Call.set_dao a) self w reply refl h
    sources ctx (Call.set_admin a) self w reply h =
        by_setter ctx (Call.set_admin a) self w reply refl h
    sources ctx (Call.set_guardians gs) self w reply h =
        by_setter ctx (Call.set_guardians gs) self w reply refl h
    sources ctx (Call.set_delay d) self w reply h =
        by_setter ctx (Call.set_delay d) self w reply refl h
