-- ===== src/Deployment/Tests.antt =====
-- A deployment at concrete inputs: a request lists a recipient and pays it.
use hos_treasury.Common.{
  ℕ, ◌^◌, ◌≡◌, ◌≢◌, refl, arith, String, Option, none, some, List, [], ◌∷◌, ◌++◌, str_eq,
  str_eq_iff, true, false,
}
use hos_treasury.Near.{Context}
use hos_treasury.Timelock
use hos_treasury.Timelock.Types.{FunctionCall}
use hos_treasury.Timelock.Samples.{sample as lock_sample, program as lock_program}
use hos_treasury.Spending
use hos_treasury.Spending.Types.{WhitelistEntry}
use hos_treasury.Spending.Samples.{sample as vault_sample, program as vault_program, by}
use hos_treasury.Spending.Calls.{Call}
use hos_treasury.Deployment.{
  Decoder, call_of, Vault, System, acted, lock_call, Reach, start, next, receipts_of_reply,
  receipts_of_all,
}
use hos_treasury.Spending.Ledger.Batches.{ledger_of}
use hos_treasury.Deployment.Delivery.{PermitsAll, IsDelivered, request-IsDelivered}

abbrev read_entry : List ℕ → Option (List WhitelistEntry)
read_entry (n ∷ []) = some (record { account_id = "alice.near"; token_id = none; limit = n } ∷ [])
read_entry _ = none

abbrev read_payment : List ℕ → Option (String × ℕ)
read_payment (n ∷ []) = some ("alice.near", n)
read_payment _ = none

abbrev decoder : Decoder
decoder = record {
  set_spender = λ _. none;
  set_manager = λ _. none;
  set_admin = λ _. none;
  add_to_whitelist = read_entry;
  remove_from_whitelist = λ _. none;
  set_limit = λ _. none;
  increase_limit = λ _. none;
  decrease_limit = λ _. none;
  transfer = read_payment;
  transfer_ft = λ _. none;
}

abbrev listing : FunctionCall
listing = record { method_name = "add_to_whitelist"; args = 100 ∷ []; deposit = 0; gas = 10 ^ 12 }

abbrev payment : FunctionCall
payment = record { method_name = "transfer"; args = 60 ∷ []; deposit = 0; gas = 10 ^ 12 }

abbrev entries : List WhitelistEntry
entries = record { account_id = "alice.near"; token_id = none; limit = 100 } ∷ []

-- The system after a call of the timelock.
abbrev lock_ran : System → Context → Timelock.Calls.Call → System
lock_ran s ctx c =
    let o = Timelock.Calls.invoke ctx c (Timelock.Queue.begin s.timeline.contract) in
    let reply = Timelock.Samples.reply_of o in
    let w = Timelock.Samples.world_of o in
    record s {
      timeline = Timelock.Queue.after_call ctx c reply w s.timeline;
      receipts = (receipts_of_reply reply ++ receipts_of_all w.promises) ++ s.receipts;
    }

abbrev s0 : System
s0 = record {
  timeline = Timelock.Queue.opened Timelock.Samples.fresh;
  receipts = [];
  vault = record {
    treasury = Spending.Treasury.opened "admin.near" "timelock.near" "timelock.near";
    acts = [];
  };
}

abbrev s1 : System
s1 =
    lock_ran s0 (Timelock.Samples.at 10 "dao.near" 0)
      (Timelock.Calls.schedule "treasury.near" (listing ∷ payment ∷ []) none)

abbrev s2 : System
s2 = lock_ran s1 (Timelock.Samples.at 110 "anyone.near" 0) (Timelock.Calls.execute 0)

abbrev lock : Context
lock = by "timelock.near"

abbrev v1 : Vault
v1 =
    acted s2.vault lock (Call.add_to_whitelist entries) none
      (Spending.Samples.world_of (
        Spending.Whitelist.add_to_whitelist lock entries
          (Spending.Treasury.begin s2.vault.treasury.contract))).state

abbrev v2 : Vault
v2 =
    acted v1 lock (Call.transfer "alice.near" 60)
      (some (Spending.Transfer.Effects.near_promise lock "alice.near" 60))
      (Spending.Samples.world_of (
        Spending.Transfer.transfer lock "alice.near" 60
          (Spending.Treasury.begin v1.treasury.contract))).state

abbrev s3 : System
s3 = record s2 { receipts = []; vault = v2 }

abbrev Deployed : System → Type 0
Deployed =
    Reach decoder "timelock.near" "treasury.near" "dao.near" "admin.near" ("guardian.near" ∷ []) 100
      "admin.near"

scheduled : Deployed s1
unfolding lock_program
scheduled = next (start Timelock.Samples.fresh refl) (
    lock_call (Timelock.Samples.at 10 "dao.near" 0)
      (Timelock.Calls.schedule "treasury.near" (listing ∷ payment ∷ []) none) _ _ refl (omega arith)
      refl)

other_name : ◌≢◌ {A = String} "alice.near" "treasury.near"
unfolding str_eq
other_name e =
    let same : false ≡ true = (str_eq_iff "alice.near" "treasury.near").1 e in absurd (cc)

permitted : PermitsAll decoder lock (listing ∷ payment ∷ []) (ledger_of s1.vault.treasury.contract)
unfolding vault_program call_of
permitted = (
  ((omega arith, tt), (refl, λ e. absurd (cc), ((other_name, refl), tt), (tt, tt))),
  ((tt, (refl, omega arith, omega arith)), tt),
)

request-IsDelivered_example :
    (u : System) × IsDelivered decoder "timelock.near" "treasury.near" "admin.near" "dao.near"
      "admin.near"
      ("guardian.near" ∷ [])
      100
      s1
      0
      (Timelock.Scheduling.plain
        (Timelock.Samples.at 10 "dao.near" 0)
        "treasury.near"
        (listing ∷ payment ∷ [])
        none
        Timelock.Samples.fresh)
      u
unfolding lock_program
request-IsDelivered_example =
    request-IsDelivered decoder "timelock.near" "treasury.near" "admin.near" "dao.near" "admin.near"
      ("guardian.near" ∷ []) 100 s1 scheduled (Timelock.Samples.at 110 "anyone.near" 0) lock 0
      (Timelock.Scheduling.plain (Timelock.Samples.at 10 "dao.near" 0) "treasury.near"
        (listing ∷ payment ∷ []) none Timelock.Samples.fresh)
      refl refl refl (omega arith) tt refl refl refl permitted
