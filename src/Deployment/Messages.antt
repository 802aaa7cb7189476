-- ===== src/Deployment/Messages.antt =====
-- What the two contracts say to each other: the receipts that a promise of the timelock ends in, and
-- the call of the spending account that a function call makes.
use mathlib.Core.Option
use hos_treasury.Common.{ℕ, String, Option, none, List, [], ◌∷◌, ◌++◌, str_eq, ◌==◌, if◌then◌else◌}
use hos_treasury.Near.{Promise}
use hos_treasury.Timelock
use hos_treasury.Timelock.Types.{FunctionCall}
use hos_treasury.Spending.Types.{WhitelistEntry, WhitelistEntryKey, LimitChange}
use hos_treasury.Spending.Calls.{Call}

-- How the SDK decodes the arguments of the spending account's methods.
pub record Decoder : Type 0 where
  pub set_spender : List ℕ → Option String
  pub set_manager : List ℕ → Option String
  pub set_admin : List ℕ → Option String
  pub add_to_whitelist : List ℕ → Option (List WhitelistEntry)
  pub remove_from_whitelist : List ℕ → Option (List WhitelistEntryKey)
  pub set_limit : List ℕ → Option (List WhitelistEntry)
  pub increase_limit : List ℕ → Option (List LimitChange)
  pub decrease_limit : List ℕ → Option (List LimitChange)
  pub transfer : List ℕ → Option (String × ℕ)
  pub transfer_ft : List ℕ → Option (String × String × ℕ)

-- The call that a function call of a batch makes of the spending account. None of its methods takes
-- a deposit.
unfoldable pub call_of : Decoder → FunctionCall → Option Call
call_of decoder action =
    if action.deposit == 0
    then (let method = action.method_name in
        let args = action.args in
        if str_eq method "set_spender"
        then Option.map Call.set_spender (decoder.set_spender args)
        else if str_eq method "set_manager"
        then Option.map Call.set_manager (decoder.set_manager args)
        else if str_eq method "set_admin"
        then Option.map Call.set_admin (decoder.set_admin args)
        else if str_eq method "add_to_whitelist"
        then Option.map Call.add_to_whitelist (decoder.add_to_whitelist args)
        else if str_eq method "remove_from_whitelist"
        then Option.map Call.remove_from_whitelist (decoder.remove_from_whitelist args)
        else if str_eq method "set_limit"
        then Option.map Call.set_limit (decoder.set_limit args)
        else if str_eq method "increase_limit"
        then Option.map Call.increase_limit (decoder.increase_limit args)
        else if str_eq method "decrease_limit"
        then Option.map Call.decrease_limit (decoder.decrease_limit args)
        else if str_eq method "transfer"
        then Option.map (λ (receiver_id, amount). Call.transfer receiver_id amount)
            (decoder.transfer args)
        else if str_eq method "transfer_ft"
        then Option.map
            (λ (receiver_id, token_id, amount). Call.transfer_ft receiver_id token_id amount)
            (decoder.transfer_ft args)
        else none)
    else none

-- The methods of the spending account that read its state and leave it alone.
abbrev pub views : List String
views =
    "get_spender" ∷ "get_manager" ∷ "get_admin" ∷ "get_num_whitelisted" ∷ "get_whitelist_entry"
    ∷ "get_whitelist_entries" ∷ []

-- The function calls that one receipt makes of its receiver, in their order.
pub record Batch : Type 0 where
  pub receiver_id : String
  pub actions : List FunctionCall

abbrev pub and_action : Batch → FunctionCall → Batch
and_action b action = record b { actions = b.actions ++ action ∷ [] }

-- The receipt of a promise that is built on one account.
abbrev pub batch_of : {C : Type 0} → Promise C → Batch
batch_of (Promise.new account) = record { receiver_id = account; actions = [] }
batch_of (Promise.function_call p name args deposit gas) =
    and_action (batch_of p)
      (record { method_name = name; args = args; deposit = deposit; gas = gas })
batch_of (Promise.function_call_weight p name args deposit gas weight) =
    and_action (batch_of p)
      (record { method_name = name; args = args; deposit = deposit; gas = gas })
batch_of (Promise.transfer p amount) = batch_of p
batch_of (Promise.and_then p q) = batch_of p
batch_of (Promise.ext account gas callback) = record { receiver_id = account; actions = [] }

-- The receipts for other accounts that a promise ends in; a callback on the own account is no such.
abbrev pub receipts_of : {C : Type 0} → Promise C → List Batch
receipts_of (Promise.and_then p q) = receipts_of p ++ receipts_of q
receipts_of (Promise.ext account gas callback) = []
receipts_of (Promise.new account) = batch_of {C = Unit {0}} (Promise.new account) ∷ []
receipts_of (Promise.function_call p name args deposit gas) =
    batch_of (Promise.function_call p name args deposit gas) ∷ []
receipts_of (Promise.function_call_weight p name args deposit gas weight) =
    batch_of (Promise.function_call_weight p name args deposit gas weight) ∷ []
receipts_of (Promise.transfer p amount) = batch_of p ∷ []

abbrev pub receipts_of_all : {C : Type 0} → List (Promise C) → List Batch
receipts_of_all [] = []
receipts_of_all (p ∷ ps) = receipts_of p ++ receipts_of_all ps

abbrev pub receipts_of_reply : Timelock.Calls.Reply → List Batch
receipts_of_reply (Timelock.Calls.promise p) = receipts_of p
receipts_of_reply Timelock.Calls.nothing = []
receipts_of_reply (Timelock.Calls.request_id id) = []
