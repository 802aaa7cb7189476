-- ===== src/Spending/Samples.antt =====
-- Contracts, calls and worlds of the spending account for tests and witnesses.
use hos_treasury.Common.{u128_max, ◌≤◌, str_eq, ℕ, ◌≡◌, arith, String, none, some, List, [], ◌∷◌}
use hos_treasury.Near.{Context, World, Outcome, done, panic, for_each, IterableMap}
use hos_treasury.Near.Assoc.{assoc_map}
use hos_treasury.Near.Sample.{sample_json, sample_units}
use hos_treasury.Spending.Types.{
  WhitelistKey, WhitelistEntry, WhitelistEntryKey, LimitChange, Callback, Sdk,
}
use hos_treasury.Spending.Contract.{Contract, new, assert_manager}
use hos_treasury.Spending.Keys.{key_dec, limit_of}
use hos_treasury.Spending.Events
use hos_treasury.Spending.Whitelist.{
  add_entry, add_to_whitelist, set_entry, set_limit, remove_entry, remove_from_whitelist,
  increase_entry, increase_limit, decrease_entry, decrease_limit, get_num_whitelisted,
  get_whitelist_entry, get_whitelist_entries,
}
use hos_treasury.Spending.Transfer.{transfer, transfer_ft, on_transfer, on_transfer_ft}
use hos_treasury.Spending.Calls.{invoke, resume}
use hos_treasury.Spending.Treasury.{begin}

instance abbrev pub sample : Sdk
sample = record { json = sample_json; units = sample_units; whitelist_map = assoc_map key_dec }

abbrev pub by : String → Context
by caller = record {
  predecessor_account_id = caller;
  current_account_id = "treasury.near";
  block_timestamp = 0;
  attached_deposit = 0;
}

unfoldable pub program : Unit {0}
unfolding new assert_manager add_entry add_to_whitelist set_entry set_limit remove_entry
    remove_from_whitelist increase_entry increase_limit decrease_entry decrease_limit transfer
    transfer_ft on_transfer on_transfer_ft invoke resume for_each key_dec Events.transfer
    Events.ft_transfer Events.transfer_failed Events.ft_transfer_failed get_num_whitelisted
    get_whitelist_entry get_whitelist_entries str_eq
program = tt

abbrev pub fresh : Contract
fresh = record {
  spender_id = "spender.near";
  manager_id = "manager.near";
  admin_id = "admin.near";
  whitelist = IterableMap.new (assoc_map key_dec);
}

abbrev pub alice : WhitelistKey
alice = ("alice.near", none)

abbrev pub alice_token : WhitelistKey
alice_token = ("alice.near", some "token.near")

abbrev pub entries : List WhitelistEntry
entries =
    record { account_id = "alice.near"; token_id = none; limit = 100 }
    ∷ record { account_id = "alice.near"; token_id = some "token.near"; limit = 7 }
    ∷ []

abbrev pub keys : List WhitelistEntryKey
keys = record { account_id = "alice.near"; token_id = none } ∷ []

abbrev pub changes : List LimitChange
changes =
    record { account_id = "alice.near"; token_id = none; amount = 5 }
    ∷ record { account_id = "alice.near"; token_id = none; amount = 6 }
    ∷ []

abbrev pub manager_call : Context
manager_call = by "manager.near"

abbrev pub spender_call : Context
spender_call = by "spender.near"

-- The world that a call ends in, for a call that does not panic.
abbrev pub world_of : {A : Type 0} → Outcome (A × World Contract Callback) → World Contract Callback
world_of (done r) = r.1
world_of (panic e) = begin fresh

abbrev pub listed : World Contract Callback
listed = world_of (add_to_whitelist manager_call entries (begin fresh))

abbrev pub near_paid : World Contract Callback
near_paid = world_of (transfer spender_call "alice.near" 60 listed)

abbrev pub token_paid : World Contract Callback
token_paid = world_of (transfer_ft spender_call "alice.near" "token.near" 7 listed)

pub small :
    (key : WhitelistKey) (limit : ℕ) → limit_of listed.state key ≡ some limit → limit ≤ u128_max
unfolding program
small key limit h = ground arith
