-- ===== src/Spending/UnitTests.antt =====
-- The unit tests of spending-account/src: what they set up. Each test is a run of the contract and
-- the outcome that it expects.
mod Transfers
mod TokenTransfers
mod Roles
mod Entries
mod Limits
use mathlib.Core.Option
use hos_treasury.Common.{ℕ, ◌*◌, ◌^◌, String, Option, none, some, List, [], ◌∷◌}
use hos_treasury.Near.{Context, Outcome, done, panic, ◌>>=◌, ◌>>◌, return, get_self}
use hos_treasury.Spending.Types.{WhitelistEntry, WhitelistEntryKey, LimitChange}
use hos_treasury.Spending.Contract.{Contract, Method, new}
use hos_treasury.Spending.Whitelist.{add_to_whitelist, get_whitelist_entry}
use hos_treasury.Spending.Treasury.{begin}
use hos_treasury.Spending.Samples.{sample}

abbrev pub yocto : ℕ → ℕ
yocto near = near * 10 ^ 24

abbrev pub admin : String
admin = "admin-timelock.near"

abbrev pub manager : String
manager = "manager-timelock.near"

abbrev pub spender : String
spender = "spender-timelock.near"

abbrev pub treasury : String
treasury = "treasury.near"

abbrev pub alice : String
alice = "alice.near"

abbrev pub token : String
token = "token.near"

abbrev pub other_token : String
other_token = "other-token.near"

abbrev pub context : String → Context
context predecessor = record {
  predecessor_account_id = predecessor;
  current_account_id = treasury;
  block_timestamp = 0;
  attached_deposit = 0;
}

abbrev pub new_contract : Contract
new_contract = new admin manager spender

-- A test that runs on the new contract.
abbrev pub on_new : {A : Type 0} → Method A → Outcome A
on_new m = elim (m (begin new_contract)) [ done r ↦ done r.0 | panic e ↦ panic e ]

abbrev pub entries : String → Option String → ℕ → List WhitelistEntry
entries account_id token_id limit =
    record { account_id = account_id; token_id = token_id; limit = limit } ∷ []

abbrev pub keys : String → Option String → List WhitelistEntryKey
keys account_id token_id = record { account_id = account_id; token_id = token_id } ∷ []

abbrev pub changes : String → Option String → ℕ → List LimitChange
changes account_id token_id amount =
    record { account_id = account_id; token_id = token_id; amount = amount } ∷ []

abbrev pub contract_with_alice : {A : Type 0} → Option String → ℕ → Method A → Outcome A
contract_with_alice token_id limit m =
    on_new (do add_to_whitelist (context manager) (entries alice token_id limit); m)

abbrev pub ft_limit : ℕ
ft_limit = 100

abbrev pub near_contract_with_alice : {A : Type 0} → ℕ → Method A → Outcome A
near_contract_with_alice limit = contract_with_alice none (yocto limit)

abbrev pub ft_contract_with_alice : {A : Type 0} → ℕ → Method A → Outcome A
ft_contract_with_alice = contract_with_alice (some token)

-- The limit of a listed entry.
abbrev pub remaining : Option String → Method (Option ℕ)
remaining token_id = do
  self ← get_self
  return (Option.map (λ entry. entry.limit) (get_whitelist_entry self alice token_id))

abbrev pub near_remaining : Method (Option ℕ)
near_remaining = remaining none

abbrev pub ft_remaining : Method (Option ℕ)
ft_remaining = remaining (some token)
