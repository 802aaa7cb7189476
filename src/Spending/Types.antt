-- ===== src/Spending/Types.antt =====
-- The data of spending-account/src/lib.rs, and what the contract takes from the SDK.
use hos_treasury.Common.{ℕ, String, Option}
use hos_treasury.Near.{SerdeJson, Units, IterableMap}

-- A recipient and a token contract, where no token means NEAR.
abbrev pub WhitelistKey : Type 0
WhitelistKey = String × Option String

pub record WhitelistEntry : Type 0 where
  pub account_id : String
  pub token_id : Option String
  pub limit : ℕ

pub record WhitelistEntryKey : Type 0 where
  pub account_id : String
  pub token_id : Option String

pub record LimitChange : Type 0 where
  pub account_id : String
  pub token_id : Option String
  pub amount : ℕ

-- The calls that the contract makes to itself, with their arguments.
pub data Callback : Type 0 where
  on_transfer : String → ℕ → Callback
  on_transfer_ft : String → String → ℕ → Callback

pub record Sdk : Type 1 where
  pub json : SerdeJson
  pub units : Units
  pub whitelist_map : IterableMap WhitelistKey ℕ
