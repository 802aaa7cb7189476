-- ===== src/Spending/Transfer.antt =====
-- The transfers and their callbacks, spending-account/src/transfer.rs.
pub mod Effects
pub mod Rollback
use hos_treasury.Common.{
  ℕ, String, not, none, some, [], ◌∷◌, str_eq, leb, ltb, ◌==◌, u128_max, saturating_sub,
  saturating_add,
}
use hos_treasury.Near.{
  Context, Promise, CallResult, ok, err, ◌>>=◌, ◌>>◌, return, get_self, put_self, require, expect,
}
use hos_treasury.Spending.Types.{
  WhitelistKey, Callback, on_transfer as on_transfer_call, on_transfer_ft as on_transfer_ft_call,
  Sdk,
}
use hos_treasury.Spending.Contract.{Method}
use hos_treasury.Spending.Events

abbrev pub one_yocto : ℕ
one_yocto = 1

module _ ⦃sdk : Sdk⦄ where
  open sdk use {whitelist_map, units, json}

  abbrev pub on_transfer_gas : ℕ
  on_transfer_gas = units.from_tgas 10

  abbrev pub ft_transfer_gas : ℕ
  ft_transfer_gas = units.from_tgas 10

  unfoldable pub transfer : Context → String → ℕ → Method (Promise Callback)
  transfer ctx receiver_id amount = do
    self ← get_self
    require (str_eq ctx.predecessor_account_id self.spender_id) "Only the spender can transfer"
    require (not (amount == 0)) "Amount must be positive"
    let key : WhitelistKey = (receiver_id, none)
    limit ← expect (whitelist_map.get self.whitelist key) "Receiver is not whitelisted"
    require (leb amount limit) "Transfer exceeds the limit"
    let remaining = saturating_sub limit amount
    put_self (record self { whitelist = whitelist_map.insert self.whitelist key remaining })
    Events.transfer receiver_id amount remaining
    return (
        Promise.and_then (Promise.transfer (Promise.new receiver_id) amount) (
          Promise.ext ctx.current_account_id on_transfer_gas (on_transfer_call receiver_id amount)))

  -- What both callbacks do with the whitelist when a transfer has failed.
  unfoldable pub restore : WhitelistKey → ℕ → Method (Unit {0})
  restore key amount = do
    self ← get_self
    elim (whitelist_map.get self.whitelist key) [
      | none ↦ return tt
      | some limit ↦ put_self (record self {
        whitelist = whitelist_map.insert self.whitelist key (saturating_add u128_max limit amount);
      })
    ]

  unfoldable pub on_transfer : String → ℕ → CallResult (Unit {0}) → Method (Unit {0})
  unfolding restore
  on_transfer receiver_id amount (ok _) = return tt
  on_transfer receiver_id amount (err _) = do
    restore (receiver_id, none) amount
    Events.transfer_failed receiver_id amount

  unfoldable pub transfer_ft : Context → String → String → ℕ → Method (Promise Callback)
  transfer_ft ctx receiver_id token_id amount = do
    self ← get_self
    require (str_eq ctx.predecessor_account_id self.spender_id) "Only the spender can transfer"
    require (ltb 0 amount) "Amount must be positive"
    let key : WhitelistKey = (receiver_id, some token_id)
    limit ←
        expect (whitelist_map.get self.whitelist key) "Receiver is not whitelisted for this token"
    require (leb amount limit) "Transfer exceeds the limit"
    let remaining = saturating_sub limit amount
    put_self (record self { whitelist = whitelist_map.insert self.whitelist key remaining })
    Events.ft_transfer receiver_id token_id amount remaining
    let args =
        json.object
          (("receiver_id", json.string receiver_id) ∷ ("amount", json.u128_text amount) ∷ [])
    return (
        Promise.and_then
          (Promise.function_call_weight (Promise.new token_id) "ft_transfer"
            (json.into_bytes (json.to_string args)) one_yocto ft_transfer_gas 1)
          (Promise.ext ctx.current_account_id on_transfer_gas
            (on_transfer_ft_call receiver_id token_id amount)))

  unfoldable pub on_transfer_ft : String → String → ℕ → CallResult (Unit {0}) → Method (Unit {0})
  unfolding restore
  on_transfer_ft receiver_id token_id amount (ok _) = return tt
  on_transfer_ft receiver_id token_id amount (err _) = do
    restore (receiver_id, some token_id) amount
    Events.ft_transfer_failed receiver_id token_id amount
