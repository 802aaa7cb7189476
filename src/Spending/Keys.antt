-- ===== src/Spending/Keys.antt =====
-- The keys of the whitelist, and the contract's limits as a map from keys.
use mathlib.Core.Option
use mathlib.Core.Option.{some-injective}
use mathlib.Core.Logic.{ite, if_pos, if_neg}
use hos_treasury.Common.{
  ℕ, ◌≡◌, refl, ap, String, Option, none, some, str_eq, str_eq_iff, true, false, Bool-cases, inl,
  inr,
}
use hos_treasury.Spending.Types.{WhitelistKey, WhitelistEntry, WhitelistEntryKey, LimitChange, Sdk}
use hos_treasury.Spending.Contract.{Contract}

unfoldable pub String-discrete : Discrete String
unfolding Bool-cases str_eq
String-discrete a b = elim (Bool-cases (str_eq a b)) [
  | inl same ↦ yes ((str_eq_iff a b).0 same)
  | inr other ↦ no (λ e. differ other ((str_eq_iff a b).1 e))
]
  where
    differ : str_eq a b ≡ false → str_eq a b ≡ true → ⊥
    differ other same = cc

token_dec : Discrete (Option String)
unfolding String-discrete
token_dec none none = yes refl
token_dec none (some b) = no (λ e. cc)
token_dec (some a) none = no (λ e. cc)
token_dec (some a) (some b) = elim (String-discrete a b) [
  | yes p ↦ yes (ap some p)
  | no d ↦ no (λ e. d (some-injective a b e))
]

unfoldable pub key_dec : Discrete WhitelistKey
unfolding String-discrete token_dec
key_dec k j = elim (String-discrete k.0 j.0) [
  | yes p ↦ elim (token_dec k.1 j.1) [
    | yes q ↦ yes (λ i. (p i, q i))
    | no d ↦ no (λ e. d (ap (λ x. x.1) e))
  ]
  | no d ↦ no (λ e. d (ap (λ x. x.0) e))
]

abbrev pub entry_key : WhitelistEntry → WhitelistKey
entry_key e = (e.account_id, e.token_id)

abbrev pub change_key : LimitChange → WhitelistKey
change_key c = (c.account_id, c.token_id)

abbrev pub removed_key : WhitelistEntryKey → WhitelistKey
removed_key k = (k.account_id, k.token_id)

module _ ⦃sdk : Sdk⦄ where
  open sdk use {whitelist_map}

  -- What is left for a key.
  abbrev pub limit_of : Contract → WhitelistKey → Option ℕ
  limit_of self key = whitelist_map.get self.whitelist key

  -- What is left for a key, or 0 for a key that is not listed.
  abbrev pub allowance : Contract → WhitelistKey → ℕ
  allowance self key = Option.get_or (limit_of self key) 0

  -- The contract with another limit for a key.
  abbrev pub with_limit : Contract → WhitelistKey → ℕ → Contract
  with_limit self key limit = record self {
    whitelist = whitelist_map.insert self.whitelist key limit;
  }

  -- The contract without a key.
  abbrev pub without : Contract → WhitelistKey → Contract
  without self key = record self { whitelist = (whitelist_map.remove self.whitelist key).0 }

  pub limit_of-with_limit :
      (self : Contract) (key j : WhitelistKey) (limit : ℕ)
      → limit_of (with_limit self key limit) j ≡ ite (key_dec j key) (some limit) (limit_of self j)
  limit_of-with_limit self key j limit = elim (key_dec j key) [
    | yes e ↦ rw (if_pos _ e, e) (whitelist_map.get-insert_self self.whitelist key limit)
    | no d ↦ rw (if_neg _ d) (whitelist_map.get-insert_ne self.whitelist key j limit d)
  ]

  pub limit_of-without :
      (self : Contract) (key j : WhitelistKey)
      → limit_of (without self key) j ≡ ite (key_dec j key) none (limit_of self j)
  limit_of-without self key j = elim (key_dec j key) [
    | yes e ↦ rw (if_pos _ e, e) (whitelist_map.get-remove_self self.whitelist key)
    | no d ↦ rw (if_neg _ d) (whitelist_map.get-remove_ne self.whitelist key j d)
  ]
