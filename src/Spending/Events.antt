-- ===== src/Spending/Events.antt =====
-- The event logs of spending-account/src/events.rs.
use hos_treasury.Common.{ℕ, String, [], ◌∷◌, str_append}
use hos_treasury.Near.{log_str}
use hos_treasury.Spending.Types.{Sdk}
use hos_treasury.Spending.Contract.{Method}

abbrev pub event_standard : String
event_standard = "spending-account"

abbrev pub event_version : String
event_version = "1.0.0"

module _ ⦃sdk : Sdk⦄ where
  open sdk use {json}

  -- The line that an event logs.
  unfoldable pub event_line : String → json.Value → String
  event_line event payload = str_append "EVENT_JSON:" (
      json.to_string (
        json.object (
          ("standard", json.string event_standard)
          ∷ ("version", json.string event_version)
          ∷ ("event", json.string event)
          ∷ ("data", json.array (payload ∷ []))
          ∷ [])))

  unfoldable pub emit_event : String → json.Value → Method (Unit {0})
  emit_event event payload = log_str (event_line event payload)

  unfoldable pub transfer_payload : String → ℕ → ℕ → json.Value
  transfer_payload receiver_id amount limit = json.object (
      ("receiver_id", json.string receiver_id)
      ∷ ("amount", json.near_token amount)
      ∷ ("limit", json.near_token limit)
      ∷ [])

  unfoldable pub transfer : String → ℕ → ℕ → Method (Unit {0})
  unfolding emit_event
  transfer receiver_id amount limit =
      emit_event "transfer" (transfer_payload receiver_id amount limit)

  unfoldable pub transfer_failed_payload : String → ℕ → json.Value
  transfer_failed_payload receiver_id amount =
      json.object
        (("receiver_id", json.string receiver_id) ∷ ("amount", json.near_token amount) ∷ [])

  unfoldable pub transfer_failed : String → ℕ → Method (Unit {0})
  unfolding emit_event
  transfer_failed receiver_id amount =
      emit_event "transfer_failed" (transfer_failed_payload receiver_id amount)

  unfoldable pub ft_transfer_payload : String → String → ℕ → ℕ → json.Value
  ft_transfer_payload receiver_id token_id amount limit = json.object (
      ("receiver_id", json.string receiver_id)
      ∷ ("token_id", json.string token_id)
      ∷ ("amount", json.u128_text amount)
      ∷ ("limit", json.u128_text limit)
      ∷ [])

  unfoldable pub ft_transfer : String → String → ℕ → ℕ → Method (Unit {0})
  unfolding emit_event
  ft_transfer receiver_id token_id amount limit =
      emit_event "ft_transfer" (ft_transfer_payload receiver_id token_id amount limit)

  unfoldable pub ft_transfer_failed_payload : String → String → ℕ → json.Value
  ft_transfer_failed_payload receiver_id token_id amount = json.object (
      ("receiver_id", json.string receiver_id)
      ∷ ("token_id", json.string token_id)
      ∷ ("amount", json.u128_text amount)
      ∷ [])

  unfoldable pub ft_transfer_failed : String → String → ℕ → Method (Unit {0})
  unfolding emit_event
  ft_transfer_failed receiver_id token_id amount =
      emit_event "ft_transfer_failed" (ft_transfer_failed_payload receiver_id token_id amount)
