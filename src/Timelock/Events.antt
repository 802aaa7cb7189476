-- ===== src/Timelock/Events.antt =====
-- The event logs of dao-timelock/src/events.rs.
use hos_treasury.Common.{ℕ, String, Option, [], ◌∷◌, str_append}
use hos_treasury.Near.{optional_number_of, log_str}
use hos_treasury.Timelock.Types.{Sdk}
use hos_treasury.Timelock.Contract.{Method}

abbrev pub event_standard : String
event_standard = "dao-timelock"

abbrev pub event_version : String
event_version = "1.0.0"

module _ ⦃sdk : Sdk⦄ where
  open sdk use {json}

  -- The line that an event logs.
  unfoldable pub event_line : String → json.Value → String
  event_line event payload = str_append "EVENT_JSON:" (
      json.to_string (
        json.object (
          ("standard", json.string event_standard)
          ∷ ("version", json.string event_version)
          ∷ ("event", json.string event)
          ∷ ("data", json.array (payload ∷ []))
          ∷ [])))

  unfoldable pub emit_event : String → json.Value → Method (Unit {0})
  emit_event event payload = log_str (event_line event payload)

  unfoldable pub schedule_payload : ℕ → ℕ → Option ℕ → json.Value
  schedule_payload request_id execute_after predecessor_id = json.object (
      ("request_id", json.number request_id)
      ∷ ("execute_after", json.u64_text execute_after)
      ∷ ("predecessor_id", optional_number_of json predecessor_id)
      ∷ [])

  unfoldable pub schedule : ℕ → ℕ → Option ℕ → Method (Unit {0})
  unfolding emit_event
  schedule request_id execute_after predecessor_id =
      emit_event "schedule" (schedule_payload request_id execute_after predecessor_id)

  unfoldable pub schedule_proposal_payload : ℕ → String → ℕ → Option ℕ → json.Value
  schedule_proposal_payload request_id dao_id execute_after predecessor_id = json.object (
      ("request_id", json.number request_id)
      ∷ ("dao_id", json.string dao_id)
      ∷ ("execute_after", json.u64_text execute_after)
      ∷ ("predecessor_id", optional_number_of json predecessor_id)
      ∷ [])

  unfoldable pub schedule_proposal : ℕ → String → ℕ → Option ℕ → Method (Unit {0})
  unfolding emit_event
  schedule_proposal request_id dao_id execute_after predecessor_id =
      emit_event "schedule_proposal"
        (schedule_proposal_payload request_id dao_id execute_after predecessor_id)

  unfoldable pub execute_payload : ℕ → String → json.Value
  execute_payload request_id receiver_id =
      json.object
        (("request_id", json.number request_id) ∷ ("receiver_id", json.string receiver_id) ∷ [])

  unfoldable pub execute : ℕ → String → Method (Unit {0})
  unfolding emit_event
  execute request_id receiver_id = emit_event "execute" (execute_payload request_id receiver_id)

  unfoldable pub approve_proposal_payload : ℕ → ℕ → json.Value
  approve_proposal_payload request_id proposal_id =
      json.object
        (("request_id", json.number request_id) ∷ ("proposal_id", json.number proposal_id) ∷ [])

  unfoldable pub approve_proposal : ℕ → ℕ → Method (Unit {0})
  unfolding emit_event
  approve_proposal request_id proposal_id =
      emit_event "approve_proposal" (approve_proposal_payload request_id proposal_id)

  unfoldable pub proposal_failed_payload : ℕ → String → ℕ → json.Value
  proposal_failed_payload request_id funder_id refund = json.object (
      ("request_id", json.number request_id)
      ∷ ("funder_id", json.string funder_id)
      ∷ ("refund", json.near_token refund)
      ∷ [])

  unfoldable pub proposal_failed : ℕ → String → ℕ → Method (Unit {0})
  unfolding emit_event
  proposal_failed request_id funder_id refund =
      emit_event "proposal_failed" (proposal_failed_payload request_id funder_id refund)

  unfoldable pub cancel_payload : ℕ → String → String → json.Value
  cancel_payload request_id receiver_id cancelled_by = json.object (
      ("request_id", json.number request_id)
      ∷ ("receiver_id", json.string receiver_id)
      ∷ ("cancelled_by", json.string cancelled_by)
      ∷ [])

  unfoldable pub cancel : ℕ → String → String → Method (Unit {0})
  unfolding emit_event
  cancel request_id receiver_id cancelled_by =
      emit_event "cancel" (cancel_payload request_id receiver_id cancelled_by)
