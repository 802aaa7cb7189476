-- ===== src/Timelock/Views.antt =====
-- The views of dao-timelock/src/lib.rs.
pub mod Pages
use mathlib.Core.Option
use hos_treasury.Common.{ℕ, String, Option, List, map, take, drop, u32_max, try_from}
use hos_treasury.Near.{◌>>=◌, return, get_self, expect}
use hos_treasury.Timelock.Types.{Request, RequestOutput, Sdk}
use hos_treasury.Timelock.Requests.{new_output}
use hos_treasury.Timelock.Contract.{Contract, Method}

module _ ⦃sdk : Sdk⦄ where
  open sdk use {guardian_set, request_map}

  unfoldable pub get_dao : Contract → String
  get_dao self = self.dao_id

  unfoldable pub get_admin : Contract → String
  get_admin self = self.admin_id

  unfoldable pub get_guardians : Contract → List String
  get_guardians self = guardian_set.iter self.guardians

  unfoldable pub get_delay : Contract → ℕ
  get_delay self = self.delay_ns

  unfoldable pub get_next_request_id : Contract → ℕ
  get_next_request_id self = self.next_request_id

  unfoldable pub get_num_requests : Contract → ℕ
  get_num_requests self = request_map.len self.requests

  unfoldable pub get_request : Contract → ℕ → Option RequestOutput
  unfolding new_output
  get_request self request_id =
      Option.map (new_output request_id) (request_map.get self.requests request_id)

  abbrev pub to_output : ℕ × Request → RequestOutput
  to_output (request_id, request) = new_output request_id request

  -- `usize` has 32 bits in the contract's WebAssembly.
  unfoldable pub get_requests : Option ℕ → Option ℕ → Method (List RequestOutput)
  get_requests from_index limit = do
    from ← expect (try_from u32_max (Option.get_or from_index 0)) "from_index exceeds usize"
    count ← expect (try_from u32_max (Option.get_or limit u32_max)) "limit exceeds usize"
    self ← get_self
    return (map to_output (take count (drop from (request_map.iter self.requests))))
