-- ===== src/Timelock/Queue.antt =====
-- The timelock over its life: calls arrive in any order and at any time. A panic undoes its call,
-- so it is no step. The timelock comes with its history: who was scheduled, who left, what was paid
-- in and what was sent out.
pub mod Effects
pub mod Steps
pub mod Once
pub mod Delay
pub mod Escrow
pub mod Order
pub mod Draining
use hos_treasury.Common.{
  ℕ, ◌+◌, ◌<◌, ◌≡◌, String, Bool, true, false, Option, none, some, List, [], ◌∷◌, sum_by, u128_max,
}
use hos_treasury.Near.{Context, Promise, World, done}
use hos_treasury.Timelock.Types.{Request, Callback, Sdk}
use hos_treasury.Timelock.Contract.{Contract, new}
use hos_treasury.Timelock.Calls.{Call, Reply, nothing, request_id, promise, invoke}
use hos_treasury.Timelock.Scheduling.{W, pending, plain, proposal}

-- The deposits that a promise carries.
abbrev pub carried : Promise Callback → ℕ
carried (Promise.new account) = 0
carried (Promise.function_call p name args deposit gas) = carried p + deposit
carried (Promise.function_call_weight p name args deposit gas weight) = carried p + deposit
carried (Promise.transfer p amount) = carried p + amount
carried (Promise.and_then p q) = carried p + carried q
carried (Promise.ext account gas callback) = 0

-- A request as it was scheduled: its id, who scheduled it and when, and the DAO and the delay of that
-- time.
pub record Ticket : Type 0 where
  pub id : ℕ
  pub scheduled_by : String
  pub dao : String
  pub at : ℕ
  pub delay : ℕ
  pub request : Option Request

-- A request as it left the queue, executed or cancelled, and whether a guardian asked for it.
pub record Departure : Type 0 where
  pub id : ℕ
  pub at : ℕ
  pub by_guardian : Bool
  pub executed : Bool
  pub request : Option Request

module _ ⦃sdk : Sdk⦄ where
  open sdk use {guardian_set}

  pub record Timeline : Type 0 where
    pub contract : Contract
    pub tickets : List Ticket
    pub departures : List Departure
    pub received : ℕ
    pub released : ℕ

  abbrev pub begin : Contract → W
  begin self = record { state = self; logs = []; promises = [] }

  abbrev pub ticket_of : Context → Contract → Request → Ticket
  ticket_of ctx self r = record {
    id = self.next_request_id;
    scheduled_by = ctx.predecessor_account_id;
    dao = self.dao_id;
    at = ctx.block_timestamp;
    delay = self.delay_ns;
    request = some r;
  }

  abbrev pub departure_of : Context → Contract → ℕ → Bool → Departure
  departure_of ctx self id executed = record {
    id = id;
    at = ctx.block_timestamp;
    by_guardian = guardian_set.contains self.guardians ctx.predecessor_account_id;
    executed = executed;
    request = pending self id;
  }

  -- A ticket has the request that the arguments of the call describe.
  abbrev pub note_ticket : Context → Call → Contract → List Ticket → List Ticket
  note_ticket ctx (Call.schedule r actions p) self old =
      ticket_of ctx self (plain ctx r actions p self) ∷ old
  note_ticket ctx (Call.schedule_proposal d k dao b g v p) self old =
      ticket_of ctx self (proposal ctx d k dao b g v p self) ∷ old
  note_ticket ctx c self old = old

  abbrev pub note_departure : Context → Call → Contract → List Departure → List Departure
  note_departure ctx (Call.execute id) self old = departure_of ctx self id true ∷ old
  note_departure ctx (Call.cancel id) self old = departure_of ctx self id false ∷ old
  note_departure ctx c self old = old

  -- Only scheduling takes a deposit.
  abbrev pub paid_in : Context → Call → ℕ
  paid_in ctx (Call.schedule r actions p) = ctx.attached_deposit
  paid_in ctx (Call.schedule_proposal d k dao b g v p) = ctx.attached_deposit
  paid_in ctx c = 0

  abbrev pub carried_by : Reply → ℕ
  carried_by (promise p) = carried p
  carried_by nothing = 0
  carried_by (request_id id) = 0

  -- What execution and cancellation send out. The refund of a failed proposal is not counted: that
  -- bond was sent out on execution and has come back.
  abbrev pub sent_out : Call → Reply → List (Promise Callback) → ℕ
  sent_out (Call.execute id) reply dropped = carried_by reply + sum_by carried dropped
  sent_out (Call.cancel id) reply dropped = carried_by reply + sum_by carried dropped
  sent_out c reply dropped = 0

  abbrev pub after_call : Context → Call → Reply → W → Timeline → Timeline
  after_call ctx c reply w t = record {
    contract = w.state;
    tickets = note_ticket ctx c t.contract t.tickets;
    departures = note_departure ctx c t.contract t.departures;
    received = t.received + paid_in ctx c;
    released = t.released + sent_out c reply w.promises;
  }

  -- A call that goes through. No account can attach the largest `u128` of yoctoNEAR.
  pub data Step (t : Timeline) : Timeline → Type 0 where
    call :
        (ctx : Context) (c : Call) (reply : Reply) (w : W)
        → ctx.attached_deposit < u128_max
        → invoke ctx c (begin t.contract) ≡ done (reply, w)
        → Step t (after_call ctx c reply w t)

  abbrev pub opened : Contract → Timeline
  opened self = record {
    contract = self;
    tickets = [];
    departures = [];
    received = 0;
    released = 0;
  }

  -- The timelocks that the constructor and then calls lead to.
  pub data Reach : Timeline → Type 0 where
    start :
        (dao_id admin_id : String) (guardians : List String) (delay_ns : ℕ) (self : Contract)
        → new dao_id admin_id guardians delay_ns ≡ done self
        → Reach (opened self)
    next : {t u : Timeline} → Reach t → Step t u → Reach u
