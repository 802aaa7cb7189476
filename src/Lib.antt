-- ===== src/Lib.antt =====
-- The House-of-Stake treasury contracts: spending-account and dao-timelock.
--
-- spending-account holds funds and pays whitelisted recipients within limits. dao-timelock holds
-- requests of a DAO for a delay, in which guardians may cancel them, and then lets anyone execute
-- them. In the deployment a timelock holds the spender and the manager role of a spending account,
-- so a payment is a request whose batch calls `transfer` or `transfer_ft` there.
--
-- Near: what both contracts use of the platform. Near/Call has the environment of a call
-- (`near_sdk::env`), the promises as the builder calls that made them, and the monad of a method:
-- state, logs and promises, undone by a panic, which carries its message. Near/Json, Near/Store and
-- Near/Amounts are the interfaces of serde_json, of the SDK's `IterableMap` and `IterableSet`, and
-- of `NearToken` and `Gas`; they are parameters with the laws of their documentation (that a
-- printed JSON value reads back as it was is no law, since it may fail for floats: it is a
-- hypothesis where it is used), gathered in the record `Sdk` of each contract, and Near/Assoc and
-- Near/Sample show that the laws can be met. Near/Loops is about `for` loops, Near/Lookup about
-- reading a map after a change.
--
-- Spending is spending-account/src. Types, Contract: lib.rs. Admin: the setters of admin.rs, whose
-- role checks stand in Contract. Events: events.rs. Whitelist: whitelist.rs, each loop body a
-- function of its own. Transfer: transfer.rs. Calls has the calls that change the state as one data
-- type, and Treasury, with Treasury/Money about what the promises send, the life of an account:
-- calls and callbacks in any order, payments that succeed or fail in any way. Ledger is what the
-- account promises, with no contract in sight: limits, who may ask for what, and transfers under
-- way. Keys compares keys and reads limits. UnitTests has the unit tests of admin.rs, whitelist.rs
-- and transfer.rs, each as a run with the outcome that it expects.
--
-- Timelock is dao-timelock/src. Types, Requests: request.rs and the gas constants of lib.rs.
-- Contract: the state, the constructor and the checks of lib.rs. Schedule, Execute, Views: the
-- methods of lib.rs. Admin: admin.rs. Events: events.rs. Requests/Totals, Scheduling, Leaving and
-- Proposals are about these methods. Calls has the calls that change the state as one data type,
-- and Queue the life of a timelock, with its history: what was scheduled, paid, executed and
-- cancelled. UnitTests has the unit tests of lib.rs, each as a run with the outcome that it
-- expects.
--
-- Deployment is the two contracts as they are deployed. The timelock's account has no access key,
-- so what it does elsewhere are the receipts of its promises, which arrive in any order, late or
-- never; how the SDK decodes the arguments of a function call is the parameter Decoder. A receipt
-- with a function call that is neither a view nor a call that decodes and carries no deposit fails
-- as a whole.
--
-- Account ids and other Rust strings are texts, byte vectors are lists of numbers, and the integer
-- types are unbounded numbers whose bounds are written out: saturating and checked operations, the
-- overflow check of the release profile, and `usize` with the 32 bits of WebAssembly. A `NearToken`
-- is its yoctoNEAR and a `Gas` its gas units. No function needs fuel: every loop runs over a list.
--
-- Not modelled: the SDK's macros, which decode arguments (but for Decoder above), check the absence
-- of a deposit, and store the state. The check of `#[private]` on the timelock's callback is
-- assert_private, which Calls puts before it; the callbacks of the spending account are steps of
-- Treasury for transfers under way, which nobody else can make. Nor are modelled the gas that a
-- call burns and the storage that it pays for; the other contracts that promises reach; the
-- integration tests and scripts.
pub mod Common
pub mod Near
pub mod Spending
pub mod Timelock
pub mod Deployment
