-- ===== src/Timelock.antt =====
-- dao-timelock: a queue of requests that wait out a delay before anyone may execute them.
pub mod Types
pub mod Requests
pub mod Contract
pub mod Events
pub mod Schedule
pub mod Scheduling
pub mod Execute
pub mod Leaving
pub mod Admin
pub mod Views
pub mod Proposals
pub mod Calls
pub mod Queue
mod UnitTests
pub mod Samples
mod Tests
mod MethodTests
