-- ===== src/Spending.antt =====
-- spending-account: a treasury that pays only whitelisted recipients, each within a limit.
pub mod Types
pub mod Keys
pub mod Contract
pub mod Events
pub mod Admin
pub mod Whitelist
pub mod Transfer
pub mod Calls
pub mod Treasury
pub mod Ledger
mod UnitTests
pub mod Samples
mod Tests
mod BatchTests
