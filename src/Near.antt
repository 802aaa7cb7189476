-- ===== src/Near.antt =====
-- What the contracts use of the NEAR platform and of its Rust SDK: the environment of a call, the
-- effects that a call asks for, and the interfaces of the SDK's collections, units and JSON.
mod Call
mod Json
mod Store
mod Amounts
pub mod Assoc
pub mod Lookup
pub mod Loops
pub mod Sample
unfoldable pub use Call.*
unfoldable pub use Json.*
pub use Store.*
pub use Amounts.*
