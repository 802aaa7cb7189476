-- ===== src/Common/Words.antt =====
-- The largest values of the machine integers, and Rust's arithmetic on them.
use Prim.Native.Nat.{ℕ, ◌+◌, ◌-◌, ◌^◌, min}
use mathlib.Core.Option.{Option, none, some}
use hos_treasury.Common.Tests.{leb, if◌then◌else◌}

abbrev pub u32_max : ℕ
u32_max = 2 ^ 32 - 1

abbrev pub u64_max : ℕ
u64_max = 2 ^ 64 - 1

abbrev pub u128_max : ℕ
u128_max = 2 ^ 128 - 1

-- `saturating_add` of an integer type whose largest value is `top`.
abbrev pub saturating_add : ℕ → ℕ → ℕ → ℕ
saturating_add top a b = min (a + b) top

-- `checked_add`
abbrev pub checked_add : ℕ → ℕ → ℕ → Option ℕ
checked_add top a b = if leb (a + b) top then some (a + b) else none

-- `saturating_sub` of an unsigned type stops at 0, and so does `-`.
abbrev pub saturating_sub : ℕ → ℕ → ℕ
saturating_sub a b = a - b

-- `try_from` into an integer type whose largest value is `top`.
abbrev pub try_from : ℕ → ℕ → Option ℕ
try_from top n = if leb n top then some n else none
