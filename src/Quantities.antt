-- ===== src/Quantities.antt =====
-- crates/clob-book/src/quantities/units.rs: the five u64 newtypes and their checked arithmetic.
-- One set of operations stands for the macro's five instances. A value is a plain number, and its
-- range is a hypothesis where a theorem needs it. The checked forms stand for the
-- operators of the newtypes too, which panic where these answer `none`.
pub mod Lots
use clob_dex.Prelude.{
  ℕ, ◌+◌, ◌-◌, ◌*◌, ◌^◌, Bool, Option, none, some, ltb, leb, ◌==◌, if◌then◌else◌,
}

abbrev pub Ticks : Type 0
Ticks = ℕ

abbrev pub BaseLots : Type 0
BaseLots = ℕ

abbrev pub QuoteLots : Type 0
QuoteLots = ℕ

abbrev pub BaseAtoms : Type 0
BaseAtoms = ℕ

abbrev pub QuoteAtoms : Type 0
QuoteAtoms = ℕ

-- `u64::MAX`
abbrev pub u64_max : ℕ
u64_max = 2 ^ 64 - 1

abbrev pub u128_max : ℕ
u128_max = 2 ^ 128 - 1

abbrev pub is_zero : ℕ → Bool
is_zero a = a == 0

unfoldable pub checked_add : ℕ → ℕ → Option ℕ
checked_add a b = if leb (a + b) u64_max then some (a + b) else none

unfoldable pub checked_sub : ℕ → ℕ → Option ℕ
checked_sub a b = if leb b a then some (a - b) else none

unfoldable pub checked_mul : ℕ → ℕ → Option ℕ
checked_mul a b = if leb (a * b) u64_max then some (a * b) else none

unfoldable pub saturating_sub : ℕ → ℕ → ℕ
saturating_sub a b = if leb b a then a - b else 0

unfoldable pub saturating_add : ℕ → ℕ → ℕ
saturating_add a b = if leb (a + b) u64_max then a + b else u64_max

unfoldable pub min : ℕ → ℕ → ℕ
min a b = if ltb a b then a else b

unfoldable pub max : ℕ → ℕ → ℕ
max a b = if ltb b a then a else b
