-- ===== src/Quantities/Lots/Exact.antt =====
-- crates/clob-book/src/quantities/lots.rs: prices and sizes to quote values and back.
use native.Mathlib.Nat.{div-le_self, mul-div-le, lt-mul-div-succ}
use clob_dex.Prelude.{ℕ, ◌+◌, ◌*◌, ◌/◌, ◌≤◌, ◌<◌, ◌≡◌, ap, none, some, arith, leb, if◌then◌else◌}
use clob_dex.Quantities.{u64_max, u128_max}
use clob_dex.Quantities.Lots.{
  LotConfig, validate, quote_lots_per_base_lot_per_tick, quote_lots_for, base_lots_for,
}

-- The value of one base lot at `price`.
abbrev pub unit_value : LotConfig → ℕ → ℕ
unit_value c price = price * quote_lots_per_base_lot_per_tick c

-- The folded constant loses nothing in a config that passes validation.
pub per_lot-exact :
    (c : LotConfig)
    → validate c ≡ none
    → quote_lots_per_base_lot_per_tick c * c.base_lots_per_base_unit
      ≡ c.tick_size_in_quote_lots_per_base_unit
unfolding validate quote_lots_per_base_lot_per_tick
per_lot-exact c h = grind arith

per_lot-le :
    (c : LotConfig) → quote_lots_per_base_lot_per_tick c ≤ c.tick_size_in_quote_lots_per_base_unit
unfolding quote_lots_per_base_lot_per_tick
per_lot-le c = omega arith

mul_mono : (a b m n : ℕ) → a ≤ m → b ≤ n → a * b ≤ m * n
mul_mono a b m n h k = grind arith

unit_value-le :
    (c : LotConfig) (price : ℕ)
    → price ≤ u64_max
    → c.tick_size_in_quote_lots_per_base_unit ≤ u64_max
    → unit_value c price ≤ u128_max
unit_value-le c price hp ht = omega (
  arith,
  per_lot-le c,
  mul_mono price (quote_lots_per_base_lot_per_tick c) u64_max u64_max hp
      (omega (arith, per_lot-le c)),
)

-- The two u128 products and the cast answer exactly when the value fits in a u64.
pub quote_lots_for_lem :
    (c : LotConfig) (price size : ℕ)
    → price ≤ u64_max
    → c.tick_size_in_quote_lots_per_base_unit ≤ u64_max
    → size ≤ u64_max
    → quote_lots_for c price size
      ≡ (if leb (unit_value c price * size) u64_max then some (unit_value c price * size) else none)
unfolding quote_lots_for
quote_lots_for_lem c price size hp ht hs = ground (arith, unit_value-le c price hp ht)

-- In a validated configuration the quote value of a size is price times tick size times size over
-- base lots per unit, with no remainder.
pub quote_lots_for-exact :
    (c : LotConfig) (price size : ℕ) {q : ℕ}
    → validate c ≡ none
    → quote_lots_for c price size ≡ some q
    → q * c.base_lots_per_base_unit ≡ price * c.tick_size_in_quote_lots_per_base_unit * size
unfolding quote_lots_for
quote_lots_for-exact c price size {q} v h =
    let e : q ≡ unit_value c price * size = ground arith in
    rw e (omega (arith, ap (λ (t : ℕ). price * size * t) (per_lot-exact c v)))

bought :
    (c : LotConfig) (price budget : ℕ) {n : ℕ}
    → base_lots_for c price budget ≡ some n
    → (0 < unit_value c price) × (n ≡ budget / unit_value c price)
unfolding base_lots_for
bought c price budget h = ground arith

-- The size bought with a budget costs no more than it, and one more lot would cost more.
pub base_lots_for-largest :
    (c : LotConfig) (price budget : ℕ) {n : ℕ}
    → base_lots_for c price budget ≡ some n
    → (unit_value c price * n ≤ budget) × (budget < unit_value c price * (n + 1))
base_lots_for-largest c price budget {n} h =
    let (pos, e) = bought c price budget h in
    rw e
      (mul-div-le budget (unit_value c price), lt-mul-div-succ budget {b = unit_value c price} pos)

-- For u64 values, a size bought with a budget has a quote value in range, within the budget.
pub quote_lots_for-base_lots_for :
    (c : LotConfig) (price budget : ℕ) {n : ℕ}
    → price ≤ u64_max
    → c.tick_size_in_quote_lots_per_base_unit ≤ u64_max
    → budget ≤ u64_max
    → base_lots_for c price budget ≡ some n
    → (q : ℕ) × (quote_lots_for c price n ≡ some q) × (q ≤ budget)
quote_lots_for-base_lots_for c price budget {n} hp ht hb h =
    let (le, lt) = base_lots_for-largest c price budget h in
    let small : n ≤ u64_max =
      rw (bought c price budget h).1 (omega (arith, div-le_self budget (unit_value c price))) in
    (unit_value c price * n, ground (arith, quote_lots_for_lem c price n hp ht small), le)
