-- ===== src/Quantities/Lots.antt =====
-- crates/clob-book/src/quantities/lots.rs: a market's lot and tick geometry.
pub mod Exact
pub mod Atoms
use clob_dex.Prelude.{
  ℕ, ◌*◌, ◌/◌, ◌%◌, Option, none, some, leb, ltb, ◌==◌, not, if◌then◌else◌, ◌⊎◌, inl, inr,
}
use clob_dex.Quantities.{
  Ticks, BaseLots, QuoteLots, BaseAtoms, QuoteAtoms, u64_max, u128_max, checked_mul,
}

pub data LotConfigError : Type 0 where
  zero_base_lots_per_base_unit : LotConfigError
  zero_tick_size : LotConfigError
  zero_base_atoms_per_base_lot : LotConfigError
  zero_quote_atoms_per_quote_lot : LotConfigError
  tick_size_not_divisible_by_base_lots_per_base_unit : LotConfigError

pub record LotConfig : Type 0 where
  pub base_lots_per_base_unit : ℕ
  pub tick_size_in_quote_lots_per_base_unit : ℕ
  pub base_atoms_per_base_lot : ℕ
  pub quote_atoms_per_quote_lot : ℕ

-- The answer of `validate`: `none` is `Ok(())`.
unfoldable pub validate : LotConfig → Option LotConfigError
validate c =
    if c.base_lots_per_base_unit == 0
    then some zero_base_lots_per_base_unit
    else if c.tick_size_in_quote_lots_per_base_unit == 0
    then some zero_tick_size
    else if c.base_atoms_per_base_lot == 0
    then some zero_base_atoms_per_base_lot
    else if c.quote_atoms_per_quote_lot == 0
    then some zero_quote_atoms_per_quote_lot
    else if not (c.tick_size_in_quote_lots_per_base_unit % c.base_lots_per_base_unit == 0)
    then some tick_size_not_divisible_by_base_lots_per_base_unit
    else none

-- `LotConfig::new`: the configuration, or the first error in it.
unfoldable pub new_config : ℕ → ℕ → ℕ → ℕ → LotConfigError ⊎ LotConfig
unfolding validate
new_config base tick base_size quote_size =
    let c : LotConfig = record {
      base_lots_per_base_unit = base;
      tick_size_in_quote_lots_per_base_unit = tick;
      base_atoms_per_base_lot = base_size;
      quote_atoms_per_quote_lot = quote_size;
    } in
    elim (validate c) [ none ↦ inr c | some e ↦ inl e ]

-- `u128::checked_mul`
checked_mul_wide : ℕ → ℕ → Option ℕ
checked_mul_wide a b = if leb (a * b) u128_max then some (a * b) else none

unfoldable pub quote_lots_per_base_lot_per_tick : LotConfig → ℕ
quote_lots_per_base_lot_per_tick c =
    c.tick_size_in_quote_lots_per_base_unit / c.base_lots_per_base_unit

-- The overflow tests are the source's: two products in u128, then the cast to u64.
unfoldable pub quote_lots_for : LotConfig → Ticks → BaseLots → Option QuoteLots
unfolding quote_lots_per_base_lot_per_tick checked_mul_wide
quote_lots_for c price size = elim (checked_mul_wide price (quote_lots_per_base_lot_per_tick c)) [
  | none ↦ none
  | some unit_value ↦ elim (checked_mul_wide unit_value size) [
    | none ↦ none
    | some total ↦ if ltb u64_max total then none else some total
  ]
]

unfoldable pub base_lots_for : LotConfig → Ticks → QuoteLots → Option BaseLots
unfolding quote_lots_per_base_lot_per_tick checked_mul_wide
base_lots_for c price budget = elim (checked_mul_wide price (quote_lots_per_base_lot_per_tick c)) [
  | none ↦ none
  | some cost ↦
      if cost == 0
      then none
      else let size = budget / cost in if ltb u64_max size then none else some size
]

unfoldable pub base_atoms : LotConfig → BaseLots → Option BaseAtoms
base_atoms c lots = checked_mul lots c.base_atoms_per_base_lot

unfoldable pub quote_atoms : LotConfig → QuoteLots → Option QuoteAtoms
quote_atoms c lots = checked_mul lots c.quote_atoms_per_quote_lot

unfoldable pub base_lots_from_atoms : LotConfig → BaseAtoms → BaseLots
base_lots_from_atoms c atoms = atoms / c.base_atoms_per_base_lot

unfoldable pub quote_lots_from_atoms : LotConfig → QuoteAtoms → QuoteLots
quote_lots_from_atoms c atoms = atoms / c.quote_atoms_per_quote_lot
