-- ===== src/Tests/Values.antt =====
-- The theorems on values, ids, fees and balances at small numbers.
use clob_dex.Prelude.{
  leb, if◌then◌else◌, none, some, ℕ, ◌+◌, ◌*◌, ◌≤◌, ◌<◌, ◌≡◌, ◌↔◌, refl, none, some, arith,
}
use clob_dex.Quantities.Lots.{
  validate, quote_lots_for, base_lots_for, base_atoms, quote_atoms, base_lots_from_atoms,
  quote_lots_from_atoms,
}
use clob_dex.Quantities.Lots.Exact.{
  unit_value, quote_lots_for-exact, quote_lots_for-base_lots_for, base_lots_for-largest,
}
use mathlib.Core.Option.{map}
use clob_dex.Quantities.Lots.Atoms.{lots_from_atoms-atoms}
use clob_dex.Quantities.{u64_max}
use clob_dex.Order.{bid, new_id, side_of, sequence_number}
use clob_dex.Order.Encoding.{new_id_roundtrip}
use clob_dex.Order.Priority.{Better, Precedes, Precedes-iff}
use clob_dex.Engine.Error.{ok}
use clob_dex.Engine.Fees.{fee_on, fee_on_bounds, bps_denominator}
use clob_dex.Tests.Market.{lots, fees}

valid : validate lots ≡ none
unfolding validate
valid = refl

valued : quote_lots_for lots 5 4 ≡ some 40
unfolding quote_lots_for
valued = refl

quote_lots_for-exact_example : 40 * 10 ≡ 5 * 20 * 4
quote_lots_for-exact_example = quote_lots_for-exact lots 5 4 {q = 40} valid valued

affordable : base_lots_for lots 5 47 ≡ some 4
unfolding base_lots_for
affordable = refl

base_lots_for-largest_example : (unit_value lots 5 * 4 ≤ 47) × (47 < unit_value lots 5 * (4 + 1))
base_lots_for-largest_example = base_lots_for-largest lots 5 47 {n = 4} affordable

quote_lots_for-base_lots_for_example : (q : ℕ) × (quote_lots_for lots 5 4 ≡ some q) × (q ≤ 47)
quote_lots_for-base_lots_for_example =
    quote_lots_for-base_lots_for lots 5 47 {n = 4} (omega arith) (omega arith) (omega arith)
      affordable

lots_from_atoms-atoms_example :
    (map (base_lots_from_atoms lots) (base_atoms lots 4)
      ≡ (if leb (4 * 100) u64_max then some 4 else none))
    × (map (quote_lots_from_atoms lots) (quote_atoms lots 4)
        ≡ (if leb (4 * 1) u64_max then some 4 else none))
    × ((b : ℕ) × (base_atoms lots (base_lots_from_atoms lots 450) ≡ some b)
        × (b ≤ 450)
        × (450 < b + 100))
    × ((q : ℕ) × (quote_atoms lots (quote_lots_from_atoms lots 450) ≡ some q)
        × (q ≤ 450)
        × (450 < q + 1))
lots_from_atoms-atoms_example = lots_from_atoms-atoms lots 4 450 valid (omega arith)

new_id_roundtrip_example : (side_of (new_id bid 5 7) ≡ bid) × (sequence_number (new_id bid 5 7) ≡ 7)
new_id_roundtrip_example = new_id_roundtrip bid 5 7 (omega arith)

Precedes-iff_example : Precedes bid (new_id bid 5 7) (new_id bid 5 9) ↔ Better bid 5 7 5 9
Precedes-iff_example = Precedes-iff bid 5 7 5 9 (omega arith) (omega arith)

fee_on_bounds_example :
    (fee : ℕ) × (fee_on fees 40 ≡ ok fee)
    × (fee ≤ 40)
    × (40 * 100 ≤ fee * bps_denominator)
    × (fee * bps_denominator < 40 * 100 + bps_denominator)
fee_on_bounds_example = fee_on_bounds fees 40 (omega arith) (omega arith)
