-- ===== src/Stream/Average.antt =====
-- crates/clob-stream/src/candle.rs: the volume-weighted average price.
use native.Mathlib.Nat.{le-div_iff_mul-le, div-le_of_le-mul}
use clob_dex.Prelude.{ℕ, ◌*◌, ◌/◌, ◌≤◌, ◌<◌, ◌≡◌, ◌≢◌, some, List, [], ◌∷◌, All, arith}
use clob_dex.Quantities.{u64_max}
use clob_dex.Stream.{StoredTrade, vwap, volume, weighted}

weighted_bounds :
    (low high : ℕ) (xs : List StoredTrade)
    → All (λ x. (low ≤ x.price_in_ticks) × (x.price_in_ticks ≤ high)) xs
    → (low * volume xs ≤ weighted xs) × (weighted xs ≤ high * volume xs)
weighted_bounds low high [] a = (omega arith, omega arith)
weighted_bounds low high (x ∷ xs) a =
    let (l, h) = weighted_bounds low high xs a.1 in
    (grind (arith, l, a.0.0), grind (arith, h, a.0.1))

-- For trades of some volume at prices between two bounds, the upper of them a u64, the average is
-- answered and lies between the bounds.
pub vwap-between :
    (xs : List StoredTrade) (low high : ℕ)
    → All (λ x. (low ≤ x.price_in_ticks) × (x.price_in_ticks ≤ high)) xs
    → high ≤ u64_max
    → volume xs ≢ 0
    → (p : ℕ) × (vwap xs ≡ some p) × (low ≤ p) × (p ≤ high)
unfolding vwap
vwap-between xs low high a fits traded =
    let (l, h) = weighted_bounds low high xs a in
    let positive : 0 < volume xs = omega (arith, traded) in
    let above = (le-div_iff_mul-le {x = low} {y = weighted xs} positive).1 l in
    let below = div-le_of_le-mul (volume xs) {m = weighted xs} {n = high} (grind (arith, h)) in
    (weighted xs / volume xs, ground (arith, below), above, below)
