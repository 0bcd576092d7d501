-- ===== src/Engine/Fees.antt =====
-- crates/clob-engine/src/fees.rs: the taker fee, rounded up.
use clob_dex.Prelude.{ℕ, ◌+◌, ◌-◌, ◌*◌, ◌/◌, ◌≤◌, ◌<◌, ◌≡◌, ◌≢◌, ltb, ◌==◌, if◌then◌else◌, arith}
use clob_dex.Quantities.{QuoteLots, u64_max, u128_max}
use clob_dex.Engine.Error.{Result, ok, err, overflow, invalid_fee_rate}

abbrev pub bps_denominator : ℕ
bps_denominator = 10000

pub record FeeSchedule : Type 0 where
  pub taker_fee_bps : ℕ

unfoldable pub new_fees : ℕ → Result FeeSchedule
new_fees bps =
    if ltb bps_denominator bps then err invalid_fee_rate else ok (record { taker_fee_bps = bps })

unfoldable pub validate_fees : FeeSchedule → Result (Unit {0})
validate_fees f = if ltb bps_denominator f.taker_fee_bps then err invalid_fee_rate else ok tt

-- `u128::div_ceil`
abbrev pub div_ceil : ℕ → ℕ → ℕ
div_ceil a b = (a + b - 1) / b

unfoldable pub fee_on : FeeSchedule → QuoteLots → Result QuoteLots
fee_on f quote_lots =
    if f.taker_fee_bps == 0
    then ok 0
    else let numerator = quote_lots * f.taker_fee_bps in
      if ltb u128_max numerator
      then err overflow
      else let fee = div_ceil numerator bps_denominator in
        if ltb u64_max fee then err overflow else ok fee

-- For a rate of at most 100% and a u64 value the fee always exists, is at most the value, and is
-- the exact rate rounded up to the next lot.
pub fee_on_bounds :
    (f : FeeSchedule) (q : ℕ)
    → f.taker_fee_bps ≤ bps_denominator
    → q ≤ u64_max
    → (fee : ℕ) × (fee_on f q ≡ ok fee)
      × (fee ≤ q)
      × (q * f.taker_fee_bps ≤ fee * bps_denominator)
      × (fee * bps_denominator < q * f.taker_fee_bps + bps_denominator)
unfolding fee_on
fee_on_bounds f q hf hq =
    let bound : q * f.taker_fee_bps ≤ q * 10000 = grind arith in
    (
      div_ceil (q * f.taker_fee_bps) bps_denominator,
      ground arith,
      ground arith,
      ground arith,
      ground arith,
    )

-- A fee is zero only on a free market or on an empty fill: splitting into dust never avoids it.
pub fee_on_zero : (f : FeeSchedule) (q : ℕ) → f.taker_fee_bps ≢ 0 → 0 < q → fee_on f q ≢ ok 0
unfolding fee_on
fee_on_zero f q hf hq h = let pos : 0 < q * f.taker_fee_bps = grind arith in ground arith
