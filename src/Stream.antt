-- ===== src/Stream.antt =====
-- crates/clob-stream/src/candle.rs: candles and averages over stored trades. A stored trade keeps the
-- four fields that are read here. The sums of `vwap` are u128 in the source, where 2^64 trades of
-- u64 products cannot overflow.
pub mod Buckets
pub mod Adding
pub mod Candles
pub mod Average
use clob_dex.Prelude.{
  ℕ, ◌+◌, ◌*◌, ◌/◌, Bool, true, false, Option, none, some, List, [], ◌∷◌, ◌==◌, leb, if◌then◌else◌,
  sum_by,
}
use clob_dex.Quantities.{u64_max, is_zero, saturating_add, min, max}

pub record StoredTrade : Type 0 where
  pub slot : ℕ
  pub price_in_ticks : ℕ
  pub base_lots : ℕ
  pub quote_lots : ℕ

pub record Candle : Type 0 where
  pub start_slot : ℕ
  pub open_price : ℕ
  pub high : ℕ
  pub low : ℕ
  pub close : ℕ
  pub base_lots : ℕ
  pub quote_lots : ℕ
  pub trades : ℕ

unfoldable pub new_candle : ℕ → StoredTrade → Candle
new_candle start x = record {
  start_slot = start;
  open_price = x.price_in_ticks;
  high = x.price_in_ticks;
  low = x.price_in_ticks;
  close = x.price_in_ticks;
  base_lots = x.base_lots;
  quote_lots = x.quote_lots;
  trades = 1;
}

unfoldable pub extend_candle : Candle → StoredTrade → Candle
extend_candle c x = record c {
  high = max c.high x.price_in_ticks;
  low = min c.low x.price_in_ticks;
  close = x.price_in_ticks;
  base_lots = saturating_add c.base_lots x.base_lots;
  quote_lots = saturating_add c.quote_lots x.quote_lots;
  trades = c.trades + 1;
}

-- The first slot of a trade's bucket.
unfoldable pub bucket : ℕ → StoredTrade → ℕ
bucket interval x = x.slot / interval * interval

-- `candles.last_mut()`: the last candle takes the trade if it is of its bucket.
unfoldable pub add_trade : ℕ → List Candle → StoredTrade → List Candle
add_trade interval [] x = new_candle (bucket interval x) x ∷ []
add_trade interval (c ∷ []) x =
    if c.start_slot == bucket interval x
    then extend_candle c x ∷ []
    else c ∷ new_candle (bucket interval x) x ∷ []
add_trade interval (c ∷ d ∷ cs) x = c ∷ add_trade interval (d ∷ cs) x

unfoldable pub aggregate_loop : ℕ → List Candle → List StoredTrade → List Candle
aggregate_loop interval cs [] = cs
aggregate_loop interval cs (x ∷ xs) = aggregate_loop interval (add_trade interval cs x) xs

unfoldable pub aggregate : List StoredTrade → ℕ → List Candle
aggregate xs interval = if interval == 0 then [] else aggregate_loop interval [] xs

abbrev pub last_of : List Candle → Option Candle
last_of [] = none
last_of (c ∷ []) = some c
last_of (c ∷ d ∷ cs) = last_of (d ∷ cs)

unfoldable pub summarise : List StoredTrade → Option Candle
summarise xs = last_of (aggregate xs u64_max)

abbrev pub volume : List StoredTrade → ℕ
volume = sum_by λ x. x.base_lots

abbrev pub weighted : List StoredTrade → ℕ
weighted = sum_by λ x. x.price_in_ticks * x.base_lots

-- `u64::try_from(weighted / base).ok()`
unfoldable pub vwap : List StoredTrade → Option ℕ
vwap xs =
    if volume xs == 0
    then none
    else if leb (weighted xs / volume xs) u64_max
    then some (weighted xs / volume xs)
    else none
