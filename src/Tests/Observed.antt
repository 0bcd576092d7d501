-- ===== src/Tests/Observed.antt =====
-- The theorems on the tape, the candles and the average at a few trades.
use clob_dex.Prelude.{ℕ, ◌+◌, ◌≤◌, ◌≡◌, some, List, [], ◌∷◌, arith}
use clob_dex.Order.{bid, FifoOrderId}
use clob_dex.Indexer.Derive.{MarketState, ObservedInstruction, swap}
use clob_dex.Indexer.Tape.{derive}
use clob_dex.Indexer.Sizes.{tape_under, removed_under, derive-lots}
use clob_dex.Stream.{StoredTrade, aggregate, vwap}
use clob_dex.Stream.Candles.{Faithful, counted, aggregate-Faithful}
use clob_dex.Stream.Average.{vwap-between}
use clob_dex.Tests.Market.{opened}

abbrev before : MarketState
before = record {
  header = opened.header;
  bids = [];
  asks =
      record {
        id = record { price_in_ticks = 5; order_sequence_number = 0 };
        trader_index = 1;
        num_base_lots = 10;
      }
      ∷ [];
}

abbrev after : MarketState
after = record {
  header = opened.header;
  bids = [];
  asks =
      record {
        id = record { price_in_ticks = 5; order_sequence_number = 0 };
        trader_index = 1;
        num_base_lots = 6;
      }
      ∷ [];
}

abbrev swapped : List ObservedInstruction
swapped = record { instruction = swap bid; seat = some 2 } ∷ []

abbrev sold : FifoOrderId
sold = record { price_in_ticks = 5; order_sequence_number = 0 }

derive-lots_example :
    tape_under sold (derive before after swapped 9)
      + removed_under sold (derive before after swapped 9)
    ≡ 4
derive-lots_example = derive-lots before after swapped 9 sold tt tt (tt, tt) (tt, tt)

abbrev two_trades : List StoredTrade
two_trades =
    record { slot = 12; price_in_ticks = 5; base_lots = 4; quote_lots = 40 }
    ∷ record { slot = 25; price_in_ticks = 7; base_lots = 2; quote_lots = 28 }
    ∷ []

-- Two trades of one bucket and one of the next.
abbrev three_trades : List StoredTrade
three_trades = record { slot = 11; price_in_ticks = 6; base_lots = 1; quote_lots = 12 } ∷ two_trades

aggregate-Faithful_example :
    Faithful 10 three_trades (aggregate three_trades 10) × (counted (aggregate three_trades 10) ≡ 3)
aggregate-Faithful_example =
    aggregate-Faithful three_trades 10 (omega arith)
      ((omega arith, (omega arith, tt)), ((omega arith, tt), (tt, tt)))
      (
        record { base_range = omega arith; quote_range = omega arith },
        (
          record { base_range = omega arith; quote_range = omega arith },
          (record { base_range = omega arith; quote_range = omega arith }, tt),
        ),
      )

vwap-between_example : (p : ℕ) × (vwap two_trades ≡ some p) × (5 ≤ p) × (p ≤ 7)
vwap-between_example =
    vwap-between two_trades 5 7 ((omega arith, omega arith), ((omega arith, omega arith), tt))
      (omega arith) (λ q. omega (arith, q))
