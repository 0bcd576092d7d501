-- ===== src/Indexer/Tape.antt =====
-- crates/clob-indexer/src/derive.rs: the whole derivation, with its trades in the order of the tape.
use clob_dex.Prelude.{ℕ, ◌-◌, Bool, ◌&&◌, ◌||◌, List, [], ◌∷◌, ◌==◌, ltb, leb, if◌then◌else◌}
use clob_dex.Quantities.{u64_max, saturating_sub}
use clob_dex.Order.{Side, bid, ask, sequence_number}
use clob_dex.Indexer.{Trade, BookDelta}
use clob_dex.Indexer.Derive.{MarketState, ObservedInstruction, new_context, diff_side}

-- A bid taker walks asks upward, an ask taker bids downward.
unfoldable pub ranked : Side → ℕ → ℕ
ranked bid price = price
ranked ask price = u64_max - price

-- The order of the tape's keys, a rank and a sequence number.
unfoldable pub goes_first : Trade → Trade → Bool
goes_first a b =
    let p = ranked a.taker_side a.price_in_ticks in
    let q = ranked b.taker_side b.price_in_ticks in
    ltb p q || p == q && leb (sequence_number a.maker_order_id) (sequence_number b.maker_order_id)

abbrev pub insert_trade : Trade → List Trade → List Trade
insert_trade a [] = a ∷ []
insert_trade a (b ∷ bs) = if goes_first a b then a ∷ b ∷ bs else b ∷ insert_trade a bs

-- `sort_by_key`, which is stable.
abbrev pub sort_trades : List Trade → List Trade
sort_trades [] = []
sort_trades (a ∷ as') = insert_trade a (sort_trades as')

unfoldable pub derive : MarketState → MarketState → List ObservedInstruction → ℕ → BookDelta
derive before after instructions slot =
    let c = new_context instructions in
    let start : BookDelta = record {
      trades = [];
      removals = [];
      posted = [];
      fees_earned =
          saturating_sub after.header.collected_quote_lot_fees
            before.header.collected_quote_lot_fees;
    } in
    let d = diff_side before after ask c slot (diff_side before after bid c slot start) in
    record d { trades = sort_trades d.trades }
