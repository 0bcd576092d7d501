-- ===== src/Indexer/Attribution.antt =====
-- crates/clob-indexer/src/derive.rs: what puts an order on the tape.
use clob_dex.Prelude.{◌≡◌, false, some, List, [], ◌∷◌, All, ◌⊎◌, ◌≤◌}
use clob_dex.Quantities.{u64_max}
use clob_dex.Engine.Seats.{SeatIndex}
use clob_dex.Order.{opposite, FifoOrderId}
use clob_dex.Indexer.{Trade, BookDelta}
use clob_dex.Indexer.Derive.{
  BookOrder, MarketState, side_orders, Context, ObservedInstruction, consumed_by_taker, fill,
  explicitly_cancelled, cleared,
}
use clob_dex.Indexer.Takers.{Unnamed, Uncleared, TakenByAnother}

-- An order under the id `id` and of the seat `owner` is among them.
abbrev pub Rests : FifoOrderId → SeatIndex → List BookOrder → Type 0
Rests id owner [] = ⊥
Rests id owner (o ∷ os) = ((o.id ≡ id) × (o.trader_index ≡ owner)) ⊎ Rests id owner os

-- What the instructions and the earlier snapshot must say for liquidity to be read as traded.
pub record Justified (before : MarketState) (os : List ObservedInstruction) (x : Trade)
    : Type 0 where
  pub maker : Rests x.maker_order_id x.maker_seat (side_orders before (opposite x.taker_side))
  pub maker_price : x.price_in_ticks ≡ x.maker_order_id.price_in_ticks
  pub not_named : Unnamed x.maker_order_id os
  pub not_cleared : Uncleared (opposite x.taker_side) os
  pub taken : TakenByAnother x.taker_side x.maker_seat os

-- The same in the words of the context.
record Read (before : MarketState) (c : Context) (x : Trade) : Type 0 where
  maker : Rests x.maker_order_id x.maker_seat (side_orders before (opposite x.taker_side))
  maker_price : x.price_in_ticks ≡ x.maker_order_id.price_in_ticks
  not_cancelled : explicitly_cancelled c x.maker_order_id ≡ false
  not_cleared : cleared c (opposite x.taker_side) ≡ false
  taken : consumed_by_taker c (opposite x.taker_side) x.maker_seat ≡ some fill

AllRead : MarketState → Context → BookDelta → Type 0
AllRead before c d = All (Read before c) d.trades

-- The prices of a side are u64.
abbrev pub Priced : List BookOrder → Type 0
Priced = All λ o. o.id.price_in_ticks ≤ u64_max
