-- ===== src/Engine/Fill.antt =====
-- crates/clob-engine/src/fill.rs: what a match produced. The observer is the one that collects the
-- fills in a list.
use clob_dex.Prelude.{Bool, not, Option, none}
use clob_dex.Quantities.{Ticks, BaseLots, QuoteLots, is_zero}
use clob_dex.Order.{FifoOrderId}
use clob_dex.Engine.Seats.{SeatIndex}

pub record Fill : Type 0 where
  pub maker_order_id : FifoOrderId
  pub maker_seat : SeatIndex
  pub taker_seat : SeatIndex
  pub price_in_ticks : Ticks
  pub base_lots_filled : BaseLots
  pub quote_lots_filled : QuoteLots
  pub fee_in_quote_lots : QuoteLots
  pub maker_base_lots_remaining : BaseLots

pub data MatchStop : Type 0 where
  fully_filled price_limit match_limit book_empty insufficient_funds did_not_cross : MatchStop

pub record OrderOutcome : Type 0 where
  pub order_id : Option FifoOrderId
  pub base_lots_filled : BaseLots
  pub quote_lots_filled : QuoteLots
  pub fee_in_quote_lots : QuoteLots
  pub base_lots_posted : BaseLots
  pub base_lots_self_traded : BaseLots
  pub stop : MatchStop

unfoldable pub empty_outcome : MatchStop → OrderOutcome
empty_outcome stop = record {
  order_id = none;
  base_lots_filled = 0;
  quote_lots_filled = 0;
  fee_in_quote_lots = 0;
  base_lots_posted = 0;
  base_lots_self_traded = 0;
  stop = stop;
}

unfoldable pub did_fill : OrderOutcome → Bool
did_fill o = not (is_zero o.base_lots_filled)

unfoldable pub did_post : OrderOutcome → Bool
did_post o = not (is_zero o.base_lots_posted)
