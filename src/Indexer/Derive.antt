-- ===== src/Indexer/Derive.antt =====
-- crates/clob-indexer/src/derive.rs: the trade tape from two snapshots of the book, with the parts of
-- crates/clob-client/src/state.rs and decode.rs that it reads. A snapshot keeps its header and its
-- two sides; the account preamble, the size class and the seats are not read here.
use clob_dex.Prelude.{
  ℕ, Bool, true, false, ◌&&◌, ◌||◌, Option, none, some, List, [], ◌∷◌, ◌++◌, ◌==◌, if◌then◌else◌,
}
use clob_dex.Quantities.{BaseLots, QuoteLots, u64_max, is_zero, saturating_sub}
use clob_dex.Quantities.Lots.{LotConfig, quote_lots_for}
use clob_dex.Order.{Side, bid, ask, opposite, FifoOrderId}
use clob_dex.Engine.Market.{MarketHeader}
use clob_dex.Engine.Packet.{OrderPacket, can_take, packet_side}
use clob_dex.Engine.Seats.{SeatIndex}
use clob_dex.Indexer.{Trade, Removal, cancelled, self_traded, BookDelta}

pub record BookOrder : Type 0 where
  pub id : FifoOrderId
  pub trader_index : SeatIndex
  pub num_base_lots : BaseLots

pub record MarketState : Type 0 where
  pub header : MarketHeader
  pub bids : List BookOrder
  pub asks : List BookOrder

abbrev pub side_orders : MarketState → Side → List BookOrder
side_orders m bid = m.bids
side_orders m ask = m.asks

-- The instructions that the derivation tells apart; `other` stands for those that neither take nor
-- cancel. A batch keeps its packets.
pub data ClobInstruction : Type 0 where
  place_order_packet : OrderPacket → ClobInstruction
  cancel_order_id reduce_order_id : FifoOrderId → ClobInstruction
  cancel_all_orders : Side → ClobInstruction
  swap : Side → ClobInstruction
  batch_update : List FifoOrderId → List OrderPacket → ClobInstruction
  other : ClobInstruction

-- The side of the first packet that can take.
unfoldable pub first_taking : List OrderPacket → Option Side
first_taking [] = none
first_taking (p ∷ ps) =
    let rest = first_taking ps in if can_take p then some (packet_side p) else rest

unfoldable pub taker_side : ClobInstruction → Option Side
unfolding first_taking
taker_side (place_order_packet packet) = if can_take packet then some (packet_side packet) else none
taker_side (cancel_order_id _) = none
taker_side (reduce_order_id _) = none
taker_side (cancel_all_orders _) = none
taker_side (swap side) = some side
taker_side (batch_update _ packets) = first_taking packets
taker_side other = none

pub record ObservedInstruction : Type 0 where
  pub instruction : ClobInstruction
  pub seat : Option SeatIndex

pub record Taker : Type 0 where
  pub side : Side
  pub seat : Option SeatIndex

pub record Context : Type 0 where
  pub takers : List Taker
  pub cancelled_ids : List FifoOrderId
  pub cancel_all_sides : List Side

abbrev pub same_side : Side → Side → Bool
same_side bid bid = true
same_side bid ask = false
same_side ask bid = false
same_side ask ask = true

abbrev pub same_id : FifoOrderId → FifoOrderId → Bool
same_id a b =
    a.price_in_ticks == b.price_in_ticks && a.order_sequence_number == b.order_sequence_number

abbrev pub same_seat : Option SeatIndex → Option SeatIndex → Bool
same_seat none none = true
same_seat none (some b) = false
same_seat (some a) none = false
same_seat (some a) (some b) = a == b

unfoldable pub with_taker : Option Side → Option SeatIndex → List Taker → List Taker
with_taker none seat takers = takers
with_taker (some side) seat takers = record { side = side; seat = seat } ∷ takers

unfoldable pub ids_named : ClobInstruction → List FifoOrderId → List FifoOrderId
ids_named (cancel_order_id id) ids = id ∷ ids
ids_named (reduce_order_id id) ids = id ∷ ids
ids_named _ ids = ids

unfoldable pub sides_cleared : ClobInstruction → List Side → List Side
sides_cleared (cancel_all_orders side) sides = side ∷ sides
sides_cleared _ sides = sides

-- `Context::new`
unfoldable pub new_context : List ObservedInstruction → Context
unfolding with_taker ids_named sides_cleared
new_context [] = record { takers = []; cancelled_ids = []; cancel_all_sides = [] }
new_context (o ∷ os) =
    let c = new_context os in
    record {
      takers = with_taker (taker_side o.instruction) o.seat c.takers;
      cancelled_ids = ids_named o.instruction c.cancelled_ids;
      cancel_all_sides = sides_cleared o.instruction c.cancel_all_sides;
    }

pub data TakerEffect : Type 0 where
  fill self_trade : TakerEffect

-- The first taker on the opposite side, and whether it owned the liquidity.
unfoldable pub effect_of : List Taker → Side → SeatIndex → Option TakerEffect
effect_of [] side owner = none
effect_of (k ∷ ks) side owner =
    let rest = effect_of ks side owner in
    if same_side k.side (opposite side)
    then some (if same_seat k.seat (some owner) then self_trade else fill)
    else rest

unfoldable pub consumed_by_taker : Context → Side → SeatIndex → Option TakerEffect
unfolding effect_of
consumed_by_taker c side owner = effect_of c.takers side owner

crossing : List Taker → Side → List (Option SeatIndex)
crossing [] side = []
crossing (k ∷ ks) side =
    let rest = crossing ks side in if same_side k.side (opposite side) then k.seat ∷ rest else rest

all_same : Option SeatIndex → List (Option SeatIndex) → Bool
all_same first [] = true
all_same first (s ∷ ss) = same_seat s first && all_same first ss

agreed : List (Option SeatIndex) → Option SeatIndex
agreed [] = none
agreed (first ∷ rest) = if all_same first rest then first else none

-- `Context::taker_seat`
unfoldable pub context_taker_seat : Context → Side → Option SeatIndex
unfolding crossing all_same agreed
context_taker_seat c side = agreed (crossing c.takers side)

abbrev pub any_id : FifoOrderId → List FifoOrderId → Bool
any_id id [] = false
any_id id (j ∷ ids) = same_id j id || any_id id ids

abbrev pub any_side : Side → List Side → Bool
any_side side [] = false
any_side side (s ∷ ss) = same_side s side || any_side side ss

unfoldable pub explicitly_cancelled : Context → FifoOrderId → Bool
explicitly_cancelled c id = any_id id c.cancelled_ids

unfoldable pub cleared : Context → Side → Bool
cleared c side = any_side side c.cancel_all_sides

-- `index(orders).get(&id)`: of two orders under one id the later is kept.
unfoldable pub indexed : FifoOrderId → List BookOrder → Option BookOrder
indexed id [] = none
indexed id (o ∷ os) = elim (indexed id os) [
  | some p ↦ some p
  | none ↦ if same_id o.id id then some o else none
]

unfoldable pub lots_or_zero : Option BookOrder → BaseLots
lots_or_zero none = 0
lots_or_zero (some o) = o.num_base_lots

-- The size of an order that a later snapshot of its side does not show.
unfoldable pub removed_from : List BookOrder → BookOrder → BaseLots
unfolding lots_or_zero
removed_from after o = saturating_sub o.num_base_lots (lots_or_zero (indexed o.id after))

unfoldable pub cancelled_removal : BookOrder → BaseLots → Removal
cancelled_removal o lots = record {
  order_id = o.id;
  seat = o.trader_index;
  base_lots = lots;
  reason = cancelled;
}

or_max : Option QuoteLots → QuoteLots
or_max none = u64_max
or_max (some q) = q

unfoldable pub trade : LotConfig → BookOrder → BaseLots → Side → ℕ → Option SeatIndex → Trade
unfolding or_max
trade lots o base maker_side slot taker_seat = record {
  slot = slot;
  price_in_ticks = o.id.price_in_ticks;
  base_lots = base;
  quote_lots = or_max (quote_lots_for lots o.id.price_in_ticks base);
  maker_order_id = o.id;
  maker_seat = o.trader_index;
  taker_seat = taker_seat;
  taker_side = opposite maker_side;
}

-- How a removed size is read: a trade or a removal.
pub data Reading : Type 0 where
  traded : Trade → Reading
  left : Removal → Reading

-- By whether the order was cancelled, and what a taker did to it otherwise.
unfoldable pub read_as :
    Bool → Option TakerEffect → MarketState → Side → Context → ℕ → BookOrder → BaseLots → Reading
read_as true effect before side c slot o removed = left (cancelled_removal o removed)
read_as false none before side c slot o removed = left (cancelled_removal o removed)
read_as false (some fill) before side c slot o removed =
    traded (trade before.header.lot_config o removed side slot (context_taker_seat c side))
read_as false (some self_trade) before side c slot o removed =
    left
      (record { order_id = o.id; seat = o.trader_index; base_lots = removed; reason = self_traded })

unfoldable pub read_removal : MarketState → Side → Context → ℕ → BookOrder → BaseLots → Reading
unfolding read_as
read_removal before side c slot o removed =
    read_as (explicitly_cancelled c o.id || cleared c side)
      (consumed_by_taker c side o.trader_index) before side c slot o removed

unfoldable pub push_reading : Reading → BookDelta → BookDelta
push_reading (traded x) d = record d { trades = d.trades ++ x ∷ [] }
push_reading (left x) d = record d { removals = d.removals ++ x ∷ [] }

-- The loop over the orders that were there before.
unfoldable pub removals_loop :
    MarketState → List BookOrder → Side → Context → ℕ → List BookOrder → BookDelta → BookDelta
removals_loop before after side c slot [] d = d
removals_loop before after side c slot (o ∷ os) d =
    let removed = removed_from after o in
    if is_zero removed
    then removals_loop before after side c slot os d
    else removals_loop before after side c slot os
        (push_reading (read_removal before side c slot o removed) d)

-- Only an order that was not there before is posted.
unfoldable pub push_posted : Option BookOrder → BookOrder → BookDelta → BookDelta
push_posted (some _) o d = d
push_posted none o d = record d {
  posted =
      d.posted
      ++ record { order_id = o.id; seat = o.trader_index; base_lots = o.num_base_lots } ∷ [];
}

unfoldable pub posted_loop : List BookOrder → List BookOrder → BookDelta → BookDelta
posted_loop before [] d = d
posted_loop before (o ∷ os) d = posted_loop before os (push_posted (indexed o.id before) o d)

unfoldable pub diff_side : MarketState → MarketState → Side → Context → ℕ → BookDelta → BookDelta
unfolding posted_loop
diff_side before after side c slot d =
    posted_loop (side_orders before side) (side_orders after side)
      (removals_loop before (side_orders after side) side c slot (side_orders before side) d)
