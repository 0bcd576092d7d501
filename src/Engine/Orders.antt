-- ===== src/Engine/Orders.antt =====
-- crates/clob-engine/src/market/orders.rs: place, cancel and reduce.
pub mod Touch
pub mod Uncrossed
use clob_dex.Prelude.{
  ℕ, zero, suc, ◌+◌, ◌-◌, Bool, true, false, not, ◌&&◌, Option, none, some, List, [], ◌∷◌, ◌==◌,
  leb, ltb, if◌then◌else◌,
}
use clob_dex.Quantities.{Ticks, BaseLots, is_zero, min, checked_add, checked_sub}
use clob_dex.Order.{Side, bid, ask, FifoOrderId, new_order}
use clob_dex.Book.{OrderBook, BookEntry, BookTree, place, get_order, cancel, reduce, best}
use clob_dex.Book.Depth.{iter_side}
use clob_dex.Engine.Error.{
  EngineError, Result, ok, err, ◌>>=◌, ◌>>◌, ok_or, fail_if, order_not_found, not_order_owner,
  zero_size, minimum_fill_not_met, post_only_no_room, post_only_would_cross, book_side_full,
}
use clob_dex.Engine.Trader.{TraderState, lock_base, lock_quote, unlock_base, unlock_quote}
use clob_dex.Engine.Seats.{SeatTree, SeatIndex, as_seat, state}
use clob_dex.Engine.Packet.{
  OrderPacket, limit, post_only, immediate_or_cancel, PostOnlyRejection, reject, slide, packet_lots,
}
use clob_dex.Engine.Fill.{OrderOutcome, MatchStop, did_not_cross, empty_outcome}
use clob_dex.Engine.Market.{Market, quote_value, with_state, unlock_backing, owner_of}
use clob_dex.Engine.Matching.{Taker, Tally, cross}

unfoldable pub is_reject : PostOnlyRejection → Bool
is_reject reject = true
is_reject slide = false

-- The price one tick inside the opposite touch. A bid at zero ticks is refused.
unfoldable pub slid_price : Side → Ticks → Ticks → Option Ticks
unfolding checked_add checked_sub
slid_price bid price touch =
    if leb touch price
    then elim (checked_sub touch 1) [ none ↦ none | some p ↦ if ltb 0 p then some p else none ]
    else some price
slid_price ask price touch = if leb price touch then checked_add touch 1 else some price

abbrev pub opposite_touch : Side → Side
opposite_touch bid = ask
opposite_touch ask = bid

module _ {T U : Type 0} (t : BookTree T) (u : SeatTree U) where
  unfoldable pub non_crossing_price : Market T U → Side → Ticks → Option Ticks
  unfolding slid_price
  non_crossing_price m side price = elim (best t m.book (opposite_touch side)) [
    | none ↦ some price
    | some entry ↦ slid_price side price entry.key.price_in_ticks
  ]

  unfoldable pub lock_backing :
      Side → Market T U → Ticks → SeatIndex → BaseLots → Result (Market T U)
  lock_backing ask m price seat size = with_state t u m seat (λ st. lock_base st size)
  lock_backing bid m price seat size = do
    cost ← quote_value t u m price size
    with_state t u m seat (λ st. lock_quote st cost)

  unlock_rejected : Side → Market T U → Ticks → SeatIndex → BaseLots → Result (Market T U)
  unlock_rejected ask m price seat size = with_state t u m seat (λ st. unlock_base st size)
  unlock_rejected bid m price seat size = do
    cost ← quote_value t u m price size
    with_state t u m seat (λ st. unlock_quote st cost)

  -- The order rests, or a full side reverses the lock and the rejection is the answer.
  unfoldable pub rest_or_reverse :
      Market T U
      → SeatIndex
      → Side
      → Ticks
      → BaseLots
      → Option (FifoOrderId × OrderBook T)
      → Result (FifoOrderId × Market T U)
  unfolding unlock_rejected
  rest_or_reverse m seat side price size (some (id, book)) = ok (id, record m { book = book })
  rest_or_reverse m seat side price size none = do
    _ ← unlock_rejected side m price seat size
    err book_side_full

  unfoldable pub post :
      Market T U → SeatIndex → Side → Ticks → BaseLots → Result (FifoOrderId × Market T U)
  post m seat side price size = do
    m₁ ← lock_backing side m price seat size
    rest_or_reverse m₁ seat side price size (place t m₁.book side price (new_order seat size))

  unfoldable pub place_post_only :
      Market T U
      → SeatIndex
      → Side
      → Ticks
      → BaseLots
      → PostOnlyRejection
      → Result (OrderOutcome × Market T U)
  unfolding empty_outcome is_reject
  place_post_only m seat side price_in_ticks size rejection = do
    price ← ok_or (non_crossing_price m side price_in_ticks) post_only_no_room
    fail_if (not (price == price_in_ticks) && is_reject rejection) post_only_would_cross
    (id, m') ← post m seat side price size
    ok (record (empty_outcome did_not_cross) { order_id = some id; base_lots_posted = size }, m')

  outcome_of : MatchStop → Tally → OrderOutcome
  outcome_of stop s = record {
    order_id = none;
    base_lots_filled = s.base_lots_filled;
    quote_lots_filled = s.quote_lots_filled;
    fee_in_quote_lots = s.fee_in_quote_lots;
    base_lots_posted = 0;
    base_lots_self_traded = s.base_lots_self_traded;
    stop = stop;
  }

  -- What a limit order did not fill rests at its own price.
  unfoldable pub post_remainder :
      Market T U → SeatIndex → Side → Ticks → MatchStop → Tally → Result (OrderOutcome × Market T U)
  unfolding outcome_of
  post_remainder m seat side price stop s = do
    (id, m') ← post m seat side price s.remaining
    ok (record (outcome_of stop s) { order_id = some id; base_lots_posted = s.remaining }, m')

  unfoldable pub place_packet :
      Market T U → SeatIndex → OrderPacket → Result (OrderOutcome × Market T U)
  unfolding outcome_of
  place_packet m seat (post_only side price size rejection) =
      place_post_only m seat side price size rejection
  place_packet m seat (limit side price size behavior match_limit) = do
    (stop, m', s) ←
        cross t u m (record { seat = seat; side = side; limit = some price; behavior = behavior })
          size match_limit
    if is_zero s.remaining
        then ok (outcome_of stop s, m')
        else post_remainder m' seat side price stop s
  place_packet m seat (immediate_or_cancel side price size minimum behavior match_limit) = do
    (stop, m', s) ←
        cross t u m (record { seat = seat; side = side; limit = price; behavior = behavior }) size
          match_limit
    fail_if (ltb s.base_lots_filled minimum) minimum_fill_not_met
    ok (outcome_of stop s, m')

  unfoldable pub place_order :
      Market T U → SeatIndex → OrderPacket → Result (OrderOutcome × Market T U)
  unfolding place_packet
  place_order m seat packet = do
    fail_if (is_zero (packet_lots packet)) zero_size
    _ ← state u m.traders seat
    place_packet m seat packet

  unfoldable pub cancel_order :
      Market T U → SeatIndex → FifoOrderId → Result (BaseLots × Market T U)
  unfolding owner_of
  cancel_order m seat id = do
    owner ← owner_of t u m id
    fail_if (not (owner == seat)) not_order_owner
    order ← ok_or (get_order t m.book id) order_not_found
    let size = order.num_base_lots
    m' ← unlock_backing t u m id seat size
    ok (size, record m' { book = (cancel t m'.book id).1 })

  -- The book's answer is not read: what is left of the book is.
  unfoldable pub book_after_reduce : OrderBook T → FifoOrderId → BaseLots → OrderBook T
  book_after_reduce b id lots = elim (reduce t b id lots) [ none ↦ b | some (_, b') ↦ b' ]

  unfoldable pub reduce_order :
      Market T U → SeatIndex → FifoOrderId → BaseLots → Result (BaseLots × Market T U)
  unfolding owner_of book_after_reduce
  reduce_order m seat id base_lots = do
    owner ← owner_of t u m id
    fail_if (not (owner == seat)) not_order_owner
    order ← ok_or (get_order t m.book id) order_not_found
    let removed = min order.num_base_lots base_lots
    m' ← unlock_backing t u m id seat removed
    ok (removed, record m' { book = book_after_reduce m'.book id removed })

  -- The best order of `seat` in the iteration's order.
  abbrev pub first_of_seat : SeatIndex → List BookEntry → Option FifoOrderId
  first_of_seat seat [] = none
  first_of_seat seat (e ∷ es) =
      if as_seat e.value.trader_index == seat then some e.key else first_of_seat seat es

  -- Counts what it cancelled from `cancelled`, with `left` more allowed.
  unfoldable pub cancel_for_seat_loop :
      ℕ → Market T U → SeatIndex → Side → ℕ → Result (ℕ × Market T U)
  cancel_for_seat_loop zero m seat side cancelled = ok (cancelled, m)
  cancel_for_seat_loop (suc left) m seat side cancelled =
      elim (first_of_seat seat (iter_side t m.book side)) [
        | none ↦ ok (cancelled, m)
        | some id ↦ elim (cancel_order m seat id) [
          | err e ↦ err e
          | ok (_, m') ↦ cancel_for_seat_loop left m' seat side (cancelled + 1)
        ]
      ]

  unfoldable pub cancel_orders_for_seat :
      Market T U → SeatIndex → Side → ℕ → Result (ℕ × Market T U)
  unfolding cancel_for_seat_loop
  cancel_orders_for_seat m seat side most = cancel_for_seat_loop most m seat side 0
