-- ===== src/Tests/Trading.antt =====
-- The second seat funds itself, the first rests an ask of 10 lots at 5 ticks, the second buys 4 of
-- them with a limit of 6, and the ask is reduced and cancelled.
use clob_dex.Prelude.{◌≡◌, refl, none, some, true}
use clob_dex.Quantities.{checked_add, checked_sub, min}
use clob_dex.Quantities.Lots.{quote_lots_for}
use clob_dex.Order.{bid, ask, opposite, new_id, side_of, new_order, compare_id, FifoOrderId}
use clob_dex.Tree.Keyed.{get, set_key, remove}
use clob_dex.Book.{place, cancel, get_order, resize, reduce, best, len, is_crossed}
use clob_dex.Engine.Error.{ok}
use clob_dex.Engine.Fees.{fee_on}
use clob_dex.Engine.Trader.{
  lock_base, unlock_base, lock_quote, settle_locked_base, settle_locked_quote, credit_base,
  credit_quote, debit_base, debit_quote, has_nothing,
}
use clob_dex.Engine.Seats.{state, set_state, claim_seat, release_seat}
use clob_dex.Engine.Packet.{OrderPacket, limit, post_only, reject, decrement_take, packet_lots}
use clob_dex.Engine.Fill.{OrderOutcome, empty_outcome, fully_filled, did_not_cross}
use clob_dex.Engine.Market.{
  Market, deposit, quote_value, with_state, unlock_on, unlock_backing, owner_of, accrue_fee,
  market_claim_seat, market_release_seat,
}
use clob_dex.Engine.Matching.{
  accepts, settle_states, leave_resting, taker_can_afford, settle_fill, apply_fill, fill_round,
  match_round, cross_loop, cross,
}
use clob_dex.Engine.Orders.{
  is_reject, slid_price, non_crossing_price, lock_backing, rest_or_reverse, post, place_post_only,
  post_remainder, place_packet, place_order, cancel_order, reduce_order, book_after_reduce,
}
use clob_dex.Tests.Market.{
  Orders, Seated, book_tree, seat_tree, market_of, market_or, two_seats, funded, one_seat, bob,
}

unfoldable pub both_funded : Market Orders Seated
unfolding deposit checked_add state set_state two_seats one_seat funded market_claim_seat claim_seat
both_funded = market_or funded (deposit book_tree seat_tree funded 2 0 200)

pub both_funded_lem : deposit book_tree seat_tree funded 2 0 200 ≡ ok both_funded
unfolding deposit checked_add state set_state two_seats one_seat funded market_claim_seat claim_seat
    both_funded
both_funded_lem = refl

abbrev pub ask_id : FifoOrderId
ask_id = record { price_in_ticks = 5; order_sequence_number = 0 }

abbrev pub ask_outcome : OrderOutcome
ask_outcome = record {
  order_id = some ask_id;
  base_lots_filled = 0;
  quote_lots_filled = 0;
  fee_in_quote_lots = 0;
  base_lots_posted = 10;
  base_lots_self_traded = 0;
  stop = did_not_cross;
}

abbrev pub ask_packet : OrderPacket
ask_packet = post_only ask 5 10 reject

unfoldable pub asked : Market Orders Seated
unfolding compare_id packet_lots place_order place_packet place_post_only non_crossing_price
    slid_price is_reject post lock_backing rest_or_reverse with_state state set_state quote_value
    quote_lots_for lock_base lock_quote checked_add checked_sub best new_id new_order place
    empty_outcome both_funded deposit two_seats one_seat funded market_claim_seat claim_seat
asked = market_of both_funded (place_order book_tree seat_tree both_funded 1 ask_packet)

pub asked_lem : place_order book_tree seat_tree both_funded 1 ask_packet ≡ ok (ask_outcome, asked)
unfolding compare_id packet_lots place_order place_packet place_post_only non_crossing_price
    slid_price is_reject post lock_backing rest_or_reverse with_state state set_state quote_value
    quote_lots_for lock_base lock_quote checked_add checked_sub best new_id new_order place
    empty_outcome asked both_funded deposit two_seats one_seat funded market_claim_seat claim_seat
asked_lem = refl

abbrev pub buy_outcome : OrderOutcome
buy_outcome = record {
  order_id = none;
  base_lots_filled = 4;
  quote_lots_filled = 40;
  fee_in_quote_lots = 1;
  base_lots_posted = 0;
  base_lots_self_traded = 0;
  stop = fully_filled;
}

abbrev pub buy_packet : OrderPacket
buy_packet = limit bid 6 4 decrement_take 8

unfoldable pub bought : Market Orders Seated
unfolding compare_id packet_lots place_order place_packet place_post_only non_crossing_price
    slid_price is_reject post lock_backing rest_or_reverse with_state state set_state quote_value
    quote_lots_for lock_base lock_quote checked_add checked_sub best new_id new_order place
    empty_outcome asked both_funded deposit two_seats one_seat funded market_claim_seat claim_seat
    cross cross_loop match_round accepts fill_round apply_fill settle_fill settle_states
    settle_locked_base settle_locked_quote credit_base credit_quote debit_base debit_quote
    accrue_fee leave_resting resize get_order get set_key side_of cancel remove taker_can_afford
    fee_on min opposite
bought = market_of asked (place_order book_tree seat_tree asked 2 buy_packet)

pub bought_lem : place_order book_tree seat_tree asked 2 buy_packet ≡ ok (buy_outcome, bought)
unfolding compare_id packet_lots place_order place_packet place_post_only non_crossing_price
    slid_price is_reject post lock_backing rest_or_reverse with_state state set_state quote_value
    quote_lots_for lock_base lock_quote checked_add checked_sub best new_id new_order place
    empty_outcome bought asked both_funded deposit two_seats one_seat funded market_claim_seat
    claim_seat cross cross_loop match_round accepts fill_round apply_fill settle_fill settle_states
    settle_locked_base settle_locked_quote credit_base credit_quote debit_base debit_quote
    accrue_fee leave_resting resize get_order get set_key side_of cancel remove taker_can_afford
    fee_on min opposite
bought_lem = refl

-- Reducing the ask by 2 leaves 4; cancelling it releases 6.
unfoldable pub reduced : Market Orders Seated
unfolding reduce_order reduce book_after_reduce compare_id packet_lots place_order place_packet
    place_post_only non_crossing_price slid_price is_reject post lock_backing rest_or_reverse
    with_state state set_state quote_value quote_lots_for lock_base lock_quote checked_add
    checked_sub best new_id new_order place empty_outcome bought asked both_funded deposit two_seats
    one_seat funded market_claim_seat claim_seat cross cross_loop match_round accepts fill_round
    apply_fill settle_fill settle_states settle_locked_base settle_locked_quote credit_base
    credit_quote debit_base debit_quote accrue_fee leave_resting resize get_order get set_key
    side_of cancel remove taker_can_afford fee_on min opposite unlock_backing unlock_on unlock_base
    owner_of
reduced = market_of bought (reduce_order book_tree seat_tree bought 1 ask_id 2)

pub reduced_lem : reduce_order book_tree seat_tree bought 1 ask_id 2 ≡ ok (2, reduced)
unfolding reduced reduce_order reduce book_after_reduce compare_id packet_lots place_order
    place_packet place_post_only non_crossing_price slid_price is_reject post lock_backing
    rest_or_reverse with_state state set_state quote_value quote_lots_for lock_base lock_quote
    checked_add checked_sub best new_id new_order place empty_outcome bought asked both_funded
    deposit two_seats one_seat funded market_claim_seat claim_seat cross cross_loop match_round
    accepts fill_round apply_fill settle_fill settle_states settle_locked_base settle_locked_quote
    credit_base credit_quote debit_base debit_quote accrue_fee leave_resting resize get_order get
    set_key side_of cancel remove taker_can_afford fee_on min opposite unlock_backing unlock_on
    unlock_base owner_of
reduced_lem = refl

unfoldable pub pulled : Market Orders Seated
unfolding cancel_order compare_id packet_lots place_order place_packet place_post_only
    non_crossing_price slid_price is_reject post lock_backing rest_or_reverse with_state state
    set_state quote_value quote_lots_for lock_base lock_quote checked_add checked_sub best new_id
    new_order place empty_outcome bought asked both_funded deposit two_seats one_seat funded
    market_claim_seat claim_seat cross cross_loop match_round accepts fill_round apply_fill
    settle_fill settle_states settle_locked_base settle_locked_quote credit_base credit_quote
    debit_base debit_quote accrue_fee leave_resting resize get_order get set_key side_of cancel
    remove taker_can_afford fee_on min opposite unlock_backing unlock_on unlock_base owner_of
pulled = market_of bought (cancel_order book_tree seat_tree bought 1 ask_id)

pub pulled_lem : cancel_order book_tree seat_tree bought 1 ask_id ≡ ok (6, pulled)
unfolding pulled cancel_order compare_id packet_lots place_order place_packet place_post_only
    non_crossing_price slid_price is_reject post lock_backing rest_or_reverse with_state state
    set_state quote_value quote_lots_for lock_base lock_quote checked_add checked_sub best new_id
    new_order place empty_outcome bought asked both_funded deposit two_seats one_seat funded
    market_claim_seat claim_seat cross cross_loop match_round accepts fill_round apply_fill
    settle_fill settle_states settle_locked_base settle_locked_quote credit_base credit_quote
    debit_base debit_quote accrue_fee leave_resting resize get_order get set_key side_of cancel
    remove taker_can_afford fee_on min opposite unlock_backing unlock_on unlock_base owner_of
pulled_lem = refl

-- A bid at zero ticks locks nothing, so its seat is released while the bid still rests.
abbrev free_packet : OrderPacket
free_packet = limit bid 0 3 decrement_take 8

unfoldable pub free_bid : Market Orders Seated
unfolding compare_id packet_lots post_remainder place_order place_packet place_post_only
    non_crossing_price slid_price is_reject post lock_backing rest_or_reverse with_state state
    set_state quote_value quote_lots_for lock_base lock_quote checked_add checked_sub best new_id
    new_order place empty_outcome asked both_funded deposit two_seats one_seat funded
    market_claim_seat claim_seat cross cross_loop match_round accepts fill_round apply_fill
    settle_fill settle_states settle_locked_base settle_locked_quote credit_base credit_quote
    debit_base debit_quote accrue_fee leave_resting resize get_order get set_key side_of cancel
    remove taker_can_afford fee_on min opposite
free_bid = market_of funded (place_order book_tree seat_tree funded 2 free_packet)

unfoldable pub orphaned : Market Orders Seated
unfolding market_release_seat release_seat has_nothing free_bid compare_id packet_lots
    post_remainder place_order place_packet place_post_only non_crossing_price slid_price is_reject
    post lock_backing rest_or_reverse with_state state set_state quote_value quote_lots_for
    lock_base lock_quote checked_add checked_sub best new_id new_order place empty_outcome asked
    both_funded deposit two_seats one_seat funded market_claim_seat claim_seat cross cross_loop
    match_round accepts fill_round apply_fill settle_fill settle_states settle_locked_base
    settle_locked_quote credit_base credit_quote debit_base debit_quote accrue_fee leave_resting
    resize get_order get set_key side_of cancel remove taker_can_afford fee_on min opposite
orphaned = market_or free_bid (market_release_seat book_tree seat_tree free_bid bob)

orphaned_bid :
    (market_release_seat book_tree seat_tree free_bid bob ≡ ok orphaned)
    × (len book_tree orphaned.book bid ≡ 1)
    × (seat_tree.len orphaned.traders ≡ 1)
unfolding market_release_seat release_seat has_nothing orphaned free_bid len compare_id packet_lots
    post_remainder place_order place_packet place_post_only non_crossing_price slid_price is_reject
    post lock_backing rest_or_reverse with_state state set_state quote_value quote_lots_for
    lock_base lock_quote checked_add checked_sub best new_id new_order place empty_outcome asked
    both_funded deposit two_seats one_seat funded market_claim_seat claim_seat cross cross_loop
    match_round accepts fill_round apply_fill settle_fill settle_states settle_locked_base
    settle_locked_quote credit_base credit_quote debit_base debit_quote accrue_fee leave_resting
    resize get_order get set_key side_of cancel remove taker_can_afford fee_on min opposite
orphaned_bid = (refl, refl, refl)

-- A limit order that may touch no order rests at a price that crosses, and the book stays crossed.
abbrev crossing_packet : OrderPacket
crossing_packet = limit bid 6 4 decrement_take 0

unfoldable pub crossing : Market Orders Seated
unfolding compare_id packet_lots post_remainder place_order place_packet place_post_only
    non_crossing_price slid_price is_reject post lock_backing rest_or_reverse with_state state
    set_state quote_value quote_lots_for lock_base lock_quote checked_add checked_sub best new_id
    new_order place empty_outcome asked both_funded deposit two_seats one_seat funded
    market_claim_seat claim_seat cross cross_loop match_round accepts fill_round apply_fill
    settle_fill settle_states settle_locked_base settle_locked_quote credit_base credit_quote
    debit_base debit_quote accrue_fee leave_resting resize get_order get set_key side_of cancel
    remove taker_can_afford fee_on min opposite
crossing = market_of asked (place_order book_tree seat_tree asked 2 crossing_packet)

left_crossed : is_crossed book_tree crossing.book ≡ true
unfolding is_crossed crossing compare_id packet_lots post_remainder place_order place_packet
    place_post_only non_crossing_price slid_price is_reject post lock_backing rest_or_reverse
    with_state state set_state quote_value quote_lots_for lock_base lock_quote checked_add
    checked_sub best new_id new_order place empty_outcome asked both_funded deposit two_seats
    one_seat funded market_claim_seat claim_seat cross cross_loop match_round accepts fill_round
    apply_fill settle_fill settle_states settle_locked_base settle_locked_quote credit_base
    credit_quote debit_base debit_quote accrue_fee leave_resting resize get_order get set_key
    side_of cancel remove taker_can_afford fee_on min opposite
left_crossed = refl
