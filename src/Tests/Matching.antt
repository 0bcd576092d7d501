-- ===== src/Tests/Matching.antt =====
-- The theorems on matching and on crossing at the small market.
use clob_dex.Prelude.{ℕ, ◌≡◌, refl, none, some, [], ◌∷◌}
use clob_dex.Quantities.{checked_add, checked_sub, min}
use clob_dex.Quantities.Lots.{quote_lots_for}
use clob_dex.Order.{bid, opposite, new_id, side_of, new_order, compare_id}
use clob_dex.Tree.Keyed.{get, set_key, remove}
use clob_dex.Book.{place, cancel, get_order, resize, best}
use clob_dex.Engine.Error.{ok}
use clob_dex.Engine.Fees.{fee_on}
use clob_dex.Engine.Trader.{
  lock_base, lock_quote, settle_locked_base, settle_locked_quote, credit_base, credit_quote,
  debit_base, debit_quote, has_nothing,
}
use clob_dex.Engine.Seats.{state, set_state, claim_seat, release_seat, index_of}
use clob_dex.Engine.Packet.{decrement_take, packet_lots}
use clob_dex.Engine.Fill.{empty_outcome, fully_filled}
use clob_dex.Engine.Market.{
  Market, deposit, quote_value, with_state, accrue_fee, market_claim_seat, market_release_seat,
}
use clob_dex.Engine.Matching.{
  start_tally, accepts, settle_states, leave_resting, taker_can_afford, settle_fill, apply_fill,
  fill_round, match_round, cross_loop, cross, Taker, Tally,
}
use clob_dex.Engine.Orders.{
  is_reject, slid_price, non_crossing_price, lock_backing, rest_or_reverse, post, place_post_only,
  place_packet, place_order,
}
use clob_dex.Engine.Matching.Honest.{Honest}
use clob_dex.Engine.Matching.Reasons.{Reason}
use clob_dex.Engine.Matching.Limit.{Counted}
use clob_dex.Engine.Matching.Rounds.{cross-Honest}
use clob_dex.Tree.{value_at}
use clob_dex.Engine.Conserved.{seats}
use clob_dex.Engine.Conserved.Seating.{release_seat-Conserved, Worthy}
use clob_dex.Engine.Orders.Touch.{NoBetter, non_crossing_price_lem}
use clob_dex.Engine.Orders.Uncrossed.{place_order-Uncrossed}
use clob_dex.Book.Uncrossed.{Uncrossed, Inside}
use clob_dex.Tests.Market.{
  Orders, Seated, book_tree, seat_tree, market_or, one_seat, two_seats, funded, alice,
}
use clob_dex.Tests.Trading.{both_funded, asked, bought, bought_lem, buy_packet, buy_outcome}
use clob_dex.Tests.Facts.{Holds, two_seats-Conserved, asked-Sound, bob_still, later}

abbrev buyer : Taker
buyer = record { seat = 2; side = bid; limit = some 6; behavior = decrement_take }

abbrev bought_tally : Tally
bought_tally = record {
  remaining = 0;
  base_lots_filled = 4;
  quote_lots_filled = 40;
  fee_in_quote_lots = 1;
  base_lots_self_traded = 0;
  fills =
      record {
        maker_order_id = record { price_in_ticks = 5; order_sequence_number = 0 };
        maker_seat = 1;
        taker_seat = 2;
        price_in_ticks = 5;
        base_lots_filled = 4;
        quote_lots_filled = 40;
        fee_in_quote_lots = 1;
        maker_base_lots_remaining = 6;
      }
      ∷ [];
}

passed : cross book_tree seat_tree asked buyer 4 8 ≡ ok (fully_filled, bought, bought_tally)
unfolding compare_id packet_lots place_order place_packet place_post_only non_crossing_price
    slid_price is_reject post lock_backing rest_or_reverse with_state state set_state quote_value
    quote_lots_for lock_base lock_quote checked_add checked_sub best new_id new_order place
    empty_outcome asked both_funded deposit two_seats one_seat funded market_claim_seat claim_seat
    cross cross_loop match_round accepts fill_round apply_fill settle_fill settle_states
    settle_locked_base settle_locked_quote credit_base credit_quote debit_base debit_quote
    accrue_fee leave_resting resize get_order get set_key side_of cancel remove taker_can_afford
    fee_on min opposite bought
passed = refl

cross-Honest_example :
    Honest book_tree seat_tree asked buyer 4 8 bought_tally
    × Reason book_tree seat_tree fully_filled buyer bought bought_tally
    × Counted book_tree seat_tree fully_filled buyer 8 asked (start_tally 4) bought bought_tally
cross-Honest_example =
    cross-Honest book_tree seat_tree asked bought buyer 4 8 bought_tally fully_filled
      asked-Sound.conserved bob_still passed

asked-Uncrossed : Uncrossed book_tree asked.book
unfolding asked
asked-Uncrossed = tt

place_order-Uncrossed_example : Uncrossed book_tree bought.book
place_order-Uncrossed_example =
    place_order-Uncrossed book_tree seat_tree asked bought 2 buy_packet buy_outcome
      asked-Sound.conserved bob_still later asked-Uncrossed bought_lem (λ q. cc) (λ q. cc)

slid : non_crossing_price book_tree seat_tree asked bid 7 ≡ some 4
unfolding compare_id packet_lots place_order place_packet place_post_only non_crossing_price
    slid_price is_reject post lock_backing rest_or_reverse with_state state set_state quote_value
    quote_lots_for lock_base lock_quote checked_add checked_sub best new_id new_order place
    empty_outcome asked both_funded deposit two_seats one_seat funded market_claim_seat claim_seat
    cross cross_loop match_round accepts fill_round apply_fill settle_fill settle_states
    settle_locked_base settle_locked_quote credit_base credit_quote debit_base debit_quote
    accrue_fee leave_resting resize get_order get set_key side_of cancel remove taker_can_afford
    fee_on min opposite
slid = refl

non_crossing_price_lem_example :
    Inside book_tree bid 4 asked.book
    × NoBetter bid 7 4
    × (Inside book_tree bid 7 asked.book → ◌≡◌ {A = ℕ} 4 7)
non_crossing_price_lem_example =
    non_crossing_price_lem book_tree seat_tree asked bid 7 4 asked-Sound.conserved.filed slid

unfoldable left_alone : Market Orders Seated
unfolding market_release_seat release_seat has_nothing compare_id packet_lots place_order
    place_packet place_post_only non_crossing_price slid_price is_reject post lock_backing
    rest_or_reverse with_state state set_state quote_value quote_lots_for lock_base lock_quote
    checked_add checked_sub best new_id new_order place empty_outcome asked both_funded deposit
    two_seats one_seat funded market_claim_seat claim_seat cross cross_loop match_round accepts
    fill_round apply_fill settle_fill settle_states settle_locked_base settle_locked_quote
    credit_base credit_quote debit_base debit_quote accrue_fee leave_resting resize get_order get
    set_key side_of cancel remove taker_can_afford fee_on min opposite
left_alone = market_or two_seats (market_release_seat book_tree seat_tree two_seats alice)

released : market_release_seat book_tree seat_tree two_seats alice ≡ ok left_alone
unfolding market_release_seat release_seat has_nothing compare_id packet_lots place_order
    place_packet place_post_only non_crossing_price slid_price is_reject post lock_backing
    rest_or_reverse with_state state set_state quote_value quote_lots_for lock_base lock_quote
    checked_add checked_sub best new_id new_order place empty_outcome asked both_funded deposit
    two_seats one_seat funded market_claim_seat claim_seat cross cross_loop match_round accepts
    fill_round apply_fill settle_fill settle_states settle_locked_base settle_locked_quote
    credit_base credit_quote debit_base debit_quote accrue_fee leave_resting resize get_order get
    set_key side_of cancel remove taker_can_afford fee_on min opposite left_alone
released = refl

nothing_rests : Worthy book_tree seat_tree two_seats
unfolding two_seats
nothing_rests = record { bids_worth = tt; asks_worth = tt }

release_seat-Conserved_example :
    Holds left_alone
    × (value_at (index_of seat_tree two_seats.traders alice) (seats book_tree seat_tree left_alone)
        ≡ none)
release_seat-Conserved_example =
    release_seat-Conserved book_tree seat_tree two_seats left_alone alice two_seats-Conserved
      nothing_rests released
