-- ===== src/Tests/Facts.antt =====
-- The small market keeps the invariant at every step.
use clob_dex.Prelude.{ℕ, ◌≤◌, ◌≡◌, ◌≢◌, refl, none, some, arith}
use clob_dex.Order.{max_sequence_number, opposite, new_id, side_of, new_order, compare_id}
use clob_dex.Engine.Trader.{
  TraderState, lock_base, lock_quote, settle_locked_base, settle_locked_quote, credit_base,
  credit_quote, debit_base, debit_quote,
}
use clob_dex.Tree.{value_at}
use clob_dex.Engine.Conserved.{seats, Conserved}
use clob_dex.Engine.Conserved.Funds.{initialize-Conserved, deposit-Conserved}
use clob_dex.Engine.Conserved.Seating.{claim_seat-Conserved}
use clob_dex.Engine.Conserved.Place.{place_order-Sound, Sound}
use clob_dex.Tests.Market.{
  Orders, Seated, book_tree, seat_tree, blank, opened, opened_lem, lots, fees, alice, bob, one_seat,
  one_seat_lem, two_seats, two_seats_lem, funded, funded_lem,
}
use clob_dex.Tests.Trading.{
  both_funded, both_funded_lem, ask_packet, ask_outcome, asked, asked_lem, buy_packet, buy_outcome,
  bought, bought_lem,
}
use clob_dex.Quantities.{checked_add, checked_sub, min}
use clob_dex.Quantities.Lots.{quote_lots_for}
use clob_dex.Tree.Keyed.{get, set_key, remove}
use clob_dex.Book.{place, cancel, get_order, resize, best}
use clob_dex.Engine.Fees.{fee_on}
use clob_dex.Engine.Seats.{state, set_state, claim_seat}
use clob_dex.Engine.Packet.{packet_lots}
use clob_dex.Engine.Fill.{empty_outcome}
use clob_dex.Engine.Market.{Market, deposit, quote_value, with_state, accrue_fee, market_claim_seat}
use clob_dex.Engine.Matching.{
  accepts, settle_states, leave_resting, taker_can_afford, settle_fill, apply_fill, fill_round,
  match_round, cross_loop, cross,
}
use clob_dex.Engine.Orders.{
  is_reject, slid_price, non_crossing_price, lock_backing, rest_or_reverse, post, place_post_only,
  place_packet, place_order,
}

abbrev pub Holds : Market Orders Seated → Type 0
Holds m = Conserved book_tree seat_tree m

abbrev pub Claimed : ℕ → Market Orders Seated → Type 0
Claimed h m = value_at h (seats book_tree seat_tree m) ≢ none

pub opened-Conserved : Holds opened
opened-Conserved = initialize-Conserved book_tree seat_tree blank opened lots fees opened_lem

pub one_seat-Conserved : Holds one_seat
one_seat-Conserved =
    (claim_seat-Conserved book_tree seat_tree opened one_seat alice 1 opened-Conserved
      one_seat_lem).0

pub two_seats-Conserved : Holds two_seats
two_seats-Conserved =
    (claim_seat-Conserved book_tree seat_tree one_seat two_seats bob 2 one_seat-Conserved
      two_seats_lem).0

pub alice-Claimed : Claimed 1 two_seats
unfolding two_seats
alice-Claimed q = cc

pub funded-Conserved : Holds funded
funded-Conserved =
    deposit-Conserved book_tree seat_tree two_seats funded 1 50 0 two_seats-Conserved alice-Claimed
      funded_lem

pub bob-Claimed : Claimed 2 funded
unfolding funded
bob-Claimed q = cc

pub both-Conserved : Holds both_funded
both-Conserved =
    deposit-Conserved book_tree seat_tree funded both_funded 2 0 200 funded-Conserved bob-Claimed
      both_funded_lem

pub alice_still : Claimed 1 both_funded
unfolding both_funded
alice_still q = cc

pub early : both_funded.book.next_sequence_number ≤ max_sequence_number
unfolding both_funded
early = omega arith

pub asked-Sound : Sound book_tree seat_tree both_funded asked
asked-Sound =
    place_order-Sound book_tree seat_tree both_funded asked 1 ask_packet ask_outcome both-Conserved
      alice_still early asked_lem

pub bob_still : Claimed 2 asked
unfolding asked
bob_still q = cc

pub later : asked.book.next_sequence_number ≤ max_sequence_number
unfolding asked
later = omega arith

pub bought-Sound : Sound book_tree seat_tree asked bought
bought-Sound =
    place_order-Sound book_tree seat_tree asked bought 2 buy_packet buy_outcome
      asked-Sound.conserved bob_still later bought_lem

abbrev pub bob_funds : TraderState
bob_funds = record {
  base_lots_free = 4;
  base_lots_locked = 0;
  quote_lots_free = 159;
  quote_lots_locked = 0;
}

pub bob_funds_lem : value_at 2 (seats book_tree seat_tree bought) ≡ some bob_funds
unfolding compare_id packet_lots place_order place_packet place_post_only non_crossing_price
    slid_price is_reject post lock_backing rest_or_reverse with_state state set_state quote_value
    quote_lots_for lock_base lock_quote checked_add checked_sub best new_id new_order place
    empty_outcome asked both_funded deposit two_seats one_seat funded market_claim_seat claim_seat
    cross cross_loop match_round accepts fill_round apply_fill settle_fill settle_states
    settle_locked_base settle_locked_quote credit_base credit_quote debit_base debit_quote
    accrue_fee leave_resting resize get_order get set_key side_of cancel remove taker_can_afford
    fee_on min opposite bought
bob_funds_lem = refl
