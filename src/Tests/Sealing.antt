-- ===== src/Tests/Sealing.antt =====
-- The market on zeroed red-black arenas: it is opened, a seat is claimed and funded, and an ask rests.
use clob_dex.Prelude.{◌≡◌, refl, [], arith, none, some, ◌≢◌, All, subst, sym, ◌≤◌}
use clob_dex.Quantities.{checked_add, checked_sub, u64_max}
use clob_dex.Quantities.Lots.{validate, quote_lots_for}
use clob_dex.Order.{compare_id, new_id, new_order}
use clob_dex.Tree.{value_at}
use clob_dex.Tree.Arena.{
  RedBlackTree, alloc, find, find_loop, set_by_handle, get_by_handle, first, last, min_from,
  max_from, entry_at,
}
use clob_dex.Tree.Arena.Insert.{insert, descend, insert_new, attached, insert_fixup}
use clob_dex.Tree.Arena.Reach.{zeroed-IsSound}
use clob_dex.Tree.Arena.Sealed.{sealed, walked_lem}
use clob_dex.Tree.Arena.Sealed.Kept.{sealed_insert}
use clob_dex.Tree.Arena.Sealed.Filled.{sealed_set}
use clob_dex.Engine.Check.{check_conservation}
use clob_dex.Engine.Check.Passes.{InRange}
use clob_dex.Engine.Check.Arenas.{check_orders_arena, reached_passes}
use clob_dex.Tree.Arena.Shape.{leaf}
use clob_dex.Book.{is_empty, len, best, place}
use clob_dex.Engine.Conserved.{seats, Conserved}
use clob_dex.Engine.Conserved.Funds.{initialize-Conserved, deposit-Conserved}
use clob_dex.Engine.Conserved.Seating.{claim_seat-Conserved}
use clob_dex.Engine.Conserved.Arenas.{Orders, Seated, book_arenas, seat_arena}
use clob_dex.Engine.Conserved.Run.{Reaches, opened, stepped, placed, seated, deposited}
use clob_dex.Engine.Error.{Result, ok, err}
use clob_dex.Engine.Fees.{validate_fees}
use clob_dex.Engine.Trader.{no_funds, lock_base, lock_quote}
use clob_dex.Engine.Seats.{claim_seat, state, set_state}
use clob_dex.Engine.Market.{
  Market, new_header, validate_header, is_blank_header, initialize, market_claim_seat, deposit,
  with_state, quote_value,
}
use clob_dex.Engine.Packet.{packet_lots}
use clob_dex.Engine.Fill.{empty_outcome}
use clob_dex.Engine.Orders.{
  place_order, place_packet, place_post_only, non_crossing_price, slid_price, is_reject, post,
  lock_backing, rest_or_reverse,
}
use clob_dex.Tests.Trading.{ask_packet, ask_outcome}
use clob_dex.Tests.Market as Small
use clob_dex.Tests.Market.{lots, fees, alice}

abbrev zeroed : {K V : Type 0} → K → V → RedBlackTree K V
zeroed k v = record {
  root = 0;
  free_head = 0;
  bump = 0;
  len = 0;
  capacity = 64;
  nodes = λ _. record { left = 0; right = 0; parent = 0; color = 0; key = k; value = v };
}

abbrev zeroed_orders : Orders
zeroed_orders =
    let t =
      zeroed (record { price_in_ticks = 0; order_sequence_number = 0 })
        (record {
          trader_index = 0;
          num_base_lots = 0;
          last_valid_slot = 0;
          last_valid_unix_timestamp_in_seconds = 0;
        }) in
    (t, (∣ (leaf, [], zeroed-IsSound t (refl, refl, refl, refl)) ∣₁, omega arith))

abbrev zeroed_seats : Seated
zeroed_seats =
    let t = zeroed (record { bytes = [] }) no_funds in
    (t, (∣ (leaf, [], zeroed-IsSound t (refl, refl, refl, refl)) ∣₁, omega arith))

abbrev blank : Market Orders Seated
blank = record {
  header = Small.blank.header;
  traders = zeroed_seats;
  book = record { next_sequence_number = 0; bids = zeroed_orders; asks = zeroed_orders };
}

market_or : Market Orders Seated → Result (Market Orders Seated) → Market Orders Seated
market_or m (ok m') = m'
market_or m (err _) = m

market_of :
    {A : Type 0} → Market Orders Seated → Result (A × Market Orders Seated) → Market Orders Seated
market_of m (ok (_, m')) = m'
market_of m (err _) = m

abbrev ready : Market Orders Seated
ready = record blank { header = record blank.header { lot_config = lots; fees = fees } }

ready_lem : initialize book_arenas seat_arena blank lots fees ≡ ok ready
unfolding initialize new_header validate_header validate validate_fees is_blank_header is_empty len
ready_lem = refl

unfoldable manned : Market Orders Seated
unfolding market_of market_claim_seat claim_seat sealed_insert sealed insert descend insert_new
    attached insert_fixup alloc find
manned = market_of ready (market_claim_seat book_arenas seat_arena ready alice)

manned_lem : market_claim_seat book_arenas seat_arena ready alice ≡ ok (1, manned)
unfolding market_of market_claim_seat claim_seat sealed_insert sealed insert descend insert_new
    attached insert_fixup alloc find find_loop manned
manned_lem = refl

ready-Conserved : Conserved book_arenas seat_arena ready
ready-Conserved = initialize-Conserved book_arenas seat_arena blank ready lots fees ready_lem

alice_there : value_at 1 (seats book_arenas seat_arena manned) ≢ none
alice_there =
    (claim_seat-Conserved book_arenas seat_arena ready manned alice 1 ready-Conserved manned_lem).1

unfoldable stocked : Market Orders Seated
unfolding market_or deposit checked_add state set_state get_by_handle sealed_set set_by_handle
stocked = market_or manned (deposit book_arenas seat_arena manned 1 50 0)

stocked_lem : deposit book_arenas seat_arena manned 1 50 0 ≡ ok stocked
unfolding market_or deposit checked_add state set_state get_by_handle sealed_set set_by_handle
    stocked manned market_of market_claim_seat claim_seat sealed_insert sealed insert descend
    insert_new attached insert_fixup alloc find find_loop
stocked_lem = refl

unfoldable offered : Market Orders Seated
unfolding market_or deposit checked_add state set_state get_by_handle sealed_set set_by_handle
    stocked manned market_of market_claim_seat claim_seat sealed_insert sealed insert descend
    insert_new attached insert_fixup alloc find find_loop compare_id packet_lots place_order
    place_packet place_post_only non_crossing_price slid_price is_reject post lock_backing
    rest_or_reverse with_state quote_value quote_lots_for lock_base lock_quote checked_sub best
    new_id new_order place empty_outcome first last min_from max_from entry_at
offered = market_of stocked (place_order book_arenas seat_arena stocked 1 ask_packet)

offered_lem : place_order book_arenas seat_arena stocked 1 ask_packet ≡ ok (ask_outcome, offered)
unfolding market_or deposit checked_add state set_state get_by_handle sealed_set set_by_handle
    stocked manned market_of market_claim_seat claim_seat sealed_insert sealed insert descend
    insert_new attached insert_fixup alloc find find_loop compare_id packet_lots place_order
    place_packet place_post_only non_crossing_price slid_price is_reject post lock_backing
    rest_or_reverse with_state quote_value quote_lots_for lock_base lock_quote checked_sub best
    new_id new_order place empty_outcome first last min_from max_from entry_at offered
offered_lem = refl

-- A second claim of the key answers its seat.
stocked_again : market_claim_seat book_arenas seat_arena stocked alice ≡ ok (1, stocked)
unfolding market_or deposit checked_add state set_state get_by_handle sealed_set set_by_handle
    stocked manned market_of market_claim_seat claim_seat sealed_insert sealed insert descend
    insert_new attached insert_fixup alloc find find_loop
stocked_again = refl

stocked-Conserved : Conserved book_arenas seat_arena stocked
stocked-Conserved =
    deposit-Conserved book_arenas seat_arena manned stocked 1 50 0
      (claim_seat-Conserved book_arenas seat_arena ready manned alice 1 ready-Conserved
        manned_lem).0
      alice_there stocked_lem

alice_still_there : value_at 1 (seats book_arenas seat_arena stocked) ≢ none
alice_still_there =
    (claim_seat-Conserved book_arenas seat_arena stocked stocked alice 1 stocked-Conserved
      stocked_again).1

morning : Reaches book_arenas seat_arena 1 offered
morning =
    placed 0 stocked offered 1 ask_packet ask_outcome
      (stepped 0 manned stocked
        (stepped 0 ready manned (opened blank ready lots fees refl ready_lem)
          (seated manned alice 1 manned_lem))
        (deposited stocked 1 50 0 alice_there stocked_lem))
      alice_still_there offered_lem

no_bids : book_arenas.entries offered.book.bids ≡ []
unfolding market_or deposit checked_add state set_state get_by_handle sealed_set set_by_handle
    stocked manned market_of market_claim_seat claim_seat sealed_insert sealed insert descend
    insert_new attached insert_fixup alloc find find_loop compare_id packet_lots place_order
    place_packet place_post_only non_crossing_price slid_price is_reject post lock_backing
    rest_or_reverse with_state quote_value quote_lots_for lock_base lock_quote checked_sub best
    new_id new_order place empty_outcome first last min_from max_from entry_at offered
no_bids =
    walked_lem {cmp = compare_id} zeroed_orders.0 leaf []
      (zeroed-IsSound zeroed_orders.0 (refl, refl, refl, refl))

offered-InRange : InRange book_arenas seat_arena offered
unfolding market_or deposit checked_add state set_state get_by_handle sealed_set set_by_handle
    stocked manned market_of market_claim_seat claim_seat sealed_insert sealed insert descend
    insert_new attached insert_fixup alloc find find_loop compare_id packet_lots place_order
    place_packet place_post_only non_crossing_price slid_price is_reject post lock_backing
    rest_or_reverse with_state quote_value quote_lots_for lock_base lock_quote checked_sub best
    new_id new_order place empty_outcome first last min_from max_from entry_at offered
offered-InRange = record {
  base_deposited = omega arith;
  quote_deposited = omega arith;
  tick_size = omega arith;
  orders =
      subst (All λ e. (e.key.price_in_ticks ≤ u64_max) × (e.value.num_base_lots ≤ u64_max))
        (sym no_bids) tt;
}

reached_passes_example :
    check_conservation book_arenas seat_arena check_orders_arena offered ≡ some none
reached_passes_example = reached_passes 1 offered morning (omega arith) offered-InRange
