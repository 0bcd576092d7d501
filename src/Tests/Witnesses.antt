-- ===== src/Tests/Witnesses.antt =====
-- The engine's theorems at the small market.
use clob_dex.Prelude.{false, length, ◌≤◌, ◌<◌, ℕ, ◌+◌, ◌≡◌, ◌≢◌, ◌⊎◌, true, arith}
use clob_dex.Engine.Market.{withdraw, collect_fees, Market}
use clob_dex.Engine.Conserved.{Keeps}
use clob_dex.Engine.Conserved.Funds.{withdraw-succeeds, collect_fees-succeeds}
use clob_dex.Tree.{nil, insert_entry}
use clob_dex.Tree.Keyed.{is_full}
use clob_dex.Engine.Error.{ok, err, seat_table_full}
use clob_dex.Engine.Trader.{no_funds}
use clob_dex.Engine.Seats.{SeatIndex, compare_key, claim_seat, index_of}
use clob_dex.Engine.Seats.Claim.{claim_seat_lem}
use clob_dex.Engine.Conserved.Seating.{claim_seat-Conserved}
use clob_dex.Engine.Conserved.Place.{
  place_order-Sound, cancel_order-Keeps, reduce_order-Keeps, Sound,
}
use clob_dex.Tests.Market.{
  Orders, Seated, book_tree, seat_tree, opened, alice, bob, one_seat, one_seat_lem,
}
use clob_dex.Tests.Trading.{
  asked, buy_packet, buy_outcome, bought, bought_lem, ask_id, reduced, reduced_lem, pulled,
  pulled_lem,
}
use clob_dex.Tests.Facts.{
  Holds, Claimed, opened-Conserved, asked-Sound, bob_still, later, bought-Sound, bob_funds,
  bob_funds_lem,
}

claim_seat-Conserved_example :
    Holds one_seat × Claimed 1 one_seat × ((j : ℕ) → Claimed j opened → Claimed j one_seat)
claim_seat-Conserved_example =
    claim_seat-Conserved book_tree seat_tree opened one_seat alice 1 opened-Conserved one_seat_lem

place_order-Sound_example : Sound book_tree seat_tree asked bought
place_order-Sound_example =
    place_order-Sound book_tree seat_tree asked bought 2 buy_packet buy_outcome
      asked-Sound.conserved bob_still later bought_lem

cancel_order-Keeps_example : Keeps book_tree seat_tree bought pulled
cancel_order-Keeps_example =
    cancel_order-Keeps book_tree seat_tree bought pulled 1 ask_id 6 bought-Sound.conserved
      pulled_lem

reduce_order-Keeps_example : Keeps book_tree seat_tree bought reduced
reduce_order-Keeps_example =
    reduce_order-Keeps book_tree seat_tree bought reduced 1 ask_id 2 2 bought-Sound.conserved
      reduced_lem

collect_fees-succeeds_example :
    (m' : Market Orders Seated) × (collect_fees book_tree seat_tree bought
      ≡ ok (bought.header.unclaimed_quote_lot_fees, m'))
    × (m'.header.unclaimed_quote_lot_fees ≡ 0)
    × (m'.header.quote_lots_deposited + bought.header.unclaimed_quote_lot_fees
        ≡ bought.header.quote_lots_deposited)
    × Holds m'
collect_fees-succeeds_example =
    collect_fees-succeeds book_tree seat_tree bought bought-Sound.conserved

withdraw-succeeds_example :
    (m' : Market Orders Seated) × (withdraw book_tree seat_tree bought 2 4 100 ≡ ok m') × Holds m'
withdraw-succeeds_example =
    withdraw-succeeds book_tree seat_tree bought 2 bob_funds 4 100 bought-Sound.conserved
      bob_funds_lem (omega arith) (omega arith)

claim_seat_lem_example :
    ((index_of seat_tree one_seat.traders bob ≢ nil)
      × (claim_seat seat_tree one_seat.traders bob
          ≡ ok (index_of seat_tree one_seat.traders bob, one_seat.traders)))
    ⊎ (((index_of seat_tree one_seat.traders bob ≡ nil)
          × (is_full seat_tree one_seat.traders ≡ true)
          × (seat_tree.capacity one_seat.traders ≤ length (seat_tree.entries one_seat.traders))
          × (claim_seat seat_tree one_seat.traders bob ≡ err seat_table_full))
        ⊎ ((h : SeatIndex) × (s : Seated) × (index_of seat_tree one_seat.traders bob ≡ nil)
            × (is_full seat_tree one_seat.traders ≡ false)
            × (length (seat_tree.entries one_seat.traders) < seat_tree.capacity one_seat.traders)
            × (claim_seat seat_tree one_seat.traders bob ≡ ok (h, s))
            × (seat_tree.entries s
                ≡ insert_entry compare_key
                    (record { handle = h; key = bob; value = no_funds })
                    (seat_tree.entries one_seat.traders))))
claim_seat_lem_example = claim_seat_lem seat_tree one_seat.traders bob
