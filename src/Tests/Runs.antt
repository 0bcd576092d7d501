-- ===== src/Tests/Runs.antt =====
-- The small market's day as one run, from the blank account to a cancelled order.
use clob_dex.Prelude.{refl, arith}
use clob_dex.Engine.Conserved.Run.{
  Reaches, opened, stepped, placed, seated, deposited, cancelled, Solvent, reached-Solvent,
}
use clob_dex.Tests.Market as Market
use clob_dex.Tests.Market.{
  book_tree, seat_tree, blank, lots, fees, alice, bob, opened_lem, one_seat, one_seat_lem,
  two_seats, two_seats_lem, funded, funded_lem,
}
use clob_dex.Tests.Trading.{
  both_funded, both_funded_lem, ask_id, ask_outcome, asked, asked_lem, buy_outcome, bought,
  bought_lem, ask_packet, buy_packet, pulled, pulled_lem,
}
use clob_dex.Tests.Facts.{alice-Claimed, alice_still, bob-Claimed, bob_still}

abbrev Day : Type 0
Day = Reaches book_tree seat_tree 2 pulled

day : Day
day =
    stepped 2 bought pulled
      (placed 1 asked bought 2 buy_packet buy_outcome
        (placed 0 both_funded asked 1 ask_packet ask_outcome
          (stepped 0 funded both_funded
            (stepped 0 two_seats funded
              (stepped 0 one_seat two_seats
                (stepped 0 Market.opened one_seat
                  (opened blank Market.opened lots fees refl opened_lem)
                  (seated one_seat alice 1 one_seat_lem))
                (seated two_seats bob 2 two_seats_lem))
              (deposited funded 1 50 0 alice-Claimed funded_lem))
            (deposited both_funded 2 0 200 bob-Claimed both_funded_lem))
          alice_still asked_lem)
        bob_still bought_lem)
      (cancelled pulled 1 ask_id 6 pulled_lem)

reached-Solvent_example : Solvent book_tree seat_tree 2 pulled
reached-Solvent_example = reached-Solvent book_tree seat_tree 2 pulled day (omega arith)
