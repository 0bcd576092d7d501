-- ===== src/Engine/Conserved/FilledSides.antt =====
-- crates/clob-engine/src/market/matching.rs: a fill of an ask, and of a bid, keeps the invariant.
use clob_dex.Prelude.{
  ℕ, ◌+◌, ◌-◌, ◌*◌, ◌≤◌, ◌≡◌, ◌≢◌, subst, none, some, List, ◌==◌, if◌then◌else◌, arith,
}
use clob_dex.Order.{bid, ask, FifoOrderId, RestingOrder, side_of, compare_id}
use clob_dex.Tree.{value_at}
use clob_dex.Tree.Entries.{value_of}
use clob_dex.Book.{OrderBook, BookEntry, BookTree, tree_of}
use clob_dex.Book.Remove.{orders, other_side, Leaves, left_with, left_with-All}
use clob_dex.Book.Place.{Leaves-IsFiled}
use clob_dex.Engine.Error.{ok}
use clob_dex.Engine.Trader.{TraderState}
use clob_dex.Engine.Seats.{SeatTree, SeatIndex}
use clob_dex.Engine.Market.{Market, MarketHeader}
use clob_dex.Engine.Matching.{settle_states}
use clob_dex.Engine.Conserved.{
  base_of, quote_of, owner, total_base, total_quote, Owned, seats, bids, asks, per_lot, Conserved,
}
use clob_dex.Engine.Conserved.Unlocked.{locked_base-left, locked_quote-left}
use clob_dex.Engine.Conserved.TwoSeats.{
  both, value_at-both, total_base-both, total_quote-both, Owned-both,
}

module _ {T U : Type 0} (t : BookTree T) (u : SeatTree U) where
  module _ (m : Market T U) (c : Conserved t u m) (id : FifoOrderId) (order : RestingOrder)
      (fill gross fee : ℕ) (g : SeatIndex) (maker taker maker' taker' : TraderState)
      (distinct : owner order ≢ g) (at_maker : value_at (owner order) (seats t u m) ≡ some maker)
      (at_taker : value_at g (seats t u m) ≡ some taker) (small : fill ≤ order.num_base_lots)
      (worth : gross ≡ id.price_in_ticks * per_lot t u m * fill) (b' : OrderBook T) (s : U)
      (header : MarketHeader) (l : Leaves t m.book b' id order (order.num_base_lots - fill))
      (written : u.entries s
        ≡ both (seats t u m) (owner order) g maker maker' taker taker' distinct at_maker at_taker)
      (same_lots : header.lot_config ≡ m.header.lot_config)
      (same_base : header.base_lots_deposited ≡ m.header.base_lots_deposited)
      (same_quote : header.quote_lots_deposited ≡ m.header.quote_lots_deposited)
      (accrued : header.unclaimed_quote_lot_fees ≡ m.header.unclaimed_quote_lot_fees + fee) where
    still-Owned : value_at (owner order) (seats t u m) ≢ none
    still-Owned = ground (arith, at_maker)

    bases :
        total_base (u.entries s) + base_of maker + base_of taker
        ≡ total_base (seats t u m) + base_of maker' + base_of taker'
    bases = rw written (
        total_base-both (seats t u m) (owner order) g maker maker' taker taker' distinct at_maker
          at_taker)

    quotes :
        total_quote (u.entries s) + quote_of maker + quote_of taker
        ≡ total_quote (seats t u m) + quote_of maker' + quote_of taker'
    quotes = rw written (
        total_quote-both (seats t u m) (owner order) g maker maker' taker taker' distinct at_maker
          at_taker)

    reads :
        (j : SeatIndex)
        → value_at j (u.entries s) ≡ (
            if g == j
            then some taker'
            else if owner order == j
            then some maker'
            else value_at j (seats t u m))
    reads j = rw written (
        value_at-both (seats t u m) (owner order) g maker maker' taker taker' distinct at_maker
          at_taker j)

    still_both : (os : List BookEntry) → Owned (seats t u m) os → Owned (u.entries s) os
    still_both os o = rw written (
        Owned-both (seats t u m) (owner order) g maker maker' taker taker' distinct at_maker
          at_taker os o)

    others :
        (os : List BookEntry)
        → Owned (seats t u m) os
        → Owned (u.entries s) (left_with id order (order.num_base_lots - fill) os)
    others os o = still_both _ (
        left_with-All (λ y. value_at (owner y.value) (seats t u m) ≢ none) id order
          (order.num_base_lots - fill) os (λ y q. still-Owned) o)

    rest_of : order.num_base_lots - fill ≤ order.num_base_lots
    rest_of = omega arith

    pub settle_ask :
        side_of id ≡ ask
        → value_of compare_id id (asks t u m) ≡ some order
        → settle_states bid maker taker fill gross fee ≡ ok (maker', taker')
        → Conserved t u (record { header = header; traders = s; book = b' })
    unfolding settle_states
    settle_ask e found moved =
        let left =
          subst
            (λ x.
              orders t x b' ≡ left_with id order (order.num_base_lots - fill) (orders t x m.book))
            e l.side_left in
        let kept =
          subst (λ x. tree_of (other_side x) b' ≡ tree_of (other_side x) m.book) e l.other_kept in
        record {
          base_total = (ground (arith, bases, c.base_total));
          quote_total = (ground (arith, quotes, c.quote_total));
          base_backed = λ j x p. rw left (
              ground (
                arith,
                reads j,
                c.base_backed j x,
                c.base_backed (owner order) maker at_maker,
                c.base_backed g taker at_taker,
                locked_base-left j id order (order.num_base_lots - fill) (asks t u m) found rest_of,
              ));
          quote_backed = λ j x p.
              rw (kept, same_lots)
                (ground (
                  arith,
                  reads j,
                  c.quote_backed j x,
                  c.quote_backed (owner order) maker at_maker,
                  c.quote_backed g taker at_taker,
                ));
          bids_owned = rw kept (still_both _ c.bids_owned);
          asks_owned = rw left (others _ c.asks_owned);
          filed = Leaves-IsFiled t m.book b' id order (order.num_base_lots - fill) c.filed l;
        }

    pub settle_bid :
        side_of id ≡ bid
        → value_of compare_id id (bids t u m) ≡ some order
        → settle_states ask maker taker fill gross fee ≡ ok (maker', taker')
        → Conserved t u (record { header = header; traders = s; book = b' })
    unfolding settle_states
    settle_bid e found moved =
        let left =
          subst
            (λ x.
              orders t x b' ≡ left_with id order (order.num_base_lots - fill) (orders t x m.book))
            e l.side_left in
        let kept =
          subst (λ x. tree_of (other_side x) b' ≡ tree_of (other_side x) m.book) e l.other_kept in
        let back : order.num_base_lots - (order.num_base_lots - fill) ≡ fill = omega arith in
        record {
          base_total = (ground (arith, bases, c.base_total));
          quote_total = (ground (arith, quotes, c.quote_total));
          base_backed = λ j x p. rw kept (
              ground (
                arith,
                reads j,
                c.base_backed j x,
                c.base_backed (owner order) maker at_maker,
                c.base_backed g taker at_taker,
              ));
          quote_backed = λ j x p.
              rw (left, same_lots)
                (ground (
                  arith,
                  back,
                  reads j,
                  c.quote_backed j x,
                  c.quote_backed (owner order) maker at_maker,
                  c.quote_backed g taker at_taker,
                  locked_quote-left (per_lot t u m) j id order (order.num_base_lots - fill)
                      (bids t u m) found rest_of,
                ));
          bids_owned = rw left (others _ c.bids_owned);
          asks_owned = rw kept (still_both _ c.asks_owned);
          filed = Leaves-IsFiled t m.book b' id order (order.num_base_lots - fill) c.filed l;
        }
