-- ===== src/Engine/Conserved/Unlocked.antt =====
-- crates/clob-engine/src/market: an order shrinks on its side, and its owner is unlocked for it.
use clob_dex.Prelude.{
  ℕ, ◌+◌, ◌-◌, ◌*◌, ◌≤◌, ◌≡◌, ◌≢◌, ap, subst, none, some, List, ◌==◌, if◌then◌else◌, arith,
}
use clob_dex.Quantities.Lots.{quote_lots_for, quote_lots_per_base_lot_per_tick}
use clob_dex.Order.{bid, ask, FifoOrderId, RestingOrder, side_of, compare_id}
use clob_dex.Tree.{value_at, set_at}
use clob_dex.Tree.Entries.{value_of, sum_by-set_at, value_at-set_at}
use clob_dex.Book.{OrderBook, BookEntry, BookTree, tree_of}
use clob_dex.Book.Remove.{orders, other_side, Leaves, left_with, sum_by-left_with, left_with-All}
use clob_dex.Book.Place.{Leaves-IsFiled}
use clob_dex.Engine.Error.{ok}
use clob_dex.Engine.Trader.{TraderState, unlock_base, unlock_quote}
use clob_dex.Engine.Seats.{SeatTree, SeatIndex}
use clob_dex.Engine.Market.{Market, MarketHeader}
use clob_dex.Engine.Conserved.{
  base_of, quote_of, owner, ask_weight, bid_weight, locked_base, locked_quote, seats, bids, asks,
  per_lot, Conserved,
}
use clob_dex.Engine.Conserved.OneSeat.{Owned-set_at}

-- The value of a bid's size is what `quote_value` answers for it.
pub quote_lots_for-value :
    (m : MarketHeader) (price lots : ℕ) {q : ℕ}
    → quote_lots_for m.lot_config price lots ≡ some q
    → q ≡ price * quote_lots_per_base_lot_per_tick m.lot_config * lots
unfolding quote_lots_for
quote_lots_for-value m price lots h = ground arith

-- What an order still locks once it is left with `rest`, in sizes and in values.
pub locked_base-left :
    (j : SeatIndex) (id : FifoOrderId) (order : RestingOrder) (rest : ℕ) (es : List BookEntry)
    → value_of compare_id id es ≡ some order
    → rest ≤ order.num_base_lots
    → locked_base j (left_with id order rest es)
        + (if owner order == j then order.num_base_lots - rest else 0)
      ≡ locked_base j es
locked_base-left j id order rest es p h =
    ground (arith, sum_by-left_with (ask_weight j) id order rest es (ground arith) p)

pub locked_quote-left :
    (k : ℕ) (j : SeatIndex) (id : FifoOrderId) (order : RestingOrder) (rest : ℕ)
    (es : List BookEntry)
    → value_of compare_id id es ≡ some order
    → rest ≤ order.num_base_lots
    → locked_quote k j (left_with id order rest es)
        + (if owner order == j then id.price_in_ticks * k * (order.num_base_lots - rest) else 0)
      ≡ locked_quote k j es
locked_quote-left k j id order rest es p h =
    let split : id.price_in_ticks * k * order.num_base_lots
        ≡ id.price_in_ticks * k * (order.num_base_lots - rest) + id.price_in_ticks * k * rest =
      grind arith in
    ground (arith, split, sum_by-left_with (bid_weight k j) id order rest es (ground arith) p)

module _ {T U : Type 0} (t : BookTree T) (u : SeatTree U) where
  module _ (m : Market T U) (c : Conserved t u m) (id : FifoOrderId) (order : RestingOrder)
      (rest : ℕ) (st : TraderState) (seat_st : value_at (owner order) (seats t u m) ≡ some st)
      (small : rest ≤ order.num_base_lots) where
    still : value_at (owner order) (seats t u m) ≢ none
    still = ground (arith, seat_st)

    pub take_off_ask :
        (b' : OrderBook T) (s : U) (st' : TraderState)
        → side_of id ≡ ask
        → value_of compare_id id (asks t u m) ≡ some order
        → unlock_base st (order.num_base_lots - rest) ≡ ok st'
        → u.entries s ≡ set_at (owner order) st' (seats t u m)
        → Leaves t m.book b' id order rest
        → Conserved t u (record m { traders = s; book = b' })
    unfolding unlock_base
    take_off_ask b' s st' e found change written l =
        let left =
          subst (λ x. orders t x b' ≡ left_with id order rest (orders t x m.book)) e l.side_left in
        let kept =
          subst (λ x. tree_of (other_side x) b' ≡ tree_of (other_side x) m.book) e l.other_kept in
        record {
          base_total = rw written (
              ground (
                arith,
                sum_by-set_at base_of (owner order) st st' (seats t u m) seat_st,
                c.base_total,
              ));
          quote_total = rw written (
              ground (
                arith,
                sum_by-set_at quote_of (owner order) st st' (seats t u m) seat_st,
                c.quote_total,
              ));
          base_backed = λ j x p. rw left (
              ground (
                arith,
                ap (value_at j) written,
                value_at-set_at (owner order) j st st' (seats t u m) seat_st,
                c.base_backed j x,
                c.base_backed (owner order) st seat_st,
                locked_base-left j id order rest (asks t u m) found small,
              ));
          quote_backed = λ j x p. rw kept (
              ground (
                arith,
                ap (value_at j) written,
                value_at-set_at (owner order) j st st' (seats t u m) seat_st,
                c.quote_backed j x,
                c.quote_backed (owner order) st seat_st,
              ));
          bids_owned =
              rw (written, kept) (Owned-set_at (owner order) st st' _ _ seat_st c.bids_owned);
          asks_owned =
              rw (written, left)
                (Owned-set_at (owner order) st st' _ _ seat_st (
                  left_with-All (λ y. value_at (owner y.value) (seats t u m) ≢ none) id order rest _
                    (λ y q. still) c.asks_owned));
          filed = Leaves-IsFiled t m.book b' id order rest c.filed l;
        }

    pub take_off_bid :
        (b' : OrderBook T) (s : U) (st' : TraderState)
        → side_of id ≡ bid
        → value_of compare_id id (bids t u m) ≡ some order
        → unlock_quote st (id.price_in_ticks * per_lot t u m * (order.num_base_lots - rest))
          ≡ ok st'
        → u.entries s ≡ set_at (owner order) st' (seats t u m)
        → Leaves t m.book b' id order rest
        → Conserved t u (record m { traders = s; book = b' })
    unfolding unlock_quote
    take_off_bid b' s st' e found change written l =
        let left =
          subst (λ x. orders t x b' ≡ left_with id order rest (orders t x m.book)) e l.side_left in
        let kept =
          subst (λ x. tree_of (other_side x) b' ≡ tree_of (other_side x) m.book) e l.other_kept in
        record {
          base_total = rw written (
              ground (
                arith,
                sum_by-set_at base_of (owner order) st st' (seats t u m) seat_st,
                c.base_total,
              ));
          quote_total = rw written (
              ground (
                arith,
                sum_by-set_at quote_of (owner order) st st' (seats t u m) seat_st,
                c.quote_total,
              ));
          base_backed = λ j x p. rw kept (
              ground (
                arith,
                ap (value_at j) written,
                value_at-set_at (owner order) j st st' (seats t u m) seat_st,
                c.base_backed j x,
                c.base_backed (owner order) st seat_st,
              ));
          quote_backed = λ j x p. rw left (
              ground (
                arith,
                ap (value_at j) written,
                value_at-set_at (owner order) j st st' (seats t u m) seat_st,
                c.quote_backed j x,
                c.quote_backed (owner order) st seat_st,
                locked_quote-left (per_lot t u m) j id order rest (bids t u m) found small,
              ));
          bids_owned =
              rw (written, left)
                (Owned-set_at (owner order) st st' _ _ seat_st (
                  left_with-All (λ y. value_at (owner y.value) (seats t u m) ≢ none) id order rest _
                    (λ y q. still) c.bids_owned));
          asks_owned =
              rw (written, kept) (Owned-set_at (owner order) st st' _ _ seat_st c.asks_owned);
          filed = Leaves-IsFiled t m.book b' id order rest c.filed l;
        }
