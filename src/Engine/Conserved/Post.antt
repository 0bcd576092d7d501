-- ===== src/Engine/Conserved/Post.antt =====
-- Resting an order: its backing is locked, then it joins the book.
use mathlib.Core.Path.{subst₂}
use clob_dex.Prelude.{
  ℕ, ◌*◌, ◌≤◌, ◌≡◌, ◌≢◌, refl, subst, none, some, Option, List, ◌==◌, if◌then◌else◌, arith, inl,
  inr, Option-cases,
}
use clob_dex.Order.{Side, bid, ask, FifoOrderId, new_id, new_order, compare_id, max_sequence_number}
use clob_dex.Tree.{value_at, set_at}
use clob_dex.Tree.Entries.{
  sum_by-set_at, value_at-set_at, value_at-Live, sum_by-insert_entry, insert_entry-All,
}
use clob_dex.Book.{OrderBook, BookEntry, BookTree, place}
use clob_dex.Book.Place.{Rests, Rests-IsFiled, place_lem}
use clob_dex.Engine.Error.{ok, >>=-eq-ok}
use clob_dex.Engine.Trader.{TraderState, lock_base, lock_quote}
use clob_dex.Engine.Seats.{SeatTree, SeatIndex}
use clob_dex.Engine.Market.{Market, quote_value}
use clob_dex.Engine.Orders.{post, lock_backing, rest_or_reverse}
use clob_dex.Engine.Conserved.{
  base_of, quote_of, owner, ask_weight, bid_weight, Owned, seats, bids, asks, per_lot, Conserved,
}
use clob_dex.Engine.Conserved.OneSeat.{Owned-set_at, claimed-set_at, with_state_lem}
use clob_dex.Engine.Conserved.Unlocked.{quote_lots_for-value}

module _ {T U : Type 0} (t : BookTree T) (u : SeatTree U) where
  module _ (m : Market T U) (c : Conserved t u m) (seat : SeatIndex) (price size : ℕ)
      (st st' : TraderState) (s : U) (b' : OrderBook T)
      (seat_st : value_at seat (seats t u m) ≡ some st)
      (written : u.entries s ≡ set_at seat st' (seats t u m))
      (counter : m.book.next_sequence_number ≤ max_sequence_number) where
    mine : owner (new_order seat size) ≡ seat
    unfolding new_order
    mine = omega (arith, value_at-Live seat st (seats t u m) (u.well_formed m.traders).live seat_st)

    mine_base :
        (j : SeatIndex) (id : FifoOrderId)
        → ask_weight j id (new_order seat size) ≡ (if seat == j then size else 0)
    unfolding new_order
    mine_base j id = ground (arith, mine)

    mine_quote :
        (j : SeatIndex) (id : FifoOrderId)
        → bid_weight (per_lot t u m) j id (new_order seat size)
          ≡ (if seat == j then id.price_in_ticks * per_lot t u m * size else 0)
    unfolding new_order
    mine_quote j id = ground (arith, mine)

    still-Owned : (os : List BookEntry) → Owned (seats t u m) os → Owned (u.entries s) os
    still-Owned os o = rw written (Owned-set_at seat st st' _ os seat_st o)

    new_owned : value_at (owner (new_order seat size)) (u.entries s) ≢ none
    new_owned =
        rw (written, mine) (ground (arith, value_at-set_at seat seat st st' (seats t u m) seat_st))

    reads :
        (j : SeatIndex)
        → value_at j (u.entries s) ≡ (if seat == j then some st' else value_at j (seats t u m))
    reads j = rw written (value_at-set_at seat j st st' (seats t u m) seat_st)

    post_ask :
        lock_base st size ≡ ok st'
        → Rests t m.book b' ask (new_id ask price m.book.next_sequence_number) (new_order seat size)
        → Conserved t u (record m { traders = s; book = b' })
    unfolding lock_base
    post_ask moved r =
        let id = new_id ask price m.book.next_sequence_number in
        record {
          base_total = rw written (
              ground
                (arith, sum_by-set_at base_of seat st st' (seats t u m) seat_st, c.base_total));
          quote_total = rw written (
              ground
                (arith, sum_by-set_at quote_of seat st st' (seats t u m) seat_st, c.quote_total));
          base_backed = λ j x p. rw r.side_grown (
              ground (
                arith,
                reads j,
                mine_base j id,
                c.base_backed j x,
                c.base_backed seat st seat_st,
                sum_by-insert_entry compare_id (λ e. ask_weight j e.key e.value)
                    (record { handle = r.handle; key = id; value = new_order seat size })
                    (asks t u m),
              ));
          quote_backed = λ j x p.
              rw r.other_kept
                (ground (arith, reads j, c.quote_backed j x, c.quote_backed seat st seat_st));
          bids_owned = rw r.other_kept (still-Owned _ c.bids_owned);
          asks_owned = rw r.side_grown (
              insert_entry-All compare_id (λ y. value_at (owner y.value) (u.entries s) ≢ none) _ _
                new_owned (still-Owned _ c.asks_owned));
          filed = Rests-IsFiled t m.book b' ask price (new_order seat size) c.filed counter r;
        }

    post_bid :
        lock_quote st (price * per_lot t u m * size) ≡ ok st'
        → Rests t m.book b' bid (new_id bid price m.book.next_sequence_number) (new_order seat size)
        → Conserved t u (record m { traders = s; book = b' })
    unfolding lock_quote new_id
    post_bid moved r =
        let id = new_id bid price m.book.next_sequence_number in
        record {
          base_total = rw written (
              ground
                (arith, sum_by-set_at base_of seat st st' (seats t u m) seat_st, c.base_total));
          quote_total = rw written (
              ground
                (arith, sum_by-set_at quote_of seat st st' (seats t u m) seat_st, c.quote_total));
          base_backed = λ j x p.
              rw r.other_kept
                (ground (arith, reads j, c.base_backed j x, c.base_backed seat st seat_st));
          quote_backed = λ j x p. rw r.side_grown (
              ground (
                arith,
                reads j,
                mine_quote j id,
                c.quote_backed j x,
                c.quote_backed seat st seat_st,
                sum_by-insert_entry compare_id (λ e. bid_weight (per_lot t u m) j e.key e.value)
                    (record { handle = r.handle; key = id; value = new_order seat size })
                    (bids t u m),
              ));
          bids_owned = rw r.side_grown (
              insert_entry-All compare_id (λ y. value_at (owner y.value) (u.entries s) ≢ none) _ _
                new_owned (still-Owned _ c.bids_owned));
          asks_owned = rw r.other_kept (still-Owned _ c.asks_owned);
          filed = Rests-IsFiled t m.book b' bid price (new_order seat size) c.filed counter r;
        }

  -- `m'` is `m` with an order of `seat` newly resting under `id`.
  pub record Posted (m m' : Market T U) (seat : SeatIndex) (side : Side) (price size : ℕ)
      (id : FifoOrderId) : Type 0 where
    pub conserved : Conserved t u m'
    pub claimed :
        (j : SeatIndex) → value_at j (seats t u m) ≢ none → value_at j (seats t u m') ≢ none
    pub id_issued : id ≡ new_id side price m.book.next_sequence_number
    pub rests : Rests t m.book m'.book side id (new_order seat size)
    pub header_kept : m'.header ≡ m.header

  posted :
      (m : Market T U) (seat : SeatIndex) (side : Side) (price size : ℕ) (st st' : TraderState)
      (s : U) (b' : OrderBook T)
      → value_at seat (seats t u m) ≡ some st
      → u.entries s ≡ set_at seat st' (seats t u m)
      → Conserved t u (record m { traders = s; book = b' })
      → Rests t m.book b' side (new_id side price m.book.next_sequence_number) (new_order seat size)
      → Posted m
          (record m { traders = s; book = b' })
          seat
          side
          price
          size
          (new_id side price m.book.next_sequence_number)
  posted m seat side price size st st' s b' p written c r = record {
    conserved = c;
    claimed = λ j n. rw written (claimed-set_at seat st st' _ j p n);
    id_issued = refl;
    rests = r;
    header_kept = refl;
  }

  -- What locking the backing does, by the side.
  abbrev Locked : Side → Market T U → ℕ → ℕ → TraderState → TraderState → Type 0
  Locked ask m price size st st' = lock_base st size ≡ ok st'
  Locked bid m price size st st' = lock_quote st (price * per_lot t u m * size) ≡ ok st'

  lock_backing-eq-ok :
      (side : Side) (m : Market T U) {m₁ : Market T U} (price size : ℕ) (seat : SeatIndex)
      (st : TraderState)
      → value_at seat (seats t u m) ≡ some st
      → lock_backing t u side m price seat size ≡ ok m₁
      → (st' : TraderState) × (s : U) × Locked side m price size st st'
        × (m₁ ≡ record m { traders = s })
        × (u.entries s ≡ set_at seat st' (seats t u m))
  unfolding lock_backing quote_value
  lock_backing-eq-ok ask m price size seat st p e =
      with_state_lem u t m seat st (λ x. lock_base x size) p e
  lock_backing-eq-ok bid m price size seat st p e =
      let (v, ev, e') = >>=-eq-ok (quote_value t u m price size) _ e in
      let worth = quote_lots_for-value m.header price size {q = v} (ground arith) in
      let (st', s, change, same, written) =
        with_state_lem u t m seat st (λ x. lock_quote x v) p e' in
      (st', s, subst (λ x. lock_quote st x ≡ ok st') worth change, same, written)

  rest_or_reverse-eq-ok :
      (m : Market T U) {m' : Market T U} (seat : SeatIndex) (side : Side) (price size : ℕ)
      {id : FifoOrderId} (r : Option (FifoOrderId × OrderBook T))
      → rest_or_reverse t u m seat side price size r ≡ ok (id, m')
      → (b' : OrderBook T) × (r ≡ some (id, b')) × (m' ≡ record m { book = b' })
  unfolding rest_or_reverse
  rest_or_reverse-eq-ok m seat side price size (some (i, b)) e = (b, ground arith, ground arith)
  rest_or_reverse-eq-ok m seat side price size none e = absurd (ground arith)

  -- A successful post keeps the invariant and rests the whole size under the next id.
  pub post-Posted :
      (m m' : Market T U) (seat : SeatIndex) (side : Side) (price size : ℕ) (id : FifoOrderId)
      → Conserved t u m
      → value_at seat (seats t u m) ≢ none
      → m.book.next_sequence_number ≤ max_sequence_number
      → post t u m seat side price size ≡ ok (id, m')
      → Posted m m' seat side price size id
  unfolding post
  post-Posted m m' seat side price size id c claimed counter e =
      elim (Option-cases (value_at seat (seats t u m))) [
        | inl no_seat ↦ absurd (claimed no_seat)
        | inr (st, p) ↦
            let (m₁, e₁, e₂) = >>=-eq-ok (lock_backing t u side m price seat size) _ e in
            let (st', s, moved, same, written) =
              lock_backing-eq-ok side m price size seat st p e₁ in
            let (b', placed, same') =
              rest_or_reverse-eq-ok m₁ seat side price size
                (place t m₁.book side price (new_order seat size)) e₂ in
            let placed' =
              subst (λ x. place t x.book side price (new_order seat size) ≡ some (id, b')) same
                placed in
            elim (place_lem t m.book side price (new_order seat size) c.filed counter) [
              | inl (full, refused) ↦ absurd (cc)
              | inr (b, room, there, r) ↦
                  let same_id : new_id side price m.book.next_sequence_number ≡ id = ground arith in
                  let same_b : b ≡ b' = ground arith in
                  let same_m : record m { traders = s; book = b } ≡ m' = ground arith in
                  subst₂ (λ i x. Posted m x seat side price size i) same_id same_m
                    (posted m seat side price size st st' s b p written
                      (kept side st' s b st p written moved r) r)
            ]
      ]
    where
      kept :
          (side : Side) (st' : TraderState) (s : U) (b : OrderBook T) (st : TraderState)
          → value_at seat (seats t u m) ≡ some st
          → u.entries s ≡ set_at seat st' (seats t u m)
          → Locked side m price size st st'
          → Rests t m.book b side
              (new_id side price m.book.next_sequence_number)
              (new_order seat size)
          → Conserved t u (record m { traders = s; book = b })
      kept bid st' s b st p written moved r =
          post_bid m c seat price size st st' s b p written counter moved r
      kept ask st' s b st p written moved r =
          post_ask m c seat price size st st' s b p written counter moved r
