-- ===== src/Engine/Conserved.antt =====
-- crates/clob-engine/src/market/mod.rs: `check_conservation` as an invariant, with each seat's locked
-- funds equal to the value of that seat's own resting orders. The children prove that every
-- operation keeps it.
pub mod OneSeat
pub mod Unlocked
pub mod TakeOff
pub mod TwoSeats
pub mod FilledSides
pub mod Settle
pub mod Post
pub mod Cross
pub mod Place
pub mod FreeFunds
pub mod Funds
pub mod Seating
pub mod Run
pub mod Arenas
use clob_dex.Prelude.{
  ℕ, ◌+◌, ◌*◌, ◌≡◌, ◌≢◌, refl, ◌∙◌, none, some, List, All, sum_by, ◌==◌, if◌then◌else◌,
}
use clob_dex.Quantities.Lots.{quote_lots_per_base_lot_per_tick}
use clob_dex.Order.{FifoOrderId, RestingOrder}
use clob_dex.Tree.{Entry, value_at}
use clob_dex.Book.{OrderBook, BookEntry, BookTree}
use clob_dex.Book.Filed.{IsFiled}
use clob_dex.Engine.Trader.{TraderState}
use clob_dex.Engine.Seats.{SeatTree, SeatIndex, TraderKey, as_seat}
use clob_dex.Engine.Market.{Market}

abbrev pub SeatEntry : Type 0
SeatEntry = Entry TraderKey TraderState

abbrev pub base_of : TraderState → ℕ
base_of st = st.base_lots_free + st.base_lots_locked

abbrev pub quote_of : TraderState → ℕ
quote_of st = st.quote_lots_free + st.quote_lots_locked

abbrev pub owner : RestingOrder → SeatIndex
owner order = as_seat order.trader_index

-- The base lots that an ask locks at the seat `h`.
abbrev pub ask_weight : SeatIndex → FifoOrderId → RestingOrder → ℕ
ask_weight h id order = if owner order == h then order.num_base_lots else 0

-- The quote lots that a bid locks at the seat `h`, at `per_lot` quote lots per tick.
abbrev pub bid_weight : ℕ → SeatIndex → FifoOrderId → RestingOrder → ℕ
bid_weight per_lot h id order =
    if owner order == h then id.price_in_ticks * per_lot * order.num_base_lots else 0

-- The sizes, or the values, of one seat's orders on a side.
abbrev pub locked_base : SeatIndex → List BookEntry → ℕ
locked_base h = sum_by λ e. ask_weight h e.key e.value

abbrev pub locked_quote : ℕ → SeatIndex → List BookEntry → ℕ
locked_quote per_lot h = sum_by λ e. bid_weight per_lot h e.key e.value

abbrev pub total_base : List SeatEntry → ℕ
total_base = sum_by λ e. base_of e.value

abbrev pub total_quote : List SeatEntry → ℕ
total_quote = sum_by λ e. quote_of e.value

-- Every order's owner has a seat.
abbrev pub Owned : List SeatEntry → List BookEntry → Type 0
Owned seats = All λ e. value_at (owner e.value) seats ≢ none

module _ {T U : Type 0} (t : BookTree T) (u : SeatTree U) where
  abbrev pub seats : Market T U → List SeatEntry
  seats m = u.entries m.traders

  abbrev pub bids : Market T U → List BookEntry
  bids m = t.entries m.book.bids

  abbrev pub asks : Market T U → List BookEntry
  asks m = t.entries m.book.asks

  abbrev pub per_lot : Market T U → ℕ
  per_lot m = quote_lots_per_base_lot_per_tick m.header.lot_config

  pub record Conserved (m : Market T U) : Type 0 where
    pub base_total : total_base (seats m) ≡ m.header.base_lots_deposited
    pub quote_total :
        total_quote (seats m) + m.header.unclaimed_quote_lot_fees ≡ m.header.quote_lots_deposited
    pub base_backed :
        (h : SeatIndex) (st : TraderState)
        → value_at h (seats m) ≡ some st
        → st.base_lots_locked ≡ locked_base h (asks m)
    pub quote_backed :
        (h : SeatIndex) (st : TraderState)
        → value_at h (seats m) ≡ some st
        → st.quote_lots_locked ≡ locked_quote (per_lot m) h (bids m)
    pub bids_owned : Owned (seats m) (bids m)
    pub asks_owned : Owned (seats m) (asks m)
    pub filed : IsFiled t m.book

  -- `m'` comes from `m` by a step that keeps the invariant, the claimed seats, the configuration and
  -- the order counter.
  pub record Keeps (m m' : Market T U) : Type 0 where
    pub conserved : Conserved m'
    pub claimed : (j : SeatIndex) → value_at j (seats m) ≢ none → value_at j (seats m') ≢ none
    pub lots_kept : m'.header.lot_config ≡ m.header.lot_config
    pub fees_kept : m'.header.fees ≡ m.header.fees
    pub counter_kept : m'.book.next_sequence_number ≡ m.book.next_sequence_number

  pub Keeps-refl : (m : Market T U) → Conserved m → Keeps m m
  Keeps-refl m c = record {
    conserved = c;
    claimed = λ j p. p;
    lots_kept = refl;
    fees_kept = refl;
    counter_kept = refl;
  }

  pub Keeps-trans : (l m n : Market T U) → Keeps l m → Keeps m n → Keeps l n
  Keeps-trans l m n a b = record {
    conserved = b.conserved;
    claimed = λ j p. b.claimed j (a.claimed j p);
    lots_kept = b.lots_kept ∙ a.lots_kept;
    fees_kept = b.fees_kept ∙ a.fees_kept;
    counter_kept = b.counter_kept ∙ a.counter_kept;
  }
