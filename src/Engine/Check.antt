-- ===== src/Engine/Check.antt =====
-- crates/clob-engine/src/market/mod.rs: `check_conservation`, which the engine's own tests run after
-- each operation.
pub mod Sums
pub mod Totals
pub mod Passes
pub mod Arenas
use clob_dex.Prelude.{
  ℕ, ◌+◌, Bool, not, ◌⊎◌, inl, inr, Option, none, some, List, [], ◌∷◌, ◌==◌, if◌then◌else◌,
}
use clob_dex.Quantities.{BaseLots, QuoteLots, saturating_add}
use clob_dex.Tree.Arena.Check.{Invariant}
use clob_dex.Book.{BookEntry, BookTree}
use clob_dex.Book.Check.{book_check, and_then}
use clob_dex.Engine.Error.{Result, ok, err}
use clob_dex.Engine.Trader.{TraderState, total_base_lots, total_quote_lots}
use clob_dex.Engine.Seats.{SeatTree, state}
use clob_dex.Engine.Market.{Market, quote_value}
use clob_dex.Engine.Conserved.{SeatEntry, owner}

pub data ConservationError : Type 0 where
  base_not_conserved : ConservationError
  quote_not_conserved : ConservationError
  locked_base_mismatch : ConservationError
  locked_quote_mismatch : ConservationError
  orphaned_order : ConservationError
  book : Invariant → ConservationError

-- The four running totals over the seats.
pub record SeatTotals : Type 0 where
  pub base_total : BaseLots
  pub quote_total : QuoteLots
  pub base_locked : BaseLots
  pub quote_locked : QuoteLots

pub seat_loop : SeatTotals → List SeatEntry → SeatTotals
unfolding total_base_lots total_quote_lots
seat_loop s [] = s
seat_loop s (e ∷ es) =
    seat_loop
      (record {
        base_total = saturating_add s.base_total (total_base_lots e.value);
        quote_total = saturating_add s.quote_total (total_quote_lots e.value);
        base_locked = saturating_add s.base_locked e.value.base_lots_locked;
        quote_locked = saturating_add s.quote_locked e.value.quote_lots_locked;
      })
      es

abbrev pub no_totals : SeatTotals
no_totals = record { base_total = 0; quote_total = 0; base_locked = 0; quote_locked = 0 }

abbrev pub by_book : Option (Option Invariant) → Option (Option ConservationError)
by_book none = none
by_book (some none) = some none
by_book (some (some e)) = some (some (book e))

-- `tree_check` is the `check` of a book's tree. Of the answers of the loops, `inr` is the total.
module _ {T U : Type 0} (t : BookTree T) (u : SeatTree U)
    (tree_check : T → Option (Option Invariant)) where
  pub ask_loop : Market T U → BaseLots → List BookEntry → ConservationError ⊎ BaseLots
  ask_loop m total [] = inr total
  ask_loop m total (e ∷ es) =
      let rest = ask_loop m (saturating_add total e.value.num_base_lots) es in
      elim (state u m.traders (owner e.value)) [ err _ ↦ inl orphaned_order | ok _ ↦ rest ]

  pub bid_loop : Market T U → QuoteLots → List BookEntry → ConservationError ⊎ QuoteLots
  bid_loop m total [] = inr total
  bid_loop m total (e ∷ es) = elim (state u m.traders (owner e.value)) [
    | err _ ↦ inl orphaned_order
    | ok _ ↦ elim (quote_value t u m e.key.price_in_ticks e.value.num_base_lots) [
      | err _ ↦ inl locked_quote_mismatch
      | ok value ↦ bid_loop m (saturating_add total value) es
    ]
  ]

  abbrev pub check_orders : Market T U → SeatTotals → Option ConservationError
  check_orders m s = elim (ask_loop m 0 (t.entries m.book.asks)) [
    | inl e ↦ some e
    | inr resting_base ↦ elim (bid_loop m 0 (t.entries m.book.bids)) [
      | inl e ↦ some e
      | inr resting_quote ↦
          if not (resting_base == s.base_locked)
          then some locked_base_mismatch
          else if not (resting_quote == s.quote_locked)
          then some locked_quote_mismatch
          else none
    ]
  ]

  abbrev pub check_totals : Market T U → SeatTotals → Option ConservationError
  check_totals m s =
      if not (s.base_total == m.header.base_lots_deposited)
      then some base_not_conserved
      else if not (
          saturating_add s.quote_total m.header.unclaimed_quote_lot_fees
          == m.header.quote_lots_deposited)
      then some quote_not_conserved
      else check_orders m s

  pub check_conservation : Market T U → Option (Option ConservationError)
  unfolding seat_loop ask_loop bid_loop
  check_conservation m =
      and_then (by_book (book_check t tree_check m.book))
        (some (check_totals m (seat_loop no_totals (u.entries m.traders))))
