-- ===== src/Engine/Check/Passes.antt =====
-- crates/clob-engine/src/market/mod.rs: `check_conservation` accepts a conserved market.
use clob_dex.Prelude.{
  ℕ, ◌+◌, ◌*◌, ◌≤◌, ◌≡◌, ◌≢◌, refl, ap, ◌∙◌, none, some, Option, List, [], ◌∷◌, ◌==◌, All, All-imp,
  sum_by, inl, inr, Option-cases, skip_both, not, false, leb, true, arith,
}
use clob_dex.Quantities.{u64_max}
use clob_dex.Quantities.Lots.{quote_lots_for}
use clob_dex.Quantities.Lots.Exact.{quote_lots_for_lem}
use clob_dex.Tree.{value_at}
use clob_dex.Tree.Arena.Check.{Invariant}
use clob_dex.Book.{BookEntry, BookTree}
use clob_dex.Book.Check.{book_check_passes}
use clob_dex.Engine.Error.{ok}
use clob_dex.Engine.Trader.{TraderState}
use clob_dex.Engine.Seats.{SeatTree, SeatIndex, state}
use clob_dex.Engine.Market.{Market, quote_value}
use clob_dex.Engine.Check.{
  seat_loop, no_totals, ask_loop, bid_loop, check_orders, check_totals, check_conservation,
}
use clob_dex.Engine.Check.Sums.{sum_by-same, seats_live, shares}
use clob_dex.Engine.Conserved.{
  owner, locked_base, locked_quote, total_base, total_quote, Owned, seats, bids, asks, per_lot,
  Conserved,
}
use clob_dex.Engine.Conserved.OneSeat.{state_live}
use clob_dex.Engine.Check.Totals.{
  saturating_add_exact, seats_locked, totals_with, seat_loop_exact, locked-le,
}

not_equal : (a b : ℕ) → a ≡ b → not (a == b) ≡ false
not_equal a b e = ground (arith, e)

module _ {T U : Type 0} (t : BookTree T) (u : SeatTree U) where
  -- The numbers that the source holds in a u64.
  pub record InRange (m : Market T U) : Type 0 where
    pub base_deposited : m.header.base_lots_deposited ≤ u64_max
    pub quote_deposited : m.header.quote_lots_deposited ≤ u64_max
    pub tick_size : m.header.lot_config.tick_size_in_quote_lots_per_base_unit ≤ u64_max
    pub orders :
        All (λ e. (e.key.price_in_ticks ≤ u64_max) × (e.value.num_base_lots ≤ u64_max)) (bids t u m)

module _ {T U : Type 0} (t : BookTree T) (u : SeatTree U)
    (tree_check : T → Option (Option Invariant)) where
  state_there :
      (m : Market T U) (h : SeatIndex)
      → value_at h (seats t u m) ≢ none
      → (st : TraderState) × (state u m.traders h ≡ ok st)
  state_there m h p = elim (Option-cases (value_at h (seats t u m))) [
    | inl gone ↦ absurd (p gone)
    | inr (st, q) ↦ (st, state_live u m.traders h st q)
  ]

  ask_loop_exact :
      (m : Market T U) (total : ℕ) (es : List BookEntry)
      → Owned (seats t u m) es
      → total + sum_by (λ e. e.value.num_base_lots) es ≤ u64_max
      → ask_loop t u tree_check m total es ≡ inr (total + sum_by (λ e. e.value.num_base_lots) es)
  unfolding ask_loop
  ask_loop_exact m total [] o b = ground arith
  ask_loop_exact m total (e ∷ es) o b =
      let (st, q) = state_there m (owner e.value) o.0 in
      let exact = saturating_add_exact total e.value.num_base_lots (omega arith) in
      rw (ask_loop, q, exact)
        (ask_loop_exact m (total + e.value.num_base_lots) es o.1 (omega arith)
          ∙ ap inr (omega arith))

  bid_loop_exact :
      (m : Market T U) (total : ℕ) (es : List BookEntry)
      → Owned (seats t u m) es
      → m.header.lot_config.tick_size_in_quote_lots_per_base_unit ≤ u64_max
      → All (λ e. (e.key.price_in_ticks ≤ u64_max) × (e.value.num_base_lots ≤ u64_max)) es
      → total + sum_by (λ e. e.key.price_in_ticks * per_lot t u m * e.value.num_base_lots) es
        ≤ u64_max
      → bid_loop t u tree_check m total es
        ≡ inr
            (total + sum_by (λ e. e.key.price_in_ticks * per_lot t u m * e.value.num_base_lots) es)
  unfolding bid_loop quote_value
  bid_loop_exact m total [] o k r b = ground arith
  bid_loop_exact m total (e ∷ es) o k r b =
      let price = e.key.price_in_ticks in
      let size = e.value.num_base_lots in
      let value = price * per_lot t u m * size in
      let (st, q) = state_there m (owner e.value) o.0 in
      let fits : leb value u64_max ≡ true = ground (arith, b) in
      let priced : quote_lots_for m.header.lot_config price size ≡ some value =
        quote_lots_for_lem m.header.lot_config price size r.0.0 k r.0.1 ∙ rw fits refl in
      let exact = saturating_add_exact total value (omega arith) in
      rw (bid_loop, q, quote_value, priced, exact)
        (bid_loop_exact m (total + value) es o.1 k r.1 (omega arith) ∙ ap inr (omega arith))

  -- The locked funds of all seats are the sizes, or the values, of all orders of a side.
  all_locked :
      (m : Market T U)
      → Conserved t u m
      → (seats_locked (λ st. st.base_lots_locked) (seats t u m)
          ≡ sum_by (λ e. e.value.num_base_lots) (asks t u m))
        × (seats_locked (λ st. st.quote_lots_locked) (seats t u m)
            ≡ sum_by
                (λ e. e.key.price_in_ticks * per_lot t u m * e.value.num_base_lots)
                (bids t u m))
  all_locked m c =
      let apart = (u.well_formed m.traders).distinct in
      let live = seats_live (seats t u m) apart in
      (
        sum_by-same (λ e. e.value.base_lots_locked) (λ e. locked_base e.handle (asks t u m))
              (seats t u m) (All-imp (λ e q. c.base_backed e.handle e.value q) (seats t u m) live)
            ∙ shares (λ e. e.value.num_base_lots) (seats t u m) (asks t u m) apart c.asks_owned,
        sum_by-same (λ e. e.value.quote_lots_locked)
              (λ e. locked_quote (per_lot t u m) e.handle (bids t u m)) (seats t u m)
              (All-imp (λ e q. c.quote_backed e.handle e.value q) (seats t u m) live)
            ∙ shares (λ e. e.key.price_in_ticks * per_lot t u m * e.value.num_base_lots)
                (seats t u m) (bids t u m) apart c.bids_owned,
      )

  totals_pass :
      (m : Market T U)
      → Conserved t u m
      → InRange t u m
      → check_totals t u tree_check m (seat_loop no_totals (seats t u m)) ≡ none
  totals_pass m c r =
      let es = seats t u m in
      let (bases, quotes) = all_locked m c in
      let small = locked-le es in
      let base = c.base_total in
      let quote = c.quote_total in
      let b = r.base_deposited in
      let q = r.quote_deposited in
      let counted =
        seat_loop_exact no_totals es (omega arith, omega arith, omega arith, omega arith) in
      let asked = ask_loop_exact m 0 (asks t u m) c.asks_owned (omega arith) in
      let bidden =
        bid_loop_exact m 0 (bids t u m) c.bids_owned r.tick_size r.orders (omega arith) in
      let accounted =
        saturating_add_exact (0 + total_quote es) m.header.unclaimed_quote_lot_fees (omega arith) in
      let summed =
        not_equal (0 + total_quote es + m.header.unclaimed_quote_lot_fees)
          m.header.quote_lots_deposited (omega arith) in
      ap (check_totals t u tree_check m) counted
      ∙ skip_both _ _ _ _ _
          (not_equal (0 + total_base es) m.header.base_lots_deposited (omega arith))
          (ap (λ n. not (n == m.header.quote_lots_deposited)) accounted ∙ summed)
      ∙ rw (check_orders, asked, bidden)
          (skip_both _ _ _ _ _
            (not_equal (0 + sum_by (λ e. e.value.num_base_lots) (asks t u m))
              (totals_with no_totals es).base_locked (omega arith))
            (not_equal
              (0
                + sum_by (λ e. e.key.price_in_ticks * per_lot t u m * e.value.num_base_lots)
                    (bids t u m))
              (totals_with no_totals es).quote_locked (omega arith)))

  pub check_conservation_passes :
      (m : Market T U)
      → Conserved t u m
      → InRange t u m
      → tree_check m.book.bids ≡ some none
      → tree_check m.book.asks ≡ some none
      → check_conservation t u tree_check m ≡ some none
  unfolding check_conservation
  check_conservation_passes m c r p q =
      rw (check_conservation, book_check_passes t tree_check m.book c.filed p q)
        (ap some (totals_pass m c r))
