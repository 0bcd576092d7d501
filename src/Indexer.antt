-- ===== src/Indexer.antt =====
-- crates/clob-indexer/src/tape.rs and cross_check.rs: what an observer records, and its audits.
pub mod Derive
pub mod Tape
pub mod Resting
pub mod Sizes
pub mod Takers
pub mod Sorting
pub mod Attribution
use clob_dex.Prelude.{
  ℕ, Bool, true, false, not, ◌&&◌, ◌||◌, Option, none, some, List, [], ◌∷◌, ◌==◌, ltb,
  if◌then◌else◌, length,
}
use clob_dex.Quantities.{Ticks, BaseLots, QuoteLots, saturating_add}
use clob_dex.Order.{Side, FifoOrderId}
use clob_dex.Engine.Error.{Result, ok, err}
use clob_dex.Engine.Fees.{FeeSchedule, fee_on}
use clob_dex.Engine.Seats.{SeatIndex}

pub record Trade : Type 0 where
  pub slot : ℕ
  pub price_in_ticks : Ticks
  pub base_lots : BaseLots
  pub quote_lots : QuoteLots
  pub maker_order_id : FifoOrderId
  pub maker_seat : SeatIndex
  pub taker_seat : Option SeatIndex
  pub taker_side : Side

pub data RemovalReason : Type 0 where
  cancelled self_traded : RemovalReason

pub record Removal : Type 0 where
  pub order_id : FifoOrderId
  pub seat : SeatIndex
  pub base_lots : BaseLots
  pub reason : RemovalReason

pub record Posted : Type 0 where
  pub order_id : FifoOrderId
  pub seat : SeatIndex
  pub base_lots : BaseLots

pub record BookDelta : Type 0 where
  pub trades : List Trade
  pub removals : List Removal
  pub posted : List Posted
  pub fees_earned : QuoteLots

is_nil : {A : Type 0} → List A → Bool
is_nil [] = true
is_nil (x ∷ xs) = false

unfoldable pub nothing_happened : BookDelta → Bool
unfolding is_nil
nothing_happened d = is_nil d.trades && is_nil d.removals && is_nil d.posted

-- `fold(ZERO, |sum, t| sum.saturating_add(w(t)))`
unfoldable pub saturating_total : (Trade → ℕ) → ℕ → List Trade → ℕ
saturating_total w sum [] = sum
saturating_total w sum (x ∷ xs) = saturating_total w (saturating_add sum (w x)) xs

unfoldable pub base_lots_traded : BookDelta → BaseLots
base_lots_traded d = saturating_total (λ x. x.base_lots) 0 d.trades

unfoldable pub quote_lots_traded : BookDelta → QuoteLots
quote_lots_traded d = saturating_total (λ x. x.quote_lots) 0 d.trades

-- `fee_on(..).unwrap_or(QuoteLots::ZERO)`
fee_or_zero : ℕ → QuoteLots → QuoteLots
fee_or_zero bps quote = elim (fee_on (record { taker_fee_bps = bps }) quote) [
  | ok fee ↦ fee
  | err _ ↦ 0
]

unfoldable pub fees_reconcile : BookDelta → ℕ → Bool
unfolding fee_or_zero
fees_reconcile d bps =
    let expected = fee_or_zero bps (quote_lots_traded d) in
    let per_trade = saturating_total (λ x. fee_or_zero bps x.quote_lots) 0 d.trades in
    d.fees_earned == per_trade || d.fees_earned == expected

-- The fields of the program's receipt that the comparison reads, with its number of fills.
pub record OrderPlaced : Type 0 where
  pub base_lots_filled : BaseLots
  pub quote_lots_filled : QuoteLots
  pub fills_seen : ℕ
  pub fills_carried : ℕ

unfoldable pub truncated : OrderPlaced → Bool
truncated e = ltb e.fills_carried e.fills_seen

pub data Disagreement : Type 0 where
  base_lots_differ quote_lots_differ fill_count : ℕ → ℕ → Disagreement

-- The first disagreement found.
unfoldable pub agrees_with_event : BookDelta → OrderPlaced → Option Disagreement
unfolding base_lots_traded quote_lots_traded truncated
agrees_with_event d e =
    if not (base_lots_traded d == e.base_lots_filled)
    then some (base_lots_differ (base_lots_traded d) e.base_lots_filled)
    else if not (quote_lots_traded d == e.quote_lots_filled)
    then some (quote_lots_differ (quote_lots_traded d) e.quote_lots_filled)
    else if not (truncated e) && not (length d.trades == e.fills_seen)
    then some (fill_count (length d.trades) e.fills_seen)
    else none
