-- ===== src/Book/Depth.antt =====
-- crates/clob-book/src/book/depth.rs: depth and liquidity queries.
pub mod Sums
pub mod Sweep
use mathlib.Core.List.{reverse}
use clob_dex.Prelude.{Bool, Option, none, some, List, [], ◌∷◌, leb, if◌then◌else◌}
use clob_dex.Quantities.{Ticks, BaseLots, is_zero, saturating_add, saturating_sub}
use clob_dex.Order.{Side, bid, ask}
use clob_dex.Book.{OrderBook, BookEntry, BookTree}

unfoldable pub is_marketable : Side → Ticks → Ticks → Bool
is_marketable bid price limit = leb limit price
is_marketable ask price limit = leb price limit

-- `take_while(..).fold(total, saturating_add)`
depth_loop : Side → Ticks → BaseLots → List BookEntry → BaseLots
depth_loop side limit total [] = total
depth_loop side limit total (e ∷ es) =
    let rest = depth_loop side limit (saturating_add total e.value.num_base_lots) es in
    if is_marketable side e.key.price_in_ticks limit then rest else total

total_loop : BaseLots → List BookEntry → BaseLots
total_loop total [] = total
total_loop total (e ∷ es) = total_loop (saturating_add total e.value.num_base_lots) es

sweep_loop : BaseLots → List BookEntry → Option Ticks
sweep_loop remaining [] = none
sweep_loop remaining (e ∷ es) =
    let left = saturating_sub remaining e.value.num_base_lots in
    let rest = sweep_loop left es in if is_zero left then some e.key.price_in_ticks else rest

module _ {T : Type 0} (t : BookTree T) where
  -- Bids by falling price, asks by rising price.
  unfoldable pub iter_side : OrderBook T → Side → List BookEntry
  iter_side b bid = reverse (t.entries b.bids)
  iter_side b ask = t.entries b.asks

  unfoldable pub depth_at_or_better : OrderBook T → Side → Ticks → BaseLots
  unfolding depth_loop iter_side
  depth_at_or_better b side limit = depth_loop side limit 0 (iter_side b side)

  unfoldable pub total_depth : OrderBook T → Side → BaseLots
  unfolding total_loop iter_side
  total_depth b side = total_loop 0 (iter_side b side)

  unfoldable pub sweep_price : OrderBook T → Side → BaseLots → Option Ticks
  unfolding sweep_loop iter_side
  sweep_price b side size = sweep_loop size (iter_side b side)
