-- ===== src/Engine/Check/Arenas.antt =====
-- crates/clob-engine/src/market: the market's self-check on the red-black arenas.
use clob_dex.Prelude.{ℕ, ◌+◌, ◌≤◌, ◌≡◌, Option, some, none}
use mathlib.Core.Logic.{∥∥₁_elim}
use clob_dex.Order.{compare_id, max_sequence_number}
use clob_dex.Tree.Arena.Check.{Invariant, check}
use clob_dex.Tree.Arena.Check.Passes.{check_passes}
use clob_dex.Engine.Market.{Market}
use clob_dex.Engine.Check.{check_conservation}
use clob_dex.Engine.Check.Passes.{InRange, check_conservation_passes}
use clob_dex.Engine.Conserved.Arenas.{Orders, Seated, book_arenas, seat_arena}
use clob_dex.Engine.Conserved.Run.{Reaches, reached-Solvent}

abbrev pub check_orders_arena : Orders → Option (Option Invariant)
check_orders_arena x = check compare_id x.0

orders_arena_passes : (x : Orders) → check_orders_arena x ≡ some none
orders_arena_passes x = ∥∥₁_elim x.1.0 (hlevel) (λ (s, hs, w). check_passes x.0 s hs w)

-- On a market whose two sides and seat table are red-black arenas, sound and with a capacity below
-- 2^32 at the start, after any run of operations in which each succeeds, at most 2^63 orders are
-- placed, deposits, withdrawals and orders are of claimed seats, and a seat is released only while
-- each resting order has a positive size and value, from a blank account whose order counter is
-- zero, the program's own `check_conservation` ends and finds nothing, where the deposited totals,
-- the tick size and the prices and sizes of the bids are in u64 range.
pub reached_passes :
    (n : ℕ) (m : Market Orders Seated)
    → Reaches book_arenas seat_arena n m
    → n ≤ max_sequence_number + 1
    → InRange book_arenas seat_arena m
    → check_conservation book_arenas seat_arena check_orders_arena m ≡ some none
reached_passes n m r b range =
    check_conservation_passes book_arenas seat_arena check_orders_arena m
      (reached-Solvent book_arenas seat_arena n m r b).conserved range
      (orders_arena_passes m.book.bids) (orders_arena_passes m.book.asks)
