-- ===== src/Engine/Conserved/Arenas.antt =====
-- crates/clob-engine/src/market: the market on the red-black arenas of crates/clob-book/src/tree.
use native.Mathlib.Nat.{ℕ_set}
use clob_dex.Order.{FifoOrderId, RestingOrder, compare_id}
use clob_dex.Tree.Arena.Sealed.{Arena}
use clob_dex.Tree.Arena.Sealed.Filled.{arena_tree}
use clob_dex.Book.{BookTree}
use clob_dex.Book.Filed.{compare_id-IsLawful}
use clob_dex.Engine.Trader.{TraderState}
use clob_dex.Engine.Seats.{SeatTree, TraderKey, compare_key}
use clob_dex.Engine.Seats.Keys.{compare_key-IsLawful}

pub FifoOrderId-set : IsSet FifoOrderId
FifoOrderId-set = hlevel ℕ_set

pub RestingOrder-set : IsSet RestingOrder
RestingOrder-set = hlevel ℕ_set

pub TraderKey-set : IsSet TraderKey
TraderKey-set = hlevel ℕ_set

pub TraderState-set : IsSet TraderState
TraderState-set = hlevel ℕ_set

abbrev pub Orders : Type 0
Orders = Arena FifoOrderId RestingOrder compare_id

abbrev pub Seated : Type 0
Seated = Arena TraderKey TraderState compare_key

abbrev pub book_arenas : BookTree Orders
book_arenas = arena_tree compare_id-IsLawful FifoOrderId-set RestingOrder-set

abbrev pub seat_arena : SeatTree Seated
seat_arena = arena_tree compare_key-IsLawful TraderKey-set TraderState-set
