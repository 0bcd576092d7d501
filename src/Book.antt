-- ===== src/Book.antt =====
-- crates/clob-book/src/book/mod.rs: the two-sided book, over any tree that keeps the interface's
-- laws. A mutated `self` is returned beside the result.
pub mod Filed
pub mod Place
pub mod Remove
pub mod Depth
pub mod Best
pub mod Uncrossed
pub mod Check
use Prim.Native.Nat.{Ordering}
use clob_dex.Prelude.{
  ℕ, ◌+◌, ◌-◌, Bool, true, false, not, Option, none, some, leb, ◌==◌, if◌then◌else◌, length,
}
use clob_dex.Quantities.{Ticks, BaseLots, is_zero, min, checked_sub}
use clob_dex.Order.{Side, bid, ask, FifoOrderId, RestingOrder, new_id, side_of, compare_id}
use clob_dex.Tree.{Entry, OrderedTree}
use clob_dex.Tree.Keyed.{get, set_key, contains_key, remove, is_full}

pub record Reduction : Type 0 where
  pub base_lots_removed : BaseLots
  pub base_lots_remaining : BaseLots
  pub removed : Bool

pub record OrderBook (T : Type 0) : Type 0 where
  pub next_sequence_number : ℕ
  pub bids : T
  pub asks : T

abbrev pub BookEntry : Type 0
BookEntry = Entry FifoOrderId RestingOrder

-- The tree of a side, and the book with that tree replaced.
abbrev pub tree_of : {T : Type 0} → Side → OrderBook T → T
tree_of bid b = b.bids
tree_of ask b = b.asks

abbrev pub with_tree : {T : Type 0} → Side → OrderBook T → T → OrderBook T
with_tree bid b s = record b { bids = s }
with_tree ask b s = record b { asks = s }

-- The interface at which the book uses its trees.
abbrev pub BookTree : Type 0 → Type 0
BookTree T = OrderedTree T FifoOrderId RestingOrder compare_id

module _ {T : Type 0} (t : BookTree T) where
  unfoldable pub len : OrderBook T → Side → ℕ
  len b side = t.len (tree_of side b)

  unfoldable pub is_empty : OrderBook T → Side → Bool
  unfolding len
  is_empty b side = len b side == 0

  unfoldable pub is_side_full : OrderBook T → Side → Bool
  is_side_full b side = is_full t (tree_of side b)

  -- The counter is not reset.
  unfoldable pub clear : OrderBook T → OrderBook T
  clear b = record b { bids = t.clear b.bids; asks = t.clear b.asks }

  unfoldable pub place :
      OrderBook T → Side → Ticks → RestingOrder → Option (FifoOrderId × OrderBook T)
  place b side price order =
      let id = new_id side price b.next_sequence_number in
      elim (t.insert (tree_of side b) id order) [
        | none ↦ none
        | some (_, s) ↦
            some (
              id,
              with_tree side (record b { next_sequence_number = b.next_sequence_number + 1 }) s,
            )
      ]

  unfoldable pub cancel : OrderBook T → FifoOrderId → Option RestingOrder × OrderBook T
  cancel b id =
      let side = side_of id in
      let (order, s) = remove t (tree_of side b) id in (order, with_tree side b s)

  unfoldable pub get_order : OrderBook T → FifoOrderId → Option RestingOrder
  get_order b id = get t (tree_of (side_of id) b) id

  -- `book.get_mut(id)?.num_base_lots = lots`
  unfoldable pub resize : OrderBook T → FifoOrderId → BaseLots → Option (OrderBook T)
  unfolding get_order
  resize b id lots =
      let side = side_of id in
      elim (get_order b id) [
        | none ↦ none
        | some order ↦
            elim (set_key t (tree_of side b) id (record order { num_base_lots = lots })) [
              | none ↦ none
              | some s ↦ some (with_tree side b s)
            ]
      ]

  unfoldable pub reduce : OrderBook T → FifoOrderId → BaseLots → Option (Reduction × OrderBook T)
  reduce b id base_lots = elim (get_order b id) [
    | none ↦ none
    | some order ↦
        let resting = order.num_base_lots in
        let removed = min resting base_lots in
        let remaining = resting - removed in
        let reduction : Reduction = record {
          base_lots_removed = removed;
          base_lots_remaining = remaining;
          removed = is_zero remaining;
        } in
        if is_zero remaining
        then some (reduction, (cancel b id).1)
        else elim (resize b id remaining) [ none ↦ none | some b' ↦ some (reduction, b') ]
  ]

  unfoldable pub best : OrderBook T → Side → Option BookEntry
  best b bid = t.last b.bids
  best b ask = t.first b.asks

  -- `None` for an empty side and for a crossed book.
  unfoldable pub spread_in_ticks : OrderBook T → Option ℕ
  unfolding best
  spread_in_ticks b = elim (best b bid) [
    | none ↦ none
    | some bid_entry ↦ elim (best b ask) [
      | none ↦ none
      | some ask_entry ↦ checked_sub ask_entry.key.price_in_ticks bid_entry.key.price_in_ticks
    ]
  ]

  unfoldable pub is_crossed : OrderBook T → Bool
  unfolding best
  is_crossed b = elim (best b bid) [
    | none ↦ false
    | some bid_entry ↦ elim (best b ask) [
      | none ↦ false
      | some ask_entry ↦ leb ask_entry.key.price_in_ticks bid_entry.key.price_in_ticks
    ]
  ]

  unfoldable pub contains : OrderBook T → FifoOrderId → Bool
  contains b id = contains_key t (tree_of (side_of id) b) id
