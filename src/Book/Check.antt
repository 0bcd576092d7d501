-- ===== src/Book/Check.antt =====
-- crates/clob-book/src/book/mod.rs: the book's self-check, over the tree's.
use clob_dex.Prelude.{
  ℕ, ◌≡◌, refl, Bool, false, not, ◌||◌, Option, none, some, List, [], ◌∷◌, if◌then◌else◌, arith,
}
use clob_dex.Order.{Side, bid, ask, FifoOrderId, side_of, is_bid}
use clob_dex.Tree.Arena.Check.{Invariant, bst_order_violation}
use clob_dex.Book.{OrderBook, BookEntry, BookTree}
use clob_dex.Book.Filed.{IsFiled, IssuedAll}

-- A check and then the next, which runs where the first finds nothing. The outer `none` is a check
-- that does not end.
abbrev pub and_then : {A : Type 0} → Option (Option A) → Option (Option A) → Option (Option A)
and_then none next = none
and_then (some (some e)) next = some (some e)
and_then (some none) next = next

unfoldable pub is_misfiled : Side → FifoOrderId → Bool
unfolding is_bid
is_misfiled bid id = not (is_bid (side_of id))
is_misfiled ask id = is_bid (side_of id)

pub any_misfiled : Side → List BookEntry → Bool
unfolding is_misfiled
any_misfiled side [] = false
any_misfiled side (e ∷ es) = is_misfiled side e.key || any_misfiled side es

none_misfiled :
    (side : Side) (next : ℕ) (es : List BookEntry)
    → IssuedAll side next es
    → any_misfiled side es ≡ false
unfolding any_misfiled is_misfiled is_bid
none_misfiled side next [] i = refl
none_misfiled bid next (e ∷ es) i = ground (arith, i.0.0, none_misfiled bid next es i.1)
none_misfiled ask next (e ∷ es) i = ground (arith, i.0.0, none_misfiled ask next es i.1)

-- `tree_check` is the `check` of a tree.
module _ {T : Type 0} (t : BookTree T) (tree_check : T → Option (Option Invariant)) where
  pub book_check : OrderBook T → Option (Option Invariant)
  unfolding any_misfiled
  book_check b = and_then (tree_check b.bids) (
      and_then (tree_check b.asks) (
        if any_misfiled bid (t.entries b.bids) || any_misfiled ask (t.entries b.asks)
        then some (some bst_order_violation)
        else some none))

  -- A filed book on trees that pass their check passes its own.
  pub book_check_passes :
      (b : OrderBook T)
      → IsFiled t b
      → tree_check b.bids ≡ some none
      → tree_check b.asks ≡ some none
      → book_check b ≡ some none
  unfolding book_check
  book_check_passes b f p q =
      rw
        (
          p,
          q,
          none_misfiled bid b.next_sequence_number (t.entries b.bids) f.bids_filed,
          none_misfiled ask b.next_sequence_number (t.entries b.asks) f.asks_filed,
        )
        refl
