-- ===== src/Tree/Arena/Insert.antt =====
-- crates/clob-book/src/tree/insert.rs: the descent, the new node and the rebalance.
pub mod Rebalance
pub mod Fixup
pub mod Rounds
pub mod Recolor
pub mod Loop
pub mod Descend
pub mod Attach
pub mod Added
pub mod Correct
use Prim.Native.Nat.{Ordering}
use Prim.Native.Nat.Ordering.{lt, eq, gt}
use clob_dex.Prelude.{ℕ, zero, suc, ◌+◌, Bool, true, false, Option, none, some, ◌==◌, if◌then◌else◌}
use clob_dex.Tree.{Handle, nil}
use clob_dex.Tree.Arena.{
  Direction, leftward, rightward, opposite, Node, RedBlackTree, child, child_of, parent_of,
  color_of, set_color, set_child, write, red, black, alloc, rotate,
}

module _ {K V : Type 0} where
  -- Case 1: a red uncle. The violation moves to the grandparent.
  abbrev pub recolor : Handle → Handle → Handle → RedBlackTree K V → RedBlackTree K V
  recolor p u g t = set_color g red (set_color u black (set_color p black t))

  -- Case 2: a zig-zag under the parent `p` is made a zig-zig.
  abbrev pub straighten : Direction → Handle → Handle → RedBlackTree K V → Handle × RedBlackTree K V
  unfolding rotate
  straighten d z p t = if z == child_of (opposite d) t p then (p, rotate d p t) else (z, t)

  -- Case 3.
  pub lift : Direction → Handle → RedBlackTree K V → RedBlackTree K V
  unfolding rotate
  lift d z t =
      let p = parent_of t z in
      let t1 = set_color p black t in
      let g = parent_of t1 p in rotate (opposite d) g (set_color g red t1)

  abbrev pub way : RedBlackTree K V → Handle → Handle → Direction
  way t p g = if p == child_of leftward t g then leftward else rightward

  -- One round, with the node to go on from.
  pub fixup_round : RedBlackTree K V → Handle → Handle × RedBlackTree K V
  unfolding lift rotate
  fixup_round t z =
      let p = parent_of t z in
      let g = parent_of t p in
      let d = way t p g in
      let u = child_of (opposite d) t g in
      if color_of t u == red
      then (g, recolor p u g t)
      else (let zig = straighten d z p t in (zig.0, lift d zig.0 zig.1))

  -- `none` when the rounds run out.
  unfoldable pub insert_fixup : ℕ → RedBlackTree K V → Handle → Option (RedBlackTree K V)
  insert_fixup zero t z = none
  insert_fixup (suc f) t z = elim (color_of t (parent_of t z) == red) [
    | true ↦ insert_fixup f (fixup_round t z).1 (fixup_round t z).0
    | false ↦ some (set_color t.root black t)
  ]

  abbrev pub attach : Handle → Ordering → Handle → RedBlackTree K V → RedBlackTree K V
  attach p o h t =
      if p == nil
      then record t { root = h }
      else elim o [ lt ↦ set_child leftward p h t | _ ↦ set_child rightward p h t ]

  abbrev pub fresh : Handle → K → V → Node K V
  fresh p k v = record { left = nil; right = nil; parent = p; color = red; key = k; value = v }

  -- The new node in its slot, linked in and counted.
  unfoldable pub attached : RedBlackTree K V → Handle → Handle → Ordering → K → V → RedBlackTree K V
  attached t h p o k v =
      let w = attach p o h (write h (fresh p k v) t) in record w { len = w.len + 1 }

  abbrev pub at_handle : Handle → Option (RedBlackTree K V) → Option (Handle × RedBlackTree K V)
  at_handle h none = none
  at_handle h (some t) = some (h, t)

  -- A slot is taken before any link is changed.
  unfoldable pub insert_new :
      RedBlackTree K V → K → V → Handle → Ordering → Option (Handle × RedBlackTree K V)
  insert_new t k v p o = elim (alloc t) [
    | none ↦ none
    | some (h, u) ↦ let w = attached u h p o k v in at_handle h (insert_fixup w.len w h)
  ]

  -- From where the descent ended: an old key has its value overwritten.
  abbrev pub at_place :
      RedBlackTree K V → K → V → Handle × Handle × Ordering → Option (Handle × RedBlackTree K V)
  at_place t k v (p, h, o) =
      if h == nil
      then insert_new t k v p o
      else some (h, write h (record (t.nodes h) { value = v }) t)

module _ {K V : Type 0} (cmp : K → K → Ordering) where
  -- Where the descent ends: the parent, the node with the key or `nil`, and the last comparison.
  unfoldable pub descend :
      ℕ → RedBlackTree K V → K → Handle → Handle → Ordering → Handle × Handle × Ordering
  descend zero t k p h o = (p, h, o)
  descend (suc f) t k p h o = elim (h == nil) [
    | true ↦ (p, h, o)
    | false ↦ elim (cmp k (t.nodes h).key) [
      | lt ↦ descend f t k h (t.nodes h).left lt
      | gt ↦ descend f t k h (t.nodes h).right gt
      | eq ↦ (p, h, eq)
    ]
  ]

  unfoldable pub insert : RedBlackTree K V → K → V → Option (Handle × RedBlackTree K V)
  insert t k v = at_place t k v (descend t.len t k nil t.root eq)
