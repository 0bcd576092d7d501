-- ===== src/Tree/Arena/Remove.antt =====
-- crates/clob-book/src/tree/remove.rs: the splice and the rebalance. Where the source writes both
-- directions out, one definition takes the direction of the short side.
pub mod Cases
pub mod Steps
pub mod Absorb
pub mod Ends
pub mod Balance
pub mod Nephews
pub mod Rounds
pub mod Loop
pub mod Graft
pub mod Leftmost
pub mod Written
pub mod Splice
pub mod Successor
pub mod Far
pub mod Taken
pub mod Mended
pub mod Correct
use Prim.Native.Nat.{Ordering}
use clob_dex.Prelude.{
  ℕ, zero, suc, ◌+◌, ◌-◌, Bool, true, false, ◌&&◌, Option, none, some, ◌==◌, if◌then◌else◌,
}
use clob_dex.Tree.{Handle, nil}
use clob_dex.Tree.Arena.{
  Direction, leftward, rightward, opposite, Node, RedBlackTree, child_of, parent_of, color_of,
  set_color, set_child, set_parent, write, relink, adopt, red, black, rotate, min_from, free, find,
}

-- The node that moves up, its parent, the colour that leaves the tree, and the arena.
pub record Spliced (K V : Type 0) : Type 0 where
  pub moved : Handle
  pub above : Handle
  pub color : ℕ
  pub arena : RedBlackTree K V

module _ {K V : Type 0} where
  -- The subtree at `v` takes the place of the one at `u`.
  pub transplant : Handle → Handle → RedBlackTree K V → RedBlackTree K V
  transplant u v t = let p = parent_of t u in adopt v p (relink leftward p u v t)

  -- Case 1: a red sibling is rotated away.
  abbrev pub black_sibling : Direction → Handle → Handle → RedBlackTree K V → RedBlackTree K V
  black_sibling d p w t =
      if color_of t w == red then rotate d p (set_color p red (set_color w black t)) else t

  -- Case 3: a red near nephew is rotated into the far position.
  abbrev pub far_nephew : Direction → Handle → RedBlackTree K V → RedBlackTree K V
  far_nephew d w t =
      if color_of t (child_of (opposite d) t w) == black
      then rotate (opposite d) w (set_color w red (set_color (child_of d t w) black t))
      else t

  -- Case 4.
  abbrev pub absorb : Direction → Handle → Handle → RedBlackTree K V → RedBlackTree K V
  absorb d p w t =
      let t1 = set_color p black (set_color w (color_of t p) t) in
      rotate d p (set_color (child_of (opposite d) t1 w) black t1)

  abbrev pub side : RedBlackTree K V → Handle → Handle → Direction
  side t x p = if x == child_of leftward t p then leftward else rightward

  -- The cases with a black sibling `w`: the next node, its parent, and the arena.
  pub nephews : Direction → Handle → Handle → RedBlackTree K V → Handle × Handle × RedBlackTree K V
  nephews d p w t =
      if color_of t (child_of d t w) == black && color_of t (child_of (opposite d) t w) == black
      then (p, parent_of (set_color w red t) p, set_color w red t)
      else (let t1 = far_nephew d w t in
          let t2 = absorb d p (child_of (opposite d) t1 p) t1 in (t2.root, nil, t2))

  pub delete_round : RedBlackTree K V → Handle → Handle → Handle × Handle × RedBlackTree K V
  delete_round t x p =
      let d = side t x p in
      let t1 = black_sibling d p (child_of (opposite d) t p) t in
      nephews d p (child_of (opposite d) t1 p) t1

  -- `none` when the rounds run out.
  pub delete_fixup : ℕ → RedBlackTree K V → Handle → Handle → Option (RedBlackTree K V)
  delete_fixup zero t x p = none
  delete_fixup (suc f) t x p = elim (x == t.root) [
    | true ↦ some (set_color x black t)
    | false ↦ elim (color_of t x == black) [
      | false ↦ some (set_color x black t)
      | true ↦ elim (p == nil) [
        | true ↦ some (set_color x black t)
        | false ↦
            delete_fixup f (delete_round t x p).2 (delete_round t x p).0 (delete_round t x p).1
      ]
    ]
  ]

  -- The successor `y` is taken out of its place unless it is the child of `z`.
  abbrev pub lift_successor : Handle → Handle → RedBlackTree K V → Handle × RedBlackTree K V
  lift_successor z y t =
      if (t.nodes y).parent == z
      then (y, t)
      else (let zr = (t.nodes z).right in
          (
            (t.nodes y).parent,
            set_parent zr y (set_child rightward y zr (transplant y (t.nodes y).right t)),
          ))

  -- The successor `y` takes the place of `z`, with its left subtree and its colour.
  abbrev pub replace : Handle → Handle → Handle → RedBlackTree K V → RedBlackTree K V
  replace z y zl t =
      let t1 = set_parent zl y (set_child leftward y zl (transplant z y t)) in
      write y (record (t1.nodes y) { color = (t1.nodes z).color }) t1

  abbrev pub splice_one : Handle → Handle → RedBlackTree K V → Spliced K V
  splice_one z v t = record {
    moved = v;
    above = (t.nodes z).parent;
    color = (t.nodes z).color;
    arena = transplant z v t;
  }

  abbrev pub after_lift :
      Handle → Handle → RedBlackTree K V → Handle × RedBlackTree K V → Spliced K V
  after_lift z y t lifted = record {
    moved = (t.nodes y).right;
    above = lifted.0;
    color = (t.nodes y).color;
    arena = replace z y (t.nodes z).left lifted.1;
  }

  abbrev pub splice_two : Handle → Handle → RedBlackTree K V → Spliced K V
  splice_two z y t = after_lift z y t (lift_successor z y t)

  pub splice : Handle → RedBlackTree K V → Spliced K V
  splice z t =
      if (t.nodes z).left == nil
      then splice_one z (t.nodes z).right t
      else (if (t.nodes z).right == nil
          then splice_one z (t.nodes z).left t
          else splice_two z (min_from t (t.nodes z).right) t)

  abbrev pub released : Handle → Option (RedBlackTree K V) → Option (RedBlackTree K V)
  released z none = none
  released z (some t) = let u = free t z in some (record u { len = u.len - 1 })

  -- The value and the arena without the node; `none` is no answer of the source.
  pub remove_handle : RedBlackTree K V → Handle → V × Option (RedBlackTree K V)
  remove_handle t z =
      let s = splice z t in
      (
        (t.nodes z).value,
        released z (
            if s.color == black
            then delete_fixup s.arena.len s.arena s.moved s.above
            else some s.arena),
      )

module _ {K V : Type 0} (cmp : K → K → Ordering) where
  unfoldable pub remove : RedBlackTree K V → K → Option V × Option (RedBlackTree K V)
  remove t k =
      let h = find cmp t k in
      if h == nil then (none, some t) else (some (remove_handle t h).0, (remove_handle t h).1)
