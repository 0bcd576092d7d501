-- ===== src/Tree/Arena/Remove/Correct.antt =====
-- crates/clob-book/src/tree/remove.rs: `remove_handle` against the sorted list of entries.
use Prim.Native.Nat.{Ordering}
use clob_dex.Prelude.{
  ℕ, ◌+◌, ◌-◌, ◌≤◌, ◌≡◌, ◌≢◌, refl, sym, ap, subst, ◌∙◌, ◌==◌, if◌then◌else◌, List, [], ◌∷◌, ◌++◌,
  length, Option, some, arith,
}
use clob_dex.Tree.{Handle, nil, Entry, IsSorted, value_at, drop_at}
use clob_dex.Tree.Entries.{drop_at-IsSorted}
use clob_dex.Tree.Arena.{RedBlackTree, free}
use clob_dex.Tree.Arena.Remove.{Spliced, splice, remove_handle, released}
use clob_dex.Tree.Arena.Remove.Leftmost.{stands}
use clob_dex.Tree.Arena.Remove.Splice.{Gap}
use clob_dex.Tree.Arena.Remove.Mended.{mended, Gap-size, gap-Rebalanced}
use clob_dex.Tree.Arena.Remove.Taken.{splice-Gap}
use clob_dex.Tree.Arena.Insert.Fixup.{Rebalanced}
use clob_dex.Tree.Arena.Shape.{Shape, top, plug, inorder, size, occurs, Links-frame}
use clob_dex.Tree.Arena.Balanced.{root_color, Balanced}
use clob_dex.Tree.Arena.Focus.{Focus}
use clob_dex.Tree.Arena.Data.{SameData, same_trans}
use clob_dex.Tree.Arena.Slots.{Chain-frame}
use clob_dex.Tree.Arena.Sound.{
  IsSound, contents, listed, listed-same, count, count-append, occurs-inorder, size-inorder, Chain,
}

module _ {K V : Type 0} where
  pub listed-live :
      (t : RedBlackTree K V) (z : Handle) (hs : List Handle) (v : V)
      → value_at z (listed t hs) ≡ some v
      → (1 ≤ count z hs) × ((t.nodes z).value ≡ v)
  listed-live t z [] v e = ground arith
  listed-live t z (h ∷ hs) v e = ground (arith, listed-live t z hs v)

  drop_at-listed :
      (t : RedBlackTree K V) (z : Handle) (low high : List Handle)
      → count z low ≡ 0
      → drop_at z (listed t (low ++ z ∷ high)) ≡ listed t (low ++ high)
  drop_at-listed t z [] high c = ground arith
  drop_at-listed t z (h ∷ low) high c = ground (arith, drop_at-listed t z low high)

  abbrev freed : Handle → RedBlackTree K V → RedBlackTree K V
  unfolding free
  freed z t = let u = free t z in record u { len = u.len - 1 }

  listed-freed :
      (t : RedBlackTree K V) (z : Handle) (hs : List Handle) → listed (freed z t) hs ≡ listed t hs
  unfolding free
  listed-freed t z [] = refl
  listed-freed t z (h ∷ hs) = ground (arith, listed-freed t z hs)

  freed-other : (t : RedBlackTree K V) (z j : Handle) → j ≢ z → (freed z t).nodes j ≡ t.nodes j
  unfolding free
  freed-other t z j n = ground arith

  freed-left : (t : RedBlackTree K V) (z : Handle) → ((freed z t).nodes z).left ≡ t.free_head
  unfolding free
  freed-left t z = ground arith

  -- What a removal leaves of the tree that holds `es`.
  pub record Removes (cmp : K → K → Ordering) (t : RedBlackTree K V) (es : List (Entry K V))
      (hs : List Handle) (z : Handle) (o : V × Option (RedBlackTree K V)) : Type 0 where
    pub arena : RedBlackTree K V
    pub shape : Shape
    pub value_lem : value_at z es ≡ some o.0
    pub returned : o.1 ≡ some arena
    pub sound : IsSound cmp arena shape (z ∷ hs)
    pub left_lem : contents arena shape ≡ drop_at z es
    pub capacity : arena.capacity ≡ t.capacity

  module _ {cmp : K → K → Ordering} (t : RedBlackTree K V) (s : Shape) (hs : List Handle)
      (w : IsSound cmp t s hs) (z : Handle) (here : 1 ≤ count z (inorder s)) (g : Spliced K V)
      (h : Gap t z s g) (m : Rebalanced g.arena (plug h.around h.short) (mended g)) where
    abbrev last_arena : RedBlackTree K V
    unfolding free
    last_arena = freed z m.tree

    counts_before :
        (j : ℕ) → occurs j s ≡ count j h.low + (if z == j then 1 else 0) + count j h.high
    counts_before j =
        omega (
          arith,
          occurs-inorder j s,
          ap (count j) h.order_before,
          count-append j h.low (z ∷ h.high),
        )

    counts_after : (j : ℕ) → occurs j m.shape ≡ count j h.low + count j h.high
    counts_after j = omega (
      arith,
      occurs-inorder j m.shape,
      ap (count j) (m.order ∙ h.order),
      count-append j h.low h.high,
    )

    gone : count z h.low + count z h.high ≡ 0
    gone = ground (arith, counts_before z, w.once z)

    same : SameData t m.tree
    same = same_trans h.relinks.same m.same

    left_eq : contents last_arena m.shape ≡ drop_at z (contents t s)
    unfolding last_arena freed
    left_eq =
        listed-freed m.tree z (inorder m.shape)
        ∙ listed-same same (inorder m.shape)
        ∙ ap (listed t) (m.order ∙ h.order)
        ∙ sym (drop_at-listed t z h.low h.high (omega (arith, gone)))
        ∙ ap (λ n. drop_at z (listed t n)) (sym h.order_before)

    outside : (j : ℕ) → occurs j s ≡ 0 → occurs j (plug h.around h.short) ≡ 0
    outside j o = omega (
      arith,
      counts_before j,
      occurs-inorder j (plug h.around h.short),
      ap (count j) h.order,
      count-append j h.low h.high,
      o,
    )

    untouched : (j : ℕ) → 1 ≤ count j hs → last_arena.nodes j ≡ t.nodes j
    unfolding last_arena freed
    untouched j o =
        let not_nil : j ≢ nil = λ e. ground (arith, w.once j, o, e) in
        let not_z : j ≢ z = λ e. ground (arith, w.once j, counts_before j, o, e) in
        let off : occurs j s ≡ 0 = ground (arith, w.once j, o) in
        freed-other m.tree z j not_z
        ∙ m.kept j (outside j off) not_nil
        ∙ h.relinks.kept j (sym (occurs-inorder j s) ∙ off) not_nil

    freed-Chain : Chain last_arena (last_arena.nodes z).left hs
    unfolding last_arena freed
    freed-Chain =
        subst (λ n. Chain last_arena n hs) (sym (freed-left m.tree z ∙ same.free_head))
          (Chain-frame t last_arena t.free_head hs untouched w.chain)

    smaller : size s ≡ size m.shape + 1
    smaller = omega (
      arith,
      Gap-size t z s g h,
      size-inorder (plug h.around h.short),
      size-inorder m.shape,
      ap length m.order,
    )

    freed-IsSound : IsSound cmp last_arena m.shape (z ∷ hs)
    unfolding free
    freed-IsSound = record {
      links =
          Links-frame m.tree last_arena nil m.tree.root m.shape
            (λ j o. freed-other m.tree z j (λ e. ground (arith, counts_after j, gone, o, e)))
            m.links;
      chain = (refl, ground (arith, w.once z, counts_before z), freed-Chain);
      once = λ j. omega (arith, w.once j, counts_before j, counts_after j);
      within = λ j o. omega (arith, w.within j, counts_before j, counts_after j, same.bump, o);
      len_lem = omega (arith, same.len, w.len_lem, smaller);
      slots = omega (arith, same.bump, w.slots, smaller);
      room = omega (arith, same.bump, same.capacity, w.room);
      balanced = m.balanced;
      root_black = m.root_black;
      sorted = subst (IsSorted cmp) (sym left_eq) (drop_at-IsSorted cmp z (contents t s) w.sorted);
    }

    taken :
        (v : V)
        → (t.nodes z).value ≡ v
        → value_at z (contents t s) ≡ some v
        → Removes cmp t (contents t s) hs z ((t.nodes z).value, released z (mended g))
    unfolding last_arena freed
    taken v same_value e = record {
      arena = freed z m.tree;
      shape = m.shape;
      value_lem = e ∙ ap some (sym same_value);
      returned = ap (released z) m.returned;
      sound = freed-IsSound;
      left_lem = left_eq;
      capacity = same.capacity;
    }

  -- In a sound arena, the removal of the handle of an entry returns the entry's value and an arena
  -- that is sound with that handle as its first free slot, holds the other entries in the same
  -- order under the same handles, and has the capacity it had.
  pub remove_handle-Removes :
      {cmp : K → K → Ordering} (t : RedBlackTree K V) (s : Shape) (hs : List Handle) (z : Handle)
      (v : V)
      → IsSound cmp t s hs
      → value_at z (contents t s) ≡ some v
      → Removes cmp t (contents t s) hs z (remove_handle t z)
  unfolding remove_handle
  remove_handle-Removes t s hs z v w e =
      let live = listed-live t z (inorder s) v e in
      let whole : Focus t nil t.root top s = record {
        around = (refl, refl);
        links = w.links;
        proper = λ j. omega (arith, w.once j);
      } in
      let p = stands t nil t.root z top s whole (omega (arith, live.0, occurs-inorder z s)) in
      let h : Gap t z s (splice z t) =
        subst (λ n. Gap t z n (splice z t)) p.whole
          (splice-Gap t p.parent z p.around p.color p.left p.right p.focus
            (subst Balanced (sym p.whole) w.balanced) (ap root_color p.whole ∙ w.root_black)
            (omega (arith, ap size p.whole, w.len_lem))) in
      taken t s hs w z live.0 (splice z t) h
        (gap-Rebalanced t z s (splice z t) h (omega (arith, w.len_lem))) v live.1 e
