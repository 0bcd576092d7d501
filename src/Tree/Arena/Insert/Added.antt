-- ===== src/Tree/Arena/Insert/Added.antt =====
-- crates/clob-book/src/tree/insert.rs: a new node, against the sorted list of entries.
use Prim.Native.Nat.{Ordering}
use Prim.Native.Nat.Ordering.{lt, gt}
use clob_dex.Prelude.{
  ℕ, ◌+◌, ◌≤◌, ◌≡◌, ◌≢◌, refl, sym, ap, subst, ◌∙◌, ◌==◌, if◌then◌else◌, List, [], ◌∷◌, ◌++◌,
  length, some, All, arith,
}
use clob_dex.Tree.{Handle, nil, IsSorted, IsLawful, insert_entry, find_key}
use clob_dex.Tree.Entries.{value_of}
use clob_dex.Tree.Slots.{insert_entry-IsSorted}
use clob_dex.Tree.Arena.{RedBlackTree, red, alloc}
use clob_dex.Tree.Arena.Insert.{insert_new, insert_fixup, attached, at_handle}
use clob_dex.Tree.Arena.Insert.Attach.{
  attached-Focus, attached-counts, attached-same_key, attached-other, attached-new,
}
use clob_dex.Tree.Arena.Insert.Fixup.{Rebalanced}
use clob_dex.Tree.Arena.Insert.Loop.{repair}
use clob_dex.Tree.Arena.Insert.Descend.{Turns}
use clob_dex.Tree.Arena.Shape.{
  Shape, leaf, fork, Context, top, plug, inorder, size, occurs, occurs_around, occurs-plug,
  size-plug, depth-le-size, Around-frame,
}
use clob_dex.Tree.Arena.Balanced.{unplug, Balanced, root_color}
use clob_dex.Tree.Arena.Focus.{Focus, Around-parent}
use clob_dex.Tree.Arena.Slots.{Given, Chain-frame}
use clob_dex.Tree.Arena.Sound.{
  IsSound, contents, listed, listed-append, listed-same, before, after, inorder-plug-around,
  insert_entry-between, find_key-between, value_of-between, count, count-append, occurs-inorder,
  size-inorder, Chain,
}

-- The entries around a hole of the tree.
pub around_hole :
    {K V : Type 0} (t : RedBlackTree K V) (s : Shape) (k : Context)
    → plug k leaf ≡ s
    → contents t s ≡ listed t (before k) ++ listed t (after k)
around_hole t s k whole =
    ap (listed t) (ap inorder (sym whole) ∙ inorder-plug-around k leaf)
    ∙ listed-append t (before k) (after k)

module _ {K V : Type 0} (cmp : K → K → Ordering) (law : IsLawful cmp) where
  pub Sound-Focus :
      (t : RedBlackTree K V) (s : Shape) (hs : List Handle)
      → IsSound cmp t s hs
      → Focus t nil t.root top s
  Sound-Focus t s hs w = record {
    around = (refl, refl);
    links = w.links;
    proper = λ j. omega (arith, w.once j);
  }

  -- The entries around the place of the new one.
  listed-attached :
      (u : RedBlackTree K V) (h p : Handle) (o : Ordering) (key : K) (v : V) (hs : List Handle)
      → count h hs ≡ 0
      → listed (attached u h p o key v) hs ≡ listed u hs
  listed-attached u h p o key v [] c = refl
  listed-attached u h p o key v (j ∷ hs) c =
      let same = attached-same_key u h p o key v j (λ e. ground arith) in
      ground (arith, same, listed-attached u h p o key v hs)

  listed-nodes :
      (t u : RedBlackTree K V) (hs : List Handle) → u.nodes ≡ t.nodes → listed u hs ≡ listed t hs
  listed-nodes t u [] e = refl
  listed-nodes t u (j ∷ hs) e = ground (arith, ap (λ m. m j) e, listed-nodes t u hs e)

  module _ (t : RedBlackTree K V) (s : Shape) (hs : List Handle) (w : IsSound cmp t s hs) (key : K)
      (v : V) (p : Handle) (o : Ordering) (k : Context) (f : Focus t p nil k leaf)
      (whole : plug k leaf ≡ s) (low : All (λ e. cmp key e.key ≡ gt) (listed t (before k)))
      (high : All (λ e. cmp key e.key ≡ lt) (listed t (after k))) (turns : Turns o k) where
    contents_eq : contents t s ≡ listed t (before k) ++ listed t (after k)
    contents_eq = around_hole t s k whole

    pub absent : find_key cmp key (contents t s) ≡ nil
    absent =
        ap (find_key cmp key) contents_eq
        ∙ find_key-between cmp key (listed t (before k)) (listed t (after k)) low high

    module _ (h : Handle) (u : RedBlackTree K V) (js : List Handle) (g : Given t u s h js) where
      abbrev pub new_node : RedBlackTree K V
      new_node = attached u h p o key v

      apart :
          (j : ℕ)
          → (if h == j then 1 else 0) + occurs_around j k + count j js ≤ (if j == nil then 0 else 1)
      apart j = omega (arith, g.once j, occurs-plug k leaf j, ap (occurs j) whole)

      focus : Focus new_node p h k (fork red leaf h leaf)
      focus =
          attached-Focus u h p o key v k
            (record {
              around = Around-frame t u p nil k g.root (λ j i. ap (λ m. m j) g.nodes) f.around;
              links = refl;
              proper = f.proper;
            })
            (λ j. omega (arith, apart j)) turns

      abbrev pub new_shape : Shape
      new_shape = plug k (fork red leaf h leaf)

      pub rebalanced : Rebalanced new_node new_shape (insert_fixup new_node.len new_node h)
      rebalanced =
          let around =
            unplug k leaf (subst Balanced (sym whole) w.balanced)
              (ap root_color whole ∙ w.root_black) in
          repair new_node.len new_node p h k leaf leaf
            (omega (
              arith,
              (attached-counts u h p o key v).0,
              g.len,
              w.len_lem,
              ap size (sym whole),
              size-plug k leaf,
              depth-le-size k,
            ))
            focus (omega arith, (λ e. (refl, refl)), refl, tt, tt) around.1

      pub answer : alloc t ≡ some (h, u) → insert_new t key v p o ≡ some (h, rebalanced.tree)
      unfolding insert_new
      answer e = rw (e, insert_new) (ap (at_handle h) rebalanced.returned)

      new_occurs :
          (j : ℕ) → occurs j rebalanced.shape ≡ (if h == j then 1 else 0) + occurs_around j k
      new_occurs j =
          occurs-inorder j rebalanced.shape
          ∙ ap (count j) rebalanced.order
          ∙ sym (occurs-inorder j new_shape)
          ∙ occurs-plug k (fork red leaf h leaf) j
          ∙ omega arith

      new_size : size rebalanced.shape ≡ size s + 1
      new_size =
          size-inorder rebalanced.shape
          ∙ ap length rebalanced.order
          ∙ sym (size-inorder new_shape)
          ∙ omega (arith, size-plug k (fork red leaf h leaf), size-plug k leaf, ap size whole)

      first_once : occurs h s ≡ 0
      first_once = ground (arith, g.once h)

      h_before : (count h (before k) ≡ 0) × (count h (after k) ≡ 0)
      h_before = omega (
        arith,
        first_once,
        occurs-inorder h s,
        ap (λ m. count h (inorder m)) whole,
        ap (count h) (inorder-plug-around k leaf),
        count-append h (before k) (after k),
      )

      new_inorder : inorder new_shape ≡ before k ++ h ∷ after k
      new_inorder = inorder-plug-around k (fork red leaf h leaf)

      h-ne-p : h ≢ p
      h-ne-p e = ground (arith, apart h, Around-parent t p nil k f.around)

      new_entries :
          listed new_node (before k) ++ listed new_node (h ∷ after k)
          ≡ listed t (before k) ++ record { handle = h; key = key; value = v } ∷ listed t (after k)
      new_entries =
          let n = attached-new u h p o key v h-ne-p in
          let b =
            listed-attached u h p o key v (before k) h_before.0
            ∙ listed-nodes t u (before k) g.nodes in
          let a =
            listed-attached u h p o key v (after k) h_before.1
            ∙ listed-nodes t u (after k) g.nodes in
          rw (b, a, n)

      pub new_contents :
          contents rebalanced.tree rebalanced.shape
          ≡ insert_entry cmp (record { handle = h; key = key; value = v }) (contents t s)
      new_contents =
          listed-same rebalanced.same (inorder rebalanced.shape)
          ∙ ap (listed new_node) (rebalanced.order ∙ new_inorder)
          ∙ listed-append new_node (before k) (h ∷ after k)
          ∙ new_entries
          ∙ sym (
              insert_entry-between cmp (record { handle = h; key = key; value = v })
                (listed t (before k)) (listed t (after k)) low high)
          ∙ ap (insert_entry cmp (record { handle = h; key = key; value = v })) (sym contents_eq)

      pub counts :
          (new_node.len ≡ u.len + 1)
          × (new_node.bump ≡ u.bump)
          × (new_node.capacity ≡ u.capacity)
          × (new_node.free_head ≡ u.free_head)
      counts = attached-counts u h p o key v

      occurs_s : (j : ℕ) → occurs j s ≡ occurs_around j k
      occurs_s j = omega (arith, ap (occurs j) whole, occurs-plug k leaf j)

      untouched : (j : ℕ) → 1 ≤ count j js → rebalanced.tree.nodes j ≡ u.nodes j
      untouched j i =
          let hj : h ≢ j = λ e. ground (arith, apart j) in
          let pj : p ≢ j = λ e. ground (arith, apart j, Around-parent t p nil k f.around) in
          let n : j ≢ nil = λ e. ground (arith, apart j) in
          rebalanced.kept j (occurs-plug k (fork red leaf h leaf) j ∙ ground (arith, apart j)) n
          ∙ attached-other u h p o key v j hj pj

      pub new-IsSound : IsSound cmp rebalanced.tree rebalanced.shape js
      new-IsSound = record {
        links = rebalanced.links;
        chain =
            subst (λ z. Chain rebalanced.tree z js) (sym (rebalanced.same.free_head ∙ counts.3))
              (Chain-frame u rebalanced.tree u.free_head js untouched g.chain);
        once = λ j. omega (arith, new_occurs j, apart j);
        within = λ j i.
            (rw (rebalanced.same.bump ∙ counts.1)
              (g.within j (omega (arith, i, new_occurs j, occurs_s j))));
        len_lem = rebalanced.same.len ∙ omega (arith, counts.0, g.len, w.len_lem, new_size);
        slots = rebalanced.same.bump ∙ omega (arith, counts.1, g.slots, new_size);
        room = omega (
          arith, rebalanced.same.bump, rebalanced.same.capacity, counts.1, counts.2, g.room,
          g.capacity,
        );
        balanced = rebalanced.balanced;
        root_black = rebalanced.root_black;
        sorted = subst (IsSorted cmp) (sym new_contents) (
            insert_entry-IsSorted law (record { handle = h; key = key; value = v }) (contents t s)
              (ap (value_of cmp key) contents_eq
                ∙ value_of-between cmp key (listed t (before k)) (listed t (after k)) low high)
              w.sorted);
      }
