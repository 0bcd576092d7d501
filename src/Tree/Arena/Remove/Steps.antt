-- ===== src/Tree/Arena/Remove/Steps.antt =====
-- crates/clob-book/src/tree/remove.rs: colour changes and rotations write to the nodes of the tree only,
-- and to no key or value.
use clob_dex.Prelude.{ℕ, ◌≤◌, ◌≡◌, ◌≢◌, refl, sym, ap, ◌∙◌, arith, List}
use clob_dex.Tree.{Handle, nil}
use clob_dex.Tree.Arena.{Direction, leftward, rightward, opposite, RedBlackTree, set_color, rotate}
use clob_dex.Tree.Arena.Shape.{Shape, Context, bend, plug, inorder, occurs, occurs-plug, Kept}
use clob_dex.Tree.Arena.Focus.{Focus}
use clob_dex.Tree.Arena.Turn.{rotate-kept}
use clob_dex.Tree.Arena.Sound.{count, occurs-inorder}
use clob_dex.Tree.Arena.Data.{
  SameData, same_trans, same_refl, set_color-SameData, set_color-other, rotate-SameData,
}

module _ {K V : Type 0} where
  -- `u` comes from `t` by changes to the links and colours of the nodes in `hs`.
  pub record Relinks (t u : RedBlackTree K V) (hs : List Handle) : Type 0 where
    pub same : SameData t u
    pub kept : (j : ℕ) → count j hs ≡ 0 → j ≢ nil → u.nodes j ≡ t.nodes j

  pub Relinks-trans :
      {t u v : RedBlackTree K V} {hs : List Handle}
      → Relinks t u hs
      → Relinks u v hs
      → Relinks t v hs
  Relinks-trans a b = record {
    same = same_trans a.same b.same;
    kept = λ j o n. b.kept j o n ∙ a.kept j o n;
  }

  pub Relinks-refl : (t : RedBlackTree K V) (hs : List Handle) → Relinks t t hs
  Relinks-refl t hs = record { same = same_refl t; kept = λ j o n. refl }

  pub Relinks-Kept :
      {t u : RedBlackTree K V} (s : Shape) (hs : List Handle)
      → inorder s ≡ hs
      → Relinks t u hs
      → Kept t u s
  Relinks-Kept s hs e r j o n = r.kept j (ap (count j) (sym e) ∙ sym (occurs-inorder j s) ∙ o) n

  pub Relinks-color :
      (t : RedBlackTree K V) (h c : ℕ) (s : Shape) (hs : List Handle)
      → inorder s ≡ hs
      → 1 ≤ occurs h s
      → Relinks t (set_color h c t) hs
  Relinks-color t h c s hs e o = record {
    same = set_color-SameData h c t;
    kept = λ j z n.
        set_color-other h c j t (λ q. ground (arith, o, occurs-inorder j s, ap (count j) e, z, q));
  }

  pub Relinks-rotate :
      (d : Direction) (t : RedBlackTree K V) (p x y : Handle) (k : Context) (cx cy : ℕ)
      (near inner far : Shape) (hs : List Handle)
      → Focus t p x k (bend d cx near x (bend d cy inner y far))
      → inorder (plug k (bend d cx near x (bend d cy inner y far))) ≡ hs
      → Relinks t (rotate d x t) hs
  Relinks-rotate d t p x y k cx cy near inner far hs f e =
      let m = bend d cx near x (bend d cy inner y far) in
      record {
        same = rotate-SameData d x t;
        kept = λ j z n.
            rotate-kept d t p x y k cx cy near inner far f j
              (omega (arith, occurs-plug k m j, occurs-inorder j (plug k m), ap (count j) e, z)) n;
      }

  pub Relinks-inward :
      (d : Direction) (t : RedBlackTree K V) (p w x : Handle) (k : Context) (c n : ℕ)
      (a b other : Shape) (hs : List Handle)
      → Focus t p w k (bend d c (bend d n a x b) w other)
      → inorder (plug k (bend d c (bend d n a x b) w other)) ≡ hs
      → Relinks t (rotate (opposite d) w t) hs
  Relinks-inward leftward t p w x k c n a b other hs f e =
      Relinks-rotate rightward t p w x k c n other b a hs f e
  Relinks-inward rightward t p w x k c n a b other hs f e =
      Relinks-rotate leftward t p w x k c n other b a hs f e
