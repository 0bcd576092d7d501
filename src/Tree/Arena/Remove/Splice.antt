-- ===== src/Tree/Arena/Remove/Splice.antt =====
-- crates/clob-book/src/tree/remove.rs: `remove_handle` takes the node out and leaves a tree that may be
-- one black short at one place.
use clob_dex.Prelude.{
  ℕ, ◌+◌, ◌≤◌, ◌≡◌, ◌≢◌, inl, inr, sym, ap, subst, ◌∙◌, ◌==◌, if◌then◌else◌, arith, List, ◌∷◌, ◌++◌,
}
use mathlib.Core.List.{append_assoc, append-nil}
use clob_dex.Tree.{Handle, nil}
use clob_dex.Tree.Arena.{RedBlackTree, parent_of, red, black}
use clob_dex.Tree.Arena.Remove.{Spliced, splice_one, transplant}
use clob_dex.Tree.Arena.Remove.Graft.{transplant-Focus}
use clob_dex.Tree.Arena.Remove.Steps.{Relinks}
use clob_dex.Tree.Arena.Remove.Written.{Within, Relinks-transplant}
use clob_dex.Tree.Arena.Shape.{
  Shape, leaf, fork, Context, plug, inorder, occurs, occurs_around, occurs-plug, Links,
  Links-occurs,
}
use clob_dex.Tree.Arena.Balanced.{root_color, black_height, Balanced, Fits, unplug}
use clob_dex.Tree.Arena.Focus.{Focus, Around-parent, nil_cases}
use clob_dex.Tree.Arena.Insert.Rebalance.{parent_of_lem}
use clob_dex.Tree.Arena.Sound.{count, occurs-inorder, before, after, inorder-plug-around}

module _ {K V : Type 0} where
  -- What the splice leaves where the node `z` of the tree `s` stood.
  pub record Gap (t : RedBlackTree K V) (z : Handle) (s : Shape) (g : Spliced K V) : Type 0 where
    pub around : Context
    pub short : Shape
    pub focus : Focus g.arena g.above g.moved around short
    pub low : List Handle
    pub high : List Handle
    pub order_before : inorder s ≡ low ++ z ∷ high
    pub order : inorder (plug around short) ≡ low ++ high
    pub balanced : Balanced short
    pub fits : Fits around (black_height short + (if g.color == black then 1 else 0))
    pub color : g.color ≤ black
    pub roof : g.color ≡ red → root_color short ≡ black
    pub relinks : Relinks t g.arena (inorder s)

  module _ (t : RedBlackTree K V) (p z : Handle) (k : Context) (cz : ℕ) (l r : Shape)
      (f : Focus t p z k (fork cz l z r)) (b : Balanced (plug k (fork cz l z r)))
      (rb : root_color (plug k (fork cz l z r)) ≡ black) where
    pub z-ne-nil : z ≢ nil
    z-ne-nil = omega (arith, f.links.1)

    pub to_p : parent_of t z ≡ p
    to_p = parent_of_lem t p z (fork cz l z r) f.links z-ne-nil

    pub regrouped :
        inorder (plug k (fork cz l z r)) ≡ (before k ++ inorder l) ++ z ∷ (inorder r ++ after k)
    regrouped = inorder-plug-around k (fork cz l z r) ∙ simp append_assoc

    abbrev pub whole : Shape
    whole = plug k (fork cz l z r)

    pub listed_in :
        (j : ℕ)
        → count j (inorder whole)
          ≡ (if z == j then 1 else 0) + occurs j l + occurs j r + occurs_around j k
    listed_in j = sym (occurs-inorder j whole) ∙ occurs-plug k (fork cz l z r) j

    pub in_right : (j : ℕ) → occurs j r ≤ count j (inorder whole)
    in_right j = omega (arith, listed_in j)

    pub above-Within : Within p (inorder whole)
    above-Within = elim (Around-parent t p z k f.around) [
      | inl e ↦ inl e
      | inr o ↦ inr (omega (arith, o, listed_in p))
    ]

    pub Within-tree :
        (h : Handle) (s : Shape)
        → Links t z h s
        → ((j : ℕ) → occurs j s ≤ count j (inorder whole))
        → Within h (inorder whole)
    Within-tree h s links below = elim (nil_cases h) [
      | inl e ↦ inl e
      | inr n ↦ inr (omega (arith, Links-occurs t z h s links n, below h))
    ]

    pub no_left : l ≡ leaf → Gap t z (plug k (fork cz l z r)) (splice_one z (t.nodes z).right t)
    no_left e =
        let u = unplug k (fork cz l z r) b rb in
        record {
          around = k;
          short = r;
          focus =
              subst (λ m. Focus (transplant z (t.nodes z).right t) m (t.nodes z).right k r)
                (sym f.links.2)
                (transplant-Focus t p z z (t.nodes z).right k r to_p f.around f.links.5
                  (λ j. omega (arith, f.proper j)));
          low = before k ++ inorder l;
          high = inorder r ++ after k;
          order_before = regrouped;
          order = inorder-plug-around k r ∙ rw e (simp append-nil);
          balanced = u.0.4;
          fits =
              subst (Fits k)
                (ap (λ n. n + (if cz == black then 1 else 0)) u.0.2
                  ∙ ap (λ n. black_height r + (if n == black then 1 else 0)) (sym f.links.3))
                u.1;
          color = rw f.links.3 u.0.0;
          roof = λ q. (u.0.1 (sym f.links.3 ∙ q)).1;
          relinks =
              Relinks-transplant z (t.nodes z).right p t (inorder whole) to_p above-Within
                (Within-tree (t.nodes z).right r f.links.5 (λ j. omega (arith, in_right j)));
        }

    pub no_right : r ≡ leaf → Gap t z (plug k (fork cz l z r)) (splice_one z (t.nodes z).left t)
    no_right e =
        let u = unplug k (fork cz l z r) b rb in
        record {
          around = k;
          short = l;
          focus =
              subst (λ m. Focus (transplant z (t.nodes z).left t) m (t.nodes z).left k l)
                (sym f.links.2)
                (transplant-Focus t p z z (t.nodes z).left k l to_p f.around f.links.4
                  (λ j. omega (arith, f.proper j)));
          low = before k ++ inorder l;
          high = inorder r ++ after k;
          order_before = regrouped;
          order = inorder-plug-around k l ∙ rw e (simp append_assoc);
          balanced = u.0.3;
          fits =
              subst (Fits k)
                (ap (λ n. black_height l + (if n == black then 1 else 0)) (sym f.links.3)) u.1;
          color = rw f.links.3 u.0.0;
          roof = λ q. (u.0.1 (sym f.links.3 ∙ q)).0;
          relinks =
              Relinks-transplant z (t.nodes z).left p t (inorder whole) to_p above-Within
                (Within-tree (t.nodes z).left l f.links.4 (λ j. omega (arith, listed_in j)));
        }
