-- ===== src/Tree/Arena/Remove/Successor.antt =====
-- crates/clob-book/src/tree/remove.rs: the splice of a node with two children.
use clob_dex.Prelude.{
  ℕ, ◌+◌, ◌≤◌, ◌≡◌, ◌≢◌, inl, inr, refl, sym, ap, subst, ◌∙◌, ◌==◌, if◌then◌else◌, arith, ◌∷◌, ◌++◌,
}
use mathlib.Core.List.{append_assoc}
use clob_dex.Tree.{Handle, nil}
use clob_dex.Tree.Arena.{rightward, RedBlackTree, child, parent_of, black}
use clob_dex.Tree.Arena.Remove.{after_lift, replace, splice_two, lift_successor}
use clob_dex.Tree.Arena.Remove.Graft.{replace-Focus}
use clob_dex.Tree.Arena.Remove.Leftmost.{
  join, plug-join, occurs_around-join, Leftmost, inorder-Leftmost, zoom_through,
}
use clob_dex.Tree.Arena.Remove.Steps.{Relinks}
use clob_dex.Tree.Arena.Remove.Written.{Within, Relinks-replace}
use clob_dex.Tree.Arena.Remove.Splice.{Gap, regrouped, listed_in, to_p, above-Within}
use clob_dex.Tree.Arena.Shape.{
  Shape, leaf, fork, Context, top, down, plug, inorder, occurs, occurs_around, occurs-plug, Around,
  Links, Links-occurs,
}
use clob_dex.Tree.Arena.Balanced.{root_color, black_height, Balanced, Fits, color_above, unplug}
use clob_dex.Tree.Arena.Focus.{Focus, nil_cases}
use clob_dex.Tree.Arena.Zoom.{zoom_in}
use clob_dex.Tree.Arena.Insert.Rounds.{root_same}
use clob_dex.Tree.Arena.Sound.{count, before, after, inorder-plug-around}

-- The balance of a context does not show whose node it is.
color_above-join :
    (i k : Context) (z y c : ℕ) (l : Shape)
    → color_above (join i (down rightward z c l k)) ≡ color_above (join i (down rightward y c l k))
color_above-join top k z y c l = refl
color_above-join (down d q e far i) k z y c l = refl

Fits-join :
    (i k : Context) (z y c : ℕ) (l : Shape) (n : ℕ)
    → Fits (join i (down rightward z c l k)) n
    → Fits (join i (down rightward y c l k)) n
Fits-join top k z y c l n f = f
Fits-join (down d q e far i) k z y c l n f = (
  f.0,
  (λ h. ((f.1 h).0, sym (color_above-join i k z y c l) ∙ (f.1 h).1)),
  f.2,
  f.3,
  Fits-join i k z y c l (n + (if e == black then 1 else 0)) f.4,
)

module _ {K V : Type 0} where
  module _ (t : RedBlackTree K V) (p z : Handle) (k : Context) (cz : ℕ) (l r : Shape)
      (f : Focus t p z k (fork cz l z r)) (b : Balanced (plug k (fork cz l z r)))
      (rb : root_color (plug k (fork cz l z r)) ≡ black) (ln : (t.nodes z).left ≢ nil) (y py cy : ℕ)
      (i : Context) (ry : Shape)
      (g : Focus t py y (join i (down rightward z cz l k)) (fork cy leaf y ry))
      (same : plug i (fork cy leaf y ry) ≡ r) (lm : Leftmost i) where
    abbrev pub there : Context
    there = join i (down rightward y cz l k)

    pub sep :
        (j : ℕ)
        → (if z == j then 1 else 0)
            + (if y == j then 1 else 0)
            + occurs j l
            + occurs j ry
            + occurs_around j i
            + occurs_around j k
          ≤ (if j == nil then 0 else 1)
    sep j = omega (arith, g.proper j, occurs_around-join i (down rightward z cz l k) j)

    left_order : inorder r ≡ y ∷ inorder (plug i ry)
    left_order =
        ap inorder (sym same)
        ∙ inorder-Leftmost i (fork cy leaf y ry) lm
        ∙ ap (λ m. y ∷ m) (sym (inorder-Leftmost i ry lm))

    order_after : inorder (plug there ry) ≡ (before k ++ inorder l) ++ (inorder r ++ after k)
    order_after =
        ap inorder (plug-join i (down rightward y cz l k) ry)
        ∙ inorder-plug-around k (fork cz l y (plug i ry))
        ∙ rw left_order (simp append_assoc)

    at_y :
        Balanced (fork cy leaf y ry)
        × Fits (join i (down rightward z cz l k)) (1 + (if cy == black then 1 else 0))
    at_y =
        let e : plug (join i (down rightward z cz l k)) (fork cy leaf y ry)
            ≡ plug k (fork cz l z r) =
          plug-join i (down rightward z cz l k) (fork cy leaf y ry)
          ∙ ap (λ m. plug k (fork cz l z m)) same in
        let u =
          unplug (join i (down rightward z cz l k)) (fork cy leaf y ry) (subst Balanced (sym e) b)
            (ap root_color e ∙ rb) in
        (u.0, u.1)

    -- The splice, once the successor is out of its place.
    pub gap :
        (u : RedBlackTree K V) (xp : Handle)
        → Focus (replace z y (t.nodes z).left u) xp (t.nodes y).right there ry
        → Relinks t (replace z y (t.nodes z).left u) (inorder (plug k (fork cz l z r)))
        → Gap t z (plug k (fork cz l z r)) (after_lift z y t (xp, u))
    gap u xp v rl = record {
      around = there;
      short = ry;
      focus = v;
      low = before k ++ inorder l;
      high = inorder r ++ after k;
      order_before = regrouped t p z k cz l r f b rb;
      order = order_after;
      balanced = at_y.0.4;
      fits =
          subst (Fits there)
            (ap (λ n. n + (if cy == black then 1 else 0)) at_y.0.2
              ∙ ap (λ n. black_height ry + (if n == black then 1 else 0)) (sym g.links.3))
            (Fits-join i k z y cz l (1 + (if cy == black then 1 else 0)) at_y.1);
      color = rw g.links.3 at_y.0.0;
      roof = λ q. (at_y.0.1 (sym g.links.3 ∙ q)).1;
      relinks = rl;
    }

    to_left : Links t z (t.nodes z).left l
    to_left = f.links.4

    pub left_here : 1 ≤ occurs (t.nodes z).left l
    left_here = Links-occurs t z (t.nodes z).left l to_left ln

    pub counted :
        (j : ℕ)
        → (if y == j then 1 else 0) + occurs j l + occurs j ry + occurs_around j i
          ≤ count j (inorder (plug k (fork cz l z r)))
    counted j = omega (
      arith,
      listed_in t p z k cz l r f b rb j,
      ap (occurs j) same,
      occurs-plug i (fork cy leaf y ry) j,
    )

    pub moved_here : Within (t.nodes y).right (inorder (plug k (fork cz l z r)))
    moved_here = elim (nil_cases (t.nodes y).right) [
      | inl e ↦ inl e
      | inr n ↦ inr (
          omega
            (arith, Links-occurs t y (t.nodes y).right ry g.links.5 n, counted (t.nodes y).right))
    ]

    -- The focus on the gap, from the one on the successor in its new place.
    pub gap_focus :
        (u : RedBlackTree K V) (q xp : Handle)
        → Focus u q y k (fork cz l y (plug i ry))
        → ((xq xj : Handle) → Focus u xq xj there ry → xq ≡ xp)
        → Focus u xp (t.nodes y).right there ry
    gap_focus u q xp v place =
        let v1 = zoom_in u rightward q y y cz l (plug i ry) k v in
        let (xq, xj, v2) =
          zoom_through u y (child rightward (u.nodes y)) i (down rightward y cz l k) ry v1 in
        subst (λ m. Focus u m (t.nodes y).right there ry) (place xq xj v2)
          (subst (λ m. Focus u xq m there ry)
            (root_same u t xq y xj (t.nodes y).right ry v2.links g.links.5) v2)

    pub replaced :
        (u : RedBlackTree K V)
        → parent_of u z ≡ p
        → (u.nodes z).color ≡ cz
        → Around u p z k
        → Links u py y (fork cy leaf y (plug i ry))
        → Links u z (t.nodes z).left l
        → Focus (replace z y (t.nodes z).left u) p y k (fork cz l y (plug i ry))
    replaced u e c a ly ll =
        replace-Focus u p z py y (t.nodes z).left cz cy l (plug i ry) k e c a ly ll ln
          (λ j. omega (arith, sep j, occurs-plug i ry j))

  -- The successor is the right child.
  pub near-Gap :
      (t : RedBlackTree K V) (p z : Handle) (k : Context) (cz : ℕ) (l r : Shape)
      (f : Focus t p z k (fork cz l z r)) (b : Balanced (plug k (fork cz l z r)))
      (rb : root_color (plug k (fork cz l z r)) ≡ black) (ln : (t.nodes z).left ≢ nil) (y py cy : ℕ)
      (ry : Shape) (g : Focus t py y (down rightward z cz l k) (fork cy leaf y ry))
      → fork cy leaf y ry ≡ r
      → Gap t z (plug k (fork cz l z r)) (splice_two z y t)
  near-Gap t p z k cz l r f b rb ln y py cy ry g same =
      let zl = (t.nodes z).left in
      let v =
        replaced t p z k cz l r f b rb ln y py cy top ry g same tt t (to_p t p z k cz l r f b rb)
          f.links.3 f.around g.links f.links.4 in
      let c = counted t p z k cz l r f b rb ln y py cy top ry g same tt in
      let w =
        gap_focus t p z k cz l r f b rb ln y py cy top ry g same tt (replace z y zl t) p y v
          (λ xq xj m. m.around.0) in
      let here = left_here t p z k cz l r f b rb ln y py cy top ry g same tt in
      let rl =
        Relinks-replace z y zl p t (inorder (plug k (fork cz l z r))) (to_p t p z k cz l r f b rb)
          (above-Within t p z k cz l r f b rb) (ground (arith, c y)) (omega (arith, c zl, here)) in
      let lifted : (y, t) ≡ lift_successor z y t = ground (arith, g.links.2, g.around.0) in
      subst (λ m. Gap t z (plug k (fork cz l z r)) (after_lift z y t m)) lifted
        (gap t p z k cz l r f b rb ln y py cy top ry g same tt t y w rl)
