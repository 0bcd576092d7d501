-- ===== src/Tree/Arena/Insert/Fixup.antt =====
-- crates/clob-book/src/tree/insert.rs: `insert_fixup` ends, and leaves a balanced tree.
use clob_dex.Prelude.{
  ℕ, suc, ◌≤◌, ◌≡◌, ◌≢◌, ◌⊎◌, inl, inr, refl, sym, ap, subst, ◌∙◌, ◌==◌, if◌then◌else◌, arith,
  Option, some,
}
use clob_dex.Tree.{Handle, nil}
use clob_dex.Tree.Arena.{
  Direction, opposite, RedBlackTree, child, child_of, parent_of, color_of, set_color, red, black,
}
use clob_dex.Tree.Arena.Insert.{way, straighten, lift, recolor, fixup_round, insert_fixup}
use clob_dex.Tree.Arena.Insert.Rebalance.{way_lem, parent_of_lem}
use clob_dex.Tree.Arena.Shape.{
  Shape, leaf, fork, Context, top, down, bend, plug, inorder, occurs, Links, Links-occurs,
  plug-Links, occurs-plug, Kept,
}
use clob_dex.Tree.Arena.Balanced.{root_color, Balanced}
use clob_dex.Tree.Arena.Focus.{Focus, nil_cases}
use clob_dex.Tree.Arena.Zoom.{zoom_out, paint}
use clob_dex.Tree.Arena.Data.{set_color-other, SameData, set_color-SameData}

abbrev pub blacken : Shape → Shape
blacken leaf = leaf
blacken (fork c l x r) = fork black l x r

pub blacken_lem :
    (s : Shape)
    → Balanced s
    → Balanced (blacken s) × (root_color (blacken s) ≡ black) × (inorder (blacken s) ≡ inorder s)
blacken_lem leaf b = (tt, refl, refl)
blacken_lem (fork c l x r) b = ((omega arith, λ e. absurd (omega arith), b.2, b.3, b.4), refl, refl)

module _ {K V : Type 0} where
  -- What the rebalance of a tree with the shape `s` answers.
  pub record Rebalanced (t : RedBlackTree K V) (s : Shape) (o : Option (RedBlackTree K V))
      : Type 0 where
    pub tree : RedBlackTree K V
    pub shape : Shape
    pub returned : o ≡ some tree
    pub links : Links tree nil tree.root shape
    pub order : inorder shape ≡ inorder s
    pub balanced : Balanced shape
    pub root_black : root_color shape ≡ black
    pub same : SameData t tree
    pub kept : Kept t tree s

  pub color_of_lem :
      (t : RedBlackTree K V) (p h : Handle) (s : Shape)
      → Links t p h s
      → color_of t h ≡ root_color s
  color_of_lem t p h leaf l = ground arith
  color_of_lem t p h (fork c a x b) l = ground arith

  round_at : RedBlackTree K V → Handle → Handle → Handle → Direction → Handle × RedBlackTree K V
  round_at t z p g d =
      let u = child_of (opposite d) t g in
      if color_of t u == red
      then (g, recolor p u g t)
      else (let zig = straighten d z p t in (zig.0, lift d zig.0 zig.1))

  round_lem :
      (t : RedBlackTree K V) (z q g : Handle) (e : Direction)
      → parent_of t z ≡ q
      → parent_of t q ≡ g
      → way t q g ≡ e
      → fixup_round t z ≡ round_at t z q g e
  unfolding fixup_round round_at
  round_lem t z q g e a b c =
      ap (λ (p : Handle). round_at t z p (parent_of t p) (way t p (parent_of t p))) a
      ∙ ap (λ (h : Handle). round_at t z q h (way t q h)) b
      ∙ ap (λ (d : Direction). round_at t z q g d) c

  finish :
      (t : RedBlackTree K V) (s : Shape)
      → Focus t nil t.root top s
      → Focus (set_color t.root black t) nil t.root top (blacken s)
  finish t leaf f = record { around = (refl, ground arith); links = f.links; proper = f.proper }
  finish t (fork c l x r) f =
      let e : t.root ≡ x = f.links.0 in
      subst (λ z. Focus (set_color z black t) nil t.root top (fork black l x r)) (sym e)
        (paint t nil t.root x c black l r top f)

  pub Focus-Links :
      {t : RedBlackTree K V} {p h : Handle} {s : Shape} → Focus t p h top s → Links t nil t.root s
  Focus-Links {t} {p} {h} {s} f =
      subst (λ z. Links t nil z s) (sym f.around.1) (subst (λ z. Links t z h s) f.around.0 f.links)

  -- The focus on the whole tree.
  pub whole :
      (t : RedBlackTree K V) (p h : Handle) (k : Context) (s : Shape)
      → Focus t p h k s
      → Focus t nil t.root top (plug k s)
  whole t p h k s f = record {
    around = (refl, refl);
    links = plug-Links t k p h s f.around f.links;
    proper = λ j. omega (arith, f.proper j, occurs-plug k s j);
  }

  pub stop :
      (f : ℕ) (t : RedBlackTree K V) (p z : Handle) (k : Context) (s : Shape)
      → Focus t p z k s
      → color_of t (parent_of t z) ≡ black
      → Balanced (plug k s)
      → Rebalanced t (plug k s) (insert_fixup (suc f) t z)
  unfolding insert_fixup
  stop f t p z k s w c b =
      let v = finish t (plug k s) (whole t p z k s w) in
      let m = blacken_lem (plug k s) b in
      let at_root : (t.root ≡ nil) ⊎ (1 ≤ occurs t.root (plug k s)) = elim (nil_cases t.root) [
        | inl e ↦ inl e
        | inr ne ↦ inr (Links-occurs t nil t.root (plug k s) (whole t p z k s w).links ne)
      ] in
      record {
        tree = set_color t.root black t;
        shape = blacken (plug k s);
        returned = rw (c, insert_fixup);
        links = Focus-Links v;
        order = m.2;
        balanced = m.0;
        root_black = m.1;
        same = set_color-SameData t.root black t;
        kept = λ j o n. set_color-other t.root black j t (λ e. ground (arith, at_root, o, e, n));
      }

  module _ (t : RedBlackTree K V) (d e : Direction) (p z q g : Handle) (c : ℕ) (s far uncle : Shape)
      (k : Context) (w : Focus t p z (down d q red far (down e g c uncle k)) s) (n : z ≢ nil) where
    to_q : parent_of t z ≡ q
    to_q = parent_of_lem t p z s w.links n ∙ w.around.0

    pub at_q : Focus t (t.nodes q).parent q (down e g c uncle k) (bend d red s q far)
    at_q = zoom_out t d p z q red far s (down e g c uncle k) w

    q-ne-nil : q ≢ nil
    q-ne-nil = omega (arith, w.around.1)

    to_g : parent_of t q ≡ g
    to_g =
        parent_of_lem t (t.nodes q).parent q (bend d red s q far) at_q.links q-ne-nil
        ∙ at_q.around.0

    to_e : way t q g ≡ e
    to_e =
        subst (λ m. way t q m ≡ e) at_q.around.0
          (way_lem t e (t.nodes q).parent q g c uncle (bend d red s q far) k at_q
            (Links-occurs t (t.nodes q).parent q (bend d red s q far) at_q.links q-ne-nil))

    pub uncle_at : child_of (opposite e) t g ≡ child (opposite e) (t.nodes g)
    uncle_at = ground (arith, w.around.5.1)

    uncle_color : color_of t (child_of (opposite e) t g) ≡ root_color uncle
    uncle_color =
        ap (color_of t) uncle_at
        ∙ color_of_lem t g (child (opposite e) (t.nodes g)) uncle w.around.5.4

    as_round : fixup_round t z ≡ round_at t z q g e
    as_round = round_lem t z q g e to_q to_g to_e

    pub round_recolor :
        root_color uncle ≡ red → fixup_round t z ≡ (g, recolor q (child_of (opposite e) t g) g t)
    unfolding round_at
    round_recolor r =
        as_round
        ∙ ap
            (λ (b : ℕ).
              if b == red
              then (g, recolor q (child_of (opposite e) t g) g t)
              else (let zig = straighten e z q t in (zig.0, lift e zig.0 zig.1)))
            (uncle_color ∙ r)

    pub round_lift :
        root_color uncle ≡ black
        → fixup_round t z
          ≡ ((straighten e z q t).0, lift e (straighten e z q t).0 (straighten e z q t).1)
    unfolding round_at
    round_lift r =
        as_round
        ∙ ap
            (λ (b : ℕ).
              if b == red
              then (g, recolor q (child_of (opposite e) t g) g t)
              else (let zig = straighten e z q t in (zig.0, lift e zig.0 zig.1)))
            (uncle_color ∙ r)
