-- ===== src/Tree/Arena/Turn.antt =====
-- A rotation in its context: the links after it make the turned shape, with the same order of handles
-- and the same data.
use clob_dex.Prelude.{
  ℕ, ◌+◌, ◌≤◌, ◌<◌, ◌≡◌, ◌≢◌, ◌⊎◌, inl, inr, refl, sym, ap, subst, ◌∙◌, ◌==◌, if◌then◌else◌, arith,
  ◌∷◌,
}
use mathlib.Core.List.{append_assoc}
use clob_dex.Tree.{Handle, nil}
use clob_dex.Tree.Arena.{
  Direction, leftward, rightward, opposite, Node, RedBlackTree, child, rotate,
}
use clob_dex.Tree.Arena.Shape.{
  Shape, Context, bend, occurs, occurs_around, Links, Around, Links-bend, bend-Links, Links-frame,
  Links-occurs, inorder,
}
use clob_dex.Tree.Arena.Rotate.{
  with_child, with_parent, rotate-other, rotate-pivot, rotate-child, rotate-inner, rotate-above,
  rotate-root,
}
use clob_dex.Tree.Arena.Focus.{
  nil_cases, occurs-bend, Focus, Around-parent, Links-adopt, Around-relink,
}

module _ {K V : Type 0} where
  pivot_lem :
      (d : Direction) (y b : Handle) (n : Node K V)
      → let m = with_parent y (with_child (opposite d) b n) in
        (child d m ≡ child d n) × (child (opposite d) m ≡ b) × (m.color ≡ n.color)
  pivot_lem leftward y b n = (refl, refl, refl)
  pivot_lem rightward y b n = (refl, refl, refl)

  child_lem :
      (d : Direction) (x p : Handle) (n : Node K V)
      → let m = with_child d x (with_parent p n) in
        (m.parent ≡ p)
        × (child d m ≡ x)
        × (child (opposite d) m ≡ child (opposite d) n)
        × (m.color ≡ n.color)
  child_lem leftward x p n = (refl, refl, refl, refl)
  child_lem rightward x p n = (refl, refl, refl, refl)

  module _ (d : Direction) (t : RedBlackTree K V) (p x y b : Handle) (k : Context) (cx cy : ℕ)
      (near inner far : Shape)
      (sep : (j : ℕ)
        → (if x == j then 1 else 0)
            + (if y == j then 1 else 0)
            + occurs j near
            + occurs j inner
            + occurs j far
            + occurs_around j k
          ≤ (if j == nil then 0 else 1))
      (around : Around t p x k)
      (lx : (0 < x)
        × ((t.nodes x).parent ≡ p)
        × ((t.nodes x).color ≡ cx)
        × Links t x (child d (t.nodes x)) near)
      (to_y : child (opposite d) (t.nodes x) ≡ y)
      (ly : (0 < y)
        × ((t.nodes y).color ≡ cy)
        × Links t y (child d (t.nodes y)) inner
        × Links t y (child (opposite d) (t.nodes y)) far)
      (to_b : child d (t.nodes y) ≡ b) where
    x-ne-y : x ≢ y
    x-ne-y e = ground (arith, sep x)

    b_cases : (b ≡ nil) ⊎ (1 ≤ occurs b inner)
    b_cases = elim (nil_cases b) [
      | inl e ↦ inl e
      | inr n ↦ inr (Links-occurs t y b inner (subst (λ z. Links t y z inner) to_b ly.2) n)
    ]

    b-ne-x : b ≢ x
    b-ne-x e = ground (arith, sep x, b_cases)

    b-ne-y : b ≢ y
    b-ne-y e = ground (arith, sep y, b_cases)

    p-ne-x : p ≢ x
    p-ne-x e = ground (arith, sep x, Around-parent t p x k around)

    p-ne-y : p ≢ y
    p-ne-y e = ground (arith, sep y, Around-parent t p x k around)

    b-ne-p : b ≢ nil → b ≢ p
    b-ne-p n e = ground (arith, sep b, b_cases, Around-parent t p x k around)

    -- A node away from the rotation.
    other : (j : ℕ) → 1 ≤ occurs j near + occurs j far → (rotate d x t).nodes j ≡ t.nodes j
    other j o =
        rotate-other t x y b p d j to_y to_b lx.1 x-ne-y b-ne-x (λ e. ground (arith, sep j))
          (λ e. ground (arith, sep j)) (λ e. ground (arith, sep j, b_cases))
          (λ e. ground (arith, sep j, Around-parent t p x k around))

    elsewhere :
        (j : ℕ)
        → (if x == j then 1 else 0)
            + (if y == j then 1 else 0)
            + occurs j near
            + occurs j inner
            + occurs j far
            + occurs_around j k
          ≡ 0
        → j ≢ nil
        → (rotate d x t).nodes j ≡ t.nodes j
    elsewhere j o n =
        rotate-other t x y b p d j to_y to_b lx.1 x-ne-y b-ne-x (λ e. ground arith)
          (λ e. ground arith) (λ e. ground (arith, b_cases))
          (λ e. ground (arith, Around-parent t p x k around))

    near-Links : Links (rotate d x t) x (child d (t.nodes x)) near
    near-Links =
        Links-frame t (rotate d x t) x (child d (t.nodes x)) near (λ j o. other j (omega arith))
          lx.3

    far-Links : Links (rotate d x t) y (child (opposite d) (t.nodes y)) far
    far-Links =
        Links-frame t (rotate d x t) y (child (opposite d) (t.nodes y)) far
          (λ j o. other j (omega arith)) ly.3

    inner-Links : Links (rotate d x t) x b inner
    inner-Links =
        Links-adopt t (rotate d x t) y x b inner
          (λ j o n.
            rotate-other t x y b p d j to_y to_b lx.1 x-ne-y b-ne-x (λ e. ground (arith, sep j))
              (λ e. ground (arith, sep j)) n
              (λ e. ground (arith, sep j, Around-parent t p x k around)))
          (λ n. rotate-inner t x y b p d to_y to_b lx.1 x-ne-y b-ne-x b-ne-y (b-ne-p n) n)
          (λ j. omega (arith, sep j)) (subst (λ z. Links t y z inner) to_b ly.2)

    Around-links : Around (rotate d x t) p y k
    Around-links =
        Around-relink d t (rotate d x t) p x y k
          (λ j o n.
            rotate-other t x y b p d j to_y to_b lx.1 x-ne-y b-ne-x (λ e. ground (arith, sep j))
              (λ e. ground (arith, sep j)) (λ e. ground (arith, sep j, b_cases)) n)
          (rotate-root t x y b p d to_y to_b lx.1 x-ne-y b-ne-x)
          (λ n.
            rotate-above t x y b p d to_y to_b lx.1 x-ne-y b-ne-x p-ne-x p-ne-y
              (λ e. ground (arith, sep p, b_cases, Around-parent t p x k around)) n)
          (λ j. omega (arith, sep j)) around

    turned-Links : Links (rotate d x t) p y (bend d cy (bend d cx near x inner) y far)
    turned-Links =
        let nx = rotate-pivot t x y b p d to_y to_b lx.1 x-ne-y b-ne-x p-ne-x in
        let ny = rotate-child t x y b p d to_y to_b lx.1 x-ne-y b-ne-x b-ne-y p-ne-y in
        let mx = pivot_lem d y b (t.nodes x) in
        let my = child_lem d x p (t.nodes y) in
        bend-Links (rotate d x t) d p y y cy (bend d cx near x inner) far (
          refl,
          ly.0,
          ap (λ m. m.parent) ny ∙ my.0,
          ap (λ m. m.color) ny ∙ my.3 ∙ ly.1,
          bend-Links (rotate d x t) d y (child d ((rotate d x t).nodes y)) x cx near inner (
            ap (child d) ny ∙ my.1,
            lx.0,
            ap (λ m. m.parent) nx,
            ap (λ m. m.color) nx ∙ mx.2 ∙ lx.2,
            subst (λ z. Links (rotate d x t) x z near) (sym (ap (child d) nx ∙ mx.0)) near-Links,
            subst (λ z. Links (rotate d x t) x z inner) (sym (ap (child (opposite d)) nx ∙ mx.1))
                inner-Links,
          ),
          subst (λ z. Links (rotate d x t) y z far) (sym (ap (child (opposite d)) ny ∙ my.2))
              far-Links,
        )

  sep_of :
      (d : Direction) (t : RedBlackTree K V) (p x y : Handle) (k : Context) (cx cy : ℕ)
      (near inner far : Shape)
      → Focus t p x k (bend d cx near x (bend d cy inner y far))
      → (j : ℕ)
      → (if x == j then 1 else 0)
          + (if y == j then 1 else 0)
          + occurs j near
          + occurs j inner
          + occurs j far
          + occurs_around j k
        ≤ (if j == nil then 0 else 1)
  sep_of d t p x y k cx cy near inner far f j = omega (
    arith,
    f.proper j,
    occurs-bend d cx near x (bend d cy inner y far) j,
    occurs-bend d cy inner y far j,
  )

  -- Before: `x` over `near` and `y`, over `inner` and `far`. After: `y` over `x` and `far`.
  pub rotate-Focus :
      (d : Direction) (t : RedBlackTree K V) (p x y : Handle) (k : Context) (cx cy : ℕ)
      (near inner far : Shape)
      → Focus t p x k (bend d cx near x (bend d cy inner y far))
      → Focus (rotate d x t) p y k (bend d cy (bend d cx near x inner) y far)
  rotate-Focus d t p x y k cx cy near inner far f =
      let lx = Links-bend t d p x x cx near (bend d cy inner y far) f.links in
      let ly = Links-bend t d x (child (opposite d) (t.nodes x)) y cy inner far lx.5 in
      let sep = sep_of d t p x y k cx cy near inner far f in
      record {
        around =
            Around-links d t p x y (child d (t.nodes y)) k cx cy near inner far sep f.around
              (lx.1, lx.2, lx.3, lx.4) ly.0 (ly.1, ly.3, ly.4, ly.5) refl;
        links =
            turned-Links d t p x y (child d (t.nodes y)) k cx cy near inner far sep f.around
              (lx.1, lx.2, lx.3, lx.4) ly.0 (ly.1, ly.3, ly.4, ly.5) refl;
        proper = λ j. omega (
          arith,
          sep j,
          occurs-bend d cy (bend d cx near x inner) y far j,
          occurs-bend d cx near x inner j,
        );
      }

  -- A rotation writes to the nodes of the tree only.
  pub rotate-kept :
      (d : Direction) (t : RedBlackTree K V) (p x y : Handle) (k : Context) (cx cy : ℕ)
      (near inner far : Shape)
      → Focus t p x k (bend d cx near x (bend d cy inner y far))
      → (j : ℕ) → occurs j (bend d cx near x (bend d cy inner y far)) + occurs_around j k ≡ 0
      → j ≢ nil
      → (rotate d x t).nodes j ≡ t.nodes j
  rotate-kept d t p x y k cx cy near inner far f j o n =
      let lx = Links-bend t d p x x cx near (bend d cy inner y far) f.links in
      let ly = Links-bend t d x (child (opposite d) (t.nodes x)) y cy inner far lx.5 in
      elsewhere d t p x y (child d (t.nodes y)) k cx cy near inner far
        (sep_of d t p x y k cx cy near inner far f) f.around (lx.1, lx.2, lx.3, lx.4) ly.0
        (ly.1, ly.3, ly.4, ly.5) refl j
        (omega (
          arith,
          occurs-bend d cx near x (bend d cy inner y far) j,
          occurs-bend d cy inner y far j,
        ))
        n

pub inorder-turn :
    (d : Direction) (x y : Handle) (cx cy : ℕ) (near inner far : Shape)
    → inorder (bend d cy (bend d cx near x inner) y far)
      ≡ inorder (bend d cx near x (bend d cy inner y far))
inorder-turn leftward x y cx cy near inner far =
    append_assoc (inorder near) (x ∷ inorder inner) (y ∷ inorder far)
inorder-turn rightward x y cx cy near inner far =
    sym (append_assoc (inorder far) (y ∷ inorder inner) (x ∷ inorder near))
