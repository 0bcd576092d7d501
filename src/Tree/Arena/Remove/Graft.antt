-- ===== src/Tree/Arena/Remove/Graft.antt =====
-- crates/clob-book/src/tree/remove.rs: a subtree takes the place of another, and a node takes the place
-- of the one that goes.
use clob_dex.Prelude.{
  ℕ, ◌+◌, ◌≤◌, ◌≡◌, ◌≢◌, ◌⊎◌, inl, inr, refl, sym, ap, subst, ◌∙◌, ◌==◌, if◌then◌else◌, arith,
  false,
}
use clob_dex.Tree.{Handle, nil}
use clob_dex.Tree.Arena.{
  leftward, rightward, RedBlackTree, child, parent_of, set_child, set_parent, set_color, write,
}
use clob_dex.Tree.Arena.Remove.{transplant, replace}
use clob_dex.Tree.Arena.Rotate.{with_child, with_parent}
use clob_dex.Tree.Arena.Shape.{
  Shape, leaf, fork, Context, occurs, occurs_around, Around, Links, Links-occurs, Links-frame,
  Around-frame,
}
use clob_dex.Tree.Arena.Focus.{Focus, nil_cases, Around-parent, Around-relink, Links-adopt}
use clob_dex.Tree.Arena.Zoom.{paint}

module _ {K V : Type 0} where
  module _ (t : RedBlackTree K V) (x v p : Handle) (ep : parent_of t x ≡ p) where
    pub transplant-other : (j : ℕ) → j ≢ p → j ≢ v → (transplant x v t).nodes j ≡ t.nodes j
    unfolding transplant
    transplant-other j a b = ground arith

    transplant-moved : v ≢ nil → v ≢ p → (transplant x v t).nodes v ≡ with_parent p (t.nodes v)
    unfolding transplant
    transplant-moved n a = ground arith

    transplant-above :
        p ≢ nil
        → v ≢ p
        → (transplant x v t).nodes p ≡ (
            if child leftward (t.nodes p) == x
            then with_child leftward v (t.nodes p)
            else with_child rightward v (t.nodes p))
    unfolding transplant
    transplant-above n a = ground arith

    transplant-root : (transplant x v t).root ≡ (if p == nil then v else t.root)
    unfolding transplant
    transplant-root = ground arith

  -- The subtree `s` at `v` takes the place of `x`.
  pub transplant-Focus :
      (t : RedBlackTree K V) (p x q v : Handle) (k : Context) (s : Shape)
      → parent_of t x ≡ p
      → Around t p x k
      → Links t q v s
      → ((j : ℕ)
          → (if x == j then 1 else 0) + occurs j s + occurs_around j k
            ≤ (if j == nil then 0 else 1))
      → Focus (transplant x v t) p v k s
  transplant-Focus t p x q v k s ep a l sep =
      let here : (v ≡ nil) ⊎ (1 ≤ occurs v s) = elim (nil_cases v) [
        | inl n ↦ inl n
        | inr n ↦ inr (Links-occurs t q v s l n)
      ] in
      let above = Around-parent t p x k a in
      let vp : p ≢ nil → v ≢ p = λ n e. ground (arith, here, above, sep p) in
      record {
        around =
            Around-relink leftward t (transplant x v t) p x v k
              (λ j i n. transplant-other t x v p ep j n (λ e. ground (arith, here, sep j)))
              (transplant-root t x v p ep) (λ n. transplant-above t x v p ep n (vp n))
              (λ j. omega (arith, sep j)) a;
        links =
            Links-adopt t (transplant x v t) q p v s
              (λ j i n. transplant-other t x v p ep j (λ e. ground (arith, above, sep j)) n)
              (λ n. transplant-moved t x v p ep n (λ e. ground (arith, here, above, sep p)))
              (λ j. omega (arith, sep j)) l;
        proper = λ j. omega (arith, sep j);
      }

  abbrev pub graft : Handle → Handle → RedBlackTree K V → RedBlackTree K V
  graft y z t = set_parent z y (set_child leftward y z t)

  -- The subtree `l` becomes the left one of `y`.
  pub graft-Focus :
      (t : RedBlackTree K V) (p y z g : Handle) (c : ℕ) (l r : Shape) (k : Context)
      → Focus t p y k (fork c leaf y r)
      → Links t g z l
      → z ≢ nil
      → ((j : ℕ)
          → (if y == j then 1 else 0) + occurs j l + occurs j r + occurs_around j k
            ≤ (if j == nil then 0 else 1))
      → Focus (graft y z t) p y k (fork c l y r)
  graft-Focus t p y z g c l r k f links n sep =
      let u = graft y z t in
      let here = Links-occurs t g z l links n in
      let zy : z ≢ y = λ e. ground (arith, sep y, here) in
      let at : u.nodes y ≡ record (t.nodes y) { left = z } = ground arith in
      let off : (j : ℕ) → j ≢ y → j ≢ z → u.nodes j ≡ t.nodes j = λ j a b. ground arith in
      record {
        around =
            Around-frame t u p y k refl
              (λ j i. off j (λ e. ground (arith, sep j)) (λ e. ground (arith, sep j, here)))
              f.around;
        links = rw at (
          refl,
          f.links.1,
          f.links.2,
          f.links.3,
          Links-adopt t u g y z l (λ j i a. off j (λ e. ground (arith, sep j)) a)
              (λ m. ground arith) (λ j. omega (arith, sep j)) links,
          Links-frame t u y (t.nodes y).right r
              (λ j i. off j (λ e. ground (arith, sep j)) (λ e. ground (arith, sep j, here)))
              f.links.5,
        );
        proper = λ j. omega (arith, sep j);
      }

  write-color :
      (y n : ℕ) (t : RedBlackTree K V)
      → y ≢ nil
      → write y (record (t.nodes y) { color = n }) t ≡ set_color y n t
  write-color y n t e = let test : (y == nil) ≡ false = ground arith in rw test

  -- The node `y`, with `r` to its right, takes the place of `z`, its left subtree and its colour.
  pub replace-Focus :
      (t : RedBlackTree K V) (p z g y zl : Handle) (cz cy : ℕ) (l r : Shape) (k : Context)
      → parent_of t z ≡ p
      → (t.nodes z).color ≡ cz
      → Around t p z k
      → Links t g y (fork cy leaf y r)
      → Links t z zl l
      → zl ≢ nil
      → ((j : ℕ)
          → (if z == j then 1 else 0)
              + (if y == j then 1 else 0)
              + occurs j l
              + occurs j r
              + occurs_around j k
            ≤ (if j == nil then 0 else 1))
      → Focus (replace z y zl t) p y k (fork cz l y r)
  replace-Focus t p z g y zl cz cy l r k ep ez a ly ll n sep =
      let here = Links-occurs t z zl l ll n in
      let above = Around-parent t p z k a in
      let f1 =
        transplant-Focus t p z g y k (fork cy leaf y r) ep a ly (λ j. omega (arith, sep j)) in
      let t1 = transplant z y t in
      let off : (j : ℕ) → j ≢ p → j ≢ y → t1.nodes j ≡ t.nodes j = transplant-other t z y p ep in
      let ll1 =
        Links-frame t t1 z zl l
          (λ j i. off j (λ e. ground (arith, sep j, above)) (λ e. ground (arith, sep j))) ll in
      let f2 = graft-Focus t1 p y zl z cy l r k f1 ll1 n (λ j. omega (arith, sep j)) in
      let t2 = graft y zl t1 in
      let zp : z ≢ p = λ e. ground (arith, sep z, above) in
      let zy : z ≢ y = λ e. ground (arith, sep z) in
      let zzl : z ≢ zl = λ e. ground (arith, sep z, here) in
      let grafted : t2.nodes z ≡ t1.nodes z = ground arith in
      let same : (t2.nodes z).color ≡ cz = ap (λ m. m.color) (grafted ∙ off z zp zy) ∙ ez in
      let yn : y ≢ nil = omega (arith, f1.links.1) in
      let f3 = paint t2 p y y cy cz l r k f2 in
      subst (λ u. Focus u p y k (fork cz l y r))
        (sym (write-color y cz t2 yn)
          ∙ ap (λ (m : ℕ). write y (record (t2.nodes y) { color = m }) t2) (sym same))
        f3
