-- ===== src/Tree/Arena/Remove/Far.antt =====
-- crates/clob-book/src/tree/remove.rs: the splice where the successor is not a child of the node.
use clob_dex.Prelude.{
  ℕ, ◌+◌, ◌≤◌, ◌≡◌, ◌≢◌, ◌⊎◌, inl, inr, refl, sym, ap, subst, ◌∙◌, ◌==◌, if◌then◌else◌, arith,
}
use clob_dex.Tree.{Handle, nil}
use clob_dex.Tree.Arena.{leftward, rightward, RedBlackTree, parent_of, black, set_child, set_parent}
use clob_dex.Tree.Arena.Remove.{after_lift, replace, splice_two, lift_successor, transplant}
use clob_dex.Tree.Arena.Remove.Graft.{transplant-Focus, transplant-other}
use clob_dex.Tree.Arena.Remove.Leftmost.{join, Leftmost, zoom_back}
use clob_dex.Tree.Arena.Remove.Steps.{Relinks, Relinks-trans}
use clob_dex.Tree.Arena.Remove.Written.{
  Within, Relinks-transplant, Relinks-child, Relinks-parent, Relinks-replace,
}
use clob_dex.Tree.Arena.Remove.Splice.{Gap, to_p, above-Within}
use clob_dex.Tree.Arena.Remove.Successor.{
  sep, gap, left_here, counted, moved_here, gap_focus, replaced,
}
use clob_dex.Tree.Arena.Shape.{
  Shape, leaf, fork, Context, down, plug, inorder, occurs, occurs_around, occurs-plug, Around,
  Links, Links-occurs, Links-frame, Around-frame,
}
use clob_dex.Tree.Arena.Balanced.{root_color, Balanced}
use clob_dex.Tree.Arena.Focus.{Focus, nil_cases, Links-adopt}
use clob_dex.Tree.Arena.Insert.Rebalance.{parent_of_lem}

module _ {K V : Type 0} where
  Links-live :
      (t : RedBlackTree K V) (p h j : Handle) (s : Shape) → Links t p h s → 1 ≤ occurs j s → h ≢ nil
  Links-live t p h j leaf l o = absurd (omega arith)
  Links-live t p h j (fork c a x b) l o = omega (arith, l.0, l.1)

  module _ (t : RedBlackTree K V) (p z : Handle) (k : Context) (cz : ℕ) (l r : Shape)
      (f : Focus t p z k (fork cz l z r)) (b : Balanced (plug k (fork cz l z r)))
      (rb : root_color (plug k (fork cz l z r)) ≡ black) (ln : (t.nodes z).left ≢ nil) (y py cy : ℕ)
      (q c : ℕ) (far : Shape) (j : Context) (ry : Shape)
      (g : Focus t py y
        (join (down leftward q c far j) (down rightward z cz l k))
        (fork cy leaf y ry))
      (same : plug (down leftward q c far j) (fork cy leaf y ry) ≡ r) (lm : Leftmost j) where
    abbrev i : Context
    i = down leftward q c far j

    abbrev x : Handle
    x = (t.nodes y).right

    abbrev zr : Handle
    zr = (t.nodes z).right

    abbrev zl : Handle
    zl = (t.nodes z).left

    apart :
        (h : ℕ)
        → (if z == h then 1 else 0)
            + (if y == h then 1 else 0)
            + occurs h l
            + occurs h ry
            + occurs_around h i
            + occurs_around h k
          ≤ (if h == nil then 0 else 1)
    apart h = sep t p z k cz l r f b rb ln y py cy i ry g same lm h

    to_py : parent_of t y ≡ py
    to_py = parent_of_lem t py y (fork cy leaf y ry) g.links (omega (arith, g.links.1))

    at_q : py ≡ q
    at_q = g.around.0

    x_here : (x ≡ nil) ⊎ (1 ≤ occurs x ry)
    x_here = elim (nil_cases x) [ inl e ↦ inl e | inr n ↦ inr (Links-occurs t y x ry g.links.5 n) ]

    -- The successor is out of its place.
    abbrev ta : RedBlackTree K V
    ta = transplant y x t

    ta-Focus : Focus ta py x (join i (down rightward z cz l k)) ry
    ta-Focus =
        transplant-Focus t py y y x (join i (down rightward z cz l k)) ry to_py g.around g.links.5
          (λ h. omega (arith, g.proper h))

    ta-other : (h : ℕ) → h ≢ q → h ≢ x → ta.nodes h ≡ t.nodes h
    ta-other h m n = transplant-other t y x py to_py h (λ e. m (e ∙ at_q)) n

    ta_z : ta.nodes z ≡ t.nodes z
    ta_z = ta-other z (λ e. ground (arith, apart z)) (λ e. ground (arith, x_here, apart z))

    ta_y : ta.nodes y ≡ t.nodes y
    ta_y = ta-other y (λ e. ground (arith, apart y)) (λ e. ground (arith, x_here, apart y))

    ta-right : (v : Handle) × Focus ta v zr (down rightward z cz l k) (plug i ry)
    ta-right =
        let (v, h, w) = zoom_back ta py x i (down rightward z cz l k) ry ta-Focus in
        (
          v,
          subst (λ m. Focus ta v m (down rightward z cz l k) (plug i ry))
              (sym w.around.3 ∙ ap (λ n. n.right) ta_z) w,
        )

    in_plug : (h : ℕ) → occurs h (plug i ry) ≡ occurs h ry + occurs_around h i
    in_plug h = occurs-plug i ry h

    zr_here : 1 ≤ occurs zr (plug i ry)
    zr_here =
        Links-occurs ta ta-right.0 zr (plug i ry) ta-right.1.links
          (Links-live ta ta-right.0 zr q (plug i ry) ta-right.1.links (ground (arith, in_plug q)))

    -- The right subtree of `z` without `y` is that of `y`.
    abbrev tb : RedBlackTree K V
    tb = set_parent zr y (set_child rightward y zr ta)

    y-ne-zr : y ≢ zr
    y-ne-zr e = ground (arith, apart y, zr_here, in_plug zr, e)

    tb-other : (h : ℕ) → h ≢ y → h ≢ zr → tb.nodes h ≡ ta.nodes h
    tb-other h m n = ground arith

    tb_z : tb.nodes z ≡ t.nodes z
    tb_z =
        tb-other z (λ e. ground (arith, apart z))
          (λ e. ground (arith, apart z, zr_here, in_plug zr, e))
        ∙ ta_z

    tb_y : tb.nodes y ≡ record (t.nodes y) { right = zr }
    tb_y = ground (arith, ta_y, y-ne-zr)

    tb-above : Around tb p z k
    tb-above =
        Around-frame ta tb p z k refl
          (λ h o.
            tb-other h (λ e. ground (arith, apart y, o, e))
              (λ e. ground (arith, apart zr, zr_here, in_plug zr, o, e)))
          (subst (λ n. Around ta n z k) (ap (λ n. n.parent) ta_z ∙ f.links.2) ta-right.1.around.5)

    tb-left : Links tb z zl l
    tb-left =
        Links-frame ta tb z zl l
          (λ h o.
            tb-other h (λ e. ground (arith, apart y, o, e))
              (λ e. ground (arith, apart zr, zr_here, in_plug zr, o, e)))
          (subst (λ n. Links ta z n.left l) ta_z ta-right.1.around.4)

    tb-moved : Links tb py y (fork cy leaf y (plug i ry))
    tb-moved = rw tb_y (
      refl,
      g.links.1,
      g.links.2,
      g.links.3,
      g.links.4,
      Links-adopt ta tb ta-right.0 y zr (plug i ry)
          (λ h o n. tb-other h (λ e. ground (arith, apart y, in_plug y, o, e)) n)
          (λ n. ground (arith, y-ne-zr)) (λ h. omega (arith, apart h, in_plug h)) ta-right.1.links,
    )

    tb-Relinks : Relinks t tb (inorder (plug k (fork cz l z r)))
    tb-Relinks =
        let hs = inorder (plug k (fork cz l z r)) in
        let m = counted t p z k cz l r f b rb ln y py cy i ry g same lm in
        let t1 = set_child rightward y zr ta in
        let above : Within py hs = inr (ground (arith, m q, at_q)) in
        Relinks-trans
          (Relinks-transplant y x py t hs to_py above
            (moved_here t p z k cz l r f b rb ln y py cy i ry g same lm))
          (Relinks-trans (Relinks-child rightward y zr ta hs (ground (arith, m y)))
            (Relinks-parent zr y t1 hs (omega (arith, m zr, zr_here, in_plug zr))))

    pub far-Gap : Gap t z (plug k (fork cz l z r)) (splice_two z y t)
    far-Gap =
        let hs = inorder (plug k (fork cz l z r)) in
        let m = counted t p z k cz l r f b rb ln y py cy i ry g same lm in
        let here = left_here t p z k cz l r f b rb ln y py cy i ry g same lm in
        let up = (t.nodes y).parent in
        let out : up ≡ q = g.links.2 ∙ at_q in
        let e : parent_of tb z ≡ p =
          ap (λ n. if z == nil then nil else n.parent) tb_z ∙ to_p t p z k cz l r f b rb in
        let v =
          replaced t p z k cz l r f b rb ln y py cy i ry g same lm tb e
            (ap (λ n. n.color) tb_z ∙ f.links.3) tb-above tb-moved tb-left in
        let w =
          gap_focus t p z k cz l r f b rb ln y py cy i ry g same lm (replace z y zl tb) p up v
            (λ xq xj n. n.around.0 ∙ sym out) in
        let rl =
          Relinks-replace z y zl p tb hs e (above-Within t p z k cz l r f b rb)
            (ground (arith, m y)) (omega (arith, m zl, here)) in
        let lifted : (up, tb) ≡ lift_successor z y t = ground (arith, out, apart z, f.links.1) in
        subst (λ n. Gap t z (plug k (fork cz l z r)) (after_lift z y t n)) lifted
          (gap t p z k cz l r f b rb ln y py cy i ry g same lm tb up w
            (Relinks-trans tb-Relinks rl))
