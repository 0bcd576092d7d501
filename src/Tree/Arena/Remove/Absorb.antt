-- ===== src/Tree/Arena/Remove/Absorb.antt =====
-- crates/clob-book/src/tree/remove.rs: cases 3 and 4, which end the rebalance.
use clob_dex.Prelude.{ℕ, ◌≤◌, ◌≡◌, refl, sym, ap, subst, ◌∙◌, ◌==◌, if◌then◌else◌, arith, List}
use clob_dex.Tree.{Handle}
use clob_dex.Tree.Arena.{
  Direction, leftward, rightward, opposite, RedBlackTree, child, child_of, color_of, set_color,
  rotate, red, black,
}
use clob_dex.Tree.Arena.Remove.{far_nephew, absorb}
use clob_dex.Tree.Arena.Remove.Cases.{
  paint_sibling, paint_near, paint_other, turn_sibling, at_sibling, reads,
}
use clob_dex.Tree.Arena.Remove.Steps.{
  Relinks, Relinks-trans, Relinks-color, Relinks-rotate, Relinks-inward,
}
use clob_dex.Tree.Arena.Insert.Rebalance.{paint-bend}
use clob_dex.Tree.Arena.Insert.Fixup.{color_of_lem}
use clob_dex.Tree.Arena.Shape.{
  Shape, Context, down, bend, plug, inorder, occurs, occurs-plug, Links-bend,
}
use clob_dex.Tree.Arena.Balanced.{root_color, inorder-plug}
use clob_dex.Tree.Arena.Zoom.{zoom_in, bend-opposite}
use clob_dex.Tree.Arena.Focus.{Focus, occurs-bend}
use clob_dex.Tree.Arena.Turn.{rotate-Focus}

-- Colours do not show in the order.
inorder-colors :
    (d : Direction) (c n : ℕ) (a b : Shape) (x : Handle)
    → inorder (bend d c a x b) ≡ inorder (bend d n a x b)
inorder-colors leftward c n a b x = refl
inorder-colors rightward c n a b x = refl

pub inorder-three :
    (d : Direction) (c e n c' e' n' : ℕ) (s near a b : Shape) (q w y : Handle)
    → inorder (bend d c s q (bend d e near w (bend d n a y b)))
      ≡ inorder (bend d c' s q (bend d e' near w (bend d n' a y b)))
inorder-three leftward c e n c' e' n' s near a b q w y = refl
inorder-three rightward c e n c' e' n' s near a b q w y = refl

pub inorder-near :
    (d : Direction) (c e n c' e' n' : ℕ) (s a b other : Shape) (q w x : Handle)
    → inorder (bend d c s q (bend d e (bend d n a x b) w other))
      ≡ inorder (bend d c' s q (bend d e' (bend d n' a x b) w other))
inorder-near leftward c e n c' e' n' s a b other q w x = refl
inorder-near rightward c e n c' e' n' s a b other q w x = refl

pub root_color-bend :
    (d : Direction) (c : ℕ) (near : Shape) (x : Handle) (far : Shape)
    → root_color (bend d c near x far) ≡ c
root_color-bend leftward c near x far = refl
root_color-bend rightward c near x far = refl

-- The three handles of a bend of bends occur.
occurs-three :
    (d : Direction) (c e n : ℕ) (s near a b : Shape) (q w y : Handle) (k : Context)
    → let m = plug k (bend d c s q (bend d e near w (bend d n a y b))) in
      (1 ≤ occurs q m) × (1 ≤ occurs w m) × (1 ≤ occurs y m)
occurs-three d c e n s near a b q w y k =
    let far = bend d n a y b in
    let mid = bend d e near w far in
    (
      ground (arith, occurs-plug k (bend d c s q mid) q, occurs-bend d c s q mid q),
      ground (
        arith,
        occurs-plug k (bend d c s q mid) w,
        occurs-bend d c s q mid w,
        occurs-bend d e near w far w,
      ),
      ground (
        arith,
        occurs-plug k (bend d c s q mid) y,
        occurs-bend d c s q mid y,
        occurs-bend d e near w far y,
        occurs-bend d n a y b y,
      ),
    )

occurs-near :
    (d : Direction) (c e n : ℕ) (s a b other : Shape) (q w x : Handle) (k : Context)
    → let m = plug k (bend d c s q (bend d e (bend d n a x b) w other)) in
      (1 ≤ occurs w m) × (1 ≤ occurs x m)
occurs-near d c e n s a b other q w x k =
    let near = bend d n a x b in
    let mid = bend d e near w other in
    (
      ground (
        arith,
        occurs-plug k (bend d c s q mid) w,
        occurs-bend d c s q mid w,
        occurs-bend d e near w other w,
      ),
      ground (
        arith,
        occurs-plug k (bend d c s q mid) x,
        occurs-bend d c s q mid x,
        occurs-bend d e near w other x,
        occurs-bend d n a x b x,
      ),
    )

module _ {K V : Type 0} where
  absorb_lem :
      (d : Direction) (t : RedBlackTree K V) (q w y c : ℕ)
      → color_of t q ≡ c
      → child_of (opposite d) (set_color q black (set_color w c t)) w ≡ y
      → absorb d q w t ≡ rotate d q (set_color y black (set_color q black (set_color w c t)))
  absorb_lem d t q w y c e f =
      ap
        (λ (n : ℕ). rotate d q (
          set_color (child_of (opposite d) (set_color q black (set_color w n t)) w) black
            (set_color q black (set_color w n t))))
        e
      ∙ ap (λ (h : Handle). rotate d q (set_color h black (set_color q black (set_color w c t)))) f

  -- Case 4: the extra black of `s` is absorbed.
  pub absorb-Focus :
      (d : Direction) (t : RedBlackTree K V) (p q w y : Handle) (c : ℕ) (s near a b : Shape)
      (k : Context)
      → Focus t p q k (bend d c s q (bend d black near w (bend d red a y b)))
      → Focus (absorb d q w t) p w k (bend d c (bend d black s q near) w (bend d black a y b))
        × Relinks t
            (absorb d q w t)
            (inorder (plug k (bend d c s q (bend d black near w (bend d red a y b)))))
  absorb-Focus d t p q w y c s near a b k f =
      let other = bend d red a y b in
      let whole = plug k (bend d c s q (bend d black near w other)) in
      let hs = inorder whole in
      let o = occurs-three d c black red s near a b q w y k in
      let f1 = paint_sibling d t p q w c black c s near other k f in
      let t1 = set_color w c t in
      let f2 = paint-bend d t1 p q q c black s (bend d c near w other) k f1 in
      let t2 = set_color q black t1 in
      let r2 = reads d t2 p q w black c s near other k f2 in
      let to_y = (Links-bend t2 d w (child_of (opposite d) t2 w) y red a b r2.other_links).0 in
      let f3 = paint_other d t2 p q w y black c black s a b near k f2 in
      let f4 =
        rotate-Focus d (set_color y black t2) p q w k black c s near (bend d black a y b) f3 in
      let eq =
        absorb_lem d t q w y c
          (color_of_lem t p q (bend d c s q (bend d black near w other)) f.links
            ∙ root_color-bend d c s q (bend d black near w other))
          to_y in
      (
        subst (λ u. Focus u p w k (bend d c (bend d black s q near) w (bend d black a y b)))
            (sym eq) f4,
        subst (λ u. Relinks t u hs) (sym eq)
            (Relinks-trans (Relinks-color t w c whole hs refl o.1) (
              Relinks-trans (Relinks-color t1 q black whole hs refl o.0) (
                Relinks-trans (Relinks-color t2 y black whole hs refl o.2) (
                  Relinks-rotate d (set_color y black t2) p q w k black c s near
                    (bend d black a y b) hs f3
                    (inorder-plug k (bend d black s q (bend d c near w (bend d black a y b)))
                      (bend d c s q (bend d black near w other))
                      (inorder-three d black c black c black red s near a b q w y)))))),
      )

  -- Case 3: the near nephew takes the place of the sibling.
  far_nephew_lem :
      (d : Direction) (t : RedBlackTree K V) (w x : Handle)
      → color_of t (child_of (opposite d) t w) ≡ black
      → child_of d t w ≡ x
      → far_nephew d w t ≡ rotate (opposite d) w (set_color w red (set_color x black t))
  far_nephew_lem d t w x e f =
      ap
        (λ (n : ℕ).
          if n == black
          then rotate (opposite d) w (set_color w red (set_color (child_of d t w) black t))
          else t)
        e
      ∙ ap (λ (h : Handle). rotate (opposite d) w (set_color w red (set_color h black t))) f

  turn-Relinks :
      (d : Direction) (t : RedBlackTree K V) (p q w x : Handle) (c : ℕ) (s a b other : Shape)
      (k : Context)
      → Focus t p q k (bend d c s q (bend d red (bend d black a x b) w other))
      → (hs : List Handle)
      → inorder (plug k (bend d c s q (bend d red (bend d black a x b) w other))) ≡ hs
      → Relinks t (rotate (opposite d) w t) hs
  turn-Relinks d t p q w x c s a b other k f hs e =
      let far = bend d red (bend d black a x b) w other in
      let g =
        zoom_in t (opposite d) p q q c s far k
          (subst (Focus t p q k) (sym (bend-opposite d c far q s)) f) in
      Relinks-inward d t q w x (down (opposite d) q c s k) red black a b other hs
        (at_sibling d t (child (opposite d) (t.nodes q)) q w red (bend d black a x b) other
          (down (opposite d) q c s k) g)
        (ap (λ m. inorder (plug k m)) (bend-opposite d c far q s) ∙ e)

  pub far_nephew-Focus :
      (d : Direction) (t : RedBlackTree K V) (p q w x : Handle) (c : ℕ) (s a b other : Shape)
      (k : Context)
      → Focus t p q k (bend d c s q (bend d black (bend d red a x b) w other))
      → root_color other ≡ black
      → Focus (far_nephew d w t) p q k (bend d c s q (bend d black a x (bend d red b w other)))
        × Relinks t
            (far_nephew d w t)
            (inorder (plug k (bend d c s q (bend d black (bend d red a x b) w other))))
  far_nephew-Focus d t p q w x c s a b other k f ob =
      let near = bend d red a x b in
      let whole = plug k (bend d c s q (bend d black near w other)) in
      let hs = inorder whole in
      let o = occurs-near d c black red s a b other q w x k in
      let r = reads d t p q w c black s near other k f in
      let to_x = (Links-bend t d w (child_of d t w) x red a b r.near_links).0 in
      let f1 = paint_near d t p q w x c black black s a b other k f in
      let t1 = set_color x black t in
      let f2 = paint_sibling d t1 p q w c black red s (bend d black a x b) other k f1 in
      let t2 = set_color w red t1 in
      let f3 = turn_sibling d t2 p q w x c red black s a b other k f2 in
      let eq = far_nephew_lem d t w x (r.other_color ∙ ob) to_x in
      (
        subst (λ u. Focus u p q k (bend d c s q (bend d black a x (bend d red b w other)))) (sym eq)
            f3,
        subst (λ u. Relinks t u hs) (sym eq)
            (Relinks-trans (Relinks-color t x black whole hs refl o.1) (
              Relinks-trans (Relinks-color t1 w red whole hs refl o.0) (
                turn-Relinks d t2 p q w x c s a b other k f2 hs (
                  inorder-plug k (bend d c s q (bend d red (bend d black a x b) w other))
                    (bend d c s q (bend d black near w other))
                    (inorder-near d c red black c black red s a b other q w x))))),
      )
