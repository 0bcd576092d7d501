-- ===== src/Tree/Arena/Remove/Cases.antt =====
-- crates/clob-book/src/tree/remove.rs: what the cases of `delete_fixup` do to the focus, which stands
-- at the parent of the short side.
use clob_dex.Prelude.{ℕ, ◌≡◌, sym, subst, ◌∙◌, arith}
use clob_dex.Tree.{Handle}
use clob_dex.Tree.Arena.{
  Direction, leftward, rightward, opposite, RedBlackTree, child, child_of, color_of, set_color,
  rotate, red,
}
use clob_dex.Tree.Arena.Insert.Rebalance.{paint-bend}
use clob_dex.Tree.Arena.Insert.Fixup.{color_of_lem}
use clob_dex.Tree.Arena.Shape.{Shape, Context, top, down, bend, Links, Around, Links-bend}
use clob_dex.Tree.Arena.Balanced.{root_color}
use clob_dex.Tree.Arena.Focus.{Focus}
use clob_dex.Tree.Arena.Zoom.{zoom_in, zoom_out, bend-opposite}
use clob_dex.Tree.Arena.Turn.{rotate-Focus}

module _ {K V : Type 0} where
  Around-same :
      (t u : RedBlackTree K V) (p q h j : Handle) (k : Context)
      → Around t p h k
      → Around u q j k
      → q ≡ p
  Around-same t u p q h j top a b = b.0 ∙ sym a.0
  Around-same t u p q h j (down d g c s k) a b = b.0 ∙ sym a.0

  -- A change below the far child, seen from the node.
  within_far :
      (d : Direction) (t u : RedBlackTree K V) (p q : Handle) (c : ℕ) (near far far' : Shape)
      (k : Context)
      → ((h : Handle)
          → Focus t q h (down (opposite d) q c near k) far
          → (j : Handle) × Focus u q j (down (opposite d) q c near k) far')
      → Focus t p q k (bend d c near q far)
      → Focus u p q k (bend d c near q far')
  within_far d t u p q c near far far' k change f =
      let g = subst (Focus t p q k) (sym (bend-opposite d c far q near)) f in
      let (j, g1) =
        change (child (opposite d) (t.nodes q)) (zoom_in t (opposite d) p q q c near far k g) in
      let g2 = zoom_out u (opposite d) q j q c near far' k g1 in
      subst (λ z. Focus u z q k (bend d c near q far'))
        (Around-same t u p (u.nodes q).parent q q k f.around g2.around)
        (subst (Focus u (u.nodes q).parent q k) (bend-opposite d c far' q near) g2)

  within_near :
      (d : Direction) (t u : RedBlackTree K V) (p q : Handle) (c : ℕ) (near near' far : Shape)
      (k : Context)
      → ((h : Handle)
          → Focus t q h (down d q c far k) near
          → (j : Handle) × Focus u q j (down d q c far k) near')
      → Focus t p q k (bend d c near q far)
      → Focus u p q k (bend d c near' q far)
  within_near d t u p q c near near' far k change f =
      let (j, g1) = change (child d (t.nodes q)) (zoom_in t d p q q c far near k f) in
      let g2 = zoom_out u d q j q c far near' k g1 in
      subst (λ z. Focus u z q k (bend d c near' q far))
        (Around-same t u p (u.nodes q).parent q q k f.around g2.around) g2

  -- The handle of a focus on a node is that node.
  at_node :
      (d : Direction) (t : RedBlackTree K V) (p h x : Handle) (c : ℕ) (near far : Shape)
      (k : Context)
      → Focus t p h k (bend d c near x far)
      → h ≡ x
  at_node d t p h x c near far k f = (Links-bend t d p h x c near far f.links).0

  pub paint_sibling :
      (d : Direction) (t : RedBlackTree K V) (p q w : Handle) (c cw n : ℕ) (s near other : Shape)
      (k : Context)
      → Focus t p q k (bend d c s q (bend d cw near w other))
      → Focus (set_color w n t) p q k (bend d c s q (bend d n near w other))
  paint_sibling d t p q w c cw n s near other k =
      within_far d t (set_color w n t) p q c s (bend d cw near w other) (bend d n near w other) k
        (λ h f. (h, paint-bend d t q h w cw n near other (down (opposite d) q c s k) f))

  -- A change below the sibling, seen from its parent.
  pub at_sibling :
      (d : Direction) (t : RedBlackTree K V) (h q w : Handle) (cw : ℕ) (near other : Shape)
      (k : Context)
      → Focus t q h k (bend d cw near w other)
      → Focus t q w k (bend d cw near w other)
  at_sibling d t h q w cw near other k f =
      subst (λ z. Focus t q z k (bend d cw near w other)) (at_node d t q h w cw near other k f) f

  pub paint_near :
      (d : Direction) (t : RedBlackTree K V) (p q w x : Handle) (c cw n : ℕ) (s a b other : Shape)
      (k : Context)
      → Focus t p q k (bend d c s q (bend d cw (bend d red a x b) w other))
      → Focus (set_color x n t) p q k (bend d c s q (bend d cw (bend d n a x b) w other))
  paint_near d t p q w x c cw n s a b other k =
      within_far d t (set_color x n t) p q c s (bend d cw (bend d red a x b) w other)
        (bend d cw (bend d n a x b) w other) k
        (λ h f. (
          w,
          within_near d t (set_color x n t) q w cw (bend d red a x b) (bend d n a x b) other
              (down (opposite d) q c s k)
              (λ g m. (
                g,
                paint-bend d t w g x red n a b (down d w cw other (down (opposite d) q c s k)) m,
              ))
              (at_sibling d t h q w cw (bend d red a x b) other (down (opposite d) q c s k) f),
        ))

  pub paint_other :
      (d : Direction) (t : RedBlackTree K V) (p q w x : Handle) (c cw n : ℕ) (s a b near : Shape)
      (k : Context)
      → Focus t p q k (bend d c s q (bend d cw near w (bend d red a x b)))
      → Focus (set_color x n t) p q k (bend d c s q (bend d cw near w (bend d n a x b)))
  paint_other d t p q w x c cw n s a b near k =
      within_far d t (set_color x n t) p q c s (bend d cw near w (bend d red a x b))
        (bend d cw near w (bend d n a x b)) k
        (λ h f. (
          w,
          within_far d t (set_color x n t) q w cw near (bend d red a x b) (bend d n a x b)
              (down (opposite d) q c s k)
              (λ g m. (
                g,
                paint-bend d t w g x red n a b
                    (down (opposite d) w cw near (down (opposite d) q c s k)) m,
              ))
              (at_sibling d t h q w cw near (bend d red a x b) (down (opposite d) q c s k) f),
        ))

  pub turn_inward :
      (d : Direction) (t : RedBlackTree K V) (p w x : Handle) (k : Context) (c n : ℕ)
      (a b other : Shape)
      → Focus t p w k (bend d c (bend d n a x b) w other)
      → Focus (rotate (opposite d) w t) p x k (bend d n a x (bend d c b w other))
  turn_inward leftward t p w x k c n a b other f = rotate-Focus rightward t p w x k c n other b a f
  turn_inward rightward t p w x k c n a b other f = rotate-Focus leftward t p w x k c n other b a f

  -- Case 3: the near nephew `x` becomes the sibling.
  pub turn_sibling :
      (d : Direction) (t : RedBlackTree K V) (p q w x : Handle) (c cw n : ℕ) (s a b other : Shape)
      (k : Context)
      → Focus t p q k (bend d c s q (bend d cw (bend d n a x b) w other))
      → Focus (rotate (opposite d) w t) p q k (bend d c s q (bend d n a x (bend d cw b w other)))
  turn_sibling d t p q w x c cw n s a b other k =
      within_far d t (rotate (opposite d) w t) p q c s (bend d cw (bend d n a x b) w other)
        (bend d n a x (bend d cw b w other)) k
        (λ h f. (
          x,
          turn_inward d t q w x (down (opposite d) q c s k) cw n a b other
              (at_sibling d t h q w cw (bend d n a x b) other (down (opposite d) q c s k) f),
        ))

  -- What the code reads around the node `q`.
  pub record Reads (d : Direction) (t : RedBlackTree K V) (q w : Handle) (near other : Shape)
      : Type 0 where
    pub sibling : child_of (opposite d) t q ≡ w
    pub near_color : color_of t (child_of d t w) ≡ root_color near
    pub other_color : color_of t (child_of (opposite d) t w) ≡ root_color other
    pub near_links : Links t w (child_of d t w) near
    pub other_links : Links t w (child_of (opposite d) t w) other

  pub reads :
      (d : Direction) (t : RedBlackTree K V) (p q w : Handle) (c cw : ℕ) (s near other : Shape)
      (k : Context)
      → Focus t p q k (bend d c s q (bend d cw near w other))
      → Reads d t q w near other
  reads d t p q w c cw s near other k f =
      let lq = Links-bend t d p q q c s (bend d cw near w other) f.links in
      let lw = Links-bend t d q (child (opposite d) (t.nodes q)) w cw near other lq.5 in
      let near_at : child_of d t w ≡ child d (t.nodes w) = ground (arith, lw.1) in
      let other_at : child_of (opposite d) t w ≡ child (opposite d) (t.nodes w) =
        ground (arith, lw.1) in
      let ln = subst (λ z. Links t w z near) (sym near_at) lw.4 in
      let lo = subst (λ z. Links t w z other) (sym other_at) lw.5 in
      let to_w : child_of (opposite d) t q ≡ child (opposite d) (t.nodes q) =
        ground (arith, lq.1) in
      record {
        sibling = to_w ∙ lw.0;
        near_color = color_of_lem t w (child_of d t w) near ln;
        other_color = color_of_lem t w (child_of (opposite d) t w) other lo;
        near_links = ln;
        other_links = lo;
      }
