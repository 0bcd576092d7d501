-- ===== src/Tree/Arena/Remove/Nephews.antt =====
-- crates/clob-book/src/tree/remove.rs: a round with a black sibling.
use clob_dex.Prelude.{
  ℕ, suc, ◌≤◌, ◌≡◌, ◌≢◌, inl, inr, refl, sym, ap, subst, ◌∙◌, ◌==◌, if◌then◌else◌, ◌&&◌, arith,
  false, Option,
}
use clob_dex.Tree.{Handle, nil}
use clob_dex.Tree.Arena.{
  Direction, opposite, RedBlackTree, child_of, parent_of, color_of, set_color, rotate, red, black,
}
use clob_dex.Tree.Arena.Remove.{far_nephew, absorb, nephews, delete_fixup}
use clob_dex.Tree.Arena.Remove.Cases.{paint_sibling, reads}
use clob_dex.Tree.Arena.Remove.Steps.{Relinks, Relinks-trans, Relinks-color, Relinks-Kept}
use clob_dex.Tree.Arena.Remove.Absorb.{
  absorb-Focus, far_nephew-Focus, inorder-three, root_color-bend,
}
use clob_dex.Tree.Arena.Remove.Balance.{
  Short, not_both-far, not_both-near, absorbed, inorder-sibling, colored, inorder-inward,
}
use clob_dex.Tree.Arena.Remove.Ends.{from_root}
use clob_dex.Tree.Arena.Insert.Fixup.{Rebalanced}
use clob_dex.Tree.Arena.Insert.Rebalance.{parent_of_lem}
use clob_dex.Tree.Arena.Insert.Rounds.{via}
use clob_dex.Tree.Arena.Shape.{Shape, Context, bend, plug, inorder, occurs, occurs-plug, Links-bend}
use clob_dex.Tree.Arena.Balanced.{
  root_color, Balanced-bend, Balanced-parts, height-bend, inorder-plug,
}
use clob_dex.Tree.Arena.Focus.{Focus, occurs-bend}
use clob_dex.Tree.Arena.Turn.{inorder-turn}

module _ {K V : Type 0} where
  nephews-black :
      (d : Direction) (t : RedBlackTree K V) (q w : Handle)
      → color_of t (child_of d t w) ≡ black
      → color_of t (child_of (opposite d) t w) ≡ black
      → nephews d q w t ≡ (q, parent_of (set_color w red t) q, set_color w red t)
  unfolding nephews
  nephews-black d t q w a b = rw (a, nephews) (rw b)

  nephews-red :
      (d : Direction) (t t1 t2 : RedBlackTree K V) (q w w1 : Handle)
      → (color_of t (child_of d t w) == black && color_of t (child_of (opposite d) t w) == black)
        ≡ false
      → far_nephew d w t ≡ t1
      → child_of (opposite d) t1 q ≡ w1
      → absorb d q w1 t1 ≡ t2
      → nephews d q w t ≡ (t2.root, nil, t2)
  unfolding nephews
  nephews-red d t t1 t2 q w w1 e a b c =
      rw (e, nephews)
        (ap
            (λ (u : RedBlackTree K V).
              let v = absorb d q (child_of (opposite d) u q) u in (v.root, nil, v))
            a
          ∙ ap (λ (h : Handle). let v = absorb d q h t1 in (v.root, nil, v)) b
          ∙ ap (λ (v : RedBlackTree K V). (v.root, nil, v)) c)

  -- What the rest of the loop makes of a round's answer.
  abbrev pub rest : ℕ → Handle × Handle × RedBlackTree K V → Option (RedBlackTree K V)
  rest f n = delete_fixup f n.2 n.0 n.1

  -- Case 4 at once.
  far_red :
      (f : ℕ) (d : Direction) (t : RedBlackTree K V) (p q w y : Handle) (c : ℕ) (s near a b : Shape)
      (k : Context)
      → Focus t p q k (bend d c s q (bend d black near w (bend d red a y b)))
      → Short c s near (bend d red a y b) k
      → Rebalanced t
          (plug k (bend d c s q (bend d black near w (bend d red a y b))))
          (rest (suc f) (nephews d q w t))
  far_red f d t p q w y c s near a b k v m =
      let other = bend d red a y b in
      let r = reads d t p q w c black s near other k v in
      let (v1, r1) = absorb-Focus d t p q w y c s near a b k v in
      let far_color : color_of t (child_of (opposite d) t w) ≡ red =
        r.other_color ∙ root_color-bend d red a y b in
      let test : (color_of t (child_of d t w) == black
            && color_of t (child_of (opposite d) t w) == black)
          ≡ false =
        not_both-far (color_of t (child_of d t w)) (color_of t (child_of (opposite d) t w))
          far_color in
      let keep : far_nephew d w t ≡ t =
        ap
          (λ (n : ℕ).
            if n == black
            then rotate (opposite d) w (set_color w red (set_color (child_of d t w) black t))
            else t)
          far_color in
      let eq = nephews-red d t t (absorb d q w t) q w w test keep r.sibling refl in
      via r1.same
        (Relinks-Kept (plug k (bend d c s q (bend d black near w other)))
          (inorder (plug k (bend d c s q (bend d black near w other)))) refl r1)
        (inorder-plug k (bend d c (bend d black s q near) w (bend d black a y b))
          (bend d c s q (bend d black near w other))
          (inorder-turn d q w black c s near (bend d black a y b)
            ∙ inorder-three d black c black c black red s near a b q w y))
        (ap (rest (suc f)) eq)
        (from_root f (absorb d q w t) p w k
          (bend d c (bend d black s q near) w (bend d black a y b)) v1
          (absorbed d q w y c s near a b k m))

  -- Case 3, then case 4.
  near_red :
      (f : ℕ) (d : Direction) (t : RedBlackTree K V) (p q w x : Handle) (c : ℕ)
      (s a b other : Shape) (k : Context)
      → Focus t p q k (bend d c s q (bend d black (bend d red a x b) w other))
      → Short c s (bend d red a x b) other k
      → root_color other ≡ black
      → Rebalanced t
          (plug k (bend d c s q (bend d black (bend d red a x b) w other)))
          (rest (suc f) (nephews d q w t))
  near_red f d t p q w x c s a b other k v m ob =
      let near = bend d red a x b in
      let before_it = bend d c s q (bend d black near w other) in
      let r = reads d t p q w c black s near other k v in
      let (v1, r1) = far_nephew-Focus d t p q w x c s a b other k v ob in
      let t1 = far_nephew d w t in
      let s1 = reads d t1 p q x c black s a (bend d red b w other) k v1 in
      let (v2, r2) = absorb-Focus d t1 p q x w c s a b other k v1 in
      let t2 = absorb d q x t1 in
      let near_color : color_of t (child_of d t w) ≡ red =
        r.near_color ∙ root_color-bend d red a x b in
      let test =
        not_both-near (color_of t (child_of d t w)) (color_of t (child_of (opposite d) t w))
          near_color in
      let eq = nephews-red d t t1 t2 q w x test refl s1.sibling refl in
      let turned =
        inorder-plug k (bend d c s q (bend d black a x (bend d red b w other))) before_it
          (inorder-inward d c s q a x b w other) in
      let rr = Relinks-trans r1 (subst (Relinks t1 t2) turned r2) in
      let ps = Balanced-parts d red x a b m.near_balanced in
      let hb = height-bend d red x a b (sym ps.1) in
      let over =
        Balanced-bend d red w b other (omega arith) (λ _. ((ps.0 refl).1, ob))
          (omega (arith, ps.1, hb, m.near_height, m.other_height)) ps.3 m.other_balanced in
      let m1 : Short c s a (bend d red b w other) k = record {
        color = m.color;
        short = m.short;
        short_black = m.short_black;
        near_balanced = ps.2;
        other_balanced = over.0;
        near_height = omega (arith, hb, m.near_height);
        other_height = omega (arith, over.1, ps.1, hb, m.near_height);
        fits = m.fits;
        above = m.above;
      } in
      via rr.same (Relinks-Kept (plug k before_it) (inorder (plug k before_it)) refl rr)
        (inorder-plug k (bend d c (bend d black s q a) x (bend d black b w other))
            (bend d c s q (bend d black a x (bend d red b w other)))
            (inorder-turn d q x black c s a (bend d black b w other)
              ∙ inorder-three d black c black c black red s a b other q x w)
          ∙ turned)
        (ap (rest (suc f)) eq)
        (from_root f t2 p x k (bend d c (bend d black s q a) x (bend d black b w other)) v2
          (absorbed d q x w c s a b other k m1))

  -- Case 2: both nephews are black, and the loop goes on from `q`.
  both_black :
      (f : ℕ) (d : Direction) (t : RedBlackTree K V) (p q w : Handle) (c : ℕ) (s near other : Shape)
      (k : Context)
      → Focus t p q k (bend d c s q (bend d black near w other))
      → root_color near ≡ black
      → root_color other ≡ black
      → ((u : RedBlackTree K V)
          → Focus u p q k (bend d c s q (bend d red near w other))
          → Rebalanced u (plug k (bend d c s q (bend d red near w other))) (delete_fixup f u q p))
      → Rebalanced t (plug k (bend d c s q (bend d black near w other))) (rest f (nephews d q w t))
  both_black f d t p q w c s near other k v nb ob next =
      let u = set_color w red t in
      let whole = plug k (bend d c s q (bend d black near w other)) in
      let r = reads d t p q w c black s near other k v in
      let v1 = paint_sibling d t p q w c black red s near other k v in
      let n : q ≢ nil =
        omega (arith, (Links-bend t d p q q c s (bend d black near w other) v.links).1) in
      let to_p : parent_of u q ≡ p =
        parent_of_lem u p q (bend d c s q (bend d red near w other)) v1.links n in
      let eq =
        nephews-black d t q w (r.near_color ∙ nb) (r.other_color ∙ ob)
        ∙ ap (λ (z : Handle). (q, z, u)) to_p in
      let here : 1 ≤ occurs w whole = ground (
        arith,
        occurs-plug k (bend d c s q (bend d black near w other)) w,
        occurs-bend d c s q (bend d black near w other) w,
        occurs-bend d black near w other w,
      ) in
      let rr = Relinks-color t w red whole (inorder whole) refl here in
      via rr.same (Relinks-Kept whole (inorder whole) refl rr)
        (inorder-plug k (bend d c s q (bend d red near w other))
          (bend d c s q (bend d black near w other))
          (inorder-sibling d c red black s q near w other))
        (ap (rest f) eq) (next u v1)

  -- A round over a black sibling, whose nephews are of any colour. Where both are black the loop goes
  -- on from `q`.
  pub over_black :
      (f : ℕ) (d : Direction) (t : RedBlackTree K V) (p q w : Handle) (c : ℕ) (s near other : Shape)
      (k : Context)
      → Focus t p q k (bend d c s q (bend d black near w other))
      → Short c s near other k
      → ((u : RedBlackTree K V)
          → Focus u p q k (bend d c s q (bend d red near w other))
          → root_color near ≡ black
          → root_color other ≡ black
          → Rebalanced u
              (plug k (bend d c s q (bend d red near w other)))
              (delete_fixup (suc f) u q p))
      → Rebalanced t
          (plug k (bend d c s q (bend d black near w other)))
          (rest (suc f) (nephews d q w t))
  over_black f d t p q w c s near other k v m next = elim (colored d other m.other_balanced) [
    | inr (a, y, b, e) ↦
        subst
          (λ z.
            Rebalanced t (plug k (bend d c s q (bend d black near w z)))
              (rest (suc f) (nephews d q w t)))
          (sym e)
          (far_red f d t p q w y c s near a b k
            (subst (λ z. Focus t p q k (bend d c s q (bend d black near w z))) e v)
            (subst (λ z. Short c s near z k) e m))
    | inl ob ↦ elim (colored d near m.near_balanced) [
      | inr (a, x, b, e) ↦
          subst
            (λ z.
              Rebalanced t (plug k (bend d c s q (bend d black z w other)))
                (rest (suc f) (nephews d q w t)))
            (sym e)
            (near_red f d t p q w x c s a b other k
              (subst (λ z. Focus t p q k (bend d c s q (bend d black z w other))) e v)
              (subst (λ z. Short c s z other k) e m) ob)
      | inl nb ↦ both_black (suc f) d t p q w c s near other k v nb ob (λ u g. next u g nb ob)
    ]
  ]
