-- ===== src/Tree/Arena/Remove/Loop.antt =====
-- crates/clob-book/src/tree/remove.rs: the loop of `delete_fixup` from any focus.
use clob_dex.Prelude.{
  ℕ, zero, suc, ◌+◌, ◌≤◌, ◌<◌, ◌≡◌, inl, inr, refl, sym, ap, subst, ◌∙◌, ◌==◌, if◌then◌else◌, arith,
}
use clob_dex.Tree.{Handle}
use clob_dex.Tree.Arena.{
  Direction, leftward, rightward, RedBlackTree, child, set_color, rotate, red, black,
}
use clob_dex.Tree.Arena.Remove.{nephews, delete_fixup, black_sibling}
use clob_dex.Tree.Arena.Remove.Cases.{paint_sibling, reads}
use clob_dex.Tree.Arena.Remove.Steps.{Relinks-trans, Relinks-color, Relinks-Kept, Relinks-rotate}
use clob_dex.Tree.Arena.Remove.Absorb.{root_color-bend}
use clob_dex.Tree.Arena.Remove.Ends.{at_top, at_red, go_on, blacken-black}
use clob_dex.Tree.Arena.Remove.Nephews.{over_black}
use clob_dex.Tree.Arena.Remove.Balance.{Short, colored}
use clob_dex.Tree.Arena.Insert.Fixup.{Rebalanced, blacken, color_of_lem}
use clob_dex.Tree.Arena.Insert.Rebalance.{paint-bend}
use clob_dex.Tree.Arena.Insert.Rounds.{via}
use clob_dex.Tree.Arena.Shape.{
  Shape, leaf, fork, Context, top, down, bend, plug, inorder, depth, occurs, occurs-plug,
  Links-bend,
}
use clob_dex.Tree.Arena.Balanced.{
  root_color, black_height, Balanced, Balanced-parts, height-bend, Fits, inorder-plug,
}
use clob_dex.Tree.Arena.Focus.{Focus, occurs-bend, nil_cases}
use clob_dex.Tree.Arena.Zoom.{zoom_in}
use clob_dex.Tree.Arena.Turn.{rotate-Focus, inorder-turn}
use clob_dex.Tree.Arena.Remove.Rounds.{
  black_height-pos, passed_on, not_root, q-ne-nil, at_q, side_lem, sibling_color, round_at, Mends,
  black_case,
}

black-bend :
    (d : Direction) (s : Shape)
    → root_color s ≡ black
    → 2 ≤ black_height s
    → (near : Shape) × (x : Handle) × (far : Shape) × (s ≡ bend d black near x far)
black-bend d leaf e h = absurd (omega arith)
black-bend leftward (fork c l x r) e h = (l, x, r, ap (λ n. fork n l x r) e)
black-bend rightward (fork c l x r) e h = (r, x, l, ap (λ n. fork n l x r) e)

not_red : (c : ℕ) → c ≤ black → (c ≡ red → ⊥) → c ≡ black
not_red c m n = ground arith

inorder-two :
    (d : Direction) (c e c' e' : ℕ) (s : Shape) (q : Handle) (near : Shape) (w : Handle)
    (other : Shape)
    → inorder (bend d c s q (bend d e near w other))
      ≡ inorder (bend d c' s q (bend d e' near w other))
inorder-two leftward c e c' e' s q near w other = refl
inorder-two rightward c e c' e' s q near w other = refl

occurs-two :
    (d : Direction) (c e : ℕ) (s near other : Shape) (q w : Handle) (k : Context)
    → let m = plug k (bend d c s q (bend d e near w other)) in (1 ≤ occurs q m) × (1 ≤ occurs w m)
occurs-two d c e s near other q w k =
    let far = bend d e near w other in
    (
      ground (arith, occurs-plug k (bend d c s q far) q, occurs-bend d c s q far q),
      ground (
        arith,
        occurs-plug k (bend d c s q far) w,
        occurs-bend d c s q far w,
        occurs-bend d e near w other w,
      ),
    )

red-Short :
    (d : Direction) (w w2 q : Handle) (s n2 o2 other : Shape) (k : Context)
    → Balanced s
    → root_color s ≡ black
    → Fits (down d q black (bend d red (bend d black n2 w2 o2) w other) k) (black_height s + 1)
    → Short red s n2 o2 (down d w black other k)
red-Short d w w2 q s n2 o2 other k b sb fit =
    let near = bend d black n2 w2 o2 in
    let ps = Balanced-parts d red w near other fit.3 in
    let hb = height-bend d red w near other (sym ps.1) in
    let qs = Balanced-parts d black w2 n2 o2 ps.2 in
    let hn = height-bend d black w2 n2 o2 (sym qs.1) in
    let h : black_height s + 1 + 1 ≡ black_height s + 1 + 0 + 1 = omega arith in
    record {
      color = omega arith;
      short = b;
      short_black = sb;
      near_balanced = qs.2;
      other_balanced = qs.3;
      near_height = omega (arith, hn, hb, fit.2);
      other_height = omega (arith, hn, hb, fit.2, qs.1);
      fits = (
        omega arith,
        (λ z. absurd (omega (arith, z))),
        omega (arith, ps.1, hb, fit.2),
        ps.3,
        subst (Fits k) h fit.4,
      );
      above = λ _. refl;
    }

module _ {K V : Type 0} where
  -- Case 1: the red sibling is rotated away, and the round goes on with a red parent.
  red_case :
      (f : ℕ) (d : Direction) (t : RedBlackTree K V) (x q w w2 : Handle) (s n2 o2 other : Shape)
      (k : Context)
      → Focus t q x (down d q black (bend d red (bend d black n2 w2 o2) w other) k) s
      → Balanced s
      → root_color s ≡ black
      → Fits (down d q black (bend d red (bend d black n2 w2 o2) w other) k) (black_height s + 1)
      → Rebalanced t
          (plug (down d q black (bend d red (bend d black n2 w2 o2) w other) k) s)
          (delete_fixup (suc (suc f)) t x q)
  red_case f d t x q w w2 s n2 o2 other k v b sb fit =
      let near = bend d black n2 w2 o2 in
      let far = bend d red near w other in
      let p = (t.nodes q).parent in
      let whole = plug k (bend d black s q far) in
      let hs = inorder whole in
      let o = occurs-two d black red s near other q w k in
      let g = at_q t d x q black s far k v in
      let sib = (reads d t p q w black red s near other k g).sibling in
      let u1 = set_color w black t in
      let u2 = set_color q red u1 in
      let t1 = rotate d q u2 in
      let f1 = paint_sibling d t p q w black red black s near other k g in
      let f2 = paint-bend d u1 p q q black red s (bend d black near w other) k f1 in
      let f3 = rotate-Focus d u2 p q w k red black s near other f2 in
      let k1 = down d w black other k in
      let f4 = zoom_in t1 d p w w black other (bend d red s q near) k f3 in
      let to_q = (Links-bend t1 d w (child d (t1.nodes w)) q red s near f4.links).0 in
      let f5 = subst (λ z. Focus t1 w z k1 (bend d red s q near)) to_q f4 in
      let turn : black_sibling d q w t ≡ t1 =
        ap (λ (n : ℕ). if n == red then t1 else t)
          (sibling_color t d x q w black red s near other k v) in
      let sib1 = (reads d t1 w q w2 red black s n2 o2 k1 f5).sibling in
      let n = nephews d q w2 t1 in
      let eq =
        go_on (suc f) t n.2 x q n.0 n.1 (not_root t d x q black s far k v)
          (color_of_lem t q x s v.links ∙ sb) (q-ne-nil t d x q black s far k v)
          (round_at t t1 x q w w2 d (side_lem t d x q w black red s near other k v) sib turn
            sib1) in
      let order =
        inorder-plug k (bend d black (bend d red s q near) w other) (bend d black s q far) (
          inorder-turn d q w red black s near other
          ∙ inorder-two d red black black red s q near w other) in
      let rr = Relinks-trans (Relinks-color t w black whole hs refl o.1) (
        Relinks-trans (Relinks-color u1 q red whole hs refl o.0) (
          Relinks-rotate d u2 p q w k red black s near other hs f2 (
            inorder-plug k (bend d red s q (bend d black near w other)) (bend d black s q far)
              (inorder-two d red black black red s q near w other)))) in
      let sh = red-Short d w w2 q s n2 o2 other k b sb fit in
      via rr.same (Relinks-Kept whole hs refl rr) order eq (
        over_black f d t1 w q w2 red s n2 o2 k1 f5 sh (λ u h nb ob.
          let z = passed_on d q w2 red s n2 o2 k1 sh nb ob in
          at_red f u w q k1 (bend d red s q (bend d red n2 w2 o2)) h
            (root_color-bend d red s q (bend d red n2 w2 o2)) z.0 z.2))

  -- The rounds are enough where they exceed the depth.
  from_child :
      (f : ℕ) (ih : (t : RedBlackTree K V) → Mends t (suc f)) (d : Direction) (t : RedBlackTree K V)
      (x q : Handle) (c : ℕ) (s far : Shape) (k : Context)
      → depth k < suc f
      → Focus t q x (down d q c far k) s
      → Balanced s
      → root_color s ≡ black
      → Fits (down d q c far k) (black_height s + 1)
      → Rebalanced t (plug (down d q c far k) s) (delete_fixup (suc (suc f)) t x q)
  from_child f ih d t x q c s far k m v b sb fit = elim (colored d far fit.3) [
    | inl fb ↦
        let (near, w, other, e) = black-bend d far fb (omega (arith, fit.2, black_height-pos s)) in
        subst
          (λ z.
            Focus t q x (down d q c z k) s
            → Fits (down d q c z k) (black_height s + 1)
            → Rebalanced t (plug (down d q c z k) s) (delete_fixup (suc (suc f)) t x q))
          (sym e) (λ v' fit'. black_case f ih d t x q w c s near other k m v' b sb fit') v fit
    | inr (near, w, other, e) ↦
        let ps = Balanced-parts d red w near other (subst Balanced e fit.3) in
        let hn = height-bend d red w near other (sym ps.1) in
        let (n2, w2, o2, en) =
          black-bend d near (ps.0 refl).0
            (omega (arith, fit.2, black_height-pos s, ap black_height e, hn)) in
        let far_red : root_color far ≡ red = ap root_color e ∙ root_color-bend d red near w other in
        let cb : c ≡ black = not_red c fit.0 (λ z. absurd (omega (arith, (fit.1 z).0, far_red))) in
        let whole = e ∙ ap (λ z. bend d red z w other) en in
        subst
          (λ z.
            Focus t q x (down d q c z k) s
            → Fits (down d q c z k) (black_height s + 1)
            → Rebalanced t (plug (down d q c z k) s) (delete_fixup (suc (suc f)) t x q))
          (sym whole)
          (subst
            (λ n.
              Focus t q x (down d q n (bend d red (bend d black n2 w2 o2) w other) k) s
              → Fits (down d q n (bend d red (bend d black n2 w2 o2) w other) k)
                  (black_height s + 1)
              → Rebalanced t (plug (down d q n (bend d red (bend d black n2 w2 o2) w other) k) s)
                  (delete_fixup (suc (suc f)) t x q))
            (sym cb) (λ v' fit'. red_case f d t x q w w2 s n2 o2 other k v' b sb fit'))
          v fit
  ]

  mend_black :
      (f : ℕ) (ih : (t : RedBlackTree K V) → Mends t f) (t : RedBlackTree K V) (p x : Handle)
      (d : Direction) (q : Handle) (c : ℕ) (far : Shape) (k : Context) (s : Shape)
      → suc (depth k) < suc f
      → Focus t p x (down d q c far k) s
      → Balanced (blacken s)
      → root_color s ≡ black
      → Fits (down d q c far k) (black_height s + 1)
      → Rebalanced t (plug (down d q c far k) s) (delete_fixup (suc f) t x p)
  mend_black zero ih t p x d q c far k s m w b sb fit = absurd (omega arith)
  mend_black (suc f) ih t p x d q c far k s m w b sb fit =
      subst (λ z. Rebalanced t (plug (down d q c far k) s) (delete_fixup (suc (suc f)) t x z))
        (sym w.around.0)
        (from_child f ih d t x q c s far k (omega arith)
          (subst (λ z. Focus t z x (down d q c far k) s) w.around.0 w)
          (subst Balanced (blacken-black s sb) b) sb fit)

  -- Where the subtree at x may have a red root and is otherwise balanced, and its side is one
  -- black short in a tree whose other parts are balanced, the rebalance after a removal ends
  -- within one round more than the depth of x, and returns an arena that holds a balanced tree
  -- with a black root and the same handles in the same order, with no key, value or node outside
  -- the tree changed.
  pub mend : (f : ℕ) (t : RedBlackTree K V) → Mends t f
  mend zero t p x k s m w b c fit = absurd (omega arith)
  mend (suc f) t p x top s m w b c fit = at_top f t p x s w b
  mend (suc f) t p x (down d q c far k) s m w b r fit = elim (nil_cases (root_color s)) [
    | inl is_red ↦ at_red f t p x (down d q c far k) s w is_red b fit
    | inr not_zero ↦ mend_black f (λ u. mend f u) t p x d q c far k s m w b (omega (arith, r)) fit
  ]
