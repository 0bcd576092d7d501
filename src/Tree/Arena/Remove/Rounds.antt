-- ===== src/Tree/Arena/Remove/Rounds.antt =====
-- crates/clob-book/src/tree/remove.rs: what a round of `delete_fixup` reads, and a round over a
-- black sibling.
use clob_dex.Prelude.{
  ℕ, suc, ◌+◌, ◌≤◌, ◌<◌, ◌≡◌, ◌≢◌, ◌⊎◌, inl, inr, refl, sym, ap, subst, ◌∙◌, ◌==◌, if◌then◌else◌,
  arith,
}
use clob_dex.Tree.{Handle, nil}
use clob_dex.Tree.Arena.{
  Direction, leftward, rightward, opposite, RedBlackTree, child, child_of, color_of, set_color,
  rotate, red, black,
}
use clob_dex.Tree.Arena.Remove.{nephews, delete_fixup, delete_round, black_sibling, side}
use clob_dex.Tree.Arena.Remove.Cases.{reads}
use clob_dex.Tree.Arena.Remove.Absorb.{root_color-bend}
use clob_dex.Tree.Arena.Remove.Ends.{go_on}
use clob_dex.Tree.Arena.Remove.Nephews.{over_black}
use clob_dex.Tree.Arena.Remove.Balance.{Short}
use clob_dex.Tree.Arena.Insert.Fixup.{Rebalanced, blacken, color_of_lem}
use clob_dex.Tree.Arena.Insert.Rebalance.{other_child}
use clob_dex.Tree.Arena.Shape.{
  Shape, leaf, fork, Context, top, down, bend, plug, depth, occurs, occurs_around, Around, Links,
  Links-bend, Links-occurs,
}
use clob_dex.Tree.Arena.Balanced.{
  root_color, black_height, Balanced, Balanced-bend, Balanced-parts, height-bend, Fits,
}
use clob_dex.Tree.Arena.Focus.{Focus, nil_cases}
use clob_dex.Tree.Arena.Zoom.{zoom_out}

pub black_height-pos : (s : Shape) → 1 ≤ black_height s
black_height-pos leaf = omega arith
black_height-pos (fork c l x r) = omega (arith, black_height-pos l)

blacken-bend :
    (d : Direction) (c : ℕ) (near : Shape) (x : Handle) (far : Shape)
    → blacken (bend d c near x far) ≡ bend d black near x far
blacken-bend leftward c near x far = refl
blacken-bend rightward c near x far = refl

pub Short-of :
    (d : Direction) (w c : ℕ) (s near other : Shape) (q : Handle) (k : Context)
    → Balanced s
    → root_color s ≡ black
    → Fits (down d q c (bend d black near w other) k) (black_height s + 1)
    → Short c s near other k
Short-of d w c s near other q k b sb fit =
    let ps = Balanced-parts d black w near other fit.3 in
    let hb = height-bend d black w near other (sym ps.1) in
    record {
      color = fit.0;
      short = b;
      short_black = sb;
      near_balanced = ps.2;
      other_balanced = ps.3;
      near_height = omega (arith, hb, fit.2);
      other_height = omega (arith, hb, fit.2, ps.1);
      fits = fit.4;
      above = λ e. (fit.1 e).1;
    }

-- The node `q` after case 2.
pub passed_on :
    (d : Direction) (q w c : ℕ) (s near other : Shape) (k : Context)
    → Short c s near other k
    → root_color near ≡ black
    → root_color other ≡ black
    → let m = bend d c s q (bend d red near w other) in
      Balanced (blacken m) × (root_color m ≤ black) × Fits k (black_height m + 1)
passed_on d q w c s near other k m nb ob =
    let far =
      Balanced-bend d red w near other (omega arith) (λ _. (nb, ob))
        (m.near_height ∙ sym m.other_height) m.near_balanced m.other_balanced in
    let hf : black_height (bend d red near w other) ≡ black_height s =
      omega (arith, far.1, m.near_height) in
    let all =
      Balanced-bend d black q s (bend d red near w other) (omega arith)
        (λ z. absurd (omega (arith, z))) (sym hf) m.short far.0 in
    let hm = height-bend d c q s (bend d red near w other) hf in
    let h : black_height s + 1 + (if c == black then 1 else 0)
        ≡ black_height (bend d c s q (bend d red near w other)) + 1 =
      omega (arith, hm) in
    (
      subst Balanced (sym (blacken-bend d c s q (bend d red near w other))) all.0,
      rw (root_color-bend d c s q (bend d red near w other)) m.color,
      subst (Fits k) h m.fits,
    )

module _ {K V : Type 0} where
  -- The root is above the hole of any context but `top`.
  root_above :
      (t : RedBlackTree K V) (d : Direction) (p h q : Handle) (c : ℕ) (far : Shape) (k : Context)
      → Around t p h (down d q c far k)
      → 1 ≤ occurs_around t.root (down d q c far k)
  root_above t d p h q c far top a = ground (arith, a.5.1)
  root_above t d p h q c far (down e g n m k) a =
      omega (arith, root_above t e (t.nodes q).parent q g n m k a.5)

  -- What a round reads.
  module _ (t : RedBlackTree K V) (d : Direction) (x q : Handle) (c : ℕ) (s far : Shape)
      (k : Context) (w : Focus t q x (down d q c far k) s) where
    pub not_root : x ≢ t.root
    not_root e = ground (arith, root_above t d q x q c far k w.around, w.proper x, here)
      where
        here : (x ≡ nil) ⊎ (1 ≤ occurs x s)
        here = elim (nil_cases x) [ inl n ↦ inl n | inr n ↦ inr (Links-occurs t q x s w.links n) ]

    pub q-ne-nil : q ≢ nil
    q-ne-nil = omega (arith, w.around.1)

    pub at_q : Focus t (t.nodes q).parent q k (bend d c s q far)
    at_q = zoom_out t d q x q c far s k w

  -- The far child is a node, so it is not `x`.
  other_side :
      (t : RedBlackTree K V) (d : Direction) (x q w : Handle) (c cw : ℕ) (s near other : Shape)
      (k : Context)
      → Focus t q x (down d q c (bend d cw near w other) k) s
      → child (opposite d) (t.nodes q) ≢ x
  other_side t d x q w c cw s near other k f e =
      let l = Links-bend t d q (child (opposite d) (t.nodes q)) w cw near other f.around.4 in
      let n : x ≢ nil = omega (arith, e, l.0, l.1) in
      other_child t d q x q c (bend d cw near w other) s k f (Links-occurs t q x s f.links n) e

  pub side_lem :
      (t : RedBlackTree K V) (d : Direction) (x q w : Handle) (c cw : ℕ) (s near other : Shape)
      (k : Context)
      → Focus t q x (down d q c (bend d cw near w other) k) s
      → side t x q ≡ d
  side_lem t leftward x q w c cw s near other k f = ground (arith, f.around.1, f.around.3)
  side_lem t rightward x q w c cw s near other k f =
      ground (arith, f.around.1, other_side t rightward x q w c cw s near other k f)

  pub sibling_color :
      (t : RedBlackTree K V) (d : Direction) (x q w : Handle) (c cw : ℕ) (s near other : Shape)
      (k : Context)
      → Focus t q x (down d q c (bend d cw near w other) k) s
      → color_of t w ≡ cw
  sibling_color t d x q w c cw s near other k f =
      let l = Links-bend t d q (child (opposite d) (t.nodes q)) w cw near other f.around.4 in
      color_of_lem t q w (bend d cw near w other)
        (subst (λ z. Links t q z (bend d cw near w other)) l.0 f.around.4)
      ∙ root_color-bend d cw near w other

  pub round_at :
      (t t1 : RedBlackTree K V) (x q w w1 : Handle) (d : Direction)
      → side t x q ≡ d
      → child_of (opposite d) t q ≡ w
      → black_sibling d q w t ≡ t1
      → child_of (opposite d) t1 q ≡ w1
      → delete_round t x q ≡ nephews d q w1 t1
  unfolding delete_round
  round_at t t1 x q w w1 d a b e g =
      ap
        (λ (m : Direction).
          let u = black_sibling m q (child_of (opposite m) t q) t in
          nephews m q (child_of (opposite m) u q) u)
        a
      ∙ ap
          (λ (h : Handle).
            let u = black_sibling d q h t in nephews d q (child_of (opposite d) u q) u)
          b
      ∙ ap (λ (u : RedBlackTree K V). nephews d q (child_of (opposite d) u q) u) e
      ∙ ap (λ (h : Handle). nephews d q h t1) g

  -- What the loop does from a focus on a subtree that is one black short.
  abbrev pub Mends : RedBlackTree K V → ℕ → Type 0
  Mends t f =
      (p x : Handle) (k : Context) (s : Shape)
      → depth k < f
      → Focus t p x k s
      → Balanced (blacken s)
      → root_color s ≤ black
      → Fits k (black_height s + 1)
      → Rebalanced t (plug k s) (delete_fixup f t x p)

  pub black_case :
      (f : ℕ) (ih : (t : RedBlackTree K V) → Mends t (suc f)) (d : Direction) (t : RedBlackTree K V)
      (x q w : Handle) (c : ℕ) (s near other : Shape) (k : Context)
      → depth k < suc f
      → Focus t q x (down d q c (bend d black near w other) k) s
      → Balanced s
      → root_color s ≡ black
      → Fits (down d q c (bend d black near w other) k) (black_height s + 1)
      → Rebalanced t
          (plug (down d q c (bend d black near w other) k) s)
          (delete_fixup (suc (suc f)) t x q)
  black_case f ih d t x q w c s near other k m v b sb fit =
      let far = bend d black near w other in
      let p = (t.nodes q).parent in
      let g = at_q t d x q c s far k v in
      let sib = (reads d t p q w c black s near other k g).sibling in
      let keep : black_sibling d q w t ≡ t =
        ap (λ (n : ℕ). if n == red then rotate d q (set_color q red (set_color w black t)) else t)
          (sibling_color t d x q w c black s near other k v) in
      let n = nephews d q w t in
      let eq =
        go_on (suc f) t n.2 x q n.0 n.1 (not_root t d x q c s far k v)
          (color_of_lem t q x s v.links ∙ sb) (q-ne-nil t d x q c s far k v)
          (round_at t t x q w w d (side_lem t d x q w c black s near other k v) sib keep sib) in
      let sh = Short-of d w c s near other q k b sb fit in
      let all = over_black f d t p q w c s near other k g sh (λ u h nb ob.
        let o = passed_on d q w c s near other k sh nb ob in
        ih u p q k (bend d c s q (bend d red near w other)) m h o.0 o.1 o.2) in
      subst (Rebalanced t (plug k (bend d c s q far))) (sym eq) all
