-- ===== src/Tree/Arena/Insert/Recolor.antt =====
-- crates/clob-book/src/tree/insert.rs: the case of a red uncle, and the loop of `insert_fixup`.
use clob_dex.Prelude.{ℕ, suc, ◌+◌, ◌<◌, ◌≡◌, ◌≢◌, refl, sym, ap, subst, ◌∙◌, arith}
use clob_dex.Tree.{Handle, nil}
use clob_dex.Tree.Arena.{
  Direction, leftward, rightward, opposite, RedBlackTree, child, set_color, red, black,
}
use clob_dex.Tree.Arena.Insert.{recolor, insert_fixup}
use clob_dex.Tree.Arena.Insert.Rebalance.{paint-bend}
use clob_dex.Tree.Arena.Insert.Fixup.{Rebalanced, round_recolor, uncle_at}
use clob_dex.Tree.Arena.Shape.{
  Shape, fork, Context, down, bend, plug, inorder, occurs, occurs_around, depth, Kept, occurs-plug,
}
use clob_dex.Tree.Arena.Balanced.{black_height, Balanced, Fits, Balanced-bend, inorder-plug}
use clob_dex.Tree.Arena.Focus.{Focus}
use clob_dex.Tree.Arena.Zoom.{zoom_in, zoom_out, paint, bend-opposite}
use clob_dex.Tree.Arena.Data.{set_color-other, SameData, same_trans, set_color-SameData}
use clob_dex.Tree.Arena.Insert.Rounds.{via, go_on, parent_color}

inorder-recolor :
    (d e : Direction) (s far uncle : Shape) (q g un : Handle) (ul ur : Shape)
    → inorder (bend (opposite e) red (fork black ul un ur) g (bend d black s q far))
      ≡ inorder (bend e black (bend d red s q far) g (fork red ul un ur))
inorder-recolor leftward leftward s far uncle q g un ul ur = refl
inorder-recolor leftward rightward s far uncle q g un ul ur = refl
inorder-recolor rightward leftward s far uncle q g un ul ur = refl
inorder-recolor rightward rightward s far uncle q g un ul ur = refl

handles_apart :
    (d e : Direction) (s far : Shape) (q g un : Handle) (ul ur : Shape) (j n : ℕ)
    → occurs j (bend e black (bend d red s q far) g (fork red ul un ur)) + n ≡ 0
    → (g ≢ j) × (un ≢ j) × (q ≢ j)
handles_apart leftward leftward s far q g un ul ur j n h =
    ((λ e. ground arith), (λ e. ground arith), (λ e. ground arith))
handles_apart leftward rightward s far q g un ul ur j n h =
    ((λ e. ground arith), (λ e. ground arith), (λ e. ground arith))
handles_apart rightward leftward s far q g un ul ur j n h =
    ((λ e. ground arith), (λ e. ground arith), (λ e. ground arith))
handles_apart rightward rightward s far q g un ul ur j n h =
    ((λ e. ground arith), (λ e. ground arith), (λ e. ground arith))

module _ {K V : Type 0} where
  recolor-Focus :
      (d e : Direction) (t : RedBlackTree K V) (p z q g un : Handle) (c : ℕ) (s far ul ur : Shape)
      (k : Context)
      → Focus t p z (down d q red far (down e g c (fork red ul un ur) k)) s
      → (pp : Handle) × Focus
          (recolor q un g t)
          pp
          g
          k
          (bend (opposite e) red (fork black ul un ur) g (bend d black s q far))
  recolor-Focus d e t p z q g un c s far ul ur k w =
      let uncle = fork red ul un ur in
      let near = bend d black s q far in
      let f1 = zoom_out t d p z q red far s (down e g c uncle k) w in
      let f2 = paint-bend d t (t.nodes q).parent q q red black s far (down e g c uncle k) f1 in
      let t1 = set_color q black t in
      let f3 = zoom_out t1 e (t.nodes q).parent q g c uncle near k f2 in
      let f4 =
        zoom_in t1 (opposite e) (t1.nodes g).parent g g c near uncle k
          (subst (Focus t1 (t1.nodes g).parent g k) (sym (bend-opposite e c uncle g near)) f3) in
      let un' = child (opposite e) (t1.nodes g) in
      let f5 = paint t1 g un' un red black ul ur (down (opposite e) g c near k) f4 in
      let t2 = set_color un black t1 in
      let f6 = zoom_out t2 (opposite e) g un' g c near (fork black ul un ur) k f5 in
      (
        (t2.nodes g).parent,
        paint-bend (opposite e) t2 (t2.nodes g).parent g g c red (fork black ul un ur) near k f6,
      )

  recolor-SameData : (p u g : Handle) (t : RedBlackTree K V) → SameData t (recolor p u g t)
  recolor-SameData p u g t = same_trans (set_color-SameData p black t) (
      same_trans (set_color-SameData u black (set_color p black t))
        (set_color-SameData g red (set_color u black (set_color p black t))))

  recolor-Kept :
      (d e : Direction) (t : RedBlackTree K V) (q g un : Handle) (s far ul ur : Shape) (k : Context)
      → Kept t (recolor q un g t) (plug (down d q red far (down e g black (fork red ul un ur) k)) s)
  recolor-Kept d e t q g un s far ul ur k j o n =
      let none_here : occurs j (bend e black (bend d red s q far) g (fork red ul un ur))
            + occurs_around j k
          ≡ 0 =
        sym (occurs-plug k (bend e black (bend d red s q far) g (fork red ul un ur)) j) ∙ o in
      let apart = handles_apart d e s far q g un ul ur j (occurs_around j k) none_here in
      set_color-other g red j (set_color un black (set_color q black t)) apart.0
      ∙ set_color-other un black j (set_color q black t) apart.1
      ∙ set_color-other q black j t apart.2

  -- What the loop does from a focus, with any rounds left beyond the depth.
  abbrev pub Repairs : (t : RedBlackTree K V) → ℕ → Type 0
  Repairs t f =
      (p z : Handle) (k : Context) (l r : Shape)
      → depth k < f
      → Focus t p z k (fork red l z r)
      → Balanced (fork red l z r)
      → Fits k (black_height l)
      → Rebalanced t (plug k (fork red l z r)) (insert_fixup f t z)

  repairs_bend :
      (d : Direction) (f : ℕ) (t : RedBlackTree K V) (ih : Repairs t f) (p z : Handle) (k : Context)
      (near far : Shape)
      → depth k < f
      → Focus t p z k (bend d red near z far)
      → Balanced (bend d red near z far)
      → Fits k (black_height near)
      → Rebalanced t (plug k (bend d red near z far)) (insert_fixup f t z)
  repairs_bend leftward f t ih p z k near far m w b fit = ih p z k near far m w b fit
  repairs_bend rightward f t ih p z k near far m w b fit =
      ih p z k far near m w b (subst (Fits k) (sym b.2) fit)

  -- Case 1.
  pub recolored :
      (f : ℕ) (ih : (t : RedBlackTree K V) → Repairs t f) (d e : Direction) (t : RedBlackTree K V)
      (p z q g un : Handle) (l r far ul ur : Shape) (k : Context)
      → depth k < f
      → Focus t p z (down d q red far (down e g black (fork red ul un ur) k)) (fork red l z r)
      → Balanced (fork red l z r)
      → Fits (down d q red far (down e g black (fork red ul un ur) k)) (black_height l)
      → Rebalanced t
          (plug (down d q red far (down e g black (fork red ul un ur) k)) (fork red l z r))
          (insert_fixup (suc f) t z)
  recolored f ih d e t p z q g un l r far ul ur k m w b fit =
      let s = fork red l z r in
      let near = bend d black s q far in
      let n : z ≢ nil = omega (arith, w.links.1) in
      let (pp, v) = recolor-Focus d e t p z q g un black s far ul ur k w in
      let eq =
        go_on f t (recolor q un g t) z g
          (parent_color t d p z q red far s (down e g black (fork red ul un ur) k) w n)
          (round_recolor t d e p z q g black s far (fork red ul un ur) k w n refl
            ∙ ap (λ j. (g, recolor q j g t))
                (uncle_at t d e p z q g black s far (fork red ul un ur) k w n ∙ w.around.5.4.0)) in
      let bn =
        Balanced-bend d black q s far (omega arith) (λ z. absurd (omega arith)) (omega (arith, fit))
          b fit.3 in
      let bg =
        Balanced-bend (opposite e) red g (fork black ul un ur) near (omega arith)
          (λ _. (refl, bn.2)) (omega (arith, bn.1, fit.4.2))
          (omega arith, (λ z. absurd (omega arith)), fit.4.3.2, fit.4.3.3, fit.4.3.4) bn.0 in
      let h : black_height l + 0 + 1 ≡ black_height (fork black ul un ur) =
        omega (arith, fit.4.2) in
      via (recolor-SameData q un g t) (recolor-Kept d e t q g un s far ul ur k)
        (inorder-plug k (bend (opposite e) red (fork black ul un ur) g near)
          (bend e black (bend d red s q far) g (fork red ul un ur))
          (inorder-recolor d e s far ul q g un ul ur))
        eq
        (repairs_bend (opposite e) f (recolor q un g t) (ih (recolor q un g t)) pp g k
          (fork black ul un ur) near m v bg.0 (subst (Fits k) h fit.4.4))
