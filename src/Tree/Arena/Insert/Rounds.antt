-- ===== src/Tree/Arena/Insert/Rounds.antt =====
-- crates/clob-book/src/tree/insert.rs: the cases of a black uncle in the loop of `insert_fixup`.
use clob_dex.Prelude.{ℕ, suc, ◌+◌, ◌≡◌, ◌≢◌, refl, sym, ap, subst, ◌∙◌, arith, Option}
use clob_dex.Tree.{Handle, nil}
use clob_dex.Tree.Arena.{
  Direction, leftward, rightward, opposite, RedBlackTree, child, parent_of, color_of, rotate, red,
  black,
}
use clob_dex.Tree.Arena.Insert.{straighten, lift, fixup_round, insert_fixup}
use clob_dex.Tree.Arena.Insert.Rebalance.{
  straighten_straight, straighten_turned, parent_of_lem, lift-Focus, lift-SameData, zigzag,
  lift-Kept, zigzag-Kept,
}
use clob_dex.Tree.Arena.Insert.Fixup.{Rebalanced, stop, round_lift}
use clob_dex.Tree.Arena.Shape.{
  Shape, leaf, fork, Context, down, bend, plug, inorder, Links, Links-occurs, Links-bend, Kept,
}
use clob_dex.Tree.Arena.Balanced.{
  root_color, black_height, Balanced, Fits, Balanced-plug, Balanced-bend, Balanced-parts,
  height-bend, inorder-plug,
}
use clob_dex.Tree.Arena.Focus.{Focus}
use clob_dex.Tree.Arena.Zoom.{zoom_in, bend-opposite}
use clob_dex.Tree.Arena.Turn.{inorder-turn}
use clob_dex.Tree.Arena.Sound.{count, occurs-inorder}
use clob_dex.Tree.Arena.Data.{SameData, same_trans, same_refl, rotate-SameData}

add_zero : (n : ℕ) → n + 0 ≡ n
add_zero n = omega arith

inorder-lift :
    (e : Direction) (s far uncle : Shape) (q g : Handle)
    → inorder (bend (opposite e) black (bend (opposite e) red uncle g far) q s)
      ≡ inorder (bend e black (bend e red s q far) g uncle)
inorder-lift leftward s far uncle q g = inorder-turn rightward g q red black uncle far s
inorder-lift rightward s far uncle q g = inorder-turn leftward g q red black uncle far s

inorder-zigzag :
    (e : Direction) (near rest far s : Shape) (q z : Handle)
    → bend e red near z rest ≡ s
    → inorder (bend e red (bend e red far q near) z rest) ≡ inorder (bend (opposite e) red s q far)
inorder-zigzag leftward near rest far s q z e =
    inorder-turn leftward q z red red far near rest ∙ ap (λ m. inorder (fork red far q m)) e
inorder-zigzag rightward near rest far s q z e =
    inorder-turn rightward q z red red far near rest ∙ ap (λ m. inorder (fork red m q far)) e

module _ {K V : Type 0} where
  -- A rebalance that goes on from another arena with the same order of handles.
  pub via :
      {t u : RedBlackTree K V} {s m : Shape} {a b : Option (RedBlackTree K V)}
      → SameData t u
      → Kept t u s
      → inorder m ≡ inorder s
      → a ≡ b
      → Rebalanced u m b
      → Rebalanced t s a
  via {s} {m} d y i e r = record {
    tree = r.tree;
    shape = r.shape;
    returned = e ∙ r.returned;
    links = r.links;
    order = r.order ∙ i;
    balanced = r.balanced;
    root_black = r.root_black;
    same = same_trans d r.same;
    kept = λ j o n.
        r.kept j (occurs-inorder j m ∙ ap (count j) i ∙ sym (occurs-inorder j s) ∙ o) n ∙ y j o n;
  }

  pub go_on :
      (f : ℕ) (t u : RedBlackTree K V) (z y : Handle)
      → color_of t (parent_of t z) ≡ red
      → fixup_round t z ≡ (y, u)
      → insert_fixup (suc f) t z ≡ insert_fixup f u y
  unfolding insert_fixup
  go_on f t u z y c r = rw (c, insert_fixup) (ap (λ m. insert_fixup f m.1 m.0) r)

  pub root_same :
      (t u : RedBlackTree K V) (p q h j : Handle) (s : Shape)
      → Links t p h s
      → Links u q j s
      → h ≡ j
  root_same t u p q h j leaf a b = a ∙ sym b
  root_same t u p q h j (fork c l x r) a b = a.0 ∙ sym b.0

  pub parent_color :
      (t : RedBlackTree K V) (d : Direction) (p z q : Handle) (c : ℕ) (far s : Shape) (k : Context)
      → Focus t p z (down d q c far k) s
      → z ≢ nil
      → color_of t (parent_of t z) ≡ c
  parent_color t d p z q c far s k f n =
      ap (color_of t) (parent_of_lem t p z s f.links n ∙ f.around.0) ∙ ground (arith, f.around)

  lifted :
      (f : ℕ) (e : Direction) (t : RedBlackTree K V) (p z q g : Handle) (s far uncle : Shape)
      (k : Context)
      → Focus t p z (down e q red far (down e g black uncle k)) s
      → z ≢ nil
      → Balanced s
      → root_color s ≡ red
      → root_color uncle ≡ black
      → Fits (down e q red far (down e g black uncle k)) (black_height s)
      → Rebalanced t
          (plug (down e q red far (down e g black uncle k)) s)
          (insert_fixup (suc f) (lift e z t) z)
  lifted f e t p z q g s far uncle k w n b r ub fit =
      let (pp, v) = lift-Focus e t p z q g s far uncle k w n in
      let u = lift e z t in
      let near = bend (opposite e) red uncle g far in
      let v1 =
        zoom_in u e pp q q black near s k
          (subst (Focus u pp q k) (bend-opposite e black near q s) v) in
      let at : child e (u.nodes q) ≡ z =
        root_same u t q p (child e (u.nodes q)) z s v1.links w.links in
      let v2 : Focus u q z (down e q black near k) s =
        subst (λ j. Focus u q j (down e q black near k) s) at v1 in
      let bn =
        Balanced-bend (opposite e) red g uncle far (omega arith) (λ _. (ub, (fit.1 refl).0))
          (omega (arith, fit)) fit.4.3 fit.3 in
      let h : black_height near ≡ black_height s = bn.1 ∙ omega (arith, fit) in
      let m : black_height s + 0 + 1 ≡ black_height s + 1 = omega arith in
      let bp =
        Balanced-plug (down e q black near k) s b
          (omega arith, (λ z. absurd (omega arith)), h, bn.0, subst (Fits k) m fit.4.4) (λ _. refl)
          (rw r (omega arith)) in
      via (lift-SameData e z t) (lift-Kept e t p z q g s far uncle k w n)
        (inorder-plug k (bend e black s q near) (bend e black (bend e red s q far) g uncle)
          (ap inorder (sym (bend-opposite e black near q s)) ∙ inorder-lift e s far uncle q g))
        refl
        (stop f u q z (down e q black near k) s v2 (parent_color u e q z q black near s k v2 n)
          bp.0)

  straight :
      (f : ℕ) (e : Direction) (t : RedBlackTree K V) (p z q g : Handle) (s far uncle : Shape)
      (k : Context)
      → Focus t p z (down e q red far (down e g black uncle k)) s
      → z ≢ nil
      → Balanced s
      → root_color s ≡ red
      → root_color uncle ≡ black
      → Fits (down e q red far (down e g black uncle k)) (black_height s)
      → Rebalanced t
          (plug (down e q red far (down e g black uncle k)) s)
          (insert_fixup (suc (suc f)) t z)
  straight f e t p z q g s far uncle k w n b r ub fit =
      let o = Links-occurs t p z s w.links n in
      let sp : straighten e z q t ≡ (z, t) =
        subst (λ m. straighten e z m t ≡ (z, t)) w.around.0
          (straighten_straight t e p z q red far s (down e g black uncle k) w o) in
      let eq =
        go_on (suc f) t (lift e z t) z z
          (parent_color t e p z q red far s (down e g black uncle k) w n)
          (round_lift t e e p z q g black s far uncle k w n ub
            ∙ ap (λ m. (m.0, lift e m.0 m.1)) sp) in
      via (same_refl t) (λ j o n. refl) refl eq (lifted f e t p z q g s far uncle k w n b r ub fit)

  turned :
      (f : ℕ) (e : Direction) (t : RedBlackTree K V) (p z q g : Handle) (l r far uncle : Shape)
      (k : Context)
      → Focus t p z (down (opposite e) q red far (down e g black uncle k)) (fork red l z r)
      → Balanced (fork red l z r)
      → root_color uncle ≡ black
      → Fits (down (opposite e) q red far (down e g black uncle k)) (black_height l)
      → Rebalanced t
          (plug (down (opposite e) q red far (down e g black uncle k)) (fork red l z r))
          (insert_fixup (suc (suc f)) t z)
  turned f e t p z q g l r far uncle k w b ub fit =
      let n : z ≢ nil = omega (arith, w.links.1) in
      let sp : straighten e z q t ≡ (q, rotate e q t) =
        subst (λ m. straighten e z m t ≡ (q, rotate e q t)) w.around.0
          (straighten_turned t e p z q red far (fork red l z r) (down e g black uncle k) w) in
      let eq =
        go_on (suc f) t (lift e q (rotate e q t)) z q
          (parent_color t (opposite e) p z q red far (fork red l z r) (down e g black uncle k) w n)
          (round_lift t (opposite e) e p z q g black (fork red l z r) far uncle k w n ub
            ∙ ap (λ m. (m.0, lift e m.0 m.1)) sp) in
      let (near, rest, v, same) = zigzag e t p z q l r far (down e g black uncle k) w in
      let at =
        (Links-bend (rotate e q t) e z (child e ((rotate e q t).nodes z)) q red far near
          v.links).0 in
      let v2 : Focus (rotate e q t) z q (down e z red rest (down e g black uncle k))
          (bend e red far q near) =
        subst
          (λ j.
            Focus (rotate e q t) z j (down e z red rest (down e g black uncle k))
              (bend e red far q near))
          at v in
      let ps = Balanced-parts e red z near rest (subst Balanced (sym same) b) in
      let hn : black_height near ≡ black_height l =
        omega (arith, ap black_height same, height-bend e red z near rest (sym ps.1)) in
      let bs =
        Balanced-bend e red q far near (omega arith) (λ _. ((fit.1 refl).0, (ps.0 refl).0))
          (fit.2 ∙ sym hn) fit.3 ps.2 in
      let hs : black_height (bend e red far q near) ≡ black_height l =
        bs.1 ∙ omega (arith, fit.2) in
      let m : black_height l + 0 + 1 ≡ black_height (bend e red far q near) + 0 + 1 = omega arith in
      via (rotate-SameData e q t) (zigzag-Kept e t p z q l r far (down e g black uncle k) w)
        (inorder-plug (down e g black uncle k) (bend e red (bend e red far q near) z rest)
          (bend (opposite e) red (fork red l z r) q far)
          (inorder-zigzag e near rest far (fork red l z r) q z same))
        eq
        (lifted f e (rotate e q t) z q z g (bend e red far q near) rest uncle k v2
          (omega (arith, w.around.1)) bs.0 bs.2 ub
          (
            omega arith,
            (λ _. ((ps.0 refl).1, refl)),
            sym ps.1 ∙ hn ∙ sym hs,
            ps.3,
            (
              omega arith,
              (λ z. absurd (omega arith)),
              omega (arith, fit),
              fit.4.3,
              subst (Fits k) m fit.4.4,
            ),
          ))

  -- Cases 2 and 3.
  pub black_uncle :
      (f : ℕ) (d e : Direction) (t : RedBlackTree K V) (p z q g : Handle) (l r far uncle : Shape)
      (k : Context)
      → Focus t p z (down d q red far (down e g black uncle k)) (fork red l z r)
      → Balanced (fork red l z r)
      → root_color uncle ≡ black
      → Fits (down d q red far (down e g black uncle k)) (black_height l)
      → Rebalanced t
          (plug (down d q red far (down e g black uncle k)) (fork red l z r))
          (insert_fixup (suc (suc f)) t z)
  black_uncle f leftward leftward t p z q g l r far uncle k w b ub fit =
      straight f leftward t p z q g (fork red l z r) far uncle k w (omega (arith, w.links.1)) b refl
        ub
        (subst (Fits (down leftward q red far (down leftward g black uncle k)))
          (sym (add_zero (black_height l))) fit)
  black_uncle f rightward leftward t p z q g l r far uncle k w b ub fit =
      turned f leftward t p z q g l r far uncle k w b ub fit
  black_uncle f leftward rightward t p z q g l r far uncle k w b ub fit =
      turned f rightward t p z q g l r far uncle k w b ub fit
  black_uncle f rightward rightward t p z q g l r far uncle k w b ub fit =
      straight f rightward t p z q g (fork red l z r) far uncle k w (omega (arith, w.links.1)) b
        refl ub
        (subst (Fits (down rightward q red far (down rightward g black uncle k)))
          (sym (add_zero (black_height l))) fit)
