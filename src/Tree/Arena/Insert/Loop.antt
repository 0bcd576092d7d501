-- ===== src/Tree/Arena/Insert/Loop.antt =====
-- crates/clob-book/src/tree/insert.rs: the loop of `insert_fixup` from any focus.
use clob_dex.Prelude.{ℕ, zero, suc, ◌<◌, ◌≡◌, refl, sym, ap, subst, ◌∙◌, arith}
use clob_dex.Tree.{Handle}
use clob_dex.Tree.Arena.{RedBlackTree, Direction, color_of, red, black}
use clob_dex.Tree.Arena.Insert.{insert_fixup}
use clob_dex.Tree.Arena.Insert.Rebalance.{parent_of_lem}
use clob_dex.Tree.Arena.Insert.Fixup.{Rebalanced, stop}
use clob_dex.Tree.Arena.Insert.Rounds.{black_uncle, parent_color}
use clob_dex.Tree.Arena.Insert.Recolor.{Repairs, recolored}
use clob_dex.Tree.Arena.Shape.{Shape, leaf, fork, Context, top, down, plug, depth}
use clob_dex.Tree.Arena.Balanced.{black_height, Balanced, Fits, Balanced-plug}
use clob_dex.Tree.Arena.Focus.{Focus}

module _ {K V : Type 0} where
  under_black :
      (f : ℕ) (t : RedBlackTree K V) (d : Direction) (p z q : Handle) (c : ℕ) (far : Shape)
      (k : Context) (l r : Shape)
      → c ≡ black
      → Focus t p z (down d q c far k) (fork red l z r)
      → Balanced (fork red l z r)
      → Fits (down d q c far k) (black_height l)
      → Rebalanced t (plug (down d q c far k) (fork red l z r)) (insert_fixup (suc f) t z)
  under_black f t d p z q c far k l r e w b fit =
      let h : black_height l ≡ black_height (fork red l z r) = omega arith in
      stop f t p z (down d q c far k) (fork red l z r) w
        (parent_color t d p z q c far (fork red l z r) k w (omega (arith, w.links.1)) ∙ e)
        (Balanced-plug (down d q c far k) (fork red l z r) b (subst (Fits (down d q c far k)) h fit)
          (λ _. e) (omega arith)).0

  at_root :
      (f : ℕ) (t : RedBlackTree K V) (p z : Handle) (l r : Shape)
      → Focus t p z top (fork red l z r)
      → Balanced (fork red l z r)
      → Rebalanced t (fork red l z r) (insert_fixup (suc f) t z)
  at_root f t p z l r w b =
      stop f t p z top (fork red l z r) w
        (ap (color_of t)
          (parent_of_lem t p z (fork red l z r) w.links (omega (arith, w.links.1)) ∙ w.around.0))
        b

  under_red :
      (f : ℕ) (ih : (t : RedBlackTree K V) → Repairs t (suc f)) (t : RedBlackTree K V)
      (d e : Direction) (p z q g : Handle) (far uncle : Shape) (k : Context) (l r : Shape)
      → depth k < suc f
      → Focus t p z (down d q red far (down e g black uncle k)) (fork red l z r)
      → Balanced (fork red l z r)
      → Fits (down d q red far (down e g black uncle k)) (black_height l)
      → Rebalanced t
          (plug (down d q red far (down e g black uncle k)) (fork red l z r))
          (insert_fixup (suc (suc f)) t z)
  under_red f ih t d e p z q g far leaf k l r m w b fit =
      black_uncle f d e t p z q g l r far leaf k w b refl fit
  under_red f ih t d e p z q g far (fork zero ul un ur) k l r m w b fit =
      recolored (suc f) ih d e t p z q g un l r far ul ur k m w b fit
  under_red f ih t d e p z q g far (fork (suc c) ul un ur) k l r m w b fit =
      black_uncle f d e t p z q g l r far (fork (suc c) ul un ur) k w b (omega (arith, fit.4.3.0))
        fit

  -- Where a red node stands in a tree that is balanced but for the colour of the node's parent,
  -- the rebalance after an insertion ends within one round more than the depth of the node, and
  -- returns an arena that holds a balanced tree with a black root and the same handles in the same
  -- order, with no key, value or node outside the tree changed.
  pub repair : (f : ℕ) (t : RedBlackTree K V) → Repairs t f
  repair zero t p z k l r m w b fit = absurd (omega arith)
  repair (suc f) t p z top l r m w b fit = at_root f t p z l r w b
  repair (suc f) t p z (down d q (suc c) far k) l r m w b fit =
      under_black f t d p z q (suc c) far k l r (omega (arith, fit.0)) w b fit
  repair (suc f) t p z (down d q zero far top) l r m w b fit =
      absurd (omega (arith, (fit.1 refl).1))
  repair (suc zero) t p z (down d q zero far (down e g c uncle k)) l r m w b fit =
      absurd (omega arith)
  repair (suc (suc f)) t p z (down d q zero far (down e g c uncle k)) l r m w b fit =
      subst
        (λ n.
          Focus t p z (down d q zero far (down e g n uncle k)) (fork red l z r)
          → Fits (down d q red far (down e g n uncle k)) (black_height l)
          → Rebalanced t (plug (down d q zero far (down e g n uncle k)) (fork red l z r))
              (insert_fixup (suc (suc f)) t z))
        (sym (fit.1 refl).1)
        (λ w' fit'.
          under_red f (λ u. repair (suc f) u) t d e p z q g far uncle k l r (omega arith) w' b fit')
        w fit
