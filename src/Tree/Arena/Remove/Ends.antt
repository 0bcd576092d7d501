-- ===== src/Tree/Arena/Remove/Ends.antt =====
-- crates/clob-book/src/tree/remove.rs: how the loop of `delete_fixup` ends.
use clob_dex.Prelude.{
  ℕ, suc, ◌+◌, ◌≤◌, ◌≡◌, ◌≢◌, ◌⊎◌, inl, inr, refl, sym, ap, subst, ◌∙◌, ◌==◌, if◌then◌else◌, arith,
  Bool, true, false, Option, some,
}
use clob_dex.Tree.{Handle, nil}
use clob_dex.Tree.Arena.{RedBlackTree, color_of, set_color, red, black}
use clob_dex.Tree.Arena.Remove.{delete_fixup, delete_round}
use clob_dex.Tree.Arena.Insert.Fixup.{Rebalanced, color_of_lem, blacken, blacken_lem, whole}
use clob_dex.Tree.Arena.Shape.{
  Shape, leaf, fork, Context, top, plug, inorder, occurs, occurs-plug, plug-Links, Links-occurs,
}
use clob_dex.Tree.Arena.Balanced.{
  root_color, black_height, Balanced, Fits, Balanced-plug, inorder-plug,
}
use clob_dex.Tree.Arena.Focus.{Focus, nil_cases}
use clob_dex.Tree.Arena.Zoom.{paint}
use clob_dex.Tree.Arena.Data.{set_color-SameData, set_color-other}

pub inorder-blacken : (s : Shape) → inorder (blacken s) ≡ inorder s
inorder-blacken leaf = refl
inorder-blacken (fork c l x r) = refl

pub root_color-blacken : (s : Shape) → root_color (blacken s) ≡ black
root_color-blacken leaf = refl
root_color-blacken (fork c l x r) = refl

pub blacken-black : (s : Shape) → root_color s ≡ black → blacken s ≡ s
blacken-black leaf e = refl
blacken-black (fork c l x r) e = ap (λ n. fork n l x r) (sym e)

module _ {K V : Type 0} where
  paint_focus :
      (t : RedBlackTree K V) (p x : Handle) (k : Context) (s : Shape)
      → Focus t p x k s
      → Focus (set_color x black t) p x k (blacken s)
  paint_focus t p x k leaf f = subst (λ u. Focus u p x k leaf) (sym (no_color t x black f.links)) f
    where
      no_color : (t : RedBlackTree K V) (x c : Handle) → x ≡ nil → set_color x c t ≡ t
      no_color t x c e = rw e
  paint_focus t p x k (fork c l y r) f =
      subst (λ z. Focus (set_color z black t) p x k (fork black l y r)) (sym f.links.0)
        (paint t p x y c black l r k f)

  -- The loop stops, and `x` is painted black.
  pub painted :
      (t : RedBlackTree K V) (p x : Handle) (k : Context) (s : Shape)
      (o : Option (RedBlackTree K V))
      → o ≡ some (set_color x black t)
      → Focus t p x k s
      → Balanced (blacken s)
      → Fits k (black_height (blacken s))
      → Rebalanced t (plug k s) o
  painted t p x k s o e f b fit =
      let v = paint_focus t p x k s f in
      let bp =
        Balanced-plug k (blacken s) b fit (λ z. absurd (omega (arith, z, root_color-blacken s)))
          (omega (arith, root_color-blacken s)) in
      let here : (x ≡ nil) ⊎ (1 ≤ occurs x s) = elim (nil_cases x) [
        | inl n ↦ inl n
        | inr n ↦ inr (Links-occurs t p x s f.links n)
      ] in
      record {
        tree = set_color x black t;
        shape = plug k (blacken s);
        returned = e;
        links = plug-Links (set_color x black t) k p x (blacken s) v.around v.links;
        order = inorder-plug k (blacken s) s (inorder-blacken s);
        balanced = bp.0;
        root_black = bp.1;
        same = set_color-SameData x black t;
        kept = λ j z n.
            set_color-other x black j t (λ q. ground (arith, here, occurs-plug k s j, z, n, q));
      }

  delete_fixup-root :
      (f : ℕ) (t : RedBlackTree K V) (x p : Handle)
      → x ≡ t.root
      → delete_fixup (suc f) t x p ≡ some (set_color x black t)
  unfolding delete_fixup
  delete_fixup-root f t x p e =
      let test : (x == t.root) ≡ true = ground arith in rw (test, delete_fixup)

  delete_fixup-red :
      (f : ℕ) (t : RedBlackTree K V) (x p : Handle)
      → color_of t x ≡ red
      → delete_fixup (suc f) t x p ≡ some (set_color x black t)
  unfolding delete_fixup
  delete_fixup-red f t x p e = split (x == t.root) refl
    where
      split :
          (b : Bool) → (x == t.root) ≡ b → delete_fixup (suc f) t x p ≡ some (set_color x black t)
      split true q = rw (q, delete_fixup)
      split false q = rw (q, delete_fixup) (rw e)

  pub at_top :
      (f : ℕ) (t : RedBlackTree K V) (p x : Handle) (s : Shape)
      → Focus t p x top s
      → Balanced (blacken s)
      → Rebalanced t s (delete_fixup (suc f) t x p)
  at_top f t p x s w b =
      painted t p x top s (delete_fixup (suc f) t x p) (delete_fixup-root f t x p (sym w.around.1))
        w b tt

  pub at_red :
      (f : ℕ) (t : RedBlackTree K V) (p x : Handle) (k : Context) (s : Shape)
      → Focus t p x k s
      → root_color s ≡ red
      → Balanced (blacken s)
      → Fits k (black_height s + 1)
      → Rebalanced t (plug k s) (delete_fixup (suc f) t x p)
  at_red f t p x k leaf w r b fit = absurd (omega (arith, r))
  at_red f t p x k (fork c l y m) w r b fit =
      let h : black_height l + (if c == black then 1 else 0) + 1 ≡ black_height l + 1 =
        ground arith in
      painted t p x k (fork c l y m) (delete_fixup (suc f) t x p)
        (delete_fixup-red f t x p (color_of_lem t p x (fork c l y m) w.links ∙ r)) w b
        (subst (Fits k) h fit)

  -- After case 4 the loop goes on from the root, and stops there.
  pub from_root :
      (f : ℕ) (t : RedBlackTree K V) (p h : Handle) (k : Context) (s : Shape)
      → Focus t p h k s
      → Balanced (plug k s)
      → Rebalanced t (plug k s) (delete_fixup (suc f) t t.root nil)
  from_root f t p h k s w b =
      at_top f t nil t.root (plug k s) (whole t p h k s w) (blacken_lem (plug k s) b).0

  pub go_on :
      (f : ℕ) (t u : RedBlackTree K V) (x p y q : Handle)
      → x ≢ t.root
      → color_of t x ≡ black
      → p ≢ nil
      → delete_round t x p ≡ (y, q, u)
      → delete_fixup (suc f) t x p ≡ delete_fixup f u y q
  unfolding delete_fixup
  go_on f t u x p y q r c n e =
      let r' : (x == t.root) ≡ false = ground arith in
      let n' : (p == nil) ≡ false = ground arith in
      rw (r', delete_fixup) (rw c (rw n' (ap (λ m. delete_fixup f m.2 m.0 m.1) e)))
