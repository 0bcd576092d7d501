-- ===== src/Tree/Arena/Remove/Mended.antt =====
-- crates/clob-book/src/tree/remove.rs: the arena after the splice and the rebalance.
use clob_dex.Prelude.{
  ◌+◌, ◌≤◌, ◌<◌, ◌≡◌, inl, inr, refl, sym, ap, subst, ◌∙◌, ◌==◌, if◌then◌else◌, ◌∷◌, length,
  length-append, Option, some, arith,
}
use clob_dex.Tree.{Handle}
use clob_dex.Tree.Arena.{RedBlackTree, black}
use clob_dex.Tree.Arena.Remove.{Spliced, delete_fixup}
use clob_dex.Tree.Arena.Remove.Splice.{Gap}
use clob_dex.Tree.Arena.Remove.Loop.{mend}
use clob_dex.Tree.Arena.Insert.Fixup.{Rebalanced, blacken}
use clob_dex.Tree.Arena.Shape.{
  Shape, leaf, fork, plug, size, size-plug, depth, depth-le-size, plug-Links,
}
use clob_dex.Tree.Arena.Balanced.{root_color, Balanced, Balanced-plug, Fits, black_height}
use clob_dex.Tree.Arena.Focus.{nil_cases}
use clob_dex.Tree.Arena.Data.{same_refl}
use clob_dex.Tree.Arena.Sound.{size-inorder}

Balanced-blacken : (s : Shape) → Balanced s → Balanced (blacken s) × (root_color s ≤ black)
Balanced-blacken leaf b = (tt, omega arith)
Balanced-blacken (fork c l x r) b = ((omega arith, λ e. absurd (omega arith), b.2, b.3, b.4), b.0)

module _ {K V : Type 0} where
  -- What remains once the node is out, rebalanced where a black node went.
  abbrev pub mended : Spliced K V → Option (RedBlackTree K V)
  mended g =
      if g.color == black then delete_fixup g.arena.len g.arena g.moved g.above else some g.arena

  pub Gap-size :
      (t : RedBlackTree K V) (z : Handle) (s : Shape) (g : Spliced K V) (w : Gap t z s g)
      → size s ≡ size (plug w.around w.short) + 1
  Gap-size t z s g w = omega (
    arith,
    size-inorder s,
    ap length w.order_before,
    length-append w.low (z ∷ w.high),
    size-inorder (plug w.around w.short),
    ap length w.order,
    length-append w.low w.high,
  )

  deep :
      (t : RedBlackTree K V) (z : Handle) (s : Shape) (g : Spliced K V) (w : Gap t z s g)
      → size s ≤ t.len
      → depth w.around < g.arena.len
  deep t z s g w m = omega (
    arith,
    Gap-size t z s g w,
    size-plug w.around w.short,
    depth-le-size w.around,
    w.relinks.same.len,
  )

  pub gap-Rebalanced :
      (t : RedBlackTree K V) (z : Handle) (s : Shape) (g : Spliced K V) (w : Gap t z s g)
      → size s ≤ t.len
      → Rebalanced g.arena (plug w.around w.short) (mended g)
  gap-Rebalanced t z s g w m = elim (nil_cases g.color) [
    | inl is_red ↦
        let fits : Fits w.around (black_height w.short) =
          subst (Fits w.around)
            (ap (λ n. black_height w.short + (if n == black then 1 else 0)) is_red ∙ omega arith)
            w.fits in
        let dark = Balanced-blacken w.short w.balanced in
        let done =
          Balanced-plug w.around w.short w.balanced fits
            (λ e. absurd (omega (arith, w.roof is_red, e))) dark.1 in
        record {
          tree = g.arena;
          shape = plug w.around w.short;
          returned = rw is_red refl;
          links = plug-Links g.arena w.around g.above g.moved w.short w.focus.around w.focus.links;
          order = refl;
          balanced = done.0;
          root_black = done.1;
          same = same_refl g.arena;
          kept = λ j o n. refl;
        }
    | inr n ↦
        let painted : g.color ≡ black = omega (arith, w.color, n) in
        let dark = Balanced-blacken w.short w.balanced in
        subst (Rebalanced g.arena (plug w.around w.short)) (sym (rw painted refl)) (
          mend g.arena.len g.arena g.above g.moved w.around w.short (deep t z s g w m) w.focus
            dark.0 dark.1
            (subst (λ n. Fits w.around (black_height w.short + (if n == black then 1 else 0)))
              painted w.fits))
  ]
