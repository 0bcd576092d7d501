-- ===== src/Tree/Arena/Remove/Taken.antt =====
-- crates/clob-book/src/tree/remove.rs: `splice` takes a node out, whatever children it has.
use clob_dex.Prelude.{ℕ, ◌≤◌, ◌≡◌, ◌≢◌, inl, inr, refl, sym, subst, ◌∙◌, ◌==◌, arith, false}
use clob_dex.Tree.{Handle, nil}
use clob_dex.Tree.Arena.{leftward, rightward, RedBlackTree, black, min_from, min_loop}
use clob_dex.Tree.Arena.Remove.{splice, splice_one, splice_two}
use clob_dex.Tree.Arena.Remove.Leftmost.{Leftmost, descends, join}
use clob_dex.Tree.Arena.Remove.Splice.{Gap, no_left, no_right}
use clob_dex.Tree.Arena.Remove.Successor.{near-Gap}
use clob_dex.Tree.Arena.Remove.Far.{far-Gap}
use clob_dex.Tree.Arena.Shape.{Shape, leaf, fork, Context, top, down, plug, size, size-plug, Links}
use clob_dex.Tree.Arena.Balanced.{root_color, Balanced}
use clob_dex.Tree.Arena.Focus.{Focus, nil_cases}
use clob_dex.Tree.Arena.Zoom.{zoom_in}

module _ {K V : Type 0} where
  nothing_there :
      (t : RedBlackTree K V) (p h : Handle) (s : Shape) → Links t p h s → h ≡ nil → s ≡ leaf
  nothing_there t p h leaf l e = refl
  nothing_there t p h (fork c a x b) l e = absurd (omega (arith, l.0, l.1))

  splice-left :
      (z : Handle) (t : RedBlackTree K V)
      → (t.nodes z).left ≡ nil
      → splice z t ≡ splice_one z (t.nodes z).right t
  unfolding splice
  splice-left z t e = rw e refl

  splice-right :
      (z : Handle) (t : RedBlackTree K V)
      → (t.nodes z).left ≢ nil
      → (t.nodes z).right ≡ nil
      → splice z t ≡ splice_one z (t.nodes z).left t
  unfolding splice
  splice-right z t n e =
      let test : ((t.nodes z).left == nil) ≡ false = ground arith in rw (test, e) refl

  splice-both :
      (z : Handle) (t : RedBlackTree K V)
      → (t.nodes z).left ≢ nil
      → (t.nodes z).right ≢ nil
      → splice z t ≡ splice_two z (min_loop t.len t (t.nodes z).right) t
  unfolding splice min_from
  splice-both z t n m =
      let left_test : ((t.nodes z).left == nil) ≡ false = ground arith in
      let right_test : ((t.nodes z).right == nil) ≡ false = ground arith in
      rw (left_test, right_test) refl

  module _ (t : RedBlackTree K V) (p z : Handle) (k : Context) (cz : ℕ) (l r : Shape)
      (f : Focus t p z k (fork cz l z r)) (b : Balanced (plug k (fork cz l z r)))
      (rb : root_color (plug k (fork cz l z r)) ≡ black) where
    two-Gap :
        (ln : (t.nodes z).left ≢ nil) (h y py cy : ℕ) (i : Context) (ry : Shape)
        → Focus t py y (join i (down rightward z cz l k)) (fork cy leaf y ry)
        → plug i (fork cy leaf y ry) ≡ r
        → Leftmost i
        → Gap t z (plug k (fork cz l z r)) (splice_two z y t)
    two-Gap ln h y py cy top ry g same lm = near-Gap t p z k cz l r f b rb ln y py cy ry g same
    two-Gap ln h y py cy (down leftward q c far j) ry g same lm =
        far-Gap t p z k cz l r f b rb ln y py cy q c far j ry g same lm
    two-Gap ln h y py cy (down rightward q c far j) ry g same lm = absurd lm

    both-Gap :
        (s : Shape)
        → s ≡ r
        → size s ≤ t.len
        → (t.nodes z).left ≢ nil
        → (t.nodes z).right ≢ nil
        → Gap t z (plug k (fork cz l z r)) (splice_two z (min_loop t.len t (t.nodes z).right) t)
    both-Gap s e m ln rn =
        let w : Focus t z (t.nodes z).right (down rightward z cz l k) s =
          subst (λ n. Focus t z (t.nodes z).right (down rightward z cz l k) n) (sym e)
            (zoom_in t rightward p z z cz l r k f) in
        descended s e m w ln rn
      where
        descended :
            (s : Shape)
            → s ≡ r
            → size s ≤ t.len
            → Focus t z (t.nodes z).right (down rightward z cz l k) s
            → (t.nodes z).left ≢ nil
            → (t.nodes z).right ≢ nil
            → Gap t z (plug k (fork cz l z r)) (splice_two z (min_loop t.len t (t.nodes z).right) t)
        descended leaf e m w ln rn = absurd (rn w.links)
        descended (fork c a x d) e m w ln rn =
            let y = min_loop t.len t (t.nodes z).right in
            let g =
              descends t.len t z (t.nodes z).right top (down rightward z cz l k) c a x d m tt w in
            two-Gap ln 0 y g.parent g.color g.inner g.rest g.focus (g.same ∙ e) g.leftmost

    pub splice-Gap :
        size (plug k (fork cz l z r)) ≤ t.len → Gap t z (plug k (fork cz l z r)) (splice z t)
    splice-Gap m = elim (nil_cases (t.nodes z).left) [
      | inl e ↦
          subst (Gap t z (plug k (fork cz l z r))) (sym (splice-left z t e))
            (no_left t p z k cz l r f b rb (nothing_there t z (t.nodes z).left l f.links.4 e))
      | inr n ↦ elim (nil_cases (t.nodes z).right) [
        | inl e ↦
            subst (Gap t z (plug k (fork cz l z r))) (sym (splice-right z t n e))
              (no_right t p z k cz l r f b rb (nothing_there t z (t.nodes z).right r f.links.5 e))
        | inr o ↦
            subst (Gap t z (plug k (fork cz l z r))) (sym (splice-both z t n o))
              (both-Gap r refl (omega (arith, size-plug k (fork cz l z r))) n o)
      ]
    ]
