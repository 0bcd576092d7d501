-- ===== src/Tree/Arena/Zoom.antt =====
-- Moving the focus to a parent or a child, and changing the colour of the node in focus.
use clob_dex.Prelude.{ℕ, ◌≡◌, ◌≢◌, refl, sym, subst, arith}
use clob_dex.Tree.{Handle}
use clob_dex.Tree.Arena.{Direction, leftward, rightward, opposite, RedBlackTree, child, set_color}
use clob_dex.Tree.Arena.Shape.{
  Shape, fork, Context, down, bend, Links, Around, Links-bend, bend-Links, Links-frame,
  Around-frame,
}
use clob_dex.Tree.Arena.Focus.{occurs-bend, Focus}

pub bend-opposite :
    (d : Direction) (c : ℕ) (near : Shape) (q : Handle) (far : Shape)
    → bend (opposite d) c near q far ≡ bend d c far q near
bend-opposite leftward c near q far = refl
bend-opposite rightward c near q far = refl

module _ {K V : Type 0} where
  pub zoom_out :
      (t : RedBlackTree K V) (d : Direction) (p h q : Handle) (c : ℕ) (far near : Shape)
      (k : Context)
      → Focus t p h (down d q c far k) near
      → Focus t (t.nodes q).parent q k (bend d c near q far)
  zoom_out t d p h q c far near k f =
      let a = f.around in
      record {
        around = a.5;
        links = bend-Links t d (t.nodes q).parent q q c near far (
          refl,
          a.1,
          refl,
          a.2,
          subst (λ z. Links t q z near) (sym a.3) (subst (λ z. Links t z h near) a.0 f.links),
          a.4,
        );
        proper = λ j. omega (arith, f.proper j, occurs-bend d c near q far j);
      }

  pub zoom_in :
      (t : RedBlackTree K V) (d : Direction) (p h q : Handle) (c : ℕ) (far near : Shape)
      (k : Context)
      → Focus t p h k (bend d c near q far)
      → Focus t q (child d (t.nodes q)) (down d q c far k) near
  zoom_in t d p h q c far near k f =
      let l = Links-bend t d p h q c near far f.links in
      record {
        around = (
          refl,
          l.1,
          l.3,
          refl,
          l.5,
          subst (λ z. Around t z q k) (sym l.2) (subst (λ z. Around t p z k) l.0 f.around),
        );
        links = l.4;
        proper = λ j. omega (arith, f.proper j, occurs-bend d c near q far j);
      }

  pub paint :
      (t : RedBlackTree K V) (p h x : Handle) (c n : ℕ) (l r : Shape) (k : Context)
      → Focus t p h k (fork c l x r)
      → Focus (set_color x n t) p h k (fork n l x r)
  paint t p h x c n l r k f =
      let u = set_color x n t in
      let a = f.links in
      let off : (j : ℕ) → x ≢ j → u.nodes j ≡ t.nodes j = λ j e. ground arith in
      let at : u.nodes x ≡ record (t.nodes x) { color = n } = ground arith in
      record {
        around =
            Around-frame t u p h k (ground arith) (λ j i. off j (λ e. ground (arith, f.proper j)))
              f.around;
        links = rw at (
          a.0,
          a.1,
          a.2,
          refl,
          Links-frame t u x (t.nodes x).left l (λ j i. off j (λ e. ground (arith, f.proper j))) a.4,
          Links-frame t u x (t.nodes x).right r (λ j i. off j (λ e. ground (arith, f.proper j)))
              a.5,
        );
        proper = λ j. f.proper j;
      }
