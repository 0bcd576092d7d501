-- ===== src/Tree/Arena/Remove/Balance.antt =====
-- crates/clob-book/src/tree/remove.rs: colours, heights and order where one side is a black short.
use clob_dex.Prelude.{
  ℕ, zero, suc, ◌+◌, ◌≤◌, ◌≡◌, ◌⊎◌, inl, inr, refl, sym, ap, subst, ◌∙◌, ◌==◌, if◌then◌else◌, ◌&&◌,
  arith, false, ◌++◌, ◌∷◌, Bool-cases,
}
use clob_dex.Tree.{Handle}
use clob_dex.Tree.Arena.{Direction, leftward, rightward, red, black}
use clob_dex.Tree.Arena.Shape.{Shape, leaf, fork, Context, bend, plug, inorder}
use clob_dex.Tree.Arena.Balanced.{
  root_color, black_height, Balanced, Balanced-bend, Balanced-parts, height-bend, Fits, color_above,
  Balanced-plug,
}
use clob_dex.Tree.Arena.Turn.{inorder-turn}

-- Any tree but a leaf is a bend, either way.
pub unbend :
    (d : Direction) (s : Shape)
    → (s ≡ leaf)
      ⊎ ((c : ℕ) × (near : Shape) × (x : Handle) × (far : Shape) × (s ≡ bend d c near x far))
unbend d leaf = inl refl
unbend leftward (fork c l x r) = inr (c, l, x, r, refl)
unbend rightward (fork c l x r) = inr (c, r, x, l, refl)

-- The balance around a node `q` whose near side is one short, over a black sibling.
pub record Short (c : ℕ) (s near other : Shape) (k : Context) : Type 0 where
  pub color : c ≤ black
  pub short : Balanced s
  pub short_black : root_color s ≡ black
  pub near_balanced : Balanced near
  pub other_balanced : Balanced other
  pub near_height : black_height near ≡ black_height s
  pub other_height : black_height other ≡ black_height s
  pub fits : Fits k (black_height s + 1 + (if c == black then 1 else 0))
  pub above : c ≡ red → color_above k ≡ black

pub not_both-far : (a b : ℕ) → b ≡ red → (a == black && b == black) ≡ false
not_both-far a b e = elim (Bool-cases (a == black)) [ inl h ↦ rw (h, e) | inr h ↦ rw h ]

pub not_both-near : (a b : ℕ) → a ≡ red → (a == black && b == black) ≡ false
not_both-near a b e = rw e

-- The tree after case 4 is balanced.
pub absorbed :
    (d : Direction) (q w y c : ℕ) (s near a b : Shape) (k : Context)
    → Short c s near (bend d red a y b) k
    → Balanced (plug k (bend d c (bend d black s q near) w (bend d black a y b)))
absorbed d q w y c s near a b k m =
    let ps = Balanced-parts d red y a b m.other_balanced in
    let hb = height-bend d red y a b (sym ps.1) in
    let left =
      Balanced-bend d black q s near (omega arith) (λ z. absurd (omega (arith, z)))
        (sym m.near_height) m.short m.near_balanced in
    let right =
      Balanced-bend d black y a b (omega arith) (λ z. absurd (omega (arith, z))) ps.1 ps.2 ps.3 in
    let hr : black_height (bend d black s q near) ≡ black_height (bend d black a y b) =
      omega (arith, left.1, right.1, hb, m.other_height) in
    let all =
      Balanced-bend d c w (bend d black s q near) (bend d black a y b) m.color
        (λ z. (left.2, right.2)) hr left.0 right.0 in
    let same : root_color (bend d c (bend d black s q near) w (bend d black a y b)) ≡ c = all.2 in
    let h : black_height s + 1 + (if c == black then 1 else 0)
        ≡ black_height (bend d c (bend d black s q near) w (bend d black a y b)) =
      omega (arith, left.1, all.1) in
    (Balanced-plug k (bend d c (bend d black s q near) w (bend d black a y b)) all.0
      (subst (Fits k) h m.fits) (λ z. m.above (sym same ∙ z)) (rw same m.color)).0

pub inorder-sibling :
    (d : Direction) (c e n : ℕ) (s : Shape) (q : Handle) (near : Shape) (w : Handle) (other : Shape)
    → inorder (bend d c s q (bend d e near w other))
      ≡ inorder (bend d c s q (bend d n near w other))
inorder-sibling leftward c e n s q near w other = refl
inorder-sibling rightward c e n s q near w other = refl

-- A balanced tree has a black root, or is a bend with a red one.
pub colored :
    (d : Direction) (s : Shape)
    → Balanced s
    → (root_color s ≡ black)
      ⊎ ((near : Shape) × (x : Handle) × (far : Shape) × (s ≡ bend d red near x far))
colored d leaf b = inl refl
colored d (fork (suc c) l x r) b = inl (omega (arith, b.0))
colored leftward (fork zero l x r) b = inr (l, x, r, refl)
colored rightward (fork zero l x r) b = inr (r, x, l, refl)

pub inorder-inward :
    (d : Direction) (c : ℕ) (s : Shape) (q : Handle) (a : Shape) (x : Handle) (b : Shape)
    (w : Handle) (other : Shape)
    → inorder (bend d c s q (bend d black a x (bend d red b w other)))
      ≡ inorder (bend d c s q (bend d black (bend d red a x b) w other))
inorder-inward leftward c s q a x b w other =
    ap (λ m. inorder s ++ q ∷ m) (sym (inorder-turn leftward x w red black a b other) ∙ refl)
inorder-inward rightward c s q a x b w other =
    ap (λ m. m ++ q ∷ inorder s) (sym (inorder-turn rightward x w red black a b other) ∙ refl)
