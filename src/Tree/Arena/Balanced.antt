-- ===== src/Tree/Arena/Balanced.antt =====
-- The balance of a red-black tree: no red node has a red child, and every path to a leaf passes as
-- many black nodes.
use clob_dex.Prelude.{ℕ, ◌+◌, ◌≤◌, ◌≡◌, refl, sym, subst, ◌∙◌, ◌==◌, if◌then◌else◌, arith}
use clob_dex.Tree.Arena.{Direction, leftward, rightward, red, black}
use clob_dex.Tree.Arena.Shape.{Shape, leaf, fork, Context, top, down, bend, plug, inorder}

abbrev pub root_color : Shape → ℕ
root_color leaf = black
root_color (fork c l x r) = c

-- As `check_black_height` counts: 1 at a leaf.
abbrev pub black_height : Shape → ℕ
black_height leaf = 1
black_height (fork c l x r) = black_height l + (if c == black then 1 else 0)

abbrev pub Balanced : Shape → Type 0
Balanced leaf = Unit
Balanced (fork c l x r) =
    (c ≤ black)
    × (c ≡ red → (root_color l ≡ black) × (root_color r ≡ black))
    × (black_height l ≡ black_height r)
    × Balanced l
    × Balanced r

-- The colour above the hole. The root is to be black, so a red stands above it.
abbrev pub color_above : Context → ℕ
color_above top = red
color_above (down d q c far k) = c

-- The context around a hole whose black height is `n` is balanced.
abbrev pub Fits : Context → ℕ → Type 0
Fits top n = Unit
Fits (down d q c far k) n =
    (c ≤ black)
    × (c ≡ red → (root_color far ≡ black) × (color_above k ≡ black))
    × (black_height far ≡ n)
    × Balanced far
    × Fits k (n + (if c == black then 1 else 0))

pub Balanced-bend :
    (d : Direction) (c q : ℕ) (near far : Shape)
    → (c ≤ black)
    → (c ≡ red → (root_color near ≡ black) × (root_color far ≡ black))
    → (black_height near ≡ black_height far)
    → Balanced near
    → Balanced far
    → Balanced (bend d c near q far)
      × (black_height (bend d c near q far) ≡ black_height near + (if c == black then 1 else 0))
      × (root_color (bend d c near q far) ≡ c)
Balanced-bend leftward c q near far b f h n m = ((b, f, h, n, m), refl, refl)
Balanced-bend rightward c q near far b f h n m =
    ((b, λ e. ((f e).1, (f e).0), ground arith, m, n), ground arith, refl)

-- The parts of a balanced tree, in either direction.
pub Balanced-parts :
    (d : Direction) (c q : ℕ) (near far : Shape)
    → Balanced (bend d c near q far)
    → (c ≡ red → (root_color near ≡ black) × (root_color far ≡ black))
      × (black_height near ≡ black_height far)
      × Balanced near
      × Balanced far
Balanced-parts leftward c q near far b = (b.1, b.2, b.3, b.4)
Balanced-parts rightward c q near far b = (λ e. ((b.1 e).1, (b.1 e).0), sym b.2, b.4, b.3)

pub height-bend :
    (d : Direction) (c q : ℕ) (near far : Shape)
    → black_height far ≡ black_height near
    → black_height (bend d c near q far) ≡ black_height near + (if c == black then 1 else 0)
height-bend leftward c q near far h = refl
height-bend rightward c q near far h = ground arith

pub Balanced-plug :
    (k : Context) (s : Shape)
    → Balanced s
    → Fits k (black_height s)
    → (root_color s ≡ red → color_above k ≡ black)
    → root_color s ≤ black
    → Balanced (plug k s) × (root_color (plug k s) ≡ black)
Balanced-plug top s b f r m = (b, ground arith)
Balanced-plug (down d q c far k) s b f r m =
    let w =
      Balanced-bend d c q s far f.0 (λ e. (ground (arith, r, m), (f.1 e).0)) (ground arith) b f.3 in
    let painted : root_color (bend d c s q far) ≡ c = w.2 in
    Balanced-plug k (bend d c s q far) w.0 (rw w.1 f.4) (λ e. (f.1 (sym painted ∙ e)).1)
      (rw painted f.0)

color_le : (d : Direction) (c q : ℕ) (near far : Shape) → Balanced (bend d c near q far) → c ≤ black
color_le leftward c q near far b = b.0
color_le rightward c q near far b = b.0

-- A balanced tree is balanced at each of its nodes.
pub unplug :
    (k : Context) (s : Shape)
    → Balanced (plug k s)
    → root_color (plug k s) ≡ black
    → Balanced s × Fits k (black_height s) × (root_color s ≡ red → color_above k ≡ black)
unplug top s b r = (b, tt, λ e. absurd (omega (arith, e, r)))
unplug (down d q c far k) s b r =
    let u = unplug k (bend d c s q far) b r in
    let ps = Balanced-parts d c q s far u.0 in
    let w = Balanced-bend d c q s far (color_le d c q s far u.0) ps.0 ps.1 ps.2 ps.3 in
    let m : c ≤ black = color_le d c q s far u.0 in
    (
      ps.2,
      (m, (λ e. ((ps.0 e).1, u.2 (w.2 ∙ e))), sym ps.1, ps.3, subst (Fits k) w.1 u.1),
      λ e. color_not_red d c q s far m (λ z. (ps.0 z).0) e,
    )
  where
    color_not_red :
        (d : Direction) (c q : ℕ) (s far : Shape)
        → c ≤ black
        → (c ≡ red → root_color s ≡ black)
        → root_color s ≡ red
        → c ≡ black
    color_not_red d c q s far m f e = ground (arith, f, m, e)

pub inorder-plug :
    (k : Context) (s u : Shape) → inorder s ≡ inorder u → inorder (plug k s) ≡ inorder (plug k u)
inorder-plug top s u e = e
inorder-plug (down leftward q c far k) s u e =
    inorder-plug k (fork c s q far) (fork c u q far) (rw e)
inorder-plug (down rightward q c far k) s u e =
    inorder-plug k (fork c far q s) (fork c far q u) (rw e)
