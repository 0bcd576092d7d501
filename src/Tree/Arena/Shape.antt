-- ===== src/Tree/Arena/Shape.antt =====
-- The shape that the links of an arena make: binary trees of handles, the contexts of a node in one,
-- and how often a handle occurs.
use clob_dex.Prelude.{
  ℕ, suc, ◌+◌, ◌≤◌, ◌<◌, ◌≡◌, ◌≢◌, refl, subst, ◌∙◌, List, [], ◌∷◌, ◌++◌, ◌==◌, if◌then◌else◌,
  arith,
}
use clob_dex.Tree.{Handle, nil}
use clob_dex.Tree.Arena.{Direction, leftward, rightward, opposite, RedBlackTree, child}

pub data Shape : Type 0 where
  leaf : Shape
  fork : ℕ → Shape → Handle → Shape → Shape

-- `down d q c s k`: the hole is the child of `q` in direction `d`, and `s` the other subtree of `q`.
pub data Context : Type 0 where
  top : Context
  down : Direction → Handle → ℕ → Shape → Context → Context

-- The node `x` with `near` in direction `d` and `far` in the other.
abbrev pub bend : Direction → ℕ → Shape → Handle → Shape → Shape
bend leftward c near x far = fork c near x far
bend rightward c near x far = fork c far x near

abbrev pub plug : Context → Shape → Shape
plug top s = s
plug (down d q c far k) s = plug k (bend d c s q far)

abbrev pub size : Shape → ℕ
size leaf = 0
size (fork c l x r) = suc (size l + size r)

abbrev pub depth : Context → ℕ
depth top = 0
depth (down d q c s k) = suc (depth k)

abbrev pub size_around : Context → ℕ
size_around top = 0
size_around (down d q c s k) = suc (size s + size_around k)

abbrev pub inorder : Shape → List Handle
inorder leaf = []
inorder (fork c l x r) = inorder l ++ x ∷ inorder r

abbrev pub occurs : ℕ → Shape → ℕ
occurs j leaf = 0
occurs j (fork c l x r) = (if x == j then 1 else 0) + occurs j l + occurs j r

abbrev pub occurs_around : ℕ → Context → ℕ
occurs_around j top = 0
occurs_around j (down d q c s k) = (if q == j then 1 else 0) + occurs j s + occurs_around j k

pub occurs-plug :
    (k : Context) (s : Shape) (j : ℕ) → occurs j (plug k s) ≡ occurs j s + occurs_around j k
occurs-plug top s j = omega arith
occurs-plug (down leftward q c far k) s j = omega (arith, occurs-plug k (fork c s q far) j)
occurs-plug (down rightward q c far k) s j = omega (arith, occurs-plug k (fork c far q s) j)

pub size-plug : (k : Context) (s : Shape) → size (plug k s) ≡ size s + size_around k
size-plug top s = omega arith
size-plug (down leftward q c far k) s = omega (arith, size-plug k (fork c s q far))
size-plug (down rightward q c far k) s = omega (arith, size-plug k (fork c far q s))

pub depth-le-size : (k : Context) → depth k ≤ size_around k
depth-le-size top = omega arith
depth-le-size (down d q c s k) = omega (arith, depth-le-size k)

module _ {K V : Type 0} where
  -- The links of `t` from the handle `h`, whose parent is `p`, make the shape.
  abbrev pub Links : RedBlackTree K V → Handle → Handle → Shape → Type 0
  Links t p h leaf = h ≡ nil
  Links t p h (fork c l x r) =
      (h ≡ x)
      × (0 < x)
      × ((t.nodes x).parent ≡ p)
      × ((t.nodes x).color ≡ c)
      × Links t x (t.nodes x).left l
      × Links t x (t.nodes x).right r

  -- The links of `t` around the handle `h`, whose parent is `p`, make the context.
  abbrev pub Around : RedBlackTree K V → Handle → Handle → Context → Type 0
  Around t p h top = (p ≡ nil) × (t.root ≡ h)
  Around t p h (down d q c s k) =
      (p ≡ q)
      × (0 < q)
      × ((t.nodes q).color ≡ c)
      × (child d (t.nodes q) ≡ h)
      × Links t q (child (opposite d) (t.nodes q)) s
      × Around t (t.nodes q).parent q k

  pub Links-bend :
      (t : RedBlackTree K V) (d : Direction) (p h x : Handle) (c : ℕ) (near far : Shape)
      → Links t p h (bend d c near x far)
      → (h ≡ x)
        × (0 < x)
        × ((t.nodes x).parent ≡ p)
        × ((t.nodes x).color ≡ c)
        × Links t x (child d (t.nodes x)) near
        × Links t x (child (opposite d) (t.nodes x)) far
  Links-bend t leftward p h x c near far a = a
  Links-bend t rightward p h x c near far a = (a.0, a.1, a.2, a.3, a.5, a.4)

  pub bend-Links :
      (t : RedBlackTree K V) (d : Direction) (p h x : Handle) (c : ℕ) (near far : Shape)
      → (h ≡ x)
        × (0 < x)
        × ((t.nodes x).parent ≡ p)
        × ((t.nodes x).color ≡ c)
        × Links t x (child d (t.nodes x)) near
        × Links t x (child (opposite d) (t.nodes x)) far
      → Links t p h (bend d c near x far)
  bend-Links t leftward p h x c near far a = a
  bend-Links t rightward p h x c near far a = (a.0, a.1, a.2, a.3, a.5, a.4)

  -- The tree as a whole from its parts, and back.
  pub plug-Links :
      (t : RedBlackTree K V) (k : Context) (p h : Handle) (s : Shape)
      → Around t p h k
      → Links t p h s
      → Links t nil t.root (plug k s)
  plug-Links t top p h s a l = rw a.1 (subst (λ q. Links t q h s) a.0 l)
  plug-Links t (down d q c far k) p h s a l =
      plug-Links t k (t.nodes q).parent q (bend d c s q far) a.5 (
        bend-Links t d (t.nodes q).parent q q c s far
          (refl, a.1, refl, a.2, rw a.3 (subst (λ r. Links t r h s) a.0 l), a.4))

  pub Links-occurs :
      (t : RedBlackTree K V) (p h : Handle) (s : Shape) → Links t p h s → h ≢ nil → 1 ≤ occurs h s
  Links-occurs t p h leaf l n = absurd (n l)
  Links-occurs t p h (fork c a x b) l n = ground arith

  pub Links-root :
      (t : RedBlackTree K V) (p h j : Handle) (s : Shape) → Links t p h s → 1 ≤ occurs j s → 0 < j
  Links-root t p h j leaf l n = ground arith
  Links-root t p h j (fork c a x b) l n =
      ground
        (arith, Links-root t x (t.nodes x).left j a l.4, Links-root t x (t.nodes x).right j b l.5)

  -- `u` differs from `t` at the nodes of the tree only.
  abbrev pub Kept : RedBlackTree K V → RedBlackTree K V → Shape → Type 0
  Kept t u s = (j : ℕ) → occurs j s ≡ 0 → j ≢ nil → u.nodes j ≡ t.nodes j

  -- Links that two arenas share.
  pub Links-frame :
      (t u : RedBlackTree K V) (p h : Handle) (s : Shape)
      → ((j : ℕ) → 1 ≤ occurs j s → u.nodes j ≡ t.nodes j)
      → Links t p h s
      → Links u p h s
  Links-frame t u p h leaf f l = l
  Links-frame t u p h (fork c a x b) f l =
      let e : u.nodes x ≡ t.nodes x = f x (ground arith) in
      rw e (
        l.0,
        l.1,
        l.2,
        l.3,
        Links-frame t u x (t.nodes x).left a (λ j o. f j (omega arith)) l.4,
        Links-frame t u x (t.nodes x).right b (λ j o. f j (omega arith)) l.5,
      )

  pub Around-frame :
      (t u : RedBlackTree K V) (p h : Handle) (k : Context)
      → u.root ≡ t.root
      → ((j : ℕ) → 1 ≤ occurs_around j k → u.nodes j ≡ t.nodes j)
      → Around t p h k
      → Around u p h k
  Around-frame t u p h top r f a = (a.0, r ∙ a.1)
  Around-frame t u p h (down d q c s k) r f a =
      let e : u.nodes q ≡ t.nodes q = f q (ground arith) in
      rw e (
        a.0,
        a.1,
        a.2,
        a.3,
        Links-frame t u q (child (opposite d) (t.nodes q)) s (λ j o. f j (omega arith)) a.4,
        Around-frame t u (t.nodes q).parent q k r (λ j o. f j (omega arith)) a.5,
      )
