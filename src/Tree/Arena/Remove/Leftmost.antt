-- ===== src/Tree/Arena/Remove/Leftmost.antt =====
-- crates/clob-book/src/tree/remove.rs: the successor of a node is the leftmost of its right subtree.
use clob_dex.Prelude.{
  ℕ, zero, suc, ◌+◌, ◌≤◌, ◌≡◌, inl, inr, refl, sym, ap, subst, ◌∙◌, ◌==◌, arith, ◌∷◌, ◌++◌, ltb,
  ltb→lt, Bool-cases,
}
use mathlib.Core.List.{append_assoc, append-nil}
use clob_dex.Tree.{Handle}
use clob_dex.Tree.Arena.{leftward, rightward, RedBlackTree, child, min_loop}
use clob_dex.Tree.Arena.Shape.{
  Shape, leaf, fork, Context, top, down, bend, plug, inorder, size, occurs, occurs_around,
}
use clob_dex.Tree.Arena.Focus.{Focus}
use clob_dex.Tree.Arena.Zoom.{zoom_in, zoom_out}
use clob_dex.Tree.Arena.Lookup.{min_loop-stop, min_loop-go}
use clob_dex.Tree.Arena.Sound.{after}

-- A context within a context.
abbrev pub join : Context → Context → Context
join top k = k
join (down d q c s i) k = down d q c s (join i k)

pub plug-join : (i k : Context) (s : Shape) → plug (join i k) s ≡ plug k (plug i s)
plug-join top k s = refl
plug-join (down d q c far i) k s = plug-join i k (bend d c s q far)

pub occurs_around-join :
    (i k : Context) (j : ℕ) → occurs_around j (join i k) ≡ occurs_around j i + occurs_around j k
occurs_around-join top k j = omega arith
occurs_around-join (down d q c far i) k j = omega (arith, occurs_around-join i k j)

-- Every step of the context is to the left.
abbrev pub Leftmost : Context → Type 0
Leftmost top = Unit
Leftmost (down leftward q c s i) = Leftmost i
Leftmost (down rightward q c s i) = ⊥

pub inorder-Leftmost :
    (i : Context) (s : Shape) → Leftmost i → inorder (plug i s) ≡ inorder s ++ after i
inorder-Leftmost top s m = sym (append-nil (inorder s))
inorder-Leftmost (down leftward q c far i) s m =
    inorder-Leftmost i (fork c s q far) m ∙ append_assoc (inorder s) (q ∷ inorder far) (after i)
inorder-Leftmost (down rightward q c far i) s m = absurd m

module _ {K V : Type 0} where
  -- The descent to the left from a node.
  pub record Descends (t : RedBlackTree K V) (h : Handle) (i k : Context) (s : Shape) (y : Handle)
      : Type 0 where
    pub inner : Context
    pub color : ℕ
    pub rest : Shape
    pub parent : Handle
    pub focus : Focus t parent y (join inner k) (fork color leaf y rest)
    pub same : plug inner (fork color leaf y rest) ≡ plug i s
    pub leftmost : Leftmost inner

  pub descends :
      (f : ℕ) (t : RedBlackTree K V) (p h : Handle) (i k : Context) (c : ℕ) (l : Shape) (x : Handle)
      (r : Shape)
      → size (fork c l x r) ≤ f
      → Leftmost i
      → Focus t p h (join i k) (fork c l x r)
      → Descends t h i k (fork c l x r) (min_loop f t h)
  descends zero t p h i k c l x r m lm w = absurd (omega arith)
  descends (suc f) t p h i k c leaf x r m lm w =
      let e = min_loop-stop f t h (ap (λ z. (t.nodes z).left) w.links.0 ∙ w.links.4) ∙ w.links.0 in
      rw e (record {
        inner = i;
        color = c;
        rest = r;
        parent = p;
        focus = subst (λ z. Focus t p z (join i k) (fork c leaf x r)) w.links.0 w;
        same = refl;
        leftmost = lm;
      })
  descends (suc f) t p h i k c (fork a l y d) x r m lm w =
      let same : (t.nodes h).left ≡ (t.nodes x).left = ap (λ z. (t.nodes z).left) w.links.0 in
      let go =
        min_loop-go f t h (omega (arith, same, w.links.4.0, w.links.4.1))
        ∙ ap (min_loop f t) same in
      let g = zoom_in t leftward p h x c r (fork a l y d) (join i k) w in
      let d' =
        descends f t x (t.nodes x).left (down leftward x c r i) k a l y d (omega arith) lm g in
      rw go (record {
        inner = d'.inner;
        color = d'.color;
        rest = d'.rest;
        parent = d'.parent;
        focus = d'.focus;
        same = d'.same;
        leftmost = d'.leftmost;
      })

  -- Out of the inner context, and in again.
  pub zoom_through :
      (t : RedBlackTree K V) (p h : Handle) (i k : Context) (s : Shape)
      → Focus t p h k (plug i s)
      → (q : Handle) × (j : Handle) × Focus t q j (join i k) s
  zoom_through t p h top k s f = (p, h, f)
  zoom_through t p h (down d g c far i) k s f =
      let (q, j, v) = zoom_through t p h i k (bend d c s g far) f in
      (g, child d (t.nodes g), zoom_in t d q j g c far s (join i k) v)

  pub zoom_back :
      (t : RedBlackTree K V) (p h : Handle) (i k : Context) (s : Shape)
      → Focus t p h (join i k) s
      → (q : Handle) × (j : Handle) × Focus t q j k (plug i s)
  zoom_back t p h top k s f = (p, h, f)
  zoom_back t p h (down d g c far i) k s f =
      zoom_back t (t.nodes g).parent g i k (bend d c s g far)
        (zoom_out t d p h g c far s (join i k) f)

  -- A node of the tree in its context.
  pub record Stands (t : RedBlackTree K V) (h : Handle) (s : Shape) : Type 0 where
    pub parent : Handle
    pub around : Context
    pub color : ℕ
    pub left : Shape
    pub right : Shape
    pub focus : Focus t parent h around (fork color left h right)
    pub whole : plug around (fork color left h right) ≡ s

  pub stands :
      (t : RedBlackTree K V) (p g h : Handle) (k : Context) (s : Shape)
      → Focus t p g k s
      → 1 ≤ occurs h s
      → Stands t h (plug k s)
  stands t p g h k leaf f o = absurd (omega arith)
  stands t p g h k (fork c l x r) f o = elim (Bool-cases (x == h)) [
    | inl e ↦
        let same : x ≡ h = ground arith in
        subst (λ z. Stands t z (plug k (fork c l x r))) same
          (record {
            parent = p;
            around = k;
            color = c;
            left = l;
            right = r;
            focus = subst (λ z. Focus t p z k (fork c l x r)) f.links.0 f;
            whole = refl;
          })
    | inr n ↦ elim (Bool-cases (ltb 0 (occurs h l))) [
      | inl in_left ↦
          stands t x (t.nodes x).left h (down leftward x c r k) l
            (zoom_in t leftward p g x c r l k f) (ltb→lt _ _ in_left)
      | inr not_left ↦
          stands t x (t.nodes x).right h (down rightward x c l k) r
            (zoom_in t rightward p g x c l r k f) (ground arith)
    ]
  ]
