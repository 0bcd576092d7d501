-- ===== src/Tree/Arena/Insert/Descend.antt =====
-- crates/clob-book/src/tree/insert.rs: the descent finds the key, or the place where it belongs.
use Prim.Native.Nat.{Ordering}
use Prim.Native.Nat.Ordering.{lt, eq, gt}
use clob_dex.Prelude.{
  ℕ, zero, suc, ◌≤◌, ◌<◌, ◌≡◌, ◌⊎◌, inl, inr, refl, sym, subst, arith, List, [], ◌∷◌, ◌++◌, All,
  All-imp, All-append,
}
use clob_dex.Tree.{Handle, nil, IsSorted, IsLawful}
use clob_dex.Tree.Arena.{RedBlackTree, find_loop, leftward, rightward}
use clob_dex.Tree.Arena.Insert.{descend}
use clob_dex.Tree.Arena.Shape.{Shape, leaf, fork, Context, top, down, plug, inorder, size}
use clob_dex.Tree.Arena.Sound.{before, after, listed, listed-append, entry_of, IsSorted-parts}
use clob_dex.Tree.Arena.Focus.{Focus}
use clob_dex.Tree.Arena.Zoom.{zoom_in}

abbrev pub Turns : Ordering → Context → Type 0
Turns o top = Unit
Turns o (down leftward q c far k) = o ≡ lt
Turns o (down rightward q c far k) = o ≡ gt

Ordering-cases : (o : Ordering) → (o ≡ lt) ⊎ (o ≡ gt) ⊎ (o ≡ eq)
Ordering-cases lt = inl refl
Ordering-cases gt = inr (inl refl)
Ordering-cases eq = inr (inr refl)

module _ {K V : Type 0} (cmp : K → K → Ordering) (law : IsLawful cmp) (t : RedBlackTree K V)
    (key : K) where
  abbrev pub Above : List Handle → Type 0
  Above hs = All (λ e. cmp key e.key ≡ gt) (listed t hs)

  abbrev pub Below : List Handle → Type 0
  Below hs = All (λ e. cmp key e.key ≡ lt) (listed t hs)

  -- Where a descent through `whole` ends.
  pub data Arrives (whole : Shape) : Handle × Handle × Ordering → Type 0 where
    missing :
        (p : Handle) (o : Ordering) (k : Context)
        → Focus t p nil k leaf
        → plug k leaf ≡ whole
        → Above (before k)
        → Below (after k)
        → Turns o k
        → Arrives whole (p, nil, o)
    found :
        (p h : Handle) (k : Context) (c : ℕ) (l r : Shape)
        → Focus t p h k (fork c l h r)
        → plug k (fork c l h r) ≡ whole
        → Above (before k)
        → Below (after k)
        → Above (inorder l)
        → Below (inorder r)
        → cmp key (t.nodes h).key ≡ eq
        → Arrives whole (p, h, eq)

  less_than_all :
      (x : Handle) (hs : List Handle)
      → cmp key (t.nodes x).key ≡ lt
      → All (λ e. cmp (t.nodes x).key e.key ≡ lt) (listed t hs)
      → Below hs
  less_than_all x hs a = All-imp (λ e b. law.lt_trans key (t.nodes x).key e.key a b) (listed t hs)

  more_than_all :
      (x : Handle) (hs : List Handle)
      → cmp key (t.nodes x).key ≡ gt
      → All (λ e. cmp e.key (t.nodes x).key ≡ lt) (listed t hs)
      → Above hs
  more_than_all x hs a =
      All-imp
        (λ e b.
          law.gt_of_lt e.key key
            (law.lt_trans e.key (t.nodes x).key key b (law.lt_of_gt key (t.nodes x).key a)))
        (listed t hs)

  no_more :
      (whole : Shape) (p h : Handle) (o : Ordering) (k : Context)
      → Focus t p h k leaf
      → plug k leaf ≡ whole
      → Above (before k)
      → Below (after k)
      → Turns o k
      → Arrives whole (p, h, o)
  no_more whole p h o k w e a b u =
      subst (λ j. Arrives whole (p, j, o)) (sym w.links)
        (missing p o k (subst (λ j. Focus t p j k leaf) w.links w) e a b u)

  descend-nil :
      (f : ℕ) (p h : Handle) (o : Ordering) → h ≡ nil → descend cmp (suc f) t key p h o ≡ (p, h, o)
  unfolding descend
  descend-nil f p h o e = ground arith

  descend-lt :
      (f : ℕ) (p x : Handle) (o : Ordering)
      → 0 < x
      → cmp key (t.nodes x).key ≡ lt
      → descend cmp (suc f) t key p x o ≡ descend cmp f t key x (t.nodes x).left lt
  unfolding descend
  descend-lt f p x o n e = ground arith

  descend-gt :
      (f : ℕ) (p x : Handle) (o : Ordering)
      → 0 < x
      → cmp key (t.nodes x).key ≡ gt
      → descend cmp (suc f) t key p x o ≡ descend cmp f t key x (t.nodes x).right gt
  unfolding descend
  descend-gt f p x o n e = ground arith

  descend-eq :
      (f : ℕ) (p x : Handle) (o : Ordering)
      → 0 < x
      → cmp key (t.nodes x).key ≡ eq
      → descend cmp (suc f) t key p x o ≡ (p, x, eq)
  unfolding descend
  descend-eq f p x o n e = ground arith

  pub descend_lem :
      (f : ℕ) (whole : Shape) (p h : Handle) (o : Ordering) (k : Context) (s : Shape)
      → size s ≤ f
      → Focus t p h k s
      → plug k s ≡ whole
      → IsSorted cmp (listed t (inorder s))
      → Above (before k)
      → Below (after k)
      → Turns o k
      → Arrives whole (descend cmp f t key p h o)
  descend_lem zero whole p h o k leaf m w e i a b u =
      unfold descend in no_more whole p h o k w e a b u
  descend_lem zero whole p h o k (fork c l x r) m w e i a b u = absurd (omega arith)
  descend_lem (suc f) whole p h o k leaf m w e i a b u =
      subst (Arrives whole) (sym (descend-nil f p h o w.links)) (no_more whole p h o k w e a b u)
  descend_lem (suc f) whole p h o k (fork c l x r) m w e i a b u =
      let ps =
        IsSorted-parts cmp (listed t (inorder l)) (entry_of t x) (listed t (inorder r))
          (subst (IsSorted cmp) (listed-append t (inorder l) (x ∷ inorder r)) i) in
      let n : 0 < x = w.links.1 in
      let w' : Focus t p x k (fork c l x r) =
        subst (λ j. Focus t p j k (fork c l x r)) w.links.0 w in
      subst (λ j. Arrives whole (descend cmp (suc f) t key p j o)) (sym w.links.0)
        (elim (Ordering-cases (cmp key (t.nodes x).key)) [
          | inl lo ↦
              let rb = less_than_all x (inorder r) lo ps.3 in
              subst (Arrives whole) (sym (descend-lt f p x o n lo)) (
                descend_lem f whole x (t.nodes x).left lt (down leftward x c r k) l (omega arith)
                  (zoom_in t leftward p x x c r l k w') e ps.0 a
                  (
                    lo,
                    subst (All (λ y. cmp key y.key ≡ lt))
                        (sym (listed-append t (inorder r) (after k)))
                        (All-append (λ y. cmp key y.key ≡ lt) (listed t (inorder r))
                          (listed t (after k)) rb b),
                  )
                  refl)
          | inr (inl hi) ↦
              let la = more_than_all x (inorder l) hi ps.2 in
              let la' =
                subst (All (λ y. cmp key y.key ≡ gt)) (sym (listed-append t (inorder l) (x ∷ []))) (
                  All-append (λ y. cmp key y.key ≡ gt) (listed t (inorder l)) (entry_of t x ∷ []) la
                    (hi, tt)) in
              subst (Arrives whole) (sym (descend-gt f p x o n hi)) (
                descend_lem f whole x (t.nodes x).right gt (down rightward x c l k) r (omega arith)
                  (zoom_in t rightward p x x c l r k w') e ps.1
                  (subst (All (λ y. cmp key y.key ≡ gt))
                    (sym (listed-append t (before k) (inorder l ++ x ∷ [])))
                    (All-append (λ y. cmp key y.key ≡ gt) (listed t (before k))
                      (listed t (inorder l ++ x ∷ [])) a la'))
                  b refl)
          | inr (inr same) ↦
              let same_key = law.eq_of_cmp key (t.nodes x).key same in
              subst (Arrives whole) (sym (descend-eq f p x o n same)) (
                found p x k c l r w' e a b
                  (All-imp
                    (λ y q. law.gt_of_lt y.key key (subst (λ z. cmp y.key z ≡ lt) (sym same_key) q))
                    (listed t (inorder l)) ps.2)
                  (All-imp (λ y q. subst (λ z. cmp z y.key ≡ lt) (sym same_key) q)
                    (listed t (inorder r)) ps.3)
                  same)
        ])

module _ {K V : Type 0} (cmp : K → K → Ordering) where
  pub find-descend :
      (f : ℕ) (t : RedBlackTree K V) (k : K) (p h : Handle) (o : Ordering)
      → find_loop cmp f t k h ≡ (descend cmp f t k p h o).1
  unfolding find_loop descend
  find-descend zero t k p h o = refl
  find-descend (suc f) t k p h o =
      ground
        (arith, find-descend f t k h (t.nodes h).left lt, find-descend f t k h (t.nodes h).right gt)
