-- ===== src/Tree/Arena/Lookup.antt =====
-- crates/clob-book/src/tree/mod.rs: `find`, `first` and `last` against the sorted list of entries.
use Prim.Native.Nat.{Ordering}
use Prim.Native.Nat.Ordering.{eq, gt}
use clob_dex.Prelude.{
  ℕ, zero, suc, ◌≤◌, ◌<◌, ◌≡◌, ◌≢◌, refl, sym, ap, ◌∙◌, List, [], ◌∷◌, ◌++◌, some, All-append,
  arith,
}
use clob_dex.Tree.{Handle, nil, Entry, IsLawful, find_key, least, greatest}
use clob_dex.Tree.Arena.{RedBlackTree, find, first, last, min_loop, max_loop}
use clob_dex.Tree.Arena.Insert.{descend}
use clob_dex.Tree.Arena.Insert.Descend.{Arrives, missing, found, descend_lem, find-descend}
use clob_dex.Tree.Arena.Insert.Added.{Sound-Focus, around_hole}
use clob_dex.Tree.Arena.Insert.Correct.{around_node}
use clob_dex.Tree.Arena.Shape.{Shape, leaf, fork, top, inorder, size, Links}
use clob_dex.Tree.Arena.Sound.{
  IsSound, contents, listed, listed-append, entry_of, before, after, find_key-at, find_key-between,
}

module _ {K V : Type 0} (cmp : K → K → Ordering) (law : IsLawful cmp) where
  arrived :
      (t : RedBlackTree K V) (s : Shape) (hs : List Handle) (w : IsSound cmp t s hs) (key : K)
      (x : Handle × Handle × Ordering)
      → Arrives cmp law t key s x
      → x.1 ≡ find_key cmp key (contents t s)
  arrived t s hs w key x (missing p o k f whole low high turns) = sym (
      ap (find_key cmp key) (around_hole t s k whole)
      ∙ find_key-between cmp key (listed t (before k)) (listed t (after k)) low high)
  arrived t s hs w key x (found p h k c l r f whole low high left right same) = sym (
      ap (find_key cmp key) (around_node t s h k c l r whole)
      ∙ find_key-at cmp key (listed t (before k) ++ listed t (inorder l)) (entry_of t h)
          (listed t (inorder r ++ after k))
          (All-append (λ e. cmp key e.key ≡ gt) (listed t (before k)) (listed t (inorder l)) low
            left)
          same)

  -- In a sound arena with a lawful order on its keys, the descent by comparisons returns the
  -- handle that a search of the entries in order finds, and nil where the key is not there.
  pub find_lem :
      (t : RedBlackTree K V) (s : Shape) (hs : List Handle) (key : K)
      → IsSound cmp t s hs
      → find cmp t key ≡ find_key cmp key (contents t s)
  unfolding find
  find_lem t s hs key w =
      find-descend cmp t.len t key nil t.root eq
      ∙ arrived t s hs w key (descend cmp t.len t key nil t.root eq) (
          descend_lem cmp law t key t.len s nil t.root eq top s (omega (arith, w.len_lem))
            (Sound-Focus cmp law t s hs w) refl w.sorted tt tt tt)

module _ {K V : Type 0} where
  least-append :
      (A B : List (Entry K V)) (e : Entry K V) → least A ≡ some e → least (A ++ B) ≡ some e
  least-append [] B e h = ground arith
  least-append (x ∷ A) B e h = h

  greatest-cons :
      (a e : Entry K V) (B : List (Entry K V)) → greatest B ≡ some e → greatest (a ∷ B) ≡ some e
  greatest-cons a e [] h = ground arith
  greatest-cons a e (b ∷ B) h = h

  greatest-append :
      (A B : List (Entry K V)) (e : Entry K V) → greatest B ≡ some e → greatest (A ++ B) ≡ some e
  greatest-append [] B e h = h
  greatest-append (a ∷ A) B e h = greatest-cons a e (A ++ B) (greatest-append A B e h)

  pub min_loop-stop :
      (f : ℕ) (t : RedBlackTree K V) (h : Handle)
      → (t.nodes h).left ≡ nil
      → min_loop (suc f) t h ≡ h
  unfolding min_loop
  min_loop-stop f t h e = ground arith

  pub min_loop-go :
      (f : ℕ) (t : RedBlackTree K V) (h : Handle)
      → (t.nodes h).left ≢ nil
      → min_loop (suc f) t h ≡ min_loop f t (t.nodes h).left
  unfolding min_loop
  min_loop-go f t h n = ground arith

  pub max_loop-stop :
      (f : ℕ) (t : RedBlackTree K V) (h : Handle)
      → (t.nodes h).right ≡ nil
      → max_loop (suc f) t h ≡ h
  unfolding max_loop
  max_loop-stop f t h e = ground arith

  pub max_loop-go :
      (f : ℕ) (t : RedBlackTree K V) (h : Handle)
      → (t.nodes h).right ≢ nil
      → max_loop (suc f) t h ≡ max_loop f t (t.nodes h).right
  unfolding max_loop
  max_loop-go f t h n = ground arith

  pub min_loop_lem :
      (f : ℕ) (t : RedBlackTree K V) (p h : Handle) (c : ℕ) (l r : Shape) (x : Handle)
      → size (fork c l x r) ≤ f
      → Links t p h (fork c l x r)
      → (0 < min_loop f t h)
        × (least (listed t (inorder (fork c l x r))) ≡ some (entry_of t (min_loop f t h)))
  min_loop_lem zero t p h c l r x m w = absurd (omega arith)
  min_loop_lem (suc f) t p h c leaf r x m w =
      rw (min_loop-stop f t h (ap (λ z. (t.nodes z).left) w.0 ∙ w.4) ∙ w.0) (w.1, refl)
  min_loop_lem (suc f) t p h c (fork a b y d) r x m w =
      let same : (t.nodes h).left ≡ (t.nodes x).left = ap (λ z. (t.nodes z).left) w.0 in
      let go = min_loop-go f t h (omega (arith, same, w.4.0, w.4.1)) ∙ ap (min_loop f t) same in
      let ih = min_loop_lem f t x (t.nodes x).left a b d y (omega arith) w.4 in
      rw go (
        ih.0,
        ap least (listed-append t (inorder (fork a b y d)) (x ∷ inorder r))
            ∙ least-append (listed t (inorder (fork a b y d))) (listed t (x ∷ inorder r))
                (entry_of t (min_loop f t (t.nodes x).left)) ih.1,
      )

  pub max_loop_lem :
      (f : ℕ) (t : RedBlackTree K V) (p h : Handle) (c : ℕ) (l r : Shape) (x : Handle)
      → size (fork c l x r) ≤ f
      → Links t p h (fork c l x r)
      → (0 < max_loop f t h)
        × (greatest (listed t (inorder (fork c l x r))) ≡ some (entry_of t (max_loop f t h)))
  max_loop_lem zero t p h c l r x m w = absurd (omega arith)
  max_loop_lem (suc f) t p h c l leaf x m w =
      rw (max_loop-stop f t h (ap (λ z. (t.nodes z).right) w.0 ∙ w.5) ∙ w.0) (
        w.1,
        ap greatest (listed-append t (inorder l) (x ∷ []))
            ∙ greatest-append (listed t (inorder l)) (entry_of t x ∷ []) (entry_of t x) refl,
      )
  max_loop_lem (suc f) t p h c l (fork a b y d) x m w =
      let same : (t.nodes h).right ≡ (t.nodes x).right = ap (λ z. (t.nodes z).right) w.0 in
      let go = max_loop-go f t h (omega (arith, same, w.5.0, w.5.1)) ∙ ap (max_loop f t) same in
      let ih = max_loop_lem f t x (t.nodes x).right a b d y (omega arith) w.5 in
      let e = entry_of t (max_loop f t (t.nodes x).right) in
      rw go (
        ih.0,
        ap greatest (listed-append t (inorder l) (x ∷ inorder (fork a b y d)))
            ∙ greatest-append (listed t (inorder l)) (listed t (x ∷ inorder (fork a b y d))) e
                (greatest-cons (entry_of t x) e (listed t (inorder (fork a b y d))) ih.1),
      )

  first_lem :
      (t : RedBlackTree K V) (s : Shape)
      → Links t nil t.root s
      → t.len ≡ size s
      → first t ≡ least (contents t s)
  unfolding first
  first_lem t leaf l n = ground arith
  first_lem t (fork c a x b) l n =
      let m = min_loop_lem t.len t nil t.root c a b x (omega arith) l in
      ground (arith, l.0, l.1, m.0) ∙ sym m.1

  last_lem :
      (t : RedBlackTree K V) (s : Shape)
      → Links t nil t.root s
      → t.len ≡ size s
      → last t ≡ greatest (contents t s)
  unfolding last
  last_lem t leaf l n = ground arith
  last_lem t (fork c a x b) l n =
      let m = max_loop_lem t.len t nil t.root c a b x (omega arith) l in
      ground (arith, l.0, l.1, m.0) ∙ sym m.1

  -- In a sound arena, `first` is the least entry in order and `last` the greatest, and both are
  -- none in an empty tree.
  pub ends_lem :
      {cmp : K → K → Ordering} (t : RedBlackTree K V) (s : Shape) (hs : List Handle)
      → IsSound cmp t s hs
      → (first t ≡ least (contents t s)) × (last t ≡ greatest (contents t s))
  ends_lem t s hs w = (first_lem t s w.links w.len_lem, last_lem t s w.links w.len_lem)
