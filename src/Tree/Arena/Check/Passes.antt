-- ===== src/Tree/Arena/Check/Passes.antt =====
-- crates/clob-book/src/tree/invariants.rs: the self-check finds nothing in a sound arena.
use Prim.Native.Nat.{Ordering}
use Prim.Native.Nat.Ordering.{lt}
use clob_dex.Prelude.{
  ℕ, zero, suc, ◌+◌, ◌≤◌, ◌≡◌, ◌≢◌, refl, sym, ap, subst, ◌∙◌, false, List, [], ◌∷◌, ◌++◌, ◌||◌,
  ◌⊎◌, inl, inr, none, some, ◌==◌, if◌then◌else◌, length, All, Bool-cases, skip_both, arith,
}
use mathlib.Core.List.{append_assoc}
use clob_dex.Tree.{Handle, nil, Entry, IsSorted}
use clob_dex.Tree.Arena.{RedBlackTree, black, parent_of, successor}
use clob_dex.Tree.Arena.Balanced.{root_color}
use clob_dex.Tree.Arena.Check.{
  check_root, check_ordering_and_parents, check_free_list, check, strays, free_loop, out_of_order,
  visit, order_loop, after_visit, bst_order_violation, parent_pointer_mismatch,
}
use clob_dex.Tree.Arena.Insert.Fixup.{color_of_lem}
use clob_dex.Tree.Arena.Iter.Climb.{head, final, final-snoc}
use clob_dex.Tree.Arena.Iter.Next.{neighbours, min_from_lem}
use clob_dex.Tree.Arena.Shape.{Shape, leaf, fork, inorder, occurs, Links}
use clob_dex.Tree.Arena.Sound.{
  IsSound, Chain, IsSorted-parts, listed, listed-append, entry_of, count, count-append,
  occurs-inorder, size-inorder,
}
use clob_dex.Tree.Arena.Check.Heights.{heights_pass}

-- A handle of the tree is at the root, to the left, or to the right.
place_of :
    (x c : ℕ) (a : Shape) (y : ℕ) (r : Shape)
    → 1 ≤ occurs x (fork c a y r)
    → (y ≡ x) ⊎ ((1 ≤ occurs x a) ⊎ (1 ≤ occurs x r))
place_of x c a y r o = grind (arith, o)

module _ {K V : Type 0} where
  root_passes :
      (t : RedBlackTree K V) (s : Shape)
      → Links t nil t.root s
      → root_color s ≡ black
      → check_root t ≡ none
  unfolding check_root
  root_passes t s l b = ground (arith, color_of_lem t nil t.root s l, parents t s l)
    where
      parents : (t : RedBlackTree K V) (s : Shape) → Links t nil t.root s → parent_of t t.root ≡ nil
      parents t leaf l = ground arith
      parents t (fork c a x r) l = ground arith

  free_loop_lem :
      (f : ℕ) (t : RedBlackTree K V) (cursor free : ℕ) (hs : List Handle)
      → length hs ≤ f
      → Chain t cursor hs
      → free_loop f t cursor free ≡ inr (free + length hs)
  unfolding free_loop
  free_loop_lem zero t cursor free [] b c = ground arith
  free_loop_lem zero t cursor free (h ∷ hs) b c = absurd (omega arith)
  free_loop_lem (suc f) t cursor free [] b c = ground arith
  free_loop_lem (suc f) t cursor free (h ∷ hs) b c =
      ground (arith, free_loop_lem f t (t.nodes h).left (free + 1) hs (omega arith) c.2)

  child_points_back :
      (t : RedBlackTree K V) (x h : Handle) (s : Shape) → Links t x h s → strays t x h ≡ false
  child_points_back t x h leaf l = ground arith
  child_points_back t x h (fork c a y r) l = ground arith

  -- The children of a node of the tree point back.
  children_point_back :
      (t : RedBlackTree K V) (p h : Handle) (s : Shape) (x : Handle)
      → Links t p h s
      → 1 ≤ occurs x s
      → (strays t x (t.nodes x).left ≡ false) × (strays t x (t.nodes x).right ≡ false)
  children_point_back t p h leaf x l o = absurd (omega arith)
  children_point_back t p h (fork c a y r) x l o = elim (place_of x c a y r o) [
    | inl e ↦ (
      child_points_back t x (t.nodes x).left a (subst (λ z. Links t z (t.nodes z).left a) e l.4),
      child_points_back t x (t.nodes x).right r (subst (λ z. Links t z (t.nodes z).right r) e l.5),
    )
    | inr (inl q) ↦ children_point_back t y (t.nodes y).left a x l.4 q
    | inr (inr q) ↦ children_point_back t y (t.nodes y).right r x l.5 q
  ]

  final_of_all :
      (t : RedBlackTree K V) (P : Entry K V → Type 0) (A : List Handle)
      → All P (listed t A)
      → (final A ≡ nil) ⊎ P (entry_of t (final A))
  final_of_all t P [] a = inl refl
  final_of_all t P (h ∷ []) a = inr a.0
  final_of_all t P (h ∷ j ∷ A) a = final_of_all t P (j ∷ A) a.1

  in_order :
      (cmp : K → K → Ordering) (t : RedBlackTree K V) (p h : Handle)
      → (p ≡ nil) ⊎ (cmp (t.nodes p).key (t.nodes h).key ≡ lt)
      → out_of_order cmp t p h ≡ false
  in_order cmp t p h (inl e) = rw e refl
  in_order cmp t p h (inr e) = elim (Bool-cases (p == nil)) [
    | inl nothing ↦ rw nothing refl
    | inr there ↦ rw (there, e) refl
  ]

  visit_passes :
      (cmp : K → K → Ordering) (t : RedBlackTree K V) (p h : Handle)
      → out_of_order cmp t p h ≡ false
      → strays t h (t.nodes h).left ≡ false
      → strays t h (t.nodes h).right ≡ false
      → visit cmp t p h ≡ none
  visit_passes cmp t p h e f g =
      let both : (strays t h (t.nodes h).left || strays t h (t.nodes h).right) ≡ false =
        λ i. f i || g i in
      skip_both (out_of_order cmp t p h)
        (strays t h (t.nodes h).left || strays t h (t.nodes h).right) (some bst_order_violation)
        (some parent_pointer_mismatch) none e both

  order_step :
      (cmp : K → K → Ordering) (f : ℕ) (t : RedBlackTree K V) (p h n : ℕ)
      → h ≢ nil
      → visit cmp t p h ≡ none
      → order_loop cmp (suc f) t p h n ≡ order_loop cmp f t h (successor t h) (n + 1)
  unfolding order_loop
  order_step cmp f t p h n live e =
      let test : (h == nil) ≡ false = ground (arith, live) in
      λ i.
        if test i then inr n else after_visit (e i) (order_loop cmp f t h (successor t h) (n + 1))

module _ {K V : Type 0} {cmp : K → K → Ordering} (t : RedBlackTree K V) (s : Shape)
    (hs : List Handle) (w : IsSound cmp t s hs) where
  -- The handle after `A` in the order of the tree.
  visited :
      (h : Handle) (A B : List Handle) → inorder s ≡ A ++ h ∷ B → visit cmp t (final A) h ≡ none
  visited h A B e =
      let here : 1 ≤ occurs h s =
        ground (arith, occurs-inorder h s, ap (count h) e ∙ count-append h A (h ∷ B)) in
      let sorted = subst (IsSorted cmp) (ap (listed t) e ∙ listed-append t A (h ∷ B)) w.sorted in
      let below = (IsSorted-parts cmp (listed t A) (entry_of t h) (listed t B) sorted).2 in
      let stay = children_point_back t nil t.root s h w.links here in
      visit_passes cmp t (final A) h
        (in_order cmp t (final A) h (final_of_all t (λ f. cmp f.key (t.nodes h).key ≡ lt) A below))
        stay.0 stay.1

  walk_passes :
      (f : ℕ) (A B : List Handle) (n : ℕ)
      → inorder s ≡ A ++ B
      → length B ≤ f
      → order_loop cmp f t (final A) (head B) n ≡ inr (n + length B)
  unfolding order_loop
  walk_passes zero A [] n e b = ground arith
  walk_passes (suc f) A [] n e b = ground arith
  walk_passes zero A (h ∷ B) n e b = absurd (omega arith)
  walk_passes (suc f) A (h ∷ B) n e b =
      let near = neighbours t s hs h A B w e in
      let rest =
        walk_passes f (A ++ h ∷ []) B (n + 1) (e ∙ sym (append_assoc A (h ∷ []) B)) (omega arith) in
      order_step cmp f t (final A) h n near.0 (visited h A B e)
      ∙ ap (λ m. order_loop cmp f t m (successor t h) (n + 1)) (sym (final-snoc A h))
      ∙ ap (λ m. order_loop cmp f t (final (A ++ h ∷ [])) m (n + 1)) near.1
      ∙ rest
      ∙ ap inr (omega arith)

  order_passes : check_ordering_and_parents cmp t ≡ inr t.len
  unfolding check_ordering_and_parents
  order_passes =
      let n = w.len_lem ∙ size-inorder s in
      let low = min_from_lem t nil t.root s (omega (arith, w.len_lem)) w.links in
      ap (λ h. order_loop cmp t.capacity t nil h 0) low
      ∙ walk_passes t.capacity [] (inorder s) 0 refl (omega (arith, n, w.slots, w.room, w.len_lem))
      ∙ ap inr (omega (arith, n))

  free_passes : check_free_list t ≡ none
  unfolding check_free_list
  free_passes =
      let walked =
        free_loop_lem t.capacity t t.free_head 0 hs (omega (arith, w.slots, w.room)) w.chain in
      rw (walked, check_free_list) (ground (arith, w.slots, w.len_lem))

  -- The program's own structural check ends and finds nothing in a sound arena: colours, black
  -- heights, key order, parent links, the count of nodes and the free list.
  pub check_passes : check cmp t ≡ some none
  unfolding check
  check_passes =
      let heights =
        heights_pass (t.len + 1) t nil t.root s (omega (arith, w.len_lem)) w.links w.balanced in
      rw (check, root_passes t s w.links w.root_black, order_passes, heights, free_passes)
        (ground arith)
