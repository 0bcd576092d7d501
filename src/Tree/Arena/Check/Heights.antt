-- ===== src/Tree/Arena/Check/Heights.antt =====
-- crates/clob-book/src/tree/invariants.rs: `check_black_height` answers the black height of a balanced tree.
use clob_dex.Prelude.{
  ℕ, zero, suc, ◌+◌, ◌<◌, ◌≡◌, ◌≢◌, refl, sym, ap, subst, ◌∙◌, false, ◌⊎◌, inl, inr, Option, some,
  ◌==◌, if◌then◌else◌, Bool-cases, skip_both, ==_iff, arith,
}
use clob_dex.Tree.{Handle, nil}
use clob_dex.Tree.Arena.{RedBlackTree, red, black, color_of}
use clob_dex.Tree.Arena.Balanced.{Balanced, black_height, root_color}
use clob_dex.Tree.Arena.Check.{Invariant, check_black_height, red_red, join_heights}
use clob_dex.Tree.Arena.Insert.Fixup.{color_of_lem}
use clob_dex.Tree.Arena.Shape.{Shape, leaf, fork, size, Links}

same_heights :
    (m n own : ℕ) → m ≡ n → join_heights (some (inr m)) (some (inr n)) own ≡ some (inr (m + own))
same_heights m n own e = ground (arith, e)

module _ {K V : Type 0} where
  calm :
      (t : RedBlackTree K V) (h c a b : ℕ)
      → color_of t h ≡ c
      → color_of t (t.nodes h).left ≡ a
      → color_of t (t.nodes h).right ≡ b
      → (c ≡ red → (a ≡ black) × (b ≡ black))
      → red_red t h ≡ false
  calm t h c a b e f g w = elim (Bool-cases (c == red)) [
    | inl is_red ↦
        let q : c ≡ red = (==_iff c red).0 is_red in rw (e, f, g, q, (w q).0, (w q).1) refl
    | inr other ↦ rw (e, other) refl
  ]

  heights_step :
      (f : ℕ) (t : RedBlackTree K V) (h c m n : ℕ)
      → h ≢ nil
      → color_of t h ≡ c
      → red_red t h ≡ false
      → check_black_height f t (t.nodes h).left ≡ some (inr m)
      → check_black_height f t (t.nodes h).right ≡ some (inr n)
      → m ≡ n
      → check_black_height (suc f) t h ≡ some (inr (m + (if c == black then 1 else 0)))
  unfolding check_black_height
  heights_step f t h c m n live here quiet left right e =
      let test : (h == nil) ≡ false = ground (arith, live) in
      let own : ◌≡◌ {A = ℕ} (if color_of t h == black then 1 else 0) (if c == black then 1 else 0) =
        ap (λ x. if x == black then 1 else 0) here in
      let joined : ◌≡◌ {A = Option (Invariant ⊎ ℕ)}
          (join_heights (check_black_height f t (t.nodes h).left)
            (check_black_height f t (t.nodes h).right) (if color_of t h == black then 1 else 0))
          (join_heights (some (inr m)) (some (inr n)) (if c == black then 1 else 0)) =
        λ i. join_heights (left i) (right i) (own i) in
      skip_both (h == nil) (red_red t h) _ _ _ test quiet
      ∙ joined
      ∙ same_heights m n (if c == black then 1 else 0) e

  pub heights_pass :
      (f : ℕ) (t : RedBlackTree K V) (p h : Handle) (s : Shape)
      → size s < f
      → Links t p h s
      → Balanced s
      → check_black_height f t h ≡ some (inr (black_height s))
  unfolding check_black_height
  heights_pass zero t p h s b l w = absurd (omega arith)
  heights_pass (suc f) t p h leaf b l w = ground arith
  heights_pass (suc f) t p h (fork c a x r) b l w =
      let left = heights_pass f t x (t.nodes x).left a (omega arith) l.4 w.3 in
      let right = heights_pass f t x (t.nodes x).right r (omega arith) l.5 w.4 in
      let here : color_of t x ≡ c = ground (arith, l.1, l.3) in
      let quiet =
        calm t x c (root_color a) (root_color r) here (color_of_lem t x (t.nodes x).left a l.4)
          (color_of_lem t x (t.nodes x).right r l.5) w.1 in
      subst (λ y. check_black_height (suc f) t y ≡ some (inr (black_height (fork c a x r))))
        (sym l.0)
        (heights_step f t x c (black_height a) (black_height r) (omega (arith, l.1)) here quiet left
          right w.2)
