-- ===== src/Tree/Arena/Focus.antt =====
-- A node of the arena in its context, and what a rotation needs of it.
use clob_dex.Prelude.{
  ℕ, zero, suc, ◌+◌, ◌≤◌, ◌≡◌, ◌≢◌, ◌⊎◌, inl, inr, refl, sym, ap, subst, ◌∙◌, ◌==◌, if◌then◌else◌,
  arith,
}
use clob_dex.Tree.{Handle, nil}
use clob_dex.Tree.Arena.{Direction, leftward, rightward, opposite, Node, RedBlackTree, child}
use clob_dex.Tree.Arena.Shape.{
  Shape, leaf, fork, Context, top, down, bend, occurs, occurs_around, Links, Around, Links-frame,
  Around-frame, Links-occurs,
}
use clob_dex.Tree.Arena.Rotate.{with_child, with_parent}

-- No handle occurs twice, and `nil` does not occur.
abbrev pub Proper : Context → Shape → Type 0
Proper k s = (j : ℕ) → occurs j s + occurs_around j k ≤ (if j == nil then 0 else 1)

pub occurs-bend :
    (d : Direction) (c : ℕ) (near : Shape) (x : Handle) (far : Shape) (j : ℕ)
    → occurs j (bend d c near x far) ≡ (if x == j then 1 else 0) + occurs j near + occurs j far
occurs-bend leftward c near x far j = refl
occurs-bend rightward c near x far j = omega arith

pub nil_cases : (h : Handle) → (h ≡ nil) ⊎ (h ≢ nil)
nil_cases zero = inl refl
nil_cases (suc h) = inr (λ e. omega arith)

module _ {K V : Type 0} where
  pub record Focus (t : RedBlackTree K V) (p h : Handle) (k : Context) (s : Shape) : Type 0 where
    pub around : Around t p h k
    pub links : Links t p h s
    pub proper : Proper k s

  pub Around-parent :
      (t : RedBlackTree K V) (p h : Handle) (k : Context)
      → Around t p h k
      → (p ≡ nil) ⊎ (1 ≤ occurs_around p k)
  Around-parent t p h top a = inl a.0
  Around-parent t p h (down d q c s k) a = inr (ground arith)

  -- A subtree whose root has another parent and is otherwise as before.
  pub Links-adopt :
      (t u : RedBlackTree K V) (p q h : Handle) (s : Shape)
      → ((j : ℕ) → 1 ≤ occurs j s → j ≢ h → u.nodes j ≡ t.nodes j)
      → (h ≢ nil → u.nodes h ≡ with_parent q (t.nodes h))
      → ((j : ℕ) → occurs j s ≤ (if j == nil then 0 else 1))
      → Links t p h s
      → Links u q h s
  Links-adopt t u p q h leaf f g o l = l
  Links-adopt t u p q h (fork c a x b) f g o l =
      let e : u.nodes x ≡ with_parent q (t.nodes x) =
        subst (λ y. u.nodes y ≡ with_parent q (t.nodes y)) l.0 (g (omega arith)) in
      rw e (
        l.0,
        l.1,
        refl,
        l.3,
        Links-frame t u x (t.nodes x).left a (λ j i. f j (omega arith) (ground (arith, o x))) l.4,
        Links-frame t u x (t.nodes x).right b (λ j i. f j (omega arith) (ground (arith, o x))) l.5,
      )

  which_child :
      (d e : Direction) (n : Node K V) (x y : Handle)
      → child e n ≡ x
      → child (opposite e) n ≢ x
      → (if child d n == x then with_child d y n else with_child (opposite d) y n)
        ≡ with_child e y n
  which_child leftward leftward n x y p q = ground arith
  which_child leftward rightward n x y p q = ground arith
  which_child rightward leftward n x y p q = ground arith
  which_child rightward rightward n x y p q = ground arith

  with_child_lem :
      (e : Direction) (y : Handle) (n : Node K V)
      → (child e (with_child e y n) ≡ y)
        × (child (opposite e) (with_child e y n) ≡ child (opposite e) n)
        × ((with_child e y n).color ≡ n.color)
        × ((with_child e y n).parent ≡ n.parent)
  with_child_lem leftward y n = (refl, refl, refl, refl)
  with_child_lem rightward y n = (refl, refl, refl, refl)

  -- A context in which `y` has taken the place of `x`.
  pub Around-relink :
      (d : Direction) (t u : RedBlackTree K V) (p x y : Handle) (k : Context)
      → ((j : ℕ) → 1 ≤ occurs_around j k → j ≢ p → u.nodes j ≡ t.nodes j)
      → u.root ≡ (if p == nil then y else t.root)
      → (p ≢ nil
          → u.nodes p ≡ (
              if child d (t.nodes p) == x
              then with_child d y (t.nodes p)
              else with_child (opposite d) y (t.nodes p)))
      → ((j : ℕ) → (if x == j then 1 else 0) + occurs_around j k ≤ (if j == nil then 0 else 1))
      → Around t p x k
      → Around u p y k
  Around-relink d t u p x y top f r g o a = (a.0, ground arith)
  Around-relink d t u p x y (down e q c s k) f r g o a =
      let gone : child (opposite e) (t.nodes q) ≢ x =
        λ z. ground (arith, o x, Links-occurs t q (child (opposite e) (t.nodes q)) s a.4) in
      let g' =
        subst
          (λ z. u.nodes z ≡ (
            if child d (t.nodes z) == x
            then with_child d y (t.nodes z)
            else with_child (opposite d) y (t.nodes z)))
          a.0 (g (omega (arith, a.0, a.1))) in
      let at : u.nodes q ≡ with_child e y (t.nodes q) =
        g' ∙ which_child d e (t.nodes q) x y a.3 gone in
      let w = with_child_lem e y (t.nodes q) in
      let off : (j : ℕ) → 1 ≤ occurs j s + occurs_around j k → u.nodes j ≡ t.nodes j =
        λ j i. f j (ground arith) (λ z. ground (arith, o j)) in
      (
        a.0,
        a.1,
        ap (λ m. m.color) at ∙ w.2 ∙ a.2,
        ap (child e) at ∙ w.0,
        subst (λ z. Links u q z s) (sym (ap (child (opposite e)) at ∙ w.1))
            (Links-frame t u q (child (opposite e) (t.nodes q)) s (λ j i. off j (omega arith)) a.4),
        subst (λ z. Around u z q k) (sym (ap (λ m. m.parent) at ∙ w.3))
            (Around-frame t u (t.nodes q).parent q k (r ∙ ground arith) (λ j i. off j (omega arith))
              a.5),
      )
