-- ===== src/Tree/Arena/Rotate.antt =====
-- crates/clob-book/src/tree/rotate.rs: what a rotation writes to each node.
use clob_dex.Prelude.{ℕ, ◌≡◌, ◌≢◌, ◌==◌, if◌then◌else◌, arith}
use clob_dex.Tree.{Handle, nil}
use clob_dex.Tree.Arena.{
  Direction, leftward, rightward, opposite, Node, RedBlackTree, child, rotate,
}

module _ {K V : Type 0} where
  abbrev pub with_child : Direction → Handle → Node K V → Node K V
  with_child leftward c n = record n { left = c }
  with_child rightward c n = record n { right = c }

  abbrev pub with_parent : Handle → Node K V → Node K V
  with_parent p n = record n { parent = p }

  module _ (t : RedBlackTree K V) (x y b p : Handle) where
    pub rotate-other :
        (d : Direction) (j : ℕ)
        → child (opposite d) (t.nodes x) ≡ y
        → child d (t.nodes y) ≡ b
        → (t.nodes x).parent ≡ p
        → x ≢ y
        → b ≢ x
        → j ≢ x
        → j ≢ y
        → j ≢ b
        → j ≢ p
        → (rotate d x t).nodes j ≡ t.nodes j
    unfolding rotate
    rotate-other leftward j ey eb ep xy bx jx jy jb jp = ground arith
    rotate-other rightward j ey eb ep xy bx jx jy jb jp = ground arith

    pub rotate-pivot :
        (d : Direction)
        → child (opposite d) (t.nodes x) ≡ y
        → child d (t.nodes y) ≡ b
        → (t.nodes x).parent ≡ p
        → x ≢ y
        → b ≢ x
        → p ≢ x
        → (rotate d x t).nodes x ≡ with_parent y (with_child (opposite d) b (t.nodes x))
    unfolding rotate
    rotate-pivot leftward ey eb ep xy bx px = ground arith
    rotate-pivot rightward ey eb ep xy bx px = ground arith

    pub rotate-child :
        (d : Direction)
        → child (opposite d) (t.nodes x) ≡ y
        → child d (t.nodes y) ≡ b
        → (t.nodes x).parent ≡ p
        → x ≢ y
        → b ≢ x
        → b ≢ y
        → p ≢ y
        → (rotate d x t).nodes y ≡ with_child d x (with_parent p (t.nodes y))
    unfolding rotate
    rotate-child leftward ey eb ep xy bx by py = ground arith
    rotate-child rightward ey eb ep xy bx by py = ground arith

    pub rotate-inner :
        (d : Direction)
        → child (opposite d) (t.nodes x) ≡ y
        → child d (t.nodes y) ≡ b
        → (t.nodes x).parent ≡ p
        → x ≢ y
        → b ≢ x
        → b ≢ y
        → b ≢ p
        → b ≢ nil
        → (rotate d x t).nodes b ≡ with_parent x (t.nodes b)
    unfolding rotate
    rotate-inner leftward ey eb ep xy bx by py pb = ground arith
    rotate-inner rightward ey eb ep xy bx by py pb = ground arith

    pub rotate-above :
        (d : Direction)
        → child (opposite d) (t.nodes x) ≡ y
        → child d (t.nodes y) ≡ b
        → (t.nodes x).parent ≡ p
        → x ≢ y
        → b ≢ x
        → p ≢ x
        → p ≢ y
        → b ≢ p
        → p ≢ nil
        → (rotate d x t).nodes p ≡ (
            if child d (t.nodes p) == x
            then with_child d y (t.nodes p)
            else with_child (opposite d) y (t.nodes p))
    unfolding rotate
    rotate-above leftward ey eb ep xy bx px py bp pn = ground arith
    rotate-above rightward ey eb ep xy bx px py bp pn = ground arith

    pub rotate-root :
        (d : Direction)
        → child (opposite d) (t.nodes x) ≡ y
        → child d (t.nodes y) ≡ b
        → (t.nodes x).parent ≡ p
        → x ≢ y
        → b ≢ x
        → (rotate d x t).root ≡ (if p == nil then y else t.root)
    unfolding rotate
    rotate-root leftward ey eb ep xy bx = ground arith
    rotate-root rightward ey eb ep xy bx = ground arith
