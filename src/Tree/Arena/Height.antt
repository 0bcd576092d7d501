-- ===== src/Tree/Arena/Height.antt =====
-- crates/clob-book/src/tree/mod.rs: the height of a balanced tree, which bounds every descent.
use Prim.Native.Nat.{compare, Ordering}
use clob_dex.Prelude.{ℕ, zero, suc, ◌+◌, ◌*◌, ◌^◌, ◌≤◌, ◌<◌, ◌≡◌, refl, arith, List}
use native.Mathlib.Decide.{dec_lt}
use native.Mathlib.Nat.{pow-le-pow_right}
use native.Mathlib.Numerals.{towards_suc}
use clob_dex.Tree.{Handle}
use clob_dex.Tree.Arena.{black, RedBlackTree}
use clob_dex.Tree.Arena.Shape.{Shape, leaf, fork, size}
use clob_dex.Tree.Arena.Sound.{IsSound}
use clob_dex.Tree.Arena.Balanced.{root_color, black_height, Balanced}

larger : ℕ → ℕ → ℕ
larger a b = elim (compare a b) [ Ordering.lt ↦ b | _ ↦ a ]

larger_lub : (a b m d : ℕ) → a + d ≤ m → b + d ≤ m → larger a b + d ≤ m
unfolding larger
larger_lub a b m d p q = ground arith

-- The nodes on the longest path to a leaf.
pub height : Shape → ℕ
unfolding larger
height leaf = 0
height (fork c l x r) = suc (larger (height l) (height r))

-- A black root makes the bound one better.
height-le : (s : Shape) → Balanced s → height s + 1 + root_color s ≤ 2 * black_height s
unfolding height
height-le leaf b = omega arith
height-le (fork zero l x r) b =
    let hl = height-le l b.3 in
    let hr = height-le r b.4 in
    let c = b.1 refl in
    omega (
      arith,
      larger_lub (height l) (height r) (2 * black_height l) 2 (omega (arith, c.0))
          (omega (arith, c.1, b.2)),
    )
height-le (fork (suc c) l x r) b =
    let hl = height-le l b.3 in
    let hr = height-le r b.4 in
    let e : c ≡ 0 = omega (arith, b.0) in
    let m =
      larger_lub (height l) (height r) (2 * black_height l) 1 (omega arith) (omega (arith, b.2)) in
    rw e (omega (arith, m))

add_zero : (n : ℕ) → n + 0 ≡ n
add_zero n = omega arith

pow_suc : (n : ℕ) → 2 ^ (n + 1) ≡ 2 * 2 ^ n
pow_suc n = simp towards_suc (omega arith)

size-ge : (s : Shape) → Balanced s → 2 ^ black_height s ≤ 2 * (size s + 1)
size-ge leaf b = omega arith
size-ge (fork zero l x r) b =
    let sl = size-ge l b.3 in rw (add_zero (black_height l)) (omega (arith, sl))
size-ge (fork (suc c) l x r) b =
    let sl = size-ge l b.3 in
    let sr : 2 ^ black_height l ≤ 2 * (size r + 1) = rw b.2 (size-ge r b.4) in
    let e : c ≡ 0 = omega (arith, b.0) in rw (e, pow_suc (black_height l)) (omega (arith, sl, sr))

exponent_lt : (a b : ℕ) → 2 ^ a < 2 ^ b → a < b
exponent_lt a b h = elim (dec_lt a b) [
  | yes p ↦ p
  | no p ↦
      absurd (omega (arith, pow-le-pow_right {n = 2} (omega arith) {i = b} {j = a} (omega arith)))
]

-- A balanced tree of fewer than `2 ^ (n + 1) - 1` nodes has a height of at most `2 * n`.
height_bound :
    (s : Shape) (n : ℕ)
    → Balanced s
    → root_color s ≡ black
    → size s + 1 < 2 ^ (n + 1)
    → height s ≤ 2 * n
height_bound s n b r h =
    let few =
      exponent_lt (black_height s) (n + 1 + 1)
        (rw (pow_suc (n + 1)) (omega (arith, size-ge s b))) in
    omega (arith, height-le s b)

module _ {K V : Type 0} {cmp : K → K → Ordering} where
  -- In a sound arena of fewer than 2^(n+1) - 1 nodes, no path from the root has more than 2 * n
  -- nodes.
  pub descent_bound :
      (t : RedBlackTree K V) (s : Shape) (hs : List Handle) (n : ℕ)
      → IsSound cmp t s hs
      → t.len + 1 < 2 ^ (n + 1)
      → height s ≤ 2 * n
  descent_bound t s hs n w m =
      height_bound s n w.balanced w.root_black (omega (arith, w.len_lem, m))
