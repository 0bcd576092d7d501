-- ===== src/Tree/Arena/Sealed.antt =====
-- crates/clob-book/src/tree: a sound arena as one value. Which tree and which free slots it holds is
-- hidden, so two of them are equal when their bytes are.
pub mod Kept
pub mod Order
pub mod Reads
pub mod Filled
use Prim.Native.Nat.{Ordering}
use clob_dex.Prelude.{
  ℕ, suc, ◌+◌, ◌^◌, ◌<◌, ◌≤◌, ◌≡◌, ◌≢◌, refl, sym, ap, subst, ◌∙◌, Option, none, some, List, [],
  ◌∷◌, arith,
}
use mathlib.Core.Logic.{∥∥₁_elim}
use mathlib.Core.HLevel.{Σ_prop_path}
use native.Mathlib.Bridge.{le_prop}
use clob_dex.Tree.{Handle, nil, Entry, IsLawful, find_key, value_at, set_at, drop_at}
use clob_dex.Tree.Arena.{RedBlackTree, rightward, clear, set_by_handle, find}
use clob_dex.Tree.Arena.Insert.{insert}
use clob_dex.Tree.Arena.Insert.Correct.{Inserts, insert-Inserts, overwrites, refuses, adds}
use clob_dex.Tree.Arena.Remove.{remove_handle}
use clob_dex.Tree.Arena.Remove.Correct.{remove_handle-Removes}
use clob_dex.Tree.Arena.Iter.{iter, collect}
use clob_dex.Tree.Arena.Iter.Walk.{iter_lem}
use clob_dex.Tree.Arena.Shape.{Shape}
use clob_dex.Tree.Arena.Sound.{IsSound, contents}

module _ {K V : Type 0} where
  -- What the ascending iterator yields.
  pub walked : RedBlackTree K V → List (Entry K V)
  walked a = (collect (suc a.len) rightward a (iter a)).0

module _ {K V : Type 0} (cmp : K → K → Ordering) where
  abbrev pub Holds : RedBlackTree K V → Type 0
  Holds a = (s : Shape) × (hs : List Handle) × IsSound cmp a s hs

  -- A handle is a u32.
  abbrev pub IsSealed : RedBlackTree K V → Type 0
  IsSealed a = ∥ Holds a ∥₁ × (a.capacity < 2 ^ 32)

  IsSealed-prop : (a : RedBlackTree K V) → IsProp (IsSealed a)
  IsSealed-prop a = hlevel le_prop

abbrev pub Arena : (K V : Type 0) → (K → K → Ordering) → Type 0
Arena K V cmp = (a : RedBlackTree K V) × IsSealed cmp a

module _ {K V : Type 0} {cmp : K → K → Ordering} where
  pub Arena-ext : (x y : Arena K V cmp) → x.0 ≡ y.0 → x ≡ y
  Arena-ext x y e = Σ_prop_path (IsSealed-prop cmp) e

  pub walked_lem :
      (a : RedBlackTree K V) (s : Shape) (hs : List Handle)
      → IsSound cmp a s hs
      → walked a ≡ contents a s
  unfolding walked
  walked_lem a s hs w = ap (λ m. m.0) (iter_lem a s hs w).0

  -- The answer of an insertion, with the arena sealed.
  unfoldable pub sealed :
      (o : Option (Handle × RedBlackTree K V))
      → ((h : Handle) (u : RedBlackTree K V) → o ≡ some (h, u) → IsSealed cmp u)
      → Option (Handle × Arena K V cmp)
  sealed none p = none
  sealed (some (h, u)) p = some (h, (u, p h u refl))

  pub sealed-none :
      (o : Option (Handle × RedBlackTree K V))
      (p : (h : Handle) (u : RedBlackTree K V) → o ≡ some (h, u) → IsSealed cmp u)
      → o ≡ none
      → sealed o p ≡ none
  unfolding sealed
  sealed-none none p e = refl
  sealed-none (some x) p e = cc

  pub sealed-some :
      (o : Option (Handle × RedBlackTree K V))
      (p : (h : Handle) (u : RedBlackTree K V) → o ≡ some (h, u) → IsSealed cmp u) (h : Handle)
      (x : Arena K V cmp)
      → o ≡ some (h, x.0)
      → sealed o p ≡ some (h, x)
  unfolding sealed
  sealed-some none p h x e = cc
  sealed-some (some (j, u)) p h x e =
      let same : u ≡ x.0 = ground (arith, e) in
      let top : j ≡ h = ground (arith, e) in
      ap (λ z. some (j, z)) (Arena-ext (u, p j u refl) x same) ∙ ap (λ n. some (n, x)) top
