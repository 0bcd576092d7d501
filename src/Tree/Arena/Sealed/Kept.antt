-- ===== src/Tree/Arena/Sealed/Kept.antt =====
-- crates/clob-book/src/tree: the operations on sealed arenas.
use Prim.Native.Nat.{Ordering}
use clob_dex.Prelude.{
  ◌^◌, ◌<◌, ◌≡◌, refl, sym, ap, subst, ◌∙◌, Option, none, some, List, [], ◌∷◌, arith,
}
use mathlib.Core.Logic.{∥∥₁_elim}
use native.Mathlib.Nat.{ℕ_set}
use clob_dex.Tree.{Handle, IsLawful, value_at}
use clob_dex.Tree.Arena.{RedBlackTree, clear, set_by_handle}
use clob_dex.Tree.Arena.Insert.{insert}
use clob_dex.Tree.Arena.Insert.Correct.{insert-Inserts}
use clob_dex.Tree.Arena.Remove.{remove_handle}
use clob_dex.Tree.Arena.Remove.Correct.{Removes, remove_handle-Removes}
use clob_dex.Tree.Arena.Reach.{
  Held, inserted-Held, rewritten-IsSound, capacity-set, cleared-IsZeroed, zeroed-IsSound,
}
use clob_dex.Tree.Arena.Sealed.{
  Holds, IsSealed, IsSealed-prop, Arena, walked, walked_lem, sealed, sealed-none, sealed-some,
}
use clob_dex.Tree.Arena.Shape.{leaf}
use clob_dex.Tree.Arena.Sound.{contents}

module _ {K V : Type 0} {cmp : K → K → Ordering} (law : IsLawful cmp) where
  pub insert-capacity :
      (a : RedBlackTree K V) (k : K) (v : V) (h : Handle) (u : RedBlackTree K V)
      → Holds cmp a
      → insert cmp a k v ≡ some (h, u)
      → Held cmp law a.capacity u
  insert-capacity a k v h u (s, hs, w) e =
      inserted-Held cmp law a.capacity a u (contents a s) hs k v h (insert cmp a k v) refl
        (insert-Inserts cmp law a s hs k v w) e

  pub insert-IsSealed :
      (x : Arena K V cmp) (k : K) (v : V) (h : Handle) (u : RedBlackTree K V)
      → insert cmp x.0 k v ≡ some (h, u)
      → IsSealed cmp u
  insert-IsSealed x k v h u e = ∥∥₁_elim x.1.0 (IsSealed-prop cmp u) (λ p.
      let r = insert-capacity x.0 k v h u p e in
      (∣ (r.shape, r.free_slots, r.sound) ∣₁, subst (λ n. n < 2 ^ 32) (sym r.capacity) x.1.1))

  pub set-IsSealed : (x : Arena K V cmp) (h : Handle) (v : V) → IsSealed cmp (set_by_handle x.0 h v)
  set-IsSealed x h v = ∥∥₁_elim x.1.0 (IsSealed-prop cmp (set_by_handle x.0 h v)) (λ (s, hs, w). (
    ∣ (s, hs, (rewritten-IsSound cmp law x.0 s hs h v w).0) ∣₁,
    subst (λ n. n < 2 ^ 32) (sym (capacity-set x.0 h v)) x.1.1,
  ))

  pub removed :
      (a : RedBlackTree K V) (z : Handle) (v : V)
      → Holds cmp a
      → value_at z (walked a) ≡ some v
      → (hs : List Handle) × Removes cmp a (walked a) hs z (remove_handle a z)
  removed a z v (s, hs, w) e =
      let shown = walked_lem a s hs w in
      (
        hs,
        subst (λ es. Removes cmp a es hs z (remove_handle a z)) (sym shown)
            (remove_handle-Removes a s hs z v w (ap (value_at z) (sym shown) ∙ e)),
      )

  pub remove-IsSealed :
      (x : Arena K V cmp) (z : Handle) (v : V) (u : RedBlackTree K V)
      → value_at z (walked x.0) ≡ some v
      → (remove_handle x.0 z).1 ≡ some u
      → IsSealed cmp u
  remove-IsSealed x z v u live e = ∥∥₁_elim x.1.0 (IsSealed-prop cmp u) (λ p.
      let (hs, r) = removed x.0 z v p live in
      let same : r.arena ≡ u = ground (arith, r.returned, e) in
      subst (IsSealed cmp) same
        (∣ (r.shape, z ∷ hs, r.sound) ∣₁, subst (λ n. n < 2 ^ 32) (sym r.capacity) x.1.1))

  pub clear-IsSealed : (x : Arena K V cmp) → IsSealed cmp (clear x.0)
  clear-IsSealed x =
      let z = cleared-IsZeroed x.0 in
      (∣ (leaf, [], zeroed-IsSound (clear x.0) z.0) ∣₁, subst (λ n. n < 2 ^ 32) (sym z.1) x.1.1)

  unfoldable pub sealed_insert : Arena K V cmp → K → V → Option (Handle × Arena K V cmp)
  sealed_insert x k v = sealed (insert cmp x.0 k v) (insert-IsSealed x k v)

  -- The arena that a removal leaves. The last case is the one that `remove_handle-Removes` excludes.
  left_behind :
      (x : Arena K V cmp) (o : Option (RedBlackTree K V))
      → ((u : RedBlackTree K V) → o ≡ some u → IsSealed cmp u)
      → Arena K V cmp
  left_behind x (some u) p = (u, p u refl)
  left_behind x none p = x

  remove_live :
      (x : Arena K V cmp) (z : Handle) (o : Option V) → value_at z (walked x.0) ≡ o → Arena K V cmp
  remove_live x z (some v) e =
      left_behind x (remove_handle x.0 z).1 (λ u q. remove-IsSealed x z v u e q)
  remove_live x z none e = x

  -- A handle of no entry is not for the caller to give: here it changes nothing.
  pub sealed_remove : Arena K V cmp → Handle → V × Arena K V cmp
  sealed_remove x z = ((remove_handle x.0 z).0, remove_live x z (value_at z (walked x.0)) refl)

  left_behind-some :
      (x : Arena K V cmp) (o : Option (RedBlackTree K V))
      (p : (u : RedBlackTree K V) → o ≡ some u → IsSealed cmp u) (u : RedBlackTree K V)
      → o ≡ some u
      → (left_behind x o p).0 ≡ u
  unfolding left_behind
  left_behind-some x none p u e = cc
  left_behind-some x (some w) p u e = ground (arith, e)

  remove_live-some :
      (x : Arena K V cmp) (z : Handle) (o : Option V) (e : value_at z (walked x.0) ≡ o) (v : V)
      (u : RedBlackTree K V)
      → o ≡ some v
      → (remove_handle x.0 z).1 ≡ some u
      → (remove_live x z o e).0 ≡ u
  unfolding remove_live
  remove_live-some x z none e v u q r = cc
  remove_live-some x z (some w) e v u q r =
      left_behind-some x (remove_handle x.0 z).1 (λ u q. remove-IsSealed x z w u e q) u r

  -- On the handle of an entry it is the removal of the arena.
  pub sealed_remove-arena :
      (x : Arena K V cmp) (z : Handle) (v : V) (u : RedBlackTree K V)
      → value_at z (walked x.0) ≡ some v
      → (remove_handle x.0 z).1 ≡ some u
      → (sealed_remove x z).1.0 ≡ u
  unfolding sealed_remove
  sealed_remove-arena x z v u e r = remove_live-some x z (value_at z (walked x.0)) refl v u e r

  left_behind-capacity :
      (x : Arena K V cmp) (o : Option (RedBlackTree K V))
      (p : (u : RedBlackTree K V) → o ≡ some u → IsSealed cmp u)
      → ((u : RedBlackTree K V) → o ≡ some u → u.capacity ≡ x.0.capacity)
      → (left_behind x o p).0.capacity ≡ x.0.capacity
  unfolding left_behind
  left_behind-capacity x none p q = refl
  left_behind-capacity x (some u) p q = q u refl

  remove_live-capacity :
      (x : Arena K V cmp) (z : Handle) (o : Option V) (e : value_at z (walked x.0) ≡ o)
      → (remove_live x z o e).0.capacity ≡ x.0.capacity
  unfolding remove_live
  remove_live-capacity x z none e = refl
  remove_live-capacity x z (some v) e =
      left_behind-capacity x (remove_handle x.0 z).1 (λ u q. remove-IsSealed x z v u e q)
        (λ u q. ∥∥₁_elim x.1.0 (ℕ_set u.capacity x.0.capacity) (λ p.
          let (hs, r) = removed x.0 z v p e in
          let same : r.arena ≡ u = ground (arith, r.returned, q) in
          ap (λ n. n.capacity) (sym same) ∙ r.capacity))

  pub sealed_remove-capacity :
      (x : Arena K V cmp) (z : Handle) → (sealed_remove x z).1.0.capacity ≡ x.0.capacity
  unfolding sealed_remove
  sealed_remove-capacity x z = remove_live-capacity x z (value_at z (walked x.0)) refl

  pub sealed_insert-none :
      (x : Arena K V cmp) (k : K) (v : V) → insert cmp x.0 k v ≡ none → sealed_insert x k v ≡ none
  unfolding sealed_insert
  sealed_insert-none x k v e = sealed-none (insert cmp x.0 k v) (insert-IsSealed x k v) e

  pub sealed_insert-some :
      (x : Arena K V cmp) (k : K) (v : V) (h : Handle) (y : Arena K V cmp)
      → insert cmp x.0 k v ≡ some (h, y.0)
      → sealed_insert x k v ≡ some (h, y)
  unfolding sealed_insert
  sealed_insert-some x k v h y e = sealed-some (insert cmp x.0 k v) (insert-IsSealed x k v) h y e

  pub sealed_remove-value :
      (x : Arena K V cmp) (z : Handle) → (sealed_remove x z).0 ≡ (remove_handle x.0 z).0
  unfolding sealed_remove
  sealed_remove-value x z = refl
