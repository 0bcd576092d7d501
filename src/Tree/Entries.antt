-- ===== src/Tree/Entries.antt =====
-- The list of entries under the tree's operations: lookups by key and by slot, order, and sums.
use Prim.Native.Nat.{Ordering}
use Prim.Native.Nat.Ordering.{lt, eq}
use clob_dex.Prelude.{
  ℕ, ◌+◌, ◌<◌, ◌≡◌, ◌≢◌, refl, Option, none, some, List, [], ◌∷◌, ◌==◌, if◌then◌else◌, All, sum_by,
  length, arith,
}
use clob_dex.Tree.{
  Entry, Handle, nil, value_at, set_at, drop_at, Distinct, Live, insert_entry, IsSorted,
}

module _ {K V : Type 0} where
  -- The value filed under `k`.
  abbrev pub value_of : (K → K → Ordering) → K → List (Entry K V) → Option V
  value_of cmp k [] = none
  value_of cmp k (e ∷ es) = elim (cmp k e.key) [ eq ↦ some e.value | _ ↦ value_of cmp k es ]

  abbrev pub set_of : (K → K → Ordering) → K → V → List (Entry K V) → List (Entry K V)
  set_of cmp k v [] = []
  set_of cmp k v (e ∷ es) = elim (cmp k e.key) [
    | eq ↦ record e { value = v } ∷ es
    | _ ↦ e ∷ set_of cmp k v es
  ]

  abbrev pub drop_of : (K → K → Ordering) → K → List (Entry K V) → List (Entry K V)
  drop_of cmp k [] = []
  drop_of cmp k (e ∷ es) = elim (cmp k e.key) [ eq ↦ es | _ ↦ e ∷ drop_of cmp k es ]

  -- Sums of values over slots.
  pub sum_by-set_at :
      (w : V → ℕ) (h : Handle) (v u : V) (es : List (Entry K V))
      → value_at h es ≡ some v
      → sum_by (λ e. w e.value) (set_at h u es) + w v ≡ sum_by (λ e. w e.value) es + w u
  sum_by-set_at w h v u [] p = ground arith
  sum_by-set_at w h v u (e ∷ es) p = ground (arith, sum_by-set_at w h v u es)

  pub value_at-set_at :
      (h j : Handle) (v u : V) (es : List (Entry K V))
      → value_at h es ≡ some v
      → value_at j (set_at h u es) ≡ (if h == j then some u else value_at j es)
  value_at-set_at h j v u [] p = ground arith
  value_at-set_at h j v u (e ∷ es) p = ground (arith, value_at-set_at h j v u es)

  pub set_at-All :
      (P : Entry K V → Type 0) (h : Handle) (u : V) (es : List (Entry K V))
      → ((e : Entry K V) → P e → P (record e { value = u }))
      → All P es
      → All P (set_at h u es)
  set_at-All P h u [] f a = tt
  set_at-All P h u (e ∷ es) f a = ground (arith, f e a.0, set_at-All P h u es f a.1)

  pub drop_at-All :
      (P : Entry K V → Type 0) (h : Handle) (es : List (Entry K V))
      → All P es
      → All P (drop_at h es)
  drop_at-All P h [] a = tt
  drop_at-All P h (e ∷ es) a = ground (arith, drop_at-All P h es a.1)

  pub sum_by-drop_at :
      (w : V → ℕ) (h : Handle) (v : V) (es : List (Entry K V))
      → value_at h es ≡ some v
      → sum_by (λ e. w e.value) (drop_at h es) + w v ≡ sum_by (λ e. w e.value) es
  sum_by-drop_at w h v [] p = ground arith
  sum_by-drop_at w h v (e ∷ es) p = ground (arith, sum_by-drop_at w h v es)

  pub value_at_absent :
      (h : Handle) (es : List (Entry K V)) → All (λ f. f.handle ≢ h) es → value_at h es ≡ none
  value_at_absent h [] a = refl
  value_at_absent h (e ∷ es) a = ground (arith, value_at_absent h es a.1)

  pub value_at-drop_at_self :
      (h : Handle) (es : List (Entry K V)) → Distinct es → value_at h (drop_at h es) ≡ none
  value_at-drop_at_self h [] d = refl
  value_at-drop_at_self h (e ∷ es) d =
      ground (arith, value_at_absent e.handle es d.0, value_at-drop_at_self h es d.1)

  pub value_at-drop_at_ne :
      (h j : Handle) (es : List (Entry K V)) → h ≢ j → value_at j (drop_at h es) ≡ value_at j es
  value_at-drop_at_ne h j [] n = refl
  value_at-drop_at_ne h j (e ∷ es) n = ground (arith, value_at-drop_at_ne h j es n)

  pub value_at-nil : (es : List (Entry K V)) → Live es → value_at nil es ≡ none
  value_at-nil [] l = refl
  value_at-nil (e ∷ es) l = ground (arith, value_at-nil es l.1)

  pub value_at-Live :
      (h : Handle) (v : V) (es : List (Entry K V))
      → Live es
      → value_at h es ≡ some v
      → (0 < h) × (h < 4294967296)
  value_at-Live h v [] l p = ground arith
  value_at-Live h v (e ∷ es) l p = ground (arith, value_at-Live h v es l.1)

  pub set_at-Distinct :
      (h : Handle) (u : V) (es : List (Entry K V)) → Distinct es → Distinct (set_at h u es)
  set_at-Distinct h u [] d = tt
  set_at-Distinct h u (e ∷ es) d = ground (
    arith,
    set_at-All (λ f. f.handle ≢ e.handle) h u es (λ f p. p) d.0,
    set_at-Distinct h u es d.1,
  )

  pub drop_at-Distinct :
      (h : Handle) (es : List (Entry K V)) → Distinct es → Distinct (drop_at h es)
  drop_at-Distinct h [] d = tt
  drop_at-Distinct h (e ∷ es) d =
      ground (arith, drop_at-All (λ f. f.handle ≢ e.handle) h es d.0, drop_at-Distinct h es d.1)

  pub length-set_at :
      (h : Handle) (u : V) (es : List (Entry K V)) → length (set_at h u es) ≡ length es
  length-set_at h u [] = refl
  length-set_at h u (e ∷ es) = ground (arith, length-set_at h u es)

module _ {K V : Type 0} (cmp : K → K → Ordering) where
  pub set_at-IsSorted :
      (h : Handle) (u : V) (es : List (Entry K V)) → IsSorted cmp es → IsSorted cmp (set_at h u es)
  set_at-IsSorted h u [] s = tt
  set_at-IsSorted h u (e ∷ es) s = ground (
    arith,
    set_at-All (λ f. cmp e.key f.key ≡ lt) h u es (λ f p. p) s.0,
    set_at-IsSorted h u es s.1,
  )

  pub drop_at-IsSorted :
      (h : Handle) (es : List (Entry K V)) → IsSorted cmp es → IsSorted cmp (drop_at h es)
  drop_at-IsSorted h [] s = tt
  drop_at-IsSorted h (e ∷ es) s =
      ground (arith, drop_at-All (λ f. cmp e.key f.key ≡ lt) h es s.0, drop_at-IsSorted h es s.1)

  pub insert_entry-All :
      (P : Entry K V → Type 0) (n : Entry K V) (es : List (Entry K V))
      → P n
      → All P es
      → All P (insert_entry cmp n es)
  insert_entry-All P n [] p a = (p, tt)
  insert_entry-All P n (e ∷ es) p a = ground (arith, insert_entry-All P n es p a.1)

  pub sum_by-insert_entry :
      (w : Entry K V → ℕ) (n : Entry K V) (es : List (Entry K V))
      → sum_by w (insert_entry cmp n es) ≡ sum_by w es + w n
  sum_by-insert_entry w n [] = ground arith
  sum_by-insert_entry w n (e ∷ es) = ground (arith, sum_by-insert_entry w n es)

  pub length-insert_entry :
      (n : Entry K V) (es : List (Entry K V)) → length (insert_entry cmp n es) ≡ length es + 1
  length-insert_entry n [] = ground arith
  length-insert_entry n (e ∷ es) = ground (arith, length-insert_entry n es)
