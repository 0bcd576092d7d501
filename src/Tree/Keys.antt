-- ===== src/Tree/Keys.antt =====
-- The list of entries seen by key: lookups, writes, removals and their sums.
use Prim.Native.Nat.{Ordering}
use Prim.Native.Nat.Ordering.{eq}
use clob_dex.Prelude.{
  ℕ, ◌+◌, ◌<◌, ◌≡◌, ◌≢◌, refl, none, some, List, [], ◌∷◌, All, All-imp, sum_by, length, arith,
}
use clob_dex.Tree.{
  Entry, Handle, nil, value_at, set_at, drop_at, Distinct, Live, find_key, insert_entry, IsSorted,
  IsLawful,
}
use clob_dex.Tree.Entries.{value_of, set_of, drop_of}

module _ {K V : Type 0} (cmp : K → K → Ordering) where
  pub find_key-none :
      (k : K) (es : List (Entry K V)) → Live es → find_key cmp k es ≡ nil → value_of cmp k es ≡ none
  find_key-none k [] l p = refl
  find_key-none k (e ∷ es) l p = ground (arith, find_key-none k es l.1)

  pub find_key_absent :
      (k : K) (es : List (Entry K V)) → value_of cmp k es ≡ none → find_key cmp k es ≡ nil
  find_key_absent k [] p = refl
  find_key_absent k (e ∷ es) p = ground (arith, find_key_absent k es)

  pub find_key-Live :
      (k : K) (v : V) (es : List (Entry K V))
      → Live es
      → value_of cmp k es ≡ some v
      → 0 < find_key cmp k es
  find_key-Live k v [] l p = ground arith
  find_key-Live k v (e ∷ es) l p = ground (arith, find_key-Live k v es l.1)

  find_key-ne :
      (h : Handle) (k : K) (v : V) (es : List (Entry K V))
      → All (λ f. f.handle ≢ h) es
      → value_of cmp k es ≡ some v
      → find_key cmp k es ≢ h
  find_key-ne h k v [] a p = ground arith
  find_key-ne h k v (e ∷ es) a p = ground (arith, find_key-ne h k v es a.1)

  -- The slot that a key is found in holds the value filed under it.
  pub value_at-find_key :
      (k : K) (v : V) (es : List (Entry K V))
      → Distinct es
      → value_of cmp k es ≡ some v
      → value_at (find_key cmp k es) es ≡ some v
  value_at-find_key k v [] d p = ground arith
  value_at-find_key k v (e ∷ es) d p =
      ground (arith, value_at-find_key k v es d.1, find_key-ne e.handle k v es d.0)

  pub set_at-find_key :
      (k : K) (v u : V) (es : List (Entry K V))
      → Distinct es
      → value_of cmp k es ≡ some v
      → set_at (find_key cmp k es) u es ≡ set_of cmp k u es
  set_at-find_key k v u [] d p = ground arith
  set_at-find_key k v u (e ∷ es) d p =
      ground (arith, set_at-find_key k v u es d.1, find_key-ne e.handle k v es d.0)

  pub drop_at-find_key :
      (k : K) (v : V) (es : List (Entry K V))
      → Distinct es
      → value_of cmp k es ≡ some v
      → drop_at (find_key cmp k es) es ≡ drop_of cmp k es
  drop_at-find_key k v [] d p = ground arith
  drop_at-find_key k v (e ∷ es) d p =
      ground (arith, drop_at-find_key k v es d.1, find_key-ne e.handle k v es d.0)

  pub length-set_of :
      (k : K) (u : V) (es : List (Entry K V)) → length (set_of cmp k u es) ≡ length es
  length-set_of k u [] = refl
  length-set_of k u (e ∷ es) = ground (arith, length-set_of k u es)

  pub length-drop_of :
      (k : K) (v : V) (es : List (Entry K V))
      → value_of cmp k es ≡ some v
      → length (drop_of cmp k es) + 1 ≡ length es
  length-drop_of k v [] p = ground arith
  length-drop_of k v (e ∷ es) p = ground (arith, length-drop_of k v es)

  pub set_of-All :
      (P : Entry K V → Type 0) (k : K) (u : V) (es : List (Entry K V))
      → ((e : Entry K V) → P e → P (record e { value = u }))
      → All P es
      → All P (set_of cmp k u es)
  set_of-All P k u [] f a = tt
  set_of-All P k u (e ∷ es) f a = ground (arith, f e a.0, set_of-All P k u es f a.1)

  pub drop_of-All :
      (P : Entry K V → Type 0) (k : K) (es : List (Entry K V)) → All P es → All P (drop_of cmp k es)
  drop_of-All P k [] a = tt
  drop_of-All P k (e ∷ es) a = ground (arith, drop_of-All P k es a.1)

module _ {K V : Type 0} {cmp : K → K → Ordering} (law : IsLawful cmp) where
  -- Sums over entries by key and value.
  pub sum_by-set_of :
      (w : K → V → ℕ) (k : K) (v u : V) (es : List (Entry K V))
      → value_of cmp k es ≡ some v
      → sum_by (λ e. w e.key e.value) (set_of cmp k u es) + w k v
        ≡ sum_by (λ e. w e.key e.value) es + w k u
  sum_by-set_of w k v u [] p = ground arith
  sum_by-set_of w k v u (e ∷ es) p = ground (arith, sum_by-set_of w k v u es, law.eq_of_cmp k e.key)

  pub sum_by-drop_of :
      (w : K → V → ℕ) (k : K) (v : V) (es : List (Entry K V))
      → value_of cmp k es ≡ some v
      → sum_by (λ e. w e.key e.value) (drop_of cmp k es) + w k v ≡ sum_by (λ e. w e.key e.value) es
  sum_by-drop_of w k v [] p = ground arith
  sum_by-drop_of w k v (e ∷ es) p = ground (arith, sum_by-drop_of w k v es, law.eq_of_cmp k e.key)

  pub All-value_of :
      (P : K → V → Type 0) (k : K) (v : V) (es : List (Entry K V))
      → All (λ e. P e.key e.value) es
      → value_of cmp k es ≡ some v
      → P k v
  All-value_of P k v [] a p = ground arith
  All-value_of P k v (e ∷ es) a p = ground (arith, All-value_of P k v es a.1, law.eq_of_cmp k e.key)

  -- A key larger than all others is not among them.
  pub value_of_above :
      (k : K) (es : List (Entry K V)) → All (λ f. cmp k f.key ≢ eq) es → value_of cmp k es ≡ none
  value_of_above k [] a = refl
  value_of_above k (e ∷ es) a = ground (arith, value_of_above k es a.1)

  pub value_of-set_of_self :
      (k : K) (v u : V) (es : List (Entry K V))
      → value_of cmp k es ≡ some v
      → value_of cmp k (set_of cmp k u es) ≡ some u
  value_of-set_of_self k v u [] p = ground arith
  value_of-set_of_self k v u (e ∷ es) p = ground (arith, value_of-set_of_self k v u es)

  pub value_of-set_of_ne :
      (k j : K) (u : V) (es : List (Entry K V))
      → k ≢ j
      → value_of cmp j (set_of cmp k u es) ≡ value_of cmp j es
  value_of-set_of_ne k j u [] n = refl
  value_of-set_of_ne k j u (e ∷ es) n =
      ground (arith, value_of-set_of_ne k j u es n, law.eq_of_cmp k e.key, law.eq_of_cmp j e.key)

  pub value_of-drop_of_ne :
      (k j : K) (es : List (Entry K V))
      → k ≢ j
      → value_of cmp j (drop_of cmp k es) ≡ value_of cmp j es
  value_of-drop_of_ne k j [] n = refl
  value_of-drop_of_ne k j (e ∷ es) n =
      ground (arith, value_of-drop_of_ne k j es n, law.eq_of_cmp k e.key, law.eq_of_cmp j e.key)

  pub value_of-drop_of_self :
      (k : K) (es : List (Entry K V)) → IsSorted cmp es → value_of cmp k (drop_of cmp k es) ≡ none
  value_of-drop_of_self k [] s = refl
  value_of-drop_of_self k (e ∷ es) s = ground (
    arith,
    law.eq_of_cmp k e.key,
    value_of-drop_of_self k es s.1,
    value_of_above e.key es (All-imp (λ f p q. cc) es s.0),
  )

  pub value_of-insert_entry_self :
      (n : Entry K V) (es : List (Entry K V))
      → value_of cmp n.key es ≡ none
      → value_of cmp n.key (insert_entry cmp n es) ≡ some n.value
  value_of-insert_entry_self n [] p = ground (arith, law.cmp-refl n.key)
  value_of-insert_entry_self n (e ∷ es) p =
      ground (arith, law.cmp-refl n.key, value_of-insert_entry_self n es)

  pub value_of-insert_entry_ne :
      (n : Entry K V) (j : K) (es : List (Entry K V))
      → n.key ≢ j
      → value_of cmp j (insert_entry cmp n es) ≡ value_of cmp j es
  value_of-insert_entry_ne n j [] p = ground (arith, law.eq_of_cmp j n.key)
  value_of-insert_entry_ne n j (e ∷ es) p =
      ground (arith, law.eq_of_cmp j n.key, value_of-insert_entry_ne n j es p)
