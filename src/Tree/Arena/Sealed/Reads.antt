-- ===== src/Tree/Arena/Sealed/Reads.antt =====
-- crates/clob-book/src/tree: what a sealed arena's iterator shows after each operation.
use Prim.Native.Nat.{Ordering}
use clob_dex.Prelude.{
  ◌<◌, ◌≤◌, ◌≡◌, ◌≢◌, refl, sym, ap, subst, ◌∙◌, Option, none, some, List, [], ◌∷◌, arith, length,
}
use mathlib.Core.Logic.{∥∥₁_elim}
use native.Mathlib.Nat.{ℕ_set}
use clob_dex.Tree.{
  Handle, nil, Entry, IsLawful, find_key, value_at, set_at, drop_at, least, greatest, insert_entry,
}
use clob_dex.Tree.Arena.{RedBlackTree, clear, set_by_handle, get_by_handle, find, first, last}
use clob_dex.Tree.Arena.Insert.{insert}
use clob_dex.Tree.Arena.Insert.Correct.{
  Inserts, insert-Inserts, overwrites, refuses, adds, length-contents,
}
use clob_dex.Tree.Arena.Remove.{remove_handle}
use clob_dex.Tree.Arena.Remove.Correct.{listed-live}
use clob_dex.Tree.Arena.Reach.{rewritten-IsSound, cleared-IsZeroed, zeroed-IsSound}
use clob_dex.Tree.Arena.Lookup.{find_lem, ends_lem}
use clob_dex.Tree.Arena.Sealed.{Holds, Arena, walked, walked_lem}
use clob_dex.Tree.Arena.Sealed.Kept.{removed, sealed_remove, sealed_remove-arena}
use clob_dex.Tree.Arena.Shape.{leaf, inorder}
use clob_dex.Tree.Arena.Sound.{occurs-inorder}

module _ {K V : Type 0} {cmp : K → K → Ordering} (law : IsLawful cmp) (keys : IsSet K)
    (values : IsSet V) where
  Entries-set : IsSet (List (Entry K V))
  Entries-set = hlevel (keys, values, ℕ_set)

  Arenas-set : IsSet (RedBlackTree K V)
  Arenas-set = hlevel (keys, values, ℕ_set)

  Inserted-set : IsSet (Option (Handle × RedBlackTree K V))
  Inserted-set = hlevel (Arenas-set, ℕ_set)

  Value-set : IsSet (Option V)
  Value-set = hlevel values

  Entry-set : IsSet (Option (Entry K V))
  Entry-set = hlevel (keys, values, ℕ_set)

  -- A fact of the hidden tree that has one proof at most.
  opened : (x : Arena K V cmp) {P : Type 0} → IsProp P → (Holds cmp x.0 → P) → P
  opened x p f = ∥∥₁_elim x.1.0 p f

  pub len-walked : (x : Arena K V cmp) → x.0.len ≡ length (walked x.0)
  len-walked x = opened x (ℕ_set _ _) (λ (s, hs, w).
      w.len_lem ∙ sym (length-contents x.0 s) ∙ ap length (sym (walked_lem x.0 s hs w)))

  pub find-walked : (x : Arena K V cmp) (k : K) → find cmp x.0 k ≡ find_key cmp k (walked x.0)
  find-walked x k = opened x (ℕ_set _ _) (λ (s, hs, w).
      find_lem cmp law x.0 s hs k w ∙ ap (find_key cmp k) (sym (walked_lem x.0 s hs w)))

  pub get-nil : (a : RedBlackTree K V) → get_by_handle a nil ≡ none
  unfolding get_by_handle
  get-nil a = refl

  get_live :
      (a : RedBlackTree K V) (h : Handle) (v : V)
      → h ≢ nil
      → (a.nodes h).value ≡ v
      → get_by_handle a h ≡ some v
  unfolding get_by_handle
  get_live a h v n e = ground (arith, n, e)

  pub get-walked :
      (x : Arena K V cmp) (h : Handle) (v : V)
      → value_at h (walked x.0) ≡ some v
      → get_by_handle x.0 h ≡ some v
  get-walked x h v e = opened x (Value-set _ _) (λ (s, hs, w).
      let live =
        listed-live x.0 h (inorder s) v (ap (value_at h) (sym (walked_lem x.0 s hs w)) ∙ e) in
      get_live x.0 h v (ground (arith, w.once h, occurs-inorder h s, live.0)) live.1)

  pub walked-set :
      (x : Arena K V cmp) (h : Handle) (v : V)
      → walked (set_by_handle x.0 h v) ≡ set_at h v (walked x.0)
  walked-set x h v = opened x (Entries-set _ _) (λ (s, hs, w).
      let r = rewritten-IsSound cmp law x.0 s hs h v w in
      walked_lem (set_by_handle x.0 h v) s hs r.0
      ∙ r.1
      ∙ ap (set_at h v) (sym (walked_lem x.0 s hs w)))

  pub first-walked : (x : Arena K V cmp) → first x.0 ≡ least (walked x.0)
  first-walked x =
      opened x (Entry-set _ _)
        (λ (s, hs, w). (ends_lem x.0 s hs w).0 ∙ ap least (sym (walked_lem x.0 s hs w)))

  pub last-walked : (x : Arena K V cmp) → last x.0 ≡ greatest (walked x.0)
  last-walked x =
      opened x (Entry-set _ _)
        (λ (s, hs, w). (ends_lem x.0 s hs w).1 ∙ ap greatest (sym (walked_lem x.0 s hs w)))

  pub walked-clear : (a : RedBlackTree K V) → walked (clear a) ≡ []
  walked-clear a =
      walked_lem (clear a) leaf [] (zeroed-IsSound {cmp = cmp} (clear a) (cleared-IsZeroed a).0)

  pub remove-value :
      (x : Arena K V cmp) (h : Handle) (v : V)
      → value_at h (walked x.0) ≡ some v
      → (remove_handle x.0 h).0 ≡ v
  remove-value x h v e =
      opened x (values _ _)
        (λ p. let (hs, r) = removed law x.0 h v p e in ground (arith, r.value_lem, e))

  pub walked-remove :
      (x : Arena K V cmp) (h : Handle) (v : V)
      → value_at h (walked x.0) ≡ some v
      → walked (sealed_remove law x h).1.0 ≡ drop_at h (walked x.0)
  walked-remove x h v e = opened x (Entries-set _ _) (λ p.
      let (hs, r) = removed law x.0 h v p e in
      ap walked (sealed_remove-arena law x h v r.arena e r.returned)
      ∙ walked_lem r.arena r.shape (h ∷ hs) r.sound
      ∙ r.left_lem)

  -- What an insertion answers, by the entries before it.
  answer_found :
      (a : RedBlackTree K V) (es : List (Entry K V)) (hs : List Handle) (k : K) (v : V)
      (o : Option (Handle × RedBlackTree K V))
      → Inserts cmp law a es hs k v o
      → find_key cmp k es ≢ nil
      → o ≡ some (find_key cmp k es, set_by_handle a (find_key cmp k es) v)
  answer_found a es hs k v o (overwrites h u s f i w e d) n = ground (arith, f, d)
  answer_found a es hs k v o (refuses f m) n = absurd (n f)
  answer_found a es hs k v o (adds h u s js f m w e d) n = absurd (n f)

  answer_full :
      (a : RedBlackTree K V) (es : List (Entry K V)) (hs : List Handle) (k : K) (v : V)
      (o : Option (Handle × RedBlackTree K V))
      → Inserts cmp law a es hs k v o
      → find_key cmp k es ≡ nil
      → a.capacity ≤ length es
      → o ≡ none
  answer_full a es hs k v o (overwrites h u s f i w e d) n m = absurd (i (sym f ∙ n))
  answer_full a es hs k v o (refuses f c) n m = refl
  answer_full a es hs k v o (adds h u s js f c w e d) n m = absurd (omega arith)

  answer_room :
      (a : RedBlackTree K V) (es : List (Entry K V)) (hs : List Handle) (k : K) (v : V)
      (o : Option (Handle × RedBlackTree K V))
      → Inserts cmp law a es hs k v o
      → find_key cmp k es ≡ nil
      → length es < a.capacity
      → o ≢ none
  answer_room a es hs k v o (overwrites h u s f i w e d) n m q = cc
  answer_room a es hs k v o (refuses f c) n m q = absurd (omega arith)
  answer_room a es hs k v o (adds h u s js f c w e d) n m q = cc

  answer_new :
      (a : RedBlackTree K V) (es : List (Entry K V)) (hs : List Handle) (k : K) (v : V)
      (o : Option (Handle × RedBlackTree K V)) (h : Handle) (u : RedBlackTree K V)
      → Inserts cmp law a es hs k v o
      → find_key cmp k es ≡ nil
      → o ≡ some (h, u)
      → (walked u ≡ insert_entry cmp (record { handle = h; key = k; value = v }) es)
        × (u.capacity ≡ a.capacity)
  answer_new a es hs k v o h u (overwrites g x s f i w e d) n q = absurd (i (sym f ∙ n))
  answer_new a es hs k v o h u (refuses f c) n q = cc
  answer_new a es hs k v o h u (adds g x s js f c w e d) n q =
      let same : x ≡ u = ground (arith, q) in
      let top : g ≡ h = ground (arith, q) in
      (
        ap walked (sym same)
            ∙ walked_lem x s js w
            ∙ e
            ∙ ap (λ j. insert_entry cmp (record { handle = j; key = k; value = v }) es) top,
        ap (λ z. z.capacity) (sym same) ∙ d,
      )

  shown_insert :
      (x : Arena K V cmp) (k : K) (v : V)
      → Holds cmp x.0
      → (hs : List Handle) × Inserts cmp law x.0 (walked x.0) hs k v (insert cmp x.0 k v)
  shown_insert x k v (s, hs, w) = (
    hs,
    subst (λ es. Inserts cmp law x.0 es hs k v (insert cmp x.0 k v)) (sym (walked_lem x.0 s hs w))
        (insert-Inserts cmp law x.0 s hs k v w),
  )

  pub insert-found :
      (x : Arena K V cmp) (k : K) (v : V)
      → find_key cmp k (walked x.0) ≢ nil
      → insert cmp x.0 k v
        ≡ some (find_key cmp k (walked x.0), set_by_handle x.0 (find_key cmp k (walked x.0)) v)
  insert-found x k v n = opened x (Inserted-set _ _) (λ p.
      let (hs, r) = shown_insert x k v p in
      answer_found x.0 (walked x.0) hs k v (insert cmp x.0 k v) r n)

  pub insert-full :
      (x : Arena K V cmp) (k : K) (v : V)
      → find_key cmp k (walked x.0) ≡ nil
      → x.0.capacity ≤ length (walked x.0)
      → insert cmp x.0 k v ≡ none
  insert-full x k v n m = opened x (Inserted-set _ _) (λ p.
      let (hs, r) = shown_insert x k v p in
      answer_full x.0 (walked x.0) hs k v (insert cmp x.0 k v) r n m)

  pub insert-room :
      (x : Arena K V cmp) (k : K) (v : V)
      → find_key cmp k (walked x.0) ≡ nil
      → length (walked x.0) < x.0.capacity
      → insert cmp x.0 k v ≢ none
  insert-room x k v n m = opened x (hlevel) (λ p.
      let (hs, r) = shown_insert x k v p in
      answer_room x.0 (walked x.0) hs k v (insert cmp x.0 k v) r n m)

  pub insert-new :
      (x : Arena K V cmp) (k : K) (v : V) (h : Handle) (u : RedBlackTree K V)
      → find_key cmp k (walked x.0) ≡ nil
      → insert cmp x.0 k v ≡ some (h, u)
      → (walked u ≡ insert_entry cmp (record { handle = h; key = k; value = v }) (walked x.0))
        × (u.capacity ≡ x.0.capacity)
  insert-new x k v h u n q = opened x (hlevel (Entries-set, ℕ_set)) (λ p.
      let (hs, r) = shown_insert x k v p in
      answer_new x.0 (walked x.0) hs k v (insert cmp x.0 k v) h u r n q)
