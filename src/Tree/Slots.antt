-- ===== src/Tree/Slots.antt =====
-- The free slots of the sorted list of entries that stands for the tree, and the list's order.
use Prim.Native.Nat.{Ordering}
use Prim.Native.Nat.Ordering.{lt}
use clob_dex.Prelude.{
  ◌+◌, ◌<◌, ◌≡◌, ◌≢◌, ◌^◌, refl, sym, ap, subst, Bool, true, false, none, some, List, [], ◌∷◌, ◌==◌,
  if◌then◌else◌, length, All, arith,
}
use clob_dex.Tree.{
  Entry, Handle, value_at, drop_at, insert_entry, Distinct, Live, IsSorted, IsLawful,
}
use clob_dex.Tree.Entries.{value_of, insert_entry-All}

module _ {K V : Type 0} where
  abbrev pub is_used : Handle → List (Entry K V) → Bool
  is_used h [] = false
  is_used h (e ∷ es) = if e.handle == h then true else is_used h es

  -- The free slots are live handles, distinct, and no entry's.
  abbrev pub Unused : List (Entry K V) → List Handle → Type 0
  Unused es [] = Unit
  Unused es (h ∷ hs) =
      ((0 < h) × (h < 2 ^ 32)) × All (λ e. e.handle ≢ h) es × All (λ j. j ≢ h) hs × Unused es hs

  pub Unused-imp :
      (es fs : List (Entry K V)) (hs : List Handle)
      → ((h : Handle) → All (λ e. e.handle ≢ h) es → All (λ e. e.handle ≢ h) fs)
      → Unused es hs
      → Unused fs hs
  Unused-imp es fs [] f a = tt
  Unused-imp es fs (h ∷ hs) f a = (a.0, f h a.1, a.2, Unused-imp es fs hs f a.3)

  pub Unused-new :
      (n : Entry K V) (es fs : List (Entry K V)) (hs : List Handle)
      → All (λ j. j ≢ n.handle) hs
      → ((h : Handle) → h ≢ n.handle → All (λ e. e.handle ≢ h) es → All (λ e. e.handle ≢ h) fs)
      → Unused es hs
      → Unused fs hs
  Unused-new n es fs [] x f a = tt
  Unused-new n es fs (h ∷ hs) x f a = (a.0, f h x.0 a.1, a.2, Unused-new n es fs hs x.1 f a.3)

  pub is_used-absent :
      (h : Handle) (es : List (Entry K V)) → All (λ e. e.handle ≢ h) es → is_used h es ≡ false
  is_used-absent h [] a = refl
  is_used-absent h (e ∷ es) a = ground (arith, is_used-absent h es a.1)

  -- A used slot is not free.
  pub Unused-used :
      (h : Handle) (es : List (Entry K V)) (hs : List Handle)
      → is_used h es ≡ true
      → Unused es hs
      → All (λ j. j ≢ h) hs
  Unused-used h es [] u a = tt
  Unused-used h es (j ∷ hs) u a = (
    λ q. ground (arith, is_used-absent j es a.1, ap (λ x. is_used x es) q),
    Unused-used h es hs u a.3,
  )

  pub is_used-value_at :
      (h : Handle) (es : List (Entry K V)) (v : V) → value_at h es ≡ some v → is_used h es ≡ true
  is_used-value_at h [] v p = ground arith
  is_used-value_at h (e ∷ es) v p = ground (arith, is_used-value_at h es v)

  pub used-Live :
      (h : Handle) (es : List (Entry K V)) → Live es → is_used h es ≡ true → (0 < h) × (h < 2 ^ 32)
  used-Live h [] l u = ground arith
  used-Live h (e ∷ es) l u = ground (arith, used-Live h es l.1)

  pub drop_at-gone :
      (h : Handle) (es : List (Entry K V)) → Distinct es → All (λ e. e.handle ≢ h) (drop_at h es)
  drop_at-gone h [] d = tt
  drop_at-gone h (e ∷ es) d =
      let moved : e.handle ≡ h → All (λ f. f.handle ≢ h) es =
        λ q. subst (λ x. All (λ f. f.handle ≢ x) es) q d.0 in
      ground (arith, moved, drop_at-gone h es d.1)

  pub length-drop_at :
      (h : Handle) (es : List (Entry K V))
      → length es ≡ length (drop_at h es) + (if is_used h es then 1 else 0)
  length-drop_at h [] = refl
  length-drop_at h (e ∷ es) = ground (arith, length-drop_at h es)

  pub insert_entry-Distinct :
      (cmp : K → K → Ordering) (n : Entry K V) (es : List (Entry K V))
      → All (λ e. e.handle ≢ n.handle) es
      → Distinct es
      → Distinct (insert_entry cmp n es)
  insert_entry-Distinct cmp n [] a d = (tt, tt)
  insert_entry-Distinct cmp n (e ∷ es) a d = ground (
    arith,
    insert_entry-All cmp (λ f. f.handle ≢ e.handle) n es (λ q. a.0 (sym q)) d.0,
    insert_entry-Distinct cmp n es a.1 d.1,
  )

  pub above :
      {cmp : K → K → Ordering} (law : IsLawful cmp) (j k : K) (es : List (Entry K V))
      → All (λ f. cmp k f.key ≡ lt) es
      → cmp j k ≡ lt
      → All (λ f. cmp j f.key ≡ lt) es
  above {cmp} law j k es s p = go es s
    where
      go : (es : List (Entry K V)) → All (λ f. cmp k f.key ≡ lt) es → All (λ f. cmp j f.key ≡ lt) es
      go [] s = tt
      go (f ∷ es) s = (law.lt_trans j k f.key p s.0, go es s.1)

  pub insert_entry-IsSorted :
      {cmp : K → K → Ordering} (law : IsLawful cmp) (n : Entry K V) (es : List (Entry K V))
      → value_of cmp n.key es ≡ none
      → IsSorted cmp es
      → IsSorted cmp (insert_entry cmp n es)
  insert_entry-IsSorted law n [] a s = (tt, tt)
  insert_entry-IsSorted {cmp} law n (e ∷ es) a s = ground (
    arith,
    above law n.key e.key es s.0,
    law.lt_of_gt n.key e.key,
    insert_entry-All cmp (λ f. cmp e.key f.key ≡ lt) n es,
    insert_entry-IsSorted law n es,
  )

abbrev pub freed : Bool → Handle → List Handle → List Handle
freed true h hs = h ∷ hs
freed false h hs = hs

-- Every entry's slot joins the free ones.
abbrev pub clear_loop : {K V : Type 0} → List (Entry K V) → List Handle → List Handle
clear_loop [] hs = hs
clear_loop (e ∷ es) hs = clear_loop es (e.handle ∷ hs)

pub cleared-Unused :
    {K V : Type 0} (es : List (Entry K V)) (hs : List Handle)
    → Live es
    → Distinct es
    → Unused es hs
    → Unused {K = K} {V = V} [] (clear_loop es hs)
cleared-Unused [] hs l d a = a
cleared-Unused (e ∷ es) hs l d a = cleared-Unused es (e.handle ∷ hs) l.1 d.1 (
  l.0,
  d.0,
  Unused-used e.handle (e ∷ es) hs (ground arith) a,
  Unused-imp (e ∷ es) es hs (λ j b. b.1) a,
)

pub length-clear_loop :
    {K V : Type 0} (es : List (Entry K V)) (hs : List Handle)
    → length (clear_loop es hs) ≡ length es + length hs
length-clear_loop [] hs = omega arith
length-clear_loop (e ∷ es) hs = omega (arith, length-clear_loop es (e.handle ∷ hs))
