-- ===== src/Tree/Extremes.antt =====
-- The first and the last entry of a sorted list are those with the extreme keys.
use Prim.Native.Nat.{Ordering}
use Prim.Native.Nat.Ordering.{lt}
use clob_dex.Prelude.{◌≡◌, ◌⊎◌, inl, inr, refl, none, some, List, [], ◌∷◌, All, All-imp, arith}
use clob_dex.Tree.{Entry, IsSorted, IsLawful, least, greatest}
use clob_dex.Tree.Entries.{value_of}

module _ {K V : Type 0} {cmp : K → K → Ordering} (law : IsLawful cmp) where
  pub value_of-least :
      (e : Entry K V) (es : List (Entry K V))
      → least es ≡ some e
      → value_of cmp e.key es ≡ some e.value
  value_of-least e [] p = ground arith
  value_of-least e (f ∷ es) p = ground (arith, law.cmp-refl e.key)

  -- Every other key comes after the first one.
  pub least-lt :
      (e : Entry K V) (es : List (Entry K V))
      → IsSorted cmp es
      → least es ≡ some e
      → All (λ f. (f ≡ e) ⊎ (cmp e.key f.key ≡ lt)) es
  least-lt e [] s p = tt
  least-lt e (f ∷ es) s p = (inl (ground arith), All-imp (λ g q. inr (ground arith)) es s.0)

  greatest-above :
      (d e : Entry K V) (es : List (Entry K V))
      → All (λ f. cmp d.key f.key ≡ lt) es
      → greatest es ≡ some e
      → cmp d.key e.key ≡ lt
  greatest-above d e [] a p = ground arith
  greatest-above d e (f ∷ []) a p = ground arith
  greatest-above d e (f ∷ g ∷ es) a p = greatest-above d e (g ∷ es) a.1 p

  -- Every other key comes before the last one.
  pub greatest-gt :
      (e : Entry K V) (es : List (Entry K V))
      → IsSorted cmp es
      → greatest es ≡ some e
      → All (λ f. (f ≡ e) ⊎ (cmp f.key e.key ≡ lt)) es
  greatest-gt e [] s p = tt
  greatest-gt e (f ∷ []) s p = (inl (ground arith), tt)
  greatest-gt e (f ∷ g ∷ es) s p =
      (inr (greatest-above f e (g ∷ es) s.0 p), greatest-gt e (g ∷ es) s.1 p)

  pub value_of-greatest :
      (e : Entry K V) (es : List (Entry K V))
      → IsSorted cmp es
      → greatest es ≡ some e
      → value_of cmp e.key es ≡ some e.value
  value_of-greatest e [] s p = ground arith
  value_of-greatest e (f ∷ []) s p = ground (arith, law.cmp-refl e.key)
  value_of-greatest e (f ∷ g ∷ es) s p = ground (
    arith,
    law.gt_of_lt f.key e.key,
    greatest-above f e (g ∷ es) s.0 p,
    value_of-greatest e (g ∷ es) s.1 p,
  )

  pub greatest-none : (es : List (Entry K V)) → greatest es ≡ none → es ≡ []
  greatest-none [] p = refl
  greatest-none (f ∷ []) p = ground arith
  greatest-none (f ∷ g ∷ es) p = ground (arith, greatest-none (g ∷ es))
