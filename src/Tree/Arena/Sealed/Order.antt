-- ===== src/Tree/Arena/Sealed/Order.antt =====
-- crates/clob-book/src/tree: the entries of a sealed arena are in order, under different handles.
use Prim.Native.Nat.{Ordering}
use Prim.Native.Nat.Ordering.{lt}
use clob_dex.Prelude.{ℕ, ◌^◌, ◌<◌, ◌≤◌, ◌≡◌, ◌≢◌, sym, subst, List, [], ◌∷◌, arith, All}
use mathlib.Core.Logic.{∥∥₁_elim}
use native.Mathlib.Bridge.{le_prop}
use clob_dex.Tree.{Handle, Entry, IsSorted, IsWellFormed, Distinct, Live}
use clob_dex.Tree.Arena.{RedBlackTree}
use clob_dex.Tree.Arena.Sealed.{Arena, walked, walked_lem}
use clob_dex.Tree.Arena.Shape.{inorder, occurs}
use clob_dex.Tree.Arena.Sound.{listed, count, occurs-inorder}

-- A list of propositions, and what the interface asks of a list of entries, are propositions.
All-prop :
    {A : Type 0} {P : A → Type 0} → ((x : A) → IsProp (P x)) → (xs : List A) → IsProp (All P xs)
All-prop p [] = hlevel
All-prop p (x ∷ xs) = hlevel (p, All-prop p xs)

module _ {K V : Type 0} where
  IsSorted-prop : (cmp : K → K → Ordering) (es : List (Entry K V)) → IsProp (IsSorted cmp es)
  IsSorted-prop cmp [] = hlevel
  IsSorted-prop cmp (e ∷ es) =
      hlevel (All-prop {P = λ f. cmp e.key f.key ≡ lt} (λ f. hlevel) es, IsSorted-prop cmp es)

  Distinct-prop : (es : List (Entry K V)) → IsProp (Distinct es)
  Distinct-prop [] = hlevel
  Distinct-prop (e ∷ es) =
      hlevel (All-prop {P = λ f. f.handle ≢ e.handle} (λ f. hlevel) es, Distinct-prop es)

  Live-prop : (es : List (Entry K V)) → IsProp (Live es)
  Live-prop es = All-prop {P = λ e. (0 < e.handle) × (e.handle < 2 ^ 32)} (λ e. hlevel le_prop) es

  IsWellFormed-prop :
      (cmp : K → K → Ordering) (es : List (Entry K V)) → IsProp (IsWellFormed cmp es)
  IsWellFormed-prop cmp es a b = λ i. record {
    sorted = IsSorted-prop cmp es a.sorted b.sorted i;
    distinct = Distinct-prop es a.distinct b.distinct i;
    live = Live-prop es a.live b.live i;
  }

  apart_listed :
      (t : RedBlackTree K V) (h : Handle) (hs : List Handle)
      → count h hs ≡ 0
      → All (λ f. f.handle ≢ h) (listed t hs)
  apart_listed t h [] c = tt
  apart_listed t h (j ∷ hs) c = (λ e. ground (arith, e), apart_listed t h hs (omega (arith, c)))

  Distinct-listed :
      (t : RedBlackTree K V) (hs : List Handle)
      → ((j : ℕ) → count j hs ≤ 1)
      → Distinct (listed t hs)
  Distinct-listed t [] c = tt
  Distinct-listed t (h ∷ hs) c =
      (apart_listed t h hs (ground (arith, c h)), Distinct-listed t hs (λ j. omega (arith, c j)))

  Live-listed :
      (t : RedBlackTree K V) (hs : List Handle)
      → ((j : ℕ) → 1 ≤ count j hs → (0 < j) × (j < 2 ^ 32))
      → Live (listed t hs)
  Live-listed t [] c = tt
  Live-listed t (h ∷ hs) c = (c h (ground arith), Live-listed t hs (λ j o. c j (omega (arith, o))))

  pub walked-IsWellFormed :
      {cmp : K → K → Ordering} (x : Arena K V cmp) → IsWellFormed cmp (walked x.0)
  walked-IsWellFormed {cmp} x = ∥∥₁_elim x.1.0 (IsWellFormed-prop cmp (walked x.0)) (λ (s, hs, w).
      let counts : (j : ℕ) → occurs j s ≡ count j (inorder s) = λ j. occurs-inorder j s in
      subst (IsWellFormed cmp) (sym (walked_lem x.0 s hs w)) (record {
        sorted = w.sorted;
        distinct = Distinct-listed x.0 (inorder s) (λ j. ground (arith, w.once j, counts j));
        live = Live-listed x.0 (inorder s) (λ j o. (
          ground (arith, w.once j, counts j, o),
          ground (arith, w.within j, counts j, o, w.room, x.1.1),
        ));
      }))
