-- ===== src/Book/Depth/Sums.antt =====
-- crates/clob-book/src/book/depth.rs: depth as a sum over the side.
use Prim.Native.Nat.Ordering.{lt}
use mathlib.Core.List.{reverse, reverse-cons}
use clob_dex.Prelude.{
  ℕ, ◌+◌, ◌≤◌, ◌≡◌, refl, sym, ap, ◌∙◌, subst, true, false, List, [], ◌∷◌, ◌++◌, leb, if◌then◌else◌,
  All, All-append, All-imp, Bool-cases, inl, inr, arith,
}
use clob_dex.Quantities.{Ticks, BaseLots, u64_max, saturating_add}
use clob_dex.Order.{Side, bid, ask, compare_id}
use clob_dex.Tree.{IsSorted}
use clob_dex.Book.{OrderBook, BookEntry, BookTree, tree_of}
use clob_dex.Book.Depth.{
  is_marketable, depth_loop, total_loop, iter_side, depth_at_or_better, total_depth,
}

-- The lots of all orders, and of those that a taker with the limit accepts.
abbrev pub resting_lots : List BookEntry → ℕ
resting_lots [] = 0
resting_lots (e ∷ es) = e.value.num_base_lots + resting_lots es

abbrev pub marketable_lots : Side → Ticks → List BookEntry → ℕ
marketable_lots side limit [] = 0
marketable_lots side limit (e ∷ es) =
    (if is_marketable side e.key.price_in_ticks limit then e.value.num_base_lots else 0)
    + marketable_lots side limit es

-- The number as far as a u64 goes.
abbrev pub capped : ℕ → ℕ
capped n = if leb n u64_max then n else u64_max

-- Each order is priced at least as well as those after it.
abbrev pub BestFirst : Side → List BookEntry → Type 0
BestFirst side [] = Unit
BestFirst side (e ∷ es) =
    All (λ f. is_marketable side e.key.price_in_ticks f.key.price_in_ticks ≡ true) es
    × BestFirst side es

-- Behind an order that the limit refuses, all are refused.
pub refused_lots :
    (side : Side) (limit price : Ticks) (es : List BookEntry)
    → is_marketable side price limit ≡ false
    → All (λ f. is_marketable side price f.key.price_in_ticks ≡ true) es
    → marketable_lots side limit es ≡ 0
unfolding is_marketable
refused_lots side limit price [] n a = refl
refused_lots bid limit price (e ∷ es) n a =
    ground (arith, refused_lots bid limit price es n a.1, a.0)
refused_lots ask limit price (e ∷ es) n a =
    ground (arith, refused_lots ask limit price es n a.1, a.0)

saturating_add_lem : (a b : ℕ) → saturating_add a b ≡ capped (a + b)
unfolding saturating_add
saturating_add_lem a b = refl

saturating_add-le : (a b : ℕ) → saturating_add a b ≤ u64_max
unfolding saturating_add
saturating_add-le a b = ground arith

capped-capped : (a b : ℕ) → capped (capped a + b) ≡ capped (a + b)
capped-capped a b = ground arith

depth_loop_lem :
    (side : Side) (limit : Ticks) (total : BaseLots) (es : List BookEntry)
    → total ≤ u64_max
    → BestFirst side es
    → depth_loop side limit total es ≡ capped (total + marketable_lots side limit es)
unfolding depth_loop saturating_add
depth_loop_lem side limit total [] b o = ground arith
depth_loop_lem side limit total (e ∷ es) b o =
    let n = e.value.num_base_lots in
    let ih =
      depth_loop_lem side limit (saturating_add total n) es (saturating_add-le total n) o.1 in
    elim (Bool-cases (is_marketable side e.key.price_in_ticks limit)) [
      | inl taken ↦ rw taken (
          ih
          ∙ ap (λ x. capped (x + marketable_lots side limit es)) (saturating_add_lem total n)
          ∙ capped-capped (total + n) (marketable_lots side limit es)
          ∙ ground arith)
      | inr refused ↦
          rw refused (ground (arith, refused_lots side limit e.key.price_in_ticks es refused o.0))
    ]

total_loop_lem :
    (total : BaseLots) (es : List BookEntry)
    → total ≤ u64_max
    → total_loop total es ≡ capped (total + resting_lots es)
unfolding total_loop saturating_add
total_loop_lem total [] b = ground arith
total_loop_lem total (e ∷ es) b =
    let n = e.value.num_base_lots in
    total_loop_lem (saturating_add total n) es (saturating_add-le total n)
    ∙ ap (λ x. capped (x + resting_lots es)) (saturating_add_lem total n)
    ∙ capped-capped (total + n) (resting_lots es)
    ∙ ground arith

-- The order of the ids is the order of the prices, against the tree's direction for bids.
BestFirst-asks : (es : List BookEntry) → IsSorted compare_id es → BestFirst ask es
unfolding compare_id is_marketable
BestFirst-asks [] s = tt
BestFirst-asks (e ∷ es) s =
    (All-imp (λ f (p : compare_id e.key f.key ≡ lt). ground arith) es s.0, BestFirst-asks es s.1)

BestFirst-snoc :
    (side : Side) (es : List BookEntry) (f : BookEntry)
    → BestFirst side es
    → All (λ e. is_marketable side e.key.price_in_ticks f.key.price_in_ticks ≡ true) es
    → BestFirst side (es ++ f ∷ [])
BestFirst-snoc side [] f b a = (tt, tt)
BestFirst-snoc side (e ∷ es) f b a = (
  All-append (λ g. is_marketable side e.key.price_in_ticks g.key.price_in_ticks ≡ true) es (f ∷ [])
      b.0 (a.0, tt),
  BestFirst-snoc side es f b.1 a.1,
)

All-reverse : (P : BookEntry → Type 0) (es : List BookEntry) → All P es → All P (reverse es)
All-reverse P [] a = tt
All-reverse P (e ∷ es) a =
    subst (All P) (sym (reverse-cons e es))
      (All-append P (reverse es) (e ∷ []) (All-reverse P es a.1) (a.0, tt))

BestFirst-bids : (es : List BookEntry) → IsSorted compare_id es → BestFirst bid (reverse es)
unfolding compare_id is_marketable
BestFirst-bids [] s = tt
BestFirst-bids (e ∷ es) s = subst (BestFirst bid) (sym (reverse-cons e es)) (
    BestFirst-snoc bid (reverse es) e (BestFirst-bids es s.1) (
      All-reverse (λ f. is_marketable bid f.key.price_in_ticks e.key.price_in_ticks ≡ true) es
        (All-imp (λ f (p : compare_id e.key f.key ≡ lt). ground arith) es s.0)))

-- Sums do not ask for the direction.
resting_lots-snoc :
    (es : List BookEntry) (e : BookEntry)
    → resting_lots (es ++ e ∷ []) ≡ e.value.num_base_lots + resting_lots es
resting_lots-snoc [] e = refl
resting_lots-snoc (f ∷ es) e = omega (arith, resting_lots-snoc es e)

resting_lots-reverse : (es : List BookEntry) → resting_lots (reverse es) ≡ resting_lots es
resting_lots-reverse [] = refl
resting_lots-reverse (e ∷ es) =
    ap resting_lots (reverse-cons e es)
    ∙ resting_lots-snoc (reverse es) e
    ∙ ap (λ n. e.value.num_base_lots + n) (resting_lots-reverse es)

marketable_lots-snoc :
    (side : Side) (limit : Ticks) (es : List BookEntry) (e : BookEntry)
    → marketable_lots side limit (es ++ e ∷ []) ≡ marketable_lots side limit (e ∷ es)
marketable_lots-snoc side limit [] e = refl
marketable_lots-snoc side limit (f ∷ es) e = omega (arith, marketable_lots-snoc side limit es e)

marketable_lots-reverse :
    (side : Side) (limit : Ticks) (es : List BookEntry)
    → marketable_lots side limit (reverse es) ≡ marketable_lots side limit es
marketable_lots-reverse side limit [] = refl
marketable_lots-reverse side limit (e ∷ es) =
    ap (marketable_lots side limit) (reverse-cons e es)
    ∙ marketable_lots-snoc side limit (reverse es) e
    ∙ ap
        (λ n.
          (if is_marketable side e.key.price_in_ticks limit then e.value.num_base_lots else 0) + n)
        (marketable_lots-reverse side limit es)

module _ {T : Type 0} (t : BookTree T) where
  pub iter_side-BestFirst : (b : OrderBook T) (side : Side) → BestFirst side (iter_side t b side)
  unfolding iter_side
  iter_side-BestFirst b bid = BestFirst-bids (t.entries b.bids) (t.well_formed b.bids).sorted
  iter_side-BestFirst b ask = BestFirst-asks (t.entries b.asks) (t.well_formed b.asks).sorted

  pub iter_side-lots :
      (b : OrderBook T) (side : Side) (limit : Ticks)
      → (marketable_lots side limit (iter_side t b side)
          ≡ marketable_lots side limit (t.entries (tree_of side b)))
        × (resting_lots (iter_side t b side) ≡ resting_lots (t.entries (tree_of side b)))
  unfolding iter_side
  iter_side-lots b bid limit = (
    marketable_lots-reverse bid limit (t.entries b.bids),
    resting_lots-reverse (t.entries b.bids),
  )
  iter_side-lots b ask limit = (refl, refl)

  -- The depth at a limit, counted from the touch to the first order that the limit refuses, is the
  -- sum of the sizes of all the side's orders that the limit accepts, cut off at the largest u64,
  -- and the total depth the sum of all sizes cut off there.
  pub depths_lem :
      (b : OrderBook T) (side : Side) (limit : Ticks)
      → (depth_at_or_better t b side limit
          ≡ capped (marketable_lots side limit (t.entries (tree_of side b))))
        × (total_depth t b side ≡ capped (resting_lots (t.entries (tree_of side b))))
  unfolding depth_at_or_better total_depth
  depths_lem b side limit =
      let sums = iter_side-lots b side limit in
      (
        depth_loop_lem side limit 0 (iter_side t b side) (omega arith) (iter_side-BestFirst b side)
            ∙ ap (λ n. capped (0 + n)) sums.0
            ∙ ground arith,
        total_loop_lem 0 (iter_side t b side) (omega arith)
            ∙ ap (λ n. capped (0 + n)) sums.1
            ∙ ground arith,
      )
