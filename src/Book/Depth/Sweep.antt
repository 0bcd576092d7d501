-- ===== src/Book/Depth/Sweep.antt =====
-- crates/clob-book/src/book/depth.rs: the price that a sweep reaches.
use clob_dex.Prelude.{
  ℕ, ◌-◌, ◌≤◌, ◌<◌, ◌≡◌, ◌↔◌, refl, sym, subst, ◌∙◌, true, false, Option, none, some, List, [], ◌∷◌,
  All, ◌⊎◌, inl, inr, Bool-cases, arith,
}
use clob_dex.Quantities.{Ticks, BaseLots, u64_max, saturating_sub}
use clob_dex.Order.{Side, bid, ask}
use clob_dex.Book.{OrderBook, BookEntry, BookTree, tree_of}
use clob_dex.Book.Depth.{
  is_marketable, sweep_loop, iter_side, depth_at_or_better, total_depth, sweep_price,
}
use clob_dex.Book.Depth.Sums.{
  resting_lots, marketable_lots, capped, BestFirst, refused_lots, iter_side-BestFirst,
  iter_side-lots, depths_lem,
}

marketable_refl : (side : Side) (p : Ticks) → is_marketable side p p ≡ true
unfolding is_marketable
marketable_refl bid p = ground arith
marketable_refl ask p = ground arith

head_cases : (r n : ℕ) → (r ≤ n) ⊎ (n < r)
head_cases r n = omega arith

-- The first order is enough, or the rest fills what it leaves.
sweep_loop-enough :
    (r : BaseLots) (e : BookEntry) (es : List BookEntry)
    → r ≤ e.value.num_base_lots
    → sweep_loop r (e ∷ es) ≡ some e.key.price_in_ticks
unfolding sweep_loop saturating_sub
sweep_loop-enough r e es b = ground (arith, b)

sweep_loop-short :
    (r : BaseLots) (e : BookEntry) (es : List BookEntry)
    → e.value.num_base_lots < r
    → sweep_loop r (e ∷ es) ≡ sweep_loop (r - e.value.num_base_lots) es
unfolding sweep_loop saturating_sub
sweep_loop-short r e es b = ground (arith, b)

-- The answer is the price of an order of the list.
sweep_loop-listed :
    (P : Ticks → Type 0) (r : BaseLots) (es : List BookEntry) (p : Ticks)
    → All (λ e. P e.key.price_in_ticks) es
    → sweep_loop r es ≡ some p
    → P p
unfolding sweep_loop
sweep_loop-listed P r [] p a q = cc
sweep_loop-listed P r (e ∷ es) p a q = elim (head_cases r e.value.num_base_lots) [
  | inl b ↦
      let same : e.key.price_in_ticks ≡ p = ground (arith, sym (sweep_loop-enough r e es b) ∙ q) in
      subst P same a.0
  | inr b ↦
      sweep_loop-listed P (r - e.value.num_base_lots) es p a.1 (sym (sweep_loop-short r e es b) ∙ q)
]

sweep_loop-none :
    (r : BaseLots) (es : List BookEntry) → 0 < r → sweep_loop r es ≡ none → resting_lots es < r
unfolding sweep_loop
sweep_loop-none r [] z q = z
sweep_loop-none r (e ∷ es) z q = elim (head_cases r e.value.num_base_lots) [
  | inl b ↦ absurd (ground (arith, sym (sweep_loop-enough r e es b) ∙ q))
  | inr b ↦ omega (
    arith,
    sweep_loop-none (r - e.value.num_base_lots) es (omega arith)
        (sym (sweep_loop-short r e es b) ∙ q),
  )
]

-- An answered price is enough, and no better one is.
sweep_loop-some :
    (side : Side) (r : BaseLots) (es : List BookEntry) (p : Ticks)
    → 0 < r
    → BestFirst side es
    → sweep_loop r es ≡ some p
    → (r ≤ marketable_lots side p es)
      × ((limit : Ticks) → is_marketable side p limit ≡ false → marketable_lots side limit es < r)
unfolding sweep_loop
sweep_loop-some side r [] p z o q = cc
sweep_loop-some side r (e ∷ es) p z o q = elim (head_cases r e.value.num_base_lots) [
  | inl b ↦
      let same : e.key.price_in_ticks ≡ p = ground (arith, sym (sweep_loop-enough r e es b) ∙ q) in
      let own =
        subst (λ x. is_marketable side e.key.price_in_ticks x ≡ true) same
          (marketable_refl side e.key.price_in_ticks) in
      (
        rw own (omega arith),
        λ limit worse.
            let refused = subst (λ x. is_marketable side x limit ≡ false) (sym same) worse in
            rw refused (omega (arith, refused_lots side limit e.key.price_in_ticks es refused o.0)),
      )
  | inr b ↦
      let n = e.value.num_base_lots in
      let rest = sym (sweep_loop-short r e es b) ∙ q in
      let ih = sweep_loop-some side (r - n) es p (omega arith) o.1 rest in
      let own =
        sweep_loop-listed (λ x. is_marketable side e.key.price_in_ticks x ≡ true) (r - n) es p o.0
          rest in
      (rw own (omega (arith, ih.0)), λ limit worse. ground (arith, ih.1 limit worse, b))
]

capped-covers : (r n : ℕ) → r ≤ u64_max → ((r ≤ n) ↔ (r ≤ capped n)) × ((n < r) ↔ (capped n < r))
capped-covers r n b = ground arith

module _ {T : Type 0} (t : BookTree T) where
  -- What an answer says: the side has less than the size, or the price is the best one at which it
  -- has the size.
  abbrev pub Sweeps : OrderBook T → Side → BaseLots → Option Ticks → Type 0
  Sweeps b side size none = total_depth t b side < size
  Sweeps b side size (some p) =
      (size ≤ depth_at_or_better t b side p)
      × ((limit : Ticks)
          → (is_marketable side p limit ≡ true) ⊎ (depth_at_or_better t b side limit < size))

  -- The depth counts what the walk counts, as far as a u64 goes.
  depth_of :
      (b : OrderBook T) (side : Side) (size : BaseLots)
      → size ≤ u64_max
      → (limit : Ticks)
      → (size ≤ marketable_lots side limit (iter_side t b side)
          → size ≤ depth_at_or_better t b side limit)
        × (marketable_lots side limit (iter_side t b side) < size
            → depth_at_or_better t b side limit < size)
  depth_of b side size m limit =
      let lots = marketable_lots side limit (t.entries (tree_of side b)) in
      let sums = (iter_side-lots t b side limit).0 in
      let covers = capped-covers size lots m in
      let depth = (depths_lem t b side limit).0 in
      (λ c. omega (arith, sums, depth, covers.0.0), λ c. omega (arith, sums, depth, covers.1.0))

  sweep_loop-Sweeps :
      (b : OrderBook T) (side : Side) (size : BaseLots) (o : Option Ticks)
      → 0 < size
      → size ≤ u64_max
      → sweep_loop size (iter_side t b side) ≡ o
      → Sweeps b side size o
  sweep_loop-Sweeps b side size none z m q =
      let short = sweep_loop-none size (iter_side t b side) z q in
      let lots = resting_lots (t.entries (tree_of side b)) in
      omega (
        arith,
        short,
        (iter_side-lots t b side 0).1,
        (depths_lem t b side 0).1,
        (capped-covers size lots m).1.0,
      )
  sweep_loop-Sweeps b side size (some p) z m q =
      let r = sweep_loop-some side size (iter_side t b side) p z (iter_side-BestFirst t b side) q in
      let at = depth_of b side size m in
      (
        (at p).0 r.0,
        λ limit. elim (Bool-cases (is_marketable side p limit)) [
          | inl accepted ↦ inl accepted
          | inr worse ↦ inr ((at limit).1 (r.1 limit worse))
        ],
      )

  -- For a positive size in u64 range, the price that a sweep answers is the best at which the side
  -- has the size: the depth there is enough, and the depth at any limit that refuses that price is
  -- not; no price is answered only where the whole side has less.
  pub sweep_price-Sweeps :
      (b : OrderBook T) (side : Side) (size : BaseLots)
      → 0 < size
      → size ≤ u64_max
      → Sweeps b side size (sweep_price t b side size)
  unfolding sweep_price
  sweep_price-Sweeps b side size z m =
      sweep_loop-Sweeps b side size (sweep_loop size (iter_side t b side)) z m refl
