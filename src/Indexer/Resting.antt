-- ===== src/Indexer/Resting.antt =====
-- crates/clob-indexer/src/derive.rs: what the later snapshot of a side does not show, by order id.
use clob_dex.Prelude.{
  ℕ, ◌-◌, ◌≡◌, ◌≢◌, ◌⊎◌, refl, ap, true, false, none, List, [], ◌∷◌, sum_by, arith, inl, inr,
  Bool-cases, All, ◌==◌, if◌then◌else◌, subst,
}
use clob_dex.Quantities.{saturating_sub}
use clob_dex.Order.{FifoOrderId}
use clob_dex.Indexer.Derive.{BookOrder, removed_from, indexed, lots_or_zero, same_id}

-- The lots `n` where they are under the id `i`.
abbrev pub lots_if : FifoOrderId → FifoOrderId → ℕ → ℕ
lots_if i j n =
    if j.order_sequence_number == i.order_sequence_number
    then if j.price_in_ticks == i.price_in_ticks then n else 0
    else 0

-- The lots that rest under an id.
abbrev pub resting_under : FifoOrderId → List BookOrder → ℕ
resting_under i = sum_by λ o. lots_if i o.id o.num_base_lots

-- No two orders of a side are under one id.
abbrev pub Distinct : List BookOrder → Type 0
Distinct [] = Unit
Distinct (o ∷ os) = All (λ p. p.id ≢ o.id) os × Distinct os

-- What the diff reads as gone under an id.
unfoldable pub gone_under : FifoOrderId → List BookOrder → List BookOrder → ℕ
gone_under i after = sum_by λ o. lots_if i o.id (removed_from after o)

same_or_not : (i j : FifoOrderId) → (j ≡ i) ⊎ ((j ≢ i) × (same_id j i ≡ false))
same_or_not i j = elim (Bool-cases (same_id j i)) [
  | inl same ↦ inl (ground arith)
  | inr other ↦ inr ((λ q. ground arith), other)
]

lots_if-same : (i j : FifoOrderId) (n : ℕ) → j ≡ i → lots_if i j n ≡ n
lots_if-same i j n q = ground arith

lots_if-other : (i j : FifoOrderId) (n : ℕ) → j ≢ i → lots_if i j n ≡ 0
lots_if-other i j n h = elim (same_or_not i j) [
  | inl same ↦ absurd (h same)
  | inr other ↦ ground (arith, other.1)
]

same_id-same : (i j : FifoOrderId) → j ≡ i → same_id j i ≡ true
same_id-same i j q = ground arith

absent-resting :
    (i : FifoOrderId) (w : BookOrder → ℕ) (os : List BookOrder)
    → All (λ p. p.id ≢ i) os
    → sum_by (λ o. lots_if i o.id (w o)) os ≡ 0
absent-resting i w [] a = refl
absent-resting i w (o ∷ os) a =
    omega (arith, lots_if-other i o.id (w o) a.0, absent-resting i w os a.1)

absent-indexed :
    (i : FifoOrderId) (os : List BookOrder) → All (λ p. p.id ≢ i) os → indexed i os ≡ none
unfolding indexed
absent-indexed i [] a = refl
absent-indexed i (o ∷ os) a = elim (same_or_not i o.id) [
  | inl same ↦ absurd (a.0 same)
  | inr other ↦ rw (absent-indexed i os a.1) (rw other.1 refl)
]

-- What the index gives for an id is the lots that rest under it.
indexed-lots :
    (i : FifoOrderId) (os : List BookOrder)
    → Distinct os
    → lots_or_zero (indexed i os) ≡ resting_under i os
unfolding indexed lots_or_zero
indexed-lots i [] h = refl
indexed-lots i (o ∷ os) h = elim (same_or_not i o.id) [
  | inl same ↦
      let away : All (λ p. p.id ≢ i) os = subst (λ j. All (λ p. p.id ≢ j) os) same h.0 in
      rw (absent-indexed i os away) (
        rw (same_id-same i o.id same) (
          omega (
            arith,
            lots_if-same i o.id o.num_base_lots same,
            absent-resting i (λ p. p.num_base_lots) os away,
          )))
  | inr other ↦
      ground (arith, indexed-lots i os h.1, lots_if-other i o.id o.num_base_lots other.0, other.1)
]

removed_from_lem :
    (after : List BookOrder) (o : BookOrder)
    → removed_from after o ≡ o.num_base_lots - lots_or_zero (indexed o.id after)
unfolding removed_from saturating_sub
removed_from_lem after o = ground arith

-- Of a side, what is gone under an id is what rested less what rests.
pub gone_under_lem :
    (i : FifoOrderId) (before after : List BookOrder)
    → Distinct before
    → Distinct after
    → gone_under i after before ≡ resting_under i before - resting_under i after
unfolding gone_under
gone_under_lem i [] after h k = omega arith
gone_under_lem i (o ∷ os) after h k = elim (same_or_not i o.id) [
  | inl same ↦
      let away : All (λ p. p.id ≢ i) os = subst (λ j. All (λ p. p.id ≢ j) os) same h.0 in
      let here = ap (λ j. lots_or_zero (indexed j after)) same in
      omega (
        arith,
        lots_if-same i o.id o.num_base_lots same,
        lots_if-same i o.id (removed_from after o) same,
        absent-resting i (λ p. p.num_base_lots) os away,
        absent-resting i (removed_from after) os away,
        here,
        removed_from_lem after o,
        indexed-lots i after k,
      )
  | inr other ↦ omega (
    arith,
    gone_under_lem i os after h.1 k,
    lots_if-other i o.id o.num_base_lots other.0,
    lots_if-other i o.id (removed_from after o) other.0,
  )
]

pub lots_if-zero : (i j : FifoOrderId) → lots_if i j 0 ≡ 0
lots_if-zero i j = ground arith
