-- ===== src/Engine/Matching/Limit.antt =====
-- crates/clob-engine/src/market/matching.rs: the orders that a pass touches, against its match limit.
use clob_dex.Prelude.{
  ℕ, zero, suc, ◌≤◌, ◌<◌, ◌≡◌, ◌≢◌, refl, ap, subst, false, none, arith, inl, inr, Bool-cases,
}
use clob_dex.Quantities.{is_zero}
use clob_dex.Book.{BookTree}
use clob_dex.Engine.Error.{Result, ok, err}
use clob_dex.Engine.Seats.{SeatTree}
use clob_dex.Engine.Fill.{
  MatchStop, fully_filled, match_limit, price_limit, book_empty, insufficient_funds, did_not_cross,
}
use clob_dex.Engine.Market.{Market}
use clob_dex.Engine.Matching.{Taker, Tally, Round, stopped, next, match_round, cross_loop}
use clob_dex.Tree.{value_at}
use clob_dex.Engine.Conserved.{seats, Conserved}
use clob_dex.Engine.Conserved.Cross.{match_round-Keeps}
use clob_dex.Engine.Matching.Reasons.{RoundReason, match_round-Reason}

module _ {T U : Type 0} (t : BookTree T) (u : SeatTree U) where
  -- `n` rounds that each touched an order lead from one market and tally to the other.
  pub data Touches (k : Taker) : ℕ → Market T U → Tally → Market T U → Tally → Type 0 where
    none_touched : {m : Market T U} → {s : Tally} → Touches k 0 m s m s
    one_touched :
        {m m₁ m' : Market T U}
        → {s s₁ s' : Tally} → {n : ℕ} → match_round t u k m s ≡ ok (next m₁ s₁)
        → Touches k n m₁ s₁ m' s'
        → Touches k (suc n) m s m' s'

  -- The rounds that a pass made, of those it might.
  abbrev pub Spent : MatchStop → ℕ → ℕ → Type 0
  Spent match_limit n most = n ≡ most
  Spent fully_filled n most = n ≤ most
  Spent price_limit n most = n < most
  Spent book_empty n most = n < most
  Spent insufficient_funds n most = n < most
  Spent did_not_cross n most = ⊥

  Spent-of_round :
      (stop : MatchStop) (k : Taker) (m : Market T U) (s : Tally) (left : ℕ)
      → RoundReason t u stop k m s
      → Spent stop 0 (suc left)
  Spent-of_round price_limit k m s left why = omega arith
  Spent-of_round book_empty k m s left why = omega arith
  Spent-of_round insufficient_funds k m s left why = omega arith
  Spent-of_round fully_filled k m s left why = absurd why
  Spent-of_round match_limit k m s left why = absurd why
  Spent-of_round did_not_cross k m s left why = absurd why

  Spent-suc : (stop : MatchStop) (n most : ℕ) → Spent stop n most → Spent stop (suc n) (suc most)
  Spent-suc price_limit n most h = omega (arith, h)
  Spent-suc book_empty n most h = omega (arith, h)
  Spent-suc insufficient_funds n most h = omega (arith, h)
  Spent-suc fully_filled n most h = omega (arith, h)
  Spent-suc match_limit n most h = ap suc h
  Spent-suc did_not_cross n most h = h

  -- The rounds from one market and tally to the other, counted.
  abbrev pub Counted : MatchStop → Taker → ℕ → Market T U → Tally → Market T U → Tally → Type 0
  Counted stop k most m s m' s' = (n : ℕ) × Touches k n m s m' s' × Spent stop n most

  Counted-none :
      (stop : MatchStop) (k : Taker) (most : ℕ) (m m' : Market T U) (s s' : Tally)
      → m ≡ m'
      → s ≡ s'
      → Spent stop 0 most
      → Counted stop k most m s m' s'
  Counted-none stop k most m m' s s' p q h =
      (0, subst (Touches k 0 m s m') q (subst (λ x. Touches k 0 m s x s) p none_touched), h)

  -- A pass makes as many rounds as it counts, and as many as it may when it stops at the limit.
  pub cross_loop-Counted :
      (left : ℕ) (k : Taker) (m m' : Market T U) (s s' : Tally) (stop : MatchStop)
      → Conserved t u m
      → value_at k.seat (seats t u m) ≢ none
      → cross_loop t u left k m s ≡ ok (stop, m', s')
      → Counted stop k left m s m' s'
  unfolding cross_loop
  cross_loop-Counted zero k m m' s s' stop c claimed e = elim (Bool-cases (is_zero s.remaining)) [
    | inl done ↦
        let why : fully_filled ≡ stop = ground arith in
        subst (λ x. Counted x k 0 m s m' s') why
          (Counted-none fully_filled k 0 m m' s s' (ground arith) (ground arith) (omega arith))
    | inr more ↦
        let why : match_limit ≡ stop = ground arith in
        subst (λ x. Counted x k 0 m s m' s') why
          (Counted-none match_limit k 0 m m' s s' (ground arith) (ground arith) refl)
  ]
  cross_loop-Counted (suc left) k m m' s s' stop c claimed e =
      elim (Bool-cases (is_zero s.remaining)) [
        | inl done ↦
            let why : fully_filled ≡ stop = ground arith in
            subst (λ x. Counted x k (suc left) m s m' s') why
              (Counted-none fully_filled k (suc left) m m' s s' (ground arith) (ground arith)
                (omega arith))
        | inr more ↦
            go more (match_round t u k m s) refl
              (λ m₁ s₁ c₁ claimed₁ e₁. cross_loop-Counted left k m₁ m' s₁ s' stop c₁ claimed₁ e₁)
      ]
    where
      go :
          is_zero s.remaining ≡ false
          → (r : Result (Round T U)) → match_round t u k m s ≡ r
          → ((m₁ : Market T U) (s₁ : Tally)
              → Conserved t u m₁
              → value_at k.seat (seats t u m₁) ≢ none
              → cross_loop t u left k m₁ s₁ ≡ ok (stop, m', s')
              → Counted stop k left m₁ s₁ m' s')
          → Counted stop k (suc left) m s m' s'
      go more (err x) q ih = absurd (ground arith)
      go more (ok (stopped why)) q ih =
          let same : why ≡ stop = ground arith in
          subst (λ x. Counted x k (suc left) m s m' s') same
            (Counted-none why k (suc left) m m' s s' (ground arith) (ground arith)
              (Spent-of_round why k m s left (match_round-Reason t u k m s why c claimed q)))
      go more (ok (next m₁ s₁)) q ih =
          let kept = match_round-Keeps t u k m m₁ s s₁ c claimed q in
          let (n, touches, spent) =
            ih m₁ s₁ kept.conserved (kept.claimed k.seat claimed) (ground arith) in
          (suc n, one_touched q touches, Spent-suc stop n left spent)
