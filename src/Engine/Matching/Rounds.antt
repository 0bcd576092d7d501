-- ===== src/Engine/Matching/Rounds.antt =====
-- crates/clob-engine/src/market/matching.rs: the whole pass, from the rounds.
use clob_dex.Prelude.{
  ℕ, zero, suc, ◌+◌, ◌≡◌, ◌≢◌, refl, sym, subst, false, none, ==_iff, arith, inl, inr, Bool-cases,
}
use clob_dex.Quantities.{is_zero}
use clob_dex.Book.{BookTree}
use clob_dex.Engine.Error.{Result, ok, err}
use clob_dex.Engine.Seats.{SeatTree}
use clob_dex.Engine.Fill.{MatchStop, fully_filled, match_limit}
use clob_dex.Engine.Market.{Market}
use clob_dex.Engine.Matching.{
  Taker, Tally, Round, stopped, next, match_round, cross_loop, cross, start_tally,
}
use clob_dex.Engine.Matching.Accounts.{start_tally-Balanced}
use clob_dex.Tree.{value_at}
use clob_dex.Engine.Conserved.{seats, Conserved}
use clob_dex.Engine.Conserved.Cross.{match_round-Keeps}
use clob_dex.Engine.Matching.Honest.{Honest, match_round-Honest, Honest-kept}
use clob_dex.Engine.Matching.Reasons.{Reason, Reason-of_round, match_round-Reason}
use clob_dex.Engine.Matching.Limit.{Counted, cross_loop-Counted}

module _ {T U : Type 0} (t : BookTree T) (u : SeatTree U) where
  ended :
      (size most left : ℕ) (m m' : Market T U) (s s' : Tally) (why stop : MatchStop) (k : Taker)
      → Honest t u m k size most s
      → ◌≡◌ {A = Result (MatchStop × Market T U × Tally)} (ok (why, m, s)) (ok (stop, m', s'))
      → Reason t u why k m s
      → Honest t u m k size (most + left) s' × Reason t u stop k m' s'
  ended size most left m m' s s' why stop k hon e r =
      let same_m : m ≡ m' = ground arith in
      let same_s : s ≡ s' = ground arith in
      let same_why : why ≡ stop = ground arith in
      let moved : Reason t u stop k m' s' =
        subst (λ x. Reason t u x k m' s') same_why
          (subst (λ x. Reason t u why k m' x) same_s
            (subst (λ x. Reason t u why k x s) same_m r)) in
      (
        subst (Honest t u m k size (most + left)) same_s
            (record { balanced = hon.balanced; fair = hon.fair; few = omega (arith, hon.few) }),
        moved,
      )

  -- A pass that succeeds reports what it did: the size is filled, consumed by self-trades or left; the
  -- three totals are the sums over the fills; there are at most `left` more fills than before; every
  -- fill is fair; and the reason that it gives is true of the book that it leaves.
  cross_loop-Honest :
      (left : ℕ) (k : Taker) (size most : ℕ) (m m' : Market T U) (s s' : Tally) (stop : MatchStop)
      → Conserved t u m
      → value_at k.seat (seats t u m) ≢ none
      → Honest t u m k size most s
      → cross_loop t u left k m s ≡ ok (stop, m', s')
      → Honest t u m k size (most + left) s' × Reason t u stop k m' s'
  unfolding cross_loop
  cross_loop-Honest zero k size most m m' s s' stop c claimed hon e =
      elim (Bool-cases (is_zero s.remaining)) [
        | inl done ↦
            ended size most 0 m m' s s' fully_filled stop k hon (ground arith)
              (omega (arith, (==_iff s.remaining 0).0 done))
        | inr more ↦
            ended size most 0 m m' s s' match_limit stop k hon (ground arith)
              (λ q. ground (arith, (==_iff s.remaining 0).1 q))
      ]
  cross_loop-Honest (suc left) k size most m m' s s' stop c claimed hon e =
      elim (Bool-cases (is_zero s.remaining)) [
        | inl done ↦
            ended size most (suc left) m m' s s' fully_filled stop k hon (ground arith)
              (omega (arith, (==_iff s.remaining 0).0 done))
        | inr more ↦ go more (match_round t u k m s) refl (λ m₁ s₁ c₁ claimed₁ hon₁ e₁.
            cross_loop-Honest left k size (most + 1) m₁ m' s₁ s' stop c₁ claimed₁ hon₁ e₁)
      ]
    where
      go :
          is_zero s.remaining ≡ false
          → (r : Result (Round T U)) → match_round t u k m s ≡ r
          → ((m₁ : Market T U) (s₁ : Tally)
              → Conserved t u m₁
              → value_at k.seat (seats t u m₁) ≢ none
              → Honest t u m₁ k size (most + 1) s₁
              → cross_loop t u left k m₁ s₁ ≡ ok (stop, m', s')
              → Honest t u m₁ k size (most + 1 + left) s' × Reason t u stop k m' s')
          → Honest t u m k size (most + suc left) s' × Reason t u stop k m' s'
      go more (err x) q ih = absurd (ground arith)
      go more (ok (stopped why)) q ih =
          ended size most (suc left) m m' s s' why stop k hon (ground arith) (
            Reason-of_round t u why k m s (λ z. ground (arith, (==_iff s.remaining 0).1 z))
              (match_round-Reason t u k m s why c claimed q))
      go more (ok (next m₁ s₁)) q ih =
          let kept = match_round-Keeps t u k m m₁ s s₁ c claimed q in
          let hon₁ =
            Honest-kept t u k size (most + 1) m m₁ s₁ kept.lots_kept kept.fees_kept
              (match_round-Honest t u k size most m m₁ s s₁ c hon q) in
          let (last, why) =
            ih m₁ s₁ kept.conserved (kept.claimed k.seat claimed) hon₁ (ground arith) in
          let back =
            Honest-kept t u k size (most + 1 + left) m₁ m s' (sym kept.lots_kept)
              (sym kept.fees_kept) last in
          (
            record { balanced = back.balanced; fair = back.fair; few = omega (arith, back.few) },
            why,
          )

  -- A matching pass over a conserved market, for a claimed seat, reports what it did: the size is
  -- filled, consumed by self-trades or left; the totals are the sums over the fills; there are no
  -- more fills than the match limit; every fill is at the resting order's price, one that the
  -- limit allows, worth price times size, charged the fee on its value and never against the taker
  -- itself. The reason it gives for stopping is true: with nothing remaining it is filled;
  -- otherwise something remains, and the limit allows the price of no order left on the other
  -- side; or that side is empty; or as many rounds touched an order as the match limit; or the
  -- best order is another's and within the limit, and the taker has less free than the value and
  -- fee, as a buyer, or the lots, as a seller, of what it would fill of it. The market it leaves
  -- is reached by no more rounds than the match limit.
  pub cross-Honest :
      (m m' : Market T U) (k : Taker) (size limit : ℕ) (s : Tally) (stop : MatchStop)
      → Conserved t u m
      → value_at k.seat (seats t u m) ≢ none
      → cross t u m k size limit ≡ ok (stop, m', s)
      → Honest t u m k size limit s
        × Reason t u stop k m' s
        × Counted t u stop k limit m (start_tally size) m' s
  unfolding cross
  cross-Honest m m' k size limit s stop c claimed e =
      let start : Honest t u m k size 0 (start_tally size) = record {
        balanced = start_tally-Balanced k size;
        fair = tt;
        few = omega arith;
      } in
      let (hon, why) =
        cross_loop-Honest limit k size 0 m m' (start_tally size) s stop c claimed start e in
      (
        record { balanced = hon.balanced; fair = hon.fair; few = omega (arith, hon.few) },
        why,
        cross_loop-Counted t u limit k m m' (start_tally size) s stop c claimed e,
      )
