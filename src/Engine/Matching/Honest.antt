-- ===== src/Engine/Matching/Honest.antt =====
-- crates/clob-engine/src/market/matching.rs: what a round reports of what it did.
use clob_dex.Prelude.{
  ℕ, ◌+◌, ◌≤◌, ◌≡◌, ◌≢◌, refl, sym, ap, subst, true, [], ◌∷◌, ◌==◌, ==_iff, All, length, All-append,
  length-append, arith, inl, inr, Option-cases, Bool-cases,
}
use clob_dex.Quantities.{min}
use clob_dex.Order.{opposite, side_of}
use clob_dex.Book.{BookEntry, BookTree, best}
use clob_dex.Book.Best.{get_order-best}
use clob_dex.Engine.Error.{ok, >>=-eq-ok}
use clob_dex.Engine.Fees.{fee_on}
use clob_dex.Engine.Seats.{SeatTree}
use clob_dex.Engine.Market.{Market, quote_value}
use clob_dex.Engine.Matching.{
  Taker, Tally, next, apply_fill, fill_round, match_round, accepts, taker_can_afford,
}
use clob_dex.Engine.Matching.Accounts.{
  Allowed-of_accepts, Balanced, Fair, shown, self_trade_round-Balanced, apply_fill-Balanced,
}
use clob_dex.Engine.Conserved.{owner, per_lot, Conserved}
use clob_dex.Engine.Conserved.Unlocked.{quote_lots_for-value}

min_le_first : (m n : ℕ) → min m n ≤ m
unfolding min
min_le_first m n = ground arith

module _ {T U : Type 0} (t : BookTree T) (u : SeatTree U) where
  -- The tally and its fills, as the pass reports them.
  pub record Honest (m : Market T U) (k : Taker) (size most : ℕ) (s : Tally) : Type 0 where
    pub balanced : Balanced k size s
    pub fair : All (Fair (per_lot t u m) m.header.fees k) s.fills
    pub few : length s.fills ≤ most

  fill_round-Honest :
      (k : Taker) (size most : ℕ) (m m' : Market T U) (s s' : Tally) (entry : BookEntry)
      → side_of entry.key ≡ opposite k.side
      → accepts k.side entry.key.price_in_ticks k.limit ≡ true
      → owner entry.value ≢ k.seat
      → Honest m k size most s
      → fill_round t u k m s entry (owner entry.value) ≡ ok (next m' s')
      → Honest m k size (most + 1) s'
  unfolding fill_round quote_value
  fill_round-Honest k size most m m' s s' entry tag fits ne hon e =
      let lots = min s.remaining entry.value.num_base_lots in
      let (gross, e₁, e₂) = >>=-eq-ok (quote_value t u m entry.key.price_in_ticks lots) _ e in
      let (fee, e₃, e₄) = >>=-eq-ok (fee_on m.header.fees gross) _ e₂ in
      let (affordable, e₅, e₆) =
        >>=-eq-ok (taker_can_afford t u m k.seat k.side lots gross fee) _ e₄ in
      let done : apply_fill t u k m s entry (owner entry.value) lots gross fee ≡ ok (next m' s') =
        ground arith in
      let value =
        quote_lots_for-value m.header entry.key.price_in_ticks lots {q = gross} (ground arith) in
      let (b, more) =
        apply_fill-Balanced t u k size m m' s s' entry (owner entry.value) lots gross fee
          (min_le_first _ _) hon.balanced done in
      let f = shown k entry (owner entry.value) lots gross fee in
      let new : Fair (per_lot t u m) m.header.fees k f = record {
        price_allowed = Allowed-of_accepts k.side _ k.limit fits;
        maker_price = refl;
        maker_side = tag;
        worth = value;
        fee_due = e₃;
        taker_known = refl;
        not_itself = ne;
      } in
      record {
        balanced = b;
        fair =
            subst (All (Fair (per_lot t u m) m.header.fees k)) (sym more)
              (All-append _ s.fills (f ∷ []) hon.fair (new, tt));
        few = omega (arith, hon.few, ap length more, length-append s.fills (f ∷ []));
      }

  pub match_round-Honest :
      (k : Taker) (size most : ℕ) (m m' : Market T U) (s s' : Tally)
      → Conserved t u m
      → Honest m k size most s
      → match_round t u k m s ≡ ok (next m' s')
      → Honest m k size (most + 1) s'
  unfolding match_round
  match_round-Honest k size most m m' s s' c hon e =
      elim (Option-cases (best t m.book (opposite k.side))) [
        | inl none_left ↦ absurd (ground arith)
        | inr (entry, top) ↦
            let (h, tag) = get_order-best t m.book (opposite k.side) entry c.filed top in
            elim (Bool-cases (owner entry.value == k.seat)) [
              | inl own ↦
                  let (b, same) =
                    self_trade_round-Balanced t u k size m m' s s' entry (owner entry.value)
                      hon.balanced (ground arith) in
                  record {
                    balanced = b;
                    fair = subst (All (Fair (per_lot t u m) m.header.fees k)) (sym same) hon.fair;
                    few = omega (arith, hon.few, ap length same);
                  }
              | inr other ↦
                  fill_round-Honest k size most m m' s s' entry tag (ground arith)
                    (λ q. ground (arith, (==_iff (owner entry.value) k.seat).1 q)) hon
                    (ground arith)
            ]
      ]

  pub Honest-kept :
      (k : Taker) (size most : ℕ) (m m' : Market T U) (s : Tally)
      → m'.header.lot_config ≡ m.header.lot_config
      → m'.header.fees ≡ m.header.fees
      → Honest m k size most s
      → Honest m' k size most s
  Honest-kept k size most m m' s lots fees hon = record {
    balanced = hon.balanced;
    fair = rw (lots, fees) hon.fair;
    few = hon.few;
  }
