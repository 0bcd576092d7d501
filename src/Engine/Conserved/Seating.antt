-- ===== src/Engine/Conserved/Seating.antt =====
-- crates/clob-engine/src/trader/table.rs under the invariant: claiming a seat and releasing one.
use clob_dex.Prelude.{
  ℕ, ◌*◌, ◌<◌, ◌≡◌, ◌≢◌, refl, sym, ap, subst, ◌∙◌, none, some, List, [], ◌∷◌, ◌==◌, ==_iff,
  if◌then◌else◌, All, All-imp, sum_by, arith, inl, inr,
}
use clob_dex.Order.{FifoOrderId, RestingOrder}
use clob_dex.Tree.{value_at, drop_at, insert_entry, Distinct}
use clob_dex.Tree.Entries.{
  sum_by-insert_entry, sum_by-drop_at, value_at_absent, value_at-drop_at_self, value_at-drop_at_ne,
}
use clob_dex.Book.{BookEntry, BookTree}
use clob_dex.Engine.Error.{ok, >>=-eq-ok}
use clob_dex.Engine.Trader.{no_funds}
use clob_dex.Engine.Seats.{
  SeatTree, SeatIndex, TraderKey, compare_key, claim_seat, release_seat, index_of,
}
use clob_dex.Engine.Seats.Claim.{
  claim_seat_lem, index_of-live, release_seat_lem, insert_entry-apart, value_at-insert_entry,
}
use clob_dex.Engine.Market.{Market, market_claim_seat, market_release_seat}
use clob_dex.Engine.Conserved.{
  SeatEntry, base_of, quote_of, owner, Owned, seats, bids, asks, per_lot, Conserved,
}

-- A slot that no seat is in locks nothing.
none_locked :
    (w : FifoOrderId → RestingOrder → ℕ) (h : SeatIndex) (es : List SeatEntry) (os : List BookEntry)
    → value_at h es ≡ none
    → Owned es os
    → sum_by (λ e. if owner e.value == h then w e.key e.value else 0) os ≡ 0
none_locked w h es [] p o = refl
none_locked w h es (x ∷ os) p o = ground (arith, none_locked w h es os p o.1)

Owned-insert :
    (n : SeatEntry) (es : List SeatEntry) (os : List BookEntry)
    → All (λ f. f.handle ≢ n.handle) es
    → Owned es os
    → Owned (insert_entry compare_key n es) os
Owned-insert n es os a =
    All-imp (λ e q. ground (arith, value_at-insert_entry compare_key n es (owner e.value) a)) os

module _ {T U : Type 0} (t : BookTree T) (u : SeatTree U) where
  new_seat :
      (m : Market T U) (s : U) (h : SeatIndex) (key : TraderKey)
      → Conserved t u m
      → u.entries s
        ≡ insert_entry compare_key
            (record { handle = h; key = key; value = no_funds })
            (seats t u m)
      → Conserved t u (record m { traders = s })
        × (value_at h (u.entries s) ≡ some no_funds)
        × ((j : SeatIndex) → value_at j (seats t u m) ≢ none → value_at j (u.entries s) ≢ none)
  new_seat m s h key c grown =
      let n : SeatEntry = record { handle = h; key = key; value = no_funds } in
      let apart =
        insert_entry-apart compare_key n (seats t u m)
          (subst Distinct grown (u.well_formed s).distinct) in
      let reads : (j : SeatIndex)
          → value_at j (u.entries s)
            ≡ (if h == j then some no_funds else value_at j (seats t u m)) =
        λ j. ap (value_at j) grown ∙ value_at-insert_entry compare_key n (seats t u m) j apart in
      let empty = value_at_absent h (seats t u m) apart in
      (
        record {
          base_total = rw grown (
              ground (
                arith,
                sum_by-insert_entry compare_key (λ e. base_of e.value) n (seats t u m),
                c.base_total,
              ));
          quote_total = rw grown (
              ground (
                arith,
                sum_by-insert_entry compare_key (λ e. quote_of e.value) n (seats t u m),
                c.quote_total,
              ));
          base_backed = λ j x p. ground (
            arith,
            reads j,
            c.base_backed j x,
            none_locked (λ i o. o.num_base_lots) h (seats t u m) (asks t u m) empty c.asks_owned,
          );
          quote_backed = λ j x p. ground (
            arith,
            reads j,
            c.quote_backed j x,
            none_locked (λ i o. i.price_in_ticks * per_lot t u m * o.num_base_lots) h (seats t u m)
                (bids t u m) empty c.bids_owned,
          );
          bids_owned = rw grown (Owned-insert n (seats t u m) _ apart c.bids_owned);
          asks_owned = rw grown (Owned-insert n (seats t u m) _ apart c.asks_owned);
          filed = c.filed;
        },
        ground (arith, reads h),
        λ j p. ground (arith, reads j),
      )

  -- A claim that succeeds keeps the conservation invariant and the claimed seats, and the seat it
  -- answers is claimed.
  pub claim_seat-Conserved :
      (m m' : Market T U) (key : TraderKey) (h : SeatIndex)
      → Conserved t u m
      → market_claim_seat t u m key ≡ ok (h, m')
      → Conserved t u m'
        × (value_at h (seats t u m') ≢ none)
        × ((j : SeatIndex) → value_at j (seats t u m) ≢ none → value_at j (seats t u m') ≢ none)
  unfolding market_claim_seat index_of
  claim_seat-Conserved m m' key h c e =
      let ((h₁, s), e₁, e₂) = >>=-eq-ok (claim_seat u m.traders key) _ e in
      elim (claim_seat_lem u m.traders key) [
        | inl (found, known) ↦
            let same : m ≡ m' = ground arith in
            let same_h : index_of u m.traders key ≡ h = ground arith in
            let (st, live) = index_of-live u m.traders key found in
            subst
              (λ x.
                Conserved t u x
                × (value_at h (seats t u x) ≢ none)
                × ((j : SeatIndex)
                    → value_at j (seats t u m) ≢ none
                    → value_at j (seats t u x) ≢ none))
              same (c, λ q. ground (arith, ap (λ x. value_at x (seats t u m)) same_h), λ j n. n)
        | inr (inl (absent, full, _, refused)) ↦ absurd (cc)
        | inr (inr (h₂, s₂, absent, _, _, claimed, grown)) ↦
            let same : record m { traders = s₂ } ≡ m' = ground arith in
            let same_h : h₂ ≡ h = ground arith in
            let (c', read, others) = new_seat m s₂ h₂ key c grown in
            subst
              (λ x.
                Conserved t u x
                × (value_at h (seats t u x) ≢ none)
                × ((j : SeatIndex)
                    → value_at j (seats t u m) ≢ none
                    → value_at j (seats t u x) ≢ none))
              same
              (c', λ q. ground (arith, read, ap (λ x. value_at x (u.entries s₂)) same_h), others)
      ]

  -- Every resting order backs its owner's seat with something.
  pub record Worthy (m : Market T U) : Type 0 where
    pub bids_worth :
        All (λ e. 0 < e.key.price_in_ticks * per_lot t u m * e.value.num_base_lots) (bids t u m)
    pub asks_worth : All (λ e. 0 < e.value.num_base_lots) (asks t u m)

  -- A seat that locks nothing has no order among those of positive weight.
  not_owner :
      (w : FifoOrderId → RestingOrder → ℕ) (h : SeatIndex) (os : List BookEntry)
      → All (λ e. 0 < w e.key e.value) os
      → sum_by (λ e. if owner e.value == h then w e.key e.value else 0) os ≡ 0
      → All (λ e. owner e.value ≢ h) os
  not_owner w h [] a p = tt
  not_owner w h (x ∷ os) a p = (
    λ q. ground (arith, (==_iff (owner x.value) h).1 q, a.0),
    not_owner w h os a.1 (ground arith),
  )

  Owned-drop :
      (h : SeatIndex) (es : List SeatEntry) (os : List BookEntry)
      → Owned es os
      → All (λ e. owner e.value ≢ h) os
      → Owned (drop_at h es) os
  Owned-drop h es [] o a = tt
  Owned-drop h es (x ∷ os) o a = (
    λ q. o.0 (sym (value_at-drop_at_ne h (owner x.value) es (λ r. a.0 (sym r))) ∙ q),
    Owned-drop h es os o.1 a.1,
  )

  -- Where every resting order has a positive size and value, a release that succeeds keeps the
  -- conservation invariant and the seat is gone.
  pub release_seat-Conserved :
      (m m' : Market T U) (key : TraderKey)
      → Conserved t u m
      → Worthy m
      → market_release_seat t u m key ≡ ok m'
      → Conserved t u m' × (value_at (index_of u m.traders key) (seats t u m') ≡ none)
  unfolding market_release_seat
  release_seat-Conserved m m' key c w e =
      let (s, e₁, e₂) = >>=-eq-ok (release_seat u m.traders key) _ e in
      let (held, dropped) = release_seat_lem u m.traders key e₁ in
      let h = index_of u m.traders key in
      let same : record m { traders = s } ≡ m' = ground arith in
      let gone : value_at h (u.entries s) ≡ none =
        ap (value_at h) dropped
        ∙ value_at-drop_at_self h (seats t u m) (u.well_formed m.traders).distinct in
      let reads : (j : SeatIndex) → h ≢ j → value_at j (u.entries s) ≡ value_at j (seats t u m) =
        λ j n. ap (value_at j) dropped ∙ value_at-drop_at_ne h j (seats t u m) n in
      let no_bids =
        not_owner (λ i o. i.price_in_ticks * per_lot t u m * o.num_base_lots) h (bids t u m)
          w.bids_worth (sym (c.quote_backed h no_funds held)) in
      let no_asks =
        not_owner (λ i o. o.num_base_lots) h (asks t u m) w.asks_worth
          (sym (c.base_backed h no_funds held)) in
      subst (λ x. Conserved t u x × (value_at h (seats t u x) ≡ none)) same
        (
          record {
            base_total = rw dropped (
                ground (arith, sum_by-drop_at base_of h no_funds (seats t u m) held, c.base_total));
            quote_total = rw dropped (
                ground
                  (arith, sum_by-drop_at quote_of h no_funds (seats t u m) held, c.quote_total));
            base_backed = λ j x p. c.base_backed j x (
                sym (reads j (λ q. ground (arith, gone, ap (λ i. value_at i (u.entries s)) q)))
                ∙ p);
            quote_backed = λ j x p. c.quote_backed j x (
                sym (reads j (λ q. ground (arith, gone, ap (λ i. value_at i (u.entries s)) q)))
                ∙ p);
            bids_owned = rw dropped (Owned-drop h (seats t u m) _ c.bids_owned no_bids);
            asks_owned = rw dropped (Owned-drop h (seats t u m) _ c.asks_owned no_asks);
            filed = c.filed;
          },
          gone,
        )
