-- ===== src/Engine/Conserved/Settle.antt =====
-- Settling a fill: value moves between two seats, the fee accrues, and the maker's order shrinks.
use clob_dex.Prelude.{
  ℕ, ◌+◌, ◌-◌, ◌*◌, ◌≤◌, ◌≡◌, ◌≢◌, refl, sym, ap, subst, ◌∙◌, none, some, arith, inl, inr,
  Option-cases,
}
use clob_dex.Order.{Side, bid, ask, FifoOrderId, RestingOrder, side_of, compare_id, opposite}
use clob_dex.Tree.{value_at, set_at}
use clob_dex.Tree.Entries.{value_of}
use clob_dex.Book.{OrderBook, BookTree, get_order}
use clob_dex.Book.Remove.{orders, Leaves, get_order_lem}
use clob_dex.Engine.Error.{ok, >>=-eq-ok}
use clob_dex.Engine.Trader.{TraderState}
use clob_dex.Engine.Seats.{SeatTree, SeatIndex, state, set_state}
use clob_dex.Engine.Market.{Market, MarketHeader, accrue_fee}
use clob_dex.Engine.Matching.{settle_states, settle_fill}
use clob_dex.Engine.Conserved.{owner, seats, per_lot, Conserved, Keeps}
use clob_dex.Engine.Conserved.OneSeat.{state_live, set_state_live}
use clob_dex.Engine.Conserved.TakeOff.{owner-claimed}
use clob_dex.Engine.Conserved.TwoSeats.{both, at_g_after, claimed-both}
use clob_dex.Engine.Conserved.FilledSides.{settle_ask, settle_bid}

module _ {T U : Type 0} (t : BookTree T) (u : SeatTree U) where
  -- The header once a fee is accrued.
  abbrev pub with_fee : MarketHeader → ℕ → MarketHeader
  with_fee hd fee = record hd {
    unclaimed_quote_lot_fees = hd.unclaimed_quote_lot_fees + fee;
    collected_quote_lot_fees = hd.collected_quote_lot_fees + fee;
  }

  accrue_fee-eq-ok :
      (m : Market T U) {m₁ : Market T U} (fee : ℕ)
      → accrue_fee t u m fee ≡ ok m₁
      → m₁ ≡ record m { header = with_fee m.header fee }
  unfolding accrue_fee
  accrue_fee-eq-ok m fee e = ground arith

  -- A settlement that succeeds writes the two seats and the fee, and nothing else.
  pub settle_fill-eq-ok :
      (m : Market T U) {m₁ : Market T U} (h g : SeatIndex) (side : Side) (fill gross fee : ℕ)
      (maker taker : TraderState) (distinct : h ≢ g)
      (at_maker : value_at h (seats t u m) ≡ some maker)
      (at_taker : value_at g (seats t u m) ≡ some taker)
      → settle_fill t u m g h side fill gross fee ≡ ok m₁
      → (maker' : TraderState) × (taker' : TraderState) × (s : U) × (settle_states side maker taker
            fill gross fee
          ≡ ok (maker', taker'))
        × (u.entries s
            ≡ both (seats t u m) h g maker maker' taker taker' distinct at_maker at_taker)
        × (m₁ ≡ record { header = with_fee m.header fee; traders = s; book = m.book })
  unfolding settle_fill
  settle_fill-eq-ok m {m₁} h g side fill gross fee maker taker distinct at_maker at_taker e =
      let (a, ea, e₁) = >>=-eq-ok (state u m.traders h) _ e in
      let same_a : maker ≡ a = ground (arith, state_live u m.traders h maker at_maker) in
      let (b, eb, e₂) = >>=-eq-ok (state u m.traders g) _ e₁ in
      let same_b : taker ≡ b = ground (arith, state_live u m.traders g taker at_taker) in
      let (st, est, e₃) = >>=-eq-ok (settle_states side a b fill gross fee) _ e₂ in
      let w₁ = set_state_live u m.traders h maker st.0 at_maker in
      let (s₁, es₁, e₄) = >>=-eq-ok (set_state u m.traders h st.0) _ e₃ in
      let same_s₁ : w₁.0 ≡ s₁ = ground (arith, w₁.1) in
      let entries₁ = subst (λ x. u.entries x ≡ set_at h st.0 (seats t u m)) same_s₁ w₁.2 in
      let at_taker₁ : value_at g (u.entries s₁) ≡ some taker =
        rw entries₁
          (at_g_after (seats t u m) h g maker st.0 taker taker distinct at_maker at_taker) in
      let w₂ = set_state_live u s₁ g taker st.1 at_taker₁ in
      let (s₂, es₂, e₅) = >>=-eq-ok (set_state u s₁ g st.1) _ e₄ in
      let same_s₂ : w₂.0 ≡ s₂ = ground (arith, w₂.1) in
      let entries₂ = subst (λ x. u.entries x ≡ set_at g st.1 (u.entries s₁)) same_s₂ w₂.2 in
      (
        st.0,
        st.1,
        s₂,
        rw (same_a, same_b) est,
        entries₂ ∙ ap (set_at g st.1) entries₁,
        accrue_fee-eq-ok (record m { traders = s₂ }) fee e₅,
      )

  -- A fill at the maker's price, with its fee, keeps the invariant.
  pub settle_fill-Keeps :
      (m : Market T U) {m₁ : Market T U} (b' : OrderBook T) (id : FifoOrderId)
      (order : RestingOrder) (side : Side) (g : SeatIndex) (fill gross fee : ℕ)
      → Conserved t u m
      → get_order t m.book id ≡ some order
      → side_of id ≡ opposite side
      → owner order ≢ g
      → value_at g (seats t u m) ≢ none
      → fill ≤ order.num_base_lots
      → gross ≡ id.price_in_ticks * per_lot t u m * fill
      → settle_fill t u m g (owner order) side fill gross fee ≡ ok m₁
      → Leaves t m.book b' id order (order.num_base_lots - fill)
      → Keeps t u m (record m₁ { book = b' }) × (m₁.book ≡ m.book)
  unfolding opposite
  settle_fill-Keeps m {m₁} b' id order side g fill gross fee c h tag ne claimed small worth e l =
      let (maker, at_maker) = owner-claimed t u m id order c h in
      elim (Option-cases (value_at g (seats t u m))) [
        | inl no_taker ↦ absurd (claimed no_taker)
        | inr (taker, at_taker) ↦
            let (maker', taker', s, moved, written, same) =
              settle_fill-eq-ok m (owner order) g side fill gross fee maker taker ne at_maker
                at_taker e in
            subst (λ x. Keeps t u m (record x { book = b' }) × (x.book ≡ m.book)) (sym same)
              (
                record {
                  conserved =
                      conserved maker taker maker' taker' at_maker at_taker s written side tag
                        (sym (get_order_lem t m.book id) ∙ h) moved;
                  claimed = λ j n. rw written (
                      claimed-both (seats t u m) (owner order) g maker maker' taker taker' ne
                        at_maker at_taker j n);
                  lots_kept = refl;
                  fees_kept = refl;
                  counter_kept = l.sequence_kept;
                },
                refl,
              )
      ]
    where
      conserved :
          (maker taker maker' taker' : TraderState)
          (at_maker : value_at (owner order) (seats t u m) ≡ some maker)
          (at_taker : value_at g (seats t u m) ≡ some taker) (s : U)
          → u.entries s
            ≡ both (seats t u m) (owner order) g maker maker' taker taker' ne at_maker at_taker
          → (side : Side) → side_of id ≡ opposite side
          → value_of compare_id id (orders t (side_of id) m.book) ≡ some order
          → settle_states side maker taker fill gross fee ≡ ok (maker', taker')
          → Conserved t u (record { header = with_fee m.header fee; traders = s; book = b' })
      conserved maker taker maker' taker' at_maker at_taker s written bid tag found moved =
          settle_ask t u m c id order fill gross fee g maker taker maker' taker' ne at_maker
            at_taker small worth b' s (with_fee m.header fee) l written refl refl refl refl tag
            (subst (λ x. value_of compare_id id (orders t x m.book) ≡ some order) tag found) moved
      conserved maker taker maker' taker' at_maker at_taker s written ask tag found moved =
          settle_bid t u m c id order fill gross fee g maker taker maker' taker' ne at_maker
            at_taker small worth b' s (with_fee m.header fee) l written refl refl refl refl tag
            (subst (λ x. value_of compare_id id (orders t x m.book) ≡ some order) tag found) moved
