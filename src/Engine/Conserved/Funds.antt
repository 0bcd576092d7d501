-- ===== src/Engine/Conserved/Funds.antt =====
-- crates/clob-engine/src/market/funds.rs and mod.rs: value moved in and out, fees collected, and the
-- set-up of a market, under the invariant.
use clob_dex.Prelude.{
  ℕ, ◌+◌, ◌-◌, ◌≤◌, ◌≡◌, ◌≢◌, refl, ap, subst, none, some, List, [], ◌∷◌, ◌==◌, arith, not, ◌||◌,
  length,
}
use clob_dex.Quantities.{checked_add, checked_sub}
use clob_dex.Quantities.Lots.{LotConfig}
use clob_dex.Order.{bid, ask}
use clob_dex.Tree.{value_at}
use clob_dex.Tree.Entries.{sum_by-set_at}
use clob_dex.Book.{BookTree, is_empty, len}
use clob_dex.Engine.Error.{
  ok, market_already_initialized, >>=-eq-ok, fail_if-eq-ok, ok_or, overflow,
  insufficient_base_funds, insufficient_quote_funds,
}
use clob_dex.Engine.Fees.{FeeSchedule}
use clob_dex.Engine.Trader.{TraderState, no_funds}
use clob_dex.Engine.Seats.{SeatTree, SeatIndex, state, set_state}
use clob_dex.Engine.Market.{
  Market, MarketHeader, deposit, withdraw, collect_fees, initialize, is_blank_header, new_header,
  validate_header,
}
use clob_dex.Engine.Conserved.{base_of, quote_of, seats, bids, asks, Conserved}
use clob_dex.Engine.Conserved.OneSeat.{state_live, set_state_live}
use clob_dex.Engine.Conserved.FreeFunds.{
  checked_add-eq-ok, checked_sub-eq-ok, free_changed, set_state-entries, state-value,
}

module _ {T U : Type 0} (t : BookTree T) (u : SeatTree U) where
  -- A deposit to a claimed seat that succeeds keeps the conservation invariant.
  pub deposit-Conserved :
      (m m' : Market T U) (seat : SeatIndex) (base quote : ℕ)
      → Conserved t u m
      → value_at seat (seats t u m) ≢ none
      → deposit t u m seat base quote ≡ ok m'
      → Conserved t u m'
  unfolding deposit
  deposit-Conserved m m' seat base quote c claimed e =
      let (a, e₁, f₁) =
        >>=-eq-ok (ok_or (checked_add m.header.base_lots_deposited base) overflow) _ e in
      let (b, e₂, f₂) =
        >>=-eq-ok (ok_or (checked_add m.header.quote_lots_deposited quote) overflow) _ f₁ in
      let (st, e₃, f₃) = >>=-eq-ok (state u m.traders seat) _ f₂ in
      let (x, e₄, f₄) = >>=-eq-ok (ok_or (checked_add st.base_lots_free base) overflow) _ f₃ in
      let (y, e₅, f₅) = >>=-eq-ok (ok_or (checked_add st.quote_lots_free quote) overflow) _ f₄ in
      let (s, e₆, f₆) =
        >>=-eq-ok
          (set_state u m.traders seat (record st { base_lots_free = x; quote_lots_free = y })) _
          f₅ in
      let p = state-value t u m.traders seat claimed e₃ in
      let w = set_state-entries t u m.traders seat st _ p e₆ in
      subst (Conserved t u) (ground arith) (
        free_changed t u m (record m.header { base_lots_deposited = a; quote_lots_deposited = b }) s
          seat st (record st { base_lots_free = x; quote_lots_free = y }) c p w refl refl refl
          (omega (arith, checked_add-eq-ok _ _ overflow e₁, checked_add-eq-ok _ _ overflow e₄))
          (omega (arith, checked_add-eq-ok _ _ overflow e₂, checked_add-eq-ok _ _ overflow e₅))
          refl)

  -- A withdrawal that succeeds keeps the invariant.
  pub withdraw-Conserved :
      (m m' : Market T U) (seat : SeatIndex) (base quote : ℕ)
      → Conserved t u m
      → value_at seat (seats t u m) ≢ none
      → withdraw t u m seat base quote ≡ ok m'
      → Conserved t u m'
  unfolding withdraw
  withdraw-Conserved m m' seat base quote c claimed e =
      let (st, e₁, f₁) = >>=-eq-ok (state u m.traders seat) _ e in
      let (x, e₂, f₂) =
        >>=-eq-ok (ok_or (checked_sub st.base_lots_free base) insufficient_base_funds) _ f₁ in
      let (y, e₃, f₃) =
        >>=-eq-ok (ok_or (checked_sub st.quote_lots_free quote) insufficient_quote_funds) _ f₂ in
      let (a, e₄, f₄) =
        >>=-eq-ok (ok_or (checked_sub m.header.base_lots_deposited base) insufficient_base_funds) _
          f₃ in
      let (b, e₅, f₅) =
        >>=-eq-ok (ok_or (checked_sub m.header.quote_lots_deposited quote) insufficient_quote_funds)
          _ f₄ in
      let (s, e₆, f₆) =
        >>=-eq-ok
          (set_state u m.traders seat (record st { base_lots_free = x; quote_lots_free = y })) _
          f₅ in
      let p = state-value t u m.traders seat claimed e₁ in
      let w = set_state-entries t u m.traders seat st _ p e₆ in
      subst (Conserved t u) (ground arith) (
        free_changed t u m (record m.header { base_lots_deposited = a; quote_lots_deposited = b }) s
          seat st (record st { base_lots_free = x; quote_lots_free = y }) c p w refl refl refl
          (omega (
            arith,
            checked_sub-eq-ok _ _ insufficient_base_funds e₂,
            checked_sub-eq-ok _ _ insufficient_base_funds e₄,
          ))
          (omega (
            arith,
            checked_sub-eq-ok _ _ insufficient_quote_funds e₃,
            checked_sub-eq-ok _ _ insufficient_quote_funds e₅,
          ))
          refl)

  -- No seat holds more than the market's totals.
  backed_by_deposits :
      (m : Market T U) (seat : SeatIndex) (st : TraderState)
      → Conserved t u m
      → value_at seat (seats t u m) ≡ some st
      → (base_of st ≤ m.header.base_lots_deposited)
        × (quote_of st + m.header.unclaimed_quote_lot_fees ≤ m.header.quote_lots_deposited)
  backed_by_deposits m seat st c p = (
    omega (arith, c.base_total, sum_by-set_at base_of seat st no_funds (seats t u m) p),
    omega (arith, c.quote_total, sum_by-set_at quote_of seat st no_funds (seats t u m) p),
  )

  -- Under the conservation invariant a claimed seat can withdraw anything up to its free balances,
  -- and the invariant holds after.
  pub withdraw-succeeds :
      (m : Market T U) (seat : SeatIndex) (st : TraderState) (base quote : ℕ)
      → Conserved t u m
      → value_at seat (seats t u m) ≡ some st
      → base ≤ st.base_lots_free
      → quote ≤ st.quote_lots_free
      → (m' : Market T U) × (withdraw t u m seat base quote ≡ ok m') × Conserved t u m'
  unfolding withdraw checked_sub
  withdraw-succeeds m seat st base quote c p small_base small_quote =
      let held = backed_by_deposits m seat st c p in
      let st' : TraderState = record st {
        base_lots_free = st.base_lots_free - base;
        quote_lots_free = st.quote_lots_free - quote;
      } in
      let (s, done, written) = set_state_live u m.traders seat st st' p in
      let hd : MarketHeader = record m.header {
        base_lots_deposited = m.header.base_lots_deposited - base;
        quote_lots_deposited = m.header.quote_lots_deposited - quote;
      } in
      let e : withdraw t u m seat base quote ≡ ok (record m { header = hd; traders = s }) =
        ground (arith, state_live u m.traders seat st p, done, held) in
      (
        record m { header = hd; traders = s },
        e,
        withdraw-Conserved m _ seat base quote c (ground arith) e,
      )

  -- Under the conservation invariant collecting the fees cannot fail: it answers what was
  -- unclaimed, takes exactly that off the deposits, leaves nothing unclaimed, and keeps the
  -- invariant.
  pub collect_fees-succeeds :
      (m : Market T U)
      → Conserved t u m
      → (m' : Market T U) × (collect_fees t u m ≡ ok (m.header.unclaimed_quote_lot_fees, m'))
        × (m'.header.unclaimed_quote_lot_fees ≡ 0)
        × (m'.header.quote_lots_deposited + m.header.unclaimed_quote_lot_fees
            ≡ m.header.quote_lots_deposited)
        × Conserved t u m'
  unfolding collect_fees checked_sub
  collect_fees-succeeds m c =
      let hd : MarketHeader = record m.header {
        unclaimed_quote_lot_fees = 0;
        quote_lots_deposited = m.header.quote_lots_deposited - m.header.unclaimed_quote_lot_fees;
      } in
      (
        record m { header = hd },
        ground (arith, c.quote_total),
        refl,
        omega (arith, c.quote_total),
        record {
          base_total = c.base_total;
          quote_total = omega (arith, c.quote_total);
          base_backed = c.base_backed;
          quote_backed = c.quote_backed;
          bids_owned = c.bids_owned;
          asks_owned = c.asks_owned;
          filed = c.filed;
        },
      )

  nothing_held : {A : Type 0} (es : List A) → length es ≡ 0 → es ≡ []
  nothing_held [] e = refl
  nothing_held (x ∷ es) e = absurd (omega arith)

  -- Initialising a market, where it succeeds, establishes the conservation invariant.
  pub initialize-Conserved :
      (m m' : Market T U) (lots : LotConfig) (fees : FeeSchedule)
      → initialize t u m lots fees ≡ ok m'
      → Conserved t u m'
  unfolding initialize new_header is_empty len
  initialize-Conserved m m' lots fees e =
      let (blank, e₁) =
        fail_if-eq-ok
          (not (is_blank_header m.header)
            || not (u.len m.traders == 0)
            || not (is_empty t m.book bid)
            || not (is_empty t m.book ask))
          market_already_initialized _ e in
      let (hd, e₂, e₃) = >>=-eq-ok (new_header lots fees) _ e₁ in
      let (valid, e₄, e₅) = >>=-eq-ok (validate_header lots fees) _ e₂ in
      let no_seats : seats t u m ≡ [] = nothing_held _ (ground (arith, u.len_lem m.traders)) in
      let no_bids : bids t u m ≡ [] = nothing_held _ (ground (arith, t.len_lem m.book.bids)) in
      let no_asks : asks t u m ≡ [] = nothing_held _ (ground (arith, t.len_lem m.book.asks)) in
      let fresh : Conserved t u (record m { header = hd }) = record {
        base_total = rw no_seats (ground arith);
        quote_total = rw no_seats (ground arith);
        base_backed = λ j x p. absurd (ground (arith, ap (value_at j) no_seats));
        quote_backed = λ j x p. absurd (ground (arith, ap (value_at j) no_seats));
        bids_owned = rw no_bids tt;
        asks_owned = rw no_asks tt;
        filed = record { bids_filed = rw no_bids tt; asks_filed = rw no_asks tt };
      } in
      subst (Conserved t u) (ground arith) fresh
