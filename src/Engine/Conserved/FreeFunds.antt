-- ===== src/Engine/Conserved/FreeFunds.antt =====
-- crates/clob-engine/src/market/funds.rs: the free funds of one seat and the totals change together.
use clob_dex.Prelude.{ℕ, ◌+◌, ◌≡◌, ◌≢◌, ap, subst, none, some, arith, inl, inr, Option-cases}
use clob_dex.Quantities.{checked_add, checked_sub}
use clob_dex.Tree.{value_at, set_at}
use clob_dex.Tree.Entries.{sum_by-set_at, value_at-set_at}
use clob_dex.Book.{BookTree}
use clob_dex.Engine.Error.{EngineError, ok, ok_or}
use clob_dex.Engine.Trader.{TraderState}
use clob_dex.Engine.Seats.{SeatTree, SeatIndex, state, set_state}
use clob_dex.Engine.Market.{Market, MarketHeader}
use clob_dex.Engine.Conserved.{base_of, quote_of, seats, Conserved}
use clob_dex.Engine.Conserved.OneSeat.{Owned-set_at, state_live, set_state_live}

pub checked_add-eq-ok :
    (a b : ℕ) (x : EngineError) {c : ℕ} → ok_or (checked_add a b) x ≡ ok c → c ≡ a + b
unfolding checked_add
checked_add-eq-ok a b x e = ground arith

pub checked_sub-eq-ok :
    (a b : ℕ) (x : EngineError) {c : ℕ} → ok_or (checked_sub a b) x ≡ ok c → c + b ≡ a
unfolding checked_sub
checked_sub-eq-ok a b x e = ground arith

module _ {T U : Type 0} (t : BookTree T) (u : SeatTree U) where
  -- The free funds of one seat changed, and the header's two totals with them.
  pub free_changed :
      (m : Market T U) (hd : MarketHeader) (s : U) (seat : SeatIndex) (st st' : TraderState)
      → Conserved t u m
      → value_at seat (seats t u m) ≡ some st
      → u.entries s ≡ set_at seat st' (seats t u m)
      → st'.base_lots_locked ≡ st.base_lots_locked
      → st'.quote_lots_locked ≡ st.quote_lots_locked
      → hd.lot_config ≡ m.header.lot_config
      → hd.base_lots_deposited + base_of st ≡ m.header.base_lots_deposited + base_of st'
      → hd.quote_lots_deposited + quote_of st ≡ m.header.quote_lots_deposited + quote_of st'
      → hd.unclaimed_quote_lot_fees ≡ m.header.unclaimed_quote_lot_fees
      → Conserved t u (record m { header = hd; traders = s })
  free_changed m hd s seat st st' c p written base_kept quote_kept lots base quote fees = record {
    base_total =
        rw written
          (ground (arith, sum_by-set_at base_of seat st st' (seats t u m) p, c.base_total));
    quote_total =
        rw written
          (ground (arith, sum_by-set_at quote_of seat st st' (seats t u m) p, c.quote_total));
    base_backed = λ j x q. ground (
      arith,
      ap (value_at j) written,
      value_at-set_at seat j st st' (seats t u m) p,
      c.base_backed j x,
      c.base_backed seat st p,
    );
    quote_backed = λ j x q. rw lots (
        ground (
          arith,
          ap (value_at j) written,
          value_at-set_at seat j st st' (seats t u m) p,
          c.quote_backed j x,
          c.quote_backed seat st p,
        ));
    bids_owned = rw written (Owned-set_at seat st st' _ _ p c.bids_owned);
    asks_owned = rw written (Owned-set_at seat st st' _ _ p c.asks_owned);
    filed = c.filed;
  }

  -- Writing one claimed seat's balances through `set_state`.
  pub set_state-entries :
      (s : U) {s' : U} (h : SeatIndex) (st st' : TraderState)
      → value_at h (u.entries s) ≡ some st
      → set_state u s h st' ≡ ok s'
      → u.entries s' ≡ set_at h st' (u.entries s)
  set_state-entries s {s'} h st st' p e =
      let (w, done, written) = set_state_live u s h st st' p in
      let same : w ≡ s' = ground arith in
      subst (λ x. u.entries x ≡ set_at h st' (u.entries s)) same written

  pub state-value :
      (s : U) (h : SeatIndex) {st : TraderState}
      → value_at h (u.entries s) ≢ none
      → state u s h ≡ ok st
      → value_at h (u.entries s) ≡ some st
  state-value s h claimed e = elim (Option-cases (value_at h (u.entries s))) [
    | inl absent ↦ absurd (claimed absent)
    | inr (x, p) ↦ ground (arith, state_live u s h x p)
  ]
