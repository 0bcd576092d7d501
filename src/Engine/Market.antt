-- ===== src/Engine/Market.antt =====
-- crates/clob-engine/src/market/mod.rs, header.rs and funds.rs: the market's state, its set-up and
-- its seats, and moving value in and out.
use clob_dex.Prelude.{Bool, not, ◌||◌, ◌&&◌, none, some, ◌==◌}
use clob_dex.Quantities.{Ticks, BaseLots, QuoteLots, checked_add, checked_sub}
use clob_dex.Quantities.Lots.{LotConfig, validate, quote_lots_for}
use clob_dex.Order.{Side, bid, ask, FifoOrderId, side_of}
use clob_dex.Book.{OrderBook, BookTree, get_order, is_empty}
use clob_dex.Engine.Error.{
  Result, ok, err, ◌>>=◌, ◌>>◌, ok_or, fail_if, overflow, order_not_found,
  market_already_initialized, invalid_lot_config, insufficient_base_funds, insufficient_quote_funds,
}
use clob_dex.Engine.Fees.{FeeSchedule, validate_fees}
use clob_dex.Engine.Trader.{TraderState, unlock_base, unlock_quote}
use clob_dex.Engine.Seats.{
  SeatTree, SeatIndex, TraderKey, as_seat, state, set_state, claim_seat, release_seat,
}

pub record MarketHeader : Type 0 where
  pub lot_config : LotConfig
  pub fees : FeeSchedule
  pub base_lots_deposited : BaseLots
  pub quote_lots_deposited : QuoteLots
  pub collected_quote_lot_fees : QuoteLots
  pub unclaimed_quote_lot_fees : QuoteLots

-- `MarketHeader::validate`
unfoldable pub validate_header : LotConfig → FeeSchedule → Result (Unit {0})
validate_header lots fees = elim (validate lots) [
  | some e ↦ err (invalid_lot_config e)
  | none ↦ validate_fees fees
]

-- `MarketHeader::new`
unfoldable pub new_header : LotConfig → FeeSchedule → Result MarketHeader
unfolding validate_header
new_header lots fees = do
  validate_header lots fees
  ok (record {
    lot_config = lots;
    fees = fees;
    base_lots_deposited = 0;
    quote_lots_deposited = 0;
    collected_quote_lot_fees = 0;
    unclaimed_quote_lot_fees = 0;
  })

pub record Market (T U : Type 0) : Type 0 where
  pub header : MarketHeader
  pub traders : U
  pub book : OrderBook T

-- `header != MarketHeader::default()`
unfoldable pub is_blank_header : MarketHeader → Bool
is_blank_header h =
    h.lot_config.base_lots_per_base_unit == 0
    && h.lot_config.tick_size_in_quote_lots_per_base_unit == 0
    && h.lot_config.base_atoms_per_base_lot == 0
    && h.lot_config.quote_atoms_per_quote_lot == 0
    && h.fees.taker_fee_bps == 0
    && h.base_lots_deposited == 0
    && h.quote_lots_deposited == 0
    && h.collected_quote_lot_fees == 0
    && h.unclaimed_quote_lot_fees == 0

module _ {T U : Type 0} (t : BookTree T) (u : SeatTree U) where
  unfoldable pub initialize : Market T U → LotConfig → FeeSchedule → Result (Market T U)
  unfolding is_blank_header
  initialize m lots fees = do
    fail_if
        (not (is_blank_header m.header)
          || not (u.len m.traders == 0)
          || not (is_empty t m.book bid)
          || not (is_empty t m.book ask))
        market_already_initialized
    header ← new_header lots fees
    ok (record m { header = header })

  unfoldable pub market_claim_seat : Market T U → TraderKey → Result (SeatIndex × Market T U)
  market_claim_seat m key = do
    (seat, traders) ← claim_seat u m.traders key
    ok (seat, record m { traders = traders })

  unfoldable pub market_release_seat : Market T U → TraderKey → Result (Market T U)
  market_release_seat m key = do
    traders ← release_seat u m.traders key
    ok (record m { traders = traders })

  unfoldable pub quote_value : Market T U → Ticks → BaseLots → Result QuoteLots
  quote_value m price lots = ok_or (quote_lots_for m.header.lot_config price lots) overflow

  -- `traders.state_mut(seat)?.change(...)?`
  unfoldable pub with_state :
      Market T U → SeatIndex → (TraderState → Result TraderState) → Result (Market T U)
  unfolding state set_state
  with_state m seat change = do
    st ← state u m.traders seat
    st' ← change st
    traders ← set_state u m.traders seat st'
    ok (record m { traders = traders })

  unfoldable pub unlock_on : Side → Market T U → Ticks → SeatIndex → BaseLots → Result (Market T U)
  unlock_on ask m price seat lots = with_state m seat (λ st. unlock_base st lots)
  unlock_on bid m price seat lots = do
    quote ← quote_value m price lots
    with_state m seat (λ st. unlock_quote st quote)

  unfoldable pub unlock_backing :
      Market T U → FifoOrderId → SeatIndex → BaseLots → Result (Market T U)
  unlock_backing m id seat lots = unlock_on (side_of id) m id.price_in_ticks seat lots

  unfoldable pub owner_of : Market T U → FifoOrderId → Result SeatIndex
  owner_of m id = do
    order ← ok_or (get_order t m.book id) order_not_found
    ok (as_seat order.trader_index)

  unfoldable pub deposit : Market T U → SeatIndex → BaseLots → QuoteLots → Result (Market T U)
  unfolding checked_add state set_state
  deposit m seat base quote = do
    base_deposited ← ok_or (checked_add m.header.base_lots_deposited base) overflow
    quote_deposited ← ok_or (checked_add m.header.quote_lots_deposited quote) overflow
    st ← state u m.traders seat
    base_free ← ok_or (checked_add st.base_lots_free base) overflow
    quote_free ← ok_or (checked_add st.quote_lots_free quote) overflow
    traders ←
        set_state u m.traders seat
          (record st { base_lots_free = base_free; quote_lots_free = quote_free })
    ok (record m {
      header = record m.header {
        base_lots_deposited = base_deposited;
        quote_lots_deposited = quote_deposited;
      };
      traders = traders;
    })

  unfoldable pub withdraw : Market T U → SeatIndex → BaseLots → QuoteLots → Result (Market T U)
  unfolding checked_sub state set_state
  withdraw m seat base quote = do
    st ← state u m.traders seat
    base_free ← ok_or (checked_sub st.base_lots_free base) insufficient_base_funds
    quote_free ← ok_or (checked_sub st.quote_lots_free quote) insufficient_quote_funds
    base_deposited ← ok_or (checked_sub m.header.base_lots_deposited base) insufficient_base_funds
    quote_deposited ←
        ok_or (checked_sub m.header.quote_lots_deposited quote) insufficient_quote_funds
    traders ←
        set_state u m.traders seat
          (record st { base_lots_free = base_free; quote_lots_free = quote_free })
    ok (record m {
      header = record m.header {
        base_lots_deposited = base_deposited;
        quote_lots_deposited = quote_deposited;
      };
      traders = traders;
    })

  unfoldable pub withdraw_all :
      Market T U → SeatIndex → Result ((BaseLots × QuoteLots) × Market T U)
  unfolding state
  withdraw_all m seat = do
    st ← state u m.traders seat
    m' ← withdraw m seat st.base_lots_free st.quote_lots_free
    ok ((st.base_lots_free, st.quote_lots_free), m')

  unfoldable pub collect_fees : Market T U → Result (QuoteLots × Market T U)
  unfolding checked_sub
  collect_fees m = do
    let amount = m.header.unclaimed_quote_lot_fees
    deposited ← ok_or (checked_sub m.header.quote_lots_deposited amount) overflow
    ok (
      amount,
      record m {
        header = record m.header { unclaimed_quote_lot_fees = 0; quote_lots_deposited = deposited };
      },
    )

  unfoldable pub accrue_fee : Market T U → QuoteLots → Result (Market T U)
  unfolding checked_add
  accrue_fee m amount = do
    unclaimed ← ok_or (checked_add m.header.unclaimed_quote_lot_fees amount) overflow
    collected ← ok_or (checked_add m.header.collected_quote_lot_fees amount) overflow
    ok (record m {
      header = record m.header {
        unclaimed_quote_lot_fees = unclaimed;
        collected_quote_lot_fees = collected;
      };
    })
