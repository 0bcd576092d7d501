-- ===== src/Engine/Matching.antt =====
-- crates/clob-engine/src/market/matching.rs: the cross loop, and the settlement of each fill.
-- The loop variables travel in a `Tally`, with the fills that the observer was shown. Each round
-- touches one resting order, so the rounds left are the match limit less the orders touched, and
-- the loop recurs on them.
pub mod Accounts
pub mod Honest
pub mod Reasons
pub mod Limit
pub mod Rounds
pub mod Uncrossed
use clob_dex.Prelude.{
  ℕ, zero, suc, ◌-◌, Bool, true, false, not, Option, none, some, List, [], ◌∷◌, ◌++◌, ◌==◌, leb,
  ltb, if◌then◌else◌,
}
use clob_dex.Quantities.{Ticks, BaseLots, QuoteLots, is_zero, min, checked_add, checked_sub}
use clob_dex.Order.{Side, bid, ask, FifoOrderId, opposite}
use clob_dex.Book.{OrderBook, BookEntry, BookTree, cancel, resize, best}
use clob_dex.Engine.Error.{
  EngineError, Result, ok, err, ◌>>=◌, ◌>>◌, ok_or, overflow, order_not_found, self_trade_aborted,
}
use clob_dex.Engine.Fees.{fee_on}
use clob_dex.Engine.Trader.{
  TraderState, settle_locked_base, settle_locked_quote, credit_base, credit_quote, debit_base,
  debit_quote,
}
use clob_dex.Engine.Seats.{SeatTree, SeatIndex, as_seat, state, set_state}
use clob_dex.Engine.Packet.{SelfTradeBehavior, decrement_take, cancel_provide, abort}
use clob_dex.Engine.Fill.{
  Fill, MatchStop, fully_filled, price_limit, match_limit, book_empty, insufficient_funds,
}
use clob_dex.Engine.Market.{Market, quote_value, unlock_backing, accrue_fee}

-- The taker of one pass: its seat, side, limit price and self-trade policy.
pub record Taker : Type 0 where
  pub seat : SeatIndex
  pub side : Side
  pub limit : Option Ticks
  pub behavior : SelfTradeBehavior

pub record Tally : Type 0 where
  pub remaining : BaseLots
  pub base_lots_filled : BaseLots
  pub quote_lots_filled : QuoteLots
  pub fee_in_quote_lots : QuoteLots
  pub base_lots_self_traded : BaseLots
  pub fills : List Fill

abbrev pub start_tally : BaseLots → Tally
start_tally size = record {
  remaining = size;
  base_lots_filled = 0;
  quote_lots_filled = 0;
  fee_in_quote_lots = 0;
  base_lots_self_traded = 0;
  fills = [];
}

within : Side → Ticks → Ticks → Bool
within bid maker_price limit = leb maker_price limit
within ask maker_price limit = leb limit maker_price

-- No limit is a market order.
unfoldable pub accepts : Side → Ticks → Option Ticks → Bool
unfolding within
accepts side maker_price none = true
accepts side maker_price (some limit) = within side maker_price limit

covers : Side → TraderState → BaseLots → QuoteLots → QuoteLots → Bool
unfolding checked_add
covers bid st fill_size gross fee = elim (checked_add gross fee) [
  | none ↦ false
  | some cost ↦ leb cost st.quote_lots_free
]
covers ask st fill_size gross fee = leb fill_size st.base_lots_free

-- The maker's and the taker's balances after a fill, by the taker's side.
unfoldable pub settle_states :
    Side
    → TraderState
    → TraderState
    → BaseLots
    → QuoteLots
    → QuoteLots
    → Result (TraderState × TraderState)
unfolding checked_add checked_sub settle_locked_base settle_locked_quote credit_base credit_quote
    debit_base debit_quote
settle_states bid maker taker fill_size gross fee = do
  cost ← ok_or (checked_add gross fee) overflow
  maker₁ ← settle_locked_base maker fill_size
  maker₂ ← credit_quote maker₁ gross
  taker₁ ← debit_quote taker cost
  taker₂ ← credit_base taker₁ fill_size
  ok (maker₂, taker₂)
settle_states ask maker taker fill_size gross fee = do
  proceeds ← ok_or (checked_sub gross fee) overflow
  maker₁ ← settle_locked_quote maker gross
  maker₂ ← credit_base maker₁ fill_size
  taker₁ ← debit_base taker fill_size
  taker₂ ← credit_quote taker₁ proceeds
  ok (maker₂, taker₂)

-- Only `DecrementTake` reduces what remains of the taker.
abbrev pub left_of_taker : SelfTradeBehavior → BaseLots → BaseLots → BaseLots
left_of_taker decrement_take remaining removed = remaining - removed
left_of_taker cancel_provide remaining removed = remaining
left_of_taker abort remaining removed = remaining

-- One round of the loop either ends it or goes on.
pub data Round (T U : Type 0) : Type 0 where
  stopped : MatchStop → Round T U
  next : Market T U → Tally → Round T U

module _ {T U : Type 0} (t : BookTree T) (u : SeatTree U) where
  -- `if rest == 0 { cancel } else { get_mut(id)?.num_base_lots = rest }`
  unfoldable pub leave_resting : Market T U → FifoOrderId → BaseLots → Result (Market T U)
  leave_resting m id rest =
      if is_zero rest
      then ok (record m { book = (cancel t m.book id).1 })
      else elim (resize t m.book id rest) [
        | none ↦ err order_not_found
        | some book ↦ ok (record m { book = book })
      ]

  -- The market after, and the size removed from the book.
  unfoldable pub resolve_self_trade :
      SelfTradeBehavior
      → Market T U
      → FifoOrderId
      → SeatIndex
      → BaseLots
      → BaseLots
      → Result (BaseLots × Market T U)
  resolve_self_trade abort m id seat maker_size remaining = err self_trade_aborted
  resolve_self_trade cancel_provide m id seat maker_size remaining = do
    m' ← unlock_backing t u m id seat maker_size
    ok (maker_size, record m' { book = (cancel t m'.book id).1 })
  resolve_self_trade decrement_take m id seat maker_size remaining = do
    let decrement = min remaining maker_size
    m' ← unlock_backing t u m id seat decrement
    m'' ← leave_resting m' id (maker_size - decrement)
    ok (decrement, m'')

  unfoldable pub taker_can_afford :
      Market T U → SeatIndex → Side → BaseLots → QuoteLots → QuoteLots → Result Bool
  unfolding covers state
  taker_can_afford m taker side fill_size gross fee = do
    st ← state u m.traders taker
    ok (covers side st fill_size gross fee)

  unfoldable pub settle_fill :
      Market T U
      → SeatIndex
      → SeatIndex
      → Side
      → BaseLots
      → QuoteLots
      → QuoteLots
      → Result (Market T U)
  unfolding state set_state
  settle_fill m taker maker side fill_size gross fee = do
    maker_state ← state u m.traders maker
    taker_state ← state u m.traders taker
    (maker', taker') ← settle_states side maker_state taker_state fill_size gross fee
    traders₁ ← set_state u m.traders maker maker'
    traders₂ ← set_state u traders₁ taker taker'
    accrue_fee t u (record m { traders = traders₂ }) fee

  -- The taker meets its own order.
  unfoldable pub self_trade_round :
      Taker → Market T U → Tally → BookEntry → SeatIndex → Result (Round T U)
  unfolding checked_add
  self_trade_round k m s entry maker_seat = do
    (removed, m') ←
        resolve_self_trade k.behavior m entry.key maker_seat entry.value.num_base_lots s.remaining
    self_traded ← ok_or (checked_add s.base_lots_self_traded removed) overflow
    ok (
        next m' (record s {
          remaining = left_of_taker k.behavior s.remaining removed;
          base_lots_self_traded = self_traded;
        }))

  -- The settled fill of an affordable round.
  unfoldable pub apply_fill :
      Taker
      → Market T U
      → Tally
      → BookEntry
      → SeatIndex
      → BaseLots
      → QuoteLots
      → QuoteLots
      → Result (Round T U)
  unfolding checked_add
  apply_fill k m s entry maker_seat fill_size gross fee = do
    let maker_remaining = entry.value.num_base_lots - fill_size
    m₁ ← settle_fill m k.seat maker_seat k.side fill_size gross fee
    m₂ ← leave_resting m₁ entry.key maker_remaining
    let fill : Fill = record {
      maker_order_id = entry.key;
      maker_seat = maker_seat;
      taker_seat = k.seat;
      price_in_ticks = entry.key.price_in_ticks;
      base_lots_filled = fill_size;
      quote_lots_filled = gross;
      fee_in_quote_lots = fee;
      maker_base_lots_remaining = maker_remaining;
    }
    base_filled ← ok_or (checked_add s.base_lots_filled fill_size) overflow
    quote_filled ← ok_or (checked_add s.quote_lots_filled gross) overflow
    fees ← ok_or (checked_add s.fee_in_quote_lots fee) overflow
    ok (
        next m₂ (record s {
          remaining = s.remaining - fill_size;
          base_lots_filled = base_filled;
          quote_lots_filled = quote_filled;
          fee_in_quote_lots = fees;
          fills = s.fills ++ fill ∷ [];
        }))

  -- The taker meets another seat's order.
  unfoldable pub fill_round :
      Taker → Market T U → Tally → BookEntry → SeatIndex → Result (Round T U)
  fill_round k m s entry maker_seat = do
    let fill_size = min s.remaining entry.value.num_base_lots
    gross ← quote_value t u m entry.key.price_in_ticks fill_size
    fee ← fee_on m.header.fees gross
    affordable ← taker_can_afford m k.seat k.side fill_size gross fee
    if affordable
        then apply_fill k m s entry maker_seat fill_size gross fee
        else ok (stopped insufficient_funds)

  -- One round, after the tests on the remaining size and on the match limit.
  unfoldable pub match_round : Taker → Market T U → Tally → Result (Round T U)
  match_round k m s = elim (best t m.book (opposite k.side)) [
    | none ↦ ok (stopped book_empty)
    | some entry ↦
        if not (accepts k.side entry.key.price_in_ticks k.limit)
        then ok (stopped price_limit)
        else let maker_seat = as_seat entry.value.trader_index in
          if maker_seat == k.seat
          then self_trade_round k m s entry maker_seat
          else fill_round k m s entry maker_seat
  ]

  unfoldable pub cross_loop :
      ℕ → Taker → Market T U → Tally → Result (MatchStop × Market T U × Tally)
  cross_loop zero k m s =
      if is_zero s.remaining then ok (fully_filled, m, s) else ok (match_limit, m, s)
  cross_loop (suc left) k m s = elim (is_zero s.remaining) [
    | true ↦ ok (fully_filled, m, s)
    | false ↦ elim (match_round k m s) [
      | err e ↦ err e
      | ok (stopped stop) ↦ ok (stop, m, s)
      | ok (next m' s') ↦ cross_loop left k m' s'
    ]
  ]

  unfoldable pub cross : Market T U → Taker → BaseLots → ℕ → Result (MatchStop × Market T U × Tally)
  cross m k size limit = cross_loop limit k m (start_tally size)
