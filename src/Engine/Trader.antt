-- ===== src/Engine/Trader.antt =====
-- crates/clob-engine/src/trader/state.rs: one seat's balances, free and locked.
pub mod Laws
use clob_dex.Prelude.{ℕ, ◌+◌, Bool, ◌&&◌, Option, none, some}
use clob_dex.Quantities.{BaseLots, QuoteLots, is_zero, checked_add, checked_sub, saturating_add}
use clob_dex.Engine.Error.{
  EngineError, Result, ok, err, ◌>>=◌, ok_or, overflow, insufficient_base_funds,
  insufficient_quote_funds,
}

pub record TraderState : Type 0 where
  pub base_lots_free : BaseLots
  pub base_lots_locked : BaseLots
  pub quote_lots_free : QuoteLots
  pub quote_lots_locked : QuoteLots

-- `TraderState::default()`
abbrev pub no_funds : TraderState
no_funds = record {
  base_lots_free = 0;
  base_lots_locked = 0;
  quote_lots_free = 0;
  quote_lots_locked = 0;
}

unfoldable pub total_base_lots : TraderState → BaseLots
total_base_lots s = saturating_add s.base_lots_free s.base_lots_locked

unfoldable pub total_quote_lots : TraderState → QuoteLots
total_quote_lots s = saturating_add s.quote_lots_free s.quote_lots_locked

unfoldable pub has_nothing : TraderState → Bool
unfolding total_base_lots total_quote_lots saturating_add
has_nothing s = is_zero (total_base_lots s) && is_zero (total_quote_lots s)

unfoldable pub lock_base : TraderState → BaseLots → Result TraderState
unfolding checked_add checked_sub
lock_base s amount = do
  free ← ok_or (checked_sub s.base_lots_free amount) insufficient_base_funds
  locked ← ok_or (checked_add s.base_lots_locked amount) overflow
  ok (record s { base_lots_free = free; base_lots_locked = locked })

unfoldable pub unlock_base : TraderState → BaseLots → Result TraderState
unfolding checked_add checked_sub
unlock_base s amount = do
  locked ← ok_or (checked_sub s.base_lots_locked amount) insufficient_base_funds
  free ← ok_or (checked_add s.base_lots_free amount) overflow
  ok (record s { base_lots_free = free; base_lots_locked = locked })

unfoldable pub lock_quote : TraderState → QuoteLots → Result TraderState
unfolding checked_add checked_sub
lock_quote s amount = do
  free ← ok_or (checked_sub s.quote_lots_free amount) insufficient_quote_funds
  locked ← ok_or (checked_add s.quote_lots_locked amount) overflow
  ok (record s { quote_lots_free = free; quote_lots_locked = locked })

unfoldable pub unlock_quote : TraderState → QuoteLots → Result TraderState
unfolding checked_add checked_sub
unlock_quote s amount = do
  locked ← ok_or (checked_sub s.quote_lots_locked amount) insufficient_quote_funds
  free ← ok_or (checked_add s.quote_lots_free amount) overflow
  ok (record s { quote_lots_free = free; quote_lots_locked = locked })

unfoldable pub credit_base : TraderState → BaseLots → Result TraderState
unfolding checked_add
credit_base s amount = do
  free ← ok_or (checked_add s.base_lots_free amount) overflow
  ok (record s { base_lots_free = free })

unfoldable pub credit_quote : TraderState → QuoteLots → Result TraderState
unfolding checked_add
credit_quote s amount = do
  free ← ok_or (checked_add s.quote_lots_free amount) overflow
  ok (record s { quote_lots_free = free })

unfoldable pub debit_base : TraderState → BaseLots → Result TraderState
unfolding checked_sub
debit_base s amount = do
  free ← ok_or (checked_sub s.base_lots_free amount) insufficient_base_funds
  ok (record s { base_lots_free = free })

unfoldable pub debit_quote : TraderState → QuoteLots → Result TraderState
unfolding checked_sub
debit_quote s amount = do
  free ← ok_or (checked_sub s.quote_lots_free amount) insufficient_quote_funds
  ok (record s { quote_lots_free = free })

unfoldable pub settle_locked_base : TraderState → BaseLots → Result TraderState
unfolding checked_sub
settle_locked_base s amount = do
  locked ← ok_or (checked_sub s.base_lots_locked amount) insufficient_base_funds
  ok (record s { base_lots_locked = locked })

unfoldable pub settle_locked_quote : TraderState → QuoteLots → Result TraderState
unfolding checked_sub
settle_locked_quote s amount = do
  locked ← ok_or (checked_sub s.quote_lots_locked amount) insufficient_quote_funds
  ok (record s { quote_lots_locked = locked })
