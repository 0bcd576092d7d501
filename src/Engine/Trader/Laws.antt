-- ===== src/Engine/Trader/Laws.antt =====
-- crates/clob-engine/src/trader/state.rs: locking and unlocking move funds and make none.
use clob_dex.Prelude.{ℕ, ◌+◌, ◌≤◌, ◌≡◌, ◌↔◌, true, arith}
use clob_dex.Quantities.{u64_max}
use clob_dex.Engine.Error.{ok, err, insufficient_base_funds}
use clob_dex.Engine.Trader.{
  TraderState, lock_base, unlock_base, lock_quote, unlock_quote, has_nothing, no_funds,
}

-- Unlocking what was locked restores a seat's balances, base and quote alike, when each side's
-- funds fit in a u64.
pub unlock-lock :
    (s s' : TraderState) (amount : ℕ)
    → s.base_lots_free + s.base_lots_locked ≤ u64_max
    → s.quote_lots_free + s.quote_lots_locked ≤ u64_max
    → ((lock_base s amount ≡ ok s') → (unlock_base s' amount ≡ ok s))
      × ((lock_quote s amount ≡ ok s') → (unlock_quote s' amount ≡ ok s))
unfolding lock_base unlock_base lock_quote unlock_quote
unlock-lock s s' amount hb hq = (λ e. ground arith, λ e. ground arith)

-- Locking succeeds exactly when the free balance covers it, and reports the shortfall otherwise.
pub lock_base_iff :
    (s : TraderState) (amount : ℕ)
    → s.base_lots_free + s.base_lots_locked ≤ u64_max
    → (lock_base s amount ≡ err insufficient_base_funds) ↔ (¬ (amount ≤ s.base_lots_free))
unfolding lock_base
lock_base_iff s amount h = (λ e. ground arith, λ e. ground arith)

pub has_nothing_iff : (s : TraderState) → (has_nothing s ≡ true) ↔ (s ≡ no_funds)
unfolding has_nothing
has_nothing_iff s = (λ e. ground arith, λ e. ground arith)
