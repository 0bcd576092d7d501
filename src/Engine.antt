-- ===== src/Engine.antt =====
-- crates/clob-engine: matching, balances and fees, with no chain underneath.
pub mod Error
pub mod Fees
pub mod Trader
pub mod Seats
pub mod Packet
pub mod Fill
pub mod Market
pub mod Matching
pub mod Orders
pub mod Conserved
pub mod Check
