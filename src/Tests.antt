-- ===== src/Tests.antt =====
-- A small market with the sorted-list trees, and the theorems applied to it.
mod Market
mod Trading
mod Facts
mod Witnesses
mod Matching
mod Books
mod Values
mod Observed
mod Arenas
mod Runs
mod Sealing
