-- ===== src/Lib.antt =====
-- A verification library for ClobDex, a central-limit-order-book exchange: its order book, its
-- matching engine, and the observers that read the book.
--
-- The program. crates/clob-book holds a two-sided book of resting orders in two fixed-capacity
-- red-black trees. crates/clob-engine holds a market: a header with the configuration and the running
-- totals, a table of seats with each trader's free and locked balances, and a book. An order crosses
-- the other side of the book, settles each fill between two seats, accrues a fee, and may rest what
-- remains with its funds locked. crates/clob-indexer diffs two snapshots of a market into a tape of
-- trades, and crates/clob-stream aggregates stored trades.
--
-- The files.
-- Prelude: library names and Boolean tests, lists measured by native numbers, sums.
-- Quantities, Quantities.Lots: crates/clob-book/src/quantities. A quantity is a natural number;
--   its u64 range is a hypothesis where a theorem needs it, and every checked or saturating operation
--   tests against it. The u128 products of lots.rs are tested against 2^128.
-- Order: crates/clob-book/src/order. An id's stored number is complemented for bids.
-- Tree: crates/clob-book/src/tree as an interface, `OrderedTree`: operations with laws on the list
--   of entries in order. Tree.Keyed has the operations by key, Tree.Model the sorted list with a free
--   list of slots that fills the interface, as the map in crates/clob-book/tests/tree_model.rs.
-- Tree.Arena: the nodes of crates/clob-book/src/tree: node.rs, mod.rs and rotate.rs in Arena itself,
--   insert.rs in Arena.Insert and remove.rs in Arena.Remove. The array of nodes is a function of the
--   handle. Where the source writes a routine out for left and right, one definition takes the
--   direction. Arena.Shape has the tree as data and its zipper, `Context`, and a `Focus` is a place of
--   the arena that holds both; Arena.Balanced has the colours; Arena.Sound says when an arena is sound
--   and which entries it stands for, and Arena.Reach what a run of operations comes to. Arena.Iter is
--   iter.rs, and Arena.Check is invariants.rs. Arena.Sealed has the sound arenas as a type, with the tree and the free list of each hidden
--   by a truncation; its operations fill the interface `OrderedTree` (Sealed.Filled).
-- Book: crates/clob-book/src/book over that interface. `place`, `cancel`, `reduce`, `best` and
--   `is_crossed` have the source's names; `get_order` is `get`, and `resize` a write through
--   `get_mut`. A method that changes `self` returns the new book.
--   Book.Check is the self-check, over the tree's; Book.Depth is depth.rs. Its walk is over the interface's entries, as the iterators yield them.
-- Engine: crates/clob-engine. Error and Packet have the data types, Fees and Trader the arithmetic,
--   Seats the table, Market the set-up and the funds, Matching the loop of matching.rs, and Orders the
--   rest of the operations. An error carries no market: the engine has no undo log, and its callers
--   discard a failed call's writes. Engine.Conserved states `check_conservation` as an invariant, with
--   each seat's locked funds equal to the value of that seat's own orders. Engine.Conserved.Run takes
--   it through any run of operations, and Engine.Conserved.Arenas sets the engine on the red-black
--   arenas. Engine.Check is `check_conservation` itself. Engine.Matching.Accounts and Honest are about
--   what a pass reports, Reasons about why it ends, and Limit about the orders it touches.
-- Indexer: crates/clob-indexer, with the types of crates/clob-client that it reads. Derive is the diff
--   of derive.rs and Tape the whole derivation. Resting and Sizes count lots by order id, Takers reads
--   what `Context` says off the instructions, and Sorting is about the order of the tape.
-- Stream: crates/clob-stream/src/candle.rs. Buckets has the trades of a bucket and what its candle must
--   be, and Adding takes one trade through the loop.
-- Tests: a small market, taken through a day, and each theorem at it; Tests.Sealing opens a market on
--   zeroed arenas.
--
-- Loops. The cross loop recurs on the match limit less the orders touched, and the bounded cancel-all
-- on the cancels left: each round of the source counts one, so the bound is the source's own and no
-- further fuel is needed. In the arena, a descent has as many rounds as the tree has nodes, and a
-- rebalance too, which returns `none` if they run out: the depth of a node is less. The
-- self-check has the source's own bounds but for the recursion on the heights, which has one round more
-- than there are nodes and answers `none` beyond it. All other loops recur on a list.
--
-- The sequence counter. An id's top bit is the side, so the counter must stay below 2^63; theorems on
-- ids and on placing have that as a hypothesis, as the source has a debug assertion.
--
-- Not modelled: layout and byte casts, and with them the decoding in crates/clob-client; the on-chain
-- program in programs/clob, which is account access and runtime calls around the engine; the market
-- maker in crates/clob-mm; the services and the terminal programs, which are network and database I/O.
pub mod Prelude
pub mod Quantities
pub mod Order
pub mod Tree
pub mod Book
pub mod Engine
pub mod Indexer
pub mod Stream
mod Tests
