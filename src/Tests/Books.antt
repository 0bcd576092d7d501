-- ===== src/Tests/Books.antt =====
-- The theorems on the book at the book of the small market.
use clob_dex.Prelude.{◌+◌, ◌≡◌, ◌≢◌, ◌↔◌, refl, false, Option, none, some, All, arith}
use clob_dex.Quantities.{min, is_zero}
use clob_dex.Order.{bid, FifoOrderId, RestingOrder, new_id, compare_id}
use clob_dex.Book.{
  OrderBook, BookEntry, Reduction, place, cancel, get_order, reduce, best, is_crossed, tree_of,
}
use clob_dex.Book.Depth.{depth_at_or_better, total_depth, sweep_price}
use clob_dex.Book.Depth.Sums.{marketable_lots, resting_lots, capped, depths_lem}
use clob_dex.Book.Depth.Sweep.{Sweeps, sweep_price-Sweeps}
use clob_dex.Book.Filed.{IsFiled}
use clob_dex.Book.Remove.{Leaves, orders, cancel_lem, reduce_lem}
use clob_dex.Book.Place.{get_order-place}
use clob_dex.Book.Best.{Leads, best-Leads}
use clob_dex.Book.Uncrossed.{Uncrossed, is_crossed_iff}
use clob_dex.Tests.Market.{Orders, book_tree, no_orders}

abbrev empty_book : OrderBook Orders
empty_book = record { next_sequence_number = 0; bids = no_orders; asks = no_orders }

empty_book-IsFiled : IsFiled book_tree empty_book
empty_book-IsFiled = record { bids_filed = tt; asks_filed = tt }

abbrev ten : RestingOrder
ten = record {
  trader_index = 1;
  num_base_lots = 10;
  last_valid_slot = 0;
  last_valid_unix_timestamp_in_seconds = 0;
}

abbrev bid_id : FifoOrderId
bid_id = record { price_in_ticks = 5; order_sequence_number = 18446744073709551615 }

abbrev book_or : OrderBook Orders → Option (FifoOrderId × OrderBook Orders) → OrderBook Orders
book_or b none = b
book_or b (some (_, b')) = b'

unfoldable one_bid : OrderBook Orders
unfolding place new_id compare_id
one_bid = book_or empty_book (place book_tree empty_book bid 5 ten)

placed : place book_tree empty_book bid 5 ten ≡ some (bid_id, one_bid)
unfolding place new_id compare_id one_bid
placed = refl

get_order-place_example :
    (get_order book_tree empty_book bid_id ≡ none)
    × (get_order book_tree one_bid bid_id ≡ some ten)
    × ((j : FifoOrderId)
        → bid_id ≢ j
        → get_order book_tree one_bid j ≡ get_order book_tree empty_book j)
    × IsFiled book_tree one_bid
get_order-place_example =
    get_order-place book_tree empty_book one_bid bid 5 ten bid_id empty_book-IsFiled (omega arith)
      placed

one_bid-IsFiled : IsFiled book_tree one_bid
one_bid-IsFiled =
    (get_order-place book_tree empty_book one_bid bid 5 ten bid_id empty_book-IsFiled (omega arith)
      placed).3

depths_lem_example :
    (depth_at_or_better book_tree one_bid bid 4
      ≡ capped (marketable_lots bid 4 (book_tree.entries (tree_of bid one_bid))))
    × (total_depth book_tree one_bid bid
        ≡ capped (resting_lots (book_tree.entries (tree_of bid one_bid))))
depths_lem_example = depths_lem book_tree one_bid bid 4

sweep_price-Sweeps_example : Sweeps book_tree one_bid bid 7 (sweep_price book_tree one_bid bid 7)
sweep_price-Sweeps_example = sweep_price-Sweeps book_tree one_bid bid 7 (omega arith) (omega arith)

there : get_order book_tree one_bid bid_id ≡ some ten
there =
    (get_order-place book_tree empty_book one_bid bid 5 ten bid_id empty_book-IsFiled (omega arith)
      placed).1

cancel_lem_example :
    ((cancel book_tree one_bid bid_id).0 ≡ some ten)
    × Leaves book_tree one_bid (cancel book_tree one_bid bid_id).1 bid_id ten 0
cancel_lem_example = cancel_lem book_tree one_bid bid_id ten there

reduce_lem_example :
    (r : Reduction) × (b' : OrderBook Orders) × (reduce book_tree one_bid bid_id 4 ≡ some (r, b'))
    × Leaves book_tree one_bid b' bid_id ten r.base_lots_remaining
    × (r.base_lots_removed + r.base_lots_remaining ≡ 10)
    × (r.base_lots_removed ≡ min 10 4)
    × (r.removed ≡ is_zero r.base_lots_remaining)
reduce_lem_example = reduce_lem book_tree one_bid bid_id ten 4 there

abbrev bid_entry : BookEntry
bid_entry = record { handle = 1; key = bid_id; value = ten }

topped : best book_tree one_bid bid ≡ some bid_entry
unfolding best place new_id compare_id one_bid
topped = refl

best-Leads_example :
    (get_order book_tree one_bid bid_id ≡ some ten)
    × All (Leads bid bid_entry) (orders book_tree bid one_bid)
best-Leads_example = best-Leads book_tree one_bid bid bid_entry one_bid-IsFiled topped

is_crossed_iff_example : (is_crossed book_tree one_bid ≡ false) ↔ Uncrossed book_tree one_bid
is_crossed_iff_example = is_crossed_iff book_tree one_bid one_bid-IsFiled
