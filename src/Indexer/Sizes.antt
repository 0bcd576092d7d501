-- ===== src/Indexer/Sizes.antt =====
-- crates/clob-indexer/src/derive.rs: every lot that left the book is on the tape or among the removals,
-- under the id it rested under.
use clob_dex.Prelude.{
  ℕ, ◌+◌, ◌-◌, ◌≡◌, refl, ap, ◌∙◌, Bool, true, false, ◌||◌, none, some, Option, List, [], ◌∷◌,
  sum_by, sum_by-append, arith, inl, inr, Bool-cases, ==_iff,
}
use clob_dex.Quantities.{saturating_sub, is_zero}
use clob_dex.Order.{Side, bid, ask, FifoOrderId}
use clob_dex.Indexer.{Trade, Removal, BookDelta}
use clob_dex.Indexer.Derive.{
  BookOrder, MarketState, side_orders, Context, new_context, ObservedInstruction, removed_from,
  Reading, traded, left, read_as, read_removal, push_reading, removals_loop, push_posted,
  posted_loop, diff_side, trade, consumed_by_taker, fill, self_trade, TakerEffect,
  explicitly_cancelled, cleared, cancelled_removal, indexed,
}
use clob_dex.Indexer.Tape.{goes_first, insert_trade, sort_trades, derive}
use clob_dex.Indexer.Resting.{
  lots_if, resting_under, Distinct, gone_under, gone_under_lem, lots_if-zero,
}

-- The lots on a tape under an id, and those among the removals.
abbrev pub tape_under : FifoOrderId → BookDelta → ℕ
tape_under i d = sum_by (λ x. lots_if i x.maker_order_id x.base_lots) d.trades

abbrev pub removed_under : FifoOrderId → BookDelta → ℕ
removed_under i d = sum_by (λ x. lots_if i x.order_id x.base_lots) d.removals

reading_under : FifoOrderId → Reading → ℕ
reading_under i (traded x) = lots_if i x.maker_order_id x.base_lots
reading_under i (left x) = lots_if i x.order_id x.base_lots

read_as-lots :
    (i : FifoOrderId) (off : Bool) (effect : Option TakerEffect) (before : MarketState)
    (side : Side) (c : Context) (slot : ℕ) (o : BookOrder) (n : ℕ)
    → reading_under i (read_as off effect before side c slot o n) ≡ lots_if i o.id n
unfolding read_as reading_under trade cancelled_removal
read_as-lots i true effect before side c slot o n = refl
read_as-lots i false none before side c slot o n = refl
read_as-lots i false (some fill) before side c slot o n = refl
read_as-lots i false (some self_trade) before side c slot o n = refl

push_reading-lots :
    (i : FifoOrderId) (r : Reading) (d : BookDelta)
    → tape_under i (push_reading r d) + removed_under i (push_reading r d)
      ≡ tape_under i d + removed_under i d + reading_under i r
unfolding push_reading reading_under
push_reading-lots i (traded x) d = omega (
  arith,
  sum_by-append {A = Trade} (λ y. lots_if i y.maker_order_id y.base_lots) d.trades (x ∷ []),
)
push_reading-lots i (left x) d =
    omega (
      arith,
      sum_by-append {A = Removal} (λ y. lots_if i y.order_id y.base_lots) d.removals (x ∷ []),
    )

removals_loop-lots :
    (i : FifoOrderId) (before : MarketState) (after : List BookOrder) (side : Side) (c : Context)
    (slot : ℕ) (os : List BookOrder) (d : BookDelta)
    → let e = removals_loop before after side c slot os d in
      tape_under i e + removed_under i e
      ≡ tape_under i d + removed_under i d + gone_under i after os
unfolding removals_loop read_removal gone_under
removals_loop-lots i before after side c slot [] d = omega arith
removals_loop-lots i before after side c slot (o ∷ os) d =
    let n = removed_from after o in
    let r = read_removal before side c slot o n in
    elim (Bool-cases (is_zero n)) [
      | inl zero ↦ rw zero (
          omega (
            arith,
            removals_loop-lots i before after side c slot os d,
            ap (lots_if i o.id) ((==_iff n 0).0 zero),
            lots_if-zero i o.id,
          ))
      | inr some_gone ↦ rw some_gone (
          omega (
            arith,
            removals_loop-lots i before after side c slot os (push_reading r d),
            push_reading-lots i r d,
            read_as-lots i (explicitly_cancelled c o.id || cleared c side)
                (consumed_by_taker c side o.trader_index) before side c slot o n,
          ))
    ]

push_posted-kept :
    (was : Option BookOrder) (o : BookOrder) (d : BookDelta)
    → ((push_posted was o d).trades ≡ d.trades) × ((push_posted was o d).removals ≡ d.removals)
unfolding push_posted
push_posted-kept (some p) o d = (refl, refl)
push_posted-kept none o d = (refl, refl)

posted_loop-kept :
    (before os : List BookOrder) (d : BookDelta)
    → ((posted_loop before os d).trades ≡ d.trades)
      × ((posted_loop before os d).removals ≡ d.removals)
unfolding posted_loop
posted_loop-kept before [] d = (refl, refl)
posted_loop-kept before (o ∷ os) d =
    let first = push_posted-kept (indexed o.id before) o d in
    let rest = posted_loop-kept before os (push_posted (indexed o.id before) o d) in
    (rest.0 ∙ first.0, rest.1 ∙ first.1)

-- The diff of one side accounts for every lot of it that is gone under an id.
diff_side-lots :
    (i : FifoOrderId) (before after : MarketState) (side : Side) (c : Context) (slot : ℕ)
    (d : BookDelta)
    → Distinct (side_orders before side)
    → Distinct (side_orders after side)
    → let e = diff_side before after side c slot d in
      tape_under i e + removed_under i e
      ≡ tape_under i d
        + removed_under i d
        + (resting_under i (side_orders before side) - resting_under i (side_orders after side))
unfolding diff_side
diff_side-lots i before after side c slot d h k =
    let mid =
      removals_loop before (side_orders after side) side c slot (side_orders before side) d in
    let kept = posted_loop-kept (side_orders before side) (side_orders after side) mid in
    omega (
      arith,
      removals_loop-lots i before (side_orders after side) side c slot (side_orders before side) d,
      gone_under_lem i (side_orders before side) (side_orders after side) h k,
      ap (sum_by (λ (x : Trade). lots_if i x.maker_order_id x.base_lots)) kept.0,
      ap (sum_by (λ (x : Removal). lots_if i x.order_id x.base_lots)) kept.1,
    )

insert_trade-lots :
    (w : Trade → ℕ) (a : Trade) (bs : List Trade) → sum_by w (insert_trade a bs) ≡ w a + sum_by w bs
insert_trade-lots w a [] = refl
insert_trade-lots w a (b ∷ bs) = elim (Bool-cases (goes_first a b)) [
  | inl first ↦ rw first refl
  | inr later ↦ rw later (omega (arith, insert_trade-lots w a bs))
]

sort_trades-lots : (w : Trade → ℕ) (ts : List Trade) → sum_by w (sort_trades ts) ≡ sum_by w ts
sort_trades-lots w [] = refl
sort_trades-lots w (x ∷ xs) =
    omega (arith, insert_trade-lots w x (sort_trades xs), sort_trades-lots w xs)

-- Where neither side of either snapshot lists an id twice, for every order id the lots under it on
-- the derived tape and among the removals are the sum over the two sides of what rested under the
-- id before less what rests under it after, or nothing for a side where it has not shrunk.
pub derive-lots :
    (before after : MarketState) (instructions : List ObservedInstruction) (slot : ℕ)
    (i : FifoOrderId)
    → Distinct before.bids
    → Distinct after.bids
    → Distinct before.asks
    → Distinct after.asks
    → let d = derive before after instructions slot in
      tape_under i d + removed_under i d
      ≡ (resting_under i before.bids - resting_under i after.bids)
        + (resting_under i before.asks - resting_under i after.asks)
unfolding derive
derive-lots before after instructions slot i h₁ h₂ h₃ h₄ =
    let c = new_context instructions in
    let start : BookDelta = record {
      trades = [];
      removals = [];
      posted = [];
      fees_earned =
          saturating_sub after.header.collected_quote_lot_fees
            before.header.collected_quote_lot_fees;
    } in
    let first = diff_side before after bid c slot start in
    let both = diff_side before after ask c slot first in
    omega (
      arith,
      diff_side-lots i before after bid c slot start h₁ h₂,
      diff_side-lots i before after ask c slot first h₃ h₄,
      sort_trades-lots (λ x. lots_if i x.maker_order_id x.base_lots) both.trades,
    )
