-- ===== src/Stream/Candles.antt =====
-- crates/clob-stream/src/candle.rs: the candles of a run of trades, each of its bucket's trades.
use native.Mathlib.Nat.{div-mul-le_self, le-div_iff_mul-le}
use mathlib.Core.List.{append_assoc, append-nil}
use clob_dex.Prelude.{
  ℕ, ◌+◌, ◌/◌, ◌≤◌, ◌<◌, ◌≡◌, refl, sym, subst, false, List, [], ◌∷◌, ◌++◌, ◌==◌, All, All-imp,
  length, sum_by, arith,
}
use clob_dex.Stream.{
  StoredTrade, Candle, new_candle, extend_candle, bucket, add_trade, aggregate_loop, aggregate,
}
use clob_dex.Stream.Buckets.{trades_in, Candled, InRange}
use clob_dex.Stream.Adding.{Aligned, Ascending, UpTo, Holds, add_trade-UpTo, add_trade-Holds}

-- The store returns trades by slot.
abbrev pub BySlot : List StoredTrade → Type 0
BySlot [] = Unit
BySlot (x ∷ xs) = All (λ y. x.slot ≤ y.slot) xs × BySlot xs

abbrev pub counted : List Candle → ℕ
counted = sum_by λ c. c.trades

-- The candles `cs` are those of the trades `xs`, bucket by bucket.
pub record Faithful (interval : ℕ) (xs : List StoredTrade) (cs : List Candle) : Type 0 where
  pub aligned : All (λ c. Aligned interval c.start_slot) cs
  pub ascending : Ascending cs
  pub candled : All (λ c. Candled (trades_in interval c.start_slot xs) c) cs

bucket_mono :
    (interval : ℕ) (x y : StoredTrade)
    → 0 < interval
    → x.slot ≤ y.slot
    → bucket interval x ≤ bucket interval y
unfolding bucket
bucket_mono interval x y h s =
    let low = div-mul-le_self x.slot interval in
    let q = (le-div_iff_mul-le {x = x.slot / interval} {y = y.slot} h).1 (omega (arith, low)) in
    grind (arith, q)

add_trade-counted :
    (interval : ℕ) (cs : List Candle) (x : StoredTrade)
    → counted (add_trade interval cs x) ≡ counted cs + 1
unfolding add_trade new_candle extend_candle
add_trade-counted interval [] x = refl
add_trade-counted interval (c ∷ []) x = ground arith
add_trade-counted interval (c ∷ d ∷ cs) x = omega (arith, add_trade-counted interval (d ∷ cs) x)

aggregate_loop-counted :
    (interval : ℕ) (cs : List Candle) (xs : List StoredTrade)
    → counted (aggregate_loop interval cs xs) ≡ counted cs + length xs
unfolding aggregate_loop
aggregate_loop-counted interval cs [] = omega arith
aggregate_loop-counted interval cs (x ∷ xs) = omega (
  arith,
  aggregate_loop-counted interval (add_trade interval cs x) xs,
  add_trade-counted interval cs x,
)

-- The next trade is of no bucket before a candle's.
Ahead : ℕ → List Candle → List StoredTrade → Type 0
Ahead interval cs [] = Unit
Ahead interval cs (x ∷ xs) = UpTo (bucket interval x) cs

Ahead-later :
    (interval : ℕ) (x : StoredTrade) (cs : List Candle) (xs : List StoredTrade)
    → 0 < interval
    → All (λ y. x.slot ≤ y.slot) xs
    → UpTo (bucket interval x) cs
    → Ahead interval cs xs
unfolding Ahead
Ahead-later interval x cs [] h s up = tt
Ahead-later interval x cs (y ∷ xs) h s up =
    All-imp (λ c q. omega (arith, q, bucket_mono interval x y h s.0)) cs up

aggregate_loop-Holds :
    (interval : ℕ) (ys : List StoredTrade) (cs : List Candle) (xs : List StoredTrade)
    → 0 < interval
    → BySlot xs
    → All InRange xs
    → Ahead interval cs xs
    → Holds interval ys cs
    → Holds interval (ys ++ xs) (aggregate_loop interval cs xs)
unfolding aggregate_loop Ahead
aggregate_loop-Holds interval ys cs [] h s r u f =
    subst (λ zs. Holds interval zs cs) (sym (append-nil ys)) f
aggregate_loop-Holds interval ys cs (x ∷ xs) h s r u f =
    subst (λ zs. Holds interval zs (aggregate_loop interval (add_trade interval cs x) xs))
      (append_assoc ys (x ∷ []) xs)
      (aggregate_loop-Holds interval (ys ++ x ∷ []) (add_trade interval cs x) xs h s.1 r.1
        (Ahead-later interval x _ xs h s.0 (add_trade-UpTo interval cs x u))
        (add_trade-Holds interval ys cs x h r.0 u f))

-- For trades in slot order, of u64 sizes, and a positive interval, the candles start at multiples
-- of the interval in strictly ascending order, and each is that of the trades whose slots lie in
-- its bucket: its open and close are their first and last prices, its high and low the greatest
-- and least of their prices, its sizes their sums cut off at the largest u64, and its count their
-- number; the counts of all the candles add up to the number of trades.
pub aggregate-Faithful :
    (xs : List StoredTrade) (interval : ℕ)
    → 0 < interval
    → BySlot xs
    → All InRange xs
    → Faithful interval xs (aggregate xs interval) × (counted (aggregate xs interval) ≡ length xs)
unfolding aggregate Ahead
aggregate-Faithful xs interval h s r =
    let positive : (interval == 0) ≡ false = ground arith in
    let held =
      aggregate_loop-Holds interval [] [] xs h s r (ahead xs)
        (record { aligned = tt; ascending = tt; candled = tt; covered = tt }) in
    rw positive (
      record { aligned = held.aligned; ascending = held.ascending; candled = held.candled },
      omega (arith, aggregate_loop-counted interval [] xs),
    )
  where
    ahead : (xs : List StoredTrade) → Ahead interval [] xs
    ahead [] = tt
    ahead (x ∷ xs) = tt
