-- ===== src/Stream/Adding.antt =====
-- crates/clob-stream/src/candle.rs: one trade joins its bucket's candle or opens it.
use native.Mathlib.Nat.{mul-div_cancel, div-mul-le_self, lt-div-mul-add}
use clob_dex.Prelude.{
  ℕ, ◌+◌, ◌*◌, ◌/◌, ◌≤◌, ◌<◌, ◌≡◌, sym, ap, subst, List, [], ◌∷◌, ◌++◌, ◌==◌, ==_iff, leb,
  if◌then◌else◌, All, All-imp, All-append, arith, inl, inr, Bool-cases,
}
use clob_dex.Stream.{StoredTrade, Candle, new_candle, extend_candle, bucket, add_trade}
use clob_dex.Stream.Buckets.{
  trades_in, trades_in-snoc, trades_in-past, trades_in-none, Candled, InRange, new_candle-Candled,
  extend_candle-Candled,
}

-- A start of a bucket of `interval` slots.
abbrev pub Aligned : ℕ → ℕ → Type 0
Aligned interval start = start / interval * interval ≡ start

-- No bucket's candle follows a later one.
abbrev pub Ascending : List Candle → Type 0
Ascending [] = Unit
Ascending (c ∷ cs) = All (λ d. c.start_slot < d.start_slot) cs × Ascending cs

-- Past the last bucket.
abbrev pub end_of : ℕ → List Candle → ℕ
end_of interval [] = 0
end_of interval (c ∷ cs) =
    let rest = end_of interval cs in
    if leb rest (c.start_slot + interval) then c.start_slot + interval else rest

-- What the loop keeps: the candles are those of the trades so far, all of which are in them.
pub record Holds (interval : ℕ) (xs : List StoredTrade) (cs : List Candle) : Type 0 where
  pub aligned : All (λ c. Aligned interval c.start_slot) cs
  pub ascending : Ascending cs
  pub candled : All (λ c. Candled (trades_in interval c.start_slot xs) c) cs
  pub covered : All (λ y. y.slot < end_of interval cs) xs

-- No candle starts after the bucket of `x`.
abbrev pub UpTo : ℕ → List Candle → Type 0
UpTo b = All λ c. c.start_slot ≤ b

bucket-Aligned :
    (interval : ℕ) (x : StoredTrade) → 0 < interval → Aligned interval (bucket interval x)
unfolding bucket
bucket-Aligned interval x h = ap (λ n. n * interval) (mul-div_cancel (x.slot / interval) h)

bucket_below : (interval : ℕ) (x : StoredTrade) → bucket interval x ≤ x.slot
unfolding bucket
bucket_below interval x = div-mul-le_self x.slot interval

bucket_above :
    (interval : ℕ) (x : StoredTrade) → 0 < interval → x.slot < bucket interval x + interval
unfolding bucket
bucket_above interval x h = lt-div-mul-add {a = x.slot} h

-- A bucket after another starts at its end or later.
Aligned-gap :
    (interval a b : ℕ) → Aligned interval a → Aligned interval b → a < b → a + interval ≤ b
Aligned-gap interval a b p q h = grind (arith, p, q, h)

add_trade-starts :
    (interval b : ℕ) (cs : List Candle) (x : StoredTrade)
    → b < bucket interval x
    → All (λ c. b < c.start_slot) cs
    → All (λ c. b < c.start_slot) (add_trade interval cs x)
unfolding add_trade new_candle extend_candle
add_trade-starts interval b [] x h a = (h, tt)
add_trade-starts interval b (c ∷ []) x h a = ground arith
add_trade-starts interval b (c ∷ d ∷ cs) x h a = (a.0, add_trade-starts interval b (d ∷ cs) x h a.1)

pub add_trade-UpTo :
    (interval : ℕ) (cs : List Candle) (x : StoredTrade)
    → UpTo (bucket interval x) cs
    → UpTo (bucket interval x) (add_trade interval cs x)
unfolding add_trade new_candle extend_candle
add_trade-UpTo interval [] x u = (omega arith, tt)
add_trade-UpTo interval (c ∷ []) x u = ground arith
add_trade-UpTo interval (c ∷ d ∷ cs) x u = (u.0, add_trade-UpTo interval (d ∷ cs) x u.1)

-- A trade after the bucket of a candle leaves the candle as it is.
Candled-past :
    (interval : ℕ) (xs : List StoredTrade) (x : StoredTrade) (c : Candle)
    → Aligned interval c.start_slot
    → 0 < interval
    → c.start_slot < bucket interval x
    → Candled (trades_in interval c.start_slot xs) c
    → Candled (trades_in interval c.start_slot (xs ++ x ∷ [])) c
Candled-past interval xs x c p h k f =
    let gap =
      Aligned-gap interval c.start_slot (bucket interval x) p (bucket-Aligned interval x h) k in
    subst (λ ys. Candled ys c)
      (sym
        (trades_in-past interval c.start_slot xs x (omega (arith, gap, bucket_below interval x))))
      f

-- The first trade of a bucket makes its candle.
Candled-new :
    (interval : ℕ) (xs : List StoredTrade) (x : StoredTrade)
    → 0 < interval
    → InRange x
    → All (λ y. y.slot < bucket interval x) xs
    → Candled
        (trades_in interval (bucket interval x) (xs ++ x ∷ []))
        (new_candle (bucket interval x) x)
Candled-new interval xs x h r a =
    let b = bucket interval x in
    rw (trades_in-snoc interval b xs x (bucket_below interval x) (bucket_above interval x h))
      (rw (trades_in-none interval b xs a) (new_candle-Candled b x r))

-- A trade of the bucket of a candle joins it.
Candled-extended :
    (interval : ℕ) (xs : List StoredTrade) (x : StoredTrade) (c : Candle)
    → 0 < interval
    → c.start_slot ≡ bucket interval x
    → Candled (trades_in interval c.start_slot xs) c
    → Candled (trades_in interval c.start_slot (xs ++ x ∷ [])) (extend_candle c x)
Candled-extended interval xs x c h same f =
    rw
      (trades_in-snoc interval c.start_slot xs x (omega (arith, same, bucket_below interval x))
        (omega (arith, same, bucket_above interval x h)))
      (extend_candle-Candled (trades_in interval c.start_slot xs) c x f)

covered_by :
    (xs : List StoredTrade) (x : StoredTrade) (n m : ℕ)
    → n ≤ m
    → x.slot < m
    → All (λ y. y.slot < n) xs
    → All (λ y. y.slot < m) (xs ++ x ∷ [])
covered_by xs x n m h k a =
    All-append _ xs (x ∷ []) (All-imp (λ y q. omega (arith, q)) xs a) (k, tt)

-- A trade of no candle so far is filed under a candle of its own.
add_trade-Holds_new :
    (interval : ℕ) (xs : List StoredTrade) (c : Candle) (x : StoredTrade)
    → 0 < interval
    → InRange x
    → c.start_slot < bucket interval x
    → Holds interval xs (c ∷ [])
    → Holds interval (xs ++ x ∷ []) (c ∷ new_candle (bucket interval x) x ∷ [])
unfolding new_candle
add_trade-Holds_new interval xs c x h r later f =
    let b = bucket interval x in
    let gap = Aligned-gap interval c.start_slot b f.aligned.0 (bucket-Aligned interval x h) later in
    record {
      aligned = (f.aligned.0, (bucket-Aligned interval x h, tt));
      ascending = ((later, tt), (tt, tt));
      candled = (
        Candled-past interval xs x c f.aligned.0 h later f.candled.0,
        (Candled-new interval xs x h r (All-imp (λ y q. ground (arith, q, gap)) xs f.covered), tt),
      );
      covered =
          covered_by xs x (end_of interval (c ∷ [])) _ (ground arith)
            (ground (arith, bucket_above interval x h)) f.covered;
    }

pub add_trade-Holds :
    (interval : ℕ) (xs : List StoredTrade) (cs : List Candle) (x : StoredTrade)
    → 0 < interval
    → InRange x
    → UpTo (bucket interval x) cs
    → Holds interval xs cs
    → Holds interval (xs ++ x ∷ []) (add_trade interval cs x)
unfolding add_trade new_candle extend_candle
add_trade-Holds interval xs [] x h r u f = record {
  aligned = (bucket-Aligned interval x h, tt);
  ascending = (tt, tt);
  candled =
      (Candled-new interval xs x h r (All-imp (λ y q. absurd (omega (arith, q))) xs f.covered), tt);
  covered = covered_by xs x 0 _ (omega arith) (ground (arith, bucket_above interval x h)) f.covered;
}
add_trade-Holds interval xs (c ∷ []) x h r u f =
    elim (Bool-cases (c.start_slot == bucket interval x)) [
      | inl found ↦
          let same : c.start_slot ≡ bucket interval x = (==_iff _ _).0 found in
          rw found (record {
            aligned = f.aligned;
            ascending = (tt, tt);
            candled = (Candled-extended interval xs x c h same f.candled.0, tt);
            covered =
                covered_by xs x (end_of interval (c ∷ [])) _ (omega arith)
                  (ground (arith, bucket_above interval x h, same)) f.covered;
          })
      | inr other ↦
          let later : c.start_slot < bucket interval x =
            ground (arith, u.0, (==_iff c.start_slot (bucket interval x)).1) in
          rw other (add_trade-Holds_new interval xs c x h r later f)
    ]
add_trade-Holds interval xs (c ∷ d ∷ cs) x h r u f =
    let later : c.start_slot < bucket interval x = omega (arith, f.ascending.0.0, u.1.0) in
    let gap =
      Aligned-gap interval c.start_slot d.start_slot f.aligned.0 f.aligned.1.0 f.ascending.0.0 in
    let rest = add_trade-Holds interval xs (d ∷ cs) x h r u.1 (record {
      aligned = f.aligned.1;
      ascending = f.ascending.1;
      candled = f.candled.1;
      covered = All-imp (λ y q. ground (arith, q, gap)) xs f.covered;
    }) in
    record {
      aligned = (f.aligned.0, rest.aligned);
      ascending =
          (add_trade-starts interval c.start_slot (d ∷ cs) x later f.ascending.0, rest.ascending);
      candled = (Candled-past interval xs x c f.aligned.0 h later f.candled.0, rest.candled);
      covered = All-imp (λ y q. ground (arith, q)) (xs ++ x ∷ []) rest.covered;
    }
