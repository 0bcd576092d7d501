-- ===== src/Stream/Buckets.antt =====
-- crates/clob-stream/src/candle.rs: a candle against the trades of its bucket.
use clob_dex.Prelude.{
  ℕ, ◌+◌, ◌≤◌, ◌<◌, ◌≡◌, ◌⊎◌, refl, ◌&&◌, Option, none, some, List, [], ◌∷◌, ◌++◌, All, All-imp,
  All-append, length, length-append, sum_by, sum_by-append, arith, inl, inr, leb, ltb,
  if◌then◌else◌,
}
use clob_dex.Quantities.{u64_max, saturating_add, min, max}
use clob_dex.Stream.{StoredTrade, Candle, new_candle, extend_candle}

-- The trades of the bucket of `interval` slots from `start`.
abbrev pub trades_in : ℕ → ℕ → List StoredTrade → List StoredTrade
trades_in interval start [] = []
trades_in interval start (x ∷ xs) =
    let rest = trades_in interval start xs in
    if leb start x.slot && ltb x.slot (start + interval) then x ∷ rest else rest

abbrev pub first_price : List StoredTrade → Option ℕ
first_price [] = none
first_price (x ∷ xs) = some x.price_in_ticks

abbrev pub last_price : List StoredTrade → Option ℕ
last_price [] = none
last_price (x ∷ []) = some x.price_in_ticks
last_price (x ∷ y ∷ xs) = last_price (y ∷ xs)

abbrev pub Traded : ℕ → List StoredTrade → Type 0
Traded price [] = ⊥
Traded price (x ∷ xs) = (x.price_in_ticks ≡ price) ⊎ Traded price xs

abbrev pub capped : ℕ → ℕ
capped n = if leb n u64_max then n else u64_max

-- The candle of the trades `xs`: their first and last prices, their greatest and least, their sums
-- up to a u64 and their number.
pub record Candled (xs : List StoredTrade) (c : Candle) : Type 0 where
  pub opened : first_price xs ≡ some c.open_price
  pub closed : last_price xs ≡ some c.close
  pub below : All (λ x. x.price_in_ticks ≤ c.high) xs
  pub above : All (λ x. c.low ≤ x.price_in_ticks) xs
  pub high_traded : Traded c.high xs
  pub low_traded : Traded c.low xs
  pub base : c.base_lots ≡ capped (sum_by (λ x. x.base_lots) xs)
  pub quote : c.quote_lots ≡ capped (sum_by (λ x. x.quote_lots) xs)
  pub count : c.trades ≡ length xs

-- A trade's sizes are u64.
pub record InRange (x : StoredTrade) : Type 0 where
  pub base_range : x.base_lots ≤ u64_max
  pub quote_range : x.quote_lots ≤ u64_max

pub new_candle-Candled :
    (start : ℕ) (x : StoredTrade) → InRange x → Candled (x ∷ []) (new_candle start x)
unfolding new_candle
new_candle-Candled start x r = record {
  opened = refl;
  closed = refl;
  below = (omega arith, tt);
  above = (omega arith, tt);
  high_traded = inl refl;
  low_traded = inl refl;
  base = ground (arith, r.base_range);
  quote = ground (arith, r.quote_range);
  count = refl;
}

first_price-snoc :
    (xs : List StoredTrade) (x : StoredTrade) {p : ℕ}
    → first_price xs ≡ some p
    → first_price (xs ++ x ∷ []) ≡ some p
first_price-snoc [] x e = absurd (ground arith)
first_price-snoc (y ∷ xs) x e = e

last_price-snoc :
    (xs : List StoredTrade) (x : StoredTrade) → last_price (xs ++ x ∷ []) ≡ some x.price_in_ticks
last_price-snoc [] x = refl
last_price-snoc (y ∷ []) x = refl
last_price-snoc (y ∷ z ∷ xs) x = last_price-snoc (z ∷ xs) x

Traded-snoc :
    (xs : List StoredTrade) (x : StoredTrade) (p : ℕ)
    → Traded p xs ⊎ (x.price_in_ticks ≡ p)
    → Traded p (xs ++ x ∷ [])
Traded-snoc [] x p (inl h) = absurd h
Traded-snoc [] x p (inr h) = inl h
Traded-snoc (y ∷ xs) x p (inl (inl h)) = inl h
Traded-snoc (y ∷ xs) x p (inl (inr h)) = inr (Traded-snoc xs x p (inl h))
Traded-snoc (y ∷ xs) x p (inr h) = inr (Traded-snoc xs x p (inr h))

greater-Traded :
    (xs : List StoredTrade) (a b : ℕ) → Traded a xs → Traded (max a b) xs ⊎ (b ≡ max a b)
unfolding max
greater-Traded xs a b h = ground arith

lesser-Traded :
    (xs : List StoredTrade) (a b : ℕ) → Traded a xs → Traded (min a b) xs ⊎ (b ≡ min a b)
unfolding min
lesser-Traded xs a b h = ground arith

saturating_add-capped :
    (w : StoredTrade → ℕ) (xs : List StoredTrade) (x : StoredTrade) (n : ℕ)
    → n ≡ capped (sum_by w xs)
    → saturating_add n (w x) ≡ capped (sum_by w (xs ++ x ∷ []))
unfolding saturating_add
saturating_add-capped w xs x n e = ground (arith, sum_by-append w xs (x ∷ []))

max_le : (a b n : ℕ) → n ≤ a → n ≤ max a b
unfolding max
max_le a b n h = ground arith

le_max : (a b : ℕ) → b ≤ max a b
unfolding max
le_max a b = ground arith

le_min : (a b n : ℕ) → a ≤ n → min a b ≤ n
unfolding min
le_min a b n h = ground arith

min_le : (a b : ℕ) → min a b ≤ b
unfolding min
min_le a b = ground arith

pub extend_candle-Candled :
    (xs : List StoredTrade) (c : Candle) (x : StoredTrade)
    → Candled xs c
    → Candled (xs ++ x ∷ []) (extend_candle c x)
unfolding extend_candle
extend_candle-Candled xs c x f = record {
  opened = first_price-snoc xs x f.opened;
  closed = last_price-snoc xs x;
  below =
      All-append _ xs (x ∷ [])
        (All-imp (λ y h. max_le c.high x.price_in_ticks y.price_in_ticks h) xs f.below)
        (le_max c.high x.price_in_ticks, tt);
  above =
      All-append _ xs (x ∷ [])
        (All-imp (λ y h. le_min c.low x.price_in_ticks y.price_in_ticks h) xs f.above)
        (min_le c.low x.price_in_ticks, tt);
  high_traded = Traded-snoc xs x _ (greater-Traded xs c.high x.price_in_ticks f.high_traded);
  low_traded = Traded-snoc xs x _ (lesser-Traded xs c.low x.price_in_ticks f.low_traded);
  base = saturating_add-capped (λ y. y.base_lots) xs x c.base_lots f.base;
  quote = saturating_add-capped (λ y. y.quote_lots) xs x c.quote_lots f.quote;
  count = omega (arith, f.count, length-append xs (x ∷ []));
}

-- A later trade of the bucket comes last, and one past it changes nothing.
pub trades_in-snoc :
    (interval start : ℕ) (xs : List StoredTrade) (x : StoredTrade)
    → start ≤ x.slot
    → x.slot < start + interval
    → trades_in interval start (xs ++ x ∷ []) ≡ trades_in interval start xs ++ x ∷ []
trades_in-snoc interval start [] x h k = ground arith
trades_in-snoc interval start (y ∷ xs) x h k =
    rw (trades_in-snoc interval start xs x h k) (ground arith)

pub trades_in-past :
    (interval start : ℕ) (xs : List StoredTrade) (x : StoredTrade)
    → start + interval ≤ x.slot
    → trades_in interval start (xs ++ x ∷ []) ≡ trades_in interval start xs
trades_in-past interval start [] x h = ground arith
trades_in-past interval start (y ∷ xs) x h = rw (trades_in-past interval start xs x h) refl

-- A bucket past every trade is empty.
pub trades_in-none :
    (interval start : ℕ) (xs : List StoredTrade)
    → All (λ y. y.slot < start) xs
    → trades_in interval start xs ≡ []
trades_in-none interval start [] a = refl
trades_in-none interval start (y ∷ xs) a = ground (arith, trades_in-none interval start xs a.1, a.0)
