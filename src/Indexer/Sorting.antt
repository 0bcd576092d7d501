-- ===== src/Indexer/Sorting.antt =====
-- crates/clob-indexer/src/derive.rs: the order of the tape.
use clob_dex.Prelude.{
  ℕ, ◌≡◌, true, false, ◌||◌, List, [], ◌∷◌, All, All-imp, arith, inl, inr, Bool-cases, ◌⊎◌, ◌≤◌,
  ◌<◌, ◌&&◌, ◌==◌, ltb, leb,
}
use clob_dex.Quantities.{u64_max}
use clob_dex.Order.{Side, bid, ask, sequence_number}
use clob_dex.Indexer.{Trade}
use clob_dex.Indexer.Tape.{ranked, goes_first, insert_trade, sort_trades}

-- No trade goes before the one listed ahead of it.
abbrev pub InOrder : List Trade → Type 0
InOrder [] = Unit
InOrder (x ∷ xs) = All (λ y. goes_first x y ≡ true) xs × InOrder xs

goes_first-total : (a b : Trade) → goes_first a b ≡ false → goes_first b a ≡ true
unfolding goes_first
goes_first-total a b p = ground arith

goes_first_trans :
    (a b c : Trade) → goes_first a b ≡ true → goes_first b c ≡ true → goes_first a c ≡ true
unfolding goes_first
goes_first_trans a b c p q = ground arith

insert_trade-All :
    (P : Trade → Type 0) (a : Trade) (bs : List Trade) → P a → All P bs → All P (insert_trade a bs)
insert_trade-All P a [] p q = (p, tt)
insert_trade-All P a (b ∷ bs) p q = elim (Bool-cases (goes_first a b)) [
  | inl first ↦ rw first (p, q)
  | inr later ↦ rw later (q.0, insert_trade-All P a bs p q.1)
]

insert_trade-InOrder : (a : Trade) (bs : List Trade) → InOrder bs → InOrder (insert_trade a bs)
insert_trade-InOrder a [] o = (tt, tt)
insert_trade-InOrder a (b ∷ bs) o = elim (Bool-cases (goes_first a b)) [
  | inl first ↦ rw first ((first, All-imp (λ y q. goes_first_trans a b y first q) bs o.0), o)
  | inr later ↦ rw later (
    insert_trade-All (λ y. goes_first b y ≡ true) a bs (goes_first-total a b later) o.0,
    insert_trade-InOrder a bs o.1,
  )
]

pub sort_trades-All : (P : Trade → Type 0) (ts : List Trade) → All P ts → All P (sort_trades ts)
sort_trades-All P [] a = tt
sort_trades-All P (x ∷ xs) a = insert_trade-All P x (sort_trades xs) a.0 (sort_trades-All P xs a.1)

pub sort_trades-InOrder : (ts : List Trade) → InOrder (sort_trades ts)
sort_trades-InOrder [] = tt
sort_trades-InOrder (x ∷ xs) = insert_trade-InOrder x (sort_trades xs) (sort_trades-InOrder xs)

-- Of the trades of one taker side, the one at the better price for it goes first, and of two at one
-- price the one against the older order.
abbrev pub NotBehind : Side → Side → ℕ → ℕ → ℕ → ℕ → Type 0
NotBehind bid bid p m q n = (p < q) ⊎ ((p ≡ q) × (m ≤ n))
NotBehind ask ask p m q n = (q < p) ⊎ ((p ≡ q) × (m ≤ n))
NotBehind bid ask p m q n = Unit
NotBehind ask bid p m q n = Unit

abbrev pub Reads : List Trade → Type 0
Reads [] = Unit
Reads (x ∷ xs) =
    All
      (λ y.
        NotBehind x.taker_side y.taker_side x.price_in_ticks (sequence_number x.maker_order_id)
          y.price_in_ticks (sequence_number y.maker_order_id))
      xs
    × Reads xs

NotBehind-of_ranked :
    (s r : Side) (p m q n : ℕ)
    → p ≤ u64_max
    → q ≤ u64_max
    → (ltb (ranked s p) (ranked r q) || ranked s p == ranked r q && leb m n) ≡ true
    → NotBehind s r p m q n
unfolding ranked
NotBehind-of_ranked bid bid p m q n h k e = ground arith
NotBehind-of_ranked ask ask p m q n h k e = ground arith
NotBehind-of_ranked bid ask p m q n h k e = tt
NotBehind-of_ranked ask bid p m q n h k e = tt

pub Reads-of_order :
    (xs : List Trade) → All (λ x. x.price_in_ticks ≤ u64_max) xs → InOrder xs → Reads xs
unfolding goes_first
Reads-of_order [] h o = tt
Reads-of_order (x ∷ xs) h o = (later xs h.1 o.0, Reads-of_order xs h.1 o.1)
  where
    later :
        (ys : List Trade)
        → All (λ y. y.price_in_ticks ≤ u64_max) ys
        → All (λ y. goes_first x y ≡ true) ys
        → All
            (λ y.
              NotBehind x.taker_side y.taker_side x.price_in_ticks
                (sequence_number x.maker_order_id)
                y.price_in_ticks
                (sequence_number y.maker_order_id))
            ys
    later [] k a = tt
    later (y ∷ ys) k a = (
      NotBehind-of_ranked x.taker_side y.taker_side x.price_in_ticks _ y.price_in_ticks _ h.0 k.0
          a.0,
      later ys k.1 a.1,
    )
