-- ===== src/Order/Priority.antt =====
-- crates/clob-book/src/order/id.rs: one ascending comparison is price-time priority on both sides.
use Prim.Native.Nat.Ordering.{lt, eq, gt}
use clob_dex.Prelude.{ℕ, ◌≤◌, ◌<◌, ◌≡◌, ◌↔◌, ◌⊎◌, arith}
use clob_dex.Order.{Side, bid, ask, FifoOrderId, new_id, compare_id, max_sequence_number}

-- `Better side p m q n`: of two orders on `side`, the one at price `p` with number `m` goes first.
abbrev pub Better : Side → ℕ → ℕ → ℕ → ℕ → Type 0
Better bid p m q n = (q < p) ⊎ ((p ≡ q) × (m < n))
Better ask p m q n = (p < q) ⊎ ((p ≡ q) × (m < n))

-- Among asks the smaller id has priority; among bids the larger.
abbrev pub Precedes : Side → FifoOrderId → FifoOrderId → Type 0
Precedes bid a b = compare_id b a ≡ lt
Precedes ask a b = compare_id a b ≡ lt

-- For sequence numbers clear of the tag bit, the order of two ids of one side in its tree's
-- direction is price-time priority: the better price, or the lower number at one price.
pub Precedes-iff :
    (side : Side) (p m q n : ℕ)
    → m ≤ max_sequence_number
    → n ≤ max_sequence_number
    → Precedes side (new_id side p m) (new_id side q n) ↔ Better side p m q n
unfolding new_id compare_id
Precedes-iff bid p m q n hm hn = (λ h. ground arith, λ h. ground arith)
Precedes-iff ask p m q n hm hn = (λ h. ground arith, λ h. ground arith)

pub compare_id_refl : (a : FifoOrderId) → compare_id a a ≡ eq
unfolding compare_id
compare_id_refl a = ground arith

pub eq_of_compare_id : (a b : FifoOrderId) → compare_id a b ≡ eq → a ≡ b
unfolding compare_id
eq_of_compare_id a b h = ground arith

pub compare_id_trans :
    (a b c : FifoOrderId) → compare_id a b ≡ lt → compare_id b c ≡ lt → compare_id a c ≡ lt
unfolding compare_id
compare_id_trans a b c h k = ground arith

pub compare_id-gt : (a b : FifoOrderId) → compare_id a b ≡ gt → compare_id b a ≡ lt
unfolding compare_id
compare_id-gt a b h = ground arith

pub compare_id-lt : (a b : FifoOrderId) → compare_id a b ≡ lt → compare_id b a ≡ gt
unfolding compare_id
compare_id-lt a b h = ground arith
