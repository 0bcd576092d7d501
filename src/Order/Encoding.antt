-- ===== src/Order/Encoding.antt =====
-- crates/clob-book/src/order/id.rs: the side and the sequence number of an id come back.
use clob_dex.Prelude.{ℕ, ◌≤◌, ◌<◌, ◌≡◌, ◌≢◌, ◌↔◌, ◌⊎◌, true, arith}
use clob_dex.Quantities.{u64_max}
use clob_dex.Order.{
  Side, bid, ask, FifoOrderId, new_id, side_of, sequence_number, max_sequence_number, RestingOrder,
  is_expired,
}

-- An id made from a sequence number clear of the tag bit gives back its side and its number.
pub new_id_roundtrip :
    (side : Side) (price n : ℕ)
    → n ≤ max_sequence_number
    → (side_of (new_id side price n) ≡ side) × (sequence_number (new_id side price n) ≡ n)
unfolding new_id side_of sequence_number
new_id_roundtrip bid price n h = ground arith
new_id_roundtrip ask price n h = ground arith

-- A stored sequence number is a u64.
pub new_id-le :
    (side : Side) (price n : ℕ)
    → n ≤ max_sequence_number
    → (new_id side price n).order_sequence_number ≤ u64_max
unfolding new_id
new_id-le bid price n h = omega arith
new_id-le ask price n h = omega arith

-- An id is determined by its side, price and sequence number: the encoding has no collisions.
pub new_id-sequence_number :
    (id : FifoOrderId)
    → id.order_sequence_number ≤ u64_max
    → new_id (side_of id) id.price_in_ticks (sequence_number id) ≡ id
unfolding new_id side_of sequence_number
new_id-sequence_number id h = ground arith

-- Two ids are one exactly when price, side and raw number agree.
pub new_id-injective :
    (s t : Side) (p q m n : ℕ)
    → m ≤ max_sequence_number
    → n ≤ max_sequence_number
    → new_id s p m ≡ new_id t q n
    → (s ≡ t) × (p ≡ q) × (m ≡ n)
unfolding new_id
new_id-injective bid bid p q m n hm hn e = ground arith
new_id-injective bid ask p q m n hm hn e = ground arith
new_id-injective ask bid p q m n hm hn e = ground arith
new_id-injective ask ask p q m n hm hn e = ground arith

-- An order is expired exactly when one of its two non-zero bounds has passed.
pub is_expired_iff :
    (o : RestingOrder) (slot seconds : ℕ)
    → (is_expired o slot seconds ≡ true) ↔ (
        ((o.last_valid_slot ≢ 0) × (o.last_valid_slot < slot))
        ⊎ ((o.last_valid_unix_timestamp_in_seconds ≢ 0)
            × (o.last_valid_unix_timestamp_in_seconds < seconds)))
unfolding is_expired
is_expired_iff o slot seconds = (λ h. ground arith, λ h. ground arith)
