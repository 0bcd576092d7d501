-- ===== src/Order.antt =====
-- crates/clob-book/src/order: sides, order ids and resting orders.
pub mod Encoding
pub mod Priority
use Prim.Native.Nat.{compare, Ordering}
use Prim.Native.Nat.Ordering.{lt, eq, gt}
use clob_dex.Prelude.{
  ℕ, ◌-◌, ◌/◌, ◌^◌, Bool, true, false, not, ◌&&◌, ◌||◌, ltb, ◌==◌, if◌then◌else◌,
}
use clob_dex.Quantities.{Ticks, BaseLots, u64_max}

pub data Side : Type 0 where
  bid ask : Side

unfoldable pub opposite : Side → Side
opposite bid = ask
opposite ask = bid

unfoldable pub is_bid : Side → Bool
is_bid bid = true
is_bid ask = false

-- `FIFOOrderId`: the stored sequence number is the raw one for asks, its complement for bids.
pub record FifoOrderId : Type 0 where
  pub price_in_ticks : Ticks
  pub order_sequence_number : ℕ

-- `!x` on a u64.
abbrev pub complement : ℕ → ℕ
complement x = u64_max - x

-- `MAX_SEQUENCE_NUMBER`
abbrev pub max_sequence_number : ℕ
max_sequence_number = 2 ^ 63 - 1

abbrev encode : Side → ℕ → ℕ
encode bid n = complement n
encode ask n = n

-- `FIFOOrderId::new`; its debug assertion is a hypothesis of the theorems.
unfoldable pub new_id : Side → Ticks → ℕ → FifoOrderId
new_id side price n = record { price_in_ticks = price; order_sequence_number = encode side n }

unfoldable pub side_of : FifoOrderId → Side
side_of id = if id.order_sequence_number / 2 ^ 63 == 1 then bid else ask

abbrev decode : Side → ℕ → ℕ
decode bid n = complement n
decode ask n = n

unfoldable pub sequence_number : FifoOrderId → ℕ
unfolding side_of
sequence_number id = decode (side_of id) id.order_sequence_number

-- The derived `Ord`: price first, then the stored sequence number.
unfoldable pub compare_id : FifoOrderId → FifoOrderId → Ordering
compare_id a b = elim (compare a.price_in_ticks b.price_in_ticks) [
  | lt ↦ lt
  | eq ↦ compare a.order_sequence_number b.order_sequence_number
  | gt ↦ gt
]

pub record RestingOrder : Type 0 where
  pub trader_index : ℕ
  pub num_base_lots : BaseLots
  pub last_valid_slot : ℕ
  pub last_valid_unix_timestamp_in_seconds : ℕ

-- `RestingOrder::new`: good till cancelled.
unfoldable pub new_order : ℕ → BaseLots → RestingOrder
new_order trader_index num_base_lots = record {
  trader_index = trader_index;
  num_base_lots = num_base_lots;
  last_valid_slot = 0;
  last_valid_unix_timestamp_in_seconds = 0;
}

unfoldable pub is_expired : RestingOrder → ℕ → ℕ → Bool
is_expired o slot seconds =
    (not (o.last_valid_slot == 0) && ltb o.last_valid_slot slot)
    || (not (o.last_valid_unix_timestamp_in_seconds == 0)
        && ltb o.last_valid_unix_timestamp_in_seconds seconds)
