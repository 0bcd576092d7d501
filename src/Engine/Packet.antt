-- ===== src/Engine/Packet.antt =====
-- crates/clob-engine/src/order.rs: what a caller can ask the engine to do.
use clob_dex.Prelude.{ℕ, ◌-◌, ◌^◌, Bool, true, false, Option, none, some}
use clob_dex.Quantities.{Ticks, BaseLots}
use clob_dex.Order.{Side}

pub data SelfTradeBehavior : Type 0 where
  decrement_take cancel_provide abort : SelfTradeBehavior

pub data PostOnlyRejection : Type 0 where
  reject slide : PostOnlyRejection

-- The fields stand in the source's order.
pub data OrderPacket : Type 0 where
  limit : Side → Ticks → BaseLots → SelfTradeBehavior → ℕ → OrderPacket
  post_only : Side → Ticks → BaseLots → PostOnlyRejection → OrderPacket
  immediate_or_cancel :
      Side → Option Ticks → BaseLots → BaseLots → SelfTradeBehavior → ℕ → OrderPacket

abbrev pub u32_max : ℕ
u32_max = 2 ^ 32 - 1

unfoldable pub limit_order : Side → Ticks → BaseLots → OrderPacket
limit_order side price lots = limit side price lots decrement_take u32_max

unfoldable pub post_only_order : Side → Ticks → BaseLots → OrderPacket
post_only_order side price lots = post_only side price lots reject

unfoldable pub market_order : Side → BaseLots → OrderPacket
market_order side lots = immediate_or_cancel side none lots 0 decrement_take u32_max

unfoldable pub fill_or_kill : Side → Ticks → BaseLots → OrderPacket
fill_or_kill side price lots =
    immediate_or_cancel side (some price) lots lots decrement_take u32_max

unfoldable pub packet_side : OrderPacket → Side
packet_side (limit side _ _ _ _) = side
packet_side (post_only side _ _ _) = side
packet_side (immediate_or_cancel side _ _ _ _ _) = side

unfoldable pub packet_lots : OrderPacket → BaseLots
packet_lots (limit _ _ lots _ _) = lots
packet_lots (post_only _ _ lots _) = lots
packet_lots (immediate_or_cancel _ _ lots _ _ _) = lots

unfoldable pub packet_price : OrderPacket → Option Ticks
packet_price (limit _ price _ _ _) = some price
packet_price (post_only _ price _ _) = some price
packet_price (immediate_or_cancel _ price _ _ _ _) = price

unfoldable pub can_post : OrderPacket → Bool
can_post (limit _ _ _ _ _) = true
can_post (post_only _ _ _ _) = true
can_post (immediate_or_cancel _ _ _ _ _ _) = false

unfoldable pub can_take : OrderPacket → Bool
can_take (limit _ _ _ _ _) = true
can_take (post_only _ _ _ _) = false
can_take (immediate_or_cancel _ _ _ _ _ _) = true
