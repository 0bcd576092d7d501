-- ===== src/Indexer/Takers.antt =====
-- crates/clob-indexer/src/derive.rs: what the context says, read off the instructions themselves.
use clob_dex.Prelude.{
  ◌≡◌, ◌≢◌, ◌⊎◌, ◌↔◌, refl, true, false, Option, none, some, List, [], ◌∷◌, ==_iff, All, arith, inl,
  inr, Bool-cases, if◌then◌else◌,
}
use clob_dex.Order.{Side, bid, ask, opposite, FifoOrderId}
use clob_dex.Engine.Packet.{OrderPacket, can_take, packet_side}
use clob_dex.Engine.Seats.{SeatIndex}
use clob_dex.Indexer.Derive.{
  ClobInstruction, place_order_packet, cancel_order_id, reduce_order_id, cancel_all_orders, swap,
  batch_update, other, first_taking, taker_side, ObservedInstruction, with_taker, ids_named,
  sides_cleared, new_context, fill, self_trade, effect_of, consumed_by_taker, explicitly_cancelled,
  cleared, same_id, any_id, any_side, same_side, same_seat, Taker,
}

-- The first packet that can take is on `side`.
abbrev pub FirstTakes : Side → List OrderPacket → Type 0
FirstTakes side [] = ⊥
FirstTakes side (p ∷ ps) =
    ((can_take p ≡ true) × (packet_side p ≡ side)) ⊎ ((can_take p ≡ false) × FirstTakes side ps)

-- The instruction takes on `side`.
abbrev pub TakesOn : Side → ClobInstruction → Type 0
TakesOn side (place_order_packet p) = (can_take p ≡ true) × (packet_side p ≡ side)
TakesOn side (swap s) = s ≡ side
TakesOn side (batch_update _ packets) = FirstTakes side packets
TakesOn side (cancel_order_id _) = ⊥
TakesOn side (reduce_order_id _) = ⊥
TakesOn side (cancel_all_orders _) = ⊥
TakesOn side other = ⊥

-- The first instruction that takes on `side` is not of the seat `owner`.
abbrev pub TakenByAnother : Side → SeatIndex → List ObservedInstruction → Type 0
TakenByAnother side owner [] = ⊥
TakenByAnother side owner (o ∷ os) =
    (TakesOn side o.instruction × (o.seat ≢ some owner))
    ⊎ ((TakesOn side o.instruction → ⊥) × TakenByAnother side owner os)

FirstTakes-iff :
    (side : Side) (ps : List OrderPacket) → FirstTakes side ps ↔ (first_taking ps ≡ some side)
unfolding first_taking
FirstTakes-iff side [] = (λ h. absurd h, λ e. absurd (ground arith))
FirstTakes-iff side (p ∷ ps) = elim (Bool-cases (can_take p)) [
  | inl takes ↦ (λ h. ground (arith, h, takes), λ e. inl (takes, ground arith))
  | inr rests ↦ (
    λ h. ground (arith, h, rests, FirstTakes-iff side ps),
    λ e. inr (rests, (FirstTakes-iff side ps).1 (ground arith)),
  )
]

TakesOn-iff : (side : Side) (i : ClobInstruction) → TakesOn side i ↔ (taker_side i ≡ some side)
unfolding taker_side
TakesOn-iff side (place_order_packet p) = elim (Bool-cases (can_take p)) [
  | inl takes ↦ (λ h. ground (arith, h.1), λ e. (takes, ground arith))
  | inr rests ↦ (λ h. ground (arith, h.0), λ e. ground arith)
]
TakesOn-iff side (swap s) = (λ h. ground (arith, h), λ e. ground arith)
TakesOn-iff side (batch_update _ packets) = FirstTakes-iff side packets
TakesOn-iff side (cancel_order_id _) = (λ h. absurd h, λ e. ground arith)
TakesOn-iff side (reduce_order_id _) = (λ h. absurd h, λ e. ground arith)
TakesOn-iff side (cancel_all_orders _) = (λ h. absurd h, λ e. ground arith)
TakesOn-iff side other = (λ h. absurd h, λ e. ground arith)

-- No instruction names the order.
abbrev pub Unnamed : FifoOrderId → List ObservedInstruction → Type 0
Unnamed id = All λ o. (o.instruction ≢ cancel_order_id id) × (o.instruction ≢ reduce_order_id id)

-- No instruction clears the side.
abbrev pub Uncleared : Side → List ObservedInstruction → Type 0
Uncleared side = All λ o. o.instruction ≢ cancel_all_orders side

same_id_refl : (id : FifoOrderId) → same_id id id ≡ true
same_id_refl id = ground arith

same_side_refl : (side : Side) → same_side side side ≡ true
same_side_refl bid = refl
same_side_refl ask = refl

unnamed_by :
    (id : FifoOrderId) (i : ClobInstruction) (ids : List FifoOrderId)
    → any_id id (ids_named i ids) ≡ false
    → ((i ≢ cancel_order_id id) × (i ≢ reduce_order_id id)) × (any_id id ids ≡ false)
unfolding ids_named
unnamed_by id (cancel_order_id j) ids e =
    ((λ q. ground (arith, same_id_refl id), λ q. ground arith), ground arith)
unnamed_by id (reduce_order_id j) ids e =
    ((λ q. ground arith, λ q. ground (arith, same_id_refl id)), ground arith)
unnamed_by id (place_order_packet p) ids e = ((λ q. ground arith, λ q. ground arith), e)
unnamed_by id (cancel_all_orders side) ids e = ((λ q. ground arith, λ q. ground arith), e)
unnamed_by id (swap side) ids e = ((λ q. ground arith, λ q. ground arith), e)
unnamed_by id (batch_update cs ps) ids e = ((λ q. ground arith, λ q. ground arith), e)
unnamed_by id other ids e = ((λ q. ground arith, λ q. ground arith), e)

uncleared_by :
    (side : Side) (i : ClobInstruction) (sides : List Side)
    → any_side side (sides_cleared i sides) ≡ false
    → (i ≢ cancel_all_orders side) × (any_side side sides ≡ false)
unfolding sides_cleared
uncleared_by side (cancel_all_orders s) sides e =
    (λ q. ground (arith, same_side_refl side), ground arith)
uncleared_by side (cancel_order_id j) sides e = (λ q. ground arith, e)
uncleared_by side (reduce_order_id j) sides e = (λ q. ground arith, e)
uncleared_by side (place_order_packet p) sides e = (λ q. ground arith, e)
uncleared_by side (swap s) sides e = (λ q. ground arith, e)
uncleared_by side (batch_update cs ps) sides e = (λ q. ground arith, e)
uncleared_by side other sides e = (λ q. ground arith, e)

pub Unnamed-of_context :
    (id : FifoOrderId) (os : List ObservedInstruction)
    → explicitly_cancelled (new_context os) id ≡ false
    → Unnamed id os
unfolding explicitly_cancelled new_context
Unnamed-of_context id [] e = tt
Unnamed-of_context id (o ∷ os) e =
    let (here, rest) = unnamed_by id o.instruction (new_context os).cancelled_ids e in
    (here, Unnamed-of_context id os rest)

pub Uncleared-of_context :
    (side : Side) (os : List ObservedInstruction)
    → cleared (new_context os) side ≡ false
    → Uncleared side os
unfolding cleared new_context
Uncleared-of_context side [] e = tt
Uncleared-of_context side (o ∷ os) e =
    let (here, rest) = uncleared_by side o.instruction (new_context os).cancel_all_sides e in
    (here, Uncleared-of_context side os rest)

filled_by :
    (seat : Option SeatIndex) (owner : SeatIndex)
    → some (if same_seat seat (some owner) then self_trade else fill) ≡ some fill
    → seat ≢ some owner
filled_by none owner e q = ground arith
filled_by (some h) owner e q = ground (arith, (==_iff h owner).1)

-- The first taker of a list, against what its side says.
first_taker :
    (side : Side) (owner : SeatIndex) (s : Option Side) (seat : Option SeatIndex) (ks : List Taker)
    → effect_of (with_taker s seat ks) (opposite side) owner ≡ some fill
    → ((s ≡ some side) × (seat ≢ some owner))
      ⊎ ((s ≢ some side) × (effect_of ks (opposite side) owner ≡ some fill))
unfolding effect_of with_taker opposite
first_taker side owner none seat ks e = inr (λ q. ground arith, e)
first_taker bid owner (some bid) seat ks e = inl (refl, filled_by seat owner e)
first_taker ask owner (some ask) seat ks e = inl (refl, filled_by seat owner e)
first_taker bid owner (some ask) seat ks e = inr (λ q. ground arith, e)
first_taker ask owner (some bid) seat ks e = inr (λ q. ground arith, e)

no_taker : (side : Side) (owner : SeatIndex) → effect_of [] (opposite side) owner ≢ some fill
unfolding effect_of
no_taker side owner e = ground arith

pub TakenByAnother-of_context :
    (side : Side) (owner : SeatIndex) (os : List ObservedInstruction)
    → consumed_by_taker (new_context os) (opposite side) owner ≡ some fill
    → TakenByAnother side owner os
unfolding consumed_by_taker new_context
TakenByAnother-of_context side owner [] e = absurd (no_taker side owner e)
TakenByAnother-of_context side owner (o ∷ os) e =
    elim (first_taker side owner (taker_side o.instruction) o.seat (new_context os).takers e) [
      | inl took ↦ inl ((TakesOn-iff side o.instruction).1 took.0, took.1)
      | inr passed ↦ inr (
        λ h. passed.0 ((TakesOn-iff side o.instruction).0 h),
        TakenByAnother-of_context side owner os passed.1,
      )
    ]
