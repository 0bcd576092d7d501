-- ===== src/Engine/Matching/Accounts.antt =====
-- crates/clob-engine/src/market/matching.rs: what the loop reports, against what it did.
use clob_dex.Prelude.{
  ℕ, ◌+◌, ◌-◌, ◌*◌, ◌≤◌, ◌≡◌, ◌≢◌, refl, ap, subst, ◌∙◌, true, false, Option, none, some, [], ◌∷◌,
  ◌++◌, sum_by, sum_by-append, arith,
}
use clob_dex.Quantities.{min, checked_add}
use clob_dex.Order.{Side, bid, ask, opposite, side_of}
use clob_dex.Book.{BookEntry, BookTree}
use clob_dex.Engine.Error.{ok, >>=-eq-ok, ok_or, overflow}
use clob_dex.Engine.Fees.{FeeSchedule, fee_on}
use clob_dex.Engine.Seats.{SeatTree, SeatIndex}
use clob_dex.Engine.Packet.{SelfTradeBehavior, decrement_take, cancel_provide, abort}
use clob_dex.Engine.Fill.{Fill}
use clob_dex.Engine.Market.{Market, unlock_backing}
use clob_dex.Engine.Matching.{
  Taker, Tally, next, leave_resting, resolve_self_trade, self_trade_round, apply_fill, settle_fill,
  start_tally, accepts, left_of_taker,
}

-- What a self-trade takes from the taker's size: nothing when the resting order alone is cancelled.
abbrev pub consumed : SelfTradeBehavior → ℕ → ℕ
consumed decrement_take n = n
consumed cancel_provide n = 0
consumed abort n = 0

-- The tally agrees with the taker's size and with the fills shown.
pub record Balanced (k : Taker) (size : ℕ) (s : Tally) : Type 0 where
  pub size_kept :
      s.remaining + s.base_lots_filled + consumed k.behavior s.base_lots_self_traded ≡ size
  pub base_filled : s.base_lots_filled ≡ sum_by (λ f. f.base_lots_filled) s.fills
  pub quote_filled : s.quote_lots_filled ≡ sum_by (λ f. f.quote_lots_filled) s.fills
  pub fees_charged : s.fee_in_quote_lots ≡ sum_by (λ f. f.fee_in_quote_lots) s.fills

pub start_tally-Balanced : (k : Taker) (size : ℕ) → Balanced k size (start_tally size)
start_tally-Balanced k size = record {
  size_kept = elim k.behavior as (λ b. size + 0 + consumed b 0 ≡ size) [
    | decrement_take ↦ omega arith
    | cancel_provide ↦ omega arith
    | abort ↦ omega arith
  ];
  base_filled = refl;
  quote_filled = refl;
  fees_charged = refl;
}

consumed-+ : (b : SelfTradeBehavior) (m n : ℕ) → consumed b (m + n) ≡ consumed b m + consumed b n
consumed-+ decrement_take m n = refl
consumed-+ cancel_provide m n = refl
consumed-+ abort m n = refl

-- A price that a limit allows: a buyer pays no more than it, a seller gets no less; no limit allows
-- every price.
abbrev pub Allowed : Side → ℕ → Option ℕ → Type 0
Allowed side price none = Unit
Allowed bid price (some limit) = price ≤ limit
Allowed ask price (some limit) = limit ≤ price

pub Allowed-of_accepts :
    (side : Side) (price : ℕ) (limit : Option ℕ)
    → accepts side price limit ≡ true
    → Allowed side price limit
unfolding accepts
Allowed-of_accepts bid price none e = tt
Allowed-of_accepts ask price none e = tt
Allowed-of_accepts bid price (some limit) e = ground arith
Allowed-of_accepts ask price (some limit) e = ground arith

pub not_Allowed-of_accepts :
    (side : Side) (price : ℕ) (limit : Option ℕ)
    → accepts side price limit ≡ false
    → Allowed side price limit
    → ⊥
unfolding accepts
not_Allowed-of_accepts bid price none e a = ground arith
not_Allowed-of_accepts ask price none e a = ground arith
not_Allowed-of_accepts bid price (some limit) e a = ground (arith, a)
not_Allowed-of_accepts ask price (some limit) e a = ground (arith, a)

-- A fill that the taker's limit allows, at the price of the resting order, with the fee on its value,
-- and never against the taker itself.
pub record Fair (per_lot : ℕ) (fees : FeeSchedule) (k : Taker) (f : Fill) : Type 0 where
  pub price_allowed : Allowed k.side f.price_in_ticks k.limit
  pub maker_price : f.price_in_ticks ≡ f.maker_order_id.price_in_ticks
  pub maker_side : side_of f.maker_order_id ≡ opposite k.side
  pub worth : f.quote_lots_filled ≡ f.price_in_ticks * per_lot * f.base_lots_filled
  pub fee_due : fee_on fees f.quote_lots_filled ≡ ok f.fee_in_quote_lots
  pub taker_known : f.taker_seat ≡ k.seat
  pub not_itself : f.maker_seat ≢ k.seat

-- The fill that a settled round shows.
abbrev pub shown : Taker → BookEntry → SeatIndex → ℕ → ℕ → ℕ → Fill
shown k entry h lots gross fee = record {
  maker_order_id = entry.key;
  maker_seat = h;
  taker_seat = k.seat;
  price_in_ticks = entry.key.price_in_ticks;
  base_lots_filled = lots;
  quote_lots_filled = gross;
  fee_in_quote_lots = fee;
  maker_base_lots_remaining = entry.value.num_base_lots - lots;
}

module _ {T U : Type 0} (t : BookTree T) (u : SeatTree U) where
  removed_size :
      (b : SelfTradeBehavior) (m m' : Market T U) (e : BookEntry) (h : SeatIndex)
      (size remaining removed : ℕ)
      → resolve_self_trade t u b m e.key h size remaining ≡ ok (removed, m')
      → left_of_taker b remaining removed + consumed b removed ≡ remaining
  unfolding resolve_self_trade min
  removed_size decrement_take m m' e h size remaining removed q =
      let (m₁, e₁, e₂) = >>=-eq-ok (unlock_backing t u m e.key h (min remaining size)) _ q in
      let (m₂, e₃, e₄) = >>=-eq-ok (leave_resting t u m₁ e.key (size - min remaining size)) _ e₂ in
      let taken : min remaining size ≡ removed = ground arith in ground arith
  removed_size cancel_provide m m' e h size remaining removed q = omega arith
  removed_size abort m m' e h size remaining removed q = omega arith

  pub self_trade_round-Balanced :
      (k : Taker) (size : ℕ) (m m' : Market T U) (s s' : Tally) (entry : BookEntry) (h : SeatIndex)
      → Balanced k size s
      → self_trade_round t u k m s entry h ≡ ok (next m' s')
      → Balanced k size s' × (s'.fills ≡ s.fills)
  unfolding self_trade_round checked_add
  self_trade_round-Balanced k size m m' s s' entry h b e =
      let ((removed, m₁), e₁, e₂) =
        >>=-eq-ok
          (resolve_self_trade t u k.behavior m entry.key h entry.value.num_base_lots s.remaining) _
          e in
      let (total, e₃, e₄) =
        >>=-eq-ok (ok_or (checked_add s.base_lots_self_traded removed) overflow) _ e₂ in
      let split =
        removed_size k.behavior m m₁ entry h entry.value.num_base_lots s.remaining removed e₁ in
      let sum : total ≡ s.base_lots_self_traded + removed = ground arith in
      let same : record s {
        remaining = left_of_taker k.behavior s.remaining removed;
        base_lots_self_traded = total;
      }
          ≡ s' =
        ground arith in
      subst (λ x. Balanced k size x × (x.fills ≡ s.fills)) same
        (
          record {
            size_kept = omega (
              arith,
              b.size_kept,
              split,
              ap (consumed k.behavior) sum ∙ consumed-+ k.behavior s.base_lots_self_traded removed,
            );
            base_filled = b.base_filled;
            quote_filled = b.quote_filled;
            fees_charged = b.fees_charged;
          },
          refl,
        )

  -- A fill adds one entry to what was shown, and what it says is what was settled.
  pub apply_fill-Balanced :
      (k : Taker) (size : ℕ) (m m' : Market T U) (s s' : Tally) (entry : BookEntry) (h : SeatIndex)
      (lots gross fee : ℕ)
      → lots ≤ s.remaining
      → Balanced k size s
      → apply_fill t u k m s entry h lots gross fee ≡ ok (next m' s')
      → Balanced k size s' × (s'.fills ≡ s.fills ++ shown k entry h lots gross fee ∷ [])
  unfolding apply_fill checked_add
  apply_fill-Balanced k size m m' s s' entry h lots gross fee small b e =
      let (m₁, e₁, f₁) = >>=-eq-ok (settle_fill t u m k.seat h k.side lots gross fee) _ e in
      let (m₂, e₂, f₂) =
        >>=-eq-ok (leave_resting t u m₁ entry.key (entry.value.num_base_lots - lots)) _ f₁ in
      let (x, e₃, f₃) = >>=-eq-ok (ok_or (checked_add s.base_lots_filled lots) overflow) _ f₂ in
      let (y, e₄, f₄) = >>=-eq-ok (ok_or (checked_add s.quote_lots_filled gross) overflow) _ f₃ in
      let (z, e₅, f₅) = >>=-eq-ok (ok_or (checked_add s.fee_in_quote_lots fee) overflow) _ f₄ in
      let sum_x : x ≡ s.base_lots_filled + lots = ground arith in
      let sum_y : y ≡ s.quote_lots_filled + gross = ground arith in
      let sum_z : z ≡ s.fee_in_quote_lots + fee = ground arith in
      let f = shown k entry h lots gross fee in
      let same : record s {
        remaining = s.remaining - lots;
        base_lots_filled = x;
        quote_lots_filled = y;
        fee_in_quote_lots = z;
        fills = s.fills ++ f ∷ [];
      }
          ≡ s' =
        ground arith in
      subst (λ x. Balanced k size x × (x.fills ≡ s.fills ++ f ∷ [])) same
        (
          record {
            size_kept = omega (arith, b.size_kept);
            base_filled =
                omega
                  (arith, b.base_filled, sum_by-append (λ f. f.base_lots_filled) s.fills (f ∷ []));
            quote_filled =
                omega (
                  arith,
                  b.quote_filled,
                  sum_by-append (λ f. f.quote_lots_filled) s.fills (f ∷ []),
                );
            fees_charged =
                omega (
                  arith,
                  b.fees_charged,
                  sum_by-append (λ f. f.fee_in_quote_lots) s.fills (f ∷ []),
                );
          },
          refl,
        )
