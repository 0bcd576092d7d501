-- ===== src/Engine/Conserved/Cross.antt =====
-- Every round of the cross loop keeps the invariant, so the whole pass does.
use clob_dex.Prelude.{
  ℕ, zero, suc, ◌-◌, ◌*◌, ◌≤◌, ◌≡◌, ◌≢◌, refl, sym, ap, subst, ◌∙◌, false, none, some, ◌==◌, ==_iff,
  arith, inl, inr, Option-cases, Bool-cases,
}
use clob_dex.Quantities.{is_zero, min}
use clob_dex.Order.{Side, bid, ask, FifoOrderId, RestingOrder, side_of, opposite}
use clob_dex.Tree.{value_at}
use clob_dex.Book.{OrderBook, BookEntry, BookTree, get_order, cancel, best}
use clob_dex.Book.Best.{get_order-best}
use clob_dex.Book.Remove.{Leaves, cancel_lem, resize_lem}
use clob_dex.Engine.Error.{Result, ok, err, >>=-eq-ok}
use clob_dex.Engine.Fees.{fee_on}
use clob_dex.Engine.Seats.{SeatTree, SeatIndex, state, set_state}
use clob_dex.Engine.Packet.{SelfTradeBehavior, decrement_take, cancel_provide, abort}
use clob_dex.Engine.Fill.{MatchStop}
use clob_dex.Engine.Trader.{TraderState}
use clob_dex.Engine.Market.{Market, quote_value, unlock_backing, unlock_on, with_state, accrue_fee}
use clob_dex.Engine.Matching.{
  Taker, Tally, Round, stopped, next, leave_resting, resolve_self_trade, self_trade_round,
  apply_fill, fill_round, match_round, cross_loop, settle_fill, settle_states, taker_can_afford,
}
use clob_dex.Engine.Conserved.{owner, seats, per_lot, Conserved, Keeps, Keeps-refl, Keeps-trans}
use clob_dex.Engine.Conserved.TakeOff.{take_off}
use clob_dex.Engine.Conserved.Unlocked.{quote_lots_for-value}
use clob_dex.Engine.Conserved.Settle.{settle_fill-Keeps}

pub min_le : (m n : ℕ) → min m n ≤ n
unfolding min
min_le m n = ground arith

module _ {T U : Type 0} (t : BookTree T) (u : SeatTree U) where
  pub leave_resting-eq-ok :
      (m : Market T U) {m' : Market T U} (id : FifoOrderId) (order : RestingOrder) (rest : ℕ)
      → get_order t m.book id ≡ some order
      → leave_resting t u m id rest ≡ ok m'
      → (b' : OrderBook T) × (m' ≡ record m { book = b' }) × Leaves t m.book b' id order rest
  unfolding leave_resting
  leave_resting-eq-ok m id order zero h e =
      ((cancel t m.book id).1, ground arith, (cancel_lem t m.book id order h).1)
  leave_resting-eq-ok m {m'} id order (suc rest) h e =
      let (b', resized, l) = resize_lem t m.book id order (suc rest) (omega arith) h in
      (b', ground (arith, resized), l)

  with_state-book :
      (m : Market T U) {m₁ : Market T U} (h : SeatIndex) (change : TraderState → Result TraderState)
      → with_state t u m h change ≡ ok m₁
      → m₁.book ≡ m.book
  unfolding with_state
  with_state-book m h change e = ground arith

  unlock_on-book :
      (side : Side) (m : Market T U) {m₁ : Market T U} (price : ℕ) (h : SeatIndex) (lots : ℕ)
      → unlock_on t u side m price h lots ≡ ok m₁
      → m₁.book ≡ m.book
  unfolding unlock_on
  unlock_on-book ask m price h lots e = with_state-book m h _ e
  unlock_on-book bid m price h lots e =
      let (v, ev, e') = >>=-eq-ok (quote_value t u m price lots) _ e in with_state-book m h _ e'

  -- Unlocking leaves the book alone.
  pub unlock_backing-book :
      (m : Market T U) {m₁ : Market T U} (id : FifoOrderId) (h : SeatIndex) (lots : ℕ)
      → unlock_backing t u m id h lots ≡ ok m₁
      → m₁.book ≡ m.book
  unfolding unlock_backing
  unlock_backing-book m id h lots e = unlock_on-book (side_of id) m id.price_in_ticks h lots e

  -- Taking a self-trade off the book keeps the invariant, under either policy that does not abort.
  pub resolve_self_trade-Keeps :
      (behavior : SelfTradeBehavior) (m m' : Market T U) (id : FifoOrderId) (order : RestingOrder)
      (remaining removed : ℕ)
      → Conserved t u m
      → get_order t m.book id ≡ some order
      → resolve_self_trade t u behavior m id (owner order) order.num_base_lots remaining
        ≡ ok (removed, m')
      → Keeps t u m m'
  unfolding resolve_self_trade min
  resolve_self_trade-Keeps abort m m' id order remaining removed c h e = absurd (ground arith)
  resolve_self_trade-Keeps cancel_provide m m' id order remaining removed c h e =
      let (m₁, e₁, e₂) =
        >>=-eq-ok (unlock_backing t u m id (owner order) order.num_base_lots) _ e in
      let whole : order.num_base_lots - 0 ≡ order.num_base_lots = omega arith in
      let k =
        take_off t u m {m₁ = m₁} (cancel t m.book id).1 id order 0 c h (omega arith) (rw whole e₁)
          (cancel_lem t m.book id order h).1 in
      let same : record m₁ { book = (cancel t m.book id).1 } ≡ m' = ground (arith, k.1) in
      subst (Keeps t u m) same k.0
  resolve_self_trade-Keeps decrement_take m m' id order remaining removed c h e =
      let size = order.num_base_lots in
      let d = min remaining size in
      let (m₁, e₁, e₂) = >>=-eq-ok (unlock_backing t u m id (owner order) d) _ e in
      let (m₂, e₃, e₄) = >>=-eq-ok (leave_resting t u m₁ id (size - d)) _ e₂ in
      let same_book = unlock_backing-book m id (owner order) d e₁ in
      let (b', same₂, l) =
        leave_resting-eq-ok m₁ id order (size - d) (ap (λ b. get_order t b id) same_book ∙ h) e₃ in
      let small : d ≤ size = min_le remaining size in
      let back : size - (size - d) ≡ d = omega (arith, small) in
      let k =
        take_off t u m {m₁ = m₁} b' id order (size - d) c h (omega arith) (rw back e₁)
          (subst (λ b. Leaves t b b' id order (size - d)) same_book l) in
      let same : record m₁ { book = b' } ≡ m' = ground (arith, same₂) in
      subst (Keeps t u m) same k.0

  self_trade_round-Keeps :
      (k : Taker) (m m' : Market T U) (s s' : Tally) (entry : BookEntry)
      → Conserved t u m
      → get_order t m.book entry.key ≡ some entry.value
      → self_trade_round t u k m s entry (owner entry.value) ≡ ok (next m' s')
      → Keeps t u m m'
  unfolding self_trade_round
  self_trade_round-Keeps k m m' s s' entry c h e =
      let ((removed, m₁), e₁, e₂) =
        >>=-eq-ok
          (resolve_self_trade t u k.behavior m entry.key (owner entry.value)
            entry.value.num_base_lots s.remaining)
          _ e in
      let same : m₁ ≡ m' = ground arith in
      subst (Keeps t u m) same
        (resolve_self_trade-Keeps k.behavior m m₁ entry.key entry.value s.remaining removed c h e₁)

  accrue_fee-book :
      (m : Market T U) {m₁ : Market T U} (fee : ℕ) → accrue_fee t u m fee ≡ ok m₁ → m₁.book ≡ m.book
  unfolding accrue_fee
  accrue_fee-book m fee e = ground arith

  -- Settling leaves the book alone.
  pub settle_fill-book :
      (m : Market T U) {m₁ : Market T U} (g h : SeatIndex) (side : Side) (size gross fee : ℕ)
      → settle_fill t u m g h side size gross fee ≡ ok m₁
      → m₁.book ≡ m.book
  unfolding settle_fill
  settle_fill-book m g h side size gross fee e =
      let (a, _, e₁) = >>=-eq-ok (state u m.traders h) _ e in
      let (b, _, e₂) = >>=-eq-ok (state u m.traders g) _ e₁ in
      let (st, _, e₃) = >>=-eq-ok (settle_states side a b size gross fee) _ e₂ in
      let (s₁, _, e₄) = >>=-eq-ok (set_state u m.traders h st.0) _ e₃ in
      let (s₂, _, e₅) = >>=-eq-ok (set_state u s₁ g st.1) _ e₄ in
      accrue_fee-book (record m { traders = s₂ }) fee e₅

  apply_fill-Keeps :
      (k : Taker) (m m' : Market T U) (s s' : Tally) (entry : BookEntry) (size gross fee : ℕ)
      → Conserved t u m
      → get_order t m.book entry.key ≡ some entry.value
      → side_of entry.key ≡ opposite k.side
      → owner entry.value ≢ k.seat
      → value_at k.seat (seats t u m) ≢ none
      → size ≤ entry.value.num_base_lots
      → gross ≡ entry.key.price_in_ticks * per_lot t u m * size
      → apply_fill t u k m s entry (owner entry.value) size gross fee ≡ ok (next m' s')
      → Keeps t u m m'
  unfolding apply_fill
  apply_fill-Keeps k m m' s s' entry size gross fee c h tag ne claimed small worth e =
      let rest = entry.value.num_base_lots - size in
      let (m₁, e₁, e₂) =
        >>=-eq-ok (settle_fill t u m k.seat (owner entry.value) k.side size gross fee) _ e in
      let (m₂, e₃, e₄) = >>=-eq-ok (leave_resting t u m₁ entry.key rest) _ e₂ in
      let same_book = settle_fill-book m k.seat (owner entry.value) k.side size gross fee e₁ in
      let (b', same₂, l) =
        leave_resting-eq-ok m₁ entry.key entry.value rest
          (ap (λ b. get_order t b entry.key) same_book ∙ h) e₃ in
      let kept =
        settle_fill-Keeps t u m {m₁ = m₁} b' entry.key entry.value k.side k.seat size gross fee c h
          tag ne claimed small worth e₁
          (subst (λ b. Leaves t b b' entry.key entry.value rest) same_book l) in
      let same : m₂ ≡ m' = ground arith in subst (Keeps t u m) (sym same₂ ∙ same) kept.0

  fill_round-Keeps :
      (k : Taker) (m m' : Market T U) (s s' : Tally) (entry : BookEntry)
      → Conserved t u m
      → get_order t m.book entry.key ≡ some entry.value
      → side_of entry.key ≡ opposite k.side
      → owner entry.value ≢ k.seat
      → value_at k.seat (seats t u m) ≢ none
      → fill_round t u k m s entry (owner entry.value) ≡ ok (next m' s')
      → Keeps t u m m'
  unfolding fill_round quote_value
  fill_round-Keeps k m m' s s' entry c h tag ne claimed e =
      let size = min s.remaining entry.value.num_base_lots in
      let (gross, e₁, e₂) = >>=-eq-ok (quote_value t u m entry.key.price_in_ticks size) _ e in
      let (fee, e₃, e₄) = >>=-eq-ok (fee_on m.header.fees gross) _ e₂ in
      let (affordable, e₅, e₆) =
        >>=-eq-ok (taker_can_afford t u m k.seat k.side size gross fee) _ e₄ in
      let worth =
        quote_lots_for-value m.header entry.key.price_in_ticks size {q = gross} (ground arith) in
      apply_fill-Keeps k m m' s s' entry size gross fee c h tag ne claimed (min_le _ _) worth
        (ground arith)

  -- A round that goes on keeps the invariant.
  pub match_round-Keeps :
      (k : Taker) (m m' : Market T U) (s s' : Tally)
      → Conserved t u m
      → value_at k.seat (seats t u m) ≢ none
      → match_round t u k m s ≡ ok (next m' s')
      → Keeps t u m m'
  unfolding match_round
  match_round-Keeps k m m' s s' c claimed e =
      elim (Option-cases (best t m.book (opposite k.side))) [
        | inl none_left ↦ absurd (ground arith)
        | inr (entry, top) ↦
            let (h, tag) = get_order-best t m.book (opposite k.side) entry c.filed top in
            elim (Bool-cases (owner entry.value == k.seat)) [
              | inl own ↦ self_trade_round-Keeps k m m' s s' entry c h (ground arith)
              | inr other ↦
                  fill_round-Keeps k m m' s s' entry c h tag
                    (λ q. ground (arith, (==_iff (owner entry.value) k.seat).1 q)) claimed
                    (ground arith)
            ]
      ]

  -- The loop keeps the invariant, whatever stops it.
  pub cross_loop-Keeps :
      (left : ℕ) (k : Taker) (m m' : Market T U) (s s' : Tally) (stop : MatchStop)
      → Conserved t u m
      → value_at k.seat (seats t u m) ≢ none
      → cross_loop t u left k m s ≡ ok (stop, m', s')
      → Keeps t u m m'
  unfolding cross_loop
  cross_loop-Keeps zero k m m' s s' stop c claimed e =
      let same : m ≡ m' = ground arith in subst (Keeps t u m) same (Keeps-refl t u m c)
  cross_loop-Keeps (suc left) k m m' s s' stop c claimed e =
      elim (Bool-cases (is_zero s.remaining)) [
        | inl done ↦
            let same : m ≡ m' = ground arith in subst (Keeps t u m) same (Keeps-refl t u m c)
        | inr more ↦
            go more (match_round t u k m s) refl
              (λ m₁ s₁ c₁ claimed₁ e₁. cross_loop-Keeps left k m₁ m' s₁ s' stop c₁ claimed₁ e₁)
      ]
    where
      go :
          is_zero s.remaining ≡ false
          → (r : Result (Round T U)) → match_round t u k m s ≡ r
          → ((m₁ : Market T U) (s₁ : Tally)
              → Conserved t u m₁
              → value_at k.seat (seats t u m₁) ≢ none
              → cross_loop t u left k m₁ s₁ ≡ ok (stop, m', s')
              → Keeps t u m₁ m')
          → Keeps t u m m'
      go more (err x) q ih = absurd (ground arith)
      go more (ok (stopped why)) q ih =
          let same : m ≡ m' = ground arith in subst (Keeps t u m) same (Keeps-refl t u m c)
      go more (ok (next m₁ s₁)) q ih =
          let k₁ = match_round-Keeps k m m₁ s s₁ c claimed q in
          Keeps-trans t u m m₁ m' k₁
            (ih m₁ s₁ k₁.conserved (k₁.claimed k.seat claimed) (ground arith))
