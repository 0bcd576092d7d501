-- ===== src/Engine/Orders/Uncrossed.antt =====
-- crates/clob-engine/src/market/orders.rs: when placing an order leaves the book uncrossed.
use clob_dex.Prelude.{
  ℕ, ◌≤◌, ◌<◌, ◌≡◌, ◌≢◌, refl, sym, ap, subst, ◌∙◌, not, ◌&&◌, none, some, ◌==◌, ltb, [], ==_iff,
  All, All-imp, arith, inl, inr, Bool-cases,
}
use clob_dex.Quantities.{is_zero}
use clob_dex.Order.{Side, bid, ask, FifoOrderId, opposite, new_id, new_order, max_sequence_number}
use clob_dex.Tree.{value_at}
use clob_dex.Book.{BookTree}
use clob_dex.Book.Remove.{orders}
use clob_dex.Book.Uncrossed.{Uncrossed, Inside, Rests-Uncrossed}
use clob_dex.Engine.Error.{
  ok, >>=-eq-ok, fail_if-eq-ok, ok_or, post_only_no_room, post_only_would_cross,
  minimum_fill_not_met, zero_size,
}
use clob_dex.Engine.Seats.{SeatTree, SeatIndex, state}
use clob_dex.Engine.Packet.{OrderPacket, limit, post_only, immediate_or_cancel, packet_lots}
use clob_dex.Engine.Fill.{
  OrderOutcome, MatchStop, fully_filled, price_limit, match_limit, book_empty, insufficient_funds,
  did_not_cross,
}
use clob_dex.Engine.Market.{Market}
use clob_dex.Engine.Matching.{Taker, Tally, cross, start_tally}
use clob_dex.Engine.Matching.Accounts.{Allowed}
use clob_dex.Engine.Matching.Reasons.{Reason}
use clob_dex.Engine.Matching.Rounds.{cross-Honest}
use clob_dex.Engine.Matching.Uncrossed.{cross_loop-Uncrossed}
use clob_dex.Engine.Orders.{
  is_reject, post, place_post_only, post_remainder, place_order, place_packet, non_crossing_price,
  outcome_of,
}
use clob_dex.Engine.Orders.Touch.{non_crossing_price_lem}
use clob_dex.Engine.Conserved.{seats, Conserved}
use clob_dex.Engine.Conserved.Cross.{cross_loop-Keeps}
use clob_dex.Engine.Conserved.Post.{post-Posted}

module _ {T U : Type 0} (t : BookTree T) (u : SeatTree U) where
  post-Uncrossed :
      (m m' : Market T U) (seat : SeatIndex) (side : Side) (price size : ℕ) (id : FifoOrderId)
      → Conserved t u m
      → value_at seat (seats t u m) ≢ none
      → m.book.next_sequence_number ≤ max_sequence_number
      → Uncrossed t m.book
      → Inside t side price m.book
      → post t u m seat side price size ≡ ok (id, m')
      → Uncrossed t m'.book
  unfolding new_id
  post-Uncrossed m m' seat side price size id c claimed counter a i e =
      let p = post-Posted t u m m' seat side price size id c claimed counter e in
      let priced : price ≡ id.price_in_ticks = sym (ap (λ x. x.price_in_ticks) p.id_issued) in
      Rests-Uncrossed t m.book m'.book side id (new_order seat size) a
        (subst (λ x. Inside t side x m.book) priced i) p.rests

  -- An order that the limit refuses lies beyond it.
  Inside-of_refused :
      (side : Side) (price : ℕ) (m : Market T U)
      → All
          (λ e. Allowed side e.key.price_in_ticks (some price) → ⊥)
          (orders t (opposite side) m.book)
      → Inside t side price m.book
  unfolding opposite
  Inside-of_refused bid price m a = All-imp (λ e p. grind (arith, p)) _ a
  Inside-of_refused ask price m a = All-imp (λ e p. grind (arith, p)) _ a

  Inside-of_empty :
      (side : Side) (price : ℕ) (m : Market T U)
      → orders t (opposite side) m.book ≡ []
      → Inside t side price m.book
  unfolding opposite
  Inside-of_empty bid price m e = subst (All (λ y. price < y.key.price_in_ticks)) (sym e) tt
  Inside-of_empty ask price m e = subst (All (λ x. x.key.price_in_ticks < price)) (sym e) tt

  -- What remains after a pass that ran out of prices or of orders may rest at the limit.
  Inside-of_stop :
      (stop : MatchStop) (k : Taker) (price : ℕ) (m : Market T U) (s : Tally)
      → k.limit ≡ some price
      → s.remaining ≢ 0
      → stop ≢ match_limit
      → stop ≢ insufficient_funds
      → Reason t u stop k m s
      → Inside t k.side price m.book
  Inside-of_stop fully_filled k price m s l more n₁ n₂ why = absurd (more why)
  Inside-of_stop price_limit k price m s l more n₁ n₂ why = Inside-of_refused k.side price m (
      subst
        (λ x.
          All (λ e. Allowed k.side e.key.price_in_ticks x → ⊥) (orders t (opposite k.side) m.book))
        l why.1)
  Inside-of_stop match_limit k price m s l more n₁ n₂ why = absurd (n₁ refl)
  Inside-of_stop book_empty k price m s l more n₁ n₂ why = Inside-of_empty k.side price m why.1
  Inside-of_stop insufficient_funds k price m s l more n₁ n₂ why = absurd (n₂ refl)
  Inside-of_stop did_not_cross k price m s l more n₁ n₂ why = absurd why

  post_remainder-Uncrossed :
      (m m' : Market T U) (k : Taker) (price : ℕ) (stop : MatchStop) (s : Tally)
      (outcome : OrderOutcome)
      → Conserved t u m
      → value_at k.seat (seats t u m) ≢ none
      → m.book.next_sequence_number ≤ max_sequence_number
      → Uncrossed t m.book
      → k.limit ≡ some price
      → s.remaining ≢ 0
      → Reason t u stop k m s
      → outcome.stop ≢ match_limit
      → outcome.stop ≢ insufficient_funds
      → post_remainder t u m k.seat k.side price stop s ≡ ok (outcome, m')
      → Uncrossed t m'.book
  unfolding post_remainder outcome_of
  post_remainder-Uncrossed m m' k price stop s outcome c claimed counter a l more why n₁ n₂ e =
      let ((id, m₁), e₁, e₂) = >>=-eq-ok (post t u m k.seat k.side price s.remaining) _ e in
      let same : m₁ ≡ m' = ground arith in
      let told : outcome.stop ≡ stop = ground arith in
      let inside =
        Inside-of_stop stop k price m s l more (λ q. n₁ (told ∙ q)) (λ q. n₂ (told ∙ q)) why in
      subst (λ x. Uncrossed t x.book) same
        (post-Uncrossed m m₁ k.seat k.side price s.remaining id c claimed counter a inside e₁)

  place_packet-Uncrossed :
      (m m' : Market T U) (seat : SeatIndex) (packet : OrderPacket) (outcome : OrderOutcome)
      → Conserved t u m
      → value_at seat (seats t u m) ≢ none
      → m.book.next_sequence_number ≤ max_sequence_number
      → Uncrossed t m.book
      → place_packet t u m seat packet ≡ ok (outcome, m')
      → outcome.stop ≢ match_limit
      → outcome.stop ≢ insufficient_funds
      → Uncrossed t m'.book
  unfolding place_packet place_post_only cross
  place_packet-Uncrossed m m' seat (post_only side price size rejection) outcome c claimed counter a
        e n₁ n₂ =
      let (p, e₁, e₂) =
        >>=-eq-ok (ok_or (non_crossing_price t u m side price) post_only_no_room) _ e in
      let (inside, e₃) =
        fail_if-eq-ok (not (p == price) && is_reject rejection) post_only_would_cross _ e₂ in
      let ((id, m₁), e₄, e₅) = >>=-eq-ok (post t u m seat side p size) _ e₃ in
      let same : m₁ ≡ m' = ground arith in
      let room = (non_crossing_price_lem t u m side price p c.filed (ground arith)).0 in
      subst (λ x. Uncrossed t x.book) same
        (post-Uncrossed m m₁ seat side p size id c claimed counter a room e₄)
  place_packet-Uncrossed m m' seat (limit side price size behavior most) outcome c claimed counter a
        e n₁ n₂ =
      let k : Taker = record {
        seat = seat;
        side = side;
        limit = some price;
        behavior = behavior;
      } in
      let ((stop, m₁, s), e₁, e₂) = >>=-eq-ok (cross t u m k size most) _ e in
      let kept = cross_loop-Keeps t u most k m m₁ (start_tally size) s stop c claimed e₁ in
      let a₁ = cross_loop-Uncrossed t u most k m m₁ (start_tally size) s stop c claimed a e₁ in
      elim (Bool-cases (is_zero s.remaining)) [
        | inl done ↦ let same : m₁ ≡ m' = ground arith in subst (λ x. Uncrossed t x.book) same a₁
        | inr more ↦
            post_remainder-Uncrossed m₁ m' k price stop s outcome kept.conserved
              (kept.claimed seat claimed) (omega (arith, kept.counter_kept)) a₁ refl
              (λ z. ground (arith, (==_iff s.remaining 0).1 z))
              (cross-Honest t u m m₁ k size most s stop c claimed e₁).1 n₁ n₂ (ground arith)
      ]
  place_packet-Uncrossed m m' seat (immediate_or_cancel side price size minimum behavior most)
        outcome c claimed counter a e n₁ n₂ =
      let k : Taker = record { seat = seat; side = side; limit = price; behavior = behavior } in
      let ((stop, m₁, s), e₁, e₂) = >>=-eq-ok (cross t u m k size most) _ e in
      let (met, e₃) = fail_if-eq-ok (ltb s.base_lots_filled minimum) minimum_fill_not_met _ e₂ in
      let same : m₁ ≡ m' = ground arith in
      subst (λ x. Uncrossed t x.book) same
        (cross_loop-Uncrossed t u most k m m₁ (start_tally size) s stop c claimed a e₁)

  -- On a conserved market in which no bid reaches an ask, an order of any kind that succeeds from
  -- a claimed seat leaves no bid reaching an ask, unless its matching stopped at the match limit
  -- or for want of funds.
  pub place_order-Uncrossed :
      (m m' : Market T U) (seat : SeatIndex) (packet : OrderPacket) (outcome : OrderOutcome)
      → Conserved t u m
      → value_at seat (seats t u m) ≢ none
      → m.book.next_sequence_number ≤ max_sequence_number
      → Uncrossed t m.book
      → place_order t u m seat packet ≡ ok (outcome, m')
      → outcome.stop ≢ match_limit
      → outcome.stop ≢ insufficient_funds
      → Uncrossed t m'.book
  unfolding place_order
  place_order-Uncrossed m m' seat packet outcome c claimed counter a e n₁ n₂ =
      let (some_size, e₁) = fail_if-eq-ok (is_zero (packet_lots packet)) zero_size _ e in
      let (st, e₂, e₃) = >>=-eq-ok (state u m.traders seat) _ e₁ in
      place_packet-Uncrossed m m' seat packet outcome c claimed counter a e₃ n₁ n₂
