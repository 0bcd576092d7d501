-- ===== src/Engine/Conserved/Place.antt =====
-- crates/clob-engine/src/market/orders.rs: placing, cancelling and reducing keep the invariant.
use mathlib.Core.Path.{subst₂}
use clob_dex.Prelude.{
  ℕ, zero, suc, ◌+◌, ◌-◌, ◌≤◌, ◌≡◌, ◌≢◌, refl, sym, ap, subst, none, some, ◌==◌, ==_iff, arith, inl,
  inr, Option-cases, Bool-cases, not, ◌&&◌, ltb,
}
use clob_dex.Quantities.{is_zero, min}
use clob_dex.Order.{Side, FifoOrderId, RestingOrder, max_sequence_number}
use clob_dex.Tree.{value_at}
use clob_dex.Book.{OrderBook, BookTree, get_order, cancel}
use clob_dex.Book.Depth.{iter_side}
use clob_dex.Book.Remove.{Leaves, cancel_lem, reduce_lem}
use clob_dex.Engine.Error.{
  Result, ok, err, >>=-eq-ok, fail_if-eq-ok, ok_or, post_only_no_room, post_only_would_cross,
  minimum_fill_not_met, zero_size,
}
use clob_dex.Engine.Seats.{SeatTree, SeatIndex, state}
use clob_dex.Engine.Packet.{OrderPacket, limit, post_only, immediate_or_cancel, packet_lots}
use clob_dex.Engine.Fill.{OrderOutcome, MatchStop}
use clob_dex.Engine.Market.{Market, unlock_backing, owner_of}
use clob_dex.Engine.Matching.{Taker, Tally, cross, start_tally}
use clob_dex.Engine.Orders.{
  is_reject, post, place_post_only, post_remainder, place_order, place_packet, non_crossing_price,
  cancel_order, reduce_order, book_after_reduce, first_of_seat, cancel_for_seat_loop,
}
use clob_dex.Engine.Conserved.{owner, seats, Conserved, Keeps, Keeps-refl, Keeps-trans}
use clob_dex.Engine.Conserved.TakeOff.{take_off}
use clob_dex.Engine.Conserved.Cross.{cross_loop-Keeps}
use clob_dex.Engine.Conserved.Post.{post-Posted}

min_le_left : (m n : ℕ) → min m n ≤ m
unfolding min
min_le_left m n = ground arith

module _ {T U : Type 0} (t : BookTree T) (u : SeatTree U) where
  owner_of-eq-ok :
      (m : Market T U) (id : FifoOrderId) {seat : SeatIndex}
      → owner_of t u m id ≡ ok seat
      → (order : RestingOrder) × (get_order t m.book id ≡ some order) × (owner order ≡ seat)
  unfolding owner_of
  owner_of-eq-ok m id e = elim (Option-cases (get_order t m.book id)) [
    | inl absent ↦ absurd (ground arith)
    | inr (order, h) ↦ (order, h, ground arith)
  ]

  -- A cancel that succeeds keeps the conservation invariant, the claimed seats, the configuration
  -- and the order counter.
  pub cancel_order-Keeps :
      (m m' : Market T U) (seat : SeatIndex) (id : FifoOrderId) (size : ℕ)
      → Conserved t u m
      → cancel_order t u m seat id ≡ ok (size, m')
      → Keeps t u m m'
  unfolding cancel_order
  cancel_order-Keeps m m' seat id size c e =
      let (own, e₁, e₂) = >>=-eq-ok (owner_of t u m id) _ e in
      let (mine, e₃) = fail_if-eq-ok (not (own == seat)) _ _ e₂ in
      let (order, h, who) = owner_of-eq-ok m id e₁ in
      let (order', e₄, e₅) = >>=-eq-ok (ok_or (get_order t m.book id) _) _ e₃ in
      let same_order : order ≡ order' = ground arith in
      let (m₁, e₆, e₇) = >>=-eq-ok (unlock_backing t u m id seat order'.num_base_lots) _ e₅ in
      let same_seat : seat ≡ owner order = ground (arith, (==_iff own seat).0) in
      let whole : order.num_base_lots - 0 ≡ order'.num_base_lots = ground arith in
      let k =
        take_off t u m {m₁ = m₁} (cancel t m.book id).1 id order 0 c h (omega arith)
          (rw (whole, sym same_seat) e₆) (cancel_lem t m.book id order h).1 in
      let same : record m₁ { book = (cancel t m.book id).1 } ≡ m' = ground (arith, k.1) in
      subst (Keeps t u m) same k.0

  book_after_reduce-Leaves :
      (b : OrderBook T) (id : FifoOrderId) (order : RestingOrder) (lots : ℕ)
      → lots ≤ order.num_base_lots
      → get_order t b id ≡ some order
      → Leaves t b (book_after_reduce t u b id lots) id order (order.num_base_lots - lots)
  unfolding book_after_reduce min
  book_after_reduce-Leaves b id order lots small h =
      let (r, b', e, l, total, removed, gone) = reduce_lem t b id order lots h in
      let same : b' ≡ book_after_reduce t u b id lots = ground (arith, e) in
      let rest : r.base_lots_remaining ≡ order.num_base_lots - lots = ground arith in
      subst₂ (λ x y. Leaves t b x id order y) same rest l

  -- A reduction that succeeds keeps the conservation invariant, the claimed seats, the
  -- configuration and the order counter.
  pub reduce_order-Keeps :
      (m m' : Market T U) (seat : SeatIndex) (id : FifoOrderId) (lots removed : ℕ)
      → Conserved t u m
      → reduce_order t u m seat id lots ≡ ok (removed, m')
      → Keeps t u m m'
  unfolding reduce_order
  reduce_order-Keeps m m' seat id lots removed c e =
      let (own, e₁, e₂) = >>=-eq-ok (owner_of t u m id) _ e in
      let (mine, e₃) = fail_if-eq-ok (not (own == seat)) _ _ e₂ in
      let (order, h, who) = owner_of-eq-ok m id e₁ in
      let (order', e₄, e₅) = >>=-eq-ok (ok_or (get_order t m.book id) _) _ e₃ in
      let same_order : order' ≡ order = ground arith in
      let d = min order.num_base_lots lots in
      let (m₁, e₆, e₇) =
        >>=-eq-ok (unlock_backing t u m id seat (min order'.num_base_lots lots)) _ e₅ in
      let same_seat : seat ≡ owner order = ground (arith, (==_iff own seat).0) in
      let small : d ≤ order.num_base_lots = min_le_left order.num_base_lots lots in
      let back : order.num_base_lots - (order.num_base_lots - d) ≡ d = omega (arith, small) in
      let d_same : min order'.num_base_lots lots ≡ d =
        ap (λ o. min o.num_base_lots lots) same_order in
      let k =
        take_off t u m {m₁ = m₁} (book_after_reduce t u m.book id d) id order
          (order.num_base_lots - d) c h (omega arith)
          (rw back (subst₂ (λ x y. unlock_backing t u m id x y ≡ ok m₁) same_seat d_same e₆))
          (book_after_reduce-Leaves m.book id order d small h) in
      let same : record m₁ { book = book_after_reduce t u m.book id d } ≡ m' =
        ground (arith, k.1, d_same) in
      subst (Keeps t u m) same k.0

  -- What placing an order keeps: the invariant and the claimed seats; the counter issues one id at
  -- most.
  pub record Sound (m m' : Market T U) : Type 0 where
    pub conserved : Conserved t u m'
    pub claimed :
        (j : SeatIndex) → value_at j (seats t u m) ≢ none → value_at j (seats t u m') ≢ none
    pub counter : m'.book.next_sequence_number ≤ m.book.next_sequence_number + 1

  Sound-Keeps : (m m' : Market T U) → Keeps t u m m' → Sound m m'
  Sound-Keeps m m' k = record {
    conserved = k.conserved;
    claimed = k.claimed;
    counter = omega (arith, k.counter_kept);
  }

  post-Sound :
      (l m m' : Market T U) (seat : SeatIndex) (side : Side) (price size : ℕ) (id : FifoOrderId)
      → Keeps t u l m
      → value_at seat (seats t u l) ≢ none
      → l.book.next_sequence_number ≤ max_sequence_number
      → post t u m seat side price size ≡ ok (id, m')
      → Sound l m'
  post-Sound l m m' seat side price size id k claimed counter e =
      let p =
        post-Posted t u m m' seat side price size id k.conserved (k.claimed seat claimed)
          (omega (arith, k.counter_kept)) e in
      record {
        conserved = p.conserved;
        claimed = λ j n. p.claimed j (k.claimed j n);
        counter = omega (arith, p.rests.sequence_next, k.counter_kept);
      }

  post_remainder-Sound :
      (l m m' : Market T U) (seat : SeatIndex) (side : Side) (price : ℕ) (stop : MatchStop)
      (s : Tally) (outcome : OrderOutcome)
      → Keeps t u l m
      → value_at seat (seats t u l) ≢ none
      → l.book.next_sequence_number ≤ max_sequence_number
      → post_remainder t u m seat side price stop s ≡ ok (outcome, m')
      → Sound l m'
  unfolding post_remainder
  post_remainder-Sound l m m' seat side price stop s outcome k claimed counter e =
      let ((id, m₂), e₃, e₄) = >>=-eq-ok (post t u m seat side price s.remaining) _ e in
      let same : m₂ ≡ m' = ground arith in
      subst (Sound l) same (post-Sound l m m₂ seat side price s.remaining id k claimed counter e₃)

  place_packet-Sound :
      (m m' : Market T U) (seat : SeatIndex) (packet : OrderPacket) (outcome : OrderOutcome)
      → Conserved t u m
      → value_at seat (seats t u m) ≢ none
      → m.book.next_sequence_number ≤ max_sequence_number
      → place_packet t u m seat packet ≡ ok (outcome, m')
      → Sound m m'
  unfolding place_packet place_post_only cross
  place_packet-Sound m m' seat (post_only side price size rejection) outcome c claimed counter e =
      let (p, e₁, e₂) =
        >>=-eq-ok (ok_or (non_crossing_price t u m side price) post_only_no_room) _ e in
      let (inside, e₃) =
        fail_if-eq-ok (not (p == price) && is_reject rejection) post_only_would_cross _ e₂ in
      let ((id, m₁), e₄, e₅) = >>=-eq-ok (post t u m seat side p size) _ e₃ in
      let same : m₁ ≡ m' = ground arith in
      subst (Sound m) same
        (post-Sound m m m₁ seat side p size id (Keeps-refl t u m c) claimed counter e₄)
  place_packet-Sound m m' seat (limit side price size behavior most) outcome c claimed counter e =
      let k : Taker = record {
        seat = seat;
        side = side;
        limit = some price;
        behavior = behavior;
      } in
      let ((stop, m₁, s), e₁, e₂) = >>=-eq-ok (cross t u m k size most) _ e in
      let kept = cross_loop-Keeps t u most k m m₁ (start_tally size) s stop c claimed e₁ in
      elim (Bool-cases (is_zero s.remaining)) [
        | inl done ↦
            let same : m₁ ≡ m' = ground arith in subst (Sound m) same (Sound-Keeps m m₁ kept)
        | inr more ↦
            post_remainder-Sound m m₁ m' seat side price stop s outcome kept claimed counter
              (ground arith)
      ]
  place_packet-Sound m m' seat (immediate_or_cancel side price size minimum behavior most) outcome c
        claimed counter e =
      let k : Taker = record { seat = seat; side = side; limit = price; behavior = behavior } in
      let ((stop, m₁, s), e₁, e₂) = >>=-eq-ok (cross t u m k size most) _ e in
      let kept = cross_loop-Keeps t u most k m m₁ (start_tally size) s stop c claimed e₁ in
      let (met, e₃) = fail_if-eq-ok (ltb s.base_lots_filled minimum) minimum_fill_not_met _ e₂ in
      let same : m₁ ≡ m' = ground arith in subst (Sound m) same (Sound-Keeps m m₁ kept)

  -- An order of any kind that succeeds, from a claimed seat and with the order counter clear of
  -- the tag bit, keeps value conserved, every seat's locked funds equal to the value of its own
  -- resting orders, and every claimed seat claimed, and issues one order id at most.
  pub place_order-Sound :
      (m m' : Market T U) (seat : SeatIndex) (packet : OrderPacket) (outcome : OrderOutcome)
      → Conserved t u m
      → value_at seat (seats t u m) ≢ none
      → m.book.next_sequence_number ≤ max_sequence_number
      → place_order t u m seat packet ≡ ok (outcome, m')
      → Sound m m'
  unfolding place_order
  place_order-Sound m m' seat packet outcome c claimed counter e =
      let (some_size, e₁) = fail_if-eq-ok (is_zero (packet_lots packet)) zero_size _ e in
      let (st, e₂, e₃) = >>=-eq-ok (state u m.traders seat) _ e₁ in
      place_packet-Sound m m' seat packet outcome c claimed counter e₃

  -- Cancelling a seat's orders on a side, up to a count, keeps the invariant.
  pub cancel_for_seat_loop-Keeps :
      (left : ℕ) (m m' : Market T U) (seat : SeatIndex) (side : Side) (cancelled n : ℕ)
      → Conserved t u m
      → cancel_for_seat_loop t u left m seat side cancelled ≡ ok (n, m')
      → Keeps t u m m'
  unfolding cancel_for_seat_loop
  cancel_for_seat_loop-Keeps zero m m' seat side cancelled n c e =
      let same : m ≡ m' = ground arith in subst (Keeps t u m) same (Keeps-refl t u m c)
  cancel_for_seat_loop-Keeps (suc left) m m' seat side cancelled n c e =
      elim (Option-cases (first_of_seat t u seat (iter_side t m.book side))) [
        | inl finished ↦
            let same : m ≡ m' = ground arith in subst (Keeps t u m) same (Keeps-refl t u m c)
        | inr (id, found) ↦
            go id found (cancel_order t u m seat id) refl
              (λ m₁ c₁ e₁. cancel_for_seat_loop-Keeps left m₁ m' seat side (cancelled + 1) n c₁ e₁)
      ]
    where
      go :
          (id : FifoOrderId)
          → first_of_seat t u seat (iter_side t m.book side) ≡ some id
          → (r : Result (ℕ × Market T U)) → cancel_order t u m seat id ≡ r
          → ((m₁ : Market T U)
              → Conserved t u m₁
              → cancel_for_seat_loop t u left m₁ seat side (cancelled + 1) ≡ ok (n, m')
              → Keeps t u m₁ m')
          → Keeps t u m m'
      go id found (err x) q ih = absurd (ground arith)
      go id found (ok (size, m₁)) q ih =
          let k₁ = cancel_order-Keeps m m₁ seat id size c q in
          Keeps-trans t u m m₁ m' k₁ (ih m₁ k₁.conserved (ground arith))
