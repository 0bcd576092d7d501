-- ===== src/Engine/Conserved/TakeOff.antt =====
-- Releasing the funds behind part of an order while that part leaves the book: the step that cancel,
-- reduce and both self-trade policies share.
use clob_dex.Prelude.{
  ℕ, ◌-◌, ◌≤◌, ◌≡◌, ◌≢◌, refl, sym, subst, ◌∙◌, none, some, arith, Option-cases, inl, inr,
}
use clob_dex.Order.{Side, bid, ask, FifoOrderId, RestingOrder, side_of, compare_id}
use clob_dex.Tree.{value_at, set_at}
use clob_dex.Tree.Entries.{value_of}
use clob_dex.Tree.Keys.{All-value_of}
use clob_dex.Book.{OrderBook, BookTree, get_order}
use clob_dex.Book.Filed.{compare_id-IsLawful}
use clob_dex.Book.Remove.{orders, Leaves, get_order_lem}
use clob_dex.Engine.Error.{ok, >>=-eq-ok}
use clob_dex.Engine.Trader.{TraderState, unlock_base, unlock_quote}
use clob_dex.Engine.Seats.{SeatTree, SeatIndex}
use clob_dex.Engine.Market.{Market, unlock_backing, unlock_on, quote_value}
use clob_dex.Engine.Conserved.{owner, seats, bids, asks, Conserved, Keeps}
use clob_dex.Engine.Conserved.OneSeat.{claimed-set_at, with_state_lem}
use clob_dex.Engine.Conserved.Unlocked.{quote_lots_for-value, take_off_ask, take_off_bid}

module _ {T U : Type 0} (t : BookTree T) (u : SeatTree U) where
  claimed_owner :
      (m : Market T U) (c : Conserved t u m) (id : FifoOrderId) (order : RestingOrder)
      → get_order t m.book id ≡ some order
      → value_at (owner order) (seats t u m) ≢ none
  claimed_owner m c id order h = go (side_of id) refl (sym (get_order_lem t m.book id) ∙ h)
    where
      go :
          (side : Side)
          → side_of id ≡ side
          → value_of compare_id id (orders t (side_of id) m.book) ≡ some order
          → value_at (owner order) (seats t u m) ≢ none
      go bid e p =
          All-value_of compare_id-IsLawful (λ i o. value_at (owner o) (seats t u m) ≢ none) id order
            (bids t u m) c.bids_owned
            (subst (λ s. value_of compare_id id (orders t s m.book) ≡ some order) e p)
      go ask e p =
          All-value_of compare_id-IsLawful (λ i o. value_at (owner o) (seats t u m) ≢ none) id order
            (asks t u m) c.asks_owned
            (subst (λ s. value_of compare_id id (orders t s m.book) ≡ some order) e p)

  -- The owner of a resting order has a seat.
  pub owner-claimed :
      (m : Market T U) (id : FifoOrderId) (order : RestingOrder)
      → Conserved t u m
      → get_order t m.book id ≡ some order
      → (st : TraderState) × (value_at (owner order) (seats t u m) ≡ some st)
  owner-claimed m id order c h = elim (Option-cases (value_at (owner order) (seats t u m))) [
    | inl e ↦ absurd (claimed_owner m c id order h e)
    | inr (st, e) ↦ (st, e)
  ]

  Keeps-written :
      (m m₁ : Market T U) (b' : OrderBook T) (h : SeatIndex) (st st' : TraderState) (s : U)
      → value_at h (seats t u m) ≡ some st
      → m₁ ≡ record m { traders = s }
      → u.entries s ≡ set_at h st' (seats t u m)
      → b'.next_sequence_number ≡ m.book.next_sequence_number
      → Conserved t u (record m { traders = s; book = b' })
      → Keeps t u m (record m₁ { book = b' }) × (m₁.book ≡ m.book)
  Keeps-written m m₁ b' h st st' s p same written seq c =
      subst (λ x. Keeps t u m (record x { book = b' }) × (x.book ≡ m.book)) (sym same)
        (
          record {
            conserved = c;
            claimed = λ j n. rw written (claimed-set_at h st st' _ j p n);
            lots_kept = refl;
            fees_kept = refl;
            counter_kept = seq;
          },
          refl,
        )

  -- Releasing the funds of the part of an order that leaves the book keeps the invariant.
  pub take_off :
      (m : Market T U) {m₁ : Market T U} (b' : OrderBook T) (id : FifoOrderId)
      (order : RestingOrder) (rest : ℕ)
      → Conserved t u m
      → get_order t m.book id ≡ some order
      → rest ≤ order.num_base_lots
      → unlock_backing t u m id (owner order) (order.num_base_lots - rest) ≡ ok m₁
      → Leaves t m.book b' id order rest
      → Keeps t u m (record m₁ { book = b' }) × (m₁.book ≡ m.book)
  unfolding unlock_backing unlock_on quote_value
  take_off m {m₁} b' id order rest c h small e l =
      let (st, p) = owner-claimed m id order c h in
      go st p (side_of id) refl (sym (get_order_lem t m.book id) ∙ h) e
    where
      go :
          (st : TraderState)
          → value_at (owner order) (seats t u m) ≡ some st
          → (side : Side) → side_of id ≡ side
          → value_of compare_id id (orders t (side_of id) m.book) ≡ some order
          → unlock_on t u side m id.price_in_ticks (owner order) (order.num_base_lots - rest)
            ≡ ok m₁
          → Keeps t u m (record m₁ { book = b' }) × (m₁.book ≡ m.book)
      go st p ask q found e =
          let (st', s, change, same, written) =
            with_state_lem u t m (owner order) st (λ x. unlock_base x (order.num_base_lots - rest))
              p e in
          Keeps-written m m₁ b' (owner order) st st' s p same written l.sequence_kept (
            take_off_ask t u m c id order rest st p small b' s st' q
              (subst (λ x. value_of compare_id id (orders t x m.book) ≡ some order) q found) change
              written l)
      go st p bid q found e =
          let (v, ev, e') =
            >>=-eq-ok (quote_value t u m id.price_in_ticks (order.num_base_lots - rest)) _ e in
          let worth =
            quote_lots_for-value m.header id.price_in_ticks (order.num_base_lots - rest) {q = v}
              (ground arith) in
          let (st', s, change, same, written) =
            with_state_lem u t m (owner order) st (λ x. unlock_quote x v) p e' in
          Keeps-written m m₁ b' (owner order) st st' s p same written l.sequence_kept (
            take_off_bid t u m c id order rest st p small b' s st' q
              (subst (λ x. value_of compare_id id (orders t x m.book) ≡ some order) q found)
              (subst (λ x. unlock_quote st x ≡ ok st') worth change) written l)
