-- ===== src/Engine/Conserved/Run.antt =====
-- crates/clob-engine/src/market: what any run of the market's operations reaches, from a blank account.
use clob_dex.Prelude.{ℕ, suc, ◌+◌, ◌≤◌, ◌≡◌, ◌≢◌, subst, none, some, arith}
use clob_dex.Quantities.Lots.{LotConfig}
use clob_dex.Order.{FifoOrderId, Side, max_sequence_number}
use clob_dex.Tree.{value_at}
use clob_dex.Book.{BookTree}
use clob_dex.Engine.Error.{ok, >>=-eq-ok}
use clob_dex.Engine.Fees.{FeeSchedule}
use clob_dex.Engine.Trader.{TraderState}
use clob_dex.Engine.Seats.{SeatTree, SeatIndex, TraderKey, state}
use clob_dex.Engine.Packet.{OrderPacket}
use clob_dex.Engine.Fill.{OrderOutcome}
use clob_dex.Engine.Market.{
  Market, initialize, market_claim_seat, market_release_seat, deposit, withdraw, withdraw_all,
  collect_fees,
}
use clob_dex.Engine.Orders.{place_order, cancel_order, reduce_order, cancel_orders_for_seat}
use clob_dex.Engine.Conserved.{seats, Conserved}
use clob_dex.Engine.Conserved.Funds.{
  initialize-Conserved, deposit-Conserved, withdraw-Conserved, withdraw-succeeds,
  collect_fees-succeeds,
}
use clob_dex.Engine.Conserved.OneSeat.{state_live}
use clob_dex.Engine.Conserved.Seating.{claim_seat-Conserved, release_seat-Conserved, Worthy}
use clob_dex.Engine.Conserved.Place.{
  place_order-Sound, cancel_order-Keeps, reduce_order-Keeps, cancel_for_seat_loop-Keeps,
}

module _ {T U : Type 0} (t : BookTree T) (u : SeatTree U) where
  abbrev counter : Market T U → ℕ
  counter m = m.book.next_sequence_number

  initialize-counter :
      (m m' : Market T U) (lots : LotConfig) (fees : FeeSchedule)
      → initialize t u m lots fees ≡ ok m'
      → counter m' ≡ counter m
  unfolding initialize
  initialize-counter m m' lots fees e = ground arith

  deposit-counter :
      (m m' : Market T U) (seat : SeatIndex) (base quote : ℕ)
      → deposit t u m seat base quote ≡ ok m'
      → counter m' ≡ counter m
  unfolding deposit
  deposit-counter m m' seat base quote e = ground arith

  withdraw-counter :
      (m m' : Market T U) (seat : SeatIndex) (base quote : ℕ)
      → withdraw t u m seat base quote ≡ ok m'
      → counter m' ≡ counter m
  unfolding withdraw
  withdraw-counter m m' seat base quote e = ground arith

  collect_fees-counter :
      (m m' : Market T U) (paid : ℕ) → collect_fees t u m ≡ ok (paid, m') → counter m' ≡ counter m
  unfolding collect_fees
  collect_fees-counter m m' paid e = ground arith

  claim_seat-counter :
      (m m' : Market T U) (key : TraderKey) (h : SeatIndex)
      → market_claim_seat t u m key ≡ ok (h, m')
      → counter m' ≡ counter m
  unfolding market_claim_seat
  claim_seat-counter m m' key h e = ground arith

  release_seat-counter :
      (m m' : Market T U) (key : TraderKey)
      → market_release_seat t u m key ≡ ok m'
      → counter m' ≡ counter m
  unfolding market_release_seat
  release_seat-counter m m' key e = ground arith

  -- The operations that place no order. A seat of these is a claimed one, and a seat is released only
  -- while each resting order locks something.
  pub data Step (m : Market T U) : Market T U → Type 0 where
    seated :
        (m' : Market T U) (key : TraderKey) (h : SeatIndex)
        → market_claim_seat t u m key ≡ ok (h, m')
        → Step m m'
    released :
        (m' : Market T U) (key : TraderKey)
        → Worthy t u m
        → market_release_seat t u m key ≡ ok m'
        → Step m m'
    deposited :
        (m' : Market T U) (seat : SeatIndex) (base quote : ℕ)
        → value_at seat (seats t u m) ≢ none
        → deposit t u m seat base quote ≡ ok m'
        → Step m m'
    withdrew :
        (m' : Market T U) (seat : SeatIndex) (base quote : ℕ)
        → value_at seat (seats t u m) ≢ none
        → withdraw t u m seat base quote ≡ ok m'
        → Step m m'
    withdrew_all :
        (m' : Market T U) (seat : SeatIndex) (base quote : ℕ)
        → value_at seat (seats t u m) ≢ none
        → withdraw_all t u m seat ≡ ok ((base, quote), m')
        → Step m m'
    paid : (m' : Market T U) (fees : ℕ) → collect_fees t u m ≡ ok (fees, m') → Step m m'
    cancelled :
        (m' : Market T U) (seat : SeatIndex) (id : FifoOrderId) (size : ℕ)
        → cancel_order t u m seat id ≡ ok (size, m')
        → Step m m'
    reduced :
        (m' : Market T U) (seat : SeatIndex) (id : FifoOrderId) (lots size : ℕ)
        → reduce_order t u m seat id lots ≡ ok (size, m')
        → Step m m'
    cleared :
        (m' : Market T U) (seat : SeatIndex) (side : Side) (most size : ℕ)
        → cancel_orders_for_seat t u m seat side most ≡ ok (size, m')
        → Step m m'

  -- The markets that a run with `n` orders placed comes to, each step of which succeeds.
  pub data Reaches : ℕ → Market T U → Type 0 where
    opened :
        (m₀ m : Market T U) (lots : LotConfig) (fees : FeeSchedule)
        → counter m₀ ≡ 0
        → initialize t u m₀ lots fees ≡ ok m
        → Reaches 0 m
    stepped : (n : ℕ) (m m' : Market T U) → Reaches n m → Step m m' → Reaches n m'
    placed :
        (n : ℕ) (m m' : Market T U) (seat : SeatIndex) (packet : OrderPacket)
        (outcome : OrderOutcome)
        → Reaches n m
        → value_at seat (seats t u m) ≢ none
        → place_order t u m seat packet ≡ ok (outcome, m')
        → Reaches (suc n) m'

  -- A step keeps the invariant and the counter.
  Step-Conserved :
      (m m' : Market T U)
      → Conserved t u m
      → Step m m'
      → Conserved t u m' × (counter m' ≡ counter m)
  unfolding withdraw_all cancel_orders_for_seat
  Step-Conserved m a c (seated m' key h e) =
      ((claim_seat-Conserved t u m m' key h c e).0, claim_seat-counter m m' key h e)
  Step-Conserved m a c (released m' key w e) =
      ((release_seat-Conserved t u m m' key c w e).0, release_seat-counter m m' key e)
  Step-Conserved m a c (deposited m' seat base quote p e) =
      (deposit-Conserved t u m m' seat base quote c p e, deposit-counter m m' seat base quote e)
  Step-Conserved m a c (withdrew m' seat base quote p e) =
      (withdraw-Conserved t u m m' seat base quote c p e, withdraw-counter m m' seat base quote e)
  Step-Conserved m a c (withdrew_all m' seat base quote p e) =
      let (st, e₁, e₂) = >>=-eq-ok (state u m.traders seat) _ e in
      let (m₁, e₃, e₄) =
        >>=-eq-ok (withdraw t u m seat st.base_lots_free st.quote_lots_free) _ e₂ in
      let same : m₁ ≡ m' = ground arith in
      subst (λ n. Conserved t u n × (counter n ≡ counter m)) same
        (
          withdraw-Conserved t u m m₁ seat st.base_lots_free st.quote_lots_free c p e₃,
          withdraw-counter m m₁ seat st.base_lots_free st.quote_lots_free e₃,
        )
  Step-Conserved m a c (paid m' fees e) =
      let (m₁, e₁, z, d, c₁) = collect_fees-succeeds t u m c in
      let same : m₁ ≡ m' = ground (arith, e, e₁) in
      (subst (Conserved t u) same c₁, collect_fees-counter m m' fees e)
  Step-Conserved m a c (cancelled m' seat id size e) =
      let k = cancel_order-Keeps t u m m' seat id size c e in (k.conserved, k.counter_kept)
  Step-Conserved m a c (reduced m' seat id lots size e) =
      let k = reduce_order-Keeps t u m m' seat id lots size c e in (k.conserved, k.counter_kept)
  Step-Conserved m a c (cleared m' seat side most size e) =
      let k = cancel_for_seat_loop-Keeps t u most m m' seat side 0 size c e in
      (k.conserved, k.counter_kept)

  -- The value is conserved, at most `n` ids are out, and every seat is good for its free funds.
  pub record Solvent (n : ℕ) (m : Market T U) : Type 0 where
    pub conserved : Conserved t u m
    pub issued : counter m ≤ n
    pub pays :
        (seat : SeatIndex) (st : TraderState)
        → value_at seat (seats t u m) ≡ some st
        → (m' : Market T U) × (withdraw_all t u m seat
            ≡ ok ((st.base_lots_free, st.quote_lots_free), m'))
          × Conserved t u m'

  pays_out :
      (m : Market T U) (seat : SeatIndex) (st : TraderState)
      → Conserved t u m
      → value_at seat (seats t u m) ≡ some st
      → (m' : Market T U) × (withdraw_all t u m seat
          ≡ ok ((st.base_lots_free, st.quote_lots_free), m'))
        × Conserved t u m'
  unfolding withdraw_all
  pays_out m seat st c p =
      let (m', done, kept) =
        withdraw-succeeds t u m seat st st.base_lots_free st.quote_lots_free c p (omega arith)
          (omega arith) in
      (m', ground (arith, state_live u m.traders seat st p, done), kept)

  reached-Conserved :
      (n : ℕ) (m : Market T U)
      → Reaches n m
      → n ≤ max_sequence_number + 1
      → Conserved t u m × (counter m ≤ n)
  reached-Conserved n a (opened m₀ m lots fees z e) b = (
    initialize-Conserved t u m₀ m lots fees e,
    omega (arith, initialize-counter m₀ m lots fees e, z),
  )
  reached-Conserved n a (stepped k m m' r s) b =
      let w = reached-Conserved k m r b in
      let v = Step-Conserved m m' w.0 s in (v.0, omega (arith, v.1, w.1))
  reached-Conserved n a (placed k m m' seat packet outcome r p e) b =
      let w = reached-Conserved k m r (omega arith) in
      let v = place_order-Sound t u m m' seat packet outcome w.0 p (omega (arith, w.1)) e in
      (v.conserved, omega (arith, v.counter, w.1))

  -- From a blank account whose order counter is zero, after any run of operations in which each
  -- succeeds, at most 2^63 orders are placed, deposits, withdrawals and orders are of claimed
  -- seats, and a seat is released only while each resting order has a positive size and value,
  -- value is conserved, no more order ids are out than orders were placed, and every seat can
  -- withdraw all of its free funds, which keeps value conserved.
  pub reached-Solvent :
      (n : ℕ) (m : Market T U) → Reaches n m → n ≤ max_sequence_number + 1 → Solvent n m
  reached-Solvent n m r b =
      let w = reached-Conserved n m r b in
      record { conserved = w.0; issued = w.1; pays = λ seat st p. pays_out m seat st w.0 p }
