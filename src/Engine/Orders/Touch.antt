-- ===== src/Engine/Orders/Touch.antt =====
-- crates/clob-engine/src/market/orders.rs: the price that a post-only order rests at.
use clob_dex.Prelude.{
  ℕ, ◌≤◌, ◌<◌, ◌≡◌, sym, subst, some, All, All-imp, arith, inl, inr, Option-cases,
}
use clob_dex.Order.{Side, bid, ask}
use clob_dex.Tree.Keys.{All-value_of}
use clob_dex.Book.{BookTree, best}
use clob_dex.Book.Best.{best-Leads, best-none, best_filed}
use clob_dex.Book.Filed.{IsFiled, compare_id-IsLawful}
use clob_dex.Book.Uncrossed.{Inside, at_most, at_least}
use clob_dex.Engine.Seats.{SeatTree}
use clob_dex.Engine.Market.{Market}
use clob_dex.Engine.Orders.{non_crossing_price, slid_price}

-- The price asked for, or a less aggressive one.
abbrev pub NoBetter : Side → ℕ → ℕ → Type 0
NoBetter bid asked price = price ≤ asked
NoBetter ask asked price = asked ≤ price

module _ {T U : Type 0} (t : BookTree T) (u : SeatTree U) where
  -- The price that a post-only order rests at stops short of every order on the other side, is
  -- never more aggressive than the one asked for, and is the one asked for when that already stops
  -- short.
  pub non_crossing_price_lem :
      (m : Market T U) (side : Side) (price p : ℕ)
      → IsFiled t m.book
      → non_crossing_price t u m side price ≡ some p
      → Inside t side p m.book × NoBetter side price p × (Inside t side price m.book → p ≡ price)
  unfolding non_crossing_price slid_price
  non_crossing_price_lem m bid price p f e = elim (Option-cases (best t m.book ask)) [
    | inl no_asks ↦ (
      subst (All (λ y. p < y.key.price_in_ticks)) (sym (best-none t m.book ask no_asks)) tt,
      ground arith,
      λ i. ground arith,
    )
    | inr (y, low) ↦
        let leads = (best-Leads t m.book ask y f low).1 in
        (
          All-imp (λ z l. ground (arith, at_least y z l)) _ leads,
          ground arith,
          λ i. ground (
            arith,
            All-value_of compare_id-IsLawful (λ j o. price < j.price_in_ticks) y.key y.value
                (t.entries m.book.asks) i (best_filed t m.book ask y low),
          ),
        )
  ]
  non_crossing_price_lem m ask price p f e = elim (Option-cases (best t m.book bid)) [
    | inl no_bids ↦ (
      subst (All (λ x. x.key.price_in_ticks < p)) (sym (best-none t m.book bid no_bids)) tt,
      ground arith,
      λ i. ground arith,
    )
    | inr (x, top) ↦
        let leads = (best-Leads t m.book bid x f top).1 in
        (
          All-imp (λ z l. ground (arith, at_most x z l)) _ leads,
          ground arith,
          λ i. ground (
            arith,
            All-value_of compare_id-IsLawful (λ j o. j.price_in_ticks < price) x.key x.value
                (t.entries m.book.bids) i (best_filed t m.book bid x top),
          ),
        )
  ]
