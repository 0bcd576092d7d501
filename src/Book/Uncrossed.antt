-- ===== src/Book/Uncrossed.antt =====
-- crates/clob-book/src/book/mod.rs: when no bid reaches an ask.
use clob_dex.Prelude.{
  ℕ, ◌≤◌, ◌<◌, ◌≡◌, ◌↔◌, refl, sym, subst, false, List, [], ◌∷◌, All, All-imp, arith, inl, inr,
  Option-cases,
}
use clob_dex.Order.{Side, bid, ask, FifoOrderId, RestingOrder, side_of, compare_id}
use clob_dex.Tree.{insert_entry}
use clob_dex.Tree.Entries.{insert_entry-All}
use clob_dex.Tree.Keys.{All-value_of}
use clob_dex.Book.{OrderBook, BookEntry, BookTree, tree_of, best, is_crossed}
use clob_dex.Book.Filed.{IsFiled, compare_id-IsLawful}
use clob_dex.Book.Remove.{orders, other_side, Leaves, left_with, left_with-All}
use clob_dex.Book.Place.{Rests}
use clob_dex.Book.Best.{Leads, best-Leads, best-none, best_filed}

-- Every bid is priced below every ask.
abbrev pub Apart : List BookEntry → List BookEntry → Type 0
Apart bids asks = All (λ x. All (λ y. x.key.price_in_ticks < y.key.price_in_ticks) asks) bids

Apart-of :
    (p q : ℕ) (bids asks : List BookEntry)
    → p < q
    → All (λ x. x.key.price_in_ticks ≤ p) bids
    → All (λ y. q ≤ y.key.price_in_ticks) asks
    → Apart bids asks
Apart-of p q bids asks h a b = All-imp (λ x m. All-imp (λ y n. omega arith) asks b) bids a

Apart-nil : (bids : List BookEntry) → Apart bids []
Apart-nil [] = tt
Apart-nil (x ∷ bids) = (tt, Apart-nil bids)

-- What the best order's priority says of prices.
pub at_most : (e f : BookEntry) → Leads bid e f → f.key.price_in_ticks ≤ e.key.price_in_ticks
at_most e f l = ground arith

pub at_least : (e f : BookEntry) → Leads ask e f → e.key.price_in_ticks ≤ f.key.price_in_ticks
at_least e f l = ground arith

module _ {T : Type 0} (t : BookTree T) where
  abbrev pub Uncrossed : OrderBook T → Type 0
  Uncrossed b = Apart (t.entries b.bids) (t.entries b.asks)

  -- An order at `price` on `side` would stop short of every order on the other side.
  abbrev pub Inside : Side → ℕ → OrderBook T → Type 0
  Inside bid price b = All (λ y. price < y.key.price_in_ticks) (t.entries b.asks)
  Inside ask price b = All (λ x. x.key.price_in_ticks < price) (t.entries b.bids)

  -- On a filed book the test on the two best orders is false exactly when every bid is priced
  -- below every ask.
  pub is_crossed_iff : (b : OrderBook T) → IsFiled t b → (is_crossed t b ≡ false) ↔ Uncrossed b
  unfolding is_crossed best
  is_crossed_iff b f = (λ e. to e, λ a. from a)
    where
      to : is_crossed t b ≡ false → Uncrossed b
      to e = elim (Option-cases (best t b bid)) [
        | inl no_bids ↦ subst (λ x. Apart x (t.entries b.asks)) (sym (best-none t b bid no_bids)) tt
        | inr (x, top) ↦ elim (Option-cases (best t b ask)) [
          | inl no_asks ↦
              subst (Apart (t.entries b.bids)) (sym (best-none t b ask no_asks)) (Apart-nil _)
          | inr (y, low) ↦
              Apart-of x.key.price_in_ticks y.key.price_in_ticks _ _ (ground arith)
                (All-imp (at_most x) _ (best-Leads t b bid x f top).1)
                (All-imp (at_least y) _ (best-Leads t b ask y f low).1)
        ]
      ]

      from : Uncrossed b → is_crossed t b ≡ false
      from a = elim (Option-cases (best t b bid)) [
        | inl no_bids ↦ ground arith
        | inr (x, top) ↦ elim (Option-cases (best t b ask)) [
          | inl no_asks ↦ ground arith
          | inr (y, low) ↦
              let row =
                All-value_of compare_id-IsLawful
                  (λ i o. All (λ z. i.price_in_ticks < z.key.price_in_ticks) (t.entries b.asks))
                  x.key x.value (t.entries b.bids) a (best_filed t b bid x top) in
              let cell =
                All-value_of compare_id-IsLawful (λ i o. x.key.price_in_ticks < i.price_in_ticks)
                  y.key y.value (t.entries b.asks) row (best_filed t b ask y low) in
              ground arith
        ]
      ]

  -- Taking size off an order crosses nothing.
  pub Leaves-Uncrossed :
      (b b' : OrderBook T) (id : FifoOrderId) (order : RestingOrder) (rest : ℕ)
      → Uncrossed b
      → Leaves t b b' id order rest
      → Uncrossed b'
  Leaves-Uncrossed b b' id order rest a l = go (side_of id) refl
    where
      go : (side : Side) → side_of id ≡ side → Uncrossed b'
      go bid e =
          let left =
            subst (λ s. orders t s b' ≡ left_with id order rest (orders t s b)) e l.side_left in
          let kept =
            subst (λ s. tree_of (other_side s) b' ≡ tree_of (other_side s) b) e l.other_kept in
          rw (left, kept)
            (left_with-All
              (λ x. All (λ y. x.key.price_in_ticks < y.key.price_in_ticks) (t.entries b.asks)) id
              order rest _ (λ x p. p) a)
      go ask e =
          let left =
            subst (λ s. orders t s b' ≡ left_with id order rest (orders t s b)) e l.side_left in
          let kept =
            subst (λ s. tree_of (other_side s) b' ≡ tree_of (other_side s) b) e l.other_kept in
          rw (left, kept)
            (All-imp
              (λ x p.
                left_with-All (λ y. x.key.price_in_ticks < y.key.price_in_ticks) id order rest _
                  (λ y q. q) p)
              _ a)

  insert-row :
      (n : BookEntry) (bids asks : List BookEntry)
      → All (λ x. x.key.price_in_ticks < n.key.price_in_ticks) bids
      → Apart bids asks
      → Apart bids (insert_entry compare_id n asks)
  insert-row n [] asks p a = tt
  insert-row n (x ∷ bids) asks p a = (
    insert_entry-All compare_id (λ y. x.key.price_in_ticks < y.key.price_in_ticks) n asks p.0 a.0,
    insert-row n bids asks p.1 a.1,
  )

  -- Nor does resting an order inside the other side.
  pub Rests-Uncrossed :
      (b b' : OrderBook T) (side : Side) (id : FifoOrderId) (order : RestingOrder)
      → Uncrossed b
      → Inside side id.price_in_ticks b
      → Rests t b b' side id order
      → Uncrossed b'
  Rests-Uncrossed b b' bid id order a p r =
      rw (r.side_grown, r.other_kept)
        (insert_entry-All compare_id
          (λ x. All (λ y. x.key.price_in_ticks < y.key.price_in_ticks) (t.entries b.asks)) _ _ p a)
  Rests-Uncrossed b b' ask id order a p r =
      rw (r.side_grown, r.other_kept) (insert-row _ (t.entries b.bids) (t.entries b.asks) p a)
