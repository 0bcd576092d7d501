-- ===== src/Book/Best.antt =====
-- crates/clob-book/src/book/mod.rs: the top of the book has price-time priority.
use clob_dex.Prelude.{
  ℕ, ◌≡◌, refl, sym, ap, ◌∙◌, none, some, List, [], ◌∷◌, ◌⊎◌, inl, inr, All, arith,
}
use clob_dex.Order.{Side, bid, ask, FifoOrderId, side_of, sequence_number, compare_id}
use clob_dex.Order.Priority.{Better, Precedes}
use clob_dex.Tree.{least}
use clob_dex.Tree.Entries.{value_of}
use clob_dex.Tree.Keys.{All-value_of}
use clob_dex.Tree.Extremes.{least-lt, greatest-gt, value_of-least, value_of-greatest, greatest-none}
use clob_dex.Book.{OrderBook, BookEntry, BookTree, best, get_order}
use clob_dex.Book.Filed.{Issued, IsFiled, IsFiled-side, compare_id-IsLawful}
use clob_dex.Book.Remove.{orders, get_order_lem}

-- Between two orders of one side the id order is the priority order.
Better-of_Precedes :
    (side : Side) (next : ℕ) (a b : FifoOrderId)
    → Issued side next a
    → Issued side next b
    → Precedes side a b
    → Better side a.price_in_ticks (sequence_number a) b.price_in_ticks (sequence_number b)
unfolding side_of sequence_number compare_id
Better-of_Precedes bid next a b i j p = ground arith
Better-of_Precedes ask next a b i j p = ground arith

-- The best entry, or it has priority over `f`.
abbrev pub Leads : Side → BookEntry → BookEntry → Type 0
Leads side e f =
    (f ≡ e)
    ⊎ Better side e.key.price_in_ticks (sequence_number e.key) f.key.price_in_ticks
        (sequence_number f.key)

All-zip {κ μ ν} :
    {P : BookEntry → Type κ} {Q : BookEntry → Type μ} {R : BookEntry → Type ν}
    (f : (e : BookEntry) → P e → Q e → R e) (es : List BookEntry)
    → All P es
    → All Q es
    → All R es
All-zip f [] a b = tt
All-zip f (e ∷ es) a b = (f e a.0 b.0, All-zip f es a.1 b.1)

module _ {T : Type 0} (t : BookTree T) where
  -- What the tree answers as the best entry is in the book under its key.
  pub best_filed :
      (b : OrderBook T) (side : Side) (e : BookEntry)
      → best t b side ≡ some e
      → value_of compare_id e.key (orders t side b) ≡ some e.value
  unfolding best
  best_filed b bid e p =
      value_of-greatest compare_id-IsLawful e (t.entries b.bids) (t.well_formed b.bids).sorted
        (sym (t.last_lem b.bids) ∙ p)
  best_filed b ask e p =
      value_of-least compare_id-IsLawful e (t.entries b.asks) (sym (t.first_lem b.asks) ∙ p)

  pub best-Issued :
      (b : OrderBook T) (side : Side) (e : BookEntry)
      → IsFiled t b
      → best t b side ≡ some e
      → Issued side b.next_sequence_number e.key
  best-Issued b side e f p =
      All-value_of compare_id-IsLawful (λ i o. Issued side b.next_sequence_number i) e.key e.value
        (orders t side b) (IsFiled-side t b side f) (best_filed b side e p)

  pub get_order-best :
      (b : OrderBook T) (side : Side) (e : BookEntry)
      → IsFiled t b
      → best t b side ≡ some e
      → (get_order t b e.key ≡ some e.value) × (side_of e.key ≡ side)
  get_order-best b side e f p =
      let tag = (best-Issued b side e f p).0 in
      (
        get_order_lem t b e.key
            ∙ ap (λ s. value_of compare_id e.key (orders t s b)) tag
            ∙ best_filed b side e p,
        tag,
      )

  best-leads :
      (b : OrderBook T) (side : Side) (e : BookEntry)
      → best t b side ≡ some e
      → All (λ f. (f ≡ e) ⊎ Precedes side e.key f.key) (orders t side b)
  unfolding best
  best-leads b bid e p =
      greatest-gt compare_id-IsLawful e (t.entries b.bids) (t.well_formed b.bids).sorted
        (sym (t.last_lem b.bids) ∙ p)
  best-leads b ask e p =
      least-lt compare_id-IsLawful e (t.entries b.asks) (t.well_formed b.asks).sorted
        (sym (t.first_lem b.asks) ∙ p)

  -- The best order of a side of a filed book rests under its id, and every other order of that
  -- side has a worse price, or the same price and a later sequence number.
  pub best-Leads :
      (b : OrderBook T) (side : Side) (e : BookEntry)
      → IsFiled t b
      → best t b side ≡ some e
      → (get_order t b e.key ≡ some e.value) × All (Leads side e) (orders t side b)
  best-Leads b side e f p = (
    (get_order-best b side e f p).0,
    All-zip (λ x i q. leads x i q) (orders t side b) (IsFiled-side t b side f)
        (best-leads b side e p),
  )
    where
      leads :
          (x : BookEntry)
          → Issued side b.next_sequence_number x.key
          → (x ≡ e) ⊎ Precedes side e.key x.key
          → Leads side e x
      leads x i (inl same) = inl same
      leads x i (inr q) = inr (
          Better-of_Precedes side b.next_sequence_number e.key x.key (best-Issued b side e f p) i q)

  -- A side has a best order exactly when it has an order.
  pub best-none : (b : OrderBook T) (side : Side) → best t b side ≡ none → orders t side b ≡ []
  unfolding best
  best-none b bid p =
      greatest-none compare_id-IsLawful (t.entries b.bids) (sym (t.last_lem b.bids) ∙ p)
  best-none b ask p = go (t.entries b.asks) (sym (t.first_lem b.asks) ∙ p)
    where
      go : (es : List BookEntry) → least es ≡ none → es ≡ []
      go [] q = refl
      go (x ∷ es) q = absurd (cc)
