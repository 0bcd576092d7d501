-- ===== src/Book/Filed.antt =====
-- The book's own invariant: every order is filed on the side its id claims, with a sequence number
-- that was issued, so that the next id is new.
use Prim.Native.Nat.Ordering.{eq}
use clob_dex.Prelude.{ℕ, ◌≤◌, ◌<◌, ◌≡◌, ◌≢◌, sym, ap, ◌∙◌, none, List, All, All-imp, arith}
use clob_dex.Quantities.{u64_max}
use clob_dex.Order.{
  Side, bid, ask, FifoOrderId, new_id, side_of, sequence_number, compare_id, max_sequence_number,
}
use clob_dex.Order.Encoding.{new_id_roundtrip}
use clob_dex.Order.Priority.{
  compare_id_refl, eq_of_compare_id, compare_id_trans, compare_id-gt, compare_id-lt,
}
use clob_dex.Tree.{IsLawful}
use clob_dex.Tree.Keys.{value_of_above}
use clob_dex.Tree.Entries.{value_of}
use clob_dex.Book.{OrderBook, BookEntry, BookTree, tree_of}

pub compare_id-IsLawful : IsLawful compare_id
compare_id-IsLawful = record {
  cmp-refl = compare_id_refl;
  eq_of_cmp = eq_of_compare_id;
  lt_of_gt = compare_id-gt;
  gt_of_lt = compare_id-lt;
  lt_trans = compare_id_trans;
}

-- An id that the counter, now at `next`, has issued on `side`.
abbrev pub Issued : Side → ℕ → FifoOrderId → Type 0
Issued side next id =
    (side_of id ≡ side) × (sequence_number id < next) × (id.order_sequence_number ≤ u64_max)

abbrev pub IssuedAll : Side → ℕ → List BookEntry → Type 0
IssuedAll side next es = All (λ e. Issued side next e.key) es

pub Issued-mono :
    (side : Side) (m n : ℕ) (es : List BookEntry)
    → m ≤ n
    → IssuedAll side m es
    → IssuedAll side n es
Issued-mono side m n es h = All-imp (λ e p. (p.0, omega arith, p.2)) es

module _ {T : Type 0} (t : BookTree T) where
  pub record IsFiled (b : OrderBook T) : Type 0 where
    pub bids_filed : IssuedAll bid b.next_sequence_number (t.entries b.bids)
    pub asks_filed : IssuedAll ask b.next_sequence_number (t.entries b.asks)

  pub IsFiled-side :
      (b : OrderBook T) (side : Side)
      → IsFiled b
      → IssuedAll side b.next_sequence_number (t.entries (tree_of side b))
  IsFiled-side b bid f = f.bids_filed
  IsFiled-side b ask f = f.asks_filed

new_id-ne :
    (side : Side) (price next : ℕ) (id : FifoOrderId)
    → next ≤ max_sequence_number
    → Issued side next id
    → compare_id (new_id side price next) id ≢ eq
new_id-ne side price next id h i q =
    let e = eq_of_compare_id (new_id side price next) id q in
    let s = (new_id_roundtrip side price next h).1 in
    omega (arith, i.1, sym s ∙ ap sequence_number e)

-- The next id is on neither side of a filed book.
pub next_id-absent :
    (side : Side) (price next : ℕ) (es : List BookEntry)
    → next ≤ max_sequence_number
    → IssuedAll side next es
    → value_of compare_id (new_id side price next) es ≡ none
next_id-absent side price next es h a =
    value_of_above compare_id-IsLawful (new_id side price next) es
      (All-imp (λ e i. new_id-ne side price next e.key h i) es a)
