-- ===== src/Book/Place.antt =====
-- crates/clob-book/src/book/mod.rs: resting a new order, and the book's invariant under each change.
use mathlib.Core.Path.{subst₂}
use clob_dex.Prelude.{
  ℕ, ◌+◌, ◌≤◌, ◌≡◌, ◌≢◌, refl, sym, ap, subst, ◌∙◌, true, false, none, some, List, ◌⊎◌, inl, inr,
  arith,
}
use clob_dex.Order.{
  Side, bid, ask, FifoOrderId, RestingOrder, new_id, side_of, compare_id, max_sequence_number,
}
use clob_dex.Order.Encoding.{new_id_roundtrip, new_id-le}
use clob_dex.Tree.{Handle, insert_entry}
use clob_dex.Tree.Entries.{value_of, insert_entry-All}
use clob_dex.Tree.Keys.{value_of-insert_entry_self, value_of-insert_entry_ne}
use clob_dex.Tree.Keyed.{insert_absent}
use clob_dex.Book.{
  OrderBook, BookEntry, BookTree, tree_of, with_tree, place, is_side_full, get_order,
}
use clob_dex.Book.Filed.{
  Issued, IssuedAll, Issued-mono, IsFiled, IsFiled-side, next_id-absent, compare_id-IsLawful,
}
use clob_dex.Book.Remove.{orders, other_side, Leaves, left_with, left_with-All, get_order_lem}

issued_grown :
    (side : Side) (price next : ℕ) (handle : Handle) (order : RestingOrder) (es : List BookEntry)
    → next ≤ max_sequence_number
    → IssuedAll side next es
    → IssuedAll side (next + 1) (
        insert_entry compare_id
          (record { handle = handle; key = new_id side price next; value = order })
          es)
issued_grown side price next handle order es h a =
    insert_entry-All compare_id (λ e. Issued side (next + 1) e.key) _ es
      (let (s, n) = new_id_roundtrip side price next h in
        (s, rw n (omega arith), new_id-le side price next h))
      (Issued-mono side next (next + 1) es (omega arith) a)

module _ {T : Type 0} (t : BookTree T) where
  -- `b'` is `b` with `order` resting under `id` on `side`, and the counter one further.
  pub record Rests (b b' : OrderBook T) (side : Side) (id : FifoOrderId) (order : RestingOrder)
      : Type 0 where
    pub handle : Handle
    pub sequence_next : b'.next_sequence_number ≡ b.next_sequence_number + 1
    pub other_kept : tree_of (other_side side) b' ≡ tree_of (other_side side) b
    pub side_grown :
        orders t side b'
        ≡ insert_entry compare_id
            (record { handle = handle; key = id; value = order })
            (orders t side b)

  -- A full side answers nothing and so burns no sequence number; any other rests the order under the
  -- next id.
  pub place_lem :
      (b : OrderBook T) (side : Side) (price : ℕ) (order : RestingOrder)
      → IsFiled t b
      → b.next_sequence_number ≤ max_sequence_number
      → let id = new_id side price b.next_sequence_number in
        ((is_side_full t b side ≡ true) × (place t b side price order ≡ none))
        ⊎ ((b' : OrderBook T) × (is_side_full t b side ≡ false)
            × (place t b side price order ≡ some (id, b'))
            × Rests b b' side id order)
  unfolding place is_side_full
  place_lem b side price order f h =
      let id = new_id side price b.next_sequence_number in
      let fresh =
        next_id-absent side price b.next_sequence_number (orders t side b) h
          (IsFiled-side t b side f) in
      elim (insert_absent t (tree_of side b) id order fresh) [
        | inl (full, e) ↦ inl (full, ground arith)
        | inr (handle, s, room, e, grown, cap) ↦ inr (
          with_tree side (record b { next_sequence_number = b.next_sequence_number + 1 }) s,
          room,
          ground arith,
          rests side s handle grown,
        )
      ]
    where
      rests :
          (side : Side) (s : T)
          → (handle : Handle)
          → t.entries s
            ≡ insert_entry compare_id
                (record {
                  handle = handle;
                  key = new_id side price b.next_sequence_number;
                  value = order;
                })
                (orders t side b)
          → Rests b
              (with_tree side (record b { next_sequence_number = b.next_sequence_number + 1 }) s)
              side
              (new_id side price b.next_sequence_number)
              order
      rests bid s handle grown = record {
        handle = handle;
        sequence_next = refl;
        other_kept = refl;
        side_grown = grown;
      }
      rests ask s handle grown = record {
        handle = handle;
        sequence_next = refl;
        other_kept = refl;
        side_grown = grown;
      }

  -- Resting a new order keeps the book filed.
  pub Rests-IsFiled :
      (b b' : OrderBook T) (side : Side) (price : ℕ) (order : RestingOrder)
      → IsFiled t b
      → b.next_sequence_number ≤ max_sequence_number
      → Rests b b' side (new_id side price b.next_sequence_number) order
      → IsFiled t b'
  Rests-IsFiled b b' bid price order f h r = record {
    bids_filed =
        rw (r.sequence_next, r.side_grown)
          (issued_grown bid price _ r.handle order _ h f.bids_filed);
    asks_filed =
        rw (r.sequence_next, r.other_kept) (Issued-mono ask _ _ _ (omega arith) f.asks_filed);
  }
  Rests-IsFiled b b' ask price order f h r = record {
    bids_filed =
        rw (r.sequence_next, r.other_kept) (Issued-mono bid _ _ _ (omega arith) f.bids_filed);
    asks_filed =
        rw (r.sequence_next, r.side_grown)
          (issued_grown ask price _ r.handle order _ h f.asks_filed);
  }

  -- So does taking size off an order.
  pub Leaves-IsFiled :
      (b b' : OrderBook T) (id : FifoOrderId) (order : RestingOrder) (rest : ℕ)
      → IsFiled t b
      → Leaves t b b' id order rest
      → IsFiled t b'
  Leaves-IsFiled b b' id order rest f l = go (side_of id) refl
    where
      go : (side : Side) → side_of id ≡ side → IsFiled t b'
      go bid e =
          let left =
            subst (λ s. orders t s b' ≡ left_with id order rest (orders t s b)) e l.side_left in
          let kept =
            subst (λ s. tree_of (other_side s) b' ≡ tree_of (other_side s) b) e l.other_kept in
          record {
            bids_filed =
                rw (l.sequence_kept, left)
                  (left_with-All (λ x. Issued bid b.next_sequence_number x.key) id order rest _
                    (λ x p. p) f.bids_filed);
            asks_filed = rw (l.sequence_kept, kept) f.asks_filed;
          }
      go ask e =
          let left =
            subst (λ s. orders t s b' ≡ left_with id order rest (orders t s b)) e l.side_left in
          let kept =
            subst (λ s. tree_of (other_side s) b' ≡ tree_of (other_side s) b) e l.other_kept in
          record {
            bids_filed = rw (l.sequence_kept, kept) f.bids_filed;
            asks_filed =
                rw (l.sequence_kept, left)
                  (left_with-All (λ x. Issued ask b.next_sequence_number x.key) id order rest _
                    (λ x p. p) f.asks_filed);
          }

  Rests-get_self :
      (b b' : OrderBook T) (side : Side) (id : FifoOrderId) (order : RestingOrder)
      → side_of id ≡ side
      → value_of compare_id id (orders t side b) ≡ none
      → Rests b b' side id order
      → get_order t b' id ≡ some order
  Rests-get_self b b' side id order e n r =
      get_order_lem t b' id
      ∙ ap (λ s. value_of compare_id id (orders t s b')) e
      ∙ ap (value_of compare_id id) r.side_grown
      ∙ value_of-insert_entry_self compare_id-IsLawful _ (orders t side b) n

  Rests-get_ne :
      (b b' : OrderBook T) (side s : Side) (id j : FifoOrderId) (order : RestingOrder)
      → side_of j ≡ s
      → id ≢ j
      → Rests b b' side id order
      → value_of compare_id j (orders t s b') ≡ value_of compare_id j (orders t s b)
  Rests-get_ne b b' bid bid id j order e n r =
      ap (value_of compare_id j) r.side_grown ∙ value_of-insert_entry_ne compare_id-IsLawful _ j _ n
  Rests-get_ne b b' bid ask id j order e n r =
      ap (λ x. value_of compare_id j (t.entries x)) r.other_kept
  Rests-get_ne b b' ask bid id j order e n r =
      ap (λ x. value_of compare_id j (t.entries x)) r.other_kept
  Rests-get_ne b b' ask ask id j order e n r =
      ap (value_of compare_id j) r.side_grown ∙ value_of-insert_entry_ne compare_id-IsLawful _ j _ n

  -- On a filed book whose counter is clear of the tag bit, a placed order was not there before, is
  -- read back under the answered id, every other id reads as before, and the book stays filed.
  pub get_order-place :
      (b b' : OrderBook T) (side : Side) (price : ℕ) (order : RestingOrder) (id : FifoOrderId)
      → IsFiled t b
      → b.next_sequence_number ≤ max_sequence_number
      → place t b side price order ≡ some (id, b')
      → (get_order t b id ≡ none)
        × (get_order t b' id ≡ some order)
        × ((j : FifoOrderId) → id ≢ j → get_order t b' j ≡ get_order t b j)
        × IsFiled t b'
  get_order-place b b' side price order id f h p = elim (place_lem b side price order f h) [
    | inl (_, none_left) ↦ absurd (cc)
    | inr (c, _, placed, r) ↦
        let new = new_id side price b.next_sequence_number in
        let same_id : new ≡ id = ground arith in
        let same_book : c ≡ b' = ground arith in
        let tag = (new_id_roundtrip side price b.next_sequence_number h).0 in
        let fresh =
          next_id-absent side price b.next_sequence_number (orders t side b) h
            (IsFiled-side t b side f) in
        subst₂
          (λ i x.
            (get_order t b i ≡ none)
            × (get_order t x i ≡ some order)
            × ((j : FifoOrderId) → i ≢ j → get_order t x j ≡ get_order t b j)
            × IsFiled t x)
          same_id same_book
          (
            get_order_lem t b new ∙ ap (λ s. value_of compare_id new (orders t s b)) tag ∙ fresh,
            Rests-get_self b c side new order tag fresh r,
            λ j n.
                get_order_lem t c j
                ∙ Rests-get_ne b c side (side_of j) new j order refl n r
                ∙ sym (get_order_lem t b j),
            Rests-IsFiled b c side price order f h r,
          )
  ]
