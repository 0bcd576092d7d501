-- ===== src/Book/Remove.antt =====
-- crates/clob-book/src/book/mod.rs: cancelling, resizing and reducing an order, on the entries.
use clob_dex.Prelude.{
  ℕ, zero, suc, ==_iff, ◌+◌, ◌-◌, ◌≡◌, ◌≢◌, refl, sym, subst, ◌∙◌, some, List, inl, inr, Bool-cases,
  All, sum_by, arith,
}
use clob_dex.Quantities.{is_zero, min}
use clob_dex.Order.{Side, bid, ask, FifoOrderId, RestingOrder, side_of, compare_id}
use clob_dex.Tree.Entries.{value_of, set_of, drop_of}
use clob_dex.Tree.Keys.{set_of-All, drop_of-All, sum_by-set_of, sum_by-drop_of}
use clob_dex.Tree.Keyed.{get_lem, set_key_lem, remove_lem}
use clob_dex.Book.{
  OrderBook, BookEntry, BookTree, Reduction, tree_of, cancel, get_order, resize, reduce,
}
use clob_dex.Book.Filed.{compare_id-IsLawful}

-- The entries of a side once the order under `id` is left with `rest` lots: gone at zero.
abbrev pub left_with : FifoOrderId → RestingOrder → ℕ → List BookEntry → List BookEntry
left_with id order zero es = drop_of compare_id id es
left_with id order (suc rest) es =
    set_of compare_id id (record order { num_base_lots = suc rest }) es

abbrev pub other_side : Side → Side
other_side bid = ask
other_side ask = bid

module _ {T : Type 0} (t : BookTree T) where
  -- The orders of a side.
  abbrev pub orders : Side → OrderBook T → List BookEntry
  orders side b = t.entries (tree_of side b)

  -- `b'` is `b` with the order under `id` left with `rest` lots, and nothing else changed.
  pub record Leaves (b b' : OrderBook T) (id : FifoOrderId) (order : RestingOrder) (rest : ℕ)
      : Type 0 where
    pub sequence_kept : b'.next_sequence_number ≡ b.next_sequence_number
    pub other_kept : tree_of (other_side (side_of id)) b' ≡ tree_of (other_side (side_of id)) b
    pub side_left : orders (side_of id) b' ≡ left_with id order rest (orders (side_of id) b)

  pub get_order_lem :
      (b : OrderBook T) (id : FifoOrderId)
      → get_order t b id ≡ value_of compare_id id (orders (side_of id) b)
  unfolding get_order
  get_order_lem b id = get_lem t (tree_of (side_of id) b) id

  -- Cancelling a resting order answers it, takes it off its side, and leaves the other side and
  -- the counter alone.
  pub cancel_lem :
      (b : OrderBook T) (id : FifoOrderId) (order : RestingOrder)
      → get_order t b id ≡ some order
      → ((cancel t b id).0 ≡ some order) × Leaves b (cancel t b id).1 id order 0
  unfolding cancel
  cancel_lem b id order h = go (side_of id) refl
    where
      go :
          (side : Side)
          → side_of id ≡ side
          → ((cancel t b id).0 ≡ some order) × Leaves b (cancel t b id).1 id order 0
      go bid e =
          let found = sym (get_order_lem b id) ∙ h in
          let r = remove_lem t b.bids id order (ground arith) in
          (
            ground arith,
            record {
              sequence_kept = ground arith;
              other_kept = ground arith;
              side_left = ground arith;
            },
          )
      go ask e =
          let found = sym (get_order_lem b id) ∙ h in
          let r = remove_lem t b.asks id order (ground arith) in
          (
            ground arith,
            record {
              sequence_kept = ground arith;
              other_kept = ground arith;
              side_left = ground arith;
            },
          )

  -- A write to an order's size changes that order alone.
  pub resize_lem :
      (b : OrderBook T) (id : FifoOrderId) (order : RestingOrder) (rest : ℕ)
      → rest ≢ 0
      → get_order t b id ≡ some order
      → (b' : OrderBook T) × (resize t b id rest ≡ some b') × Leaves b b' id order rest
  unfolding resize
  resize_lem b id order rest n h = go (side_of id) refl
    where
      go :
          (side : Side)
          → side_of id ≡ side
          → (b' : OrderBook T) × (resize t b id rest ≡ some b') × Leaves b b' id order rest
      go bid e =
          let found = sym (get_order_lem b id) ∙ h in
          let r =
            set_key_lem t b.bids id order (record order { num_base_lots = rest }) (ground arith) in
          (
            record b { bids = r.0 },
            ground arith,
            record { sequence_kept = refl; other_kept = ground arith; side_left = ground arith },
          )
      go ask e =
          let found = sym (get_order_lem b id) ∙ h in
          let r =
            set_key_lem t b.asks id order (record order { num_base_lots = rest }) (ground arith) in
          (
            record b { asks = r.0 },
            ground arith,
            record { sequence_kept = refl; other_kept = ground arith; side_left = ground arith },
          )

  -- Reducing a resting order removes the smaller of the two sizes, reports both parts and whether
  -- the order is gone, leaves the rest at its place in the queue, and changes nothing else.
  pub reduce_lem :
      (b : OrderBook T) (id : FifoOrderId) (order : RestingOrder) (lots : ℕ)
      → get_order t b id ≡ some order
      → (r : Reduction) × (b' : OrderBook T) × (reduce t b id lots ≡ some (r, b'))
        × Leaves b b' id order r.base_lots_remaining
        × (r.base_lots_removed + r.base_lots_remaining ≡ order.num_base_lots)
        × (r.base_lots_removed ≡ min order.num_base_lots lots)
        × (r.removed ≡ is_zero r.base_lots_remaining)
  unfolding reduce min
  reduce_lem b id order lots h =
      let rest = order.num_base_lots - min order.num_base_lots lots in
      elim (Bool-cases (is_zero rest)) [
        | inl gone ↦ (
          record {
            base_lots_removed = min order.num_base_lots lots;
            base_lots_remaining = rest;
            removed = is_zero rest;
          },
          (cancel t b id).1,
          ground arith,
          subst (λ r. Leaves b (cancel t b id).1 id order r) (sym ((==_iff rest 0).0 gone))
              (cancel_lem b id order h).1,
          ground arith,
          refl,
          refl,
        )
        | inr some_left ↦
            let z = resize_lem b id order rest (ground arith) h in
            (
              record {
                base_lots_removed = min order.num_base_lots lots;
                base_lots_remaining = rest;
                removed = is_zero rest;
              },
              z.0,
              ground (arith, z.1),
              z.2,
              ground arith,
              refl,
              refl,
            )
      ]

-- Sums over a side when one order is left with less.
pub sum_by-left_with :
    (w : FifoOrderId → RestingOrder → ℕ) (id : FifoOrderId) (order : RestingOrder) (rest : ℕ)
    (es : List BookEntry)
    → w id (record order { num_base_lots = 0 }) ≡ 0
    → value_of compare_id id es ≡ some order
    → sum_by (λ e. w e.key e.value) (left_with id order rest es) + w id order
      ≡ sum_by (λ e. w e.key e.value) es + w id (record order { num_base_lots = rest })
sum_by-left_with w id order zero es z h =
    omega (arith, z, sum_by-drop_of compare_id-IsLawful w id order es h)
sum_by-left_with w id order (suc rest) es z h =
    sum_by-set_of compare_id-IsLawful w id order (record order { num_base_lots = suc rest }) es h

-- What holds of every order, and of this one at its new size, still holds of all.
pub left_with-All :
    (P : BookEntry → Type 0) (id : FifoOrderId) (order : RestingOrder) (rest : ℕ)
    (es : List BookEntry)
    → ((e : BookEntry) → P e → P (record e { value = record order { num_base_lots = rest } }))
    → All P es
    → All P (left_with id order rest es)
left_with-All P id order zero es f a = drop_of-All compare_id P id es a
left_with-All P id order (suc rest) es f a =
    set_of-All compare_id P id (record order { num_base_lots = suc rest }) es f a
