-- ===== src/Tree/Keyed.antt =====
-- crates/clob-book/src/tree/mod.rs and remove.rs: the operations by key that the tree builds from
-- the operations by handle.
use Prim.Native.Nat.{Ordering}
use clob_dex.Prelude.{
  ◌≡◌, sym, ap, ◌∙◌, Bool, not, Option, none, some, ◌==◌, leb, if◌then◌else◌, arith, true, false,
  ◌⊎◌, inl, inr, Option-cases, Bool-cases,
}
use clob_dex.Tree.{Handle, nil, OrderedTree, insert_entry}
use clob_dex.Tree.Entries.{value_of, set_of, drop_of}
use clob_dex.Tree.Keys.{
  find_key_absent, find_key-Live, value_at-find_key, set_at-find_key, drop_at-find_key,
}

module _ {T K V : Type 0} {cmp : K → K → Ordering} (t : OrderedTree T K V cmp) where
  unfoldable pub get : T → K → Option V
  get s k = t.get_by_handle s (t.find s k)

  -- `*tree.get_mut(key)? = v`: a write through the borrowed value, nothing if the key is absent.
  unfoldable pub set_key : T → K → V → Option T
  set_key s k v = let h = t.find s k in if h == nil then none else some (t.set_by_handle s h v)

  unfoldable pub contains_key : T → K → Bool
  contains_key s k = not (t.find s k == nil)

  unfoldable pub remove : T → K → Option V × T
  remove s k =
      let h = t.find s k in
      if h == nil then (none, s) else let (v, s') = t.remove_handle s h in (some v, s')

  unfoldable pub is_full : T → Bool
  is_full s = leb (t.capacity s) (t.len s)

  -- A lookup by key reads the entry list.
  pub get_lem : (s : T) (k : K) → get s k ≡ value_of cmp k (t.entries s)
  unfolding get
  get_lem s k = elim (Option-cases (value_of cmp k (t.entries s))) [
    | inl e ↦
        ap (t.get_by_handle s) (t.find_lem s k ∙ find_key_absent cmp k (t.entries s) e)
        ∙ t.get_nil s
        ∙ sym e
    | inr (v, e) ↦
        ap (t.get_by_handle s) (t.find_lem s k)
        ∙ t.get_live s _ v (value_at-find_key cmp k v (t.entries s) (t.well_formed s).distinct e)
        ∙ sym e
  ]

  pub set_key_absent :
      (s : T) (k : K) (v : V) → value_of cmp k (t.entries s) ≡ none → set_key s k v ≡ none
  unfolding set_key
  set_key_absent s k v e = ground (arith, t.find_lem s k, find_key_absent cmp k (t.entries s))

  pub set_key_lem :
      (s : T) (k : K) (v u : V)
      → value_of cmp k (t.entries s) ≡ some v
      → (s' : T) × (set_key s k u ≡ some s')
        × (t.entries s' ≡ set_of cmp k u (t.entries s))
        × (t.capacity s' ≡ t.capacity s)
  unfolding set_key
  set_key_lem s k v u e =
      let wf = t.well_formed s in
      let live = find_key-Live cmp k v (t.entries s) wf.live e in
      (
        t.set_by_handle s (t.find s k) u,
        ground (arith, t.find_lem s k),
        rw (t.find_lem s k) (
            t.entries-set s _ v u (value_at-find_key cmp k v (t.entries s) wf.distinct e)
            ∙ set_at-find_key cmp k v u (t.entries s) wf.distinct e),
        t.capacity-set s _ u,
      )

  pub remove_absent : (s : T) (k : K) → value_of cmp k (t.entries s) ≡ none → remove s k ≡ (none, s)
  unfolding remove
  remove_absent s k e = ground (arith, t.find_lem s k, find_key_absent cmp k (t.entries s))

  pub remove_lem :
      (s : T) (k : K) (v : V)
      → value_of cmp k (t.entries s) ≡ some v
      → ((remove s k).0 ≡ some v)
        × (t.entries (remove s k).1 ≡ drop_of cmp k (t.entries s))
        × (t.capacity (remove s k).1 ≡ t.capacity s)
  unfolding remove
  remove_lem s k v e =
      let wf = t.well_formed s in
      let live = find_key-Live cmp k v (t.entries s) wf.live e in
      let found = value_at-find_key cmp k v (t.entries s) wf.distinct e in
      let dropped = drop_at-find_key cmp k v (t.entries s) wf.distinct e in
      let h = t.find s k in
      (
        ground (arith, t.find_lem s k, t.remove_value s h v),
        ground (arith, t.find_lem s k, t.entries-remove s h v),
        ground (arith, t.find_lem s k, t.capacity-remove s h),
      )

  -- A new key is refused exactly by a full tree; otherwise it is filed in order under a fresh slot.
  pub insert_absent :
      (s : T) (k : K) (v : V)
      → value_of cmp k (t.entries s) ≡ none
      → (is_full s ≡ true) × (t.insert s k v ≡ none)
        ⊎ ((h : Handle) × (s' : T) × (is_full s ≡ false)
            × (t.insert s k v ≡ some (h, s'))
            × (t.entries s'
                ≡ insert_entry cmp (record { handle = h; key = k; value = v }) (t.entries s))
            × (t.capacity s' ≡ t.capacity s))
  unfolding is_full
  insert_absent s k v e = elim (Bool-cases (leb (t.capacity s) (t.len s))) [
    | inl full ↦ inl (
      full,
      t.insert_full s k v (find_key_absent cmp k (t.entries s) e) (ground (arith, t.len_lem s)),
    )
    | inr room ↦
        let new =
          t.insert_new s k v (find_key_absent cmp k (t.entries s) e)
            (ground (arith, t.len_lem s)) in
        inr (new.0, new.1, room, new.2, new.3, new.4)
  ]
