-- ===== src/Tree/Arena/Sealed/Filled.antt =====
-- crates/clob-book/src/tree: sealed arenas fill the interface that the book and the engine are
-- written against.
use Prim.Native.Nat.{Ordering}
use clob_dex.Prelude.{◌≡◌, ◌≢◌, refl, ap, ◌∙◌, sym, Option, none, some}
use clob_dex.Tree.{Handle, nil, IsLawful, OrderedTree, find_key, insert_entry}
use clob_dex.Tree.Arena.{RedBlackTree, clear, set_by_handle, get_by_handle, find, first, last}
use clob_dex.Tree.Arena.Insert.{insert}
use clob_dex.Tree.Arena.Reach.{capacity-set, cleared-IsZeroed}
use clob_dex.Tree.Arena.Sealed.{Arena, walked}
use clob_dex.Tree.Arena.Sealed.Kept.{
  insert-IsSealed, set-IsSealed, clear-IsSealed, sealed_insert, sealed_insert-none,
  sealed_insert-some, sealed_remove, sealed_remove-capacity, sealed_remove-value,
}
use clob_dex.Tree.Arena.Sealed.Order.{walked-IsWellFormed}
use clob_dex.Tree.Arena.Sealed.Reads.{
  len-walked, find-walked, get-nil, get-walked, walked-set, first-walked, last-walked, walked-clear,
  remove-value, walked-remove, insert-found, insert-full, insert-room, insert-new,
}

module _ {K V : Type 0} {cmp : K → K → Ordering} (law : IsLawful cmp) where
  unfoldable pub sealed_set : Arena K V cmp → Handle → V → Arena K V cmp
  sealed_set x h v = (set_by_handle x.0 h v, set-IsSealed law x h v)

  pub sealed_clear : Arena K V cmp → Arena K V cmp
  sealed_clear x = (clear x.0, clear-IsSealed law x)

  pub sealed_set-arena :
      (x : Arena K V cmp) (h : Handle) (v : V) → (sealed_set x h v).0 ≡ set_by_handle x.0 h v
  unfolding sealed_set
  sealed_set-arena x h v = refl

  pub sealed_clear-arena : (x : Arena K V cmp) → (sealed_clear x).0 ≡ clear x.0
  unfolding sealed_clear
  sealed_clear-arena x = refl

  module _ (keys : IsSet K) (values : IsSet V) where
    pub sealed_found :
        (x : Arena K V cmp) (k : K) (v : V)
        → find_key cmp k (walked x.0) ≢ nil
        → sealed_insert law x k v
          ≡ some (find_key cmp k (walked x.0), sealed_set x (find_key cmp k (walked x.0)) v)
    sealed_found x k v n =
        let h = find_key cmp k (walked x.0) in
        sealed_insert-some law x k v h (sealed_set x h v) (
          insert-found law keys values x k v n
          ∙ ap (λ u. some (h, u)) (sym (sealed_set-arena x h v)))

    pub sealed_new_at :
        (x : Arena K V cmp) (k : K) (v : V) (o : Option (Handle × RedBlackTree K V))
        → find_key cmp k (walked x.0) ≡ nil
        → insert cmp x.0 k v ≡ o
        → o ≢ none
        → (h : Handle) × (y : Arena K V cmp) × (sealed_insert law x k v ≡ some (h, y))
          × (walked y.0 ≡ insert_entry cmp (record { handle = h; key = k; value = v }) (walked x.0))
          × (y.0.capacity ≡ x.0.capacity)
    sealed_new_at x k v none n e d = absurd (d refl)
    sealed_new_at x k v (some (h, u)) n e d =
        let y : Arena K V cmp = (u, insert-IsSealed law x k v h u e) in
        let shown = insert-new law keys values x k v h u n e in
        (h, y, sealed_insert-some law x k v h y e, shown.0, shown.1)

    -- The operations and laws of the interface, of the bytes.
    abbrev pub arena_tree : OrderedTree (Arena K V cmp) K V cmp
    arena_tree = record {
      entries = λ x. walked x.0;
      capacity = λ x. x.0.capacity;
      len = λ x. x.0.len;
      find = λ x k. find cmp x.0 k;
      get_by_handle = λ x h. get_by_handle x.0 h;
      set_by_handle = λ x h v. sealed_set x h v;
      insert = λ x k v. sealed_insert law x k v;
      remove_handle = λ x h. sealed_remove law x h;
      first = λ x. first x.0;
      last = λ x. last x.0;
      clear = λ x. sealed_clear x;
      lawful = law;
      well_formed = λ x. walked-IsWellFormed x;
      len_lem = λ x. len-walked law keys values x;
      find_lem = λ x k. find-walked law keys values x k;
      get_nil = λ x. get-nil law keys values x.0;
      get_live = λ x h v e. get-walked law keys values x h v e;
      entries-set =
          λ x h v w e. ap walked (sealed_set-arena x h w) ∙ walked-set law keys values x h w;
      capacity-set = λ x h w. ap (λ u. u.capacity) (sealed_set-arena x h w) ∙ capacity-set x.0 h w;
      insert_found = λ x k v n. sealed_found x k v n;
      insert_full =
          λ x k v n m. sealed_insert-none law x k v (insert-full law keys values x k v n m);
      insert_new = λ x k v n m.
          sealed_new_at x k v (insert cmp x.0 k v) n refl (insert-room law keys values x k v n m);
      remove_value = λ x h v e. sealed_remove-value law x h ∙ remove-value law keys values x h v e;
      entries-remove = λ x h v e. walked-remove law keys values x h v e;
      capacity-remove = λ x h. sealed_remove-capacity law x h;
      first_lem = λ x. first-walked law keys values x;
      last_lem = λ x. last-walked law keys values x;
      entries-clear = λ x. ap walked (sealed_clear-arena x) ∙ walked-clear law keys values x.0;
      capacity-clear = λ x. ap (λ u. u.capacity) (sealed_clear-arena x) ∙ (cleared-IsZeroed x.0).1;
    }
