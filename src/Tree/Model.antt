-- ===== src/Tree/Model.antt =====
-- crates/clob-book/tests/tree_model.rs: the sorted map that the tree is tested against, here a sorted
-- list of entries with the list of its free slots, as an instance of the tree's interface.
use Prim.Native.Nat.{Ordering}
use clob_dex.Prelude.{
  ℕ, zero, suc, ◌+◌, ◌≤◌, ◌<◌, ◌≡◌, ◌≢◌, ◌^◌, refl, sym, ap, Bool, true, false, Option, none, some,
  List, [], ◌∷◌, length, arith,
}
use clob_dex.Tree.{
  Entry, Handle, nil, value_at, set_at, drop_at, least, greatest, find_key, insert_entry,
  IsWellFormed, IsLawful, OrderedTree,
}
use clob_dex.Tree.Entries.{
  set_at-All, drop_at-All, value_at-nil, set_at-Distinct, drop_at-Distinct, set_at-IsSorted,
  drop_at-IsSorted, insert_entry-All, length-set_at, length-insert_entry,
}
use clob_dex.Tree.Keys.{find_key-none}
use clob_dex.Tree.Slots.{
  is_used, Unused, Unused-imp, Unused-new, Unused-used, used-Live, drop_at-gone, length-drop_at,
  insert_entry-Distinct, insert_entry-IsSorted, freed, clear_loop, cleared-Unused,
  length-clear_loop,
}

abbrev pub removed : {V : Type 0} → V → Option V → V
removed blank none = blank
removed blank (some v) = v

-- The entries in order, and the slots that no entry is in.
pub record Slots (K V : Type 0) (cmp : K → K → Ordering) : Type 0 where
  pub entries : List (Entry K V)
  pub free : List Handle
  pub well_formed : IsWellFormed cmp entries
  pub unused : Unused entries free

module _ {K V : Type 0} {cmp : K → K → Ordering} where
  abbrev pub slots_capacity : Slots K V cmp → ℕ
  slots_capacity s = length s.entries + length s.free

  abbrev pub slots_set : Slots K V cmp → Handle → V → Slots K V cmp
  slots_set s h v = record {
    entries = set_at h v s.entries;
    free = s.free;
    well_formed = record {
      sorted = set_at-IsSorted cmp h v s.entries s.well_formed.sorted;
      distinct = set_at-Distinct h v s.entries s.well_formed.distinct;
      live =
          set_at-All (λ e. (0 < e.handle) × (e.handle < 2 ^ 32)) h v s.entries (λ e p. p)
            s.well_formed.live;
    };
    unused =
        Unused-imp s.entries (set_at h v s.entries) s.free
          (λ j a. set_at-All (λ e. e.handle ≢ j) h v s.entries (λ e p. p) a) s.unused;
  }

  pub freed-Unused :
      (u : Bool) (h : Handle) (es : List (Entry K V)) (hs : List Handle)
      → is_used h es ≡ u
      → IsWellFormed cmp es
      → Unused es hs
      → Unused (drop_at h es) (freed u h hs)
  freed-Unused false h es hs e w a =
      Unused-imp es (drop_at h es) hs (λ j b. drop_at-All (λ f. f.handle ≢ j) h es b) a
  freed-Unused true h es hs e w a = (
    used-Live h es w.live e,
    drop_at-gone h es w.distinct,
    Unused-used h es hs e a,
    Unused-imp es (drop_at h es) hs (λ j b. drop_at-All (λ f. f.handle ≢ j) h es b) a,
  )

  abbrev pub slots_drop : Slots K V cmp → Handle → Slots K V cmp
  slots_drop s h = record {
    entries = drop_at h s.entries;
    free = freed (is_used h s.entries) h s.free;
    well_formed = record {
      sorted = drop_at-IsSorted cmp h s.entries s.well_formed.sorted;
      distinct = drop_at-Distinct h s.entries s.well_formed.distinct;
      live = drop_at-All (λ e. (0 < e.handle) × (e.handle < 2 ^ 32)) h s.entries s.well_formed.live;
    };
    unused = freed-Unused (is_used h s.entries) h s.entries s.free refl s.well_formed s.unused;
  }

  module _ (law : IsLawful cmp) where
    pub inserted-Unused :
        (n : Entry K V) (es : List (Entry K V)) (hs : List Handle)
        → Unused es (n.handle ∷ hs)
        → Unused (insert_entry cmp n es) hs
    inserted-Unused n es hs a =
        Unused-new n es (insert_entry cmp n es) hs a.2
          (λ j ne b. insert_entry-All cmp (λ f. f.handle ≢ j) n es (λ q. ne (sym q)) b) a.3

    pub inserted-IsWellFormed :
        (n : Entry K V) (es : List (Entry K V)) (hs : List Handle)
        → IsWellFormed cmp es
        → Unused es (n.handle ∷ hs)
        → find_key cmp n.key es ≡ nil
        → IsWellFormed cmp (insert_entry cmp n es)
    inserted-IsWellFormed n es hs w a absent = record {
      sorted = insert_entry-IsSorted law n es (find_key-none cmp n.key es w.live absent) w.sorted;
      distinct = insert_entry-Distinct cmp n es a.1 w.distinct;
      live = insert_entry-All cmp (λ e. (0 < e.handle) × (e.handle < 2 ^ 32)) n es a.0 w.live;
    }

    -- A new key takes the first free slot.
    abbrev pub slots_new :
        (k : K)
        → V
        → (es : List (Entry K V)) (hs : List Handle) → IsWellFormed cmp es
        → Unused es hs
        → find_key cmp k es ≡ nil
        → Option (Handle × Slots K V cmp)
    slots_new k v es [] w a absent = none
    slots_new k v es (h ∷ hs) w a absent =
        let n : Entry K V = record { handle = h; key = k; value = v } in
        some (
          h,
          record {
            entries = insert_entry cmp n es;
            free = hs;
            well_formed = inserted-IsWellFormed n es hs w a absent;
            unused = inserted-Unused n es hs a;
          },
        )

    abbrev pub slots_at :
        (s : Slots K V cmp) (k : K)
        → V
        → (h : Handle) → find_key cmp k s.entries ≡ h
        → Option (Handle × Slots K V cmp)
    slots_at s k v zero absent = slots_new k v s.entries s.free s.well_formed s.unused absent
    slots_at s k v (suc h) found = some (suc h, slots_set s (suc h) v)

    abbrev pub slots_insert : Slots K V cmp → K → V → Option (Handle × Slots K V cmp)
    slots_insert s k v = slots_at s k v (find_key cmp k s.entries) refl

    pub capacity-drop :
        (s : Slots K V cmp) (h : Handle) → slots_capacity (slots_drop s h) ≡ slots_capacity s
    capacity-drop s h = ground (arith, length-drop_at h s.entries)

    abbrev pub slots_clear : Slots K V cmp → Slots K V cmp
    slots_clear s = record {
      entries = [];
      free = clear_loop s.entries s.free;
      well_formed = record { sorted = tt; distinct = tt; live = tt };
      unused = cleared-Unused s.entries s.free s.well_formed.live s.well_formed.distinct s.unused;
    }

    pub slots_new-some :
        (s : Slots K V cmp) (k : K) (v : V) (absent : find_key cmp k s.entries ≡ nil)
        (hs : List Handle) (a : Unused s.entries hs)
        → 0 < length hs
        → (h : Handle) × (s' : Slots K V cmp) × (slots_new k v s.entries hs s.well_formed a absent
            ≡ some (h, s'))
          × (s'.entries ≡ insert_entry cmp (record { handle = h; key = k; value = v }) s.entries)
          × (slots_capacity s' ≡ length s.entries + length hs)
    slots_new-some s k v absent [] a room = absurd (omega arith)
    slots_new-some s k v absent (h ∷ hs) a room = (
      h,
      record {
        entries = insert_entry cmp (record { handle = h; key = k; value = v }) s.entries;
        free = hs;
        well_formed =
            inserted-IsWellFormed (record { handle = h; key = k; value = v }) s.entries hs
              s.well_formed a absent;
        unused = inserted-Unused (record { handle = h; key = k; value = v }) s.entries hs a;
      },
      refl,
      refl,
      omega (arith, length-insert_entry cmp (record { handle = h; key = k; value = v }) s.entries),
    )

    pub slots_new-none :
        (s : Slots K V cmp) (k : K) (v : V) (absent : find_key cmp k s.entries ≡ nil)
        (hs : List Handle) (a : Unused s.entries hs)
        → length hs ≡ 0
        → slots_new k v s.entries hs s.well_formed a absent ≡ none
    slots_new-none s k v absent [] a e = refl
    slots_new-none s k v absent (h ∷ hs) a e = absurd (omega arith)

    pub slots_insert_found :
        (s : Slots K V cmp) (k : K) (v : V) (h : Handle) (q : find_key cmp k s.entries ≡ h)
        → h ≢ nil
        → slots_at s k v h q ≡ some (h, slots_set s h v)
    slots_insert_found s k v zero q n = absurd (n refl)
    slots_insert_found s k v (suc h) q n = refl

    pub slots_insert_full :
        (s : Slots K V cmp) (k : K) (v : V) (h : Handle) (q : find_key cmp k s.entries ≡ h)
        → h ≡ nil
        → slots_capacity s ≤ length s.entries
        → slots_at s k v h q ≡ none
    slots_insert_full s k v zero q n full = slots_new-none s k v q s.free s.unused (omega arith)
    slots_insert_full s k v (suc h) q n full = absurd (omega arith)

    pub slots_insert_new :
        (s : Slots K V cmp) (k : K) (v : V) (h : Handle) (q : find_key cmp k s.entries ≡ h)
        → h ≡ nil
        → length s.entries < slots_capacity s
        → (h' : Handle) × (s' : Slots K V cmp) × (slots_at s k v h q ≡ some (h', s'))
          × (s'.entries ≡ insert_entry cmp (record { handle = h'; key = k; value = v }) s.entries)
          × (slots_capacity s' ≡ slots_capacity s)
    slots_insert_new s k v zero q n room = slots_new-some s k v q s.free s.unused (omega arith)
    slots_insert_new s k v (suc h) q n room = absurd (omega arith)

    pub capacity-clear : (s : Slots K V cmp) → slots_capacity (slots_clear s) ≡ slots_capacity s
    capacity-clear s = omega (arith, length-clear_loop s.entries s.free)

    -- The sorted list fills the tree's interface. A missing handle is answered with `blank`.
    abbrev pub model : V → OrderedTree (Slots K V cmp) K V cmp
    model blank = record {
      entries = λ s. s.entries;
      capacity = slots_capacity;
      len = λ s. length s.entries;
      find = λ s k. find_key cmp k s.entries;
      get_by_handle = λ s h. value_at h s.entries;
      set_by_handle = slots_set;
      insert = slots_insert;
      remove_handle = λ s h. (removed blank (value_at h s.entries), slots_drop s h);
      first = λ s. least s.entries;
      last = λ s. greatest s.entries;
      clear = slots_clear;
      lawful = law;
      well_formed = λ s. s.well_formed;
      len_lem = λ s. refl;
      find_lem = λ s k. refl;
      get_nil = λ s. value_at-nil s.entries s.well_formed.live;
      get_live = λ s h v p. p;
      entries-set = λ s h v w p. refl;
      capacity-set = λ s h w. ap (λ n. n + length s.free) (length-set_at h w s.entries);
      insert_found = λ s k v n. slots_insert_found s k v (find_key cmp k s.entries) refl n;
      insert_full = λ s k v q full. slots_insert_full s k v (find_key cmp k s.entries) refl q full;
      insert_new = λ s k v q room. slots_insert_new s k v (find_key cmp k s.entries) refl q room;
      remove_value = λ s h v p. ap (removed blank) p;
      entries-remove = λ s h v p. refl;
      capacity-remove = λ s h. capacity-drop s h;
      first_lem = λ s. refl;
      last_lem = λ s. refl;
      entries-clear = λ s. refl;
      capacity-clear = capacity-clear;
    }
