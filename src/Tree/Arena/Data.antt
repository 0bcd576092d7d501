-- ===== src/Tree/Arena/Data.antt =====
-- No rotation and no change of colour touches a key or a value.
use clob_dex.Prelude.{ℕ, ◌≡◌, ◌==◌, if◌then◌else◌, ◌≢◌, refl, ◌∙◌, arith, Bool, true, false}
use clob_dex.Tree.{Handle, nil}
use clob_dex.Tree.Arena.{
  Direction, leftward, rightward, opposite, Node, RedBlackTree, child, write, set_child, set_parent,
  set_color, adopt, relink, rotate,
}

module _ {K V : Type 0} where
  -- The same keys and values in every slot, the same counters and the same free list.
  pub record SameData (t u : RedBlackTree K V) : Type 0 where
    pub keys : (j : ℕ) → (u.nodes j).key ≡ (t.nodes j).key
    pub values : (j : ℕ) → (u.nodes j).value ≡ (t.nodes j).value
    pub free_head : u.free_head ≡ t.free_head
    pub bump : u.bump ≡ t.bump
    pub len : u.len ≡ t.len
    pub capacity : u.capacity ≡ t.capacity

  pub same_refl : (t : RedBlackTree K V) → SameData t t
  same_refl t = record {
    keys = λ j. refl;
    values = λ j. refl;
    free_head = refl;
    bump = refl;
    len = refl;
    capacity = refl;
  }

  pub same_trans : {t u v : RedBlackTree K V} → SameData t u → SameData u v → SameData t v
  same_trans a b = record {
    keys = λ j. b.keys j ∙ a.keys j;
    values = λ j. b.values j ∙ a.values j;
    free_head = b.free_head ∙ a.free_head;
    bump = b.bump ∙ a.bump;
    len = b.len ∙ a.len;
    capacity = b.capacity ∙ a.capacity;
  }

  pub write-SameData :
      (t : RedBlackTree K V) (h : Handle) (v : Node K V)
      → v.key ≡ (t.nodes h).key
      → v.value ≡ (t.nodes h).value
      → SameData t (write h v t)
  write-SameData t h v k w = record {
    keys = λ j. ground arith;
    values = λ j. ground arith;
    free_head = refl;
    bump = refl;
    len = refl;
    capacity = refl;
  }

  pub set_child-SameData :
      (d : Direction) (h c : Handle) (t : RedBlackTree K V) → SameData t (set_child d h c t)
  set_child-SameData leftward h c t = write-SameData t h (record (t.nodes h) { left = c }) refl refl
  set_child-SameData rightward h c t =
      write-SameData t h (record (t.nodes h) { right = c }) refl refl

  pub set_parent-SameData : (h p : Handle) (t : RedBlackTree K V) → SameData t (set_parent h p t)
  set_parent-SameData h p t = write-SameData t h (record (t.nodes h) { parent = p }) refl refl

  pub set_color-SameData : (h c : Handle) (t : RedBlackTree K V) → SameData t (set_color h c t)
  set_color-SameData h c t = either (h == nil)
    where
      either :
          (b : Bool) → SameData t (if b then t else write h (record (t.nodes h) { color = c }) t)
      either true = same_refl t
      either false = write-SameData t h (record (t.nodes h) { color = c }) refl refl

  pub adopt-SameData : (h p : Handle) (t : RedBlackTree K V) → SameData t (adopt h p t)
  adopt-SameData h p t = either (h == nil)
    where
      either : (b : Bool) → SameData t (if b then t else set_parent h p t)
      either true = same_refl t
      either false = set_parent-SameData h p t

  root-SameData : (t : RedBlackTree K V) (y : Handle) → SameData t (record t { root = y })
  root-SameData t y = record {
    keys = λ j. refl;
    values = λ j. refl;
    free_head = refl;
    bump = refl;
    len = refl;
    capacity = refl;
  }

  pub relink-SameData :
      (d : Direction) (p x y : Handle) (t : RedBlackTree K V) → SameData t (relink d p x y t)
  relink-SameData d p x y t = outer (p == nil) (child d (t.nodes p) == x)
    where
      outer :
          (a b : Bool)
          → SameData t (
              if a
              then record t { root = y }
              else (if b then set_child d p y t else set_child (opposite d) p y t))
      outer true b = root-SameData t y
      outer false true = set_child-SameData d p y t
      outer false false = set_child-SameData (opposite d) p y t

  pub rotate-SameData :
      (d : Direction) (x : Handle) (t : RedBlackTree K V) → SameData t (rotate d x t)
  unfolding rotate
  rotate-SameData d x t =
      let y = child (opposite d) (t.nodes x) in
      let inner = child d (t.nodes y) in
      let t0 = set_child (opposite d) x inner t in
      let t1 = adopt inner x t0 in
      let p = (t1.nodes x).parent in
      let t2 = set_parent y p t1 in
      let t3 = relink d p x y t2 in
      let t4 = set_child d y x t3 in
      same_trans (set_child-SameData (opposite d) x inner t) (
        same_trans (adopt-SameData inner x t0) (
          same_trans (set_parent-SameData y p t1) (
            same_trans (relink-SameData d p x y t2)
              (same_trans (set_child-SameData d y x t3) (set_parent-SameData x y t4)))))

  pub set_color-other :
      (h c j : ℕ) (t : RedBlackTree K V) → h ≢ j → (set_color h c t).nodes j ≡ t.nodes j
  set_color-other h c j t n = ground arith
