-- ===== src/Tree/Arena.antt =====
-- crates/clob-book/src/tree/{node,mod,rotate}.rs: the arena of nodes, its free list, look-up, and the
-- rotations. Where the source writes a routine out for both directions, one definition takes the
-- direction.
pub mod Insert
pub mod Remove
pub mod Shape
pub mod Rotate
pub mod Focus
pub mod Zoom
pub mod Balanced
pub mod Data
pub mod Turn
pub mod Sound
pub mod Slots
pub mod Lookup
pub mod Height
pub mod Reach
pub mod Iter
pub mod Check
pub mod Sealed
use Prim.Native.Nat.{Ordering}
use Prim.Native.Nat.Ordering.{lt, eq, gt}
use clob_dex.Prelude.{
  ℕ, zero, suc, ◌+◌, ◌-◌, Bool, true, false, Option, none, some, ◌==◌, ltb, if◌then◌else◌,
}
use clob_dex.Tree.{Handle, nil, Entry}

abbrev pub red : ℕ
red = 0

abbrev pub black : ℕ
black = 1

pub data Direction : Type 0 where
  leftward : Direction
  rightward : Direction

abbrev pub opposite : Direction → Direction
opposite leftward = rightward
opposite rightward = leftward

pub record Node (K V : Type 0) : Type 0 where
  pub left : Handle
  pub right : Handle
  pub parent : Handle
  pub color : ℕ
  pub key : K
  pub value : V

-- The node with the handle `h` is `nodes h`; the source has it at index `h - 1` of an array.
pub record RedBlackTree (K V : Type 0) : Type 0 where
  pub root : Handle
  pub free_head : Handle
  pub bump : ℕ
  pub len : ℕ
  pub capacity : ℕ
  pub nodes : Handle → Node K V

module _ {K V : Type 0} where
  abbrev pub child : Direction → Node K V → Handle
  child leftward n = n.left
  child rightward n = n.right

  abbrev pub write : Handle → Node K V → RedBlackTree K V → RedBlackTree K V
  write h v t = record t { nodes = λ j. if j == h then v else t.nodes j }

  abbrev pub set_child : Direction → Handle → Handle → RedBlackTree K V → RedBlackTree K V
  set_child leftward h c t = write h (record (t.nodes h) { left = c }) t
  set_child rightward h c t = write h (record (t.nodes h) { right = c }) t

  abbrev pub set_parent : Handle → Handle → RedBlackTree K V → RedBlackTree K V
  set_parent h p t = write h (record (t.nodes h) { parent = p }) t

  abbrev pub is_empty : RedBlackTree K V → Bool
  is_empty t = t.len == 0

  abbrev pub is_full : RedBlackTree K V → Bool
  is_full t = if ltb t.len t.capacity then false else true

  -- The arena's bytes are left as they were.
  pub clear : RedBlackTree K V → RedBlackTree K V
  clear t = record t { root = nil; free_head = nil; bump = 0; len = 0 }

  unfoldable pub get_by_handle : RedBlackTree K V → Handle → Option V
  get_by_handle t h = if h == nil then none else some (t.nodes h).value

  -- A write through `get_mut_by_handle`.
  unfoldable pub set_by_handle : RedBlackTree K V → Handle → V → RedBlackTree K V
  set_by_handle t h v = if h == nil then t else write h (record (t.nodes h) { value = v }) t

  -- `left_of` and `right_of`.
  abbrev pub child_of : Direction → RedBlackTree K V → Handle → Handle
  child_of d t h = if h == nil then nil else child d (t.nodes h)

  abbrev pub parent_of : RedBlackTree K V → Handle → Handle
  parent_of t h = if h == nil then nil else (t.nodes h).parent

  abbrev pub color_of : RedBlackTree K V → Handle → ℕ
  color_of t h = if h == nil then black else (t.nodes h).color

  abbrev pub set_color : Handle → ℕ → RedBlackTree K V → RedBlackTree K V
  set_color h c t = if h == nil then t else write h (record (t.nodes h) { color = c }) t

  unfoldable pub alloc : RedBlackTree K V → Option (Handle × RedBlackTree K V)
  alloc t =
      if t.free_head == nil
      then (if ltb t.bump t.capacity
          then some (t.bump + 1, record t { bump = t.bump + 1 })
          else none)
      else some (t.free_head, record t { free_head = (t.nodes t.free_head).left })

  pub free : RedBlackTree K V → Handle → RedBlackTree K V
  free t h =
      record (write h (record (t.nodes h) { left = t.free_head; right = nil; parent = nil }) t) {
        free_head = h;
      }

  -- `y` takes the place of `x` under `p`.
  abbrev pub relink : Direction → Handle → Handle → Handle → RedBlackTree K V → RedBlackTree K V
  relink d p x y t =
      if p == nil
      then record t { root = y }
      else (if child d (t.nodes p) == x then set_child d p y t else set_child (opposite d) p y t)

  abbrev pub adopt : Handle → Handle → RedBlackTree K V → RedBlackTree K V
  adopt h p t = if h == nil then t else set_parent h p t

  -- `rotate leftward` is `rotate_left`: the right child of `x` takes the place of `x`.
  pub rotate : Direction → Handle → RedBlackTree K V → RedBlackTree K V
  rotate d x t =
      let y = child (opposite d) (t.nodes x) in
      let inner = child d (t.nodes y) in
      let t1 = adopt inner x (set_child (opposite d) x inner t) in
      let p = (t1.nodes x).parent in
      let t2 = relink d p x y (set_parent y p t1) in set_parent x y (set_child d y x t2)

  -- The rounds are those of a descent: each visits another node, so `len` of them are enough.
  unfoldable pub min_loop : ℕ → RedBlackTree K V → Handle → Handle
  min_loop zero t h = h
  min_loop (suc f) t h = elim ((t.nodes h).left == nil) [
    | true ↦ h
    | false ↦ min_loop f t (t.nodes h).left
  ]

  unfoldable pub max_loop : ℕ → RedBlackTree K V → Handle → Handle
  max_loop zero t h = h
  max_loop (suc f) t h = elim ((t.nodes h).right == nil) [
    | true ↦ h
    | false ↦ max_loop f t (t.nodes h).right
  ]

  unfoldable pub min_from : RedBlackTree K V → Handle → Handle
  unfolding min_loop
  min_from t h = if h == nil then nil else min_loop t.len t h

  unfoldable pub max_from : RedBlackTree K V → Handle → Handle
  unfolding max_loop
  max_from t h = if h == nil then nil else max_loop t.len t h

  unfoldable pub entry_at : RedBlackTree K V → Handle → Option (Entry K V)
  entry_at t h =
      if h == nil
      then none
      else some (record { handle = h; key = (t.nodes h).key; value = (t.nodes h).value })

  unfoldable pub first : RedBlackTree K V → Option (Entry K V)
  unfolding min_from entry_at
  first t = entry_at t (min_from t t.root)

  unfoldable pub last : RedBlackTree K V → Option (Entry K V)
  unfolding max_from entry_at
  last t = entry_at t (max_from t t.root)

  -- `successor` climbs towards `rightward`'s turn and `predecessor` towards the other.
  pub climb : ℕ → Direction → RedBlackTree K V → Handle → Handle → Handle
  climb zero d t c p = p
  climb (suc f) d t c p = elim (p == nil) [
    | true ↦ p
    | false ↦ elim (c == child d (t.nodes p)) [
      | true ↦ climb f d t p (t.nodes p).parent
      | false ↦ p
    ]
  ]

  pub successor : RedBlackTree K V → Handle → Handle
  unfolding min_from climb
  successor t h =
      if h == nil
      then nil
      else (if (t.nodes h).right == nil
          then climb t.len rightward t h (t.nodes h).parent
          else min_from t (t.nodes h).right)

  pub predecessor : RedBlackTree K V → Handle → Handle
  unfolding max_from climb
  predecessor t h =
      if h == nil
      then nil
      else (if (t.nodes h).left == nil
          then climb t.len leftward t h (t.nodes h).parent
          else max_from t (t.nodes h).left)

module _ {K V : Type 0} (cmp : K → K → Ordering) where
  unfoldable pub find_loop : ℕ → RedBlackTree K V → K → Handle → Handle
  find_loop zero t k h = h
  find_loop (suc f) t k h = elim (h == nil) [
    | true ↦ nil
    | false ↦ elim (cmp k (t.nodes h).key) [
      | lt ↦ find_loop f t k (t.nodes h).left
      | gt ↦ find_loop f t k (t.nodes h).right
      | eq ↦ h
    ]
  ]

  unfoldable pub find : RedBlackTree K V → K → Handle
  unfolding find_loop
  find t k = find_loop t.len t k t.root
