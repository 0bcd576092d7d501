-- ===== src/Tree/Arena/Check.antt =====
-- crates/clob-book/src/tree/invariants.rs: the structural self-check.
pub mod Heights
pub mod Passes
use Prim.Native.Nat.{Ordering}
use Prim.Native.Nat.Ordering.{lt, eq, gt}
use clob_dex.Prelude.{
  ℕ, zero, suc, ◌+◌, Bool, true, false, not, ◌&&◌, ◌||◌, ◌⊎◌, inl, inr, Option, none, some, ◌==◌,
  if◌then◌else◌,
}
use clob_dex.Tree.{Handle, nil}
use clob_dex.Tree.Arena.{RedBlackTree, red, black, color_of, parent_of, min_from, successor}

pub data Invariant : Type 0 where
  root_not_black : Invariant
  root_parent_not_nil : Invariant
  red_red_violation : Invariant
  black_height_mismatch : Invariant
  bst_order_violation : Invariant
  parent_pointer_mismatch : Invariant
  len_mismatch : Invariant
  free_list_corrupt : Invariant

-- Of the answers, `none` is `Ok(())` and `inr` the number of `Ok`.
abbrev pub after_visit : Option Invariant → Invariant ⊎ ℕ → Invariant ⊎ ℕ
after_visit (some e) rest = inl e
after_visit none rest = rest

abbrev pub join_heights :
    Option (Invariant ⊎ ℕ) → Option (Invariant ⊎ ℕ) → ℕ → Option (Invariant ⊎ ℕ)
join_heights none r own = none
join_heights (some (inl e)) r own = some (inl e)
join_heights (some (inr m)) none own = none
join_heights (some (inr m)) (some (inl e)) own = some (inl e)
join_heights (some (inr m)) (some (inr n)) own =
    if not (m == n) then some (inl black_height_mismatch) else some (inr (m + own))

module _ {K V : Type 0} where
  pub check_root : RedBlackTree K V → Option Invariant
  check_root t =
      if not (color_of t t.root == black)
      then some root_not_black
      else if not (parent_of t t.root == nil)
      then some root_parent_not_nil
      else none

  -- A child that is there and does not point back.
  abbrev pub strays : RedBlackTree K V → Handle → Handle → Bool
  strays t parent h = not (h == nil) && not ((t.nodes h).parent == parent)

  abbrev pub red_red : RedBlackTree K V → Handle → Bool
  red_red t h =
      (color_of t h == red)
      && ((color_of t (t.nodes h).left == red) || (color_of t (t.nodes h).right == red))

  -- The outer `none` says that the recursion is deeper than its fuel, which in the source it is not
  -- kept from being.
  pub check_black_height : ℕ → RedBlackTree K V → Handle → Option (Invariant ⊎ ℕ)
  check_black_height zero t h = none
  check_black_height (suc f) t h =
      let left_height = check_black_height f t (t.nodes h).left in
      let right_height = check_black_height f t (t.nodes h).right in
      if h == nil
      then some (inr 1)
      else if red_red t h
      then some (inl red_red_violation)
      else join_heights left_height right_height (if color_of t h == black then 1 else 0)

  -- The rounds are those that the source's bound on the count leaves.
  pub free_loop : ℕ → RedBlackTree K V → Handle → ℕ → Invariant ⊎ ℕ
  free_loop zero t cursor free = if cursor == nil then inr free else inl free_list_corrupt
  free_loop (suc f) t cursor free =
      let rest = free_loop f t (t.nodes cursor).left (free + 1) in
      if cursor == nil then inr free else rest

  pub check_free_list : RedBlackTree K V → Option Invariant
  unfolding free_loop
  check_free_list t = elim (free_loop t.capacity t t.free_head 0) [
    | inl e ↦ some e
    | inr free ↦ if not (free + t.len == t.bump) then some free_list_corrupt else none
  ]

module _ {K V : Type 0} (cmp : K → K → Ordering) where
  abbrev pub out_of_order : RedBlackTree K V → Handle → Handle → Bool
  out_of_order t previous cursor =
      not (previous == nil)
      && elim (cmp (t.nodes previous).key (t.nodes cursor).key) [ lt ↦ false | _ ↦ true ]

  abbrev pub visit : RedBlackTree K V → Handle → Handle → Option Invariant
  visit t previous cursor =
      if out_of_order t previous cursor
      then some bst_order_violation
      else if strays t cursor (t.nodes cursor).left || strays t cursor (t.nodes cursor).right
      then some parent_pointer_mismatch
      else none

  pub order_loop : ℕ → RedBlackTree K V → Handle → Handle → ℕ → Invariant ⊎ ℕ
  order_loop zero t previous cursor count =
      if cursor == nil
      then inr count
      else after_visit (visit t previous cursor) (inl parent_pointer_mismatch)
  order_loop (suc f) t previous cursor count =
      let rest = order_loop f t cursor (successor t cursor) (count + 1) in
      if cursor == nil then inr count else after_visit (visit t previous cursor) rest

  pub check_ordering_and_parents : RedBlackTree K V → Invariant ⊎ ℕ
  unfolding order_loop
  check_ordering_and_parents t = order_loop t.capacity t nil (min_from t t.root) 0

  abbrev pub after_count : RedBlackTree K V → Option (Invariant ⊎ ℕ) → Option (Option Invariant)
  after_count t none = none
  after_count t (some (inl e)) = some (some e)
  after_count t (some (inr height)) = some (check_free_list t)

  pub check : RedBlackTree K V → Option (Option Invariant)
  unfolding check_root check_ordering_and_parents check_black_height check_free_list
  check t = elim (check_root t) [
    | some e ↦ some (some e)
    | none ↦ elim (check_ordering_and_parents t) [
      | inl e ↦ some (some e)
      | inr reachable ↦
          let rest = after_count t (check_black_height (t.len + 1) t t.root) in
          if not (reachable == t.len) then some (some len_mismatch) else rest
    ]
  ]
