-- ===== src/Tests/Arenas.antt =====
-- The red-black arena: the theorems at a tree of three nodes.
use Prim.Native.Nat.{compare}
use clob_dex.Prelude.{ℕ, suc, ◌≡◌, Option, none, some, refl, true, false, [], ◌∷◌, ◌==◌, arith}
use clob_dex.Tree.{Handle, nil, IsLawful, find_key}
use clob_dex.Tree.Arena.{RedBlackTree, Node, leftward, rightward, red, black, find, alloc}
use clob_dex.Tree.Arena.Insert.{insert, insert_fixup, descend, insert_new, attached}
use clob_dex.Tree.Arena.Insert.Correct.{Inserts, insert-Inserts}
use clob_dex.Tree.Arena.Insert.Loop.{repair}
use clob_dex.Tree.Arena.Insert.Fixup.{Rebalanced}
use clob_dex.Tree.Arena.Remove.{delete_fixup, remove_handle}
use clob_dex.Tree.Arena.Remove.Correct.{Removes, remove_handle-Removes}
use clob_dex.Tree.Arena.Remove.Loop.{mend}
use mathlib.Core.List.{reverse}
use clob_dex.Tree.Arena.Iter.{iter, iter_rev, collect}
use clob_dex.Tree.Arena.Check.{check}
use clob_dex.Tree.Arena.Check.Passes.{check_passes}
use clob_dex.Tree.Arena.Iter.Walk.{iter_lem}
use clob_dex.Tree.Arena.Shape.{Shape, leaf, fork, Context, top, down, plug}
use clob_dex.Tree.Arena.Focus.{Focus}
use clob_dex.Tree.Arena.Sound.{IsSound, contents}
use clob_dex.Tree.Arena.Lookup.{find_lem}
use clob_dex.Tree.Arena.Reach.{Reaches, started, inserted, Held, reached-IsSound}
use clob_dex.Tree.Arena.Slots.{Allocates, alloc_lem}

compare-IsLawful : IsLawful compare
compare-IsLawful = record {
  lt_trans = λ x y z a b. ground arith;
  gt_of_lt = λ x y a. ground arith;
  lt_of_gt = λ x y a. ground arith;
  cmp-refl = λ x. ground arith;
  eq_of_cmp = λ x y a. ground arith;
}

-- The root 20, its red children 10 and 30, and a slot that was freed.
abbrev three_nodes : Handle → Node ℕ ℕ
three_nodes h = elim (h == 1) [
  | true ↦ record { left = 0; right = 0; parent = 2; color = 0; key = 10; value = 110 }
  | false ↦ elim (h == 2) [
    | true ↦ record { left = 1; right = 3; parent = 0; color = 1; key = 20; value = 120 }
    | false ↦ elim (h == 3) [
      | true ↦ record { left = 0; right = 0; parent = 2; color = 0; key = 30; value = 130 }
      | false ↦ record { left = 0; right = 0; parent = 0; color = 0; key = 40; value = 140 }
    ]
  ]
]

abbrev three : RedBlackTree ℕ ℕ
three = record { root = 2; free_head = 4; bump = 4; len = 3; capacity = 64; nodes = three_nodes }

abbrev three_shape : Shape
three_shape = fork black (fork red leaf 1 leaf) 2 (fork red leaf 3 leaf)

three-IsSound : IsSound compare three three_shape (4 ∷ [])
three-IsSound = record {
  links = (
    refl,
    omega arith,
    refl,
    refl,
    (refl, omega arith, refl, refl, refl, refl),
    (refl, omega arith, refl, refl, refl, refl),
  );
  chain = (refl, omega arith, refl);
  once = λ j. ground arith;
  within = λ j o. ground arith;
  len_lem = refl;
  slots = refl;
  room = omega arith;
  balanced = (
    omega arith,
    λ e. absurd (omega arith),
    refl,
    (omega arith, λ e. (refl, refl), refl, tt, tt),
    (omega arith, λ e. (refl, refl), refl, tt, tt),
  );
  root_black = refl;
  sorted = ((refl, (refl, tt)), ((refl, tt), (tt, tt)));
}

insert-Inserts_example :
    Inserts compare compare-IsLawful three
      (contents three three_shape)
      (4 ∷ [])
      25
      125
      (insert compare three 25 125)
insert-Inserts_example =
    insert-Inserts compare compare-IsLawful three three_shape (4 ∷ []) 25 125 three-IsSound

remove_handle-Removes_example :
    Removes compare three (contents three three_shape) (4 ∷ []) 2 (remove_handle three 2)
remove_handle-Removes_example =
    remove_handle-Removes three three_shape (4 ∷ []) 2 120 three-IsSound refl

find_lem_example : find compare three 30 ≡ find_key compare 30 (contents three three_shape)
find_lem_example = find_lem compare compare-IsLawful three three_shape (4 ∷ []) 30 three-IsSound

check_passes_example : check compare three ≡ some none
check_passes_example = check_passes three three_shape (4 ∷ []) three-IsSound

iter_lem_example :
    (collect (suc three.len) rightward three (iter three)
      ≡ (contents three three_shape, record { cursor = nil; remaining = 0 }))
    × (collect (suc three.len) leftward three (iter_rev three)
        ≡ (reverse (contents three three_shape), record { cursor = nil; remaining = 0 }))
iter_lem_example = iter_lem three three_shape (4 ∷ []) three-IsSound

alloc_lem_example : Allocates three three_shape (alloc three)
alloc_lem_example = alloc_lem three three_shape (4 ∷ []) three-IsSound

-- A red node under a red one, as an insertion leaves it.
abbrev uneven : RedBlackTree ℕ ℕ
uneven = record three {
  nodes = λ h. elim (h == 4) [
    | true ↦ record { left = 0; right = 0; parent = 3; color = 0; key = 40; value = 140 }
    | false ↦ elim (h == 3) [
      | true ↦ record { left = 0; right = 4; parent = 2; color = 0; key = 30; value = 130 }
      | false ↦ three_nodes h
    ]
  ];
}

abbrev above_new : Context
above_new = down rightward 3 red leaf (down rightward 2 black (fork red leaf 1 leaf) top)

uneven-Focus : Focus uneven 3 4 above_new (fork red leaf 4 leaf)
uneven-Focus = record {
  around = (
    refl,
    omega arith,
    refl,
    refl,
    refl,
    (refl, omega arith, refl, refl, (refl, omega arith, refl, refl, refl, refl), (refl, refl)),
  );
  links = (refl, omega arith, refl, refl, refl, refl);
  proper = λ j. ground arith;
}

repair_example : Rebalanced uneven (plug above_new (fork red leaf 4 leaf)) (insert_fixup 4 uneven 4)
repair_example =
    repair 4 uneven 3 4 above_new leaf leaf (omega arith) uneven-Focus
      (omega arith, λ e. (refl, refl), refl, tt, tt)
      (
        omega arith,
        λ e. (refl, refl),
        refl,
        tt,
        (
          omega arith,
          λ e. absurd (omega arith),
          refl,
          (omega arith, λ e. (refl, refl), refl, tt, tt),
          tt,
        ),
      )

-- The left child is gone, and with it a black.
abbrev short_left : RedBlackTree ℕ ℕ
short_left = record three {
  nodes = λ h. elim (h == 3) [
    | true ↦ record { left = 0; right = 0; parent = 2; color = 1; key = 30; value = 130 }
    | false ↦ elim (h == 2) [
      | true ↦ record { left = 0; right = 3; parent = 0; color = 1; key = 20; value = 120 }
      | false ↦ three_nodes h
    ]
  ];
}

abbrev gap_left : Context
gap_left = down leftward 2 black (fork black leaf 3 leaf) top

short_left-Focus : Focus short_left 2 nil gap_left leaf
short_left-Focus = record {
  around =
      (refl, omega arith, refl, refl, (refl, omega arith, refl, refl, refl, refl), (refl, refl));
  links = refl;
  proper = λ j. ground arith;
}

mend_example : Rebalanced short_left (plug gap_left leaf) (delete_fixup 3 short_left nil 2)
mend_example =
    mend 3 short_left 2 nil gap_left leaf (omega arith) short_left-Focus tt (omega arith) (
      omega arith,
      λ e. absurd (omega arith),
      refl,
      (omega arith, λ e. absurd (omega arith), refl, tt, tt),
      tt,
    )

-- A zeroed account, and the tree after one insertion.
abbrev zeroed : RedBlackTree ℕ ℕ
zeroed = record {
  root = 0;
  free_head = 0;
  bump = 0;
  len = 0;
  capacity = 64;
  nodes = λ _. record { left = 0; right = 0; parent = 0; color = 0; key = 0; value = 0 };
}

arena_or : RedBlackTree ℕ ℕ → Option (Handle × RedBlackTree ℕ ℕ) → RedBlackTree ℕ ℕ
arena_or t none = t
arena_or t (some (h, u)) = u

unfoldable one : RedBlackTree ℕ ℕ
unfolding arena_or insert descend insert_new attached insert_fixup alloc
one = arena_or zeroed (insert compare zeroed 7 107)

one_inserted : insert compare zeroed 7 107 ≡ some (1, one)
unfolding one arena_or insert descend insert_new attached insert_fixup alloc
one_inserted = refl

one-Reaches : Reaches compare compare-IsLawful 64 one
one-Reaches =
    inserted zeroed one 7 107 1 (started zeroed (refl, refl, refl, refl) refl) one_inserted

reached-IsSound_example : Held compare compare-IsLawful 64 one
reached-IsSound_example = reached-IsSound compare compare-IsLawful 64 one one-Reaches
