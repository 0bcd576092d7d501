-- ===== src/Tree/Arena/Iter.antt =====
-- crates/clob-book/src/tree/iter.rs: the walk over the entries by successors and by predecessors.
pub mod Climb
pub mod Next
pub mod Walk
use clob_dex.Prelude.{ℕ, zero, suc, ◌-◌, Option, none, some, List, [], ◌∷◌, true, false, ◌==◌}
use clob_dex.Tree.{Handle, nil, Entry}
use clob_dex.Tree.Arena.{
  Direction, leftward, rightward, RedBlackTree, successor, predecessor, min_from, max_from,
  entry_at,
}

pub record Iter : Type 0 where
  pub cursor : Handle
  pub remaining : ℕ

module _ {K V : Type 0} where
  -- `Iter` walks `rightward`, `IterRev` the other way.
  pub iter : RedBlackTree K V → Iter
  iter t = record { cursor = min_from t t.root; remaining = t.len }

  pub iter_rev : RedBlackTree K V → Iter
  iter_rev t = record { cursor = max_from t t.root; remaining = t.len }

  abbrev pub onward : Direction → RedBlackTree K V → Handle → Handle
  onward rightward t h = successor t h
  onward leftward t h = predecessor t h

  pub next : Direction → RedBlackTree K V → Iter → Option (Entry K V) × Iter
  next d t i = elim (i.cursor == nil) [
    | true ↦ (none, i)
    | false ↦
        (entry_at t i.cursor, record { cursor = onward d t i.cursor; remaining = i.remaining - 1 })
  ]

  -- The items of as many calls of `next`, up to the first that has none, and the iterator then.
  pub collect : ℕ → Direction → RedBlackTree K V → Iter → List (Entry K V) × Iter
  collect zero d t i = ([], i)
  collect (suc f) d t i =
      let rest = collect f d t (next d t i).1 in
      elim (next d t i).0 [ none ↦ ([], (next d t i).1) | some e ↦ (e ∷ rest.0, rest.1) ]
