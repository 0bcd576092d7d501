-- ===== src/Tree/Arena/Remove/Written.antt =====
-- crates/clob-book/src/tree/remove.rs: the writes of the splice go to nodes of the tree.
use clob_dex.Prelude.{◌≤◌, ◌≡◌, ◌⊎◌, inr, refl, arith, List}
use clob_dex.Tree.{Handle, nil}
use clob_dex.Tree.Arena.{
  Direction, leftward, rightward, RedBlackTree, parent_of, set_child, set_parent, relink,
}
use clob_dex.Tree.Arena.Remove.{transplant, replace}
use clob_dex.Tree.Arena.Remove.Graft.{transplant-other}
use clob_dex.Tree.Arena.Remove.Steps.{Relinks, Relinks-trans}
use clob_dex.Tree.Arena.Sound.{count}
use clob_dex.Tree.Arena.Data.{
  same_trans, write-SameData, set_child-SameData, set_parent-SameData, adopt-SameData,
  relink-SameData,
}

-- No node, or one of the tree.
abbrev pub Within : Handle → List Handle → Type 0
Within h hs = (h ≡ nil) ⊎ (1 ≤ count h hs)

module _ {K V : Type 0} where
  pub Relinks-transplant :
      (x v p : Handle) (t : RedBlackTree K V) (hs : List Handle)
      → parent_of t x ≡ p
      → Within p hs
      → Within v hs
      → Relinks t (transplant x v t) hs
  unfolding transplant
  Relinks-transplant x v p t hs e wp wv = record {
    same =
        same_trans (relink-SameData leftward (parent_of t x) x v t)
          (adopt-SameData v (parent_of t x) (relink leftward (parent_of t x) x v t));
    kept = λ j z n.
        transplant-other t x v p e j (λ q. ground (arith, wp, z, n, q))
          (λ q. ground (arith, wv, z, n, q));
  }

  pub Relinks-child :
      (d : Direction) (h c : Handle) (t : RedBlackTree K V) (hs : List Handle)
      → 1 ≤ count h hs
      → Relinks t (set_child d h c t) hs
  Relinks-child leftward h c t hs w = record {
    same = set_child-SameData leftward h c t;
    kept = λ j z n. ground arith;
  }
  Relinks-child rightward h c t hs w = record {
    same = set_child-SameData rightward h c t;
    kept = λ j z n. ground arith;
  }

  pub Relinks-parent :
      (h p : Handle) (t : RedBlackTree K V) (hs : List Handle)
      → 1 ≤ count h hs
      → Relinks t (set_parent h p t) hs
  Relinks-parent h p t hs w = record {
    same = set_parent-SameData h p t;
    kept = λ j z n. ground arith;
  }

  pub Relinks-replace :
      (z y zl p : Handle) (t : RedBlackTree K V) (hs : List Handle)
      → parent_of t z ≡ p
      → Within p hs
      → 1 ≤ count y hs
      → 1 ≤ count zl hs
      → Relinks t (replace z y zl t) hs
  Relinks-replace z y zl p t hs e wp wy wl =
      let t1 = transplant z y t in
      let t2 = set_child leftward y zl t1 in
      let t3 = set_parent zl y t2 in
      Relinks-trans (Relinks-transplant z y p t hs e wp (inr wy)) (
        Relinks-trans (Relinks-child leftward y zl t1 hs wy) (
          Relinks-trans (Relinks-parent zl y t2 hs wl) (record {
            same =
                write-SameData t3 y (record (t3.nodes y) { color = (t3.nodes z).color }) refl refl;
            kept = λ j c n. ground arith;
          })))
