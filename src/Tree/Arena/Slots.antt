-- ===== src/Tree/Arena/Slots.antt =====
-- crates/clob-book/src/tree/mod.rs: `alloc` hands out a slot that is neither live nor free.
use Prim.Native.Nat.{Ordering}
use clob_dex.Prelude.{
  ℕ, ◌+◌, ◌≤◌, ◌<◌, ◌≡◌, refl, sym, subst, List, [], ◌∷◌, ◌==◌, ltb, if◌then◌else◌, length, Option,
  none, some, true, false, Bool-cases, inl, inr, arith,
}
use clob_dex.Tree.{Handle, nil}
use clob_dex.Tree.Arena.{RedBlackTree, alloc}
use clob_dex.Tree.Arena.Shape.{Shape, size, occurs}
use clob_dex.Tree.Arena.Sound.{count, Chain, IsSound}

module _ {K V : Type 0} where
  pub Chain-frame :
      (t u : RedBlackTree K V) (h : Handle) (hs : List Handle)
      → ((j : ℕ) → 1 ≤ count j hs → u.nodes j ≡ t.nodes j)
      → Chain t h hs
      → Chain u h hs
  Chain-frame t u h [] f c = c
  Chain-frame t u h (x ∷ hs) f c =
      let e : u.nodes x ≡ t.nodes x = f x (ground arith) in
      (c.0, c.1, rw e (Chain-frame t u (t.nodes x).left hs (λ j o. f j (omega arith)) c.2))

  -- The slot `h` is given out, and `hs` are the free ones that are left.
  pub record Given (t u : RedBlackTree K V) (s : Shape) (h : Handle) (hs : List Handle)
      : Type 0 where
    pub nodes : u.nodes ≡ t.nodes
    pub root : u.root ≡ t.root
    pub len : u.len ≡ t.len
    pub capacity : u.capacity ≡ t.capacity
    pub chain : Chain u u.free_head hs
    pub once :
        (j : ℕ) → (if h == j then 1 else 0) + occurs j s + count j hs ≤ (if j == nil then 0 else 1)
    pub within : (j : ℕ) → 1 ≤ (if h == j then 1 else 0) + occurs j s + count j hs → j ≤ u.bump
    pub slots : u.bump ≡ size s + 1 + length hs
    pub room : u.bump ≤ t.capacity

  pub data Allocates (t : RedBlackTree K V) (s : Shape)
      : Option (Handle × RedBlackTree K V) → Type 0 where
    full : t.capacity ≤ size s → Allocates t s none
    given :
        (h : Handle) (u : RedBlackTree K V) (hs : List Handle)
        → size s < t.capacity
        → Given t u s h hs
        → Allocates t s (some (h, u))

  abbrev bumped : RedBlackTree K V → RedBlackTree K V
  bumped t = record t { bump = t.bump + 1 }

  abbrev popped : RedBlackTree K V → RedBlackTree K V
  popped t = record t { free_head = (t.nodes t.free_head).left }

  alloc-bumps :
      (t : RedBlackTree K V)
      → t.free_head ≡ nil
      → ltb t.bump t.capacity ≡ true
      → alloc t ≡ some (t.bump + 1, bumped t)
  unfolding alloc
  alloc-bumps t e b = rw (e, b)

  alloc-full :
      (t : RedBlackTree K V) → t.free_head ≡ nil → ltb t.bump t.capacity ≡ false → alloc t ≡ none
  unfolding alloc
  alloc-full t e b = rw (e, b)

  alloc-pops :
      (t : RedBlackTree K V) → (t.free_head == nil) ≡ false → alloc t ≡ some (t.free_head, popped t)
  unfolding alloc
  alloc-pops t e = rw e

  module _ {cmp : K → K → Ordering} where
    -- In a sound arena, the allocation of a slot fails only when the tree holds as many nodes as
    -- the capacity; else it gives a slot that is no node of the tree and not free any more, within
    -- the capacity, and changes no node.
    pub alloc_lem :
        (t : RedBlackTree K V) (s : Shape) (hs : List Handle)
        → IsSound cmp t s hs
        → Allocates t s (alloc t)
    alloc_lem t s [] w = elim (Bool-cases (ltb t.bump t.capacity)) [
      | inl room ↦ subst (Allocates t s) (sym (alloc-bumps t w.chain room)) (
          given (t.bump + 1) (bumped t) [] (ground (arith, w.slots)) (record {
            nodes = refl;
            root = refl;
            len = refl;
            capacity = refl;
            chain = w.chain;
            once = λ j. ground (arith, w.once j, w.within j);
            within = λ j o. ground (arith, w.within j);
            slots = omega (arith, w.slots);
            room = ground arith;
          }))
      | inr not_free ↦
          subst (Allocates t s) (sym (alloc-full t w.chain not_free))
            (full (ground (arith, w.slots)))
    ]
    alloc_lem t s (x ∷ hs) w =
        let test : (t.free_head == nil) ≡ false = ground (arith, w.chain) in
        subst (Allocates t s) (sym (alloc-pops t test)) (
          given t.free_head (popped t) hs (omega (arith, w.slots, w.room)) (record {
            nodes = refl;
            root = refl;
            len = refl;
            capacity = refl;
            chain =
                Chain-frame t (popped t) (t.nodes t.free_head).left hs (λ j o. refl)
                  (subst (λ z. Chain t (t.nodes z).left hs) (sym w.chain.0) w.chain.2);
            once = λ j. ground (arith, w.once j, w.chain.0);
            within = λ j o. ground (arith, w.within j, w.chain.0);
            slots = omega (arith, w.slots);
            room = w.room;
          }))
