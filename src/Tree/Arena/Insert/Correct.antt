-- ===== src/Tree/Arena/Insert/Correct.antt =====
-- crates/clob-book/src/tree/insert.rs: `insert` against the sorted list of entries.
use Prim.Native.Nat.{Ordering}
use Prim.Native.Nat.Ordering.{lt, eq, gt}
use clob_dex.Prelude.{
  ℕ, ◌≤◌, ◌<◌, ◌≡◌, ◌≢◌, refl, sym, ap, subst, ◌∙◌, ◌==◌, List, [], ◌∷◌, ◌++◌, length, Option, none,
  some, All, All-append, arith, false,
}
use mathlib.Core.List.{append_assoc}
use clob_dex.Tree.{Handle, nil, Entry, IsSorted, IsLawful, insert_entry, find_key, set_at}
use clob_dex.Tree.Entries.{set_at-IsSorted}
use clob_dex.Tree.Arena.{RedBlackTree, write, alloc, set_by_handle}
use clob_dex.Tree.Arena.Insert.{insert, insert_new, descend, at_place}
use clob_dex.Tree.Arena.Insert.Descend.{Turns, Arrives, missing, found, descend_lem}
use clob_dex.Tree.Arena.Insert.Added.{
  Sound-Focus, absent, answer, new_contents, new-IsSound, rebalanced, counts,
}
use clob_dex.Tree.Arena.Shape.{Shape, leaf, fork, Context, top, plug, inorder, size, Links}
use clob_dex.Tree.Arena.Focus.{Focus}
use clob_dex.Tree.Arena.Slots.{Allocates, full, given, alloc_lem}
use clob_dex.Tree.Arena.Sound.{
  IsSound, contents, listed, listed-append, entry_of, before, after, inorder-plug-around,
  find_key-at, count, occurs-inorder, size-inorder, Chain,
}

regroup :
    (ks ls rs zs : List Handle) (h : Handle)
    → ks ++ ((ls ++ h ∷ rs) ++ zs) ≡ (ks ++ ls) ++ h ∷ (rs ++ zs)
regroup ks ls rs zs h = simp append_assoc

module _ {K V : Type 0} where
  -- The entries around a node of the tree.
  pub around_node :
      (t : RedBlackTree K V) (s : Shape) (h : Handle) (k : Context) (c : ℕ) (l r : Shape)
      → plug k (fork c l h r) ≡ s
      → contents t s
        ≡ (listed t (before k) ++ listed t (inorder l))
          ++ entry_of t h ∷ listed t (inorder r ++ after k)
  around_node t s h k c l r whole =
      ap (listed t) (
        ap inorder (sym whole)
        ∙ inorder-plug-around k (fork c l h r)
        ∙ regroup (before k) (inorder l) (inorder r) (after k) h)
      ∙ listed-append t (before k ++ inorder l) (h ∷ (inorder r ++ after k))
      ∙ ap (λ m. m ++ entry_of t h ∷ listed t (inorder r ++ after k))
          (listed-append t (before k) (inorder l))

  insert_new-full :
      (t : RedBlackTree K V) (k : K) (v : V) (p : Handle) (o : Ordering)
      → alloc t ≡ none
      → insert_new t k v p o ≡ none
  unfolding insert_new
  insert_new-full t k v p o e = rw (e, insert_new)

  length-listed : (t : RedBlackTree K V) (hs : List Handle) → length (listed t hs) ≡ length hs
  length-listed t [] = refl
  length-listed t (h ∷ hs) = omega (arith, length-listed t hs)

  pub length-contents : (t : RedBlackTree K V) (s : Shape) → length (contents t s) ≡ size s
  length-contents t s = length-listed t (inorder s) ∙ sym (size-inorder s)

  abbrev pub revalued : RedBlackTree K V → Handle → V → RedBlackTree K V
  revalued t h v = write h (record (t.nodes h) { value = v }) t

  Links-revalued :
      (t : RedBlackTree K V) (g : Handle) (v : V) (p h : Handle) (s : Shape)
      → Links t p h s
      → Links (revalued t g v) p h s
  Links-revalued t g v p h leaf l = l
  Links-revalued t g v p h (fork c a x b) l =
      let u = revalued t g v in
      let left_same : (u.nodes x).left ≡ (t.nodes x).left = ground arith in
      let right_same : (u.nodes x).right ≡ (t.nodes x).right = ground arith in
      (
        l.0,
        l.1,
        ground arith,
        ground arith,
        subst (λ z. Links u x z a) (sym left_same) (Links-revalued t g v x (t.nodes x).left a l.4),
        subst (λ z. Links u x z b) (sym right_same)
            (Links-revalued t g v x (t.nodes x).right b l.5),
      )

  Chain-revalued :
      (t : RedBlackTree K V) (g : Handle) (v : V) (h : Handle) (hs : List Handle)
      → Chain t h hs
      → Chain (revalued t g v) h hs
  Chain-revalued t g v h [] c = c
  Chain-revalued t g v h (x ∷ hs) c =
      let left_same : ((revalued t g v).nodes x).left ≡ (t.nodes x).left = ground arith in
      (
        c.0,
        c.1,
        subst (λ z. Chain (revalued t g v) z hs) (sym left_same)
            (Chain-revalued t g v (t.nodes x).left hs c.2),
      )

  pub listed-elsewhere :
      (t : RedBlackTree K V) (g : Handle) (v : V) (hs : List Handle)
      → count g hs ≡ 0
      → listed (revalued t g v) hs ≡ listed t hs
  listed-elsewhere t g v [] c = refl
  listed-elsewhere t g v (j ∷ hs) c = ground (arith, listed-elsewhere t g v hs)

  listed-revalued :
      (t : RedBlackTree K V) (g : Handle) (v : V) (hs : List Handle)
      → count g hs ≤ 1
      → listed (revalued t g v) hs ≡ set_at g v (listed t hs)
  listed-revalued t g v [] c = refl
  listed-revalued t g v (j ∷ hs) c =
      ground (arith, listed-revalued t g v hs, listed-elsewhere t g v hs)

module _ {K V : Type 0} (cmp : K → K → Ordering) (law : IsLawful cmp) where
  -- What an insertion into the tree that holds `es` may answer.
  pub data Inserts (t : RedBlackTree K V) (es : List (Entry K V)) (hs : List Handle) (key : K)
      (v : V) : Option (Handle × RedBlackTree K V) → Type 0 where
    overwrites :
        (h : Handle) (u : RedBlackTree K V) (s : Shape)
        → find_key cmp key es ≡ h
        → h ≢ nil
        → IsSound cmp u s hs
        → contents u s ≡ set_at h v es
        → u ≡ set_by_handle t h v
        → Inserts t es hs key v (some (h, u))
    refuses : find_key cmp key es ≡ nil → t.capacity ≤ length es → Inserts t es hs key v none
    adds :
        (h : Handle) (u : RedBlackTree K V) (s : Shape) (js : List Handle)
        → find_key cmp key es ≡ nil
        → length es < t.capacity
        → IsSound cmp u s js
        → contents u s ≡ insert_entry cmp (record { handle = h; key = key; value = v }) es
        → u.capacity ≡ t.capacity
        → Inserts t es hs key v (some (h, u))

  pub revalued-IsSound :
      (t : RedBlackTree K V) (s : Shape) (hs : List Handle) (g : Handle) (v : V)
      → IsSound cmp t s hs
      → IsSound cmp (revalued t g v) s hs
        × (contents (revalued t g v) s ≡ set_at g v (contents t s))
  revalued-IsSound t s hs g v w =
      let e = listed-revalued t g v (inorder s) (ground (arith, w.once g, occurs-inorder g s)) in
      (
        record {
          links = Links-revalued t g v nil t.root s w.links;
          chain = Chain-revalued t g v t.free_head hs w.chain;
          once = w.once;
          within = w.within;
          len_lem = w.len_lem;
          slots = w.slots;
          room = w.room;
          balanced = w.balanced;
          root_black = w.root_black;
          sorted = subst (IsSorted cmp) (sym e) (set_at-IsSorted cmp g v (contents t s) w.sorted);
        },
        e,
      )

  -- The key is new.
  added :
      (t : RedBlackTree K V) (s : Shape) (hs : List Handle) (w : IsSound cmp t s hs) (key : K)
      (v : V) (p : Handle) (o : Ordering) (k : Context) (f : Focus t p nil k leaf)
      (whole : plug k leaf ≡ s) (low : All (λ e. cmp key e.key ≡ gt) (listed t (before k)))
      (high : All (λ e. cmp key e.key ≡ lt) (listed t (after k))) (turns : Turns o k)
      (a : Option (Handle × RedBlackTree K V))
      → alloc t ≡ a
      → Allocates t s a
      → Inserts t (contents t s) hs key v (insert_new t key v p o)
  added t s hs w key v p o k f whole low high turns none e (full m) =
      subst (Inserts t (contents t s) hs key v) (sym (insert_new-full t key v p o e)) (
        refuses (absent cmp law t s hs w key v p o k f whole low high turns)
          (omega (arith, m, length-contents t s)))
  added t s hs w key v p o k f whole low high turns (some x) e (given h u js m g) =
      let r = rebalanced cmp law t s hs w key v p o k f whole low high turns h u js g in
      let n = counts cmp law t s hs w key v p o k f whole low high turns h u js g in
      subst (Inserts t (contents t s) hs key v)
        (sym (answer cmp law t s hs w key v p o k f whole low high turns h u js g e))
        (adds h r.tree r.shape js (absent cmp law t s hs w key v p o k f whole low high turns)
          (omega (arith, m, length-contents t s))
          (new-IsSound cmp law t s hs w key v p o k f whole low high turns h u js g)
          (new_contents cmp law t s hs w key v p o k f whole low high turns h u js g)
          (r.same.capacity ∙ n.2 ∙ g.capacity))

  -- The key is there already.
  overwritten :
      (t : RedBlackTree K V) (s : Shape) (hs : List Handle) (w : IsSound cmp t s hs) (key : K)
      (v : V) (p h : Handle) (k : Context) (c : ℕ) (l r : Shape) (f : Focus t p h k (fork c l h r))
      → plug k (fork c l h r) ≡ s
      → All (λ e. cmp key e.key ≡ gt) (listed t (before k))
      → All (λ e. cmp key e.key ≡ gt) (listed t (inorder l))
      → cmp key (t.nodes h).key ≡ eq
      → Inserts t (contents t s) hs key v (at_place t key v (p, h, eq))
  unfolding set_by_handle
  overwritten t s hs w key v p h k c l r f whole low left same =
      let n : h ≢ nil = omega (arith, f.links.1) in
      let test : (h == nil) ≡ false = ground arith in
      let around = around_node t s h k c l r whole in
      let at =
        ap (find_key cmp key) around
        ∙ find_key-at cmp key (listed t (before k) ++ listed t (inorder l)) (entry_of t h)
            (listed t (inorder r ++ after k))
            (All-append (λ e. cmp key e.key ≡ gt) (listed t (before k)) (listed t (inorder l)) low
              left)
            same in
      let sound = revalued-IsSound t s hs h v w in
      let written : revalued t h v ≡ set_by_handle t h v = rw (test, set_by_handle) in
      rw test (overwrites h (revalued t h v) s at n sound.0 sound.1 written)

  placed :
      (t : RedBlackTree K V) (s : Shape) (hs : List Handle) (w : IsSound cmp t s hs) (key : K)
      (v : V) (x : Handle × Handle × Ordering)
      → Arrives cmp law t key s x
      → Inserts t (contents t s) hs key v (at_place t key v x)
  placed t s hs w key v x (missing p o k f whole low high turns) =
      added t s hs w key v p o k f whole low high turns (alloc t) refl (alloc_lem t s hs w)
  placed t s hs w key v x (found p h k c l r f whole low high left right same) =
      overwritten t s hs w key v p h k c l r f whole low left same

  -- In a sound arena, one that holds a balanced tree of red and black nodes sorted by a lawful
  -- order with every other slot free once, an insertion overwrites the value of a key that is
  -- there, refuses a new key exactly when the capacity is reached, and else adds the entry at its
  -- place in order under a new handle; the arena it returns is sound again, with every other entry
  -- and handle as before.
  pub insert-Inserts :
      (t : RedBlackTree K V) (s : Shape) (hs : List Handle) (key : K) (v : V)
      → IsSound cmp t s hs
      → Inserts t (contents t s) hs key v (insert cmp t key v)
  unfolding insert
  insert-Inserts t s hs key v w = placed t s hs w key v (descend cmp t.len t key nil t.root eq) (
      descend_lem cmp law t key t.len s nil t.root eq top s (omega (arith, w.len_lem))
        (Sound-Focus cmp law t s hs w) refl w.sorted tt tt tt)
