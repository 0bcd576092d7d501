-- ===== src/Tree/Arena/Sound.antt =====
-- What it is for an arena to hold a red-black tree, as `check` of
-- crates/clob-book/src/tree/invariants.rs tests it, and the list of entries that it stands for.
use Prim.Native.Nat.{Ordering}
use Prim.Native.Nat.Ordering.{lt, eq, gt}
use clob_dex.Prelude.{
  ℕ, ◌+◌, ◌≤◌, ◌<◌, ◌≡◌, refl, sym, ap, ◌∙◌, none, List, [], ◌∷◌, ◌++◌, ◌==◌, if◌then◌else◌, length,
  All, All-split, length-append, arith,
}
use mathlib.Core.List.{append_assoc, append-nil}
use clob_dex.Tree.{Handle, nil, Entry, IsSorted, insert_entry, find_key}
use clob_dex.Tree.Entries.{value_of}
use clob_dex.Tree.Arena.{leftward, rightward, RedBlackTree, black}
use clob_dex.Tree.Arena.Shape.{
  Shape, leaf, fork, Context, top, down, plug, inorder, size, occurs, Links,
}
use clob_dex.Tree.Arena.Balanced.{Balanced, root_color}
use clob_dex.Tree.Arena.Data.{SameData}

abbrev pub count : ℕ → List ℕ → ℕ
count j [] = 0
count j (h ∷ hs) = (if h == j then 1 else 0) + count j hs

pub count-append : (j : ℕ) (hs js : List ℕ) → count j (hs ++ js) ≡ count j hs + count j js
count-append j [] js = omega arith
count-append j (h ∷ hs) js = omega (arith, count-append j hs js)

pub occurs-inorder : (j : ℕ) (s : Shape) → occurs j s ≡ count j (inorder s)
occurs-inorder j leaf = refl
occurs-inorder j (fork c l x r) =
    omega
      (arith, occurs-inorder j l, occurs-inorder j r, count-append j (inorder l) (x ∷ inorder r))

pub size-inorder : (s : Shape) → size s ≡ length (inorder s)
size-inorder leaf = refl
size-inorder (fork c l x r) =
    omega (arith, size-inorder l, size-inorder r, length-append (inorder l) (x ∷ inorder r))

-- The handles before and after the hole of a context.
abbrev pub before : Context → List Handle
before top = []
before (down leftward q c far k) = before k
before (down rightward q c far k) = before k ++ (inorder far ++ q ∷ [])

abbrev pub after : Context → List Handle
after top = []
after (down leftward q c far k) = q ∷ (inorder far ++ after k)
after (down rightward q c far k) = after k

pub inorder-plug-around :
    (k : Context) (s : Shape) → inorder (plug k s) ≡ before k ++ (inorder s ++ after k)
inorder-plug-around top s = sym (append-nil (inorder s))
inorder-plug-around (down leftward q c far k) s =
    inorder-plug-around k (fork c s q far)
    ∙ ap (λ m. before k ++ m) (append_assoc (inorder s) (q ∷ inorder far) (after k))
inorder-plug-around (down rightward q c far k) s =
    inorder-plug-around k (fork c far q s) ∙ simp append_assoc

module _ {K V : Type 0} where
  abbrev pub entry_of : RedBlackTree K V → Handle → Entry K V
  entry_of t h = record { handle = h; key = (t.nodes h).key; value = (t.nodes h).value }

  abbrev pub listed : RedBlackTree K V → List Handle → List (Entry K V)
  listed t [] = []
  listed t (h ∷ hs) = entry_of t h ∷ listed t hs

  pub listed-append :
      (t : RedBlackTree K V) (hs js : List Handle)
      → listed t (hs ++ js) ≡ listed t hs ++ listed t js
  listed-append t [] js = refl
  listed-append t (h ∷ hs) js = ap (λ m. entry_of t h ∷ m) (listed-append t hs js)

  pub listed-same :
      {t u : RedBlackTree K V} (d : SameData t u) (hs : List Handle) → listed u hs ≡ listed t hs
  listed-same d [] = refl
  listed-same d (h ∷ hs) = ground (arith, d.keys h, d.values h, listed-same d hs)

  -- The free slots, by their left links.
  abbrev pub Chain : RedBlackTree K V → Handle → List Handle → Type 0
  Chain t h [] = h ≡ nil
  Chain t h (x ∷ hs) = (h ≡ x) × (0 < x) × Chain t (t.nodes x).left hs

  -- The arena `t` holds the tree `s`, and its free slots are `hs`.
  pub record IsSound (cmp : K → K → Ordering) (t : RedBlackTree K V) (s : Shape) (hs : List Handle)
      : Type 0 where
    pub links : Links t nil t.root s
    pub chain : Chain t t.free_head hs
    pub once : (j : ℕ) → occurs j s + count j hs ≤ (if j == nil then 0 else 1)
    pub within : (j : ℕ) → 1 ≤ occurs j s + count j hs → j ≤ t.bump
    pub len_lem : t.len ≡ size s
    pub slots : t.bump ≡ size s + length hs
    pub room : t.bump ≤ t.capacity
    pub balanced : Balanced s
    pub root_black : root_color s ≡ black
    pub sorted : IsSorted cmp (listed t (inorder s))

  abbrev pub contents : RedBlackTree K V → Shape → List (Entry K V)
  contents t s = listed t (inorder s)

  module _ (cmp : K → K → Ordering) where
    pub IsSorted-parts :
        (A : List (Entry K V)) (e : Entry K V) (B : List (Entry K V))
        → IsSorted cmp (A ++ e ∷ B)
        → IsSorted cmp A
          × IsSorted cmp B
          × All (λ f. cmp f.key e.key ≡ lt) A
          × All (λ f. cmp e.key f.key ≡ lt) B
    IsSorted-parts [] e B s = (tt, s.1, tt, s.0)
    IsSorted-parts (f ∷ A) e B s =
        let r = IsSorted-parts A e B s.1 in
        let w = All-split (λ g. cmp f.key g.key ≡ lt) A (e ∷ B) s.0 in
        ((w.0, r.0), r.1, (w.1.0, r.2), r.3)

    -- Where all keys before are smaller and all after are larger.
    pub insert_entry-between :
        (n : Entry K V) (A B : List (Entry K V))
        → All (λ e. cmp n.key e.key ≡ gt) A
        → All (λ e. cmp n.key e.key ≡ lt) B
        → insert_entry cmp n (A ++ B) ≡ A ++ n ∷ B
    insert_entry-between n [] [] a b = refl
    insert_entry-between n [] (e ∷ B) a b = ground arith
    insert_entry-between n (e ∷ A) B a b = ground (arith, insert_entry-between n A B a.1 b)

    pub find_key-between :
        (k : K) (A B : List (Entry K V))
        → All (λ e. cmp k e.key ≡ gt) A
        → All (λ e. cmp k e.key ≡ lt) B
        → find_key cmp k (A ++ B) ≡ nil
    find_key-between k [] [] a b = refl
    find_key-between k [] (e ∷ B) a b = ground (arith, find_key-between k [] B tt b.1)
    find_key-between k (e ∷ A) B a b = ground (arith, find_key-between k A B a.1 b)

    pub find_key-at :
        (k : K) (A : List (Entry K V)) (e : Entry K V) (B : List (Entry K V))
        → All (λ e. cmp k e.key ≡ gt) A
        → cmp k e.key ≡ eq
        → find_key cmp k (A ++ e ∷ B) ≡ e.handle
    find_key-at k [] e B a b = ground arith
    find_key-at k (f ∷ A) e B a b = ground (arith, find_key-at k A e B a.1 b)

    pub value_of-between :
        (k : K) (A B : List (Entry K V))
        → All (λ e. cmp k e.key ≡ gt) A
        → All (λ e. cmp k e.key ≡ lt) B
        → value_of cmp k (A ++ B) ≡ none
    value_of-between k [] [] a b = refl
    value_of-between k [] (e ∷ B) a b = ground (arith, value_of-between k [] B tt b.1)
    value_of-between k (e ∷ A) B a b = ground (arith, value_of-between k A B a.1 b)
