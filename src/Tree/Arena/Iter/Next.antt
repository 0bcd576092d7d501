-- ===== src/Tree/Arena/Iter/Next.antt =====
-- crates/clob-book/src/tree/mod.rs: `successor` and `predecessor` are the neighbours in order.
use Prim.Native.Nat.{Ordering}
use clob_dex.Prelude.{ℕ, ◌≤◌, ◌≡◌, ◌≢◌, refl, sym, ap, ◌∙◌, some, List, [], ◌∷◌, ◌++◌, arith}
use mathlib.Core.List.{append_assoc, append-nil}
use clob_dex.Tree.{Handle, nil, least, greatest}
use clob_dex.Tree.Arena.{
  leftward, rightward, RedBlackTree, successor, predecessor, min_from, max_from, climb, min_loop,
  max_loop,
}
use clob_dex.Tree.Arena.Iter.Climb.{head, final, final-append, head-after, final-before, climb_lem}
use clob_dex.Tree.Arena.Lookup.{min_loop_lem, max_loop_lem}
use clob_dex.Tree.Arena.Shape.{
  Shape, leaf, fork, Context, top, plug, inorder, size, size-plug, depth-le-size, occurs, Links,
}
use clob_dex.Tree.Arena.Focus.{Focus}
use clob_dex.Tree.Arena.Remove.Leftmost.{stands}
use clob_dex.Tree.Arena.Sound.{
  IsSound, before, after, inorder-plug-around, listed, entry_of, count, count-append,
  occurs-inorder,
}

head_of_fork :
    (c : ℕ) (l : Shape) (x : Handle) (r : Shape) (js : List Handle)
    → head (inorder (fork c l x r) ++ js) ≡ head (inorder (fork c l x r))
head_of_fork c leaf x r js = refl
head_of_fork c (fork a m y n) x r js =
    ap head (append_assoc (inorder (fork a m y n)) (x ∷ inorder r) js)
    ∙ head_of_fork a m y n (x ∷ inorder r ++ js)
    ∙ sym (head_of_fork a m y n (x ∷ inorder r))

final_of_fork :
    (hs : List Handle) (c : ℕ) (l : Shape) (x : Handle) (r : Shape)
    → final (hs ++ inorder (fork c l x r)) ≡ final (inorder (fork c l x r))
final_of_fork hs c l x r =
    ap final (sym (append_assoc hs (inorder l) (x ∷ inorder r)))
    ∙ final-append (hs ++ inorder l) (inorder r) x
    ∙ sym (final-append (inorder l) (inorder r) x)

module _ {K V : Type 0} where
  head-least :
      (t : RedBlackTree K V) (hs : List Handle) (m : Handle)
      → least (listed t hs) ≡ some (entry_of t m)
      → head hs ≡ m
  head-least t [] m e = ground arith
  head-least t (h ∷ hs) m e = ground arith

  final-greatest :
      (t : RedBlackTree K V) (hs : List Handle) (m : Handle)
      → greatest (listed t hs) ≡ some (entry_of t m)
      → final hs ≡ m
  final-greatest t [] m e = ground arith
  final-greatest t (h ∷ []) m e = ground arith
  final-greatest t (h ∷ j ∷ hs) m e = final-greatest t (j ∷ hs) m e

  pub min_from_lem :
      (t : RedBlackTree K V) (p h : Handle) (s : Shape)
      → size s ≤ t.len
      → Links t p h s
      → min_from t h ≡ head (inorder s)
  unfolding min_from
  min_from_lem t p h leaf m w = ground arith
  min_from_lem t p h (fork c l x r) m w =
      let least_one = min_loop_lem t.len t p h c l r x m w in
      ground (arith, w.0, w.1)
      ∙ sym (head-least t (inorder (fork c l x r)) (min_loop t.len t h) least_one.1)

  pub max_from_lem :
      (t : RedBlackTree K V) (p h : Handle) (s : Shape)
      → size s ≤ t.len
      → Links t p h s
      → max_from t h ≡ final (inorder s)
  unfolding max_from
  max_from_lem t p h leaf m w = ground arith
  max_from_lem t p h (fork c l x r) m w =
      let greatest_one = max_loop_lem t.len t p h c l r x m w in
      ground (arith, w.0, w.1)
      ∙ sym (final-greatest t (inorder (fork c l x r)) (max_loop t.len t h) greatest_one.1)

  successor-climb :
      (t : RedBlackTree K V) (h : Handle)
      → h ≢ nil
      → (t.nodes h).right ≡ nil
      → successor t h ≡ climb t.len rightward t h (t.nodes h).parent
  unfolding successor
  successor-climb t h n e = ground arith

  successor-descend :
      (t : RedBlackTree K V) (h : Handle)
      → h ≢ nil
      → (t.nodes h).right ≢ nil
      → successor t h ≡ min_from t (t.nodes h).right
  unfolding successor
  successor-descend t h n e = ground arith

  predecessor-climb :
      (t : RedBlackTree K V) (h : Handle)
      → h ≢ nil
      → (t.nodes h).left ≡ nil
      → predecessor t h ≡ climb t.len leftward t h (t.nodes h).parent
  unfolding predecessor
  predecessor-climb t h n e = ground arith

  predecessor-descend :
      (t : RedBlackTree K V) (h : Handle)
      → h ≢ nil
      → (t.nodes h).left ≢ nil
      → predecessor t h ≡ max_from t (t.nodes h).left
  unfolding predecessor
  predecessor-descend t h n e = ground arith

  successor_at :
      (t : RedBlackTree K V) (p h : Handle) (k : Context) (c : ℕ) (l r : Shape)
      → size (plug k (fork c l h r)) ≤ t.len
      → Focus t p h k (fork c l h r)
      → successor t h ≡ head (inorder r ++ after k)
  successor_at t p h k c l leaf m w =
      successor-climb t h (omega (arith, w.links.1)) w.links.5
      ∙ ap (climb t.len rightward t h) w.links.2
      ∙ climb_lem t.len rightward t p h k (fork c l h leaf)
          (omega (arith, size-plug k (fork c l h leaf), depth-le-size k)) w
          (omega (arith, w.links.1))
      ∙ head-after k
  successor_at t p h k c l (fork a b y d) m w =
      successor-descend t h (omega (arith, w.links.1)) (omega (arith, w.links.5.0, w.links.5.1))
      ∙ min_from_lem t h (t.nodes h).right (fork a b y d)
          (omega (arith, size-plug k (fork c l h (fork a b y d)))) w.links.5
      ∙ sym (head_of_fork a b y d (after k))

  predecessor_at :
      (t : RedBlackTree K V) (p h : Handle) (k : Context) (c : ℕ) (l r : Shape)
      → size (plug k (fork c l h r)) ≤ t.len
      → Focus t p h k (fork c l h r)
      → predecessor t h ≡ final (before k ++ inorder l)
  predecessor_at t p h k c leaf r m w =
      predecessor-climb t h (omega (arith, w.links.1)) w.links.4
      ∙ ap (climb t.len leftward t h) w.links.2
      ∙ climb_lem t.len leftward t p h k (fork c leaf h r)
          (omega (arith, size-plug k (fork c leaf h r), depth-le-size k)) w
          (omega (arith, w.links.1))
      ∙ final-before k
      ∙ ap final (sym (append-nil (before k)))
  predecessor_at t p h k c (fork a b y d) r m w =
      predecessor-descend t h (omega (arith, w.links.1)) (omega (arith, w.links.4.0, w.links.4.1))
      ∙ max_from_lem t h (t.nodes h).left (fork a b y d)
          (omega (arith, size-plug k (fork c (fork a b y d) h r))) w.links.4
      ∙ sym (final_of_fork (before k) a b y d)

-- A list in which the element stands once is parted by it in one way.
parts_same :
    (h : Handle) (A B C D : List Handle)
    → A ++ h ∷ B ≡ C ++ h ∷ D
    → count h (A ++ h ∷ B) ≤ 1
    → (A ≡ C) × (B ≡ D)
parts_same h [] B [] D e o = ground arith
parts_same h [] B (x ∷ C) D e o = absurd (ground (arith, count-append h C (h ∷ D)))
parts_same h (x ∷ A) B [] D e o = absurd (ground (arith, count-append h A (h ∷ B)))
parts_same h (x ∷ A) B (y ∷ C) D e o =
    let (tops, rest) : (x ≡ y) × (A ++ h ∷ B ≡ C ++ h ∷ D) = ground arith in
    let r = parts_same h A B C D rest (omega (arith, o)) in (ground (arith, tops, r.0), r.1)

module _ {K V : Type 0} {cmp : K → K → Ordering} where
  -- The neighbours of a handle in the order of the tree.
  pub neighbours :
      (t : RedBlackTree K V) (s : Shape) (hs : List Handle) (h : Handle) (A B : List Handle)
      → IsSound cmp t s hs
      → inorder s ≡ A ++ h ∷ B
      → (h ≢ nil) × (successor t h ≡ head B) × (predecessor t h ≡ final A)
  neighbours t s hs h A B w e =
      let counted = ap (count h) e ∙ count-append h A (h ∷ B) in
      let here : 1 ≤ occurs h s = ground (arith, occurs-inorder h s, counted) in
      let whole : Focus t nil t.root top s = record {
        around = (refl, refl);
        links = w.links;
        proper = λ j. omega (arith, w.once j);
      } in
      let p = stands t nil t.root h top s whole here in
      let small : size (plug p.around (fork p.color p.left h p.right)) ≤ t.len =
        omega (arith, ap size p.whole, w.len_lem) in
      let split : A ++ h ∷ B
          ≡ (before p.around ++ inorder p.left) ++ h ∷ (inorder p.right ++ after p.around) =
        sym e
        ∙ ap inorder (sym p.whole)
        ∙ inorder-plug-around p.around (fork p.color p.left h p.right)
        ∙ simp append_assoc in
      let once : count h (A ++ h ∷ B) ≤ 1 =
        ground (arith, ap (count h) e, occurs-inorder h s, w.once h) in
      let same =
        parts_same h A B (before p.around ++ inorder p.left) (inorder p.right ++ after p.around)
          split once in
      (
        ground (arith, w.once h, here),
        successor_at t p.parent h p.around p.color p.left p.right small p.focus
            ∙ ap head (sym same.1),
        predecessor_at t p.parent h p.around p.color p.left p.right small p.focus
            ∙ ap final (sym same.0),
      )
