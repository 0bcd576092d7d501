-- ===== src/Tree/Arena/Iter/Walk.antt =====
-- crates/clob-book/src/tree/iter.rs: both walks visit every entry once, in order.
use Prim.Native.Nat.{Ordering}
use clob_dex.Prelude.{
  ℕ, suc, ◌-◌, ◌≡◌, ◌≢◌, refl, sym, ap, ◌∙◌, some, List, [], ◌∷◌, ◌++◌, length, length-append,
  arith, ◌==◌, false,
}
use mathlib.Core.List.{
  append_assoc, append-nil, reverse, reverse-append, reverse-cons, reverse-reverse,
}
use clob_dex.Tree.{Handle, nil, Entry}
use clob_dex.Tree.Arena.{Direction, leftward, rightward, RedBlackTree, entry_at}
use clob_dex.Tree.Arena.Iter.{Iter, iter, iter_rev, next, onward, collect}
use clob_dex.Tree.Arena.Iter.Climb.{head, final, final-snoc}
use clob_dex.Tree.Arena.Iter.Next.{neighbours, min_from_lem, max_from_lem}
use clob_dex.Tree.Arena.Shape.{Shape, inorder}
use clob_dex.Tree.Arena.Sound.{IsSound, contents, listed, listed-append, entry_of, size-inorder}

length-reverse : (hs : List Handle) → length (reverse hs) ≡ length hs
length-reverse [] = refl
length-reverse (h ∷ hs) =
    omega
      (arith, ap length (reverse-cons h hs), length-append (reverse hs) (h ∷ []), length-reverse hs)

module _ {K V : Type 0} where
  collect-end :
      (f : ℕ) (d : Direction) (t : RedBlackTree K V) (n : ℕ)
      → collect (suc f) d t (record { cursor = nil; remaining = n })
        ≡ ([], record { cursor = nil; remaining = n })
  unfolding collect next
  collect-end f d t n = refl

  next-live :
      (d : Direction) (t : RedBlackTree K V) (h : Handle) (n : ℕ)
      → h ≢ nil
      → next d t (record { cursor = h; remaining = suc n })
        ≡ (some (entry_of t h), record { cursor = onward d t h; remaining = n })
  unfolding next entry_at
  next-live d t h n m =
      let test : (h == nil) ≡ false = ground arith in
      let less : suc n - 1 ≡ n = omega arith in
      let shown : entry_at t h ≡ some (entry_of t h) = ground arith in
      rw (test, less, next) (ap (λ o. (o, record { cursor = onward d t h; remaining = n })) shown)

  collect-next :
      (f : ℕ) (d : Direction) (t : RedBlackTree K V) (i j : Iter) (e : Entry K V)
      → next d t i ≡ (some e, j)
      → collect (suc f) d t i ≡ (e ∷ (collect f d t j).0, (collect f d t j).1)
  unfolding collect
  collect-next f d t i j e q =
      rw (q, collect) (ap (λ m. (e ∷ (collect f d t m.1).0, (collect f d t m.1).1)) q)

  collect-step :
      (f : ℕ) (d : Direction) (t : RedBlackTree K V) (h j : Handle) (n : ℕ)
      → h ≢ nil
      → onward d t h ≡ j
      → collect (suc f) d t (record { cursor = h; remaining = suc n }) ≡ (
        entry_of t h ∷ (collect f d t (record { cursor = j; remaining = n })).0,
        (collect f d t (record { cursor = j; remaining = n })).1,
      )
  collect-step f d t h j n m e =
      collect-next f d t (record { cursor = h; remaining = suc n })
        (record { cursor = j; remaining = n }) (entry_of t h)
        (next-live d t h n m
          ∙ ap (λ x. (some (entry_of t h), record { cursor = x; remaining = n })) e)

  listed-reverse :
      (t : RedBlackTree K V) (hs : List Handle) → listed t (reverse hs) ≡ reverse (listed t hs)
  listed-reverse t [] = refl
  listed-reverse t (h ∷ hs) =
      ap (listed t) (reverse-cons h hs)
      ∙ listed-append t (reverse hs) (h ∷ [])
      ∙ ap (λ m. m ++ entry_of t h ∷ []) (listed-reverse t hs)
      ∙ sym (reverse-append (entry_of t h ∷ []) (listed t hs))

module _ {K V : Type 0} {cmp : K → K → Ordering} (t : RedBlackTree K V) (s : Shape)
    (hs : List Handle) (w : IsSound cmp t s hs) where
  forward :
      (ks js : List Handle)
      → inorder s ≡ ks ++ js
      → collect (suc (length js)) rightward t (record { cursor = head js; remaining = length js })
        ≡ (listed t js, record { cursor = nil; remaining = 0 })
  forward ks [] e = collect-end 0 rightward t 0
  forward ks (h ∷ js) e =
      let near = neighbours t s hs h ks js w e in
      collect-step (suc (length js)) rightward t h (head js) (length js) near.0 near.1
      ∙ ap (λ m. (entry_of t h ∷ m.0, m.1))
          (forward (ks ++ h ∷ []) js (e ∙ sym (append_assoc ks (h ∷ []) js)))

  backward :
      (js ks : List Handle)
      → inorder s ≡ reverse js ++ ks
      → collect
          (suc (length js))
          leftward
          t
          (record { cursor = final (reverse js); remaining = length js })
        ≡ (listed t js, record { cursor = nil; remaining = 0 })
  backward [] ks e = collect-end 0 leftward t 0
  backward (h ∷ js) ks e =
      let parted : inorder s ≡ reverse js ++ h ∷ ks =
        e ∙ ap (λ m. m ++ ks) (reverse-cons h js) ∙ append_assoc (reverse js) (h ∷ []) ks in
      let near = neighbours t s hs h (reverse js) ks w parted in
      let top = ap final (reverse-cons h js) ∙ final-snoc (reverse js) h in
      ap
        (λ m.
          collect (suc (suc (length js))) leftward t
            (record { cursor = m; remaining = suc (length js) }))
        top
      ∙ collect-step (suc (length js)) leftward t h (final (reverse js)) (length js) near.0 near.2
      ∙ ap (λ m. (entry_of t h ∷ m.0, m.1)) (backward js (h ∷ ks) parted)

  sized : t.len ≡ length (inorder s)
  sized = w.len_lem ∙ size-inorder s

  -- In a sound arena the ascending iterator, called once more than there are entries, yields every
  -- entry in order and then nothing, the descending one yields them in reverse, and each then has
  -- nothing remaining.
  pub iter_lem :
      (collect (suc t.len) rightward t (iter t)
        ≡ (contents t s, record { cursor = nil; remaining = 0 }))
      × (collect (suc t.len) leftward t (iter_rev t)
          ≡ (reverse (contents t s), record { cursor = nil; remaining = 0 }))
  unfolding iter iter_rev
  iter_lem =
      let all = inorder s in
      let low = min_from_lem t nil t.root s (omega (arith, w.len_lem)) w.links in
      let high = max_from_lem t nil t.root s (omega (arith, w.len_lem)) w.links in
      let start : ◌≡◌ {A = Iter × ℕ} (iter t, t.len)
          (record { cursor = head all; remaining = length all }, length all) =
        λ i. (record { cursor = low i; remaining = sized i }, sized i) in
      let start_rev : ◌≡◌ {A = Iter × ℕ} (iter_rev t, t.len)
          (
            record { cursor = final (reverse (reverse all)); remaining = length (reverse all) },
            length (reverse all),
          ) =
        let top = high ∙ ap final (sym (reverse-reverse all)) in
        let n = sized ∙ sym (length-reverse all) in
        λ i. (record { cursor = top i; remaining = n i }, n i) in
      let ends = sym (reverse-reverse all) ∙ sym (append-nil (reverse (reverse all))) in
      (
        ap (λ m. collect (suc m.1) rightward t m.0) start ∙ forward [] all refl,
        ap (λ m. collect (suc m.1) leftward t m.0) start_rev
            ∙ backward (reverse all) [] ends
            ∙ ap (λ m. (m, record { cursor = nil; remaining = 0 })) (listed-reverse t all),
      )
