-- ===== src/Tree/Arena/Reach.antt =====
-- crates/clob-book/src/tree: what any run of the tree's operations leaves, from a zeroed account on.
use Prim.Native.Nat.{Ordering}
use clob_dex.Prelude.{
  ℕ, true, ◌≡◌, ◌≢◌, refl, sym, ap, subst, ◌∙◌, ◌==◌, Option, none, some, List, [], ◌∷◌, arith,
  false, inl, inr,
}
use clob_dex.Tree.{Handle, nil, Entry, IsLawful, find_key, value_at, set_at}
use clob_dex.Tree.Arena.{RedBlackTree, clear, find, set_by_handle}
use clob_dex.Tree.Arena.Insert.{insert}
use clob_dex.Tree.Arena.Insert.Correct.{
  revalued-IsSound, listed-elsewhere, Inserts, insert-Inserts, overwrites, refuses, adds,
}
use clob_dex.Tree.Arena.Remove.{remove, remove_handle}
use clob_dex.Tree.Arena.Remove.Correct.{remove_handle-Removes}
use clob_dex.Tree.Arena.Shape.{Shape, leaf, inorder}
use clob_dex.Tree.Arena.Focus.{nil_cases}
use clob_dex.Tree.Arena.Lookup.{find_lem}
use clob_dex.Tree.Arena.Sound.{IsSound, contents, count, occurs-inorder}

some_of : {A : Type 0} (o : Option A) → o ≢ none → (v : A) × (o ≡ some v)
some_of none n = absurd (n refl)
some_of (some v) n = (v, refl)

module _ {K V : Type 0} where
  -- The header of an account whose bytes are zero.
  abbrev pub IsZeroed : RedBlackTree K V → Type 0
  IsZeroed t = (t.root ≡ nil) × (t.free_head ≡ nil) × (t.bump ≡ 0) × (t.len ≡ 0)

  pub capacity-set :
      (t : RedBlackTree K V) (h : Handle) (v : V) → (set_by_handle t h v).capacity ≡ t.capacity
  unfolding set_by_handle
  capacity-set t h v = ground arith

  pub zeroed-IsSound :
      {cmp : K → K → Ordering} (t : RedBlackTree K V) → IsZeroed t → IsSound cmp t leaf []
  zeroed-IsSound t z = record {
    links = z.0;
    chain = z.1;
    once = λ j. ground arith;
    within = λ j o. absurd (omega (arith, o));
    len_lem = z.3;
    slots = z.2;
    room = omega (arith, z.2);
    balanced = tt;
    root_black = refl;
    sorted = tt;
  }

  pub cleared-IsZeroed :
      (t : RedBlackTree K V) → IsZeroed (clear t) × ((clear t).capacity ≡ t.capacity)
  unfolding clear
  cleared-IsZeroed t = ((refl, refl, refl, refl), refl)

module _ {K V : Type 0} (cmp : K → K → Ordering) (law : IsLawful cmp) where
  pub rewritten-IsSound :
      (t : RedBlackTree K V) (s : Shape) (hs : List Handle) (h : Handle) (v : V)
      → IsSound cmp t s hs
      → IsSound cmp (set_by_handle t h v) s hs
        × (contents (set_by_handle t h v) s ≡ set_at h v (contents t s))
  unfolding set_by_handle
  rewritten-IsSound t s hs h v w = elim (nil_cases h) [
    | inl e ↦
        let test : (h == nil) ≡ true = ground arith in
        let none_here : count h (inorder s) ≡ 0 = ground (arith, w.once h, occurs-inorder h s) in
        rw test (
          w,
          sym (listed-elsewhere t h v (inorder s) none_here)
              ∙ (revalued-IsSound cmp law t s hs h v w).1,
        )
    | inr n ↦
        let test : (h == nil) ≡ false = ground arith in
        rw test (revalued-IsSound cmp law t s hs h v w)
  ]

  -- The arenas of capacity `n` that a run of operations comes to.
  pub data Reaches (n : ℕ) : RedBlackTree K V → Type 0 where
    started : (t : RedBlackTree K V) → IsZeroed t → t.capacity ≡ n → Reaches n t
    cleared : (t : RedBlackTree K V) → Reaches n t → Reaches n (clear t)
    rewritten :
        (t : RedBlackTree K V) (h : Handle) (v : V) → Reaches n t → Reaches n (set_by_handle t h v)
    inserted :
        (t u : RedBlackTree K V) (key : K) (v : V) (h : Handle)
        → Reaches n t
        → insert cmp t key v ≡ some (h, u)
        → Reaches n u
    removed :
        (t u : RedBlackTree K V) (key : K)
        → Reaches n t
        → (remove cmp t key).1 ≡ some u
        → Reaches n u

  pub record Held (n : ℕ) (t : RedBlackTree K V) : Type 0 where
    pub shape : Shape
    pub free_slots : List Handle
    pub sound : IsSound cmp t shape free_slots
    pub capacity : t.capacity ≡ n

  pub inserted-Held :
      (n : ℕ) (t u : RedBlackTree K V) (es : List (Entry K V)) (hs : List Handle) (key : K) (v : V)
      (h : Handle) (o : Option (Handle × RedBlackTree K V))
      → t.capacity ≡ n
      → Inserts cmp law t es hs key v o
      → o ≡ some (h, u)
      → Held n u
  inserted-Held n t u es hs key v h o c (overwrites g w s f i k e d) q =
      let same : w ≡ u = ground (arith, q) in
      let room = ap (λ z. z.capacity) d ∙ capacity-set t g v in
      subst (Held n) same (record { shape = s; free_slots = hs; sound = k; capacity = room ∙ c })
  inserted-Held n t u es hs key v h o c (refuses f m) q = absurd (ground (arith, q))
  inserted-Held n t u es hs key v h o c (adds g w s js f m k e d) q =
      let same : w ≡ u = ground (arith, q) in
      subst (Held n) same (record { shape = s; free_slots = js; sound = k; capacity = d ∙ c })

  found-value_at :
      (k : K) (es : List (Entry K V))
      → find_key cmp k es ≢ nil
      → value_at (find_key cmp k es) es ≢ none
  found-value_at k [] n = absurd (n refl)
  found-value_at k (e ∷ es) n = ground (arith, found-value_at k es)

  remove-absent :
      (t : RedBlackTree K V) (k : K) → find cmp t k ≡ nil → remove cmp t k ≡ (none, some t)
  unfolding remove
  remove-absent t k e = rw e refl

  remove-present :
      (t : RedBlackTree K V) (k : K)
      → find cmp t k ≢ nil
      → remove cmp t k
        ≡ (some (remove_handle t (find cmp t k)).0, (remove_handle t (find cmp t k)).1)
  unfolding remove
  remove-present t k n = let test : (find cmp t k == nil) ≡ false = ground arith in rw test refl

  removed-Held :
      (n : ℕ) (t u : RedBlackTree K V) (k : K) → Held n t → (remove cmp t k).1 ≡ some u → Held n u
  removed-Held n t u k w q = elim (nil_cases (find cmp t k)) [
    | inl e ↦
        let same : t ≡ u = ground (arith, ap (λ m. m.1) (remove-absent t k e), q) in
        subst (Held n) same w
    | inr m ↦
        let at = find_lem cmp law t w.shape w.free_slots k w.sound in
        let z = find cmp t k in
        let there : value_at z (contents t w.shape) ≢ none =
          subst (λ x. value_at x (contents t w.shape) ≢ none) (sym at)
            (found-value_at k (contents t w.shape) (λ e. m (at ∙ e))) in
        let (v, e) = some_of (value_at z (contents t w.shape)) there in
        let r = remove_handle-Removes t w.shape w.free_slots z v w.sound e in
        let same : r.arena ≡ u =
          ground (arith, sym r.returned ∙ sym (ap (λ x. x.1) (remove-present t k m)) ∙ q) in
        subst (Held n) same (record {
          shape = r.shape;
          free_slots = z ∷ w.free_slots;
          sound = r.sound;
          capacity = r.capacity ∙ w.capacity;
        })
  ]

  -- Every arena that a run of insertions, removals by key and clears comes to, from an account
  -- whose header is zero and with a lawful order on the keys, is sound and has the capacity that
  -- it started with.
  pub reached-IsSound : (n : ℕ) (t : RedBlackTree K V) → Reaches n t → Held n t
  reached-IsSound n a (started t z c) = record {
    shape = leaf;
    free_slots = [];
    sound = zeroed-IsSound t z;
    capacity = c;
  }
  reached-IsSound n a (cleared t r) =
      let z = cleared-IsZeroed t in
      record {
        shape = leaf;
        free_slots = [];
        sound = zeroed-IsSound (clear t) z.0;
        capacity = z.1 ∙ (reached-IsSound n t r).capacity;
      }
  reached-IsSound n a (rewritten t h v r) =
      let w = reached-IsSound n t r in
      record {
        shape = w.shape;
        free_slots = w.free_slots;
        sound = (rewritten-IsSound t w.shape w.free_slots h v w.sound).0;
        capacity = capacity-set t h v ∙ w.capacity;
      }
  reached-IsSound n a (inserted t u key v h r q) =
      let w = reached-IsSound n t r in
      inserted-Held n t u (contents t w.shape) w.free_slots key v h (insert cmp t key v) w.capacity
        (insert-Inserts cmp law t w.shape w.free_slots key v w.sound) q
  reached-IsSound n a (removed t u key r q) = removed-Held n t u key (reached-IsSound n t r) q
