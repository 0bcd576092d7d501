-- ===== src/Tree/Arena/Insert/Attach.antt =====
-- crates/clob-book/src/tree/insert.rs: the new node is linked in where the descent ended.
use Prim.Native.Nat.{Ordering}
use Prim.Native.Nat.Ordering.{lt, eq, gt}
use clob_dex.Prelude.{ℕ, ◌+◌, ◌≤◌, ◌<◌, ◌≡◌, ◌≢◌, refl, sym, subst, ◌∙◌, ◌==◌, if◌then◌else◌, arith}
use clob_dex.Tree.{Handle, nil}
use clob_dex.Tree.Arena.{RedBlackTree, leftward, rightward, red}
use clob_dex.Tree.Arena.Insert.{fresh, attached}
use clob_dex.Tree.Arena.Insert.Descend.{Turns}
use clob_dex.Tree.Arena.Shape.{
  leaf, fork, Context, top, down, occurs, occurs_around, Links, Links-frame, Around-frame,
}
use clob_dex.Tree.Arena.Focus.{Focus}

module _ {K V : Type 0} where
  -- Every node but the new one and its parent is as before.
  pub attached-other :
      (u : RedBlackTree K V) (h p : Handle) (o : Ordering) (k : K) (v : V) (j : ℕ)
      → h ≢ j
      → p ≢ j
      → (attached u h p o k v).nodes j ≡ u.nodes j
  unfolding attached
  attached-other u h p lt k v j a b = ground arith
  attached-other u h p eq k v j a b = ground arith
  attached-other u h p gt k v j a b = ground arith

  pub attached-new :
      (u : RedBlackTree K V) (h p : Handle) (o : Ordering) (k : K) (v : V)
      → h ≢ p
      → (attached u h p o k v).nodes h ≡ fresh p k v
  unfolding attached
  attached-new u h p lt k v a = ground arith
  attached-new u h p eq k v a = ground arith
  attached-new u h p gt k v a = ground arith

  pub attached-same_key :
      (u : RedBlackTree K V) (h p : Handle) (o : Ordering) (k : K) (v : V) (j : ℕ)
      → h ≢ j
      → (((attached u h p o k v).nodes j).key ≡ (u.nodes j).key)
        × (((attached u h p o k v).nodes j).value ≡ (u.nodes j).value)
  unfolding attached
  attached-same_key u h p lt k v j a = ground arith
  attached-same_key u h p eq k v j a = ground arith
  attached-same_key u h p gt k v j a = ground arith

  pub attached-counts :
      (u : RedBlackTree K V) (h p : Handle) (o : Ordering) (k : K) (v : V)
      → ((attached u h p o k v).len ≡ u.len + 1)
        × ((attached u h p o k v).bump ≡ u.bump)
        × ((attached u h p o k v).capacity ≡ u.capacity)
        × ((attached u h p o k v).free_head ≡ u.free_head)
  unfolding attached
  attached-counts u h p lt k v = ground arith
  attached-counts u h p eq k v = ground arith
  attached-counts u h p gt k v = ground arith

  at_top :
      (u : RedBlackTree K V) (h p : Handle) (o : Ordering) (k : K) (v : V)
      → p ≡ nil
      → (attached u h p o k v).root ≡ h
  unfolding attached
  at_top u h p o k v e = ground arith

  at_parent :
      (u : RedBlackTree K V) (h p : Handle) (o : Ordering) (k : K) (v : V)
      → p ≢ nil
      → h ≢ p
      → ((attached u h p o k v).root ≡ u.root)
        × ((attached u h p lt k v).nodes p ≡ record (u.nodes p) { left = h })
        × ((attached u h p gt k v).nodes p ≡ record (u.nodes p) { right = h })
  unfolding attached
  at_parent u h p lt k v n a = ground arith
  at_parent u h p eq k v n a = ground arith
  at_parent u h p gt k v n a = ground arith

  new-Links :
      (u : RedBlackTree K V) (h p : Handle) (o : Ordering) (key : K) (v : V)
      → 0 < h
      → h ≢ p
      → Links (attached u h p o key v) p h (fork red leaf h leaf)
  new-Links u h p o key v m n = rw (attached-new u h p o key v n) (refl, m, refl, refl, refl, refl)

  -- The focus on the new node.
  pub attached-Focus :
      (u : RedBlackTree K V) (h p : Handle) (o : Ordering) (key : K) (v : V) (k : Context)
      → Focus u p nil k leaf
      → ((j : ℕ) → (if h == j then 1 else 0) + occurs_around j k ≤ (if j == nil then 0 else 1))
      → Turns o k
      → Focus (attached u h p o key v) p h k (fork red leaf h leaf)
  attached-Focus u h p o key v top f g n =
      let m : 0 < h = ground (arith, g h) in
      record {
        around = (f.around.0, at_top u h p o key v f.around.0);
        links = new-Links u h p o key v m (omega (arith, f.around.0));
        proper = λ j. omega (arith, g j);
      }
  attached-Focus u h p o key v (down leftward q c far k) f g n =
      let w = attached u h p o key v in
      let m : 0 < h = ground (arith, g h) in
      let ne : h ≢ q = λ e. ground (arith, g h) in
      let nep : h ≢ p = λ e. ne (e ∙ f.around.0) in
      let np : p ≢ nil = omega (arith, f.around.0, f.around.1) in
      let ap' = at_parent u h p o key v np nep in
      let at : w.nodes q ≡ record (u.nodes q) { left = h } =
        subst (λ x. (attached u h p x key v).nodes q ≡ record (u.nodes q) { left = h }) (sym n)
          (subst (λ z. (attached u h p lt key v).nodes z ≡ record (u.nodes z) { left = h })
            f.around.0 ap'.1) in
      let off : (j : ℕ) → 1 ≤ occurs j far + occurs_around j k → w.nodes j ≡ u.nodes j = λ j i.
        attached-other u h p o key v j (λ e. ground (arith, g j))
          (λ e. ground (arith, g j, f.around.0)) in
      record {
        around = rw at (
          f.around.0,
          f.around.1,
          f.around.2,
          refl,
          Links-frame u w q (u.nodes q).right far (λ j i. off j (omega arith)) f.around.4,
          Around-frame u w (u.nodes q).parent q k ap'.0 (λ j i. off j (omega arith)) f.around.5,
        );
        links = new-Links u h p o key v m nep;
        proper = λ j. omega (arith, g j);
      }
  attached-Focus u h p o key v (down rightward q c far k) f g n =
      let w = attached u h p o key v in
      let m : 0 < h = ground (arith, g h) in
      let ne : h ≢ q = λ e. ground (arith, g h) in
      let nep : h ≢ p = λ e. ne (e ∙ f.around.0) in
      let np : p ≢ nil = omega (arith, f.around.0, f.around.1) in
      let ap' = at_parent u h p o key v np nep in
      let at : w.nodes q ≡ record (u.nodes q) { right = h } =
        subst (λ x. (attached u h p x key v).nodes q ≡ record (u.nodes q) { right = h }) (sym n)
          (subst (λ z. (attached u h p gt key v).nodes z ≡ record (u.nodes z) { right = h })
            f.around.0 ap'.2) in
      let off : (j : ℕ) → 1 ≤ occurs j far + occurs_around j k → w.nodes j ≡ u.nodes j = λ j i.
        attached-other u h p o key v j (λ e. ground (arith, g j))
          (λ e. ground (arith, g j, f.around.0)) in
      record {
        around = rw at (
          f.around.0,
          f.around.1,
          f.around.2,
          refl,
          Links-frame u w q (u.nodes q).left far (λ j i. off j (omega arith)) f.around.4,
          Around-frame u w (u.nodes q).parent q k ap'.0 (λ j i. off j (omega arith)) f.around.5,
        );
        links = new-Links u h p o key v m nep;
        proper = λ j. omega (arith, g j);
      }
