-- ===== src/Tree/Arena/Insert/Rebalance.antt =====
-- crates/clob-book/src/tree/insert.rs: what the rounds of `insert_fixup` do to the focus.
use clob_dex.Prelude.{ℕ, ◌+◌, ◌≤◌, ◌≡◌, ◌≢◌, refl, sym, ap, ◌∙◌, ◌==◌, arith, true, false}
use clob_dex.Tree.{Handle, nil}
use clob_dex.Tree.Arena.{
  Direction, leftward, rightward, opposite, RedBlackTree, child, child_of, parent_of, set_color,
  rotate, red, black,
}
use clob_dex.Tree.Arena.Insert.{way, straighten, lift}
use clob_dex.Tree.Arena.Shape.{
  Shape, leaf, fork, Context, down, bend, plug, occurs, occurs_around, Links, Links-occurs, Kept,
  occurs-plug,
}
use clob_dex.Tree.Arena.Focus.{Focus}
use clob_dex.Tree.Arena.Zoom.{zoom_in, zoom_out, paint}
use clob_dex.Tree.Arena.Turn.{rotate-Focus, rotate-kept}
use clob_dex.Tree.Arena.Data.{
  set_color-other, SameData, same_trans, set_color-SameData, rotate-SameData,
}

module _ {K V : Type 0} where
  pub paint-bend :
      (d : Direction) (t : RedBlackTree K V) (p h x : Handle) (c n : ℕ) (near far : Shape)
      (k : Context)
      → Focus t p h k (bend d c near x far)
      → Focus (set_color x n t) p h k (bend d n near x far)
  paint-bend leftward t p h x c n near far k f = paint t p h x c n near far k f
  paint-bend rightward t p h x c n near far k f = paint t p h x c n far near k f

  -- A child in the other direction is another node.
  pub other_child :
      (t : RedBlackTree K V) (e : Direction) (p h q : Handle) (c : ℕ) (far s : Shape) (k : Context)
      → Focus t p h (down e q c far k) s
      → 1 ≤ occurs h s
      → child (opposite e) (t.nodes q) ≢ h
  other_child t e p h q c far s k f o z =
      ground (arith, f.proper h, Links-occurs t q (child (opposite e) (t.nodes q)) far f.around.4)

  pub way_lem :
      (t : RedBlackTree K V) (e : Direction) (p h q : Handle) (c : ℕ) (far s : Shape) (k : Context)
      → Focus t p h (down e q c far k) s
      → 1 ≤ occurs h s
      → way t h p ≡ e
  way_lem t leftward p h q c far s k f o = ground (arith, f.around)
  way_lem t rightward p h q c far s k f o =
      ground (arith, f.around, other_child t rightward p h q c far s k f o)

  pub straighten_straight :
      (t : RedBlackTree K V) (e : Direction) (p h q : Handle) (c : ℕ) (far s : Shape) (k : Context)
      → Focus t p h (down e q c far k) s
      → 1 ≤ occurs h s
      → straighten e h p t ≡ (h, t)
  unfolding straighten
  straighten_straight t e p h q c far s k f o =
      let ne = other_child t e p h q c far s k f o in
      let test : (h == child_of (opposite e) t p) ≡ false = ground (arith, f.around) in rw test

  pub straighten_turned :
      (t : RedBlackTree K V) (e : Direction) (p h q : Handle) (c : ℕ) (far s : Shape) (k : Context)
      → Focus t p h (down (opposite e) q c far k) s
      → straighten e h p t ≡ (q, rotate e q t)
  unfolding straighten rotate
  straighten_turned t e p h q c far s k f =
      let at : child (opposite e) (t.nodes q) ≡ h = f.around.3 in
      let test : (h == child_of (opposite e) t p) ≡ true = ground (arith, f.around) in
      rw (test, f.around.0)

  pub parent_of_lem :
      (t : RedBlackTree K V) (p h : Handle) (s : Shape)
      → Links t p h s
      → h ≢ nil
      → parent_of t h ≡ p
  parent_of_lem t p h leaf l n = absurd (n l)
  parent_of_lem t p h (fork c a x b) l n = ground arith

  lift_lem :
      (e : Direction) (t : RedBlackTree K V) (z q g : Handle)
      → parent_of t z ≡ q
      → parent_of (set_color q black t) q ≡ g
      → lift e z t ≡ rotate (opposite e) g (set_color g red (set_color q black t))
  unfolding lift
  lift_lem e t z q g a b =
      ap
        (λ (p : Handle).
          let t1 = set_color p black t in
          rotate (opposite e) (parent_of t1 p) (set_color (parent_of t1 p) red t1))
        a
      ∙ ap (λ (h : Handle). rotate (opposite e) h (set_color h red (set_color q black t))) b

  turned :
      (e : Direction) (u : RedBlackTree K V) (p q g : Handle) (s far uncle : Shape) (k : Context)
      → Focus u p g k (bend e red (bend e black s q far) g uncle)
      → Focus
          (rotate (opposite e) g u)
          p
          q
          k
          (bend (opposite e) black (bend (opposite e) red uncle g far) q s)
  turned leftward u p q g s far uncle k f = rotate-Focus rightward u p g q k red black uncle far s f
  turned rightward u p q g s far uncle k f = rotate-Focus leftward u p g q k red black uncle far s f

  turned-kept :
      (e : Direction) (u : RedBlackTree K V) (p q g : Handle) (s far uncle : Shape) (k : Context)
      → Focus u p g k (bend e red (bend e black s q far) g uncle)
      → (j : ℕ) → occurs j (bend e red (bend e black s q far) g uncle) + occurs_around j k ≡ 0
      → j ≢ nil
      → (rotate (opposite e) g u).nodes j ≡ u.nodes j
  turned-kept leftward u p q g s far uncle k f =
      rotate-kept rightward u p g q k red black uncle far s f
  turned-kept rightward u p q g s far uncle k f =
      rotate-kept leftward u p g q k red black uncle far s f

  -- The grandparent made red over a black parent, ready to turn.
  lift_ready :
      (e : Direction) (t : RedBlackTree K V) (p z q g : Handle) (s far uncle : Shape) (k : Context)
      → Focus t p z (down e q red far (down e g black uncle k)) s
      → z ≢ nil
      → (pp : Handle) × Focus
          (set_color g red (set_color q black t))
          pp
          g
          k
          (bend e red (bend e black s q far) g uncle)
        × (lift e z t ≡ rotate (opposite e) g (set_color g red (set_color q black t)))
  lift_ready e t p z q g s far uncle k f n =
      let f1 = zoom_out t e p z q red far s (down e g black uncle k) f in
      let f2 = paint-bend e t (t.nodes q).parent q q red black s far (down e g black uncle k) f1 in
      let t1 = set_color q black t in
      let f3 = zoom_out t1 e (t.nodes q).parent q g black uncle (bend e black s q far) k f2 in
      let f4 =
        paint-bend e t1 (t1.nodes g).parent g g black red (bend e black s q far) uncle k f3 in
      let ep : parent_of t z ≡ q = parent_of_lem t p z s f.links n ∙ f.around.0 in
      let eg : parent_of t1 q ≡ g =
        parent_of_lem t1 (t.nodes q).parent q (bend e black s q far) f2.links
          (omega (arith, f.around.1))
        ∙ f2.around.0 in
      ((t1.nodes g).parent, f4, lift_lem e t z q g ep eg)

  -- Case 3: the zig-zig under a black grandparent.
  pub lift-Focus :
      (e : Direction) (t : RedBlackTree K V) (p z q g : Handle) (s far uncle : Shape) (k : Context)
      → Focus t p z (down e q red far (down e g black uncle k)) s
      → z ≢ nil
      → (pp : Handle) × Focus
          (lift e z t)
          pp
          q
          k
          (bend (opposite e) black (bend (opposite e) red uncle g far) q s)
  lift-Focus e t p z q g s far uncle k f n =
      let (pp, v, eq) = lift_ready e t p z q g s far uncle k f n in
      (pp, rw eq (turned e (set_color g red (set_color q black t)) pp q g s far uncle k v))

  pub lift-Kept :
      (e : Direction) (t : RedBlackTree K V) (p z q g : Handle) (s far uncle : Shape) (k : Context)
      → Focus t p z (down e q red far (down e g black uncle k)) s
      → z ≢ nil
      → Kept t (lift e z t) (plug (down e q red far (down e g black uncle k)) s)
  lift-Kept e t p z q g s far uncle k f n j o nj =
      let (pp, v, eq) = lift_ready e t p z q g s far uncle k f n in
      let t1 = set_color q black t in
      let none_here : occurs j (bend e black (bend e red s q far) g uncle) + occurs_around j k ≡ 0 =
        omega (arith, o, occurs-plug k (bend e black (bend e red s q far) g uncle) j) in
      let parts = omega_parts e s far uncle q g j (occurs_around j k) none_here in
      ap (λ u. u.nodes j) eq
      ∙ turned-kept e (set_color g red t1) pp q g s far uncle k v j parts.0 nj
      ∙ set_color-other g red j t1 parts.1
      ∙ set_color-other q black j t parts.2
    where
      omega_parts :
          (e : Direction) (s far uncle : Shape) (q g j n : ℕ)
          → occurs j (bend e black (bend e red s q far) g uncle) + n ≡ 0
          → (occurs j (bend e red (bend e black s q far) g uncle) + n ≡ 0) × (g ≢ j) × (q ≢ j)
      omega_parts leftward s far uncle q g j n h = (h, (λ e. ground arith), (λ e. ground arith))
      omega_parts rightward s far uncle q g j n h = (h, (λ e. ground arith), (λ e. ground arith))

  pub lift-SameData : (e : Direction) (z : Handle) (t : RedBlackTree K V) → SameData t (lift e z t)
  unfolding lift
  lift-SameData e z t =
      let p = parent_of t z in
      let t1 = set_color p black t in
      let g = parent_of t1 p in
      let t2 = set_color g red t1 in
      same_trans (set_color-SameData p black t)
        (same_trans (set_color-SameData g red t1) (rotate-SameData (opposite e) g t2))

  -- Case 2: the zig-zag, which leaves a zig-zig with the former parent in focus.
  pub zigzag :
      (e : Direction) (t : RedBlackTree K V) (p z q : Handle) (l r far : Shape) (k : Context)
      → Focus t p z (down (opposite e) q red far k) (fork red l z r)
      → (near : Shape) × (rest : Shape) × Focus
          (rotate e q t)
          z
          (child e ((rotate e q t).nodes z))
          (down e z red rest k)
          (bend e red far q near)
        × (bend e red near z rest ≡ fork red l z r)
  zigzag leftward t p z q l r far k f =
      let f1 = zoom_out t rightward p z q red far (fork red l z r) k f in
      let f2 = rotate-Focus leftward t (t.nodes q).parent q z k red red far l r f1 in
      (
        l,
        r,
        zoom_in (rotate leftward q t) leftward (t.nodes q).parent z z red r (fork red far q l) k f2,
        refl,
      )
  zigzag rightward t p z q l r far k f =
      let f1 = zoom_out t leftward p z q red far (fork red l z r) k f in
      let f2 = rotate-Focus rightward t (t.nodes q).parent q z k red red far r l f1 in
      (
        r,
        l,
        zoom_in (rotate rightward q t) rightward (t.nodes q).parent z z red l (fork red r q far) k
            f2,
        refl,
      )

  pub zigzag-Kept :
      (e : Direction) (t : RedBlackTree K V) (p z q : Handle) (l r far : Shape) (k : Context)
      → Focus t p z (down (opposite e) q red far k) (fork red l z r)
      → Kept t (rotate e q t) (plug (down (opposite e) q red far k) (fork red l z r))
  zigzag-Kept leftward t p z q l r far k f j o n =
      rotate-kept leftward t (t.nodes q).parent q z k red red far l r
        (zoom_out t rightward p z q red far (fork red l z r) k f) j
        (sym (occurs-plug k (fork red far q (fork red l z r)) j) ∙ o) n
  zigzag-Kept rightward t p z q l r far k f j o n =
      rotate-kept rightward t (t.nodes q).parent q z k red red far r l
        (zoom_out t leftward p z q red far (fork red l z r) k f) j
        (sym (occurs-plug k (fork red (fork red l z r) q far) j) ∙ o) n
