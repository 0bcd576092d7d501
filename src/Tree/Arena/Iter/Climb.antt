-- ===== src/Tree/Arena/Iter/Climb.antt =====
-- crates/clob-book/src/tree/mod.rs: the climb of `successor` and `predecessor` to the first ancestor on
-- the other side.
use clob_dex.Prelude.{ℕ, zero, suc, ◌≤◌, ◌≡◌, ◌≢◌, refl, sym, ap, ◌∙◌, List, [], ◌∷◌, ◌++◌, arith}
use mathlib.Core.List.{append_assoc}
use clob_dex.Tree.{Handle, nil}
use clob_dex.Tree.Arena.{Direction, leftward, rightward, opposite, RedBlackTree, child, climb}
use clob_dex.Tree.Arena.Shape.{Shape, Context, top, down, bend, inorder, depth, Links-occurs}
use clob_dex.Tree.Arena.Focus.{Focus}
use clob_dex.Tree.Arena.Zoom.{zoom_out}
use clob_dex.Tree.Arena.Sound.{before, after}

-- The ends of a list of handles, `nil` where it is empty.
abbrev pub head : List Handle → Handle
head [] = nil
head (h ∷ hs) = h

abbrev pub final : List Handle → Handle
final [] = nil
final (h ∷ []) = h
final (h ∷ j ∷ hs) = final (j ∷ hs)

pub final-snoc : (hs : List Handle) (h : Handle) → final (hs ++ h ∷ []) ≡ h
final-snoc [] h = refl
final-snoc (x ∷ []) h = refl
final-snoc (x ∷ y ∷ hs) h = final-snoc (y ∷ hs) h

pub final-append : (hs js : List Handle) (j : Handle) → final (hs ++ j ∷ js) ≡ final (j ∷ js)
final-append [] js j = refl
final-append (x ∷ []) js j = refl
final-append (x ∷ y ∷ hs) js j = final-append (y ∷ hs) js j

-- The first ancestor from which the hole is not on the side `d`.
abbrev pub beyond : Direction → Context → Handle
beyond d top = nil
beyond rightward (down rightward q c far k) = beyond rightward k
beyond rightward (down leftward q c far k) = q
beyond leftward (down leftward q c far k) = beyond leftward k
beyond leftward (down rightward q c far k) = q

pub head-after : (k : Context) → beyond rightward k ≡ head (after k)
head-after top = refl
head-after (down rightward q c far k) = head-after k
head-after (down leftward q c far k) = refl

pub final-before : (k : Context) → beyond leftward k ≡ final (before k)
final-before top = refl
final-before (down leftward q c far k) = final-before k
final-before (down rightward q c far k) =
    sym (final-snoc (before k ++ inorder far) q)
    ∙ ap final (append_assoc (before k) (inorder far) (q ∷ []))

module _ {K V : Type 0} where
  climb-root :
      (f : ℕ) (d : Direction) (t : RedBlackTree K V) (h p : Handle)
      → p ≡ nil
      → climb f d t h p ≡ nil
  unfolding climb
  climb-root zero d t h p e = e
  climb-root (suc f) d t h p e = ground arith

  climb-go :
      (f : ℕ) (d : Direction) (t : RedBlackTree K V) (h p : Handle)
      → p ≢ nil
      → child d (t.nodes p) ≡ h
      → climb (suc f) d t h p ≡ climb f d t p (t.nodes p).parent
  unfolding climb
  climb-go f d t h p n e = ground arith

  climb-stop :
      (f : ℕ) (d : Direction) (t : RedBlackTree K V) (h p : Handle)
      → p ≢ nil
      → child d (t.nodes p) ≢ h
      → climb (suc f) d t h p ≡ p
  unfolding climb
  climb-stop f d t h p n e = ground arith

  -- The node in focus is no child of its parent on the other side.
  one_side :
      (t : RedBlackTree K V) (d : Direction) (p h q : Handle) (c : ℕ) (far s : Shape) (k : Context)
      → Focus t p h (down d q c far k) s
      → h ≢ nil
      → child (opposite d) (t.nodes q) ≢ h
  one_side t d p h q c far s k w n e =
      let there =
        Links-occurs t q (child (opposite d) (t.nodes q)) far w.around.4 (λ z. n (sym e ∙ z)) in
      let here = Links-occurs t p h s w.links n in ground (arith, there, here, w.proper h, e)

  upward :
      (f : ℕ) (t : RedBlackTree K V) (d : Direction) (p h q : Handle) (c : ℕ) (far s : Shape)
      (k : Context)
      → Focus t p h (down d q c far k) s
      → climb (suc f) d t h p ≡ climb f d t q (t.nodes q).parent
  upward f t d p h q c far s k w =
      climb-go f d t h p (omega (arith, w.around.0, w.around.1))
        (ap (λ z. child d (t.nodes z)) w.around.0 ∙ w.around.3)
      ∙ ap (λ z. climb f d t z (t.nodes z).parent) w.around.0

  sideways :
      (f : ℕ) (t : RedBlackTree K V) (d : Direction) (p h q : Handle) (c : ℕ) (far s : Shape)
      (k : Context)
      → Focus t p h (down d q c far k) s
      → h ≢ nil
      → climb (suc f) (opposite d) t h p ≡ q
  sideways f t d p h q c far s k w n =
      climb-stop f (opposite d) t h p (omega (arith, w.around.0, w.around.1)) (λ e.
        one_side t d p h q c far s k w n
          (ap (λ z. child (opposite d) (t.nodes z)) (sym w.around.0) ∙ e))
      ∙ w.around.0

  pub climb_lem :
      (f : ℕ) (d : Direction) (t : RedBlackTree K V) (p h : Handle) (k : Context) (s : Shape)
      → depth k ≤ f
      → Focus t p h k s
      → h ≢ nil
      → climb f d t h p ≡ beyond d k
  climb_lem f d t p h top s m w n = climb-root f d t h p w.around.0
  climb_lem zero d t p h (down e q c far k) s m w n = absurd (omega arith)
  climb_lem (suc f) rightward t p h (down rightward q c far k) s m w n =
      upward f t rightward p h q c far s k w
      ∙ climb_lem f rightward t (t.nodes q).parent q k (bend rightward c s q far) (omega arith)
          (zoom_out t rightward p h q c far s k w) (omega (arith, w.around.1))
  climb_lem (suc f) leftward t p h (down leftward q c far k) s m w n =
      upward f t leftward p h q c far s k w
      ∙ climb_lem f leftward t (t.nodes q).parent q k (bend leftward c s q far) (omega arith)
          (zoom_out t leftward p h q c far s k w) (omega (arith, w.around.1))
  climb_lem (suc f) rightward t p h (down leftward q c far k) s m w n =
      sideways f t leftward p h q c far s k w n
  climb_lem (suc f) leftward t p h (down rightward q c far k) s m w n =
      sideways f t rightward p h q c far s k w n
