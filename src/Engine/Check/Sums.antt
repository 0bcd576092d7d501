-- ===== src/Engine/Check/Sums.antt =====
-- crates/clob-engine/src/market/mod.rs: sums over the seats of sums over the orders.
use clob_dex.Prelude.{
  ℕ, ◌+◌, ◌≡◌, ◌≢◌, refl, sym, ◌∙◌, none, some, List, [], ◌∷◌, ◌==◌, if◌then◌else◌, All, All-imp,
  sum_by, ==_iff, Bool-cases, inl, inr, arith,
}
use clob_dex.Tree.{value_at, Distinct}
use clob_dex.Book.{BookEntry}
use clob_dex.Engine.Conserved.{SeatEntry, owner, Owned}

sum_by-plus :
    {A : Type 0} (f g : A → ℕ) (xs : List A)
    → sum_by (λ x. f x + g x) xs ≡ sum_by f xs + sum_by g xs
sum_by-plus f g [] = omega arith
sum_by-plus f g (x ∷ xs) = omega (arith, sum_by-plus f g xs)

pub sum_by-same :
    {A : Type 0} (f g : A → ℕ) (xs : List A) → All (λ x. f x ≡ g x) xs → sum_by f xs ≡ sum_by g xs
sum_by-same f g [] a = refl
sum_by-same f g (x ∷ xs) a = omega (arith, a.0, sum_by-same f g xs a.1)

deeper :
    (e : SeatEntry) (es fs : List SeatEntry)
    → All (λ f. f.handle ≢ e.handle) fs
    → All (λ f. value_at f.handle es ≡ some f.value) fs
    → All (λ f. value_at f.handle (e ∷ es) ≡ some f.value) fs
deeper e es [] a b = tt
deeper e es (f ∷ fs) a b = (ground (arith, a.0, b.0), deeper e es fs a.1 b.1)

-- The seats of a table by their own handles.
pub seats_live :
    (es : List SeatEntry) → Distinct es → All (λ e. value_at e.handle es ≡ some e.value) es
seats_live [] d = tt
seats_live (e ∷ es) d = (ground arith, deeper e es es d.0 (seats_live es d.1))

absent_share :
    (h n : ℕ) (es : List SeatEntry)
    → All (λ f. f.handle ≢ h) es
    → sum_by (λ e. if h == e.handle then n else 0) es ≡ 0
absent_share h n [] a = refl
absent_share h n (e ∷ es) a = ground (arith, a.0, absent_share h n es a.1)

-- What an order locks is counted at one seat.
one_share :
    (h n : ℕ) (es : List SeatEntry)
    → Distinct es
    → value_at h es ≢ none
    → sum_by (λ e. if h == e.handle then n else 0) es ≡ n
one_share h n [] d p = absurd (p refl)
one_share h n (e ∷ es) d p = elim (Bool-cases (e.handle == h)) [
  | inl own ↦
      let same : e.handle ≡ h = (==_iff e.handle h).0 own in
      let gone = absent_share h n es (All-imp (λ f q r. q (r ∙ sym same)) es d.0) in
      ground (arith, same, gone)
  | inr other ↦
      let away : e.handle ≢ h = λ q. ground (arith, (==_iff e.handle h).1 q, other) in
      let deep : value_at h es ≢ none = λ q. p (rw other q) in
      ground (arith, away, one_share h n es d.1 deep)
]

pub shares :
    (w : BookEntry → ℕ) (es : List SeatEntry) (os : List BookEntry)
    → Distinct es
    → Owned es os
    → sum_by (λ e. sum_by (λ o. if owner o.value == e.handle then w o else 0) os) es ≡ sum_by w os
shares w es [] d o = nothing es
  where
    nothing : (es : List SeatEntry) → sum_by (λ e. 0) es ≡ 0
    nothing [] = refl
    nothing (e ∷ es) = omega (arith, nothing es)
shares w es (o ∷ os) d p =
    sum_by-plus (λ e. if owner o.value == e.handle then w o else 0)
      (λ e. sum_by (λ o. if owner o.value == e.handle then w o else 0) os) es
    ∙ omega (arith, one_share (owner o.value) (w o) es d p.0, shares w es os d p.1)
