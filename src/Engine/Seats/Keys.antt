-- ===== src/Engine/Seats/Keys.antt =====
-- crates/clob-engine/src/trader/key.rs: the order of keys is lawful.
use Prim.Native.Nat.Ordering.{lt, eq, gt}
use clob_dex.Prelude.{ℕ, ◌≡◌, refl, List, [], ◌∷◌, arith}
use clob_dex.Tree.{IsLawful}
use clob_dex.Engine.Seats.{compare_bytes, compare_key}

bytes_refl : (a : List ℕ) → compare_bytes a a ≡ eq
bytes_refl [] = refl
bytes_refl (x ∷ a) = ground (arith, bytes_refl a)

bytes_eq : (a b : List ℕ) → compare_bytes a b ≡ eq → a ≡ b
bytes_eq [] [] h = refl
bytes_eq [] (y ∷ b) h = cc
bytes_eq (x ∷ a) [] h = cc
bytes_eq (x ∷ a) (y ∷ b) h = ground (arith, bytes_eq a b)

bytes_gt : (a b : List ℕ) → compare_bytes a b ≡ gt → compare_bytes b a ≡ lt
bytes_gt [] [] h = cc
bytes_gt [] (y ∷ b) h = cc
bytes_gt (x ∷ a) [] h = refl
bytes_gt (x ∷ a) (y ∷ b) h = ground (arith, bytes_gt a b)

bytes_lt : (a b : List ℕ) → compare_bytes a b ≡ lt → compare_bytes b a ≡ gt
bytes_lt [] [] h = cc
bytes_lt [] (y ∷ b) h = refl
bytes_lt (x ∷ a) [] h = cc
bytes_lt (x ∷ a) (y ∷ b) h = ground (arith, bytes_lt a b)

bytes_trans :
    (a b c : List ℕ) → compare_bytes a b ≡ lt → compare_bytes b c ≡ lt → compare_bytes a c ≡ lt
bytes_trans [] [] c h k = cc
bytes_trans [] (y ∷ b) [] h k = cc
bytes_trans [] (y ∷ b) (z ∷ c) h k = refl
bytes_trans (x ∷ a) [] c h k = cc
bytes_trans (x ∷ a) (y ∷ b) [] h k = cc
bytes_trans (x ∷ a) (y ∷ b) (z ∷ c) h k = ground (arith, bytes_trans a b c)

pub compare_key-IsLawful : IsLawful compare_key
compare_key-IsLawful = record {
  cmp-refl = λ a. bytes_refl a.bytes;
  eq_of_cmp = λ a b h. ground (arith, bytes_eq a.bytes b.bytes);
  lt_of_gt = λ a b. bytes_gt a.bytes b.bytes;
  gt_of_lt = λ a b. bytes_lt a.bytes b.bytes;
  lt_trans = λ a b c. bytes_trans a.bytes b.bytes c.bytes;
}
