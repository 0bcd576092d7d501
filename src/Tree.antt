-- ===== src/Tree.antt =====
-- crates/clob-book/src/tree: what the fixed-capacity red-black tree promises to the book and to the
-- seat table, as operations with laws about its in-order list of entries. The book and the engine
-- are written against this interface.
pub mod Entries
pub mod Keys
pub mod Extremes
pub mod Keyed
pub mod Slots
pub mod Model
pub mod Arena
use Prim.Native.Nat.{Ordering}
use Prim.Native.Nat.Ordering.{lt, eq, gt}
use clob_dex.Prelude.{
  ℕ, ◌^◌, ◌≤◌, ◌<◌, ◌≡◌, ◌≢◌, Option, none, some, List, [], ◌∷◌, ◌==◌, if◌then◌else◌, length, All,
}

-- A handle is the slot of an entry, counted from 1; `nil` is no slot.
abbrev pub Handle : Type 0
Handle = ℕ

abbrev pub nil : Handle
nil = 0

pub record Entry (K V : Type 0) : Type 0 where
  pub handle : Handle
  pub key : K
  pub value : V

module _ {K V : Type 0} where
  -- The value in the slot `h`.
  abbrev pub value_at : Handle → List (Entry K V) → Option V
  value_at h [] = none
  value_at h (e ∷ es) = if e.handle == h then some e.value else value_at h es

  abbrev pub set_at : Handle → V → List (Entry K V) → List (Entry K V)
  set_at h v [] = []
  set_at h v (e ∷ es) = if e.handle == h then record e { value = v } ∷ es else e ∷ set_at h v es

  abbrev pub drop_at : Handle → List (Entry K V) → List (Entry K V)
  drop_at h [] = []
  drop_at h (e ∷ es) = if e.handle == h then es else e ∷ drop_at h es

  abbrev pub least : List (Entry K V) → Option (Entry K V)
  least [] = none
  least (e ∷ es) = some e

  abbrev pub greatest : List (Entry K V) → Option (Entry K V)
  greatest [] = none
  greatest (e ∷ []) = some e
  greatest (e ∷ f ∷ es) = greatest (f ∷ es)

  abbrev pub Distinct : List (Entry K V) → Type 0
  Distinct [] = Unit
  Distinct (e ∷ es) = All (λ f. f.handle ≢ e.handle) es × Distinct es

  -- A handle is a non-zero u32.
  abbrev pub Live : List (Entry K V) → Type 0
  Live es = All (λ e. (0 < e.handle) × (e.handle < 2 ^ 32)) es

module _ {K V : Type 0} (cmp : K → K → Ordering) where
  abbrev pub find_key : K → List (Entry K V) → Handle
  find_key k [] = nil
  find_key k (e ∷ es) = elim (cmp k e.key) [ eq ↦ e.handle | _ ↦ find_key k es ]

  -- A new entry goes before the first entry with a larger key.
  abbrev pub insert_entry : Entry K V → List (Entry K V) → List (Entry K V)
  insert_entry n [] = n ∷ []
  insert_entry n (e ∷ es) = elim (cmp n.key e.key) [ gt ↦ e ∷ insert_entry n es | _ ↦ n ∷ e ∷ es ]

  abbrev pub IsSorted : List (Entry K V) → Type 0
  IsSorted [] = Unit
  IsSorted (e ∷ es) = All (λ f. cmp e.key f.key ≡ lt) es × IsSorted es

  pub record IsWellFormed (es : List (Entry K V)) : Type 0 where
    pub sorted : IsSorted es
    pub distinct : Distinct es
    pub live : Live es

-- The laws that `Ord` asks of a comparison.
pub record IsLawful {K : Type 0} (cmp : K → K → Ordering) : Type 0 where
  pub lt_trans : (x y z : K) → cmp x y ≡ lt → cmp y z ≡ lt → cmp x z ≡ lt
  pub gt_of_lt : (x y : K) → cmp x y ≡ lt → cmp y x ≡ gt
  pub lt_of_gt : (x y : K) → cmp x y ≡ gt → cmp y x ≡ lt
  pub cmp-refl : (x : K) → cmp x x ≡ eq
  pub eq_of_cmp : (x y : K) → cmp x y ≡ eq → x ≡ y

-- The tree's operations that the book and the seat table call, and their laws.
pub record OrderedTree (T K V : Type 0) (cmp : K → K → Ordering) : Type 0 where
  pub entries : T → List (Entry K V)
  pub capacity : T → ℕ
  pub len : T → ℕ
  pub find : T → K → Handle
  pub get_by_handle : T → Handle → Option V
  pub set_by_handle : T → Handle → V → T
  pub insert : T → K → V → Option (Handle × T)
  pub remove_handle : T → Handle → V × T
  pub first : T → Option (Entry K V)
  pub last : T → Option (Entry K V)
  pub clear : T → T
  pub lawful : IsLawful cmp
  pub well_formed : (t : T) → IsWellFormed cmp (entries t)
  pub len_lem : (t : T) → len t ≡ length (entries t)
  pub find_lem : (t : T) (k : K) → find t k ≡ find_key cmp k (entries t)
  pub get_nil : (t : T) → get_by_handle t nil ≡ none
  pub get_live :
      (t : T) (h : Handle) (v : V) → value_at h (entries t) ≡ some v → get_by_handle t h ≡ some v
  pub entries-set :
      (t : T) (h : Handle) (v w : V)
      → value_at h (entries t) ≡ some v
      → entries (set_by_handle t h w) ≡ set_at h w (entries t)
  pub capacity-set : (t : T) (h : Handle) (w : V) → capacity (set_by_handle t h w) ≡ capacity t
  pub insert_found :
      (t : T) (k : K) (v : V)
      → find_key cmp k (entries t) ≢ nil
      → insert t k v
        ≡ some (find_key cmp k (entries t), set_by_handle t (find_key cmp k (entries t)) v)
  pub insert_full :
      (t : T) (k : K) (v : V)
      → find_key cmp k (entries t) ≡ nil
      → capacity t ≤ length (entries t)
      → insert t k v ≡ none
  pub insert_new :
      (t : T) (k : K) (v : V)
      → find_key cmp k (entries t) ≡ nil
      → length (entries t) < capacity t
      → (h : Handle) × (u : T) × (insert t k v ≡ some (h, u))
        × (entries u ≡ insert_entry cmp (record { handle = h; key = k; value = v }) (entries t))
        × (capacity u ≡ capacity t)
  pub remove_value :
      (t : T) (h : Handle) (v : V) → value_at h (entries t) ≡ some v → (remove_handle t h).0 ≡ v
  pub entries-remove :
      (t : T) (h : Handle) (v : V)
      → value_at h (entries t) ≡ some v
      → entries (remove_handle t h).1 ≡ drop_at h (entries t)
  pub capacity-remove : (t : T) (h : Handle) → capacity (remove_handle t h).1 ≡ capacity t
  pub first_lem : (t : T) → first t ≡ least (entries t)
  pub last_lem : (t : T) → last t ≡ greatest (entries t)
  pub entries-clear : (t : T) → entries (clear t) ≡ []
  pub capacity-clear : (t : T) → capacity (clear t) ≡ capacity t
