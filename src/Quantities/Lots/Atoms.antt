-- ===== src/Quantities/Lots/Atoms.antt =====
-- crates/clob-book/src/quantities/lots.rs: lots to atoms and back, and `validate`.
use native.Mathlib.Nat.{mul-div_cancel, div-mul-le_self, lt-div-mul-add}
use mathlib.Core.Option.{map}
use clob_dex.Prelude.{
  ℕ, ◌+◌, ◌*◌, ◌/◌, ◌%◌, ◌≤◌, ◌<◌, ◌≡◌, ◌↔◌, refl, ap, none, some, leb, if◌then◌else◌, Bool-cases,
  inl, inr, arith,
}
use clob_dex.Quantities.{u64_max, checked_mul}
use clob_dex.Quantities.Lots.{
  LotConfig, validate, base_atoms, quote_atoms, base_lots_from_atoms, quote_lots_from_atoms,
}

-- `validate` accepts exactly the configurations whose four parameters are positive and whose tick
-- size is divisible by the base lots of a base unit.
pub validate_iff :
    (c : LotConfig)
    → (validate c ≡ none) ↔ (
        (0 < c.base_lots_per_base_unit)
        × (0 < c.tick_size_in_quote_lots_per_base_unit)
        × (0 < c.base_atoms_per_base_lot)
        × (0 < c.quote_atoms_per_quote_lot)
        × (c.tick_size_in_quote_lots_per_base_unit % c.base_lots_per_base_unit ≡ 0))
unfolding validate
validate_iff c = (λ h. ground arith, λ h. ground arith)

-- A product that fits in a u64, and its factor back.
scaled_back :
    (per lots : ℕ)
    → 0 < per
    → map (λ b. b / per) (checked_mul lots per)
      ≡ (if leb (lots * per) u64_max then some lots else none)
unfolding checked_mul
scaled_back per lots p = elim (Bool-cases (leb (lots * per) u64_max)) [
  | inl fits ↦ rw fits (ap some (mul-div_cancel lots p))
  | inr over ↦ rw over refl
]

dust :
    (per atoms : ℕ)
    → 0 < per
    → atoms ≤ u64_max
    → (b : ℕ) × (checked_mul (atoms / per) per ≡ some b) × (b ≤ atoms) × (atoms < b + per)
unfolding checked_mul
dust per atoms p a =
    let low = div-mul-le_self atoms per in
    (atoms / per * per, ground (arith, low, a), low, lt-div-mul-add p)

-- In a validated configuration, for base and for quote each: lots converted to atoms and back come
-- back, exactly where their atoms fit in a u64, and else the conversion answers nothing; and u64
-- atoms converted to lots and back always answer, at most the atoms and less than one lot below
-- them.
pub lots_from_atoms-atoms :
    (c : LotConfig) (lots atoms : ℕ)
    → validate c ≡ none
    → atoms ≤ u64_max
    → (map (base_lots_from_atoms c) (base_atoms c lots)
        ≡ (if leb (lots * c.base_atoms_per_base_lot) u64_max then some lots else none))
      × (map (quote_lots_from_atoms c) (quote_atoms c lots)
          ≡ (if leb (lots * c.quote_atoms_per_quote_lot) u64_max then some lots else none))
      × ((b : ℕ) × (base_atoms c (base_lots_from_atoms c atoms) ≡ some b)
          × (b ≤ atoms)
          × (atoms < b + c.base_atoms_per_base_lot))
      × ((q : ℕ) × (quote_atoms c (quote_lots_from_atoms c atoms) ≡ some q)
          × (q ≤ atoms)
          × (atoms < q + c.quote_atoms_per_quote_lot))
unfolding base_atoms quote_atoms base_lots_from_atoms quote_lots_from_atoms
lots_from_atoms-atoms c lots atoms v a =
    let ok = (validate_iff c).0 v in
    (
      scaled_back c.base_atoms_per_base_lot lots ok.2,
      scaled_back c.quote_atoms_per_quote_lot lots ok.3,
      dust c.base_atoms_per_base_lot atoms ok.2 a,
      dust c.quote_atoms_per_quote_lot atoms ok.3 a,
    )
