-- ===== src/Engine/Seats.antt =====
-- crates/clob-engine/src/trader/key.rs and table.rs: trader identities and the seat table.
pub mod Keys
pub mod Claim
use Prim.Native.Nat.{compare, Ordering}
use Prim.Native.Nat.Ordering.{lt, eq, gt}
use clob_dex.Prelude.{
  ℕ, ◌%◌, ◌^◌, Bool, not, Option, none, some, List, [], ◌∷◌, map, ◌==◌, if◌then◌else◌,
}
use clob_dex.Tree.{Entry, Handle, nil, OrderedTree}
use clob_dex.Tree.Keyed.{is_full}
use clob_dex.Engine.Error.{
  EngineError, Result, ok, err, ◌>>=◌, ◌>>◌, ok_or, fail_if, seat_table_full, seat_not_found,
  seat_not_empty,
}
use clob_dex.Engine.Trader.{TraderState, no_funds, has_nothing}

-- `TraderKey([u8; 32])`, its bytes in order.
pub record TraderKey : Type 0 where
  pub bytes : List ℕ

abbrev pub compare_bytes : List ℕ → List ℕ → Ordering
compare_bytes [] [] = eq
compare_bytes [] (b ∷ bs) = lt
compare_bytes (a ∷ as') [] = gt
compare_bytes (a ∷ as') (b ∷ bs) = elim (compare a b) [
  | lt ↦ lt
  | eq ↦ compare_bytes as' bs
  | gt ↦ gt
]

-- The derived `Ord`: lexicographic over the bytes.
abbrev pub compare_key : TraderKey → TraderKey → Ordering
compare_key a b = compare_bytes a.bytes b.bytes

abbrev pub SeatIndex : Type 0
SeatIndex = Handle

abbrev pub no_seat : SeatIndex
no_seat = nil

-- `x as SeatIndex` for a u64.
abbrev pub as_seat : ℕ → SeatIndex
as_seat x = x % 2 ^ 32

-- The interface at which the table uses its tree.
abbrev pub SeatTree : Type 0 → Type 0
SeatTree U = OrderedTree U TraderKey TraderState compare_key

module _ {U : Type 0} (u : SeatTree U) where
  unfoldable pub claim_seat : U → TraderKey → Result (SeatIndex × U)
  claim_seat s key =
      let existing = u.find s key in
      if not (existing == no_seat)
      then ok (existing, s)
      else ok_or (u.insert s key no_funds) seat_table_full

  unfoldable pub state : U → SeatIndex → Result TraderState
  state s index = ok_or (u.get_by_handle s index) seat_not_found

  -- `*table.state_mut(index)? = new`
  unfoldable pub set_state : U → SeatIndex → TraderState → Result U
  set_state s index new =
      if index == no_seat then err seat_not_found else ok (u.set_by_handle s index new)

  unfoldable pub release_seat : U → TraderKey → Result U
  unfolding state
  release_seat s key = do
    let index = u.find s key
    fail_if (index == no_seat) seat_not_found
    st ← state s index
    fail_if (not (has_nothing st)) seat_not_empty
    ok (u.remove_handle s index).1

  unfoldable pub index_of : U → TraderKey → SeatIndex
  index_of s key = u.find s key

  -- `iter_indexed`
  unfoldable pub iter_indexed : U → List (SeatIndex × TraderKey × TraderState)
  iter_indexed s = map (λ e. (e.handle, e.key, e.value)) (u.entries s)
