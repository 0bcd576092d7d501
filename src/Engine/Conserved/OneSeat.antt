-- ===== src/Engine/Conserved/OneSeat.antt =====
-- A write to one seat: what it does to the totals and to the owners.
use clob_dex.Prelude.{◌≡◌, ◌≢◌, refl, none, some, List, All-imp, arith}
use clob_dex.Tree.{value_at, set_at}
use clob_dex.Tree.Entries.{value_at-set_at, value_at-Live}
use clob_dex.Book.{BookEntry, BookTree}
use clob_dex.Engine.Error.{Result, ok, err}
use clob_dex.Engine.Trader.{TraderState}
use clob_dex.Engine.Seats.{SeatTree, SeatIndex, state, set_state}
use clob_dex.Engine.Market.{Market, with_state}
use clob_dex.Engine.Conserved.{SeatEntry, owner, Owned}

pub Owned-set_at :
    (h : SeatIndex) (st st' : TraderState) (es : List SeatEntry) (os : List BookEntry)
    → value_at h es ≡ some st
    → Owned es os
    → Owned (set_at h st' es) os
Owned-set_at h st st' es os p =
    All-imp (λ e q. ground (arith, value_at-set_at h (owner e.value) st st' es p)) os

-- A write to a claimed seat claims and releases none.
pub claimed-set_at :
    (h : SeatIndex) (st st' : TraderState) (es : List SeatEntry) (j : SeatIndex)
    → value_at h es ≡ some st
    → value_at j es ≢ none
    → value_at j (set_at h st' es) ≢ none
claimed-set_at h st st' es j p n = ground (arith, value_at-set_at h j st st' es p)

module _ {U : Type 0} (u : SeatTree U) where
  -- A claimed seat answers its balances.
  pub state_live :
      (s : U) (h : SeatIndex) (st : TraderState)
      → value_at h (u.entries s) ≡ some st
      → state u s h ≡ ok st
  unfolding state
  state_live s h st p = ground (arith, u.get_live s h st p)

  pub set_state_live :
      (s : U) (h : SeatIndex) (st st' : TraderState)
      → value_at h (u.entries s) ≡ some st
      → (s' : U) × (set_state u s h st' ≡ ok s') × (u.entries s' ≡ set_at h st' (u.entries s))
  unfolding set_state
  set_state_live s h st st' p =
      let pos = (value_at-Live h st (u.entries s) (u.well_formed s).live p).0 in
      (u.set_by_handle s h st', ground arith, u.entries-set s h st st' p)

  module _ {T : Type 0} (t : BookTree T) where
    -- A change at a claimed seat that succeeds writes that seat alone.
    pub with_state_lem :
        (m : Market T U) {m' : Market T U} (h : SeatIndex) (st : TraderState)
        (change : TraderState → Result TraderState)
        → value_at h (u.entries m.traders) ≡ some st
        → with_state t u m h change ≡ ok m'
        → (st' : TraderState) × (s : U) × (change st ≡ ok st')
          × (m' ≡ record m { traders = s })
          × (u.entries s ≡ set_at h st' (u.entries m.traders))
    unfolding with_state set_state
    with_state_lem m {m'} h st change p e = go (change st) refl
      where
        go :
            (r : Result TraderState)
            → change st ≡ r
            → (st' : TraderState) × (s : U) × (change st ≡ ok st')
              × (m' ≡ record m { traders = s })
              × (u.entries s ≡ set_at h st' (u.entries m.traders))
        go (err x) q = absurd (ground (arith, state_live m.traders h st p))
        go (ok st') q =
            let (s, w, grown) = set_state_live m.traders h st st' p in
            (st', s, q, ground (arith, state_live m.traders h st p), grown)
