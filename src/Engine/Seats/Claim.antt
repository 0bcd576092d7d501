-- ===== src/Engine/Seats/Claim.antt =====
-- crates/clob-engine/src/trader/table.rs: claiming and releasing a seat, on the entries.
use Prim.Native.Nat.{Ordering}
use clob_dex.Prelude.{
  ◌≤◌, ◌<◌, length, false, ◌≡◌, ◌≢◌, refl, sym, ap, ◌∙◌, true, not, some, List, [], ◌∷◌, ◌⊎◌, ◌==◌,
  ==_iff, if◌then◌else◌, All, arith, inl, inr, Option-cases, Bool-cases,
}
use clob_dex.Tree.{Entry, Handle, nil, value_at, drop_at, insert_entry, Distinct}
use clob_dex.Tree.Entries.{value_of}
use clob_dex.Tree.Keys.{find_key-none, find_key_absent, value_at-find_key}
use clob_dex.Tree.Keyed.{is_full, insert_absent}
use clob_dex.Engine.Error.{
  ok, err, >>=-eq-ok, fail_if-eq-ok, seat_table_full, seat_not_found, seat_not_empty,
}
use clob_dex.Engine.Trader.{TraderState, no_funds, has_nothing}
use clob_dex.Engine.Trader.Laws.{has_nothing_iff}
use clob_dex.Engine.Seats.{
  SeatTree, SeatIndex, TraderKey, compare_key, claim_seat, release_seat, index_of, state,
}

module _ {K V : Type 0} (cmp : K → K → Ordering) where
  insert_entry-All_inv :
      (P : Entry K V → Type 0) (n : Entry K V) (es : List (Entry K V))
      → All P (insert_entry cmp n es)
      → P n × All P es
  insert_entry-All_inv P n [] a = a
  insert_entry-All_inv P n (e ∷ es) a = ground (arith, insert_entry-All_inv P n es)

  pub insert_entry-apart :
      (n : Entry K V) (es : List (Entry K V))
      → Distinct (insert_entry cmp n es)
      → All (λ f. f.handle ≢ n.handle) es
  insert_entry-apart n [] d = tt
  insert_entry-apart n (e ∷ es) d =
      ground (arith, insert_entry-All_inv (λ f. f.handle ≢ e.handle) n es, insert_entry-apart n es)

  -- Where no entry is in its slot, a filed entry is read there, and every other slot reads as before.
  pub value_at-insert_entry :
      (n : Entry K V) (es : List (Entry K V)) (j : Handle)
      → All (λ f. f.handle ≢ n.handle) es
      → value_at j (insert_entry cmp n es) ≡ (if n.handle == j then some n.value else value_at j es)
  value_at-insert_entry n [] j a = refl
  value_at-insert_entry n (e ∷ es) j a = ground (arith, value_at-insert_entry n es j a.1)

module _ {U : Type 0} (u : SeatTree U) where
  -- A claim of a key that has a seat answers that seat and changes nothing. Any other claim is
  -- refused, with the error for it, only by a table that is full, with as many seats as its
  -- capacity; and it gives the key an empty seat at its place in order only in a table that is not
  -- full, with fewer seats than its capacity.
  pub claim_seat_lem :
      (s : U) (key : TraderKey)
      → ((index_of u s key ≢ nil) × (claim_seat u s key ≡ ok (index_of u s key, s)))
        ⊎ (((index_of u s key ≡ nil)
              × (is_full u s ≡ true)
              × (u.capacity s ≤ length (u.entries s))
              × (claim_seat u s key ≡ err seat_table_full))
            ⊎ ((h : SeatIndex) × (s' : U) × (index_of u s key ≡ nil)
                × (is_full u s ≡ false)
                × (length (u.entries s) < u.capacity s)
                × (claim_seat u s key ≡ ok (h, s'))
                × (u.entries s'
                    ≡ insert_entry compare_key
                        (record { handle = h; key = key; value = no_funds })
                        (u.entries s))))
  unfolding claim_seat index_of is_full
  claim_seat_lem s key = elim (Bool-cases (u.find s key == nil)) [
    | inr found ↦ inl (λ q. ground (arith, (==_iff (u.find s key) nil).1 q), ground arith)
    | inl absent ↦
        let none_there : u.find s key ≡ nil = (==_iff (u.find s key) nil).0 absent in
        let gone =
          find_key-none compare_key key (u.entries s) (u.well_formed s).live
            (sym (u.find_lem s key) ∙ none_there) in
        elim (insert_absent u s key no_funds gone) [
          | inl (full, e) ↦
              inr (inl (none_there, full, ground (arith, full, u.len_lem s), ground arith))
          | inr (h, s', room, e, grown, cap) ↦ inr (
              inr (h, s', none_there, room, ground (arith, room, u.len_lem s), ground arith, grown))
        ]
  ]

  -- A key with an index has balances at it.
  pub index_of-live :
      (s : U) (key : TraderKey)
      → index_of u s key ≢ nil
      → (st : TraderState) × (value_at (index_of u s key) (u.entries s) ≡ some st)
  unfolding index_of
  index_of-live s key n = elim (Option-cases (value_of compare_key key (u.entries s))) [
    | inl absent ↦
        absurd (n (u.find_lem s key ∙ find_key_absent compare_key key (u.entries s) absent))
    | inr (st, e) ↦ (
      st,
      ap (λ h. value_at h (u.entries s)) (u.find_lem s key)
          ∙ value_at-find_key compare_key key st (u.entries s) (u.well_formed s).distinct e,
    )
  ]

  -- A release that succeeds removes a seat that holds nothing, and that seat alone.
  pub release_seat_lem :
      (s : U) {s' : U} (key : TraderKey)
      → release_seat u s key ≡ ok s'
      → (value_at (index_of u s key) (u.entries s) ≡ some no_funds)
        × (u.entries s' ≡ drop_at (index_of u s key) (u.entries s))
  unfolding release_seat index_of state
  release_seat_lem s {s'} key e =
      let h = u.find s key in
      let (known, e₁) = fail_if-eq-ok (h == nil) seat_not_found _ e in
      let (st, e₂, e₃) = >>=-eq-ok (state u s h) _ e₁ in
      let (empty, e₄) = fail_if-eq-ok (not (has_nothing st)) seat_not_empty _ e₃ in
      let (st', there) = index_of-live s key (λ q. ground (arith, (==_iff h nil).1 q)) in
      let same : st ≡ st' = ground (arith, u.get_live s h st' there) in
      let none_held : st' ≡ no_funds = sym same ∙ (has_nothing_iff st).0 (ground arith) in
      let gone : (u.remove_handle s h).1 ≡ s' = ground arith in
      (there ∙ ap some none_held, ap u.entries (sym gone) ∙ u.entries-remove s h st' there)
