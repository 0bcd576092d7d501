-- ===== src/Engine/Conserved/TwoSeats.antt =====
-- crates/clob-engine/src/trader/table.rs: two seats written, one after the other.
use clob_dex.Prelude.{◌+◌, ◌≡◌, ◌≢◌, none, some, List, ◌==◌, if◌then◌else◌, arith}
use clob_dex.Tree.{value_at, set_at}
use clob_dex.Tree.Entries.{sum_by-set_at, value_at-set_at}
use clob_dex.Book.{BookEntry}
use clob_dex.Engine.Trader.{TraderState}
use clob_dex.Engine.Seats.{SeatIndex}
use clob_dex.Engine.Conserved.{SeatEntry, base_of, quote_of, total_base, total_quote, Owned}
use clob_dex.Engine.Conserved.OneSeat.{Owned-set_at, claimed-set_at}

-- Two seats written, one after the other.
module _ (es : List SeatEntry) (h g : SeatIndex) (m m' k k' : TraderState) (distinct : h ≢ g)
    (at_h : value_at h es ≡ some m) (at_g : value_at g es ≡ some k) where
  abbrev pub both : List SeatEntry
  both = set_at g k' (set_at h m' es)

  pub at_g_after : value_at g (set_at h m' es) ≡ some k
  at_g_after = ground (arith, value_at-set_at h g m m' es at_h)

  pub value_at-both :
      (j : SeatIndex)
      → value_at j both ≡ (if g == j then some k' else if h == j then some m' else value_at j es)
  value_at-both j = ground (
    arith,
    value_at-set_at g j k k' (set_at h m' es) at_g_after,
    value_at-set_at h j m m' es at_h,
  )

  pub total_base-both :
      total_base both + base_of m + base_of k ≡ total_base es + base_of m' + base_of k'
  total_base-both = omega (
    arith,
    sum_by-set_at base_of g k k' (set_at h m' es) at_g_after,
    sum_by-set_at base_of h m m' es at_h,
  )

  pub total_quote-both :
      total_quote both + quote_of m + quote_of k ≡ total_quote es + quote_of m' + quote_of k'
  total_quote-both = omega (
    arith,
    sum_by-set_at quote_of g k k' (set_at h m' es) at_g_after,
    sum_by-set_at quote_of h m m' es at_h,
  )

  pub Owned-both : (os : List BookEntry) → Owned es os → Owned both os
  Owned-both os o = Owned-set_at g k k' _ os at_g_after (Owned-set_at h m m' es os at_h o)

  pub claimed-both : (j : SeatIndex) → value_at j es ≢ none → value_at j both ≢ none
  claimed-both j n = claimed-set_at g k k' _ j at_g_after (claimed-set_at h m m' es j at_h n)
