-- ===== src/Engine/Check/Totals.antt =====
-- crates/clob-engine/src/market/mod.rs: the running totals over the seats are exact where they fit in a u64.
use clob_dex.Prelude.{ℕ, ◌+◌, ◌≤◌, ◌≡◌, ap, ◌∙◌, List, [], ◌∷◌, sum_by, arith}
use clob_dex.Quantities.{u64_max, saturating_add}
use clob_dex.Engine.Trader.{TraderState, total_base_lots, total_quote_lots}
use clob_dex.Engine.Check.{SeatTotals, seat_loop}
use clob_dex.Engine.Conserved.{SeatEntry, base_of, quote_of, total_base, total_quote}

pub saturating_add_exact : (a b : ℕ) → a + b ≤ u64_max → saturating_add a b ≡ a + b
unfolding saturating_add
saturating_add_exact a b h = ground (arith, h)

abbrev pub seats_locked : (TraderState → ℕ) → List SeatEntry → ℕ
seats_locked f es = sum_by (λ e. f e.value) es

-- The totals with the seats counted in, where no sum is cut off.
abbrev pub totals_with : SeatTotals → List SeatEntry → SeatTotals
totals_with s es = record {
  base_total = s.base_total + total_base es;
  quote_total = s.quote_total + total_quote es;
  base_locked = s.base_locked + seats_locked (λ st. st.base_lots_locked) es;
  quote_locked = s.quote_locked + seats_locked (λ st. st.quote_lots_locked) es;
}

totals_same :
    (a b : SeatTotals)
    → a.base_total ≡ b.base_total
    → a.quote_total ≡ b.quote_total
    → a.base_locked ≡ b.base_locked
    → a.quote_locked ≡ b.quote_locked
    → a ≡ b
totals_same a b p q r s =
    λ i. record { base_total = p i; quote_total = q i; base_locked = r i; quote_locked = s i }

-- Whether every total fits in a u64.
abbrev pub Fits : SeatTotals → Type 0
Fits s =
    (s.base_total ≤ u64_max)
    × (s.quote_total ≤ u64_max)
    × (s.base_locked ≤ u64_max)
    × (s.quote_locked ≤ u64_max)

pub seat_loop_exact :
    (s : SeatTotals) (es : List SeatEntry)
    → Fits (totals_with s es)
    → seat_loop s es ≡ totals_with s es
unfolding seat_loop total_base_lots total_quote_lots
seat_loop_exact s [] f =
    totals_same s (totals_with s []) (omega arith) (omega arith) (omega arith) (omega arith)
seat_loop_exact s (e ∷ es) f =
    let st = e.value in
    let next : SeatTotals = record {
      base_total = s.base_total + base_of st;
      quote_total = s.quote_total + quote_of st;
      base_locked = s.base_locked + st.base_lots_locked;
      quote_locked = s.quote_locked + st.quote_lots_locked;
    } in
    let base = saturating_add_exact st.base_lots_free st.base_lots_locked (omega arith) in
    let quote = saturating_add_exact st.quote_lots_free st.quote_lots_locked (omega arith) in
    let moved =
      totals_same
        (record {
          base_total =
              saturating_add s.base_total (saturating_add st.base_lots_free st.base_lots_locked);
          quote_total =
              saturating_add s.quote_total (saturating_add st.quote_lots_free st.quote_lots_locked);
          base_locked = saturating_add s.base_locked st.base_lots_locked;
          quote_locked = saturating_add s.quote_locked st.quote_lots_locked;
        })
        next
        (ap (saturating_add s.base_total) base
          ∙ saturating_add_exact s.base_total (base_of st) (omega arith))
        (ap (saturating_add s.quote_total) quote
          ∙ saturating_add_exact s.quote_total (quote_of st) (omega arith))
        (saturating_add_exact s.base_locked st.base_lots_locked (omega arith))
        (saturating_add_exact s.quote_locked st.quote_lots_locked (omega arith)) in
    ap (λ x. seat_loop x es) moved
    ∙ seat_loop_exact next es (omega arith, omega arith, omega arith, omega arith)
    ∙ totals_same (totals_with next es) (totals_with s (e ∷ es)) (omega arith) (omega arith)
        (omega arith) (omega arith)

pub locked-le :
    (es : List SeatEntry)
    → (seats_locked (λ st. st.base_lots_locked) es ≤ total_base es)
      × (seats_locked (λ st. st.quote_lots_locked) es ≤ total_quote es)
locked-le [] = (omega arith, omega arith)
locked-le (e ∷ es) = let r = locked-le es in (omega (arith, r.0), omega (arith, r.1))
