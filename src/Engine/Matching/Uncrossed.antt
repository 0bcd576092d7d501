-- ===== src/Engine/Matching/Uncrossed.antt =====
-- crates/clob-engine/src/market/matching.rs: the loop only takes size off the book.
use clob_dex.Prelude.{
  ℕ, zero, suc, ◌-◌, ◌≡◌, ◌≢◌, refl, sym, ap, subst, ◌∙◌, false, none, some, ◌==◌, arith, inl, inr,
  Option-cases, Bool-cases,
}
use clob_dex.Quantities.{is_zero, min}
use clob_dex.Order.{opposite}
use clob_dex.Tree.{value_at}
use clob_dex.Book.{BookEntry, BookTree, best, get_order, cancel}
use clob_dex.Book.Best.{get_order-best}
use clob_dex.Book.Remove.{cancel_lem}
use clob_dex.Book.Uncrossed.{Uncrossed, Leaves-Uncrossed}
use clob_dex.Engine.Error.{Result, ok, err, >>=-eq-ok}
use clob_dex.Engine.Fees.{fee_on}
use clob_dex.Engine.Seats.{SeatTree, SeatIndex}
use clob_dex.Engine.Packet.{SelfTradeBehavior, decrement_take, cancel_provide, abort}
use clob_dex.Engine.Fill.{MatchStop}
use clob_dex.Engine.Market.{Market, quote_value, unlock_backing}
use clob_dex.Engine.Matching.{
  Taker, Tally, Round, stopped, next, leave_resting, resolve_self_trade, self_trade_round,
  apply_fill, fill_round, match_round, cross_loop, settle_fill, taker_can_afford,
}
use clob_dex.Engine.Conserved.{owner, seats, Conserved}
use clob_dex.Engine.Conserved.Cross.{
  leave_resting-eq-ok, unlock_backing-book, settle_fill-book, match_round-Keeps,
}

module _ {T U : Type 0} (t : BookTree T) (u : SeatTree U) where
  leave_resting-Uncrossed :
      (m : Market T U) {m' : Market T U} (e : BookEntry) (rest : ℕ)
      → get_order t m.book e.key ≡ some e.value
      → Uncrossed t m.book
      → leave_resting t u m e.key rest ≡ ok m'
      → Uncrossed t m'.book
  leave_resting-Uncrossed m e rest h a q =
      let (b', same, l) = leave_resting-eq-ok t u m e.key e.value rest h q in
      subst (λ x. Uncrossed t x.book) (sym same)
        (Leaves-Uncrossed t m.book b' e.key e.value rest a l)

  resolve_self_trade-Uncrossed :
      (b : SelfTradeBehavior) (m m' : Market T U) (e : BookEntry) (h : SeatIndex)
      (remaining removed : ℕ)
      → get_order t m.book e.key ≡ some e.value
      → Uncrossed t m.book
      → resolve_self_trade t u b m e.key h e.value.num_base_lots remaining ≡ ok (removed, m')
      → Uncrossed t m'.book
  unfolding resolve_self_trade
  resolve_self_trade-Uncrossed abort m m' e h remaining removed there a q = absurd (ground arith)
  resolve_self_trade-Uncrossed cancel_provide m m' e h remaining removed there a q =
      let (m₁, e₁, f₁) = >>=-eq-ok (unlock_backing t u m e.key h e.value.num_base_lots) _ q in
      let same_book = unlock_backing-book t u m e.key h _ e₁ in
      let after =
        Leaves-Uncrossed t m.book _ e.key e.value 0 a (cancel_lem t m.book e.key e.value there).1 in
      let same : (cancel t m.book e.key).1 ≡ m'.book = ground (arith, same_book) in
      subst (Uncrossed t) same after
  resolve_self_trade-Uncrossed decrement_take m m' e h remaining removed there a q =
      let d = min remaining e.value.num_base_lots in
      let (m₁, e₁, f₁) = >>=-eq-ok (unlock_backing t u m e.key h d) _ q in
      let (m₂, e₂, f₂) = >>=-eq-ok (leave_resting t u m₁ e.key (e.value.num_base_lots - d)) _ f₁ in
      let same_book = unlock_backing-book t u m e.key h d e₁ in
      let same : m₂ ≡ m' = ground arith in
      subst (λ x. Uncrossed t x.book) same
        (leave_resting-Uncrossed m₁ e _ (ap (λ b. get_order t b e.key) same_book ∙ there)
          (subst (Uncrossed t) (sym same_book) a) e₂)

  self_trade_round-Uncrossed :
      (k : Taker) (m m' : Market T U) (s s' : Tally) (e : BookEntry) (h : SeatIndex)
      → get_order t m.book e.key ≡ some e.value
      → Uncrossed t m.book
      → self_trade_round t u k m s e h ≡ ok (next m' s')
      → Uncrossed t m'.book
  unfolding self_trade_round
  self_trade_round-Uncrossed k m m' s s' e h there a q =
      let ((removed, m₁), e₁, f₁) =
        >>=-eq-ok (resolve_self_trade t u k.behavior m e.key h e.value.num_base_lots s.remaining) _
          q in
      let same : m₁ ≡ m' = ground arith in
      subst (λ x. Uncrossed t x.book) same
        (resolve_self_trade-Uncrossed k.behavior m m₁ e h s.remaining removed there a e₁)

  apply_fill-Uncrossed :
      (k : Taker) (m m' : Market T U) (s s' : Tally) (e : BookEntry) (h : SeatIndex)
      (lots gross fee : ℕ)
      → get_order t m.book e.key ≡ some e.value
      → Uncrossed t m.book
      → apply_fill t u k m s e h lots gross fee ≡ ok (next m' s')
      → Uncrossed t m'.book
  unfolding apply_fill
  apply_fill-Uncrossed k m m' s s' e h lots gross fee there a q =
      let (m₁, e₁, f₁) = >>=-eq-ok (settle_fill t u m k.seat h k.side lots gross fee) _ q in
      let (m₂, e₂, f₂) =
        >>=-eq-ok (leave_resting t u m₁ e.key (e.value.num_base_lots - lots)) _ f₁ in
      let same_book = settle_fill-book t u m k.seat h k.side lots gross fee e₁ in
      let same : m₂ ≡ m' = ground arith in
      subst (λ x. Uncrossed t x.book) same
        (leave_resting-Uncrossed m₁ e _ (ap (λ b. get_order t b e.key) same_book ∙ there)
          (subst (Uncrossed t) (sym same_book) a) e₂)

  fill_round-Uncrossed :
      (k : Taker) (m m' : Market T U) (s s' : Tally) (e : BookEntry) (h : SeatIndex)
      → get_order t m.book e.key ≡ some e.value
      → Uncrossed t m.book
      → fill_round t u k m s e h ≡ ok (next m' s')
      → Uncrossed t m'.book
  unfolding fill_round
  fill_round-Uncrossed k m m' s s' e h there a q =
      let lots = min s.remaining e.value.num_base_lots in
      let (gross, e₁, f₁) = >>=-eq-ok (quote_value t u m e.key.price_in_ticks lots) _ q in
      let (fee, e₂, f₂) = >>=-eq-ok (fee_on m.header.fees gross) _ f₁ in
      let (affordable, e₃, f₃) =
        >>=-eq-ok (taker_can_afford t u m k.seat k.side lots gross fee) _ f₂ in
      apply_fill-Uncrossed k m m' s s' e h lots gross fee there a (ground arith)

  match_round-Uncrossed :
      (k : Taker) (m m' : Market T U) (s s' : Tally)
      → Conserved t u m
      → Uncrossed t m.book
      → match_round t u k m s ≡ ok (next m' s')
      → Uncrossed t m'.book
  unfolding match_round
  match_round-Uncrossed k m m' s s' c a q = elim (Option-cases (best t m.book (opposite k.side))) [
    | inl none_left ↦ absurd (ground arith)
    | inr (e, top) ↦
        let (there, tag) = get_order-best t m.book (opposite k.side) e c.filed top in
        elim (Bool-cases (owner e.value == k.seat)) [
          | inl own ↦
              self_trade_round-Uncrossed k m m' s s' e (owner e.value) there a (ground arith)
          | inr other ↦ fill_round-Uncrossed k m m' s s' e (owner e.value) there a (ground arith)
        ]
  ]

  -- A pass crosses nothing that was not crossed.
  pub cross_loop-Uncrossed :
      (left : ℕ) (k : Taker) (m m' : Market T U) (s s' : Tally) (stop : MatchStop)
      → Conserved t u m
      → value_at k.seat (seats t u m) ≢ none
      → Uncrossed t m.book
      → cross_loop t u left k m s ≡ ok (stop, m', s')
      → Uncrossed t m'.book
  unfolding cross_loop
  cross_loop-Uncrossed zero k m m' s s' stop c claimed a q =
      let same : m ≡ m' = ground arith in subst (λ x. Uncrossed t x.book) same a
  cross_loop-Uncrossed (suc left) k m m' s s' stop c claimed a q =
      elim (Bool-cases (is_zero s.remaining)) [
        | inl done ↦ let same : m ≡ m' = ground arith in subst (λ x. Uncrossed t x.book) same a
        | inr more ↦ go more (match_round t u k m s) refl (λ m₁ s₁ c₁ claimed₁ a₁ q₁.
            cross_loop-Uncrossed left k m₁ m' s₁ s' stop c₁ claimed₁ a₁ q₁)
      ]
    where
      go :
          is_zero s.remaining ≡ false
          → (r : Result (Round T U)) → match_round t u k m s ≡ r
          → ((m₁ : Market T U) (s₁ : Tally)
              → Conserved t u m₁
              → value_at k.seat (seats t u m₁) ≢ none
              → Uncrossed t m₁.book
              → cross_loop t u left k m₁ s₁ ≡ ok (stop, m', s')
              → Uncrossed t m'.book)
          → Uncrossed t m'.book
      go more (err x) r ih = absurd (ground arith)
      go more (ok (stopped why)) r ih =
          let same : m ≡ m' = ground arith in subst (λ x. Uncrossed t x.book) same a
      go more (ok (next m₁ s₁)) r ih =
          let kept = match_round-Keeps t u k m m₁ s s₁ c claimed r in
          ih m₁ s₁ kept.conserved (kept.claimed k.seat claimed)
            (match_round-Uncrossed k m m₁ s s₁ c a r) (ground arith)
