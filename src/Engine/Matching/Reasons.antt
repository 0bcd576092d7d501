-- ===== src/Engine/Matching/Reasons.antt =====
-- crates/clob-engine/src/market/matching.rs: why the loop ends.
use clob_dex.Prelude.{
  ℕ, ◌-◌, ◌+◌, ◌*◌, ◌<◌, ◌⊎◌, ◌≡◌, ◌≢◌, subst, false, none, some, Option, [], ◌==◌, All, All-imp,
  arith, inl, inr, Option-cases, Bool-cases, leb, if◌then◌else◌, ==_iff,
}
use clob_dex.Quantities.{min, checked_add, u64_max}
use clob_dex.Order.{Side, bid, ask, opposite}
use clob_dex.Book.{BookEntry, BookTree, best}
use clob_dex.Book.Best.{best-Leads, Leads, best-none}
use clob_dex.Book.Remove.{orders}
use clob_dex.Tree.{value_at}
use clob_dex.Engine.Error.{ok, >>=-eq-ok, ok_or, overflow}
use clob_dex.Engine.Fees.{fee_on}
use clob_dex.Engine.Trader.{TraderState}
use clob_dex.Engine.Seats.{SeatTree, SeatIndex, state}
use clob_dex.Engine.Fill.{
  MatchStop, fully_filled, price_limit, match_limit, book_empty, insufficient_funds, did_not_cross,
}
use clob_dex.Engine.Market.{Market, quote_value}
use clob_dex.Engine.Matching.{
  settle_fill, leave_resting, resolve_self_trade, Taker, Tally, stopped, self_trade_round,
  apply_fill, fill_round, match_round, accepts, taker_can_afford, covers,
}
use clob_dex.Engine.Matching.Accounts.{Allowed, Allowed-of_accepts, not_Allowed-of_accepts}
use clob_dex.Engine.Conserved.{owner, Conserved, seats, per_lot}
use clob_dex.Engine.Conserved.Unlocked.{quote_lots_for-value}
use clob_dex.Engine.Conserved.FreeFunds.{state-value}

abbrev pub smaller : ℕ → ℕ → ℕ
smaller a b = if leb a b then a else b

min-smaller : (a b : ℕ) → min a b ≡ smaller a b
unfolding min
min-smaller a b = ground arith

module _ {T U : Type 0} (t : BookTree T) (u : SeatTree U) where
  -- The best order is another seat's and within the limit, and the taker has too little for what it
  -- would fill of it: the value and the fee of a buyer's, or the lots of a seller's. A cost beyond a
  -- u64 is more than any balance.
  abbrev pub Lacks : Side → TraderState → ℕ → ℕ → ℕ → Type 0
  Lacks bid st lots gross fee = (st.quote_lots_free < gross + fee) ⊎ (u64_max < gross + fee)
  Lacks ask st lots gross fee = st.base_lots_free < lots

  pub record Short (k : Taker) (m : Market T U) (s : Tally) : Type 0 where
    pub entry : BookEntry
    pub gross : ℕ
    pub fee : ℕ
    pub taker : TraderState
    pub top : best t m.book (opposite k.side) ≡ some entry
    pub fits : Allowed k.side entry.key.price_in_ticks k.limit
    pub other : owner entry.value ≢ k.seat
    pub worth :
        gross
        ≡ entry.key.price_in_ticks * per_lot t u m * smaller s.remaining entry.value.num_base_lots
    pub charged : fee_on m.header.fees gross ≡ ok fee
    pub there : value_at k.seat (seats t u m) ≡ some taker
    pub lacking : Lacks k.side taker (smaller s.remaining entry.value.num_base_lots) gross fee

  -- Why a round ended the loop, said of the book and of what remains.
  abbrev pub RoundReason : MatchStop → Taker → Market T U → Tally → Type 0
  RoundReason price_limit k m s =
      All (λ e. Allowed k.side e.key.price_in_ticks k.limit → ⊥) (orders t (opposite k.side) m.book)
  RoundReason book_empty k m s = orders t (opposite k.side) m.book ≡ []
  RoundReason insufficient_funds k m s = Short k m s
  RoundReason fully_filled k m s = ⊥
  RoundReason match_limit k m s = ⊥
  RoundReason did_not_cross k m s = ⊥

  -- Why the loop ended.
  abbrev pub Reason : MatchStop → Taker → Market T U → Tally → Type 0
  Reason fully_filled k m s = s.remaining ≡ 0
  Reason match_limit k m s = s.remaining ≢ 0
  Reason price_limit k m s = (s.remaining ≢ 0) × RoundReason price_limit k m s
  Reason book_empty k m s = (s.remaining ≢ 0) × RoundReason book_empty k m s
  Reason insufficient_funds k m s = (s.remaining ≢ 0) × RoundReason insufficient_funds k m s
  Reason did_not_cross k m s = ⊥

  pub Reason-of_round :
      (stop : MatchStop) (k : Taker) (m : Market T U) (s : Tally)
      → s.remaining ≢ 0
      → RoundReason stop k m s
      → Reason stop k m s
  Reason-of_round price_limit k m s more why = (more, why)
  Reason-of_round book_empty k m s more why = (more, why)
  Reason-of_round insufficient_funds k m s more why = (more, why)
  Reason-of_round fully_filled k m s more why = absurd why
  Reason-of_round match_limit k m s more why = absurd why
  Reason-of_round did_not_cross k m s more why = absurd why

  refused_behind :
      (side : Side) (limit : Option ℕ) (e f : BookEntry)
      → accepts side e.key.price_in_ticks limit ≡ false
      → Leads (opposite side) e f
      → accepts side f.key.price_in_ticks limit ≡ false
  unfolding accepts opposite
  refused_behind bid none e f p l = ground arith
  refused_behind ask none e f p l = ground arith
  refused_behind bid (some x) e f p l = ground arith
  refused_behind ask (some x) e f p l = ground arith

  self_trade_round-goes_on :
      (k : Taker) (m : Market T U) (s : Tally) (entry : BookEntry) (h : SeatIndex)
      (stop : MatchStop)
      → self_trade_round t u k m s entry h ≢ ok (stopped stop)
  unfolding self_trade_round checked_add
  self_trade_round-goes_on k m s entry h stop e =
      let (r, e₁, f₁) =
        >>=-eq-ok
          (resolve_self_trade t u k.behavior m entry.key h entry.value.num_base_lots s.remaining) _
          e in
      let (x, e₂, f₂) = >>=-eq-ok (ok_or (checked_add s.base_lots_self_traded r.0) overflow) _ f₁ in
      absurd (ground arith)

  apply_fill-goes_on :
      (k : Taker) (m : Market T U) (s : Tally) (entry : BookEntry) (h : SeatIndex)
      (lots gross fee : ℕ) (stop : MatchStop)
      → apply_fill t u k m s entry h lots gross fee ≢ ok (stopped stop)
  unfolding apply_fill checked_add
  apply_fill-goes_on k m s entry h lots gross fee stop e =
      let (m₁, e₁, f₁) = >>=-eq-ok (settle_fill t u m k.seat h k.side lots gross fee) _ e in
      let (m₂, e₂, f₂) =
        >>=-eq-ok (leave_resting t u m₁ entry.key (entry.value.num_base_lots - lots)) _ f₁ in
      let (x, e₃, f₃) = >>=-eq-ok (ok_or (checked_add s.base_lots_filled lots) overflow) _ f₂ in
      let (y, e₄, f₄) = >>=-eq-ok (ok_or (checked_add s.quote_lots_filled gross) overflow) _ f₃ in
      let (z, e₅, f₅) = >>=-eq-ok (ok_or (checked_add s.fee_in_quote_lots fee) overflow) _ f₄ in
      absurd (ground arith)

  lacking_of :
      (side : Side) (st : TraderState) (lots gross fee : ℕ)
      → covers side st lots gross fee ≡ false
      → Lacks side st lots gross fee
  unfolding covers checked_add
  lacking_of bid st lots gross fee e = ground arith
  lacking_of ask st lots gross fee e = ground arith

  -- What a round says that ends the loop for want of funds.
  Unfunded : Taker → Market T U → Tally → BookEntry → Type 0
  Unfunded k m s entry =
      (gross : ℕ) × (fee : ℕ) × (st : TraderState) × (gross
        ≡ entry.key.price_in_ticks * per_lot t u m * smaller s.remaining entry.value.num_base_lots)
      × (fee_on m.header.fees gross ≡ ok fee)
      × (state u m.traders k.seat ≡ ok st)
      × Lacks k.side st (smaller s.remaining entry.value.num_base_lots) gross fee

  -- Meeting another seat's order ends the loop only for want of the taker's funds.
  fill_round-stop :
      (k : Taker) (m : Market T U) (s : Tally) (entry : BookEntry) (h : SeatIndex)
      (stop : MatchStop)
      → fill_round t u k m s entry h ≡ ok (stopped stop)
      → (insufficient_funds ≡ stop) × Unfunded k m s entry
  unfolding fill_round quote_value taker_can_afford Unfunded
  fill_round-stop k m s entry h stop e =
      let lots = min s.remaining entry.value.num_base_lots in
      let (gross, e₁, e₂) = >>=-eq-ok (quote_value t u m entry.key.price_in_ticks lots) _ e in
      let (fee, e₃, e₄) = >>=-eq-ok (fee_on m.header.fees gross) _ e₂ in
      let (affordable, e₅, e₆) =
        >>=-eq-ok (taker_can_afford t u m k.seat k.side lots gross fee) _ e₄ in
      let (st, e₇, e₈) = >>=-eq-ok (state u m.traders k.seat) _ e₅ in
      let size = min-smaller s.remaining entry.value.num_base_lots in
      let worth =
        quote_lots_for-value m.header entry.key.price_in_ticks lots {q = gross} (ground arith) in
      elim (Bool-cases affordable) [
        | inl enough ↦ absurd (apply_fill-goes_on k m s entry h lots gross fee stop (ground arith))
        | inr less ↦
            let short : covers k.side st lots gross fee ≡ false = ground arith in
            (
              ground arith,
              (
                gross,
                fee,
                st,
                subst (λ x. gross ≡ entry.key.price_in_ticks * per_lot t u m * x) size worth,
                e₃,
                e₇,
                subst (λ x. Lacks k.side st x gross fee) size
                    (lacking_of k.side st lots gross fee short),
              ),
            )
      ]

  pub match_round-Reason :
      (k : Taker) (m : Market T U) (s : Tally) (stop : MatchStop)
      → Conserved t u m
      → value_at k.seat (seats t u m) ≢ none
      → match_round t u k m s ≡ ok (stopped stop)
      → RoundReason stop k m s
  unfolding match_round Unfunded
  match_round-Reason k m s stop c claimed e =
      elim (Option-cases (best t m.book (opposite k.side))) [
        | inl none_left ↦
            let why : book_empty ≡ stop = ground arith in
            subst (λ x. RoundReason x k m s) why (best-none t m.book (opposite k.side) none_left)
        | inr (entry, top) ↦ elim (Bool-cases (accepts k.side entry.key.price_in_ticks k.limit)) [
          | inr refused ↦
              let why : price_limit ≡ stop = ground arith in
              subst (λ x. RoundReason x k m s) why
                (All-imp
                  (λ f l.
                    not_Allowed-of_accepts k.side f.key.price_in_ticks k.limit
                      (refused_behind k.side k.limit entry f refused l))
                  _ (best-Leads t m.book (opposite k.side) entry c.filed top).1)
          | inl fits ↦ elim (Bool-cases (owner entry.value == k.seat)) [
            | inl own ↦
                absurd
                  (self_trade_round-goes_on k m s entry (owner entry.value) stop (ground arith))
            | inr other ↦
                let (why, unfunded) =
                  fill_round-stop k m s entry (owner entry.value) stop (ground arith) in
                let (gross, fee, st, worth, charged, found, lacking) = unfunded in
                subst (λ x. RoundReason x k m s) why
                  (record {
                    entry = entry;
                    gross = gross;
                    fee = fee;
                    taker = st;
                    top = top;
                    fits = Allowed-of_accepts k.side _ k.limit fits;
                    other = λ q. ground (arith, (==_iff (owner entry.value) k.seat).1 q);
                    worth = worth;
                    charged = charged;
                    there = state-value t u m.traders k.seat claimed found;
                    lacking = lacking;
                  })
          ]
        ]
      ]
