-- ===== src/Tests/Market.antt =====
-- A market of four slots per tree: two seats, a resting ask of one, and a bid of the other that takes
-- part of it.
use clob_dex.Prelude.{arith, ◌≡◌, refl, [], ◌∷◌}
use clob_dex.Quantities.{checked_add}
use clob_dex.Quantities.Lots.{LotConfig, validate}
use clob_dex.Order.{FifoOrderId, RestingOrder, compare_id}
use clob_dex.Tree.Slots.{Unused}
use clob_dex.Tree.Model.{Slots, model}
use clob_dex.Book.{BookTree, is_empty, len}
use clob_dex.Book.Filed.{compare_id-IsLawful}
use clob_dex.Engine.Error.{Result, ok, err}
use clob_dex.Engine.Fees.{FeeSchedule, validate_fees}
use clob_dex.Engine.Trader.{TraderState, no_funds}
use clob_dex.Engine.Seats.{SeatTree, TraderKey, compare_key, claim_seat, state, set_state}
use clob_dex.Engine.Seats.Keys.{compare_key-IsLawful}
use clob_dex.Engine.Market.{
  Market, new_header, validate_header, is_blank_header, initialize, market_claim_seat, deposit,
}

abbrev pub Orders : Type 0
Orders = Slots FifoOrderId RestingOrder compare_id

abbrev pub Seated : Type 0
Seated = Slots TraderKey TraderState compare_key

abbrev pub book_tree : BookTree Orders
book_tree = model compare_id-IsLawful (record {
  trader_index = 0;
  num_base_lots = 0;
  last_valid_slot = 0;
  last_valid_unix_timestamp_in_seconds = 0;
})

abbrev pub seat_tree : SeatTree Seated
seat_tree = model compare_key-IsLawful no_funds

pub two_free : (K V : Type 0) → Unused {K = K} {V = V} [] (1 ∷ 2 ∷ [])
two_free K V = (
  (omega arith, omega arith),
  tt,
  (λ q. omega (arith, q), tt),
  ((omega arith, omega arith), tt, tt, tt),
)

abbrev pub no_orders : Orders
no_orders = record {
  entries = [];
  free = 1 ∷ 2 ∷ [];
  well_formed = record { sorted = tt; distinct = tt; live = tt };
  unused = two_free FifoOrderId RestingOrder;
}

abbrev pub no_seats : Seated
no_seats = record {
  entries = [];
  free = 1 ∷ 2 ∷ [];
  well_formed = record { sorted = tt; distinct = tt; live = tt };
  unused = two_free TraderKey TraderState;
}

abbrev pub lots : LotConfig
lots = record {
  base_lots_per_base_unit = 10;
  tick_size_in_quote_lots_per_base_unit = 20;
  base_atoms_per_base_lot = 100;
  quote_atoms_per_quote_lot = 1;
}

abbrev pub fees : FeeSchedule
fees = record { taker_fee_bps = 100 }

abbrev pub blank : Market Orders Seated
blank = record {
  header = record {
    lot_config = record {
      base_lots_per_base_unit = 0;
      tick_size_in_quote_lots_per_base_unit = 0;
      base_atoms_per_base_lot = 0;
      quote_atoms_per_quote_lot = 0;
    };
    fees = record { taker_fee_bps = 0 };
    base_lots_deposited = 0;
    quote_lots_deposited = 0;
    collected_quote_lot_fees = 0;
    unclaimed_quote_lot_fees = 0;
  };
  traders = no_seats;
  book = record { next_sequence_number = 0; bids = no_orders; asks = no_orders };
}

-- The answer of a step, and the market after it; a failed step leaves the market as it was.
abbrev pub market_of :
    {A : Type 0} → Market Orders Seated → Result (A × Market Orders Seated) → Market Orders Seated
market_of m (ok (_, m')) = m'
market_of m (err _) = m

abbrev pub market_or : Market Orders Seated → Result (Market Orders Seated) → Market Orders Seated
market_or m (ok m') = m'
market_or m (err _) = m

abbrev pub opened : Market Orders Seated
opened = record blank { header = record blank.header { lot_config = lots; fees = fees } }

pub opened_lem : initialize book_tree seat_tree blank lots fees ≡ ok opened
unfolding initialize new_header validate_header validate validate_fees is_blank_header is_empty len
opened_lem = refl

abbrev pub alice : TraderKey
alice = record { bytes = 1 ∷ [] }

abbrev pub bob : TraderKey
bob = record { bytes = 2 ∷ [] }

unfoldable pub one_seat : Market Orders Seated
unfolding market_claim_seat claim_seat
one_seat = market_of opened (market_claim_seat book_tree seat_tree opened alice)

pub one_seat_lem : market_claim_seat book_tree seat_tree opened alice ≡ ok (1, one_seat)
unfolding market_claim_seat claim_seat one_seat
one_seat_lem = refl

unfoldable pub two_seats : Market Orders Seated
unfolding market_claim_seat claim_seat one_seat
two_seats = market_of one_seat (market_claim_seat book_tree seat_tree one_seat bob)

pub two_seats_lem : market_claim_seat book_tree seat_tree one_seat bob ≡ ok (2, two_seats)
unfolding market_claim_seat claim_seat one_seat two_seats
two_seats_lem = refl

unfoldable pub funded : Market Orders Seated
unfolding deposit checked_add state set_state two_seats one_seat market_claim_seat claim_seat
funded = market_or two_seats (deposit book_tree seat_tree two_seats 1 50 0)

pub funded_lem : deposit book_tree seat_tree two_seats 1 50 0 ≡ ok funded
unfolding deposit checked_add state set_state two_seats one_seat market_claim_seat claim_seat funded
funded_lem = refl
