-- ===== src/Engine/Error.antt =====
-- crates/clob-engine/src/error.rs: every way an operation fails, and results with `do`.
-- A failed operation returns no state: the engine has no undo log, and its callers discard the
-- market on an error, as the runtime discards the writes of a failed instruction.
use clob_dex.Prelude.{◌≡◌, refl, Bool, true, false, Option, none, some}
use clob_dex.Quantities.Lots.{LotConfigError}

pub data EngineError : Type 0 where
  seat_table_full seat_not_found seat_not_empty book_side_full : EngineError
  insufficient_base_funds insufficient_quote_funds : EngineError
  order_not_found not_order_owner self_trade_aborted : EngineError
  post_only_would_cross post_only_no_room minimum_fill_not_met : EngineError
  zero_size overflow invalid_fee_rate market_already_initialized : EngineError
  invalid_lot_config : LotConfigError → EngineError

pub data Result {ℓ} (A : Type ℓ) : Type ℓ where
  ok : A → Result A
  err : EngineError → Result A

abbrev pub ok_or {ℓ} : {A : Type ℓ} → Option A → EngineError → Result A
ok_or (some a) e = ok a
ok_or none e = err e

-- The `?` operator: the rest runs on the value of a success.
infixl 5 ◌>>=◌
abbrev pub ◌>>=◌ {ℓ κ} : {T : Type ℓ} {U : Type κ} → Result T → (T → Result U) → Result U
err why >>= rest = err why
ok value >>= rest = rest value

-- An early `return Err(e)` when the test holds.
abbrev pub fail_if : Bool → EngineError → Result (Unit {0})
fail_if true e = err e
fail_if false e = ok tt

infixl 5 ◌>>◌
abbrev pub ◌>>◌ {ℓ} : {U : Type ℓ} → Result (Unit {0}) → Result U → Result U
test >> rest = test >>= λ _. rest

-- What a success of a chain says of its first step.
pub >>=-eq-ok {ℓ κ} :
    {A : Type ℓ} {B : Type κ} (r : Result A) (rest : A → Result B) {b : B}
    → (r >>= rest) ≡ ok b
    → (a : A) × (r ≡ ok a) × (rest a ≡ ok b)
>>=-eq-ok (err why) rest p = cc
>>=-eq-ok (ok value) rest p = (value, refl, p)

pub fail_if-eq-ok {ℓ} :
    {B : Type ℓ} (c : Bool) (e : EngineError) (m : Result B) {b : B}
    → (fail_if c e >> m) ≡ ok b
    → (c ≡ false) × (m ≡ ok b)
fail_if-eq-ok true e m h = cc
fail_if-eq-ok false e m h = (refl, h)
