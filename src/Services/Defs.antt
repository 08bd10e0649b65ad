-- ===== src/Services/Defs.antt =====
-- What the program calls and does not implement, as a parameter of every component.
use ds_practice_court.Base.{ℕ, Bool, Option, List, Result, Action, Done}
use ds_practice_court.Base.Text.{Text}
use ds_practice_court.Shared.Schemas.{TwoPcTransactionState, BookingStatus}
use ds_practice_court.Shared.Models.{Field, FieldBooking, Utility, UtilityBooking}

-- The JSON document that `_set_txn_state` dumps.
pub record TxnDocument : Type 0 where
  pub state : TwoPcTransactionState
  pub utility_booking_ids : List ℕ

-- A value in Redis: a plain text (a lock's token, the user of a hold) or a dumped document.
pub data Value : Type 0 where
  plain : Text → Value
  document : TxnDocument → Value

pub data EventType : Type 0 where
  booking_confirmed booking_failed booking_cancelled slots_held slots_released : EventType

-- What is published on the availability channel; the timestamp is left out.
pub data Message : Type 0 where
  booking_event : EventType → ℕ → ℕ → BookingStatus → Text → Text → Text → Message
  slots_event : EventType → ℕ → Text → List Text → Text → Message

-- One table as its session uses it. `add_commit` gives the row its id and its creation time.
pub record Table (W Row : Type 0) : Type 0 where
  pub select : (Row → Bool) → Action W (List Row)
  pub add_commit : (ℕ → ℕ → Row) → Action W Row
  pub refresh : Row → Action W Row
  pub update : (Row → Bool) → (Row → Row) → Action W ℕ

pub record Services : Type 1 where
  pub World : Type 0
  pub fields : Table World Field
  pub field_bookings : Table World FieldBooking
  pub utilities : Table World Utility
  pub utility_bookings : Table World UtilityBooking
  -- What the columns of init.sql store of a value: the two ENUMs, which disregard case, and
  -- DECIMAL(6,2), which rounds
  pub sport_column : Text → Text
  pub utility_type_column : Text → Text
  pub price_column : ℕ → ℕ
  -- `select(FieldBooking).where(p).order_by(created_at.desc())`
  pub select_newest_first : (FieldBooking → Bool) → Action World (List FieldBooking)
  -- `result.scalar_one_or_none()`
  pub scalar_one_or_none : {A : Type 0} → List A → Result (Option A)
  -- `db.begin()`, the start of an explicit transaction of the request's session
  pub begin : Action World Done
  -- `db_manager.session()`: its start, its rollback and its end
  pub session_enter : Action World Done
  pub session_rollback : Action World Done
  pub session_leave : Action World Done
  pub redis_get : Text → Action World (Option Value)
  -- `set(key, value, ex=seconds)`
  pub redis_set : Text → Value → ℕ → Action World Done
  -- `set(key, value, nx=True, px=milliseconds)`
  pub redis_set_nx : Text → Value → ℕ → Action World Bool
  pub redis_delete : Text → Action World Done
  -- `eval(script, …)`, with the two commands that a script may call
  pub redis_eval : (World → ℕ × World) → Action World ℕ
  pub call_get : Text → World → Option Value
  pub call_del : Text → World → ℕ × World
  -- `json.loads` of a value
  pub json_loads : Value → Option TxnDocument
  -- `keys(pattern)`
  pub redis_keys : Text → Action World (List Text)
  -- `scan(cursor, match=prefix*)`: the next cursor and some keys
  pub redis_scan : ℕ → Text → Action World (ℕ × List Text)
  pub redis_publish : Message → Action World Done
  pub uuid4 : Action World Text
  -- `client.post` to an endpoint of the other node, with `raise_for_status`
  pub post : {A : Type 0} → Action World A → Action World A
  -- `datetime.isoformat` and MySQL's DATE()
  pub isoformat : ℕ → Text
  pub date_of : ℕ → Text
