-- ===== src/Shared/Schemas.antt =====
-- shared/schemas.py: the enums, and the messages of the two-phase commit. Where pydantic validates a
-- request body, the validator is a test: a body that fails it never reaches the endpoint.
use Prim.Native.Nat.{ℕ, ◌<◌}
use ds_practice_court.Base.{◌≡◌, Bool, true, false, ◌&&◌, Option, none, some, List, arith}
use ds_practice_court.Base.{ltb, leb, length}
use ds_practice_court.Base.Text.{Text}

pub data BookingStatus : Type 0 where
  pending confirmed cancelled failed : BookingStatus

-- The rows that block a slot: `status.in_([PENDING, CONFIRMED])`.
abbrev pub is_active_status : BookingStatus → Bool
is_active_status BookingStatus.pending = true
is_active_status BookingStatus.confirmed = true
is_active_status _ = false

pub data TwoPcVote : Type 0 where
  yes_vote no_vote : TwoPcVote

pub data TwoPcTransactionState : Type 0 where
  init prepared committed aborted : TwoPcTransactionState

-- A str is its code points, a price is the cents of its DECIMAL(6, 2) column.
pub record FieldBase : Type 0 where
  pub name : Text
  pub location : Text
  pub sport_type : Text
  pub price_per_hour : ℕ

abbrev between : ℕ → ℕ → Text → Bool
between lo hi t = leb lo (length t) && leb (length t) hi

-- The bounds that the three `Field(..., min_length, max_length)` declare.
unfoldable pub field_base_accepts : FieldBase → Bool
field_base_accepts b = between 1 100 b.name && between 1 255 b.location && between 1 50 b.sport_type

pub record UtilityBase : Type 0 where
  pub name : Text
  pub description : Option Text
  pub price_per_hour : ℕ
  pub utility_type : Text
  pub is_hourly : Bool

abbrev description_accepts : Option Text → Bool
description_accepts none = true
description_accepts (some t) = leb (length t) 500

unfoldable pub utility_base_accepts : UtilityBase → Bool
utility_base_accepts b = between 1 100 b.name && description_accepts b.description

-- A datetime is an instant.
pub record FieldBookingRequest : Type 0 where
  pub field_id : ℕ
  pub user_id : Text
  pub start_time : ℕ
  pub end_time : ℕ
  pub utility_ids : List ℕ

-- `end_must_be_after_start`, which raises if `end <= start`.
unfoldable pub end_must_be_after_start : FieldBookingRequest → Bool
end_must_be_after_start r = ltb r.start_time r.end_time

pub end_must_be_after_start-lt :
    (r : FieldBookingRequest) → end_must_be_after_start r ≡ true → r.start_time < r.end_time
unfolding end_must_be_after_start
end_must_be_after_start-lt r h = ground arith

pub record PrepareRequest : Type 0 where
  pub field_booking_id : ℕ
  pub utility_id : ℕ

-- The `reason` of a NO is only a text for a reader.
pub record PrepareResponse : Type 0 where
  pub vote : TwoPcVote
  pub utility_booking_id : Option ℕ

pub record CommitRollbackRequest : Type 0 where
  pub field_booking_id : ℕ
  pub utility_booking_ids : List ℕ

pub record CommitRollbackResponse : Type 0 where
  pub is_ok : Bool

pub record HealthResponse : Type 0 where
  pub status : Text
  pub service : Text
