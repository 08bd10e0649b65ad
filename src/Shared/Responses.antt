-- ===== src/Shared/Responses.antt =====
-- shared/schemas.py: what the endpoints answer with. A response class reads the attributes of a row
-- and validates them again; where a row does not pass, the endpoint answers with the status 500,
-- which is `none` here. `float` is Python's, of the DECIMAL that the column holds.
use ds_practice_court.Base.{ℕ, Bool, Option, none, some, if◌then◌else◌}
use ds_practice_court.Base.Text.{Text}
use ds_practice_court.Shared.Schemas.{
  BookingStatus, FieldBase, field_base_accepts, UtilityBase, utility_base_accepts,
}
use ds_practice_court.Shared.Models.{Field, FieldBooking, Utility, UtilityBooking}

-- The dictionary with `ok` and `message` that two endpoints return.
pub record OkMessage : Type 0 where
  pub is_ok : Bool
  pub message : Text

-- `base` is what the class inherits from FieldBase, its validators included.
pub record FieldResponse : Type 0 where
  pub base : FieldBase
  pub id : ℕ
  pub is_active : Bool
  pub created_at : ℕ

pub record UtilityResponse : Type 0 where
  pub base : UtilityBase
  pub id : ℕ
  pub is_active : Bool

pub record FieldBookingResponse : Type 0 where
  pub id : ℕ
  pub field_id : ℕ
  pub user_id : Text
  pub start_time : ℕ
  pub end_time : ℕ
  pub status : BookingStatus
  pub created_at : ℕ

pub record UtilityBookingResponse : Type 0 where
  pub id : ℕ
  pub utility_id : ℕ
  pub booking_id : ℕ
  pub status : BookingStatus

module _ (float : ℕ → ℕ) where
  -- `return float(v)`
  abbrev pub decimal_to_float : ℕ → ℕ
  decimal_to_float v = float v

  -- `from_attributes`: the row's attributes of the same names
  abbrev pub field_attributes : Field → FieldResponse
  field_attributes f = record {
    base = record {
      name = f.name;
      location = f.location;
      sport_type = f.sport_type;
      price_per_hour = decimal_to_float f.price_per_hour;
    };
    id = f.id;
    is_active = f.is_active;
    created_at = f.created_at;
  }

  unfoldable pub field_response : Field → Option FieldResponse
  field_response f =
      let r = field_attributes f in if field_base_accepts r.base then some r else none

  -- A row of `utilities` has no description, so the default of UtilityBase stands in.
  abbrev pub utility_attributes : Utility → UtilityResponse
  utility_attributes u = record {
    base = record {
      name = u.name;
      description = none;
      price_per_hour = decimal_to_float u.price_per_hour;
      utility_type = u.utility_type;
      is_hourly = u.is_hourly;
    };
    id = u.id;
    is_active = u.is_active;
  }

  unfoldable pub utility_response : Utility → Option UtilityResponse
  utility_response u =
      let r = utility_attributes u in if utility_base_accepts r.base then some r else none

-- These two classes only copy: they declare no bounds.
unfoldable pub field_booking_response : FieldBooking → FieldBookingResponse
field_booking_response b = record {
  id = b.id;
  field_id = b.field_id;
  user_id = b.user_id;
  start_time = b.start_time;
  end_time = b.end_time;
  status = b.status;
  created_at = b.created_at;
}

unfoldable pub utility_booking_response : UtilityBooking → UtilityBookingResponse
utility_booking_response b = record {
  id = b.id;
  utility_id = b.utility_id;
  booking_id = b.booking_id;
  status = b.status;
}
