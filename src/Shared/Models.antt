-- ===== src/Shared/Models.antt =====
-- shared/models.py: the rows of the four tables.
use Prim.Native.Nat.{ℕ}
use ds_practice_court.Base.{Bool, List}
use ds_practice_court.Base.Text.{Text}
use ds_practice_court.Shared.Schemas.{BookingStatus}

pub record Field : Type 0 where
  pub id : ℕ
  pub name : Text
  pub location : Text
  pub sport_type : Text
  pub price_per_hour : ℕ
  pub is_active : Bool
  pub created_at : ℕ

pub record FieldBooking : Type 0 where
  pub id : ℕ
  pub field_id : ℕ
  pub user_id : Text
  pub start_time : ℕ
  pub end_time : ℕ
  pub status : BookingStatus
  pub created_at : ℕ

pub record Utility : Type 0 where
  pub id : ℕ
  pub name : Text
  pub utility_type : Text
  pub price_per_hour : ℕ
  pub is_hourly : Bool
  pub is_active : Bool

pub record UtilityBooking : Type 0 where
  pub id : ℕ
  pub utility_id : ℕ
  pub booking_id : ℕ
  pub status : BookingStatus

-- The whole database: what a SELECT with no condition shows of each table.
pub record Tables : Type 0 where
  pub fields : List Field
  pub field_bookings : List FieldBooking
  pub utilities : List Utility
  pub utility_bookings : List UtilityBooking
