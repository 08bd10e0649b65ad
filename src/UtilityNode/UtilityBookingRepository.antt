-- ===== src/UtilityNode/UtilityBookingRepository.antt =====
-- utility_node/app/repositories/utility_booking_repository.py
use ds_practice_court.Base.{
  ℕ, ◌==◌, Bool, true, false, Option, List, Action, raise, ◌>>=◌, lift_result, fault, value_error,
}
use ds_practice_court.Shared.Schemas.{BookingStatus, pending}
use ds_practice_court.Shared.Models.{UtilityBooking}
use ds_practice_court.Services.{Services}

abbrev pub is_utility_booking : ℕ → UtilityBooking → Bool
is_utility_booking booking_id b = b.id == booking_id

abbrev pub of_booking : ℕ → UtilityBooking → Bool
of_booking field_booking_id b = b.booking_id == field_booking_id

abbrev pub new_utility_booking : ℕ → ℕ → ℕ → ℕ → UtilityBooking
new_utility_booking utility_id booking_id i now = record {
  id = i;
  utility_id = utility_id;
  booking_id = booking_id;
  status = pending;
}

abbrev pub set_status : BookingStatus → UtilityBooking → UtilityBooking
set_status status b = record b { status = status }

module _ (S : Services) where
  unfoldable pub get_all : Action S.World (List UtilityBooking)
  get_all = S.utility_bookings.select (λ _. true)

  unfoldable pub get_by_field_booking : ℕ → Action S.World (List UtilityBooking)
  get_by_field_booking field_booking_id = S.utility_bookings.select (of_booking field_booking_id)

  unfoldable pub create : ℕ → ℕ → Action S.World UtilityBooking
  create utility_id booking_id = do
    booking ← S.utility_bookings.add_commit (new_utility_booking utility_id booking_id)
    S.utility_bookings.refresh booking

  -- `db.get` looks the row up by its key.
  unfoldable pub update_status : ℕ → BookingStatus → Action S.World (Option UtilityBooking)
  update_status booking_id status = do
    rowcount ← S.utility_bookings.update (is_utility_booking booking_id) (set_status status)
    elim (rowcount == 0) [
      | true ↦ raise (fault value_error)
      | false ↦ (do
        rows ← S.utility_bookings.select (is_utility_booking booking_id)
        lift_result (S.scalar_one_or_none rows))
    ]
