-- ===== src/FieldNode/Bookings.antt =====
-- field_node/app/main.py: the endpoints of fields and of single bookings.
pub mod Conflict
pub mod Fields
pub mod Shown
pub mod Cancel
use ds_practice_court.Base.{
  ℕ, true, false, Option, none, some, List, Action, Done, Exn, http_exception, httpx_error, fault,
  field_not_found, field_not_available, booking_not_found, slot_not_available, booking_conflict,
  pure, raise, ◌>>=◌, ◌>>◌, try_except,
}
use ds_practice_court.Base.Text.{Text, codes}
use ds_practice_court.Shared.Schemas.{cancelled, FieldBase, FieldBookingRequest, HealthResponse}
use ds_practice_court.Shared.Models.{Field, FieldBooking}
use ds_practice_court.Shared.Responses.{OkMessage}
use ds_practice_court.Services.{Services, booking_cancelled}
use ds_practice_court.Events.{publish_booking_event}
use ds_practice_court.FieldNode.FieldRepository
use ds_practice_court.FieldNode.FieldBookingRepository

unfoldable pub health : Text → HealthResponse
health node_id = record { status = codes "ok"; service = node_id }

-- `if not x: raise HTTPException(404, …)`
abbrev pub or_404 : {W A : Type 0} → Exn → Option A → Action W A
or_404 e none = raise e
or_404 e (some a) = pure a

module _ (S : Services) where
  unfoldable pub list_fields : Action S.World (List Field)
  list_fields = FieldRepository.get_all S

  unfoldable pub get_field : ℕ → Action S.World Field
  get_field field_id = do
    field ← FieldRepository.get_by_id S field_id
    or_404 (http_exception 404 field_not_found) field

  unfoldable pub create_field : FieldBase → Action S.World Field
  create_field body =
      FieldRepository.create S body.name body.location body.sport_type body.price_per_hour true

  unfoldable pub list_bookings : Option ℕ → Option Text → Action S.World (List FieldBooking)
  list_bookings = FieldBookingRepository.get_all S

  unfoldable pub get_booking : ℕ → Action S.World FieldBooking
  get_booking booking_id = do
    booking ← FieldBookingRepository.get_by_id S booking_id
    or_404 (http_exception 404 booking_not_found) booking

  -- The two tests with which both booking endpoints begin.
  unfoldable pub require_active_field : ℕ → Action S.World Done
  require_active_field field_id = do
    found ← FieldRepository.get_by_id S field_id
    field ← or_404 (http_exception 404 field_not_found) found
    elim field.is_active [ true ↦ pure tt | false ↦ raise (http_exception 409 field_not_available) ]

  -- `except HTTPException: raise`, and a 409 for every other exception.
  unfoldable pub conflict_unless_http : Exn → Action S.World FieldBooking
  conflict_unless_http (http_exception n d) = raise (http_exception n d)
  conflict_unless_http (httpx_error e) = raise (http_exception 409 booking_conflict)
  conflict_unless_http (fault f) = raise (http_exception 409 booking_conflict)

  unfoldable pub create_booking : FieldBookingRequest → Action S.World FieldBooking
  unfolding require_active_field conflict_unless_http
  create_booking body = do
    require_active_field body.field_id
    try_except
        (do
          booking ←
              FieldBookingRepository.create S body.field_id body.user_id body.start_time
                body.end_time
          or_404 (http_exception 409 slot_not_available) booking)
        conflict_unless_http

  unfoldable pub cancel_booking : ℕ → Action S.World OkMessage
  cancel_booking booking_id = do
    found ← FieldBookingRepository.get_by_id S booking_id
    booking ← or_404 (http_exception 404 booking_not_found) found
    _ ← FieldBookingRepository.update_status S booking_id cancelled
    publish_booking_event S booking_cancelled booking_id booking.field_id cancelled booking.user_id
        (S.isoformat booking.start_time) (S.isoformat booking.end_time)
    pure (record { is_ok = true; message = codes "Booking Cancelled" })
