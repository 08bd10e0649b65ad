-- ===== src/Tests/TwoPhase.antt =====
-- `/bookings/2pc` on concrete requests.
use ds_practice_court.Shared.Responses.{OkMessage}
use ds_practice_court.Base.Text.{codes}
use ds_practice_court.FieldNode.FieldBookingRepository.Create.{create-NoOverlap}
use ds_practice_court.FieldNode.FieldBookingRepository
use ds_practice_court.Events.{publish_booking_event}
use ds_practice_court.FieldNode.Bookings.Cancel.{cancel_booking_ok}
use ds_practice_court.FieldNode.Bookings.Conflict.{create_booking_raises}
use ds_practice_court.FieldNode.Bookings.{cancel_booking, create_booking}
use ds_practice_court.FieldNode.TwoPhase.Overlap.{create_booking_2pc-NoOverlap}
use ds_practice_court.FieldNode.FieldBookingRepository.Overlap.{NoOverlap}
use ds_practice_court.Services.{put_field_bookings}
use ds_practice_court.Base.{true, find?, map, ◌≢◌, ◌≡◌, refl, some, [], ◌∷◌, ok}
use ds_practice_court.Shared.Schemas.{cancelled, failed, pending, confirmed}
use ds_practice_court.Shared.Models.{FieldBooking}
use ds_practice_court.Services.Memory.{
  memory_table, delivered, answer_lost, request_lost, Memory, memory, memory_lawful,
}
use ds_practice_court.FieldNode.FieldBookingRepository.{is_booking, new_booking, with_status}
use ds_practice_court.FieldNode.TwoPhase.{create_booking_2pc}
use ds_practice_court.FieldNode.TwoPhase.Success.{BookingStands, create_booking_2pc_ok}
use ds_practice_court.Tests.Worlds.{with_network, quiet_world, request, book}

abbrev pub anna : FieldBooking
anna = with_status confirmed (new_booking 1 (request []).user_id 100 160 1 8)

two_utilities : (create_booking_2pc memory (request (4 ∷ 5 ∷ [])) quiet_world).0 ≡ ok (some anna)
unfolding book
two_utilities = refl

create_booking_2pc_ok_example :
    BookingStands memory memory_lawful
      (request (4 ∷ 5 ∷ []))
      quiet_world
      (some anna)
      (create_booking_2pc memory (request (4 ∷ 5 ∷ [])) quiet_world).1
create_booking_2pc_ok_example =
    create_booking_2pc_ok memory memory_lawful (request (4 ∷ 5 ∷ [])) quiet_world two_utilities

abbrev busy_world : Memory
busy_world = record quiet_world { tables = put_field_bookings (anna ∷ []) quiet_world.tables }

create_booking_2pc-NoOverlap_example :
    NoOverlap
      (memory_lawful.tables
        (create_booking_2pc memory (request (4 ∷ 5 ∷ [])) busy_world).1).field_bookings
unfolding memory_lawful
create_booking_2pc-NoOverlap_example =
    create_booking_2pc-NoOverlap memory memory_lawful (request (4 ∷ 5 ∷ [])) busy_world (tt, tt)

create_booking_raises_example : (create_booking memory (request []) quiet_world).0 ≢ ok anna
create_booking_raises_example = create_booking_raises memory memory_lawful (request []) quiet_world

-- The commit is served and its answer lost, and the rollback that follows is lost too: the field
-- booking is FAILED and the utility booking CONFIRMED.
half_confirmed :
    let end =
      (create_booking_2pc memory
        (request (4 ∷ []))
        (with_network (delivered ∷ answer_lost ∷ request_lost ∷ []))).1 in
    (map (λ b. b.status) end.tables.field_bookings ≡ failed ∷ [])
    × (map (λ b. b.status) end.tables.utility_bookings ≡ confirmed ∷ [])
unfolding book
half_confirmed = (refl, refl)

-- The answer to a prepare is lost: the transaction aborts, and the row stays PENDING.
left_pending :
    let end = (create_booking_2pc memory (request (4 ∷ [])) (with_network (answer_lost ∷ []))).1 in
    (map (λ b. b.status) end.tables.field_bookings ≡ failed ∷ [])
    × (map (λ b. b.status) end.tables.utility_bookings ≡ pending ∷ [])
unfolding book
left_pending = (refl, refl)

first_cancelled :
    (cancel_booking memory 1 busy_world).0
    ≡ ok (record { is_ok = true; message = codes "Booking Cancelled" })
unfolding cancel_booking FieldBookingRepository.get_by_id FieldBookingRepository.update_status
    publish_booking_event memory_table
first_cancelled = refl

cancel_booking_ok_example :
    let w' = (cancel_booking memory 1 busy_world).1 in
    ((b : FieldBooking) × (find? (is_booking 1) (memory_lawful.tables busy_world).field_bookings
        ≡ some b)
      × (find? (is_booking 1) (memory_lawful.tables w').field_bookings
          ≡ some (with_status cancelled b)))
    × ((memory_lawful.tables w').utility_bookings
        ≡ (memory_lawful.tables busy_world).utility_bookings)
    × NoOverlap (memory_lawful.tables w').field_bookings
    × (◌≡◌ {A = OkMessage}
        (record { is_ok = true; message = codes "Booking Cancelled" })
        (record { is_ok = true; message = codes "Booking Cancelled" }))
unfolding memory_lawful
cancel_booking_ok_example =
    cancel_booking_ok memory memory_lawful 1 busy_world first_cancelled (tt, tt)

create-NoOverlap_example :
    NoOverlap
      (memory_lawful.tables
        (FieldBookingRepository.create memory 1 [] 100 160 busy_world).1).field_bookings
unfolding memory_lawful
create-NoOverlap_example = create-NoOverlap memory memory_lawful 1 [] 100 160 busy_world (tt, tt)
