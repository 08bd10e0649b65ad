-- ===== src/FieldNode/FieldBookingRepository.antt =====
-- field_node/app/repositories/field_booking_repository.py
pub mod Calls
pub mod Overlap
pub mod Create
pub mod Instants
pub mod Clients
use ds_practice_court.Base.{
  ℕ, ◌==◌, ◌&&◌, ◌++◌, ◌∷◌, ltb, Bool, true, false, Option, none, some, List, Action, Done, pure,
  ◌>>=◌, ◌>>◌, lift_result, try_finally,
}
use ds_practice_court.Base.Text.{Text, codes, decimal, text_eq}
use ds_practice_court.Shared.Schemas.{BookingStatus, pending, is_active_status}
use ds_practice_court.Shared.Models.{FieldBooking}
use ds_practice_court.Services.{Services}
use ds_practice_court.Locks.{acquire, release}

abbrev pub lock_ttl_ms : ℕ
lock_ttl_ms = 5000

-- `field:{field_id}:{start_time.isoformat()}`
abbrev pub slot_lock_key : ℕ → Text → Text
slot_lock_key field_id start = codes "field:" ++ decimal field_id ++ b':' ∷ start

abbrev pub is_booking : ℕ → FieldBooking → Bool
is_booking booking_id b = b.id == booking_id

-- The WHERE of `check_availability`: an active booking of the field that overlaps the interval.
unfoldable pub blocks : ℕ → ℕ → ℕ → FieldBooking → Bool
blocks field_id start_time end_time b =
    (b.field_id == field_id)
    && is_active_status b.status
    && ltb b.start_time end_time
    && ltb start_time b.end_time

unfoldable pub is_none : {A : Type 0} → Option A → Bool
is_none none = true
is_none (some _) = false

unfoldable pub for_field : Option ℕ → FieldBooking → Bool
for_field none b = true
for_field (some i) b = b.field_id == i

-- The row that the constructor of `FieldBooking` describes; its status is PENDING by default.
abbrev pub new_booking : ℕ → Text → ℕ → ℕ → ℕ → ℕ → FieldBooking
new_booking field_id user_id start_time end_time i now = record {
  id = i;
  field_id = field_id;
  user_id = user_id;
  start_time = start_time;
  end_time = end_time;
  status = pending;
  created_at = now;
}

abbrev pub with_status : BookingStatus → FieldBooking → FieldBooking
with_status status b = record b { status = status }

module _ (S : Services) where
  unfoldable pub on_date : Option Text → FieldBooking → Bool
  on_date none b = true
  on_date (some date) b = text_eq (S.date_of b.start_time) date

  unfoldable pub get_all : Option ℕ → Option Text → Action S.World (List FieldBooking)
  unfolding for_field on_date
  get_all field_id date = S.select_newest_first (λ b. for_field field_id b && on_date date b)

  unfoldable pub get_by_id : ℕ → Action S.World (Option FieldBooking)
  get_by_id booking_id = do
    result ← S.field_bookings.select (is_booking booking_id)
    lift_result (S.scalar_one_or_none result)

  -- `with_for_update()` locks the rows that the SELECT reads until the session commits. In a single
  -- run that changes nothing, and the model has no row locks.
  unfoldable pub check_availability : ℕ → ℕ → ℕ → Action S.World Bool
  unfolding blocks is_none
  check_availability field_id start_time end_time = do
    result ← S.field_bookings.select (blocks field_id start_time end_time)
    other ← lift_result (S.scalar_one_or_none result)
    pure (is_none other)

  -- The body of `async with db.begin()`, whose end commits the row.
  unfoldable pub insert_if_available : ℕ → Text → ℕ → ℕ → Action S.World (Option FieldBooking)
  unfolding check_availability
  insert_if_available field_id user_id start_time end_time = do
    S.begin
    available ← check_availability field_id start_time end_time
    elim available [
      | true ↦ (do
        booking ← S.field_bookings.add_commit (new_booking field_id user_id start_time end_time)
        refreshed ← S.field_bookings.refresh booking
        pure (some refreshed))
      | false ↦ pure none
    ]

  unfoldable pub release_quietly : Text → Text → Action S.World Done
  unfolding release
  release_quietly key token = do _ ← release S key token; pure tt

  unfoldable pub create : ℕ → Text → ℕ → ℕ → Action S.World (Option FieldBooking)
  unfolding insert_if_available release_quietly
  create field_id user_id start_time end_time = do
    let lock_key = slot_lock_key field_id (S.isoformat start_time)
    token ← acquire S lock_key lock_ttl_ms
    elim token [
      | none ↦ pure none
      | some t ↦
          try_finally (insert_if_available field_id user_id start_time end_time)
            (release_quietly lock_key t)
    ]

  unfoldable pub create_pending : ℕ → Text → ℕ → ℕ → Action S.World FieldBooking
  create_pending field_id user_id start_time end_time = do
    booking ← S.field_bookings.add_commit (new_booking field_id user_id start_time end_time)
    S.field_bookings.refresh booking

  unfoldable pub update_status : ℕ → BookingStatus → Action S.World (Option FieldBooking)
  unfolding get_by_id
  update_status booking_id status = do
    found ← get_by_id booking_id
    elim found [
      | none ↦ pure none
      | some booking ↦ (do
        _ ← S.field_bookings.update (is_booking booking.id) (with_status status)
        refreshed ← S.field_bookings.refresh booking
        pure (some refreshed))
    ]
