-- ===== src/Events.antt =====
-- shared/events.py: the message that every client of the availability channel receives. A publish
-- that raises is logged and forgotten.
pub mod Quiet
use ds_practice_court.Base.{ℕ, Action, Done, pure, try_except}
use ds_practice_court.Base.Text.{Text}
use ds_practice_court.Shared.Schemas.{BookingStatus}
use ds_practice_court.Services.{Services, EventType, booking_event}

module _ (S : Services) where
  unfoldable pub publish_booking_event :
      EventType → ℕ → ℕ → BookingStatus → Text → Text → Text → Action S.World Done
  publish_booking_event event_type field_booking_id field_id status user_id start_time end_time =
      try_except
        (S.redis_publish
          (booking_event event_type field_booking_id field_id status user_id start_time end_time))
        (λ _. pure tt)
