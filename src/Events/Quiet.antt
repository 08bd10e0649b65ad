-- ===== src/Events/Quiet.antt =====
-- What a publish leaves as it was.
use ds_practice_court.Base.{ℕ, ◌≡◌, ok, arith, inl, inr, try_cases, pure}
use ds_practice_court.Base.Text.{Text}
use ds_practice_court.Shared.Schemas.{BookingStatus}
use ds_practice_court.Services.{Services, IsLawful, EventType, Message, booking_event}
use ds_practice_court.Events.{publish_booking_event}

module _ (S : Services) (L : IsLawful S) (event_type : EventType) (fid field_id : ℕ)
    (status : BookingStatus) (user st en : Text) (w : S.World) where
  open L use {tables, broker}

  message : Message
  message = booking_event event_type fid field_id status user st en

  -- `publish_booking_event` never raises, and touches neither the database nor a key of Redis.
  pub publish_quiet :
      ((publish_booking_event S event_type fid field_id status user st en w).0 ≡ ok tt)
      × (tables (publish_booking_event S event_type fid field_id status user st en w).1 ≡ tables w)
      × ((broker (publish_booking_event S event_type fid field_id status user st en w).1).stored
          ≡ (broker w).stored)
  unfolding publish_booking_event message
  publish_quiet = elim (try_cases (S.redis_publish message) (λ _. pure tt) w) [
    | inl (e, h, step) ↦
        rw step (ground arith, L.publish-tables message w, L.publish-stored message w)
    | inr (d, h, step) ↦
        rw step (ground arith, L.publish-tables message w, L.publish-stored message w)
  ]
