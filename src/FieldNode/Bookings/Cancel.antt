-- ===== src/FieldNode/Bookings/Cancel.antt =====
-- `cancel_booking`: what becomes of a booking, and of its utilities.
use ds_practice_court.Shared.Responses.{OkMessage}
use ds_practice_court.Base.Text.{codes}
use ds_practice_court.Base.{
  true, continue_with, ℕ, ◌≡◌, refl, inl, inr, some, ok, arith, Option-cases, bind_ok, find?,
  find?-change_where, ==_refl,
}
use ds_practice_court.Shared.Schemas.{cancelled}
use ds_practice_court.Shared.Models.{FieldBooking}
use ds_practice_court.Services.{Services, IsLawful, booking_cancelled}
use ds_practice_court.Events.Quiet.{publish_quiet}
use ds_practice_court.FieldNode.FieldBookingRepository
use ds_practice_court.FieldNode.FieldBookingRepository.{is_booking, with_status}
use ds_practice_court.FieldNode.FieldBookingRepository.Calls.{
  get_by_id-tables, get_by_id_finds, update_status_ok,
}
use ds_practice_court.FieldNode.FieldBookingRepository.Overlap.{
  NoOverlap, WakesNone-inactive, update_status-NoOverlap,
}
use ds_practice_court.FieldNode.Bookings.{cancel_booking}

module _ (S : Services) (L : IsLawful S) where
  open L use {tables}

  -- If `cancel_booking` returns, the booking was there, whatever its status, and is CANCELLED; its
  -- utility bookings are as they were, bookings that did not overlap still do not, and the answer
  -- says that the booking is cancelled.
  pub cancel_booking_ok :
      (i : ℕ) (w : S.World) {r : OkMessage}
      → (cancel_booking S i w).0 ≡ ok r
      → NoOverlap (tables w).field_bookings
      → let w' = (cancel_booking S i w).1 in
        ((b : FieldBooking) × (find? (is_booking i) (tables w).field_bookings ≡ some b)
          × (find? (is_booking i) (tables w').field_bookings ≡ some (with_status cancelled b)))
        × ((tables w').utility_bookings ≡ (tables w).utility_bookings)
        × NoOverlap (tables w').field_bookings
        × (r ≡ record { is_ok = true; message = codes "Booking Cancelled" })
  unfolding cancel_booking
  cancel_booking_ok i w h n =
      let (found, e, s) = bind_ok (FieldBookingRepository.get_by_id S i) _ w h in
      let w1 = (FieldBookingRepository.get_by_id S i w).1 in
      let t1 = get_by_id-tables S L i w in
      let there = get_by_id_finds S L i w e in
      elim (Option-cases found) [
        | inl absent ↦ absurd (ground (arith, h, s, absent))
        | inr (b, is_b) ↦
            let (o, e2, s2) =
              bind_ok (FieldBookingRepository.update_status S i cancelled) _ w1
                (rw (s, is_b) at h) in
            let w2 = (FieldBookingRepository.update_status S i cancelled w1).1 in
            let set = update_status_ok S L i cancelled w1 e2 in
            let row =
              find?-change_where (λ r. r.id) (with_status cancelled) (λ r. refl) i i
                (tables w1).field_bookings in
            let n1 : NoOverlap (tables w1).field_bookings = rw t1 n in
            let n2 =
              update_status-NoOverlap S L i cancelled w1
                (WakesNone-inactive i cancelled (tables w1).field_bookings refl) n1 in
            let (quiet, same, _) =
              publish_quiet S L booking_cancelled i b.field_id cancelled b.user_id
                (S.isoformat b.start_time) (S.isoformat b.end_time) w2 in
            rw (s, is_b, s2, continue_with, quiet, same)
              (
                (
                  b,
                  ground (arith, there, is_b),
                  ground (arith, set, row, t1, there, is_b, ==_refl i),
                ),
                ground (arith, set, t1),
                n2,
                ground (arith, h, s, is_b, s2, quiet),
              )
      ]
