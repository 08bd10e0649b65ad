-- ===== src/FieldNode/Bookings/Conflict.antt =====
-- `/bookings` reads the field before it opens its transaction.
use ds_practice_court.Base.{
  ℕ, ◌≡◌, ◌≢◌, ◌∙◌, inl, inr, true, Option, some, ok, err, arith, Bool-cases, Option-cases, bind_ok,
  fault, invalid_request, lift_result, Result-cases,
}
use ds_practice_court.Base.Text.{Text}
use ds_practice_court.Shared.Schemas.{FieldBookingRequest}
use ds_practice_court.Shared.Models.{Field, FieldBooking}
use ds_practice_court.Services.{Services, IsLawful}
use ds_practice_court.Locks.{acquire}
use ds_practice_court.FieldNode.FieldRepository
use ds_practice_court.FieldNode.FieldRepository.{is_field}
use ds_practice_court.FieldNode.FieldBookingRepository
use ds_practice_court.FieldNode.FieldBookingRepository.{
  slot_lock_key, insert_if_available, release_quietly, lock_ttl_ms,
}
use ds_practice_court.FieldNode.Bookings.{require_active_field, create_booking}

module _ (S : Services) (L : IsLawful S) where
  open L use {in_transaction}

  get_field-in_transaction :
      (i : ℕ) (w : S.World) {o : Option Field}
      → (FieldRepository.get_by_id S i w).0 ≡ ok o
      → in_transaction (FieldRepository.get_by_id S i w).1 ≡ true
  unfolding FieldRepository.get_by_id
  get_field-in_transaction i w h =
      let (rs, e, step) =
        bind_ok (S.fields.select (is_field i)) (λ rs. lift_result (S.scalar_one_or_none rs)) w h in
      ground (arith, step, L.select-in_transaction (is_field i) w e)

  require_active_field-in_transaction :
      (i : ℕ) (w : S.World)
      → (require_active_field S i w).0 ≡ ok tt
      → in_transaction (require_active_field S i w).1 ≡ true
  unfolding require_active_field
  require_active_field-in_transaction i w h =
      let (found, e, s) = bind_ok (FieldRepository.get_by_id S i) _ w h in
      let inside = get_field-in_transaction i w e in
      elim (Option-cases found) [
        | inl absent ↦ absurd (ground (arith, h, s, absent))
        | inr (f, is_f) ↦ elim (Bool-cases f.is_active) [
          | inl active ↦ ground (arith, s, is_f, active, inside)
          | inr idle ↦ absurd (ground (arith, h, s, is_f, idle))
        ]
      ]

  acquire-in_transaction :
      (key : Text) (ttl : ℕ) (w : S.World)
      → in_transaction (acquire S key ttl w).1 ≡ in_transaction w
  unfolding acquire
  acquire-in_transaction key ttl w = grind (arith, L.uuid4-in_transaction, L.set_nx-in_transaction)

  insert_raises :
      (f : ℕ) (user : Text) (st en : ℕ) (w : S.World)
      → in_transaction w ≡ true
      → (insert_if_available S f user st en w).0 ≡ err (fault invalid_request)
  unfolding insert_if_available
  insert_raises f user st en w h = ground (arith, L.begin-in_transaction w h)

  -- Inside a transaction the repository's `create` returns no booking.
  create_fruitless :
      (f : ℕ) (user : Text) (st en : ℕ) (w : S.World) {b : FieldBooking}
      → in_transaction w ≡ true
      → (FieldBookingRepository.create S f user st en w).0 ≢ ok (some b)
  unfolding FieldBookingRepository.create
  create_fruitless f user st en w inside h =
      let key = slot_lock_key f (S.isoformat st) in
      let (token, e, s) = bind_ok (acquire S key lock_ttl_ms) _ w h in
      let w1 = (acquire S key lock_ttl_ms w).1 in
      elim (Option-cases token) [
        | inl busy ↦ ground (arith, h, s, busy)
        | inr (t, held) ↦ ground (
          arith,
          h,
          s,
          held,
          insert_raises f user st en w1 (acquire-in_transaction key lock_ttl_ms w ∙ inside),
        )
      ]

  -- `/bookings` returns no booking, whatever the request and the state: the SELECT that finds the
  -- field has begun a transaction, and a `begin()` inside it raises.
  pub create_booking_raises :
      (body : FieldBookingRequest) (w : S.World) {b : FieldBooking}
      → (create_booking S body w).0 ≢ ok b
  unfolding create_booking
  create_booking_raises body w {b} h =
      let (d, e, s) = bind_ok (require_active_field S body.field_id) _ w h in
      let w1 = (require_active_field S body.field_id w).1 in
      let inside = require_active_field-in_transaction body.field_id w e in
      let m =
        FieldBookingRepository.create S body.field_id body.user_id body.start_time body.end_time in
      let fruitless = λ (q : FieldBooking).
        create_fruitless body.field_id body.user_id body.start_time body.end_time w1 {b = q}
          inside in
      elim (Result-cases (m w1).0) [
        | inl (o, made) ↦ elim (Option-cases o) [
          | inl nothing ↦ ground (arith, h, s, made, nothing)
          | inr (q, some_q) ↦ fruitless q (ground (arith, made, some_q))
        ]
        | inr (x, raised) ↦ ground (arith, h, s, raised)
      ]
