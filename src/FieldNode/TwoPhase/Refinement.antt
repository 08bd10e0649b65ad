-- ===== src/FieldNode/TwoPhase/Refinement.antt =====
-- `create_booking_2pc` refines its specification.
use ds_practice_court.Base.{
  field_not_found, field_not_available, ◌≡◌, refl, ◌∙◌, inl, inr, false, Option, List, [], ◌∷◌, ok,
  err, arith, where_rows, Bool-cases, Option-cases, Result, Exn, http_exception, try_finally, ◌>>=◌,
  fault, multiple_results,
}
use ds_practice_court.Base.Text.{Text}
use ds_practice_court.Shared.Schemas.{FieldBookingRequest}
use ds_practice_court.Shared.Models.{Field, FieldBooking}
use ds_practice_court.Services.{Services, IsLawful, IsUp}
use ds_practice_court.Locks.{acquire}
use ds_practice_court.Locks.Ownership.{acquire-tables, acquire_outcome}
use ds_practice_court.FieldNode.FieldRepository.{is_field}
use ds_practice_court.FieldNode.FieldBookingRepository.{blocks, slot_lock_key, release_quietly}
use ds_practice_court.FieldNode.Coordinator.Answers.{all_can_book}
use ds_practice_court.FieldNode.Coordinator.{txn_key}
use ds_practice_court.FieldNode.Bookings.{require_active_field}
use ds_practice_court.FieldNode.TwoPhase.{two_pc_lock_ttl_ms, run_txn, create_booking_2pc}
use ds_practice_court.FieldNode.TwoPhase.Success.{
  create_booking_2pc_ok, require_active_field-tables, release_quietly-tables, release_quietly_ne,
  txn_key-ne-lock,
}
use ds_practice_court.FieldNode.TwoPhase.Unlock.{lock_of, require_active_field-broker, with_token}
use ds_practice_court.FieldNode.TwoPhase.Spec.{
  Verdict, refused, booked, undone, is_taken, field_verdict, slot_verdict, verdict, Undone, Keeps,
}
use ds_practice_court.FieldNode.TwoPhase.Verdicts.{
  admit, in_the_way, require_active_field_up, acquire_up, release_quietly_up, KeepsRun, run_txn_up,
}

module _ (S : Services) (L : IsLawful S) (U : IsUp S L) (body : FieldBookingRequest) where
  open L use {tables, broker}

  -- The release at the end changes neither the answer nor what a verdict speaks of.
  Undone-release :
      (t : Text) (w v : S.World)
      → Undone S L body w v
      → Undone S L body w
          (release_quietly S (slot_lock_key body.field_id (S.isoformat body.start_time)) t v).1
  Undone-release t w v (fid, now, is, fresh, f, u, row, rows, apart, stored) =
      let k = slot_lock_key body.field_id (S.isoformat body.start_time) in
      let same = release_quietly-tables S L body k t v in
      let v' = (release_quietly S k t v).1 in
      (
        fid,
        now,
        is,
        fresh,
        rw same f,
        rw same u,
        rw same row,
        rw same rows,
        λ j. rw same (apart j),
        release_quietly_ne S L body k t v (txn_key fid) (txn_key-ne-lock S L body fid k) ∙ stored,
      )

  KeepsRun-release :
      (verdict : Verdict) (t : Text) (w : S.World)
      → KeepsRun S L U body verdict w (run_txn S body w)
      → KeepsRun S L U body verdict w (
          try_finally
            (run_txn S body)
            (release_quietly S (slot_lock_key body.field_id (S.isoformat body.start_time)) t)
            w)
  KeepsRun-release verdict t w h = go verdict h
    where
      k : Text
      k = slot_lock_key body.field_id (S.isoformat body.start_time)

      v : S.World
      v = (run_txn S body w).1

      step :
          try_finally (run_txn S body) (release_quietly S k t) w
          ≡ ((run_txn S body w).0, (release_quietly S k t v).1)
      step = ground (arith, release_quietly_up S L U body k t v)

      go :
          (verdict : Verdict)
          → KeepsRun S L U body verdict w (run_txn S body w)
          → KeepsRun S L U body verdict w (try_finally (run_txn S body) (release_quietly S k t) w)
      go (refused e) (raised, same) = rw step (raised, release_quietly-tables S L body k t v ∙ same)
      go booked (o, done) = rw step (o, done)
      go undone (raised, left) = rw step (raised, Undone-release t w v left)

  KeepsRun-along :
      (verdict : Verdict) (w v : S.World) (r : Result (Option FieldBooking) × S.World)
      → tables v ≡ tables w
      → KeepsRun S L U body verdict v r
      → KeepsRun S L U body verdict w r
  KeepsRun-along (refused e) w v r same (raised, kept) = (raised, kept ∙ same)
  KeepsRun-along booked w v r same h = h
  KeepsRun-along undone w v r same (raised, left) = (raised, rw (← same) left)

  slot_of : S.World → Verdict
  slot_of w =
      slot_verdict (is_taken ((broker w).stored (lock_of S L body)))
        (where_rows (blocks body.field_id body.start_time body.end_time) (tables w).field_bookings)
        (all_can_book (tables w).utilities body.utility_ids)

  -- From the lock on.
  locked_run :
      (w : S.World)
      → let key = slot_lock_key body.field_id (S.isoformat body.start_time) in
        KeepsRun S L U body
          (slot_of w)
          w
          ((acquire S key two_pc_lock_ttl_ms >>= with_token S L body) w)
  unfolding slot_of
  locked_run w =
      let k = slot_lock_key body.field_id (S.isoformat body.start_time) in
      let (o, e) = acquire_up S L U body k two_pc_lock_ttl_ms w in
      let w1 = (acquire S k two_pc_lock_ttl_ms w).1 in
      let same = acquire-tables S L k two_pc_lock_ttl_ms w in
      elim (acquire_outcome S L k two_pc_lock_ttl_ms w e) [
        | inl (t, is_t, free, held) ↦
            let step : (acquire S k two_pc_lock_ttl_ms >>= with_token S L body) w
                ≡ try_finally (run_txn S body) (release_quietly S k t) w1 =
              ground (arith, e, is_t) in
            let run =
              KeepsRun-release
                (slot_verdict false (in_the_way S L U body w1)
                  (all_can_book (tables w1).utilities body.utility_ids))
                t w1 (run_txn_up S L U body w1) in
            let run' =
              KeepsRun-along
                (slot_verdict false (in_the_way S L U body w1)
                  (all_can_book (tables w1).utilities body.utility_ids))
                w w1 (try_finally (run_txn S body) (release_quietly S k t) w1) same run in
            rw (free, step) (rw same at run')
        | inr (nothing, taken, kept) ↦ elim (Option-cases ((broker w).stored (lock_of S L body))) [
          | inl free ↦ absurd (taken free)
          | inr (v, held) ↦ rw held (ground (arith, e, nothing), ground (arith, e, nothing, same))
        ]
      ]

  KeepsRun-Keeps :
      (verdict : Verdict) (w : S.World)
      → KeepsRun S L U body verdict w (create_booking_2pc S body w)
      → Keeps S L body verdict w (create_booking_2pc S body w)
  KeepsRun-Keeps (refused e) w h = h
  KeepsRun-Keeps booked w (o, h) = (o, h, create_booking_2pc_ok S L body w h)
  KeepsRun-Keeps undone w h = h

  admitted_run :
      (w : S.World)
      → KeepsRun S L U body
          (field_verdict (where_rows (is_field body.field_id) (tables w).fields) (slot_of w))
          w
          (create_booking_2pc S body w)
  unfolding create_booking_2pc slot_of
  admitted_run w = go (where_rows (is_field body.field_id) (tables w).fields) refl
    where
      w1 : S.World
      w1 = (require_active_field S body.field_id w).1

      t1 : tables w1 ≡ tables w
      t1 = require_active_field-tables S L body body.field_id w

      b1 : broker w1 ≡ broker w
      b1 = require_active_field-broker S L body body.field_id w

      answer :
          (require_active_field S body.field_id w).0
          ≡ admit S L U body (where_rows (is_field body.field_id) (tables w).fields)
      answer = require_active_field_up S L U body w

      refuse :
          (e : Exn)
          → (require_active_field S body.field_id w).0 ≡ err e
          → KeepsRun S L U body (refused e) w (create_booking_2pc S body w)
      refuse e h = (ground (arith, h), ground (arith, h, t1))

      go :
          (fs : List Field)
          → where_rows (is_field body.field_id) (tables w).fields ≡ fs
          → KeepsRun S L U body
              (field_verdict (where_rows (is_field body.field_id) (tables w).fields) (slot_of w))
              w
              (create_booking_2pc S body w)
      go [] e = rw e (refuse (http_exception 404 field_not_found) (answer ∙ rw e refl))
      go (f ∷ []) e = elim (Bool-cases f.is_active) [
        | inl active ↦
            let passed : (require_active_field S body.field_id w).0 ≡ ok tt =
              answer ∙ rw (e, active) refl in
            let step : create_booking_2pc S body w
                ≡ (acquire S (slot_lock_key body.field_id (S.isoformat body.start_time))
                        two_pc_lock_ttl_ms
                      >>= with_token S L body)
                    w1 =
              ground (arith, passed) in
            rw (e, active, step)
              (KeepsRun-along (slot_of w) w w1 _ t1 (rw (t1, b1) at (locked_run w1)))
        | inr idle ↦
            rw (e, idle)
              (refuse (http_exception 409 field_not_available) (answer ∙ rw (e, idle) refl))
      ]
      go (f ∷ g ∷ fs) e = rw e (refuse (fault multiple_results) (answer ∙ rw e refl))

  -- While the services are up, `create_booking_2pc` keeps the verdict that the database and the lock
  -- of the slot decide. It refuses a request with the named exception and changes no row; it returns
  -- a booking for which `BookingStands`; or it raises 409 with the booking `Undone`.
  pub create_booking_2pc_refines :
      (w : S.World)
      → Keeps S L body
          (verdict body (tables w) ((broker w).stored (lock_of S L body)))
          w
          (create_booking_2pc S body w)
  unfolding slot_of
  create_booking_2pc_refines w =
      KeepsRun-Keeps (verdict body (tables w) ((broker w).stored (lock_of S L body))) w
        (admitted_run w)
