-- ===== src/FieldNode/TwoPhase/Overlap.antt =====
-- `create_booking_2pc` keeps the active bookings of a field apart, however it ends.
use ds_practice_court.Base.{
  ℕ, ◌≡◌, refl, true, none, some, List, arith, find?, inl, inr, Bool-cases, Option-cases, Exn,
  bind_keeps, try_keeps, finally_state, ◌>>=◌, ◌>>◌, pure,
}
use ds_practice_court.Shared.Schemas.{confirmed, failed, FieldBookingRequest}
use ds_practice_court.Services.{Services, IsLawful, booking_confirmed, booking_failed}
use ds_practice_court.Locks.{acquire}
use ds_practice_court.Locks.Ownership.{acquire-tables}
use ds_practice_court.Events.{publish_booking_event}
use ds_practice_court.Events.Quiet.{publish_quiet}
use ds_practice_court.FieldNode.FieldBookingRepository
use ds_practice_court.FieldNode.FieldBookingRepository.{
  slot_lock_key, blocks, new_booking, release_quietly,
}
use ds_practice_court.FieldNode.FieldBookingRepository.Calls.{
  check_availability_answer, check_availability-tables, create_pending_ok, get_by_id-tables,
}
use ds_practice_court.FieldNode.FieldBookingRepository.Overlap.{
  NoOverlap, WakesNone, WakesNone-inactive, WakesNone-last, update_status-NoOverlap,
  create_pending-NoOverlap,
}
use ds_practice_court.FieldNode.Coordinator.{commit_all, rollback_all}
use ds_practice_court.FieldNode.Coordinator.Prepare.{prepare_all-OnlyAdds}
use ds_practice_court.FieldNode.Coordinator.Commit.{commit_all-field_bookings}
use ds_practice_court.FieldNode.Coordinator.Rollback.{rollback_all_outcome}
use ds_practice_court.FieldNode.Bookings.{require_active_field}
use ds_practice_court.FieldNode.TwoPhase.{
  two_pc_lock_ttl_ms, start_locals, abort_txn, Locals, lift, prepare_or_503, commit_txn, transact,
  booking_txn, on_exception, run_txn, create_booking_2pc, emergency_rollback,
  rollback_unless_committed,
}
use ds_practice_court.FieldNode.TwoPhase.Success.{
  is_none-none, release_quietly-tables, require_active_field-tables,
}

module _ (S : Services) (L : IsLawful S) where
  open L use {tables, broker}

  -- The active bookings of each field are apart.
  abbrev pub Apart : S.World → Type 0
  Apart w = NoOverlap (tables w).field_bookings

  -- And nothing overlaps when the booking `fid` is confirmed.
  abbrev Ready : ℕ → S.World → Type 0
  Ready fid w = WakesNone fid confirmed (tables w).field_bookings × Apart w

  Apart-along :
      (w v : S.World) → (tables v).field_bookings ≡ (tables w).field_bookings → Apart w → Apart v
  Apart-along w v e h = rw e h

  failed-Apart :
      (fid : ℕ) (w : S.World)
      → Apart w
      → Apart (FieldBookingRepository.update_status S fid failed w).1
  failed-Apart fid w h =
      update_status-NoOverlap S L fid failed w
        (WakesNone-inactive fid failed (tables w).field_bookings refl) h

  rollback_all-Apart :
      (fid : ℕ) (is : List ℕ) (w : S.World) → Apart w → Apart (rollback_all S fid is w).1
  rollback_all-Apart fid is w h =
      Apart-along w _ (ground (arith, (rollback_all_outcome S L fid is w).1.0)) h

  prepare_or_503-field_bookings :
      (fid : ℕ) (us : List ℕ) (w : S.World)
      → (tables (prepare_or_503 S fid us w).1).field_bookings ≡ (tables w).field_bookings
  unfolding prepare_or_503
  prepare_or_503-field_bookings fid us w = ground (arith, (prepare_all-OnlyAdds S L fid us w).0)

  module _ (body : FieldBookingRequest) where
    abort_txn-Apart :
        (fid : ℕ) (is : List ℕ) (w : S.World) → Apart w → Apart (abort_txn S body fid is w).1
    unfolding abort_txn
    abort_txn-Apart fid is w h =
        bind_keeps Apart (rollback_all S fid is) _ w (rollback_all-Apart fid is w h) λ _ _.
          let w1 = (rollback_all S fid is w).1 in
          let h1 = rollback_all-Apart fid is w h in
          bind_keeps Apart (FieldBookingRepository.update_status S fid failed) _ w1
            (failed-Apart fid w1 h1)
            λ _ _.
              let w2 = (FieldBookingRepository.update_status S fid failed w1).1 in
              Apart-along w2 _
                (ground (
                  arith,
                  publish_quiet S L booking_failed fid body.field_id failed body.user_id
                      (S.isoformat body.start_time) (S.isoformat body.end_time) w2,
                ))
                (failed-Apart fid w1 h1)

    commit_txn-Apart :
        (fid : ℕ) (is : List ℕ) (w : S.World) (x : Locals)
        → Ready fid w
        → Apart (commit_txn S body fid is (w, x)).1.0
    unfolding commit_txn
    commit_txn-Apart fid is w x (k, h) =
        let w1 = (FieldBookingRepository.update_status S fid confirmed w).1 in
        let w2 = (commit_all S fid is w1).1 in
        let h1 = update_status-NoOverlap S L fid confirmed w k h in
        let h2 = Apart-along w1 w2 (commit_all-field_bookings S L fid is w1) h1 in
        let st = S.isoformat body.start_time in
        let en = S.isoformat body.end_time in
        let w3 =
          (publish_booking_event S booking_confirmed fid body.field_id confirmed body.user_id st en
            w2).1 in
        let h3 =
          Apart-along w2 w3
            (ground (
              arith,
              publish_quiet S L booking_confirmed fid body.field_id confirmed body.user_id st en w2,
            ))
            h2 in
        bind_keeps (λ v. Apart v.0) (lift (FieldBookingRepository.update_status S fid confirmed)) _
          (w, x) h1
          λ _ _.
            bind_keeps (λ v. Apart v.0) (lift (commit_all S fid is)) _ (w1, x) h2
              λ _ _.
                bind_keeps (λ v. Apart v.0)
                  (lift (
                    publish_booking_event S booking_confirmed fid body.field_id confirmed
                      body.user_id st en))
                  _ (w2, record x { committed = true }) h3
                  λ _ _. Apart-along w3 _ (ground (arith, get_by_id-tables S L fid w3)) h3

    prepared_step :
        (fid : ℕ) (w : S.World)
        → Ready fid w
        → Ready fid (prepare_or_503 S fid body.utility_ids w).1
    prepared_step fid w h = rw (prepare_or_503-field_bookings fid body.utility_ids w) h

    transact-Apart :
        (fid : ℕ) (w : S.World) (x : Locals) → Ready fid w → Apart (transact S body fid (w, x)).1.0
    unfolding transact
    transact-Apart fid w x h =
        let x1 = record x { field_booking_id = some fid } in
        let w1 = (prepare_or_503 S fid body.utility_ids w).1 in
        let h1 = prepared_step fid w h in
        bind_keeps (λ v. Apart v.0) (lift (prepare_or_503 S fid body.utility_ids)) _ (w, x1) h1.1
          λ p _.
            let x2 = record x1 { utility_booking_ids = p.1 } in
            elim (Bool-cases p.0) [
              | inl all_yes ↦ rw all_yes (commit_txn-Apart fid p.1 w1 x2 h1)
              | inr some_no ↦ rw some_no (abort_txn-Apart fid p.1 w1 h1.1)
            ]

    create_step :
        (w : S.World) (x : Locals)
        → Apart w
        → find? (blocks body.field_id body.start_time body.end_time) (tables w).field_bookings
          ≡ none
        → Apart
            ((lift (
                  FieldBookingRepository.create_pending S body.field_id body.user_id body.start_time
                    body.end_time)
                >>= λ q. transact S body q.id)
              (w, x)).1.0
    create_step w x h free =
        let f = body.field_id in
        let st = body.start_time in
        let en = body.end_time in
        let w1 = (FieldBookingRepository.create_pending S f body.user_id st en w).1 in
        let h1 = create_pending-NoOverlap S L f body.user_id st en w free h in
        bind_keeps (λ v. Apart v.0)
          (lift (FieldBookingRepository.create_pending S f body.user_id st en)) _ (w, x) h1
          λ q e.
            let (i, now, made, fresh, after) = create_pending_ok S L f body.user_id st en w e in
            let row = new_booking f body.user_id st en i now in
            transact-Apart q.id w1 x (
              rw (after, made)
                  (WakesNone-last i confirmed (tables w).field_bookings row fresh refl),
              h1,
            )

    booking_txn-Apart : (w : S.World) (x : Locals) → Apart w → Apart (booking_txn S body (w, x)).1.0
    unfolding booking_txn
    booking_txn-Apart w x h =
        let f = body.field_id in
        let st = body.start_time in
        let en = body.end_time in
        let w1 = (FieldBookingRepository.check_availability S f st en w).1 in
        let t1 = check_availability-tables S L f st en w in
        let h1 = Apart-along w w1 (ground (arith, t1)) h in
        bind_keeps (λ v. Apart v.0) (lift (FieldBookingRepository.check_availability S f st en)) _
          (w, x) h1
          λ b e. elim (Bool-cases b) [
            | inl vacant ↦
                let free : find? (blocks f st en) (tables w).field_bookings ≡ none =
                  is_none-none
                    (ground (arith, check_availability_answer S L f st en w e, vacant)) in
                rw vacant (create_step w1 x h1 (ground (arith, free, t1)))
            | inr busy ↦ rw busy h1
          ]

    emergency_rollback-Apart :
        (fid : ℕ) (is : List ℕ) (w : S.World) → Apart w → Apart (emergency_rollback S fid is w).1
    unfolding emergency_rollback
    emergency_rollback-Apart fid is w h =
        let w1 = (rollback_all S fid is w).1 in
        let h1 = rollback_all-Apart fid is w h in
        let h2 = failed-Apart fid w1 h1 in
        try_keeps Apart
          (do rollback_all S fid is; _ ← FieldBookingRepository.update_status S fid failed; pure tt)
          _ w
          (bind_keeps Apart (rollback_all S fid is) _ w h1 λ _ _.
            bind_keeps Apart (FieldBookingRepository.update_status S fid failed) (λ _. pure tt) w1
              h2 λ _ _. h2)
          (λ _. bind_keeps Apart (rollback_all S fid is) _ w h1 λ _ _.
            bind_keeps Apart (FieldBookingRepository.update_status S fid failed) (λ _. pure tt) w1
              h2 λ _ _. h2)

    rollback_unless_committed-Apart :
        (x : Locals) (w : S.World) → Apart w → Apart (rollback_unless_committed S x w).1
    unfolding rollback_unless_committed
    rollback_unless_committed-Apart x w h = elim (Option-cases x.field_booking_id) [
      | inl absent ↦ rw absent h
      | inr (fid, is_fid) ↦ elim (Bool-cases x.committed) [
        | inl done ↦ rw (is_fid, done) h
        | inr open_txn ↦
            rw (is_fid, open_txn) (emergency_rollback-Apart fid x.utility_booking_ids w h)
      ]
    ]

    on_exception-Apart :
        (e : Exn) (w : S.World) (x : Locals) → Apart w → Apart (on_exception S e (w, x)).1.0
    unfolding on_exception
    on_exception-Apart e w x h = rollback_unless_committed-Apart x w h

    run_txn-Apart : (w : S.World) → Apart w → Apart (run_txn S body w).1
    unfolding run_txn
    run_txn-Apart w h =
        let h1 = booking_txn-Apart w start_locals h in
        try_keeps (λ v. Apart v.0) (booking_txn S body) (on_exception S) (w, start_locals) h1
          (λ e. on_exception-Apart e _ _ h1)

    -- If the active bookings of each field do not overlap before a run of `create_booking_2pc`, they
    -- do not overlap after it, whether it returns or raises, and whatever the network did.
    pub create_booking_2pc-NoOverlap :
        (w : S.World)
        → NoOverlap (tables w).field_bookings
        → NoOverlap (tables (create_booking_2pc S body w).1).field_bookings
    unfolding create_booking_2pc
    create_booking_2pc-NoOverlap w h =
        let key = slot_lock_key body.field_id (S.isoformat body.start_time) in
        let w1 = (require_active_field S body.field_id w).1 in
        let w2 = (acquire S key two_pc_lock_ttl_ms w1).1 in
        let h1 =
          Apart-along w w1 (ground (arith, require_active_field-tables S L body body.field_id w))
            h in
        let h2 =
          Apart-along w1 w2 (ground (arith, acquire-tables S L key two_pc_lock_ttl_ms w1)) h1 in
        bind_keeps Apart (require_active_field S body.field_id) _ w h1 λ _ _.
          bind_keeps Apart (acquire S key two_pc_lock_ttl_ms) _ w1 h2 λ token _.
            elim (Option-cases token) [
              | inl busy ↦ rw busy h2
              | inr (t, held) ↦
                  let w3 = (run_txn S body w2).1 in
                  rw (held, finally_state (run_txn S body) (release_quietly S key t) w2)
                    (rw (release_quietly-tables S L body key t w3) (run_txn-Apart w2 h2))
            ]
