-- ===== src/FieldNode/TwoPhase/Unlock.antt =====
-- `create_booking_2pc` and the lock of its slot.
use ds_practice_court.Base.{
  Fault, ℕ, ◌≡◌, ◌≢◌, sym, ◌∙◌, ◌⊎◌, true, Option, none, some, List, ok, err, arith, inl, inr,
  Bool-cases, Option-cases, Action, Exn, bind_keeps, bind_cases, try_keeps, try_cases,
  finally_state, http_exception, fault, redis_error, raise, ◌>>=◌, ◌>>◌, pure, Result-cases,
  slot_locked, try_finally,
}
use ds_practice_court.Base.Text.{Text}
use ds_practice_court.Shared.Schemas.{confirmed, failed, FieldBookingRequest}
use ds_practice_court.Shared.Models.{FieldBooking}
use ds_practice_court.Services.{Services, IsLawful, Value, plain, booking_confirmed, booking_failed}
use ds_practice_court.Locks.{acquire, release, release_script, build_key}
use ds_practice_court.Locks.Ownership.{acquire-tables, acquire_outcome, release_outcome}
use ds_practice_court.Events.{publish_booking_event}
use ds_practice_court.Events.Quiet.{publish_quiet}
use ds_practice_court.FieldNode.FieldRepository
use ds_practice_court.FieldNode.FieldRepository.{is_field}
use ds_practice_court.FieldNode.FieldBookingRepository
use ds_practice_court.FieldNode.FieldBookingRepository.{slot_lock_key, release_quietly}
use ds_practice_court.FieldNode.FieldBookingRepository.Calls.{
  check_availability-broker, create_pending-broker, update_status-broker, get_by_id-broker,
}
use ds_practice_court.FieldNode.Coordinator.{txn_key, prepare_all, commit_all, rollback_all}
use ds_practice_court.FieldNode.Coordinator.Frame.{
  prepare_all-Holds, commit_all-Holds, rollback_all-Holds,
}
use ds_practice_court.FieldNode.Bookings.{require_active_field}
use ds_practice_court.FieldNode.TwoPhase.{
  two_pc_lock_ttl_ms, start_locals, abort_txn, Locals, lift, prepare_or_503, commit_txn, transact,
  booking_txn, on_exception, run_txn, create_booking_2pc, emergency_rollback,
  rollback_unless_committed, as_http,
}
use ds_practice_court.FieldNode.TwoPhase.Success.{require_active_field-tables, txn_key-ne-lock}

module _ (S : Services) (L : IsLawful S) (body : FieldBookingRequest) where
  open L use {tables, broker}

  abbrev pub lock_of : Text
  lock_of = build_key (slot_lock_key body.field_id (S.isoformat body.start_time))

  apart : (fid : ℕ) → lock_of ≢ txn_key fid
  apart fid e =
      txn_key-ne-lock S L body fid (slot_lock_key body.field_id (S.isoformat body.start_time))
        (sym e)

  pub require_active_field-broker :
      (i : ℕ) (w : S.World) → broker (require_active_field S i w).1 ≡ broker w
  unfolding require_active_field FieldRepository.get_by_id
  require_active_field-broker i w = ground (arith, L.fields_lawful.select-broker (is_field i) w)

  -- What the lock holds while the transaction runs.
  module _ (o : Option Value) where
    abbrev Holds : S.World → Type 0
    Holds w = (broker w).stored lock_of ≡ o

    failed-Holds :
        (fid : ℕ) (w : S.World)
        → Holds w
        → Holds (FieldBookingRepository.update_status S fid failed w).1
    failed-Holds fid w h = ground (arith, update_status-broker S L fid failed w, h)

    prepare_or_503-Holds :
        (fid : ℕ) (us : List ℕ) (w : S.World) → Holds w → Holds (prepare_or_503 S fid us w).1
    unfolding prepare_or_503
    prepare_or_503-Holds fid us w h =
        let h1 = prepare_all-Holds S L fid lock_of (apart fid) o us w h in
        try_keeps Holds (prepare_all S fid us) _ w h1 (λ _. h1)

    abort_txn-Holds :
        (fid : ℕ) (is : List ℕ) (w : S.World) → Holds w → Holds (abort_txn S body fid is w).1
    unfolding abort_txn
    abort_txn-Holds fid is w h =
        let w1 = (rollback_all S fid is w).1 in
        let h1 = rollback_all-Holds S L fid lock_of (apart fid) o is w h in
        let w2 = (FieldBookingRepository.update_status S fid failed w1).1 in
        let h2 = failed-Holds fid w1 h1 in
        bind_keeps Holds (rollback_all S fid is) _ w h1 λ _ _.
          bind_keeps Holds (FieldBookingRepository.update_status S fid failed) _ w1 h2 λ _ _.
            ground (
              arith,
              h2,
              publish_quiet S L booking_failed fid body.field_id failed body.user_id
                  (S.isoformat body.start_time) (S.isoformat body.end_time) w2,
            )

    commit_txn-Holds :
        (fid : ℕ) (is : List ℕ) (w : S.World) (x : Locals)
        → Holds w
        → Holds (commit_txn S body fid is (w, x)).1.0
    unfolding commit_txn
    commit_txn-Holds fid is w x h =
        let w1 = (FieldBookingRepository.update_status S fid confirmed w).1 in
        let w2 = (commit_all S fid is w1).1 in
        let h1 : Holds w1 = ground (arith, update_status-broker S L fid confirmed w, h) in
        let h2 = commit_all-Holds S L fid lock_of (apart fid) o is w1 h1 in
        let st = S.isoformat body.start_time in
        let en = S.isoformat body.end_time in
        let say =
          publish_booking_event S booking_confirmed fid body.field_id confirmed body.user_id st
            en in
        let w3 = (say w2).1 in
        let h3 : Holds w3 = ground (
          arith,
          h2,
          publish_quiet S L booking_confirmed fid body.field_id confirmed body.user_id st en w2,
        ) in
        bind_keeps (λ v. Holds v.0) (lift (FieldBookingRepository.update_status S fid confirmed)) _
          (w, x) h1
          λ _ _.
            bind_keeps (λ v. Holds v.0) (lift (commit_all S fid is)) _ (w1, x) h2
              λ _ _.
                bind_keeps (λ v. Holds v.0) (lift say) _ (w2, record x { committed = true }) h3
                  λ _ _. ground (arith, get_by_id-broker S L fid w3, h3)

    transact-Holds :
        (fid : ℕ) (w : S.World) (x : Locals) → Holds w → Holds (transact S body fid (w, x)).1.0
    unfolding transact
    transact-Holds fid w x h =
        let x1 = record x { field_booking_id = some fid } in
        let w1 = (prepare_or_503 S fid body.utility_ids w).1 in
        let h1 = prepare_or_503-Holds fid body.utility_ids w h in
        bind_keeps (λ v. Holds v.0) (lift (prepare_or_503 S fid body.utility_ids)) _ (w, x1) h1
          λ p _.
            let x2 = record x1 { utility_booking_ids = p.1 } in
            elim (Bool-cases p.0) [
              | inl all_yes ↦ rw all_yes (commit_txn-Holds fid p.1 w1 x2 h1)
              | inr some_no ↦ rw some_no (abort_txn-Holds fid p.1 w1 h1)
            ]

    booking_txn-Holds : (w : S.World) (x : Locals) → Holds w → Holds (booking_txn S body (w, x)).1.0
    unfolding booking_txn
    booking_txn-Holds w x h =
        let f = body.field_id in
        let st = body.start_time in
        let en = body.end_time in
        let w1 = (FieldBookingRepository.check_availability S f st en w).1 in
        let h1 : Holds w1 = ground (arith, check_availability-broker S L f st en w, h) in
        let w2 = (FieldBookingRepository.create_pending S f body.user_id st en w1).1 in
        let h2 : Holds w2 = ground (arith, create_pending-broker S L f body.user_id st en w1, h1) in
        bind_keeps (λ v. Holds v.0) (lift (FieldBookingRepository.check_availability S f st en)) _
          (w, x) h1
          λ b _. elim (Bool-cases b) [
            | inl vacant ↦ rw vacant (
                bind_keeps (λ v. Holds v.0)
                  (lift (FieldBookingRepository.create_pending S f body.user_id st en))
                  (λ q. transact S body q.id) (w1, x) h2 (λ q _. transact-Holds q.id w2 x h2))
            | inr busy ↦ rw busy h1
          ]

    emergency_rollback-Holds :
        (fid : ℕ) (is : List ℕ) (w : S.World) → Holds w → Holds (emergency_rollback S fid is w).1
    unfolding emergency_rollback
    emergency_rollback-Holds fid is w h =
        let w1 = (rollback_all S fid is w).1 in
        let h1 = rollback_all-Holds S L fid lock_of (apart fid) o is w h in
        let h2 = failed-Holds fid w1 h1 in
        let body_keeps =
          bind_keeps Holds (rollback_all S fid is)
            (λ _. (do _ ← FieldBookingRepository.update_status S fid failed; pure tt)) w h1
            λ _ _.
              bind_keeps Holds (FieldBookingRepository.update_status S fid failed) (λ _. pure tt) w1
                h2 λ _ _. h2 in
        try_keeps Holds
          (do rollback_all S fid is; _ ← FieldBookingRepository.update_status S fid failed; pure tt)
          (λ _. pure tt) w body_keeps (λ _. body_keeps)

    rollback_unless_committed-Holds :
        (x : Locals) (w : S.World) → Holds w → Holds (rollback_unless_committed S x w).1
    unfolding rollback_unless_committed
    rollback_unless_committed-Holds x w h = elim (Option-cases x.field_booking_id) [
      | inl absent ↦ rw absent h
      | inr (fid, is_fid) ↦ elim (Bool-cases x.committed) [
        | inl done ↦ rw (is_fid, done) h
        | inr open_txn ↦
            rw (is_fid, open_txn) (emergency_rollback-Holds fid x.utility_booking_ids w h)
      ]
    ]

    run_txn-Holds : (w : S.World) → Holds w → Holds (run_txn S body w).1
    unfolding run_txn on_exception
    run_txn-Holds w h =
        let h1 = booking_txn-Holds w start_locals h in
        try_keeps (λ v. Holds v.0) (booking_txn S body) (on_exception S) (w, start_locals) h1
          (λ e. rollback_unless_committed-Holds _ _ h1)

  -- Whatever the transaction raises, it raises as an HTTPException.
  run_txn_http : (w : S.World) {f : Fault} → (run_txn S body w).0 ≢ err (fault f)
  unfolding run_txn on_exception as_http
  run_txn_http w h = elim (try_cases (booking_txn S body) (on_exception S) (w, start_locals)) [
    | inl (e, _, s) ↦ ground (arith, h, s)
    | inr (a, _, s) ↦ ground (arith, h, s)
  ]

  -- What the endpoint does with the token, if it has got one.
  abbrev pub with_token : Option Text → Action S.World (Option FieldBooking)
  with_token token = elim token [
    | none ↦ raise (http_exception 409 slot_locked)
    | some t ↦
        try_finally (run_txn S body)
          (release_quietly S (slot_lock_key body.field_id (S.isoformat body.start_time)) t)
  ]

  release_err :
      (key t : Text) (w : S.World) {x : Exn} → (release S key t w).0 ≡ err x → x ≡ fault redis_error
  unfolding release
  release_err key t w {x} h =
      ground (arith, h, L.eval-err (release_script S (build_key key) t) w {e = x})

  acquire_err :
      (key : Text) (ttl : ℕ) (w : S.World) {x : Exn}
      → (acquire S key ttl w).0 ≡ err x
      → x ≡ fault redis_error
  unfolding acquire
  acquire_err key ttl w {x} h =
      let (t, made) = L.uuid4-ok w in
      ground (arith, h, made, L.set_nx-err (build_key key) (plain t) ttl (S.uuid4 w).1 {e = x})

  -- A release that returns has freed a lock that held its token.
  release_quietly_frees :
      (t : Text) (w : S.World)
      → (broker w).stored lock_of ≡ some (plain t)
      → let key = slot_lock_key body.field_id (S.isoformat body.start_time) in
        ((release_quietly S key t w).0 ≡ err (fault redis_error))
        ⊎ ((broker (release_quietly S key t w).1).stored lock_of ≡ none)
  unfolding release_quietly
  release_quietly_frees t w h =
      let key = slot_lock_key body.field_id (S.isoformat body.start_time) in
      elim (Result-cases (release S key t w).0) [
        | inl (b, e) ↦ elim (release_outcome S L key t w e) [
          | inl (_, _, gone) ↦ inr (ground (arith, e, gone))
          | inr (other, _, _) ↦ absurd (other h)
        ]
        | inr (x, e) ↦ inl (ground (arith, e, release_err key t w e))
      ]

  -- If the lock of the slot is free before a run of `create_booking_2pc`, it is free after it,
  -- whether it returns or raises, unless the failure of a Redis command is what it raises.
  pub create_booking_2pc_unlocks :
      (w : S.World)
      → (broker w).stored lock_of ≡ none
      → (create_booking_2pc S body w).0 ≢ err (fault redis_error)
      → (broker (create_booking_2pc S body w).1).stored lock_of ≡ none
  unfolding create_booking_2pc
  create_booking_2pc_unlocks w free calm =
      let key = slot_lock_key body.field_id (S.isoformat body.start_time) in
      let w1 = (require_active_field S body.field_id w).1 in
      let free1 : (broker w1).stored lock_of ≡ none =
        ground (arith, free, require_active_field-broker body.field_id w) in
      let w2 = (acquire S key two_pc_lock_ttl_ms w1).1 in
      elim (bind_cases (require_active_field S body.field_id)
        (λ _. acquire S key two_pc_lock_ttl_ms >>= with_token) w) [
          | inl (e, _, s) ↦ rw s free1
          | inr (d, _, s) ↦ elim (bind_cases (acquire S key two_pc_lock_ttl_ms) with_token w1) [
            | inl (e, raised, s2) ↦
                absurd (calm (ground (arith, s, s2, acquire_err key two_pc_lock_ttl_ms w1 raised)))
            | inr (token, e, s2) ↦ elim (acquire_outcome S L key two_pc_lock_ttl_ms w1 e) [
              | inr (_, taken, _) ↦ absurd (taken free1)
              | inl (t, is_t, _, held) ↦
                  let w3 = (run_txn S body w2).1 in
                  elim (release_quietly_frees t w3 (run_txn-Holds (some (plain t)) w2 held)) [
                    | inl raised ↦ absurd (calm (ground (arith, s, s2, is_t, raised)))
                    | inr gone ↦
                        rw
                          (s, s2, is_t, finally_state (run_txn S body) (release_quietly S key t) w2)
                          gone
                  ]
            ]
          ]
        ]

  -- While the lock of the slot is taken, a run of `create_booking_2pc` returns no booking and leaves
  -- the database as it was; unless the failure of a Redis command is what it raises, it leaves the
  -- lock to its holder.
  pub create_booking_2pc_excluded :
      (w : S.World) {v : Value}
      → (broker w).stored lock_of ≡ some v
      → ((o : Option FieldBooking) → (create_booking_2pc S body w).0 ≢ ok o)
        × (tables (create_booking_2pc S body w).1 ≡ tables w)
        × (((create_booking_2pc S body w).0 ≡ err (fault redis_error))
            ⊎ ((broker (create_booking_2pc S body w).1).stored lock_of ≡ some v))
  unfolding create_booking_2pc
  create_booking_2pc_excluded w {v} taken =
      let key = slot_lock_key body.field_id (S.isoformat body.start_time) in
      let w1 = (require_active_field S body.field_id w).1 in
      let t1 = require_active_field-tables S L body body.field_id w in
      let held1 : (broker w1).stored lock_of ≡ some v =
        ground (arith, taken, require_active_field-broker body.field_id w) in
      let t2 : tables (acquire S key two_pc_lock_ttl_ms w1).1 ≡ tables w =
        acquire-tables S L key two_pc_lock_ttl_ms w1 ∙ t1 in
      elim (bind_cases (require_active_field S body.field_id)
        (λ _. acquire S key two_pc_lock_ttl_ms >>= with_token) w) [
          | inl (e, _, s) ↦ (λ o h. ground (arith, h, s), rw s t1, inr (rw s held1))
          | inr (d, _, s) ↦ elim (bind_cases (acquire S key two_pc_lock_ttl_ms) with_token w1) [
            | inl (e, raised, s2) ↦ (
              λ o h. ground (arith, h, s, s2),
              rw (s, s2) t2,
              inl (ground (arith, s, s2, acquire_err key two_pc_lock_ttl_ms w1 raised)),
            )
            | inr (token, e, s2) ↦ elim (acquire_outcome S L key two_pc_lock_ttl_ms w1 e) [
              | inl (t, _, free, _) ↦ absurd (cc)
              | inr (is_none, _, kept) ↦ (
                λ o h. ground (arith, h, s, s2, is_none),
                rw (s, s2, is_none) t2,
                inr (rw (s, s2, is_none) (kept ∙ held1)),
              )
            ]
          ]
        ]
