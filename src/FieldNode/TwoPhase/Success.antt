-- ===== src/FieldNode/TwoPhase/Success.antt =====
-- What a booking that `create_booking_2pc` returns stands for.
use ds_practice_court.FieldNode.FieldRepository.Calls.{get_field-tables, field_found}
use ds_practice_court.FieldNode.FieldRepository.{is_field}
use ds_practice_court.FieldNode.Bookings.{require_active_field}
use ds_practice_court.Base.{
  finally_ok, try_finally, ◌∙◌, sym, ap, ℕ, ◌≡◌, ◌≢◌, refl, ◌⊎◌, inl, inr, Bool, true, false,
  Option, none, some, List, [], ◌∷◌, ◌++◌, ok, err, arith, Bool-cases, Option-cases, find?, length,
  bind_ok, try_cases, Done, find?-append_none, ==_refl, find?-change_where, ◌==◌, Result, Exn,
  if◌then◌else◌, Action,
}
use ds_practice_court.Base.Text.{Text}
use ds_practice_court.Shared.Schemas.{pending, confirmed, committed, FieldBookingRequest}
use ds_practice_court.Shared.Models.{Tables, Field, FieldBooking}
use ds_practice_court.Services.{Services, IsLawful, put_field_bookings, booking_confirmed}
use ds_practice_court.Locks.{acquire, build_key}
use ds_practice_court.Locks.Ownership.{acquire-tables, release-tables, release_ne}
use ds_practice_court.Events.{publish_booking_event}
use ds_practice_court.Events.Quiet.{publish_quiet}
use ds_practice_court.FieldNode.FieldBookingRepository
use ds_practice_court.FieldNode.FieldRepository
use ds_practice_court.FieldNode.FieldBookingRepository.{
  is_none, blocks, is_booking, new_booking, with_status, slot_lock_key, release_quietly,
}
use ds_practice_court.FieldNode.FieldBookingRepository.Calls.{
  check_availability_answer, check_availability-tables, get_by_id-tables, get_by_id-broker,
  get_by_id_finds, update_status_ok, create_pending_ok,
}
use ds_practice_court.FieldNode.Coordinator.{txn_key, prepare_all, commit_all}
use ds_practice_court.FieldNode.Coordinator.Redis.{txn_value}
use ds_practice_court.FieldNode.Coordinator.Prepare.{Booked, prepare_all_ok, prepare_all-OnlyAdds}
use ds_practice_court.FieldNode.Coordinator.Commit.{Booked-Marked, commit_all_ok}
use ds_practice_court.FieldNode.TwoPhase.{
  two_pc_lock_ttl_ms, start_locals, abort_txn, Locals, lift, prepare_or_503, commit_txn, transact,
  booking_txn, on_exception, run_txn, create_booking_2pc,
}

pub is_none-none : {A : Type 0} {o : Option A} → is_none o ≡ true → o ≡ none
unfolding is_none
is_none-none {o = none} h = refl
is_none-none {o = some a} h = cc

module _ (S : Services) (L : IsLawful S) (body : FieldBookingRequest) where
  open L use {tables, broker}

  -- A finished transaction: the field booking and every utility booking are CONFIRMED, Redis says
  -- COMMITTED, and the answer is the field booking.
  abbrev pub Finished : ℕ → ℕ → List ℕ → Option FieldBooking → S.World → Type 0
  Finished fid now is o w =
      (o
        ≡ some (
            with_status confirmed
              (new_booking body.field_id body.user_id body.start_time body.end_time fid now)))
      × (find? (is_booking fid) (tables w).field_bookings ≡ o)
      × Booked fid confirmed (tables w).utility_bookings body.utility_ids is
      × (length is ≡ length body.utility_ids)
      × ((broker w).stored (txn_key fid) ≡ some (txn_value committed is))

  Finished-along :
      (fid now : ℕ) (is : List ℕ) (o : Option FieldBooking) (w v : S.World)
      → v ≡ w
      → Finished fid now is o w
      → Finished fid now is o v
  Finished-along fid now is o w v e d = rw e d

  confirmed_row :
      (fid : ℕ) (t t' : Tables) (b : FieldBooking)
      → t'
        ≡ put_field_bookings
            (ds_practice_court.Base.change_where
              (is_booking fid)
              (with_status confirmed)
              t.field_bookings)
            t
      → find? (is_booking fid) t.field_bookings ≡ some b
      → find? (is_booking fid) t'.field_bookings ≡ some (with_status confirmed b)
  confirmed_row fid t t' b e found = ground (
    arith,
    e,
    found,
    find?-change_where (λ r. r.id) (with_status confirmed) (λ r. refl) fid fid t.field_bookings,
    ==_refl fid,
  )

  commit_txn_ok :
      (fid now : ℕ) (is : List ℕ) (w : S.World) (x : Locals) {o : Option FieldBooking}
      → (commit_txn S body fid is (w, x)).0 ≡ ok o
      → find? (is_booking fid) (tables w).field_bookings
        ≡ some (new_booking body.field_id body.user_id body.start_time body.end_time fid now)
      → Booked fid pending (tables w).utility_bookings body.utility_ids is
      → length is ≡ length body.utility_ids
      → Finished fid now is o (commit_txn S body fid is (w, x)).1.0
  unfolding commit_txn
  commit_txn_ok fid now is w x {o} h found booked full =
      let b = new_booking body.field_id body.user_id body.start_time body.end_time fid now in
      let (o1, e1, s1) =
        bind_ok (lift (FieldBookingRepository.update_status S fid confirmed)) _ (w, x) h in
      let w1 = (FieldBookingRepository.update_status S fid confirmed w).1 in
      let set = update_status_ok S L fid confirmed w e1 in
      let (d, e2, s2) = bind_ok (lift (commit_all S fid is)) _ (w1, x) (rw s1 at h) in
      let w2 = (commit_all S fid is w1).1 in
      let (marked, stored) = commit_all_ok S L fid is w1 e2 in
      let row1 = confirmed_row fid (tables w) (tables w1) b set found in
      let row2 : find? (is_booking fid) (tables w2).field_bookings
          ≡ some (with_status confirmed b) =
        ground (arith, row1, marked.0) in
      let booked2 =
        Booked-Marked fid pending confirmed body.utility_ids is (tables w1) (tables w2) marked
          (ground (arith, booked, set)) in
      let x2 = record x { committed = true } in
      let st = S.isoformat body.start_time in
      let en = S.isoformat body.end_time in
      let (quiet, same, kept) =
        publish_quiet S L booking_confirmed fid body.field_id confirmed body.user_id st en w2 in
      let (d3, e3, s3) =
        bind_ok
          (lift (
            publish_booking_event S booking_confirmed fid body.field_id confirmed body.user_id st
              en))
          (λ _. lift (FieldBookingRepository.get_by_id S fid)) (w2, x2) (rw (s1, s2) at h) in
      let w3 =
        (publish_booking_event S booking_confirmed fid body.field_id confirmed body.user_id st en
          w2).1 in
      let answer = get_by_id_finds S L fid w3 {o = o} (rw (s1, s2, s3) at h) in
      let t4 = get_by_id-tables S L fid w3 in
      let b4 = get_by_id-broker S L fid w3 in
      let is_row : o ≡ some (with_status confirmed b) = ground (arith, answer, same, row2) in
      rw (s1, s2, s3)
        (
          is_row,
          ground (arith, t4, same, row2, is_row),
          rw (t4, same) booked2,
          full,
          ground (arith, b4, kept, stored),
        )

  prepare_or_503_ok :
      (fid : ℕ) (us : List ℕ) (w : S.World) {p : Bool × List ℕ}
      → (prepare_or_503 S fid us w).0 ≡ ok p
      → ((prepare_all S fid us w).0 ≡ ok p)
        × ((prepare_or_503 S fid us w).1 ≡ (prepare_all S fid us w).1)
  unfolding prepare_or_503
  prepare_or_503_ok fid us w h = ground arith

  abort_txn_raises :
      (fid : ℕ) (is : List ℕ) (w : S.World) {o : Option FieldBooking}
      → (abort_txn S body fid is w).0 ≢ ok o
  unfolding abort_txn
  abort_txn_raises fid is w h = ground arith

  transact_ok :
      (fid now : ℕ) (w : S.World) (x : Locals) {o : Option FieldBooking}
      → (transact S body fid (w, x)).0 ≡ ok o
      → find? (is_booking fid) (tables w).field_bookings
        ≡ some (new_booking body.field_id body.user_id body.start_time body.end_time fid now)
      → (is : List ℕ) × Finished fid now is o (transact S body fid (w, x)).1.0
  unfolding transact
  transact_ok fid now w x {o} h found =
      let x1 = record x { field_booking_id = some fid } in
      let (p, e, s) = bind_ok (lift (prepare_or_503 S fid body.utility_ids)) _ (w, x1) h in
      let w1 = (prepare_or_503 S fid body.utility_ids w).1 in
      let x2 = record x1 { utility_booking_ids = p.1 } in
      let (e', same) = prepare_or_503_ok fid body.utility_ids w e in
      let (booked, _, full) = prepare_all_ok S L fid body.utility_ids w {b = p.0} {is = p.1} e' in
      let kept = prepare_all-OnlyAdds S L fid body.utility_ids w in
      elim (Bool-cases p.0) [
        | inl all_yes ↦
            let s2 : transact S body fid (w, x) ≡ commit_txn S body fid p.1 (w1, x2) =
              s ∙ rw all_yes in
            rw s2 (
              p.1,
              commit_txn_ok fid now p.1 w1 x2 (rw s2 at h) (ground (arith, found, kept.0, same))
                  (rw same booked) (ground (arith, full, all_yes)),
            )
        | inr some_no ↦
            let s2 : transact S body fid (w, x) ≡ lift (abort_txn S body fid p.1) (w1, x2) =
              s ∙ rw some_no in
            absurd (abort_txn_raises fid p.1 w1 {o = o} (ap (λ r. r.0) (sym s2) ∙ h))
      ]

  booking_txn_ok :
      (w : S.World) (x : Locals) {o : Option FieldBooking}
      → (booking_txn S body (w, x)).0 ≡ ok o
      → (find? (blocks body.field_id body.start_time body.end_time) (tables w).field_bookings
          ≡ none)
        × ((fid : ℕ) × (now : ℕ) × (is : List ℕ) × (find? (is_booking fid) (tables w).field_bookings
              ≡ none)
            × Finished fid now is o (booking_txn S body (w, x)).1.0)
  unfolding booking_txn
  booking_txn_ok w x {o} h =
      let f = body.field_id in
      let st = body.start_time in
      let en = body.end_time in
      let (b, e, s) =
        bind_ok (lift (FieldBookingRepository.check_availability S f st en)) _ (w, x) h in
      let w1 = (FieldBookingRepository.check_availability S f st en w).1 in
      let answer = check_availability_answer S L f st en w e in
      let t1 = check_availability-tables S L f st en w in
      elim (Bool-cases b) [
        | inl free ↦
            let (q, e2, s2) =
              bind_ok (lift (FieldBookingRepository.create_pending S f body.user_id st en))
                (λ q. transact S body q.id) (w1, x) (rw (s, free) at h) in
            let w2 = (FieldBookingRepository.create_pending S f body.user_id st en w1).1 in
            let (fid, now, made, fresh, after) = create_pending_ok S L f body.user_id st en w1 e2 in
            let s3 : booking_txn S body (w, x) ≡ transact S body fid (w2, x) =
              ground (arith, s, free, s2, made) in
            let found : find? (is_booking fid) (tables w2).field_bookings
                ≡ some (new_booking f body.user_id st en fid now) =
              ground (
                arith,
                after,
                made,
                find?-append_none (is_booking fid) (tables w1).field_bookings (q ∷ []) fresh,
              ) in
            let (is, done) = transact_ok fid now w2 x {o = o} (rw s3 at h) found in
            (
              is_none-none (ground (arith, answer, free)),
              (
                fid,
                now,
                is,
                ground (arith, fresh, t1),
                Finished-along fid now is o _ _ (ap (λ r. r.1.0) s3) done,
              ),
            )
        | inr busy ↦ ground (arith, h, s, busy)
      ]

  on_exception_raises :
      (e : Exn) (w : S.World) (x : Locals) {o : Option FieldBooking}
      → (on_exception S e (w, x)).0 ≢ ok o
  unfolding on_exception
  on_exception_raises e w x h = ground arith

  run_txn_ok :
      (w : S.World) {o : Option FieldBooking}
      → (run_txn S body w).0 ≡ ok o
      → (find? (blocks body.field_id body.start_time body.end_time) (tables w).field_bookings
          ≡ none)
        × ((fid : ℕ) × (now : ℕ) × (is : List ℕ) × (find? (is_booking fid) (tables w).field_bookings
              ≡ none)
            × Finished fid now is o (run_txn S body w).1)
  unfolding run_txn
  run_txn_ok w {o} h = elim (try_cases (booking_txn S body) (on_exception S) (w, start_locals)) [
    | inl (e, raised, s) ↦
        let (w1, x1) = (booking_txn S body (w, start_locals)).1 in
        absurd (on_exception_raises e w1 x1 {o = o} (ground (arith, h, s)))
    | inr (a, e, s) ↦
        let same : a ≡ o = ground (arith, h, s) in
        let (free, (fid, now, is, fresh, done)) = booking_txn_ok w start_locals (e ∙ ap ok same) in
        (free, (fid, now, is, fresh, Finished-along fid now is o _ _ (ap (λ r. r.1.0) s) done))
  ]

  require_active_field_ok :
      (i : ℕ) (w : S.World)
      → (require_active_field S i w).0 ≡ ok tt
      → ((f : Field) × (find? (is_field i) (tables w).fields ≡ some f) × (f.is_active ≡ true))
        × (tables (require_active_field S i w).1 ≡ tables w)
  unfolding require_active_field
  require_active_field_ok i w h =
      let (found, e, s) = bind_ok (FieldRepository.get_by_id S i) _ w h in
      let w1 = (FieldRepository.get_by_id S i w).1 in
      let there = field_found S L i w e in
      let t1 = get_field-tables S L i w in
      elim (Option-cases found) [
        | inl absent ↦ absurd (ground (arith, h, s, absent))
        | inr (f, is_f) ↦ elim (Bool-cases f.is_active) [
          | inl active ↦
              ((f, ground (arith, there, is_f), active), ground (arith, s, is_f, active, t1))
          | inr idle ↦ absurd (ground (arith, h, s, is_f, idle))
        ]
      ]

  pub require_active_field-tables :
      (i : ℕ) (w : S.World) → tables (require_active_field S i w).1 ≡ tables w
  unfolding require_active_field
  require_active_field-tables i w = ground (arith, get_field-tables S L i w)

  pub txn_key-ne-lock : (fid : ℕ) (key : Text) → txn_key fid ≢ build_key key
  txn_key-ne-lock fid key e = cc

  pub release_quietly-tables :
      (key token : Text) (w : S.World) → tables (release_quietly S key token w).1 ≡ tables w
  unfolding release_quietly
  release_quietly-tables key token w = ground (arith, release-tables S L key token w)

  pub release_quietly_ne :
      (key token : Text) (w : S.World) (j : Text)
      → j ≢ build_key key
      → (broker (release_quietly S key token w).1).stored j ≡ (broker w).stored j
  unfolding release_quietly
  release_quietly_ne key token w j h = ground (arith, release_ne S L key token w j h)

  Finished-release :
      (fid now : ℕ) (is : List ℕ) (o : Option FieldBooking) (key token : Text) (w : S.World)
      → Finished fid now is o w
      → Finished fid now is o (release_quietly S key token w).1
  Finished-release fid now is o key token w (answer, row, booked, full, stored) = (
    answer,
    rw (release_quietly-tables key token w) row,
    rw (release_quietly-tables key token w) booked,
    full,
    release_quietly_ne key token w (txn_key fid) (txn_key-ne-lock fid key) ∙ stored,
  )

  -- What a returned booking says of the worlds before and after.
  abbrev pub BookingStands : S.World → Option FieldBooking → S.World → Type 0
  BookingStands w o w' =
      ((f : Field) × (find? (is_field body.field_id) (tables w).fields ≡ some f)
        × (f.is_active ≡ true))
      × (find? (blocks body.field_id body.start_time body.end_time) (tables w).field_bookings
          ≡ none)
      × ((fid : ℕ) × (now : ℕ) × (is : List ℕ) × (find? (is_booking fid) (tables w).field_bookings
            ≡ none)
          × Finished fid now is o w')

  -- If `create_booking_2pc` returns, the field was there and active and no active booking of it
  -- overlapped the interval. The answer is a new field booking that is CONFIRMED in the database, with
  -- a CONFIRMED utility booking for every utility asked for, and Redis holds COMMITTED with their ids.
  pub create_booking_2pc_ok :
      (w : S.World) {o : Option FieldBooking}
      → (create_booking_2pc S body w).0 ≡ ok o
      → BookingStands w o (create_booking_2pc S body w).1
  unfolding create_booking_2pc
  create_booking_2pc_ok w {o} h =
      let key = slot_lock_key body.field_id (S.isoformat body.start_time) in
      let (d, e1, s1) = bind_ok (require_active_field S body.field_id) _ w h in
      let w1 = (require_active_field S body.field_id w).1 in
      let (active, t1) = require_active_field_ok body.field_id w e1 in
      let (token, e2, s2) =
        bind_ok (acquire S key two_pc_lock_ttl_ms) _ w1 (ap (λ r. r.0) (sym s1) ∙ h) in
      let w2 = (acquire S key two_pc_lock_ttl_ms w1).1 in
      let t2 = acquire-tables S L key two_pc_lock_ttl_ms w1 in
      let same : tables w2 ≡ tables w = t2 ∙ t1 in
      elim (Option-cases token) [
        | inl busy ↦ absurd (ground (arith, h, s1, s2, busy))
        | inr (t, held) ↦
            let s3 : create_booking_2pc S body w
                ≡ try_finally (run_txn S body) (release_quietly S key t) w2 =
              s1 ∙ s2 ∙ rw held in
            let (r, ends) =
              finally_ok (run_txn S body) (release_quietly S key t) w2
                (ap (λ r. r.0) (sym s3) ∙ h) in
            let w3 = (run_txn S body w2).1 in
            let (free, (fid, now, is, fresh, done)) = run_txn_ok w2 r in
            (
              active,
              ground (arith, free, same),
              (
                fid,
                now,
                is,
                ground (arith, fresh, same),
                Finished-along fid now is o (release_quietly S key t w3).1 _
                    (ap (λ r. r.1) s3 ∙ ends) (Finished-release fid now is o key t w3 done),
              ),
            )
      ]
