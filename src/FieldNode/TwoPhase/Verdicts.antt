-- ===== src/FieldNode/TwoPhase/Verdicts.antt =====
-- The verdicts of `create_booking_2pc`, one by one, while the services are up.
use ds_practice_court.Base.{
  lift_result, ℕ, ◌≡◌, refl, ◌∙◌, ◌⊎◌, inl, inr, Bool, true, false, Option, none, some, List, [],
  ◌∷◌, ◌++◌, ok, err, arith, find?, where_rows, Result, Exn, http_exception, fault,
  multiple_results, slot_booked, aborted as txn_aborted, find?-append_none, ==_refl, if◌then◌else◌,
  field_not_found, field_not_available, ◌>>=◌,
}
use ds_practice_court.Base.Text.{Text}
use ds_practice_court.Shared.Schemas.{failed, cancelled, aborted, FieldBookingRequest}
use ds_practice_court.Shared.Models.{Field, FieldBooking}
use ds_practice_court.Services.{Services, IsLawful, IsUp, plain, put_fields, put_field_bookings}
use ds_practice_court.Services.Facts.{one_of, lookup_up, one_or_none-one_of}
use ds_practice_court.Locks.{acquire, release, release_script, build_key}
use ds_practice_court.FieldNode.FieldRepository
use ds_practice_court.FieldNode.FieldRepository.{is_field}
use ds_practice_court.FieldNode.FieldBookingRepository
use ds_practice_court.FieldNode.FieldBookingRepository.{
  is_booking, blocks, new_booking, with_status, is_none, slot_lock_key, release_quietly,
}
use ds_practice_court.FieldNode.FieldBookingRepository.Calls.{
  check_availability-tables, create_pending_ok,
}
use ds_practice_court.FieldNode.Coordinator.{txn_key}
use ds_practice_court.FieldNode.Coordinator.Redis.{txn_value}
use ds_practice_court.FieldNode.Coordinator.Answers.{all_can_book}
use ds_practice_court.FieldNode.Bookings.{require_active_field}
use ds_practice_court.FieldNode.TwoPhase.{
  emergency_rollback, start_locals, transact, booking_txn, on_exception, run_txn,
  rollback_unless_committed, as_http,
}
use ds_practice_court.FieldNode.TwoPhase.Spec.{
  Verdict, refused, booked, undone, slot_verdict, Undone,
}
use ds_practice_court.FieldNode.TwoPhase.Refines.{
  transact_up, emergency_rollback_up, UnderWay, open_locals,
}

module _ (S : Services) (L : IsLawful S) (U : IsUp S L) (body : FieldBookingRequest) where
  open L use {tables, broker}

  -- What the lookup of the field says.
  abbrev pub admit : List Field → Result (Unit {0})
  admit [] = err (http_exception 404 field_not_found)
  admit (f ∷ []) = if f.is_active then ok tt else err (http_exception 409 field_not_available)
  admit (f ∷ g ∷ fs) = err (fault multiple_results)

  pub require_active_field_up :
      (w : S.World)
      → (require_active_field S body.field_id w).0
        ≡ admit (where_rows (is_field body.field_id) (tables w).fields)
  unfolding require_active_field FieldRepository.get_by_id
  require_active_field_up w = go (where_rows (is_field body.field_id) (tables w).fields) refl
    where
      found :
          ((S.fields.select (is_field body.field_id) >>= λ rs.
          lift_result (S.scalar_one_or_none rs))
            w).0
          ≡ one_of (where_rows (is_field body.field_id) (tables w).fields)
      found =
          lookup_up S L S.fields (λ r. r.id) (λ t. t.fields) put_fields L.fields_lawful U.fields_up
            (is_field body.field_id) w

      go :
          (rs : List Field)
          → where_rows (is_field body.field_id) (tables w).fields ≡ rs
          → (require_active_field S body.field_id w).0
            ≡ admit (where_rows (is_field body.field_id) (tables w).fields)
      go [] e = ground (arith, found, e)
      go (f ∷ []) e = ground (arith, found, e)
      go (f ∷ g ∷ fs) e = ground (arith, found, e)

  abbrev pub vacancy : List FieldBooking → Result Bool
  vacancy [] = ok true
  vacancy (b ∷ []) = ok false
  vacancy (b ∷ c ∷ bs) = err (fault multiple_results)

  abbrev pub in_the_way : S.World → List FieldBooking
  in_the_way w =
      where_rows (blocks body.field_id body.start_time body.end_time) (tables w).field_bookings

  check_availability_up :
      (w : S.World)
      → (FieldBookingRepository.check_availability S body.field_id body.start_time body.end_time
          w).0
        ≡ vacancy (in_the_way w)
  unfolding FieldBookingRepository.check_availability is_none
  check_availability_up w =
      let p = blocks body.field_id body.start_time body.end_time in
      let (rs, e) = U.field_bookings_up.select-up p w in
      let same = L.field_bookings_lawful.select-ok p w e in
      let one = one_or_none-one_of S L rs in ground (arith, e, same, one)

  create_pending_up :
      (w : S.World)
      → (q : FieldBooking) × ((FieldBookingRepository.create_pending S body.field_id body.user_id
            body.start_time body.end_time w).0
          ≡ ok q)
  unfolding FieldBookingRepository.create_pending
  create_pending_up w =
      let mk = new_booking body.field_id body.user_id body.start_time body.end_time in
      let (r, e) = U.field_bookings_up.add-up mk w in
      let (i, now, made, fresh, after) = L.field_bookings_lawful.add-ok mk w e in
      let w1 = (S.field_bookings.add_commit mk w).1 in
      let found : find? (is_booking r.id) (tables w1).field_bookings ≡ some r = ground (
        arith,
        after,
        made,
        find?-append_none (is_booking i) (tables w).field_bookings (r ∷ []) fresh,
        ==_refl i,
      ) in
      (r, ground (arith, e, U.field_bookings_up.refresh-up r r w1 found))

  pub acquire_up :
      (key : Text) (ttl : ℕ) (w : S.World) → (o : Option Text) × ((acquire S key ttl w).0 ≡ ok o)
  unfolding acquire
  acquire_up key ttl w =
      let (t, e) = L.uuid4-ok w in
      let (b, e2) = U.set_nx-up (build_key key) (plain t) ttl (S.uuid4 w).1 in
      (if b then some t else none, ground (arith, e, e2))

  pub release_quietly_up :
      (key token : Text) (w : S.World) → (release_quietly S key token w).0 ≡ ok tt
  unfolding release_quietly release
  release_quietly_up key token w =
      ground (arith, U.eval-up (release_script S (build_key key) token) w)

  -- A transaction of a slot that nobody is in the way of.
  booking_txn_vacant :
      (w : S.World)
      → in_the_way w ≡ []
      → let r = booking_txn S body (w, start_locals) in
        ((all_can_book (tables w).utilities body.utility_ids ≡ true)
          × ((o : Option FieldBooking) × (r.0 ≡ ok o)))
        ⊎ ((all_can_book (tables w).utilities body.utility_ids ≡ false)
            × ((fid : ℕ) × (now : ℕ) × (is : List ℕ) × (r.0 ≡ err (http_exception 409 txn_aborted))
                × (r.1.1 ≡ open_locals S L U body fid is)
                × (find? (is_booking fid) (tables w).field_bookings ≡ none)
                × UnderWay S L U body fid
                    (tables w).field_bookings
                    (with_status failed (
                      new_booking body.field_id body.user_id body.start_time body.end_time fid now))
                    cancelled
                    is
                    (tables w)
                    r.1.0))
  unfolding booking_txn
  booking_txn_vacant w vacant =
      let f = body.field_id in
      let st = body.start_time in
      let en = body.end_time in
      let free = check_availability_up w in
      let w1 = (FieldBookingRepository.check_availability S f st en w).1 in
      let t1 = check_availability-tables S L f st en w in
      let (q, e) = create_pending_up w1 in
      let w2 = (FieldBookingRepository.create_pending S f body.user_id st en w1).1 in
      let (fid, now, made, fresh, after) = create_pending_ok S L f body.user_id st en w1 e in
      let b = new_booking f body.user_id st en fid now in
      let step : booking_txn S body (w, start_locals) ≡ transact S body fid (w2, start_locals) =
        ground (arith, free, vacant, e, made) in
      let fresh0 : find? (is_booking fid) (tables w).field_bookings ≡ none =
        ground (arith, fresh, t1) in
      let new : tables w2 ≡ put_field_bookings ((tables w).field_bookings ++ b ∷ []) (tables w) =
        ground (arith, after, made, t1) in
      elim (transact_up S L U body fid b (tables w) w2 fresh0 refl new) [
        | inl (able, (o, done)) ↦ inl (able, (o, rw step done))
        | inr (unable, (is, raised, x, way)) ↦
            inr (unable, rw step (fid, now, is, raised, x, fresh0, way))
      ]

  -- What a run of the transaction keeps: see `Keeps`.
  abbrev pub KeepsRun : Verdict → S.World → Result (Option FieldBooking) × S.World → Type 0
  KeepsRun (refused e) w r = (r.0 ≡ err e) × (tables r.1 ≡ tables w)
  KeepsRun booked w r = (o : Option FieldBooking) × (r.0 ≡ ok o)
  KeepsRun undone w r = (r.0 ≡ err (http_exception 409 txn_aborted)) × Undone S L body w r.1

  -- An exception before there is a record only leaves as an HTTPException.
  run_txn_early :
      (w v : S.World) (e : Exn)
      → booking_txn S body (w, start_locals) ≡ (err e, (v, start_locals))
      → run_txn S body w ≡ (err (as_http S e), v)
  unfolding run_txn on_exception rollback_unless_committed
  run_txn_early w v e h = ground (arith, h)

  run_txn_undone :
      (w : S.World) (fid : ℕ) (is : List ℕ)
      → let r = booking_txn S body (w, start_locals) in
        r.0 ≡ err (http_exception 409 txn_aborted)
        → r.1.1 ≡ open_locals S L U body fid is
        → run_txn S body w
          ≡ (err (http_exception 409 txn_aborted), (emergency_rollback S fid is r.1.0).1)
  unfolding run_txn on_exception rollback_unless_committed as_http
  run_txn_undone w fid is h k = ground (arith, h, k)

  run_txn_done :
      (w : S.World) {o : Option FieldBooking}
      → (booking_txn S body (w, start_locals)).0 ≡ ok o
      → (run_txn S body w).0 ≡ ok o
  unfolding run_txn
  run_txn_done w h = ground (arith, h)

  -- The transaction ends with its check of the slot.
  booking_txn_raises :
      (w : S.World) (e : Exn)
      → let m =
          FieldBookingRepository.check_availability S body.field_id body.start_time body.end_time in
        (((m w).0 ≡ ok false) × (e ≡ http_exception 409 slot_booked)) ⊎ ((m w).0 ≡ err e)
        → booking_txn S body (w, start_locals) ≡ (err e, ((m w).1, start_locals))
  unfolding booking_txn
  booking_txn_raises w e h = ground (arith, h)

  UnderWay-Undone :
      (fid now : ℕ) (is : List ℕ) (w w' : S.World)
      → find? (is_booking fid) (tables w).field_bookings ≡ none
      → UnderWay S L U body fid
          (tables w).field_bookings
          (with_status failed
            (new_booking body.field_id body.user_id body.start_time body.end_time fid now))
          cancelled
          is
          (tables w)
          w'
      → (broker w').stored (txn_key fid) ≡ some (txn_value aborted is)
      → Undone S L body w w'
  UnderWay-Undone fid now is w w' fresh (stands, one, rows, apart, f, u) stored =
      (fid, now, is, fresh, f, u, stands.2, rows, apart, stored)

  run_txn_open :
      (w : S.World)
      → in_the_way w ≡ []
      → KeepsRun
          (if all_can_book (tables w).utilities body.utility_ids then booked else undone)
          w
          (run_txn S body w)
  run_txn_open w e = elim (booking_txn_vacant w e) [
    | inl (able, (o, done)) ↦ rw able (o, run_txn_done w done)
    | inr (unable, (fid, now, is, raised, x, fresh, way)) ↦
        let w1 = (booking_txn S body (w, start_locals)).1.0 in
        let b = new_booking body.field_id body.user_id body.start_time body.end_time fid now in
        let (way', stored) =
          emergency_rollback_up S L U body fid (tables w).field_bookings (with_status failed b)
            cancelled is (tables w) w1 way in
        rw (unable, run_txn_undone w fid is raised x)
          (refl, UnderWay-Undone fid now is w (emergency_rollback S fid is w1).1 fresh way' stored)
  ]

  pub run_txn_up :
      (w : S.World)
      → KeepsRun
          (slot_verdict false (in_the_way w) (all_can_book (tables w).utilities body.utility_ids))
          w
          (run_txn S body w)
  unfolding as_http
  run_txn_up w = go (in_the_way w) refl
    where
      w1 : S.World
      w1 =
          (FieldBookingRepository.check_availability S body.field_id body.start_time body.end_time
            w).1

      t1 : tables w1 ≡ tables w
      t1 = check_availability-tables S L body.field_id body.start_time body.end_time w

      go :
          (bs : List FieldBooking)
          → in_the_way w ≡ bs
          → KeepsRun
              (slot_verdict false
                (in_the_way w)
                (all_can_book (tables w).utilities body.utility_ids))
              w
              (run_txn S body w)
      go [] e = rw e (run_txn_open w e)
      go (b ∷ []) e =
          let raised =
            booking_txn_raises w (http_exception 409 slot_booked)
              (inl (check_availability_up w ∙ rw e refl, refl)) in
          rw (e, run_txn_early w w1 (http_exception 409 slot_booked) raised) (refl, t1)
      go (b ∷ c ∷ bs) e =
          let raised =
            booking_txn_raises w (fault multiple_results)
              (inr (check_availability_up w ∙ rw e refl)) in
          rw (e, run_txn_early w w1 (fault multiple_results) raised) (refl, t1)
