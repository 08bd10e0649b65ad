-- ===== src/FieldNode/TwoPhase/Refines.antt =====
-- While the services are up, `create_booking_2pc` keeps the verdict of its specification.
use ds_practice_court.Base.{
  HasOne-last, ℕ, ◌≡◌, refl, ◌∙◌, ◌⊎◌, inl, inr, Bool, true, false, Option, none, some, List, [],
  ◌∷◌, ◌++◌, ok, err, arith, find?, Bool-cases, http_exception, aborted as txn_aborted,
}
use ds_practice_court.Shared.Schemas.{
  BookingStatus, pending, confirmed, failed, cancelled, aborted, FieldBookingRequest,
}
use ds_practice_court.Shared.Models.{Tables, FieldBooking}
use ds_practice_court.Services.{
  Services, IsLawful, IsUp, put_field_bookings, booking_confirmed, booking_failed,
}
use ds_practice_court.Events.{publish_booking_event}
use ds_practice_court.Events.Quiet.{publish_quiet}
use ds_practice_court.UtilityNode.Endpoints.Answers.{HaveOne}
use ds_practice_court.FieldNode.FieldBookingRepository
use ds_practice_court.FieldNode.FieldBookingRepository.{
  is_booking, blocks, new_booking, with_status, is_none,
}
use ds_practice_court.FieldNode.Coordinator.{prepare_all, commit_all, rollback_all, txn_key}
use ds_practice_court.FieldNode.Coordinator.Redis.{txn_value}
use ds_practice_court.FieldNode.Coordinator.Prepare.{Booked, prepare_all_ok, prepare_all-OnlyAdds}
use ds_practice_court.FieldNode.Coordinator.Commit.{Booked-Marked, commit_all-field_bookings}
use ds_practice_court.FieldNode.Coordinator.Answers.{
  all_can_book, Elsewhere, prepare_all_up, commit_all_up,
}
use ds_practice_court.FieldNode.TwoPhase.{
  start_locals, abort_txn, Locals, lift, prepare_or_503, commit_txn, transact, emergency_rollback,
}
use ds_practice_court.FieldNode.TwoPhase.Undo.{
  Stands, update_status_last, RolledBack, roll_back_up, get_by_id_up,
}

module _ (S : Services) (L : IsLawful S) (U : IsUp S L) (body : FieldBookingRequest) where
  open L use {tables, broker}

  -- A transaction under way since `t`: its field row is last in its table, its utility bookings have
  -- a status, and nothing else has changed.
  abbrev pub UnderWay :
      ℕ → List FieldBooking → FieldBooking → BookingStatus → List ℕ → Tables → S.World → Type 0
  UnderWay fid bs b status is t w =
      Stands fid bs b (tables w)
      × HaveOne S L U is w
      × Booked fid status (tables w).utility_bookings body.utility_ids is
      × Elsewhere is t (tables w)
      × ((tables w).fields ≡ t.fields)
      × ((tables w).utilities ≡ t.utilities)

  RolledBack-UnderWay :
      (fid : ℕ) (bs : List FieldBooking) (b : FieldBooking) (status : BookingStatus) (is : List ℕ)
      (t : Tables) (w w' : S.World)
      → UnderWay fid bs b status is t w
      → RolledBack S L U fid is bs b w w'
      → UnderWay fid bs (with_status failed b) cancelled is t w'
  RolledBack-UnderWay fid bs b status is t w w' (stands, one, booked, apart, f, u)
        (stands', marked, one', stored) =
      (
        stands',
        one',
        Booked-Marked fid status cancelled body.utility_ids is (tables w)
            (put_field_bookings (tables w).field_bookings (tables w')) marked booked,
        λ j. ground (arith, apart j, marked.1 j),
        ground (arith, marked.0, f),
        ground (arith, marked.0, u),
      )

  -- The abort up to its exception, and the rollback of last resort after it.
  abort_txn_up :
      (fid : ℕ) (bs : List FieldBooking) (b : FieldBooking) (status : BookingStatus) (is : List ℕ)
      (t : Tables) (w : S.World)
      → UnderWay fid bs b status is t w
      → ((abort_txn S body fid is w).0 ≡ err (http_exception 409 txn_aborted))
        × UnderWay fid bs (with_status failed b) cancelled is t (abort_txn S body fid is w).1
  unfolding abort_txn
  abort_txn_up fid bs b status is t w way =
      let w1 = (rollback_all S fid is w).1 in
      let w2 = (FieldBookingRepository.update_status S fid failed w1).1 in
      let (e, (o, e2), back) = roll_back_up S L U fid is bs b w way.0 way.1 in
      let st = S.isoformat body.start_time in
      let en = S.isoformat body.end_time in
      let w3 =
        (publish_booking_event S booking_failed fid body.field_id failed body.user_id st en w2).1 in
      let (quiet, same, kept) =
        publish_quiet S L booking_failed fid body.field_id failed body.user_id st en w2 in
      let way2 = RolledBack-UnderWay fid bs b status is t w w2 way back in
      let step : abort_txn S body fid is w ≡ (err (http_exception 409 txn_aborted), w3) =
        ground (arith, e, e2, quiet) in
      rw step (refl, UnderWay-along fid bs (with_status failed b) cancelled is t w2 w3 same way2)
    where
      UnderWay-along :
          (fid : ℕ) (bs : List FieldBooking) (b : FieldBooking) (status : BookingStatus)
          (is : List ℕ) (t : Tables) (v v' : S.World)
          → tables v' ≡ tables v
          → UnderWay fid bs b status is t v
          → UnderWay fid bs b status is t v'
      UnderWay-along fid bs b status is t v v' e way = rw e way

  pub emergency_rollback_up :
      (fid : ℕ) (bs : List FieldBooking) (b : FieldBooking) (status : BookingStatus) (is : List ℕ)
      (t : Tables) (w : S.World)
      → UnderWay fid bs b status is t w
      → UnderWay fid bs (with_status failed b) cancelled is t (emergency_rollback S fid is w).1
        × ((broker (emergency_rollback S fid is w).1).stored (txn_key fid)
            ≡ some (txn_value aborted is))
  unfolding emergency_rollback
  emergency_rollback_up fid bs b status is t w way =
      let w1 = (rollback_all S fid is w).1 in
      let w2 = (FieldBookingRepository.update_status S fid failed w1).1 in
      let (e, (o, e2), back) = roll_back_up S L U fid is bs b w way.0 way.1 in
      let step : emergency_rollback S fid is w ≡ (ok tt, w2) = ground (arith, e, e2) in
      rw step (RolledBack-UnderWay fid bs b status is t w w2 way back, back.3)

  -- The commit returns the booking.
  commit_txn_up :
      (fid : ℕ) (bs : List FieldBooking) (b : FieldBooking) (is : List ℕ) (w : S.World) (x : Locals)
      → Stands fid bs b (tables w)
      → HaveOne S L U is w
      → (o : Option FieldBooking) × ((commit_txn S body fid is (w, x)).0 ≡ ok o)
  unfolding commit_txn
  commit_txn_up fid bs b is w x stands one =
      let w1 = (FieldBookingRepository.update_status S fid confirmed w).1 in
      let ((o, e), after) = update_status_last S L U fid confirmed bs b w stands in
      let one1 : HaveOne S L U is w1 = rw after one in
      let e2 = commit_all_up S L U fid is w1 one1 in
      let w2 = (commit_all S fid is w1).1 in
      let row2 = commit_all-field_bookings S L fid is w1 in
      let st = S.isoformat body.start_time in
      let en = S.isoformat body.end_time in
      let w3 =
        (publish_booking_event S booking_confirmed fid body.field_id confirmed body.user_id st en
          w2).1 in
      let (quiet, same, kept) =
        publish_quiet S L booking_confirmed fid body.field_id confirmed body.user_id st en w2 in
      let found = get_by_id_up S L U fid w3 in
      let (r, alone) = HasOne-last (λ r. r.id) fid bs (with_status confirmed b) stands.0 stands.1 in
      let rows : (tables w3).field_bookings ≡ bs ++ with_status confirmed b ∷ [] =
        ground (arith, same, row2, after) in
      let one_row : (FieldBookingRepository.get_by_id S fid w3).0 ≡ ok (some r) =
        found ∙ rw (rows, alone) refl in
      (some r, ground (arith, e, e2, quiet, one_row))

  prepare_or_503_same :
      (fid : ℕ) (us : List ℕ) (w : S.World) {p : Bool × List ℕ}
      → (prepare_all S fid us w).0 ≡ ok p
      → prepare_or_503 S fid us w ≡ (ok p, (prepare_all S fid us w).1)
  unfolding prepare_or_503
  prepare_or_503_same fid us w h = ground (arith, h)

  -- The local variables of a transaction that has not committed.
  abbrev pub open_locals : ℕ → List ℕ → Locals
  open_locals fid is = record {
    field_booking_id = some fid;
    utility_booking_ids = is;
    committed = false;
  }

  -- From the PENDING record on, by whether the utilities can be booked.
  pub transact_up :
      (fid : ℕ) (b : FieldBooking) (t : Tables) (w : S.World)
      → find? (is_booking fid) t.field_bookings ≡ none
      → b.id ≡ fid
      → tables w ≡ put_field_bookings (t.field_bookings ++ b ∷ []) t
      → let r = transact S body fid (w, start_locals) in
        ((all_can_book t.utilities body.utility_ids ≡ true)
          × ((o : Option FieldBooking) × (r.0 ≡ ok o)))
        ⊎ ((all_can_book t.utilities body.utility_ids ≡ false)
            × ((is : List ℕ) × (r.0 ≡ err (http_exception 409 txn_aborted))
                × (r.1.1 ≡ open_locals fid is)
                × UnderWay fid t.field_bookings (with_status failed b) cancelled is t r.1.0))
  unfolding transact
  transact_up fid b t w fresh is_b new =
      let us = body.utility_ids in
      let able = all_can_book t.utilities us in
      let (is, e, one, apart) = prepare_all_up S L U fid us w in
      let w1 = (prepare_all S fid us w).1 in
      let e1 : (prepare_all S fid us w).0 ≡ ok (able, is) = ground (arith, e, new) in
      let adds = prepare_all-OnlyAdds S L fid us w in
      let stands : Stands fid t.field_bookings b (tables w1) =
        (fresh, is_b, ground (arith, adds.0, new)) in
      let (booked, _, _) = prepare_all_ok S L fid us w e1 in
      let same = prepare_or_503_same fid us w e1 in
      elim (Bool-cases able) [
        | inl all_yes ↦
            let (o, done) =
              commit_txn_up fid t.field_bookings b is w1 (open_locals fid is) stands one in
            inl (all_yes, (o, ground (arith, same, all_yes, done)))
        | inr some_no ↦
            let way : UnderWay fid t.field_bookings b pending is t w1 = (
              stands,
              one,
              booked,
              λ j. ground (arith, apart j, new),
              ground (arith, adds.0, new),
              ground (arith, adds.0, new),
            ) in
            let (raised, undone) = abort_txn_up fid t.field_bookings b pending is t w1 way in
            let step : transact S body fid (w, start_locals)
                ≡ lift (abort_txn S body fid is) (w1, open_locals fid is) =
              ground (arith, same, some_no) in
            inr (some_no, (is, rw step raised, rw step refl, rw step undone))
      ]
