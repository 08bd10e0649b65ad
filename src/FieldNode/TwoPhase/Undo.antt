-- ===== src/FieldNode/TwoPhase/Undo.antt =====
-- A rollback and the FAILED status, while the services are up.
use ds_practice_court.Base.{
  ℕ, ◌≡◌, refl, ◌∙◌, Option, none, some, List, [], ◌∷◌, ◌++◌, ok, arith, find?, where_rows,
  change_where, HasOne, HasOne-last, HasOne-change_where, HasOne-find?, find?-holds,
  change_where_last, ==_iff,
}
use ds_practice_court.Shared.Schemas.{BookingStatus, failed, cancelled, aborted}
use ds_practice_court.Shared.Models.{Tables, FieldBooking}
use ds_practice_court.Services.{Services, IsLawful, IsUp, put_field_bookings}
use ds_practice_court.Services.Facts.{one_of, lookup_up}
use ds_practice_court.UtilityNode.Endpoints.Answers.{HaveOne}
use ds_practice_court.FieldNode.FieldBookingRepository
use ds_practice_court.FieldNode.FieldBookingRepository.{is_booking, with_status}
use ds_practice_court.FieldNode.FieldBookingRepository.Calls.{
  get_by_id-tables, update_status_ok, update_status-broker,
}
use ds_practice_court.FieldNode.Coordinator.{rollback_all, txn_key}
use ds_practice_court.FieldNode.Coordinator.Redis.{txn_value}
use ds_practice_court.FieldNode.Coordinator.Commit.{Marked}
use ds_practice_court.FieldNode.Coordinator.Answers.{rollback_all_up}

-- The field's row of a transaction, last in its table.
abbrev pub Stands : ℕ → List FieldBooking → FieldBooking → Tables → Type 0
Stands fid bs b t =
    (find? (is_booking fid) bs ≡ none) × (b.id ≡ fid) × (t.field_bookings ≡ bs ++ b ∷ [])

module _ (S : Services) (L : IsLawful S) (U : IsUp S L) where
  open L use {tables, broker}

  pub get_by_id_up :
      (fid : ℕ) (w : S.World)
      → (FieldBookingRepository.get_by_id S fid w).0
        ≡ one_of (where_rows (is_booking fid) (tables w).field_bookings)
  unfolding FieldBookingRepository.get_by_id
  get_by_id_up fid w =
      lookup_up S L S.field_bookings (λ r. r.id) (λ t. t.field_bookings) put_field_bookings
        L.field_bookings_lawful U.field_bookings_up (is_booking fid) w

  -- A status is set on a row that is alone with its id.
  pub update_status_up :
      (fid : ℕ) (status : BookingStatus) (w : S.World)
      → HasOne (λ r. r.id) fid (tables w).field_bookings
      → (o : Option FieldBooking) × ((FieldBookingRepository.update_status S fid status w).0 ≡ ok o)
  unfolding FieldBookingRepository.update_status
  update_status_up fid status w (r, one) =
      let w1 = (FieldBookingRepository.get_by_id S fid w).1 in
      let found = get_by_id_up fid w in
      let same : tables w1 ≡ tables w = get_by_id-tables S L fid w in
      let is_r : r.id ≡ fid = (==_iff r.id fid).0 (
        find?-holds (is_booking fid) (tables w).field_bookings
          (HasOne-find? (λ q. q.id) fid (tables w).field_bookings one)) in
      let (n, e) = U.field_bookings_up.update-up (is_booking r.id) (with_status status) w1 in
      let w2 = (S.field_bookings.update (is_booking r.id) (with_status status) w1).1 in
      let (_, changed) =
        L.field_bookings_lawful.update-ok (is_booking r.id) (with_status status) w1 e in
      let (q, still) =
        HasOne-change_where (λ x. x.id) (with_status status) (λ x. refl) r.id fid
          (tables w1).field_bookings (r, rw same one) in
      let there =
        HasOne-find? (λ x. x.id) fid
          (change_where (is_booking r.id) (with_status status) (tables w1).field_bookings) still in
      let back = U.field_bookings_up.refresh-up r q w2 (ground (arith, changed, there, is_r)) in
      (some q, ground (arith, found, one, e, back))

  pub update_status_last :
      (fid : ℕ) (status : BookingStatus) (bs : List FieldBooking) (b : FieldBooking) (w : S.World)
      → Stands fid bs b (tables w)
      → let w' = (FieldBookingRepository.update_status S fid status w).1 in
        ((o : Option FieldBooking) × ((FieldBookingRepository.update_status S fid status w).0
            ≡ ok o))
        × (tables w' ≡ put_field_bookings (bs ++ with_status status b ∷ []) (tables w))
  update_status_last fid status bs b w (fresh, is_b, row) =
      let one : HasOne (λ r. r.id) fid (tables w).field_bookings =
        rw row (HasOne-last (λ r. r.id) fid bs b fresh is_b) in
      let (o, e) = update_status_up fid status w one in
      let set = update_status_ok S L fid status w e in
      (
        (o, e),
        set ∙ rw (row, change_where_last (λ r. r.id) (with_status status) fid bs b fresh is_b) refl,
      )

  -- What a rollback with the FAILED status leaves.
  abbrev pub RolledBack : ℕ → List ℕ → List FieldBooking → FieldBooking → S.World → S.World → Type 0
  RolledBack fid is bs b w w' =
      Stands fid bs (with_status failed b) (tables w')
      × Marked cancelled is (tables w) (put_field_bookings (tables w).field_bookings (tables w'))
      × HaveOne S L U is w'
      × ((broker w').stored (txn_key fid) ≡ some (txn_value aborted is))

  pub roll_back_up :
      (fid : ℕ) (is : List ℕ) (bs : List FieldBooking) (b : FieldBooking) (w : S.World)
      → Stands fid bs b (tables w)
      → HaveOne S L U is w
      → let w1 = (rollback_all S fid is w).1 in
        let w2 = (FieldBookingRepository.update_status S fid failed w1).1 in
        ((rollback_all S fid is w).0 ≡ ok tt)
        × ((o : Option FieldBooking) × ((FieldBookingRepository.update_status S fid failed w1).0
              ≡ ok o))
        × RolledBack fid is bs b w w2
  roll_back_up fid is bs b w (fresh, is_b, row) one =
      let w1 = (rollback_all S fid is w).1 in
      let (e, marked, one1, stored) = rollback_all_up S L U fid is w one in
      let row1 : (tables w1).field_bookings ≡ bs ++ b ∷ [] = ground (arith, marked.0, row) in
      let ((o, e2), after) = update_status_last fid failed bs b w1 (fresh, is_b, row1) in
      let w2 = (FieldBookingRepository.update_status S fid failed w1).1 in
      (
        e,
        (o, e2),
        (
          (fresh, is_b, rw after refl),
          (ground (arith, marked.0, after), λ j. rw after (marked.1 j)),
          rw after one1,
          rw (update_status-broker S L fid failed w1) stored,
        ),
      )
