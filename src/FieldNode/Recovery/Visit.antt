-- ===== src/FieldNode/Recovery/Visit.antt =====
-- One transaction of a recovery run, while the services are up: what becomes of it, and of the
-- others.
use ds_practice_court.Base.{
  HasOne-find?, change_where, contains, ℕ, ◌≡◌, ◌≢◌, refl, ap, sym, ◌∙◌, ◌⊎◌, inl, inr, true, none,
  some, List, [], ◌∷◌, arith, find?, HasOne, HasOne-change_where, All, Bool-cases, ◌==◌,
  find?-change_where,
}
use ds_practice_court.Base.Text.{
  int_of, remove_prefix, int_of-decimal, remove_prefix-append, decimal,
}
use ds_practice_court.Shared.Schemas.{confirmed, prepared, committed, TwoPcTransactionState}
use ds_practice_court.Shared.Models.{FieldBooking, UtilityBooking, Tables}
use ds_practice_court.Services.{Services, IsLawful, IsUp, put_field_bookings}
use ds_practice_court.UtilityNode.UtilityBookingRepository.{is_utility_booking, set_status}
use ds_practice_court.UtilityNode.Endpoints.Answers.{HaveOne}
use ds_practice_court.FieldNode.FieldBookingRepository
use ds_practice_court.FieldNode.FieldBookingRepository.{is_booking, with_status}
use ds_practice_court.FieldNode.FieldBookingRepository.Calls.{
  update_status_ok, update_status-broker,
}
use ds_practice_court.FieldNode.Coordinator.{commit_all, txn_key, txn_key_prefix}
use ds_practice_court.FieldNode.Coordinator.Redis.{txn_value}
use ds_practice_court.FieldNode.Coordinator.Commit.{Marked, All-contains_self, commit_all_ok}
use ds_practice_court.FieldNode.Coordinator.Frame.{commit_all-Holds}
use ds_practice_court.FieldNode.Coordinator.Answers.{commit_all_up}
use ds_practice_court.FieldNode.Coordinator.Keeps.{commit_all-HaveOne}
use ds_practice_court.FieldNode.TwoPhase.Undo.{update_status_up}
use ds_practice_court.FieldNode.Recovery.{commit_again, recover_one}
use ds_practice_court.FieldNode.Recovery.Outcome.{recover_one_same}
use ds_practice_court.FieldNode.Recovery.Crash.{recover_one_settles, commit_again_started}

some_inj : {i j : ℕ} → some i ≡ some j → i ≡ j
some_inj e = cc

txn_key_inj : (i j : ℕ) → txn_key i ≡ txn_key j → i ≡ j
txn_key_inj i j e =
    let back : (n : ℕ) → int_of (remove_prefix txn_key_prefix (txn_key n)) ≡ some n =
      λ n. rw (remove_prefix-append txn_key_prefix (decimal n)) (int_of-decimal n) in
    some_inj (sym (back i) ∙ ap (λ k. int_of (remove_prefix txn_key_prefix k)) e ∙ back j)

module _ (S : Services) (L : IsLawful S) (U : IsUp S L) where
  open L use {tables, broker}

  abbrev pub IsConfirmed : ℕ → S.World → Type 0
  IsConfirmed fid w =
      (b : FieldBooking) × (find? (is_booking fid) (tables w).field_bookings ≡ some b)
      × (b.status ≡ confirmed)

  abbrev pub IsUtilityConfirmed : ℕ → S.World → Type 0
  IsUtilityConfirmed i w =
      (u : UtilityBooking) × (find? (is_utility_booking i) (tables w).utility_bookings ≡ some u)
      × (u.status ≡ confirmed)

  -- The transaction is at its end: its rows are CONFIRMED, and Redis says so.
  abbrev pub Finished : ℕ → List ℕ → S.World → Type 0
  Finished fid is w =
      ((broker w).stored (txn_key fid) ≡ some (txn_value committed is))
      × IsConfirmed fid w
      × All (λ i. IsUtilityConfirmed i w) is

  -- Redis has a document of the transaction or nothing, and the rows that a PREPARED one names are
  -- there.
  abbrev pub Known : ℕ → S.World → Type 0
  Known fid w =
      (((broker w).stored (txn_key fid) ≡ none)
        ⊎ ((state : TwoPcTransactionState) × (is : List ℕ) × ((broker w).stored (txn_key fid)
              ≡ some (txn_value state is))))
      × ((is : List ℕ)
          → (broker w).stored (txn_key fid) ≡ some (txn_value prepared is)
          → HasOne (λ r. r.id) fid (tables w).field_bookings × HaveOne S L U is w)

  -- Rows that are CONFIRMED stay so.
  abbrev pub Kept : S.World → S.World → Type 0
  Kept w v =
      ((j : ℕ) → IsConfirmed j w → IsConfirmed j v)
      × ((j : ℕ) → IsUtilityConfirmed j w → IsUtilityConfirmed j v)

  -- What becomes of a transaction: Redis has the document that it had, or the transaction was
  -- PREPARED and is at its end.
  abbrev pub Moves : ℕ → S.World → S.World → Type 0
  Moves j w v =
      ((broker v).stored (txn_key j) ≡ (broker w).stored (txn_key j))
      ⊎ ((is : List ℕ) × ((broker w).stored (txn_key j) ≡ some (txn_value prepared is))
          × Finished j is v)

  abbrev pub Settles : ℕ → S.World → S.World → Type 0
  Settles j w v =
      (is : List ℕ) → (broker w).stored (txn_key j) ≡ some (txn_value prepared is) → Finished j is v

  -- The tables after `_recover_one` of a transaction whose rows are there.
  module _ (fid : ℕ) (is : List ℕ) (w : S.World)
      (one : HasOne (λ r. r.id) fid (tables w).field_bookings) (named : HaveOne S L U is w) where
    abbrev after : S.World
    after = (recover_one S fid is w).1

    -- The session of the recovery has started.
    abbrev begun : S.World
    begun = (S.session_enter w).1

    begun_one : HasOne (λ r. r.id) fid (tables begun).field_bookings
    begun_one = rw (L.enter-tables w) one

    begun_named : HaveOne S L U is begun
    begun_named = rw (L.enter-tables w) named

    after_tables :
        (t : Tables) × Marked confirmed is (tables w) t
        × (t ≡ tables (commit_all S fid is begun).1)
        × (tables after
            ≡ put_field_bookings
                (change_where (is_booking fid) (with_status confirmed) t.field_bookings)
                t)
    unfolding commit_again
    after_tables =
        let e = commit_all_up S L U fid is begun begun_named in
        let w1 = (commit_all S fid is begun).1 in
        let (marked, _) = commit_all_ok S L fid is begun e in
        let still : HasOne (λ r. r.id) fid (tables w1).field_bookings = rw marked.0 begun_one in
        let (o, e2) = update_status_up S L U fid confirmed w1 still in
        let set = update_status_ok S L fid confirmed w1 e2 in
        let step : (commit_again S fid is begun).1
            ≡ (FieldBookingRepository.update_status S fid confirmed w1).1 =
          ground (arith, e, e2) in
        let (same, _) =
          recover_one_same S L fid is w (U.enter-up w)
            (commit_again_started S L U fid is w one named) in
        (tables w1, rw (← L.enter-tables w) marked, refl, rw (same, step) set)

    pub after-Kept : Kept w after
    after-Kept =
        let (t, marked, _, end) = after_tables in
        let rows : (tables after).field_bookings
            ≡ change_where (is_booking fid) (with_status confirmed) (tables w).field_bookings =
          ground (arith, end, marked.0) in
        (
          λ j (b, found, is_c).
              let row =
                find?-change_where (λ r. r.id) (with_status confirmed) (λ r. refl) fid j
                  (tables w).field_bookings in
              elim (Bool-cases (fid == j)) [
                | inl own ↦ (with_status confirmed b, ground (arith, rows, row, own, found), refl)
                | inr other ↦ (b, ground (arith, rows, row, other, found), is_c)
              ],
          λ j (u, found, is_c). elim (Bool-cases (contains j is)) [
            | inl own ↦ (set_status confirmed u, ground (arith, end, marked.1 j, own, found), refl)
            | inr other ↦ (u, ground (arith, end, marked.1 j, other, found), is_c)
          ],
        )

    pub after_stored :
        (j : ℕ) → j ≢ fid → (broker after).stored (txn_key j) ≡ (broker w).stored (txn_key j)
    unfolding commit_again
    after_stored j other =
        let apart : txn_key j ≢ txn_key fid = λ e. other (txn_key_inj j fid e) in
        let e = commit_all_up S L U fid is begun begun_named in
        let w1 = (commit_all S fid is begun).1 in
        let held =
          commit_all-Holds S L fid (txn_key j) apart ((broker w).stored (txn_key j)) is begun
            (ap (λ b. b.stored (txn_key j)) (L.enter-broker w)) in
        let quiet = update_status-broker S L fid confirmed w1 in
        let step : broker (commit_again S fid is begun).1
            ≡ broker (FieldBookingRepository.update_status S fid confirmed w1).1 =
          ground (arith, e) in
        let (_, same) =
          recover_one_same S L fid is w (U.enter-up w)
            (commit_again_started S L U fid is w one named) in
        rw (same, step, quiet) held

    pub after-HasOne :
        (j : ℕ)
        → HasOne (λ r. r.id) j (tables w).field_bookings
        → HasOne (λ r. r.id) j (tables after).field_bookings
    after-HasOne j h =
        let (t, marked, _, end) = after_tables in
        let rows : (tables after).field_bookings
            ≡ change_where (is_booking fid) (with_status confirmed) (tables w).field_bookings =
          ground (arith, end, marked.0) in
        rw rows (
          HasOne-change_where (λ r. r.id) (with_status confirmed) (λ r. refl) fid j
            (tables w).field_bookings h)

    pub after-HaveOne : (js : List ℕ) → HaveOne S L U js w → HaveOne S L U js after
    after-HaveOne js h =
        let (t, _, here, end) = after_tables in
        let rows : (tables after).utility_bookings
            ≡ (tables (commit_all S fid is begun).1).utility_bookings =
          ground (arith, here, end) in
        rw rows (commit_all-HaveOne S L U fid is js begun begun_named (rw (L.enter-tables w) h))

    confirmed-All :
        (js : List ℕ)
        → All (λ j. contains j is ≡ true) js
        → HaveOne S L U js w
        → All (λ i. IsUtilityConfirmed i after) js
    confirmed-All [] among h = tt
    confirmed-All (j ∷ js) among h =
        let (t, marked, _, end) = after_tables in
        let found = HasOne-find? (λ r. r.id) j (tables w).utility_bookings h.0.1 in
        (
          (set_status confirmed h.0.0, ground (arith, end, marked.1 j, among.0, found), refl),
          confirmed-All js among.1 h.1,
        )

    pub after-Finished : Finished fid is after
    after-Finished =
        let (row, _, stored) = recover_one_settles S L U fid is w one named in
        let found = HasOne-find? (λ r. r.id) fid (tables w).field_bookings one.1 in
        (
          stored,
          (with_status confirmed one.0, ground (arith, row, found), refl),
          confirmed-All is (All-contains_self is) named,
        )
