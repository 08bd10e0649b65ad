-- ===== src/FieldNode/Recovery/Crash.antt =====
-- A coordinator that stops between its two phases, and the recovery job that comes after it.
use ds_practice_court.Base.{ℕ, ◌≡◌, refl, inl, inr, true, some, List, ok, arith, HasOne}
use ds_practice_court.Shared.Schemas.{confirmed, pending, prepared}
use ds_practice_court.Services.{Services, IsLawful, IsUp}
use ds_practice_court.UtilityNode.Endpoints.Answers.{HaveOne}
use ds_practice_court.FieldNode.Coordinator.{prepare_all, commit_all, txn_key}
use ds_practice_court.FieldNode.Coordinator.Redis.{txn_value}
use ds_practice_court.FieldNode.Coordinator.Prepare.{Booked, prepare_all_ok, prepare_all-OnlyAdds}
use ds_practice_court.FieldNode.Coordinator.Commit.{Booked-Marked, commit_all_ok}
use ds_practice_court.FieldNode.Coordinator.Answers.{prepare_all_up, commit_all_up}
use ds_practice_court.FieldNode.TwoPhase.Undo.{update_status_up}
use ds_practice_court.FieldNode.Recovery.{commit_again, recover_one, recover_value}
use ds_practice_court.FieldNode.Recovery.Outcome.{
  Recovered, recover_one_outcome, recover_value-txn_key,
}

module _ (S : Services) (L : IsLawful S) (U : IsUp S L) where
  open L use {tables, broker}

  pub commit_again_up :
      (fid : ℕ) (is : List ℕ) (w : S.World)
      → HasOne (λ r. r.id) fid (tables w).field_bookings
      → HaveOne S L U is w
      → (commit_again S fid is w).0 ≡ ok tt
  unfolding commit_again
  commit_again_up fid is w one named =
      let e = commit_all_up S L U fid is w named in
      let w1 = (commit_all S fid is w).1 in
      let (marked, _) = commit_all_ok S L fid is w e in
      let still : HasOne (λ r. r.id) fid (tables w1).field_bookings = rw marked.0 one in
      let (o, e2) = update_status_up S L U fid confirmed w1 still in ground (arith, e, e2)

  -- The same in the session that the recovery has started.
  pub commit_again_started :
      (fid : ℕ) (is : List ℕ) (w : S.World)
      → HasOne (λ r. r.id) fid (tables w).field_bookings
      → HaveOne S L U is w
      → (commit_again S fid is (S.session_enter w).1).0 ≡ ok tt
  commit_again_started fid is w one named =
      let same = L.enter-tables w in
      commit_again_up fid is (S.session_enter w).1 (rw same one) (rw same named)

  -- While the services are up, `_recover_one` settles a transaction whose rows are there.
  pub recover_one_settles :
      (fid : ℕ) (is : List ℕ) (w : S.World)
      → HasOne (λ r. r.id) fid (tables w).field_bookings
      → HaveOne S L U is w
      → Recovered S L fid is w (recover_one S fid is w).1
  recover_one_settles fid is w one named = elim (recover_one_outcome S L fid is w).1 [
    | inl (x, none_started, _) ↦ absurd (ground (arith, none_started, U.enter-up w))
    | inr (inl (_, done)) ↦ done
    | inr (inr (inl (x, failed, _))) ↦
        absurd (ground (arith, failed, commit_again_started fid is w one named))
    | inr (inr (inr (x, failed, _, _))) ↦
        absurd (ground (arith, failed, commit_again_started fid is w one named))
  ]

  -- If the coordinator stops after `prepare_all` has returned True, then a recovery while the
  -- services are up finds the document at the key of the transaction, counts it, and brings the
  -- transaction to its end: the field booking and a utility booking for every utility asked for are
  -- CONFIRMED, and Redis holds COMMITTED with their ids.
  pub recovery_of_crash :
      (fid : ℕ) (us : List ℕ) (w : S.World) {is : List ℕ}
      → HasOne (λ r. r.id) fid (tables w).field_bookings
      → (prepare_all S fid us w).0 ≡ ok (true, is)
      → let left = (prepare_all S fid us w).1 in
        let r = recover_value S (txn_key fid) ((broker left).stored (txn_key fid)) left in
        (r.0 ≡ ok true)
        × Recovered S L fid is left r.1
        × Booked fid confirmed (tables r.1).utility_bookings us is
  recovery_of_crash fid us w {is} one h =
      let left = (prepare_all S fid us w).1 in
      let (booked, _, full) = prepare_all_ok S L fid us w h in
      let adds = prepare_all-OnlyAdds S L fid us w in
      let still : HasOne (λ r. r.id) fid (tables left).field_bookings = rw adds.0 one in
      let (js, ends, named, _) = prepare_all_up S L U fid us w in
      let same : js ≡ is = ground (arith, ends, h) in
      let stored : (broker left).stored (txn_key fid) ≡ some (txn_value prepared is) =
        ground (arith, full) in
      elim (recover_value-txn_key S L fid prepared is left) [
        | inr (no_prepared, _) ↦ absurd (no_prepared refl)
        | inl (_, run) ↦
            let done = recover_one_settles fid is left still (rw⁻¹ same named) in
            let (t, marked, rows) = done.1 in
            rw (stored, run)
              (
                refl,
                done,
                rw rows (Booked-Marked fid pending confirmed us is (tables left) t marked booked),
              )
      ]
