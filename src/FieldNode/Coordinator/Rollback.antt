-- ===== src/FieldNode/Coordinator/Rollback.antt =====
-- Phase 2, the abort: what `rollback_all` does, whether or not the participant hears of it.
use ds_practice_court.Base.{
  ℕ, ◌≡◌, ◌⊎◌, inl, some, List, [], ◌∷◌, ok, err, fault, redis_error, arith, bind_ok,
}
use ds_practice_court.Shared.Schemas.{
  cancelled, aborted, CommitRollbackRequest, CommitRollbackResponse,
}
use ds_practice_court.Shared.Models.{Tables}
use ds_practice_court.Services.{Services, IsLawful, Posted, lost, unheard, served, failed}
use ds_practice_court.UtilityNode.Endpoints.{internal_rollback, update_all}
use ds_practice_court.UtilityNode.Endpoints.Updates.{
  Touched, update_all-Touched, update_all_changes,
}
use ds_practice_court.FieldNode.Coordinator.{
  except_httpx, set_txn_state, send_rollback, rollback_all, txn_key,
}
use ds_practice_court.FieldNode.Coordinator.Redis.{
  txn_value, set_txn_state-tables, set_txn_state_outcome,
}
use ds_practice_court.FieldNode.Coordinator.Commit.{Marked, Marked-along}

Touched-nothing : (is : List ℕ) (t t' : Tables) → t' ≡ t → Touched cancelled is t t'
Touched-nothing is t t' e = (ground (arith, e), λ j. inl (ground (arith, e)))

Touched-along :
    (is : List ℕ) (t v t' v' : Tables)
    → v ≡ t
    → t' ≡ v'
    → Touched cancelled is v v'
    → Touched cancelled is t t'
Touched-along is t v t' v' e e' m = rw (← e, e') m

module _ (S : Services) (L : IsLawful S) where
  open L use {tables, broker}

  internal_rollback-Touched :
      (req : CommitRollbackRequest) (w : S.World)
      → Touched cancelled req.utility_booking_ids (tables w) (tables (internal_rollback S req w).1)
  unfolding internal_rollback
  internal_rollback-Touched req w =
      ground (arith, update_all-Touched S L cancelled req.utility_booking_ids w)

  internal_rollback_ok :
      (req : CommitRollbackRequest) (w : S.World) {a : CommitRollbackResponse}
      → (internal_rollback S req w).0 ≡ ok a
      → Marked cancelled req.utility_booking_ids (tables w) (tables (internal_rollback S req w).1)
  unfolding internal_rollback
  internal_rollback_ok req w h =
      let (d, e, step) = bind_ok (update_all S cancelled req.utility_booking_ids) _ w h in
      rw step (update_all_changes S L cancelled req.utility_booking_ids w e)

  abbrev Sent : CommitRollbackRequest → S.World → Type 0
  Sent req w =
      Posted S.World CommitRollbackResponse (λ x y. (tables y ≡ tables x) × (broker y ≡ broker x))
        (internal_rollback S req) w (S.post (internal_rollback S req) w)

  rollback_request-Touched :
      (req : CommitRollbackRequest) (w : S.World)
      → Sent req w
      → Touched cancelled req.utility_booking_ids
          (tables w)
          (tables (S.post (internal_rollback S req) w).1)
  rollback_request-Touched req w (lost e r s) =
      Touched-nothing req.utility_booking_ids (tables w) _ s.0
  rollback_request-Touched req w (unheard e v r s s') =
      Touched-along req.utility_booking_ids (tables w) (tables v) _ _ s.0 s'.0
        (internal_rollback-Touched req v)
  rollback_request-Touched req w (served b v r s k s') =
      Touched-along req.utility_booking_ids (tables w) (tables v) _ _ s.0 s'.0
        (internal_rollback-Touched req v)
  rollback_request-Touched req w (failed x v r s k s') =
      Touched-along req.utility_booking_ids (tables w) (tables v) _ _ s.0 s'.0
        (internal_rollback-Touched req v)

  rollback_request_ok :
      (req : CommitRollbackRequest) (w : S.World) {a : CommitRollbackResponse}
      → (S.post (internal_rollback S req) w).0 ≡ ok a
      → Sent req w
      → Marked cancelled req.utility_booking_ids
          (tables w)
          (tables (S.post (internal_rollback S req) w).1)
  rollback_request_ok req w h (lost e r s) = cc
  rollback_request_ok req w h (unheard e v r s s') = cc
  rollback_request_ok req w h (served b v r s k s') =
      Marked-along cancelled req.utility_booking_ids (tables w) (tables v) _ _ s.0 s'.0
        (internal_rollback_ok req v k)
  rollback_request_ok req w h (failed x v r s k s') = cc

  -- The POST ends quietly, heard or not.
  pub send_rollback_quiet :
      (fid : ℕ) (is : List ℕ) (w : S.World)
      → let req : CommitRollbackRequest = record {
        field_booking_id = fid;
        utility_booking_ids = is;
      } in
        send_rollback S fid is w ≡ (ok tt, (S.post (internal_rollback S req) w).1)
  unfolding send_rollback except_httpx
  send_rollback_quiet fid is w = go (L.post_lem (internal_rollback S req) w)
    where
      req : CommitRollbackRequest
      req = record { field_booking_id = fid; utility_booking_ids = is }

      go : Sent req w → send_rollback S fid is w ≡ (ok tt, (S.post (internal_rollback S req) w).1)
      go (lost e r s) = ground (arith, r)
      go (unheard e v r s s') = ground (arith, r)
      go (served b v r s k s') = ground (arith, r)
      go (failed x v r s k s') = ground (arith, r)

  pub rollback_all_step :
      (fid i : ℕ) (is : List ℕ) (w : S.World)
      → let req : CommitRollbackRequest = record {
        field_booking_id = fid;
        utility_booking_ids = i ∷ is;
      } in
        rollback_all S fid (i ∷ is) w
        ≡ set_txn_state S fid aborted (i ∷ is) (S.post (internal_rollback S req) w).1
  unfolding rollback_all
  rollback_all_step fid i is w = rw (send_rollback_quiet fid (i ∷ is) w)

  -- `rollback_all` raises only if Redis does. If it returns, Redis holds the state ABORTED with the
  -- ids. Of the database only the rows that it names may have changed, each by becoming CANCELLED.
  pub rollback_all_outcome :
      (fid : ℕ) (is : List ℕ) (w : S.World)
      → let w' = (rollback_all S fid is w).1 in
        (((rollback_all S fid is w).0 ≡ err (fault redis_error))
          ⊎ (((rollback_all S fid is w).0 ≡ ok tt)
              × ((broker w').stored (txn_key fid) ≡ some (txn_value aborted is))))
        × Touched cancelled is (tables w) (tables w')
  rollback_all_outcome fid [] w =
      unfold rollback_all in
      (
        set_txn_state_outcome S L fid aborted [] w,
        Touched-nothing [] (tables w) _ (set_txn_state-tables S L fid aborted [] w),
      )
  rollback_all_outcome fid (i ∷ is) w =
      let req : CommitRollbackRequest = record {
        field_booking_id = fid;
        utility_booking_ids = i ∷ is;
      } in
      let w1 = (S.post (internal_rollback S req) w).1 in
      rw (rollback_all_step fid i is w) (
        set_txn_state_outcome S L fid aborted (i ∷ is) w1,
        rw (set_txn_state-tables S L fid aborted (i ∷ is) w1)
            (rollback_request-Touched req w (L.post_lem (internal_rollback S req) w)),
      )

  -- If the participant answers the request of `rollback_all`, every row that it was named is
  -- CANCELLED and the rest of the database stands.
  pub rollback_all_heard :
      (fid i : ℕ) (is : List ℕ) (w : S.World) {a : CommitRollbackResponse}
      → let req : CommitRollbackRequest = record {
        field_booking_id = fid;
        utility_booking_ids = i ∷ is;
      } in
        (S.post (internal_rollback S req) w).0 ≡ ok a
        → Marked cancelled (i ∷ is) (tables w) (tables (rollback_all S fid (i ∷ is) w).1)
  rollback_all_heard fid i is w h =
      let req : CommitRollbackRequest = record {
        field_booking_id = fid;
        utility_booking_ids = i ∷ is;
      } in
      rw (rollback_all_step fid i is w, set_txn_state-tables S L fid aborted (i ∷ is))
        (rollback_request_ok req w h (L.post_lem (internal_rollback S req) w))
