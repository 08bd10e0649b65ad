-- ===== src/FieldNode/Coordinator/Frame.antt =====
-- The coordinator writes no key of Redis but that of its transaction, however its calls end.
use ds_practice_court.Base.{
  inl, inr, ℕ, ◌≡◌, ◌≢◌, ◌∙◌, true, Option, List, [], ◌∷◌, ◌++◌, Action, arith, pure, bind_keeps,
  Option-cases,
}
use ds_practice_court.Base.Text.{Text}
use ds_practice_court.Shared.Schemas.{
  confirmed, cancelled, TwoPcTransactionState, init, prepared, committed, aborted,
  CommitRollbackRequest,
}
use ds_practice_court.Services.{Services, IsLawful, Value, Posted, lost, unheard, served, failed}
use ds_practice_court.UtilityNode.Endpoints.{internal_commit, internal_rollback}
use ds_practice_court.UtilityNode.Endpoints.Updates.{update_all-broker}
use ds_practice_court.FieldNode.Coordinator.{
  set_txn_state, ask, prepare_loop, prepare_all, commit_all, send_rollback, rollback_all, txn_key,
}
use ds_practice_court.FieldNode.Coordinator.Redis.{set_txn_state_ne}
use ds_practice_court.FieldNode.Coordinator.Prepare.{ask_outcome}
use ds_practice_court.FieldNode.Coordinator.Rollback.{send_rollback_quiet}

module _ (S : Services) (L : IsLawful S) where
  open L use {tables, broker}

  -- A POST to an endpoint that leaves Redis alone leaves it alone.
  post-broker :
      {A : Type 0} (h : Action S.World A)
      → ((v : S.World) → broker (h v).1 ≡ broker v)
      → (w : S.World) → broker (S.post h w).1 ≡ broker w
  post-broker {A} h keeps w = go (L.post_lem h w)
    where
      go :
          Posted S.World A (λ x y. (tables y ≡ tables x) × (broker y ≡ broker x)) h w (S.post h w)
          → broker (S.post h w).1 ≡ broker w
      go (lost e r s) = s.1
      go (unheard e v r s s') = ground (arith, s, s', keeps v)
      go (served b v r s k s') = ground (arith, s, s', keeps v)
      go (failed x v r s k s') = ground (arith, s, s', keeps v)

  commit_request-broker :
      (req : CommitRollbackRequest) (w : S.World)
      → broker (S.post (internal_commit S req) w).1 ≡ broker w
  unfolding internal_commit
  commit_request-broker req w =
      post-broker (internal_commit S req)
        (λ v. ground (arith, update_all-broker S L confirmed req.utility_booking_ids v)) w

  rollback_request-broker :
      (req : CommitRollbackRequest) (w : S.World)
      → broker (S.post (internal_rollback S req) w).1 ≡ broker w
  unfolding internal_rollback
  rollback_request-broker req w =
      post-broker (internal_rollback S req)
        (λ v. ground (arith, update_all-broker S L cancelled req.utility_booking_ids v)) w

  -- A key that is not the transaction's, and what it holds.
  module _ (fid : ℕ) (j : Text) (apart : j ≢ txn_key fid) (o : Option Value) where
    abbrev Holds : S.World → Type 0
    Holds w = (broker w).stored j ≡ o

    set_txn_state-Holds :
        (state : TwoPcTransactionState) (is : List ℕ) (w : S.World)
        → Holds w
        → Holds (set_txn_state S fid state is w).1
    set_txn_state-Holds state is w h = set_txn_state_ne S L fid state is w j apart ∙ h

    prepare_loop-Holds :
        (us acc : List ℕ) (w : S.World) → Holds w → Holds (prepare_loop S fid us acc w).1
    unfolding prepare_loop
    prepare_loop-Holds [] acc w h =
        let h1 = set_txn_state-Holds prepared acc w h in
        bind_keeps Holds (set_txn_state S fid prepared acc) (λ _. pure (true, acc)) w h1 λ _ _. h1
    prepare_loop-Holds (u ∷ us) acc w h =
        let w1 = (ask S fid u w).1 in
        let h1 : Holds w1 = ground (arith, (ask_outcome S L fid u w).0, h) in
        bind_keeps Holds (ask S fid u) _ w h1 λ answer _. elim (Option-cases answer) [
          | inl voted_no ↦ rw voted_no h1
          | inr (i, yes_id) ↦ rw yes_id (prepare_loop-Holds us (acc ++ i ∷ []) w1 h1)
        ]

    pub prepare_all-Holds : (us : List ℕ) (w : S.World) → Holds w → Holds (prepare_all S fid us w).1
    unfolding prepare_all
    prepare_all-Holds us w h =
        let w1 = (set_txn_state S fid init [] w).1 in
        let h1 = set_txn_state-Holds init [] w h in
        bind_keeps Holds (set_txn_state S fid init []) (λ _. prepare_loop S fid us []) w h1
          λ _ _. prepare_loop-Holds us [] w1 h1

    pub commit_all-Holds : (is : List ℕ) (w : S.World) → Holds w → Holds (commit_all S fid is w).1
    unfolding commit_all
    commit_all-Holds [] w h = set_txn_state-Holds committed [] w h
    commit_all-Holds (i ∷ is) w h =
        let req : CommitRollbackRequest = record {
          field_booking_id = fid;
          utility_booking_ids = i ∷ is;
        } in
        let w1 = (S.post (internal_commit S req) w).1 in
        let h1 : Holds w1 = ground (arith, commit_request-broker req w, h) in
        bind_keeps Holds (S.post (internal_commit S req))
          (λ _. set_txn_state S fid committed (i ∷ is)) w h1
          λ _ _. set_txn_state-Holds committed (i ∷ is) w1 h1

    pub rollback_all-Holds :
        (is : List ℕ) (w : S.World) → Holds w → Holds (rollback_all S fid is w).1
    unfolding rollback_all
    rollback_all-Holds [] w h = set_txn_state-Holds aborted [] w h
    rollback_all-Holds (i ∷ is) w h =
        let req : CommitRollbackRequest = record {
          field_booking_id = fid;
          utility_booking_ids = i ∷ is;
        } in
        let w1 = (send_rollback S fid (i ∷ is) w).1 in
        let h1 : Holds w1 =
          ground
            (arith, send_rollback_quiet S L fid (i ∷ is) w, rollback_request-broker req w, h) in
        bind_keeps Holds (send_rollback S fid (i ∷ is)) (λ _. set_txn_state S fid aborted (i ∷ is))
          w h1 λ _ _. set_txn_state-Holds aborted (i ∷ is) w1 h1
