-- ===== src/FieldNode/Coordinator/Keeps.antt =====
-- While the services are up, a commit leaves every utility booking its row.
use ds_practice_court.Base.{ℕ, ◌≡◌, List, [], ◌∷◌, arith}
use ds_practice_court.Shared.Schemas.{confirmed, committed, CommitRollbackRequest}
use ds_practice_court.Services.{Services, IsLawful, IsUp}
use ds_practice_court.UtilityNode.Endpoints.{internal_commit, update_all}
use ds_practice_court.UtilityNode.Endpoints.Answers.{HaveOne, update_all_up, update_all-HaveOne}
use ds_practice_court.FieldNode.Coordinator.{commit_all}
use ds_practice_court.FieldNode.Coordinator.Redis.{set_txn_state-tables}
use ds_practice_court.FieldNode.Coordinator.Answers.{HaveOne-along}

module _ (S : Services) (L : IsLawful S) (U : IsUp S L) where
  open L use {tables}

  commit_request-HaveOne :
      (req : CommitRollbackRequest) (js : List ℕ) (w : S.World)
      → HaveOne S L U req.utility_booking_ids w
      → HaveOne S L U js w
      → HaveOne S L U js (S.post (internal_commit S req) w).1
  unfolding internal_commit
  commit_request-HaveOne req js w h k =
      let a = U.post-up (internal_commit S req) w in
      let is = req.utility_booking_ids in
      let v = a.before in
      let one = HaveOne-along S L U is w v a.arrived.0 h in
      let e = update_all_up S L U confirmed is v one in
      let still =
        update_all-HaveOne S L U confirmed is js v one (HaveOne-along S L U js w v a.arrived.0 k) in
      let end : tables (S.post (internal_commit S req) w).1
          ≡ tables (update_all S confirmed is v).1 =
        ground (arith, e, a.returned) in
      HaveOne-along S L U js (update_all S confirmed is v).1 (S.post (internal_commit S req) w).1
        end still

  pub commit_all-HaveOne :
      (fid : ℕ) (is js : List ℕ) (w : S.World)
      → HaveOne S L U is w
      → HaveOne S L U js w
      → HaveOne S L U js (commit_all S fid is w).1
  unfolding commit_all
  commit_all-HaveOne fid [] js w h k =
      HaveOne-along S L U js w _ (set_txn_state-tables S L fid committed [] w) k
  commit_all-HaveOne fid (i ∷ is) js w h k =
      let req : CommitRollbackRequest = record {
        field_booking_id = fid;
        utility_booking_ids = i ∷ is;
      } in
      let w1 = (S.post (internal_commit S req) w).1 in
      let still = commit_request-HaveOne req js w h k in
      let same : tables (commit_all S fid (i ∷ is) w).1 ≡ tables w1 =
        ground (arith, set_txn_state-tables S L fid committed (i ∷ is) w1) in
      HaveOne-along S L U js w1 _ same still
