-- ===== src/FieldNode/Coordinator/Commit.antt =====
-- Phase 2, the commit: what `commit_all` has done when it returns.
use mathlib.Core.Option
use ds_practice_court.Base.{
  ap, bind_keeps, ℕ, ◌≡◌, refl, true, some, List, [], ◌∷◌, ok, arith, if◌then◌else◌, ==_refl, find?,
  contains, All, bind_ok,
}
use ds_practice_court.Shared.Schemas.{
  BookingStatus, confirmed, committed, CommitRollbackRequest, CommitRollbackResponse,
}
use ds_practice_court.Shared.Models.{Tables}
use ds_practice_court.Services.{
  Services, IsLawful, put_utility_bookings, Posted, lost, unheard, served, failed,
}
use ds_practice_court.UtilityNode.UtilityBookingRepository.{is_utility_booking, set_status}
use ds_practice_court.UtilityNode.Endpoints.{internal_commit, update_all}
use ds_practice_court.UtilityNode.Endpoints.Updates.{update_all-Touched, update_all_changes}
use ds_practice_court.FieldNode.Coordinator.{set_txn_state, commit_all, txn_key}
use ds_practice_court.FieldNode.Coordinator.Redis.{
  txn_value, set_txn_state-tables, set_txn_state_ok,
}
use ds_practice_court.FieldNode.Coordinator.Prepare.{Booked}

-- The rows that a list of ids names have the status; the rest of the database stands.
abbrev pub Marked : BookingStatus → List ℕ → Tables → Tables → Type 0
Marked status is t t' =
    (t' ≡ put_utility_bookings t'.utility_bookings t)
    × ((j : ℕ)
        → find? (is_utility_booking j) t'.utility_bookings ≡ (
            if contains j is
            then Option.map (set_status status) (find? (is_utility_booking j) t.utility_bookings)
            else find? (is_utility_booking j) t.utility_bookings))

All-contains_cons :
    (i : ℕ) (is js : List ℕ)
    → All (λ j. contains j is ≡ true) js
    → All (λ j. contains j (i ∷ is) ≡ true) js
All-contains_cons i is [] h = tt
All-contains_cons i is (j ∷ js) h = (ground (arith, h), All-contains_cons i is js h.1)

pub All-contains_self : (is : List ℕ) → All (λ j. contains j is ≡ true) is
All-contains_self [] = tt
All-contains_self (i ∷ is) =
    (ground (arith, ==_refl i), All-contains_cons i is is (All-contains_self is))

Booked-Marked_among :
    (fid : ℕ) (before after : BookingStatus) (all us is : List ℕ) (t t' : Tables)
    → Marked after all t t'
    → All (λ j. contains j all ≡ true) is
    → Booked fid before t.utility_bookings us is
    → Booked fid after t'.utility_bookings us is
Booked-Marked_among fid before after all us [] t t' m a b = tt
Booked-Marked_among fid before after all [] (i ∷ is) t t' m a b = b
Booked-Marked_among fid before after all (u ∷ us) (i ∷ is) t t' m a b =
    (ground (arith, m.1 i, a, b), Booked-Marked_among fid before after all us is t t' m a.1 b.1)

pub Booked-Marked :
    (fid : ℕ) (before after : BookingStatus) (us is : List ℕ) (t t' : Tables)
    → Marked after is t t'
    → Booked fid before t.utility_bookings us is
    → Booked fid after t'.utility_bookings us is
Booked-Marked fid before after us is t t' m b =
    Booked-Marked_among fid before after is us is t t' m (All-contains_self is) b

pub Marked-nothing : (status : BookingStatus) (t t' : Tables) → t' ≡ t → Marked status [] t t'
Marked-nothing status t t' e = (ground (arith, e), λ j. ground (arith, e))

pub Marked-along :
    (status : BookingStatus) (is : List ℕ) (t v t' v' : Tables)
    → v ≡ t
    → t' ≡ v'
    → Marked status is v v'
    → Marked status is t t'
Marked-along status is t v t' v' e e' m = rw (← e, e') m

module _ (S : Services) (L : IsLawful S) where
  open L use {tables, broker}

  internal_commit_ok :
      (req : CommitRollbackRequest) (w : S.World) {a : CommitRollbackResponse}
      → (internal_commit S req w).0 ≡ ok a
      → Marked confirmed req.utility_booking_ids (tables w) (tables (internal_commit S req w).1)
  unfolding internal_commit
  internal_commit_ok req w h =
      let (d, e, step) = bind_ok (update_all S confirmed req.utility_booking_ids) _ w h in
      rw step (update_all_changes S L confirmed req.utility_booking_ids w e)

  commit_request :
      (req : CommitRollbackRequest) (w : S.World) {a : CommitRollbackResponse}
      → (S.post (internal_commit S req) w).0 ≡ ok a
      → Marked confirmed req.utility_booking_ids
          (tables w)
          (tables (S.post (internal_commit S req) w).1)
  commit_request req w {a} h = go (L.post_lem (internal_commit S req) w)
    where
      go :
          Posted S.World CommitRollbackResponse
            (λ x y. (tables y ≡ tables x) × (broker y ≡ broker x))
            (internal_commit S req)
            w
            (S.post (internal_commit S req) w)
          → Marked confirmed req.utility_booking_ids
              (tables w)
              (tables (S.post (internal_commit S req) w).1)
      go (lost e r s) = cc
      go (unheard e v r s s') = cc
      go (served b v r s k s') =
          Marked-along confirmed req.utility_booking_ids (tables w) (tables v) _
            (tables (internal_commit S req v).1) s.0 s'.0 (internal_commit_ok req v k)
      go (failed x v r s k s') = cc

  -- If `commit_all` returns, the participant has confirmed every row that it was named, the rest of
  -- the database stands, and Redis holds the state COMMITTED with these ids.
  pub commit_all_ok :
      (fid : ℕ) (is : List ℕ) (w : S.World)
      → (commit_all S fid is w).0 ≡ ok tt
      → let w' = (commit_all S fid is w).1 in
        Marked confirmed is (tables w) (tables w')
        × ((broker w').stored (txn_key fid) ≡ some (txn_value committed is))
  unfolding commit_all
  commit_all_ok fid [] w h = (
    Marked-nothing confirmed (tables w) _ (set_txn_state-tables S L fid committed [] w),
    set_txn_state_ok S L fid committed [] w h,
  )
  commit_all_ok fid (i ∷ is) w h =
      let req : CommitRollbackRequest = record {
        field_booking_id = fid;
        utility_booking_ids = i ∷ is;
      } in
      let w1 = (S.post (internal_commit S req) w).1 in
      let (a, e, step) =
        bind_ok (S.post (internal_commit S req)) (λ _. set_txn_state S fid committed (i ∷ is)) w
          h in
      rw step (
        Marked-along confirmed (i ∷ is) (tables w) (tables w) _ (tables w1) refl
            (set_txn_state-tables S L fid committed (i ∷ is) w1) (commit_request req w e),
        set_txn_state_ok S L fid committed (i ∷ is) w1 (rw step at h),
      )

  commit_request-field_bookings :
      (req : CommitRollbackRequest) (w : S.World)
      → Posted S.World CommitRollbackResponse
          (λ x y. (tables y ≡ tables x) × (broker y ≡ broker x))
          (internal_commit S req)
          w
          (S.post (internal_commit S req) w)
      → (tables (S.post (internal_commit S req) w).1).field_bookings ≡ (tables w).field_bookings
  unfolding internal_commit
  commit_request-field_bookings req w (lost e r s) = ground (arith, s)
  commit_request-field_bookings req w (unheard e v r s s') =
      ground (arith, s, s', update_all-Touched S L confirmed req.utility_booking_ids v)
  commit_request-field_bookings req w (served b v r s k s') =
      ground (arith, s, s', update_all-Touched S L confirmed req.utility_booking_ids v)
  commit_request-field_bookings req w (failed x v r s k s') =
      ground (arith, s, s', update_all-Touched S L confirmed req.utility_booking_ids v)

  -- However `commit_all` ends, the field bookings are as they were.
  pub commit_all-field_bookings :
      (fid : ℕ) (is : List ℕ) (w : S.World)
      → (tables (commit_all S fid is w).1).field_bookings ≡ (tables w).field_bookings
  unfolding commit_all
  commit_all-field_bookings fid [] w =
      ap (λ t. t.field_bookings) (set_txn_state-tables S L fid committed [] w)
  commit_all-field_bookings fid (i ∷ is) w =
      let req : CommitRollbackRequest = record {
        field_booking_id = fid;
        utility_booking_ids = i ∷ is;
      } in
      let same = commit_request-field_bookings req w (L.post_lem (internal_commit S req) w) in
      bind_keeps (λ v. (tables v).field_bookings ≡ (tables w).field_bookings)
        (S.post (internal_commit S req)) (λ _. set_txn_state S fid committed (i ∷ is)) w same
        (λ _ _. ground (
          arith,
          same,
          set_txn_state-tables S L fid committed (i ∷ is) (S.post (internal_commit S req) w).1,
        ))
