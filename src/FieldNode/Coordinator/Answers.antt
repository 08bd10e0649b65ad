-- ===== src/FieldNode/Coordinator/Answers.antt =====
-- The coordinator while the services are up: how each phase ends, by what the utility node can book.
use mathlib.Core.List.{append-nil, append_assoc}
use ds_practice_court.Base.{
  ℕ, ◌≡◌, refl, ◌⊎◌, inl, inr, Bool, true, false, ◌&&◌, none, some, List, [], ◌∷◌, ◌++◌, ok, arith,
  find?, All-mono, HasOne, HasOne-append, HasOne-last, contains, Result, find?-append_none,
  find?-append_some, Option-cases,
}
use ds_practice_court.Shared.Schemas.{
  TwoPcTransactionState, confirmed, cancelled, init, prepared, committed, aborted, PrepareRequest,
  CommitRollbackRequest, CommitRollbackResponse,
}
use ds_practice_court.Shared.Models.{Tables, Utility}
use ds_practice_court.Services.{Services, IsLawful, IsUp}
use ds_practice_court.UtilityNode.UtilityBookingRepository.{is_utility_booking, new_utility_booking}
use ds_practice_court.UtilityNode.Endpoints.{
  internal_prepare, internal_commit, internal_rollback, update_all,
}
use ds_practice_court.UtilityNode.Endpoints.Votes.{AddsPending}
use ds_practice_court.UtilityNode.Endpoints.Answers.{
  can_book, internal_prepare_up, HaveOne, update_all_up, update_all-HaveOne,
}
use ds_practice_court.FieldNode.Coordinator.{
  booked_id, except_httpx, set_txn_state, ask, prepare_loop, prepare_all, commit_all, rollback_all,
  txn_key, txn_ttl_s,
}
use ds_practice_court.FieldNode.Coordinator.Redis.{
  set_txn_state_ok, txn_value, set_txn_state-tables,
}
use ds_practice_court.FieldNode.Coordinator.Prepare.{prepare_loop-some, prepare_loop-none}
use ds_practice_court.FieldNode.Coordinator.Commit.{Marked, Marked-nothing}
use ds_practice_court.FieldNode.Coordinator.Rollback.{rollback_all_heard, rollback_all_step}

abbrev pub all_can_book : List Utility → List ℕ → Bool
all_can_book utilities [] = true
all_can_book utilities (u ∷ us) = can_book utilities u && all_can_book utilities us

-- Ids that are not on the list find what they found.
abbrev pub Elsewhere : List ℕ → Tables → Tables → Type 0
Elsewhere is t t' =
    (j : ℕ)
    → (contains j is ≡ true)
      ⊎ (find? (is_utility_booking j) t'.utility_bookings
          ≡ find? (is_utility_booking j) t.utility_bookings)

AddsPending-Elsewhere :
    (req : PrepareRequest) (i : ℕ) (is : List ℕ) (t t' t'' : Tables)
    → AddsPending req i t t'
    → Elsewhere is t' t''
    → Elsewhere (i ∷ is) t t''
AddsPending-Elsewhere req i is t t' t'' a rest j =
    let row = new_utility_booking req.utility_id req.field_booking_id i 0 in
    elim (Option-cases (find? (is_utility_booking j) t.utility_bookings)) [
      | inl absent ↦ ground (
        arith,
        a,
        rest j,
        absent,
        find?-append_none (is_utility_booking j) t.utility_bookings (row ∷ []) absent,
      )
      | inr (r, found) ↦ ground (
        arith,
        a,
        rest j,
        found,
        find?-append_some (is_utility_booking j) t.utility_bookings (row ∷ []) {r = r} found,
      )
    ]

module _ (S : Services) (L : IsLawful S) (U : IsUp S L) where
  open L use {tables, broker}

  set_txn_state_up :
      (fid : ℕ) (state : TwoPcTransactionState) (is : List ℕ) (w : S.World)
      → (set_txn_state S fid state is w).0 ≡ ok tt
  unfolding set_txn_state
  set_txn_state_up fid state is w = U.set-up (txn_key fid) (txn_value state is) txn_ttl_s w

  -- A round of the loop, by whether the utility can be booked.
  ask_up :
      (fid u : ℕ) (w : S.World)
      → let req : PrepareRequest = record { field_booking_id = fid; utility_id = u } in
        ((can_book (tables w).utilities u ≡ true)
          × ((i : ℕ) × ((ask S fid u w).0 ≡ ok (some i))
              × AddsPending req i (tables w) (tables (ask S fid u w).1)))
        ⊎ ((can_book (tables w).utilities u ≡ false)
            × ((ask S fid u w).0 ≡ ok none)
            × (tables (ask S fid u w).1 ≡ tables w))
  unfolding ask except_httpx booked_id
  ask_up fid u w =
      let req : PrepareRequest = record { field_booking_id = fid; utility_id = u } in
      let a = U.post-up (internal_prepare S req) w in
      let v = a.before in
      elim (internal_prepare_up S L U req v) [
        | inl (able, (i, e, adds)) ↦ inl (
          ground (arith, able, a.arrived),
          (
            i,
            ground (arith, e, a.answer),
            (
              ground (arith, adds, a.arrived),
              ground (arith, e, a.answer, adds, a.arrived, a.returned),
            ),
          ),
        )
        | inr (unable, same, e) ↦ inr (
          ground (arith, unable, a.arrived),
          ground (arith, e, a.answer),
          ground (arith, e, a.answer, same, a.arrived, a.returned),
        )
      ]

  ask-utilities :
      (fid u : ℕ) (w : S.World) → (tables (ask S fid u w).1).utilities ≡ (tables w).utilities
  ask-utilities fid u w = ground (arith, ask_up fid u w)

  pub HaveOne-along :
      (is : List ℕ) (w v : S.World) → tables v ≡ tables w → HaveOne S L U is w → HaveOne S L U is v
  HaveOne-along is w v e h = rw e h

  ask-HaveOne :
      (fid u : ℕ) (js : List ℕ) (w : S.World)
      → HaveOne S L U js w
      → HaveOne S L U js (ask S fid u w).1
  ask-HaveOne fid u js w h = elim (ask_up fid u w) [
    | inr (_, _, same) ↦ rw same h
    | inl (_, (i, _, (fresh, after))) ↦ rw after (
        All-mono (λ j. HasOne (λ r. r.id) j (tables w).utility_bookings)
          (λ j.
            HasOne (λ r. r.id) j
              ((tables w).utility_bookings ++ new_utility_booking u fid i 0 ∷ []))
          (λ j k.
            HasOne-append (λ r. r.id) j i (tables w).utility_bookings
              (new_utility_booking u fid i 0) fresh refl k)
          js h)
  ]

  prepare_loop-HaveOne :
      (fid : ℕ) (us acc js : List ℕ) (w : S.World)
      → HaveOne S L U js w
      → HaveOne S L U js (prepare_loop S fid us acc w).1
  unfolding prepare_loop
  prepare_loop-HaveOne fid [] acc js w h =
      let same : tables (prepare_loop S fid [] acc w).1 ≡ tables w =
        ground (arith, set_txn_state-tables S L fid prepared acc w) in
      rw same h
  prepare_loop-HaveOne fid (u ∷ us) acc js w h =
      let h1 = ask-HaveOne fid u js w h in
      elim (ask_up fid u w) [
        | inl (_, (i, e, _)) ↦
            rw (prepare_loop-some S L fid u us acc w e)
              (prepare_loop-HaveOne fid us (acc ++ i ∷ []) js (ask S fid u w).1 h1)
        | inr (_, e, _) ↦ rw (prepare_loop-none S L fid u us acc w e) h1
      ]

  -- How the loop ends: `True` exactly if every utility can be booked, with one row for each id that
  -- it has collected, and no other row.
  abbrev pub LoopEnds : ℕ → List ℕ → List ℕ → S.World → Result (Bool × List ℕ) × S.World → Type 0
  LoopEnds fid us acc w r =
      (is : List ℕ) × (r.0 ≡ ok (all_can_book (tables w).utilities us, acc ++ is))
      × HaveOne S L U is r.1
      × Elsewhere is (tables w) (tables r.1)

  prepare_loop_up :
      (fid : ℕ) (us acc : List ℕ) (w : S.World)
      → LoopEnds fid us acc w (prepare_loop S fid us acc w)
  unfolding prepare_loop
  prepare_loop_up fid [] acc w =
      let e = set_txn_state_up fid prepared acc w in
      let same = set_txn_state-tables S L fid prepared acc w in
      ([], rw append-nil (ground (arith, e)), tt, λ j. inr (ground (arith, e, same)))
  prepare_loop_up fid (u ∷ us) acc w = elim (ask_up fid u w) [
    | inl (able, (i, e, adds)) ↦
        let req : PrepareRequest = record { field_booking_id = fid; utility_id = u } in
        let w1 = (ask S fid u w).1 in
        let step = prepare_loop-some S L fid u us acc w e in
        let (is, ends, one, apart) = prepare_loop_up fid us (acc ++ i ∷ []) w1 in
        let first : HasOne (λ r. r.id) i (tables w1).utility_bookings = rw adds.1 (
          HasOne-last (λ r. r.id) i (tables w).utility_bookings (new_utility_booking u fid i 0)
            adds.0 refl) in
        let kept = prepare_loop-HaveOne fid us (acc ++ i ∷ []) (i ∷ []) w1 (first, tt) in
        rw step (
          i ∷ is,
          ground (arith, ends, able, ask-utilities fid u w, append_assoc acc (i ∷ []) is),
          (kept.0, one),
          AddsPending-Elsewhere req i is (tables w) (tables w1)
              (tables (prepare_loop S fid us (acc ++ i ∷ []) w1).1) adds apart,
        )
    | inr (unable, e, same) ↦
        let step = prepare_loop-none S L fid u us acc w e in
        ([], rw (step, append-nil) (ground (arith, unable)), tt, λ j. inr (rw (step, same) refl))
  ]

  pub prepare_all_up :
      (fid : ℕ) (us : List ℕ) (w : S.World) → LoopEnds fid us [] w (prepare_all S fid us w)
  unfolding prepare_all
  prepare_all_up fid us w =
      let e = set_txn_state_up fid init [] w in
      let same = set_txn_state-tables S L fid init [] w in
      let w1 = (set_txn_state S fid init [] w).1 in
      let step : prepare_all S fid us w ≡ prepare_loop S fid us [] w1 = ground (arith, e) in
      rw (step, ← same) (prepare_loop_up fid us [] w1)

  -- The request of a commit or of a rollback is answered, and leaves each id its row.
  commit_answered :
      (req : CommitRollbackRequest) (w : S.World)
      → HaveOne S L U req.utility_booking_ids w
      → (a : CommitRollbackResponse) × ((S.post (internal_commit S req) w).0 ≡ ok a)
  unfolding internal_commit
  commit_answered req w h =
      let a = U.post-up (internal_commit S req) w in
      let one = HaveOne-along req.utility_booking_ids w a.before a.arrived.0 h in
      let e = update_all_up S L U confirmed req.utility_booking_ids a.before one in
      (record { is_ok = true }, ground (arith, e, a.answer))

  rollback_answered :
      (req : CommitRollbackRequest) (w : S.World)
      → HaveOne S L U req.utility_booking_ids w
      → ((a : CommitRollbackResponse) × ((S.post (internal_rollback S req) w).0 ≡ ok a))
        × HaveOne S L U req.utility_booking_ids (S.post (internal_rollback S req) w).1
  unfolding internal_rollback
  rollback_answered req w h =
      let a = U.post-up (internal_rollback S req) w in
      let is = req.utility_booking_ids in
      let one : HaveOne S L U is a.before = rw a.arrived.0 h in
      let e = update_all_up S L U cancelled is a.before one in
      let still = update_all-HaveOne S L U cancelled is is a.before one one in
      let end : tables (S.post (internal_rollback S req) w).1
          ≡ tables (update_all S cancelled is a.before).1 =
        ground (arith, e, a.returned) in
      ((record { is_ok = true }, ground (arith, e, a.answer)), rw end still)

  pub commit_all_up :
      (fid : ℕ) (is : List ℕ) (w : S.World) → HaveOne S L U is w → (commit_all S fid is w).0 ≡ ok tt
  unfolding commit_all
  commit_all_up fid [] w h = set_txn_state_up fid committed [] w
  commit_all_up fid (i ∷ is) w h =
      let req : CommitRollbackRequest = record {
        field_booking_id = fid;
        utility_booking_ids = i ∷ is;
      } in
      let (a, e) = commit_answered req w h in
      ground
        (arith, e, set_txn_state_up fid committed (i ∷ is) (S.post (internal_commit S req) w).1)

  -- `rollback_all` returns, and every row that it names is CANCELLED.
  pub rollback_all_up :
      (fid : ℕ) (is : List ℕ) (w : S.World)
      → HaveOne S L U is w
      → let w' = (rollback_all S fid is w).1 in
        ((rollback_all S fid is w).0 ≡ ok tt)
        × Marked cancelled is (tables w) (tables w')
        × HaveOne S L U is w'
        × ((broker w').stored (txn_key fid) ≡ some (txn_value aborted is))
  rollback_all_up fid [] w h =
      let e = set_txn_state_up fid aborted [] w in
      unfold rollback_all in
      (
        e,
        Marked-nothing cancelled (tables w) _ (set_txn_state-tables S L fid aborted [] w),
        tt,
        set_txn_state_ok S L fid aborted [] w e,
      )
  rollback_all_up fid (i ∷ is) w h =
      let req : CommitRollbackRequest = record {
        field_booking_id = fid;
        utility_booking_ids = i ∷ is;
      } in
      let ((a, e), one) = rollback_answered req w h in
      let w1 = (S.post (internal_rollback S req) w).1 in
      let step = rollback_all_step S L fid i is w in
      let e1 = set_txn_state_up fid aborted (i ∷ is) w1 in
      (
        rw step e1,
        rollback_all_heard S L fid i is w e,
        HaveOne-along (i ∷ is) w1 _ (rw step (set_txn_state-tables S L fid aborted (i ∷ is) w1))
            one,
        rw step (set_txn_state_ok S L fid aborted (i ∷ is) w1 e1),
      )
