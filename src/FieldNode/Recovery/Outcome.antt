-- ===== src/FieldNode/Recovery/Outcome.antt =====
-- What the recovery job does with a transaction that it finds.
use ds_practice_court.UtilityNode.Endpoints.Updates.{Touched}
use ds_practice_court.FieldNode.Coordinator.Rollback.{rollback_all_outcome}
use mathlib.Core.Option
use ds_practice_court.Base.{
  finally_state, continue_with, raise, Action, Done, HttpxError, http_exception, httpx_error, fault,
  ◌>>◌, try_except, ℕ, zero, suc, ◌≡◌, ◌≢◌, refl, ap, sym, ◌∙◌, ◌⊎◌, inl, inr, true, false, some,
  List, ok, err, arith, bind_ok, try_cases, Exn, Result-cases, find?, find?-change_where, ==_refl,
  pure,
}
use ds_practice_court.Base.Text.{
  int_of, remove_prefix, int_of-decimal, remove_prefix-append, decimal,
}
use ds_practice_court.Shared.Schemas.{
  cancelled, failed, confirmed, prepared, init, committed, aborted, TwoPcTransactionState,
}
use ds_practice_court.Shared.Models.{Tables}
use ds_practice_court.Services.{Services, IsLawful}
use ds_practice_court.FieldNode.FieldBookingRepository
use ds_practice_court.FieldNode.FieldBookingRepository.{is_booking, with_status}
use ds_practice_court.FieldNode.FieldBookingRepository.Calls.{
  update_status_ok, update_status-broker,
}
use ds_practice_court.FieldNode.Coordinator.{
  rollback_all, commit_all, except_httpx, txn_key, txn_key_prefix,
}
use ds_practice_court.FieldNode.Coordinator.Redis.{txn_value}
use ds_practice_court.FieldNode.Coordinator.Commit.{Marked, commit_all_ok}
use ds_practice_court.FieldNode.Recovery.{
  is_blank, in_own_session, commit_or_give_up, recovery_loop, run_recovery, is_prepared,
  commit_again, give_up, recover_one, recover_document, recover_value, scan_loop,
}

module _ (S : Services) (L : IsLawful S) where
  open L use {tables, broker}

  -- The field booking of the transaction has the status, its utility bookings are CONFIRMED, and
  -- Redis says COMMITTED.
  abbrev pub Recovered : ℕ → List ℕ → S.World → S.World → Type 0
  Recovered fid is w w' =
      (find? (is_booking fid) (tables w').field_bookings
        ≡ Option.map (with_status confirmed) (find? (is_booking fid) (tables w).field_bookings))
      × ((t : Tables) × Marked confirmed is (tables w) t
          × ((tables w').utility_bookings ≡ t.utility_bookings))
      × ((broker w').stored (txn_key fid) ≡ some (txn_value committed is))

  commit_again_ok :
      (fid : ℕ) (is : List ℕ) (w : S.World)
      → (commit_again S fid is w).0 ≡ ok tt
      → Recovered fid is w (commit_again S fid is w).1
  unfolding commit_again
  commit_again_ok fid is w h =
      let (d, e, s) = bind_ok (commit_all S fid is) _ w h in
      let w1 = (commit_all S fid is w).1 in
      let (marked, stored) = commit_all_ok S L fid is w e in
      let (o, e2, s2) =
        bind_ok (FieldBookingRepository.update_status S fid confirmed) (λ _. pure tt) w1
          (ap (λ r. r.0) (sym s) ∙ h) in
      let set = update_status_ok S L fid confirmed w1 e2 in
      let b2 = update_status-broker S L fid confirmed w1 in
      let row =
        find?-change_where (λ r. r.id) (with_status confirmed) (λ r. refl) fid fid
          (tables w1).field_bookings in
      rw (s, s2)
        (
          ground (arith, set, row, marked.0, ==_refl fid),
          (tables w1, marked, ground (arith, set)),
          ground (arith, b2, stored),
        )

  -- The field booking is FAILED, utility bookings of the transaction may be CANCELLED and all else of
  -- their table stands, and Redis says ABORTED.
  abbrev pub GaveUp : ℕ → List ℕ → S.World → S.World → Type 0
  GaveUp fid is w w' =
      (find? (is_booking fid) (tables w').field_bookings
        ≡ Option.map (with_status failed) (find? (is_booking fid) (tables w).field_bookings))
      × ((t : Tables) × Touched cancelled is (tables w) t
          × ((tables w').utility_bookings ≡ t.utility_bookings))
      × ((broker w').stored (txn_key fid) ≡ some (txn_value aborted is))

  give_up_ok :
      (fid : ℕ) (is : List ℕ) (w : S.World)
      → (give_up S fid is w).0 ≡ ok tt
      → GaveUp fid is w (give_up S fid is w).1
  unfolding give_up
  give_up_ok fid is w h =
      let (d, e, s) = bind_ok (rollback_all S fid is) _ w h in
      let w1 = (rollback_all S fid is w).1 in
      let (how, touched) = rollback_all_outcome S L fid is w in
      let stored : (broker w1).stored (txn_key fid) ≡ some (txn_value aborted is) = elim how [
        | inl raised ↦ absurd (ground (arith, raised, e))
        | inr (_, held) ↦ held
      ] in
      let (o, e2, s2) =
        bind_ok (FieldBookingRepository.update_status S fid failed) (λ _. pure tt) w1
          (ap (λ r. r.0) (sym s) ∙ h) in
      let set = update_status_ok S L fid failed w1 e2 in
      let b2 = update_status-broker S L fid failed w1 in
      let row =
        find?-change_where (λ r. r.id) (with_status failed) (λ r. refl) fid fid
          (tables w1).field_bookings in
      rw (s, s2)
        (
          ground (arith, set, row, touched.0, ==_refl fid),
          (tables w1, touched, ground (arith, set)),
          ground (arith, b2, stored),
        )

  -- What the database and Redis show is the same in two worlds.
  abbrev pub SameShown : S.World → S.World → Type 0
  SameShown w v = (tables v ≡ tables w) × (broker v ≡ broker w)

  started_same : (w : S.World) → SameShown w (S.session_enter w).1
  started_same w = (L.enter-tables w, L.enter-broker w)

  -- A session that starts shows at its end what its block has left.
  own_session_shows :
      (m : Action S.World Done) (w : S.World) {d : Done}
      → (S.session_enter w).0 ≡ ok d
      → SameShown (m (S.session_enter w).1).1 (in_own_session S m w).1
  unfolding in_own_session
  own_session_shows m w e =
      let w0 = (S.session_enter w).1 in
      let undo : Exn → Action S.World Done = λ x. (do S.session_rollback; raise x) in
      let t = (try_except m undo w0).1 in
      let rolled : (x : Exn) → (undo x (m w0).1).1 ≡ (S.session_rollback (m w0).1).1 = λ x.
        elim (Result-cases (S.session_rollback (m w0).1).0) [
          | inl (u, r) ↦ ground (arith, r)
          | inr (y, r) ↦ ground (arith, r)
        ] in
      let body : SameShown (m w0).1 t = elim (try_cases m undo w0) [
        | inl (x, _, step) ↦
            rw (step, rolled x) (L.rollback-tables (m w0).1, L.rollback-broker (m w0).1)
        | inr (u, _, step) ↦ rw step (refl, refl)
      ] in
      let left : (in_own_session S m w).1 ≡ (S.session_leave t).1 =
        rw (continue_with, e) (finally_state (try_except m undo) S.session_leave w0) in
      rw left (L.leave-tables t ∙ body.0, L.leave-broker t ∙ body.1)

  no_session :
      (m : Action S.World Done) (w : S.World) {x : Exn}
      → (S.session_enter w).0 ≡ err x
      → (in_own_session S m w).1 ≡ (S.session_enter w).1
  unfolding in_own_session
  no_session m w e = rw (continue_with, e) refl

  -- The outer `try` adds nothing to what is shown.
  recover_one_state :
      (fid : ℕ) (is : List ℕ) (w : S.World)
      → (recover_one S fid is w).1 ≡ (in_own_session S (commit_or_give_up S fid is) w).1
  unfolding recover_one
  recover_one_state fid is w =
      elim (try_cases (in_own_session S (commit_or_give_up S fid is)) (λ _. pure tt) w) [
        | inl (e, _, s) ↦ ap (λ r. r.1) s
        | inr (d, _, s) ↦ ap (λ r. r.1) s
      ]

  recover_one_shows :
      (fid : ℕ) (is : List ℕ) (w : S.World) {d : Done}
      → (S.session_enter w).0 ≡ ok d
      → SameShown (commit_or_give_up S fid is (S.session_enter w).1).1 (recover_one S fid is w).1
  recover_one_shows fid is w e =
      rw (recover_one_state fid is w) (own_session_shows (commit_or_give_up S fid is) w e)

  -- With a session that starts, and a commit that returns.
  pub recover_one_same :
      (fid : ℕ) (is : List ℕ) (w : S.World) {d : Done}
      → (S.session_enter w).0 ≡ ok d
      → (commit_again S fid is (S.session_enter w).1).0 ≡ ok tt
      → SameShown (commit_again S fid is (S.session_enter w).1).1 (recover_one S fid is w).1
  unfolding commit_or_give_up
  recover_one_same fid is w e h =
      let (t, b) = recover_one_shows fid is w e in (ground (arith, t, h), ground (arith, b, h))

  recover_one_quiet : (fid : ℕ) (is : List ℕ) (w : S.World) → (recover_one S fid is w).0 ≡ ok tt
  unfolding recover_one
  recover_one_quiet fid is w =
      elim (try_cases (in_own_session S (commit_or_give_up S fid is)) (λ _. pure tt) w) [
        | inl (e, _, s) ↦ ap (λ r. r.0) s
        | inr (d, _, s) ↦ ap (λ r. r.0) s
      ]

  -- How the work of `_recover_one` ends, from the world `w` and up to the world `w'`.
  abbrev pub Attempted : ℕ → List ℕ → S.World → S.World → Type 0
  Attempted fid is w w' =
      let tried = commit_again S fid is (S.session_enter w).1 in
      let given_up = give_up S fid is tried.1 in
      ((e : Exn) × ((S.session_enter w).0 ≡ err e) × SameShown w w')
      ⊎ ((tried.0 ≡ ok tt) × Recovered fid is w w')
      ⊎ ((x : HttpxError) × (tried.0 ≡ err (httpx_error x))
          × (((y : Exn) × (given_up.0 ≡ err y) × SameShown given_up.1 w')
              ⊎ GaveUp fid is tried.1 w'))
      ⊎ ((x : Exn) × (tried.0 ≡ err x)
          × ((y : HttpxError) → x ≢ httpx_error y)
          × SameShown tried.1 w')

  recover_one_raised :
      (fid : ℕ) (is : List ℕ) (w : S.World) (x : Exn) {d : Done}
      → (S.session_enter w).0 ≡ ok d
      → (commit_again S fid is (S.session_enter w).1).0 ≡ err x
      → Attempted fid is w (recover_one S fid is w).1
  unfolding commit_or_give_up except_httpx
  recover_one_raised fid is w (httpx_error x) e h =
      let w0 = (S.session_enter w).1 in
      let w1 = (commit_again S fid is w0).1 in
      let (t, b) = recover_one_shows fid is w e in
      let turned : commit_or_give_up S fid is w0 ≡ give_up S fid is w1 = ground (arith, h) in
      let ends : SameShown (give_up S fid is w1).1 (recover_one S fid is w).1 =
        (t ∙ ap (λ r. tables r.1) turned, b ∙ ap (λ r. broker r.1) turned) in
      inr (
        inr (
          inl (
            x,
            h,
            elim (Result-cases (give_up S fid is w1).0) [
              | inr (y, g) ↦ inl (y, g, ends)
              | inl (u, g) ↦ inr (rw (ends.0, ends.1) (give_up_ok fid is w1 g))
            ],
          )))
  recover_one_raised fid is w (http_exception n m) e h =
      let (t, b) = recover_one_shows fid is w e in
      inr
        (inr (inr (http_exception n m, h, λ y q. cc, (ground (arith, t, h), ground (arith, b, h)))))
  recover_one_raised fid is w (fault f) e h =
      let (t, b) = recover_one_shows fid is w e in
      inr (inr (inr (fault f, h, λ y q. cc, (ground (arith, t, h), ground (arith, b, h)))))

  -- `_recover_one` never raises. Its session does not start, and nothing changes; or its commit
  -- returns, and then the rows of the field booking and of the utility bookings that it is given are
  -- CONFIRMED and Redis holds COMMITTED with their ids; or its commit fails by an error of httpx, and
  -- then it gives up: the field booking is FAILED, of the utility bookings only those that it is
  -- given may have changed, by becoming CANCELLED, and Redis holds ABORTED with their ids, unless a
  -- call of that raises; or its commit raises another exception, and nothing more is done.
  pub recover_one_outcome :
      (fid : ℕ) (is : List ℕ) (w : S.World)
      → ((recover_one S fid is w).0 ≡ ok tt) × Attempted fid is w (recover_one S fid is w).1
  recover_one_outcome fid is w = (
    recover_one_quiet fid is w,
    elim (Result-cases (S.session_enter w).0) [
      | inr (e, absent_session) ↦
          let left =
            recover_one_state fid is w ∙ no_session (commit_or_give_up S fid is) w absent_session in
          inl (e, absent_session, rw left (started_same w))
      | inl (d, e) ↦ elim (Result-cases (commit_again S fid is (S.session_enter w).1).0) [
        | inl (u, h) ↦
            let (t, b) = recover_one_same fid is w e h in
            inr (
              inl
                (h, rw (t, b, ← L.enter-tables w) (commit_again_ok fid is (S.session_enter w).1 h)))
        | inr (x, h) ↦ recover_one_raised fid is w x e h
      ]
    ],
  )

  read :
      (state : TwoPcTransactionState) (is : List ℕ)
      → S.json_loads (txn_value state is)
        ≡ some (record { state = state; utility_booking_ids = is })
  read state is = L.json_loads-document (record { state = state; utility_booking_ids = is })

  -- At the key of a transaction: one in the state PREPARED is recovered and counted, and one in
  -- another state is passed over.
  pub recover_value-txn_key :
      (fid : ℕ) (state : TwoPcTransactionState) (is : List ℕ) (w : S.World)
      → ((state ≡ prepared)
          × (recover_value S (txn_key fid) (some (txn_value state is)) w
              ≡ (ok true, (recover_one S fid is w).1)))
        ⊎ ((state ≢ prepared)
            × (recover_value S (txn_key fid) (some (txn_value state is)) w ≡ (ok false, w)))
  unfolding recover_value recover_document is_blank is_prepared
  recover_value-txn_key fid prepared is w =
      let key : int_of (remove_prefix txn_key_prefix (txn_key fid)) ≡ some fid =
        rw (remove_prefix-append txn_key_prefix (decimal fid)) (int_of-decimal fid) in
      inl (refl, ground (arith, key, recover_one_quiet fid is w, read prepared is))
  recover_value-txn_key fid init is w = inr (λ e. cc, ground (arith, read init is))
  recover_value-txn_key fid committed is w = inr (λ e. cc, ground (arith, read committed is))
  recover_value-txn_key fid aborted is w = inr (λ e. cc, ground (arith, read aborted is))

module _ (S : Services) where
  -- The task of the recovery goes on for any number of rounds, whatever Redis, the database and the
  -- participant do in between. (The making and the closing of its Redis client are not modelled.)
  pub recovery_loop_returns :
      (sleep : S.World → S.World) (fuel rounds : ℕ) (w : S.World)
      → (recovery_loop S sleep fuel rounds w).0 ≡ ok tt
  unfolding recovery_loop run_recovery
  recovery_loop_returns sleep fuel zero w = refl
  recovery_loop_returns sleep fuel (suc rounds) w =
      elim (Result-cases (scan_loop S fuel 0 0 (sleep w)).0) [
        | inl (o, e) ↦
            ground
              (arith, e, recovery_loop_returns sleep fuel rounds (scan_loop S fuel 0 0 (sleep w)).1)
        | inr (x, e) ↦
            ground
              (arith, e, recovery_loop_returns sleep fuel rounds (scan_loop S fuel 0 0 (sleep w)).1)
      ]
