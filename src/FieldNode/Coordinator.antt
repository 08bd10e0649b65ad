-- ===== src/FieldNode/Coordinator.antt =====
-- field_node/app/two_pc_coordinator.py: the coordinator's half of the two-phase commit. The URL of
-- the utility node is the connection behind `S.post`.
pub mod Redis
pub mod Prepare
pub mod Commit
pub mod Rollback
pub mod Frame
pub mod Keeps
pub mod Answers
use ds_practice_court.Base.{
  ℕ, Bool, true, false, Option, none, some, List, [], ◌∷◌, ◌++◌, Action, Done, Exn, httpx_error,
  http_exception, fault, pure, raise, ◌>>=◌, ◌>>◌, try_except,
}
use ds_practice_court.Base.Text.{Text, codes, decimal}
use ds_practice_court.Shared.Schemas.{
  yes_vote, no_vote, TwoPcTransactionState, init, prepared, committed, aborted, PrepareResponse,
}
use ds_practice_court.Services.{Services, document}
use ds_practice_court.UtilityNode.Endpoints.{internal_prepare, internal_commit, internal_rollback}

abbrev pub txn_ttl_s : ℕ
txn_ttl_s = 300

-- `2pc:txn:{field_booking_id}`
abbrev pub txn_key_prefix : Text
txn_key_prefix = codes "2pc:txn:"

abbrev pub txn_key : ℕ → Text
txn_key field_booking_id = txn_key_prefix ++ decimal field_booking_id

-- `vote.vote == TwoPCVote.YES and vote.utility_booking_id is not None`
unfoldable pub booked_id : PrepareResponse → Option ℕ
booked_id r = elim r.vote [ yes_vote ↦ r.utility_booking_id | no_vote ↦ none ]

-- `except httpx.HTTPError`, and the three classes of it that the other handlers name.
unfoldable pub except_httpx : {W A : Type 0} → (Exn → Action W A) → Exn → Action W A
except_httpx h (httpx_error e) = h (httpx_error e)
except_httpx h (http_exception n d) = raise (http_exception n d)
except_httpx h (fault f) = raise (fault f)

module _ (S : Services) where
  unfoldable pub set_txn_state : ℕ → TwoPcTransactionState → List ℕ → Action S.World Done
  set_txn_state field_booking_id state utility_booking_ids =
      S.redis_set (txn_key field_booking_id)
        (document (record { state = state; utility_booking_ids = utility_booking_ids })) txn_ttl_s

  -- One round of the loop: what the participant booked, with a failed call for a NO.
  unfoldable pub ask : ℕ → ℕ → Action S.World (Option ℕ)
  unfolding booked_id except_httpx
  ask field_booking_id utility_id =
      try_except
        (do
          vote ← S.post (
              internal_prepare S
                (record { field_booking_id = field_booking_id; utility_id = utility_id }))
          pure (booked_id vote))
        (except_httpx (λ _. pure none))

  -- The loop of `prepare_all`, and what follows it, with the ids collected so far.
  unfoldable pub prepare_loop : ℕ → List ℕ → List ℕ → Action S.World (Bool × List ℕ)
  prepare_loop field_booking_id [] confirmed_ids = do
    set_txn_state field_booking_id prepared confirmed_ids
    pure (true, confirmed_ids)
  prepare_loop field_booking_id (utility_id ∷ utility_ids) confirmed_ids = do
    answer ← ask field_booking_id utility_id
    elim answer [
      | none ↦ pure (false, confirmed_ids)
      | some i ↦ prepare_loop field_booking_id utility_ids (confirmed_ids ++ i ∷ [])
    ]

  unfoldable pub prepare_all : ℕ → List ℕ → Action S.World (Bool × List ℕ)
  unfolding prepare_loop
  prepare_all field_booking_id utility_ids = do
    set_txn_state field_booking_id init []
    prepare_loop field_booking_id utility_ids []

  unfoldable pub commit_all : ℕ → List ℕ → Action S.World Done
  commit_all field_booking_id [] = set_txn_state field_booking_id committed []
  commit_all field_booking_id (i ∷ is) = do
    _ ← S.post (
        internal_commit S
          (record { field_booking_id = field_booking_id; utility_booking_ids = i ∷ is }))
    set_txn_state field_booking_id committed (i ∷ is)

  -- The POST of `rollback_all`: an answer that does not come is passed over.
  unfoldable pub send_rollback : ℕ → List ℕ → Action S.World Done
  unfolding except_httpx
  send_rollback field_booking_id is =
      try_except
        (do
          _ ← S.post (
              internal_rollback S
                (record { field_booking_id = field_booking_id; utility_booking_ids = is }))
          pure tt)
        (except_httpx (λ _. pure tt))

  unfoldable pub rollback_all : ℕ → List ℕ → Action S.World Done
  unfolding send_rollback
  rollback_all field_booking_id [] = set_txn_state field_booking_id aborted []
  rollback_all field_booking_id (i ∷ is) = do
    send_rollback field_booking_id (i ∷ is)
    set_txn_state field_booking_id aborted (i ∷ is)
