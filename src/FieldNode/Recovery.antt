-- ===== src/FieldNode/Recovery.antt =====
-- field_node/app/recovery.py: the job that finishes the transactions left in the state PREPARED.
pub mod Outcome
pub mod Crash
pub mod Visit
pub mod Along
pub mod Run
use ds_practice_court.Base.{
  ok, ℕ, zero, suc, ◌+◌, ◌==◌, Bool, true, false, Option, none, some, List, [], ◌∷◌, Action, Done,
  fault, value_error, pure, raise, ◌>>=◌, ◌>>◌, try_except, try_finally,
}
use ds_practice_court.Base.Text.{Text, codes, int_of, remove_prefix}
use ds_practice_court.Shared.Schemas.{confirmed, failed, TwoPcTransactionState}
use ds_practice_court.Shared.Responses.{OkMessage}
use ds_practice_court.Services.{Services, Value, plain, document, TxnDocument}
use ds_practice_court.FieldNode.FieldBookingRepository
use ds_practice_court.FieldNode.Coordinator.{commit_all, rollback_all, except_httpx, txn_key_prefix}

-- `if not raw:`, an empty text included
unfoldable pub is_blank : Value → Bool
is_blank (plain []) = true
is_blank (plain (c ∷ t)) = false
is_blank (document d) = false

-- `data.get("state") == TwoPCTransactionState.PREPARED.value`
unfoldable pub is_prepared : TwoPcTransactionState → Bool
is_prepared TwoPcTransactionState.prepared = true
is_prepared _ = false

module _ (S : Services) where
  -- The body of the inner `try`.
  unfoldable pub commit_again : ℕ → List ℕ → Action S.World Done
  commit_again fid is = do
    commit_all S fid is
    _ ← FieldBookingRepository.update_status S fid confirmed
    pure tt

  unfoldable pub give_up : ℕ → List ℕ → Action S.World Done
  give_up fid is = do
    rollback_all S fid is
    _ ← FieldBookingRepository.update_status S fid failed
    pure tt

  -- The inner `try`.
  unfoldable pub commit_or_give_up : ℕ → List ℕ → Action S.World Done
  unfolding commit_again give_up except_httpx
  commit_or_give_up fid is = try_except (commit_again fid is) (except_httpx (λ _. give_up fid is))

  -- `async with db_manager.session()`: the block of `session`, over an open manager.
  unfoldable pub in_own_session : Action S.World Done → Action S.World Done
  in_own_session body = do
    S.session_enter
    try_finally (try_except body (λ e. do S.session_rollback; raise e)) S.session_leave

  -- The outer `try` logs whatever is left, a session that does not start included.
  unfoldable pub recover_one : ℕ → List ℕ → Action S.World Done
  unfolding commit_or_give_up in_own_session
  recover_one fid is = try_except (in_own_session (commit_or_give_up fid is)) (λ _. pure tt)

  -- What the loop does with a key whose value has been read; `true` if it counts as recovered.
  unfoldable pub recover_document : Text → TxnDocument → Action S.World Bool
  unfolding recover_one is_prepared
  recover_document key d = elim (is_prepared d.state) [
    | false ↦ pure false
    | true ↦ elim (int_of (remove_prefix txn_key_prefix key)) [
      | none ↦ raise (fault value_error)
      | some fid ↦ (do recover_one fid d.utility_booking_ids; pure true)
    ]
  ]

  unfoldable pub recover_value : Text → Option Value → Action S.World Bool
  unfolding recover_document is_blank
  recover_value key none = pure false
  recover_value key (some raw) = elim (is_blank raw) [
    | true ↦ pure false
    | false ↦ elim (S.json_loads raw) [
      | none ↦ raise (fault value_error)
      | some d ↦ recover_document key d
    ]
  ]

  unfoldable pub count_if : Bool → ℕ → ℕ
  count_if true n = n + 1
  count_if false n = n

  -- `for key in keys:`, with the count so far.
  unfoldable pub recover_keys : List Text → ℕ → Action S.World ℕ
  unfolding count_if
  recover_keys [] recovered = pure recovered
  recover_keys (key ∷ keys) recovered = do
    raw ← S.redis_get key
    done ← recover_value key raw
    recover_keys keys (count_if done recovered)

  -- `while True:`, at most `fuel` rounds; `none` if the scan has not come back to the cursor 0.
  unfoldable pub scan_loop : ℕ → ℕ → ℕ → Action S.World (Option ℕ)
  scan_loop zero cursor recovered = pure none
  scan_loop (suc fuel) cursor recovered = do
    (next, keys) ← S.redis_scan cursor txn_key_prefix
    recovered' ← recover_keys keys recovered
    elim (next == 0) [ true ↦ pure (some recovered') | false ↦ scan_loop fuel next recovered' ]

  -- An exception of the scan is logged.
  unfoldable pub run_recovery : ℕ → Action S.World (Option ℕ)
  unfolding scan_loop
  run_recovery fuel = try_except (scan_loop fuel 0 0) (λ _. pure (some 0))

  -- `/admin/recovery`
  unfoldable pub trigger_recovery : ℕ → Action S.World OkMessage
  trigger_recovery fuel = do
    _ ← run_recovery fuel
    pure (record { is_ok = true; message = codes "Recovery job executed!" })

  -- The first rounds of `recovery_loop`, which has no end; `sleep` is what goes on while it sleeps.
  unfoldable pub recovery_loop : (S.World → S.World) → ℕ → ℕ → Action S.World Done
  unfolding run_recovery
  recovery_loop sleep fuel zero w = (ok tt, w)
  recovery_loop sleep fuel (suc rounds) w =
      (do _ ← run_recovery fuel; recovery_loop sleep fuel rounds) (sleep w)
