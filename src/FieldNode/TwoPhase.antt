-- ===== src/FieldNode/TwoPhase.antt =====
-- field_node/app/main.py, `create_booking_2pc`: a field and its utilities booked together. The body
-- of its `try` assigns three local variables, which the handlers read; they are part of its state.
pub mod Success
pub mod Overlap
pub mod Unlock
pub mod Spec
pub mod Undo
pub mod Refines
pub mod Verdicts
pub mod Refinement
use ds_practice_court.Base.{
  ℕ, Bool, true, false, not, Option, none, some, List, [], Action, Done, Exn, Result,
  http_exception, httpx_error, fault, ok, slot_locked, slot_booked, utility_down,
  aborted as txn_aborted, internal_error, pure, raise, ◌>>=◌, ◌>>◌, try_except, try_finally,
}
use ds_practice_court.Base.Text.{Text}
use ds_practice_court.Shared.Schemas.{BookingStatus, confirmed, failed, FieldBookingRequest}
use ds_practice_court.Shared.Models.{FieldBooking}
use ds_practice_court.Services.{Services, booking_confirmed, booking_failed}
use ds_practice_court.Locks.{acquire}
use ds_practice_court.Events.{publish_booking_event}
use ds_practice_court.FieldNode.FieldBookingRepository
use ds_practice_court.FieldNode.FieldBookingRepository.{slot_lock_key, release_quietly}
use ds_practice_court.FieldNode.Coordinator.{prepare_all, commit_all, rollback_all}
use ds_practice_court.FieldNode.Bookings.{require_active_field}

abbrev pub two_pc_lock_ttl_ms : ℕ
two_pc_lock_ttl_ms = 30000

-- The local variables of the endpoint.
pub record Locals : Type 0 where
  pub field_booking_id : Option ℕ
  pub utility_booking_ids : List ℕ
  pub committed : Bool

abbrev pub start_locals : Locals
start_locals = record { field_booking_id = none; utility_booking_ids = []; committed = false }

module _ {W : Type 0} where
  -- A call that does not touch the local variables.
  abbrev pub lift : {A : Type 0} → Action W A → Action (W × Locals) A
  lift m (w, x) = let (r, w') = m w in (r, (w', x))

  abbrev pub assign : (Locals → Locals) → Action (W × Locals) Done
  assign f (w, x) = (ok tt, (w, f x))

  -- The end of the endpoint's `try` statement: the local variables are gone.
  abbrev pub without_locals : {A : Type 0} → Action (W × Locals) A → Action W A
  without_locals m w = let (r, (w', _)) = m (w, start_locals) in (r, w')

module _ (S : Services) where
  -- The inner `try` around `prepare_all`.
  unfoldable pub prepare_or_503 : ℕ → List ℕ → Action S.World (Bool × List ℕ)
  prepare_or_503 fid utility_ids =
      try_except (prepare_all S fid utility_ids) (λ _. raise (http_exception 503 utility_down))

  -- `if not success:`
  unfoldable pub abort_txn : FieldBookingRequest → ℕ → List ℕ → Action S.World (Option FieldBooking)
  abort_txn body fid is = do
    rollback_all S fid is
    _ ← FieldBookingRepository.update_status S fid failed
    publish_booking_event S booking_failed fid body.field_id failed body.user_id
        (S.isoformat body.start_time) (S.isoformat body.end_time)
    raise (http_exception 409 txn_aborted)

  -- Everything from the commit phase on.
  unfoldable pub commit_txn :
      FieldBookingRequest → ℕ → List ℕ → Action (S.World × Locals) (Option FieldBooking)
  commit_txn body fid is = do
    _ ← lift (FieldBookingRepository.update_status S fid confirmed)
    lift (commit_all S fid is)
    assign (λ x. record x { committed = true })
    lift (
        publish_booking_event S booking_confirmed fid body.field_id confirmed body.user_id
          (S.isoformat body.start_time) (S.isoformat body.end_time))
    lift (FieldBookingRepository.get_by_id S fid)

  -- From the PENDING record on, with its id.
  unfoldable pub transact :
      FieldBookingRequest → ℕ → Action (S.World × Locals) (Option FieldBooking)
  unfolding prepare_or_503 abort_txn commit_txn
  transact body fid = do
    assign (λ x. record x { field_booking_id = some fid })
    (success, is) ← lift (prepare_or_503 fid body.utility_ids)
    assign (λ x. record x { utility_booking_ids = is })
    elim success [ true ↦ commit_txn body fid is | false ↦ lift (abort_txn body fid is) ]

  -- The body of the outer `try`.
  unfoldable pub booking_txn : FieldBookingRequest → Action (S.World × Locals) (Option FieldBooking)
  unfolding transact
  booking_txn body = do
    available ←
        lift
          (FieldBookingRepository.check_availability S body.field_id body.start_time body.end_time)
    elim available [
      | false ↦ raise (http_exception 409 slot_booked)
      | true ↦ (do
        field_booking ← lift (
            FieldBookingRepository.create_pending S body.field_id body.user_id body.start_time
              body.end_time)
        transact body field_booking.id)
    ]

  -- The rollback of last resort; what it raises is logged and forgotten.
  unfoldable pub emergency_rollback : ℕ → List ℕ → Action S.World Done
  emergency_rollback fid is =
      try_except
        (do rollback_all S fid is; _ ← FieldBookingRepository.update_status S fid failed; pure tt)
        (λ _. pure tt)

  -- `if field_booking_id is not None and not committed:`
  unfoldable pub rollback_unless_committed : Locals → Action S.World Done
  unfolding emergency_rollback
  rollback_unless_committed x = elim x.field_booking_id [
    | none ↦ pure tt
    | some fid ↦ elim x.committed [
      | true ↦ pure tt
      | false ↦ emergency_rollback fid x.utility_booking_ids
    ]
  ]

  -- An HTTPException is raised again, any other exception becomes a 500.
  unfoldable pub as_http : Exn → Exn
  as_http (http_exception n d) = http_exception n d
  as_http (httpx_error e) = http_exception 500 internal_error
  as_http (fault f) = http_exception 500 internal_error

  -- The two `except` clauses, which differ in what they raise at the end.
  unfoldable pub on_exception : Exn → Action (S.World × Locals) (Option FieldBooking)
  unfolding rollback_unless_committed as_http
  on_exception e (w, x) = let (_, w') = rollback_unless_committed x w in raise (as_http e) (w', x)

  unfoldable pub run_txn : FieldBookingRequest → Action S.World (Option FieldBooking)
  unfolding booking_txn on_exception
  run_txn body = without_locals (try_except (booking_txn body) on_exception)

  unfoldable pub create_booking_2pc : FieldBookingRequest → Action S.World (Option FieldBooking)
  unfolding require_active_field run_txn release_quietly
  create_booking_2pc body = do
    require_active_field S body.field_id
    let lock_key = slot_lock_key body.field_id (S.isoformat body.start_time)
    token ← acquire S lock_key two_pc_lock_ttl_ms
    elim token [
      | none ↦ raise (http_exception 409 slot_locked)
      | some t ↦ try_finally (run_txn body) (release_quietly S lock_key t)
    ]
