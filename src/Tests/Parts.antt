-- ===== src/Tests/Parts.antt =====
-- The parts of the protocol on concrete inputs.
use ds_practice_court.Base.{
  length, ℕ, ◌≡◌, refl, ◌⊎◌, ◌≢◌, true, false, none, some, [], ◌∷◌, ok, err, fault, redis_error,
  find?, contains, if◌then◌else◌,
}
use mathlib.Core.Option
use ds_practice_court.Base.Text.{Text, codes, decimal, text_eq}
use ds_practice_court.Shared.Schemas.{
  init, pending, confirmed, cancelled, prepared, committed, aborted, PrepareRequest,
  CommitRollbackRequest,
}
use ds_practice_court.Shared.Models.{UtilityBooking}
use ds_practice_court.Services.{plain, booking_failed, put_utility_bookings}
use ds_practice_court.Services.Memory.{
  Memory, memory, memory_lawful, memory_table, memory_set_nx, next_id,
}
use ds_practice_court.Locks.{acquire, release, holds_token, build_key}
use ds_practice_court.Locks.Ownership.{acquire_outcome, release_outcome}
use ds_practice_court.Events.{publish_booking_event}
use ds_practice_court.Events.Quiet.{publish_quiet}
use ds_practice_court.FieldNode.FieldBookingRepository.{check_availability, blocks, is_none}
use ds_practice_court.FieldNode.FieldBookingRepository.Calls.{check_availability_answer}
use ds_practice_court.FieldNode.Coordinator.{
  txn_key, prepare_all, commit_all, rollback_all, set_txn_state, ask,
}
use ds_practice_court.FieldNode.Coordinator.Redis.{txn_value}
use ds_practice_court.FieldNode.Coordinator.Prepare.{
  Asked, Booked, Collects, ask_outcome, prepare_all_ok,
}
use ds_practice_court.FieldNode.Coordinator.Commit.{Marked, commit_all_ok}
use ds_practice_court.FieldNode.Coordinator.Rollback.{rollback_all_outcome, rollback_all_heard}
use ds_practice_court.UtilityNode.UtilityRepository
use ds_practice_court.UtilityNode.UtilityBookingRepository
use ds_practice_court.UtilityNode.UtilityBookingRepository.{is_utility_booking, set_status}
use ds_practice_court.UtilityNode.Endpoints.{
  internal_prepare, internal_commit, internal_rollback, update_all,
}
use ds_practice_court.UtilityNode.Endpoints.Updates.{Touched, update_all_changes}
use ds_practice_court.Tests.Worlds.{quiet_world}
open memory_lawful use {tables, broker}

abbrev lights_row : UtilityBooking
lights_row = record { id = 1; utility_id = 4; booking_id = 9; status = pending }

abbrev rackets_row : UtilityBooking
rackets_row = record { id = 2; utility_id = 5; booking_id = 9; status = pending }

-- The participant's table with the two rows of transaction 9.
abbrev pub prepared_world : Memory
prepared_world = record quiet_world {
  tables = put_utility_bookings (lights_row ∷ rackets_row ∷ []) quiet_world.tables;
}

two_votes : (prepare_all memory 9 (4 ∷ 5 ∷ []) quiet_world).0 ≡ ok (true, 1 ∷ 2 ∷ [])
unfolding prepare_all set_txn_state ask internal_prepare UtilityRepository.get_by_id
    UtilityBookingRepository.create memory_table next_id text_eq
two_votes = refl

prepare_all_ok_example :
    let w' = (prepare_all memory 9 (4 ∷ 5 ∷ []) quiet_world).1 in
    Booked 9 pending (tables w').utility_bookings (4 ∷ 5 ∷ []) (1 ∷ 2 ∷ [])
    × Collects memory memory_lawful 9
        (4 ∷ 5 ∷ [])
        (set_txn_state memory 9 init [] quiet_world).1
        true
        (1 ∷ 2 ∷ [])
    × ((true ≡ false)
        ⊎ ((length {A = ℕ} (1 ∷ 2 ∷ []) ≡ length {A = ℕ} (4 ∷ 5 ∷ []))
            × ((broker w').stored (txn_key 9) ≡ some (txn_value prepared (1 ∷ 2 ∷ [])))))
prepare_all_ok_example = prepare_all_ok memory memory_lawful 9 (4 ∷ 5 ∷ []) quiet_world two_votes

two_confirmed : (commit_all memory 9 (1 ∷ 2 ∷ []) prepared_world).0 ≡ ok tt
unfolding commit_all set_txn_state internal_commit UtilityBookingRepository.update_status
    memory_table text_eq
two_confirmed = refl

commit_all_ok_example :
    let w' = (commit_all memory 9 (1 ∷ 2 ∷ []) prepared_world).1 in
    Marked confirmed (1 ∷ 2 ∷ []) (tables prepared_world) (tables w')
    × ((broker w').stored (txn_key 9) ≡ some (txn_value committed (1 ∷ 2 ∷ [])))
commit_all_ok_example =
    commit_all_ok memory memory_lawful 9 (1 ∷ 2 ∷ []) prepared_world two_confirmed

rollback_all_outcome_example :
    let w' = (rollback_all memory 9 (1 ∷ 2 ∷ []) prepared_world).1 in
    (((rollback_all memory 9 (1 ∷ 2 ∷ []) prepared_world).0 ≡ err (fault redis_error))
      ⊎ (((rollback_all memory 9 (1 ∷ 2 ∷ []) prepared_world).0 ≡ ok tt)
          × ((broker w').stored (txn_key 9) ≡ some (txn_value aborted (1 ∷ 2 ∷ [])))))
    × Touched cancelled (1 ∷ 2 ∷ []) (tables prepared_world) (tables w')
rollback_all_outcome_example =
    rollback_all_outcome memory memory_lawful 9 (1 ∷ 2 ∷ []) prepared_world

abbrev cancel_both : CommitRollbackRequest
cancel_both = record { field_booking_id = 9; utility_booking_ids = 1 ∷ 2 ∷ [] }

both_heard :
    (memory.post (internal_rollback memory cancel_both) prepared_world).0
    ≡ ok (record { is_ok = true })
unfolding internal_rollback UtilityBookingRepository.update_status memory_table
both_heard = refl

rollback_all_heard_example :
    Marked cancelled
      (1 ∷ 2 ∷ [])
      (tables prepared_world)
      (tables (rollback_all memory 9 (1 ∷ 2 ∷ []) prepared_world).1)
rollback_all_heard_example =
    rollback_all_heard memory memory_lawful 9 1 (2 ∷ []) prepared_world both_heard

abbrev ask_for_lights : PrepareRequest
ask_for_lights = record { field_booking_id = 9; utility_id = 4 }

ask_outcome_example :
    ((broker (ask memory 9 4 quiet_world).1) ≡ (broker quiet_world))
    × Asked ask_for_lights
        (ask memory 9 4 quiet_world).0
        (tables quiet_world)
        (tables (ask memory 9 4 quiet_world).1)
ask_outcome_example = ask_outcome memory memory_lawful 9 4 quiet_world

second_confirmed : (update_all memory confirmed (2 ∷ []) prepared_world).0 ≡ ok tt
unfolding update_all UtilityBookingRepository.update_status memory_table
second_confirmed = refl

update_all_changes_example :
    let t = (tables prepared_world) in
    let t' = (tables (update_all memory confirmed (2 ∷ []) prepared_world).1) in
    (t' ≡ put_utility_bookings t'.utility_bookings t)
    × ((j : ℕ)
        → find? (is_utility_booking j) t'.utility_bookings ≡ (
            if contains j (2 ∷ [])
            then Option.map (set_status confirmed) (find? (is_utility_booking j) t.utility_bookings)
            else find? (is_utility_booking j) t.utility_bookings))
update_all_changes_example =
    update_all_changes memory memory_lawful confirmed (2 ∷ []) prepared_world second_confirmed

abbrev slot : Text
slot = codes "field:1:100"

seven_takes_it : (acquire memory slot 5000 quiet_world).0 ≡ ok (some (decimal 7))
unfolding acquire memory_set_nx decimal text_eq
seven_takes_it = refl

acquire_outcome_example :
    let before = (broker quiet_world).stored (build_key slot) in
    let after = (broker (acquire memory slot 5000 quiet_world).1).stored (build_key slot) in
    ((token : Text) × (some (decimal 7) ≡ some token)
      × (before ≡ none)
      × (after ≡ some (plain token)))
    ⊎ ((some (decimal 7) ≡ none) × (before ≢ none) × (after ≡ before))
acquire_outcome_example = acquire_outcome memory memory_lawful slot 5000 quiet_world seven_takes_it

-- The lock of the slot, taken with the token "x".
abbrev pub locked_world : Memory
locked_world = record quiet_world {
  broker = record { stored = λ k. some (plain (codes "x")); sent = [] };
}

wrong_token : (release memory slot (codes "y") locked_world).0 ≡ ok false
unfolding release holds_token text_eq
wrong_token = refl

release_outcome_example :
    let before = (broker locked_world).stored (build_key slot) in
    let after = (broker (release memory slot (codes "y") locked_world).1).stored (build_key slot) in
    ((before ≡ some (plain (codes "y"))) × (false ≡ true) × (after ≡ none))
    ⊎ ((before ≢ some (plain (codes "y"))) × (false ≡ false) × (after ≡ before))
release_outcome_example =
    release_outcome memory memory_lawful slot (codes "y") locked_world wrong_token

free_slot : (check_availability memory 1 100 160 quiet_world).0 ≡ ok true
unfolding check_availability memory_table blocks is_none
free_slot = refl

check_availability_answer_example :
    true ≡ is_none (find? (blocks 1 100 160) (tables quiet_world).field_bookings)
check_availability_answer_example =
    check_availability_answer memory memory_lawful 1 100 160 quiet_world free_slot

publish_quiet_example :
    let m = publish_booking_event memory booking_failed 9 1 confirmed [] [] [] in
    ((m quiet_world).0 ≡ ok tt)
    × ((tables (m quiet_world).1) ≡ (tables quiet_world))
    × ((broker (m quiet_world).1).stored ≡ (broker quiet_world).stored)
publish_quiet_example =
    publish_quiet memory memory_lawful booking_failed 9 1 confirmed [] [] [] quiet_world
