-- ===== src/Tests/Refinement.antt =====
-- The verdicts of `create_booking_2pc` on concrete requests, over a network that loses nothing.
use ds_practice_court.Base.{ok, ◌≡◌, refl, true, none, [], ◌∷◌}
use ds_practice_court.Base.Text.{codes}
use ds_practice_court.Shared.Schemas.{confirmed}
use ds_practice_court.Services.{put_field_bookings}
use ds_practice_court.Services.Memory.{Memory, memory_table, next_id, in_memory_lawful}
use ds_practice_court.UtilityNode.UtilityRepository
use ds_practice_court.UtilityNode.UtilityBookingRepository
use ds_practice_court.UtilityNode.Endpoints.{internal_prepare}
use ds_practice_court.FieldNode.Coordinator.{prepare_all, ask, set_txn_state, txn_key}
use ds_practice_court.FieldNode.Coordinator.Prepare.{Booked}
use ds_practice_court.FieldNode.Recovery.{recover_value}
use ds_practice_court.FieldNode.Recovery.Outcome.{Recovered}
use ds_practice_court.FieldNode.Recovery.Crash.{recovery_of_crash}
use ds_practice_court.Services.Steady.{steady, steady_lawful, steady-IsUp}
use ds_practice_court.FieldNode.FieldBookingRepository.{blocks, new_booking}
use ds_practice_court.FieldNode.TwoPhase.{create_booking_2pc}
use ds_practice_court.FieldNode.TwoPhase.Unlock.{lock_of}
use ds_practice_court.FieldNode.TwoPhase.Spec.{booked, undone, verdict, Keeps}
use ds_practice_court.FieldNode.TwoPhase.Refinement.{create_booking_2pc_refines}
use ds_practice_court.Tests.Worlds.{quiet_world, request}
open steady_lawful use {tables, broker}

-- Both utilities can be booked; the heating is out of order.
can_be_booked : verdict (request (4 ∷ 5 ∷ [])) quiet_world.tables none ≡ booked
unfolding blocks
can_be_booked = refl

is_undone : verdict (request (4 ∷ 3 ∷ [])) quiet_world.tables none ≡ undone
unfolding blocks
is_undone = refl

create_booking_2pc_refines_example :
    Keeps steady steady_lawful
      (request (4 ∷ 3 ∷ []))
      (verdict
        (request (4 ∷ 3 ∷ []))
        (tables quiet_world)
        ((broker quiet_world).stored (lock_of steady steady_lawful (request (4 ∷ 3 ∷ [])))))
      quiet_world
      (create_booking_2pc steady (request (4 ∷ 3 ∷ [])) quiet_world)
create_booking_2pc_refines_example =
    create_booking_2pc_refines steady steady_lawful steady-IsUp (request (4 ∷ 3 ∷ [])) quiet_world

-- The PENDING booking of a coordinator that is about to ask the participant.
abbrev pub begun_world : Memory
begun_world = record quiet_world {
  tables = put_field_bookings (new_booking 1 (codes "anna") 100 160 9 0 ∷ []) quiet_world.tables;
}

both_prepared : (prepare_all steady 9 (4 ∷ 5 ∷ []) begun_world).0 ≡ ok (true, 1 ∷ 2 ∷ [])
unfolding prepare_all ask internal_prepare UtilityRepository.get_by_id
    UtilityBookingRepository.create memory_table set_txn_state next_id
both_prepared = refl

recovery_of_crash_example :
    let left = (prepare_all steady 9 (4 ∷ 5 ∷ []) begun_world).1 in
    let r = recover_value steady (txn_key 9) ((broker left).stored (txn_key 9)) left in
    (r.0 ≡ ok true)
    × Recovered steady steady_lawful 9 (1 ∷ 2 ∷ []) left r.1
    × Booked 9 confirmed (tables r.1).utility_bookings (4 ∷ 5 ∷ []) (1 ∷ 2 ∷ [])
unfolding steady_lawful in_memory_lawful
recovery_of_crash_example =
    recovery_of_crash steady steady_lawful steady-IsUp 9 (4 ∷ 5 ∷ []) begun_world
      (new_booking 1 (codes "anna") 100 160 9 0, refl) both_prepared
