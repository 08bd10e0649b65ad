-- ===== src/Tests/Recovery.antt =====
-- The recovery job and the lock of a slot on concrete inputs.
use ds_practice_court.FieldNode.FieldBookingRepository
use ds_practice_court.FieldNode.FieldBookingRepository.{with_status, new_booking}
use ds_practice_court.Base.{
  map, ◌≡◌, ◌≢◌, refl, ◌⊎◌, Option, none, some, [], ◌∷◌, ok, err, fault, redis_error,
}
use ds_practice_court.Base.Text.{codes}
use ds_practice_court.Shared.Schemas.{confirmed, cancelled, failed}
use ds_practice_court.Shared.Models.{FieldBooking}
use ds_practice_court.Services.{put_field_bookings, plain}
use ds_practice_court.Services.Memory.{Memory, memory_table, memory, memory_lawful, request_lost}
use ds_practice_court.FieldNode.Coordinator.{commit_all, rollback_all, set_txn_state}
use ds_practice_court.FieldNode.Recovery.{commit_again, give_up, recover_one}
use ds_practice_court.FieldNode.Recovery.Outcome.{Attempted, recover_one_outcome}
use ds_practice_court.FieldNode.TwoPhase.{create_booking_2pc}
use ds_practice_court.FieldNode.TwoPhase.Unlock.{
  lock_of, create_booking_2pc_unlocks, create_booking_2pc_excluded,
}
use ds_practice_court.Tests.Worlds.{quiet_world, request, book}
use ds_practice_court.Tests.Parts.{prepared_world, locked_world}
open memory_lawful use {tables, broker}

-- The participant is out of reach, so the recovery gives up.
abbrev unreachable_world : Memory
unreachable_world = record prepared_world {
  network = request_lost ∷ request_lost ∷ [];
  tables = put_field_bookings (new_booking 1 (codes "anna") 100 160 9 0 ∷ []) prepared_world.tables;
}

recover_one_outcome_example :
    ((recover_one memory 9 (1 ∷ 2 ∷ []) unreachable_world).0 ≡ ok tt)
    × Attempted memory memory_lawful 9
        (1 ∷ 2 ∷ [])
        unreachable_world
        (recover_one memory 9 (1 ∷ 2 ∷ []) unreachable_world).1
recover_one_outcome_example =
    recover_one_outcome memory memory_lawful 9 (1 ∷ 2 ∷ []) unreachable_world

given_up :
    map
      (λ b. b.status)
      (recover_one memory 9 (1 ∷ 2 ∷ []) unreachable_world).1.tables.field_bookings
    ≡ failed ∷ []
unfolding recover_one commit_again give_up commit_all rollback_all set_txn_state
    FieldBookingRepository.get_by_id FieldBookingRepository.update_status memory_table
given_up = refl

no_redis_error : (create_booking_2pc memory (request []) quiet_world).0 ≢ err (fault redis_error)
unfolding book
no_redis_error e = cc

create_booking_2pc_unlocks_example :
    (broker (create_booking_2pc memory (request []) quiet_world).1).stored
      (lock_of memory memory_lawful (request []))
    ≡ none
unfolding memory_lawful
create_booking_2pc_unlocks_example =
    create_booking_2pc_unlocks memory memory_lawful (request []) quiet_world refl no_redis_error

create_booking_2pc_excluded_example :
    ((o : Option FieldBooking) → (create_booking_2pc memory (request []) locked_world).0 ≢ ok o)
    × (tables (create_booking_2pc memory (request []) locked_world).1 ≡ tables locked_world)
    × (((create_booking_2pc memory (request []) locked_world).0 ≡ err (fault redis_error))
        ⊎ ((broker (create_booking_2pc memory (request []) locked_world).1).stored
              (lock_of memory memory_lawful (request []))
            ≡ some (plain (codes "x"))))
unfolding memory_lawful
create_booking_2pc_excluded_example =
    create_booking_2pc_excluded memory memory_lawful (request []) locked_world refl

abbrev cancelled_one : FieldBooking
cancelled_one = with_status cancelled (new_booking 1 (codes "anna") 100 160 1 0)

abbrev later_one : FieldBooking
later_one = with_status confirmed (new_booking 1 (codes "bert") 100 160 2 0)

-- A booking that was cancelled while its transaction stood PREPARED, and another one of its slot.
abbrev rebooked_world : Memory
rebooked_world = record quiet_world {
  tables = put_field_bookings (cancelled_one ∷ later_one ∷ []) quiet_world.tables;
}

-- The recovery confirms the cancelled booking: the slot is booked twice.
revived :
    map (λ b. b.status) (recover_one memory 1 [] rebooked_world).1.tables.field_bookings
    ≡ confirmed ∷ confirmed ∷ []
unfolding recover_one commit_again commit_all set_txn_state FieldBookingRepository.get_by_id
    FieldBookingRepository.update_status memory_table
revived = refl
