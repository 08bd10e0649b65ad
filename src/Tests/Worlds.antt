-- ===== src/Tests/Worlds.antt =====
-- Worlds in memory for the tests: one open and one closed field, two utilities of which one is active.
use ds_practice_court.Base.{ℕ, Action, Option, true, false, none, List, [], ◌∷◌}
use ds_practice_court.Base.Text.{codes, decimal, text_eq}
use ds_practice_court.Shared.Schemas.{FieldBookingRequest}
use ds_practice_court.Shared.Models.{Field, FieldBooking, Utility}
use ds_practice_court.Services.Memory.{
  Memory, Delivery, memory, memory_table, memory_set_nx, next_id,
}
use ds_practice_court.Locks.{acquire, release, holds_token}
use ds_practice_court.Events.{publish_booking_event}
use ds_practice_court.FieldNode.FieldRepository
use ds_practice_court.FieldNode.FieldBookingRepository
use ds_practice_court.FieldNode.FieldBookingRepository.{blocks}
use ds_practice_court.FieldNode.Coordinator.{
  prepare_all, commit_all, rollback_all, set_txn_state, ask,
}
use ds_practice_court.FieldNode.Bookings.{require_active_field}
use ds_practice_court.FieldNode.TwoPhase.{create_booking_2pc}
use ds_practice_court.UtilityNode.UtilityRepository
use ds_practice_court.UtilityNode.UtilityBookingRepository
use ds_practice_court.UtilityNode.Endpoints.{internal_prepare, internal_commit, internal_rollback}

abbrev pub court : Field
court = record {
  id = 1;
  name = codes "Court B";
  location = codes "Zone T";
  sport_type = codes "tennis";
  price_per_hour = 1500;
  is_active = true;
  created_at = 0;
}

abbrev pub closed_court : Field
closed_court = record court { id = 2; is_active = false }

abbrev pub lights : Utility
lights = record {
  id = 4;
  name = codes "Nocturnal Lighting";
  utility_type = codes "lighting";
  price_per_hour = 700;
  is_hourly = true;
  is_active = true;
}

abbrev pub broken_heating : Utility
broken_heating = record lights { id = 3; is_active = false }

abbrev pub rackets : Utility
rackets = record lights { id = 5 }

-- A world with no bookings, and what becomes of the next POSTs.
abbrev pub with_network : List Delivery → Memory
with_network network = record {
  tables = record {
    fields = court ∷ closed_court ∷ [];
    field_bookings = [];
    utilities = broken_heating ∷ lights ∷ rackets ∷ [];
    utility_bookings = [];
  };
  broker = record { stored = λ k. none; sent = [] };
  in_transaction = false;
  network = network;
  clock = 7;
}

abbrev pub quiet_world : Memory
quiet_world = with_network []

abbrev pub request : List ℕ → FieldBookingRequest
request utility_ids = record {
  field_id = 1;
  user_id = codes "anna";
  start_time = 100;
  end_time = 160;
  utility_ids = utility_ids;
}

-- The endpoint of the two-phase commit over these services, with all that a run of it computes.
unfoldable pub book : FieldBookingRequest → Action Memory (Option FieldBooking)
unfolding memory_table memory_set_nx text_eq next_id decimal create_booking_2pc
    FieldRepository.get_by_id acquire release FieldBookingRepository.get_by_id
    FieldBookingRepository.check_availability FieldBookingRepository.create_pending
    FieldBookingRepository.update_status blocks prepare_all commit_all rollback_all set_txn_state
    ask internal_prepare internal_commit internal_rollback UtilityRepository.get_by_id
    UtilityBookingRepository.create UtilityBookingRepository.update_status publish_booking_event
    require_active_field holds_token
book = create_booking_2pc memory
