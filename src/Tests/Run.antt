-- ===== src/Tests/Run.antt =====
-- A run of the recovery job over what a coordinator has left behind.
use ds_practice_court.Base.{ℕ, ◌≡◌, refl, sym, ◌∙◌, inr, some, [], ◌∷◌, ok, All, map, HasOne}
use ds_practice_court.Base.Text.{codes, decimal, text_eq, strip_prefix}
use ds_practice_court.Shared.Schemas.{prepared}
use ds_practice_court.Services.Memory.{Memory, memory_table, next_id, in_memory_lawful, listed}
use ds_practice_court.Services.Steady.{steady, steady_lawful, steady-IsUp}
use ds_practice_court.UtilityNode.UtilityRepository
use ds_practice_court.UtilityNode.UtilityBookingRepository
use ds_practice_court.UtilityNode.UtilityBookingRepository.{new_utility_booking}
use ds_practice_court.UtilityNode.Endpoints.{internal_prepare}
use ds_practice_court.UtilityNode.Endpoints.Answers.{HaveOne}
use ds_practice_court.FieldNode.FieldBookingRepository.{new_booking}
use ds_practice_court.FieldNode.Coordinator.{
  prepare_all, ask, set_txn_state, txn_key, txn_key_prefix,
}
use ds_practice_court.FieldNode.Coordinator.Redis.{txn_value}
use ds_practice_court.FieldNode.Recovery.{run_recovery}
use ds_practice_court.FieldNode.Recovery.Along.{doc_inj}
use ds_practice_court.FieldNode.Recovery.Visit.{Known, Settles}
use ds_practice_court.FieldNode.Recovery.Run.{run_recovery-Settles}
use ds_practice_court.Tests.Refinement.{begun_world}
open steady_lawful use {tables, broker}

-- The coordinator has stopped after `prepare_all`.
abbrev left_world : Memory
left_world = (prepare_all steady 9 (4 ∷ 5 ∷ []) begun_world).1

left_value : (broker left_world).stored (txn_key 9) ≡ some (txn_value prepared (1 ∷ 2 ∷ []))
unfolding prepare_all ask internal_prepare UtilityRepository.get_by_id
    UtilityBookingRepository.create memory_table set_txn_state next_id steady_lawful
    in_memory_lawful decimal text_eq
left_value = refl

left_found : (steady.redis_scan 0 txn_key_prefix left_world).0 ≡ ok (0, map txn_key (9 ∷ []))
unfolding prepare_all ask internal_prepare UtilityRepository.get_by_id
    UtilityBookingRepository.create memory_table set_txn_state next_id decimal listed text_eq
    strip_prefix
left_found = refl

left_rows :
    HasOne (λ r. r.id) 9 (tables left_world).field_bookings
    × HaveOne steady steady_lawful steady-IsUp (1 ∷ 2 ∷ []) left_world
unfolding prepare_all ask internal_prepare UtilityRepository.get_by_id
    UtilityBookingRepository.create memory_table set_txn_state next_id steady_lawful
    in_memory_lawful
left_rows = (
  (new_booking 1 (codes "anna") 100 160 9 0, refl),
  ((new_utility_booking 4 9 1 7, refl), ((new_utility_booking 5 9 2 7, refl), tt)),
)

left-Known : Known steady steady_lawful steady-IsUp 9 left_world
left-Known =
    (inr (prepared, 1 ∷ 2 ∷ [], left_value), λ is p. rw (← doc_inj (sym left_value ∙ p)) left_rows)

run_recovery-Settles_example :
    ((m : ℕ) × ((run_recovery steady 1 left_world).0 ≡ ok (some m)))
    × All
        (λ fid.
          Settles steady steady_lawful steady-IsUp fid left_world
            (run_recovery steady 1 left_world).1)
        (9 ∷ [])
run_recovery-Settles_example =
    run_recovery-Settles steady steady_lawful steady-IsUp (9 ∷ []) 0 left_world left_found
      (left-Known, tt)
