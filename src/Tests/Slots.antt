-- ===== src/Tests/Slots.antt =====
-- A client that books a slot under its lock, step by step.
use ds_practice_court.Base.{◌≡◌, refl, true, none, some, [], ◌∷◌, ok}
use ds_practice_court.Base.Text.{codes, decimal, text_eq}
use ds_practice_court.Services.Memory.{Memory, memory, memory_lawful, memory_table, memory_set_nx}
use ds_practice_court.Locks.{acquire}
use ds_practice_court.FieldNode.FieldBookingRepository.{
  slot_lock_key, check_availability, create_pending, blocks, is_none,
}
use ds_practice_court.FieldNode.FieldBookingRepository.Overlap.{NoOverlap}
use ds_practice_court.FieldNode.FieldBookingRepository.Clients.{
  Reach, start, later, enters, clears, books, Reach-NoOverlap,
}
use ds_practice_court.Tests.Worlds.{quiet_world}
open memory_lawful use {tables}

abbrev anna_inside : Memory
anna_inside = (acquire memory (slot_lock_key 1 (decimal 100)) 30000 quiet_world).1

anna_enters :
    (acquire memory (slot_lock_key 1 (decimal 100)) 30000 quiet_world).0 ≡ ok (some (decimal 7))
unfolding acquire memory_set_nx decimal text_eq
anna_enters = refl

anna_clears : (check_availability memory 1 100 160 anna_inside).0 ≡ ok true
unfolding acquire check_availability memory_table memory_set_nx blocks is_none
anna_clears = refl

abbrev anna_cleared : Memory
anna_cleared = (check_availability memory 1 100 160 anna_inside).1

anna_books : Reach memory memory_lawful 1 100 quiet_world (
  (create_pending memory 1 (codes "anna") 100 160 anna_cleared).1,
  record { token = decimal 7; cleared = none } ∷ [],
)
anna_books =
    later
      (later (later start (enters 30000 quiet_world [] (decimal 7) anna_enters))
        (clears anna_inside [] (record { token = decimal 7; cleared = none }) [] 160 anna_clears))
      (books anna_cleared [] (record { token = decimal 7; cleared = some 160 }) [] 160
        (codes "anna") refl)

Reach-NoOverlap_example :
    NoOverlap
      (tables (create_pending memory 1 (codes "anna") 100 160 anna_cleared).1).field_bookings
unfolding memory_lawful
Reach-NoOverlap_example = Reach-NoOverlap memory memory_lawful 1 100 tt anna_books
