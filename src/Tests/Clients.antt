-- ===== src/Tests/Clients.antt =====
-- Clients of one lock whose key runs out, and two clients whose slots overlap under two locks.
use ds_practice_court.Base.{
  ◌≡◌, ◌≤◌, refl, Bool, true, false, none, some, [], ◌∷◌, length, ok, Action, pure, ◌>>=◌,
}
use ds_practice_court.Base.Text.{Text, codes, decimal, text_eq}
use ds_practice_court.Services.Memory.{
  Memory, memory, memory_lawful, memory_table, memory_set_nx, next_id,
}
use ds_practice_court.Locks.{acquire}
use ds_practice_court.Locks.Clients.{Reach, start, later, lapses, enters, Reach-bounds}
use ds_practice_court.FieldNode.FieldBookingRepository.{
  slot_lock_key, check_availability, create_pending, blocks, is_none,
}
use ds_practice_court.FieldNode.FieldBookingRepository.Overlap.{clash}
use ds_practice_court.Tests.Worlds.{quiet_world}

abbrev slot : Text
slot = codes "field:1:100"

abbrev seven_inside : Memory
seven_inside = (acquire memory slot 5000 quiet_world).1

-- The key of the lock is gone.
abbrev expired : Memory
expired = record seven_inside { broker = record { stored = λ k. none; sent = [] } }

seven_enters : (acquire memory slot 5000 quiet_world).0 ≡ ok (some (decimal 7))
unfolding acquire memory_set_nx decimal text_eq
seven_enters = refl

eight_enters : (acquire memory slot 5000 expired).0 ≡ ok (some (decimal 8))
unfolding acquire memory_set_nx decimal text_eq
eight_enters = refl

-- The second client is in, while the first one still works.
two_inside :
    Reach memory memory_lawful slot quiet_world 1
      ((acquire memory slot 5000 expired).1, decimal 8 ∷ decimal 7 ∷ [])
unfolding memory_lawful
two_inside =
    later (lapses expired (later start (enters 5000 quiet_world [] (decimal 7) seven_enters)) refl)
      (enters 5000 expired (decimal 7 ∷ []) (decimal 8) eight_enters)

Reach-bounds_example : length (decimal 8 ∷ decimal 7 ∷ []) ≤ 2
Reach-bounds_example = Reach-bounds memory memory_lawful slot two_inside

-- Two clients ask for overlapping slots that start at different times: each gets its lock, and each
-- finds its slot free before the other has booked. (In MySQL the row locks of `with_for_update()`
-- may make one of them fail or wait, which these worlds do not have.)
abbrev race : Action Memory (Bool × Bool)
race = do
  first ← acquire memory (slot_lock_key 1 (decimal 100)) 30000
  second ← acquire memory (slot_lock_key 1 (decimal 130)) 30000
  first_free ← check_availability memory 1 100 160
  second_free ← check_availability memory 1 130 190
  one ← create_pending memory 1 (codes "anna") 100 160
  two ← create_pending memory 1 (codes "bert") 130 190
  pure (is_none second, clash one two)

-- The slot from 130 to 160 is booked twice.
booked_twice : (race quiet_world).0 ≡ ok (false, true)
unfolding acquire check_availability create_pending memory_table memory_set_nx next_id decimal
    text_eq blocks is_none
booked_twice = refl
