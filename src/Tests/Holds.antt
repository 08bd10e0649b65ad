-- ===== src/Tests/Holds.antt =====
-- The messages of the web socket on concrete inputs.
use ds_practice_court.Base.{◌≡◌, refl, none, some, [], ◌∷◌, ◌++◌, All, ok}
use ds_practice_court.Base.Text.{codes}
use ds_practice_court.Services.{plain, slots_event, slots_held}
use ds_practice_court.Services.Memory.{memory, memory_lawful}
use ds_practice_court.Locks.{build_key}
use ds_practice_court.FieldNode.Coordinator.{txn_key}
use ds_practice_court.FieldNode.Holds.{
  Payload, payload, number, hold_key, hold_slots, release_slots, hold_each, release_each,
  on_message,
}
use ds_practice_court.FieldNode.Holds.Slots.{hold_slots_ok, release_slots_ok, on_message-apart}
use ds_practice_court.Tests.Parts.{locked_world}
open memory_lawful use {tables, broker}

abbrev pub two_slots : Payload
two_slots = record {
  action = codes "hold_slots";
  field_id = number 1;
  date = codes "2025-06-01";
  user_id = codes "anna";
  slots = codes "10:00" ∷ codes "11:00" ∷ [];
}

-- `locked_world` holds a value at every key: the slots were another user's.
two_held : (hold_slots memory 1 two_slots locked_world).0 ≡ ok tt
unfolding hold_slots hold_each
two_held = refl

hold_slots_ok_example :
    let w' = (hold_slots memory 1 two_slots locked_world).1 in
    All
      (λ slot. (broker w').stored (hold_key 1 two_slots.date slot) ≡ some (plain two_slots.user_id))
      two_slots.slots
    × ((broker w').sent
        ≡ (broker locked_world).sent
          ++ slots_event slots_held 1 two_slots.date two_slots.slots two_slots.user_id ∷ [])
hold_slots_ok_example = hold_slots_ok memory memory_lawful 1 two_slots locked_world two_held

two_released : (release_slots memory 1 two_slots locked_world).0 ≡ ok tt
unfolding release_slots release_each
two_released = refl

release_slots_ok_example :
    All
      (λ slot.
        (broker (release_slots memory 1 two_slots locked_world).1).stored
          (hold_key 1 two_slots.date slot)
        ≡ none)
      two_slots.slots
release_slots_ok_example =
    release_slots_ok memory memory_lawful 1 two_slots locked_world two_released

on_message-apart_example :
    let w' = (on_message memory (payload two_slots) locked_world).1 in
    (tables w' ≡ tables locked_world)
    × ((broker w').stored (build_key (codes "field:1:100"))
        ≡ (broker locked_world).stored (build_key (codes "field:1:100")))
    × ((broker w').stored (txn_key 9) ≡ (broker locked_world).stored (txn_key 9))
on_message-apart_example =
    on_message-apart memory memory_lawful (payload two_slots) locked_world (codes "field:1:100") 9
