-- ===== src/FieldNode/Socket/Asked.antt =====
-- What a conversation on the web socket asks to publish, and how it ends.
use ds_practice_court.Base.{
  overflow_error, suc, not, ◌==◌, ◌&&◌, ℕ, ◌≡◌, List, [], ◌∷◌, ◌++◌, arith, fault, attribute_error,
  some, Bool, true, false,
}
use ds_practice_court.Base.Text.{text_eq, codes, Text}
use ds_practice_court.Services.{Message, slots_event, slots_held, slots_released}
use ds_practice_court.FieldNode.Holds.{
  infinite, unlisted, is_empty, FieldId, missing, not_a_number, number, Payload, not_json,
  not_object, payload, is_complete,
}
use ds_practice_court.FieldNode.Socket.{SocketTurn, received, heard, Stop, failed}

-- The events that a complete payload asks for.
abbrev pub asked_events : ℕ → Payload → List Message
asked_events n p = elim (text_eq p.action (codes "hold_slots")) [
  | true ↦ slots_event slots_held n p.date p.slots p.user_id ∷ []
  | false ↦ elim (text_eq p.action (codes "release_slots")) [
    | true ↦ slots_event slots_released n p.date p.slots p.user_id ∷ []
    | false ↦ []
  ]
]

-- The id is not 0, and no other part is empty.
abbrev pub has_parts : ℕ → Text → Text → List Text → Bool
has_parts (suc n) (_ ∷ _) (_ ∷ _) (_ ∷ _) = true
has_parts _ _ _ _ = false

parts_there :
    (n : ℕ) (d u : Text) (slots : List Text)
    → (not (n == 0) && not (is_empty d) && not (is_empty u) && not (is_empty slots))
      ≡ has_parts n d u slots
unfolding is_empty
parts_there (suc n) (_ ∷ _) (_ ∷ _) (_ ∷ _) = ground arith
parts_there _ _ _ _ = ground arith

pub is_complete-parts :
    (n : ℕ) (p : Payload) → is_complete (some n) p ≡ has_parts n p.date p.user_id p.slots
unfolding is_complete
is_complete-parts n p = parts_there n p.date p.user_id p.slots

abbrev pub complete_events : ℕ → Payload → Bool → List Message
complete_events n p true = asked_events n p
complete_events n p false = []

abbrev pub payload_events : FieldId → Payload → List Message
payload_events missing p = []
payload_events not_a_number p = []
payload_events infinite p = []
payload_events (number n) p = complete_events n p (has_parts n p.date p.user_id p.slots)

-- An infinite id ends the conversation.
abbrev pub goes_on : FieldId → Bool
goes_on infinite = false
goes_on missing = true
goes_on not_a_number = true
goes_on (number n) = true

abbrev pub events_if : Bool → List Message → List Message
events_if true rest = rest
events_if false rest = []

abbrev pub stop_if : Bool → Stop → Stop
stop_if true rest = rest
stop_if false rest = failed (fault overflow_error)

-- The events of the texts that are read: none after the first one that is JSON but not an object, or
-- has an infinite id.
abbrev pub read_events : List SocketTurn → List Message
read_events [] = []
read_events (heard n ∷ turns) = read_events turns
read_events (received not_json ∷ turns) = read_events turns
read_events (received not_object ∷ turns) = []
read_events (received (payload p) ∷ turns) =
    payload_events p.field_id p ++ events_if (goes_on p.field_id) (read_events turns)
read_events (received (unlisted p) ∷ turns) = events_if (goes_on p.field_id) (read_events turns)

abbrev pub read_stop : List SocketTurn → Stop → Stop
read_stop [] stop = stop
read_stop (heard n ∷ turns) stop = read_stop turns stop
read_stop (received not_json ∷ turns) stop = read_stop turns stop
read_stop (received not_object ∷ turns) stop = failed (fault attribute_error)
read_stop (received (payload p) ∷ turns) stop = stop_if (goes_on p.field_id) (read_stop turns stop)
read_stop (received (unlisted p) ∷ turns) stop = stop_if (goes_on p.field_id) (read_stop turns stop)
