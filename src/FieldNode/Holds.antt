-- ===== src/FieldNode/Holds.antt =====
-- field_node/app/main.py: the holds that a client's page puts on slots, and the messages of the web
-- socket that ask for them.
pub mod Slots
pub mod Listing
use ds_practice_court.Base.{
  ℕ, zero, suc, ◌==◌, ◌&&◌, ◌∷◌, ◌++◌, [], List, Bool, true, false, Option, none, some, Action,
  Done, Exn, fault, value_error, type_error, overflow_error, ◌||◌, attribute_error, index_error,
  http_exception, httpx_error, holds_error, pure, raise, ◌>>=◌, ◌>>◌, try_except, if◌then◌else◌,
  not, Fault,
}
use ds_practice_court.Base.Text.{Text, codes, decimal, text_eq}
use ds_practice_court.Services.{
  Services, Value, plain, document, slots_event, slots_held, slots_released,
}

-- `payload.get("field_id")`, as `int` sees it; JSON has numbers that are read as infinite.
pub data FieldId : Type 0 where
  missing not_a_number infinite : FieldId
  number : ℕ → FieldId

-- The keys of a message; a text that is missing is empty, and so is a list.
pub record Payload : Type 0 where
  pub action : Text
  pub field_id : FieldId
  pub date : Text
  pub user_id : Text
  pub slots : List Text

-- What `json.loads` makes of a message: it raises, or finds an object, or any other value. In an
-- `unlisted` object the slots are a value that is true and no loop can run over, such as the
-- number 5; its `Payload` gives the other keys.
pub data SocketText : Type 0 where
  not_json not_object : SocketText
  payload unlisted : Payload → SocketText

-- `hold:{field_id}:{date}:{slot}`, and what stands before the slot
abbrev pub hold_prefix : ℕ → Text → Text
hold_prefix field_id date = codes "hold:" ++ (decimal field_id ++ b':' ∷ (date ++ b':' ∷ []))

abbrev pub hold_key : ℕ → Text → Text → Text
hold_key field_id date slot = hold_prefix field_id date ++ slot

-- `hold:{field_id}:{date}:*`
abbrev pub hold_pattern : ℕ → Text → Text
hold_pattern field_id date = hold_prefix field_id date ++ b'*' ∷ []

abbrev pub hold_ttl_s : ℕ
hold_ttl_s = 60

unfoldable pub is_empty : {A : Type 0} → List A → Bool
is_empty [] = true
is_empty (_ ∷ _) = false

-- `int(...)` unless the key is missing
unfoldable pub read_field_id : {W : Type 0} → FieldId → Action W (Option ℕ)
read_field_id missing = pure none
read_field_id not_a_number = raise (fault value_error)
read_field_id infinite = raise (fault overflow_error)
read_field_id (number n) = pure (some n)

-- `all([field_id, date, user_id])` and `slots`: 0 and the empty text are false too.
unfoldable pub is_complete : Option ℕ → Payload → Bool
unfolding is_empty
is_complete none p = false
is_complete (some n) p =
    not (n == 0) && not (is_empty p.date) && not (is_empty p.user_id) && not (is_empty p.slots)

-- The same where the slots are no list.
unfoldable pub is_complete_but_slots : ℕ → Payload → Bool
unfolding is_empty
is_complete_but_slots n p = not (n == 0) && not (is_empty p.date) && not (is_empty p.user_id)

-- `action == "hold_slots"`, `action == "release_slots"`
unfoldable pub asks_hold : Payload → Bool
asks_hold p = text_eq p.action (codes "hold_slots")

unfoldable pub asks_release : Payload → Bool
asks_release p = text_eq p.action (codes "release_slots")

-- `except (json.JSONDecodeError, ValueError, TypeError)`
unfoldable pub except_bad_payload : {W : Type 0} → Exn → Action W Done
except_bad_payload (fault value_error) = pure tt
except_bad_payload (fault type_error) = pure tt
except_bad_payload (fault f) = raise (fault f)
except_bad_payload (http_exception n d) = raise (http_exception n d)
except_bad_payload (httpx_error e) = raise (httpx_error e)

-- `key_str.split(":", n)[n]`: what follows the n-th colon
unfoldable pub after_colons : ℕ → Text → Option Text
after_colons zero t = some t
after_colons (suc n) [] = none
after_colons (suc n) (c ∷ t) =
    let next = after_colons n t in
    let later = after_colons (suc n) t in if c == b':' then next else later

-- `holds[slot_time] = user_id`
unfoldable pub put_hold : Text → Value → List (Text × Value) → List (Text × Value)
put_hold slot v [] = (slot, v) ∷ []
put_hold slot v ((s, u) ∷ rest) =
    let later = put_hold slot v rest in if text_eq s slot then (s, v) ∷ rest else (s, u) ∷ later

-- `if user_id:`
unfoldable pub holder : Option Value → Option Value
unfolding is_empty
holder none = none
holder (some (plain t)) = if is_empty t then none else some (plain t)
holder (some (document d)) = some (document d)

module _ (S : Services) where
  -- `for slot in slots:` of the two actions
  unfoldable pub hold_each : ℕ → Text → Text → List Text → Action S.World Done
  hold_each field_id date user_id [] = pure tt
  hold_each field_id date user_id (slot ∷ slots) = do
    S.redis_set (hold_key field_id date slot) (plain user_id) hold_ttl_s
    hold_each field_id date user_id slots

  unfoldable pub release_each : ℕ → Text → List Text → Action S.World Done
  release_each field_id date [] = pure tt
  release_each field_id date (slot ∷ slots) = do
    S.redis_delete (hold_key field_id date slot)
    release_each field_id date slots

  unfoldable pub hold_slots : ℕ → Payload → Action S.World Done
  unfolding hold_each
  hold_slots field_id p = do
    hold_each field_id p.date p.user_id p.slots
    S.redis_publish (slots_event slots_held field_id p.date p.slots p.user_id)

  unfoldable pub release_slots : ℕ → Payload → Action S.World Done
  unfolding release_each
  release_slots field_id p = do
    release_each field_id p.date p.slots
    S.redis_publish (slots_event slots_released field_id p.date p.slots p.user_id)

  -- `if action == …`, for a complete message
  unfoldable pub perform : ℕ → Payload → Action S.World Done
  unfolding hold_slots release_slots
  perform field_id p = elim (asks_hold p) [
    | true ↦ hold_slots field_id p
    | false ↦ elim (asks_release p) [ true ↦ release_slots field_id p | false ↦ pure tt ]
  ]

  unfoldable pub read_payload : Payload → Action S.World Done
  unfolding perform is_complete
  read_payload p = do
    found ← read_field_id p.field_id
    elim found [
      | none ↦ pure tt
      | some field_id ↦ elim (is_complete (some field_id) p) [
        | true ↦ perform field_id p
        | false ↦ pure tt
      ]
    ]

  -- Either action begins with a loop over the slots.
  unfoldable pub read_unlisted : Payload → Action S.World Done
  unfolding is_complete_but_slots
  read_unlisted p = do
    found ← read_field_id p.field_id
    elim found [
      | none ↦ pure tt
      | some n ↦ elim (is_complete_but_slots n p && (asks_hold p || asks_release p)) [
        | true ↦ raise (fault type_error)
        | false ↦ pure tt
      ]
    ]

  -- One round of the loop of `ws_availability`.
  unfoldable pub on_message : SocketText → Action S.World Done
  unfolding read_payload read_unlisted
  on_message not_json = try_except (raise (fault value_error)) except_bad_payload
  on_message not_object = try_except (raise (fault attribute_error)) except_bad_payload
  on_message (payload p) = try_except (read_payload p) except_bad_payload
  on_message (unlisted p) = try_except (read_unlisted p) except_bad_payload

  -- `for key in keys:` of `get_active_holds`, with the holds so far
  unfoldable pub collect_holds :
      List Text → List (Text × Value) → Action S.World (List (Text × Value))
  collect_holds [] holds = pure holds
  collect_holds (key ∷ keys) holds = elim (after_colons 3 key) [
    | none ↦ raise (fault index_error)
    | some slot_time ↦ (do
      raw ← S.redis_get key
      elim (holder raw) [
        | none ↦ collect_holds keys holds
        | some v ↦ collect_holds keys (put_hold slot_time v holds)
      ])
  ]

  unfoldable pub get_active_holds : ℕ → Text → Action S.World (List (Text × Value))
  unfolding collect_holds
  get_active_holds field_id date =
      try_except (do keys ← S.redis_keys (hold_pattern field_id date); collect_holds keys [])
        (λ _. raise (http_exception 500 holds_error))
