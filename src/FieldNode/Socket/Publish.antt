-- ===== src/FieldNode/Socket/Publish.antt =====
-- What a conversation on the web socket publishes while Redis answers.
use ds_practice_court.Base.{
  none, Exn, overflow_error, ◌&&◌, ◌||◌, ℕ, ◌≡◌, refl, sym, ◌∙◌, ap, List, [], ◌∷◌, ◌++◌, ok, err,
  Done, Result, arith, fault, inl, inr, Action, ◌>>=◌, value_error, some, Bool-cases, continue_with,
  try_except, true, false,
}
use mathlib.Core.List.{append-nil, append_assoc}
use ds_practice_court.Base.Text.{text_eq, codes, Text}
use ds_practice_court.Services.{
  Services, IsLawful, IsUp, Message, plain, slots_event, slots_held, slots_released,
}
use ds_practice_court.FieldNode.Holds.{
  infinite, unlisted, read_unlisted, is_complete_but_slots, SocketText, FieldId, missing,
  not_a_number, number, Payload, not_json, not_object, payload, hold_key, hold_ttl_s, read_field_id,
  is_complete, asks_hold, asks_release, hold_each, release_each, hold_slots, release_slots, perform,
  read_payload, except_bad_payload, on_message,
}
use ds_practice_court.FieldNode.Socket.{
  failed, Link, SocketTurn, received, heard, Stop, Socket, receive_loop, next_round,
}
use ds_practice_court.FieldNode.Socket.Asked.{
  goes_on, asked_events, has_parts, is_complete-parts, complete_events, payload_events, read_events,
  read_stop,
}

module _ (S : Services) (L : IsLawful S) (U : IsUp S L) where
  open L use {broker}

  -- The call returns, and has published `ms`.
  abbrev pub Publishes : List Message → S.World → Result Done × S.World → Type 0
  Publishes ms w r = (r.0 ≡ ok tt) × ((broker r.1).sent ≡ (broker w).sent ++ ms)

  hold_each-Publishes :
      (n : ℕ) (d u : Text) (slots : List Text) (w : S.World)
      → Publishes [] w (hold_each S n d u slots w)
  unfolding hold_each
  hold_each-Publishes n d u [] w = (refl, sym (append-nil _))
  hold_each-Publishes n d u (slot ∷ slots) w =
      let key = hold_key n d slot in
      let v = (S.redis_set key (plain u) hold_ttl_s w).1 in
      let (returned, same) = hold_each-Publishes n d u slots v in
      let up = U.set-up key (plain u) hold_ttl_s w in
      (
        ground (arith, up, returned),
        ground (arith, up, same, L.set-sent key (plain u) hold_ttl_s w),
      )

  release_each-Publishes :
      (n : ℕ) (d : Text) (slots : List Text) (w : S.World)
      → Publishes [] w (release_each S n d slots w)
  unfolding release_each
  release_each-Publishes n d [] w = (refl, sym (append-nil _))
  release_each-Publishes n d (slot ∷ slots) w =
      let key = hold_key n d slot in
      let (returned, same) = release_each-Publishes n d slots (S.redis_delete key w).1 in
      let up = U.delete-up key w in
      (ground (arith, up, returned), ground (arith, up, same, L.delete-sent key w))

  then-Publishes :
      (m : Message) (loop : Action S.World Done) (w : S.World)
      → Publishes [] w (loop w)
      → Publishes (m ∷ []) w ((loop >>= λ _. S.redis_publish m) w)
  then-Publishes m loop w (returned, same) =
      let v = (loop w).1 in
      let up = U.publish-up m v in
      let sent : (broker v).sent ≡ (broker w).sent = same ∙ append-nil _ in
      (ground (arith, returned, up), ground (arith, returned, up, L.publish-ok m v, sent))

  hold_asked : (p : Payload) → asks_hold p ≡ text_eq p.action (codes "hold_slots")
  unfolding asks_hold
  hold_asked p = refl

  release_asked : (p : Payload) → asks_release p ≡ text_eq p.action (codes "release_slots")
  unfolding asks_release
  release_asked p = refl

  perform-Publishes :
      (n : ℕ) (p : Payload) (w : S.World) → Publishes (asked_events n p) w (perform S n p w)
  unfolding perform hold_slots release_slots
  perform-Publishes n p w = elim (Bool-cases (text_eq p.action (codes "hold_slots"))) [
    | inl hold ↦
        rw (perform, asked_events, hold_asked p, hold)
          (then-Publishes (slots_event slots_held n p.date p.slots p.user_id)
            (hold_each S n p.date p.user_id p.slots) w
            (hold_each-Publishes n p.date p.user_id p.slots w))
    | inr other ↦ elim (Bool-cases (text_eq p.action (codes "release_slots"))) [
      | inl let_go ↦
          rw (perform, asked_events, hold_asked p, other, release_asked p, let_go)
            (then-Publishes (slots_event slots_released n p.date p.slots p.user_id)
              (release_each S n p.date p.slots) w (release_each-Publishes n p.date p.slots w))
      | inr unknown ↦
          rw (perform, asked_events, hold_asked p, other, release_asked p, unknown)
            (refl, sym (append-nil _))
    ]
  ]

  -- A call that returns is not handled.
  kept-Publishes :
      (ms : List Message) (m : Action S.World Done) (w : S.World)
      → Publishes ms w (m w)
      → Publishes ms w (try_except m except_bad_payload w)
  kept-Publishes ms m w (returned, same) =
      (ground (arith, returned), ground (arith, returned, same))

  read_without :
      (p : Payload) (w : S.World) → p.field_id ≡ missing → read_payload S p w ≡ (ok tt, w)
  unfolding read_payload read_field_id
  read_without p w e = rw e

  read_not_a_number :
      (p : Payload) (w : S.World)
      → p.field_id ≡ not_a_number
      → read_payload S p w ≡ (err (fault value_error), w)
  unfolding read_payload read_field_id
  read_not_a_number p w e = rw e

  read_number :
      (i : FieldId) (w : S.World) (n : ℕ) → i ≡ number n → read_field_id i w ≡ (ok (some n), w)
  unfolding read_field_id
  read_number i w n e = rw e

  read_partial :
      (p : Payload) (w : S.World) (n : ℕ)
      → p.field_id ≡ number n
      → is_complete (some n) p ≡ false
      → read_payload S p w ≡ (ok tt, w)
  unfolding read_payload
  read_partial p w n e partial = rw (read_number p.field_id w n e, continue_with, partial)

  read_complete :
      (p : Payload) (w : S.World) (n : ℕ)
      → p.field_id ≡ number n
      → is_complete (some n) p ≡ true
      → read_payload S p w ≡ perform S n p w
  unfolding read_payload
  read_complete p w n e complete = rw (read_number p.field_id w n e, continue_with, complete)

  read-Publishes :
      (p : Payload) (w : S.World) (i : FieldId)
      → p.field_id ≡ i
      → goes_on i ≡ true
      → Publishes (payload_events i p) w (on_message S (payload p) w)
  unfolding on_message except_bad_payload
  read-Publishes p w infinite e goes = cc
  read-Publishes p w missing e goes = rw (read_without p w e) (refl, sym (append-nil _))
  read-Publishes p w not_a_number e goes = rw (read_not_a_number p w e) (refl, sym (append-nil _))
  read-Publishes p w (number n) e goes =
      let parts = is_complete-parts n p in
      elim (Bool-cases (has_parts n p.date p.user_id p.slots)) [
        | inr partial ↦
            rw (read_partial p w n e (parts ∙ partial), complete_events, partial)
              (refl, sym (append-nil _))
        | inl complete ↦
            rw (read_complete p w n e (parts ∙ complete), complete_events, complete)
              (kept-Publishes (asked_events n p) (perform S n p) w (perform-Publishes n p w))
      ]

  unlisted-Publishes :
      (p : Payload) (w : S.World) (i : FieldId)
      → p.field_id ≡ i
      → goes_on i ≡ true
      → Publishes [] w (on_message S (unlisted p) w)
  unfolding on_message read_unlisted except_bad_payload read_field_id
  unlisted-Publishes p w infinite e goes = cc
  unlisted-Publishes p w missing e goes =
      let read : read_field_id p.field_id w ≡ (ok none, w) = rw e in
      rw (read_unlisted, read, continue_with) (refl, sym (append-nil _))
  unlisted-Publishes p w not_a_number e goes =
      let read : read_field_id p.field_id w ≡ (err (fault value_error), w) = rw e in
      rw (read_unlisted, read, continue_with) (refl, sym (append-nil _))
  unlisted-Publishes p w (number n) e goes =
      let read = read_number p.field_id w n e in
      elim (Bool-cases (is_complete_but_slots n p && (asks_hold p || asks_release p))) [
        | inl asked ↦ rw (read_unlisted, read, continue_with, asked) (refl, sym (append-nil _))
        | inr idle ↦ rw (read_unlisted, read, continue_with, idle) (refl, sym (append-nil _))
      ]

  read_infinite :
      (i : FieldId) (w : S.World)
      → goes_on i ≡ false
      → read_field_id i w ≡ (err (fault overflow_error), w)
  unfolding read_field_id
  read_infinite infinite w ends = refl
  read_infinite missing w ends = cc
  read_infinite not_a_number w ends = cc
  read_infinite (number n) w ends = cc

  -- An infinite id: `int` raises what no handler names.
  infinite_ends :
      (p : Payload) (w : S.World)
      → goes_on p.field_id ≡ false
      → (on_message S (payload p) w ≡ (err (fault overflow_error), w))
        × (on_message S (unlisted p) w ≡ (err (fault overflow_error), w))
  unfolding on_message read_payload read_unlisted except_bad_payload
  infinite_ends p w ends =
      let read = read_infinite p.field_id w ends in (ground (arith, read), ground (arith, read))

  no_events : (i : FieldId) (p : Payload) → goes_on i ≡ false → payload_events i p ≡ []
  no_events infinite p ends = refl
  no_events missing p ends = cc
  no_events not_a_number p ends = cc
  no_events (number n) p ends = cc

  -- The loop after a text that has been handled, and after one that has not.
  went_on :
      {V P C : Type 0} (K : Link V P C) (t : SocketText) (ms : List Message)
      (turns : List SocketTurn) (stop : Stop) (s : Socket S K)
      → Publishes ms s.0 (on_message S t s.0)
      → (let (x, v) = receive_loop S K turns stop ((on_message S t s.0).1, s.1, s.2) in
          (x ≡ read_stop turns stop)
          × ((broker v.0).sent ≡ (broker (on_message S t s.0).1).sent ++ read_events turns))
      → let (x, v) = receive_loop S K (received t ∷ turns) stop s in
        (x ≡ read_stop turns stop)
        × ((broker v.0).sent ≡ (broker s.0).sent ++ (ms ++ read_events turns))
  unfolding receive_loop
  went_on K t ms turns stop s (returned, same) (stops, sends) =
      rw (next_round, returned)
        (
          stops,
          sends
              ∙ ap (λ l. l ++ read_events turns) same
              ∙ append_assoc (broker s.0).sent ms (read_events turns),
        )

  ended_by :
      {V P C : Type 0} (K : Link V P C) (t : SocketText) (x : Exn) (turns : List SocketTurn)
      (stop : Stop) (s : Socket S K)
      → on_message S t s.0 ≡ (err x, s.0)
      → receive_loop S K (received t ∷ turns) stop s ≡ (failed x, s)
  unfolding receive_loop
  ended_by K t x turns stop s e = rw (next_round, e) refl

  payload_read :
      {V P C : Type 0} (K : Link V P C) (p : Payload) (turns : List SocketTurn) (stop : Stop)
      (s : Socket S K)
      → (let (x, v) = receive_loop S K turns stop ((on_message S (payload p) s.0).1, s.1, s.2) in
          (x ≡ read_stop turns stop)
          × ((broker v.0).sent
              ≡ (broker (on_message S (payload p) s.0).1).sent ++ read_events turns))
      → let (x, v) = receive_loop S K (received (payload p) ∷ turns) stop s in
        (x ≡ read_stop (received (payload p) ∷ turns) stop)
        × ((broker v.0).sent ≡ (broker s.0).sent ++ read_events (received (payload p) ∷ turns))
  payload_read K p turns stop s after = elim (Bool-cases (goes_on p.field_id)) [
    | inl goes ↦ rw (goes) (
        went_on K (payload p) (payload_events p.field_id p) turns stop s
          (read-Publishes p s.0 p.field_id refl goes) after)
    | inr ends ↦
        rw
          (
            ended_by K (payload p) (fault overflow_error) turns stop s (infinite_ends p s.0 ends).0,
            ends,
          )
          (refl, rw (no_events p.field_id p ends) (sym (append-nil _)))
  ]

  unlisted_read :
      {V P C : Type 0} (K : Link V P C) (p : Payload) (turns : List SocketTurn) (stop : Stop)
      (s : Socket S K)
      → (let (x, v) = receive_loop S K turns stop ((on_message S (unlisted p) s.0).1, s.1, s.2) in
          (x ≡ read_stop turns stop)
          × ((broker v.0).sent
              ≡ (broker (on_message S (unlisted p) s.0).1).sent ++ read_events turns))
      → let (x, v) = receive_loop S K (received (unlisted p) ∷ turns) stop s in
        (x ≡ read_stop (received (unlisted p) ∷ turns) stop)
        × ((broker v.0).sent ≡ (broker s.0).sent ++ read_events (received (unlisted p) ∷ turns))
  unlisted_read K p turns stop s after = elim (Bool-cases (goes_on p.field_id)) [
    | inl goes ↦ rw (goes) (
        went_on K (unlisted p) [] turns stop s (unlisted-Publishes p s.0 p.field_id refl goes)
          after)
    | inr ends ↦
        rw
          (
            ended_by K (unlisted p) (fault overflow_error) turns stop s
                (infinite_ends p s.0 ends).1,
            ends,
          )
          (refl, sym (append-nil _))
  ]

  -- While Redis answers, the loop reads every text up to the first one that is JSON but not an
  -- object, or that has an infinite id. Each complete text before it that asks for a hold or a
  -- release publishes its event, in their order, and no other text publishes anything. That text
  -- ends the loop with an AttributeError or an OverflowError; without one the browser ends it.
  pub receive_loop_publishes :
      {V P C : Type 0} (K : Link V P C) (turns : List SocketTurn) (stop : Stop) (s : Socket S K)
      → let (x, t) = receive_loop S K turns stop s in
        (x ≡ read_stop turns stop) × ((broker t.0).sent ≡ (broker s.0).sent ++ read_events turns)
  unfolding receive_loop on_message except_bad_payload
  receive_loop_publishes K [] stop s = (refl, sym (append-nil _))
  receive_loop_publishes K (heard n ∷ turns) stop s = receive_loop_publishes K turns stop _
  receive_loop_publishes K (received not_json ∷ turns) stop s =
      receive_loop_publishes K turns stop s
  receive_loop_publishes K (received not_object ∷ turns) stop s = (refl, sym (append-nil _))
  receive_loop_publishes K (received (payload p) ∷ turns) stop s =
      let after =
        receive_loop_publishes K turns stop ((on_message S (payload p) s.0).1, s.1, s.2) in
      payload_read K p turns stop s after
  receive_loop_publishes K (received (unlisted p) ∷ turns) stop s =
      let after =
        receive_loop_publishes K turns stop ((on_message S (unlisted p) s.0).1, s.1, s.2) in
      unlisted_read K p turns stop s after
