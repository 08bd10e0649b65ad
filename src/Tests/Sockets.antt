-- ===== src/Tests/Sockets.antt =====
-- One web socket whose browser takes two messages and is gone then.
use ds_practice_court.Base.{
  ℕ, zero, suc, ◌≡◌, refl, Bool, true, false, some, List, [], ◌∷◌, ◌++◌, Action, Done, ok, err,
  fault, Exn, arith, runtime_error, attribute_error,
}
use ds_practice_court.Base.Text.{codes, text_eq}
use ds_practice_court.Shared.RedisClient.{Connections, RedisManager}
use ds_practice_court.Services.{Message, slots_event, slots_held}
use ds_practice_court.Services.Memory.{Memory}
use ds_practice_court.Services.Steady.{steady, steady_lawful, steady-IsUp}
use ds_practice_court.FieldNode.Holds.{
  not_json, not_object, payload, read_field_id, asks_hold, asks_release, except_bad_payload,
  on_message,
}
use ds_practice_court.FieldNode.Socket.{
  Link, absent, running, ended, message, confirmation, SocketTurn, received, heard, Stop,
  disconnected, Socket, receive_loop, ws_availability,
}
use ds_practice_court.FieldNode.Socket.Life.{IsClosing}
use ds_practice_court.FieldNode.Socket.Forward.{IsSending, heard_messages}
use ds_practice_court.FieldNode.Socket.Exchange.{receive_loop_exchanges}
use ds_practice_court.FieldNode.Socket.Asked.{read_events, read_stop}
use ds_practice_court.Tests.Worlds.{quiet_world}
use ds_practice_court.Tests.Holds.{two_slots}
use ds_practice_court.Tests.Managers.{local}
open steady_lawful use {broker}

-- The connection of the pubsub, what the browser has been sent, and how many texts it still takes.
record Wire : Type 0 where
  connected : Bool
  shown : List Message
  room : ℕ

abbrev show_next : Message → ℕ → Action Wire Done
show_next m zero w = (err (fault runtime_error), w)
show_next m (suc n) w =
    (ok tt, record { connected = w.connected; shown = w.shown ++ m ∷ []; room = n })

abbrev wire : Link Wire ℕ ℕ
wire = record {
  accept = λ v. (ok tt, v);
  pubsub = λ c. c;
  subscribe = λ p v. (ok tt, record v { connected = true });
  unsubscribe = λ p v. (ok tt, v);
  aclose = λ c v. (ok tt, record v { connected = false });
  send_text = λ m v. show_next m v.room v;
}

abbrev clients : Connections Memory ℕ ℕ
clients = record {
  pool_from_url = λ t. 20;
  disconnect = λ p w. (ok tt, w);
  client_from_url = λ t. 0;
}

abbrev closing : IsClosing wire
closing = record { is_connected = λ c v. v.connected; aclose-ok = λ c v e. refl }

send_ok :
    (m : Message) (v : Wire) {d : Done}
    → (wire.send_text m v).0 ≡ ok d
    → (wire.send_text m v).1.shown ≡ v.shown ++ m ∷ []
send_ok m v h = ground (arith, h)

send_err :
    (m : Message) (v : Wire) {e : Exn}
    → (wire.send_text m v).0 ≡ err e
    → (wire.send_text m v).1.shown ≡ v.shown
send_err m v h = ground (arith, h)

abbrev sending : IsSending wire
sending = record { delivered = λ v. v.shown; send-ok = send_ok; send-err = send_err }

abbrev two_rooms : Wire
two_rooms = record { connected = false; shown = []; room = 2 }

abbrev shows : ℕ → Message
shows n = slots_event slots_held n (codes "2025-06-01") [] (codes "bob")

-- A hold and a release, with three messages of others meanwhile; then a text that is no object.
abbrev turns : List SocketTurn
turns =
    heard confirmation
    ∷ received (payload two_slots)
    ∷ heard (message (shows 1))
    ∷ received not_json
    ∷ heard (message (shows 2))
    ∷ heard (message (shows 3))
    ∷ received (payload (record two_slots { action = codes "release_slots" }))
    ∷ received not_object
    ∷ received (payload two_slots)
    ∷ []

abbrev pooled : RedisManager ℕ
pooled = record { pool = some 20 }

abbrev run : Stop → List SocketTurn → Action (Socket steady wire) Done
run stop ts = ws_availability steady wire clients local pooled ts stop

-- The third message of the others does not get through, and ends the task; the text that is no
-- object ends the connection, so the last hold is not read.
run_fails :
    let r = run disconnected turns (quiet_world, two_rooms, absent) in
    (r.0 ≡ err (fault attribute_error))
    × (r.1.1 ≡ record { connected = false; shown = shows 1 ∷ shows 2 ∷ []; room = 0 })
    × (r.1.2 ≡ ended)
unfolding ws_availability on_message read_field_id asks_hold asks_release text_eq except_bad_payload
run_fails = (refl, refl, refl)

receive_loop_exchanges_example :
    let r = receive_loop steady wire turns disconnected (quiet_world, two_rooms, running) in
    (r.0 ≡ read_stop turns disconnected)
    × ((broker r.1.0).sent ≡ (broker quiet_world).sent ++ read_events turns)
    × ((sent : List Message) × (rest : List Message) × (heard_messages turns ≡ sent ++ rest)
        × (r.1.1.shown ≡ sent)
        × (r.1.2 ≡ running → read_stop turns disconnected ≡ disconnected → rest ≡ []))
receive_loop_exchanges_example =
    receive_loop_exchanges steady steady_lawful steady-IsUp wire sending turns disconnected
      quiet_world two_rooms running
