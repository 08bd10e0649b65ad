-- ===== src/FieldNode/Socket.antt =====
-- field_node/app/main.py: `ws_availability`, the life of one web socket, with the task that forwards
-- what is published. Starlette's socket, redis-py's pubsub and asyncio's tasks are parameters.
pub mod Life
pub mod Forward
pub mod Asked
pub mod Publish
pub mod Exchange
use ds_practice_court.Base.{
  List, [], ◌∷◌, Action, Done, Result, ok, err, Exn, pure, raise, ◌>>=◌, ◌>>◌, try_finally, ◌++◌,
}
use ds_practice_court.Shared.Config.{Settings}
use ds_practice_court.Shared.RedisClient.{RedisManager, Connections, create_pubsub_client}
use ds_practice_court.Services.{Services, Message}
use ds_practice_court.FieldNode.Holds.{SocketText, on_message}

-- What the calls act on besides the services: the socket and the connection of the pubsub. `P` is
-- the type of a pubsub, `C` of a client.
pub record Link (V P C : Type 0) : Type 0 where
  pub accept : Action V Done
  pub pubsub : C → P
  pub subscribe : P → Action V Done
  pub unsubscribe : P → Action V Done
  pub aclose : C → Action V Done
  -- `websocket.send_text(message["data"])`
  pub send_text : Message → Action V Done

-- The task of `_listen`: not made yet, at work, ended by itself, or cancelled.
pub data Listener : Type 0 where
  absent running ended cancelled : Listener

-- What `pubsub.listen()` yields: a published message, another item such as the confirmation of the
-- subscription, or an exception.
pub data Notice : Type 0 where
  message : Message → Notice
  confirmation broken : Notice

-- A step while the socket is open: a text of the browser, or an item that the task hears.
pub data SocketTurn : Type 0 where
  received : SocketText → SocketTurn
  heard : Notice → SocketTurn

-- What ends the endless loop: WebSocketDisconnect, or another exception.
pub data Stop : Type 0 where
  disconnected : Stop
  failed : Exn → Stop

-- `except WebSocketDisconnect`
abbrev pub except_disconnect : {W : Type 0} → Stop → Action W Done
except_disconnect disconnected = pure tt
except_disconnect (failed e) = raise e

module _ (S : Services) {V P C : Type 0} (K : Link V P C) where
  -- The world of the services, the connections, and the task.
  abbrev pub Socket : Type 0
  Socket = S.World × V × Listener

  abbrev on_link : Action V Done → Action Socket Done
  on_link m (w, v, l) = let (r, v') = m v in (r, (w, v', l))

  abbrev set_listener : Listener → Action Socket Done
  set_listener l (w, v, _) = (ok tt, (w, v, l))

  -- `except Exception: pass` of `_listen`: the task ends, and nobody is told.
  after_send : Result Done × V → V × Listener
  after_send (ok _, v) = (v, running)
  after_send (err _, v) = (v, ended)

  -- One item of `_listen`, which is lost on a task that is not running.
  unfoldable pub hear : Notice → V → Listener → V × Listener
  unfolding after_send
  hear (message m) v running = after_send (K.send_text m v)
  hear confirmation v running = (v, running)
  hear broken v running = (v, ended)
  hear n v absent = (v, absent)
  hear n v ended = (v, ended)
  hear n v cancelled = (v, cancelled)

  abbrev with_link : Socket → V × Listener → Socket
  with_link s r = (s.0, r.0, r.1)

  abbrev with_world : Socket → Result Done × S.World → Result Done × Socket
  with_world s (r, w) = (r, (w, s.1, s.2))

  -- The loop goes on after a message, unless the message has raised.
  abbrev next_round : (Socket → Stop × Socket) → Result Done × Socket → Stop × Socket
  next_round rest (ok _, s) = rest s
  next_round rest (err e, s) = (failed e, s)

  -- `while True:`, with the task's steps between the messages; `stop` is how `receive_text` raises
  -- once the last message is read.
  unfoldable pub receive_loop : List SocketTurn → Stop → Socket → Stop × Socket
  unfolding hear
  receive_loop [] stop s = (stop, s)
  receive_loop (received t ∷ turns) stop s =
      next_round (receive_loop turns stop) (with_world s (on_message S t s.0))
  receive_loop (heard n ∷ turns) stop s = receive_loop turns stop (with_link s (hear n s.1 s.2))

  -- The loop in its `try`.
  unfoldable pub serve_socket : List SocketTurn → Stop → Action Socket Done
  unfolding receive_loop
  serve_socket turns stop s = let (end, s') = receive_loop turns stop s in except_disconnect end s'

  -- `task.cancel()`, which does nothing to a task that has ended by itself.
  cancel_listener : Action Socket Done
  cancel_listener (w, v, running) = (ok tt, (w, v, cancelled))
  cancel_listener (w, v, absent) = (ok tt, (w, v, absent))
  cancel_listener (w, v, ended) = (ok tt, (w, v, ended))
  cancel_listener (w, v, cancelled) = (ok tt, (w, v, cancelled))

  unfoldable pub leave_socket : C → Action Socket Done
  leave_socket client = do on_link (K.unsubscribe (K.pubsub client)); on_link (K.aclose client)

  -- `finally:`
  unfoldable pub close_socket : C → Action Socket Done
  unfolding cancel_listener leave_socket
  close_socket client = do cancel_listener; leave_socket client

module _ (S : Services) {V P C Q : Type 0} (K : Link V P C) (R : Connections S.World Q C) where
  unfoldable pub open_socket : C → Action (Socket S K) Done
  open_socket client = do on_link S K (K.subscribe (K.pubsub client)); set_listener S K running

  unfoldable pub ws_availability :
      Settings → RedisManager Q → List SocketTurn → Stop → Action (Socket S K) Done
  unfolding open_socket serve_socket close_socket create_pubsub_client
  ws_availability settings m turns stop = do
    on_link S K K.accept
    client ← λ s. (create_pubsub_client R settings m, s)
    open_socket client
    try_finally (serve_socket S K turns stop) (close_socket S K client)
