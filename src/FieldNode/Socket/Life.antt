-- ===== src/FieldNode/Socket/Life.antt =====
-- How the life of a web socket ends, and what is left of it.
use ds_practice_court.Base.{◌≡◌, ◌≢◌, ◌⊎◌, Bool, false, List, Done, Result, ok, err, Exn}
use ds_practice_court.Shared.Config.{Settings}
use ds_practice_court.Shared.RedisClient.{RedisManager, Connections, create_pubsub_client}
use ds_practice_court.Services.{Services}
use ds_practice_court.FieldNode.Socket.{
  Link, absent, running, SocketTurn, Stop, Socket, except_disconnect, receive_loop,
}

-- redis-py: a client that has been closed has no connection.
pub record IsClosing {V P C : Type 0} (K : Link V P C) : Type 0 where
  pub is_connected : C → V → Bool
  pub aclose-ok :
      (c : C) (v : V) → (K.aclose c v).0 ≡ ok tt → is_connected c (K.aclose c v).1 ≡ false

module _ (S : Services) {V P C Q : Type 0} (K : Link V P C) (R : Connections S.World Q C)
    (I : IsClosing K) where
  -- What the clean-up leaves of a loop that has ended with `stop` in `s`.
  abbrev pub Closes : C → Stop → Socket S K → Result Done × Socket S K → Type 0
  Closes c stop s r =
      let left = K.unsubscribe (K.pubsub c) s.1 in
      (r.1.2 ≢ running)
      × (r.1.0 ≡ s.0)
      × (((r.0 ≡ (except_disconnect stop s).0) × (I.is_connected c r.1.1 ≡ false))
          ⊎ ((y : Exn) × (left.0 ≡ err y) × (r.0 ≡ err y))
          ⊎ ((y : Exn) × ((K.aclose c left.1).0 ≡ err y) × (r.0 ≡ err y)))

  module _ (settings : Settings) (m : RedisManager Q) (turns : List SocketTurn) (stop : Stop) where
    -- The socket has not been opened: the loop has not run, and there is no task.
    abbrev pub NeverOpened : S.World → Result Done × Socket S K → Type 0
    NeverOpened w r = (y : Exn) × (r.0 ≡ err y) × (r.1.0 ≡ w) × (r.1.2 ≡ absent)

    -- The loop has run once, from a world as before and with the task at work.
    abbrev pub HasServed : S.World → Result Done × Socket S K → Type 0
    HasServed w r =
        (c : C) × (z : Socket S K) × (create_pubsub_client R settings m ≡ ok c)
        × (z.0 ≡ w)
        × (z.2 ≡ running)
        × Closes c (receive_loop S K turns stop z).0 (receive_loop S K turns stop z).1 r
