-- ===== src/FieldNode/Socket/Exchange.antt =====
-- The two directions of an open web socket together.
use ds_practice_court.Base.{◌≡◌, ◌∙◌, List, [], ◌++◌}
use ds_practice_court.Services.{Services, IsLawful, IsUp, Message}
use ds_practice_court.FieldNode.Socket.{
  Link, Listener, running, SocketTurn, Stop, disconnected, receive_loop,
}
use ds_practice_court.FieldNode.Socket.Forward.{IsSending, heard_messages, receive_loop-Forwards}
use ds_practice_court.FieldNode.Socket.Asked.{read_events, read_stop}
use ds_practice_court.FieldNode.Socket.Publish.{receive_loop_publishes}

-- While Redis answers, the loop reads every text up to the first one that is JSON but not an object,
-- or whose id is infinite; that text ends it with an AttributeError or an OverflowError, and without
-- one it ends as the browser ends it. Each complete text before that and that asks for a hold or a
-- release publishes its event, in their order, and no other text publishes anything. Of the messages
-- that come meanwhile the browser is sent a first part, in their order and each once; it is all of
-- them if the task of the forwarding still runs at the end and the browser has disconnected.
pub receive_loop_exchanges :
    (S : Services) (L : IsLawful S) (U : IsUp S L) {V P C : Type 0} (K : Link V P C)
    (I : IsSending K) (turns : List SocketTurn) (stop : Stop) (w : S.World) (v : V) (l : Listener)
    → let r = receive_loop S K turns stop (w, v, l) in
      (r.0 ≡ read_stop turns stop)
      × ((L.broker r.1.0).sent ≡ (L.broker w).sent ++ read_events turns)
      × ((sent : List Message) × (rest : List Message) × (heard_messages turns ≡ sent ++ rest)
          × (I.delivered r.1.1 ≡ I.delivered v ++ sent)
          × (r.1.2 ≡ running → read_stop turns stop ≡ disconnected → rest ≡ []))
receive_loop_exchanges S L U K I turns stop w v l =
    let (stops, publishes) = receive_loop_publishes S L U K turns stop (w, v, l) in
    let (sent, rest, parts, shown, all) = receive_loop-Forwards S K I turns stop w v l in
    (stops, publishes, (sent, rest, parts, shown, λ runs gone. all runs (stops ∙ gone)))
