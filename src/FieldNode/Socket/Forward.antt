-- ===== src/FieldNode/Socket/Forward.antt =====
-- What a browser is sent of the messages that the task of its socket hears.
use ds_practice_court.Base.{
  ◌≡◌, refl, sym, ◌∙◌, ap, List, [], ◌∷◌, ◌++◌, ok, err, Exn, Done, arith, inl, inr, Result-cases,
  ◌≢◌,
}
use mathlib.Core.List.{append-nil, append_assoc}
use ds_practice_court.Services.{Services, Message}
use ds_practice_court.FieldNode.Holds.{on_message}
use ds_practice_court.FieldNode.Socket.{
  Link, Listener, absent, running, ended, cancelled, Notice, message, confirmation, broken,
  SocketTurn, received, heard, Stop, disconnected, Socket, hear, after_send, receive_loop,
  next_round,
}

-- Starlette: a text that has been sent reaches the browser behind the earlier ones, and one whose
-- `send_text` raised does not.
pub record IsSending {V P C : Type 0} (K : Link V P C) : Type 0 where
  pub delivered : V → List Message
  pub send-ok :
      (m : Message) (v : V) {d : Done}
      → (K.send_text m v).0 ≡ ok d
      → delivered (K.send_text m v).1 ≡ delivered v ++ m ∷ []
  pub send-err :
      (m : Message) (v : V) {e : Exn}
      → (K.send_text m v).0 ≡ err e
      → delivered (K.send_text m v).1 ≡ delivered v

-- The messages among the items that the task hears.
abbrev pub heard_message : Notice → List Message
heard_message (message m) = m ∷ []
heard_message confirmation = []
heard_message broken = []

abbrev pub heard_messages : List SocketTurn → List Message
heard_messages [] = []
heard_messages (received t ∷ turns) = heard_messages turns
heard_messages (heard n ∷ turns) = heard_message n ++ heard_messages turns

module _ (S : Services) {V P C : Type 0} (K : Link V P C) (I : IsSending K) where
  -- A task that is not running hears nothing, and does not run again.
  hear_idle : (n : Notice) (v : V) (l : Listener) → l ≢ running → hear S K n v l ≡ (v, l)
  unfolding hear
  hear_idle n v running idle = absurd (idle refl)
  hear_idle n v absent idle = ground arith
  hear_idle n v ended idle = ground arith
  hear_idle n v cancelled idle = ground arith

  hear-message :
      (m : Message) (v : V) {u : Done}
      → (K.send_text m v).0 ≡ ok u
      → hear S K (message m) v running ≡ ((K.send_text m v).1, running)
  unfolding hear after_send
  hear-message m v e = ground (arith, e)

  hear_failed :
      (m : Message) (v : V) {y : Exn}
      → (K.send_text m v).0 ≡ err y
      → hear S K (message m) v running ≡ ((K.send_text m v).1, ended)
  unfolding hear after_send
  hear_failed m v e = ground (arith, e)

  loop_idle :
      (turns : List SocketTurn) (stop : Stop) (w : S.World) (v : V) (l : Listener)
      → l ≢ running
      → let s' = (receive_loop S K turns stop (w, v, l)).1 in (s'.1 ≡ v) × (s'.2 ≡ l)
  unfolding receive_loop
  loop_idle [] stop w v l idle = (refl, refl)
  loop_idle (received t ∷ turns) stop w v l idle = elim (Result-cases (on_message S t w).0) [
    | inl (u, e) ↦ rw (next_round, e) (loop_idle turns stop (on_message S t w).1 v l idle)
    | inr (y, e) ↦ ground (arith, e)
  ]
  loop_idle (heard n ∷ turns) stop w v l idle =
      rw (receive_loop, hear_idle n v l idle) (loop_idle turns stop w v l idle)

  -- A first part of the messages is delivered, and all of them if the task still runs at the end and
  -- no message of the browser has ended the loop.
  abbrev pub Forwards : List Message → V → Stop × Socket S K → Type 0
  Forwards ms v (x, s') =
      (sent : List Message) × (rest : List Message) × (ms ≡ sent ++ rest)
      × (I.delivered s'.1 ≡ I.delivered v ++ sent)
      × (s'.2 ≡ running → x ≡ disconnected → rest ≡ [])

  -- Nothing more is delivered once the task is not running.
  Forwards-idle :
      (ms : List Message) (u : V) (turns : List SocketTurn) (stop : Stop) (w : S.World) (v : V)
      (l : Listener)
      → l ≢ running
      → I.delivered v ≡ I.delivered u
      → Forwards ms u (receive_loop S K turns stop (w, v, l))
  Forwards-idle ms u turns stop w v l idle unsent =
      let (same, still) = loop_idle turns stop w v l idle in
      (
        [],
        ms,
        refl,
        ap I.delivered same ∙ unsent ∙ sym (append-nil _),
        λ runs _. absurd (idle (sym still ∙ runs)),
      )

  -- One more message, which has been delivered.
  Forwards-more :
      (m : Message) (ms : List Message) (v v' : V) (end : Stop × Socket S K)
      → I.delivered v' ≡ I.delivered v ++ m ∷ []
      → Forwards ms v' end
      → Forwards (m ∷ ms) v end
  Forwards-more m ms v v' (x, s') one (sent, rest, parts, more, all) = (
    m ∷ sent,
    rest,
    ap (λ t. m ∷ t) parts,
    more ∙ ap (λ t. t ++ sent) one ∙ append_assoc (I.delivered v) (m ∷ []) sent,
    all,
  )

  -- While the socket is open the browser is sent the messages that its task hears, in their order
  -- and each at most once: of those that come, a first part. It is all of them if at the end the
  -- task still runs and the loop was ended by the browser.
  pub receive_loop-Forwards :
      (turns : List SocketTurn) (stop : Stop) (w : S.World) (v : V) (l : Listener)
      → Forwards (heard_messages turns) v (receive_loop S K turns stop (w, v, l))
  unfolding receive_loop hear
  receive_loop-Forwards turns stop w v absent =
      Forwards-idle _ v turns stop w v absent (λ e. cc) refl
  receive_loop-Forwards turns stop w v ended = Forwards-idle _ v turns stop w v ended (λ e. cc) refl
  receive_loop-Forwards turns stop w v cancelled =
      Forwards-idle _ v turns stop w v cancelled (λ e. cc) refl
  receive_loop-Forwards [] stop w v running = ([], [], refl, sym (append-nil _), λ _ _. refl)
  receive_loop-Forwards (received t ∷ turns) stop w v running =
      elim (Result-cases (on_message S t w).0) [
        | inl (u, e) ↦
            rw (next_round, e) (receive_loop-Forwards turns stop (on_message S t w).1 v running)
        | inr (y, e) ↦
            rw (next_round, e) ([], heard_messages turns, refl, sym (append-nil _), λ _ d. cc)
      ]
  receive_loop-Forwards (heard (message m) ∷ turns) stop w v running =
      let v' = (K.send_text m v).1 in
      elim (Result-cases (K.send_text m v).0) [
        | inl (u, e) ↦
            rw (receive_loop, hear-message m v e)
              (Forwards-more m (heard_messages turns) v v'
                (receive_loop S K turns stop (w, v', running)) (I.send-ok m v e)
                (receive_loop-Forwards turns stop w v' running))
        | inr (y, e) ↦
            rw (receive_loop, hear_failed m v e)
              (Forwards-idle _ v turns stop w v' ended (λ d. cc) (I.send-err m v e))
      ]
  receive_loop-Forwards (heard confirmation ∷ turns) stop w v running =
      receive_loop-Forwards turns stop w v running
  receive_loop-Forwards (heard broken ∷ turns) stop w v running =
      Forwards-idle _ v turns stop w v ended (λ e. cc) refl
