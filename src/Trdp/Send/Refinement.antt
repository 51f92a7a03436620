-- ===== src/Trdp/Send/Refinement.antt =====
-- The send queue of src/rdp/trdp_flow.cpp refines a first-in first-out queue.
use p2engine.Http.Text.{both_true, negated}
use p2engine.Prelude.{
  Bool, List, [], ap, append-nil, append_assoc, ap₂, false, if◌then◌else◌, ltb, none, not, refl,
  some, subst, sym, true, ℕ, ◌&&◌, ◌*◌, ◌++◌, ◌==◌, ◌∙◌, ◌∷◌, ◌≡◌,
}
use p2engine.Trdp.Flow.{TcpApp, TcpFlow, is_over, put}
use p2engine.Trdp.Send.{
  after_write, bytes64, handle_sent_packet, send_queued, tcp_ping, tcp_send_semireliable,
  tcp_send_unreliable, write_packet,
}
use p2engine.Trdp.Send.Fifo.{
  Message, ok_queue, taken_on, taken_on-send_first, trace-skip_numbers, waiting, waiting-current,
  written,
}
use p2engine.Trdp.Send.Order.{
  current, expired, send_first, send_queued_lem, skip_numbers, told_writeable,
}
use p2engine.Trdp.Send.Steps.{
  IsRunning, SendEvent, Takes, Takes-if, Takes-reliable, Takes-same, Takes-unreliable, completes,
  run_sends, send_step, submits, submits_ping, submits_semireliable, submits_unreliable, submitted,
  submitted_at,
}
use p2engine.Trdp.Types.{
  SendElement, SysError, TcpPhase, data_pkt, in_phase, invalid_msgtype, no_error, ping_pkt,
  st_connected, tell_writeable,
}

-- An application that only listens.
abbrev pub IsQuiet : TcpApp → Type 0
IsQuiet app = (f : TcpFlow) → app.on_writeable f ≡ f

Takes-first :
    (f : TcpFlow) (b : Bool) (x y : TcpFlow × SysError)
    → Takes f [] x.0
    → Takes f [] y.0
    → Takes f [] (if b then x else y).0
Takes-first f true x y h k = h
Takes-first f false x y h k = k

Takes-ping : (now : ℕ) (f : TcpFlow) → IsRunning f → Takes f [] (tcp_ping now f).0
unfolding tcp_ping
Takes-ping now f v = Takes-first f (not (in_phase f.state st_connected)) _ _ (Takes-same f v) (
    Takes-first f f.socket_open _ (f, no_error)
      (Takes-unreliable now (bytes64 now) ping_pkt none f v) (Takes-same f v))

Takes-drop_or_send :
    (now : ℕ) (bytes : List ℕ) (m : ℕ) (f : TcpFlow)
    → IsRunning f
    → Takes f [] (tcp_send_unreliable now bytes m f)
unfolding tcp_send_unreliable
Takes-drop_or_send now bytes m f v =
    Takes-if f [] (ltb (8 * 1024) f.qued_sending_size) _ _ (λ e. Takes-same f v)
      (λ e. Takes-unreliable now bytes data_pkt (some m) f v)

-- A flow that is as before for the queue, and does not send.
abbrev IsIdle : TcpFlow → TcpFlow → Type 0
IsIdle f g =
    (written g.trace ≡ written f.trace)
    × (g.send_bufs ≡ f.send_bufs)
    × (g.state ≡ f.state)
    × (g.sending ≡ false)

IsIdle-if :
    (f : TcpFlow) (b : Bool) (x y : TcpFlow)
    → IsIdle f x
    → IsIdle f y
    → IsIdle f (if b then x else y)
IsIdle-if f true x y h k = h
IsIdle-if f false x y h k = k

IsIdle-told :
    (app : TcpApp) (alert : Bool) (f : TcpFlow)
    → IsQuiet app
    → IsIdle f (told_writeable app alert f)
IsIdle-told app false f q = (refl, refl, refl, refl)
IsIdle-told app true f q =
    let idle : TcpFlow = record f { tx = record (f.tx) { sending = false } } in
    IsIdle-if f f.connection (app.on_writeable (put tell_writeable idle)) idle
      (subst (IsIdle f) (sym (q (put tell_writeable idle))) (refl, refl, refl, refl))
      (refl, refl, refl, refl)

Takes-idle : (f g : TcpFlow) → IsRunning f → IsIdle f g → Takes f [] g
Takes-idle f g v (t, b, s, i) = (
  ap₂ (λ (x y : List Message). x ++ y) t (ap waiting b) ∙ sym (append-nil (taken_on f)),
  record {
    connected = ap (λ (p : TcpPhase). in_phase p st_connected) s ∙ v.connected;
    queue_ok = ap ok_queue b ∙ v.queue_ok;
  },
)

state-send_first : (q : List SendElement) (f : TcpFlow) → (send_first q f).state ≡ f.state
unfolding write_packet
state-send_first [] f = refl
state-send_first (e ∷ es) f = refl

Takes-queued :
    (now : ℕ) (f g : TcpFlow)
    → IsRunning f
    → IsIdle f g
    → Takes f [] (send_queued now g.send_bufs g)
Takes-queued now f g v (t, b, s, i) =
    let h = skip_numbers (expired now g.send_bufs) g in
    let q = current now g.send_bufs in
    let kept = trace-skip_numbers (expired now g.send_bufs) g in
    let connected = ap (λ (p : TcpPhase). in_phase p st_connected) s ∙ v.connected in
    let same = waiting-current now g.send_bufs (ap ok_queue b ∙ v.queue_ok) in
    let first = taken_on-send_first q h same.1 in
    subst (Takes f []) (sym (send_queued_lem now g.send_bufs g connected i refl)) (
      first.0
          ∙ ap₂ (λ (x y : List Message). x ++ y) (ap written kept.0 ∙ t) (same.0 ∙ ap waiting b)
          ∙ sym (append-nil (taken_on f)),
      record {
        connected =
            ap (λ (p : TcpPhase). in_phase p st_connected) (state-send_first q h ∙ kept.1)
            ∙ connected;
        queue_ok = first.1;
      },
    )

Takes-completes :
    (app : TcpApp) (now : ℕ) (alert : Bool) (stamp : ℕ) (f : TcpFlow)
    → IsQuiet app
    → IsRunning f
    → Takes f [] (handle_sent_packet app now no_error alert stamp f)
unfolding handle_sent_packet after_write
Takes-completes app now alert stamp f q v =
    let idle : TcpFlow = record f { tx = record (f.tx) { sending = false } } in
    let told = told_writeable app alert f in
    let same = IsIdle-told app alert f q in
    Takes-if f [] (is_over idle stamp) _ _ (λ over. Takes-idle f idle v (refl, refl, refl, refl))
      (λ live.
        Takes-if f [] (is_over told stamp) _ _ (λ over. Takes-idle f told v same)
          (λ still. Takes-queued now f told v same))

-- A message type that a packet can have.
abbrev pub known_type : SendEvent → Bool
known_type (submits bytes m) = not (m == invalid_msgtype)
known_type _ = true

abbrev pub known_types : List (ℕ × SendEvent) → Bool
known_types [] = true
known_types ((now, event) ∷ rest) = known_type event && known_types rest

Takes-send_step :
    (app : TcpApp) (now : ℕ) (event : SendEvent) (f : TcpFlow)
    → IsQuiet app
    → IsRunning f
    → known_type event ≡ true
    → Takes f (submitted_at now event f) (send_step app now event f)
unfolding tcp_send_semireliable
Takes-send_step app now (submits bytes m) f q v known =
    Takes-reliable now bytes m f v (negated (m == invalid_msgtype) known)
Takes-send_step app now (submits_unreliable bytes m) f q v known =
    Takes-drop_or_send now bytes m f v
Takes-send_step app now (submits_semireliable bytes m) f q v known =
    Takes-unreliable now bytes data_pkt (some m) f v
Takes-send_step app now submits_ping f q v known = Takes-ping now f v
Takes-send_step app now (completes alert stamp) f q v known =
    Takes-completes app now alert stamp f q v

-- The reliable messages that a connected flow writes, followed by those in its queue, are those that
-- it had taken on before and those that the application submits, in their order, each once: over any
-- sequence of sends, pings and ends of writes at any times, with an application that only listens. A
-- message is not counted as submitted if `__send` refuses it because the front of the queue has waited
-- for ten seconds; a message type is not 0xffff.
pub messages_in_order :
    (app : TcpApp) (events : List (ℕ × SendEvent)) (f : TcpFlow)
    → IsQuiet app
    → IsRunning f
    → known_types events ≡ true
    → taken_on (run_sends app events f) ≡ taken_on f ++ submitted app events f
messages_in_order app [] f q v known = sym (append-nil (taken_on f))
messages_in_order app ((now, event) ∷ rest) f q v known =
    let b = both_true (known_type event) (known_types rest) known in
    let step = Takes-send_step app now event f q v b.0 in
    let g = send_step app now event f in
    messages_in_order app rest g q step.1 b.1
    ∙ ap (λ (l : List Message). l ++ submitted app rest g) step.0
    ∙ append_assoc (taken_on f) (submitted_at now event f) (submitted app rest g)
