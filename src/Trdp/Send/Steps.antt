-- ===== src/Trdp/Send/Steps.antt =====
-- Runs of sends and ends of writes of a connected flow of src/rdp/trdp_flow.cpp.
use p2engine.Http.Text.{both_true}
use p2engine.Prelude.{
  Bool, Bool-cases, List, Option, [], ap, append-nil, append_assoc, ap₂, arith, drop, false,
  if_false, if_true, if◌then◌else◌, inl, inr, is_empty, length, not, refl, some, subst, sym, true,
  ℕ, ◌%◌, ◌&&◌, ◌++◌, ◌+◌, ◌==◌, ◌||◌, ◌∙◌, ◌∷◌, ◌≡◌,
}
use p2engine.Trdp.Flow.{TcpApp, TcpFlow}
use p2engine.Trdp.Send.{
  handle_sent_packet, packet_head, push_packet, queued_packet, tcp_ping, tcp_send,
  tcp_send_reliable, tcp_send_semireliable, tcp_send_unreliable, waited_too_long, write_packet,
}
use p2engine.Trdp.Send.Fifo.{Message, ok_element, ok_queue, taken_on, waiting, written}
use p2engine.Trdp.Types.{
  PacketType, SendElement, data_pkt, in_phase, invalid_msgtype, no_error, st_connected, start_write,
}
use p2engine.Urdp.Format.{bytes16}
use p2engine.Urdp.Types.{u8_mod}

-- What can happen to the queue: the application sends or pings, and a write ends well.
pub data SendEvent : Type 0 where
  submits : List ℕ → ℕ → SendEvent
  submits_unreliable submits_semireliable : List ℕ → ℕ → SendEvent
  submits_ping : SendEvent
  completes : Bool → ℕ → SendEvent

abbrev pub send_step : TcpApp → ℕ → SendEvent → TcpFlow → TcpFlow
send_step app now (submits bytes m) f = tcp_send_reliable now bytes m f
send_step app now (submits_unreliable bytes m) f = tcp_send_unreliable now bytes m f
send_step app now (submits_semireliable bytes m) f = tcp_send_semireliable now bytes m f
send_step app now submits_ping f = (tcp_ping now f).0
send_step app now (completes alert stamp) f = handle_sent_packet app now no_error alert stamp f

abbrev pub run_sends : TcpApp → List (ℕ × SendEvent) → TcpFlow → TcpFlow
run_sends app [] f = f
run_sends app ((now, event) ∷ rest) f = run_sends app rest (send_step app now event f)

-- Whether `__send` refuses a packet because the front of the queue has waited too long.
abbrev pub refuses : ℕ → TcpFlow → Bool
refuses now f = (not (is_empty f.send_bufs) || f.sending) && waited_too_long now f.send_bufs

-- The reliable messages that the flow does not refuse, in the order in which they come.
abbrev pub submitted_at : ℕ → SendEvent → TcpFlow → List Message
submitted_at now (submits bytes m) f = if refuses now f then [] else bytes16 m bytes ∷ []
submitted_at now _ f = []

abbrev pub submitted : TcpApp → List (ℕ × SendEvent) → TcpFlow → List Message
submitted app [] f = []
submitted app ((now, event) ∷ rest) f =
    submitted_at now event f ++ submitted app rest (send_step app now event f)

-- A queue that is in order, of a flow that is connected.
pub record IsRunning (f : TcpFlow) : Type 0 where
  pub connected : in_phase f.state st_connected ≡ true
  pub queue_ok : ok_queue f.send_bufs ≡ true

-- One step: what the flow has taken on grows by what was submitted.
abbrev pub Takes : TcpFlow → List Message → TcpFlow → Type 0
Takes f new g = (taken_on g ≡ taken_on f ++ new) × IsRunning g

pub Takes-if :
    (f : TcpFlow) (new : List Message) (b : Bool) (x y : TcpFlow)
    → (b ≡ true → Takes f new x)
    → (b ≡ false → Takes f new y)
    → Takes f new (if b then x else y)
Takes-if f new true x y h k = h refl
Takes-if f new false x y h k = k refl

pub Takes-same : (f : TcpFlow) → IsRunning f → Takes f [] f
Takes-same f v = (sym (append-nil (taken_on f)), v)

waiting-append :
    (es : List SendElement) (e : SendElement)
    → waiting (es ++ (e ∷ [])) ≡ waiting es ++ waiting (e ∷ [])
waiting-append [] e = refl
waiting-append (d ∷ es) e = elim (Bool-cases d.alert_writable) [
  | inl h ↦ rw h (ap (λ (l : List Message). bytes16 d.msg_type d.buf ∷ l) (waiting-append es e))
  | inr h ↦ rw h (waiting-append es e)
]

ok_queue-append :
    (es : List SendElement) (e : SendElement)
    → ok_queue es ≡ true
    → ok_element e ≡ true
    → ok_queue (es ++ (e ∷ [])) ≡ true
ok_queue-append [] e h k = ap (λ b. b && true) k
ok_queue-append (d ∷ es) e h k =
    let b = both_true (ok_element d) (ok_queue es) h in
    ap₂ (λ x y. x && y) b.0 (ok_queue-append es e b.1 k)

-- A packet that is queued.
Takes-push :
    (f : TcpFlow) (e : SendElement)
    → IsRunning f
    → ok_element e ≡ true
    → Takes f (waiting (e ∷ [])) (push_packet e f)
unfolding push_packet
Takes-push f e v ok = (
  ap (λ (l : List Message). written f.trace ++ l) (waiting-append f.send_bufs e)
      ∙ sym (append_assoc (written f.trace) (waiting f.send_bufs) (waiting (e ∷ []))),
  record { connected = v.connected; queue_ok = ok_queue-append f.send_bufs e v.queue_ok ok },
)

-- A packet that is written at once: nothing waits then.
Takes-write :
    (f : TcpFlow) (bytes : List ℕ) (type : PacketType) (alert : Bool) (m : Option ℕ)
    → IsRunning f
    → f.send_bufs ≡ []
    → Takes f
        (written (
          start_write
            (packet_head ((f.id_for_lost_rate + 1) % u8_mod) type m (length bytes) ++ bytes)
            alert
            f.op_stamp
          ∷ []))
        (write_packet bytes type alert m f)
unfolding write_packet
Takes-write f bytes type false m v none_waits =
    (sym (append-nil (taken_on f)), record { connected = v.connected; queue_ok = v.queue_ok })
Takes-write f bytes type true m v none_waits =
    let t = written f.trace in
    let new =
      drop 4 (packet_head ((f.id_for_lost_rate + 1) % u8_mod) type m (length bytes) ++ bytes)
      ∷ [] in
    (
      ap (λ (b : List SendElement). (t ++ new) ++ waiting b) none_waits
          ∙ append-nil (t ++ new)
          ∙ sym (
              ap (λ (l : List Message). l ++ new)
                (ap (λ (b : List SendElement). t ++ waiting b) none_waits ∙ append-nil t)),
      record { connected = v.connected; queue_ok = v.queue_ok },
    )

Takes-eq :
    (f : TcpFlow) (new new' : List Message) (g : TcpFlow)
    → Takes f new g
    → new ≡ new'
    → Takes f new' g
Takes-eq f new new' g h e = subst (λ l. Takes f l g) e h

empty_of :
    (es : List SendElement) (b : Bool) → ((not (is_empty es) && not false) || b) ≡ false → es ≡ []
empty_of [] b h = refl
empty_of (e ∷ es) b h = absurd (ground arith)

none_waits_of :
    (f : TcpFlow)
    → ((not (is_empty f.send_bufs) && not false) || f.sending) ≡ false
    → f.send_bufs ≡ []
none_waits_of f h = empty_of f.send_bufs f.sending h

refuses_lem :
    (f : TcpFlow) (w : Bool)
    → ((not (is_empty f.send_bufs) && not false) || f.sending) ≡ true
    → ((not (is_empty f.send_bufs) || f.sending) && w) ≡ w
refuses_lem f w h = ground arith

not_blocked_lem :
    (f : TcpFlow) (w : Bool)
    → ((not (is_empty f.send_bufs) && not false) || f.sending) ≡ false
    → ((not (is_empty f.send_bufs) || f.sending) && w) ≡ false
not_blocked_lem f w h = ground arith

not_disconnected : (f : TcpFlow) → IsRunning f → ¬ (not (in_phase f.state st_connected) ≡ true)
not_disconnected f v e = absurd (ground (arith, v.connected))

-- A packet that may be lost.
pub Takes-unreliable :
    (now : ℕ) (bytes : List ℕ) (type : PacketType) (m : Option ℕ) (f : TcpFlow)
    → IsRunning f
    → Takes f [] (tcp_send now bytes type false m false f)
unfolding tcp_send queued_packet
Takes-unreliable now bytes type m f v =
    Takes-if f [] (not (in_phase f.state st_connected)) _ _ (λ e. absurd (not_disconnected f v e))
      (λ c.
        Takes-if f [] ((not (is_empty f.send_bufs) && not false) || f.sending) _ _
          (λ blocked.
            Takes-if f [] (waited_too_long now f.send_bufs) _ _
              (λ w. (
                sym (append-nil (taken_on f)),
                record { connected = v.connected; queue_ok = v.queue_ok },
              ))
              (λ w. Takes-push f (queued_packet now bytes false m) v refl))
          (λ free. Takes-write f bytes type false m v (none_waits_of f free)))

-- A message that must not be lost.
pub Takes-reliable :
    (now : ℕ) (bytes : List ℕ) (m : ℕ) (f : TcpFlow)
    → IsRunning f
    → (m == invalid_msgtype) ≡ false
    → Takes f (submitted_at now (submits bytes m) f) (tcp_send_reliable now bytes m f)
unfolding tcp_send tcp_send_reliable queued_packet packet_head
Takes-reliable now bytes m f v known =
    let new = submitted_at now (submits bytes m) f in
    let msg = bytes16 m bytes in
    let w = waited_too_long now f.send_bufs in
    Takes-if f new (not (in_phase f.state st_connected)) _ _ (λ e. absurd (not_disconnected f v e))
      (λ c.
        Takes-if f new ((not (is_empty f.send_bufs) && not false) || f.sending) _ _
          (λ blocked.
            Takes-if f new w _ _
              (λ late.
                Takes-eq f [] new _
                  (
                    sym (append-nil (taken_on f)),
                    record { connected = v.connected; queue_ok = v.queue_ok },
                  )
                  (sym (if_true (refuses now f) [] (msg ∷ []) (refuses_lem f w blocked ∙ late))))
              (λ soon.
                Takes-eq f (msg ∷ []) new _
                  (Takes-push f (queued_packet now bytes true (some m)) v (ap not known))
                  (sym (if_false (refuses now f) [] (msg ∷ []) (refuses_lem f w blocked ∙ soon)))))
          (λ free.
            Takes-eq f (msg ∷ []) new _
              (Takes-write f bytes data_pkt true (some m) v (none_waits_of f free))
              (sym (if_false (refuses now f) [] (msg ∷ []) (not_blocked_lem f w free)))))
