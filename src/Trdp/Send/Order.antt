-- ===== src/Trdp/Send/Order.antt =====
-- The send queue of src/rdp/trdp_flow.cpp: what the end of a write starts next, and why no packet is
-- left waiting with no write under way.
use p2engine.Prelude.{
  Bool, Bool-cases, List, Option, [], ap, arith, false, if_false, if_true, if◌then◌else◌, inl, inr,
  is_empty, not, refl, subst, suc, sym, true, zero, ℕ, ◌&&◌, ◌||◌, ◌∙◌, ◌∷◌, ◌≡◌, ◌⊎◌,
}
use p2engine.Trdp.Flow.{TcpApp, TcpFlow, is_over, tell}
use p2engine.Trdp.Send.{
  after_write, handle_sent_packet, is_current, push_packet, queued_msg_type, queued_packet,
  send_front, send_queued, skip_number, tcp_send, waited_too_long, write_packet,
}
use p2engine.Trdp.Types.{
  PacketType, SendElement, data_pkt, in_phase, no_error, st_connected, tell_writeable,
}

-- The packets at the front of the queue that are too old.
abbrev pub expired : ℕ → List SendElement → ℕ
expired now [] = 0
expired now (e ∷ es) = if is_current now e then 0 else suc (expired now es)

-- The queue from its first packet on that is not.
abbrev pub current : ℕ → List SendElement → List SendElement
current now [] = []
current now (e ∷ es) = if is_current now e then e ∷ es else current now es

abbrev pub with_bufs : List SendElement → TcpFlow → TcpFlow
with_bufs es f = record f { tx = record (f.tx) { send_bufs = es } }

-- Numbers are used up.
abbrev pub skip_numbers : ℕ → TcpFlow → TcpFlow
skip_numbers zero f = f
skip_numbers (suc n) f = skip_numbers n (skip_number f)

-- The first packet of a queue is written, and the others stay.
abbrev pub send_first : List SendElement → TcpFlow → TcpFlow
send_first [] f = with_bufs [] f
send_first (e ∷ es) f =
    write_packet e.buf data_pkt e.alert_writable (queued_msg_type e) (with_bufs es f)

send_queued_busy :
    (now : ℕ) (es : List SendElement) (f : TcpFlow) → f.sending ≡ true → send_queued now es f ≡ f
unfolding send_queued
send_queued_busy now [] f h = refl
send_queued_busy now (e ∷ es) f h = rw (h, send_queued)

-- From the queue, on a flow that is connected and not sending, `__send` writes.
send_from_queue :
    (now : ℕ) (e : SendElement) (f : TcpFlow)
    → in_phase f.state st_connected ≡ true
    → f.sending ≡ false
    → tcp_send now e.buf data_pkt e.alert_writable (queued_msg_type e) true f
      ≡ write_packet e.buf data_pkt e.alert_writable (queued_msg_type e) f
unfolding tcp_send
send_from_queue now e f c s = ground arith

sending_written :
    (bytes : List ℕ) (type : PacketType) (alert : Bool) (msg_type : Option ℕ) (f : TcpFlow)
    → (write_packet bytes type alert msg_type f).sending ≡ true
unfolding write_packet
sending_written bytes type alert msg_type f = refl

skip-with_bufs :
    (n : ℕ) (es : List SendElement) (f : TcpFlow)
    → skip_numbers n (with_bufs es f) ≡ with_bufs es (skip_numbers n f)
unfolding skip_number
skip-with_bufs zero es f = refl
skip-with_bufs (suc n) es f = skip-with_bufs n es (skip_number f)

-- The queue that a flow has does not matter, once the next one is given.
send_first-with_bufs :
    (q es : List SendElement) (f : TcpFlow) → send_first q (with_bufs es f) ≡ send_first q f
send_first-with_bufs [] es f = refl
send_first-with_bufs (e ∷ q) es f = refl

send_front_current :
    (now : ℕ) (e : SendElement) (f : TcpFlow)
    → is_current now e ≡ true
    → in_phase f.state st_connected ≡ true
    → f.sending ≡ false
    → send_front now e f ≡ write_packet e.buf data_pkt e.alert_writable (queued_msg_type e) f
unfolding send_front
send_front_current now e f h c s = if_true _ _ _ h ∙ send_from_queue now e f c s

send_front_expired :
    (now : ℕ) (e : SendElement) (f : TcpFlow)
    → is_current now e ≡ false
    → send_front now e f ≡ skip_number f
unfolding send_front
send_front_expired now e f h = if_false _ _ _ h

send_queued_idle :
    (now : ℕ) (e : SendElement) (es : List SendElement) (f : TcpFlow)
    → f.sending ≡ false
    → send_queued now (e ∷ es) f ≡ send_queued now es (send_front now e (with_bufs es f))
unfolding send_queued
send_queued_idle now e es f s = if_false _ _ _ s

pub send_queued_lem :
    (now : ℕ) (es : List SendElement) (f : TcpFlow)
    → in_phase f.state st_connected ≡ true
    → f.sending ≡ false
    → f.send_bufs ≡ es
    → send_queued now es f ≡ send_first (current now es) (skip_numbers (expired now es) f)
unfolding send_queued skip_number
send_queued_lem now [] f c s q = ap (λ es. with_bufs es f) q
send_queued_lem now (e ∷ es) f c s q =
    let g : TcpFlow = with_bufs es f in
    elim (Bool-cases (is_current now e)) [
      | inl h ↦
          send_queued_idle now e es f s
          ∙ ap (send_queued now es) (send_front_current now e g h c s)
          ∙ rw h (
              send_queued_busy now es
                (write_packet e.buf data_pkt e.alert_writable (queued_msg_type e) g)
                (sending_written e.buf data_pkt e.alert_writable (queued_msg_type e) g))
      | inr h ↦
          send_queued_idle now e es f s
          ∙ ap (send_queued now es) (send_front_expired now e g h)
          ∙ send_queued_lem now es (skip_number g) c s refl
          ∙ rw h (
              ap (send_first (current now es)) (skip-with_bufs (expired now es) es (skip_number f))
              ∙ send_first-with_bufs (current now es) es
                  (skip_numbers (expired now es) (skip_number f)))
    ]

-- The flow after the application was told that a write is over.
abbrev pub told_writeable : TcpApp → Bool → TcpFlow → TcpFlow
told_writeable app alert f =
    let idle : TcpFlow = record f { tx = record (f.tx) { sending = false } } in
    if alert then tell tell_writeable app.on_writeable idle else idle

-- `__handle_sent_packet` for a write that succeeded, on a flow that is connected, not cancelled and
-- not sending again once the application was told: the packets at the front of the queue that are
-- too old are dropped, each using up a number; the first of the others is written; the rest stay
-- queued, in order.
pub handle_sent-next :
    (app : TcpApp) (now : ℕ) (alert : Bool) (stamp : ℕ) (f : TcpFlow)
    → is_over (record f { tx = record (f.tx) { sending = false } }) stamp ≡ false
    → (let told = told_writeable app alert f in
        is_over told stamp ≡ false
        → in_phase told.state st_connected ≡ true
        → told.sending ≡ false
        → handle_sent_packet app now no_error alert stamp f
          ≡ send_first
              (current now told.send_bufs)
              (skip_numbers (expired now told.send_bufs) told))
unfolding handle_sent_packet after_write
handle_sent-next app now alert stamp f live still c s =
    let told = told_writeable app alert f in
    if_false _ _ _ live ∙ if_false _ _ _ still ∙ send_queued_lem now told.send_bufs told c s refl

-- No packet waits unless a write is under way.
abbrev pub IsFlowing : TcpFlow → Type 0
IsFlowing f = (f.sending ≡ true) ⊎ (f.send_bufs ≡ [])

IsFlowing-send_first : (q : List SendElement) (f : TcpFlow) → IsFlowing (send_first q f)
unfolding write_packet
IsFlowing-send_first [] f = inr refl
IsFlowing-send_first (e ∷ es) f = inl refl

-- The end of a write that succeeded, on a flow that is connected and not cancelled once the
-- application was told: whatever was queued and whatever the application sent, afterwards a write is
-- under way or nothing waits.
pub handle_sent-IsFlowing :
    (app : TcpApp) (now : ℕ) (alert : Bool) (stamp : ℕ) (f : TcpFlow)
    → is_over (record f { tx = record (f.tx) { sending = false } }) stamp ≡ false
    → is_over (told_writeable app alert f) stamp ≡ false
    → in_phase (told_writeable app alert f).state st_connected ≡ true
    → IsFlowing (handle_sent_packet app now no_error alert stamp f)
unfolding handle_sent_packet after_write
handle_sent-IsFlowing app now alert stamp f live still c =
    let told = told_writeable app alert f in
    elim (Bool-cases told.sending) [
      | inl s ↦
          subst IsFlowing
            (sym (
              if_false _ _ _ live
              ∙ if_false _ _ _ still
              ∙ send_queued_busy now told.send_bufs told s))
            (inl s)
      | inr s ↦ subst IsFlowing (sym (handle_sent-next app now alert stamp f live still c s)) (
          IsFlowing-send_first (current now told.send_bufs)
            (skip_numbers (expired now told.send_bufs) told))
    ]

IsFlowing-if :
    (b : Bool) (x y : TcpFlow)
    → (b ≡ true → IsFlowing x)
    → (b ≡ false → IsFlowing y)
    → IsFlowing (if b then x else y)
IsFlowing-if true x y h k = h refl
IsFlowing-if false x y h k = k refl

-- The test by which a packet is queued.
sending_of_queued :
    (f : TcpFlow)
    → IsFlowing f
    → (not (is_empty f.send_bufs) && not false) || f.sending ≡ true
    → f.sending ≡ true
sending_of_queued f (inl s) q = s
sending_of_queued f (inr e) q =
    subst (λ (es : List SendElement). (not (is_empty es) && not false) || f.sending ≡ true) e q

-- `__send` of a new packet, in any state, leaves no packet waiting without a write under way, if
-- none was.
pub send-IsFlowing :
    (now : ℕ) (bytes : List ℕ) (type : PacketType) (alert : Bool) (msg_type : Option ℕ)
    (f : TcpFlow)
    → IsFlowing f
    → IsFlowing (tcp_send now bytes type alert msg_type false f)
unfolding tcp_send write_packet push_packet
send-IsFlowing now bytes type alert msg_type f h =
    let e = queued_packet now bytes alert msg_type in
    IsFlowing-if (not (in_phase f.state st_connected)) _ _ (λ c. h)
      (λ c.
        IsFlowing-if ((not (is_empty f.send_bufs) && not false) || f.sending) _ _
          (λ q.
            IsFlowing-if (waited_too_long now f.send_bufs) _ _ (λ w. h)
              (λ w. inl (sending_of_queued f h q)))
          (λ q. inl refl))
