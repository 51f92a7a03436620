-- ===== src/Trdp/Send/Fifo.antt =====
-- The send queue of src/rdp/trdp_flow.cpp as a first-in first-out queue of the messages that must not
-- be lost.
use p2engine.Http.Text.{both_true}
use p2engine.Prelude.{
  Bool, Bool-cases, List, Option, [], ap, append_assoc, arith, drop, false, if_false, if_true,
  if◌then◌else◌, inl, inr, length, none, not, refl, some, suc, sym, true, zero, ℕ, ◌%◌, ◌&&◌, ◌++◌,
  ◌+◌, ◌==◌, ◌||◌, ◌∙◌, ◌∷◌, ◌≡◌,
}
use p2engine.Trdp.Flow.{TcpFlow}
use p2engine.Trdp.Send.{is_current, packet_head, queued_msg_type, skip_number, write_packet}
use p2engine.Trdp.Send.Order.{current, send_first, skip_numbers}
use p2engine.Trdp.Types.{SendElement, TcpEffect, data_pkt, invalid_msgtype, start_write}
use p2engine.Urdp.Format.{bytes16}
use p2engine.Urdp.Types.{u8_mod}

-- A message as the peer's application gets it: its type and its bytes.
abbrev pub Message : Type 0
Message = List ℕ

-- The messages in the queue that are sent as reliable.
abbrev pub waiting : List SendElement → List Message
waiting [] = []
waiting (e ∷ es) = if e.alert_writable then bytes16 e.msg_type e.buf ∷ waiting es else waiting es

-- The messages of reliable writes in a trace, in their order; the length, the number and the type of
-- a packet are cut off.
abbrev pub written : List TcpEffect → List Message
written [] = []
written (start_write bytes alert stamp ∷ es) =
    if alert then written es ++ (drop 4 bytes ∷ []) else written es
written (e ∷ es) = written es

-- All reliable messages that the flow has taken on.
abbrev pub taken_on : TcpFlow → List Message
taken_on f = written f.trace ++ waiting f.send_bufs

-- A reliable packet in the queue does not expire, and has a message type.
abbrev pub ok_element : SendElement → Bool
ok_element e =
    not e.alert_writable
    || (elim e.out_time [ none ↦ true | some t ↦ false ] && not (e.msg_type == invalid_msgtype))

abbrev pub ok_queue : List SendElement → Bool
ok_queue [] = true
ok_queue (e ∷ es) = ok_element e && ok_queue es

-- Packets that expire are not reliable.
waiting_expired :
    (now : ℕ) (e : SendElement)
    → ok_element e ≡ true
    → is_current now e ≡ false
    → e.alert_writable ≡ false
unfolding is_current
waiting_expired now e ok old = ground arith

pub waiting-current :
    (now : ℕ) (es : List SendElement)
    → ok_queue es ≡ true
    → (waiting (current now es) ≡ waiting es) × (ok_queue (current now es) ≡ true)
waiting-current now [] ok = (refl, refl)
waiting-current now (e ∷ es) ok =
    let b = both_true (ok_element e) (ok_queue es) ok in
    elim (Bool-cases (is_current now e)) [
      | inl h ↦ rw h (refl, ok)
      | inr h ↦
          let rest = waiting-current now es b.1 in
          rw h (rest.0 ∙ sym (if_false _ _ _ (waiting_expired now e b.0 h)), rest.1)
    ]

not_invalid :
    (e : SendElement)
    → ok_element e ≡ true
    → e.alert_writable ≡ true
    → (e.msg_type == invalid_msgtype) ≡ false
not_invalid e ok alert = ground arith

type_kept :
    (e : SendElement)
    → ok_element e ≡ true
    → e.alert_writable ≡ true
    → queued_msg_type e ≡ some e.msg_type
unfolding queued_msg_type
type_kept e ok alert = if_false _ _ _ (not_invalid e ok alert)

-- The packet of a reliable element carries its message.
written_message :
    (id : ℕ) (e : SendElement)
    → ok_element e ≡ true
    → e.alert_writable ≡ true
    → drop 4 (packet_head id data_pkt (queued_msg_type e) (length e.buf) ++ e.buf)
      ≡ bytes16 e.msg_type e.buf
unfolding queued_msg_type packet_head
written_message id e ok alert =
    ap (λ (m : Option ℕ). drop 4 (packet_head id data_pkt m (length e.buf) ++ e.buf))
      (type_kept e ok alert)

pub trace-skip_numbers :
    (n : ℕ) (f : TcpFlow)
    → ((skip_numbers n f).trace ≡ f.trace) × ((skip_numbers n f).state ≡ f.state)
unfolding skip_number
trace-skip_numbers zero f = (refl, refl)
trace-skip_numbers (suc n) f = trace-skip_numbers n (skip_number f)

pub taken_on-send_first :
    (q : List SendElement) (f : TcpFlow)
    → ok_queue q ≡ true
    → (taken_on (send_first q f) ≡ written f.trace ++ waiting q)
      × (ok_queue (send_first q f).send_bufs ≡ true)
unfolding write_packet
taken_on-send_first [] f ok = (refl, refl)
taken_on-send_first (e ∷ es) f ok =
    let b = both_true (ok_element e) (ok_queue es) ok in
    let t = written f.trace in
    let id = (f.id_for_lost_rate + 1) % u8_mod in
    let bytes = packet_head id data_pkt (queued_msg_type e) (length e.buf) ++ e.buf in
    let msg = bytes16 e.msg_type e.buf in
    elim (Bool-cases e.alert_writable) [
      | inr plain ↦ (
        ap (λ (l : List Message). l ++ waiting es) (if_false e.alert_writable _ t plain)
            ∙ ap (λ (l : List Message). t ++ l)
                (sym (if_false e.alert_writable _ (waiting es) plain)),
        b.1,
      )
      | inl alert ↦ (
        ap (λ (l : List Message). l ++ waiting es) (if_true e.alert_writable _ t alert)
            ∙ append_assoc t (drop 4 bytes ∷ []) (waiting es)
            ∙ ap (λ (m : Message). t ++ (m ∷ waiting es)) (written_message id e b.0 alert)
            ∙ ap (λ (l : List Message). t ++ l)
                (sym (if_true e.alert_writable (msg ∷ waiting es) (waiting es) alert)),
        b.1,
      )
    ]
