-- ===== src/Urdp/Output/Frame.antt =====
-- What sending in src/rdp/urdp_flow.cpp does not touch.
use p2engine.Prelude.{
  Bool, Bool-cases, List, Option, [], ap, false, if◌then◌else◌, inl, inr, length, none, not, refl,
  some, ℕ, ◌%◌, ◌&&◌, ◌+◌, ◌==◌, ◌∙◌, ◌∷◌, ◌≡◌,
}
use p2engine.Urdp.Flow.{Conn, Flow, RSegment, SSegment, Sender, add32, mod_minus_ge, time32}
use p2engine.Urdp.Output.{
  attempt_send, decay_cwnd, exhausted, immediate, mark_transmitted, packet_as_reliable_and_sendout,
  send_ack, send_loop, shift, transmit, transmit_packets, xmit_le,
}
use p2engine.Urdp.Queue.{queue}
use p2engine.Urdp.Types.{
  Ctrl, SendFlags, at_least, delayed_ack, established, immediate_ack, none_flag, u8_mod,
}

-- The parts of a flow that neither sending nor queueing touches.
pub record Kept : Type 0 where
  pub conn : Conn
  pub rlist : List RSegment
  pub rlen : ℕ
  pub rcv_nxt : ℕ
  pub rcv_wnd : ℕ
  pub detect_readable : Bool
  pub clock : ℕ
  pub close_base : Option ℕ
  pub messages : List (List ℕ)
  pub fault : Bool

abbrev pub kept : Flow → Kept
kept f = record {
  conn = f.conn;
  rlist = f.rlist;
  rlen = f.rlen;
  rcv_nxt = f.rcv_nxt;
  rcv_wnd = f.rcv_wnd;
  detect_readable = f.detect_readable;
  clock = f.t_last_on_clock;
  close_base = f.t_close_base;
  messages = f.unreliable_rlist;
  fault = f.fault;
}

-- A packet goes out: the sender's lists and counters stay too.
pub kept-packet :
    (seq : ℕ) (ctrl : Ctrl) (d : List ℕ) (now : ℕ) (f : Flow)
    → kept (packet_as_reliable_and_sendout seq ctrl d now f) ≡ kept f
unfolding packet_as_reliable_and_sendout
kept-packet seq ctrl d now f = refl

pub snd-packet :
    (seq : ℕ) (ctrl : Ctrl) (d : List ℕ) (now : ℕ) (f : Flow)
    → (packet_as_reliable_and_sendout seq ctrl d now f).snd ≡ f.snd
unfolding packet_as_reliable_and_sendout
snd-packet seq ctrl d now f = refl

kept-transmit_packets :
    (seg : SSegment) (now : ℕ) (f : Flow)
    → (kept (transmit_packets seg now f) ≡ kept f) × ((transmit_packets seg now f).snd ≡ f.snd)
unfolding transmit_packets
kept-transmit_packets seg now f =
    elim (Bool-cases (not (at_least f.state established) && xmit_le seg.xmit 1)) [
      | inl e ↦ rw (e, transmit_packets) (refl, refl)
      | inr e ↦ rw (e, transmit_packets) (refl, refl)
    ]

-- The flow that `transmit` leaves.
pub after_transmit : SSegment → ℕ → Flow → Flow
after_transmit seg now f = mark_transmitted seg now (transmit_packets seg now f)

pub kept-after_transmit :
    (seg : SSegment) (now : ℕ) (f : Flow) → kept (after_transmit seg now f) ≡ kept f
unfolding after_transmit mark_transmitted
kept-after_transmit seg now f = (kept-transmit_packets seg now f).0

-- The sender after a transmission: only `m_snd_nxt` moves, by the first transmission of a segment.
abbrev pub sent_once : SSegment → Sender → Sender
sent_once seg s = record s {
  snd_nxt = if seg.xmit == 0 then add32 s.snd_nxt (length seg.buf) else s.snd_nxt;
}

pub snd-after_transmit :
    (seg : SSegment) (now : ℕ) (f : Flow) → (after_transmit seg now f).snd ≡ sent_once seg f.snd
unfolding after_transmit mark_transmitted
snd-after_transmit seg now f = ap (sent_once seg) (kept-transmit_packets seg now f).1

-- The segment after a transmission.
abbrev pub count_xmit : SSegment → SSegment
count_xmit seg = record seg { xmit = (seg.xmit + 1) % u8_mod }

pub transmit_lem :
    (seg : SSegment) (now : ℕ) (f : Flow)
    → transmit seg now f
      ≡ (if exhausted seg now f then none else some (count_xmit seg, after_transmit seg now f))
unfolding transmit after_transmit
transmit_lem seg now f = refl

pub exhausted-fresh :
    (seg : SSegment) (now : ℕ) (f : Flow) → seg.xmit ≡ 0 → exhausted seg now f ≡ false
unfolding exhausted
exhausted-fresh seg now f e = elim (Bool-cases (at_least f.state established)) [
  | inl b ↦ rw (b, e)
  | inr b ↦ rw (b, e)
]

pub kept-send_ack :
    (flags : SendFlags) (now : ℕ) (f : Flow)
    → (kept (send_ack flags now f) ≡ kept f) × ((send_ack flags now f).snd ≡ f.snd)
unfolding send_ack
kept-send_ack immediate_ack now f = (refl, refl)
kept-send_ack none_flag now f = elim (Bool-cases (immediate f.snd && not (f.t_ack == 0))) [
  | inl e ↦ rw (e, send_ack) (refl, refl)
  | inr e ↦ rw (e, send_ack) (refl, refl)
]
kept-send_ack delayed_ack now f = elim (Bool-cases (immediate f.snd && not (f.t_ack == 0))) [
  | inl e ↦ rw (e, send_ack) (refl, refl)
  | inr e ↦ rw (e, send_ack) (refl, refl)
]

pub kept-send_loop :
    (l : List SSegment) (flags : SendFlags) (now : ℕ) (f : Flow)
    → kept (send_loop l flags now f) ≡ kept f
unfolding send_loop shift
kept-send_loop [] flags now f = (kept-send_ack flags now f).0
kept-send_loop (seg ∷ rest) flags now f = elim (Bool-cases (exhausted seg now f)) [
  | inl e ↦ rw (transmit_lem, e, send_loop)
  | inr e ↦
      rw (transmit_lem, e, send_loop)
        (kept-send_loop rest none_flag now _ ∙ kept-after_transmit seg now f)
]

pub kept-decay_cwnd : (now : ℕ) (f : Flow) → kept (decay_cwnd now f) ≡ kept f
unfolding decay_cwnd
kept-decay_cwnd now f = elim (Bool-cases (mod_minus_ge (time32 now) f.t_lastsend (f.rto + 1))) [
  | inl e ↦ rw (e, decay_cwnd)
  | inr e ↦ rw (e, decay_cwnd)
]

-- Sending leaves the connection, what was received and the fault flag alone.
pub kept-attempt_send :
    (flags : SendFlags) (now : ℕ) (f : Flow) → kept (attempt_send flags now f) ≡ kept f
unfolding attempt_send
kept-attempt_send flags now f =
    kept-send_loop _ flags now (decay_cwnd now f) ∙ kept-decay_cwnd now f

pub kept-queue : (d : List ℕ) (ctrl : Ctrl) (f : Flow) → kept (queue d ctrl f) ≡ kept f
unfolding queue
kept-queue d ctrl f = refl
