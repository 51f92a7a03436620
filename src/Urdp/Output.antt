-- ===== src/Urdp/Output.antt =====
-- Sending, of src/rdp/urdp_flow.cpp: `__packet_as_reliable_and_sendout`,
-- `__packet_as_unreliable_and_sendout`, `__transmit`, `__attempt_send`. The bandwidth field is never
-- set by the code; here it is 0. The speed meters are left out.
pub mod Drain
pub mod Frame
use p2engine.Prelude.{
  Bool, List, Option, [], false, if◌then◌else◌, leb, length, ltb, max, min, none, not, some, true,
  ℕ, ◌%◌, ◌&&◌, ◌*◌, ◌++◌, ◌+◌, ◌-◌, ◌/◌, ◌==◌, ◌^◌, ◌||◌, ◌∷◌,
}
use p2engine.Urdp.Flow.{
  Flow, SSegment, SUnraliableSegment, Sender, add32, mod_less, mod_minus_ge, sub32, time32,
}
use p2engine.Urdp.Types.{
  Ctrl, Header, SendFlags, ack, at_least, delayed_ack, established, immediate_ack, is_connect,
  none_flag, scape_zero, sent, sent_unreliable, u16_mod, u32_mod, u8_mod,
}

abbrev pub token_id : Flow → ℕ
token_id f = elim f.token [ none ↦ 0 | some id ↦ id ]

-- The fields that both kinds of packet share.
unfoldable pub basic_header : Ctrl → Flow → Header
basic_header ctrl f = record {
  control = ctrl;
  peer_id = (if is_connect ctrl then token_id f else f.remote_peer_id) % 2 ^ 24;
  lostrate_recving = f.lostrate % u8_mod;
  id_for_lost_detect = f.id_for_lost_rate;
  session_id = f.session_id;
  bandwidth_recving = 0;
  window = min f.rcv_wnd 0xffff;
  time_sending = 0;
  time_echo = 0;
  seqno = 0;
  ackno = 0;
}

unfoldable pub reliable_header : ℕ → Ctrl → ℕ → Flow → Header
unfolding basic_header scape_zero
reliable_header seq ctrl now f = record (basic_header ctrl f) {
  time_sending = scape_zero (time32 now) % u16_mod;
  time_echo = (f.t_recent + now % u16_mod + u16_mod - f.t_recent_now) % u16_mod;
  seqno = seq;
  ackno = f.rcv_nxt;
}

-- An empty list stands for no data.
unfoldable pub packet_as_reliable_and_sendout : ℕ → Ctrl → List ℕ → ℕ → Flow → Flow
unfolding reliable_header
packet_as_reliable_and_sendout seq ctrl bytes now f = record f {
  unr = record (f.unr) { id_for_lost_rate = (f.id_for_lost_rate + 1) % u8_mod };
  rcv = record (f.rcv) { lastack = f.rcv_nxt };
  tim = record (f.tim) { t_ack = 0; t_lasttraffic = time32 now; t_lastsend = time32 now };
  out = sent f.remote_endpoint (reliable_header seq ctrl now f) bytes ∷ f.out;
}

-- The segment that the code updates in place is a result.
unfoldable pub packet_as_unreliable_and_sendout :
    SUnraliableSegment → ℕ → Flow → SUnraliableSegment × Flow
unfolding basic_header
packet_as_unreliable_and_sendout seg now f = (
  record seg {
    remain_xmit = seg.remain_xmit - 1;
    timeout = add32 (time32 now) (f.random f.draws 10 30);
  },
  record f {
    unr = record (f.unr) { id_for_lost_rate = (f.id_for_lost_rate + 1) % u8_mod };
    tim = record (f.tim) { t_lasttraffic = time32 now; t_lastsend = time32 now };
    draws = f.draws + 1;
    out =
        sent_unreliable f.remote_endpoint (basic_header seg.control f) seg.pkt_id seg.msg_type
          seg.buf
        ∷ f.out;
  },
)

-- The tests on `int8_t xmit`, kept as its pattern.
abbrev pub xmit_ge : ℕ → ℕ → Bool
xmit_ge x k = leb k x && ltb x 128

abbrev pub xmit_le : ℕ → ℕ → Bool
xmit_le x k = leb x k || leb 128 x

-- Whether `__transmit` gives up: sent too often, and nothing heard for ten seconds.
unfoldable pub exhausted : SSegment → ℕ → Flow → Bool
exhausted seg now f =
    xmit_ge seg.xmit (if at_least f.state established then 8 else 16)
    && mod_minus_ge (time32 now) f.t_lastrecv 10000

-- The sends of one transmission: two at first, before the flow is established.
unfoldable pub transmit_packets : SSegment → ℕ → Flow → Flow
unfolding packet_as_reliable_and_sendout
transmit_packets seg now f =
    let g = packet_as_reliable_and_sendout seg.seq seg.ctrl_type seg.buf now f in
    if not (at_least f.state established) && xmit_le seg.xmit 1
    then packet_as_reliable_and_sendout seg.seq seg.ctrl_type seg.buf now g
    else g

-- What `__transmit` does to the counters once the packets are out.
unfoldable pub mark_transmitted : SSegment → ℕ → Flow → Flow
unfolding scape_zero
mark_transmitted seg now f = record f {
  snd = record (f.snd) {
    snd_nxt = if seg.xmit == 0 then add32 f.snd_nxt (length seg.buf) else f.snd_nxt;
  };
  tim = record (f.tim) {
    t_rto_base = if f.t_rto_base == 0 then scape_zero (time32 now) else f.t_rto_base;
  };
}

-- `__transmit` on a segment; `none` where it returns false. The segment comes back updated.
unfoldable pub transmit : SSegment → ℕ → Flow → Option (SSegment × Flow)
unfolding exhausted transmit_packets mark_transmitted
transmit seg now f =
    if exhausted seg now f
    then none
    else some (
      record seg { xmit = (seg.xmit + 1) % u8_mod },
      mark_transmitted seg now (transmit_packets seg now f),
    )

-- `__transmit(m_retrans_slist.begin(), now)`: the flow, and the result. On an empty list the code
-- would follow an invalid iterator.
unfoldable pub retransmit_oldest : ℕ → Flow → Flow × Bool
unfolding transmit
retransmit_oldest now f = elim f.retrans_slist [
  | [] ↦ (record f { fault = true }, true)
  | seg ∷ rest ↦ elim (transmit seg now f) [
    | none ↦ (f, false)
    | some (seg', g) ↦ (record g { snd = record (g.snd) { retrans_slist = seg' ∷ rest } }, true)
  ]
]

-- What `__attempt_send` works out of the windows in each round.
unfoldable pub available : Sender → ℕ
available s =
    let cwnd =
      if (s.dup_acks == 1) || (s.dup_acks == 2)
      then add32 s.cwnd (s.dup_acks * s.mss % u32_mod)
      else s.cwnd in
    let window = min s.snd_wnd cwnd in
    let in_flight = sub32 s.snd_nxt s.snd_una in
    let useable = if ltb in_flight window then window - in_flight else 0 in
    let avail = min (sub32 s.slen in_flight) s.mss in
    if ltb useable avail
    then (if ltb (useable * 4 % u32_mod) window && ltb useable s.mss then 0 else useable)
    else avail

-- The test `immediateAck`.
unfoldable pub immediate : Sender → Bool
unfolding available
immediate s = (available s == 0) || mod_less s.snd_una s.snd_nxt && ltb (available s) s.mss

-- The end of the loop, when no segment waits: an acknowledgement, now or later.
unfoldable pub send_ack : SendFlags → ℕ → Flow → Flow
unfolding immediate packet_as_reliable_and_sendout scape_zero
send_ack immediate_ack now f = packet_as_reliable_and_sendout f.snd_nxt ack [] now f
send_ack none_flag now f =
    if immediate f.snd && not (f.t_ack == 0)
    then packet_as_reliable_and_sendout f.snd_nxt ack [] now f
    else f
send_ack delayed_ack now f =
    if immediate f.snd && not (f.t_ack == 0)
    then packet_as_reliable_and_sendout f.snd_nxt ack [] now f
    else record f { tim = record (f.tim) { t_ack = scape_zero (time32 now) } }

-- `m_retrans_slist.push_back(m_slist.front()); m_slist.pop_front()`.
unfoldable pub shift : SSegment → List SSegment → Flow → Flow
shift seg rest f = record f {
  snd = record (f.snd) { slist = rest; retrans_slist = f.retrans_slist ++ (seg ∷ []) };
}

-- The loop of `__attempt_send`, over `m_slist`.
unfoldable pub send_loop : List SSegment → SendFlags → ℕ → Flow → Flow
unfolding send_ack transmit shift
send_loop [] flags now f = send_ack flags now f
send_loop (seg ∷ rest) flags now f = elim (transmit seg now f) [
  | none ↦ f
  | some (seg', g) ↦ send_loop rest none_flag now (shift seg' rest g)
]

-- The congestion window shrinks after a pause longer than the retransmission timeout.
unfoldable pub decay_cwnd : ℕ → Flow → Flow
decay_cwnd now f =
    if mod_minus_ge (time32 now) f.t_lastsend (f.rto + 1)
    then record f { snd = record (f.snd) { cwnd = max (2 * f.mss) (f.cwnd / 2) } }
    else f

unfoldable pub attempt_send : SendFlags → ℕ → Flow → Flow
unfolding decay_cwnd send_loop
attempt_send flags now f = let g = decay_cwnd now f in send_loop g.slist flags now g
