-- ===== src/Urdp/Process.antt =====
-- `__process` and `called_by_sharedlayer_on_recvd` of src/rdp/urdp_flow.cpp: what a flow does with a
-- datagram. The loss estimator is floating-point arithmetic and is not modelled: its two readings
-- after the datagram are arguments.
pub mod Phase
pub mod Arrival
pub mod Forward
pub mod Keeping
use p2engine.Prelude.{
  Bool, List, Option, [], false, if◌then◌else◌, leb, length, ltb, none, not, some, true, ℕ, ◌%◌,
  ◌&&◌, ◌++◌, ◌+◌, ◌/◌, ◌==◌, ◌||◌, ◌∷◌,
}
use p2engine.Urdp.Ack.{Outcome, more, process_ack, stop, update_timestamp, ◌>>=◌}
use p2engine.Urdp.Flow.{Flow, LossLevel, SSegment, add32, time32}
use p2engine.Urdp.Format.{be16, be32, bytes32, parse_reliable, parse_unreliable}
use p2engine.Urdp.Lifecycle.{
  allert_accepted, allert_connected, allert_disconnected, allert_writeable, send_fin,
}
use p2engine.Urdp.Output.{attempt_send, packet_as_reliable_and_sendout, retransmit_oldest, token_id}
use p2engine.Urdp.Queue.{queue}
use p2engine.Urdp.Reassembly.{accept_data}
use p2engine.Urdp.Receive.{allert_readable}
use p2engine.Urdp.Timer.{schedule_timer}
use p2engine.Urdp.Types.{
  Ctrl, Header, SendFlags, at_least, closed, closing, connect, connect_ack, connection_reset,
  delayed_ack, established, fin, fin_ack, host_unreachable, immediate_ack, is_connect, is_data,
  listen, network_unreachable, none_flag, punch, recv_buf_size, rst, same_state, sd_none,
  semireliable_data, snd_buf_size, success, syn_rcvd, syn_sent, u16_mod, unreliable_data,
}

-- What the estimator shows: the level of local-to-remote loss, and the header's eight bits.
pub record Readings : Type 0 where
  pub level : LossLevel
  pub bits : ℕ

-- The packet is known to be heard: `m_t_lasttraffic = m_t_lastrecv = now`.
unfoldable pub touch : ℕ → Flow → Flow
touch now f = record f {
  tim = record (f.tim) { t_lasttraffic = time32 now; t_lastrecv = time32 now };
}

-- The check of the session id and of the sender's endpoint.
unfoldable pub is_foreign : Header → ℕ → Flow → Bool
is_foreign h from f =
    at_least f.state syn_sent
    && (not (h.session_id == f.session_id)
        || at_least f.state established && not (f.remote_endpoint == from))

-- `timed_keeper_set::try_keep`: ids that have run out are dropped first.
abbrev pub drop_expired : ℕ → List (ℕ × ℕ) → List (ℕ × ℕ)
drop_expired now [] = []
drop_expired now ((k, t) ∷ r) =
    if leb t now then drop_expired now r else (k, t) ∷ drop_expired now r

abbrev pub is_kept : ℕ → List (ℕ × ℕ) → Bool
is_kept id [] = false
is_kept id ((k, t) ∷ r) = (k == id) || is_kept id r

unfoldable pub try_keep : ℕ → ℕ → ℕ → List (ℕ × ℕ) → List (ℕ × ℕ) × Bool
try_keep id period now l =
    let live = drop_expired now l in
    if is_kept id live then (live, false) else ((id, now + period) ∷ live, true)

abbrev pub is_unreliable : Ctrl → Bool
is_unreliable unreliable_data = true
is_unreliable semireliable_data = true
is_unreliable _ = false

abbrev pub is_semireliable : Ctrl → Bool
is_semireliable semireliable_data = true
is_semireliable _ = false

-- The message of an unreliable packet, if its id is not kept already; the flag tells which.
unfoldable pub keep_unreliable : ℕ → Ctrl → ℕ → List ℕ → Flow → Flow × Bool
keep_unreliable now ctrl id message f =
    let (keeper, fresh) =
      if is_semireliable ctrl then try_keep id 8000 now f.rkeeper else (f.rkeeper, true) in
    (
      record f {
        unr = record (f.unr) {
          rkeeper = keeper;
          unreliable_rlist =
              if fresh then f.unreliable_rlist ++ (message ∷ []) else f.unreliable_rlist;
        };
      },
      fresh,
    )

-- An unreliable packet, given what follows the header: its id, and the message.
unfoldable pub process_unreliable : ℕ → Ctrl → List ℕ → Flow → Flow × Bool
process_unreliable now ctrl (i0 ∷ i1 ∷ m0 ∷ m1 ∷ rest) f =
    let (g, fresh) = keep_unreliable now ctrl (be16 i0 i1) (m0 ∷ m1 ∷ rest) f in
    if not f.socket || not (same_state f.state established)
    then (f, false)
    else (if fresh then allert_readable now g else g, true)
process_unreliable now ctrl _ f = (f, false)

-- What a listening flow takes from a connection request.
unfoldable pub accept_request : ℕ → Header → List ℕ → ℕ → Flow → Flow
accept_request now h bytes from f =
    let start = add32 h.seqno (length bytes) in
    record f {
      conn = record (f.conn) {
        state = syn_rcvd;
        remote_peer_id = h.peer_id;
        session_id = h.session_id;
        remote_endpoint = from;
      };
      rcv = record (f.rcv) { rcv_nxt = start; lastack = start };
      tim = record (f.tim) { t_recent = h.time_sending; t_recent_now = now % u16_mod };
    }

-- A connection request reaches a listening flow.
unfoldable pub on_connect : ℕ → Header → List ℕ → ℕ → Flow → Flow
on_connect now h bytes from f =
    let g = accept_request now h bytes from f in
    schedule_timer now
      (attempt_send immediate_ack now (queue (bytes32 (token_id g) []) connect_ack (touch now g)))

-- The first four bytes of the answer are the id that the peer listens under.
unfoldable pub take_answer : Header → List ℕ → Flow → Outcome (Flow × Bool)
take_answer h (a ∷ b ∷ c ∷ d ∷ rest) f = more (
  record f {
    conn = record (f.conn) { remote_peer_id = be32 a b c d; state = established };
    rcv = record (f.rcv) { rcv_nxt = h.seqno; lastack = h.seqno };
  },
  true,
)
take_answer h _ f = stop f false

-- The answer to a connection request. `more true` stands for `notifyConnected`.
unfoldable pub on_connect_ack : Header → List ℕ → Flow → Outcome (Flow × Bool)
on_connect_ack h bytes f =
    if same_state f.state syn_sent
    then (if not (h.session_id == f.session_id) then stop f false else take_answer h bytes f)
    else more (f, false)

-- A request that waits alone goes out again, as if for the second time.
unfoldable pub punch_again : ℕ → List SSegment → Flow → Flow
punch_again now (seg ∷ []) f =
    if is_connect seg.ctrl_type
    then (retransmit_oldest now
        (record f { snd = record (f.snd) { retrans_slist = record seg { xmit = 1 } ∷ [] } })).0
    else f
punch_again now _ f = f

-- A punch packet: the peer is where it came from, and a waiting request goes out again.
unfoldable pub on_punch : ℕ → ℕ → Flow → Flow
on_punch now from f =
    let g = touch now (record f { conn = record (f.conn) { remote_endpoint = from } }) in
    punch_again now g.retrans_slist g

unfoldable pub lost_by_peer : Flow → Flow
lost_by_peer f = record f { conn = record (f.conn) { disconn_remote = true } }

unfoldable pub on_unreachable : ℕ → Header → Flow → Flow
on_unreachable now h f =
    if h.session_id == f.session_id
    then (if same_state f.state syn_sent
        then allert_connected host_unreachable now f
        else allert_disconnected connection_reset (lost_by_peer f))
    else f

-- The `switch` on the control byte; the flag is `notifyConnected`, and `shouldImediateAck` with it.
unfoldable pub dispatch : ℕ → Header → List ℕ → ℕ → Ctrl → Flow → Outcome (Flow × Bool)
dispatch now h bytes from network_unreachable f = stop (on_unreachable now h f) true
dispatch now h bytes from connect f =
    stop (if same_state f.state listen then on_connect now h bytes from f else f) true
dispatch now h bytes from connect_ack f = on_connect_ack h bytes f
dispatch now h bytes from punch f = stop (on_punch now from f) true
dispatch now h bytes from rst f = stop (allert_disconnected connection_reset (lost_by_peer f)) true
dispatch now h bytes from fin f =
    let g = lost_by_peer f in
    stop
      (allert_disconnected connection_reset
        (packet_as_reliable_and_sendout g.snd_nxt fin_ack [] now g))
      true
dispatch now h bytes from fin_ack f = stop (allert_disconnected success f) true
dispatch now h bytes from _ f = more (f, false)

-- When the segment has to be acknowledged.
unfoldable pub ack_flags : Header → ℕ → Bool → Flow → SendFlags
ack_flags h len at_once f =
    if not (h.seqno == f.rcv_nxt) || at_once
    then immediate_ack
    else if ltb 0 len
    then delayed_ack
    else none_flag

-- Whom to tell at the end; each test is made on the flow as `__attempt_send` left it.
unfoldable pub notify : ℕ → Bool → Bool → Bool → Flow → Flow
notify now connected fresh accepted f =
    let readable = fresh && f.detect_readable in
    let writable = f.detect_writable && ltb f.slen ((snd_buf_size + recv_buf_size) / 2) in
    let f1 = if connected then allert_connected success now f else f in
    let f2 = if writable then allert_writeable now f1 else f1 in
    let f3 = if readable then allert_readable now f2 else f2 in
    if accepted then allert_accepted now f3 else f3

abbrev pub has_shutdown : Flow → Bool
has_shutdown f = elim f.shutdown [ sd_none ↦ false | _ ↦ true ]

-- The data of a segment, and what is sent for it.
unfoldable pub process_data : ℕ → Header → List ℕ → Bool → Bool → Flow → Flow
process_data now h bytes connected accepted f =
    let flags = ack_flags h (length bytes) connected f in
    let (rcv, fresh) =
      accept_data (not (is_data h.control) || has_shutdown f) h.seqno bytes f.rcv in
    let g = record f { rcv = rcv } in
    if same_state g.state closing && (h.ackno == g.snd_nxt)
    then schedule_timer now (send_fin now g)
    else notify now connected fresh accepted (attempt_send flags now g)

-- What follows the `switch`.
unfoldable pub process_segment : ℕ → Header → List ℕ → ℕ → Bool → Flow → Outcome Flow
process_segment now h bytes from connected f =
    if at_least f.state syn_sent && not (f.remote_endpoint == from) then stop f false else do
      (g, accepted) ←
          process_ack now h (length bytes) (update_timestamp now h (length bytes) (touch now f))
      more (process_data now h bytes connected accepted g)

abbrev pub finish : Outcome Flow → Flow × Bool
finish (stop f b) = (f, b)
finish (more f) = (f, true)

-- What is taken from the header of every datagram that is not foreign.
unfoldable pub note_datagram : ℕ → Header → Readings → Flow → Flow
note_datagram now h readings f =
    let g = touch now f in
    record g {
      snd = record (g.snd) { snd_wnd = h.window };
      unr = record (g.unr) { lostrate = readings.bits; loss_level = readings.level };
    }

-- A datagram with the reliable header, as parsed.
unfoldable pub process_reliable : ℕ → ℕ → Option (Header × List ℕ) → Flow → Flow × Bool
process_reliable now from none f = (f, false)
process_reliable now from (some (h, rest)) f = finish do
  (g, connected) ← dispatch now h rest from h.control f
  process_segment now h rest from connected g

-- What follows the header that both kinds of datagrams share.
unfoldable pub process_known :
    ℕ → List ℕ → ℕ → Readings → Option (Header × List ℕ) → Flow → Flow × Bool
process_known now bytes from readings none f = (f, false)
process_known now bytes from readings (some (h, rest)) f =
    if is_foreign h from f
    then (f, false)
    else if is_unreliable h.control
    then process_unreliable now h.control rest (note_datagram now h readings f)
    else process_reliable now from (parse_reliable bytes) (note_datagram now h readings f)

-- `__process`: the flow, and the result.
unfoldable pub process : ℕ → List ℕ → ℕ → Readings → Flow → Flow × Bool
process now bytes from readings f =
    if same_state f.state closed
    then (f, true)
    else process_known now bytes from readings (parse_unreliable bytes) f

-- A datagram that is refused is answered by one RST.
unfoldable pub called_by_sharedlayer_on_recvd : ℕ → List ℕ → ℕ → Readings → Flow → Flow
called_by_sharedlayer_on_recvd now bytes from readings f =
    let (g, done) = process now bytes from readings f in
    if done || g.ignore_all_pkt
    then g
    else let r = packet_as_reliable_and_sendout g.snd_nxt rst [] now g in
      record r { conn = record (r.conn) { ignore_all_pkt = true } }
