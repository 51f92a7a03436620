-- ===== src/Urdp/Api.antt =====
-- What the application calls, of src/rdp/urdp_flow.cpp: `async_connect` to an endpoint, `__send`,
-- `async_send`, and the calls that were posted. The forms with a host name go through the
-- system's resolver and are left out, as is the punch packet.
pub mod Framed
use p2engine.Prelude.{
  List, Option, [], if◌then◌else◌, is_empty, leb, length, ltb, none, not, some, suc, take, true,
  zero, ℕ, ◌%◌, ◌*◌, ◌+◌, ◌==◌, ◌||◌,
}
use p2engine.Urdp.Clock.{insert_unreliable, on_clock}
use p2engine.Urdp.Flow.{
  Flow, LossLevel, SUnraliableSegment, add32, emit, heavy, is_canceled_op, moderate, time32,
}
use p2engine.Urdp.Format.{bytes16}
use p2engine.Urdp.Init.{async_wait}
use p2engine.Urdp.Lifecycle.{allert_connected, allert_disconnected, allert_writeable}
use p2engine.Urdp.Output.{attempt_send, packet_as_unreliable_and_sendout}
use p2engine.Urdp.Queue.{queue}
use p2engine.Urdp.Receive.{async_receive, receive_fuel}
use p2engine.Urdp.Timer.{schedule_timer}
use p2engine.Urdp.Types.{
  Effect, ErrorCode, TcpState, already_connected, connect, established, idle_timeout, in_progress,
  init, none_flag, not_connected, payload, post_async_receive, post_connected, post_disconnected,
  post_on_clock, post_writeable, same_state, semireliable_data, snd_buf_size, success, syn_sent,
  u16_mod, unreliable_data, would_block,
}

-- The time-out of a connection attempt; none stands for a time-out that is infinite or not positive.
unfoldable pub connect_timeout : Option ℕ → ℕ
connect_timeout none = idle_timeout
connect_timeout (some zero) = idle_timeout
connect_timeout (some (suc n)) = suc n

-- The flow that asks for a connection: the timer waits for the time-out, and the flow closes then.
unfoldable pub start_connect : ℕ → ℕ → ℕ → Flow → Flow
start_connect remote t now f =
    let g = async_wait t now f in
    record g {
      conn = record (g.conn) { remote_endpoint = remote; active = true; state = syn_sent };
      tim = record (g.tim) { t_close_base = some (add32 (time32 now) t) };
    }

unfoldable pub async_connect : ℕ → List ℕ → Option ℕ → ℕ → Flow → Flow
async_connect remote domain time_out now f =
    let ec = if same_state f.state established then already_connected else in_progress in
    let g = start_connect remote (connect_timeout time_out) now f in
    if same_state f.state TcpState.init
    then schedule_timer now (attempt_send none_flag now (queue domain connect g))
    else emit (post_connected ec f.op_stamp) f

-- `boost::logic::tribool`, as `async_send` uses it.
pub data Reliability : Type 0 where
  reliable semireliable unreliable : Reliability

-- `__send` of a message that must arrive: its length, its type and its bytes.
unfoldable pub send_reliable : List ℕ → ℕ → ℕ → Flow → Flow × ErrorCode
send_reliable bytes msg_type now f =
    let len = length bytes % u16_mod in
    let g =
      attempt_send none_flag now
        (queue (take len bytes) payload (queue (bytes16 len (bytes16 msg_type [])) payload f)) in
    if leb snd_buf_size g.slen
    then (record g { snd = record (g.snd) { detect_writable = true } }, would_block)
    else (g, success)

-- How often a packet goes out.
unfoldable pub planned_xmit : Reliability → LossLevel → ℕ
planned_xmit semireliable heavy = 3
planned_xmit semireliable moderate = 2
planned_xmit _ _ = 1

-- The packet, and the flow with its counters moved. The time-out that the code draws here is drawn
-- again when the packet goes out.
unfoldable pub make_unreliable : Reliability → List ℕ → ℕ → Flow → SUnraliableSegment × Flow
make_unreliable how bytes msg_type f =
    let pkt = (f.unreliable_pktid + 1) % u16_mod in
    let xmit = planned_xmit how f.loss_level in
    (
      record {
        buf = bytes;
        id = f.id_seed;
        timeout = 0;
        pkt_id = pkt;
        msg_type = msg_type;
        remain_xmit = xmit;
        control = elim how [ semireliable ↦ semireliable_data | _ ↦ unreliable_data ];
      },
      record f {
        unr = record (f.unr) { unreliable_pktid = pkt; id_seed = add32 f.id_seed 1 };
        draws = if xmit == 1 then f.draws else f.draws + 1;
      },
    )

-- A packet that has transmissions left is kept.
unfoldable pub keep_packet : SUnraliableSegment → Flow → Flow
keep_packet seg f = if seg.remain_xmit == 0 then f else record f {
  unr = record (f.unr) { unreliable_slist = insert_unreliable seg f.unreliable_slist };
}

-- `__send` of a packet that may get lost.
unfoldable pub send_unreliable : Reliability → List ℕ → ℕ → ℕ → Flow → Flow × ErrorCode
send_unreliable how bytes msg_type now f =
    let (seg, g) = make_unreliable how bytes msg_type f in
    let (seg', h) = packet_as_unreliable_and_sendout seg now g in
    if ltb (2 * f.mss) (length bytes) || is_empty bytes
    then (f, success)
    else (keep_packet seg' h, success)

-- `__send` on a flow that is established.
unfoldable pub send_open : Reliability → List ℕ → ℕ → ℕ → Flow → Flow × ErrorCode
send_open reliable bytes msg_type now f = send_reliable bytes msg_type now f
send_open weaker bytes msg_type now f = send_unreliable weaker bytes msg_type now f

-- `__send`.
unfoldable pub send : Reliability → List ℕ → ℕ → ℕ → Flow → Flow × ErrorCode
send how bytes msg_type now f =
    if not f.socket || not (same_state f.state established)
    then (f, not_connected)
    else send_open how bytes msg_type now f

-- What `async_send` posts for the result of `__send`.
unfoldable pub post_send : Reliability → ErrorCode → Flow → Flow
post_send how would_block f = f
post_send reliable success f = emit (post_writeable f.op_stamp) f
post_send _ success f = f
post_send how ec f = emit (post_disconnected ec f.op_stamp) f

-- `!(!reliable)` of a third truth value is that value, which an `if` takes for false: only a reliable
-- message has the timer set.
unfoldable pub set_timer : Reliability → ℕ → Flow → Flow
set_timer reliable now f = schedule_timer now f
set_timer _ now f = f

unfoldable pub async_send : Reliability → List ℕ → ℕ → ℕ → Flow → Flow
async_send how bytes msg_type now f =
    let (g, ec) = send how bytes msg_type now f in set_timer how now (post_send how ec g)

-- A posted call runs if its stamp is not cancelled.
unfoldable pub run_posted : ℕ → Effect → Flow → Flow
run_posted now (post_connected ec stamp) f =
    if is_canceled_op f stamp then f else allert_connected ec now f
run_posted now (post_disconnected ec stamp) f =
    if is_canceled_op f stamp then f else allert_disconnected ec f
run_posted now (post_writeable stamp) f =
    if is_canceled_op f stamp then f else allert_writeable now f
run_posted now (post_async_receive stamp) f = async_receive (receive_fuel f) stamp now f
run_posted now post_on_clock f = on_clock 1 now f
run_posted now _ f = f
