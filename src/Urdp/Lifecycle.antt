-- ===== src/Urdp/Lifecycle.antt =====
-- The end of a flow and the calls into the application, of src/rdp/urdp_flow.cpp: `__to_closed_state`,
-- `__close`, `close` and the `__allert_` functions but `__allert_readable`. A call into the
-- application is an effect; what the application does in it comes as later operations.
pub mod Sending
pub mod Phase
pub mod Calls
use p2engine.Prelude.{
  Bool, List, [], false, if◌then◌else◌, is_empty, ltb, none, not, some, true, ℕ, ◌&&◌, ◌||◌, ◌∷◌,
}
use p2engine.Urdp.Flow.{Flow, add32, emit, is_canceled_op, set_cancel, time32}
use p2engine.Urdp.Output.{packet_as_reliable_and_sendout}
use p2engine.Urdp.Timer.{schedule_timer}
use p2engine.Urdp.Types.{
  ErrorCode, ShutdownMode, accept_flow, at_least, closed, closing, established, fin, on_connected,
  on_disconnected, on_received, on_writeable, post_async_receive, post_holder, rst, same_state,
  sd_forceful, sd_graceful, sd_none, snd_buf_size, success, wait_fin_ack_timeout, wating_fin_ack,
}

-- What `__to_closed_state` drops.
unfoldable pub drop_everything : Flow → Flow
drop_everything f = record f {
  conn = record (f.conn) {
    state = closed;
    token = none;
    socket = false;
    acceptor = false;
    self_holder = false;
  };
  snd = record (f.snd) { slist = []; retrans_slist = [] };
  rcv = record (f.rcv) { rlist = [] };
  tim = record (f.tim) { t_rto_base = 0; timer_idle = true };
  out = if f.self_holder then post_holder ∷ f.out else f.out;
}

unfoldable pub to_closed_state : Flow → Flow
to_closed_state f =
    let g = record f { conn = set_cancel f.conn } in
    if same_state f.state closed then g else drop_everything g

-- The mode that `__close` ends in.
unfoldable pub shutdown_mode : Bool → Flow → ShutdownMode
shutdown_mode graceful f =
    if not graceful || not (at_least f.state established) then sd_forceful else elim f.shutdown [
      | sd_none ↦ sd_graceful
      | sd_graceful ↦ sd_graceful
      | sd_forceful ↦ sd_forceful
    ]

-- The wait for the acknowledgement of a FIN begins.
unfoldable pub send_fin : ℕ → Flow → Flow
send_fin now f = packet_as_reliable_and_sendout f.snd_nxt fin [] now (record f {
  conn = record (f.conn) { state = wating_fin_ack };
  tim = record (f.tim) { t_close_base = some (add32 (time32 now) wait_fin_ack_timeout) };
})

unfoldable pub close_by_mode : ShutdownMode → ℕ → Flow → Flow
close_by_mode sd_none now f = f
close_by_mode sd_forceful now f =
    to_closed_state (packet_as_reliable_and_sendout f.snd_nxt rst [] now f)
close_by_mode sd_graceful now f =
    let g = record f { conn = record (f.conn) { state = closing } } in
    schedule_timer now (if is_empty f.retrans_slist && is_empty f.slist then send_fin now g else g)

-- `__close`.
unfoldable pub close_flow : Bool → ℕ → Flow → Flow
close_flow graceful now f =
    let mode = shutdown_mode graceful f in
    let g = record f {
      conn = record (set_cancel f.conn) { socket = false; close_called = true; shutdown = mode };
    } in
    elim f.token [
      | none ↦ to_closed_state f
      | some id ↦
          if same_state f.state closed
          then to_closed_state f
          else if f.close_called
          then f
          else close_by_mode mode now g
    ]

-- The public `close`.
unfoldable pub close : Bool → ℕ → Flow → Flow
close graceful now f =
    if is_canceled_op f f.op_stamp
    then f
    else close_flow graceful now (record f { conn = record (f.conn) { disconn_local = true } })

-- The test with which the `__allert_` functions begin.
unfoldable pub is_detached : Flow → Bool
is_detached f = not f.socket || is_canceled_op f f.op_stamp

unfoldable pub keep_async_receiving : Flow → Flow
keep_async_receiving f =
    if f.keep_recving
    then f
    else emit (post_async_receive f.op_stamp)
        (record f { conn = record (f.conn) { keep_recving = true } })

unfoldable pub block_async_receiving : Flow → Flow
block_async_receiving f = record f { conn = record (f.conn) { keep_recving = false } }

-- `set_socket`, with a pointer that is set or not.
unfoldable pub set_flow_socket : Bool → Flow → Flow
set_flow_socket sock f = record f { conn = record (f.conn) { socket = sock } }

-- The flow counts as established from now on, and the close timer is off.
unfoldable pub mark_established : ℕ → Flow → Flow
mark_established now f = record f {
  tim = record (f.tim) { establish_time = time32 now; t_close_base = none };
}

unfoldable pub allert_connected : ErrorCode → ℕ → Flow → Flow
allert_connected ec now f' =
    let f = mark_established now f' in
    if is_detached f then close_flow true now f else elim ec [
      | success ↦ emit (on_connected success) (keep_async_receiving f)
      | failure ↦ to_closed_state (emit (on_connected failure) f)
    ]

-- Whom `__allert_disconnected` tells.
unfoldable pub tell_disconnected : ErrorCode → Flow → Flow
tell_disconnected ec f =
    if f.disconn_local || same_state f.state closed
    then f
    else if at_least f.state established
    then emit (on_disconnected ec) f
    else if f.active
    then emit (on_connected ec) f
    else f

unfoldable pub allert_disconnected : ErrorCode → Flow → Flow
allert_disconnected ec f = to_closed_state (if is_detached f then f else tell_disconnected ec f)

unfoldable pub allert_writeable : ℕ → Flow → Flow
allert_writeable now f =
    if is_detached f
    then close_flow true now f
    else if ltb f.slen snd_buf_size
    then emit on_writeable (record f { snd = record (f.snd) { detect_writable = false } })
    else f

unfoldable pub allert_accepted : ℕ → Flow → Flow
allert_accepted now f =
    if is_canceled_op f f.op_stamp
    then close_flow true now f
    else let g = mark_established now f in
      if g.acceptor then emit accept_flow (keep_async_receiving g) else close true now g

unfoldable pub allert_received : List ℕ → ℕ → Flow → Flow
allert_received bytes now f =
    if is_detached f then close_flow true now f else emit (on_received bytes) f
