-- ===== src/Trdp/Connect.antt =====
-- How a flow of src/rdp/trdp_flow.cpp comes to be connected: `waiting_domain` and `accept` on the
-- side that is called, `connect` and its coroutines on the side that calls. Each coroutine is cut at
-- its asynchronous operations.
pub mod Handshake
pub mod Retry
use p2engine.Prelude.{
  Bool, List, Option, [], false, if◌then◌else◌, length, ltb, none, not, some, true, ℕ, ◌%◌, ◌+◌,
  ◌==◌, ◌||◌, ◌∷◌,
}
use p2engine.Trdp.Flow.{
  Opening, TcpApp, TcpFlow, cancel_conn_timer, is_cancelled, is_over, next_tcp_stamp, put, reopen,
  set_conn_timer, tcp_close, tcp_open, tell, to_close_state,
}
use p2engine.Trdp.Receive.{fill, length_field, recreated, tcp_keep_async_receiving}
use p2engine.Trdp.Types.{
  SysError, accept_pkt, call_do_close, call_to_close_state, conn_pkt, connect_in_progress,
  connect_refused, in_phase, is_error, no_error, packet_code, peer_timed_out, post_allert_connected,
  st_closed, st_connected, st_connecting, st_init, st_opened, start_connect_to, start_read_domain,
  start_read_domain_length, start_read_reply, start_request, start_resolve, start_write,
  tell_accepted, tell_connected,
}
use p2engine.Urdp.Format.{bytes16}
use p2engine.Urdp.Types.{accept_flow, on_connected, u16_mod}

-- `accept` after the timer is cancelled.
unfoldable pub accept_now : SysError → TcpFlow → TcpFlow
accept_now ec f =
    let reply = bytes16 2 (f.id_for_lost_rate ∷ packet_code accept_pkt ∷ []) in
    if in_phase f.state st_closed
    then f
    else if is_error ec
    then tcp_close f
    else put (start_write reply false f.op_cancel)
        (record f { life = record (f.life) { state = st_connected } })

-- `accept`.
unfoldable pub tcp_accept : SysError → TcpFlow → TcpFlow
tcp_accept ec f = accept_now ec (cancel_conn_timer false f)

-- `waiting_domain`, and its coroutine up to the first read.
unfoldable pub waiting_domain : TcpFlow → TcpFlow
waiting_domain f =
    let g = set_conn_timer call_do_close 5 f in
    if is_cancelled g g.op_stamp then g else put (start_read_domain_length g.op_stamp) g

unfoldable pub read_domain : ℕ → TcpFlow → TcpFlow
read_domain len f =
    if ltb len 2
    then tcp_close f
    else put (start_read_domain len f.op_stamp)
        (record f { rx = record (f.rx) { recv_buf = recreated len } })

-- The length of the request was read.
unfoldable pub domain_length_read : SysError → List ℕ → ℕ → TcpFlow → TcpFlow
domain_length_read ec bytes stamp f =
    let g : TcpFlow = record f { rx = record (f.rx) { header_buf = fill bytes f.header_buf } } in
    if is_cancelled g stamp
    then g
    else if is_error ec || not (length bytes == 2)
    then tcp_close g
    else read_domain (length_field g.header_buf) g

-- The acceptor for a domain is asked of the shared layer, which is `none` when it is gone.
unfoldable pub offer_flow : TcpApp → Option (List ℕ → Bool) → List ℕ → TcpFlow → TcpFlow
offer_flow app none domain f = f
offer_flow app (some has_acceptor) domain f =
    if has_acceptor domain
    then app.accept_flow (put tell_accepted (tcp_accept no_error f))
    else tcp_accept connect_refused f

-- The request is a number, a type and the domain.
unfoldable pub take_request : TcpApp → Option (List ℕ → Bool) → List ℕ → TcpFlow → TcpFlow
take_request app layer (id ∷ type ∷ domain) f =
    let g : TcpFlow = record f { rx = record (f.rx) { recv_buf = domain } } in
    if type == packet_code conn_pkt then offer_flow app layer domain g else tcp_close g
take_request app layer _ f = tcp_close f

-- The request was read.
unfoldable pub domain_read :
    TcpApp → Option (List ℕ → Bool) → SysError → List ℕ → ℕ → TcpFlow → TcpFlow
domain_read app layer ec bytes stamp f =
    let g : TcpFlow = record f { rx = record (f.rx) { recv_buf = fill bytes f.recv_buf } } in
    if is_cancelled g stamp
    then g
    else if is_error ec || not (length bytes == length g.recv_buf)
    then tcp_close g
    else take_request app layer g.recv_buf g

unfoldable pub start_connecting : ℕ → List ℕ → ℕ → TcpFlow → TcpFlow
start_connecting address rest stamp f =
    put (start_connect_to address f.remote_port rest stamp)
      (record f { peer = record (f.peer) { remote_address = address } })

-- `__async_resolve_connect_coro` up to its first operation, with a name to resolve or without.
unfoldable pub resolve_or_connect : Bool → ℕ → TcpFlow → TcpFlow
resolve_or_connect by_name stamp f =
    let g = set_conn_timer (call_to_close_state peer_timed_out stamp) 10 f in
    if is_over f stamp
    then f
    else if by_name
    then put (start_resolve stamp) g
    else start_connecting g.remote_address [] stamp g

-- The name was resolved.
unfoldable pub name_resolved : TcpApp → SysError → List ℕ → ℕ → TcpFlow → TcpFlow
name_resolved app ec [] stamp f = if is_over f stamp then f else to_close_state app ec stamp f
name_resolved app ec (address ∷ rest) stamp f =
    if is_over f stamp
    then f
    else if is_error ec
    then to_close_state app ec stamp f
    else start_connecting address rest stamp f

-- `__domain_request_coro` up to its first operation.
unfoldable pub request_domain : ℕ → TcpFlow → TcpFlow
request_domain stamp f =
    let g = set_conn_timer (call_to_close_state peer_timed_out stamp) 6 f in
    if is_over f stamp then f else put (start_request g.domain stamp) g

-- The next address, on a new socket.
unfoldable pub retry_connect : TcpApp → Opening → ℕ → List ℕ → ℕ → TcpFlow → TcpFlow
retry_connect app o address rest stamp f =
    let made = reopen o (record f { life = record (f.life) { socket_open = false } }) in
    let g = set_conn_timer (call_to_close_state peer_timed_out stamp) 6 made.0 in
    if is_error made.1
    then to_close_state app made.1 stamp made.0
    else start_connecting address rest stamp g

-- The attempt to connect failed, with these addresses left.
unfoldable pub connect_failed : TcpApp → Opening → SysError → List ℕ → ℕ → TcpFlow → TcpFlow
connect_failed app o ec [] stamp f = to_close_state app ec stamp f
connect_failed app o ec (address ∷ rest) stamp f = retry_connect app o address rest stamp f

-- The attempt to connect is over.
unfoldable pub connect_done : TcpApp → Opening → SysError → List ℕ → ℕ → TcpFlow → TcpFlow
connect_done app o ec rest stamp f =
    if is_over f stamp
    then f
    else if is_error ec
    then connect_failed app o ec rest stamp f
    else request_domain stamp (cancel_conn_timer true f)

-- The request was sent.
unfoldable pub request_sent : TcpApp → SysError → ℕ → TcpFlow → TcpFlow
request_sent app ec stamp f =
    if is_over f stamp
    then f
    else if is_error ec
    then to_close_state app ec stamp f
    else put (start_read_reply stamp) f

unfoldable pub is_acceptance : List ℕ → Bool
is_acceptance (a ∷ b ∷ c ∷ type ∷ rest) = type == packet_code accept_pkt
is_acceptance _ = false

-- The peer accepted.
unfoldable pub now_connected : TcpApp → TcpFlow → TcpFlow
now_connected app f =
    let g = cancel_conn_timer true (record f { life = record (f.life) { state = st_connected } }) in
    if g.connection
    then tell (tell_connected no_error) (app.on_connected no_error) (tcp_keep_async_receiving g)
    else g

-- The reply was read.
unfoldable pub reply_read : TcpApp → SysError → List ℕ → ℕ → TcpFlow → TcpFlow
reply_read app ec bytes stamp f =
    let g : TcpFlow = record f { rx = record (f.rx) { header_buf = fill bytes f.header_buf } } in
    if is_over g stamp
    then g
    else if is_error ec
    then to_close_state app ec stamp g
    else if not (length bytes == 4) || not (is_acceptance g.header_buf)
    then to_close_state app connect_refused stamp g
    else now_connected app g

-- The first lines of `connect`: the flow is opened if it is not.
unfoldable pub open_for_connect : Opening → TcpFlow → TcpFlow × SysError
open_for_connect o f =
    if in_phase f.state st_init || in_phase f.state st_closed
    then tcp_open o (0, 0) f
    else if in_phase f.state st_opened
    then (f, no_error)
    else (f, connect_in_progress)

-- The request that `connect` prepares.
unfoldable pub connecting_to : List ℕ → TcpFlow → TcpFlow
connecting_to name f = record f {
  life = record (f.life) { state = st_connecting };
  peer = record (f.peer) {
    domain =
        bytes16 ((2 + length name) % u16_mod) (f.id_for_lost_rate ∷ packet_code conn_pkt ∷ name);
  };
}

-- Whether `connect` knows the address; its port is 0 if it does not.
unfoldable pub start_to : ℕ → ℕ → TcpFlow → TcpFlow
start_to address port f =
    if port == 0
    then resolve_or_connect true f.op_stamp f
    else resolve_or_connect false f.op_stamp
        (record f { peer = record (f.peer) { remote_address = address; remote_port = port } })

-- `connect` to an endpoint.
unfoldable pub tcp_connect : Opening → ℕ → ℕ → List ℕ → TcpFlow → TcpFlow
tcp_connect o address port name f =
    let made = open_for_connect o f in
    let g : TcpFlow = record (made.0) { life = next_tcp_stamp made.0.life } in
    if is_error made.1
    then put (post_allert_connected made.1 g.op_stamp) g
    else start_to address port (connecting_to name g)

-- `connect` to a host, with the address that its name spells if it is one.
unfoldable pub tcp_connect_host : Opening → List ℕ → Option ℕ → ℕ → List ℕ → TcpFlow → TcpFlow
tcp_connect_host o host (some address) port name f =
    tcp_connect o address (port % u16_mod) name (record f {
      peer = record (f.peer) { remote_address = address; remote_port = port % u16_mod };
    })
tcp_connect_host o host none port name f =
    tcp_connect o 0 0 name
      (record f { peer = record (f.peer) { remote_host = host; remote_port = port % u16_mod } })
