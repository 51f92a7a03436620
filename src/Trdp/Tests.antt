-- ===== src/Trdp/Tests.antt =====
-- Runs of a flow over TCP at concrete values.
use p2engine.Prelude.{
  Bool, List, [], arith, false, inl, length, none, refl, some, true, ℕ, ◌++◌, ◌==◌, ◌∷◌, ◌≡◌, ◌⊎◌,
}
use p2engine.Trdp.Connect.{
  connect_done, connecting_to, domain_length_read, domain_read, now_connected, offer_flow,
  reply_read, tcp_accept,
}
use p2engine.Trdp.Connect.Handshake.{reply_accepted, request_known, request_read}
use p2engine.Trdp.Connect.Retry.{retry_is_lost}
use p2engine.Trdp.Flow.{
  Opening, TcpApp, TcpFlow, TcpRtt, cancel_all, init_tcp, is_cancelled, is_over, new_tcp,
  next_tcp_stamp, put, raw_tcp, tcp_close, to_close_state,
}
use p2engine.Trdp.Machine.{
  TcpEvent, close_state_posted, data_done, domain_done, ping_timer_fires, tcp_run, tcp_sends,
  write_done,
}
use p2engine.Trdp.Machine.Closed.{closed_is_silent}
use p2engine.Trdp.Machine.Silent.{calls}
use p2engine.Trdp.Receive.{data_read, fill, header_read, next_unless_blocked}
use p2engine.Trdp.Receive.Echo.{data_known, receive_sent}
use p2engine.Trdp.Receive.Ping.{ping_measures, time_packet, two_reads}
use p2engine.Trdp.Rtt.{update_rtt}
use p2engine.Trdp.Rtt.Bounds.{IsSmall, update_rtt-bounds}
use p2engine.Trdp.Send.{
  handle_sent_packet, is_current, packet_head, push_packet, queued_packet, tcp_ping, tcp_send,
  tcp_send_reliable, waited_too_long,
}
use p2engine.Trdp.Send.Fifo.{taken_on}
use p2engine.Trdp.Send.Order.{
  IsFlowing, handle_sent-IsFlowing, handle_sent-next, send-IsFlowing, send_first, skip_numbers,
  told_writeable,
}
use p2engine.Trdp.Send.Refinement.{messages_in_order}
use p2engine.Trdp.Send.Steps.{SendEvent, completes, run_sends, submits, submits_ping}
use p2engine.Trdp.Types.{
  ConnTimer, SendElement, accept_pkt, call_do_close, connect_aborted, data_pkt, no_error,
  packet_code, peer_timed_out, ping_pkt, pong_pkt, st_closed, st_connected, st_connecting,
  start_read_data, start_read_header, start_write, system_error, tell_received,
}
use p2engine.Urdp.Format.{bytes16}
use p2engine.Wrap.{wrappable_less_equal}

-- An application that keeps still, and one that sends whenever it may.
abbrev quiet : TcpApp
quiet = record {
  on_connected = λ ec f. f;
  on_disconnected = λ ec f. f;
  on_received = λ bytes f. f;
  on_writeable = λ f. f;
  accept_flow = λ f. f;
}

abbrev eager : TcpApp
eager = record quiet { on_writeable = λ f. tcp_send_reliable 5 (9 ∷ []) 7 f }

abbrev fresh : TcpFlow
fresh = new_tcp 0 1 true

-- A flow that is connected, with two packets in its queue, the first of them too old.
abbrev old_packet : SendElement
old_packet = record { buf = 1 ∷ []; out_time = some 100; msg_type = 3; alert_writable = false }

abbrev kept_packet : SendElement
kept_packet = record { buf = 2 ∷ []; out_time = none; msg_type = 4; alert_writable = true }

abbrev running : TcpFlow
running = record fresh {
  life = record (fresh.life) { state = st_connected; connection = true };
  tx = record (fresh.tx) { sending = true; send_bufs = old_packet ∷ kept_packet ∷ [] };
  rx = record (fresh.rx) { is_recv_blocked = false };
}

handle_sent-next_example :
    handle_sent_packet eager 1000 no_error true 1 running
    ≡ send_first
        (kept_packet ∷ queued_packet 5 (9 ∷ []) true (some 7) ∷ [])
        (skip_numbers 1 (told_writeable eager true running))
unfolding new_tcp init_tcp raw_tcp next_tcp_stamp cancel_all is_over is_cancelled
    wrappable_less_equal tcp_send_reliable tcp_send push_packet is_current waited_too_long
handle_sent-next_example = handle_sent-next eager 1000 true 1 running refl refl refl refl

handle_sent-IsFlowing_example : IsFlowing (handle_sent_packet eager 1000 no_error true 1 running)
unfolding new_tcp init_tcp raw_tcp next_tcp_stamp cancel_all is_over is_cancelled
    wrappable_less_equal tcp_send_reliable tcp_send push_packet waited_too_long
handle_sent-IsFlowing_example = handle_sent-IsFlowing eager 1000 true 1 running refl refl refl

send-IsFlowing_example : IsFlowing (tcp_send 1000 (5 ∷ []) data_pkt true none false running)
send-IsFlowing_example = send-IsFlowing 1000 (5 ∷ []) data_pkt true none running (inl refl)

-- A message of two bytes and type 3.
receive_sent_example :
    data_read quiet 50 no_error
      (17 ∷ 101 ∷ 0 ∷ 3 ∷ 8 ∷ 9 ∷ [])
      1
      (header_read quiet no_error (0 ∷ 6 ∷ []) 1 running)
    ≡ next_unless_blocked 1
        (put (tell_received (0 ∷ 3 ∷ 8 ∷ 9 ∷ [])) (data_known 3 (8 ∷ 9 ∷ []) 1 running))
unfolding new_tcp init_tcp raw_tcp next_tcp_stamp cancel_all is_over is_cancelled
    wrappable_less_equal packet_head
receive_sent_example =
    receive_sent quiet 50 17 3 (8 ∷ 9 ∷ []) 1 running (omega arith) refl refl refl

-- A running flow with nothing to send.
abbrev at_rest : TcpFlow
at_rest = record running {
  life = record (running.life) { socket_open = true };
  tx = record (running.tx) { sending = false; send_bufs = [] };
}

ping_measures_example :
    ((tcp_ping 70000 at_rest).0.trace
      ≡ start_write (time_packet 1 ping_pkt 70000) false 1 ∷ at_rest.trace)
    × ((two_reads quiet 70030 (time_packet 1 ping_pkt 70000) 1 at_rest).trace
        ≡ start_read_header 1
          ∷ start_write (time_packet 1 pong_pkt 70000) false 1
          ∷ start_read_data 10 1
          ∷ at_rest.trace)
    × ((two_reads quiet 70050 (time_packet 1 pong_pkt 70000) 1 running).times
        ≡ update_rtt 70050 70000 running.times)
unfolding new_tcp init_tcp raw_tcp next_tcp_stamp cancel_all is_over is_cancelled
    wrappable_less_equal
ping_measures_example =
    ping_measures quiet 70000 70030 70050 1 1 at_rest at_rest running (omega arith) refl refl refl
      refl refl refl refl refl refl refl refl

-- The estimate after one sample of 50 ms.
abbrev estimate : TcpRtt
estimate = record { srtt = 50; rttvar = 25; rto = 100 }

update_rtt-bounds_example :
    IsSmall (update_rtt 70090 70000 estimate)
    × (((update_rtt 70090 70000 estimate).rto ≡ estimate.rto)
        ⊎ ((update_rtt 70090 70000 estimate).rto ≡ 100))
update_rtt-bounds_example = update_rtt-bounds 70090 70000 estimate (omega arith, omega arith)

-- What comes after the application closed a running flow.
abbrev late : List (ℕ × TcpEvent)
late =
    (2000, write_done no_error true 1)
    ∷ (2001, data_done no_error (1 ∷ 101 ∷ 5 ∷ []) 1)
    ∷ (2002, domain_done no_error (1 ∷ 97 ∷ []) 1)
    ∷ (2003, ping_timer_fires)
    ∷ (2004, close_state_posted connect_aborted 1)
    ∷ (2005, tcp_sends true (4 ∷ []) 2)
    ∷ []

closed_is_silent_example :
    ((tcp_run eager none late (tcp_close running)).state ≡ st_closed)
    × (calls (tcp_run eager none late (tcp_close running)).trace ≡ calls running.trace)
unfolding new_tcp init_tcp raw_tcp next_tcp_stamp cancel_all is_over is_cancelled
    wrappable_less_equal
closed_is_silent_example = closed_is_silent eager none late running refl

-- A flow that has asked for a connection, at its first stamp.
abbrev asking : TcpFlow
asking = record fresh {
  life = record (fresh.life) { state = st_connecting; connection = true; is_passive = false };
}

abbrev opening : Opening
opening = record { drawn_id = 8; opened = no_error; bound_to = no_error }

retry_is_lost_example :
    (let g = connect_done eager opening (system_error 111) (5 ∷ []) 1 asking in
      (g.connection ≡ false)
      × (calls g.trace ≡ calls asking.trace)
      × (connect_done eager opening no_error [] 1 g ≡ g)
      × (to_close_state eager peer_timed_out 1 g ≡ g))
unfolding new_tcp init_tcp raw_tcp next_tcp_stamp cancel_all is_over is_cancelled
    wrappable_less_equal
retry_is_lost_example =
    retry_is_lost eager opening opening (system_error 111) no_error peer_timed_out 5 [] [] 1 asking
      refl refl refl

abbrev layer : List ℕ → Bool
layer name = length name == 2

request_read_example :
    domain_read quiet
      (some layer)
      no_error
      (0 ∷ 97 ∷ 120 ∷ 121 ∷ [])
      1
      (domain_length_read no_error (0 ∷ 4 ∷ []) 1 fresh)
    ≡ offer_flow quiet (some layer) (120 ∷ 121 ∷ []) (request_known (120 ∷ 121 ∷ []) fresh)
unfolding new_tcp init_tcp raw_tcp next_tcp_stamp cancel_all is_over is_cancelled
    wrappable_less_equal connecting_to
request_read_example =
    request_read quiet (some layer) (120 ∷ 121 ∷ []) 1 fresh fresh (omega arith) refl

abbrev waiting : ConnTimer
waiting = record { bound = some call_do_close; waiting = some 5 }

abbrev callee : TcpFlow
callee = record fresh { life = record (fresh.life) { conn_timer = some waiting } }

reply_accepted_example :
    (let reply = bytes16 2 (callee.id_for_lost_rate ∷ packet_code accept_pkt ∷ []) in
      ((tcp_accept no_error callee).trace ≡ start_write reply false callee.op_cancel ∷ callee.trace)
      × ((tcp_accept no_error callee).state ≡ st_connected)
      × (reply_read quiet no_error reply 1 asking
          ≡ now_connected quiet (record asking {
            rx = record (asking.rx) { header_buf = fill reply asking.header_buf };
          })))
unfolding new_tcp init_tcp raw_tcp next_tcp_stamp cancel_all is_over is_cancelled
    wrappable_less_equal
reply_accepted_example = reply_accepted quiet 1 waiting callee asking refl refl refl

-- A message, a ping and the end of the write that is under way.
abbrev sends : List (ℕ × SendEvent)
sends = (900, submits (6 ∷ 7 ∷ []) 5) ∷ (901, submits_ping) ∷ (902, completes true 1) ∷ []

messages_in_order_example :
    taken_on (run_sends quiet sends running) ≡ taken_on running ++ ((0 ∷ 5 ∷ 6 ∷ 7 ∷ []) ∷ [])
unfolding waited_too_long
messages_in_order_example =
    messages_in_order quiet sends running (λ f. refl) (record { connected = refl; queue_ok = refl })
      refl
