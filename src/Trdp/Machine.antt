-- ===== src/Trdp/Machine.antt =====
-- A flow of src/rdp/trdp_flow.cpp in its surroundings: what can happen to it. These are the calls of
-- the application, the completions of the operations that it started, its timers, and the calls
-- that it posted.
pub mod Silent
pub mod Closed
use p2engine.Prelude.{Bool, List, Option, [], false, none, some, true, ℕ, ◌∷◌}
use p2engine.Trdp.Connect.{
  connect_done, domain_length_read, domain_read, name_resolved, reply_read, request_sent,
  tcp_connect,
}
use p2engine.Trdp.Flow.{
  Opening, TcpApp, TcpFlow, block_receiving, tcp_allert_connected, tcp_close, to_close_state,
}
use p2engine.Trdp.Receive.{data_read, header_read, tcp_keep_async_receiving}
use p2engine.Trdp.Send.{
  handle_sent_packet, tcp_ping, tcp_ping_interval, tcp_send_reliable, tcp_send_semireliable,
  tcp_send_unreliable,
}
use p2engine.Trdp.Types.{ConnTimer, SysError, TimerCall, call_do_close, call_to_close_state}
use p2engine.Urdp.Types.{bound}

-- A completion carries its error, what it brings, and the stamp that it was started with.
pub data TcpEvent : Type 0 where
  tcp_connects : Opening → ℕ → ℕ → List ℕ → TcpEvent
  tcp_sends : Bool → List ℕ → ℕ → TcpEvent
  tcp_sends_unreliable : List ℕ → ℕ → TcpEvent
  tcp_pings tcp_receives tcp_blocks tcp_closes : TcpEvent
  tcp_sets_interval : ℕ → TcpEvent
  write_done : SysError → Bool → ℕ → TcpEvent
  header_done data_done : SysError → List ℕ → ℕ → TcpEvent
  domain_length_done domain_done : SysError → List ℕ → ℕ → TcpEvent
  resolve_done : SysError → List ℕ → ℕ → TcpEvent
  connection_done : Opening → SysError → List ℕ → ℕ → TcpEvent
  request_done : SysError → ℕ → TcpEvent
  reply_done : SysError → List ℕ → ℕ → TcpEvent
  conn_timer_fires ping_timer_fires : TcpEvent
  close_state_posted connected_posted : SysError → ℕ → TcpEvent

unfoldable pub run_timer_call : TcpApp → TimerCall → TcpFlow → TcpFlow
run_timer_call app call_do_close f = tcp_close f
run_timer_call app (call_to_close_state ec stamp) f = to_close_state app ec stamp f

-- A timer that waits calls what is bound.
unfoldable pub fire : TcpApp → Option ℕ → Option TimerCall → TcpFlow → TcpFlow
fire app (some seconds) (some call) f = run_timer_call app call f
fire app _ _ f = f

-- The connection timer, if it is there; it no longer waits.
unfoldable pub on_conn_timer : TcpApp → Option ConnTimer → TcpFlow → TcpFlow
on_conn_timer app none f = f
on_conn_timer app (some t) f =
    fire app t.waiting t.bound
      (record f { life = record (f.life) { conn_timer = some (record t { waiting = none }) } })

-- `__do_ping`, of the ping timer, if that is there and was started.
unfoldable pub on_ping_timer : ℕ → Option (Option ℕ) → TcpFlow → TcpFlow
on_ping_timer now (some (some interval)) f = (tcp_ping now f).0
on_ping_timer now _ f = f

-- One event, at a time; `layer` is what the shared layer has when the flow asks.
unfoldable pub tcp_step : TcpApp → Option (List ℕ → Bool) → ℕ → TcpEvent → TcpFlow → TcpFlow
tcp_step app layer now (tcp_connects o address port name) f = tcp_connect o address port name f
tcp_step app layer now (tcp_sends true bytes t) f = tcp_send_reliable now bytes t f
tcp_step app layer now (tcp_sends false bytes t) f = tcp_send_semireliable now bytes t f
tcp_step app layer now (tcp_sends_unreliable bytes t) f = tcp_send_unreliable now bytes t f
tcp_step app layer now tcp_pings f = (tcp_ping now f).0
tcp_step app layer now tcp_receives f = tcp_keep_async_receiving f
tcp_step app layer now tcp_blocks f = block_receiving f
tcp_step app layer now tcp_closes f = tcp_close f
tcp_step app layer now (tcp_sets_interval t) f = tcp_ping_interval t f
tcp_step app layer now (write_done ec alert stamp) f = handle_sent_packet app now ec alert stamp f
tcp_step app layer now (header_done ec bytes stamp) f = header_read app ec bytes stamp f
tcp_step app layer now (data_done ec bytes stamp) f = data_read app now ec bytes stamp f
tcp_step app layer now (domain_length_done ec bytes stamp) f = domain_length_read ec bytes stamp f
tcp_step app layer now (domain_done ec bytes stamp) f = domain_read app layer ec bytes stamp f
tcp_step app layer now (resolve_done ec addresses stamp) f = name_resolved app ec addresses stamp f
tcp_step app layer now (connection_done o ec rest stamp) f = connect_done app o ec rest stamp f
tcp_step app layer now (request_done ec stamp) f = request_sent app ec stamp f
tcp_step app layer now (reply_done ec bytes stamp) f = reply_read app ec bytes stamp f
tcp_step app layer now conn_timer_fires f = on_conn_timer app f.conn_timer f
tcp_step app layer now ping_timer_fires f = on_ping_timer now f.ping_timer f
tcp_step app layer now (close_state_posted ec stamp) f = to_close_state app ec stamp f
tcp_step app layer now (connected_posted ec stamp) f = tcp_allert_connected app ec stamp f

unfoldable pub tcp_run : TcpApp → Option (List ℕ → Bool) → List (ℕ × TcpEvent) → TcpFlow → TcpFlow
tcp_run app layer [] f = f
tcp_run app layer ((now, event) ∷ rest) f = tcp_run app layer rest (tcp_step app layer now event f)
