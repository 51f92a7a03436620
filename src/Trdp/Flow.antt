-- ===== src/Trdp/Flow.antt =====
-- The state of `trdp_flow` (p2engine/rdp/trdp_flow.hpp), in groups, its construction, and its end.
use p2engine.Prelude.{
  Bool, List, Option, [], false, if◌then◌else◌, ltb, none, some, true, ℕ, ◌&&◌, ◌==◌, ◌||◌, ◌∷◌,
}
use p2engine.Trdp.Types.{
  ConnTimer, SendElement, SysError, TcpEffect, TcpPhase, TimerCall, in_phase, is_error, no_error,
  phase_number, socket_already_open, st_closed, st_connected, st_init, st_opened, tell_connected,
  tell_disconnected_with,
}
use p2engine.Urdp.Flow.{add32, mod_less_equal}

-- The connection. `connection` says whether the pointer is set; `conn_timer` is `none` for a null
-- pointer, `ping_timer` holds the interval that it repeats, once it was started.
pub record TcpLife : Type 0 where
  pub state : TcpPhase
  pub connection : Bool
  pub is_passive : Bool
  pub socket_open : Bool
  pub conn_timer : Option ConnTimer
  pub ping_timer : Option (Option ℕ)
  pub ping_interval : ℕ
  pub flowid : ℕ
  pub op_stamp : ℕ
  pub op_cancel : ℕ

-- Where the flow connects to. `domain` is the request that `connect` makes.
pub record TcpPeer : Type 0 where
  pub remote_address : ℕ
  pub remote_port : ℕ
  pub remote_host : List ℕ
  pub domain : List ℕ
  pub local_edp : ℕ × ℕ

pub record TcpSender : Type 0 where
  pub send_bufs : List SendElement
  pub sending : Bool
  pub qued_sending_size : ℕ
  pub id_for_lost_rate : ℕ

pub record TcpReceiver : Type 0 where
  pub is_recv_blocked : Bool
  pub receiving : Bool
  pub header_buf : List ℕ
  pub recv_buf : List ℕ

pub record TcpRtt : Type 0 where
  pub srtt : ℕ
  pub rttvar : ℕ
  pub rto : ℕ

-- `trace` are the effects, newest first; `null_used` is set where the code would follow a null
-- pointer.
pub record TcpFlow : Type 0 where
  pub life : TcpLife
  pub open life use *
  pub peer : TcpPeer
  pub open peer use *
  pub tx : TcpSender
  pub open tx use *
  pub rx : TcpReceiver
  pub open rx use *
  pub times : TcpRtt
  pub open times use *
  pub null_used : Bool
  pub trace : List TcpEffect

abbrev pub put : TcpEffect → TcpFlow → TcpFlow
put e f = record f { trace = e ∷ f.trace }

unfoldable pub next_tcp_stamp : TcpLife → TcpLife
next_tcp_stamp l = record l { op_stamp = add32 l.op_stamp 1 }

unfoldable pub cancel_all : TcpLife → TcpLife
cancel_all l = record l { op_cancel = l.op_stamp }

unfoldable pub is_cancelled : TcpFlow → ℕ → Bool
is_cancelled f stamp = mod_less_equal stamp f.op_cancel

-- The test with which most of the functions begin: `is_canceled_op(stamp)||state_==CLOSED`.
unfoldable pub is_over : TcpFlow → ℕ → Bool
is_over f stamp = is_cancelled f stamp || in_phase f.state st_closed

-- What the application does when the flow calls it.
pub record TcpApp : Type 0 where
  pub on_connected : SysError → TcpFlow → TcpFlow
  pub on_disconnected : SysError → TcpFlow → TcpFlow
  pub on_received : List ℕ → TcpFlow → TcpFlow
  pub on_writeable : TcpFlow → TcpFlow
  pub accept_flow : TcpFlow → TcpFlow

-- `__init`, with the flow id that it draws.
unfoldable pub init_tcp : ℕ → TcpFlow → TcpFlow
init_tcp id f = record f {
  life = record (next_tcp_stamp (cancel_all f.life)) {
    flowid = id;
    connection = false;
    state = if f.is_passive then st_opened else st_init;
    ping_interval = 15000;
    conn_timer = elim f.conn_timer [
      | none ↦ some (record { bound = none; waiting = none })
      | some t ↦ some (record t { waiting = none })
    ];
    ping_timer = some none;
  };
  tx = record (f.tx) { sending = false; qued_sending_size = 0; send_bufs = [] };
  rx = record (f.rx) { receiving = false };
  times = record (f.times) { srtt = 0 };
}

-- The flow before `__init`: what the constructor's list sets, and for the members that it leaves
-- alone the value given.
unfoldable pub raw_tcp : ℕ → Bool → TcpFlow
raw_tcp junk passive = record {
  life = record {
    state = st_init;
    connection = false;
    is_passive = passive;
    socket_open = false;
    conn_timer = none;
    ping_timer = none;
    ping_interval = 0;
    flowid = junk;
    op_stamp = 0;
    op_cancel = 0;
  };
  peer = record {
    remote_address = 0;
    remote_port = 0;
    remote_host = [];
    domain = [];
    local_edp = (0, 0);
  };
  tx = record { send_bufs = []; sending = false; qued_sending_size = junk; id_for_lost_rate = 0 };
  rx = record {
    is_recv_blocked = true;
    receiving = false;
    header_buf = junk ∷ junk ∷ junk ∷ junk ∷ [];
    recv_buf = [];
  };
  times = record { srtt = junk; rttvar = junk; rto = junk };
  null_used = false;
  trace = [];
}

-- The constructor.
unfoldable pub new_tcp : ℕ → ℕ → Bool → TcpFlow
new_tcp junk id passive = init_tcp id (raw_tcp junk passive)

-- `__close`; the flag only chooses how the socket is shut down.
unfoldable pub tcp_close : TcpFlow → TcpFlow
tcp_close f = record f {
  life = record (cancel_all f.life) {
    conn_timer = none;
    ping_timer = none;
    state = st_closed;
    socket_open = if in_phase f.state st_closed then f.socket_open else false;
    connection = if in_phase f.state st_closed then f.connection else false;
  };
  tx = record (f.tx) { send_bufs = [] };
}

-- `__open` after `__init`, with what the system answers to opening and binding the socket.
unfoldable pub open_socket : SysError → SysError → TcpFlow → TcpFlow × SysError
open_socket opened bound_to f =
    let ec =
      if is_error opened
      then opened
      else if f.local_edp.0 == 0 && f.local_edp.1 == 0
      then no_error
      else bound_to in
    let active = record (f.life) { is_passive = false } in
    if is_error ec
    then (record f { life = record active { socket_open = false } }, ec)
    else (record f { life = record active { socket_open = true; state = st_opened } }, no_error)

unfoldable pub open_inited : SysError → SysError → TcpFlow → TcpFlow × SysError
open_inited opened bound_to f =
    if in_phase f.state st_init then open_socket opened bound_to f else (f, socket_already_open)

-- What `__open` meets: the flow id that it draws, and the answers of the system.
pub record Opening : Type 0 where
  pub drawn_id : ℕ
  pub opened : SysError
  pub bound_to : SysError

-- `__open`.
unfoldable pub reopen : Opening → TcpFlow → TcpFlow × SysError
reopen o f = open_inited o.opened o.bound_to (init_tcp o.drawn_id f)

-- `open`.
unfoldable pub tcp_open : Opening → ℕ × ℕ → TcpFlow → TcpFlow × SysError
tcp_open o local f = reopen o (record f { peer = record (f.peer) { local_edp = local } })

-- `create_for_active_connect` and `create_for_passive_connect`.
unfoldable pub tcp_create_active : ℕ → ℕ → Opening → ℕ × ℕ → Bool → TcpFlow × SysError
tcp_create_active junk id o local conn =
    let made = tcp_open o local (new_tcp junk id false) in
    (record (made.0) { life = record (made.0.life) { connection = conn } }, made.1)

unfoldable pub tcp_create_passive : ℕ → ℕ → TcpFlow
tcp_create_passive junk id = new_tcp junk id true

-- `set_socket`, `block_receiving`, `is_connected`.
unfoldable pub set_socket : Bool → TcpFlow → TcpFlow
set_socket conn f = record f { life = record (f.life) { connection = conn } }

unfoldable pub block_receiving : TcpFlow → TcpFlow
block_receiving f = record f { rx = record (f.rx) { is_recv_blocked = true } }

unfoldable pub tcp_is_connected : TcpFlow → Bool
tcp_is_connected f = in_phase f.state st_connected

-- A timer of the connection is set, with what it calls; a null pointer is a fault.
unfoldable pub set_conn_timer : TimerCall → ℕ → TcpFlow → TcpFlow
set_conn_timer call seconds f = elim f.conn_timer [
  | none ↦ record f { null_used = true }
  | some t ↦ record f {
    life = record (f.life) {
      conn_timer = some (record { bound = some call; waiting = some seconds });
    };
  }
]

-- It stops; `forget` also clears what it calls.
unfoldable pub cancel_timer_at : Bool → Option ConnTimer → TcpFlow → TcpFlow
cancel_timer_at forget none f = record f { null_used = true }
cancel_timer_at forget (some t) f = record f {
  life = record (f.life) {
    conn_timer = some (record { bound = if forget then none else t.bound; waiting = none });
  };
}

unfoldable pub cancel_conn_timer : Bool → TcpFlow → TcpFlow
cancel_conn_timer forget f = cancel_timer_at forget f.conn_timer f

-- A call into the application, if there is a connection.
abbrev pub tell : TcpEffect → (TcpFlow → TcpFlow) → TcpFlow → TcpFlow
tell e reaction f = if f.connection then reaction (put e f) else f

-- Whom `__to_close_state` tells.
unfoldable pub tell_end : TcpApp → SysError → TcpFlow → TcpFlow
tell_end app ec f =
    if f.is_passive
    then if in_phase f.state st_connected
      then tell (tell_disconnected_with ec) (app.on_disconnected ec) f
      else f
    else if ltb (phase_number f.state) (phase_number st_connected)
    then tell (tell_connected ec) (app.on_connected ec) f
    else tell (tell_disconnected_with ec) (app.on_disconnected ec) f

unfoldable pub to_close_state : TcpApp → SysError → ℕ → TcpFlow → TcpFlow
to_close_state app ec stamp f = if is_over f stamp then f else tcp_close (tell_end app ec f)

unfoldable pub tcp_allert_connected : TcpApp → SysError → ℕ → TcpFlow → TcpFlow
tcp_allert_connected app ec stamp f =
    if is_over f stamp then f else tell (tell_connected ec) (app.on_connected ec) f
