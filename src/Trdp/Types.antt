-- ===== src/Trdp/Types.antt =====
-- The enumerations and constants of p2engine/rdp/trdp_flow.hpp and p2engine/rdp/const_define.hpp,
-- and what a flow over TCP does to its surroundings.
use p2engine.Prelude.{Bool, List, Option, false, if◌then◌else◌, none, some, true, ℕ, ◌==◌}

-- The members of the enumeration of `state_`.
pub data TcpPhase : Type 0 where
  st_init st_opened st_connecting st_connected st_closed : TcpPhase

-- The number of a state, by which the code compares.
abbrev pub phase_number : TcpPhase → ℕ
phase_number st_init = 0
phase_number st_opened = 1
phase_number st_connecting = 2
phase_number st_connected = 3
phase_number st_closed = 4

abbrev pub in_phase : TcpPhase → TcpPhase → Bool
in_phase a b = phase_number a == phase_number b

pub data PacketType : Type 0 where
  conn_pkt accept_pkt ping_pkt pong_pkt data_pkt : PacketType

abbrev pub packet_code : PacketType → ℕ
packet_code conn_pkt = 97
packet_code accept_pkt = 98
packet_code ping_pkt = 99
packet_code pong_pkt = 100
packet_code data_pkt = 101

-- The cases of the switches on a packet's type byte; `none` is `default`.
unfoldable pub packet_type : ℕ → Option PacketType
packet_type n =
    if n == 97
    then some conn_pkt
    else if n == 98
    then some accept_pkt
    else if n == 99
    then some ping_pkt
    else if n == 100
    then some pong_pkt
    else if n == 101
    then some data_pkt
    else none

abbrev pub invalid_msgtype : ℕ
invalid_msgtype = 0xffff

-- The errors that the code itself makes, and those of the system by number.
pub data SysError : Type 0 where
  no_error peer_timed_out socket_not_connected connect_in_progress : SysError
  socket_already_open connect_refused connect_aborted packet_fault : SysError
  system_error : ℕ → SysError

-- `if (ec)`.
abbrev pub is_error : SysError → Bool
is_error no_error = false
is_error _ = true

-- What the connection timer calls when it expires.
pub data TimerCall : Type 0 where
  call_do_close : TimerCall
  call_to_close_state : SysError → ℕ → TimerCall

pub record ConnTimer : Type 0 where
  pub bound : Option TimerCall
  pub waiting : Option ℕ

-- An element of `send_bufs_`; `none` in `out_time` is the largest value of the type, which a packet
-- that must not be dropped has.
pub record SendElement : Type 0 where
  pub buf : List ℕ
  pub out_time : Option ℕ
  pub msg_type : ℕ
  pub alert_writable : Bool

-- Operations started, calls into the application, and posted calls. The last number of an operation
-- is the stamp that its completion carries; `start_connect_to` also carries the addresses that are
-- left.
pub data TcpEffect : Type 0 where
  start_write : List ℕ → Bool → ℕ → TcpEffect
  start_request : List ℕ → ℕ → TcpEffect
  start_read_header start_read_reply start_read_domain_length : ℕ → TcpEffect
  start_read_data start_read_domain : ℕ → ℕ → TcpEffect
  start_resolve : ℕ → TcpEffect
  start_connect_to : ℕ → ℕ → List ℕ → ℕ → TcpEffect
  tell_connected tell_disconnected_with : SysError → TcpEffect
  tell_received : List ℕ → TcpEffect
  tell_writeable tell_accepted : TcpEffect
  post_to_close_state post_allert_connected : SysError → ℕ → TcpEffect

-- The calls that go into the application.
unfoldable pub is_call : TcpEffect → Bool
is_call (tell_connected ec) = true
is_call (tell_disconnected_with ec) = true
is_call (tell_received bytes) = true
is_call tell_writeable = true
is_call tell_accepted = true
is_call _ = false
