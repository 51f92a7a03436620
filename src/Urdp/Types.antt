-- ===== src/Urdp/Types.antt =====
-- The enumerations and constants of p2engine/rdp/urdp_flow.hpp, p2engine/rdp/urdp_visitor.hpp and
-- src/rdp/urdp_flow.cpp, the packet header, and what a flow does to its surroundings.
use p2engine.Prelude.{
  Bool, List, false, if◌then◌else◌, leb, max, min, true, ℕ, ◌*◌, ◌+◌, ◌/◌, ◌==◌, ◌^◌,
}

abbrev pub u8_mod : ℕ
u8_mod = 2 ^ 8

abbrev pub u16_mod : ℕ
u16_mod = 2 ^ 16

abbrev pub u32_mod : ℕ
u32_mod = 2 ^ 32

-- Milliseconds.
abbrev pub min_rto : ℕ
min_rto = 250

abbrev pub max_rto : ℕ
max_rto = 8 * 1000

abbrev pub ack_delay : ℕ
ack_delay = 100

abbrev pub default_timeout : ℕ
default_timeout = 10 * 1000

abbrev pub idle_timeout : ℕ
idle_timeout = 20 * 1000

abbrev pub wait_fin_ack_timeout : ℕ
wait_fin_ack_timeout = 10 * 1000

abbrev pub min_clock_check_time : ℕ
min_clock_check_time = 30

abbrev pub mtu_size : ℕ
mtu_size = 1450

abbrev pub recv_buf_size : ℕ
recv_buf_size = 0xffff + 16 * 1024

abbrev pub snd_buf_size : ℕ
snd_buf_size = recv_buf_size * 3 / 2

abbrev pub invalid_flowid : ℕ
invalid_flowid = 0xffffff

unfoldable pub bound : ℕ → ℕ → ℕ → ℕ
bound lower middle upper = min (max lower middle) upper

-- Zero stands for "not set" in the time fields, so a time of 0 is kept as 1.
unfoldable pub scape_zero : ℕ → ℕ
scape_zero t = if t == 0 then 1 else t

pub data TcpState : Type 0 where
  init listen syn_sent syn_rcvd established closing wating_fin_ack closed : TcpState

-- The number of a state in the enumeration, by which the code compares states.
abbrev pub rank : TcpState → ℕ
rank init = 0
rank listen = 1
rank syn_sent = 2
rank syn_rcvd = 3
rank established = 4
rank closing = 5
rank wating_fin_ack = 6
rank closed = 7

-- `a >= b` and `a == b` on states.
abbrev pub at_least : TcpState → TcpState → Bool
at_least a b = leb (rank b) (rank a)

abbrev pub same_state : TcpState → TcpState → Bool
same_state a b = rank a == rank b

pub data ShutdownMode : Type 0 where
  sd_none sd_graceful sd_forceful : ShutdownMode

pub data SendFlags : Type 0 where
  none_flag delayed_ack immediate_ack : SendFlags

-- `urdp_packet_type`; the last stands for a control byte that is none of these.
pub data Ctrl : Type 0 where
  network_unreachable punch connect connect_ack connect_ack_ack payload unreliable_data : Ctrl
  semireliable_data ack rst fin fin_ack : Ctrl
  unknown : ℕ → Ctrl

abbrev pub is_data : Ctrl → Bool
is_data payload = true
is_data _ = false

abbrev pub is_connect : Ctrl → Bool
is_connect connect = true
is_connect _ = false

pub data ErrorCode : Type 0 where
  success already_connected in_progress would_block not_connected timed_out : ErrorCode
  host_unreachable connection_reset : ErrorCode

-- `urdp_packet_reliable_format`.
pub record Header : Type 0 where
  pub control : Ctrl
  pub peer_id : ℕ
  pub lostrate_recving : ℕ
  pub id_for_lost_detect : ℕ
  pub session_id : ℕ
  pub bandwidth_recving : ℕ
  pub window : ℕ
  pub time_sending : ℕ
  pub time_echo : ℕ
  pub seqno : ℕ
  pub ackno : ℕ

-- What a flow hands to the shared layer, to the application and to the event loop. A posted call
-- runs later, as an operation of its own; the number is the operation stamp that it carries.
pub data Effect : Type 0 where
  sent : ℕ → Header → List ℕ → Effect
  sent_unreliable : ℕ → Header → ℕ → ℕ → List ℕ → Effect
  on_connected on_disconnected : ErrorCode → Effect
  on_received : List ℕ → Effect
  on_writeable accept_flow : Effect
  post_connected post_disconnected : ErrorCode → ℕ → Effect
  post_writeable post_async_receive : ℕ → Effect
  post_on_clock post_holder : Effect
