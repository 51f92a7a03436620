-- ===== src/Urdp/Flow.antt =====
-- The state of `urdp_flow` (p2engine/rdp/urdp_flow.hpp), in groups, and its construction.
use p2engine.Prelude.{
  Bool, List, Option, false, if◌then◌else◌, leb, ltb, none, some, ℕ, ◌%◌, ◌&&◌, ◌+◌, ◌^◌, ◌∷◌,
}
use p2engine.Urdp.Types.{
  Ctrl, Effect, ShutdownMode, TcpState, established, invalid_flowid, same_state, u32_mod,
}
use p2engine.Wrap.{wrap_sub, wrappable_less, wrappable_less_equal}

pub record SSegment : Type 0 where
  pub buf : List ℕ
  pub seq : ℕ
  pub xmit : ℕ
  pub ctrl_type : Ctrl

pub record RSegment : Type 0 where
  pub buf : List ℕ
  pub seq : ℕ

pub record SUnraliableSegment : Type 0 where
  pub buf : List ℕ
  pub id : ℕ
  pub timeout : ℕ
  pub pkt_id : ℕ
  pub msg_type : ℕ
  pub remain_xmit : ℕ
  pub control : Ctrl

-- The connection: its state, peer and holders. `token` is the flow id of `m_token`, `layer_open`
-- what its shared layer answers to `is_open`; `socket`, `acceptor` and `self_holder` say whether
-- the pointer is set. Endpoints are numbers.
pub record Conn : Type 0 where
  pub state : TcpState
  pub shutdown : ShutdownMode
  pub session_id : ℕ
  pub remote_peer_id : ℕ
  pub remote_endpoint : ℕ
  pub token : Option ℕ
  pub layer_open : Bool
  pub socket : Bool
  pub acceptor : Bool
  pub self_holder : Bool
  pub active : Bool
  pub disconn_local : Bool
  pub disconn_remote : Bool
  pub ignore_all_pkt : Bool
  pub keep_recving : Bool
  pub timer_posted : Bool
  pub close_called : Bool
  pub op_stamp : ℕ
  pub op_cancel : ℕ

-- Outgoing data and congestion control.
pub record Sender : Type 0 where
  pub slist : List SSegment
  pub retrans_slist : List SSegment
  pub snd_nxt : ℕ
  pub snd_wnd : ℕ
  pub slen : ℕ
  pub snd_una : ℕ
  pub mss : ℕ
  pub ssthresh : ℕ
  pub cwnd : ℕ
  pub recover : ℕ
  pub dup_acks : ℕ
  pub detect_writable : Bool

-- Incoming data; `rlist` is the set, in its order.
pub record Receiver : Type 0 where
  pub rlist : List RSegment
  pub rcv_nxt : ℕ
  pub rcv_wnd : ℕ
  pub rlen : ℕ
  pub lastack : ℕ
  pub detect_readable : Bool

-- Times (patterns of `time32_type`), the round trip estimate, and the timer: whether it is idle,
-- and when it expires.
pub record Timing : Type 0 where
  pub rttvar : ℕ
  pub srtt : ℕ
  pub rto : ℕ
  pub t_rto_base : ℕ
  pub t_ack : ℕ
  pub t_recent : ℕ
  pub t_recent_now : ℕ
  pub t_lastrecv : ℕ
  pub t_lastsend : ℕ
  pub t_lasttraffic : ℕ
  pub t_last_on_clock : ℕ
  pub t_close_base : Option ℕ
  pub establish_time : ℕ
  pub ping_interval : ℕ
  pub timer_idle : Bool
  pub timer_expires : ℕ

-- A reading of the loss estimator of local-to-remote packets, as `__send` tests it: above 0.1,
-- above 0.01 or not known, or below.
pub data LossLevel : Type 0 where
  heavy moderate light : LossLevel

-- Unreliable and semireliable packets. `rkeeper` maps packet ids to the times when they expire;
-- `lostrate` is the eight-bit reading that goes into headers.
pub record Unreliable : Type 0 where
  pub unreliable_rlist : List (List ℕ)
  pub unreliable_slist : List SUnraliableSegment
  pub rkeeper : List (ℕ × ℕ)
  pub unreliable_pktid : ℕ
  pub id_seed : ℕ
  pub id_for_lost_rate : ℕ
  pub lostrate : ℕ
  pub loss_level : LossLevel

-- `out` is the trace of effects, newest first. `random i lo hi` is the i-th draw of the generator,
-- `draws` their number so far. `fault` is set where the code would use an element of an empty
-- container.
pub record Flow : Type 0 where
  pub conn : Conn
  pub open conn use *
  pub snd : Sender
  pub open snd use *
  pub rcv : Receiver
  pub open rcv use *
  pub tim : Timing
  pub open tim use *
  pub unr : Unreliable
  pub open unr use *
  pub random : ℕ → ℕ → ℕ → ℕ
  pub draws : ℕ
  pub fault : Bool
  pub out : List Effect

abbrev pub emit : Effect → Flow → Flow
emit e f = record f { out = e ∷ f.out }

-- `mod_less` and its kin at 32 bits.
abbrev pub mod_less : ℕ → ℕ → Bool
mod_less a b = wrappable_less u32_mod a b

abbrev pub mod_less_equal : ℕ → ℕ → Bool
mod_less_equal a b = wrappable_less_equal u32_mod a b

-- Sums and differences of 32 bits.
abbrev pub add32 : ℕ → ℕ → ℕ
add32 a b = (a + b) % u32_mod

abbrev pub sub32 : ℕ → ℕ → ℕ
sub32 a b = wrap_sub u32_mod a b

-- `mod_minus(a, b) >= k` for a small positive k.
abbrev pub mod_minus_ge : ℕ → ℕ → ℕ → Bool
mod_minus_ge a b k = leb k (sub32 a b) && ltb (sub32 a b) (2 ^ 31)

-- `tick_now()`, from the 64-bit count of milliseconds.
abbrev pub time32 : ℕ → ℕ
time32 now = now % u32_mod

unfoldable pub next_op_stamp : Conn → Conn
next_op_stamp c = record c { op_stamp = add32 c.op_stamp 1 }

unfoldable pub set_cancel : Conn → Conn
set_cancel c = record c { op_cancel = c.op_stamp }

unfoldable pub is_canceled_op : Flow → ℕ → Bool
is_canceled_op f stamp = mod_less_equal stamp f.op_cancel

-- `is_open()` and `is_connected()`.
unfoldable pub is_open : Flow → Bool
is_open f = elim f.token [ none ↦ false | some id ↦ f.layer_open ]

unfoldable pub is_connected : Flow → Bool
unfolding is_open
is_connected f = is_open f && same_state f.state established

unfoldable pub flow_id : Flow → ℕ
unfolding is_open
flow_id f =
    if is_open f then elim f.token [ none ↦ invalid_flowid | some id ↦ id ] else invalid_flowid
