-- ===== src/Trdp/Send.antt =====
-- Sending in src/rdp/trdp_flow.cpp: `__send`, `__handle_sent_packet`, `ping`, and the calls of the
-- application in p2engine/rdp/trdp_flow.hpp.
pub mod Order
pub mod Fifo
pub mod Steps
pub mod Refinement
use p2engine.Prelude.{
  Bool, List, Option, [], false, if◌then◌else◌, is_empty, leb, length, ltb, none, not, some, true,
  ℕ, ◌%◌, ◌&&◌, ◌*◌, ◌++◌, ◌+◌, ◌/◌, ◌==◌, ◌^◌, ◌||◌, ◌∷◌,
}
use p2engine.Trdp.Flow.{TcpApp, TcpFlow, is_over, put, tell}
use p2engine.Trdp.Types.{
  PacketType, SendElement, SysError, connect_aborted, data_pkt, in_phase, invalid_msgtype, is_error,
  no_error, packet_code, ping_pkt, post_to_close_state, socket_not_connected, st_connected,
  start_write, tell_disconnected_with, tell_writeable,
}
use p2engine.Urdp.Format.{bytes16, bytes32}
use p2engine.Urdp.Types.{on_disconnected, on_writeable, u16_mod, u8_mod}

-- The bytes that `__send` puts before the data: the length, the packet's number, its type, and the
-- message type of data packets.
unfoldable pub packet_head : ℕ → PacketType → Option ℕ → ℕ → List ℕ
packet_head id type msg_type len = elim msg_type [
  | none ↦ bytes16 ((2 + len) % u16_mod) (id ∷ packet_code type ∷ [])
  | some m ↦ bytes16 ((2 + len + 2) % u16_mod) (id ∷ packet_code type ∷ bytes16 m [])
]

-- The write that `__send` starts.
unfoldable pub write_packet : List ℕ → PacketType → Bool → Option ℕ → TcpFlow → TcpFlow
write_packet bytes type alert msg_type f =
    let id = (f.id_for_lost_rate + 1) % u8_mod in
    let head = packet_head id type msg_type (length bytes) in
    put (start_write (head ++ bytes) alert f.op_stamp)
      (record f { tx = record (f.tx) { id_for_lost_rate = id; sending = true } })

-- Whether the front of the queue must be sent, but has waited for more than ten seconds.
unfoldable pub waited_too_long : ℕ → List SendElement → Bool
waited_too_long now [] = false
waited_too_long now (e ∷ es) = elim e.out_time [ none ↦ false | some t ↦ ltb (t + 10000) now ]

-- The element that keeps a packet.
unfoldable pub queued_packet : ℕ → List ℕ → Bool → Option ℕ → SendElement
queued_packet now bytes alert msg_type = record {
  buf = bytes;
  out_time = if alert then none else some (now + 250);
  msg_type = elim msg_type [ none ↦ invalid_msgtype | some m ↦ m ];
  alert_writable = alert;
}

unfoldable pub push_packet : SendElement → TcpFlow → TcpFlow
push_packet e f = record f { tx = record (f.tx) { send_bufs = f.send_bufs ++ e ∷ [] } }

-- `__send`.
unfoldable pub tcp_send : ℕ → List ℕ → PacketType → Bool → Option ℕ → Bool → TcpFlow → TcpFlow
tcp_send now bytes type alert msg_type from_que f =
    if not (in_phase f.state st_connected)
    then put (post_to_close_state socket_not_connected f.op_stamp) f
    else if (not (is_empty f.send_bufs) && not from_que) || f.sending
    then if waited_too_long now f.send_bufs
      then put (post_to_close_state connect_aborted f.op_stamp) f
      else push_packet (queued_packet now bytes alert msg_type) f
    else write_packet bytes type alert msg_type f

-- Whether a queued packet may still be sent.
unfoldable pub is_current : ℕ → SendElement → Bool
is_current now e = elim e.out_time [ none ↦ true | some t ↦ leb now t ]

-- The message type with which a queued packet is sent.
unfoldable pub queued_msg_type : SendElement → Option ℕ
queued_msg_type e = if e.msg_type == invalid_msgtype then none else some e.msg_type

-- A packet that is too old takes a number, and is gone.
unfoldable pub skip_number : TcpFlow → TcpFlow
skip_number f = record f {
  tx = record (f.tx) { id_for_lost_rate = (f.id_for_lost_rate + 1) % u8_mod };
}

-- What the loop of `__handle_sent_packet` does with the front of the queue, once it is taken off.
unfoldable pub send_front : ℕ → SendElement → TcpFlow → TcpFlow
send_front now e f =
    if is_current now e
    then tcp_send now e.buf data_pkt e.alert_writable (queued_msg_type e) true f
    else skip_number f

-- The loop of `__handle_sent_packet`. Each round takes one element off and puts none on, so the
-- list that drives it is the queue.
unfoldable pub send_queued : ℕ → List SendElement → TcpFlow → TcpFlow
send_queued now [] f = f
send_queued now (e ∷ es) f =
    let popped : TcpFlow = record f { tx = record (f.tx) { send_bufs = es } } in
    let rest = send_queued now es (send_front now e popped) in if f.sending then f else rest

-- `__handle_sent_packet` after `sending_` is reset and the stamp is tested.
unfoldable pub after_write : TcpApp → ℕ → SysError → Bool → ℕ → TcpFlow → TcpFlow
after_write app now ec alert stamp f =
    let told = if alert then tell tell_writeable app.on_writeable f else f in
    if is_error ec
    then tell (tell_disconnected_with ec) (app.on_disconnected ec) f
    else if is_over told stamp
    then told
    else send_queued now told.send_bufs told

-- `__handle_sent_packet`.
unfoldable pub handle_sent_packet : TcpApp → ℕ → SysError → Bool → ℕ → TcpFlow → TcpFlow
handle_sent_packet app now ec alert stamp f =
    let idle : TcpFlow = record f { tx = record (f.tx) { sending = false } } in
    if is_over idle stamp then idle else after_write app now ec alert stamp idle

-- `async_send_reliable`, `async_send_semireliable`, `async_send_unreliable`.
unfoldable pub tcp_send_reliable : ℕ → List ℕ → ℕ → TcpFlow → TcpFlow
tcp_send_reliable now bytes msg_type f = tcp_send now bytes data_pkt true (some msg_type) false f

unfoldable pub tcp_send_semireliable : ℕ → List ℕ → ℕ → TcpFlow → TcpFlow
tcp_send_semireliable now bytes msg_type f =
    tcp_send now bytes data_pkt false (some msg_type) false f

unfoldable pub tcp_send_unreliable : ℕ → List ℕ → ℕ → TcpFlow → TcpFlow
tcp_send_unreliable now bytes msg_type f =
    if ltb (8 * 1024) f.qued_sending_size
    then f
    else tcp_send now bytes data_pkt false (some msg_type) false f

-- The eight bytes of a time.
abbrev pub bytes64 : ℕ → List ℕ
bytes64 n = bytes32 (n / 2 ^ 32 % 2 ^ 32) (bytes32 (n % 2 ^ 32) [])

-- `ping`.
unfoldable pub tcp_ping : ℕ → TcpFlow → TcpFlow × SysError
tcp_ping now f =
    if not (in_phase f.state st_connected)
    then (f, socket_not_connected)
    else if f.socket_open
    then (tcp_send now (bytes64 now) ping_pkt false none false f, no_error)
    else (f, no_error)

-- `ping_interval`, to a new interval in milliseconds.
unfoldable pub tcp_ping_interval : ℕ → TcpFlow → TcpFlow
tcp_ping_interval t f = if t == f.ping_interval then f else record f {
  life = record (f.life) {
    ping_interval = t;
    ping_timer = elim f.ping_timer [ none ↦ none | some on ↦ some (some t) ];
  };
}
