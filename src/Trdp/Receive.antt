-- ===== src/Trdp/Receive.antt =====
-- Receiving in src/rdp/trdp_flow.cpp: `keep_async_receiving`, `do_keep_receiving` and
-- `__process_data`. The coroutine is cut at its reads: each function runs from one to the next, and
-- a read's bytes come with its completion.
pub mod Packet
pub mod Echo
pub mod Ping
use p2engine.Prelude.{
  Bool, List, Option, [], drop, false, if◌then◌else◌, length, ltb, none, not, some, suc, true, zero,
  ℕ, ◌&&◌, ◌*◌, ◌++◌, ◌+◌, ◌==◌, ◌^◌, ◌∷◌,
}
use p2engine.Trdp.Flow.{TcpApp, TcpFlow, is_over, put, to_close_state}
use p2engine.Trdp.Rtt.{update_rtt}
use p2engine.Trdp.Send.{tcp_send}
use p2engine.Trdp.Types.{
  PacketType, SysError, data_pkt, is_error, packet_fault, packet_type, ping_pkt, pong_pkt,
  start_read_data, start_read_header, tell_received,
}
use p2engine.Urdp.Format.{be16, be32}
use p2engine.Urdp.Types.{on_received}

-- A read fills the front of a buffer.
abbrev pub fill : List ℕ → List ℕ → List ℕ
fill bytes buf = bytes ++ drop (length bytes) buf

-- The loop starts a new round: the next packet's length is read.
unfoldable pub read_next : ℕ → TcpFlow → TcpFlow
read_next stamp f =
    put (start_read_header stamp) (record f { rx = record (f.rx) { receiving = true } })

unfoldable pub stop_reading : TcpFlow → TcpFlow
stop_reading f = record f { rx = record (f.rx) { receiving = false } }

-- A packet is over: the next one is read, unless receiving is blocked.
unfoldable pub next_unless_blocked : ℕ → TcpFlow → TcpFlow
next_unless_blocked stamp f = if f.is_recv_blocked then f else read_next stamp f

-- The two bytes of a length.
unfoldable pub length_field : List ℕ → ℕ
length_field (a ∷ b ∷ rest) = be16 a b
length_field _ = 0

-- `do_keep_receiving` from its start.
unfoldable pub start_receiving : ℕ → TcpFlow → TcpFlow
start_receiving stamp f = if is_over f stamp then f else read_next stamp f

unfoldable pub tcp_keep_async_receiving : TcpFlow → TcpFlow
tcp_keep_async_receiving f =
    if f.is_recv_blocked && not f.receiving
    then start_receiving f.op_stamp (record f { rx = record (f.rx) { is_recv_blocked = false } })
    else f

-- A buffer that `recreate` makes; what is in it does not matter, since a read fills it.
abbrev pub recreated : ℕ → List ℕ
recreated zero = []
recreated (suc n) = 0 ∷ recreated n

-- The buffer is made for the length that was read, and the read into it starts.
unfoldable pub read_body : ℕ → ℕ → TcpFlow → TcpFlow
read_body len stamp f =
    put (start_read_data len stamp) (record f { rx = record (f.rx) { recv_buf = recreated len } })

unfoldable pub have_length : ℕ → ℕ → TcpFlow → TcpFlow
have_length len stamp f =
    if len == 0 then next_unless_blocked stamp (stop_reading f) else read_body len stamp f

-- `do_keep_receiving` after its first read.
unfoldable pub header_read : TcpApp → SysError → List ℕ → ℕ → TcpFlow → TcpFlow
header_read app ec bytes stamp f =
    let g : TcpFlow = record f { rx = record (f.rx) { header_buf = fill bytes f.header_buf } } in
    if is_over g stamp
    then g
    else if is_error ec
    then to_close_state app ec stamp g
    else have_length (length_field g.header_buf) stamp g

-- A ping is answered with its own bytes.
unfoldable pub answer_ping : TcpApp → ℕ → ℕ → TcpFlow → TcpFlow × Bool
answer_ping app now stamp f =
    if length f.recv_buf == 8
    then (tcp_send now f.recv_buf pong_pkt false none false f, true)
    else (to_close_state app packet_fault stamp f, false)

-- The number that eight bytes hold.
unfoldable pub time_field : List ℕ → ℕ
time_field (a ∷ b ∷ c ∷ d ∷ e ∷ f ∷ g ∷ h ∷ rest) = be32 a b c d * 2 ^ 32 + be32 e f g h
time_field _ = 0

unfoldable pub take_pong : TcpApp → ℕ → ℕ → TcpFlow → TcpFlow × Bool
take_pong app now stamp f =
    if length f.recv_buf == 8
    then (
      record f {
        times = update_rtt now (time_field f.recv_buf) f.times;
        rx = record (f.rx) { recv_buf = drop 8 f.recv_buf };
      },
      true,
    )
    else (to_close_state app packet_fault stamp f, false)

-- Data goes to the application.
unfoldable pub take_data : TcpApp → TcpFlow → TcpFlow × Bool
take_data app f =
    if ltb 0 (length f.recv_buf)
    then if f.connection
      then (app.on_received f.recv_buf (put (tell_received f.recv_buf) f), true)
      else (f, false)
    else (f, true)

-- The switch of `__process_data`.
unfoldable pub take_packet : TcpApp → Option PacketType → ℕ → ℕ → TcpFlow → TcpFlow × Bool
take_packet app (some ping_pkt) now stamp f = answer_ping app now stamp f
take_packet app (some pong_pkt) now stamp f = take_pong app now stamp f
take_packet app (some data_pkt) now stamp f = take_data app f
take_packet app _ now stamp f = (f, false)

-- `__process_data` on the bytes in `recv_buf`, of which it takes the number and the type off.
unfoldable pub process_bytes : TcpApp → List ℕ → ℕ → ℕ → TcpFlow → TcpFlow × Bool
process_bytes app (id ∷ type ∷ rest) now stamp f =
    take_packet app (packet_type type) now stamp
      (record f { rx = record (f.rx) { recv_buf = rest } })
process_bytes app _ now stamp f = (to_close_state app packet_fault stamp f, false)

unfoldable pub tcp_process_data : TcpApp → ℕ → ℕ → TcpFlow → TcpFlow × Bool
tcp_process_data app now stamp f =
    if is_over f stamp then (f, false) else process_bytes app f.recv_buf now stamp f

-- What follows a packet that was processed, and says whether to go on.
unfoldable pub after_packet : ℕ → TcpFlow × Bool → TcpFlow
after_packet stamp (f, false) = f
after_packet stamp (f, true) = next_unless_blocked stamp f

-- `do_keep_receiving` after its second read.
unfoldable pub data_read : TcpApp → ℕ → SysError → List ℕ → ℕ → TcpFlow → TcpFlow
data_read app now ec bytes stamp f =
    let g : TcpFlow = record f { rx = record (f.rx) { recv_buf = fill bytes f.recv_buf } } in
    let idle = stop_reading g in
    if is_over g stamp
    then g
    else if is_error ec
    then to_close_state app ec stamp idle
    else if idle.is_recv_blocked
    then idle
    else after_packet stamp (tcp_process_data app now stamp idle)
