-- ===== src/Urdp/Receive.antt =====
-- Reading, of src/rdp/urdp_flow.cpp: `__can_let_transport_read`, `__recv`, `__async_receive`,
-- `__allert_readable`.
pub mod Phase
pub mod Framing
use p2engine.Prelude.{
  Bool, List, [], drop, false, if◌then◌else◌, leb, length, ltb, min, negsuc, none, not, pos, some,
  suc, true, zero, ℕ, ℤ, ◌%◌, ◌+◌, ◌-◌, ◌/◌, ◌==◌, ◌||◌, ◌∷◌,
}
use p2engine.Urdp.Flow.{Flow, is_canceled_op, sub32}
use p2engine.Urdp.Lifecycle.{allert_disconnected, allert_received, close_flow, is_detached}
use p2engine.Urdp.Output.{attempt_send}
use p2engine.Urdp.Queue.Stream.{room}
use p2engine.Urdp.Reassembly.{message_len, read_segments}
use p2engine.Urdp.Timer.{schedule_timer}
use p2engine.Urdp.Types.{
  ErrorCode, closed, established, immediate_ack, not_connected, recv_buf_size, same_state, u32_mod,
  would_block,
}

-- -1 while the flow is not established, 0 where nothing can be read, else a length.
unfoldable pub can_let_transport_read : Flow → ℤ
can_let_transport_read f =
    if same_state f.state established
    then elim f.unreliable_rlist [
      | front ∷ rest ↦ pos (length front)
      | [] ↦ if ltb f.rlen 4 then pos 0 else elim (message_len f.rlist) [
        | none ↦ pos 0
        | some len ↦ if ltb f.rlen (len + 4) then pos 0 else pos (len + 4)
      ]
    ]
    else negsuc 0

pub data Received : Type 0 where
  failed : ErrorCode → Received
  received : List ℕ → Received

-- The receive window opens again once enough room has come free; from a closed window this is told
-- to the peer at once.
unfoldable pub open_window : ℕ → Flow → Flow
open_window now f =
    let room = (recv_buf_size + u32_mod + u32_mod - f.rlen - f.rcv_wnd) % u32_mod in
    let g = record f {
      rcv = record (f.rcv) { rcv_wnd = (recv_buf_size + u32_mod - f.rlen) % u32_mod };
    } in
    if leb (min (recv_buf_size / 2) f.mss) room
    then (if f.rcv_wnd == 0 then attempt_send immediate_ack now g else g)
    else f

-- The reliable part of `__recv`, for a message of `n` bytes, the length field included.
unfoldable pub recv_message : ℕ → ℕ → Flow → Received × Flow
recv_message n now f =
    let (bytes, rest) = read_segments n f.rlist in
    let g = record f {
      rcv = record (f.rcv) { rlist = rest; rlen = sub32 f.rlen (length bytes) };
    } in
    (received (drop 2 bytes), open_window now g)

unfoldable pub recv : ℕ → Flow → Received × Flow
recv now f =
    if not f.socket || not (same_state f.state established)
    then (failed not_connected, f)
    else elim (can_let_transport_read f) [
      | negsuc n ↦ (failed not_connected, f)
      | pos n ↦
          if n == 0
          then (failed would_block, record f { rcv = record (f.rcv) { detect_readable = true } })
          else elim f.unreliable_rlist [
            | front ∷ rest ↦
                (received front, record f { unr = record (f.unr) { unreliable_rlist = rest } })
            | [] ↦ recv_message n now f
          ]
    ]

-- What `__async_receive` does when nothing could be read.
unfoldable pub end_reading : ErrorCode → ℕ → Flow → Flow
end_reading would_block now f = schedule_timer now f
end_reading ec now f = allert_disconnected ec f

unfoldable pub receive_step : (Flow → Flow) → ℕ → Received × Flow → Flow
receive_step again now (received bytes, f) = again (allert_received bytes now f)
receive_step again now (failed ec, f) = end_reading ec now f

-- `__async_receive` reads until nothing is left, on fuel.
unfoldable pub async_receive : ℕ → ℕ → ℕ → Flow → Flow
async_receive zero mark now f = record f { fault = true }
async_receive (suc fuel) mark now f =
    elim (is_canceled_op f mark || same_state f.state closed || not f.keep_recving) [
      | true ↦ f
      | false ↦ receive_step (async_receive fuel mark now) now (recv now f)
    ]

-- A read takes an unreliable packet or four bytes at least.
abbrev pub receive_fuel : Flow → ℕ
receive_fuel f = length f.unreliable_rlist + f.rlen + 1

abbrev pub is_zero : ℤ → Bool
is_zero (pos zero) = true
is_zero _ = false

unfoldable pub allert_readable : ℕ → Flow → Flow
allert_readable now f =
    let g = record f { rcv = record (f.rcv) { detect_readable = false } } in
    if is_detached f
    then close_flow true now f
    else if not f.detect_readable || is_zero (can_let_transport_read f)
    then f
    else if f.keep_recving
    then async_receive (receive_fuel g) g.op_stamp now g
    else g
