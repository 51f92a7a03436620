-- ===== src/Urdp/Receive/Phase.antt =====
-- `__recv`, `__async_receive` and `__allert_readable` of src/rdp/urdp_flow.cpp, and the order of the
-- states.
use p2engine.Prelude.{
  Bool-cases, List, [], false, inl, inr, negsuc, not, pos, refl, suc, true, zero, ℕ, ℤ, ◌%◌, ◌+◌,
  ◌-◌, ◌==◌, ◌||◌, ◌∷◌, ◌≡◌,
}
use p2engine.Urdp.Flow.{Flow, is_canceled_op}
use p2engine.Urdp.Lifecycle.{allert_received, is_detached}
use p2engine.Urdp.Lifecycle.Calls.{Forward-allert_disconnected, Forward-allert_received}
use p2engine.Urdp.Lifecycle.Phase.{
  Forward, Forward-before, Forward-close_flow, Forward-if, Forward-refl, Forward-trans, Forward-by,
  Forward-of_eq, phase, phase-attempt_send, phase-schedule_timer, phase_if,
}
use p2engine.Urdp.Receive.{
  Received, allert_readable, async_receive, can_let_transport_read, end_reading, failed, is_zero,
  open_window, receive_fuel, receive_step, received, recv, recv_message,
}
use p2engine.Urdp.Types.{
  ErrorCode, already_connected, closed, connection_reset, established, host_unreachable,
  immediate_ack, in_progress, not_connected, recv_buf_size, same_state, success, timed_out, u32_mod,
  would_block,
}

phase-open_window : (now : ℕ) (f : Flow) → phase (open_window now f) ≡ phase f
unfolding open_window
phase-open_window now f =
    let g = record f {
      rcv = record (f.rcv) { rcv_wnd = (recv_buf_size + u32_mod - f.rlen) % u32_mod };
    } in
    phase_if f _ _ _ (phase_if f (f.rcv_wnd == 0) _ _ (phase-attempt_send immediate_ack now g) refl)
      refl

phase-recv_message : (n now : ℕ) (f : Flow) → phase (recv_message n now f).1 ≡ phase f
unfolding recv_message
phase-recv_message n now f = phase-open_window now _

-- Reading, once it is known that there is something to read.
phase-by_front :
    (now n : ℕ) (f : Flow) (l : List (List ℕ))
    → (not f.socket || not (same_state f.state established)) ≡ false
    → can_let_transport_read f ≡ pos n
    → (n == 0) ≡ false
    → f.unreliable_rlist ≡ l
    → phase (recv now f).1 ≡ phase f
unfolding recv
phase-by_front now n f [] e k z h = rw (e, k, z, h, recv) (phase-recv_message n now f)
phase-by_front now n f (front ∷ rest) e k z h = rw (e, k, z, h, recv)

phase-by_length :
    (now : ℕ) (f : Flow) (z : ℤ)
    → (not f.socket || not (same_state f.state established)) ≡ false
    → can_let_transport_read f ≡ z
    → phase (recv now f).1 ≡ phase f
unfolding recv
phase-by_length now f (negsuc n) e k = rw (e, k, recv)
phase-by_length now f (pos n) e k = elim (Bool-cases (n == 0)) [
  | inl z ↦ rw (e, k, z, recv)
  | inr z ↦ phase-by_front now n f f.unreliable_rlist e k z refl
]

pub phase-recv : (now : ℕ) (f : Flow) → phase (recv now f).1 ≡ phase f
unfolding recv
phase-recv now f = elim (Bool-cases (not f.socket || not (same_state f.state established))) [
  | inl e ↦ rw (e, recv)
  | inr e ↦ phase-by_length now f (can_let_transport_read f) e refl
]

Forward-end_reading :
    (ec : ErrorCode) (now : ℕ) (f : Flow) → Forward (phase f) (phase (end_reading ec now f))
unfolding end_reading
Forward-end_reading would_block now f = Forward-of_eq (phase-schedule_timer now f)
Forward-end_reading success now f = Forward-allert_disconnected success f
Forward-end_reading already_connected now f = Forward-allert_disconnected already_connected f
Forward-end_reading in_progress now f = Forward-allert_disconnected in_progress f
Forward-end_reading not_connected now f = Forward-allert_disconnected not_connected f
Forward-end_reading timed_out now f = Forward-allert_disconnected timed_out f
Forward-end_reading host_unreachable now f = Forward-allert_disconnected host_unreachable f
Forward-end_reading connection_reset now f = Forward-allert_disconnected connection_reset f

Forward-receive_step :
    (again : Flow → Flow) (now : ℕ) (r : Received) (f : Flow)
    → ((g : Flow) → Forward (phase g) (phase (again g)))
    → Forward (phase f) (phase (receive_step again now (r, f)))
unfolding receive_step
Forward-receive_step again now (received bytes) f h =
    Forward-trans (phase f) (phase (allert_received bytes now f)) _
      (Forward-allert_received bytes now f) (h (allert_received bytes now f))
Forward-receive_step again now (failed ec) f h = Forward-end_reading ec now f

-- The loop only moves a flow on.
pub Forward-async_receive :
    (fuel mark now : ℕ) (f : Flow) → Forward (phase f) (phase (async_receive fuel mark now f))
unfolding async_receive
Forward-async_receive zero mark now f = Forward-refl (phase f)
Forward-async_receive (suc fuel) mark now f =
    elim (Bool-cases (is_canceled_op f mark || same_state f.state closed || not f.keep_recving)) [
      | inl e ↦
          Forward-by (phase f) f (async_receive (suc fuel) mark now f) (rw (e, async_receive))
            (Forward-refl (phase f))
      | inr e ↦
          Forward-by (phase f) (receive_step (async_receive fuel mark now) now (recv now f))
            (async_receive (suc fuel) mark now f) (rw (e, async_receive))
            (Forward-before _ (recv now f).1 f (phase-recv now f) (
              Forward-receive_step (async_receive fuel mark now) now (recv now f).0 (recv now f).1
                (Forward-async_receive fuel mark now)))
    ]

-- The call that tells the application of new data only moves a flow on.
pub Forward-allert_readable :
    (now : ℕ) (f : Flow) → Forward (phase f) (phase (allert_readable now f))
unfolding allert_readable
Forward-allert_readable now f =
    let g : Flow = record f { rcv = record (f.rcv) { detect_readable = false } } in
    Forward-if (phase f) (is_detached f) _ _ (Forward-close_flow true now f) (
      Forward-if (phase f) (not f.detect_readable || is_zero (can_let_transport_read f)) f _
        (Forward-refl (phase f))
        (Forward-if (phase f) f.keep_recving _ g
          (Forward-async_receive (receive_fuel g) g.op_stamp now g) (Forward-refl (phase f))))
