-- ===== src/Urdp/Machine/Calls.antt =====
-- `async_connect`, `async_send`, `ping_interval` and the posted calls of src/rdp/urdp_flow.cpp, and
-- the order of the states.
use p2engine.Prelude.{
  List, Option, [], arith, is_empty, leb, length, ltb, min, not, refl, subst, sym, take, true, ℕ,
  ◌%◌, ◌*◌, ◌-◌, ◌==◌, ◌^◌, ◌||◌, ◌∙◌, ◌≡◌,
}
use p2engine.Urdp.Api.{
  Reliability, async_connect, async_send, connect_timeout, keep_packet, make_unreliable, post_send,
  reliable, run_posted, semireliable, send, send_open, send_reliable, send_unreliable, set_timer,
  start_connect, unreliable,
}
use p2engine.Urdp.Clock.{set_ping_interval}
use p2engine.Urdp.Clock.Forward.{Forward-on_clock}
use p2engine.Urdp.Flow.{Flow, is_canceled_op}
use p2engine.Urdp.Format.{bytes16}
use p2engine.Urdp.Init.{async_wait}
use p2engine.Urdp.Lifecycle.Calls.{
  Forward-allert_connected, Forward-allert_disconnected, Forward-allert_writeable,
}
use p2engine.Urdp.Lifecycle.Phase.{
  Forward, Forward-branch, Forward-if, Forward-refl, phase, phase-attempt_send, phase-queue,
  phase-schedule_timer, phase_if,
}
use p2engine.Urdp.Lifecycle.Sending.{phase_first}
use p2engine.Urdp.Output.{attempt_send, packet_as_unreliable_and_sendout}
use p2engine.Urdp.Queue.{queue}
use p2engine.Urdp.Receive.{receive_fuel}
use p2engine.Urdp.Receive.Phase.{Forward-async_receive}
use p2engine.Urdp.Timer.{schedule_timer}
use p2engine.Urdp.Types.{
  Effect, ErrorCode, TcpState, accept_flow, connect, established, none_flag, not_connected,
  on_connected, on_disconnected, on_received, on_writeable, payload, post_async_receive,
  post_connected, post_disconnected, post_holder, post_on_clock, post_writeable, same_state, sent,
  sent_unreliable, snd_buf_size, success, syn_sent, u16_mod,
}

is_init : (s : TcpState) → same_state s TcpState.init ≡ true → s ≡ TcpState.init
is_init s e = ground arith

phase-requesting :
    (now : ℕ) (domain : List ℕ) (g : Flow)
    → phase (schedule_timer now (attempt_send none_flag now (queue domain connect g))) ≡ phase g
phase-requesting now domain g =
    phase-schedule_timer now (attempt_send none_flag now (queue domain connect g))
    ∙ phase-attempt_send none_flag now (queue domain connect g)
    ∙ phase-queue domain connect g

-- A new flow asks for a connection.
Forward-asking :
    (f g : Flow)
    → f.state ≡ TcpState.init
    → phase g ≡ (syn_sent, f.close_called)
    → Forward (phase f) (phase g)
Forward-asking f g e k =
    let start : Forward (TcpState.init, f.close_called) (syn_sent, f.close_called) =
      λ m. (omega arith, λ a b. absurd (omega (arith, a))) in
    let from_f : Forward (phase f) (syn_sent, f.close_called) =
      subst (λ s. Forward (s, f.close_called) (syn_sent, f.close_called)) (sym e) start in
    subst (λ q. Forward (phase f) q) (sym k) from_f

pub Forward-async_connect :
    (remote : ℕ) (domain : List ℕ) (time_out : Option ℕ) (now : ℕ) (f : Flow)
    → Forward (phase f) (phase (async_connect remote domain time_out now f))
unfolding async_connect start_connect async_wait
Forward-async_connect remote domain time_out now f =
    let g : Flow = start_connect remote (connect_timeout time_out) now f in
    Forward-branch (phase f) (same_state f.state TcpState.init) _ _
      (λ e.
        Forward-asking f (schedule_timer now (attempt_send none_flag now (queue domain connect g)))
          (is_init f.state e) (phase-requesting now domain g))
      (λ e. Forward-refl (phase f))

phase-send_reliable :
    (bytes : List ℕ) (msg_type now : ℕ) (f : Flow)
    → phase (send_reliable bytes msg_type now f).0 ≡ phase f
unfolding send_reliable
phase-send_reliable bytes msg_type now f =
    let len = length bytes % u16_mod in
    let head : Flow = queue (bytes16 len (bytes16 msg_type [])) payload f in
    let g : Flow = attempt_send none_flag now (queue (take len bytes) payload head) in
    let kept_phase : phase g ≡ phase f =
      phase-attempt_send none_flag now (queue (take len bytes) payload head)
      ∙ phase-queue (take len bytes) payload head
      ∙ phase-queue (bytes16 len (bytes16 msg_type [])) payload f in
    phase_first f (leb snd_buf_size g.slen) _ _ kept_phase kept_phase

phase-send_unreliable :
    (how : Reliability) (bytes : List ℕ) (msg_type now : ℕ) (f : Flow)
    → phase (send_unreliable how bytes msg_type now f).0 ≡ phase f
unfolding send_unreliable packet_as_unreliable_and_sendout make_unreliable keep_packet
phase-send_unreliable how bytes msg_type now f =
    let seg = (make_unreliable how bytes msg_type f).0 in
    let g : Flow = (make_unreliable how bytes msg_type f).1 in
    let sent_out = packet_as_unreliable_and_sendout seg now g in
    phase_first f (ltb (2 * f.mss) (length bytes) || is_empty bytes) (f, success)
      (keep_packet sent_out.0 sent_out.1, success) refl
      (phase_if f (sent_out.0.remain_xmit == 0) sent_out.1 _ refl refl)

phase-send_open :
    (how : Reliability) (bytes : List ℕ) (msg_type now : ℕ) (f : Flow)
    → phase (send_open how bytes msg_type now f).0 ≡ phase f
unfolding send_open
phase-send_open reliable bytes msg_type now f = phase-send_reliable bytes msg_type now f
phase-send_open semireliable bytes msg_type now f =
    phase-send_unreliable semireliable bytes msg_type now f
phase-send_open unreliable bytes msg_type now f =
    phase-send_unreliable unreliable bytes msg_type now f

phase-send :
    (how : Reliability) (bytes : List ℕ) (msg_type now : ℕ) (f : Flow)
    → phase (send how bytes msg_type now f).0 ≡ phase f
unfolding send
phase-send how bytes msg_type now f =
    phase_first f (not f.socket || not (same_state f.state established)) (f, not_connected)
      (send_open how bytes msg_type now f) refl (phase-send_open how bytes msg_type now f)

phase-set_timer : (how : Reliability) (now : ℕ) (f : Flow) → phase (set_timer how now f) ≡ phase f
unfolding set_timer
phase-set_timer reliable now f = phase-schedule_timer now f
phase-set_timer semireliable now f = refl
phase-set_timer unreliable now f = refl

phase-post_send :
    (how : Reliability) (ec : ErrorCode) (f : Flow) → phase (post_send how ec f) ≡ phase f
unfolding post_send
phase-post_send how ec f = ground arith

pub phase-async_send :
    (how : Reliability) (bytes : List ℕ) (msg_type now : ℕ) (f : Flow)
    → phase (async_send how bytes msg_type now f) ≡ phase f
unfolding async_send
phase-async_send how bytes msg_type now f =
    let sent_out = send how bytes msg_type now f in
    phase-set_timer how now (post_send how sent_out.1 sent_out.0)
    ∙ phase-post_send how sent_out.1 sent_out.0
    ∙ phase-send how bytes msg_type now f

pub phase-set_ping_interval : (t now : ℕ) (f : Flow) → phase (set_ping_interval t now f) ≡ phase f
unfolding set_ping_interval
phase-set_ping_interval t now f =
    let g : Flow = record f { tim = record (f.tim) { ping_interval = min t (2 ^ 31 - 1) } } in
    phase_if f (ltb t f.ping_interval) (schedule_timer now g) g (phase-schedule_timer now g) refl

-- The calls that were posted.
pub Forward-run_posted :
    (now : ℕ) (call : Effect) (f : Flow) → Forward (phase f) (phase (run_posted now call f))
unfolding run_posted
Forward-run_posted now (post_connected ec stamp) f =
    Forward-if (phase f) (is_canceled_op f stamp) f _ (Forward-refl (phase f))
      (Forward-allert_connected ec now f)
Forward-run_posted now (post_disconnected ec stamp) f =
    Forward-if (phase f) (is_canceled_op f stamp) f _ (Forward-refl (phase f))
      (Forward-allert_disconnected ec f)
Forward-run_posted now (post_writeable stamp) f =
    Forward-if (phase f) (is_canceled_op f stamp) f _ (Forward-refl (phase f))
      (Forward-allert_writeable now f)
Forward-run_posted now (post_async_receive stamp) f =
    Forward-async_receive (receive_fuel f) stamp now f
Forward-run_posted now post_on_clock f = Forward-on_clock 1 now f
Forward-run_posted now (sent a b c) f = Forward-refl (phase f)
Forward-run_posted now (sent_unreliable a b c d e) f = Forward-refl (phase f)
Forward-run_posted now (on_connected a) f = Forward-refl (phase f)
Forward-run_posted now (on_disconnected a) f = Forward-refl (phase f)
Forward-run_posted now (on_received a) f = Forward-refl (phase f)
Forward-run_posted now on_writeable f = Forward-refl (phase f)
Forward-run_posted now accept_flow f = Forward-refl (phase f)
Forward-run_posted now post_holder f = Forward-refl (phase f)
