-- ===== src/Urdp/Process/Phase.antt =====
-- `__process` and `called_by_sharedlayer_on_recvd` of src/rdp/urdp_flow.cpp, and the order of the
-- states.
use p2engine.Prelude.{
  Bool, List, arith, if◌then◌else◌, length, ltb, not, subst, true, ℕ, ◌&&◌, ◌+◌, ◌/◌, ◌==◌, ◌||◌,
  ◌≡◌,
}
use p2engine.Urdp.Ack.{process_ack, update_timestamp}
use p2engine.Urdp.Ack.Phase.{ForwardPair-process_ack, phase-update_timestamp}
use p2engine.Urdp.Flow.{Flow}
use p2engine.Urdp.Lifecycle.{allert_connected, allert_writeable, send_fin}
use p2engine.Urdp.Lifecycle.Calls.{
  Forward-allert_accepted, Forward-allert_connected, Forward-allert_disconnected,
  Forward-allert_writeable,
}
use p2engine.Urdp.Lifecycle.Phase.{
  Forward, Forward-after, Forward-before, Forward-branch, Forward-fin, Forward-if, Forward-refl,
  Forward-trans, phase, phase-attempt_send, phase-schedule_timer,
}
use p2engine.Urdp.Lifecycle.Sending.{ForwardFlow, ForwardFlow-bind, ForwardFlow-if, ForwardPair}
use p2engine.Urdp.Output.{attempt_send}
use p2engine.Urdp.Process.{
  ack_flags, has_shutdown, lost_by_peer, notify, on_unreachable, process_data, process_segment,
  touch,
}
use p2engine.Urdp.Reassembly.{accept_data}
use p2engine.Urdp.Receive.{allert_readable}
use p2engine.Urdp.Receive.Phase.{Forward-allert_readable}
use p2engine.Urdp.Timer.{schedule_timer}
use p2engine.Urdp.Types.{
  Header, at_least, closing, connection_reset, host_unreachable, is_data, recv_buf_size, same_state,
  snd_buf_size, success, syn_sent,
}

Forward-notify :
    (now : ℕ) (connected fresh accepted : Bool) (f : Flow)
    → Forward (phase f) (phase (notify now connected fresh accepted f))
unfolding notify
Forward-notify now connected fresh accepted f =
    let readable = fresh && f.detect_readable in
    let writable = f.detect_writable && ltb f.slen ((snd_buf_size + recv_buf_size) / 2) in
    let f1 : Flow = if connected then allert_connected success now f else f in
    let f2 : Flow = if writable then allert_writeable now f1 else f1 in
    let f3 : Flow = if readable then allert_readable now f2 else f2 in
    let s1 : Forward (phase f) (phase f1) =
      Forward-if (phase f) connected _ f (Forward-allert_connected success now f)
        (Forward-refl (phase f)) in
    let s2 : Forward (phase f1) (phase f2) =
      Forward-if (phase f1) writable _ f1 (Forward-allert_writeable now f1)
        (Forward-refl (phase f1)) in
    let s3 : Forward (phase f2) (phase f3) =
      Forward-if (phase f2) readable _ f2 (Forward-allert_readable now f2)
        (Forward-refl (phase f2)) in
    let s4 =
      Forward-if (phase f3) accepted _ f3 (Forward-allert_accepted now f3)
        (Forward-refl (phase f3)) in
    Forward-trans (phase f) (phase f1) _ s1
      (Forward-trans (phase f1) (phase f2) _ s2 (Forward-trans (phase f2) (phase f3) _ s3 s4))

-- The FIN of a flow whose data is all acknowledged.
Forward-closing :
    (now : ℕ) (f : Flow)
    → same_state f.state closing ≡ true
    → Forward (phase f) (phase (schedule_timer now (send_fin now f)))
Forward-closing now f e =
    Forward-after (phase f) (send_fin now f) (schedule_timer now (send_fin now f))
      (phase-schedule_timer now (send_fin now f)) (Forward-fin now f e)

Forward-process_data :
    (now : ℕ) (h : Header) (bytes : List ℕ) (connected accepted : Bool) (f : Flow)
    → Forward (phase f) (phase (process_data now h bytes connected accepted f))
unfolding process_data
Forward-process_data now h bytes connected accepted f =
    let flags = ack_flags h (length bytes) connected f in
    let rcv = (accept_data (not (is_data h.control) || has_shutdown f) h.seqno bytes f.rcv).0 in
    let fresh = (accept_data (not (is_data h.control) || has_shutdown f) h.seqno bytes f.rcv).1 in
    let g : Flow = record f { rcv = rcv } in
    let sent : Flow = attempt_send flags now g in
    Forward-branch (phase f) (same_state f.state closing && (h.ackno == f.snd_nxt)) _ _
      (λ e. Forward-closing now g (ground arith))
      (λ e.
        Forward-before _ sent f (phase-attempt_send flags now g)
          (Forward-notify now connected fresh accepted sent))

pub Forward-process_segment :
    (now : ℕ) (h : Header) (bytes : List ℕ) (from : ℕ) (connected : Bool) (f : Flow)
    → ForwardFlow (phase f) (process_segment now h bytes from connected f)
unfolding process_segment touch
Forward-process_segment now h bytes from connected f =
    let g : Flow = update_timestamp now h (length bytes) (touch now f) in
    ForwardFlow-if (phase f) (at_least f.state syn_sent && not (f.remote_endpoint == from)) _ _
      (Forward-refl (phase f))
      (ForwardFlow-bind (phase f) _ _
        (subst (λ p. ForwardPair p (process_ack now h (length bytes) g))
          (phase-update_timestamp now h (length bytes) (touch now f))
          (ForwardPair-process_ack now h (length bytes) g))
        (λ k b le.
          Forward-trans (phase f) (phase k) _ le (Forward-process_data now h bytes connected b k)))

pub Forward-on_unreachable :
    (now : ℕ) (h : Header) (f : Flow) → Forward (phase f) (phase (on_unreachable now h f))
unfolding on_unreachable lost_by_peer
Forward-on_unreachable now h f =
    Forward-if (phase f) (h.session_id == f.session_id) _ f
      (Forward-if (phase f) (same_state f.state syn_sent) _ _
        (Forward-allert_connected host_unreachable now f)
        (Forward-allert_disconnected connection_reset (lost_by_peer f)))
      (Forward-refl (phase f))
