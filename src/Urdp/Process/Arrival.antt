-- ===== src/Urdp/Process/Arrival.antt =====
-- What a datagram does to the state of a flow: the `switch` of `__process` in
-- src/rdp/urdp_flow.cpp, without what follows it.
use p2engine.Prelude.{List, [], arith, not, subst, sym, true, ℕ, ◌==◌, ◌∙◌, ◌∷◌, ◌≡◌}
use p2engine.Urdp.Flow.{Flow, SSegment}
use p2engine.Urdp.Format.{bytes32}
use p2engine.Urdp.Lifecycle.Calls.{Forward-allert_disconnected}
use p2engine.Urdp.Lifecycle.Phase.{
  Forward, Forward-before, Forward-branch, Forward-if, Forward-refl, phase, phase-attempt_send,
  phase-packet, phase-queue, phase-schedule_timer,
}
use p2engine.Urdp.Lifecycle.Sending.{
  Forward-retransmitted, ForwardPair, ForwardPair-branch, ForwardPair-if,
}
use p2engine.Urdp.Output.{attempt_send, packet_as_reliable_and_sendout, token_id}
use p2engine.Urdp.Process.{
  accept_request, dispatch, lost_by_peer, on_connect, on_connect_ack, on_punch, punch_again,
  take_answer, touch,
}
use p2engine.Urdp.Process.Phase.{Forward-on_unreachable}
use p2engine.Urdp.Queue.{queue}
use p2engine.Urdp.Timer.{schedule_timer}
use p2engine.Urdp.Types.{
  Ctrl, Header, TcpState, ack, connect, connect_ack, connect_ack_ack, connection_reset, established,
  fin, fin_ack, immediate_ack, is_connect, listen, network_unreachable, payload, punch, rst,
  same_state, semireliable_data, success, syn_rcvd, syn_sent, unknown, unreliable_data,
}

is_listening : (s : TcpState) → same_state s listen ≡ true → s ≡ listen
is_listening s e = ground arith

is_waiting : (s : TcpState) → same_state s syn_sent ≡ true → s ≡ syn_sent
is_waiting s e = ground arith

-- A listening flow that gets a request.
Forward-requested :
    (f g : Flow)
    → f.state ≡ listen
    → phase g ≡ (syn_rcvd, f.close_called)
    → Forward (phase f) (phase g)
Forward-requested f g e k =
    let step : Forward (listen, f.close_called) (syn_rcvd, f.close_called) =
      λ m. (omega arith, λ a b. absurd (omega (arith, a))) in
    let from_f : Forward (phase f) (syn_rcvd, f.close_called) =
      subst (λ s. Forward (s, f.close_called) (syn_rcvd, f.close_called)) (sym e) step in
    subst (λ q. Forward (phase f) q) (sym k) from_f

phase-answered :
    (now : ℕ) (d : List ℕ) (g : Flow)
    → phase (schedule_timer now (attempt_send immediate_ack now (queue d connect_ack g))) ≡ phase g
phase-answered now d g =
    phase-schedule_timer now (attempt_send immediate_ack now (queue d connect_ack g))
    ∙ phase-attempt_send immediate_ack now (queue d connect_ack g)
    ∙ phase-queue d connect_ack g

Forward-on_connect :
    (now : ℕ) (h : Header) (bytes : List ℕ) (from : ℕ) (f : Flow)
    → same_state f.state listen ≡ true
    → Forward (phase f) (phase (on_connect now h bytes from f))
unfolding on_connect accept_request touch
Forward-on_connect now h bytes from f e =
    let g : Flow = accept_request now h bytes from f in
    Forward-requested f (on_connect now h bytes from f) (is_listening f.state e)
      (phase-answered now (bytes32 (token_id g) []) (touch now g))

Forward-punch_again :
    (now : ℕ) (l : List SSegment) (f : Flow) → Forward (phase f) (phase (punch_again now l f))
unfolding punch_again
Forward-punch_again now [] f = Forward-refl (phase f)
Forward-punch_again now (seg ∷ []) f =
    Forward-if (phase f) (is_connect seg.ctrl_type) _ f (Forward-retransmitted now _)
      (Forward-refl (phase f))
Forward-punch_again now (a ∷ b ∷ l) f = Forward-refl (phase f)

Forward-on_punch : (now from : ℕ) (f : Flow) → Forward (phase f) (phase (on_punch now from f))
unfolding on_punch touch
Forward-on_punch now from f = Forward-punch_again now _ _

-- The answer reaches a flow that waits for it.
ForwardPair-take_answer :
    (h : Header) (bytes : List ℕ) (f : Flow)
    → same_state f.state syn_sent ≡ true
    → ForwardPair (phase f) (take_answer h bytes f)
unfolding take_answer
ForwardPair-take_answer h [] f e = Forward-refl (phase f)
ForwardPair-take_answer h (a ∷ []) f e = Forward-refl (phase f)
ForwardPair-take_answer h (a ∷ b ∷ []) f e = Forward-refl (phase f)
ForwardPair-take_answer h (a ∷ b ∷ c ∷ []) f e = Forward-refl (phase f)
ForwardPair-take_answer h (a ∷ b ∷ c ∷ d ∷ rest) f e =
    subst (λ s. Forward (s, f.close_called) (established, f.close_called))
      (sym (is_waiting f.state e)) (λ m. (omega arith, λ x y. absurd (omega (arith, x))))

ForwardPair-on_connect_ack :
    (h : Header) (bytes : List ℕ) (f : Flow) → ForwardPair (phase f) (on_connect_ack h bytes f)
unfolding on_connect_ack
ForwardPair-on_connect_ack h bytes f =
    ForwardPair-branch (phase f) (same_state f.state syn_sent) _ _
      (λ e.
        ForwardPair-if (phase f) (not (h.session_id == f.session_id)) _ _ (Forward-refl (phase f))
          (ForwardPair-take_answer h bytes f e))
      (λ e. Forward-refl (phase f))

-- The `switch`.
pub ForwardPair-dispatch :
    (now : ℕ) (h : Header) (bytes : List ℕ) (from : ℕ) (ctrl : Ctrl) (f : Flow)
    → ForwardPair (phase f) (dispatch now h bytes from ctrl f)
unfolding dispatch lost_by_peer
ForwardPair-dispatch now h bytes from network_unreachable f = Forward-on_unreachable now h f
ForwardPair-dispatch now h bytes from connect f =
    Forward-branch (phase f) (same_state f.state listen) _ f
      (λ e. Forward-on_connect now h bytes from f e) (λ e. Forward-refl (phase f))
ForwardPair-dispatch now h bytes from connect_ack f = ForwardPair-on_connect_ack h bytes f
ForwardPair-dispatch now h bytes from punch f = Forward-on_punch now from f
ForwardPair-dispatch now h bytes from rst f =
    Forward-allert_disconnected connection_reset (lost_by_peer f)
ForwardPair-dispatch now h bytes from fin f =
    let g : Flow = packet_as_reliable_and_sendout f.snd_nxt fin_ack [] now (lost_by_peer f) in
    Forward-before _ g f (phase-packet f.snd_nxt fin_ack [] now (lost_by_peer f))
      (Forward-allert_disconnected connection_reset g)
ForwardPair-dispatch now h bytes from fin_ack f = Forward-allert_disconnected success f
ForwardPair-dispatch now h bytes from connect_ack_ack f = Forward-refl (phase f)
ForwardPair-dispatch now h bytes from payload f = Forward-refl (phase f)
ForwardPair-dispatch now h bytes from unreliable_data f = Forward-refl (phase f)
ForwardPair-dispatch now h bytes from semireliable_data f = Forward-refl (phase f)
ForwardPair-dispatch now h bytes from ack f = Forward-refl (phase f)
ForwardPair-dispatch now h bytes from (unknown n) f = Forward-refl (phase f)
