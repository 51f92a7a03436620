-- ===== src/Urdp/Clock/Phase.antt =====
-- `__on_clock` of src/rdp/urdp_flow.cpp, and the order of the states.
use p2engine.Prelude.{
  Bool, Bool-cases, List, [], if◌then◌else◌, inl, inr, is_empty, not, refl, subst, suc, true, zero,
  ℕ, ◌&&◌, ◌==◌, ◌||◌, ◌∙◌, ◌∷◌, ◌≡◌,
}
use p2engine.Urdp.Clock.{
  clock_ack, clock_ping, clock_probe, clock_rest, clock_work, give_up, has_expired, is_due, ping,
  resend, resend_unreliable, resend_unreliable_one, shrink_windows, transmissions,
}
use p2engine.Urdp.Flow.{Flow, SUnraliableSegment, add32, is_connected, mod_minus_ge, sub32, time32}
use p2engine.Urdp.Lifecycle.Calls.{Forward-allert_disconnected}
use p2engine.Urdp.Lifecycle.Phase.{
  Forward-after, Forward-refl, Forward-to_closed_state, Forward-of_eq, phase, phase-attempt_send,
  phase-packet, phase-queue, phase_if,
}
use p2engine.Urdp.Lifecycle.Sending.{
  Forward-lost, Forward-retransmitted, ForwardFlow, ForwardFlow-before, ForwardFlow-bind,
  ForwardFlow-if, ForwardPair, ForwardPair-if, phase-incress_rto, phase_first,
}
use p2engine.Urdp.Output.{
  packet_as_reliable_and_sendout, packet_as_unreliable_and_sendout, retransmit_oldest,
}
use p2engine.Urdp.Queue.{queue}
use p2engine.Urdp.Rto.{incress_rto}
use p2engine.Urdp.Types.{ack, ack_delay, established, none_flag, same_state, scape_zero, timed_out}

ForwardPair-resend : (now : ℕ) (f : Flow) → ForwardPair (phase f) (resend now f)
unfolding resend
ForwardPair-resend now f =
    let g : Flow = (retransmit_oldest now f).0 in
    let g' : Flow = record g {
      snd = shrink_windows g.snd;
      tim = record (g.tim) { t_rto_base = scape_zero (time32 now) };
    } in
    ForwardPair-if (phase f) (f.t_rto_base == 0 || not (is_due (add32 f.t_rto_base f.rto) now)) _ _
      (Forward-refl (phase f))
      (ForwardPair-if (phase f) (is_empty f.retrans_slist) _ _ (Forward-refl (phase f)) (
        ForwardPair-if (phase f) (retransmit_oldest now f).1 _ _
          (Forward-after (phase f) g' (incress_rto g') (phase-incress_rto g')
            (Forward-retransmitted now f))
          (Forward-lost now f)))

phase-resend_unreliable :
    (fuel now : ℕ) (f : Flow) (l : List SUnraliableSegment)
    → f.unreliable_slist ≡ l
    → phase (resend_unreliable fuel now f) ≡ phase f
unfolding resend_unreliable resend_unreliable_one packet_as_unreliable_and_sendout
phase-resend_unreliable zero now f l e = refl
phase-resend_unreliable (suc fuel) now f [] e = rw (e, resend_unreliable)
phase-resend_unreliable (suc fuel) now f (seg ∷ rest) e =
    elim (Bool-cases (is_due seg.timeout now)) [
      | inl d ↦
          rw (e, d, resend_unreliable)
            (phase-resend_unreliable fuel now (resend_unreliable_one now seg rest f) _ refl)
      | inr d ↦ rw (e, d, resend_unreliable)
    ]

pub phase-ping : (now : ℕ) (f : Flow) → phase (ping now f).0 ≡ phase f
unfolding ping
phase-ping now f =
    let g : Flow =
      if is_empty f.slist && is_empty f.retrans_slist then queue (0 ∷ []) ack f else f in
    phase_first f (is_connected f) _ _
      (phase-attempt_send none_flag now g
        ∙ phase_if f (is_empty f.slist && is_empty f.retrans_slist) _ f (phase-queue (0 ∷ []) ack f)
            refl)
      refl

phase-clock_ping : (now : ℕ) (f : Flow) (b : Bool) → phase (clock_ping now (f, b)).0 ≡ phase f
unfolding clock_ping
phase-clock_ping now f b = phase_first f _ ((ping now f).0, true) (f, b) (phase-ping now f) refl

ForwardPair-clock_probe :
    (now : ℕ) (f : Flow) (b : Bool) → ForwardPair (phase f) (clock_probe now (f, b))
unfolding clock_probe give_up
ForwardPair-clock_probe now f b =
    let g : Flow = packet_as_reliable_and_sendout (sub32 f.snd_nxt 1) ack [] now f in
    ForwardPair-if (phase f)
      (same_state f.state established && (f.snd_wnd == 0) && is_due (add32 f.t_lastsend f.rto) now)
      _ _
      (ForwardPair-if (phase f) (mod_minus_ge (time32 now) f.t_lastrecv 15000) _ _
        (Forward-to_closed_state (phase f) _)
        (ForwardPair-if (phase f) b _ _ (Forward-of_eq (phase-incress_rto f))
          (Forward-of_eq (phase-incress_rto g ∙ phase-packet (sub32 f.snd_nxt 1) ack [] now f))))
      (Forward-refl (phase f))

phase-clock_ack : (now : ℕ) (f : Flow) (b : Bool) → phase (clock_ack now (f, b)) ≡ phase f
unfolding clock_ack
phase-clock_ack now f b =
    phase_if f (not b && not (f.t_ack == 0) && is_due (add32 f.t_ack ack_delay) now) _ f
      (phase-packet f.snd_nxt ack [] now f) refl

ForwardFlow-clock_rest :
    (now : ℕ) (f : Flow) (b : Bool) → ForwardFlow (phase f) (clock_rest now (f, b))
unfolding clock_rest
ForwardFlow-clock_rest now f b =
    let g : Flow = (clock_ping now (f, b)).0 in
    ForwardFlow-bind (phase f) _ _
      (subst (λ p. ForwardPair p (clock_probe now (clock_ping now (f, b))))
        (phase-clock_ping now f b) (ForwardPair-clock_probe now g (clock_ping now (f, b)).1))
      (λ k c le. Forward-after (phase f) k (clock_ack now (k, c)) (phase-clock_ack now k c) le)

-- What the clock sends only moves a flow on.
pub ForwardFlow-clock_work : (now : ℕ) (f : Flow) → ForwardFlow (phase f) (clock_work now f)
unfolding clock_work
ForwardFlow-clock_work now f =
    ForwardFlow-if (phase f) (has_expired now f) _ _ (Forward-allert_disconnected timed_out f) (
      ForwardFlow-bind (phase f) (resend now f) _ (ForwardPair-resend now f) (λ g b le.
        let h : Flow = resend_unreliable (transmissions g.unreliable_slist) now g in
        ForwardFlow-before (phase h) (phase f) _
          (Forward-after (phase f) g h
            (phase-resend_unreliable (transmissions g.unreliable_slist) now g g.unreliable_slist
              refl)
            le)
          (ForwardFlow-clock_rest now h b)))
