-- ===== src/Urdp/Ack/Phase.antt =====
-- The acknowledgement step of `__process` in src/rdp/urdp_flow.cpp, and the order of the states.
use p2engine.Prelude.{
  Bool-cases, arith, inl, inr, leb, ltb, max, refl, ℕ, ◌%◌, ◌&&◌, ◌*◌, ◌+◌, ◌/◌, ◌==◌, ◌≡◌,
}
use p2engine.Urdp.Ack.{
  advance_una, after_new_ack, duplicate_ack, establish, fast_retransmit, new_ack, process_ack,
  recover_more, same_ack, update_timestamp,
}
use p2engine.Urdp.Flow.{Flow, add32, mod_less, mod_less_equal, sub32}
use p2engine.Urdp.Lifecycle.Phase.{Forward, Forward-refl, Forward-trans, phase}
use p2engine.Urdp.Lifecycle.Sending.{
  Forward-lost, Forward-retransmitted, ForwardFlow, ForwardFlow-if, ForwardPair, ForwardPair-bind,
  ForwardPair-if,
}
use p2engine.Urdp.Output.{retransmit_oldest}
use p2engine.Urdp.Types.{Header, u32_mod, u8_mod}

pub phase-update_timestamp :
    (now : ℕ) (h : Header) (len : ℕ) (f : Flow) → phase (update_timestamp now h len f) ≡ phase f
unfolding update_timestamp
phase-update_timestamp now h len f =
    elim (Bool-cases (mod_less_equal h.seqno f.lastack && mod_less f.lastack (add32 h.seqno len))) [
      | inl e ↦ rw (e, update_timestamp)
      | inr e ↦ rw (e, update_timestamp)
    ]

phase-advance_una : (now : ℕ) (h : Header) (f : Flow) → phase (advance_una now h f) ≡ phase f
unfolding advance_una
phase-advance_una now h f = refl

ForwardFlow-after_new_ack :
    (now acked : ℕ) (f : Flow) → ForwardFlow (phase f) (after_new_ack now acked f)
unfolding after_new_ack recover_more
ForwardFlow-after_new_ack now acked f =
    ForwardFlow-if (phase f) (leb 3 f.dup_acks) _ _
      (ForwardFlow-if (phase f) (leb f.recover f.snd_una) _ _ (Forward-refl (phase f)) (
        ForwardFlow-if (phase f) (retransmit_oldest now f).1 _ _ (Forward-retransmitted now f)
          (Forward-lost now f)))
      (Forward-refl (phase f))

-- The handshake is over: SYN_RCVD becomes ESTABLISHED.
Forward-establish : (f : Flow) → Forward (phase f) (phase (establish f).0)
unfolding establish
Forward-establish f m = ground arith

ForwardPair-new_ack : (now : ℕ) (h : Header) (f : Flow) → ForwardPair (phase f) (new_ack now h f)
unfolding new_ack advance_una
ForwardPair-new_ack now h f =
    ForwardPair-bind (phase f) _ _
      (ForwardFlow-after_new_ack now (sub32 h.ackno f.snd_una) (advance_una now h f))
      (λ g le. Forward-trans (phase f) (phase g) _ le (Forward-establish g))

ForwardPair-fast_retransmit : (now : ℕ) (f : Flow) → ForwardPair (phase f) (fast_retransmit now f)
unfolding fast_retransmit
ForwardPair-fast_retransmit now f =
    let g = record f {
      snd = record (f.snd) {
        ssthresh = max (sub32 f.snd_nxt f.snd_una * 3 % u32_mod / 4) (3 * f.mss % u32_mod);
        recover = f.snd_nxt;
      };
    } in
    ForwardPair-if (phase f) (retransmit_oldest now g).1 _ _ (Forward-retransmitted now g)
      (Forward-lost now g)

ForwardPair-duplicate_ack : (now : ℕ) (f : Flow) → ForwardPair (phase f) (duplicate_ack now f)
unfolding duplicate_ack
ForwardPair-duplicate_ack now f =
    let g = record f { snd = record (f.snd) { dup_acks = (f.dup_acks + 1) % u8_mod } } in
    ForwardPair-if (phase f) (g.dup_acks == 3) _ _ (ForwardPair-fast_retransmit now g) (
      ForwardPair-if (phase f) (ltb 3 g.dup_acks) _ _ (Forward-refl (phase f))
        (Forward-refl (phase f)))

ForwardPair-same_ack :
    (now : ℕ) (h : Header) (len : ℕ) (f : Flow) → ForwardPair (phase f) (same_ack now h len f)
unfolding same_ack
ForwardPair-same_ack now h len f =
    let g = record f { snd = record (f.snd) { snd_wnd = h.window } } in
    ForwardPair-if (phase f) (ltb 0 len) _ _ (Forward-refl (phase f)) (
      ForwardPair-if (phase f) (f.snd_una == f.snd_nxt) _ _ (Forward-refl (phase f))
        (ForwardPair-duplicate_ack now g))

-- The acknowledgement step only moves a flow on.
pub ForwardPair-process_ack :
    (now : ℕ) (h : Header) (len : ℕ) (f : Flow) → ForwardPair (phase f) (process_ack now h len f)
unfolding process_ack
ForwardPair-process_ack now h len f =
    ForwardPair-if (phase f) (mod_less f.snd_una h.ackno && mod_less_equal h.ackno f.snd_nxt) _ _
      (ForwardPair-new_ack now h f)
      (ForwardPair-if (phase f) (h.ackno == f.snd_una) _ _ (ForwardPair-same_ack now h len f)
        (Forward-refl (phase f)))
