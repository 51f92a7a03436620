-- ===== src/Urdp/Ack.antt =====
-- The acknowledgement step of `__process` in src/rdp/urdp_flow.cpp: timestamps, the round trip time,
-- the segments that are acknowledged, fast retransmission and recovery, congestion control.
pub mod Phase
pub mod Removal
use p2engine.Prelude.{
  Bool, List, [], false, if◌then◌else◌, is_empty, leb, ltb, max, min, true, ℕ, ◌%◌, ◌&&◌, ◌*◌, ◌+◌,
  ◌-◌, ◌/◌, ◌==◌, ◌∷◌,
}
use p2engine.Urdp.Flow.{
  Flow, SSegment, Sender, Timing, add32, mod_less, mod_less_equal, mod_minus_ge, sub32, time32,
}
use p2engine.Urdp.Lifecycle.{allert_disconnected}
use p2engine.Urdp.Output.{retransmit_oldest}
use p2engine.Urdp.Rto.{updata_rtt}
use p2engine.Urdp.Types.{
  Header, established, same_state, scape_zero, syn_rcvd, timed_out, u16_mod, u32_mod, u8_mod,
}
use p2engine.Wrap.{wrappable_minus}

-- A step of `__process`: it returns from the function with a result, or goes on.
pub data Outcome (A : Type 0) : Type 0 where
  stop : Flow → Bool → Outcome A
  more : A → Outcome A

infixl 5 ◌>>=◌
abbrev pub ◌>>=◌ : {A B : Type 0} → Outcome A → (A → Outcome B) → Outcome B
stop f b >>= k = stop f b
more a >>= k = k a

-- `m_t_recent` is taken from the segment that covers the last acknowledgement sent.
unfoldable pub update_timestamp : ℕ → Header → ℕ → Flow → Flow
update_timestamp now h len f =
    if mod_less_equal h.seqno f.lastack && mod_less f.lastack (add32 h.seqno len)
    then record f {
      tim = record (f.tim) { t_recent_now = now % u16_mod; t_recent = h.time_sending };
    }
    else f

unfoldable pub measure_rtt : ℕ → Header → Timing → Timing
unfolding updata_rtt
measure_rtt now h t =
    if h.time_echo == 0
    then t
    else updata_rtt (wrappable_minus u16_mod (now % u16_mod) h.time_echo) t

-- The loop that removes acknowledged segments from the front of `m_retrans_slist`.
unfoldable pub pop_acked : ℕ → List SSegment → List SSegment
pop_acked una [] = []
pop_acked una (s ∷ r) = if mod_minus_ge una s.seq 1 then pop_acked una r else s ∷ r

-- The counters and lists after an acknowledgement of new data.
unfoldable pub advance_una : ℕ → Header → Flow → Flow
unfolding measure_rtt pop_acked scape_zero
advance_una now h f =
    let tim = measure_rtt now h f.tim in
    let rest = pop_acked h.ackno f.retrans_slist in
    let base =
      if h.ackno == f.snd_nxt
      then 0
      else if tim.t_rto_base == 0
      then scape_zero (time32 now)
      else tim.t_rto_base in
    record f {
      snd = record (f.snd) {
        snd_wnd = h.window;
        snd_una = h.ackno;
        slen = sub32 f.slen (sub32 h.ackno f.snd_una);
        retrans_slist = rest;
      };
      tim = record tim { t_rto_base = if is_empty rest then 0 else base };
    }

-- Slow start and congestion avoidance.
unfoldable pub grow_cwnd : Sender → Sender
grow_cwnd s = record s {
  dup_acks = 0;
  cwnd =
      if ltb s.cwnd s.ssthresh
      then add32 s.cwnd s.mss
      else add32 s.cwnd (max 1 (s.mss * s.mss / s.cwnd) % u32_mod);
}

-- The end of fast recovery.
unfoldable pub exit_recovery : Sender → Sender
exit_recovery s = record s {
  cwnd = min s.ssthresh (add32 (sub32 s.snd_nxt s.snd_una) s.mss);
  dup_acks = 0;
}

-- Fast recovery goes on: the oldest segment is sent again, and the window shrinks by what was
-- acknowledged.
unfoldable pub recover_more : ℕ → ℕ → Flow → Outcome Flow
recover_more now acked f =
    let (g, done) = retransmit_oldest now f in
    if done
    then more (record g {
      snd = record (g.snd) { cwnd = (g.cwnd + g.mss + u32_mod - min acked g.cwnd) % u32_mod };
    })
    else stop (allert_disconnected timed_out g) true

-- The test `m_snd_una >= m_recover` is a plain one.
unfoldable pub after_new_ack : ℕ → ℕ → Flow → Outcome Flow
after_new_ack now acked f =
    if leb 3 f.dup_acks
    then (if leb f.recover f.snd_una
        then more (record f { snd = exit_recovery f.snd })
        else recover_more now acked f)
    else more (record f { snd = grow_cwnd f.snd })

-- The acknowledgement of the handshake; the flag is `notifyAccepet`.
unfoldable pub establish : Flow → Flow × Bool
establish f =
    if same_state f.state syn_rcvd
    then (record f { conn = record (f.conn) { state = established } }, true)
    else (f, false)

unfoldable pub new_ack : ℕ → Header → Flow → Outcome (Flow × Bool)
new_ack now h f = do
  g ← after_new_ack now (sub32 h.ackno f.snd_una) (advance_una now h f)
  more (establish g)

-- The third duplicate: fast retransmission.
unfoldable pub fast_retransmit : ℕ → Flow → Outcome (Flow × Bool)
fast_retransmit now f' =
    let f = record f' {
      snd = record (f'.snd) {
        ssthresh = max (sub32 f'.snd_nxt f'.snd_una * 3 % u32_mod / 4) (3 * f'.mss % u32_mod);
        recover = f'.snd_nxt;
      };
    } in
    let (g, done) = retransmit_oldest now f in
    if done then more (g, false) else stop (allert_disconnected timed_out g) true

-- An acknowledgement of what is acknowledged already, with no data: one more duplicate.
unfoldable pub duplicate_ack : ℕ → Flow → Outcome (Flow × Bool)
duplicate_ack now f =
    let g = record f { snd = record (f.snd) { dup_acks = (f.dup_acks + 1) % u8_mod } } in
    if g.dup_acks == 3
    then fast_retransmit now g
    else if ltb 3 g.dup_acks
    then more (record g { snd = record (g.snd) { cwnd = add32 g.cwnd g.mss } }, false)
    else more (g, false)

unfoldable pub same_ack : ℕ → Header → ℕ → Flow → Outcome (Flow × Bool)
same_ack now h len f' =
    let f = record f' { snd = record (f'.snd) { snd_wnd = h.window } } in
    if ltb 0 len
    then more (f, false)
    else if f.snd_una == f.snd_nxt
    then more (record f { snd = record (f.snd) { dup_acks = 0 } }, false)
    else duplicate_ack now f

-- The whole step, on a segment with `len` bytes of data.
unfoldable pub process_ack : ℕ → Header → ℕ → Flow → Outcome (Flow × Bool)
process_ack now h len f =
    if mod_less f.snd_una h.ackno && mod_less_equal h.ackno f.snd_nxt
    then new_ack now h f
    else if h.ackno == f.snd_una
    then same_ack now h len f
    else more (f, false)
