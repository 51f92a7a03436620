-- ===== src/Urdp/Reassembly/Wrapped.antt =====
-- The plain `<` in the cut of old data by `__process` of src/rdp/urdp_flow.cpp.
use p2engine.Prelude.{
  List, [], arith, drop, drop_all, false, length, max, ℕ, ◌+◌, ◌-◌, ◌<◌, ◌^◌, ◌∷◌, ◌≡◌, ◌≤◌,
}
use p2engine.Urdp.Flow.{Receiver}
use p2engine.Urdp.Reassembly.{accept_data, adjust_segment}
use p2engine.Urdp.Types.{u32_mod}
use p2engine.Wrap.{wrap_neg, wrap_sub}

-- Where neither number has wrapped, exactly the bytes before `m_rcv_nxt` are cut off.
pub adjust_segment_cuts :
    (nxt seqno : ℕ) (bytes : List ℕ)
    → let r = adjust_segment nxt seqno bytes in
      (r.1 ≡ drop (nxt - seqno) bytes) × (r.0 ≡ max nxt seqno)
unfolding adjust_segment
adjust_segment_cuts nxt seqno bytes = ground (arith, drop_all (nxt - seqno) bytes)

-- A segment that lies wholly before `m_rcv_nxt`, but before the wrap of the sequence numbers while
-- `m_rcv_nxt` is behind it, is stored as if it were new, at the front of an empty store.
pub old_segment_stored :
    (seqno : ℕ) (bytes : List ℕ) (r : Receiver)
    → r.rlist ≡ []
    → 0 < length bytes
    → r.rcv_nxt < seqno
    → seqno < u32_mod
    → (seqno + length bytes ≤ u32_mod + r.rcv_nxt)
    → u32_mod + r.rcv_nxt < seqno + 2 ^ 31
    → (accept_data false seqno bytes r).0.rlist ≡ record { buf = bytes; seq = seqno } ∷ []
unfolding accept_data wrap_sub wrap_neg
old_segment_stored seqno bytes r e k lt small behind near = ground arith
