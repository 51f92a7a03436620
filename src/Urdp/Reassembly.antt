-- ===== src/Urdp/Reassembly.antt =====
-- Incoming data of src/rdp/urdp_flow.cpp: the set `m_rlist`, what of it is in order, and what a
-- reader takes. The set is a list in its order.
pub mod Reading
pub mod Wrapped
use p2engine.Prelude.{
  Bool, List, Option, [], drop, false, if◌then◌else◌, is_empty, leb, length, ltb, none, not, some,
  take, true, ℕ, ◌&&◌, ◌++◌, ◌-◌, ◌==◌, ◌∷◌,
}
use p2engine.Urdp.Flow.{RSegment, Receiver, add32, mod_less, mod_less_equal, mod_minus_ge, sub32}
use p2engine.Urdp.Format.{be16}
use p2engine.Urdp.Types.{recv_buf_size}

-- `m_rlist.insert(rseg)`: the set, and whether the segment went in.
unfoldable pub insert_rseg : RSegment → List RSegment → List RSegment × Bool
insert_rseg seg [] = (seg ∷ [], true)
insert_rseg seg (s ∷ r) =
    let (r', done) = insert_rseg seg r in
    if mod_less s.seq seg.seq
    then (s ∷ r', done)
    else if mod_less seg.seq s.seq
    then (seg ∷ s ∷ r, true)
    else (s ∷ r, false)

-- What the loop over `m_rlist` carries: `m_rcv_nxt`, `m_rlen` and `bNewData`.
pub record Progress : Type 0 where
  pub nxt : ℕ
  pub len : ℕ
  pub fresh : Bool

-- One segment that begins at or before `m_rcv_nxt`.
unfoldable pub deliver_segment : RSegment → Progress → Progress
deliver_segment s p =
    let seq_end = add32 s.seq (length s.buf) in
    if mod_less p.nxt seq_end
    then record {
      nxt = add32 p.nxt (sub32 seq_end p.nxt);
      len = add32 p.len (sub32 seq_end p.nxt);
      fresh = true;
    }
    else p

unfoldable pub deliver : List RSegment → Progress → Progress
unfolding deliver_segment
deliver [] p = p
deliver (s ∷ r) p = if mod_less_equal s.seq p.nxt then deliver r (deliver_segment s p) else p

-- Cuts what was received before off a segment. The test is a plain `<`.
unfoldable pub adjust_segment : ℕ → ℕ → List ℕ → ℕ × List ℕ
adjust_segment nxt seqno bytes =
    if ltb seqno nxt
    then (if ltb (nxt - seqno) (length bytes) then (nxt, drop (nxt - seqno) bytes) else (nxt, []))
    else (seqno, bytes)

-- Nothing is taken that reaches too far ahead of what is in order, if anything is stored.
unfoldable pub limit_segment : List RSegment → ℕ → ℕ → List ℕ → List ℕ
limit_segment rlist nxt seqno bytes =
    if not (is_empty rlist) && mod_minus_ge (add32 seqno (length bytes)) nxt recv_buf_size
    then []
    else bytes

-- The data of a segment goes into the set; what is in order now is counted.
unfoldable pub store_data : ℕ → List ℕ → Receiver → Receiver × Bool
unfolding insert_rseg deliver
store_data seqno bytes r =
    let (rlist, inserted) = insert_rseg (record { buf = bytes; seq = seqno }) r.rlist in
    let wnd =
      if inserted
      then (if ltb r.rcv_wnd (length bytes) then 0 else r.rcv_wnd - length bytes)
      else r.rcv_wnd in
    let start : Progress = record { nxt = r.rcv_nxt; len = r.rlen; fresh = false } in
    let p : Progress = if seqno == r.rcv_nxt then deliver rlist start else start in
    (record r { rlist = rlist; rcv_wnd = wnd; rcv_nxt = p.nxt; rlen = p.len }, p.fresh)

-- The whole of the data step of `__process`, with `bNewData`; `ignored` is `bIgnoreData`.
unfoldable pub accept_data : Bool → ℕ → List ℕ → Receiver → Receiver × Bool
unfolding adjust_segment limit_segment store_data
accept_data ignored seqno' bytes' r =
    let (seqno, cut) = adjust_segment r.rcv_nxt seqno' bytes' in
    let bytes = limit_segment r.rlist r.rcv_nxt seqno cut in
    if is_empty bytes
    then (r, false)
    else if ignored
    then (
      if seqno == r.rcv_nxt then record r { rcv_nxt = add32 r.rcv_nxt (length bytes) } else r,
      false,
    )
    else store_data seqno bytes r

-- The length field of the next message, from the first two bytes stored, which may lie in two
-- segments. `none` where the code would read past what is stored.
unfoldable pub message_len : List RSegment → Option ℕ
message_len [] = none
message_len (s ∷ r) = elim s.buf [
  | [] ↦ none
  | x ∷ t ↦ elim t [
    | y ∷ u ↦ some (be16 x y)
    | [] ↦ elim r [ [] ↦ none | s' ∷ r' ↦ elim s'.buf [ [] ↦ none | y ∷ u ↦ some (be16 x y) ] ]
  ]
]

-- The loop of `__recv`: the bytes taken, and the segments that are left. A segment that is taken
-- in part keeps its rest, under a later number.
unfoldable pub read_segments : ℕ → List RSegment → List ℕ × List RSegment
read_segments n [] = ([], [])
read_segments n (s ∷ r) =
    let (taken, rest) = read_segments (n - length s.buf) r in
    if n == 0
    then ([], s ∷ r)
    else if leb (length s.buf) n
    then (s.buf ++ taken, rest)
    else (take n s.buf, record { buf = drop n s.buf; seq = add32 s.seq n } ∷ r)
