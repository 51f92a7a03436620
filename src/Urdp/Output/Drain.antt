-- ===== src/Urdp/Output/Drain.antt =====
-- `__attempt_send` of src/rdp/urdp_flow.cpp and the send queue.
use p2engine.Prelude.{
  Bool-cases, List, [], ap, append-nil, append_assoc, ap₂, arith, inl, inr, length, map, max, refl,
  subst, sym, ℕ, ◌*◌, ◌++◌, ◌+◌, ◌/◌, ◌<◌, ◌∙◌, ◌∷◌, ◌≡◌,
}
use p2engine.Urdp.Flow.{Flow, SSegment, Sender, add32, mod_minus_ge, time32}
use p2engine.Urdp.Output.{attempt_send, decay_cwnd, send_loop, shift}
use p2engine.Urdp.Output.Frame.{
  after_transmit, count_xmit, exhausted-fresh, kept, kept-attempt_send, kept-send_ack, sent_once,
  snd-after_transmit, transmit_lem,
}
use p2engine.Urdp.Queue.Invariant.{AllSized-append, Chain-append, IsSound}
use p2engine.Urdp.Queue.Stream.{AllFresh, AllSized, Chain, size, size-append}
use p2engine.Urdp.Types.{SendFlags, none_flag, u32_mod}

-- The sequence number behind a run of segments.
abbrev pub advance : ℕ → List SSegment → ℕ
advance q [] = q
advance q (s ∷ r) = advance (add32 q (length s.buf)) r

pub advance_lem : (q : ℕ) (l : List SSegment) → q < u32_mod → advance q l ≡ add32 q (size l)
advance_lem q [] h = omega arith
advance_lem q (s ∷ r) h = omega (arith, advance_lem (add32 q (length s.buf)) r (omega arith))

-- The sender once the loop has gone through fresh segments.
abbrev pub drained : List SSegment → Sender → Sender
drained l s = record s {
  slist = [];
  retrans_slist = s.retrans_slist ++ map count_xmit l;
  snd_nxt = advance s.snd_nxt l;
}

-- One round of the loop, on the sender.
pub snd-round :
    (seg : SSegment) (rest : List SSegment) (now : ℕ) (f : Flow)
    → seg.xmit ≡ 0
    → (shift (count_xmit seg) rest (after_transmit seg now f)).snd ≡ record (f.snd) {
      slist = rest;
      retrans_slist = f.retrans_slist ++ (count_xmit seg ∷ []);
      snd_nxt = add32 f.snd_nxt (length seg.buf);
    }
unfolding shift
snd-round seg rest now f e = ap (queued seg rest) (snd-after_transmit seg now f ∙ once)
  where
    queued : SSegment → List SSegment → Sender → Sender
    queued x l s = record s { slist = l; retrans_slist = s.retrans_slist ++ (count_xmit x ∷ []) }

    once : sent_once seg f.snd ≡ record (f.snd) { snd_nxt = add32 f.snd_nxt (length seg.buf) }
    once = rw e

pub snd-send_loop :
    (l : List SSegment) (flags : SendFlags) (now : ℕ) (f : Flow)
    → f.slist ≡ l
    → AllFresh l
    → (send_loop l flags now f).snd ≡ drained l f.snd
unfolding send_loop
snd-send_loop [] flags now f e h =
    (kept-send_ack flags now f).1
    ∙ ap₂ (λ (l r : List SSegment). record (f.snd) { slist = l; retrans_slist = r }) e
        (sym (append-nil f.retrans_slist))
snd-send_loop (seg ∷ rest) flags now f e h =
    rw (transmit_lem, exhausted-fresh seg now f h.0, send_loop)
      (snd-send_loop rest none_flag now (shift (count_xmit seg) rest (after_transmit seg now f))
          (ap (λ (s : Sender). s.slist) (snd-round seg rest now f h.0)) h.1
        ∙ ap (drained rest) (snd-round seg rest now f h.0)
        ∙ ap
            (λ (r : List SSegment). record (f.snd) {
              slist = [];
              retrans_slist = r;
              snd_nxt = advance (add32 f.snd_nxt (length seg.buf)) rest;
            })
            (append_assoc f.retrans_slist (count_xmit seg ∷ []) (map count_xmit rest)))

-- `decay_cwnd` only changes the window.
pub snd-decay_cwnd :
    (now : ℕ) (f : Flow) → (c : ℕ) × ((decay_cwnd now f).snd ≡ record (f.snd) { cwnd = c })
unfolding decay_cwnd
snd-decay_cwnd now f = elim (Bool-cases (mod_minus_ge (time32 now) f.t_lastsend (f.rto + 1))) [
  | inl e ↦ (max (2 * f.mss) (f.cwnd / 2), rw (e, decay_cwnd))
  | inr e ↦ (f.cwnd, rw (e, decay_cwnd))
]

-- The sender after `__attempt_send`, up to its congestion window.
pub snd-attempt_send :
    (flags : SendFlags) (now : ℕ) (f : Flow)
    → AllFresh f.slist
    → (c : ℕ) × ((attempt_send flags now f).snd ≡ drained f.slist (record (f.snd) { cwnd = c }))
unfolding attempt_send
snd-attempt_send flags now f h =
    let (c, e) = snd-decay_cwnd now f in
    (
      c,
      snd-send_loop (decay_cwnd now f).slist flags now (decay_cwnd now f) refl (rw e h)
          ∙ ap (λ (s : Sender). drained s.slist s) e,
    )

pub attempt_send_drains :
    (flags : SendFlags) (now : ℕ) (f : Flow)
    → AllFresh f.slist
    → f.snd_nxt < u32_mod
    → let g = attempt_send flags now f in
      (g.slist ≡ [])
      × (g.retrans_slist ≡ f.retrans_slist ++ map count_xmit f.slist)
      × (g.snd_nxt ≡ add32 f.snd_nxt (size f.slist))
      × (g.snd_una ≡ f.snd_una)
      × (kept g ≡ kept f)
attempt_send_drains flags now f h k =
    let (c, e) = snd-attempt_send flags now f h in
    (
      ap (λ (s : Sender). s.slist) e,
      ap (λ (s : Sender). s.retrans_slist) e,
      ap (λ (s : Sender). s.snd_nxt) e ∙ advance_lem f.snd_nxt f.slist k,
      ap (λ (s : Sender). s.snd_una) e,
      kept-attempt_send flags now f,
    )

-- The counters of transmissions do not show in the run of segments.
module _ (mss : ℕ) where
  AllSized-count : (l : List SSegment) → AllSized mss l → AllSized mss (map count_xmit l)
  AllSized-count [] h = tt
  AllSized-count (s ∷ r) h = (h.0, h.1, AllSized-count r h.2)

Chain-count : (q : ℕ) (l : List SSegment) → Chain q l → Chain q (map count_xmit l)
Chain-count q [] h = tt
Chain-count q (s ∷ r) h = (h.0, Chain-count (add32 q (length s.buf)) r h.1)

size-count : (l : List SSegment) → size (map count_xmit l) ≡ size l
size-count [] = refl
size-count (s ∷ r) = omega (arith, size-count r)

drained-IsSound : (s : Sender) → IsSound s → IsSound (drained s.slist s)
drained-IsSound s v =
    let sum = size-append s.retrans_slist (map count_xmit s.slist) in
    let same = size-count s.slist in
    let moved = advance_lem s.snd_nxt s.slist (omega (arith, v.nxt)) in
    record {
      mss_pos = v.mss_pos;
      una_small = v.una_small;
      total = omega (arith, sum, same, v.total);
      small = v.small;
      nxt = omega (arith, sum, same, moved, v.nxt);
      chain_sent =
          Chain-append s.snd_una s.retrans_slist (map count_xmit s.slist) v.una_small v.chain_sent (
            subst (λ q. Chain q (map count_xmit s.slist)) v.nxt
              (Chain-count s.snd_nxt s.slist v.chain_waiting));
      chain_waiting = tt;
      sized_sent =
          AllSized-append s.mss s.retrans_slist (map count_xmit s.slist) v.sized_sent
            (AllSized-count s.mss s.slist v.sized_waiting);
      sized_waiting = tt;
      fresh = tt;
    }

-- `__attempt_send` keeps the send queue sound.
pub attempt_send-IsSound :
    (flags : SendFlags) (now : ℕ) (f : Flow)
    → IsSound f.snd
    → IsSound (attempt_send flags now f).snd
attempt_send-IsSound flags now f v =
    let (c, e) = snd-attempt_send flags now f v.fresh in
    rw e (drained-IsSound (record (f.snd) { cwnd = c }) (with_cwnd c))
  where
    with_cwnd : (c : ℕ) → IsSound (record (f.snd) { cwnd = c })
    with_cwnd c = record {
      mss_pos = v.mss_pos;
      una_small = v.una_small;
      total = v.total;
      small = v.small;
      nxt = v.nxt;
      chain_sent = v.chain_sent;
      chain_waiting = v.chain_waiting;
      sized_sent = v.sized_sent;
      sized_waiting = v.sized_waiting;
      fresh = v.fresh;
    }
