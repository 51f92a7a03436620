-- ===== src/Urdp/Queue/Invariant.antt =====
-- The send queue: what is sent and not acknowledged, then what waits, as one run of sequence
-- numbers. `__queue` keeps it so.
use p2engine.Prelude.{
  Bool-cases, List, Option-cases, [], arith, drop, false, inl, inr, length, length-append,
  length-drop, length-take, refl, some, subst, suc, take, true, zero, ℕ, ◌++◌, ◌+◌, ◌<◌, ◌^◌, ◌∙◌,
  ◌∷◌, ◌≡◌, ◌≤◌,
}
use p2engine.Urdp.Flow.{Flow, SSegment, Sender, add32}
use p2engine.Urdp.Queue.{can_join, can_write_len, extend_last, last?, queue, queue_loop, queue_step}
use p2engine.Urdp.Queue.Stream.{
  AllFresh, AllSized, Chain, can_write_len-pos, can_write_len_lem, contents, contents-queue_loop,
  room, size, size-append,
}
use p2engine.Urdp.Types.{Ctrl, u32_mod}

-- The sender's invariant. The segments sent lie one behind the other from `m_snd_una` to
-- `m_snd_nxt`, those that wait from there on; `m_slen` is their total; each holds between one and
-- `m_mss` bytes; none that waits was sent.
pub record IsSound (s : Sender) : Type 0 where
  pub mss_pos : 0 < s.mss
  pub una_small : s.snd_una < u32_mod
  pub total : s.slen ≡ size s.retrans_slist + size s.slist
  pub small : s.slen < 2 ^ 31
  pub nxt : s.snd_nxt ≡ add32 s.snd_una (size s.retrans_slist)
  pub chain_sent : Chain s.snd_una s.retrans_slist
  pub chain_waiting : Chain s.snd_nxt s.slist
  pub sized_sent : AllSized s.mss s.retrans_slist
  pub sized_waiting : AllSized s.mss s.slist
  pub fresh : AllFresh s.slist

pub Chain-append :
    (q : ℕ) (l m : List SSegment)
    → q < u32_mod
    → Chain q l
    → Chain (add32 q (size l)) m
    → Chain q (l ++ m)
Chain-append q [] m h c k = subst (λ p. Chain p m) (omega arith) k
Chain-append q (s ∷ r) m h c k = (
  c.0,
  Chain-append (add32 q (length s.buf)) r m (omega arith) c.1
      (subst (λ p. Chain p m) (omega arith) k),
)

pub AllSized-append :
    (mss : ℕ) (l m : List SSegment) → AllSized mss l → AllSized mss m → AllSized mss (l ++ m)
AllSized-append mss [] m h k = k
AllSized-append mss (s ∷ r) m h k = (h.0, h.1, AllSized-append mss r m h.2 k)

pub AllFresh-append : (l m : List SSegment) → AllFresh l → AllFresh m → AllFresh (l ++ m)
AllFresh-append [] m h k = k
AllFresh-append (s ∷ r) m h k = (h.0, AllFresh-append r m h.1 k)

module _ (d : List ℕ) where
  AllSized-extend_last :
      (mss : ℕ) (l : List SSegment) (s : SSegment)
      → last? l ≡ some s
      → length s.buf + length d ≤ mss
      → AllSized mss l
      → AllSized mss (extend_last d l)
  AllSized-extend_last mss [] s e h v = tt
  AllSized-extend_last mss (x ∷ []) s e h v = ground (arith, length-append x.buf d)
  AllSized-extend_last mss (x ∷ y ∷ r) s e h v =
      (v.0, v.1, AllSized-extend_last mss (y ∷ r) s e h v.2)

  AllFresh-extend_last : (l : List SSegment) → AllFresh l → AllFresh (extend_last d l)
  AllFresh-extend_last [] v = tt
  AllFresh-extend_last (x ∷ []) v = v
  AllFresh-extend_last (x ∷ y ∷ r) v = (v.0, AllFresh-extend_last (y ∷ r) v.1)

  Chain-extend_last : (q : ℕ) (l : List SSegment) → Chain q l → Chain q (extend_last d l)
  Chain-extend_last q [] v = tt
  Chain-extend_last q (x ∷ []) v = v
  Chain-extend_last q (x ∷ y ∷ r) v = (v.0, Chain-extend_last (add32 q (length x.buf)) (y ∷ r) v.1)

  size-extend_last :
      (l : List SSegment) (s : SSegment)
      → last? l ≡ some s
      → size (extend_last d l) ≡ size l + length d
  size-extend_last [] s e = cc
  size-extend_last (x ∷ []) s e = omega (arith, length-append x.buf d)
  size-extend_last (x ∷ y ∷ r) s e = omega (arith, size-extend_last (y ∷ r) s e)

-- A new segment at the end.
new_segment-IsSound :
    (ctrl : Ctrl) (d : List ℕ) (s : Sender)
    → IsSound s
    → 0 < length d
    → length d ≤ s.mss
    → s.slen + length d < 2 ^ 31
    → IsSound (record s {
      slist =
          s.slist
          ++ (record { buf = d; seq = add32 s.snd_una s.slen; xmit = 0; ctrl_type = ctrl } ∷ []);
      slen = add32 s.slen (length d);
    })
new_segment-IsSound ctrl d s v pos_len fits bounded = record {
  mss_pos = v.mss_pos;
  una_small = v.una_small;
  total = omega (
    arith,
    size-append s.slist
        (record { buf = d; seq = add32 s.snd_una s.slen; xmit = 0; ctrl_type = ctrl } ∷ []),
    v.total,
  );
  small = omega arith;
  nxt = v.nxt;
  chain_sent = v.chain_sent;
  chain_waiting =
      Chain-append s.snd_nxt s.slist _ (omega (arith, v.nxt)) v.chain_waiting
        (omega (arith, v.nxt, v.total), tt);
  sized_sent = v.sized_sent;
  sized_waiting = AllSized-append s.mss s.slist _ v.sized_waiting (pos_len, fits, tt);
  fresh = AllFresh-append s.slist _ v.fresh (refl, tt);
}

-- More bytes in the last segment.
extend_last-IsSound :
    (d : List ℕ) (s : Sender) (x : SSegment)
    → IsSound s
    → last? s.slist ≡ some x
    → length x.buf + length d ≤ s.mss
    → s.slen + length d < 2 ^ 31
    → IsSound (record s { slist = extend_last d s.slist; slen = add32 s.slen (length d) })
extend_last-IsSound d s x v e fits bounded = record {
  mss_pos = v.mss_pos;
  una_small = v.una_small;
  total = omega (arith, size-extend_last d s.slist x e, v.total);
  small = omega arith;
  nxt = v.nxt;
  chain_sent = v.chain_sent;
  chain_waiting = Chain-extend_last d s.snd_nxt s.slist v.chain_waiting;
  sized_sent = v.sized_sent;
  sized_waiting = AllSized-extend_last d s.mss s.slist x e fits v.sized_waiting;
  fresh = AllFresh-extend_last d s.slist v.fresh;
}

-- The room of a segment that data may join, and of a new one.
join_room :
    (mss : ℕ) (ctrl : Ctrl) (l : List SSegment) (x : SSegment) (n : ℕ)
    → last? l ≡ some x
    → can_join mss ctrl (last? l) ≡ true
    → n ≤ room mss ctrl l
    → length x.buf + n ≤ mss
unfolding can_join
join_room mss ctrl l x n e join fits = ground arith

new_room :
    (mss : ℕ) (ctrl : Ctrl) (l : List SSegment) (n : ℕ)
    → can_join mss ctrl (last? l) ≡ false
    → n ≤ room mss ctrl l
    → n ≤ mss
new_room mss ctrl l n new fits = ground arith

join_last :
    (mss : ℕ) (ctrl : Ctrl) (l : List SSegment)
    → can_join mss ctrl (last? l) ≡ true
    → (x : SSegment) × (last? l ≡ some x)
unfolding can_join
join_last mss ctrl l join = elim (Option-cases (last? l)) [
  | inl e ↦ absurd (ground arith)
  | inr found ↦ found
]

-- A round of the loop keeps the invariant.
pub queue_step-IsSound :
    (ctrl : Ctrl) (d : List ℕ) (s : Sender)
    → IsSound s
    → 0 < length d
    → length d ≤ room s.mss ctrl s.slist
    → s.slen + length d < 2 ^ 31
    → IsSound (queue_step ctrl d s)
unfolding queue_step
queue_step-IsSound ctrl d s v k fits b = elim (Bool-cases (can_join s.mss ctrl (last? s.slist))) [
  | inl join ↦
      let (x, e) = join_last s.mss ctrl s.slist join in
      rw (join, queue_step)
        (extend_last-IsSound d s x v e (join_room s.mss ctrl s.slist x (length d) e join fits) b)
  | inr new ↦
      rw (new, queue_step)
        (new_segment-IsSound ctrl d s v k (new_room s.mss ctrl s.slist (length d) new fits) b)
]

slen-queue_step :
    (ctrl : Ctrl) (d : List ℕ) (s : Sender) → (queue_step ctrl d s).slen ≡ add32 s.slen (length d)
unfolding queue_step
slen-queue_step ctrl d s = ground arith

retrans-queue_step :
    (ctrl : Ctrl) (d : List ℕ) (s : Sender) → (queue_step ctrl d s).retrans_slist ≡ s.retrans_slist
unfolding queue_step
retrans-queue_step ctrl d s = ground arith

retrans-queue_loop :
    (fuel : ℕ) (ctrl : Ctrl) (d : List ℕ) (s : Sender)
    → (queue_loop fuel ctrl d s).retrans_slist ≡ s.retrans_slist
unfolding queue_loop
retrans-queue_loop zero ctrl d s = refl
retrans-queue_loop (suc fuel) ctrl [] s = refl
retrans-queue_loop (suc fuel) ctrl (x ∷ d) s =
    retrans-queue_loop fuel ctrl _ _ ∙ retrans-queue_step ctrl _ s

-- What one round of the loop leaves to the next.
queue_round :
    (ctrl : Ctrl) (d : List ℕ) (s : Sender)
    → IsSound s
    → 0 < length d
    → s.slen + length d < 2 ^ 31
    → let n = can_write_len s.mss ctrl s.slist (length d) in
      IsSound (queue_step ctrl (take n d) s)
      × ((queue_step ctrl (take n d) s).slen + length (drop n d) ≡ s.slen + length d)
      × (length (drop n d) < length d)
queue_round ctrl d s v k b = (
  queue_step-IsSound ctrl (take n d) s v (omega (arith, cut, written)) (omega (arith, cut, inside))
      (omega (arith, cut, inside)),
  omega (arith, slen-queue_step ctrl (take n d) s, cut, whole, inside),
  omega (arith, whole, written),
)
  where
    n : ℕ
    n = can_write_len s.mss ctrl s.slist (length d)

    written : 0 < n
    written = can_write_len-pos s.mss ctrl s.slist (length d) v.mss_pos k

    inside : (n ≤ room s.mss ctrl s.slist) × (n ≤ length d)
    inside = omega (arith, can_write_len_lem s.mss ctrl s.slist (length d))

    cut : length (take n d) ≡ n
    cut = omega (arith, length-take n d, inside)

    whole : length (drop n d) + n ≡ length d
    whole = omega (arith, length-drop n d, inside)

-- The loop keeps the invariant, and adds the length of its data to `m_slen`.
pub queue_loop-IsSound :
    (fuel : ℕ) (ctrl : Ctrl) (d : List ℕ) (s : Sender)
    → IsSound s
    → s.slen + length d < 2 ^ 31
    → length d ≤ fuel
    → IsSound (queue_loop fuel ctrl d s) × ((queue_loop fuel ctrl d s).slen ≡ s.slen + length d)
unfolding queue_loop
queue_loop-IsSound zero ctrl [] s v b h = (v, omega arith)
queue_loop-IsSound zero ctrl (x ∷ d) s v b h = absurd (omega arith)
queue_loop-IsSound (suc fuel) ctrl [] s v b h = (v, omega arith)
queue_loop-IsSound (suc fuel) ctrl (x ∷ d) s v b h =
    let n : ℕ = can_write_len s.mss ctrl s.slist (length (x ∷ d)) in
    let (sound, sum, less) = queue_round ctrl (x ∷ d) s v (omega arith) b in
    let (v', e) =
      queue_loop-IsSound fuel ctrl (drop n (x ∷ d)) (queue_step ctrl (take n (x ∷ d)) s) sound
        (omega (arith, sum)) (omega (arith, less)) in
    (v', omega (arith, e, sum))

-- `__queue`, on a sound sender whose total stays below 2 ^ 31: the bytes join the end of what waits,
-- in order; what was sent is left alone; the total grows by their number; the sender stays sound.
pub queue_appends :
    (d : List ℕ) (ctrl : Ctrl) (f : Flow)
    → IsSound f.snd
    → f.slen + length d < 2 ^ 31
    → (contents (queue d ctrl f).slist ≡ contents f.slist ++ d)
      × ((queue d ctrl f).retrans_slist ≡ f.retrans_slist)
      × ((queue d ctrl f).slen ≡ f.slen + length d)
      × IsSound (queue d ctrl f).snd
unfolding queue
queue_appends d ctrl f v b = (
  contents-queue_loop (length d) ctrl d f.snd v.mss_pos (omega arith),
  retrans-queue_loop (length d) ctrl d f.snd,
  (queue_loop-IsSound (length d) ctrl d f.snd v b (omega arith)).1,
  (queue_loop-IsSound (length d) ctrl d f.snd v b (omega arith)).0,
)
