-- ===== src/Urdp/Queue/Stream.antt =====
-- `__queue` as the stream of bytes that it writes.
use p2engine.Prelude.{
  Bool-cases, List, Option-cases, [], ap, append-nil, append_assoc, arith, drop, if◌then◌else◌, inl,
  inr, length, length-append, length-drop, min, none, refl, some, suc, sym, take, take-append-drop,
  zero, ℕ, ◌++◌, ◌+◌, ◌-◌, ◌<◌, ◌∙◌, ◌∷◌, ◌≡◌, ◌≤◌,
}
use p2engine.Urdp.Flow.{SSegment, Sender, add32}
use p2engine.Urdp.Queue.{can_join, can_write_len, extend_last, last?, queue_loop, queue_step}
use p2engine.Urdp.Types.{Ctrl}

abbrev pub contents : List SSegment → List ℕ
contents [] = []
contents (s ∷ r) = s.buf ++ contents r

abbrev pub size : List SSegment → ℕ
size [] = 0
size (s ∷ r) = length s.buf + size r

-- Every segment holds between one and `mss` bytes.
abbrev pub AllSized : ℕ → List SSegment → Type 0
AllSized mss [] = Unit {0}
AllSized mss (s ∷ r) = (0 < length s.buf) × (length s.buf ≤ mss) × AllSized mss r

-- No segment was sent.
abbrev pub AllFresh : List SSegment → Type 0
AllFresh [] = Unit {0}
AllFresh (s ∷ r) = (s.xmit ≡ 0) × AllFresh r

-- The segments lie one behind the other from a sequence number on.
abbrev pub Chain : ℕ → List SSegment → Type 0
Chain q [] = Unit {0}
Chain q (s ∷ r) = (s.seq ≡ q) × Chain (add32 q (length s.buf)) r

pub length-contents : (l : List SSegment) → length (contents l) ≡ size l
length-contents [] = refl
length-contents (s ∷ r) = omega (arith, length-append s.buf (contents r), length-contents r)

pub contents-append : (l m : List SSegment) → contents (l ++ m) ≡ contents l ++ contents m
contents-append [] m = refl
contents-append (s ∷ r) m = simp (contents-append r m, append_assoc)

pub size-append : (l m : List SSegment) → size (l ++ m) ≡ size l + size m
size-append [] m = omega arith
size-append (s ∷ r) m = omega (arith, size-append r m)

pub contents-extend_last :
    (d : List ℕ) (l : List SSegment) (s : SSegment)
    → last? l ≡ some s
    → contents (extend_last d l) ≡ contents l ++ d
contents-extend_last d [] s e = cc
contents-extend_last d (x ∷ []) s e = simp append-nil
contents-extend_last d (x ∷ y ∷ r) s e = simp (contents-extend_last d (y ∷ r) s e, append_assoc)

-- A round writes its bytes at the end of the stream.
pub contents-queue_step :
    (ctrl : Ctrl) (d : List ℕ) (s : Sender)
    → contents (queue_step ctrl d s).slist ≡ contents s.slist ++ d
unfolding queue_step
contents-queue_step ctrl d s = elim (Option-cases (last? s.slist)) [
  | inl e ↦
      rw (e, queue_step, can_join)
        (contents-append s.slist _ ∙ ap (◌++◌ (contents s.slist)) (append-nil d))
  | inr (x, e) ↦ elim (Bool-cases (can_join s.mss ctrl (last? s.slist))) [
    | inl join ↦ rw (join, queue_step) (contents-extend_last d s.slist x e)
    | inr new ↦
        rw (new, queue_step)
          (contents-append s.slist _ ∙ ap (◌++◌ (contents s.slist)) (append-nil d))
  ]
]

-- The room that the next round has, before it runs out of data.
abbrev pub room : ℕ → Ctrl → List SSegment → ℕ
room mss ctrl slist =
    if can_join mss ctrl (last? slist)
    then elim (last? slist) [ none ↦ 0 | some s ↦ mss - length s.buf ]
    else mss

pub can_write_len_lem :
    (mss : ℕ) (ctrl : Ctrl) (slist : List SSegment) (left : ℕ)
    → can_write_len mss ctrl slist left ≡ min (room mss ctrl slist) left
unfolding can_write_len can_join
can_write_len_lem mss ctrl slist left = ground arith

pub room-pos : (mss : ℕ) (ctrl : Ctrl) (slist : List SSegment) → 0 < mss → 0 < room mss ctrl slist
unfolding can_join
room-pos mss ctrl slist h = ground arith

pub can_write_len-pos :
    (mss : ℕ) (ctrl : Ctrl) (slist : List SSegment) (left : ℕ)
    → 0 < mss
    → 0 < left
    → 0 < can_write_len mss ctrl slist left
can_write_len-pos mss ctrl slist left h k =
    omega (arith, can_write_len_lem mss ctrl slist left, room-pos mss ctrl slist h)

mss-queue_step : (ctrl : Ctrl) (d : List ℕ) (s : Sender) → (queue_step ctrl d s).mss ≡ s.mss
unfolding queue_step
mss-queue_step ctrl d s = ground arith

-- The loop writes all its data at the end of the stream, in order, on as much fuel as there are
-- bytes.
pub contents-queue_loop :
    (fuel : ℕ) (ctrl : Ctrl) (d : List ℕ) (s : Sender)
    → 0 < s.mss
    → length d ≤ fuel
    → contents (queue_loop fuel ctrl d s).slist ≡ contents s.slist ++ d
unfolding queue_loop
contents-queue_loop zero ctrl [] s m h = sym (append-nil _)
contents-queue_loop zero ctrl (x ∷ d) s m h = absurd (omega arith)
contents-queue_loop (suc fuel) ctrl [] s m h = sym (append-nil _)
contents-queue_loop (suc fuel) ctrl (x ∷ d) s m h =
    contents-queue_loop fuel ctrl (drop n (x ∷ d)) (queue_step ctrl (take n (x ∷ d)) s)
      (rw mss-queue_step m)
      (omega (
        arith,
        length-drop n (x ∷ d),
        can_write_len-pos s.mss ctrl s.slist (length (x ∷ d)) m (omega arith),
      ))
    ∙ ap (λ l. l ++ drop n (x ∷ d)) (contents-queue_step ctrl (take n (x ∷ d)) s)
    ∙ append_assoc (contents s.slist) _ _
    ∙ ap (◌++◌ (contents s.slist)) (take-append-drop n (x ∷ d))
  where
    n : ℕ
    n = can_write_len s.mss ctrl s.slist (length (x ∷ d))
