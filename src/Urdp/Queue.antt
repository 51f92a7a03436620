-- ===== src/Urdp/Queue.antt =====
-- `__queue` of src/rdp/urdp_flow.cpp: data is cut into segments at the end of `m_slist`.
pub mod Stream
pub mod Invariant
use p2engine.Prelude.{
  Bool, List, Option, [], drop, false, if◌then◌else◌, length, ltb, min, none, some, suc, take, zero,
  ℕ, ◌&&◌, ◌++◌, ◌-◌, ◌==◌, ◌∷◌,
}
use p2engine.Urdp.Flow.{Flow, SSegment, Sender, add32}
use p2engine.Urdp.Types.{Ctrl, is_data}

abbrev pub last? {ℓ} : {A : Type ℓ} → List A → Option A
last? [] = none
last? (x ∷ []) = some x
last? (x ∷ y ∷ r) = last? (y ∷ r)

-- Writes at the end of the last segment's buffer.
abbrev pub extend_last : List ℕ → List SSegment → List SSegment
extend_last d [] = []
extend_last d (s ∷ []) = record s { buf = s.buf ++ d } ∷ []
extend_last d (s ∷ t ∷ r) = s ∷ extend_last d (t ∷ r)

-- Whether data may join a segment: regular data, not sent yet, not full.
unfoldable pub can_join : ℕ → Ctrl → Option SSegment → Bool
can_join mss ctrl none = false
can_join mss ctrl (some s) =
    is_data ctrl && (s.xmit == 0) && is_data s.ctrl_type && ltb (length s.buf) mss

-- How many of the bytes that are left the next round of the loop writes.
unfoldable pub can_write_len : ℕ → Ctrl → List SSegment → ℕ → ℕ
unfolding can_join
can_write_len mss ctrl slist left =
    if can_join mss ctrl (last? slist)
    then elim (last? slist) [ none ↦ 0 | some s ↦ min (mss - length s.buf) left ]
    else min mss left

-- One round of the loop: it writes these bytes.
unfoldable pub queue_step : Ctrl → List ℕ → Sender → Sender
unfolding can_join
queue_step ctrl d s =
    if can_join s.mss ctrl (last? s.slist)
    then record s { slist = extend_last d s.slist; slen = add32 s.slen (length d) }
    else record s {
      slist =
          s.slist
          ++ (record { buf = d; seq = add32 s.snd_una s.slen; xmit = 0; ctrl_type = ctrl } ∷ []);
      slen = add32 s.slen (length d);
    }

-- The loop, on fuel; a round writes at least one byte, so the number of bytes is enough. What
-- `reserveLen` reserves ahead of time does not show in the buffers.
unfoldable pub queue_loop : ℕ → Ctrl → List ℕ → Sender → Sender
unfolding can_write_len queue_step
queue_loop zero ctrl d s = s
queue_loop (suc fuel) ctrl [] s = s
queue_loop (suc fuel) ctrl (x ∷ d) s =
    let n = can_write_len s.mss ctrl s.slist (length (x ∷ d)) in
    queue_loop fuel ctrl (drop n (x ∷ d)) (queue_step ctrl (take n (x ∷ d)) s)

unfoldable pub queue : List ℕ → Ctrl → Flow → Flow
unfolding queue_loop
queue d ctrl f = record f { snd = queue_loop (length d) ctrl d f.snd }
