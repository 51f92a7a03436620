-- ===== src/Urdp/Api/Framed.antt =====
-- What `__send` of src/rdp/urdp_flow.cpp puts into the stream, for a message that must arrive.
use p2engine.Prelude.{
  Bool-cases, List, [], ap, append_assoc, ap₂, arith, inl, inr, leb, length, map, refl, sym, take,
  take_all, true, ℕ, ◌%◌, ◌++◌, ◌+◌, ◌<◌, ◌^◌, ◌∙◌, ◌∷◌, ◌≡◌,
}
use p2engine.Urdp.Api.{send_reliable}
use p2engine.Urdp.Flow.{Flow, SSegment, Sender}
use p2engine.Urdp.Format.{bytes16}
use p2engine.Urdp.Output.{attempt_send}
use p2engine.Urdp.Output.Drain.{attempt_send-IsSound, attempt_send_drains, snd-attempt_send}
use p2engine.Urdp.Output.Frame.{count_xmit}
use p2engine.Urdp.Queue.{queue}
use p2engine.Urdp.Queue.Invariant.{IsSound, queue_appends}
use p2engine.Urdp.Queue.Stream.{contents}
use p2engine.Urdp.Receive.Framing.{frame}
use p2engine.Urdp.Types.{none_flag, payload, snd_buf_size, u16_mod}

contents-append : (l m : List SSegment) → contents (l ++ m) ≡ contents l ++ contents m
contents-append [] m = refl
contents-append (s ∷ l) m =
    ap (λ x. s.buf ++ x) (contents-append l m) ∙ sym (append_assoc s.buf (contents l) (contents m))

contents-map-count_xmit : (l : List SSegment) → contents (map count_xmit l) ≡ contents l
contents-map-count_xmit [] = refl
contents-map-count_xmit (s ∷ l) = ap (λ x. s.buf ++ x) (contents-map-count_xmit l)

-- The frame and the message wait, in this order.
queued :
    (body : List ℕ) (msg_type : ℕ) (f : Flow)
    → IsSound f.snd
    → f.slen + (length body + 4) < 2 ^ 31
    → let g = queue body payload (queue (bytes16 (length body) (bytes16 msg_type [])) payload f) in
      (contents g.slist ≡ contents f.slist ++ frame msg_type body)
      × (g.retrans_slist ≡ f.retrans_slist)
      × (g.slen ≡ f.slen + (length body + 4))
      × IsSound g.snd
queued body msg_type f v bounded =
    let head = bytes16 (length body) (bytes16 msg_type []) in
    let h : Flow = queue head payload f in
    let (c, r, n, v') = queue_appends head payload f v (omega arith) in
    let (c', r', n', v'') = queue_appends body payload h v' (omega (arith, n)) in
    (
      c' ∙ ap (λ x. x ++ body) c ∙ append_assoc (contents f.slist) head body,
      r' ∙ r,
      omega (arith, n, n'),
      v'',
    )

-- The flag that asks for a later call is no part of the invariant.
asks_later-IsSound : (s : Sender) → IsSound s → IsSound (record s { detect_writable = true })
asks_later-IsSound s v = record {
  mss_pos = v.mss_pos;
  una_small = v.una_small;
  total = v.total;
  small = v.small;
  nxt = v.nxt;
  chain_sent = v.chain_sent;
  chain_waiting = v.chain_waiting;
  sized_sent = v.sized_sent;
  sized_waiting = v.sized_waiting;
  fresh = v.fresh;
}

-- The flow after the message has gone out, but for the flag that asks for a later call.
framed :
    (body : List ℕ) (msg_type now : ℕ) (f : Flow)
    → IsSound f.snd
    → f.slen + (length body + 4) < 2 ^ 31
    → let h = queue body payload (queue (bytes16 (length body) (bytes16 msg_type [])) payload f) in
      let g = attempt_send none_flag now h in
      (contents g.retrans_slist
        ≡ contents f.retrans_slist ++ (contents f.slist ++ frame msg_type body))
      × (g.slist ≡ [])
      × (g.slen ≡ f.slen + (length body + 4))
      × IsSound g.snd
framed body msg_type now f v bounded =
    let h : Flow =
      queue body payload (queue (bytes16 (length body) (bytes16 msg_type [])) payload f) in
    let g : Flow = attempt_send none_flag now h in
    let (c, r, n, v') = queued body msg_type f v bounded in
    let (none_waits, sent_all, nxt, una, rest) =
      attempt_send_drains none_flag now h v'.fresh (omega (arith, v'.nxt)) in
    let (w, whole) = snd-attempt_send none_flag now h v'.fresh in
    (
      ap contents sent_all
          ∙ contents-append h.retrans_slist (map count_xmit h.slist)
          ∙ ap₂ (λ x y. x ++ y) (ap contents r) (contents-map-count_xmit h.slist ∙ c),
      none_waits,
      ap (λ (s : Sender). s.slen) whole ∙ n,
      attempt_send-IsSound none_flag now h v',
    )

-- `__send` of a message that must arrive, on a sound sender whose total stays below 2 ^ 31 and with a
-- message shorter than 2 ^ 16: the frame that `__recv` looks for and the message go out at the end of
-- the stream, behind all that was sent and all that waited; nothing waits any more; the total grows by
-- their length; the sender stays sound.
pub send_reliable-frame :
    (body : List ℕ) (msg_type now : ℕ) (f : Flow)
    → IsSound f.snd
    → length body < 2 ^ 16
    → f.slen + (length body + 4) < 2 ^ 31
    → let g = (send_reliable body msg_type now f).0 in
      (contents g.retrans_slist
        ≡ contents f.retrans_slist ++ (contents f.slist ++ frame msg_type body))
      × (g.slist ≡ [])
      × (g.slen ≡ f.slen + (length body + 4))
      × IsSound g.snd
unfolding send_reliable
send_reliable-frame body msg_type now f v small bounded =
    let len : length body % u16_mod ≡ length body = omega arith in
    let whole : take (length body) body ≡ body = take_all (length body) body (omega arith) in
    let h : Flow =
      queue body payload (queue (bytes16 (length body) (bytes16 msg_type [])) payload f) in
    let done = framed body msg_type now f v bounded in
    elim (Bool-cases (leb snd_buf_size (attempt_send none_flag now h).slen)) [
      | inl e ↦
          rw (len, whole, e, send_reliable)
            (done.0, done.1, done.2, asks_later-IsSound (attempt_send none_flag now h).snd done.3)
      | inr e ↦ rw (len, whole, e, send_reliable) done
    ]
