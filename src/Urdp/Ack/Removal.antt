-- ===== src/Urdp/Ack/Removal.antt =====
-- What an acknowledgement in src/rdp/urdp_flow.cpp removes from the send queue.
use p2engine.Prelude.{
  List, [], ap, arith, length, refl, subst, sym, ℕ, ◌%◌, ◌++◌, ◌+◌, ◌-◌, ◌<◌, ◌^◌, ◌∙◌, ◌∷◌, ◌≡◌,
}
use p2engine.Urdp.Ack.{advance_una, pop_acked}
use p2engine.Urdp.Flow.{Flow, SSegment, add32}
use p2engine.Urdp.Queue.Invariant.{IsSound}
use p2engine.Urdp.Queue.Stream.{AllSized, Chain, size, size-append}
use p2engine.Urdp.Types.{Header, u32_mod}
use p2engine.Wrap.{wrap_sub}

-- The loop removes the segments that end at or before the acknowledged number, and no others.
pub pop_acked-append :
    (una ackno : ℕ) (acked rest : List SSegment) (mss : ℕ)
    → una < u32_mod
    → Chain una (acked ++ rest)
    → AllSized mss acked
    → size acked < 2 ^ 31
    → ackno ≡ add32 una (size acked)
    → pop_acked ackno (acked ++ rest) ≡ rest
unfolding pop_acked wrap_sub
pop_acked-append una ackno [] [] mss h c z b e = refl
pop_acked-append una ackno [] (s ∷ r) mss h c z b e = ground arith
pop_acked-append una ackno (s ∷ a) rest mss h c z b e =
    ground
      (arith, pop_acked-append (add32 una (length s.buf)) ackno a rest mss (omega arith) c.1 z.2)

Chain-behind :
    (q : ℕ) (a r : List SSegment) → q < u32_mod → Chain q (a ++ r) → Chain (add32 q (size a)) r
Chain-behind q [] r h c = subst (λ p. Chain p r) (omega arith) c
Chain-behind q (s ∷ a) r h c =
    subst (λ p. Chain p r) (omega arith)
      (Chain-behind (add32 q (length s.buf)) a r (omega arith) c.1)

module _ (mss : ℕ) where
  AllSized-front : (a r : List SSegment) → AllSized mss (a ++ r) → AllSized mss a
  AllSized-front [] r h = tt
  AllSized-front (s ∷ a) r h = (h.0, h.1, AllSized-front a r h.2)

  AllSized-behind : (a r : List SSegment) → AllSized mss (a ++ r) → AllSized mss r
  AllSized-behind [] r h = h
  AllSized-behind (s ∷ a) r h = AllSized-behind a r h.2

-- An acknowledgement up to the end of one of the segments sent, on a sound sender: exactly the
-- segments up to there are removed from those to be sent again, `m_snd_una` is the acknowledged
-- number, `m_slen` falls by their bytes, and the sender stays sound.
pub advance_una_removes :
    (now : ℕ) (h : Header) (f : Flow) (acked rest : List SSegment)
    → IsSound f.snd
    → f.retrans_slist ≡ acked ++ rest
    → h.ackno ≡ add32 f.snd_una (size acked)
    → let g = advance_una now h f in
      (g.retrans_slist ≡ rest)
      × (g.snd_una ≡ h.ackno)
      × (g.slen + size acked ≡ f.slen)
      × IsSound g.snd
unfolding advance_una wrap_sub
advance_una_removes now h f acked rest v e k = (popped, refl, fewer, sound)
  where
    sum : size f.retrans_slist ≡ size acked + size rest
    sum = ap size e ∙ size-append acked rest

    chain : Chain f.snd_una (acked ++ rest)
    chain = subst (Chain f.snd_una) e v.chain_sent

    sized : AllSized f.mss (acked ++ rest)
    sized = subst (AllSized f.mss) e v.sized_sent

    popped : pop_acked h.ackno f.retrans_slist ≡ rest
    popped =
        ap (pop_acked h.ackno) e
        ∙ pop_acked-append f.snd_una h.ackno acked rest f.mss v.una_small chain
            (AllSized-front f.mss acked rest sized) (omega (arith, sum, v.total, v.small)) k

    fewer :
        (f.slen + u32_mod - (h.ackno + u32_mod - f.snd_una) % u32_mod) % u32_mod + size acked
        ≡ f.slen
    fewer = omega (arith, sum, v.total, v.small, v.una_small)

    sound : IsSound (advance_una now h f).snd
    sound = record {
      mss_pos = v.mss_pos;
      una_small = omega arith;
      total = omega (arith, fewer, sum, v.total, ap size popped);
      small = omega (arith, fewer, v.small);
      nxt = omega (arith, v.nxt, sum, ap size popped);
      chain_sent =
          subst (Chain h.ackno) (sym popped) (
            subst (λ q. Chain q rest) (sym k)
              (Chain-behind f.snd_una acked rest v.una_small chain));
      chain_waiting = v.chain_waiting;
      sized_sent = subst (AllSized f.mss) (sym popped) (AllSized-behind f.mss acked rest sized);
      sized_waiting = v.sized_waiting;
      fresh = v.fresh;
    }
