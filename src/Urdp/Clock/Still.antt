-- ===== src/Urdp/Clock/Still.antt =====
-- `__on_clock` of src/rdp/urdp_flow.cpp, and the time at which it began.
use p2engine.Prelude.{
  Bool, Bool-cases, List, [], ap, false, if◌then◌else◌, inl, inr, is_empty, not, refl, subst, suc,
  true, zero, ℕ, ◌&&◌, ◌==◌, ◌||◌, ◌∙◌, ◌∷◌, ◌≡◌,
}
use p2engine.Urdp.Ack.{Outcome, more, stop, ◌>>=◌}
use p2engine.Urdp.Clock.{
  clock_ack, clock_ping, clock_probe, clock_rest, clock_work, has_expired, is_due, ping, resend,
  resend_unreliable, resend_unreliable_one, shrink_windows, transmissions,
}
use p2engine.Urdp.Flow.{
  Flow, SSegment, SUnraliableSegment, add32, is_connected, mod_minus_ge, sub32, time32,
}
use p2engine.Urdp.Machine.{step}
use p2engine.Urdp.Output.{
  attempt_send, exhausted, packet_as_reliable_and_sendout, packet_as_unreliable_and_sendout,
  retransmit_oldest,
}
use p2engine.Urdp.Output.Frame.{
  Kept, after_transmit, kept, kept-after_transmit, kept-attempt_send, kept-packet, kept-queue,
  transmit_lem,
}
use p2engine.Urdp.Queue.{queue}
use p2engine.Urdp.Rto.{incress_rto}
use p2engine.Urdp.Types.{
  Ctrl, ack, ack_delay, at_least, established, none_flag, same_state, scape_zero,
}

last_of_kept : (f g : Flow) → kept g ≡ kept f → g.t_last_on_clock ≡ f.t_last_on_clock
last_of_kept f g e = ap (λ (k : Kept). k.clock) e

last_if :
    (f : Flow) (b : Bool) (x y : Flow)
    → x.t_last_on_clock ≡ f.t_last_on_clock
    → y.t_last_on_clock ≡ f.t_last_on_clock
    → (if b then x else y).t_last_on_clock ≡ f.t_last_on_clock
last_if f true x y h k = h
last_if f false x y h k = k

-- The time of the last check is `c` if the step goes on.
abbrev pub Still : ℕ → Outcome Flow → Type 0
Still c (stop f b) = Unit {0}
Still c (more f) = f.t_last_on_clock ≡ c

abbrev StillPair : ℕ → Outcome (Flow × Bool) → Type 0
StillPair c (stop f b) = Unit {0}
StillPair c (more (f, b)) = f.t_last_on_clock ≡ c

StillPair-if :
    (c : ℕ) (b : Bool) (x y : Outcome (Flow × Bool))
    → StillPair c x
    → StillPair c y
    → StillPair c (if b then x else y)
StillPair-if c true x y h k = h
StillPair-if c false x y h k = k

Still-bind :
    (c : ℕ) (o : Outcome (Flow × Bool)) (k : Flow × Bool → Outcome Flow)
    → StillPair c o
    → ((g : Flow) (b : Bool) → g.t_last_on_clock ≡ c → Still c (k (g, b)))
    → Still c (o >>= k)
Still-bind c (stop f b) k h step = tt
Still-bind c (more (f, b)) k h step = step f b h

last-sent_first :
    (now : ℕ) (f : Flow) (seg : SSegment) (rest : List SSegment)
    → f.retrans_slist ≡ seg ∷ rest
    → (retransmit_oldest now f).0.t_last_on_clock ≡ f.t_last_on_clock
unfolding retransmit_oldest
last-sent_first now f seg rest h = elim (Bool-cases (exhausted seg now f)) [
  | inl e ↦ rw (h, transmit_lem, e, retransmit_oldest)
  | inr e ↦
      rw (h, transmit_lem, e, retransmit_oldest)
        (last_of_kept f (after_transmit seg now f) (kept-after_transmit seg now f))
]

last-retransmit_oldest :
    (now : ℕ) (f : Flow) (l : List SSegment)
    → f.retrans_slist ≡ l
    → (retransmit_oldest now f).0.t_last_on_clock ≡ f.t_last_on_clock
unfolding retransmit_oldest
last-retransmit_oldest now f [] h = rw (h, retransmit_oldest)
last-retransmit_oldest now f (seg ∷ rest) h = last-sent_first now f seg rest h

last-incress_rto : (f : Flow) → (incress_rto f).t_last_on_clock ≡ f.t_last_on_clock
unfolding incress_rto
last-incress_rto f = last_if f (at_least f.state established) _ _ refl refl

StillPair-resend : (now : ℕ) (f : Flow) → StillPair f.t_last_on_clock (resend now f)
unfolding resend
StillPair-resend now f =
    let g : Flow = (retransmit_oldest now f).0 in
    let g' : Flow = record g {
      snd = shrink_windows g.snd;
      tim = record (g.tim) { t_rto_base = scape_zero (time32 now) };
    } in
    StillPair-if f.t_last_on_clock
      (f.t_rto_base == 0 || not (is_due (add32 f.t_rto_base f.rto) now)) _ _ refl
      (StillPair-if f.t_last_on_clock (is_empty f.retrans_slist) _ _ refl (
        StillPair-if f.t_last_on_clock (retransmit_oldest now f).1 _ _
          (last-incress_rto g' ∙ last-retransmit_oldest now f f.retrans_slist refl) tt))

last-resend_unreliable :
    (fuel now : ℕ) (f : Flow) (l : List SUnraliableSegment)
    → f.unreliable_slist ≡ l
    → (resend_unreliable fuel now f).t_last_on_clock ≡ f.t_last_on_clock
unfolding resend_unreliable resend_unreliable_one packet_as_unreliable_and_sendout
last-resend_unreliable zero now f l e = refl
last-resend_unreliable (suc fuel) now f [] e = rw (e, resend_unreliable)
last-resend_unreliable (suc fuel) now f (seg ∷ rest) e =
    elim (Bool-cases (is_due seg.timeout now)) [
      | inl d ↦
          rw (e, d, resend_unreliable)
            (last-resend_unreliable fuel now (resend_unreliable_one now seg rest f) _ refl)
      | inr d ↦ rw (e, d, resend_unreliable)
    ]

last_first :
    {A : Type 0} (f : Flow) (b : Bool) (x y : Flow × A)
    → x.0.t_last_on_clock ≡ f.t_last_on_clock
    → y.0.t_last_on_clock ≡ f.t_last_on_clock
    → (if b then x else y).0.t_last_on_clock ≡ f.t_last_on_clock
last_first f true x y h k = h
last_first f false x y h k = k

last-ping : (now : ℕ) (f : Flow) → (ping now f).0.t_last_on_clock ≡ f.t_last_on_clock
unfolding ping
last-ping now f =
    let b = is_empty f.slist && is_empty f.retrans_slist in
    let g : Flow = if b then queue (0 ∷ []) ack f else f in
    last_first f (is_connected f) _ _
      (last_of_kept g (attempt_send none_flag now g) (kept-attempt_send none_flag now g)
        ∙ last_if f b (queue (0 ∷ []) ack f) f
            (last_of_kept f (queue (0 ∷ []) ack f) (kept-queue (0 ∷ []) ack f)) refl)
      refl

last-clock_ping :
    (now : ℕ) (f : Flow) (b : Bool) → (clock_ping now (f, b)).0.t_last_on_clock ≡ f.t_last_on_clock
unfolding clock_ping
last-clock_ping now f b = last_first f _ ((ping now f).0, true) (f, b) (last-ping now f) refl

last-packet :
    (seq : ℕ) (ctrl : Ctrl) (d : List ℕ) (now : ℕ) (f : Flow)
    → (packet_as_reliable_and_sendout seq ctrl d now f).t_last_on_clock ≡ f.t_last_on_clock
last-packet seq ctrl d now f =
    last_of_kept f (packet_as_reliable_and_sendout seq ctrl d now f) (kept-packet seq ctrl d now f)

StillPair-clock_probe :
    (now : ℕ) (f : Flow) (b : Bool) → StillPair f.t_last_on_clock (clock_probe now (f, b))
unfolding clock_probe
StillPair-clock_probe now f b =
    let g : Flow = packet_as_reliable_and_sendout (sub32 f.snd_nxt 1) ack [] now f in
    StillPair-if f.t_last_on_clock
      (same_state f.state established && (f.snd_wnd == 0) && is_due (add32 f.t_lastsend f.rto) now)
      _ _
      (StillPair-if f.t_last_on_clock (mod_minus_ge (time32 now) f.t_lastrecv 15000) _ _ tt (
        StillPair-if f.t_last_on_clock b _ _ (last-incress_rto f)
          (last-incress_rto g ∙ last-packet (sub32 f.snd_nxt 1) ack [] now f)))
      refl

last-clock_ack :
    (now : ℕ) (f : Flow) (b : Bool) → (clock_ack now (f, b)).t_last_on_clock ≡ f.t_last_on_clock
unfolding clock_ack
last-clock_ack now f b =
    last_if f (not b && not (f.t_ack == 0) && is_due (add32 f.t_ack ack_delay) now) _ f
      (last-packet f.snd_nxt ack [] now f) refl

Still-clock_rest : (now : ℕ) (f : Flow) (b : Bool) → Still f.t_last_on_clock (clock_rest now (f, b))
unfolding clock_rest
Still-clock_rest now f b =
    let g : Flow = (clock_ping now (f, b)).0 in
    Still-bind f.t_last_on_clock _ _
      (subst (λ c. StillPair c (clock_probe now (clock_ping now (f, b)))) (last-clock_ping now f b)
        (StillPair-clock_probe now g (clock_ping now (f, b)).1))
      (λ k c same. last-clock_ack now k c ∙ same)

Still-if :
    (c : ℕ) (b : Bool) (x y : Outcome Flow) → Still c x → Still c y → Still c (if b then x else y)
Still-if c true x y h k = h
Still-if c false x y h k = k

-- The time of the last check stays, if the clock goes on to the end.
pub Still-clock_work : (now : ℕ) (f : Flow) → Still f.t_last_on_clock (clock_work now f)
unfolding clock_work
Still-clock_work now f = Still-if f.t_last_on_clock (has_expired now f) _ _ tt (
    Still-bind f.t_last_on_clock (resend now f) _ (StillPair-resend now f) (λ g b same.
      let n = transmissions g.unreliable_slist in
      let h : Flow = resend_unreliable n now g in
      subst (λ c. Still c (clock_rest now (h, b)))
        (last-resend_unreliable n now g g.unreliable_slist refl ∙ same) (Still-clock_rest now h b)))
