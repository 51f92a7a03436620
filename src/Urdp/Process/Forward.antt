-- ===== src/Urdp/Process/Forward.antt =====
-- `__process` and `called_by_sharedlayer_on_recvd` of src/rdp/urdp_flow.cpp as a whole, and the order
-- of the states.
use p2engine.Prelude.{
  Bool, List, Option, [], false, if◌then◌else◌, none, not, some, true, ℕ, ◌||◌, ◌∷◌,
}
use p2engine.Urdp.Ack.{Outcome, more, stop}
use p2engine.Urdp.Flow.{Flow}
use p2engine.Urdp.Format.{be16, parse_reliable, parse_unreliable}
use p2engine.Urdp.Lifecycle.Phase.{
  Forward, Forward-after, Forward-if, Forward-refl, Phase, phase, phase-packet,
}
use p2engine.Urdp.Lifecycle.Sending.{ForwardFlow, ForwardFlow-before, ForwardFlow-bind}
use p2engine.Urdp.Output.{packet_as_reliable_and_sendout}
use p2engine.Urdp.Process.{
  Readings, called_by_sharedlayer_on_recvd, dispatch, finish, is_foreign, is_unreliable,
  keep_unreliable, note_datagram, process, process_known, process_reliable, process_unreliable,
  touch,
}
use p2engine.Urdp.Process.Arrival.{ForwardPair-dispatch}
use p2engine.Urdp.Process.Phase.{Forward-process_segment}
use p2engine.Urdp.Receive.Phase.{Forward-allert_readable}
use p2engine.Urdp.Types.{Ctrl, Header, closed, established, rst, same_state}

Forward-first :
    (p : Phase) (b : Bool) (x y : Flow × Bool)
    → Forward p (phase x.0)
    → Forward p (phase y.0)
    → Forward p (phase (if b then x else y).0)
Forward-first p true x y h k = h
Forward-first p false x y h k = k

Forward-process_unreliable :
    (now : ℕ) (ctrl : Ctrl) (bytes : List ℕ) (f : Flow)
    → Forward (phase f) (phase (process_unreliable now ctrl bytes f).0)
unfolding process_unreliable keep_unreliable
Forward-process_unreliable now ctrl [] f = Forward-refl (phase f)
Forward-process_unreliable now ctrl (a ∷ []) f = Forward-refl (phase f)
Forward-process_unreliable now ctrl (a ∷ b ∷ []) f = Forward-refl (phase f)
Forward-process_unreliable now ctrl (a ∷ b ∷ c ∷ []) f = Forward-refl (phase f)
Forward-process_unreliable now ctrl (a ∷ b ∷ c ∷ d ∷ rest) f =
    let g : Flow = (keep_unreliable now ctrl (be16 a b) (c ∷ d ∷ rest) f).0 in
    let fresh : Bool = (keep_unreliable now ctrl (be16 a b) (c ∷ d ∷ rest) f).1 in
    Forward-first (phase f) (not f.socket || not (same_state f.state established)) _ _
      (Forward-refl (phase f))
      (Forward-if (phase f) fresh _ g (Forward-allert_readable now g) (Forward-refl (phase f)))

Forward-finish : (p : Phase) (o : Outcome Flow) → ForwardFlow p o → Forward p (phase (finish o).0)
Forward-finish p (stop f b) h = h
Forward-finish p (more f) h = h

Forward-process_reliable :
    (now from : ℕ) (h : Option (Header × List ℕ)) (f : Flow)
    → Forward (phase f) (phase (process_reliable now from h f).0)
unfolding process_reliable
Forward-process_reliable now from none f = Forward-refl (phase f)
Forward-process_reliable now from (some (h, rest)) f = Forward-finish (phase f) _ (
    ForwardFlow-bind (phase f) (dispatch now h rest from h.control f) _
      (ForwardPair-dispatch now h rest from h.control f)
      (λ g b le.
        ForwardFlow-before (phase g) (phase f) _ le (Forward-process_segment now h rest from b g)))

Forward-process_known :
    (now : ℕ) (bytes : List ℕ) (from : ℕ) (readings : Readings) (h : Option (Header × List ℕ))
    (f : Flow)
    → Forward (phase f) (phase (process_known now bytes from readings h f).0)
unfolding process_known note_datagram touch
Forward-process_known now bytes from readings none f = Forward-refl (phase f)
Forward-process_known now bytes from readings (some (h, rest)) f =
    let g : Flow = note_datagram now h readings f in
    Forward-first (phase f) (is_foreign h from f) _ _ (Forward-refl (phase f)) (
      Forward-first (phase f) (is_unreliable h.control) _ _
        (Forward-process_unreliable now h.control rest g)
        (Forward-process_reliable now from (parse_reliable bytes) g))

pub Forward-process :
    (now : ℕ) (bytes : List ℕ) (from : ℕ) (readings : Readings) (f : Flow)
    → Forward (phase f) (phase (process now bytes from readings f).0)
unfolding process
Forward-process now bytes from readings f =
    Forward-first (phase f) (same_state f.state closed) _ _ (Forward-refl (phase f))
      (Forward-process_known now bytes from readings (parse_unreliable bytes) f)

-- A datagram, whatever its bytes are, only moves a flow on.
pub Forward-called_by_sharedlayer_on_recvd :
    (now : ℕ) (bytes : List ℕ) (from : ℕ) (readings : Readings) (f : Flow)
    → Forward (phase f) (phase (called_by_sharedlayer_on_recvd now bytes from readings f))
unfolding called_by_sharedlayer_on_recvd
Forward-called_by_sharedlayer_on_recvd now bytes from readings f =
    let g : Flow = (process now bytes from readings f).0 in
    let done : Bool = (process now bytes from readings f).1 in
    Forward-if (phase f) (done || g.ignore_all_pkt) g _ (Forward-process now bytes from readings f)
      (Forward-after (phase f) g (packet_as_reliable_and_sendout g.snd_nxt rst [] now g)
        (phase-packet g.snd_nxt rst [] now g) (Forward-process now bytes from readings f))
