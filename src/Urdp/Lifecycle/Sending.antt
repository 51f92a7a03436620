-- ===== src/Urdp/Lifecycle/Sending.antt =====
-- What `__process` and `__on_clock` of src/rdp/urdp_flow.cpp send, and the order of the states.
use p2engine.Prelude.{
  Bool, Bool-cases, List, [], false, if◌then◌else◌, inl, inr, refl, true, ℕ, ◌∷◌, ◌≡◌,
}
use p2engine.Urdp.Ack.{Outcome, more, stop, ◌>>=◌}
use p2engine.Urdp.Flow.{Flow, SSegment}
use p2engine.Urdp.Lifecycle.{allert_disconnected}
use p2engine.Urdp.Lifecycle.Calls.{Forward-allert_disconnected}
use p2engine.Urdp.Lifecycle.Phase.{
  Forward, Forward-before, Forward-trans, Forward-of_eq, Phase, phase, phase_of_kept,
}
use p2engine.Urdp.Output.{exhausted, retransmit_oldest}
use p2engine.Urdp.Output.Frame.{after_transmit, kept-after_transmit, transmit_lem}
use p2engine.Urdp.Rto.{incress_rto}
use p2engine.Urdp.Types.{at_least, established, timed_out}

phase-sent_first :
    (now : ℕ) (f : Flow) (seg : SSegment) (rest : List SSegment)
    → f.retrans_slist ≡ seg ∷ rest
    → phase (retransmit_oldest now f).0 ≡ phase f
unfolding retransmit_oldest
phase-sent_first now f seg rest h = elim (Bool-cases (exhausted seg now f)) [
  | inl e ↦ rw (h, transmit_lem, e, retransmit_oldest)
  | inr e ↦
      rw (h, transmit_lem, e, retransmit_oldest)
        (phase_of_kept f (after_transmit seg now f) (kept-after_transmit seg now f))
]

phase-by_list :
    (now : ℕ) (f : Flow) (l : List SSegment)
    → f.retrans_slist ≡ l
    → phase (retransmit_oldest now f).0 ≡ phase f
unfolding retransmit_oldest
phase-by_list now f [] h = rw (h, retransmit_oldest)
phase-by_list now f (seg ∷ rest) h = phase-sent_first now f seg rest h

-- The transmission of the oldest segment.
pub phase-retransmit_oldest : (now : ℕ) (f : Flow) → phase (retransmit_oldest now f).0 ≡ phase f
phase-retransmit_oldest now f = phase-by_list now f f.retrans_slist refl

pub phase-incress_rto : (f : Flow) → phase (incress_rto f) ≡ phase f
unfolding incress_rto
phase-incress_rto f = elim (Bool-cases (at_least f.state established)) [
  | inl e ↦ rw (e, incress_rto)
  | inr e ↦ rw (e, incress_rto)
]

-- A branch between pairs of a flow and a result.
pub phase_first :
    {A : Type 0} (f : Flow) (b : Bool) (x y : Flow × A)
    → phase x.0 ≡ phase f
    → phase y.0 ≡ phase f
    → phase (if b then x else y).0 ≡ phase f
phase_first f true x y h k = h
phase_first f false x y h k = k

-- A step that returns from the function, or goes on.
abbrev pub ForwardFlow : Phase → Outcome Flow → Type 0
ForwardFlow p (stop f b) = Forward p (phase f)
ForwardFlow p (more f) = Forward p (phase f)

abbrev pub ForwardPair : Phase → Outcome (Flow × Bool) → Type 0
ForwardPair p (stop f b) = Forward p (phase f)
ForwardPair p (more (f, b)) = Forward p (phase f)

pub ForwardFlow-if :
    (p : Phase) (b : Bool) (x y : Outcome Flow)
    → ForwardFlow p x
    → ForwardFlow p y
    → ForwardFlow p (if b then x else y)
ForwardFlow-if p true x y h k = h
ForwardFlow-if p false x y h k = k

pub ForwardPair-if :
    (p : Phase) (b : Bool) (x y : Outcome (Flow × Bool))
    → ForwardPair p x
    → ForwardPair p y
    → ForwardPair p (if b then x else y)
ForwardPair-if p true x y h k = h
ForwardPair-if p false x y h k = k

-- One step after the other.
pub ForwardPair-bind :
    (p : Phase) (o : Outcome Flow) (k : Flow → Outcome (Flow × Bool))
    → ForwardFlow p o
    → ((g : Flow) → Forward p (phase g) → ForwardPair p (k g))
    → ForwardPair p (o >>= k)
ForwardPair-bind p (stop f b) k h step = h
ForwardPair-bind p (more f) k h step = step f h

pub ForwardFlow-bind :
    (p : Phase) (o : Outcome (Flow × Bool)) (k : Flow × Bool → Outcome Flow)
    → ForwardPair p o
    → ((g : Flow) (b : Bool) → Forward p (phase g) → ForwardFlow p (k (g, b)))
    → ForwardFlow p (o >>= k)
ForwardFlow-bind p (stop f b) k h step = h
ForwardFlow-bind p (more (f, b)) k h step = step f b h

-- The flow is given up after a transmission that failed.
pub Forward-lost :
    (now : ℕ) (f : Flow)
    → Forward (phase f) (phase (allert_disconnected timed_out (retransmit_oldest now f).0))
Forward-lost now f =
    Forward-before _ (retransmit_oldest now f).0 f (phase-retransmit_oldest now f)
      (Forward-allert_disconnected timed_out (retransmit_oldest now f).0)

pub Forward-retransmitted :
    (now : ℕ) (f : Flow) → Forward (phase f) (phase (retransmit_oldest now f).0)
Forward-retransmitted now f = Forward-of_eq (phase-retransmit_oldest now f)

-- A branch whose sides may use the test.
pub ForwardPair-branch :
    (p : Phase) (b : Bool) (x y : Outcome (Flow × Bool))
    → (b ≡ true → ForwardPair p x)
    → (b ≡ false → ForwardPair p y)
    → ForwardPair p (if b then x else y)
ForwardPair-branch p true x y h k = h refl
ForwardPair-branch p false x y h k = k refl

pub ForwardFlow-before :
    (p q : Phase) (o : Outcome Flow) → Forward q p → ForwardFlow p o → ForwardFlow q o
ForwardFlow-before p q (stop f b) h k = Forward-trans q p (phase f) h k
ForwardFlow-before p q (more f) h k = Forward-trans q p (phase f) h k
