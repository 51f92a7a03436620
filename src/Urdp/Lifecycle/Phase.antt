-- ===== src/Urdp/Lifecycle/Phase.antt =====
-- The end of a flow of src/rdp/urdp_flow.cpp and the order of the states. What counts is the state,
-- and whether `__close` was called.
use p2engine.Prelude.{
  Bool, Bool-cases, List, Option-cases, [], ap, arith, false, if◌then◌else◌, inl, inr, is_empty,
  refl, subst, sym, true, ℕ, ◌&&◌, ◌<◌, ◌==◌, ◌||◌, ◌∙◌, ◌≡◌, ◌≤◌, ◌⊎◌,
}
use p2engine.Urdp.Flow.{Flow, set_cancel}
use p2engine.Urdp.Lifecycle.{
  close_by_mode, close_flow, drop_everything, send_fin, shutdown_mode, to_closed_state,
}
use p2engine.Urdp.Output.{attempt_send, packet_as_reliable_and_sendout}
use p2engine.Urdp.Output.Frame.{Kept, kept, kept-attempt_send, kept-packet, kept-queue}
use p2engine.Urdp.Queue.{queue}
use p2engine.Urdp.Timer.{
  at_due, clock_check, expires_soon, restart_timer, schedule_timer, schedule_with,
}
use p2engine.Urdp.Types.{
  Ctrl, SendFlags, ShutdownMode, TcpState, closed, closing, rank, rst, same_state, sd_forceful,
  sd_graceful, sd_none, wating_fin_ack,
}

abbrev pub Phase : Type 0
Phase = TcpState × Bool

abbrev pub phase : Flow → Phase
phase f = (f.state, f.close_called)

-- The two states between an orderly close and its end are reached through `__close` alone.
abbrev pub IsMarked : Phase → Type 0
IsMarked p = 4 < rank p.0 → rank p.0 < 7 → p.1 ≡ true

-- No step back in the order of the states, from a phase that is marked to one that is.
abbrev pub Forward : Phase → Phase → Type 0
Forward p q = IsMarked p → (rank p.0 ≤ rank q.0) × IsMarked q

pub Forward-refl : (p : Phase) → Forward p p
Forward-refl p m = (omega arith, m)

pub Forward-trans : (p q r : Phase) → Forward p q → Forward q r → Forward p r
Forward-trans p q r a b m =
    let (le, m') = a m in let (le', m'') = b m' in (omega (arith, le, le'), m'')

pub Forward-of_eq : {p q : Phase} → q ≡ p → Forward p q
Forward-of_eq {p} {q} e = subst (λ x. Forward p x) (sym e) (Forward-refl p)

pub phase_of_kept : (f g : Flow) → kept g ≡ kept f → phase g ≡ phase f
phase_of_kept f g e = ap (λ (k : Kept). let p : Phase = (k.conn.state, k.conn.close_called) in p) e

same_state_closed : (s : TcpState) → same_state s closed ≡ true → s ≡ closed
same_state_closed s e = ground arith

is_closing : (s : TcpState) → same_state s closing ≡ true → s ≡ closing
is_closing s e = ground arith

pub to_closed_state-closed : (f : Flow) → (to_closed_state f).state ≡ closed
unfolding to_closed_state drop_everything set_cancel
to_closed_state-closed f = elim (Bool-cases (same_state f.state closed)) [
  | inl e ↦ rw e (same_state_closed f.state e)
  | inr e ↦ rw e
]

-- The end can come from everywhere.
pub Forward-closed : (p : Phase) (f : Flow) → f.state ≡ closed → Forward p (phase f)
Forward-closed p f e m = ground arith

pub Forward-to_closed_state : (p : Phase) (f : Flow) → Forward p (phase (to_closed_state f))
Forward-to_closed_state p f = Forward-closed p (to_closed_state f) (to_closed_state-closed f)

pub phase-restart_timer : (t now : ℕ) (f : Flow) → phase (restart_timer t now f) ≡ phase f
unfolding restart_timer
phase-restart_timer t now f = ground arith

phase-at_due :
    (again : Flow → Flow) (in_clock : Bool) (t now : ℕ) (f : Flow)
    → phase (again f) ≡ phase f
    → phase (at_due again in_clock t now f) ≡ phase f
unfolding at_due
phase-at_due again in_clock t now f h = elim (Bool-cases f.timer_posted) [
  | inl e ↦ ground arith
  | inr e ↦ elim (Bool-cases (t == 0)) [
    | inr k ↦ simp (e, k) (phase-restart_timer t now f)
    | inl k ↦ elim (Bool-cases in_clock) [ inl b ↦ simp (e, k, b) h | inr b ↦ simp (e, k, b) ]
  ]
]

pub phase-schedule_with :
    (again : Flow → Flow) (in_clock : Bool) (now : ℕ) (f : Flow)
    → phase (again f) ≡ phase f
    → phase (schedule_with again in_clock now f) ≡ phase f
unfolding schedule_with
phase-schedule_with again in_clock now f h =
    elim (Bool-cases (same_state f.state closed || expires_soon now f)) [
      | inl e ↦ rw (e, schedule_with)
      | inr e ↦ elim (Option-cases (clock_check now f)) [
        | inl k ↦ rw (e, k, schedule_with)
        | inr (t, k) ↦ rw (e, k, schedule_with) (phase-at_due again in_clock t now f h)
      ]
    ]

pub phase-schedule_timer : (now : ℕ) (f : Flow) → phase (schedule_timer now f) ≡ phase f
unfolding schedule_timer
phase-schedule_timer now f = phase-schedule_with (λ g. g) false now f refl

pub phase-send_fin :
    (now : ℕ) (f : Flow) → phase (send_fin now f) ≡ (wating_fin_ack, f.close_called)
unfolding send_fin packet_as_reliable_and_sendout
phase-send_fin now f = refl

pub Forward-fin :
    (now : ℕ) (f : Flow)
    → same_state f.state closing ≡ true
    → Forward (phase f) (phase (send_fin now f))
Forward-fin now f e m =
    let k = is_closing f.state e in
    rw phase-send_fin (rw k (omega arith), λ a b. m (rw k (omega arith)) (rw k (omega arith)))

pub phase-attempt_send :
    (flags : SendFlags) (now : ℕ) (f : Flow) → phase (attempt_send flags now f) ≡ phase f
phase-attempt_send flags now f =
    phase_of_kept f (attempt_send flags now f) (kept-attempt_send flags now f)

-- The phase in which an orderly close leaves the flow.
phase-orderly :
    (now : ℕ) (f : Flow)
    → (phase (close_by_mode sd_graceful now f) ≡ (wating_fin_ack, f.close_called))
      ⊎ (phase (close_by_mode sd_graceful now f) ≡ (closing, f.close_called))
unfolding close_by_mode
phase-orderly now f =
    let g : Flow = record f { conn = record (f.conn) { state = closing } } in
    elim (Bool-cases (is_empty f.retrans_slist && is_empty f.slist)) [
      | inl e ↦
          inl (
            rw (e, close_by_mode)
              (phase-schedule_timer now (send_fin now g) ∙ phase-send_fin now g))
      | inr e ↦ inr (rw (e, close_by_mode) (phase-schedule_timer now g))
    ]

-- An orderly or a forced close, of a flow that was not closed before.
Forward-close_by_mode :
    (mode : ShutdownMode) (now : ℕ) (f : Flow) (p : Phase)
    → p.0 ≡ f.state
    → f.close_called ≡ true
    → rank p.0 ≤ 4
    → Forward p (phase (close_by_mode mode now f))
Forward-close_by_mode sd_none now f p e c n m = unfold close_by_mode in (ground arith, λ a b. c)
Forward-close_by_mode sd_forceful now f p e c n m =
    Forward-closed p (close_by_mode sd_forceful now f)
      (unfold close_by_mode in
        to_closed_state-closed (packet_as_reliable_and_sendout f.snd_nxt rst [] now f))
      m
Forward-close_by_mode sd_graceful now f p e c n m = elim (phase-orderly now f) [
  | inl k ↦ rw k (omega arith, λ a b. c)
  | inr k ↦ rw k (omega arith, λ a b. c)
]

-- A flow that is neither closed nor marked is at most established.
rank_unmarked :
    (s : TcpState) (b : Bool)
    → (4 < rank s → rank s < 7 → b ≡ true)
    → same_state s closed ≡ false
    → b ≡ false
    → rank s ≤ 4
rank_unmarked s b m alive first = ground arith

pub Forward-close_flow :
    (graceful : Bool) (now : ℕ) (f : Flow) → Forward (phase f) (phase (close_flow graceful now f))
unfolding close_flow set_cancel shutdown_mode
Forward-close_flow graceful now f m = elim (Option-cases f.token) [
  | inl e ↦ rw (e, close_flow) (Forward-to_closed_state (phase f) f m)
  | inr (id, e) ↦ elim (Bool-cases (same_state f.state closed)) [
    | inl shut ↦ rw (e, shut, close_flow) (Forward-to_closed_state (phase f) f m)
    | inr alive ↦ elim (Bool-cases f.close_called) [
      | inl again ↦ rw (e, alive, again, close_flow) (omega arith, λ a b. refl)
      | inr first ↦
          let g : Flow = record f {
            conn = record (set_cancel f.conn) {
              socket = false;
              close_called = true;
              shutdown = shutdown_mode graceful f;
            };
          } in
          rw (e, alive, first, close_flow)
            (Forward-close_by_mode (shutdown_mode graceful f) now g (phase f) refl refl
              (rank_unmarked f.state f.close_called m alive first) m)
    ]
  ]
]

-- A branch moves a flow on if both sides do.
pub Forward-if :
    (p : Phase) (b : Bool) (x y : Flow)
    → Forward p (phase x)
    → Forward p (phase y)
    → Forward p (phase (if b then x else y))
Forward-if p true x y h k = h
Forward-if p false x y h k = k

-- A step that leaves the phase, before or after one that moves on.
pub Forward-before :
    (p : Phase) (f g : Flow) → phase f ≡ phase g → Forward (phase f) p → Forward (phase g) p
Forward-before p f g e h = subst (λ x. Forward x p) e h

pub Forward-after :
    (p : Phase) (f g : Flow) → phase g ≡ phase f → Forward p (phase f) → Forward p (phase g)
Forward-after p f g e h = subst (λ x. Forward p x) (sym e) h

pub phase-queue : (d : List ℕ) (ctrl : Ctrl) (f : Flow) → phase (queue d ctrl f) ≡ phase f
phase-queue d ctrl f = phase_of_kept f (queue d ctrl f) (kept-queue d ctrl f)

pub phase-packet :
    (seq : ℕ) (ctrl : Ctrl) (d : List ℕ) (now : ℕ) (f : Flow)
    → phase (packet_as_reliable_and_sendout seq ctrl d now f) ≡ phase f
phase-packet seq ctrl d now f =
    phase_of_kept f (packet_as_reliable_and_sendout seq ctrl d now f) (kept-packet seq ctrl d now f)

-- A branch leaves the phase if both sides do.
pub phase_if :
    (f : Flow) (b : Bool) (x y : Flow)
    → phase x ≡ phase f
    → phase y ≡ phase f
    → phase (if b then x else y) ≡ phase f
phase_if f true x y h k = h
phase_if f false x y h k = k

pub Forward-by : (p : Phase) (f g : Flow) → g ≡ f → Forward p (phase f) → Forward p (phase g)
Forward-by p f g e h = subst (λ (x : Flow). Forward p (phase x)) (sym e) h

-- The same where the side taken may use the test.
pub Forward-branch :
    (p : Phase) (b : Bool) (x y : Flow)
    → (b ≡ true → Forward p (phase x))
    → (b ≡ false → Forward p (phase y))
    → Forward p (phase (if b then x else y))
Forward-branch p true x y h k = h refl
Forward-branch p false x y h k = k refl
