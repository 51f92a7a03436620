-- ===== src/Urdp/Clock/Forward.antt =====
-- `__schedule_timer` from `__on_clock`, and `__on_clock` with its calls of itself, of
-- src/rdp/urdp_flow.cpp, and the order of the states.
use p2engine.Prelude.{
  Bool, Bool-cases, Option-cases, false, inl, inr, suc, true, zero, ℕ, ◌==◌, ◌||◌,
}
use p2engine.Urdp.Ack.{Outcome, more, stop}
use p2engine.Urdp.Clock.{clock_end, clock_start, clock_work, on_clock, on_timer}
use p2engine.Urdp.Clock.Phase.{ForwardFlow-clock_work}
use p2engine.Urdp.Flow.{Flow}
use p2engine.Urdp.Lifecycle.Phase.{
  Forward, Forward-if, Forward-refl, Forward-trans, Forward-by, Forward-of_eq, Phase, phase,
  phase-restart_timer,
}
use p2engine.Urdp.Lifecycle.Sending.{ForwardFlow}
use p2engine.Urdp.Timer.{at_due, clock_check, expires_soon, schedule_with}
use p2engine.Urdp.Types.{closed, same_state}

Forward-at_due :
    (again : Flow → Flow) (in_clock : Bool) (t now : ℕ) (f : Flow)
    → ((g : Flow) → Forward (phase g) (phase (again g)))
    → Forward (phase f) (phase (at_due again in_clock t now f))
unfolding at_due
Forward-at_due again in_clock t now f h =
    Forward-if (phase f) f.timer_posted f _ (Forward-refl (phase f)) (
      Forward-if (phase f) (t == 0) _ _
        (Forward-if (phase f) in_clock _ _ (h f) (Forward-refl (phase f)))
        (Forward-of_eq (phase-restart_timer t now f)))

Forward-schedule_with :
    (again : Flow → Flow) (in_clock : Bool) (now : ℕ) (f : Flow)
    → ((g : Flow) → Forward (phase g) (phase (again g)))
    → Forward (phase f) (phase (schedule_with again in_clock now f))
unfolding schedule_with
Forward-schedule_with again in_clock now f h =
    let g : Flow = schedule_with again in_clock now f in
    elim (Bool-cases (same_state f.state closed || expires_soon now f)) [
      | inl e ↦ Forward-by (phase f) f g (rw (e, schedule_with)) (Forward-refl (phase f))
      | inr e ↦ elim (Option-cases (clock_check now f)) [
        | inl k ↦ Forward-by (phase f) f g (rw (e, k, schedule_with)) (Forward-refl (phase f))
        | inr (t, k) ↦
            Forward-by (phase f) (at_due again in_clock t now f) g (rw (e, k, schedule_with))
              (Forward-at_due again in_clock t now f h)
      ]
    ]

Forward-clock_end :
    (again : Flow → Flow) (now : ℕ) (p : Phase) (o : Outcome Flow)
    → ((g : Flow) → Forward (phase g) (phase (again g)))
    → ForwardFlow p o
    → Forward p (phase (clock_end again now o))
Forward-clock_end again now p (stop f b) h k = k
Forward-clock_end again now p (more f) h k =
    Forward-trans p (phase f) (phase (schedule_with again true now f)) k
      (Forward-schedule_with again true now f h)

pub Forward-on_clock : (n now : ℕ) (f : Flow) → Forward (phase f) (phase (on_clock n now f))
unfolding on_clock
Forward-on_clock zero now f = Forward-refl (phase f)
Forward-on_clock (suc n) now f =
    let g : Flow = on_clock (suc n) now f in
    let idle : Flow = record f { conn = record (f.conn) { timer_posted = false } } in
    elim (Bool-cases (same_state f.state closed)) [
      | inl e ↦ Forward-by (phase f) idle g (rw (e, on_clock)) (Forward-refl (phase f))
      | inr e ↦
          Forward-by (phase f) (clock_end (on_clock n now) now (clock_work now (clock_start now f)))
            g (rw (e, on_clock))
            (Forward-clock_end (on_clock n now) now (phase f) (clock_work now (clock_start now f))
              (Forward-on_clock n now) (ForwardFlow-clock_work now (clock_start now f)))
    ]

pub Forward-on_timer : (now : ℕ) (f : Flow) → Forward (phase f) (phase (on_timer now f))
unfolding on_timer
Forward-on_timer now f =
    Forward-on_clock 1 now (record f { tim = record (f.tim) { timer_idle = true } })
