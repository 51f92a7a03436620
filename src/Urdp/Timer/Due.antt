-- ===== src/Urdp/Timer/Due.antt =====
-- When the clock of src/rdp/urdp_flow.cpp runs next.
use p2engine.Prelude.{
  Bool, arith, false, max, min_ℤ, pos, pos_part, refl, some, ℕ, ℤ, ◌+◌, ◌<◌, ◌^◌, ◌≡◌, ◌≢◌, ◌≤ℤ◌,
  ◌≤◌,
}
use p2engine.Urdp.Flow.{Flow, sub32, time32}
use p2engine.Urdp.Queue.Stream.{room}
use p2engine.Urdp.Timer.{
  clock_check, close_due, due_ack, due_close, due_ping, due_probe, due_rto, earlier, next_due,
  not_too_soon, unreliable_due, until,
}
use p2engine.Urdp.Types.{
  TcpState, closed, closing, default_timeout, established, init, listen, min_clock_check_time,
  same_state, syn_rcvd, syn_sent, wating_fin_ack,
}
use p2engine.Wrap.{signed, wrappable_minus}

min_ℤ-le : (a b : ℤ) → min_ℤ a b ≤ℤ a
min_ℤ-le a b = ground arith

≤ℤ_trans : (a b c : ℤ) → a ≤ℤ b → b ≤ℤ c → a ≤ℤ c
≤ℤ_trans a b c h k = omega arith

earlier-le : (test : Bool) (due t : ℤ) → earlier test due t ≤ℤ t
earlier-le test due t = ground arith

close_due-le : (f : Flow) (now : ℕ) (t : ℤ) → close_due f now t ≤ℤ t
close_due-le f now t = ground arith

unreliable_due-le : (f : Flow) (now : ℕ) (t : ℤ) → unreliable_due f now t ≤ℤ t
unreliable_due-le f now t = ground arith

due_close-le : (now : ℕ) (f : Flow) → due_close now f ≤ℤ pos (max f.ping_interval default_timeout)
unfolding due_close
due_close-le now f = close_due-le f now (pos (max f.ping_interval default_timeout))

due_ack-le : (now : ℕ) (f : Flow) → due_ack now f ≤ℤ due_close now f
unfolding due_ack
due_ack-le now f = earlier-le _ _ (due_close now f)

due_rto-le : (now : ℕ) (f : Flow) → due_rto now f ≤ℤ due_ack now f
unfolding due_rto
due_rto-le now f = earlier-le _ _ (due_ack now f)

due_probe-le : (now : ℕ) (f : Flow) → due_probe now f ≤ℤ due_rto now f
unfolding due_probe
due_probe-le now f = earlier-le _ _ (due_rto now f)

due_ping-le : (now : ℕ) (f : Flow) → due_ping now f ≤ℤ due_probe now f
unfolding due_ping
due_ping-le now f = earlier-le _ _ (due_probe now f)

-- What is due comes no later than the ping interval or ten seconds.
pub next_due-le : (now : ℕ) (f : Flow) → next_due now f ≤ℤ pos (max f.ping_interval default_timeout)
unfolding next_due
next_due-le now f = omega (
  arith,
  unreliable_due-le f now (due_ping now f),
  due_ping-le now f,
  due_probe-le now f,
  due_rto-le now f,
  due_ack-le now f,
  due_close-le now f,
)

-- A time that lies less than half the range back is that far away.
pub until_past : (now t : ℕ) → sub32 t now < 2 ^ 31 → until t now ≡ pos (sub32 t now)
unfolding wrappable_minus signed
until_past now t h = ground arith

pub open_test : (s : TcpState) → s ≢ closed → same_state s closed ≡ false
open_test init h = refl
open_test listen h = refl
open_test syn_sent h = refl
open_test syn_rcvd h = refl
open_test established h = refl
open_test closing h = refl
open_test wating_fin_ack h = refl
open_test closed h = absurd (h refl)

not_too_soon_bounds :
    (now : ℕ) (f : Flow) (t : ℤ) (m : ℕ)
    → sub32 now f.t_last_on_clock < 2 ^ 31
    → t ≤ℤ pos m
    → min_clock_check_time ≤ m
    → (pos_part (not_too_soon now f t) ≤ m)
      × (min_clock_check_time ≤ sub32 now f.t_last_on_clock + pos_part (not_too_soon now f t))
unfolding not_too_soon
not_too_soon_bounds now f t m past le room = ground (arith, until_past f.t_last_on_clock now past)

-- `__clock_check`, on a flow that is not closed and whose clock last ran less than 2 ^ 31 ms ago: it
-- gives a time, which is at most the longer of the ping interval and ten seconds, and at which at
-- least 30 ms have passed since the clock last ran.
pub clock_check_bounds :
    (now : ℕ) (f : Flow)
    → f.state ≢ closed
    → sub32 (time32 now) f.t_last_on_clock < 2 ^ 31
    → (t : ℕ) × (clock_check now f ≡ some t)
      × (t ≤ max f.ping_interval default_timeout)
      × (min_clock_check_time ≤ sub32 (time32 now) f.t_last_on_clock + t)
unfolding clock_check
clock_check_bounds now f open_still past =
    let t : ℤ = not_too_soon (time32 now) f (next_due (time32 now) f) in
    let bounds =
      not_too_soon_bounds (time32 now) f (next_due (time32 now) f)
        (max f.ping_interval default_timeout) past (next_due-le (time32 now) f) (omega arith) in
    (pos_part t, rw (open_test f.state open_still), bounds.0, bounds.1)
