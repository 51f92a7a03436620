-- ===== src/Urdp/Timer.antt =====
-- `__clock_check` and `__schedule_timer` of src/rdp/urdp_flow.cpp. The timer is
-- p2engine/timer.hpp's: whether it waits, and until when; time is the 64-bit tick count, at which
-- both the timer and the flow read their clock.
pub mod Due
use p2engine.Prelude.{
  Bool, Option, [], false, if◌then◌else◌, is_empty, ltb_ℤ, max, max_ℤ, min_ℤ, neg_part, none, not,
  pos, pos_part, some, sub_ℕ, true, ℕ, ℤ, ◌&&◌, ◌+◌, ◌==◌, ◌||◌, ◌∷◌,
}
use p2engine.Urdp.Flow.{Flow, add32, emit, time32}
use p2engine.Urdp.Init.{async_wait}
use p2engine.Urdp.Types.{
  ack_delay, at_least, closed, default_timeout, established, min_clock_check_time, post_on_clock,
  same_state, u32_mod,
}
use p2engine.Wrap.{wrappable_minus}

-- `mod_minus` on times.
abbrev pub until : ℕ → ℕ → ℤ
until t now = wrappable_minus u32_mod t now

-- `nTimeout = std::min(nTimeout, due)` if the test holds.
abbrev pub earlier : Bool → ℤ → ℤ → ℤ
earlier test due t = if test then min_ℤ t due else t

abbrev pub close_due : Flow → ℕ → ℤ → ℤ
close_due f now t = elim f.t_close_base [ none ↦ t | some base ↦ min_ℤ t (until base now) ]

abbrev pub unreliable_due : Flow → ℕ → ℤ → ℤ
unreliable_due f now t = elim f.unreliable_slist [
  | [] ↦ t
  | seg ∷ rest ↦ min_ℤ t (until seg.timeout now)
]

-- `nTimeout` after each of the tests, one after the other: the time to close, the delayed
-- acknowledgement, the retransmission, the probe of a closed window, the ping of an idle flow, the
-- first unreliable packet.
unfoldable pub due_close : ℕ → Flow → ℤ
due_close now f = close_due f now (pos (max f.ping_interval default_timeout))

unfoldable pub due_ack : ℕ → Flow → ℤ
due_ack now f = earlier (not (f.t_ack == 0)) (until (add32 f.t_ack ack_delay) now) (due_close now f)

unfoldable pub due_rto : ℕ → Flow → ℤ
due_rto now f =
    earlier (not (f.t_rto_base == 0)) (until (add32 f.t_rto_base f.rto) now) (due_ack now f)

unfoldable pub due_probe : ℕ → Flow → ℤ
due_probe now f = earlier (f.snd_wnd == 0) (until (add32 f.t_lastsend f.rto) now) (due_rto now f)

unfoldable pub due_ping : ℕ → Flow → ℤ
due_ping now f =
    earlier (at_least f.state established && is_empty f.slist && is_empty f.retrans_slist)
      (until (add32 f.t_lasttraffic f.ping_interval) now) (due_probe now f)

-- The earliest of the times at which something is due, relative to now.
unfoldable pub next_due : ℕ → Flow → ℤ
next_due now f = unreliable_due f now (due_ping now f)

-- The check comes no sooner than 30 ms after the last one.
unfoldable pub not_too_soon : ℕ → Flow → ℤ → ℤ
not_too_soon now f t =
    let elapsed = until now f.t_last_on_clock in
    if ltb_ℤ elapsed (pos min_clock_check_time)
    then max_ℤ (sub_ℕ (min_clock_check_time + neg_part elapsed) (pos_part elapsed)) t
    else t

-- `none` for a closed flow; a negative time becomes 0.
unfoldable pub clock_check : ℕ → Flow → Option ℕ
clock_check now f =
    if same_state f.state closed
    then none
    else some (pos_part (not_too_soon (time32 now) f (next_due (time32 now) f)))

-- Whether the timer waits and expires in less than 30 ms.
unfoldable pub expires_soon : ℕ → Flow → Bool
expires_soon now f =
    let left = sub_ℕ f.timer_expires now in
    not f.timer_idle && ltb_ℤ (pos 0) left && ltb_ℤ left (pos min_clock_check_time)

-- `m_timer->async_wait` with the time to wait.
unfoldable pub restart_timer : ℕ → ℕ → Flow → Flow
unfolding async_wait
restart_timer t now f =
    if f.timer_idle || ltb_ℤ (pos t) (sub_ℕ f.timer_expires now) then async_wait t now f else f

-- What `__schedule_timer` does with the time `t` that `__clock_check` gave. A call that is due at
-- once is `again` from `__on_clock`, and is posted from elsewhere.
unfoldable pub at_due : (Flow → Flow) → Bool → ℕ → ℕ → Flow → Flow
at_due again in_clock t now f =
    if f.timer_posted
    then f
    else if t == 0
    then (if in_clock
        then again f
        else emit post_on_clock (record f { conn = record (f.conn) { timer_posted = true } }))
    else restart_timer t now f

-- `__schedule_timer(now, calledInOnClock)`.
unfoldable pub schedule_with : (Flow → Flow) → Bool → ℕ → Flow → Flow
schedule_with again in_clock now f =
    if same_state f.state closed || expires_soon now f
    then f
    else elim (clock_check now f) [ none ↦ f | some t ↦ at_due again in_clock t now f ]

unfoldable pub schedule_timer : ℕ → Flow → Flow
unfolding schedule_with
schedule_timer now f = schedule_with (λ g. g) false now f
