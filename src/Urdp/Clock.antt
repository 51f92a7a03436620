-- ===== src/Urdp/Clock.antt =====
-- `__on_clock` of src/rdp/urdp_flow.cpp, and `ping` and `ping_interval`.
pub mod Phase
pub mod Forward
pub mod Still
pub mod Once
use p2engine.Prelude.{
  Bool, List, [], false, if◌then◌else◌, is_empty, ltb, max, min, none, not, some, suc, true, zero,
  ℕ, ◌%◌, ◌&&◌, ◌*◌, ◌+◌, ◌-◌, ◌/◌, ◌==◌, ◌^◌, ◌||◌, ◌∷◌,
}
use p2engine.Urdp.Ack.{Outcome, more, stop, ◌>>=◌}
use p2engine.Urdp.Flow.{
  Flow, SUnraliableSegment, Sender, add32, is_connected, mod_less, mod_less_equal, mod_minus_ge,
  sub32, time32,
}
use p2engine.Urdp.Lifecycle.{allert_disconnected, to_closed_state}
use p2engine.Urdp.Output.{
  attempt_send, packet_as_reliable_and_sendout, packet_as_unreliable_and_sendout, retransmit_oldest,
}
use p2engine.Urdp.Queue.{queue}
use p2engine.Urdp.Rto.{incress_rto}
use p2engine.Urdp.Timer.{schedule_timer, schedule_with}
use p2engine.Urdp.Types.{
  ErrorCode, ack, ack_delay, closed, default_timeout, established, none_flag, not_connected, rst,
  same_state, scape_zero, success, timed_out, u32_mod,
}

-- `ping`: one byte is sent if nothing waits, so that the peer answers.
unfoldable pub ping : ℕ → Flow → Flow × ErrorCode
ping now f =
    if is_connected f
    then (
      attempt_send none_flag now
          (if is_empty f.slist && is_empty f.retrans_slist then queue (0 ∷ []) ack f else f),
      success,
    )
    else (f, not_connected)

-- `ping_interval(t)`, in milliseconds.
unfoldable pub set_ping_interval : ℕ → ℕ → Flow → Flow
set_ping_interval t now f =
    let g = record f { tim = record (f.tim) { ping_interval = min t (2 ^ 31 - 1) } } in
    if ltb t f.ping_interval then schedule_timer now g else g

-- `t <= now` on times.
abbrev pub is_due : ℕ → ℕ → Bool
is_due t now = mod_less_equal t (time32 now)

-- The time to close has come, or the peer was silent for too long.
unfoldable pub has_expired : ℕ → Flow → Bool
has_expired now f =
    elim f.t_close_base [ none ↦ false | some base ↦ is_due base now ]
    || same_state f.state established
      && is_due (add32 (add32 f.t_lastrecv f.ping_interval) default_timeout) now

-- The windows after a retransmission by the clock.
unfoldable pub shrink_windows : Sender → Sender
shrink_windows s =
    let half = max (sub32 s.snd_nxt s.snd_una * 3 % u32_mod / 4) (2 * s.mss % u32_mod) in
    record s { ssthresh = half; cwnd = max (half / 2) (2 * s.mss % u32_mod) }

-- The retransmission; the flag is `haveSentReliableMsg`.
unfoldable pub resend : ℕ → Flow → Outcome (Flow × Bool)
resend now f =
    let (g, done) = retransmit_oldest now f in
    let g' = record g {
      snd = shrink_windows g.snd;
      tim = record (g.tim) { t_rto_base = scape_zero (time32 now) };
    } in
    if f.t_rto_base == 0 || not (is_due (add32 f.t_rto_base f.rto) now)
    then more (f, false)
    else if is_empty f.retrans_slist
    then more (record f { tim = record (f.tim) { t_rto_base = 0 } }, false)
    else if done
    then more (incress_rto g', true)
    else stop (allert_disconnected timed_out g) true

-- `SUnraliableSegment::operator<`, and an insertion into the set.
abbrev pub is_before : SUnraliableSegment → SUnraliableSegment → Bool
is_before a b = if a.timeout == b.timeout then mod_less a.id b.id else mod_less a.timeout b.timeout

unfoldable pub insert_unreliable :
    SUnraliableSegment → List SUnraliableSegment → List SUnraliableSegment
insert_unreliable seg [] = seg ∷ []
insert_unreliable seg (s ∷ r) =
    let r' = insert_unreliable seg r in
    if is_before s seg then s ∷ r' else if is_before seg s then seg ∷ s ∷ r else s ∷ r

-- One round of the loop that resends semireliable packets.
unfoldable pub resend_unreliable_one :
    ℕ → SUnraliableSegment → List SUnraliableSegment → Flow → Flow
resend_unreliable_one now seg rest f =
    let (seg', g) = packet_as_unreliable_and_sendout seg now f in
    record g {
      unr = record (g.unr) {
        unreliable_slist = if seg'.remain_xmit == 0 then rest else insert_unreliable seg' rest;
      };
    }

-- Each round uses up one transmission of one packet.
abbrev pub transmissions : List SUnraliableSegment → ℕ
transmissions [] = 0
transmissions (s ∷ r) = suc (s.remain_xmit) + transmissions r

unfoldable pub resend_unreliable : ℕ → ℕ → Flow → Flow
resend_unreliable zero now f = f
resend_unreliable (suc fuel) now f = elim f.unreliable_slist [
  | [] ↦ f
  | seg ∷ rest ↦ elim (is_due seg.timeout now) [
    | true ↦ resend_unreliable fuel now (resend_unreliable_one now seg rest f)
    | false ↦ f
  ]
]

-- The ping of an idle flow.
unfoldable pub clock_ping : ℕ → Flow × Bool → Flow × Bool
clock_ping now (f, have_sent) =
    let base = if f.active then f.t_lastsend else add32 f.t_lastrecv 5000 in
    if same_state f.state established
      && is_due (add32 base f.ping_interval) now
      && is_empty f.slist
      && is_empty f.retrans_slist
    then ((ping now f).0, true)
    else (f, have_sent)

-- The peer whose window is closed was silent for 15 seconds.
unfoldable pub give_up : ℕ → Flow → Flow
give_up now f =
    to_closed_state
      (allert_disconnected timed_out (packet_as_reliable_and_sendout f.snd_nxt rst [] now f))

-- The probe of a closed window.
unfoldable pub clock_probe : ℕ → Flow × Bool → Outcome (Flow × Bool)
clock_probe now (f, have_sent) =
    if same_state f.state established && (f.snd_wnd == 0) && is_due (add32 f.t_lastsend f.rto) now
    then (if mod_minus_ge (time32 now) f.t_lastrecv 15000
        then stop (give_up now f) true
        else if have_sent
        then more (incress_rto f, true)
        else more
            (incress_rto (packet_as_reliable_and_sendout (sub32 f.snd_nxt 1) ack [] now f), true))
    else more (f, have_sent)

-- The delayed acknowledgement.
unfoldable pub clock_ack : ℕ → Flow × Bool → Flow
clock_ack now (f, have_sent) =
    if not have_sent && not (f.t_ack == 0) && is_due (add32 f.t_ack ack_delay) now
    then packet_as_reliable_and_sendout f.snd_nxt ack [] now f
    else f

-- The ping, the probe and the delayed acknowledgement.
unfoldable pub clock_rest : ℕ → Flow × Bool → Outcome Flow
clock_rest now start = do next ← clock_probe now (clock_ping now start); more (clock_ack now next)

-- What the clock sends, before the timer is set again.
unfoldable pub clock_work : ℕ → Flow → Outcome Flow
clock_work now f = if has_expired now f then stop (allert_disconnected timed_out f) true else do
  (g, have_sent) ← resend now f
  clock_rest now (resend_unreliable (transmissions g.unreliable_slist) now g, have_sent)

abbrev pub clock_start : ℕ → Flow → Flow
clock_start now f = record f {
  conn = record (f.conn) { timer_posted = false };
  tim = record (f.tim) { t_last_on_clock = time32 now };
}

abbrev pub clock_end : (Flow → Flow) → ℕ → Outcome Flow → Flow
clock_end again now (stop f b) = f
clock_end again now (more f) = schedule_with again true now f

-- `__on_clock`. It may call itself through `__schedule_timer`; the first argument bounds how often.
unfoldable pub on_clock : ℕ → ℕ → Flow → Flow
on_clock zero now f = record f { fault = true }
on_clock (suc n) now f = elim (same_state f.state closed) [
  | true ↦ record f { conn = record (f.conn) { timer_posted = false } }
  | false ↦ clock_end (on_clock n now) now (clock_work now (clock_start now f))
]

-- The timer runs out: it is idle, and the flow's clock runs.
unfoldable pub on_timer : ℕ → Flow → Flow
on_timer now f = on_clock 1 now (record f { tim = record (f.tim) { timer_idle = true } })
