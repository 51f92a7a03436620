-- ===== src/Urdp/Tests.antt =====
-- Runs of the flow at concrete values.
use p2engine.Prelude.{
  List, [], ap, arith, drop, false, leb, max, none, pos, refl, some, take, true, ℕ, ◌++◌, ◌+◌, ◌-◌,
  ◌∷◌, ◌≡◌, ◌≤◌,
}
use p2engine.Urdp.Ack.{advance_una}
use p2engine.Urdp.Ack.Removal.{advance_una_removes}
use p2engine.Urdp.Api.{send_reliable}
use p2engine.Urdp.Api.Framed.{send_reliable-frame}
use p2engine.Urdp.Flow.{Flow, Receiver, SSegment, Timing, moderate, sub32, time32}
use p2engine.Urdp.Format.{bytes16, code, ctrl_of, parse_reliable, print_reliable}
use p2engine.Urdp.Format.RoundTrip.{Fits, parse-print_reliable}
use p2engine.Urdp.Init.{blank}
use p2engine.Urdp.Lifecycle.Phase.{IsMarked, phase}
use p2engine.Urdp.Machine.{Event, closes, connects, datagram, run, timer_fires}
use p2engine.Urdp.Machine.Phase.{closed_forever, run_advances}
use p2engine.Urdp.Output.{attempt_send}
use p2engine.Urdp.Output.Drain.{attempt_send-IsSound}
use p2engine.Urdp.Process.{try_keep}
use p2engine.Urdp.Process.Keeping.{try_keep_again}
use p2engine.Urdp.Queue.{queue}
use p2engine.Urdp.Queue.Invariant.{IsSound, queue_appends}
use p2engine.Urdp.Queue.Stream.{contents}
use p2engine.Urdp.Reassembly.{accept_data, adjust_segment, read_segments}
use p2engine.Urdp.Reassembly.Reading.{read_segments_lem, stored}
use p2engine.Urdp.Reassembly.Wrapped.{adjust_segment_cuts, old_segment_stored}
use p2engine.Urdp.Receive.{received, recv}
use p2engine.Urdp.Receive.Framing.{frame, recv-frame}
use p2engine.Urdp.Rto.{incress_rto, updata_rtt}
use p2engine.Urdp.Rto.Bounds.{IsEstimate, incress_rto-IsEstimate, updata_rtt-IsEstimate}
use p2engine.Urdp.Timer.{clock_check}
use p2engine.Urdp.Timer.Due.{clock_check_bounds}
use p2engine.Urdp.Types.{
  Header, closed, default_timeout, established, immediate_ack, min_clock_check_time, payload, rank,
}
use p2engine.Wrap.{wrap_sub}

abbrev lowest : ℕ → ℕ → ℕ → ℕ
lowest i lo hi = lo

abbrev start : Flow
start = blank lowest

abbrev gone : Flow
gone = record start { conn = record (start.conn) { state = closed } }

-- A flow is asked for a connection, hears noise, is closed, and its timer fires.
abbrev story : List (ℕ × Event)
story =
    (1000, connects 5 (1 ∷ []) none)
    ∷ (1200, datagram (1 ∷ 2 ∷ 3 ∷ []) 5 (record { level = moderate; bits = 0 }))
    ∷ (1300, closes true)
    ∷ (1500, timer_fires)
    ∷ []

run_advances_example :
    (rank start.state ≤ rank (run story start).state) × IsMarked (phase (run story start))
run_advances_example = run_advances story start (unfold blank in λ a b. absurd (omega (arith, a)))

closed_forever_example : (run story gone).state ≡ closed
closed_forever_example = closed_forever story gone refl

-- Two stored segments, which cut a framed message in two.
abbrev talking : Flow
talking = record start {
  conn = record (start.conn) { state = established; socket = true };
  rcv = record (start.rcv) {
    rlist =
        record { buf = 0 ∷ 3 ∷ 0 ∷ 9 ∷ 10 ∷ []; seq = 50 }
        ∷ record { buf = 11 ∷ 12 ∷ 0 ∷ []; seq = 55 }
        ∷ [];
    rlen = 8;
    rcv_nxt = 58;
  };
}

recv-frame_example :
    let (result, g) = recv 100 talking in
    (result ≡ received (bytes16 9 (10 ∷ 11 ∷ 12 ∷ [])))
    × (stored g.rlist ≡ 0 ∷ [])
    × (g.rlen + 7 ≡ talking.rlen)
unfolding blank
recv-frame_example =
    recv-frame 100 talking 9 (10 ∷ 11 ∷ 12 ∷ []) (0 ∷ []) refl refl refl
      (omega arith, (omega arith, tt)) (omega arith) refl (omega arith) (omega arith)

-- Three bytes sent across the wrap of the sequence numbers, and two that wait.
abbrev first_sent : SSegment
first_sent = record { seq = 4294967294; buf = 1 ∷ 2 ∷ 3 ∷ []; xmit = 1; ctrl_type = payload }

abbrev waiting : SSegment
waiting = record { seq = 1; buf = 4 ∷ 5 ∷ []; xmit = 0; ctrl_type = payload }

abbrev loaded : Flow
loaded = record talking {
  snd = record (start.snd) {
    retrans_slist = first_sent ∷ [];
    slist = waiting ∷ [];
    snd_una = 4294967294;
    snd_nxt = 1;
    slen = 5;
    mss = 4;
  };
}

loaded-IsSound : IsSound loaded.snd
loaded-IsSound = record {
  mss_pos = omega arith;
  una_small = omega arith;
  total = refl;
  small = omega arith;
  nxt = refl;
  chain_sent = (refl, tt);
  chain_waiting = (refl, tt);
  sized_sent = (omega arith, omega arith, tt);
  sized_waiting = (omega arith, omega arith, tt);
  fresh = (refl, tt);
}

queue_appends_example :
    let g = queue (6 ∷ 7 ∷ 8 ∷ []) payload loaded in
    (contents g.slist ≡ contents loaded.slist ++ (6 ∷ 7 ∷ 8 ∷ []))
    × (g.retrans_slist ≡ loaded.retrans_slist)
    × (g.slen ≡ loaded.slen + 3)
    × IsSound g.snd
queue_appends_example = queue_appends (6 ∷ 7 ∷ 8 ∷ []) payload loaded loaded-IsSound (omega arith)

attempt_send-IsSound_example : IsSound (attempt_send immediate_ack 100 loaded).snd
attempt_send-IsSound_example = attempt_send-IsSound immediate_ack 100 loaded loaded-IsSound

abbrev acknowledgement : Header
acknowledgement = record {
  control = payload;
  peer_id = 77;
  lostrate_recving = 1;
  id_for_lost_detect = 2;
  session_id = 42;
  bandwidth_recving = 0;
  window = 1000;
  time_sending = 65535;
  time_echo = 0;
  seqno = 58;
  ackno = 1;
}

advance_una_removes_example :
    let g = advance_una 100 acknowledgement loaded in
    (g.retrans_slist ≡ [])
    × (g.snd_una ≡ acknowledgement.ackno)
    × (g.slen + 3 ≡ loaded.slen)
    × IsSound g.snd
advance_una_removes_example =
    advance_una_removes 100 acknowledgement loaded (first_sent ∷ []) [] loaded-IsSound refl refl

clock_check_bounds_example :
    (t : ℕ) × (clock_check 1000 talking ≡ some t)
    × (t ≤ max talking.ping_interval default_timeout)
    × (min_clock_check_time ≤ sub32 (time32 1000) talking.t_last_on_clock + t)
clock_check_bounds_example =
    clock_check_bounds 1000 talking (λ e. absurd (omega (arith, ap rank e)))
      (unfold blank wrap_sub in omega arith)

acknowledgement-Fits : Fits acknowledgement
unfolding ctrl_of code
acknowledgement-Fits = record {
  known = refl;
  peer = omega arith;
  session = omega arith;
  bandwidth = omega arith;
  win = omega arith;
  sending = omega arith;
  echo = omega arith;
  seq = omega arith;
  acked = omega arith;
}

parse-print_reliable_example :
    parse_reliable (print_reliable acknowledgement (9 ∷ [])) ≡ some (acknowledgement, 9 ∷ [])
parse-print_reliable_example = parse-print_reliable acknowledgement (9 ∷ []) acknowledgement-Fits

abbrev measured : Timing
measured = record (start.tim) { srtt = 300; rttvar = 40 }

measured-IsEstimate : IsEstimate measured
unfolding blank
measured-IsEstimate = record {
  low = omega arith;
  high = omega arith;
  srtt_small = omega arith;
  rttvar_small = omega arith;
}

updata_rtt-IsEstimate_example : IsEstimate (updata_rtt (pos 500) measured)
updata_rtt-IsEstimate_example =
    updata_rtt-IsEstimate (pos 500) measured (omega arith) measured-IsEstimate

abbrev measuring : Flow
measuring = record talking { tim = measured }

incress_rto-IsEstimate_example : IsEstimate (incress_rto measuring).tim
incress_rto-IsEstimate_example = incress_rto-IsEstimate measuring measured-IsEstimate

read_segments_lem_example :
    ((read_segments 6 talking.rlist).0 ≡ take 6 (stored talking.rlist))
    × (stored (read_segments 6 talking.rlist).1 ≡ drop 6 (stored talking.rlist))
read_segments_lem_example = read_segments_lem 6 talking.rlist

try_keep_again_example :
    (try_keep 7 8000 9000 (try_keep 7 8000 100 ((7, 50) ∷ (8, 900) ∷ [])).0).1
    ≡ leb (100 + 8000) 9000
try_keep_again_example =
    try_keep_again 7 8000 100 8000 9000 ((7, 50) ∷ (8, 900) ∷ []) (unfold try_keep in refl)

adjust_segment_cuts_example :
    let r = adjust_segment 12 10 (1 ∷ 2 ∷ 3 ∷ []) in
    (r.1 ≡ drop (12 - 10) (1 ∷ 2 ∷ 3 ∷ [])) × (r.0 ≡ max 12 10)
adjust_segment_cuts_example = adjust_segment_cuts 12 10 (1 ∷ 2 ∷ 3 ∷ [])

abbrev just_wrapped : Receiver
just_wrapped = record (start.rcv) { rcv_nxt = 5 }

old_segment_stored_example :
    (accept_data false 4294967290 (1 ∷ 2 ∷ 3 ∷ []) just_wrapped).0.rlist
    ≡ record { buf = 1 ∷ 2 ∷ 3 ∷ []; seq = 4294967290 } ∷ []
unfolding blank
old_segment_stored_example =
    old_segment_stored 4294967290 (1 ∷ 2 ∷ 3 ∷ []) just_wrapped refl (omega arith) (omega arith)
      (omega arith) (omega arith) (omega arith)

send_reliable-frame_example :
    let g = (send_reliable (10 ∷ 11 ∷ []) 9 100 loaded).0 in
    (contents g.retrans_slist
      ≡ contents loaded.retrans_slist ++ (contents loaded.slist ++ frame 9 (10 ∷ 11 ∷ [])))
    × (g.slist ≡ [])
    × (g.slen ≡ loaded.slen + 6)
    × IsSound g.snd
send_reliable-frame_example =
    send_reliable-frame (10 ∷ 11 ∷ []) 9 100 loaded loaded-IsSound (omega arith) (omega arith)
