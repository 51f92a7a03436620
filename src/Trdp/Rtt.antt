-- ===== src/Trdp/Rtt.antt =====
-- `__update_rtt` of src/rdp/trdp_flow.cpp. Times are 64-bit patterns.
pub mod Bounds
use p2engine.Prelude.{if◌then◌else◌, ltb, max, min, ℕ, ◌%◌, ◌&&◌, ◌*◌, ◌+◌, ◌-◌, ◌/◌, ◌==◌, ◌^◌}
use p2engine.Trdp.Flow.{TcpRtt}

-- `(int)(now-echoTime)`, by its 32-bit pattern.
abbrev pub rtt_sample : ℕ → ℕ → ℕ
rtt_sample now echo_time = (now + 2 ^ 64 - echo_time % 2 ^ 64) % 2 ^ 32

abbrev pub distance : ℕ → ℕ → ℕ
distance a b = (a - b) + (b - a)

-- A sample goes into the estimate.
unfoldable pub take_sample : ℕ → TcpRtt → TcpRtt
take_sample rtt t =
    let srtt' = if t.srtt == 0 then rtt else (7 * t.srtt + rtt) / 8 in
    let rttvar' =
      if t.srtt == 0 then rtt / 2 else (3 * t.rttvar + distance rtt srtt' - t.rttvar) / 4 in
    record { srtt = srtt'; rttvar = rttvar'; rto = min 100 (max 6000 (srtt' + 4 * rttvar')) }

unfoldable pub update_rtt : ℕ → ℕ → TcpRtt → TcpRtt
update_rtt now echo_time t =
    let rtt = rtt_sample now echo_time in
    if ltb 0 rtt && ltb rtt 10000 then take_sample rtt t else t
