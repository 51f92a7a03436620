-- ===== src/Urdp/Rto.antt =====
-- The round trip estimate of src/rdp/urdp_flow.cpp: `__updata_rtt` and `__incress_rto`.
pub mod Bounds
use p2engine.Prelude.{
  if◌then◌else◌, ltb, max, min, negsuc, pos, ℕ, ℤ, ◌&&◌, ◌*◌, ◌+◌, ◌-◌, ◌/◌, ◌==◌,
}
use p2engine.Urdp.Flow.{Flow, Timing}
use p2engine.Urdp.Types.{at_least, bound, established, max_rto, min_rto}

-- |a - b|
abbrev pub distance : ℕ → ℕ → ℕ
distance a b = (a - b) + (b - a)

-- A negative measurement changes nothing.
unfoldable pub updata_rtt : ℤ → Timing → Timing
unfolding bound
updata_rtt (negsuc n) t = t
updata_rtt (pos rtt') t =
    let rtt = max 20 rtt' in
    let srtt = if t.srtt == 0 then rtt else (7 * t.srtt + rtt) / 8 in
    let rttvar = if t.srtt == 0 then rtt / 2 else (3 * t.rttvar + distance rtt t.srtt) / 4 in
    record t {
      srtt = srtt;
      rttvar = rttvar;
      rto = bound min_rto (srtt + max 1 (rttvar * 4)) max_rto;
    }

-- The back-off of an established flow: `m_rto<<=1`, and the cut at 16 round trips.
unfoldable pub doubled_rto : Timing → ℕ
doubled_rto t =
    let rto = t.rto * 2 in
    let max_rto' = t.srtt * 16 in
    if ltb 0 t.srtt then (if ltb max_rto' rto && ltb min_rto rto then max_rto' else rto) else rto

-- `random(2.0, 3.0)` scales `MIN_RTO`; the draw is of the scaled number.
unfoldable pub incress_rto : Flow → Flow
unfolding bound doubled_rto
incress_rto f =
    if at_least f.state established
    then record f { tim = record (f.tim) { rto = bound min_rto (doubled_rto f.tim) max_rto } }
    else let rto_limit = f.random f.draws (min_rto * 2) (min_rto * 3) in
      record f {
        tim = record (f.tim) { rto = bound min_rto (f.rto + min rto_limit f.rto) max_rto };
        draws = f.draws + 1;
      }
