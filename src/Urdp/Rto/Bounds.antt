-- ===== src/Urdp/Rto/Bounds.antt =====
-- The bounds of the round trip estimate of src/rdp/urdp_flow.cpp.
use p2engine.Prelude.{arith, negsuc, pos, pos_part, ℤ, ◌<◌, ◌^◌, ◌≤◌}
use p2engine.Urdp.Flow.{Flow, Timing}
use p2engine.Urdp.Rto.{incress_rto, updata_rtt}
use p2engine.Urdp.Types.{max_rto, min_rto}

-- The retransmission timeout is within its limits, and the estimates are below 2 ^ 15.
pub record IsEstimate (t : Timing) : Type 0 where
  pub low : min_rto ≤ t.rto
  pub high : t.rto ≤ max_rto
  pub srtt_small : t.srtt < 2 ^ 15
  pub rttvar_small : t.rttvar < 2 ^ 15

-- A measurement that comes from 16-bit times, so lies below 2 ^ 15 or is negative, keeps the
-- timeout within 250 ms and 8 s, and the smoothed time and its deviation below 2 ^ 15.
pub updata_rtt-IsEstimate :
    (rtt : ℤ) (t : Timing) → pos_part rtt < 2 ^ 15 → IsEstimate t → IsEstimate (updata_rtt rtt t)
unfolding updata_rtt
updata_rtt-IsEstimate (negsuc n) t h v = v
updata_rtt-IsEstimate (pos n) t h v = ground arith

-- The back-off keeps the timeout within 250 ms and 8 s, whatever the generator draws, and does not
-- touch the estimates.
pub incress_rto-IsEstimate : (f : Flow) → IsEstimate f.tim → IsEstimate (incress_rto f).tim
unfolding incress_rto
incress_rto-IsEstimate f v = ground arith
