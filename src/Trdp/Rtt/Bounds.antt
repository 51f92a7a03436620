-- ===== src/Trdp/Rtt/Bounds.antt =====
-- What the round trip estimate of src/rdp/trdp_flow.cpp can be.
use p2engine.Prelude.{
  Bool-cases, arith, inl, inr, ltb, max, min, refl, true, ℕ, ◌&&◌, ◌<◌, ◌==◌, ◌≡◌, ◌⊎◌,
}
use p2engine.Trdp.Flow.{TcpRtt}
use p2engine.Trdp.Rtt.{rtt_sample, take_sample, update_rtt}

-- Estimates that `int` arithmetic on them cannot overflow.
abbrev pub IsSmall : TcpRtt → Type 0
IsSmall t = (t.srtt < 10000) × (t.rttvar < 10000)

take_sample-IsSmall : (rtt : ℕ) (t : TcpRtt) → rtt < 10000 → IsSmall t → IsSmall (take_sample rtt t)
unfolding take_sample
take_sample-IsSmall rtt t h (s, v) = elim (Bool-cases (t.srtt == 0)) [
  | inl k ↦ rw k (h, omega arith)
  | inr k ↦ rw k (omega arith, omega arith)
]

clamp : (x : ℕ) → min 100 (max 6000 x) ≡ 100
clamp x = omega arith

rto-take_sample : (rtt : ℕ) (t : TcpRtt) → (take_sample rtt t).rto ≡ 100
unfolding take_sample
rto-take_sample rtt t = clamp _

below : (rtt : ℕ) → (ltb 0 rtt && ltb rtt 10000) ≡ true → rtt < 10000
below rtt h = ground arith

-- `__update_rtt`, for any time echoed by the peer: the estimate and its deviation stay below 10000,
-- and the timeout stays as it was or becomes 100, whatever the estimate is.
pub update_rtt-bounds :
    (now echo_time : ℕ) (t : TcpRtt)
    → IsSmall t
    → IsSmall (update_rtt now echo_time t)
      × (((update_rtt now echo_time t).rto ≡ t.rto) ⊎ ((update_rtt now echo_time t).rto ≡ 100))
unfolding update_rtt
update_rtt-bounds now echo_time t s =
    let rtt = rtt_sample now echo_time in
    elim (Bool-cases (ltb 0 rtt && ltb rtt 10000)) [
      | inl k ↦
          rw (k, update_rtt)
            (take_sample-IsSmall rtt t (below rtt k) s, inr (rto-take_sample rtt t))
      | inr k ↦ rw (k, update_rtt) (s, inl refl)
    ]
