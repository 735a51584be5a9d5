-- ===== src/Net/Tcp/Tcb/Rtt.antt =====
-- The round-trip estimate: its bounds.
use Prim.Native.Nat.{max}
use vyro_os.Base.{ℕ, ◌^◌, min, ◌≤◌, ◌<◌, ◌≡◌, ◌≢◌, ◌⊎◌, arith}
use vyro_os.Net.Tcp.Tcb.{Tcb, tcp_rto_min_ms, tcp_rto_max_ms, next_srtt, rtt_sample}

-- After a sample the timeout is between 200 and 5000 ms. Where estimate and sample are below 2 ^ 29,
-- so that nothing wraps, the new estimate lies between the old one and the sample, and is the sample
-- itself where there was no estimate.
pub rtt_sample_lem :
    (t : Tcb) (sample : ℕ)
    → t.srtt_ms < 2 ^ 29
    → 0 < sample
    → sample < 2 ^ 29
    → let t' = rtt_sample t sample in
      (tcp_rto_min_ms ≤ t'.rto_ms)
      × (t'.rto_ms ≤ tcp_rto_max_ms)
      × (min t.srtt_ms sample ≤ t'.srtt_ms)
      × (t'.srtt_ms ≤ max t.srtt_ms sample)
      × ((t.srtt_ms ≢ 0) ⊎ (t'.srtt_ms ≡ sample))
unfolding rtt_sample next_srtt
rtt_sample_lem t sample small more lt =
    (ground arith, ground arith, ground arith, ground arith, ground arith)
