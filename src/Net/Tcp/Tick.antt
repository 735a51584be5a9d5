-- ===== src/Net/Tcp/Tick.antt =====
-- The timers: one round of the loop of `tcp_tick` in kernel/tcp.c, which works on one block.
pub mod Resend
pub mod GiveUp
use vyro_os.Base.{
  ℕ, zero, suc, ◌+◌, ◌-◌, ◌*◌, ◌/◌, ◌%◌, ◌^◌, min, Bool, true, false, not, ◌&&◌, List, [], ◌∷◌,
  length, take, drop, ltb, leb, ◌==◌, if◌then◌else◌,
}
use vyro_os.Net.Tcp.Tcb.{
  Tcb, Out, TcpState, syn_sent, established, time_wait, tcp_mss, tcp_data_rto_ms, tcp_rto_max_ms,
  flag_syn, flag_psh, flag_ack, in_flight,
}
use vyro_os.Net.Tcp.Handle.{out, shut}

abbrev pub syn_retry_max : ℕ
syn_retry_max = 3

-- `a - b` on `uint64_t`
abbrev pub sub64 : ℕ → ℕ → ℕ
sub64 a b = (a + 2 ^ 64 - b) % 2 ^ 64

-- The branch for `TCP_SYN_SENT`: another SYN, each time after twice the wait, or the end.
unfoldable pub tick_syn_sent : ℕ → Tcb → Tcb × List Out
tick_syn_sent now t =
    if leb (1000 * 2 ^ t.retries % 2 ^ 64) (sub64 now t.syn_sent_at_ms)
    then if leb syn_retry_max t.retries then (shut t, []) else (
      record t { retries = (t.retries + 1) % 256; syn_sent_at_ms = now },
      out flag_syn t.snd_una 0 ∷ [],
    )
    else (t, [])

unfoldable pub tick_time_wait : ℕ → Tcb → Tcb × List Out
tick_time_wait now t = if leb 2000 (sub64 now t.syn_sent_at_ms) then (shut t, []) else (t, [])

-- `while (off < in_flight)`, for `n` rounds at most.
pub resend : ℕ → Tcb → ℕ → ℕ → List Out
resend zero t seq off = []
resend (suc n) t seq off = elim (ltb off (in_flight t)) [
  | false ↦ []
  | true ↦
      let chunk = min (in_flight t - off) tcp_mss in
      record {
        flags = flag_ack + flag_psh;
        seq = seq;
        ack = t.rcv_nxt;
        payload = take chunk (drop off t.snd_buf);
      }
      ∷ resend n t ((seq + chunk) % 2 ^ 32) (off + chunk)
]

-- The block after the timeout of the oldest byte.
unfoldable pub back_off : ℕ → Tcb → Tcb
back_off now t =
    let half = t.cwnd / 2 in
    let back = t.rto_ms * 2 % 2 ^ 32 in
    record t {
      snd_oldest_ms = now;
      rtt_in_flight = false;
      ssthresh = (if ltb (2 * tcp_mss) half then half else 2 * tcp_mss);
      cwnd = tcp_mss;
      rto_ms = (if ltb tcp_rto_max_ms back then tcp_rto_max_ms else back);
    }

-- The branch for `TCP_ESTABLISHED`; a round of the loop sends a byte or more.
unfoldable pub tick_established : ℕ → Tcb → Tcb × List Out
unfolding resend back_off
tick_established now t =
    let rto = (if t.rto_ms == 0 then tcp_data_rto_ms else t.rto_ms) in
    if ltb 0 (length t.snd_buf)
      && (not (t.snd_oldest_ms == 0) && leb rto (sub64 now t.snd_oldest_ms))
    then (back_off now t, resend (in_flight t) t t.snd_una 0)
    else (t, [])

unfoldable pub tick_state : TcpState → ℕ → Tcb → Tcb × List Out
unfolding tick_syn_sent tick_time_wait tick_established
tick_state syn_sent now t = tick_syn_sent now t
tick_state time_wait now t = tick_time_wait now t
tick_state established now t = tick_established now t
tick_state _ now t = (t, [])

-- The body of the loop.
unfoldable pub tick_one : ℕ → Tcb → Tcb × List Out
unfolding tick_state
tick_one now t = if t.active then tick_state t.state now t else (t, [])
