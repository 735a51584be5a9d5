-- ===== src/Net/Tcp/Tcb.antt =====
-- The control block of a connection: the struct `tcp_tcb_t` of kernel/tcp.h with the entries of
-- `snd_buf`, `rcv_buf` and `ooo_buf` of kernel/tcp.c at the same index, each cut to its length, and
-- the functions that work on one block. `now` is what `timer_uptime_ms` gives.
pub mod Rtt
pub mod Emit
pub mod Window
pub mod Slide
use vyro_os.Base.{
  ℕ, zero, suc, ◌+◌, ◌-◌, ◌*◌, ◌/◌, ◌%◌, ◌^◌, min, Bool, true, false, not, ◌&&◌, ◌||◌, List, [],
  ◌∷◌, ◌++◌, length, take, drop, ltb, leb, ◌==◌, if◌then◌else◌, bit_and,
}

abbrev pub tcp_mss : ℕ
tcp_mss = 536

abbrev pub tcp_buf_size : ℕ
tcp_buf_size = 1024

abbrev pub tcp_data_rto_ms : ℕ
tcp_data_rto_ms = 1000

abbrev pub tcp_rto_min_ms : ℕ
tcp_rto_min_ms = 200

abbrev pub tcp_rto_max_ms : ℕ
tcp_rto_max_ms = 5000

abbrev pub tcp_init_ssthresh : ℕ
tcp_init_ssthresh = 65535

-- The flags of a segment.
abbrev pub flag_fin : ℕ
flag_fin = 0x01

abbrev pub flag_syn : ℕ
flag_syn = 0x02

abbrev pub flag_rst : ℕ
flag_rst = 0x04

abbrev pub flag_psh : ℕ
flag_psh = 0x08

abbrev pub flag_ack : ℕ
flag_ack = 0x10

pub data TcpState : Type 0 where
  closed : TcpState
  listen : TcpState
  syn_sent : TcpState
  syn_received : TcpState
  established : TcpState
  fin_wait_1 : TcpState
  fin_wait_2 : TcpState
  close_wait : TcpState
  last_ack : TcpState
  time_wait : TcpState

pub record Tcb : Type 0 where
  pub state : TcpState
  pub local_ip : List ℕ
  pub remote_ip : List ℕ
  pub local_port : ℕ
  pub remote_port : ℕ
  pub snd_nxt : ℕ
  pub snd_una : ℕ
  pub rcv_nxt : ℕ
  pub syn_sent_at_ms : ℕ
  pub retries : ℕ
  pub active : Bool
  pub is_listener : Bool
  pub accepted : Bool
  pub srtt_ms : ℕ
  pub rttvar_ms : ℕ
  pub rto_ms : ℕ
  pub rtt_probe_seq : ℕ
  pub rtt_probe_sent_ms : ℕ
  pub rtt_in_flight : Bool
  pub last_ack_recv : ℕ
  pub dup_acks : ℕ
  pub cwnd : ℕ
  pub ssthresh : ℕ
  pub snd_buf : List ℕ
  pub snd_oldest_ms : ℕ
  pub rcv_buf : List ℕ
  pub ooo_buf : List ℕ
  pub ooo_seq : ℕ

-- What `build_and_send` and `build_and_send_data` are given besides the block, whose addresses and
-- ports the segment has.
pub record Out : Type 0 where
  pub flags : ℕ
  pub seq : ℕ
  pub ack : ℕ
  pub payload : List ℕ

-- `flags & bit`
unfoldable pub has_flag : ℕ → ℕ → Bool
has_flag flags bit = not (bit_and flags bit == 0)

-- `a - b` and `(int32_t)(a - b) > 0`, on `uint32_t`
abbrev pub sub32 : ℕ → ℕ → ℕ
sub32 a b = (a + 2 ^ 32 - b) % 2 ^ 32

abbrev pub after : ℕ → ℕ → Bool
after a b = ltb 0 (sub32 a b) && ltb (sub32 a b) (2 ^ 31)

unfoldable pub is_established : TcpState → Bool
is_established established = true
is_established _ = false

abbrev pub clamp_rto : ℕ → ℕ
clamp_rto rto =
    let low = (if ltb rto tcp_rto_min_ms then tcp_rto_min_ms else rto) in
    if ltb tcp_rto_max_ms low then tcp_rto_max_ms else low

-- `sample_ms` after the first line of `rtt_sample`.
abbrev pub positive : ℕ → ℕ
positive sample = if sample == 0 then 1 else sample

abbrev pub distance : ℕ → ℕ → ℕ
distance a b = if ltb b a then a - b else b - a

pub next_rttvar : Tcb → ℕ → ℕ
next_rttvar t sample =
    if t.srtt_ms == 0
    then sample / 2
    else (3 * t.rttvar_ms + distance t.srtt_ms sample) % 2 ^ 32 / 4

pub next_srtt : Tcb → ℕ → ℕ
next_srtt t sample = if t.srtt_ms == 0 then sample else (7 * t.srtt_ms + sample) % 2 ^ 32 / 8

unfoldable pub rtt_sample : Tcb → ℕ → Tcb
unfolding next_rttvar next_srtt
rtt_sample t sample_ms =
    let sample = positive sample_ms in
    record t {
      srtt_ms = next_srtt t sample;
      rttvar_ms = next_rttvar t sample;
      rto_ms = clamp_rto ((next_srtt t sample + 4 * next_rttvar t sample) % 2 ^ 32);
    }

pub arm_rtt_probe : ℕ → Tcb → ℕ → Tcb
arm_rtt_probe now t seq =
    if t.rtt_in_flight
    then t
    else record t { rtt_in_flight = true; rtt_probe_seq = seq; rtt_probe_sent_ms = now }

-- `snd_nxt - snd_una`
abbrev pub in_flight : Tcb → ℕ
in_flight t = sub32 t.snd_nxt t.snd_una

-- One round of the loop of `try_emit`: the segment, and the block after it.
pub emit_one : ℕ → Tcb → ℕ → ℕ → Tcb × Out
unfolding arm_rtt_probe
emit_one now t off chunk =
    let t' = arm_rtt_probe now t t.snd_nxt in
    (
      record t' { snd_nxt = (t'.snd_nxt + chunk) % 2 ^ 32 },
      record {
        flags = flag_ack + flag_psh;
        seq = t'.snd_nxt;
        ack = t'.rcv_nxt;
        payload = take chunk (drop off t'.snd_buf);
      },
    )

-- The loop, for `n` rounds at most.
pub emit_loop : ℕ → ℕ → Tcb → ℕ → ℕ → Tcb × List Out
unfolding emit_one
emit_loop zero now t off to_send = (t, [])
emit_loop (suc n) now t off to_send = elim (to_send == 0) [
  | true ↦ (t, [])
  | false ↦
      let chunk = min to_send tcp_mss in
      let (t', out) = emit_one now t off chunk in
      let (t'', outs) = emit_loop n now t' (off + chunk) (to_send - chunk) in (t'', out ∷ outs)
]

-- `try_emit`; a round sends a byte or more, so there are no more rounds than bytes to send
unfoldable pub try_emit : ℕ → Tcb → Tcb × List Out
unfolding emit_loop is_established
try_emit now t =
    if not (is_established t.state)
    then (t, [])
    else if leb (length t.snd_buf) (in_flight t)
    then (t, [])
    else let to_send = min (length t.snd_buf - in_flight t) (t.cwnd - in_flight t) in
      emit_loop to_send now t (in_flight t) to_send

unfoldable pub slide_snd_window : ℕ → Tcb → ℕ → Tcb
slide_snd_window now t acked =
    if acked == 0
    then t
    else let rest = drop (min acked (length t.snd_buf)) t.snd_buf in
      record t { snd_buf = rest; snd_oldest_ms = (if length rest == 0 then 0 else now) }
