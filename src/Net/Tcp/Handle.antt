-- ===== src/Net/Tcp/Handle.antt =====
-- The arrival of a segment at a connection: the `switch` of `tcp_input` in kernel/tcp.c, one function
-- for each state, after the test for a reset.
pub mod Edges
pub mod Data
pub mod Bounds
pub mod Valid
use vyro_os.Base.{
  ℕ, ◌+◌, ◌-◌, ◌*◌, ◌/◌, ◌%◌, ◌^◌, min, Bool, true, false, not, ◌&&◌, ◌||◌, List, [], ◌∷◌, ◌++◌,
  length, take, drop, ltb, leb, ◌==◌, if◌then◌else◌,
}
use vyro_os.Net.Tcp.Tcb.{
  Tcb, Out, TcpState, closed, listen, syn_sent, syn_received, established, fin_wait_1, fin_wait_2,
  close_wait, last_ack, time_wait, tcp_mss, tcp_buf_size, flag_fin, flag_syn, flag_rst, flag_psh,
  flag_ack, has_flag, sub32, after, rtt_sample, slide_snd_window, try_emit,
}

-- What `tcp_input` reads of a frame. `payload` is the number of bytes that the headers announce.
pub record Segment : Type 0 where
  pub src_ip : List ℕ
  pub dst_ip : List ℕ
  pub src_port : ℕ
  pub dst_port : ℕ
  pub seq : ℕ
  pub ack : ℕ
  pub flags : ℕ
  pub payload : ℕ
  pub data' : List ℕ

-- What the other machine reads of a segment that the block `t` sends.
unfoldable pub arrives : Tcb → Out → Segment
arrives t o = record {
  src_ip = t.local_ip;
  dst_ip = t.remote_ip;
  src_port = t.local_port;
  dst_port = t.remote_port;
  seq = o.seq;
  ack = o.ack;
  flags = o.flags;
  payload = length o.payload;
  data' = o.payload;
}

abbrev pub dup_ack_thresh : ℕ
dup_ack_thresh = 3

abbrev pub out : ℕ → ℕ → ℕ → Out
out flags seq ack = record { flags = flags; seq = seq; ack = ack; payload = [] }

-- `build_and_send(t, TCP_ACK, t->snd_nxt, t->rcv_nxt)`
abbrev pub ack_out : Tcb → Out
ack_out t = out flag_ack t.snd_nxt t.rcv_nxt

-- `t->state = TCP_CLOSED; t->active = 0;`
abbrev pub shut : Tcb → Tcb
shut t = record t { state = closed; active = false }

-- The growth of the congestion window; the divisor is at least the segment size.
unfoldable pub grow_cwnd : Tcb → Tcb
grow_cwnd t =
    if ltb t.cwnd t.ssthresh
    then record t { cwnd = (t.cwnd + tcp_mss) % 2 ^ 32 }
    else let inc = tcp_mss * tcp_mss / t.cwnd in
      record t { cwnd = (t.cwnd + (if inc == 0 then 1 else inc)) % 2 ^ 32 }

-- The probe of the round-trip time ends with an acknowledgement beyond it.
unfoldable pub take_sample : ℕ → Tcb → ℕ → Tcb
take_sample now t ack =
    if t.rtt_in_flight && after ack t.rtt_probe_seq
    then record (rtt_sample t ((now + 2 ^ 64 - t.rtt_probe_sent_ms) % 2 ^ 64 % 2 ^ 32)) {
      rtt_in_flight = false;
    }
    else t

-- The branch `if (newly_acked > 0 && newly_acked <= snd_len[id])`, up to `try_emit`.
unfoldable pub acked : ℕ → Tcb → Segment → Tcb
unfolding take_sample grow_cwnd
acked now t seg =
    let t' = slide_snd_window now (take_sample now t seg.ack) (sub32 seg.ack t.snd_una) in
    grow_cwnd (record t' { snd_una = seg.ack; dup_acks = 0; last_ack_recv = seg.ack })

unfoldable pub new_ack : ℕ → Tcb → Segment → Tcb × List Out
unfolding acked
new_ack now t seg = try_emit now (acked now t seg)

-- The window is halved when the same acknowledgement has come three times.
pub halve_cwnd : Tcb → Tcb
halve_cwnd t =
    let half = t.cwnd / 2 in
    let value = (if ltb (2 * tcp_mss) half then half else 2 * tcp_mss) in
    record t { ssthresh = value; cwnd = value }

-- `else if (newly_acked == 0 && …)`
pub same_ack : Tcb → Segment → Tcb × List Out
unfolding halve_cwnd
same_ack t seg =
    let t' =
      (if seg.ack == t.last_ack_recv
        then record t { dup_acks = (t.dup_acks + 1) % 256 }
        else record t { dup_acks = 1; last_ack_recv = seg.ack }) in
    if t'.dup_acks == dup_ack_thresh
    then (
      halve_cwnd t',
      record {
        flags = flag_ack + flag_psh;
        seq = t'.snd_una;
        ack = t'.rcv_nxt;
        payload = take tcp_mss t'.snd_buf;
      }
          ∷ [],
    )
    else (t', [])

unfoldable pub on_ack : ℕ → Tcb → Segment → Tcb × List Out
unfolding new_ack same_ack
on_ack now t seg =
    let newly_acked = sub32 seg.ack t.snd_una in
    if ltb 0 newly_acked && leb newly_acked (length t.snd_buf)
    then new_ack now t seg
    else if (newly_acked == 0)
        && (ltb 0 (length t.snd_buf)
            && ((seg.payload == 0) && not (has_flag seg.flags (flag_syn + flag_fin))))
    then same_ack t seg
    else (t, [])

-- Bytes put behind those in the receive buffer, as many as there is room for.
pub deliver : Tcb → List ℕ → Tcb
deliver t bytes =
    let n = min (length bytes) (tcp_buf_size - length t.rcv_buf) in
    record t { rcv_buf = t.rcv_buf ++ take n bytes; rcv_nxt = (t.rcv_nxt + n) % 2 ^ 32 }

-- The segment kept aside is delivered when the stream has come to it.
pub deliver_kept : Tcb → Tcb
unfolding deliver
deliver_kept t =
    if ltb 0 (length t.ooo_buf) && (t.ooo_seq == t.rcv_nxt)
    then record (deliver t t.ooo_buf) { ooo_buf = [] }
    else t

pub keep_aside : Tcb → Segment → Tcb
keep_aside t seg =
    if leb seg.payload tcp_mss && ((length t.ooo_buf == 0) || ltb seg.seq t.ooo_seq)
    then record t { ooo_buf = seg.data'; ooo_seq = seg.seq }
    else t

-- `if (payload > 0)`; `data'` has `payload` bytes
pub on_data : Tcb → Segment → Tcb × List Out
unfolding deliver_kept keep_aside
on_data t seg =
    let t' =
      (if seg.seq == t.rcv_nxt
        then deliver_kept (deliver t seg.data')
        else if after seg.seq t.rcv_nxt
        then keep_aside t seg
        else t) in
    (t', ack_out t' ∷ [])

unfoldable pub on_fin : Tcb → Segment → Tcb × List Out
on_fin t seg =
    let t' = record t { rcv_nxt = (seg.seq + seg.payload + 1) % 2 ^ 32 } in
    (record t' { state = close_wait }, ack_out t' ∷ [])

unfoldable pub in_established : ℕ → Tcb → Segment → Tcb × List Out
unfolding on_ack on_data on_fin
in_established now t seg =
    let (t1, out1) = (if has_flag seg.flags flag_ack then on_ack now t seg else (t, [])) in
    let (t2, out2) = (if ltb 0 seg.payload then on_data t1 seg else (t1, [])) in
    let (t3, out3) = (if has_flag seg.flags flag_fin then on_fin t2 seg else (t2, [])) in
    (t3, out1 ++ (out2 ++ out3))

unfoldable pub in_syn_received : Tcb → Segment → Tcb × List Out
in_syn_received t seg =
    if has_flag seg.flags flag_ack && (seg.ack == t.snd_nxt)
    then (record t { snd_una = seg.ack; state = established }, [])
    else if has_flag seg.flags flag_syn
    then (t, out (flag_syn + flag_ack) t.snd_una t.rcv_nxt ∷ [])
    else (t, [])

unfoldable pub in_syn_sent : Tcb → Segment → Tcb × List Out
in_syn_sent t seg =
    if has_flag seg.flags flag_syn && has_flag seg.flags flag_ack
    then if not (seg.ack == t.snd_nxt) then (shut t, out flag_rst seg.ack 0 ∷ []) else (
      record t { snd_una = seg.ack; rcv_nxt = (seg.seq + 1) % 2 ^ 32; state = established },
      out flag_ack t.snd_nxt ((seg.seq + 1) % 2 ^ 32) ∷ [],
    )
    else if has_flag seg.flags flag_syn
    then (shut t, out flag_rst t.snd_nxt 0 ∷ [])
    else (t, [])

-- `TCP_TIME_WAIT` after a FIN in `TCP_FIN_WAIT_1` or `TCP_FIN_WAIT_2`
pub last_fin : ℕ → Tcb → Segment → Tcb × List Out
last_fin now t seg =
    let t' = record t { rcv_nxt = (seg.seq + 1) % 2 ^ 32 } in
    (record t' { state = time_wait; syn_sent_at_ms = now }, ack_out t' ∷ [])

pub in_fin_wait_1 : ℕ → Tcb → Segment → Tcb × List Out
unfolding last_fin
in_fin_wait_1 now t seg =
    let t' = (if has_flag seg.flags flag_ack then record t { snd_una = seg.ack } else t) in
    if has_flag seg.flags flag_fin
    then last_fin now t' seg
    else if has_flag seg.flags flag_ack && (seg.ack == t'.snd_nxt)
    then (record t' { state = fin_wait_2 }, [])
    else (t', [])

pub in_fin_wait_2 : ℕ → Tcb → Segment → Tcb × List Out
unfolding last_fin
in_fin_wait_2 now t seg = if has_flag seg.flags flag_fin then last_fin now t seg else (t, [])

pub in_last_ack : Tcb → Segment → Tcb × List Out
in_last_ack t seg =
    if has_flag seg.flags flag_ack && (seg.ack == t.snd_nxt) then (shut t, []) else (t, [])

-- `switch (t->state)`
unfoldable pub in_state : TcpState → ℕ → Tcb → Segment → Tcb × List Out
unfolding in_syn_received in_syn_sent in_established in_fin_wait_1 in_fin_wait_2 in_last_ack
in_state syn_received now t seg = in_syn_received t seg
in_state syn_sent now t seg = in_syn_sent t seg
in_state established now t seg = in_established now t seg
in_state fin_wait_1 now t seg = in_fin_wait_1 now t seg
in_state fin_wait_2 now t seg = in_fin_wait_2 now t seg
in_state last_ack now t seg = in_last_ack t seg
in_state _ now t seg = (t, [])

-- `tcp_input` once the connection is found.
unfoldable pub handle : ℕ → Tcb → Segment → Tcb × List Out
unfolding in_state
handle now t seg = if has_flag seg.flags flag_rst then (shut t, []) else in_state t.state now t seg
