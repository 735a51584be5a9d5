-- ===== src/Net/Tcp/Table.antt =====
-- The calls of kernel/tcp.c on the 16 connections: `tcbs` with the buffers at the same index, and
-- `next_eph_port`. An `id` is a place of the list; one beyond it is answered as one out of range is.
-- `none` stands for the result -1. `now` is what `timer_uptime_ms` gives, `ip` what `net_ip` does.
use vyro_os.Base.Slots.{first}
use vyro_os.Base.{
  ℕ, ◌-◌, min, Bool, true, false, not, ◌&&◌, ◌||◌, Option, none, some, List, [], ◌∷◌, ◌++◌, length,
  take, drop, get_elem?, set, replicate, ◌==◌, if◌then◌else◌,
}
use vyro_os.Net.Tcp.Tcb.{
  Tcb, Out, TcpState, closed, listen, close_wait, tcp_mss, tcp_buf_size, tcp_data_rto_ms,
  tcp_init_ssthresh, is_established, try_emit,
}

abbrev pub tcb_count : ℕ
tcb_count = 16

pub record Tcp : Type 0 where
  pub tcbs : List Tcb
  pub next_eph_port : ℕ

-- A segment on its way: what `build_and_send` takes of the block, and what it is given.
pub record Packet : Type 0 where
  pub src_ip : List ℕ
  pub dst_ip : List ℕ
  pub src_port : ℕ
  pub dst_port : ℕ
  pub segment : Out

unfoldable pub packet : Tcb → Out → Packet
packet t o = record {
  src_ip = t.local_ip;
  dst_ip = t.remote_ip;
  src_port = t.local_port;
  dst_port = t.remote_port;
  segment = o;
}

unfoldable pub packets : Tcb → List Out → List Packet
unfolding packet
packets t [] = []
packets t (o ∷ os) = packet t o ∷ packets t os

abbrev pub put : Tcp → ℕ → Tcb → Tcp
put s i t = record s { tcbs = set s.tcbs i t }

-- The zeros that `tcbs` and the buffers start with.
abbrev pub zero_tcb : Tcb
zero_tcb = record {
  state = closed;
  local_ip = replicate 4 0;
  remote_ip = replicate 4 0;
  local_port = 0;
  remote_port = 0;
  snd_nxt = 0;
  snd_una = 0;
  rcv_nxt = 0;
  syn_sent_at_ms = 0;
  retries = 0;
  active = false;
  is_listener = false;
  accepted = false;
  srtt_ms = 0;
  rttvar_ms = 0;
  rto_ms = 0;
  rtt_probe_seq = 0;
  rtt_probe_sent_ms = 0;
  rtt_in_flight = false;
  last_ack_recv = 0;
  dup_acks = 0;
  cwnd = 0;
  ssthresh = 0;
  snd_buf = [];
  snd_oldest_ms = 0;
  rcv_buf = [];
  ooo_buf = [];
  ooo_seq = 0;
}

init_tcb : Tcb → Tcb
init_tcb t = record t {
  state = closed;
  active = false;
  is_listener = false;
  accepted = false;
  snd_buf = [];
  rcv_buf = [];
  ooo_buf = [];
  snd_oldest_ms = 0;
}

init_all : List Tcb → List Tcb
unfolding init_tcb
init_all [] = []
init_all (t ∷ ts) = init_tcb t ∷ init_all ts

pub tcp_init : Tcp → Tcp
unfolding init_all
tcp_init s = record s { tcbs = init_all s.tcbs }

-- `alloc_tcb`
unfoldable pub alloc_tcb : List Tcb → Option (ℕ × Tcb)
alloc_tcb ts = first is_free ts
  where
    is_free : Tcb → Bool
    is_free t = not t.active

-- The assignments that `tcp_listen`, `tcp_connect` and `tcp_input` make alike for a new block.
unfoldable pub fresh_tcb : Tcb → Tcb
fresh_tcb t = record t {
  retries = 0;
  active = true;
  accepted = false;
  snd_buf = [];
  rcv_buf = [];
  ooo_buf = [];
  snd_oldest_ms = 0;
  srtt_ms = 0;
  rttvar_ms = 0;
  rto_ms = tcp_data_rto_ms;
  rtt_in_flight = false;
  last_ack_recv = 0;
  dup_acks = 0;
  cwnd = tcp_mss;
  ssthresh = tcp_init_ssthresh;
}

-- The block that `tcp_listen` fills.
unfoldable pub listen_tcb : List ℕ → ℕ → Tcb → Tcb
unfolding fresh_tcb
listen_tcb ip port t = record (fresh_tcb t) {
  state = listen;
  is_listener = true;
  local_ip = ip;
  remote_ip = replicate 4 0;
  local_port = port;
  remote_port = 0;
  snd_nxt = 0;
  snd_una = 0;
  rcv_nxt = 0;
  syn_sent_at_ms = 0;
}

-- A listener on the port.
pub is_taken : ℕ → Tcb → Bool
is_taken port t = t.active && (t.is_listener && (t.local_port == port))

unfoldable pub tcp_listen : List ℕ → ℕ → Tcp → Tcp × Option ℕ
unfolding alloc_tcb listen_tcb is_taken
tcp_listen ip local_port s =
    if local_port == 0 then (s, none) else elim (first (is_taken local_port) s.tcbs) [
      | some _ ↦ (s, none)
      | none ↦ elim (alloc_tcb s.tcbs) [
        | none ↦ (s, none)
        | some (i, t) ↦ (put s i (listen_tcb ip local_port t), some i)
      ]
    ]

-- An established or half-closed connection that no call has returned yet.
pub is_waiting : ℕ → Tcb → Bool
unfolding is_established
is_waiting port t =
    t.active
    && (not t.is_listener
        && ((t.local_port == port)
            && ((is_established t.state || is_close_wait t.state) && not t.accepted)))
  where
    is_close_wait : TcpState → Bool
    is_close_wait close_wait = true
    is_close_wait _ = false

unfoldable pub tcp_accept : ℕ → Tcp → Tcp × Option ℕ
unfolding is_waiting
tcp_accept local_port s = elim (first (is_waiting local_port) s.tcbs) [
  | none ↦ (s, none)
  | some (i, t) ↦ (put s i (record t { accepted = true }), some i)
]

-- The block of `tcp_send` after its checks, and the segments.
unfoldable pub send_tcb : ℕ → Tcb → List ℕ → Tcb × List Out
send_tcb now t bytes = try_emit now record t {
  snd_buf = t.snd_buf ++ bytes;
  snd_oldest_ms = (if t.snd_oldest_ms == 0 then now else t.snd_oldest_ms);
}

unfoldable pub tcp_send : ℕ → ℕ → List ℕ → Tcp → Tcp × Option ℕ × List Packet
unfolding send_tcb is_established packets
tcp_send now id bytes s = elim (get_elem? s.tcbs id) [
  | none ↦ (s, none, [])
  | some t ↦
      if not t.active || not (is_established t.state)
      then (s, none, [])
      else let len = min (length bytes) (tcp_buf_size - length t.snd_buf) in
        if len == 0
        then (s, some 0, [])
        else let (t', os) = send_tcb now t (take len bytes) in (put s id t', some len, packets t os)
]

-- The bytes read stand for `out` and their number.
unfoldable pub tcp_recv : ℕ → ℕ → Tcp → Tcp × Option (List ℕ)
tcp_recv id max s = elim (get_elem? s.tcbs id) [
  | none ↦ (s, none)
  | some t ↦
      if not t.active
      then (s, none)
      else let n = min (length t.rcv_buf) max in
        if n == 0
        then (s, some [])
        else (put s id (record t { rcv_buf = drop n t.rcv_buf }), some (take n t.rcv_buf))
]
