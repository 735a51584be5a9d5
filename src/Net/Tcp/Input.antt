-- ===== src/Net/Tcp/Input.antt =====
-- The calls that open and close a connection, and the arrival of segments and ticks: `tcp_connect`,
-- `tcp_close`, `tcp_input` after the headers are read, and `tcp_tick` of kernel/tcp.c.
pub mod Steps
pub mod Reach
pub mod Handshake
pub mod Transfer
pub mod Tests
use vyro_os.Base.Slots.{first}
use vyro_os.Base.{
  ℕ, ◌+◌, ◌%◌, ◌^◌, Bool, true, false, not, ◌&&◌, Option, none, some, List, [], ◌∷◌, ◌++◌, get_or,
  get_elem?, set, replicate, ltb, ◌==◌, if◌then◌else◌,
}
use vyro_os.Net.Tcp.Tcb.{
  Tcb, Out, TcpState, closed, listen, syn_sent, syn_received, established, fin_wait_1, close_wait,
  last_ack, flag_fin, flag_syn, flag_rst, flag_ack, has_flag,
}
use vyro_os.Net.Tcp.Handle.{Segment, out, shut, handle}
use vyro_os.Net.Tcp.Tick.{tick_one}
use vyro_os.Net.Tcp.Table.{Tcp, Packet, packet, packets, put, alloc_tcb, fresh_tcb}

-- The block that `tcp_connect` fills, with the SYN counted.
pub connect_tcb : ℕ → List ℕ → List ℕ → ℕ → ℕ → Tcb → Tcb
connect_tcb now ip dst_ip local_port dst_port t = record (fresh_tcb t) {
  state = syn_sent;
  is_listener = false;
  local_ip = ip;
  remote_ip = dst_ip;
  local_port = local_port;
  remote_port = dst_port;
  snd_nxt = (now % 2 ^ 32 + 1) % 2 ^ 32;
  snd_una = now % 2 ^ 32;
  rcv_nxt = 0;
  syn_sent_at_ms = now;
}

-- `sent` says whether the driver took the frame; a frame it refuses closes the block again.
pub tcp_connect : Bool → ℕ → List ℕ → List ℕ → ℕ → Tcp → Tcp × Option ℕ × List Packet
unfolding connect_tcb
tcp_connect sent now ip dst_ip dst_port s = elim (alloc_tcb s.tcbs) [
  | none ↦ (s, none, [])
  | some (i, old) ↦
      let port = ((if ltb 60000 s.next_eph_port then 32768 else s.next_eph_port) + 1) % 2 ^ 16 in
      let t = connect_tcb now ip dst_ip port dst_port old in
      let s' = record s { next_eph_port = port } in
      let syn = packet t (out flag_syn (now % 2 ^ 32) 0) ∷ [] in
      if sent then (put s' i t, some i, syn) else (put s' i (shut t), none, syn)
]

-- The FIN of `tcp_close`, counted, and the state after it.
pub fin_tcb : TcpState → Tcb → Tcb
fin_tcb next t = record t { snd_nxt = (t.snd_nxt + 1) % 2 ^ 32; state = next }

abbrev fin_out : Tcb → Out
fin_out t = out (flag_fin + flag_ack) t.snd_nxt t.rcv_nxt

pub close_tcb : TcpState → Tcb → Tcb × List Out
unfolding fin_tcb
close_tcb established t = (fin_tcb fin_wait_1 t, fin_out t ∷ [])
close_tcb close_wait t = (fin_tcb last_ack t, fin_out t ∷ [])
close_tcb _ t = (shut t, [])

-- The Boolean is the result: `false` for -1.
pub tcp_close : ℕ → Tcp → Tcp × Bool × List Packet
unfolding close_tcb
tcp_close id s = elim (get_elem? s.tcbs id) [
  | none ↦ (s, false, [])
  | some t ↦
      if not t.active
      then (s, false, [])
      else let (t', os) = close_tcb t.state t in (put s id t', true, packets t os)
]

pub tcp_state : ℕ → Tcp → TcpState
tcp_state id s = elim (get_elem? s.tcbs id) [
  | none ↦ closed
  | some t ↦ if t.active then t.state else closed
]

-- Two addresses of four bytes.
unfoldable pub same_ip : List ℕ → List ℕ → Bool
same_ip a b =
    (get_or a 0 0 == get_or b 0 0)
    && ((get_or a 1 0 == get_or b 1 0)
        && ((get_or a 2 0 == get_or b 2 0) && (get_or a 3 0 == get_or b 3 0)))

pub is_connection : List ℕ → ℕ → ℕ → Tcb → Bool
unfolding same_ip
is_connection remote_ip remote_port local_port t =
    t.active
    && ((t.local_port == local_port)
        && ((t.remote_port == remote_port) && same_ip t.remote_ip remote_ip))

pub find_tcb : List ℕ → ℕ → ℕ → List Tcb → Option (ℕ × Tcb)
unfolding is_connection
find_tcb remote_ip remote_port local_port ts =
    first (is_connection remote_ip remote_port local_port) ts

pub is_listening : ℕ → Tcb → Bool
is_listening port t = t.active && (t.is_listener && (is_listen t.state && (t.local_port == port)))
  where
    is_listen : TcpState → Bool
    is_listen listen = true
    is_listen _ = false

pub find_listener : ℕ → List Tcb → Option (ℕ × Tcb)
unfolding is_listening
find_listener port ts = first (is_listening port) ts

-- The reset that answers a segment of no connection.
pub rst_out : Segment → Out
rst_out seg =
    if has_flag seg.flags flag_ack
    then out flag_rst seg.ack 0
    else out (flag_rst + flag_ack) 0 (
        (seg.seq
          + seg.payload
          + (if has_flag seg.flags flag_syn then 1 else 0)
          + (if has_flag seg.flags flag_fin then 1 else 0))
        % 2 ^ 32)

pub send_rst_reply : Segment → Packet
unfolding rst_out
send_rst_reply seg = record {
  src_ip = seg.dst_ip;
  dst_ip = seg.src_ip;
  src_port = seg.dst_port;
  dst_port = seg.src_port;
  segment = rst_out seg;
}

-- The block of a connection that a listener's SYN opens, with the answer counted.
pub child_tcb : ℕ → Segment → Tcb → Tcb
child_tcb now seg t = record (fresh_tcb t) {
  state = syn_received;
  is_listener = false;
  local_ip = seg.dst_ip;
  remote_ip = seg.src_ip;
  local_port = seg.dst_port;
  remote_port = seg.src_port;
  snd_nxt = (now % 2 ^ 32 + 1) % 2 ^ 32;
  snd_una = now % 2 ^ 32;
  rcv_nxt = (seg.seq + 1) % 2 ^ 32;
  syn_sent_at_ms = now;
}

-- `if (!t)`
pub no_connection : ℕ → Segment → Tcp → Tcp × List Packet
unfolding child_tcb send_rst_reply find_listener
no_connection now seg s =
    let reset = has_flag seg.flags flag_rst in
    let opens = has_flag seg.flags flag_syn && (not (has_flag seg.flags flag_ack) && not reset) in
    elim (find_listener seg.dst_port s.tcbs) [
      | none ↦ (s, (if reset then [] else send_rst_reply seg ∷ []))
      | some _ ↦
          if not opens
          then (s, (if reset then [] else send_rst_reply seg ∷ []))
          else elim (alloc_tcb s.tcbs) [
            | none ↦ (s, send_rst_reply seg ∷ [])
            | some (i, old) ↦
                let t = child_tcb now seg old in
                (put s i t, packet t (out (flag_syn + flag_ack) t.snd_una t.rcv_nxt) ∷ [])
          ]
    ]

pub tcp_input : ℕ → Segment → Tcp → Tcp × List Packet
unfolding no_connection find_tcb
tcp_input now seg s = elim (find_tcb seg.src_ip seg.src_port seg.dst_port s.tcbs) [
  | none ↦ no_connection now seg s
  | some (i, t) ↦ let (t', os) = handle now t seg in (put s i t', packets t os)
]

pub tick_all : ℕ → List Tcb → List Tcb × List Packet
tick_all now [] = ([], [])
tick_all now (t ∷ ts) =
    let (t', os) = tick_one now t in
    let (ts', ps) = tick_all now ts in (t' ∷ ts', packets t os ++ ps)

pub tcp_tick : ℕ → Tcp → Tcp × List Packet
unfolding tick_all
tcp_tick now s = let (ts, ps) = tick_all now s.tcbs in (record s { tcbs = ts }, ps)
