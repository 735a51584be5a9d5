-- ===== src/Net/Tcp/Input/Handshake.antt =====
-- Two machines: the three segments that open a connection.
use vyro_os.Base.Slots.{first-set_new, first-Found}
use vyro_os.Base.{
  zero, suc, arith, ◌∙◌, ap, set, get_elem?, length, ◌++◌, some, none, true, ltb, if◌then◌else◌, ℕ,
  ◌+◌, ◌%◌, ◌^◌, ◌≡◌, refl, List, [], ◌∷◌, ==_refl,
}
use vyro_os.Net.Tcp.Tcb.{Tcb, established, has_flag, flag_syn, flag_ack}
use vyro_os.Net.Tcp.Handle.{Segment, out, handle, in_state, in_syn_sent, in_syn_received}
use vyro_os.Net.Tcp.Table.{Tcp, Packet, packet, packets, put, alloc_tcb, fresh_tcb}
use vyro_os.Net.Tcp.Input.{
  connect_tcb, tcp_connect, child_tcb, find_tcb, is_connection, same_ip, find_listener,
  no_connection, tcp_input,
}

-- Both ends are established, and each expects the byte that the other sends next, with nothing in
-- flight.
pub record InStep (a b : Tcb) : Type 0 where
  pub here : a.state ≡ established
  pub there : b.state ≡ established
  pub forth : (b.rcv_nxt ≡ a.snd_nxt) × (a.snd_una ≡ a.snd_nxt)
  pub back : (a.rcv_nxt ≡ b.snd_nxt) × (b.snd_una ≡ b.snd_nxt)

-- Each has the other's address and port.
pub Paired : Tcb → Tcb → Type 0
Paired a b =
    (a.local_ip ≡ b.remote_ip)
    × (a.remote_ip ≡ b.local_ip)
    × (a.local_port ≡ b.remote_port)
    × (a.remote_port ≡ b.local_port)

-- The segment that a packet brings to the other machine.
abbrev pub segment_of : Packet → Segment
segment_of p = record {
  src_ip = p.src_ip;
  dst_ip = p.dst_ip;
  src_port = p.src_port;
  dst_port = p.dst_port;
  seq = p.segment.seq;
  ack = p.segment.ack;
  flags = p.segment.flags;
  payload = length p.segment.payload;
  data' = p.segment.payload;
}

-- Packets that arrive one after another, and what they are answered by.
pub receive : ℕ → List Packet → Tcp → Tcp × List Packet
receive now [] s = (s, [])
receive now (p ∷ ps) s =
    let (s1, os) = tcp_input now (segment_of p) s in
    let (s2, os') = receive now ps s1 in (s2, os ++ os')

receive_one :
    (now : ℕ) (p : Packet) (s s' : Tcp) (os : List Packet)
    → tcp_input now (segment_of p) s ≡ (s', os)
    → receive now (p ∷ []) s ≡ (s', os ++ [])
unfolding receive
receive_one now p s s' os e = rw e refl

-- The port that `tcp_connect` takes.
abbrev pub next_port : Tcp → ℕ
next_port s = ((if ltb 60000 s.next_eph_port then 32768 else s.next_eph_port) + 1) % 2 ^ 16

tcp_connect_opened :
    (now : ℕ) (ip dst_ip : List ℕ) (dst_port : ℕ) (s : Tcp) (i : ℕ) (old : Tcb)
    → alloc_tcb s.tcbs ≡ some (i, old)
    → let t = connect_tcb now ip dst_ip (next_port s) dst_port old in
      tcp_connect true now ip dst_ip dst_port s ≡ (
        put (record s { next_eph_port = next_port s }) i t,
        some i,
        packet t (out flag_syn (now % 2 ^ 32) 0) ∷ [],
      )
unfolding tcp_connect
tcp_connect_opened now ip dst_ip dst_port s i old e = rw (e, tcp_connect) refl

-- A SYN for a listener.
tcp_input_opened :
    (now : ℕ) (seg : Segment) (s : Tcp) (j : ℕ) (free : Tcb) (listener : ℕ × Tcb)
    → seg.flags ≡ 2
    → find_tcb seg.src_ip seg.src_port seg.dst_port s.tcbs ≡ none
    → find_listener seg.dst_port s.tcbs ≡ some listener
    → alloc_tcb s.tcbs ≡ some (j, free)
    → let t = child_tcb now seg free in
      tcp_input now seg s
      ≡ (put s j t, packet t (out (flag_syn + flag_ack) t.snd_una t.rcv_nxt) ∷ [])
unfolding tcp_input no_connection has_flag
tcp_input_opened now seg s j free listener f nowhere l e =
    rw (nowhere, tcp_input, l, no_connection, e, f) refl

-- A segment of a connection.
tcp_input_found :
    (now : ℕ) (seg : Segment) (s : Tcp) (i : ℕ) (t : Tcb)
    → find_tcb seg.src_ip seg.src_port seg.dst_port s.tcbs ≡ some (i, t)
    → let (t', os) = handle now t seg in tcp_input now seg s ≡ (put s i t', packets t os)
unfolding tcp_input
tcp_input_found now seg s i t e = rw (e, tcp_input) refl

-- A new block is found under its address and ports, if none was before.
find_tcb_put :
    (s : Tcp) (i : ℕ) (old t : Tcb)
    → alloc_tcb s.tcbs ≡ some (i, old)
    → t.active ≡ true
    → find_tcb t.remote_ip t.remote_port t.local_port s.tcbs ≡ none
    → find_tcb t.remote_ip t.remote_port t.local_port (set s.tcbs i t) ≡ some (i, t)
unfolding find_tcb is_connection alloc_tcb same_ip
find_tcb_put s i old t e on nowhere =
    first-set_new _ s.tcbs i old t nowhere (first-Found _ s.tcbs i old e).0 (ground arith)

-- The block that `tcp_connect` filled, after the listener's answer, and the answer to it.
client_opened :
    (now server : ℕ) (ip dst_ip : List ℕ) (port dst_port : ℕ) (old child : Tcb) (now'' : ℕ)
    → let t = connect_tcb now ip dst_ip port dst_port old in
      let next = (now % 2 ^ 32 + 1) % 2 ^ 32 in
      let rcv = (server + 1) % 2 ^ 32 in
      handle now'' t (segment_of (packet child (out (flag_syn + flag_ack) server next))) ≡ (
        record t { snd_una = next; rcv_nxt = rcv; state = established },
        out flag_ack next rcv ∷ [],
      )
unfolding connect_tcb fresh_tcb handle in_state in_syn_sent packet has_flag
client_opened now server ip dst_ip port dst_port old child now'' =
    rw (==_refl ((now % 2 ^ 32 + 1) % 2 ^ 32)) refl

-- The listener's block, after the acknowledgement of its answer.
server_opened :
    (now rcv : ℕ) (seg : Segment) (free client : Tcb) (now'' : ℕ)
    → let u = child_tcb now seg free in
      let next = (now % 2 ^ 32 + 1) % 2 ^ 32 in
      handle now'' u (segment_of (packet client (out flag_ack rcv next)))
      ≡ (record u { snd_una = next; state = established }, [])
unfolding child_tcb fresh_tcb handle in_state in_syn_received packet has_flag
server_opened now rcv seg free client now'' = rw (==_refl ((now % 2 ^ 32 + 1) % 2 ^ 32)) refl

set_twice :
    (ts : List Tcb) (i : ℕ) (old t x : Tcb)
    → get_elem? ts i ≡ some old
    → get_elem? (set (set ts i t) i x) i ≡ some x
set_twice [] i old t x e = absurd (ground arith)
set_twice (y ∷ ts) zero old t x e = refl
set_twice (y ∷ ts) (suc i) old t x e = set_twice ts i old t x e

-- `tcp_connect` takes a free block and the next port, which no connection to the same peer has yet;
-- the peer has a listener on the port asked for, a free block, and no connection of that address and
-- those ports. The packet that `tcp_connect` sends, what `tcp_input` answers to it on the listener's
-- machine, and what `tcp_input` answers to that bring both machines to an established connection, in
-- step with each other: each has the other's address and port and expects the byte that the other
-- sends next. No packet is left.
pub handshake-InStep :
    (now now' now'' : ℕ) (ip dst_ip : List ℕ) (dst_port : ℕ) (a b : Tcp) (i j : ℕ) (old free : Tcb)
    (listener : ℕ × Tcb)
    → alloc_tcb a.tcbs ≡ some (i, old)
    → find_tcb dst_ip dst_port (next_port a) a.tcbs ≡ none
    → find_listener dst_port b.tcbs ≡ some listener
    → find_tcb ip (next_port a) dst_port b.tcbs ≡ none
    → alloc_tcb b.tcbs ≡ some (j, free)
    → let (a1, id, syn) = tcp_connect true now ip dst_ip dst_port a in
      let (b1, syn_ack) = receive now' syn b in
      let (a2, last) = receive now'' syn_ack a1 in
      let (b2, rest) = receive now'' last b1 in
      (x : Tcb) × (y : Tcb) × (id ≡ some i)
      × (get_elem? a2.tcbs i ≡ some x)
      × (get_elem? b2.tcbs j ≡ some y)
      × (rest ≡ [])
      × InStep x y
      × Paired x y
      × (x.local_ip ≡ ip)
      × (x.remote_ip ≡ dst_ip)
      × (x.remote_port ≡ dst_port)
unfolding connect_tcb child_tcb fresh_tcb packet packets alloc_tcb Paired
handshake-InStep now now' now'' ip dst_ip dst_port a b i j old free listener ea na l nb eb =
    let t = connect_tcb now ip dst_ip (next_port a) dst_port old in
    let p = packet t (out flag_syn (now % 2 ^ 32) 0) in
    let u = child_tcb now' (segment_of p) free in
    let q = packet u (out (flag_syn + flag_ack) u.snd_una u.rcv_nxt) in
    let x = record t {
      snd_una = t.snd_nxt;
      rcv_nxt = (u.snd_una + 1) % 2 ^ 32;
      state = established;
    } in
    let y = record u { snd_una = u.snd_nxt; state = established } in
    let r = packet t (out flag_ack x.snd_nxt x.rcv_nxt) in
    let a1 = put (record a { next_eph_port = next_port a }) i t in
    let b1 = put b j u in
    let second : receive now' (p ∷ []) b ≡ (b1, q ∷ []) =
      receive_one now' p b b1 (q ∷ [])
        (tcp_input_opened now' (segment_of p) b j free listener refl nb l eb) in
    let third : receive now'' (q ∷ []) a1 ≡ (put a1 i x, r ∷ []) =
      receive_one now'' q a1 (put a1 i x) (r ∷ []) (
        tcp_input_found now'' (segment_of q) a1 i t (find_tcb_put a i old t ea refl na)
        ∙ ap (λ h. (put a1 i h.0, packets t h.1))
            (client_opened now u.snd_una ip dst_ip (next_port a) dst_port old u now'')) in
    let fourth : receive now'' (r ∷ []) b1 ≡ (put b1 j y, []) =
      receive_one now'' r b1 (put b1 j y) [] (
        tcp_input_found now'' (segment_of r) b1 j u (find_tcb_put b j free u eb refl nb)
        ∙ ap (λ h. (put b1 j h.0, packets u h.1))
            (server_opened now' x.snd_nxt (segment_of p) free t now'')) in
    rw (tcp_connect_opened now ip dst_ip dst_port a i old ea, second, third, fourth)
      (
        x,
        y,
        refl,
        set_twice a.tcbs i old t x (first-Found _ a.tcbs i old ea).0,
        set_twice b.tcbs j free u y (first-Found _ b.tcbs j free eb).0,
        refl,
        record { here = refl; there = refl; forth = (refl, refl); back = (refl, refl) },
        (refl, refl, refl, refl),
        refl,
        refl,
        refl,
      )
