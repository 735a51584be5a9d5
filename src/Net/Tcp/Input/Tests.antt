-- ===== src/Net/Tcp/Input/Tests.antt =====
-- Opening a connection between two machines, and the calls of a client, at concrete inputs.
use Prim.Native.Nat.{zero, suc}
use vyro_os.Base.Bytes.{AllBytes}
use vyro_os.Base.Every.{Every}
use vyro_os.Base.Slots.{first}
use vyro_os.Base.{
  ℕ, ◌≡◌, ◌&&◌, inl, inr, refl, Bool, true, some, List, [], ◌∷◌, ◌++◌, get_elem?, replicate, ltb,
  arith,
}
use vyro_os.Net.Tcp.Tcb.{Tcb, rtt_sample, is_established, has_flag, try_emit, slide_snd_window}
use vyro_os.Net.Tcp.Handle.{
  handle, in_state, in_syn_sent, in_established, on_ack, new_ack, acked, take_sample, grow_cwnd,
}
use vyro_os.Net.Tcp.Handle.Edges.{is_open}
use vyro_os.Net.Tcp.Wire.{parse, parse_tcp}
use vyro_os.Net.Tcp.Table.{
  Tcp, zero_tcb, put, send_tcb, tcp_send, alloc_tcb, listen_tcb, fresh_tcb, packet, packets,
}
use vyro_os.Net.Tcp.Input.{
  connect_tcb, tcp_connect, tcp_input, find_tcb, is_connection, same_ip, find_listener,
  is_listening,
}
use vyro_os.Net.Tcp.Input.Steps.{IsBlock, Blocks}
use vyro_os.Net.Tcp.Input.Reach.{
  Call, on_connect, on_send, on_input, on_tick, run, run_all, take_in, FairRun, FrameAcks, PeerAcks,
  Fair, run_all-Blocks,
}
use vyro_os.Net.Tcp.Input.Handshake.{InStep, Paired, receive, handshake-InStep}

abbrev here : List ℕ
here = 10 ∷ 0 ∷ 2 ∷ 15 ∷ []

abbrev there : List ℕ
there = 10 ∷ 0 ∷ 2 ∷ 2 ∷ []

-- Sixteen unused blocks.
abbrev boot : Tcp
boot = record { tcbs = replicate 16 zero_tcb; next_eph_port = 32768 }

zero_tcb-IsBlock : IsBlock zero_tcb
unfolding is_open
zero_tcb-IsBlock = record {
  valid = record {
    room = omega arith;
    next = omega arith;
    oldest = omega arith;
    flight = inr (omega arith);
    rcv_room = omega arith;
    ooo_room = omega arith;
    rcv_next = omega arith;
  };
  marked = refl;
}

boot-Blocks : (n : ℕ) → Every IsBlock (replicate n zero_tcb)
boot-Blocks zero = tt
boot-Blocks (suc n) = (zero_tcb-IsBlock, boot-Blocks n)

-- A machine that listens on port 80.
abbrev listening : Tcp
listening = put boot 0 (listen_tcb there 80 zero_tcb)

handshake-InStep_example :
    let (a1, id, syn) = tcp_connect true 7 here there 80 boot in
    let (b1, syn_ack) = receive 9 syn listening in
    let (a2, last) = receive 10 syn_ack a1 in
    let (b2, rest) = receive 10 last b1 in
    (x : Tcb) × (y : Tcb) × (id ≡ some 0)
    × (get_elem? a2.tcbs 0 ≡ some x)
    × (get_elem? b2.tcbs 1 ≡ some y)
    × (rest ≡ [])
    × InStep x y
    × Paired x y
    × (x.local_ip ≡ here)
    × (x.remote_ip ≡ there)
    × (x.remote_port ≡ 80)
unfolding alloc_tcb first find_tcb is_connection same_ip find_listener is_listening listen_tcb
    fresh_tcb
handshake-InStep_example =
    handshake-InStep 7 9 10 here there 80 boot listening 0 1 zero_tcb zero_tcb
      (0, listen_tcb there 80 zero_tcb) refl refl refl refl refl

-- A frame from port 80 of `there` to port 32769 of `here`, without data.
abbrev frame_of : ℕ → ℕ → ℕ → List ℕ
frame_of seq ack flags =
    replicate 12 0
    ++ (8 ∷ 0 ∷ 0x45 ∷ 0 ∷ 0 ∷ 40 ∷ 0 ∷ 1 ∷ 0 ∷ 0 ∷ 64 ∷ 6 ∷ 0 ∷ 0 ∷ 10 ∷ 0 ∷ 2 ∷ 2 ∷ 10 ∷ 0 ∷ 2
        ∷ 15 ∷ 0 ∷ 80 ∷ 128 ∷ 1 ∷ 0 ∷ 0 ∷ 0 ∷ seq ∷ 0 ∷ 0 ∷ 0 ∷ ack ∷ 0x50 ∷ flags ∷ 32 ∷ 0 ∷ 0 ∷ 0
        ∷ 0 ∷ 0 ∷ [])

-- A connection is opened and answered; three bytes are sent; an old acknowledgement, the one of the
-- three bytes, a reset with the acknowledgement 0 and a tick follow.
abbrev calls : List Call
calls =
    on_connect true 5 there 80
    ∷ on_input 6 (frame_of 9 6 18)
    ∷ on_send 7 0 (1 ∷ 2 ∷ 3 ∷ [])
    ∷ on_input 8 (frame_of 10 5 16)
    ∷ on_input 9 (frame_of 10 9 16)
    ∷ on_input 10 (frame_of 10 0 4)
    ∷ on_tick 1000
    ∷ []

all_bytes : List ℕ → Bool
all_bytes [] = true
all_bytes (b ∷ bs) = ltb b 256 && all_bytes bs

all_bytes-AllBytes : (bs : List ℕ) → all_bytes bs ≡ true → AllBytes bs
unfolding all_bytes
all_bytes-AllBytes [] h = tt
all_bytes-AllBytes (b ∷ bs) h = (ground (arith, h), all_bytes-AllBytes bs (ground (arith, h)))

calls-FairRun : FairRun here calls boot
unfolding FairRun Fair FrameAcks PeerAcks run take_in parse parse_tcp tcp_connect alloc_tcb first
    connect_tcb fresh_tcb packet packets tcp_input find_tcb is_connection same_ip handle in_state
    in_syn_sent in_established on_ack new_ack acked take_sample grow_cwnd slide_snd_window try_emit
    is_established has_flag tcp_send send_tcb all_bytes rtt_sample
calls-FairRun = (
  tt,
  (
    (all_bytes-AllBytes (frame_of 9 6 18) refl, inr (inl refl)),
    (
      tt,
      (
        (all_bytes-AllBytes (frame_of 10 5 16) refl, inr (inr (inr (inr (omega arith))))),
        (
          (all_bytes-AllBytes (frame_of 10 9 16) refl, inr (inr (inr (inl (omega arith))))),
          ((all_bytes-AllBytes (frame_of 10 0 4) refl, inl refl), (tt, tt)),
        ),
      ),
    ),
  ),
)

run_all-Blocks_example : Blocks (run_all here calls boot)
run_all-Blocks_example = run_all-Blocks here calls boot (boot-Blocks 16) calls-FairRun
