-- ===== src/Net/Tcp/Tests.antt =====
-- TCP at concrete inputs.
use vyro_os.Base.{
  ℕ, ◌-◌, ◌*◌, ◌^◌, min, ◌≡◌, ◌≢◌, ◌⊎◌, inl, inr, refl, true, false, Option, none, List, [], ◌∷◌,
  ◌++◌, take, arith,
}
use vyro_os.Net.Tcp.Tcb.{
  Tcb, Out, closed, syn_sent, established, tcp_mss, tcp_rto_max_ms, has_flag, in_flight,
  is_established, try_emit, slide_snd_window,
}
use vyro_os.Net.Tcp.Tcb.Emit.{Contiguous, sent_bytes}
use vyro_os.Net.Tcp.Tcb.Window.{InWindow}
use vyro_os.Net.Tcp.Handle.{
  Segment, arrives, ack_out, handle, on_data, in_state, in_established, on_ack, new_ack, acked,
  take_sample, grow_cwnd, on_fin,
}
use vyro_os.Net.Tcp.Handle.Data.{Delivers, Follows, on_data_lem}
use vyro_os.Net.Tcp.Handle.Bounds.{IsValid}
use vyro_os.Net.Tcp.Wire.{build, parse, parsed}
use vyro_os.Net.Tcp.Wire.Parse.{parse-build}
use vyro_os.Net.Tcp.Tick.{tick_established}
use vyro_os.Net.Tcp.Tick.Resend.{IsIdle, IsDue, tick_established_lem}
use vyro_os.Net.Tcp.Tick.GiveUp.{ticks, syn_sent-closed}
use vyro_os.Net.Tcp.Table.{zero_tcb, send_tcb}
use vyro_os.Net.Tcp.Input.Handshake.{InStep}
use vyro_os.Net.Tcp.Input.Transfer.{transfer_lem}

abbrev here : List ℕ
here = 10 ∷ 0 ∷ 2 ∷ 15 ∷ []

abbrev there : List ℕ
there = 10 ∷ 0 ∷ 2 ∷ 2 ∷ []

-- An established connection with three bytes to send.
abbrev sender : Tcb
sender = record zero_tcb {
  state = established;
  active = true;
  local_ip = here;
  remote_ip = there;
  local_port = 32769;
  remote_port = 80;
  snd_nxt = 100;
  snd_una = 100;
  rcv_nxt = 200;
  rto_ms = 1000;
  cwnd = 536;
  ssthresh = 65535;
  snd_buf = 1 ∷ 2 ∷ 3 ∷ [];
}

abbrev bytes : List ℕ
bytes = 7 ∷ 8 ∷ 9 ∷ []

abbrev idle : Tcb
idle = record sender { snd_buf = [] }

-- Its peer.
abbrev receiver : Tcb
receiver = record idle {
  local_ip = there;
  remote_ip = here;
  local_port = 80;
  remote_port = 32769;
  snd_nxt = 200;
  snd_una = 200;
  rcv_nxt = 100;
}

-- Three bytes for the receiver.
abbrev data_segment : Segment
data_segment = record {
  src_ip = here;
  dst_ip = there;
  src_port = 32769;
  dst_port = 80;
  seq = 100;
  ack = 200;
  flags = 24;
  payload = 3;
  data' = bytes;
}

abbrev syn_segment : Segment
syn_segment = record data_segment { seq = 5; ack = 0; flags = 2; payload = 0; data' = [] }

sender-InWindow : InWindow sender
sender-InWindow = record {
  flight = omega arith;
  room = omega arith;
  next = omega arith;
  oldest = omega arith;
}

on_data_lem_example :
    let (t', os) = on_data receiver data_segment in
    (os ≡ ack_out t' ∷ [])
    × (((data_segment.seq ≡ receiver.rcv_nxt)
          × ((m : ℕ) × Follows receiver 3 m t' × Delivers receiver (take 3 bytes ++ take m []) t'))
        ⊎ ((data_segment.seq ≢ receiver.rcv_nxt) × (t'.rcv_buf ≡ []) × (t'.rcv_nxt ≡ 100)))
on_data_lem_example = on_data_lem receiver data_segment

-- The sender with its three bytes in flight since time 1.
abbrev waiting : Tcb
waiting = record sender { snd_nxt = 103; snd_oldest_ms = 1 }

tick_established_lem_example :
    let (t', os) = tick_established 2000 waiting in
    (IsIdle waiting 1000 1999 × (t' ≡ waiting) × (os ≡ []))
    ⊎ (IsDue waiting 1000 1999
        × (sent_bytes os ≡ take (in_flight waiting) waiting.snd_buf)
        × Contiguous 100 os
        × (t'.snd_buf ≡ waiting.snd_buf)
        × (t'.snd_oldest_ms ≡ 2000)
        × (t'.rtt_in_flight ≡ false)
        × (t'.cwnd ≡ tcp_mss)
        × (t'.rto_ms ≡ min (2 * 1000) tcp_rto_max_ms))
tick_established_lem_example =
    tick_established_lem 2000 1000 1999 waiting (omega arith) (omega arith) (omega arith)
      (omega arith) (inl (omega arith, refl)) (omega arith, inl refl)

abbrev calling : Tcb
calling = record zero_tcb { state = syn_sent; active = true }

abbrev times : List ℕ
times = 8000 ∷ 16000 ∷ 24000 ∷ 40000 ∷ []

syn_sent-closed_example :
    ((ticks times calling).state ≡ closed) × ((ticks times calling).active ≡ false)
syn_sent-closed_example =
    syn_sent-closed times calling refl refl (omega arith)
      (
        omega arith,
        omega arith,
        (omega arith, omega arith, (omega arith, omega arith, (omega arith, omega arith, tt))),
      )
      (omega arith)

idle-receiver : InStep idle receiver
idle-receiver = record { here = refl; there = refl; forth = (refl, refl); back = (refl, refl) }

idle-IsValid : IsValid idle
idle-IsValid = record {
  room = omega arith;
  next = omega arith;
  oldest = omega arith;
  flight = inr (omega arith);
  rcv_room = omega arith;
  ooo_room = omega arith;
  rcv_next = omega arith;
}

receiver-IsValid : IsValid receiver
receiver-IsValid = record {
  room = omega arith;
  next = omega arith;
  oldest = omega arith;
  flight = inr (omega arith);
  rcv_room = omega arith;
  ooo_room = omega arith;
  rcv_next = omega arith;
}

transfer_lem_example :
    let (a1, sent) = send_tcb 1 idle bytes in
    (o : Out) × (sent ≡ o ∷ [])
    × (let (b1, answer) = handle 2 receiver (arrives a1 o) in
        let a2 = (handle 3 a1 (arrives b1 (ack_out b1))).0 in
        (answer ≡ ack_out b1 ∷ []) × (b1.rcv_buf ≡ [] ++ bytes) × (a2.snd_buf ≡ []) × InStep a2 b1)
transfer_lem_example =
    transfer_lem 1 2 3 idle receiver bytes idle-receiver idle-IsValid receiver-IsValid (refl, refl)
      (omega arith) (omega arith) (omega arith)

abbrev no_arp : List ℕ → Option (List ℕ)
no_arp ip = none

abbrev mac : List ℕ
mac = 82 ∷ 84 ∷ 0 ∷ 18 ∷ 52 ∷ 86 ∷ []

abbrev pushed : Out
pushed = record { flags = 24; seq = 100; ack = 200; payload = bytes }

parse-build_example :
    parse (build no_arp mac sender pushed 1024 bytes) ≡ parsed (arrives sender pushed)
parse-build_example =
    parse-build no_arp mac sender pushed 1024 (refl, refl) (omega arith, omega arith)
      (omega arith, omega arith) (omega arith)

-- An acknowledgement of bytes that were queued and not sent is taken: the bytes in flight wrap around.
ack_of_unsent :
    in_flight
      (handle 0 sender
        record data_segment { seq = 200; ack = 103; flags = 16; payload = 0; data' = [] }).0
    ≡ 2 ^ 32 - 3
unfolding handle in_state in_established on_ack new_ack acked take_sample grow_cwnd slide_snd_window
    try_emit is_established has_flag
ack_of_unsent = refl

-- A FIN behind bytes that did not arrive moves on over them.
fin_skips_data :
    (handle 0 receiver
      record data_segment { seq = 150; flags = 17; payload = 0; data' = [] }).0.rcv_nxt
    ≡ 151
unfolding handle in_state in_established on_ack on_fin has_flag
fin_skips_data = refl
