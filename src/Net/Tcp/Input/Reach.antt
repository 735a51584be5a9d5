-- ===== src/Net/Tcp/Input/Reach.antt =====
-- All the calls together: what every sequence of them keeps.
use vyro_os.Base.Slots.{first, first-Found}
use vyro_os.Base.Every.{Every, Every-get}
use vyro_os.Base.{
  ℕ, ◌*◌, ◌%◌, ◌^◌, ◌≡◌, inl, inr, refl, sym, ap, ◌∙◌, Bool, not, ◌&&◌, none, some, List, [], ◌∷◌,
  length, arith, Option-cases, if-holds, if◌then◌else◌, leb, ltb, ◌==◌,
}
use vyro_os.Net.Tcp.Tcb.{
  Tcb, Out, TcpState, syn_sent, time_wait, established, is_established, in_flight, has_flag,
  flag_syn, flag_ack, flag_rst, tcp_data_rto_ms,
}
use vyro_os.Net.Tcp.Handle.{Segment, shut, handle}
use vyro_os.Net.Tcp.Handle.Edges.{is_open, handle-Edge}
use vyro_os.Base.Bytes.{AllBytes}
use vyro_os.Net.Tcp.Wire.{Parsed, other, malformed, parsed, parse}
use vyro_os.Net.Tcp.Wire.Parse.{IsParsed, parse-IsParsed}
use vyro_os.Net.Tcp.Handle.Bounds.{IsSegment, AcksSent, IsValid-same}
use vyro_os.Net.Tcp.Handle.Valid.{handle-IsValid}
use vyro_os.Net.Tcp.Tick.{
  tick_one, tick_state, tick_syn_sent, tick_time_wait, tick_established, back_off, resend,
  syn_retry_max, sub64,
}
use vyro_os.Net.Tcp.Table.{
  Tcp, Packet, tcp_listen, tcp_accept, tcp_send, tcp_recv, fresh_tcb, alloc_tcb,
}
use vyro_os.Net.Tcp.Input.{
  send_rst_reply, tcp_connect, tcp_close, find_tcb, find_listener, is_connection, child_tcb,
  no_connection, tcp_input, tick_all, tcp_tick,
}
use vyro_os.Net.Tcp.Input.Steps.{
  IsBlock, Blocks, IsBlock-fresh, Blocks-put, shut-IsBlock, tcp_listen-Blocks, tcp_accept-Blocks,
  tcp_send-Blocks, tcp_recv-Blocks, tcp_connect-Blocks, tcp_close-Blocks,
}

no_connection-Blocks :
    (now : ℕ) (seg : Segment) (s : Tcp) → Blocks s → Blocks (no_connection now seg s).0
unfolding no_connection child_tcb fresh_tcb is_established is_open
no_connection-Blocks now seg s v = elim (Option-cases (find_listener seg.dst_port s.tcbs)) [
  | inl e ↦ rw (e, no_connection) v
  | inr (l, e) ↦
      rw (e, no_connection)
        (elim (Option-cases (alloc_tcb s.tcbs)) [
          | inl f ↦ rw f (ground arith)
          | inr ((i, old), f) ↦ rw f (
              let t = child_tcb now seg old in
              let b =
                IsBlock-fresh t (refl, refl, refl) refl refl (omega arith) (omega arith)
                  (omega arith) in
              if-holds (λ (r : Tcp × List Packet). Blocks r.0)
                (not (
                  has_flag seg.flags flag_syn
                  && (not (has_flag seg.flags flag_ack) && not (has_flag seg.flags flag_rst))))
                {x = (s, (if has_flag seg.flags flag_rst then [] else send_rst_reply seg ∷ []))}
                (λ _. v) (λ _. Blocks-put s i t v b))
        ])
]

-- The segment does not acknowledge bytes of its connection that were never sent.
unfoldable pub PeerAcks : Segment → Tcp → Type 0
PeerAcks seg s = elim (find_tcb seg.src_ip seg.src_port seg.dst_port s.tcbs) [
  | none ↦ Unit
  | some (i, t) ↦ AcksSent seg t
]

tcp_input-Blocks :
    (now : ℕ) (seg : Segment) (s : Tcp)
    → Blocks s
    → IsSegment seg
    → PeerAcks seg s
    → Blocks (tcp_input now seg s).0
unfolding tcp_input PeerAcks find_tcb
tcp_input-Blocks now seg s v g acks =
    let p = is_connection seg.src_ip seg.src_port seg.dst_port in
    elim (Option-cases (first p s.tcbs)) [
      | inl e ↦ rw (e, tcp_input) (no_connection-Blocks now seg s v)
      | inr ((i, t), e) ↦
          rw (e, tcp_input)
            (let b = Every-get IsBlock s.tcbs i v (first-Found p s.tcbs i t e).0 in
              Blocks-put s i (handle now t seg).0 v record {
                valid = handle-IsValid now t seg b.valid g (rw (e, PeerAcks) at acks);
                marked = (handle-Edge now t seg b.marked).1;
              })
    ]

-- `tcp_input` with the headers that `parse` read.
unfoldable pub take_in : ℕ → Parsed → Tcp → Tcp
take_in now (parsed seg) s = (tcp_input now seg s).0
take_in now _ s = s

-- The segment in a frame, if one is, does not acknowledge bytes that were never sent.
unfoldable pub FrameAcks : Parsed → Tcp → Type 0
unfolding PeerAcks
FrameAcks (parsed seg) s = PeerAcks seg s
FrameAcks _ s = Unit

take_in-Blocks :
    (now : ℕ) (p : Parsed) (s : Tcp)
    → Blocks s
    → IsParsed p
    → FrameAcks p s
    → Blocks (take_in now p s)
unfolding take_in FrameAcks
take_in-Blocks now (parsed seg) s v g acks = tcp_input-Blocks now seg s v g acks
take_in-Blocks now other s v g acks = v
take_in-Blocks now malformed s v g acks = v

-- Nothing of what the bounds are about changes.
same-IsBlock :
    (t t' : Tcb)
    → IsBlock t
    → (t'.state ≡ t.state)
      × (t'.active ≡ t.active)
      × (t'.snd_nxt ≡ t.snd_nxt)
      × (t'.snd_una ≡ t.snd_una)
      × (t'.rcv_nxt ≡ t.rcv_nxt)
      × (t'.snd_buf ≡ t.snd_buf)
      × (t'.rcv_buf ≡ t.rcv_buf)
      × (t'.ooo_buf ≡ t.ooo_buf)
    → IsBlock t'
same-IsBlock t t' b (st, act, nxt, una, rcv, sb, rb, ob) = record {
  valid = IsValid-same t t' (st, nxt, una, rcv, sb, rb, ob) b.valid;
  marked = act ∙ b.marked ∙ ap is_open (sym st);
}

tick_state-IsBlock :
    (st : TcpState) (now : ℕ) (t : Tcb) → IsBlock t → IsBlock (tick_state st now t).0
unfolding tick_state tick_syn_sent tick_time_wait tick_established back_off
tick_state-IsBlock syn_sent now t b =
    if-holds (λ (r : Tcb × List Out). IsBlock r.0)
      (leb (1000 * 2 ^ t.retries % 2 ^ 64) (sub64 now t.syn_sent_at_ms)) {y = (t, [])}
      (λ _.
        if-holds (λ (r : Tcb × List Out). IsBlock r.0) (leb syn_retry_max t.retries)
          {x = (shut t, [])} (λ _. shut-IsBlock t b.valid)
          (λ _. same-IsBlock t _ b (refl, refl, refl, refl, refl, refl, refl, refl)))
      (λ _. b)
tick_state-IsBlock time_wait now t b =
    if-holds (λ (r : Tcb × List Out). IsBlock r.0) (leb 2000 (sub64 now t.syn_sent_at_ms))
      {x = (shut t, [])} {y = (t, [])} (λ _. shut-IsBlock t b.valid) (λ _. b)
tick_state-IsBlock established now t b =
    let rto = (if t.rto_ms == 0 then tcp_data_rto_ms else t.rto_ms) in
    if-holds (λ (r : Tcb × List Out). IsBlock r.0)
      (ltb 0 (length t.snd_buf)
        && (not (t.snd_oldest_ms == 0) && leb rto (sub64 now t.snd_oldest_ms)))
      {x = (back_off now t, resend (in_flight t) t t.snd_una 0)} {y = (t, [])}
      (λ _. same-IsBlock t (back_off now t) b (refl, refl, refl, refl, refl, refl, refl, refl))
      (λ _. b)
tick_state-IsBlock _ now t b = b

tick_all-Every : (now : ℕ) (ts : List Tcb) → Every IsBlock ts → Every IsBlock (tick_all now ts).0
unfolding tick_all tick_one
tick_all-Every now [] v = tt
tick_all-Every now (t ∷ ts) (b, v) = (
  if-holds (λ (r : Tcb × List Out). IsBlock r.0) t.active {y = (t, [])}
      (λ _. tick_state-IsBlock t.state now t b) (λ _. b),
  tick_all-Every now ts v,
)

-- The calls of the module, and the arrival of frames and ticks.
pub data Call : Type 0 where
  on_listen : ℕ → Call
  on_accept : ℕ → Call
  on_connect : Bool → ℕ → List ℕ → ℕ → Call
  on_send : ℕ → ℕ → List ℕ → Call
  on_recv : ℕ → ℕ → Call
  on_close : ℕ → Call
  on_input : ℕ → List ℕ → Call
  on_tick : ℕ → Call

-- One call on a machine of address `ip`, and the table after it.
unfoldable pub run : List ℕ → Call → Tcp → Tcp
unfolding take_in
run ip (on_listen port) s = (tcp_listen ip port s).0
run ip (on_accept port) s = (tcp_accept port s).0
run ip (on_connect sent now dst_ip dst_port) s = (tcp_connect sent now ip dst_ip dst_port s).0
run ip (on_send now id bytes) s = (tcp_send now id bytes s).0
run ip (on_recv id max) s = (tcp_recv id max s).0
run ip (on_close id) s = (tcp_close id s).0
run ip (on_input now frame) s = take_in now (parse frame) s
run ip (on_tick now) s = (tcp_tick now s).0

pub run_all : List ℕ → List Call → Tcp → Tcp
unfolding run
run_all ip [] s = s
run_all ip (c ∷ cs) s = run_all ip cs (run ip c s)

-- Each frame consists of bytes, and its segment does not acknowledge bytes that were never sent.
unfoldable pub Fair : Call → Tcp → Type 0
unfolding FrameAcks
Fair (on_input now frame) s = AllBytes frame × FrameAcks (parse frame) s
Fair _ s = Unit

unfoldable pub FairRun : List ℕ → List Call → Tcp → Type 0
unfolding Fair
FairRun ip [] s = Unit
FairRun ip (c ∷ cs) s = Fair c s × FairRun ip cs (run ip c s)

run-Blocks : (ip : List ℕ) (c : Call) (s : Tcp) → Blocks s → Fair c s → Blocks (run ip c s)
unfolding run Fair
run-Blocks ip (on_listen port) s v f = tcp_listen-Blocks ip port s v
run-Blocks ip (on_accept port) s v f = tcp_accept-Blocks port s v
run-Blocks ip (on_connect sent now dst_ip dst_port) s v f =
    tcp_connect-Blocks sent now ip dst_ip dst_port s v
run-Blocks ip (on_send now id bytes) s v f = tcp_send-Blocks now id bytes s v
run-Blocks ip (on_recv id max) s v f = tcp_recv-Blocks id max s v
run-Blocks ip (on_close id) s v f = tcp_close-Blocks id s v
run-Blocks ip (on_input now frame) s v f =
    take_in-Blocks now (parse frame) s v (parse-IsParsed frame f.0) f.1
run-Blocks ip (on_tick now) s v f = unfold tcp_tick in tick_all-Every now s.tcbs v

-- Whatever calls, frames and ticks come, in any order, every block keeps its bounds, if they hold at
-- the start: buffers of at
-- most 1024, 1024 and 536 bytes, sequence numbers of 32 bits, the bytes in flight of an established
-- connection within its send buffer, and `active` set exactly while the state is not closed. The one
-- condition on what the network brings is that no segment for an established connection has ACK, not
-- RST, and a number beyond what was sent that still lies within the send buffer.
pub run_all-Blocks :
    (ip : List ℕ) (calls : List Call) (s : Tcp)
    → Blocks s
    → FairRun ip calls s
    → Blocks (run_all ip calls s)
unfolding run_all FairRun
run_all-Blocks ip [] s v fair = v
run_all-Blocks ip (c ∷ cs) s v (f, fair) =
    run_all-Blocks ip cs (run ip c s) (run-Blocks ip c s v f) fair
