-- ===== src/Net/Tcp/Handle/Valid.antt =====
-- The bounds, state by state, and for every segment.
use vyro_os.Base.{false, if-holds, ℕ, ◌≡◌, inl, refl, List, [], arith}
use vyro_os.Net.Tcp.Tcb.{
  Tcb, Out, TcpState, closed, listen, syn_sent, syn_received, fin_wait_1, fin_wait_2, close_wait,
  last_ack, time_wait, established, flag_rst, has_flag, is_established,
}
use vyro_os.Net.Tcp.Handle.{
  Segment, shut, in_syn_received, in_syn_sent, last_fin, in_fin_wait_1, in_fin_wait_2, in_last_ack,
  in_state, handle,
}
use vyro_os.Net.Tcp.Handle.Bounds.{
  IsValid, IsSegment, AcksSent, IsValid-idle, in_established-IsValid,
}

in_syn_received-IsValid :
    (t : Tcb) (seg : Segment) → IsValid t → IsSegment seg → IsValid (in_syn_received t seg).0
unfolding in_syn_received is_established
in_syn_received-IsValid t seg v g =
    let f = v.flight in
    let a = g.ack_bound in
    let o = v.oldest in
    let r = v.rcv_next in
    IsValid-idle t (in_syn_received t seg).0 v (ground arith) (ground arith) (ground arith)
      (ground arith)

in_syn_sent-IsValid :
    (t : Tcb) (seg : Segment)
    → IsValid t
    → IsSegment seg
    → t.state ≡ syn_sent
    → IsValid (in_syn_sent t seg).0
unfolding in_syn_sent is_established
in_syn_sent-IsValid t seg v g e =
    let f = v.flight in
    let a = g.ack_bound in
    let o = v.oldest in
    let r = v.rcv_next in
    IsValid-idle t (in_syn_sent t seg).0 v (ground arith) (ground arith) (ground arith)
      (ground arith)

in_fin_wait_1-IsValid :
    (now : ℕ) (t : Tcb) (seg : Segment)
    → IsValid t
    → IsSegment seg
    → t.state ≡ fin_wait_1
    → IsValid (in_fin_wait_1 now t seg).0
unfolding in_fin_wait_1 is_established last_fin
in_fin_wait_1-IsValid now t seg v g e =
    let f = v.flight in
    let a = g.ack_bound in
    let o = v.oldest in
    let r = v.rcv_next in
    IsValid-idle t (in_fin_wait_1 now t seg).0 v (ground arith) (ground arith) (ground arith)
      (ground arith)

in_fin_wait_2-IsValid :
    (now : ℕ) (t : Tcb) (seg : Segment)
    → IsValid t
    → IsSegment seg
    → IsValid (in_fin_wait_2 now t seg).0
unfolding in_fin_wait_2 is_established last_fin
in_fin_wait_2-IsValid now t seg v g =
    let f = v.flight in
    let a = g.ack_bound in
    let o = v.oldest in
    let r = v.rcv_next in
    IsValid-idle t (in_fin_wait_2 now t seg).0 v (ground arith) (ground arith) (ground arith)
      (ground arith)

in_last_ack-IsValid :
    (t : Tcb) (seg : Segment) → IsValid t → IsSegment seg → IsValid (in_last_ack t seg).0
unfolding in_last_ack is_established
in_last_ack-IsValid t seg v g =
    let f = v.flight in
    let a = g.ack_bound in
    let o = v.oldest in
    let r = v.rcv_next in
    IsValid-idle t (in_last_ack t seg).0 v (ground arith) (ground arith) (ground arith)
      (ground arith)

in_state-IsValid :
    (s : TcpState) (now : ℕ) (t : Tcb) (seg : Segment)
    → IsValid t
    → IsSegment seg
    → t.state ≡ s
    → has_flag seg.flags flag_rst ≡ false
    → AcksSent seg t
    → IsValid (in_state s now t seg).0
unfolding in_state
in_state-IsValid established now t seg v g e r sent = in_established-IsValid now t seg v g e r sent
in_state-IsValid closed now t seg v g e r sent = v
in_state-IsValid listen now t seg v g e r sent = v
in_state-IsValid close_wait now t seg v g e r sent = v
in_state-IsValid time_wait now t seg v g e r sent = v
in_state-IsValid syn_received now t seg v g e r sent = in_syn_received-IsValid t seg v g
in_state-IsValid syn_sent now t seg v g e r sent = in_syn_sent-IsValid t seg v g e
in_state-IsValid fin_wait_1 now t seg v g e r sent = in_fin_wait_1-IsValid now t seg v g e
in_state-IsValid fin_wait_2 now t seg v g e r sent = in_fin_wait_2-IsValid now t seg v g
in_state-IsValid last_ack now t seg v g e r sent = in_last_ack-IsValid t seg v g

-- A segment keeps every bound of a connection's block, if it does not acknowledge bytes of the buffer that were never sent:
-- the buffers within 1024, 1024 and 536 bytes, the sequence numbers within 32 bits, and of an
-- established connection the bytes in flight within the send buffer.
pub handle-IsValid :
    (now : ℕ) (t : Tcb) (seg : Segment)
    → IsValid t
    → IsSegment seg
    → AcksSent seg t
    → IsValid (handle now t seg).0
unfolding handle is_established
handle-IsValid now t seg v g sent =
    if-holds (λ (r : Tcb × List Out). IsValid r.0) (has_flag seg.flags flag_rst) {x = (shut t, [])}
      (λ _. IsValid-idle t (shut t) v (inl refl) (refl, refl, refl, refl) v.oldest v.rcv_next)
      (λ r. in_state-IsValid t.state now t seg v g refl r sent)
