-- ===== src/Net/Tcp/Input/Transfer.antt =====
-- Two machines in step: bytes that one sends and the other receives.
use mathlib.Core.List.{append-nil}
use vyro_os.Base.{
  zero, suc, min, ◌-◌, take_all, ℕ, ◌+◌, ◌%◌, ◌^◌, min, ◌≤◌, ◌<◌, ◌≡◌, inl, inr, refl, sym, ap, ap₂,
  ◌∙◌, true, false, ◌&&◌, List, [], ◌∷◌, ◌++◌, length, take, drop, length-drop, arith, lt→ltb,
  le→ltb, ltb, leb, ◌==◌, if◌then◌else◌,
}
use vyro_os.Net.Tcp.Tcb.{
  Tcb, Out, established, tcp_mss, tcp_buf_size, is_established, sub32, has_flag, flag_rst, flag_ack,
  flag_fin, emit_one,
}
use vyro_os.Net.Tcp.Tcb.Emit.{emit_one_lem, emit_one_head}
use vyro_os.Net.Tcp.Tcb.Window.{try_emit_one, quiet}
use vyro_os.Net.Tcp.Handle.{
  Segment, shut, arrives, ack_out, acked, new_ack, on_ack, on_data, in_established, in_state,
  handle,
}
use vyro_os.Net.Tcp.Handle.Bounds.{IsValid, acked_lem}
use vyro_os.Net.Tcp.Handle.Data.{on_data_lem, on_data_send}
use vyro_os.Net.Tcp.Table.{send_tcb}
use vyro_os.Net.Tcp.Input.Handshake.{InStep}

handle_established :
    (now : ℕ) (t : Tcb) (seg : Segment)
    → has_flag seg.flags flag_rst ≡ false
    → t.state ≡ established
    → handle now t seg ≡ in_established now t seg
unfolding handle in_state
handle_established now t seg r e =
    ap (λ b. if b then (shut t, []) else in_state t.state now t seg) r
    ∙ ap (λ st. in_state st now t seg) e

on_ack_quiet :
    (now : ℕ) (t : Tcb) (seg : Segment)
    → sub32 seg.ack t.snd_una ≡ 0
    → 0 < seg.payload
    → on_ack now t seg ≡ (t, [])
unfolding on_ack
on_ack_quiet now t seg z some' = ground arith

-- A pushed segment that acknowledges nothing new is its data only.
handle_push :
    (now : ℕ) (t : Tcb) (seg : Segment)
    → t.state ≡ established
    → seg.flags ≡ 24
    → sub32 seg.ack t.snd_una ≡ 0
    → 0 < seg.payload
    → handle now t seg ≡ on_data t seg
unfolding in_established has_flag
handle_push now t seg e f z some' =
    let r : has_flag seg.flags flag_rst ≡ false = ap (λ x. has_flag x flag_rst) f in
    let a : has_flag seg.flags flag_ack ≡ true = ap (λ x. has_flag x flag_ack) f in
    let n : has_flag seg.flags flag_fin ≡ false = ap (λ x. has_flag x flag_fin) f in
    handle_established now t seg r e
    ∙ rw (a, n, on_ack_quiet now t seg z some', lt→ltb 0 seg.payload some')
        (ap (λ os. ((on_data t seg).0, os)) (append-nil (on_data t seg).1))

on_ack_all :
    (now : ℕ) (t : Tcb) (seg : Segment)
    → 0 < length t.snd_buf
    → sub32 seg.ack t.snd_una ≡ length t.snd_buf
    → on_ack now t seg ≡ (acked now t seg, [])
unfolding on_ack new_ack
on_ack_all now t seg some' all =
    let (st, nxt, una, rcv, sb, rb, ob) = acked_lem now t seg (omega arith) in
    let empty : length (acked now t seg).snd_buf ≡ 0 =
      ap length sb ∙ length-drop _ t.snd_buf ∙ omega arith in
    let h : (ltb 0 (sub32 seg.ack t.snd_una) && leb (sub32 seg.ack t.snd_una) (length t.snd_buf))
        ≡ true =
      ground (arith, all) in
    rw h (quiet now (acked now t seg) (inr (inl (omega (arith, empty)))))

-- An acknowledgement of all that is in the buffer empties it.
handle_all_acked :
    (now : ℕ) (t : Tcb) (seg : Segment)
    → t.state ≡ established
    → seg.flags ≡ 16
    → seg.payload ≡ 0
    → 0 < length t.snd_buf
    → sub32 seg.ack t.snd_una ≡ length t.snd_buf
    → handle now t seg ≡ (acked now t seg, [])
unfolding in_established has_flag
handle_all_acked now t seg e f p some' all =
    let r : has_flag seg.flags flag_rst ≡ false = ap (λ x. has_flag x flag_rst) f in
    let a : has_flag seg.flags flag_ack ≡ true = ap (λ x. has_flag x flag_ack) f in
    let n : has_flag seg.flags flag_fin ≡ false = ap (λ x. has_flag x flag_fin) f in
    handle_established now t seg r e
    ∙ rw (a, n, on_ack_all now t seg some' all, le→ltb 0 seg.payload (omega (arith, p))) refl

take_append : (n m : ℕ) (xs : List ℕ) → n ≡ length xs → take n xs ++ take m [] ≡ xs
take_append n zero xs e = append-nil (take n xs) ∙ ap (λ k. take k xs) e ∙ take_all xs
take_append n (suc m) xs e = append-nil (take n xs) ∙ ap (λ k. take k xs) e ∙ take_all xs

received :
    (now : ℕ) (b : Tcb) (seg : Segment) (d : List ℕ)
    → (b.state ≡ established)
      × (seg.flags ≡ 24)
      × (sub32 seg.ack b.snd_una ≡ 0)
      × (seg.seq ≡ b.rcv_nxt)
    → (seg.data' ≡ d) × (seg.payload ≡ length d)
    → 0 < length d
    → b.ooo_buf ≡ []
    → length b.rcv_buf + length d ≤ tcp_buf_size
    → let (b1, answer) = handle now b seg in
      (answer ≡ ack_out b1 ∷ [])
      × (b1.rcv_buf ≡ b.rcv_buf ++ d)
      × (b1.rcv_nxt ≡ (b.rcv_nxt + length d) % 2 ^ 32)
      × (b1.state ≡ b.state)
      × (b1.snd_nxt ≡ b.snd_nxt)
      × (b1.snd_una ≡ b.snd_una)
received now b seg d (e, f, z, q) (data_eq, size) some' kept room =
    rw (handle_push now b seg e f z (omega (arith, size))) (
      let (st, nxt, una) = on_data_send b seg in
      let (answer, result) = on_data_lem b seg in
      elim result [
        | inr (other, _, _) ↦ absurd (other q)
        | inl (_, (m, _, (buf, next))) ↦
            let n = min (length seg.data') (tcp_buf_size - length b.rcv_buf) in
            let all : n ≡ length d = omega (arith, ap length data_eq) in
            let same : take n seg.data' ++ take m b.ooo_buf ≡ d =
              ap₂ (λ x y. take n x ++ take m y) data_eq kept ∙ take_append n m d all in
            (
              answer,
              buf ∙ ap (λ r. b.rcv_buf ++ r) same,
              next ∙ ap (λ r. (b.rcv_nxt + length r) % 2 ^ 32) same,
              st,
              nxt,
              una,
            )
      ])

emptied :
    (now : ℕ) (a : Tcb) (seg : Segment)
    → (a.state ≡ established) × (seg.flags ≡ 16) × (seg.payload ≡ 0)
    → 0 < length a.snd_buf
    → sub32 seg.ack a.snd_una ≡ length a.snd_buf
    → let a2 = (handle now a seg).0 in
      (a2.snd_buf ≡ [])
      × (a2.state ≡ a.state)
      × (a2.snd_nxt ≡ a.snd_nxt)
      × (a2.snd_una ≡ seg.ack)
      × (a2.rcv_nxt ≡ a.rcv_nxt)
emptied now a seg (e, f, p) some' all = rw (handle_all_acked now a seg e f p some' all) (
    let (st, nxt, una, rcv, sb, rb, ob) = acked_lem now a seg (omega arith) in
    (sb ∙ ap (λ n. drop n a.snd_buf) all ∙ drop_all a.snd_buf, st, nxt, una, rcv))
  where
    drop_all : (xs : List ℕ) → drop (length xs) xs ≡ []
    drop_all [] = refl
    drop_all (x ∷ xs) = drop_all xs

-- The segment `o` of the bytes `d` is received and acknowledged.
exchanged :
    (now' now'' : ℕ) (a a1 b : Tcb) (o : Out) (d : List ℕ)
    → InStep a b
    → IsValid a
    → IsValid b
    → (a1.state ≡ a.state)
      × (a1.snd_nxt ≡ (a.snd_nxt + length d) % 2 ^ 32)
      × (a1.snd_una ≡ a.snd_una)
      × (a1.rcv_nxt ≡ a.rcv_nxt)
      × (a1.snd_buf ≡ d)
    → (o.flags ≡ 24) × (o.seq ≡ a.snd_nxt) × (o.ack ≡ a.rcv_nxt) × (o.payload ≡ d)
    → 0 < length d
    → length d ≤ tcp_mss
    → b.ooo_buf ≡ []
    → length b.rcv_buf + length d ≤ tcp_buf_size
    → let (b1, answer) = handle now' b (arrives a1 o) in
      let a2 = (handle now'' a1 (arrives b1 (ack_out b1))).0 in
      (answer ≡ ack_out b1 ∷ []) × (b1.rcv_buf ≡ b.rcv_buf ++ d) × (a2.snd_buf ≡ []) × InStep a2 b1
unfolding arrives
exchanged now' now'' a a1 b o d s va vb (st, nxt, una, rcv, buf) (f, q, k, bytes) some' small kept
      room =
    let (answer, got, next, st_b, nxt_b, una_b) =
      received now' b (arrives a1 o) d
        (s.there, f, omega (arith, k, s.back.0, s.back.1, vb.next, vb.oldest), q ∙ sym s.forth.0)
        (bytes, ap length bytes) some' kept room in
    let b1 = (handle now' b (arrives a1 o)).0 in
    let acks : sub32 b1.rcv_nxt a1.snd_una ≡ length a1.snd_buf =
      omega (arith, next, s.forth.0, s.forth.1, una, ap length buf, va.next) in
    let (sb, st2, nxt2, una2, rcv2) =
      emptied now'' a1 (arrives b1 (ack_out b1)) (st ∙ s.here, refl, refl)
        (omega (arith, ap length buf)) acks in
    (
      answer,
      got,
      sb,
      record {
        here = st2 ∙ st ∙ s.here;
        there = st_b ∙ s.there;
        forth = (
          next ∙ ap (λ x. (x + length d) % 2 ^ 32) s.forth.0 ∙ sym nxt ∙ sym nxt2,
          una2 ∙ next ∙ ap (λ x. (x + length d) % 2 ^ 32) s.forth.0 ∙ sym nxt ∙ sym nxt2,
        );
        back = (rcv2 ∙ rcv ∙ s.back.0 ∙ sym nxt_b, una_b ∙ s.back.1 ∙ sym nxt_b);
      },
    )

-- Of two machines in step, one sends up to 536 bytes, which fit the window and the other's buffer.
-- They go out as one segment; the other machine adds exactly them to its receive buffer and answers
-- with one segment; and with that the sender's buffer is empty again and the two are in step.
pub transfer_lem :
    (now now' now'' : ℕ) (a b : Tcb) (d : List ℕ)
    → InStep a b
    → IsValid a
    → IsValid b
    → (a.snd_buf ≡ []) × (b.ooo_buf ≡ [])
    → 0 < length d
    → length d ≤ min tcp_mss a.cwnd
    → length b.rcv_buf + length d ≤ tcp_buf_size
    → let (a1, sent) = send_tcb now a d in
      (o : Out) × (sent ≡ o ∷ [])
      × (let (b1, answer) = handle now' b (arrives a1 o) in
          let a2 = (handle now'' a1 (arrives b1 (ack_out b1))).0 in
          (answer ≡ ack_out b1 ∷ [])
          × (b1.rcv_buf ≡ b.rcv_buf ++ d)
          × (a2.snd_buf ≡ [])
          × InStep a2 b1)
unfolding send_tcb
transfer_lem now now' now'' a b d s va vb (idle, kept) some' small room =
    let u = record a {
      snd_buf = a.snd_buf ++ d;
      snd_oldest_ms = (if a.snd_oldest_ms == 0 then now else a.snd_oldest_ms);
    } in
    let buf : u.snd_buf ≡ d = ap (λ x. x ++ d) idle in
    let n = length u.snd_buf in
    let one =
      try_emit_one now u (unfold is_established in ap is_established s.here)
        (omega (arith, s.forth.1, va.next)) (omega (arith, ap length buf))
        (omega (arith, ap length buf)) (omega (arith, ap length buf)) in
    let (same, nxt, seq, bytes) = emit_one_lem now u 0 n in
    let (f, k) = emit_one_head now u 0 n in
    let (a1, o) = emit_one now u 0 n in
    rw one (
      o,
      refl,
      exchanged now' now'' a a1 b o d s va vb
          (
            same.0,
            nxt ∙ ap (λ x. (a.snd_nxt + length x) % 2 ^ 32) buf,
            same.1,
            same.2,
            same.4 ∙ buf,
          )
          (f, seq, k, bytes ∙ ap (λ x. take (length x) x) buf ∙ take_all d) some' (omega arith) kept
          room,
    )
