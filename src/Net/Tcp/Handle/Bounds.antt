-- ===== src/Net/Tcp/Handle/Bounds.antt =====
-- The bounds that every segment keeps: the buffers stay within their arrays, the sequence numbers
-- within 32 bits, and the bytes in flight within the send buffer.
use vyro_os.Base.{
  if-holds, length, length-drop, length-take, length-append, take, min, drop, ℕ, ◌+◌, ◌-◌, ◌^◌, ◌≤◌,
  ◌<◌, ◌≡◌, ◌⊎◌, inl, inr, refl, ap, ◌∙◌, true, false, not, ◌&&◌, ◌||◌, List, [], arith, ltb, leb,
  ◌==◌, if◌then◌else◌,
}
use vyro_os.Net.Tcp.Tcb.{
  Tcb, Out, established, tcp_mss, tcp_buf_size, flag_fin, flag_syn, flag_ack, flag_rst, has_flag,
  is_established, sub32, after, in_flight, slide_snd_window, try_emit,
}
use vyro_os.Net.Tcp.Tcb.Window.{InWindow, try_emit_lem}
use vyro_os.Net.Tcp.Tcb.Slide.{Same-trans, slide_snd_window-SameButSend, slide_snd_window_lem}
use vyro_os.Net.Tcp.Handle.{
  Segment, grow_cwnd, take_sample, acked, new_ack, same_ack, on_ack, deliver, deliver_kept,
  keep_aside, on_data, on_fin, in_established,
}
use vyro_os.Net.Tcp.Handle.Edges.{take_sample-Same, acked-Kept}

pub record IsValid (t : Tcb) : Type 0 where
  pub room : length t.snd_buf ≤ tcp_buf_size
  pub next : t.snd_nxt < 2 ^ 32
  pub oldest : t.snd_una < 2 ^ 32
  pub flight : (is_established t.state ≡ false) ⊎ (in_flight t ≤ length t.snd_buf)
  pub rcv_room : length t.rcv_buf ≤ tcp_buf_size
  pub ooo_room : length t.ooo_buf ≤ tcp_mss
  pub rcv_next : t.rcv_nxt < 2 ^ 32

-- What the headers and the data of a segment have in common.
pub record IsSegment (seg : Segment) : Type 0 where
  pub seq_bound : seg.seq < 2 ^ 32
  pub ack_bound : seg.ack < 2 ^ 32
  pub size : length seg.data' ≤ seg.payload

-- The segment does not acknowledge bytes that stand in the send buffer of an established connection
-- and were never sent. A reset, a segment without ACK, an old acknowledgement (of more bytes than
-- the buffer has, as the difference wraps) and one of nothing new are all allowed.
abbrev pub AcksSent : Segment → Tcb → Type 0
AcksSent seg t =
    (has_flag seg.flags flag_rst ≡ true)
    ⊎ ((is_established t.state ≡ false)
        ⊎ ((has_flag seg.flags flag_ack ≡ false)
            ⊎ ((sub32 seg.ack t.snd_una ≤ in_flight t)
                ⊎ (length t.snd_buf < sub32 seg.ack t.snd_una))))

-- All of the block that `IsValid` reads.
abbrev pub SameFields : Tcb → Tcb → Type 0
SameFields t t' =
    (t'.state ≡ t.state)
    × (t'.snd_nxt ≡ t.snd_nxt)
    × (t'.snd_una ≡ t.snd_una)
    × (t'.rcv_nxt ≡ t.rcv_nxt)
    × (t'.snd_buf ≡ t.snd_buf)
    × (t'.rcv_buf ≡ t.rcv_buf)
    × (t'.ooo_buf ≡ t.ooo_buf)

pub IsValid-same : (t t' : Tcb) → SameFields t t' → IsValid t → IsValid t'
IsValid-same t t' (st, nxt, una, rcv, sb, rb, ob) v = record {
  room = omega (arith, ap length sb, v.room);
  next = omega (arith, nxt, v.next);
  oldest = omega (arith, una, v.oldest);
  flight = rw (st, nxt, una, sb) v.flight;
  rcv_room = omega (arith, ap length rb, v.rcv_room);
  ooo_room = omega (arith, ap length ob, v.ooo_room);
  rcv_next = omega (arith, rcv, v.rcv_next);
}

grow_cwnd-Same : (t : Tcb) → SameFields t (grow_cwnd t)
unfolding grow_cwnd
grow_cwnd-Same t = ground arith

-- What an acknowledgement of bytes in the buffer changes: they leave it, and the window starts behind
-- them.
pub acked_lem :
    (now : ℕ) (t : Tcb) (seg : Segment)
    → sub32 seg.ack t.snd_una ≤ length t.snd_buf
    → let u = acked now t seg in
      (u.state ≡ t.state)
      × (u.snd_nxt ≡ t.snd_nxt)
      × (u.snd_una ≡ seg.ack)
      × (u.rcv_nxt ≡ t.rcv_nxt)
      × (u.snd_buf ≡ drop (sub32 seg.ack t.snd_una) t.snd_buf)
      × (u.rcv_buf ≡ t.rcv_buf)
      × (u.ooo_buf ≡ t.ooo_buf)
unfolding acked
acked_lem now t seg fits =
    let n = sub32 seg.ack t.snd_una in
    let s = take_sample now t seg.ack in
    let u = slide_snd_window now s n in
    let (same, buf) = take_sample-Same now t seg.ack in
    let (st, act, nxt, una, rcv, rb, ob, cw) =
      Same-trans t s u same (slide_snd_window-SameButSend now s n) in
    let dropped : u.snd_buf ≡ drop n t.snd_buf =
      slide_snd_window_lem now s n (omega (arith, ap length buf)) ∙ ap (drop n) buf in
    let (st', nxt', una', rcv', sb', rb', ob') =
      grow_cwnd-Same (record u { snd_una = seg.ack; dup_acks = 0; last_ack_recv = seg.ack }) in
    (st' ∙ st, nxt' ∙ nxt, una', rcv' ∙ rcv, sb' ∙ dropped, rb' ∙ rb, ob' ∙ ob)

acked-IsValid :
    (now : ℕ) (t : Tcb) (seg : Segment)
    → IsValid t
    → seg.ack < 2 ^ 32
    → in_flight t ≤ length t.snd_buf
    → sub32 seg.ack t.snd_una ≤ in_flight t
    → IsValid (acked now t seg)
acked-IsValid now t seg v small window sent =
    let n = sub32 seg.ack t.snd_una in
    let (st, nxt, una, rcv, sb, rb, ob) = acked_lem now t seg (omega arith) in
    let size : length (acked now t seg).snd_buf ≡ length t.snd_buf - n =
      ap length sb ∙ length-drop n t.snd_buf in
    record {
      room = omega (arith, size, v.room);
      next = omega (arith, nxt, v.next);
      oldest = omega (arith, una);
      flight = inr (omega (arith, size, nxt, una, v.next, v.oldest));
      rcv_room = omega (arith, ap length rb, v.rcv_room);
      ooo_room = omega (arith, ap length ob, v.ooo_room);
      rcv_next = omega (arith, rcv, v.rcv_next);
    }

same_ack-Same : (t : Tcb) (seg : Segment) → SameFields t (same_ack t seg).0
unfolding same_ack
same_ack-Same t seg = ground arith

-- An established connection with a valid block has its window within the buffer.
IsValid-InWindow : (t : Tcb) → IsValid t → is_established t.state ≡ true → InWindow t
IsValid-InWindow t v e = record {
  flight = elim v.flight [ inl no' ↦ absurd (ground arith) | inr le ↦ le ];
  room = v.room;
  next = v.next;
  oldest = v.oldest;
}

pub try_emit-IsValid :
    (now : ℕ) (t : Tcb) → IsValid t → is_established t.state ≡ true → IsValid (try_emit now t).0
try_emit-IsValid now t v e =
    let (same, w, _, _, _) = try_emit_lem now t (IsValid-InWindow t v e) in
    record {
      room = w.room;
      next = w.next;
      oldest = w.oldest;
      flight = inr w.flight;
      rcv_room = omega (arith, ap length same.5, v.rcv_room);
      ooo_room = omega (arith, ap length same.6, v.ooo_room);
      rcv_next = omega (arith, same.2, v.rcv_next);
    }

new_ack-IsValid :
    (now : ℕ) (t : Tcb) (seg : Segment)
    → IsValid t
    → t.state ≡ established
    → seg.ack < 2 ^ 32
    → sub32 seg.ack t.snd_una ≤ in_flight t
    → IsValid (new_ack now t seg).0
unfolding new_ack is_established
new_ack-IsValid now t seg v e small sent =
    try_emit-IsValid now (acked now t seg)
      (acked-IsValid now t seg v small (IsValid-InWindow t v (ap is_established e)).flight sent)
      (ap is_established ((acked-Kept now t seg).0 ∙ e))

on_ack-IsValid :
    (now : ℕ) (t : Tcb) (seg : Segment)
    → IsValid t
    → t.state ≡ established
    → seg.ack < 2 ^ 32
    → (sub32 seg.ack t.snd_una ≤ in_flight t) ⊎ (length t.snd_buf < sub32 seg.ack t.snd_una)
    → IsValid (on_ack now t seg).0
unfolding on_ack
on_ack-IsValid now t seg v e small sent =
    if-holds (λ (r : Tcb × List Out). IsValid r.0) (ltb 0 newly && leb newly (length t.snd_buf))
      (λ taken.
        new_ack-IsValid now t seg v e small
          (elim sent [ inl le ↦ le | inr gt ↦ absurd (ground (arith, taken, gt)) ]))
      (λ _.
        if-holds (λ (r : Tcb × List Out). IsValid r.0)
          ((newly == 0)
            && (ltb 0 (length t.snd_buf)
                && ((seg.payload == 0) && not (has_flag seg.flags (flag_syn + flag_fin)))))
          {y = (t, [])} (λ _. IsValid-same t (same_ack t seg).0 (same_ack-Same t seg) v) (λ _. v))
  where
    newly : ℕ
    newly = sub32 seg.ack t.snd_una

deliver-IsValid : (t : Tcb) (bytes : List ℕ) → IsValid t → IsValid (deliver t bytes)
unfolding deliver
deliver-IsValid t bytes v =
    let n = min (length bytes) (tcp_buf_size - length t.rcv_buf) in
    record {
      room = v.room;
      next = v.next;
      oldest = v.oldest;
      flight = v.flight;
      rcv_room =
          omega (arith, length-append t.rcv_buf (take n bytes), length-take n bytes, v.rcv_room);
      ooo_room = v.ooo_room;
      rcv_next = omega arith;
    }

deliver_kept-IsValid : (t : Tcb) → IsValid t → IsValid (deliver_kept t)
unfolding deliver_kept
deliver_kept-IsValid t v =
    if-holds (λ u. IsValid u) (ltb 0 (length t.ooo_buf) && (t.ooo_seq == t.rcv_nxt))
      (λ _.
        let w = deliver-IsValid t t.ooo_buf v in
        record {
          room = w.room;
          next = w.next;
          oldest = w.oldest;
          flight = w.flight;
          rcv_room = w.rcv_room;
          ooo_room = omega arith;
          rcv_next = w.rcv_next;
        })
      (λ _. v)

keep_aside-IsValid :
    (t : Tcb) (seg : Segment) → IsSegment seg → IsValid t → IsValid (keep_aside t seg)
unfolding keep_aside
keep_aside-IsValid t seg g v =
    if-holds (λ u. IsValid u)
      (leb seg.payload tcp_mss && ((length t.ooo_buf == 0) || ltb seg.seq t.ooo_seq))
      (λ h. record {
        room = v.room;
        next = v.next;
        oldest = v.oldest;
        flight = v.flight;
        rcv_room = v.rcv_room;
        ooo_room = (let s = g.size in ground arith);
        rcv_next = v.rcv_next;
      })
      (λ _. v)

on_data-IsValid : (t : Tcb) (seg : Segment) → IsSegment seg → IsValid t → IsValid (on_data t seg).0
unfolding on_data
on_data-IsValid t seg g v =
    if-holds (λ u. IsValid u) (seg.seq == t.rcv_nxt)
      (λ _. deliver_kept-IsValid (deliver t seg.data') (deliver-IsValid t seg.data' v))
      (λ _.
        if-holds (λ u. IsValid u) (after seg.seq t.rcv_nxt) (λ _. keep_aside-IsValid t seg g v)
          (λ _. v))

on_fin-IsValid : (t : Tcb) (seg : Segment) → IsValid t → IsValid (on_fin t seg).0
unfolding on_fin is_established
on_fin-IsValid t seg v = record {
  room = v.room;
  next = v.next;
  oldest = v.oldest;
  flight = inl refl;
  rcv_room = v.rcv_room;
  ooo_room = v.ooo_room;
  rcv_next = omega arith;
}

established_is : (t : Tcb) → t.state ≡ established → is_established t.state ≡ false → ⊥
unfolding is_established
established_is t e other = let here = ap is_established e in ground arith

pub in_established-IsValid :
    (now : ℕ) (t : Tcb) (seg : Segment)
    → IsValid t
    → IsSegment seg
    → t.state ≡ established
    → has_flag seg.flags flag_rst ≡ false
    → AcksSent seg t
    → IsValid (in_established now t seg).0
unfolding in_established
in_established-IsValid now t seg v g e no_reset sent =
    if-holds (λ (r : Tcb × List Out). IsValid r.0) (has_flag seg.flags flag_fin)
      (λ _. on_fin-IsValid r2.0 seg v2) (λ _. v2)
  where
    r1 : Tcb × List Out
    r1 = if has_flag seg.flags flag_ack then on_ack now t seg else (t, [])

    r2 : Tcb × List Out
    r2 = if ltb 0 seg.payload then on_data r1.0 seg else (r1.0, [])

    v1 : IsValid r1.0
    v1 =
        if-holds (λ (r : Tcb × List Out). IsValid r.0) (has_flag seg.flags flag_ack) {y = (t, [])}
          (λ a. on_ack-IsValid now t seg v e g.ack_bound (elim sent [
            | inl reset ↦ absurd (ground arith)
            | inr (inl other) ↦ absurd (established_is t e other)
            | inr (inr (inl bare)) ↦ absurd (ground arith)
            | inr (inr (inr within)) ↦ within
          ]))
          (λ _. v)

    v2 : IsValid r2.0
    v2 =
        if-holds (λ (r : Tcb × List Out). IsValid r.0) (ltb 0 seg.payload) {y = (r1.0, [])}
          (λ _. on_data-IsValid r1.0 seg g v1) (λ _. v1)

-- A step that changes no buffer and sends nothing new.
pub IsValid-idle :
    (t t' : Tcb)
    → IsValid t
    → (is_established t'.state ≡ false) ⊎ (in_flight t' ≤ length t.snd_buf)
    → (t'.snd_nxt ≡ t.snd_nxt)
      × (t'.snd_buf ≡ t.snd_buf)
      × (t'.rcv_buf ≡ t.rcv_buf)
      × (t'.ooo_buf ≡ t.ooo_buf)
    → t'.snd_una < 2 ^ 32
    → t'.rcv_nxt < 2 ^ 32
    → IsValid t'
IsValid-idle t t' v window (nxt, sb, rb, ob) una rcv = record {
  room = omega (arith, ap length sb, v.room);
  next = omega (arith, nxt, v.next);
  oldest = una;
  flight = elim window [ inl away ↦ inl away | inr le ↦ inr (omega (arith, le, ap length sb)) ];
  rcv_room = omega (arith, ap length rb, v.rcv_room);
  ooo_room = omega (arith, ap length ob, v.ooo_room);
  rcv_next = rcv;
}
