-- ===== src/Net/Tcp/Tcb/Window.antt =====
-- `try_emit` within the congestion window.
use vyro_os.Base.{
  ℕ, zero, suc, ◌+◌, ◌-◌, ◌^◌, min, ◌≤◌, ◌<◌, ◌≡◌, ◌⊎◌, inl, inr, refl, sym, ap, ◌∙◌, Bool, true,
  false, List, [], ◌∷◌, length, take, drop, arith, Bool-cases, leb, lt→leb, not, if◌then◌else◌,
}
use native.Mathlib.Decide.{dec_lt, ℕ_discrete}
use vyro_os.Net.Tcp.Tcb.{
  Tcb, Out, tcp_mss, tcp_buf_size, is_established, in_flight, emit_one, emit_loop, try_emit,
}
use vyro_os.Net.Tcp.Tcb.Emit.{
  sent_bytes, Contiguous, SameExceptNext, Sent, Same-trans, emit_one_lem, emit_loop_done,
  emit_loop_more, emit_loop_lem,
}

-- Bytes in flight are bytes of the send buffer.
pub record InWindow (t : Tcb) : Type 0 where
  pub flight : in_flight t ≤ length t.snd_buf
  pub room : length t.snd_buf ≤ tcp_buf_size
  pub next : t.snd_nxt < 2 ^ 32
  pub oldest : t.snd_una < 2 ^ 32

pub quiet :
    (now : ℕ) (t : Tcb)
    → (is_established t.state ≡ false) ⊎ ((length t.snd_buf ≤ in_flight t) ⊎ (t.cwnd ≤ in_flight t))
    → try_emit now t ≡ (t, [])
unfolding try_emit
quiet now t h =
    let to_send = min (length t.snd_buf - in_flight t) (t.cwnd - in_flight t) in
    ground (arith, emit_loop_done to_send now t (in_flight t) to_send)

busy :
    (now : ℕ) (t : Tcb)
    → is_established t.state ≡ true
    → in_flight t < length t.snd_buf
    → let to_send = min (length t.snd_buf - in_flight t) (t.cwnd - in_flight t) in
      try_emit now t ≡ emit_loop to_send now t (in_flight t) to_send
unfolding try_emit
busy now t h lt = rw (h, lt→leb _ _ lt)

-- A buffer of one segment, with nothing in flight, goes out as that segment.
pub try_emit_one :
    (now : ℕ) (t : Tcb)
    → is_established t.state ≡ true
    → in_flight t ≡ 0
    → 0 < length t.snd_buf
    → length t.snd_buf ≤ tcp_mss
    → length t.snd_buf ≤ t.cwnd
    → let n = length t.snd_buf in
      try_emit now t ≡ ((emit_one now t 0 n).0, (emit_one now t 0 n).1 ∷ [])
try_emit_one now t e idle some' small window =
    let n = length t.snd_buf in
    busy now t e (omega arith)
    ∙ ap (λ k. emit_loop k now t (in_flight t) k) {y = suc (n - 1)} (omega arith)
    ∙ emit_loop_more (n - 1) now t (in_flight t) (suc (n - 1)) (omega arith)
    ∙ ap
        (λ k.
          let (t', o) = emit_one now t (in_flight t) k in
          let (t'', os) = emit_loop (n - 1) now t' (in_flight t + k) (suc (n - 1) - k) in
          (t'', o ∷ os))
        {x = min (suc (n - 1)) tcp_mss} {y = n} (omega arith)
    ∙ ap (λ r. (r.0, (emit_one now t (in_flight t) n).1 ∷ r.1))
        (emit_loop_done (n - 1) now (emit_one now t (in_flight t) n).0 (in_flight t + n)
          (suc (n - 1) - n) (omega arith))
    ∙ ap (λ off. ((emit_one now t off n).0, (emit_one now t off n).1 ∷ [])) idle

Same-refl : (t : Tcb) → SameExceptNext t t
Same-refl t = (refl, refl, refl, refl, refl, refl, refl, refl)

emit_loop_same :
    (n now : ℕ) (t : Tcb) (off to_send : ℕ) → SameExceptNext t (emit_loop n now t off to_send).0
emit_loop_same zero now t off to_send = unfold emit_loop in Same-refl t
emit_loop_same (suc n) now t off to_send = elim (ℕ_discrete to_send 0) [
  | yes z ↦ rw (emit_loop_done (suc n) now t off to_send z) (Same-refl t)
  | no nz ↦ rw (emit_loop_more n now t off to_send nz) (
      let chunk = min to_send tcp_mss in
      let t' = (emit_one now t off chunk).0 in
      Same-trans t t' (emit_loop n now t' (off + chunk) (to_send - chunk)).0
        (emit_one_lem now t off chunk).0 (emit_loop_same n now t' (off + chunk) (to_send - chunk)))
]

-- Whatever the window, sending changes nothing else of the block.
pub try_emit_same : (now : ℕ) (t : Tcb) → SameExceptNext t (try_emit now t).0
unfolding try_emit
try_emit_same now t =
    let to_send = min (length t.snd_buf - in_flight t) (t.cwnd - in_flight t) in
    let same = emit_loop_same to_send now t (in_flight t) to_send in
    if-same (not (is_established t.state)) t _ _ (Same-refl t)
      (if-same (leb (length t.snd_buf) (in_flight t)) t _ _ (Same-refl t) same)
  where
    if-same :
        (b : Bool) (t : Tcb) (x y : Tcb × List Out)
        → SameExceptNext t x.0
        → SameExceptNext t y.0
        → SameExceptNext t (if b then x else y).0
    if-same true t x y h k = h
    if-same false t x y h k = k

-- What `try_emit` sends is the next bytes of the send buffer behind those in flight, in segments
-- one after another of at most 536 bytes; after it the bytes in flight are still bytes of the buffer,
-- and within the congestion window unless nothing was sent. Nothing else of the block changes but
-- the probe of the round-trip time.
pub try_emit_lem :
    (now : ℕ) (t : Tcb)
    → InWindow t
    → let (t', os) = try_emit now t in
      SameExceptNext t t'
      × InWindow t'
      × (sent_bytes os ≡ take (in_flight t' - in_flight t) (drop (in_flight t) t.snd_buf))
      × Contiguous t.snd_nxt os
      × ((os ≡ []) ⊎ (in_flight t' ≤ t.cwnd))
unfolding Sent
try_emit_lem now t w = elim (Bool-cases (is_established t.state)) [
  | inr away ↦ rw (quiet now t (inl away)) (none_sent w)
  | inl here ↦ elim (dec_lt (in_flight t) (length t.snd_buf)) [
    | no all ↦ rw (quiet now t (inr (inl (omega arith)))) (none_sent w)
    | yes more ↦ elim (dec_lt (in_flight t) t.cwnd) [
      | no full ↦ rw (quiet now t (inr (inr (omega arith)))) (none_sent w)
      | yes open' ↦
          let to_send = min (length t.snd_buf - in_flight t) (t.cwnd - in_flight t) in
          let (same, nxt, bytes, order) =
            emit_loop_lem to_send now t (in_flight t) to_send (omega arith) (omega arith) w.next in
          let s' = (emit_loop to_send now t (in_flight t) to_send).0 in
          let grown : in_flight s' ≡ in_flight t + to_send =
            omega (arith, nxt, same.1, w.next, w.oldest, w.room) in
          rw (busy now t here more) (
            same,
            record {
              flight = omega (arith, grown, ap length same.4);
              room = omega (arith, ap length same.4, w.room);
              next = omega (arith, nxt);
              oldest = omega (arith, same.1, w.oldest);
            },
            bytes
                ∙ ap (λ n. take n (drop (in_flight t) t.snd_buf)) {x = to_send}
                    (omega (arith, grown)),
            order,
            inr (omega (arith, grown)),
          )
    ]
  ]
]
  where
    none_sent :
        InWindow t
        → SameExceptNext t t
          × InWindow t
          × (sent_bytes [] ≡ take (in_flight t - in_flight t) (drop (in_flight t) t.snd_buf))
          × Contiguous t.snd_nxt []
          × ((◌≡◌ {A = List Out} [] []) ⊎ (in_flight t ≤ t.cwnd))
    none_sent w = (
      (refl, refl, refl, refl, refl, refl, refl, refl),
      w,
      sym (ap (λ n. take n (drop (in_flight t) t.snd_buf)) {y = 0} (omega arith)),
      tt,
      inl refl,
    )
