-- ===== src/Net/Tcp/Tick/Resend.antt =====
-- The retransmission after a timeout.
use vyro_os.Base.{
  ℕ, zero, suc, ◌+◌, ◌-◌, ◌*◌, ◌%◌, ◌^◌, min, ◌≤◌, ◌<◌, ◌≡◌, ◌⊎◌, inl, inr, refl, sym, ap, ◌∙◌, [],
  ◌∷◌, ◌++◌, length, take, drop, length-take, length-drop, take_chunk, arith, Bool-cases, ltb, leb,
  if◌then◌else◌, lt→ltb, le→ltb, not, ◌&&◌, ◌==◌, ◌≢◌, Bool, true, false,
}
use native.Mathlib.Decide.{dec_lt}
use vyro_os.Net.Tcp.Tcb.{Tcb, tcp_mss, tcp_rto_max_ms, tcp_data_rto_ms, in_flight}
use vyro_os.Net.Tcp.Tcb.Emit.{sent_bytes, Contiguous}
use vyro_os.Net.Tcp.Tick.{resend, back_off, tick_established, sub64}

resend_done : (n : ℕ) (t : Tcb) (seq off : ℕ) → in_flight t ≤ off → resend n t seq off ≡ []
unfolding resend
resend_done zero t seq off le = refl
resend_done (suc n) t seq off le = rw (le→ltb off (in_flight t) le, resend)

resend_more :
    (n : ℕ) (t : Tcb) (seq off : ℕ)
    → off < in_flight t
    → resend (suc n) t seq off
      ≡ record {
        flags = 24;
        seq = seq;
        ack = t.rcv_nxt;
        payload = take (min (in_flight t - off) tcp_mss) (drop off t.snd_buf);
      }
        ∷ resend n t
            ((seq + min (in_flight t - off) tcp_mss) % 2 ^ 32)
            (off + min (in_flight t - off) tcp_mss)
unfolding resend
resend_more n t seq off lt = rw (lt→ltb off (in_flight t) lt, resend)

resend_lem :
    (n : ℕ) (t : Tcb) (seq off : ℕ)
    → in_flight t - off ≤ n
    → in_flight t ≤ length t.snd_buf
    → (sent_bytes (resend n t seq off) ≡ take (in_flight t - off) (drop off t.snd_buf))
      × Contiguous seq (resend n t seq off)
resend_lem zero t seq off le inside =
    rw (resend_done 0 t seq off (omega arith)) (
      sym (ap (λ k. take k (drop off t.snd_buf)) {x = in_flight t - off} {y = 0} (omega arith)),
      tt,
    )
resend_lem (suc n) t seq off le inside = elim (dec_lt off (in_flight t)) [
  | no stop ↦ rw (resend_done (suc n) t seq off (omega arith)) (
    sym (ap (λ k. take k (drop off t.snd_buf)) {x = in_flight t - off} {y = 0} (omega arith)),
    tt,
  )
  | yes go ↦
      let chunk = min (in_flight t - off) tcp_mss in
      let piece = take chunk (drop off t.snd_buf) in
      let full : length piece ≡ chunk =
        omega (arith, length-take chunk (drop off t.snd_buf), length-drop off t.snd_buf) in
      let (bytes, order) =
        resend_lem n t ((seq + chunk) % 2 ^ 32) (off + chunk) (omega arith) inside in
      rw (resend_more n t seq off go) (
        ap (λ r. piece ++ r)
              (bytes
                ∙ ap (λ k. take k (drop (off + chunk) t.snd_buf)) {y = in_flight t - off - chunk}
                    (omega arith))
            ∙ take_chunk chunk (in_flight t - off) off t.snd_buf (omega arith),
        (refl, omega (arith, full), omega (arith, full), rw full order),
      )
]

-- The time since `start`, on a clock of 64 bits that may have wrapped.
abbrev pub IsElapsed : ℕ → ℕ → ℕ → Type 0
IsElapsed start now e = (e < 2 ^ 64) × ((start + e ≡ now) ⊎ (start + e ≡ now + 2 ^ 64))

-- The timeout of a block: its own, or 1000 ms when it has none.
abbrev pub IsTimeout : Tcb → ℕ → Type 0
IsTimeout t r = ((t.rto_ms ≢ 0) × (r ≡ t.rto_ms)) ⊎ ((t.rto_ms ≡ 0) × (r ≡ 1000))

-- When `tick_established` finds nothing to do: nothing is unacknowledged, the clock of the oldest
-- byte does not run, or it has not reached the timeout.
abbrev pub IsIdle : Tcb → ℕ → ℕ → Type 0
IsIdle t r e = (length t.snd_buf ≡ 0) ⊎ ((t.snd_oldest_ms ≡ 0) ⊎ (e < r))

-- When the timeout `r` of the oldest byte is over, after `e` ms.
abbrev pub IsDue : Tcb → ℕ → ℕ → Type 0
IsDue t r e = (0 < length t.snd_buf) × (t.snd_oldest_ms ≢ 0) × (r ≤ e)

sub64_elapsed :
    (start now e : ℕ) → now < 2 ^ 64 → start < 2 ^ 64 → IsElapsed start now e → sub64 now start ≡ e
sub64_elapsed start now e clock small (lt, inl same) = omega arith
sub64_elapsed start now e clock small (lt, inr wrapped) = omega arith

timeout_lem :
    (t : Tcb) (r : ℕ) → IsTimeout t r → (if t.rto_ms == 0 then tcp_data_rto_ms else t.rto_ms) ≡ r
timeout_lem t r timeout = ground arith

-- The test of the source.
abbrev is_due : Tcb → ℕ → ℕ → Bool
is_due t r e = ltb 0 (length t.snd_buf) && (not (t.snd_oldest_ms == 0) && leb r e)

idle_lem : (t : Tcb) (r e : ℕ) → is_due t r e ≡ false → IsIdle t r e
idle_lem t r e h = ground arith

due_lem : (t : Tcb) (r e : ℕ) → is_due t r e ≡ true → IsDue t r e
due_lem t r e h = ground arith

-- For a block with its bytes in flight in the send buffer and a timeout of at most 5000 ms, with `r`
-- its timeout (1000 ms when it has none), a clock of 64 bits and `e` the time since the clock of
-- the oldest byte was set: when bytes are unacknowledged, the clock runs and `e` has reached `r`, all
-- that is in flight and nothing else is sent again, the first bytes of the send buffer, in segments
-- one after another from the oldest unacknowledged number on; the clock is set to now, no round trip
-- is measured, the congestion window falls to one segment, and the timeout doubles, up to 5000 ms.
-- When one of the three fails, nothing is sent and nothing changes.
pub tick_established_lem :
    (now r e : ℕ) (t : Tcb)
    → in_flight t ≤ length t.snd_buf
    → t.rto_ms ≤ tcp_rto_max_ms
    → now < 2 ^ 64
    → t.snd_oldest_ms < 2 ^ 64
    → IsTimeout t r
    → IsElapsed t.snd_oldest_ms now e
    → let (t', os) = tick_established now t in
      (IsIdle t r e × (t' ≡ t) × (os ≡ []))
      ⊎ (IsDue t r e
          × (sent_bytes os ≡ take (in_flight t) t.snd_buf)
          × Contiguous t.snd_una os
          × (t'.snd_buf ≡ t.snd_buf)
          × (t'.snd_oldest_ms ≡ now)
          × (t'.rtt_in_flight ≡ false)
          × (t'.cwnd ≡ tcp_mss)
          × (t'.rto_ms ≡ min (2 * t.rto_ms) tcp_rto_max_ms))
unfolding tick_established back_off
tick_established_lem now r e t inside rto clock start timeout elapsed =
    let after_ms : sub64 now t.snd_oldest_ms ≡ e =
      sub64_elapsed t.snd_oldest_ms now e clock start elapsed in
    let rto_set = if t.rto_ms == 0 then tcp_data_rto_ms else t.rto_ms in
    let due =
      ltb 0 (length t.snd_buf)
      && (not (t.snd_oldest_ms == 0) && leb rto_set (sub64 now t.snd_oldest_ms)) in
    let wait : rto_set ≡ r = timeout_lem t r timeout in
    elim (Bool-cases due) [
      | inr h ↦ rw h (inl (idle_lem t r e (rw (wait, after_ms) at h), refl, refl))
      | inl h ↦ rw h (
          let (bytes, order) = resend_lem (in_flight t) t t.snd_una 0 (omega arith) inside in
          inr (
            due_lem t r e (rw (wait, after_ms) at h),
            bytes ∙ ap (λ k. take k t.snd_buf) {x = in_flight t - 0} (omega arith),
            order,
            refl,
            refl,
            refl,
            refl,
            ground arith,
          ))
    ]
