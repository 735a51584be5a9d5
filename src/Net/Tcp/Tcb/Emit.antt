-- ===== src/Net/Tcp/Tcb/Emit.antt =====
-- The sending side: what `try_emit` puts on the wire is the next part of the buffer, within the
-- congestion window, in segments of one after another.
use vyro_os.Base.{
  ℕ, zero, suc, ◌+◌, ◌-◌, ◌%◌, ◌^◌, min, ◌≤◌, ◌<◌, ◌≡◌, ◌≢◌, inl, inr, refl, sym, ap, ap₂, ◌∙◌,
  List, [], ◌∷◌, ◌++◌, length, take, drop, length-take, length-drop, take_chunk, arith, Bool-cases,
  ==_iff, ne→==,
}
use mathlib.Core.Path.{subst}
use native.Mathlib.Decide.{ℕ_discrete}
use vyro_os.Net.Tcp.Tcb.{Tcb, Out, tcp_mss, emit_one, emit_loop}

-- The bytes of the segments, one after another.
abbrev pub sent_bytes : List Out → List ℕ
sent_bytes [] = []
sent_bytes (o ∷ os) = o.payload ++ sent_bytes os

-- Each segment starts where the one before ended, the first at `seq`; none is longer than the
-- maximum segment size and none is empty.
abbrev pub Contiguous : ℕ → List Out → Type 0
Contiguous seq [] = Unit
Contiguous seq (o ∷ os) =
    (o.seq ≡ seq)
    × (0 < length o.payload)
    × (length o.payload ≤ tcp_mss)
    × Contiguous ((seq + length o.payload) % 2 ^ 32) os

-- Nothing but `snd_nxt` and the probe of the round-trip time changes.
abbrev pub SameExceptNext : Tcb → Tcb → Type 0
SameExceptNext t t' =
    (t'.state ≡ t.state)
    × (t'.snd_una ≡ t.snd_una)
    × (t'.rcv_nxt ≡ t.rcv_nxt)
    × (t'.cwnd ≡ t.cwnd)
    × (t'.snd_buf ≡ t.snd_buf)
    × (t'.rcv_buf ≡ t.rcv_buf)
    × (t'.ooo_buf ≡ t.ooo_buf)
    × (t'.active ≡ t.active)

pub emit_one_lem :
    (now : ℕ) (t : Tcb) (off chunk : ℕ)
    → let (t', o) = emit_one now t off chunk in
      SameExceptNext t t'
      × (t'.snd_nxt ≡ (t.snd_nxt + chunk) % 2 ^ 32)
      × (o.seq ≡ t.snd_nxt)
      × (o.payload ≡ take chunk (drop off t.snd_buf))
unfolding emit_one
emit_one_lem now t off chunk = elim (Bool-cases t.rtt_in_flight) [
  | inl h ↦ rw h ((refl, refl, refl, refl, refl, refl, refl, refl), refl, refl, refl)
  | inr h ↦ rw h ((refl, refl, refl, refl, refl, refl, refl, refl), refl, refl, refl)
]

-- The segment acknowledges, and is pushed.
pub emit_one_head :
    (now : ℕ) (t : Tcb) (off chunk : ℕ)
    → let o = (emit_one now t off chunk).1 in (o.flags ≡ 24) × (o.ack ≡ t.rcv_nxt)
unfolding emit_one
emit_one_head now t off chunk = elim (Bool-cases t.rtt_in_flight) [
  | inl h ↦ rw h (refl, refl)
  | inr h ↦ rw h (refl, refl)
]

pub Same-trans : (a b c : Tcb) → SameExceptNext a b → SameExceptNext b c → SameExceptNext a c
Same-trans a b c p q =
    (q.0 ∙ p.0, q.1 ∙ p.1, q.2 ∙ p.2, q.3 ∙ p.3, q.4 ∙ p.4, q.5 ∙ p.5, q.6 ∙ p.6, q.7 ∙ p.7)

-- The loop sends `to_send` bytes from `off` on.
unfoldable pub Sent : Tcb → ℕ → ℕ → Tcb → List Out → Type 0
Sent t off to_send t' os =
    SameExceptNext t t'
    × (t'.snd_nxt ≡ (t.snd_nxt + to_send) % 2 ^ 32)
    × (sent_bytes os ≡ take to_send (drop off t.snd_buf))
    × Contiguous t.snd_nxt os

Sent-cons :
    (t : Tcb) (off to_send chunk : ℕ) (t' t'' : Tcb) (o : Out) (os : List Out)
    → 0 < chunk
    → chunk ≤ tcp_mss
    → chunk ≤ to_send
    → off + to_send ≤ length t.snd_buf
    → SameExceptNext t t'
      × (t'.snd_nxt ≡ (t.snd_nxt + chunk) % 2 ^ 32)
      × (o.seq ≡ t.snd_nxt)
      × (o.payload ≡ take chunk (drop off t.snd_buf))
    → Sent t' (off + chunk) (to_send - chunk) t'' os
    → Sent t off to_send t'' (o ∷ os)
unfolding Sent
Sent-cons t off to_send chunk t' t'' o os more small small_chunk inside (same, nxt, seq, bytes)
      (same', nxt', bytes', rest) =
    let full : length o.payload ≡ chunk =
      omega (
        arith,
        ap length bytes,
        length-take chunk (drop off t.snd_buf),
        length-drop off t.snd_buf,
      ) in
    (
      Same-trans t t' t'' same same',
      nxt' ∙ (omega (arith, nxt)),
      ap₂ ◌++◌ bytes (bytes' ∙ ap (λ b. take (to_send - chunk) (drop (off + chunk) b)) same.4)
          ∙ take_chunk chunk to_send off t.snd_buf small_chunk,
      (
        seq,
        omega (arith, full),
        omega (arith, full),
        rw full (subst (λ n. Contiguous n os) nxt rest),
      ),
    )

Sent-nil : (t : Tcb) (off to_send : ℕ) → to_send ≡ 0 → t.snd_nxt < 2 ^ 32 → Sent t off to_send t []
unfolding Sent
Sent-nil t off to_send z small = (
  (refl, refl, refl, refl, refl, refl, refl, refl),
  omega arith,
  sym (ap (λ n. take n (drop off t.snd_buf)) z),
  tt,
)

pub emit_loop_done :
    (n now : ℕ) (t : Tcb) (off to_send : ℕ) → to_send ≡ 0 → emit_loop n now t off to_send ≡ (t, [])
unfolding emit_loop
emit_loop_done zero now t off to_send z = refl
emit_loop_done (suc n) now t off to_send z = rw ((==_iff to_send 0).1 z, emit_loop)

pub emit_loop_more :
    (n now : ℕ) (t : Tcb) (off to_send : ℕ)
    → to_send ≢ 0
    → emit_loop (suc n) now t off to_send ≡ (
        let chunk = min to_send tcp_mss in
        let (t', o) = emit_one now t off chunk in
        let (t'', os) = emit_loop n now t' (off + chunk) (to_send - chunk) in (t'', o ∷ os))
unfolding emit_loop
emit_loop_more n now t off to_send nz = rw (ne→== to_send 0 nz, emit_loop)

pub emit_loop_lem :
    (n now : ℕ) (t : Tcb) (off to_send : ℕ)
    → to_send ≤ n
    → off + to_send ≤ length t.snd_buf
    → t.snd_nxt < 2 ^ 32
    → let (t', os) = emit_loop n now t off to_send in Sent t off to_send t' os
emit_loop_lem zero now t off to_send le inside small =
    rw (emit_loop_done zero now t off to_send (omega arith))
      (Sent-nil t off to_send (omega arith) small)
emit_loop_lem (suc n) now t off to_send le inside small = elim (ℕ_discrete to_send 0) [
  | yes z ↦ rw (emit_loop_done (suc n) now t off to_send z) (Sent-nil t off to_send z small)
  | no nz ↦ rw (emit_loop_more n now t off to_send nz) (
      let chunk = min to_send tcp_mss in
      let one = emit_one_lem now t off chunk in
      let t' = (emit_one now t off chunk).0 in
      let rest =
        emit_loop_lem n now t' (off + chunk) (to_send - chunk) (omega arith)
          (omega (arith, ap length one.0.4)) (omega (arith, one.1)) in
      Sent-cons t off to_send chunk t' _ _ _ (omega arith) (omega arith) (omega arith) inside one
        rest)
]
