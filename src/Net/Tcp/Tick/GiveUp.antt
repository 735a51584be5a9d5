-- ===== src/Net/Tcp/Tick/GiveUp.antt =====
-- The end of a connection that gets no answer.
use vyro_os.Base.{
  ℕ, zero, suc, ◌+◌, ◌*◌, ◌%◌, ◌^◌, ◌≤◌, ◌<◌, ◌≡◌, ◌⊎◌, inl, inr, refl, ap, ◌∙◌, true, false, List,
  [], ◌∷◌, length, arith, if◌then◌else◌,
}
use vyro_os.Net.Tcp.Tcb.{Tcb, closed, syn_sent}
use vyro_os.Net.Tcp.Tick.{tick_one, tick_state, tick_syn_sent, syn_retry_max}

-- The ticks at the given times, and nothing else.
pub ticks : List ℕ → Tcb → Tcb
ticks [] t = t
ticks (now ∷ times) t = ticks times (tick_one now t).0

-- Each time is at least 8000 ms after the one before, the first after `last`.
abbrev pub Spaced : ℕ → List ℕ → Type 0
Spaced last [] = Unit
Spaced last (now ∷ times) = (last + 8000 ≤ now) × (now < 2 ^ 64) × Spaced now times

powers : (n : ℕ) → n ≤ 3 → 1000 * 2 ^ n % 2 ^ 64 ≤ 8000
powers zero le = omega arith
powers (suc zero) le = omega arith
powers (suc (suc zero)) le = omega arith
powers (suc (suc (suc zero))) le = omega arith
powers (suc (suc (suc (suc n)))) le = absurd (omega arith)

due :
    (now : ℕ) (t : Tcb)
    → t.state ≡ syn_sent
    → t.active ≡ true
    → t.retries ≤ syn_retry_max
    → t.syn_sent_at_ms + 8000 ≤ now
    → now < 2 ^ 64
    → let t' = (tick_one now t).0 in
      ((t.retries ≡ syn_retry_max) × (t'.state ≡ closed) × (t'.active ≡ false))
      ⊎ ((t.retries < syn_retry_max)
          × (t'.state ≡ syn_sent)
          × (t'.active ≡ true)
          × (t'.retries ≡ suc t.retries)
          × (t'.syn_sent_at_ms ≡ now))
unfolding tick_one tick_state tick_syn_sent
due now t e a few late small = rw (a, e) (ground (arith, powers t.retries few))

idle : (now : ℕ) (t : Tcb) → t.active ≡ false → tick_one now t ≡ (t, [])
unfolding tick_one
idle now t a = ap (λ b. if b then tick_state t.state now t else (t, [])) a

over : (times : List ℕ) (t : Tcb) → t.active ≡ false → ticks times t ≡ t
unfolding ticks
over [] t a = refl
over (now ∷ times) t a = ap (λ r. ticks times r.0) (idle now t a) ∙ over times t a

-- A connection whose SYN nobody answers is closed after at most four ticks that are 8000 ms or more
-- apart, and stays closed.
pub syn_sent-closed :
    (times : List ℕ) (t : Tcb)
    → t.state ≡ syn_sent
    → t.active ≡ true
    → t.retries ≤ syn_retry_max
    → Spaced t.syn_sent_at_ms times
    → syn_retry_max < t.retries + length times
    → ((ticks times t).state ≡ closed) × ((ticks times t).active ≡ false)
unfolding ticks
syn_sent-closed [] t e a few spaced enough = absurd (omega arith)
syn_sent-closed (now ∷ times) t e a few (late, small, rest) enough =
    elim (due now t e a few late small) [
      | inl (_, closed', off) ↦ rw (over times (tick_one now t).0 off) (closed', off)
      | inr (fewer, e', a', more, at) ↦
          syn_sent-closed times (tick_one now t).0 e' a' (omega (arith, more)) (rw at rest)
            (omega (arith, more))
    ]
