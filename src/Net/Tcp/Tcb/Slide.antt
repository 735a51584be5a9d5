-- ===== src/Net/Tcp/Tcb/Slide.antt =====
-- What an acknowledgement does to the sending side: the sample of the round-trip time and the slide
-- of the window.
use vyro_os.Base.{
  ℕ, ◌≤◌, ◌≡◌, refl, sym, ap, ◌∙◌, drop, length, Bool-cases, inl, inr, arith, ◌==◌, ==_iff, ne→==,
}
use native.Mathlib.Decide.{ℕ_discrete}
use vyro_os.Net.Tcp.Tcb.{Tcb, rtt_sample, slide_snd_window}

-- All that the handlers of segments read but the send buffer.
abbrev pub SameButSend : Tcb → Tcb → Type 0
SameButSend t t' =
    (t'.state ≡ t.state)
    × (t'.active ≡ t.active)
    × (t'.snd_nxt ≡ t.snd_nxt)
    × (t'.snd_una ≡ t.snd_una)
    × (t'.rcv_nxt ≡ t.rcv_nxt)
    × (t'.rcv_buf ≡ t.rcv_buf)
    × (t'.ooo_buf ≡ t.ooo_buf)
    × (t'.cwnd ≡ t.cwnd)

pub rtt_sample-SameButSend :
    (t : Tcb) (sample : ℕ)
    → SameButSend t (rtt_sample t sample) × ((rtt_sample t sample).snd_buf ≡ t.snd_buf)
unfolding rtt_sample
rtt_sample-SameButSend t sample = ((refl, refl, refl, refl, refl, refl, refl, refl), refl)

pub slide_snd_window-SameButSend :
    (now : ℕ) (t : Tcb) (acked : ℕ) → SameButSend t (slide_snd_window now t acked)
unfolding slide_snd_window
slide_snd_window-SameButSend now t acked = elim (Bool-cases (acked == 0)) [
  | inl z ↦ rw z (refl, refl, refl, refl, refl, refl, refl, refl)
  | inr nz ↦ rw nz (refl, refl, refl, refl, refl, refl, refl, refl)
]

-- The bytes acknowledged leave the send buffer.
pub slide_snd_window_lem :
    (now : ℕ) (t : Tcb) (acked : ℕ)
    → acked ≤ length t.snd_buf
    → (slide_snd_window now t acked).snd_buf ≡ drop acked t.snd_buf
unfolding slide_snd_window
slide_snd_window_lem now t acked le = elim (ℕ_discrete acked 0) [
  | yes z ↦ rw ((==_iff acked 0).1 z) (sym (ap (λ n. drop n t.snd_buf) z))
  | no nz ↦ rw (ne→== acked 0 nz) (ap (λ n. drop n t.snd_buf) (omega arith))
]

pub Same-trans : (a b c : Tcb) → SameButSend a b → SameButSend b c → SameButSend a c
Same-trans a b c p q =
    (q.0 ∙ p.0, q.1 ∙ p.1, q.2 ∙ p.2, q.3 ∙ p.3, q.4 ∙ p.4, q.5 ∙ p.5, q.6 ∙ p.6, q.7 ∙ p.7)
