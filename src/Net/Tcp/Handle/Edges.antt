-- ===== src/Net/Tcp/Handle/Edges.antt =====
-- The state machine: the moves that a segment can cause.
use vyro_os.Base.{
  if-holds, length, ℕ, ◌≡◌, ◌⊎◌, inl, inr, refl, ◌∙◌, Bool, true, false, ◌&&◌, List, [], arith,
  Bool-cases, ltb, leb, if◌then◌else◌,
}
use vyro_os.Net.Tcp.Tcb.{
  Tcb, Out, TcpState, closed, listen, syn_sent, syn_received, established, fin_wait_1, fin_wait_2,
  close_wait, last_ack, time_wait, flag_rst, flag_fin, flag_ack, has_flag, sub32, after,
  slide_snd_window,
}
use vyro_os.Net.Tcp.Tcb.Window.{try_emit_same}
use vyro_os.Net.Tcp.Tcb.Slide.{
  SameButSend, Same-trans, rtt_sample-SameButSend, slide_snd_window-SameButSend,
}
use vyro_os.Net.Tcp.Handle.{
  Segment, grow_cwnd, take_sample, acked, new_ack, same_ack, on_ack, deliver, on_data, on_fin,
  in_established, in_syn_received, in_syn_sent, last_fin, in_fin_wait_1, in_fin_wait_2, in_last_ack,
  in_state, handle,
}

-- The moves of a connection on a segment that is no reset.
pub data Edge : TcpState → TcpState → Type 0 where
  stay : (s : TcpState) → Edge s s
  accept : Edge syn_received established
  connect : Edge syn_sent established
  refuse : Edge syn_sent closed
  peer_closes : Edge established close_wait
  fin_acked : Edge fin_wait_1 fin_wait_2
  both_close : Edge fin_wait_1 time_wait
  peer_closes_last : Edge fin_wait_2 time_wait
  finish : Edge last_ack closed

unfoldable pub is_open : TcpState → Bool
is_open closed = false
is_open _ = true

-- State and `active` of the block stay.
abbrev Kept : Tcb → Tcb → Type 0
Kept t t' = (t'.state ≡ t.state) × (t'.active ≡ t.active)

pub take_sample-Same :
    (now : ℕ) (t : Tcb) (ack : ℕ)
    → SameButSend t (take_sample now t ack) × ((take_sample now t ack).snd_buf ≡ t.snd_buf)
unfolding take_sample
take_sample-Same now t ack = elim (Bool-cases (t.rtt_in_flight && after ack t.rtt_probe_seq)) [
  | inl h ↦ rw h (rtt_sample-SameButSend t _)
  | inr h ↦ rw h ((refl, refl, refl, refl, refl, refl, refl, refl), refl)
]

pub acked-Kept : (now : ℕ) (t : Tcb) (seg : Segment) → Kept t (acked now t seg)
unfolding acked
acked-Kept now t seg =
    let s = take_sample now t seg.ack in
    let u = slide_snd_window now s (sub32 seg.ack t.snd_una) in
    let same =
      Same-trans t s u (take_sample-Same now t seg.ack).0 (slide_snd_window-SameButSend now s _) in
    grown _ same.0 same.1
  where
    grown :
        (u : Tcb) {s : TcpState} {a : Bool}
        → u.state ≡ s
        → u.active ≡ a
        → ((grow_cwnd u).state ≡ s) × ((grow_cwnd u).active ≡ a)
    grown u e f = ground arith

new_ack-Kept : (now : ℕ) (t : Tcb) (seg : Segment) → Kept t (new_ack now t seg).0
unfolding new_ack
new_ack-Kept now t seg =
    let s = acked now t seg in
    let (e, f) = acked-Kept now t seg in let same = try_emit_same now s in (same.0 ∙ e, same.7 ∙ f)

same_ack-Kept : (t : Tcb) (seg : Segment) → Kept t (same_ack t seg).0
unfolding same_ack
same_ack-Kept t seg = ground arith

on_data-Kept : (t : Tcb) (seg : Segment) → Kept t (on_data t seg).0
unfolding on_data deliver
on_data-Kept t seg = ground arith

on_ack-Kept : (now : ℕ) (t : Tcb) (seg : Segment) → Kept t (on_ack now t seg).0
unfolding on_ack
on_ack-Kept now t seg =
    if-holds (λ (r : Tcb × List Out). Kept t r.0) (ltb 0 newly && leb newly (length t.snd_buf))
      (λ _. new_ack-Kept now t seg)
      (λ _.
        if-holds (λ (r : Tcb × List Out). Kept t r.0) _ (λ _. same_ack-Kept t seg)
          (λ _. (refl, refl)))
  where
    newly : ℕ
    newly = sub32 seg.ack t.snd_una

-- Where a segment leads from `s`, with `active` in agreement.
abbrev Moves : TcpState → Tcb → Type 0
Moves s t = Edge s t.state × (t.active ≡ is_open t.state)

Moves-stay :
    (s : TcpState) (t t' : Tcb) → t.state ≡ s → t.active ≡ is_open s → Kept t t' → Moves s t'
Moves-stay s t t' e a k = rw (k.0 ∙ e) (stay s, k.1 ∙ a)

in_established-Moves :
    (now : ℕ) (t : Tcb) (seg : Segment)
    → t.state ≡ established
    → t.active ≡ true
    → Moves established (in_established now t seg).0
unfolding in_established on_fin is_open
in_established-Moves now t seg e a =
    if-holds (λ (r : Tcb × List Out). Moves established r.0) (has_flag seg.flags flag_fin)
      (λ _. (peer_closes, k.1 ∙ a)) (λ _. Moves-stay established t r2.0 e a k)
  where
    r1 : Tcb × List Out
    r1 = if has_flag seg.flags flag_ack then on_ack now t seg else (t, [])

    r2 : Tcb × List Out
    r2 = if ltb 0 seg.payload then on_data r1.0 seg else (r1.0, [])

    k1 : Kept t r1.0
    k1 =
        if-holds (λ (r : Tcb × List Out). Kept t r.0) (has_flag seg.flags flag_ack)
          (λ _. on_ack-Kept now t seg) (λ _. (refl, refl))

    k2 : Kept r1.0 r2.0
    k2 =
        if-holds (λ (r : Tcb × List Out). Kept r1.0 r.0) (ltb 0 seg.payload)
          (λ _. on_data-Kept r1.0 seg) (λ _. (refl, refl))

    k : Kept t r2.0
    k = (k2.0 ∙ k1.0, k2.1 ∙ k1.1)

-- A block after a handler that keeps state and `active`, or sets them.
abbrev Goes : TcpState → Tcb → Tcb → Type 0
Goes s t t' = (t'.state ≡ s) × (t'.active ≡ t.active)

in_syn_received-Goes :
    (t : Tcb) (seg : Segment)
    → let t' = (in_syn_received t seg).0 in Kept t t' ⊎ Goes established t t'
unfolding in_syn_received
in_syn_received-Goes t seg = ground arith

in_syn_sent-Goes :
    (t : Tcb) (seg : Segment)
    → let t' = (in_syn_sent t seg).0 in
      Kept t t' ⊎ (((t'.state ≡ closed) × (t'.active ≡ false)) ⊎ Goes established t t')
unfolding in_syn_sent
in_syn_sent-Goes t seg = ground arith

in_fin_wait_1-Goes :
    (now : ℕ) (t : Tcb) (seg : Segment)
    → let t' = (in_fin_wait_1 now t seg).0 in
      Kept t t' ⊎ (Goes time_wait t t' ⊎ Goes fin_wait_2 t t')
unfolding in_fin_wait_1 last_fin
in_fin_wait_1-Goes now t seg = ground arith

in_fin_wait_2-Goes :
    (now : ℕ) (t : Tcb) (seg : Segment)
    → let t' = (in_fin_wait_2 now t seg).0 in Kept t t' ⊎ Goes time_wait t t'
unfolding in_fin_wait_2 last_fin
in_fin_wait_2-Goes now t seg = ground arith

in_last_ack-Goes :
    (t : Tcb) (seg : Segment)
    → let t' = (in_last_ack t seg).0 in Kept t t' ⊎ ((t'.state ≡ closed) × (t'.active ≡ false))
unfolding in_last_ack
in_last_ack-Goes t seg = ground arith

Moves-to :
    (s s' : TcpState) (t' : Tcb) → Edge s s' → t'.state ≡ s' → t'.active ≡ is_open s' → Moves s t'
Moves-to s s' t' edge e a = rw e (edge, a)

in_state-Moves :
    (s : TcpState) (now : ℕ) (t : Tcb) (seg : Segment)
    → t.state ≡ s
    → t.active ≡ is_open s
    → Moves s (in_state s now t seg).0
unfolding in_state is_open
in_state-Moves established now t seg e a = in_established-Moves now t seg e a
in_state-Moves closed now t seg e a = Moves-stay closed t t e a (refl, refl)
in_state-Moves listen now t seg e a = Moves-stay listen t t e a (refl, refl)
in_state-Moves close_wait now t seg e a = Moves-stay close_wait t t e a (refl, refl)
in_state-Moves time_wait now t seg e a = Moves-stay time_wait t t e a (refl, refl)
in_state-Moves syn_received now t seg e a = elim (in_syn_received-Goes t seg) [
  | inl k ↦ Moves-stay syn_received t (in_syn_received t seg).0 e a k
  | inr (s', a') ↦ Moves-to syn_received established (in_syn_received t seg).0 accept s' (a' ∙ a)
]
in_state-Moves syn_sent now t seg e a = elim (in_syn_sent-Goes t seg) [
  | inl k ↦ Moves-stay syn_sent t (in_syn_sent t seg).0 e a k
  | inr (inl (s', a')) ↦ Moves-to syn_sent closed (in_syn_sent t seg).0 refuse s' a'
  | inr (inr (s', a')) ↦ Moves-to syn_sent established (in_syn_sent t seg).0 connect s' (a' ∙ a)
]
in_state-Moves fin_wait_1 now t seg e a = elim (in_fin_wait_1-Goes now t seg) [
  | inl k ↦ Moves-stay fin_wait_1 t (in_fin_wait_1 now t seg).0 e a k
  | inr (inl (s', a')) ↦
      Moves-to fin_wait_1 time_wait (in_fin_wait_1 now t seg).0 both_close s' (a' ∙ a)
  | inr (inr (s', a')) ↦
      Moves-to fin_wait_1 fin_wait_2 (in_fin_wait_1 now t seg).0 fin_acked s' (a' ∙ a)
]
in_state-Moves fin_wait_2 now t seg e a = elim (in_fin_wait_2-Goes now t seg) [
  | inl k ↦ Moves-stay fin_wait_2 t (in_fin_wait_2 now t seg).0 e a k
  | inr (s', a') ↦
      Moves-to fin_wait_2 time_wait (in_fin_wait_2 now t seg).0 peer_closes_last s' (a' ∙ a)
]
in_state-Moves last_ack now t seg e a = elim (in_last_ack-Goes t seg) [
  | inl k ↦ Moves-stay last_ack t (in_last_ack t seg).0 e a k
  | inr (s', a') ↦ Moves-to last_ack closed (in_last_ack t seg).0 finish s' a'
]

-- A segment moves a connection along an edge of the state machine, or closes it if it is a reset; and
-- a connection that is marked active exactly while its state is not closed stays so.
pub handle-Edge :
    (now : ℕ) (t : Tcb) (seg : Segment)
    → t.active ≡ is_open t.state
    → let t' = (handle now t seg).0 in
      (((has_flag seg.flags flag_rst ≡ true) × (t'.state ≡ closed))
        ⊎ ((has_flag seg.flags flag_rst ≡ false) × Edge t.state t'.state))
      × (t'.active ≡ is_open t'.state)
unfolding handle is_open
handle-Edge now t seg a = elim (Bool-cases (has_flag seg.flags flag_rst)) [
  | inl h ↦ rw h (inl (refl, refl), refl)
  | inr h ↦ rw h (let (e, a') = in_state-Moves t.state now t seg refl a in (inr (refl, e), a'))
]
