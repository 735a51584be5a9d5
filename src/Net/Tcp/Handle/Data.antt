-- ===== src/Net/Tcp/Handle/Data.antt =====
-- The receiving side: the bytes that a segment adds to the receive buffer.
use mathlib.Core.List.{append-nil, append_assoc}
use vyro_os.Base.{
  if-holds, length, length-take, length-append, take, min, ◌<◌, ℕ, ◌+◌, ◌-◌, ◌%◌, ◌^◌, ◌≡◌, ◌≢◌,
  ◌⊎◌, inl, inr, refl, sym, ◌∙◌, ◌&&◌, List, [], ◌∷◌, ◌++◌, arith, Bool-cases, ltb, ◌==◌, ==_iff,
  if◌then◌else◌,
}
use vyro_os.Net.Tcp.Tcb.{Tcb, tcp_buf_size, after}
use vyro_os.Net.Tcp.Handle.{Segment, ack_out, deliver, deliver_kept, keep_aside, on_data}

-- `t'` has `d` more in its receive buffer, and expects the byte behind it.
abbrev pub Delivers : Tcb → List ℕ → Tcb → Type 0
Delivers t d t' = (t'.rcv_buf ≡ t.rcv_buf ++ d) × (t'.rcv_nxt ≡ (t.rcv_nxt + length d) % 2 ^ 32)

deliver_lem :
    (t : Tcb) (bytes : List ℕ)
    → let n = min (length bytes) (tcp_buf_size - length t.rcv_buf) in
      Delivers t (take n bytes) (deliver t bytes) × ((deliver t bytes).ooo_buf ≡ t.ooo_buf)
unfolding deliver
deliver_lem t bytes =
    let n = min (length bytes) (tcp_buf_size - length t.rcv_buf) in
    ((refl, omega (arith, length-take n bytes)), refl)

-- What becomes of the bytes kept aside when `n` bytes of a segment are taken: when they start at the
-- byte expected next, `m` of them follow, as many as room is left for, and none is kept any longer;
-- otherwise none follows, and they are kept.
abbrev pub Follows : Tcb → ℕ → ℕ → Tcb → Type 0
Follows t n m t' =
    ((t.ooo_seq ≡ (t.rcv_nxt + n) % 2 ^ 32)
      × (m ≡ min (length t.ooo_buf) (tcp_buf_size - length t.rcv_buf - n))
      × (t'.ooo_buf ≡ []))
    ⊎ ((t.ooo_seq ≢ (t.rcv_nxt + n) % 2 ^ 32) × (m ≡ 0) × (t'.ooo_buf ≡ t.ooo_buf))

nothing_left : (xs : List ℕ) → length xs ≡ 0 → xs ≡ []
nothing_left [] e = refl
nothing_left (x ∷ xs) e = absurd (omega arith)

deliver_kept_lem :
    (t : Tcb)
    → t.rcv_nxt < 2 ^ 32
    → (m : ℕ) × Follows t 0 m (deliver_kept t) × Delivers t (take m t.ooo_buf) (deliver_kept t)
unfolding deliver_kept deliver
deliver_kept_lem t small =
    let none_taken : t.rcv_nxt ≡ (t.rcv_nxt + 0) % 2 ^ 32 = omega arith in
    elim (Bool-cases (ltb 0 (length t.ooo_buf) && (t.ooo_seq == t.rcv_nxt))) [
      | inl h ↦ rw h (
          let (sent, _) = deliver_lem t t.ooo_buf in
          let here : t.ooo_seq ≡ t.rcv_nxt = ground arith in
          (
            min (length t.ooo_buf) (tcp_buf_size - length t.rcv_buf),
            inl (here ∙ none_taken, omega arith, refl),
            (sent.0, sent.1),
          ))
      | inr h ↦ rw h (
        0,
        elim (Bool-cases (t.ooo_seq == t.rcv_nxt)) [
          | inl here ↦
              let none_kept : length t.ooo_buf ≡ 0 = ground arith in
              inl (
                (==_iff t.ooo_seq t.rcv_nxt).0 here ∙ none_taken,
                omega arith,
                nothing_left t.ooo_buf none_kept,
              )
          | inr away ↦ inr (
            (λ e. let off : t.ooo_seq ≢ t.rcv_nxt = ground arith in off (e ∙ sym none_taken)),
            refl,
            refl,
          )
        ],
        (sym (append-nil t.rcv_buf), omega arith),
      )
    ]

keep_aside_same :
    (t : Tcb) (seg : Segment)
    → ((keep_aside t seg).rcv_buf ≡ t.rcv_buf) × ((keep_aside t seg).rcv_nxt ≡ t.rcv_nxt)
unfolding keep_aside
keep_aside_same t seg = ground arith

in_order_lem :
    (t : Tcb) (d : List ℕ)
    → let n = min (length d) (tcp_buf_size - length t.rcv_buf) in
      let t' = deliver_kept (deliver t d) in
      (m : ℕ) × Follows t n m t' × Delivers t (take n d ++ take m t.ooo_buf) t'
unfolding deliver
in_order_lem t d =
    let k = t.ooo_buf in
    let n = min (length d) (tcp_buf_size - length t.rcv_buf) in
    let (m, then', (buf, nxt)) = deliver_kept_lem (deliver t d) (omega arith) in
    let own : length (take n d) ≡ n = omega (arith, length-take n d) in
    let used = length-append t.rcv_buf (take n d) in
    let at : ((t.rcv_nxt + n) % 2 ^ 32 + 0) % 2 ^ 32 ≡ (t.rcv_nxt + n) % 2 ^ 32 = omega arith in
    (
      m,
      elim then' [
        | inl (here, size, cleared) ↦ inl (here ∙ at, omega (arith, size, used, own), cleared)
        | inr (away, z, kept) ↦ inr ((λ e. away (e ∙ sym at)), z, kept)
      ],
      (
        buf ∙ append_assoc t.rcv_buf (take n d) (take m k),
        nxt ∙ omega (arith, own, length-append (take n d) (take m k)),
      ),
    )

out_of_order_same :
    (t : Tcb) (seg : Segment)
    → let t' = if after seg.seq t.rcv_nxt then keep_aside t seg else t in
      (t'.rcv_buf ≡ t.rcv_buf) × (t'.rcv_nxt ≡ t.rcv_nxt)
out_of_order_same t seg =
    if-holds (λ (t' : Tcb). (t'.rcv_buf ≡ t.rcv_buf) × (t'.rcv_nxt ≡ t.rcv_nxt))
      (after seg.seq t.rcv_nxt) (λ _. keep_aside_same t seg) (λ _. (refl, refl))

-- A segment is answered by an acknowledgement of the byte expected next. One that starts at the byte
-- expected adds as many of its bytes to the receive buffer as there is room for, and behind them,
-- only if the bytes kept aside start at the byte expected then, as many of those as there is room for
-- still (they are not kept any longer), and moves the byte expected on by as many; any other leaves
-- the buffer and the byte expected as they are.
pub on_data_lem :
    (t : Tcb) (seg : Segment)
    → let (t', os) = on_data t seg in
      let n = min (length seg.data') (tcp_buf_size - length t.rcv_buf) in
      (os ≡ ack_out t' ∷ [])
      × (((seg.seq ≡ t.rcv_nxt)
            × ((m : ℕ) × Follows t n m t' × Delivers t (take n seg.data' ++ take m t.ooo_buf) t'))
          ⊎ ((seg.seq ≢ t.rcv_nxt) × (t'.rcv_buf ≡ t.rcv_buf) × (t'.rcv_nxt ≡ t.rcv_nxt)))
unfolding on_data
on_data_lem t seg = elim (Bool-cases (seg.seq == t.rcv_nxt)) [
  | inl h ↦ rw h (refl, inl ((==_iff seg.seq t.rcv_nxt).0 h, in_order_lem t seg.data'))
  | inr h ↦ rw h (refl, inr (let o = out_of_order_same t seg in (ground arith, o.0, o.1)))
]

-- The sending side is not touched.
pub on_data_send :
    (t : Tcb) (seg : Segment)
    → let t' = (on_data t seg).0 in
      (t'.state ≡ t.state) × (t'.snd_nxt ≡ t.snd_nxt) × (t'.snd_una ≡ t.snd_una)
unfolding on_data deliver_kept keep_aside deliver
on_data_send t seg = ground arith
