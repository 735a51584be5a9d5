-- ===== src/Ipc/Messages/Order.antt =====
-- Messages sent and received: the counts, and what comes out.
use vyro_os.Base.{
  ℕ, zero, suc, [], ◌∷◌, ◌+◌, ◌≤◌, ◌≡◌, ◌⊎◌, inl, inr, refl, ap, ◌∙◌, true, false, none, some, List,
  set, take, length, get_elem?, arith, ℤ, pos, minus_one,
}
use vyro_os.Base.Slots.{
  first, count_of, first_lem, first-Found, first-set_new, count_of-set, NoneOf,
}
use vyro_os.Base.Text.{c_str, c_str-copy_str}
use vyro_os.Ipc.Messages.{Message, payload_size, is_free, filled, mq_send, mq_recv, mq_count}

-- Every payload has its 120 bytes.
abbrev pub IsQueue : List Message → Type 0
IsQueue [] = Unit
IsQueue (m ∷ ms) = (payload_size ≤ length m.payload) × IsQueue ms

IsQueue-at :
    (ms : List Message) (i : ℕ) (m : Message)
    → IsQueue ms
    → get_elem? ms i ≡ some m
    → payload_size ≤ length m.payload
IsQueue-at [] i m q e = absurd (ground arith)
IsQueue-at (a ∷ ms) zero m q e = let e' : a ≡ m = ground arith in rw (← e') q.0
IsQueue-at (a ∷ ms) (suc i) m q e = IsQueue-at ms i m q.1 e

-- Sending fails with -1 and no change exactly where no slot is free; otherwise one message more
-- waits.
pub mq_send_lem :
    (mq : List Message) (id : ℤ) (payload : List ℕ)
    → let (mq', r) = mq_send mq id payload in
      (NoneOf is_free mq × (mq' ≡ mq) × (r ≡ minus_one))
      ⊎ ((mq_count mq' ≡ mq_count mq + 1) × (r ≡ pos 0))
unfolding mq_send mq_count
mq_send_lem mq id payload = elim (first_lem is_free mq) [
  | inl (e, full) ↦ rw (e, mq_send) (inl (full, refl, refl))
  | inr (i, m, (at, free, e)) ↦ rw (e, mq_send) (inr (more i m at free, refl))
]
  where
    more :
        (i : ℕ) (m : Message)
        → get_elem? mq i ≡ some m
        → is_free m ≡ true
        → count_of (λ m. m.alive) (set mq i (filled m id payload)) ≡ count_of (λ m. m.alive) mq + 1
    more i m at free = ground (arith, count_of-set (λ m. m.alive) mq i m (filled m id payload) at)

-- Receiving gives none and changes nothing where no message waits; otherwise it gives the string of
-- a slot in use, and one message less waits.
pub mq_recv_lem :
    (mq : List Message)
    → let (mq', r) = mq_recv mq in
      (NoneOf (λ m. m.alive) mq × (mq' ≡ mq) × (r ≡ none))
      ⊎ ((i : ℕ) × (m : Message) × (get_elem? mq i ≡ some m)
          × (m.alive ≡ true)
          × (r ≡ some (c_str m.payload))
          × (mq_count mq' + 1 ≡ mq_count mq))
unfolding mq_recv mq_count
mq_recv_lem mq = elim (first_lem (λ m. m.alive) mq) [
  | inl (e, empty) ↦ rw (e, mq_recv) (inl (empty, refl, refl))
  | inr (i, m, (at, live, e)) ↦
      rw (e, mq_recv)
        (inr (
          i,
          m,
          at,
          live,
          refl,
          ground (arith, count_of-set (λ m. m.alive) mq i m (record m { alive = false }) at, live),
        ))
]

-- Where no message waits, one that is sent is what is received next, cut to 119 bytes.
pub mq_recv-send :
    (mq : List Message) (i : ℕ) (m : Message) (id : ℤ) (payload : List ℕ)
    → IsQueue mq
    → first (λ m. m.alive) mq ≡ none
    → first is_free mq ≡ some (i, m)
    → (mq_recv (mq_send mq id payload).0).1 ≡ some (take 119 (c_str payload))
unfolding mq_send filled mq_recv
mq_recv-send mq i m id payload q empty e =
    rw (e, mq_send)
      (received (set mq i (filled m id payload)) i (filled m id payload) (
          first-set_new (λ m. m.alive) mq i m (filled m id payload) empty
            (first-Found is_free mq i m e).0 refl)
        ∙ ap some (
            c_str-copy_str m.payload payload payload_size (omega arith)
              (IsQueue-at mq i m q (first-Found is_free mq i m e).0)))
  where
    received :
        (mq : List Message) (i : ℕ) (m : Message)
        → first (λ m. m.alive) mq ≡ some (i, m)
        → (mq_recv mq).1 ≡ some (c_str m.payload)
    received mq i m e = rw (e, mq_recv) refl
