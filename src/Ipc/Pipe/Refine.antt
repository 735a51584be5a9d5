-- ===== src/Ipc/Pipe/Refine.antt =====
-- A pipe is a queue of at most 1024 bytes: what a write appends and what a read takes.
use mathlib.Core.List.{append-nil, append_assoc}
use native.Mathlib.Numerals.{add-one}
use vyro_os.Base.{
  ℕ, zero, suc, ◌+◌, ◌-◌, ◌%◌, ◌≤◌, ◌<◌, min, ◌≡◌, refl, ap, ◌∙◌, sym, List, [], ◌∷◌, ◌++◌, arith,
  length, take, drop, get_or, length-set, lt→ltb, le→ltb,
}
use native.Mathlib.Decide.{dec_lt}
use vyro_os.Base.Text.{take-suc, take-nil}
use vyro_os.Base.Ring.{window, length-window, window_of_pos, window-set}
use vyro_os.Ipc.Pipe.{Pipe, pipe_buf_size, push_byte, pop_byte, write_loop, read_loop}

-- The positions lie in the buffer, and the write position is `count` steps after the read position.
pub record IsValid (p : Pipe) : Type 0 where
  pub storage : length p.buf ≡ pipe_buf_size
  pub read_in : p.read_pos < pipe_buf_size
  pub count_in : p.count ≤ pipe_buf_size
  pub write_at : p.write_pos ≡ (p.read_pos + p.count) % pipe_buf_size

-- the bytes in the pipe, oldest first
abbrev pub contents : Pipe → List ℕ
contents p = window p.buf pipe_buf_size p.read_pos p.count

pub push_byte-IsValid :
    {p : Pipe} (b : ℕ) → IsValid p → p.count < pipe_buf_size → IsValid (push_byte p b)
unfolding push_byte
push_byte-IsValid {p} b v h = omega (arith, length-set p.buf p.write_pos b)

pub pop_byte-IsValid : {p : Pipe} → IsValid p → 0 < p.count → IsValid (pop_byte p)
unfolding pop_byte
pop_byte-IsValid {p} v h = omega arith

contents-push_byte :
    {p : Pipe} (b : ℕ)
    → IsValid p
    → p.count < pipe_buf_size
    → contents (push_byte p b) ≡ contents p ++ (b ∷ [])
unfolding push_byte
contents-push_byte {p} b v h = rw add-one (
    window-set p.buf pipe_buf_size b p.count p.read_pos p.write_pos (omega arith) v.read_in h
      v.write_at)

contents-pop_byte :
    (p : Pipe) → 0 < p.count → contents p ≡ get_or p.buf p.read_pos 0 ∷ contents (pop_byte p)
unfolding pop_byte
contents-pop_byte p h = window_of_pos p.buf pipe_buf_size p.read_pos p.count h

write_loop_room :
    (p : Pipe) (b : ℕ) (bs : List ℕ) (w : ℕ)
    → p.count < pipe_buf_size
    → write_loop p (b ∷ bs) w ≡ write_loop (push_byte p b) bs (w + 1)
unfolding write_loop
write_loop_room p b bs w h = rw (lt→ltb _ _ h, write_loop)

write_loop_full :
    (p : Pipe) (bs : List ℕ) (w : ℕ) → p.count ≡ pipe_buf_size → write_loop p bs w ≡ (p, w)
unfolding write_loop
write_loop_full p [] w h = refl
write_loop_full p (b ∷ bs) w h = rw (le→ltb p.count pipe_buf_size (omega arith), write_loop)

count-push_byte : (p : Pipe) (b : ℕ) → (push_byte p b).count ≡ p.count + 1
unfolding push_byte
count-push_byte p b = refl

-- A write appends as many of the bytes as there is room for, and says how many.
pub write_loop_lem :
    (p : Pipe) (bs : List ℕ) (w : ℕ)
    → IsValid p
    → IsValid (write_loop p bs w).0
      × (contents (write_loop p bs w).0 ≡ contents p ++ take (pipe_buf_size - p.count) bs)
      × ((write_loop p bs w).1 ≡ w + min (length bs) (pipe_buf_size - p.count))
write_loop_lem p [] w v =
    unfold write_loop in (v, sym (take-nil (pipe_buf_size - p.count) (contents p)), omega arith)
write_loop_lem p (b ∷ bs) w v = elim (dec_lt p.count pipe_buf_size) [
  | yes room ↦
      let (iv, ic, iw) = write_loop_lem (push_byte p b) bs (w + 1) (push_byte-IsValid b v room) in
      rw (write_loop_room p b bs w room)
        (iv, ic ∙ appended room, omega (arith, iw, count-push_byte p b))
  | no full ↦
      let e : p.count ≡ pipe_buf_size = omega arith in
      let spent : 0 ≡ pipe_buf_size - p.count = omega arith in
      rw (write_loop_full p (b ∷ bs) w e) (
        v,
        sym (append-nil (contents p)) ∙ ap (λ k. contents p ++ take k (b ∷ bs)) spent,
        omega arith,
      )
]
  where
    appended :
        p.count < pipe_buf_size
        → contents (push_byte p b) ++ take (pipe_buf_size - (push_byte p b).count) bs
          ≡ contents p ++ take (pipe_buf_size - p.count) (b ∷ bs)
    appended room =
        let k : pipe_buf_size - (push_byte p b).count ≡ pipe_buf_size - p.count - 1 =
          omega (arith, count-push_byte p b) in
        rw (k, contents-push_byte b v room, append_assoc)
          (ap (λ r. contents p ++ r) (sym (take-suc (pipe_buf_size - p.count) b bs (omega arith))))

read_loop_more :
    (p : Pipe) (n : ℕ)
    → 0 < p.count
    → read_loop p (suc n)
      ≡ ((read_loop (pop_byte p) n).0, get_or p.buf p.read_pos 0 ∷ (read_loop (pop_byte p) n).1)
unfolding read_loop
read_loop_more p n h = rw (lt→ltb _ _ h, read_loop)

read_loop_empty : (p : Pipe) (n : ℕ) → p.count ≡ 0 → read_loop p (suc n) ≡ (p, [])
unfolding read_loop
read_loop_empty p n h = rw (le→ltb 0 p.count (omega arith), read_loop)

-- A read takes the oldest bytes, at most `n`, and leaves the rest in order.
pub read_loop_lem :
    (p : Pipe) (n : ℕ)
    → IsValid p
    → IsValid (read_loop p n).0
      × ((read_loop p n).1 ≡ take n (contents p))
      × (contents (read_loop p n).0 ≡ drop n (contents p))
read_loop_lem p zero v = unfold read_loop in (v, refl, refl)
read_loop_lem p (suc n) v = elim (dec_lt 0 p.count) [
  | yes more ↦
      let (iv, it, id) = read_loop_lem (pop_byte p) n (pop_byte-IsValid v more) in
      rw (read_loop_more p n more, contents-pop_byte p more)
        (iv, ap (λ r. get_or p.buf p.read_pos 0 ∷ r) it, id)
  | no empty ↦
      let e : p.count ≡ 0 = omega arith in rw (read_loop_empty p n e) (v, rw e refl, rw e refl)
]

pub in_use-write_loop : (p : Pipe) (bs : List ℕ) (w : ℕ) → (write_loop p bs w).0.in_use ≡ p.in_use
unfolding write_loop push_byte
in_use-write_loop p [] w = refl
in_use-write_loop p (b ∷ bs) w = ground (arith, in_use-write_loop (push_byte p b) bs (w + 1))

pub in_use-read_loop : (p : Pipe) (n : ℕ) → (read_loop p n).0.in_use ≡ p.in_use
unfolding read_loop pop_byte
in_use-read_loop p zero = refl
in_use-read_loop p (suc n) = ground (arith, in_use-read_loop (pop_byte p) n)

pub count_of_contents : (p : Pipe) → contents p ≡ [] → p.count ≡ 0
count_of_contents p e = sym (length-window p.buf pipe_buf_size p.read_pos p.count) ∙ ap length e
