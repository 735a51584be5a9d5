-- ===== src/Crypto/Chacha20/Stream.antt =====
-- The stream cipher byte by byte: each byte is changed by the byte of the key stream at its place,
-- and applied twice it gives the text back.
use vyro_os.Base.{
  ℕ, zero, suc, ◌+◌, ◌-◌, ◌*◌, ◌/◌, ◌%◌, ◌^◌, ◌≤◌, ◌<◌, ◌≡◌, refl, sym, ap, ap₂, ◌∙◌, true, List,
  [], ◌∷◌, ◌++◌, length, get_or, drop, min, arith, bit_xor, ==_iff, ◌==◌, ltb, ltb→lt,
  length-append, length-set, length-drop, get_or-drop, get_or-append_left, get_or-append_right,
}
use vyro_os.Base.Bits.{all_below, all_below-holds}
use vyro_os.Base.Bytes.{AllBytes, AllBytes-get_or}
use native.Mathlib.Decide.{dec_lt}
use vyro_os.Crypto.Chacha20.{
  store32_le, quarter_step, quarter_round, double_round, rounds, load_words, initial_state,
  add_words, chacha20_block, xor_bytes, xor_loop, chacha20_xor,
}

xor_table : all_below 256 (λ b. all_below 256 (λ a. bit_xor (bit_xor a b) b == a)) ≡ true
unfolding all_below
xor_table = refl

byte_table : all_below 256 (λ b. all_below 256 (λ a. ltb (bit_xor a b) 256)) ≡ true
unfolding all_below
byte_table = refl

xor_twice : (a b : ℕ) → a < 256 → b < 256 → bit_xor (bit_xor a b) b ≡ a
xor_twice a b h k = (==_iff _ a).0 (all_below-holds 256 _ a (all_below-holds 256 _ b xor_table k) h)

xor_byte : (a b : ℕ) → a < 256 → b < 256 → bit_xor a b < 256
xor_byte a b h k = ltb→lt _ 256 (all_below-holds 256 _ a (all_below-holds 256 _ b byte_table k) h)

length-quarter_step : (w : List ℕ) (x y z n : ℕ) → length (quarter_step w x y z n) ≡ length w
unfolding quarter_step
length-quarter_step w x y z n = length-set _ z _ ∙ length-set w x _

length-quarter_round : (w : List ℕ) (a b c d : ℕ) → length (quarter_round w a b c d) ≡ length w
unfolding quarter_round
length-quarter_round w a b c d =
    length-quarter_step _ c d b 7
    ∙ length-quarter_step _ a b d 8
    ∙ length-quarter_step _ c d b 12
    ∙ length-quarter_step w a b d 16

length-double_round : (w : List ℕ) → length (double_round w) ≡ length w
unfolding double_round
length-double_round w =
    length-quarter_round _ 3 4 9 14
    ∙ length-quarter_round _ 2 7 8 13
    ∙ length-quarter_round _ 1 6 11 12
    ∙ length-quarter_round _ 0 5 10 15
    ∙ length-quarter_round _ 3 7 11 15
    ∙ length-quarter_round _ 2 6 10 14
    ∙ length-quarter_round _ 1 5 9 13
    ∙ length-quarter_round w 0 4 8 12

length-rounds : (n : ℕ) (w : List ℕ) → length (rounds n w) ≡ length w
unfolding rounds
length-rounds zero w = refl
length-rounds (suc n) w = length-rounds n (double_round w) ∙ length-double_round w

length-add_words : (w s : List ℕ) → length w ≡ length s → length (add_words w s) ≡ 4 * length w
unfolding add_words store32_le
length-add_words [] s e = omega arith
length-add_words (x ∷ w) [] e = absurd (omega arith)
length-add_words (x ∷ w) (y ∷ s) e = omega (arith, length-add_words w s (omega arith))

AllBytes-add_words : (w s : List ℕ) → AllBytes (add_words w s)
unfolding add_words store32_le
AllBytes-add_words [] s = tt
AllBytes-add_words (x ∷ w) [] = tt
AllBytes-add_words (x ∷ w) (y ∷ s) =
    (omega arith, (omega arith, (omega arith, (omega arith, AllBytes-add_words w s))))

-- A block is 64 bytes, whatever the key and the nonce.
pub length-chacha20_block :
    (key : List ℕ) (counter : ℕ) (nonce : List ℕ) → length (chacha20_block key counter nonce) ≡ 64
unfolding chacha20_block initial_state load_words
length-chacha20_block key counter nonce =
    length-add_words (rounds 10 (initial_state key counter nonce)) (initial_state key counter nonce)
      (length-rounds 10 (initial_state key counter nonce))
    ∙ ap (λ n. 4 * n) (length-rounds 10 (initial_state key counter nonce))

pub AllBytes-chacha20_block :
    (key : List ℕ) (counter : ℕ) (nonce : List ℕ) → AllBytes (chacha20_block key counter nonce)
unfolding chacha20_block
AllBytes-chacha20_block key counter nonce =
    AllBytes-add_words (rounds 10 (initial_state key counter nonce))
      (initial_state key counter nonce)

-- Lists of one length with the same entries are the same.
entries_eq :
    (xs ys : List ℕ)
    → length xs ≡ length ys
    → ((i : ℕ) → i < length xs → get_or xs i 0 ≡ get_or ys i 0)
    → xs ≡ ys
entries_eq [] [] e h = refl
entries_eq [] (y ∷ ys) e h = absurd (omega arith)
entries_eq (x ∷ xs) [] e h = absurd (omega arith)
entries_eq (x ∷ xs) (y ∷ ys) e h =
    ap₂ ◌∷◌ (h 0 (omega arith)) (entries_eq xs ys (omega arith) (λ i lt. h (suc i) (omega arith)))

length-xor_bytes : (d b : List ℕ) → length (xor_bytes d b) ≡ min (length d) (length b)
unfolding xor_bytes
length-xor_bytes [] b = omega arith
length-xor_bytes (c ∷ cs) [] = omega arith
length-xor_bytes (c ∷ cs) (b ∷ bs) = omega (arith, length-xor_bytes cs bs)

get_or-xor_bytes :
    (d b : List ℕ) (i : ℕ)
    → i < length d
    → i < length b
    → get_or (xor_bytes d b) i 0 ≡ bit_xor (get_or d i 0) (get_or b i 0)
unfolding xor_bytes
get_or-xor_bytes [] b i h k = absurd (omega arith)
get_or-xor_bytes (c ∷ cs) [] i h k = absurd (omega arith)
get_or-xor_bytes (c ∷ cs) (b ∷ bs) zero h k = refl
get_or-xor_bytes (c ∷ cs) (b ∷ bs) (suc i) h k =
    get_or-xor_bytes cs bs i (omega arith) (omega arith)

-- The key stream: byte `i` of the blocks from `counter` on.
pub stream : List ℕ → ℕ → List ℕ → ℕ → ℕ
stream key counter nonce i =
    get_or (chacha20_block key ((counter + i / 64) % 2 ^ 32) nonce) (i % 64) 0

module _ (key nonce : List ℕ) where
  length-xor_loop :
      (n counter : ℕ) (d : List ℕ)
      → length d ≤ n
      → length (xor_loop n key counter nonce d) ≡ length d
  unfolding xor_loop
  length-xor_loop zero counter [] h = refl
  length-xor_loop zero counter (c ∷ cs) h = absurd (omega arith)
  length-xor_loop (suc n) counter [] h = refl
  length-xor_loop (suc n) counter (c ∷ cs) h = omega (
    arith,
    length-append (xor_bytes (c ∷ cs) (chacha20_block key counter nonce))
        (xor_loop n key ((counter + 1) % 2 ^ 32) nonce (drop 64 (c ∷ cs))),
    length-xor_bytes (c ∷ cs) (chacha20_block key counter nonce),
    length-chacha20_block key counter nonce,
    length-drop 64 (c ∷ cs),
    length-xor_loop n ((counter + 1) % 2 ^ 32) (drop 64 (c ∷ cs))
        (omega (arith, length-drop 64 (c ∷ cs))),
  )

  xor_loop_at :
      (n counter : ℕ) (d : List ℕ) (i : ℕ)
      → counter < 2 ^ 32
      → length d ≤ n
      → i < length d
      → get_or (xor_loop n key counter nonce d) i 0
        ≡ bit_xor (get_or d i 0) (stream key counter nonce i)
  unfolding xor_loop stream
  xor_loop_at zero counter d i hc h k = absurd (omega arith)
  xor_loop_at (suc n) counter [] i hc h k = absurd (omega arith)
  xor_loop_at (suc n) counter (c ∷ cs) i hc h k = elim (dec_lt i 64) [
    | yes lt ↦
        get_or-append_left (xor_bytes (c ∷ cs) (chacha20_block key counter nonce)) _ i 0
          (omega (arith, length-xor_bytes (c ∷ cs) (chacha20_block key counter nonce), block))
        ∙ get_or-xor_bytes (c ∷ cs) (chacha20_block key counter nonce) i k (omega (arith, block))
        ∙ (let e : counter ≡ (counter + i / 64) % 2 ^ 32 = omega arith in
            let e' : i ≡ i % 64 = omega arith in
            ap₂ (λ m j. bit_xor (get_or (c ∷ cs) i 0) (get_or (chacha20_block key m nonce) j 0)) e
              e')
    | no ge ↦
        let first' = xor_bytes (c ∷ cs) (chacha20_block key counter nonce) in
        let full : length first' ≡ 64 =
          omega (arith, length-xor_bytes (c ∷ cs) (chacha20_block key counter nonce), block) in
        let at : length first' + (i - 64) ≡ i = omega (arith, full) in
        ap
          (λ j.
            get_or (first' ++ xor_loop n key ((counter + 1) % 2 ^ 32) nonce (drop 64 (c ∷ cs))) j 0)
          (sym at)
        ∙ get_or-append_right first' _ (i - 64) 0
        ∙ xor_loop_at n ((counter + 1) % 2 ^ 32) (drop 64 (c ∷ cs)) (i - 64) (omega arith)
            (omega (arith, length-drop 64 (c ∷ cs))) (omega (arith, length-drop 64 (c ∷ cs)))
        ∙ (let e : ((counter + 1) % 2 ^ 32 + (i - 64) / 64) % 2 ^ 32 ≡ (counter + i / 64) % 2 ^ 32 =
              omega arith in
            let e' : (i - 64) % 64 ≡ i % 64 = omega arith in
            let back : 64 + (i - 64) ≡ i = omega arith in
            ap₂ bit_xor (get_or-drop 64 (i - 64) (c ∷ cs) 0 ∙ ap (λ j. get_or (c ∷ cs) j 0) back)
              (ap₂ (λ m j. get_or (chacha20_block key m nonce) j 0) e e'))
  ]
    where
      block : length (chacha20_block key counter nonce) ≡ 64
      block = length-chacha20_block key counter nonce

stream-byte :
    (key : List ℕ) (counter : ℕ) (nonce : List ℕ) (i : ℕ) → stream key counter nonce i < 256
unfolding stream
stream-byte key counter nonce i =
    AllBytes-get_or (chacha20_block key ((counter + i / 64) % 2 ^ 32) nonce) (i % 64)
      (AllBytes-chacha20_block key ((counter + i / 64) % 2 ^ 32) nonce)

pub length-chacha20_xor :
    (key : List ℕ) (counter : ℕ) (nonce data' : List ℕ)
    → length (chacha20_xor key counter nonce data') ≡ length data'
unfolding chacha20_xor
length-chacha20_xor key counter nonce data' =
    length-xor_loop key nonce (length data') counter data' (omega arith)

-- Byte `i` of the output is byte `i` of the input, changed by byte `i` of the key stream: byte
-- `i % 64` of the block of number `counter + i / 64`, as a 32-bit number.
pub chacha20_xor_at :
    (key : List ℕ) (counter : ℕ) (nonce data' : List ℕ) (i : ℕ)
    → counter < 2 ^ 32
    → i < length data'
    → get_or (chacha20_xor key counter nonce data') i 0
      ≡ bit_xor
          (get_or data' i 0)
          (get_or (chacha20_block key ((counter + i / 64) % 2 ^ 32) nonce) (i % 64) 0)
unfolding chacha20_xor stream
chacha20_xor_at key counter nonce data' i hc h =
    xor_loop_at key nonce (length data') counter data' i hc (omega arith) h

-- Applied twice with one key, nonce and counter, the cipher gives a byte string back.
pub chacha20_xor_twice :
    (key : List ℕ) (counter : ℕ) (nonce data' : List ℕ)
    → counter < 2 ^ 32
    → AllBytes data'
    → chacha20_xor key counter nonce (chacha20_xor key counter nonce data') ≡ data'
unfolding stream
chacha20_xor_twice key counter nonce data' hc bytes =
    let once = chacha20_xor key counter nonce data' in
    let same : length once ≡ length data' = length-chacha20_xor key counter nonce data' in
    let again : length (chacha20_xor key counter nonce once) ≡ length once =
      length-chacha20_xor key counter nonce once in
    entries_eq (chacha20_xor key counter nonce once) data' (again ∙ same) (λ i lt.
      chacha20_xor_at key counter nonce once i hc (omega (arith, again))
      ∙ ap (λ c. bit_xor c (stream key counter nonce i))
          (chacha20_xor_at key counter nonce data' i hc (omega (arith, again, same)))
      ∙ xor_twice (get_or data' i 0) (stream key counter nonce i) (AllBytes-get_or data' i bytes)
          (stream-byte key counter nonce i))
