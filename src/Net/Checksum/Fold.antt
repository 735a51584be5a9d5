-- ===== src/Net/Checksum/Fold.antt =====
-- The loops of the checksum: they end, and what they compute.
use vyro_os.Base.{
  ℕ, zero, suc, ◌+◌, ◌*◌, ◌/◌, ◌%◌, ◌^◌, ◌≤◌, ◌<◌, ◌≡◌, ◌⊎◌, refl, sym, ap, ◌∙◌, List, [], ◌∷◌,
  length, ==_iff, ne→==, arith,
}
use native.Mathlib.Decide.{dec_lt}
use vyro_os.Base.Bytes.{AllBytes, AllBytes-get_or}
use vyro_os.Net.Checksum.{add_words, fold, finish, net_checksum, pseudo_header, udp_checksum}

fold_done : (n sum : ℕ) → sum < 65536 → fold n sum ≡ sum
unfolding fold
fold_done zero sum lt = refl
fold_done (suc n) sum lt = rw ((==_iff (sum / 65536) 0).1 (omega arith), fold)

-- One round.
abbrev once : ℕ → ℕ
once sum = sum % 65536 + sum / 65536

fold_step : (n sum : ℕ) → fold (suc n) sum ≡ fold n (once sum)
unfolding fold
fold_step n sum = elim (dec_lt sum 65536) [
  | yes lt ↦
      fold_done (suc n) sum lt ∙ sym (fold_done n sum lt) ∙ ap (fold n) {y = once sum} (omega arith)
  | no ge ↦ rw (ne→== (sum / 65536) 0 (omega arith), fold)
]

fold_two : (n sum : ℕ) → sum < 2 ^ 32 → fold (suc (suc n)) sum ≡ once (once sum)
fold_two n sum small =
    fold_step (suc n) sum ∙ fold_step n (once sum) ∙ fold_done n (once (once sum)) (omega arith)

-- Two rounds bring a 32-bit sum below 2 ^ 16, where the loop stops: more rounds change nothing. The
-- sum keeps its remainder by 65535, and is 0 only if it was.
pub fold_lem :
    (n sum : ℕ)
    → sum < 2 ^ 32
    → (fold (suc (suc n)) sum ≡ fold 2 sum)
      × (fold 2 sum < 65536)
      × (fold 2 sum % 65535 ≡ sum % 65535)
      × ((sum ≡ 0) ⊎ (0 < fold 2 sum))
fold_lem n sum small =
    let e = fold_two 0 sum small in
    (fold_two n sum small ∙ sym e, omega (arith, e), omega (arith, e), omega (arith, e))

-- The sum of the words without wrap-around, for so few bytes that nothing wraps.
abbrev pub words : List ℕ → ℕ
words [] = 0
words (b ∷ []) = b * 256
words (a ∷ b ∷ bs) = a * 256 + b + words bs

words_bound : (bs : List ℕ) → AllBytes bs → 2 * words bs ≤ 65535 * (length bs + 1)
words_bound [] h = omega arith
words_bound (b ∷ []) h = let l = h.0 in omega arith
words_bound (a ∷ b ∷ bs) (ha, (hb, h)) = omega (arith, words_bound bs h)

add_words_lem :
    (sum : ℕ) (bs : List ℕ) → sum + words bs < 2 ^ 32 → add_words sum bs ≡ sum + words bs
unfolding add_words
add_words_lem sum [] lt = omega arith
add_words_lem sum (b ∷ []) lt = omega arith
add_words_lem sum (a ∷ b ∷ bs) lt =
    ap (λ s. add_words s bs) {x = (sum + (a * 256 + b)) % 2 ^ 32} {y = sum + (a * 256 + b)}
      (omega arith)
    ∙ add_words_lem (sum + (a * 256 + b)) bs (omega arith)
    ∙ omega arith

-- The checksum of up to 65536 bytes is a 16-bit number, and a receiver that adds it to the words of
-- the data gets a multiple of 65535.
pub net_checksum_lem :
    (bs : List ℕ)
    → AllBytes bs
    → length bs ≤ 65536
    → (net_checksum bs < 65536) × ((words bs + net_checksum bs) % 65535 ≡ 0)
unfolding net_checksum finish
net_checksum_lem bs h few =
    let small : words bs < 2 ^ 32 = omega (arith, words_bound bs h) in
    let sum : add_words 0 bs ≡ words bs = add_words_lem 0 bs (omega arith) ∙ omega arith in
    let (_, low, rest, _) = fold_lem 0 (words bs) small in rw sum (omega arith, omega arith)

pseudo_header_lem :
    (src_ip dst_ip : List ℕ) (protocol len : ℕ)
    → AllBytes src_ip
    → AllBytes dst_ip
    → pseudo_header src_ip dst_ip protocol len ≤ 262140 + protocol + len
unfolding pseudo_header
pseudo_header_lem src_ip dst_ip protocol len hs hd = omega (
  arith,
  AllBytes-get_or src_ip 0 hs,
  AllBytes-get_or src_ip 1 hs,
  AllBytes-get_or src_ip 2 hs,
  AllBytes-get_or src_ip 3 hs,
  AllBytes-get_or dst_ip 0 hd,
  AllBytes-get_or dst_ip 1 hd,
  AllBytes-get_or dst_ip 2 hd,
  AllBytes-get_or dst_ip 3 hd,
)

-- The UDP checksum of up to 65535 bytes is a 16-bit number, never the 0 that stands for none, and
-- makes the sum of pseudo header and words a multiple of 65535.
pub udp_checksum_lem :
    (src_ip dst_ip bytes : List ℕ)
    → AllBytes src_ip
    → AllBytes dst_ip
    → AllBytes bytes
    → length bytes ≤ 65535
    → let cs = udp_checksum src_ip dst_ip bytes in
      (0 < cs)
      × (cs < 65536)
      × ((pseudo_header src_ip dst_ip 17 (length bytes) + words bytes + cs) % 65535 ≡ 0)
unfolding udp_checksum finish
udp_checksum_lem src_ip dst_ip bytes hs hd h few =
    let total = pseudo_header src_ip dst_ip 17 (length bytes) + words bytes in
    let small : total < 2 ^ 32 =
      omega (arith, words_bound bytes h, pseudo_header_lem src_ip dst_ip 17 (length bytes) hs hd) in
    let (_, low, rest, _) = fold_lem 0 total small in
    rw (add_words_lem (pseudo_header src_ip dst_ip 17 (length bytes)) bytes small)
      (ground arith, ground arith, ground arith)
