-- ===== src/Net/Checksum.antt =====
-- The checksum of the internet protocols: `net_checksum` in kernel/net.c, and the same loops in
-- `tcp_checksum` of kernel/tcp.c and `udp_checksum` of kernel/udp.c behind a pseudo header.
pub mod Fold
pub mod Tests
use vyro_os.Base.{
  ℕ, zero, suc, ◌+◌, ◌-◌, ◌*◌, ◌/◌, ◌%◌, ◌^◌, true, false, List, [], ◌∷◌, length, get_or, ◌==◌,
  if◌then◌else◌,
}

-- `while (len > 1)` and `if (len == 1)`, on a `uint32_t`: the 16-bit words, the higher byte first,
-- and a last odd byte as the higher one of a word.
pub add_words : ℕ → List ℕ → ℕ
add_words sum [] = sum
add_words sum (b ∷ []) = (sum + b * 256) % 2 ^ 32
add_words sum (a ∷ b ∷ bs) = add_words ((sum + (a * 256 + b)) % 2 ^ 32) bs

-- `while (sum >> 16)`, for `n` rounds at most.
pub fold : ℕ → ℕ → ℕ
fold zero sum = sum
fold (suc n) sum = elim (sum / 65536 == 0) [
  | true ↦ sum
  | false ↦ fold n (sum % 65536 + sum / 65536)
]

-- `(uint16_t)(~sum)` after the loop, which ends after two rounds
pub finish : ℕ → ℕ
unfolding fold
finish sum = 65535 - fold 2 sum

pub net_checksum : List ℕ → ℕ
unfolding add_words finish
net_checksum data' = finish (add_words 0 data')

-- The sum that starts with the pseudo header.
pub pseudo_header : List ℕ → List ℕ → ℕ → ℕ → ℕ
pseudo_header src_ip dst_ip protocol len =
    get_or src_ip 0 0 * 256
    + get_or src_ip 1 0
    + (get_or src_ip 2 0 * 256 + get_or src_ip 3 0)
    + (get_or dst_ip 0 0 * 256 + get_or dst_ip 1 0)
    + (get_or dst_ip 2 0 * 256 + get_or dst_ip 3 0)
    + protocol
    + len

pub tcp_checksum : List ℕ → List ℕ → List ℕ → ℕ
unfolding add_words finish pseudo_header
tcp_checksum src_ip dst_ip bytes =
    finish (add_words (pseudo_header src_ip dst_ip 6 (length bytes)) bytes)

pub udp_checksum : List ℕ → List ℕ → List ℕ → ℕ
unfolding add_words finish pseudo_header
udp_checksum src_ip dst_ip bytes =
    let cs = finish (add_words (pseudo_header src_ip dst_ip 17 (length bytes)) bytes) in
    if cs == 0 then 0xFFFF else cs
