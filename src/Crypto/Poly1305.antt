-- ===== src/Crypto/Poly1305.antt =====
-- kernel/poly1305.c: the one-time authenticator, in five limbs of 26 bits.
use vyro_os.Base.{
  ℕ, zero, suc, ◌+◌, ◌-◌, ◌*◌, ◌/◌, ◌%◌, ◌^◌, ◌≡◌, refl, Bool, true, false, List, [], ◌∷◌, ◌++◌,
  length, get_or, take, drop, replicate, arith, ltb, leb, ◌==◌, if◌then◌else◌, bit_and, bit_or,
}
use vyro_os.Base.Bytes.{little_endian, AllBytes}

-- five limbs
pub record Limbs : Type 0 where
  pub l0 : ℕ
  pub l1 : ℕ
  pub l2 : ℕ
  pub l3 : ℕ
  pub l4 : ℕ

-- `poly1305_ctx`; `buf` holds the first `buf_used` bytes, `pad` the four words
pub record Poly : Type 0 where
  pub r : Limbs
  pub h : Limbs
  pub pad : List ℕ
  pub buf : List ℕ
  pub final : Bool

abbrev pub mask26 : ℕ
mask26 = 0x3ffffff

-- `load32_le(p + 4 * i)`
pub word_at : List ℕ → ℕ → ℕ
word_at p i = little_endian 4 (drop (4 * i) p)

pub store32_le : ℕ → List ℕ
store32_le v = v % 256 ∷ v / 2 ^ 8 % 256 ∷ v / 2 ^ 16 % 256 ∷ v / 2 ^ 24 % 256 ∷ []

pub poly1305_init : List ℕ → Poly
unfolding word_at
poly1305_init key =
    let t0 = word_at key 0 in
    let t1 = word_at key 1 in
    let t2 = word_at key 2 in
    let t3 = word_at key 3 in
    record {
      r = record {
        l0 = bit_and t0 0x3ffffff;
        l1 = bit_and (bit_or (t0 / 2 ^ 26) (t1 * 2 ^ 6 % 2 ^ 32)) 0x3ffff03;
        l2 = bit_and (bit_or (t1 / 2 ^ 20) (t2 * 2 ^ 12 % 2 ^ 32)) 0x3ffc0ff;
        l3 = bit_and (bit_or (t2 / 2 ^ 14) (t3 * 2 ^ 18 % 2 ^ 32)) 0x3f03fff;
        l4 = bit_and (t3 / 2 ^ 8) 0x00fffff;
      };
      h = record { l0 = 0; l1 = 0; l2 = 0; l3 = 0; l4 = 0 };
      pad = word_at key 4 ∷ word_at key 5 ∷ word_at key 6 ∷ word_at key 7 ∷ [];
      buf = [];
      final = false;
    }

-- The message block added to `h`, with the bit behind it.
pub add_block : Limbs → List ℕ → ℕ → Limbs
unfolding word_at
add_block h m hibit =
    let t0 = word_at m 0 in
    let t1 = word_at m 1 in
    let t2 = word_at m 2 in
    let t3 = word_at m 3 in
    record {
      l0 = (h.l0 + bit_and t0 mask26) % 2 ^ 32;
      l1 = (h.l1 + bit_and (bit_or (t0 / 2 ^ 26) (t1 * 2 ^ 6 % 2 ^ 32)) mask26) % 2 ^ 32;
      l2 = (h.l2 + bit_and (bit_or (t1 / 2 ^ 20) (t2 * 2 ^ 12 % 2 ^ 32)) mask26) % 2 ^ 32;
      l3 = (h.l3 + bit_and (bit_or (t2 / 2 ^ 14) (t3 * 2 ^ 18 % 2 ^ 32)) mask26) % 2 ^ 32;
      l4 = (h.l4 + bit_or (t3 / 2 ^ 8) hibit) % 2 ^ 32;
    }

-- `d0` to `d4`
pub multiply : Limbs → Limbs → Limbs
multiply h r =
    let s1 = r.l1 * 5 % 2 ^ 32 in
    let s2 = r.l2 * 5 % 2 ^ 32 in
    let s3 = r.l3 * 5 % 2 ^ 32 in
    let s4 = r.l4 * 5 % 2 ^ 32 in
    record {
      l0 = (h.l0 * r.l0 + h.l1 * s4 + h.l2 * s3 + h.l3 * s2 + h.l4 * s1) % 2 ^ 64;
      l1 = (h.l0 * r.l1 + h.l1 * r.l0 + h.l2 * s4 + h.l3 * s3 + h.l4 * s2) % 2 ^ 64;
      l2 = (h.l0 * r.l2 + h.l1 * r.l1 + h.l2 * r.l0 + h.l3 * s4 + h.l4 * s3) % 2 ^ 64;
      l3 = (h.l0 * r.l3 + h.l1 * r.l2 + h.l2 * r.l1 + h.l3 * r.l0 + h.l4 * s4) % 2 ^ 64;
      l4 = (h.l0 * r.l4 + h.l1 * r.l3 + h.l2 * r.l2 + h.l3 * r.l1 + h.l4 * r.l0) % 2 ^ 64;
    }

-- The carries behind the multiplication; `& 0x3ffffff` is the remainder by 2 ^ 26.
pub carry : Limbs → Limbs
carry d =
    let d1 = (d.l1 + d.l0 / 2 ^ 26 % 2 ^ 32) % 2 ^ 64 in
    let d2 = (d.l2 + d1 / 2 ^ 26 % 2 ^ 32) % 2 ^ 64 in
    let d3 = (d.l3 + d2 / 2 ^ 26 % 2 ^ 32) % 2 ^ 64 in
    let d4 = (d.l4 + d3 / 2 ^ 26 % 2 ^ 32) % 2 ^ 64 in
    let h0 = (d.l0 % 2 ^ 26 + d4 / 2 ^ 26 % 2 ^ 32 * 5 % 2 ^ 32) % 2 ^ 32 in
    record {
      l0 = h0 % 2 ^ 26;
      l1 = (d1 % 2 ^ 26 + h0 / 2 ^ 26) % 2 ^ 32;
      l2 = d2 % 2 ^ 26;
      l3 = d3 % 2 ^ 26;
      l4 = d4 % 2 ^ 26;
    }

pub poly1305_block : Poly → List ℕ → Poly
unfolding add_block multiply carry
poly1305_block st m = record st {
  h = carry (multiply (add_block st.h m (if st.final then 0 else 2 ^ 24)) st.r);
}

-- `while (len >= 16)` and the copy behind it, for `n` rounds at most
pub update_loop : ℕ → Poly → List ℕ → Poly
unfolding poly1305_block
update_loop zero st m = record st { buf = m }
update_loop (suc n) st m =
    let rest = update_loop n (poly1305_block st (take 16 m)) (drop 16 m) in
    if leb 16 (length m) then rest else record st { buf = m }

-- `poly1305_update`; each round takes 16 bytes, so there are no more rounds than bytes
pub poly1305_update : Poly → List ℕ → Poly
unfolding update_loop
poly1305_update st m =
    if length st.buf == 0
    then update_loop (length m) st m
    else let want =
        (if ltb (length m) (16 - length st.buf) then length m else 16 - length st.buf) in
      let st' = record st { buf = st.buf ++ take want m } in
      update_loop (length m)
        (if length st'.buf == 16 then record (poly1305_block st' st'.buf) { buf = [] } else st')
        (drop want m)

-- The first five lines of carries in `poly1305_finish`.
pub settle : Limbs → Limbs
settle h =
    let h2 = (h.l2 + h.l1 / 2 ^ 26) % 2 ^ 32 in
    let h3 = (h.l3 + h2 / 2 ^ 26) % 2 ^ 32 in
    let h4 = (h.l4 + h3 / 2 ^ 26) % 2 ^ 32 in
    let h0 = (h.l0 + h4 / 2 ^ 26 * 5 % 2 ^ 32) % 2 ^ 32 in
    record {
      l0 = h0 % 2 ^ 26;
      l1 = (h.l1 % 2 ^ 26 + h0 / 2 ^ 26) % 2 ^ 32;
      l2 = h2 % 2 ^ 26;
      l3 = h3 % 2 ^ 26;
      l4 = h4 % 2 ^ 26;
    }

-- `g`: `h` less 2 ^ 130 - 5, its sign in the top bit of the last limb
pub less_prime : Limbs → Limbs
less_prime h =
    let g0 = (h.l0 + 5) % 2 ^ 32 in
    let g1 = (h.l1 + g0 / 2 ^ 26) % 2 ^ 32 in
    let g2 = (h.l2 + g1 / 2 ^ 26) % 2 ^ 32 in
    let g3 = (h.l3 + g2 / 2 ^ 26) % 2 ^ 32 in
    record {
      l0 = g0 % 2 ^ 26;
      l1 = g1 % 2 ^ 26;
      l2 = g2 % 2 ^ 26;
      l3 = g3 % 2 ^ 26;
      l4 = (h.l4 + g3 / 2 ^ 26 + 2 ^ 32 - 2 ^ 26) % 2 ^ 32;
    }

-- `(h & ~mask) | (g & mask)`, a limb each
pub select_limb : ℕ → ℕ → ℕ → ℕ
select_limb mask h g = bit_or (bit_and h (2 ^ 32 - 1 - mask)) (bit_and g mask)

pub reduce : Limbs → Limbs
unfolding less_prime select_limb
reduce h =
    let g = less_prime h in
    let mask = (g.l4 / 2 ^ 31 + 2 ^ 32 - 1) % 2 ^ 32 in
    record {
      l0 = select_limb mask h.l0 g.l0;
      l1 = select_limb mask h.l1 g.l1;
      l2 = select_limb mask h.l2 g.l2;
      l3 = select_limb mask h.l3 g.l3;
      l4 = select_limb mask h.l4 g.l4;
    }

-- The four words of the limbs, plus the pad, and their bytes.
pub add_pad : Limbs → List ℕ → List ℕ
unfolding store32_le
add_pad h pad =
    let f0 = bit_or h.l0 (h.l1 * 2 ^ 26 % 2 ^ 32) in
    let f1 = bit_or (h.l1 / 2 ^ 6) (h.l2 * 2 ^ 20 % 2 ^ 32) in
    let f2 = bit_or (h.l2 / 2 ^ 12) (h.l3 * 2 ^ 14 % 2 ^ 32) in
    let f3 = bit_or (h.l3 / 2 ^ 18) (h.l4 * 2 ^ 8 % 2 ^ 32) in
    let s0 = f0 + get_or pad 0 0 in
    let s1 = f1 + get_or pad 1 0 + s0 / 2 ^ 32 in
    let s2 = f2 + get_or pad 2 0 + s1 / 2 ^ 32 in
    let s3 = f3 + get_or pad 3 0 + s2 / 2 ^ 32 in
    store32_le (s0 % 2 ^ 32)
    ++ (store32_le (s1 % 2 ^ 32) ++ (store32_le (s2 % 2 ^ 32) ++ store32_le (s3 % 2 ^ 32)))

-- The last block, where bytes are left.
pub last_block : Poly → Poly
unfolding poly1305_block
last_block st =
    if length st.buf == 0
    then st
    else poly1305_block (record st { final = true })
        (st.buf ++ (1 ∷ replicate (15 - length st.buf) 0))

pub poly1305_finish : Poly → List ℕ
unfolding last_block settle reduce add_pad
poly1305_finish st = add_pad (reduce (settle (last_block st).h)) st.pad

pub poly1305_mac : List ℕ → List ℕ → List ℕ
unfolding poly1305_init poly1305_update poly1305_finish
poly1305_mac msg key = poly1305_finish (poly1305_update (poly1305_init key) msg)

AllBytes-append : (xs ys : List ℕ) → AllBytes xs → AllBytes ys → AllBytes (xs ++ ys)
AllBytes-append [] ys h k = k
AllBytes-append (x ∷ xs) ys h k = (h.0, AllBytes-append xs ys h.1 k)

AllBytes-store32_le : (v : ℕ) → AllBytes (store32_le v)
unfolding store32_le
AllBytes-store32_le v = (omega arith, (omega arith, (omega arith, (omega arith, tt))))

four_words :
    (a b c d : ℕ)
    → AllBytes (store32_le a ++ (store32_le b ++ (store32_le c ++ store32_le d)))
      × (length (store32_le a ++ (store32_le b ++ (store32_le c ++ store32_le d))) ≡ 16)
unfolding store32_le
four_words a b c d = (
  AllBytes-append (store32_le a) (store32_le b ++ (store32_le c ++ store32_le d))
      (AllBytes-store32_le a)
      (AllBytes-append (store32_le b) (store32_le c ++ store32_le d) (AllBytes-store32_le b) (
        AllBytes-append (store32_le c) (store32_le d) (AllBytes-store32_le c)
          (AllBytes-store32_le d))),
  refl,
)

add_pad-AllBytes :
    (h : Limbs) (pad : List ℕ) → AllBytes (add_pad h pad) × (length (add_pad h pad) ≡ 16)
unfolding add_pad
add_pad-AllBytes h pad = four_words _ _ _ _

-- A tag is 16 bytes.
pub poly1305_mac-AllBytes :
    (msg key : List ℕ) → AllBytes (poly1305_mac msg key) × (length (poly1305_mac msg key) ≡ 16)
unfolding poly1305_mac poly1305_finish
poly1305_mac-AllBytes msg key =
    let st = poly1305_update (poly1305_init key) msg in
    add_pad-AllBytes (reduce (settle (last_block st).h)) st.pad
