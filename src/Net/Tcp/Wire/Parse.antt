-- ===== src/Net/Tcp/Wire/Parse.antt =====
-- What a machine reads of a frame that another built.
use vyro_os.Base.Bytes.{AllBytes, AllBytes-get_or}
use vyro_os.Net.Tcp.Handle.Bounds.{IsSegment}
use vyro_os.Base.{
  bit_and, ltb, ◌==◌, ◌&&◌, not, if-holds, length-take, take_all, ℕ, ◌+◌, ◌-◌, ◌*◌, ◌/◌, ◌%◌, ◌^◌,
  ◌≤◌, ◌<◌, ◌≡◌, refl, ◌∙◌, Option, List, [], ◌∷◌, length, take, drop, get_or, le→ltb, arith,
}
use vyro_os.Net.Tcp.Tcb.{Tcb, Out}
use vyro_os.Net.Tcp.Handle.{arrives}
use vyro_os.Net.Tcp.Wire.{
  eth_header, ip_header, tcp_header, build, Parsed, other, malformed, parsed, parse_tcp, parse,
  four, read16, read32, read_four,
}

parse_steps :
    (frame : List ℕ)
    → 54 ≤ length frame
    → (get_or frame 12 0 ≡ 8)
      × (get_or frame 13 0 ≡ 0)
      × (get_or frame 14 0 ≡ 0x45)
      × (get_or frame 23 0 ≡ 6)
    → parse frame ≡ parse_tcp frame 20 34
unfolding parse
parse_steps frame long (a, b, c, d) = rw (a, b, c, d, le→ltb (length frame) 54 long) refl

parse_tcp_steps :
    (frame : List ℕ) (n : ℕ)
    → get_or frame 46 0 ≡ 80
    → read16 frame 16 ≡ 40 + n
    → parse_tcp frame 20 34
      ≡ parsed record {
        src_ip = read_four frame 26;
        dst_ip = read_four frame 30;
        src_port = read16 frame 34;
        dst_port = read16 frame 36;
        seq = read32 frame 38;
        ack = read32 frame 42;
        flags = get_or frame 47 0;
        payload = n;
        data' = take n (drop 54 frame);
      }
unfolding parse_tcp
parse_tcp_steps frame n a b =
    let e : 40 + n - 20 - 20 ≡ n = omega arith in
    rw (a, b, le→ltb (40 + n) 40 (omega arith), e) refl

four_lem : (a : List ℕ) → length a ≡ 4 → four a ≡ a
four_lem [] e = absurd (omega arith)
four_lem (a ∷ []) e = absurd (omega arith)
four_lem (a ∷ b ∷ []) e = absurd (omega arith)
four_lem (a ∷ b ∷ c ∷ []) e = absurd (omega arith)
four_lem (a ∷ b ∷ c ∷ d ∷ []) e = refl
four_lem (a ∷ b ∷ c ∷ d ∷ f ∷ g) e = absurd (omega arith)

-- A number of two bytes, read back.
pub be16_lem : (x : ℕ) → x < 2 ^ 16 → x / 256 % 256 * 256 + x % 256 ≡ x
be16_lem x lt = omega arith

be32_lem :
    (x : ℕ)
    → x < 2 ^ 32
    → x / 2 ^ 24 % 256 * 2 ^ 24 + x / 2 ^ 16 % 256 * 2 ^ 16 + x / 256 % 256 * 256 + x % 256 ≡ x
be32_lem x lt = omega arith

-- A frame that is built for a segment of at most 536 bytes is read as that segment, whatever the
-- hardware addresses and the window: with its addresses, ports, numbers, flags and bytes.
pub parse-build :
    (arp : List ℕ → Option (List ℕ)) (mac : List ℕ) (t : Tcb) (o : Out) (window : ℕ)
    → (length t.local_ip ≡ 4) × (length t.remote_ip ≡ 4)
    → (t.local_port < 2 ^ 16) × (t.remote_port < 2 ^ 16)
    → (o.seq < 2 ^ 32) × (o.ack < 2 ^ 32)
    → length o.payload ≤ 536
    → parse (build arp mac t o window o.payload) ≡ parsed (arrives t o)
unfolding arrives build eth_header ip_header tcp_header
parse-build arp mac t o window (l, r) (lp, rp) (sq, ak) short =
    let frame = build arp mac t o window o.payload in
    let n = length o.payload in
    parse_steps frame (omega arith) (refl, refl, refl, refl)
    ∙ parse_tcp_steps frame n refl (be16_lem (40 + n) (omega arith))
    ∙ rw
        (
          four_lem t.local_ip l,
          four_lem t.remote_ip r,
          be16_lem t.local_port lp,
          be16_lem t.remote_port rp,
          be32_lem o.seq sq,
          be32_lem o.ack ak,
          take_all o.payload,
        )
        refl

-- What `parse` gives of a frame is a segment in its bounds, if it is one.
abbrev pub IsParsed : Parsed → Type 0
IsParsed (parsed seg) = IsSegment seg
IsParsed _ = Unit

read32_bound : (frame : List ℕ) (i : ℕ) → AllBytes frame → read32 frame i < 2 ^ 32
read32_bound frame i h = omega (
  arith,
  AllBytes-get_or frame i h,
  AllBytes-get_or frame (i + 1) h,
  AllBytes-get_or frame (i + 2) h,
  AllBytes-get_or frame (i + 3) h,
)

parse_tcp-IsParsed :
    (frame : List ℕ) (ihl th : ℕ) → AllBytes frame → IsParsed (parse_tcp frame ihl th)
unfolding parse_tcp
parse_tcp-IsParsed frame ihl th h =
    let hdr_len = get_or frame (th + 12) 0 / 16 * 4 in
    let payload = read16 frame 16 - ihl - hdr_len in
    if-holds IsParsed (ltb hdr_len 20) {x = malformed} (λ _. tt)
      (λ _.
        if-holds IsParsed (ltb (read16 frame 16) (ihl + hdr_len)) {x = malformed} (λ _. tt)
          (λ _. record {
            seq_bound = read32_bound frame (th + 4) h;
            ack_bound = read32_bound frame (th + 8) h;
            size = omega (arith, length-take payload (drop (th + hdr_len) frame));
          }))

pub parse-IsParsed : (frame : List ℕ) → AllBytes frame → IsParsed (parse frame)
unfolding parse
parse-IsParsed frame h =
    let ver_ihl = get_or frame 14 0 in
    let ihl = bit_and ver_ihl 0x0F * 4 in
    if-holds IsParsed (ltb (length frame) 54) {x = other} (λ _. tt)
      (λ _.
        if-holds IsParsed (not ((get_or frame 12 0 == 0x08) && (get_or frame 13 0 == 0x00)))
          {x = other} (λ _. tt)
          (λ _.
            if-holds IsParsed (not (bit_and ver_ihl 0xF0 == 0x40)) {x = other} (λ _. tt)
              (λ _.
                if-holds IsParsed (ltb ihl 20) {x = other} (λ _. tt)
                  (λ _.
                    if-holds IsParsed (not (get_or frame 23 0 == 6)) {x = other} (λ _. tt)
                      (λ _.
                        if-holds IsParsed (ltb (length frame) (14 + ihl + 20)) {x = other} (λ _. tt)
                          (λ _. parse_tcp-IsParsed frame ihl (14 + ihl) h))))))
