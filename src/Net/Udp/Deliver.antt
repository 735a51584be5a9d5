-- ===== src/Net/Udp/Deliver.antt =====
-- A datagram to a port that is listened on.
use vyro_os.Base.Slots.{first, first-Found, first-set_new}
use vyro_os.Base.{
  take_all, ℕ, ◌+◌, ◌-◌, ◌^◌, ◌≤◌, ◌<◌, ◌≡◌, inl, inr, refl, ap, ◌∙◌, true, false, ◌||◌, none, some,
  List, length, take, drop, get_or, le→ltb, ltb, if◌then◌else◌, ==_refl, Bool-cases, Option-cases,
  arith, ◌==◌,
}
use vyro_os.Net.Tcp.Wire.{four, read16}
use vyro_os.Net.Tcp.Wire.Parse.{be16_lem}
use vyro_os.Net.Udp.{
  UdpListener, listens, is_vacant, udp_listen, udp_ip_header, udp_header, udp_frame,
  build_udp_frame, Received, call_back, udp_dispatch, udp_input,
}

udp_input_steps :
    (frame : List ℕ) (ls : List UdpListener)
    → 42 ≤ length frame
    → (get_or frame 12 0 ≡ 8)
      × (get_or frame 13 0 ≡ 0)
      × (get_or frame 14 0 ≡ 0x45)
      × (get_or frame 23 0 ≡ 17)
    → udp_input frame ls ≡ udp_dispatch frame 20 ls
unfolding udp_input
udp_input_steps frame ls long (a, b, c, d) = rw (a, b, c, d, le→ltb (length frame) 42 long) refl

udp_dispatch_steps :
    (frame : List ℕ) (ls : List UdpListener) (n i : ℕ) (l : UdpListener)
    → read16 frame 38 ≡ 8 + n
    → 42 + n ≤ length frame
    → first (listens (read16 frame 36)) ls ≡ some (i, l)
    → udp_dispatch frame 20 ls
      ≡ some record {
        to = l.cb;
        src_ip = four (drop 26 frame);
        src_port = read16 frame 34;
        payload = take n (drop 42 frame);
      }
unfolding udp_dispatch call_back
udp_dispatch_steps frame ls n i l size long f =
    let e : 8 + n - 8 ≡ n = omega arith in
    rw
      (
        size,
        le→ltb (8 + n) 8 (omega arith),
        le→ltb (length frame) (34 + (8 + n)) (omega arith),
        e,
        f,
      )
      refl

-- What a successful call enters is found for its port.
listened :
    (port cb : ℕ) (ls : List UdpListener)
    → (udp_listen port cb ls).1 ≡ true
    → (i : ℕ) × (l : UdpListener) × (l.cb ≡ cb)
      × (first (listens port) (udp_listen port cb ls).0 ≡ some (i, l))
unfolding udp_listen listens
listened port cb ls ok = elim (Bool-cases ((port == 0) || (cb == 0))) [
  | inl bad ↦ absurd (let ok' = rw (bad, udp_listen) at ok in ground arith)
  | inr good ↦ elim (Option-cases (first (listens port) ls)) [
    | inr (x, f) ↦ absurd (let ok' = rw (good, f, udp_listen) at ok in ground arith)
    | inl f ↦ elim (Option-cases (first is_vacant ls)) [
      | inl g ↦ absurd (let ok' = rw (good, f, g, udp_listen) at ok in ground arith)
      | inr ((i, old), g) ↦
          rw (good, f, g, udp_listen)
            (
              i,
              record { port = port; cb = cb; active = true },
              refl,
              first-set_new (listens port) ls i old record { port = port; cb = cb; active = true } f
                  (first-Found is_vacant ls i old g).0 (==_refl port),
            )
    ]
  ]
]

frame_delivered :
    (mac dst_mac src_ip dst_ip : List ℕ) (src_port dst_port i : ℕ) (l : UdpListener)
    (bytes : List ℕ) (ls : List UdpListener)
    → src_port < 2 ^ 16
    → dst_port < 2 ^ 16
    → length bytes ≤ 1558
    → first (listens dst_port) ls ≡ some (i, l)
    → udp_input (udp_frame mac dst_mac src_ip dst_ip src_port dst_port bytes) ls
      ≡ some record { to = l.cb; src_ip = four src_ip; src_port = src_port; payload = bytes }
unfolding udp_frame udp_ip_header udp_header
frame_delivered mac dst_mac src_ip dst_ip src_port dst_port i l bytes ls sp dp short f =
    let frame = udp_frame mac dst_mac src_ip dst_ip src_port dst_port bytes in
    let n = length bytes in
    let port : read16 frame 36 ≡ dst_port = be16_lem dst_port dp in
    udp_input_steps frame ls (omega arith) (refl, refl, refl, refl)
    ∙ udp_dispatch_steps frame ls n i l (be16_lem (8 + n) (omega arith)) (omega arith)
        (ap (λ k. first (listens k) ls) port ∙ f)
    ∙ rw (be16_lem src_port sp, take_all bytes) refl

-- Once a callback is registered for a port, a datagram of up to 1558 bytes that is built for the port
-- calls it, with the sender's address and port and exactly the bytes sent.
pub udp_input-build :
    (mac dst_mac src_ip dst_ip : List ℕ) (src_port dst_port cb : ℕ) (bytes : List ℕ)
    (ls : List UdpListener)
    → (src_port < 2 ^ 16) × (dst_port < 2 ^ 16)
    → length bytes ≤ 1558
    → (udp_listen dst_port cb ls).1 ≡ true
    → (frame : List ℕ) × (build_udp_frame mac dst_mac src_ip dst_ip src_port dst_port bytes
        ≡ some frame)
      × (udp_input frame (udp_listen dst_port cb ls).0
          ≡ some record { to = cb; src_ip = four src_ip; src_port = src_port; payload = bytes })
unfolding build_udp_frame
udp_input-build mac dst_mac src_ip dst_ip src_port dst_port cb bytes ls (sp, dp) short ok =
    let (i, l, calls, f) = listened dst_port cb ls ok in
    let fits : ltb 1600 (42 + length bytes) ≡ false =
      le→ltb 1600 (42 + length bytes) (omega arith) in
    (
      udp_frame mac dst_mac src_ip dst_ip src_port dst_port bytes,
      ap
          (λ b.
            if b then none else some (udp_frame mac dst_mac src_ip dst_ip src_port dst_port bytes))
          fits,
      frame_delivered mac dst_mac src_ip dst_ip src_port dst_port i l bytes
            (udp_listen dst_port cb ls).0 sp dp short f
          ∙ ap (λ c. some (received_by c)) calls,
    )
  where
    received_by : ℕ → Received
    received_by c = record { to = c; src_ip = four src_ip; src_port = src_port; payload = bytes }
