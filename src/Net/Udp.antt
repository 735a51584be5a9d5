-- ===== src/Net/Udp.antt =====
-- UDP ports and frames: kernel/udp.c. A callback is a number, with 0 for the null pointer; `mac` is
-- what `net_mac` gives, `dst_mac` what `arp_resolve` found.
pub mod Deliver
pub mod Tests
use vyro_os.Base.Slots.{first}
use vyro_os.Base.{
  ℕ, ◌+◌, ◌-◌, ◌*◌, bit_and, Bool, true, false, not, ◌&&◌, ◌||◌, Option, none, some, List, [], ◌∷◌,
  ◌++◌, length, take, drop, get_or, set, ltb, ◌==◌, if◌then◌else◌,
}
use vyro_os.Net.Checksum.{net_checksum, udp_checksum}
use vyro_os.Net.Tcp.Wire.{be16, four, six, read16}

pub record UdpListener : Type 0 where
  pub port : ℕ
  pub cb : ℕ
  pub active : Bool

abbrev pub no_listener : UdpListener
no_listener = record { port = 0; cb = 0; active = false }

pub udp_init : List UdpListener → List UdpListener
udp_init [] = []
udp_init (l ∷ ls) = no_listener ∷ udp_init ls

pub listens : ℕ → UdpListener → Bool
listens port l = l.active && (l.port == port)

pub is_vacant : UdpListener → Bool
is_vacant l = not l.active

-- The Boolean is the result.
pub udp_listen : ℕ → ℕ → List UdpListener → List UdpListener × Bool
unfolding listens is_vacant
udp_listen port cb ls =
    if (port == 0) || (cb == 0) then (ls, false) else elim (first (listens port) ls) [
      | some _ ↦ (ls, false)
      | none ↦ elim (first is_vacant ls) [
        | none ↦ (ls, false)
        | some (slot, _) ↦ (set ls slot record { port = port; cb = cb; active = true }, true)
      ]
    ]

pub udp_unlisten : ℕ → List UdpListener → List UdpListener
unfolding listens
udp_unlisten port ls = elim (first (listens port) ls) [
  | none ↦ ls
  | some (i, _) ↦ set ls i no_listener
]

-- The IP header with the given checksum, for `len` bytes of data.
pub udp_ip_header : List ℕ → List ℕ → ℕ → ℕ → List ℕ
udp_ip_header src_ip dst_ip len checksum =
    0x45 ∷ 0 ∷ be16 (20 + 8 + len)
    ++ (be16 1 ++ (be16 0 ++ (64 ∷ 17 ∷ be16 checksum ++ (four src_ip ++ four dst_ip))))

pub udp_header : ℕ → ℕ → ℕ → ℕ → List ℕ
udp_header src_port dst_port len checksum =
    be16 src_port ++ (be16 dst_port ++ (be16 (8 + len) ++ be16 checksum))

-- The bytes of the frame.
pub udp_frame : List ℕ → List ℕ → List ℕ → List ℕ → ℕ → ℕ → List ℕ → List ℕ
unfolding udp_ip_header udp_header
udp_frame mac dst_mac src_ip dst_ip src_port dst_port bytes =
    let ip = udp_ip_header src_ip dst_ip (length bytes) in
    let udp = udp_header src_port dst_port (length bytes) in
    six dst_mac
    ++ (six mac
        ++ (0x08 ∷ 0x00 ∷ ip (net_checksum (ip 0))
            ++ (udp (udp_checksum src_ip dst_ip (udp 0 ++ bytes)) ++ bytes)))

-- `none` for -1; the frame has room for 1600 bytes in both callers.
pub build_udp_frame : List ℕ → List ℕ → List ℕ → List ℕ → ℕ → ℕ → List ℕ → Option (List ℕ)
unfolding udp_frame
build_udp_frame mac dst_mac src_ip dst_ip src_port dst_port bytes =
    if ltb 1600 (42 + length bytes)
    then none
    else some (udp_frame mac dst_mac src_ip dst_ip src_port dst_port bytes)

-- The call of a callback.
pub record Received : Type 0 where
  pub to : ℕ
  pub src_ip : List ℕ
  pub src_port : ℕ
  pub payload : List ℕ

-- `listeners[i].cb(...)` for the listener that was found.
pub call_back : Option (ℕ × UdpListener) → List ℕ → ℕ → List ℕ → Option Received
call_back none src_ip src_port payload = none
call_back (some (_, l)) src_ip src_port payload =
    some record { to = l.cb; src_ip = src_ip; src_port = src_port; payload = payload }

-- The header at `14 + ihl`.
pub udp_dispatch : List ℕ → ℕ → List UdpListener → Option Received
unfolding listens call_back
udp_dispatch frame ihl ls =
    let udp_len = read16 frame (14 + ihl + 4) in
    if ltb udp_len 8
    then none
    else if ltb (length frame) (14 + ihl + udp_len)
    then none
    else call_back (first (listens (read16 frame (14 + ihl + 2))) ls) (four (drop 26 frame))
        (read16 frame (14 + ihl)) (take (udp_len - 8) (drop (14 + ihl + 8) frame))

-- The callback that is called, if one is.
pub udp_input : List ℕ → List UdpListener → Option Received
unfolding udp_dispatch
udp_input frame ls =
    let ver_ihl = get_or frame 14 0 in
    let ihl = bit_and ver_ihl 0x0F * 4 in
    if ltb (length frame) 42
    then none
    else if not ((get_or frame 12 0 == 0x08) && (get_or frame 13 0 == 0x00))
    then none
    else if not (bit_and ver_ihl 0xF0 == 0x40)
    then none
    else if ltb ihl 20
    then none
    else if not (get_or frame 23 0 == 17)
    then none
    else if ltb (length frame) (14 + ihl + 8)
    then none
    else udp_dispatch frame ihl ls
