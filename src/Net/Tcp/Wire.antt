-- ===== src/Net/Tcp/Wire.antt =====
-- Segments as frames: `build_and_send` and `build_and_send_data` of kernel/tcp.c, and the part of
-- `tcp_input` that reads the headers. A frame is the list of its bytes; `arp` is what
-- `arp_cache_lookup` answers, `mac` what `net_mac` does.
pub mod Parse
use vyro_os.Base.{
  ℕ, ◌+◌, ◌-◌, ◌*◌, ◌/◌, ◌%◌, ◌^◌, bit_and, Bool, true, false, not, ◌&&◌, Option, none, some, List,
  [], ◌∷◌, ◌++◌, length, take, drop, get_or, replicate, ltb, ◌==◌, if◌then◌else◌,
}
use vyro_os.Net.Checksum.{net_checksum, tcp_checksum}
use vyro_os.Net.Tcp.Tcb.{Tcb, Out, tcp_mss, tcp_buf_size}
use vyro_os.Net.Tcp.Handle.{Segment}

-- `htons` and `htonl`, stored.
abbrev pub be16 : ℕ → List ℕ
be16 x = x / 256 % 256 ∷ x % 256 ∷ []

abbrev pub be32 : ℕ → List ℕ
be32 x = x / 2 ^ 24 % 256 ∷ x / 2 ^ 16 % 256 ∷ x / 256 % 256 ∷ x % 256 ∷ []

-- The loops that copy an address.
abbrev pub four : List ℕ → List ℕ
four a = get_or a 0 0 ∷ get_or a 1 0 ∷ get_or a 2 0 ∷ get_or a 3 0 ∷ []

abbrev pub six : List ℕ → List ℕ
six a = get_or a 0 0 ∷ get_or a 1 0 ∷ get_or a 2 0 ∷ get_or a 3 0 ∷ get_or a 4 0 ∷ get_or a 5 0 ∷ []

pub eth_header : (List ℕ → Option (List ℕ)) → List ℕ → List ℕ → List ℕ
eth_header arp mac remote_ip = six dst ++ (six mac ++ (0x08 ∷ 0x00 ∷ []))
  where
    dst : List ℕ
    dst = elim (arp remote_ip) [ none ↦ replicate 6 0xFF | some found ↦ found ]

-- The header with the given checksum; `dlen` is the number of bytes behind the TCP header.
pub ip_header : Tcb → ℕ → ℕ → List ℕ
ip_header t dlen checksum =
    0x45 ∷ 0 ∷ be16 (20 + 20 + dlen)
    ++ (be16 1 ++ (be16 0 ++ (64 ∷ 6 ∷ be16 checksum ++ (four t.local_ip ++ four t.remote_ip))))

pub tcp_header : Tcb → Out → ℕ → ℕ → List ℕ
tcp_header t o window checksum =
    be16 t.local_port
    ++ (be16 t.remote_port
        ++ (be32 o.seq
            ++ (be32 o.ack ++ (5 * 16 ∷ o.flags ∷ be16 window ++ (be16 checksum ++ be16 0)))))

pub build : (List ℕ → Option (List ℕ)) → List ℕ → Tcb → Out → ℕ → List ℕ → List ℕ
unfolding eth_header ip_header tcp_header
build arp mac t o window payload =
    let ip = ip_header t (length payload) in
    let th = tcp_header t o window in
    eth_header arp mac t.remote_ip
    ++ (ip (net_checksum (ip 0))
        ++ (th (tcp_checksum t.local_ip t.remote_ip (th 0 ++ payload)) ++ payload))

pub build_and_send : (List ℕ → Option (List ℕ)) → List ℕ → Tcb → Out → List ℕ
unfolding build
build_and_send arp mac t o = build arp mac t o 8192 []

pub build_and_send_data : (List ℕ → Option (List ℕ)) → List ℕ → Tcb → Out → List ℕ
unfolding build
build_and_send_data arp mac t o = build arp mac t o tcp_buf_size (take tcp_mss o.payload)

-- `other` and `malformed` are frames that are dropped with the results 0 and 1.
pub data Parsed : Type 0 where
  other : Parsed
  malformed : Parsed
  parsed : Segment → Parsed

-- Two and four bytes at a place.
abbrev pub read16 : List ℕ → ℕ → ℕ
read16 frame i = get_or frame i 0 * 256 + get_or frame (i + 1) 0

abbrev pub read32 : List ℕ → ℕ → ℕ
read32 frame i =
    get_or frame i 0 * 2 ^ 24
    + get_or frame (i + 1) 0 * 2 ^ 16
    + get_or frame (i + 2) 0 * 256
    + get_or frame (i + 3) 0

abbrev pub read_four : List ℕ → ℕ → List ℕ
read_four frame i = four (drop i frame)

-- The TCP header at `th`, behind an IP header of `ihl` bytes.
unfoldable pub parse_tcp : List ℕ → ℕ → ℕ → Parsed
parse_tcp frame ihl th =
    let hdr_len = get_or frame (th + 12) 0 / 16 * 4 in
    let total_ip = read16 frame 16 in
    if ltb hdr_len 20
    then malformed
    else if ltb total_ip (ihl + hdr_len)
    then malformed
    else parsed record {
      src_ip = read_four frame 26;
      dst_ip = read_four frame 30;
      src_port = read16 frame th;
      dst_port = read16 frame (th + 2);
      seq = read32 frame (th + 4);
      ack = read32 frame (th + 8);
      flags = get_or frame (th + 13) 0;
      payload = total_ip - ihl - hdr_len;
      data' = take (total_ip - ihl - hdr_len) (drop (th + hdr_len) frame);
    }

-- `tcp_input` up to the search of the connection; bytes behind the frame are not read.
unfoldable pub parse : List ℕ → Parsed
unfolding parse_tcp
parse frame =
    let ver_ihl = get_or frame 14 0 in
    let ihl = bit_and ver_ihl 0x0F * 4 in
    if ltb (length frame) 54
    then other
    else if not ((get_or frame 12 0 == 0x08) && (get_or frame 13 0 == 0x00))
    then other
    else if not (bit_and ver_ihl 0xF0 == 0x40)
    then other
    else if ltb ihl 20
    then other
    else if not (get_or frame 23 0 == 6)
    then other
    else if ltb (length frame) (14 + ihl + 20)
    then other
    else parse_tcp frame ihl (14 + ihl)
