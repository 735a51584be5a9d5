-- ===== src/Net/Arp.antt =====
-- The ARP cache and its frames: kernel/arp.c, without the waiting of `arp_resolve`. `mac` and `ip` are
-- what `net_mac` and `net_ip` give; a frame is the list of its bytes.
pub mod Cache
pub mod Tests
use vyro_os.Base.Slots.{first}
use vyro_os.Base.{
  ℕ, ◌+◌, ◌*◌, Bool, true, false, not, ◌&&◌, ◌||◌, Option, none, some, List, [], ◌∷◌, ◌++◌, length,
  drop, get_or, set, replicate, ltb, ◌==◌, if◌then◌else◌,
}
use vyro_os.Net.Tcp.Input.{same_ip}
use vyro_os.Net.Tcp.Wire.{be16, four, six, read16}

abbrev pub arp_cache_size : ℕ
arp_cache_size = 8

pub record ArpEntry : Type 0 where
  pub ip : List ℕ
  pub mac : List ℕ
  pub valid : Bool

pub holds_ip : List ℕ → ArpEntry → Bool
unfolding same_ip
holds_ip ip e = e.valid && same_ip e.ip ip

pub cache_lookup : List ℕ → List ArpEntry → Option (List ℕ)
unfolding holds_ip
cache_lookup ip cache = elim (first (holds_ip ip) cache) [
  | none ↦ none
  | some (i, e) ↦ some (six e.mac)
]

pub is_invalid : ArpEntry → Bool
is_invalid e = not e.valid

-- The place that the loop finds: an entry with the address, or the first that is not valid, or 0.
pub slot_of : List ℕ → List ArpEntry → ℕ
unfolding holds_ip is_invalid
slot_of ip cache = elim (first (holds_ip ip) cache) [
  | some (i, e) ↦ i
  | none ↦ elim (first is_invalid cache) [ some (i, e) ↦ i | none ↦ 0 ]
]

abbrev pub new_entry : List ℕ → List ℕ → ArpEntry
new_entry ip mac = record { ip = four ip; mac = six mac; valid = true }

pub cache_insert : List ℕ → List ℕ → List ArpEntry → List ArpEntry
unfolding slot_of
cache_insert ip mac cache = set cache (slot_of ip cache) (new_entry ip mac)

-- The frame that both functions build.
pub arp_frame : List ℕ → ℕ → List ℕ → List ℕ → List ℕ → List ℕ → List ℕ
arp_frame dst oper sha spa tha tpa =
    six dst
    ++ (six sha
        ++ (0x08 ∷ 0x06 ∷ be16 1
            ++ (be16 0x0800
                ++ (6 ∷ 4 ∷ be16 oper ++ (six sha ++ (four spa ++ (six tha ++ four tpa)))))))

pub send_arp_request : List ℕ → List ℕ → List ℕ → List ℕ
unfolding arp_frame
send_arp_request mac ip target_ip = arp_frame (replicate 6 0xFF) 1 mac ip (replicate 6 0) target_ip

pub send_arp_reply : List ℕ → List ℕ → List ℕ → List ℕ → List ℕ
unfolding arp_frame
send_arp_reply mac ip their_mac their_ip = arp_frame their_mac 2 mac ip their_mac their_ip

-- The cache, whether the frame was an ARP frame, and the answer that is sent.
pub arp_input : List ℕ → List ℕ → List ℕ → List ArpEntry → List ArpEntry × Bool × Option (List ℕ)
unfolding cache_insert send_arp_reply same_ip
arp_input mac ip frame cache =
    if ltb (length frame) 42
    then (cache, false, none)
    else if not (read16 frame 12 == 0x0806)
    then (cache, false, none)
    else if not (read16 frame 16 == 0x0800)
        || (not (get_or frame 18 0 == 6) || not (get_or frame 19 0 == 4))
    then (cache, true, none)
    else let sha = six (drop 22 frame) in
      let spa = four (drop 28 frame) in
      (
        cache_insert spa sha cache,
        true,
        (if (read16 frame 20 == 1) && same_ip (four (drop 38 frame)) ip
            then some (send_arp_reply mac ip sha spa)
            else none),
      )
