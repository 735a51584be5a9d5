-- ===== src/Net/Arp/Cache.antt =====
-- What the cache answers after an entry, and after an exchange of two machines.
use vyro_os.Base.Slots.{first, first-Found, first-set_same, first-set_new}
use vyro_os.Base.{
  ℕ, ◌≡◌, ◌<◌, inl, inr, refl, true, none, some, List, [], ◌∷◌, length, get_elem?, get_or, ==_refl,
  Option-cases, arith,
}
use vyro_os.Net.Tcp.Input.{same_ip}
use vyro_os.Net.Tcp.Wire.{four, six}
use vyro_os.Net.Arp.{
  ArpEntry, holds_ip, cache_lookup, is_invalid, slot_of, new_entry, cache_insert, arp_frame,
  send_arp_request, send_arp_reply, arp_input,
}

holds_ip-new_entry : (ip mac : List ℕ) → holds_ip ip (new_entry ip mac) ≡ true
unfolding holds_ip same_ip
holds_ip-new_entry ip mac =
    rw
      (
        ==_refl (get_or ip 0 0),
        ==_refl (get_or ip 1 0),
        ==_refl (get_or ip 2 0),
        ==_refl (get_or ip 3 0),
      )
      refl

slot_same :
    (ip : List ℕ) (cache : List ArpEntry) (i : ℕ) (e : ArpEntry)
    → first (holds_ip ip) cache ≡ some (i, e)
    → slot_of ip cache ≡ i
unfolding slot_of
slot_same ip cache i e f = rw (f, slot_of) refl

slot_new :
    (ip : List ℕ) (cache : List ArpEntry) (i : ℕ) (e : ArpEntry)
    → first (holds_ip ip) cache ≡ none
    → first is_invalid cache ≡ some (i, e)
    → slot_of ip cache ≡ i
unfolding slot_of
slot_new ip cache i e f g = rw (f, g, slot_of) refl

slot_full :
    (ip : List ℕ) (cache : List ArpEntry)
    → first (holds_ip ip) cache ≡ none
    → first is_invalid cache ≡ none
    → slot_of ip cache ≡ 0
unfolding slot_of
slot_full ip cache f g = rw (f, g, slot_of) refl

found_new :
    (ip mac : List ℕ) (cache : List ArpEntry)
    → 0 < length cache
    → first (holds_ip ip) (cache_insert ip mac cache) ≡ some (slot_of ip cache, new_entry ip mac)
unfolding cache_insert
found_new ip mac cache room = elim (Option-cases (first (holds_ip ip) cache)) [
  | inr ((i, e), f) ↦
      rw (slot_same ip cache i e f)
        (first-set_same (holds_ip ip) cache i e (new_entry ip mac) f (holds_ip-new_entry ip mac))
  | inl f ↦ elim (Option-cases (first is_invalid cache)) [
    | inr ((i, e), g) ↦ rw (slot_new ip cache i e f g) (
        first-set_new (holds_ip ip) cache i e (new_entry ip mac) f
          (first-Found is_invalid cache i e g).0 (holds_ip-new_entry ip mac))
    | inl g ↦ rw (slot_full ip cache f g) (
        let (e, at) = head cache room in
        first-set_new (holds_ip ip) cache 0 e (new_entry ip mac) f at (holds_ip-new_entry ip mac))
  ]
]
  where
    head :
        (cache : List ArpEntry) → 0 < length cache → (e : ArpEntry) × (get_elem? cache 0 ≡ some e)
    head [] lt = absurd (omega arith)
    head (e ∷ es) lt = (e, refl)

-- An address that was entered is found with the hardware address entered last, also in a full cache.
pub cache_lookup-insert :
    (ip mac : List ℕ) (cache : List ArpEntry)
    → 0 < length cache
    → cache_lookup ip (cache_insert ip mac cache) ≡ some (six mac)
unfolding cache_lookup
cache_lookup-insert ip mac cache room = rw (found_new ip mac cache room, cache_lookup) refl

-- A request for a machine's address is answered by it, and with the answer the asking machine finds
-- the hardware address, while the machine asked has entered that of the asking one.
pub arp_exchange :
    (mac ip mac' ip' : List ℕ) (cache cache' : List ArpEntry)
    → 0 < length cache
    → 0 < length cache'
    → let (entered, _, answer) = arp_input mac' ip' (send_arp_request mac ip ip') cache' in
      (cache_lookup (four ip) entered ≡ some (six mac))
      × ((reply : List ℕ) × (answer ≡ some reply)
          × (cache_lookup (four ip') (arp_input mac ip reply cache).0 ≡ some (six mac')))
unfolding arp_input send_arp_request send_arp_reply arp_frame same_ip
arp_exchange mac ip mac' ip' cache cache' room room' =
    rw
      (
        ==_refl (get_or ip' 0 0),
        ==_refl (get_or ip' 1 0),
        ==_refl (get_or ip' 2 0),
        ==_refl (get_or ip' 3 0),
      )
      (
        cache_lookup-insert (four ip) (six mac) cache' room',
        (_, refl, cache_lookup-insert (four ip') (six mac') cache room),
      )
