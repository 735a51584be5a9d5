-- ===== src/Net/Arp/Tests.antt =====
-- Two machines that ask for each other's address.
use vyro_os.Base.{ℕ, ◌≡◌, some, false, List, [], ◌∷◌, replicate, arith}
use vyro_os.Net.Arp.{ArpEntry, arp_input, send_arp_request, cache_lookup}
use vyro_os.Net.Arp.Cache.{arp_exchange}

abbrev empty_cache : List ArpEntry
empty_cache = replicate 8 record { ip = replicate 4 0; mac = replicate 6 0; valid = false }

abbrev here : List ℕ
here = 10 ∷ 0 ∷ 2 ∷ 15 ∷ []

abbrev there : List ℕ
there = 10 ∷ 0 ∷ 2 ∷ 2 ∷ []

abbrev my_mac : List ℕ
my_mac = 82 ∷ 84 ∷ 0 ∷ 18 ∷ 52 ∷ 86 ∷ []

abbrev other_mac : List ℕ
other_mac = 82 ∷ 85 ∷ 10 ∷ 0 ∷ 2 ∷ 2 ∷ []

arp_exchange_example :
    let (entered, _, answer) =
      arp_input other_mac there (send_arp_request my_mac here there) empty_cache in
    (cache_lookup here entered ≡ some my_mac)
    × ((reply : List ℕ) × (answer ≡ some reply)
        × (cache_lookup there (arp_input my_mac here reply empty_cache).0 ≡ some other_mac))
arp_exchange_example =
    arp_exchange my_mac here other_mac there empty_cache empty_cache (omega arith) (omega arith)
