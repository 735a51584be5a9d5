-- ===== src/Net/Udp/Tests.antt =====
-- A datagram for a registered port.
use vyro_os.Base.Slots.{first}
use vyro_os.Base.{ℕ, ◌≡◌, refl, some, List, [], ◌∷◌, replicate, arith}
use vyro_os.Net.Tcp.Wire.{four}
use vyro_os.Net.Udp.{
  UdpListener, no_listener, listens, is_vacant, udp_listen, build_udp_frame, udp_input,
}
use vyro_os.Net.Udp.Deliver.{udp_input-build}

abbrev ports : List UdpListener
ports = replicate 16 no_listener

abbrev here : List ℕ
here = 10 ∷ 0 ∷ 2 ∷ 15 ∷ []

abbrev mac : List ℕ
mac = 82 ∷ 84 ∷ 0 ∷ 18 ∷ 52 ∷ 86 ∷ []

abbrev bytes : List ℕ
bytes = 104 ∷ 105 ∷ []

udp_input-build_example :
    (frame : List ℕ) × (build_udp_frame mac mac here here 5353 68 bytes ≡ some frame)
    × (udp_input frame (udp_listen 68 7 ports).0
        ≡ some record { to = 7; src_ip = four here; src_port = 5353; payload = bytes })
unfolding udp_listen listens is_vacant first
udp_input-build_example =
    udp_input-build mac mac here here 5353 68 7 bytes ports (omega arith, omega arith) (omega arith)
      refl
