-- ===== src/Net/Checksum/Tests.antt =====
-- The checksum at concrete inputs.
use vyro_os.Base.{ℕ, ◌+◌, ◌%◌, ◌<◌, ◌≡◌, List, [], ◌∷◌, length, arith}
use vyro_os.Net.Checksum.{pseudo_header, udp_checksum}
use vyro_os.Net.Checksum.Fold.{words, udp_checksum_lem}

abbrev ip : List ℕ
ip = 10 ∷ 0 ∷ 2 ∷ 15 ∷ []

abbrev bytes : List ℕ
bytes = 0 ∷ 53 ∷ 200 ∷ []

abbrev sum : ℕ
sum = 0x2FFFE

udp_checksum_lem_example :
    let cs = udp_checksum ip ip bytes in
    (0 < cs)
    × (cs < 65536)
    × ((pseudo_header ip ip 17 (length bytes) + words bytes + cs) % 65535 ≡ 0)
udp_checksum_lem_example =
    udp_checksum_lem ip ip bytes (omega arith, (omega arith, (omega arith, (omega arith, tt))))
      (omega arith, (omega arith, (omega arith, (omega arith, tt))))
      (omega arith, (omega arith, (omega arith, tt))) (omega arith)
