-- ===== src/Net/Sockets/Tests.antt =====
-- The theorems of the socket table on the table that the kernel starts with.
use vyro_os.Base.{ℕ, ◌≡◌, ◌≢◌, inl, inr, refl, [], ◌∷◌, arith, ℤ, pos, negsuc}
use vyro_os.Net.Sockets.{
  Sockets, SockAddr, boot, sock_stream, sock_socket, sock_connect, sock_close, sock_count,
}
use vyro_os.Net.Sockets.Table.{IsTable, boot-IsTable}
use vyro_os.Net.Sockets.Calls.{sock_socket_lem}

abbrev web : SockAddr
web = record { family = 2; port = 80; addr = 10 ∷ 0 ∷ 2 ∷ 2 ∷ [] }

opened_first : (sock_socket boot sock_stream).1 ≡ pos 100
unfolding sock_socket boot
opened_first = refl

round :
    sock_count
      (sock_close (sock_connect (sock_socket boot sock_stream).0 (pos 100) web).0 (pos 100)).0
    ≡ 0
unfolding sock_socket boot sock_connect sock_close sock_count
round = refl

different : {n k : ℕ} → n ≢ k → ◌≢◌ {A = ℤ} (pos n) (pos k)
different h = ground arith

abbrev one_open : Sockets
one_open = (sock_socket boot sock_stream).0

one_open-IsTable : IsTable one_open
unfolding sock_socket boot
one_open-IsTable = elim (sock_socket_lem boot sock_stream (negsuc 0) boot-IsTable (ground arith)) [
  | inl (full, e, r) ↦ absurd (ground arith)
  | inr (i, s, r, before, after, a, b, c, d, others, more, valid) ↦ valid
]
