-- ===== src/Net/Sockets.antt =====
-- kernel/sockets.c: the table of simulated sockets, found by their file descriptors.
-- A file descriptor is a C `int`; opening 2 ^ 31 sockets, where `next_fd` would overflow, is beyond
-- the model.
pub mod Table
pub mod Calls
pub mod Tests
use vyro_os.Base.{
  ℕ, ◌+◌, ◌%◌, ◌^◌, Bool, true, false, not, ◌&&◌, Option, none, some, List, set, length, replicate,
  ◌==◌, if◌then◌else◌, ℤ, pos, negsuc, minus_one,
}
use vyro_os.Base.Slots.{first, count_of}

abbrev pub sock_dgram : ℕ
sock_dgram = 1

abbrev pub sock_stream : ℕ
sock_stream = 2

abbrev pub max_sockets : ℕ
max_sockets = 32

pub record SockAddr : Type 0 where
  pub family : ℕ
  pub port : ℕ
  pub addr : List ℕ

pub data TcpState : Type 0 where
  tcp_closed : TcpState
  tcp_listen : TcpState
  tcp_syn_sent : TcpState
  tcp_syn_received : TcpState
  tcp_established : TcpState
  tcp_fin_wait_1 : TcpState
  tcp_fin_wait_2 : TcpState
  tcp_close_wait : TcpState
  tcp_closing : TcpState
  tcp_last_ack : TcpState
  tcp_time_wait : TcpState

pub record Socket : Type 0 where
  pub fd : ℕ
  pub in_use : Bool
  pub type : ℕ
  pub local_port : ℕ
  pub remote : SockAddr
  pub tcp_state : TcpState
  pub bytes_tx : ℕ
  pub bytes_rx : ℕ

-- `sockets` and `next_fd`
pub record Sockets : Type 0 where
  pub sockets : List Socket
  pub next_fd : ℕ

-- the zeroed static array
abbrev pub zero_socket : Socket
zero_socket = record {
  fd = 0;
  in_use = false;
  type = 0;
  local_port = 0;
  remote = record { family = 0; port = 0; addr = replicate 4 0 };
  tcp_state = tcp_closed;
  bytes_tx = 0;
  bytes_rx = 0;
}

pub boot : Sockets
boot = record { sockets = replicate max_sockets zero_socket; next_fd = 100 }

pub same_fd : ℤ → ℕ → Bool
same_fd (pos n) m = m == n
same_fd (negsuc n) m = false

-- the test of `find_by_fd`
pub has_fd : ℤ → Socket → Bool
unfolding same_fd
has_fd fd s = s.in_use && same_fd fd s.fd

-- `find_by_fd`; the entry stands with its index, for the writes through the pointer
pub find_by_fd : Sockets → ℤ → Option (ℕ × Socket)
unfolding first has_fd
find_by_fd t fd = first (has_fd fd) t.sockets

pub store : Sockets → ℕ → Socket → Sockets
store t i s = record t { sockets = set t.sockets i s }

pub is_free : Socket → Bool
is_free s = not s.in_use

-- What `sock_socket` makes of a free entry; `remote` keeps what it was.
pub opened : ℕ → ℕ → Socket → Socket
opened type fd s = record s {
  in_use = true;
  type = type;
  fd = fd;
  local_port = 0;
  tcp_state = tcp_closed;
  bytes_tx = 0;
  bytes_rx = 0;
}

pub sock_socket : Sockets → ℕ → Sockets × ℤ
unfolding first is_free opened
sock_socket t type = elim (first is_free t.sockets) [
  | none ↦ (t, minus_one)
  | some (i, s) ↦ (
    record { sockets = set t.sockets i (opened type t.next_fd s); next_fd = t.next_fd + 1 },
    pos t.next_fd,
  )
]

pub bound : SockAddr → Socket → Socket
bound addr s = record s { local_port = addr.port }

-- A call on an open socket: -1 where the descriptor is not open, else the entry is rewritten.
pub on_socket : Sockets → ℤ → (Socket → Socket) → ℤ → Sockets × ℤ
unfolding find_by_fd store
on_socket t fd f result = elim (find_by_fd t fd) [
  | none ↦ (t, minus_one)
  | some (i, s) ↦ (store t i (f s), result)
]

pub sock_bind : Sockets → ℤ → SockAddr → Sockets × ℤ
unfolding on_socket bound
sock_bind t fd addr = on_socket t fd (bound addr) (pos 0)

-- The two states that `sock_connect` passes through are written one after the other.
pub connected : SockAddr → Socket → Socket
connected addr s =
    let s' = record s { remote = addr } in
    if s'.type == sock_stream
    then record (record s' { tcp_state = tcp_syn_sent }) { tcp_state = tcp_established }
    else s'

pub sock_connect : Sockets → ℤ → SockAddr → Sockets × ℤ
unfolding on_socket connected
sock_connect t fd addr = on_socket t fd (connected addr) (pos 0)

pub listening : Socket → Socket
listening s = if s.type == sock_stream then record s { tcp_state = tcp_listen } else s

pub sock_listen : Sockets → ℤ → Sockets × ℤ
unfolding on_socket listening
sock_listen t fd = on_socket t fd listening (pos 0)

pub sent : ℕ → Socket → Socket
sent len s = record s { bytes_tx = (s.bytes_tx + len) % 2 ^ 64 }

-- `sock_send`, for a length below 2 ^ 31: it is returned as an `int`
pub sock_send : Sockets → ℤ → ℕ → Sockets × ℤ
unfolding on_socket sent
sock_send t fd len = on_socket t fd (sent len) (pos len)

pub sock_recv : Sockets → ℤ → Sockets × ℤ
unfolding on_socket
sock_recv t fd = on_socket t fd (λ s. s) (pos 0)

pub is_established : TcpState → Bool
is_established tcp_established = true
is_established _ = false

pub closed : Socket → Socket
unfolding is_established
closed s =
    let s' =
      (if (s.type == sock_stream) && is_established s.tcp_state
        then record s { tcp_state = tcp_closed }
        else s) in
    record s' { in_use = false }

pub sock_close : Sockets → ℤ → Sockets × ℤ
unfolding on_socket closed
sock_close t fd = on_socket t fd closed (pos 0)

pub sock_count : Sockets → ℕ
unfolding count_of
sock_count t = count_of (λ s. s.in_use) t.sockets
