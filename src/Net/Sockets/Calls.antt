-- ===== src/Net/Sockets/Calls.antt =====
-- What each call does to the table, to the socket that it names and to every other socket.
use vyro_os.Base.{
  ℕ, ◌+◌, ◌-◌, ◌≤◌, ◌≡◌, ◌≢◌, ◌⊎◌, inl, inr, refl, ap, ◌∙◌, true, false, Option, none, some, set,
  get_elem?, arith, ◌==◌, ==_refl, ne→==, if◌then◌else◌, ℤ, pos, negsuc, minus_one, Option-cases,
  length-set,
}
use native.Mathlib.Decide.{ℕ_discrete}
use vyro_os.Base.Slots.{
  first, count_of, NoneOf, first_lem, first-set_new, first-set_other, count_of-set, first_of_count,
}
use vyro_os.Net.Sockets.{
  Socket, Sockets, SockAddr, tcp_closed, tcp_established, sock_stream, same_fd, has_fd, find_by_fd,
  store, is_free, sock_socket, on_socket, opened, connected, closed, sock_connect, sock_close,
  sock_count,
}
use vyro_os.Net.Sockets.Table.{
  IsTable, Keeps, find-Found, Keeps-has_fd, store-IsTable, find_other, find_same, find_gone,
  has_fd_other,
}

on_socket-none :
    (t : Sockets) (fd : ℤ) (f : Socket → Socket) (r : ℤ)
    → find_by_fd t fd ≡ none
    → on_socket t fd f r ≡ (t, minus_one)
unfolding on_socket
on_socket-none t fd f r e = rw (e, on_socket)

on_socket-some :
    (t : Sockets) (fd : ℤ) (f : Socket → Socket) (r : ℤ) (i : ℕ) (s : Socket)
    → find_by_fd t fd ≡ some (i, s)
    → on_socket t fd f r ≡ (store t i (f s), r)
unfolding on_socket
on_socket-some t fd f r i s e = rw (e, on_socket)

-- A call that keeps descriptors fails with -1 and no change on a descriptor that is not open;
-- otherwise it rewrites that descriptor's entry and no other.
pub on_socket_lem :
    (t : Sockets) (fd other : ℤ) (f : Socket → Socket) (r : ℤ)
    → IsTable t
    → fd ≢ other
    → Keeps f
    → let (t', r') = on_socket t fd f r in
      ((find_by_fd t fd ≡ none) × (t' ≡ t) × (r' ≡ minus_one))
      ⊎ ((i : ℕ) × (s : Socket) × (find_by_fd t fd ≡ some (i, s))
          × (find_by_fd t' fd ≡ some (i, f s))
          × (find_by_fd t' other ≡ find_by_fd t other)
          × (r' ≡ r)
          × IsTable t')
on_socket_lem t fd other f r v ne k = elim (Option-cases (find_by_fd t fd)) [
  | inl e ↦ rw (on_socket-none t fd f r e) (inl (e, refl, refl))
  | inr (x, e) ↦
      let found = find-Found t fd x.0 x.1 e in
      let same : (g : ℤ) → has_fd g (f x.1) ≡ has_fd g x.1 = λ g. Keeps-has_fd f x.1 g k in
      let away = has_fd_other t fd other x.0 x.1 e ne in
      rw (on_socket-some t fd f r x.0 x.1 e) (
        inr (
          x.0,
          x.1,
          e,
          find_same t fd x.0 x.1 (f x.1) e (same fd ∙ found.1),
          find_other t fd other x.0 x.1 (f x.1) e away (same other ∙ away),
          refl,
          store-IsTable t x.0 x.1 (f x.1) v found.0 (λ g. rw (same g) (omega arith)),
        ))
]

-- Connecting an open socket records the peer and, on a stream socket, ends in the established
-- state; it fails with -1 on a descriptor that is not open. No other descriptor is touched and the
-- table stays valid.
pub sock_connect_lem :
    (t : Sockets) (fd other : ℤ) (addr : SockAddr)
    → IsTable t
    → fd ≢ other
    → let (t', r) = sock_connect t fd addr in
      ((find_by_fd t fd ≡ none) × (t' ≡ t) × (r ≡ minus_one))
      ⊎ ((i : ℕ) × (s s' : Socket) × (find_by_fd t fd ≡ some (i, s))
          × (find_by_fd t' fd ≡ some (i, s'))
          × (s'.remote ≡ addr)
          × (s'.tcp_state ≡ (if s.type == sock_stream then tcp_established else s.tcp_state))
          × (find_by_fd t' other ≡ find_by_fd t other)
          × (r ≡ pos 0)
          × IsTable t')
unfolding sock_connect connected
sock_connect_lem t fd other addr v ne =
    elim (on_socket_lem t fd other (connected addr) (pos 0) v ne keeps) [
      | inl refused ↦ inl refused
      | inr (i, s, before, after, others, r, v') ↦
          inr (i, s, connected addr s, before, after, (state s).0, (state s).1, others, r, v')
    ]
  where
    keeps : Keeps (connected addr)
    keeps s = ground arith

    state :
        (s : Socket)
        → ((connected addr s).remote ≡ addr)
          × ((connected addr s).tcp_state
              ≡ (if s.type == sock_stream then tcp_established else s.tcp_state))
    state s = ground arith

-- Closing an open socket frees its descriptor and lowers the number of open sockets by one; it
-- fails with -1 on a descriptor that is not open. No other descriptor is touched and the table
-- stays valid.
pub sock_close_lem :
    (t : Sockets) (fd other : ℤ)
    → IsTable t
    → fd ≢ other
    → let (t', r) = sock_close t fd in
      ((find_by_fd t fd ≡ none) × (t' ≡ t) × (r ≡ minus_one))
      ⊎ ((find_by_fd t fd ≢ none)
          × (find_by_fd t' fd ≡ none)
          × (find_by_fd t' other ≡ find_by_fd t other)
          × (sock_count t' + 1 ≡ sock_count t)
          × (r ≡ pos 0)
          × IsTable t')
unfolding sock_close has_fd closed sock_count store
sock_close_lem t fd other v ne = elim (Option-cases (find_by_fd t fd)) [
  | inl e ↦ rw (on_socket-none t fd closed (pos 0) e) (inl (e, refl, refl))
  | inr (x, e) ↦
      let found = find-Found t fd x.0 x.1 e in
      let away = has_fd_other t fd other x.0 x.1 e ne in
      rw (on_socket-some t fd closed (pos 0) x.0 x.1 e) (
        inr (
          rw e some≢none,
          find_gone t fd x.0 x.1 (closed x.1) v e (shut x.1 fd),
          find_other t fd other x.0 x.1 (closed x.1) e away (shut x.1 other),
          fewer x.0 x.1 found.0 (open_at x.1 found.1),
          refl,
          store-IsTable t x.0 x.1 (closed x.1) v found.0 (λ g. omega arith),
        ))
]
  where
    some≢none : {x : ℕ × Socket} → ◌≢◌ {A = Option (ℕ × Socket)} (some x) none
    some≢none = ground arith

    shut : (s : Socket) (g : ℤ) → has_fd g (closed s) ≡ false
    shut s g = refl

    open_at : (s : Socket) → has_fd fd s ≡ true → s.in_use ≡ true
    open_at s h = ground arith

    fewer :
        (i : ℕ) (s : Socket)
        → get_elem? t.sockets i ≡ some s
        → s.in_use ≡ true
        → sock_count (store t i (closed s)) + 1 ≡ sock_count t
    fewer i s at open' =
        ground (arith, count_of-set (λ s. s.in_use) t.sockets i s (closed s) at, open')

opened_at :
    (t : Sockets) (type i : ℕ) (s : Socket)
    → first is_free t.sockets ≡ some (i, s)
    → sock_socket t type ≡ (
      record { sockets = set t.sockets i (opened type t.next_fd s); next_fd = t.next_fd + 1 },
      pos t.next_fd,
    )
unfolding sock_socket
opened_at t type i s e = rw (e, sock_socket)

opened_none :
    (t : Sockets) (type : ℕ) → first is_free t.sockets ≡ none → sock_socket t type ≡ (t, minus_one)
unfolding sock_socket
opened_none t type e = rw (e, sock_socket)

-- An opened entry has its new descriptor and no other; the free one had none.
has_fd-opened : (type n : ℕ) (s : Socket) (fd : ℤ) → has_fd fd (opened type n s) ≡ same_fd fd n
unfolding has_fd opened
has_fd-opened type n s fd = refl

free_has_none : (s : Socket) (fd : ℤ) → is_free s ≡ true → has_fd fd s ≡ false
unfolding has_fd is_free
free_has_none s fd h = ground arith

fresh_from :
    (t : Sockets) (n : ℕ) → IsTable t → t.next_fd ≤ n → count_of (has_fd (pos n)) t.sockets ≡ 0
fresh_from t n v le =
    let e : n ≡ t.next_fd + (n - t.next_fd) = omega arith in
    ap (λ m. count_of (has_fd (pos m)) t.sockets) e ∙ v.fresh (n - t.next_fd)

unused_next : (t : Sockets) → IsTable t → first (has_fd (pos t.next_fd)) t.sockets ≡ none
unused_next t v =
    first_of_count (has_fd (pos t.next_fd)) t.sockets (fresh_from t t.next_fd v (omega arith))

count-opened :
    (t : Sockets) (type i : ℕ) (s : Socket) (g : ℤ)
    → get_elem? t.sockets i ≡ some s
    → is_free s ≡ true
    → count_of (has_fd g) (set t.sockets i (opened type t.next_fd s))
      ≡ count_of (has_fd g) t.sockets + (if same_fd g t.next_fd then 1 else 0)
count-opened t type i s g at free =
    let e = count_of-set (has_fd g) t.sockets i s (opened type t.next_fd s) at in
    let e' = rw (free_has_none s g free, has_fd-opened type t.next_fd s g) at e in omega (arith, e')

opened-IsTable :
    (t : Sockets) (type i : ℕ) (s : Socket)
    → IsTable t
    → get_elem? t.sockets i ≡ some s
    → is_free s ≡ true
    → IsTable
        (record { sockets = set t.sockets i (opened type t.next_fd s); next_fd = t.next_fd + 1 })
unfolding same_fd
opened-IsTable t type i s v at free = record {
  slots = length-set t.sockets i (opened type t.next_fd s) ∙ v.slots;
  unique = λ g. rw (count-opened t type i s g at free) (at_most g);
  fresh = λ k.
      rw (count-opened t type i s (pos (t.next_fd + 1 + k)) at free)
        (let e = fresh_from t (t.next_fd + 1 + k) v (omega arith) in ground arith);
}
  where
    at_most : (g : ℤ) → count_of (has_fd g) t.sockets + (if same_fd g t.next_fd then 1 else 0) ≤ 1
    at_most (negsuc n) = omega (arith, v.unique (negsuc n))
    at_most (pos n) = elim (ℕ_discrete t.next_fd n) [
      | yes e ↦ let e' = fresh_from t n v (omega (arith, e)) in ground arith
      | no ne ↦ rw (ne→== t.next_fd n ne) (omega (arith, v.unique (pos n)))
    ]

-- Opening a socket fails with -1 and no change where every entry is open; otherwise it returns a
-- descriptor that was not open, and opens it closed, unbound and with nothing sent or received.
-- No other descriptor is touched and the table stays valid.
pub sock_socket_lem :
    (t : Sockets) (type : ℕ) (other : ℤ)
    → IsTable t
    → pos t.next_fd ≢ other
    → let (t', r) = sock_socket t type in
      (NoneOf is_free t.sockets × (t' ≡ t) × (r ≡ minus_one))
      ⊎ ((i : ℕ) × (s : Socket) × (r ≡ pos t.next_fd)
          × (find_by_fd t r ≡ none)
          × (find_by_fd t' r ≡ some (i, s))
          × (s.type ≡ type)
          × (s.tcp_state ≡ tcp_closed)
          × (s.local_port ≡ 0)
          × (s.bytes_tx + s.bytes_rx ≡ 0)
          × (find_by_fd t' other ≡ find_by_fd t other)
          × (sock_count t' ≡ sock_count t + 1)
          × IsTable t')
unfolding same_fd is_free opened
sock_socket_lem t type other v ne = elim (first_lem is_free t.sockets) [
  | inl (e, full) ↦ rw (opened_none t type e) (inl (full, refl, refl))
  | inr (i, s, (at, free, e)) ↦ rw (opened_at t type i s e) (
      inr (
        i,
        opened type t.next_fd s,
        refl,
        unfold find_by_fd in unused_next t v,
        unfold find_by_fd in
            first-set_new (has_fd (pos t.next_fd)) t.sockets i s (opened type t.next_fd s)
              (unused_next t v) at
              (has_fd-opened type t.next_fd s (pos t.next_fd)
                ∙ unfold same_fd in ==_refl t.next_fd),
        unfold opened in refl,
        unfold opened in refl,
        unfold opened in refl,
        unfold opened in refl,
        unfold find_by_fd in
            first-set_other (has_fd other) t.sockets i s (opened type t.next_fd s) at
              (free_has_none s other free)
              (has_fd-opened type t.next_fd s other ∙ other_fd t.next_fd other ne),
        unfold sock_count in one_more i s at free,
        opened-IsTable t type i s v at free,
      ))
]
  where
    other_fd : (n : ℕ) (g : ℤ) → pos n ≢ g → same_fd g n ≡ false
    other_fd n (pos k) h = ne→== n k (λ e. h (ap pos e))
    other_fd n (negsuc k) h = refl

    one_more :
        (i : ℕ) (s : Socket)
        → get_elem? t.sockets i ≡ some s
        → is_free s ≡ true
        → count_of (λ s. s.in_use) (set t.sockets i (opened type t.next_fd s))
          ≡ count_of (λ s. s.in_use) t.sockets + 1
    one_more i s at free =
        ground (arith, count_of-set (λ s. s.in_use) t.sockets i s (opened type t.next_fd s) at)
