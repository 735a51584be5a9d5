-- ===== src/Net/Sockets/Table.antt =====
-- The table of sockets: at most one open entry for each descriptor, and none at or above `next_fd`.
use vyro_os.Base.{
  ℕ, ◌+◌, ◌≤◌, ◌≡◌, ◌≢◌, refl, sym, ap, ◌∙◌, Bool, true, false, ◌&&◌, ne→==, none, some, set,
  get_elem?, length, arith, ◌==◌, if◌then◌else◌, ℤ, pos, negsuc, length-set,
}
use native.Mathlib.Decide.{ℕ_discrete}
use vyro_os.Base.Slots.{
  count_of, first-Found, first-set_same, first-set_other, count_of-set, first_of_count,
}
use vyro_os.Net.Sockets.{Socket, Sockets, max_sockets, same_fd, has_fd, find_by_fd, store, boot}

pub record IsTable (t : Sockets) : Type 0 where
  pub slots : length t.sockets ≡ max_sockets
  pub unique : (fd : ℤ) → count_of (has_fd fd) t.sockets ≤ 1
  pub fresh : (k : ℕ) → count_of (has_fd (pos (t.next_fd + k))) t.sockets ≡ 0

pub boot-IsTable : IsTable boot
unfolding boot count_of has_fd
boot-IsTable = record { slots = refl; unique = λ fd. omega arith; fresh = λ k. refl }

-- A rewritten entry that keeps its descriptor and stays open.
abbrev pub Keeps : (Socket → Socket) → Type 0
Keeps f = (s : Socket) → ((f s).fd ≡ s.fd) × ((f s).in_use ≡ s.in_use)

pub Keeps-has_fd :
    (f : Socket → Socket) (s : Socket) (fd : ℤ) → Keeps f → has_fd fd (f s) ≡ has_fd fd s
unfolding has_fd
Keeps-has_fd f s fd k = rw ((k s).0, (k s).1, has_fd)

pub store-IsTable :
    (t : Sockets) (i : ℕ) (s s' : Socket)
    → IsTable t
    → get_elem? t.sockets i ≡ some s
    → ((fd : ℤ) → (if has_fd fd s' then 1 else 0) ≤ (if has_fd fd s then 1 else 0))
    → IsTable (store t i s')
unfolding store
store-IsTable t i s s' v at le = record {
  slots = length-set t.sockets i s' ∙ v.slots;
  unique = λ fd. omega (arith, count_of-set (has_fd fd) t.sockets i s s' at, le fd, v.unique fd);
  fresh = λ k. omega (
    arith,
    count_of-set (has_fd (pos (t.next_fd + k))) t.sockets i s s' at,
    le (pos (t.next_fd + k)),
    v.fresh k,
  );
}

pub find-Found :
    (t : Sockets) (fd : ℤ) (i : ℕ) (s : Socket)
    → find_by_fd t fd ≡ some (i, s)
    → (get_elem? t.sockets i ≡ some s) × (has_fd fd s ≡ true)
unfolding find_by_fd
find-Found t fd i s e = let found = first-Found (has_fd fd) t.sockets i s e in (found.0, found.1)

-- Writing over the entry of one descriptor leaves the others as they were.
pub find_other :
    (t : Sockets) (fd other : ℤ) (i : ℕ) (s s' : Socket)
    → find_by_fd t fd ≡ some (i, s)
    → has_fd other s ≡ false
    → has_fd other s' ≡ false
    → find_by_fd (store t i s') other ≡ find_by_fd t other
unfolding find_by_fd store
find_other t fd other i s s' e h k =
    first-set_other (has_fd other) t.sockets i s s' (first-Found (has_fd fd) t.sockets i s e).0 h k

pub find_same :
    (t : Sockets) (fd : ℤ) (i : ℕ) (s s' : Socket)
    → find_by_fd t fd ≡ some (i, s)
    → has_fd fd s' ≡ true
    → find_by_fd (store t i s') fd ≡ some (i, s')
unfolding find_by_fd store
find_same t fd i s s' e h = first-set_same (has_fd fd) t.sockets i s s' e h

same_fd_other :
    (fd other : ℤ) (open' : Bool) (m : ℕ)
    → (open' && same_fd fd m) ≡ true
    → fd ≢ other
    → (open' && same_fd other m) ≡ false
unfolding same_fd
same_fd_other (pos n) (pos k) open' m h ne = elim (ℕ_discrete m k) [
  | yes e ↦ absurd (ne (ap pos (sym (==→≡ open' m n h) ∙ e)))
  | no other ↦ rw (ne→== m k other) (ground arith)
]
  where
    ==→≡ : (b : Bool) (m n : ℕ) → (b && (m == n)) ≡ true → m ≡ n
    ==→≡ b m n h = ground arith
same_fd_other (pos n) (negsuc k) open' m h ne = ground arith
same_fd_other (negsuc n) other open' m h ne = absurd (ground arith)

-- The entry found for a descriptor is found for no other.
pub has_fd_other :
    (t : Sockets) (fd other : ℤ) (i : ℕ) (s : Socket)
    → find_by_fd t fd ≡ some (i, s)
    → fd ≢ other
    → has_fd other s ≡ false
unfolding has_fd find_by_fd
has_fd_other t fd other i s e ne =
    same_fd_other fd other s.in_use s.fd (first-Found (has_fd fd) t.sockets i s e).1 ne

pub find_gone :
    (t : Sockets) (fd : ℤ) (i : ℕ) (s s' : Socket)
    → IsTable t
    → find_by_fd t fd ≡ some (i, s)
    → has_fd fd s' ≡ false
    → find_by_fd (store t i s') fd ≡ none
unfolding find_by_fd store
find_gone t fd i s s' v e h =
    let found = first-Found (has_fd fd) t.sockets i s e in
    first_of_count (has_fd fd) (set t.sockets i s')
      (ground (arith, count_of-set (has_fd fd) t.sockets i s s' found.0, v.unique fd, found.1, h))
