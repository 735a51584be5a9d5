-- ===== src/Security.antt =====
-- kernel/security.c: the table of users, their passwords and the user logged in.
-- Strings are lists of bytes; they end at the first NUL or at the end of the list.
pub mod Password
pub mod Login
pub mod Tests
use vyro_os.Base.{
  ℕ, zero, suc, ◌+◌, ◌%◌, ◌^◌, Bool, true, false, ◌&&◌, Option, none, some, List, [], ◌∷◌, ◌++◌,
  get_elem?, set, take, replicate, leb, ◌==◌, if◌then◌else◌, bit_xor, ℤ, pos, negsuc, minus_one,
}
use vyro_os.Base.Slots.{first}
use vyro_os.Base.Text.{copy_str, str_eq}

abbrev pub max_users : ℕ
max_users = 8

abbrev pub user_name_max : ℕ
user_name_max = 32

-- the size of `pw_hash`
abbrev pub pw_max : ℕ
pw_max = 32

pub record User : Type 0 where
  pub name : List ℕ
  pub pw_hash : List ℕ
  pub uid : ℕ
  pub gid : ℕ
  pub is_admin : ℕ
  pub active : Bool

-- `users`, `user_count` and `logged_in`
pub record Security : Type 0 where
  pub users : List User
  pub user_count : ℕ
  pub logged_in : ℤ

abbrev pub zero_user : User
zero_user = record {
  name = replicate user_name_max 0;
  pw_hash = replicate pw_max 0;
  uid = 0;
  gid = 0;
  is_admin = 0;
  active = false;
}

pub boot : Security
boot = record { users = replicate max_users zero_user; user_count = 0; logged_in = minus_one }

-- `store_pw` with `n` bytes of `out` left: each byte xor 0xA5, and zeros after the last
pub store_from : List ℕ → ℕ → List ℕ
store_from password zero = []
store_from [] (suc n) = replicate (suc n) 0
store_from (c ∷ cs) (suc n) = elim (c == 0) [
  | true ↦ replicate (suc n) 0
  | false ↦ bit_xor c 0xA5 ∷ store_from cs n
]

pub store_pw : List ℕ → List ℕ
unfolding store_from
store_pw password = store_from password pw_max

-- `check_pw` with `n` rounds left. `stored` goes on behind the 32 bytes of the array with what
-- stands there in memory, for the read at index 32 after a password of 32 bytes.
pub check_from : List ℕ → List ℕ → ℕ → Bool
check_from password [] n = false
check_from [] (s ∷ ss) n = s == 0
check_from (c ∷ cs) (s ∷ ss) zero = s == 0
check_from (c ∷ cs) (s ∷ ss) (suc n) = elim (c == 0) [
  | true ↦ s == 0
  | false ↦ if bit_xor c 0xA5 == s then check_from cs ss n else false
]

pub check_pw : List ℕ → List ℕ → Bool
unfolding check_from
check_pw password stored = check_from password stored pw_max

-- `pw_hash` and the byte behind it: the lowest of `uid`.
pub stored_bytes : User → List ℕ
stored_bytes u = u.pw_hash ++ (u.uid % 256 ∷ [])

pub has_name : List ℕ → User → Bool
has_name name u = str_eq u.name name

-- The loops over the first `user_count` entries that stop at the first of that name.
pub find_user : Security → List ℕ → Option (ℕ × User)
unfolding first has_name
find_user s name = first (has_name name) (take s.user_count s.users)

-- The entry that `user_add` writes at `user_count`.
pub new_user : User → ℕ → List ℕ → List ℕ → ℕ → User
unfolding store_pw
new_user u count name password admin = record {
  name = copy_str u.name name user_name_max;
  pw_hash = store_pw password;
  uid = 1000 + count;
  gid = if admin == 0 then 100 else 0;
  is_admin = admin;
  active = true;
}

pub user_add : Security → List ℕ → List ℕ → ℕ → Security × ℤ
unfolding find_user new_user
user_add s name password admin =
    if leb max_users s.user_count then (s, minus_one) else elim (find_user s name) [
      | some (i, u) ↦ (s, minus_one)
      | none ↦ elim (get_elem? s.users s.user_count) [
        | none ↦ (s, minus_one)
        | some u ↦ (
          record s {
            users = set s.users s.user_count (new_user u s.user_count name password admin);
            user_count = s.user_count + 1;
          },
          pos 0,
        )
      ]
    ]

abbrev pub guest : List ℕ
guest = 103 ∷ 117 ∷ 101 ∷ 115 ∷ 116 ∷ []

abbrev pub root : List ℕ
root = 114 ∷ 111 ∷ 111 ∷ 116 ∷ []

abbrev pub toor : List ℕ
toor = 116 ∷ 111 ∷ 111 ∷ 114 ∷ []

-- The last loop of `security_init`: the last entry named guest, from index `i` on.
pub last_guest : List User → ℕ → ℤ → ℤ
unfolding has_name
last_guest [] i logged = logged
last_guest (u ∷ us) i logged = last_guest us (i + 1) (if has_name guest u then pos i else logged)

pub security_init : Security → Security
unfolding user_add last_guest
security_init s =
    let s' =
      (user_add (user_add (record s { user_count = 0; logged_in = minus_one }) root toor 1).0 guest
        guest 0).0 in
    record s' { logged_in = last_guest (take s'.user_count s'.users) 0 s'.logged_in }

pub auth_login : Security → List ℕ → List ℕ → Security × ℤ
unfolding find_user check_pw stored_bytes
auth_login s name password = elim (find_user s name) [
  | none ↦ (s, negsuc 1)
  | some (i, u) ↦ elim (check_pw password (stored_bytes u)) [
    | true ↦ (record s { logged_in = pos i }, pos 0)
    | false ↦ (s, minus_one)
  ]
]

pub auth_logout : Security → Security
unfolding find_user
auth_logout s = elim (find_user s guest) [
  | none ↦ record s { logged_in = minus_one }
  | some (i, u) ↦ record s { logged_in = pos i }
]

-- `current_user`, where `logged_in` is in range
pub current_user : Security → List ℕ
current_user s = elim s.logged_in [
  | negsuc n ↦ guest
  | pos i ↦ elim (get_elem? s.users i) [ none ↦ guest | some u ↦ u.name ]
]

pub current_is_admin : Security → ℕ
current_is_admin s = elim s.logged_in [
  | negsuc n ↦ 0
  | pos i ↦ elim (get_elem? s.users i) [ none ↦ 0 | some u ↦ u.is_admin ]
]
