-- ===== src/Security/Login.antt =====
-- Users added and logged in.
use native.Mathlib.Numerals.{add-one}
use vyro_os.Base.{
  ℕ, zero, suc, ◌+◌, ◌-◌, ◌%◌, ◌≤◌, ◌<◌, ◌≡◌, ◌≢◌, ◌⊎◌, inl, inr, refl, ap, ◌∙◌, Bool, true, false,
  none, some, List, [], ◌∷◌, length, take, set, get_elem?, arith, leb, lt→leb, le→leb, Option-cases,
  if◌then◌else◌, pos, minus_one, Bool-cases,
}
use vyro_os.Base.Slots.{first-take_new}
use vyro_os.Base.Text.{c_str, str_eq, str_eq_iff, copy_str, c_str-copy_str}
use vyro_os.Security.{
  User, Security, user_name_max, pw_max, max_users, has_name, find_user, new_user, check_pw,
  stored_bytes, user_add, auth_login,
}
use vyro_os.Security.Password.{Plain, check_pw-store_pw, check_pw_full}

-- The table has room for one more user, whose name is not taken.
pub record HasRoom (s : Security) (name : List ℕ) (u : User) : Type 0 where
  pub below : s.user_count < max_users
  pub slot : get_elem? s.users s.user_count ≡ some u
  pub buffer : user_name_max ≤ length u.name
  pub unknown : find_user s name ≡ none

-- What `user_add` leaves.
abbrev pub added : Security → User → List ℕ → List ℕ → ℕ → Security
added s u name password admin = record s {
  users = set s.users s.user_count (new_user u s.user_count name password admin);
  user_count = s.user_count + 1;
}

user_add_room :
    (s : Security) (u : User) (name password : List ℕ) (admin : ℕ)
    → HasRoom s name u
    → user_add s name password admin ≡ (added s u name password admin, pos 0)
unfolding user_add
user_add_room s u name password admin h =
    rw (lt→leb max_users s.user_count h.below, h.unknown, h.slot, user_add)

in_range : {A : Type 0} (xs : List A) (i : ℕ) (a : A) → get_elem? xs i ≡ some a → i < length xs
in_range [] i a e = absurd (ground arith)
in_range (x ∷ xs) zero a e = omega arith
in_range (x ∷ xs) (suc i) a e = omega (arith, in_range xs i a e)

take_all : (n : ℕ) (xs : List ℕ) → length xs ≤ n → take n xs ≡ xs
take_all zero [] h = refl
take_all zero (x ∷ xs) h = absurd (omega arith)
take_all (suc n) [] h = refl
take_all (suc n) (x ∷ xs) h = ap (λ r. x ∷ r) (take_all n xs (omega arith))

found_added :
    (s : Security) (u : User) (name password : List ℕ) (admin : ℕ)
    → HasRoom s name u
    → length (c_str name) < user_name_max
    → find_user (added s u name password admin) name
      ≡ some (s.user_count, new_user u s.user_count name password admin)
unfolding find_user has_name new_user
found_added s u name password admin h short = rw (add-one s.user_count) (
    first-take_new (has_name name) s.users s.user_count _ h.unknown
      (in_range s.users s.user_count u h.slot) named)
  where
    named : has_name name (new_user u s.user_count name password admin) ≡ true
    named = (str_eq_iff (copy_str u.name name user_name_max) name).1 (
        c_str-copy_str u.name name user_name_max (omega arith) h.buffer
        ∙ take_all (user_name_max - 1) (c_str name) (omega (arith, short)))

stored_added :
    (u : User) (count : ℕ) (name password q : List ℕ) (admin : ℕ)
    → Plain q
    → Plain password
    → length (c_str password) < pw_max
    → check_pw q (stored_bytes (new_user u count name password admin)) ≡ str_eq q password
unfolding stored_bytes new_user
stored_added u count name password q admin hq hp short = check_pw-store_pw q password _ hq hp short

login_accepted :
    (s : Security) (name q : List ℕ) (i : ℕ) (u : User)
    → find_user s name ≡ some (i, u)
    → check_pw q (stored_bytes u) ≡ true
    → auth_login s name q ≡ (record s { logged_in = pos i }, pos 0)
unfolding auth_login
login_accepted s name q i u e h = rw (e, auth_login, h)

login_refused :
    (s : Security) (name q : List ℕ) (i : ℕ) (u : User)
    → find_user s name ≡ some (i, u)
    → check_pw q (stored_bytes u) ≡ false
    → auth_login s name q ≡ (s, minus_one)
unfolding auth_login
login_refused s name q i u e h = rw (e, auth_login, h)

-- A user added, with a name and a password that fit their arrays and without the byte 0xA5 in the
-- passwords, logs in with the same password and is refused with -1, nothing changed, for another.
pub auth_login-user_add :
    (s : Security) (u : User) (name password q : List ℕ) (admin : ℕ)
    → HasRoom s name u
    → length (c_str name) < user_name_max
    → Plain q
    → Plain password
    → length (c_str password) < pw_max
    → let (s', r) = user_add s name password admin in
      let (s'', r') = auth_login s' name q in
      (r ≡ pos 0)
      × (r' ≡ (if str_eq q password then pos 0 else minus_one))
      × (s''.logged_in ≡ (if str_eq q password then pos s.user_count else s.logged_in))
      × (s''.users ≡ s'.users)
auth_login-user_add s u name password q admin h short hq hp fits =
    let found = found_added s u name password admin h short in
    let same = stored_added u s.user_count name password q admin hq hp fits in
    elim (Bool-cases (str_eq q password)) [
      | inl t ↦
          rw
            (
              user_add_room s u name password admin h,
              login_accepted _ name q _ _ found (same ∙ t),
              t,
            )
            (refl, refl, refl, refl)
      | inr f ↦
          rw
            (
              user_add_room s u name password admin h,
              login_refused _ name q _ _ found (same ∙ f),
              f,
            )
            (refl, refl, refl, refl)
    ]

-- Adding a user whose name is taken, or to a full table, fails with -1 and changes nothing.
pub user_add_refused :
    (s : Security) (name password : List ℕ) (admin : ℕ)
    → (max_users ≤ s.user_count) ⊎ (find_user s name ≢ none)
    → user_add s name password admin ≡ (s, minus_one)
unfolding user_add
user_add_refused s name password admin (inl full) =
    rw (le→leb max_users s.user_count full, user_add)
user_add_refused s name password admin (inr taken) = elim (Option-cases (find_user s name)) [
  | inl e ↦ absurd (taken e)
  | inr (x, e) ↦ rw (e, user_add) (either (leb max_users s.user_count))
]
  where
    either : {A : Type 0} (b : Bool) {x : A} → (if b then x else x) ≡ x
    either true = refl
    either false = refl

-- A second user of the name just added is refused.
pub user_add_twice :
    (s : Security) (u : User) (name password password' : List ℕ) (admin admin' : ℕ)
    → HasRoom s name u
    → length (c_str name) < user_name_max
    → let s' = (user_add s name password admin).0 in
      user_add s' name password' admin' ≡ (s', minus_one)
user_add_twice s u name password password' admin admin' h short =
    rw (user_add_room s u name password admin h) (
      user_add_refused _ name password' admin'
        (inr (rw (found_added s u name password admin h short) (ground arith))))

-- A user added with a password of 32 bytes or more, without the byte 0xA5, is accepted by
-- `user_add` and then refused at every login, with its own password too.
pub auth_login_locked :
    (s : Security) (u : User) (name password q : List ℕ) (admin : ℕ)
    → HasRoom s name u
    → length (c_str name) < user_name_max
    → Plain password
    → pw_max ≤ length (c_str password)
    → let (s', r) = user_add s name password admin in
      (r ≡ pos 0) × (auth_login s' name q ≡ (s', minus_one))
unfolding stored_bytes new_user
auth_login_locked s u name password q admin h short hp long =
    rw (user_add_room s u name password admin h) (
      refl,
      login_refused _ name q s.user_count _ (found_added s u name password admin h short)
          (locked s.user_count h.below),
    )
  where
    locked :
        (n : ℕ)
        → n < max_users
        → check_pw q (stored_bytes (new_user u n name password admin)) ≡ false
    locked n lt = check_pw_full q password ((1000 + n) % 256) hp (omega arith) long
