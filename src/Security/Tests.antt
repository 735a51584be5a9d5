-- ===== src/Security/Tests.antt =====
-- The theorems on users and passwords at the table that the kernel starts with, and runs of it.
use vyro_os.Base.{
  ℕ, ◌≡◌, ◌≢◌, inl, inr, refl, Bool, true, false, Option, none, some, List, [], ◌∷◌, ◌++◌,
  replicate, arith, if◌then◌else◌, ℤ, pos, negsuc, minus_one,
}
use vyro_os.Base.Text.{str_eq}
use vyro_os.Security.{
  boot, zero_user, root, toor, guest, find_user, user_add, auth_login, security_init,
}
use vyro_os.Security.Password.{Plain}
use vyro_os.Security.Login.{HasRoom, auth_login-user_add}

-- After `security_init` guest is logged in, and root logs in with its password.
root_login :
    ((security_init boot).logged_in ≡ pos 1)
    × ((auth_login (security_init boot) root toor).1 ≡ pos 0)
    × ((auth_login (security_init boot) root guest).1 ≡ minus_one)
    × ((auth_login (security_init boot) toor root).1 ≡ negsuc 1)
unfolding boot security_init auth_login str_eq vyro_os.Base.Text.copy_str
    vyro_os.Base.Text.copy_from
root_login = (refl, refl, refl, refl)

boot-HasRoom : HasRoom boot root zero_user
unfolding boot find_user
boot-HasRoom = record { below = omega arith; slot = refl; buffer = omega arith; unknown = refl }

toor-Plain : Plain toor
toor-Plain = ground arith

guest-Plain : Plain guest
guest-Plain = ground arith

auth_login-user_add_example :
    let (s', r) = user_add boot root toor 1 in
    let (s'', r') = auth_login s' root guest in
    (r ≡ pos 0)
    × (r' ≡ (if str_eq guest toor then pos 0 else minus_one))
    × (s''.logged_in ≡ (if str_eq guest toor then pos boot.user_count else boot.logged_in))
    × (s''.users ≡ s'.users)
auth_login-user_add_example =
    auth_login-user_add boot zero_user root toor guest 1 boot-HasRoom (omega arith) guest-Plain
      toor-Plain (omega arith)

abbrev long : List ℕ
long = replicate 32 97

long-Plain : Plain long
long-Plain = ground arith
