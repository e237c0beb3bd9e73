-- ===== src/Users/Tests.antt =====
-- The theorems on the accounts (xv6-public/sysfile.c) at the tables that usysinit makes.
use ele.Base.{◌≡◌, refl, true, false, some, List, [], ◌∷◌, replicate}
use ele.Str.{Bytes, put, strncmp, strncpy}
use ele.Users.{
  User, root, root_password, blank_user, accountcheck, add_user_rows, delete_user_rows,
  usysinit_rows,
}
use ele.Users.Login.{Checked, accountcheck_lem}
use ele.Users.Accounts.{Added, add_user_rows_lem, Deleted, delete_user_rows_lem}

abbrev nothing : Bytes
nothing _ = 0

abbrev ann : Bytes
ann = put b'a' (put b'n' (put b'n' nothing))

abbrev bob : Bytes
bob = put b'b' (put b'o' (put b'b' nothing))

-- root and nine unused rows
abbrev fresh : List User
fresh = record { name = root; password = root_password; online = true } ∷ replicate 9 blank_user

abbrev two_users : List User
two_users =
    record { name = root; password = root_password; online = true }
    ∷ record { name = ann; password = bob; online = false }
    ∷ replicate 8 blank_user

accountcheck_lem_example :
    Checked root root_password fresh
      (accountcheck root root_password fresh).0
      (accountcheck root root_password fresh).1
accountcheck_lem_example = accountcheck_lem root root_password fresh

delete_user_rows_lem_example : Deleted root ann two_users (delete_user_rows root ann two_users)
delete_user_rows_lem_example = delete_user_rows_lem root ann two_users

add_user_rows_lem_example : Added root ann bob fresh (add_user_rows root ann bob fresh)
add_user_rows_lem_example = add_user_rows_lem root ann bob fresh

-- The file of a system with the users root and ann, after a restart and the login of root.
abbrev restarted : List User
unfolding usysinit_rows accountcheck
restarted =
    (accountcheck root root_password
      (usysinit_rows (some ((root, root_password) ∷ (ann, ann) ∷ [])))).0

-- Adding the user bob overwrites ann, who has not logged in since the restart.
add_user-overwrites :
    (us : List User) × (add_user_rows root bob bob restarted ≡ some us)
    × ((accountcheck ann ann restarted).1 ≡ true)
    × ((accountcheck ann ann us).1 ≡ false)
unfolding restarted add_user_rows accountcheck strncmp strncpy
add_user-overwrites = (_, refl, refl, refl)
