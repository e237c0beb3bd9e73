-- ===== src/Users.antt =====
-- The user accounts of sysfile.c (xv6-public/sysfile.c): `utable`, accountcheck, addUser, deleteUser.
-- A user is a row of `utable.user` with its flag in `utable.online`. The disk work of addUser and
-- deleteUser (saving the table, making the home directory) is left out here; `id` is `myproc()->id`.
pub mod Rows
pub mod Login
pub mod Accounts
mod Tests
use ele.Base.{
  ℕ, zero, suc, ◌+◌, Bool, true, false, ◌&&◌, not, Option, none, some, List, [], ◌∷◌, ◌==◌,
  if◌then◌else◌, set, get_elem?, ltb, replicate, map,
}
use ele.Base.Int.{ℤ, pos, negsuc}
use ele.Str.{Bytes, put, strncmp, strncpy}

abbrev pub num_user : ℕ
num_user = 10

pub record User : Type 0 where
  pub name : Bytes
  pub password : Bytes
  pub online : Bool

-- `strncmp(...) == 0`
abbrev pub is_zero : ℤ → Bool
is_zero (pos n) = n == 0
is_zero (negsuc n) = false

abbrev pub same : Bytes → Bytes → Bool
same p q = is_zero (strncmp p q 16)

abbrev pub root : Bytes
root = put b'r' (put b'o' (put b'o' (put b't' (λ _. 0))))

-- The loop of `accountcheck`, and whether it returned 0.
unfoldable pub accountcheck : Bytes → Bytes → List User → List User × Bool
accountcheck id pw [] = ([], false)
accountcheck id pw (u ∷ us) =
    let (us', found) = accountcheck id pw us in
    if same u.name id && same u.password pw
    then (record u { online = true } ∷ us, true)
    else (u ∷ us', found)

-- The first loop of `addUser` and of `deleteUser`: the row whose name is `username`.
unfoldable pub find_user : Bytes → List User → ℕ → Option ℕ
find_user username [] i = none
find_user username (u ∷ us) i =
    if same u.name username then some i else find_user username us (i + 1)

-- The second loop of `addUser`: the first row that is not online.
unfoldable pub find_offline : List User → ℕ → Option ℕ
find_offline [] i = none
find_offline (u ∷ us) i = if not u.online then some i else find_offline us (i + 1)

abbrev pub enrol : Bytes → Bytes → User → User
enrol username password u = record {
  name = strncpy u.name username 16;
  password = strncpy u.password password 16;
  online = true;
}

-- The table part of `addUser`: none for the result -1.
unfoldable pub add_user_rows : Bytes → Bytes → Bytes → List User → Option (List User)
unfolding find_user find_offline
add_user_rows id username password us =
    if not (same id root) then none else elim (find_user username us 0) [
      | some i ↦ none
      | none ↦ elim (find_offline us 0) [
        | none ↦ none
        | some i ↦ elim (get_elem? us i) [
          | none ↦ none
          | some u ↦ some (set us i (enrol username password u))
        ]
      ]
    ]

-- `for(int j = 0; j < 16; j++) field[j] = '\0';`
abbrev pub clear16 : Bytes → Bytes
clear16 p j = if ltb j 16 then 0 else p j

abbrev pub erased : User → User
erased u = record { name = clear16 u.name; password = clear16 u.password; online = false }

-- The table part of `deleteUser`: none for the result -1.
unfoldable pub delete_user_rows : Bytes → Bytes → List User → Option (List User)
unfolding find_user
delete_user_rows id username us =
    if not (same id root)
    then none
    else if same username root
    then none
    else elim (find_user username us 0) [
      | none ↦ none
      | some i ↦ elim (get_elem? us i) [ none ↦ none | some u ↦ some (set us i (erased u)) ]
    ]

abbrev pub root_password : Bytes
root_password = put b'0' (put b'0' (put b'0' (put b'0' (λ _. 0))))

abbrev pub blank_user : User
blank_user = record { name = λ _. 0; password = λ _. 0; online = false }

-- `strncpy(utable.user[0][0], "root", 16)` and the same for the password
abbrev pub make_root : Bool → List User → List User
make_root flag [] = []
make_root flag (u ∷ us) =
    record {
      name = strncpy u.name root 16;
      password = strncpy u.password root_password 16;
      online = flag;
    }
    ∷ us

-- The rows that `usysinit` leaves: every flag is cleared first. Without the file `useraccount` the
-- table is empty but for root, who is online. With it, the names and passwords are those of the file.
unfoldable pub usysinit_rows : Option (List (Bytes × Bytes)) → List User
usysinit_rows none = make_root true (replicate num_user blank_user)
usysinit_rows (some saved) =
    make_root false
      (map (λ (r : Bytes × Bytes). record { name = r.0; password = r.1; online = false }) saved)
