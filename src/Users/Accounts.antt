-- ===== src/Users/Accounts.antt =====
-- What addUser and deleteUser do to the table (xv6-public/sysfile.c).
use native.Mathlib.Nat.{zero-add}
use ele.Base.{
  ℕ, ◌+◌, ◌<◌, ◌≡◌, refl, ◌≢◌, true, false, Option, none, some, List, arith, set, get_elem?,
  Bool-cases, Option-cases, inl, inr, ◌⊎◌, get_elem?-lt, get_elem?-set_self, get_elem?-set_ne,
}
use ele.Str.{Bytes, strncpy}
use ele.Str.Compare.{Agrees, Agrees-sym, strncmp-Agrees}
use ele.Str.Copy.{strncmp-strncpy}
use ele.Users.{
  User, same, root, accountcheck, find_user, find_offline, enrol, add_user_rows, erased,
  delete_user_rows,
}
use ele.Users.Rows.{
  same-Agrees, find_user-some, find_user-none, find_offline-some, find_offline-first,
  find_offline-none,
}
use ele.Users.Login.{accountcheck-Account}

-- Some row has the name.
abbrev pub Named : List User → Bytes → Type 0
Named us name = (i : ℕ) × (u : User) × (get_elem? us i ≡ some u) × (same u.name name ≡ true)

-- No row has the name.
abbrev pub Unnamed : List User → Bytes → Type 0
Unnamed us name = (i : ℕ) (u : User) → get_elem? us i ≡ some u → same u.name name ≡ false

-- The outcomes of addUser by a caller with the id `id`.
abbrev pub Added : Bytes → Bytes → Bytes → List User → Option (List User) → Type 0
Added id name pw us none =
    (same id root ≡ false)
    ⊎ (Named us name ⊎ ((i : ℕ) (u : User) → get_elem? us i ≡ some u → u.online ≡ true))
Added id name pw us (some us') =
    (same id root ≡ true)
    × Unnamed us name
    × ((i : ℕ) × (u : User) × (get_elem? us i ≡ some u)
        × (u.online ≡ false)
        × ((j : ℕ) (v : User) → j < i → get_elem? us j ≡ some v → v.online ≡ true)
        × (get_elem? us' i ≡ some (enrol name pw u))
        × ((j : ℕ) → i ≢ j → get_elem? us' j ≡ get_elem? us j))
    × ((accountcheck name pw us').1 ≡ true)

-- What `strncpy` wrote compares equal to its source.
copied-Agrees : (s t : Bytes) → Agrees (strncpy s t 16) t 16
copied-Agrees s t =
    Agrees-sym t (strncpy s t 16) 16
      ((strncmp-Agrees t (strncpy s t 16) 16).0 (strncmp-strncpy s t 16))

module _ (id name pw : Bytes) (us : List User) where
  add_user-success :
      (i : ℕ) (u : User)
      → same id root ≡ true
      → find_user name us 0 ≡ none
      → find_offline us 0 ≡ some i
      → get_elem? us i ≡ some u
      → add_user_rows id name pw us ≡ some (set us i (enrol name pw u))
  unfolding add_user_rows
  add_user-success i u caller absent free here = simp (caller, absent, free, here)

  enrolled-Account :
      (i : ℕ) (u : User)
      → get_elem? us i ≡ some u
      → (accountcheck name pw (set us i (enrol name pw u))).1 ≡ true
  enrolled-Account i u here = accountcheck-Account name pw (set us i (enrol name pw u)) i (
    enrol name pw u,
    get_elem?-set_self us i _ (get_elem?-lt us i here),
    copied-Agrees u.name name,
    copied-Agrees u.password pw,
  )

  add_user-refused : same id root ≡ false → add_user_rows id name pw us ≡ none
  unfolding add_user_rows
  add_user-refused h = simp h

  add_user-exists : (i : ℕ) → find_user name us 0 ≡ some i → add_user_rows id name pw us ≡ none
  unfolding add_user_rows
  add_user-exists i h = elim (Bool-cases (same id root)) [ inl e ↦ simp (e, h) | inr e ↦ simp e ]

  add_user-crowded :
      find_user name us 0 ≡ none → find_offline us 0 ≡ none → add_user_rows id name pw us ≡ none
  unfolding add_user_rows
  add_user-crowded h f = elim (Bool-cases (same id root)) [
    | inl e ↦ simp (e, h, f)
    | inr e ↦ simp e
  ]

  -- addUser fails exactly for a caller that is not root, a name that some row has, or a table in
  -- which every row is online. Otherwise it writes the name and the password into the first row that
  -- is not online, whoever's account it is, changes no other row, and the new account can log in.
  pub add_user_rows_lem : Added id name pw us (add_user_rows id name pw us)
  add_user_rows_lem = elim (Bool-cases (same id root)) [
    | inr out ↦ rw (add_user-refused out) (inl out)
    | inl caller ↦ elim (Option-cases (find_user name us 0)) [
      | inr (i, e) ↦
          let (d, u, at, g, s) = find_user-some name us 0 {j = i} e in
          rw (add_user-exists i e) (inr (inl (d, u, g, s)))
      | inl absent ↦ elim (Option-cases (find_offline us 0)) [
        | inl e ↦ rw (add_user-crowded absent e) (inr (inr (find_offline-none us 0 e)))
        | inr (i, free) ↦
            let (d, u, at, g, off) = find_offline-some us 0 {j = i} free in
            let at_d : find_offline us 0 ≡ some (0 + d) = rw (← at) free in
            let at_i : get_elem? us i ≡ some u = rw (at, zero-add) g in
            rw (add_user-success i u caller absent free at_i) (
              caller,
              find_user-none name us 0 absent,
              (
                i,
                u,
                at_i,
                off,
                λ j v l h. find_offline-first us 0 d at_d j v (omega arith) h,
                get_elem?-set_self us i _ (get_elem?-lt us i at_i),
                λ j ne. get_elem?-set_ne us _ ne,
              ),
              enrolled-Account i u at_i,
            )
      ]
    ]
  ]

not-Agrees : (p : Bytes) → same p root ≡ false → Agrees p root 16 → ⊥
not-Agrees p e a = let h = (same-Agrees p root).1 a in cc

-- The outcomes of deleteUser by a caller with the id `id`.
-- An account that is gone: neither name nor password is left in the 16 bytes of each, and nobody is
-- logged in.
pub record IsErased (u : User) : Type 0 where
  pub no_name : (j : ℕ) → j < 16 → u.name j ≡ 0
  pub no_password : (j : ℕ) → j < 16 → u.password j ≡ 0
  pub offline : u.online ≡ false

erased-IsErased : (u : User) → IsErased (erased u)
erased-IsErased u = record {
  no_name = λ j lt. ground arith;
  no_password = λ j lt. ground arith;
  offline = refl;
}

abbrev pub Deleted : Bytes → Bytes → List User → Option (List User) → Type 0
Deleted id name us none = (Agrees id root 16 → ⊥) ⊎ (Agrees name root 16 ⊎ Unnamed us name)
Deleted id name us (some us') =
    Agrees id root 16
    × (Agrees name root 16 → ⊥)
    × ((i : ℕ) × (u : User) × (get_elem? us i ≡ some u)
        × Agrees u.name name 16
        × ((u' : User) × (get_elem? us' i ≡ some u') × IsErased u')
        × ((j : ℕ) → i ≢ j → get_elem? us' j ≡ get_elem? us j))

module _ (id name : Bytes) (us : List User) where
  delete_user-success :
      (i : ℕ) (u : User)
      → same id root ≡ true
      → same name root ≡ false
      → find_user name us 0 ≡ some i
      → get_elem? us i ≡ some u
      → delete_user_rows id name us ≡ some (set us i (erased u))
  unfolding delete_user_rows
  delete_user-success i u caller other e here = simp (caller, other, e, here)

  delete_user-refused : same id root ≡ false → delete_user_rows id name us ≡ none
  unfolding delete_user_rows
  delete_user-refused h = simp h

  delete_user-root : same name root ≡ true → delete_user_rows id name us ≡ none
  unfolding delete_user_rows
  delete_user-root h = elim (Bool-cases (same id root)) [ inl e ↦ simp (e, h) | inr e ↦ simp e ]

  delete_user-absent :
      same name root ≡ false → find_user name us 0 ≡ none → delete_user_rows id name us ≡ none
  unfolding delete_user_rows
  delete_user-absent o h = elim (Bool-cases (same id root)) [
    | inl e ↦ simp (e, o, h)
    | inr e ↦ simp e
  ]

  -- deleteUser fails only for a caller that is not root, for root's own account, or for a name that
  -- no row has, and succeeds only for root, another account than root's and a name that a row has.
  -- Then a row with the name has neither a name nor a password left in the 16 bytes of each and is
  -- not online, and no other row has changed. (Names are compared up to the first NUL in 16 bytes;
  -- the saving of the table is left out.)
  pub delete_user_rows_lem : Deleted id name us (delete_user_rows id name us)
  delete_user_rows_lem = elim (Bool-cases (same id root)) [
    | inr out ↦ rw (delete_user-refused out) (inl (not-Agrees id out))
    | inl caller ↦ elim (Bool-cases (same name root)) [
      | inl r ↦ rw (delete_user-root r) (inr (inl ((same-Agrees name root).0 r)))
      | inr other ↦ elim (Option-cases (find_user name us 0)) [
        | inl absent ↦
            rw (delete_user-absent other absent) (inr (inr (find_user-none name us 0 absent)))
        | inr (i, e) ↦
            let (d, u, at, g, s) = find_user-some name us 0 {j = i} e in
            let at_i : get_elem? us i ≡ some u = rw (at, zero-add) g in
            rw (delete_user-success i u caller other e at_i) (
              (same-Agrees id root).0 caller,
              not-Agrees name other,
              (
                i,
                u,
                at_i,
                (same-Agrees u.name name).0 s,
                (erased u, get_elem?-set_self us i _ (get_elem?-lt us i at_i), erased-IsErased u),
                λ j ne. get_elem?-set_ne us _ ne,
              ),
            )
      ]
    ]
  ]
