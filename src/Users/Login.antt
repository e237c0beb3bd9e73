-- ===== src/Users/Login.antt =====
-- Who can log in: `accountcheck` (xv6-public/sysfile.c).
use ele.Base.{
  ℕ, zero, suc, ◌≡◌, refl, ◌≢◌, Bool, true, false, ◌&&◌, some, List, [], ◌∷◌, arith, get_elem?,
  Bool-cases, inl, inr,
}
use ele.Str.{Bytes}
use ele.Str.Compare.{Agrees}
use ele.Users.{User, same, accountcheck}
use ele.Users.Rows.{same-Agrees}

-- Row `i` has this name and this password.
abbrev pub Account : List User → Bytes → Bytes → ℕ → Type 0
Account us id pw i =
    (u : User) × (get_elem? us i ≡ some u) × Agrees u.name id 16 × Agrees u.password pw 16

-- The rows after a check of the first row that fits.
abbrev pub Checked : Bytes → Bytes → List User → List User → Bool → Type 0
Checked id pw us us' false = (us' ≡ us) × ((i : ℕ) → Account us id pw i → ⊥)
Checked id pw us us' true =
    (i : ℕ) × (a : Account us id pw i) × (get_elem? us' i ≡ some (record (a.0) { online = true }))
    × ((j : ℕ) → i ≢ j → get_elem? us' j ≡ get_elem? us j)

Checked-cons :
    (id pw : Bytes) (u : User) (us us' : List User) (b : Bool)
    → (same u.name id && same u.password pw) ≡ false
    → Checked id pw us us' b
    → Checked id pw (u ∷ us) (u ∷ us') b
Checked-cons id pw u us us' false out (e, no_one) = (λ i. u ∷ e i, λ i a. go i a)
  where
    go : (i : ℕ) → Account (u ∷ us) id pw i → ⊥
    go zero (v, g, n, p) =
        let same_n = (same-Agrees v.name id).1 n in
        let same_p = (same-Agrees v.password pw).1 p in ground arith
    go (suc i) a = no_one i a
Checked-cons id pw u us us' true out (i, a, now, others) = (suc i, a, now, λ j ne. go j ne)
  where
    go : (j : ℕ) → suc i ≢ j → get_elem? (u ∷ us') j ≡ get_elem? (u ∷ us) j
    go zero ne = refl
    go (suc j) ne = others j (λ h. ne (λ t. suc (h t)))

-- `accountcheck` succeeds exactly if some row has the name and the password, each compared up to
-- the first NUL in 16 bytes. It then marks one such row as online and changes no other row; when it
-- fails it changes nothing.
pub accountcheck_lem :
    (id pw : Bytes) (us : List User)
    → Checked id pw us (accountcheck id pw us).0 (accountcheck id pw us).1
unfolding accountcheck
accountcheck_lem id pw [] = (refl, λ i a. cc)
accountcheck_lem id pw (u ∷ us) = elim (Bool-cases (same u.name id && same u.password pw)) [
  | inr out ↦ rw out (Checked-cons id pw u us _ _ out (accountcheck_lem id pw us))
  | inl fit ↦ rw fit (
    0,
    (
      u,
      refl,
      (same-Agrees u.name id).0 (ground arith),
      (same-Agrees u.password pw).0 (ground arith),
    ),
    refl,
    λ j ne. others j ne,
  )
]
  where
    others : (j : ℕ) → 0 ≢ j → get_elem? (record u { online = true } ∷ us) j ≡ get_elem? (u ∷ us) j
    others zero ne = absurd (ne refl)
    others (suc j) ne = refl

pub accountcheck-Account :
    (id pw : Bytes) (us : List User) (i : ℕ) → Account us id pw i → (accountcheck id pw us).1 ≡ true
accountcheck-Account id pw us i a =
    go (accountcheck id pw us).0 (accountcheck id pw us).1 (accountcheck_lem id pw us)
  where
    go : (us' : List User) (b : Bool) → Checked id pw us us' b → b ≡ true
    go us' true c = refl
    go us' false (e, no_one) = absurd (no_one i a)
