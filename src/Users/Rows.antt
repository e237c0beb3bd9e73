-- ===== src/Users/Rows.antt =====
-- Searches of the user table (xv6-public/sysfile.c).
use ele.Base.{
  ℕ, zero, suc, ◌+◌, ◌-◌, ◌<◌, ◌≡◌, refl, ◌↔◌, true, false, none, some, List, [], ◌∷◌, arith,
  get_elem?, Bool-cases, inl, inr,
}
use ele.Base.Int.{ℤ, pos, negsuc}
use ele.Str.{Bytes}
use ele.Str.Compare.{Agrees, strncmp-Agrees}
use ele.Users.{User, is_zero, same, find_user, find_offline}

is_zero-pos : (z : ℤ) → (is_zero z ≡ true) ↔ (z ≡ pos 0)
is_zero-pos (pos zero) = (λ _. refl, λ _. refl)
is_zero-pos (pos (suc n)) = (λ h. absurd (ground arith), λ h. absurd (cc))
is_zero-pos (negsuc n) = (λ h. absurd (cc), λ h. absurd (cc))

-- Two fields count as the same exactly if they agree up to the first NUL, in 16 bytes.
pub same-Agrees : (p q : Bytes) → (same p q ≡ true) ↔ Agrees p q 16
same-Agrees p q = (
  λ h. (strncmp-Agrees p q 16).0 ((is_zero-pos _).0 h),
  λ h. (is_zero-pos _).1 ((strncmp-Agrees p q 16).1 h),
)

pub find_user-some :
    (name : Bytes) (us : List User) (i : ℕ) {j : ℕ}
    → find_user name us i ≡ some j
    → (d : ℕ) × (u : User) × (j ≡ i + d) × (get_elem? us d ≡ some u) × (same u.name name ≡ true)
unfolding find_user
find_user-some name [] i h = cc
find_user-some name (u ∷ us) i {j} h = elim (Bool-cases (same u.name name)) [
  | inl e ↦ (0, u, ground arith, refl, e)
  | inr e ↦
      let (d, v, at, g, s) = find_user-some name us (i + 1) {j = j} (ground arith) in
      (suc d, v, omega arith, g, s)
]

pub find_user-none :
    (name : Bytes) (us : List User) (i : ℕ)
    → find_user name us i ≡ none
    → (d : ℕ) (u : User) → get_elem? us d ≡ some u
    → same u.name name ≡ false
unfolding find_user
find_user-none name [] i h d u g = cc
find_user-none name (v ∷ us) i h zero u g = ground arith
find_user-none name (v ∷ us) i h (suc d) u g = find_user-none name us (i + 1) (ground arith) d u g

pub find_offline-some :
    (us : List User) (i : ℕ) {j : ℕ}
    → find_offline us i ≡ some j
    → (d : ℕ) × (u : User) × (j ≡ i + d) × (get_elem? us d ≡ some u) × (u.online ≡ false)
unfolding find_offline
find_offline-some [] i h = cc
find_offline-some (u ∷ us) i {j} h = elim (Bool-cases u.online) [
  | inr e ↦ (0, u, ground arith, refl, e)
  | inl e ↦
      let (d, v, at, g, s) = find_offline-some us (i + 1) {j = j} (ground arith) in
      (suc d, v, omega arith, g, s)
]

pub find_offline-first :
    (us : List User) (i d : ℕ)
    → find_offline us i ≡ some (i + d)
    → (j : ℕ) (u : User) → j < d
    → get_elem? us j ≡ some u
    → u.online ≡ true
unfolding find_offline
find_offline-first [] i d h j u l g = cc
find_offline-first (v ∷ us) i d h zero u l g = elim (Bool-cases v.online) [
  | inl e ↦ ground arith
  | inr e ↦ absurd (ground arith)
]
find_offline-first (v ∷ us) i d h (suc j) u l g = elim (Bool-cases v.online) [
  | inr e ↦ absurd (ground arith)
  | inl e ↦ find_offline-first us (i + 1) (d - 1) (ground arith) j u (omega arith) g
]

pub find_offline-none :
    (us : List User) (i : ℕ)
    → find_offline us i ≡ none
    → (j : ℕ) (u : User) → get_elem? us j ≡ some u
    → u.online ≡ true
unfolding find_offline
find_offline-none [] i h j u g = cc
find_offline-none (v ∷ us) i h zero u g = elim (Bool-cases v.online) [
  | inr e ↦ absurd (ground arith)
  | inl e ↦ ground arith
]
find_offline-none (v ∷ us) i h (suc j) u g = elim (Bool-cases v.online) [
  | inr e ↦ absurd (ground arith)
  | inl e ↦ find_offline-none us (i + 1) (ground arith) j u g
]
