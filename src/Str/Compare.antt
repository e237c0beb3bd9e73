-- ===== src/Str/Compare.antt =====
-- What `strncmp` (xv6-public/string.c) compares.
use ele.Base.{
  ℕ, zero, suc, ◌<◌, ◌≡◌, refl, sym, ◌≢◌, ◌↔◌, inl, inr, arith, ◌==◌, ==_iff, Bool-cases,
}
use ele.Base.Int.{pos, sub_ℕ-eq_zero}
use ele.Str.{Bytes, next, strncmp}

-- Two strings agree in their first `n` bytes, as far as the first has no NUL before.
abbrev pub Agrees : Bytes → Bytes → ℕ → Type 0
Agrees p q n = (i : ℕ) → i < n → ((j : ℕ) → j < i → p j ≢ 0) → p i ≡ q i

Agrees-next :
    (p q : Bytes) (n : ℕ) → p 0 ≢ 0 → p 0 ≡ q 0 → Agrees (next p) (next q) n → Agrees p q (suc n)
Agrees-next p q n ne eq h zero lt before = eq
Agrees-next p q n ne eq h (suc i) lt before =
    h i (omega arith) (λ j l. before (suc j) (omega arith))

Agrees-tail : (p q : Bytes) (n : ℕ) → p 0 ≢ 0 → Agrees p q (suc n) → Agrees (next p) (next q) n
Agrees-tail p q n ne h i lt before = h (suc i) (omega arith) (λ j l. go j l)
  where
    go : (j : ℕ) → j < suc i → p j ≢ 0
    go zero l = ne
    go (suc j) l = before j (omega arith)

Agrees-head : (p q : Bytes) (n : ℕ) → Agrees p q (suc n) → p 0 ≡ q 0
Agrees-head p q n h = h 0 (omega arith) (λ j l. absurd (omega arith))

Agrees-stop : (p q : Bytes) (n : ℕ) → p 0 ≡ 0 → p 0 ≡ q 0 → Agrees p q (suc n)
Agrees-stop p q n z e zero lt before = e
Agrees-stop p q n z e (suc i) lt before = absurd (before 0 (omega arith) z)

-- `strncmp` returns 0 exactly for strings that agree in their first `n` bytes, where the
-- comparison ends behind the first NUL of the first string.
pub strncmp-Agrees : (p q : Bytes) (n : ℕ) → (strncmp p q n ≡ pos 0) ↔ Agrees p q n
unfolding strncmp
strncmp-Agrees p q zero = (λ _ i lt. absurd (omega arith), λ _. refl)
strncmp-Agrees p q (suc n) = elim (Bool-cases (p 0 == 0)) [
  | inl z ↦ rw z (
    λ e. Agrees-stop p q n ((==_iff _ _).0 z) ((sub_ℕ-eq_zero _ _).0 e),
    λ h. (sub_ℕ-eq_zero _ _).1 (Agrees-head p q n h),
  )
  | inr nz ↦ elim (Bool-cases (p 0 == q 0)) [
    | inl same ↦
        rw (nz, same)
          (
            λ e.
                Agrees-next p q n (ground arith) (ground arith)
                  ((strncmp-Agrees (next p) (next q) n).0 e),
            λ h. (strncmp-Agrees (next p) (next q) n).1 (Agrees-tail p q n (ground arith) h),
          )
    | inr other ↦
        rw (nz, other)
          (
            λ e. absurd (ground (arith, (sub_ℕ-eq_zero (p 0) (q 0)).0 e)),
            λ h. absurd (ground (arith, Agrees-head p q n h)),
          )
  ]
]

pub Agrees-sym : (p q : Bytes) (n : ℕ) → Agrees p q n → Agrees q p n
Agrees-sym p q n h i lt before = sym (h i lt (λ j l. both i lt before j l))
  where
    both : (k : ℕ) → k < n → ((j : ℕ) → j < k → q j ≢ 0) → (j : ℕ) → j < k → p j ≢ 0
    both zero l b j a = absurd (omega arith)
    both (suc k) l b j a =
        let rest = both k (omega arith) (λ x y. b x (omega arith)) in
        let e = h j (omega arith) (λ x y. rest x (omega arith)) in let z = b j a in ground arith
