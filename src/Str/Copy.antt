-- ===== src/Str/Copy.antt =====
-- What `strncpy` and `safestrcpy` (xv6-public/string.c) leave in the destination.
use ele.Base.{
  ℕ, zero, suc, ◌+◌, ◌<◌, ◌≤◌, ◌≡◌, refl, Bool, false, ◌||◌, inl, inr, arith, ◌==◌, ltb,
  if◌then◌else◌, Bool-cases,
}
use ele.Base.Int.{pos}
use ele.Str.{Bytes, next, strncmp, strncpy_pad, strncpy, safestrcpy_loop, safestrcpy}
use ele.Str.Compare.{strncmp-Agrees}

-- Some byte of `t` before offset `i` is NUL.
unfoldable pub nul_before : Bytes → ℕ → Bool
nul_before t zero = false
nul_before t (suc i) = (t 0 == 0) || nul_before (next t) i

nul_before-false :
    (t : Bytes) (i : ℕ) → ((j : ℕ) → j < i → (t j == 0) ≡ false) → nul_before t i ≡ false
unfolding nul_before
nul_before-false t zero h = refl
nul_before-false t (suc i) h =
    rw (h 0 (omega arith)) (nul_before-false (next t) i (λ j l. h (suc j) (omega arith)))

strncpy_pad_lem : (s : Bytes) (n i : ℕ) → strncpy_pad s n i ≡ (if ltb i n then 0 else s i)
unfolding strncpy_pad
strncpy_pad_lem s zero i = ground arith
strncpy_pad_lem s (suc n) zero = ground arith
strncpy_pad_lem s (suc n) (suc i) = ground (arith, strncpy_pad_lem (next s) n i)

-- `strncpy(s, t, n)` writes exactly the first `n` bytes of `s`: those of `t` up to and with its
-- first NUL, then zeros. No NUL is added when `t` has none among its first `n` bytes.
pub strncpy_lem :
    (s t : Bytes) (n i : ℕ)
    → strncpy s t n i ≡ (if ltb i n then (if nul_before t i then 0 else t i) else s i)
unfolding strncpy nul_before
strncpy_lem s t zero i = ground arith
strncpy_lem s t (suc n) zero = ground arith
strncpy_lem s t (suc n) (suc i) = elim (Bool-cases (t 0 == 0)) [
  | inl z ↦ rw z (ground (arith, strncpy_pad_lem (next s) n i))
  | inr nz ↦ rw nz (ground (arith, strncpy_lem (next s) (next t) n i))
]

-- A copy made by `strncpy` with a bound compares equal to the original under that bound.
pub strncmp-strncpy : (s t : Bytes) (n : ℕ) → strncmp t (strncpy s t n) n ≡ pos 0
strncmp-strncpy s t n = (strncmp-Agrees t (strncpy s t n) n).1 λ i lt before.
    ground (arith, strncpy_lem s t n i, nul_before-false t i (λ j l. ground (arith, before j l)))

safestrcpy_loop_terminates :
    (s t : Bytes) (n : ℕ) → (k : ℕ) × (k ≤ n) × (safestrcpy_loop s t n k ≡ 0)
unfolding safestrcpy_loop
safestrcpy_loop_terminates s t zero = (0, omega arith, refl)
safestrcpy_loop_terminates s t (suc n) = elim (Bool-cases (t 0 == 0)) [
  | inl z ↦ (0, omega arith, ground arith)
  | inr nz ↦
      let (k, le, e) = safestrcpy_loop_terminates (next s) (next t) n in
      (suc k, omega arith, rw nz e)
]

safestrcpy_loop-beyond : (s t : Bytes) (n i : ℕ) → n < i → safestrcpy_loop s t n i ≡ s i
unfolding safestrcpy_loop
safestrcpy_loop-beyond s t n zero lt = absurd (omega arith)
safestrcpy_loop-beyond s t zero (suc i) lt = refl
safestrcpy_loop-beyond s t (suc n) (suc zero) lt = absurd (omega arith)
safestrcpy_loop-beyond s t (suc n) (suc (suc i)) lt = elim (Bool-cases (t 0 == 0)) [
  | inl z ↦ rw z
  | inr nz ↦ rw nz (safestrcpy_loop-beyond (next s) (next t) n (suc i) (omega arith))
]

safestrcpy_loop-prefix :
    (s t : Bytes) (n i : ℕ) → i < n → nul_before t i ≡ false → safestrcpy_loop s t n i ≡ t i
unfolding safestrcpy_loop nul_before
safestrcpy_loop-prefix s t zero i lt clear = absurd (omega arith)
safestrcpy_loop-prefix s t (suc n) zero lt clear = refl
safestrcpy_loop-prefix s t (suc n) (suc i) lt clear = elim (Bool-cases (t 0 == 0)) [
  | inl z ↦ absurd (ground arith)
  | inr nz ↦ rw nz (safestrcpy_loop-prefix (next s) (next t) n i (omega arith) (ground arith))
]

-- With room for at least one byte, `safestrcpy(s, t, n)` leaves a NUL among the first `n` bytes,
-- writes nothing behind them, and copies each byte of `t` before offset `n - 1` that no NUL precedes.
pub safestrcpy_lem :
    (s t : Bytes) (n : ℕ)
    → 0 < n
    → ((k : ℕ) × (k < n) × (safestrcpy s t n k ≡ 0))
      × ((i : ℕ) → n ≤ i → safestrcpy s t n i ≡ s i)
      × ((i : ℕ) → i + 1 < n → nul_before t i ≡ false → safestrcpy s t n i ≡ t i)
unfolding safestrcpy
safestrcpy_lem s t zero pos_n = absurd (omega arith)
safestrcpy_lem s t (suc n) pos_n =
    let (k, le, e) = safestrcpy_loop_terminates s t n in
    (
      (k, omega arith, e),
      λ i le'. safestrcpy_loop-beyond s t n i (omega arith),
      λ i lt clear. safestrcpy_loop-prefix s t n i (omega arith) clear,
    )
