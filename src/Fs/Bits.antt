-- ===== src/Fs/Bits.antt =====
-- One bit of a byte, as balloc and bfree (xv6-public/fs.c) test, set and clear it.
use Prim.Native.Nat.{bit_or}
use mathlib.Core.Path.{subst}
use ele.Base.{
  ℕ, zero, suc, ◌-◌, ◌^◌, ◌<◌, ◌≡◌, refl, Bool, true, false, ◌&&◌, not, arith, ◌==◌, ltb,
  if◌then◌else◌, Bool-cases, inl, inr, bit_and,
}

-- `(x & (1 << k)) != 0`
unfoldable pub bit : ℕ → ℕ → Bool
bit x k = not (bit_and x (2 ^ k) == 0)

-- `x | (1 << k)`
unfoldable pub set_bit : ℕ → ℕ → ℕ
set_bit x k = bit_or x (2 ^ k)

-- `x & ~(1 << k)`, in a byte
unfoldable pub clear_bit : ℕ → ℕ → ℕ
clear_bit x k = bit_and x (255 - 2 ^ k)

all_below : ℕ → (ℕ → Bool) → Bool
all_below zero p = true
all_below (suc n) p = p n && all_below n p

and-split : (a b : Bool) → (a && b) ≡ true → (a ≡ true) × (b ≡ true)
and-split true b h = (refl, h)
and-split false b h = cc

all_below_sound : (n : ℕ) (p : ℕ → Bool) → all_below n p ≡ true → (x : ℕ) → x < n → p x ≡ true
unfolding all_below
all_below_sound zero p h x lt = absurd (omega arith)
all_below_sound (suc n) p h x lt = step (and-split (p n) (all_below n p) h) (all_below_sound n p)
  where
    step :
        (p n ≡ true) × (all_below n p ≡ true)
        → (all_below n p ≡ true → (x : ℕ) → x < n → p x ≡ true)
        → p x ≡ true
    step (here, rest) ih = elim (Bool-cases (x == n)) [
      | inl e ↦ let eq : n ≡ x = ground arith in subst (λ y. p y ≡ true) eq here
      | inr e ↦ let lt' : x < n = ground (arith, lt) in ih rest x lt'
    ]

ltb-lt : (a b : ℕ) → ltb a b ≡ true → a < b
ltb-lt a b h = ground arith

same : Bool → Bool → Bool
same true b = b
same false b = not b

same-eq : (a b : Bool) → same a b ≡ true → a ≡ b
unfolding same
same-eq true b h = ground arith
same-eq false b h = ground arith

-- The laws at one byte and two places.
laws : ℕ → ℕ → ℕ → Bool
unfolding bit set_bit clear_bit same
laws x k j =
    same (bit (set_bit x k) j) (if k == j then true else bit x j)
    && (same (bit (clear_bit x k) j) (if k == j then false else bit x j)
        && (ltb (set_bit x k) 256 && ltb (clear_bit x k) 256))

table : all_below 256 (λ x. all_below 8 (λ k. all_below 8 (λ j. laws x k j))) ≡ true
unfolding all_below laws
table = refl

laws_hold : (x k j : ℕ) → x < 256 → k < 8 → j < 8 → laws x k j ≡ true
laws_hold x k j hx hk hj =
    all_below_sound 8 (λ j. laws x k j)
      (all_below_sound 8 (λ k. all_below 8 (λ j. laws x k j))
        (all_below_sound 256 (λ x. all_below 8 (λ k. all_below 8 (λ j. laws x k j))) table x hx) k
        hk)
      j hj

module _ (x k j : ℕ) (hx : x < 256) (hk : k < 8) (hj : j < 8) where
  pub bit-set_bit : bit (set_bit x k) j ≡ (if k == j then true else bit x j)
  unfolding laws
  bit-set_bit = same-eq _ _ ((and-split _ _ (laws_hold x k j hx hk hj)).0)

  pub bit-clear_bit : bit (clear_bit x k) j ≡ (if k == j then false else bit x j)
  unfolding laws
  bit-clear_bit = same-eq _ _ ((and-split _ _ ((and-split _ _ (laws_hold x k j hx hk hj)).1)).0)

  bytes : (ltb (set_bit x k) 256 && ltb (clear_bit x k) 256) ≡ true
  unfolding laws
  bytes = (and-split _ _ ((and-split _ _ (laws_hold x k j hx hk hj)).1)).1

pub set_bit-byte : (x k : ℕ) → x < 256 → k < 8 → set_bit x k < 256
set_bit-byte x k hx hk = ltb-lt _ _ ((and-split _ _ (bytes x k 0 hx hk (omega arith))).0)

pub clear_bit-byte : (x k : ℕ) → x < 256 → k < 8 → clear_bit x k < 256
clear_bit-byte x k hx hk = ltb-lt _ _ ((and-split _ _ (bytes x k 0 hx hk (omega arith))).1)
