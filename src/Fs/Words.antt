-- ===== src/Fs/Words.antt =====
-- Numbers in a block, in the byte order of the machine: the fields of the structs that fs.c
-- (xv6-public/fs.c) reads and writes through a cast of `bp->data`.
use ele.Base.{
  ℕ, zero, suc, ◌+◌, ◌-◌, ◌*◌, ◌/◌, ◌%◌, ◌^◌, ◌≤◌, ◌<◌, ◌≡◌, refl, ◌⊎◌, inl, inr, ◌&&◌, arith, leb,
  ltb, if◌then◌else◌,
}
use ele.Args.{word_at}

-- The bytes `n` of `src`, from its first on, copied to offset `at` of `row`.
unfoldable pub put_bytes : ℕ → ℕ → (ℕ → ℕ) → (ℕ → ℕ) → ℕ → ℕ
put_bytes at n src row i = if leb at i && ltb i (at + n) then src (i - at) else row i

-- The bytes of a number, the lowest first.
unfoldable pub word_byte : ℕ → ℕ → ℕ
word_byte v zero = v % 2 ^ 8
word_byte v (suc zero) = v / 2 ^ 8 % 2 ^ 8
word_byte v (suc (suc zero)) = v / 2 ^ 16 % 2 ^ 8
word_byte v (suc (suc (suc n))) = v / 2 ^ 24 % 2 ^ 8

-- A `uint` or an `int`.
abbrev pub put_word : ℕ → ℕ → (ℕ → ℕ) → ℕ → ℕ
put_word at v row = put_bytes at 4 (word_byte v) row

-- A `short` or a `ushort`, as its 16 bits.
abbrev pub put_half : ℕ → ℕ → (ℕ → ℕ) → ℕ → ℕ
put_half at v row = put_bytes at 2 (word_byte v) row

abbrev pub half_at : (ℕ → ℕ) → ℕ → ℕ
half_at row at = row at + 2 ^ 8 * row (at + 1)

module _ (at n : ℕ) (src row : ℕ → ℕ) where
  pub put_bytes-in : (i j : ℕ) → i ≡ at + j → j < n → put_bytes at n src row i ≡ src j
  unfolding put_bytes
  put_bytes-in i j e lt = let f : i - at ≡ j = omega arith in ground (arith, f)

  pub put_bytes-out : (i : ℕ) → (i < at) ⊎ (at + n ≤ i) → put_bytes at n src row i ≡ row i
  unfolding put_bytes
  put_bytes-out i (inl lt) = ground arith
  put_bytes-out i (inr le) = ground arith

  pub put_bytes-byte :
      ((j : ℕ) → src j < 256) → ((j : ℕ) → row j < 256) → (i : ℕ) → put_bytes at n src row i < 256
  unfolding put_bytes
  put_bytes-byte hs hr i = ground (arith, hs (i - at), hr i)

  -- A word that the copied bytes do not touch.
  pub word_at-out :
      (i : ℕ) → (i + 4 ≤ at) ⊎ (at + n ≤ i) → word_at (put_bytes at n src row) i ≡ word_at row i
  word_at-out i (inl le) =
      rw
        (
          put_bytes-out i (inl (omega arith)),
          put_bytes-out (i + 1) (inl (omega arith)),
          put_bytes-out (i + 2) (inl (omega arith)),
          put_bytes-out (i + 3) (inl (omega arith)),
        )
        refl
  word_at-out i (inr le) =
      rw
        (
          put_bytes-out i (inr (omega arith)),
          put_bytes-out (i + 1) (inr (omega arith)),
          put_bytes-out (i + 2) (inr (omega arith)),
          put_bytes-out (i + 3) (inr (omega arith)),
        )
        refl

  pub half_at-out :
      (i : ℕ) → (i + 2 ≤ at) ⊎ (at + n ≤ i) → half_at (put_bytes at n src row) i ≡ half_at row i
  half_at-out i (inl le) =
      rw (put_bytes-out i (inl (omega arith)), put_bytes-out (i + 1) (inl (omega arith))) refl
  half_at-out i (inr le) =
      rw (put_bytes-out i (inr (omega arith)), put_bytes-out (i + 1) (inr (omega arith))) refl

pub word_byte-byte : (v j : ℕ) → word_byte v j < 256
unfolding word_byte
word_byte-byte v zero = omega arith
word_byte-byte v (suc zero) = omega arith
word_byte-byte v (suc (suc zero)) = omega arith
word_byte-byte v (suc (suc (suc j))) = omega arith

-- The bytes of a word, read back.
pub word_at-word_byte :
    (row : ℕ → ℕ) (at v : ℕ)
    → v < 2 ^ 32
    → row at ≡ word_byte v 0
    → row (at + 1) ≡ word_byte v 1
    → row (at + 2) ≡ word_byte v 2
    → row (at + 3) ≡ word_byte v 3
    → word_at row at ≡ v
unfolding word_byte
word_at-word_byte row at v lt a b c e = omega arith

pub half_at-word_byte :
    (row : ℕ → ℕ) (at v : ℕ)
    → v < 2 ^ 16
    → row at ≡ word_byte v 0
    → row (at + 1) ≡ word_byte v 1
    → half_at row at ≡ v
unfolding word_byte
half_at-word_byte row at v lt a b = omega arith

module _ (at v : ℕ) (row : ℕ → ℕ) where
  pub word_at-put_word : v < 2 ^ 32 → word_at (put_word at v row) at ≡ v
  word_at-put_word lt =
      word_at-word_byte (put_word at v row) at v lt
        (put_bytes-in at 4 (word_byte v) row at 0 (omega arith) (omega arith))
        (put_bytes-in at 4 (word_byte v) row (at + 1) 1 refl (omega arith))
        (put_bytes-in at 4 (word_byte v) row (at + 2) 2 refl (omega arith))
        (put_bytes-in at 4 (word_byte v) row (at + 3) 3 refl (omega arith))

  pub half_at-put_half : v < 2 ^ 16 → half_at (put_half at v row) at ≡ v
  half_at-put_half lt =
      half_at-word_byte (put_half at v row) at v lt
        (put_bytes-in at 2 (word_byte v) row at 0 (omega arith) (omega arith))
        (put_bytes-in at 2 (word_byte v) row (at + 1) 1 refl (omega arith))
