-- ===== src/Fs/Inode/Fields.antt =====
-- The fields of a stored inode (iupdate of xv6-public/fs.c), one by one.
use ele.Base.{ℕ, ◌+◌, ◌*◌, ◌/◌, ◌%◌, ◌^◌, ◌<◌, ◌≤◌, ◌≡◌, refl, ◌∙◌, ap, ◌⊎◌, inl, inr, arith}
use ele.Args.{word_at}
use ele.Str.{strncpy}
use ele.Fs.Words.{
  put_bytes, put_bytes-in, put_bytes-out, word_byte, put_word, put_half, half_at, word_at-out,
  half_at-out, word_at-put_word, half_at-put_half, word_at-word_byte,
}
use ele.Fs.Inode.{Inode, addrs_bytes, bytes_at, put_id, store_dinode}

-- The fields hold what their C types can.
abbrev pub InRange : Inode → Type 0
InRange ip =
    (ip.type_ < 2 ^ 16)
    × (ip.major < 2 ^ 16)
    × (ip.minor < 2 ^ 16)
    × (ip.nlink < 2 ^ 16)
    × (ip.size < 2 ^ 32)
    × (ip.mode < 2 ^ 32)
    × ((i : ℕ) → i < 8 → ip.addrs i < 2 ^ 32)

module _ (at : ℕ) (ip : Inode) (row : ℕ → ℕ) where
  abbrev pub r1 : ℕ → ℕ
  r1 = put_half at ip.type_ row

  abbrev pub r2 : ℕ → ℕ
  r2 = put_half (at + 2) ip.major r1

  abbrev pub r3 : ℕ → ℕ
  r3 = put_half (at + 4) ip.minor r2

  abbrev pub r4 : ℕ → ℕ
  r4 = put_half (at + 6) ip.nlink r3

  abbrev pub r5 : ℕ → ℕ
  r5 = put_word (at + 8) ip.size r4

  abbrev r6 : ℕ → ℕ
  r6 = put_id at ip.user r5

  abbrev r7 : ℕ → ℕ
  r7 = put_word (at + 60) ip.mode r6

  -- A half below the size is left alone by the writes from there on.
  half-r7 : (i : ℕ) → i ≤ at + 6 → half_at (store_dinode at ip row) i ≡ half_at r4 i
  unfolding store_dinode
  half-r7 i le =
      half_at-out (at + 12) 32 (addrs_bytes ip.addrs) r7 i (inl (omega arith))
      ∙ (half_at-out (at + 60) 4 (word_byte ip.mode) r6 i (inl (omega arith))
          ∙ (half_at-out (at + 44) 16 (strncpy (bytes_at r5 (at + 44)) ip.user 16) r5 i
                (inl (omega arith))
              ∙ half_at-out (at + 8) 4 (word_byte ip.size) r4 i (inl (omega arith))))

  pub type-stored : ip.type_ < 2 ^ 16 → half_at (store_dinode at ip row) at ≡ ip.type_
  type-stored lt =
      half-r7 at (omega arith)
      ∙ (half_at-out (at + 6) 2 (word_byte ip.nlink) r3 at (inl (omega arith))
          ∙ (half_at-out (at + 4) 2 (word_byte ip.minor) r2 at (inl (omega arith))
              ∙ (half_at-out (at + 2) 2 (word_byte ip.major) r1 at (inl (omega arith))
                  ∙ half_at-put_half at ip.type_ row lt)))

  pub major-stored : ip.major < 2 ^ 16 → half_at (store_dinode at ip row) (at + 2) ≡ ip.major
  major-stored lt =
      half-r7 (at + 2) (omega arith)
      ∙ (half_at-out (at + 6) 2 (word_byte ip.nlink) r3 (at + 2) (inl (omega arith))
          ∙ (half_at-out (at + 4) 2 (word_byte ip.minor) r2 (at + 2) (inl (omega arith))
              ∙ half_at-put_half (at + 2) ip.major r1 lt))

  pub minor-stored : ip.minor < 2 ^ 16 → half_at (store_dinode at ip row) (at + 4) ≡ ip.minor
  minor-stored lt =
      half-r7 (at + 4) (omega arith)
      ∙ (half_at-out (at + 6) 2 (word_byte ip.nlink) r3 (at + 4) (inl (omega arith))
          ∙ half_at-put_half (at + 4) ip.minor r2 lt)

  pub nlink-stored : ip.nlink < 2 ^ 16 → half_at (store_dinode at ip row) (at + 6) ≡ ip.nlink
  nlink-stored lt = half-r7 (at + 6) (omega arith) ∙ half_at-put_half (at + 6) ip.nlink r3 lt

  pub size-stored : ip.size < 2 ^ 32 → word_at (store_dinode at ip row) (at + 8) ≡ ip.size
  unfolding store_dinode
  size-stored lt =
      word_at-out (at + 12) 32 (addrs_bytes ip.addrs) r7 (at + 8) (inl (omega arith))
      ∙ (word_at-out (at + 60) 4 (word_byte ip.mode) r6 (at + 8) (inl (omega arith))
          ∙ (word_at-out (at + 44) 16 (strncpy (bytes_at r5 (at + 44)) ip.user 16) r5 (at + 8)
                (inl (omega arith))
              ∙ word_at-put_word (at + 8) ip.size r4 lt))

  pub mode-stored : ip.mode < 2 ^ 32 → word_at (store_dinode at ip row) (at + 60) ≡ ip.mode
  unfolding store_dinode
  mode-stored lt =
      word_at-out (at + 12) 32 (addrs_bytes ip.addrs) r7 (at + 60) (inr (omega arith))
      ∙ word_at-put_word (at + 60) ip.mode r6 lt

  addrs_byte-stored :
      (i k : ℕ)
      → i < 8
      → k < 4
      → store_dinode at ip row (at + 12 + 4 * i + k) ≡ word_byte (ip.addrs i) k
  unfolding store_dinode
  addrs_byte-stored i k li lk =
      let q : (4 * i + k) / 4 ≡ i = omega arith in
      let r : (4 * i + k) % 4 ≡ k = omega arith in
      put_bytes-in (at + 12) 32 (addrs_bytes ip.addrs) r7 (at + 12 + 4 * i + k) (4 * i + k)
        (omega arith) (omega arith)
      ∙ rw (q, r) refl

  pub addrs-stored :
      (i : ℕ)
      → i < 8
      → ip.addrs i < 2 ^ 32
      → word_at (store_dinode at ip row) (at + 12 + 4 * i) ≡ ip.addrs i
  addrs-stored i li lt =
      let e : at + 12 + 4 * i ≡ at + 12 + 4 * i + 0 = omega arith in
      word_at-word_byte (store_dinode at ip row) (at + 12 + 4 * i) (ip.addrs i) lt
        (ap (store_dinode at ip row) e ∙ addrs_byte-stored i 0 li (omega arith))
        (addrs_byte-stored i 1 li (omega arith)) (addrs_byte-stored i 2 li (omega arith))
        (addrs_byte-stored i 3 li (omega arith))

  pub user-stored :
      (j : ℕ)
      → j < 16
      → store_dinode at ip row (at + 44 + j) ≡ strncpy (bytes_at r5 (at + 44)) ip.user 16 j
  unfolding store_dinode
  user-stored j lt =
      put_bytes-out (at + 12) 32 (addrs_bytes ip.addrs) r7 (at + 44 + j) (inr (omega arith))
      ∙ (put_bytes-out (at + 60) 4 (word_byte ip.mode) r6 (at + 44 + j) (inl (omega arith))
          ∙ put_bytes-in (at + 44) 16 (strncpy (bytes_at r5 (at + 44)) ip.user 16) r5 (at + 44 + j)
              j refl lt)

  -- Bytes outside the stored inode.
  pub outside-stored : (i : ℕ) → (i < at) ⊎ (at + 64 ≤ i) → store_dinode at ip row i ≡ row i
  unfolding store_dinode put_bytes
  outside-stored i (inl h) = ground arith
  outside-stored i (inr h) = ground arith
