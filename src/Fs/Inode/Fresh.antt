-- ===== src/Fs/Inode/Fresh.antt =====
-- The inode that ialloc (xv6-public/fs.c) takes.
use mathlib.Core.Path.{subst}
use ele.Base.{
  if◌then◌else◌, ℕ, zero, suc, ◌+◌, ◌*◌, ◌^◌, ◌≤◌, ◌<◌, ◌≡◌, ◌≢◌, refl, ◌∙◌, sym, ap, ◌⊎◌, inl, inr,
  false, arith, ◌==◌, Bool-cases, update, Result, ok, panic, ==_refl,
}
use ele.Args.{word_at}
use ele.Str.{Bytes, safestrcpy}
use ele.Users.{root}
use ele.Fs.{Superblock, Disk}
use ele.Fs.Words.{
  put_bytes, put_bytes-out, put_word, put_half, half_at, half_at-out, half_at-put_half, word_at-out,
  word_at-put_word, word_byte,
}
use ele.Fs.Inode.{iblock, dinode_at, bytes_at, first_mode, new_dinode, ialloc_loop}

first_mode-lt : (t : ℕ) → first_mode t < 2 ^ 32
unfolding first_mode
first_mode-lt t = ground arith

-- The permissions of a new inode, read-write-execute for the owner and for others: a file has rw-r--, a
-- directory rwxr-x, a device rwxrwx, and anything else none.
abbrev pub mode_for : ℕ → ℕ
mode_for t =
    if t == 1 then 0b111101 else if t == 2 then 0b110100 else if t == 3 then 0b111111 else 0

first_mode-eq : (t : ℕ) → first_mode t ≡ mode_for t
unfolding first_mode
first_mode-eq t = ground arith

-- The stored inode at offset `at` has type `t`, the mode for it, no links, no bytes and no blocks.
abbrev pub IsFresh : (ℕ → ℕ) → ℕ → ℕ → Type 0
IsFresh row at t =
    (half_at row at ≡ t)
    × (half_at row (at + 6) ≡ 0)
    × (word_at row (at + 8) ≡ 0)
    × ((i : ℕ) → i < 8 → word_at row (at + 12 + 4 * i) ≡ 0)
    × (word_at row (at + 60) ≡ mode_for t)

module _ (at t : ℕ) (row : ℕ → ℕ) where
  abbrev cleared : ℕ → ℕ
  cleared = put_bytes at 64 (λ _. 0) row

  abbrev typed : ℕ → ℕ
  typed = put_half at t cleared

  abbrev moded : ℕ → ℕ
  moded = put_word (at + 60) (first_mode t) typed

  abbrev owner : Bytes
  owner = safestrcpy (bytes_at moded (at + 44)) root 16

  zero-cleared : (i : ℕ) → at ≤ i → i < at + 64 → cleared i ≡ 0
  unfolding put_bytes
  zero-cleared i lo hi = ground arith

  -- A byte that is only cleared.
  zero-new : (i : ℕ) → at + 2 ≤ i → i < at + 44 → new_dinode at t row i ≡ 0
  unfolding new_dinode
  zero-new i lo hi =
      put_bytes-out (at + 44) 16 owner moded i (inl hi)
      ∙ (put_bytes-out (at + 60) 4 (word_byte (first_mode t)) typed i (inl (omega arith))
          ∙ (put_bytes-out at 2 (word_byte t) cleared i (inr lo)
              ∙ zero-cleared i (omega arith) (omega arith)))

  zero_word : (i : ℕ) → at + 2 ≤ i → i + 4 ≤ at + 44 → word_at (new_dinode at t row) i ≡ 0
  zero_word i lo hi =
      let a = zero-new i lo (omega arith) in
      let b = zero-new (i + 1) (omega arith) (omega arith) in
      let c = zero-new (i + 2) (omega arith) (omega arith) in
      let e = zero-new (i + 3) (omega arith) (omega arith) in rw (a, b, c, e) refl

  type-new : t < 2 ^ 16 → half_at (new_dinode at t row) at ≡ t
  unfolding new_dinode
  type-new lt =
      half_at-out (at + 44) 16 owner moded at (inl (omega arith))
      ∙ (half_at-out (at + 60) 4 (word_byte (first_mode t)) typed at (inl (omega arith))
          ∙ half_at-put_half at t cleared lt)

  mode-new : word_at (new_dinode at t row) (at + 60) ≡ mode_for t
  unfolding new_dinode
  mode-new =
      word_at-out (at + 44) 16 owner moded (at + 60) (inr (omega arith))
      ∙ word_at-put_word (at + 60) (first_mode t) typed (first_mode-lt t)
      ∙ first_mode-eq t

  new-IsFresh : t < 2 ^ 16 → IsFresh (new_dinode at t row) at t
  new-IsFresh lt =
      let a = zero-new (at + 6) (omega arith) (omega arith) in
      let b = zero-new (at + 6 + 1) (omega arith) (omega arith) in
      (
        type-new lt,
        rw (a, b) refl,
        zero_word (at + 8) (omega arith) (omega arith),
        λ i l. zero_word (at + 12 + 4 * i) (omega arith) (omega arith),
        mode-new,
      )

  outside-new : (i : ℕ) → (i < at) ⊎ (at + 64 ≤ i) → new_dinode at t row i ≡ row i
  unfolding new_dinode put_bytes
  outside-new i (inl h) = ground arith
  outside-new i (inr h) = ground arith

-- The type of the stored inode `n`; 0 is a free one.
abbrev pub stored_type : Superblock → Disk → ℕ → ℕ
stored_type sb d n = half_at (d (iblock sb n)) (dinode_at n)

-- What the search of `ialloc` may return from inode `lo` on, among `left`.
abbrev pub Ialloc : Superblock → Disk → ℕ → ℕ → ℕ → Result (ℕ × Disk) → Type 0
Ialloc sb d t lo left (panic s) =
    (s ≡ "ialloc: no inodes") × ((n : ℕ) → lo ≤ n → n < lo + left → stored_type sb d n ≢ 0)
Ialloc sb d t lo left (ok (n, d')) =
    (lo ≤ n)
    × (n < lo + left)
    × (stored_type sb d n ≡ 0)
    × ((k : ℕ) → lo ≤ k → k < n → stored_type sb d k ≢ 0)
    × IsFresh (d' (iblock sb n)) (dinode_at n) t
    × ((b : ℕ) → b ≢ iblock sb n → d' b ≡ d b)
    × ((k j : ℕ)
        → k ≢ n
        → j < 64
        → d' (iblock sb k) (dinode_at k + j) ≡ d (iblock sb k) (dinode_at k + j))

module _ (sb : Superblock) (d : Disk) (t : ℕ) (short : t < 2 ^ 16) where
  Ialloc-next :
      (lo left : ℕ) (r : Result (ℕ × Disk))
      → stored_type sb d lo ≢ 0
      → Ialloc sb d t (lo + 1) left r
      → Ialloc sb d t lo (suc left) r
  Ialloc-next lo left (panic s) here (e, all) = (
    e,
    λ n l u. elim (Bool-cases (lo == n)) [
      | inl same ↦ λ z. here (ap (stored_type sb d) (let f : lo ≡ n = ground arith in f) ∙ z)
      | inr other ↦ all n (ground arith) (omega arith)
    ],
  )
  Ialloc-next lo left (ok (n, d')) here (l, u, free, before, fresh, blocks, inodes) = (
    omega arith,
    omega arith,
    free,
    λ k lk lu. elim (Bool-cases (lo == k)) [
      | inl same ↦ λ z. here (ap (stored_type sb d) (let f : lo ≡ k = ground arith in f) ∙ z)
      | inr other ↦ before k (ground arith) lu
    ],
    fresh,
    blocks,
    inodes,
  )

  -- The disk with inode `n` taken.
  taken : ℕ → Disk
  taken n = update d (iblock sb n) (new_dinode (dinode_at n) t (d (iblock sb n)))

  taken-blocks : (n b : ℕ) → b ≢ iblock sb n → taken n b ≡ d b
  unfolding taken
  taken-blocks n b ne = let f : (iblock sb n == b) ≡ false = ground arith in rw (f) refl

  taken_self : (n : ℕ) → taken n (iblock sb n) ≡ new_dinode (dinode_at n) t (d (iblock sb n))
  unfolding taken
  taken_self n = rw (==_refl (iblock sb n)) refl

  taken-inodes :
      (n k j : ℕ)
      → k ≢ n
      → j < 64
      → taken n (iblock sb k) (dinode_at k + j) ≡ d (iblock sb k) (dinode_at k + j)
  taken-inodes n k j ne lt = elim (Bool-cases (iblock sb n == iblock sb k)) [
    | inr other ↦
        ap (λ r. r (dinode_at k + j)) (taken-blocks n (iblock sb k) (λ e. ground (arith, other, e)))
    | inl same ↦
        let f : iblock sb n ≡ iblock sb k = ground arith in
        ap (λ r. r (dinode_at k + j)) (ap (taken n) (sym f) ∙ taken_self n)
        ∙ (outside-new (dinode_at n) t (d (iblock sb n)) (dinode_at k + j) (sides n k j ne lt f)
            ∙ ap (λ b. d b (dinode_at k + j)) f)
  ]
    where
      sides :
          (n k j : ℕ)
          → k ≢ n
          → j < 64
          → iblock sb n ≡ iblock sb k
          → (dinode_at k + j < dinode_at n) ⊎ (dinode_at n + 64 ≤ dinode_at k + j)
      sides n k j ne lt f = ground arith

  taken-Ialloc :
      (lo left : ℕ) → stored_type sb d lo ≡ 0 → Ialloc sb d t lo (suc left) (ok (lo, taken lo))
  taken-Ialloc lo left free = (
    omega arith,
    omega arith,
    free,
    λ k l u. absurd (omega arith),
    subst (λ r. IsFresh r (dinode_at lo) t) (sym (taken_self lo))
        (new-IsFresh (dinode_at lo) t (d (iblock sb lo)) short),
    taken-blocks lo,
    taken-inodes lo,
  )

  -- The search of `ialloc` for a type that fits in a short panics only if every inode it looks at
  -- is allocated. Otherwise it takes the first that is free: the stored inode then has that type,
  -- the mode for it (rw-r-- for a file, rwxr-x for a directory, rwxrwx for a device), and no links,
  -- bytes or blocks; no other stored inode and no other block has changed.
  pub ialloc_loop_lem : (left lo : ℕ) → Ialloc sb d t lo left (ialloc_loop sb t left lo d)
  unfolding ialloc_loop taken
  ialloc_loop_lem zero lo = (refl, λ n l u. absurd (omega arith))
  ialloc_loop_lem (suc left) lo = elim (Bool-cases (stored_type sb d lo == 0)) [
    | inl free ↦ rw (free) (taken-Ialloc lo left (ground arith))
    | inr busy ↦ rw (busy) (
        Ialloc-next lo left (ialloc_loop sb t left (lo + 1) d) (λ z. ground (arith, busy, z))
          (ialloc_loop_lem left (lo + 1)))
  ]
