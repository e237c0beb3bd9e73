-- ===== src/Fs/Inode/Stored.antt =====
-- What iupdate writes, ilock reads back (xv6-public/fs.c).
use mathlib.Core.Path.{subst}
use ele.Base.{
  ℕ, zero, suc, ◌+◌, ◌<◌, ◌≤◌, ◌≡◌, ◌≢◌, refl, ◌∙◌, sym, ap, ◌⊎◌, inl, inr, true, false, arith,
  ◌==◌, if◌then◌else◌, Bool-cases, ok,
}
use ele.Str.{Bytes, next, strncpy}
use ele.Str.Copy.{nul_before, strncpy_lem}
use ele.Fs.{Superblock, Disk}
use ele.Fs.Words.{half_at}
use ele.Fs.Inode.{
  Inode, iblock, dinode_at, bytes_at, store_dinode, load_dinode, iupdate, referenced, read_inode,
  ilock,
}
use ele.Fs.Inode.Fields.{
  InRange, r5, type-stored, major-stored, minor-stored, nlink-stored, size-stored, mode-stored,
  addrs-stored, user-stored, outside-stored,
}

nul_before-cut :
    (t s : Bytes) (i : ℕ)
    → ((j : ℕ) → j < i → t j ≡ (if nul_before s j then 0 else s j))
    → nul_before t i ≡ nul_before s i
unfolding nul_before
nul_before-cut t s zero h = refl
nul_before-cut t s (suc i) h =
    let here : t 0 ≡ s 0 = h 0 (omega arith) in
    elim (Bool-cases (s 0 == 0)) [
      | inl z ↦ rw (here, z) refl
      | inr nz ↦
          rw (here, nz)
            (nul_before-cut (next t) (next s) i (λ j lt. h (suc j) (omega arith) ∙ rw (nz) refl))
    ]

-- `strncpy` of 16 bytes that `strncpy` left makes the same bytes again.
copied_twice :
    (s t u : Bytes)
    → ((j : ℕ) → j < 16 → t j ≡ (if nul_before u j then 0 else u j))
    → (j : ℕ) → j < 16
    → strncpy s t 16 j ≡ (if nul_before u j then 0 else u j)
copied_twice s t u h j lt =
    let e = nul_before-cut t u j (λ k l. h k (omega arith)) in
    strncpy_lem s t 16 j ∙ ground (arith, h j lt, e)

-- The two copies of an inode hold the same metadata; the owner's name up to its NUL.
abbrev pub SameInode : Inode → Inode → Type 0
SameInode ip ip' =
    (ip'.type_ ≡ ip.type_)
    × (ip'.major ≡ ip.major)
    × (ip'.minor ≡ ip.minor)
    × (ip'.nlink ≡ ip.nlink)
    × (ip'.size ≡ ip.size)
    × (ip'.mode ≡ ip.mode)
    × ((i : ℕ) → i < 8 → ip'.addrs i ≡ ip.addrs i)
    × ((j : ℕ) → j < 16 → ip'.user j ≡ (if nul_before ip.user j then 0 else ip.user j))

load-store :
    (at : ℕ) (row : ℕ → ℕ) (ip ip0 : Inode)
    → InRange ip
    → SameInode ip (load_dinode at (store_dinode at ip row) ip0)
unfolding load_dinode
load-store at row ip ip0 (lt, lm, ln, ll, ls, lo, la) = (
  type-stored at ip row lt,
  major-stored at ip row lm,
  minor-stored at ip row ln,
  nlink-stored at ip row ll,
  size-stored at ip row ls,
  mode-stored at ip row lo,
  λ i l. addrs-stored at ip row i l (la i l),
  copied_twice ip0.user (bytes_at (store_dinode at ip row) (at + 44)) ip.user (λ j l.
      user-stored at ip row j l
      ∙ ground (arith, strncpy_lem (bytes_at (r5 at ip row) (at + 44)) ip.user 16 j)),
)

-- What `ilock` returns for an inode that it reads.
abbrev loaded : Superblock → Disk → Inode → Inode
loaded sb d ip0 =
    load_dinode (dinode_at ip0.inum) (d (iblock sb ip0.inum)) (record ip0 { locked = true })

ilock-loaded :
    (sb : Superblock) (d : Disk) (ip0 : Inode)
    → referenced ip0 ≡ true
    → ip0.locked ≡ false
    → ip0.valid ≡ false
    → half_at (d (iblock sb ip0.inum)) (dinode_at ip0.inum) ≢ 0
    → ilock sb d ip0 ≡ ok (loaded sb d ip0)
unfolding ilock read_inode
ilock-loaded sb d ip0 refd free stale typed =
    let t : (half_at (d (iblock sb ip0.inum)) (dinode_at ip0.inum) == 0) ≡ false = ground arith in
    simp (refd, free, stale, t)

module _ (sb : Superblock) (d : Disk) (ip : Inode) where
  pub row-iupdate :
      (n : ℕ)
      → n ≡ ip.inum
      → iupdate sb ip d (iblock sb n) ≡ store_dinode (dinode_at n) ip (d (iblock sb n))
  unfolding iupdate
  row-iupdate n e =
      let f : (iblock sb ip.inum == iblock sb n) ≡ true = ground arith in rw (f) (rw (e) refl)

  -- After `iupdate` of an inode in use, `ilock` of any copy of that inode in the cache that somebody refers to,
  -- that is not locked and that has not been read yet takes the lock and reads back what was written: type, device numbers,
  -- links, size, mode, block addresses and, up to its NUL, the owner's name.
  pub ilock-iupdate :
      (ip0 : Inode)
      → InRange ip
      → ip.type_ ≢ 0
      → ip0.inum ≡ ip.inum
      → referenced ip0 ≡ true
      → ip0.locked ≡ false
      → ip0.valid ≡ false
      → (ip' : Inode) × (ilock sb (iupdate sb ip d) ip0 ≡ ok ip')
        × (ip'.locked ≡ true)
        × (ip'.valid ≡ true)
        × SameInode ip ip'
  unfolding load_dinode
  ilock-iupdate ip0 range typed same refd free stale =
      let at = dinode_at ip0.inum in
      let row = d (iblock sb ip0.inum) in
      let read = row-iupdate ip0.inum same in
      let e : half_at (iupdate sb ip d (iblock sb ip0.inum)) at ≡ ip.type_ =
        ap (λ r. half_at r at) read ∙ type-stored at ip row (range.0) in
      (
        loaded sb (iupdate sb ip d) ip0,
        ilock-loaded sb (iupdate sb ip d) ip0 refd free stale (λ z. typed (sym e ∙ z)),
        refl,
        refl,
        subst (λ r. SameInode ip (load_dinode at r (record ip0 { locked = true }))) (sym read)
            (load-store at row ip (record ip0 { locked = true }) range),
      )

  -- `iupdate` writes only the 64 bytes of its own inode: every other block is as before, and so is
  -- every byte of every other stored inode.
  pub iupdate_lem :
      ((b : ℕ) → b ≢ iblock sb ip.inum → iupdate sb ip d b ≡ d b)
      × ((n j : ℕ)
          → n ≢ ip.inum
          → j < 64
          → iupdate sb ip d (iblock sb n) (dinode_at n + j) ≡ d (iblock sb n) (dinode_at n + j))
  unfolding iupdate
  iupdate_lem = (
    λ b ne. let f : (iblock sb ip.inum == b) ≡ false = ground arith in rw (f) refl,
    λ n j ne lt. elim (Bool-cases (iblock sb ip.inum == iblock sb n)) [
      | inl same ↦
          let f : iblock sb ip.inum ≡ iblock sb n = ground arith in
          rw (same) (
            outside-stored (dinode_at ip.inum) ip (d (iblock sb ip.inum)) (dinode_at n + j)
              (apart n j ne lt f)
            ∙ ap (λ b. d b (dinode_at n + j)) f)
      | inr other ↦ rw (other) refl
    ],
  )
    where
      -- Two inodes of one block.
      apart :
          (n j : ℕ)
          → n ≢ ip.inum
          → j < 64
          → iblock sb ip.inum ≡ iblock sb n
          → (dinode_at n + j < dinode_at ip.inum) ⊎ (dinode_at ip.inum + 64 ≤ dinode_at n + j)
      apart n j ne lt e = ground arith
