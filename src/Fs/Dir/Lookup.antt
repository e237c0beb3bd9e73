-- ===== src/Fs/Dir/Lookup.antt =====
-- dirlookup (xv6-public/fs.c) finds the first entry of a name.
use ele.Base.{
  ℕ, zero, suc, ◌+◌, ◌-◌, ◌*◌, ◌%◌, ◌≤◌, ◌<◌, ◌≡◌, ◌≢◌, ◌↔◌, refl, ◌∙◌, ap, Bool, true, false, ◌&&◌,
  not, Option, none, some, arith, ◌==◌, ltb, Bool-cases, inl, inr, Result, ok,
}
use ele.Base.Int.{ℤ, pos, negsuc}
use ele.Str.{Bytes, next, strncmp}
use ele.Str.Compare.{Agrees, strncmp-Agrees}
use ele.Users.{is_zero}
use ele.Fs.{Superblock, Disk, bsize}
use ele.Fs.Words.{half_at}
use ele.Fs.Inode.{Inode, t_dir, bytes_at}
use ele.Fs.Content.{maxfile, Driver, readi}
use ele.Fs.Content.Reading.{byte_at, IsWhole, read_count, readi_lem}
use ele.Fs.Dir.{dirsiz, namecmp, matches, dirlookup_loop, dirlookup_inode}

strncmp-same :
    (p q r : Bytes) (n : ℕ) → ((j : ℕ) → j < n → q j ≡ r j) → strncmp p q n ≡ strncmp p r n
unfolding strncmp
strncmp-same p q r zero h = refl
strncmp-same p q r (suc n) h =
    let e = strncmp-same (next p) (next q) (next r) n (λ j l. h (suc j) (omega arith)) in
    let f = h 0 (omega arith) in rw (e, f) refl

-- Only the 16 bytes of the entry count.
pub matches-same :
    (name de de' : Bytes) → ((j : ℕ) → j < 16 → de j ≡ de' j) → matches name de ≡ matches name de'
unfolding matches namecmp
matches-same name de de' h =
    let e =
      strncmp-same name (bytes_at de 2) (bytes_at de' 2) 14 (λ j l. h (2 + j) (omega arith)) in
    rw (e, h 0 (omega arith), h 1 (omega arith)) refl

is_zero_iff : (z : ℤ) → (is_zero z ≡ true) ↔ (z ≡ pos 0)
is_zero_iff (pos n) = (λ h. ap pos (ground arith), λ h. ap is_zero h)
is_zero_iff (negsuc n) = (λ h. cc, λ h. ap is_zero h)

not-and : (a b : Bool) → (not a && b) ≡ true → (a ≡ false) × (b ≡ true)
not-and true b h = cc
not-and false b h = (refl, h)

-- Entry `m` of the directory.
abbrev pub entry : Inode → Disk → ℕ → Bytes
entry dp d m j = byte_at dp d (16 * m + j)

-- Entry `m` is in use and has the name.
abbrev pub Named : Bytes → Inode → Disk → ℕ → Type 0
Named name dp d m = (half_at (entry dp d m) 0 ≢ 0) × Agrees name (bytes_at (entry dp d m) 2) dirsiz

pub matches-Named :
    (name de : Bytes)
    → (matches name de ≡ true) ↔ ((half_at de 0 ≢ 0) × Agrees name (bytes_at de 2) dirsiz)
unfolding matches namecmp
matches-Named name de = (
  λ h.
      let (nz, z) = not-and (half_at de 0 == 0) (is_zero (strncmp name (bytes_at de 2) 14)) h in
      (
        λ e. ground (arith, nz, e),
        (strncmp-Agrees name (bytes_at de 2) 14).0
            ((is_zero_iff (strncmp name (bytes_at de 2) 14)).0 z),
      ),
  λ h.
      let (nz, a) = h in
      let z : (half_at de 0 == 0) ≡ false = ground (arith, nz) in
      let y : is_zero (strncmp name (bytes_at de 2) 14) ≡ true =
        ap is_zero ((strncmp-Agrees name (bytes_at de 2) 14).1 a) in
      rw (z, y) refl,
)

-- What a lookup from entry `k` on finds: nothing, or the number and the offset of the first entry.
abbrev pub Looked : Bytes → Inode → Disk → ℕ → Option (ℕ × ℕ) → Type 0
Looked name dp d k none = (m : ℕ) → k ≤ m → 16 * m < dp.size → matches name (entry dp d m) ≡ false
Looked name dp d k (some (inum, off)) =
    (m : ℕ) × (k ≤ m)
    × (off ≡ 16 * m)
    × (off < dp.size)
    × (matches name (entry dp d m) ≡ true)
    × (inum ≡ half_at (entry dp d m) 0)
    × ((l : ℕ) → k ≤ l → l < m → matches name (entry dp d l) ≡ false)

module _ (name : Bytes) (dp : Inode) (d : Disk) (k : ℕ) where
  Looked-next :
      (r : Option (ℕ × ℕ))
      → matches name (entry dp d k) ≡ false
      → Looked name dp d (k + 1) r
      → Looked name dp d k r
  Looked-next none e h = λ m le lt. elim (Bool-cases (k == m)) [
    | inl same ↦ let f : m ≡ k = ground arith in ap (λ x. matches name (entry dp d x)) f ∙ e
    | inr other ↦ h m (ground arith) lt
  ]
  Looked-next (some (inum, off)) e (m, le, at, lt, here, num, before) = (
    m,
    omega arith,
    at,
    lt,
    here,
    num,
    λ l ll lu. elim (Bool-cases (k == l)) [
      | inl same ↦ let f : l ≡ k = ground arith in ap (λ x. matches name (entry dp d x)) f ∙ e
      | inr other ↦ before l (ground arith) lu
    ],
  )

-- One round of the loop.
module _ (devsw : ℕ → Driver) (sb : Superblock) (name : Bytes) (dp : Inode) (d : Disk)
    (fuel off : ℕ) (de : Bytes) (more : ltb off dp.size ≡ true)
    (read : readi devsw sb dp (λ _. 0) off 16 d ≡ ok (some 16, (de, (dp, d)))) where
  -- What the round comes to, by whether the entry matches.
  abbrev after_read : Bool → Result (Option (ℕ × ℕ) × (Inode × Disk))
  after_read b = elim b [
    | true ↦ ok (some (half_at de 0, off), (dp, d))
    | false ↦ dirlookup_loop devsw sb name fuel (off + 16) dp d
  ]

  round-hit :
      matches name de ≡ true
      → dirlookup_loop devsw sb name (suc fuel) off dp d ≡ ok (some (half_at de 0, off), (dp, d))
  unfolding dirlookup_loop
  round-hit hit = rw (more, dirlookup_loop, read) (ap after_read hit)

  round-miss :
      matches name de ≡ false
      → dirlookup_loop devsw sb name (suc fuel) off dp d
        ≡ dirlookup_loop devsw sb name fuel (off + 16) dp d
  unfolding dirlookup_loop
  round-miss miss = rw (more, dirlookup_loop, read) (ap after_read miss)

module _ (devsw : ℕ → Driver) (sb : Superblock) (name : Bytes) (dp : Inode) (d : Disk)
    (dir : dp.type_ ≡ t_dir) (small : dp.size ≤ maxfile * bsize) (whole : IsWhole dp d dp.size)
    (entries : dp.size % 16 ≡ 0) where
  -- One read of the loop.
  pub read_entry :
      (k : ℕ)
      → 16 * k < dp.size
      → (de : Bytes) × (readi devsw sb dp (λ _. 0) (16 * k) 16 d ≡ ok (some 16, (de, (dp, d))))
        × ((j : ℕ) → j < 16 → de j ≡ entry dp d k j)
  read_entry k lt =
      let (de, e, h) =
        readi_lem devsw sb dp d (λ _. 0) (16 * k) 16 (λ z. ground (arith, dir, z)) small whole
          (omega arith) (omega arith) in
      let c : read_count dp.size (16 * k) 16 ≡ some 16 = ground arith in
      (
        de,
        e ∙ ap (λ x. ok (x, (de, (dp, d)))) c,
        λ j l. let b : ltb j 16 ≡ true = ground arith in h j ∙ rw (c, b) refl,
      )

  pub dirlookup_loop-Looked :
      (fuel k : ℕ)
      → dp.size - 16 * k ≤ fuel
      → (r : Option (ℕ × ℕ)) × (dirlookup_loop devsw sb name fuel (16 * k) dp d ≡ ok (r, (dp, d)))
        × Looked name dp d k r
  unfolding dirlookup_loop
  dirlookup_loop-Looked zero k le = (none, refl, λ m lm lt. absurd (omega arith))
  dirlookup_loop-Looked (suc fuel) k le = elim (Bool-cases (ltb (16 * k) dp.size)) [
    | inr end ↦ (none, rw (end, dirlookup_loop) refl, λ m lm lt. absurd (ground arith))
    | inl more ↦
        let (de, e, same) = read_entry k (ground arith) in
        let f = matches-same name de (entry dp d k) same in
        elim (Bool-cases (matches name (entry dp d k))) [
          | inl hit ↦ (
            some (half_at de 0, 16 * k),
            round-hit devsw sb name dp d fuel (16 * k) de more e (f ∙ hit),
            (
              k,
              omega arith,
              refl,
              ground arith,
              hit,
              omega (arith, same 0 (omega arith), same 1 (omega arith)),
              λ l ll lu. absurd (omega arith),
            ),
          )
          | inr miss ↦
              let s : 16 * k + 16 ≡ 16 * (k + 1) = omega arith in
              let (r, g, h) = dirlookup_loop-Looked fuel (k + 1) (omega arith) in
              (
                r,
                round-miss devsw sb name dp d fuel (16 * k) de more e (f ∙ miss) ∙ rw (s) g,
                Looked-next name dp d k r miss h,
              )
        ]
  ]

  -- The result in terms of names.
  abbrev pub Found : Option (ℕ × ℕ) → Type 0
  Found none = (m : ℕ) → 16 * m < dp.size → ¬ Named name dp d m
  Found (some (inum, off)) =
      (m : ℕ) × (off ≡ 16 * m)
      × (off < dp.size)
      × Named name dp d m
      × (inum ≡ half_at (entry dp d m) 0)
      × ((l : ℕ) → l < m → ¬ Named name dp d l)

  not-Named : (m : ℕ) → matches name (entry dp d m) ≡ false → ¬ Named name dp d m
  not-Named m miss h = cc ((matches-Named name (entry dp d m)).1 h, miss)

  Looked-Found : (r : Option (ℕ × ℕ)) → Looked name dp d 0 r → Found r
  Looked-Found none h = λ m lt. not-Named m (h m (omega arith) lt)
  Looked-Found (some (inum, off)) (m, le, at, lt, here, num, before) = (
    m,
    at,
    lt,
    (matches-Named name (entry dp d m)).0 here,
    num,
    λ l u. not-Named l (before l (omega arith) u),
  )

  -- In a directory of at most MAXFILE blocks, all there, whose size is a number of whole entries, `dirlookup`
  -- never panics and changes neither the directory nor the disk before it takes the inode found. It finds the
  -- number and the offset of the first entry that is in use and whose name agrees with the one asked for
  -- in DIRSIZ bytes, and finds none only if the directory has no such entry.
  pub dirlookup_lem :
      (r : Option (ℕ × ℕ)) × (dirlookup_inode devsw sb name dp d ≡ ok (r, (dp, d))) × Found r
  unfolding dirlookup_inode
  dirlookup_lem =
      let (r, e, h) = dirlookup_loop-Looked dp.size 0 (omega arith) in
      let t : (dp.type_ == t_dir) ≡ true = ground (arith, dir) in (r, rw (t) e, Looked-Found r h)
