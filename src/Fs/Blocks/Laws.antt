-- ===== src/Fs/Blocks/Laws.antt =====
-- What balloc and bfree (xv6-public/fs.c) do to the bitmap and to the other blocks.
use mathlib.Core.Path.{subst}
use ele.Base.{
  ℕ, ◌/◌, ◌%◌, ◌<◌, ◌≡◌, ◌≢◌, refl, ◌∙◌, ap, sym, Bool, true, false, arith, ◌==◌, if◌then◌else◌,
  Bool-cases, inl, inr, update, Result, ok, panic,
}
use ele.Fs.{Superblock, Disk, bpb, bblock}
use ele.Fs.Bits.{bit-set_bit, bit-clear_bit, set_bit-byte, clear_bit-byte}
use ele.Fs.Blocks.{bit_at, bzero, mark, unmark, bitmap_blocks, balloc, bfree}
use ele.Fs.Blocks.Search.{used, Found, balloc-Found}

module _ (blk : ℕ → ℕ) (bytes : (i : ℕ) → blk i < 256) (bi : ℕ) where
  bit_at-mark : (bj : ℕ) → bit_at (mark bi blk) bj ≡ (if bi == bj then true else bit_at blk bj)
  unfolding mark
  bit_at-mark bj = elim (Bool-cases (bi / 8 == bj / 8)) [
    | inl e ↦ ground (
      arith,
      bit-set_bit (blk (bi / 8)) (bi % 8) (bj % 8) (bytes (bi / 8)) (omega arith) (omega arith),
    )
    | inr e ↦ ground arith
  ]

  bit_at-unmark : (bj : ℕ) → bit_at (unmark bi blk) bj ≡ (if bi == bj then false else bit_at blk bj)
  unfolding unmark
  bit_at-unmark bj = elim (Bool-cases (bi / 8 == bj / 8)) [
    | inl e ↦ ground (
      arith,
      bit-clear_bit (blk (bi / 8)) (bi % 8) (bj % 8) (bytes (bi / 8)) (omega arith) (omega arith),
    )
    | inr e ↦ ground arith
  ]

  mark-byte : (i : ℕ) → mark bi blk i < 256
  unfolding mark
  mark-byte i =
      ground (arith, bytes i, set_bit-byte (blk (bi / 8)) (bi % 8) (bytes (bi / 8)) (omega arith))

  unmark-byte : (i : ℕ) → unmark bi blk i < 256
  unfolding unmark
  unmark-byte i =
      ground (arith, bytes i, clear_bit-byte (blk (bi / 8)) (bi % 8) (bytes (bi / 8)) (omega arith))

-- Blocks hold bytes, and the blocks of the bitmap are blocks of the disk that the bitmap itself says
-- are in use.
abbrev pub IsDisk : Superblock → Disk → Type 0
IsDisk sb d =
    ((b i : ℕ) → d b i < 256)
    × ((b : ℕ) → b < sb.size → (bblock sb b < sb.size) × (used sb d (bblock sb b) ≡ true))

-- The disk `d'` is `d` with block `c`, which was free, taken and zeroed.
pub record Allocated (sb : Superblock) (d : Disk) (c : ℕ) (d' : Disk) : Type 0 where
  pub inside : c < sb.size
  pub free : used sb d c ≡ false
  pub lowest : (e : ℕ) → e < c → used sb d e ≡ true
  pub uses : (e : ℕ) → e < sb.size → used sb d' e ≡ (if c == e then true else used sb d e)
  pub zeros : (i : ℕ) → d' c i ≡ 0
  pub others : (e : ℕ) → e ≢ c → e ≢ bblock sb c → d' e ≡ d e
  pub disk : IsDisk sb d'

abbrev pub Balloc : Superblock → Disk → Result (ℕ × Disk) → Type 0
Balloc sb d (panic s) = (s ≡ "balloc: out of blocks") × ((c : ℕ) → c < sb.size → used sb d c ≡ true)
Balloc sb d (ok (c, d')) = Allocated sb d c d'

-- A bitmap row in which the bit of `c` has become `v`.
used-update :
    (sb : Superblock) (d : Disk) (c e : ℕ) (v : Bool) (row : ℕ → ℕ)
    → bit_at row (e % bpb) ≡ (if c % bpb == e % bpb then v else bit_at (d (bblock sb c)) (e % bpb))
    → used sb (update d (bblock sb c) row) e ≡ (if c == e then v else used sb d e)
unfolding used
used-update sb d c e v row h = elim (Bool-cases (bblock sb c == bblock sb e)) [
  | inr other ↦ let ne : (c == e) ≡ false = ground arith in rw (other, ne) refl
  | inl same ↦
      let f : bblock sb c ≡ bblock sb e = ground arith in
      let g : (c % bpb == e % bpb) ≡ (c == e) = ground arith in rw (same) (rw (h, g, f) refl)
]

module _ (sb : Superblock) (d : Disk) (disk : IsDisk sb d) where
  taken_row : ℕ → Disk
  taken_row c = update d (bblock sb c) (mark (c % bpb) (d (bblock sb c)))

  -- A free block holds no part of the bitmap.
  free-row : (c e : ℕ) → used sb d c ≡ false → e < sb.size → bblock sb e ≢ c
  free-row c e free lt eq = let (l, u) = disk.1 e lt in cc (ap (λ x. used sb d x) eq, u, free)

  used-taken_row : (c e : ℕ) → used sb (taken_row c) e ≡ (if c == e then true else used sb d e)
  unfolding taken_row
  used-taken_row c e =
      used-update sb d c e true (mark (c % bpb) (d (bblock sb c)))
        (bit_at-mark (d (bblock sb c)) (λ i. disk.0 (bblock sb c) i) (c % bpb) (e % bpb))

  used-bzero : (c e : ℕ) (d' : Disk) → bblock sb e ≢ c → used sb (bzero c d') e ≡ used sb d' e
  unfolding used bzero
  used-bzero c e d' ne = let f : (c == bblock sb e) ≡ false = ground arith in rw (f) refl

  taken-bytes : (c b i : ℕ) → bzero c (taken_row c) b i < 256
  unfolding bzero taken_row
  taken-bytes c b i = elim (Bool-cases (c == b)) [
    | inl e ↦ rw (e) (omega arith)
    | inr e ↦ elim (Bool-cases (bblock sb c == b)) [
      | inl f ↦ rw (e, f) (mark-byte (d (bblock sb c)) (λ j. disk.0 (bblock sb c) j) (c % bpb) i)
      | inr f ↦ rw (e, f) (disk.0 b i)
    ]
  ]

  taken-used :
      (c e : ℕ)
      → used sb d c ≡ false
      → e < sb.size
      → used sb (bzero c (taken_row c)) e ≡ (if c == e then true else used sb d e)
  taken-used c e free lt = used-bzero c e (taken_row c) (free-row c e free lt) ∙ used-taken_row c e

  taken-IsDisk : (c : ℕ) → used sb d c ≡ false → IsDisk sb (bzero c (taken_row c))
  taken-IsDisk c free = (
    λ b i. taken-bytes c b i,
    λ b lt. let (l, u) = disk.1 b lt in (l, ground (arith, taken-used c (bblock sb b) free l)),
  )

  others-kept : (c e : ℕ) → e ≢ c → e ≢ bblock sb c → bzero c (taken_row c) e ≡ d e
  unfolding bzero taken_row
  others-kept c e ne nr =
      let f : (c == e) ≡ false = ground arith in
      let g : (bblock sb c == e) ≡ false = ground arith in rw (f, g) refl

  zeroed : (c i : ℕ) → bzero c (taken_row c) c i ≡ 0
  unfolding bzero
  zeroed c i = let f : (c == c) ≡ true = ground arith in rw (f) refl

  taken-Allocated :
      (c : ℕ)
      → c < sb.size
      → used sb d c ≡ false
      → ((e : ℕ) → e < c → used sb d e ≡ true)
      → Allocated sb d c (bzero c (taken_row c))
  taken-Allocated c lt free before = record {
    inside = lt;
    free = free;
    lowest = before;
    uses = λ e l. taken-used c e free l;
    zeros = zeroed c;
    others = others-kept c;
    disk = taken-IsDisk c free;
  }

  -- On a disk whose bitmap keeps its own blocks in use, `balloc` panics only when each block of the
  -- disk is in use. Otherwise it returns the lowest free block: afterwards that block is in use and
  -- zeroed, no other block's use has changed, and only that block and its block of the bitmap were written.
  pub balloc_lem : Balloc sb d (balloc sb d)
  unfolding taken_row
  balloc_lem = from_Found (balloc sb d) (balloc-Found sb d)
    where
      from_Found : (r : Result (ℕ × Disk)) → Found sb d 0 (bitmap_blocks sb) r → Balloc sb d r
      from_Found (panic s) (e, all) = (e, λ c lt. all c (omega arith) (omega arith) lt)
      from_Found (ok (c, d')) (lo, lt, free, before, e) =
          subst (λ x. Allocated sb d c x) (sym e)
            (taken-Allocated c lt free (λ k. before k (omega arith)))

-- The disk `d'` is `d` with block `b`, which was in use, free.
abbrev pub Bfree : Superblock → Disk → ℕ → Result Disk → Type 0
Bfree sb d b (panic s) = (s ≡ "freeing free block") × (used sb d b ≡ false)
Bfree sb d b (ok d') =
    (used sb d b ≡ true)
    × ((e : ℕ) → used sb d' e ≡ (if b == e then false else used sb d e))
    × ((e : ℕ) → e ≢ bblock sb b → d' e ≡ d e)
    × IsDisk sb d'

module _ (sb : Superblock) (d : Disk) (disk : IsDisk sb d) (b : ℕ) where
  freed_row : Disk
  freed_row = update d (bblock sb b) (unmark (b % bpb) (d (bblock sb b)))

  used-freed_row : (e : ℕ) → used sb freed_row e ≡ (if b == e then false else used sb d e)
  unfolding freed_row
  used-freed_row e =
      used-update sb d b e false (unmark (b % bpb) (d (bblock sb b)))
        (bit_at-unmark (d (bblock sb b)) (λ i. disk.0 (bblock sb b) i) (b % bpb) (e % bpb))

  freed-bytes : (e i : ℕ) → freed_row e i < 256
  unfolding freed_row
  freed-bytes e i = elim (Bool-cases (bblock sb b == e)) [
    | inl f ↦ rw (f) (unmark-byte (d (bblock sb b)) (λ j. disk.0 (bblock sb b) j) (b % bpb) i)
    | inr f ↦ rw (f) (disk.0 e i)
  ]

  freed-kept : (e : ℕ) → e ≢ bblock sb b → freed_row e ≡ d e
  unfolding freed_row
  freed-kept e ne = let f : (bblock sb b == e) ≡ false = ground arith in rw (f) refl

  -- On such a disk, `bfree` of a block that holds no part of the bitmap panics exactly when the bitmap
  -- has the block as free. Otherwise the block is free afterwards, no other block's use has changed,
  -- only the block of the bitmap was written, and the bitmap still keeps its own blocks in use.
  pub bfree_lem : ((e : ℕ) → e < sb.size → bblock sb e ≢ b) → Bfree sb d b (bfree sb b d)
  unfolding bfree freed_row used
  bfree_lem apart = elim (Bool-cases (used sb d b)) [
    | inr free ↦ rw (free) (refl, free)
    | inl taken ↦ rw (taken) (
      taken,
      used-freed_row,
      freed-kept,
      (
        freed-bytes,
        λ e lt.
            let (l, u) = disk.1 e lt in
            (l, ground (arith, used-freed_row (bblock sb e), apart e lt)),
      ),
    )
  ]

-- A write to a block that holds no part of the bitmap.
module _ (sb : Superblock) (d : Disk) (b : ℕ) (row : ℕ → ℕ)
    (apart : (e : ℕ) → e < sb.size → bblock sb e ≢ b) where
  pub used-write : (e : ℕ) → e < sb.size → used sb (update d b row) e ≡ used sb d e
  unfolding used
  used-write e lt = let f : (b == bblock sb e) ≡ false = ground (arith, apart e lt) in rw (f) refl

  pub write-IsDisk : ((i : ℕ) → row i < 256) → IsDisk sb d → IsDisk sb (update d b row)
  write-IsDisk bytes disk = (
    λ e i. elim (Bool-cases (b == e)) [ inl h ↦ rw (h) (bytes i) | inr h ↦ rw (h) (disk.0 e i) ],
    λ e lt. let (l, u) = disk.1 e lt in (l, used-write (bblock sb e) l ∙ u),
  )
