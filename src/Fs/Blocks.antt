-- ===== src/Fs/Blocks.antt =====
-- The allocator of disk blocks: bzero, balloc and bfree (xv6-public/fs.c). A byte of the bitmap
-- holds the bits of eight blocks, the lowest first. The ints b, bi and the bitmap's size stay far
-- below 2 ^ 31.
pub mod Search
pub mod Laws
use ele.Base.{
  ℕ, zero, suc, ◌+◌, ◌-◌, ◌*◌, ◌/◌, ◌%◌, Bool, true, false, not, Option, none, some, ◌==◌, ltb,
  if◌then◌else◌, update, Result, ok, panic,
}
use ele.Fs.{Superblock, Disk, bsize, bpb, bblock}
use ele.Fs.Bits.{bit, set_bit, clear_bit}

-- `memset(bp->data, 0, BSIZE)`
unfoldable pub bzero : ℕ → Disk → Disk
bzero bno d = update d bno (λ _. 0)

-- `(bp->data[bi/8] & m) != 0`, for `m = 1 << (bi % 8)`
abbrev pub bit_at : (ℕ → ℕ) → ℕ → Bool
bit_at blk bi = bit (blk (bi / 8)) (bi % 8)

-- `bp->data[bi/8] |= m`
unfoldable pub mark : ℕ → (ℕ → ℕ) → ℕ → ℕ
mark bi blk = update blk (bi / 8) (set_bit (blk (bi / 8)) (bi % 8))

-- `bp->data[bi/8] &= ~m`
unfoldable pub unmark : ℕ → (ℕ → ℕ) → ℕ → ℕ
unmark bi blk = update blk (bi / 8) (clear_bit (blk (bi / 8)) (bi % 8))

-- The inner loop of `balloc` over one block of the bitmap, with `left` bits to go: the first that
-- is clear.
unfoldable pub balloc_scan : (ℕ → ℕ) → ℕ → ℕ → ℕ → ℕ → Option ℕ
balloc_scan blk b size bi zero = none
balloc_scan blk b size bi (suc left) =
    let rest = balloc_scan blk b size (bi + 1) left in
    if ltb (b + bi) size then if bit_at blk bi then rest else some bi else none

-- The outer loop, with `left` rounds to go.
unfoldable pub balloc_loop : Superblock → ℕ → ℕ → Disk → Result (ℕ × Disk)
unfolding bzero
balloc_loop sb zero b d = panic "balloc: out of blocks"
balloc_loop sb (suc left) b d = elim (balloc_scan (d (bblock sb b)) b sb.size 0 bpb) [
  | some bi ↦ ok (b + bi, bzero (b + bi) (update d (bblock sb b) (mark bi (d (bblock sb b)))))
  | none ↦ balloc_loop sb left (b + bpb) d
]

-- `for(b = 0; b < sb.size; b += BPB)` makes one round for each block of the bitmap.
abbrev pub bitmap_blocks : Superblock → ℕ
bitmap_blocks sb = (sb.size + bpb - 1) / bpb

unfoldable pub balloc : Superblock → Disk → Result (ℕ × Disk)
balloc sb d = balloc_loop sb (bitmap_blocks sb) 0 d

unfoldable pub bfree : Superblock → ℕ → Disk → Result Disk
bfree sb b d =
    if bit_at (d (bblock sb b)) (b % bpb)
    then ok (update d (bblock sb b) (unmark (b % bpb) (d (bblock sb b))))
    else panic "freeing free block"
