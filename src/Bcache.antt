-- ===== src/Bcache.antt =====
-- The buffer cache (xv6-public/bio.c): which buffer holds which block. The cache is the list of its
-- buffers from `bcache.head.next` to `bcache.head.prev`, the most recently used first; a buffer keeps
-- its slot in `bcache.buf` as it moves. bcache.lock is held for the whole of each operation. `held`
-- says that the running process holds the buffer's sleeplock, which is `holdingsleep(&b->lock)`; what
-- other processes do with that lock, and the data of a buffer, are left out.
pub mod Unique
mod Tests
use ele.Base.{
  ℕ, zero, suc, ◌+◌, ◌-◌, ◌%◌, ◌^◌, Bool, true, false, ◌&&◌, not, Option, none, some, List, [], ◌∷◌,
  ◌==◌, if◌then◌else◌, set, get_elem?, Result, ok, panic, ◌>>◌, assert,
}

-- `struct buf`
pub record Buf : Type 0 where
  pub slot : ℕ
  pub dev : ℕ
  pub blockno : ℕ
  pub refcnt : ℕ
  pub valid : Bool
  pub dirty : Bool
  pub held : Bool

abbrev pub is_block : ℕ → ℕ → Buf → Bool
is_block dev blockno b = b.dev == dev && b.blockno == blockno

-- A buffer that may be recycled.
abbrev pub is_idle : Buf → Bool
is_idle b = b.refcnt == 0 && not b.dirty

-- The first loop of `bget`: the first place, from `i` on, that holds the block.
unfoldable pub find_cached : ℕ → ℕ → List Buf → ℕ → Option ℕ
find_cached dev blockno [] i = none
find_cached dev blockno (b ∷ bs) i =
    if is_block dev blockno b then some i else find_cached dev blockno bs (i + 1)

-- The second loop of `bget`, which runs backwards: the last idle place.
unfoldable pub find_idle : List Buf → ℕ → Option ℕ
find_idle [] i = none
find_idle (b ∷ bs) i = elim (find_idle bs (i + 1)) [
  | some j ↦ some j
  | none ↦ if is_idle b then some i else none
]

abbrev pub shared_once_more : Buf → Buf
shared_once_more b = record b { refcnt = (b.refcnt + 1) % 2 ^ 32 }

abbrev pub recycled : ℕ → ℕ → Buf → Buf
recycled dev blockno b = record b {
  dev = dev;
  blockno = blockno;
  valid = false;
  dirty = false;
  refcnt = 1;
}

-- The change of the buffer at place `i`.
unfoldable pub change : (Buf → Buf) → ℕ → List Buf → Result (List Buf × ℕ)
change f i bs = elim (get_elem? bs i) [
  | none ↦ panic "page fault"
  | some b ↦ ok (set bs i (f b), i)
]

-- `bget` by the results of its two loops, up to `acquiresleep`: the place of the buffer it returns.
unfoldable pub take_buf : ℕ → ℕ → Option ℕ → Option ℕ → List Buf → Result (List Buf × ℕ)
unfolding change
take_buf dev blockno (some i) idle bs = change shared_once_more i bs
take_buf dev blockno none (some i) bs = change (recycled dev blockno) i bs
take_buf dev blockno none none bs = panic "bget: no buffers"

unfoldable pub bget : ℕ → ℕ → List Buf → Result (List Buf × ℕ)
unfolding take_buf
bget dev blockno bs = take_buf dev blockno (find_cached dev blockno bs 0) (find_idle bs 0) bs

abbrev pub without : List Buf → ℕ → List Buf
without [] i = []
without (b ∷ bs) zero = bs
without (b ∷ bs) (suc i) = b ∷ without bs i

-- `brelse` of the buffer at place `i`, behind `releasesleep`. The count wraps as an unsigned int does.
unfoldable pub put_back : ℕ → Buf → List Buf → Result (List Buf)
put_back i b bs =
    let b' = record b { refcnt = (b.refcnt + 2 ^ 32 - 1) % 2 ^ 32 } in
    if b'.refcnt == 0 then ok (b' ∷ without bs i) else ok (set bs i b')

-- `releasesleep(&b->lock)`
abbrev pub release_buf : Buf → Buf
release_buf b = record b { held = false }

unfoldable pub brelse : ℕ → List Buf → Result (List Buf)
unfolding put_back
brelse i bs = elim (get_elem? bs i) [
  | none ↦ panic "page fault"
  | some b ↦ assert b.held "brelse" >> put_back i (release_buf b) bs
]
