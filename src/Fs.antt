-- ===== src/Fs.antt =====
-- The file system (xv6-public/fs.c). The disk is what the buffer cache shows of it inside a
-- transaction: the byte at each offset of each block. `bread` and `brelse` are the reading of a block
-- and `log_write` keeps what was written to it; Log and Bcache model these. The panics of `log_write`
-- are in Logged only, which has writei and dirlink with their calls of it; elsewhere a `log_write` is a
-- plain write, as it is while the transaction has room in the log. There is one disk,
-- laid out by the superblock `sb`.
pub mod Bits
pub mod Words
pub mod Blocks
pub mod Inode
pub mod Content
pub mod Icache
pub mod Dir
pub mod Path
pub mod Logged
mod Example
mod Tests
use ele.Base.{ℕ, ◌+◌, ◌*◌, ◌/◌}

-- `BSIZE`
abbrev pub bsize : ℕ
bsize = 512

-- `BPB`
abbrev pub bpb : ℕ
bpb = 4096

-- `struct superblock`
pub record Superblock : Type 0 where
  pub size : ℕ
  pub nblocks : ℕ
  pub ninodes : ℕ
  pub nlog : ℕ
  pub logstart : ℕ
  pub inodestart : ℕ
  pub bmapstart : ℕ

-- The byte at an offset of a block.
abbrev pub Disk : Type 0
Disk = ℕ → ℕ → ℕ

-- `BBLOCK(b, sb)`
abbrev pub bblock : Superblock → ℕ → ℕ
bblock sb b = b / bpb + sb.bmapstart
