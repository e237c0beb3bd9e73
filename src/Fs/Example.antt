-- ===== src/Fs/Example.antt =====
-- A disk of 16 blocks with a file and a directory, for the tests of the file system (xv6-public/fs.c).
use mathlib.Core.Path.{subst}
use ele.Base.{
  ℕ, zero, suc, ◌+◌, ◌<◌, ◌≡◌, ◌≢◌, refl, sym, true, false, none, arith, ◌==◌, ltb, if◌then◌else◌,
  Bool-cases, inl, inr,
}
use ele.Users.{root}
use ele.Fs.{Superblock, Disk, bblock}
use ele.Fs.Bits.{bit}
use ele.Fs.Blocks.Search.{used}
use ele.Fs.Blocks.Laws.{IsDisk}
use ele.Fs.Inode.{Inode}
use ele.Fs.Content.Bmap.{place}
use ele.Fs.Content.Reading.{IsWhole}
use ele.Fs.Content.{Driver}
use ele.Fs.Content.Slots.{slots, slot, Owned, IsFile}

-- Blocks 0 to 7 are in use: block 5 is the bitmap, 6 the file and 7 the directory.
abbrev pub sb : Superblock
sb = record {
  size = 16;
  nblocks = 10;
  ninodes = 16;
  nlog = 1;
  logstart = 2;
  inodestart = 3;
  bmapstart = 5;
}

-- The file holds "abc"; the directory has "." for inode 1 and "a" for inode 2.
abbrev pub content : ℕ → ℕ → ℕ
content b i =
    if b == 5
    then (if i == 0 then 255 else 0)
    else if b == 6
    then (if ltb i 3 then 97 + i else 0)
    else if b == 7
    then (if i == 0
        then 1
        else if i == 2
        then 46
        else if i == 16
        then 2
        else if i == 18
        then 97
        else 0)
    else 0

unfoldable pub disk : Disk
disk = content

pub disk-byte : (b i : ℕ) → disk b i < 256
unfolding disk
disk-byte b i = ground arith

pub used-first : used sb disk 5 ≡ true
unfolding used disk bit
used-first = refl

pub disk-IsDisk : IsDisk sb disk
disk-IsDisk = (
  disk-byte,
  λ b lt.
      let e : bblock sb b ≡ 5 = omega arith in
      (omega arith, subst (λ x. used sb disk x ≡ true) (sym e) used-first),
)

-- An inode of one block.
abbrev pub one_block : ℕ → ℕ → ℕ → Inode
one_block type_ size a = record {
  dev = 1;
  inum = 2;
  ref = 1;
  locked = true;
  valid = true;
  type_ = type_;
  major = 0;
  minor = 0;
  nlink = 1;
  size = size;
  addrs = λ k. if k == 0 then a else 0;
  user = root;
  mode = 36;
}

pub slot-one_block :
    (type_ size a k : ℕ) → slot (one_block type_ size a) disk k ≡ (if k == 0 then a else 0)
unfolding slot
slot-one_block type_ size a k = elim (Bool-cases (ltb k 8)) [
  | inl low ↦ rw (low) refl
  | inr high ↦ let f : (k == 0) ≡ false = ground arith in rw (high, f) refl
]

pub used-at : used sb disk 6 ≡ true
unfolding used disk bit
used-at = refl

pub used-dir : used sb disk 7 ≡ true
unfolding used disk bit
used-dir = refl

pub one_block-IsFile :
    (type_ size a : ℕ)
    → 5 < a
    → a < 16
    → used sb disk a ≡ true
    → IsFile sb (one_block type_ size a) disk
unfolding used disk bit
one_block-IsFile type_ size a lo hi u = record {
  disk = disk-IsDisk;
  small = omega arith;
  boot = (omega arith, refl);
  home = (omega arith, refl, λ e lt z. omega arith);
  owned = owned;
  apart = λ k l lk ll nz e.
      ground (arith, slot-one_block type_ size a k, slot-one_block type_ size a l);
}
  where
    owned :
        (k : ℕ)
        → k < slots
        → slot (one_block type_ size a) disk k ≢ 0
        → Owned sb 2 disk (slot (one_block type_ size a) disk k)
    owned k lt nz =
        let f : slot (one_block type_ size a) disk k ≡ a =
          ground (arith, slot-one_block type_ size a k) in
        subst (λ b. Owned sb 2 disk b) (sym f)
          (record {
            inside = hi;
            in_use = u;
            no_row = λ e le z. omega arith;
            not_home = λ z. omega arith;
          })

abbrev pub file : Inode
file = one_block 2 3 6

pub file-IsFile : IsFile sb file disk
file-IsFile = one_block-IsFile 2 3 6 (omega arith) (omega arith) used-at

abbrev pub dir : Inode
dir = one_block 1 32 7

pub one_block-IsWhole :
    (type_ size a : ℕ) → size < 512 → a ≢ 0 → IsWhole (one_block type_ size a) disk size
one_block-IsWhole type_ size a small nz bn lt z =
    nz (ground (arith, slot-one_block type_ size a (place bn), z))

pub dir-IsWhole : IsWhole dir disk 32
dir-IsWhole = one_block-IsWhole 1 32 7 (omega arith) (λ z. omega arith)

-- No device.
abbrev pub devsw : ℕ → Driver
devsw = λ _. record { read = none; write = none }

pub users : (j : ℕ) → file.user j < 256
users zero = omega arith
users (suc zero) = omega arith
users (suc (suc zero)) = omega arith
users (suc (suc (suc zero))) = omega arith
users (suc (suc (suc (suc j)))) = omega arith
