-- ===== src/Fs/Dir.antt =====
-- Directories (xv6-public/fs.c): namecmp, dirlookup and dirlink. A directory is an index in the
-- inode cache `ips`. A `struct dirent` is its 16 bytes, the number first; before the first read
-- the one on the stack holds zeros here, since each use follows a full read or write of it.
pub mod Lookup
pub mod Link
use ele.Base.{
  ℕ, zero, suc, ◌+◌, ◌%◌, ◌^◌, Bool, true, false, ◌&&◌, not, Option, none, some, List, ◌==◌, ltb,
  if◌then◌else◌, set, get_elem?, Result, ok, panic, ◌>>=◌, ◌>>◌, assert,
}
use ele.Base.Int.{ℤ}
use ele.Str.{Bytes, strncmp, strncpy}
use ele.Users.{is_zero}
use ele.Fs.{Superblock, Disk}
use ele.Fs.Words.{half_at, put_half, put_bytes}
use ele.Fs.Inode.{Inode, t_dir, bytes_at}
use ele.Fs.Content.{Driver, readi, writei}
use ele.Fs.Icache.{iget, iput}

-- `DIRSIZ`
abbrev pub dirsiz : ℕ
dirsiz = 14

unfoldable pub namecmp : Bytes → Bytes → ℤ
namecmp s t = strncmp s t dirsiz

-- `de.inum != 0 && namecmp(name, de.name) == 0`
unfoldable pub matches : Bytes → Bytes → Bool
unfolding namecmp
matches name de = not (half_at de 0 == 0) && is_zero (namecmp name (bytes_at de 2))

-- `readi(...) != sizeof(de)`
abbrev pub is_short : Option ℕ → Bool
is_short none = true
is_short (some n) = not (n == 16)

-- `strncpy(de.name, name, DIRSIZ); de.inum = inum;`
unfoldable pub new_entry : Bytes → ℕ → Bytes
new_entry name inum =
    put_half 0 (inum % 2 ^ 16) (put_bytes 2 dirsiz (strncpy (λ _. 0) name dirsiz) (λ _. 0))

module _ (devsw : ℕ → Driver) (sb : Superblock) where
  -- The loop of `dirlookup` from `off`: the number and the offset of the entry. Each round passes 16 bytes, so
  -- `dp->size` rounds are enough.
  unfoldable pub dirlookup_loop :
      Bytes → ℕ → ℕ → Inode → Disk → Result (Option (ℕ × ℕ) × (Inode × Disk))
  dirlookup_loop name zero off dp d = ok (none, (dp, d))
  dirlookup_loop name (suc fuel) off dp d = elim (ltb off dp.size) [
    | false ↦ ok (none, (dp, d))
    | true ↦ readi devsw sb dp (λ _. 0) off 16 d >>= λ (r, (de, (dp', d'))). elim (is_short r) [
      | true ↦ panic "dirlookup read"
      | false ↦ elim (matches name de) [
        | true ↦ ok (some (half_at de 0, off), (dp', d'))
        | false ↦ dirlookup_loop name fuel (off + 16) dp' d'
      ]
    ]
  ]

  unfoldable pub dirlookup_inode : Bytes → Inode → Disk → Result (Option (ℕ × ℕ) × (Inode × Disk))
  unfolding dirlookup_loop
  dirlookup_inode name dp d =
      assert (dp.type_ == t_dir) "dirlookup not DIR" >> dirlookup_loop name dp.size 0 dp d

  -- The inode found, with `*poff`.
  unfoldable pub dirlookup :
      ℕ → Bytes → List Inode → Disk → Result (Option (ℕ × ℕ) × (List Inode × Disk))
  unfolding dirlookup_inode
  dirlookup i name ips d = elim (get_elem? ips i) [
    | none ↦ panic "page fault"
    | some dp ↦ dirlookup_inode name dp d >>= λ (found, (dp', d')). elim found [
      | none ↦ ok (none, (set ips i dp', d'))
      | some (inum, off) ↦
          iget dp.dev inum (set ips i dp') >>= λ (ips', j). ok (some (j, off), (ips', d'))
    ]
  ]

  -- The loop of `dirlink`: the offset of the first free entry, or the end.
  unfoldable pub free_entry : ℕ → ℕ → Inode → Disk → Result (ℕ × (Inode × Disk))
  free_entry zero off dp d = ok (off, (dp, d))
  free_entry (suc fuel) off dp d = elim (ltb off dp.size) [
    | false ↦ ok (off, (dp, d))
    | true ↦ readi devsw sb dp (λ _. 0) off 16 d >>= λ (r, (de, (dp', d'))). elim (is_short r) [
      | true ↦ panic "dirlink read"
      | false ↦ elim (half_at de 0 == 0) [
        | true ↦ ok (off, (dp', d'))
        | false ↦ free_entry fuel (off + 16) dp' d'
      ]
    ]
  ]

  unfoldable pub write_entry : Bytes → ℕ → Inode → Disk → Result (Inode × Disk)
  unfolding free_entry
  write_entry name inum dp d = free_entry dp.size 0 dp d >>= λ (off, (dp', d')).
      writei devsw sb dp' (new_entry name inum) off 16 d' >>= λ (r, out).
      if is_short r then panic "dirlink" else ok out

  -- Whether `dirlink` returned 0.
  unfoldable pub dirlink : ℕ → Bytes → ℕ → List Inode → Disk → Result (Bool × (List Inode × Disk))
  unfolding dirlookup write_entry
  dirlink i name inum ips d = dirlookup i name ips d >>= λ (found, (ips', d')). elim found [
    | some (j, off) ↦ iput sb j ips' d' >>= λ out. ok (false, out)
    | none ↦ elim (get_elem? ips' i) [
      | none ↦ panic "page fault"
      | some dp ↦ write_entry name inum dp d' >>= λ (dp', d''). ok (true, (set ips' i dp', d''))
    ]
  ]
