-- ===== src/Fs/Icache.antt =====
-- The inode cache of fs.c (xv6-public/fs.c): iget, idup, ialloc, iput and iunlockput. An inode pointer is
-- its index in `icache.inode`, whose list is `ips`; icache.lock is held for the whole of each passage over the
-- table, and between two passages nobody else runs.
pub mod Unique
pub mod Dropping
use ele.Base.{
  ℕ, zero, suc, ◌+◌, ◌-◌, ◌%◌, ◌^◌, Bool, true, false, ◌&&◌, not, Option, none, some, List, [], ◌∷◌,
  ◌==◌, ltb, if◌then◌else◌, set, get_elem?, Result, ok, panic, ◌>>=◌,
}
use ele.Fs.{Superblock, Disk}
use ele.Fs.Inode.{Inode, referenced, acquiresleep, releasesleep, iunlock, iupdate, ialloc_loop}
use ele.Fs.Content.{itrunc}

-- `ip->ref > 0 && ip->dev == dev && ip->inum == inum`
abbrev pub is_inode : ℕ → ℕ → Inode → Bool
is_inode dev inum ip = referenced ip && (ip.dev == dev && ip.inum == inum)

-- How the loop of `iget` ends: at a cached inode, or with what `empty` points to.
pub data IgetScan : Type 0 where
  cached : ℕ → IgetScan
  missing : Option ℕ → IgetScan

-- `if(empty == 0 && ip->ref == 0) empty = ip;`
unfoldable pub note_empty : Option ℕ → ℕ → Inode → Option ℕ
note_empty (some e) i ip = some e
note_empty none i ip = if ip.ref == 0 then some i else none

unfoldable pub iget_scan : ℕ → ℕ → List Inode → ℕ → Option ℕ → IgetScan
unfolding note_empty
iget_scan dev inum [] i empty = missing empty
iget_scan dev inum (ip ∷ ips) i empty =
    let rest = iget_scan dev inum ips (i + 1) (note_empty empty i ip) in
    if is_inode dev inum ip then cached i else rest

abbrev pub set_ref : ℕ → Inode → Inode
set_ref n ip = record ip { ref = n }

abbrev pub one_more_ref : Inode → Inode
one_more_ref ip = set_ref ((ip.ref + 1) % 2 ^ 32) ip

abbrev pub recycled_inode : ℕ → ℕ → Inode → Inode
recycled_inode dev inum ip = record ip { dev = dev; inum = inum; ref = 1; valid = false }

-- The change of the inode at index `i`.
unfoldable pub change_inode : (Inode → Inode) → ℕ → List Inode → Result (List Inode × ℕ)
change_inode f i ips = elim (get_elem? ips i) [
  | none ↦ panic "page fault"
  | some ip ↦ ok (set ips i (f ip), i)
]

-- `iget` by the end of its loop.
unfoldable pub take_inode : ℕ → ℕ → IgetScan → List Inode → Result (List Inode × ℕ)
unfolding change_inode
take_inode dev inum (cached i) ips = change_inode one_more_ref i ips
take_inode dev inum (missing (some i)) ips = change_inode (recycled_inode dev inum) i ips
take_inode dev inum (missing none) ips = panic "iget: no inodes"

unfoldable pub iget : ℕ → ℕ → List Inode → Result (List Inode × ℕ)
unfolding take_inode iget_scan
iget dev inum ips = take_inode dev inum (iget_scan dev inum ips 0 none) ips

unfoldable pub idup : ℕ → List Inode → Result (List Inode × ℕ)
unfolding change_inode
idup i ips = change_inode one_more_ref i ips

-- `for(inum = 1; inum < sb.ninodes; inum++)` and the `iget` behind it.
unfoldable pub ialloc : Superblock → ℕ → ℕ → List Inode → Disk → Result ((List Inode × ℕ) × Disk)
unfolding iget
ialloc sb dev type_ ips d = ialloc_loop sb type_ (sb.ninodes - 1) 1 d >>= λ (inum, d').
    iget dev inum ips >>= λ r. ok (r, d')

-- The part of `iput` with the lock held: the inode without links is freed with the last reference.
unfoldable pub drop_inode : Superblock → Inode → Disk → Result (Inode × Disk)
drop_inode sb ip d =
    if ip.valid && (ip.nlink == 0 && ip.ref == 1)
    then (itrunc sb ip d >>= λ (ip', d').
        let gone = record ip' { type_ = 0 } in
        ok (record gone { valid = false }, iupdate sb gone d'))
    else ok (ip, d)

unfoldable pub iput_inode : Superblock → Inode → Disk → Result (Inode × Disk)
unfolding drop_inode
iput_inode sb ip d = acquiresleep ip >>= λ held. drop_inode sb held d >>= λ (ip', d').
    let free = releasesleep ip' in ok (set_ref ((free.ref + 2 ^ 32 - 1) % 2 ^ 32) free, d')

unfoldable pub iput : Superblock → ℕ → List Inode → Disk → Result (List Inode × Disk)
unfolding iput_inode
iput sb i ips d = elim (get_elem? ips i) [
  | none ↦ panic "page fault"
  | some ip ↦ iput_inode sb ip d >>= λ (ip', d'). ok (set ips i ip', d')
]

unfoldable pub iunlockput : Superblock → ℕ → List Inode → Disk → Result (List Inode × Disk)
unfolding iput
iunlockput sb i ips d = elim (get_elem? ips i) [
  | none ↦ panic "page fault"
  | some ip ↦ iunlock ip >>= λ ip'. iput sb i (set ips i ip') d
]
