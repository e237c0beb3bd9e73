-- ===== src/Fs/Inode.antt =====
-- The inodes of fs.c (xv6-public/fs.c, fs.h, file.h): the copy in memory, the stored one, and the
-- transfers between them. A short is its 16 bits. The lock of an inode is whether the running process
-- holds it: the operations run one after the other, so a process that takes a lock which is
-- held waits for itself, and that is the outcome "sleeps for ever". The int `ref` is its 32 bits.
pub mod Fields
pub mod Stored
pub mod Fresh
use ele.Base.{
  ℕ, zero, suc, ◌+◌, ◌*◌, ◌/◌, ◌%◌, ◌^◌, Bool, true, false, not, ◌&&◌, ◌==◌, ltb, if◌then◌else◌,
  update, Result, ok, panic, ◌>>=◌, ◌>>◌, assert,
}
use ele.Args.{word_at}
use ele.Str.{Bytes, strncpy, safestrcpy}
use ele.Users.{root}
use ele.Fs.{Superblock, Disk, bsize}
use ele.Fs.Words.{put_bytes, word_byte, put_word, put_half, half_at}

-- `struct inode`
pub record Inode : Type 0 where
  pub dev : ℕ
  pub inum : ℕ
  pub ref : ℕ
  pub locked : Bool
  pub valid : Bool
  pub type_ : ℕ
  pub major : ℕ
  pub minor : ℕ
  pub nlink : ℕ
  pub size : ℕ
  pub addrs : ℕ → ℕ
  pub user : Bytes
  pub mode : ℕ

abbrev pub t_dir : ℕ
t_dir = 1

abbrev pub t_file : ℕ
t_file = 2

abbrev pub t_dev : ℕ
t_dev = 3

-- `IPB`
abbrev pub ipb : ℕ
ipb = 8

-- `IBLOCK(i, sb)`
abbrev pub iblock : Superblock → ℕ → ℕ
iblock sb i = i / ipb + sb.inodestart

-- `(struct dinode*)bp->data + inum%IPB`, as an offset in the block
abbrev pub dinode_at : ℕ → ℕ
dinode_at inum = inum % ipb * 64

-- `(addrs[i])[j]`, byte by byte: what `memmove` copies of `ip->addrs`
abbrev pub addrs_bytes : (ℕ → ℕ) → ℕ → ℕ
addrs_bytes addrs j = word_byte (addrs (j / 4)) (j % 4)

-- The bytes from offset `at` on.
abbrev pub bytes_at : (ℕ → ℕ) → ℕ → Bytes
bytes_at row at j = row (at + j)

-- `strncpy(dip->id, ...)`
abbrev pub put_id : ℕ → Bytes → (ℕ → ℕ) → ℕ → ℕ
put_id at user row = put_bytes (at + 44) 16 (strncpy (bytes_at row (at + 44)) user 16) row

-- The assignments of `iupdate` to the stored inode at offset `at`, in their order.
unfoldable pub store_dinode : ℕ → Inode → (ℕ → ℕ) → ℕ → ℕ
store_dinode at ip row = put_bytes (at + 12) 32 (addrs_bytes ip.addrs) (
    put_word (at + 60) ip.mode (
      put_id at ip.user (
        put_word (at + 8) ip.size (
          put_half (at + 6) ip.nlink
            (put_half (at + 4) ip.minor (put_half (at + 2) ip.major (put_half at ip.type_ row)))))))

unfoldable pub iupdate : Superblock → Inode → Disk → Disk
unfolding store_dinode
iupdate sb ip d =
    update d (iblock sb ip.inum) (store_dinode (dinode_at ip.inum) ip (d (iblock sb ip.inum)))

-- The assignments of `ilock` from the stored inode at offset `at`.
unfoldable pub load_dinode : ℕ → (ℕ → ℕ) → Inode → Inode
load_dinode at row ip = record ip {
  type_ = half_at row at;
  major = half_at row (at + 2);
  minor = half_at row (at + 4);
  nlink = half_at row (at + 6);
  size = word_at row (at + 8);
  user = strncpy ip.user (bytes_at row (at + 44)) 16;
  mode = word_at row (at + 60);
  addrs = λ i. word_at row (at + 12 + 4 * i);
  valid = true;
}

-- `ip->ref > 0`
abbrev pub referenced : Inode → Bool
referenced ip = ltb 0 ip.ref && ltb ip.ref (2 ^ 31)

-- `acquiresleep(&ip->lock)`
abbrev pub acquiresleep : Inode → Result Inode
acquiresleep ip = if ip.locked then panic "sleeps for ever" else ok (record ip { locked = true })

abbrev pub releasesleep : Inode → Inode
releasesleep ip = record ip { locked = false }

-- The rest of `ilock`, with the lock held.
unfoldable pub read_inode : Superblock → Disk → Inode → Result Inode
unfolding load_dinode
read_inode sb d ip =
    let ip' = load_dinode (dinode_at ip.inum) (d (iblock sb ip.inum)) ip in
    if ip.valid then ok ip else if ip'.type_ == 0 then panic "ilock: no type" else ok ip'

unfoldable pub ilock : Superblock → Disk → Inode → Result Inode
unfolding read_inode
ilock sb d ip = assert (referenced ip) "ilock" >> (acquiresleep ip >>= λ ip'. read_inode sb d ip')

unfoldable pub iunlock : Inode → Result Inode
iunlock ip =
    if not ip.locked
    then panic "iunlock"
    else if referenced ip
    then ok (releasesleep ip)
    else panic "iunlock"

-- `struct stat`
pub record Stat : Type 0 where
  pub type_ : ℕ
  pub dev : ℕ
  pub ino : ℕ
  pub nlink : ℕ
  pub size : ℕ
  pub id : Bytes
  pub mode : ℕ

unfoldable pub stati : Inode → Stat → Stat
stati ip st = record {
  dev = ip.dev;
  ino = ip.inum;
  type_ = ip.type_;
  nlink = ip.nlink;
  size = ip.size;
  id = strncpy st.id ip.user 16;
  mode = ip.mode;
}

-- The mode that `ialloc` gives an inode of a type.
unfoldable pub first_mode : ℕ → ℕ
first_mode type_ =
    if type_ == t_file
    then 32 + 16 + 4
    else if type_ == t_dir
    then 32 + 16 + 8 + 4 + 1
    else if type_ == t_dev
    then 32 + 16 + 8 + 4 + 2 + 1
    else 0

-- What `ialloc` does to the stored inode at offset `at`.
unfoldable pub new_dinode : ℕ → ℕ → (ℕ → ℕ) → ℕ → ℕ
unfolding first_mode
new_dinode at type_ row =
    let cleared = put_bytes at 64 (λ _. 0) row in
    let moded = put_word (at + 60) (first_mode type_) (put_half at type_ cleared) in
    put_bytes (at + 44) 16 (safestrcpy (bytes_at moded (at + 44)) root 16) moded

-- The loop of `ialloc` from `inum` on, with `left` numbers to go: the number of the inode, and the disk.
unfoldable pub ialloc_loop : Superblock → ℕ → ℕ → ℕ → Disk → Result (ℕ × Disk)
unfolding new_dinode
ialloc_loop sb type_ zero inum d = panic "ialloc: no inodes"
ialloc_loop sb type_ (suc left) inum d =
    let row = d (iblock sb inum) in
    let rest = ialloc_loop sb type_ left (inum + 1) d in
    if half_at row (dinode_at inum) == 0
    then ok (inum, update d (iblock sb inum) (new_dinode (dinode_at inum) type_ row))
    else rest
