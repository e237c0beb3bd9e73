-- ===== src/Fs/Content.antt =====
-- The content of an inode: bmap, itrunc, readi and writei (xv6-public/fs.c). `ip` is the inode, locked
-- by the caller, and `d` the disk; both are returned. A user or kernel buffer is the bytes from its start.
-- The drivers behind `devsw` are parameters; the state of a device is left out.
pub mod Slots
pub mod Mapping
pub mod Entries
pub mod Bmap
pub mod Reading
pub mod Rounds
pub mod Updating
pub mod Writing
pub mod Growing
pub mod Freeing
pub mod Emptying
pub mod Truncating
use ele.Base.{
  ℕ, zero, suc, ◌+◌, ◌-◌, ◌*◌, ◌/◌, ◌%◌, ◌^◌, Bool, true, false, ◌&&◌, ◌||◌, Option, none, some,
  ◌==◌, leb, ltb, if◌then◌else◌, update, Result, ok, panic, ◌>>=◌,
}
use ele.Args.{word_at}
use ele.Fs.{Superblock, Disk, bsize}
use ele.Fs.Words.{put_bytes, put_word}
use ele.Fs.Blocks.{balloc, bfree}
use ele.Fs.Inode.{Inode, iupdate, t_dev}

-- `NDIRECT`
abbrev pub ndirect : ℕ
ndirect = 7

-- `NINDIRECT`
abbrev pub nindirect : ℕ
nindirect = 128

-- `MAXFILE`
abbrev pub maxfile : ℕ
maxfile = 135

-- `ip->addrs[i] = a`
abbrev pub with_addr : Inode → ℕ → ℕ → Inode
with_addr ip i a = record ip { addrs = update ip.addrs i a }

-- `if((addr = ip->addrs[i]) == 0) ip->addrs[i] = addr = balloc(ip->dev);`
unfoldable pub bmap_slot : Superblock → Inode → ℕ → Disk → Result (ℕ × (Inode × Disk))
bmap_slot sb ip i d = elim (ip.addrs i == 0) [
  | true ↦ balloc sb d >>= λ (a, d'). ok (a, (with_addr ip i a, d'))
  | false ↦ ok (ip.addrs i, (ip, d))
]

-- The entry `bn` of the indirect block `addr`.
unfoldable pub bmap_entry : Superblock → Inode → ℕ → ℕ → Disk → Result (ℕ × (Inode × Disk))
bmap_entry sb ip addr bn d = elim (word_at (d addr) (4 * bn) == 0) [
  | true ↦ balloc sb d >>= λ (a, d'). ok (a, (ip, update d' addr (put_word (4 * bn) a (d' addr))))
  | false ↦ ok (word_at (d addr) (4 * bn), (ip, d))
]

unfoldable pub bmap : Superblock → Inode → ℕ → Disk → Result (ℕ × (Inode × Disk))
unfolding bmap_slot bmap_entry
bmap sb ip bn d =
    if ltb bn ndirect
    then bmap_slot sb ip bn d
    else if ltb (bn - ndirect) nindirect
    then (bmap_slot sb ip ndirect d >>= λ (a, (ip', d')). bmap_entry sb ip' a (bn - ndirect) d')
    else panic "bmap: out of range"

-- The first loop of `itrunc`, with `left` addresses to go.
unfoldable pub itrunc_direct : Superblock → ℕ → ℕ → Inode → Disk → Result (Inode × Disk)
itrunc_direct sb zero i ip d = ok (ip, d)
itrunc_direct sb (suc left) i ip d = elim (ip.addrs i == 0) [
  | true ↦ itrunc_direct sb left (i + 1) ip d
  | false ↦ bfree sb (ip.addrs i) d >>= λ d'. itrunc_direct sb left (i + 1) (with_addr ip i 0) d'
]

-- The loop over the entries of the indirect block `addr`.
unfoldable pub itrunc_entries : Superblock → ℕ → ℕ → ℕ → Disk → Result Disk
itrunc_entries sb zero j addr d = ok d
itrunc_entries sb (suc left) j addr d = elim (word_at (d addr) (4 * j) == 0) [
  | true ↦ itrunc_entries sb left (j + 1) addr d
  | false ↦ bfree sb (word_at (d addr) (4 * j)) d >>= λ d'. itrunc_entries sb left (j + 1) addr d'
]

unfoldable pub itrunc_indirect : Superblock → Inode → Disk → Result (Inode × Disk)
unfolding itrunc_entries
itrunc_indirect sb ip d = elim (ip.addrs ndirect == 0) [
  | true ↦ ok (ip, d)
  | false ↦ itrunc_entries sb nindirect 0 (ip.addrs ndirect) d >>= λ d'.
      bfree sb (ip.addrs ndirect) d' >>= λ d''. ok (with_addr ip ndirect 0, d'')
]

unfoldable pub itrunc : Superblock → Inode → Disk → Result (Inode × Disk)
unfolding itrunc_direct itrunc_indirect
itrunc sb ip d = itrunc_direct sb ndirect 0 ip d >>= λ (ip', d').
    itrunc_indirect sb ip' d' >>= λ (ip'', d'').
    let cut = record ip'' { size = 0 } in ok (cut, iupdate sb cut d'')

-- `min(n - tot, BSIZE - off%BSIZE)`
abbrev pub chunk : ℕ → ℕ → ℕ → ℕ
chunk tot off n = if ltb (n - tot) (bsize - off % bsize) then n - tot else bsize - off % bsize

-- The loop of `readi`; each round copies a byte at least, so `n` rounds are enough. Behind the
-- guards `off + n` fits in a uint, so the sums are plain.
unfoldable pub readi_loop :
    Superblock → ℕ → Inode → (ℕ → ℕ) → ℕ → ℕ → ℕ → Disk → Result ((ℕ → ℕ) × (Inode × Disk))
readi_loop sb zero ip dst tot off n d = ok (dst, (ip, d))
readi_loop sb (suc fuel) ip dst tot off n d = elim (ltb tot n) [
  | false ↦ ok (dst, (ip, d))
  | true ↦ bmap sb ip (off / bsize) d >>= λ (a, (ip', d')).
      let m = chunk tot off n in
      readi_loop sb fuel ip' (put_bytes tot m (λ j. d' a (off % bsize + j)) dst) (tot + m) (off + m)
        n d'
]

-- The loop of `writei`, likewise; it also returns its `off`.
unfoldable pub writei_loop :
    Superblock → ℕ → Inode → (ℕ → ℕ) → ℕ → ℕ → ℕ → Disk → Result (ℕ × (Inode × Disk))
writei_loop sb zero ip src tot off n d = ok (off, (ip, d))
writei_loop sb (suc fuel) ip src tot off n d = elim (ltb tot n) [
  | false ↦ ok (off, (ip, d))
  | true ↦ bmap sb ip (off / bsize) d >>= λ (a, (ip', d')).
      let m = chunk tot off n in
      writei_loop sb fuel ip' src (tot + m) (off + m) n
        (update d' a (put_bytes (off % bsize) m (λ j. src (tot + j)) (d' a)))
]

-- `struct devsw`: `none` is a null pointer; a driver returns what it left in the buffer and a count,
-- `none` for a negative one.
pub record Driver : Type 0 where
  pub read : Option (Inode → (ℕ → ℕ) → ℕ → (ℕ → ℕ) × Option ℕ)
  pub write : Option (Inode → (ℕ → ℕ) → ℕ → Option ℕ)

-- `NDEV`
abbrev pub ndev : ℕ
ndev = 10

-- The branch of `readi` for a device: `none` is -1. A negative major number is at least 2 ^ 15.
unfoldable pub read_device : (ℕ → Driver) → Inode → (ℕ → ℕ) → ℕ → (ℕ → ℕ) × Option ℕ
read_device devsw ip dst n =
    if leb (2 ^ 15) ip.major || leb ndev ip.major
    then (dst, none)
    else elim ((devsw ip.major).read) [ none ↦ (dst, none) | some f ↦ f ip dst n ]

unfoldable pub write_device : (ℕ → Driver) → Inode → (ℕ → ℕ) → ℕ → Option ℕ
write_device devsw ip src n =
    if leb (2 ^ 15) ip.major || leb ndev ip.major
    then none
    else elim ((devsw ip.major).write) [ none ↦ none | some f ↦ f ip src n ]

-- The count that `readi` returns (`none` for -1), the buffer, the inode and the disk.
unfoldable pub readi :
    (ℕ → Driver)
    → Superblock
    → Inode
    → (ℕ → ℕ)
    → ℕ
    → ℕ
    → Disk
    → Result (Option ℕ × ((ℕ → ℕ) × (Inode × Disk)))
unfolding readi_loop read_device
readi devsw sb ip dst off n d =
    if ip.type_ == t_dev
    then (let r = read_device devsw ip dst n in ok (r.1, (r.0, (ip, d))))
    else if ltb ip.size off || ltb ((off + n) % 2 ^ 32) off
    then ok (none, (dst, (ip, d)))
    else (let n' = if ltb ip.size ((off + n) % 2 ^ 32) then ip.size - off else n in
        readi_loop sb n' ip dst 0 off n' d >>= λ r. ok (some n', r))

-- The end of `writei`, with the `off` of its loop.
unfoldable pub grow_size : Superblock → ℕ → ℕ → Inode → Disk → Inode × Disk
grow_size sb n off ip d =
    if ltb 0 n && ltb ip.size off
    then (let ip' = record ip { size = off } in (ip', iupdate sb ip' d))
    else (ip, d)

unfoldable pub writei :
    (ℕ → Driver) → Superblock → Inode → (ℕ → ℕ) → ℕ → ℕ → Disk → Result (Option ℕ × (Inode × Disk))
unfolding writei_loop write_device grow_size
writei devsw sb ip src off n d =
    if ip.type_ == t_dev
    then ok (write_device devsw ip src n, (ip, d))
    else if ltb ip.size off || ltb ((off + n) % 2 ^ 32) off
    then ok (none, (ip, d))
    else if ltb (maxfile * bsize) ((off + n) % 2 ^ 32)
    then ok (none, (ip, d))
    else (writei_loop sb n ip src 0 off n d >>= λ (off', (ip', d')).
        ok (some n, grow_size sb n off' ip' d'))
