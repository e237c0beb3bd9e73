-- ===== src/Fs/Logged.antt =====
-- The writers of fs.c (xv6-public/fs.c) with their calls of `log_write`, which Fs/Content leaves out: the
-- same code, with the log of the transaction carried along. What they do to the inode and the disk is
-- what the functions of Fs/Content do, unless the log has no room.
pub mod Follows
pub mod Writing
pub mod Linking
use ele.Base.{
  ℕ, zero, suc, ◌+◌, ◌-◌, ◌*◌, ◌/◌, ◌%◌, ◌^◌, Bool, true, false, ◌&&◌, ◌||◌, Option, none, some,
  ◌==◌, ltb, if◌then◌else◌, update, Result, ok, panic, ◌>>=◌,
}
use ele.Args.{word_at}
use ele.Log.{Log, Store, log_write}
use ele.Fs.{Superblock, Disk, bsize, bpb, bblock}
use ele.Fs.Words.{put_bytes, put_word}
use ele.Fs.Blocks.{balloc_scan, bzero, mark, bitmap_blocks}
use ele.Fs.Inode.{Inode, iblock, t_dev}
use ele.Str.{Bytes}
use ele.Fs.Dir.{free_entry, new_entry, is_short}
use ele.Fs.Content.{Driver, ndirect, nindirect, maxfile, with_addr, chunk, write_device, grow_size}

-- The log and the cache behind it.
abbrev pub Tx : Type 0
Tx = Log × Store

-- `log_write(bp)` for the block `b`
abbrev pub note : ℕ → Tx → Result Tx
note b t = log_write (t.0) b (t.1)

-- The loop of `balloc`, with the `log_write` of the bitmap and that of `bzero`.
unfoldable pub balloc_logged : Superblock → ℕ → ℕ → Disk → Tx → Result ((ℕ × Disk) × Tx)
balloc_logged sb zero b d t = panic "balloc: out of blocks"
balloc_logged sb (suc left) b d t = elim (balloc_scan (d (bblock sb b)) b sb.size 0 bpb) [
  | some bi ↦ note (bblock sb b) t >>= λ t1. note (b + bi) t1 >>= λ t2.
      ok ((b + bi, bzero (b + bi) (update d (bblock sb b) (mark bi (d (bblock sb b))))), t2)
  | none ↦ balloc_logged sb left (b + bpb) d t
]

unfoldable pub bmap_slot_logged :
    Superblock → Inode → ℕ → Disk → Tx → Result ((ℕ × (Inode × Disk)) × Tx)
unfolding balloc_logged
bmap_slot_logged sb ip i d t = elim (ip.addrs i == 0) [
  | true ↦ balloc_logged sb (bitmap_blocks sb) 0 d t >>= λ ((a, d'), t').
      ok ((a, (with_addr ip i a, d')), t')
  | false ↦ ok ((ip.addrs i, (ip, d)), t)
]

unfoldable pub bmap_entry_logged :
    Superblock → Inode → ℕ → ℕ → Disk → Tx → Result ((ℕ × (Inode × Disk)) × Tx)
unfolding balloc_logged
bmap_entry_logged sb ip addr bn d t = elim (word_at (d addr) (4 * bn) == 0) [
  | true ↦ balloc_logged sb (bitmap_blocks sb) 0 d t >>= λ ((a, d'), t').
      note addr t' >>= λ t''. ok ((a, (ip, update d' addr (put_word (4 * bn) a (d' addr)))), t'')
  | false ↦ ok ((word_at (d addr) (4 * bn), (ip, d)), t)
]

unfoldable pub bmap_logged : Superblock → Inode → ℕ → Disk → Tx → Result ((ℕ × (Inode × Disk)) × Tx)
unfolding bmap_slot_logged bmap_entry_logged
bmap_logged sb ip bn d t =
    if ltb bn ndirect
    then bmap_slot_logged sb ip bn d t
    else if ltb (bn - ndirect) nindirect
    then (bmap_slot_logged sb ip ndirect d t >>= λ ((a, (ip', d')), t').
        bmap_entry_logged sb ip' a (bn - ndirect) d' t')
    else panic "bmap: out of range"

unfoldable pub writei_loop_logged :
    Superblock → ℕ → Inode → (ℕ → ℕ) → ℕ → ℕ → ℕ → Disk → Tx → Result ((ℕ × (Inode × Disk)) × Tx)
writei_loop_logged sb zero ip src tot off n d t = ok ((off, (ip, d)), t)
writei_loop_logged sb (suc fuel) ip src tot off n d t = elim (ltb tot n) [
  | false ↦ ok ((off, (ip, d)), t)
  | true ↦ bmap_logged sb ip (off / bsize) d t >>= λ ((a, (ip', d')), t').
      let m = chunk tot off n in
      note a t' >>= λ t''.
      writei_loop_logged sb fuel ip' src (tot + m) (off + m) n
        (update d' a (put_bytes (off % bsize) m (λ j. src (tot + j)) (d' a))) t''
]

-- The end of `writei`: `iupdate` writes the block of the inode.
unfoldable pub grow_size_logged :
    Superblock → ℕ → ℕ → Inode → Disk → Tx → Result ((Inode × Disk) × Tx)
grow_size_logged sb n off ip d t =
    if ltb 0 n && ltb ip.size off
    then (note (iblock sb ip.inum) t >>= λ t'. ok (grow_size sb n off ip d, t'))
    else ok ((ip, d), t)

unfoldable pub writei_logged :
    (ℕ → Driver)
    → Superblock
    → Inode
    → (ℕ → ℕ)
    → ℕ
    → ℕ
    → Disk
    → Tx
    → Result ((Option ℕ × (Inode × Disk)) × Tx)
unfolding writei_loop_logged write_device grow_size_logged
writei_logged devsw sb ip src off n d t =
    if ip.type_ == t_dev
    then ok ((write_device devsw ip src n, (ip, d)), t)
    else if ltb ip.size off || ltb ((off + n) % 2 ^ 32) off
    then ok ((none, (ip, d)), t)
    else if ltb (maxfile * bsize) ((off + n) % 2 ^ 32)
    then ok ((none, (ip, d)), t)
    else (writei_loop_logged sb n ip src 0 off n d t >>= λ ((off', (ip', d')), t').
        grow_size_logged sb n off' ip' d' t' >>= λ (r, t''). ok ((some n, r), t''))

-- What `dirlink` does after its test. Its search reads a directory, whose blocks are all there, so
-- `readi` allocates none.
unfoldable pub write_entry_logged :
    (ℕ → Driver) → Superblock → Bytes → ℕ → Inode → Disk → Tx → Result ((Inode × Disk) × Tx)
unfolding writei_logged
write_entry_logged devsw sb name inum dp d t =
    free_entry devsw sb dp.size 0 dp d >>= λ (off, (dp', d')).
    writei_logged devsw sb dp' (new_entry name inum) off 16 d' t >>= λ ((r, out), t').
    if is_short r then panic "dirlink" else ok (out, t')
