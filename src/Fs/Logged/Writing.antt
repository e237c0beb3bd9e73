-- ===== src/Fs/Logged/Writing.antt =====
-- `writei` (xv6-public/fs.c) in a transaction.
use ele.Base.{
  ℕ, zero, suc, ◌+◌, ◌-◌, ◌*◌, ◌/◌, ◌%◌, ◌≤◌, ◌<◌, ◌^◌, ◌≡◌, ◌≢◌, refl, false, Option, some, arith,
  ◌==◌, ltb, ◌&&◌, ◌||◌, if◌then◌else◌, update, Bool-cases, inl, inr, Result, ok, panic, ◌>>=◌,
}
use ele.Fs.{Superblock, Disk, bsize}
use ele.Fs.Words.{put_bytes}
use ele.Fs.Inode.{Inode, iblock, t_dev}
use ele.Fs.Content.{bmap, chunk, maxfile, writei_loop, writei, grow_size, Driver}
use ele.Fs.Content.Slots.{IsFile}
use ele.Fs.Content.Growing.{WriteOf, writei_lem}
use ele.Fs.Logged.{Tx, writei_loop_logged, grow_size_logged, writei_logged}
use ele.Fs.Logged.Follows.{
  Room, Room-le, Follows, Follows-bind, Follows-note, Follows-last, bmap-Follows,
}

-- How many blocks a range of `n` bytes from `off` on touches.
abbrev pub touched : ℕ → ℕ → ℕ
touched off n = if n == 0 then 0 else (off % bsize + n + 511) / bsize

-- A round of `writei` makes six calls of `log_write` at most.
writei_loop-Follows :
    (j : ℕ) (sb : Superblock) (fuel : ℕ) (ip : Inode) (src : ℕ → ℕ) (tot off n : ℕ) (d : Disk)
    (t : Tx)
    → Room (6 * touched off (n - tot) + j) t
    → Follows j
        (writei_loop sb fuel ip src tot off n d)
        (writei_loop_logged sb fuel ip src tot off n d t)
unfolding writei_loop writei_loop_logged
writei_loop-Follows j sb zero ip src tot off n d t room =
    (t, refl, Room-le (6 * touched off (n - tot) + j) j (omega arith) room)
writei_loop-Follows j sb (suc fuel) ip src tot off n d t room = elim (Bool-cases (ltb tot n)) [
  | inr end ↦
      rw (end, writei_loop, writei_loop_logged)
        (t, refl, Room-le (6 * touched off (n - tot) + j) j (omega arith) room)
  | inl more ↦
      let m = chunk tot off n in
      let rest = 6 * touched (off + m) (n - (tot + m)) + j in
      let enough : suc (suc (suc (suc (suc (suc rest))))) ≤ 6 * touched off (n - tot) + j =
        ground arith in
      rw (more, writei_loop, writei_loop_logged)
        (Follows-bind (suc rest) j (bmap sb ip (off / bsize) d) _ _ _
          (bmap-Follows (suc rest) sb ip (off / bsize) d t (
            Room-le (6 * touched off (n - tot) + j) (suc (suc (suc (suc (suc (suc rest)))))) enough
              room))
          (λ (a, (ip', d')) t' r. Follows-note {A = ℕ × (Inode × Disk)} rest j a t' _ _ r (λ t'' r'.
            writei_loop-Follows j sb fuel ip' src (tot + m) (off + m) n
              (update d' a (put_bytes (off % bsize) m (λ i. src (tot + i)) (d' a))) t'' r')))
]

grow_size-same :
    (sb : Superblock) (n off : ℕ) (ip : Inode) (d : Disk)
    → (ltb 0 n && ltb ip.size off) ≡ false
    → grow_size sb n off ip d ≡ (ip, d)
unfolding grow_size
grow_size-same sb n off ip d e = rw (e) refl

grow_size-Follows :
    (j : ℕ) (sb : Superblock) (n off : ℕ) (ip : Inode) (d : Disk) (t : Tx)
    → Room (suc j) t
    → Follows j (ok (grow_size sb n off ip d)) (grow_size_logged sb n off ip d t)
unfolding grow_size_logged
grow_size-Follows j sb n off ip d t room = elim (Bool-cases (ltb 0 n && ltb ip.size off)) [
  | inl e ↦ rw (e) (Follows-last j (iblock sb ip.inum) t (grow_size sb n off ip d) room)
  | inr e ↦ rw (e, grow_size-same sb n off ip d e) (t, refl, Room-le (suc j) j (omega arith) room)
]

sub-zero : (n : ℕ) → n - 0 ≡ n
sub-zero n = omega arith

Follows-some :
    (j n : ℕ) (a : Inode × Disk) (r : Result ((Inode × Disk) × Tx))
    → Follows j (ok a) r
    → Follows {A = Option ℕ × (Inode × Disk)} j
        (ok (some n, a))
        (r >>= λ (x, t). ok ((some n, x), t))
Follows-some j n a r (t, e, room) = rw (e) (t, refl, room)

pub writei-Follows :
    (j : ℕ) (devsw : ℕ → Driver) (sb : Superblock) (ip : Inode) (src : ℕ → ℕ) (off n : ℕ) (d : Disk)
    (t : Tx)
    → Room (6 * touched off n + suc j) t
    → Follows j (writei devsw sb ip src off n d) (writei_logged devsw sb ip src off n d t)
unfolding writei writei_logged
writei-Follows j devsw sb ip src off n d t room =
    let less : Room j t = Room-le (6 * touched off n + suc j) j (omega arith) room in
    elim (Bool-cases (ip.type_ == t_dev)) [
      | inl e ↦ rw (e) (t, refl, less)
      | inr e ↦ elim (Bool-cases (ltb ip.size off || ltb ((off + n) % 2 ^ 32) off)) [
        | inl f ↦ rw (e, f) (t, refl, less)
        | inr f ↦ elim (Bool-cases (ltb (maxfile * bsize) ((off + n) % 2 ^ 32))) [
          | inl g ↦ rw (e, f, g) (t, refl, less)
          | inr g ↦
              rw (e, f, g)
                (Follows-bind (suc j) j (writei_loop sb n ip src 0 off n d) _ _ _
                  (writei_loop-Follows (suc j) sb n ip src 0 off n d t (rw (sub-zero n) room))
                  (λ (off', (ip', d')) t' r.
                    Follows-some j n (grow_size sb n off' ip' d')
                      (grow_size_logged sb n off' ip' d' t')
                      (grow_size-Follows j sb n off' ip' d' t' r)))
        ]
      ]
    ]

-- A write as WriteOf has it, that leaves room in the log.
abbrev pub LoggedWrite :
    Superblock
    → Inode
    → Disk
    → (ℕ → ℕ)
    → ℕ
    → ℕ
    → ℕ
    → Result ((Option ℕ × (Inode × Disk)) × Tx)
    → Type 0
LoggedWrite sb ip d src off n j (panic s) = WriteOf sb ip d src off n (panic s)
LoggedWrite sb ip d src off n j (ok (r, t)) = WriteOf sb ip d src off n (ok r) × Room j t

Follows-LoggedWrite :
    (sb : Superblock) (ip : Inode) (d : Disk) (src : ℕ → ℕ) (off n j : ℕ)
    (m : Result (Option ℕ × (Inode × Disk))) (r : Result ((Option ℕ × (Inode × Disk)) × Tx))
    → Follows j m r
    → WriteOf sb ip d src off n m
    → LoggedWrite sb ip d src off n j r
Follows-LoggedWrite sb ip d src off n j (panic s) r e w = rw (e) w
Follows-LoggedWrite sb ip d src off n j (ok a) r (t, e, room) w = rw (e) (w, room)

-- `writei` of an inode that is no device, whose size is at most MAXFILE blocks and whose blocks are
-- in order, with an offset and a count that are uints, inside a transaction whose log has room for
-- 6 * b + 1 + j more entries, where b is the number of blocks that the range touches. It returns
-- -1, and changes nothing, exactly if the offset is behind the end of the file or the range ends
-- behind the largest file. Otherwise no `log_write` fails: it panics only in `balloc`, out of
-- blocks, or it returns `n`. Then the bytes of the range are those of `src` and all others are as
-- before, the size is the end of the range if that lies behind the old end, no other field but the
-- addresses has changed, the inode's blocks are in order again, a file without holes still has
-- none, and no other block in use has changed but the bitmap and the block of the stored inode. The
-- log has room for j more entries.
pub writei_logged_lem :
    (devsw : ℕ → Driver) (sb : Superblock) (ip : Inode) (d : Disk) (src : ℕ → ℕ) (off n j : ℕ)
    (t : Tx)
    → IsFile sb ip d
    → ip.type_ ≢ t_dev
    → ip.size ≤ maxfile * bsize
    → ((i : ℕ) → ip.user i < 256)
    → ((i : ℕ) → src i < 256)
    → off < 2 ^ 32
    → n < 2 ^ 32
    → Room (6 * touched off n + suc j) t
    → LoggedWrite sb ip d src off n j (writei_logged devsw sb ip src off n d t)
writei_logged_lem devsw sb ip d src off n j t file kind small users bytes lo ln room =
    Follows-LoggedWrite sb ip d src off n j (writei devsw sb ip src off n d) _
      (writei-Follows j devsw sb ip src off n d t room)
      (writei_lem devsw sb ip d src off n file kind small users bytes lo ln)
