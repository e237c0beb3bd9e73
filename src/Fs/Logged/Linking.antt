-- ===== src/Fs/Logged/Linking.antt =====
-- `dirlink` (xv6-public/fs.c) in a transaction.
use ele.Base.{
  ℕ, suc, ◌+◌, ◌*◌, ◌%◌, ◌≤◌, ◌<◌, ◌^◌, ◌≡◌, Option, arith, if◌then◌else◌, Bool-cases, inl, inr,
  Result, ok, panic, ◌>>=◌, refl,
}
use ele.Str.{Bytes}
use ele.Fs.{Superblock, Disk, bsize}
use ele.Fs.Inode.{Inode, t_dir}
use ele.Fs.Content.{maxfile, writei, Driver}
use ele.Fs.Content.Slots.{IsFile}
use ele.Fs.Content.Reading.{IsWhole}
use ele.Fs.Dir.{free_entry, new_entry, is_short, write_entry}
use ele.Fs.Dir.Lookup.{Named}
use ele.Fs.Dir.Link.{Linked, write_entry_lem}
use ele.Fs.Logged.{Tx, write_entry_logged}
use ele.Fs.Logged.Follows.{Room, Room-le, Follows, Follows-bind}
use ele.Fs.Logged.Writing.{touched, writei-Follows}

-- A part that does not write to the disk comes first.
Follows-pure :
    {A B : Type 0} (j : ℕ) (m : Result A) (f : A → Result B) (f' : A → Result (B × Tx))
    → ((a : A) → Follows j (f a) (f' a))
    → Follows j (m >>= f) (m >>= f')
Follows-pure j (panic s) f f' g = refl
Follows-pure j (ok a) f f' g = g a

-- An entry lies in two blocks at most.
touched-le : (j off : ℕ) → 6 * touched off 16 + suc j ≤ j + 13
touched-le j off = ground arith

checked-Follows :
    (j : ℕ) (r : Option ℕ) (out : Inode × Disk) (t : Tx)
    → Room j t
    → Follows {A = Inode × Disk} j
        (if is_short r then panic "dirlink" else ok out)
        (if is_short r then panic "dirlink" else ok (out, t))
checked-Follows j r out t room = elim (Bool-cases (is_short r)) [
  | inl e ↦ rw (e) refl
  | inr e ↦ rw (e) (t, refl, room)
]

write_entry-Follows :
    (j : ℕ) (devsw : ℕ → Driver) (sb : Superblock) (name : Bytes) (inum : ℕ) (dp : Inode) (d : Disk)
    (t : Tx)
    → Room (j + 13) t
    → Follows j (write_entry devsw sb name inum dp d) (write_entry_logged devsw sb name inum dp d t)
unfolding write_entry write_entry_logged
write_entry-Follows j devsw sb name inum dp d t room =
    Follows-pure j (free_entry devsw sb dp.size 0 dp d) _ _ (λ (off, (dp', d')).
      Follows-bind j j (writei devsw sb dp' (new_entry name inum) off 16 d') _ _ _
        (writei-Follows j devsw sb dp' (new_entry name inum) off 16 d' t
          (Room-le (j + 13) (6 * touched off 16 + suc j) (touched-le j off) room))
        (λ (r, out) t' less. checked-Follows j r out t' less))

-- An entry linked as Linked has it, with room left in the log.
abbrev pub LoggedLink :
    (ℕ → Driver) → Superblock → Bytes → ℕ → Inode → Disk → ℕ → Result ((Inode × Disk) × Tx) → Type 0
LoggedLink devsw sb name inum dp d j (panic s) = Linked devsw sb name inum dp d (panic s)
LoggedLink devsw sb name inum dp d j (ok (r, t)) = Linked devsw sb name inum dp d (ok r) × Room j t

Follows-LoggedLink :
    (devsw : ℕ → Driver) (sb : Superblock) (name : Bytes) (inum : ℕ) (dp : Inode) (d : Disk) (j : ℕ)
    (m : Result (Inode × Disk)) (r : Result ((Inode × Disk) × Tx))
    → Follows j m r
    → Linked devsw sb name inum dp d m
    → LoggedLink devsw sb name inum dp d j r
Follows-LoggedLink devsw sb name inum dp d j (panic s) r e w = rw (e) w
Follows-LoggedLink devsw sb name inum dp d j (ok a) r (t, e, room) w = rw (e) (w, room)

-- What `dirlink` does after its test, in a directory in order, all there, of whole entries, with
-- room for one more, and without an entry of that name, for an inode number above 0 and below 2 ^
-- 16 (an entry holds a ushort, and 0 marks a free one), inside a transaction whose log has room for
-- j + 13 more entries. No `log_write` fails: it panics only in `balloc`, out of blocks, or
-- `dirlookup` then finds the name with the number that was linked, at the place of the new entry,
-- which was free or the end; every other entry is as before, the directory is in order again, and
-- the log has room for j more entries.
pub write_entry_logged_lem :
    (devsw : ℕ → Driver) (sb : Superblock) (name : Bytes) (inum : ℕ) (dp : Inode) (d : Disk) (j : ℕ)
    (t : Tx)
    → dp.type_ ≡ t_dir
    → dp.size + 16 ≤ maxfile * bsize
    → IsWhole dp d dp.size
    → dp.size % 16 ≡ 0
    → 0 < inum
    → inum < 2 ^ 16
    → ((l : ℕ) → 16 * l < dp.size → ¬ Named name dp d l)
    → IsFile sb dp d
    → ((i : ℕ) → dp.user i < 256)
    → ((i : ℕ) → name i < 256)
    → Room (j + 13) t
    → LoggedLink devsw sb name inum dp d j (write_entry_logged devsw sb name inum dp d t)
write_entry_logged_lem devsw sb name inum dp d j t dir space whole entries pos short absent file
      users bytes room =
    Follows-LoggedLink devsw sb name inum dp d j (write_entry devsw sb name inum dp d) _
      (write_entry-Follows j devsw sb name inum dp d t room)
      (write_entry_lem devsw sb name inum dp d dir space whole entries pos short absent file users
        bytes)
