-- ===== src/Fs/Tests.antt =====
-- The theorems on the file system (xv6-public/fs.c) at a disk of 16 blocks with a file and a directory.
use mathlib.Core.Option.{some_inj}
use ele.Base.{
  ℕ, zero, suc, ◌*◌, ◌<◌, ◌≡◌, ◌≢◌, refl, ap, true, false, List, [], ◌∷◌, Option, some, arith,
  get_elem?, ok, panic, ◌≤◌,
}
use ele.Str.{Bytes, put, strncmp}
use ele.Fs.{Disk}
use ele.Fs.Blocks.{balloc}
use ele.Fs.Blocks.Laws.{Balloc, balloc_lem}
use ele.Fs.Inode.{Inode, iupdate, ilock, referenced}
use ele.Fs.Inode.Stored.{SameInode, ilock-iupdate}
use ele.Fs.Content.Mapping.{Bmapped}
use ele.Fs.Content.Bmap.{place, bmap_lem}
use ele.Fs.Content.Reading.{read_count, ReadFrom, readi_lem}
use ele.Fs.Logged.{Tx, bmap_logged, writei_logged, write_entry_logged}
use ele.Fs.Logged.Follows.{Room}
use ele.Fs.Logged.Writing.{LoggedWrite, writei_logged_lem}
use ele.Log.{log_write}
use ele.Fs.Content.Truncating.{Truncated, itrunc_lem}
use ele.Fs.Inode.{ialloc_loop}
use ele.Fs.Inode.Fresh.{Ialloc, ialloc_loop_lem}
use ele.Fs.Icache.{iget, iput_inode}
use ele.Fs.Icache.Dropping.{Put, iput_inode_lem}
use ele.Fs.Icache.Unique.{IsUnique, Got, iget_lem}
use ele.Fs.Dir.{dirlookup_inode}
use ele.Fs.Logged.Linking.{LoggedLink, write_entry_logged_lem}
use ele.Fs.Content.Mapping.{cell}
use ele.Fs.Dir.Lookup.{Named, Found, dirlookup_lem}
use ele.Fs.Path.{skipelem, may_search}
use ele.Fs.Bits.{bit}
use ele.Fs.Path.Elements.{IsString, Skipelem, skipelem_lem}
use ele.Fs.Content.{bmap, readi, itrunc}
use ele.Fs.Content.Slots.{slot, IsFile}
use ele.Fs.Example.{
  sb, disk, disk-IsDisk, used-dir, one_block-IsFile, file, file-IsFile, dir, one_block-IsWhole,
  dir-IsWhole, devsw, users,
}

balloc_lem_example : Balloc sb disk (balloc sb disk)
balloc_lem_example = balloc_lem sb disk disk-IsDisk

bmap_lem_example : Bmapped sb file disk (place 1) (bmap sb file 1 disk)
bmap_lem_example = bmap_lem sb file disk 1 file-IsFile (omega arith)

readi_lem_example :
    (dst' : Bytes) × (readi devsw sb file (λ _. 0) 1 5 disk
      ≡ ok (read_count 3 1 5, (dst', (file, disk))))
    × ReadFrom devsw sb file disk (λ _. 0) 1 (read_count 3 1 5) dst'
readi_lem_example =
    readi_lem devsw sb file disk (λ _. 0) 1 5 (λ z. omega arith) (omega arith)
      (one_block-IsWhole 2 3 6 (omega arith) (λ z. omega arith)) (omega arith) (omega arith)

-- A transaction of one operation, with nothing logged so far.
abbrev transaction : Tx
transaction = (
  record { start = 2; size = 31; outstanding = 1; committing = false; n = 0; block = λ _. 0 },
  record { cache = λ _ _. 0; disk = λ _ _. 0; dirty = λ _. false; budget = 0 },
)

transaction-Room : (k : ℕ) → k ≤ 30 → Room k transaction
transaction-Room k le = record {
  entries = omega arith;
  blocks = omega arith;
  sized = omega arith;
  trans = omega arith;
  counted = omega arith;
}

abbrev full_log : Tx
full_log = (record (transaction.0) { n = 30 }, transaction.1)

writei_logged_lem_example :
    LoggedWrite sb file disk
      (λ _. 120)
      2
      600
      5
      (writei_logged devsw sb file (λ _. 120) 2 600 disk transaction)
writei_logged_lem_example =
    writei_logged_lem devsw sb file disk (λ _. 120) 2 600 5 transaction file-IsFile
      (λ z. omega arith) (omega arith) users (λ j. omega arith) (omega arith) (omega arith)
      (transaction-Room 18 (omega arith))

-- The same write in a transaction with a full log.
writei_too_big :
    writei_logged devsw sb file (λ _. 120) 2 600 disk full_log ≡ panic "too big a transaction"
unfolding writei_logged bmap_logged log_write
writei_too_big = refl

itrunc_lem_example :
    (ip' : Inode) × (d' : Disk) × (itrunc sb file disk ≡ ok (ip', d'))
    × Truncated sb file disk ip' d'
itrunc_lem_example = itrunc_lem sb file disk file-IsFile users

ilock-iupdate_example :
    (ip' : Inode) × (ilock sb
        (iupdate sb file disk)
        (record file { locked = false; valid = false; size = 0 })
      ≡ ok ip')
    × (ip'.locked ≡ true)
    × (ip'.valid ≡ true)
    × SameInode file ip'
ilock-iupdate_example =
    ilock-iupdate sb disk file (record file { locked = false; valid = false; size = 0 })
      (
        omega arith,
        omega arith,
        omega arith,
        omega arith,
        omega arith,
        omega arith,
        λ i l. ground arith,
      )
      (λ z. omega arith) refl refl refl refl

-- One inode is in use and one entry is free.
abbrev ips : List Inode
ips = file ∷ record dir { ref = 0 } ∷ []

ips-IsUnique : IsUnique ips
ips-IsUnique = λ i j a b g h ra rb ed ei. unique i j a b g h ra rb
  where
    unique :
        (i j : ℕ) (a b : Inode)
        → get_elem? ips i ≡ some a
        → get_elem? ips j ≡ some b
        → referenced a ≡ true
        → referenced b ≡ true
        → i ≡ j
    unique zero zero a b g h ra rb = refl
    unique (suc zero) j a b g h ra rb = absurd (ground (arith, ap (λ x. x.ref) (some_inj.0 g)))
    unique (suc (suc i)) j a b g h ra rb = cc
    unique zero (suc zero) a b g h ra rb = absurd (ground (arith, ap (λ x. x.ref) (some_inj.0 h)))
    unique zero (suc (suc j)) a b g h ra rb = cc

iget_lem_example : Got 1 9 ips (iget 1 9 ips)
iget_lem_example = iget_lem 1 9 ips ips-IsUnique

dirlookup_lem_example :
    (r : Option (ℕ × ℕ)) × (dirlookup_inode devsw sb (put 97 (λ _. 0)) dir disk
      ≡ ok (r, (dir, disk)))
    × Found devsw sb (put 97 (λ _. 0)) dir disk refl (omega arith) dir-IsWhole refl r
dirlookup_lem_example =
    dirlookup_lem devsw sb (put 97 (λ _. 0)) dir disk refl (omega arith) dir-IsWhole refl

-- "/a"
abbrev path : Bytes
path = put 47 (put 97 (λ _. 0))

path-IsString : IsString path 2
path-IsString = (refl, λ k lt z. at k lt z)
  where
    at : (k : ℕ) → k < 2 → path k ≢ 0
    at zero lt z = omega arith
    at (suc zero) lt z = omega arith
    at (suc (suc k)) lt z = omega arith

skipelem_lem_example : Skipelem path 2 0 (λ _. 0) (skipelem 3 path 0 (λ _. 0))
skipelem_lem_example = skipelem_lem path 2 3 0 (λ _. 0) path-IsString (omega arith) (omega arith)

-- A user who is not the owner of the directory, and a mode without MODE_XOTH.
abbrev stranger : Bytes
stranger = put 115 (λ _. 0)

abbrev shut_dir : Inode
shut_dir = record dir { mode = 8 }

-- The stranger passes although nobody but the owner may.
stranger_passes : may_search stranger shut_dir ≡ true
unfolding may_search strncmp bit
stranger_passes = refl

ialloc_loop_lem_example : Ialloc sb disk 2 1 15 (ialloc_loop sb 2 15 1 disk)
ialloc_loop_lem_example = ialloc_loop_lem sb disk 2 (omega arith) 15 1

-- The file, not locked and without links.
abbrev unlinked : Inode
unlinked = record file { locked = false; nlink = 0 }

unlinked-IsFile : IsFile sb unlinked disk
unfolding slot
unlinked-IsFile = record {
  disk = file-IsFile.disk;
  small = file-IsFile.small;
  boot = file-IsFile.boot;
  home = file-IsFile.home;
  owned = file-IsFile.owned;
  apart = file-IsFile.apart;
}

iput_inode_lem_example :
    (ip' : Inode) × (d' : Disk) × (iput_inode sb unlinked disk ≡ ok (ip', d'))
    × Put sb unlinked disk ip' d'
iput_inode_lem_example =
    iput_inode_lem sb unlinked disk refl (omega arith) (omega arith) unlinked-IsFile users

-- "b" is not in the directory.
absent : (l : ℕ) → 16 * l < 32 → ¬ Named (put 98 (λ _. 0)) dir disk l
unfolding disk cell slot
absent zero lt (nz, a) = ground (arith, a 0 (omega arith) (λ j l. absurd (omega arith)))
absent (suc zero) lt (nz, a) = ground (arith, a 0 (omega arith) (λ j l. absurd (omega arith)))
absent (suc (suc l)) lt h = omega arith

dir-IsFile : IsFile sb dir disk
dir-IsFile = one_block-IsFile 1 32 7 (omega arith) (omega arith) used-dir

letter_b : (j : ℕ) → put 98 (λ _. 0) j < 256
letter_b zero = omega arith
letter_b (suc j) = omega arith

write_entry_logged_lem_example :
    LoggedLink devsw sb
      (put 98 (λ _. 0))
      3
      dir
      disk
      5
      (write_entry_logged devsw sb (put 98 (λ _. 0)) 3 dir disk transaction)
write_entry_logged_lem_example =
    write_entry_logged_lem devsw sb (put 98 (λ _. 0)) 3 dir disk 5 transaction refl (omega arith)
      dir-IsWhole refl (omega arith) (omega arith) absent dir-IsFile users letter_b
      (transaction-Room 18 (omega arith))
