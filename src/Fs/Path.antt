-- ===== src/Fs/Path.antt =====
-- Path names (xv6-public/fs.c): skipelem, namex, namei and nameiparent. A path is the bytes of a
-- NUL-terminated string and a place in it; `fuel` bounds the rounds of each loop, and the length of the
-- string and one are enough. `id` and `cwd` are those of `myproc()`.
pub mod Elements
pub mod Permission
use ele.Base.{
  ℕ, zero, suc, ◌+◌, ◌-◌, Bool, true, false, ◌&&◌, ◌||◌, not, Option, none, some, List, ◌==◌, leb,
  if◌then◌else◌, set, get_elem?, update, Result, ok, panic, ◌>>=◌,
}
use ele.Str.{Bytes}
use ele.Users.{same, root}
use ele.Fs.{Superblock, Disk}
use ele.Fs.Bits.{bit}
use ele.Fs.Words.{put_bytes}
use ele.Fs.Inode.{Inode, t_dir, t_dev, ilock, iunlock}
use ele.Fs.Content.{Driver}
use ele.Fs.Icache.{iget, idup, iput, iunlockput}
use ele.Fs.Dir.{dirsiz, dirlookup}

-- `*path == '/'`
abbrev pub is_slash : ℕ → Bool
is_slash c = c == 47

-- `*path != '/' && *path != 0`
abbrev pub in_element : ℕ → Bool
in_element c = not (c == 47) && not (c == 0)

-- `while(test(*path)) path++;`
unfoldable pub skip : (ℕ → Bool) → ℕ → Bytes → ℕ → ℕ
skip test zero path i = i
skip test (suc fuel) path i =
    let rest = skip test fuel path (i + 1) in if test (path i) then rest else i

-- The bytes of an element, copied to `name`.
unfoldable pub copy_name : Bytes → ℕ → ℕ → Bytes → Bytes
copy_name path s len name =
    if leb dirsiz len
    then put_bytes 0 dirsiz (λ j. path (s + j)) name
    else update (put_bytes 0 len (λ j. path (s + j)) name) len 0

unfoldable pub skipelem : ℕ → Bytes → ℕ → Bytes → Option (ℕ × Bytes)
unfolding skip copy_name
skipelem fuel path i name =
    let s = skip is_slash fuel path i in
    let e = skip in_element fuel path s in
    if path s == 0 then none else some (skip is_slash fuel path e, copy_name path s (e - s) name)

-- The test of the permission to search a directory. The last `!` is that of `(!ip->mode & MODE_XOTH)`.
unfoldable pub may_search : Bytes → Inode → Bool
may_search id ip =
    if same id root || same id ip.user
    then bit ip.mode 3
    else not (bit (if ip.mode == 0 then 1 else 0) 0)

-- What a step of the loop of `namex` comes to: it returns an inode or 0, or goes on.
pub data WalkStep : Type 0 where
  stop : Option ℕ → WalkStep
  descend : ℕ → WalkStep

module _ (devsw : ℕ → Driver) (sb : Superblock) where
  -- `iunlockput(ip); return 0;`
  abbrev pub give_up : ℕ → List Inode → Disk → Result (WalkStep × (List Inode × Disk))
  give_up i ips d = iunlockput sb i ips d >>= λ out. ok (stop none, out)

  -- The body of the loop after `ilock`, for the inode `ip` at index `i`; `last` is `*path == '\0'`.
  unfoldable pub search :
      Bytes → Bool → Bytes → ℕ → Inode → List Inode → Disk → Result (WalkStep × (List Inode × Disk))
  unfolding may_search
  search id parent_wanted name i ip ips d =
      if not (ip.type_ == t_dev) && not (may_search id ip)
      then give_up i ips d
      else if not (ip.type_ == t_dir)
      then give_up i ips d
      else if parent_wanted
      then (iunlock ip >>= λ ip'. ok (stop (some i), (set ips i ip', d)))
      else (dirlookup devsw sb i name ips d >>= λ (found, (ips', d')). elim found [
        | none ↦ give_up i ips' d'
        | some (j, off) ↦ iunlockput sb i ips' d' >>= λ out. ok (descend j, out)
      ])

  -- The loop of `namex` from place `p` of the path: the inode or 0, the name, the cache and the disk.
  unfoldable pub namex_loop :
      ℕ
      → Bytes
      → Bytes
      → Bool
      → ℕ
      → Bytes
      → ℕ
      → List Inode
      → Disk
      → Result (Option ℕ × (Bytes × (List Inode × Disk)))
  unfolding search
  namex_loop zero id path nameiparent p name i ips d = panic "out of fuel"
  namex_loop (suc fuel) id path nameiparent p name i ips d =
      elim (skipelem (suc fuel) path p name) [
        | none ↦
            if nameiparent
            then (iput sb i ips d >>= λ out. ok (none, (name, out)))
            else ok (some i, (name, (ips, d)))
        | some (p', name') ↦ elim (get_elem? ips i) [
          | none ↦ panic "page fault"
          | some ip ↦ ilock sb d ip >>= λ ip'.
              search id (nameiparent && (path p' == 0)) name' i ip' (set ips i ip') d
              >>= λ (step, (ips', d')). elim step [
                | stop r ↦ ok (r, (name', (ips', d')))
                | descend j ↦ namex_loop fuel id path nameiparent p' name' j ips' d'
              ]
        ]
      ]

  -- `iget(ROOTDEV, ROOTINO)` or `idup(myproc()->cwd)`
  unfoldable pub namex :
      ℕ
      → Bytes
      → ℕ
      → Bytes
      → Bool
      → Bytes
      → List Inode
      → Disk
      → Result (Option ℕ × (Bytes × (List Inode × Disk)))
  unfolding namex_loop
  namex fuel id cwd path nameiparent name ips d =
      (if is_slash (path 0) then iget 1 1 ips else idup cwd ips) >>= λ (ips', i).
      namex_loop fuel id path nameiparent 0 name i ips' d

  -- `namei`, with the name dropped.
  unfoldable pub namei :
      ℕ → Bytes → ℕ → Bytes → List Inode → Disk → Result (Option ℕ × (List Inode × Disk))
  unfolding namex
  namei fuel id cwd path ips d =
      namex fuel id cwd path false (λ _. 0) ips d >>= λ (r, (name, out)). ok (r, out)

  unfoldable pub nameiparent :
      ℕ
      → Bytes
      → ℕ
      → Bytes
      → Bytes
      → List Inode
      → Disk
      → Result (Option ℕ × (Bytes × (List Inode × Disk)))
  unfolding namex
  nameiparent fuel id cwd path name ips d = namex fuel id cwd path true name ips d
