-- ===== src/Fs/Path/Permission.antt =====
-- Whom namex (xv6-public/fs.c) lets through a directory.
use ele.Base.{
  ℕ, ◌≡◌, ◌≢◌, Bool, true, false, ◌||◌, none, some, List, inl, inr, ◌⊎◌, Result, ok, ◌>>=◌, set,
}
use ele.Str.{Bytes}
use ele.Users.{same, root}
use ele.Fs.{Superblock, Disk}
use ele.Fs.Bits.{bit}
use ele.Fs.Inode.{Inode, t_dir, iunlock}
use ele.Fs.Content.{Driver}
use ele.Fs.Icache.{iunlockput}
use ele.Fs.Dir.{dirlookup}
use ele.Fs.Path.{WalkStep, stop, descend}

-- The user is root or the owner and the owner may search, or is neither and the mode is not 0.
abbrev pub Allowed : Bytes → Inode → Type 0
Allowed id ip =
    (((same id root || same id ip.user) ≡ true) × (bit ip.mode 3 ≡ true))
    ⊎ (((same id root || same id ip.user) ≡ false) × (ip.mode ≢ 0))

-- The walk does not pass: the inode is no directory, the owner's bit for execution is missing for
-- root or the owner, or the mode is 0 for another user.
abbrev pub Refused : Bytes → Inode → Type 0
Refused id ip =
    (ip.type_ ≢ t_dir)
    ⊎ (((same id root || same id ip.user) ≡ true) × (bit ip.mode 3 ≡ false))
    ⊎ (((same id root || same id ip.user) ≡ false) × (ip.mode ≡ 0))

-- What a step of the walk at the inode `ip`, index `i`, does: it lets go of the inode and fails, or
-- it unlocks the inode and returns it, or it looks the name up in the inode and goes on to what it
-- finds.
abbrev pub Searched :
    (ℕ → Driver)
    → Superblock
    → Bytes
    → Bool
    → Bytes
    → ℕ
    → Inode
    → List Inode
    → Disk
    → Result (WalkStep × (List Inode × Disk))
    → Type 0
Searched devsw sb id parent_wanted name i ip ips d r =
    (Refused id ip × (r ≡ (iunlockput sb i ips d >>= λ out. ok (stop none, out))))
    ⊎ ((ip.type_ ≡ t_dir)
        × Allowed id ip
        × (parent_wanted ≡ true)
        × (r ≡ (iunlock ip >>= λ ip'. ok (stop (some i), (set ips i ip', d)))))
    ⊎ ((ip.type_ ≡ t_dir)
        × Allowed id ip
        × (parent_wanted ≡ false)
        × (r ≡ (
            dirlookup devsw sb i name ips d >>= λ (found, (ips', d')). elim found [
              | none ↦ iunlockput sb i ips' d' >>= λ out. ok (stop none, out)
              | some (j, off) ↦ iunlockput sb i ips' d' >>= λ out. ok (descend j, out)
            ])))

-- Nobody is both let through and refused.
Allowed-Refused : (id : Bytes) (ip : Inode) → ip.type_ ≡ t_dir → Allowed id ip → Refused id ip → ⊥
Allowed-Refused id ip dir (inl (e, b)) (inl no_dir) = no_dir dir
Allowed-Refused id ip dir (inr (e, b)) (inl no_dir) = no_dir dir
Allowed-Refused id ip dir (inl (e, b)) (inr (inl (e', b'))) = cc
Allowed-Refused id ip dir (inl (e, b)) (inr (inr (e', z))) = cc
Allowed-Refused id ip dir (inr (e, nz)) (inr (inl (e', b'))) = cc
Allowed-Refused id ip dir (inr (e, nz)) (inr (inr (e', z))) = nz z
