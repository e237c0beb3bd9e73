-- ===== src/Fs/Icache/Dropping.antt =====
-- The last reference to an inode without links is dropped (iput of xv6-public/fs.c).
use mathlib.Core.Path.{subst}
use ele.Base.{
  ℕ, ◌+◌, ◌-◌, ◌%◌, ◌^◌, ◌<◌, ◌≡◌, ◌≢◌, refl, ◌∙◌, sym, ap, ◌⊎◌, inl, inr, Bool, true, false, ◌&&◌,
  arith, ◌==◌, Bool-cases, Result, ok,
}
use ele.Fs.{Superblock, Disk, bblock}
use ele.Fs.Words.{half_at}
use ele.Fs.Blocks.Search.{used}
use ele.Fs.Inode.{Inode, iblock, dinode_at, iupdate, releasesleep}
use ele.Fs.Inode.Fields.{type-stored}
use ele.Fs.Inode.Stored.{row-iupdate, iupdate_lem}
use ele.Fs.Inode.Fresh.{stored_type}
use ele.Fs.Content.{itrunc}
use ele.Fs.Content.Slots.{slots, slot, IsFile}
use ele.Fs.Content.Truncating.{Truncated, itrunc_lem, used-same}
use ele.Fs.Icache.{set_ref, drop_inode, iput_inode}

-- Whether `iput` frees the inode.
abbrev pub is_last : Inode → Bool
is_last ip = ip.valid && (ip.nlink == 0 && ip.ref == 1)

-- The inode is free on the disk, and so are its blocks.
pub record Gone (sb : Superblock) (ip : Inode) (d : Disk) (ip' : Inode) (d' : Disk) : Type 0 where
  pub no_refs : ip'.ref ≡ 0
  pub unlocked : ip'.locked ≡ false
  pub stale : ip'.valid ≡ false
  pub free_inode : stored_type sb d' ip.inum ≡ 0
  pub free_blocks : (k : ℕ) → k < slots → slot ip d k ≢ 0 → used sb d' (slot ip d k) ≡ false
  pub rest :
      (b : ℕ)
      → b < sb.size
      → ((k : ℕ) → k < slots → slot ip d k ≢ 0 → slot ip d k ≢ b)
      → used sb d' b ≡ used sb d b
  pub kept :
      (b : ℕ) → ((e : ℕ) → e < sb.size → bblock sb e ≢ b) → b ≢ iblock sb ip.inum → d' b ≡ d b

-- The inode with its lock taken.
abbrev held : Inode → Inode
held ip = record ip { locked = true }

module _ (sb : Superblock) (ip : Inode) (d : Disk) (file : IsFile sb ip d)
    (users : (j : ℕ) → ip.user j < 256) where
  held-IsFile : IsFile sb (held ip) d
  unfolding slot
  held-IsFile = record {
    disk = file.disk;
    small = file.small;
    boot = file.boot;
    home = file.home;
    owned = file.owned;
    apart = file.apart;
  }

  module _ (cut : Inode) (d1 : Disk) (h : Truncated sb (held ip) d cut d1) where
    abbrev typeless : Inode
    typeless = record cut { type_ = 0 }

    abbrev d2 : Disk
    d2 = iupdate sb typeless d1

    same_inum : cut.inum ≡ ip.inum
    same_inum = ap (λ x. x.inum) h.fields

    others-typeless : (b : ℕ) → b ≢ iblock sb ip.inum → d2 b ≡ d1 b
    others-typeless b ne = (iupdate_lem sb d1 typeless).0 b (λ e. ne (e ∙ ap (iblock sb) same_inum))

    used-typeless : (b : ℕ) → b < sb.size → used sb d2 b ≡ used sb d1 b
    used-typeless b lt =
        let (l, u, rows) = file.home in
        used-same sb d1 d2 b (others-typeless (bblock sb b) (rows b lt))

    free-typeless : stored_type sb d2 ip.inum ≡ 0
    free-typeless =
        subst (λ n. stored_type sb d2 n ≡ 0) same_inum
          (ap (λ r. half_at r (dinode_at cut.inum)) (row-iupdate sb d1 typeless cut.inum refl)
            ∙ type-stored (dinode_at cut.inum) typeless (d1 (iblock sb cut.inum)) (omega arith))

    typeless-Gone :
        (ip' : Inode) → ip'.ref ≡ 0 → ip'.locked ≡ false → ip'.valid ≡ false → Gone sb ip d ip' d2
    unfolding slot
    typeless-Gone ip' r l v = record {
      no_refs = r;
      unlocked = l;
      stale = v;
      free_inode = free-typeless;
      free_blocks = λ k lt nz.
          used-typeless (slot (held ip) d k) ((file.owned k lt nz).inside) ∙ h.released k lt nz;
      rest = λ b lt out. used-typeless b lt ∙ h.rest b lt out;
      kept = λ b rows ne. others-typeless b ne ∙ h.kept b rows ne;
    }

-- What `iput` does to the inode `ip` of the cache.
abbrev pub Put : Superblock → Inode → Disk → Inode → Disk → Type 0
Put sb ip d ip' d' =
    ((is_last ip ≡ true) × Gone sb ip d ip' d')
    ⊎ ((is_last ip ≡ false) × (ip' ≡ record ip { ref = ip.ref - 1 }) × (d' ≡ d))

module _ (sb : Superblock) (ip : Inode) (d : Disk) (free : ip.locked ≡ false)
    (some_ref : 0 < ip.ref) (small : ip.ref < 2 ^ 32) where
  iput_step :
      (x : Inode) (y : Disk)
      → drop_inode sb (held ip) d ≡ ok (x, y)
      → iput_inode sb ip d ≡ ok (set_ref ((x.ref + 2 ^ 32 - 1) % 2 ^ 32) (releasesleep x), y)
  unfolding iput_inode
  iput_step x y e = simp (free, e)

  last_step :
      (cut : Inode) (d1 : Disk)
      → is_last ip ≡ true
      → itrunc sb (held ip) d ≡ ok (cut, d1)
      → drop_inode sb (held ip) d
        ≡ ok (record cut { type_ = 0; valid = false }, iupdate sb (record cut { type_ = 0 }) d1)
  unfolding drop_inode
  last_step cut d1 last e = simp (last, e)

  shared_step : is_last ip ≡ false → drop_inode sb (held ip) d ≡ ok (held ip, d)
  unfolding drop_inode
  shared_step more = simp (more)

  -- `iput` of an inode that nobody has locked and that has references, whose blocks are in order, never
  -- panics and never waits for itself. With the last reference to a valid inode without links it frees the inode:
  -- no reference is left, the cache entry is unlocked and no longer valid, the stored inode has type 0,
  -- so that `ialloc` may take it, each block that it had is free, no other block's use has changed, and no
  -- block has changed but the bitmap and the block of the stored inode. In every other case the inode
  -- has one reference less, and nothing else has changed.
  pub iput_inode_lem :
      IsFile sb ip d
      → ((j : ℕ) → ip.user j < 256)
      → (ip' : Inode) × (d' : Disk) × (iput_inode sb ip d ≡ ok (ip', d')) × Put sb ip d ip' d'
  iput_inode_lem file users = elim (Bool-cases (is_last ip)) [
    | inr more ↦
        let e : (ip.ref + 2 ^ 32 - 1) % 2 ^ 32 ≡ ip.ref - 1 = omega arith in
        (
          record ip { ref = ip.ref - 1 },
          d,
          iput_step (held ip) d (shared_step more)
              ∙ (ap {A = ℕ} {B = Result (Inode × Disk)}
                    (λ r. ok (record ip { ref = r; locked = false }, d)) e
                  ∙ ap {A = Bool} {B = Result (Inode × Disk)}
                      (λ l. ok (record ip { ref = ip.ref - 1; locked = l }, d)) (sym free)),
          inr (more, refl, refl),
        )
    | inl last ↦
        let (cut, d1, e, h) = itrunc_lem sb (held ip) d (held-IsFile sb ip d file users) users in
        let one : ip.ref ≡ 1 = ground (arith, last) in
        let r : cut.ref ≡ 1 = ap (λ x. x.ref) h.fields ∙ one in
        (
          _,
          _,
          iput_step _ _ (last_step cut d1 last e),
          inl (last, typeless-Gone sb ip d file users cut d1 h _ (omega (arith, r)) refl refl),
        )
  ]
