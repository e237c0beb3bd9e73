-- ===== src/Fs/Content/Slots.antt =====
-- The block numbers that an inode holds (bmap of xv6-public/fs.c): slot k is `ip->addrs[k]` for k up
-- to NDIRECT, and from 8 on the entry k - 8 of the indirect block.
use mathlib.Core.Path.{subst}
use ele.Base.{
  ℕ, ◌-◌, ◌*◌, ◌^◌, ◌<◌, ◌≡◌, ◌≢◌, refl, ◌∙◌, sym, ap, inl, inr, true, arith, ◌==◌, ltb,
  if◌then◌else◌, Bool-cases,
}
use ele.Args.{word_at}
use ele.Fs.{Superblock, Disk, bblock}
use ele.Fs.Inode.{Inode, iblock}
use ele.Fs.Blocks.Search.{used}
use ele.Fs.Blocks.Laws.{IsDisk, Allocated}

-- The number of slots.
abbrev pub slots : ℕ
slots = 136

unfoldable pub slot : Inode → Disk → ℕ → ℕ
slot ip d k =
    if ltb k 8
    then ip.addrs k
    else if ip.addrs 7 == 0
    then 0
    else word_at (d (ip.addrs 7)) (4 * (k - 8))

-- A block of a file: a block in use, of which the bitmap and the stored inode have no part.
pub record Owned (sb : Superblock) (inum : ℕ) (d : Disk) (b : ℕ) : Type 0 where
  pub inside : b < sb.size
  pub in_use : used sb d b ≡ true
  pub no_row : (e : ℕ) → e < sb.size → bblock sb e ≢ b
  pub not_home : b ≢ iblock sb inum

-- The block of the stored inode.
abbrev pub IsHome : Superblock → ℕ → Disk → Type 0
IsHome sb inum d =
    (iblock sb inum < sb.size)
    × (used sb d (iblock sb inum) ≡ true)
    × ((e : ℕ) → e < sb.size → bblock sb e ≢ iblock sb inum)

-- The blocks of an inode are in use, are its own, and none stands in two slots.
pub record IsFile (sb : Superblock) (ip : Inode) (d : Disk) : Type 0 where
  pub disk : IsDisk sb d
  pub small : sb.size < 2 ^ 32
  pub boot : (0 < sb.size) × (used sb d 0 ≡ true)
  pub home : IsHome sb ip.inum d
  pub owned : (k : ℕ) → k < slots → slot ip d k ≢ 0 → Owned sb ip.inum d (slot ip d k)
  pub apart :
      (k l : ℕ) → k < slots → l < slots → slot ip d k ≢ 0 → slot ip d k ≡ slot ip d l → k ≡ l

module _ (sb : Superblock) (d d' : Disk)
    (keeps : (b : ℕ) → b < sb.size → used sb d b ≡ true → used sb d' b ≡ true) where
  pub Owned-kept : {n n' b b' : ℕ} → b' ≡ b → n' ≡ n → Owned sb n d b → Owned sb n' d' b'
  Owned-kept {n} {n'} {b} {b'} e f own =
      subst (λ x. Owned sb x d' b') (sym f)
        (subst (λ x. Owned sb n d' x) (sym e)
          (record {
            inside = own.inside;
            in_use = keeps b own.inside own.in_use;
            no_row = own.no_row;
            not_home = own.not_home;
          }))

  pub IsHome-kept : {n n' : ℕ} → n' ≡ n → IsHome sb n d → IsHome sb n' d'
  IsHome-kept {n} {n'} f (lt, u, rows) =
      subst (λ x. IsHome sb x d') (sym f) (lt, keeps (iblock sb n) lt u, rows)

-- Slot `k` of `ip` has become `c`.
abbrev pub Filled : Inode → Disk → ℕ → ℕ → Inode → Disk → Type 0
Filled ip d k c ip' d' = (l : ℕ) → l < slots → slot ip' d' l ≡ (if k == l then c else slot ip d l)

module _ (sb : Superblock) (ip : Inode) (d : Disk) (file : IsFile sb ip d) (c : ℕ) (d' : Disk)
    (new : Allocated sb d c d') where
  -- The new block is not one that is in use.
  pub new-apart : (b : ℕ) → used sb d b ≡ true → c ≢ b
  new-apart b u e = let f = ap (λ x. used sb d x) e in cc (f, u, new.free)

  pub new-nonzero : c ≢ 0
  new-nonzero = let (lt, u) = file.boot in new-apart 0 u

  pub new-row : (e : ℕ) → e < sb.size → bblock sb e ≢ c
  new-row e lt h = let (l, u) = file.disk.1 e lt in new-apart (bblock sb e) u (sym h)

  pub kept_used : (b : ℕ) → b < sb.size → used sb d b ≡ true → used sb d' b ≡ true
  kept_used b lt u = ground (arith, new.uses b lt)

  new-Owned : Owned sb ip.inum d' c
  new-Owned =
      let (lt, u, rest) = file.home in
      record {
        inside = new.inside;
        in_use = ground (arith, new.uses c new.inside);
        no_row = new-row;
        not_home = new-apart (iblock sb ip.inum) u;
      }

  -- A slot that was filled before is not the new block.
  pub old-apart : (k : ℕ) → k < slots → slot ip d k ≢ 0 → c ≢ slot ip d k
  old-apart k lt nz = new-apart (slot ip d k) ((file.owned k lt nz).in_use)

module _ (sb : Superblock) (ip : Inode) (d : Disk) (file : IsFile sb ip d) (c : ℕ) (d' : Disk)
    (new : Allocated sb d c d') (k : ℕ) (ip' : Inode) (d'' : Disk) (same : ip'.inum ≡ ip.inum)
    (fill : Filled ip d k c ip' d'')
    (uses : (b : ℕ) → b < sb.size → used sb d'' b ≡ used sb d' b) where
  filled-Owned : (l : ℕ) → l < slots → slot ip' d'' l ≢ 0 → Owned sb ip'.inum d'' (slot ip' d'' l)
  filled-Owned l lt nz = elim (Bool-cases (k == l)) [
    | inl e ↦
        let f : slot ip' d'' l ≡ c = fill l lt ∙ rw (e) refl in
        Owned-kept sb d' d'' (λ b lb u. uses b lb ∙ u) f same (new-Owned sb ip d file c d' new)
    | inr e ↦
        let f : slot ip' d'' l ≡ slot ip d l = fill l lt ∙ rw (e) refl in
        let own = file.owned l lt (λ z. nz (f ∙ z)) in
        Owned-kept sb d d'' (λ b lb u. uses b lb ∙ kept_used sb ip d file c d' new b lb u) f same
          own
  ]

  filled-apart :
      (l m : ℕ)
      → l < slots
      → m < slots
      → slot ip' d'' l ≢ 0
      → slot ip' d'' l ≡ slot ip' d'' m
      → l ≡ m
  filled-apart l m ll lm nz e = ground (
    arith,
    fill l ll,
    fill m lm,
    file.apart l m ll lm,
    old-apart sb ip d file c d' new l ll,
    old-apart sb ip d file c d' new m lm,
    new-nonzero sb ip d file c d' new,
  )

  pub filled-IsFile : IsDisk sb d'' → IsFile sb ip' d''
  filled-IsFile bytes = record {
    disk = bytes;
    small = file.small;
    boot = (
      file.boot.0,
      uses 0 (file.boot.0) ∙ kept_used sb ip d file c d' new 0 (file.boot.0) (file.boot.1),
    );
    home =
        IsHome-kept sb d d'' (λ b lb u. uses b lb ∙ kept_used sb ip d file c d' new b lb u) same
          (file.home);
    owned = filled-Owned;
    apart = filled-apart;
  }
