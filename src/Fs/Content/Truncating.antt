-- ===== src/Fs/Content/Truncating.antt =====
-- All of itrunc (xv6-public/fs.c).
use mathlib.Core.Path.{subst}
use ele.Base.{
  ℕ, ◌<◌, ◌≡◌, ◌≢◌, refl, ◌∙◌, sym, ap, inl, inr, true, false, arith, ◌==◌, ltb, Bool-cases, ok,
}
use ele.Fs.{Superblock, Disk, bblock}
use ele.Fs.Blocks.Search.{used}
use ele.Fs.Inode.{Inode, iblock, iupdate}
use ele.Fs.Content.{itrunc}
use ele.Fs.Content.Slots.{slots, slot, IsFile, IsHome}
use ele.Fs.Content.Updating.{iupdate-Kept}
use ele.Fs.Content.Freeing.{
  Freed, none-Freed, same-Freed, direct_done, Cleared, itrunc_direct-Freed,
}
use ele.Fs.Content.Emptying.{AllCleared, AllFreed, itrunc_indirect-AllFreed}

module _ (sb : Superblock) (ip : Inode) (d : Disk) (file : IsFile sb ip d) where
  module _ (cur : Inode) (d2 : Disk) (cleared : AllCleared ip cur)
      (freed : AllFreed sb ip d file d2) where
    slot-cleared : (k : ℕ) → slot cur d2 k ≡ 0
    unfolding slot
    slot-cleared k = elim (Bool-cases (ltb k 8)) [
      | inl low ↦ rw (low) (cleared.0 k (ground arith))
      | inr high ↦
          let g : (cur.addrs 7 == 0) ≡ true = ground (arith, cleared.0 7 (omega arith)) in
          rw (high, g) refl
    ]

    same_inum : cur.inum ≡ ip.inum
    same_inum = ap (λ x. x.inum) (cleared.1)

    empty-IsHome : IsHome sb cur.inum d2
    empty-IsHome =
        let (lt, u, rows) = file.home in
        let h : used sb d2 (iblock sb ip.inum) ≡ true =
          freed.rest_used (iblock sb ip.inum) lt (λ k lk nz. (file.owned k lk nz).not_home) ∙ u in
        subst (λ n. IsHome sb n d2) (sym same_inum) (lt, h, rows)

    empty-IsFile : IsFile sb cur d2
    empty-IsFile = record {
      disk = freed.disk;
      small = file.small;
      boot = (file.boot.0, freed.rest_used 0 file.boot.0 (λ k lt nz. nz) ∙ file.boot.1);
      home = empty-IsHome;
      owned = λ k lt nz. absurd (nz (slot-cleared k));
      apart = λ k l lk ll nz e. absurd (nz (slot-cleared k));
    }

-- The file of `ip` has been emptied.
pub record Truncated (sb : Superblock) (ip : Inode) (d : Disk) (ip' : Inode) (d' : Disk)
    : Type 0 where
  pub file : IsFile sb ip' d'
  pub size : ip'.size ≡ 0
  pub empty : (k : ℕ) → slot ip' d' k ≡ 0
  pub released : (k : ℕ) → k < slots → slot ip d k ≢ 0 → used sb d' (slot ip d k) ≡ false
  pub rest :
      (b : ℕ)
      → b < sb.size
      → ((k : ℕ) → k < slots → slot ip d k ≢ 0 → slot ip d k ≢ b)
      → used sb d' b ≡ used sb d b
  pub fields : ip' ≡ record ip { addrs = ip'.addrs; size = 0 }
  pub kept :
      (b : ℕ) → ((e : ℕ) → e < sb.size → bblock sb e ≢ b) → b ≢ iblock sb ip.inum → d' b ≡ d b

pub used-same :
    (sb : Superblock) (d d' : Disk) (b : ℕ)
    → d' (bblock sb b) ≡ d (bblock sb b)
    → used sb d' b ≡ used sb d b
unfolding used
used-same sb d d' b e = rw (e) refl

stored-Truncated :
    (sb : Superblock) (ip : Inode) (d : Disk) (file : IsFile sb ip d) (cur : Inode) (d2 : Disk)
    → ((j : ℕ) → ip.user j < 256)
    → AllCleared ip cur
    → Freed sb ip d file (λ _. true) d2
    → Truncated sb ip d (record cur { size = 0 }) (iupdate sb (record cur { size = 0 }) d2)
stored-Truncated sb ip d file cur d2 users cleared freed =
    let at_home = ap (iblock sb) (same_inum sb ip d file cur d2 cleared freed) in
    let bytes : (j : ℕ) → cur.user j < 256 =
      λ j. subst (λ u. u j < 256) (sym (ap (λ x. x.user) (cleared.1))) (users j) in
    let h = iupdate-Kept sb cur d2 0 (empty-IsFile sb ip d file cur d2 cleared freed) bytes in
    let rows : (b : ℕ) → b < sb.size → bblock sb b ≢ iblock sb cur.inum =
      λ b lt. subst (λ x. bblock sb b ≢ x) (sym at_home) (let (l, u, r) = file.home in r b lt) in
    let uses : (b : ℕ)
        → b < sb.size
        → used sb (iupdate sb (record cur { size = 0 }) d2) b ≡ used sb d2 b =
      λ b lt.
        used-same sb d2 (iupdate sb (record cur { size = 0 }) d2) b
          (h.others (bblock sb b) (rows b lt)) in
    record {
      file = h.file;
      size = refl;
      empty = λ k. h.slot_kept k ∙ slot-cleared sb ip d file cur d2 cleared freed k;
      released =
          λ k lt nz. uses (slot ip d k) ((file.owned k lt nz).inside) ∙ freed.slot_used k lt nz;
      rest = λ b lt out. uses b lt ∙ freed.rest_used b lt out;
      fields = ap {A = Inode} {B = Inode} (λ x. record x { size = 0 }) (cleared.1);
      kept = λ b no_row ne. h.others b (λ e. ne (e ∙ at_home)) ∙ freed.kept b no_row;
    }

-- `itrunc` of an inode whose blocks are in order never panics: no block is freed twice. Afterwards each block
-- that the file had, the indirect one included, is free, no other block's use has changed, the inode's
-- addresses and its size are 0 and its other fields are as before, its (empty) file is in order, and no
-- block has changed but the bitmap and the block of the stored inode.
pub itrunc_lem :
    (sb : Superblock) (ip : Inode) (d : Disk)
    → IsFile sb ip d
    → ((j : ℕ) → ip.user j < 256)
    → (ip' : Inode) × (d' : Disk) × (itrunc sb ip d ≡ ok (ip', d')) × Truncated sb ip d ip' d'
unfolding itrunc
itrunc_lem sb ip d file users =
    let start : Cleared sb ip d file 0 ip = (λ k lt. absurd (omega arith), λ k le. refl, refl) in
    let (cur, d1, e1, c1, f1) = itrunc_direct-Freed sb ip d file 7 0 ip d refl start (
      same-Freed sb ip d file (λ _. false) (direct_done sb ip d file 0) d (λ k lt nz. ground arith)
        (none-Freed sb ip d file)) in
    let (cur', d2, e2, c2, f2) = itrunc_indirect-AllFreed sb ip d file cur d1 c1 f1 in
    (
      record cur' { size = 0 },
      iupdate sb (record cur' { size = 0 }) d2,
      rw (e1, e2) refl,
      stored-Truncated sb ip d file cur' d2 users c2 f2,
    )
