-- ===== src/Fs/Content/Updating.antt =====
-- iupdate (xv6-public/fs.c) leaves the content of its file alone.
use ele.Base.{
  ℕ, ◌+◌, ◌-◌, ◌*◌, ◌/◌, ◌%◌, ◌<◌, ◌≡◌, ◌≢◌, refl, ◌∙◌, sym, ap, inl, inr, false, arith, ◌==◌, ltb,
  Bool-cases, update,
}
use ele.Args.{word_at}
use ele.Str.{strncpy}
use ele.Str.Copy.{strncpy_lem}
use ele.Fs.{Superblock, Disk}
use ele.Fs.Words.{put_bytes, put_bytes-byte, word_byte, word_byte-byte}
use ele.Fs.Blocks.Search.{used}
use ele.Fs.Blocks.Laws.{IsDisk, used-write, write-IsDisk}
use ele.Fs.Inode.{Inode, iblock, dinode_at, store_dinode, iupdate}
use ele.Fs.Content.Slots.{slots, slot, Owned-kept, IsHome-kept, IsFile}
use ele.Fs.Content.Mapping.{cell}

pub strncpy-byte :
    (s t : ℕ → ℕ) (n i : ℕ) → ((j : ℕ) → s j < 256) → ((j : ℕ) → t j < 256) → strncpy s t n i < 256
strncpy-byte s t n i hs ht = ground (arith, strncpy_lem s t n i, hs i, ht i)

store_dinode-byte :
    (at : ℕ) (ip : Inode) (row : ℕ → ℕ)
    → ((j : ℕ) → ip.user j < 256)
    → ((j : ℕ) → row j < 256)
    → (i : ℕ) → store_dinode at ip row i < 256
unfolding store_dinode
store_dinode-byte at ip row hu hr =
    put_bytes-byte _ _ _ _ (λ j. word_byte-byte (ip.addrs (j / 4)) (j % 4))
      (put_bytes-byte _ _ _ _ (word_byte-byte ip.mode)
        (put_bytes-byte _ _ _ _ (λ j. strncpy-byte _ ip.user 16 j (λ k. r5 (at + 44 + k)) hu) r5))
  where
    r5 :
        (i : ℕ)
        → put_bytes
            (at + 8)
            4
            (word_byte ip.size)
            (put_bytes (at + 6) 2 (word_byte ip.nlink) (
              put_bytes (at + 4) 2 (word_byte ip.minor) (
                put_bytes
                  (at + 2)
                  2
                  (word_byte ip.major)
                  (put_bytes at 2 (word_byte ip.type_) row))))
            i
          < 256
    r5 = put_bytes-byte _ _ _ _ (word_byte-byte ip.size) (
        put_bytes-byte _ _ _ _ (word_byte-byte ip.nlink) (
          put_bytes-byte _ _ _ _ (word_byte-byte ip.minor) (
            put_bytes-byte _ _ _ _ (word_byte-byte ip.major)
              (put_bytes-byte _ _ _ _ (word_byte-byte ip.type_) hr))))

-- The disk `d` with another row in the block of the stored inode.
module _ (sb : Superblock) (ip : Inode) (d : Disk) (file : IsFile sb ip d) (row : ℕ → ℕ)
    (bytes : (i : ℕ) → row i < 256) where
  restored : Disk
  restored = update d (iblock sb ip.inum) row

  restored-other : (b : ℕ) → b ≢ iblock sb ip.inum → restored b ≡ d b
  unfolding restored
  restored-other b ne = let f : (iblock sb ip.inum == b) ≡ false = ground arith in rw (f) refl

  restored-slot : (k : ℕ) → k < slots → slot ip d k ≢ 0 → restored (slot ip d k) ≡ d (slot ip d k)
  restored-slot k lt nz = restored-other (slot ip d k) ((file.owned k lt nz).not_home)

  slot-restored : (k : ℕ) → slot ip restored k ≡ slot ip d k
  unfolding slot
  slot-restored k = elim (Bool-cases (ltb k 8)) [
    | inl low ↦ rw (low) refl
    | inr high ↦ elim (Bool-cases (ip.addrs 7 == 0)) [
      | inl z ↦ rw (high, z) refl
      | inr nz ↦
          rw (high, nz)
            (ap (λ r. word_at r (4 * (k - 8))) (restored-slot 7 (omega arith) (ground (arith, nz))))
    ]
  ]

  used-restored : (b : ℕ) → b < sb.size → used sb restored b ≡ used sb d b
  unfolding restored
  used-restored = let (lt, u, rows) = file.home in used-write sb d (iblock sb ip.inum) row rows

  restored-IsDisk : IsDisk sb restored
  unfolding restored
  restored-IsDisk =
      let (lt, u, rows) = file.home in
      write-IsDisk sb d (iblock sb ip.inum) row rows bytes file.disk

  restored-IsFile : IsFile sb ip restored
  restored-IsFile = record {
    disk = restored-IsDisk;
    small = file.small;
    boot = (file.boot.0, used-restored 0 file.boot.0 ∙ file.boot.1);
    home = IsHome-kept sb d restored (λ b lb u. used-restored b lb ∙ u) refl file.home;
    owned = λ l lt h.
        Owned-kept sb d restored (λ b lb u. used-restored b lb ∙ u) (slot-restored l) refl
          (file.owned l lt (λ z. h (slot-restored l ∙ z)));
    apart = λ l m ll lm h e.
        file.apart l m ll lm (λ z. h (slot-restored l ∙ z))
          (sym (slot-restored l) ∙ (e ∙ slot-restored m));
  }

  cell-restored : (k i : ℕ) → k < slots → cell ip restored k i ≡ cell ip d k i
  unfolding cell
  cell-restored k i lt = elim (Bool-cases (slot ip d k == 0)) [
    | inl z ↦ rw (slot-restored k, z) refl
    | inr nz ↦ rw (slot-restored k, nz) (ap (λ r. r i) (restored-slot k lt (ground (arith, nz))))
  ]

-- `ip` and `d` hold the file of `ip0` and `d0`; only the block of the stored inode may differ.
pub record Kept (sb : Superblock) (ip0 : Inode) (d0 : Disk) (ip : Inode) (d : Disk) : Type 0 where
  pub file : IsFile sb ip d
  pub slot_kept : (k : ℕ) → slot ip d k ≡ slot ip0 d0 k
  pub cell_kept : (k i : ℕ) → k < slots → cell ip d k i ≡ cell ip0 d0 k i
  pub others : (b : ℕ) → b ≢ iblock sb ip0.inum → d b ≡ d0 b

module _ (sb : Superblock) (ip : Inode) (d : Disk) (size : ℕ) (file : IsFile sb ip d)
    (users : (j : ℕ) → ip.user j < 256) where
  abbrev sized : Inode
  sized = record ip { size = size }

  abbrev stored : ℕ → ℕ
  stored = store_dinode (dinode_at ip.inum) sized (d (iblock sb ip.inum))

  stored-byte : (i : ℕ) → stored i < 256
  stored-byte =
      store_dinode-byte (dinode_at ip.inum) sized (d (iblock sb ip.inum)) users
        (λ j. file.disk.0 (iblock sb ip.inum) j)

  sized-IsFile : IsFile sb sized d
  unfolding slot
  sized-IsFile = record {
    disk = file.disk;
    small = file.small;
    boot = file.boot;
    home = file.home;
    owned = file.owned;
    apart = file.apart;
  }

  -- An inode whose size alone is changed is stored.
  pub iupdate-Kept : Kept sb ip d sized (iupdate sb sized d)
  unfolding iupdate restored slot cell
  iupdate-Kept = record {
    file = restored-IsFile sb sized d sized-IsFile stored stored-byte;
    slot_kept = slot-restored sb sized d sized-IsFile stored stored-byte;
    cell_kept = cell-restored sb sized d sized-IsFile stored stored-byte;
    others = restored-other sb sized d sized-IsFile stored stored-byte;
  }
