-- ===== src/Fs/Content/Rounds.antt =====
-- One round of the loop of writei (xv6-public/fs.c): bytes are written to a block of the file.
use mathlib.Core.Path.{subst}
use ele.Base.{
  ℕ, ◌-◌, ◌*◌, ◌<◌, ◌≡◌, ◌≢◌, refl, ◌∙◌, sym, ap, inl, inr, false, arith, ◌==◌, ltb, if◌then◌else◌,
  Bool-cases, ==_refl, update,
}
use ele.Args.{word_at}
use ele.Fs.{Superblock, Disk}
use ele.Fs.Blocks.Search.{used}
use ele.Fs.Blocks.Laws.{IsDisk, used-write, write-IsDisk}
use ele.Fs.Words.{put_bytes, put_bytes-byte}
use ele.Fs.Inode.{Inode}
use ele.Fs.Content.Slots.{slots, slot, Owned-kept, IsHome-kept, IsFile}
use ele.Fs.Content.Mapping.{slot-low, cell, Stranger, Mapped}

-- The disk `d` with another row in the block of slot `k`.
module _ (sb : Superblock) (ip : Inode) (d : Disk) (file : IsFile sb ip d) (k : ℕ) (lk : k < slots)
    (nz : slot ip d k ≢ 0) (ne : k ≢ 7) (row : ℕ → ℕ) (bytes : (i : ℕ) → row i < 256) where
  overwritten : Disk
  overwritten = update d (slot ip d k) row

  overwritten-other : (b : ℕ) → b ≢ slot ip d k → overwritten b ≡ d b
  unfolding overwritten
  overwritten-other b h = let f : (slot ip d k == b) ≡ false = ground arith in rw (f) refl

  overwritten_self : overwritten (slot ip d k) ≡ row
  unfolding overwritten
  overwritten_self = rw (==_refl (slot ip d k)) refl

  kept-indirect : overwritten (ip.addrs 7) ≡ d (ip.addrs 7)
  kept-indirect =
      overwritten-other (ip.addrs 7)
        (λ e. ne (file.apart k 7 lk (omega arith) nz (sym (slot-low ip d 7 (omega arith) ∙ e))))

  slot-overwritten : (l : ℕ) → slot ip overwritten l ≡ slot ip d l
  unfolding slot
  slot-overwritten l = elim (Bool-cases (ltb l 8)) [
    | inl low ↦ rw (low) refl
    | inr high ↦ elim (Bool-cases (ip.addrs 7 == 0)) [
      | inl z ↦ rw (high, z) refl
      | inr nz7 ↦ rw (high, nz7) (ap (λ r. word_at r (4 * (l - 8))) kept-indirect)
    ]
  ]

  used-overwritten : (b : ℕ) → b < sb.size → used sb overwritten b ≡ used sb d b
  unfolding overwritten
  used-overwritten = used-write sb d (slot ip d k) row ((file.owned k lk nz).no_row)

  overwritten-IsDisk : IsDisk sb overwritten
  unfolding overwritten
  overwritten-IsDisk =
      write-IsDisk sb d (slot ip d k) row ((file.owned k lk nz).no_row) bytes file.disk

  overwritten-IsFile : IsFile sb ip overwritten
  overwritten-IsFile = record {
    disk = overwritten-IsDisk;
    small = file.small;
    boot = (file.boot.0, used-overwritten 0 file.boot.0 ∙ file.boot.1);
    home = IsHome-kept sb d overwritten (λ b lb u. used-overwritten b lb ∙ u) refl file.home;
    owned = λ l lt h.
        Owned-kept sb d overwritten (λ b lb u. used-overwritten b lb ∙ u) (slot-overwritten l) refl
          (file.owned l lt (λ z. h (slot-overwritten l ∙ z)));
    apart = λ l m ll lm h e.
        file.apart l m ll lm (λ z. h (slot-overwritten l ∙ z))
          (sym (slot-overwritten l) ∙ (e ∙ slot-overwritten m));
  }

  distinct : (l : ℕ) → slot ip d l ≡ 0 → (k == l) ≡ false
  distinct l z = elim (Bool-cases (k == l)) [
    | inr e ↦ e
    | inl e ↦ let f : k ≡ l = ground (arith, e) in absurd (nz (ap (slot ip d) f ∙ z))
  ]

  cell-overwritten :
      (l i : ℕ) → l < slots → cell ip overwritten l i ≡ (if k == l then row i else cell ip d l i)
  unfolding cell
  cell-overwritten l i lt = elim (Bool-cases (slot ip d l == 0)) [
    | inl z ↦ let f = distinct l (ground (arith, z)) in rw (slot-overwritten l, z, f) refl
    | inr h ↦ elim (Bool-cases (k == l)) [
      | inl e ↦
          let f : slot ip d k ≡ slot ip d l = ap (slot ip d) (ground (arith, e)) in
          rw (slot-overwritten l, h, e) (ap (λ r. r i) (ap overwritten (sym f) ∙ overwritten_self))
      | inr e ↦
          let f : slot ip d l ≢ slot ip d k =
            λ x. ground (arith, file.apart k l lk lt nz (sym x)) in
          rw (slot-overwritten l, h, e) (ap (λ r. r i) (overwritten-other (slot ip d l) f))
    ]
  ]

  Stranger-overwritten :
      (b : ℕ) → Stranger sb ip d b → Stranger sb ip overwritten b × (overwritten b ≡ d b)
  Stranger-overwritten b s = (
    record {
      inside = s.inside;
      in_use = used-overwritten b s.inside ∙ s.in_use;
      no_row = s.no_row;
      no_slot = λ l lt e. s.no_slot l lt (sym (slot-overwritten l) ∙ e);
    },
    overwritten-other b (λ e. s.no_slot k lk (sym e)),
  )

-- `ip'` and `d'` come from `ip` and `d` by writing bytes `m` of `src` at offset `at` of slot `k`.
pub record Round (sb : Superblock) (ip : Inode) (d : Disk) (k at m : ℕ) (src : ℕ → ℕ) (ip' : Inode)
    (d' : Disk) : Type 0 where
  pub file : IsFile sb ip' d'
  pub real : slot ip' d' k ≢ 0
  pub cells :
      (l i : ℕ)
      → l < slots
      → l ≢ 7
      → cell ip' d' l i ≡ (if k == l then put_bytes at m src (cell ip d k) i else cell ip d l i)
  pub fields : ip' ≡ record ip { addrs = ip'.addrs }
  pub grows : (l : ℕ) → l < slots → slot ip d l ≢ 0 → slot ip' d' l ≢ 0
  pub strangers : (b : ℕ) → Stranger sb ip d b → Stranger sb ip' d' b × (d' b ≡ d b)

put_bytes-same :
    (at m : ℕ) (src row row' : ℕ → ℕ) (i : ℕ)
    → row i ≡ row' i
    → put_bytes at m src row i ≡ put_bytes at m src row' i
unfolding put_bytes
put_bytes-same at m src row row' i e = ground (arith, e)

cell-real : (ip : Inode) (d : Disk) (k i : ℕ) → slot ip d k ≢ 0 → cell ip d k i ≡ d (slot ip d k) i
unfolding cell
cell-real ip d k i nz = let f : (slot ip d k == 0) ≡ false = ground arith in rw (f) refl

-- The block that `bmap` returned is written.
module _ (sb : Superblock) (ip : Inode) (d : Disk) (k at m : ℕ) (src : ℕ → ℕ) (c : ℕ) (ip' : Inode)
    (d' : Disk) (lk : k < slots) (ne : k ≢ 7) (bytes : (i : ℕ) → src i < 256)
    (h : Mapped sb ip d k c ip' d') where
  slot-real : slot ip' d' k ≢ 0
  slot-real z = h.real (sym h.here ∙ z)

  new_row : ℕ → ℕ
  new_row = put_bytes at m src (d' (slot ip' d' k))

  new_row-byte : (i : ℕ) → new_row i < 256
  unfolding new_row
  new_row-byte =
      put_bytes-byte at m src (d' (slot ip' d' k)) bytes (λ j. h.file.disk.0 (slot ip' d' k) j)

  abbrev after : Disk
  after = overwritten sb ip' d' h.file k lk slot-real ne new_row new_row-byte

  cell-after :
      (l i : ℕ)
      → l < slots
      → l ≢ 7
      → cell ip' after l i ≡ (if k == l then put_bytes at m src (cell ip d k) i else cell ip d l i)
  unfolding new_row
  cell-after l i lt n7 =
      let e =
        put_bytes-same at m src (d' (slot ip' d' k)) (cell ip d k) i
          (sym (cell-real ip' d' k i slot-real) ∙ h.cells k i lk ne) in
      cell-overwritten sb ip' d' h.file k lk slot-real ne new_row new_row-byte l i lt
      ∙ rw (e, h.cells l i lt n7) refl

  pub written-Round : Round sb ip d k at m src ip' (update d' c (put_bytes at m src (d' c)))
  unfolding overwritten new_row
  written-Round =
      subst (λ x. Round sb ip d k at m src ip' (update d' x (put_bytes at m src (d' x)))) h.here
        (record {
          file = overwritten-IsFile sb ip' d' h.file k lk slot-real ne new_row new_row-byte;
          real = λ z. slot-real (
              sym (slot-overwritten sb ip' d' h.file k lk slot-real ne new_row new_row-byte k) ∙ z);
          cells = cell-after;
          fields = h.fields;
          grows = λ l lt nz z. h.grows l lt nz (
              sym (slot-overwritten sb ip' d' h.file k lk slot-real ne new_row new_row-byte l) ∙ z);
          strangers = λ b s.
              let (s1, e1) = h.strangers b s in
              let (s2, e2) =
                Stranger-overwritten sb ip' d' h.file k lk slot-real ne new_row new_row-byte b s1 in
              (s2, e2 ∙ e1);
        })
