-- ===== src/Fs/Content/Bmap.antt =====
-- bmap (xv6-public/fs.c) finds or makes the block of a file.
use mathlib.Core.Path.{subst}
use ele.Base.{
  ℕ, ◌+◌, ◌-◌, ◌<◌, ◌≡◌, ◌∙◌, sym, ap, inl, inr, true, arith, ltb, if◌then◌else◌, Bool-cases,
  Result, ok, panic, ◌>>=◌,
}
use ele.Fs.{Superblock, Disk}
use ele.Fs.Inode.{Inode}
use ele.Fs.Content.{nindirect, bmap_slot, bmap_entry, bmap}
use ele.Fs.Content.Slots.{IsFile}
use ele.Fs.Content.Entries.{bmap_entry-Mapped}
use ele.Fs.Content.Mapping.{Mapped, Bmapped, slot-low, bmap_slot-Mapped}

-- The slot of block `bn` of a file.
abbrev pub place : ℕ → ℕ
place bn = if ltb bn 7 then bn else bn + 1

module _ (sb : Superblock) (ip : Inode) (d : Disk) (j : ℕ) (a : ℕ) (ip1 : Inode) (d1 : Disk)
    (first : Mapped sb ip d j a ip1 d1) (k : ℕ) where
  Mapped-trans :
      (c : ℕ) (ip2 : Inode) (d2 : Disk) → Mapped sb ip1 d1 k c ip2 d2 → Mapped sb ip d k c ip2 d2
  Mapped-trans c ip2 d2 next = record {
    file = next.file;
    here = next.here;
    real = next.real;
    cells = λ l i lt ne. next.cells l i lt ne ∙ first.cells l i lt ne;
    fields =
        next.fields ∙ ap {A = Inode} {B = Inode} (λ x. record x { addrs = ip2.addrs }) first.fields;
    grows = λ l lt nz. next.grows l lt (first.grows l lt nz);
    strangers = λ b s.
        let (s1, e1) = first.strangers b s in let (s2, e2) = next.strangers b s1 in (s2, e2 ∙ e1);
  }

  Bmapped-trans : (r : Result (ℕ × (Inode × Disk))) → Bmapped sb ip1 d1 k r → Bmapped sb ip d k r
  Bmapped-trans (panic s) h = h
  Bmapped-trans (ok (c, (ip2, d2))) h = Mapped-trans c ip2 d2 h

module _ (sb : Superblock) (ip : Inode) (d : Disk) where
  then_entry :
      (n : ℕ)
      → n < nindirect
      → (r : Result (ℕ × (Inode × Disk))) → Bmapped sb ip d 7 r
      → Bmapped sb ip d (n + 8) (r >>= λ (a, (ip', d')). bmap_entry sb ip' a n d')
  then_entry n ln (panic s) h = h
  then_entry n ln (ok (a, (ip1, d1))) h =
      let e : ip1.addrs 7 ≡ a = sym (slot-low ip1 d1 7 (omega arith)) ∙ h.here in
      Bmapped-trans sb ip d 7 a ip1 d1 h (n + 8) (bmap_entry sb ip1 a n d1) (
        subst (λ x. Bmapped sb ip1 d1 (n + 8) (bmap_entry sb ip1 x n d1)) e
          (bmap_entry-Mapped sb ip1 d1 h.file (λ z. h.real (sym e ∙ z)) n ln))

  -- For a block number below MAXFILE of an inode whose blocks are in order, `bmap` panics only because
  -- the disk is full. Otherwise it returns the block that now stands in the slot of that number,
  -- which is not 0: the inode's blocks are in order again, the bytes of every block of the file read as
  -- before, with zeros where there was none, no slot is emptied, no field of the inode but its addresses
  -- has changed, and neither has any block in use that is neither the inode's nor part of the bitmap.
  pub bmap_lem : (bn : ℕ) → IsFile sb ip d → bn < 135 → Bmapped sb ip d (place bn) (bmap sb ip bn d)
  unfolding bmap
  bmap_lem bn file lt = elim (Bool-cases (ltb bn 7)) [
    | inl low ↦ rw (low) (bmap_slot-Mapped sb ip d file bn (ground arith))
    | inr high ↦
        let room : ltb (bn - 7) 128 ≡ true = ground arith in
        let e : bn - 7 + 8 ≡ bn + 1 = ground arith in
        rw (high, room)
          (subst
            (λ k.
              Bmapped sb ip d k
                (bmap_slot sb ip 7 d >>= λ (a, (ip', d')). bmap_entry sb ip' a (bn - 7) d'))
            e
            (then_entry (bn - 7) (ground arith) (bmap_slot sb ip 7 d)
              (bmap_slot-Mapped sb ip d file 7 (omega arith))))
  ]
