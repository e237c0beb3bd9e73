-- ===== src/Fs/Content/Mapping.antt =====
-- What bmap (xv6-public/fs.c) does to the blocks of a file and to the disk.
use mathlib.Core.Path.{subst}
use ele.Base.{
  ℕ, ◌+◌, ◌-◌, ◌*◌, ◌<◌, ◌≡◌, ◌≢◌, refl, ◌∙◌, sym, ap, inl, inr, true, false, arith, ◌==◌, ltb,
  if◌then◌else◌, Bool-cases, ==_refl, Result, ok, panic, ◌>>=◌,
}
use ele.Args.{word_at}
use ele.Fs.{Superblock, Disk, bblock}
use ele.Fs.Inode.{Inode}
use ele.Fs.Blocks.{balloc}
use ele.Fs.Blocks.Search.{used}
use ele.Fs.Blocks.Laws.{IsDisk, Allocated, Balloc, balloc_lem}
use ele.Fs.Content.{with_addr, bmap_slot}
use ele.Fs.Content.Slots.{
  slots, slot, Owned, IsFile, Filled, new-apart, new-nonzero, old-apart, kept_used, filled-IsFile,
}

-- Byte `i` of the block in slot `k`; a hole reads as zeros.
unfoldable pub cell : Inode → Disk → ℕ → ℕ → ℕ
cell ip d k i = if slot ip d k == 0 then 0 else d (slot ip d k) i

-- A block in use outside the bitmap that is not the inode's.
pub record Stranger (sb : Superblock) (ip : Inode) (d : Disk) (b : ℕ) : Type 0 where
  pub inside : b < sb.size
  pub in_use : used sb d b ≡ true
  pub no_row : (e : ℕ) → e < sb.size → bblock sb e ≢ b
  pub no_slot : (l : ℕ) → l < slots → slot ip d l ≢ b

-- Block `c` is in slot `k` of `ip'`, which has the contents of `ip`; nothing else has changed.
pub record Mapped (sb : Superblock) (ip : Inode) (d : Disk) (k : ℕ) (c : ℕ) (ip' : Inode)
    (d' : Disk) : Type 0 where
  pub file : IsFile sb ip' d'
  pub here : slot ip' d' k ≡ c
  pub real : c ≢ 0
  pub cells : (l i : ℕ) → l < slots → l ≢ 7 → cell ip' d' l i ≡ cell ip d l i
  pub fields : ip' ≡ record ip { addrs = ip'.addrs }
  pub grows : (l : ℕ) → l < slots → slot ip d l ≢ 0 → slot ip' d' l ≢ 0
  pub strangers : (b : ℕ) → Stranger sb ip d b → Stranger sb ip' d' b × (d' b ≡ d b)

module _ (sb : Superblock) (ip : Inode) (d : Disk) (file : IsFile sb ip d) where
  pub present-Mapped : (k : ℕ) → slot ip d k ≢ 0 → Mapped sb ip d k (slot ip d k) ip d
  present-Mapped k nz = record {
    file = file;
    here = refl;
    real = nz;
    cells = λ l i lt ne. refl;
    fields = refl;
    grows = λ l lt nz'. nz';
    strangers = λ b s. (s, refl);
  }

  module _ (c : ℕ) (d' : Disk) (new : Allocated sb d c d') (k : ℕ) (ip' : Inode) (d'' : Disk)
      (lk : k < slots) (hole : slot ip d k ≡ 0) (same : ip' ≡ record ip { addrs = ip'.addrs })
      (fill : Filled ip d k c ip' d'') (uses : (b : ℕ) → b < sb.size → used sb d'' b ≡ used sb d' b)
      (bytes : IsDisk sb d'') (zeros : (i : ℕ) → d'' c i ≡ 0)
      (others : (b : ℕ) → b ≢ c → b ≢ bblock sb c → b ≢ slot ip d 7 → d'' b ≡ d b) where
    -- A block in use, other than the indirect one, keeps its bytes.
    kept : (l : ℕ) → l < slots → l ≢ 7 → slot ip d l ≢ 0 → d'' (slot ip d l) ≡ d (slot ip d l)
    kept l lt ne nz =
        others (slot ip d l) (λ e. old-apart sb ip d file c d' new l lt nz (sym e))
          (λ e. (file.owned l lt nz).no_row c new.inside (sym e))
          (λ e. ne (file.apart l 7 lt (omega arith) nz e))

    cell-filled : (l i : ℕ) → l < slots → l ≢ 7 → cell ip' d'' l i ≡ cell ip d l i
    unfolding cell
    cell-filled l i lt ne = elim (Bool-cases (k == l)) [
      | inl e ↦
          let f : slot ip' d'' l ≡ c = fill l lt ∙ rw (e) refl in
          let g : slot ip d l ≡ 0 = ap (slot ip d) (ground (arith, e)) ∙ hole in
          rw (f, g) (ground (arith, zeros i))
      | inr e ↦
          let f : slot ip' d'' l ≡ slot ip d l = fill l lt ∙ rw (e) refl in
          elim (Bool-cases (slot ip d l == 0)) [
            | inl z ↦ rw (f, z) refl
            | inr nz ↦ rw (f, nz) (ap (λ r. r i) (kept l lt ne (ground arith)))
          ]
    ]

    Stranger-filled : (b : ℕ) → Stranger sb ip d b → Stranger sb ip' d'' b × (d'' b ≡ d b)
    Stranger-filled b s = (
      record {
        inside = s.inside;
        in_use = uses b s.inside ∙ kept_used sb ip d file c d' new b s.inside s.in_use;
        no_row = s.no_row;
        no_slot = λ l lt e. elim (Bool-cases (k == l)) [
          | inl h ↦ new-apart sb ip d file c d' new b s.in_use (sym (fill l lt ∙ rw (h) refl) ∙ e)
          | inr h ↦ s.no_slot l lt (sym (fill l lt ∙ rw (h) refl) ∙ e)
        ];
      },
      others b (λ e. new-apart sb ip d file c d' new b s.in_use (sym e))
          (λ e. s.no_row c new.inside (sym e)) (λ e. s.no_slot 7 (omega arith) (sym e)),
    )

    grown : (l : ℕ) → l < slots → slot ip d l ≢ 0 → slot ip' d'' l ≢ 0
    grown l lt nz = ground (arith, fill l lt, new-nonzero sb ip d file c d' new)

    pub filled-Mapped : Mapped sb ip d k c ip' d''
    filled-Mapped = record {
      file = filled-IsFile sb ip d file c d' new k ip' d'' (ap (λ x. x.inum) same) fill uses bytes;
      here = fill k lk ∙ rw (==_refl k) refl;
      real = new-nonzero sb ip d file c d' new;
      cells = cell-filled;
      fields = same;
      grows = grown;
      strangers = Stranger-filled;
    }

-- What `bmap` and its parts may return for slot `k`.
abbrev pub Bmapped : Superblock → Inode → Disk → ℕ → Result (ℕ × (Inode × Disk)) → Type 0
Bmapped sb ip d k (panic s) = s ≡ "balloc: out of blocks"
Bmapped sb ip d k (ok (c, (ip', d'))) = Mapped sb ip d k c ip' d'

pub slot-low : (ip : Inode) (d : Disk) (k : ℕ) → k < 8 → slot ip d k ≡ ip.addrs k
unfolding slot
slot-low ip d k lt = let f : ltb k 8 ≡ true = ground arith in rw (f) refl

pub slot-high :
    (ip : Inode) (d : Disk) (n : ℕ)
    → ip.addrs 7 ≢ 0
    → slot ip d (n + 8) ≡ word_at (d (ip.addrs 7)) (4 * n)
unfolding slot
slot-high ip d n nz =
    let f : ltb (n + 8) 8 ≡ false = ground arith in
    let g : (ip.addrs 7 == 0) ≡ false = ground arith in
    let h : n + 8 - 8 ≡ n = omega arith in rw (f, g, h) refl

word_at-zeros : (row : ℕ → ℕ) (i : ℕ) → ((j : ℕ) → row j ≡ 0) → word_at row i ≡ 0
word_at-zeros row i h = rw (h i, h (i + 1), h (i + 2), h (i + 3)) refl

module _ (sb : Superblock) (ip : Inode) (d : Disk) (file : IsFile sb ip d) where
  pub indirect-Owned : ip.addrs 7 ≢ 0 → Owned sb ip.inum d (ip.addrs 7)
  indirect-Owned nz =
      let e = slot-low ip d 7 (omega arith) in
      subst (λ b. Owned sb ip.inum d b) e (file.owned 7 (omega arith) (λ z. nz (sym e ∙ z)))

  pub kept-indirect :
      (c : ℕ) (d' : Disk) → Allocated sb d c d' → ip.addrs 7 ≢ 0 → d' (ip.addrs 7) ≡ d (ip.addrs 7)
  kept-indirect c d' new nz =
      let own = indirect-Owned nz in
      new.others (ip.addrs 7) (λ e. new-apart sb ip d file c d' new (ip.addrs 7) own.in_use (sym e))
        (λ e. own.no_row c new.inside (sym e))

  slot-Filled :
      (c : ℕ) (d' : Disk)
      → Allocated sb d c d'
      → (k : ℕ) → k < 8
      → ip.addrs k ≡ 0
      → Filled ip d k c (with_addr ip k c) d'
  unfolding slot
  slot-Filled c d' new k lk hole l lt = elim (Bool-cases (ltb l 8)) [
    | inl low ↦ rw (low) refl
    | inr high ↦
        let far : (k == l) ≡ false = ground arith in
        rw (high, far)
          (elim (Bool-cases (k == 7)) [
            | inl e ↦
                let cz : (c == 0) ≡ false = ground (arith, new-nonzero sb ip d file c d' new) in
                let s : k ≡ 7 = ground (arith, e) in
                let h : (ip.addrs 7 == 0) ≡ true = ground (arith, ap ip.addrs s, hole) in
                rw (e, cz, h) (word_at-zeros (d' c) (4 * (l - 8)) new.zeros)
            | inr e ↦ elim (Bool-cases (ip.addrs 7 == 0)) [
              | inl z ↦ rw (e, z) refl
              | inr nz ↦
                  rw (e, nz)
                    (ap (λ r. word_at r (4 * (l - 8))) (kept-indirect c d' new (ground arith)))
            ]
          ])
  ]

  alloc_slot-Mapped :
      (k : ℕ)
      → k < 8
      → ip.addrs k ≡ 0
      → (r : Result (ℕ × Disk)) → Balloc sb d r
      → Bmapped sb ip d k (r >>= λ (a, d'). ok (a, (with_addr ip k a, d')))
  alloc_slot-Mapped k lk hole (panic s) (e, all) = e
  alloc_slot-Mapped k lk hole (ok (c, d')) new =
      filled-Mapped sb ip d file c d' new k (with_addr ip k c) d' (omega arith)
        (slot-low ip d k lk ∙ hole) refl (slot-Filled c d' new k lk hole) (λ b lt. refl) new.disk
        new.zeros (λ b n r s. new.others b n r)

  pub bmap_slot-Mapped : (k : ℕ) → k < 8 → Bmapped sb ip d k (bmap_slot sb ip k d)
  unfolding bmap_slot
  bmap_slot-Mapped k lk = elim (Bool-cases (ip.addrs k == 0)) [
    | inl e ↦
        rw (e, Bmapped)
          (alloc_slot-Mapped k lk (ground arith) (balloc sb d) (balloc_lem sb d file.disk))
    | inr e ↦
        let f = slot-low ip d k lk in
        rw (e, Bmapped)
          (subst (λ c. Mapped sb ip d k c ip d) f
            (present-Mapped sb ip d file k (λ z. ground (arith, f, z))))
  ]
