-- ===== src/Fs/Content/Entries.antt =====
-- The entries of the indirect block (bmap of xv6-public/fs.c).
use mathlib.Core.Path.{subst}
use ele.Base.{
  ℕ, ◌+◌, ◌-◌, ◌*◌, ◌≤◌, ◌<◌, ◌≡◌, ◌≢◌, refl, ◌∙◌, ap, ◌⊎◌, inl, inr, false, arith, ◌==◌, ltb,
  if◌then◌else◌, Bool-cases, ==_refl, update, Result, ok, panic, ◌>>=◌,
}
use ele.Args.{word_at}
use ele.Fs.{Superblock, Disk}
use ele.Fs.Words.{
  put_word, put_bytes-byte, word_byte, word_byte-byte, word_at-put_word, word_at-out,
}
use ele.Fs.Inode.{Inode}
use ele.Fs.Blocks.{balloc}
use ele.Fs.Blocks.Laws.{Allocated, Balloc, balloc_lem, used-write, write-IsDisk}
use ele.Fs.Content.{nindirect, bmap_entry}
use ele.Fs.Content.Slots.{slot, IsFile, Filled, new-apart}
use ele.Fs.Content.Mapping.{
  Mapped, Bmapped, filled-Mapped, present-Mapped, kept-indirect, indirect-Owned, slot-low,
  slot-high,
}

module _ (sb : Superblock) (ip : Inode) (d : Disk) (file : IsFile sb ip d) (nz : ip.addrs 7 ≢ 0)
    (n : ℕ) (ln : n < nindirect) where
  -- The disk `d'` with `c` in entry `n` of the indirect block.
  entered : ℕ → Disk → Disk
  entered c d' = update d' (ip.addrs 7) (put_word (4 * n) c (d' (ip.addrs 7)))

  module _ (c : ℕ) (d' : Disk) (new : Allocated sb d c d') where
    row-entered : entered c d' (ip.addrs 7) ≡ put_word (4 * n) c (d (ip.addrs 7))
    unfolding entered
    row-entered =
        rw (==_refl (ip.addrs 7))
          (ap (λ r. put_word (4 * n) c r) (kept-indirect sb ip d file c d' new nz))

    word-entered :
        (m : ℕ)
        → word_at (entered c d' (ip.addrs 7)) (4 * m)
          ≡ (if n == m then c else word_at (d (ip.addrs 7)) (4 * m))
    word-entered m = ap (λ r. word_at r (4 * m)) row-entered ∙ elim (Bool-cases (n == m)) [
      | inl e ↦
          let f : n ≡ m = ground (arith, e) in
          rw (e) (
            subst (λ x. word_at (put_word (4 * n) c (d (ip.addrs 7))) (4 * x) ≡ c) f
              (word_at-put_word (4 * n) c (d (ip.addrs 7))
                (ground (arith, new.inside, file.small))))
      | inr e ↦
          rw (e)
            (word_at-out (4 * n) 4 (word_byte c) (d (ip.addrs 7)) (4 * m) (sides (ground arith)))
    ]
      where
        sides : n ≢ m → (4 * m + 4 ≤ 4 * n) ⊎ (4 * n + 4 ≤ 4 * m)
        sides ne = ground arith

    entry-Filled : Filled ip d (n + 8) c ip (entered c d')
    unfolding slot
    entry-Filled l lt = elim (Bool-cases (ltb l 8)) [
      | inl low ↦ let far : (n + 8 == l) ≡ false = ground arith in rw (low, far) refl
      | inr high ↦
          let f : (n == l - 8) ≡ (n + 8 == l) = ground arith in
          let g : (ip.addrs 7 == 0) ≡ false = ground arith in
          rw (high, g) (word-entered (l - 8) ∙ rw (f) refl)
    ]

    entry-Mapped : word_at (d (ip.addrs 7)) (4 * n) ≡ 0 → Mapped sb ip d (n + 8) c ip (entered c d')
    unfolding entered
    entry-Mapped hole =
        let own = indirect-Owned sb ip d file nz in
        let far : (ip.addrs 7 == c) ≡ false =
          ground (arith, new-apart sb ip d file c d' new (ip.addrs 7) own.in_use) in
        filled-Mapped sb ip d file c d' new (n + 8) ip (entered c d') (omega arith)
          (slot-high ip d n nz ∙ hole) refl entry-Filled
          (used-write sb d' (ip.addrs 7) _ own.no_row)
          (write-IsDisk sb d' (ip.addrs 7) _ own.no_row
            (put_bytes-byte (4 * n) 4 (word_byte c) (d' (ip.addrs 7)) (word_byte-byte c)
              (λ j. new.disk.0 (ip.addrs 7) j))
            new.disk)
          (λ i. rw (far) (new.zeros i))
          (λ b ne nr ns.
            let f : (ip.addrs 7 == b) ≡ false = ground (arith, ns, slot-low ip d 7 (omega arith)) in
            rw (f) (new.others b ne nr))

  alloc_entry-Mapped :
      word_at (d (ip.addrs 7)) (4 * n) ≡ 0
      → (r : Result (ℕ × Disk)) → Balloc sb d r
      → Bmapped sb ip d (n + 8) (
          r >>= λ (a, d').
          ok (a, (ip, update d' (ip.addrs 7) (put_word (4 * n) a (d' (ip.addrs 7))))))
  unfolding entered
  alloc_entry-Mapped hole (panic s) (e, all) = e
  alloc_entry-Mapped hole (ok (c, d')) new = entry-Mapped c d' new hole

  pub bmap_entry-Mapped : Bmapped sb ip d (n + 8) (bmap_entry sb ip (ip.addrs 7) n d)
  unfolding bmap_entry
  bmap_entry-Mapped = elim (Bool-cases (word_at (d (ip.addrs 7)) (4 * n) == 0)) [
    | inl e ↦
        rw (e, Bmapped)
          (alloc_entry-Mapped (ground arith) (balloc sb d) (balloc_lem sb d file.disk))
    | inr e ↦
        let f = slot-high ip d n nz in
        rw (e, Bmapped)
          (subst (λ c. Mapped sb ip d (n + 8) c ip d) f
            (present-Mapped sb ip d file (n + 8) (λ z. ground (arith, f, z))))
  ]
