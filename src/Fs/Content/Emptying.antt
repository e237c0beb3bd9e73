-- ===== src/Fs/Content/Emptying.antt =====
-- The indirect block is freed behind its entries (itrunc of xv6-public/fs.c).
use mathlib.Core.Path.{subst}
use ele.Base.{
  ℕ, zero, suc, ◌+◌, ◌*◌, ◌≤◌, ◌<◌, ◌≡◌, ◌≢◌, refl, ◌∙◌, sym, ap, inl, inr, true, false, arith,
  ◌==◌, ltb, Bool-cases, update, ok,
}
use ele.Args.{word_at}
use ele.Fs.{Superblock, Disk}
use ele.Fs.Blocks.{bfree}
use ele.Fs.Inode.{Inode}
use ele.Fs.Content.{with_addr, itrunc_entries, itrunc_indirect}
use ele.Fs.Content.Slots.{slot, IsFile}
use ele.Fs.Content.Mapping.{slot-low, slot-high, indirect-Owned}
use ele.Fs.Content.Freeing.{
  Freed, Joined, same-Freed, pass-Freed, free-Freed, direct_done, entries_done, Cleared,
}

-- The addresses of `cur` are all 0, and its other fields are those of `ip`.
abbrev pub AllCleared : Inode → Inode → Type 0
AllCleared ip cur = ((k : ℕ) → k < 8 → cur.addrs k ≡ 0) × (cur ≡ record ip { addrs = cur.addrs })

module _ (sb : Superblock) (ip : Inode) (d : Disk) (file : IsFile sb ip d) where
  entry_step :
      (left j : ℕ) (a : ℕ) (d' d1 : Disk)
      → (word_at (d' a) (4 * j) == 0) ≡ false
      → bfree sb (word_at (d' a) (4 * j)) d' ≡ ok d1
      → itrunc_entries sb (suc left) j a d' ≡ itrunc_entries sb left (j + 1) a d1
  unfolding itrunc_entries
  entry_step left j a d' d1 nz b = rw (nz, itrunc_entries) (rw (b) refl)

  entry_skip :
      (left j : ℕ) (a : ℕ) (d' : Disk)
      → (word_at (d' a) (4 * j) == 0) ≡ true
      → itrunc_entries sb (suc left) j a d' ≡ itrunc_entries sb left (j + 1) a d'
  unfolding itrunc_entries
  entry_skip left j a d' z = rw (z, itrunc_entries) refl

  itrunc_entries-Freed :
      ip.addrs 7 ≢ 0
      → (left j : ℕ) (d' : Disk) → j + left ≡ 128
      → Freed sb ip d file (entries_done sb ip d file j) d'
      → (d'' : Disk) × (itrunc_entries sb left j (ip.addrs 7) d' ≡ ok d'')
        × Freed sb ip d file (entries_done sb ip d file 128) d''
  unfolding itrunc_entries
  itrunc_entries-Freed nz7 zero j d' at freed =
      let e : j ≡ 128 = omega arith in
      (d', refl, subst (λ n. Freed sb ip d file (entries_done sb ip d file n) d') e freed)
  itrunc_entries-Freed nz7 (suc left) j d' at freed =
      let own = indirect-Owned sb ip d file nz7 in
      let row = freed.kept (ip.addrs 7) own.no_row in
      let same : word_at (d' (ip.addrs 7)) (4 * j) ≡ slot ip d (j + 8) =
        ap (λ r. word_at r (4 * j)) row ∙ sym (slot-high ip d j nz7) in
      let s = entries_done sb ip d file j in
      let t = entries_done sb ip d file (j + 1) in
      let join : Joined sb ip d file s (j + 8) t = λ l lt. ground arith in
      elim (Bool-cases (word_at (d' (ip.addrs 7)) (4 * j) == 0)) [
        | inl z ↦
            let (d'', e, f) =
              itrunc_entries-Freed nz7 left (j + 1) d' (omega arith)
                (pass-Freed sb ip d file s t (j + 8) d' join freed (ground (arith, z, same))) in
            (d'', entry_skip left j (ip.addrs 7) d' z ∙ e, f)
        | inr nz ↦
            let (d1, b, f1) =
              free-Freed sb ip d file s t (j + 8) d' join freed (omega arith)
                (λ z. ground (arith, nz, same, z)) (ground arith) in
            let (d'', e, f) = itrunc_entries-Freed nz7 left (j + 1) d1 (omega arith) f1 in
            (d'', entry_step left j (ip.addrs 7) d' d1 nz (ap (λ x. bfree sb x d') same ∙ b) ∙ e, f)
      ]

  -- Every slot is free.
  abbrev pub AllFreed : Disk → Type 0
  AllFreed d' = Freed sb ip d file (λ _. true) d'

  slot-none : (k : ℕ) → ip.addrs 7 ≡ 0 → 7 ≤ k → slot ip d k ≡ 0
  unfolding slot
  slot-none k z le = elim (Bool-cases (ltb k 8)) [
    | inl low ↦ rw (low) (ap ip.addrs (let f : k ≡ 7 = ground arith in f) ∙ z)
    | inr high ↦ let g : (ip.addrs 7 == 0) ≡ true = ground (arith, z) in rw (high, g) refl
  ]

  no_indirect :
      (d' : Disk)
      → ip.addrs 7 ≡ 0
      → Freed sb ip d file (direct_done sb ip d file 7) d'
      → AllFreed d'
  no_indirect d' z freed =
      same-Freed sb ip d file (direct_done sb ip d file 7) (λ _. true) d'
        (λ k lt nz. elim (Bool-cases (ltb k 7)) [
          | inl low ↦ low
          | inr high ↦ absurd (nz (slot-none k z (ground arith)))
        ])
        freed

  -- The indirect block is freed after its entries.
  with_indirect :
      (d' : Disk)
      → ip.addrs 7 ≢ 0
      → Freed sb ip d file (direct_done sb ip d file 7) d'
      → (d1 : Disk) × (d2 : Disk) × (itrunc_entries sb 128 0 (ip.addrs 7) d' ≡ ok d1)
        × (bfree sb (ip.addrs 7) d1 ≡ ok d2)
        × AllFreed d2
  with_indirect d' nz freed =
      let s = entries_done sb ip d file 128 in
      let low = slot-low ip d 7 (omega arith) in
      let (d1, e1, f1) = itrunc_entries-Freed nz 128 0 d' refl (
        same-Freed sb ip d file (direct_done sb ip d file 7) (entries_done sb ip d file 0) d'
          (λ k lt h. ground arith) freed) in
      let (d2, e2, f2) =
        free-Freed sb ip d file s (λ _. true) 7 d1 (λ l lt. ground arith) f1 (omega arith)
          (λ z. nz (sym low ∙ z)) (ground arith) in
      (d1, d2, e1, ap (λ x. bfree sb x d1) (sym low) ∙ e2, f2)

  indirect_step :
      (cur : Inode) (d' d1 d2 : Disk)
      → (cur.addrs 7 == 0) ≡ false
      → itrunc_entries sb 128 0 (cur.addrs 7) d' ≡ ok d1
      → bfree sb (cur.addrs 7) d1 ≡ ok d2
      → itrunc_indirect sb cur d' ≡ ok (with_addr cur 7 0, d2)
  unfolding itrunc_indirect
  indirect_step cur d' d1 d2 nz e b = rw (nz, itrunc_indirect) (rw (e) (rw (b) refl))

  pub itrunc_indirect-AllFreed :
      (cur : Inode) (d' : Disk)
      → Cleared sb ip d file 7 cur
      → Freed sb ip d file (direct_done sb ip d file 7) d'
      → (cur' : Inode) × (d'' : Disk) × (itrunc_indirect sb cur d' ≡ ok (cur', d''))
        × AllCleared ip cur'
        × AllFreed d''
  unfolding itrunc_indirect
  itrunc_indirect-AllFreed cur d' (low, high, fields) freed =
      let same = high 7 (omega arith) in
      elim (Bool-cases (cur.addrs 7 == 0)) [
        | inl z ↦ (
          cur,
          d',
          rw (z, itrunc_indirect) refl,
          (
            λ k lt. elim (Bool-cases (k == 7)) [
              | inl e ↦ ap cur.addrs (let f : k ≡ 7 = ground arith in f) ∙ ground (arith, z)
              | inr e ↦ low k (ground arith)
            ],
            fields,
          ),
          no_indirect d' (ground (arith, z, same)) freed,
        )
        | inr nz ↦
            let (d1, d2, e, b, f) = with_indirect d' (λ z. ground (arith, nz, same, z)) freed in
            (
              with_addr cur 7 0,
              d2,
              indirect_step cur d' d1 d2 nz (ap (λ a. itrunc_entries sb 128 0 a d') same ∙ e)
                  (ap (λ a. bfree sb a d1) same ∙ b),
              (
                λ k lt. ground (arith, low k),
                ap {A = Inode} {B = Inode} (λ x. record x { addrs = update cur.addrs 7 0 }) fields,
              ),
              f,
            )
      ]
