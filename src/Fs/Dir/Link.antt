-- ===== src/Fs/Dir/Link.antt =====
-- What dirlink (xv6-public/fs.c) writes, dirlookup finds.
use ele.Base.{
  ℕ, zero, suc, ◌+◌, ◌-◌, ◌*◌, ◌%◌, ◌^◌, ◌≤◌, ◌<◌, ◌≡◌, ◌≢◌, refl, ◌∙◌, sym, ap, Bool, true, false,
  ◌&&◌, Option, none, some, arith, ◌==◌, leb, ltb, if◌then◌else◌, Bool-cases, inl, inr, ◌⊎◌, Result,
  ok, panic, ◌>>=◌,
}
use ele.Str.{Bytes, strncpy}
use ele.Str.Copy.{strncmp-strncpy}
use ele.Str.Compare.{strncmp-Agrees}
use ele.Fs.{Superblock, Disk, bsize}
use ele.Fs.Words.{
  half_at, put_bytes-in, put_bytes-out, put_bytes-byte, word_byte, word_byte-byte, half_at-put_half,
}
use ele.Fs.Inode.{Inode, t_dir}
use ele.Fs.Content.{maxfile, Driver, readi, writei}
use ele.Fs.Content.Slots.{IsFile}
use ele.Fs.Content.Reading.{IsWhole}
use ele.Fs.Content.Updating.{strncpy-byte}
use ele.Fs.Content.Growing.{WriteOf, Wrote, writei_lem}
use ele.Fs.Dir.{matches, is_short, free_entry, new_entry, write_entry, dirlookup_inode}
use ele.Fs.Dir.Lookup.{
  entry, Named, Looked, read_entry, dirlookup_loop-Looked, matches-same, matches-Named,
}

module _ (name : Bytes) (inum : ℕ) where
  new_entry-byte : ((j : ℕ) → name j < 256) → (j : ℕ) → new_entry name inum j < 256
  unfolding new_entry
  new_entry-byte h =
      put_bytes-byte 0 2 (word_byte (inum % 2 ^ 16)) _ (word_byte-byte (inum % 2 ^ 16)) (
        put_bytes-byte 2 14 (strncpy (λ _. 0) name 14) (λ _. 0)
          (λ j. strncpy-byte (λ _. 0) name 14 j (λ k. omega arith) h) (λ j. omega arith))

  new_entry-inum : inum < 2 ^ 16 → half_at (new_entry name inum) 0 ≡ inum
  unfolding new_entry
  new_entry-inum lt =
      let e : inum % 2 ^ 16 ≡ inum = omega arith in
      half_at-put_half 0 (inum % 2 ^ 16) _ (omega arith) ∙ e

  new_entry-name : (j : ℕ) → j < 14 → new_entry name inum (2 + j) ≡ strncpy (λ _. 0) name 14 j
  unfolding new_entry
  new_entry-name j lt =
      put_bytes-out 0 2 (word_byte (inum % 2 ^ 16)) _ (2 + j) (inr (omega arith))
      ∙ put_bytes-in 2 14 (strncpy (λ _. 0) name 14) (λ _. 0) (2 + j) j refl lt

  new_entry-matches : 0 < inum → inum < 2 ^ 16 → matches name (new_entry name inum) ≡ true
  new_entry-matches pos lt = (matches-Named name (new_entry name inum)).1 (
    λ z. ground (arith, new_entry-inum lt, z),
    λ j l before.
        (strncmp-Agrees name (strncpy (λ _. 0) name 14) 14).0 (strncmp-strncpy (λ _. 0) name 14) j l
          before
        ∙ sym (new_entry-name j l),
  )

zero_of : (n : ℕ) → (n == 0) ≡ true → n ≡ 0
zero_of n h = ground arith

module _ (devsw : ℕ → Driver) (sb : Superblock) (name : Bytes) (dp : Inode) (d : Disk)
    (dir : dp.type_ ≡ t_dir) (small : dp.size ≤ maxfile * bsize) (whole : IsWhole dp d dp.size)
    (entries : dp.size % 16 ≡ 0) where
  after_read : ℕ → ℕ → Bool → Result (ℕ × (Inode × Disk))
  after_read fuel off b = elim b [
    | true ↦ ok (off, (dp, d))
    | false ↦ free_entry devsw sb fuel (off + 16) dp d
  ]

  free_step :
      (fuel off : ℕ) (de : Bytes) (b : Bool)
      → ltb off dp.size ≡ true
      → readi devsw sb dp (λ _. 0) off 16 d ≡ ok (some 16, (de, (dp, d)))
      → (half_at de 0 == 0) ≡ b
      → free_entry devsw sb (suc fuel) off dp d ≡ after_read fuel off b
  unfolding free_entry after_read
  free_step fuel off de b more read e = rw (more, free_entry, read) (ap (after_read fuel off) e)

  -- Entry `m` is free, or behind the last.
  abbrev pub IsFree : ℕ → Type 0
  IsFree m = (dp.size ≡ 16 * m) ⊎ ((16 * m < dp.size) × (half_at (entry dp d m) 0 ≡ 0))

  -- The loop ends at a free entry, or at the end.
  free_entry_lem :
      (fuel k : ℕ)
      → dp.size - 16 * k ≤ fuel
      → 16 * k ≤ dp.size
      → (m : ℕ) × (free_entry devsw sb fuel (16 * k) dp d ≡ ok (16 * m, (dp, d))) × IsFree m
  unfolding free_entry after_read
  free_entry_lem zero k le at = (k, refl, inl (omega arith))
  free_entry_lem (suc fuel) k le at = elim (Bool-cases (ltb (16 * k) dp.size)) [
    | inr end ↦ (k, rw (end, free_entry) refl, inl (ground (arith, end)))
    | inl more ↦
        let (de, e, same) =
          read_entry devsw sb name dp d dir small whole entries k (ground arith) in
        elim (Bool-cases (half_at de 0 == 0)) [
          | inl z ↦ (
            k,
            free_step fuel (16 * k) de true more e z,
            inr (
              ground (arith, more),
              omega (arith, same 0 (omega arith), same 1 (omega arith), zero_of (half_at de 0) z),
            ),
          )
          | inr nz ↦
              let s : 16 * k + 16 ≡ 16 * (k + 1) = omega arith in
              let (m, f, h) = free_entry_lem fuel (k + 1) (omega arith) (ground (arith, entries)) in
              (m, free_step fuel (16 * k) de false more e nz ∙ rw (s) f, h)
        ]
  ]

-- What `write_entry` may return: entry `m`, which was free or behind the last, is
-- the new one, `dirlookup` finds it, and the others are as before.
abbrev pub Linked :
    (ℕ → Driver) → Superblock → Bytes → ℕ → Inode → Disk → Result (Inode × Disk) → Type 0
Linked devsw sb name inum dp d (panic s) = s ≡ "balloc: out of blocks"
Linked devsw sb name inum dp d (ok (dp', d')) =
    (m : ℕ) × ((dp.size ≡ 16 * m) ⊎ ((16 * m < dp.size) × (half_at (entry dp d m) 0 ≡ 0)))
    × (dirlookup_inode devsw sb name dp' d' ≡ ok (some (inum, 16 * m), (dp', d')))
    × ((l j : ℕ) → l ≢ m → 16 * l < dp.size → j < 16 → entry dp' d' l j ≡ entry dp d l j)
    × IsFile sb dp' d'

module _ (devsw : ℕ → Driver) (sb : Superblock) (name : Bytes) (inum : ℕ) (dp : Inode) (d : Disk)
    (dir : dp.type_ ≡ t_dir) (room : dp.size + 16 ≤ maxfile * bsize) (whole : IsWhole dp d dp.size)
    (entries : dp.size % 16 ≡ 0) (pos : 0 < inum) (short : inum < 2 ^ 16)
    (absent : (l : ℕ) → 16 * l < dp.size → ¬ Named name dp d l) where
  module _ (m : ℕ) (at : 16 * m ≤ dp.size) (dp' : Inode) (d' : Disk)
      (h : Wrote sb dp d (new_entry name inum) (16 * m) 16 dp' d') where
    new-entry : (j : ℕ) → j < 16 → entry dp' d' m j ≡ new_entry name inum j
    new-entry j lt =
        let a : leb (16 * m) (16 * m + j) ≡ true = ground arith in
        let b : ltb (16 * m + j) (16 * m + 16) ≡ true = ground arith in
        let c : 16 * m + j - 16 * m ≡ j = omega arith in
        h.bytes (16 * m + j) (omega arith) ∙ rw (a, b, c) refl

    old-entry : (l j : ℕ) → l ≢ m → 16 * l < dp.size → j < 16 → entry dp' d' l j ≡ entry dp d l j
    old-entry l j ne lt lj =
        let a : (leb (16 * m) (16 * l + j) && ltb (16 * l + j) (16 * m + 16)) ≡ false =
          ground arith in
        h.bytes (16 * l + j) (omega arith) ∙ rw (a) refl

    new-matches : matches name (entry dp' d' m) ≡ true
    new-matches =
        matches-same name (entry dp' d' m) (new_entry name inum) new-entry
        ∙ new_entry-matches name inum pos short

    old-matches : (l : ℕ) → l ≢ m → 16 * l < dp.size → matches name (entry dp' d' l) ≡ false
    old-matches l ne lt =
        matches-same name (entry dp' d' l) (entry dp d l) (λ j lj. old-entry l j ne lt lj)
        ∙ elim (Bool-cases (matches name (entry dp d l))) [
          | inl hit ↦ absurd (absent l lt ((matches-Named name (entry dp d l)).0 hit))
          | inr miss ↦ miss
        ]

    new_size :
        ((dp'.size ≡ dp.size) × (16 * m + 16 ≤ dp.size))
        ⊎ ((dp'.size ≡ 16 * m + 16) × (dp.size ≡ 16 * m))
    new_size = elim (Bool-cases (ltb dp.size (16 * m + 16))) [
      | inl grows ↦ inr (h.size ∙ rw (grows) refl, ground (arith, entries))
      | inr fits ↦ inl (h.size ∙ rw (fits) refl, ground (arith, fits))
    ]

    in_new : 16 * m < dp'.size
    in_new = elim new_size [ inl (e, f) ↦ omega (arith, e, f) | inr (e, f) ↦ omega (arith, e) ]

    in_old : (k : ℕ) → k ≢ m → 16 * k < dp'.size → 16 * k < dp.size
    in_old k ne lt = elim new_size [
      | inl (e, f) ↦ omega (arith, e)
      | inr (e, f) ↦ ground (arith, ne, e, f)
    ]

    new-inum : half_at (entry dp' d' m) 0 ≡ inum
    new-inum = omega (
      arith,
      new-entry 0 (omega arith),
      new-entry 1 (omega arith),
      new_entry-inum name inum short,
    )

    found_there : (r : Option (ℕ × ℕ)) → Looked name dp' d' 0 r → r ≡ some (inum, 16 * m)
    found_there none h0 = absurd (cc (h0 m (omega arith) in_new, new-matches))
    found_there (some (n, off)) (k, le, e, lt, here, num, before) = elim (Bool-cases (k == m)) [
      | inl same ↦
          let f : k ≡ m = ground (arith, same) in
          let a : n ≡ inum = num ∙ (ap (λ x. half_at (entry dp' d' x) 0) f ∙ new-inum) in
          let b : off ≡ 16 * m = e ∙ ap (λ x. 16 * x) f in rw (a, b) refl
      | inr other ↦
          let miss =
            old-matches k (ground (arith, other))
              (in_old k (ground (arith, other)) (omega arith)) in
          absurd (cc (miss, here))
    ]

    then_found : dirlookup_inode devsw sb name dp' d' ≡ ok (some (inum, 16 * m), (dp', d'))
    unfolding dirlookup_inode
    then_found =
        let dir' : dp'.type_ ≡ t_dir = ap (λ x. x.type_) h.fields ∙ dir in
        let small' : dp'.size ≤ maxfile * bsize = elim new_size [
          | inl (e, f) ↦ omega (arith, e)
          | inr (e, f) ↦ omega (arith, e, f)
        ] in
        let entries' : dp'.size % 16 ≡ 0 = elim new_size [
          | inl (e, f) ↦ omega (arith, e, entries)
          | inr (e, f) ↦ omega (arith, e)
        ] in
        let (r, e, look) =
          dirlookup_loop-Looked devsw sb name dp' d' dir' small' (h.whole whole) entries' dp'.size 0
            (omega arith) in
        let t : (dp'.type_ == t_dir) ≡ true = ground (arith, dir') in
        rw (t) (e ∙ ap (λ x. ok (x, (dp', d'))) (found_there r look))

  -- The end of `write_entry`, by what `writei` returns.
  written-Linked :
      (m : ℕ)
      → 16 * m ≤ dp.size
      → (dp.size ≡ 16 * m) ⊎ ((16 * m < dp.size) × (half_at (entry dp d m) 0 ≡ 0))
      → (r : Result (Option ℕ × (Inode × Disk)))
      → WriteOf sb dp d (new_entry name inum) (16 * m) 16 r
      → Linked devsw sb name inum dp d
          (r >>= λ (n, out). if is_short n then panic "dirlink" else ok out)
  written-Linked m at free (panic s) (fits, e) = e
  written-Linked m at free (ok (none, (dp', d'))) (unfit, e, f) = absurd (ground (arith, unfit))
  written-Linked m at free (ok (some n, (dp', d'))) (fits, e, h) =
      let s : is_short (some n) ≡ false = ground (arith, e) in
      rw (s) (m, free, then_found m at dp' d' h, old-entry m at dp' d' h, h.file)

  -- What `dirlink` does after its test, less its calls of `log_write`, in a directory in order, all
  -- there, of whole entries, with room for one more, and without an entry of that name, for an
  -- inode number that a ushort holds and that is not 0.
  pub write_entry_lem :
      IsFile sb dp d
      → ((j : ℕ) → dp.user j < 256)
      → ((j : ℕ) → name j < 256)
      → Linked devsw sb name inum dp d (write_entry devsw sb name inum dp d)
  unfolding write_entry
  write_entry_lem file users bytes =
      let (m, e, free) =
        free_entry_lem devsw sb name dp d dir (omega arith) whole entries dp.size 0 (omega arith)
          (omega arith) in
      let at : 16 * m ≤ dp.size = elim free [
        | inl f ↦ omega (arith, f)
        | inr (f, z) ↦ omega (arith, f)
      ] in
      rw (e) (
        written-Linked m at free (writei devsw sb dp (new_entry name inum) (16 * m) 16 d) (
          writei_lem devsw sb dp d (new_entry name inum) (16 * m) 16 file
            (λ z. ground (arith, dir, z)) (omega arith) users (new_entry-byte name inum bytes)
            (omega arith) (omega arith)))
