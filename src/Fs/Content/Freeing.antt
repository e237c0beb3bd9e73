-- ===== src/Fs/Content/Freeing.antt =====
-- The blocks of a file are freed one after the other (itrunc of xv6-public/fs.c).
use mathlib.Core.Path.{subst}
use ele.Base.{
  ℕ, zero, suc, ◌+◌, ◌≤◌, ◌<◌, ◌≡◌, ◌≢◌, refl, ◌∙◌, sym, ap, inl, inr, Bool, true, false, not, ◌&&◌,
  ◌||◌, arith, ◌==◌, leb, ltb, if◌then◌else◌, Bool-cases, update, Result, ok, panic,
}
use ele.Fs.{Superblock, Disk, bblock}
use ele.Fs.Blocks.{bfree}
use ele.Fs.Blocks.Search.{used}
use ele.Fs.Blocks.Laws.{IsDisk, Bfree, bfree_lem}
use ele.Fs.Inode.{Inode}
use ele.Fs.Content.{with_addr, itrunc_direct}
use ele.Fs.Content.Slots.{slots, slot, IsFile}
use ele.Fs.Content.Mapping.{slot-low}

module _ (sb : Superblock) (ip : Inode) (d : Disk) (file : IsFile sb ip d) where
  -- The blocks of the slots in `s` are free again, and nothing else has changed but the bitmap.
  pub record Freed (s : ℕ → Bool) (d' : Disk) : Type 0 where
    pub disk : IsDisk sb d'
    pub slot_used : (k : ℕ) → k < slots → slot ip d k ≢ 0 → used sb d' (slot ip d k) ≡ not (s k)
    pub rest_used :
        (e : ℕ)
        → e < sb.size
        → ((k : ℕ) → k < slots → slot ip d k ≢ 0 → slot ip d k ≢ e)
        → used sb d' e ≡ used sb d e
    pub kept : (b : ℕ) → ((e : ℕ) → e < sb.size → bblock sb e ≢ b) → d' b ≡ d b

  pub none-Freed : Freed (λ _. false) d
  none-Freed = record {
    disk = file.disk;
    slot_used = λ k lt nz. (file.owned k lt nz).in_use;
    rest_used = λ e lt h. refl;
    kept = λ b h. refl;
  }

  pub same-Freed :
      (s t : ℕ → Bool) (d' : Disk)
      → ((k : ℕ) → k < slots → slot ip d k ≢ 0 → s k ≡ t k)
      → Freed s d'
      → Freed t d'
  same-Freed s t d' h freed = record {
    disk = freed.disk;
    slot_used = λ k lt nz. freed.slot_used k lt nz ∙ ap not (h k lt nz);
    rest_used = freed.rest_used;
    kept = freed.kept;
  }

  -- Slot `k` joins the free ones.
  abbrev pub Joined : (ℕ → Bool) → ℕ → (ℕ → Bool) → Type 0
  Joined s k t = (l : ℕ) → l < slots → t l ≡ (if k == l then true else s l)

  module _ (s t : ℕ → Bool) (k : ℕ) (d' : Disk) (join : Joined s k t) (freed : Freed s d') where
    -- There is no block in the slot.
    pub pass-Freed : slot ip d k ≡ 0 → Freed t d'
    pass-Freed z = record {
      disk = freed.disk;
      slot_used = λ l lt nz. elim (Bool-cases (k == l)) [
        | inl e ↦ absurd (nz (ap (slot ip d) (sym (let f : k ≡ l = ground arith in f)) ∙ z))
        | inr e ↦ (let h : t l ≡ s l = join l lt ∙ rw (e) refl in rw (h) (freed.slot_used l lt nz))
      ];
      rest_used = freed.rest_used;
      kept = freed.kept;
    }

    after_free :
        (lk : k < slots)
        → slot ip d k ≢ 0
        → s k ≡ false
        → (r : Result Disk) → Bfree sb d' (slot ip d k) r
        → (d'' : Disk) × (r ≡ ok d'') × Freed t d''
    after_free lk nz fresh (panic m) (e, free) =
        absurd (ground (arith, freed.slot_used k lk nz, fresh, free))
    after_free lk nz fresh (ok d'') (taken, uses, others, disk) = (
      d'',
      refl,
      record {
        disk = disk;
        slot_used = λ l lt lz. elim (Bool-cases (k == l)) [
          | inl e ↦
              let f : k ≡ l = ground arith in
              let g : (slot ip d k == slot ip d l) ≡ true = ground (arith, ap (slot ip d) f) in
              let h : t l ≡ true = join l lt ∙ rw (e) refl in uses (slot ip d l) ∙ rw (g, h) refl
          | inr e ↦
              let g : (slot ip d k == slot ip d l) ≡ false =
                ground (arith, file.apart k l lk lt nz) in
              let h : t l ≡ s l = join l lt ∙ rw (e) refl in
              uses (slot ip d l) ∙ rw (g, h) (freed.slot_used l lt lz)
        ];
        rest_used = λ e lt h.
            let g : (slot ip d k == e) ≡ false = ground (arith, h k lk nz) in
            uses e ∙ rw (g) (freed.rest_used e lt h);
        kept = λ b h.
            others b (λ z. h (slot ip d k) ((file.owned k lk nz).inside) (sym z)) ∙ freed.kept b h;
      },
    )

    -- The block in the slot is freed.
    pub free-Freed :
        k < slots
        → slot ip d k ≢ 0
        → s k ≡ false
        → (d'' : Disk) × (bfree sb (slot ip d k) d' ≡ ok d'') × Freed t d''
    free-Freed lk nz fresh =
        after_free lk nz fresh (bfree sb (slot ip d k) d')
          (bfree_lem sb d' freed.disk (slot ip d k) ((file.owned k lk nz).no_row))

  -- The slots that the first loop has passed at `i`, and those that the second has passed at `j`.
  abbrev pub direct_done : ℕ → ℕ → Bool
  direct_done i k = ltb k i

  abbrev pub entries_done : ℕ → ℕ → Bool
  entries_done j k = ltb k 7 || (leb 8 k && ltb k (j + 8))

  -- The inode in the first loop: the addresses passed are cleared, the others as they were.
  abbrev pub Cleared : ℕ → Inode → Type 0
  Cleared i cur =
      ((k : ℕ) → k < i → cur.addrs k ≡ 0)
      × ((k : ℕ) → i ≤ k → cur.addrs k ≡ ip.addrs k)
      × (cur ≡ record ip { addrs = cur.addrs })

  Cleared-next : (i : ℕ) (cur : Inode) → Cleared i cur → Cleared (i + 1) (with_addr cur i 0)
  Cleared-next i cur (low, high, fields) = (
    λ k lt. ground (arith, low k),
    λ k le. ground (arith, high k),
    ap {A = Inode} {B = Inode} (λ x. record x { addrs = update cur.addrs i 0 }) fields,
  )

  Cleared-skip : (i : ℕ) (cur : Inode) → Cleared i cur → cur.addrs i ≡ 0 → Cleared (i + 1) cur
  Cleared-skip i cur (low, high, fields) z = (
    λ k lt. elim (Bool-cases (k == i)) [
      | inl e ↦ ap cur.addrs (ground (arith, e)) ∙ z
      | inr e ↦ low k (ground arith)
    ],
    λ k le. high k (omega arith),
    fields,
  )

  free_step :
      (left i : ℕ) (cur : Inode) (d' d1 : Disk)
      → (cur.addrs i == 0) ≡ false
      → bfree sb (cur.addrs i) d' ≡ ok d1
      → itrunc_direct sb (suc left) i cur d' ≡ itrunc_direct sb left (i + 1) (with_addr cur i 0) d1
  unfolding itrunc_direct
  free_step left i cur d' d1 nz b = rw (nz, itrunc_direct) (rw (b) refl)

  pub itrunc_direct-Freed :
      (left i : ℕ) (cur : Inode) (d' : Disk)
      → i + left ≡ 7
      → Cleared i cur
      → Freed (direct_done i) d'
      → (cur' : Inode) × (d'' : Disk) × (itrunc_direct sb left i cur d' ≡ ok (cur', d''))
        × Cleared 7 cur'
        × Freed (direct_done 7) d''
  unfolding itrunc_direct
  itrunc_direct-Freed zero i cur d' at clear freed =
      let e : i ≡ 7 = omega arith in
      (
        cur,
        d',
        refl,
        subst (λ n. Cleared n cur) e clear,
        subst (λ n. Freed (direct_done n) d') e freed,
      )
  itrunc_direct-Freed (suc left) i cur d' at clear freed =
      let same = clear.1 i (omega arith) in
      let low = slot-low ip d i (omega arith) in
      let join : Joined (direct_done i) i (direct_done (i + 1)) = λ l lt. ground arith in
      elim (Bool-cases (cur.addrs i == 0)) [
        | inl z ↦
            let (cur', d'', e, c, f) =
              itrunc_direct-Freed left (i + 1) cur d' (omega arith)
                (Cleared-skip i cur clear (ground arith))
                (pass-Freed (direct_done i) (direct_done (i + 1)) i d' join freed
                  (ground (arith, z, same, low))) in
            (cur', d'', rw (z, itrunc_direct) e, c, f)
        | inr nz ↦
            let (d1, b, f1) =
              free-Freed (direct_done i) (direct_done (i + 1)) i d' join freed (omega arith)
                (λ z. ground (arith, nz, same, low, z)) (ground arith) in
            let (cur', d'', e, c, f) =
              itrunc_direct-Freed left (i + 1) (with_addr cur i 0) d1 (omega arith)
                (Cleared-next i cur clear) f1 in
            (
              cur',
              d'',
              free_step left i cur d' d1 nz (ap (λ x. bfree sb x d') (same ∙ sym low) ∙ b) ∙ e,
              c,
              f,
            )
      ]
