-- ===== src/Fs/Content/Reading.antt =====
-- readi (xv6-public/fs.c) returns the bytes of the file.
use ele.Base.{
  ℕ, zero, suc, ◌+◌, ◌-◌, ◌*◌, ◌/◌, ◌%◌, ◌^◌, ◌≤◌, ◌<◌, ◌≡◌, ◌≢◌, refl, ◌∙◌, sym, ap, inl, inr,
  true, false, ◌&&◌, ◌||◌, Option, none, some, arith, leb, ◌==◌, ltb, if◌then◌else◌, Bool-cases, ok,
}
use ele.Args.{word_at}
use ele.Fs.{Superblock, Disk, bsize}
use ele.Fs.Words.{put_bytes, put_bytes-in, put_bytes-out}
use ele.Fs.Inode.{Inode, t_dev}
use ele.Fs.Content.{maxfile, bmap_slot, bmap_entry, bmap, chunk, readi_loop, readi, Driver}
use ele.Fs.Content.Slots.{slot}
use ele.Fs.Content.Mapping.{cell, slot-low, slot-high}
use ele.Fs.Content.Bmap.{place}

-- The byte at offset `off` of the file.
abbrev pub byte_at : Inode → Disk → ℕ → ℕ
byte_at ip d off = cell ip d (place (off / bsize)) (off % bsize)

-- The first `len` bytes of a file have their blocks.
abbrev pub IsWhole : Inode → Disk → ℕ → Type 0
IsWhole ip d len = (bn : ℕ) → bn * bsize < len → slot ip d (place bn) ≢ 0

module _ (sb : Superblock) (ip : Inode) (d : Disk) where
  slot-indirect : (n : ℕ) → slot ip d (n + 8) ≢ 0 → ip.addrs 7 ≢ 0
  unfolding slot
  slot-indirect n nz z =
      let f : ltb (n + 8) 8 ≡ false = ground arith in
      let g : (ip.addrs 7 == 0) ≡ true = ground arith in nz (rw (f, g) refl)

  bmap_slot-present : (k : ℕ) → ip.addrs k ≢ 0 → bmap_slot sb ip k d ≡ ok (ip.addrs k, (ip, d))
  unfolding bmap_slot
  bmap_slot-present k nz =
      let g : (ip.addrs k == 0) ≡ false = ground arith in rw (g, bmap_slot) refl

  bmap_entry-present :
      (a n : ℕ)
      → word_at (d a) (4 * n) ≢ 0
      → bmap_entry sb ip a n d ≡ ok (word_at (d a) (4 * n), (ip, d))
  unfolding bmap_entry
  bmap_entry-present a n nz =
      let g : (word_at (d a) (4 * n) == 0) ≡ false = ground arith in rw (g, bmap_entry) refl

  -- A block that is there is found without a change.
  pub bmap-present :
      (bn : ℕ)
      → bn < maxfile
      → slot ip d (place bn) ≢ 0
      → bmap sb ip bn d ≡ ok (slot ip d (place bn), (ip, d))
  unfolding bmap
  bmap-present bn lt nz = elim (Bool-cases (ltb bn 7)) [
    | inl low ↦
        let f = slot-low ip d bn (ground arith) in
        let p : place bn ≡ bn = rw (low) refl in
        rw (low, f) (bmap_slot-present bn (λ z. nz (ap (slot ip d) p ∙ (f ∙ z))))
    | inr high ↦
        let room : ltb (bn - 7) 128 ≡ true = ground arith in
        let e : bn + 1 ≡ bn - 7 + 8 = ground arith in
        let q : slot ip d (place bn) ≡ slot ip d (bn - 7 + 8) = rw (high) (ap (slot ip d) e) in
        let i = slot-indirect (bn - 7) (λ z. nz (q ∙ z)) in
        let f = q ∙ slot-high ip d (bn - 7) i in
        rw (f, high, room, bmap_slot-present 7 i)
          (bmap_entry-present (ip.addrs 7) (bn - 7) (λ z. nz (f ∙ z)))
  ]

  -- One round of the loop takes the bytes of the file from `off` on.
  pub chunk-in :
      (tot off n : ℕ)
      → tot < n
      → (0 < chunk tot off n)
        × (tot + chunk tot off n ≤ n)
        × (off % bsize + chunk tot off n ≤ bsize)
  chunk-in tot off n lt = (ground arith, ground arith, ground arith)

  byte_at-row :
      (off j : ℕ)
      → off % bsize + j < bsize
      → slot ip d (place (off / bsize)) ≢ 0
      → byte_at ip d (off + j) ≡ d (slot ip d (place (off / bsize))) (off % bsize + j)
  unfolding cell
  byte_at-row off j lt nz =
      let e : (off + j) / 512 ≡ off / 512 = omega arith in
      let f : (off + j) % 512 ≡ off % 512 + j = omega arith in
      let g : (slot ip d (place (off / 512)) == 0) ≡ false = ground (arith, nz) in rw (e, f, g) refl

  -- What `readi_loop` leaves in the buffer.
  abbrev Copied : (ℕ → ℕ) → ℕ → ℕ → ℕ → (ℕ → ℕ) → Type 0
  Copied dst tot off n dst' =
      (i : ℕ) → dst' i ≡ (if leb tot i && ltb i n then byte_at ip d (off + (i - tot)) else dst i)

  round-Copied :
      (dst : ℕ → ℕ) (tot off n m : ℕ) (dst' : ℕ → ℕ)
      → 0 < m
      → tot + m ≤ n
      → off % bsize + m ≤ bsize
      → slot ip d (place (off / bsize)) ≢ 0
      → Copied
          (put_bytes tot m (λ j. d (slot ip d (place (off / bsize))) (off % bsize + j)) dst)
          (tot + m)
          (off + m)
          n
          dst'
      → Copied dst tot off n dst'
  round-Copied dst tot off n m dst' some_bytes fits within nz rest i =
      elim (Bool-cases (ltb i tot)) [
        | inl before ↦
            let a : leb (tot + m) i ≡ false = ground arith in
            let b : leb tot i ≡ false = ground arith in
            rest i ∙ rw (a, b) (put_bytes-out tot m row dst i (inl (ground arith)))
        | inr from ↦ elim (Bool-cases (ltb i (tot + m))) [
          | inl here ↦
              let a : leb (tot + m) i ≡ false = ground arith in
              let b : leb tot i ≡ true = ground arith in
              let c : ltb i n ≡ true = ground arith in
              rest i
              ∙ rw (a, b, c)
                  (put_bytes-in tot m row dst i (i - tot) (ground arith) (ground arith)
                    ∙ sym (byte_at-row off (i - tot) (ground arith) nz))
          | inr after ↦
              let a : leb (tot + m) i ≡ true = ground arith in
              let b : leb tot i ≡ true = ground arith in
              let c : off + m + (i - (tot + m)) ≡ off + (i - tot) = ground arith in
              rest i
              ∙ rw (a, b, c)
                  (ap (λ x. if ltb i n then byte_at ip d (off + (i - tot)) else x)
                    (put_bytes-out tot m row dst i (inr (ground arith))))
        ]
      ]
    where
      row : ℕ → ℕ
      row = λ j. d (slot ip d (place (off / bsize))) (off % bsize + j)

  readi_loop-Copied :
      (fuel : ℕ) (dst : ℕ → ℕ) (tot off n : ℕ)
      → n - tot ≤ fuel
      → off + (n - tot) ≤ maxfile * bsize
      → IsWhole ip d (off + (n - tot))
      → (dst' : ℕ → ℕ) × (readi_loop sb fuel ip dst tot off n d ≡ ok (dst', (ip, d)))
        × Copied dst tot off n dst'
  unfolding readi_loop
  readi_loop-Copied zero dst tot off n le room whole = (dst, refl, λ i. ground arith)
  readi_loop-Copied (suc fuel) dst tot off n le room whole = elim (Bool-cases (ltb tot n)) [
    | inr done ↦ (dst, rw (done, readi_loop) refl, λ i. ground arith)
    | inl more ↦
        let m = chunk tot off n in
        let (pos, fits, within) = chunk-in tot off n (ground arith) in
        let nz = whole (off / bsize) (omega arith) in
        let found = bmap-present (off / bsize) (omega arith) nz in
        let s : off + m + (n - (tot + m)) ≡ off + (n - tot) = omega arith in
        let (dst', e, h) =
          readi_loop-Copied fuel
            (put_bytes tot m (λ j. d (slot ip d (place (off / bsize))) (off % bsize + j)) dst)
            (tot + m) (off + m) n (omega arith) (omega arith) (rw (s) whole) in
        (
          dst',
          rw (more, readi_loop) (rw (found) e),
          round-Copied dst tot off n m dst' pos fits within nz h,
        )
  ]

  Copied-start :
      (dst : ℕ → ℕ) (off n : ℕ) (dst' : ℕ → ℕ)
      → Copied dst 0 off n dst'
      → (i : ℕ) → dst' i ≡ (if ltb i n then byte_at ip d (off + i) else dst i)
  Copied-start dst off n dst' h i =
      let a : leb 0 i ≡ true = ground arith in
      let b : i - 0 ≡ i = omega arith in h i ∙ rw (a, b) refl

-- The count that `readi` is to return: `none` is -1.
abbrev pub read_count : ℕ → ℕ → ℕ → Option ℕ
read_count size off n =
    if leb off size && ltb (off + n) (2 ^ 32)
    then some (if ltb n (size - off) then n else size - off)
    else none

-- The number of bytes that a count stands for.
abbrev pub counted : Option ℕ → ℕ
counted none = 0
counted (some n) = n

module _ (devsw : ℕ → Driver) (sb : Superblock) (ip : Inode) (d : Disk) where
  -- The buffer after `readi`.
  abbrev pub ReadFrom : (ℕ → ℕ) → ℕ → Option ℕ → (ℕ → ℕ) → Type 0
  ReadFrom dst off count dst' =
      (i : ℕ) → dst' i ≡ (if ltb i (counted count) then byte_at ip d (off + i) else dst i)

  -- `readi` behind its guards, with `k` bytes to read.
  readi-loop :
      (dst : ℕ → ℕ) (off n k : ℕ) (dst' : ℕ → ℕ)
      → ip.type_ ≢ t_dev
      → (ltb ip.size off || ltb ((off + n) % 2 ^ 32) off) ≡ false
      → (if ltb ip.size ((off + n) % 2 ^ 32) then ip.size - off else n) ≡ k
      → readi_loop sb k ip dst 0 off k d ≡ ok (dst', (ip, d))
      → readi devsw sb ip dst off n d ≡ ok (some k, (dst', (ip, d)))
  unfolding readi
  readi-loop dst off n k dst' file good count loop =
      let t : (ip.type_ == t_dev) ≡ false = ground arith in rw (t, good, count, loop) refl

  -- `readi` of an inode that is no device, whose size is at most MAXFILE blocks and whose blocks are all there
  -- never panics and changes neither the inode nor the disk. It returns -1, with the buffer as it was, if the
  -- offset is behind the end or `off + n` does not fit in a uint; otherwise it returns the smaller of
  -- `n` and the bytes left, and so many bytes of the file from `off` on stand at the start of the buffer,
  -- the rest of which is as it was.
  pub readi_lem :
      (dst : ℕ → ℕ) (off n : ℕ)
      → ip.type_ ≢ t_dev
      → ip.size ≤ maxfile * bsize
      → IsWhole ip d ip.size
      → off < 2 ^ 32
      → n < 2 ^ 32
      → (dst' : ℕ → ℕ) × (readi devsw sb ip dst off n d
          ≡ ok (read_count ip.size off n, (dst', (ip, d))))
        × ReadFrom dst off (read_count ip.size off n) dst'
  unfolding readi
  readi_lem dst off n file small whole lo ln =
      elim (Bool-cases (leb off ip.size && ltb (off + n) (2 ^ 32))) [
        | inr bad ↦
            let g : (ltb ip.size off || ltb ((off + n) % 2 ^ 32) off) ≡ true = ground arith in
            let t : (ip.type_ == t_dev) ≡ false = ground arith in
            (dst, rw (t, g, bad) refl, λ i. rw (bad) (ground arith))
        | inl good ↦
            let g : (ltb ip.size off || ltb ((off + n) % 2 ^ 32) off) ≡ false = ground arith in
            let k = if ltb n (ip.size - off) then n else ip.size - off in
            let c : (if ltb ip.size ((off + n) % 2 ^ 32) then ip.size - off else n) ≡ k =
              ground arith in
            let (dst', e, h) =
              readi_loop-Copied sb ip d k dst 0 off k (omega arith) (ground arith)
                (λ bn lt. whole bn (ground arith)) in
            (
              dst',
              rw (good) (readi-loop dst off n k dst' file g c e),
              λ i. rw (good) (Copied-start sb ip d dst off k dst' h i),
            )
      ]
