-- ===== src/Fs/Content/Growing.antt =====
-- All of writei (xv6-public/fs.c): its loop, and the size of the file.
use mathlib.Core.Path.{subst}
use ele.Base.{
  ℕ, zero, suc, ◌+◌, ◌-◌, ◌*◌, ◌/◌, ◌%◌, ◌^◌, ◌≤◌, ◌<◌, ◌≡◌, ◌≢◌, refl, ◌∙◌, sym, ap, inl, inr,
  Bool, true, false, ◌&&◌, ◌||◌, Option, none, some, arith, leb, ◌==◌, ltb, if◌then◌else◌,
  Bool-cases, Result, ok, panic, ◌>>=◌,
}
use ele.Fs.{Superblock, Disk, bsize}
use ele.Fs.Inode.{Inode, t_dev, iupdate, iblock}
use ele.Fs.Content.{maxfile, bmap, chunk, writei_loop, writei, grow_size, Driver}
use ele.Fs.Content.Slots.{IsFile}
use ele.Fs.Content.Mapping.{Stranger, Mapped, Bmapped}
use ele.Fs.Content.Bmap.{place, bmap_lem}
use ele.Fs.Content.Reading.{byte_at, IsWhole, chunk-in}
use ele.Fs.Content.Rounds.{Round, written-Round}
use ele.Fs.Content.Writing.{Replaced, place-lt, place-ne, none-Replaced, next-Replaced}
use ele.Fs.Content.Updating.{iupdate-Kept}

-- What the loop may return.
abbrev LoopWrote :
    Superblock → Inode → Disk → (ℕ → ℕ) → ℕ → ℕ → ℕ → Result (ℕ × (Inode × Disk)) → Type 0
LoopWrote sb ip d src tot off n (panic s) = s ≡ "balloc: out of blocks"
LoopWrote sb ip d src tot off n (ok (off', (ip', d'))) =
    (off' ≡ off + (n - tot)) × Replaced sb ip d src tot off n ip' d'

module _ (sb : Superblock) (src : ℕ → ℕ) (n : ℕ) (bytes : (i : ℕ) → src i < 256) where
  next-LoopWrote :
      (ip : Inode) (d : Disk) (tot off m : ℕ)
      → 0 < m
      → tot + m ≤ n
      → off % bsize + m ≤ bsize
      → off + (n - tot) ≤ maxfile * bsize
      → (ip1 : Inode) (d1 : Disk)
      → Round sb ip d (place (off / bsize)) (off % bsize) m (λ j. src (tot + j)) ip1 d1
      → (r : Result (ℕ × (Inode × Disk))) → LoopWrote sb ip1 d1 src (tot + m) (off + m) n r
      → LoopWrote sb ip d src tot off n r
  next-LoopWrote ip d tot off m pos fits within room ip1 d1 first (panic s) h = h
  next-LoopWrote ip d tot off m pos fits within room ip1 d1 first (ok (off', (ip2, d2))) (e, h) = (
    e ∙ omega arith,
    next-Replaced sb ip d src tot off n m pos fits within room ip1 d1 first ip2 d2 h,
  )

  after_bmap :
      (ip : Inode) (d : Disk) (tot off k : ℕ)
      → (rest : ℕ × (Inode × Disk) → Result (ℕ × (Inode × Disk)))
      → ((c : ℕ) (ip' : Inode) (d' : Disk)
          → Mapped sb ip d k c ip' d'
          → LoopWrote sb ip d src tot off n (rest (c, (ip', d'))))
      → (r : Result (ℕ × (Inode × Disk))) → Bmapped sb ip d k r
      → LoopWrote sb ip d src tot off n (r >>= rest)
  after_bmap ip d tot off k rest h (panic s) e = e
  after_bmap ip d tot off k rest h (ok (c, (ip', d'))) m = h c ip' d' m

  writei_loop-LoopWrote :
      (fuel : ℕ) (ip : Inode) (d : Disk) (tot off : ℕ)
      → IsFile sb ip d
      → n - tot ≤ fuel
      → off + (n - tot) ≤ maxfile * bsize
      → LoopWrote sb ip d src tot off n (writei_loop sb fuel ip src tot off n d)
  unfolding writei_loop
  writei_loop-LoopWrote zero ip d tot off file le room =
      (omega arith, none-Replaced sb ip d src tot off n (omega arith) file)
  writei_loop-LoopWrote (suc fuel) ip d tot off file le room = elim (Bool-cases (ltb tot n)) [
    | inr done ↦
        rw (done, LoopWrote) (ground arith, none-Replaced sb ip d src tot off n (ground arith) file)
    | inl more ↦
        let m = chunk tot off n in
        let (pos, fits, within) = chunk-in sb ip d tot off n (ground arith) in
        rw (more, LoopWrote)
          (after_bmap ip d tot off (place (off / bsize)) _
            (λ c ip' d' h.
              let round =
                written-Round sb ip d (place (off / bsize)) (off % bsize) m (λ j. src (tot + j)) c
                  ip' d' (place-lt (off / bsize) (omega arith)) (place-ne (off / bsize))
                  (λ i. bytes (tot + i)) h in
              next-LoopWrote ip d tot off m pos fits within room ip' _ round _ (
                writei_loop-LoopWrote fuel ip' _ (tot + m) (off + m) round.file (omega arith)
                  (omega arith)))
            (bmap sb ip (off / bsize) d) (bmap_lem sb ip d (off / bsize) file (omega arith)))
  ]

-- Bytes `n` of `src` stand at offset `off` of the file, which has grown as far as needed.
pub record Wrote (sb : Superblock) (ip : Inode) (d : Disk) (src : ℕ → ℕ) (off n : ℕ) (ip' : Inode)
    (d' : Disk) : Type 0 where
  pub file : IsFile sb ip' d'
  pub size : ip'.size ≡ (if ltb ip.size (off + n) then off + n else ip.size)
  pub bytes :
      (x : ℕ)
      → x < maxfile * bsize
      → byte_at ip' d' x ≡ (if leb off x && ltb x (off + n) then src (x - off) else byte_at ip d x)
  pub fields : ip' ≡ record ip { addrs = ip'.addrs; size = ip'.size }
  pub whole : IsWhole ip d ip.size → IsWhole ip' d' ip'.size
  pub strangers : (b : ℕ) → Stranger sb ip d b → b ≢ iblock sb ip.inum → d' b ≡ d b

-- Whether `writei` accepts the range.
abbrev pub write_fits : ℕ → ℕ → ℕ → Bool
write_fits size off n = leb off size && leb (off + n) (maxfile * bsize)

-- What `writei` may return.
abbrev pub WriteOf :
    Superblock → Inode → Disk → (ℕ → ℕ) → ℕ → ℕ → Result (Option ℕ × (Inode × Disk)) → Type 0
WriteOf sb ip d src off n (panic s) =
    (write_fits ip.size off n ≡ true) × (s ≡ "balloc: out of blocks")
WriteOf sb ip d src off n (ok (none, (ip', d'))) =
    (write_fits ip.size off n ≡ false) × (ip' ≡ ip) × (d' ≡ d)
WriteOf sb ip d src off n (ok (some k, (ip', d'))) =
    (write_fits ip.size off n ≡ true) × (k ≡ n) × Wrote sb ip d src off n ip' d'

module _ (sb : Superblock) (ip : Inode) (d : Disk) (src : ℕ → ℕ) (off n : ℕ)
    (users : (j : ℕ) → ip.user j < 256) (at_end : off ≤ ip.size) (room : off + n ≤ maxfile * bsize)
    (small : ip.size ≤ maxfile * bsize) where
  module _ (ip1 : Inode) (d1 : Disk) (h : Replaced sb ip d src 0 off n ip1 d1) where
    bytes-from_start :
        (x : ℕ)
        → x < maxfile * bsize
        → byte_at ip1 d1 x
          ≡ (if leb off x && ltb x (off + n) then src (x - off) else byte_at ip d x)
    bytes-from_start x lt =
        let a : n - 0 ≡ n = omega arith in
        let b : 0 + (x - off) ≡ x - off = omega arith in h.bytes x lt ∙ rw (a, b) refl

    same_size : ip1.size ≡ ip.size
    same_size = ap (λ x. x.size) h.fields

    same_inum : ip1.inum ≡ ip.inum
    same_inum = ap (λ x. x.inum) h.fields

    same_user : (j : ℕ) → ip1.user j < 256
    same_user j =
        let e : ip1.user ≡ ip.user = ap (λ x. x.user) h.fields in
        subst (λ u. u j < 256) (sym e) (users j)

    same-Wrote : ltb ip.size (off + n) ≡ false → Wrote sb ip d src off n ip1 d1
    same-Wrote fits = record {
      file = h.file;
      size = same_size ∙ rw (fits) refl;
      bytes = bytes-from_start;
      fields =
          h.fields
          ∙ ap {A = ℕ} {B = Inode} (λ z. record ip { addrs = ip1.addrs; size = z }) (sym same_size);
      whole = λ w. subst (λ e. IsWhole ip1 d1 e) (sym same_size) (h.whole ip.size small w);
      strangers = λ b s ne. let (s1, e) = h.strangers b s in e;
    }

    grown-Wrote :
        ltb ip.size (off + n) ≡ true
        → Wrote sb ip d src off n
            (record ip1 { size = off + n })
            (iupdate sb (record ip1 { size = off + n }) d1)
    grown-Wrote grows =
        let kept = iupdate-Kept sb ip1 d1 (off + n) h.file same_user in
        record {
          file = kept.file;
          size = rw (grows) refl;
          bytes = λ x lt.
              kept.cell_kept (place (x / bsize)) (x % bsize) (place-lt (x / bsize) (omega arith))
              ∙ bytes-from_start x lt;
          fields = ap {A = Inode} {B = Inode} (λ x. record x { size = off + n }) h.fields;
          whole = λ w bn lt z.
              h.reach (λ b l. w b (omega arith)) bn (omega arith)
                (sym (kept.slot_kept (place bn)) ∙ z);
          strangers = λ b s ne.
              let (s1, e) = h.strangers b s in
              kept.others b (λ f. ne (f ∙ ap (iblock sb) same_inum)) ∙ e;
        }

    grow_size-Wrote :
        (let r = grow_size sb n (off + n) ip1 d1 in Wrote sb ip d src off n (r.0) (r.1))
    unfolding grow_size
    grow_size-Wrote = elim (Bool-cases (ltb 0 n && ltb ip1.size (off + n))) [
      | inl e ↦ rw e (grown-Wrote (ground (arith, same_size)))
      | inr e ↦ rw e (same-Wrote (ground (arith, same_size)))
    ]

  finish :
      (r : Result (ℕ × (Inode × Disk)))
      → LoopWrote sb ip d src 0 off n r
      → WriteOf sb ip d src off n
          (r >>= λ (off', (ip', d')). ok (some n, grow_size sb n off' ip' d'))
  finish (panic s) h = (ground arith, h)
  finish (ok (off', (ip1, d1))) (e, h) =
      let z : off' ≡ off + n = e ∙ omega arith in
      (
        ground arith,
        refl,
        subst (λ o. let r = grow_size sb n o ip1 d1 in Wrote sb ip d src off n (r.0) (r.1)) (sym z)
            (grow_size-Wrote ip1 d1 h),
      )

-- What `writei`, less its calls of `log_write`, does with an inode that is no device, whose size is
-- at most MAXFILE blocks and whose blocks are in order, for an offset and a count that are uints.
pub writei_lem :
    (devsw : ℕ → Driver) (sb : Superblock) (ip : Inode) (d : Disk) (src : ℕ → ℕ) (off n : ℕ)
    → IsFile sb ip d
    → ip.type_ ≢ t_dev
    → ip.size ≤ maxfile * bsize
    → ((j : ℕ) → ip.user j < 256)
    → ((j : ℕ) → src j < 256)
    → off < 2 ^ 32
    → n < 2 ^ 32
    → WriteOf sb ip d src off n (writei devsw sb ip src off n d)
unfolding writei
writei_lem devsw sb ip d src off n file kind small users bytes lo ln =
    let t : (ip.type_ == t_dev) ≡ false = ground arith in
    elim (Bool-cases (ltb ip.size off || ltb ((off + n) % 2 ^ 32) off)) [
      | inl wild ↦ rw (t, wild) (ground arith, refl, refl)
      | inr near ↦ elim (Bool-cases (ltb (maxfile * bsize) ((off + n) % 2 ^ 32))) [
        | inl long ↦ rw (t, near, long) (ground arith, refl, refl)
        | inr fits ↦
            rw (t, near, fits)
              (finish sb ip d src off n users (ground arith) (ground arith) small
                (writei_loop sb n ip src 0 off n d)
                (writei_loop-LoopWrote sb src n bytes n ip d 0 off file (omega arith)
                  (ground arith)))
      ]
    ]
