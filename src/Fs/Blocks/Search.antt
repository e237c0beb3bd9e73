-- ===== src/Fs/Blocks/Search.antt =====
-- What the loops of balloc (xv6-public/fs.c) find in the bitmap.
use mathlib.Core.Path.{subst}
use ele.Base.{
  ℕ, zero, suc, ◌+◌, ◌-◌, ◌*◌, ◌/◌, ◌%◌, ◌≤◌, ◌<◌, ◌≡◌, refl, ◌∙◌, Bool, true, false, Option, none,
  some, arith, ◌==◌, ltb, Bool-cases, inl, inr, update, Result, ok, panic,
}
use ele.Fs.{Superblock, Disk, bpb, bblock}
use ele.Fs.Blocks.{bit_at, bzero, mark, balloc_scan, balloc_loop, bitmap_blocks, balloc}

-- The bitmap says that block `b` is in use.
unfoldable pub used : Superblock → Disk → ℕ → Bool
used sb d b = bit_at (d (bblock sb b)) (b % bpb)

-- What the inner loop finds from bit `bi` on, among `left` bits.
abbrev Scanned : (ℕ → ℕ) → ℕ → ℕ → ℕ → ℕ → Option ℕ → Type 0
Scanned blk b size bi left none =
    (j : ℕ) → bi ≤ j → j < bi + left → b + j < size → bit_at blk j ≡ true
Scanned blk b size bi left (some i) =
    (bi ≤ i)
    × (i < bi + left)
    × (b + i < size)
    × (bit_at blk i ≡ false)
    × ((j : ℕ) → bi ≤ j → j < i → bit_at blk j ≡ true)

Scanned-next :
    (blk : ℕ → ℕ) (b size bi left : ℕ) (r : Option ℕ)
    → bit_at blk bi ≡ true
    → Scanned blk b size (bi + 1) left r
    → Scanned blk b size bi (suc left) r
Scanned-next blk b size bi left none here h = λ j lo hi lt. elim (Bool-cases (bi == j)) [
  | inl e ↦ subst (λ i. bit_at blk i ≡ true) (ground arith) here
  | inr e ↦ h j (ground arith) (omega arith) lt
]
Scanned-next blk b size bi left (some i) here (lo, hi, lt, clear, before) = (
  omega arith,
  omega arith,
  lt,
  clear,
  λ j l u. elim (Bool-cases (bi == j)) [
    | inl e ↦ subst (λ i. bit_at blk i ≡ true) (ground arith) here
    | inr e ↦ before j (ground arith) u
  ],
)

balloc_scan-Scanned :
    (blk : ℕ → ℕ) (b size bi left : ℕ) → Scanned blk b size bi left (balloc_scan blk b size bi left)
unfolding balloc_scan
balloc_scan-Scanned blk b size bi zero = λ j lo hi lt. absurd (omega arith)
balloc_scan-Scanned blk b size bi (suc left) = elim (Bool-cases (ltb (b + bi) size)) [
  | inr out ↦ rw out (λ j lo hi lt. absurd (ground arith))
  | inl room ↦ elim (Bool-cases (bit_at blk bi)) [
    | inl e ↦
        rw (room, e)
          (Scanned-next blk b size bi left _ e (balloc_scan-Scanned blk b size (bi + 1) left))
    | inr e ↦
        rw (room, e) (omega arith, omega arith, ground arith, e, λ j lo hi. absurd (omega arith))
  ]
]

-- The blocks from `b` on that `left` blocks of the bitmap speak of.
abbrev pub Found : Superblock → Disk → ℕ → ℕ → Result (ℕ × Disk) → Type 0
Found sb d b left (panic s) =
    (s ≡ "balloc: out of blocks")
    × ((c : ℕ) → b ≤ c → c < b + left * bpb → c < sb.size → used sb d c ≡ true)
Found sb d b left (ok (c, d')) =
    (b ≤ c)
    × (c < sb.size)
    × (used sb d c ≡ false)
    × ((e : ℕ) → b ≤ e → e < c → used sb d e ≡ true)
    × (d' ≡ bzero c (update d (bblock sb c) (mark (c % bpb) (d (bblock sb c)))))

used-at :
    (sb : Superblock) (d : Disk) (b j : ℕ)
    → b % bpb ≡ 0
    → j < bpb
    → used sb d (b + j) ≡ bit_at (d (bblock sb b)) j
unfolding used
used-at sb d b j al lt =
    let e : (b + j) % bpb ≡ j = omega arith in
    let f : (b + j) / bpb ≡ b / bpb = omega arith in rw (e, f)

module _ (sb : Superblock) (d : Disk) where
  used-scan :
      (b i c : ℕ)
      → b % bpb ≡ 0
      → i ≤ bpb
      → ((j : ℕ) → 0 ≤ j → j < i → bit_at (d (bblock sb b)) j ≡ true)
      → b ≤ c
      → c < b + i
      → used sb d c ≡ true
  used-scan b i c al le all lo hi =
      let e : b + (c - b) ≡ c = omega arith in
      subst (λ k. used sb d k ≡ true) e
        (used-at sb d b (c - b) al (omega arith) ∙ all (c - b) (omega arith) (omega arith))

  Found-next :
      (left b : ℕ) (r : Result (ℕ × Disk))
      → ((c : ℕ) → b ≤ c → c < b + bpb → c < sb.size → used sb d c ≡ true)
      → Found sb d (b + bpb) left r
      → Found sb d b (suc left) r
  Found-next left b (panic s) here (e, rest) = (
    e,
    λ c lo hi lt. elim (Bool-cases (ltb c (b + bpb))) [
      | inl near ↦ here c lo (ground arith) lt
      | inr far ↦ rest c (ground arith) (omega arith) lt
    ],
  )
  Found-next left b (ok (c, d')) here (lo, lt, free, before, e) = (
    omega arith,
    lt,
    free,
    λ k l u. elim (Bool-cases (ltb k (b + bpb))) [
      | inl near ↦ here k l (ground arith) (omega arith)
      | inr far ↦ before k (ground arith) u
    ],
    e,
  )

  loop-scan :
      (left b : ℕ) (r : Option ℕ) (out : Result (ℕ × Disk))
      → b % bpb ≡ 0
      → Scanned (d (bblock sb b)) b sb.size 0 bpb r
      → Found sb d (b + bpb) left out
      → Found sb d b (suc left) (elim r [
        | some bi ↦ ok (b + bi, bzero (b + bi) (update d (bblock sb b) (mark bi (d (bblock sb b)))))
        | none ↦ out
      ])
  loop-scan left b none out al h rest =
      Found-next left b out
        (λ c lo hi lt.
          let e : b + (c - b) ≡ c = omega arith in
          subst (λ k. used sb d k ≡ true) e
            (used-at sb d b (c - b) al (omega arith)
              ∙ h (c - b) (omega arith) (omega arith) (omega arith)))
        rest
  loop-scan left b (some bi) out al (lo, hi, lt, clear, before) rest =
      let e : (b + bi) % bpb ≡ bi = omega arith in
      let f : (b + bi) / bpb ≡ b / bpb = omega arith in
      (
        omega arith,
        lt,
        used-at sb d b bi al (omega arith) ∙ clear,
        λ k l u. used-scan b bi k al (omega arith) before l u,
        rw (e, f) refl,
      )

  balloc_loop-Found : (left b : ℕ) → b % bpb ≡ 0 → Found sb d b left (balloc_loop sb left b d)
  unfolding balloc_loop
  balloc_loop-Found zero b al = (refl, λ c lo hi lt. absurd (omega arith))
  balloc_loop-Found (suc left) b al =
      loop-scan left b (balloc_scan (d (bblock sb b)) b sb.size 0 bpb) _ al
        (balloc_scan-Scanned (d (bblock sb b)) b sb.size 0 bpb)
        (balloc_loop-Found left (b + bpb) (omega arith))

  pub balloc-Found : Found sb d 0 (bitmap_blocks sb) (balloc sb d)
  unfolding balloc
  balloc-Found = balloc_loop-Found (bitmap_blocks sb) 0 refl
