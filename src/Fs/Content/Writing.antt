-- ===== src/Fs/Content/Writing.antt =====
-- writei (xv6-public/fs.c) changes the bytes of the file.
use mathlib.Core.Path.{subst}
use ele.Base.{
  ℕ, ◌+◌, ◌-◌, ◌*◌, ◌/◌, ◌%◌, ◌≤◌, ◌<◌, ◌≡◌, ◌≢◌, refl, ◌∙◌, sym, ap, ◌⊎◌, inl, inr, true, false,
  ◌&&◌, arith, leb, ◌==◌, ltb, if◌then◌else◌, Bool-cases,
}
use ele.Fs.{Superblock, Disk, bsize}
use ele.Fs.Words.{put_bytes-in, put_bytes-out}
use ele.Fs.Inode.{Inode}
use ele.Fs.Content.{maxfile}
use ele.Fs.Content.Slots.{slots, slot, IsFile}
use ele.Fs.Content.Mapping.{cell, Stranger}
use ele.Fs.Content.Bmap.{place}
use ele.Fs.Content.Reading.{byte_at, IsWhole}
use ele.Fs.Content.Rounds.{Round}

-- The bytes `tot` to `n` of `src` have been written at offset `off`.
pub record Replaced (sb : Superblock) (ip : Inode) (d : Disk) (src : ℕ → ℕ) (tot off n : ℕ)
    (ip' : Inode) (d' : Disk) : Type 0 where
  pub file : IsFile sb ip' d'
  pub bytes :
      (x : ℕ)
      → x < maxfile * bsize
      → byte_at ip' d' x
        ≡ (if leb off x && ltb x (off + (n - tot)) then src (tot + (x - off)) else byte_at ip d x)
  pub fields : ip' ≡ record ip { addrs = ip'.addrs }
  pub whole : (e : ℕ) → e ≤ maxfile * bsize → IsWhole ip d e → IsWhole ip' d' e
  pub reach : IsWhole ip d off → IsWhole ip' d' (off + (n - tot))
  pub strangers : (b : ℕ) → Stranger sb ip d b → Stranger sb ip' d' b × (d' b ≡ d b)

pub place-lt : (bn : ℕ) → bn < maxfile → place bn < slots
place-lt bn lt = ground arith

pub place-ne : (bn : ℕ) → place bn ≢ 7
place-ne bn = ground arith

place-eq : (a b : ℕ) → (place a == place b) ≡ (a == b)
place-eq a b = ground arith

module _ (sb : Superblock) (ip : Inode) (d : Disk) (src : ℕ → ℕ) (tot off n : ℕ) where
  pub none-Replaced : n ≤ tot → IsFile sb ip d → Replaced sb ip d src tot off n ip d
  none-Replaced le file = record {
    file = file;
    bytes = λ x lt. ground arith;
    fields = refl;
    whole = λ e hi h. h;
    reach =
        λ h. let z : off + (n - tot) ≡ off = omega arith in subst (λ e. IsWhole ip d e) (sym z) h;
    strangers = λ b s. (s, refl);
  }

  module _ (m : ℕ) (some_bytes : 0 < m) (fits : tot + m ≤ n) (within : off % bsize + m ≤ bsize)
      (room : off + (n - tot) ≤ maxfile * bsize) (ip1 : Inode) (d1 : Disk)
      (first : Round sb ip d
        (place (off / bsize))
        (off % bsize)
        m
        (λ j. src (tot + j))
        ip1
        d1) where
    -- The file after the round.
    byte_at-first :
        (x : ℕ)
        → x < maxfile * bsize
        → byte_at ip1 d1 x
          ≡ (if leb off x && ltb x (off + m) then src (tot + (x - off)) else byte_at ip d x)
    byte_at-first x lt =
        let e =
          first.cells (place (x / bsize)) (x % bsize) (place-lt (x / bsize) (omega arith))
            (place-ne (x / bsize)) in
        e
        ∙ rw (place-eq (off / bsize) (x / bsize)) (elim (Bool-cases (off / bsize == x / bsize)) [
          | inr other ↦
              let f : (leb off x && ltb x (off + m)) ≡ false = ground arith in rw (other, f) refl
          | inl same ↦ elim (Bool-cases (leb off x && ltb x (off + m))) [
            | inl in_range ↦
                rw (same, in_range)
                  (put_bytes-in (off % bsize) m (λ j. src (tot + j))
                    (cell ip d (place (off / bsize))) (x % bsize) (x - off) (ground arith)
                    (ground arith))
            | inr out ↦
                let q : off / bsize ≡ x / bsize = ground arith in
                rw (same, out)
                  (put_bytes-out (off % bsize) m (λ j. src (tot + j))
                      (cell ip d (place (off / bsize))) (x % bsize) (sides x (ground arith) out)
                    ∙ ap (λ b. cell ip d (place b) (x % bsize)) q)
          ]
        ])
      where
        sides :
            (x : ℕ)
            → off / bsize ≡ x / bsize
            → (leb off x && ltb x (off + m)) ≡ false
            → (x % bsize < off % bsize) ⊎ (off % bsize + m ≤ x % bsize)
        sides x q out = ground arith

    whole-first : (e : ℕ) → e ≤ maxfile * bsize → IsWhole ip d e → IsWhole ip1 d1 e
    whole-first e le h bn lt = first.grows (place bn) (place-lt bn (omega arith)) (h bn lt)

    reach-first : IsWhole ip d off → IsWhole ip1 d1 (off + m)
    reach-first h bn lt = elim (Bool-cases (ltb (bn * bsize) off)) [
      | inl before ↦ whole-first off (omega arith) h bn (ground arith)
      | inr here ↦
          let e : off / bsize ≡ bn = ground arith in
          subst (λ x. slot ip1 d1 (place x) ≢ 0) e first.real
    ]

    bytes-next :
        (ip2 : Inode) (d2 : Disk)
        → Replaced sb ip1 d1 src (tot + m) (off + m) n ip2 d2
        → (x : ℕ) → x < maxfile * bsize
        → byte_at ip2 d2 x
          ≡ (if leb off x && ltb x (off + (n - tot)) then src (tot + (x - off)) else byte_at ip d x)
    bytes-next ip2 d2 rest x lt = elim (Bool-cases (ltb x (off + m))) [
      | inl near ↦
          let a : leb (off + m) x ≡ false = ground arith in
          let b : ltb x (off + (n - tot)) ≡ true = ground arith in
          rest.bytes x lt ∙ rw (a, b) (byte_at-first x lt ∙ rw (near) refl)
      | inr far ↦
          let a : leb (off + m) x ≡ true = ground arith in
          let b : leb off x ≡ true = ground arith in
          let c : off + m + (n - (tot + m)) ≡ off + (n - tot) = omega arith in
          let e : tot + m + (x - (off + m)) ≡ tot + (x - off) = ground arith in
          let f : byte_at ip1 d1 x ≡ byte_at ip d x = byte_at-first x lt ∙ rw (b, far) refl in
          rest.bytes x lt ∙ rw (a, b, c, e, f) refl
    ]

    pub next-Replaced :
        (ip2 : Inode) (d2 : Disk)
        → Replaced sb ip1 d1 src (tot + m) (off + m) n ip2 d2
        → Replaced sb ip d src tot off n ip2 d2
    next-Replaced ip2 d2 rest = record {
      file = rest.file;
      bytes = bytes-next ip2 d2 rest;
      fields =
          rest.fields
          ∙ ap {A = Inode} {B = Inode} (λ x. record x { addrs = ip2.addrs }) first.fields;
      whole = λ e hi h. rest.whole e hi (whole-first e hi h);
      reach = λ h.
          let z : off + m + (n - (tot + m)) ≡ off + (n - tot) = omega arith in
          subst (λ e. IsWhole ip2 d2 e) z (rest.reach (reach-first h));
      strangers = λ b s.
          let (s1, e1) = first.strangers b s in let (s2, e2) = rest.strangers b s1 in (s2, e2 ∙ e1);
    }
