-- ===== src/Fs/Path/Elements.antt =====
-- What skipelem (xv6-public/fs.c) takes off a path.
use ele.Base.{
  ℕ, zero, suc, ◌+◌, ◌-◌, ◌≤◌, ◌<◌, ◌≡◌, ◌≢◌, ◌∙◌, sym, ap, Bool, true, false, Option, none, some,
  arith, ◌==◌, leb, ltb, if◌then◌else◌, Bool-cases, inl, inr, ◌⊎◌,
}
use ele.Str.{Bytes}
use ele.Fs.Words.{put_bytes}
use ele.Fs.Dir.{dirsiz}
use ele.Fs.Path.{is_slash, in_element, skip, copy_name, skipelem}

-- `skip` from `i` ends at `j`: all before pass the test, and that one does not.
abbrev Skipped : (ℕ → Bool) → Bytes → ℕ → ℕ → Type 0
Skipped test path i j =
    (i ≤ j) × ((k : ℕ) → i ≤ k → k < j → test (path k) ≡ true) × (test (path j) ≡ false)

-- The fuel suffices when some byte in reach fails the test.
skip-Skipped :
    (test : ℕ → Bool) (fuel : ℕ) (path : Bytes) (i stop : ℕ)
    → test (path stop) ≡ false
    → i ≤ stop
    → stop - i < fuel
    → (skip test fuel path i ≤ stop) × Skipped test path i (skip test fuel path i)
unfolding skip
skip-Skipped test zero path i stop h le lt = absurd (omega arith)
skip-Skipped test (suc fuel) path i stop h le lt = elim (Bool-cases (test (path i))) [
  | inr e ↦ rw e (le, (omega arith, λ k lo hi. absurd (omega arith), e))
  | inl e ↦
      let ne : i ≢ stop = λ z. ground (arith, ap (λ x. test (path x)) z, e, h) in
      let (b, (lo, all, end)) =
        skip-Skipped test fuel path (i + 1) stop h (ground (arith, ne)) (ground (arith, ne)) in
      rw e (
        b,
        (
          omega arith,
          λ k l u. elim (Bool-cases (i == k)) [
            | inl same ↦ let f : i ≡ k = ground arith in ap (λ x. test (path x)) (sym f) ∙ e
            | inr other ↦ all k (ground arith) u
          ],
          end,
        ),
      )
]

-- The first NUL of the path is at `len`.
abbrev pub IsString : Bytes → ℕ → Type 0
IsString path len = (path len ≡ 0) × ((k : ℕ) → k < len → path k ≢ 0)

-- What `skipelem` returns from place `i` of a string: behind the slashes at `i` an element lies from
-- `s` to `e`, and behind the slashes there the rest of the path begins at `j`.
abbrev pub Skipelem : Bytes → ℕ → ℕ → Bytes → Option (ℕ × Bytes) → Type 0
Skipelem path len i name none = (k : ℕ) → i ≤ k → k < len → path k ≡ 47
Skipelem path len i name (some (j, name')) =
    (s : ℕ) × (e : ℕ) × (i ≤ s)
    × (s < e)
    × (e ≤ j)
    × (j ≤ len)
    × ((k : ℕ) → i ≤ k → k < s → path k ≡ 47)
    × ((k : ℕ) → s ≤ k → k < e → (path k ≢ 47) × (path k ≢ 0))
    × ((path e ≡ 47) ⊎ (e ≡ len))
    × ((k : ℕ) → e ≤ k → k < j → path k ≡ 47)
    × (path j ≢ 47)
    × ((k : ℕ) → k < dirsiz → k < e - s → name' k ≡ path (s + k))
    × (e - s < dirsiz → name' (e - s) ≡ 0)

copy_name_lem :
    (path : Bytes) (s len : ℕ) (name : Bytes)
    → ((k : ℕ) → k < dirsiz → k < len → copy_name path s len name k ≡ path (s + k))
      × (len < dirsiz → copy_name path s len name len ≡ 0)
unfolding copy_name put_bytes
copy_name_lem path s len name = elim (Bool-cases (leb dirsiz len)) [
  | inl e ↦ rw e (λ k lk ll. ground arith, λ lt. absurd (ground arith))
  | inr e ↦ rw e (λ k lk ll. ground arith, λ lt. ground arith)
]

module _ (path : Bytes) (len fuel i : ℕ) (name : Bytes) (string : IsString path len) (le : i ≤ len)
    (enough : len - i < fuel) where
  at_end : (k : ℕ) → k ≤ len → path k ≡ 0 → k ≡ len
  at_end k l z = elim (Bool-cases (ltb k len)) [
    | inl lt ↦ absurd (string.1 k (ground arith) z)
    | inr ge ↦ ground arith
  ]

  some_bytes :
      (s e : ℕ)
      → (path s == 0) ≡ false
      → is_slash (path s) ≡ false
      → s ≤ e
      → in_element (path e) ≡ false
      → s < e
  some_bytes s e nz sl l h = elim (Bool-cases (s == e)) [
    | inl same ↦
        let f : s ≡ e = ground arith in
        let g : in_element (path s) ≡ false = ap (λ x. in_element (path x)) f ∙ h in
        absurd (ground (arith, nz, sl, g))
    | inr other ↦ ground arith
  ]

  end_of : (e : ℕ) → e ≤ len → in_element (path e) ≡ false → (path e ≡ 47) ⊎ (e ≡ len)
  end_of e l h = elim (Bool-cases (path e == 47)) [
    | inl slash ↦ inl (ground arith)
    | inr other ↦ inr (at_end e l (ground (arith, h, other)))
  ]

  -- The slashes, the element and the slashes behind it.
  parts :
      (s e j : ℕ)
      → s ≤ len
      → e ≤ len
      → j ≤ len
      → Skipped is_slash path i s
      → Skipped in_element path s e
      → Skipped is_slash path e j
      → Skipelem path len i name
          (if path s == 0 then none else some (j, copy_name path s (e - s) name))
  parts s e j ls le' lj (lo, slashes, at_s) (mid, inside, at_e) (hi, behind, at_j) =
      elim (Bool-cases (path s == 0)) [
        | inl z ↦
            rw z (λ k l u. ground (arith, slashes k l (ground (arith, at_end s ls (ground arith)))))
        | inr nz ↦ rw nz (
          s,
          e,
          lo,
          some_bytes s e nz at_s mid at_e,
          hi,
          lj,
          λ k l u. ground (arith, slashes k l u),
          λ k l u. (λ x. ground (arith, inside k l u, x), λ x. ground (arith, inside k l u, x)),
          end_of e le' at_e,
          λ k l u. ground (arith, behind k l u),
          λ x. ground (arith, at_j, x),
          (copy_name_lem path s (e - s) name).0,
          (copy_name_lem path s (e - s) name).1,
        )
      ]

  -- In a NUL-terminated path, with enough rounds, `skipelem` returns 0 only if nothing but slashes is
  -- left. Otherwise it passes the slashes, then an element of one byte at least without slashes, which a slash or
  -- the end of the string ends, and the slashes behind it; the name is the element's first
  -- DIRSIZ bytes, with a NUL behind a shorter one. What it returns lies in the string and starts with no slash.
  pub skipelem_lem : Skipelem path len i name (skipelem fuel path i name)
  unfolding skipelem
  skipelem_lem =
      let (ls, hs) = skip-Skipped is_slash fuel path i len (ground (arith, string.0)) le enough in
      let s = skip is_slash fuel path i in
      let (le', he) =
        skip-Skipped in_element fuel path s len (ground (arith, string.0)) ls
          (ground (arith, hs.0)) in
      let e = skip in_element fuel path s in
      let (lj, hj) =
        skip-Skipped is_slash fuel path e len (ground (arith, string.0)) le'
          (ground (arith, hs.0, he.0)) in
      parts s e (skip is_slash fuel path e) ls le' lj hs he hj
