-- ===== src/File/Entries.antt =====
-- What `filealloc` (xv6-public/file.c) hands out.
use native.Mathlib.Nat.{zero-add}
use ele.Base.{
  ℕ, zero, suc, ◌+◌, ◌^◌, ◌<◌, ◌≡◌, refl, ◌≢◌, Option, none, some, List, [], ◌∷◌, arith, ◌==◌, set,
  get_elem?, length, Bool-cases, Option-cases, inl, inr, get_elem?-lt, update, length-set,
  get_elem?-exists,
}
use ele.Proc.Table.{get_elem?-set}
use ele.File.{File, free_file, filealloc, with_ref}
use ele.File.Counts.{uses, IsCounted}

free_file-some :
    (fs : List File) (k j : ℕ)
    → free_file fs k ≡ some j
    → (d : ℕ) × (f : File) × (j ≡ k + d) × (get_elem? fs d ≡ some f) × (f.ref ≡ 0)
unfolding free_file
free_file-some [] k j h = cc
free_file-some (f ∷ fs) k j h = elim (Bool-cases (f.ref == 0)) [
  | inl e ↦ (0, f, ground arith, refl, ground arith)
  | inr e ↦
      let (d, g, at, here, zero_) = free_file-some fs (k + 1) j (ground arith) in
      (suc d, g, omega arith, here, zero_)
]

free_file-none :
    (fs : List File) (k : ℕ)
    → free_file fs k ≡ none
    → (d : ℕ) (f : File) → get_elem? fs d ≡ some f
    → f.ref ≢ 0
unfolding free_file
free_file-none [] k h d f g = cc
free_file-none (x ∷ fs) k h zero f g = ground arith
free_file-none (x ∷ fs) k h (suc d) f g = elim (Bool-cases (x.ref == 0)) [
  | inl e ↦ absurd (ground arith)
  | inr e ↦ free_file-none fs (k + 1) (ground arith) d f g
]

module _ (files : List File) (fds : List (Option ℕ)) (others : ℕ → ℕ)
    (c : IsCounted files fds others) (small : length fds < 2 ^ 30) where
  -- The outcomes of `filealloc`. A new entry is a reference that no descriptor holds yet.
  abbrev pub Allocates : List File → Option ℕ → Type 0
  Allocates files' none =
      (files' ≡ files) × ((i : ℕ) → i < length files → 0 < uses i fds + others i)
  Allocates files' (some i) =
      (uses i fds + others i ≡ 0)
      × ((j : ℕ) → i ≢ j → get_elem? files' j ≡ get_elem? files j)
      × IsCounted files' fds (update others i 1)

  filealloc-none : free_file files 0 ≡ none → filealloc files ≡ (files, none)
  unfolding filealloc
  filealloc-none e = rw (e, filealloc)

  filealloc-some :
      (i : ℕ) (f : File)
      → free_file files 0 ≡ some i
      → get_elem? files i ≡ some f
      → filealloc files ≡ (set files i (with_ref 1 f), some i)
  unfolding filealloc
  filealloc-some i f e here = rw (e, filealloc) (rw (here, filealloc))

  filealloc-result :
      (files' : List File) (r : Option ℕ)
      → filealloc files ≡ (files', r)
      → Allocates files' r
      → Allocates (filealloc files).0 (filealloc files).1
  filealloc-result files' r e a = rw e a

  -- With every reference counted, `filealloc` hands out an entry to which no descriptor and nothing
  -- else refers, changes no other entry, and every reference, the new one included, is counted
  -- again; it fails, and changes nothing, only when every entry is referred to.
  pub filealloc_lem : Allocates (filealloc files).0 (filealloc files).1
  filealloc_lem = elim (Option-cases (free_file files 0)) [
    | inl full ↦ filealloc-result files none (filealloc-none full) (refl, λ i l. used i l full)
    | inr (i, e) ↦
        let (d, f, at, here, zero_) = free_file-some files 0 i e in
        let here_i : get_elem? files i ≡ some f = rw (at, zero-add) here in
        let lt = get_elem?-lt files i here_i in
        let count = c.counted i f here_i in
        filealloc-result (set files i (with_ref 1 f)) (some i) (filealloc-some i f e here_i) (
          omega arith,
          λ j ne. ground (arith, get_elem?-set files i j (with_ref 1 f) lt),
          record {
            counted =
                λ j g h. ground (arith, get_elem?-set files i j (with_ref 1 f) lt, c.counted j g);
            named = λ k j h. rw (length-set files i (with_ref 1 f)) (c.named k j h);
            few = λ j. ground (arith, c.few j);
          },
        )
  ]
    where
      used : (i : ℕ) → i < length files → free_file files 0 ≡ none → 0 < uses i fds + others i
      used i l full =
          let (f, here) = get_elem?-exists files i l in
          ground (arith, c.counted i f here, free_file-none files 0 full i f here)
