-- ===== src/File/Descriptors.antt =====
-- What `sys_dup`, `sys_close` (xv6-public/sysfile.c) and `filealloc` (xv6-public/file.c) do to the
-- descriptors and the reference counts.
use native.Mathlib.Nat.{zero-add}
use ele.Base.{
  ℕ, ◌+◌, ◌-◌, ◌%◌, ◌^◌, ◌<◌, ◌≡◌, refl, ◌≢◌, true, false, Option, none, some, List, arith, leb,
  ltb, set, get_elem?, Bool-cases, Option-cases, inl, inr, ◌⊎◌, get_elem?-lt, ok, get_elem?-exists,
}
use ele.Base.Int.{ℤ, pos, negsuc}
use ele.Proc.{nofile}
use ele.File.{
  File, fd_none, with_ref, filedup, Closed, shared, last, fileclose, argfd, free_fd, fdalloc,
  sys_dup, sys_close,
}
use ele.File.Counts.{
  uses, IsCounted, uses-set, uses-le, FirstFree, free_fd-some, free_fd-none, moved-IsCounted,
}

-- The argument is descriptor `fd`, which is open on file `i`.
abbrev pub Opens : ℤ → List (Option ℕ) → ℕ → ℕ → Type 0
Opens arg fds fd i = (arg ≡ pos fd) × (fd < nofile) × (get_elem? fds fd ≡ some (some i))

-- The argument is no open descriptor.
abbrev pub IsBad : ℤ → List (Option ℕ) → Type 0
IsBad arg fds = (fd i : ℕ) → Opens arg fds fd i → ⊥

argfd-some :
    (arg : ℤ) (fds : List (Option ℕ)) {fd i : ℕ} → argfd arg fds ≡ some (fd, i) → Opens arg fds fd i
unfolding argfd
argfd-some (negsuc n) fds h = cc
argfd-some (pos n) fds h = elim (Bool-cases (ltb n nofile)) [
  | inr out ↦ absurd (ground arith)
  | inl room ↦ (ground arith, ground arith, ground arith)
]

Opens-argfd :
    (arg : ℤ) (fds : List (Option ℕ)) (fd i : ℕ) → Opens arg fds fd i → argfd arg fds ≡ some (fd, i)
unfolding argfd
Opens-argfd (negsuc n) fds fd i (e, l, g) = cc
Opens-argfd (pos n) fds fd i (e, l, g) = ground arith

argfd-none : (arg : ℤ) (fds : List (Option ℕ)) → argfd arg fds ≡ none → IsBad arg fds
argfd-none arg fds h fd i o = ground (arith, Opens-argfd arg fds fd i o)

module _ (files : List File) (fds : List (Option ℕ)) (others : ℕ → ℕ)
    (c : IsCounted files fds others) where
  -- An open descriptor's file, which has a reference.
  open_file :
      (fd i : ℕ)
      → get_elem? fds fd ≡ some (some i)
      → (f : File) × (get_elem? files i ≡ some f) × (0 < f.ref) × (f.ref + 1 < 2 ^ 32)
  open_file fd i g =
      let (f, here) = get_elem?-exists files i (c.named fd i g) in
      let count = c.counted i f here in
      let one = uses-set i fds fd (some i) none g in
      (f, here, ground arith, ground (arith, uses-le i fds, c.few i))

  filedup-ok :
      (i : ℕ) (f : File)
      → get_elem? files i ≡ some f
      → 0 < f.ref
      → f.ref + 1 < 2 ^ 32
      → filedup i files ≡ ok (set files i (with_ref (f.ref + 1) f))
  unfolding filedup
  filedup-ok i f here some_ref small =
      let positive : leb 1 f.ref ≡ true = ground arith in
      let no_wrap : (f.ref + 1) % 2 ^ 32 ≡ f.ref + 1 = omega arith in simp (here, positive, no_wrap)

  -- The outcomes of `sys_dup`.
  abbrev pub Dups : ℤ → List (Option ℕ) → List File → Option ℕ → Type 0
  Dups arg fds' files' none =
      (fds' ≡ fds) × (files' ≡ files) × (IsBad arg fds ⊎ ((e : ℕ) → get_elem? fds e ≢ some none))
  Dups arg fds' files' (some new) =
      (fd : ℕ) × (i : ℕ) × Opens arg fds fd i
      × FirstFree fds 0 new
      × (fds' ≡ set fds new (some i))
      × IsCounted files' fds' others

  abbrev pub Dup : ℤ → Type 0
  Dup arg =
      (fds' : List (Option ℕ)) × (files' : List File) × (r : Option ℕ) × (sys_dup arg fds files
        ≡ ok (fds', files', r))
      × Dups arg fds' files' r

  sys_dup-new :
      (arg : ℤ) (fd i new : ℕ) (files' : List File)
      → argfd arg fds ≡ some (fd, i)
      → free_fd fds 0 ≡ some new
      → filedup i files ≡ ok files'
      → sys_dup arg fds files ≡ ok (set fds new (some i), files', some new)
  unfolding sys_dup
  sys_dup-new arg fd i new files' a free d = rw (a, sys_dup) (rw (free, fdalloc) (rw d))

  sys_dup-full :
      (arg : ℤ) (fd i : ℕ)
      → argfd arg fds ≡ some (fd, i)
      → free_fd fds 0 ≡ none
      → sys_dup arg fds files ≡ ok (fds, files, none)
  unfolding sys_dup
  sys_dup-full arg fd i a free = rw (a, sys_dup) (rw (free, fdalloc))

  sys_dup-bad : (arg : ℤ) → argfd arg fds ≡ none → sys_dup arg fds files ≡ ok (fds, files, none)
  unfolding sys_dup
  sys_dup-bad arg a = rw (a, sys_dup)

  -- With every reference counted, `sys_dup` ends without a panic. It gives the file of an open
  -- descriptor to the lowest free descriptor too, and every reference is counted again; it fails,
  -- and changes nothing, only for an argument that is no open descriptor or when none is free.
  pub sys_dup_lem : (arg : ℤ) → Dup arg
  sys_dup_lem arg = elim (Option-cases (argfd arg fds)) [
    | inl bad ↦ (fds, files, none, sys_dup-bad arg bad, (refl, refl, inl (argfd-none arg fds bad)))
    | inr ((fd, i), a) ↦ elim (Option-cases (free_fd fds 0)) [
      | inl full ↦ (
        fds,
        files,
        none,
        sys_dup-full arg fd i a full,
        (refl, refl, inr (free_fd-none fds 0 full)),
      )
      | inr (new, free) ↦
          let o = argfd-some arg fds a in
          let (f, here, some_ref, small) = open_file fd i (o.2) in
          let first = free_fd-some fds 0 new free in
          let at_new : get_elem? fds new ≡ some none = rw (first.1, zero-add) (first.2) in
          (
            set fds new (some i),
            set files i (with_ref (f.ref + 1) f),
            some new,
            sys_dup-new arg fd i new _ a free (filedup-ok i f here some_ref small),
            (
              fd,
              i,
              o,
              first,
              refl,
              moved-IsCounted c i f (with_ref (f.ref + 1) f) here new none (some i) at_new
                  (λ j e. ground (arith, get_elem?-lt files i here)) (λ j. omega arith)
                  (ground arith) (λ j ne. ground arith),
            ),
          )
    ]
  ]

  -- What is closed with the last reference: `count` references are left.
  abbrev pub ClosedAs : ℕ → ℕ → Closed → Type 0
  ClosedAs i count shared = 0 < count
  ClosedAs i count (last ff) =
      (count ≡ 0) × ((f : File) × (get_elem? files i ≡ some f) × (ff ≡ with_ref 0 f))

  -- The outcomes of `sys_close`.
  abbrev pub Closes : ℤ → List (Option ℕ) → List File → Option Closed → Type 0
  Closes arg fds' files' none = (fds' ≡ fds) × (files' ≡ files) × IsBad arg fds
  Closes arg fds' files' (some r) =
      (fd : ℕ) × (i : ℕ) × Opens arg fds fd i
      × (fds' ≡ set fds fd none)
      × ClosedAs i (uses i fds' + others i) r
      × IsCounted files' fds' others

  abbrev pub Close : ℤ → Type 0
  Close arg =
      (fds' : List (Option ℕ)) × (files' : List File) × (r : Option Closed) × (sys_close arg fds
          files
        ≡ ok (fds', files', r))
      × Closes arg fds' files' r

  fileclose-shared :
      (i : ℕ) (f : File)
      → get_elem? files i ≡ some f
      → 0 < f.ref
      → ltb 0 (f.ref - 1) ≡ true
      → fileclose i files ≡ ok (set files i (with_ref (f.ref - 1) f), shared)
  unfolding fileclose
  fileclose-shared i f here some_ref more =
      let positive : leb 1 f.ref ≡ true = ground arith in simp (here, positive, more)

  fileclose-last :
      (i : ℕ) (f : File)
      → get_elem? files i ≡ some f
      → 0 < f.ref
      → ltb 0 (f.ref - 1) ≡ false
      → fileclose i files
        ≡ ok (set files i (record f { ref = 0; type_ = fd_none }), last (with_ref 0 f))
  unfolding fileclose
  fileclose-last i f here some_ref more =
      let positive : leb 1 f.ref ≡ true = ground arith in simp (here, positive, more)

  sys_close-open :
      (arg : ℤ) (fd i : ℕ) (files' : List File) (r : Closed)
      → argfd arg fds ≡ some (fd, i)
      → fileclose i files ≡ ok (files', r)
      → sys_close arg fds files ≡ ok (set fds fd none, files', some r)
  unfolding sys_close
  sys_close-open arg fd i files' r a d = rw (a, sys_close) (rw d)

  sys_close-bad : (arg : ℤ) → argfd arg fds ≡ none → sys_close arg fds files ≡ ok (fds, files, none)
  unfolding sys_close
  sys_close-bad arg a = rw (a, sys_close)

  -- With every reference counted, `sys_close` ends without a panic. It frees an open descriptor and
  -- every reference is counted again; it gives up the pipe end or the inode behind the file exactly
  -- when no reference to the file is left. It fails, and changes nothing, only for an argument that
  -- is no open descriptor.
  pub sys_close_lem : (arg : ℤ) → Close arg
  sys_close_lem arg = elim (Option-cases (argfd arg fds)) [
    | inl bad ↦ (fds, files, none, sys_close-bad arg bad, (refl, refl, argfd-none arg fds bad))
    | inr ((fd, i), a) ↦
        let o = argfd-some arg fds a in
        let (f, here, some_ref, small) = open_file fd i (o.2) in
        let count = c.counted i f here in
        let left = uses-set i fds fd (some i) none (o.2) in
        elim (Bool-cases (ltb 0 (f.ref - 1))) [
          | inl more ↦ (
            set fds fd none,
            set files i (with_ref (f.ref - 1) f),
            some shared,
            sys_close-open arg fd i _ shared a (fileclose-shared i f here some_ref more),
            (
              fd,
              i,
              o,
              refl,
              ground arith,
              moved-IsCounted c i f (with_ref (f.ref - 1) f) here fd (some i) none (o.2) (λ j e. cc)
                  (λ j. omega arith) (ground arith) (λ j ne. ground arith),
            ),
          )
          | inr more ↦ (
            set fds fd none,
            set files i (record f { ref = 0; type_ = fd_none }),
            some (last (with_ref 0 f)),
            sys_close-open arg fd i _ (last (with_ref 0 f)) a
                (fileclose-last i f here some_ref more),
            (
              fd,
              i,
              o,
              refl,
              (ground arith, (f, here, refl)),
              moved-IsCounted c i f (record f { ref = 0; type_ = fd_none }) here fd (some i) none
                  (o.2) (λ j e. cc) (λ j. omega arith) (ground arith) (λ j ne. ground arith),
            ),
          )
        ]
  ]
