-- ===== src/Kalloc/Range.antt =====
-- `freerange` (xv6-public/kalloc.c) frees every page of a range.
use ele.Base.{
  ℕ, zero, suc, ◌+◌, ◌*◌, ◌%◌, ◌≤◌, ◌<◌, ◌≡◌, refl, ◌≢◌, ◌↔◌, true, Option, some, List, [], ◌∷◌,
  arith, ◌==◌, leb, ok, Result, Bool-cases, ◌⊎◌, inl, inr, All,
}
use ele.Kalloc.{
  pgsize, kernbase, phystop, pgroundup, Kmem, is_page, kfree, freerange_loop, freerange,
}
use ele.Kalloc.FreeList.{IsFree, kfree_lem}

abbrev pub IsIn : ℕ → List ℕ → Type 0
IsIn q [] = ⊥
IsIn q (p ∷ pages) = (q ≡ p) ⊎ IsIn q pages

-- A page that lies between two addresses.
abbrev pub IsPageOf : ℕ → ℕ → ℕ → Type 0
IsPageOf vstart vend q = (q % pgsize ≡ 0) × (vstart ≤ q) × (q + pgsize ≤ vend)

-- After the pages from `p` to `vend` are freed.
abbrev pub Freed : ℕ → ℕ → List ℕ → Option (Result Kmem) → Type 0
Freed p vend pages r =
    (k' : Kmem) × (pages' : List ℕ) × (r ≡ some (ok k'))
    × IsFree k' pages'
    × ((q : ℕ) → IsIn q pages' ↔ (IsIn q pages ⊎ IsPageOf p vend q))

-- No free page lies between `p` and `vend`.
abbrev pub IsApart : ℕ → ℕ → List ℕ → Type 0
IsApart p vend pages = All (λ q. (q < p) ⊎ (vend ≤ q)) pages

IsApart-next :
    (p vend : ℕ) (pages : List ℕ) → IsApart p vend pages → IsApart (p + pgsize) vend pages
IsApart-next p vend [] a = tt
IsApart-next p vend (q ∷ pages) (inl l, a) = (inl (omega arith), IsApart-next p vend pages a)
IsApart-next p vend (q ∷ pages) (inr l, a) = (inr l, IsApart-next p vend pages a)

IsApart-fresh :
    (p vend : ℕ) (pages : List ℕ) → p < vend → IsApart p vend pages → All (λ q. p ≢ q) pages
IsApart-fresh p vend [] l a = tt
IsApart-fresh p vend (q ∷ pages) l (inl b, a) = (omega arith, IsApart-fresh p vend pages l a)
IsApart-fresh p vend (q ∷ pages) l (inr b, a) = (omega arith, IsApart-fresh p vend pages l a)

module _ (end_ vend : ℕ) (top : vend ≤ kernbase + phystop) where
  loop-next :
      (fuel p : ℕ) (k k' : Kmem)
      → leb (p + pgsize) vend ≡ true
      → kfree end_ p k ≡ ok k'
      → freerange_loop (suc fuel) end_ p vend k ≡ freerange_loop fuel end_ (p + pgsize) vend k'
  unfolding freerange_loop
  loop-next fuel p k k' more e = rw (more, e)

  Freed-cons :
      (p : ℕ) (pages : List ℕ) (r : Option (Result Kmem))
      → p % pgsize ≡ 0
      → p + pgsize ≤ vend
      → Freed (p + pgsize) vend (p ∷ pages) r
      → Freed p vend pages r
  Freed-cons p pages r al room (k', pages', e, f, m) =
      (k', pages', e, f, λ q. (λ h. to q ((m q).0 h), λ h. (m q).1 (from q h)))
    where
      to :
          (q : ℕ)
          → IsIn q (p ∷ pages) ⊎ IsPageOf (p + pgsize) vend q
          → IsIn q pages ⊎ IsPageOf p vend q
      to q (inl (inl e)) = inr (ground arith, omega arith, omega arith)
      to q (inl (inr h)) = inl h
      to q (inr (a, l, u)) = inr (a, omega arith, u)

      from :
          (q : ℕ)
          → IsIn q pages ⊎ IsPageOf p vend q
          → IsIn q (p ∷ pages) ⊎ IsPageOf (p + pgsize) vend q
      from q (inl h) = inl (inr h)
      from q (inr (a, l, u)) = elim (Bool-cases (q == p)) [
        | inl e ↦ inl (inl (ground arith))
        | inr e ↦ let ne : q ≢ p = ground arith in inr (a, omega (arith, a, al), u)
      ]

  loop-Freed :
      (fuel p : ℕ) (k : Kmem) (pages : List ℕ)
      → IsFree k pages
      → p % pgsize ≡ 0
      → end_ ≤ p
      → kernbase ≤ p
      → vend < p + fuel * pgsize
      → 0 < fuel
      → IsApart p vend pages
      → Freed p vend pages (freerange_loop fuel end_ p vend k)
  unfolding freerange_loop
  loop-Freed zero p k pages f al low kern enough some_fuel apart = absurd (omega arith)
  loop-Freed (suc fuel) p k pages f al low kern enough some_fuel apart =
      elim (Bool-cases (leb (p + pgsize) vend)) [
        | inr done ↦ rw done (k, pages, refl, f, λ q. (λ h. inl h, λ h. stay (ground arith) q h))
        | inl more ↦
            let page : is_page end_ p ≡ true = ground arith in
            let (k', e, f', _) =
              kfree_lem end_ p k pages f page (IsApart-fresh p vend pages (ground arith) apart) in
            rw (loop-next fuel p k k' more e) (
              Freed-cons p pages _ al (ground arith) (
                loop-Freed fuel (p + pgsize) k' (p ∷ pages) f' (omega arith) (omega arith)
                  (omega arith) (ground arith) (ground arith)
                  (inl (omega arith), IsApart-next p vend pages apart)))
      ]
    where
      stay : vend < p + pgsize → (q : ℕ) → IsIn q pages ⊎ IsPageOf p vend q → IsIn q pages
      stay l q (inl h) = h
      stay l q (inr (a, b, u)) = absurd (omega arith)

  Freed-start :
      (vstart p : ℕ) (pages : List ℕ) (r : Option (Result Kmem))
      → vstart ≤ p
      → p < vstart + pgsize
      → p % pgsize ≡ 0
      → Freed p vend pages r
      → Freed vstart vend pages r
  Freed-start vstart p pages r low near al (k', pages', e, f, m) =
      (k', pages', e, f, λ q. (λ h. to q ((m q).0 h), λ h. (m q).1 (from q h)))
    where
      to : (q : ℕ) → IsIn q pages ⊎ IsPageOf p vend q → IsIn q pages ⊎ IsPageOf vstart vend q
      to q (inl h) = inl h
      to q (inr (a, l, u)) = inr (a, omega arith, u)

      from : (q : ℕ) → IsIn q pages ⊎ IsPageOf vstart vend q → IsIn q pages ⊎ IsPageOf p vend q
      from q (inl h) = inl h
      from q (inr (a, l, u)) = inr (a, omega arith, u)

  IsApart-later :
      (vstart p : ℕ) (pages : List ℕ)
      → vstart ≤ p
      → IsApart vstart vend pages
      → IsApart p vend pages
  IsApart-later vstart p [] l a = tt
  IsApart-later vstart p (q ∷ pages) l (inl b, a) =
      (inl (omega arith), IsApart-later vstart p pages l a)
  IsApart-later vstart p (q ∷ pages) l (inr b, a) = (inr b, IsApart-later vstart p pages l a)

  -- Take a range of physical memory above the kernel in which no page is free yet. With fuel for its
  -- pages and one more round, `freerange` ends without a panic, the free list is a chain of different
  -- pages again, and the free pages are those that were free before and every page that lies
  -- wholly in the range.
  pub freerange_lem :
      (fuel vstart : ℕ) (k : Kmem) (pages : List ℕ)
      → IsFree k pages
      → end_ ≤ vstart
      → kernbase ≤ vstart
      → vstart ≤ vend
      → vend < vstart + fuel * pgsize
      → IsApart vstart vend pages
      → Freed vstart vend pages (freerange fuel end_ vstart vend k)
  unfolding freerange
  freerange_lem fuel vstart k pages f low kern le enough apart =
      let up : vstart ≤ pgroundup vstart = omega arith in
      let al : pgroundup vstart % pgsize ≡ 0 = omega arith in
      Freed-start vstart (pgroundup vstart) pages _ up (omega arith) al (
        loop-Freed fuel (pgroundup vstart) k pages f al (omega arith) (omega arith) (omega arith)
          (omega arith) (IsApart-later vstart (pgroundup vstart) pages up apart))
