-- ===== src/Kalloc/FreeList.antt =====
-- The free list of the allocator (xv6-public/kalloc.c) as a set of pages.
use mathlib.Core.Path.{subst}
use ele.Base.{
  ℕ, ◌+◌, ◌%◌, ◌≤◌, ◌<◌, ◌≡◌, refl, ap, ◌≢◌, true, false, Option, none, some, List, [], ◌∷◌, arith,
  ◌==◌, update, ok, All,
}
use ele.Kalloc.{pgsize, Kmem, junk, is_page, kfree, kalloc}

-- The free list starts at `p`, goes through the pages, and ends in the null pointer.
abbrev pub Chain : (ℕ → ℕ) → ℕ → List ℕ → Type 0
Chain mem p [] = p ≡ 0
Chain mem p (q ∷ pages) = (p ≡ q) × (p ≢ 0) × (p % pgsize ≡ 0) × Chain mem (mem p) pages

abbrev pub NoDup : List ℕ → Type 0
NoDup [] = Unit
NoDup (p ∷ pages) = All (λ q. p ≢ q) pages × NoDup pages

-- The free pages, each once.
pub record IsFree (k : Kmem) (pages : List ℕ) : Type 0 where
  pub chain : Chain k.mem k.freelist pages
  pub distinct : NoDup pages

-- A write that leaves the first words of the pages alone.
Chain-frame :
    (mem mem' : ℕ → ℕ) (p : ℕ) (pages : List ℕ)
    → Chain mem p pages
    → All (λ q. mem' q ≡ mem q) pages
    → Chain mem' p pages
Chain-frame mem mem' p [] c same = c
Chain-frame mem mem' p (q ∷ pages) (e, n, al, c) (s, same) = (
  e,
  n,
  al,
  subst (λ a. Chain mem' a pages) (ground arith) (Chain-frame mem mem' (mem p) pages c same),
)

Chain-aligned :
    (mem : ℕ → ℕ) (p : ℕ) (pages : List ℕ) → Chain mem p pages → All (λ q. q % pgsize ≡ 0) pages
Chain-aligned mem p [] c = tt
Chain-aligned mem p (q ∷ pages) (e, n, al, c) = (ground arith, Chain-aligned mem (mem p) pages c)

-- Freeing page `v` does not touch the other pages.
page-frame :
    (mem : ℕ → ℕ) (v x : ℕ) (pages : List ℕ)
    → v % pgsize ≡ 0
    → All (λ q. q % pgsize ≡ 0) pages
    → All (λ q. v ≢ q) pages
    → All (λ q. update (junk mem v) v x q ≡ mem q) pages
page-frame mem v x [] al als nes = tt
page-frame mem v x (q ∷ pages) al (alq, als) (ne, nes) =
    (ground arith, page-frame mem v x pages al als nes)

-- `kfree` of a page that is not free adds it to the free pages: it ends without a panic, the free
-- list is a chain of different pages again, and memory outside the page is unchanged.
pub kfree_lem :
    (end_ v : ℕ) (k : Kmem) (pages : List ℕ)
    → IsFree k pages
    → is_page end_ v ≡ true
    → All (λ q. v ≢ q) pages
    → (k' : Kmem) × (kfree end_ v k ≡ ok k')
      × IsFree k' (v ∷ pages)
      × ((a : ℕ) → (v ≤ a → a < v + pgsize → ⊥) → k'.mem a ≡ k.mem a)
unfolding kfree
kfree_lem end_ v k pages f page fresh = (
  record { mem = update (junk k.mem v) v k.freelist; freelist = v },
  simp page,
  record { chain = (refl, nonnull, aligned, tail); distinct = (fresh, f.distinct) },
  λ a out. ground (arith, out),
)
  where
    nonnull : v ≢ 0
    nonnull = ground arith

    aligned : v % pgsize ≡ 0
    aligned = ground arith

    tail : Chain (update (junk k.mem v) v k.freelist) (update (junk k.mem v) v k.freelist v) pages
    tail =
        subst (λ a. Chain (update (junk k.mem v) v k.freelist) a pages) (ground arith)
          (Chain-frame k.mem _ k.freelist pages f.chain (
            page-frame k.mem v k.freelist pages aligned
              (Chain-aligned k.mem k.freelist pages f.chain) fresh))

-- The outcomes of `kalloc`.
abbrev pub Allocates : List ℕ → Option ℕ → Kmem → Kmem → Type 0
Allocates [] r k k' = (r ≡ none) × (k' ≡ k)
Allocates (p ∷ pages) r k k' =
    (r ≡ some p) × IsFree k' pages × All (λ q. p ≢ q) pages × (k'.mem ≡ k.mem)

-- `kalloc` takes a page off the free pages, which is not free any more, and changes no memory; it
-- fails, and changes nothing, exactly when no page is free.
pub kalloc_lem :
    (k : Kmem) (pages : List ℕ) → IsFree k pages → Allocates pages (kalloc k).0 k (kalloc k).1
unfolding kalloc
kalloc_lem k [] f =
    let null : (k.freelist == 0) ≡ true = ground (arith, f.chain) in simp null (refl, refl)
kalloc_lem k (p ∷ pages) f =
    let page : (k.freelist == 0) ≡ false = ground (arith, f.chain.1) in
    simp page (
      ap some (f.chain.0),
      record { chain = f.chain.3; distinct = f.distinct.1 },
      f.distinct.0,
      refl,
    )
