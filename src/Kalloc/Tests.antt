-- ===== src/Kalloc/Tests.antt =====
-- The theorems on the allocator (xv6-public/kalloc.c) at its first pages.
use ele.Base.{ℕ, refl, [], ◌∷◌, arith}
use ele.Kalloc.{Kmem, kernbase, freerange}
use ele.Kalloc.FreeList.{IsFree}
use ele.Kalloc.Range.{Freed, freerange_lem}

abbrev no_pages : Kmem
no_pages = record { mem = λ _. 0; freelist = 0 }

abbrev page : ℕ
page = 2147487744

abbrev one_page : Kmem
one_page = record { mem = λ _. 0; freelist = page }

no_pages-IsFree : IsFree no_pages []
no_pages-IsFree = record { chain = refl; distinct = tt }

one_page-IsFree : IsFree one_page (page ∷ [])
one_page-IsFree = record { chain = (refl, omega arith, omega arith, refl); distinct = (tt, tt) }

freerange_lem_example :
    Freed 2147483700 2147500000 [] (freerange 4 kernbase 2147483700 2147500000 no_pages)
freerange_lem_example =
    freerange_lem kernbase 2147500000 (omega arith) 4 2147483700 no_pages [] no_pages-IsFree
      (omega arith) (omega arith) (omega arith) (omega arith) tt
