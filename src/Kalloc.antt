-- ===== src/Kalloc.antt =====
-- The allocator of pages (xv6-public/kalloc.c). Kernel memory is the word at each address; a page on
-- the free list holds the address of the next one in its first word, and 0 is the null pointer.
-- `end_` is the address `end` of the linker script. kmem.lock is held for the whole of an operation.
pub mod FreeList
pub mod Range
mod Tests
use ele.Base.{
  ℕ, zero, suc, ◌+◌, ◌-◌, ◌*◌, ◌/◌, ◌%◌, ◌^◌, Bool, true, false, ◌&&◌, ◌||◌, not, Option, none,
  some, ◌==◌, leb, ltb, if◌then◌else◌, update, Result, ok, panic, ◌>>=◌, ◌>>◌, assert,
}

abbrev pub pgsize : ℕ
pgsize = 4096

abbrev pub kernbase : ℕ
kernbase = 2147483648

abbrev pub phystop : ℕ
phystop = 234881024

-- `V2P`, on uints
abbrev pub v2p : ℕ → ℕ
v2p v = (v + 2 ^ 32 - kernbase) % 2 ^ 32

-- `PGROUNDUP`, on uints
abbrev pub pgroundup : ℕ → ℕ
pgroundup a = (a + pgsize - 1) % 2 ^ 32 / pgsize * pgsize

pub record Kmem : Type 0 where
  pub mem : ℕ → ℕ
  pub freelist : ℕ

-- `memset(v, 1, PGSIZE)`
abbrev pub junk : (ℕ → ℕ) → ℕ → ℕ → ℕ
junk mem v a = if leb v a && ltb a (v + pgsize) then 16843009 else mem a

-- What `kfree` accepts.
abbrev pub is_page : ℕ → ℕ → Bool
is_page end_ v = (v % pgsize == 0) && (leb end_ v && ltb (v2p v) phystop)

unfoldable pub kfree : ℕ → ℕ → Kmem → Result Kmem
kfree end_ v k =
    assert (is_page end_ v) "kfree"
    >> ok (record { mem = update (junk k.mem v) v k.freelist; freelist = v })

-- The page, or none for the null pointer.
unfoldable pub kalloc : Kmem → Option ℕ × Kmem
kalloc k =
    if k.freelist == 0
    then (none, k)
    else (some k.freelist, record k { freelist = k.mem k.freelist })

-- The loop of `freerange` from `p`, on fuel; none stands for fuel that ran out.
unfoldable pub freerange_loop : ℕ → ℕ → ℕ → ℕ → Kmem → Option (Result Kmem)
freerange_loop zero end_ p vend k = none
freerange_loop (suc fuel) end_ p vend k =
    if leb (p + pgsize) vend
    then elim (kfree end_ p k) [
      | panic s ↦ some (panic s)
      | ok k' ↦ freerange_loop fuel end_ (p + pgsize) vend k'
    ]
    else some (ok k)

unfoldable pub freerange : ℕ → ℕ → ℕ → ℕ → Kmem → Option (Result Kmem)
unfolding freerange_loop
freerange fuel end_ vstart vend k = freerange_loop fuel end_ (pgroundup vstart) vend k
