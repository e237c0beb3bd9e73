-- ===== src/Args/Bounds.antt =====
-- A system call's arguments lie in the memory of the process (xv6-public/syscall.c).
use ele.Base.{
  ℕ, zero, suc, ◌+◌, ◌-◌, ◌%◌, ◌^◌, ◌≤◌, ◌<◌, ◌≡◌, refl, ◌≢◌, ◌||◌, Option, none, some, arith, ◌==◌,
  leb, ltb, ◌⊎◌, inl, inr, Bool-cases,
}
use ele.Args.{word_at, fetchint, scan, fetchstr, argint, check_block, argptr}

-- What `fetchint` may return for an address.
abbrev pub Fetched : (ℕ → ℕ) → ℕ → ℕ → Option ℕ → Type 0
Fetched mem sz addr none = sz < addr + 4
Fetched mem sz addr (some v) = (addr + 4 ≤ sz) × (v ≡ word_at mem addr)

-- In a process of at most 2 GB, `fetchint` reads a word exactly if all four of its bytes lie in the
-- memory of the process, and fails for any other address.
pub fetchint_lem :
    (mem : ℕ → ℕ) (sz addr : ℕ)
    → sz ≤ 2 ^ 31
    → addr < 2 ^ 32
    → Fetched mem sz addr (fetchint mem sz addr)
unfolding fetchint
fetchint_lem mem sz addr small word =
    elim (Bool-cases (leb sz addr || ltb sz ((addr + 4) % 2 ^ 32))) [
      | inl e ↦ rw e (ground arith)
      | inr e ↦ rw e (ground arith, refl)
    ]

-- What `argptr` may return for a block of `size` bytes at an argument.
abbrev pub InBlock : ℕ → ℕ → Option ℕ → Option ℕ → Type 0
InBlock sz size none none = Unit
InBlock sz size none (some p) = ⊥
InBlock sz size (some i) none = (2 ^ 31 ≤ size) ⊎ ((sz ≤ i) ⊎ (sz < i + size))
InBlock sz size (some i) (some p) = (p ≡ i) × (size < 2 ^ 31) × (p < sz) × (p + size ≤ sz)

check_block-InBlock :
    (sz size : ℕ) (arg : Option ℕ) → sz ≤ 2 ^ 31 → InBlock sz size arg (check_block sz size arg)
unfolding check_block
check_block-InBlock sz size none small = tt
check_block-InBlock sz size (some i) small =
    elim (Bool-cases (leb (2 ^ 31) size || (leb sz i || ltb sz ((i + size) % 2 ^ 32)))) [
      | inl e ↦ rw e (ground arith)
      | inr e ↦ rw e (refl, ground arith, ground arith, ground arith)
    ]

-- In a process of at most 2 GB, `argptr` accepts a pointer exactly if its size is not negative, it
-- lies in the memory of the process, and so does the block of `size` bytes that it points to,
-- whatever the user has put on the stack. It fails without an argument.
pub argptr_lem :
    (mem : ℕ → ℕ) (sz esp n size : ℕ)
    → sz ≤ 2 ^ 31
    → InBlock sz size (argint mem sz esp n) (argptr mem sz esp n size)
unfolding argptr
argptr_lem mem sz esp n size small = check_block-InBlock sz size (argint mem sz esp n) small

-- What a scan of `left` bytes from `s` finds.
abbrev pub Scanned : (ℕ → ℕ) → ℕ → ℕ → ℕ → Option ℕ → Type 0
Scanned mem s left n none = (j : ℕ) → j < left → mem (s + j) ≢ 0
Scanned mem s left n (some m) =
    (d : ℕ) × (m ≡ n + d) × (d < left) × (mem (s + d) ≡ 0) × ((j : ℕ) → j < d → mem (s + j) ≢ 0)

Scanned-next :
    (mem : ℕ → ℕ) (s left n : ℕ) (r : Option ℕ)
    → mem s ≢ 0
    → Scanned mem (s + 1) left (n + 1) r
    → Scanned mem s (suc left) n r
Scanned-next mem s left n none some_byte h = λ j l. all j l
  where
    all : (j : ℕ) → j < suc left → mem (s + j) ≢ 0
    all zero l = ground arith
    all (suc j) l = ground (arith, h j)
Scanned-next mem s left n (some m) some_byte (d, e, l, z, before) =
    (suc d, omega arith, omega arith, ground arith, λ j b. earlier j b)
  where
    earlier : (j : ℕ) → j < suc d → mem (s + j) ≢ 0
    earlier zero b = ground arith
    earlier (suc j) b = ground (arith, before j)

scan-Scanned : (mem : ℕ → ℕ) (s left n : ℕ) → Scanned mem s left n (scan mem s left n)
unfolding scan
scan-Scanned mem s zero n = λ j l. absurd (omega arith)
scan-Scanned mem s (suc left) n = elim (Bool-cases (mem s == 0)) [
  | inl z ↦ rw z (0, omega arith, omega arith, ground arith, λ j b. absurd (omega arith))
  | inr nz ↦
      rw nz (Scanned-next mem s left n _ (ground arith) (scan-Scanned mem (s + 1) left (n + 1)))
]

-- `fetchstr` returns the length of the string at an address in the memory of the process, up to its
-- first NUL, which lies in the memory too. It fails for an address outside, and for a string
-- that has no NUL before the end of the memory.
pub fetchstr_lem :
    (mem : ℕ → ℕ) (sz addr : ℕ) → Scanned mem addr (sz - addr) 0 (fetchstr mem sz addr)
unfolding fetchstr
fetchstr_lem mem sz addr = elim (Bool-cases (leb sz addr)) [
  | inl e ↦ rw e (λ j l. absurd (ground arith))
  | inr e ↦ rw e (scan-Scanned mem addr (sz - addr) 0)
]
