-- ===== src/Args.antt =====
-- The arguments of system calls (xv6-public/syscall.c). `mem` is the user memory of the process, a
-- byte at each address; `sz` is `curproc->sz` and `esp` the stack pointer in its trap frame. An int
-- is its 32-bit pattern: the source's `size < 0` is a pattern of at least 2 ^ 31.
pub mod Bounds
mod Tests
use ele.Base.{
  ℕ, zero, suc, ◌+◌, ◌-◌, ◌*◌, ◌%◌, ◌^◌, Bool, true, false, ◌||◌, Option, none, some, ◌==◌, leb,
  ltb, if◌then◌else◌,
}

-- `*(int*)addr`, in the byte order of the machine
abbrev pub word_at : (ℕ → ℕ) → ℕ → ℕ
word_at mem addr =
    mem addr + 2 ^ 8 * mem (addr + 1) + 2 ^ 16 * mem (addr + 2) + 2 ^ 24 * mem (addr + 3)

unfoldable pub fetchint : (ℕ → ℕ) → ℕ → ℕ → Option ℕ
fetchint mem sz addr =
    if leb sz addr || ltb sz ((addr + 4) % 2 ^ 32) then none else some (word_at mem addr)

-- The loop of `fetchstr` over the `left` bytes before `ep`; `n` is `s - *pp`.
unfoldable pub scan : (ℕ → ℕ) → ℕ → ℕ → ℕ → Option ℕ
scan mem s zero n = none
scan mem s (suc left) n =
    let rest = scan mem (s + 1) left (n + 1) in if mem s == 0 then some n else rest

-- The length of the string; `*pp` is `addr`.
unfoldable pub fetchstr : (ℕ → ℕ) → ℕ → ℕ → Option ℕ
unfolding scan
fetchstr mem sz addr = if leb sz addr then none else scan mem addr (sz - addr) 0

unfoldable pub argint : (ℕ → ℕ) → ℕ → ℕ → ℕ → Option ℕ
unfolding fetchint
argint mem sz esp n = fetchint mem sz ((esp + 4 + 4 * n) % 2 ^ 32)

-- The test of `argptr` on the argument `i`.
unfoldable pub check_block : ℕ → ℕ → Option ℕ → Option ℕ
check_block sz size none = none
check_block sz size (some i) =
    if leb (2 ^ 31) size || (leb sz i || ltb sz ((i + size) % 2 ^ 32)) then none else some i

unfoldable pub argptr : (ℕ → ℕ) → ℕ → ℕ → ℕ → ℕ → Option ℕ
unfolding argint check_block
argptr mem sz esp n size = check_block sz size (argint mem sz esp n)

-- The string's address and its length.
unfoldable pub fetch_arg : (ℕ → ℕ) → ℕ → Option ℕ → Option (ℕ × ℕ)
unfolding fetchstr
fetch_arg mem sz none = none
fetch_arg mem sz (some addr) = elim (fetchstr mem sz addr) [ none ↦ none | some n ↦ some (addr, n) ]

unfoldable pub argstr : (ℕ → ℕ) → ℕ → ℕ → ℕ → Option (ℕ × ℕ)
unfolding argint fetch_arg
argstr mem sz esp n = fetch_arg mem sz (argint mem sz esp n)
