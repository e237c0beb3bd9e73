-- ===== src/Str.antt =====
-- string.c of the kernel (xv6-public/string.c): the routines on NUL-terminated strings.
-- A `char *` is the function from offsets to bytes (0 to 255); `next p` is `p + 1`. A routine that
-- writes through a pointer returns the bytes that the pointer sees afterwards.
pub mod Compare
pub mod Copy
pub mod Length
pub mod Move
mod Tests
use ele.Base.{
  ℕ, zero, suc, ◌+◌, ◌-◌, Bool, true, false, ◌&&◌, not, Option, none, some, ◌==◌, leb, ltb,
  if◌then◌else◌, update,
}
use ele.Base.Int.{ℤ, pos, sub_ℕ}

abbrev pub Bytes : Type 0
Bytes = ℕ → ℕ

abbrev pub next : Bytes → Bytes
next p i = p (suc i)

-- The bytes that begin with `b` and go on with `p`.
abbrev pub put : ℕ → Bytes → Bytes
put b p zero = b
put b p (suc i) = p i

unfoldable pub strncmp : Bytes → Bytes → ℕ → ℤ
strncmp p q zero = pos 0
strncmp p q (suc n) =
    if not (p 0 == 0) && (p 0 == q 0) then strncmp (next p) (next q) n else sub_ℕ (p 0) (q 0)

unfoldable pub memcmp : Bytes → Bytes → ℕ → ℤ
memcmp p q zero = pos 0
memcmp p q (suc n) = if p 0 == q 0 then memcmp (next p) (next q) n else sub_ℕ (p 0) (q 0)

-- The second loop of `strncpy`.
unfoldable pub strncpy_pad : Bytes → ℕ → Bytes
strncpy_pad s zero = s
strncpy_pad s (suc n) = put 0 (strncpy_pad (next s) n)

-- A count that is not positive is 0 here: nothing is written.
unfoldable pub strncpy : Bytes → Bytes → ℕ → Bytes
unfolding strncpy_pad
strncpy s t zero = s
strncpy s t (suc n) =
    put (t 0) (if t 0 == 0 then strncpy_pad (next s) n else strncpy (next s) (next t) n)

-- The loop of `safestrcpy`, after the first `--n`, and the `*s = 0` behind it.
unfoldable pub safestrcpy_loop : Bytes → Bytes → ℕ → Bytes
safestrcpy_loop s t zero = put 0 (next s)
safestrcpy_loop s t (suc n) =
    put (t 0) (if t 0 == 0 then put 0 (next (next s)) else safestrcpy_loop (next s) (next t) n)

unfoldable pub safestrcpy : Bytes → Bytes → ℕ → Bytes
unfolding safestrcpy_loop
safestrcpy s t zero = s
safestrcpy s t (suc n) = safestrcpy_loop s t n

-- `for(n = 0; s[n]; n++)` on fuel; `none` is a string with no NUL among the bytes looked at.
unfoldable pub strlen_loop : ℕ → Bytes → ℕ → Option ℕ
strlen_loop zero s n = none
strlen_loop (suc fuel) s n =
    let rest = strlen_loop fuel s (n + 1) in if s n == 0 then some n else rest

unfoldable pub strlen : ℕ → Bytes → Option ℕ
unfolding strlen_loop
strlen fuel s = strlen_loop fuel s 0

-- memory, and a copy within it: an address to the byte there
abbrev pub Memory : Type 0
Memory = ℕ → ℕ

unfoldable pub memmove_up : Memory → ℕ → ℕ → ℕ → Memory
memmove_up m dst src zero = m
memmove_up m dst src (suc n) = memmove_up (update m dst (m src)) (dst + 1) (src + 1) n

unfoldable pub memmove_down : Memory → ℕ → ℕ → ℕ → Memory
memmove_down m dst src zero = m
memmove_down m dst src (suc n) = memmove_down (update m (dst + n) (m (src + n))) dst src n

unfoldable pub memmove : Memory → ℕ → ℕ → ℕ → Memory
unfolding memmove_up memmove_down
memmove m dst src n =
    if ltb src dst && ltb dst (src + n) then memmove_down m dst src n else memmove_up m dst src n
