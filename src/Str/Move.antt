-- ===== src/Str/Move.antt =====
-- `memmove` (xv6-public/string.c) copies correctly when the two regions overlap.
use ele.Base.{ℕ, zero, suc, ◌+◌, ◌-◌, ◌≤◌, ◌≡◌, ◌⊎◌, ◌&&◌, arith, leb, ltb, if◌then◌else◌, update}
use ele.Str.{Memory, memmove_up, memmove_down, memmove}

-- The copy as one assignment of the whole region.
abbrev pub moved : Memory → ℕ → ℕ → ℕ → Memory
moved m dst src n i = if leb dst i && ltb i (dst + n) then m (src + (i - dst)) else m i

memmove_down-moved :
    (m : Memory) (dst src n i : ℕ) → src ≤ dst → memmove_down m dst src n i ≡ moved m dst src n i
unfolding memmove_down
memmove_down-moved m dst src zero i h = ground arith
memmove_down-moved m dst src (suc n) i h =
    ground (arith, memmove_down-moved (update m (dst + n) (m (src + n))) dst src n i)

memmove_up-moved :
    (m : Memory) (dst src n i : ℕ)
    → (dst ≤ src) ⊎ (src + n ≤ dst)
    → memmove_up m dst src n i ≡ moved m dst src n i
unfolding memmove_up
memmove_up-moved m dst src zero i h = ground arith
memmove_up-moved m dst src (suc n) i h =
    ground (arith, memmove_up-moved (update m dst (m src)) (dst + 1) (src + 1) n i)

-- After `memmove(dst, src, n)` each byte of the destination is the byte that the source had
-- before, however the two regions overlap, and every other byte is unchanged.
pub memmove-moved : (m : Memory) (dst src n i : ℕ) → memmove m dst src n i ≡ moved m dst src n i
unfolding memmove
memmove-moved m dst src n i =
    ground (arith, memmove_down-moved m dst src n i, memmove_up-moved m dst src n i)
