-- ===== src/Str/Tests.antt =====
-- The theorems on string.c (xv6-public/string.c) at small strings.
use ele.Base.{ℕ, zero, suc, ◌<◌, ◌≡◌, refl, ◌≢◌, some, arith}
use ele.Str.{Bytes, put, Memory, strlen, memmove}
use ele.Str.Length.{strlen_lem}
use ele.Str.Move.{moved, memmove-moved}

abbrev ab : Bytes
ab = put 97 (put 98 (λ _. 0))

abbrev abc : Bytes
abc = put 97 (put 98 (put 99 (λ _. 0)))

abbrev ones : Bytes
ones _ = 1

abbrev counting : Memory
counting i = i

memmove-moved_example : memmove counting 12 10 5 14 ≡ moved counting 12 10 5 14
memmove-moved_example = memmove-moved counting 12 10 5 14

strlen_lem_example : strlen 10 ab ≡ some 2
strlen_lem_example = strlen_lem 10 ab 2 (omega arith) refl (λ j l e. before j l e)
  where
    before : (j : ℕ) → j < 2 → ab j ≢ 0
    before zero l e = omega arith
    before (suc zero) l e = omega arith
    before (suc (suc j)) l e = omega arith
