-- ===== src/Bcache/Tests.antt =====
-- The theorems on the buffer cache (xv6-public/bio.c) at three buffers.
use ele.Base.{ℕ, zero, suc, ◌≡◌, refl, ◌≢◌, true, false, some, List, [], ◌∷◌, arith, get_elem?}
use ele.Bcache.{Buf, brelse}
use ele.Bcache.Unique.{IsUnique, Brelse, brelse_lem}

abbrev fresh : ℕ → Buf
fresh n = record {
  slot = n;
  dev = 0;
  blockno = 0;
  refcnt = 0;
  valid = false;
  dirty = false;
  held = false;
}

abbrev busy : Buf
busy = record {
  slot = 2;
  dev = 1;
  blockno = 7;
  refcnt = 1;
  valid = true;
  dirty = true;
  held = true;
}

-- Block 7 is in use; the others have not been used.
abbrev cache : List Buf
cache = fresh 0 ∷ busy ∷ fresh 1 ∷ []

cache-IsUnique : IsUnique cache
cache-IsUnique = λ i j b c g h. unique i j b c g h
  where
    unique :
        (i j : ℕ) (b c : Buf)
        → get_elem? cache i ≡ some b
        → get_elem? cache j ≡ some c
        → b.dev ≢ 0
        → b.dev ≡ c.dev
        → b.blockno ≡ c.blockno
        → i ≡ j
    unique zero j b c g h nd ed eb = absurd (ground arith)
    unique (suc (suc zero)) j b c g h nd ed eb = absurd (ground arith)
    unique (suc (suc (suc i))) j b c g h nd ed eb = cc
    unique (suc zero) zero b c g h nd ed eb = absurd (ground arith)
    unique (suc zero) (suc zero) b c g h nd ed eb = refl
    unique (suc zero) (suc (suc zero)) b c g h nd ed eb = absurd (ground arith)
    unique (suc zero) (suc (suc (suc j))) b c g h nd ed eb = cc

brelse_lem_example : Brelse cache 1 busy (brelse 1 cache)
brelse_lem_example = brelse_lem cache 1 busy cache-IsUnique refl (omega arith) (omega arith)
