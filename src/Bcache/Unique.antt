-- ===== src/Bcache/Unique.antt =====
-- A block has at most one buffer (xv6-public/bio.c).
use ele.Base.{
  ℕ, zero, suc, ◌+◌, ◌-◌, ◌%◌, ◌^◌, ◌<◌, ◌≡◌, refl, ◌≢◌, true, false, some, List, [], ◌∷◌, arith,
  ◌==◌, if◌then◌else◌, set, get_elem?, get_elem?-lt, get_elem?-set_self, Result, ok, panic,
  Bool-cases, inl, inr, ◌⊎◌, ltb,
}
use ele.Proc.Table.{get_elem?-set}
use ele.Bcache.{Buf, without, release_buf, put_back, brelse}

-- At most one buffer holds a block of a device. The buffers of an unused cache all have the
-- device number 0, which is no device.
abbrev pub IsUnique : List Buf → Type 0
IsUnique bs =
    (i j : ℕ) (b c : Buf)
    → get_elem? bs i ≡ some b
    → get_elem? bs j ≡ some c
    → b.dev ≢ 0
    → b.dev ≡ c.dev
    → b.blockno ≡ c.blockno
    → i ≡ j

module _ (bs : List Buf) (u : IsUnique bs) (i : ℕ) (b v : Buf)
    (here : get_elem? bs i ≡ some b) where
  abbrev at_set : (a : ℕ) → get_elem? (set bs i v) a ≡ (if i == a then some v else get_elem? bs a)
  at_set a = get_elem?-set bs i a v (get_elem?-lt bs i here)

  -- A buffer changes, but not its block.
  set-IsUnique : v.dev ≡ b.dev → v.blockno ≡ b.blockno → IsUnique (set bs i v)
  set-IsUnique same_dev same_block a c x y ga gc some_dev ed eb =
      ground (arith, at_set a, at_set c, u a c x y, u a c b y, u a c x b)

-- The buffer has this block.
abbrev pub Holds : ℕ → ℕ → Buf → Type 0
Holds dev blockno b = (b.dev ≡ dev) × (b.blockno ≡ blockno)

-- Nobody refers to the buffer, and what it holds is on the disk.
abbrev pub IsIdle : Buf → Type 0
IsIdle b = (b.refcnt ≡ 0) × (b.dirty ≡ false)

-- One more reference to the buffer of a block.
pub record Shared (dev blockno : ℕ) (b b' : Buf) : Type 0 where
  pub holds : Holds dev blockno b
  pub holds' : Holds dev blockno b'
  pub one_more : b'.refcnt ≡ (b.refcnt + 1) % 2 ^ 32
  pub same_flags : (b'.valid ≡ b.valid) × (b'.dirty ≡ b.dirty)
  pub same_slot : b'.slot ≡ b.slot
  pub same_lock : b'.held ≡ b.held

-- An idle buffer that is given to a block, whose contents are still to be read.
pub record Recycled (dev blockno : ℕ) (b b' : Buf) : Type 0 where
  pub idle : IsIdle b
  pub holds : Holds dev blockno b'
  pub one : b'.refcnt ≡ 1
  pub not_valid : b'.valid ≡ false
  pub not_dirty : b'.dirty ≡ false
  pub same_slot : b'.slot ≡ b.slot
  pub same_lock : b'.held ≡ b.held

-- The buffer `b'` that `bget` returns at place `i`, in place of `b`.
abbrev pub Got : ℕ → ℕ → List Buf → Result (List Buf × ℕ) → Type 0
Got dev blockno bs (panic s) =
    (d : ℕ) (b : Buf) → get_elem? bs d ≡ some b → (Holds dev blockno b → ⊥) × (IsIdle b → ⊥)
Got dev blockno bs (ok (bs', i)) =
    (b : Buf) × (b' : Buf) × (get_elem? bs i ≡ some b)
    × (get_elem? bs' i ≡ some b')
    × (Shared dev blockno b b'
        ⊎ (Recycled dev blockno b b'
            × ((d : ℕ) (c : Buf) → get_elem? bs d ≡ some c → Holds dev blockno c → ⊥)))
    × ((j : ℕ) → i ≢ j → get_elem? bs' j ≡ get_elem? bs j)
    × IsUnique bs'

get_elem?-without :
    (bs : List Buf) (i j : ℕ)
    → get_elem? (without bs i) j ≡ get_elem? bs (if ltb j i then j else j + 1)
get_elem?-without [] i j = refl
get_elem?-without (b ∷ bs) zero j = ground arith
get_elem?-without (b ∷ bs) (suc i) zero = ground arith
get_elem?-without (b ∷ bs) (suc i) (suc j) = ground (arith, get_elem?-without bs i j)

-- Buffer `i`, changed but not in its block, moves to the front.
front-IsUnique :
    (bs : List Buf) (i : ℕ) (b v : Buf)
    → IsUnique bs
    → get_elem? bs i ≡ some b
    → v.dev ≡ b.dev
    → v.blockno ≡ b.blockno
    → IsUnique (v ∷ without bs i)
front-IsUnique bs i b v u here sd sb zero zero x y ga gc nd ed eb = refl
front-IsUnique bs i b v u here sd sb zero (suc c) x y ga gc nd ed eb =
    ground (arith, get_elem?-without bs i c, u i (if ltb c i then c else c + 1) b y)
front-IsUnique bs i b v u here sd sb (suc a) zero x y ga gc nd ed eb =
    ground (arith, get_elem?-without bs i a, u (if ltb a i then a else a + 1) i x b)
front-IsUnique bs i b v u here sd sb (suc a) (suc c) x y ga gc nd ed eb = ground (
  arith,
  get_elem?-without bs i a,
  get_elem?-without bs i c,
  u (if ltb a i then a else a + 1) (if ltb c i then c else c + 1) x y,
)

-- The buffer `b` without its sleeplock and with `n` references.
pub record LeftWith (n : ℕ) (b b' : Buf) : Type 0 where
  pub count : b'.refcnt ≡ n
  pub unlocked : b'.held ≡ false
  pub same_block : Holds b.dev b.blockno b'
  pub same_flags : (b'.valid ≡ b.valid) × (b'.dirty ≡ b.dirty)
  pub same_slot : b'.slot ≡ b.slot

-- The cache after the buffer `b` at place `i` has lost a reference.
abbrev pub Released : List Buf → ℕ → Buf → List Buf → Type 0
Released bs i b bs' =
    IsUnique bs'
    × (((1 < b.refcnt)
          × ((b' : Buf) × (get_elem? bs' i ≡ some b') × LeftWith (b.refcnt - 1) b b')
          × ((j : ℕ) → i ≢ j → get_elem? bs' j ≡ get_elem? bs j))
        ⊎ ((b.refcnt ≡ 1)
            × ((b' : Buf) × (get_elem? bs' 0 ≡ some b') × LeftWith 0 b b')
            × ((j : ℕ) → get_elem? bs' (suc j) ≡ get_elem? bs (if ltb j i then j else j + 1))))

-- What `brelse` of the buffer `b` at place `i` comes to.
abbrev pub Brelse : List Buf → ℕ → Buf → Result (List Buf) → Type 0
Brelse bs i b (panic s) = (s ≡ "brelse") × (b.held ≡ false)
Brelse bs i b (ok bs') = (b.held ≡ true) × Released bs i b bs'

module _ (bs : List Buf) (i : ℕ) (b : Buf) (u : IsUnique bs) (here : get_elem? bs i ≡ some b)
    (some_ref : 0 < b.refcnt) (small : b.refcnt < 2 ^ 32) where
  less : (b.refcnt + 2 ^ 32 - 1) % 2 ^ 32 ≡ b.refcnt - 1
  less = omega arith

  abbrev left : Buf
  left = record b { held = false; refcnt = b.refcnt - 1 }

  left-LeftWith : LeftWith (b.refcnt - 1) b left
  left-LeftWith = record {
    count = refl;
    unlocked = refl;
    same_block = (refl, refl);
    same_flags = (refl, refl);
    same_slot = refl;
  }

  put_back-front :
      (b.refcnt - 1 == 0) ≡ true → put_back i (release_buf b) bs ≡ ok (left ∷ without bs i)
  unfolding put_back
  put_back-front e = simp (less, e)

  put_back-stay : (b.refcnt - 1 == 0) ≡ false → put_back i (release_buf b) bs ≡ ok (set bs i left)
  unfolding put_back
  put_back-stay e = simp (less, e)

  put_back-Released :
      (bs' : List Buf) × (put_back i (release_buf b) bs ≡ ok bs') × Released bs i b bs'
  put_back-Released = elim (Bool-cases (b.refcnt - 1 == 0)) [
    | inl e ↦ (
      left ∷ without bs i,
      put_back-front e,
      (
        front-IsUnique bs i b _ u here refl refl,
        inr (
          ground arith,
          (
            left,
            refl,
            record {
              count = ground arith;
              unlocked = refl;
              same_block = (refl, refl);
              same_flags = (refl, refl);
              same_slot = refl;
            },
          ),
          λ j. get_elem?-without bs i j,
        ),
      ),
    )
    | inr e ↦ (
      set bs i left,
      put_back-stay e,
      (
        set-IsUnique bs u i b _ here refl refl,
        inl (
          ground arith,
          (left, get_elem?-set_self bs i _ (get_elem?-lt bs i here), left-LeftWith),
          λ j ne. ground (arith, get_elem?-set bs i j left (get_elem?-lt bs i here)),
        ),
      ),
    )
  ]

  brelse-free : b.held ≡ false → brelse i bs ≡ panic "brelse"
  unfolding brelse
  brelse-free e = rw (here, brelse) (simp e)

  brelse-locked :
      (bs' : List Buf)
      → b.held ≡ true
      → put_back i (release_buf b) bs ≡ ok bs'
      → brelse i bs ≡ ok bs'
  unfolding brelse
  brelse-locked bs' locked e = rw (here, brelse) (simp (locked, e))

  -- `brelse` of a buffer that has a reference, in a cache where each block has at most one buffer,
  -- panics exactly when the process does not hold the buffer's sleeplock. Otherwise each block has
  -- at most one buffer again, and the buffer is unlocked and has one reference less; with the last
  -- one gone it moves to the front, and the others keep their order behind it; else no other changes.
  pub brelse_lem : Brelse bs i b (brelse i bs)
  brelse_lem = elim (Bool-cases b.held) [
    | inr free ↦ rw (brelse-free free) (refl, free)
    | inl locked ↦
        let (bs', e, r) = put_back-Released in rw (brelse-locked bs' locked e) (locked, r)
  ]
