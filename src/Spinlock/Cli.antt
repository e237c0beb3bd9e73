-- ===== src/Spinlock/Cli.antt =====
-- pushcli and popcli match (xv6-public/spinlock.c).
use ele.Base.{
  ℕ, zero, suc, ◌+◌, ◌-◌, ◌≤◌, ◌<◌, ◌≡◌, refl, ◌∙◌, Bool, true, false, ◌&&◌, arith, ◌==◌, leb,
  if◌then◌else◌, Result, ok, ◌>>=◌,
}
use ele.Spinlock.{Cpu, pushcli, popcli}

-- Interrupts are off while a pushcli is open.
pub record IsCpu (c : Cpu) : Type 0 where
  pub off : 0 < c.ncli → c.iflag ≡ false

-- `n` calls of pushcli
unfoldable pub push_all : ℕ → Cpu → Cpu
unfolding pushcli
push_all zero c = c
push_all (suc n) c = push_all n (pushcli c)

-- `n` calls of popcli
unfoldable pub pop_all : ℕ → Cpu → Result Cpu
unfolding popcli
pop_all zero c = ok c
pop_all (suc n) c = popcli c >>= pop_all n

push_all-fields :
    (n : ℕ) (c : Cpu)
    → ((push_all (suc n) c).ncli ≡ c.ncli + suc n)
      × ((push_all (suc n) c).iflag ≡ false)
      × ((push_all (suc n) c).intena ≡ (if c.ncli == 0 then c.iflag else c.intena))
unfolding push_all pushcli
push_all-fields zero c = (omega arith, refl, refl)
push_all-fields (suc n) c =
    let (a, b, e) = push_all-fields n (pushcli c) in (omega arith, b, ground arith)

abbrev pub popped_once : Cpu → Cpu
popped_once d = record d {
  ncli = d.ncli - 1;
  iflag = if d.ncli - 1 == 0 && d.intena then true else d.iflag;
}

pub popcli-ok : (d : Cpu) → d.iflag ≡ false → 0 < d.ncli → popcli d ≡ ok (popped_once d)
unfolding popcli
popcli-ok d off deep = let positive : leb 1 d.ncli ≡ true = ground arith in simp (off, positive)

pop_all-next : (n : ℕ) (d e : Cpu) → popcli d ≡ ok e → pop_all (suc n) d ≡ pop_all n e
unfolding pop_all
pop_all-next n d e h = rw h

-- The CPU after `n` calls of popcli.
abbrev Popped : ℕ → Cpu → Cpu → Type 0
Popped n d d' =
    (d'.ncli + n ≡ d.ncli)
    × (d'.intena ≡ d.intena)
    × (d'.iflag ≡ (if d'.ncli == 0 && d.intena then true else false))

pop_all-Popped :
    (n : ℕ) (d : Cpu)
    → d.iflag ≡ false
    → suc n ≤ d.ncli
    → (d' : Cpu) × (pop_all (suc n) d ≡ ok d') × Popped (suc n) d d'
unfolding pop_all
pop_all-Popped zero d off deep = (
  popped_once d,
  pop_all-next 0 d (popped_once d) (popcli-ok d off (omega arith)),
  (omega arith, refl, ground arith),
)
pop_all-Popped (suc n) d off deep =
    let (d', e, (a, b, f)) = pop_all-Popped n (popped_once d) (ground arith) (omega arith) in
    (
      d',
      pop_all-next (suc n) d (popped_once d) (popcli-ok d off (omega arith)) ∙ e,
      (omega arith, b, f),
    )

-- It takes as many calls of popcli to undo a number of calls of pushcli: as long as one is open
-- interrupts are off, and at the end the CPU is at the old depth with its old interrupt flag, where
-- the flag was off if another pushcli was open before. No popcli panics.
pub pop_all-push_all :
    (n : ℕ) (c : Cpu)
    → IsCpu c
    → ((push_all (suc n) c).iflag ≡ false)
      × ((c' : Cpu) × (pop_all (suc n) (push_all (suc n) c) ≡ ok c')
          × (c'.ncli ≡ c.ncli)
          × (c'.iflag ≡ c.iflag))
pop_all-push_all n c v =
    let (depth, off, saved) = push_all-fields n c in
    let (c', e, (a, b, f)) = pop_all-Popped n (push_all (suc n) c) off (omega arith) in
    (
      off,
      (c', e, omega arith, f ∙ restored c'.ncli (push_all (suc n) c).intena (omega arith) saved),
    )
  where
    restored :
        (m : ℕ) (b : Bool)
        → m ≡ c.ncli
        → b ≡ (if c.ncli == 0 then c.iflag else c.intena)
        → (if m == 0 && b then true else false) ≡ c.iflag
    restored m b e h = ground (arith, v.off)
